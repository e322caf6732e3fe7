-- ===== src/Staking.antt =====
-- The methods of staking-farm/src/stake.rs and `ping` of lib.rs, for delegators and anyone.
pub mod Exit
use staking_farm.Prelude.{ℕ, Bool, not, ◌&&◌, [], ◌∷◌, List, str_eq, ltb, if◌then◌else◌}
use staking_farm.Machine.{
  Result, ok, err, assert, ◌>>=◌, ◌>>◌, only_as_callback, one_promise_result,
}
use staking_farm.Env.{Env, PromiseResult, was_successful}
use staking_farm.Accounts.{zero_address, internal_get_account, internal_deposit}
use staking_farm.Internal.{
  min_burn_amount, internal_restake, internal_withdraw, internal_stake, inner_unstake,
  internal_ping, internal_unstake_all,
}
use staking_farm.Contract.{Sdk, World, Action, promise, schedule}

-- The one result that a callback of a stake action expects.
unfoldable pub stake_action_succeeded : List PromiseResult → Result Bool
stake_action_succeeded [] = err one_promise_result
stake_action_succeeded (r ∷ []) = ok (was_successful r)
stake_action_succeeded (_ ∷ _ ∷ _) = err one_promise_result

module _ ⦃sdk : Sdk⦄ where
  unfoldable pub restake_if : Bool → Env → World → World
  restake_if need_to_restake e w = if need_to_restake then internal_restake e w else w

  unfoldable pub ping : Env → World → Result World
  unfolding restake_if
  ping e w = do (need_to_restake, w1) ← internal_ping e w; ok (restake_if need_to_restake e w1)

  unfoldable pub deposit : Env → World → Result World
  unfolding restake_if
  deposit e w = do
    (need_to_restake, w1) ← internal_ping e w
    (_, c) ← internal_deposit e w1.contract
    ok (restake_if need_to_restake e (record w1 { contract = c }))

  unfoldable pub deposit_and_stake : Env → World → Result World
  deposit_and_stake e w = do
    (_, w1) ← internal_ping e w
    (amount, c) ← internal_deposit e w1.contract
    c1 ← internal_stake e c amount
    ok (internal_restake e (record w1 { contract = c1 }))

  unfoldable pub withdraw_all : Env → World → Result World
  unfolding restake_if
  withdraw_all e w = do
    (need_to_restake, w1) ← internal_ping e w
    let account_id = e.predecessor_account_id
    let account = internal_get_account w1.contract account_id
    w2 ← internal_withdraw e w1 account_id account.unstaked
    ok (restake_if need_to_restake e w2)

  unfoldable pub withdraw : Env → World → ℕ → Result World
  unfolding restake_if
  withdraw e w amount = do
    (need_to_restake, w1) ← internal_ping e w
    w2 ← internal_withdraw e w1 e.predecessor_account_id amount
    ok (restake_if need_to_restake e w2)

  unfoldable pub stake_all : Env → World → Result World
  stake_all e w = do
    (_, w1) ← internal_ping e w
    let account = internal_get_account w1.contract e.predecessor_account_id
    c ← internal_stake e w1.contract account.unstaked
    ok (internal_restake e (record w1 { contract = c }))

  unfoldable pub stake : Env → World → ℕ → Result World
  stake e w amount = do
    (_, w1) ← internal_ping e w
    c ← internal_stake e w1.contract amount
    ok (internal_restake e (record w1 { contract = c }))

  unfoldable pub unstake_all : Env → World → Result World
  unstake_all e w = internal_unstake_all e w e.predecessor_account_id

  unfoldable pub unstake : Env → World → ℕ → Result World
  unstake e w amount = do
    (_, w1) ← internal_ping e w
    c ← inner_unstake e w1.contract e.predecessor_account_id amount
    ok (internal_restake e (record w1 { contract = c }))

  unfoldable pub unstake_burn : Env → World → Result World
  unstake_burn e w = internal_unstake_all e w zero_address

  unfoldable pub burn : Env → World → Result World
  burn e w =
      let account = internal_get_account w.contract zero_address in
      if ltb min_burn_amount account.unstaked
      then internal_withdraw e w zero_address account.unstaked
      else ok w

  unfoldable pub on_stake_action : Env → World → Result World
  unfolding stake_action_succeeded schedule
  on_stake_action e w = do
    assert (str_eq e.current_account_id e.predecessor_account_id) only_as_callback
    succeeded ← stake_action_succeeded e.promise_results
    ok (
        if not succeeded && ltb 0 e.account_locked_balance
        then schedule w (promise e.current_account_id (Action.stake 0 w.contract.stake_public_key))
        else w)
