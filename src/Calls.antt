-- ===== src/Calls.antt =====
-- Calls of the contract from outside: the methods that change its state, as `#[near_bindgen]`
-- exposes them, and the history of an account's state under a sequence of calls.
use staking_farm.Prelude.{
  ℕ, Bool, true, false, not, ◌||◌, Option, String, List, [], ◌∷◌, str_eq, ◌==◌,
}
use staking_farm.Machine.{Result, ok, err, assert, ◌>>=◌, ◌>>◌, private_method, method_not_payable}
use staking_farm.Sdk.{AccountId}
use staking_farm.Env.{Env}
use staking_farm.Ratio.{Ratio}
use staking_farm.Contract.{Sdk, World, Promise, schedule}
use staking_farm.Staking
use staking_farm.Owner
use staking_farm.Claims
use staking_farm.TokenReceiver
use staking_farm.Upgrade

module _ ⦃sdk : Sdk⦄ where
  pub data Call : Type 0 where
    ping deposit deposit_and_stake withdraw_all stake_all unstake_all unstake_burn burn : Call
    withdraw stake unstake : ℕ → Call
    on_stake_action : Call
    claim : AccountId → Option AccountId → Call
    callback_post_get_owner : AccountId → AccountId → AccountId → Call
    callback_post_withdraw_reward : AccountId → AccountId → ℕ → Call
    stop_farm : ℕ → Call
    ft_on_transfer : AccountId → ℕ → String → Call
    set_owner_id : AccountId → Call
    update_staking_key : sdk.PublicKey → Call
    update_reward_fee_fraction decrease_burn_fee_fraction : Ratio → Call
    pause_staking resume_staking : Call
    add_authorized_user remove_authorized_user : AccountId → Call
    add_authorized_farm_token remove_authorized_farm_token : AccountId → Call
    upgrade : String → Call
    update migrate : Call

  -- The methods with `#[payable]`. `set_owner_id` has no receiver, and the exported functions no
  -- wrapper, so that nothing checks their deposit.
  unfoldable pub accepts_deposit : Call → Bool
  accepts_deposit deposit = true
  accepts_deposit deposit_and_stake = true
  accepts_deposit (claim _ _) = true
  accepts_deposit (set_owner_id _) = true
  accepts_deposit (upgrade _) = true
  accepts_deposit update = true
  accepts_deposit migrate = true
  accepts_deposit _ = false

  -- The methods with `#[private]`, which only the contract itself may call.
  unfoldable pub is_private : Call → Bool
  is_private (callback_post_get_owner _ _ _) = true
  is_private (callback_post_withdraw_reward _ _ _) = true
  is_private _ = false

  -- A promise that a method returns is scheduled.
  unfoldable pub returning : Result (Promise × World) → Result World
  unfolding schedule
  returning r = do (p, w) ← r; ok (schedule w p)

  unfoldable pub dispatch : Env → World → Call → Result World
  unfolding returning
  dispatch e w ping = Staking.ping e w
  dispatch e w deposit = Staking.deposit e w
  dispatch e w deposit_and_stake = Staking.deposit_and_stake e w
  dispatch e w withdraw_all = Staking.withdraw_all e w
  dispatch e w stake_all = Staking.stake_all e w
  dispatch e w unstake_all = Staking.unstake_all e w
  dispatch e w unstake_burn = Staking.unstake_burn e w
  dispatch e w burn = Staking.burn e w
  dispatch e w (withdraw amount) = Staking.withdraw e w amount
  dispatch e w (stake amount) = Staking.stake e w amount
  dispatch e w (unstake amount) = Staking.unstake e w amount
  dispatch e w on_stake_action = Staking.on_stake_action e w
  dispatch e w (claim token_id delegator_id) = returning (Claims.claim e w token_id delegator_id)
  dispatch e w (callback_post_get_owner token_id delegator_id account_id) =
      returning (Claims.callback_post_get_owner e w token_id delegator_id account_id)
  dispatch e w (callback_post_withdraw_reward token_id sender_id amount) =
      Claims.callback_post_withdraw_reward e w token_id sender_id amount
  dispatch e w (stop_farm farm_id) = returning (Claims.stop_farm e w farm_id)
  dispatch e w (ft_on_transfer sender_id amount msg) = do
    (_, w1) ← TokenReceiver.ft_on_transfer e w sender_id amount msg
    ok w1
  dispatch e w (set_owner_id owner_id) = Owner.set_owner_id e w owner_id
  dispatch e w (update_staking_key key) = Owner.update_staking_key e w key
  dispatch e w (update_reward_fee_fraction r) = Owner.update_reward_fee_fraction e w r
  dispatch e w (decrease_burn_fee_fraction r) = Owner.decrease_burn_fee_fraction e w r
  dispatch e w pause_staking = Owner.pause_staking e w
  dispatch e w resume_staking = Owner.resume_staking e w
  dispatch e w (add_authorized_user id) = Owner.add_authorized_user e w id
  dispatch e w (remove_authorized_user id) = Owner.remove_authorized_user e w id
  dispatch e w (add_authorized_farm_token id) = Owner.add_authorized_farm_token e w id
  dispatch e w (remove_authorized_farm_token id) = Owner.remove_authorized_farm_token e w id
  dispatch e w (upgrade input) = Upgrade.upgrade e w input
  dispatch e w update = Upgrade.update e w
  dispatch e w migrate = Upgrade.migrate e w

  unfoldable pub execute : Env → World → Call → Result World
  unfolding accepts_deposit is_private
  execute e w call = do
    assert (not (is_private call) || str_eq e.predecessor_account_id e.current_account_id)
        private_method
    assert (accepts_deposit call || e.attached_deposit == 0) method_not_payable
    dispatch e w call

  -- A call that panics leaves no trace.
  unfoldable pub transact : Env → World → Call → World
  transact e w call = elim (execute e w call) [ ok w' ↦ w' | err _ ↦ w ]

  -- The state after a sequence of calls, each in its own environment.
  unfoldable pub history : World → List (Env × Call) → World
  unfolding transact
  history w [] = w
  history w ((e, call) ∷ calls) = history (transact e w call) calls
