-- ===== src/Internal.antt =====
-- The internal methods of staking-farm/src/internal.rs: staking, unstaking, withdrawing, and the
-- distribution of an epoch's rewards.
pub mod Outcome
pub mod Price
pub mod Ping
pub mod Fees
pub mod Delegators
pub mod Stakes
use staking_farm.Prelude.{ℕ, ◌+◌, Bool, true, false, ltb, leb, ◌==◌, if◌then◌else◌}
use staking_farm.Machine.{
  Result, ok, err, assert, expect, add_u64, add_u128, sub, ◌>>=◌, ◌>>◌, withdraw_not_positive,
  not_enough_unstaked, unstaked_locked, stake_not_positive, shares_not_positive,
  charge_not_positive, not_enough_to_stake, unstake_not_positive, no_staked_balance,
  not_enough_staked, receive_not_positive, total_balance_decreased, must_have_owner,
  must_have_factory,
}
use staking_farm.Sdk.{AccountId}
use staking_farm.Env.{Env}
use staking_farm.Ratio.{multiply}
use staking_farm.RewardFee.{current, num_epochs_to_unlock}
use staking_farm.Account.{Account}
use staking_farm.Accounts.{
  zero_address, internal_get_account, internal_save_account, internal_add_shares,
}
use staking_farm.Rewards.{internal_distribute_all_rewards}
use staking_farm.Shares.{
  num_shares_from_staked_amount_rounded_down, num_shares_from_staked_amount_rounded_up,
  staked_amount_from_num_shares_rounded_down, staked_amount_from_num_shares_rounded_up,
}
use staking_farm.Contract.{Sdk, StakingContract, World, Action, promise, and_then, Method, schedule}

-- The constants ON_STAKE_ACTION_GAS, NO_DEPOSIT and MIN_BURN_AMOUNT.
abbrev pub on_stake_action_gas : ℕ
on_stake_action_gas = 20_000_000_000_000

abbrev pub no_deposit : ℕ
no_deposit = 0

abbrev pub min_burn_amount : ℕ
min_burn_amount = 1_694_457_700_619_870_000_000

module _ ⦃sdk : Sdk⦄ where
  unfoldable pub internal_restake : Env → World → World
  unfolding schedule
  internal_restake e w =
      if w.contract.paused
      then w
      else schedule w (
          and_then
            (promise e.current_account_id
              (Action.stake w.contract.total_staked_balance w.contract.stake_public_key))
            (promise e.current_account_id
              (Action.function_call Method.on_stake_action no_deposit on_stake_action_gas)))

  unfoldable pub internal_withdraw : Env → World → AccountId → ℕ → Result World
  unfolding sub schedule
  internal_withdraw e w id amount = do
    assert (ltb 0 amount) withdraw_not_positive
    let account = internal_get_account w.contract id
    assert (leb amount account.unstaked) not_enough_unstaked
    assert (leb account.unstaked_available_epoch_height e.epoch_height) unstaked_locked
    unstaked ← sub account.unstaked amount
    let c = internal_save_account w.contract id (record account { unstaked = unstaked })
    let w1 = schedule w (promise id (Action.transfer amount))
    total ← sub c.last_total_balance amount
    ok (record w1 { contract = record c { last_total_balance = total } })

  unfoldable pub internal_stake : Env → StakingContract → ℕ → Result StakingContract
  unfolding sub add_u128
  internal_stake e c amount = do
    assert (ltb 0 amount) stake_not_positive
    let id = e.predecessor_account_id
    (c1, account) ← internal_distribute_all_rewards e c (internal_get_account c id)
    num_shares ← num_shares_from_staked_amount_rounded_down c1 amount
    assert (ltb 0 num_shares) shares_not_positive
    charge_amount ← staked_amount_from_num_shares_rounded_down c1 num_shares
    assert (ltb 0 charge_amount) charge_not_positive
    assert (leb charge_amount account.unstaked) not_enough_to_stake
    unstaked ← sub account.unstaked charge_amount
    shares ← add_u128 account.stake_shares num_shares
    let c2 =
        internal_save_account c1 id (record account { unstaked = unstaked; stake_shares = shares })
    stake_amount ← staked_amount_from_num_shares_rounded_up c2 num_shares
    total_staked ← add_u128 c2.total_staked_balance stake_amount
    total_shares ← add_u128 c2.total_stake_shares num_shares
    ok (record c2 { total_staked_balance = total_staked; total_stake_shares = total_shares })

  unfoldable pub inner_unstake : Env → StakingContract → AccountId → ℕ → Result StakingContract
  unfolding sub add_u128 add_u64
  inner_unstake e c id amount = do
    assert (ltb 0 amount) unstake_not_positive
    (c1, account) ← internal_distribute_all_rewards e c (internal_get_account c id)
    assert (ltb 0 c1.total_staked_balance) no_staked_balance
    num_shares ← num_shares_from_staked_amount_rounded_up c1 amount
    assert (ltb 0 num_shares) shares_not_positive
    assert (leb num_shares account.stake_shares) not_enough_staked
    receive_amount ← staked_amount_from_num_shares_rounded_up c1 num_shares
    assert (ltb 0 receive_amount) receive_not_positive
    shares ← sub account.stake_shares num_shares
    unstaked ← add_u128 account.unstaked receive_amount
    available ← add_u64 e.epoch_height num_epochs_to_unlock
    let c2 = internal_save_account c1 id (record account {
      stake_shares = shares;
      unstaked = unstaked;
      unstaked_available_epoch_height = available;
    })
    unstake_amount ← staked_amount_from_num_shares_rounded_down c2 num_shares
    total_staked ← sub c2.total_staked_balance unstake_amount
    total_shares ← sub c2.total_stake_shares num_shares
    total_burn ←
        (if account.is_burn_account
          then sub c2.total_burn_shares num_shares
          else ok c2.total_burn_shares)
    ok (record c2 {
      total_staked_balance = total_staked;
      total_stake_shares = total_shares;
      total_burn_shares = total_burn;
    })

  unfoldable pub internal_get_owner_id : World → Result AccountId
  internal_get_owner_id w = expect w.owner must_have_owner

  unfoldable pub internal_get_factory_id : World → Result AccountId
  internal_get_factory_id w = expect w.factory must_have_factory

  -- The part of `internal_ping` under `if total_reward > 0`; the owner is read when it is needed.
  unfoldable pub distribute_total_reward :
      Env → StakingContract → Result AccountId → ℕ → Result StakingContract
  unfolding sub add_u128
  distribute_total_reward e c owner total_reward = do
    burn_fee ← multiply c.burn_fee_fraction total_reward
    rest ← sub total_reward burn_fee
    owners_fee ← multiply (current e.epoch_height c.reward_fee_fraction) rest
    without_owner ← sub total_reward owners_fee
    remaining_reward ← sub without_owner burn_fee
    staked ← add_u128 c.total_staked_balance remaining_reward
    let c1 = record c { total_staked_balance = staked }
    num_burn_shares ← num_shares_from_staked_amount_rounded_down c1 burn_fee
    burn_shares ← add_u128 c1.total_burn_shares num_burn_shares
    let c2 = record c1 { total_burn_shares = burn_shares }
    num_owner_shares ← num_shares_from_staked_amount_rounded_down c2 owners_fee
    c3 ← internal_add_shares c2 zero_address num_burn_shares
    owner_id ← owner
    c4 ← internal_add_shares c3 owner_id num_owner_shares
    fees ← add_u128 owners_fee burn_fee
    staked' ← add_u128 c4.total_staked_balance fees
    ok (record c4 { total_staked_balance = staked' })

  -- The balance of the account, locked and unlocked, without the deposit of this call.
  unfoldable pub total_balance : Env → Result ℕ
  unfolding sub add_u128
  total_balance e = do
    both ← add_u128 e.account_locked_balance e.account_balance
    sub both e.attached_deposit

  unfoldable pub internal_ping : Env → World → Result (Bool × World)
  unfolding sub total_balance internal_get_owner_id
  internal_ping e w = if w.contract.last_epoch_height == e.epoch_height then ok (false, w) else (do
    let c = record w.contract { last_epoch_height = e.epoch_height }
    total ← total_balance e
    assert (leb c.last_total_balance total) total_balance_decreased
    total_reward ← sub total c.last_total_balance
    c1 ←
        (if ltb 0 total_reward
          then distribute_total_reward e c (internal_get_owner_id w) total_reward
          else ok c)
    ok (true, record w { contract = record c1 { last_total_balance = total } }))

  unfoldable pub internal_unstake_all : Env → World → AccountId → Result World
  internal_unstake_all e w id = do
    (_, w1) ← internal_ping e w
    let account = internal_get_account w1.contract id
    amount ← staked_amount_from_num_shares_rounded_down w1.contract account.stake_shares
    c ← inner_unstake e w1.contract id amount
    ok (internal_restake e (record w1 { contract = c }))
