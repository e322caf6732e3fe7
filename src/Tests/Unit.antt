-- ===== src/Tests/Unit.antt =====
-- The unit tests of staking-farm/src/lib.rs, run on the definitions of this library.
mod Delegation
mod Delegates
mod Farms
mod Factory
use staking_farm.Prelude.{
  ℕ, ◌*◌, refl, true, false, Option, none, some, String, str_eq, ◌+◌, ◌==◌, if◌then◌else◌, [],
}
use staking_farm.Machine.{Result, ok, ◌>>=◌, assert, requires_one_yocto}
use staking_farm.Env.{Env}
use staking_farm.Account.{Account}
use staking_farm.Farm.{Farm, FarmingDetails}
use staking_farm.Ratio.{Ratio}
use staking_farm.Contract.{Sdk}
use staking_farm.HashMap.{lookup, insert, get_or_zero}
use staking_farm.Sdk.{AccountId}
use staking_farm.Ratio.{multiply}
use staking_farm.RewardFee.{new_fee, current}
use staking_farm.Accounts.{
  stored_account, internal_get_account, is_kept, internal_save_account, internal_deposit,
  internal_add_shares,
}
use staking_farm.Shares.{
  num_shares_from_staked_amount_rounded_down, num_shares_from_staked_amount_rounded_up,
  staked_amount_from_num_shares_rounded_down, staked_amount_from_num_shares_rounded_up,
}
use staking_farm.Distribution.{
  cap_reward, raise_reward_per_share, reward_per_session, distribute_until,
  internal_calculate_distribution,
}
use staking_farm.Rewards.{
  share_reward, add_amount, internal_get_farm, farmed_shares, claim_from,
  internal_unclaimed_balance, internal_distribute_reward, distribute_farm, distribute_farms,
  internal_distribute_all_rewards,
}
use staking_farm.Internal.{
  internal_restake, internal_ping, distribute_total_reward, internal_stake, inner_unstake,
}
use staking_farm.Staking.{ping, deposit, stake, unstake}
use staking_farm.Views.{get_account_staked_balance, get_account_unstaked_balance}
use staking_farm.Tests.Collections.{list_map, list_set, list_vector}
use staking_farm.Tests.Example.{one_success, one_value}
use staking_farm.Tests.Emulator.{
  Emulator, new_emulator, owner, one_epoch_ts, update_context, call, simulate_stake_call,
  skip_epochs,
}

-- The text of the message of `add_farm` is not modelled: the message "test" is parsed as it is.
abbrev details : String → Option FarmingDetails
details msg =
    if str_eq msg "test"
    then some (record {
      name = some "test";
      start_date = some 0;
      end_date = one_epoch_ts * 4;
      farm_id = none;
    })
    else none

instance abbrev pub unit_sdk : Sdk
unit_sdk = record {
  accounts = list_map Account;
  farms = list_vector Farm;
  ids = list_set;
  PublicKey = ℕ;
  is_valid_account_id = λ _. true;
  parse_details = details;
  parse_account_id = some;
  is_promise_success = one_success;
  is_promise_success_one = λ r. refl;
  promise_result_as_success = one_value;
  promise_result_as_success_one = λ r. refl;
  assert_one_yocto = λ n. assert (n == 1) requires_one_yocto;
  assert_one_yocto_lem = λ n. refl;
}

-- A context to build upon, of an account without a state.
abbrev pub builder : Env
builder = record {
  predecessor_account_id = "bob";
  current_account_id = "alice";
  attached_deposit = 0;
  account_balance = 0;
  account_locked_balance = 0;
  epoch_height = 0;
  block_timestamp = 0;
  prepaid_gas = 300_000_000_000_000;
  used_gas = 0;
  state_exists = false;
  promise_results = [];
}

-- The pool of each test, with a staking key.
unfoldable pub new_pool : Ratio → Result Emulator
unfolding new_emulator new_fee internal_restake
new_pool fee = new_emulator builder owner 7 fee

-- The views of the contract in the context.
unfoldable pub staked_balance : Emulator → AccountId → Result ℕ
unfolding get_account_staked_balance staked_amount_from_num_shares_rounded_down internal_get_account
    stored_account
staked_balance m id = get_account_staked_balance m.context m.contract.contract id

unfoldable pub unstaked_balance : Emulator → AccountId → Result ℕ
unfolding get_account_unstaked_balance staked_amount_from_num_shares_rounded_down
    internal_get_account stored_account
unstaked_balance m id = get_account_unstaked_balance m.context m.contract.contract id

-- `ping`, with all that it computes.
unfoldable pub ping_as : Emulator → AccountId → Result Emulator
unfolding update_context call ping internal_ping distribute_total_reward multiply current
    num_shares_from_staked_amount_rounded_down internal_add_shares internal_get_account
    stored_account internal_save_account is_kept internal_restake
ping_as m id = do m1 ← update_context builder m id 0; call m1 ping

-- A deposit in a context of its own.
unfoldable pub deposit_as : Emulator → AccountId → ℕ → Result Emulator
unfolding update_context call deposit ping_as internal_deposit
deposit_as m id amount = do
  m1 ← update_context builder m id amount
  m2 ← call m1 deposit
  ok (record m2 { amount = m2.amount + amount })

-- A stake in the context as it is, and its stake call.
unfoldable pub stake_now : Emulator → ℕ → Result Emulator
unfolding ping_as stake internal_stake internal_distribute_all_rewards distribute_farms
    distribute_farm internal_distribute_reward internal_unclaimed_balance
    internal_calculate_distribution distribute_until cap_reward raise_reward_per_share
    reward_per_session claim_from farmed_shares share_reward add_amount internal_get_farm
    staked_amount_from_num_shares_rounded_down staked_amount_from_num_shares_rounded_up
    simulate_stake_call lookup insert get_or_zero
stake_now m amount = do m1 ← call m (λ e w. stake e w amount); simulate_stake_call builder m1

unfoldable pub unstake_now : Emulator → ℕ → Result Emulator
unfolding stake_now unstake inner_unstake num_shares_from_staked_amount_rounded_up
unstake_now m amount = do m1 ← call m (λ e w. unstake e w amount); simulate_stake_call builder m1

-- A reward for the stake of a number of epochs.
unfoldable pub skip_with_reward : Emulator → ℕ → ℕ → Result Emulator
unfolding skip_epochs
skip_with_reward m num reward = do
  m1 ← skip_epochs builder m num
  ok (record m1 { locked_amount = m.locked_amount + reward })
