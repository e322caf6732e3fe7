-- ===== src/Tests/Unit/Delegation.antt =====
-- Deposits, stakes and unstakes in the unit tests of staking-farm/src/lib.rs.
use staking_farm.Prelude.{◌+◌, ◌*◌, ◌/◌, ◌≡◌, refl, not, List, ◌∷◌, [], ◌==◌, str_eq}
use staking_farm.Machine.{Result, ok, assert, ◌>>=◌, ◌>>◌, assertion_failed}
use staking_farm.Ratio.{Ratio}
use staking_farm.Env.{failed}
use staking_farm.Contract.{Promise, promise, and_then, Action, Method, schedule}
use staking_farm.Internal.{internal_withdraw, internal_unstake_all, internal_restake}
use staking_farm.Staking.{
  deposit_and_stake, withdraw, unstake_all, on_stake_action, stake_action_succeeded,
}
use staking_farm.Views.{get_account, get_number_of_accounts, is_account_unstaked_balance_available}
use staking_farm.Tests.Emulator.{
  Emulator, staking, bob, owner, zero_fee, ntoy, yton, eq_in_near, update_context, call,
  simulate_stake_call, skip_epochs,
}
use staking_farm.Tests.Unit.{
  unit_sdk, builder, new_pool, staked_balance, unstaked_balance, ping_as, deposit_as, stake_now,
  unstake_now, skip_with_reward,
}

-- The receipts of the two parts.
unfoldable test_restake_fail : Result (List Promise × List Promise)
unfolding new_pool update_context call simulate_stake_call internal_restake on_stake_action
    stake_action_succeeded schedule
test_restake_fail = do
  m ← new_pool zero_fee
  m1 ← update_context builder m bob 0
  m2 ← call m1 (λ e w. ok (internal_restake e w))
  m3 ← simulate_stake_call builder m2
  m4 ← update_context builder m3 staking 0
  let m5 = record m4 { context = record m4.context { promise_results = failed ∷ [] } }
  m6 ← call m5 on_stake_action
  ok (m2.contract.scheduled, m6.contract.scheduled)

unfoldable test_deposit_withdraw : Result (Unit {0})
unfolding new_pool deposit_as update_context call withdraw internal_withdraw unstaked_balance ntoy
test_deposit_withdraw = do
  let deposit_amount = ntoy 1_000_000
  m ← new_pool zero_fee
  m1 ← deposit_as m bob deposit_amount
  m2 ← update_context builder m1 bob 0
  before ← unstaked_balance m2 bob
  assert (before == deposit_amount) assertion_failed
  m3 ← call m2 (λ e w. withdraw e w deposit_amount)
  after ← unstaked_balance m3 bob
  assert (after == 0) assertion_failed

-- Deposit and stake of the test's amount by "bob".
unfoldable staked_pool : Ratio → Result Emulator
unfolding new_pool deposit_as update_context stake_now staked_balance ntoy
staked_pool fee = do
  let deposit_amount = ntoy 1_000_000
  m ← new_pool fee
  m1 ← deposit_as m bob deposit_amount
  m2 ← update_context builder m1 bob 0
  m3 ← stake_now m2 deposit_amount
  staked ← staked_balance m3 bob
  assert (staked == deposit_amount) assertion_failed
  ok m3

unfoldable test_stake_with_fee : Result (Unit {0})
unfolding staked_pool skip_with_reward ping_as staked_balance eq_in_near get_number_of_accounts
test_stake_with_fee = do
  let deposit_amount = ntoy 1_000_000
  m ← staked_pool (record { numerator = 10; denominator = 100 })
  let n_locked_amount = yton m.locked_amount
  m1 ← skip_with_reward m 10 (ntoy 100_000)
  m2 ← ping_as m1 bob
  let expected_amount =
      deposit_amount + ntoy ((yton deposit_amount * 90_000 + n_locked_amount / 2) / n_locked_amount)
  staked ← staked_balance m2 bob
  assert (eq_in_near staked expected_amount) assertion_failed
  earned ← staked_balance m2 owner
  assert (eq_in_near earned (ntoy 10_000)) assertion_failed
  let n_locked_amount2 = yton m2.locked_amount
  m3 ← skip_with_reward m2 10 (ntoy 100_000)
  m4 ← ping_as m3 bob
  staked2 ← staked_balance m4 bob
  assert
      (eq_in_near staked2 (
        expected_amount
        + ntoy ((yton expected_amount * 90_000 + n_locked_amount2 / 2) / n_locked_amount2)))
      assertion_failed
  earned2 ← staked_balance m4 owner
  assert
      (eq_in_near earned2 (
        ntoy 10_000
        + ntoy 10_000
        + ntoy ((10_000 * 90_000 + n_locked_amount2 / 2) / n_locked_amount2)))
      assertion_failed
  assert (get_number_of_accounts m4.contract.contract == 2) assertion_failed

unfoldable test_stake_unstake : Result (Unit {0})
unfolding staked_pool skip_with_reward ping_as unstake_now staked_balance unstaked_balance
    eq_in_near get_account is_account_unstaked_balance_available skip_epochs
test_stake_unstake = do
  let deposit_amount = ntoy 1_000_000
  m ← staked_pool zero_fee
  m1 ← skip_with_reward m 10 (ntoy 10)
  m2 ← ping_as m1 bob
  staked ← staked_balance m2 bob
  assert (eq_in_near staked (deposit_amount + ntoy 10)) assertion_failed
  m3 ← unstake_now m2 (deposit_amount / 2)
  staked2 ← staked_balance m3 bob
  assert (eq_in_near staked2 (deposit_amount / 2 + ntoy 10)) assertion_failed
  unstaked ← unstaked_balance m3 bob
  assert (eq_in_near unstaked (deposit_amount / 2)) assertion_failed
  acc ← get_account m3.context m3.contract.contract bob
  assert (str_eq acc.account_id bob) assertion_failed
  assert (eq_in_near acc.unstaked_balance (deposit_amount / 2)) assertion_failed
  assert (eq_in_near acc.staked_balance (deposit_amount / 2 + ntoy 10)) assertion_failed
  assert (not acc.can_withdraw) assertion_failed
  early ← is_account_unstaked_balance_available m3.context m3.contract.contract bob
  assert (not early) assertion_failed
  m4 ← skip_epochs builder m3 4
  m5 ← update_context builder m4 bob 0
  due ← is_account_unstaked_balance_available m5.context m5.contract.contract bob
  assert due assertion_failed

unfoldable test_stake_all_unstake_all : Result (Unit {0})
unfolding new_pool update_context call deposit_and_stake deposit_as stake_now skip_with_reward
    ping_as unstake_now unstake_all internal_unstake_all simulate_stake_call staked_balance
    unstaked_balance eq_in_near
test_stake_all_unstake_all = do
  let deposit_amount = ntoy 1_000_000
  m ← new_pool zero_fee
  m1 ← update_context builder m bob deposit_amount
  m2 ← call m1 deposit_and_stake
  m3 ← simulate_stake_call builder (record m2 { amount = m2.amount + deposit_amount })
  staked ← staked_balance m3 bob
  assert (staked == deposit_amount) assertion_failed
  unstaked ← unstaked_balance m3 bob
  assert (eq_in_near unstaked 0) assertion_failed
  m4 ← skip_with_reward m3 10 (ntoy 10)
  m5 ← ping_as m4 bob
  staked2 ← staked_balance m5 bob
  assert (eq_in_near staked2 (deposit_amount + ntoy 10)) assertion_failed
  m6 ← call m5 unstake_all
  m7 ← simulate_stake_call builder m6
  staked3 ← staked_balance m7 bob
  assert (eq_in_near staked3 0) assertion_failed
  unstaked2 ← unstaked_balance m7 bob
  assert (eq_in_near unstaked2 (deposit_amount + ntoy 10)) assertion_failed

restake_fail_passes :
    test_restake_fail
    ≡ ok (
      and_then
            (promise "staking" (Action.stake 29_999_999_999_999_000_000_000_000 7))
            (promise "staking" (Action.function_call Method.on_stake_action 0 20_000_000_000_000))
          ∷ [],
      promise "staking" (Action.stake 0 7) ∷ [],
    )
unfolding test_restake_fail
restake_fail_passes = refl

deposit_withdraw_passes : test_deposit_withdraw ≡ ok tt
unfolding test_deposit_withdraw
deposit_withdraw_passes = refl

stake_with_fee_passes : test_stake_with_fee ≡ ok tt
unfolding test_stake_with_fee
stake_with_fee_passes = refl

stake_unstake_passes : test_stake_unstake ≡ ok tt
unfolding test_stake_unstake
stake_unstake_passes = refl

stake_all_unstake_all_passes : test_stake_all_unstake_all ≡ ok tt
unfolding test_stake_all_unstake_all
stake_all_unstake_all_passes = refl
