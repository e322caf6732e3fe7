-- ===== src/Tests/Unit/Farms.antt =====
-- Farms and the reward fee in the unit tests of staking-farm/src/lib.rs.
use staking_farm.Prelude.{ℕ, ◌+◌, ◌*◌, ◌/◌, ◌≡◌, refl, Bool, ◌&&◌, none, ◌==◌, str_eq}
use staking_farm.Machine.{
  Result, ok, err, assert, ◌>>=◌, ◌>>◌, assertion_failed, err_not_authorized_token,
  err_farm_amount_too_small,
}
use staking_farm.Sdk.{AccountId}
use staking_farm.Ratio.{Ratio}
use staking_farm.RewardFee.{set, next}
use staking_farm.HashMap.{remove}
use staking_farm.Farms.{internal_claim, internal_deposit_farm_tokens}
use staking_farm.Claims.{claim, stop_farm}
use staking_farm.Owner.{add_authorized_farm_token, update_reward_fee_fraction}
use staking_farm.TokenReceiver.{ft_on_transfer}
use staking_farm.Views.{
  get_farm, readable_farm, get_unclaimed_reward, get_reward_fee_fraction, get_pool_summary,
  get_active_farms, collect,
}
use staking_farm.Tests.Emulator.{
  Emulator, alice, bob, owner, charlie, zero_fee, ntoy, almost_equal, one_epoch_ts, update_context,
  call, deposit_and_stake_as, skip_epochs,
}
use staking_farm.Tests.Unit.{unit_sdk, builder, new_pool, ping_as, deposit_as, stake_now}

unfoldable unclaimed : Emulator → AccountId → Result ℕ
unfolding get_unclaimed_reward stake_now
unclaimed m id = get_unclaimed_reward m.context m.contract.contract id 0

unfoldable add_farm : Emulator → ℕ → Result Emulator
unfolding update_context call ft_on_transfer internal_deposit_farm_tokens
add_farm m amount = do
  m1 ← update_context builder m bob 0
  call m1 (λ e w. do (_, w1) ← ft_on_transfer e w owner amount "test"; ok w1)

-- A pool that takes the tokens of "bob".
unfoldable authorized_pool : Result Emulator
unfolding new_pool update_context call add_authorized_farm_token
authorized_pool = do
  m ← new_pool zero_fee
  m1 ← update_context builder m owner 0
  call m1 (λ e w. add_authorized_farm_token e w bob)

unfoldable test_farm : Result (Unit {0})
unfolding authorized_pool add_farm deposit_and_stake_as stake_now deposit_as get_farm readable_farm
    unclaimed skip_epochs update_context almost_equal claim internal_claim remove ntoy
test_farm = do
  m ← authorized_pool
  m1 ← add_farm m (ntoy 100)
  m2 ← deposit_and_stake_as builder m1 alice (ntoy 1_000_000)
  farm ← get_farm m2.contract.contract 0
  assert (str_eq farm.name "test") assertion_failed
  assert (str_eq farm.token_id bob) assertion_failed
  assert (farm.start_date == 0) assertion_failed
  assert (farm.end_date == one_epoch_ts * 4) assertion_failed
  assert (farm.amount == ntoy 100) assertion_failed
  at_first ← unclaimed m2 alice
  assert (at_first == 0) assertion_failed
  m3 ← skip_epochs builder m2 1
  m4 ← update_context builder m3 alice 0
  quarter ← unclaimed m4 alice
  assert (almost_equal quarter (ntoy 25) (ntoy 1 / 100)) assertion_failed
  m5 ← deposit_and_stake_as builder m4 charlie (ntoy 1_000_000)
  m6 ← skip_epochs builder m5 1
  of_alice ← unclaimed m6 alice
  assert (almost_equal of_alice (ntoy 375_612 / 10_000) (ntoy 1 / 100)) assertion_failed
  charlie_farmed ← unclaimed m6 charlie
  assert (almost_equal charlie_farmed (ntoy 124_388 / 10_000) (ntoy 1 / 100)) assertion_failed
  m7 ← deposit_and_stake_as builder m6 charlie (ntoy 1_000_000)
  same ← unclaimed m7 charlie
  assert (same == charlie_farmed) assertion_failed
  m8 ← skip_epochs builder m7 1
  more ← unclaimed m8 charlie
  assert (almost_equal more (charlie_farmed + ntoy 165_834 / 10_000) (ntoy 1 / 100))
      assertion_failed
  m9 ← update_context builder m8 alice 1
  m10 ← call m9 (λ e w. do (_, w1) ← claim e w bob none; ok w1)
  rest ← unclaimed m10 alice
  assert (rest == 0) assertion_failed

unfoldable test_stop_farm : Result (Unit {0})
unfolding authorized_pool add_farm deposit_and_stake_as stake_now deposit_as unclaimed skip_epochs
    update_context almost_equal stop_farm ntoy
test_stop_farm = do
  m ← authorized_pool
  m1 ← add_farm m (ntoy 100)
  m2 ← deposit_and_stake_as builder m1 alice (ntoy 1_000_000)
  m3 ← skip_epochs builder m2 1
  quarter ← unclaimed m3 alice
  assert (almost_equal quarter (ntoy 25) (ntoy 1 / 100)) assertion_failed
  m4 ← update_context builder m3 owner 0
  m5 ← call m4 (λ e w. do (_, w1) ← stop_farm e w 0; ok w1)
  m6 ← skip_epochs builder m5 1
  still ← unclaimed m6 alice
  assert (almost_equal still (ntoy 25) (ntoy 1 / 100)) assertion_failed

unfoldable test_farm_not_authorized_token : Result Emulator
unfolding new_pool add_farm ntoy
test_farm_not_authorized_token = do m ← new_pool zero_fee; add_farm m (ntoy 100)

unfoldable test_farm_too_small_amount : Result Emulator
unfolding authorized_pool add_farm
test_farm_too_small_amount = do m ← authorized_pool; add_farm m 100

unfoldable same_ratio : Ratio → Ratio → Bool
same_ratio a b = a.numerator == b.numerator && a.denominator == b.denominator

-- Whether the fee of the context is the given one.
unfoldable has_fee : Emulator → Ratio → Bool
unfolding get_reward_fee_fraction same_ratio
has_fee m fee = same_ratio (get_reward_fee_fraction m.context m.contract.contract) fee

unfoldable test_change_reward_fee : Result (Unit {0})
unfolding new_pool update_context call update_reward_fee_fraction ping_as set has_fee
    get_pool_summary get_active_farms collect next skip_epochs
test_change_reward_fee = do
  let new_fee : Ratio = record { numerator = 1; denominator = 10 }
  let new_fee2 : Ratio = record { numerator = 2; denominator = 10 }
  m ← new_pool zero_fee
  assert (has_fee m zero_fee) assertion_failed
  m1 ← update_context builder m owner 0
  m2 ← call m1 (λ e w. update_reward_fee_fraction e w new_fee)
  assert (has_fee m2 zero_fee) assertion_failed
  summary ← get_pool_summary m2.context m2.contract
  assert (same_ratio summary.next_reward_fee_fraction new_fee) assertion_failed
  m3 ← skip_epochs builder m2 1
  assert (has_fee m3 zero_fee) assertion_failed
  m4 ← skip_epochs builder m3 3
  assert (has_fee m4 new_fee) assertion_failed
  m5 ← update_context builder m4 owner 0
  m6 ← call m5 (λ e w. update_reward_fee_fraction e w new_fee2)
  assert (has_fee m6 new_fee) assertion_failed

farm_passes : test_farm ≡ ok tt
unfolding test_farm
farm_passes = refl

stop_farm_passes : test_stop_farm ≡ ok tt
unfolding test_stop_farm
stop_farm_passes = refl

farm_not_authorized_token_panics : test_farm_not_authorized_token ≡ err err_not_authorized_token
unfolding test_farm_not_authorized_token
farm_not_authorized_token_panics = refl

farm_too_small_amount_panics : test_farm_too_small_amount ≡ err err_farm_amount_too_small
unfolding test_farm_too_small_amount
farm_too_small_amount_panics = refl

change_reward_fee_passes : test_change_reward_fee ≡ ok tt
unfolding test_change_reward_fee
change_reward_fee_passes = refl
