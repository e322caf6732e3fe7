-- ===== src/Tests/Administration.antt =====
-- The methods of the owner and the factory, the fees, and the history of the example.
use staking_farm.Prelude.{
  ◌*◌, ◌/◌, ◌≤◌, ◌<◌, ◌≡◌, refl, true, Option, some, String, List, [], ◌∷◌, arith,
}
use staking_farm.Prelude.Lists.{length}
use staking_farm.Machine.{ok}
use staking_farm.Env.{Env}
use staking_farm.Ratio.{Ratio, assert_valid, multiply}
use staking_farm.Ratio.Bounds.{multiply-IsFraction}
use staking_farm.RewardFee.{UpdatableRewardFee, new_fee, set, current, next}
use staking_farm.RewardFee.Delay.{set_takes_effect_later}
use staking_farm.Contract.{StakingContract, World}
use staking_farm.Accounts.Sums.{shares_of}
use staking_farm.Internal.{distribute_total_reward}
use staking_farm.Internal.Fees.{FeesPaid, split_of, distribution_pays_fees}
use staking_farm.Owner.{decrease_burn_fee_fraction}
use staking_farm.Owner.Access.{is_for_owner, owner_calls_refuse_others, burn_fee_only_falls}
use staking_farm.Calls.{Call, transact, history}
use staking_farm.Solvency.{HasUnowned}
use staking_farm.Solvency.{Sound}
use staking_farm.Solvency.History.{history-Sound}
use staking_farm.Tests.Example.{example_sdk, bob_env, call_env, pool, world, near, tenth}
use staking_farm.Tests.Delegation.{result_or}

valid : assert_valid tenth ≡ ok tt
unfolding assert_valid
valid = refl

multiply-IsFraction_example : (multiply tenth near ≡ ok (1 * near / 10)) × (1 * near / 10 ≤ near)
multiply-IsFraction_example = multiply-IsFraction tenth near (omega arith) (omega arith) valid

abbrev fifth : Ratio
fifth = record { numerator = 1; denominator = 5 }

abbrev announced : UpdatableRewardFee
unfolding set
announced = result_or (new_fee tenth) (set 5 (new_fee tenth) fifth)

announced_ok : set 5 (new_fee tenth) fifth ≡ ok announced
unfolding set
announced_ok = refl

set_takes_effect_later_example :
    (current 8 announced ≡ current 5 (new_fee tenth))
    × (current 9 announced ≡ fifth)
    × (next announced ≡ fifth)
set_takes_effect_later_example =
    set_takes_effect_later 5 8 9 (new_fee tenth) announced fifth announced_ok (omega arith)
      (omega arith) (omega arith)

-- A pool that burns half of its rewards.
abbrev burning : StakingContract
burning = record pool { burn_fee_fraction = record { numerator = 5; denominator = 10 } }

abbrev rewarded : StakingContract
unfolding distribute_total_reward
rewarded = result_or burning (distribute_total_reward bob_env burning (ok "alice") near)

rewarded_ok : distribute_total_reward bob_env burning (ok "alice") near ≡ ok rewarded
unfolding distribute_total_reward multiply current new_fee
    staking_farm.Shares.num_shares_from_staked_amount_rounded_down
    staking_farm.Accounts.internal_add_shares staking_farm.Accounts.internal_get_account
    staking_farm.Accounts.stored_account staking_farm.Accounts.internal_save_account
rewarded_ok = refl

-- Half a NEAR is burnt, and a tenth of the other half is the owner's.
parts :
    ((split_of bob_env burning near).burn_fee ≡ 500_000_000_000_000_000_000_000)
    × ((split_of bob_env burning near).owners_fee ≡ 50_000_000_000_000_000_000_000)
unfolding new_fee
parts = (refl, refl)

distribution_pays_fees_example :
    FeesPaid burning (ok "alice") near (split_of bob_env burning near) rewarded "alice"
distribution_pays_fees_example =
    distribution_pays_fees bob_env burning (ok "alice") near rewarded "alice" rewarded_ok

is_owners : is_for_owner Call.pause_staking ≡ true
unfolding is_for_owner
is_owners = refl

owner_calls_refuse_others_example : transact (call_env "bob") world Call.pause_staking ≡ world
owner_calls_refuse_others_example =
    owner_calls_refuse_others (call_env "bob") world "alice" Call.pause_staking refl refl is_owners

abbrev lowered : World
unfolding decrease_burn_fee_fraction
lowered =
    result_or world
      (decrease_burn_fee_fraction (call_env "factory") (record world { contract = burning }) tenth)

lowered_ok :
    decrease_burn_fee_fraction (call_env "factory") (record world { contract = burning }) tenth
    ≡ ok lowered
unfolding decrease_burn_fee_fraction staking_farm.Internal.internal_ping
lowered_ok = refl

burn_fee_only_falls_example :
    (◌≡◌ {A = Option String} (some "factory") (some "factory"))
    × (assert_valid tenth ≡ ok tt)
    × (1 * 10 < 10 * 5)
    × (lowered.contract.burn_fee_fraction ≡ tenth)
burn_fee_only_falls_example =
    burn_fee_only_falls (call_env "factory") (record world { contract = burning }) tenth lowered
      lowered_ok

abbrev calls : List (Env × Call)
calls = (bob_env, Call.deposit_and_stake) ∷ (call_env "bob", Call.unstake near) ∷ []

some_unowned : HasUnowned pool
unfolding shares_of
some_unowned = omega arith

history-Sound_example : Sound (length calls) world (history world calls)
history-Sound_example = history-Sound calls world some_unowned
