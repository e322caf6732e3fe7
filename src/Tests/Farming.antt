-- ===== src/Tests/Farming.antt =====
-- Farms, their distribution and their claims, at a farm of a hundred sessions.
use staking_farm.Prelude.{
  ℕ, ◌+◌, ◌-◌, ◌*◌, ◌/◌, ◌≤◌, ◌<◌, ◌≡◌, ◌==◌, ◌++◌, ◌||◌, refl, true, some, String, str_eq,
  if◌then◌else◌, [], ◌∷◌, arith,
}
use staking_farm.Machine.{Result, ok, err, u128_bound}
use staking_farm.Prelude.Classes.{string_key}
use staking_farm.Prelude.Lists.{length}
use staking_farm.HashMap.{get_or_zero}
use staking_farm.Env.{Env, failed}
use staking_farm.Account.{Account}
use staking_farm.Farm.{Farm, RewardDistribution, session_interval, denominator}
use staking_farm.Contract.{StakingContract, World, Promise}
use staking_farm.Accounts.{internal_get_account, stored_account}
use staking_farm.Distribution.{distribute_until}
use staking_farm.Distribution.Conservation.{distribute_until_conserves}
use staking_farm.Distribution.Progress.{IsRunning, distribute_until_progress}
use staking_farm.Rewards.Payout.{sum, payout_covered}
use staking_farm.Farms.{internal_claim, claim_promise, internal_deposit_farm_tokens}
use staking_farm.Claims.{callback_post_withdraw_reward}
use staking_farm.Claims.Once.{farmed, failed_payment_restored}
use staking_farm.TokenReceiver.{ft_on_transfer, max_num_active_farms}
use staking_farm.TokenReceiver.Access.{transfer_is_authorized, active_farms_bounded}
use staking_farm.Views.{get_farm}
use staking_farm.Views.Farms.{deposit_creates_farm}
use staking_farm.Tests.Example.{example_sdk, call_env, pool, world}
use staking_farm.Tests.Delegation.{result_or}

-- A million million tokens over a hundred seconds, of which ten have passed.
abbrev seconds : ℕ
seconds = 1_000_000_000

abbrev pub farm : Farm
farm = record {
  name = "farm";
  token_id = "token";
  amount = 1_000_000_000_000;
  start_date = 1_000;
  end_date = 100 * seconds + 1_000;
  last_distribution = record {
    undistributed = 1_000_000_000_000;
    deprecated_unclaimed = 0;
    reward_per_share = 0;
    reward_round = 0;
  };
}

abbrev now : ℕ
now = 10 * seconds + 1_000

abbrev distributed : RewardDistribution
unfolding distribute_until
distributed = result_or farm.last_distribution (distribute_until now farm 1_000_000)

distributed_ok : distribute_until now farm 1_000_000 ≡ ok distributed
unfolding distribute_until staking_farm.Machine.sub staking_farm.Distribution.reward_per_session
    staking_farm.Distribution.cap_reward staking_farm.Distribution.raise_reward_per_share
distributed_ok = refl

distribute_until_conserves_example :
    (distributed.undistributed ≤ 1_000_000_000_000)
    × (0 ≤ distributed.reward_per_share)
    × (distributed.reward_per_share * 1_000_000
        ≤ 0 * 1_000_000 + (1_000_000_000_000 - distributed.undistributed) * denominator)
distribute_until_conserves_example =
    distribute_until_conserves now farm 1_000_000 distributed (omega arith) distributed_ok

running : IsRunning now farm
running = record {
  started = omega arith;
  lasting = omega arith;
  now_fits = omega arith;
  amount_fits = omega arith;
  undistributed_fits = omega arith;
  round_reached = omega arith;
}

distribute_until_progress_example :
    (d : RewardDistribution) × (distribute_until now farm 1_000_000 ≡ ok d)
    × (d.undistributed ≤ farm.last_distribution.undistributed)
    × (farm.last_distribution.reward_round ≤ d.reward_round)
    × (d.reward_round ≤ (now - farm.start_date) / session_interval)
distribute_until_progress_example =
    distribute_until_progress now farm 1_000_000 running (omega arith) (omega arith)

payout_covered_example :
    sum (30_000_000_000 ∷ 70_000_000_000 ∷ [])
    ≤ farm.last_distribution.undistributed - distributed.undistributed
unfolding distribute_until staking_farm.Rewards.share_reward
    staking_farm.Distribution.reward_per_session staking_farm.Distribution.cap_reward
    staking_farm.Distribution.raise_reward_per_share
payout_covered_example =
    payout_covered now farm 1_000_000 distributed (300_000 ∷ 700_000 ∷ [])
      (30_000_000_000 ∷ 70_000_000_000 ∷ []) (omega arith) distributed_ok (omega arith)
      (refl, (refl, tt))

-- The pool with this farm, in which "bob" has five of thirty-five NEAR.
abbrev pub farming : StakingContract
farming = record pool { farms = farm ∷ []; active_farms = 0 ∷ [] }

abbrev pub farming_env : Env
farming_env = record (call_env "bob") { block_timestamp = now }

abbrev claimed : Promise × StakingContract
unfolding internal_claim
claimed =
    result_or (claim_promise farming_env "token" "bob" "bob" 0, farming)
      (internal_claim farming_env farming "token" "bob" "bob")

abbrev failed_env : Env
failed_env = record farming_env { promise_results = failed ∷ [] }

fits : farmed pool "bob" "token" + 500 < u128_bound
unfolding internal_get_account stored_account get_or_zero
fits = omega arith

failed_payment_restored_example :
    (w' : World) × (callback_post_withdraw_reward failed_env world "token" "bob" 500 ≡ ok w')
    × (farmed w'.contract "bob" "token" ≡ farmed pool "bob" "token" + 500)
failed_payment_restored_example =
    failed_payment_restored failed_env world "token" "bob" 500 refl fits

-- Tokens that "alice", the owner, sends for a new farm.
abbrev token_env : Env
token_env = call_env "token"

abbrev received : World
unfolding ft_on_transfer
received = (result_or (0, world) (ft_on_transfer token_env world "alice" 1_000_000 "new")).1

received_ok : ft_on_transfer token_env world "alice" 1_000_000 "new" ≡ ok (0, received)
unfolding ft_on_transfer internal_deposit_farm_tokens
received_ok = refl

transfer_is_authorized_example :
    (owner_id : String) × (world.owner ≡ some owner_id)
    × (example_sdk.ids.contains_id pool.authorized_farm_tokens "token" ≡ true)
    × ((str_eq "alice" owner_id || example_sdk.ids.contains_id pool.authorized_users "alice")
        ≡ true)
    × (◌≡◌ {A = ℕ} 0 0)
transfer_is_authorized_example =
    transfer_is_authorized token_env world "alice" 1_000_000 "new" 0 received received_ok

few : length pool.active_farms ≤ max_num_active_farms + 1
few = omega arith

active_farms_bounded_example : length received.contract.active_farms ≤ max_num_active_farms + 1
active_farms_bounded_example =
    active_farms_bounded token_env world "alice" 1_000_000 "new" 0 received received_ok few

abbrev created : StakingContract
unfolding internal_deposit_farm_tokens
created =
    result_or pool
      (internal_deposit_farm_tokens token_env pool "token" "farm" 1_000_000 1_000 (100 * seconds))

created_ok :
    internal_deposit_farm_tokens token_env pool "token" "farm" 1_000_000 1_000 (100 * seconds)
    ≡ ok created
unfolding internal_deposit_farm_tokens
created_ok = refl

deposit_creates_farm_example :
    (1_000 ≤ 1_000)
    × (1_000 + session_interval < 100 * seconds)
    × (0 < 1_000_000)
    × (created.active_farms ≡ [] ++ 0 ∷ [])
    × (get_farm created 0 ≡ (
        if 0 == example_sdk.farms.len pool.farms
        then ok (record {
          farm_id = 0;
          name = "farm";
          token_id = "token";
          amount = 1_000_000;
          start_date = 1_000;
          end_date = 100 * seconds;
          active = true;
        })
        else get_farm pool 0))
deposit_creates_farm_example =
    deposit_creates_farm token_env pool "token" "farm" 1_000_000 1_000 (100 * seconds) created 0
      created_ok
