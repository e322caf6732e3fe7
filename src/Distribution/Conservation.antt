-- ===== src/Distribution/Conservation.antt =====
-- The distribution of a farm's rewards conserves them: what is added to the reward per share was
-- undistributed before.
use staking_farm.Prelude.{ℕ, ◌+◌, ◌-◌, ◌*◌, ◌/◌, ◌≤◌, ◌<◌, ◌≡◌, arith}
use staking_farm.Prelude.Arithmetic.{floor_lower}
use staking_farm.Machine.{ok, bind_ok, sub, mul_u128}
use staking_farm.Farm.{Farm, RewardDistribution, session_interval, denominator}
use staking_farm.Distribution.{
  cap_reward, raise_reward_per_share, reward_per_session, distribute_until,
}

-- The reward per share grows by no more than the added reward pays for.
raise_bounds :
    (last added total r : ℕ)
    → 0 < total
    → raise_reward_per_share last added total ≡ ok r
    → (last ≤ r) × (r * total ≤ last * total + added * denominator)
unfolding raise_reward_per_share
raise_bounds last added total r pos h =
    let q = added * denominator / total in
    let value : r ≡ last + q = ground arith in
    rw value (omega arith, omega (arith, floor_lower (added * denominator) total))

-- The added reward is what is due, or all that is left.
cap_bounds :
    (last : RewardDistribution) (per_session round due : ℕ) (r : ℕ × ℕ)
    → cap_reward last per_session round due ≡ ok r
    → (r.0 ≤ last.undistributed) × (r.0 ≤ due)
unfolding cap_reward
cap_bounds last per_session round due r h = ground arith

-- A distribution that succeeds over a positive number of shares takes from the undistributed
-- amount, and raises the reward per share by no more than the amount that it took pays for.
pub distribute_until_conserves :
    (now : ℕ) (farm : Farm) (total : ℕ) (d : RewardDistribution)
    → 0 < total
    → distribute_until now farm total ≡ ok d
    → let last = farm.last_distribution in
      (d.undistributed ≤ last.undistributed)
      × (last.reward_per_share ≤ d.reward_per_share)
      × (d.reward_per_share * total
          ≤ last.reward_per_share * total + (last.undistributed - d.undistributed) * denominator)
unfolding distribute_until sub
distribute_until_conserves now farm total d pos h =
    let last = farm.last_distribution in
    bind_ok (sub now farm.start_date) _ h λ elapsed _ h.
      bind_ok (reward_per_session farm) _ h λ per_session _ h.
        bind_ok (sub (elapsed / session_interval) last.reward_round) _ h λ rounds _ h.
          bind_ok (mul_u128 rounds per_session) _ h λ due _ h.
            bind_ok (cap_reward last per_session (elapsed / session_interval) due) _ h λ r p h.
              bind_ok (sub last.undistributed r.0) _ h λ und q h.
                bind_ok (raise_reward_per_share last.reward_per_share r.0 total) _ h λ rps s h.
                  let cap = cap_bounds last per_session (elapsed / session_interval) due r p in
                  let raised = raise_bounds last.reward_per_share r.0 total rps pos s in
                  let left : last.undistributed - und ≡ r.0 = ground arith in
                  (ground arith, ground arith, ground (arith, left))
