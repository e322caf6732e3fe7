-- ===== src/Distribution.antt =====
-- `internal_calculate_distribution` of staking-farm/src/farm.rs: how far the rewards of a farm
-- are distributed at the block's timestamp.
pub mod Conservation
pub mod Progress
use staking_farm.Prelude.{ℕ, ◌+◌, ◌*◌, ◌/◌, ◌%◌, Option, none, some, ltb, ◌==◌, if◌then◌else◌}
use staking_farm.Machine.{
  Result, ok, add_u64, mul_u128, mul_u256, add_u256, sub, div, ◌>>=◌, u64_bound,
}
use staking_farm.Farm.{Farm, RewardDistribution, session_interval, denominator}

-- The reward added and the round reached when `reward_added` was due: at the last step only what
-- is left is added, and the round is corrected to where the tokens ran out.
unfoldable pub cap_reward : RewardDistribution → ℕ → ℕ → ℕ → Result (ℕ × ℕ)
unfolding div add_u64 mul_u128
cap_reward last reward_per_session reward_round reward_added =
    if ltb last.undistributed reward_added
    then (do
      let added = last.undistributed
      quotient ← div added reward_per_session
      let increase_reward_round = quotient % u64_bound
      round ← add_u64 last.reward_round increase_reward_round
      covered ← mul_u128 increase_reward_round reward_per_session
      fixed ← (if ltb covered added then add_u64 round 1 else ok round)
      ok (added, fixed))
    else ok (reward_added, reward_round)

unfoldable pub raise_reward_per_share : ℕ → ℕ → ℕ → Result ℕ
unfolding mul_u256 div add_u256
raise_reward_per_share last reward_added total_staked = if total_staked == 0 then ok 0 else (do
  product ← mul_u256 reward_added denominator
  quotient ← div product total_staked
  add_u256 last quotient)

-- The rounds since the last distribution, and what is due for each.
unfoldable pub reward_per_session : Farm → Result ℕ
unfolding sub div mul_u128
reward_per_session farm = do
  duration ← sub farm.end_date farm.start_date
  per_nanosecond ← div farm.amount duration
  mul_u128 per_nanosecond session_interval

unfoldable pub distribute_until : ℕ → Farm → ℕ → Result RewardDistribution
distribute_until now farm total_staked = do
  let last = farm.last_distribution
  elapsed ← sub now farm.start_date
  let reward_round = elapsed / session_interval
  per_session ← reward_per_session farm
  rounds ← sub reward_round last.reward_round
  due ← mul_u128 rounds per_session
  (added, round) ← cap_reward last per_session reward_round due
  undistributed ← sub last.undistributed added
  per_share ← raise_reward_per_share last.reward_per_share added total_staked
  ok (record last {
    undistributed = undistributed;
    reward_per_share = per_share;
    reward_round = round;
  })

unfoldable pub internal_calculate_distribution : ℕ → Farm → ℕ → Result (Option RewardDistribution)
unfolding distribute_until
internal_calculate_distribution now farm total_staked =
    if ltb now farm.start_date
    then ok none
    else if farm.last_distribution.undistributed == 0
    then ok (some farm.last_distribution)
    else (do d ← distribute_until now farm total_staked; ok (some d))
