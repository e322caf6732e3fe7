-- ===== src/Distribution/Progress.antt =====
-- A distribution does not panic, and never runs ahead of the clock.
use staking_farm.Prelude.{
  ℕ, zero, suc, ◌^◌, ◌+◌, ◌-◌, ◌*◌, ◌/◌, ◌%◌, ◌≤◌, ◌<◌, ◌≡◌, false, ltb, ◌==◌, if◌then◌else◌, arith,
  inl, inr, Bool-cases,
}
use staking_farm.Prelude.Arithmetic.{floor_lower, mul_le_mul, lt_of_mul_lt_mul}
use native.Mathlib.Nat.{le_refl, mod-eq_of_lt, div-le_self}
use staking_farm.Machine.{ok, u64_bound, u128_bound, sub_ok, mul_u128_ok}
use staking_farm.Farm.{Farm, RewardDistribution, session_interval, denominator}
use staking_farm.Distribution.{
  cap_reward, raise_reward_per_share, reward_per_session, distribute_until,
}

-- A farm that the contract keeps, at a time that its last distribution does not pass.
pub record IsRunning (now : ℕ) (farm : Farm) : Type 0 where
  pub started : farm.start_date ≤ now
  pub lasting : farm.start_date + session_interval < farm.end_date
  pub now_fits : now < u64_bound
  pub amount_fits : farm.amount < u128_bound
  pub undistributed_fits : farm.last_distribution.undistributed < u128_bound
  pub round_reached :
      farm.last_distribution.reward_round ≤ (now - farm.start_date) / session_interval

abbrev pub per_session : Farm → ℕ
per_session farm = farm.amount / (farm.end_date - farm.start_date) * session_interval

per_session_le_amount : (a d : ℕ) → session_interval < d → a / d * session_interval ≤ a
per_session_le_amount a d h = omega (
  arith,
  floor_lower a d,
  mul_le_mul (a / d) session_interval (a / d) d (le_refl (a / d)) (omega arith),
)

per_session_eq :
    (now : ℕ) (farm : Farm) → IsRunning now farm → reward_per_session farm ≡ ok (per_session farm)
unfolding reward_per_session
per_session_eq now farm r = ground (
  arith,
  per_session_le_amount farm.amount (farm.end_date - farm.start_date),
  r.lasting,
  r.amount_fits,
)

per_nonzero : (per rounds u : ℕ) → u < rounds * per → (per == 0) ≡ false
per_nonzero zero rounds u h = absurd (omega arith)
per_nonzero (suc per) rounds u h = ground arith

mul_lt_mul_left : (a b : ℕ) → a < b → a * denominator < b * denominator
mul_lt_mul_left a b h = omega arith

-- At the last step the round ends where the tokens do, at or before the round of the clock.
cap_progress :
    (last : RewardDistribution) (per rounds round : ℕ)
    → last.reward_round + rounds ≡ round
    → round < u64_bound
    → last.undistributed < u128_bound
    → (r : ℕ × ℕ) × (cap_reward last per round (rounds * per) ≡ ok r)
      × (r.0 ≤ last.undistributed)
      × (r.1 ≤ round)
      × (last.reward_round ≤ r.1)
unfolding cap_reward
cap_progress last per rounds round e fits und =
    let u = last.undistributed in
    let q = u / per in
    let reached = last.reward_round + q in
    elim (Bool-cases (ltb u (rounds * per))) [
      | inl capped ↦
          let less : u < rounds * per = ground arith in
          let below : q < rounds =
            lt_of_mul_lt_mul q rounds per (omega (arith, floor_lower u per)) in
          let whole : q % u64_bound ≡ q = mod-eq_of_lt (omega arith) in
          let some_due : (per == 0) ≡ false = per_nonzero per rounds u less in
          let last_round = if ltb (q * per) u then reached + 1 else reached in
          (
            (u, last_round),
            rw (capped, some_due) (ground (arith, whole, floor_lower u per)),
            le_refl u,
            ground arith,
            ground arith,
          )
      | inr covered ↦
          ((rounds * per, round), ground arith, ground arith, le_refl round, omega arith)
    ]

-- The reward per share that results.
abbrev pub raised : ℕ → ℕ → ℕ → ℕ
raised last added total = if total == 0 then 0 else last + added * denominator / total

raise_progress :
    (last added total : ℕ)
    → last < 2 ^ 255
    → added < u128_bound
    → raise_reward_per_share last added total ≡ ok (raised last added total)
unfolding raise_reward_per_share
raise_progress last added total small fits =
    let product : added * denominator < u128_bound * denominator =
      mul_lt_mul_left added u128_bound fits in
    ground (arith, div-le_self (added * denominator) total)

-- A farm that has started, whose data fit their types and whose last round the clock has reached,
-- is distributed without a panic, if its amount times the rounds since its start fits in 128 bits
-- and its reward per share lies under 2 ^ 255. The new round lies between the last one and that of
-- the clock, and no more is taken than was left.
pub distribute_until_progress :
    (now : ℕ) (farm : Farm) (total : ℕ)
    → IsRunning now farm
    → farm.amount * ((now - farm.start_date) / session_interval) < u128_bound
    → farm.last_distribution.reward_per_share < 2 ^ 255
    → (d : RewardDistribution) × (distribute_until now farm total ≡ ok d)
      × (d.undistributed ≤ farm.last_distribution.undistributed)
      × (farm.last_distribution.reward_round ≤ d.reward_round)
      × (d.reward_round ≤ (now - farm.start_date) / session_interval)
unfolding distribute_until
distribute_until_progress now farm total r due_fits small =
    let last = farm.last_distribution in
    let round = (now - farm.start_date) / session_interval in
    let rounds = round - last.reward_round in
    let per = per_session farm in
    let (added, cap, le, upper, lower) =
      cap_progress last per rounds round (omega (arith, r.round_reached))
        (omega (arith, r.now_fits, div-le_self (now - farm.start_date) session_interval))
        r.undistributed_fits in
    let due : rounds * per < u128_bound = omega (
      arith,
      due_fits,
      mul_le_mul rounds per round farm.amount (omega arith) (
          per_session_le_amount farm.amount (farm.end_date - farm.start_date)
            (omega (arith, r.lasting))),
    ) in
    (
      record last {
        undistributed = last.undistributed - added.0;
        reward_per_share = raised last.reward_per_share added.0 total;
        reward_round = added.1;
      },
      rw (
        sub_ok now farm.start_date r.started,
        per_session_eq now farm r,
        sub_ok round last.reward_round r.round_reached,
        mul_u128_ok rounds per due,
        cap,
        sub_ok last.undistributed added.0 le,
        raise_progress last.reward_per_share added.0 total small
            (omega (arith, r.undistributed_fits)),
      ),
      omega arith,
      lower,
      upper,
    )
