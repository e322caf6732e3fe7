-- ===== src/Rewards/Payout.antt =====
-- The stakers of a farm together are paid no more than a distribution has released.
use staking_farm.Prelude.{ℕ, ◌+◌, ◌-◌, ◌*◌, ◌≤◌, ◌<◌, ◌≡◌, List, [], ◌∷◌, arith}
use staking_farm.Prelude.Arithmetic.{floor_lower, mul_le_mul, le_of_mul_le_mul}
use native.Mathlib.Nat.{le_refl}
use staking_farm.Machine.{ok}
use staking_farm.Farm.{Farm, RewardDistribution, denominator}
use staking_farm.Distribution.{distribute_until}
use staking_farm.Distribution.Conservation.{distribute_until_conserves}
use staking_farm.Rewards.{share_reward}

abbrev pub sum : List ℕ → ℕ
sum [] = 0
sum (n ∷ l) = n + sum l

-- Each number of shares is paid the claim beside it, from one reward per share to the next.
abbrev pub Pays : ℕ → ℕ → List ℕ → List ℕ → Type 0
Pays rps user_rps [] [] = Unit
Pays rps user_rps (s ∷ shares) (n ∷ claims) =
    (share_reward s rps user_rps ≡ ok n) × Pays rps user_rps shares claims
Pays rps user_rps [] (n ∷ claims) = ⊥
Pays rps user_rps (s ∷ shares) [] = ⊥

share_reward_le :
    (s rps user_rps n : ℕ)
    → share_reward s rps user_rps ≡ ok n
    → n * denominator ≤ s * (rps - user_rps)
unfolding share_reward
share_reward_le s rps user_rps n h = ground (arith, floor_lower (s * (rps - user_rps)) denominator)

Pays-le :
    (rps user_rps : ℕ) (shares claims : List ℕ)
    → Pays rps user_rps shares claims
    → sum claims * denominator ≤ sum shares * (rps - user_rps)
Pays-le rps user_rps [] [] h = omega arith
Pays-le rps user_rps (s ∷ shares) (n ∷ claims) h =
    omega (arith, share_reward_le s rps user_rps n h.0, Pays-le rps user_rps shares claims h.1)
Pays-le rps user_rps [] (n ∷ claims) h = absurd h
Pays-le rps user_rps (s ∷ shares) [] h = absurd h

gap_product : (lo hi t : ℕ) → lo ≤ hi → t * (hi - lo) + lo * t ≡ hi * t
gap_product lo hi t h = let e : hi ≡ lo + (hi - lo) = omega arith in gap_sum t lo (hi - lo) hi e
  where
    gap_sum : (t lo g hi : ℕ) → hi ≡ lo + g → t * g + lo * t ≡ hi * t
    gap_sum t lo g hi e = rw e (omega arith)

-- Stakers who together hold no more shares than a farm rewards, and who had claimed all up to a
-- distribution that succeeds, are paid for it no more than it took from the undistributed amount.
pub payout_covered :
    (now : ℕ) (farm : Farm) (total : ℕ) (d : RewardDistribution) (shares claims : List ℕ)
    → 0 < total
    → distribute_until now farm total ≡ ok d
    → sum shares ≤ total
    → Pays d.reward_per_share farm.last_distribution.reward_per_share shares claims
    → sum claims ≤ farm.last_distribution.undistributed - d.undistributed
payout_covered now farm total d shares claims pos h held paid =
    let last = farm.last_distribution in
    let released = distribute_until_conserves now farm total d pos h in
    let owed = Pays-le d.reward_per_share last.reward_per_share shares claims paid in
    let gap = d.reward_per_share - last.reward_per_share in
    let shared = mul_le_mul (sum shares) gap total gap held (le_refl gap) in
    le_of_mul_le_mul (sum claims) (last.undistributed - d.undistributed) denominator (omega arith) (
      omega (
        arith,
        owed,
        shared,
        released,
        gap_product last.reward_per_share d.reward_per_share total released.1,
      ))
