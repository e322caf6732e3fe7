-- ===== src/Shares/Success.antt =====
-- When the four conversions succeed, and what they then return.
use staking_farm.Prelude.{ℕ, ◌+◌, ◌-◌, ◌*◌, ◌/◌, ◌≤◌, ◌<◌, ◌≡◌, arith}
use staking_farm.Prelude.Arithmetic.{
  mul_le_mul, floor_lower, ceil_lower, lt_of_mul_lt_mul, le_of_mul_le_mul,
}
use staking_farm.Machine.{ok, u128_bound, u256_bound}
use staking_farm.Contract.{Sdk, StakingContract}
use staking_farm.Shares.{
  num_shares_from_staked_amount_rounded_up, staked_amount_from_num_shares_rounded_down,
  staked_amount_from_num_shares_rounded_up,
}

-- Products of two 128-bit numbers, even with a third one added, fit 256 bits.
product_fits :
    (a b c : ℕ) → a < u128_bound → b < u128_bound → c < u128_bound → a * b + c < u256_bound
product_fits a b c h k l =
    omega (
      arith,
      mul_le_mul a b (u128_bound - 1) (u128_bound - 1) (omega (arith, h)) (omega (arith, k)),
    )

-- A fraction of at most the whole is at most the whole.
part_down : (t x s : ℕ) → 0 < s → x ≤ s → t * x / s ≤ t
part_down t x s pos h =
    le_of_mul_le_mul (t * x / s) t s pos
      (omega (arith, floor_lower (t * x) s, mul_le_mul t x t s (omega arith) h))

part_up : (t x s : ℕ) → 0 < s → x ≤ s → (t * x + (s - 1)) / s ≤ t
part_up t x s pos h = omega (
  arith,
  lt_of_mul_lt_mul ((t * x + (s - 1)) / s) (t + 1) s
      (omega (arith, ceil_lower (t * x) s pos, mul_le_mul t x t s (omega arith) h)),
)

module _ ⦃sdk : Sdk⦄ where
  pub amount_down_ok :
      (c : StakingContract) (x : ℕ)
      → 0 < c.total_stake_shares
      → x ≤ c.total_stake_shares
      → c.total_stake_shares < u128_bound
      → c.total_staked_balance < u128_bound
      → (staked_amount_from_num_shares_rounded_down c x
          ≡ ok (c.total_staked_balance * x / c.total_stake_shares))
        × (c.total_staked_balance * x / c.total_stake_shares ≤ c.total_staked_balance)
  unfolding staked_amount_from_num_shares_rounded_down
  amount_down_ok c x pos held fits staked_fits =
      let part = part_down c.total_staked_balance x c.total_stake_shares pos held in
      let product =
        product_fits c.total_staked_balance x 0 staked_fits (omega arith) (omega arith) in
      (ground (arith, part, product), part)

  pub amount_up_ok :
      (c : StakingContract) (x : ℕ)
      → 0 < c.total_stake_shares
      → x ≤ c.total_stake_shares
      → c.total_stake_shares < u128_bound
      → c.total_staked_balance < u128_bound
      → let n = (c.total_staked_balance * x + (c.total_stake_shares - 1)) / c.total_stake_shares in
        (staked_amount_from_num_shares_rounded_up c x ≡ ok n) × (n ≤ c.total_staked_balance)
  unfolding staked_amount_from_num_shares_rounded_up
  amount_up_ok c x pos held fits staked_fits =
      let part = part_up c.total_staked_balance x c.total_stake_shares pos held in
      let product =
        product_fits c.total_staked_balance x (c.total_stake_shares - 1) staked_fits (omega arith)
          (omega arith) in
      (ground (arith, part, product), part)

  pub shares_up_ok :
      (c : StakingContract) (amount : ℕ)
      → 0 < c.total_staked_balance
      → amount ≤ c.total_staked_balance
      → c.total_stake_shares < u128_bound
      → c.total_staked_balance < u128_bound
      → let n =
          (c.total_stake_shares * amount + (c.total_staked_balance - 1)) / c.total_staked_balance in
        num_shares_from_staked_amount_rounded_up c amount ≡ ok n
  unfolding num_shares_from_staked_amount_rounded_up
  shares_up_ok c amount pos covered fits staked_fits =
      let part = part_up c.total_stake_shares amount c.total_staked_balance pos covered in
      let product =
        product_fits c.total_stake_shares amount (c.total_staked_balance - 1) fits (omega arith)
          (omega arith) in
      ground (arith, part, product)
