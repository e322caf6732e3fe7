-- ===== src/Shares/Rounding.antt =====
-- What the four conversions return, and the directions in which they round.
use staking_farm.Prelude.{ℕ, ◌+◌, ◌*◌, ◌/◌, ◌≤◌, ◌<◌, ◌≡◌, arith}
use staking_farm.Prelude.Arithmetic.{floor_lower, floor_upper, ceil_upper, ceil_lower}
use staking_farm.Machine.{ok, u128_bound}
use staking_farm.Contract.{Sdk, StakingContract}
use staking_farm.Shares.{
  num_shares_from_staked_amount_rounded_down, num_shares_from_staked_amount_rounded_up,
  staked_amount_from_num_shares_rounded_down, staked_amount_from_num_shares_rounded_up,
}

module _ ⦃sdk : Sdk⦄ where
  -- The largest number of shares that the amount pays for.
  pub shares_down :
      (c : StakingContract) (amount n : ℕ)
      → num_shares_from_staked_amount_rounded_down c amount ≡ ok n
      → (0 < c.total_staked_balance)
        × (n * c.total_staked_balance ≤ c.total_stake_shares * amount)
        × (c.total_stake_shares * amount < n * c.total_staked_balance + c.total_staked_balance)
        × (n < u128_bound)
  unfolding num_shares_from_staked_amount_rounded_down
  shares_down c amount n h = ground (
    arith,
    floor_lower (c.total_stake_shares * amount) c.total_staked_balance,
    floor_upper (c.total_stake_shares * amount) c.total_staked_balance,
  )

  pub shares_down_eq :
      (c : StakingContract) (amount : ℕ) {n : ℕ}
      → num_shares_from_staked_amount_rounded_down c amount ≡ ok n
      → n ≡ c.total_stake_shares * amount / c.total_staked_balance
  unfolding num_shares_from_staked_amount_rounded_down
  shares_down_eq c amount h = ground arith

  pub shares_up :
      (c : StakingContract) (amount n : ℕ)
      → num_shares_from_staked_amount_rounded_up c amount ≡ ok n
      → (0 < c.total_staked_balance)
        × (c.total_stake_shares * amount ≤ n * c.total_staked_balance)
        × (n * c.total_staked_balance < c.total_stake_shares * amount + c.total_staked_balance)
        × (n < u128_bound)
  unfolding num_shares_from_staked_amount_rounded_up
  shares_up c amount n h = ground (
    arith,
    ceil_upper (c.total_stake_shares * amount) c.total_staked_balance,
    ceil_lower (c.total_stake_shares * amount) c.total_staked_balance,
  )

  pub amount_down :
      (c : StakingContract) (num_shares n : ℕ)
      → staked_amount_from_num_shares_rounded_down c num_shares ≡ ok n
      → (0 < c.total_stake_shares)
        × (n * c.total_stake_shares ≤ c.total_staked_balance * num_shares)
        × (c.total_staked_balance * num_shares < n * c.total_stake_shares + c.total_stake_shares)
        × (n < u128_bound)
  unfolding staked_amount_from_num_shares_rounded_down
  amount_down c num_shares n h = ground (
    arith,
    floor_lower (c.total_staked_balance * num_shares) c.total_stake_shares,
    floor_upper (c.total_staked_balance * num_shares) c.total_stake_shares,
  )

  pub amount_up :
      (c : StakingContract) (num_shares n : ℕ)
      → staked_amount_from_num_shares_rounded_up c num_shares ≡ ok n
      → (0 < c.total_stake_shares)
        × (c.total_staked_balance * num_shares ≤ n * c.total_stake_shares)
        × (n * c.total_stake_shares < c.total_staked_balance * num_shares + c.total_stake_shares)
        × (n < u128_bound)
  unfolding staked_amount_from_num_shares_rounded_up
  amount_up c num_shares n h = ground (
    arith,
    ceil_upper (c.total_staked_balance * num_shares) c.total_stake_shares,
    ceil_lower (c.total_staked_balance * num_shares) c.total_stake_shares,
  )
