-- ===== src/Shares.antt =====
-- Conversion between stake shares and staked amounts (staking-farm/src/internal.rs), over the
-- total of shares and the total staked balance.
pub mod Rounding
pub mod Success
use staking_farm.Prelude.{ℕ, ◌+◌, ◌<◌, ltb, arith}
use staking_farm.Machine.{
  Result, ok, err, zero_total_staked, zero_total_shares, assert, mul_u256, add_u256, sub, div,
  as_u128, ◌>>=◌, ◌>>◌,
}
use staking_farm.Contract.{Sdk, StakingContract}

module _ ⦃sdk : Sdk⦄ where
  unfoldable pub num_shares_from_staked_amount_rounded_down : StakingContract → ℕ → Result ℕ
  unfolding mul_u256 div as_u128
  num_shares_from_staked_amount_rounded_down c amount = do
    assert (ltb 0 c.total_staked_balance) zero_total_staked
    product ← mul_u256 c.total_stake_shares amount
    quotient ← div product c.total_staked_balance
    as_u128 quotient

  unfoldable pub num_shares_from_staked_amount_rounded_up : StakingContract → ℕ → Result ℕ
  unfolding mul_u256 add_u256 sub div as_u128
  num_shares_from_staked_amount_rounded_up c amount = do
    assert (ltb 0 c.total_staked_balance) zero_total_staked
    product ← mul_u256 c.total_stake_shares amount
    below ← sub c.total_staked_balance 1
    sum ← add_u256 product below
    quotient ← div sum c.total_staked_balance
    as_u128 quotient

  unfoldable pub staked_amount_from_num_shares_rounded_down : StakingContract → ℕ → Result ℕ
  unfolding mul_u256 div as_u128
  staked_amount_from_num_shares_rounded_down c num_shares = do
    assert (ltb 0 c.total_stake_shares) zero_total_shares
    product ← mul_u256 c.total_staked_balance num_shares
    quotient ← div product c.total_stake_shares
    as_u128 quotient

  unfoldable pub staked_amount_from_num_shares_rounded_up : StakingContract → ℕ → Result ℕ
  unfolding mul_u256 add_u256 sub div as_u128
  staked_amount_from_num_shares_rounded_up c num_shares = do
    assert (ltb 0 c.total_stake_shares) zero_total_shares
    product ← mul_u256 c.total_staked_balance num_shares
    below ← sub c.total_stake_shares 1
    sum ← add_u256 product below
    quotient ← div sum c.total_stake_shares
    as_u128 quotient
