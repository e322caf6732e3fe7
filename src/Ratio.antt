-- ===== src/Ratio.antt =====
-- `Ratio` of staking-farm/src/lib.rs: a fraction of two u32, its validity and its product.
pub mod Bounds
use staking_farm.Prelude.{ℕ, ◌≤◌, ◌<◌, ◌*◌, Bool, not, ◌||◌, ◌==◌, leb, if◌then◌else◌}
use staking_farm.Machine.{
  Panic, Result, ok, err, zero_denominator, fee_above_one, assert, mul_u256, div, as_u128, ◌>>=◌,
  ◌>>◌, u32_bound,
}

pub record Ratio : Type 0 where
  pub numerator : ℕ
  pub denominator : ℕ

unfoldable pub assert_valid : Ratio → Result (Unit {0})
assert_valid r = do
  assert (not (r.denominator == 0)) zero_denominator
  assert (leb r.numerator r.denominator) fee_above_one

unfoldable pub multiply : Ratio → ℕ → Result ℕ
unfolding mul_u256 div as_u128
multiply r value = if r.denominator == 0 || r.numerator == 0 then ok 0 else (do
  product ← mul_u256 r.numerator value
  quotient ← div product r.denominator
  as_u128 quotient)
