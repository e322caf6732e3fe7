-- ===== src/Ratio/Bounds.antt =====
-- Products with a valid fraction.
use staking_farm.Prelude.{if◌then◌else◌, ◌==◌, ℕ, ◌≤◌, ◌<◌, ◌*◌, ◌/◌, ◌≡◌, arith}
use staking_farm.Prelude.Arithmetic.{mul_lt_mul, fraction_le}
use staking_farm.Machine.{ok, u32_bound, u128_bound}
use staking_farm.Ratio.{Ratio, assert_valid, multiply}

-- The fraction of a number, rounded down. A fraction with denominator 0 is nothing.
abbrev pub fraction_of : Ratio → ℕ → ℕ
fraction_of r value = if r.denominator == 0 then 0 else r.numerator * value / r.denominator

pub multiply_fraction :
    (r : Ratio) (value : ℕ) {n : ℕ} → multiply r value ≡ ok n → n ≡ fraction_of r value
unfolding multiply
multiply_fraction r value h = ground arith

-- A valid fraction, with a numerator of 32 bits, is taken of any balance of 128 bits without a panic:
-- the result is the balance times the numerator over the denominator, rounded down, and is at most
-- the balance.
pub multiply-IsFraction :
    (r : Ratio) (value : ℕ)
    → r.numerator < u32_bound
    → value < u128_bound
    → assert_valid r ≡ ok tt
    → (multiply r value ≡ ok (r.numerator * value / r.denominator))
      × (r.numerator * value / r.denominator ≤ value)
unfolding assert_valid multiply
multiply-IsFraction r value hn hv valid = (
  ground (
    arith,
    mul_lt_mul r.numerator value u32_bound u128_bound hn hv,
    fraction_le r.numerator r.denominator value,
  ),
  ground (arith, fraction_le r.numerator r.denominator value),
)
