-- ===== src/Prelude/Arithmetic.antt =====
-- Products and quotients of native numbers.
use Prim.Native.Nat.{ℕ, ◌+◌, ◌-◌, ◌*◌, ◌/◌, ◌≤◌, ◌<◌}
use native.Mathlib.Omega.{arith}
use native.Mathlib.Nat.{div-mul-le_self, le_refl, lt-div-mul-add}

pub mul_lt_mul : (a b m n : ℕ) → a < m → b < n → a * b < m * n
mul_lt_mul a b m n h k = grind arith

pub mul_le_mul : (a b m n : ℕ) → a ≤ m → b ≤ n → a * b ≤ m * n
mul_le_mul a b m n h k = grind arith

-- A quotient rounded down.
pub floor_lower : (a b : ℕ) → a / b * b ≤ a
floor_lower a b = div-mul-le_self a b

pub floor_upper : (a b : ℕ) → 0 < b → a < a / b * b + b
floor_upper a b h = lt-div-mul-add h

-- A quotient rounded up, as the contract writes it.
pub ceil_upper : (a b : ℕ) → 0 < b → a ≤ (a + (b - 1)) / b * b
ceil_upper a b h = omega (arith, lt-div-mul-add {a = a + (b - 1)} h)

pub ceil_lower : (a b : ℕ) → 0 < b → (a + (b - 1)) / b * b < a + b
ceil_lower a b h = omega (arith, div-mul-le_self (a + (b - 1)) b)

-- Products with one positive factor are compared by the other factor.
pub le_of_mul_le_mul : (a b c : ℕ) → 0 < c → a * c ≤ b * c → a ≤ b
le_of_mul_le_mul a b c h k = grind arith

pub lt_of_mul_lt_mul : (a b c : ℕ) → a * c < b * c → a < b
lt_of_mul_lt_mul a b c k = grind arith

-- A fraction of at most one of a number is at most the number.
pub fraction_le : (n d a : ℕ) → 0 < d → n ≤ d → n * a / d ≤ a
fraction_le n d a h k =
    le_of_mul_le_mul (n * a / d) a d h
      (omega (arith, floor_lower (n * a) d, mul_le_mul n a d a k (le_refl a)))
