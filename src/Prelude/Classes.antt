-- ===== src/Prelude/Classes.antt =====
-- Equality tests as an interface, for the keys of maps.
use mathlib.Core.Path.{◌≡◌}
use mathlib.Core.Logic.{◌↔◌}
use mathlib.Core.Bool.{Bool, true}
use Prim.Native.Nat.{ℕ}
use Prim.Native.String.{String}
use native.Mathlib.Omega.{arith}
use text.Mathlib.Text.{◌==◌ as str_eq}
use text.Mathlib.TextEquality.{eq_iff}
use staking_farm.Prelude.Tests.{◌==◌}

pub record HashKey {ℓ} (A : Type ℓ) : Type ℓ where
  pub same_key : A → A → Bool
  pub same_key_iff : (a b : A) → (same_key a b ≡ true) ↔ (a ≡ b)

pub nat_same_key_iff : (a b : ℕ) → ((a == b) ≡ true) ↔ (a ≡ b)
nat_same_key_iff a b = ground arith

instance abbrev pub nat_key : HashKey ℕ
nat_key = record { same_key = ◌==◌; same_key_iff = nat_same_key_iff }

instance abbrev pub string_key : HashKey String
string_key = record { same_key = str_eq; same_key_iff = eq_iff }
