-- ===== src/HashMap.antt =====
-- The standard library's `HashMap`, as the source uses it: lookups, insertions, removals and
-- `entry(k).or_default() += n`. The source never iterates over one, so the order is not observed.
use staking_farm.Prelude.{ℕ, ◌≡◌, refl, Option, none, some, List, [], ◌∷◌, if◌then◌else◌, arith}
use staking_farm.Prelude.Classes.{HashKey}

abbrev pub HashMap {ℓ κ} : Type ℓ → Type κ → Type (ℓ ⊔ κ)
HashMap K V = List (K × V)

module _ {ℓ κ} {K : Type ℓ} {V : Type κ} ⦃e : HashKey K⦄ where
  -- `map.get(k)`
  unfoldable pub lookup : K → HashMap K V → Option V
  lookup k [] = none
  lookup k ((j, v) ∷ m) = if e.same_key j k then some v else lookup k m

  -- `map.insert(k, v)`
  unfoldable pub insert : K → V → HashMap K V → HashMap K V
  insert k v [] = (k, v) ∷ []
  insert k v ((j, w) ∷ m) = if e.same_key j k then (k, v) ∷ m else (j, w) ∷ insert k v m

  -- `map.remove(k)`
  unfoldable pub remove : K → HashMap K V → HashMap K V
  remove k [] = []
  remove k ((j, w) ∷ m) = let rest = remove k m in if e.same_key j k then rest else (j, w) ∷ rest

  pub lookup-insert :
      (k j : K) (v : V) (m : HashMap K V)
      → lookup j (insert k v m) ≡ (if e.same_key k j then some v else lookup j m)
  unfolding lookup insert
  lookup-insert k j v [] = refl
  lookup-insert k j v ((i, w) ∷ m) =
      ground
        (arith, e.same_key_iff k j, e.same_key_iff i k, e.same_key_iff i j, lookup-insert k j v m)

  pub lookup-remove :
      (k j : K) (m : HashMap K V)
      → lookup j (remove k m) ≡ (if e.same_key k j then none else lookup j m)
  unfolding lookup remove
  lookup-remove k j [] = ground arith
  lookup-remove k j ((i, w) ∷ m) =
      ground
        (arith, e.same_key_iff k j, e.same_key_iff i k, e.same_key_iff i j, lookup-remove k j m)

-- `map.get(k).unwrap_or(0)`
unfoldable pub get_or_zero {ℓ} : {K : Type ℓ} ⦃e : HashKey K⦄ → K → HashMap K ℕ → ℕ
unfolding lookup
get_or_zero k m = elim (lookup k m) [ none ↦ 0 | some n ↦ n ]
