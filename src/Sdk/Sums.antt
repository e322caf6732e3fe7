-- ===== src/Sdk/Sums.antt =====
-- Sums over the keys of a persistent map, and how an insertion or a removal changes them.
use staking_farm.Prelude.{
  ℕ, ◌+◌, ◌≡◌, refl, true, false, Option, none, some, List, [], ◌∷◌, str_eq, eq_iff, if◌then◌else◌,
  arith, Bool-cases, inl, inr, ap,
}
use staking_farm.Sdk.{AccountId, contains, IsNodup, UnorderedMap}

-- The sum of `g` over a list of keys.
abbrev pub sum_over : (AccountId → ℕ) → List AccountId → ℕ
sum_over g [] = 0
sum_over g (k ∷ l) = g k + sum_over g l

without : AccountId → List AccountId → List AccountId
without k [] = []
without k (j ∷ l) = let rest = without k l in if str_eq k j then rest else j ∷ rest

contains-without :
    (k j : AccountId) (l : List AccountId)
    → contains (without k l) j ≡ (if str_eq k j then false else contains l j)
unfolding without
contains-without k j [] = ground arith
contains-without k j (i ∷ l) =
    ground (arith, contains-without k j l, eq_iff k j, eq_iff k i, eq_iff i j)

without-IsNodup : (k : AccountId) (l : List AccountId) → IsNodup l → IsNodup (without k l)
unfolding without
without-IsNodup k [] h = tt
without-IsNodup k (j ∷ l) h =
    ground (arith, without-IsNodup k l h.1, contains-without k j l, eq_iff k j)

-- A key stands in a list without repetitions once at most.
without_absent : (k : AccountId) (l : List AccountId) → contains l k ≡ false → without k l ≡ l
unfolding without
without_absent k [] h = refl
without_absent k (j ∷ l) h = ground (arith, without_absent k l, eq_iff k j, eq_iff j k)

sum_over-without :
    (g : AccountId → ℕ) (k : AccountId) (l : List AccountId)
    → IsNodup l
    → sum_over g l ≡ (if contains l k then g k else 0) + sum_over g (without k l)
unfolding without
sum_over-without g k [] h = ground arith
sum_over-without g k (j ∷ l) h = elim (Bool-cases (str_eq k j)) [
  | inl e ↦ ground (arith, eq_iff k j, eq_iff j k, without_absent j l h.0, ap g ((eq_iff k j).0 e))
  | inr e ↦ ground (arith, eq_iff k j, eq_iff j k, sum_over-without g k l h.1)
]

-- Equal sums over lists of the same keys, for functions that agree there.
sum_over-eq :
    (g g' : AccountId → ℕ) (l l' : List AccountId)
    → IsNodup l
    → IsNodup l'
    → ((j : AccountId) → contains l j ≡ contains l' j)
    → ((j : AccountId) → contains l j ≡ true → g j ≡ g' j)
    → sum_over g l ≡ sum_over g' l'
sum_over-eq g g' [] [] n n' same agree = refl
sum_over-eq g g' [] (k ∷ l') n n' same agree = ground (arith, same k, eq_iff k k)
sum_over-eq g g' (k ∷ l) l' n n' same agree =
    let rest =
      sum_over-eq g g' l (without k l') n.1 (without-IsNodup k l' n')
        (λ j. ground (arith, same j, contains-without k j l', eq_iff k j, n.0))
        (λ j h. agree j (ground arith)) in
    ground (arith, rest, agree k, sum_over-without g' k l' n', same k, eq_iff k k)

-- One key changes its value, and may come or go; an absent key counts nothing.
sum_over_update :
    (k : AccountId) (g g' : AccountId → ℕ) (l l' : List AccountId)
    → IsNodup l
    → IsNodup l'
    → ((j : AccountId) → str_eq k j ≡ false → contains l j ≡ contains l' j)
    → ((j : AccountId) → str_eq k j ≡ false → g j ≡ g' j)
    → (contains l k ≡ false → g k ≡ 0)
    → (contains l' k ≡ false → g' k ≡ 0)
    → sum_over g' l' + g k ≡ sum_over g l + g' k
sum_over_update k g g' l l' n n' same agree z z' =
    let rest =
      sum_over-eq g g' (without k l) (without k l') (without-IsNodup k l n)
        (without-IsNodup k l' n')
        (λ j. ground (arith, same j, contains-without k j l, contains-without k j l'))
        (λ j h. agree j (ground (arith, contains-without k j l))) in
    ground (arith, rest, z, z', sum_over-without g k l n, sum_over-without g' k l' n')

module _ {V : Type 0} (maps : UnorderedMap V) (f : V → ℕ) where
  -- What a key counts for, if it is present.
  abbrev pub value_or_zero : Option V → ℕ
  value_or_zero none = 0
  value_or_zero (some v) = f v

  -- The sum of `f` over a map's values.
  abbrev pub sum_values : maps.Map → ℕ
  sum_values m = sum_over (λ k. value_or_zero (maps.get m k)) (maps.keys m)

  absent_counts_zero :
      (m : maps.Map) (k : AccountId)
      → contains (maps.keys m) k ≡ false
      → value_or_zero (maps.get m k) ≡ 0
  absent_counts_zero m k h = ground (arith, maps.keys_present m k)

  pub sum_values-insert :
      (m : maps.Map) (k : AccountId) (v : V)
      → sum_values (maps.insert m k v) + value_or_zero (maps.get m k) ≡ sum_values m + f v
  sum_values-insert m k v =
      let m' = maps.insert m k v in
      let moved =
        sum_over_update k (λ j. value_or_zero (maps.get m j)) (λ j. value_or_zero (maps.get m' j))
          (maps.keys m) (maps.keys m') (maps.keys-IsNodup m) (maps.keys-IsNodup m')
          (λ j h.
            ground (arith, maps.keys_present m j, maps.keys_present m' j, maps.get-insert m k j v))
          (λ j h. ground (arith, maps.get-insert m k j v)) (absent_counts_zero m k)
          (absent_counts_zero m' k) in
      ground (arith, moved, maps.get-insert m k k v, eq_iff k k)

  pub sum_values-remove :
      (m : maps.Map) (k : AccountId)
      → sum_values (maps.remove m k) + value_or_zero (maps.get m k) ≡ sum_values m
  sum_values-remove m k =
      let m' = maps.remove m k in
      let moved =
        sum_over_update k (λ j. value_or_zero (maps.get m j)) (λ j. value_or_zero (maps.get m' j))
          (maps.keys m) (maps.keys m') (maps.keys-IsNodup m) (maps.keys-IsNodup m')
          (λ j h.
            ground (arith, maps.keys_present m j, maps.keys_present m' j, maps.get-remove m k j))
          (λ j h. ground (arith, maps.get-remove m k j)) (absent_counts_zero m k)
          (absent_counts_zero m' k) in
      ground (arith, moved, maps.get-remove m k k, eq_iff k k)
