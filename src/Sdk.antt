-- ===== src/Sdk.antt =====
-- What the contract takes from near_sdk and serde: persistent collections, and the parsing of
-- messages. None of it is in this repository, so it is a parameter with its documented behaviour.
pub mod Sums
use staking_farm.Prelude.{
  ℕ, suc, ◌+◌, ◌≡◌, Bool, true, false, ◌||◌, Option, none, some, String, List, [], ◌∷◌, str_eq, ltb,
  ◌==◌, if◌then◌else◌,
}
use staking_farm.Prelude.Lists.{length}

-- Account ids are texts, which the program only compares.
abbrev pub AccountId : Type 0
AccountId = String

abbrev pub contains : List AccountId → AccountId → Bool
contains [] k = false
contains (j ∷ l) k = str_eq j k || contains l k

abbrev pub IsNodup : List AccountId → Type 0
IsNodup [] = Unit
IsNodup (k ∷ l) = (contains l k ≡ false) × IsNodup l

abbrev pub is_some {ℓ} : {A : Type ℓ} → Option A → Bool
is_some none = false
is_some (some a) = true

-- `near_sdk::collections::UnorderedMap`, keyed by account ids: `insert` overwrites, `remove`
-- forgets, and `keys_as_vector` lists each key that is present once.
pub record UnorderedMap (V : Type 0) : Type 1 where
  pub Map : Type 0
  pub new : Map
  pub get : Map → AccountId → Option V
  pub insert : Map → AccountId → V → Map
  pub remove : Map → AccountId → Map
  pub keys : Map → List AccountId
  pub keys-new : keys new ≡ []
  pub get-insert :
      (m : Map) (k j : AccountId) (v : V)
      → get (insert m k v) j ≡ (if str_eq k j then some v else get m j)
  pub get-remove :
      (m : Map) (k j : AccountId) → get (remove m k) j ≡ (if str_eq k j then none else get m j)
  pub keys_present : (m : Map) (k : AccountId) → contains (keys m) k ≡ is_some (get m k)
  pub keys-IsNodup : (m : Map) → IsNodup (keys m)

-- `near_sdk::collections::UnorderedSet` of account ids. `insert` and `remove` also say whether
-- the set has changed.
pub record UnorderedSet : Type 1 where
  pub Set : Type 0
  pub new : Set
  pub contains_id : Set → AccountId → Bool
  pub insert : Set → AccountId → Set
  pub remove : Set → AccountId → Set
  pub to_vec : Set → List AccountId
  pub contains-new : (k : AccountId) → contains_id new k ≡ false
  pub contains-insert :
      (s : Set) (k j : AccountId) → contains_id (insert s k) j ≡ (str_eq k j || contains_id s j)
  pub contains-remove :
      (s : Set) (k j : AccountId)
      → contains_id (remove s k) j ≡ (if str_eq k j then false else contains_id s j)
  pub to_vec_members : (s : Set) (k : AccountId) → contains (to_vec s) k ≡ contains_id s k
  pub to_vec-IsNodup : (s : Set) → IsNodup (to_vec s)

-- `near_sdk::collections::Vector`. The program replaces elements only at indices in range.
pub record Vector (A : Type 0) : Type 1 where
  pub Vec : Type 0
  pub new : Vec
  pub len : Vec → ℕ
  pub get : Vec → ℕ → Option A
  pub push : Vec → A → Vec
  pub replace : Vec → ℕ → A → Vec
  pub len-new : len new ≡ 0
  pub len-push : (v : Vec) (a : A) → len (push v a) ≡ len v + 1
  pub len-replace : (v : Vec) (i : ℕ) (a : A) → len (replace v i a) ≡ len v
  pub get_in_range : (v : Vec) (i : ℕ) → is_some (get v i) ≡ ltb i (len v)
  pub get-push :
      (v : Vec) (a : A) (i : ℕ) → get (push v a) i ≡ (if i == len v then some a else get v i)
  pub get-replace :
      (v : Vec) (i j : ℕ) (a : A)
      → ltb i (len v) ≡ true
      → get (replace v i a) j ≡ (if i == j then some a else get v j)
