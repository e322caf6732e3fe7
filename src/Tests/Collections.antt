-- ===== src/Tests/Collections.antt =====
-- Lists that behave as the persistent collections are documented to.
use staking_farm.Prelude.{
  ℕ, zero, suc, ◌+◌, ◌≡◌, refl, true, false, ◌||◌, Option, none, some, List, [], ◌∷◌, ◌++◌, str_eq,
  eq_iff, ltb, ◌==◌, if◌then◌else◌, arith,
}
use staking_farm.Prelude.Lists.{length, get_elem?, length-append}
use staking_farm.Sdk.{AccountId, contains, IsNodup, is_some, UnorderedMap, UnorderedSet, Vector}

abbrev pub drop_key : AccountId → List AccountId → List AccountId
drop_key k [] = []
drop_key k (j ∷ l) = let rest = drop_key k l in if str_eq k j then rest else j ∷ rest

contains-drop_key :
    (k j : AccountId) (l : List AccountId)
    → contains (drop_key k l) j ≡ (if str_eq k j then false else contains l j)
contains-drop_key k j [] = ground arith
contains-drop_key k j (i ∷ l) =
    ground (arith, contains-drop_key k j l, eq_iff k j, eq_iff k i, eq_iff i j)

drop_key-IsNodup : (k : AccountId) (l : List AccountId) → IsNodup l → IsNodup (drop_key k l)
drop_key-IsNodup k [] h = tt
drop_key-IsNodup k (j ∷ l) h =
    ground (arith, drop_key-IsNodup k l h.1, contains-drop_key k j l, eq_iff k j)

module _ {V : Type 0} where
  abbrev pub find : List (AccountId × V) → AccountId → Option V
  find [] k = none
  find ((j, v) ∷ m) k = if str_eq j k then some v else find m k

  abbrev pub forget : List (AccountId × V) → AccountId → List (AccountId × V)
  forget [] k = []
  forget ((j, v) ∷ m) k = let rest = forget m k in if str_eq j k then rest else (j, v) ∷ rest

  abbrev pub keys_of : List (AccountId × V) → List AccountId
  keys_of [] = []
  keys_of ((j, v) ∷ m) = j ∷ drop_key j (keys_of m)

  pub find-forget :
      (m : List (AccountId × V)) (k j : AccountId)
      → find (forget m k) j ≡ (if str_eq k j then none else find m j)
  find-forget [] k j = ground arith
  find-forget ((i, v) ∷ m) k j =
      ground (arith, find-forget m k j, eq_iff k j, eq_iff i k, eq_iff i j)

  pub keys_of_present :
      (m : List (AccountId × V)) (k : AccountId) → contains (keys_of m) k ≡ is_some (find m k)
  keys_of_present [] k = refl
  keys_of_present ((j, v) ∷ m) k =
      ground (arith, keys_of_present m k, contains-drop_key j k (keys_of m), eq_iff j k)

  pub keys_of-IsNodup : (m : List (AccountId × V)) → IsNodup (keys_of m)
  keys_of-IsNodup [] = tt
  keys_of-IsNodup ((j, v) ∷ m) = ground (
    arith,
    contains-drop_key j j (keys_of m),
    drop_key-IsNodup j (keys_of m) (keys_of-IsNodup m),
    eq_iff j j,
  )

  pub find-cons :
      (m : List (AccountId × V)) (k j : AccountId) (v : V)
      → find ((k, v) ∷ m) j ≡ (if str_eq k j then some v else find m j)
  find-cons m k j v = refl

abbrev pub list_map : (V : Type 0) → UnorderedMap V
list_map V = record {
  Map = List (AccountId × V);
  new = [];
  get = find;
  insert = λ m k v. (k, v) ∷ m;
  remove = forget;
  keys = keys_of;
  keys-new = refl;
  get-insert = find-cons;
  get-remove = find-forget;
  keys_present = keys_of_present;
  keys-IsNodup = keys_of-IsNodup;
}

abbrev pub remove_id : List AccountId → AccountId → List AccountId
remove_id l k = drop_key k l

abbrev pub insert_id : List AccountId → AccountId → List AccountId
insert_id l k = k ∷ drop_key k l

pub contains-insert_id :
    (s : List AccountId) (k j : AccountId)
    → contains (insert_id s k) j ≡ (str_eq k j || contains s j)
contains-insert_id s k j = ground (arith, contains-drop_key k j s)

pub contains-remove_id :
    (s : List AccountId) (k j : AccountId)
    → contains (remove_id s k) j ≡ (if str_eq k j then false else contains s j)
contains-remove_id s k j = contains-drop_key k j s

abbrev pub dedup : List AccountId → List AccountId
dedup [] = []
dedup (k ∷ l) = k ∷ drop_key k (dedup l)

pub contains-dedup : (s : List AccountId) (k : AccountId) → contains (dedup s) k ≡ contains s k
contains-dedup [] k = refl
contains-dedup (j ∷ s) k =
    ground (arith, contains-dedup s k, contains-drop_key j k (dedup s), eq_iff j k)

pub dedup-IsNodup : (s : List AccountId) → IsNodup (dedup s)
dedup-IsNodup [] = tt
dedup-IsNodup (j ∷ s) = ground (
  arith,
  contains-drop_key j j (dedup s),
  drop_key-IsNodup j (dedup s) (dedup-IsNodup s),
  eq_iff j j,
)

abbrev pub list_set : UnorderedSet
list_set = record {
  Set = List AccountId;
  new = [];
  contains_id = contains;
  insert = insert_id;
  remove = remove_id;
  to_vec = dedup;
  contains-new = λ k. refl;
  contains-insert = contains-insert_id;
  contains-remove = contains-remove_id;
  to_vec_members = contains-dedup;
  to_vec-IsNodup = dedup-IsNodup;
}

module _ {A : Type 0} where
  abbrev pub put : List A → ℕ → A → List A
  put [] i a = []
  put (x ∷ v) zero a = a ∷ v
  put (x ∷ v) (suc i) a = x ∷ put v i a

  pub length-put : (v : List A) (i : ℕ) (a : A) → length (put v i a) ≡ length v
  length-put [] i a = refl
  length-put (x ∷ v) zero a = refl
  length-put (x ∷ v) (suc i) a = omega (arith, length-put v i a)

  pub length-push : (v : List A) (a : A) → length (v ++ a ∷ []) ≡ length v + 1
  length-push v a = omega (arith, length-append v (a ∷ []))

  pub elem_in_range : (v : List A) (i : ℕ) → is_some (get_elem? v i) ≡ ltb i (length v)
  elem_in_range [] i = ground arith
  elem_in_range (x ∷ v) zero = ground arith
  elem_in_range (x ∷ v) (suc i) = ground (arith, elem_in_range v i)

  pub elem-push :
      (v : List A) (a : A) (i : ℕ)
      → get_elem? (v ++ a ∷ []) i ≡ (if i == length v then some a else get_elem? v i)
  elem-push [] a zero = refl
  elem-push [] a (suc i) = ground arith
  elem-push (x ∷ v) a zero = ground arith
  elem-push (x ∷ v) a (suc i) = ground (arith, elem-push v a i)

  pub elem-put :
      (v : List A) (i j : ℕ) (a : A)
      → ltb i (length v) ≡ true
      → get_elem? (put v i a) j ≡ (if i == j then some a else get_elem? v j)
  elem-put [] i j a h = ground arith
  elem-put (x ∷ v) zero zero a h = refl
  elem-put (x ∷ v) zero (suc j) a h = ground arith
  elem-put (x ∷ v) (suc i) zero a h = ground arith
  elem-put (x ∷ v) (suc i) (suc j) a h = ground (arith, elem-put v i j a)

abbrev pub list_vector : (A : Type 0) → Vector A
list_vector A = record {
  Vec = List A;
  new = [];
  len = length;
  get = get_elem?;
  push = λ v a. v ++ a ∷ [];
  replace = put;
  len-new = refl;
  len-push = length-push;
  len-replace = length-put;
  get_in_range = elem_in_range;
  get-push = elem-push;
  get-replace = elem-put;
}
