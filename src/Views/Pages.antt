-- ===== src/Views/Pages.antt =====
-- The pages of `get_accounts`, read one after the other.
pub mod Complete
use staking_farm.Prelude.{
  ℕ, zero, suc, ◌+◌, ◌-◌, ◌≤◌, ◌<◌, ◌≡◌, ◌/◌, refl, List, [], ◌∷◌, ◌++◌, map, leb, if◌then◌else◌,
  arith, sym, ◌∙◌, ap, Option, none, some, Bool, true, false, Bool-cases, inl, inr, ◌*◌,
}
use mathlib.Core.Path.{ap₂}
use mathlib.Core.List.{append_assoc, append-nil}
use staking_farm.Prelude.Lists.{length, get_elem?, length-append}
use staking_farm.Machine.{
  Result, ok, err, ◌>>=◌, bind_ok, expect, index_out_of_bounds, ok_injective, add_u64, u64_bound,
  u128_bound,
}
use staking_farm.Sdk.{AccountId, contains, IsNodup, is_some}
use staking_farm.Env.{Env}
use staking_farm.Contract.{Sdk, StakingContract}
use staking_farm.Accounts.{internal_get_account}
use staking_farm.Accounts.Stakes.{shares_at_le}
use staking_farm.Shares.Success.{amount_down_ok}
use staking_farm.Solvency.{HasUnowned}
use staking_farm.Views.{
  HumanReadableAccount, collect, range, page, get_account, account_at, get_accounts,
  get_number_of_accounts,
}

-- How many of `len` indices stand on the page of `limit` that starts at `from`.
abbrev pub on_page : ℕ → ℕ → ℕ → ℕ
on_page from limit len = (if leb (from + limit) len then from + limit else len) - from

range-add : (from n m : ℕ) → range from (n + m) ≡ range from n ++ range (from + n) m
unfolding range
range-add from zero m =
    let a : zero + m ≡ m = omega arith in let b : from + zero ≡ from = omega arith in rw (a, b) refl
range-add from (suc n) m =
    let a : suc n + m ≡ suc (n + m) = omega arith in
    let b : from + suc n ≡ from + 1 + n = omega arith in
    rw (a, b) (ap (◌∷◌ from) (range-add (from + 1) n m))

collect-append :
    {A : Type 0} (f : ℕ → Result A) (is js : List ℕ) (xs ys : List A)
    → collect f is ≡ ok xs
    → collect f js ≡ ok ys
    → collect f (is ++ js) ≡ ok (xs ++ ys)
unfolding collect
collect-append f [] js xs ys h k = rw (← ok_injective h) k
collect-append f (i ∷ is) js xs ys h k = bind_ok (f i) _ h λ a p h.
    bind_ok (collect f is) _ h
      λ rest q h. rw (p, collect-append f is js rest ys q k, ← ok_injective h) refl

-- Two pages side by side are one page.
on_page-add :
    (from n m len : ℕ)
    → range from (on_page from (n + m) len)
      ≡ range from (on_page from n len) ++ range (from + n) (on_page (from + n) m len)
unfolding range
on_page-add from n m len = elim (Bool-cases (leb (from + n) len)) [
  | inl inside ↦
      let first : on_page from n len ≡ n = ground arith in
      let both : on_page from (n + m) len ≡ n + on_page (from + n) m len = ground arith in
      rw (both, first) (range-add from n (on_page (from + n) m len))
  | inr past ↦
      let second : on_page (from + n) m len ≡ 0 = ground arith in
      let both : on_page from (n + m) len ≡ on_page from n len = ground arith in
      rw (both, second) (sym (append-nil (range from (on_page from n len))))
]

add_u64-sum : (a b : ℕ) {n : ℕ} → add_u64 a b ≡ ok n → n ≡ a + b
unfolding add_u64
add_u64-sum a b h = ground arith

-- Pages beyond the last index are empty.
pub on_page_all : (len limit : ℕ) → len ≤ limit → on_page 0 limit len ≡ len
on_page_all len limit h = ground arith

get_elem?_in_range :
    (ks : List AccountId) (i : ℕ) → i < length ks → (k : AccountId) × (get_elem? ks i ≡ some k)
get_elem?_in_range [] i h = elim h [ ]
get_elem?_in_range (k ∷ ks) zero h = (k, refl)
get_elem?_in_range (k ∷ ks) (suc i) h = get_elem?_in_range ks i (omega arith)

collect-range_ok :
    {A : Type 0} (f : ℕ → Result A) (from n : ℕ)
    → ((i : ℕ) → from ≤ i → i < from + n → (a : A) × (f i ≡ ok a))
    → (xs : List A) × (collect f (range from n) ≡ ok xs)
unfolding collect range
collect-range_ok f from zero h = ([], refl)
collect-range_ok f from (suc n) h =
    let (a, first) = h from (omega arith) (omega arith) in
    let (xs, rest) =
      collect-range_ok f (from + 1) n (λ i low high. h i (omega arith) (omega arith)) in
    (a ∷ xs, rw (first, rest) refl)

module _ ⦃sdk : Sdk⦄ where
  -- A client that reads `count` pages of `limit` accounts each, one after the other.
  unfoldable pub read_pages : Env → StakingContract → ℕ → ℕ → ℕ → Result (List HumanReadableAccount)
  read_pages e c limit zero from = ok []
  read_pages e c limit (suc count) from = do
    accounts ← get_accounts e c from limit
    rest ← read_pages e c limit count (from + limit)
    ok (accounts ++ rest)

  abbrev pub number : StakingContract → ℕ
  number c = length (sdk.accounts.keys c.accounts)

  page-collect :
      (e : Env) (c : StakingContract) (from limit : ℕ) {xs : List HumanReadableAccount}
      → get_accounts e c from limit ≡ ok xs
      → collect (account_at e c) (range from (on_page from limit (number c))) ≡ ok xs
  unfolding get_accounts
  page-collect e c from limit h = bind_ok (page from limit (number c)) _ h λ is p h.
      bind_ok (add_u64 from limit) _ p λ end q p.
        rw
          (ok_injective (sym p)
            ∙ ap (λ n. range from ((if leb n (number c) then n else number c) - from))
                (add_u64-sum from limit q))
          at h

  pub pages-collect :
      (e : Env) (c : StakingContract) (limit count from : ℕ) {xs : List HumanReadableAccount}
      → read_pages e c limit count from ≡ ok xs
      → collect (account_at e c) (range from (on_page from (count * limit) (number c))) ≡ ok xs
  unfolding read_pages collect range
  pages-collect e c limit zero from h =
      let empty : on_page from (0 * limit) (number c) ≡ 0 = ground arith in rw empty h
  pages-collect e c limit (suc count) from h = bind_ok (get_accounts e c from limit) _ h λ xs p h.
      bind_ok (read_pages e c limit count (from + limit)) _ h λ ys q h.
        let sum : suc count * limit ≡ limit + count * limit = omega arith in
        rw (sum, on_page-add from limit (count * limit) (number c), ← ok_injective h)
          (collect-append (account_at e c) _ _ xs ys (page-collect e c from limit p)
            (pages-collect e c limit count (from + limit) q))

  module _ (e : Env) (c : StakingContract) (unowned : HasUnowned c)
      (shares_fit : c.total_stake_shares < u128_bound)
      (staked_fits : c.total_staked_balance < u128_bound) where
    account_at_ok : (i : ℕ) → i < number c → (a : HumanReadableAccount) × (account_at e c i ≡ ok a)
    unfolding account_at get_account
    account_at_ok i h =
        let (k, found) = get_elem?_in_range (sdk.accounts.keys c.accounts) i h in
        let a = internal_get_account c k in
        let held = shares_at_le c k in
        let down =
          amount_down_ok c a.stake_shares (omega arith) (omega (arith, held)) shares_fit
            staked_fits in
        (
          record {
            account_id = k;
            unstaked_balance = a.unstaked;
            staked_balance = c.total_staked_balance * a.stake_shares / c.total_stake_shares;
            can_withdraw = leb a.unstaked_available_epoch_height e.epoch_height;
          },
          rw (found, down.0) refl,
        )

    page_ok :
        (from limit : ℕ)
        → from + limit < u64_bound
        → (xs : List HumanReadableAccount) × (get_accounts e c from limit ≡ ok xs)
    unfolding get_accounts add_u64
    page_ok from limit fits =
        let last = on_page from limit (number c) in
        let (xs, read) =
          collect-range_ok (account_at e c) from last
            (λ i low high. account_at_ok i (ground arith)) in
        let sum : add_u64 from limit ≡ ok (from + limit) = ground arith in (xs, rw sum read)

    pub pages_ok :
        (limit count from : ℕ)
        → from + count * limit < u64_bound
        → (xs : List HumanReadableAccount) × (read_pages e c limit count from ≡ ok xs)
    unfolding read_pages
    pages_ok limit zero from fits = ([], refl)
    pages_ok limit (suc count) from fits =
        let (xs, first) = page_ok from limit (omega arith) in
        let (ys, others) = pages_ok limit count (from + limit) (omega arith) in
        (xs ++ ys, rw (first, others) refl)
