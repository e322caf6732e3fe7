-- ===== src/Views/Pages/Complete.antt =====
-- What the pages of `get_accounts` show together.
use staking_farm.Prelude.{
  ℕ, ◌+◌, ◌≤◌, ◌<◌, ◌≡◌, refl, List, [], ◌∷◌, ◌++◌, arith, sym, ◌∙◌, ap, some, ◌*◌,
}
use mathlib.Core.Path.{ap₂}
use mathlib.Core.List.{append_assoc}
use staking_farm.Prelude.Lists.{length, get_elem?, length-append}
use staking_farm.Machine.{ok, bind_ok, ok_injective, u64_bound, u128_bound}
use staking_farm.Sdk.{AccountId, contains, IsNodup, is_some}
use staking_farm.Env.{Env}
use staking_farm.Contract.{Sdk, StakingContract}
use staking_farm.Solvency.{HasUnowned}
use staking_farm.Views.Pages.{on_page_all, number, read_pages, pages-collect, pages_ok}
use staking_farm.Views.{
  HumanReadableAccount, collect, range, get_account, account_at, get_number_of_accounts,
}

module _ ⦃sdk : Sdk⦄ where
  -- What stands in the list: each account by its key, as `get_account` shows it.
  abbrev pub Shows : Env → StakingContract → List AccountId → List HumanReadableAccount → Type 0
  Shows e c [] [] = Unit
  Shows e c (k ∷ ks) (a ∷ rest) =
      (a.account_id ≡ k) × (get_account e c k ≡ ok a) × Shows e c ks rest
  Shows e c _ _ = ⊥

  get_elem?-append :
      (before after : List AccountId) (k : AccountId)
      → get_elem? (before ++ k ∷ after) (length before) ≡ some k
  get_elem?-append [] after k = refl
  get_elem?-append (j ∷ before) after k = get_elem?-append before after k

  account_id-get_account :
      (e : Env) (c : StakingContract) (k : AccountId) {a : HumanReadableAccount}
      → get_account e c k ≡ ok a
      → a.account_id ≡ k
  unfolding get_account
  account_id-get_account e c k h = ground arith

  account_at_key :
      (e : Env) (c : StakingContract) (i : ℕ) (k : AccountId) {a : HumanReadableAccount}
      → get_elem? (sdk.accounts.keys c.accounts) i ≡ some k
      → account_at e c i ≡ ok a
      → get_account e c k ≡ ok a
  unfolding account_at
  account_at_key e c i k s h = rw s at h

  listed :
      (e : Env) (c : StakingContract) (before after : List AccountId)
      {xs : List HumanReadableAccount}
      → sdk.accounts.keys c.accounts ≡ before ++ after
      → collect (account_at e c) (range (length before) (length after)) ≡ ok xs
      → Shows e c after xs
  unfolding collect range
  listed e c before [] s h = rw (← ok_injective h) tt
  listed e c before (k ∷ after) s h = bind_ok (account_at e c (length before)) _ h λ a p h.
      bind_ok (collect (account_at e c) (range (length before + 1) (length after))) _ h λ rest q h.
        let shown =
          account_at_key e c (length before) k
            (ap (λ ks. get_elem? ks (length before)) s ∙ get_elem?-append before after k) p in
        let next = length-append before (k ∷ []) in
        let one_more : length (before ++ k ∷ []) ≡ length before + 1 = omega (arith, next) in
        let more =
          listed e c (before ++ k ∷ []) after (s ∙ sym (append_assoc before (k ∷ []) after))
            (rw one_more q) in
        rw (← ok_injective h) (account_id-get_account e c k shown, shown, more)

  abbrev pub ids : List HumanReadableAccount → List AccountId
  ids [] = []
  ids (a ∷ accounts) = a.account_id ∷ ids accounts

  ids-Shows :
      (e : Env) (c : StakingContract) (ks : List AccountId) (xs : List HumanReadableAccount)
      → Shows e c ks xs
      → ids xs ≡ ks
  ids-Shows e c [] [] s = refl
  ids-Shows e c [] (a ∷ xs) s = absurd s
  ids-Shows e c (k ∷ ks) [] s = absurd s
  ids-Shows e c (k ∷ ks) (a ∷ xs) (same, _, s) = ap₂ (λ j js. j ∷ js) same (ids-Shows e c ks xs s)

  module _ (e : Env) (c : StakingContract) (unowned : HasUnowned c)
      (shares_fit : c.total_stake_shares < u128_bound)
      (staked_fits : c.total_staked_balance < u128_bound) where
    -- On a pool in which some shares belong to no account and whose totals fit in 128 bits, a client
    -- that reads the accounts page by page, with pages that have room for all of them and indices
    -- that fit in 64 bits, succeeds. It then has each account that is stored exactly once, in the
    -- order of the keys, as `get_account` shows it.
    pub pages_show_all_accounts :
        (limit count : ℕ)
        → get_number_of_accounts c ≤ count * limit
        → count * limit < u64_bound
        → (xs : List HumanReadableAccount) × (read_pages e c limit count 0 ≡ ok xs)
          × Shows e c (sdk.accounts.keys c.accounts) xs
          × IsNodup (ids xs)
          × ((id : AccountId) → contains (ids xs) id ≡ is_some (sdk.accounts.get c.accounts id))
    unfolding get_number_of_accounts
    pages_show_all_accounts limit count room fits =
        let (xs, read) = pages_ok e c unowned shares_fit staked_fits limit count 0 (omega arith) in
        let all = on_page_all (number c) (count * limit) room in
        let keys = sdk.accounts.keys c.accounts in
        let shown = listed e c [] keys refl (rw all at (pages-collect e c limit count 0 read)) in
        let same = ids-Shows e c keys xs shown in
        (
          xs,
          read,
          shown,
          rw same (sdk.accounts.keys-IsNodup c.accounts),
          λ id. rw same (sdk.accounts.keys_present c.accounts id),
        )
