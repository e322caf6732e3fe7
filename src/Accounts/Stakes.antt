-- ===== src/Accounts/Stakes.antt =====
-- What each account has unstaked and in shares, when another or the same account is saved.
use staking_farm.Prelude.{
  ℕ, ◌+◌, ◌≤◌, ◌<◌, ◌≡◌, refl, str_eq, eq_iff, if◌then◌else◌, arith, Bool-cases, inl, inr, ◌∙◌, ap,
}
use staking_farm.Machine.{ok}
use staking_farm.Sdk.{AccountId}
use staking_farm.Account.{Account}
use staking_farm.Contract.{Sdk, StakingContract}
use staking_farm.Accounts.{
  is_kept, stored_account, internal_get_account, internal_save_account, internal_add_shares,
}
use staking_farm.Accounts.Saving.{
  get-save_self, available-save_self, get-save_ne, get_account-accounts,
}
use staking_farm.Accounts.Sums.{account_shares, account_shares-save, save_totals}

module _ ⦃sdk : Sdk⦄ where
  abbrev pub unstaked_at : StakingContract → AccountId → ℕ
  unstaked_at c id = (internal_get_account c id).unstaked

  abbrev pub shares_at : StakingContract → AccountId → ℕ
  shares_at c id = (internal_get_account c id).stake_shares

  abbrev pub available_at : StakingContract → AccountId → ℕ
  available_at c id = (internal_get_account c id).unstaked_available_epoch_height

  -- An account is saved in a contract `c1` that holds the accounts of `c`.
  pub stakes-save :
      (c c1 : StakingContract) (id j : AccountId) (a : Account)
      → c1.accounts ≡ c.accounts
      → (unstaked_at (internal_save_account c1 id a) j
          ≡ (if str_eq id j then a.unstaked else unstaked_at c j))
        × (shares_at (internal_save_account c1 id a) j
            ≡ (if str_eq id j then a.stake_shares else shares_at c j))
  stakes-save c c1 id j a same = elim (Bool-cases (str_eq id j)) [
    | inl equal ↦ rw (equal, ← (eq_iff id j).0 equal) (get-save_self c1 id a)
    | inr other ↦
        let kept = get-save_ne c1 id j a other ∙ get_account-accounts c c1 j same in
        rw other (ap (λ b. b.unstaked) kept, ap (λ b. b.stake_shares) kept)
  ]

  -- An account that has something unstaked keeps the epoch from which that is available.
  pub available-save :
      (c c1 : StakingContract) (id j : AccountId) (a : Account)
      → c1.accounts ≡ c.accounts
      → a.unstaked ≡ unstaked_at c id
      → a.unstaked_available_epoch_height ≡ available_at c id
      → 0 < unstaked_at c j
      → available_at (internal_save_account c1 id a) j ≡ available_at c j
  unfolding is_kept
  available-save c c1 id j a same u v pos = elim (Bool-cases (str_eq id j)) [
    | inl equal ↦
        let eq = (eq_iff id j).0 equal in
        rw (← eq) (available-save_self c1 id a (ground (arith, u, rw (← eq) at pos)) ∙ v)
    | inr other ↦
        ap (λ b. b.unstaked_available_epoch_height)
          (get-save_ne c1 id j a other ∙ get_account-accounts c c1 j same)
  ]

  pub available-add_shares :
      (c : StakingContract) (id j : AccountId) (n : ℕ) {c' : StakingContract}
      → internal_add_shares c id n ≡ ok c'
      → 0 < unstaked_at c j
      → available_at c' j ≡ available_at c j
  unfolding internal_add_shares internal_get_account stored_account
  available-add_shares c id j n h pos =
      let a = internal_get_account c id in
      let a' = record a { stake_shares = a.stake_shares + n } in
      ground (arith, available-save c c id j a' refl refl refl pos)

  -- Added shares go to the account that they are for.
  pub add_shares-stakes :
      (c : StakingContract) (id j : AccountId) (n : ℕ) {c' : StakingContract}
      → internal_add_shares c id n ≡ ok c'
      → (unstaked_at c' j ≡ unstaked_at c j)
        × (shares_at c' j ≡ shares_at c j + (if str_eq id j then n else 0))
        × (c'.total_burn_shares ≡ c.total_burn_shares)
  unfolding internal_add_shares internal_get_account stored_account
  add_shares-stakes c id j n h =
      let a = internal_get_account c id in
      let a' = record a { stake_shares = a.stake_shares + n } in
      ground (arith, stakes-save c c id j a' refl, save_totals c id a', eq_iff id j)

  -- No account holds more shares than all together.
  pub shares_at_le : (c : StakingContract) (id : AccountId) → shares_at c id ≤ account_shares c
  shares_at_le c id =
      let emptied = record (internal_get_account c id) { stake_shares = 0 } in
      omega (arith, account_shares-save c c id emptied refl)
