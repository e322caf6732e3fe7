-- ===== src/Accounts/Saving.antt =====
-- What is read of an account after an account was saved.
use staking_farm.Prelude.{◌≡◌, refl, true, false, str_eq, eq_iff, arith}
use staking_farm.Sdk.{AccountId}
use staking_farm.Account.{Account}
use staking_farm.Contract.{Sdk, StakingContract}
use staking_farm.Accounts.{stored_account, internal_get_account, is_kept, internal_save_account}

module _ ⦃sdk : Sdk⦄ where
  -- The saved account reads back as it was, as far as balances go, kept or not.
  pub get-save_self :
      (c : StakingContract) (id : AccountId) (a : Account)
      → let b = internal_get_account (internal_save_account c id a) id in
        (b.unstaked ≡ a.unstaked) × (b.stake_shares ≡ a.stake_shares)
  unfolding internal_get_account internal_save_account stored_account
  get-save_self c id a = ground (
    arith,
    sdk.accounts.get-insert c.accounts id id (record a { is_burn_account = false }),
    sdk.accounts.get-remove c.accounts id id,
    eq_iff id id,
  )

  -- An account with an unstaked balance keeps the epoch from which it is available.
  pub available-save_self :
      (c : StakingContract) (id : AccountId) (a : Account)
      → is_kept a ≡ true
      → (internal_get_account (internal_save_account c id a) id).unstaked_available_epoch_height
        ≡ a.unstaked_available_epoch_height
  unfolding internal_get_account internal_save_account stored_account
  available-save_self c id a h = ground (
    arith,
    sdk.accounts.get-insert c.accounts id id (record a { is_burn_account = false }),
    eq_iff id id,
    h,
  )

  -- Another account is not touched.
  pub get-save_ne :
      (c : StakingContract) (id j : AccountId) (a : Account)
      → str_eq id j ≡ false
      → internal_get_account (internal_save_account c id a) j ≡ internal_get_account c j
  unfolding internal_get_account internal_save_account stored_account
  get-save_ne c id j a h = ground (
    arith,
    sdk.accounts.get-insert c.accounts id j (record a { is_burn_account = false }),
    sdk.accounts.get-remove c.accounts id j,
  )

  -- Only the accounts of the contract are read.
  pub get_account-accounts :
      (c c' : StakingContract) (id : AccountId)
      → c'.accounts ≡ c.accounts
      → internal_get_account c' id ≡ internal_get_account c id
  unfolding internal_get_account stored_account
  get_account-accounts c c' id e = rw e refl
