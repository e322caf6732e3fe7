-- ===== src/Accounts.antt =====
-- Reading and saving accounts, and what a deposit does (staking-farm/src/internal.rs).
pub mod Sums
pub mod Saving
pub mod Stakes
use staking_farm.Prelude.{
  ℕ, ◌+◌, Bool, false, ◌||◌, none, some, [], ◌∷◌, str_eq, ltb, if◌then◌else◌,
}
use staking_farm.Prelude.Lists.{length}
use staking_farm.Machine.{Result, ok, add_u128, ◌>>=◌}
use staking_farm.Sdk.{AccountId}
use staking_farm.Env.{Env}
use staking_farm.Account.{Account, default_account}
use staking_farm.Contract.{Sdk, StakingContract}

-- The constant ZERO_ADDRESS, the account whose shares are burnt.
abbrev pub zero_address : AccountId
zero_address = "0000000000000000000000000000000000000000000000000000000000000000"

module _ ⦃sdk : Sdk⦄ where
  -- `self.accounts.get(id).unwrap_or_default()`
  unfoldable pub stored_account : StakingContract → AccountId → Account
  stored_account c id = elim (sdk.accounts.get c.accounts id) [
    | none ↦ default_account
    | some a ↦ a
  ]

  unfoldable pub internal_get_account : StakingContract → AccountId → Account
  internal_get_account c id = record (stored_account c id) {
    is_burn_account = str_eq id zero_address;
  }

  -- Whether the account is worth its storage.
  unfoldable pub is_kept : Account → Bool
  is_kept a = ltb 0 a.unstaked || ltb 0 a.stake_shares || ltb 0 (length a.amounts)

  -- `is_burn_account` is skipped when an account is stored, and reads as false.
  unfoldable pub internal_save_account : StakingContract → AccountId → Account → StakingContract
  unfolding is_kept
  internal_save_account c id a = record c {
    accounts =
        if is_kept a
        then sdk.accounts.insert c.accounts id (record a { is_burn_account = false })
        else sdk.accounts.remove c.accounts id;
  }

  unfoldable pub internal_deposit : Env → StakingContract → Result (ℕ × StakingContract)
  unfolding add_u128
  internal_deposit e c = do
    let id = e.predecessor_account_id
    let account = internal_get_account c id
    let amount = e.attached_deposit
    unstaked ← add_u128 account.unstaked amount
    let c1 = internal_save_account c id (record account { unstaked = unstaked })
    total ← add_u128 c1.last_total_balance amount
    ok (amount, record c1 { last_total_balance = total })

  -- `internal_add_shares`
  unfoldable pub internal_add_shares : StakingContract → AccountId → ℕ → Result StakingContract
  unfolding add_u128
  internal_add_shares c id num_shares =
      if ltb 0 num_shares
      then (do
        let account = internal_get_account c id
        shares ← add_u128 account.stake_shares num_shares
        let c1 = internal_save_account c id (record account { stake_shares = shares })
        total ← add_u128 c1.total_stake_shares num_shares
        ok (record c1 { total_stake_shares = total }))
      else ok c
