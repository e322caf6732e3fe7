-- ===== src/Accounts/Sums.antt =====
-- The shares and the unstaked balances of all accounts together, and what saving one account and
-- adding shares to one do to them.
use staking_farm.Prelude.{ℕ, ◌+◌, ◌≡◌, refl, false, arith}
use staking_farm.Machine.{ok}
use staking_farm.Sdk.{AccountId}
use staking_farm.Sdk.Sums.{sum_values, sum_values-insert, sum_values-remove}
use staking_farm.Account.{Account}
use staking_farm.Contract.{Sdk, StakingContract}
use staking_farm.Accounts.{
  stored_account, internal_get_account, internal_save_account, internal_add_shares,
}

module _ ⦃sdk : Sdk⦄ where
  -- The stake shares and the unstaked balances of all accounts of a map.
  unfoldable pub shares_of : sdk.accounts.Map → ℕ
  shares_of m = sum_values sdk.accounts (λ a. a.stake_shares) m

  unfoldable pub unstaked_of : sdk.accounts.Map → ℕ
  unstaked_of m = sum_values sdk.accounts (λ a. a.unstaked) m

  abbrev pub account_shares : StakingContract → ℕ
  account_shares c = shares_of c.accounts

  abbrev pub account_unstaked : StakingContract → ℕ
  account_unstaked c = unstaked_of c.accounts

  -- An account is saved in a contract `c1` that holds the accounts of `c`.
  pub account_shares-save :
      (c c1 : StakingContract) (id : AccountId) (a : Account)
      → c1.accounts ≡ c.accounts
      → account_shares (internal_save_account c1 id a) + (internal_get_account c id).stake_shares
        ≡ account_shares c + a.stake_shares
  unfolding internal_save_account internal_get_account stored_account shares_of
  account_shares-save c c1 id a e =
      let stored = record a { is_burn_account = false } in
      rw e (
        ground (
          arith,
          sum_values-insert sdk.accounts (λ b. b.stake_shares) c.accounts id stored,
          sum_values-remove sdk.accounts (λ b. b.stake_shares) c.accounts id,
        ))

  pub account_unstaked-save :
      (c c1 : StakingContract) (id : AccountId) (a : Account)
      → c1.accounts ≡ c.accounts
      → account_unstaked (internal_save_account c1 id a) + (internal_get_account c id).unstaked
        ≡ account_unstaked c + a.unstaked
  unfolding internal_save_account internal_get_account stored_account unstaked_of
  account_unstaked-save c c1 id a e =
      let stored = record a { is_burn_account = false } in
      rw e (
        ground (
          arith,
          sum_values-insert sdk.accounts (λ b. b.unstaked) c.accounts id stored,
          sum_values-remove sdk.accounts (λ b. b.unstaked) c.accounts id,
        ))

  -- Saving an account changes the accounts alone.
  pub save_totals :
      (c : StakingContract) (id : AccountId) (a : Account)
      → let c' = internal_save_account c id a in
        (c'.total_stake_shares ≡ c.total_stake_shares)
        × (c'.total_staked_balance ≡ c.total_staked_balance)
        × (c'.last_total_balance ≡ c.last_total_balance)
        × (c'.total_burn_shares ≡ c.total_burn_shares)
  unfolding internal_save_account
  save_totals c id a = (refl, refl, refl, refl)

  -- Added shares go to an account and to the total alike.
  pub add_shares_sums :
      (c : StakingContract) (id : AccountId) (n : ℕ) {c' : StakingContract}
      → internal_add_shares c id n ≡ ok c'
      → (c'.total_stake_shares ≡ c.total_stake_shares + n)
        × (account_shares c' ≡ account_shares c + n)
        × (account_unstaked c' ≡ account_unstaked c)
        × (c'.total_staked_balance ≡ c.total_staked_balance)
        × (c'.last_total_balance ≡ c.last_total_balance)
        × (c'.total_burn_shares ≡ c.total_burn_shares)
  unfolding internal_add_shares
  add_shares_sums c id n h =
      let a = internal_get_account c id in
      let a' = record a { stake_shares = a.stake_shares + n } in
      ground (
        arith,
        account_shares-save c c id a' refl,
        account_unstaked-save c c id a' refl,
        save_totals c id a',
      )

  pub shares_of-new : shares_of sdk.accounts.new ≡ 0
  unfolding shares_of
  shares_of-new = rw sdk.accounts.keys-new refl

  pub unstaked_of-new : unstaked_of sdk.accounts.new ≡ 0
  unfolding unstaked_of
  unstaked_of-new = rw sdk.accounts.keys-new refl
