-- ===== src/Solvency/Burnt.antt =====
-- The shares to be burnt are those of the account that burns, so that farms always reward the rest.
use staking_farm.Prelude.{◌-◌, ◌≤◌, ◌<◌, ◌≡◌, refl, List, arith, str_eq, eq_iff, ap, true}
use staking_farm.Machine.{ok, sub_ok}
use staking_farm.Sdk.{AccountId}
use staking_farm.Env.{Env}
use staking_farm.Account.{Account}
use staking_farm.Ratio.{Ratio}
use staking_farm.Contract.{Sdk, StakingContract, World}
use staking_farm.Accounts.{zero_address, internal_get_account, internal_save_account}
use staking_farm.Accounts.Saving.{get_account-accounts}
use staking_farm.Accounts.Sums.{save_totals}
use staking_farm.Accounts.Stakes.{shares_at, stakes-save, shares_at_le}
use staking_farm.Rewards.{farmed_shares}
use staking_farm.Internal.Stakes.{
  stakes-stake, stakes-unstake, stakes-deposit, stakes-withdraw, ping-Credited,
}
use staking_farm.Internal.{internal_restake}
use staking_farm.Init.{new, stake_share_price_guarantee_fund}
use staking_farm.Calls.{Call, history}
use staking_farm.Frame.{SameBooks, Rules}
use staking_farm.Frame.Calls.{history-Kept}
use staking_farm.Solvency.Pool.{shares_accounted}

module _ ⦃sdk : Sdk⦄ where
  -- The account that burns holds at least the shares to be burnt.
  abbrev pub IsCovered : StakingContract → Type 0
  IsCovered c = c.total_burn_shares ≤ shares_at c zero_address

  is_zero : str_eq zero_address zero_address ≡ true
  is_zero = (eq_iff zero_address zero_address).1 refl

  unchanged-IsCovered : (c c' : StakingContract) → SameBooks c c' → IsCovered c → IsCovered c'
  unchanged-IsCovered c c' same h =
      let kept = ap (λ b. b.stake_shares) (get_account-accounts c c' zero_address same.accounts) in
      omega (arith, kept, same.total_burn)

  save-IsCovered :
      (c c1 : StakingContract) (id : AccountId) (a : Account)
      → SameBooks c c1
      → a.stake_shares ≡ (internal_get_account c id).stake_shares
      → IsCovered c
      → IsCovered (internal_save_account c1 id a)
  save-IsCovered c c1 id a same s h = ground (
    arith,
    stakes-save c c1 id zero_address a same.accounts,
    save_totals c1 id a,
    same.total_burn,
    eq_iff id zero_address,
  )

  IsCovered-rules : (e : Env) (w : World) → Rules e w (λ _ c c'. IsCovered c → IsCovered c')
  IsCovered-rules e w = record {
    chain = λ i j k c c1 c2 le a b h. b (a h);
    unchanged = unchanged-IsCovered;
    saved = λ c c1 id a same u s h. save-IsCovered c c1 id a same s h;
    pinged = λ r p h.
        let d = ping-Credited e w r zero_address p in
        ground (arith, d.shares_eq, d.burn_eq, is_zero);
    deposited = λ c r p h. omega (arith, stakes-deposit e c r zero_address p);
    withdrawn = λ v id n v' actor p h. omega (arith, stakes-withdraw e v id n v' zero_address p);
    staked = λ c n c' p h.
        let (shares, charge, s, u, b) = stakes-stake e c n c' zero_address p in omega (arith, s, b);
    unstaked = λ c id n c' actor p h.
        let (shares, receive, s, u, b) = stakes-unstake e c id n c' zero_address p in
        ground (arith, s, b);
  }

  new-burn :
      (e : Env) (owner : AccountId) (key : sdk.PublicKey) (reward burn : Ratio) (w : World)
      → new e owner key reward burn ≡ ok w
      → w.contract.total_burn_shares ≡ 0
  unfolding new internal_restake
  new-burn e owner key reward burn w h = ground arith

  -- After any calls on a pool that `new` has set up with more than the guarantee fund, the account that
  -- burns holds at least the shares to be burnt, and the shares that farms reward are computed without
  -- a panic: they are all but those, and at least those of the initial stake.
  pub burn_shares_covered :
      (e : Env) (owner : AccountId) (key : sdk.PublicKey) (reward burn : Ratio) (w : World)
      → new e owner key reward burn ≡ ok w
      → stake_share_price_guarantee_fund < e.account_balance
      → (calls : List (Env × Call))
      → let c = (history w calls).contract in
        (c.total_burn_shares ≤ (internal_get_account c zero_address).stake_shares)
        × (farmed_shares c ≡ ok (c.total_stake_shares - c.total_burn_shares))
        × (e.account_balance - stake_share_price_guarantee_fund
            ≤ c.total_stake_shares - c.total_burn_shares)
  unfolding farmed_shares
  burn_shares_covered e owner key reward burn w created staked calls =
      let c = (history w calls).contract in
      let started = new-burn e owner key reward burn w created in
      let covered = history-Kept IsCovered IsCovered-rules calls w (omega (arith, started)) in
      let held = shares_at_le c zero_address in
      let all = shares_accounted e owner key reward burn w created staked calls in
      (
        covered,
        sub_ok c.total_stake_shares c.total_burn_shares (omega (arith, covered, held, all)),
        omega (arith, covered, held, all),
      )
