-- ===== src/Solvency/Others.antt =====
-- A delegator who makes no calls loses nothing by the calls of others.
use staking_farm.Prelude.{ℕ, some, ◌≤◌, ◌≡◌, inl, inr, arith, str_eq, eq_iff, ap, false}
use staking_farm.Machine.{ok}
use staking_farm.Sdk.{AccountId}
use staking_farm.Env.{Env}
use staking_farm.Account.{Account}
use staking_farm.Contract.{Sdk, StakingContract, World}
use staking_farm.Accounts.{
  zero_address, internal_get_account, internal_save_account, internal_deposit,
}
use staking_farm.Accounts.Saving.{get_account-accounts}
use staking_farm.Accounts.Stakes.{unstaked_at, shares_at, stakes-save}
use staking_farm.Internal.{internal_withdraw, inner_unstake, internal_stake}
use staking_farm.Internal.Stakes.{
  stakes-stake, stakes-unstake, stakes-deposit, stakes-withdraw, ping-Credited,
}
use staking_farm.Calls.{Call, transact}
use staking_farm.Frame.{SameBooks, IsActor, Rules}
use staking_farm.Frame.Calls.{transact-Kept}

module _ ⦃sdk : Sdk⦄ (j : AccountId) where
  -- The account has as much unstaked as before, and no fewer shares.
  abbrev pub Unharmed : StakingContract → StakingContract → Type 0
  Unharmed c c' = (unstaked_at c' j ≡ unstaked_at c j) × (shares_at c j ≤ shares_at c' j)

  -- The account has as much unstaked and in shares as before.
  abbrev pub Untouched : StakingContract → StakingContract → Type 0
  Untouched c c' = (unstaked_at c' j ≡ unstaked_at c j) × (shares_at c' j ≡ shares_at c j)

  unchanged-Untouched : (c c' : StakingContract) → SameBooks c c' → Untouched c c'
  unchanged-Untouched c c' same =
      let kept = get_account-accounts c c' j same.accounts in
      (ap (λ b. b.unstaked) kept, ap (λ b. b.stake_shares) kept)

  save-Untouched :
      (c c1 : StakingContract) (id : AccountId) (a : Account)
      → SameBooks c c1
      → a.unstaked ≡ (internal_get_account c id).unstaked
      → a.stake_shares ≡ (internal_get_account c id).stake_shares
      → Untouched c (internal_save_account c1 id a)
  save-Untouched c c1 id a same u s =
      ground (arith, stakes-save c c1 id j a same.accounts, u, s, eq_iff id j)

  harmless : (c c' : StakingContract) → Untouched c c' → Unharmed c c'
  harmless c c' h = omega (arith, h)

  module _ (not_zero : str_eq zero_address j ≡ false) (e : Env)
      (not_caller : str_eq e.predecessor_account_id j ≡ false) where
    not_actor : (id : AccountId) → IsActor e id → str_eq id j ≡ false
    not_actor id (inl p) = rw p not_caller
    not_actor id (inr p) = rw p not_zero

    withdraw-Untouched :
        (v : World) (id : AccountId) (n : ℕ) (v' : World)
        → IsActor e id
        → internal_withdraw e v id n ≡ ok v'
        → Untouched v.contract v'.contract
    withdraw-Untouched v id n v' actor p =
        ground (arith, stakes-withdraw e v id n v' j p, not_actor id actor)

    unstake-Untouched :
        (c : StakingContract) (id : AccountId) (n : ℕ) (c' : StakingContract)
        → IsActor e id
        → inner_unstake e c id n ≡ ok c'
        → Untouched c c'
    unstake-Untouched c id n c' actor p =
        let (shares, receive, s, u, b) = stakes-unstake e c id n c' j p in
        ground (arith, s, u, not_actor id actor)

    stake-Untouched :
        (c : StakingContract) (n : ℕ) (c' : StakingContract)
        → internal_stake e c n ≡ ok c'
        → Untouched c c'
    stake-Untouched c n c' p =
        let (shares, charge, s, u, b) = stakes-stake e c n c' j p in
        ground (arith, s, u, not_caller)

    deposit-Untouched :
        (c : StakingContract) (r : ℕ × StakingContract)
        → internal_deposit e c ≡ ok r
        → Untouched c r.1
    deposit-Untouched c r p = ground (arith, stakes-deposit e c r j p, not_caller)

    Untouched-rules :
        (w : World) (o : AccountId)
        → w.owner ≡ some o
        → str_eq o j ≡ false
        → Rules e w (λ _ c c'. Untouched c c')
    Untouched-rules w o owned not_owner = record {
      chain = λ i m k c c1 c2 le a b. omega (arith, a, b);
      unchanged = unchanged-Untouched;
      saved = save-Untouched;
      pinged = λ r p.
          let d = ping-Credited e w r j p in
          ground (arith, d.shares_eq, d.unstaked_eq, d.for_owner o owned not_owner, not_zero);
      deposited = deposit-Untouched;
      withdrawn = withdraw-Untouched;
      staked = stake-Untouched;
      unstaked = unstake-Untouched;
    }

    Unharmed-rules : (w : World) → Rules e w (λ _ c c'. Unharmed c c')
    Unharmed-rules w = record {
      chain = λ i m k c c1 c2 le a b. omega (arith, a, b);
      unchanged = λ c c' same. harmless c c' (unchanged-Untouched c c' same);
      saved = λ c c1 id a same u s. harmless c _ (save-Untouched c c1 id a same u s);
      pinged = λ r p.
          let d = ping-Credited e w r j p in ground (arith, d.shares_eq, d.unstaked_eq, not_zero);
      deposited = λ c r p. harmless c r.1 (deposit-Untouched c r p);
      withdrawn = λ v id n v' actor p.
          harmless v.contract v'.contract (withdraw-Untouched v id n v' actor p);
      staked = λ c n c' p. harmless c c' (stake-Untouched c n c' p);
      unstaked = λ c id n c' actor p. harmless c c' (unstake-Untouched c id n c' actor p);
    }

    -- A call by someone else, while another account is the owner's, leaves an account's unstaked
    -- balance and shares as they are. The account is not that of the burnt shares.
    pub others_untouched :
        (w : World) (owner_id : AccountId) (call : Call)
        → w.owner ≡ some owner_id
        → str_eq owner_id j ≡ false
        → let before = internal_get_account w.contract j in
          let after = internal_get_account (transact e w call).contract j in
          (after.unstaked ≡ before.unstaked) × (after.stake_shares ≡ before.stake_shares)
    others_untouched w owner_id call owned not_owner =
        transact-Kept e w (Untouched-rules w owner_id owned not_owner) call

    pub transact-Unharmed :
        (w : World) (call : Call) → Unharmed w.contract (transact e w call).contract
    transact-Unharmed w call = transact-Kept e w (Unharmed-rules w) call
