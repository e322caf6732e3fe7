-- ===== src/Solvency/History.antt =====
-- Whatever calls are made, the books stay sound: the price of a share never falls, and the funds
-- that back rounding suffice for as many calls as there are yoctoNEAR in them.
use staking_farm.Prelude.{suc, ◌≡◌, refl, List, [], ◌∷◌, arith}
use staking_farm.Prelude.Lists.{length}
use staking_farm.Sdk.{AccountId}
use staking_farm.Env.{Env}
use staking_farm.Account.{Account}
use staking_farm.Contract.{Sdk, StakingContract, World}
use staking_farm.Accounts.{internal_get_account, internal_save_account}
use staking_farm.Accounts.Sums.{account_shares-save, account_unstaked-save, save_totals}
use staking_farm.Calls.{Call, transact, history}
use staking_farm.Frame.{SameBooks, Rules}
use staking_farm.Frame.Calls.{transact-Kept}
use staking_farm.Solvency.{IsSound, Sound, HasUnowned, IsSound-trans, IsSound-HasUnowned}
use staking_farm.Solvency.Operations.{
  IsSound-refl, stake-IsSound, unstake-IsSound, deposit-IsSound, withdraw-IsSound, ping-IsSound,
}

module _ ⦃sdk : Sdk⦄ where
  SameBooks-IsSound : (c c' : StakingContract) → SameBooks c c' → IsSound 0 c c'
  SameBooks-IsSound c c' s = record {
    price = rw (s.total_shares, s.total_staked) (omega arith);
    shares = rw (s.accounts, s.total_shares) refl;
    funds = rw (s.accounts, s.total_staked, s.last_total) (omega arith);
  }

  -- An account is saved with the same stake, after a distribution of rewards.
  save-IsSound :
      (c c1 : StakingContract) (id : AccountId) (a : Account)
      → SameBooks c c1
      → a.unstaked ≡ (internal_get_account c id).unstaked
      → a.stake_shares ≡ (internal_get_account c id).stake_shares
      → IsSound 0 c (internal_save_account c1 id a)
  save-IsSound c c1 id a same u s =
      let t = save_totals c1 id a in
      let x = account_shares-save c c1 id a same.accounts in
      let y = account_unstaked-save c c1 id a same.accounts in
      record {
        price = rw (t.0, t.1, same.total_shares, same.total_staked) (omega arith);
        shares = omega (arith, t, x, same.total_shares);
        funds = omega (arith, t, y, same.total_staked, same.last_total);
      }

  -- The operations keep the books sound, where some shares belong to no account.
  IsSound-rules : (e : Env) (w : World) → Rules e w (λ k c c'. HasUnowned c → IsSound k c c')
  IsSound-rules e w = record {
    chain = λ i j k c c1 c2 le a b u.
        let u1 = IsSound-HasUnowned j c c1 (a u) u in
        IsSound-trans i j k c c1 c2 le u1 (a u) (b u1);
    unchanged = λ c c' same u. SameBooks-IsSound c c' same;
    saved = λ c c1 id a same x y u. save-IsSound c c1 id a same x y;
    pinged = λ r p u. ping-IsSound e w r p;
    deposited = λ c r p u. deposit-IsSound e c r p;
    withdrawn = λ v id n v' actor p u. withdraw-IsSound e v id n v' p;
    staked = λ c n c' p u. stake-IsSound e c n c' p;
    unstaked = λ c id n c' actor p u. unstake-IsSound e c id n c' p;
  }

  pub transact-Sound :
      (e : Env) (w : World) (call : Call) → HasUnowned w.contract → Sound 1 w (transact e w call)
  transact-Sound e w call u = transact-Kept e w (IsSound-rules e w) call u

  -- Over any sequence of calls, from a contract in which some shares belong to no account: the price
  -- of a share does not fall, the number of shares that belong to no account stays, and what is owed
  -- grows by at most one yoctoNEAR for each call more than the balance that the contract knows of.
  pub history-Sound :
      (calls : List (Env × Call)) (w : World)
      → HasUnowned w.contract
      → Sound (length calls) w (history w calls)
  unfolding history
  history-Sound [] w u = IsSound-refl
  history-Sound ((e, call) ∷ calls) w u =
      let w1 = transact e w call in
      let s = transact-Sound e w call u in
      let u1 = IsSound-HasUnowned 1 w.contract w1.contract s u in
      IsSound-trans (suc (length calls)) 1 (length calls) w.contract w1.contract
        (history w1 calls).contract (omega arith) u1 s (history-Sound calls w1 u1)
