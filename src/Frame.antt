-- ===== src/Frame.antt =====
-- What every call keeps: a relation between the contracts before and after that the operations of
-- staking-farm/src/internal.rs keep is kept by all the methods.
pub mod Staking
pub mod Farming
pub mod Administration
pub mod Calls
use staking_farm.Prelude.{ℕ, ◌+◌, ◌≤◌, ◌≡◌, ◌⊎◌, Bool}
use staking_farm.Machine.{ok}
use staking_farm.Sdk.{AccountId}
use staking_farm.Env.{Env}
use staking_farm.Account.{Account}
use staking_farm.Contract.{Sdk, StakingContract, World}
use staking_farm.Accounts.{
  zero_address, internal_get_account, internal_save_account, internal_deposit,
}
use staking_farm.Internal.{internal_ping, internal_withdraw, internal_stake, inner_unstake}

module _ ⦃sdk : Sdk⦄ where
  -- The same accounts and the same totals.
  pub record SameBooks (c c' : StakingContract) : Type 0 where
    pub accounts : c'.accounts ≡ c.accounts
    pub total_shares : c'.total_stake_shares ≡ c.total_stake_shares
    pub total_staked : c'.total_staked_balance ≡ c.total_staked_balance
    pub last_total : c'.last_total_balance ≡ c.last_total_balance
    pub total_burn : c'.total_burn_shares ≡ c.total_burn_shares

  -- The accounts whose stake a call may unstake or withdraw: the caller's, and that of the burnt shares.
  abbrev pub IsActor : Env → AccountId → Type 0
  IsActor e id = (id ≡ e.predecessor_account_id) ⊎ (id ≡ zero_address)

  -- A relation that the operations keep in a call: its number counts the stakes and unstakes.
  pub record Rules (e : Env) (w : World) (R : ℕ → StakingContract → StakingContract → Type 0)
      : Type 0 where
    pub chain :
        (i j k : ℕ) (c c1 c2 : StakingContract) → j + k ≤ i → R j c c1 → R k c1 c2 → R i c c2
    pub unchanged : (c c' : StakingContract) → SameBooks c c' → R 0 c c'
    pub saved :
        (c c1 : StakingContract) (id : AccountId) (a : Account)
        → SameBooks c c1
        → a.unstaked ≡ (internal_get_account c id).unstaked
        → a.stake_shares ≡ (internal_get_account c id).stake_shares
        → R 0 c (internal_save_account c1 id a)
    pub pinged : (r : Bool × World) → internal_ping e w ≡ ok r → R 0 w.contract r.1.contract
    pub deposited :
        (c : StakingContract) (r : ℕ × StakingContract) → internal_deposit e c ≡ ok r → R 0 c r.1
    pub withdrawn :
        (v : World) (id : AccountId) (amount : ℕ) (v' : World)
        → IsActor e id
        → internal_withdraw e v id amount ≡ ok v'
        → R 0 v.contract v'.contract
    pub staked :
        (c : StakingContract) (amount : ℕ) (c' : StakingContract)
        → internal_stake e c amount ≡ ok c'
        → R 1 c c'
    pub unstaked :
        (c : StakingContract) (id : AccountId) (amount : ℕ) (c' : StakingContract)
        → IsActor e id
        → inner_unstake e c id amount ≡ ok c'
        → R 1 c c'
