-- ===== src/Account.antt =====
-- `Account` of staking-farm/src/account.rs.
use staking_farm.Prelude.{ℕ, Bool, false, []}
use staking_farm.HashMap.{HashMap}
use staking_farm.Sdk.{AccountId}

pub record Account : Type 0 where
  pub unstaked : ℕ
  pub stake_shares : ℕ
  pub unstaked_available_epoch_height : ℕ
  pub last_farm_reward_per_share : HashMap ℕ ℕ
  pub amounts : HashMap AccountId ℕ
  pub is_burn_account : Bool

-- `Account::default`
abbrev pub default_account : Account
default_account = record {
  unstaked = 0;
  stake_shares = 0;
  unstaked_available_epoch_height = 0;
  last_farm_reward_per_share = [];
  amounts = [];
  is_burn_account = false;
}
