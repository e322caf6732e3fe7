-- ===== src/Rewards/Frame.antt =====
-- What the distribution of farm rewards to an account leaves alone.
use staking_farm.Prelude.{ℕ, ◌≡◌, Option, none, some, List, [], ◌∷◌, arith}
use staking_farm.Machine.{ok, bind_ok}
use staking_farm.Env.{Env}
use staking_farm.Account.{Account}
use staking_farm.Farm.{Farm}
use staking_farm.Contract.{Sdk, StakingContract}
use staking_farm.Rewards.{
  internal_distribute_reward, distribute_farm, distribute_farms, internal_distribute_all_rewards,
}

-- The parts of an account that rewards do not touch.
pub record SameStake (a a' : Account) : Type 0 where
  pub unstaked : a'.unstaked ≡ a.unstaked
  pub stake_shares : a'.stake_shares ≡ a.stake_shares
  pub available : a'.unstaked_available_epoch_height ≡ a.unstaked_available_epoch_height
  pub is_burn : a'.is_burn_account ≡ a.is_burn_account

module _ ⦃sdk : Sdk⦄ where
  -- The parts of the contract that rewards do not touch: all but the farms.
  pub record SamePool (c c' : StakingContract) : Type 0 where
    pub last_epoch : c'.last_epoch_height ≡ c.last_epoch_height
    pub last_total : c'.last_total_balance ≡ c.last_total_balance
    pub total_shares : c'.total_stake_shares ≡ c.total_stake_shares
    pub total_staked : c'.total_staked_balance ≡ c.total_staked_balance
    pub total_burn : c'.total_burn_shares ≡ c.total_burn_shares
    pub reward_fee : c'.reward_fee_fraction ≡ c.reward_fee_fraction
    pub burn_fee : c'.burn_fee_fraction ≡ c.burn_fee_fraction
    pub accounts : c'.accounts ≡ c.accounts
    pub paused : c'.paused ≡ c.paused
    pub key : c'.stake_public_key ≡ c.stake_public_key

  reward-SameStake :
      (e : Env) (c : StakingContract) (a : Account) (i : ℕ) (f : Farm) {r : Account × Farm}
      → internal_distribute_reward e c a i f ≡ ok r
      → SameStake a r.0
  unfolding internal_distribute_reward
  reward-SameStake e c a i f h = ground arith

  distribute_farm_frame :
      (e : Env) (i : ℕ) (c : StakingContract) (a : Account) (f : Option Farm)
      {r : StakingContract × Account}
      → distribute_farm e i c a f ≡ ok r
      → SamePool c r.0 × SameStake a r.1
  unfolding distribute_farm
  distribute_farm_frame e i c a none h = ground arith
  distribute_farm_frame e i c a (some f) h =
      bind_ok (internal_distribute_reward e c a i f) _ h
        λ r p q. ground (arith, reward-SameStake e c a i f p)

  distribute_farms_frame :
      (e : Env) (is : List ℕ) (c : StakingContract) (a : Account) {r : StakingContract × Account}
      → distribute_farms e is (c, a) ≡ ok r
      → SamePool c r.0 × SameStake a r.1
  unfolding distribute_farms
  distribute_farms_frame e [] c a h = ground arith
  distribute_farms_frame e (i ∷ is) c a h =
      bind_ok (distribute_farm e i c a (sdk.farms.get c.farms i)) _ h λ (c1, a1) p q. ground (
        arith,
        distribute_farm_frame e i c a (sdk.farms.get c.farms i) p,
        distribute_farms_frame e is c1 a1 q,
      )

  -- Distributing all rewards changes only the farms and what the account has farmed.
  pub distribute_all_frame :
      (e : Env) (c : StakingContract) (a : Account) {r : StakingContract × Account}
      → internal_distribute_all_rewards e c a ≡ ok r
      → SamePool c r.0 × SameStake a r.1
  unfolding internal_distribute_all_rewards
  distribute_all_frame e c a h =
      ground (arith, distribute_farms_frame e c.active_farms (record c { active_farms = [] }) a h)
