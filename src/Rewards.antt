-- ===== src/Rewards.antt =====
-- Rewards of an account from the active farms (staking-farm/src/farm.rs).
pub mod Frame
pub mod Payout
use staking_farm.Prelude.{
  ℕ, ◌+◌, ◌*◌, Bool, String, not, Option, none, some, List, [], ◌∷◌, ◌++◌, ◌==◌, if◌then◌else◌,
}
use staking_farm.Prelude.Classes.{nat_key, string_key}
use staking_farm.Machine.{
  Result, ok, err_no_farm, expect, add_u128, mul_u256, sub, div, as_u128, ◌>>=◌,
}
use staking_farm.HashMap
use staking_farm.HashMap.{get_or_zero}
use staking_farm.Env.{Env}
use staking_farm.Account.{Account}
use staking_farm.Farm.{Farm, RewardDistribution, denominator}
use staking_farm.Distribution.{internal_calculate_distribution}
use staking_farm.Contract.{Sdk, StakingContract}

-- What the account's shares earn between two values of the reward per share.
unfoldable pub share_reward : ℕ → ℕ → ℕ → Result ℕ
unfolding sub mul_u256 div as_u128
share_reward stake_shares reward_per_share user_rps = do
  difference ← sub reward_per_share user_rps
  product ← mul_u256 stake_shares difference
  quotient ← div product denominator
  as_u128 quotient

-- `*account.amounts.entry(token_id).or_default() += amount`
unfoldable pub add_amount : Account → String → ℕ → Result Account
unfolding get_or_zero add_u128
add_amount account token_id amount = do
  sum ← add_u128 (get_or_zero token_id account.amounts) amount
  ok (record account { amounts = HashMap.insert token_id sum account.amounts })

module _ ⦃sdk : Sdk⦄ where
  unfoldable pub internal_get_farm : StakingContract → ℕ → Result Farm
  internal_get_farm c farm_id = expect (sdk.farms.get c.farms farm_id) err_no_farm

  -- The shares that farms reward: all but those to be burnt.
  unfoldable pub farmed_shares : StakingContract → Result ℕ
  unfolding sub
  farmed_shares c = sub c.total_stake_shares c.total_burn_shares

  -- The farm's new reward per share, what the account has earned, and the farm.
  unfoldable pub claim_from : Account → ℕ → Farm → Option RewardDistribution → Result (ℕ × ℕ × Farm)
  unfolding get_or_zero share_reward
  claim_from account farm_id farm none = ok (0, 0, farm)
  claim_from account farm_id farm (some d) =
      let farm' =
        if not (d.reward_round == farm.last_distribution.reward_round)
        then record farm { last_distribution = d }
        else farm in
      if not account.is_burn_account
      then (do
        let user_rps = get_or_zero farm_id account.last_farm_reward_per_share
        reward ← share_reward account.stake_shares d.reward_per_share user_rps
        ok (farm'.last_distribution.reward_per_share, reward, farm'))
      else ok (0, 0, farm')

  unfoldable pub internal_unclaimed_balance :
      Env → StakingContract → Account → ℕ → Farm → Result (ℕ × ℕ × Farm)
  unfolding claim_from farmed_shares
  internal_unclaimed_balance e c account farm_id farm = do
    shares ← farmed_shares c
    distribution ← internal_calculate_distribution e.block_timestamp farm shares
    claim_from account farm_id farm distribution

  unfoldable pub internal_distribute_reward :
      Env → StakingContract → Account → ℕ → Farm → Result (Account × Farm)
  unfolding add_amount
  internal_distribute_reward e c account farm_id farm = do
    (new_user_rps, claim_amount, farm') ← internal_unclaimed_balance e c account farm_id farm
    if not account.is_burn_account
        then (do
          let account1 = record account {
            last_farm_reward_per_share =
                HashMap.insert farm_id new_user_rps account.last_farm_reward_per_share;
          }
          account2 ← add_amount account1 farm.token_id claim_amount
          ok (account2, farm'))
        else ok (account, farm')

  -- One turn of the loop over the farms that were active.
  unfoldable pub distribute_farm :
      Env → ℕ → StakingContract → Account → Option Farm → Result (StakingContract × Account)
  distribute_farm e farm_id c account none = ok (c, account)
  distribute_farm e farm_id c account (some farm) = do
    (account', farm') ← internal_distribute_reward e c account farm_id farm
    ok (
      record c {
        farms = sdk.farms.replace c.farms farm_id farm';
        active_farms = c.active_farms ++ farm_id ∷ [];
      },
      account',
    )

  unfoldable pub distribute_farms :
      Env → List ℕ → StakingContract × Account → Result (StakingContract × Account)
  distribute_farms e [] s = ok s
  distribute_farms e (farm_id ∷ farm_ids) (c, account) =
      distribute_farm e farm_id c account (sdk.farms.get c.farms farm_id)
      >>= distribute_farms e farm_ids

  unfoldable pub internal_distribute_all_rewards :
      Env → StakingContract → Account → Result (StakingContract × Account)
  internal_distribute_all_rewards e c account =
      distribute_farms e c.active_farms (record c { active_farms = [] }, account)
