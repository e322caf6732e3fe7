-- ===== src/Views.antt =====
-- The view methods of staking-farm/src/views.rs. `U128` and `U64` only wrap a number for JSON.
pub mod Farms
pub mod Rewards
pub mod Pages
use staking_farm.Prelude.{
  ℕ, zero, suc, ◌+◌, ◌-◌, Bool, Option, none, some, String, List, [], ◌∷◌, str_eq, ltb, leb,
  if◌then◌else◌,
}
use staking_farm.Prelude.Lists.{length, get_elem?}
use staking_farm.Prelude.Classes.{string_key}
use staking_farm.Machine.{
  Result, ok, err, expect, add_u64, add_u128, ◌>>=◌, err_no_account, err_no_farm,
  index_out_of_bounds,
}
use staking_farm.HashMap.{get_or_zero}
use staking_farm.Sdk.{AccountId}
use staking_farm.Env.{Env}
use staking_farm.Ratio.{Ratio}
use staking_farm.RewardFee.{current, next}
use staking_farm.Account.{Account}
use staking_farm.Farm.{Farm, is_active}
use staking_farm.Shares.{staked_amount_from_num_shares_rounded_down}
use staking_farm.Rewards.{internal_get_farm, internal_unclaimed_balance}
use staking_farm.Accounts.{zero_address, internal_get_account}
use staking_farm.Internal.{internal_get_owner_id, internal_get_factory_id}
use staking_farm.Owner.{internal_get_version}
use staking_farm.Contract.{Sdk, StakingContract, World}

pub record HumanReadableFarm : Type 0 where
  pub farm_id : ℕ
  pub name : String
  pub token_id : AccountId
  pub amount : ℕ
  pub start_date : ℕ
  pub end_date : ℕ
  pub active : Bool

-- `HumanReadableFarm::from`
unfoldable pub readable_farm : ℕ → Farm → HumanReadableFarm
unfolding is_active
readable_farm farm_id farm = record {
  farm_id = farm_id;
  name = farm.name;
  token_id = farm.token_id;
  amount = farm.amount;
  start_date = farm.start_date;
  end_date = farm.end_date;
  active = is_active farm;
}

pub record HumanReadableAccount : Type 0 where
  pub account_id : AccountId
  pub unstaked_balance : ℕ
  pub staked_balance : ℕ
  pub can_withdraw : Bool

pub record PoolSummary : Type 0 where
  pub owner : AccountId
  pub total_staked_balance : ℕ
  pub reward_fee_fraction : Ratio
  pub next_reward_fee_fraction : Ratio
  pub burn_fee_fraction : Ratio
  pub farms : List HumanReadableFarm

-- `.map(f).collect()` over a list of indices.
unfoldable pub collect : {A : Type 0} → (ℕ → Result A) → List ℕ → Result (List A)
collect f [] = ok []
collect f (i ∷ is) = do a ← f i; rest ← collect f is; ok (a ∷ rest)

-- The indices `from .. from + count`.
unfoldable pub range : ℕ → ℕ → List ℕ
range from zero = []
range from (suc count) = from ∷ range (from + 1) count

-- The indices `from .. min(from + limit, len)`.
unfoldable pub page : ℕ → ℕ → ℕ → Result (List ℕ)
unfolding add_u64
page from limit len = do
  end ← add_u64 from limit
  let last = if leb end len then end else len
  ok (range from (last - from))

module _ ⦃sdk : Sdk⦄ where
  unfoldable pub farm_at : StakingContract → ℕ → Result HumanReadableFarm
  farm_at c index = do
    farm ← expect (sdk.farms.get c.farms index) index_out_of_bounds
    ok (readable_farm index farm)

  unfoldable pub get_active_farms : StakingContract → Result (List HumanReadableFarm)
  unfolding farm_at
  get_active_farms c = collect (farm_at c) c.active_farms

  unfoldable pub get_farms : StakingContract → ℕ → ℕ → Result (List HumanReadableFarm)
  unfolding farm_at page
  get_farms c from_index limit = do
    indices ← page from_index limit (sdk.farms.len c.farms)
    collect (farm_at c) indices

  unfoldable pub get_farm : StakingContract → ℕ → Result HumanReadableFarm
  unfolding internal_get_farm
  get_farm c farm_id = do farm ← internal_get_farm c farm_id; ok (readable_farm farm_id farm)

  unfoldable pub get_pool_summary : Env → World → Result PoolSummary
  unfolding internal_get_owner_id
  get_pool_summary e w = do
    owner ← internal_get_owner_id w
    farms ← get_active_farms w.contract
    ok (record {
      owner = owner;
      total_staked_balance = w.contract.total_staked_balance;
      reward_fee_fraction = current e.epoch_height w.contract.reward_fee_fraction;
      next_reward_fee_fraction = next w.contract.reward_fee_fraction;
      burn_fee_fraction = w.contract.burn_fee_fraction;
      farms = farms;
    })

  unfoldable pub get_version : String
  get_version = internal_get_version

  unfoldable pub get_owner_id : World → Result AccountId
  unfolding internal_get_owner_id
  get_owner_id w = internal_get_owner_id w

  unfoldable pub get_factory_id : World → Result AccountId
  unfolding internal_get_factory_id
  get_factory_id w = internal_get_factory_id w

  unfoldable pub get_authorized_users : StakingContract → List AccountId
  get_authorized_users c = sdk.ids.to_vec c.authorized_users

  unfoldable pub get_authorized_farm_tokens : StakingContract → List AccountId
  get_authorized_farm_tokens c = sdk.ids.to_vec c.authorized_farm_tokens

  unfoldable pub get_total_staked_balance : StakingContract → ℕ
  get_total_staked_balance c = c.total_staked_balance

  unfoldable pub get_staking_key : StakingContract → sdk.PublicKey
  get_staking_key c = c.stake_public_key

  unfoldable pub is_staking_paused : StakingContract → Bool
  is_staking_paused c = c.paused

  -- The stored account is read, not the one with its burn flag.
  unfoldable pub get_unclaimed_reward : Env → StakingContract → AccountId → ℕ → Result ℕ
  unfolding get_or_zero add_u128
  get_unclaimed_reward e c account_id farm_id = if str_eq account_id zero_address then ok 0 else (do
    account ← expect (sdk.accounts.get c.accounts account_id) err_no_account
    farm ← expect (sdk.farms.get c.farms farm_id) err_no_farm
    (_, reward, farm') ← internal_unclaimed_balance e c account farm_id farm
    add_u128 reward (get_or_zero farm'.token_id account.amounts))

  unfoldable pub get_account : Env → StakingContract → AccountId → Result HumanReadableAccount
  unfolding internal_get_account
  get_account e c account_id = do
    let account = internal_get_account c account_id
    staked ← staked_amount_from_num_shares_rounded_down c account.stake_shares
    ok (record {
      account_id = account_id;
      unstaked_balance = account.unstaked;
      staked_balance = staked;
      can_withdraw = leb account.unstaked_available_epoch_height e.epoch_height;
    })

  unfoldable pub get_account_unstaked_balance : Env → StakingContract → AccountId → Result ℕ
  unfolding get_account
  get_account_unstaked_balance e c id = do a ← get_account e c id; ok a.unstaked_balance

  unfoldable pub get_account_staked_balance : Env → StakingContract → AccountId → Result ℕ
  unfolding get_account
  get_account_staked_balance e c id = do a ← get_account e c id; ok a.staked_balance

  unfoldable pub get_account_total_balance : Env → StakingContract → AccountId → Result ℕ
  unfolding get_account add_u128
  get_account_total_balance e c id = do
    a ← get_account e c id
    add_u128 a.unstaked_balance a.staked_balance

  unfoldable pub is_account_unstaked_balance_available :
      Env → StakingContract → AccountId → Result Bool
  unfolding get_account
  is_account_unstaked_balance_available e c id = do a ← get_account e c id; ok a.can_withdraw

  unfoldable pub get_reward_fee_fraction : Env → StakingContract → Ratio
  unfolding current
  get_reward_fee_fraction e c = current e.epoch_height c.reward_fee_fraction

  unfoldable pub get_number_of_accounts : StakingContract → ℕ
  get_number_of_accounts c = length (sdk.accounts.keys c.accounts)

  unfoldable pub account_at : Env → StakingContract → ℕ → Result HumanReadableAccount
  unfolding get_account
  account_at e c index = do
    key ← expect (get_elem? (sdk.accounts.keys c.accounts) index) index_out_of_bounds
    get_account e c key

  unfoldable pub get_accounts : Env → StakingContract → ℕ → ℕ → Result (List HumanReadableAccount)
  unfolding account_at page
  get_accounts e c from_index limit = do
    indices ← page from_index limit (length (sdk.accounts.keys c.accounts))
    collect (account_at e c) indices
