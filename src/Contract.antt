-- ===== src/Contract.antt =====
-- The state of the staking contract (`StakingContract` of staking-farm/src/lib.rs), the owner,
-- factory and version that owner.rs keeps beside it, and the promises that a call schedules.
use staking_farm.Prelude.{ℕ, ◌≡◌, Bool, Option, String, List, [], ◌∷◌, ◌++◌, ◌==◌}
use staking_farm.Sdk.{AccountId, UnorderedMap, UnorderedSet, Vector}
use staking_farm.Machine.{Result, ok, assert, requires_one_yocto}
use staking_farm.Env.{PromiseResult, was_successful, value_of}
use staking_farm.Ratio.{Ratio}
use staking_farm.RewardFee.{UpdatableRewardFee}
use staking_farm.Account.{Account}
use staking_farm.Farm.{Farm, FarmingDetails}

-- Everything that the contract takes from the libraries that it is built with.
pub record Sdk : Type 1 where
  pub accounts : UnorderedMap Account
  pub farms : Vector Farm
  pub ids : UnorderedSet
  pub PublicKey : Type 0
  pub is_valid_account_id : AccountId → Bool
  -- `serde_json::from_str::<FarmingDetails>`
  pub parse_details : String → Option FarmingDetails
  -- `serde_json::from_slice::<AccountId>`
  pub parse_account_id : String → Option AccountId
  -- `near_sdk::is_promise_success` and `promise_result_as_success`, in a callback
  pub is_promise_success : List PromiseResult → Result Bool
  pub is_promise_success_one :
      (r : PromiseResult) → is_promise_success (r ∷ []) ≡ ok (was_successful r)
  pub promise_result_as_success : List PromiseResult → Result (Option String)
  pub promise_result_as_success_one :
      (r : PromiseResult) → promise_result_as_success (r ∷ []) ≡ ok (value_of r)
  -- `near_sdk::assert_one_yocto`, on the attached deposit
  pub assert_one_yocto : ℕ → Result (Unit {0})
  pub assert_one_yocto_lem : (n : ℕ) → assert_one_yocto n ≡ assert (n == 1) requires_one_yocto

module _ ⦃sdk : Sdk⦄ where
  pub record StakingContract : Type 0 where
    pub stake_public_key : sdk.PublicKey
    pub last_epoch_height : ℕ
    pub last_total_balance : ℕ
    pub total_stake_shares : ℕ
    pub total_staked_balance : ℕ
    pub total_burn_shares : ℕ
    pub reward_fee_fraction : UpdatableRewardFee
    pub burn_fee_fraction : Ratio
    pub accounts : sdk.accounts.Map
    pub farms : sdk.farms.Vec
    pub active_farms : List ℕ
    pub paused : Bool
    pub authorized_users : sdk.ids.Set
    pub authorized_farm_tokens : sdk.ids.Set

  -- The methods that the pools and the factory call on themselves or on others through promises,
  -- with their arguments. Those of `new` are `StakingPoolArgs`.
  pub data Method : Type 0 where
    on_stake_action : Method
    callback_post_withdraw_reward : AccountId → AccountId → ℕ → Method
    callback_post_get_owner : AccountId → AccountId → AccountId → Method
    get_owner_account_id : Method
    ft_transfer : AccountId → ℕ → Method
    get_code : String → Method
    update migrate : Method
    new : AccountId → sdk.PublicKey → Ratio → Ratio → Method
    on_staking_pool_create : AccountId → ℕ → AccountId → Method
    add_staking_pool : AccountId → Method

  -- The actions of a promise: a call has a deposit and an amount of gas.
  pub data Action : Type 0 where
    create_account : Action
    stake : ℕ → sdk.PublicKey → Action
    transfer : ℕ → Action
    function_call : Method → ℕ → ℕ → Action
    deploy_contract : String → Action

  -- `Promise::new(receiver)` with one action, a further action in its batch, and `p.then(q)`.
  pub data Promise : Type 0 where
    promise : AccountId → Action → Promise
    with_action : Promise → Action → Promise
    and_then : Promise → Promise → Promise

  -- The account's storage and the promises scheduled so far, in order. The storage keys OWNER,
  -- FACTORY and VERSION lie outside of the contract's own state.
  pub record World : Type 0 where
    pub contract : StakingContract
    pub owner : Option AccountId
    pub factory : Option AccountId
    pub version : Option String
    pub scheduled : List Promise

  unfoldable pub schedule : World → Promise → World
  schedule w p = record w { scheduled = w.scheduled ++ p ∷ [] }
