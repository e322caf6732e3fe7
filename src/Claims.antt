-- ===== src/Claims.antt =====
-- The methods of staking-farm/src/farm.rs that are called from outside: claiming rewards, the
-- callbacks of a claim, and stopping a farm.
pub mod Once
use staking_farm.Prelude.{ℕ, ◌+◌, Bool, not, Option, none, some, str_eq, if◌then◌else◌}
use staking_farm.Machine.{
  Result, ok, err, assert, expect, sub, ◌>>=◌, ◌>>◌, get_owner_failed, get_owner_unparsed,
  not_an_owner,
}
use staking_farm.Sdk.{AccountId}
use staking_farm.Env.{Env}
use staking_farm.Farm.{Farm, RewardDistribution}
use staking_farm.Distribution.{internal_calculate_distribution}
use staking_farm.Rewards.{internal_get_farm, farmed_shares}
use staking_farm.Farms.{gas_for_ft_transfer, internal_user_token_deposit, internal_claim}
use staking_farm.Internal.{internal_get_owner_id}
use staking_farm.Owner.{assert_owner}
use staking_farm.Contract.{Sdk, World, Promise, Action, promise, and_then, Method}

-- The constants GAS_FOR_GET_OWNER and GAS_LEFTOVERS.
abbrev pub gas_for_get_owner : ℕ
gas_for_get_owner = 10_000_000_000_000

abbrev pub gas_leftovers : ℕ
gas_leftovers = 20_000_000_000_000

-- The farm that is stopped, and what is left of it.
unfoldable pub stop_at : ℕ → Farm → Option RewardDistribution → ℕ × Farm
stop_at now farm (some d) = (d.undistributed, record farm { end_date = now; last_distribution = d })
stop_at now farm none = (farm.amount, farm)

module _ ⦃sdk : Sdk⦄ where
  -- The gas that is left for the callback of `get_owner`.
  unfoldable pub gas_for_callback : Env → Result ℕ
  unfolding sub
  gas_for_callback e = do
    unused ← sub e.prepaid_gas e.used_gas
    rest ← sub unused gas_for_get_owner
    sub rest gas_leftovers

  unfoldable pub claim_for : Env → World → AccountId → Option AccountId → Result (Promise × World)
  unfolding gas_for_callback
  claim_for e w token_id (some delegator_id) = do
    gas ← gas_for_callback e
    ok (
      and_then
          (promise delegator_id
            (Action.function_call Method.get_owner_account_id 0 gas_for_get_owner))
          (promise e.current_account_id (
            Action.function_call
              (Method.callback_post_get_owner token_id delegator_id e.predecessor_account_id) 0
              gas)),
      w,
    )
  claim_for e w token_id none = do
    (p, c) ← internal_claim e w.contract token_id e.predecessor_account_id e.predecessor_account_id
    ok (p, record w { contract = c })

  unfoldable pub claim : Env → World → AccountId → Option AccountId → Result (Promise × World)
  unfolding claim_for
  claim e w token_id delegator_id = do
    sdk.assert_one_yocto e.attached_deposit
    claim_for e w token_id delegator_id

  unfoldable pub callback_post_get_owner :
      Env → World → AccountId → AccountId → AccountId → Result (Promise × World)
  callback_post_get_owner e w token_id delegator_id account_id = do
    value ← sdk.promise_result_as_success e.promise_results
    bytes ← expect value get_owner_failed
    owner_id ← expect (sdk.parse_account_id bytes) get_owner_unparsed
    assert (str_eq owner_id account_id) not_an_owner
    (p, c) ← internal_claim e w.contract token_id delegator_id account_id
    ok (p, record w { contract = c })

  unfoldable pub callback_post_withdraw_reward :
      Env → World → AccountId → AccountId → ℕ → Result World
  callback_post_withdraw_reward e w token_id sender_id amount = do
    succeeded ← sdk.is_promise_success e.promise_results
    if not succeeded
        then (do
          c ← internal_user_token_deposit w.contract sender_id token_id amount
          ok (record w { contract = c }))
        else ok w

  unfoldable pub stop_farm : Env → World → ℕ → Result (Promise × World)
  unfolding assert_owner internal_get_farm farmed_shares stop_at sub internal_get_owner_id
  stop_farm e w farm_id = do
    assert_owner e w
    farm ← internal_get_farm w.contract farm_id
    shares ← farmed_shares w.contract
    distribution ← internal_calculate_distribution e.block_timestamp farm shares
    let (leftover_amount, stopped) = stop_at e.block_timestamp farm distribution
    amount ← sub stopped.amount leftover_amount
    let farm' = record stopped {
      amount = amount;
      last_distribution = record stopped.last_distribution { undistributed = 0 };
    }
    owner_id ← internal_get_owner_id w
    ok (
      promise farm'.token_id (
          Action.function_call (Method.ft_transfer owner_id leftover_amount) 1 gas_for_ft_transfer),
      record w {
        contract = record w.contract { farms = sdk.farms.replace w.contract.farms farm_id farm' };
      },
    )
