-- ===== src/Farms.antt =====
-- Farms (staking-farm/src/farm.rs): creating, extending and stopping one, and claiming rewards.
use staking_farm.Prelude.{ℕ, ◌/◌, Bool, Option, none, some, String, [], ◌∷◌, ◌++◌, str_eq, ltb, leb}
use staking_farm.Prelude.Classes.{string_key}
use staking_farm.Machine.{
  Result, ok, assert, add_u64, add_u128, sub, div, ◌>>=◌, ◌>>◌, err_farm_too_early, err_farm_date,
  err_farm_amount_non_zero, err_farm_amount_too_small, err_farm_invalid_token_id,
  err_farm_has_started, err_zero_amount,
}
use staking_farm.HashMap
use staking_farm.HashMap.{get_or_zero}
use staking_farm.Sdk.{AccountId}
use staking_farm.Env.{Env}
use staking_farm.Farm.{Farm, RewardDistribution, session_interval}
use staking_farm.Distribution.{internal_calculate_distribution}
use staking_farm.Rewards.{
  add_amount, internal_get_farm, farmed_shares, internal_distribute_all_rewards,
}
use staking_farm.Accounts.{internal_get_account, internal_save_account}
use staking_farm.Contract.{Sdk, StakingContract, Promise, Action, promise, and_then, Method}

-- The constants GAS_FOR_FT_TRANSFER and GAS_FOR_RESOLVE_TRANSFER.
abbrev pub gas_for_ft_transfer : ℕ
gas_for_ft_transfer = 10_000_000_000_000

abbrev pub gas_for_resolve_transfer : ℕ
gas_for_resolve_transfer = 20_000_000_000_000

-- The checks on the dates and the amount of a farm: the end lies more than a session after the
-- start, and the amount has at least a token for each session.
unfoldable pub assert_amount_per_session : ℕ → ℕ → ℕ → Result (Unit {0})
unfolding sub div
assert_amount_per_session amount start_date end_date = do
  duration ← sub end_date start_date
  per_session ← div amount (duration / session_interval)
  assert (ltb 0 per_session) err_farm_amount_too_small

-- A distribution of the whole amount from the first round on.
unfoldable pub fresh_distribution : ℕ → ℕ → RewardDistribution
fresh_distribution amount reward_per_share = record {
  undistributed = amount;
  deprecated_unclaimed = 0;
  reward_per_share = reward_per_share;
  reward_round = 0;
}

-- The farm before its dates are checked, by whether it has started.
unfoldable pub refill : ℕ → Farm → ℕ → Option ℕ → Option RewardDistribution → Result Farm
unfolding fresh_distribution add_u128
refill now farm additional_amount start_date (some d) = do
  assert (elim start_date [ none ↦ Bool.true | some _ ↦ Bool.false ]) err_farm_has_started
  amount ← add_u128 d.undistributed additional_amount
  ok (record farm {
    amount = amount;
    start_date = now;
    last_distribution = fresh_distribution amount d.reward_per_share;
  })
refill now farm additional_amount start_date none = do
  let start = elim start_date as (λ _. ℕ) [ none ↦ farm.start_date | some s ↦ s ]
  assert (leb now start) err_farm_too_early
  amount ← add_u128 farm.amount additional_amount
  ok (record farm {
    amount = amount;
    start_date = start;
    last_distribution = fresh_distribution amount 0;
  })

module _ ⦃sdk : Sdk⦄ where
  unfoldable pub internal_deposit_farm_tokens :
      Env → StakingContract → AccountId → String → ℕ → ℕ → ℕ → Result StakingContract
  unfolding add_u64 sub assert_amount_per_session fresh_distribution
  internal_deposit_farm_tokens e c token_id name amount start_date end_date = do
    assert (leb e.block_timestamp start_date) err_farm_too_early
    first_session ← add_u64 start_date session_interval
    assert (ltb first_session end_date) err_farm_date
    assert (ltb 0 amount) err_farm_amount_non_zero
    assert_amount_per_session amount start_date end_date
    let farms = sdk.farms.push c.farms (record {
      name = name;
      token_id = token_id;
      amount = amount;
      start_date = start_date;
      end_date = end_date;
      last_distribution = fresh_distribution amount 0;
    })
    last ← sub (sdk.farms.len farms) 1
    ok (record c { farms = farms; active_farms = c.active_farms ++ last ∷ [] })

  unfoldable pub internal_add_farm_tokens :
      Env → StakingContract → AccountId → ℕ → ℕ → Option ℕ → ℕ → Result StakingContract
  unfolding internal_get_farm farmed_shares refill add_u64 assert_amount_per_session
  internal_add_farm_tokens e c token_id farm_id additional_amount start_date end_date = do
    farm ← internal_get_farm c farm_id
    assert (str_eq farm.token_id token_id) err_farm_invalid_token_id
    assert (ltb 0 additional_amount) err_farm_amount_non_zero
    shares ← farmed_shares c
    distribution ← internal_calculate_distribution e.block_timestamp farm shares
    refilled ← refill e.block_timestamp farm additional_amount start_date distribution
    let farm' = record refilled { end_date = end_date }
    first_session ← add_u64 farm'.start_date session_interval
    assert (ltb first_session farm'.end_date) err_farm_date
    assert (ltb 0 farm'.amount) err_farm_amount_non_zero
    assert_amount_per_session farm'.amount farm'.start_date farm'.end_date
    ok (record c { farms = sdk.farms.replace c.farms farm_id farm' })

  unfoldable pub internal_user_token_deposit :
      StakingContract → AccountId → AccountId → ℕ → Result StakingContract
  unfolding add_amount
  internal_user_token_deposit c account_id token_id amount = do
    account ← add_amount (internal_get_account c account_id) token_id amount
    ok (internal_save_account c account_id account)

  -- The promise that pays a claim, and gives it back to the account if the payment fails.
  unfoldable pub claim_promise : Env → AccountId → AccountId → AccountId → ℕ → Promise
  claim_promise e token_id claim_account_id send_account_id amount =
      and_then
        (promise token_id
          (Action.function_call (Method.ft_transfer send_account_id amount) 1 gas_for_ft_transfer))
        (promise e.current_account_id (
          Action.function_call
            (Method.callback_post_withdraw_reward token_id claim_account_id amount) 0
            gas_for_resolve_transfer))

  unfoldable pub internal_claim :
      Env → StakingContract → AccountId → AccountId → AccountId → Result (Promise × StakingContract)
  unfolding get_or_zero claim_promise
  internal_claim e c token_id claim_account_id send_account_id = do
    (c1, account) ← internal_distribute_all_rewards e c (internal_get_account c claim_account_id)
    let amount = get_or_zero token_id account.amounts
    let account1 = record account { amounts = HashMap.remove token_id account.amounts }
    assert (ltb 0 amount) err_zero_amount
    ok (
      claim_promise e token_id claim_account_id send_account_id amount,
      internal_save_account c1 claim_account_id account1,
    )
