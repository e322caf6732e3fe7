-- ===== src/Tests/Pool.antt =====
-- The properties of a pool over its history, at a pool with three calls.
use staking_farm.Prelude.{◌+◌, ◌-◌, ◌*◌, ◌≤◌, ◌≡◌, refl, true, false, some, List, [], ◌∷◌, arith}
use staking_farm.Machine.{ok}
use staking_farm.Env.{Env, successful}
use staking_farm.Contract.{World, promise, and_then, Action, Method}
use staking_farm.RewardFee.{new_fee}
use staking_farm.Accounts.Sums.{account_shares, account_unstaked}
use staking_farm.Init.{new, stake_share_price_guarantee_fund}
use staking_farm.Internal.{internal_restake}
use staking_farm.Staking.{stake_action_succeeded}
use staking_farm.Requests.{IsInSync}
use staking_farm.Requests.Calls.{no_stake_failures, stake_request-IsInSync}
use staking_farm.Calls.{Call, history}
use staking_farm.Solvency.Pool.{shares_accounted, share_price_at_least_one, fund_covers_rounding}
use staking_farm.Tests.Example.{example_sdk, bob_env, call_env, tenth, nothing, near}

abbrev calls : List (Env × Call)
calls =
    (bob_env, Call.deposit)
    ∷ (call_env "bob", Call.stake (3 * near))
    ∷ (call_env "bob", Call.unstake near)
    ∷ []

abbrev initial : World
initial = record {
  contract = record {
    stake_public_key = 7;
    last_epoch_height = 5;
    last_total_balance = 50 * near;
    total_stake_shares = 50 * near - 1_000_000_000_000;
    total_staked_balance = 50 * near - 1_000_000_000_000;
    total_burn_shares = 0;
    reward_fee_fraction = record {
      reward_fee_fraction = tenth;
      next_reward_fee_fraction = tenth;
      available_epoch_height = 0;
    };
    burn_fee_fraction = nothing;
    accounts = [];
    farms = [];
    active_farms = [];
    paused = false;
    authorized_users = [];
    authorized_farm_tokens = [];
  };
  owner = some "alice";
  factory = some "bob";
  version = some "staking-farm:1.1.0";
  scheduled =
      and_then (promise "pool" (Action.stake (50 * near - 1_000_000_000_000) 7))
        (promise "pool" (Action.function_call Method.on_stake_action 0 20_000_000_000_000))
      ∷ [];
}

created : new bob_env "alice" 7 tenth nothing ≡ ok initial
unfolding new internal_restake new_fee
created = refl

share_price_at_least_one_example :
    (history initial calls).contract.total_stake_shares
    ≤ (history initial calls).contract.total_staked_balance
share_price_at_least_one_example =
    share_price_at_least_one bob_env "alice" 7 tenth nothing initial created (omega arith) calls

shares_accounted_example :
    (history initial calls).contract.total_stake_shares
    ≡ account_shares (history initial calls).contract
      + (50 * near - stake_share_price_guarantee_fund)
shares_accounted_example =
    shares_accounted bob_env "alice" 7 tenth nothing initial created (omega arith) calls

fund_covers_rounding_example :
    account_unstaked (history initial calls).contract
      + (history initial calls).contract.total_staked_balance
    ≤ (history initial calls).contract.last_total_balance
fund_covers_rounding_example =
    fund_covers_rounding bob_env "alice" 7 tenth nothing initial created (omega arith) calls
      (omega arith)

-- Calls with a stake action that succeeds, and a pause.
abbrev asked : List (Env × Call)
asked =
    (bob_env, Call.deposit_and_stake)
    ∷ (
      record bob_env {
        predecessor_account_id = "pool";
        attached_deposit = 0;
        promise_results = successful "" ∷ [];
      },
      Call.on_stake_action,
    )
    ∷ (call_env "alice", Call.pause_staking)
    ∷ (record (call_env "bob") { epoch_height = 6; account_balance = 70 * near }, Call.unstake near)
    ∷ (call_env "alice", Call.resume_staking)
    ∷ []

none_failed : no_stake_failures asked ≡ true
unfolding no_stake_failures stake_action_succeeded
none_failed = refl

stake_request-IsInSync_example : IsInSync (history initial asked)
stake_request-IsInSync_example =
    stake_request-IsInSync bob_env "alice" 7 tenth nothing initial created asked none_failed
