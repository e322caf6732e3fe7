-- ===== src/Tests/Example.antt =====
-- A pool to run the theorems on: its library, environments and accounts.
use staking_farm.Prelude.{
  ℕ, ◌+◌, ◌*◌, refl, Bool, true, false, Option, none, some, String, List, [], ◌∷◌, str_eq, ◌==◌,
  if◌then◌else◌,
}
use staking_farm.Machine.{Result, ok, err, assert, one_promise_result, requires_one_yocto}
use staking_farm.Env.{Env, PromiseResult, was_successful, value_of}
use staking_farm.Ratio.{Ratio}
use staking_farm.RewardFee.{new_fee}
use staking_farm.Account.{Account}
use staking_farm.Farm.{Farm, FarmingDetails}
use staking_farm.Contract.{Sdk, StakingContract, World}
use staking_farm.Tests.Collections.{list_map, list_set, list_vector}

abbrev pub one_success : List PromiseResult → Result Bool
one_success (r ∷ []) = ok (was_successful r)
one_success _ = err one_promise_result

abbrev pub one_value : List PromiseResult → Result (Option String)
one_value (r ∷ []) = ok (value_of r)
one_value _ = err one_promise_result

-- The messages "new" and "late": a farm of a hundred sessions that starts at once.
abbrev pub details : String → Option FarmingDetails
details msg =
    if str_eq msg "new"
    then some (record {
      name = some "farm";
      start_date = some 1_000;
      end_date = 100_000_001_000;
      farm_id = none;
    })
    else none

instance abbrev pub example_sdk : Sdk
example_sdk = record {
  accounts = list_map Account;
  farms = list_vector Farm;
  ids = list_set;
  PublicKey = ℕ;
  is_valid_account_id = λ _. true;
  parse_details = details;
  parse_account_id = some;
  is_promise_success = one_success;
  is_promise_success_one = λ r. refl;
  promise_result_as_success = one_value;
  promise_result_as_success_one = λ r. refl;
  assert_one_yocto = λ n. assert (n == 1) requires_one_yocto;
  assert_one_yocto_lem = λ n. refl;
}

abbrev pub near : ℕ
near = 1_000_000_000_000_000_000_000_000

-- A call by "bob" in epoch 5, with ten NEAR attached and a balance of fifty.
abbrev pub bob_env : Env
bob_env = record {
  predecessor_account_id = "bob";
  current_account_id = "pool";
  attached_deposit = 10 * near;
  account_balance = 50 * near;
  account_locked_balance = 0;
  epoch_height = 5;
  block_timestamp = 1_000;
  prepaid_gas = 300_000_000_000_000;
  used_gas = 0;
  state_exists = false;
  promise_results = [];
}

abbrev pub call_env : String → Env
call_env id = record bob_env {
  predecessor_account_id = id;
  attached_deposit = 0;
  state_exists = true;
}

abbrev pub tenth : Ratio
tenth = record { numerator = 1; denominator = 10 }

abbrev pub nothing : Ratio
nothing = record { numerator = 0; denominator = 10 }

-- A pool of thirty NEAR staked for nobody, owned by "alice", in which "bob" has ten NEAR
-- unstaked and five in shares.
abbrev pub bob : Account
bob = record {
  unstaked = 10 * near;
  stake_shares = 5 * near;
  unstaked_available_epoch_height = 0;
  last_farm_reward_per_share = [];
  amounts = [];
  is_burn_account = false;
}

abbrev pub pool : StakingContract
pool = record {
  stake_public_key = 7;
  last_epoch_height = 5;
  last_total_balance = 45 * near + 1_000_000_000_000;
  total_stake_shares = 35 * near;
  total_staked_balance = 35 * near;
  total_burn_shares = 0;
  reward_fee_fraction = new_fee tenth;
  burn_fee_fraction = nothing;
  accounts = ("bob", bob) ∷ [];
  farms = [];
  active_farms = [];
  paused = false;
  authorized_users = "carol" ∷ [];
  authorized_farm_tokens = "token" ∷ [];
}

abbrev pub world : World
world = record {
  contract = pool;
  owner = some "alice";
  factory = some "factory";
  version = some "staking-farm:1.0.0";
  scheduled = [];
}
