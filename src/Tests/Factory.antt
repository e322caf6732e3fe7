-- ===== src/Tests/Factory.antt =====
-- The factory on a host with two hashes: a code is stored, allowed, deployed and served.
use Prim.Native.String
use staking_farm.Prelude.{
  ℕ, ◌+◌, ◌*◌, ◌≤◌, ◌≡◌, refl, true, false, Option, none, some, String, List, [], ◌∷◌, ◌++◌, str_eq,
  eq_iff, if◌then◌else◌, arith,
}
use staking_farm.Prelude.Lists.{length}
use staking_farm.Machine.{ok}
use staking_farm.Prelude.Classes.{string_key}
use staking_farm.HashMap
use staking_farm.Env.{Env, failed, successful}
use staking_farm.Ratio.{assert_valid}
use staking_farm.Init.{new, stake_share_price_guarantee_fund}
use staking_farm.Owner.{internal_get_version}
use staking_farm.Upgrade.{upgrade, update}
use staking_farm.Contract.{World, Action, Method, promise, with_action, and_then}
use staking_farm.Factory.{
  Host, FactoryWorld, new_factory, store, allow_contract, create_staking_pool,
  on_staking_pool_create, get_code, call_get_code, creation, is_contract_allowed, burn_fee_fraction,
  StakingPoolArgs,
}
use staking_farm.Factory.Calls.{FactoryCall, history}
use staking_farm.Factory.Codes.{served_code_has_hash, code_is_permanent}
use staking_farm.Factory.Allowed.{permissions, allowed_refines_permissions}
use staking_farm.Factory.Creation.{
  Created, pool_batch, create-Created, failed_creation_is_undone, created_pool_starts,
}
use staking_farm.Factory.Store.{stored_code_is_served}
use staking_farm.Upgrade.Chain.{upgrade_deploys_requested_code}
use staking_farm.Tests.Example.{example_sdk, bob_env, call_env, world, near, tenth}
use staking_farm.Tests.Delegation.{result_or}

pub data Digest : Type 0 where
  first second : Digest

abbrev digest_bytes : Digest → String
digest_bytes first = "11111111111111111111111111111111"
digest_bytes second = "22222222222222222222222222222222"

abbrev digest_json : Digest → String
digest_json first = "'11111111111111111111111111111111'"
digest_json second = "'22222222222222222222222222222222'"

abbrev digest : String → Digest
digest s = if str_eq s "wasm" then first else second

abbrev read_digest : String → Option Digest
read_digest s = if str_eq s "hash" then some first else none

pub bytes_differ : (g h : Digest) → digest_bytes g ≡ digest_bytes h → g ≡ h
bytes_differ first first p = refl
bytes_differ second second p = refl
bytes_differ first second p = cc ((eq_iff (digest_bytes first) (digest_bytes second)).1 p)
bytes_differ second first p = cc ((eq_iff (digest_bytes second) (digest_bytes first)).1 p)

pub json_differs : (g h : Digest) → digest_json g ≡ digest_json h → g ≡ h
json_differs first first p = refl
json_differs second second p = refl
json_differs first second p = cc ((eq_iff (digest_json first) (digest_json second)).1 p)
json_differs second first p = cc ((eq_iff (digest_json second) (digest_json first)).1 p)

pub bytes_count : (h : Digest) → String.count (digest_bytes h) ≡ 32
bytes_count first = refl
bytes_count second = refl

pub json_count : (h : Digest) → 34 ≤ String.count (digest_json h)
json_count first = omega arith
json_count second = omega arith

instance abbrev pub example_host : Host
example_host = record {
  CryptoHash = Digest;
  bytes = digest_bytes;
  to_json = digest_json;
  sha256 = digest;
  parse_hash = read_digest;
  parse_pool_id = some;
  storage_usage = λ s. 100 * length s;
  storage_byte_cost = 10;
  bytes-injective = bytes_differ;
  count-bytes = bytes_count;
  to_json-injective = json_differs;
  count-to_json = json_count;
}

abbrev factory_env : String → ℕ → Env
factory_env id deposit = record bob_env {
  predecessor_account_id = id;
  current_account_id = "factory";
  attached_deposit = deposit;
  state_exists = true;
}

abbrev empty : FactoryWorld
empty = record {
  contract = record {
    owner_id = "owner";
    staking_pool_whitelist_account_id = "whitelist";
    staking_pool_account_ids = [];
  };
  storage = [];
  scheduled = [];
}

is_new : new_factory "owner" "whitelist" ≡ ok empty
unfolding new_factory
is_new = refl

-- Anyone stores the code, the owner allows it, and "alice" creates a pool with it.
abbrev with_code : FactoryWorld
with_code = record empty { storage = (digest_bytes first, "wasm") ∷ [] }

stores : store (factory_env "bob" 1_000) empty "wasm" ≡ ok (first, with_code)
unfolding store HashMap.lookup HashMap.insert
stores = refl

abbrev allowing : FactoryWorld
unfolding allow_contract
allowing = result_or empty (allow_contract (factory_env "owner" 0) with_code first)

allows : allow_contract (factory_env "owner" 0) with_code first ≡ ok allowing
unfolding allow_contract
allows = refl

abbrev created : FactoryWorld
unfolding create_staking_pool
created =
    result_or empty
      (create_staking_pool (factory_env "alice" (5 * near)) allowing "pool" first "alice" 7 tenth)

creates :
    create_staking_pool (factory_env "alice" (5 * near)) allowing "pool" first "alice" 7 tenth
    ≡ ok created
unfolding create_staking_pool HashMap.lookup allowing HashMap.insert
creates = refl

create-Created_example :
    Created (factory_env "alice" (5 * near)) allowing "pool" first "alice" 7 tenth created
create-Created_example =
    create-Created (factory_env "alice" (5 * near)) allowing "pool" first "alice" 7 tenth created
      creates

abbrev failure_env : Env
failure_env = record (factory_env "factory" 0) { promise_results = failed ∷ [] }

failed_creation_is_undone_example :
    (pool_id : String) × (wasm : String) × (w2 : FactoryWorld) × (created.scheduled
      ≡ pool_batch (factory_env "alice" (5 * near)) pool_id wasm "alice" 7 tenth ∷ [])
    × (on_staking_pool_create failure_env created pool_id (5 * near) "alice" ≡ ok (some false, w2))
    × (example_sdk.ids.contains_id w2.contract.staking_pool_account_ids "pool.factory" ≡ false)
    × (w2.storage ≡ allowing.storage)
    × (w2.scheduled ≡ created.scheduled ++ promise "alice" (Action.transfer (5 * near)) ∷ [])
unfolding allowing
failed_creation_is_undone_example =
    failed_creation_is_undone (factory_env "alice" (5 * near)) failure_env allowing "pool" first
      "alice" 7 tenth created "pool.factory" creates refl

abbrev start_env : Env
start_env = record bob_env {
  predecessor_account_id = "factory";
  current_account_id = "pool.factory";
  account_balance = 5 * near;
  state_exists = false;
}

created_pool_starts_example :
    (pool_id : String) × (wasm : String) × (p : World) × (created.scheduled
      ≡ pool_batch (factory_env "alice" (5 * near)) pool_id wasm "alice" 7 tenth ∷ [])
    × (new start_env "alice" 7 tenth (record { numerator = 0; denominator = 10 }) ≡ ok p)
    × (p.owner ≡ some "alice")
    × (p.contract.stake_public_key ≡ 7)
    × (p.contract.reward_fee_fraction.reward_fee_fraction ≡ tenth)
    × (p.contract.reward_fee_fraction.next_reward_fee_fraction ≡ tenth)
    × (p.factory ≡ some "factory")
    × (p.version ≡ some internal_get_version)
    × (p.contract.burn_fee_fraction.numerator ≡ 0)
    × (assert_valid p.contract.burn_fee_fraction ≡ ok tt)
    × (p.contract.total_staked_balance + stake_share_price_guarantee_fund ≡ 5 * near)
unfolding allowing
created_pool_starts_example =
    created_pool_starts (factory_env "alice" (5 * near)) start_env allowing "pool" first "alice" 7
      tenth created creates refl refl refl refl

stored_code_is_served_example :
    (first ≡ first) × (100 * 10 ≤ 1_000) × (get_code allowing first ≡ ok "wasm")
stored_code_is_served_example =
    stored_code_is_served (factory_env "bob" 1_000) (factory_env "owner" 0) empty "wasm" first
      with_code allowing stores allows

-- The same as calls, with one of "bob" that is refused and one that disallows the hash.
abbrev served_calls : List (Env × FactoryCall)
served_calls =
    (factory_env "bob" 1_000, FactoryCall.store "wasm")
    ∷ (factory_env "bob" 0, FactoryCall.disallow_contract first)
    ∷ (factory_env "owner" 0, FactoryCall.allow_contract first)
    ∷ []

serves : get_code (history empty served_calls) first ≡ ok "wasm"
unfolding get_code HashMap.lookup history staking_farm.Factory.Calls.execute
    staking_farm.Factory.Calls.dispatch allow_contract staking_farm.Factory.disallow_contract store
    HashMap.insert
serves = refl

served_code_has_hash_example : digest "wasm" ≡ first
served_code_has_hash_example =
    served_code_has_hash "owner" "whitelist" empty served_calls first "wasm" is_new serves

abbrev closing_calls : List (Env × FactoryCall)
closing_calls =
    (factory_env "owner" 0, FactoryCall.disallow_contract first)
    ∷ (factory_env "bob" 1_000, FactoryCall.store "wasm")
    ∷ []

has_code : HashMap.lookup (digest_bytes first) allowing.storage ≡ some "wasm"
unfolding HashMap.lookup allowing HashMap.insert
has_code = refl

code_is_permanent_example :
    HashMap.lookup (digest_bytes first) (history allowing closing_calls).storage ≡ some "wasm"
code_is_permanent_example = code_is_permanent closing_calls allowing first "wasm" has_code

allowed_refines_permissions_example :
    is_contract_allowed (history empty served_calls) first
    ≡ permissions "owner" (is_contract_allowed empty) served_calls first
allowed_refines_permissions_example = allowed_refines_permissions served_calls empty first

-- The hash is allowed after these calls, and no longer after the others.
allowed_then_not :
    (permissions "owner" (λ _. false) served_calls first ≡ true)
    × (permissions "owner" (λ _. true) closing_calls first ≡ false)
unfolding permissions
allowed_then_not = (refl, refl)

abbrev asking : World
unfolding upgrade
asking = result_or world (upgrade (call_env "alice") world "hash")

asks : upgrade (call_env "alice") world "hash" ≡ ok asking
unfolding upgrade
asks = refl

abbrev update_env : Env
update_env = record (call_env "pool") { promise_results = successful "wasm" ∷ [] }

abbrev updating : World
unfolding update
updating = result_or world (update update_env asking)

updates : update update_env asking ≡ ok updating
unfolding update
updates = refl

answers : call_get_code (history empty served_calls) "hash" ≡ ok "wasm"
unfolding call_get_code HashMap.lookup history staking_farm.Factory.Calls.execute
    staking_farm.Factory.Calls.dispatch allow_contract staking_farm.Factory.disallow_contract store
    HashMap.insert
answers = refl

upgrade_deploys_requested_code_example :
    (factory_id : String) × (world.owner ≡ some "alice")
    × (world.factory ≡ some factory_id)
    × (asking.scheduled
        ≡ world.scheduled
          ++ and_then
              (promise factory_id
                (Action.function_call (Method.get_code "hash") 0 50_000_000_000_000))
              (promise "pool" (Action.function_call Method.update 0 245_000_000_000_000))
            ∷ [])
    × (read_digest "hash" ≡ some first)
    × (is_contract_allowed (history empty served_calls) first ≡ true)
    × (updating.scheduled
        ≡ asking.scheduled
          ++ with_action
              (promise "pool" (Action.deploy_contract "wasm"))
              (Action.function_call Method.migrate 0 295_000_000_000_000)
            ∷ [])
upgrade_deploys_requested_code_example =
    upgrade_deploys_requested_code (call_env "alice") update_env world asking updating "hash" "wasm"
      "owner" "whitelist" empty served_calls asks is_new answers refl updates
