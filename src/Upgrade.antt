-- ===== src/Upgrade.antt =====
-- The exported functions `upgrade`, `update` and `migrate` of staking-farm/src/owner.rs: the owner
-- has the factory send the code of a hash, and the contract deploys it and migrates its state.
pub mod Chain
use staking_farm.Prelude.{ℕ, String, List, [], ◌∷◌, str_eq}
use staking_farm.Machine.{
  Result, ok, err, assert, sub, ◌>>=◌, ◌>>◌, must_be_owner, must_be_self, fetch_code_failed,
  wrong_state_version, index_out_of_bounds,
}
use staking_farm.Env.{Env, PromiseResult, successful, failed}
use staking_farm.Internal.{no_deposit, internal_get_owner_id, internal_get_factory_id}
use staking_farm.Owner.{internal_get_state_version, internal_set_version}
use staking_farm.Contract.{Sdk, World, Action, Method, promise, with_action, and_then, schedule}

-- The constants GET_CODE_GAS, UPGRADE_GAS_LEFTOVER and UPDATE_GAS_LEFTOVER.
abbrev pub get_code_gas : ℕ
get_code_gas = 50_000_000_000_000

abbrev pub upgrade_gas_leftover : ℕ
upgrade_gas_leftover = 5_000_000_000_000

abbrev pub update_gas_leftover : ℕ
update_gas_leftover = 5_000_000_000_000

-- The code that the promise before `update` returned.
unfoldable pub fetched_code : List PromiseResult → Result String
fetched_code [] = err index_out_of_bounds
fetched_code (successful code ∷ _) = ok code
fetched_code (failed ∷ _) = err fetch_code_failed

module _ ⦃sdk : Sdk⦄ where
  -- The input of the call, a hash, is handed to the factory unread.
  unfoldable pub upgrade : Env → World → String → Result World
  unfolding internal_get_owner_id internal_get_factory_id sub schedule
  upgrade e w input = do
    owner_id ← internal_get_owner_id w
    factory_id ← internal_get_factory_id w
    assert (str_eq e.predecessor_account_id owner_id) must_be_owner
    unused ← sub e.prepaid_gas e.used_gas
    rest ← sub unused get_code_gas
    gas ← sub rest upgrade_gas_leftover
    ok (
        schedule w (
          and_then
            (promise factory_id
              (Action.function_call (Method.get_code input) no_deposit get_code_gas))
            (promise e.current_account_id (Action.function_call Method.update no_deposit gas))))

  unfoldable pub update : Env → World → Result World
  unfolding fetched_code sub schedule
  update e w = do
    assert (str_eq e.predecessor_account_id e.current_account_id) must_be_self
    code ← fetched_code e.promise_results
    unused ← sub e.prepaid_gas e.used_gas
    gas ← sub unused update_gas_leftover
    ok (
        schedule w (
          with_action (promise e.current_account_id (Action.deploy_contract code))
            (Action.function_call Method.migrate no_deposit gas)))

  -- The state must come from the version before this one.
  unfoldable pub migrate : Env → World → Result World
  unfolding internal_get_state_version internal_set_version
  migrate e w = do
    assert (str_eq e.predecessor_account_id e.current_account_id) must_be_self
    version ← internal_get_state_version w
    assert (str_eq version "staking-farm:1.0.0") wrong_state_version
    ok (internal_set_version w)
