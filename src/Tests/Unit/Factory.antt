-- ===== src/Tests/Unit/Factory.antt =====
-- The unit tests of staking-factory/src/lib.rs, on the host of Tests/Factory.
use staking_farm.Prelude.{ℕ, ◌+◌, ◌/◌, ◌≡◌, refl, Bool, not, none, some, String, [], ◌∷◌, ◌==◌}
use staking_farm.Machine.{
  Result, ok, err, assert, ◌>>=◌, ◌>>◌, assertion_failed, not_enough_deposit,
}
use staking_farm.Prelude.Classes.{string_key}
use staking_farm.HashMap.{lookup, insert, remove}
use staking_farm.Sdk.{AccountId}
use staking_farm.Env.{Env, PromiseResult, successful, failed}
use staking_farm.Factory.{
  FactoryWorld, new_factory, store_contract, allow_contract, disallow_contract, is_contract_allowed,
  create_staking_pool, on_staking_pool_create, get_min_attached_balance,
  get_number_of_staking_pools_created, min_attached_balance,
}
use staking_farm.Tests.Example.{example_sdk}
use staking_farm.Tests.Factory.{Digest, example_host}
use staking_farm.Tests.Emulator.{ntoy}
use staking_farm.Tests.Unit.{builder}

abbrev account_near : AccountId
account_near = "near"

abbrev account_whitelist : AccountId
account_whitelist = "whitelist"

abbrev staking_pool_id : String
staking_pool_id = "pool"

abbrev account_pool : AccountId
account_pool = "pool.factory"

abbrev account_factory : AccountId
account_factory = "factory"

abbrev account_tokens_owner : AccountId
account_tokens_owner = "tokens-owner"

abbrev account_pool_owner : AccountId
account_pool_owner = "pool-owner"

-- The context of a test.
abbrev context : Env
context = record builder {
  predecessor_account_id = account_near;
  current_account_id = account_factory;
}

-- The code is the text "wasm", in place of the file that the test includes.
unfoldable add_staking_contract : FactoryWorld → Result (Digest × FactoryWorld)
unfolding store_contract lookup insert
add_staking_contract w = store_contract w "wasm"

-- A factory with the code stored and its hash allowed, and its views before any pool.
unfoldable allowing_factory : Result (Digest × FactoryWorld)
unfolding new_factory add_staking_contract allow_contract is_contract_allowed
    get_min_attached_balance get_number_of_staking_pools_created
allowing_factory = do
  w ← new_factory account_near account_whitelist
  (hash, w1) ← add_staking_contract w
  w2 ← allow_contract context w1 hash
  assert (is_contract_allowed w2 hash) assertion_failed
  assert (get_min_attached_balance w2 == min_attached_balance) assertion_failed
  assert (get_number_of_staking_pools_created w2 == 0) assertion_failed
  ok (hash, w2)

-- The creation that the tests ask for, with the deposit given.
unfoldable create_with : FactoryWorld → Digest → ℕ → Result FactoryWorld
unfolding create_staking_pool lookup
create_with w hash deposit =
    create_staking_pool
      (record context { predecessor_account_id = account_tokens_owner; attached_deposit = deposit })
      w staking_pool_id hash account_pool_owner 7 (record { numerator = 10; denominator = 100 })

abbrev callback_context : PromiseResult → Env
callback_context r = record context {
  predecessor_account_id = account_factory;
  promise_results = r ∷ [];
}

unfoldable test_create_staking_pool_success : Result (Unit {0})
unfolding allowing_factory create_with on_staking_pool_create ntoy
    get_number_of_staking_pools_created
test_create_staking_pool_success = do
  (hash, w) ← allowing_factory
  w1 ← create_with w hash (ntoy 31)
  (_, w2) ←
      on_staking_pool_create (callback_context (successful "")) w1 account_pool (ntoy 31)
        account_tokens_owner
  assert (get_number_of_staking_pools_created w2 == 1) assertion_failed

unfoldable test_create_staking_pool_not_enough_deposit : Result FactoryWorld
unfolding allowing_factory create_with
test_create_staking_pool_not_enough_deposit = do
  (hash, w) ← allowing_factory
  create_with w hash (min_attached_balance / 2)

unfoldable test_create_staking_pool_rollback : Result (Unit {0})
unfolding allowing_factory create_with on_staking_pool_create ntoy
    get_number_of_staking_pools_created
test_create_staking_pool_rollback = do
  (hash, w) ← allowing_factory
  w1 ← create_with w hash (ntoy 31)
  (value, w2) ←
      on_staking_pool_create
        (record (callback_context failed) { account_balance = context.account_balance + ntoy 31 })
        w1 account_pool (ntoy 31) account_tokens_owner
  assert (elim value as (λ _. Bool) [ none ↦ Bool.false | some v ↦ not v ]) assertion_failed
  assert (get_number_of_staking_pools_created w2 == 0) assertion_failed

unfoldable test_contract_disallow : Result (Unit {0})
unfolding new_factory add_staking_contract allow_contract disallow_contract is_contract_allowed
    remove
test_contract_disallow = do
  w ← new_factory account_near account_whitelist
  (hash, w1) ← add_staking_contract w
  assert (not (is_contract_allowed w1 hash)) assertion_failed
  w2 ← allow_contract context w1 hash
  assert (is_contract_allowed w2 hash) assertion_failed
  w3 ← disallow_contract context w2 hash
  assert (not (is_contract_allowed w3 hash)) assertion_failed

create_staking_pool_success_passes : test_create_staking_pool_success ≡ ok tt
unfolding test_create_staking_pool_success
create_staking_pool_success_passes = refl

create_staking_pool_not_enough_deposit_panics :
    test_create_staking_pool_not_enough_deposit ≡ err not_enough_deposit
unfolding test_create_staking_pool_not_enough_deposit
create_staking_pool_not_enough_deposit_panics = refl

create_staking_pool_rollback_passes : test_create_staking_pool_rollback ≡ ok tt
unfolding test_create_staking_pool_rollback
create_staking_pool_rollback_passes = refl

contract_disallow_passes : test_contract_disallow ≡ ok tt
unfolding test_contract_disallow
contract_disallow_passes = refl
