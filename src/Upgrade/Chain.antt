-- ===== src/Upgrade/Chain.antt =====
-- An upgrade from its request to the new state: the pool, the factory, and the pool again.
use staking_farm.Prelude.{
  ◌≡◌, true, Option, some, String, List, [], ◌∷◌, ◌++◌, str_eq, eq_iff, ap, sym, ◌∙◌, arith, ◌-◌,
}
use staking_farm.Machine.{
  ok, bind_ok, ok_injective, sub, assert, expect, must_be_owner, unparsed_arguments,
}
use staking_farm.Env.{Env, successful}
use staking_farm.Internal.{no_deposit, internal_get_owner_id, internal_get_factory_id}
use staking_farm.Contract.{Sdk, World, Action, Method, promise, with_action, and_then}
use staking_farm.Factory.{
  Host, FactoryWorld, get_code, call_get_code, is_contract_allowed, new_factory,
}
use staking_farm.Factory.Calls.{FactoryCall, history}
use staking_farm.Factory.Codes.{served_code_has_hash}
use staking_farm.Sdk.{AccountId}
use staking_farm.Upgrade.{get_code_gas, upgrade_gas_leftover, upgrade, update, update_gas_leftover}

found_of_expect :
    {A : Type 0} (o : Option A) (a : A) → expect o unparsed_arguments ≡ ok a → o ≡ some a
found_of_expect o a p = ground (arith, p)

module _ ⦃sdk : Sdk⦄ where
  -- The owner asks, and the factory of the pool is asked for the code of the input.
  requested :
      (e : Env) (w w1 : World) (input : String)
      → upgrade e w input ≡ ok w1
      → (factory_id : AccountId) × (w.owner ≡ some e.predecessor_account_id)
        × (w.factory ≡ some factory_id)
        × (w1.scheduled
            ≡ w.scheduled
              ++ and_then
                  (promise factory_id
                    (Action.function_call (Method.get_code input) 0 50_000_000_000_000))
                  (promise e.current_account_id (
                    Action.function_call Method.update 0
                      (e.prepaid_gas - e.used_gas - 50_000_000_000_000 - 5_000_000_000_000)))
                ∷ [])
  unfolding upgrade sub
  requested e w w1 input asked = bind_ok (internal_get_owner_id w) _ asked λ owner_id p asked.
      bind_ok (internal_get_factory_id w) _ asked λ factory_id p1 asked.
        bind_ok (assert (str_eq e.predecessor_account_id owner_id) must_be_owner) _ asked
          λ _ p2 asked. bind_ok (sub e.prepaid_gas e.used_gas) _ asked λ unused p3 asked.
            bind_ok (sub unused get_code_gas) _ asked λ rest p4 asked.
              bind_ok (sub rest upgrade_gas_leftover) _ asked λ gas p5 asked.
                let gas_eq : gas
                    ≡ e.prepaid_gas - e.used_gas - 50_000_000_000_000 - 5_000_000_000_000 =
                  ground (arith, p3, p4, p5) in
                (
                  factory_id,
                  ground (arith, p, p2, eq_iff e.predecessor_account_id owner_id),
                  ground (arith, p1),
                  rw (← gas_eq) (ap (λ v. v.scheduled) (sym (ok_injective asked))),
                )

  deployed :
      (e : Env) (w w' : World) (wasm : String)
      → e.promise_results ≡ successful wasm ∷ []
      → update e w ≡ ok w'
      → w'.scheduled
        ≡ w.scheduled
          ++ with_action (promise e.current_account_id (Action.deploy_contract wasm)) (
              Action.function_call Method.migrate no_deposit
                (e.prepaid_gas - e.used_gas - update_gas_leftover))
            ∷ []
  unfolding update
  deployed e w w' wasm result updated = ground (arith, result, updated)

module _ ⦃sdk : Sdk⦄ ⦃host : Host⦄ where
  served_is_allowed :
      (f : FactoryWorld) (h : host.CryptoHash) (wasm : String)
      → get_code f h ≡ ok wasm
      → is_contract_allowed f h ≡ true
  unfolding get_code
  served_is_allowed f h wasm p = ground (arith, p)

  -- An upgrade runs through three contracts' calls: the pool's `upgrade`, `get_code` of a factory that
  -- has had any calls since it was new, with the input of the upgrade, and the pool's `update` with the
  -- code that is returned. If these succeed, the owner has asked for the upgrade, and it has scheduled
  -- a request of `get_code`, with that input, to the pool's factory, followed by a call of the pool's
  -- own `update`, with the gas that the source leaves. The input names the hash of the code, which the
  -- factory allows, and the update schedules the deployment of that very code on the pool's account,
  -- with a call of `migrate` in the same batch.
  pub upgrade_deploys_requested_code :
      (e e' : Env) (w w1 w2 : World) (input wasm : String) (owner_id whitelist_id : String)
      (f : FactoryWorld) (calls : List (Env × FactoryCall))
      → upgrade e w input ≡ ok w1
      → new_factory owner_id whitelist_id ≡ ok f
      → call_get_code (history f calls) input ≡ ok wasm
      → e'.promise_results ≡ successful wasm ∷ []
      → update e' w1 ≡ ok w2
      → (factory_id : AccountId) × (w.owner ≡ some e.predecessor_account_id)
        × (w.factory ≡ some factory_id)
        × (w1.scheduled
            ≡ w.scheduled
              ++ and_then
                  (promise factory_id
                    (Action.function_call (Method.get_code input) 0 50_000_000_000_000))
                  (promise e.current_account_id (
                    Action.function_call Method.update 0
                      (e.prepaid_gas - e.used_gas - 50_000_000_000_000 - 5_000_000_000_000)))
                ∷ [])
        × (host.parse_hash input ≡ some (host.sha256 wasm))
        × (is_contract_allowed (history f calls) (host.sha256 wasm) ≡ true)
        × (w2.scheduled
            ≡ w1.scheduled
              ++ with_action (promise e'.current_account_id (Action.deploy_contract wasm)) (
                  Action.function_call Method.migrate 0
                    (e'.prepaid_gas - e'.used_gas - 5_000_000_000_000))
                ∷ [])
  unfolding call_get_code
  upgrade_deploys_requested_code e e' w w1 w2 input wasm owner_id whitelist_id f calls asked created
        served result updated =
      bind_ok (expect (host.parse_hash input) unparsed_arguments) _ served λ h p served.
        let (factory_id, owned, made_by, request) = requested e w w1 input asked in
        let hashed = served_code_has_hash owner_id whitelist_id f calls h wasm created served in
        (
          factory_id,
          owned,
          made_by,
          request,
          found_of_expect (host.parse_hash input) h p ∙ ap some (sym hashed),
          rw hashed (served_is_allowed (history f calls) h wasm served),
          deployed e' w1 w2 wasm result updated,
        )
