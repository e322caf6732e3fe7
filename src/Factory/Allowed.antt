-- ===== src/Factory/Allowed.antt =====
-- The hashes that the factory allows are those that its owner has allowed last.
use staking_farm.Prelude.{
  ◌≡◌, Bool, not, ◌||◌, ◌&&◌, ◌==◌, if◌then◌else◌, List, [], ◌∷◌, str_eq, refl, ap, sym, ◌∙◌, arith,
}
use mathlib.Core.Path.{fun_ext}
use staking_farm.Prelude.Classes.{string_key}
use staking_farm.Machine.{ok, bind_ok, ok_injective}
use staking_farm.HashMap
use staking_farm.HashMap.{HashMap, lookup-insert, lookup-remove}
use staking_farm.Sdk.{AccountId, is_some}
use staking_farm.Env.{Env}
use staking_farm.Contract.{Sdk}
use staking_farm.Factory
use staking_farm.Factory.{Host, FactoryWorld, code_hash_to_key, is_contract_allowed}
use staking_farm.Factory.Keys.{same_hash, same_key_eq, apart_key}
use staking_farm.Factory.Calls.{FactoryCall, dispatch, execute, transact, transact_cases, history}
use staking_farm.Factory.Codes.{store-stored, create-storage, callback-storage}

module _ ⦃sdk : Sdk⦄ ⦃host : Host⦄ where
  -- The permissions, as the owner's calls alone change them: a call without a deposit that allows a
  -- hash or disallows it.
  unfoldable pub permit :
      AccountId → (host.CryptoHash → Bool) → Env × FactoryCall → host.CryptoHash → Bool
  permit owner_id allowed (e, FactoryCall.allow_contract g) h =
      if str_eq e.predecessor_account_id owner_id && e.attached_deposit == 0
      then same_hash g h || allowed h
      else allowed h
  permit owner_id allowed (e, FactoryCall.disallow_contract g) h =
      if str_eq e.predecessor_account_id owner_id && e.attached_deposit == 0
      then not (same_hash g h) && allowed h
      else allowed h
  permit owner_id allowed (e, _) h = allowed h

  unfoldable pub permissions :
      AccountId → (host.CryptoHash → Bool) → List (Env × FactoryCall) → host.CryptoHash → Bool
  unfolding permit
  permissions owner_id allowed [] h = allowed h
  permissions owner_id allowed (call ∷ calls) h =
      permissions owner_id (permit owner_id allowed call) calls h

  -- A change of the storage that is none of the permissions keeps them.
  create_keeps :
      (e : Env) (w : FactoryWorld) (call : FactoryCall) (h : host.CryptoHash)
      → ((w' : FactoryWorld)
          → dispatch e w call ≡ ok w'
          → is_contract_allowed w' h ≡ is_contract_allowed w h)
      → is_contract_allowed (transact e w call) h ≡ is_contract_allowed w h
  create_keeps e w call h same =
      transact_cases (λ v. is_contract_allowed v h ≡ is_contract_allowed w h) e w call refl same

  allowed_by_storage :
      (w w' : FactoryWorld) (h : host.CryptoHash)
      → w'.storage ≡ w.storage
      → is_contract_allowed w' h ≡ is_contract_allowed w h
  unfolding is_contract_allowed
  allowed_by_storage w w' h p = rw p refl

  step :
      (e : Env) (w : FactoryWorld) (call : FactoryCall) (h : host.CryptoHash)
      → is_contract_allowed (transact e w call) h
        ≡ permit w.contract.owner_id (is_contract_allowed w) (e, call) h
  unfolding permit transact execute dispatch Factory.allow_contract Factory.disallow_contract
      is_contract_allowed
  step e w (FactoryCall.allow_contract g) h =
      ground (
        arith,
        lookup-insert (code_hash_to_key g) (code_hash_to_key h) "" w.storage,
        same_key_eq g h,
      )
  step e w (FactoryCall.disallow_contract g) h =
      ground
        (arith, lookup-remove (code_hash_to_key g) (code_hash_to_key h) w.storage, same_key_eq g h)
  step e w (FactoryCall.create_staking_pool id g owner key fee) h =
      create_keeps e w (FactoryCall.create_staking_pool id g owner key fee) h
        λ w' p. allowed_by_storage w w' h (create-storage e w id g owner key fee p)
  step e w (FactoryCall.on_staking_pool_create id n from) h =
      create_keeps e w (FactoryCall.on_staking_pool_create id n from) h λ w' p.
        bind_ok (Factory.on_staking_pool_create e w id n from) _ p λ (b, w1) q p.
          allowed_by_storage w w' h
            (ap (λ v. v.storage) (ok_injective (sym p)) ∙ callback-storage e w id n from q)
  step e w (FactoryCall.store input) h = create_keeps e w (FactoryCall.store input) h λ w' p.
      bind_ok (Factory.store e w input) _ p λ (g, w1) q p.
        let (hash, absent, saved) = store-stored e w input q in
        let code_key = host.bytes (host.sha256 input) in
        let storage : w'.storage ≡ HashMap.insert code_key input w.storage =
          ap (λ v. v.storage) (ok_injective (sym p)) ∙ saved in
        ap is_some (
          rw storage (
            lookup-insert code_key (code_hash_to_key h) input w.storage
            ∙ rw (apart_key h (host.sha256 input)) refl))

  dispatch-owner :
      (e : Env) (w : FactoryWorld) (call : FactoryCall) (w' : FactoryWorld)
      → dispatch e w call ≡ ok w'
      → w'.contract.owner_id ≡ w.contract.owner_id
  unfolding dispatch Factory.create_staking_pool Factory.on_staking_pool_create
      Factory.allow_contract Factory.disallow_contract Factory.store
  dispatch-owner e w (FactoryCall.create_staking_pool id g owner key fee) w' p = ground arith
  dispatch-owner e w (FactoryCall.on_staking_pool_create id n from) w' p = ground arith
  dispatch-owner e w (FactoryCall.allow_contract g) w' p = ground arith
  dispatch-owner e w (FactoryCall.disallow_contract g) w' p = ground arith
  dispatch-owner e w (FactoryCall.store input) w' p = ground arith

  owner_stays :
      (e : Env) (w : FactoryWorld) (call : FactoryCall)
      → (transact e w call).contract.owner_id ≡ w.contract.owner_id
  owner_stays e w call =
      transact_cases (λ v. v.contract.owner_id ≡ w.contract.owner_id) e w call refl
        (dispatch-owner e w call)

  -- Whatever calls are made, a hash is allowed exactly when the owner's calls have allowed it last:
  -- the storage implements the permissions.
  pub allowed_refines_permissions :
      (calls : List (Env × FactoryCall)) (w : FactoryWorld) (h : host.CryptoHash)
      → is_contract_allowed (history w calls) h
        ≡ permissions w.contract.owner_id (is_contract_allowed w) calls h
  unfolding history permissions
  allowed_refines_permissions [] w h = refl
  allowed_refines_permissions ((e, call) ∷ calls) w h =
      let w1 = transact e w call in
      allowed_refines_permissions calls w1 h
      ∙ ap (λ o. permissions o (is_contract_allowed w1) calls h) (owner_stays e w call)
      ∙ ap (λ f. permissions w.contract.owner_id f calls h) (fun_ext (λ g. step e w call g))
