-- ===== src/Factory/Store.antt =====
-- A code that is stored and then allowed is served, and its storage is paid for.
use staking_farm.Prelude.{◌-◌, ◌*◌, ◌≤◌, ◌≡◌, String, eq_iff, leb, refl, ap, sym, arith}
use staking_farm.Prelude.Classes.{string_key}
use staking_farm.Machine.{ok, bind_ok, assert, sub, mul_u128, storage_not_covered}
use staking_farm.HashMap
use staking_farm.HashMap.{HashMap, lookup-insert}
use staking_farm.Env.{Env}
use staking_farm.Contract.{Sdk}
use staking_farm.Factory.{
  Host, FactoryWorld, code_hash_to_key, is_contract_allowed, allow_contract, get_code, store,
  store_contract,
}
use staking_farm.Factory.Keys.{key_apart}
use staking_farm.Factory.Codes.{store-stored}

module _ ⦃sdk : Sdk⦄ ⦃host : Host⦄ where
  store_paid :
      (e : Env) (w : FactoryWorld) (input : String) {r : host.CryptoHash × FactoryWorld}
      → store e w input ≡ ok r
      → (host.storage_usage r.1.storage - host.storage_usage w.storage) * host.storage_byte_cost
        ≤ e.attached_deposit
  unfolding store
  store_paid e w input {r} p = bind_ok (store_contract w input) _ p λ (h, w1) p1 p.
      bind_ok (sub (host.storage_usage w1.storage) (host.storage_usage w.storage)) _ p λ used p2 p.
        bind_ok (mul_u128 used host.storage_byte_cost) _ p λ cost p3 p.
          bind_ok (assert (leb cost e.attached_deposit) storage_not_covered) _ p λ _ p4 p.
            let same : r.1 ≡ w1 = ground (arith, p) in
            let value : used ≡ host.storage_usage w1.storage - host.storage_usage w.storage =
              ground (arith, p2) in
            let product : cost ≡ used * host.storage_byte_cost = ground (arith, p3) in
            rw same (rw (← value) (ground (arith, product, p4)))

  -- A code that is stored is returned by its hash, for a deposit that covers the storage that it
  -- takes; once the owner allows the hash, `get_code` returns the code for it.
  pub stored_code_is_served :
      (e e' : Env) (w : FactoryWorld) (input : String) (h : host.CryptoHash) (w1 w2 : FactoryWorld)
      → store e w input ≡ ok (h, w1)
      → allow_contract e' w1 h ≡ ok w2
      → (h ≡ host.sha256 input)
        × ((host.storage_usage w1.storage - host.storage_usage w.storage) * host.storage_byte_cost
            ≤ e.attached_deposit)
        × (get_code w2 h ≡ ok input)
  unfolding allow_contract get_code is_contract_allowed
  stored_code_is_served e e' w input h w1 w2 stored allowed =
      let (hash, absent, saved) = store-stored e w input stored in
      let key = code_hash_to_key h in
      let code_key = host.bytes (host.sha256 input) in
      let storage : w2.storage ≡ HashMap.insert key "" w1.storage = ground (arith, allowed) in
      let same : code_key ≡ host.bytes h = ap host.bytes (sym hash) in
      (
        hash,
        store_paid e w input stored,
        rw (storage) (
            rw
              (
                lookup-insert key key "" w1.storage,
                (eq_iff key key).1 refl,
                lookup-insert key (host.bytes h) "" w1.storage,
                key_apart h h,
                saved,
                lookup-insert code_key (host.bytes h) input w.storage,
                (eq_iff code_key (host.bytes h)).1 same,
              )
              refl),
      )
