-- ===== src/Factory/Codes.antt =====
-- What the factory keeps under a hash: the code of that hash, for good.
use staking_farm.Prelude.{
  ℕ, ◌≡◌, Bool, false, Option, none, some, String, List, [], ◌∷◌, str_eq, eq_iff, refl, ap, sym,
  ◌∙◌, Bool-cases, inl, inr, ◌⊎◌, arith,
}
use staking_farm.Prelude.Classes.{string_key}
use staking_farm.Machine.{ok, bind_ok}
use staking_farm.HashMap
use staking_farm.HashMap.{HashMap, lookup-insert, lookup-remove}
use staking_farm.Sdk.{AccountId, is_some}
use staking_farm.Env.{Env}
use staking_farm.Ratio.{Ratio}
use staking_farm.Machine.{ok_injective}
use staking_farm.Contract.{Sdk}
use staking_farm.Factory
use staking_farm.Factory.{
  Host, FactoryWorld, code_hash_to_key, get_code, new_factory, store_contract,
}
use staking_farm.Factory.Keys.{key_apart}
use staking_farm.Factory.Calls.{FactoryCall, dispatch, transact, transact_cases, history}

module _ ⦃sdk : Sdk⦄ ⦃host : Host⦄ where
  -- What a call may do to the storage.
  pub data Change (s s' : HashMap String String) : Type 0 where
    kept : s' ≡ s → Change s s'
    allowed : (h : host.CryptoHash) → s' ≡ HashMap.insert (code_hash_to_key h) "" s → Change s s'
    disallowed : (h : host.CryptoHash) → s' ≡ HashMap.remove (code_hash_to_key h) s → Change s s'
    stored :
        (input : String)
        → HashMap.lookup (host.bytes (host.sha256 input)) s ≡ none
        → s' ≡ HashMap.insert (host.bytes (host.sha256 input)) input s
        → Change s s'

  pub create-storage :
      (e : Env) (w : FactoryWorld) (id : String) (h : host.CryptoHash) (owner : AccountId)
      (key : sdk.PublicKey) (fee : Ratio) {w' : FactoryWorld}
      → Factory.create_staking_pool e w id h owner key fee ≡ ok w'
      → w'.storage ≡ w.storage
  unfolding Factory.create_staking_pool
  create-storage e w id h owner key fee p = ground arith

  pub callback-storage :
      (e : Env) (w : FactoryWorld) (id : AccountId) (n : ℕ) (from : AccountId)
      {r : Option Bool × FactoryWorld}
      → Factory.on_staking_pool_create e w id n from ≡ ok r
      → r.1.storage ≡ w.storage
  unfolding Factory.on_staking_pool_create
  callback-storage e w id n from p = ground arith

  absent_of_unset : (o : Option String) → is_some o ≡ false → o ≡ none
  absent_of_unset none p = refl
  absent_of_unset (some a) p = cc

  pub store-stored :
      (e : Env) (w : FactoryWorld) (input : String) {r : host.CryptoHash × FactoryWorld}
      → Factory.store e w input ≡ ok r
      → let key = host.bytes (host.sha256 input) in
        (r.0 ≡ host.sha256 input)
        × (HashMap.lookup key w.storage ≡ none)
        × (r.1.storage ≡ HashMap.insert key input w.storage)
  unfolding Factory.store
  store-stored e w input p =
      let key = host.bytes (host.sha256 input) in
      let o = HashMap.lookup key w.storage in
      (ground arith, absent_of_unset o (ground arith), ground arith)

  pub dispatch-Change :
      (e : Env) (w : FactoryWorld) (call : FactoryCall) (w' : FactoryWorld)
      → dispatch e w call ≡ ok w'
      → Change w.storage w'.storage
  unfolding dispatch Factory.allow_contract Factory.disallow_contract
  dispatch-Change e w (FactoryCall.create_staking_pool id h owner key fee) w' p =
      kept (create-storage e w id h owner key fee p)
  dispatch-Change e w (FactoryCall.on_staking_pool_create id n from) w' p =
      bind_ok (Factory.on_staking_pool_create e w id n from) _ p λ (b, w1) q p.
        kept (ap (λ v. v.storage) (ok_injective (sym p)) ∙ callback-storage e w id n from q)
  dispatch-Change e w (FactoryCall.allow_contract h) w' p = allowed h (ground arith)
  dispatch-Change e w (FactoryCall.disallow_contract h) w' p = disallowed h (ground arith)
  dispatch-Change e w (FactoryCall.store input) w' p =
      bind_ok (Factory.store e w input) _ p λ (h, w1) q p.
        let (hash, absent, saved) = store-stored e w input q in
        stored input absent (ap (λ v. v.storage) (ok_injective (sym p)) ∙ saved)

  -- The code under a hash before and after a change of the storage: it stays if there is one, and
  -- else is that of the hash.
  Change-code :
      (h : host.CryptoHash) (s s' : HashMap String String)
      → Change s s'
      → (HashMap.lookup (host.bytes h) s' ≡ HashMap.lookup (host.bytes h) s)
        ⊎ ((input : String) × (host.sha256 input ≡ h)
            × (HashMap.lookup (host.bytes h) s ≡ none)
            × (HashMap.lookup (host.bytes h) s' ≡ some input))
  Change-code h s s' (kept p) = inl (rw p refl)
  Change-code h s s' (allowed g p) =
      inl (rw (p, lookup-insert (code_hash_to_key g) (host.bytes h) "" s, key_apart g h) refl)
  Change-code h s s' (disallowed g p) =
      inl (rw (p, lookup-remove (code_hash_to_key g) (host.bytes h) s, key_apart g h) refl)
  Change-code h s s' (stored input absent p) =
      let key = host.bytes (host.sha256 input) in
      elim (Bool-cases (str_eq key (host.bytes h))) [
        | inl same ↦
            let equal = (eq_iff key (host.bytes h)).0 same in
            inr (
              input,
              host.bytes-injective (host.sha256 input) h equal,
              rw (← equal) absent,
              rw (p, lookup-insert key (host.bytes h) input s, same) refl,
            )
        | inr other ↦ inl (rw (p, lookup-insert key (host.bytes h) input s, other) refl)
      ]

  -- A call changes the storage in one of these ways, or panics and leaves it.
  pub transact-Change :
      (e : Env) (w : FactoryWorld) (call : FactoryCall)
      → Change w.storage (transact e w call).storage
  transact-Change e w call =
      transact_cases (λ v. Change w.storage v.storage) e w call (kept refl)
        (dispatch-Change e w call)

  -- Each code lies under its own hash.
  abbrev pub IsAuthentic : HashMap String String → Type 0
  IsAuthentic s =
      (h : host.CryptoHash) (wasm : String)
      → HashMap.lookup (host.bytes h) s ≡ some wasm
      → host.sha256 wasm ≡ h

  Change-IsAuthentic : (s s' : HashMap String String) → Change s s' → IsAuthentic s → IsAuthentic s'
  Change-IsAuthentic s s' c a h wasm p = elim (Change-code h s s' c) [
    | inl same ↦ a h wasm (sym same ∙ p)
    | inr (input, hashed, absent, found) ↦
        let same_code : input ≡ wasm = ground (arith, found, p) in rw (← same_code) hashed
  ]

  history-IsAuthentic :
      (calls : List (Env × FactoryCall)) (w : FactoryWorld)
      → IsAuthentic w.storage
      → IsAuthentic (history w calls).storage
  unfolding history
  history-IsAuthentic [] w a = a
  history-IsAuthentic ((e, call) ∷ calls) w a =
      let w1 = transact e w call in
      history-IsAuthentic calls w1
        (Change-IsAuthentic w.storage w1.storage (transact-Change e w call) a)

  -- After any calls on a new factory, a code that `get_code` returns for a hash has that hash.
  pub served_code_has_hash :
      (owner_id whitelist_id : AccountId) (w : FactoryWorld) (calls : List (Env × FactoryCall))
      (h : host.CryptoHash) (wasm : String)
      → new_factory owner_id whitelist_id ≡ ok w
      → get_code (history w calls) h ≡ ok wasm
      → host.sha256 wasm ≡ h
  unfolding new_factory get_code HashMap.lookup
  served_code_has_hash owner_id whitelist_id w calls h wasm created served =
      let fresh : w.storage ≡ [] = ground arith in
      history-IsAuthentic calls w (rw fresh nothing_stored) h wasm
        (found_of_served (history w calls) served)
    where
      nothing_stored : IsAuthentic []
      nothing_stored g x p = cc p

      found_of_served :
          (v : FactoryWorld)
          → get_code v h ≡ ok wasm
          → HashMap.lookup (host.bytes h) v.storage ≡ some wasm
      found_of_served v p = ground (arith, p)

  -- A code that is stored stays under its hash, whatever calls are made.
  pub code_is_permanent :
      (calls : List (Env × FactoryCall)) (w : FactoryWorld) (h : host.CryptoHash) (wasm : String)
      → HashMap.lookup (host.bytes h) w.storage ≡ some wasm
      → HashMap.lookup (host.bytes h) (history w calls).storage ≡ some wasm
  unfolding history
  code_is_permanent [] w h wasm p = p
  code_is_permanent ((e, call) ∷ calls) w h wasm p =
      let w1 = transact e w call in
      code_is_permanent calls w1 h wasm
        (elim (Change-code h w.storage w1.storage (transact-Change e w call)) [
          | inl same ↦ same ∙ p
          | inr (input, hashed, absent, found) ↦ cc (absent, p)
        ])
