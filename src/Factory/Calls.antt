-- ===== src/Factory/Calls.antt =====
-- The calls that the factory accepts, in the order that its account receives them.
use staking_farm.Prelude.{
  ℕ, ◌≡◌, refl, Bool, true, false, not, ◌||◌, String, List, [], ◌∷◌, str_eq, ◌==◌,
}
use staking_farm.Machine.{
  Result, ok, err, bind_ok, assert, ◌>>=◌, ◌>>◌, private_method, method_not_payable,
}
use staking_farm.Sdk.{AccountId}
use staking_farm.Env.{Env}
use staking_farm.Ratio.{Ratio}
use staking_farm.Contract.{Sdk}
use staking_farm.Factory
use staking_farm.Factory.{Host, FactoryWorld}

module _ ⦃sdk : Sdk⦄ ⦃host : Host⦄ where
  pub data FactoryCall : Type 0 where
    create_staking_pool : String → host.CryptoHash → AccountId → sdk.PublicKey → Ratio → FactoryCall
    on_staking_pool_create : AccountId → ℕ → AccountId → FactoryCall
    allow_contract disallow_contract : host.CryptoHash → FactoryCall
    store : String → FactoryCall

  -- `create_staking_pool` has `#[payable]`; `store` is exported with no wrapper.
  unfoldable pub accepts_deposit : FactoryCall → Bool
  accepts_deposit (create_staking_pool _ _ _ _ _) = true
  accepts_deposit (store _) = true
  accepts_deposit _ = false

  -- `on_staking_pool_create` has `#[private]`.
  unfoldable pub is_private : FactoryCall → Bool
  is_private (on_staking_pool_create _ _ _) = true
  is_private _ = false

  unfoldable pub dispatch : Env → FactoryWorld → FactoryCall → Result FactoryWorld
  dispatch e w (create_staking_pool id h owner_id key fee) =
      Factory.create_staking_pool e w id h owner_id key fee
  dispatch e w (on_staking_pool_create pool_id deposit predecessor_id) = do
    (_, w1) ← Factory.on_staking_pool_create e w pool_id deposit predecessor_id
    ok w1
  dispatch e w (allow_contract h) = Factory.allow_contract e w h
  dispatch e w (disallow_contract h) = Factory.disallow_contract e w h
  dispatch e w (store input) = do (_, w1) ← Factory.store e w input; ok w1

  unfoldable pub execute : Env → FactoryWorld → FactoryCall → Result FactoryWorld
  unfolding accepts_deposit is_private
  execute e w call = do
    assert (not (is_private call) || str_eq e.predecessor_account_id e.current_account_id)
        private_method
    assert (accepts_deposit call || e.attached_deposit == 0) method_not_payable
    dispatch e w call

  -- A call that panics leaves no trace.
  unfoldable pub transact : Env → FactoryWorld → FactoryCall → FactoryWorld
  transact e w call = elim (execute e w call) [ ok w' ↦ w' | err _ ↦ w ]

  unfoldable pub history : FactoryWorld → List (Env × FactoryCall) → FactoryWorld
  unfolding transact
  history w [] = w
  history w ((e, call) ∷ calls) = history (transact e w call) calls

  pub dispatch_of_execute :
      (e : Env) (w : FactoryWorld) (call : FactoryCall) (w' : FactoryWorld)
      → execute e w call ≡ ok w'
      → dispatch e w call ≡ ok w'
  unfolding execute
  dispatch_of_execute e w call w' p =
      let caller = not (is_private call) || str_eq e.predecessor_account_id e.current_account_id in
      let paid = accepts_deposit call || e.attached_deposit == 0 in
      bind_ok (assert caller private_method) _ p
        λ _ _ p. bind_ok (assert paid method_not_payable) _ p λ _ _ p. p

  -- What holds of the state, and of every state that a call may lead to, holds after the call.
  pub transact_cases {ℓ} :
      (P : FactoryWorld → Type ℓ) (e : Env) (w : FactoryWorld) (call : FactoryCall)
      → P w
      → ((w' : FactoryWorld) → dispatch e w call ≡ ok w' → P w')
      → P (transact e w call)
  unfolding transact
  transact_cases P e w call unchanged changed = settled (execute e w call) refl
    where
      settled :
          (r : Result FactoryWorld)
          → execute e w call ≡ r
          → P (elim r as (λ _. FactoryWorld) [ ok v ↦ v | err _ ↦ w ])
      settled (ok v) p = changed v (dispatch_of_execute e w call v p)
      settled (err x) p = unchanged
