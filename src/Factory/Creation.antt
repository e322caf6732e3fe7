-- ===== src/Factory/Creation.antt =====
-- The creation of a pool: what is deployed, what a failure gives back, and that the new pool starts.
use Prim.Native.String
use staking_farm.Prelude.{
  ◌+◌, ◌-◌, ◌≤◌, ◌≡◌, true, false, not, some, String, [], ◌∷◌, ◌++◌, eq_iff, leb, refl, ap, sym,
  ◌∙◌, arith,
}
use staking_farm.Prelude.Classes.{string_key}
use staking_farm.Machine.{Result, ok, err, bind_ok, ok_injective, sub_ok, assert, expect, ◌>>=◌}
use staking_farm.Machine
use staking_farm.HashMap
use staking_farm.Sdk.{AccountId}
use staking_farm.Env.{Env, failed}
use staking_farm.Ratio.{Ratio, assert_valid}
use staking_farm.Internal.{internal_restake}
use staking_farm.RewardFee.{new_fee}
use staking_farm.Contract.{Sdk, World, Promise, Action, Method, promise, with_action, and_then}
use staking_farm.Init.{new, initial_contract, stake_share_price_guarantee_fund}
use staking_farm.Owner.{internal_get_version}
use staking_farm.Factory
use staking_farm.Factory.{
  Host, FactoryWorld, StakingPoolArgs, creation, is_contract_allowed, create_staking_pool,
  on_staking_pool_create, min_attached_balance, burn_fee_fraction, whitelist_staking_pool, has_dot,
}

module _ ⦃sdk : Sdk⦄ ⦃host : Host⦄ where
  -- What the creation of a pool has to schedule: a batch that creates the account of the pool, pays
  -- it the deposit, deploys the code, and calls `new` with the owner, the key and the reward fee that
  -- were asked for, and a burn fee of nothing; then a callback of the factory with the pool, the
  -- deposit and the caller.
  abbrev pub pool_batch : Env → AccountId → String → AccountId → sdk.PublicKey → Ratio → Promise
  pool_batch e pool_id wasm owner_id key fee =
      and_then
        (with_action
          (with_action
            (with_action (promise pool_id Action.create_account)
              (Action.transfer e.attached_deposit))
            (Action.deploy_contract wasm))
          (Action.function_call
            (Method.new owner_id key fee (record { numerator = 0; denominator = 10 })) 0
            50_000_000_000_000))
        (promise e.current_account_id (
          Action.function_call
            (Method.on_staking_pool_create pool_id e.attached_deposit e.predecessor_account_id) 0
            50_000_000_000_000))

  -- What a creation that succeeds has checked and does.
  pub record Created (e : Env) (w : FactoryWorld) (id : String) (h : host.CryptoHash)
      (owner_id : AccountId) (key : sdk.PublicKey) (fee : Ratio) (w' : FactoryWorld) : Type 0 where
    pub pool_id : AccountId
    pub wasm : String
    pub deposited : min_attached_balance ≤ e.attached_deposit
    pub no_dot : has_dot id ≡ false
    pub named :
        host.parse_pool_id (String.◌++◌ id (String.◌++◌ "." e.current_account_id)) ≡ some pool_id
    pub valid_owner : sdk.is_valid_account_id owner_id ≡ true
    pub valid_pool : sdk.is_valid_account_id pool_id ≡ true
    pub valid_fee : assert_valid fee ≡ ok tt
    pub allowed : is_contract_allowed w h ≡ true
    pub found : HashMap.lookup (host.bytes h) w.storage ≡ some wasm
    pub new_id : sdk.ids.contains_id w.contract.staking_pool_account_ids pool_id ≡ false
    pub result : w' ≡ record w {
      contract = record w.contract {
        staking_pool_account_ids = sdk.ids.insert w.contract.staking_pool_account_ids pool_id;
      };
      scheduled = w.scheduled ++ pool_batch e pool_id wasm owner_id key fee ∷ [];
    }

  -- A creation that succeeds has a deposit of at least four NEAR, a valid fee and owner, and a pool id
  -- that is valid, new, and the one asked for before a dot and the factory's own, with no further
  -- dot. The hash is allowed. The id is added to the pools, and one promise is scheduled: a batch that
  -- creates the account of the pool, pays it the deposit, deploys the code that is stored under the
  -- hash, and calls `new` with the owner, key and reward fee asked for and no burn fee; then a
  -- callback of the factory with the pool, the deposit and the caller.
  pub create-Created :
      (e : Env) (w : FactoryWorld) (id : String) (h : host.CryptoHash) (owner_id : AccountId)
      (key : sdk.PublicKey) (fee : Ratio) (w' : FactoryWorld)
      → create_staking_pool e w id h owner_id key fee ≡ ok w'
      → Created e w id h owner_id key fee w'
  unfolding create_staking_pool creation
  create-Created e w id h owner_id key fee w' p =
      bind_ok (assert (leb min_attached_balance e.attached_deposit) Machine.not_enough_deposit) _ p
        λ _ p1 p. bind_ok (assert (not (Factory.has_dot id)) Machine.pool_id_with_dot) _ p λ _ p2 p.
          bind_ok
            (expect (host.parse_pool_id (String.◌++◌ id (String.◌++◌ "." e.current_account_id)))
              Machine.unparsable_pool_id)
            _ p
            λ pool_id p3 p.
              bind_ok (assert (sdk.is_valid_account_id pool_id) Machine.invalid_pool_id) _ p
                λ _ p4 p.
                  bind_ok (assert (sdk.is_valid_account_id owner_id) Machine.invalid_owner_id) _ p
                    λ _ p5 p. bind_ok (assert_valid fee) _ p λ u p6 p.
                      bind_ok (assert (is_contract_allowed w h) Machine.hash_not_allowed) _ p
                        λ _ p7 p.
                          bind_ok
                            (assert
                              (not
                                (sdk.ids.contains_id w.contract.staking_pool_account_ids pool_id))
                              Machine.pool_already_exists)
                            _ p
                            λ _ p8 p.
                              bind_ok
                                (expect (HashMap.lookup (host.bytes h) w.storage)
                                  Machine.contract_does_not_exist)
                                _ p
                                λ wasm p9 p. record {
                                  pool_id = pool_id;
                                  wasm = wasm;
                                  deposited = ground arith;
                                  no_dot = ground arith;
                                  named = ground (arith, p3);
                                  valid_owner = ground arith;
                                  valid_pool = ground arith;
                                  valid_fee = p6;
                                  allowed = ground arith;
                                  found = ground arith;
                                  new_id = ground arith;
                                  result = ok_injective (sym p);
                                }

  insert_then_remove :
      (ids : sdk.ids.Set) (k j : AccountId)
      → sdk.ids.contains_id ids k ≡ false
      → sdk.ids.contains_id (sdk.ids.remove (sdk.ids.insert ids k) k) j ≡ sdk.ids.contains_id ids j
  insert_then_remove ids k j absent = ground (
    arith,
    sdk.ids.contains-remove (sdk.ids.insert ids k) k j,
    sdk.ids.contains-insert ids k j,
    eq_iff k j,
    absent,
  )

  -- A creation that succeeds schedules its batch, and then a callback of the factory with the pool,
  -- the deposit and the caller. When the batch fails, that callback with those arguments succeeds: it
  -- forgets the pool, so that the pools are those from before, keeps the storage, and sends the
  -- deposit back to the caller.
  pub failed_creation_is_undone :
      (e e' : Env) (w : FactoryWorld) (id : String) (h : host.CryptoHash) (owner_id : AccountId)
      (key : sdk.PublicKey) (fee : Ratio) (w1 : FactoryWorld) (j : AccountId)
      → create_staking_pool e w id h owner_id key fee ≡ ok w1
      → e'.promise_results ≡ failed ∷ []
      → (pool_id : AccountId) × (wasm : String) × (w2 : FactoryWorld) × (w1.scheduled
          ≡ w.scheduled ++ pool_batch e pool_id wasm owner_id key fee ∷ [])
        × (on_staking_pool_create e' w1 pool_id e.attached_deposit e.predecessor_account_id
            ≡ ok (some false, w2))
        × (sdk.ids.contains_id w2.contract.staking_pool_account_ids j
            ≡ sdk.ids.contains_id w.contract.staking_pool_account_ids j)
        × (w2.storage ≡ w.storage)
        × (w2.scheduled
            ≡ w1.scheduled
              ++ promise e.predecessor_account_id (Action.transfer e.attached_deposit) ∷ [])
  unfolding on_staking_pool_create
  failed_creation_is_undone e e' w id h owner_id key fee w1 j created failure =
      let c = create-Created e w id h owner_id key fee w1 created in
      let ids = w.contract.staking_pool_account_ids in
      let back : FactoryWorld = record w1 {
        contract = record w1.contract {
          staking_pool_account_ids = sdk.ids.remove w1.contract.staking_pool_account_ids c.pool_id;
        };
        scheduled =
            w1.scheduled
            ++ promise e.predecessor_account_id (Action.transfer e.attached_deposit) ∷ [];
      } in
      (
        c.pool_id,
        c.wasm,
        back,
        ap (λ v. v.scheduled) c.result,
        rw (failure, sdk.is_promise_success_one failed) refl,
        ap
              (λ v.
                sdk.ids.contains_id (sdk.ids.remove v.contract.staking_pool_account_ids c.pool_id)
                  j)
              c.result
            ∙ insert_then_remove ids c.pool_id j c.new_id,
        ap (λ v. v.storage) c.result,
        refl,
      )

  -- A pool that the factory creates starts. The creation schedules a batch that pays the new account
  -- the deposit and calls `new` with the owner, key and reward fee asked for and no burn fee. On a
  -- new account with that deposit as its balance, and called by the factory, `new` with these
  -- arguments succeeds: the pool has the owner, key and reward fee asked for, the factory, a valid
  -- burn fee of nothing, and stakes the deposit less the guarantee fund.
  pub created_pool_starts :
      (e e' : Env) (w : FactoryWorld) (id : String) (h : host.CryptoHash) (owner_id : AccountId)
      (key : sdk.PublicKey) (fee : Ratio) (w' : FactoryWorld)
      → create_staking_pool e w id h owner_id key fee ≡ ok w'
      → e'.state_exists ≡ false
      → e'.predecessor_account_id ≡ e.current_account_id
      → e'.account_balance ≡ e.attached_deposit
      → e'.account_locked_balance ≡ 0
      → (pool_id : AccountId) × (wasm : String) × (p : World) × (w'.scheduled
          ≡ w.scheduled ++ pool_batch e pool_id wasm owner_id key fee ∷ [])
        × (new e' owner_id key fee (record { numerator = 0; denominator = 10 }) ≡ ok p)
        × (p.owner ≡ some owner_id)
        × (p.contract.stake_public_key ≡ key)
        × (p.contract.reward_fee_fraction.reward_fee_fraction ≡ fee)
        × (p.contract.reward_fee_fraction.next_reward_fee_fraction ≡ fee)
        × (p.factory ≡ some e.current_account_id)
        × (p.version ≡ some internal_get_version)
        × (p.contract.burn_fee_fraction.numerator ≡ 0)
        × (assert_valid p.contract.burn_fee_fraction ≡ ok tt)
        × (p.contract.total_staked_balance + stake_share_price_guarantee_fund ≡ e.attached_deposit)
  unfolding new initial_contract internal_restake assert_valid new_fee
  created_pool_starts e e' w id h owner_id key fee w' created fresh caller paid unlocked =
      let c = create-Created e w id h owner_id key fee w' created in
      let staked = e'.account_balance - stake_share_price_guarantee_fund in
      let p = internal_restake e' (record {
        contract = initial_contract e' key fee burn_fee_fraction staked;
        owner = some owner_id;
        factory = some e'.predecessor_account_id;
        version = some internal_get_version;
        scheduled = [];
      }) in
      let enough =
        sub_ok e'.account_balance stake_share_price_guarantee_fund (omega (arith, c.deposited)) in
      (
        c.pool_id,
        c.wasm,
        p,
        ap (λ v. v.scheduled) c.result,
        rw (fresh, c.valid_fee, c.valid_owner, enough, unlocked) refl,
        refl,
        refl,
        refl,
        refl,
        ap some caller,
        refl,
        refl,
        refl,
        omega (arith, c.deposited),
      )
