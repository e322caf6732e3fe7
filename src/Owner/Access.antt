-- ===== src/Owner/Access.antt =====
-- Who may call the methods of the owner, of the factory and of the contract itself.
use staking_farm.Prelude.{
  ℕ, ◌*◌, ◌<◌, ◌≡◌, refl, Bool, true, false, not, ◌||◌, ◌==◌, some, str_eq, eq_iff, ltb, arith,
}
use staking_farm.Machine.{
  Result, ok, err, bind_ok, assert, expect, mul_u64, must_have_owner, must_be_owner_to_set_owner,
  must_be_owner, must_have_factory, private_method, method_not_payable, burn_fee_not_decreased,
}
use staking_farm.Sdk.{AccountId}
use staking_farm.Env.{Env}
use staking_farm.Ratio.{Ratio, assert_valid}
use staking_farm.Contract.{Sdk, World, schedule}
use staking_farm.Internal.{
  internal_ping, internal_restake, internal_get_owner_id, internal_get_factory_id,
}
use staking_farm.Owner
use staking_farm.Owner.{assert_owner, assert_factory}
use staking_farm.Staking.{restake_if}
use staking_farm.Claims
use staking_farm.Upgrade
use staking_farm.Calls.{Call, execute, transact, dispatch, returning, accepts_deposit, is_private}
use staking_farm.Calls.Call.{
  set_owner_id, update_staking_key, update_reward_fee_fraction, pause_staking, resume_staking,
  add_authorized_user, remove_authorized_user, stop_farm, upgrade,
}

module _ ⦃sdk : Sdk⦄ where
  -- The calls that only the owner may make.
  unfoldable pub is_for_owner : Call → Bool
  is_for_owner (set_owner_id _) = true
  is_for_owner (update_staking_key _) = true
  is_for_owner (update_reward_fee_fraction _) = true
  is_for_owner pause_staking = true
  is_for_owner resume_staking = true
  is_for_owner (add_authorized_user _) = true
  is_for_owner (remove_authorized_user _) = true
  is_for_owner (stop_farm _) = true
  is_for_owner (upgrade _) = true
  is_for_owner _ = false

  -- A test of the caller against the owner that succeeds shows the caller to be the owner.
  caller_is_owner :
      (e : Env) (w : World) (owner_id : AccountId) {u : Unit {0}}
      → w.owner ≡ some owner_id
      → assert_owner e w ≡ ok u
      → str_eq e.predecessor_account_id owner_id ≡ true
  unfolding assert_owner
  caller_is_owner e w owner_id h p = ground (arith, h, p)

  succeeds_for_owner :
      (e : Env) (w : World) (owner_id : AccountId) (call : Call) (w' : World)
      → w.owner ≡ some owner_id
      → is_for_owner call ≡ true
      → dispatch e w call ≡ ok w'
      → str_eq e.predecessor_account_id owner_id ≡ true
  unfolding is_for_owner dispatch returning Claims.stop_farm Owner.update_staking_key
      Owner.update_reward_fee_fraction Owner.pause_staking Owner.resume_staking
      Owner.add_authorized_user Owner.remove_authorized_user Owner.set_owner_id
      Owner.internal_set_owner Upgrade.upgrade internal_get_owner_id internal_get_factory_id
  succeeds_for_owner e w o (set_owner_id id) w' h t r =
      bind_ok (expect w.owner must_have_owner) _ r λ prev p r.
        bind_ok (assert (str_eq prev e.predecessor_account_id) must_be_owner_to_set_owner) _ r
          λ _ q r.
            let same : prev ≡ o = ground (arith, h, p) in
            ground (
              arith,
              q,
              same,
              eq_iff prev e.predecessor_account_id,
              eq_iff e.predecessor_account_id o,
            )
  succeeds_for_owner e w o (update_staking_key k) w' h t r =
      bind_ok (assert_owner e w) _ r λ _ p r. caller_is_owner e w o h p
  succeeds_for_owner e w o (update_reward_fee_fraction f) w' h t r =
      bind_ok (assert_owner e w) _ r λ _ p r. caller_is_owner e w o h p
  succeeds_for_owner e w o pause_staking w' h t r =
      bind_ok (assert_owner e w) _ r λ _ p r. caller_is_owner e w o h p
  succeeds_for_owner e w o resume_staking w' h t r =
      bind_ok (assert_owner e w) _ r λ _ p r. caller_is_owner e w o h p
  succeeds_for_owner e w o (add_authorized_user id) w' h t r =
      bind_ok (assert_owner e w) _ r λ _ p r. caller_is_owner e w o h p
  succeeds_for_owner e w o (remove_authorized_user id) w' h t r =
      bind_ok (assert_owner e w) _ r λ _ p r. caller_is_owner e w o h p
  succeeds_for_owner e w o (stop_farm i) w' h t r =
      bind_ok (Claims.stop_farm e w i) _ r
        λ _ q r. bind_ok (assert_owner e w) _ q λ _ p q. caller_is_owner e w o h p
  succeeds_for_owner e w o (upgrade x) w' h t r =
      bind_ok (internal_get_owner_id w) _ r λ owner_id p r.
        bind_ok (internal_get_factory_id w) _ r λ _ p1 r.
          bind_ok (assert (str_eq e.predecessor_account_id owner_id) must_be_owner) _ r
            λ _ q r. ground (arith, h, p, q)
  succeeds_for_owner e w o _ w' h t r = cc

  factory_calls :
      (e : Env) (w : World) {u : Unit {0}}
      → assert_factory e w ≡ ok u
      → w.factory ≡ some e.predecessor_account_id
  unfolding assert_factory internal_get_factory_id
  factory_calls e w p =
      bind_ok (expect w.factory must_have_factory) _ p
        λ f q p. let same = eq_iff e.predecessor_account_id f in ground (arith, p, q, same)

  smaller :
      (a b c d : ℕ) {x y : ℕ} {u : Unit {0}}
      → mul_u64 a b ≡ ok x
      → mul_u64 c d ≡ ok y
      → assert (ltb x y) burn_fee_not_decreased ≡ ok u
      → a * b < c * d
  unfolding mul_u64
  smaller a b c d p q h = ground arith

  -- A call that is for the owner, made by anyone else, leaves the contract as it was.
  pub owner_calls_refuse_others :
      (e : Env) (w : World) (owner_id : AccountId) (call : Call)
      → w.owner ≡ some owner_id
      → str_eq e.predecessor_account_id owner_id ≡ false
      → is_for_owner call ≡ true
      → transact e w call ≡ w
  unfolding transact execute
  owner_calls_refuse_others e w o call h n t = settled (execute e w call) refl
    where
      settled : (r : Result World) → execute e w call ≡ r → (elim r [ ok w' ↦ w' | err _ ↦ w ]) ≡ w
      settled (err x) q = refl
      settled (ok w') q =
          bind_ok
            (assert (not (is_private call) || str_eq e.predecessor_account_id e.current_account_id)
              private_method)
            _ q
            λ _ p q.
              bind_ok (assert (accepts_deposit call || e.attached_deposit == 0) method_not_payable)
                _ q λ _ p1 q. let allowed = succeeds_for_owner e w o call w' h t q in cc

  -- A call of `decrease_burn_fee_fraction` that succeeds is the factory's, and sets the burn fee to a
  -- valid fraction that is less than the one before.
  pub burn_fee_only_falls :
      (e : Env) (w : World) (r : Ratio) (w' : World)
      → Owner.decrease_burn_fee_fraction e w r ≡ ok w'
      → let old = w.contract.burn_fee_fraction in
        (w.factory ≡ some e.predecessor_account_id)
        × (assert_valid r ≡ ok tt)
        × (r.numerator * old.denominator < r.denominator * old.numerator)
        × (w'.contract.burn_fee_fraction ≡ r)
  unfolding Owner.decrease_burn_fee_fraction restake_if internal_restake schedule
  burn_fee_only_falls e w r w' h =
      let old = w.contract.burn_fee_fraction in
      bind_ok (assert_factory e w) _ h λ _ p h. bind_ok (assert_valid r) _ h λ u p1 h.
        bind_ok (mul_u64 r.numerator old.denominator) _ h λ left p2 h.
          bind_ok (mul_u64 r.denominator old.numerator) _ h λ right p3 h.
            bind_ok (assert (ltb left right) burn_fee_not_decreased) _ h λ _ p4 h.
              bind_ok (internal_ping e w) _ h λ (b, w1) p5 h. (
                factory_calls e w p,
                p1,
                smaller r.numerator old.denominator r.denominator old.numerator p2 p3 p4,
                kept b w1 h,
              )
    where
      kept :
          (b : Bool) (w1 : World)
          → ok (
              restake_if b e
                (record w1 { contract = record w1.contract { burn_fee_fraction = r } }))
            ≡ ok w'
          → w'.contract.burn_fee_fraction ≡ r
      kept b w1 h = ground arith
