-- ===== src/Requests/Administration.antt =====
-- The methods of staking-farm/src/owner.rs, and `new` of lib.rs, keep the request for the stake in
-- step with the pool.
use staking_farm.Prelude.{str_eq, ◌≡◌, refl, ◌⊎◌, true, not, String, ltb, arith, ◌==◌, ap}
use staking_farm.Prelude.Classes.{string_key}
use staking_farm.Machine.{
  ok_injective, ok, bind_ok, assert, expect, sub, mul_u64, already_paused, not_paused,
  must_have_owner, must_have_factory, burn_fee_not_decreased, already_initialized, invalid_owner_id,
  pool_already_staking, must_be_owner, must_be_self,
}
use staking_farm.Sdk.{AccountId}
use staking_farm.Env.{Env}
use staking_farm.Ratio.{Ratio, assert_valid}
use staking_farm.RewardFee.{set}
use staking_farm.Contract.{Sdk, World, Action, promise}
use staking_farm.Internal.{internal_ping}
use staking_farm.Owner.{
  assert_owner, assert_factory, set_owner_id, update_staking_key, update_reward_fee_fraction,
  decrease_burn_fee_fraction, pause_staking, resume_staking, add_authorized_user,
  remove_authorized_user, add_authorized_farm_token, remove_authorized_farm_token,
}
use staking_farm.Init.{new, stake_share_price_guarantee_fund}
use staking_farm.Upgrade.{
  get_code_gas, upgrade_gas_leftover, update_gas_leftover, fetched_code, upgrade, update, migrate,
}
use staking_farm.Requests.{
  request_of, amount_of, last_request-schedule, IsInSync, IsIdle, restake_anew, schedule-IsIdle,
}
use staking_farm.Requests.Operations.{contract-IsIdle, after_ping, after_ping_restake}

module _ ⦃sdk : Sdk⦄ where
  -- A pool that `new` has set up asks for its initial stake.
  pub new-IsInSync :
      (e : Env) (owner : AccountId) (key : sdk.PublicKey) (reward burn : Ratio) (w : World)
      → new e owner key reward burn ≡ ok w
      → IsInSync w
  unfolding new
  new-IsInSync e owner key reward burn w h =
      bind_ok (assert (not e.state_exists) already_initialized) _ h λ _ _ h.
        bind_ok (assert_valid reward) _ h λ _ _ h.
          bind_ok (assert (sdk.is_valid_account_id owner) invalid_owner_id) _ h λ _ _ h.
            bind_ok (sub e.account_balance stake_share_price_guarantee_fund) _ h λ staked _ h.
              bind_ok (assert (e.account_locked_balance == 0) pool_already_staking) _ h
                λ _ _ h. rw (← ok_injective h) (restake_anew e _ refl)

  module _ (e : Env) (w w' : World) (sync : IsInSync w) where
    pub update_staking_key-IsInSync :
        (key : sdk.PublicKey) → update_staking_key e w key ≡ ok w' → IsInSync w'
    unfolding update_staking_key
    update_staking_key-IsInSync key h = bind_ok (assert_owner e w) _ h λ _ _ h.
        bind_ok (internal_ping e w) _ h λ (need, w1) p h. rw (← ok_injective h) (
          after_ping_restake e w w1 need p
            (record w1 { contract = record w1.contract { stake_public_key = key } })
            (record { requests = refl; paused = refl }) sync)

    pub update_reward_fee_fraction-IsInSync :
        (r : Ratio) → update_reward_fee_fraction e w r ≡ ok w' → IsInSync w'
    unfolding update_reward_fee_fraction
    update_reward_fee_fraction-IsInSync r h = bind_ok (assert_owner e w) _ h λ _ _ h.
        bind_ok (assert_valid r) _ h λ _ _ h. bind_ok (internal_ping e w) _ h λ (need, w1) p h.
          bind_ok (set e.epoch_height w1.contract.reward_fee_fraction r) _ h λ fee _ h.
            let c = record w1.contract { reward_fee_fraction = fee } in
            rw (← ok_injective h) (
              after_ping e w w1 need p (record w1 { contract = c })
                (contract-IsIdle w1 c (record { paused = refl; staked = refl; key = refl })) sync)

    pub decrease_burn_fee_fraction-IsInSync :
        (r : Ratio) → decrease_burn_fee_fraction e w r ≡ ok w' → IsInSync w'
    unfolding decrease_burn_fee_fraction
    decrease_burn_fee_fraction-IsInSync r h =
        let old = w.contract.burn_fee_fraction in
        bind_ok (assert_factory e w) _ h λ _ _ h. bind_ok (assert_valid r) _ h λ _ _ h.
          bind_ok (mul_u64 r.numerator old.denominator) _ h λ left _ h.
            bind_ok (mul_u64 r.denominator old.numerator) _ h λ right _ h.
              bind_ok (assert (ltb left right) burn_fee_not_decreased) _ h λ _ _ h.
                bind_ok (internal_ping e w) _ h λ (need, w1) p h.
                  let c = record w1.contract { burn_fee_fraction = r } in
                  rw (← ok_injective h) (
                    after_ping e w w1 need p (record w1 { contract = c })
                      (contract-IsIdle w1 c (record { paused = refl; staked = refl; key = refl }))
                      sync)

    -- While the pool is paused, nothing is staked.
    pub pause_staking-IsInSync : pause_staking e w ≡ ok w' → IsInSync w'
    unfolding pause_staking request_of
    pause_staking-IsInSync h = bind_ok (assert_owner e w) _ h λ _ _ h.
        bind_ok (assert (not w.contract.paused) already_paused) _ h λ _ _ h.
          bind_ok (internal_ping e w) _ h λ (need, w1) p h.
            let w2 = record w1 { contract = record w1.contract { paused = true } } in
            let zero_stake =
              promise e.current_account_id (Action.stake 0 w1.contract.stake_public_key) in
            rw (← ok_injective h) (ap amount_of (last_request-schedule w2 zero_stake))

    pub resume_staking-IsInSync : resume_staking e w ≡ ok w' → IsInSync w'
    unfolding resume_staking
    resume_staking-IsInSync h = bind_ok (assert_owner e w) _ h λ _ _ h.
        bind_ok (assert w.contract.paused not_paused) _ h λ _ _ h.
          bind_ok (internal_ping e w) _ h
            λ (need, w1) p h. rw (← ok_injective h) (restake_anew e _ refl)

  module _ (e : Env) (w w' : World) where
    pub set_owner_id-IsIdle : (id : AccountId) → set_owner_id e w id ≡ ok w' → IsIdle w w'
    unfolding set_owner_id
    set_owner_id-IsIdle id h = ground arith

    pub authorized_user-IsIdle :
        (id : AccountId)
        → (add_authorized_user e w id ≡ ok w') ⊎ (remove_authorized_user e w id ≡ ok w')
        → IsIdle w w'
    unfolding add_authorized_user remove_authorized_user
    authorized_user-IsIdle id h = ground arith

    pub authorized_token-IsIdle :
        (id : AccountId)
        → (add_authorized_farm_token e w id ≡ ok w') ⊎ (remove_authorized_farm_token e w id ≡ ok w')
        → IsIdle w w'
    unfolding add_authorized_farm_token remove_authorized_farm_token
    authorized_token-IsIdle id h = ground arith

    pub upgrade-IsIdle : (input : String) → upgrade e w input ≡ ok w' → IsIdle w w'
    unfolding upgrade request_of
    upgrade-IsIdle input h = bind_ok (expect w.owner must_have_owner) _ h λ owner_id _ h.
        bind_ok (expect w.factory must_have_factory) _ h λ factory_id _ h.
          bind_ok (assert (str_eq e.predecessor_account_id owner_id) must_be_owner) _ h λ _ _ h.
            bind_ok (sub e.prepaid_gas e.used_gas) _ h λ unused _ h.
              bind_ok (sub unused get_code_gas) _ h λ rest _ h.
                bind_ok (sub rest upgrade_gas_leftover) _ h
                  λ gas _ h. rw (← ok_injective h) (schedule-IsIdle w _ refl)

    pub update-IsIdle : update e w ≡ ok w' → IsIdle w w'
    unfolding update request_of
    update-IsIdle h =
        bind_ok (assert (str_eq e.predecessor_account_id e.current_account_id) must_be_self) _ h
          λ _ _ h. bind_ok (fetched_code e.promise_results) _ h λ code _ h.
            bind_ok (sub e.prepaid_gas e.used_gas) _ h λ unused _ h.
              bind_ok (sub unused update_gas_leftover) _ h
                λ gas _ h. rw (← ok_injective h) (schedule-IsIdle w _ refl)

    pub migrate-IsIdle : migrate e w ≡ ok w' → IsIdle w w'
    unfolding migrate
    migrate-IsIdle h = ground arith
