-- ===== src/Requests/Calls.antt =====
-- Over all calls, the request for the stake stays in step with the pool.
use staking_farm.Prelude.{
  ◌≡◌, ◌≢◌, Bool, true, false, not, ◌&&◌, ◌||◌, none, List, [], ◌∷◌, str_eq, ◌==◌, inl, inr, arith,
}
use staking_farm.Machine.{
  Result, ok, bind_ok, ok_injective, assert, private_method, method_not_payable,
}
use staking_farm.Sdk.{AccountId}
use staking_farm.Env.{Env}
use staking_farm.Ratio.{Ratio}
use staking_farm.Contract.{Sdk, World, Promise, schedule}
use staking_farm.Staking.{stake_action_succeeded}
use staking_farm.Init.{new}
use staking_farm.Claims
use staking_farm.TokenReceiver
use staking_farm.Calls.{
  Call, accepts_deposit, is_private, dispatch, returning, execute, transact, history,
}
use staking_farm.Frame.Calls.{returning_inv, settle}
use staking_farm.Requests.{
  request_of, IsInSync, IsIdle, IsIdle-IsInSync, IsIdle-trans, schedule-IsIdle,
}
use staking_farm.Requests.Staking
use staking_farm.Requests.Farming
use staking_farm.Requests.Administration

-- Whether a callback is told that the stake action has failed.
unfoldable pub told_of_failure : Result Bool → Bool
told_of_failure (ok false) = true
told_of_failure _ = false

not_told : (r : Result Bool) → told_of_failure r ≡ false → r ≢ ok false
unfolding told_of_failure
not_told r h p = ground arith

module _ ⦃sdk : Sdk⦄ where
  -- Whether a call is the callback of a stake action that has failed.
  unfoldable pub is_stake_failure : Env → Call → Bool
  unfolding told_of_failure
  is_stake_failure e Call.on_stake_action =
      told_of_failure (stake_action_succeeded e.promise_results)
  is_stake_failure e _ = false

  unfoldable pub no_stake_failures : List (Env × Call) → Bool
  unfolding is_stake_failure
  no_stake_failures [] = true
  no_stake_failures ((e, call) ∷ calls) = not (is_stake_failure e call) && no_stake_failures calls

  module _ (e : Env) (w : World) (sync : IsInSync w) where
    idle : (w' : World) → IsIdle w w' → IsInSync w'
    idle w' i = IsIdle-IsInSync w w' i sync

    returned :
        (w' : World) (r : Result (Promise × World))
        → ((p : Promise) (w1 : World) → r ≡ ok (p, w1) → (request_of p ≡ none) × IsIdle w w1)
        → returning r ≡ ok w'
        → IsInSync w'
    returned w' r s h =
        let (p, w1, q, scheduled) = returning_inv r h in
        let (asks, i) = s p w1 q in
        rw scheduled
          (idle (schedule w1 p) (IsIdle-trans w w1 (schedule w1 p) i (schedule-IsIdle w1 p asks)))

    dispatch-IsInSync :
        (call : Call) (w' : World)
        → is_stake_failure e call ≡ false
        → dispatch e w call ≡ ok w'
        → IsInSync w'
    unfolding dispatch is_stake_failure
    dispatch-IsInSync Call.ping w' f h = Staking.ping-IsInSync e w w' sync h
    dispatch-IsInSync Call.deposit w' f h = Staking.deposit-IsInSync e w w' sync h
    dispatch-IsInSync Call.deposit_and_stake w' f h =
        Staking.deposit_and_stake-IsInSync e w w' sync h
    dispatch-IsInSync Call.withdraw_all w' f h = Staking.withdraw_all-IsInSync e w w' sync h
    dispatch-IsInSync Call.stake_all w' f h = Staking.stake_all-IsInSync e w w' sync h
    dispatch-IsInSync Call.unstake_all w' f h = Staking.unstake_all-IsInSync e w w' sync h
    dispatch-IsInSync Call.unstake_burn w' f h = Staking.unstake_burn-IsInSync e w w' sync h
    dispatch-IsInSync Call.burn w' f h = Staking.burn-IsInSync e w w' sync h
    dispatch-IsInSync (Call.withdraw n) w' f h = Staking.withdraw-IsInSync e w w' sync n h
    dispatch-IsInSync (Call.stake n) w' f h = Staking.stake-IsInSync e w w' sync n h
    dispatch-IsInSync (Call.unstake n) w' f h = Staking.unstake-IsInSync e w w' sync n h
    dispatch-IsInSync Call.on_stake_action w' f h =
        Staking.on_stake_action-IsInSync e w w' sync
          (not_told (stake_action_succeeded e.promise_results) f) h
    dispatch-IsInSync (Call.claim t d) w' f h =
        returned w' (Claims.claim e w t d) (λ p w1 q. Farming.claim-IsIdle e w w1 t d p q) h
    dispatch-IsInSync (Call.callback_post_get_owner t d a) w' f h =
        returned w' (Claims.callback_post_get_owner e w t d a)
          (λ p w1 q. Farming.callback_post_get_owner-IsIdle e w w1 t d a p q) h
    dispatch-IsInSync (Call.callback_post_withdraw_reward t s n) w' f h =
        idle w' (Farming.callback_post_withdraw_reward-IsIdle e w w' t s n h)
    dispatch-IsInSync (Call.stop_farm i) w' f h =
        returned w' (Claims.stop_farm e w i) (λ p w1 q. Farming.stop_farm-IsIdle e w w1 i p q) h
    dispatch-IsInSync (Call.ft_on_transfer s n m) w' f h =
        bind_ok (TokenReceiver.ft_on_transfer e w s n m) _ h λ (k, w1) p h.
          rw (← ok_injective h) (idle w1 (Farming.ft_on_transfer-IsIdle e w w1 s n k m p))
    dispatch-IsInSync (Call.set_owner_id id) w' f h =
        idle w' (Administration.set_owner_id-IsIdle e w w' id h)
    dispatch-IsInSync (Call.update_staking_key k) w' f h =
        Administration.update_staking_key-IsInSync e w w' sync k h
    dispatch-IsInSync (Call.update_reward_fee_fraction r) w' f h =
        Administration.update_reward_fee_fraction-IsInSync e w w' sync r h
    dispatch-IsInSync (Call.decrease_burn_fee_fraction r) w' f h =
        Administration.decrease_burn_fee_fraction-IsInSync e w w' sync r h
    dispatch-IsInSync Call.pause_staking w' f h =
        Administration.pause_staking-IsInSync e w w' sync h
    dispatch-IsInSync Call.resume_staking w' f h =
        Administration.resume_staking-IsInSync e w w' sync h
    dispatch-IsInSync (Call.add_authorized_user id) w' f h =
        idle w' (Administration.authorized_user-IsIdle e w w' id (inl h))
    dispatch-IsInSync (Call.remove_authorized_user id) w' f h =
        idle w' (Administration.authorized_user-IsIdle e w w' id (inr h))
    dispatch-IsInSync (Call.add_authorized_farm_token id) w' f h =
        idle w' (Administration.authorized_token-IsIdle e w w' id (inl h))
    dispatch-IsInSync (Call.remove_authorized_farm_token id) w' f h =
        idle w' (Administration.authorized_token-IsIdle e w w' id (inr h))
    dispatch-IsInSync (Call.upgrade input) w' f h =
        idle w' (Administration.upgrade-IsIdle e w w' input h)
    dispatch-IsInSync Call.update w' f h = idle w' (Administration.update-IsIdle e w w' h)
    dispatch-IsInSync Call.migrate w' f h = idle w' (Administration.migrate-IsIdle e w w' h)

    execute-IsInSync :
        (call : Call) (w' : World)
        → is_stake_failure e call ≡ false
        → execute e w call ≡ ok w'
        → IsInSync w'
    unfolding execute
    execute-IsInSync call w' f h =
        let caller =
          not (is_private call) || str_eq e.predecessor_account_id e.current_account_id in
        let paid = accepts_deposit call || e.attached_deposit == 0 in
        bind_ok (assert caller private_method) _ h λ _ _ h.
          bind_ok (assert paid method_not_payable) _ h λ _ _ h. dispatch-IsInSync call w' f h

    transact-IsInSync :
        (call : Call) → is_stake_failure e call ≡ false → IsInSync (transact e w call)
    unfolding transact
    transact-IsInSync call f =
        settle IsInSync w (execute e w call) sync (λ v h. execute-IsInSync call v f h)

  history-IsInSync :
      (calls : List (Env × Call)) (w : World)
      → IsInSync w
      → no_stake_failures calls ≡ true
      → IsInSync (history w calls)
  unfolding history no_stake_failures
  history-IsInSync [] w sync none_fail = sync
  history-IsInSync ((e, call) ∷ calls) w sync none_fail =
      history-IsInSync calls (transact e w call)
        (transact-IsInSync e w sync call (ground (arith, none_fail))) (ground (arith, none_fail))

  -- After any calls on a pool that `new` has set up, as long as no callback was told that a stake
  -- action has failed: while the pool is not paused, the last stake action that was scheduled is for
  -- the total staked balance, with the staking key; while it is paused, it is for nothing.
  pub stake_request-IsInSync :
      (e : Env) (owner : AccountId) (key : sdk.PublicKey) (reward burn : Ratio) (w : World)
      → new e owner key reward burn ≡ ok w
      → (calls : List (Env × Call)) → no_stake_failures calls ≡ true
      → IsInSync (history w calls)
  stake_request-IsInSync e owner key reward burn w created calls none_fail =
      history-IsInSync calls w (Administration.new-IsInSync e owner key reward burn w created)
        none_fail
