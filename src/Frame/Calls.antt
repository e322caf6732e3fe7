-- ===== src/Frame/Calls.antt =====
-- Every call keeps what the operations keep.
use staking_farm.Prelude.{List, [], ◌∷◌, ℕ, ◌≡◌, refl, arith, inl, inr, not, ◌||◌, str_eq, ◌==◌}
use staking_farm.Machine.{
  ok_injective, Result, ok, err, bind_ok, assert, private_method, method_not_payable,
}
use staking_farm.Env.{Env}
use staking_farm.Contract.{Sdk, StakingContract, World, Promise, schedule}
use staking_farm.Claims
use staking_farm.TokenReceiver
use staking_farm.Calls.{
  Call, accepts_deposit, is_private, dispatch, returning, execute, transact, history,
}
use staking_farm.Frame.{Rules}
use staking_farm.Frame.Staking
use staking_farm.Frame.Farming
use staking_farm.Frame.Administration

module _ ⦃sdk : Sdk⦄ where
  pub returning_inv :
      (r : Result (Promise × World)) {w' : World}
      → returning r ≡ ok w'
      → (p : Promise) × (w1 : World) × (r ≡ ok (p, w1)) × (w' ≡ schedule w1 p)
  unfolding returning
  returning_inv (ok (p, w1)) h = (p, w1, refl, ground arith)
  returning_inv (err x) h = cc

  -- What every step from `w` keeps is kept by the call that makes it, whether it panics or not.
  pub settle {ℓ} :
      (P : World → Type ℓ) (w : World) (r : Result World)
      → P w
      → ((v : World) → r ≡ ok v → P v)
      → P (elim r as (λ _. World) [ ok v ↦ v | err _ ↦ w ])
  settle P w (ok v) same changed = changed v refl
  settle P w (err _) same changed = same

  module _ {R : ℕ → StakingContract → StakingContract → Type 0} (e : Env) (w : World)
      (rules : Rules e w R) where
    relaxed : (w' : World) → R 0 w.contract w'.contract → R 1 w.contract w'.contract
    relaxed w' s =
        rules.chain 1 0 0 w.contract w'.contract w'.contract (omega arith) s
          (rules.unchanged w'.contract w'.contract (ground arith))

    returned :
        (w' : World) (r : Result (Promise × World))
        → ((p : Promise) (w1 : World) → r ≡ ok (p, w1) → R 0 w.contract w1.contract)
        → returning r ≡ ok w'
        → R 1 w.contract w'.contract
    unfolding schedule
    returned w' r s h = let (p, w1, e, q) = returning_inv r h in rw q (relaxed w1 (s p w1 e))

    dispatch-Kept :
        (call : Call) (w' : World) → dispatch e w call ≡ ok w' → R 1 w.contract w'.contract
    unfolding dispatch
    dispatch-Kept Call.ping w' h = relaxed w' (Staking.ping-Kept e w rules w' h)
    dispatch-Kept Call.deposit w' h = relaxed w' (Staking.deposit-Kept e w rules w' h)
    dispatch-Kept Call.deposit_and_stake w' h = Staking.deposit_and_stake-Kept e w rules w' h
    dispatch-Kept Call.withdraw_all w' h = relaxed w' (Staking.withdraw_all-Kept e w rules w' h)
    dispatch-Kept Call.stake_all w' h = Staking.stake_all-Kept e w rules w' h
    dispatch-Kept Call.unstake_all w' h = Staking.unstake_all-Kept e w rules w' h
    dispatch-Kept Call.unstake_burn w' h = Staking.unstake_burn-Kept e w rules w' h
    dispatch-Kept Call.burn w' h = relaxed w' (Staking.burn-Kept e w rules w' h)
    dispatch-Kept (Call.withdraw n) w' h = relaxed w' (Staking.withdraw-Kept e w rules w' n h)
    dispatch-Kept (Call.stake n) w' h = Staking.stake-Kept e w rules w' n h
    dispatch-Kept (Call.unstake n) w' h = Staking.unstake-Kept e w rules w' n h
    dispatch-Kept Call.on_stake_action w' h =
        relaxed w' (Staking.on_stake_action-Kept e w rules w' h)
    dispatch-Kept (Call.claim t d) w' h =
        returned w' (Claims.claim e w t d) (λ p w1 q. Farming.claim-Kept e w rules w1 t d p q) h
    dispatch-Kept (Call.callback_post_get_owner t d a) w' h =
        returned w' (Claims.callback_post_get_owner e w t d a)
          (λ p w1 q. Farming.callback_post_get_owner-Kept e w rules w1 t d a p q) h
    dispatch-Kept (Call.callback_post_withdraw_reward t s n) w' h =
        relaxed w' (Farming.callback_post_withdraw_reward-Kept e w rules w' t s n h)
    dispatch-Kept (Call.stop_farm i) w' h =
        returned w' (Claims.stop_farm e w i) (λ p w1 q. Farming.stop_farm-Kept e w rules w1 i p q) h
    dispatch-Kept (Call.ft_on_transfer s n m) w' h =
        bind_ok (TokenReceiver.ft_on_transfer e w s n m) _ h λ (k, w1) p h.
          let t = relaxed w1 (Farming.ft_on_transfer-Kept e w rules w1 s n k m p) in
          rw (← ok_injective h) t
    dispatch-Kept (Call.set_owner_id id) w' h =
        relaxed w' (Administration.set_owner_id-Kept e w rules w' id h)
    dispatch-Kept (Call.update_staking_key k) w' h =
        relaxed w' (Administration.update_staking_key-Kept e w rules w' k h)
    dispatch-Kept (Call.update_reward_fee_fraction r) w' h =
        relaxed w' (Administration.update_reward_fee_fraction-Kept e w rules w' r h)
    dispatch-Kept (Call.decrease_burn_fee_fraction r) w' h =
        relaxed w' (Administration.decrease_burn_fee_fraction-Kept e w rules w' r h)
    dispatch-Kept Call.pause_staking w' h =
        relaxed w' (Administration.pause_staking-Kept e w rules w' h)
    dispatch-Kept Call.resume_staking w' h =
        relaxed w' (Administration.resume_staking-Kept e w rules w' h)
    dispatch-Kept (Call.add_authorized_user id) w' h =
        relaxed w' (Administration.authorized_user-Kept e w rules w' id (inl h))
    dispatch-Kept (Call.remove_authorized_user id) w' h =
        relaxed w' (Administration.authorized_user-Kept e w rules w' id (inr h))
    dispatch-Kept (Call.add_authorized_farm_token id) w' h =
        relaxed w' (Administration.authorized_token-Kept e w rules w' id (inl h))
    dispatch-Kept (Call.remove_authorized_farm_token id) w' h =
        relaxed w' (Administration.authorized_token-Kept e w rules w' id (inr h))
    dispatch-Kept (Call.upgrade input) w' h =
        relaxed w' (Administration.upgrade-Kept e w rules w' input h)
    dispatch-Kept Call.update w' h = relaxed w' (Administration.update-Kept e w rules w' h)
    dispatch-Kept Call.migrate w' h = relaxed w' (Administration.migrate-Kept e w rules w' h)

    execute-Kept :
        (call : Call) (w' : World) → execute e w call ≡ ok w' → R 1 w.contract w'.contract
    unfolding execute
    execute-Kept call w' h =
        let caller =
          not (is_private call) || str_eq e.predecessor_account_id e.current_account_id in
        let paid = accepts_deposit call || e.attached_deposit == 0 in
        bind_ok (assert caller private_method) _ h
          λ _ _ h. bind_ok (assert paid method_not_payable) _ h λ _ _ h. dispatch-Kept call w' h

    -- A call keeps what the operations keep, with one stake or unstake at most.
    pub transact-Kept : (call : Call) → R 1 w.contract (transact e w call).contract
    unfolding transact
    transact-Kept call =
        settle (λ v. R 1 w.contract v.contract) w (execute e w call)
          (relaxed w (rules.unchanged w.contract w.contract (ground arith)))
          (λ v h. execute-Kept call v h)

  -- What the operations keep in every call holds after any sequence of calls.
  pub history-Kept :
      (P : StakingContract → Type 0)
      → ((e : Env) (w : World) → Rules e w (λ _ c c'. P c → P c'))
      → (calls : List (Env × Call)) (w : World) → P w.contract
      → P (history w calls).contract
  unfolding history
  history-Kept P rules [] w p = p
  history-Kept P rules ((e, call) ∷ calls) w p =
      let w1 = transact e w call in
      history-Kept P rules calls w1 (transact-Kept e w (rules e w) call p)
