-- ===== src/Requests/Staking.antt =====
-- The methods of staking-farm/src/stake.rs keep the request for the stake in step with the pool.
use staking_farm.Prelude.{
  ℕ, ◌≡◌, refl, Bool, false, ltb, Bool-cases, inl, inr, ◌∙◌, ap, ◌≢◌, str_eq,
}
use staking_farm.Machine.{assert, only_as_callback, ok, bind_ok, ok_injective}
use staking_farm.Sdk.{AccountId}
use staking_farm.Env.{Env}
use staking_farm.Contract.{Sdk, StakingContract, World}
use staking_farm.Accounts.{zero_address, internal_get_account, internal_deposit}
use staking_farm.Shares.{staked_amount_from_num_shares_rounded_down}
use staking_farm.Internal.{
  min_burn_amount, internal_withdraw, internal_stake, inner_unstake, internal_ping,
  internal_unstake_all, internal_restake,
}
use staking_farm.Staking.{
  ping, deposit, deposit_and_stake, withdraw_all, withdraw, stake_all, stake, unstake_all, unstake,
  unstake_burn, burn, on_stake_action, stake_action_succeeded,
}
use staking_farm.Requests.{IsInSync, IsIdle-refl, IsIdle-IsInSync}
use staking_farm.Requests.Operations.{
  deposit-SameStaking, withdraw-IsIdle, stake-paused, unstake-paused, contract-IsIdle, after_ping,
  after_ping_restake,
}

module _ ⦃sdk : Sdk⦄ (e : Env) (w w' : World) (sync : IsInSync w) where
  pub ping-IsInSync : ping e w ≡ ok w' → IsInSync w'
  unfolding ping
  ping-IsInSync h =
      bind_ok (internal_ping e w) _ h
        λ (need, w1) p h. rw (← ok_injective h) (after_ping e w w1 need p w1 (IsIdle-refl w1) sync)

  pub deposit-IsInSync : deposit e w ≡ ok w' → IsInSync w'
  unfolding deposit
  deposit-IsInSync h = bind_ok (internal_ping e w) _ h λ (need, w1) p h.
      bind_ok (internal_deposit e w1.contract) _ h λ (amount, c) q h.
        let i = contract-IsIdle w1 c (deposit-SameStaking e w1.contract (amount, c) q) in
        rw (← ok_injective h) (after_ping e w w1 need p (record w1 { contract = c }) i sync)

  -- A new contract that is paused as before has its staked balance asked for anew.
  restaked :
      (need : Bool) (w1 : World) (c : StakingContract)
      → internal_ping e w ≡ ok (need, w1)
      → c.paused ≡ w1.contract.paused
      → IsInSync (internal_restake e (record w1 { contract = c }))
  restaked need w1 c p q =
      after_ping_restake e w w1 need p (record w1 { contract = c })
        (record { requests = refl; paused = q }) sync

  pub stake-IsInSync : (amount : ℕ) → stake e w amount ≡ ok w' → IsInSync w'
  unfolding stake
  stake-IsInSync amount h = bind_ok (internal_ping e w) _ h λ (need, w1) p h.
      bind_ok (internal_stake e w1.contract amount) _ h λ c q h.
        rw (← ok_injective h) (restaked need w1 c p (stake-paused e w1.contract amount c q))

  pub stake_all-IsInSync : stake_all e w ≡ ok w' → IsInSync w'
  unfolding stake_all
  stake_all-IsInSync h = bind_ok (internal_ping e w) _ h λ (need, w1) p h.
      let amount = (internal_get_account w1.contract e.predecessor_account_id).unstaked in
      bind_ok (internal_stake e w1.contract amount) _ h λ c q h.
        rw (← ok_injective h) (restaked need w1 c p (stake-paused e w1.contract amount c q))

  pub deposit_and_stake-IsInSync : deposit_and_stake e w ≡ ok w' → IsInSync w'
  unfolding deposit_and_stake
  deposit_and_stake-IsInSync h = bind_ok (internal_ping e w) _ h λ (need, w1) p h.
      bind_ok (internal_deposit e w1.contract) _ h λ (amount, c) q h.
        bind_ok (internal_stake e c amount) _ h λ c1 q1 h.
          let kept = (deposit-SameStaking e w1.contract (amount, c) q).paused in
          rw (← ok_injective h) (restaked need w1 c1 p (stake-paused e c amount c1 q1 ∙ kept))

  pub unstake-IsInSync : (amount : ℕ) → unstake e w amount ≡ ok w' → IsInSync w'
  unfolding unstake
  unstake-IsInSync amount h = bind_ok (internal_ping e w) _ h λ (need, w1) p h.
      let id = e.predecessor_account_id in
      bind_ok (inner_unstake e w1.contract id amount) _ h λ c q h.
        rw (← ok_injective h) (restaked need w1 c p (unstake-paused e w1.contract id amount c q))

  internal_unstake_all-IsInSync :
      (id : AccountId) → internal_unstake_all e w id ≡ ok w' → IsInSync w'
  unfolding internal_unstake_all
  internal_unstake_all-IsInSync id h = bind_ok (internal_ping e w) _ h λ (need, w1) p h.
      let shares = (internal_get_account w1.contract id).stake_shares in
      bind_ok (staked_amount_from_num_shares_rounded_down w1.contract shares) _ h λ amount _ h.
        bind_ok (inner_unstake e w1.contract id amount) _ h λ c q h.
          rw (← ok_injective h) (restaked need w1 c p (unstake-paused e w1.contract id amount c q))

  pub unstake_all-IsInSync : unstake_all e w ≡ ok w' → IsInSync w'
  unfolding unstake_all
  unstake_all-IsInSync h = internal_unstake_all-IsInSync e.predecessor_account_id h

  pub unstake_burn-IsInSync : unstake_burn e w ≡ ok w' → IsInSync w'
  unfolding unstake_burn
  unstake_burn-IsInSync h = internal_unstake_all-IsInSync zero_address h

  pub withdraw-IsInSync : (amount : ℕ) → withdraw e w amount ≡ ok w' → IsInSync w'
  unfolding withdraw
  withdraw-IsInSync amount h = bind_ok (internal_ping e w) _ h λ (need, w1) p h.
      let id = e.predecessor_account_id in
      bind_ok (internal_withdraw e w1 id amount) _ h λ w2 q h.
        rw (← ok_injective h)
          (after_ping e w w1 need p w2 (withdraw-IsIdle e w1 id amount w2 q) sync)

  pub withdraw_all-IsInSync : withdraw_all e w ≡ ok w' → IsInSync w'
  unfolding withdraw_all
  withdraw_all-IsInSync h = bind_ok (internal_ping e w) _ h λ (need, w1) p h.
      let id = e.predecessor_account_id in
      let amount = (internal_get_account w1.contract id).unstaked in
      bind_ok (internal_withdraw e w1 id amount) _ h λ w2 q h.
        rw (← ok_injective h)
          (after_ping e w w1 need p w2 (withdraw-IsIdle e w1 id amount w2 q) sync)

  pub burn-IsInSync : burn e w ≡ ok w' → IsInSync w'
  unfolding burn
  burn-IsInSync h =
      let amount = (internal_get_account w.contract zero_address).unstaked in
      elim (Bool-cases (ltb min_burn_amount amount)) [
        | inl enough ↦
            IsIdle-IsInSync w w' (withdraw-IsIdle e w zero_address amount w' (rw enough at h)) sync
        | inr little ↦ rw (← ok_injective (rw little at h)) sync
      ]

  -- The callback of a stake action that has not failed asks for nothing.
  pub on_stake_action-IsInSync :
      stake_action_succeeded e.promise_results ≢ ok false
      → on_stake_action e w ≡ ok w'
      → IsInSync w'
  unfolding on_stake_action
  on_stake_action-IsInSync succeeded h =
      bind_ok (assert (str_eq e.current_account_id e.predecessor_account_id) only_as_callback) _ h
        λ _ _ h. bind_ok (stake_action_succeeded e.promise_results) _ h λ b p h.
          elim (Bool-cases b) [
            | inl done ↦ rw (← ok_injective (rw done at h)) sync
            | inr failed ↦ absurd (succeeded (p ∙ ap ok failed))
          ]
