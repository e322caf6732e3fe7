-- ===== src/Requests/Operations.antt =====
-- What the operations of staking-farm/src/internal.rs and farm.rs do to the request for the stake.
use staking_farm.Prelude.{ℕ, ◌≡◌, Bool, false, ap, arith, inl, inr, refl}
use staking_farm.Machine.{ok}
use staking_farm.Sdk.{AccountId}
use staking_farm.Env.{Env}
use staking_farm.Contract.{Sdk, StakingContract, World, promise, Action, schedule}
use staking_farm.Accounts.{internal_get_account, internal_save_account, internal_deposit}
use staking_farm.Rewards.Frame.{distribute_all_frame}
use staking_farm.Internal.{
  internal_restake, internal_withdraw, internal_stake, inner_unstake, internal_ping,
}
use staking_farm.Internal.Outcome.{stake-Staked, unstake-Unstaked}
use staking_farm.Internal.Ping.{ping_cases, NewEpoch-cases}
use staking_farm.Staking.{restake_if}
use staking_farm.Requests.{
  IsInSync, restake_if-IsInSync, restake-IsInSync, request_of, last_request-schedule, SameRequest,
  IsIdle,
}

module _ ⦃sdk : Sdk⦄ where
  -- What `internal_restake` asks for stays the same.
  pub record SameStaking (c c' : StakingContract) : Type 0 where
    pub paused : c'.paused ≡ c.paused
    pub staked : c'.total_staked_balance ≡ c.total_staked_balance
    pub key : c'.stake_public_key ≡ c.stake_public_key

  pub deposit-SameStaking :
      (e : Env) (c : StakingContract) (r : ℕ × StakingContract)
      → internal_deposit e c ≡ ok r
      → SameStaking c r.1
  unfolding internal_deposit internal_save_account
  deposit-SameStaking e c r h = ground arith

  -- A ping asks for nothing; that it has changed nothing is said by its flag.
  pub ping_requests :
      (e : Env) (w : World) (r : Bool × World)
      → internal_ping e w ≡ ok r
      → SameRequest w r.1 × (r.0 ≡ false → r.1 ≡ w)
  ping_requests e w r h = elim (ping_cases e w r h) [
    | inl same ↦ rw same (record { requests = refl; paused = refl }, λ _. refl)
    | inr n ↦
        let kept : n.rewarded.paused ≡ w.contract.paused = elim (NewEpoch-cases e w r n) [
          | inl d ↦ d.paused_eq
          | inr (none_left, same) ↦ ap (λ c. c.paused) same
        ] in
        rw n.result (record { requests = refl; paused = kept }, λ p. cc)
  ]

  pub withdraw-IsIdle :
      (e : Env) (w : World) (id : AccountId) (amount : ℕ) (w' : World)
      → internal_withdraw e w id amount ≡ ok w'
      → IsIdle w w'
  unfolding internal_withdraw internal_save_account request_of schedule
  withdraw-IsIdle e w id amount w' h =
      ground (arith, last_request-schedule w (promise id (Action.transfer amount)))

  pub stake-paused :
      (e : Env) (c : StakingContract) (amount : ℕ) (c' : StakingContract)
      → internal_stake e c amount ≡ ok c'
      → c'.paused ≡ c.paused
  unfolding internal_save_account
  stake-paused e c amount c' h =
      let o = stake-Staked e c amount h in
      let id = e.predecessor_account_id in
      ground
        (arith, o.result, (distribute_all_frame e c (internal_get_account c id) o.rewards).0.paused)

  pub unstake-paused :
      (e : Env) (c : StakingContract) (id : AccountId) (amount : ℕ) (c' : StakingContract)
      → inner_unstake e c id amount ≡ ok c'
      → c'.paused ≡ c.paused
  unfolding internal_save_account
  unstake-paused e c id amount c' h =
      let o = unstake-Unstaked e c id amount h in
      ground
        (arith, o.result, (distribute_all_frame e c (internal_get_account c id) o.rewards).0.paused)

  pub contract-IsIdle :
      (w : World) (c : StakingContract)
      → SameStaking w.contract c
      → IsIdle w (record w { contract = c })
  contract-IsIdle w c s = ground arith

  module _ (e : Env) (w w1 : World) (need : Bool) (pinged : internal_ping e w ≡ ok (need, w1))
      (v : World) where
    -- After a ping and a step that changes nothing that is asked for, it is asked for if the ping
    -- says so.
    pub after_ping : IsIdle w1 v → IsInSync w → IsInSync (restake_if need e v)
    after_ping i h =
        let (same, unchanged) = ping_requests e w (need, w1) pinged in
        restake_if-IsInSync e need w v (ground arith) (λ p. rw (unchanged p) at i) h

    -- After a ping and a step that does not pause, the staked balance is asked for anew.
    pub after_ping_restake : SameRequest w1 v → IsInSync w → IsInSync (internal_restake e v)
    after_ping_restake s h =
        let (same, unchanged) = ping_requests e w (need, w1) pinged in
        restake-IsInSync e w v (ground arith) h
