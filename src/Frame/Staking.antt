-- ===== src/Frame/Staking.antt =====
-- The methods of staking-farm/src/stake.rs keep what the operations keep.
use staking_farm.Prelude.{ℕ, ◌≡◌, refl, Bool, true, false, ltb, arith, Bool-cases, inl, inr}
use staking_farm.Machine.{ok, bind_ok, ok_injective}
use staking_farm.Sdk.{AccountId}
use staking_farm.Env.{Env}
use staking_farm.Contract.{Sdk, StakingContract, World}
use staking_farm.Accounts.{zero_address, internal_get_account, internal_deposit}
use staking_farm.Shares.{staked_amount_from_num_shares_rounded_down}
use staking_farm.Internal.{
  min_burn_amount, internal_restake, internal_withdraw, internal_stake, inner_unstake,
  internal_ping, internal_unstake_all,
}
use staking_farm.Staking.{
  restake_if, ping, deposit, deposit_and_stake, withdraw_all, withdraw, stake_all, stake,
  unstake_all, unstake, unstake_burn, burn, on_stake_action,
}
use staking_farm.Frame.{IsActor, Rules}

module _ ⦃sdk : Sdk⦄ where
  pub contract-restake : (e : Env) (w : World) → (internal_restake e w).contract ≡ w.contract
  unfolding internal_restake
  contract-restake e w = ground arith

  pub contract-restake_if :
      (b : Bool) (e : Env) (w : World) → (restake_if b e w).contract ≡ w.contract
  unfolding restake_if
  contract-restake_if true e w = contract-restake e w
  contract-restake_if false e w = refl

  pub restaked :
      (R : ℕ → StakingContract → StakingContract → Type 0) (k : ℕ) (c : StakingContract) (e : Env)
      (w w' : World)
      → R k c w.contract
      → internal_restake e w ≡ w'
      → R k c w'.contract
  restaked R k c e w w' s p = rw (← p, contract-restake e w) s

  pub restaked_if :
      (R : ℕ → StakingContract → StakingContract → Type 0) (k : ℕ) (b : Bool) (c : StakingContract)
      (e : Env) (w w' : World)
      → R k c w.contract
      → restake_if b e w ≡ w'
      → R k c w'.contract
  restaked_if R k b c e w w' s p = rw (← p, contract-restake_if b e w) s

  module _ {R : ℕ → StakingContract → StakingContract → Type 0} where
    module _ (e : Env) (w : World) (rules : Rules e w R) where
      -- After the ping, a step is related to the contract from before it.
      after_ping :
          (k : ℕ) (r : Bool × World) (c : StakingContract)
          → internal_ping e w ≡ ok r
          → R k r.1.contract c
          → R k w.contract c
      after_ping k r c p s =
          rules.chain k 0 k w.contract r.1.contract c (omega arith) (rules.pinged r p) s

      module _ (w' : World) where
        pub ping-Kept : ping e w ≡ ok w' → R 0 w.contract w'.contract
        unfolding ping
        ping-Kept h = bind_ok (internal_ping e w) _ h λ (need, w1) p h.
            restaked_if R 0 need w.contract e w1 w' (rules.pinged (need, w1) p) (ok_injective h)

        pub deposit-Kept : deposit e w ≡ ok w' → R 0 w.contract w'.contract
        unfolding deposit
        deposit-Kept h = bind_ok (internal_ping e w) _ h λ (need, w1) p h.
            bind_ok (internal_deposit e w1.contract) _ h λ (amount, c) q h.
              restaked_if R 0 need w.contract e (record w1 { contract = c }) w'
                (after_ping 0 (need, w1) c p (rules.deposited w1.contract (amount, c) q))
                (ok_injective h)

        pub stake-Kept : (amount : ℕ) → stake e w amount ≡ ok w' → R 1 w.contract w'.contract
        unfolding stake
        stake-Kept amount h = bind_ok (internal_ping e w) _ h λ (need, w1) p h.
            bind_ok (internal_stake e w1.contract amount) _ h λ c q h.
              restaked R 1 w.contract e (record w1 { contract = c }) w'
                (after_ping 1 (need, w1) c p (rules.staked w1.contract amount c q)) (ok_injective h)

        pub stake_all-Kept : stake_all e w ≡ ok w' → R 1 w.contract w'.contract
        unfolding stake_all
        stake_all-Kept h = bind_ok (internal_ping e w) _ h λ (need, w1) p h.
            let amount = (internal_get_account w1.contract e.predecessor_account_id).unstaked in
            bind_ok (internal_stake e w1.contract amount) _ h λ c q h.
              restaked R 1 w.contract e (record w1 { contract = c }) w'
                (after_ping 1 (need, w1) c p (rules.staked w1.contract amount c q)) (ok_injective h)

        pub deposit_and_stake-Kept : deposit_and_stake e w ≡ ok w' → R 1 w.contract w'.contract
        unfolding deposit_and_stake
        deposit_and_stake-Kept h = bind_ok (internal_ping e w) _ h λ (need, w1) p h.
            bind_ok (internal_deposit e w1.contract) _ h λ (amount, c) q h.
              bind_ok (internal_stake e c amount) _ h λ c1 q1 h.
                let deposited = rules.deposited w1.contract (amount, c) q in
                restaked R 1 w.contract e (record w1 { contract = c1 }) w'
                  (after_ping 1 (need, w1) c1 p
                    (rules.chain 1 0 1 w1.contract c c1 (omega arith) deposited
                      (rules.staked c amount c1 q1)))
                  (ok_injective h)

        pub unstake-Kept : (amount : ℕ) → unstake e w amount ≡ ok w' → R 1 w.contract w'.contract
        unfolding unstake
        unstake-Kept amount h = bind_ok (internal_ping e w) _ h λ (need, w1) p h.
            let id = e.predecessor_account_id in
            bind_ok (inner_unstake e w1.contract id amount) _ h λ c q h.
              restaked R 1 w.contract e (record w1 { contract = c }) w'
                (after_ping 1 (need, w1) c p (rules.unstaked w1.contract id amount c (inl refl) q))
                (ok_injective h)

        pub internal_unstake_all-Kept :
            (id : AccountId)
            → IsActor e id
            → internal_unstake_all e w id ≡ ok w'
            → R 1 w.contract w'.contract
        unfolding internal_unstake_all
        internal_unstake_all-Kept id actor h = bind_ok (internal_ping e w) _ h λ (need, w1) p h.
            let shares = (internal_get_account w1.contract id).stake_shares in
            bind_ok (staked_amount_from_num_shares_rounded_down w1.contract shares) _ h
              λ amount _ h. bind_ok (inner_unstake e w1.contract id amount) _ h λ c q h.
                restaked R 1 w.contract e (record w1 { contract = c }) w'
                  (after_ping 1 (need, w1) c p (rules.unstaked w1.contract id amount c actor q))
                  (ok_injective h)

        pub unstake_all-Kept : unstake_all e w ≡ ok w' → R 1 w.contract w'.contract
        unfolding unstake_all
        unstake_all-Kept h = internal_unstake_all-Kept e.predecessor_account_id (inl refl) h

        pub unstake_burn-Kept : unstake_burn e w ≡ ok w' → R 1 w.contract w'.contract
        unfolding unstake_burn
        unstake_burn-Kept h = internal_unstake_all-Kept zero_address (inr refl) h

        pub withdraw-Kept : (amount : ℕ) → withdraw e w amount ≡ ok w' → R 0 w.contract w'.contract
        unfolding withdraw
        withdraw-Kept amount h = bind_ok (internal_ping e w) _ h λ (need, w1) p h.
            let id = e.predecessor_account_id in
            bind_ok (internal_withdraw e w1 id amount) _ h λ w2 q h.
              restaked_if R 0 need w.contract e w2 w'
                (after_ping 0 (need, w1) w2.contract p
                  (rules.withdrawn w1 id amount w2 (inl refl) q))
                (ok_injective h)

        pub withdraw_all-Kept : withdraw_all e w ≡ ok w' → R 0 w.contract w'.contract
        unfolding withdraw_all
        withdraw_all-Kept h = bind_ok (internal_ping e w) _ h λ (need, w1) p h.
            let id = e.predecessor_account_id in
            let amount = (internal_get_account w1.contract id).unstaked in
            bind_ok (internal_withdraw e w1 id amount) _ h λ w2 q h.
              restaked_if R 0 need w.contract e w2 w'
                (after_ping 0 (need, w1) w2.contract p
                  (rules.withdrawn w1 id amount w2 (inl refl) q))
                (ok_injective h)

        pub burn-Kept : burn e w ≡ ok w' → R 0 w.contract w'.contract
        unfolding burn
        burn-Kept h =
            let amount = (internal_get_account w.contract zero_address).unstaked in
            elim (Bool-cases (ltb min_burn_amount amount)) [
              | inl enough ↦ rules.withdrawn w zero_address amount w' (inr refl) (rw enough at h)
              | inr little ↦
                  rw (← ok_injective (rw little at h))
                    (rules.unchanged w.contract w.contract (ground arith))
            ]

        pub on_stake_action-Kept : on_stake_action e w ≡ ok w' → R 0 w.contract w'.contract
        unfolding on_stake_action
        on_stake_action-Kept h = rules.unchanged w.contract w'.contract (ground arith)
