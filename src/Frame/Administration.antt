-- ===== src/Frame/Administration.antt =====
-- The methods of staking-farm/src/owner.rs keep what the operations keep.
use staking_farm.Prelude.{ℕ, Bool, ◌≡◌, ◌⊎◌, false, not, String, ltb, arith}
use staking_farm.Prelude.Classes.{string_key}
use staking_farm.Machine.{
  ok_injective, ok, bind_ok, assert, mul_u64, already_paused, not_paused, burn_fee_not_decreased,
}
use staking_farm.Sdk.{AccountId}
use staking_farm.Env.{Env}
use staking_farm.Ratio.{Ratio, assert_valid}
use staking_farm.RewardFee.{set}
use staking_farm.Contract.{Sdk, StakingContract, World}
use staking_farm.Internal.{internal_ping}
use staking_farm.Owner.{
  assert_owner, assert_factory, set_owner_id, update_staking_key, update_reward_fee_fraction,
  decrease_burn_fee_fraction, pause_staking, resume_staking, add_authorized_user,
  remove_authorized_user, add_authorized_farm_token, remove_authorized_farm_token,
}
use staking_farm.Upgrade.{upgrade, update, migrate}
use staking_farm.Frame.{SameBooks, Rules}
use staking_farm.Frame.Staking.{restaked, restaked_if}

module _ ⦃sdk : Sdk⦄ where
  module _ {R : ℕ → StakingContract → StakingContract → Type 0} (e : Env) (w : World)
      (rules : Rules e w R) where
    -- A change of what the books do not hold, after the ping.
    renewed :
        (r : Bool × World) {c : StakingContract}
        → internal_ping e w ≡ ok r
        → SameBooks r.1.contract c
        → R 0 w.contract c
    renewed r {c} p b =
        rules.chain 0 0 0 w.contract r.1.contract c (omega arith) (rules.pinged r p)
          (rules.unchanged r.1.contract c b)

    module _ (w' : World) where
      pub update_staking_key-Kept :
          (key : sdk.PublicKey) → update_staking_key e w key ≡ ok w' → R 0 w.contract w'.contract
      unfolding update_staking_key
      update_staking_key-Kept key h = bind_ok (assert_owner e w) _ h λ _ _ h.
          bind_ok (internal_ping e w) _ h λ (need, w1) p h.
            restaked R 0 w.contract e
              (record w1 { contract = record w1.contract { stake_public_key = key } }) w'
              (renewed (need, w1) p (ground arith)) (ok_injective h)

      pub update_reward_fee_fraction-Kept :
          (r : Ratio) → update_reward_fee_fraction e w r ≡ ok w' → R 0 w.contract w'.contract
      unfolding update_reward_fee_fraction
      update_reward_fee_fraction-Kept r h = bind_ok (assert_owner e w) _ h λ _ _ h.
          bind_ok (assert_valid r) _ h λ _ _ h. bind_ok (internal_ping e w) _ h λ (need, w1) p h.
            bind_ok (set e.epoch_height w1.contract.reward_fee_fraction r) _ h λ fee _ h.
              restaked_if R 0 need w.contract e
                (record w1 { contract = record w1.contract { reward_fee_fraction = fee } }) w'
                (renewed (need, w1) p (ground arith)) (ok_injective h)

      pub decrease_burn_fee_fraction-Kept :
          (r : Ratio) → decrease_burn_fee_fraction e w r ≡ ok w' → R 0 w.contract w'.contract
      unfolding decrease_burn_fee_fraction
      decrease_burn_fee_fraction-Kept r h =
          let old = w.contract.burn_fee_fraction in
          bind_ok (assert_factory e w) _ h λ _ _ h. bind_ok (assert_valid r) _ h λ _ _ h.
            bind_ok (mul_u64 r.numerator old.denominator) _ h λ left _ h.
              bind_ok (mul_u64 r.denominator old.numerator) _ h λ right _ h.
                bind_ok (assert (ltb left right) burn_fee_not_decreased) _ h λ _ _ h.
                  bind_ok (internal_ping e w) _ h λ (need, w1) p h.
                    restaked_if R 0 need w.contract e
                      (record w1 { contract = record w1.contract { burn_fee_fraction = r } }) w'
                      (renewed (need, w1) p (ground arith)) (ok_injective h)

      pub pause_staking-Kept : pause_staking e w ≡ ok w' → R 0 w.contract w'.contract
      unfolding pause_staking
      pause_staking-Kept h = bind_ok (assert_owner e w) _ h λ _ _ h.
          bind_ok (assert (not w.contract.paused) already_paused) _ h λ _ _ h.
            bind_ok (internal_ping e w) _ h
              λ (need, w1) p h. rw (← ok_injective h) (renewed (need, w1) p (ground arith))

      pub resume_staking-Kept : resume_staking e w ≡ ok w' → R 0 w.contract w'.contract
      unfolding resume_staking
      resume_staking-Kept h = bind_ok (assert_owner e w) _ h λ _ _ h.
          bind_ok (assert w.contract.paused not_paused) _ h λ _ _ h.
            bind_ok (internal_ping e w) _ h λ (need, w1) p h.
              restaked R 0 w.contract e
                (record w1 { contract = record w1.contract { paused = false } }) w'
                (renewed (need, w1) p (ground arith)) (ok_injective h)

      pub set_owner_id-Kept :
          (id : AccountId) → set_owner_id e w id ≡ ok w' → R 0 w.contract w'.contract
      unfolding set_owner_id
      set_owner_id-Kept id h = rules.unchanged w.contract w'.contract (ground arith)

      pub authorized_user-Kept :
          (id : AccountId)
          → (add_authorized_user e w id ≡ ok w') ⊎ (remove_authorized_user e w id ≡ ok w')
          → R 0 w.contract w'.contract
      unfolding add_authorized_user remove_authorized_user
      authorized_user-Kept id h = rules.unchanged w.contract w'.contract (ground arith)

      pub authorized_token-Kept :
          (id : AccountId)
          → (add_authorized_farm_token e w id ≡ ok w')
            ⊎ (remove_authorized_farm_token e w id ≡ ok w')
          → R 0 w.contract w'.contract
      unfolding add_authorized_farm_token remove_authorized_farm_token
      authorized_token-Kept id h = rules.unchanged w.contract w'.contract (ground arith)

      pub upgrade-Kept : (input : String) → upgrade e w input ≡ ok w' → R 0 w.contract w'.contract
      unfolding upgrade
      upgrade-Kept input h = rules.unchanged w.contract w'.contract (ground arith)

      pub update-Kept : update e w ≡ ok w' → R 0 w.contract w'.contract
      unfolding update
      update-Kept h = rules.unchanged w.contract w'.contract (ground arith)

      pub migrate-Kept : migrate e w ≡ ok w' → R 0 w.contract w'.contract
      unfolding migrate
      migrate-Kept h = rules.unchanged w.contract w'.contract (ground arith)
