-- ===== src/Claims/Once.antt =====
-- A claim pays what the account has farmed, once; a payment that fails is given back.
use staking_farm.Prelude.{
  ℕ, ◌+◌, ◌<◌, ◌≡◌, refl, true, false, eq_iff, ltb, [], ◌∷◌, arith, sym, ◌∙◌, Bool-cases, inl, inr,
}
use staking_farm.Prelude.Lists.{length}
use staking_farm.Prelude.Classes.{string_key}
use staking_farm.Machine.{ok, u128_bound}
use staking_farm.HashMap
use staking_farm.HashMap.{HashMap, get_or_zero, lookup-insert}
use staking_farm.Sdk.{AccountId}
use staking_farm.Env.{Env, failed}
use staking_farm.Account.{Account}
use staking_farm.Contract.{Sdk, StakingContract, World}
use staking_farm.Accounts.{stored_account, internal_get_account, internal_save_account, is_kept}
use staking_farm.Farms.{internal_user_token_deposit}
use staking_farm.Claims.{callback_post_withdraw_reward}

none_farmed :
    (token_id : AccountId) (m : HashMap AccountId ℕ)
    → ltb 0 (length m) ≡ false
    → get_or_zero token_id m ≡ 0
unfolding get_or_zero
none_farmed token_id [] h = refl
none_farmed token_id (x ∷ m) h = ground arith

pub get_or_zero-insert :
    (token_id : AccountId) (n : ℕ) (m : HashMap AccountId ℕ)
    → get_or_zero token_id (HashMap.insert token_id n m) ≡ n
unfolding get_or_zero
get_or_zero-insert token_id n m =
    ground (arith, lookup-insert token_id token_id n m, (eq_iff token_id token_id).1 refl)

module _ ⦃sdk : Sdk⦄ where
  -- What the account has farmed of a token and not withdrawn.
  abbrev pub farmed : StakingContract → AccountId → AccountId → ℕ
  farmed c id token_id = get_or_zero token_id (internal_get_account c id).amounts

  amounts-save_kept :
      (c : StakingContract) (id : AccountId) (a : Account)
      → is_kept a ≡ true
      → (internal_get_account (internal_save_account c id a) id).amounts ≡ a.amounts
  unfolding internal_get_account internal_save_account stored_account
  amounts-save_kept c id a h = ground (
    arith,
    sdk.accounts.get-insert c.accounts id id (record a { is_burn_account = false }),
    eq_iff id id,
    h,
  )

  amounts-save_dropped :
      (c : StakingContract) (id : AccountId) (a : Account)
      → is_kept a ≡ false
      → (internal_get_account (internal_save_account c id a) id).amounts ≡ []
  unfolding internal_get_account internal_save_account stored_account
  amounts-save_dropped c id a h =
      ground (arith, sdk.accounts.get-remove c.accounts id id, eq_iff id id, h)

  dropped_is_empty : (a : Account) → is_kept a ≡ false → ltb 0 (length a.amounts) ≡ false
  unfolding is_kept
  dropped_is_empty a h = ground (arith, h)

  farmed-save :
      (c : StakingContract) (id token_id : AccountId) (a : Account)
      → farmed (internal_save_account c id a) id token_id ≡ get_or_zero token_id a.amounts
  farmed-save c id token_id a = elim (Bool-cases (is_kept a)) [
    | inl kept ↦ rw (amounts-save_kept c id a kept) refl
    | inr dropped ↦ rw (amounts-save_dropped c id a dropped) (
        none_farmed token_id [] refl
        ∙ sym (none_farmed token_id a.amounts (dropped_is_empty a dropped)))
  ]

  -- When the payment of a claim fails, the callback succeeds and gives the amount back to the
  -- account, if the sum fits in 128 bits.
  pub failed_payment_restored :
      (e : Env) (w : World) (token_id id : AccountId) (amount : ℕ)
      → e.promise_results ≡ failed ∷ []
      → farmed w.contract id token_id + amount < u128_bound
      → (w' : World) × (callback_post_withdraw_reward e w token_id id amount ≡ ok w')
        × (farmed w'.contract id token_id ≡ farmed w.contract id token_id + amount)
  unfolding callback_post_withdraw_reward internal_user_token_deposit
  failed_payment_restored e w token_id id amount failed_result fits =
      let a = internal_get_account w.contract id in
      let sum = get_or_zero token_id a.amounts + amount in
      let a1 = record a { amounts = HashMap.insert token_id sum a.amounts } in
      (
        record w { contract = internal_save_account w.contract id a1 },
        rw (failed_result, sdk.is_promise_success_one failed) (ground arith),
        rw (farmed-save w.contract id token_id a1, get_or_zero-insert token_id sum a.amounts) refl,
      )
