-- ===== src/Frame/Farming.antt =====
-- Claims, stopped farms and received tokens keep what the operations keep: farm.rs and
-- token_receiver.rs of staking-farm/src.
use staking_farm.Prelude.{
  ℕ, ◌≡◌, Bool-cases, inl, inr, leb, refl, ◌||◌, Option, none, some, String, str_eq, arith,
}
use staking_farm.Prelude.Lists.{length}
use staking_farm.Prelude.Classes.{string_key}
use staking_farm.Machine.{
  ok_injective, ok, bind_ok, assert, expect, get_owner_failed, get_owner_unparsed, not_an_owner,
  err_msg_wrong_format, err_too_many_active_farms, err_msg_required_field, err_not_authorized_token,
  err_not_authorized_user, must_have_owner,
}
use staking_farm.HashMap
use staking_farm.HashMap.{get_or_zero}
use staking_farm.Sdk.{AccountId}
use staking_farm.Env.{Env}
use staking_farm.Farm.{FarmingDetails}
use staking_farm.Contract.{Sdk, StakingContract, World, Promise}
use staking_farm.Accounts.{internal_get_account, internal_save_account}
use staking_farm.Rewards.{add_amount, internal_distribute_all_rewards}
use staking_farm.Rewards.Frame.{distribute_all_frame}
use staking_farm.Farms.{
  internal_deposit_farm_tokens, internal_add_farm_tokens, internal_user_token_deposit,
  internal_claim,
}
use staking_farm.Claims.{claim, callback_post_get_owner, callback_post_withdraw_reward, stop_farm}
use staking_farm.TokenReceiver.{max_num_active_farms, receive_for, ft_on_transfer}
use staking_farm.Frame.{SameBooks, Rules}

module _ ⦃sdk : Sdk⦄ where
  deposit_farm_books :
      (e : Env) (c : StakingContract) (token_id : AccountId) (name : String) (amount start end : ℕ)
      (c' : StakingContract)
      → internal_deposit_farm_tokens e c token_id name amount start end ≡ ok c'
      → SameBooks c c'
  unfolding internal_deposit_farm_tokens
  deposit_farm_books e c token_id name amount start end c' h = ground arith

  add_farm_books :
      (e : Env) (c : StakingContract) (token_id : AccountId) (farm_id amount : ℕ) (start : Option ℕ)
      (end : ℕ) (c' : StakingContract)
      → internal_add_farm_tokens e c token_id farm_id amount start end ≡ ok c'
      → SameBooks c c'
  unfolding internal_add_farm_tokens
  add_farm_books e c token_id farm_id amount start end c' h = ground arith

  receive_books :
      (e : Env) (c : StakingContract) (amount : ℕ) (m : FarmingDetails) (id : Option ℕ)
      (c' : StakingContract)
      → receive_for e c amount m id ≡ ok c'
      → SameBooks c c'
  unfolding receive_for
  receive_books e c amount m none c' h =
      bind_ok (assert (leb (length c.active_farms) max_num_active_farms) err_too_many_active_farms)
        _ h
        λ _ _ h. bind_ok (expect m.name err_msg_required_field) _ h λ name _ h.
          bind_ok (expect m.start_date err_msg_required_field) _ h λ start _ h.
            deposit_farm_books e c e.predecessor_account_id name amount start m.end_date c' h
  receive_books e c amount m (some id) c' h =
      add_farm_books e c e.predecessor_account_id id amount m.start_date m.end_date c' h

  module _ {R : ℕ → StakingContract → StakingContract → Type 0} (e : Env) (w : World)
      (rules : Rules e w R) where
    claim-kept :
        (c : StakingContract) (token_id from to : AccountId) (r : Promise × StakingContract)
        → internal_claim e c token_id from to ≡ ok r
        → R 0 c r.1
    unfolding internal_claim
    claim-kept c token_id from to r h =
        bind_ok (internal_distribute_all_rewards e c (internal_get_account c from)) _ h
          λ (c1, a) p h.
            let (same, kept) = distribute_all_frame e c (internal_get_account c from) p in
            let a1 = record a { amounts = HashMap.remove token_id a.amounts } in
            let saved : r.1 ≡ internal_save_account c1 from a1 = ground arith in
            rw saved (
              rules.saved c c1 from a1
                (record {
                  accounts = same.accounts;
                  total_shares = same.total_shares;
                  total_staked = same.total_staked;
                  last_total = same.last_total;
                  total_burn = same.total_burn;
                })
                kept.unstaked kept.stake_shares)

    token_deposit-kept :
        (c : StakingContract) (id token_id : AccountId) (amount : ℕ) (c' : StakingContract)
        → internal_user_token_deposit c id token_id amount ≡ ok c'
        → R 0 c c'
    unfolding internal_user_token_deposit
    token_deposit-kept c id token_id amount c' h =
        bind_ok (add_amount (internal_get_account c id) token_id amount) _ h λ a p h.
          rw (← ok_injective h) (
            rules.saved c c id a
              (record {
                accounts = refl;
                total_shares = refl;
                total_staked = refl;
                last_total = refl;
                total_burn = refl;
              })
              (ground arith) (ground arith))

    module _ (w' : World) where
      pub claim-Kept :
          (token_id : AccountId) (delegator : Option AccountId) (p : Promise)
          → claim e w token_id delegator ≡ ok (p, w')
          → R 0 w.contract w'.contract
      unfolding claim
      claim-Kept token_id none p h = bind_ok (sdk.assert_one_yocto e.attached_deposit) _ h λ _ _ h.
          bind_ok
            (internal_claim e w.contract token_id e.predecessor_account_id e.predecessor_account_id)
            _ h
            λ (q, c) s h.
              let t =
                claim-kept w.contract token_id e.predecessor_account_id e.predecessor_account_id
                  (q, c) s in
              let same : w'.contract ≡ c = ground arith in rw same t
      claim-Kept token_id (some delegator) p h =
          let same : w'.contract ≡ w.contract = ground arith in
          rules.unchanged w.contract w'.contract (ground arith)

      pub callback_post_get_owner-Kept :
          (token_id delegator account_id : AccountId) (p : Promise)
          → callback_post_get_owner e w token_id delegator account_id ≡ ok (p, w')
          → R 0 w.contract w'.contract
      unfolding callback_post_get_owner
      callback_post_get_owner-Kept token_id delegator account_id p h =
          bind_ok (sdk.promise_result_as_success e.promise_results) _ h λ value _ h.
            bind_ok (expect value get_owner_failed) _ h λ bytes _ h.
              bind_ok (expect (sdk.parse_account_id bytes) get_owner_unparsed) _ h λ owner_id _ h.
                bind_ok (assert (str_eq owner_id account_id) not_an_owner) _ h λ _ _ h.
                  bind_ok (internal_claim e w.contract token_id delegator account_id) _ h
                    λ (q, c) s h.
                      let t = claim-kept w.contract token_id delegator account_id (q, c) s in
                      let same : w'.contract ≡ c = ground arith in rw same t

      pub callback_post_withdraw_reward-Kept :
          (token_id sender : AccountId) (amount : ℕ)
          → callback_post_withdraw_reward e w token_id sender amount ≡ ok w'
          → R 0 w.contract w'.contract
      unfolding callback_post_withdraw_reward
      callback_post_withdraw_reward-Kept token_id sender amount h =
          bind_ok (sdk.is_promise_success e.promise_results) _ h λ b _ h. elim (Bool-cases b) [
            | inl done ↦
                rw (← ok_injective (rw done at h))
                  (rules.unchanged w.contract w.contract (ground arith))
            | inr failed ↦
                bind_ok (internal_user_token_deposit w.contract sender token_id amount) _
                  (rw failed at h)
                  λ c p h.
                    rw (← ok_injective h) (token_deposit-kept w.contract sender token_id amount c p)
          ]

      pub stop_farm-Kept :
          (farm_id : ℕ) (p : Promise)
          → stop_farm e w farm_id ≡ ok (p, w')
          → R 0 w.contract w'.contract
      unfolding stop_farm
      stop_farm-Kept farm_id p h = rules.unchanged w.contract w'.contract (ground arith)

      pub ft_on_transfer-Kept :
          (sender : AccountId) (amount n : ℕ) (msg : String)
          → ft_on_transfer e w sender amount msg ≡ ok (n, w')
          → R 0 w.contract w'.contract
      unfolding ft_on_transfer
      ft_on_transfer-Kept sender amount n msg h =
          bind_ok
            (assert (sdk.ids.contains_id w.contract.authorized_farm_tokens e.predecessor_account_id)
              err_not_authorized_token)
            _ h
            λ _ _ h. bind_ok (expect w.owner must_have_owner) _ h λ owner _ h.
              bind_ok
                (assert
                  (str_eq sender owner || sdk.ids.contains_id w.contract.authorized_users sender)
                  err_not_authorized_user)
                _ h
                λ _ _ h. bind_ok (expect (sdk.parse_details msg) err_msg_wrong_format) _ h λ m _ h.
                  bind_ok (receive_for e w.contract amount m m.farm_id) _ h λ c p h.
                    let books = receive_books e w.contract amount m m.farm_id c p in
                    let same : w'.contract ≡ c = ground arith in
                    rw same (rules.unchanged w.contract c books)
