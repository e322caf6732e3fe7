-- ===== src/Requests/Farming.antt =====
-- Claims, stopped farms and received tokens, of farm.rs and token_receiver.rs of staking-farm/src,
-- ask for no stake.
use staking_farm.Prelude.{ℕ, ◌≡◌, leb, ◌||◌, Option, none, some, String, str_eq, arith, ap}
use staking_farm.Prelude.Lists.{length}
use staking_farm.Prelude.Classes.{string_key}
use staking_farm.Machine.{
  ok_injective, ok, bind_ok, assert, expect, get_owner_failed, get_owner_unparsed, not_an_owner,
  err_msg_wrong_format, err_too_many_active_farms, err_msg_required_field, err_not_authorized_token,
  err_not_authorized_user, must_have_owner,
}
use staking_farm.Sdk.{AccountId}
use staking_farm.Env.{Env}
use staking_farm.Farm.{FarmingDetails}
use staking_farm.Contract.{Sdk, StakingContract, World, Promise}
use staking_farm.Accounts.{internal_get_account, internal_save_account}
use staking_farm.Rewards.{internal_distribute_all_rewards}
use staking_farm.Rewards.Frame.{distribute_all_frame}
use staking_farm.Farms.{
  internal_deposit_farm_tokens, internal_add_farm_tokens, internal_user_token_deposit,
  internal_claim,
}
use staking_farm.Claims.{claim, callback_post_get_owner, callback_post_withdraw_reward, stop_farm}
use staking_farm.TokenReceiver.{max_num_active_farms, receive_for, ft_on_transfer}
use staking_farm.Requests.{request_of, IsIdle}
use staking_farm.Requests.Operations.{SameStaking, contract-IsIdle}

module _ ⦃sdk : Sdk⦄ where
  deposit_farm-SameStaking :
      (e : Env) (c : StakingContract) (token_id : AccountId) (name : String) (amount start end : ℕ)
      (c' : StakingContract)
      → internal_deposit_farm_tokens e c token_id name amount start end ≡ ok c'
      → SameStaking c c'
  unfolding internal_deposit_farm_tokens
  deposit_farm-SameStaking e c token_id name amount start end c' h = ground arith

  add_farm-SameStaking :
      (e : Env) (c : StakingContract) (token_id : AccountId) (farm_id amount : ℕ) (start : Option ℕ)
      (end : ℕ) (c' : StakingContract)
      → internal_add_farm_tokens e c token_id farm_id amount start end ≡ ok c'
      → SameStaking c c'
  unfolding internal_add_farm_tokens
  add_farm-SameStaking e c token_id farm_id amount start end c' h = ground arith

  receive-SameStaking :
      (e : Env) (c : StakingContract) (amount : ℕ) (m : FarmingDetails) (id : Option ℕ)
      (c' : StakingContract)
      → receive_for e c amount m id ≡ ok c'
      → SameStaking c c'
  unfolding receive_for
  receive-SameStaking e c amount m none c' h =
      bind_ok (assert (leb (length c.active_farms) max_num_active_farms) err_too_many_active_farms)
        _ h
        λ _ _ h. bind_ok (expect m.name err_msg_required_field) _ h λ name _ h.
          bind_ok (expect m.start_date err_msg_required_field) _ h λ start _ h.
            deposit_farm-SameStaking e c e.predecessor_account_id name amount start m.end_date c' h
  receive-SameStaking e c amount m (some id) c' h =
      add_farm-SameStaking e c e.predecessor_account_id id amount m.start_date m.end_date c' h

  -- A claim changes accounts and farms, and its promise pays tokens.
  claim-SameStaking :
      (e : Env) (c : StakingContract) (token_id from to : AccountId) (r : Promise × StakingContract)
      → internal_claim e c token_id from to ≡ ok r
      → (request_of r.0 ≡ none) × SameStaking c r.1
  unfolding internal_claim internal_save_account request_of
  claim-SameStaking e c token_id from to r h =
      bind_ok (internal_distribute_all_rewards e c (internal_get_account c from)) _ h λ (c1, a) p h.
        let (same, kept) = distribute_all_frame e c (internal_get_account c from) p in
        ground (arith, same.paused, same.total_staked, same.key)

  module _ (e : Env) (w w' : World) where
    pub claim-IsIdle :
        (token_id : AccountId) (delegator : Option AccountId) (p : Promise)
        → claim e w token_id delegator ≡ ok (p, w')
        → (request_of p ≡ none) × IsIdle w w'
    unfolding claim request_of
    claim-IsIdle token_id none p h = bind_ok (sdk.assert_one_yocto e.attached_deposit) _ h λ _ _ h.
        let id = e.predecessor_account_id in
        bind_ok (internal_claim e w.contract token_id id id) _ h λ (q, c) s h.
          let (asks, same) = claim-SameStaking e w.contract token_id id id (q, c) s in
          let done = ok_injective h in
          (rw (← ap (λ r. r.0) done) asks, rw (← ap (λ r. r.1) done) (contract-IsIdle w c same))
    claim-IsIdle token_id (some delegator) p h = ground arith

    pub callback_post_get_owner-IsIdle :
        (token_id delegator account_id : AccountId) (p : Promise)
        → callback_post_get_owner e w token_id delegator account_id ≡ ok (p, w')
        → (request_of p ≡ none) × IsIdle w w'
    unfolding callback_post_get_owner
    callback_post_get_owner-IsIdle token_id delegator account_id p h =
        bind_ok (sdk.promise_result_as_success e.promise_results) _ h λ value _ h.
          bind_ok (expect value get_owner_failed) _ h λ bytes _ h.
            bind_ok (expect (sdk.parse_account_id bytes) get_owner_unparsed) _ h λ owner_id _ h.
              bind_ok (assert (str_eq owner_id account_id) not_an_owner) _ h λ _ _ h.
                bind_ok (internal_claim e w.contract token_id delegator account_id) _ h
                  λ (q, c) s h.
                    let (asks, same) =
                      claim-SameStaking e w.contract token_id delegator account_id (q, c) s in
                    let done = ok_injective h in
                    (
                      rw (← ap (λ r. r.0) done) asks,
                      rw (← ap (λ r. r.1) done) (contract-IsIdle w c same),
                    )

    pub callback_post_withdraw_reward-IsIdle :
        (token_id sender : AccountId) (amount : ℕ)
        → callback_post_withdraw_reward e w token_id sender amount ≡ ok w'
        → IsIdle w w'
    unfolding callback_post_withdraw_reward internal_user_token_deposit internal_save_account
    callback_post_withdraw_reward-IsIdle token_id sender amount h = ground arith

    pub stop_farm-IsIdle :
        (farm_id : ℕ) (p : Promise)
        → stop_farm e w farm_id ≡ ok (p, w')
        → (request_of p ≡ none) × IsIdle w w'
    unfolding stop_farm request_of
    stop_farm-IsIdle farm_id p h = ground arith

    pub ft_on_transfer-IsIdle :
        (sender : AccountId) (amount n : ℕ) (msg : String)
        → ft_on_transfer e w sender amount msg ≡ ok (n, w')
        → IsIdle w w'
    unfolding ft_on_transfer
    ft_on_transfer-IsIdle sender amount n msg h =
        let token =
          sdk.ids.contains_id w.contract.authorized_farm_tokens e.predecessor_account_id in
        bind_ok (assert token err_not_authorized_token) _ h λ _ _ h.
          bind_ok (expect w.owner must_have_owner) _ h λ owner _ h.
            let user =
              str_eq sender owner || sdk.ids.contains_id w.contract.authorized_users sender in
            bind_ok (assert user err_not_authorized_user) _ h λ _ _ h.
              bind_ok (expect (sdk.parse_details msg) err_msg_wrong_format) _ h λ m _ h.
                bind_ok (receive_for e w.contract amount m m.farm_id) _ h λ c p h.
                  let same = receive-SameStaking e w.contract amount m m.farm_id c p in
                  rw (← ap (λ r. r.1) (ok_injective h)) (contract-IsIdle w c same)
