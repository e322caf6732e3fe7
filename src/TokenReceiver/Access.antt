-- ===== src/TokenReceiver/Access.antt =====
-- Which tokens become farms, and for whom.
use staking_farm.Prelude.{
  ℕ, ◌+◌, ◌≤◌, ◌≡◌, ◌||◌, true, Option, none, some, String, str_eq, leb, ltb, [], ◌∷◌, arith,
}
use staking_farm.Prelude.Lists.{length, length-append}
use staking_farm.Machine
use staking_farm.Machine.{Result, ok, err, ◌>>=◌, ◌>>◌, bind_ok, assert, expect, add_u64}
use staking_farm.Sdk.{AccountId}
use staking_farm.Env.{Env}
use staking_farm.Farm.{FarmingDetails, session_interval}
use staking_farm.Distribution.{internal_calculate_distribution}
use staking_farm.Rewards.{internal_get_farm, farmed_shares}
use staking_farm.Farms.{internal_add_farm_tokens, assert_amount_per_session, refill}
use staking_farm.Internal.{internal_get_owner_id}
use staking_farm.Views.Farms.{deposit_creates_farm}
use staking_farm.TokenReceiver.{ft_on_transfer, receive_for, max_num_active_farms}
use staking_farm.Contract.{Sdk, StakingContract, World}

module _ ⦃sdk : Sdk⦄ where
  -- Tokens are only accepted of a token that is authorized, from the owner or from an authorized
  -- user, and none of them are returned.
  pub transfer_is_authorized :
      (e : Env) (w : World) (sender_id : AccountId) (amount : ℕ) (msg : String) (n : ℕ) (w' : World)
      → ft_on_transfer e w sender_id amount msg ≡ ok (n, w')
      → (owner_id : AccountId) × (w.owner ≡ some owner_id)
        × (sdk.ids.contains_id w.contract.authorized_farm_tokens e.predecessor_account_id ≡ true)
        × ((str_eq sender_id owner_id || sdk.ids.contains_id w.contract.authorized_users sender_id)
            ≡ true)
        × (n ≡ 0)
  unfolding ft_on_transfer internal_get_owner_id
  transfer_is_authorized e w sender_id amount msg n w' h =
      bind_ok
        (assert (sdk.ids.contains_id w.contract.authorized_farm_tokens e.predecessor_account_id)
          Machine.err_not_authorized_token)
        _ h
        λ _ p h. bind_ok (internal_get_owner_id w) _ h λ owner_id p1 h.
          bind_ok
            (assert
              (str_eq sender_id owner_id
                || sdk.ids.contains_id w.contract.authorized_users sender_id)
              Machine.err_not_authorized_user)
            _ h
            λ _ p2 h.
              bind_ok (expect (sdk.parse_details msg) Machine.err_msg_wrong_format) _ h
                λ message p3 h.
                  bind_ok (receive_for e w.contract amount message message.farm_id) _ h λ c p4 h.
                    (owner_id, owner_read w owner_id p1, ground arith, ground arith, ground arith)
    where
      owner_read : (w : World) (o : AccountId) → internal_get_owner_id w ≡ ok o → w.owner ≡ some o
      owner_read w o q = ground arith

  added_keeps :
      (e : Env) (c : StakingContract) (token_id : AccountId) (farm_id amount : ℕ) (start : Option ℕ)
      (end_date : ℕ) (c' : StakingContract)
      → internal_add_farm_tokens e c token_id farm_id amount start end_date ≡ ok c'
      → c'.active_farms ≡ c.active_farms
  unfolding internal_add_farm_tokens
  added_keeps e c token_id farm_id amount start end_date c' h =
      bind_ok (internal_get_farm c farm_id) _ h λ farm p h.
        bind_ok (assert (str_eq farm.token_id token_id) Machine.err_farm_invalid_token_id) _ h
          λ _ p h. bind_ok (assert (ltb 0 amount) Machine.err_farm_amount_non_zero) _ h λ _ p h.
            bind_ok (farmed_shares c) _ h λ shares p h.
              bind_ok (internal_calculate_distribution e.block_timestamp farm shares) _ h λ d p h.
                bind_ok (refill e.block_timestamp farm amount start d) _ h λ refilled p h.
                  bind_ok (add_u64 refilled.start_date session_interval) _ h λ first p h.
                    bind_ok (assert (ltb first end_date) Machine.err_farm_date) _ h λ _ p h.
                      bind_ok (assert (ltb 0 refilled.amount) Machine.err_farm_amount_non_zero) _ h
                        λ _ p h.
                          bind_ok
                            (assert_amount_per_session refilled.amount refilled.start_date end_date)
                            _ h λ _ p h. ground arith

  received_bound :
      (e : Env) (c : StakingContract) (amount : ℕ) (m : FarmingDetails) (farm_id : Option ℕ)
      (c' : StakingContract)
      → receive_for e c amount m farm_id ≡ ok c'
      → length c.active_farms ≤ max_num_active_farms + 1
      → length c'.active_farms ≤ max_num_active_farms + 1
  unfolding receive_for
  received_bound e c amount m (some i) c' h bound =
      rw (added_keeps e c e.predecessor_account_id i amount m.start_date m.end_date c' h) bound
  received_bound e c amount m none c' h bound =
      bind_ok
        (assert (leb (length c.active_farms) max_num_active_farms)
          Machine.err_too_many_active_farms)
        _ h
        λ _ p h. bind_ok (expect m.name Machine.err_msg_required_field) _ h λ name p1 h.
          bind_ok (expect m.start_date Machine.err_msg_required_field) _ h λ start p2 h.
            let made =
              deposit_creates_farm e c e.predecessor_account_id name amount start m.end_date c' 0
                h in
            rw made.3
              (rw (length-append c.active_farms (sdk.farms.len c.farms ∷ [])) (ground (arith, p)))

  -- A token transfer that succeeds leaves at most one active farm more than the maximum, where there
  -- were no more before.
  pub active_farms_bounded :
      (e : Env) (w : World) (sender_id : AccountId) (amount : ℕ) (msg : String) (n : ℕ) (w' : World)
      → ft_on_transfer e w sender_id amount msg ≡ ok (n, w')
      → length w.contract.active_farms ≤ max_num_active_farms + 1
      → length w'.contract.active_farms ≤ max_num_active_farms + 1
  unfolding ft_on_transfer
  active_farms_bounded e w sender_id amount msg n w' h bound =
      bind_ok
        (assert (sdk.ids.contains_id w.contract.authorized_farm_tokens e.predecessor_account_id)
          Machine.err_not_authorized_token)
        _ h
        λ _ p h. bind_ok (internal_get_owner_id w) _ h λ owner_id p1 h.
          bind_ok
            (assert
              (str_eq sender_id owner_id
                || sdk.ids.contains_id w.contract.authorized_users sender_id)
              Machine.err_not_authorized_user)
            _ h
            λ _ p2 h.
              bind_ok (expect (sdk.parse_details msg) Machine.err_msg_wrong_format) _ h
                λ message p3 h.
                  bind_ok (receive_for e w.contract amount message message.farm_id) _ h λ c p4 h.
                    let read =
                      received_bound e w.contract amount message message.farm_id c p4 bound in
                    let saved : w'.contract ≡ c = ground (arith, h) in rw saved read
