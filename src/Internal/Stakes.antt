-- ===== src/Internal/Stakes.antt =====
-- What the internal operations do to the stake of each account.
use staking_farm.Prelude.{
  ℕ, some, ◌+◌, ◌-◌, ◌≡◌, refl, Bool, false, str_eq, eq_iff, if◌then◌else◌, arith, Bool-cases, inl,
  inr, ap, sym, ltb,
}
use staking_farm.Machine.{ok, ok_injective, bind_ok, sub, add_u128}
use staking_farm.Sdk.{AccountId}
use staking_farm.Env.{Env}
use staking_farm.Ratio.{multiply}
use staking_farm.RewardFee.{current, num_epochs_to_unlock}
use staking_farm.Contract.{Sdk, StakingContract, World}
use staking_farm.Accounts.{
  zero_address, stored_account, internal_get_account, internal_deposit, internal_add_shares,
}
use staking_farm.Accounts.Saving.{get_account-accounts}
use staking_farm.Accounts.Sums.{save_totals}
use staking_farm.Accounts.Stakes.{unstaked_at, shares_at, stakes-save, add_shares-stakes}
use staking_farm.Rewards.Frame.{distribute_all_frame}
use staking_farm.Shares.{num_shares_from_staked_amount_rounded_down}
use staking_farm.Internal.{
  internal_stake, inner_unstake, internal_withdraw, internal_ping, distribute_total_reward,
  internal_get_owner_id,
}
use staking_farm.Internal.Outcome.{stake-Staked, unstake-Unstaked}
use staking_farm.Internal.Ping.{ping_cases}

module _ ⦃sdk : Sdk⦄ where
  pub stakes-stake :
      (e : Env) (c : StakingContract) (amount : ℕ) (c' : StakingContract) (j : AccountId)
      → internal_stake e c amount ≡ ok c'
      → (num_shares : ℕ) × (charge_amount : ℕ) × (shares_at c' j
          ≡ shares_at c j + (if str_eq e.predecessor_account_id j then num_shares else 0))
        × (unstaked_at c' j + (if str_eq e.predecessor_account_id j then charge_amount else 0)
            ≡ unstaked_at c j)
        × (c'.total_burn_shares ≡ c.total_burn_shares)
  unfolding internal_get_account stored_account
  stakes-stake e c amount c' j h =
      let o = stake-Staked e c amount h in
      let id = e.predecessor_account_id in
      let (same, kept) = distribute_all_frame e c (internal_get_account c id) o.rewards in
      let a = record o.account {
        unstaked = o.account.unstaked - o.charge_amount;
        stake_shares = o.account.stake_shares + o.num_shares;
      } in
      let s = stakes-save c o.paid id j a same.accounts in
      let t = save_totals o.paid id a in
      (
        o.num_shares,
        o.charge_amount,
        ground (arith, o.result, s, kept.stake_shares, eq_iff id j),
        ground (arith, o.result, s, kept.unstaked, o.covered, eq_iff id j),
        ground (arith, o.result, t, same.total_burn),
      )

  pub stakes-unstake :
      (e : Env) (c : StakingContract) (id : AccountId) (amount : ℕ) (c' : StakingContract)
      (j : AccountId)
      → inner_unstake e c id amount ≡ ok c'
      → (num_shares : ℕ) × (receive_amount : ℕ) × (shares_at c' j
            + (if str_eq id j then num_shares else 0)
          ≡ shares_at c j)
        × (unstaked_at c' j ≡ unstaked_at c j + (if str_eq id j then receive_amount else 0))
        × (c'.total_burn_shares + (if str_eq id zero_address then num_shares else 0)
            ≡ c.total_burn_shares)
  unfolding internal_get_account stored_account
  stakes-unstake e c id amount c' j h =
      let o = unstake-Unstaked e c id amount h in
      let (same, kept) = distribute_all_frame e c (internal_get_account c id) o.rewards in
      let a = record o.account {
        stake_shares = o.account.stake_shares - o.num_shares;
        unstaked = o.account.unstaked + o.receive_amount;
        unstaked_available_epoch_height = e.epoch_height + num_epochs_to_unlock;
      } in
      let s = stakes-save c o.paid id j a same.accounts in
      (
        o.num_shares,
        o.receive_amount,
        ground (arith, o.result, s, kept.stake_shares, o.covered, eq_iff id j),
        ground (arith, o.result, s, kept.unstaked, eq_iff id j),
        ground (arith, o.result, o.burn_eq, same.total_burn, kept.is_burn),
      )

  pub stakes-deposit :
      (e : Env) (c : StakingContract) (r : ℕ × StakingContract) (j : AccountId)
      → internal_deposit e c ≡ ok r
      → (shares_at r.1 j ≡ shares_at c j)
        × (unstaked_at r.1 j
            ≡ unstaked_at c j
              + (if str_eq e.predecessor_account_id j then e.attached_deposit else 0))
        × (r.1.total_burn_shares ≡ c.total_burn_shares)
  unfolding internal_deposit internal_get_account stored_account
  stakes-deposit e c r j h =
      let id = e.predecessor_account_id in
      let old = internal_get_account c id in
      let a = record old { unstaked = old.unstaked + e.attached_deposit } in
      ground (arith, stakes-save c c id j a refl, save_totals c id a, eq_iff id j)

  pub stakes-withdraw :
      (e : Env) (w : World) (id : AccountId) (amount : ℕ) (w' : World) (j : AccountId)
      → internal_withdraw e w id amount ≡ ok w'
      → (shares_at w'.contract j ≡ shares_at w.contract j)
        × (unstaked_at w'.contract j + (if str_eq id j then amount else 0)
            ≡ unstaked_at w.contract j)
        × (w'.contract.total_burn_shares ≡ w.contract.total_burn_shares)
  unfolding internal_withdraw internal_get_account stored_account
  stakes-withdraw e w id amount w' j h =
      let c = w.contract in
      let old = internal_get_account c id in
      let a = record old { unstaked = old.unstaked - amount } in
      ground (arith, stakes-save c c id j a refl, save_totals c id a, eq_iff id j)

  -- The shares that a ping buys for its fees: some for burning, some for the owner, none for others.
  pub record Credited (w : World) (c' : StakingContract) (j : AccountId) : Type 0 where
    pub num_burn_shares : ℕ
    pub num_owner_shares : ℕ
    pub shares_eq :
        shares_at c' j
        ≡ shares_at w.contract j
          + (if str_eq zero_address j then num_burn_shares else 0)
          + num_owner_shares
    pub for_owner :
        (owner_id : AccountId)
        → w.owner ≡ some owner_id
        → str_eq owner_id j ≡ false
        → num_owner_shares ≡ 0
    pub unstaked_eq : unstaked_at c' j ≡ unstaked_at w.contract j
    pub burn_eq : c'.total_burn_shares ≡ w.contract.total_burn_shares + num_burn_shares

  owner_read :
      (w : World) (o owner_id : AccountId)
      → internal_get_owner_id w ≡ ok o
      → w.owner ≡ some owner_id
      → o ≡ owner_id
  unfolding internal_get_owner_id
  owner_read w o owner_id p q = ground (arith, p, q)

  distribute-Credited :
      (e : Env) (w : World) (reward : ℕ) (c' : StakingContract) (j : AccountId)
      → distribute_total_reward e
          (record w.contract { last_epoch_height = e.epoch_height })
          (internal_get_owner_id w)
          reward
        ≡ ok c'
      → Credited w c' j
  unfolding distribute_total_reward internal_get_account stored_account
  distribute-Credited e w reward c' j h =
      let c = record w.contract { last_epoch_height = e.epoch_height } in
      bind_ok (multiply c.burn_fee_fraction reward) _ h λ burn_fee p h.
        bind_ok (sub reward burn_fee) _ h λ rest p1 h.
          bind_ok (multiply (current e.epoch_height c.reward_fee_fraction) rest) _ h
            λ owners_fee p2 h. bind_ok (sub reward owners_fee) _ h λ without_owner p3 h.
              bind_ok (sub without_owner burn_fee) _ h λ remaining p4 h.
                bind_ok (add_u128 c.total_staked_balance remaining) _ h λ staked p5 h.
                  let c1 = record c { total_staked_balance = staked } in
                  bind_ok (num_shares_from_staked_amount_rounded_down c1 burn_fee) _ h λ nb p6 h.
                    bind_ok (add_u128 c1.total_burn_shares nb) _ h λ burn_shares p7 h.
                      let c2 = record c1 { total_burn_shares = burn_shares } in
                      bind_ok (num_shares_from_staked_amount_rounded_down c2 owners_fee) _ h
                        λ no p8 h. bind_ok (internal_add_shares c2 zero_address nb) _ h λ c3 p9 h.
                          bind_ok (internal_get_owner_id w) _ h λ o p10 h.
                            bind_ok (internal_add_shares c3 o no) _ h λ c4 p11 h.
                              let s = add_shares-stakes c2 zero_address j nb p9 in
                              let s' = add_shares-stakes c3 o j no p11 in
                              record {
                                num_burn_shares = nb;
                                num_owner_shares = if str_eq o j then no else 0;
                                shares_eq = ground (arith, h, s, s');
                                for_owner = λ owner_id q other.
                                    rw (owner_read w o owner_id p10 q, other) refl;
                                unstaked_eq = ground (arith, h, s, s');
                                burn_eq = ground (arith, h, s, s', p7);
                              }

  uncredited :
      (w : World) (c' : StakingContract) (j : AccountId)
      → c'.accounts ≡ w.contract.accounts
      → c'.total_burn_shares ≡ w.contract.total_burn_shares
      → Credited w c' j
  uncredited w c' j same burn =
      let kept = get_account-accounts w.contract c' j same in
      record {
        num_burn_shares = 0;
        num_owner_shares = 0;
        shares_eq = ground (arith, ap (λ b. b.stake_shares) kept);
        for_owner = λ _ _ _. refl;
        unstaked_eq = ap (λ b. b.unstaked) kept;
        burn_eq = omega (arith, burn);
      }

  pub ping-Credited :
      (e : Env) (w : World) (r : Bool × World) (j : AccountId)
      → internal_ping e w ≡ ok r
      → Credited w r.1.contract j
  unfolding internal_get_account stored_account
  ping-Credited e w r j h = elim (ping_cases e w r h) [
    | inl same ↦ rw same (uncredited w w.contract j refl refl)
    | inr n ↦
        let reward = n.total - w.contract.last_total_balance in
        elim (Bool-cases (ltb 0 reward)) [
          | inl pos ↦
              let d = distribute-Credited e w reward n.rewarded j (rw pos at n.rewards) in
              rw n.result (record {
                num_burn_shares = d.num_burn_shares;
                num_owner_shares = d.num_owner_shares;
                shares_eq = d.shares_eq;
                for_owner = d.for_owner;
                unstaked_eq = d.unstaked_eq;
                burn_eq = d.burn_eq;
              })
          | inr none_left ↦
              let same : n.rewarded ≡ record w.contract { last_epoch_height = e.epoch_height } =
                ok_injective (sym (rw none_left at n.rewards)) in
              rw n.result (
                rw same (
                  uncredited w
                    (record w.contract {
                      last_epoch_height = e.epoch_height;
                      last_total_balance = n.total;
                    })
                    j refl refl))
        ]
  ]
