-- ===== src/Internal/Ping.antt =====
-- What the distribution of an epoch's rewards does to the totals and to the accounts.
use staking_farm.Prelude.{
  ℕ, ◌+◌, ◌-◌, ◌*◌, ◌≤◌, ◌≡◌, ap, ◌∙◌, Bool, true, false, ltb, leb, ◌==◌, if◌then◌else◌, arith,
  Bool-cases, ◌⊎◌, inl, inr,
}
use staking_farm.Machine.{Result, ok, bind_ok, sub, add_u128, assert, total_balance_decreased}
use staking_farm.Sdk.{AccountId}
use staking_farm.Env.{Env}
use staking_farm.Ratio.{multiply}
use staking_farm.RewardFee.{current}
use staking_farm.Contract.{Sdk, StakingContract, World}
use staking_farm.Accounts.{zero_address, internal_add_shares, internal_save_account}
use staking_farm.Accounts.Sums.{account_shares, account_unstaked, add_shares_sums}
use staking_farm.Shares.{num_shares_from_staked_amount_rounded_down}
use staking_farm.Shares.Rounding.{shares_down}
use staking_farm.Internal.{
  distribute_total_reward, internal_ping, total_balance, internal_get_owner_id,
}

module _ ⦃sdk : Sdk⦄ where
  -- What a distribution of rewards does to the contract.
  pub record Distributed (c : StakingContract) (reward : ℕ) (c' : StakingContract) : Type 0 where
    pub burn_fee : ℕ
    pub owners_fee : ℕ
    pub num_burn_shares : ℕ
    pub num_owner_shares : ℕ
    pub fees_covered : owners_fee + burn_fee ≤ reward
    pub staked_eq : c'.total_staked_balance ≡ c.total_staked_balance + reward
    pub shares_eq :
        c'.total_stake_shares ≡ c.total_stake_shares + (num_burn_shares + num_owner_shares)
    pub burn_eq : c'.total_burn_shares ≡ c.total_burn_shares + num_burn_shares
    pub account_shares_eq :
        account_shares c' ≡ account_shares c + (num_burn_shares + num_owner_shares)
    pub unstaked_eq : account_unstaked c' ≡ account_unstaked c
    pub last_eq : c'.last_total_balance ≡ c.last_total_balance
    pub epoch_eq : c'.last_epoch_height ≡ c.last_epoch_height
    pub paused_eq : c'.paused ≡ c.paused
    pub burn_price :
        num_burn_shares * (c.total_staked_balance + (reward - owners_fee - burn_fee))
        ≤ c.total_stake_shares * burn_fee
    pub owner_price :
        num_owner_shares * (c.total_staked_balance + (reward - owners_fee - burn_fee))
        ≤ c.total_stake_shares * owners_fee

  add_shares_rest :
      (c : StakingContract) (id : AccountId) (n : ℕ) {c' : StakingContract}
      → internal_add_shares c id n ≡ ok c'
      → (c'.last_epoch_height ≡ c.last_epoch_height) × (c'.paused ≡ c.paused)
  unfolding internal_add_shares internal_save_account
  add_shares_rest c id n h = ground arith

  -- A distribution of a reward that succeeds stakes the whole reward, takes from it fees that it
  -- covers, and adds shares for the fees to accounts and to the totals, at a price not below that
  -- which the rest of the reward has raised; unstaked balances stay, and so does the pause.
  pub distribute-Distributed :
      (e : Env) (c : StakingContract) (owner : Result AccountId) (reward : ℕ) (c' : StakingContract)
      → distribute_total_reward e c owner reward ≡ ok c'
      → Distributed c reward c'
  unfolding distribute_total_reward
  distribute-Distributed e c owner reward c' h =
      bind_ok (multiply c.burn_fee_fraction reward) _ h λ burn_fee p h.
        bind_ok (sub reward burn_fee) _ h λ rest p1 h.
          bind_ok (multiply (current e.epoch_height c.reward_fee_fraction) rest) _ h
            λ owners_fee p2 h. bind_ok (sub reward owners_fee) _ h λ without_owner p3 h.
              bind_ok (sub without_owner burn_fee) _ h λ remaining p4 h.
                bind_ok (add_u128 c.total_staked_balance remaining) _ h λ staked p5 h.
                  let c1 = record c { total_staked_balance = staked } in
                  bind_ok (num_shares_from_staked_amount_rounded_down c1 burn_fee) _ h λ nb p6 h.
                    bind_ok (add_u128 c1.total_burn_shares nb) _ h λ burn_shares p7 h.
                      let c2 = record c1 { total_burn_shares = burn_shares } in
                      bind_ok (num_shares_from_staked_amount_rounded_down c2 owners_fee) _ h
                        λ no p8 h. bind_ok (internal_add_shares c2 zero_address nb) _ h λ c3 p9 h.
                          bind_ok owner _ h λ owner_id p10 h.
                            bind_ok (internal_add_shares c3 owner_id no) _ h λ c4 p11 h.
                              let s = add_shares_sums c2 zero_address nb p9 in
                              let s' = add_shares_sums c3 owner_id no p11 in
                              let d = shares_down c1 burn_fee nb p6 in
                              let d' = shares_down c2 owners_fee no p8 in
                              record {
                                burn_fee = burn_fee;
                                owners_fee = owners_fee;
                                num_burn_shares = nb;
                                num_owner_shares = no;
                                fees_covered = ground arith;
                                staked_eq = ground arith;
                                shares_eq = ground arith;
                                burn_eq = ground arith;
                                account_shares_eq = ground arith;
                                unstaked_eq = ground arith;
                                last_eq = ground arith;
                                epoch_eq = ground (
                                  arith,
                                  add_shares_rest c2 zero_address nb p9,
                                  add_shares_rest c3 owner_id no p11,
                                );
                                paused_eq = ground (
                                  arith,
                                  add_shares_rest c2 zero_address nb p9,
                                  add_shares_rest c3 owner_id no p11,
                                );
                                burn_price = ground arith;
                                owner_price = ground arith;
                              }

  -- A ping in a new epoch: the reward is the growth of the balance, and is distributed if there
  -- is one.
  pub record NewEpoch (e : Env) (w : World) (r : Bool × World) : Type 0 where
    pub total : ℕ
    pub rewarded : StakingContract
    pub new : (w.contract.last_epoch_height == e.epoch_height) ≡ false
    pub total_eq : total_balance e ≡ ok total
    pub grown : w.contract.last_total_balance ≤ total
    pub rewards :
        (if ltb 0 (total - w.contract.last_total_balance)
          then distribute_total_reward e
              (record w.contract { last_epoch_height = e.epoch_height })
              (internal_get_owner_id w)
              (total - w.contract.last_total_balance)
          else ok (record w.contract { last_epoch_height = e.epoch_height }))
        ≡ ok rewarded
    pub result : r ≡ (true, record w { contract = record rewarded { last_total_balance = total } })

  new_ping :
      (e : Env) (w : World) (r : Bool × World)
      → (w.contract.last_epoch_height == e.epoch_height) ≡ false
      → internal_ping e w ≡ ok r
      → NewEpoch e w r
  unfolding internal_ping
  new_ping e w r new h = bind_ok (total_balance e) _ (rw new at h) λ total p h.
      bind_ok (assert (leb w.contract.last_total_balance total) total_balance_decreased) _ h
        λ _ p1 h. bind_ok (sub total w.contract.last_total_balance) _ h λ reward p2 h.
          let p3 : reward ≡ total - w.contract.last_total_balance = ground arith in
          bind_ok
            (if ltb 0 reward
              then distribute_total_reward e
                  (record w.contract { last_epoch_height = e.epoch_height })
                  (internal_get_owner_id w) reward
              else ok (record w.contract { last_epoch_height = e.epoch_height }))
            _ h
            λ c1 p4 h. record {
              total = total;
              rewarded = c1;
              new = new;
              total_eq = p;
              grown = ground arith;
              rewards = rw p3 at p4;
              result = ground arith;
            }

  pub ping_cases :
      (e : Env) (w : World) (r : Bool × World)
      → internal_ping e w ≡ ok r
      → (r ≡ (false, w)) ⊎ NewEpoch e w r
  unfolding internal_ping
  ping_cases e w r h = elim (Bool-cases (w.contract.last_epoch_height == e.epoch_height)) [
    | inl same ↦ inl (ground arith)
    | inr new ↦ inr (new_ping e w r new h)
  ]

  -- With a reward the contract has distributed it; without one only the epoch has changed.
  pub NewEpoch-cases :
      (e : Env) (w : World) (r : Bool × World) (n : NewEpoch e w r)
      → let c = record w.contract { last_epoch_height = e.epoch_height } in
        let reward = n.total - w.contract.last_total_balance in
        Distributed c reward n.rewarded ⊎ ((reward ≡ 0) × (n.rewarded ≡ c))
  NewEpoch-cases e w r n =
      let c = record w.contract { last_epoch_height = e.epoch_height } in
      let reward = n.total - w.contract.last_total_balance in
      elim (Bool-cases (ltb 0 reward)) [
        | inl pos ↦ inl (
            distribute-Distributed e c (internal_get_owner_id w) reward n.rewarded
              (rw pos at n.rewards))
        | inr none_left ↦ inr (ground arith, ground (arith, n.rewards))
      ]

  reward_keeps_epoch :
      (e : Env) (w : World) (r : Bool × World) (n : NewEpoch e w r)
      → n.rewarded.last_epoch_height ≡ e.epoch_height
  reward_keeps_epoch e w r n = elim (NewEpoch-cases e w r n) [
    | inl d ↦ d.epoch_eq
    | inr (none_left, kept) ↦ ap (λ c. c.last_epoch_height) kept
  ]

  -- The rewards of an epoch are distributed once: after a ping in an epoch, a further ping in the
  -- same epoch succeeds, changes nothing and asks for no new stake.
  pub ping_once_per_epoch :
      (e e' : Env) (w : World) (b : Bool) (w' : World)
      → internal_ping e w ≡ ok (b, w')
      → e'.epoch_height ≡ e.epoch_height
      → internal_ping e' w' ≡ ok (false, w')
  unfolding internal_ping
  ping_once_per_epoch e e' w b w' h same =
      let again = marked (Bool-cases (w.contract.last_epoch_height == e.epoch_height)) in
      ground arith
    where
      marked :
          ((w.contract.last_epoch_height == e.epoch_height) ≡ true)
            ⊎ ((w.contract.last_epoch_height == e.epoch_height) ≡ false)
          → w'.contract.last_epoch_height ≡ e.epoch_height
      marked (inl old) = ground arith
      marked (inr new) =
          let n = new_ping e w (b, w') new h in
          ap (λ r. r.1.contract.last_epoch_height) n.result ∙ reward_keeps_epoch e w (b, w') n
