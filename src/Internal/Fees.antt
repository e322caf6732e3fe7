-- ===== src/Internal/Fees.antt =====
-- The fees of an epoch's reward, of `internal_ping` in staking-farm/src/internal.rs: how much is taken
-- of a reward, how many shares that makes, and whose they are.
use staking_farm.Prelude.{
  ℕ, ◌+◌, ◌-◌, ◌*◌, ◌/◌, ◌≤◌, ◌≡◌, refl, leb, str_eq, if◌then◌else◌, arith, ap, sym, ◌∙◌,
}
use std.Path.{subst}
use staking_farm.Machine.{Result, ok, bind_ok, ok_injective, sub, add_u128}
use staking_farm.Sdk.{AccountId}
use staking_farm.Env.{Env}
use staking_farm.Ratio.{Ratio, multiply}
use staking_farm.Ratio.Bounds.{fraction_of, multiply_fraction}
use staking_farm.RewardFee.{current}
use staking_farm.Contract.{Sdk, StakingContract}
use staking_farm.Accounts.{zero_address, stored_account, internal_get_account, internal_add_shares}
use staking_farm.Accounts.Sums.{add_shares_sums}
use staking_farm.Accounts.Stakes.{shares_at, unstaked_at, add_shares-stakes}
use staking_farm.Shares.{num_shares_from_staked_amount_rounded_down}
use staking_farm.Shares.Rounding.{shares_down_eq}
use staking_farm.Internal.{distribute_total_reward}

-- What the parts of a reward should be: the burn fee is a fraction of the reward; the owner's fee is a
-- fraction of what the burn fee leaves; the rest raises the price of a share, at which both fees then
-- buy shares.
pub record Split : Type 0 where
  pub burn_fee : ℕ
  pub owners_fee : ℕ
  pub num_burn_shares : ℕ
  pub num_owner_shares : ℕ

abbrev pub split : Ratio → Ratio → ℕ → ℕ → ℕ → Split
split burn rate shares staked reward =
    let burn_fee = fraction_of burn reward in
    let owners_fee = fraction_of rate (reward - burn_fee) in
    let raised = staked + (reward - owners_fee - burn_fee) in
    record {
      burn_fee = burn_fee;
      owners_fee = owners_fee;
      num_burn_shares = shares * burn_fee / raised;
      num_owner_shares = shares * owners_fee / raised;
    }

split_parts :
    (burn rate : Ratio) (shares staked reward : ℕ) {b o nb no : ℕ}
    → b ≡ fraction_of burn reward
    → o ≡ fraction_of rate (reward - b)
    → nb ≡ shares * b / (staked + (reward - o - b))
    → no ≡ shares * o / (staked + (reward - o - b))
    → split burn rate shares staked reward
      ≡ record { burn_fee = b; owners_fee = o; num_burn_shares = nb; num_owner_shares = no }
split_parts burn rate shares staked reward b_eq o_eq nb_eq no_eq =
    rw (nb_eq, no_eq, o_eq, b_eq) refl

module _ ⦃sdk : Sdk⦄ where
  -- The parts of a reward of a contract, in an epoch.
  abbrev pub split_of : Env → StakingContract → ℕ → Split
  split_of e c reward =
      split c.burn_fee_fraction
        (if leb c.reward_fee_fraction.available_epoch_height e.epoch_height
          then c.reward_fee_fraction.next_reward_fee_fraction
          else c.reward_fee_fraction.reward_fee_fraction)
        c.total_stake_shares c.total_staked_balance reward

  -- The fees and shares that the source computes one by one are those parts.
  steps_split :
      (e : Env) (c : StakingContract) (reward : ℕ)
      {burn_fee rest owners_fee without_owner remaining staked nb no : ℕ}
      → multiply c.burn_fee_fraction reward ≡ ok burn_fee
      → sub reward burn_fee ≡ ok rest
      → multiply (current e.epoch_height c.reward_fee_fraction) rest ≡ ok owners_fee
      → sub reward owners_fee ≡ ok without_owner
      → sub without_owner burn_fee ≡ ok remaining
      → add_u128 c.total_staked_balance remaining ≡ ok staked
      → (burn_shares : ℕ)
      → num_shares_from_staked_amount_rounded_down
          (record c { total_staked_balance = staked })
          burn_fee
        ≡ ok nb
      → num_shares_from_staked_amount_rounded_down
          (record c { total_staked_balance = staked; total_burn_shares = burn_shares })
          owners_fee
        ≡ ok no
      → split_of e c reward ≡ record {
        burn_fee = burn_fee;
        owners_fee = owners_fee;
        num_burn_shares = nb;
        num_owner_shares = no;
      }
  unfolding current sub add_u128
  steps_split e c reward {burn_fee} {rest} {owners_fee} {staked = staked} p p1 p2 p3 p4 p5
        burn_shares p6 p8 =
      let rate = current e.epoch_height c.reward_fee_fraction in
      let c1 = record c { total_staked_balance = staked } in
      let rest_eq : rest ≡ reward - burn_fee = ground (arith, p1) in
      let staked_eq : staked ≡ c.total_staked_balance + (reward - owners_fee - burn_fee) =
        ground (arith, p3, p4, p5) in
      let bought = λ (amount : ℕ). ap (λ n. c.total_stake_shares * amount / n) staked_eq in
      split_parts c.burn_fee_fraction rate c.total_stake_shares c.total_staked_balance reward
        (multiply_fraction c.burn_fee_fraction reward p)
        (multiply_fraction rate rest p2 ∙ ap (fraction_of rate) rest_eq)
        (shares_down_eq c1 burn_fee p6 ∙ bought burn_fee)
        (shares_down_eq (record c1 { total_burn_shares = burn_shares }) owners_fee p8
          ∙ bought owners_fee)

  -- The contract after a reward with these parts was distributed, as far as the totals and the
  -- account `id` go.
  pub record FeesPaid (c : StakingContract) (owner : Result AccountId) (reward : ℕ) (s : Split)
      (c' : StakingContract) (id : AccountId) : Type 0 where
    pub owner_id : AccountId
    pub owner_eq : owner ≡ ok owner_id
    pub fees_covered : s.burn_fee + s.owners_fee ≤ reward
    pub staked_eq : c'.total_staked_balance ≡ c.total_staked_balance + reward
    pub total_shares_eq :
        c'.total_stake_shares ≡ c.total_stake_shares + (s.num_burn_shares + s.num_owner_shares)
    pub burn_eq : c'.total_burn_shares ≡ c.total_burn_shares + s.num_burn_shares
    pub shares_eq :
        shares_at c' id
        ≡ shares_at c id
          + (if str_eq zero_address id then s.num_burn_shares else 0)
          + (if str_eq owner_id id then s.num_owner_shares else 0)
    pub unstaked_eq : unstaked_at c' id ≡ unstaked_at c id

  -- A distribution of a reward that succeeds stakes the whole reward. The burn fee is the burn fraction
  -- of the reward, and the owner's fee is the fraction that holds in the epoch of what the burn fee
  -- leaves, both rounded down. The fees are covered by the reward, and buy shares, rounded down, at the
  -- price that the rest of the reward has raised. The shares for the burn fee go to the account that
  -- burns and to the total of burnt shares, those for the owner's fee to the owner, and no other
  -- shares to any account; unstaked balances stay.
  pub distribution_pays_fees :
      (e : Env) (c : StakingContract) (owner : Result AccountId) (reward : ℕ) (c' : StakingContract)
      (id : AccountId)
      → distribute_total_reward e c owner reward ≡ ok c'
      → FeesPaid c owner reward (split_of e c reward) c' id
  unfolding distribute_total_reward internal_get_account stored_account
  distribution_pays_fees e c owner reward c' id h =
      bind_ok (multiply c.burn_fee_fraction reward) _ h λ burn_fee p h.
        bind_ok (sub reward burn_fee) _ h λ rest p1 h.
          bind_ok (multiply (current e.epoch_height c.reward_fee_fraction) rest) _ h
            λ owners_fee p2 h. bind_ok (sub reward owners_fee) _ h λ without_owner p3 h.
              bind_ok (sub without_owner burn_fee) _ h λ remaining p4 h.
                bind_ok (add_u128 c.total_staked_balance remaining) _ h λ staked p5 h.
                  let c1 = record c { total_staked_balance = staked } in
                  bind_ok (num_shares_from_staked_amount_rounded_down c1 burn_fee) _ h λ nb p6 h.
                    bind_ok (add_u128 c1.total_burn_shares nb) _ h λ burn_shares p7 h.
                      let c2 = record c1 { total_burn_shares = burn_shares } in
                      bind_ok (num_shares_from_staked_amount_rounded_down c2 owners_fee) _ h
                        λ no p8 h. bind_ok (internal_add_shares c2 zero_address nb) _ h λ c3 p9 h.
                          bind_ok owner _ h λ owner_id p10 h.
                            bind_ok (internal_add_shares c3 owner_id no) _ h λ c4 p11 h.
                              let parts =
                                steps_split e c reward p p1 p2 p3 p4 p5 burn_shares p6 p8 in
                              let t = add_shares-stakes c2 zero_address id nb p9 in
                              let t' = add_shares-stakes c3 owner_id id no p11 in
                              let u = add_shares_sums c2 zero_address nb p9 in
                              let u' = add_shares_sums c3 owner_id no p11 in
                              bind_ok (add_u128 owners_fee burn_fee) _ h λ fees p12 h.
                                bind_ok (add_u128 c4.total_staked_balance fees) _ h λ staked' p13 h.
                                  rw (← ok_injective h) (
                                    subst
                                      (λ s.
                                        FeesPaid c owner reward s
                                          (record c4 { total_staked_balance = staked' }) id)
                                      (sym parts)
                                      (record {
                                        owner_id = owner_id;
                                        owner_eq = p10;
                                        fees_covered = ground (arith, p1, p3, p4);
                                        staked_eq = ground (arith, p1, p3, p4, p5, u, u', p12, p13);
                                        total_shares_eq = omega (arith, u, u');
                                        burn_eq = ground (arith, p7, u, u');
                                        shares_eq = omega (arith, t, t');
                                        unstaked_eq = omega (arith, t, t');
                                      }))
