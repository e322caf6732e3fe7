-- ===== src/Solvency/Operations.antt =====
-- The internal operations keep the books sound.
use staking_farm.Prelude.{ℕ, ◌+◌, ◌-◌, ◌*◌, ◌≤◌, ◌<◌, ◌≡◌, refl, Bool, arith, inl, inr}
use staking_farm.Prelude.{ap}
use staking_farm.Prelude.Arithmetic.{lt_of_mul_lt_mul, mul_le_mul}
use native.Mathlib.Nat.{le_refl}
use staking_farm.RewardFee.{num_epochs_to_unlock}
use staking_farm.Machine.{ok}
use staking_farm.Sdk.{AccountId}
use staking_farm.Env.{Env}
use staking_farm.Contract.{Sdk, StakingContract, World}
use staking_farm.Accounts.{internal_get_account, internal_save_account, internal_deposit}
use staking_farm.Accounts.Sums.{account_shares-save, account_unstaked-save, save_totals}
use staking_farm.Rewards.Frame.{distribute_all_frame}
use staking_farm.Shares.Rounding.{amount_down, amount_up}
use staking_farm.Internal.{internal_stake, inner_unstake, internal_withdraw, internal_ping}
use staking_farm.Internal.Outcome.{stake-Staked, unstake-Unstaked}
use staking_farm.Internal.Price.{stake_totals, unstake_totals, stake-PriceKept, unstake-PriceKept}
use staking_farm.Internal.Ping.{Distributed, ping_cases, NewEpoch-cases}
use staking_farm.Solvency.{IsSound}

-- The quotients rounded down and up differ by one at most.
rounding_gap : (p s charge stake : ℕ) → p < charge * s + s → stake * s < p + s → stake ≤ charge + 1
rounding_gap p s charge stake h k =
    omega (arith, lt_of_mul_lt_mul stake (charge + 2) s (omega arith))

-- Shares bought for fees at a price raised by `rest` cost at most the fees.
fees_keep_price :
    (t s rest nb os burn own r : ℕ)
    → nb * (t + rest) ≤ s * burn
    → os * (t + rest) ≤ s * own
    → own + burn ≤ r
    → t * (s + (nb + os)) ≤ (t + r) * s
fees_keep_price t s rest nb os burn own r h k m =
    omega (arith, mul_le_mul s (own + burn) s r (le_refl s) m)

module _ ⦃sdk : Sdk⦄ where
  pub IsSound-refl : {c : StakingContract} → IsSound 0 c c
  IsSound-refl = record { price = omega arith; shares = refl; funds = omega arith }

  pub stake-IsSound :
      (e : Env) (c : StakingContract) (amount : ℕ) (c' : StakingContract)
      → internal_stake e c amount ≡ ok c'
      → IsSound 1 c c'
  stake-IsSound e c amount c' h =
      let o = stake-Staked e c amount h in
      let id = e.predecessor_account_id in
      let t = stake_totals e c c' amount o in
      let (same, kept) = distribute_all_frame e c (internal_get_account c id) o.rewards in
      let a = record o.account {
        unstaked = o.account.unstaked - o.charge_amount;
        stake_shares = o.account.stake_shares + o.num_shares;
      } in
      let saved : c'.accounts ≡ (internal_save_account o.paid id a).accounts =
        ap (λ d. d.accounts) o.result in
      let up = amount_up o.paid o.num_shares o.stake_amount o.stake_eq in
      let down = amount_down o.paid o.num_shares o.charge_amount o.charge_eq in
      record {
        price = stake-PriceKept e c amount c' h;
        shares =
            rw saved (
              omega (arith, t, kept.stake_shares, account_shares-save c o.paid id a same.accounts));
        funds = rw saved (
            omega (
              arith,
              t,
              kept.unstaked,
              o.covered,
              account_unstaked-save c o.paid id a same.accounts,
              rounding_gap (o.paid.total_staked_balance * o.num_shares) o.paid.total_stake_shares
                  o.charge_amount o.stake_amount down.2 up.2,
            ));
      }

  pub unstake-IsSound :
      (e : Env) (c : StakingContract) (id : AccountId) (amount : ℕ) (c' : StakingContract)
      → inner_unstake e c id amount ≡ ok c'
      → IsSound 1 c c'
  unstake-IsSound e c id amount c' h =
      let o = unstake-Unstaked e c id amount h in
      let t = unstake_totals e c c' id amount o in
      let (same, kept) = distribute_all_frame e c (internal_get_account c id) o.rewards in
      let a = record o.account {
        stake_shares = o.account.stake_shares - o.num_shares;
        unstaked = o.account.unstaked + o.receive_amount;
        unstaked_available_epoch_height = e.epoch_height + num_epochs_to_unlock;
      } in
      let saved : c'.accounts ≡ (internal_save_account o.paid id a).accounts =
        ap (λ d. d.accounts) o.result in
      let up = amount_up o.paid o.num_shares o.receive_amount o.receive_eq in
      let down = amount_down o.paid o.num_shares o.unstake_amount o.unstake_eq in
      record {
        price = unstake-PriceKept e c id amount c' h;
        shares = rw saved (
            omega (
              arith,
              t,
              kept.stake_shares,
              o.covered,
              account_shares-save c o.paid id a same.accounts,
            ));
        funds = rw saved (
            omega (
              arith,
              t,
              kept.unstaked,
              account_unstaked-save c o.paid id a same.accounts,
              rounding_gap (o.paid.total_staked_balance * o.num_shares) o.paid.total_stake_shares
                  o.unstake_amount o.receive_amount down.2 up.2,
            ));
      }

  -- A deposit is owed to the account, and counted as received.
  pub deposit-IsSound :
      (e : Env) (c : StakingContract) (r : ℕ × StakingContract)
      → internal_deposit e c ≡ ok r
      → IsSound 0 c r.1
  unfolding internal_deposit
  deposit-IsSound e c r h =
      let id = e.predecessor_account_id in
      let old = internal_get_account c id in
      let a = record old { unstaked = old.unstaked + e.attached_deposit } in
      let s = account_shares-save c c id a refl in
      let u = account_unstaked-save c c id a refl in
      let t = save_totals c id a in
      record { price = ground arith; shares = ground arith; funds = ground arith }

  -- What is withdrawn is no longer owed, and no longer held.
  pub withdraw-IsSound :
      (e : Env) (w : World) (id : AccountId) (amount : ℕ) (w' : World)
      → internal_withdraw e w id amount ≡ ok w'
      → IsSound 0 w.contract w'.contract
  unfolding internal_withdraw
  withdraw-IsSound e w id amount w' h =
      let c = w.contract in
      let old = internal_get_account c id in
      let a = record old { unstaked = old.unstaked - amount } in
      let s = account_shares-save c c id a refl in
      let u = account_unstaked-save c c id a refl in
      let t = save_totals c id a in
      record { price = ground arith; shares = ground arith; funds = ground arith }

  -- An epoch's rewards are staked: what is owed grows by what the balance has grown.
  distribute-IsSound :
      (c : StakingContract) (reward : ℕ) (c' : StakingContract) (total : ℕ)
      → c.last_total_balance + reward ≡ total
      → Distributed c reward c'
      → IsSound 0 c (record c' { last_total_balance = total })
  distribute-IsSound c reward c' total grown d =
      let price =
        fees_keep_price c.total_staked_balance c.total_stake_shares
          (reward - d.owners_fee - d.burn_fee) d.num_burn_shares d.num_owner_shares d.burn_fee
          d.owners_fee reward d.burn_price d.owner_price d.fees_covered in
      record {
        price = rw (d.staked_eq, d.shares_eq) price;
        shares = omega (arith, d.account_shares_eq, d.shares_eq);
        funds = omega (arith, d.staked_eq, d.unstaked_eq);
      }

  pub ping-IsSound :
      (e : Env) (w : World) (r : Bool × World)
      → internal_ping e w ≡ ok r
      → IsSound 0 w.contract r.1.contract
  ping-IsSound e w r h = elim (ping_cases e w r h) [
    | inl same ↦ rw same IsSound-refl
    | inr n ↦ rw n.result (elim (NewEpoch-cases e w r n) [
      | inl d ↦
          let s =
            distribute-IsSound (record w.contract { last_epoch_height = e.epoch_height })
              (n.total - w.contract.last_total_balance) n.rewarded n.total (omega (arith, n.grown))
              d in
          record { price = s.price; shares = s.shares; funds = s.funds }
      | inr (zero_reward, same) ↦
          rw same (record { price = omega arith; shares = refl; funds = omega (arith, n.grown) })
    ])
  ]
