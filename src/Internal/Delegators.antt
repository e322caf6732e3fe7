-- ===== src/Internal/Delegators.antt =====
-- What staking, unstaking and withdrawing do for a delegator.
use staking_farm.Prelude.{ℕ, ◌+◌, ◌-◌, ◌*◌, ◌≤◌, ◌<◌, ◌≡◌, refl, ap, arith, ◌++◌, [], ◌∷◌}
use staking_farm.Prelude.Arithmetic.{lt_of_mul_lt_mul, le_of_mul_le_mul, mul_le_mul}
use native.Mathlib.Nat.{le_refl}
use staking_farm.Machine.{ok, err, unstaked_locked}
use staking_farm.Sdk.{AccountId}
use staking_farm.Env.{Env}
use staking_farm.RewardFee.{num_epochs_to_unlock}
use staking_farm.Contract.{Sdk, StakingContract, World, Action, promise, schedule}
use staking_farm.Accounts.{internal_get_account, internal_save_account, is_kept}
use staking_farm.Accounts.Sums.{save_totals}
use staking_farm.Accounts.Saving.{get-save_self, available-save_self, get_account-accounts}
use staking_farm.Rewards.Frame.{distribute_all_frame}
use staking_farm.Shares.{num_shares_from_staked_amount_rounded_up}
use staking_farm.Shares.Rounding.{shares_down, shares_up, amount_down, amount_up}
use staking_farm.Internal.{internal_stake, inner_unstake, internal_withdraw}
use staking_farm.Internal.Outcome.{stake-Staked, unstake-Unstaked}
use staking_farm.Internal.Price.{stake_totals}

-- The charge is at most the amount: n shares of the amount, rounded down twice.
charge_le :
    (t s amount n charge : ℕ) → 0 < s → n * t ≤ s * amount → charge * s ≤ t * n → charge ≤ amount
charge_le t s amount n charge pos h k = le_of_mul_le_mul charge amount s pos (omega arith)

-- The shares that the charge is worth after staking are at most those received.
redeem_le :
    (t s n charge stake m : ℕ)
    → charge * s ≤ t * n
    → charge ≤ stake
    → m * (t + stake) < (s + n) * charge + (t + stake)
    → m ≤ n
redeem_le t s n charge stake m h k l = omega (
  arith,
  lt_of_mul_lt_mul m (n + 1) (t + stake) (omega (arith, mul_le_mul n charge n stake (le_refl n) k)),
)

-- Shares rounded up are worth at least the amount.
receive_ge :
    (t s amount n receive : ℕ) → 0 < s → s * amount ≤ n * t → t * n ≤ receive * s → amount ≤ receive
receive_ge t s amount n receive pos h k = le_of_mul_le_mul amount receive s pos (omega arith)

module _ ⦃sdk : Sdk⦄ where
  stake_outcome :
      (e : Env) (c : StakingContract) (amount : ℕ) (c' : StakingContract)
      → internal_stake e c amount ≡ ok c'
      → let before = internal_get_account c e.predecessor_account_id in
        let after = internal_get_account c' e.predecessor_account_id in
        (before.unstaked ≤ after.unstaked + amount)
        × (before.stake_shares < after.stake_shares)
        × ((m : ℕ)
            → num_shares_from_staked_amount_rounded_up c' (before.unstaked - after.unstaked) ≡ ok m
            → m ≤ after.stake_shares - before.stake_shares)
  stake_outcome e c amount c' h =
      let o = stake-Staked e c amount h in
      let id = e.predecessor_account_id in
      let t = stake_totals e c c' amount o in
      let (same, kept) = distribute_all_frame e c (internal_get_account c id) o.rewards in
      let a = record o.account {
        unstaked = o.account.unstaked - o.charge_amount;
        stake_shares = o.account.stake_shares + o.num_shares;
      } in
      let read =
        get_account-accounts (internal_save_account o.paid id a) c' id
          (ap (λ d. d.accounts) o.result) in
      let g = get-save_self o.paid id a in
      let down = amount_down o.paid o.num_shares o.charge_amount o.charge_eq in
      let up = amount_up o.paid o.num_shares o.stake_amount o.stake_eq in
      let bought = shares_down o.paid amount o.num_shares o.shares_eq in
      let fair =
        charge_le o.paid.total_staked_balance o.paid.total_stake_shares amount o.num_shares
          o.charge_amount down.0 bought.1 down.1 in
      let after = internal_get_account c' id in
      let unstaked_eq : after.unstaked + o.charge_amount ≡ (internal_get_account c id).unstaked =
        rw read (omega (arith, g, kept.unstaked, o.covered)) in
      let shares_eq : after.stake_shares ≡ (internal_get_account c id).stake_shares + o.num_shares =
        rw read (omega (arith, g, kept.stake_shares)) in
      (
        omega arith,
        omega (arith, o.shares_positive),
        λ m p.
            let charge : (internal_get_account c id).unstaked - after.unstaked ≡ o.charge_amount =
              omega arith in
            let q = shares_up c' o.charge_amount m (rw charge at p) in
            let staked : c'.total_staked_balance ≡ o.paid.total_staked_balance + o.stake_amount =
              omega (arith, t) in
            let shares : c'.total_stake_shares ≡ o.paid.total_stake_shares + o.num_shares =
              omega (arith, t) in
            let grown =
              le_of_mul_le_mul o.charge_amount o.stake_amount o.paid.total_stake_shares down.0
                (omega (arith, down.1, up.1)) in
            omega (
              arith,
              redeem_le o.paid.total_staked_balance o.paid.total_stake_shares o.num_shares
                  o.charge_amount o.stake_amount m down.1 grown (rw (staked, shares) at q.2),
            ),
      )

  -- A stake that succeeds gives the caller shares and charges at most the amount.
  pub stake_charges_at_most :
      (e : Env) (c : StakingContract) (amount : ℕ) (c' : StakingContract)
      → internal_stake e c amount ≡ ok c'
      → let before = internal_get_account c e.predecessor_account_id in
        let after = internal_get_account c' e.predecessor_account_id in
        (before.unstaked ≤ after.unstaked + amount) × (before.stake_shares < after.stake_shares)
  stake_charges_at_most e c amount c' h =
      let (charged, grown, fair) = stake_outcome e c amount c' h in (charged, grown)

  -- The guarantee of `internal_stake`: after a stake that succeeds, to unstake what it has charged takes,
  -- where the conversion succeeds at the price after it, no more shares than the stake gave.
  pub stake_is_fair :
      (e : Env) (c : StakingContract) (amount : ℕ) (c' : StakingContract) (num_shares : ℕ)
      → internal_stake e c amount ≡ ok c'
      → num_shares_from_staked_amount_rounded_up c' (
          (internal_get_account c e.predecessor_account_id).unstaked
          - (internal_get_account c' e.predecessor_account_id).unstaked)
        ≡ ok num_shares
      → num_shares
        ≤ (internal_get_account c' e.predecessor_account_id).stake_shares
          - (internal_get_account c e.predecessor_account_id).stake_shares
  stake_is_fair e c amount c' num_shares h priced =
      let (charged, grown, fair) = stake_outcome e c amount c' h in fair num_shares priced

  -- An unstake that succeeds pays at least the amount, for shares that the account held, and locks
  -- the unstaked balance for four epochs.
  pub unstake_pays_and_locks :
      (e : Env) (c : StakingContract) (id : AccountId) (amount : ℕ) (c' : StakingContract)
      → inner_unstake e c id amount ≡ ok c'
      → let before = internal_get_account c id in
        let after = internal_get_account c' id in
        (before.unstaked + amount ≤ after.unstaked)
        × (after.stake_shares < before.stake_shares)
        × (after.unstaked_available_epoch_height ≡ e.epoch_height + num_epochs_to_unlock)
  unfolding is_kept
  unstake_pays_and_locks e c id amount c' h =
      let o = unstake-Unstaked e c id amount h in
      let (same, kept) = distribute_all_frame e c (internal_get_account c id) o.rewards in
      let a = record o.account {
        stake_shares = o.account.stake_shares - o.num_shares;
        unstaked = o.account.unstaked + o.receive_amount;
        unstaked_available_epoch_height = e.epoch_height + num_epochs_to_unlock;
      } in
      let read =
        get_account-accounts (internal_save_account o.paid id a) c' id
          (ap (λ d. d.accounts) o.result) in
      let g = get-save_self o.paid id a in
      let up = amount_up o.paid o.num_shares o.receive_amount o.receive_eq in
      let sold = shares_up o.paid amount o.num_shares o.shares_eq in
      let paid =
        receive_ge o.paid.total_staked_balance o.paid.total_stake_shares amount o.num_shares
          o.receive_amount up.0 sold.1 up.1 in
      (
        rw read (omega (arith, g, kept.unstaked)),
        rw read (omega (arith, g, kept.stake_shares, o.covered, o.shares_positive)),
        rw read (available-save_self o.paid id a (ground (arith, o.receive_positive))),
      )

  -- After an unstake no withdrawal that the balance covers succeeds before four epochs have passed:
  -- it panics because the balance is locked.
  pub unstake_delays_withdrawal :
      (e e' : Env) (w : World) (c : StakingContract) (id : AccountId) (amount n : ℕ)
      → inner_unstake e c id amount ≡ ok w.contract
      → 0 < n
      → n ≤ (internal_get_account w.contract id).unstaked
      → e'.epoch_height < e.epoch_height + num_epochs_to_unlock
      → internal_withdraw e' w id n ≡ err unstaked_locked
  unfolding internal_withdraw
  unstake_delays_withdrawal e e' w c id amount n h pos enough early =
      let locked = unstake_pays_and_locks e c id amount w.contract h in ground (arith, locked.2)

  -- A withdrawal of a positive amount that the unstaked balance covers, that is not locked and that
  -- the balance of the contract covers succeeds: it takes the amount from the account and from the
  -- balance that the contract knows of, and schedules its transfer.
  pub withdraw_due :
      (e : Env) (w : World) (id : AccountId) (n : ℕ)
      → let a = internal_get_account w.contract id in
        0 < n
        → n ≤ a.unstaked
        → a.unstaked_available_epoch_height ≤ e.epoch_height
        → n ≤ w.contract.last_total_balance
        → (w' : World) × (internal_withdraw e w id n ≡ ok w')
          × ((internal_get_account w'.contract id).unstaked ≡ a.unstaked - n)
          × (w'.contract.last_total_balance ≡ w.contract.last_total_balance - n)
          × (w'.scheduled ≡ w.scheduled ++ promise id (Action.transfer n) ∷ [])
  unfolding internal_withdraw
  withdraw_due e w id n pos enough due known =
      let a = internal_get_account w.contract id in
      let a' = record a { unstaked = a.unstaked - n } in
      let c = internal_save_account w.contract id a' in
      let totals = save_totals w.contract id a' in
      let c' = record c { last_total_balance = c.last_total_balance - n } in
      let read = get_account-accounts c c' id refl in
      (
        record (schedule w (promise id (Action.transfer n))) { contract = c' },
        ground (arith, totals),
        rw read (get-save_self w.contract id a').0,
        ground (arith, totals),
        ground arith,
      )
