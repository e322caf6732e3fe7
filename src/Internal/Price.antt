-- ===== src/Internal/Price.antt =====
-- Staking and unstaking never lower the price of a stake share, and how they round.
use staking_farm.Prelude.{ℕ, ◌+◌, ◌*◌, ◌≤◌, ◌≡◌, arith}
use staking_farm.Machine.{ok}
use staking_farm.Sdk.{AccountId}
use staking_farm.Env.{Env}
use staking_farm.Contract.{Sdk, StakingContract}
use staking_farm.Accounts.{internal_get_account, internal_save_account}
use staking_farm.Rewards.Frame.{distribute_all_frame}
use staking_farm.Shares.Rounding.{amount_down, amount_up}
use staking_farm.Internal.{internal_stake, inner_unstake}
use staking_farm.Internal.Outcome.{Staked, Unstaked, stake-Staked, unstake-Unstaked}

price_raised : (t s k n : ℕ) {t' s' : ℕ} → t' ≡ t + k → s' ≡ s + n → t * n ≤ k * s → t * s' ≤ t' * s
price_raised t s k n et es h = rw (et, es) (omega arith)

price_lowered :
    (t' s' k n : ℕ) {t s : ℕ} → t' + k ≡ t → s' + n ≡ s → k * s ≤ t * n → t * s' ≤ t' * s
price_lowered t' s' k n et es h = rw (← et, ← es) (omega (arith, rw (← et, ← es) at h))

module _ ⦃sdk : Sdk⦄ where
  -- The price of a share, total staked balance over total shares, has not fallen.
  abbrev pub PriceKept : StakingContract → StakingContract → Type 0
  PriceKept c c' =
      c.total_staked_balance * c'.total_stake_shares
      ≤ c'.total_staked_balance * c.total_stake_shares

  -- How a successful stake changes the totals.
  pub stake_totals :
      (e : Env) (c c' : StakingContract) (amount : ℕ) (o : Staked e c amount c')
      → (c'.total_staked_balance ≡ c.total_staked_balance + o.stake_amount)
        × (c'.total_stake_shares ≡ c.total_stake_shares + o.num_shares)
        × (c'.total_burn_shares ≡ c.total_burn_shares)
        × (c'.last_total_balance ≡ c.last_total_balance)
        × (o.paid.total_staked_balance ≡ c.total_staked_balance)
        × (o.paid.total_stake_shares ≡ c.total_stake_shares)
  unfolding internal_save_account
  stake_totals e c c' amount o =
      let frame =
        distribute_all_frame e c (internal_get_account c e.predecessor_account_id) o.rewards in
      rw o.result (ground (arith, frame))

  -- How a successful unstake changes the totals.
  pub unstake_totals :
      (e : Env) (c c' : StakingContract) (id : AccountId) (amount : ℕ)
      (o : Unstaked e c id amount c')
      → (c'.total_staked_balance + o.unstake_amount ≡ c.total_staked_balance)
        × (c'.total_stake_shares + o.num_shares ≡ c.total_stake_shares)
        × (c'.last_total_balance ≡ c.last_total_balance)
        × (o.paid.total_staked_balance ≡ c.total_staked_balance)
        × (o.paid.total_stake_shares ≡ c.total_stake_shares)
  unfolding internal_save_account
  unstake_totals e c c' id amount o =
      let frame = distribute_all_frame e c (internal_get_account c id) o.rewards in
      rw o.result (ground (arith, frame, o.staked_covered, o.total_covered))

  -- A stake that succeeds does not lower the price of a share: the total staked balance over the
  -- total of shares.
  pub stake-PriceKept :
      (e : Env) (c : StakingContract) (amount : ℕ) (c' : StakingContract)
      → internal_stake e c amount ≡ ok c'
      → PriceKept c c'
  stake-PriceKept e c amount c' h =
      let o = stake-Staked e c amount h in
      let t = stake_totals e c c' amount o in
      let up = amount_up o.paid o.num_shares o.stake_amount o.stake_eq in
      price_raised c.total_staked_balance c.total_stake_shares o.stake_amount o.num_shares t.0 t.1
        (rw (t.4, t.5) at up.1)

  -- An unstake that succeeds does not lower the price of a share.
  pub unstake-PriceKept :
      (e : Env) (c : StakingContract) (id : AccountId) (amount : ℕ) (c' : StakingContract)
      → inner_unstake e c id amount ≡ ok c'
      → PriceKept c c'
  unstake-PriceKept e c id amount c' h =
      let o = unstake-Unstaked e c id amount h in
      let t = unstake_totals e c c' id amount o in
      let down = amount_down o.paid o.num_shares o.unstake_amount o.unstake_eq in
      price_lowered c'.total_staked_balance c'.total_stake_shares o.unstake_amount o.num_shares t.0
        t.1 (rw (t.3, t.4) at down.1)
