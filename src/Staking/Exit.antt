-- ===== src/Staking/Exit.antt =====
-- A delegator can leave: all that an account has staked is unstaked in one call.
use staking_farm.Prelude.{
  Bool, sym, eq_iff, ℕ, ◌+◌, ◌-◌, ◌*◌, ◌/◌, ◌≤◌, ◌<◌, ◌≡◌, false, str_eq, arith, ◌∙◌, refl,
}
use native.Mathlib.Nat.{le_refl}
use staking_farm.Prelude.Arithmetic.{lt_of_mul_lt_mul, mul_le_mul, mul_lt_mul}
use staking_farm.Machine.{ok, u64_bound, u128_bound}
use staking_farm.Sdk.{AccountId}
use staking_farm.Env.{Env}
use staking_farm.Account.{Account}
use staking_farm.Contract.{Sdk, StakingContract, World}
use staking_farm.RewardFee.{num_epochs_to_unlock}
use staking_farm.Accounts.{
  zero_address, stored_account, internal_get_account, internal_save_account,
}
use staking_farm.Accounts.Stakes.{unstaked_at, shares_at, shares_at_le, stakes-save}
use staking_farm.Rewards.{internal_distribute_all_rewards}
use staking_farm.Rewards.Frame.{SamePool, distribute_all_frame}
use staking_farm.Shares.{
  num_shares_from_staked_amount_rounded_up, staked_amount_from_num_shares_rounded_down,
  staked_amount_from_num_shares_rounded_up,
}
use staking_farm.Shares.Rounding.{amount_down, shares_up, amount_up}
use staking_farm.Shares.Success.{amount_down_ok, amount_up_ok, shares_up_ok}
use staking_farm.Internal.{internal_ping, inner_unstake, internal_restake, internal_unstake_all}
use staking_farm.Staking.{unstake_all}
use staking_farm.Accounts.Sums.{account_shares}
use staking_farm.Frame.Staking.{contract-restake}
use staking_farm.Internal.Delegators.{unstake_pays_and_locks}
use staking_farm.Internal.Outcome.{unstake-Unstaked, amount_down-save}

-- At a price of at least one, the shares that the worth of `x` shares takes, rounded up, are `x`.
worth_takes_all :
    (t s x amount n : ℕ)
    → 0 < s
    → s ≤ t
    → 0 < x
    → amount * s ≤ t * x
    → t * x < amount * s + s
    → s * amount ≤ n * t
    → n * t < s * amount + t
    → (0 < amount) × (n ≡ x)
worth_takes_all t s x amount n pos price some_shares lower upper bought sold =
    let positive =
      lt_of_mul_lt_mul x (amount + 1) s
        (omega (arith, upper, mul_le_mul s x t x price (le_refl x))) in
    let few = lt_of_mul_lt_mul n (x + 1) t (omega (arith, sold, lower)) in
    let many = lt_of_mul_lt_mul x (n + 1) t (omega (arith, bought, upper, price)) in
    (omega (arith, positive, some_shares), omega (arith, few, many))

module _ ⦃sdk : Sdk⦄ where
  is_burn-account :
      (c : StakingContract) (id : AccountId)
      → (internal_get_account c id).is_burn_account ≡ str_eq id zero_address
  unfolding internal_get_account
  is_burn-account c id = refl

  -- The steps of an unstake, each of which succeeds.
  unstake_runs :
      (e : Env) (c c1 : StakingContract) (a : Account) (id : AccountId) (amount n receive taken : ℕ)
      → str_eq id zero_address ≡ false
      → internal_distribute_all_rewards e c (internal_get_account c id) ≡ ok (c1, a)
      → 0 < amount
      → 0 < c1.total_staked_balance
      → num_shares_from_staked_amount_rounded_up c1 amount ≡ ok n
      → 0 < n
      → n ≤ a.stake_shares
      → staked_amount_from_num_shares_rounded_up c1 n ≡ ok receive
      → 0 < receive
      → a.unstaked + receive < u128_bound
      → e.epoch_height + num_epochs_to_unlock < u64_bound
      → staked_amount_from_num_shares_rounded_down c1 n ≡ ok taken
      → taken ≤ c1.total_staked_balance
      → n ≤ c1.total_stake_shares
      → (c' : StakingContract) × (inner_unstake e c id amount ≡ ok c')
  unfolding inner_unstake internal_save_account
  unstake_runs e c c1 a id amount n receive taken not_zero settled p p1 q p2 p3 q1 p4 p5 p6 q2 p7
        p8 =
      let a1 = record a {
        stake_shares = a.stake_shares - n;
        unstaked = a.unstaked + receive;
        unstaked_available_epoch_height = e.epoch_height + num_epochs_to_unlock;
      } in
      let kept = (distribute_all_frame e c (internal_get_account c id) settled).1 in
      let plain : a.is_burn_account ≡ false = kept.is_burn ∙ is_burn-account c id ∙ not_zero in
      (
        record (internal_save_account c1 id a1) {
          total_staked_balance = c1.total_staked_balance - taken;
          total_stake_shares = c1.total_stake_shares - n;
        },
        ground (arith, settled, q, q1, amount_down-save c1 id a1 n ∙ q2, plain),
      )

  -- Conversions read only the totals.
  SamePool-conversions :
      (c c1 : StakingContract)
      → SamePool c c1
      → ((n : ℕ)
          → num_shares_from_staked_amount_rounded_up c1 n
            ≡ num_shares_from_staked_amount_rounded_up c n)
        × ((n : ℕ)
            → staked_amount_from_num_shares_rounded_up c1 n
              ≡ staked_amount_from_num_shares_rounded_up c n)
        × ((n : ℕ)
            → staked_amount_from_num_shares_rounded_down c1 n
              ≡ staked_amount_from_num_shares_rounded_down c n)
  unfolding num_shares_from_staked_amount_rounded_up staked_amount_from_num_shares_rounded_up
      staked_amount_from_num_shares_rounded_down
  SamePool-conversions c c1 same = (
    (λ n. rw (same.total_shares, same.total_staked) refl),
    (λ n. rw (same.total_shares, same.total_staked) refl),
    (λ n. rw (same.total_shares, same.total_staked) refl),
  )

  -- An unstake of what an account's shares are worth succeeds.
  unstake_worth_ok :
      (e : Env) (c c1 : StakingContract) (a : Account) (id : AccountId)
      → str_eq id zero_address ≡ false
      → internal_distribute_all_rewards e c (internal_get_account c id) ≡ ok (c1, a)
      → 0 < shares_at c id
      → shares_at c id ≤ c.total_stake_shares
      → c.total_stake_shares ≤ c.total_staked_balance
      → unstaked_at c id + c.total_staked_balance < u128_bound
      → e.epoch_height + num_epochs_to_unlock < u64_bound
      → let amount = c.total_staked_balance * shares_at c id / c.total_stake_shares in
        (staked_amount_from_num_shares_rounded_down c (shares_at c id) ≡ ok amount)
        × (c' : StakingContract) × (inner_unstake e c id amount ≡ ok c')
  unstake_worth_ok e c c1 a id not_zero settled some_shares held price fits epoch =
      let x = shares_at c id in
      let (same, kept) = distribute_all_frame e c (internal_get_account c id) settled in
      let (shares_same, up_same, down_same) = SamePool-conversions c c1 same in
      let (worth, worth_le) = amount_down_ok c x (omega arith) held (omega arith) (omega arith) in
      let amount = c.total_staked_balance * x / c.total_stake_shares in
      let n =
        (c.total_stake_shares * amount + (c.total_staked_balance - 1)) / c.total_staked_balance in
      let bought = shares_up_ok c amount (omega arith) worth_le (omega arith) (omega arith) in
      let down = amount_down c x amount worth in
      let up = shares_up c amount n bought in
      let (positive, all) =
        worth_takes_all c.total_staked_balance c.total_stake_shares x amount n (omega arith) price
          some_shares down.1 down.2 up.1 up.2 in
      let n_held : n ≤ c.total_stake_shares = omega (arith, all, held) in
      let (receives, receive_le) =
        amount_up_ok c n (omega arith) n_held (omega arith) (omega arith) in
      let (takes, taken_le) = amount_down_ok c n (omega arith) n_held (omega arith) (omega arith) in
      let receive =
        (c.total_staked_balance * n + (c.total_stake_shares - 1)) / c.total_stake_shares in
      let taken = c.total_staked_balance * n / c.total_stake_shares in
      let received = amount_up c n receive receives in
      let cost = mul_lt_mul 0 0 c.total_staked_balance n (omega arith) (omega (arith, all)) in
      let receive_positive =
        lt_of_mul_lt_mul 0 receive c.total_stake_shares (omega (arith, cost, received)) in
      let (c', runs) =
        unstake_runs e c c1 a id amount n receive taken not_zero settled positive
          (omega (arith, same.total_staked)) (shares_same amount ∙ bought) (omega (arith, all))
          (omega (arith, all, kept.stake_shares)) (up_same n ∙ receives) receive_positive
          (omega (arith, kept.unstaked, receive_le)) epoch (down_same n ∙ takes)
          (omega (arith, taken_le, same.total_staked)) (omega (arith, n_held, same.total_shares)) in
      (worth, c', runs)

  -- An unstake of what an account's shares are worth leaves it none.
  worth_empties :
      (e : Env) (c : StakingContract) (id : AccountId) (amount : ℕ) (c' : StakingContract)
      → staked_amount_from_num_shares_rounded_down c (shares_at c id) ≡ ok amount
      → c.total_stake_shares ≤ c.total_staked_balance
      → 0 < shares_at c id
      → inner_unstake e c id amount ≡ ok c'
      → shares_at c' id ≡ 0
  unfolding internal_get_account stored_account
  worth_empties e c id amount c' worth price some_shares h =
      let o = unstake-Unstaked e c id amount h in
      let (same, kept) = distribute_all_frame e c (internal_get_account c id) o.rewards in
      let a = record o.account {
        stake_shares = o.account.stake_shares - o.num_shares;
        unstaked = o.account.unstaked + o.receive_amount;
        unstaked_available_epoch_height = e.epoch_height + num_epochs_to_unlock;
      } in
      let (shares_same, up_same, down_same) = SamePool-conversions c o.paid same in
      let down = amount_down c (shares_at c id) amount worth in
      let up = shares_up c amount o.num_shares (sym (shares_same amount) ∙ o.shares_eq) in
      let all =
        worth_takes_all c.total_staked_balance c.total_stake_shares (shares_at c id) amount
          o.num_shares down.0 price some_shares down.1 down.2 up.1 up.2 in
      let s = stakes-save c o.paid id id a same.accounts in
      ground (arith, o.result, s, kept.stake_shares, eq_iff id id, all)

  -- A delegator can leave. After a ping that succeeds, if the farm rewards of the caller can be
  -- settled, the caller has shares and is not the account of the burnt shares, some shares belong to
  -- no account, a share is worth at least one yoctoNEAR, and balances and epochs are in range, then
  -- `unstake_all` succeeds: the caller has no shares left, and what they were worth, or more, has
  -- been added to the unstaked balance.
  pub unstake_all_succeeds :
      (e : Env) (w w1 : World) (b : Bool) (c2 : StakingContract) (a : Account)
      → let c = w1.contract in
        let id = e.predecessor_account_id in
        let account = internal_get_account c id in
        internal_ping e w ≡ ok (b, w1)
        → str_eq id zero_address ≡ false
        → internal_distribute_all_rewards e c account ≡ ok (c2, a)
        → 0 < account.stake_shares
        → account_shares c < c.total_stake_shares
        → c.total_stake_shares ≤ c.total_staked_balance
        → account.unstaked + c.total_staked_balance < u128_bound
        → e.epoch_height + num_epochs_to_unlock < u64_bound
        → (w' : World) × (unstake_all e w ≡ ok w')
          × ((internal_get_account w'.contract id).stake_shares ≡ 0)
          × (account.unstaked + c.total_staked_balance * account.stake_shares / c.total_stake_shares
              ≤ (internal_get_account w'.contract id).unstaked)
  unfolding unstake_all internal_unstake_all
  unstake_all_succeeds e w w1 b c2 a pinged not_zero settled some_shares unowned price fits epoch =
      let c = w1.contract in
      let id = e.predecessor_account_id in
      let held = shares_at_le c id in
      let (worth, c', runs) =
        unstake_worth_ok e c c2 a id not_zero settled some_shares (omega (arith, held)) price fits
          epoch in
      let amount = c.total_staked_balance * shares_at c id / c.total_stake_shares in
      let empty = worth_empties e c id amount c' worth price some_shares runs in
      let paid = unstake_pays_and_locks e c id amount c' runs in
      let w' = internal_restake e (record w1 { contract = c' }) in
      let same : w'.contract ≡ c' = contract-restake e (record w1 { contract = c' }) in
      (w', rw (pinged, worth, runs) refl, rw same empty, rw same paid.0)
