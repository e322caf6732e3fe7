-- ===== src/Solvency/Pool.antt =====
-- The promises of a pool that `new` has set up, over every sequence of calls that follows.
use staking_farm.Prelude.{ℕ, ◌+◌, ◌-◌, ◌*◌, ◌≤◌, ◌<◌, ◌≡◌, ap, List, arith}
use staking_farm.Prelude.Lists.{length}
use staking_farm.Prelude.Arithmetic.{le_of_mul_le_mul}
use staking_farm.Machine.{ok}
use staking_farm.Sdk.{AccountId}
use staking_farm.Env.{Env}
use staking_farm.Ratio.{Ratio}
use staking_farm.Contract.{Sdk, StakingContract, World}
use staking_farm.Accounts.Sums.{account_shares, account_unstaked, shares_of-new, unstaked_of-new}
use staking_farm.Internal.{internal_restake}
use staking_farm.Init.{new, stake_share_price_guarantee_fund}
use staking_farm.Calls.{Call, history}
use staking_farm.Solvency.{IsSound}
use staking_farm.Solvency.History.{history-Sound}

module _ ⦃sdk : Sdk⦄ where
  -- A new pool: no account holds anything, a share is worth one yoctoNEAR, and the fund that
  -- guarantees the price is not staked.
  pub new_books :
      (e : Env) (owner : AccountId) (key : sdk.PublicKey) (reward burn : Ratio) (w : World)
      → new e owner key reward burn ≡ ok w
      → (account_shares w.contract ≡ 0)
        × (account_unstaked w.contract ≡ 0)
        × (w.contract.total_stake_shares ≡ w.contract.total_staked_balance)
        × (w.contract.total_staked_balance + stake_share_price_guarantee_fund ≡ e.account_balance)
        × (w.contract.last_total_balance ≡ e.account_balance)
  unfolding new internal_restake
  new_books e owner key reward burn w h =
      ground (arith, shares_of-new ⦃sdk = sdk⦄, unstaked_of-new ⦃sdk = sdk⦄)

  module _ (e : Env) (owner : AccountId) (key : sdk.PublicKey) (reward burn : Ratio) (w : World)
      (created : new e owner key reward burn ≡ ok w)
      (staked : stake_share_price_guarantee_fund < e.account_balance)
      (calls : List (Env × Call)) where
    abbrev after : StakingContract
    after = (history w calls).contract

    pool-IsSound : IsSound (length calls) w.contract after
    pool-IsSound =
        history-Sound calls w (omega (arith, new_books e owner key reward burn w created))

    -- After any calls on a pool that `new` has set up with more than the guarantee fund, the total of
    -- shares is those of the accounts together with the initial stake.
    pub shares_accounted :
        (history w calls).contract.total_stake_shares
        ≡ account_shares (history w calls).contract
          + (e.account_balance - stake_share_price_guarantee_fund)
    shares_accounted =
        omega (arith, pool-IsSound.shares, new_books e owner key reward burn w created)

    -- After any calls on a pool that `new` has set up with more than the guarantee fund, a share is
    -- worth at least one yoctoNEAR.
    pub share_price_at_least_one :
        (history w calls).contract.total_stake_shares
        ≤ (history w calls).contract.total_staked_balance
    share_price_at_least_one =
        let b = new_books e owner key reward burn w created in
        let p = pool-IsSound.price in
        le_of_mul_le_mul after.total_stake_shares after.total_staked_balance
          w.contract.total_stake_shares (omega (arith, b))
          (omega (arith, p, ap (λ (t : ℕ). t * after.total_stake_shares) b.2))

    -- After at most as many calls as the guarantee fund has yoctoNEAR, on a pool that `new` has set up
    -- with more than that fund, the unstaked balances and the total staked balance are covered by the
    -- balance that the contract knows of.
    pub fund_covers_rounding :
        length calls ≤ stake_share_price_guarantee_fund
        → account_unstaked (history w calls).contract
            + (history w calls).contract.total_staked_balance
          ≤ (history w calls).contract.last_total_balance
    fund_covers_rounding few =
        omega (arith, pool-IsSound.funds, new_books e owner key reward burn w created)
