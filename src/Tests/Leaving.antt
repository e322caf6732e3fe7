-- ===== src/Tests/Leaving.antt =====
-- A delegator who leaves, one who makes no calls, and the shares to be burnt.
use staking_farm.Prelude.{
  ℕ, ◌+◌, ◌-◌, ◌*◌, ◌/◌, ◌≤◌, ◌<◌, ◌≡◌, refl, true, false, List, [], ◌∷◌, arith,
}
use staking_farm.Machine.{ok, u128_bound}
use staking_farm.Env.{Env}
use staking_farm.Ratio.{Ratio}
use staking_farm.RewardFee.{new_fee}
use staking_farm.Contract.{World}
use staking_farm.Accounts.{
  zero_address, stored_account, internal_get_account, internal_save_account,
}
use staking_farm.Accounts.Sums.{shares_of}
use staking_farm.Shares.{staked_amount_from_num_shares_rounded_down}
use staking_farm.Rewards.{farmed_shares, distribute_farms, internal_distribute_all_rewards}
use staking_farm.Init.{new, stake_share_price_guarantee_fund}
use staking_farm.Internal.{internal_restake, internal_ping}
use staking_farm.Staking.{unstake_all}
use staking_farm.Staking.Exit.{unstake_all_succeeds}
use staking_farm.Views.{get_account_total_balance}
use staking_farm.Calls.{Call, dispatch, execute, history}
use staking_farm.Solvency.{HasUnowned}
use staking_farm.Solvency.Idle.{made_by_others, idle_account_keeps_worth}
use staking_farm.Solvency.Burnt.{burn_shares_covered}
use staking_farm.Tests.Example.{example_sdk, bob_env, call_env, tenth, world, near}
use staking_farm.Tests.Delegation.{result_or, priced}

-- The pool in which four shares are worth more than five NEAR.
abbrev priced_world : World
priced_world = record world { contract = priced }

abbrev bob_call : Env
bob_call = call_env "bob"

pinged : internal_ping bob_call priced_world ≡ ok (false, priced_world)
unfolding internal_ping
pinged = refl

settled :
    internal_distribute_all_rewards bob_call priced (internal_get_account priced "bob")
    ≡ ok (priced, internal_get_account priced "bob")
unfolding internal_distribute_all_rewards distribute_farms
settled = refl

some_shares : 0 < (internal_get_account priced "bob").stake_shares
unfolding internal_get_account stored_account
some_shares = omega arith

in_range : (internal_get_account priced "bob").unstaked + priced.total_staked_balance < u128_bound
unfolding internal_get_account stored_account
in_range = omega arith

some_unowned : HasUnowned priced
unfolding shares_of
some_unowned = omega arith

unstake_all_succeeds_example :
    (w' : World) × (unstake_all bob_call priced_world ≡ ok w')
    × ((internal_get_account w'.contract "bob").stake_shares ≡ 0)
    × ((internal_get_account priced "bob").unstaked
          + priced.total_staked_balance
            * (internal_get_account priced "bob").stake_shares
            / priced.total_stake_shares
        ≤ (internal_get_account w'.contract "bob").unstaked)
unstake_all_succeeds_example =
    unstake_all_succeeds bob_call priced_world priced_world false priced
      (internal_get_account priced "bob") pinged refl settled some_shares some_unowned (omega arith)
      in_range (omega arith)

-- Calls of someone else: a deposit that is staked, and a ping in the next epoch.
abbrev carol_call : Env
carol_call = record bob_env { predecessor_account_id = "carol" }

abbrev others : List (Env × Call)
others =
    (carol_call, Call.deposit_and_stake)
    ∷ (record carol_call { epoch_height = 6; account_balance = 98 * near }, Call.deposit)
    ∷ []

made : made_by_others "bob" others ≡ true
unfolding made_by_others
made = refl

abbrev shown : ℕ
unfolding get_account_total_balance
shown = result_or 0 (get_account_total_balance bob_call priced "bob")

shown_ok : get_account_total_balance bob_call priced "bob" ≡ ok shown
unfolding get_account_total_balance staked_amount_from_num_shares_rounded_down internal_get_account
    stored_account
shown_ok = refl

abbrev later : ℕ
unfolding get_account_total_balance
later =
    result_or 0 (get_account_total_balance bob_call (history priced_world others).contract "bob")

later_ok :
    get_account_total_balance bob_call (history priced_world others).contract "bob" ≡ ok later
unfolding get_account_total_balance history execute dispatch internal_get_account stored_account
    staking_farm.Staking.deposit staking_farm.Staking.deposit_and_stake internal_save_account
    internal_restake internal_ping internal_distribute_all_rewards distribute_farms
    staking_farm.Internal.internal_stake staking_farm.Internal.distribute_total_reward
    staking_farm.Ratio.multiply staking_farm.RewardFee.current new_fee
    staking_farm.Shares.num_shares_from_staked_amount_rounded_down
    staked_amount_from_num_shares_rounded_down
    staking_farm.Shares.staked_amount_from_num_shares_rounded_up
    staking_farm.Accounts.internal_add_shares staking_farm.Accounts.internal_deposit
later_ok = refl

idle_account_keeps_worth_example : shown ≤ later
idle_account_keeps_worth_example =
    idle_account_keeps_worth bob_call bob_call priced_world others "bob" shown later some_unowned
      refl made shown_ok later_ok

-- A pool that burns a tenth of its rewards, and a call in a later epoch.
abbrev burning_calls : List (Env × Call)
burning_calls =
    (bob_env, Call.deposit_and_stake)
    ∷ (record bob_env { epoch_height = 6; account_balance = 98 * near }, Call.deposit)
    ∷ (record bob_env { epoch_height = 7; attached_deposit = 0 }, Call.unstake_burn)
    ∷ []

abbrev initial : World
unfolding new
initial = result_or world (new bob_env "alice" 7 tenth tenth)

created : new bob_env "alice" 7 tenth tenth ≡ ok initial
unfolding new internal_restake new_fee
created = refl

burn_shares_covered_example :
    let c = (history initial burning_calls).contract in
    (c.total_burn_shares ≤ (internal_get_account c zero_address).stake_shares)
    × (farmed_shares c ≡ ok (c.total_stake_shares - c.total_burn_shares))
    × (50 * near - stake_share_price_guarantee_fund ≤ c.total_stake_shares - c.total_burn_shares)
burn_shares_covered_example =
    burn_shares_covered bob_env "alice" 7 tenth tenth initial created (omega arith) burning_calls
