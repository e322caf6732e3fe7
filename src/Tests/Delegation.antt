-- ===== src/Tests/Delegation.antt =====
-- Staking, unstaking and withdrawing, at the pool of the example.
use staking_farm.Prelude.{ℕ, ◌+◌, ◌-◌, ◌*◌, ◌≤◌, ◌<◌, ◌≡◌, ◌++◌, refl, true, false, [], ◌∷◌, arith}
use staking_farm.Machine.{Result, ok, err, unstaked_locked}
use staking_farm.Env.{Env}
use staking_farm.Contract.{StakingContract, World, Action, promise}
use staking_farm.Accounts.{internal_get_account}
use staking_farm.RewardFee.{num_epochs_to_unlock}
use staking_farm.Shares.{num_shares_from_staked_amount_rounded_up}
use staking_farm.Internal.{internal_stake, inner_unstake, internal_withdraw, internal_ping}
use staking_farm.Internal.Price.{PriceKept, stake-PriceKept, unstake-PriceKept}
use staking_farm.Internal.Delegators.{
  stake_charges_at_most, stake_is_fair, unstake_pays_and_locks, unstake_delays_withdrawal,
  withdraw_due,
}
use staking_farm.Internal.Ping.{ping_once_per_epoch}
use staking_farm.Tests.Example.{example_sdk, bob_env, call_env, pool, world, near}

abbrev pub result_or {ℓ} : {A : Type ℓ} → A → Result A → A
result_or a (ok b) = b
result_or a (err _) = a

-- The pool with a price that three shares for each four NEAR give.
abbrev pub priced : StakingContract
priced = record pool { total_staked_balance = 47 * near + 1 }

abbrev staked : StakingContract
unfolding internal_stake
staked = result_or priced (internal_stake (call_env "bob") priced (3 * near))

staked_ok : internal_stake (call_env "bob") priced (3 * near) ≡ ok staked
unfolding internal_stake staking_farm.Rewards.internal_distribute_all_rewards
    staking_farm.Rewards.distribute_farms
    staking_farm.Shares.num_shares_from_staked_amount_rounded_down
    staking_farm.Shares.staked_amount_from_num_shares_rounded_down internal_get_account
    staking_farm.Accounts.stored_account
    staking_farm.Shares.staked_amount_from_num_shares_rounded_up
    staking_farm.Accounts.internal_save_account
staked_ok = refl

stake-PriceKept_example : PriceKept priced staked
stake-PriceKept_example = stake-PriceKept (call_env "bob") priced (3 * near) staked staked_ok

stake_charges_at_most_example :
    let before = internal_get_account priced "bob" in
    let after = internal_get_account staked "bob" in
    (before.unstaked ≤ after.unstaked + 3 * near) × (before.stake_shares < after.stake_shares)
stake_charges_at_most_example =
    stake_charges_at_most (call_env "bob") priced (3 * near) staked staked_ok

-- The shares that the charge costs after the stake.
abbrev priced_shares : ℕ
unfolding num_shares_from_staked_amount_rounded_up internal_get_account internal_stake
priced_shares = result_or 0 (
    num_shares_from_staked_amount_rounded_up staked
      ((internal_get_account priced "bob").unstaked - (internal_get_account staked "bob").unstaked))

priced_shares_ok :
    num_shares_from_staked_amount_rounded_up staked
      ((internal_get_account priced "bob").unstaked - (internal_get_account staked "bob").unstaked)
    ≡ ok priced_shares
unfolding num_shares_from_staked_amount_rounded_up internal_get_account internal_stake
    staking_farm.Rewards.internal_distribute_all_rewards staking_farm.Rewards.distribute_farms
    staking_farm.Shares.num_shares_from_staked_amount_rounded_down
    staking_farm.Shares.staked_amount_from_num_shares_rounded_down
    staking_farm.Accounts.stored_account
    staking_farm.Shares.staked_amount_from_num_shares_rounded_up
    staking_farm.Accounts.internal_save_account
priced_shares_ok = refl

stake_is_fair_example :
    priced_shares
    ≤ (internal_get_account staked "bob").stake_shares
      - (internal_get_account priced "bob").stake_shares
stake_is_fair_example =
    stake_is_fair (call_env "bob") priced (3 * near) staked priced_shares staked_ok priced_shares_ok

abbrev unstaked : StakingContract
unfolding inner_unstake
unstaked = result_or priced (inner_unstake (call_env "bob") priced "bob" near)

unstaked_ok : inner_unstake (call_env "bob") priced "bob" near ≡ ok unstaked
unfolding inner_unstake staking_farm.Rewards.internal_distribute_all_rewards
    staking_farm.Rewards.distribute_farms num_shares_from_staked_amount_rounded_up
    internal_get_account staking_farm.Accounts.stored_account
    staking_farm.Shares.staked_amount_from_num_shares_rounded_up
    staking_farm.Shares.staked_amount_from_num_shares_rounded_down
    staking_farm.Accounts.internal_save_account
unstaked_ok = refl

unstake-PriceKept_example : PriceKept priced unstaked
unstake-PriceKept_example =
    unstake-PriceKept (call_env "bob") priced "bob" near unstaked unstaked_ok

unstake_pays_and_locks_example :
    let before = internal_get_account priced "bob" in
    let after = internal_get_account unstaked "bob" in
    (before.unstaked + near ≤ after.unstaked)
    × (after.stake_shares < before.stake_shares)
    × (after.unstaked_available_epoch_height ≡ 5 + num_epochs_to_unlock)
unstake_pays_and_locks_example =
    unstake_pays_and_locks (call_env "bob") priced "bob" near unstaked unstaked_ok

abbrev unstaked_world : World
unstaked_world = record world { contract = unstaked }

covered : near ≤ (internal_get_account unstaked "bob").unstaked
unfolding inner_unstake internal_get_account staking_farm.Accounts.stored_account
    staking_farm.Rewards.internal_distribute_all_rewards staking_farm.Rewards.distribute_farms
    num_shares_from_staked_amount_rounded_up
    staking_farm.Shares.staked_amount_from_num_shares_rounded_up
    staking_farm.Shares.staked_amount_from_num_shares_rounded_down
    staking_farm.Accounts.internal_save_account
covered = omega arith

unstake_delays_withdrawal_example :
    internal_withdraw (record bob_env { epoch_height = 8 }) unstaked_world "bob" near
    ≡ err unstaked_locked
unstake_delays_withdrawal_example =
    unstake_delays_withdrawal (call_env "bob") (record bob_env { epoch_height = 8 }) unstaked_world
      priced "bob" near near unstaked_ok (omega arith) covered (omega arith)

available : near ≤ (internal_get_account pool "bob").unstaked
unfolding internal_get_account staking_farm.Accounts.stored_account
available = omega arith

unlocked : (internal_get_account pool "bob").unstaked_available_epoch_height ≤ 5
unfolding internal_get_account staking_farm.Accounts.stored_account
unlocked = omega arith

withdraw_due_example :
    (w' : World) × (internal_withdraw (call_env "bob") world "bob" near ≡ ok w')
    × ((internal_get_account w'.contract "bob").unstaked
        ≡ (internal_get_account pool "bob").unstaked - near)
    × (w'.contract.last_total_balance ≡ pool.last_total_balance - near)
    × (w'.scheduled ≡ world.scheduled ++ promise "bob" (Action.transfer near) ∷ [])
withdraw_due_example =
    withdraw_due (call_env "bob") world "bob" near (omega arith) available unlocked (omega arith)

-- A ping in the epoch after, with a reward of about five NEAR.
abbrev next_epoch : Env
next_epoch = record (call_env "bob") { epoch_height = 6 }

abbrev pinged : World
unfolding internal_ping
pinged = (result_or (false, world) (internal_ping next_epoch world)).1

pinged_ok : internal_ping next_epoch world ≡ ok (true, pinged)
unfolding internal_ping staking_farm.Internal.distribute_total_reward staking_farm.Ratio.multiply
    staking_farm.RewardFee.current staking_farm.RewardFee.new_fee
    staking_farm.Shares.num_shares_from_staked_amount_rounded_down
    staking_farm.Accounts.internal_add_shares internal_get_account
    staking_farm.Accounts.stored_account staking_farm.Accounts.internal_save_account
pinged_ok = refl

ping_once_per_epoch_example : internal_ping next_epoch pinged ≡ ok (false, pinged)
ping_once_per_epoch_example =
    ping_once_per_epoch next_epoch next_epoch world true pinged pinged_ok refl
