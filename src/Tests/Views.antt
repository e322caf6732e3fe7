-- ===== src/Tests/Views.antt =====
-- The view of an unclaimed reward, at a farm of which ten sessions have passed.
use staking_farm.Prelude.{ℕ, ◌*◌, ◌≤◌, ◌≡◌, refl, List, [], ◌∷◌, arith}
use staking_farm.Prelude.Classes.{string_key}
use staking_farm.Machine.{ok}
use staking_farm.HashMap.{get_or_zero}
use staking_farm.Account.{Account}
use staking_farm.Farm.{Farm}
use staking_farm.Rewards.{internal_distribute_reward}
use staking_farm.Views.{HumanReadableAccount, get_unclaimed_reward, get_number_of_accounts}
use staking_farm.Views.Pages.{read_pages}
use staking_farm.Views.Pages.Complete.{Shows, ids, pages_show_all_accounts}
use staking_farm.Sdk.{AccountId, contains, IsNodup, is_some}
use staking_farm.Contract.{StakingContract}
use staking_farm.Accounts.Sums.{shares_of}
use staking_farm.Solvency.{HasUnowned}
use staking_farm.Views.Rewards.{view_foretells_reward}
use staking_farm.Tests.Example.{example_sdk, bob, pool, near}
use staking_farm.Tests.Delegation.{result_or}
use staking_farm.Tests.Farming.{farm, farming, farming_env}

abbrev shown : ℕ
unfolding get_unclaimed_reward
shown = result_or 0 (get_unclaimed_reward farming_env farming "bob" 0)

shown_ok : get_unclaimed_reward farming_env farming "bob" 0 ≡ ok shown
unfolding get_unclaimed_reward staking_farm.Rewards.internal_unclaimed_balance
    staking_farm.Distribution.internal_calculate_distribution
    staking_farm.Distribution.reward_per_session staking_farm.Distribution.cap_reward
    staking_farm.Distribution.raise_reward_per_share
shown_ok = refl

abbrev given : Account × Farm
unfolding internal_distribute_reward
given = result_or (bob, farm) (internal_distribute_reward farming_env farming bob 0 farm)

given_ok : internal_distribute_reward farming_env farming bob 0 farm ≡ ok (given.0, given.1)
unfolding internal_distribute_reward staking_farm.Rewards.internal_unclaimed_balance
    staking_farm.Distribution.internal_calculate_distribution
    staking_farm.Distribution.reward_per_session staking_farm.Distribution.cap_reward
    staking_farm.Distribution.raise_reward_per_share
given_ok = refl

view_foretells_reward_example : get_or_zero "token" given.0.amounts ≡ shown
view_foretells_reward_example =
    view_foretells_reward farming_env farming "bob" 0 bob given.0 farm given.1 shown refl refl refl
      refl shown_ok given_ok

-- A pool with two accounts, read one by one.
abbrev two_accounts : StakingContract
two_accounts = record pool {
  accounts = ("bob", bob) ∷ ("carol", record bob { stake_shares = near }) ∷ [];
}

some_unowned : HasUnowned two_accounts
unfolding shares_of
some_unowned = omega arith

room : get_number_of_accounts two_accounts ≤ 2 * 1
unfolding get_number_of_accounts
room = omega arith

pages_show_all_accounts_example :
    (xs : List HumanReadableAccount) × (read_pages farming_env two_accounts 1 2 0 ≡ ok xs)
    × Shows farming_env two_accounts ("bob" ∷ "carol" ∷ []) xs
    × IsNodup (ids xs)
    × ((id : AccountId)
        → contains (ids xs) id ≡ is_some (example_sdk.accounts.get two_accounts.accounts id))
pages_show_all_accounts_example =
    pages_show_all_accounts farming_env two_accounts some_unowned (omega arith) (omega arith) 1 2
      room (omega arith)
