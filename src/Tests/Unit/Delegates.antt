-- ===== src/Tests/Unit/Delegates.antt =====
-- Several delegates, and long runs of stakes, in the unit tests of staking-farm/src/lib.rs.
use staking_farm.Prelude.{
  ℕ, zero, suc, ◌+◌, ◌-◌, ◌%◌, ◌≡◌, refl, String, true, false, List, ◌∷◌, [], leb,
}
use staking_farm.Machine.{Result, ok, err, sub, assert, ◌>>=◌, ◌>>◌, assertion_failed}
use staking_farm.Views.{HumanReadableAccount, collect, range, get_accounts, get_number_of_accounts}
use staking_farm.Tests.Emulator.{
  Emulator, alice, bob, zero_fee, ntoy, eq_in_near, update_context, skip_epochs,
}
use staking_farm.Tests.Unit.{
  unit_sdk, builder, new_pool, staked_balance, ping_as, deposit_as, stake_now,
}

-- Whether the accounts of a page have the given ids.
unfoldable ids_of : List HumanReadableAccount → List String
ids_of [] = []
ids_of (a ∷ l) = a.account_id ∷ ids_of l

-- A deposit and a stake by each of the two, three epochs apart.
unfoldable two_delegates : Result Emulator
unfolding new_pool deposit_as update_context stake_now skip_epochs staked_balance eq_in_near ping_as
    ntoy
two_delegates = do
  m ← new_pool zero_fee
  m1 ← deposit_as m alice (ntoy 1_000_000)
  m2 ← update_context builder m1 alice 0
  m3 ← stake_now m2 (ntoy 1_000_000)
  m4 ← skip_epochs builder m3 3
  m5 ← deposit_as m4 bob (ntoy 1_000_000)
  m6 ← update_context builder m5 bob 0
  m7 ← stake_now m6 (ntoy 1_000_000)
  staked ← staked_balance m7 bob
  assert (eq_in_near staked (ntoy 1_000_000)) assertion_failed
  m8 ← skip_epochs builder m7 3
  m9 ← ping_as m8 alice
  of_alice ← staked_balance m9 alice
  assert (eq_in_near of_alice (ntoy 1_060_900 - 1)) assertion_failed
  of_bob ← staked_balance m9 bob
  assert (eq_in_near of_bob (ntoy 1_030_000)) assertion_failed
  ok m9

-- The ids on the pages of the accounts that the test reads, and their number.
unfoldable test_two_delegates : Result (ℕ × List (List String))
unfolding two_delegates get_accounts get_number_of_accounts collect range ids_of
test_two_delegates = do
  m ← two_delegates
  all ← get_accounts m.context m.contract.contract 0 10
  second ← get_accounts m.context m.contract.contract 1 10
  first ← get_accounts m.context m.contract.contract 0 1
  nobody ← get_accounts m.context m.contract.contract 2 10
  ok (
    get_number_of_accounts m.contract.contract,
    ids_of all ∷ ids_of second ∷ ids_of first ∷ ids_of nobody ∷ [],
  )

-- The loop of the test, with as much fuel as there is balance. Without fuel it fails.
unfoldable low_balances : ℕ → Emulator → ℕ → ℕ → Result (Unit {0})
unfolding update_context stake_now sub
low_balances zero m remaining amount = err assertion_failed
low_balances (suc fuel) m remaining amount = elim (leb 4 remaining) as (λ _. Result (Unit {0})) [
  | true ↦ do
    m1 ← update_context builder m alice 0
    let amount1 = 2 + (amount - 1) % 3
    m2 ← stake_now m1 amount1
    rest ← sub remaining amount1
    low_balances fuel m2 rest amount1
  | false ↦ ok tt
]

unfoldable test_low_balances : Result (Unit {0})
unfolding new_pool deposit_as low_balances
test_low_balances = do m ← new_pool zero_fee; m1 ← deposit_as m alice 100; low_balances 100 m1 100 1

-- The loop of the test: three epochs before each stake.
unfoldable rewards : ℕ → Emulator → ℕ → ℕ → Result (Unit {0})
unfolding update_context skip_epochs ping_as stake_now sub ntoy
rewards zero m remaining amount = err assertion_failed
rewards (suc fuel) m remaining amount = elim (leb 4 remaining) as (λ _. Result (Unit {0})) [
  | true ↦ do
    m1 ← skip_epochs builder m 3
    m2 ← ping_as m1 alice
    m3 ← update_context builder m2 alice 0
    let amount1 = 2 + (amount - 1) % 3
    m4 ← stake_now m3 (ntoy amount1)
    rest ← sub remaining amount1
    rewards fuel m4 rest amount1
  | false ↦ ok tt
]

unfoldable test_rewards : Result (Unit {0})
unfolding new_pool deposit_as rewards ntoy
test_rewards = do m ← new_pool zero_fee; m1 ← deposit_as m alice (ntoy 100); rewards 100 m1 100 1

-- The map of these tests lists the account that was saved last first, so that "bob" comes before
-- "alice"; in the source, the map of near_sdk lists them as they were added.
two_delegates_passes :
    test_two_delegates ≡ ok (2, (bob ∷ alice ∷ []) ∷ (alice ∷ []) ∷ (bob ∷ []) ∷ [] ∷ [])
unfolding test_two_delegates
two_delegates_passes = refl

low_balances_passes : test_low_balances ≡ ok tt
unfolding test_low_balances
low_balances_passes = refl

rewards_passes : test_rewards ≡ ok tt
unfolding test_rewards
rewards_passes = refl
