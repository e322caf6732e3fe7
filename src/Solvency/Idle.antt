-- ===== src/Solvency/Idle.antt =====
-- What an account is worth never falls while its owner makes no calls.
use staking_farm.Prelude.{
  ℕ, ◌+◌, ◌*◌, ◌≤◌, ◌<◌, ◌≡◌, refl, List, [], ◌∷◌, arith, str_eq, Bool, true, false, not, ◌&&◌,
}
use staking_farm.Prelude.Arithmetic.{mul_le_mul, lt_of_mul_lt_mul}
use native.Mathlib.Nat.{le_refl}
use staking_farm.Machine.{ok, bind_ok}
use staking_farm.Sdk.{AccountId}
use staking_farm.Env.{Env}
use staking_farm.Contract.{Sdk, StakingContract, World}
use staking_farm.Accounts.{zero_address}
use staking_farm.Accounts.Stakes.{unstaked_at, shares_at}
use staking_farm.Shares.{staked_amount_from_num_shares_rounded_down}
use staking_farm.Shares.Rounding.{amount_down}
use staking_farm.Views.{get_account, get_account_total_balance}
use staking_farm.Calls.{Call, transact, history}
use staking_farm.Solvency.{HasUnowned}
use staking_farm.Solvency.History.{history-Sound}
use staking_farm.Solvency.Others.{Unharmed, transact-Unharmed}

-- `n` is the worth of `x` of the `s` shares at a staked balance `t`, rounded down; likewise later.
worth_rises :
    (t s t' s' x x' n n' : ℕ)
    → 0 < s
    → n * s ≤ t * x
    → t' * x' < n' * s' + s'
    → t * s' ≤ t' * s
    → x ≤ x'
    → n ≤ n'
worth_rises t s t' s' x x' n n' pos before after price more =
    let paid = mul_le_mul (n * s) s' (t * x) s' before (le_refl s') in
    let risen = mul_le_mul (t * s') x (t' * s) x' price more in
    let below = mul_le_mul (t' * x' + 1) s (n' * s' + s') s (omega (arith, after)) (le_refl s) in
    let all : n * (s * s') < (n' + 1) * (s * s') = omega (arith, paid, risen, below, pos) in
    omega (arith, lt_of_mul_lt_mul n (n' + 1) (s * s') all)

module _ ⦃sdk : Sdk⦄ where
  -- Whether none of the calls is made by the account.
  unfoldable pub made_by_others : AccountId → List (Env × Call) → Bool
  made_by_others j [] = true
  made_by_others j ((e, _) ∷ calls) =
      not (str_eq e.predecessor_account_id j) && made_by_others j calls

  history-Unharmed :
      (j : AccountId) (calls : List (Env × Call)) (w : World)
      → str_eq zero_address j ≡ false
      → made_by_others j calls ≡ true
      → Unharmed j w.contract (history w calls).contract
  unfolding history made_by_others
  history-Unharmed j [] w not_zero others = (refl, le_refl (shares_at w.contract j))
  history-Unharmed j ((e, call) ∷ calls) w not_zero others =
      let w1 = transact e w call in
      let step = transact-Unharmed j not_zero e (ground (arith, others)) w call in
      let rest = history-Unharmed j calls w1 not_zero (ground (arith, others)) in
      omega (arith, step, rest)

  total_balance_parts :
      (e : Env) (c : StakingContract) (j : AccountId) (n : ℕ)
      → get_account_total_balance e c j ≡ ok n
      → (staked : ℕ) × (staked_amount_from_num_shares_rounded_down c (shares_at c j) ≡ ok staked)
        × (n ≡ unstaked_at c j + staked)
  unfolding get_account_total_balance get_account
  total_balance_parts e c j n h = bind_ok (get_account e c j) _ h λ a p h.
      bind_ok (staked_amount_from_num_shares_rounded_down c (shares_at c j)) _ p
        λ staked q p. (staked, q, ground (arith, h, p))

  -- Whatever calls others make, on a contract in which some shares belong to no account, the total
  -- balance that the views show of an account does not fall. The account is not that of the burnt
  -- shares.
  pub idle_account_keeps_worth :
      (e e' : Env) (w : World) (calls : List (Env × Call)) (j : AccountId) (before after : ℕ)
      → HasUnowned w.contract
      → str_eq zero_address j ≡ false
      → made_by_others j calls ≡ true
      → get_account_total_balance e w.contract j ≡ ok before
      → get_account_total_balance e' (history w calls).contract j ≡ ok after
      → before ≤ after
  idle_account_keeps_worth e e' w calls j before after unowned not_zero others shown shown_later =
      let c = w.contract in
      let c' = (history w calls).contract in
      let (n, staked, sum) = total_balance_parts e c j before shown in
      let (n', staked', sum') = total_balance_parts e' c' j after shown_later in
      let kept = history-Unharmed j calls w not_zero others in
      let down = amount_down c (shares_at c j) n staked in
      let down' = amount_down c' (shares_at c' j) n' staked' in
      let price = (history-Sound calls w unowned).price in
      let worth =
        worth_rises c.total_staked_balance c.total_stake_shares c'.total_staked_balance
          c'.total_stake_shares (shares_at c j) (shares_at c' j) n n' down.0 down.1 down'.2 price
          kept.1 in
      omega (arith, sum, sum', kept, worth)
