-- ===== src/Solvency.antt =====
-- The books of the contract: shares, staked and unstaked balances, and the price of a share,
-- before and after the operations of internal.rs.
pub mod Operations
pub mod History
pub mod Pool
pub mod Burnt
pub mod Others
pub mod Idle
use staking_farm.Prelude.{ℕ, ◌+◌, ◌*◌, ◌≤◌, ◌<◌, ◌≡◌, arith}
use staking_farm.Prelude.Arithmetic.{le_of_mul_le_mul, mul_le_mul}
use native.Mathlib.Nat.{le_refl}
use staking_farm.Contract.{Sdk, StakingContract, World}
use staking_farm.Accounts.Sums.{account_shares, account_unstaked}
use staking_farm.Internal.Price.{PriceKept}

module _ ⦃sdk : Sdk⦄ where
  -- What the contract owes to its accounts and stakers.
  abbrev pub debt : StakingContract → ℕ
  debt c = account_unstaked c + c.total_staked_balance

  -- From `c` to `c'`, with at most `k` roundings in favour of an account: the price of a share
  -- has not fallen, the shares that no account holds are as many as before, and what is owed has
  -- grown by at most `k` more than the balance that the contract knows of.
  pub record IsSound (k : ℕ) (c c' : StakingContract) : Type 0 where
    pub price : PriceKept c c'
    pub shares : account_shares c' + c.total_stake_shares ≡ account_shares c + c'.total_stake_shares
    pub funds : debt c' + c.last_total_balance ≤ debt c + c'.last_total_balance + k

  -- A call leads to a contract that is sound from the one before it.
  abbrev pub Sound : ℕ → World → World → Type 0
  Sound k w w' = IsSound k w.contract w'.contract

  -- Some shares belong to no account: those of the initial stake of the pool.
  abbrev pub HasUnowned : StakingContract → Type 0
  HasUnowned c = account_shares c < c.total_stake_shares

  pub IsSound-HasUnowned :
      (k : ℕ) (c c' : StakingContract) → IsSound k c c' → HasUnowned c → HasUnowned c'
  IsSound-HasUnowned k c c' s h = omega (arith, s.shares)

  price_trans :
      (t s t1 s1 t2 s2 : ℕ) → 0 < s1 → t * s1 ≤ t1 * s → t1 * s2 ≤ t2 * s1 → t * s2 ≤ t2 * s
  price_trans t s t1 s1 t2 s2 pos h h1 = le_of_mul_le_mul (t * s2) (t2 * s) s1 pos (
      omega (
        arith,
        mul_le_mul (t * s1) s2 (t1 * s) s2 h (le_refl s2),
        mul_le_mul (t1 * s2) s (t2 * s1) s h1 (le_refl s),
      ))

  pub IsSound-trans :
      (i j k : ℕ) (c c1 c2 : StakingContract)
      → j + k ≤ i
      → HasUnowned c1
      → IsSound j c c1
      → IsSound k c1 c2
      → IsSound i c c2
  IsSound-trans i j k c c1 c2 le pos a b = record {
    price =
        price_trans c.total_staked_balance c.total_stake_shares c1.total_staked_balance
          c1.total_stake_shares c2.total_staked_balance c2.total_stake_shares (omega arith) a.price
          b.price;
    shares = omega (arith, a.shares, b.shares);
    funds = omega (arith, a.funds, b.funds);
  }
