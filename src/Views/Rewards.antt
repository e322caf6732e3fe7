-- ===== src/Views/Rewards.antt =====
-- The view of an unclaimed reward, and the reward that is then distributed.
use staking_farm.Prelude.{
  ℕ, ◌+◌, ◌≡◌, Bool, false, if◌then◌else◌, not, Option, none, some, str_eq, ◌∙◌, arith,
}
use staking_farm.Prelude.Classes.{string_key, nat_key}
use staking_farm.Machine.{Result, ok, bind_ok, add_u128}
use staking_farm.HashMap
use staking_farm.HashMap.{get_or_zero}
use staking_farm.Sdk.{AccountId}
use staking_farm.Env.{Env}
use staking_farm.Account.{Account}
use staking_farm.Farm.{Farm, RewardDistribution}
use staking_farm.Contract.{Sdk, StakingContract}
use staking_farm.Accounts.{zero_address}
use staking_farm.Rewards.{
  add_amount, claim_from, farmed_shares, internal_unclaimed_balance, internal_distribute_reward,
}
use staking_farm.Distribution.{internal_calculate_distribution}
use staking_farm.Claims.Once.{get_or_zero-insert}
use staking_farm.Views.{get_unclaimed_reward}

module _ ⦃sdk : Sdk⦄ where
  same_token :
      (e : Env) (c : StakingContract) (a : Account) (farm_id : ℕ) (f : Farm) (rps reward : ℕ)
      (f' : Farm)
      → internal_unclaimed_balance e c a farm_id f ≡ ok (rps, reward, f')
      → f'.token_id ≡ f.token_id
  unfolding internal_unclaimed_balance claim_from
  same_token e c a farm_id f rps reward f' h = bind_ok (farmed_shares c) _ h λ shares p h.
      bind_ok (internal_calculate_distribution e.block_timestamp f shares) _ h λ d p1 h. kept d h
    where
      kept :
          (d : Option RewardDistribution)
          → claim_from a farm_id f d ≡ ok (rps, reward, f')
          → f'.token_id ≡ f.token_id
      kept none h = ground arith
      kept (some d) h = ground arith

  then_branch :
      {A : Type 0} (b : Bool) (x y : Result A) {r : A}
      → b ≡ false
      → (if not b then x else y) ≡ ok r
      → x ≡ ok r
  then_branch b x y h p = rw h at p

  add_u128_value : (m n : ℕ) {sum : ℕ} → add_u128 m n ≡ ok sum → sum ≡ m + n
  unfolding add_u128
  add_u128_value m n p = ground arith

  added :
      (a a' : Account) (token_id : AccountId) (n : ℕ)
      → add_amount a token_id n ≡ ok a'
      → get_or_zero token_id a'.amounts ≡ get_or_zero token_id a.amounts + n
  unfolding add_amount
  added a a' token_id n h = bind_ok (add_u128 (get_or_zero token_id a.amounts) n) _ h λ sum p h.
      let inserted = get_or_zero-insert token_id sum a.amounts in
      let saved : a'.amounts ≡ HashMap.insert token_id sum a.amounts = ground arith in
      rw saved (inserted ∙ add_u128_value (get_or_zero token_id a.amounts) n p)

  -- For a stored account that is not one to be burnt, and a farm: if the view `get_unclaimed_reward`
  -- and the distribution of the farm's reward both succeed, what the view shows is what the account
  -- then holds of the farm's token.
  pub view_foretells_reward :
      (e : Env) (c : StakingContract) (id : AccountId) (farm_id : ℕ) (a a' : Account) (f f' : Farm)
      (shown : ℕ)
      → sdk.accounts.get c.accounts id ≡ some a
      → sdk.farms.get c.farms farm_id ≡ some f
      → str_eq id zero_address ≡ false
      → a.is_burn_account ≡ false
      → get_unclaimed_reward e c id farm_id ≡ ok shown
      → internal_distribute_reward e c a farm_id f ≡ ok (a', f')
      → get_or_zero f.token_id a'.amounts ≡ shown
  unfolding get_unclaimed_reward internal_distribute_reward
  view_foretells_reward e c id farm_id a a' f f' shown stored at_id staker counted viewed given =
      bind_ok (internal_unclaimed_balance e c a farm_id f) _ given λ (rps, reward, f1) p given.
        let a1 = record a {
          last_farm_reward_per_share = HashMap.insert farm_id rps a.last_farm_reward_per_share;
        } in
        bind_ok (add_amount a1 f.token_id reward) _
          (then_branch a.is_burn_account _ _ counted given)
          λ a2 p1 given.
            let shown_sum : add_u128 reward (get_or_zero f1.token_id a.amounts) ≡ ok shown =
              rw (staker, stored, at_id, p) at viewed in
            let token = same_token e c a farm_id f rps reward f1 p in
            let held = added a1 a2 f.token_id reward p1 in
            let result : a' ≡ a2 = ground (arith, given) in
            rw (result, held)
              (omega (
                arith,
                add_u128_value reward (get_or_zero f.token_id a.amounts) (rw token at shown_sum),
              ))
