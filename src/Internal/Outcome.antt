-- ===== src/Internal/Outcome.antt =====
-- What `internal_stake` and `inner_unstake` do when they succeed, step by step.
use staking_farm.Prelude.{
  ℕ, ◌+◌, ◌-◌, ◌≤◌, ◌<◌, ◌≡◌, refl, ltb, leb, arith, if◌then◌else◌, sym, ◌∙◌,
}
use staking_farm.Machine.{
  ok, bind_ok, u128_bound, assert, sub, add_u128, stake_not_positive, unstake_not_positive,
  no_staked_balance, not_enough_staked, receive_not_positive, add_u64, shares_not_positive,
  charge_not_positive, not_enough_to_stake,
}
use staking_farm.Sdk.{AccountId}
use staking_farm.Env.{Env}
use staking_farm.Account.{Account}
use staking_farm.RewardFee.{num_epochs_to_unlock}
use staking_farm.Contract.{Sdk, StakingContract}
use staking_farm.Accounts.{internal_get_account, internal_save_account}
use staking_farm.Rewards.{internal_distribute_all_rewards}
use staking_farm.Shares.{
  num_shares_from_staked_amount_rounded_down, num_shares_from_staked_amount_rounded_up,
  staked_amount_from_num_shares_rounded_down, staked_amount_from_num_shares_rounded_up,
}
use staking_farm.Internal.{internal_stake, inner_unstake}

module _ ⦃sdk : Sdk⦄ where
  -- A successful `internal_stake`: what it computed on the way, and the contract that it leaves.
  pub record Staked (e : Env) (c : StakingContract) (amount : ℕ) (c' : StakingContract)
      : Type 0 where
    pub paid : StakingContract
    pub account : Account
    pub num_shares : ℕ
    pub charge_amount : ℕ
    pub stake_amount : ℕ
    pub rewards :
        internal_distribute_all_rewards e c (internal_get_account c e.predecessor_account_id)
        ≡ ok (paid, account)
    pub positive : 0 < amount
    pub shares_eq : num_shares_from_staked_amount_rounded_down paid amount ≡ ok num_shares
    pub shares_positive : 0 < num_shares
    pub charge_eq : staked_amount_from_num_shares_rounded_down paid num_shares ≡ ok charge_amount
    pub charge_positive : 0 < charge_amount
    pub covered : charge_amount ≤ account.unstaked
    pub stake_eq : staked_amount_from_num_shares_rounded_up paid num_shares ≡ ok stake_amount
    pub fits : account.stake_shares + num_shares < u128_bound
    pub staked_fits : paid.total_staked_balance + stake_amount < u128_bound
    pub total_fits : paid.total_stake_shares + num_shares < u128_bound
    pub result :
        c'
        ≡ record (internal_save_account paid e.predecessor_account_id (record account {
          unstaked = account.unstaked - charge_amount;
          stake_shares = account.stake_shares + num_shares;
        })) {
          total_staked_balance = paid.total_staked_balance + stake_amount;
          total_stake_shares = paid.total_stake_shares + num_shares;
        }

  amount_up-save :
      (c : StakingContract) (id : AccountId) (a : Account) (n : ℕ)
      → staked_amount_from_num_shares_rounded_up (internal_save_account c id a) n
        ≡ staked_amount_from_num_shares_rounded_up c n
  unfolding staked_amount_from_num_shares_rounded_up internal_save_account
  amount_up-save c id a n = refl

  pub amount_down-save :
      (c : StakingContract) (id : AccountId) (a : Account) (n : ℕ)
      → staked_amount_from_num_shares_rounded_down (internal_save_account c id a) n
        ≡ staked_amount_from_num_shares_rounded_down c n
  unfolding staked_amount_from_num_shares_rounded_down internal_save_account
  amount_down-save c id a n = refl

  pub stake-Staked :
      (e : Env) (c : StakingContract) (amount : ℕ) {c' : StakingContract}
      → internal_stake e c amount ≡ ok c'
      → Staked e c amount c'
  unfolding internal_stake internal_save_account
  stake-Staked e c amount h =
      let id = e.predecessor_account_id in
      bind_ok (assert (ltb 0 amount) stake_not_positive) _ h λ _ p h.
        bind_ok (internal_distribute_all_rewards e c (internal_get_account c id)) _ h λ (c1, a) r h.
          bind_ok (num_shares_from_staked_amount_rounded_down c1 amount) _ h λ n s h.
            bind_ok (assert (ltb 0 n) shares_not_positive) _ h λ _ p1 h.
              bind_ok (staked_amount_from_num_shares_rounded_down c1 n) _ h λ charge s1 h.
                bind_ok (assert (ltb 0 charge) charge_not_positive) _ h λ _ p2 h.
                  bind_ok (assert (leb charge a.unstaked) not_enough_to_stake) _ h λ _ p3 h.
                    bind_ok (sub a.unstaked charge) _ h λ u s2 h.
                      bind_ok (add_u128 a.stake_shares n) _ h λ shares s3 h.
                        bind_ok
                          (staked_amount_from_num_shares_rounded_up
                            (internal_save_account c1 id
                              (record a { unstaked = u; stake_shares = shares }))
                            n)
                          _ h
                          λ stake s4 h. record {
                            paid = c1;
                            account = a;
                            num_shares = n;
                            charge_amount = charge;
                            stake_amount = stake;
                            rewards = r;
                            positive = ground arith;
                            shares_eq = s;
                            shares_positive = ground arith;
                            charge_eq = s1;
                            charge_positive = ground arith;
                            covered = ground arith;
                            stake_eq =
                                sym (
                                  amount_up-save c1 id
                                    (record a { unstaked = u; stake_shares = shares }) n)
                                ∙ s4;
                            fits = ground arith;
                            staked_fits = ground arith;
                            total_fits = ground arith;
                            result = ground arith;
                          }

  -- A successful `inner_unstake`: what it computed on the way, and the contract that it leaves.
  pub record Unstaked (e : Env) (c : StakingContract) (id : AccountId) (amount : ℕ)
      (c' : StakingContract) : Type 0 where
    pub paid : StakingContract
    pub account : Account
    pub num_shares : ℕ
    pub receive_amount : ℕ
    pub unstake_amount : ℕ
    pub burn_shares : ℕ
    pub rewards :
        internal_distribute_all_rewards e c (internal_get_account c id) ≡ ok (paid, account)
    pub positive : 0 < amount
    pub shares_eq : num_shares_from_staked_amount_rounded_up paid amount ≡ ok num_shares
    pub shares_positive : 0 < num_shares
    pub covered : num_shares ≤ account.stake_shares
    pub receive_eq : staked_amount_from_num_shares_rounded_up paid num_shares ≡ ok receive_amount
    pub receive_positive : 0 < receive_amount
    pub unstake_eq : staked_amount_from_num_shares_rounded_down paid num_shares ≡ ok unstake_amount
    pub staked_covered : unstake_amount ≤ paid.total_staked_balance
    pub total_covered : num_shares ≤ paid.total_stake_shares
    pub burn_eq :
        burn_shares + (if account.is_burn_account then num_shares else 0) ≡ paid.total_burn_shares
    pub result :
        c'
        ≡ record (internal_save_account paid id (record account {
          stake_shares = account.stake_shares - num_shares;
          unstaked = account.unstaked + receive_amount;
          unstaked_available_epoch_height = e.epoch_height + num_epochs_to_unlock;
        })) {
          total_staked_balance = paid.total_staked_balance - unstake_amount;
          total_stake_shares = paid.total_stake_shares - num_shares;
          total_burn_shares = burn_shares;
        }

  pub unstake-Unstaked :
      (e : Env) (c : StakingContract) (id : AccountId) (amount : ℕ) {c' : StakingContract}
      → inner_unstake e c id amount ≡ ok c'
      → Unstaked e c id amount c'
  unfolding inner_unstake internal_save_account
  unstake-Unstaked e c id amount h =
      bind_ok (assert (ltb 0 amount) unstake_not_positive) _ h λ _ p h.
        bind_ok (internal_distribute_all_rewards e c (internal_get_account c id)) _ h λ (c1, a) r h.
          bind_ok (assert (ltb 0 c1.total_staked_balance) no_staked_balance) _ h λ _ p0 h.
            bind_ok (num_shares_from_staked_amount_rounded_up c1 amount) _ h λ n s h.
              bind_ok (assert (ltb 0 n) shares_not_positive) _ h λ _ p1 h.
                bind_ok (assert (leb n a.stake_shares) not_enough_staked) _ h λ _ p2 h.
                  bind_ok (staked_amount_from_num_shares_rounded_up c1 n) _ h λ receive s1 h.
                    bind_ok (assert (ltb 0 receive) receive_not_positive) _ h λ _ p3 h.
                      bind_ok (sub a.stake_shares n) _ h λ shares s2 h.
                        bind_ok (add_u128 a.unstaked receive) _ h λ u s3 h.
                          bind_ok (add_u64 e.epoch_height num_epochs_to_unlock) _ h
                            λ available s4 h.
                              let a1 = record a {
                                stake_shares = shares;
                                unstaked = u;
                                unstaked_available_epoch_height = available;
                              } in
                              bind_ok
                                (staked_amount_from_num_shares_rounded_down
                                  (internal_save_account c1 id a1) n)
                                _ h
                                λ amount' s5 h.
                                  bind_ok (sub c1.total_staked_balance amount') _ h λ staked s6 h.
                                    bind_ok (sub c1.total_stake_shares n) _ h λ total s7 h.
                                      bind_ok
                                        (if a.is_burn_account
                                          then sub c1.total_burn_shares n
                                          else ok c1.total_burn_shares)
                                        _ h
                                        λ burn s8 h. record {
                                          paid = c1;
                                          account = a;
                                          num_shares = n;
                                          receive_amount = receive;
                                          unstake_amount = amount';
                                          burn_shares = burn;
                                          rewards = r;
                                          positive = ground arith;
                                          shares_eq = s;
                                          shares_positive = ground arith;
                                          covered = ground arith;
                                          receive_eq = s1;
                                          receive_positive = ground arith;
                                          unstake_eq = sym (amount_down-save c1 id a1 n) ∙ s5;
                                          staked_covered = ground arith;
                                          total_covered = ground arith;
                                          burn_eq = ground arith;
                                          result = ground arith;
                                        }
