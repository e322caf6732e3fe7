-- ===== src/Init.antt =====
-- `StakingContract::new` of staking-farm/src/lib.rs, on an account with no state.
use staking_farm.Prelude.{ℕ, false, not, none, [], ◌==◌}
use staking_farm.Machine.{
  Result, ok, assert, sub, ◌>>=◌, ◌>>◌, already_initialized, invalid_owner_id, pool_already_staking,
}
use staking_farm.Sdk.{AccountId}
use staking_farm.Env.{Env}
use staking_farm.Ratio.{Ratio, assert_valid}
use staking_farm.RewardFee.{new_fee}
use staking_farm.Internal.{internal_restake}
use staking_farm.Owner.{internal_set_owner, internal_set_factory, internal_set_version}
use staking_farm.Contract.{Sdk, StakingContract, World}

-- The constant STAKE_SHARE_PRICE_GUARANTEE_FUND.
abbrev pub stake_share_price_guarantee_fund : ℕ
stake_share_price_guarantee_fund = 1_000_000_000_000

module _ ⦃sdk : Sdk⦄ where
  unfoldable pub initial_contract : Env → sdk.PublicKey → Ratio → Ratio → ℕ → StakingContract
  initial_contract e key reward_fee burn_fee staked = record {
    stake_public_key = key;
    last_epoch_height = e.epoch_height;
    last_total_balance = e.account_balance;
    total_stake_shares = staked;
    total_staked_balance = staked;
    total_burn_shares = 0;
    reward_fee_fraction = new_fee reward_fee;
    burn_fee_fraction = burn_fee;
    accounts = sdk.accounts.new;
    farms = sdk.farms.new;
    active_farms = [];
    paused = false;
    authorized_users = sdk.ids.new;
    authorized_farm_tokens = sdk.ids.new;
  }

  unfoldable pub new : Env → AccountId → sdk.PublicKey → Ratio → Ratio → Result World
  unfolding initial_contract assert_valid sub internal_set_owner internal_set_factory
      internal_set_version
  new e owner_id key reward_fee burn_fee = do
    assert (not e.state_exists) already_initialized
    assert_valid reward_fee
    assert (sdk.is_valid_account_id owner_id) invalid_owner_id
    staked ← sub e.account_balance stake_share_price_guarantee_fund
    assert (e.account_locked_balance == 0) pool_already_staking
    let w : World = record {
      contract = initial_contract e key reward_fee burn_fee staked;
      owner = none;
      factory = none;
      version = none;
      scheduled = [];
    }
    let (_, w1) = internal_set_owner w owner_id
    let w2 = internal_set_version (internal_set_factory w1 e.predecessor_account_id)
    ok (internal_restake e w2)
