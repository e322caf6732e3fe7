-- ===== src/Owner.antt =====
-- The methods of the owner and the factory (staking-farm/src/owner.rs).
pub mod Access
use staking_farm.Prelude.{
  ℕ, ◌*◌, Bool, true, false, not, ◌||◌, Option, none, some, String, str_eq, ltb, if◌then◌else◌,
}
use staking_farm.Machine.{
  Result, ok, err, assert, expect, mul_u64, ◌>>=◌, ◌>>◌, must_have_owner, must_have_version,
  must_be_owner, must_be_factory, must_be_owner_to_set_owner, already_paused, not_paused,
  burn_fee_not_decreased, err_not_authorized_user,
}
use staking_farm.Sdk.{AccountId}
use staking_farm.Env.{Env}
use staking_farm.Ratio.{Ratio, assert_valid}
use staking_farm.RewardFee.{set}
use staking_farm.Internal.{
  internal_restake, internal_ping, internal_get_owner_id, internal_get_factory_id,
}
use staking_farm.Staking.{restake_if}
use staking_farm.Contract.{Sdk, StakingContract, World, Action, promise, schedule}

-- `internal_get_version`: the name and version of the package, from Cargo.toml.
abbrev pub internal_get_version : String
internal_get_version = "staking-farm:1.1.0"

module _ ⦃sdk : Sdk⦄ where
  -- The previous owner, if there was one, and the storage with the new one.
  unfoldable pub internal_set_owner : World → AccountId → Option AccountId × World
  internal_set_owner w owner_id = (w.owner, record w { owner = some owner_id })

  unfoldable pub internal_set_factory : World → AccountId → World
  internal_set_factory w factory_id = record w { factory = some factory_id }

  unfoldable pub internal_set_version : World → World
  internal_set_version w = record w { version = some internal_get_version }

  unfoldable pub internal_get_state_version : World → Result String
  internal_get_state_version w = expect w.version must_have_version

  unfoldable pub assert_owner : Env → World → Result (Unit {0})
  unfolding internal_get_owner_id
  assert_owner e w = do
    owner_id ← internal_get_owner_id w
    assert (str_eq e.predecessor_account_id owner_id) must_be_owner

  unfoldable pub assert_factory : Env → World → Result (Unit {0})
  unfolding internal_get_factory_id
  assert_factory e w = do
    factory_id ← internal_get_factory_id w
    assert (str_eq e.predecessor_account_id factory_id) must_be_factory

  unfoldable pub assert_owner_or_authorized_user : Env → World → Result (Unit {0})
  unfolding internal_get_owner_id
  assert_owner_or_authorized_user e w = do
    owner_id ← internal_get_owner_id w
    assert
        (str_eq e.predecessor_account_id owner_id
          || sdk.ids.contains_id w.contract.authorized_users e.predecessor_account_id)
        err_not_authorized_user

  -- The new owner is written first; a panic takes the write back with the rest of the call.
  unfoldable pub set_owner_id : Env → World → AccountId → Result World
  unfolding internal_set_owner
  set_owner_id e w owner_id = do
    let (previous, w1) = internal_set_owner w owner_id
    prev_owner ← expect previous must_have_owner
    assert (str_eq prev_owner e.predecessor_account_id) must_be_owner_to_set_owner
    ok w1

  unfoldable pub update_staking_key : Env → World → sdk.PublicKey → Result World
  unfolding assert_owner
  update_staking_key e w key = do
    assert_owner e w
    (_, w1) ← internal_ping e w
    ok (internal_restake e (record w1 { contract = record w1.contract { stake_public_key = key } }))

  unfoldable pub update_reward_fee_fraction : Env → World → Ratio → Result World
  unfolding assert_owner assert_valid restake_if
  update_reward_fee_fraction e w reward_fee_fraction = do
    assert_owner e w
    assert_valid reward_fee_fraction
    (need_to_restake, w1) ← internal_ping e w
    fee ← set e.epoch_height w1.contract.reward_fee_fraction reward_fee_fraction
    ok (
        restake_if need_to_restake e
          (record w1 { contract = record w1.contract { reward_fee_fraction = fee } }))

  unfoldable pub decrease_burn_fee_fraction : Env → World → Ratio → Result World
  unfolding assert_factory assert_valid mul_u64 restake_if
  decrease_burn_fee_fraction e w new = do
    assert_factory e w
    assert_valid new
    let old = w.contract.burn_fee_fraction
    left ← mul_u64 new.numerator old.denominator
    right ← mul_u64 new.denominator old.numerator
    assert (ltb left right) burn_fee_not_decreased
    (need_to_restake, w1) ← internal_ping e w
    ok (
        restake_if need_to_restake e
          (record w1 { contract = record w1.contract { burn_fee_fraction = new } }))

  unfoldable pub pause_staking : Env → World → Result World
  unfolding assert_owner schedule
  pause_staking e w = do
    assert_owner e w
    assert (not w.contract.paused) already_paused
    (_, w1) ← internal_ping e w
    ok (
        schedule (record w1 { contract = record w1.contract { paused = true } })
          (promise e.current_account_id (Action.stake 0 w1.contract.stake_public_key)))

  unfoldable pub resume_staking : Env → World → Result World
  unfolding assert_owner
  resume_staking e w = do
    assert_owner e w
    assert w.contract.paused not_paused
    (_, w1) ← internal_ping e w
    ok (internal_restake e (record w1 { contract = record w1.contract { paused = false } }))

  unfoldable pub add_authorized_user : Env → World → AccountId → Result World
  unfolding assert_owner
  add_authorized_user e w id = do
    assert_owner e w
    ok (record w {
      contract = record w.contract {
        authorized_users = sdk.ids.insert w.contract.authorized_users id;
      };
    })

  unfoldable pub remove_authorized_user : Env → World → AccountId → Result World
  unfolding assert_owner
  remove_authorized_user e w id = do
    assert_owner e w
    ok (record w {
      contract = record w.contract {
        authorized_users = sdk.ids.remove w.contract.authorized_users id;
      };
    })

  unfoldable pub add_authorized_farm_token : Env → World → AccountId → Result World
  unfolding assert_owner_or_authorized_user
  add_authorized_farm_token e w id = do
    assert_owner_or_authorized_user e w
    ok (record w {
      contract = record w.contract {
        authorized_farm_tokens = sdk.ids.insert w.contract.authorized_farm_tokens id;
      };
    })

  unfoldable pub remove_authorized_farm_token : Env → World → AccountId → Result World
  unfolding assert_owner_or_authorized_user
  remove_authorized_farm_token e w id = do
    assert_owner_or_authorized_user e w
    ok (record w {
      contract = record w.contract {
        authorized_farm_tokens = sdk.ids.remove w.contract.authorized_farm_tokens id;
      };
    })
