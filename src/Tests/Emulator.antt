-- ===== src/Tests/Emulator.antt =====
-- The emulator of staking-farm/src/test_utils.rs, in which the unit tests run a pool. The context
-- that `VMContextBuilder::new()` of near_sdk builds is a parameter. A context starts with no
-- receipts, and its account balance has the attached deposit already in it.
use staking_farm.Prelude.{ℕ, ◌+◌, ◌-◌, ◌*◌, ◌/◌, ◌^◌, Bool, [], ltb, leb, ◌==◌, if◌then◌else◌}
use staking_farm.Machine.{Result, ok, sub, assert, ◌>>=◌, ◌>>◌, price_guarantee_violated}
use staking_farm.Sdk.{AccountId}
use staking_farm.Env.{Env}
use staking_farm.Ratio.{Ratio}
use staking_farm.Contract.{Sdk, World}
use staking_farm.Init.{new}
use staking_farm.Staking.{deposit, stake}

abbrev pub staking : AccountId
staking = "staking"

abbrev pub alice : AccountId
alice = "alice"

abbrev pub bob : AccountId
bob = "bob"

abbrev pub owner : AccountId
owner = "owner"

abbrev pub charlie : AccountId
charlie = "charlie"

unfoldable pub ntoy : ℕ → ℕ
ntoy near_amount = near_amount * 10 ^ 24

-- Rounds to nearest.
unfoldable pub yton : ℕ → ℕ
yton yocto_amount = (yocto_amount + 5 * 10 ^ 23) / 10 ^ 24

-- Whether two amounts are within epsilon.
unfoldable pub almost_equal : ℕ → ℕ → ℕ → Bool
almost_equal left right epsilon =
    if ltb right left then ltb (left - right) epsilon else ltb (right - left) epsilon

unfoldable pub eq_in_near : ℕ → ℕ → Bool
unfolding yton
eq_in_near a b = yton a == yton b

abbrev pub one_epoch_ts : ℕ
one_epoch_ts = 12 * 60 * 60 * 1_000_000_000

abbrev pub zero_fee : Ratio
zero_fee = record { numerator = 0; denominator = 1 }

module _ ⦃sdk : Sdk⦄ where
  pub record Emulator : Type 0 where
    pub contract : World
    pub epoch_height : ℕ
    pub block_index : ℕ
    pub block_timestamp : ℕ
    pub amount : ℕ
    pub locked_amount : ℕ
    pub last_total_staked_balance : ℕ
    pub last_total_stake_shares : ℕ
    pub context : Env

  unfoldable pub verify_stake_price_increase_guarantee : Emulator → Result Emulator
  verify_stake_price_increase_guarantee m = do
    let total_staked_balance = m.contract.contract.total_staked_balance
    let total_stake_shares = m.contract.contract.total_stake_shares
    assert
        (leb (m.last_total_staked_balance * total_stake_shares)
          (total_staked_balance * m.last_total_stake_shares))
        price_guarantee_violated
    ok (record m {
      last_total_staked_balance = total_staked_balance;
      last_total_stake_shares = total_stake_shares;
    })

  -- A call of a method in the context.
  unfoldable pub call : Emulator → (Env → World → Result World) → Result Emulator
  call m method = do w ← method m.context m.contract; ok (record m { contract = w })

  module _ (builder : Env) where
    unfoldable pub new_emulator : AccountId → sdk.PublicKey → Ratio → Result Emulator
    unfolding new ntoy
    new_emulator id stake_public_key reward_fee_fraction = do
      let context = record builder { current_account_id = id; account_balance = ntoy 30 }
      contract ←
          new context id stake_public_key reward_fee_fraction
            (record { numerator = 0; denominator = 0 })
      ok (record {
        contract = contract;
        epoch_height = 0;
        block_index = 0;
        block_timestamp = 0;
        amount = ntoy 30;
        locked_amount = 0;
        last_total_staked_balance = contract.contract.total_staked_balance;
        last_total_stake_shares = contract.contract.total_stake_shares;
        context = context;
      })

    unfoldable pub update_context : Emulator → AccountId → ℕ → Result Emulator
    unfolding verify_stake_price_increase_guarantee
    update_context m predecessor_account_id attached = do
      m1 ← verify_stake_price_increase_guarantee m
      ok (record m1 {
        contract = record m1.contract { scheduled = [] };
        context = record builder {
          current_account_id = staking;
          predecessor_account_id = predecessor_account_id;
          attached_deposit = attached;
          account_balance = m1.amount + attached;
          account_locked_balance = m1.locked_amount;
          epoch_height = m1.epoch_height;
          block_timestamp = m1.block_timestamp;
        };
      })

    unfoldable pub simulate_stake_call : Emulator → Result Emulator
    unfolding update_context sub
    simulate_stake_call m = do
      let total_stake = m.contract.contract.total_staked_balance
      amount ← sub (m.amount + m.locked_amount) total_stake
      update_context (record m { amount = amount; locked_amount = total_stake }) staking 0

    unfoldable pub deposit_and_stake_as : Emulator → AccountId → ℕ → Result Emulator
    unfolding update_context simulate_stake_call call deposit stake
    deposit_and_stake_as m account amount = do
      m1 ← update_context m account amount
      m2 ← call m1 deposit
      m3 ← update_context (record m2 { amount = m2.amount + amount }) account 0
      m4 ← call m3 (λ e w. stake e w amount)
      simulate_stake_call m4

    unfoldable pub skip_epochs : Emulator → ℕ → Result Emulator
    unfolding update_context
    skip_epochs m num =
        update_context
          (record m {
            epoch_height = m.epoch_height + num;
            block_index = m.block_index + num * 12 * 60 * 60;
            block_timestamp = m.block_timestamp + num * one_epoch_ts;
            locked_amount = m.locked_amount * (100 + num) / 100;
          })
          staking 0
