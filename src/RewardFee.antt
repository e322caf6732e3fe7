-- ===== src/RewardFee.antt =====
-- `UpdatableRewardFee` of staking-farm/src/lib.rs: a reward fee whose change takes effect only
-- after NUM_EPOCHS_TO_UNLOCK epochs.
pub mod Delay
use staking_farm.Prelude.{ℕ, ◌+◌, leb, if◌then◌else◌}
use staking_farm.Machine.{Result, ok, add_u64, ◌>>=◌}
use staking_farm.Ratio.{Ratio}

abbrev pub num_epochs_to_unlock : ℕ
num_epochs_to_unlock = 4

pub record UpdatableRewardFee : Type 0 where
  pub reward_fee_fraction : Ratio
  pub next_reward_fee_fraction : Ratio
  pub available_epoch_height : ℕ

-- `UpdatableRewardFee::new`
unfoldable pub new_fee : Ratio → UpdatableRewardFee
new_fee r = record {
  reward_fee_fraction = r;
  next_reward_fee_fraction = r;
  available_epoch_height = 0;
}

-- `current`, at the epoch height of the environment.
unfoldable pub current : ℕ → UpdatableRewardFee → Ratio
current epoch f =
    if leb f.available_epoch_height epoch then f.next_reward_fee_fraction else f.reward_fee_fraction

unfoldable pub next : UpdatableRewardFee → Ratio
next f = f.next_reward_fee_fraction

-- `set`, at the epoch height of the environment.
unfoldable pub set : ℕ → UpdatableRewardFee → Ratio → Result UpdatableRewardFee
unfolding add_u64
set epoch f r = do
  let old =
      if leb f.available_epoch_height epoch
      then f.next_reward_fee_fraction
      else f.reward_fee_fraction
  available ← add_u64 epoch num_epochs_to_unlock
  ok (record {
    reward_fee_fraction = old;
    next_reward_fee_fraction = r;
    available_epoch_height = available;
  })
