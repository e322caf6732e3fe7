-- ===== src/Farm.antt =====
-- The data of staking-farm/src/farm.rs: farms and how far their rewards are distributed. A
-- `Timestamp` is a number of nanoseconds in a u64.
use staking_farm.Prelude.{ℕ, Bool, Option, String, ltb}
use staking_farm.Sdk.{AccountId}

-- The constants SESSION_INTERVAL and DENOMINATOR.
abbrev pub session_interval : ℕ
session_interval = 1_000_000_000

abbrev pub denominator : ℕ
denominator = 1_000_000_000_000_000_000_000_000

pub record RewardDistribution : Type 0 where
  pub undistributed : ℕ
  pub deprecated_unclaimed : ℕ
  pub reward_per_share : ℕ
  pub reward_round : ℕ

pub record Farm : Type 0 where
  pub name : String
  pub token_id : AccountId
  pub amount : ℕ
  pub start_date : ℕ
  pub end_date : ℕ
  pub last_distribution : RewardDistribution

unfoldable pub is_active : Farm → Bool
is_active farm = ltb 0 farm.last_distribution.undistributed

-- `FarmingDetails` of staking-farm/src/token_receiver.rs, the message of a token transfer.
pub record FarmingDetails : Type 0 where
  pub name : Option String
  pub start_date : Option ℕ
  pub end_date : ℕ
  pub farm_id : Option ℕ
