-- ===== src/Env.antt =====
-- What a call reads of its environment through `near_sdk::env`. These are the values at the start
-- of the call: the contract reads the balances before it schedules any transfer.
use staking_farm.Prelude.{ℕ, Bool, true, false, Option, none, some, String, List}
use staking_farm.Sdk.{AccountId}

-- `PromiseResult`: what the promise before a callback ended with, its bytes as a text.
pub data PromiseResult : Type 0 where
  successful : String → PromiseResult
  failed : PromiseResult

abbrev pub was_successful : PromiseResult → Bool
was_successful (successful _) = true
was_successful failed = false

abbrev pub value_of : PromiseResult → Option String
value_of (successful s) = some s
value_of failed = none

pub record Env : Type 0 where
  pub predecessor_account_id : AccountId
  pub current_account_id : AccountId
  pub attached_deposit : ℕ
  pub account_balance : ℕ
  pub account_locked_balance : ℕ
  pub epoch_height : ℕ
  pub block_timestamp : ℕ
  pub prepaid_gas : ℕ
  pub used_gas : ℕ
  pub state_exists : Bool
  pub promise_results : List PromiseResult
