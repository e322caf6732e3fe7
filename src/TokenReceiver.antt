-- ===== src/TokenReceiver.antt =====
-- `ft_on_transfer` of staking-farm/src/token_receiver.rs: tokens that arrive create a farm or
-- are added to one.
pub mod Access
use staking_farm.Prelude.{ℕ, ◌||◌, Option, none, some, String, str_eq, leb}
use staking_farm.Prelude.Lists.{length}
use staking_farm.Machine.{
  Result, ok, err, assert, expect, ◌>>=◌, ◌>>◌, err_not_authorized_token, err_not_authorized_user,
  err_msg_wrong_format, err_msg_required_field, err_too_many_active_farms,
}
use staking_farm.Sdk.{AccountId}
use staking_farm.Env.{Env}
use staking_farm.Farm.{FarmingDetails}
use staking_farm.Farms.{internal_deposit_farm_tokens, internal_add_farm_tokens}
use staking_farm.Internal.{internal_get_owner_id}
use staking_farm.Contract.{Sdk, StakingContract, World}

-- The constant MAX_NUM_ACTIVE_FARMS.
abbrev pub max_num_active_farms : ℕ
max_num_active_farms = 3

module _ ⦃sdk : Sdk⦄ where
  -- By the farm id of the message.
  unfoldable pub receive_for :
      Env → StakingContract → ℕ → FarmingDetails → Option ℕ → Result StakingContract
  receive_for e c amount message (some farm_id) =
      internal_add_farm_tokens e c e.predecessor_account_id farm_id amount message.start_date
        message.end_date
  receive_for e c amount message none = do
    assert (leb (length c.active_farms) max_num_active_farms) err_too_many_active_farms
    name ← expect message.name err_msg_required_field
    start_date ← expect message.start_date err_msg_required_field
    internal_deposit_farm_tokens e c e.predecessor_account_id name amount start_date
        message.end_date

  -- The amount of tokens that are returned to the sender, which is none.
  unfoldable pub ft_on_transfer : Env → World → AccountId → ℕ → String → Result (ℕ × World)
  unfolding receive_for internal_get_owner_id
  ft_on_transfer e w sender_id amount msg = do
    assert (sdk.ids.contains_id w.contract.authorized_farm_tokens e.predecessor_account_id)
        err_not_authorized_token
    owner_id ← internal_get_owner_id w
    assert (str_eq sender_id owner_id || sdk.ids.contains_id w.contract.authorized_users sender_id)
        err_not_authorized_user
    message ← expect (sdk.parse_details msg) err_msg_wrong_format
    c ← receive_for e w.contract amount message message.farm_id
    ok (0, record w { contract = c })
