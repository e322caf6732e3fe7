-- ===== src/Factory.antt =====
-- The factory of staking pools (staking-factory/src/lib.rs): its store of codes, the hashes that its
-- owner allows, and the creation of pools.
pub mod Keys
pub mod Calls
pub mod Codes
pub mod Allowed
pub mod Creation
pub mod Store
use Prim.Native.Char.{code}
use Prim.Native.String
use staking_farm.Prelude.{
  ℕ, ◌+◌, ◌*◌, ◌≤◌, ◌≡◌, Bool, false, true, not, ◌||◌, Option, none, some, String, List, [], ◌∷◌,
  str_eq, leb, ◌++◌, ◌==◌, if◌then◌else◌,
}
use staking_farm.Prelude.Lists.{length}
use staking_farm.Prelude.Classes.{string_key}
use staking_farm.Machine.{
  Result, ok, err, assert, expect, sub, mul_u128, ◌>>=◌, ◌>>◌, invalid_owner_id,
  invalid_whitelist_id, not_enough_deposit, pool_id_with_dot, unparsable_pool_id, invalid_pool_id,
  hash_not_allowed, pool_already_exists, contract_does_not_exist, err_already_exists,
  storage_not_covered, must_be_owner, unparsed_arguments,
}
use staking_farm.HashMap
use staking_farm.HashMap.{HashMap}
use staking_farm.Sdk.{AccountId, is_some}
use staking_farm.Env.{Env}
use staking_farm.Ratio.{Ratio, assert_valid}
use staking_farm.Internal.{no_deposit}
use staking_farm.Contract.{Sdk, Action, Promise, promise, with_action, and_then, Method}

-- What only the factory takes from its libraries and its host. A `CryptoHash` has 32 bytes, and its
-- JSON is a text of base58 in quotes, of at least 34 characters.
pub record Host : Type 1 where
  pub CryptoHash : Type 0
  pub bytes : CryptoHash → String
  -- `serde_json::to_string` of a `Base58CryptoHash`
  pub to_json : CryptoHash → String
  pub sha256 : String → CryptoHash
  -- The argument of `get_code`, as the code of near_bindgen reads it
  pub parse_hash : String → Option CryptoHash
  -- `AccountId::from_str`
  pub parse_pool_id : String → Option AccountId
  -- `env::storage_usage`, by the entries of the storage, and `env::storage_byte_cost`
  pub storage_usage : HashMap String String → ℕ
  pub storage_byte_cost : ℕ
  pub bytes-injective : (g h : CryptoHash) → bytes g ≡ bytes h → g ≡ h
  pub count-bytes : (h : CryptoHash) → String.count (bytes h) ≡ 32
  pub to_json-injective : (g h : CryptoHash) → to_json g ≡ to_json h → g ≡ h
  pub count-to_json : (h : CryptoHash) → 34 ≤ String.count (to_json h)

-- The constants MIN_ATTACHED_BALANCE and BURN_FEE_FRACTION, and those of the module `gas`.
abbrev pub min_attached_balance : ℕ
min_attached_balance = 4_000_000_000_000_000_000_000_000

abbrev pub burn_fee_fraction : Ratio
burn_fee_fraction = record { numerator = 0; denominator = 10 }

abbrev pub base : ℕ
base = 25_000_000_000_000

abbrev pub staking_pool_new : ℕ
staking_pool_new = base * 2

abbrev pub callback : ℕ
callback = base * 2

abbrev pub whitelist_staking_pool : ℕ
whitelist_staking_pool = base

-- `staking_pool_id.find('.').is_some()`
unfoldable pub has_dot : String → Bool
has_dot String.[] = false
has_dot (String.◌∷◌ c s) = code c == b'.' || has_dot s

module _ ⦃sdk : Sdk⦄ where
  pub record StakingPoolFactory : Type 0 where
    pub owner_id : AccountId
    pub staking_pool_whitelist_account_id : AccountId
    pub staking_pool_account_ids : sdk.ids.Set

  pub record StakingPoolArgs : Type 0 where
    pub owner_id : AccountId
    pub stake_public_key : sdk.PublicKey
    pub reward_fee_fraction : Ratio
    pub burn_fee_fraction : Ratio

  -- The factory's state, the entries that it keeps in the storage beside it (codes by their hashes,
  -- and the hashes allowed), and the promises scheduled so far.
  pub record FactoryWorld : Type 0 where
    pub contract : StakingPoolFactory
    pub storage : HashMap String String
    pub scheduled : List Promise

  -- `StakingPoolFactory::new`, on an account with no state
  unfoldable pub new_factory : AccountId → AccountId → Result FactoryWorld
  new_factory owner_id whitelist_id = do
    assert (sdk.is_valid_account_id owner_id) invalid_owner_id
    assert (sdk.is_valid_account_id whitelist_id) invalid_whitelist_id
    ok (record {
      contract = record {
        owner_id = owner_id;
        staking_pool_whitelist_account_id = whitelist_id;
        staking_pool_account_ids = sdk.ids.new;
      };
      storage = [];
      scheduled = [];
    })

  unfoldable pub get_min_attached_balance : FactoryWorld → ℕ
  get_min_attached_balance w = min_attached_balance

  unfoldable pub get_number_of_staking_pools_created : FactoryWorld → ℕ
  get_number_of_staking_pools_created w =
      length (sdk.ids.to_vec w.contract.staking_pool_account_ids)

  module _ ⦃host : Host⦄ where
    unfoldable pub code_hash_to_key : host.CryptoHash → String
    code_hash_to_key h = String.◌++◌ "allow:" (host.to_json h)

    unfoldable pub is_contract_allowed : FactoryWorld → host.CryptoHash → Bool
    unfolding code_hash_to_key
    is_contract_allowed w h = is_some (HashMap.lookup (code_hash_to_key h) w.storage)

    unfoldable pub allow_contract : Env → FactoryWorld → host.CryptoHash → Result FactoryWorld
    unfolding code_hash_to_key
    allow_contract e w h = do
      assert (str_eq e.predecessor_account_id w.contract.owner_id) must_be_owner
      ok (record w { storage = HashMap.insert (code_hash_to_key h) "" w.storage })

    unfoldable pub disallow_contract : Env → FactoryWorld → host.CryptoHash → Result FactoryWorld
    unfolding code_hash_to_key
    disallow_contract e w h = do
      assert (str_eq e.predecessor_account_id w.contract.owner_id) must_be_owner
      ok (record w { storage = HashMap.remove (code_hash_to_key h) w.storage })

    -- The code that is returned as the value of the call.
    unfoldable pub get_code : FactoryWorld → host.CryptoHash → Result String
    unfolding is_contract_allowed
    get_code w h = do
      assert (is_contract_allowed w h) hash_not_allowed
      expect (HashMap.lookup (host.bytes h) w.storage) contract_does_not_exist

    -- The call of `get_code` with its argument still unread, as another contract makes it.
    unfoldable pub call_get_code : FactoryWorld → String → Result String
    unfolding get_code
    call_get_code w input = do h ← expect (host.parse_hash input) unparsed_arguments; get_code w h

    -- The input of the call is stored by its hash, which is returned.
    unfoldable pub store_contract : FactoryWorld → String → Result (host.CryptoHash × FactoryWorld)
    store_contract w input = do
      let h = host.sha256 input
      assert (not (is_some (HashMap.lookup (host.bytes h) w.storage))) err_already_exists
      ok (h, record w { storage = HashMap.insert (host.bytes h) input w.storage })

    unfoldable pub store : Env → FactoryWorld → String → Result (host.CryptoHash × FactoryWorld)
    unfolding store_contract sub mul_u128
    store e w input = do
      let prev_storage = host.storage_usage w.storage
      (h, w1) ← store_contract w input
      used ← sub (host.storage_usage w1.storage) prev_storage
      storage_cost ← mul_u128 used host.storage_byte_cost
      assert (leb storage_cost e.attached_deposit) storage_not_covered
      ok (h, w1)

    -- One batch creates the account, pays it, deploys the code and calls `new`; the callback
    -- follows it.
    unfoldable pub creation : Env → AccountId → String → StakingPoolArgs → Promise
    creation e pool_id wasm args =
        and_then
          (with_action
            (with_action
              (with_action (promise pool_id Action.create_account)
                (Action.transfer e.attached_deposit))
              (Action.deploy_contract wasm))
            (Action.function_call
              (Method.new args.owner_id args.stake_public_key args.reward_fee_fraction
                args.burn_fee_fraction)
              no_deposit staking_pool_new))
          (promise e.current_account_id (
            Action.function_call
              (Method.on_staking_pool_create pool_id e.attached_deposit e.predecessor_account_id)
              no_deposit callback))

    unfoldable pub create_contract :
        Env → FactoryWorld → AccountId → host.CryptoHash → StakingPoolArgs → Result FactoryWorld
    unfolding creation
    create_contract e w pool_id h args = do
      wasm ← expect (HashMap.lookup (host.bytes h) w.storage) contract_does_not_exist
      ok (record w { scheduled = w.scheduled ++ creation e pool_id wasm args ∷ [] })

    unfoldable pub create_staking_pool :
        Env
        → FactoryWorld
        → String
        → host.CryptoHash
        → AccountId
        → sdk.PublicKey
        → Ratio
        → Result FactoryWorld
    unfolding has_dot assert_valid is_contract_allowed create_contract
    create_staking_pool e w staking_pool_id h owner_id key reward_fee = do
      assert (leb min_attached_balance e.attached_deposit) not_enough_deposit
      assert (not (has_dot staking_pool_id)) pool_id_with_dot
      pool_id ←
          expect
            (host.parse_pool_id
              (String.◌++◌ staking_pool_id (String.◌++◌ "." e.current_account_id)))
            unparsable_pool_id
      assert (sdk.is_valid_account_id pool_id) invalid_pool_id
      assert (sdk.is_valid_account_id owner_id) invalid_owner_id
      assert_valid reward_fee
      assert (is_contract_allowed w h) hash_not_allowed
      let ids = w.contract.staking_pool_account_ids
      assert (not (sdk.ids.contains_id ids pool_id)) pool_already_exists
      let w1 = record w {
        contract = record w.contract { staking_pool_account_ids = sdk.ids.insert ids pool_id };
      }
      create_contract e w1 pool_id h (record {
        owner_id = owner_id;
        stake_public_key = key;
        reward_fee_fraction = reward_fee;
        burn_fee_fraction = burn_fee_fraction;
      })

    -- A promise that is returned is scheduled; the Boolean is the value of the other branch.
    unfoldable pub on_staking_pool_create :
        Env → FactoryWorld → AccountId → ℕ → AccountId → Result (Option Bool × FactoryWorld)
    on_staking_pool_create e w pool_id deposit predecessor_id = do
      staking_pool_created ← sdk.is_promise_success e.promise_results
      let whitelisting =
          promise w.contract.staking_pool_whitelist_account_id (
            Action.function_call (Method.add_staking_pool pool_id) no_deposit
              whitelist_staking_pool)
      let refund = promise predecessor_id (Action.transfer deposit)
      ok (
          if staking_pool_created
          then (none, record w { scheduled = w.scheduled ++ whitelisting ∷ [] })
          else (
            some false,
            record w {
              contract = record w.contract {
                staking_pool_account_ids =
                    sdk.ids.remove w.contract.staking_pool_account_ids pool_id;
              };
              scheduled = w.scheduled ++ refund ∷ [];
            },
          ))
