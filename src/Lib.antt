-- ===== src/Lib.antt =====
-- The staking farm contract: a pool that delegates NEAR to a validator and rewards its stakers with
-- tokens of farms.
--
-- An account deposits NEAR, stakes it for shares of the pool, unstakes and withdraws after a delay.
-- Once per epoch the growth of the contract's balance is distributed: it raises the price of a
-- share, less the fees for the owner and for burning, which buy shares. Whoever the owner authorizes
-- sends tokens that are released over time to the stakers, who claim them. The owner and the factory
-- administer the pool. The factory keeps the codes of pools by their hashes, creates pools with those
-- that its owner allows, and serves them to pools that are upgraded.
--
-- Which file models which part of the repository:
--   Machine          panics as values, checked arithmetic on 64, 128 and 256 bits (Cargo.toml has
--                    `overflow-checks = true`)
--   Sdk, Contract    the interface of near_sdk's collections and helpers, as records of operations
--                    and laws; the state of staking-farm/src/lib.rs; promises
--   Env              what a call reads through near_sdk::env
--   HashMap          the standard library's map, as staking-farm/src/farm.rs uses it
--   Ratio, RewardFee Ratio and UpdatableRewardFee of staking-farm/src/lib.rs
--   Account,         Account of staking-farm/src/account.rs; internal_get_account,
--     Accounts       internal_save_account, internal_deposit, internal_add_shares of
--                    staking-farm/src/internal.rs
--   Shares           the four conversions of staking-farm/src/internal.rs
--   Internal         the other internal methods of staking-farm/src/internal.rs
--   Staking          staking-farm/src/stake.rs, and ping of staking-farm/src/lib.rs
--   Init             StakingContract::new of staking-farm/src/lib.rs
--   Farm,            the farms of staking-farm/src/farm.rs, internal_calculate_distribution, and
--     Distribution,  the rewards of an account
--     Rewards
--   Farms, Claims    creating and refilling farms; claims, their callbacks and stop_farm
--   TokenReceiver    staking-farm/src/token_receiver.rs
--   Owner, Upgrade   staking-farm/src/owner.rs
--   Views            staking-farm/src/views.rs; Views/Pages has the client that reads all pages
--   Requests         the stake actions among the promises of a pool, over its calls
--   Factory          staking-factory/src/lib.rs: the store of codes, the hashes allowed, the creation
--                    of pools; Factory/Calls has its calls and histories
--   Upgrade/Chain    an upgrade through the calls of a pool and the factory
--   Calls            the methods as one step: the checks of near_bindgen, and the call itself. A call
--                    that panics leaves the state as it was; a history is a list of calls, each in
--                    an environment of its own
--   Solvency         the books of the contract, over each method and over histories
--   Tests            the theorems at concrete inputs, over collections that are lists
--   Tests/Emulator   the emulator of staking-farm/src/test_utils.rs
--   Tests/Unit       the unit tests of staking-farm/src/lib.rs and staking-factory/src/lib.rs, run on
--                    the definitions
--
-- A stateful method takes the environment and the state and returns a Result: the new state, or the
-- panic. Promises are appended to the state's list of scheduled promises; what they do is another
-- call. Numbers are natural numbers, and each operation of the source that can leave its type is a
-- checked one. Loops are structural recursions over the lists that the source iterates over, so no
-- fuel is used, but for the loops of two unit tests, which fail if their hundred steps run out.
--
-- Parameters are the collections of near_sdk, the parsers of serde_json, the check of account ids,
-- the public keys and the helpers for promise results: each theorem holds for every Sdk. Those of the
-- factory are the hashes with their texts, and the costs of storage: the record Host.
--
-- Not modelled: the simulation tests of the two tests folders, logs, gas other than the amounts
-- that the source computes, the encoding of the state, BurnInfo, which the source never uses, and
-- what other contracts do with a promise. The balance of an environment is arbitrary: that
-- transfers lower it is not assumed.
pub mod Prelude
pub mod Machine
pub mod HashMap
pub mod Sdk
pub mod Env
pub mod Ratio
pub mod RewardFee
pub mod Account
pub mod Farm
pub mod Frame
pub mod Contract
pub mod Shares
pub mod Accounts
pub mod Distribution
pub mod Rewards
pub mod Internal
pub mod Farms
pub mod Staking
pub mod Owner
pub mod Claims
pub mod TokenReceiver
pub mod Init
pub mod Upgrade
pub mod Views
pub mod Solvency
pub mod Calls
pub mod Requests
pub mod Factory
mod Tests
