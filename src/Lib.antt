-- ===== src/Lib.antt =====
-- Dexter, four of its contracts. The vault holds the assets of all pools and mints and burns their LP
-- tokens as the pool contracts' answers say. The multi-staking contract keeps LP tokens that users bond,
-- pays them rewards by an index, and gives the tokens back after an unlock period, or at once for a fee.
-- The superfluid contract locks tokens that their owners may later spend to join a pool of the vault,
-- which bonds the LP tokens with the multi-staking contract for them. The keeper holds the fees that the
-- other contracts send it, for its owner.
--
-- What is modelled, and where (paths from the repository's root):
--   Prelude (Tests, Lists, Sort, Dict, Results): Boolean tests, lists, the stored maps (`lookup` is
--     `may_load`, `insert` is `save`, `erase` is `remove`) and what a handler returns: a value, an
--     error, or a panic.
--   Chain (Words, Decimal): addresses, the block, messages, `u64` and `Uint128`, and the `Decimal`
--     of cosmwasm_std as an interface with its documented rounding; `exact` shows it can be met.
--     Payment and Text are such interfaces too, for `cw_utils::must_pay` and for the order, the case and
--     the prefix of strings.
--   Asset, Ownership: packages/dexter/src/asset.rs and helper.rs, as far as the contracts use them.
--   Staking/State: packages/dexter/src/multi_staking.rs, contracts/multi_staking/src/state.rs and
--     error.rs: every stored item or map is a field of `Storage`.
--   Staking/Fees: `UnbondConfig::validate`, `query_instant_unlock_fee_tiers` and
--     `calculate_unlock_fee` (query.rs and utils.rs in contracts/multi_staking/src). Staking/Locks:
--     `find_lock_difference` of that utils.rs.
--   Staking/Rewards: `compute_reward`, `compute_staker_reward`, `update_staking_rewards` and
--     `withdraw_pending_reward` of contracts/multi_staking/src/contract.rs.
--   Staking/Bond, Unbond, Unlock: `bond` and `withdraw` of contract.rs, and unbond.rs and
--     unlock.rs in contracts/multi_staking/src/execute. Staking/Schedules: `create_reward_schedule`, `claim_unallocated_reward`.
--   Staking/Admin: `instantiate`, the owner's messages, the handover of the ownership.
--   Staking/Execute: `execute` and `receive_cw20`. Staking/Query: the queries that compute something.
--   Staking/Migrate: `migrate`.
--   Staking/Custody and Staking/Invariant hold the books over all messages and over whole runs;
--     Staking/Tests the concrete runs.
--   Superfluid: contracts/superfluid_lp and packages/dexter/src/superfluid_lp.rs. Spending and Locks
--     prove what a join takes from the coins sent and from the sender's locks, Solvency the balance of
--     the contract.
--   Keeper: contracts/keeper and packages/dexter/src/keeper.rs; what it asks of the bank, the tokens and
--     the vault is the interface `Querier`.
--   Vault/State: packages/dexter/src/vault.rs, the answers of packages/dexter/src/pool.rs, and state.rs
--     and error.rs in contracts/vault/src. Vault/Admin, Create, Join, Exit, Swap, Query, Execute: the
--     handlers of contracts/vault/src/contract.rs, each loop over a pool's assets with a definition for
--     one asset. Books and Solvency hold what the pools own against what the messages move; Shape says
--     what a join, an exit or a swap leaves alone; Limits what a swap pays; Fees, Authority and
--     Paused are about the settings.
--     The pool contracts that the vault asks are the interface `Pools`.
--
-- Every handler takes the storage and returns the storage and the messages, or an error; an error
-- leaves the storage as it was, so a run (`IsReachable`) is a chain of messages that succeed.
--
-- Bounds: every loop is structural recursion, on the list that the source walks or on the number of
-- tiers, so no fuel is needed. The fee theorems take an interval of at most 10 ^ 18 seconds and a period
-- that with the interval fits `u64`, the one on the ends of the tier table a period of at most 10 ^ 18
-- seconds. The sort of the locks is an insertion sort, which is stable as the
-- one of the source.
--
-- Not modelled: events and attributes of responses; that a message sent to another contract fails
-- (which undoes the whole transaction), except that the two replies of the vault are steps of their own;
-- the JSON of messages; the queries that return one stored value as it is; the text of the vault's error
-- for a pool's answer; and the other contracts (the pools, router, governance_admin, lp_token).
pub mod Prelude
pub mod Chain
pub mod Asset
pub mod Ownership
pub mod Staking
pub mod Superfluid
pub mod Keeper
pub mod Vault
