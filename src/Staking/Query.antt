-- ===== src/Staking/Query.antt =====
-- The queries of contracts/multi_staking/src/contract.rs that compute something; the others return a
-- stored value as it is.
pub mod Locks
pub mod Unclaimed
use dexter_core.Prelude.{
  ℕ, ◌+◌, Bool, Option, none, some, List, [], ◌∷◌, ◌++◌, contains, ltb, ◌==◌, not, filter,
  if◌then◌else◌, unwrap_or, Result, ok, err, or_err, or_panic, guard, ◌>>=◌, ◌>>◌, nat_eq, pair_eq,
}
use dexter_core.Prelude.Dict.{lookup}
use dexter_core.Chain.{Addr, Env, not_found}
use dexter_core.Chain.Words.{add_u128, checked_sub}
use dexter_core.Chain.Decimal.{Decimal}
use dexter_core.Asset.{AssetInfo, to_string}
use dexter_core.Ownership.{addr_validate}
use dexter_core.Staking.State.{
  Storage, UnbondConfig, UnlockFeeTier, TokenLock, TokenLockInfo, InstantLpUnlockFee,
  UnclaimedReward, RewardSchedule, AssetRewardState, AssetStakerInfo, CreatorClaimableRewardState,
  lock_eq, ContractError, std, lift_std, token_lock_not_found, block_time_in_past, no_reward_state,
  no_user_reward_state,
}
use dexter_core.Staking.Fees.{calculate_unlock_fee, query_instant_unlock_fee_tiers}
use dexter_core.Staking.Rewards.{accrue, load_schedules, schedule_ids}
use dexter_core.Staking.Bond.{bonded_of}
use dexter_core.Staking.Unbond.{unbond_config_of, locks_of}
use dexter_core.Staking.Schedules.{compute_creator_claimable_reward, claimable_of}

module _ ⦃d : Decimal⦄ where
  unfoldable pub query_instant_unlock_fee :
      Storage → Env → (user lp_token : Addr) → TokenLock → Result ContractError InstantLpUnlockFee
  query_instant_unlock_fee s env user lp_token token_lock = do
    guard (contains (locks_of s lp_token user) token_lock) token_lock_not_found
    (fee_bp, unlock_fee) ←
        calculate_unlock_fee token_lock env.block_time (unbond_config_of s lp_token)
    ok (record {
      time_until_lock_expiry = unwrap_or (checked_sub token_lock.unlock_time env.block_time) 0;
      unlock_fee_bp = fee_bp;
      unlock_fee = unlock_fee;
      unlock_amount = token_lock.amount;
    })

  unfoldable pub query_fee_tiers : Storage → Addr → Result ContractError (List UnlockFeeTier)
  query_fee_tiers s lp_token = query_instant_unlock_fee_tiers (unbond_config_of s lp_token)

  unfoldable pub query_default_fee_tiers : Storage → Result ContractError (List UnlockFeeTier)
  query_default_fee_tiers s = query_instant_unlock_fee_tiers s.config.unbond_config

  -- `for asset in lp_global_state.active_reward_assets`
  unfoldable pub unclaimed_of :
      Storage
      → List AssetInfo
      → (lp_token user : Addr) → (total bonded now : ℕ) → List UnclaimedReward
      → Result ContractError (List UnclaimedReward)
  unclaimed_of s [] lp_token user total bonded now found = ok found
  unclaimed_of s (asset ∷ assets) lp_token user total bonded now found = do
    (state, info, claims) ← accrue s asset lp_token user total bonded now
    unclaimed_of s assets lp_token user total bonded now (
        if ltb 0 info.pending_reward
        then found ++ (record { asset = asset; amount = info.pending_reward }) ∷ []
        else found)

  unfoldable pub query_unclaimed_rewards :
      Storage
      → Env
      → (lp_token user : Addr) → (block_time : Option ℕ)
      → Result ContractError (List UnclaimedReward)
  query_unclaimed_rewards s env lp_token user block_time = do
    let bonded = bonded_of s lp_token user
    global ← or_err (lookup lp_token s.lp_global_state) (std not_found)
    let now = unwrap_or block_time env.block_time
    guard (not (ltb now env.block_time)) block_time_in_past
    unclaimed_of s global.active_reward_assets lp_token user global.total_bond_amount bonded now []

  unfoldable pub query_creator_claimable_reward :
      Storage → Env → ℕ → Result ContractError CreatorClaimableRewardState
  query_creator_claimable_reward s env id = do
    schedule ← or_err (lookup id s.reward_schedules) (std not_found)
    compute_creator_claimable_reward s env schedule (claimable_of s id)

-- The locks that have run out before `now`, added up, and the others.
unfoldable pub split_locks : ℕ → List TokenLock → ℕ → Result ContractError ℕ
split_locks now [] unlocked = ok unlocked
split_locks now (lock ∷ locks) unlocked = do
  unlocked' ←
      if ltb lock.unlock_time now then or_panic (add_u128 unlocked lock.amount) else ok unlocked
  split_locks now locks unlocked'

unfoldable pub query_token_locks :
    Storage
    → Env
    → (lp_token user : Addr) → (block_time : Option ℕ) → Result ContractError TokenLockInfo
query_token_locks s env lp_token user block_time = do
  let locks = locks_of s lp_token user
  let now = unwrap_or block_time env.block_time
  unlocked ← split_locks now locks 0
  ok (record {
    locks = filter (λ lock. not (ltb lock.unlock_time now)) locks;
    unlocked_amount = unlocked;
  })

unfoldable pub query_reward_schedules :
    Storage → Addr → AssetInfo → Result ContractError (List (ℕ × RewardSchedule))
query_reward_schedules s lp_token asset = load_schedules s (schedule_ids s lp_token asset)

unfoldable pub query_reward_state :
    Storage → Addr → AssetInfo → Result ContractError AssetRewardState
query_reward_state s lp_token asset =
    or_err (lookup (to_string asset, lp_token) s.asset_lp_reward_state) no_reward_state

unfoldable pub query_staker_info :
    Storage → Addr → AssetInfo → Addr → Result ContractError AssetStakerInfo
query_staker_info s lp_token asset user =
    or_err (lookup (lp_token, (user, to_string asset)) s.asset_staker_info) no_user_reward_state

unfoldable pub query_unbond_config : Storage → Env → Option Addr → Result ContractError UnbondConfig
unfolding addr_validate
query_unbond_config s env none = ok s.config.unbond_config
query_unbond_config s env (some lp_token) = do
  lp_token' ← lift_std (addr_validate env lp_token)
  ok (unbond_config_of s lp_token')
