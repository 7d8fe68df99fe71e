-- ===== src/Staking/State.antt =====
-- packages/dexter/src/multi_staking.rs (types), contracts/multi_staking/src/state.rs (storage) and
-- error.rs. Each storage `Item` or `Map` is a field; times and counts are `u64`, amounts `Uint128`.
use dexter_core.Prelude.{
  ℕ, Bool, false, ◌&&◌, ◌≡◌, true, ◌↔◌, Option, some, List, [], arith, String, ◌==◌, Eq, unwrap_or,
  Result, ok, err, panic, or_panic, ◌>>=◌,
}
use dexter_core.Prelude.Dict.{Dict}
use dexter_core.Chain.{Addr, Name, StdError}
use dexter_core.Chain.Words.{add_u64}
use dexter_core.Asset.{AssetInfo}
use dexter_core.Ownership.{OwnershipProposal}

abbrev pub max_allowed_lp_tokens : ℕ
max_allowed_lp_tokens = 100_000

abbrev pub max_user_lp_token_locks : ℕ
max_user_lp_token_locks = 100_000

abbrev pub max_instant_unbond_fee_bp : ℕ
max_instant_unbond_fee_bp = 1000

-- `reward_index` in atomics of a `Decimal`
pub record AssetRewardState : Type 0 where
  pub reward_index : ℕ
  pub last_distributed : ℕ

pub record UnclaimedReward : Type 0 where
  pub asset : AssetInfo
  pub amount : ℕ

pub record RewardSchedule : Type 0 where
  pub title : String
  pub creator : Addr
  pub asset : AssetInfo
  pub amount : ℕ
  pub staking_lp_token : Addr
  pub start_block_time : ℕ
  pub end_block_time : ℕ

pub record CreatorClaimableRewardState : Type 0 where
  pub claimed : Bool
  pub amount : ℕ
  pub last_update : ℕ

abbrev pub default_claimable : CreatorClaimableRewardState
default_claimable = record { claimed = false; amount = 0; last_update = 0 }

pub record UnlockFeeTier : Type 0 where
  pub seconds_till_unlock_start : ℕ
  pub seconds_till_unlock_end : ℕ
  pub unlock_fee_bp : ℕ

pub data InstantUnbondConfig : Type 0 where
  disabled : InstantUnbondConfig
  enabled : (min_fee max_fee fee_tier_interval : ℕ) → InstantUnbondConfig

pub record UnbondConfig : Type 0 where
  pub unlock_period : ℕ
  pub instant_unbond_config : InstantUnbondConfig

pub record Config : Type 0 where
  pub owner : Addr
  pub keeper : Addr
  pub allowed_lp_tokens : List Addr
  pub allowed_reward_cw20_tokens : List Addr
  pub unbond_config : UnbondConfig

pub record TokenLock : Type 0 where
  pub unlock_time : ℕ
  pub amount : ℕ

-- The derived `PartialEq` of `TokenLock`.
abbrev pub lock_beq : TokenLock → TokenLock → Bool
lock_beq a b = a.unlock_time == b.unlock_time && a.amount == b.amount

pub lock_beq_iff : (a b : TokenLock) → (lock_beq a b ≡ true) ↔ (a ≡ b)
lock_beq_iff a b = ground arith

instance abbrev pub lock_eq : Eq TokenLock
lock_eq = record { beq = lock_beq; beq_iff = lock_beq_iff }

pub record TokenLockInfo : Type 0 where
  pub locks : List TokenLock
  pub unlocked_amount : ℕ

pub record AssetStakerInfo : Type 0 where
  pub asset : AssetInfo
  pub reward_index : ℕ
  pub pending_reward : ℕ

pub record LpGlobalState : Type 0 where
  pub total_bond_amount : ℕ
  pub active_reward_assets : List AssetInfo

abbrev pub default_global : LpGlobalState
default_global = record { total_bond_amount = 0; active_reward_assets = [] }

pub record InstantLpUnlockFee : Type 0 where
  pub time_until_lock_expiry : ℕ
  pub unlock_fee_bp : ℕ
  pub unlock_fee : ℕ
  pub unlock_amount : ℕ

pub data UnbondConfigValidationError : Type 0 where
  invalid_min_fee : (min_fee max_fee : ℕ) → UnbondConfigValidationError
  invalid_max_fee : (max_fee : ℕ) → UnbondConfigValidationError
  invalid_fee_tier_interval : (fee_tier_interval : ℕ) → UnbondConfigValidationError

-- The errors that the contract raises. (`std` also holds the arithmetic overflow errors.)
pub data ContractError : Type 0 where
  std : StdError → ContractError
  checked_multiply_fraction_error : ContractError
  unauthorized : ContractError
  invalid_number_of_assets : (correct_number received_number : ℕ) → ContractError
  cant_unbond_more_than_bonded : (current_bond_amount amount_to_unbond : ℕ) → ContractError
  cant_allow_any_more_lp_token_unbonds : ContractError
  cant_allow_any_more_lp_tokens : ContractError
  lp_token_already_allowed lp_token_not_allowed block_time_in_past : ContractError
  invalid_block_times : (start_block_time end_block_time : ℕ) → ContractError
  invalid_start_block_time : (start_block_time current_block_time : ℕ) → ContractError
  no_reward_state no_user_reward_state zero_amount reward_schedule_is_active : ContractError
  unallocated_reward_already_claimed no_unallocated_reward token_lock_not_found : ContractError
  invalid_contract_version_for_upgrade : (expected actual : String) → ContractError
  no_locks no_valid_locks instant_unbond_disabled : ContractError
  invalid_unbond_config : UnbondConfigValidationError → ContractError
  cw20_token_already_allowed cw20_token_not_allowed : ContractError

-- `?` on a `StdResult` in a function that returns a `ContractError`.
abbrev pub lift_std : {A : Type 0} → Result StdError A → Result ContractError A
lift_std (ok a) = ok a
lift_std (err e) = err (std e)
lift_std panic = panic

pub record Storage : Type 0 where
  pub config : Config
  pub lp_override_config : Dict Addr UnbondConfig
  pub ownership_proposal : Option OwnershipProposal
  pub reward_schedule_id_count : Option ℕ
  -- keyed by LP token, user and asset
  pub asset_staker_info : Dict (Addr × (Addr × Name)) AssetStakerInfo
  pub lp_token_asset_reward_schedule : Dict (Addr × Name) (List ℕ)
  pub reward_schedules : Dict ℕ RewardSchedule
  pub creator_claimable_reward : Dict ℕ CreatorClaimableRewardState
  -- keyed by LP token and user
  pub user_lp_token_locks : Dict (Addr × Addr) (List TokenLock)
  pub user_bonded_lp_tokens : Dict (Addr × Addr) ℕ
  -- keyed by asset and LP token
  pub asset_lp_reward_state : Dict (Name × Addr) AssetRewardState
  pub lp_global_state : Dict Addr LpGlobalState

unfoldable pub next_reward_schedule_id : Storage → Result ContractError (ℕ × Storage)
next_reward_schedule_id s = do
  id ← or_panic (add_u64 (unwrap_or s.reward_schedule_id_count 0) 1)
  ok (id, record s { reward_schedule_id_count = some id })
