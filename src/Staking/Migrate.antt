-- ===== src/Staking/Migrate.antt =====
-- `migrate` of contracts/multi_staking/src/contract.rs: from each older configuration to the present one.
pub mod Versions
use text.Mathlib.Text.{◌==◌ as str_eq}
use dexter_core.Prelude.{
  ℕ, Bool, ◌||◌, Option, List, [], String, Result, ok, err, guard, ◌>>=◌, ◌>>◌,
}
use dexter_core.Chain.{Addr, StdError, Env}
use dexter_core.Ownership.{addr_validate}
use dexter_core.Staking.State.{
  Config, UnbondConfig, enabled, ContractError, lift_std, invalid_contract_version_for_upgrade,
}
use dexter_core.Staking.Fees.{validate}
use dexter_core.Staking.Admin.{lift_validation}

pub record ConfigV1 : Type 0 where
  pub owner : Addr
  pub allowed_lp_tokens : List Addr
  pub unlock_period : ℕ
  pub minimum_reward_schedule_proposal_start_delay : ℕ

pub record ConfigV2_1 : Type 0 where
  pub owner : Addr
  pub keeper : Option Addr
  pub allowed_lp_tokens : List Addr
  pub unlock_period : ℕ
  pub minimum_reward_schedule_proposal_start_delay : ℕ
  pub instant_unbond_fee_bp : ℕ
  pub fee_tier_interval : ℕ
  pub instant_unbond_min_fee_bp : ℕ

pub record ConfigV2_2 : Type 0 where
  pub owner : Addr
  pub keeper : Addr
  pub allowed_lp_tokens : List Addr
  pub unlock_period : ℕ
  pub minimum_reward_schedule_proposal_start_delay : ℕ
  pub instant_unbond_fee_bp : ℕ
  pub fee_tier_interval : ℕ
  pub instant_unbond_min_fee_bp : ℕ

pub record ConfigV3 : Type 0 where
  pub owner : Addr
  pub keeper : Addr
  pub allowed_lp_tokens : List Addr
  pub unlock_period : ℕ
  pub instant_unbond_fee_bp : ℕ
  pub fee_tier_interval : ℕ
  pub instant_unbond_min_fee_bp : ℕ

-- The stored version, and what loading the stored configuration at each type gives.
pub record OldStorage : Type 0 where
  pub version : String
  pub config_v1 : Result StdError ConfigV1
  pub config_v2_1 : Result StdError ConfigV2_1
  pub config_v2_2 : Result StdError ConfigV2_2
  pub config_v3 : Result StdError ConfigV3

pub data MigrateMsg : Type 0 where
  v3_1_from_v1 :
      (keeper_addr : Addr)
      → (instant_unbond_fee_bp instant_unbond_min_fee_bp fee_tier_interval : ℕ) → MigrateMsg
  v3_1_from_v2 : (keeper_addr : Addr) → MigrateMsg
  v3_1_from_v2_2 v3_1_from_v3 : MigrateMsg

abbrev pub unbond_config : (unlock_period min_fee max_fee fee_tier_interval : ℕ) → UnbondConfig
unbond_config unlock_period min_fee max_fee fee_tier_interval = record {
  unlock_period = unlock_period;
  instant_unbond_config = enabled min_fee max_fee fee_tier_interval;
}

abbrev new_config : (owner keeper : Addr) → List Addr → UnbondConfig → Config
new_config owner keeper allowed_lp_tokens c = record {
  owner = owner;
  keeper = keeper;
  allowed_lp_tokens = allowed_lp_tokens;
  allowed_reward_cw20_tokens = [];
  unbond_config = c;
}

-- The configuration that is stored; the version then is the present one.
unfoldable pub migrate : OldStorage → Env → MigrateMsg → Result ContractError Config
unfolding addr_validate
migrate s env (v3_1_from_v1 keeper_addr fee_bp min_fee_bp fee_tier_interval) = do
  guard (str_eq s.version "1.0.0") (invalid_contract_version_for_upgrade "1.0.0" s.version)
  old ← lift_std s.config_v1
  let c = unbond_config old.unlock_period min_fee_bp fee_bp fee_tier_interval
  lift_validation (validate c)
  keeper ← lift_std (addr_validate env keeper_addr)
  ok (new_config old.owner keeper old.allowed_lp_tokens c)
migrate s env (v3_1_from_v2 keeper_addr) = do
  guard (str_eq s.version "2.0.0" || str_eq s.version "2.1.0")
      (invalid_contract_version_for_upgrade "2.0.0" s.version)
  old ← lift_std s.config_v2_1
  let c =
      unbond_config old.unlock_period old.instant_unbond_min_fee_bp old.instant_unbond_fee_bp
        old.fee_tier_interval
  lift_validation (validate c)
  keeper ← lift_std (addr_validate env keeper_addr)
  ok (new_config old.owner keeper old.allowed_lp_tokens c)
migrate s env v3_1_from_v2_2 = do
  guard (str_eq s.version "2.2.0") (invalid_contract_version_for_upgrade "2.2.0" s.version)
  old ← lift_std s.config_v2_2
  let c =
      unbond_config old.unlock_period old.instant_unbond_min_fee_bp old.instant_unbond_fee_bp
        old.fee_tier_interval
  lift_validation (validate c)
  ok (new_config old.owner old.keeper old.allowed_lp_tokens c)
migrate s env v3_1_from_v3 = do
  guard (str_eq s.version "3.0.0") (invalid_contract_version_for_upgrade "3.0.0" s.version)
  old ← lift_std s.config_v3
  let c =
      unbond_config old.unlock_period old.instant_unbond_min_fee_bp old.instant_unbond_fee_bp
        old.fee_tier_interval
  lift_validation (validate c)
  ok (new_config old.owner old.keeper old.allowed_lp_tokens c)
