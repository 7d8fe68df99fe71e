-- ===== src/Vault/State.antt =====
-- contracts/vault: what is stored (src/state.rs, packages/dexter/src/vault.rs), the answers of the pool
-- contracts (packages/dexter/src/pool.rs), the errors and the messages.
use dexter_core.Prelude.{
  ℕ, ◌≡◌, ◌↔◌, Bool, true, false, ◌&&◌, Option, List, arith, ◌==◌, ==_iff, leb, Eq, Result, ok, err,
  panic, or_panic, ◌>>=◌,
}
use dexter_core.Prelude.Dict.{Dict}
use dexter_core.Chain.{Addr, Name, CosmosMsg, StdError}
use dexter_core.Chain.Decimal.{Decimal}
use dexter_core.Asset.{AssetInfo, Asset}
use dexter_core.Ownership.{OwnershipProposal}

pub data PoolType : Type 0 where
  stable_swap weighted : PoolType
  custom : (name : Name) → PoolType

-- Equality of the texts by which the registry is keyed: `stable-swap`, `weighted`, `custom-` and a name.
abbrev pub pool_type_beq : PoolType → PoolType → Bool
pool_type_beq stable_swap stable_swap = true
pool_type_beq stable_swap weighted = false
pool_type_beq stable_swap (custom b) = false
pool_type_beq weighted stable_swap = false
pool_type_beq weighted weighted = true
pool_type_beq weighted (custom b) = false
pool_type_beq (custom a) stable_swap = false
pool_type_beq (custom a) weighted = false
pool_type_beq (custom a) (custom b) = a == b

pub pool_type_beq_iff : (x y : PoolType) → (pool_type_beq x y ≡ true) ↔ (x ≡ y)
pool_type_beq_iff stable_swap y = ground arith
pool_type_beq_iff weighted y = ground arith
pool_type_beq_iff (custom a) stable_swap = ground arith
pool_type_beq_iff (custom a) weighted = ground arith
pool_type_beq_iff (custom a) (custom b) = ground (arith, ==_iff a b)

instance abbrev pub pool_type_eq : Eq PoolType
pool_type_eq = record { beq = pool_type_beq; beq_iff = pool_type_beq_iff }

pub data SwapType : Type 0 where
  give_in give_out : SwapType
  custom_swap : (name : Name) → SwapType

pub record FeeInfo : Type 0 where
  pub total_fee_bps : ℕ
  pub protocol_fee_percent : ℕ

abbrev pub max_total_fee_bps : ℕ
max_total_fee_bps = 1000

abbrev pub max_protocol_fee_percent : ℕ
max_protocol_fee_percent = 100

abbrev pub valid_fee_info : FeeInfo → Bool
valid_fee_info fee =
    leb fee.total_fee_bps max_total_fee_bps && leb fee.protocol_fee_percent max_protocol_fee_percent

-- `total_fee * Decimal::from_ratio(protocol_fee_percent, 100)`
unfoldable pub calculate_total_fee_breakup : {E : Type 0} → ⦃d : Decimal⦄ → FeeInfo → ℕ → Result E ℕ
calculate_total_fee_breakup ⦃d⦄ fee total_fee = do
  percent ← or_panic (d.from_ratio fee.protocol_fee_percent 100)
  or_panic (d.mul_floor total_fee percent)

pub record NativeAssetPrecisionInfo : Type 0 where
  pub denom : Name
  pub precision : ℕ

pub record PauseInfo : Type 0 where
  pub swap : Bool
  pub deposit : Bool
  pub imbalanced_withdraw : Bool

-- `PauseInfo::default()`
abbrev pub not_paused : PauseInfo
not_paused = record { swap = false; deposit = false; imbalanced_withdraw = false }

pub data AllowPoolInstantiation : Type 0 where
  everyone only_whitelisted_addresses nobody : AllowPoolInstantiation

pub data AutoStakeImpl : Type 0 where
  no_auto_stake : AutoStakeImpl
  multistaking : (contract_addr : Addr) → AutoStakeImpl

pub data PoolCreationFee : Type 0 where
  disabled : PoolCreationFee
  enabled : (fee : Asset) → PoolCreationFee

pub record Config : Type 0 where
  pub owner : Addr
  pub whitelisted_addresses : List Addr
  pub lp_token_code_id : Option ℕ
  pub fee_collector : Option Addr
  pub auto_stake_impl : AutoStakeImpl
  pub pool_creation_fee : PoolCreationFee
  pub next_pool_id : ℕ
  pub paused : PauseInfo

pub record PoolTypeConfig : Type 0 where
  pub code_id : ℕ
  pub pool_type : PoolType
  pub default_fee_info : FeeInfo
  pub allow_instantiation : AllowPoolInstantiation
  pub paused : PauseInfo

-- `init_params` is a `Binary` that is passed on.
pub record TmpPoolInfo : Type 0 where
  pub code_id : ℕ
  pub pool_id : ℕ
  pub lp_token_addr : Option Addr
  pub fee_info : FeeInfo
  pub assets : List Asset
  pub native_asset_precisions : List NativeAssetPrecisionInfo
  pub pool_type : PoolType
  pub init_params : Option Name

pub record PoolInfo : Type 0 where
  pub pool_id : ℕ
  pub pool_addr : Addr
  pub lp_token_addr : Addr
  pub fee_info : FeeInfo
  pub assets : List Asset
  pub pool_type : PoolType
  pub paused : PauseInfo

pub record Storage : Type 0 where
  pub config : Config
  pub registry : Dict PoolType PoolTypeConfig
  pub active_pools : Dict ℕ PoolInfo
  pub lp_token_to_pool_id : Dict Addr ℕ
  pub ownership_proposal : Option OwnershipProposal
  pub tmp_pool_info : Option TmpPoolInfo

pub data ContractError : Type 0 where
  std : StdError → ContractError
  unauthorized invalid_code_id invalid_sub_msg_id invalid_pool_id : ContractError
  swap_amount_zero burn_amount_zero : ContractError
  max_spend_error : (max_spend offer_amount : ℕ) → ContractError
  min_receive_error : (min_receive ask_amount : ℕ) → ContractError
  pool_type_already_exists : ContractError
  insufficient_native_tokens_sent : (denom : Name) (sent needed : ℕ) → ContractError
  received_unexpected_lp_tokens : (expected received : ℕ) → ContractError
  pool_exit_transition_lp_to_burn_mismatch : (expected_to_burn actual_burn : ℕ) → ContractError
  pool_exit_transition_assets_out_mismatch :
      (expected_assets_out actual_assets_out : List Asset) → ContractError
  min_asset_out_error : (return_amount min_receive : ℕ) (asset_info : AssetInfo) → ContractError
  max_lp_to_burn_error : (burn_amount max_lp_to_burn : ℕ) → ContractError
  insufficient_lp_tokens_to_exit invalid_number_of_assets pool_query_failed : ContractError
  mismatched_assets invalid_sequence_of_assets amount_cannot_be_zero same_token_error :
      ContractError
  insufficient_tokens_sent pool_type_config_duplicate invalid_fee_info : ContractError
  pool_type_config_not_found repeated_assets address_already_whitelisted : ContractError
  address_not_whitelisted pool_type_creation_disabled cannot_add_owner_to_whitelist : ContractError
  invalid_pool_creation_fee auto_stake_disabled paused_deposit paused_swap : ContractError
  lp_token_code_id_not_set fee_collector_not_set invalid_native_asset_precision_list : ContractError
  unsupported_precision imbalanced_exit_paused : ContractError
  invalid_contract_version_for_upgrade invalid_contract_name_for_migration : ContractError

abbrev pub lift : {A : Type 0} → Result StdError A → Result ContractError A
lift (ok a) = ok a
lift (err e) = err (std e)
lift panic = panic

pub lift-eq-ok : {A : Type 0} (m : Result StdError A) {a : A} → lift m ≡ ok a → m ≡ ok a
lift-eq-ok (ok b) h = cc
lift-eq-ok (err e) h = cc
lift-eq-ok panic h = cc

-- What a pool contract answers. `is_success` is whether `response` is `Success`.
pub record AfterJoinResponse : Type 0 where
  pub provided_assets : List Asset
  pub new_shares : ℕ
  pub is_success : Bool
  pub fee : Option (List Asset)

pub record AfterExitResponse : Type 0 where
  pub assets_out : List Asset
  pub burn_shares : ℕ
  pub is_success : Bool
  pub fee : Option (List Asset)

pub record SwapResponse : Type 0 where
  pub amount_in : ℕ
  pub amount_out : ℕ
  pub is_success : Bool
  pub fee : Option Asset

-- `pool::ExitType`, what is asked of the pool
pub data PoolExitType : Type 0 where
  pool_exact_lp_burn : (lp_to_burn : ℕ) → PoolExitType
  pool_exact_assets_out : (assets_out : List Asset) → PoolExitType

-- The queries to the pool contracts: other contracts, which may fail to answer.
pub record Pools : Type 0 where
  pub on_join_pool :
      (pool_addr : Addr) (assets_in : Option (List Asset)) → Result StdError AfterJoinResponse
  pub on_exit_pool : (pool_addr : Addr) → PoolExitType → Result StdError AfterExitResponse
  pub on_swap :
      (pool_addr : Addr)
      → SwapType
      → (offer_asset ask_asset : AssetInfo) (amount : ℕ) → Result StdError SwapResponse
  pub pool_id : (pool_addr : Addr) → Result StdError ℕ

-- `PoolInstantiateMsg`
pub record PoolInstantiateMsg : Type 0 where
  pub pool_id : ℕ
  pub pool_type : PoolType
  pub vault_addr : Addr
  pub lp_token_addr : Addr
  pub asset_infos : List AssetInfo
  pub native_asset_precisions : List NativeAssetPrecisionInfo
  pub total_fee_bps : ℕ
  pub init_params : Option Name

-- The messages that the contract emits.
pub data Msg : Type 0 where
  pay : CosmosMsg → Msg
  mint : (lp_token recipient : Addr) (amount : ℕ) → Msg
  burn : (lp_token : Addr) (amount : ℕ) → Msg
  -- `Cw20ExecuteMsg::Send` with `Cw20HookMsg::Bond` for the beneficiary
  send_to_bond : (lp_token contract : Addr) (amount : ℕ) (beneficiary_user : Addr) → Msg
  update_liquidity : (pool_addr : Addr) (assets : List Asset) → Msg
  update_fee : (pool_addr : Addr) (total_fee_bps : ℕ) → Msg
  update_params : (pool_addr : Addr) (params : Name) → Msg
  -- the two submessages; the LP token is named after its pool
  instantiate_lp_token : (code_id pool_id : ℕ) (minter : Addr) → Msg
  instantiate_pool : (admin : Addr) (code_id : ℕ) → PoolInstantiateMsg → Msg

abbrev pub Outcome : Type 0
Outcome = Result ContractError (Storage × List Msg)
