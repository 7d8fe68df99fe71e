-- ===== src/Vault/Admin.antt =====
-- `instantiate` and the messages that change settings: contracts/vault/src/contract.rs.
use dexter_core.Prelude.{
  ℕ, Bool, true, ◌&&◌, ◌||◌, not, Option, none, some, List, [], ◌∷◌, ◌++◌, filter, contains, ◌==◌,
  Result, ok, err, or_err, guard, ◌>>=◌, ◌>>◌, nat_eq,
}
use dexter_core.Prelude.Dict.{Dict, lookup, insert}
use dexter_core.Chain.{Addr, Name, Env, MessageInfo, not_found}
use dexter_core.Ownership.{addr_validate}
use dexter_core.Asset.{addr_opt_validate}
use dexter_core.Vault.State.{
  PoolType, pool_type_eq, FeeInfo, valid_fee_info, PauseInfo, not_paused, AllowPoolInstantiation,
  AutoStakeImpl, no_auto_stake, multistaking, PoolCreationFee, disabled, enabled, Config,
  PoolTypeConfig, PoolInfo, Storage, std, unauthorized, invalid_code_id, invalid_pool_id,
  pool_type_already_exists, invalid_fee_info, pool_type_config_not_found,
  address_already_whitelisted, address_not_whitelisted, pool_type_config_duplicate,
  cannot_add_owner_to_whitelist, invalid_pool_creation_fee, ContractError, lift, Msg, update_fee,
  update_params, Outcome,
}

-- The set of the types has as many members as there are configurations.
unfoldable pub is_duplicate_free : List PoolType → List PoolTypeConfig → Bool
is_duplicate_free seen [] = true
is_duplicate_free seen (config ∷ configs) =
    not (contains seen config.pool_type) && is_duplicate_free (config.pool_type ∷ seen) configs

abbrev pub check_code_id : Option ℕ → Result ContractError Unit
check_code_id none = ok tt
check_code_id (some code_id) = guard (not (code_id == 0)) invalid_code_id

abbrev pub check_creation_fee : PoolCreationFee → Result ContractError Unit
check_creation_fee disabled = ok tt
check_creation_fee (enabled fee) = guard (not (fee.amount == 0)) invalid_pool_creation_fee

unfoldable pub check_auto_stake : Env → AutoStakeImpl → Result ContractError Unit
unfolding addr_validate
check_auto_stake env no_auto_stake = ok tt
check_auto_stake env (multistaking contract_addr) = do
  contract ← lift (addr_validate env contract_addr)
  ok tt

-- `for pc in msg.pool_configs.iter()`, also of `migrate`
unfoldable pub save_configs :
    Dict PoolType PoolTypeConfig
    → List PoolTypeConfig
    → Result ContractError (Dict PoolType PoolTypeConfig)
save_configs registry [] = ok registry
save_configs registry (config ∷ configs) = do
  guard (not (config.code_id == 0)) invalid_code_id
  guard (valid_fee_info config.default_fee_info) invalid_fee_info
  save_configs (insert config.pool_type config registry) configs

pub record InstantiateMsg : Type 0 where
  pub owner : Addr
  pub pool_configs : List PoolTypeConfig
  pub lp_token_code_id : Option ℕ
  pub fee_collector : Option Addr
  pub pool_creation_fee : PoolCreationFee
  pub auto_stake_impl : AutoStakeImpl

unfoldable pub instantiate : Env → InstantiateMsg → Result ContractError Storage
instantiate env msg = do
  guard (is_duplicate_free [] msg.pool_configs) pool_type_config_duplicate
  check_code_id msg.lp_token_code_id
  check_creation_fee msg.pool_creation_fee
  check_auto_stake env msg.auto_stake_impl
  owner ← lift (addr_validate env msg.owner)
  fee_collector ← lift (addr_opt_validate env msg.fee_collector)
  registry ← save_configs [] msg.pool_configs
  ok (record {
    config = record {
      owner = owner;
      whitelisted_addresses = [];
      lp_token_code_id = msg.lp_token_code_id;
      fee_collector = fee_collector;
      auto_stake_impl = msg.auto_stake_impl;
      pool_creation_fee = msg.pool_creation_fee;
      next_pool_id = 1;
      paused = not_paused;
    };
    registry = registry;
    active_pools = [];
    lp_token_to_pool_id = [];
    ownership_proposal = none;
    tmp_pool_info = none;
  })

abbrev pub only_owner : Storage → MessageInfo → Result ContractError Unit
only_owner s info = guard (info.sender == s.config.owner) unauthorized

-- `sender != owner && !whitelisted.contains(sender)`, negated
abbrev pub is_trusted : Storage → Addr → Bool
is_trusted s sender = sender == s.config.owner || contains s.config.whitelisted_addresses sender

abbrev pub set_code_id : Option ℕ → Config → Result ContractError Config
set_code_id none config = ok config
set_code_id (some code_id) config = do
  guard (not (code_id == 0)) invalid_code_id
  ok (record config { lp_token_code_id = some code_id })

unfoldable pub set_fee_collector : Env → Option Addr → Config → Result ContractError Config
set_fee_collector env none config = ok config
set_fee_collector env (some fee_collector) config = do
  collector ← lift (addr_validate env fee_collector)
  ok (record config { fee_collector = some collector })

abbrev pub set_creation_fee : Option PoolCreationFee → Config → Result ContractError Config
set_creation_fee none config = ok config
set_creation_fee (some fee) config = do
  check_creation_fee fee
  ok (record config { pool_creation_fee = fee })

unfoldable pub set_auto_stake : Env → Option AutoStakeImpl → Config → Result ContractError Config
set_auto_stake env none config = ok config
set_auto_stake env (some auto_stake) config = do
  check_auto_stake env auto_stake
  ok (record config { auto_stake_impl = auto_stake })

abbrev pub set_paused : Option PauseInfo → Config → Config
set_paused none config = config
set_paused (some paused) config = record config { paused = paused }

unfoldable pub execute_update_config :
    Storage
    → Env
    → MessageInfo
    → (lp_token_code_id : Option ℕ) → (fee_collector : Option Addr) → Option PoolCreationFee
    → Option AutoStakeImpl
    → Option PauseInfo
    → Outcome
execute_update_config s env info lp_token_code_id fee_collector pool_creation_fee auto_stake_impl
      paused =
    do
      only_owner s info
      config1 ← set_code_id lp_token_code_id s.config
      config2 ← set_fee_collector env fee_collector config1
      config3 ← set_creation_fee pool_creation_fee config2
      config4 ← set_auto_stake env auto_stake_impl config3
      ok (record s { config = set_paused paused config4 }, [])

pub data PauseInfoUpdateType : Type 0 where
  by_pool_id : ℕ → PauseInfoUpdateType
  by_pool_type : PoolType → PauseInfoUpdateType

unfoldable pub execute_update_pause_info :
    Storage → MessageInfo → PauseInfoUpdateType → PauseInfo → Outcome
execute_update_pause_info s info (by_pool_id pool_id) pause_info = do
  guard (is_trusted s info.sender) unauthorized
  pool ← or_err (lookup pool_id s.active_pools) invalid_pool_id
  ok (
    record s { active_pools = insert pool_id (record pool { paused = pause_info }) s.active_pools },
    [],
  )
execute_update_pause_info s info (by_pool_type pool_type) pause_info = do
  guard (is_trusted s info.sender) unauthorized
  config ← or_err (lookup pool_type s.registry) pool_type_config_not_found
  ok (
    record s { registry = insert pool_type (record config { paused = pause_info }) s.registry },
    [],
  )

abbrev pub set_instantiation : Option AllowPoolInstantiation → PoolTypeConfig → PoolTypeConfig
set_instantiation none config = config
set_instantiation (some allow) config = record config { allow_instantiation = allow }

abbrev pub set_default_fee : Option FeeInfo → PoolTypeConfig → Result ContractError PoolTypeConfig
set_default_fee none config = ok config
set_default_fee (some fee) config = do
  guard (valid_fee_info fee) invalid_fee_info
  ok (record config { default_fee_info = fee })

abbrev pub set_type_paused : Option PauseInfo → PoolTypeConfig → PoolTypeConfig
set_type_paused none config = config
set_type_paused (some paused) config = record config { paused = paused }

-- The configuration is saved under the type that it names itself.
unfoldable pub execute_update_pool_type_config :
    Storage
    → MessageInfo
    → PoolType
    → Option AllowPoolInstantiation
    → Option FeeInfo
    → Option PauseInfo
    → Outcome
execute_update_pool_type_config s info pool_type allow_instantiation new_fee_info paused = do
  only_owner s info
  config ← or_err (lookup pool_type s.registry) pool_type_config_not_found
  config1 ← set_default_fee new_fee_info (set_instantiation allow_instantiation config)
  let config2 = set_type_paused paused config1
  ok (record s { registry = insert config2.pool_type config2 s.registry }, [])

abbrev pub set_pool_fee : Option FeeInfo → PoolInfo → Result ContractError (PoolInfo × List Msg)
set_pool_fee none pool = ok (pool, [])
set_pool_fee (some fee) pool = do
  guard (valid_fee_info fee) invalid_fee_info
  ok (record pool { fee_info = fee }, update_fee pool.pool_addr fee.total_fee_bps ∷ [])

abbrev pub set_pool_paused : Option PauseInfo → PoolInfo → PoolInfo
set_pool_paused none pool = pool
set_pool_paused (some paused) pool = record pool { paused = paused }

unfoldable pub execute_update_pool_config :
    Storage → MessageInfo → (pool_id : ℕ) → Option FeeInfo → Option PauseInfo → Outcome
execute_update_pool_config s info pool_id fee_info paused = do
  only_owner s info
  pool ← or_err (lookup pool_id s.active_pools) (std not_found)
  (pool', msgs) ← set_pool_fee fee_info pool
  ok (
    record s { active_pools = insert pool_id (set_pool_paused paused pool') s.active_pools },
    msgs,
  )

unfoldable pub execute_update_pool_params :
    Storage → MessageInfo → (pool_id : ℕ) → (params : Name) → Outcome
execute_update_pool_params s info pool_id params = do
  only_owner s info
  pool ← or_err (lookup pool_id s.active_pools) (std not_found)
  ok (s, update_params pool.pool_addr params ∷ [])

abbrev with_whitelist : Storage → List Addr → Storage
with_whitelist s addresses = record s {
  config = record (s.config) { whitelisted_addresses = addresses };
}

unfoldable pub execute_add_address_to_whitelist :
    Storage → Env → MessageInfo → (address : Addr) → Outcome
execute_add_address_to_whitelist s env info address = do
  only_owner s info
  address' ← lift (addr_validate env address)
  guard (not (address' == s.config.owner)) cannot_add_owner_to_whitelist
  guard (not (contains s.config.whitelisted_addresses address')) address_already_whitelisted
  ok (with_whitelist s (s.config.whitelisted_addresses ++ address' ∷ []), [])

unfoldable pub execute_remove_address_from_whitelist :
    Storage → Env → MessageInfo → (address : Addr) → Outcome
execute_remove_address_from_whitelist s env info address = do
  only_owner s info
  address' ← lift (addr_validate env address)
  guard (contains s.config.whitelisted_addresses address') address_not_whitelisted
  ok (with_whitelist s (filter (λ x. not (x == address')) s.config.whitelisted_addresses), [])

abbrev pub must_be_new : Option PoolTypeConfig → Result ContractError Unit
must_be_new none = ok tt
must_be_new (some config) = err pool_type_already_exists

unfoldable pub execute_add_to_registry : Storage → MessageInfo → PoolTypeConfig → Outcome
execute_add_to_registry s info config = do
  only_owner s info
  guard (not (config.code_id == 0)) invalid_code_id
  must_be_new (lookup config.pool_type s.registry)
  guard (valid_fee_info config.default_fee_info) invalid_fee_info
  ok (record s { registry = insert config.pool_type config s.registry }, [])
