-- ===== src/Vault/Execute.antt =====
-- The entry points `execute`, `receive_cw20` and `migrate` of contracts/vault/src/contract.rs.
use text.Mathlib.Text.{◌==◌ as str_eq}
use dexter_core.Prelude.{
  ℕ, Bool, Option, none, some, List, [], String, unwrap_or, Result, ok, err, guard, ◌>>=◌, ◌>>◌,
}
use dexter_core.Chain.{Addr, Name, Env, MessageInfo, parse_error}
use dexter_core.Chain.Decimal.{Decimal}
use dexter_core.Chain.Text.{Text}
use dexter_core.Ownership.{propose_new_owner, drop_ownership_proposal, claim_ownership}
use dexter_core.Asset.{AssetInfo, Asset}
use dexter_core.Vault.State.{
  PoolType, FeeInfo, NativeAssetPrecisionInfo, PauseInfo, AllowPoolInstantiation, AutoStakeImpl,
  PoolCreationFee, PoolTypeConfig, Storage, std, invalid_contract_version_for_upgrade,
  invalid_contract_name_for_migration, ContractError, lift, Pools, Outcome,
}
use dexter_core.Vault.Admin.{
  PauseInfoUpdateType, execute_update_config, execute_update_pause_info,
  execute_update_pool_type_config, execute_update_pool_config, execute_update_pool_params,
  execute_add_address_to_whitelist, execute_remove_address_from_whitelist, execute_add_to_registry,
  save_configs,
}
use dexter_core.Vault.Create.{execute_create_pool_instance}
use dexter_core.Vault.Join.{execute_join_pool}
use dexter_core.Vault.Exit.{ExitType, execute_exit_pool}
use dexter_core.Vault.Swap.{SingleSwapRequest, execute_swap}

pub data Cw20HookMsg : Type 0 where
  exit_pool : (pool_id : ℕ) (recipient : Option Addr) → ExitType → Cw20HookMsg

pub data ExecuteMsg : Type 0 where
  -- `hook_msg` is none if the attached message does not parse
  receive : (sender : Addr) (amount : ℕ) (hook_msg : Option Cw20HookMsg) → ExecuteMsg
  update_config :
      (lp_token_code_id : Option ℕ)
      → (fee_collector : Option Addr) → Option PoolCreationFee
      → Option AutoStakeImpl
      → Option PauseInfo
      → ExecuteMsg
  add_address_to_whitelist remove_address_from_whitelist : (address : Addr) → ExecuteMsg
  update_pause_info : PauseInfoUpdateType → PauseInfo → ExecuteMsg
  update_pool_type_config :
      PoolType → Option AllowPoolInstantiation → Option FeeInfo → Option PauseInfo → ExecuteMsg
  add_to_registry : PoolTypeConfig → ExecuteMsg
  create_pool_instance :
      PoolType
      → List AssetInfo
      → List NativeAssetPrecisionInfo
      → Option FeeInfo
      → (init_params : Option Name) → ExecuteMsg
  update_pool_config : (pool_id : ℕ) → Option FeeInfo → Option PauseInfo → ExecuteMsg
  update_pool_params : (pool_id : ℕ) (params : Name) → ExecuteMsg
  join_pool :
      (pool_id : ℕ)
      → (recipient : Option Addr) → (assets : Option (List Asset)) → (min_lp_to_receive : Option ℕ)
      → (auto_stake : Option Bool) → ExecuteMsg
  swap :
      SingleSwapRequest → (recipient : Option Addr) (min_receive max_spend : Option ℕ) → ExecuteMsg
  propose_new_owner_msg : (new_owner : Addr) (expires_in : ℕ) → ExecuteMsg
  drop_ownership_proposal_msg claim_ownership_msg : ExecuteMsg

unfoldable pub receive_cw20 :
    ⦃d : Decimal⦄
    → ⦃p : Pools⦄ → Storage
    → Env
    → MessageInfo
    → (sender : Addr) → (amount : ℕ) → Option Cw20HookMsg
    → Outcome
receive_cw20 s env info sender amount none = err (std parse_error)
receive_cw20 s env info sender amount (some (exit_pool pool_id recipient exit_type)) =
    execute_exit_pool s env info pool_id (unwrap_or recipient sender) exit_type sender amount

module _ ⦃t : Text⦄ ⦃d : Decimal⦄ ⦃p : Pools⦄ where
  unfoldable pub execute : Storage → Env → MessageInfo → ExecuteMsg → Outcome
  execute s env info (receive sender amount hook_msg) =
      receive_cw20 s env info sender amount hook_msg
  execute s env info (update_config lp_token_code_id fee_collector creation_fee auto_stake paused) =
      execute_update_config s env info lp_token_code_id fee_collector creation_fee auto_stake paused
  execute s env info (add_address_to_whitelist address) =
      execute_add_address_to_whitelist s env info address
  execute s env info (remove_address_from_whitelist address) =
      execute_remove_address_from_whitelist s env info address
  execute s env info (update_pause_info update_type pause_info) =
      execute_update_pause_info s info update_type pause_info
  execute s env info (update_pool_type_config pool_type allow_instantiation new_fee_info paused) =
      execute_update_pool_type_config s info pool_type allow_instantiation new_fee_info paused
  execute s env info (add_to_registry config) = execute_add_to_registry s info config
  execute s env info (create_pool_instance pool_type infos precisions fee_info init_params) =
      execute_create_pool_instance s env info pool_type infos precisions fee_info init_params
  execute s env info (update_pool_config pool_id fee_info paused) =
      execute_update_pool_config s info pool_id fee_info paused
  execute s env info (update_pool_params pool_id params) =
      execute_update_pool_params s info pool_id params
  execute s env info (join_pool pool_id recipient assets min_lp_to_receive auto_stake) =
      execute_join_pool s env info pool_id recipient assets min_lp_to_receive auto_stake
  execute s env info (swap request recipient min_receive max_spend) =
      execute_swap s env info request recipient min_receive max_spend
  execute s env info (propose_new_owner_msg new_owner expires_in) = do
    proposal ← lift (propose_new_owner env info new_owner expires_in s.config.owner)
    ok (record s { ownership_proposal = some proposal }, [])
  execute s env info drop_ownership_proposal_msg = do
    proposal ← lift (drop_ownership_proposal info s.config.owner)
    ok (record s { ownership_proposal = proposal }, [])
  execute s env info claim_ownership_msg = do
    (proposal, owner) ← lift (claim_ownership env info s.ownership_proposal)
    ok (
      record s { ownership_proposal = proposal; config = record (s.config) { owner = owner } },
      [],
    )

-- `MigrateMsg::V1_1`, with the stored name and version of the contract
unfoldable pub migrate :
    Storage
    → (contract version : String) → (updated_pool_type_configs : List PoolTypeConfig)
    → Result ContractError Storage
migrate s contract version updated_pool_type_configs = do
  guard (str_eq contract "dexter-vault") invalid_contract_name_for_migration
  guard (str_eq version "1.0.0") invalid_contract_version_for_upgrade
  registry ← save_configs s.registry updated_pool_type_configs
  ok (record s { registry = registry })
