-- ===== src/Vault/Solvency.antt =====
-- What the pools of the vault hold against what comes in and goes out, over `execute`.
pub mod Settings
pub mod Creation
use dexter_core.Prelude.{
  ℕ, ◌+◌, ◌-◌, ◌≤◌, ◌≡◌, refl, Bool, true, false, ◌&&◌, not, Option, none, some, List, [], ◌∷◌,
  ◌++◌, arith, ◌==◌, ==_iff, if◌then◌else◌, unwrap_or, ok, ◌∙◌, ap, sym, nat_eq, >>=-eq-ok,
  ok-injective, or_err, or_err-eq-ok, guard, ltb, contains, ◌>>=◌,
}
use dexter_core.Prelude.Dict.{lookup, insert}
use dexter_core.Chain.{Addr, Name, Env, MessageInfo, not_found}
use dexter_core.Chain.Decimal.{Decimal}
use dexter_core.Chain.Words.{checked_sub}
use dexter_core.Chain.Text.{Text}
use dexter_core.Asset.{
  AssetInfo, token, native_token, asset_beq, asset_beq_iff, create_transfer_msg,
}
use dexter_core.Vault.State.{
  pool_type_eq, PoolType, FeeInfo, NativeAssetPrecisionInfo, PauseInfo, AutoStakeImpl,
  AllowPoolInstantiation, Config, PoolInfo, Storage, Pools, Msg, pay, PoolCreationFee, disabled,
  enabled, fee_collector_not_set, lp_token_code_id_not_set, pool_type_config_not_found, std,
  unauthorized, invalid_pool_id,
}
use dexter_core.Vault.Admin.{
  only_owner, is_trusted, set_code_id, set_fee_collector, set_creation_fee, set_auto_stake,
  set_default_fee, set_instantiation, set_pool_fee, set_pool_paused, PauseInfoUpdateType,
  by_pool_id, by_pool_type, execute_update_config, execute_update_pause_info,
  execute_update_pool_type_config, execute_update_pool_config, execute_update_pool_params,
  execute_add_address_to_whitelist, execute_remove_address_from_whitelist, execute_add_to_registry,
}
use dexter_core.Prelude.Sort.{sort}
use dexter_core.Vault.Create.{
  collect_creation_fee, charge_creation_fee, check_instantiation, check_precisions, asset_at_most,
  check_assets, tmp_pool_info_of, execute_create_pool_instance,
}
use dexter_core.Vault.Execute.{
  exit_pool, ExecuteMsg, receive, update_config, add_address_to_whitelist,
  remove_address_from_whitelist, update_pause_info, update_pool_type_config, add_to_registry,
  create_pool_instance, update_pool_config, update_pool_params, join_pool, swap,
  propose_new_owner_msg, drop_ownership_proposal_msg, claim_ownership_msg, receive_cw20, execute,
}
use dexter_core.Vault.Books.{
  balance, pooled, pooled-insert, outflow, inflow, outflow-append, inflow-append, attached,
  taken-transfer, brought-transfer, IsCanonical,
}
use dexter_core.Vault.Books.Join.{execute_join_pool-flow}
use dexter_core.Vault.Books.Exit.{execute_exit_pool-flow}
use dexter_core.Vault.Books.Swap.{HasSoundSwaps, execute_swap-flow}
use dexter_core.Vault.Solvency.Settings.{
  pooled-config, settings-flow, pause-flow, pool_config-flow, config-kept, type_config-kept,
}
use dexter_core.Vault.Solvency.Creation.{create-flow}

module _ (a : AssetInfo) where
  -- What comes with a message: native tokens, and the LP tokens of an exit.
  abbrev pub received : MessageInfo → ExecuteMsg → ℕ
  received info (receive sender amount hook_msg) =
      attached a info + (if asset_beq (token info.sender) a then amount else 0)
  received info (update_config code_id collector creation_fee auto_stake paused) = attached a info
  received info (add_address_to_whitelist address) = attached a info
  received info (remove_address_from_whitelist address) = attached a info
  received info (update_pause_info update_type pause_info) = attached a info
  received info (update_pool_type_config pool_type allow fee paused) = attached a info
  received info (add_to_registry config) = attached a info
  received info (create_pool_instance pool_type infos precisions fee_info init_params) =
      attached a info
  received info (update_pool_config pool_id fee_info paused) = attached a info
  received info (update_pool_params pool_id params) = attached a info
  received info (join_pool pool_id recipient assets min_lp auto_stake) = attached a info
  received info (swap request recipient min_receive max_spend) = attached a info
  received info (propose_new_owner_msg new_owner expires_in) = attached a info
  received info drop_ownership_proposal_msg = attached a info
  received info claim_ownership_msg = attached a info

module _ ⦃t : Text⦄ ⦃d : Decimal⦄ ⦃p : Pools⦄ where
  -- If the pools' assets are distinct and a pool that answers a swap trades the offered asset and charges
  -- its fee in one of the two, a message that succeeds takes no more of an asset out of the vault than
  -- comes in with it, brought by its messages or freed from the pools' balances.
  pub execute_covers_pools :
      (a : AssetInfo) (s u : Storage) (env : Env) (info : MessageInfo) (msg : ExecuteMsg)
      (msgs : List Msg)
      → ((id : ℕ) (pool : PoolInfo)
          → lookup id s.active_pools ≡ some pool
          → IsCanonical pool.assets)
      → HasSoundSwaps s
      → execute s env info msg ≡ ok (u, msgs)
      → pooled a u + outflow a msgs
        ≤ pooled a s + (inflow env.contract_address a msgs + received a info msg)
  unfolding execute receive_cw20 execute_add_address_to_whitelist
      execute_remove_address_from_whitelist execute_add_to_registry execute_update_pool_params
      outflow
  execute_covers_pools a s u env info (receive sender amount none) msgs canonical sound e =
      ground arith
  execute_covers_pools a s u env info
        (receive sender amount (some (exit_pool id recipient exit_type))) msgs canonical sound e =
      omega (
        arith,
        execute_exit_pool-flow a env.contract_address s u env info id (unwrap_or recipient sender)
            exit_type sender amount msgs canonical e,
      )
  execute_covers_pools a s u env info
        (update_config code_id collector creation_fee auto_stake paused) msgs canonical sound e =
      settings-flow a s u env info msgs
        (config-kept s u env info code_id collector creation_fee auto_stake paused msgs e)
  execute_covers_pools a s u env info (add_address_to_whitelist address) msgs canonical sound e =
      settings-flow a s u env info msgs (ground arith)
  execute_covers_pools a s u env info (remove_address_from_whitelist address) msgs canonical sound
        e =
      settings-flow a s u env info msgs (ground arith)
  execute_covers_pools a s u env info (update_pause_info update_type pause_info) msgs canonical
        sound e =
      omega (arith, pause-flow a s u info update_type pause_info msgs e)
  execute_covers_pools a s u env info (update_pool_type_config pool_type allow fee paused) msgs
        canonical sound e =
      settings-flow a s u env info msgs
        (type_config-kept s u info pool_type allow fee paused msgs e)
  execute_covers_pools a s u env info (add_to_registry config) msgs canonical sound e =
      settings-flow a s u env info msgs (ground arith)
  execute_covers_pools a s u env info
        (create_pool_instance pool_type infos precisions fee_info init_params) msgs canonical sound
        e =
      create-flow a s u env info pool_type infos precisions fee_info init_params msgs e
  execute_covers_pools a s u env info (update_pool_config id fee paused) msgs canonical sound e =
      omega (arith, pool_config-flow a s u info id fee paused msgs e)
  execute_covers_pools a s u env info (update_pool_params id params) msgs canonical sound e =
      ground (arith, pooled-config a s u)
  execute_covers_pools a s u env info (join_pool id recipient assets min_lp auto_stake) msgs
        canonical sound e =
      execute_join_pool-flow env.contract_address a s u env info id recipient assets min_lp
        auto_stake msgs refl canonical e
  execute_covers_pools a s u env info (swap request recipient min_receive max_spend) msgs canonical
        sound e =
      execute_swap-flow a env.contract_address s u env info request recipient min_receive max_spend
        msgs refl canonical sound e
  execute_covers_pools a s u env info (propose_new_owner_msg new_owner expires_in) msgs canonical
        sound e =
      settings-flow a s u env info msgs (ground arith)
  execute_covers_pools a s u env info drop_ownership_proposal_msg msgs canonical sound e =
      settings-flow a s u env info msgs (ground arith)
  execute_covers_pools a s u env info claim_ownership_msg msgs canonical sound e =
      settings-flow a s u env info msgs (ground arith)
