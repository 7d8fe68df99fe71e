-- ===== src/Vault/Create.antt =====
-- `execute_create_pool_instance` and `reply` of contracts/vault/src/contract.rs: a pool is made in three
-- steps, the second and the third when its LP token and its contract have been instantiated.
use dexter_core.Prelude.{
  ℕ, Bool, false, ◌||◌, not, Option, none, some, List, [], ◌∷◌, ◌++◌, map, ltb, ◌==◌, if◌then◌else◌,
  unwrap_or, Result, ok, err, or_err, or_panic, guard, ◌>>=◌, ◌>>◌, nat_eq,
}
use dexter_core.Prelude.Dict.{lookup, insert}
use dexter_core.Prelude.Sort.{sort, list_beq}
use dexter_core.Chain.{Name, Env, MessageInfo, not_found, overflow}
use dexter_core.Chain.Words.{add_u128, checked_sub}
use dexter_core.Chain.Text.{Text}
use dexter_core.Ownership.{addr_validate}
use dexter_core.Asset.{
  AssetInfo, token, native_token, Asset, to_string, as_string, check, create_transfer_msg,
  find_sent_native_token_balance, build_transfer_cw20_from_user_msg,
}
use dexter_core.Vault.State.{
  PoolType, pool_type_eq, FeeInfo, valid_fee_info, NativeAssetPrecisionInfo, not_paused,
  AllowPoolInstantiation, everyone, only_whitelisted_addresses, nobody, disabled, enabled, Config,
  PoolTypeConfig, TmpPoolInfo, Storage, std, unauthorized, invalid_sub_msg_id,
  insufficient_native_tokens_sent, invalid_fee_info, pool_type_config_not_found, repeated_assets,
  pool_type_creation_disabled, lp_token_code_id_not_set, fee_collector_not_set,
  invalid_native_asset_precision_list, unsupported_precision, ContractError, lift, Msg, pay,
  instantiate_lp_token, instantiate_pool, Outcome,
}
use dexter_core.Vault.Admin.{is_trusted}

abbrev pub check_instantiation :
    Storage → MessageInfo → AllowPoolInstantiation → Result ContractError Unit
check_instantiation s info only_whitelisted_addresses =
    guard (is_trusted s info.sender) unauthorized
check_instantiation s info nobody = err pool_type_creation_disabled
check_instantiation s info everyone = ok tt

abbrev pub native_denoms : List AssetInfo → List Name
native_denoms [] = []
native_denoms (token contract_addr ∷ infos) = native_denoms infos
native_denoms (native_token denom ∷ infos) = denom ∷ native_denoms infos

abbrev pub has_unsupported_precision : List NativeAssetPrecisionInfo → Bool
has_unsupported_precision [] = false
has_unsupported_precision (p ∷ ps) = ltb 18 p.precision || has_unsupported_precision ps

-- The fee is taken from the sender, and what was sent above it goes back.
unfoldable pub collect_creation_fee :
    Env → MessageInfo → AssetInfo → (fee_amount : ℕ) → Result ContractError (List Msg)
collect_creation_fee env info (native_token denom) fee_amount =
    let tokens_received = find_sent_native_token_balance info denom in
    if ltb tokens_received fee_amount
    then err (insufficient_native_tokens_sent denom tokens_received fee_amount)
    else if ltb fee_amount tokens_received
    then (do
      extra ← or_err (checked_sub tokens_received fee_amount) (std overflow)
      ok (pay (create_transfer_msg (native_token denom) info.sender extra) ∷ []))
    else ok []
collect_creation_fee env info (token contract_addr) fee_amount =
    if fee_amount == 0 then ok [] else (do
      msg ←
          build_transfer_cw20_from_user_msg contract_addr info.sender env.contract_address
            fee_amount
      ok (pay msg ∷ []))

unfoldable pub charge_creation_fee : Env → MessageInfo → Config → Result ContractError (List Msg)
charge_creation_fee env info config = elim config.pool_creation_fee [
  | disabled ↦ ok []
  | enabled fee ↦ (do
    msgs ← collect_creation_fee env info fee.info fee.amount
    fee_collector ← or_err config.fee_collector fee_collector_not_set
    ok (msgs ++ pay (create_transfer_msg fee.info fee_collector fee.amount) ∷ []))
]

-- What is kept until the pool's contracts are there; its id is the next one.
unfoldable pub tmp_pool_info_of :
    Config
    → PoolTypeConfig
    → FeeInfo
    → List Asset
    → List NativeAssetPrecisionInfo
    → (init_params : Option Name) → Result ContractError TmpPoolInfo
tmp_pool_info_of config type_config fee assets native_asset_precisions init_params = do
  guard (valid_fee_info fee) invalid_fee_info
  ok (record {
    code_id = type_config.code_id;
    pool_id = config.next_pool_id;
    lp_token_addr = none;
    fee_info = fee;
    assets = assets;
    native_asset_precisions = native_asset_precisions;
    pool_type = type_config.pool_type;
    init_params = init_params;
  })

module _ ⦃t : Text⦄ where
  -- A precision of at most 18 is given for each native asset, and for no other.
  unfoldable pub check_precisions :
      List AssetInfo → List NativeAssetPrecisionInfo → Result ContractError Unit
  check_precisions asset_infos native_asset_precisions = do
    guard
        (list_beq (sort t.at_most (native_denoms asset_infos))
          (sort t.at_most (map (λ p. p.denom) native_asset_precisions)))
        invalid_native_asset_precision_list
    guard (not (has_unsupported_precision native_asset_precisions)) unsupported_precision

  -- The order of `AssetInfo`: by the text in lower case.
  abbrev pub asset_at_most : AssetInfo → AssetInfo → Bool
  asset_at_most a b = t.at_most (t.lower (to_string a)) (t.lower (to_string b))

  -- Each asset is checked, compared with the one before it, and starts with nothing.
  unfoldable pub check_assets :
      Env → (previous_asset : Name) → List AssetInfo → Result ContractError (List Asset)
  check_assets env previous_asset [] = ok []
  check_assets env previous_asset (info ∷ infos) = do
    lift (check env info)
    guard (not (previous_asset == as_string info)) repeated_assets
    assets ← check_assets env (as_string info) infos
    ok (record { info = info; amount = 0 } ∷ assets)

  unfoldable pub execute_create_pool_instance :
      Storage
      → Env
      → MessageInfo
      → PoolType
      → (asset_infos : List AssetInfo) → List NativeAssetPrecisionInfo
      → Option FeeInfo
      → (init_params : Option Name) → Outcome
  execute_create_pool_instance s env info pool_type asset_infos native_asset_precisions fee_info
        init_params =
      do
        type_config ← or_err (lookup pool_type s.registry) pool_type_config_not_found
        check_instantiation s info type_config.allow_instantiation
        check_precisions asset_infos native_asset_precisions
        execute_msgs ← charge_creation_fee env info s.config
        assets ← check_assets env t.empty (sort asset_at_most asset_infos)
        let fee = unwrap_or fee_info type_config.default_fee_info
        tmp ← tmp_pool_info_of s.config type_config fee assets native_asset_precisions init_params
        code_id ← or_err s.config.lp_token_code_id lp_token_code_id_not_set
        ok (
          record s { tmp_pool_info = some tmp },
          instantiate_lp_token code_id tmp.pool_id env.contract_address ∷ execute_msgs,
        )

-- `INSTANTIATE_LP_REPLY_ID`
unfoldable pub reply_lp_token : Storage → Env → TmpPoolInfo → (contract_address : Name) → Outcome
reply_lp_token s env tmp contract_address = do
  lp_token_addr ← lift (addr_validate env contract_address)
  ok (
    record s {
      tmp_pool_info = some (record tmp { lp_token_addr = some lp_token_addr });
      lp_token_to_pool_id = insert lp_token_addr tmp.pool_id s.lp_token_to_pool_id;
    },
    instantiate_pool s.config.owner tmp.code_id (record {
      pool_id = tmp.pool_id;
      pool_type = tmp.pool_type;
      vault_addr = env.contract_address;
      lp_token_addr = lp_token_addr;
      asset_infos = map (λ a. a.info) tmp.assets;
      native_asset_precisions = tmp.native_asset_precisions;
      total_fee_bps = tmp.fee_info.total_fee_bps;
      init_params = tmp.init_params;
    })
        ∷ [],
  )

-- `INSTANTIATE_POOL_REPLY_ID`
unfoldable pub reply_pool : Storage → Env → TmpPoolInfo → (contract_address : Name) → Outcome
reply_pool s env tmp contract_address = do
  pool_addr ← lift (addr_validate env contract_address)
  lp_token_addr ← or_panic tmp.lp_token_addr
  next_pool_id ← or_err (add_u128 s.config.next_pool_id 1) (std overflow)
  ok (
    record s {
      active_pools =
          insert tmp.pool_id
            (record {
              pool_id = tmp.pool_id;
              pool_addr = pool_addr;
              lp_token_addr = lp_token_addr;
              fee_info = tmp.fee_info;
              assets = tmp.assets;
              pool_type = tmp.pool_type;
              paused = not_paused;
            })
            s.active_pools;
      config = record (s.config) { next_pool_id = next_pool_id };
    },
    [],
  )

-- A submessage that succeeded: its id, and the address of the new contract in its data.
unfoldable pub reply : Storage → Env → (id : ℕ) → (contract_address : Name) → Outcome
reply s env id contract_address = do
  tmp ← or_err s.tmp_pool_info (std not_found)
  if id == 1
      then reply_lp_token s env tmp contract_address
      else if id == 2
      then reply_pool s env tmp contract_address
      else err invalid_sub_msg_id
