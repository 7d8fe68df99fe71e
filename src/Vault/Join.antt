-- ===== src/Vault/Join.antt =====
-- `execute_join_pool` of contracts/vault/src/contract.rs, with `build_mint_lp_token_msg`.
use dexter_core.Prelude.{
  ℕ, Bool, true, false, ◌&&◌, ◌||◌, not, Option, none, some, List, [], ◌∷◌, ◌++◌, length, ltb, ◌==◌,
  if◌then◌else◌, unwrap_or, Result, ok, err, panic, or_err, guard, ◌>>=◌, ◌>>◌, nat_eq,
}
use dexter_core.Prelude.Dict.{Dict, lookup, insert}
use dexter_core.Chain.{Addr, Env, MessageInfo, not_found, overflow}
use dexter_core.Chain.Words.{add_u128, checked_sub}
use dexter_core.Chain.Decimal.{Decimal}
use dexter_core.Chain.Text.{Text}
use dexter_core.Ownership.{addr_validate}
use dexter_core.Asset.{
  AssetInfo, token, native_token, asset_beq, asset_eq, Asset, as_string, create_transfer_msg,
  find_sent_native_token_balance, build_transfer_cw20_from_user_msg,
}
use dexter_core.Vault.State.{
  pool_type_eq, FeeInfo, calculate_total_fee_breakup, AutoStakeImpl, no_auto_stake, multistaking,
  Config, PoolTypeConfig, PoolInfo, Storage, std, invalid_pool_id, min_receive_error,
  insufficient_native_tokens_sent, invalid_number_of_assets, pool_query_failed,
  invalid_sequence_of_assets, auto_stake_disabled, paused_deposit, ContractError, lift,
  AfterJoinResponse, Pools, Msg, pay, mint, send_to_bond, update_liquidity, Outcome,
}

-- `.into_iter().map(|asset| (asset.info, asset.amount)).collect()`
unfoldable pub collect_fees : Dict AssetInfo ℕ → List Asset → Dict AssetInfo ℕ
collect_fees fees [] = fees
collect_fees fees (asset ∷ assets) = collect_fees (insert asset.info asset.amount fees) assets

abbrev pub transfer_fee :
    AssetInfo → Option Addr → (protocol_fee : ℕ) → Result ContractError (List Msg)
transfer_fee asset none protocol_fee = if protocol_fee == 0 then ok [] else panic
transfer_fee asset (some fee_collector) protocol_fee =
    if protocol_fee == 0
    then ok []
    else ok (pay (create_transfer_msg asset fee_collector protocol_fee) ∷ [])

abbrev pub auto_stake_possible : AutoStakeImpl → Bool
auto_stake_possible no_auto_stake = false
auto_stake_possible (multistaking contract_addr) = true

-- `mint_lp`: to the recipient, or to the vault and on to the multistaking contract.
unfoldable pub build_mint_lp_token_msg :
    Env
    → (lp_token recipient : Addr) → (amount : ℕ) → (auto_stake : Bool) → AutoStakeImpl
    → Result ContractError (List Msg)
build_mint_lp_token_msg env lp_token recipient amount false auto_stake_impl =
    ok (mint lp_token recipient amount ∷ [])
build_mint_lp_token_msg env lp_token recipient amount true no_auto_stake = err auto_stake_disabled
build_mint_lp_token_msg env lp_token recipient amount true (multistaking contract_addr) = ok (
    mint lp_token env.contract_address amount
    ∷ send_to_bond lp_token contract_addr amount recipient
    ∷ [])

-- What comes in of an asset: a cw20 transfer, or the native tokens sent, of which the extra goes back.
unfoldable pub take_in :
    ⦃t : Text⦄ → Env → MessageInfo → AssetInfo → (transfer_in : ℕ) → Result ContractError (List Msg)
take_in ⦃t⦄ env info (token contract_addr) transfer_in = if transfer_in == 0 then ok [] else (do
  msg ←
      build_transfer_cw20_from_user_msg (as_string (token contract_addr)) info.sender
        env.contract_address transfer_in
  ok (pay msg ∷ []))
take_in ⦃t⦄ env info (native_token denom) transfer_in =
    let tokens_received = find_sent_native_token_balance info denom in
    if ltb transfer_in tokens_received
    then (do
      extra ← or_err (checked_sub tokens_received transfer_in) (std overflow)
      ok (pay (create_transfer_msg (native_token denom) info.sender extra) ∷ []))
    else if ltb tokens_received transfer_in
    then err (insufficient_native_tokens_sent denom tokens_received transfer_in)
    else ok []

module _ ⦃d : Decimal⦄ where
  -- computed before it is known whether there is a collector
  unfoldable pub join_fee : Config → FeeInfo → (total_fee : ℕ) → Result ContractError ℕ
  join_fee config fee_info total_fee = do
    protocol_fee ← if total_fee == 0 then ok 0 else calculate_total_fee_breakup fee_info total_fee
    elim config.fee_collector [ none ↦ ok 0 | some fee_collector ↦ ok protocol_fee ]

abbrev pub check_min_lp : Option ℕ → (new_shares : ℕ) → Result ContractError Unit
check_min_lp none new_shares = ok tt
check_min_lp (some min_lp) new_shares =
    guard (not (ltb new_shares min_lp)) (min_receive_error min_lp new_shares)

-- Deposits are not paused, and the staking that was asked for is possible.
unfoldable pub check_join_open :
    Config → PoolTypeConfig → PoolInfo → (auto_stake : Bool) → Result ContractError Unit
check_join_open config pool_config pool auto_stake = do
  guard (not (config.paused.deposit || pool_config.paused.deposit || pool.paused.deposit))
      paused_deposit
  guard (not auto_stake || auto_stake_possible config.auto_stake_impl) auto_stake_disabled

-- The checks of the pool's answer.
unfoldable pub check_join :
    PoolInfo → (min_lp_to_receive : Option ℕ) → AfterJoinResponse → Result ContractError Unit
check_join pool min_lp_to_receive join = do
  guard join.is_success pool_query_failed
  guard (not (join.new_shares == 0)) pool_query_failed
  check_min_lp min_lp_to_receive join.new_shares
  guard (length join.provided_assets == length pool.assets) invalid_number_of_assets

-- The balance grows by what comes in, less the protocol fee.
unfoldable pub join_move :
    ⦃t : Text⦄
    → Env
    → MessageInfo
    → (stored_asset : Asset) → (transfer_in protocol_fee : ℕ)
    → Result ContractError (Asset × List Msg)
join_move env info stored_asset transfer_in protocol_fee = do
  with_transfer ← or_err (add_u128 stored_asset.amount transfer_in) (std overflow)
  amount ← or_err (checked_sub with_transfer protocol_fee) (std overflow)
  msgs ← take_in env info stored_asset.info transfer_in
  ok (record stored_asset { amount = amount }, msgs)

-- Nothing happens to an asset that neither comes in nor is charged.
unfoldable pub join_settle :
    ⦃t : Text⦄
    → Env
    → MessageInfo
    → (stored_asset : Asset) → (transfer_in total_fee protocol_fee : ℕ) → (fee_msgs : List Msg)
    → Result ContractError (Asset × List Msg)
join_settle env info stored_asset transfer_in total_fee protocol_fee fee_msgs =
    elim (transfer_in == 0 && total_fee == 0) [
      | true ↦ ok (stored_asset, fee_msgs)
      | false ↦ (do
        (asset, msgs) ← join_move env info stored_asset transfer_in protocol_fee
        ok (asset, msgs ++ fee_msgs))
    ]

module _ ⦃t : Text⦄ ⦃d : Decimal⦄ where
  -- One asset: its new balance, and the messages.
  unfoldable pub join_asset :
      Config
      → FeeInfo
      → Env
      → MessageInfo
      → (fees : Dict AssetInfo ℕ) → (stored_asset provided : Asset)
      → Result ContractError (Asset × List Msg)
  join_asset config fee_info env info fees stored_asset provided = do
    guard (asset_beq stored_asset.info provided.info) invalid_sequence_of_assets
    let transfer_in = provided.amount
    let total_fee = unwrap_or (lookup stored_asset.info fees) 0
    protocol_fee ← join_fee config fee_info total_fee
    fee_msgs ← transfer_fee stored_asset.info config.fee_collector protocol_fee
    join_settle env info stored_asset transfer_in total_fee protocol_fee fee_msgs

  -- `for stored_asset in pool_info.assets.iter_mut()`, with `provided_assets[index]`
  unfoldable pub join_assets :
      Config
      → FeeInfo
      → Env
      → MessageInfo
      → (fees : Dict AssetInfo ℕ) → (stored_assets provided_assets : List Asset)
      → Result ContractError (List Asset × List Msg)
  join_assets config fee_info env info fees [] provided_assets = ok ([], [])
  join_assets config fee_info env info fees (stored ∷ stored_assets) [] = panic
  join_assets config fee_info env info fees (stored ∷ stored_assets) (provided ∷ provided_assets) =
      do
        (asset, msgs) ← join_asset config fee_info env info fees stored provided
        (assets, more) ← join_assets config fee_info env info fees stored_assets provided_assets
        ok (asset ∷ assets, msgs ++ more)

  -- The transfers, the LP tokens, and the new balances.
  unfoldable pub save_join :
      Storage
      → Env
      → MessageInfo
      → (pool_id : ℕ) → (recipient : Option Addr) → (auto_stake : Bool) → PoolInfo
      → AfterJoinResponse
      → Outcome
  save_join s env info pool_id recipient auto_stake pool join = do
    (balances, msgs) ←
        join_assets s.config pool.fee_info env info (collect_fees [] (unwrap_or join.fee []))
          pool.assets join.provided_assets
    recipient' ← lift (addr_validate env (unwrap_or recipient info.sender))
    mint_msgs ←
        build_mint_lp_token_msg env pool.lp_token_addr recipient' join.new_shares auto_stake
          s.config.auto_stake_impl
    ok (
      record s { active_pools = insert pool_id (record pool { assets = balances }) s.active_pools },
      msgs ++ update_liquidity pool.pool_addr balances ∷ mint_msgs,
    )

  unfoldable pub execute_join_pool :
      ⦃p : Pools⦄
      → Storage
      → Env
      → MessageInfo
      → (pool_id : ℕ) → (recipient : Option Addr) → (assets : Option (List Asset))
      → (min_lp_to_receive : Option ℕ) → (auto_stake : Option Bool) → Outcome
  execute_join_pool ⦃p⦄ s env info pool_id recipient assets min_lp_to_receive auto_stake = do
    pool ← or_err (lookup pool_id s.active_pools) invalid_pool_id
    pool_config ← or_err (lookup pool.pool_type s.registry) (std not_found)
    check_join_open s.config pool_config pool (unwrap_or auto_stake false)
    join ← lift (p.on_join_pool pool.pool_addr assets)
    check_join pool min_lp_to_receive join
    save_join s env info pool_id recipient (unwrap_or auto_stake false) pool join
