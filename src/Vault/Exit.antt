-- ===== src/Vault/Exit.antt =====
-- `execute_exit_pool` of contracts/vault/src/contract.rs.
use dexter_core.Prelude.{
  ℕ, true, false, ◌&&◌, ◌||◌, not, Option, none, some, List, [], ◌∷◌, ◌++◌, length, ltb, ◌==◌,
  if◌then◌else◌, unwrap_or, Result, ok, panic, or_err, or_panic, guard, ◌>>=◌, ◌>>◌, nat_eq,
}
use dexter_core.Prelude.Dict.{Dict, lookup, insert}
use dexter_core.Chain.{Addr, Name, Env, MessageInfo, not_found, overflow, cw20_transfer}
use dexter_core.Chain.Words.{add_u128, checked_sub}
use dexter_core.Chain.Decimal.{Decimal}
use dexter_core.Ownership.{addr_validate}
use dexter_core.Asset.{AssetInfo, asset_beq, asset_eq, Asset, to_string, create_transfer_msg}
use dexter_core.Vault.State.{
  pool_type_eq, FeeInfo, calculate_total_fee_breakup, Config, PoolTypeConfig, PoolInfo, Storage,
  std, unauthorized, invalid_pool_id, burn_amount_zero, received_unexpected_lp_tokens,
  pool_exit_transition_lp_to_burn_mismatch, pool_exit_transition_assets_out_mismatch,
  min_asset_out_error, max_lp_to_burn_error, insufficient_lp_tokens_to_exit,
  invalid_number_of_assets, pool_query_failed, mismatched_assets, invalid_sequence_of_assets,
  imbalanced_exit_paused, ContractError, lift, AfterExitResponse, PoolExitType, pool_exact_lp_burn,
  pool_exact_assets_out, Pools, Msg, pay, burn, update_liquidity, Outcome,
}
use dexter_core.Vault.Join.{collect_fees, transfer_fee}

pub data ExitType : Type 0 where
  exact_lp_burn : (lp_to_burn : ℕ) (min_assets_out : Option (List Asset)) → ExitType
  exact_assets_out : (assets_out : List Asset) (max_lp_to_burn : Option ℕ) → ExitType

-- Amounts by the text of their asset.
unfoldable pub collect_amounts : Dict Name ℕ → List Asset → Dict Name ℕ
collect_amounts amounts [] = amounts
collect_amounts amounts (asset ∷ assets) =
    collect_amounts (insert (to_string asset.info) asset.amount amounts) assets

-- The same of the assets with a positive amount.
unfoldable pub collect_positive : Dict Name ℕ → List Asset → Dict Name ℕ
collect_positive amounts [] = amounts
collect_positive amounts (asset ∷ assets) =
    if asset.amount == 0
    then collect_positive amounts assets
    else collect_positive (insert (to_string asset.info) asset.amount amounts) assets

-- A minimum is given for each asset of the pool.
unfoldable pub check_all_given : Dict Name ℕ → List Asset → Result ContractError Unit
check_all_given min_assets [] = ok tt
check_all_given min_assets (asset ∷ assets) = do
  min_amount ← or_err (lookup (to_string asset.info) min_assets) mismatched_assets
  check_all_given min_assets assets

abbrev pub check_max_received : Option ℕ → (lp_received : ℕ) → Result ContractError Unit
check_max_received none lp_received = ok tt
check_max_received (some max_lp_to_burn) lp_received =
    guard (not (ltb lp_received max_lp_to_burn))
      (received_unexpected_lp_tokens max_lp_to_burn lp_received)

-- The checks before the pool is asked, and what it is asked.
unfoldable pub query_exit_type :
    Config
    → PoolTypeConfig
    → PoolInfo
    → ExitType
    → (lp_received : ℕ) → Result ContractError PoolExitType
query_exit_type config pool_config pool (exact_lp_burn lp_to_burn none) lp_received = do
  guard (lp_to_burn == lp_received) (received_unexpected_lp_tokens lp_to_burn lp_received)
  ok (pool_exact_lp_burn lp_to_burn)
query_exit_type config pool_config pool (exact_lp_burn lp_to_burn (some min_assets_out))
      lp_received =
    do
      guard (lp_to_burn == lp_received) (received_unexpected_lp_tokens lp_to_burn lp_received)
      check_all_given (collect_amounts [] min_assets_out) pool.assets
      ok (pool_exact_lp_burn lp_to_burn)
query_exit_type config pool_config pool (exact_assets_out assets_out max_lp_to_burn) lp_received =
    do
      guard
          (not (
            config.paused.imbalanced_withdraw || pool_config.paused.imbalanced_withdraw
            || pool.paused.imbalanced_withdraw))
          imbalanced_exit_paused
      check_max_received max_lp_to_burn lp_received
      ok (pool_exact_assets_out assets_out)

-- `a.amount.lt(min_amount)` for each asset that goes out
unfoldable pub check_min_out : Dict Name ℕ → List Asset → Result ContractError Unit
check_min_out min_assets [] = ok tt
check_min_out min_assets (asset ∷ assets) = do
  min_amount ← or_panic (lookup (to_string asset.info) min_assets)
  guard (not (ltb asset.amount min_amount)) (min_asset_out_error asset.amount min_amount asset.info)
  check_min_out min_assets assets

unfoldable pub check_exact_out :
    Dict Name ℕ → ContractError → List Asset → Result ContractError Unit
check_exact_out wanted mismatch [] = ok tt
check_exact_out wanted mismatch (asset ∷ assets) = do
  guard (asset.amount == unwrap_or (lookup (to_string asset.info) wanted) 0) mismatch
  check_exact_out wanted mismatch assets

abbrev pub check_max_burn : Option ℕ → (burn_shares : ℕ) → Result ContractError Unit
check_max_burn none burn_shares = ok tt
check_max_burn (some max_lp_to_burn) burn_shares =
    guard (not (ltb max_lp_to_burn burn_shares)) (max_lp_to_burn_error burn_shares max_lp_to_burn)

-- The checks of the pool's answer.
unfoldable pub check_exit : ExitType → AfterExitResponse → Result ContractError Unit
check_exit (exact_lp_burn lp_to_burn none) exit =
    guard (exit.burn_shares == lp_to_burn)
      (pool_exit_transition_lp_to_burn_mismatch lp_to_burn exit.burn_shares)
check_exit (exact_lp_burn lp_to_burn (some min_assets_out)) exit = do
  guard (exit.burn_shares == lp_to_burn)
      (pool_exit_transition_lp_to_burn_mismatch lp_to_burn exit.burn_shares)
  check_min_out (collect_amounts [] min_assets_out) exit.assets_out
check_exit (exact_assets_out assets_out max_lp_to_burn) exit = do
  check_exact_out (collect_positive [] assets_out)
      (pool_exit_transition_assets_out_mismatch assets_out exit.assets_out) exit.assets_out
  check_max_burn max_lp_to_burn exit.burn_shares

abbrev pub transfer_out : AssetInfo → Addr → ℕ → List Msg
transfer_out asset recipient amount =
    if amount == 0 then [] else pay (create_transfer_msg asset recipient amount) ∷ []

abbrev pub check_lp_token : MessageInfo → PoolInfo → Result ContractError Unit
check_lp_token info pool = guard (info.sender == pool.lp_token_addr) unauthorized

-- The checks of the pool's answer that do not depend on the kind of exit.
unfoldable pub check_exit_answer : PoolInfo → AfterExitResponse → Result ContractError Unit
check_exit_answer pool exit = do
  guard exit.is_success pool_query_failed
  guard (length exit.assets_out == length pool.assets) invalid_number_of_assets
  guard (not (exit.burn_shares == 0)) burn_amount_zero

abbrev pub return_lp : (lp_token sender : Addr) (lp_to_return : ℕ) → List Msg
return_lp lp_token sender lp_to_return =
    if lp_to_return == 0 then [] else pay (cw20_transfer lp_token sender lp_to_return) ∷ []

-- The balance falls by what goes out and by the protocol fee.
unfoldable pub exit_move :
    Config
    → (recipient : Addr) → (stored_asset : Asset) → (to_transfer protocol_fee : ℕ)
    → Result ContractError (Asset × List Msg)
exit_move config recipient stored_asset to_transfer protocol_fee = do
  liquidity_withdrawn ← or_panic (add_u128 to_transfer protocol_fee)
  amount ← or_err (checked_sub stored_asset.amount liquidity_withdrawn) (std overflow)
  fee_msgs ← transfer_fee stored_asset.info config.fee_collector protocol_fee
  ok (
    record stored_asset { amount = amount },
    transfer_out stored_asset.info recipient to_transfer ++ fee_msgs,
  )

unfoldable pub exit_settle :
    Config
    → (recipient : Addr) → (stored_asset : Asset) → (to_transfer total_fee protocol_fee : ℕ)
    → Result ContractError (Asset × List Msg)
exit_settle config recipient stored_asset to_transfer total_fee protocol_fee =
    elim (to_transfer == 0 && total_fee == 0) [
      | true ↦ ok (stored_asset, [])
      | false ↦ exit_move config recipient stored_asset to_transfer protocol_fee
    ]

module _ ⦃d : Decimal⦄ where
  unfoldable pub exit_fee : Config → FeeInfo → (total_fee : ℕ) → Result ContractError ℕ
  exit_fee config fee_info total_fee = elim config.fee_collector [
    | none ↦ ok 0
    | some fee_collector ↦
        if total_fee == 0 then ok 0 else calculate_total_fee_breakup fee_info total_fee
  ]

  -- One asset: its new balance, and the messages.
  unfoldable pub exit_asset :
      Config
      → FeeInfo
      → (recipient : Addr) → (fees : Dict AssetInfo ℕ) → (stored_asset asset_out : Asset)
      → Result ContractError (Asset × List Msg)
  exit_asset config fee_info recipient fees stored_asset asset_out = do
    guard (asset_beq stored_asset.info asset_out.info) invalid_sequence_of_assets
    let total_fee = unwrap_or (lookup stored_asset.info fees) 0
    protocol_fee ← exit_fee config fee_info total_fee
    exit_settle config recipient stored_asset asset_out.amount total_fee protocol_fee

  unfoldable pub exit_assets :
      Config
      → FeeInfo
      → (recipient : Addr) → (fees : Dict AssetInfo ℕ) → (stored_assets assets_out : List Asset)
      → Result ContractError (List Asset × List Msg)
  exit_assets config fee_info recipient fees [] assets_out = ok ([], [])
  exit_assets config fee_info recipient fees (stored ∷ stored_assets) [] = panic
  exit_assets config fee_info recipient fees (stored ∷ stored_assets) (out ∷ assets_out) = do
    (asset, msgs) ← exit_asset config fee_info recipient fees stored out
    (assets, more) ← exit_assets config fee_info recipient fees stored_assets assets_out
    ok (asset ∷ assets, msgs ++ more)

  -- The transfers, the LP tokens burnt and given back, and the new balances.
  unfoldable pub save_exit :
      Storage
      → Env
      → (pool_id : ℕ) → (recipient sender : Addr) → (lp_received : ℕ) → PoolInfo
      → AfterExitResponse
      → Outcome
  save_exit s env pool_id recipient sender lp_received pool exit = do
    lp_to_return ← or_err (checked_sub lp_received exit.burn_shares) insufficient_lp_tokens_to_exit
    recipient' ← lift (addr_validate env recipient)
    (balances, msgs) ←
        exit_assets s.config pool.fee_info recipient' (collect_fees [] (unwrap_or exit.fee []))
          pool.assets exit.assets_out
    ok (
      record s { active_pools = insert pool_id (record pool { assets = balances }) s.active_pools },
      msgs
          ++ burn pool.lp_token_addr exit.burn_shares
            ∷ return_lp pool.lp_token_addr sender lp_to_return
          ++ update_liquidity pool.pool_addr balances ∷ [],
    )

  -- `info.sender` is the cw20 contract that sent the LP tokens, on behalf of `sender`.
  unfoldable pub execute_exit_pool :
      ⦃p : Pools⦄
      → Storage
      → Env
      → MessageInfo
      → (pool_id : ℕ) → (recipient : Addr) → ExitType
      → (sender : Addr) → (lp_received : ℕ) → Outcome
  execute_exit_pool ⦃p⦄ s env info pool_id recipient exit_type sender lp_received = do
    pool ← or_err (lookup pool_id s.active_pools) invalid_pool_id
    pool_config ← or_err (lookup pool.pool_type s.registry) (std not_found)
    check_lp_token info pool
    query ← query_exit_type s.config pool_config pool exit_type lp_received
    exit ← lift (p.on_exit_pool pool.pool_addr query)
    check_exit_answer pool exit
    check_exit exit_type exit
    save_exit s env pool_id recipient sender lp_received pool exit
