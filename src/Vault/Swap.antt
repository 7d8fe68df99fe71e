-- ===== src/Vault/Swap.antt =====
-- `execute_swap` of contracts/vault/src/contract.rs.
use dexter_core.Prelude.{
  ℕ, Bool, true, false, ◌&&◌, ◌||◌, not, Option, none, some, List, [], ◌∷◌, ◌++◌, ltb, ◌==◌,
  if◌then◌else◌, Result, ok, err, panic, or_err, or_panic, guard, ◌>>=◌, ◌>>◌, nat_eq,
}
use dexter_core.Prelude.Dict.{lookup, insert}
use dexter_core.Chain.{Addr, Env, MessageInfo, not_found, overflow}
use dexter_core.Chain.Words.{add_u128, checked_sub}
use dexter_core.Chain.Decimal.{Decimal}
use dexter_core.Chain.Text.{Text}
use dexter_core.Asset.{
  AssetInfo, token, native_token, asset_beq, Asset, as_string, create_transfer_msg,
  get_sent_native_token_balance, build_transfer_cw20_from_user_msg,
}
use dexter_core.Vault.State.{
  pool_type_eq, SwapType, FeeInfo, calculate_total_fee_breakup, Config, PoolTypeConfig, PoolInfo,
  SwapResponse, Storage, std, invalid_pool_id, swap_amount_zero, max_spend_error, min_receive_error,
  pool_query_failed, mismatched_assets, amount_cannot_be_zero, same_token_error,
  insufficient_tokens_sent, paused_swap, ContractError, lift, Pools, Msg, pay, update_liquidity,
  Outcome,
}
use dexter_core.Vault.Join.{transfer_fee}

pub record SingleSwapRequest : Type 0 where
  pub pool_id : ℕ
  pub asset_in : AssetInfo
  pub asset_out : AssetInfo
  pub swap_type : SwapType
  pub amount : ℕ

abbrev pub swap_recipient : Env → MessageInfo → Option Addr → Result ContractError Addr
swap_recipient env info none = ok info.sender
swap_recipient env info (some recipient) =
    if env.is_valid_addr recipient then ok recipient else panic

abbrev pub check_max_spend : Option ℕ → (offer_amount : ℕ) → Result ContractError Unit
check_max_spend none offer_amount = ok tt
check_max_spend (some max_spend) offer_amount =
    guard (not (ltb max_spend offer_amount)) (max_spend_error max_spend offer_amount)

abbrev pub check_min_receive : Option ℕ → (ask_amount : ℕ) → Result ContractError Unit
check_min_receive none ask_amount = ok tt
check_min_receive (some min_receive) ask_amount =
    guard (not (ltb ask_amount min_receive)) (min_receive_error min_receive ask_amount)

-- The protocol fee comes off the balance of the asset that it is charged in.
abbrev pub less_fee : Option Asset → AssetInfo → (protocol_fee amount : ℕ) → Result ContractError ℕ
less_fee fee asset protocol_fee amount = do
  charged ← or_panic fee
  if asset_beq charged.info asset
      then or_err (checked_sub amount protocol_fee) (std overflow)
      else ok amount

-- What the loop over the assets has done.
pub record Pass : Type 0 where
  pub assets : List Asset
  pub msgs : List Msg
  pub offer_asset_updated : Bool
  pub ask_asset_updated : Bool

module _ ⦃t : Text⦄ where
  -- The offer comes in: a cw20 transfer, or the native tokens sent, of which the extra goes back.
  unfoldable pub take_offer :
      Env
      → MessageInfo
      → (offer_asset : Asset) → (stored : AssetInfo) → Result ContractError (List Msg)
  take_offer env info (offer_asset) stored = elim offer_asset.info [
    | token contract_addr ↦ (do
      msg ←
          build_transfer_cw20_from_user_msg (as_string offer_asset.info) info.sender
            env.contract_address offer_asset.amount
      ok (pay msg ∷ []))
    | native_token denom ↦
        let tokens_received = get_sent_native_token_balance (native_token denom) info in
        if ltb tokens_received offer_asset.amount
        then err insufficient_tokens_sent
        else if ltb offer_asset.amount tokens_received
        then (do
          extra ← or_err (checked_sub tokens_received offer_asset.amount) (std overflow)
          ok (pay (create_transfer_msg stored info.sender extra) ∷ []))
        else ok []
  ]

  unfoldable pub swap_in :
      Env
      → MessageInfo
      → Option Asset
      → (protocol_fee : ℕ) → (offer_asset stored_asset : Asset)
      → Result ContractError (Asset × List Msg)
  swap_in env info fee protocol_fee offer_asset stored_asset = do
    with_offer ← or_err (add_u128 stored_asset.amount offer_asset.amount) (std overflow)
    amount ← less_fee fee offer_asset.info protocol_fee with_offer
    msgs ← take_offer env info offer_asset stored_asset.info
    ok (record stored_asset { amount = amount }, msgs)

unfoldable pub swap_out :
    (recipient : Addr)
    → Option Asset
    → (protocol_fee : ℕ) → (ask_asset stored_asset : Asset)
    → Result ContractError (Asset × List Msg)
swap_out recipient fee protocol_fee ask_asset stored_asset = do
  without_ask ← or_err (checked_sub stored_asset.amount ask_asset.amount) (std overflow)
  amount ← less_fee fee ask_asset.info protocol_fee without_ask
  ok (
    record stored_asset { amount = amount },
    pay (create_transfer_msg ask_asset.info recipient ask_asset.amount) ∷ [],
  )

-- `::: Ask Asset`
unfoldable pub ask_step :
    (recipient : Addr)
    → (fee : Option Asset) → (protocol_fee : ℕ) → (ask_asset stored_asset : Asset)
    → Result ContractError (Asset × List Msg)
ask_step recipient fee protocol_fee ask stored = elim (asset_beq stored.info ask.info) [
  | true ↦ swap_out recipient fee protocol_fee ask stored
  | false ↦ ok (stored, [])
]

-- `break`, or the assets that are left.
unfoldable pub stop_or_go :
    (both_updated : Bool)
    → Asset
    → List Msg
    → (rest : List Asset) → (next : Result ContractError Pass) → Result ContractError Pass
stop_or_go true asset msgs rest next = ok (record {
  assets = asset ∷ rest;
  msgs = msgs;
  offer_asset_updated = true;
  ask_asset_updated = true;
})
stop_or_go false asset msgs rest next = do
  pass ← next
  ok (record pass { assets = asset ∷ pass.assets; msgs = msgs ++ pass.msgs })

module _ ⦃t : Text⦄ where
  abbrev pub matches_offer : (offer_asset stored_asset : Asset) → Bool
  matches_offer offer stored = as_string stored.info == as_string offer.info

  -- `::: Offer Asset`
  unfoldable pub offer_step :
      Env
      → MessageInfo
      → (fee : Option Asset) → (protocol_fee : ℕ) → (offer_asset stored_asset : Asset)
      → Result ContractError (Asset × List Msg)
  offer_step env info fee protocol_fee offer stored = elim (matches_offer offer stored) [
    | true ↦ swap_in env info fee protocol_fee offer stored
    | false ↦ ok (stored, [])
  ]

  -- One asset, which may be the offer, and may be what is asked for.
  unfoldable pub swap_asset :
      Env
      → MessageInfo
      → (recipient : Addr) → (fee : Option Asset) → (protocol_fee : ℕ)
      → (offer_asset ask_asset stored_asset : Asset) → Result ContractError (Asset × List Msg)
  swap_asset env info recipient fee protocol_fee offer ask stored = do
    (with_offer, msgs_in) ← offer_step env info fee protocol_fee offer stored
    (asset, msgs_out) ← ask_step recipient fee protocol_fee ask with_offer
    ok (asset, msgs_in ++ msgs_out)

  -- `for stored_asset in pool_info.assets.iter_mut()`, which stops when both assets are updated
  unfoldable pub swap_assets :
      Env
      → MessageInfo
      → (recipient : Addr) → (fee : Option Asset) → (protocol_fee : ℕ)
      → (offer_asset ask_asset : Asset) → (offer_asset_updated ask_asset_updated : Bool)
      → List Asset
      → Result ContractError Pass
  swap_assets env info recipient fee protocol_fee offer ask offer_updated ask_updated [] =
      ok (record {
        assets = [];
        msgs = [];
        offer_asset_updated = offer_updated;
        ask_asset_updated = ask_updated;
      })
  swap_assets env info recipient fee protocol_fee offer ask offer_updated ask_updated
        (stored ∷ rest) =
      do
        let is_offer = matches_offer offer stored
        let is_ask = asset_beq stored.info ask.info
        (asset, msgs) ← swap_asset env info recipient fee protocol_fee offer ask stored
        stop_or_go ((offer_updated || is_offer) && (ask_updated || is_ask)) asset msgs rest (
            swap_assets env info recipient fee protocol_fee offer ask (offer_updated || is_offer)
              (ask_updated || is_ask) rest)

module _ ⦃d : Decimal⦄ where
  unfoldable pub swap_fee : Config → FeeInfo → Option Asset → Result ContractError ℕ
  swap_fee config fee_info none = ok 0
  swap_fee config fee_info (some fee) = elim config.fee_collector [
    | none ↦ ok 0
    | some fee_collector ↦
        if fee.amount == 0 then ok 0 else calculate_total_fee_breakup fee_info fee.amount
  ]

abbrev pub transfer_swap_fee :
    Option Asset → Option Addr → (protocol_fee : ℕ) → Result ContractError (List Msg)
transfer_swap_fee none fee_collector protocol_fee = if protocol_fee == 0 then ok [] else panic
transfer_swap_fee (some fee) fee_collector protocol_fee =
    transfer_fee fee.info fee_collector protocol_fee

unfoldable pub check_swap_request : SingleSwapRequest → Result ContractError Unit
check_swap_request request = do
  guard (not (request.amount == 0)) amount_cannot_be_zero
  guard (not (asset_beq request.asset_in request.asset_out)) same_token_error

abbrev pub check_swap_open : Config → PoolTypeConfig → PoolInfo → Result ContractError Unit
check_swap_open config pool_config pool =
    guard (not (config.paused.swap || pool_config.paused.swap || pool.paused.swap)) paused_swap

unfoldable pub check_swap : SwapResponse → Result ContractError Unit
check_swap swap = do
  guard swap.is_success pool_query_failed
  guard (not (swap.amount_in == 0 || swap.amount_out == 0)) swap_amount_zero

abbrev pub check_updated : Pass → Result ContractError Unit
check_updated pass = guard (pass.offer_asset_updated && pass.ask_asset_updated) mismatched_assets

module _ ⦃t : Text⦄ ⦃d : Decimal⦄ where
  -- The loop over the pool's assets, the new balances, and the fee.
  unfoldable pub save_swap :
      Storage
      → Env
      → MessageInfo
      → (recipient : Addr) → (pool_id protocol_fee : ℕ) → PoolInfo
      → (fee : Option Asset) → (offer_asset ask_asset : Asset) → Outcome
  save_swap s env info recipient pool_id protocol_fee pool fee offer ask = do
    pass ← swap_assets env info recipient fee protocol_fee offer ask false false pool.assets
    check_updated pass
    fee_msgs ← transfer_swap_fee fee s.config.fee_collector protocol_fee
    ok (
      record s {
        active_pools = insert pool_id (record pool { assets = pass.assets }) s.active_pools;
      },
      pass.msgs ++ update_liquidity pool.pool_addr pass.assets ∷ fee_msgs,
    )

  unfoldable pub execute_swap :
      ⦃p : Pools⦄
      → Storage
      → Env
      → MessageInfo
      → SingleSwapRequest
      → (recipient : Option Addr) → (min_receive max_spend : Option ℕ) → Outcome
  execute_swap ⦃p⦄ s env info request recipient min_receive max_spend = do
    recipient' ← swap_recipient env info recipient
    check_swap_request request
    pool ← or_err (lookup request.pool_id s.active_pools) invalid_pool_id
    pool_config ← or_err (lookup pool.pool_type s.registry) (std not_found)
    check_swap_open s.config pool_config pool
    swap ← lift (
        p.on_swap pool.pool_addr request.swap_type request.asset_in request.asset_out
          request.amount)
    check_swap swap
    let offer : Asset = record { info = request.asset_in; amount = swap.amount_in }
    let ask : Asset = record { info = request.asset_out; amount = swap.amount_out }
    protocol_fee ← swap_fee s.config pool.fee_info swap.fee
    check_max_spend max_spend offer.amount
    check_min_receive min_receive ask.amount
    save_swap s env info recipient' request.pool_id protocol_fee pool swap.fee offer ask
