-- ===== src/Asset.antt =====
-- packages/dexter/src/asset.rs and the transfer helpers of packages/dexter/src/helper.rs: what an
-- asset is, its key in the stored maps, and the messages that send it.
use dexter_core.Prelude.{
  ℕ, ◌≡◌, ◌↔◌, Bool, true, false, not, ◌&&◌, Option, none, some, List, [], ◌∷◌, arith, ◌==◌, ==_iff,
  if◌then◌else◌, Eq, Result, ok, err, ◌>>=◌,
}
use dexter_core.Chain.{
  Addr, Name, Coin, Env, MessageInfo, StdError, generic_err, CosmosMsg, bank_send, cw20_transfer,
  cw20_transfer_from,
}
use dexter_core.Chain.Text.{Text}
use dexter_core.Ownership.{addr_validate}

pub data AssetInfo : Type 0 where
  token : (contract_addr : Addr) → AssetInfo
  native_token : (denom : Name) → AssetInfo

pub record Asset : Type 0 where
  pub info : AssetInfo
  pub amount : ℕ

-- The derived `PartialEq`.
abbrev pub asset_beq : AssetInfo → AssetInfo → Bool
asset_beq (token a) (token b) = a == b
asset_beq (native_token a) (native_token b) = a == b
asset_beq (token a) (native_token b) = false
asset_beq (native_token a) (token b) = false

pub asset_beq_iff : (x y : AssetInfo) → (asset_beq x y ≡ true) ↔ (x ≡ y)
asset_beq_iff (token a) (token b) = ground (arith, ==_iff a b)
asset_beq_iff (native_token a) (native_token b) = ground (arith, ==_iff a b)
asset_beq_iff (token a) (native_token b) = ground arith
asset_beq_iff (native_token a) (token b) = ground arith

instance abbrev pub asset_eq : Eq AssetInfo
asset_eq = record { beq = asset_beq; beq_iff = asset_beq_iff }

-- `fmt::Display`, the text by which the maps are keyed: the denom, or the address.
abbrev pub to_string : AssetInfo → Name
to_string (native_token denom) = denom
to_string (token contract_addr) = contract_addr

module _ {E : Type 0} where
  abbrev pub build_transfer_cw20_token_msg : Addr → Addr → ℕ → Result E CosmosMsg
  build_transfer_cw20_token_msg recipient token_contract_address amount =
      ok (cw20_transfer token_contract_address recipient amount)

  abbrev pub build_send_native_asset_msg : Addr → Name → ℕ → Result E CosmosMsg
  build_send_native_asset_msg recipient denom amount = ok (bank_send recipient denom amount)

  abbrev pub build_transfer_cw20_from_user_msg : Addr → Addr → Addr → ℕ → Result E CosmosMsg
  build_transfer_cw20_from_user_msg cw20_token_address owner recipient amount =
      ok (cw20_transfer_from cw20_token_address owner recipient amount)

  abbrev pub build_transfer_token_to_user_msg : AssetInfo → Addr → ℕ → Result E CosmosMsg
  build_transfer_token_to_user_msg (native_token denom) recipient amount =
      build_send_native_asset_msg recipient denom amount
  build_transfer_token_to_user_msg (token contract_addr) recipient amount =
      build_transfer_cw20_token_msg recipient contract_addr amount

-- `as_string`: the address in lower case.
abbrev pub as_string : ⦃t : Text⦄ → AssetInfo → Name
as_string ⦃t⦄ (native_token denom) = denom
as_string ⦃t⦄ (token contract_addr) = t.lower contract_addr

abbrev pub is_native_token : AssetInfo → Bool
is_native_token (native_token denom) = true
is_native_token (token contract_addr) = false

abbrev pub create_transfer_msg : AssetInfo → Addr → ℕ → CosmosMsg
create_transfer_msg (token contract_addr) recipient amount =
    cw20_transfer contract_addr recipient amount
create_transfer_msg (native_token denom) recipient amount = bank_send recipient denom amount

-- The amount of the first coin of that denom.
unfoldable pub first_coin : Name → List Coin → ℕ
first_coin denom [] = 0
first_coin denom (coin ∷ coins) =
    if coin.denom == denom then coin.amount else first_coin denom coins

abbrev pub find_sent_native_token_balance : MessageInfo → Name → ℕ
find_sent_native_token_balance info denom = first_coin denom info.funds

abbrev pub get_sent_native_token_balance : AssetInfo → MessageInfo → ℕ
get_sent_native_token_balance (native_token denom) info = first_coin denom info.funds
get_sent_native_token_balance (token contract_addr) info = 0

-- Denoms that are not IBC hashes are lower case.
unfoldable pub check : ⦃t : Text⦄ → Env → AssetInfo → Result StdError Unit
unfolding addr_validate
check ⦃t⦄ env (token contract_addr) = do address ← addr_validate env contract_addr; ok tt
check ⦃t⦄ env (native_token denom) =
    if not (t.is_ibc denom) && not (denom == t.lower denom) then err generic_err else ok tt

unfoldable pub addr_opt_validate : Env → Option Name → Result StdError (Option Addr)
unfolding addr_validate
addr_opt_validate env none = ok none
addr_opt_validate env (some addr) = do address ← addr_validate env addr; ok (some address)
