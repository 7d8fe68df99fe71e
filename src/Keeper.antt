-- ===== src/Keeper.antt =====
-- contracts/keeper: the fees of the protocol, which the owner withdraws, swaps, or takes out of a pool.
-- Storage of src/state.rs, messages of packages/dexter/src/keeper.rs, and the balance queries of
-- packages/dexter/src/querier.rs.
pub mod Custody
pub mod Handover
mod Tests
use text.Mathlib.Text.{◌==◌ as str_eq}
use dexter_core.Prelude.{
  ℕ, ◌++◌, Option, none, some, List, [], ◌∷◌, String, ltb, ◌==◌, not, if◌then◌else◌, unwrap_or,
  Result, ok, err, panic, or_panic, guard, ◌>>=◌, ◌>>◌, nat_eq,
}
use dexter_core.Chain.{Addr, Name, Coin, Env, MessageInfo, CosmosMsg, StdError, generic_err}
use dexter_core.Chain.Words.{add_u64}
use dexter_core.Asset.{AssetInfo, token, native_token, Asset, create_transfer_msg}
use dexter_core.Ownership.{
  OwnershipProposal, addr_validate, propose_new_owner, drop_ownership_proposal, claim_ownership,
}

pub record Config : Type 0 where
  pub owner : Addr
  pub vault_address : Addr

pub record Storage : Type 0 where
  pub config : Config
  pub ownership_proposal : Option OwnershipProposal

pub data ContractError : Type 0 where
  std : StdError → ContractError
  unauthorized insufficient_balance : ContractError

-- The other contracts and the bank, asked by `deps.querier`.
pub record Querier : Type 0 where
  pub bank_balance : (account : Addr) (denom : Name) → Result StdError ℕ
  -- `none` when the call fails
  pub cw20_balance : (token account : Addr) → Option ℕ
  -- the id of the pool that the vault finds
  pub pool_by_lp_token : (vault lp_token : Addr) → Result StdError ℕ
  -- whether the answer of that contract parses as the vault's configuration
  pub vault_config : (vault : Addr) → Result StdError Unit

-- The messages that the contract emits.
pub data Msg : Type 0 where
  pay : CosmosMsg → Msg
  increase_allowance : (token spender : Addr) (amount : ℕ) (expires_at_height : ℕ) → Msg
  -- `Cw20ExecuteMsg::Send` with an exit of exactly that many LP tokens, for the recipient
  send_exit :
      (lp_token vault : Addr)
      → (amount : ℕ) → (pool_id : ℕ) → (recipient : Addr) → (min_assets_out : Option (List Asset))
      → Msg
  -- `vault::ExecuteMsg::Swap` of a given amount in, and the coins sent with it
  swap :
      (vault : Addr)
      → (pool_id : ℕ) → (asset_in asset_out : AssetInfo) → (amount : ℕ) → (recipient : Addr)
      → (min_receive : Option ℕ) → (funds : List Coin) → Msg

pub data ExecuteMsg : Type 0 where
  withdraw_msg : (asset : AssetInfo) (amount : ℕ) (recipient : Option Addr) → ExecuteMsg
  exit_lp_tokens_msg :
      (lp_token_address : Name) (amount : ℕ) (min_assets_received : Option (List Asset))
      → ExecuteMsg
  swap_asset_msg :
      (offer_asset : Asset) (ask_asset_info : AssetInfo) (min_ask_amount : Option ℕ) (pool_id : ℕ)
      → ExecuteMsg
  propose_new_owner_msg : (owner : Name) (expires_in : ℕ) → ExecuteMsg
  drop_ownership_proposal_msg claim_ownership_msg : ExecuteMsg

abbrev pub lift : {A : Type 0} → Result StdError A → Result ContractError A
lift (ok a) = ok a
lift (err e) = err (std e)
lift panic = panic

unfoldable pub instantiate : Env → (owner vault_address : Addr) → Result ContractError Storage
unfolding addr_validate
instantiate env owner vault_address = do
  owner' ← lift (addr_validate env owner)
  vault ← lift (addr_validate env vault_address)
  ok (record {
    config = record { owner = owner'; vault_address = vault };
    ownership_proposal = none;
  })

-- A failed query of a token's balance counts as zero.
abbrev pub query_token_balance : ⦃q : Querier⦄ → (contract_addr account : Addr) → Result StdError ℕ
query_token_balance ⦃q⦄ contract_addr account =
    ok (unwrap_or (q.cw20_balance contract_addr account) 0)

abbrev pub query_for_balance : ⦃q : Querier⦄ → AssetInfo → Addr → Result StdError ℕ
query_for_balance ⦃q⦄ (token contract_addr) addr = query_token_balance contract_addr addr
query_for_balance ⦃q⦄ (native_token denom) addr = q.bank_balance addr denom

abbrev pub only_owner : Storage → MessageInfo → Result ContractError Unit
only_owner s info = guard (info.sender == s.config.owner) unauthorized

unfoldable pub withdraw :
    ⦃q : Querier⦄
    → Storage
    → Env
    → MessageInfo
    → AssetInfo
    → ℕ
    → Option Addr
    → Result ContractError (List Msg)
unfolding addr_validate
withdraw s env info asset amount recipient = do
  only_owner s info
  balance ← lift (query_for_balance asset env.contract_address)
  guard (not (ltb balance amount)) insufficient_balance
  recipient' ← lift (addr_validate env (unwrap_or recipient s.config.owner))
  ok (pay (create_transfer_msg asset recipient' amount) ∷ [])

unfoldable pub create_dexter_exit_pool_msg :
    ⦃q : Querier⦄
    → Env
    → (vault_address lp_token_address : Addr) → (amount : ℕ) → Option (List Asset)
    → Result ContractError Msg
create_dexter_exit_pool_msg ⦃q⦄ env vault_address lp_token_address amount min_assets_out = do
  pool_id ← lift (q.pool_by_lp_token vault_address lp_token_address)
  ok (send_exit lp_token_address vault_address amount pool_id env.contract_address min_assets_out)

unfoldable pub exit_lp_tokens :
    ⦃q : Querier⦄
    → Storage
    → Env
    → MessageInfo
    → Name
    → ℕ
    → Option (List Asset)
    → Result ContractError (List Msg)
unfolding addr_validate
exit_lp_tokens s env info lp_token_address amount min_assets_received = do
  only_owner s info
  lp_token ← lift (addr_validate env lp_token_address)
  lp_token_balance ← lift (query_token_balance lp_token env.contract_address)
  guard (not (ltb lp_token_balance amount)) insufficient_balance
  msg ← create_dexter_exit_pool_msg env s.config.vault_address lp_token amount min_assets_received
  ok (msg ∷ [])

-- The allowance for the vault, if the asset needs one, which lasts one block more, and the coins sent.
abbrev pub pay_vault :
    (height : ℕ) → Addr → AssetInfo → ℕ → Result ContractError (List Msg × List Coin)
pay_vault height vault (token contract_addr) amount = do
  expires ← or_panic (add_u64 height 1)
  ok (increase_allowance contract_addr vault amount expires ∷ [], [])
pay_vault height vault (native_token denom) amount =
    ok ([], record { denom = denom; amount = amount } ∷ [])

unfoldable pub swap_asset :
    ⦃q : Querier⦄
    → Storage
    → Env
    → (height : ℕ) → MessageInfo
    → (pool_id : ℕ) → Asset
    → AssetInfo
    → Option ℕ
    → Result ContractError (List Msg)
swap_asset s env height info pool_id offer_asset ask_asset_info min_receive = do
  only_owner s info
  balance ← lift (query_for_balance offer_asset.info env.contract_address)
  guard (not (ltb balance offer_asset.amount)) insufficient_balance
  (msgs, funds) ← pay_vault height s.config.vault_address offer_asset.info offer_asset.amount
  ok (
      msgs
      ++ swap s.config.vault_address pool_id offer_asset.info ask_asset_info offer_asset.amount
          env.contract_address min_receive funds
        ∷ [])

-- `height` is the block's.
unfoldable pub execute :
    ⦃q : Querier⦄
    → Storage
    → Env
    → (height : ℕ) → MessageInfo
    → ExecuteMsg
    → Result ContractError (Storage × List Msg)
execute s env height info (withdraw_msg asset amount recipient) = do
  msgs ← withdraw s env info asset amount recipient
  ok (s, msgs)
execute s env height info (exit_lp_tokens_msg lp_token_address amount min_assets_received) = do
  msgs ← exit_lp_tokens s env info lp_token_address amount min_assets_received
  ok (s, msgs)
execute s env height info (swap_asset_msg offer_asset ask_asset_info min_ask_amount pool_id) = do
  msgs ← swap_asset s env height info pool_id offer_asset ask_asset_info min_ask_amount
  ok (s, msgs)
execute s env height info (propose_new_owner_msg owner expires_in) = do
  proposal ← lift (propose_new_owner env info owner expires_in s.config.owner)
  ok (record s { ownership_proposal = some proposal }, [])
execute s env height info drop_ownership_proposal_msg = do
  proposal ← lift (drop_ownership_proposal info s.config.owner)
  ok (record s { ownership_proposal = proposal }, [])
execute s env height info claim_ownership_msg = do
  (proposal, owner) ← lift (claim_ownership env info s.ownership_proposal)
  ok (record s { ownership_proposal = proposal; config = record (s.config) { owner = owner } }, [])

-- The positive balances among those asked for.
unfoldable pub query_get_balances :
    ⦃q : Querier⦄ → Env → List AssetInfo → Result StdError (List Asset)
query_get_balances env [] = ok []
query_get_balances env (a ∷ assets) = do
  balance ← query_for_balance a env.contract_address
  rest ← query_get_balances env assets
  ok (if balance == 0 then rest else record { info = a; amount = balance } ∷ rest)

-- From the stored version and the owner of the first version's configuration to the new configuration.
unfoldable pub migrate :
    ⦃q : Querier⦄ → Env → (version : String) → (owner_v1 : Addr) → Name → Result StdError Config
unfolding addr_validate
migrate ⦃q⦄ env version owner_v1 vault_address = do
  guard (str_eq version "1.0.0") generic_err
  vault ← addr_validate env vault_address
  q.vault_config vault
  ok (record { owner = owner_v1; vault_address = vault })
