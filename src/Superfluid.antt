-- ===== src/Superfluid.antt =====
-- contracts/superfluid_lp: users lock native tokens, which they may later spend only to join a pool
-- and bond. Storage of src/state.rs, messages of packages/dexter/src/superfluid_lp.rs.
pub mod Spending
pub mod Solvency
pub mod Locks
mod Tests
use dexter_core.Prelude.{
  ℕ, ◌+◌, Bool, true, false, Option, none, some, List, [], ◌∷◌, ◌++◌, contains, ltb, ◌==◌, not,
  if◌then◌else◌, unwrap_or, Result, ok, err, panic, or_err, or_panic, guard, ◌>>=◌, ◌>>◌, nat_eq,
  pair_eq,
}
use dexter_core.Prelude.Dict.{Dict, lookup, insert, erase}
use dexter_core.Chain.{Addr, Name, Coin, Env, MessageInfo, CosmosMsg, StdError, overflow}
use dexter_core.Chain.Words.{add_u128, checked_sub}
use dexter_core.Chain.Payment.{Payment}
use dexter_core.Asset.{
  AssetInfo, token, native_token, Asset, to_string, asset_eq, build_transfer_cw20_from_user_msg,
  build_transfer_token_to_user_msg,
}
use dexter_core.Ownership.{
  OwnershipProposal, addr_validate, propose_new_owner, drop_ownership_proposal, claim_ownership,
}

pub record Config : Type 0 where
  pub vault_addr : Addr
  pub owner : Addr
  pub allowed_lockable_tokens : List AssetInfo

pub record Storage : Type 0 where
  pub config : Config
  -- keyed by user and asset
  pub lock_amount : Dict (Addr × Name) ℕ
  pub ownership_proposal : Option OwnershipProposal

pub data ContractError : Type 0 where
  std : StdError → ContractError
  insufficient_balance : (denom : Name) (available_balance required_balance : ℕ) → ContractError
  unauthorized unsupported_asset_type invalid_amount asset_not_allowed_to_be_locked : ContractError
  asset_not_in_allowed_list asset_already_allowed_to_be_locked payment_error : ContractError
  duplicate_denom : ContractError

-- The messages that the contract emits.
pub data Msg : Type 0 where
  pay : CosmosMsg → Msg
  increase_allowance : (token spender : Addr) (amount : ℕ) → Msg
  -- `VaultExecuteMsg::JoinPool` with `auto_stake`, and the coins sent with it
  join_pool :
      (vault : Addr)
      → (pool_id : ℕ) → (recipient : Addr) → (assets : List Asset) → (min_lp_to_receive : Option ℕ)
      → (funds : List Coin) → Msg

pub data ExecuteMsg : Type 0 where
  lock_lst_asset : Asset → ExecuteMsg
  join_pool_and_bond_using_locked_lst :
      (pool_id : ℕ) (total_assets : List Asset) (min_lp_to_receive : Option ℕ) → ExecuteMsg
  update_config : (vault_addr : Option Addr) → ExecuteMsg
  add_allowed_lockable_token remove_allowed_lockable_token : AssetInfo → ExecuteMsg
  propose_owner : (owner : Addr) (expires_in : ℕ) → ExecuteMsg
  claim_owner drop_proposal : ExecuteMsg

abbrev pub lift : {A : Type 0} → Result StdError A → Result ContractError A
lift (ok a) = ok a
lift (err e) = err (std e)
lift panic = panic

-- `for allowed_asset in &msg.allowed_lockable_tokens`, with the denoms seen so far
unfoldable pub check_tokens : List Name → List AssetInfo → Result ContractError Unit
check_tokens seen [] = ok tt
check_tokens seen (token contract_addr ∷ assets) = err unsupported_asset_type
check_tokens seen (native_token denom ∷ assets) = do
  guard (not (contains seen denom)) duplicate_denom
  check_tokens (seen ++ denom ∷ []) assets

unfoldable pub instantiate :
    Env → (vault_addr owner : Addr) → List AssetInfo → Result ContractError Storage
unfolding addr_validate
instantiate env vault_addr owner allowed_lockable_tokens = do
  vault ← lift (addr_validate env vault_addr)
  owner' ← lift (addr_validate env owner)
  check_tokens [] allowed_lockable_tokens
  ok (record {
    config = record {
      vault_addr = vault_addr;
      owner = owner;
      allowed_lockable_tokens = allowed_lockable_tokens;
    };
    lock_amount = [];
    ownership_proposal = none;
  })

abbrev pub locked_of : Dict (Addr × Name) ℕ → Addr → Name → ℕ
locked_of locks user name = unwrap_or (lookup (user, name) locks) 0

-- The amount that was sent of the asset to be locked.
abbrev pub paid_amount : ⦃p : Payment⦄ → MessageInfo → AssetInfo → Result ContractError ℕ
paid_amount ⦃p⦄ info (native_token denom) = or_err (p.must_pay info denom) payment_error
paid_amount ⦃p⦄ info (token contract_addr) = err unsupported_asset_type

unfoldable pub lock_lst_asset_msg :
    ⦃p : Payment⦄ → Storage → MessageInfo → Asset → Result ContractError (Storage × List Msg)
lock_lst_asset_msg s info asset = do
  guard (contains s.config.allowed_lockable_tokens asset.info) asset_not_allowed_to_be_locked
  let locked_amount = locked_of s.lock_amount info.sender (to_string asset.info)
  amount ← paid_amount info asset.info
  guard (amount == asset.amount) invalid_amount
  locked_amount' ← or_panic (add_u128 locked_amount asset.amount)
  ok (
    record s {
      lock_amount = insert (info.sender, to_string asset.info) locked_amount' s.lock_amount;
    },
    [],
  )

-- `funds.into_iter().map(|asset| (asset.denom, asset.amount)).collect()`
unfoldable pub collect : Dict Name ℕ → List Coin → Dict Name ℕ
collect m [] = m
collect m (coin ∷ coins) = collect (insert coin.denom coin.amount m) coins

-- What the loop over the assets changes.
pub record Spent : Type 0 where
  pub locks : Dict (Addr × Name) ℕ
  pub unspent : Dict Name ℕ
  pub coins : List Coin
  pub msgs : List Msg

abbrev pub with_coin : Name → ℕ → Spent → Spent
with_coin denom amount x = record x {
  coins = x.coins ++ record { denom = denom; amount = amount } ∷ [];
}

-- The part of a native asset that was not sent comes out of the user's lock.
unfoldable pub unlock : Addr → Name → (amount_sent total : ℕ) → Spent → Result ContractError Spent
unlock user denom amount_sent total x = do
  amount_to_unlock ← or_panic (checked_sub total amount_sent)
  let locked_amount = locked_of x.locks user denom
  total_spendable ← or_panic (add_u128 amount_sent locked_amount)
  guard (not (ltb total_spendable total)) (insufficient_balance denom total_spendable total)
  locked_amount' ← or_err (checked_sub locked_amount amount_to_unlock) (std overflow)
  ok (record x {
    unspent = erase denom x.unspent;
    locks = insert (user, denom) locked_amount' x.locks;
  })

unfoldable pub spend_native :
    Addr → Dict Name ℕ → Name → (total : ℕ) → Spent → Result ContractError Spent
spend_native user funds denom total x = do
  let amount_sent = unwrap_or (lookup denom funds) 0
  let less = unlock user denom amount_sent total x
  x' ←
      if amount_sent == total
      then ok (record x { unspent = erase denom x.unspent })
      else if ltb total amount_sent
      then (do
        extra_amount ← or_panic (checked_sub amount_sent total)
        ok (record x { unspent = insert denom extra_amount x.unspent }))
      else less
  ok (with_coin denom total x')

-- One asset of `for asset in &total_assets`
unfoldable pub spend :
    Env → MessageInfo → Addr → Dict Name ℕ → AssetInfo → ℕ → Spent → Result ContractError Spent
spend env info vault funds (native_token denom) amount x =
    spend_native info.sender funds denom amount x
spend env info vault funds (token contract_addr) amount x = do
  msg ← build_transfer_cw20_from_user_msg contract_addr info.sender env.contract_address amount
  ok (record x { msgs = x.msgs ++ pay msg ∷ increase_allowance contract_addr vault amount ∷ [] })

unfoldable pub spend_all :
    Env → MessageInfo → Addr → Dict Name ℕ → List Asset → Spent → Result ContractError Spent
spend_all env info vault funds [] x = ok x
spend_all env info vault funds (asset ∷ assets) x = do
  x' ← spend env info vault funds asset.info asset.amount x
  spend_all env info vault funds assets x'

-- `for (denom, amount) in unspent_sent_funds` (a hash map: the order is that of the association list)
unfoldable pub refunds : Addr → Dict Name ℕ → Result ContractError (List Msg)
refunds user [] = ok []
refunds user ((denom, amount) ∷ unspent) = do
  msg ← build_transfer_token_to_user_msg (native_token denom) user amount
  rest ← refunds user unspent
  ok (pay msg ∷ rest)

unfoldable pub join_pool_and_bond :
    Storage
    → Env
    → MessageInfo
    → (pool_id : ℕ) → (total_assets : List Asset) → (min_lp_to_receive : Option ℕ)
    → Result ContractError (Storage × List Msg)
join_pool_and_bond s env info pool_id total_assets min_lp_to_receive = do
  let vault = s.config.vault_addr
  let funds = collect [] info.funds
  x ←
      spend_all env info vault funds total_assets
        (record { locks = s.lock_amount; unspent = funds; coins = []; msgs = [] })
  back ← refunds info.sender x.unspent
  ok (
    record s { lock_amount = x.locks },
    x.msgs
        ++ back
        ++ join_pool vault pool_id info.sender total_assets min_lp_to_receive x.coins ∷ [],
  )

abbrev pub only_owner : Storage → MessageInfo → Result ContractError Unit
only_owner s info = guard (info.sender == s.config.owner) unauthorized

abbrev with_tokens : Storage → List AssetInfo → Storage
with_tokens s tokens = record s { config = record (s.config) { allowed_lockable_tokens = tokens } }

abbrev native_only : AssetInfo → Result ContractError Unit
native_only (native_token denom) = ok tt
native_only (token contract_addr) = err unsupported_asset_type

-- `allowed_lockable_tokens.remove(i)` at the first place where the asset stands
unfoldable pub remove_first : AssetInfo → List AssetInfo → List AssetInfo
remove_first asset [] = []
remove_first asset (x ∷ xs) = if asset_eq.beq x asset then xs else x ∷ remove_first asset xs

abbrev set_vault : Env → Option Addr → Config → Result ContractError Config
set_vault env none config = ok config
set_vault env (some vault_addr) config = do
  vault ← lift (addr_validate env vault_addr)
  ok (record config { vault_addr = vault_addr })

unfoldable pub execute :
    ⦃p : Payment⦄
    → Storage
    → Env
    → MessageInfo
    → ExecuteMsg
    → Result ContractError (Storage × List Msg)
unfolding addr_validate
execute s env info (lock_lst_asset asset) = lock_lst_asset_msg s info asset
execute s env info (join_pool_and_bond_using_locked_lst pool_id total_assets min_lp_to_receive) =
    join_pool_and_bond s env info pool_id total_assets min_lp_to_receive
execute s env info (update_config vault_addr) = do
  only_owner s info
  config ← set_vault env vault_addr s.config
  ok (record s { config = config }, [])
execute s env info (add_allowed_lockable_token asset_info) = do
  only_owner s info
  native_only asset_info
  guard (not (contains s.config.allowed_lockable_tokens asset_info))
      asset_already_allowed_to_be_locked
  ok (with_tokens s (s.config.allowed_lockable_tokens ++ asset_info ∷ []), [])
execute s env info (remove_allowed_lockable_token asset_info) = do
  only_owner s info
  guard (contains s.config.allowed_lockable_tokens asset_info) asset_not_in_allowed_list
  ok (with_tokens s (remove_first asset_info s.config.allowed_lockable_tokens), [])
execute s env info (propose_owner owner expires_in) = do
  proposal ← lift (propose_new_owner env info owner expires_in s.config.owner)
  ok (record s { ownership_proposal = some proposal }, [])
execute s env info drop_proposal = do
  proposal ← lift (drop_ownership_proposal info s.config.owner)
  ok (record s { ownership_proposal = proposal }, [])
execute s env info claim_owner = do
  (proposal, owner) ← lift (claim_ownership env info s.ownership_proposal)
  ok (record s { ownership_proposal = proposal; config = record (s.config) { owner = owner } }, [])
