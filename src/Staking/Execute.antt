-- ===== src/Staking/Execute.antt =====
-- The entry point `execute` of contracts/multi_staking/src/contract.rs and the cw20 hook.
use dexter_core.Prelude.{
  ℕ, Option, none, some, List, [], ◌∷◌, ◌++◌, contains, length, ◌==◌, String, Result, ok, err,
  guard, ◌>>=◌, ◌>>◌, nat_eq, ◌%◌,
}
use dexter_core.Chain.{Addr, Response, Env, MessageInfo, Coin, cw20_transfer_from, parse_error}
use dexter_core.Chain.Decimal.{Decimal}
use dexter_core.Asset.{token, native_token}
use dexter_core.Ownership.{addr_validate}
use dexter_core.Staking.State.{
  Storage, UnbondConfig, TokenLock, ContractError, std, lift_std, unauthorized,
  invalid_number_of_assets, cw20_token_not_allowed,
}
use dexter_core.Staking.Admin
use dexter_core.Staking.Admin.{only_owner}
use dexter_core.Staking.Bond.{bond, withdraw}
use dexter_core.Staking.Unbond.{unbond, instant_unbond}
use dexter_core.Staking.Unlock.{unlock, instant_unlock}
use dexter_core.Staking.Schedules.{create_reward_schedule, claim_unallocated_reward}

-- `Cw20HookMsg`, with a case for a payload that is none.
pub data Cw20HookMsg : Type 0 where
  hook_bond : (beneficiary_user : Option Addr) → Cw20HookMsg
  hook_create_reward_schedule :
      (lp_token : Addr)
      → (title : String) → (actual_creator : Option Addr) → (start_block_time end_block_time : ℕ)
      → Cw20HookMsg
  malformed : Cw20HookMsg

pub record Cw20ReceiveMsg : Type 0 where
  pub sender : Addr
  pub amount : ℕ
  pub msg : Cw20HookMsg

pub data ExecuteMsg : Type 0 where
  update_config : Option Addr → Option UnbondConfig → ExecuteMsg
  set_custom_unbond_config : Addr → UnbondConfig → ExecuteMsg
  unset_custom_unbond_config allow_lp_token remove_lp_token : Addr → ExecuteMsg
  receive : Cw20ReceiveMsg → ExecuteMsg
  create_schedule :
      (lp_token : Addr)
      → (title : String) → (actual_creator : Option Addr) → (start_block_time end_block_time : ℕ)
      → ExecuteMsg
  bond_tokens : (lp_token : Addr) (amount : ℕ) → ExecuteMsg
  unbond_tokens : (lp_token : Addr) (amount : Option ℕ) → ExecuteMsg
  instant_unbond_tokens : (lp_token : Addr) (amount : ℕ) → ExecuteMsg
  unlock_tokens : (lp_token : Addr) → ExecuteMsg
  instant_unlock_tokens : (lp_token : Addr) (token_locks : List TokenLock) → ExecuteMsg
  withdraw_rewards : (lp_token : Addr) → ExecuteMsg
  claim_unallocated : (reward_schedule_id : ℕ) → ExecuteMsg
  allow_reward_cw20_token remove_reward_cw20_token : Addr → ExecuteMsg
  propose_new_owner : (owner : Addr) (expires_in : ℕ) → ExecuteMsg
  drop_ownership_proposal claim_ownership : ExecuteMsg

-- An address that the message may name instead of `default`.
unfoldable pub address_or : Env → Option Addr → Addr → Result ContractError Addr
unfolding addr_validate
address_or env none default = ok default
address_or env (some a) default = lift_std (addr_validate env a)

-- The one coin that was sent.
abbrev pub sent_coin : List Coin → Result ContractError Coin
sent_coin [] = err (invalid_number_of_assets 1 0)
sent_coin (coin ∷ []) = ok coin
sent_coin (a ∷ b ∷ coins) = err (invalid_number_of_assets 1 (length (a ∷ b ∷ coins) % 256))

module _ ⦃d : Decimal⦄ where
  -- `from_json` of the payload, and its handler
  unfoldable pub receive_hook :
      Storage
      → Env
      → MessageInfo
      → Cw20ReceiveMsg
      → Cw20HookMsg
      → Result ContractError (Storage × Response)
  unfolding address_or addr_validate
  receive_hook s env info m malformed = err (std parse_error)
  receive_hook s env info m (hook_bond beneficiary_user) = do
    cw20_sender ← lift_std (addr_validate env m.sender)
    user ← address_or env beneficiary_user cw20_sender
    bond s env user info.sender m.amount
  receive_hook s env info m
        (hook_create_reward_schedule lp_token title actual_creator start_block_time
          end_block_time) =
      do
        sender ← lift_std (addr_validate env m.sender)
        guard (sender == s.config.owner) unauthorized
        guard (contains s.config.allowed_reward_cw20_tokens info.sender) cw20_token_not_allowed
        creator ← address_or env actual_creator sender
        create_reward_schedule s env lp_token title start_block_time end_block_time creator
            (record { info = token info.sender; amount = m.amount })

  unfoldable pub receive_cw20 :
      Storage → Env → MessageInfo → Cw20ReceiveMsg → Result ContractError (Storage × Response)
  unfolding receive_hook
  receive_cw20 s env info m = receive_hook s env info m m.msg

  unfoldable pub execute :
      Storage → Env → MessageInfo → ExecuteMsg → Result ContractError (Storage × Response)
  execute s env info (update_config keeper_addr c) = Admin.update_config s env info keeper_addr c
  execute s env info (set_custom_unbond_config lp_token c) =
      Admin.set_custom_unbond_config s info lp_token c
  execute s env info (unset_custom_unbond_config lp_token) =
      Admin.unset_custom_unbond_config s info lp_token
  execute s env info (allow_lp_token lp_token) = Admin.allow_lp_token s env info lp_token
  execute s env info (remove_lp_token lp_token) = Admin.remove_lp_token s info lp_token
  execute s env info (receive m) = receive_cw20 s env info m
  execute s env info
        (create_schedule lp_token title actual_creator start_block_time end_block_time) =
      do
        only_owner s info
        coin ← sent_coin info.funds
        creator ← address_or env actual_creator info.sender
        create_reward_schedule s env lp_token title start_block_time end_block_time creator
            (record { info = native_token coin.denom; amount = coin.amount })
  execute s env info (bond_tokens lp_token amount) = do
    (s', response) ← bond s env info.sender lp_token amount
    ok (s', response ++ cw20_transfer_from lp_token info.sender env.contract_address amount ∷ [])
  execute s env info (unbond_tokens lp_token amount) = unbond s env info lp_token amount
  execute s env info (instant_unbond_tokens lp_token amount) =
      instant_unbond s env info lp_token amount
  execute s env info (unlock_tokens lp_token) = unlock s env info lp_token
  execute s env info (instant_unlock_tokens lp_token token_locks) =
      instant_unlock s env info lp_token token_locks
  execute s env info (withdraw_rewards lp_token) = withdraw s env info lp_token
  execute s env info (claim_unallocated id) = claim_unallocated_reward s env info id
  execute s env info (allow_reward_cw20_token addr) = Admin.allow_reward_cw20_token s env info addr
  execute s env info (remove_reward_cw20_token addr) = Admin.remove_reward_cw20_token s info addr
  execute s env info (propose_new_owner owner expires_in) =
      Admin.propose_owner s env info owner expires_in
  execute s env info drop_ownership_proposal = Admin.drop_proposal s info
  execute s env info claim_ownership = Admin.claim_owner s env info
