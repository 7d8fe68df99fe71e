-- ===== src/Staking/Bond.antt =====
-- Bonding and withdrawing: `bond`, `withdraw` and `check_if_lp_token_allowed` of
-- contracts/multi_staking/src/contract.rs.
pub mod Withdraw
use dexter_core.Prelude.{
  ℕ, ◌+◌, Bool, Option, none, some, List, [], ◌∷◌, contains, ◌==◌, not, unwrap_or, Result, ok, err,
  or_err, or_panic, guard, ◌>>=◌, ◌>>◌, nat_eq, pair_eq,
}
use dexter_core.Prelude.Dict.{lookup, insert}
use dexter_core.Chain.{Addr, Response, Env, MessageInfo, not_found, overflow}
use dexter_core.Chain.Words.{add_u128}
use dexter_core.Chain.Decimal.{Decimal}
use dexter_core.Staking.State.{
  Storage, Config, LpGlobalState, default_global, ContractError, std, zero_amount,
  lp_token_not_allowed,
}
use dexter_core.Staking.Rewards.{update_all, withdraw_pending_reward}

abbrev pub bonded_of : Storage → Addr → Addr → ℕ
bonded_of s lp_token user = unwrap_or (lookup (lp_token, user) s.user_bonded_lp_tokens) 0

abbrev pub global_of : Storage → Addr → LpGlobalState
global_of s lp_token = unwrap_or (lookup lp_token s.lp_global_state) default_global

-- The two saves that end `bond`, `unbond` and `instant_unbond`.
abbrev pub save_bonds :
    Storage → (lp_token user : Addr) → LpGlobalState → (total bonded : ℕ) → Storage
save_bonds s lp_token user global total bonded = record s {
  lp_global_state = insert lp_token (record global { total_bond_amount = total }) s.lp_global_state;
  user_bonded_lp_tokens = insert (lp_token, user) bonded s.user_bonded_lp_tokens;
}

unfoldable pub check_if_lp_token_allowed : Config → Addr → Result ContractError Unit
check_if_lp_token_allowed config lp_token =
    guard (contains config.allowed_lp_tokens lp_token) lp_token_not_allowed

module _ ⦃d : Decimal⦄ where
  unfoldable pub bond :
      Storage → Env → (user lp_token : Addr) → ℕ → Result ContractError (Storage × Response)
  bond s env user lp_token amount = do
    guard (not (amount == 0)) zero_amount
    check_if_lp_token_allowed s.config lp_token
    let bonded = bonded_of s lp_token user
    let global = global_of s lp_token
    (s', response) ←
        update_all global.active_reward_assets lp_token user global.total_bond_amount bonded
          env.block_time none (s, [])
    total ← or_err (add_u128 global.total_bond_amount amount) (std overflow)
    bonded' ← or_err (add_u128 bonded amount) (std overflow)
    ok (save_bonds s' lp_token user global total bonded', response)

  unfoldable pub withdraw :
      Storage → Env → MessageInfo → Addr → Result ContractError (Storage × Response)
  withdraw s env info lp_token = do
    let bonded = bonded_of s lp_token info.sender
    global ← or_err (lookup lp_token s.lp_global_state) (std not_found)
    update_all global.active_reward_assets lp_token info.sender global.total_bond_amount bonded
        env.block_time (some withdraw_pending_reward) (s, [])
