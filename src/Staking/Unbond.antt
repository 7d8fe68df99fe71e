-- ===== src/Staking/Unbond.antt =====
-- Unbonding: contracts/multi_staking/src/execute/unbond.rs.
use dexter_core.Prelude.{
  ℕ, Option, none, List, [], ◌∷◌, ◌++◌, ◌==◌, not, length, unwrap_or, Result, ok, err, or_err,
  or_panic, guard, ◌>>=◌, ◌>>◌, nat_eq, pair_eq,
}
use dexter_core.Prelude.Dict.{lookup, insert}
use dexter_core.Chain.{Addr, Response, Env, MessageInfo, not_found, overflow}
use dexter_core.Chain.Words.{add_u64, checked_sub}
use dexter_core.Chain.Decimal.{Decimal}
use dexter_core.Asset.{token, build_transfer_token_to_user_msg}
use dexter_core.Staking.State.{
  Storage, UnbondConfig, InstantUnbondConfig, disabled, enabled, TokenLock, max_user_lp_token_locks,
  ContractError, std, zero_amount, cant_unbond_more_than_bonded,
  cant_allow_any_more_lp_token_unbonds, instant_unbond_disabled,
}
use dexter_core.Staking.Fees.{fee_of}
use dexter_core.Staking.Rewards.{update_all}
use dexter_core.Staking.Bond.{bonded_of, save_bonds}

-- The configuration of an LP token: its own, or the default.
abbrev pub unbond_config_of : Storage → Addr → UnbondConfig
unbond_config_of s lp_token =
    unwrap_or (lookup lp_token s.lp_override_config) s.config.unbond_config

abbrev pub locks_of : Storage → Addr → Addr → List TokenLock
locks_of s lp_token user = unwrap_or (lookup (lp_token, user) s.user_lp_token_locks) []

abbrev pub instant_fee_bp : InstantUnbondConfig → Result ContractError ℕ
instant_fee_bp disabled = err instant_unbond_disabled
instant_fee_bp (enabled min_fee max_fee fee_tier_interval) = ok max_fee

module _ ⦃d : Decimal⦄ where
  unfoldable pub instant_unbond :
      Storage → Env → MessageInfo → Addr → ℕ → Result ContractError (Storage × Response)
  instant_unbond s env info lp_token amount = do
    guard (not (amount == 0)) zero_amount
    let bonded = bonded_of s lp_token info.sender
    fee_bp ← instant_fee_bp (unbond_config_of s lp_token).instant_unbond_config
    global ← or_err (lookup lp_token s.lp_global_state) (std not_found)
    bonded' ← or_err (checked_sub bonded amount) (cant_unbond_more_than_bonded bonded amount)
    (s', response) ←
        update_all global.active_reward_assets lp_token info.sender global.total_bond_amount bonded
          env.block_time none (s, [])
    total ← or_err (checked_sub global.total_bond_amount amount) (std overflow)
    fee ← fee_of amount fee_bp
    fee_msg ← build_transfer_token_to_user_msg (token lp_token) s.config.keeper fee
    rest ← or_err (checked_sub amount fee) (std overflow)
    unbond_msg ← build_transfer_token_to_user_msg (token lp_token) info.sender rest
    ok (
      save_bonds s' lp_token info.sender global total bonded',
      response ++ (fee_msg ∷ unbond_msg ∷ []),
    )

  unfoldable pub unbond :
      Storage → Env → MessageInfo → Addr → Option ℕ → Result ContractError (Storage × Response)
  unbond s env info lp_token amount? = do
    let bonded = bonded_of s lp_token info.sender
    let amount = unwrap_or amount? bonded
    guard (not (amount == 0)) zero_amount
    global ← or_err (lookup lp_token s.lp_global_state) (std not_found)
    (s', response) ←
        update_all global.active_reward_assets lp_token info.sender global.total_bond_amount bonded
          env.block_time none (s, [])
    total ← or_err (checked_sub global.total_bond_amount amount) (std overflow)
    bonded' ← or_err (checked_sub bonded amount) (cant_unbond_more_than_bonded bonded amount)
    let unlocks = locks_of s' lp_token info.sender
    guard (not (length unlocks == max_user_lp_token_locks)) cant_allow_any_more_lp_token_unbonds
    unlock_time ← or_panic (add_u64 env.block_time (unbond_config_of s' lp_token).unlock_period)
    let lock : TokenLock = record { unlock_time = unlock_time; amount = amount }
    let s'' = save_bonds s' lp_token info.sender global total bonded'
    ok (
      record s'' {
        user_lp_token_locks =
            insert (lp_token, info.sender) (unlocks ++ lock ∷ []) s''.user_lp_token_locks;
      },
      response,
    )
