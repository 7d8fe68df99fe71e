-- ===== src/Staking/Unlock.antt =====
-- Unlocking: contracts/multi_staking/src/execute/unlock.rs.
pub mod Effects
pub mod Instant
use dexter_core.Prelude.{
  ℕ, ◌+◌, Bool, true, false, Option, none, some, List, [], ◌∷◌, ◌++◌, ◌==◌, ltb, leb, not, filter,
  if◌then◌else◌, unwrap_or, Result, ok, err, or_err, or_panic, guard, ◌>>=◌, ◌>>◌, nat_eq, pair_eq,
}
use dexter_core.Prelude.Dict.{lookup, insert}
use dexter_core.Chain.{Addr, Response, Env, MessageInfo, overflow, cw20_transfer}
use dexter_core.Chain.Words.{add_u128, checked_sub}
use dexter_core.Chain.Decimal.{Decimal}
use dexter_core.Asset.{build_transfer_cw20_token_msg}
use dexter_core.Staking.State.{
  Storage, UnbondConfig, TokenLock, ContractError, std, zero_amount, no_locks, no_valid_locks,
}
use dexter_core.Staking.Fees.{calculate_unlock_fee}
use dexter_core.Staking.Locks.{find_lock_difference}
use dexter_core.Staking.Unbond.{unbond_config_of, locks_of}

-- `iter().fold(Uint128::zero(), |acc, lock| acc + lock.amount)`
unfoldable pub add_amounts : ℕ → List TokenLock → Result ContractError ℕ
add_amounts acc [] = ok acc
add_amounts acc (lock ∷ locks) = do
  acc' ← or_panic (add_u128 acc lock.amount)
  add_amounts acc' locks

abbrev pub is_empty : List TokenLock → Bool
is_empty [] = true
is_empty (a ∷ ls) = false

-- The locks that have run out at `now`, and those that have not.
abbrev pub matured : ℕ → List TokenLock → List TokenLock
matured now = filter (λ lock. leb lock.unlock_time now)

abbrev pub pending : ℕ → List TokenLock → List TokenLock
pending now = filter (λ lock. ltb now lock.unlock_time)

abbrev pub save_locks : Storage → (lp_token user : Addr) → List TokenLock → Storage
save_locks s lp_token user locks = record s {
  user_lp_token_locks = insert (lp_token, user) locks s.user_lp_token_locks;
}

unfoldable pub unlock :
    Storage → Env → MessageInfo → Addr → Result ContractError (Storage × Response)
unlock s env info lp_token = do
  let locks = locks_of s lp_token info.sender
  total ← add_amounts 0 (matured env.block_time locks)
  if total == 0
      then ok (s, [])
      else ok (
        save_locks s lp_token info.sender (pending env.block_time locks),
        cw20_transfer lp_token info.sender total ∷ [],
      )

module _ ⦃d : Decimal⦄ where
  -- `for lock in valid_locks_to_be_unlocked.iter()`: what is unlocked, and the fees
  unfoldable pub charge_locks :
      ℕ → UnbondConfig → List TokenLock → (unlocked fees : ℕ) → Result ContractError (ℕ × ℕ)
  charge_locks now c [] unlocked fees = ok (unlocked, fees)
  charge_locks now c (lock ∷ locks) unlocked fees = do
    (bp, fee) ← calculate_unlock_fee lock now c
    rest ← or_err (checked_sub lock.amount fee) (std overflow)
    unlocked' ← or_panic (add_u128 unlocked rest)
    fees' ← or_panic (add_u128 fees fee)
    charge_locks now c locks unlocked' fees'

  unfoldable pub instant_unlock :
      Storage
      → Env
      → MessageInfo
      → Addr
      → List TokenLock
      → Result ContractError (Storage × Response)
  instant_unlock s env info lp_token token_locks = do
    let locks = locks_of s lp_token info.sender
    guard (not (is_empty locks)) no_locks
    let (kept, valid) = find_lock_difference locks token_locks
    guard (not (is_empty valid)) no_valid_locks
    total_amount ← add_amounts 0 valid
    guard (not (total_amount == 0)) zero_amount
    (unlocked, fees) ← charge_locks env.block_time (unbond_config_of s lp_token) valid 0 0
    msg ← build_transfer_cw20_token_msg info.sender lp_token unlocked
    fee_msg ← build_transfer_cw20_token_msg s.config.keeper lp_token fees
    ok (save_locks s lp_token info.sender kept, msg ∷ fee_msg ∷ [])
