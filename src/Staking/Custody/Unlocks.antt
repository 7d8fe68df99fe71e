-- ===== src/Staking/Custody/Unlocks.antt =====
-- Unlocking, against the books of `Custody`.
use dexter_core.Prelude.{
  ℕ, ◌+◌, ◌-◌, ◌≡◌, refl, List, [], ◌∷◌, arith, ok, Ensures, Ensures-bind, Ensures-of_eq,
}
use dexter_core.Chain.{Addr, Response, Env, MessageInfo}
use dexter_core.Chain.Words.{add_u128, checked_sub}
use dexter_core.Chain.Decimal.{Decimal}
use dexter_core.Staking.State.{Storage, TokenLock, UnbondConfig}
use dexter_core.Staking.Fees.{calculate_unlock_fee}
use dexter_core.Staking.Locks.{amounts, find_lock_difference}
use dexter_core.Staking.Locks.Amounts.{amounts-find_lock_difference}
use dexter_core.Staking.Unbond.{locks_of, unbond_config_of}
use dexter_core.Staking.Unlock.{add_amounts, matured, pending, unlock, charge_locks, instant_unlock}
use dexter_core.Staking.Custody.{bonded_total, locked_total, owed, outflow}
use dexter_core.Staking.Custody.Bonds.{locked_total-insert}

pub add_amounts_eq :
    (acc : ℕ) (locks : List TokenLock)
    → Ensures (λ total. total ≡ acc + amounts locks) (add_amounts acc locks)
unfolding add_amounts add_u128
add_amounts_eq acc [] = omega arith
add_amounts_eq acc (x ∷ locks) = ground (arith, add_amounts_eq (acc + x.amount) locks)

amounts-matured :
    (now : ℕ) (locks : List TokenLock)
    → amounts (matured now locks) + amounts (pending now locks) ≡ amounts locks
amounts-matured now [] = refl
amounts-matured now (x ∷ locks) = ground (arith, amounts-matured now locks)

module _ ⦃d : Decimal⦄ where
  -- The user's part and the fees make up the locks.
  pub charge_locks_eq :
      (now : ℕ) (c : UnbondConfig) (locks : List TokenLock) (unlocked fees : ℕ)
      → Ensures
          (λ p. p.0 + p.1 ≡ unlocked + fees + amounts locks)
          (charge_locks now c locks unlocked fees)
  unfolding charge_locks add_u128 checked_sub
  charge_locks_eq now c [] unlocked fees = omega arith
  charge_locks_eq now c (lock ∷ locks) unlocked fees =
      Ensures-bind (λ _. Unit {0}) _ (calculate_unlock_fee lock now c) _
        (Ensures-of_eq _ (calculate_unlock_fee lock now c) λ a e. tt)
        λ x e _.
          ground (arith, charge_locks_eq now c locks (unlocked + (lock.amount - x.1)) (fees + x.1))

  module _ (l : Addr) (s : Storage) (env : Env) (info : MessageInfo) (lp_token : Addr) (t : Storage)
      (r : Response) where
    pub unlock-owed : unlock s env info lp_token ≡ ok (t, r) → owed l t + outflow l r ≡ owed l s
    unfolding unlock bonded_total locked_total
    unlock-owed e =
        let locks = locks_of s lp_token info.sender in
        ground (
          arith,
          add_amounts_eq 0 (matured env.block_time locks),
          amounts-matured env.block_time locks,
          locked_total-insert l lp_token info.sender (pending env.block_time locks) s,
        )

    pub instant_unlock-owed :
        (token_locks : List TokenLock)
        → instant_unlock s env info lp_token token_locks ≡ ok (t, r)
        → owed l t + outflow l r ≡ owed l s
    unfolding instant_unlock bonded_total locked_total
    instant_unlock-owed token_locks e =
        let locks = locks_of s lp_token info.sender in
        let split = find_lock_difference locks token_locks in
        ground (
          arith,
          amounts-find_lock_difference locks token_locks,
          charge_locks_eq env.block_time (unbond_config_of s lp_token) split.1 0 0,
          locked_total-insert l lp_token info.sender split.0 s,
        )
