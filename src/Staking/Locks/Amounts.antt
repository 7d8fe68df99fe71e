-- ===== src/Staking/Locks/Amounts.antt =====
-- `find_lock_difference` loses no tokens.
use dexter_core.Prelude.{◌+◌, ◌≡◌, refl, ◌∙◌, List, [], ◌∷◌, arith}
use dexter_core.Staking.State.{TokenLock, lock_beq_iff}
use dexter_core.Staking.Locks.{amounts, insert_lock, sort_locks, walk, find_lock_difference}

amounts-insert_lock :
    (a : TokenLock) (ls : List TokenLock) → amounts (insert_lock a ls) ≡ amounts (a ∷ ls)
unfolding insert_lock
amounts-insert_lock a [] = refl
amounts-insert_lock a (b ∷ ls) = ground (arith, amounts-insert_lock a ls)

amounts-sort_locks : (ls : List TokenLock) → amounts (sort_locks ls) ≡ amounts ls
unfolding sort_locks
amounts-sort_locks [] = refl
amounts-sort_locks (a ∷ ls) =
    omega (arith, amounts-insert_lock a (sort_locks ls), amounts-sort_locks ls)

amounts-walk :
    (all req : List TokenLock)
    → let (kept, unlocked) = walk all req in amounts kept + amounts unlocked ≡ amounts all
unfolding walk
amounts-walk [] req = refl
amounts-walk (a ∷ all) [] = omega arith
amounts-walk (a ∷ all) (r ∷ req) = ground (
  arith,
  lock_beq_iff a r,
  amounts-walk all req,
  amounts-walk all (r ∷ req),
  amounts-walk (a ∷ all) req,
)

pub amounts-find_lock_difference :
    (all req : List TokenLock)
    → let (kept, unlocked) = find_lock_difference all req in
      amounts kept + amounts unlocked ≡ amounts all
unfolding find_lock_difference
amounts-find_lock_difference all req =
    amounts-walk (sort_locks all) (sort_locks req) ∙ amounts-sort_locks all
