-- ===== src/Staking/Locks.antt =====
-- `find_lock_difference` of contracts/multi_staking/src/utils.rs: which of the requested locks a user
-- has, and which are left.
pub mod Split
pub mod Sorting
pub mod Amounts
use dexter_core.Prelude.{ℕ, ◌+◌, List, [], ◌∷◌, ltb, if◌then◌else◌}
use dexter_core.Staking.State.{TokenLock, lock_beq}

-- The tokens in a list of locks.
abbrev pub amounts : List TokenLock → ℕ
amounts [] = 0
amounts (lock ∷ locks) = lock.amount + amounts locks

-- Rust's stable `sort_by` on the unlock time, as an insertion sort.
pub insert_lock : TokenLock → List TokenLock → List TokenLock
insert_lock a [] = a ∷ []
insert_lock a (b ∷ ls) =
    if ltb b.unlock_time a.unlock_time then b ∷ insert_lock a ls else a ∷ b ∷ ls

pub sort_locks : List TokenLock → List TokenLock
unfolding insert_lock
sort_locks [] = []
sort_locks (a ∷ ls) = insert_lock a (sort_locks ls)

-- The two loops, from `i` and `j` on: the locks to keep, and those to be unlocked.
pub walk : List TokenLock → List TokenLock → List TokenLock × List TokenLock
walk [] req = ([], [])
walk (a ∷ all) [] = (a ∷ all, [])
walk (a ∷ all) (r ∷ req) =
    let both = walk all req in
    let next_lock = walk all (r ∷ req) in
    let next_request = walk (a ∷ all) req in
    if lock_beq a r
    then (both.0, r ∷ both.1)
    else if ltb a.unlock_time r.unlock_time
    then (a ∷ next_lock.0, next_lock.1)
    else next_request

unfoldable pub find_lock_difference :
    List TokenLock → List TokenLock → List TokenLock × List TokenLock
unfolding walk sort_locks
find_lock_difference all_locks locks_to_be_unlocked =
    walk (sort_locks all_locks) (sort_locks locks_to_be_unlocked)
