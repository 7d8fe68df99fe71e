-- ===== src/Staking/Locks/Sorting.antt =====
-- Sorting keeps the locks, each as often as before.
use dexter_core.Prelude.{ℕ, ◌≤◌, ◌≡◌, refl, List, [], ◌∷◌, arith, count, All}
use dexter_core.Staking.State.{TokenLock, lock_eq}
use dexter_core.Staking.Locks.{insert_lock, sort_locks}

count-insert_lock :
    (x a : TokenLock) (ls : List TokenLock) → count x (insert_lock a ls) ≡ count x (a ∷ ls)
unfolding insert_lock
count-insert_lock x a [] = refl
count-insert_lock x a (b ∷ ls) = ground (arith, count-insert_lock x a ls)

pub count-sort_locks : (x : TokenLock) (ls : List TokenLock) → count x (sort_locks ls) ≡ count x ls
unfolding sort_locks
count-sort_locks x [] = refl
count-sort_locks x (a ∷ ls) =
    omega (arith, count-insert_lock x a (sort_locks ls), count-sort_locks x ls)

-- No lock runs out before the one above it.
abbrev pub IsSorted : List TokenLock → Type 0
IsSorted [] = Unit
IsSorted (a ∷ ls) = All (λ b. a.unlock_time ≤ b.unlock_time) ls × IsSorted ls

All-insert_lock :
    (t : ℕ) (a : TokenLock) (ls : List TokenLock)
    → t ≤ a.unlock_time
    → All (λ b. t ≤ b.unlock_time) ls
    → All (λ b. t ≤ b.unlock_time) (insert_lock a ls)
unfolding insert_lock
All-insert_lock t a [] h hs = (h, tt)
All-insert_lock t a (b ∷ ls) h hs = ground (arith, All-insert_lock t a ls h hs.1)

All-le_trans :
    (s t : ℕ) (ls : List TokenLock)
    → s ≤ t
    → All (λ b. t ≤ b.unlock_time) ls
    → All (λ b. s ≤ b.unlock_time) ls
All-le_trans s t [] h hs = tt
All-le_trans s t (b ∷ ls) h hs = (omega arith, All-le_trans s t ls h hs.1)

insert_lock-IsSorted :
    (a : TokenLock) (ls : List TokenLock) → IsSorted ls → IsSorted (insert_lock a ls)
unfolding insert_lock
insert_lock-IsSorted a [] h = (tt, tt)
insert_lock-IsSorted a (b ∷ ls) (low, h) = ground (
  arith,
  All-insert_lock b.unlock_time a ls,
  All-le_trans a.unlock_time b.unlock_time ls,
  insert_lock-IsSorted a ls h,
)

pub sort_locks-IsSorted : (ls : List TokenLock) → IsSorted (sort_locks ls)
unfolding sort_locks
sort_locks-IsSorted [] = tt
sort_locks-IsSorted (a ∷ ls) = insert_lock-IsSorted a (sort_locks ls) (sort_locks-IsSorted ls)
