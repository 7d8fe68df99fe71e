-- ===== src/Staking/Locks/Split.antt =====
-- What `find_lock_difference` returns.
use dexter_core.Prelude.{
  ℕ, ◌+◌, ◌≤◌, ◌≡◌, ◌≢◌, refl, false, List, [], ◌∷◌, arith, count, All, min, ◌<◌,
}
use dexter_core.Staking.State.{TokenLock, lock_beq, lock_beq_iff, lock_eq}
use dexter_core.Staking.Locks.{walk, find_lock_difference, sort_locks}
use dexter_core.Staking.Locks.Sorting.{count-sort_locks, IsSorted, sort_locks-IsSorted}

count-walk :
    (x : TokenLock) (all req : List TokenLock)
    → let (kept, unlocked) = walk all req in
      (count x kept + count x unlocked ≡ count x all) × (count x unlocked ≤ count x req)
unfolding walk
count-walk x [] req = omega arith
count-walk x (a ∷ all) [] = omega arith
count-walk x (a ∷ all) (r ∷ req) = ground (
  arith,
  lock_beq_iff a r,
  count-walk x all req,
  count-walk x all (r ∷ req),
  count-walk x (a ∷ all) req,
)

-- Every lock of the user is either kept or unlocked, as often as it was there, and none is unlocked
-- more often than it was requested.
pub find_lock_difference-counts :
    (x : TokenLock) (all req : List TokenLock)
    → let (kept, unlocked) = find_lock_difference all req in
      (count x kept + count x unlocked ≡ count x all) × (count x unlocked ≤ count x req)
unfolding find_lock_difference
find_lock_difference-counts x all req = omega (
  arith,
  count-walk x (sort_locks all) (sort_locks req),
  count-sort_locks x all,
  count-sort_locks x req,
)

-- Locks of one user that run out at the same second have the same amount.
abbrev pub IsCoherent : List TokenLock → Type 0
IsCoherent ls =
    (x y : TokenLock)
    → 0 < count x ls
    → 0 < count y ls
    → x.unlock_time ≡ y.unlock_time
    → x.amount ≡ y.amount

-- A lock that runs out before all of a list is not in it.
count-later :
    (x : TokenLock) (t : ℕ) (ls : List TokenLock)
    → All (λ b. t ≤ b.unlock_time) ls
    → x.unlock_time < t
    → count x ls ≡ 0
count-later x t [] h lt = refl
count-later x t (b ∷ ls) h lt = ground (arith, count-later x t ls h.1 lt)

-- A lock that runs out with the head of a coherent list and differs from it is not in the list.
count-other :
    (a r : TokenLock) (ls : List TokenLock)
    → IsCoherent (a ∷ ls)
    → lock_beq a r ≡ false
    → a.unlock_time ≡ r.unlock_time
    → count r (a ∷ ls) ≡ 0
count-other a r ls c ne same = ground (arith, c a r, lock_beq_iff a r, lock_beq_iff a a)

IsCoherent-tail : (a : TokenLock) (ls : List TokenLock) → IsCoherent (a ∷ ls) → IsCoherent ls
IsCoherent-tail a ls c x y hx hy = c x y (omega arith) (omega arith)

count-walk_complete :
    (x : TokenLock) (all req : List TokenLock)
    → IsSorted all
    → IsSorted req
    → IsCoherent all
    → count x (walk all req).1 ≡ min (count x all) (count x req)
unfolding walk
count-walk_complete x [] req sa sr c = omega arith
count-walk_complete x (a ∷ all) [] sa sr c = omega arith
count-walk_complete x (a ∷ all) (r ∷ req) sa sr c =
    let both = count-walk_complete x all req sa.1 sr.1 (IsCoherent-tail a all c) in
    let next_lock = count-walk_complete x all (r ∷ req) sa.1 sr (IsCoherent-tail a all c) in
    let next_request = count-walk_complete x (a ∷ all) req sa sr.1 c in
    ground (
      arith,
      lock_beq_iff a r,
      lock_beq_iff a x,
      lock_beq_iff r x,
      both,
      next_lock,
      next_request,
      count-later x r.unlock_time (r ∷ req) (omega arith, sr.0),
      count-later x a.unlock_time (a ∷ all) (omega arith, sa.0),
      count-other a r all c,
    )

-- Where the locks of a user that run out at the same second have the same amount, every requested
-- lock is unlocked as often as the user has it and has requested it.
pub find_lock_difference_complete :
    (x : TokenLock) (all req : List TokenLock)
    → IsCoherent all
    → count x (find_lock_difference all req).1 ≡ min (count x all) (count x req)
unfolding find_lock_difference
find_lock_difference_complete x all req c =
    let sorted : IsCoherent (sort_locks all) = λ y z hy hz.
      c y z (omega (arith, count-sort_locks y all)) (omega (arith, count-sort_locks z all)) in
    omega (
      arith,
      count-walk_complete x (sort_locks all) (sort_locks req) (sort_locks-IsSorted all)
          (sort_locks-IsSorted req) sorted,
      count-sort_locks x all,
      count-sort_locks x req,
    )

-- Of two locks that run out at the same second with different amounts, a request for the one that
-- was stored later finds nothing to unlock.
pub find_lock_difference_misses :
    (time first second : ℕ)
    → first ≢ second
    → let a : TokenLock = record { unlock_time = time; amount = first } in
      let b : TokenLock = record { unlock_time = time; amount = second } in
      find_lock_difference (a ∷ b ∷ []) (b ∷ []) ≡ (a ∷ b ∷ [], [])
unfolding find_lock_difference
find_lock_difference_misses time first second h = ground arith
