-- ===== src/Staking/Query/Locks.antt =====
-- The query of a user's locks, against the unlocking.
use dexter_core.Prelude.{
  ℕ, ◌+◌, ◌≡◌, ◌==◌, Option, List, [], ◌∷◌, arith, ok, filter, Ensures, unwrap_or,
}
use dexter_core.Chain.{Addr, Env}
use dexter_core.Chain.Words.{add_u128}
use dexter_core.Staking.State.{Storage, TokenLock, TokenLockInfo}
use dexter_core.Staking.Locks.{amounts}
use dexter_core.Staking.Unbond.{locks_of}
use dexter_core.Staking.Unlock.{matured}
use dexter_core.Staking.Query.{split_locks, query_token_locks}

-- The locks that run out at this very second.
abbrev pub due : ℕ → List TokenLock → List TokenLock
due now = filter (λ lock. lock.unlock_time == now)

split_locks_eq :
    (now : ℕ) (locks : List TokenLock) (unlocked : ℕ)
    → Ensures
        (λ total. total + amounts (due now locks) ≡ unlocked + amounts (matured now locks))
        (split_locks now locks unlocked)
unfolding split_locks add_u128
split_locks_eq now [] unlocked = omega arith
split_locks_eq now (x ∷ locks) unlocked =
    ground
      (arith, split_locks_eq now locks unlocked, split_locks_eq now locks (unlocked + x.amount))

-- The unlocked amount that the query answers is what an unlock would pay at that time, less the
-- locks whose time is exactly now: the query does not count these yet, and the unlock pays them.
pub query_token_locks-unlocked :
    (s : Storage) (env : Env) (lp_token user : Addr) (time : Option ℕ) (info : TokenLockInfo)
    → query_token_locks s env lp_token user time ≡ ok info
    → let now = unwrap_or time env.block_time in
      let locks = locks_of s lp_token user in
      info.unlocked_amount + amounts (due now locks) ≡ amounts (matured now locks)
unfolding query_token_locks
query_token_locks-unlocked s env lp_token user time info e =
    ground (arith, split_locks_eq (unwrap_or time env.block_time) (locks_of s lp_token user) 0)
