-- ===== src/Staking/Unlock/Effects.antt =====
-- What the handlers of unbonding and unlocking do to the locks of a user, and pay.
use dexter_core.Prelude.{
  ℕ, ◌+◌, ◌-◌, ◌<◌, ◌≡◌, ◌==◌, Option, none, [], ◌∷◌, ◌++◌, arith, ok, if◌then◌else◌, unwrap_or,
  nat_eq, pair_eq, List, true, false, not, ◌&&◌, ltb, leb, count, ap, refl,
}
use dexter_core.Prelude.Dict.{lookup-insert}
use dexter_core.Chain.{Addr, Response, Env, MessageInfo, cw20_transfer}
use dexter_core.Chain.Words.{add_u64, checked_sub}
use dexter_core.Chain.Decimal.{Decimal}
use dexter_core.Staking.State.{Storage, TokenLock, lock_eq}
use dexter_core.Staking.Locks.{amounts}
use dexter_core.Staking.Rewards.Frame.{update_all-Kept}
use dexter_core.Staking.Bond.{bonded_of, global_of}
use dexter_core.Staking.Unbond.{unbond, locks_of, unbond_config_of}
use dexter_core.Staking.Unlock.{matured, pending, unlock}
use dexter_core.Staking.Custody.Unlocks.{add_amounts_eq}

-- The tokens in the locks whose time has come.
abbrev pub due_amount : ℕ → List TokenLock → ℕ
due_amount now [] = 0
due_amount now (x ∷ locks) = (if ltb now x.unlock_time then 0 else x.amount) + due_amount now locks

due_amount_eq :
    (now : ℕ) (locks : List TokenLock) → amounts (matured now locks) ≡ due_amount now locks
due_amount_eq now [] = refl
due_amount_eq now (x ∷ locks) = ground (arith, due_amount_eq now locks)

lock-time : (x y : TokenLock) → lock_eq.beq x y ≡ true → x.unlock_time ≡ y.unlock_time
lock-time x y h = ap (λ l. l.unlock_time) ((lock_eq.beq_iff x y).0 h)

count-pending :
    (now : ℕ) (lock : TokenLock) (locks : List TokenLock)
    → count lock (pending now locks) ≡ (if ltb now lock.unlock_time then count lock locks else 0)
count-pending now lock [] = ground arith
count-pending now lock (x ∷ locks) = ground (arith, count-pending now lock locks, lock-time x lock)

module _ (s : Storage) (env : Env) (info : MessageInfo) (lp_token : Addr) (t : Storage)
    (r : Response) where
  pub unlock-pays :
      (lock : TokenLock) (l user : Addr)
      → pair_eq.beq (lp_token, info.sender) (l, user) ≡ false
      → unlock s env info lp_token ≡ ok (t, r)
      → let locks = locks_of s lp_token info.sender in
        let total = due_amount env.block_time locks in
        (r ≡ (if total == 0 then [] else cw20_transfer lp_token info.sender total ∷ []))
        × (count lock (locks_of t lp_token info.sender) ≡ (
            if not (total == 0) && leb lock.unlock_time env.block_time
            then 0
            else count lock locks))
        × (locks_of t l user ≡ locks_of s l user)
  unfolding unlock
  unlock-pays lock l user other e =
      let locks = locks_of s lp_token info.sender in
      let left = pending env.block_time locks in
      let total = add_amounts_eq 0 (matured env.block_time locks) in
      let same = due_amount_eq env.block_time locks in
      (
        ground (arith, total, same),
        ground (
          arith,
          total,
          same,
          count-pending env.block_time lock locks,
          lookup-insert (lp_token, info.sender) (lp_token, info.sender) left s.user_lp_token_locks,
        ),
        ground (
          arith,
          total,
          same,
          lookup-insert (lp_token, info.sender) (l, user) left s.user_lp_token_locks,
        ),
      )

abbrev pub lock_at : ℕ → ℕ → TokenLock
lock_at unlock_time amount = record { unlock_time = unlock_time; amount = amount }

module _ ⦃d : Decimal⦄ (s : Storage) (env : Env) (info : MessageInfo) (lp_token : Addr)
    (t : Storage) (r : Response) where
  -- An unbonding that succeeds, of the amount given or else of all, takes that amount, which is not 0
  -- and at most what the sender has bonded, off the sender's bond and adds one lock of that amount
  -- which matures an unlock period later, behind the sender's other locks.
  pub unbond-locks :
      (amount : Option ℕ)
      → unbond s env info lp_token amount ≡ ok (t, r)
      → let bonded = bonded_of s lp_token info.sender in
        let x = unwrap_or amount bonded in
        (0 < x)
        × (bonded_of t lp_token info.sender + x ≡ bonded)
        × (locks_of t lp_token info.sender
            ≡ locks_of s lp_token info.sender
              ++ lock_at (env.block_time + (unbond_config_of s lp_token).unlock_period) x ∷ [])
  unfolding unbond add_u64 checked_sub
  unbond-locks amount e =
      let bonded = bonded_of s lp_token info.sender in
      let global = global_of s lp_token in
      let x = unwrap_or amount bonded in
      let locks = locks_of s lp_token info.sender in
      let updated =
        update_all-Kept lp_token info.sender global.total_bond_amount bonded env.block_time none
          global.active_reward_assets (s, []) in
      let new = lock_at (env.block_time + (unbond_config_of s lp_token).unlock_period) x in
      (
        ground arith,
        ground (
          arith,
          updated,
          lookup-insert (lp_token, info.sender) (lp_token, info.sender) (bonded - x)
              s.user_bonded_lp_tokens,
        ),
        ground (
          arith,
          updated,
          lookup-insert (lp_token, info.sender) (lp_token, info.sender) (locks ++ new ∷ [])
              s.user_lp_token_locks,
        ),
      )
