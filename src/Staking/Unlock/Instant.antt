-- ===== src/Staking/Unlock/Instant.antt =====
-- What an instant unlock pays.
use native.Mathlib.Nat.{mul-le-mul_left}
use dexter_core.Prelude.{
  ℕ, ◌+◌, ◌-◌, ◌*◌, ◌^◌, ◌≤◌, ◌<◌, ◌≡◌, refl, List, [], ◌∷◌, arith, ok, nat_eq, pair_eq, length,
}
use dexter_core.Chain.{Addr, Env, MessageInfo, cw20_transfer}
use dexter_core.Chain.Words.{add_u128, checked_sub}
use dexter_core.Chain.Decimal.{Decimal, scale}
use dexter_core.Staking.State.{Storage, TokenLock}
use dexter_core.Staking.Fees.{validate}
use dexter_core.Staking.Fees.Charge.{fee_config, charge_total}
use dexter_core.Staking.Locks.{amounts, find_lock_difference}
use dexter_core.Staking.Locks.Amounts.{amounts-find_lock_difference}
use dexter_core.Staking.Unbond.{locks_of, unbond_config_of}
use dexter_core.Staking.Unlock.{add_amounts, charge_locks, instant_unlock, save_locks}

add_amounts_total :
    (acc : ℕ) (locks : List TokenLock)
    → acc + amounts locks < 2 ^ 128
    → add_amounts acc locks ≡ ok (acc + amounts locks)
unfolding add_amounts add_u128
add_amounts_total acc [] small = ground arith
add_amounts_total acc (x ∷ locks) small = ground (arith, add_amounts_total (acc + x.amount) locks)

module _ ⦃d : Decimal⦄ (period min_fee max_fee interval : ℕ)
    (valid : validate (fee_config period min_fee max_fee interval) ≡ ok tt)
    (interval_small : interval ≤ scale) (period_small : period + interval < 2 ^ 64) where
  charge_locks_total :
      (now : ℕ) (locks : List TokenLock) (unlocked fees : ℕ)
      → unlocked + fees + amounts locks < 2 ^ 128
      → (u : ℕ) × (f : ℕ) × (charge_locks now
            (fee_config period min_fee max_fee interval)
            locks
            unlocked
            fees
          ≡ ok (u, f))
        × (u + f ≡ unlocked + fees + amounts locks)
        × (f * 10_000 ≤ fees * 10_000 + amounts locks * max_fee + length locks * 10_000)
  unfolding charge_locks add_u128 checked_sub
  charge_locks_total now [] unlocked fees small = (unlocked, fees, refl, omega arith, omega arith)
  charge_locks_total now (lock ∷ locks) unlocked fees small =
      let (bp, fee, facts) =
        charge_total period min_fee max_fee interval valid interval_small period_small lock now
          (omega arith) in
      let charged = facts.0 in
      let range = facts.1 in
      let up = facts.3 in
      let le = facts.4 in
      let capped : bp ≤ max_fee = ground (arith, range) in
      let most : lock.amount * bp ≤ lock.amount * max_fee = mul-le-mul_left lock.amount capped in
      let (u, f, rest, sum, bound) =
        charge_locks_total now locks (unlocked + (lock.amount - fee)) (fees + fee) (omega arith) in
      (u, f, ground (arith, charged, rest), omega arith, omega arith)

  -- Under a valid configuration that enables instant unbonding and whose times are far from the width of `u64`, an instant
  -- unlock of locks that hold something, of an amount that fits 128 bits, succeeds. It keeps the other
  -- locks and sends the sender and the keeper together exactly the amount of the locks, of which the
  -- keeper gets at most the maximum fee, rounded up for every lock.
  pub instant_unlock-pays :
      (s : Storage) (env : Env) (info : MessageInfo) (lp_token : Addr)
      (token_locks : List TokenLock)
      → unbond_config_of s lp_token ≡ fee_config period min_fee max_fee interval
      → let split = find_lock_difference (locks_of s lp_token info.sender) token_locks in
        0 < amounts split.1
        → amounts split.1 < 2 ^ 128
        → (unlocked : ℕ) × (fees : ℕ) × (instant_unlock s env info lp_token token_locks
            ≡ ok (
              save_locks s lp_token info.sender split.0,
              cw20_transfer lp_token info.sender unlocked
                  ∷ cw20_transfer lp_token s.config.keeper fees
                  ∷ [],
            ))
          × (unlocked + fees ≡ amounts split.1)
          × (fees * 10_000 ≤ amounts split.1 * max_fee + length split.1 * 10_000)
  unfolding instant_unlock
  instant_unlock-pays s env info lp_token token_locks same some_amount small =
      let locks = locks_of s lp_token info.sender in
      let split = find_lock_difference locks token_locks in
      let (u, f, charged, sum, bound) =
        charge_locks_total env.block_time split.1 0 0 (omega arith) in
      (
        u,
        f,
        ground (
          arith,
          same,
          charged,
          add_amounts_total 0 split.1,
          amounts-find_lock_difference locks token_locks,
        ),
        omega arith,
        omega arith,
      )
