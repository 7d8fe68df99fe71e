-- ===== src/Staking/Fees/Charge.antt =====
-- What an instant unlock is charged: `calculate_unlock_fee` over the tier table.
use native.Mathlib.Nat.{mul-le-mul_left}
use dexter_core.Prelude.{
  ℕ, ◌+◌, ◌-◌, ◌*◌, ◌/◌, ◌^◌, ◌≤◌, ◌<◌, ◌≡◌, ◌⊎◌, refl, List, [], ◌∷◌, arith, some, ok, err, leb,
  if◌then◌else◌,
}
use dexter_core.Chain.Words.{checked_sub}
use dexter_core.Chain.Decimal.{Decimal, scale}
use dexter_core.Staking.State.{
  UnlockFeeTier, UnbondConfig, InstantUnbondConfig, disabled, enabled, TokenLock,
  instant_unbond_disabled,
}
use dexter_core.Staking.Fees.{
  validate, tier_for, fee_of, query_instant_unlock_fee_tiers, calculate_unlock_fee,
}
use dexter_core.Staking.Fees.Tiers.{IsTiling}
use dexter_core.Staking.Fees.Table.{tiers-IsTiling}

IsTiling-le :
    (start fee finish top : ℕ) (ts : List UnlockFeeTier)
    → IsTiling start fee ts finish top
    → fee ≤ top
IsTiling-le start fee finish top [] (_, h) = h
IsTiling-le start fee finish top (x ∷ ts) (_, _, h, t) =
    omega (arith, IsTiling-le _ _ finish top ts t)

-- Over a tiling, the fee lies between the bounds, and rises with the seconds left.
tier_for_bounds :
    (seconds start fee finish top : ℕ) (ts : List UnlockFeeTier)
    → IsTiling start fee ts finish top
    → (fee ≤ tier_for top seconds ts) × (tier_for top seconds ts ≤ top)
tier_for_bounds seconds start fee finish top [] (_, h) = (h, omega arith)
tier_for_bounds seconds start fee finish top (x ∷ ts) (_, _, h, t) = ground (
  arith,
  IsTiling-le x.seconds_till_unlock_end x.unlock_fee_bp finish top ts t,
  tier_for_bounds seconds x.seconds_till_unlock_end x.unlock_fee_bp finish top ts t,
)

tier_for_mono :
    (top a b start fee finish : ℕ) (ts : List UnlockFeeTier)
    → IsTiling start fee ts finish top
    → start ≤ a
    → a ≤ b
    → tier_for top a ts ≤ tier_for top b ts
tier_for_mono top a b start fee finish [] t low le = omega arith
tier_for_mono top a b start fee finish (x ∷ ts) (same, nonempty, h, t) low le = ground (
  arith,
  tier_for_bounds b x.seconds_till_unlock_end x.unlock_fee_bp finish top ts t,
  tier_for_mono top a b x.seconds_till_unlock_end x.unlock_fee_bp finish ts t,
)

module _ ⦃d : Decimal⦄ where
  ratio_of_bp : (bp : ℕ) → bp ≤ 10_000 → d.from_ratio bp 10_000 ≡ some (bp * 10 ^ 14)
  ratio_of_bp bp h = ground (arith, d.from_ratio_lem bp 10_000)

  -- The fee in tokens is the exact part of the amount, rounded up.
  pub fee_of_total :
      (amount bp : ℕ)
      → bp ≤ 10_000
      → amount < 2 ^ 128
      → (fee : ℕ) × (fee_of amount bp ≡ ok fee)
        × (amount * bp ≤ fee * 10_000)
        × (fee * 10_000 < amount * bp + 10_000)
        × (fee ≤ amount)
  unfolding fee_of
  fee_of_total amount bp h small =
      let whole : amount * bp ≤ amount * 10_000 = mul-le-mul_left amount h in
      let fee = (amount * (bp * 10 ^ 14) + (scale - 1)) / scale in
      let charged : d.mul_ceil amount (bp * 10 ^ 14) ≡ some fee =
        ground (arith, d.mul_ceil_lem amount (bp * 10 ^ 14)) in
      (fee, rw (ratio_of_bp bp h, charged) refl, omega arith, omega arith, omega arith)

  fee_of_mono :
      (amount a b fee_a fee_b : ℕ)
      → a ≤ b
      → b ≤ 10_000
      → amount < 2 ^ 128
      → fee_of amount a ≡ ok fee_a
      → fee_of amount b ≡ ok fee_b
      → fee_a ≤ fee_b
  fee_of_mono amount a b fee_a fee_b le h small ea eb =
      let less : amount * a ≤ amount * b = mul-le-mul_left amount le in
      let (x, ex, _, up, _) = fee_of_total amount a (omega arith) small in
      let (y, ey, low, _, _) = fee_of_total amount b h small in
      let sx : fee_a ≡ x = cc in let sy : fee_b ≡ y = cc in omega arith

  module _ (period min_fee max_fee interval : ℕ) where
    abbrev pub fee_config : UnbondConfig
    fee_config = record {
      unlock_period = period;
      instant_unbond_config = enabled min_fee max_fee interval;
    }

    -- What is charged for `lock` at the time `now`.
    abbrev pub IsCharged : TokenLock → ℕ → ℕ → ℕ → Type 0
    IsCharged lock now bp fee =
        (calculate_unlock_fee lock now fee_config ≡ ok (bp, fee))
        × (((lock.unlock_time ≤ now) × (bp ≡ 0) × (fee ≡ 0))
            ⊎ ((now < lock.unlock_time) × (min_fee ≤ bp) × (bp ≤ max_fee)))
        × (lock.amount * bp ≤ fee * 10_000)
        × (fee * 10_000 < lock.amount * bp + 10_000)
        × (fee ≤ lock.amount)

  module _ (period min_fee max_fee interval : ℕ)
      (valid : validate (record {
        unlock_period = period;
        instant_unbond_config = enabled min_fee max_fee interval;
      })
        ≡ ok tt)
      (interval_small : interval ≤ scale) (period_small : period + interval < 2 ^ 64) where
    table :
        (ts : List UnlockFeeTier) × (query_instant_unlock_fee_tiers
            (fee_config period min_fee max_fee interval)
          ≡ ok ts)
        × IsTiling 0 min_fee ts period max_fee
    table = tiers-IsTiling period min_fee max_fee interval valid interval_small period_small

    abbrev rate : TokenLock → ℕ → ℕ
    rate lock now =
        if leb lock.unlock_time now then 0 else tier_for max_fee (lock.unlock_time - now) table.0

    rate_bounds :
        (lock : TokenLock) (now : ℕ)
        → (lock.unlock_time ≤ now → rate lock now ≡ 0)
          × (now < lock.unlock_time → (min_fee ≤ rate lock now) × (rate lock now ≤ max_fee))
          × (rate lock now ≤ 10_000)
    unfolding validate
    rate_bounds lock now = ground (
      arith,
      valid,
      tier_for_bounds (lock.unlock_time - now) 0 min_fee period max_fee table.0 table.2,
    )

    calculate_unlock_fee_eq :
        (lock : TokenLock) (now fee : ℕ)
        → fee_of lock.amount (rate lock now) ≡ ok fee
        → (lock.unlock_time ≤ now → fee ≡ 0)
        → calculate_unlock_fee lock now (fee_config period min_fee max_fee interval)
          ≡ ok (rate lock now, fee)
    unfolding calculate_unlock_fee checked_sub
    calculate_unlock_fee_eq lock now fee e free = ground (arith, table.1)

    charge :
        (lock : TokenLock) (now : ℕ)
        → lock.amount < 2 ^ 128
        → (fee : ℕ) × (fee_of lock.amount (rate lock now) ≡ ok fee)
          × IsCharged period min_fee max_fee interval lock now (rate lock now) fee
    charge lock now small =
        let (free, priced, bounded) = rate_bounds lock now in
        let (fee, charged, low, up, le) = fee_of_total lock.amount (rate lock now) bounded small in
        let nothing : lock.unlock_time ≤ now → fee ≡ 0 = λ h. grind (arith, free h) in
        let result = calculate_unlock_fee_eq lock now fee charged nothing in
        (fee, charged, (result, ground (arith, free, nothing, priced), low, up, le))

    pub charge_total :
        (lock : TokenLock) (now : ℕ)
        → lock.amount < 2 ^ 128
        → (bp : ℕ) × (fee : ℕ) × IsCharged period min_fee max_fee interval lock now bp fee
    charge_total lock now small =
        let (fee, _, charged) = charge lock now small in (rate lock now, fee, charged)

    rate_mono :
        (lock : TokenLock) (early late : ℕ) → early ≤ late → rate lock late ≤ rate lock early
    rate_mono lock early late le = ground (
      arith,
      tier_for_mono max_fee (lock.unlock_time - late) (lock.unlock_time - early) 0 min_fee period
          table.0 table.2,
    )

    -- Under a configuration that passes `validate` and whose times are far from the width of `u64`, neither the rate nor the fee of a lock rises as time passes.
    pub calculate_unlock_fee_falls :
        (lock : TokenLock) (early late : ℕ)
        → early ≤ late
        → lock.amount < 2 ^ 128
        → (bp fee bp' fee' : ℕ)
        → calculate_unlock_fee lock early (fee_config period min_fee max_fee interval)
          ≡ ok (bp, fee)
        → calculate_unlock_fee lock late (fee_config period min_fee max_fee interval)
          ≡ ok (bp', fee')
        → (bp' ≤ bp) × (fee' ≤ fee)
    calculate_unlock_fee_falls lock early late le small bp fee bp' fee' he hl =
        let (x, ex, charged_x) = charge lock early small in
        let (y, ey, charged_y) = charge lock late small in
        let cx = charged_x.0 in
        let cy = charged_y.0 in
        let mono = rate_mono lock early late le in
        let (_, _, bounded) = rate_bounds lock early in
        let less = fee_of_mono lock.amount _ _ y x mono bounded small ey ex in
        let same : (bp ≡ rate lock early) × (fee ≡ x) = ground (arith, cx) in
        let same' : (bp' ≡ rate lock late) × (fee' ≡ y) = ground (arith, cy) in
        (rw (same.0, same'.0) mono, rw (same.1, same'.1) less)

  -- The times of an enabled configuration are far from the width of `u64`.
  abbrev pub IsModest : (period : ℕ) → InstantUnbondConfig → Type 0
  IsModest period disabled = Unit
  IsModest period (enabled min_fee max_fee interval) =
      (interval ≤ scale) × (period + interval < 2 ^ 64)

  -- What `calculate_unlock_fee` does under each configuration.
  abbrev pub IsPriced : (period : ℕ) → InstantUnbondConfig → TokenLock → ℕ → Type 0
  IsPriced period disabled lock now =
      calculate_unlock_fee lock now
        (record { unlock_period = period; instant_unbond_config = disabled })
      ≡ (if leb lock.unlock_time now then ok (0, 0) else err instant_unbond_disabled)
  IsPriced period (enabled min_fee max_fee interval) lock now =
      (bp : ℕ) × (fee : ℕ) × IsCharged period min_fee max_fee interval lock now bp fee

  -- Under a configuration that passes `validate`: while instant unbonding is enabled, with times far from
  -- the width of `u64`, the fee of a lock is always computed. A lock that has run out is free; for any other
  -- the rate lies between the minimum and the maximum fee. The fee is that part of the amount in basis
  -- points, rounded up, and never more than the amount. While instant unbonding is disabled, a lock that has
  -- run out is free, and for any other the computation fails with the error that says so.
  pub calculate_unlock_fee_total :
      (period : ℕ) (instant : InstantUnbondConfig) (lock : TokenLock) (now : ℕ)
      → validate (record { unlock_period = period; instant_unbond_config = instant }) ≡ ok tt
      → IsModest period instant
      → lock.amount < 2 ^ 128
      → IsPriced period instant lock now
  unfolding calculate_unlock_fee checked_sub
  calculate_unlock_fee_total period disabled lock now valid modest small = ground arith
  calculate_unlock_fee_total period (enabled min_fee max_fee interval) lock now valid modest small =
      charge_total period min_fee max_fee interval valid modest.0 modest.1 lock now small
