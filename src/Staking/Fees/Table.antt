-- ===== src/Staking/Fees/Table.antt =====
-- The table as a whole, for a configuration that passes `validate`.
use native.Mathlib.Nat.{
  mul-le-mul_left, mul-le-mul_right, div-le_self, lt_of_mul-lt-mul_right, mod-eq_of_lt,
}
use dexter_core.Prelude.{
  ℕ, ◌+◌, ◌-◌, ◌*◌, ◌/◌, ◌^◌, ◌≤◌, ◌<◌, ◌≡◌, refl, ◌∙◌, List, [], ◌∷◌, arith, some, ok, ◌%◌, leb,
  Bool-cases, inl, inr,
}
use dexter_core.Chain.Words.{u64_mod, checked_sub_fits}
use dexter_core.Chain.Decimal.{Decimal, scale, from_ratio_eq, to_uint_ceil_eq}
use dexter_core.Staking.State.{UnlockFeeTier, UnbondConfig, enabled}
use dexter_core.Staking.Fees.{
  validate, interpolated_tiers, tiers_from, fee_tier, query_instant_unlock_fee_tiers,
}
use dexter_core.Staking.Fees.Tiers.{IsTiling, AtTier-start, tiers_from-IsTiling}

-- What `validate` has checked of an enabled configuration, with the sizes that keep the loop of the
-- table from overflowing.
pub record IsUsable (period min_fee max_fee interval : ℕ) : Type 0 where
  pub interval_pos : 0 < interval
  pub interval_le : interval ≤ period
  pub interval_small : interval ≤ scale
  pub fees_le : min_fee ≤ max_fee
  pub max_fee_le : max_fee ≤ 1000
  pub fits : period + interval < 2 ^ 64

module _ ⦃d : Decimal⦄ {period min_fee max_fee interval : ℕ}
    (u : IsUsable period min_fee max_fee interval) (longer : interval < period) where
  open u use {interval_pos, interval_small, fees_le, max_fee_le, fits}

  from_ratio-some : (n m : ℕ) → 0 < m → n < 2 ^ 64 → d.from_ratio n m ≡ some (n * scale / m)
  from_ratio-some n m h small = ground (arith, d.from_ratio_lem n m, div-le_self (n * scale) m)

  abbrev pub tier_count : ℕ
  tier_count = d.to_uint_ceil (period * scale / interval)

  pub tier_count_bounds :
      ((tier_count - 1) * interval < period) × (period ≤ tier_count * interval) × (2 ≤ tier_count)
  tier_count_bounds =
      let ratio = period * scale / interval in
      let (_, low, high) =
        from_ratio_eq d period interval ratio
          (from_ratio-some period interval interval_pos (omega arith)) in
      let (up, down) = to_uint_ceil_eq d ratio in
      let a : ratio * interval ≤ tier_count * scale * interval = mul-le-mul_right interval up in
      let above : period ≤ tier_count * interval = omega arith in
      let several : 1 < tier_count = lt_of_mul-lt-mul_right interval (omega arith) in
      let step : ((tier_count - 1) * scale + 1) * interval ≤ ratio * interval =
        mul-le-mul_right interval (omega arith) in
      let below : (tier_count - 1) * interval < period = omega arith in (below, above, several)

  abbrev pub steps : ℕ
  steps = tier_count - 1

  abbrev pub range : ℕ
  range = max_fee - min_fee

  steps_fits : steps % u64_mod ≡ steps
  steps_fits =
      let (below, _, _) = tier_count_bounds in
      let rounds : steps * 1 ≤ steps * interval = mul-le-mul_left steps interval_pos in
      mod-eq_of_lt (omega arith)

  pub increment : d.from_ratio range steps ≡ some (range * scale / steps)
  increment =
      let (_, _, several) = tier_count_bounds in
      from_ratio-some range steps (omega arith) (omega arith)

  pub interpolated_tiers_eq :
      interpolated_tiers period min_fee max_fee interval
      ≡ tiers_from period interval tier_count min_fee
          (range * scale / steps)
          tier_count
          0
          0
          interval
  unfolding interpolated_tiers
  interpolated_tiers_eq =
      let (_, _, several) = tier_count_bounds in
      rw (
        from_ratio-some period interval interval_pos (omega arith),
        checked_sub_fits max_fee min_fee fees_le,
        checked_sub_fits tier_count 1 (omega arith),
        steps_fits,
        increment,
      )

  interpolated_tiers-IsTiling :
      (ts : List UnlockFeeTier) × (interpolated_tiers period min_fee max_fee interval ≡ ok ts)
      × IsTiling 0 min_fee ts period max_fee
  interpolated_tiers-IsTiling =
      let (below, above, several) = tier_count_bounds in
      let inc = range * scale / steps in
      let (_, slope, _) = from_ratio_eq d range steps inc increment in
      let (ts, built, tiling) =
        tiers_from-IsTiling period interval tier_count min_fee inc range interval_pos several below
          above fits (omega arith) slope tier_count 0 0 interval min_fee (omega arith)
          (AtTier-start period interval tier_count several) (omega arith) (omega arith) in
      let top : min_fee + range ≡ max_fee = omega arith in
      (ts, interpolated_tiers_eq ∙ built, rw top at tiling)

pub validate-IsUsable :
    (period min_fee max_fee interval : ℕ)
    → validate (record {
      unlock_period = period;
      instant_unbond_config = enabled min_fee max_fee interval;
    })
      ≡ ok tt
    → interval ≤ scale
    → period + interval < 2 ^ 64
    → IsUsable period min_fee max_fee interval
unfolding validate
validate-IsUsable period min_fee max_fee interval v small fits = ground arith

-- For a configuration that passes `validate`, with an interval of at most 10^18 seconds and no
-- overflow of the unlock period by one more interval, the table is built; its tiers cover the
-- seconds from 0 to the unlock period without a gap or an overlap, and their fees never fall, from
-- the minimum fee at least to the maximum fee at most.
pub tiers-IsTiling :
    ⦃d : Decimal⦄ (period min_fee max_fee interval : ℕ)
    → let c : UnbondConfig = record {
      unlock_period = period;
      instant_unbond_config = enabled min_fee max_fee interval;
    } in
      validate c ≡ ok tt
      → interval ≤ scale
      → period + interval < 2 ^ 64
      → (ts : List UnlockFeeTier) × (query_instant_unlock_fee_tiers c ≡ ok ts)
        × IsTiling 0 min_fee ts period max_fee
unfolding query_instant_unlock_fee_tiers
tiers-IsTiling period min_fee max_fee interval v small fits =
    let u = validate-IsUsable period min_fee max_fee interval v small fits in
    let positive = u.interval_pos in
    let bounded = u.interval_le in
    elim (Bool-cases (leb period interval)) [
      | inl short ↦ (
        fee_tier 0 period max_fee ∷ [],
        rw short,
        (refl, omega arith, u.fees_le, (refl, omega arith)),
      )
      | inr long ↦ rw long (interpolated_tiers-IsTiling u (ground arith))
    ]
