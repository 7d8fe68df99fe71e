-- ===== src/Staking/Fees/Ends.antt =====
-- Where the fees of the tier table begin and end.
use native.Mathlib.Nat.{mul-le-mul_left}
use dexter_core.Prelude.{
  ℕ, zero, suc, ◌+◌, ◌*◌, ◌/◌, ◌≤◌, ◌<◌, ◌≡◌, refl, sym, ap, ◌∙◌, List, [], ◌∷◌, arith, ok, err,
  leb, Bool-cases, inl, inr, >>=-eq-ok, ok-injective, if◌then◌else◌,
}
use dexter_core.Chain.Decimal.{Decimal, scale, from_ratio_eq}
use dexter_core.Staking.State.{
  UnlockFeeTier, InstantUnbondConfig, disabled, enabled, instant_unbond_disabled,
}
use dexter_core.Staking.Fees.{
  validate, tier_fee, next_end_time, tiers_from, fee_tier, interpolated_tiers,
  query_instant_unlock_fee_tiers,
}
use dexter_core.Staking.Fees.Tiers.{IsTiling, tier_fee_total}
use dexter_core.Staking.Fees.Table.{
  IsUsable, validate-IsUsable, tiers-IsTiling, tier_count, tier_count_bounds, steps, range,
  increment, interpolated_tiers_eq,
}

-- The fee of the first and of the last tier, or else `fee`.
abbrev pub first_fee : ℕ → List UnlockFeeTier → ℕ
first_fee fee [] = fee
first_fee fee (t ∷ ts) = t.unlock_fee_bp

abbrev pub last_fee : ℕ → List UnlockFeeTier → ℕ
last_fee fee [] = fee
last_fee fee (t ∷ ts) = last_fee t.unlock_fee_bp ts

module _ ⦃d : Decimal⦄ (period interval num_tiers min_fee inc : ℕ) where
  tiers_from-first :
      (fee left tier start end : ℕ) (ts : List UnlockFeeTier)
      → tiers_from period interval num_tiers min_fee inc (suc left) tier start end ≡ ok ts
      → tier_fee min_fee inc tier ≡ ok (first_fee fee ts)
  unfolding tiers_from
  tiers_from-first fee left tier start end ts e =
      let (bp, e1, r1) = >>=-eq-ok (tier_fee min_fee inc tier) _ e in
      let (end', e2, r2) = >>=-eq-ok (next_end_time period interval num_tiers tier end) _ r1 in
      let (rest, e3, r3) =
        >>=-eq-ok (tiers_from period interval num_tiers min_fee inc left (tier + 1) end end') _
          r2 in
      rw (← ok-injective r3) e1

  tiers_from-last :
      (fee left tier start end : ℕ) (ts : List UnlockFeeTier)
      → tiers_from period interval num_tiers min_fee inc (suc left) tier start end ≡ ok ts
      → tier_fee min_fee inc (tier + left) ≡ ok (last_fee fee ts)
  unfolding tiers_from
  tiers_from-last fee zero tier start end ts e =
      let (bp, e1, r1) = >>=-eq-ok (tier_fee min_fee inc tier) _ e in
      let (end', e2, r2) = >>=-eq-ok (next_end_time period interval num_tiers tier end) _ r1 in
      let same : tier + 0 ≡ tier = omega arith in rw (← ok-injective r2, same) e1
  tiers_from-last fee (suc left) tier start end ts e =
      let (bp, e1, r1) = >>=-eq-ok (tier_fee min_fee inc tier) _ e in
      let (end', e2, r2) = >>=-eq-ok (next_end_time period interval num_tiers tier end) _ r1 in
      let (rest, e3, r3) =
        >>=-eq-ok (tiers_from period interval num_tiers min_fee inc (suc left) (tier + 1) end end')
          _ r2 in
      let later = tiers_from-last bp left (tier + 1) end end' rest e3 in
      let same : tier + 1 + left ≡ tier + suc left = omega arith in
      rw (← ok-injective r3) (rw same at later)

module _ ⦃d : Decimal⦄ {period min_fee max_fee interval : ℕ}
    (u : IsUsable period min_fee max_fee interval) (longer : interval < period)
    (small : period ≤ scale) where
  interpolated_tiers-ends :
      (ts : List UnlockFeeTier)
      → interpolated_tiers period min_fee max_fee interval ≡ ok ts
      → (first_fee 0 ts ≡ min_fee) × (last_fee 0 ts ≡ max_fee)
  interpolated_tiers-ends ts e =
      let (below, above, several) = tier_count_bounds u longer in
      let count = tier_count u longer in
      let n = steps u longer in
      let r = range u longer in
      let inc = r * scale / n in
      let (_, slope, steep) = from_ratio_eq d r n inc (increment u longer) in
      let built = sym (interpolated_tiers_eq u longer) ∙ e in
      let rounds : n * 1 ≤ n * interval = mul-le-mul_left n u.interval_pos in
      let split : count ≡ suc n = omega arith in
      let built' =
        ap (λ k. tiers_from period interval count min_fee inc k 0 0 interval) (sym split) ∙ built in
      let first = tiers_from-first period interval count min_fee inc 0 n 0 0 interval ts built' in
      let last : tier_fee min_fee inc n ≡ ok (last_fee 0 ts) =
        ap (tier_fee min_fee inc) (omega arith)
        ∙ tiers_from-last period interval count min_fee inc 0 n 0 0 interval ts built' in
      let top = u.max_fee_le in
      let ordered = u.fees_le in
      let (bp, e1, low1, high1) =
        tier_fee_total min_fee inc 0 0 (omega arith) (omega arith) (omega arith) in
      let (bp', e2, low2, high2) =
        tier_fee_total min_fee inc n r (omega arith) slope (omega arith) in
      let begins : bp ≡ first_fee 0 ts = ok-injective (sym e1 ∙ first) in
      let ends : bp' ≡ last_fee 0 ts = ok-injective (sym e2 ∙ last) in
      let least : bp ≡ min_fee = omega arith in
      let most : bp' ≡ max_fee = omega arith in (sym begins ∙ least, sym ends ∙ most)

usable :
    (period min_fee max_fee interval : ℕ)
    → validate (record {
      unlock_period = period;
      instant_unbond_config = enabled min_fee max_fee interval;
    })
      ≡ ok tt
    → period ≤ scale
    → IsUsable period min_fee max_fee interval
unfolding validate
usable period min_fee max_fee interval valid small =
    let within : interval ≤ period = ground arith in
    validate-IsUsable period min_fee max_fee interval valid (omega arith) (omega arith)

module _ ⦃d : Decimal⦄ where
  -- What the table is under each configuration.
  abbrev pub HasTable : (period : ℕ) → InstantUnbondConfig → Type 0
  HasTable period disabled =
      query_instant_unlock_fee_tiers
        (record { unlock_period = period; instant_unbond_config = disabled })
      ≡ err instant_unbond_disabled
  HasTable period (enabled min_fee max_fee interval) =
      (ts : List UnlockFeeTier) × (query_instant_unlock_fee_tiers (record {
        unlock_period = period;
        instant_unbond_config = enabled min_fee max_fee interval;
      })
        ≡ ok ts)
      × IsTiling 0 min_fee ts period max_fee
      × (first_fee 0 ts ≡ (if leb period interval then max_fee else min_fee))
      × (last_fee 0 ts ≡ max_fee)

  -- For a configuration that passes `validate`, with an unlock period of at most 10^18 seconds: while
  -- instant unbonding is enabled, the table is built; its tiers cover the seconds from 0 to the unlock
  -- period without a gap or an overlap, and their fees never fall. If the period is longer than one
  -- interval, the first tier has the minimum fee and the last the maximum fee; else there is only the maximum
  -- fee. While instant unbonding is disabled, the query fails with the error that says so.
  pub query_instant_unlock_fee_tiers_total :
      (period : ℕ) (instant : InstantUnbondConfig)
      → validate (record { unlock_period = period; instant_unbond_config = instant }) ≡ ok tt
      → period ≤ scale
      → HasTable period instant
  unfolding query_instant_unlock_fee_tiers
  query_instant_unlock_fee_tiers_total period disabled valid small = refl
  query_instant_unlock_fee_tiers_total period (enabled min_fee max_fee interval) valid small =
      let u = usable period min_fee max_fee interval valid small in
      let bounded = u.interval_le in
      let (ts, built, tiling) =
        tiers-IsTiling period min_fee max_fee interval valid (omega arith) (omega arith) in
      elim (Bool-cases (leb period interval)) [
        | inl short ↦
            let one : fee_tier 0 period max_fee ∷ [] ≡ ts = ok-injective (rw short at built) in
            (
              ts,
              built,
              tiling,
              ap (first_fee 0) (sym one) ∙ ap (λ b. if b then max_fee else min_fee) (sym short),
              ap (last_fee 0) (sym one),
            )
        | inr long ↦
            let several : interpolated_tiers period min_fee max_fee interval ≡ ok ts =
              rw long at built in
            let (begins, ends) = interpolated_tiers-ends u (ground arith) small ts several in
            (ts, built, tiling, begins ∙ ap (λ b. if b then max_fee else min_fee) (sym long), ends)
      ]
