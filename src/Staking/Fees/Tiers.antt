-- ===== src/Staking/Fees/Tiers.antt =====
-- The tier table of an unbonding configuration: what it looks like, and that it is always built.
use native.Mathlib.Nat.{mul-le-mul_left, mul-le-mul_right}
use dexter_core.Prelude.{
  ℕ, zero, suc, ◌+◌, ◌-◌, ◌*◌, ◌^◌, ◌≤◌, ◌<◌, ◌≡◌, refl, List, [], ◌∷◌, arith, some, ok, ◌%◌,
}
use dexter_core.Chain.Words.{u64_mod, add_u64_fits, checked_sub, add_u64}
use dexter_core.Chain.Decimal.{Decimal, scale, to_uint_ceil_eq}
use dexter_core.Staking.State.{UnlockFeeTier}
use dexter_core.Staking.Fees.{tier_fee, next_end_time, tiers_from, fee_tier}

-- The tiers follow one another from `start` to `finish`, none is empty, and their fees rise from
-- `fee` at least to `top` at most.
abbrev pub IsTiling : ℕ → ℕ → List UnlockFeeTier → ℕ → ℕ → Type 0
IsTiling start fee [] finish top = (start ≡ finish) × (fee ≤ top)
IsTiling start fee (t ∷ ts) finish top =
    (t.seconds_till_unlock_start ≡ start)
    × (start < t.seconds_till_unlock_end)
    × (fee ≤ t.unlock_fee_bp)
    × IsTiling t.seconds_till_unlock_end t.unlock_fee_bp ts finish top

-- Where the loop stands with `left` rounds to go.
abbrev pub AtTier : (unlock_period interval left tier start end : ℕ) → Type 0
AtTier unlock_period interval zero tier start end = start ≡ unlock_period
AtTier unlock_period interval (suc zero) tier start end =
    (start ≡ tier * interval) × (end ≡ unlock_period)
AtTier unlock_period interval (suc (suc k)) tier start end =
    (start ≡ tier * interval) × (end ≡ tier * interval + interval)

pub AtTier-start :
    (unlock_period interval n : ℕ) → 2 ≤ n → AtTier unlock_period interval n 0 0 interval
AtTier-start unlock_period interval zero h = absurd (omega arith)
AtTier-start unlock_period interval (suc zero) h = absurd (omega arith)
AtTier-start unlock_period interval (suc (suc k)) h = omega arith

module _ ⦃d : Decimal⦄ where
  from_ratio-one : (n : ℕ) → n < 2 ^ 64 → d.from_ratio n 1 ≡ some (n * scale)
  from_ratio-one n h = ground (arith, d.from_ratio_lem n 1)

  mul-whole :
      (inc n r : ℕ) → inc * n ≤ r * scale → r < 2 ^ 64 → d.mul inc (n * scale) ≡ some (inc * n)
  mul-whole inc n r h small = grind (arith, d.mul_lem inc (n * scale))

  pub tier_fee_total :
      (min_fee inc tier r : ℕ)
      → tier < 2 ^ 64
      → inc * tier ≤ r * scale
      → min_fee + r < 2 ^ 64
      → (bp : ℕ) × (tier_fee min_fee inc tier ≡ ok bp)
        × (min_fee * scale + inc * tier ≤ bp * scale)
        × (bp * scale < min_fee * scale + inc * tier + scale)
  unfolding tier_fee
  tier_fee_total min_fee inc tier r ht hr fits =
      let extra = d.to_uint_ceil (inc * tier) in
      let (low, high) = to_uint_ceil_eq d (inc * tier) in
      let small : extra % u64_mod ≡ extra = omega arith in
      (
        min_fee + extra,
        rw (from_ratio-one tier ht, mul-whole inc tier r hr (omega arith))
            (rw (small, add_u64_fits min_fee extra (omega arith)) refl),
        omega arith,
        omega arith,
      )

  module _ (unlock_period interval num_tiers min_fee inc range : ℕ) (positive : 0 < interval)
      (several : 2 ≤ num_tiers) (below : (num_tiers - 1) * interval < unlock_period)
      (above : unlock_period ≤ num_tiers * interval) (fits : unlock_period + interval < 2 ^ 64)
      (top : min_fee + range < 2 ^ 64) (slope : inc * (num_tiers - 1) ≤ range * scale) where
    tier-le : (tier : ℕ) → tier < num_tiers → (inc * tier ≤ range * scale) × (tier < 2 ^ 64)
    tier-le tier h =
        let a : inc * tier ≤ inc * (num_tiers - 1) = mul-le-mul_left inc (omega arith) in
        let b : (num_tiers - 1) * 1 ≤ (num_tiers - 1) * interval = mul-le-mul_left _ positive in
        (omega arith, omega arith)

    next_end_time_total :
        (left tier start end : ℕ)
        → tier + suc left ≡ num_tiers
        → AtTier unlock_period interval (suc left) tier start end
        → (start < end)
          × ((end' : ℕ) × (next_end_time unlock_period interval num_tiers tier end ≡ ok end')
              × AtTier unlock_period interval left (tier + 1) end end')
    unfolding next_end_time checked_sub add_u64
    next_end_time_total zero tier start end e (hs, he) =
        let same : tier ≡ num_tiers - 1 = omega arith in
        let begin : start ≡ (num_tiers - 1) * interval = rw (← same) hs in
        (omega arith, (end + interval, ground arith, he))
    next_end_time_total (suc zero) tier start end e (hs, he) =
        (omega arith, (unlock_period, ground arith, (omega arith, refl)))
    next_end_time_total (suc (suc k)) tier start end e (hs, he) =
        let inside : (tier + 2) * interval ≤ (num_tiers - 1) * interval =
          mul-le-mul_right interval (omega arith) in
        (omega arith, (end + interval, ground arith, (omega arith, omega arith)))

    pub tiers_from-IsTiling :
        (left tier start end fee : ℕ)
        → tier + left ≡ num_tiers
        → AtTier unlock_period interval left tier start end
        → fee * scale < min_fee * scale + inc * tier + scale
        → fee ≤ min_fee + range
        → (ts : List UnlockFeeTier) × (tiers_from unlock_period interval num_tiers min_fee inc left
              tier start end
            ≡ ok ts)
          × IsTiling start fee ts unlock_period (min_fee + range)
    unfolding tiers_from
    tiers_from-IsTiling zero tier start end fee e at hf htop = ([], refl, (at, htop))
    tiers_from-IsTiling (suc left) tier start end fee e at hf htop =
        let (hslope, hsmall) = tier-le tier (omega arith) in
        let (bp, ebp, low, high) = tier_fee_total min_fee inc tier range hsmall hslope top in
        let (nonempty, (end', eend, at')) = next_end_time_total left tier start end e at in
        let (ts, ets, tiling) =
          tiers_from-IsTiling left (tier + 1) end end' bp (omega arith) at' (grind arith)
            (omega arith) in
        (
          fee_tier start end bp ∷ ts,
          rw (ebp, eend, ets) refl,
          (refl, nonempty, omega arith, tiling),
        )
