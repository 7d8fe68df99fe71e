-- ===== src/Staking/Fees.antt =====
-- Unbonding configurations and the fee tiers of instant unlocking: `UnbondConfig::validate` of
-- packages/dexter/src/multi_staking.rs, contracts/multi_staking/src/query.rs and `calculate_unlock_fee`
-- of utils.rs.
pub mod Tiers
pub mod Table
pub mod Ends
pub mod Charge
use dexter_core.Prelude.{
  ℕ, zero, suc, ◌+◌, ◌%◌, ◌&&◌, ◌||◌, List, [], ◌∷◌, ltb, leb, ◌==◌, if◌then◌else◌, Result, ok, err,
  or_err, or_panic, ◌>>=◌,
}
use dexter_core.Chain.Words.{u64_mod, add_u64, checked_sub}
use dexter_core.Chain.Decimal.{Decimal}
use dexter_core.Staking.State.{
  UnbondConfig, InstantUnbondConfig, disabled, enabled, UnlockFeeTier, TokenLock,
  UnbondConfigValidationError, invalid_min_fee, invalid_max_fee, invalid_fee_tier_interval,
  max_instant_unbond_fee_bp, ContractError, instant_unbond_disabled,
  checked_multiply_fraction_error,
}

validate_instant : ℕ → InstantUnbondConfig → Result UnbondConfigValidationError Unit
validate_instant unlock_period disabled = ok tt
validate_instant unlock_period (enabled min_fee max_fee fee_tier_interval) =
    if ltb max_fee min_fee
    then err (invalid_min_fee min_fee max_fee)
    else if ltb max_instant_unbond_fee_bp max_fee
    then err (invalid_max_fee max_fee)
    else if fee_tier_interval == 0 || ltb unlock_period fee_tier_interval
    then err (invalid_fee_tier_interval fee_tier_interval)
    else ok tt

unfoldable pub validate : UnbondConfig → Result UnbondConfigValidationError Unit
unfolding validate_instant
validate c = validate_instant c.unlock_period c.instant_unbond_config

abbrev pub fee_tier : ℕ → ℕ → ℕ → UnlockFeeTier
fee_tier start end bp = record {
  seconds_till_unlock_start = start;
  seconds_till_unlock_end = end;
  unlock_fee_bp = bp;
}

-- The fee of the first tier that the seconds fall into, or else `fee_bp`.
abbrev pub tier_for : ℕ → ℕ → List UnlockFeeTier → ℕ
tier_for fee_bp seconds [] = fee_bp
tier_for fee_bp seconds (t ∷ ts) =
    if leb t.seconds_till_unlock_start seconds && ltb seconds t.seconds_till_unlock_end
    then t.unlock_fee_bp
    else tier_for fee_bp seconds ts

module _ ⦃d : Decimal⦄ where
  -- `min_fee + (fee_increment * tier)`
  unfoldable pub tier_fee : (min_fee fee_increment tier : ℕ) → Result ContractError ℕ
  tier_fee min_fee fee_increment tier = do
    ratio ← or_panic (d.from_ratio tier 1)
    extra ← or_panic (d.mul fee_increment ratio)
    or_panic (add_u64 min_fee (d.to_uint_ceil extra % u64_mod))

  -- The end of the tier after `tier`.
  unfoldable pub next_end_time :
      (unlock_period fee_tier_interval num_tiers tier tier_end_time : ℕ) → Result ContractError ℕ
  next_end_time unlock_period fee_tier_interval num_tiers tier tier_end_time = do
    second_last ← or_panic (checked_sub num_tiers 2)
    if tier == second_last
        then ok unlock_period
        else or_panic (add_u64 tier_end_time fee_tier_interval)

  -- `for tier in 0..num_tiers`, with `left` rounds to go
  unfoldable pub tiers_from :
      (unlock_period fee_tier_interval num_tiers min_fee fee_increment : ℕ)
      → (left tier tier_start_time tier_end_time : ℕ) → Result ContractError (List UnlockFeeTier)
  tiers_from unlock_period fee_tier_interval num_tiers min_fee fee_increment zero tier start end =
      ok []
  tiers_from unlock_period fee_tier_interval num_tiers min_fee fee_increment (suc left) tier start
        end =
      do
        bp ← tier_fee min_fee fee_increment tier
        end' ← next_end_time unlock_period fee_tier_interval num_tiers tier end
        rest ←
            tiers_from unlock_period fee_tier_interval num_tiers min_fee fee_increment left
              (tier + 1) end end'
        ok (fee_tier start end bp ∷ rest)

  -- The table when the unlock period is longer than one interval.
  unfoldable pub interpolated_tiers :
      (unlock_period min_fee max_fee fee_tier_interval : ℕ)
      → Result ContractError (List UnlockFeeTier)
  unfolding tiers_from
  interpolated_tiers unlock_period min_fee max_fee fee_tier_interval = do
    ratio ← or_panic (d.from_ratio unlock_period fee_tier_interval)
    let num_tiers = d.to_uint_ceil ratio
    range ← or_panic (checked_sub max_fee min_fee)
    steps ← or_panic (checked_sub num_tiers 1)
    fee_increment ← or_panic (d.from_ratio range (steps % u64_mod))
    tiers_from unlock_period fee_tier_interval num_tiers min_fee fee_increment num_tiers 0 0
        fee_tier_interval

  instant_tiers : ℕ → InstantUnbondConfig → Result ContractError (List UnlockFeeTier)
  instant_tiers unlock_period disabled = err instant_unbond_disabled
  instant_tiers unlock_period (enabled min_fee max_fee fee_tier_interval) =
      if leb unlock_period fee_tier_interval
      then ok (fee_tier 0 unlock_period max_fee ∷ [])
      else interpolated_tiers unlock_period min_fee max_fee fee_tier_interval

  unfoldable pub query_instant_unlock_fee_tiers :
      UnbondConfig → Result ContractError (List UnlockFeeTier)
  unfolding instant_tiers
  query_instant_unlock_fee_tiers c = instant_tiers c.unlock_period c.instant_unbond_config

  -- `amount.checked_mul_ceil(Decimal::from_ratio(fee_bp, 10000))`
  unfoldable pub fee_of : (amount fee_bp : ℕ) → Result ContractError ℕ
  fee_of amount fee_bp = do
    ratio ← or_panic (d.from_ratio fee_bp 10_000)
    or_err (d.mul_ceil amount ratio) checked_multiply_fraction_error

  unlock_fee_for :
      (amount seconds : ℕ) → UnbondConfig → InstantUnbondConfig → Result ContractError (ℕ × ℕ)
  unlock_fee_for amount seconds c disabled = err instant_unbond_disabled
  unlock_fee_for amount seconds c (enabled min_fee max_fee fee_tier_interval) = do
    tiers ← query_instant_unlock_fee_tiers c
    let fee_bp = tier_for max_fee seconds tiers
    fee ← fee_of amount fee_bp
    ok (fee_bp, fee)

  -- The fee in basis points and in tokens.
  unfoldable pub calculate_unlock_fee : TokenLock → ℕ → UnbondConfig → Result ContractError (ℕ × ℕ)
  unfolding unlock_fee_for
  calculate_unlock_fee token_lock current_block_time c =
      if leb token_lock.unlock_time current_block_time then ok (0, 0) else do
        seconds_left ← or_panic (checked_sub token_lock.unlock_time current_block_time)
        unlock_fee_for token_lock.amount seconds_left c c.instant_unbond_config
