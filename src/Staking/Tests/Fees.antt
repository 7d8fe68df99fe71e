-- ===== src/Staking/Tests/Fees.antt =====
-- The fee tiers, at concrete inputs.
use dexter_core.Prelude.{◌≡◌, ◌≤◌, refl, [], ◌∷◌, ok, arith}
use dexter_core.Chain.Words.{add_u64, checked_sub}
use dexter_core.Chain.Decimal.{exact}
use dexter_core.Staking.State.{enabled}
use dexter_core.Staking.Fees.{
  validate, query_instant_unlock_fee_tiers, fee_tier, interpolated_tiers, tier_fee, next_end_time,
  fee_of, calculate_unlock_fee,
}
use dexter_core.Staking.Fees.Ends.{HasTable, query_instant_unlock_fee_tiers_total}
use dexter_core.Staking.Fees.Charge.{
  IsPriced, calculate_unlock_fee_total, calculate_unlock_fee_falls,
}
use dexter_core.Staking.Tests.Runs.{unbond_config, lock}

tiers_test :
    query_instant_unlock_fee_tiers ⦃d = exact⦄
      (record { unlock_period = 10; instant_unbond_config = enabled 200 500 3 })
    ≡ ok (fee_tier 0 3 200 ∷ fee_tier 3 6 300 ∷ fee_tier 6 9 400 ∷ fee_tier 9 10 500 ∷ [])
unfolding query_instant_unlock_fee_tiers interpolated_tiers tier_fee next_end_time checked_sub
    add_u64
tiers_test = refl

valid : validate unbond_config ≡ ok tt
unfolding validate
valid = refl

query_instant_unlock_fee_tiers_total_example : HasTable ⦃d = exact⦄ 100 (enabled 200 500 10)
query_instant_unlock_fee_tiers_total_example =
    query_instant_unlock_fee_tiers_total ⦃d = exact⦄ 100 (enabled 200 500 10) valid (omega arith)

calculate_unlock_fee_total_example :
    IsPriced ⦃d = exact⦄ 100 (enabled 200 500 10) (lock 1200 10_000) 1150
calculate_unlock_fee_total_example =
    calculate_unlock_fee_total ⦃d = exact⦄ 100 (enabled 200 500 10) (lock 1200 10_000) 1150 valid
      (omega arith, omega arith) (omega arith)

early_run : calculate_unlock_fee ⦃d = exact⦄ (lock 1200 10_000) 1150 unbond_config ≡ ok (367, 367)
unfolding calculate_unlock_fee query_instant_unlock_fee_tiers interpolated_tiers tier_fee
    next_end_time checked_sub add_u64 fee_of
early_run = refl

late_run : calculate_unlock_fee ⦃d = exact⦄ (lock 1200 10_000) 1195 unbond_config ≡ ok (200, 200)
unfolding calculate_unlock_fee query_instant_unlock_fee_tiers interpolated_tiers tier_fee
    next_end_time checked_sub add_u64 fee_of
late_run = refl

calculate_unlock_fee_falls_example : (200 ≤ 367) × (200 ≤ 367)
calculate_unlock_fee_falls_example =
    calculate_unlock_fee_falls ⦃d = exact⦄ 100 200 500 10 valid (omega arith) (omega arith)
      (lock 1200 10_000) 1150 1195 (omega arith) (omega arith) 367 367 200 200 early_run late_run
