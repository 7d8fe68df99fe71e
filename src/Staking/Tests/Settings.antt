-- ===== src/Staking/Tests/Settings.antt =====
-- The theorems on the settings, at concrete inputs.
use dexter_core.Prelude.{◌≡◌, ◌⊎◌, ◌≤◌, refl, [], ◌∷◌, ok, err, count, length, nat_eq}
use dexter_core.Chain.{not_found}
use dexter_core.Chain.Decimal.{exact}
use dexter_core.Staking.State.{Config}
use dexter_core.Staking.Fees.{validate}
use dexter_core.Staking.Unbond.{unbond_config_of}
use dexter_core.Staking.Migrate.{OldStorage, migrate, v3_1_from_v3}
use dexter_core.Staking.Migrate.Versions.{migrate-valid}
use dexter_core.Staking.Invariant.{IsReachable, created, next}
use dexter_core.Staking.Invariant.Untouched.{SameSettings}
use dexter_core.Staking.Invariant.Settings.{IsReachable-IsConfigured}
use dexter_core.Staking.Invariant.Authority.{execute-authority, IsHandover}
use dexter_core.Staking.Execute
use dexter_core.Staking.Tests.Runs.{
  at, from, owner, keeper, lp, unbond_config, new_contract, with_lp, created_run, allow_run,
}

reached : IsReachable ⦃d = exact⦄ with_lp
reached =
    next (at 1000) (from owner) (Execute.allow_lp_token lp) []
      (created (at 1000) owner keeper unbond_config created_run) allow_run

IsReachable-IsConfigured_example :
    (validate (unbond_config_of with_lp lp) ≡ ok tt)
    × (length with_lp.config.allowed_lp_tokens ≤ 100_000)
    × (count lp with_lp.config.allowed_lp_tokens ≤ 1)
IsReachable-IsConfigured_example = IsReachable-IsConfigured ⦃d = exact⦄ {s = with_lp} lp reached

execute-authority_example :
    SameSettings new_contract with_lp
    ⊎ ((owner ≡ owner) ⊎ IsHandover new_contract (at 1000) (from owner) with_lp)
execute-authority_example =
    execute-authority ⦃d = exact⦄ new_contract (at 1000) (from owner) with_lp []
      (Execute.allow_lp_token lp) allow_run

abbrev old : OldStorage
old = record {
  version = "3.0.0";
  config_v1 = err not_found;
  config_v2_1 = err not_found;
  config_v2_2 = err not_found;
  config_v3 = ok (record {
    owner = 2;
    keeper = 3;
    allowed_lp_tokens = lp ∷ [];
    unlock_period = 100;
    instant_unbond_fee_bp = 500;
    fee_tier_interval = 10;
    instant_unbond_min_fee_bp = 200;
  });
}

abbrev migrated : Config
migrated = record {
  owner = 2;
  keeper = 3;
  allowed_lp_tokens = lp ∷ [];
  allowed_reward_cw20_tokens = [];
  unbond_config = unbond_config;
}

migrate_run : migrate old (at 1000) v3_1_from_v3 ≡ ok migrated
unfolding migrate validate
migrate_run = refl

migrate-valid_example :
    (validate unbond_config ≡ ok tt) × (migrated.allowed_reward_cw20_tokens ≡ [])
migrate-valid_example = migrate-valid old (at 1000) v3_1_from_v3 migrated migrate_run
