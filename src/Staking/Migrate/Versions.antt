-- ===== src/Staking/Migrate/Versions.antt =====
-- What `migrate` accepts, and what it leaves.
use native.Mathlib.Omega.{arith}
use dexter_core.Prelude.{◌≡◌, [], ok}
use dexter_core.Chain.{Env}
use dexter_core.Staking.State.{Config}
use dexter_core.Staking.Fees.{validate}
use dexter_core.Staking.Migrate.{
  OldStorage, MigrateMsg, v3_1_from_v1, v3_1_from_v2, v3_1_from_v2_2, v3_1_from_v3, migrate,
}

-- Every migration that succeeds leaves an unbonding configuration that passes `validate`, and no
-- reward token of the CW20 kind allowed.
pub migrate-valid :
    (s : OldStorage) (env : Env) (msg : MigrateMsg) (c : Config)
    → migrate s env msg ≡ ok c
    → (validate c.unbond_config ≡ ok tt) × (c.allowed_reward_cw20_tokens ≡ [])
unfolding migrate
migrate-valid s env (v3_1_from_v1 keeper_addr fee_bp min_fee_bp fee_tier_interval) c e =
    ground arith
migrate-valid s env (v3_1_from_v2 keeper_addr) c e = ground arith
migrate-valid s env v3_1_from_v2_2 c e = ground arith
migrate-valid s env v3_1_from_v3 c e = ground arith
