-- ===== src/Staking/Tests/Registry.antt =====
-- The register of schedules, at a run in which the owner creates a schedule.
use dexter_core.Prelude.{List, ℕ, ◌≡◌, refl, some, [], ◌∷◌, ok, All, nat_eq}
use dexter_core.Prelude.Dict.{lookup, insert}
use dexter_core.Chain.{MessageInfo}
use dexter_core.Chain.Words.{add_u64}
use dexter_core.Chain.Decimal.{exact}
use dexter_core.Staking.State.{Storage, RewardSchedule}
use dexter_core.Staking.Rewards.{load_schedules, schedule_ids}
use dexter_core.Staking.Rewards.Payout.{IsProper}
use dexter_core.Staking.State.{next_reward_schedule_id}
use dexter_core.Staking.Bond.{check_if_lp_token_allowed}
use dexter_core.Staking.Schedules.{create_reward_schedule}
use dexter_core.Staking.Execute
use dexter_core.Staking.Execute.{execute, withdraw_rewards, create_schedule, address_or}
use dexter_core.Ownership.{addr_validate}
use dexter_core.Staking.Invariant.{IsReachable, created, next}
use dexter_core.Staking.Invariant.Registry.{IsReachable-load_schedules}
use dexter_core.Staking.Tests.Runs.{
  at, from, owner, keeper, bob, lp, unbond_config, with_lp, created_run, allow_run,
}
use dexter_core.Staking.Tests.Rewards.{coin, schedule}

abbrev created_schedule : Storage
created_schedule = record with_lp {
  reward_schedule_id_count = some 1;
  reward_schedules = (1, schedule) ∷ [];
  lp_token_asset_reward_schedule = ((lp, 20), 1 ∷ []) ∷ [];
  lp_global_state = (lp, record { total_bond_amount = 0; active_reward_assets = coin ∷ [] }) ∷ [];
}

abbrev funded : MessageInfo
funded = record { sender = owner; funds = record { denom = 20; amount = 1000 } ∷ [] }

schedule_run :
    execute ⦃d = exact⦄ with_lp (at 1000) funded (create_schedule lp "rewards" (some bob) 2000 3000)
    ≡ ok (created_schedule, [])
unfolding execute create_reward_schedule next_reward_schedule_id check_if_lp_token_allowed
    address_or addr_validate lookup insert add_u64
schedule_run = refl

reached : IsReachable ⦃d = exact⦄ created_schedule
reached =
    next (at 1000) funded (create_schedule lp "rewards" (some bob) 2000 3000) []
      (next (at 1000) (from owner) (Execute.allow_lp_token lp) []
        (created (at 1000) owner keeper unbond_config created_run) allow_run)
      schedule_run

IsReachable-load_schedules_example :
    (schedules : List (ℕ × RewardSchedule)) × (load_schedules created_schedule
        (schedule_ids created_schedule lp coin)
      ≡ ok schedules)
    × All IsProper schedules
IsReachable-load_schedules_example =
    IsReachable-load_schedules ⦃d = exact⦄ {s = created_schedule} lp coin reached
