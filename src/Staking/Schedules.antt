-- ===== src/Staking/Schedules.antt =====
-- Reward schedules of contracts/multi_staking/src/contract.rs: their creation, and the claim of what
-- they paid to nobody.
use dexter_core.Prelude.{
  ℕ, ◌&&◌, true, [], ◌∷◌, ◌++◌, contains, ltb, ◌==◌, not, if◌then◌else◌, String, unwrap_or, Result,
  ok, or_err, guard, ◌>>=◌, ◌>>◌, nat_eq, pair_eq,
}
use dexter_core.Prelude.Dict.{lookup, insert}
use dexter_core.Chain.{Addr, Response, Env, MessageInfo, not_found, overflow}
use dexter_core.Chain.Words.{add_u128}
use dexter_core.Chain.Decimal.{Decimal}
use dexter_core.Asset.{AssetInfo, Asset, to_string, asset_eq, build_transfer_token_to_user_msg}
use dexter_core.Staking.State.{
  Storage, RewardSchedule, CreatorClaimableRewardState, default_claimable, LpGlobalState,
  next_reward_schedule_id, ContractError, std, unauthorized, invalid_block_times,
  invalid_start_block_time, reward_schedule_is_active, unallocated_reward_already_claimed,
  no_unallocated_reward,
}
use dexter_core.Staking.Rewards.{schedule_part, schedule_ids, reward_state_of}
use dexter_core.Staking.Bond.{check_if_lp_token_allowed, global_of}

-- `active_reward_assets` with the asset in it.
abbrev pub activate : AssetInfo → LpGlobalState → LpGlobalState
activate asset global =
    if contains global.active_reward_assets asset
    then global
    else record global { active_reward_assets = global.active_reward_assets ++ asset ∷ [] }

unfoldable pub create_reward_schedule :
    Storage
    → Env
    → (lp_token : Addr) → (title : String) → (start_block_time end_block_time : ℕ)
    → (creator : Addr) → Asset
    → Result ContractError (Storage × Response)
create_reward_schedule s env lp_token title start_block_time end_block_time creator asset = do
  check_if_lp_token_allowed s.config lp_token
  guard (ltb start_block_time end_block_time) (invalid_block_times start_block_time end_block_time)
  guard (ltb env.block_time start_block_time)
      (invalid_start_block_time start_block_time env.block_time)
  let global = activate asset.info (global_of s lp_token)
  (id, s') ←
      next_reward_schedule_id
        (record s { lp_global_state = insert lp_token global s.lp_global_state })
  let schedule : RewardSchedule = record {
    title = title;
    creator = creator;
    asset = asset.info;
    amount = asset.amount;
    staking_lp_token = lp_token;
    start_block_time = start_block_time;
    end_block_time = end_block_time;
  }
  ok (
    record s' {
      reward_schedules = insert id schedule s'.reward_schedules;
      lp_token_asset_reward_schedule =
          insert (lp_token, to_string asset.info) (schedule_ids s' lp_token asset.info ++ id ∷ [])
            s'.lp_token_asset_reward_schedule;
    },
    [],
  )

abbrev pub claimable_of : Storage → ℕ → CreatorClaimableRewardState
claimable_of s id = unwrap_or (lookup id s.creator_claimable_reward) default_claimable

module _ ⦃d : Decimal⦄ where
  unfoldable pub compute_creator_claimable_reward :
      Storage
      → Env
      → RewardSchedule
      → CreatorClaimableRewardState
      → Result ContractError CreatorClaimableRewardState
  compute_creator_claimable_reward s env schedule claim =
      let global = global_of s schedule.staking_lp_token in
      let state = reward_state_of s schedule.staking_lp_token schedule.asset in
      if not (global.total_bond_amount == 0 && ltb state.last_distributed schedule.end_block_time)
      then ok claim
      else if ltb env.block_time schedule.start_block_time
      then ok claim
      else do
        part ← schedule_part env.block_time state.last_distributed schedule
        amount ← or_err (add_u128 claim.amount part) (std overflow)
        ok (record claim { amount = amount; last_update = env.block_time })

  unfoldable pub claim_unallocated_reward :
      Storage → Env → MessageInfo → ℕ → Result ContractError (Storage × Response)
  claim_unallocated_reward s env info id = do
    schedule ← or_err (lookup id s.reward_schedules) (std not_found)
    let claim = claimable_of s id
    guard (info.sender == schedule.creator) unauthorized
    guard (not (ltb env.block_time schedule.end_block_time)) reward_schedule_is_active
    guard (not claim.claimed) unallocated_reward_already_claimed
    claim' ← compute_creator_claimable_reward s env schedule claim
    guard (not (claim'.amount == 0)) no_unallocated_reward
    msg ← build_transfer_token_to_user_msg schedule.asset schedule.creator claim'.amount
    ok (
      record s {
        creator_claimable_reward =
            insert id (record claim' { claimed = true }) s.creator_claimable_reward;
      },
      msg ∷ [],
    )
