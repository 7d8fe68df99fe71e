-- ===== src/Staking/Rewards.antt =====
-- The reward index of contracts/multi_staking/src/contract.rs: `compute_reward`, `compute_staker_reward`,
-- `update_staking_rewards` and `withdraw_pending_reward`.
pub mod Frame
pub mod Payout
pub mod Stakers
pub mod Creators
pub mod Claimed
pub mod Agreement
use dexter_core.Prelude.{
  ℕ, zero, suc, ◌+◌, Bool, true, false, ◌&&◌, ◌||◌, Option, none, some, List, [], ◌∷◌, ◌++◌, ltb,
  leb, ◌==◌, min, max, if◌then◌else◌, unwrap_or, Result, ok, err, or_err, or_panic, ◌>>=◌, nat_eq,
  pair_eq,
}
use dexter_core.Prelude.Dict.{Dict, lookup, insert}
use dexter_core.Chain.{Addr, Response, not_found, overflow}
use dexter_core.Chain.Words.{add_u128, checked_sub}
use dexter_core.Chain.Decimal.{Decimal}
use dexter_core.Asset.{AssetInfo, to_string, build_transfer_token_to_user_msg}
use dexter_core.Staking.State.{
  AssetRewardState, AssetStakerInfo, RewardSchedule, CreatorClaimableRewardState, default_claimable,
  Storage, ContractError, std,
}

abbrev pub Claims : Type 0
Claims = Dict ℕ CreatorClaimableRewardState

credit_unclaimed :
    (now id distributed : ℕ) → Claims → CreatorClaimableRewardState → Result ContractError Claims
credit_unclaimed now id distributed claims current = if current.claimed then ok claims else do
  new_amount ← or_panic (add_u128 current.amount distributed)
  ok (insert id (record { claimed = false; amount = new_amount; last_update = now }) claims)

-- What the creator of schedule `id` may claim, when nothing was bonded since the last distribution.
unfoldable pub credit_creator :
    (now total last id distributed : ℕ) → Claims → Result ContractError Claims
unfolding credit_unclaimed
credit_creator now total last id distributed claims =
    if total == 0 && ltb last now
    then (do
      current ← or_panic (lookup id claims)
      credit_unclaimed now id distributed claims current)
    else ok claims

-- Does the loop skip the schedule?
abbrev pub is_idle : (now last : ℕ) → RewardSchedule → Bool
is_idle now last s = ltb now s.start_block_time || leb s.end_block_time last

module _ ⦃d : Decimal⦄ where
  -- What a schedule pays between the last distribution and now.
  unfoldable pub schedule_part : (now last : ℕ) → RewardSchedule → Result ContractError ℕ
  schedule_part now last s = do
    passed_time ← or_panic (checked_sub (min s.end_block_time now) (max s.start_block_time last))
    time ← or_panic (checked_sub s.end_block_time s.start_block_time)
    distribution_amount_per_second ← or_panic (d.from_ratio s.amount time)
    or_panic (d.mul_floor passed_time distribution_amount_per_second)

  -- `for (id, s) in reward_schedules.iter()`
  unfoldable pub distribute :
      (now total last : ℕ)
      → List (ℕ × RewardSchedule)
      → ℕ
      → Claims
      → Result ContractError (ℕ × Claims)
  distribute now total last [] distributed claims = ok (distributed, claims)
  distribute now total last ((id, s) ∷ schedules) distributed claims =
      let skip = distribute now total last schedules distributed claims in
      let pay : Result ContractError (ℕ × Claims) = do
        part ← schedule_part now last s
        distributed' ← or_panic (add_u128 distributed part)
        claims' ← credit_creator now total last id distributed' claims
        distribute now total last schedules distributed' claims'
      in if is_idle now last s then skip else pay

  -- The index grows by the distributed amount per bonded token, if anything is bonded.
  unfoldable pub next_index : (total distributed reward_index : ℕ) → Result ContractError ℕ
  next_index total distributed reward_index =
      if total == 0
      then ok reward_index
      else do share ← or_panic (d.from_ratio distributed total); or_panic (d.add reward_index share)

  unfoldable pub compute_reward :
      (now total : ℕ)
      → AssetRewardState
      → List (ℕ × RewardSchedule)
      → Claims
      → Result ContractError (AssetRewardState × Claims)
  compute_reward now total state schedules claims =
      if state.last_distributed == now then ok (state, claims) else do
        (distributed, claims') ← distribute now total state.last_distributed schedules 0 claims
        reward_index ← next_index total distributed state.reward_index
        ok (record { reward_index = reward_index; last_distributed = now }, claims')

  unfoldable pub compute_staker_reward :
      ℕ → AssetRewardState → AssetStakerInfo → Result ContractError AssetStakerInfo
  compute_staker_reward bond_amount state info = do
    gained ← or_err (d.sub state.reward_index info.reward_index) (std overflow)
    reward ← or_panic (d.mul_floor bond_amount gained)
    pending_reward ← or_err (add_u128 info.pending_reward reward) (std overflow)
    ok (record info { reward_index = state.reward_index; pending_reward = pending_reward })

-- What `update_staking_rewards` may do to the rewards before they are saved.
abbrev pub PostUpdate : Type 0
PostUpdate =
    Addr → Addr → AssetStakerInfo → Response → Result ContractError (AssetStakerInfo × Response)

abbrev pub post_update : Option PostUpdate → PostUpdate
post_update none user lp_token info response = ok (info, response)
post_update (some f) user lp_token info response = f user lp_token info response

-- `reward_schedules.push((*id, REWARD_SCHEDULES.load(..)?))`
unfoldable pub load_schedules : Storage → List ℕ → Result ContractError (List (ℕ × RewardSchedule))
load_schedules s [] = ok []
load_schedules s (id ∷ ids) = do
  schedule ← or_err (lookup id s.reward_schedules) (std not_found)
  rest ← load_schedules s ids
  ok ((id, schedule) ∷ rest)

unfoldable pub load_claims : Storage → List ℕ → Claims → Claims
load_claims s [] claims = claims
load_claims s (id ∷ ids) claims =
    load_claims s ids
      (insert id (unwrap_or (lookup id s.creator_claimable_reward) default_claimable) claims)

unfoldable pub save_claims : Claims → Claims → Claims
save_claims [] stored = stored
save_claims ((id, reward) ∷ claims) stored = save_claims claims (insert id reward stored)

abbrev pub save_rewards :
    Storage
    → AssetInfo
    → (lp_token user : Addr) → AssetRewardState
    → AssetStakerInfo
    → Claims
    → Storage
save_rewards s asset lp_token user state info claims = record s {
  asset_lp_reward_state = insert (to_string asset, lp_token) state s.asset_lp_reward_state;
  asset_staker_info = insert (lp_token, (user, to_string asset)) info s.asset_staker_info;
  creator_claimable_reward = save_claims claims s.creator_claimable_reward;
}

abbrev pub new_staker : AssetInfo → AssetStakerInfo
new_staker asset = record { asset = asset; reward_index = 0; pending_reward = 0 }

abbrev pub new_reward_state : AssetRewardState
new_reward_state = record { reward_index = 0; last_distributed = 0 }

abbrev pub schedule_ids : Storage → Addr → AssetInfo → List ℕ
schedule_ids s lp_token asset =
    unwrap_or (lookup (lp_token, to_string asset) s.lp_token_asset_reward_schedule) []

abbrev pub staker_of : Storage → Addr → Addr → AssetInfo → AssetStakerInfo
staker_of s lp_token user asset =
    unwrap_or (lookup (lp_token, (user, to_string asset)) s.asset_staker_info) (new_staker asset)

abbrev pub reward_state_of : Storage → Addr → AssetInfo → AssetRewardState
reward_state_of s lp_token asset =
    unwrap_or (lookup (to_string asset, lp_token) s.asset_lp_reward_state) new_reward_state

module _ ⦃d : Decimal⦄ where
  -- The asset's index and the staker's rewards, brought up to `now` and not yet saved.
  unfoldable pub accrue :
      Storage
      → AssetInfo
      → (lp_token user : Addr) → (total bonded now : ℕ)
      → Result ContractError (AssetRewardState × AssetStakerInfo × Claims)
  accrue s asset lp_token user total bonded now = do
    let ids = schedule_ids s lp_token asset
    schedules ← load_schedules s ids
    (state, claims) ←
        compute_reward now total (reward_state_of s lp_token asset) schedules (load_claims s ids [])
    info ← compute_staker_reward bonded state (staker_of s lp_token user asset)
    ok (state, info, claims)

  unfoldable pub update_staking_rewards :
      AssetInfo
      → (lp_token user : Addr) → (total bonded now : ℕ) → Option PostUpdate
      → Storage × Response
      → Result ContractError (Storage × Response)
  update_staking_rewards asset lp_token user total bonded now operation (s, response) = do
    (state, info, claims) ← accrue s asset lp_token user total bonded now
    (info', response') ← post_update operation user lp_token info response
    ok (save_rewards s asset lp_token user state info' claims, response')

  -- `for asset in &lp_global_state.active_reward_assets`
  unfoldable pub update_all :
      List AssetInfo
      → (lp_token user : Addr) → (total bonded now : ℕ) → Option PostUpdate
      → Storage × Response
      → Result ContractError (Storage × Response)
  update_all [] lp_token user total bonded now operation s = ok s
  update_all (asset ∷ assets) lp_token user total bonded now operation s = do
    s' ← update_staking_rewards asset lp_token user total bonded now operation s
    update_all assets lp_token user total bonded now operation s'

unfoldable pub withdraw_pending_reward : PostUpdate
withdraw_pending_reward user lp_token info response = do
  response' ←
      if ltb 0 info.pending_reward
      then (do
        msg ← build_transfer_token_to_user_msg info.asset user info.pending_reward
        ok (response ++ msg ∷ []))
      else ok response
  ok (record info { pending_reward = 0 }, response')
