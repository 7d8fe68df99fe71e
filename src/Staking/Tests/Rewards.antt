-- ===== src/Staking/Tests/Rewards.antt =====
-- The theorems on the rewards, at concrete inputs: a schedule that pays one token a second.
use dexter_core.Prelude.{
  none, ℕ, List, ◌==◌, ◌+◌, ◌*◌, ◌≡◌, ◌≢◌, ◌≤◌, ◌<◌, refl, true, false, some, [], ◌∷◌, ok, arith,
  All, nat_eq,
}
use dexter_core.Prelude.Dict.{lookup, insert}
use dexter_core.Chain.{bank_send}
use dexter_core.Chain.Words.{add_u128, checked_sub}
use dexter_core.Chain.Decimal.{exact, scale}
use dexter_core.Asset.{AssetInfo, native_token}
use dexter_core.Staking.State.{
  Storage, RewardSchedule, AssetRewardState, AssetStakerInfo, CreatorClaimableRewardState,
  LpGlobalState, default_claimable,
}
use dexter_core.Staking.Rewards.{
  Claims, distribute, schedule_part, credit_creator, compute_reward, compute_staker_reward,
  next_index, load_schedules, load_claims, save_claims, accrue, update_staking_rewards, update_all,
  withdraw_pending_reward,
}
use dexter_core.Staking.Rewards.Payout.{credit_over, credit_over-le}
use dexter_core.Staking.Rewards.Stakers.{
  Stakers, settle, settle-next_index, compute_staker_reward_eq, pendings, IsSettledAt,
}
use dexter_core.Staking.Rewards.Creators.{
  credited, IsShare, distribute-unbonded, distribute-overcredits,
}
use dexter_core.Staking.Schedules.{claim_unallocated_reward, compute_creator_claimable_reward}
use dexter_core.Staking.Execute.{execute, withdraw_rewards}
use dexter_core.Staking.Invariant.{stay, step}
use dexter_core.Staking.Invariant.Claims.{claim_unallocated_reward-once}
use dexter_core.Staking.Bond.{withdraw}
use dexter_core.Staking.Query.{query_unclaimed_rewards, unclaimed_of}
use dexter_core.Staking.Query.Unclaimed.{IsOwn, payouts, withdraw-query_unclaimed_rewards}
use dexter_core.Staking.Bond.Withdraw.{withdraw-IsCleared, IsCleared}
use dexter_core.Staking.Tests.Runs.{at, from, alice, bob, lp, with_bond}

abbrev pub coin : AssetInfo
coin = native_token 20

abbrev pub schedule : RewardSchedule
schedule = record {
  title = "rewards";
  creator = bob;
  asset = coin;
  amount = 1000;
  staking_lp_token = lp;
  start_block_time = 2000;
  end_block_time = 3000;
}

abbrev reward_state : ℕ → ℕ → AssetRewardState
reward_state reward_index last_distributed = record {
  reward_index = reward_index;
  last_distributed = last_distributed;
}

abbrev updates : List (ℕ × ℕ)
updates = (2500, 100) ∷ (2500, 100) ∷ (4000, 50) ∷ []

credit_over_run :
    credit_over ⦃d = exact⦄ ((1, schedule) ∷ []) (reward_state 0 0) updates [] ≡ ok (1000 * scale)
unfolding credit_over compute_reward next_index distribute schedule_part credit_creator add_u128
    checked_sub
credit_over_run = refl

credit_over-le_example : 1000 * scale ≤ 1000 * scale
credit_over-le_example =
    credit_over-le ⦃d = exact⦄ ((1, schedule) ∷ []) (reward_state 0 0) updates [] (omega arith, tt)
      (omega arith, (omega arith, (omega arith, tt))) (1000 * scale) credit_over_run

abbrev staker : ℕ → ℕ → AssetStakerInfo
staker reward_index pending_reward = record {
  asset = coin;
  reward_index = reward_index;
  pending_reward = pending_reward;
}

abbrev before : Stakers
before = (60, staker 0 0) ∷ (40, staker 0 0) ∷ []

abbrev settled : Stakers
settled = (60, staker (5 * scale) 300) ∷ (40, staker (5 * scale) 200) ∷ []

index_run : next_index ⦃d = exact⦄ 100 500 0 ≡ ok (5 * scale)
unfolding next_index
index_run = refl

settle_run : settle ⦃d = exact⦄ (reward_state (5 * scale) 2500) before ≡ ok settled
unfolding settle compute_staker_reward add_u128
settle_run = refl

settle-next_index_example :
    (pendings settled ≤ pendings before + 500) × IsSettledAt (5 * scale) settled
settle-next_index_example =
    settle-next_index ⦃d = exact⦄ 100 500 (reward_state 0 2000) (reward_state (5 * scale) 2500)
      before settled (omega arith) (refl, (refl, tt)) index_run settle_run

staker_run :
    compute_staker_reward ⦃d = exact⦄ 60 (reward_state (5 * scale) 2500) (staker 0 0)
    ≡ ok (staker (5 * scale) 300)
unfolding compute_staker_reward add_u128
staker_run = refl

compute_staker_reward_eq_example :
    (growth : ℕ) × (gain : ℕ) × (5 * scale ≡ 0 + growth)
    × (gain * scale ≤ 60 * growth)
    × (60 * growth < gain * scale + scale)
    × (300 ≡ 0 + gain)
    × (5 * scale ≡ 5 * scale)
    × (coin ≡ coin)
compute_staker_reward_eq_example =
    compute_staker_reward_eq ⦃d = exact⦄ 60 (reward_state (5 * scale) 2500) (staker 0 0)
      (staker (5 * scale) 300) staker_run

abbrev one_claims : Claims
one_claims = (1, default_claimable) ∷ []

one_claim : lookup 1 one_claims ≡ some default_claimable
unfolding lookup
one_claim = refl

part_run : schedule_part ⦃d = exact⦄ 2500 0 schedule ≡ ok 500
unfolding schedule_part checked_sub
part_run = refl

unbonded_run :
    distribute ⦃d = exact⦄ 2500 0 0 ((1, schedule) ∷ []) 0 one_claims
    ≡ ok (500, insert 1 (credited 2500 default_claimable 500) one_claims)
unfolding distribute schedule_part credit_creator add_u128 checked_sub lookup
unbonded_run = refl

distribute-unbonded_example :
    let claims' = insert 1 (credited 2500 default_claimable 500) one_claims in
    IsShare ⦃d = exact⦄ 2500 0 one_claims schedule 500
    × ((c' : CreatorClaimableRewardState) × (lookup 1 claims' ≡ some c')
        × (c'.claimed ≡ false)
        × (c'.amount ≡ 500))
    × ((j : ℕ) → (1 == j) ≡ false → lookup j claims' ≡ lookup j one_claims)
distribute-unbonded_example =
    distribute-unbonded ⦃d = exact⦄ 2500 0 one_claims 1 schedule default_claimable 500
      (insert 1 (credited 2500 default_claimable 500) one_claims) (omega arith) (omega arith)
      one_claim unbonded_run

abbrev two_claims : Claims
two_claims = (1, default_claimable) ∷ (2, default_claimable) ∷ []

first_claim : lookup 1 two_claims ≡ some default_claimable
unfolding lookup
first_claim = refl

second_claim : lookup 2 two_claims ≡ some default_claimable
unfolding lookup
second_claim = refl

distribute-overcredits_example :
    distribute ⦃d = exact⦄ 2500 0 0 ((1, schedule) ∷ (2, schedule) ∷ []) 0 two_claims
    ≡ ok (
      1000,
      insert 2
          (credited 2500 default_claimable 1000)
          (insert 1 (credited 2500 default_claimable 500) two_claims),
    )
distribute-overcredits_example =
    distribute-overcredits ⦃d = exact⦄ 2500 0 two_claims 1 2 500 500 schedule schedule
      default_claimable default_claimable (omega arith) refl refl refl part_run part_run first_claim
      second_claim refl refl (omega arith) (omega arith)

abbrev unclaimed : CreatorClaimableRewardState
unclaimed = record { claimed = false; amount = 500; last_update = 2500 }

abbrev with_schedule : Storage
with_schedule = record with_bond {
  reward_schedules = (1, schedule) ∷ [];
  lp_token_asset_reward_schedule = ((lp, 20), 1 ∷ []) ∷ [];
  creator_claimable_reward = (1, unclaimed) ∷ [];
  lp_global_state = (lp, record { total_bond_amount = 100; active_reward_assets = coin ∷ [] }) ∷ [];
}

abbrev claimed_state : Storage
claimed_state = record with_schedule {
  creator_claimable_reward = (1, record unclaimed { claimed = true }) ∷ [];
}

claim_run :
    claim_unallocated_reward ⦃d = exact⦄ with_schedule (at 3000) (from bob) 1
    ≡ ok (claimed_state, bank_send bob 20 500 ∷ [])
unfolding claim_unallocated_reward compute_creator_claimable_reward lookup insert
claim_run = refl

-- After the claim another user withdraws.
abbrev later_state : Storage
later_state = record claimed_state {
  asset_lp_reward_state = ((20, lp), reward_state (10 * scale) 3000) ∷ [];
  asset_staker_info = ((lp, (alice, 20)), staker (10 * scale) 0) ∷ [];
}

later_run :
    execute ⦃d = exact⦄ claimed_state (at 3000) (from alice) (withdraw_rewards lp)
    ≡ ok (later_state, bank_send alice 20 1000 ∷ [])
unfolding execute withdraw update_all update_staking_rewards accrue compute_reward distribute
    schedule_part credit_creator next_index compute_staker_reward load_schedules load_claims
    save_claims withdraw_pending_reward lookup insert add_u128 checked_sub
later_run = refl

claim_unallocated_reward-once_example :
    ((schedule' : RewardSchedule) × (lookup 1 with_schedule.reward_schedules ≡ some schedule')
      × (bob ≡ schedule'.creator)
      × (schedule'.end_block_time ≤ 3000))
    × (claim_unallocated_reward ⦃d = exact⦄ later_state (at 3001) (from bob) 1
        ≢ ok (later_state, []))
claim_unallocated_reward-once_example =
    claim_unallocated_reward-once ⦃d = exact⦄ with_schedule (at 3000) (from bob) 1 claimed_state
      (bank_send bob 20 500 ∷ []) later_state (at 3001) (from bob) later_state [] claim_run
      (step (at 3000) (from alice) (withdraw_rewards lp) (bank_send alice 20 1000 ∷ []) later_run
        stay)

abbrev withdrawn : Storage
withdrawn = record with_schedule {
  asset_lp_reward_state = ((20, lp), reward_state (5 * scale) 2500) ∷ [];
  asset_staker_info = ((lp, (alice, 20)), staker (5 * scale) 0) ∷ [];
}

abbrev global : LpGlobalState
global = record { total_bond_amount = 100; active_reward_assets = coin ∷ [] }

withdraw_run :
    withdraw ⦃d = exact⦄ with_schedule (at 2500) (from alice) lp
    ≡ ok (withdrawn, bank_send alice 20 500 ∷ [])
unfolding withdraw update_all update_staking_rewards accrue compute_reward distribute schedule_part
    credit_creator next_index compute_staker_reward load_schedules load_claims save_claims
    withdraw_pending_reward lookup insert add_u128 checked_sub
withdraw_run = refl

stored_global : lookup lp with_schedule.lp_global_state ≡ some global
unfolding lookup
stored_global = refl

withdraw-IsCleared_example : All (IsCleared withdrawn lp alice) (coin ∷ [])
withdraw-IsCleared_example =
    withdraw-IsCleared ⦃d = exact⦄ with_schedule (at 2500) (from alice) lp withdrawn
      (bank_send alice 20 500 ∷ []) global stored_global withdraw_run

query_run :
    query_unclaimed_rewards ⦃d = exact⦄ with_schedule (at 2500) lp alice none
    ≡ ok (record { asset = coin; amount = 500 } ∷ [])
unfolding query_unclaimed_rewards unclaimed_of accrue compute_reward distribute schedule_part
    credit_creator next_index compute_staker_reward load_schedules load_claims lookup insert
    add_u128 checked_sub
query_run = refl

coin-IsOwn : IsOwn with_schedule lp alice coin
unfolding lookup
coin-IsOwn = refl

withdraw-query_unclaimed_rewards_example :
    bank_send alice 20 500 ∷ [] ≡ payouts alice (record { asset = coin; amount = 500 } ∷ [])
withdraw-query_unclaimed_rewards_example =
    withdraw-query_unclaimed_rewards ⦃d = exact⦄ with_schedule (at 2500) (from alice) lp withdrawn
      (bank_send alice 20 500 ∷ []) global (record { asset = coin; amount = 500 } ∷ [])
      stored_global (tt, tt) (coin-IsOwn, tt) query_run withdraw_run
