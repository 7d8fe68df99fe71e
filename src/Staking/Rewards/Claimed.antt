-- ===== src/Staking/Rewards/Claimed.antt =====
-- A creator's claim that is marked as claimed stays marked when rewards are updated.
use dexter_core.Prelude.{
  ℕ, ◌+◌, ◌≡◌, ◌==◌, true, false, ◌||◌, not, Option, some, List, [], ◌∷◌, arith, ok, nat_eq, ==_iff,
  Option-cases, All, unwrap_or, or_panic, >>=-eq-ok, Bool-cases, inl, inr,
}
use dexter_core.Prelude.Dict.{lookup, insert, lookup-insert}
use dexter_core.Chain.{Addr, Response}
use dexter_core.Chain.Words.{add_u128}
use dexter_core.Chain.Decimal.{Decimal}
use dexter_core.Asset.{AssetInfo}
use dexter_core.Staking.State.{
  Storage, RewardSchedule, CreatorClaimableRewardState, AssetRewardState, default_claimable,
}
use dexter_core.Staking.Rewards.{
  Claims, PostUpdate, post_update, credit_creator, is_idle, schedule_part, distribute,
  compute_reward, next_index, load_claims, load_schedules, save_claims, accrue,
  update_staking_rewards, update_all, reward_state_of, staker_of, schedule_ids,
  compute_staker_reward,
}

-- The stored claim of the schedule is marked.
abbrev pub IsMarked : ℕ → Claims → Type 0
IsMarked id claims = (unwrap_or (lookup id claims) default_claimable).claimed ≡ true

-- Every entry of the schedule is marked.
abbrev pub AllMarked : ℕ → Claims → Type 0
AllMarked id = All (λ entry. (not (entry.0 == id) || entry.1.claimed) ≡ true)

AllMarked-insert :
    (id j : ℕ) (c : CreatorClaimableRewardState) (claims : Claims)
    → AllMarked id claims
    → (not (j == id) || c.claimed) ≡ true
    → AllMarked id (insert j c claims)
unfolding insert
AllMarked-insert id j c [] h new = (new, tt)
AllMarked-insert id j c ((i, w) ∷ claims) (here, rest) new =
    ground (arith, AllMarked-insert id j c claims rest new)

AllMarked-lookup :
    (id : ℕ) (c : CreatorClaimableRewardState) (claims : Claims)
    → AllMarked id claims
    → lookup id claims ≡ some c
    → c.claimed ≡ true
unfolding lookup
AllMarked-lookup id c [] h e = cc
AllMarked-lookup id c ((i, w) ∷ claims) (here, rest) e =
    ground (arith, AllMarked-lookup id c claims rest)

load_claims-AllMarked :
    (id : ℕ) (s : Storage) (ids : List ℕ) (claims : Claims)
    → IsMarked id s.creator_claimable_reward
    → AllMarked id claims
    → AllMarked id (load_claims s ids claims)
unfolding load_claims
load_claims-AllMarked id s [] claims marked h = h
load_claims-AllMarked id s (j ∷ ids) claims marked h =
    let v = unwrap_or (lookup j s.creator_claimable_reward) default_claimable in
    let new : (not (j == id) || v.claimed) ≡ true = ground (arith, ==_iff j id) in
    load_claims-AllMarked id s ids (insert j v claims) marked (AllMarked-insert id j v claims h new)

pub IsMarked-insert :
    (id j : ℕ) (v : CreatorClaimableRewardState) (stored : Claims)
    → (not (j == id) || v.claimed) ≡ true
    → IsMarked id stored
    → IsMarked id (insert j v stored)
IsMarked-insert id j v stored new marked = ground (arith, lookup-insert j id v stored)

save_claims-IsMarked :
    (id : ℕ) (claims stored : Claims)
    → AllMarked id claims
    → IsMarked id stored
    → IsMarked id (save_claims claims stored)
unfolding save_claims
save_claims-IsMarked id [] stored h marked = marked
save_claims-IsMarked id ((j, v) ∷ claims) stored (here, rest) marked =
    save_claims-IsMarked id claims (insert j v stored) rest
      (IsMarked-insert id j v stored here marked)

credit_creator-AllMarked :
    (id now total last j amount : ℕ) (claims claims' : Claims)
    → AllMarked id claims
    → credit_creator now total last j amount claims ≡ ok claims'
    → AllMarked id claims'
unfolding credit_creator add_u128
credit_creator-AllMarked id now total last j amount claims claims' h e =
    elim (Option-cases (lookup j claims)) [
      | inl missing ↦ ground (arith, h)
      | inr (c, found) ↦ ground (
        arith,
        h,
        ==_iff j id,
        AllMarked-lookup id c claims h,
        AllMarked-insert id j
            (record { claimed = false; amount = c.amount + amount; last_update = now }) claims h,
      )
    ]

module _ ⦃d : Decimal⦄ (id : ℕ) where
  distribute-AllMarked :
      (now total last : ℕ) (schedules : List (ℕ × RewardSchedule)) (paid : ℕ) (claims : Claims)
      → AllMarked id claims
      → (x : ℕ) (claims' : Claims)
      → distribute now total last schedules paid claims ≡ ok (x, claims')
      → AllMarked id claims'
  unfolding distribute
  distribute-AllMarked now total last [] paid claims h x claims' e = ground (arith, h)
  distribute-AllMarked now total last ((j, s) ∷ schedules) paid claims h x claims' e =
      elim (Bool-cases (is_idle now last s)) [
        | inl idle ↦
            distribute-AllMarked now total last schedules paid claims h x claims' (rw idle at e)
        | inr active ↦
            let (part, _, e1) = >>=-eq-ok (schedule_part now last s) _ (rw active at e) in
            let (paid', _, e2) = >>=-eq-ok (or_panic (add_u128 paid part)) _ e1 in
            let (credited, e3, e4) =
              >>=-eq-ok (credit_creator now total last j paid' claims) _ e2 in
            let marked = credit_creator-AllMarked id now total last j paid' claims credited h e3 in
            distribute-AllMarked now total last schedules paid' credited marked x claims' e4
      ]

  compute_reward-AllMarked :
      (now total : ℕ) (state state' : AssetRewardState) (schedules : List (ℕ × RewardSchedule))
      (claims claims' : Claims)
      → AllMarked id claims
      → compute_reward now total state schedules claims ≡ ok (state', claims')
      → AllMarked id claims'
  unfolding compute_reward
  compute_reward-AllMarked now total state state' schedules claims claims' h e =
      elim (Bool-cases (state.last_distributed == now)) [
        | inl same ↦ ground (arith, h)
        | inr later ↦
            let (p, e1, e2) =
              >>=-eq-ok (distribute now total state.last_distributed schedules 0 claims) _
                (rw later at e) in
            let marked =
              distribute-AllMarked now total state.last_distributed schedules 0 claims h p.0 p.1
                e1 in
            let (index, _, e3) = >>=-eq-ok (next_index total p.0 state.reward_index) _ e2 in
            ground (arith, e3, marked)
      ]

  update_staking_rewards-IsMarked :
      (asset : AssetInfo) (lp_token user : Addr) (total bonded now : ℕ)
      (operation : Option PostUpdate) (s t : Storage) (r r' : Response)
      → IsMarked id s.creator_claimable_reward
      → update_staking_rewards asset lp_token user total bonded now operation (s, r) ≡ ok (t, r')
      → IsMarked id t.creator_claimable_reward
  unfolding update_staking_rewards accrue
  update_staking_rewards-IsMarked asset lp_token user total bonded now operation s t r r' h e =
      let ids = schedule_ids s lp_token asset in
      let state = reward_state_of s lp_token asset in
      let ((state', info, claims), e1, e2) =
        >>=-eq-ok (accrue s asset lp_token user total bonded now) _ e in
      let (schedules, _, e3) = >>=-eq-ok (load_schedules s ids) _ e1 in
      let ((state'', claims'), e4, e5) =
        >>=-eq-ok (compute_reward now total state schedules (load_claims s ids [])) _ e3 in
      let (info', _, e6) =
        >>=-eq-ok (compute_staker_reward bonded state'' (staker_of s lp_token user asset)) _ e5 in
      let (p, _, e7) = >>=-eq-ok (post_update operation user lp_token info r) _ e2 in
      let loaded = load_claims-AllMarked id s ids [] h tt in
      let marked =
        compute_reward-AllMarked now total state state'' schedules (load_claims s ids []) claims'
          loaded e4 in
      let same : claims' ≡ claims = ground (arith, e6) in
      let saved = save_claims-IsMarked id claims s.creator_claimable_reward (rw same at marked) h in
      ground (arith, e7, saved)

  pub update_all-IsMarked :
      (assets : List AssetInfo) (lp_token user : Addr) (total bonded now : ℕ)
      (operation : Option PostUpdate) (s t : Storage) (r r' : Response)
      → IsMarked id s.creator_claimable_reward
      → update_all assets lp_token user total bonded now operation (s, r) ≡ ok (t, r')
      → IsMarked id t.creator_claimable_reward
  unfolding update_all
  update_all-IsMarked [] lp_token user total bonded now operation s t r r' h e =
      ground (arith, e, h)
  update_all-IsMarked (asset ∷ assets) lp_token user total bonded now operation s t r r' h e =
      let ((s', r''), e1, e2) =
        >>=-eq-ok (update_staking_rewards asset lp_token user total bonded now operation (s, r)) _
          e in
      let marked =
        update_staking_rewards-IsMarked asset lp_token user total bonded now operation s s' r r'' h
          e1 in
      update_all-IsMarked assets lp_token user total bonded now operation s' t r'' r' marked e2
