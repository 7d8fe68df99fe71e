-- ===== src/Staking/Rewards/Agreement.antt =====
-- Two states that agree in what the rewards of an asset come from give its stakers the same.
use dexter_core.Prelude.{
  ℕ, ◌≡◌, refl, ◌==◌, List, [], ◌∷◌, arith, ok, or_panic, >>=-eq-ok, Bool-cases, inl, inr, nat_eq,
  pair_eq,
}
use dexter_core.Chain.{Addr}
use dexter_core.Chain.Words.{add_u128}
use dexter_core.Chain.Decimal.{Decimal}
use dexter_core.Asset.{AssetInfo}
use dexter_core.Staking.State.{Storage, RewardSchedule, AssetRewardState, AssetStakerInfo}
use dexter_core.Staking.Rewards.{
  Claims, credit_creator, is_idle, schedule_part, distribute, compute_reward, next_index,
  compute_staker_reward, load_schedules, load_claims, schedule_ids, staker_of, reward_state_of,
  accrue,
}

load_schedules-same :
    (s u : Storage) (ids : List ℕ)
    → u.reward_schedules ≡ s.reward_schedules
    → load_schedules u ids ≡ load_schedules s ids
unfolding load_schedules
load_schedules-same s u [] same = refl
load_schedules-same s u (id ∷ ids) same = rw (same, load_schedules-same s u ids same) refl

module _ ⦃d : Decimal⦄ where
  -- What is distributed does not depend on the creators' claims.
  distribute-same :
      (now total last : ℕ) (schedules : List (ℕ × RewardSchedule)) (paid : ℕ) (a b : Claims)
      (x y : ℕ) (a' b' : Claims)
      → distribute now total last schedules paid a ≡ ok (x, a')
      → distribute now total last schedules paid b ≡ ok (y, b')
      → x ≡ y
  unfolding distribute
  distribute-same now total last [] paid a b x y a' b' e f = ground (arith, e, f)
  distribute-same now total last ((j, s) ∷ schedules) paid a b x y a' b' e f =
      elim (Bool-cases (is_idle now last s)) [
        | inl idle ↦
            distribute-same now total last schedules paid a b x y a' b' (rw idle at e)
              (rw idle at f)
        | inr active ↦
            let (p, e1, e2) = >>=-eq-ok (schedule_part now last s) _ (rw active at e) in
            let (q, f1, f2) = >>=-eq-ok (schedule_part now last s) _ (rw active at f) in
            let same : q ≡ p = cc in
            let (paid', e3, e4) = >>=-eq-ok (or_panic (add_u128 paid p)) _ e2 in
            let (paid'', f3, f4) = >>=-eq-ok (or_panic (add_u128 paid q)) _ f2 in
            let same' : paid'' ≡ paid' = cc in
            let (c, _, e5) = >>=-eq-ok (credit_creator now total last j paid' a) _ e4 in
            let (c', _, f5) = >>=-eq-ok (credit_creator now total last j paid'' b) _ f4 in
            distribute-same now total last schedules paid' c c' x y a' b' e5 (rw same' at f5)
      ]

  compute_reward-same :
      (now total : ℕ) (state : AssetRewardState) (schedules : List (ℕ × RewardSchedule))
      (a b : Claims) (x y : AssetRewardState) (a' b' : Claims)
      → compute_reward now total state schedules a ≡ ok (x, a')
      → compute_reward now total state schedules b ≡ ok (y, b')
      → x ≡ y
  unfolding compute_reward
  compute_reward-same now total state schedules a b x y a' b' e f =
      elim (Bool-cases (state.last_distributed == now)) [
        | inl same ↦ ground (arith, e, f)
        | inr later ↦
            let (p, e1, e2) =
              >>=-eq-ok (distribute now total state.last_distributed schedules 0 a) _
                (rw later at e) in
            let (q, f1, f2) =
              >>=-eq-ok (distribute now total state.last_distributed schedules 0 b) _
                (rw later at f) in
            let same =
              distribute-same now total state.last_distributed schedules 0 a b p.0 q.0 p.1 q.1 e1
                f1 in
            let (i, e3, e4) = >>=-eq-ok (next_index total p.0 state.reward_index) _ e2 in
            let (j, f3, f4) = >>=-eq-ok (next_index total q.0 state.reward_index) _ f2 in
            let same' : i ≡ j = ground (arith, e3, f3, same) in ground (arith, e4, f4, same')
      ]

  module _ (lp_token user : Addr) (total bonded now : ℕ) (s : Storage) where
    -- The second state agrees with `s` in all that the rewards of an asset come from.
    pub record Agrees (u : Storage) (asset : AssetInfo) : Type 0 where
      pub staker : staker_of u lp_token user asset ≡ staker_of s lp_token user asset
      pub state : reward_state_of u lp_token asset ≡ reward_state_of s lp_token asset

    pub accrue-same :
        (u : Storage) (asset : AssetInfo) (x y : AssetRewardState) (i j : AssetStakerInfo)
        (a b : Claims)
        → u.lp_token_asset_reward_schedule ≡ s.lp_token_asset_reward_schedule
        → u.reward_schedules ≡ s.reward_schedules
        → Agrees u asset
        → accrue s asset lp_token user total bonded now ≡ ok (x, i, a)
        → accrue u asset lp_token user total bonded now ≡ ok (y, j, b)
        → j ≡ i
    unfolding accrue
    accrue-same u asset x y i j a b lists stored agree e f =
        let ids = schedule_ids s lp_token asset in
        let listed : schedule_ids u lp_token asset ≡ ids = ground (arith, lists) in
        let (schedules, e1, e2) = >>=-eq-ok (load_schedules s ids) _ e in
        let (schedules', f1, f2) =
          >>=-eq-ok (load_schedules u (schedule_ids u lp_token asset)) _ f in
        let loaded : load_schedules u ids ≡ ok schedules' = rw listed at f1 in
        let same : schedules' ≡ schedules =
          ground (arith, loaded, e1, load_schedules-same s u ids stored) in
        let ((x', a'), e3, e4) =
          >>=-eq-ok
            (compute_reward now total (reward_state_of s lp_token asset) schedules
              (load_claims s ids []))
            _ e2 in
        let ((y', b'), f3, f4) =
          >>=-eq-ok
            (compute_reward now total (reward_state_of u lp_token asset) schedules'
              (load_claims u (schedule_ids u lp_token asset) []))
            _ f2 in
        let moved : compute_reward now total (reward_state_of s lp_token asset) schedules
              (load_claims u (schedule_ids u lp_token asset) [])
            ≡ ok (y', b') =
          rw (same, agree.state) at f3 in
        let states =
          compute_reward-same now total (reward_state_of s lp_token asset) schedules
            (load_claims s ids []) (load_claims u (schedule_ids u lp_token asset) []) x' y' a' b' e3
            moved in
        let (i', e5, e6) =
          >>=-eq-ok (compute_staker_reward bonded x' (staker_of s lp_token user asset)) _ e4 in
        let (j', f5, f6) =
          >>=-eq-ok (compute_staker_reward bonded y' (staker_of u lp_token user asset)) _ f4 in
        let paid : compute_staker_reward bonded x' (staker_of s lp_token user asset) ≡ ok j' =
          rw (← states, agree.staker) at f5 in
        ground (arith, e5, e6, f6, paid)
