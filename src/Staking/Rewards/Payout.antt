-- ===== src/Staking/Rewards/Payout.antt =====
-- What the schedules pay out over time.
use native.Mathlib.Nat.{
  mul-le-mul_left, mul-le-mul_right, div-mul-le_self, le-div_iff_mul-le, div-le_of_le-mul,
}
use dexter_core.Prelude.{
  ℕ, ◌+◌, ◌-◌, ◌*◌, ◌/◌, ◌≤◌, ◌<◌, ◌≡◌, Bool-cases, inl, inr, false, List, [], ◌∷◌, arith, min, max,
  ok, Result, All, ◌>>=◌, or_panic, >>=-eq-ok, or_panic-eq-ok, ap, refl, ok-injective, ==_iff, ◌==◌,
}
use dexter_core.Chain.Words.{checked_sub, checked_sub_eq, add_u128, add_u128_eq}
use dexter_core.Chain.Decimal.{Decimal, scale, from_ratio_eq, mul_floor_eq}
use dexter_core.Staking.State.{RewardSchedule, AssetRewardState, ContractError}
use dexter_core.Staking.Rewards.{
  Claims, schedule_part, is_idle, distribute, credit_creator, next_index, compute_reward,
}
use dexter_core.Staking.Rewards.Stakers.{next_index_eq}

abbrev pub IsProper : ℕ × RewardSchedule → Type 0
IsProper (id, s) = s.start_block_time < s.end_block_time

-- The times do not run backwards.
abbrev pub IsForward : ℕ → List (ℕ × ℕ) → Type 0
IsForward last [] = Unit
IsForward last ((now, total) ∷ updates) = (last ≤ now) × IsForward now updates

-- The seconds of a schedule after `last`.
abbrev remaining : ℕ → RewardSchedule → ℕ
remaining last s = s.end_block_time - min s.end_block_time (max s.start_block_time last)

-- What a schedule may still pay after `last`.
abbrev left_over : ℕ → RewardSchedule → ℕ
left_over last s = s.amount * remaining last s / (s.end_block_time - s.start_block_time)

abbrev pub all_amounts : List (ℕ × RewardSchedule) → ℕ
all_amounts [] = 0
all_amounts ((id, s) ∷ schedules) = s.amount + all_amounts schedules

abbrev all_left : ℕ → List (ℕ × RewardSchedule) → ℕ
all_left last [] = 0
all_left last ((id, s) ∷ schedules) = left_over last s + all_left last schedules

left_over-le : (last : ℕ) (s : RewardSchedule) → left_over last s ≤ s.amount
left_over-le last s =
    let time = s.end_block_time - s.start_block_time in
    let within : s.amount * remaining last s ≤ s.amount * time =
      mul-le-mul_left s.amount (omega arith) in
    div-le_of_le-mul time (omega arith)

all_left-le :
    (last : ℕ) (schedules : List (ℕ × RewardSchedule))
    → all_left last schedules ≤ all_amounts schedules
all_left-le last [] = omega arith
all_left-le last ((id, s) ∷ schedules) =
    omega (arith, left_over-le last s, all_left-le last schedules)

-- A payment at a rounded rate for `passed` seconds, out of what is left for `before` seconds.
part-le :
    (amount time rate passed part before after : ℕ)
    → 0 < time
    → rate * time ≤ amount * scale
    → part * scale ≤ passed * rate
    → passed + after ≤ before
    → part + amount * after / time ≤ amount * before / time
part-le amount time rate passed part before after positive hr hp hs =
    let rest = amount * after / time in
    let a : rest * time ≤ amount * after = div-mul-le_self (amount * after) time in
    let b : part * scale * time ≤ passed * rate * time = mul-le-mul_right time hp in
    let c : passed * (rate * time) ≤ passed * (amount * scale) = mul-le-mul_left passed hr in
    let e : amount * (passed + after) ≤ amount * before = mul-le-mul_left amount hs in
    let whole : (part + rest) * time ≤ amount * before = omega arith in
    (le-div_iff_mul-le positive).1 whole

left_over_mono :
    (now last : ℕ) (s : RewardSchedule)
    → s.start_block_time < s.end_block_time
    → last ≤ now
    → left_over now s ≤ left_over last s
left_over_mono now last s proper le =
    let time = s.end_block_time - s.start_block_time in
    let less : s.amount * remaining now s ≤ s.amount * remaining last s =
      mul-le-mul_left s.amount (omega arith) in
    let part : left_over now s * time ≤ s.amount * remaining now s =
      div-mul-le_self (s.amount * remaining now s) time in
    (le-div_iff_mul-le (omega arith)).1 (omega arith)

module _ ⦃d : Decimal⦄ where
  schedule_part-le :
      (now last : ℕ) (s : RewardSchedule)
      → s.start_block_time < s.end_block_time
      → last ≤ now
      → is_idle now last s ≡ false
      → (part : ℕ) → schedule_part now last s ≡ ok part
      → part + left_over now s ≤ left_over last s
  unfolding schedule_part
  schedule_part-le now last s proper le active part e =
      let begin = max s.start_block_time last in
      let (passed, e1, f1) =
        >>=-eq-ok (or_panic (checked_sub (min s.end_block_time now) begin)) _ e in
      let (time, e2, f2) =
        >>=-eq-ok (or_panic (checked_sub s.end_block_time s.start_block_time)) _ f1 in
      let (rate, e3, f3) = >>=-eq-ok (or_panic (d.from_ratio s.amount time)) _ f2 in
      let p1 = checked_sub_eq (min s.end_block_time now) begin passed (or_panic-eq-ok _ e1) in
      let p2 = checked_sub_eq s.end_block_time s.start_block_time time (or_panic-eq-ok _ e2) in
      let (positive, slope, _) = from_ratio_eq d s.amount time rate (or_panic-eq-ok _ e3) in
      let (low, _) = mul_floor_eq d passed rate part (or_panic-eq-ok _ f3) in
      let seconds : time ≡ s.end_block_time - s.start_block_time = omega arith in
      let window : (s.start_block_time ≤ now) × (last < s.end_block_time) = ground arith in
      rw (← seconds) (
        part-le s.amount time rate passed part (remaining last s) (remaining now s) positive slope
          low (omega arith))

  -- The distributed amount comes out of what the schedules had left.
  distribute-le :
      (now total last : ℕ) (schedules : List (ℕ × RewardSchedule)) (paid : ℕ) (claims : Claims)
      → All IsProper schedules
      → last ≤ now
      → (x : ℕ) (claims' : Claims)
      → distribute now total last schedules paid claims ≡ ok (x, claims')
      → x + all_left now schedules ≤ paid + all_left last schedules
  unfolding distribute
  distribute-le now total last [] paid claims proper le x claims' e = ground arith
  distribute-le now total last ((id, s) ∷ schedules) paid claims (p, ps) le x claims' e =
      elim (Bool-cases (is_idle now last s)) [
        | inl idle ↦ omega (
          arith,
          left_over_mono now last s p le,
          distribute-le now total last schedules paid claims ps le x claims' (rw idle at e),
        )
        | inr active ↦
            let f = rw active at e in
            let (part, e1, f1) = >>=-eq-ok (schedule_part now last s) _ f in
            let (paid', e2, f2) = >>=-eq-ok (or_panic (add_u128 paid part)) _ f1 in
            let (credited, e3, f3) =
              >>=-eq-ok (credit_creator now total last id paid' claims) _ f2 in
            let (sum, _) = add_u128_eq paid part paid' (or_panic-eq-ok _ e2) in
            omega (
              arith,
              schedule_part-le now last s p le active part e1,
              distribute-le now total last schedules paid' credited ps le x claims' f3,
            )
      ]

  compute_reward-le :
      (now total : ℕ) (state state' : AssetRewardState) (schedules : List (ℕ × RewardSchedule))
      (claims claims' : Claims)
      → All IsProper schedules
      → state.last_distributed ≤ now
      → compute_reward now total state schedules claims ≡ ok (state', claims')
      → (state'.last_distributed ≡ now)
        × (state.reward_index ≤ state'.reward_index)
        × ((state'.reward_index - state.reward_index) * total + all_left now schedules * scale
            ≤ all_left state.last_distributed schedules * scale)
  unfolding compute_reward
  compute_reward-le now total state state' schedules claims claims' proper le e =
      elim (Bool-cases (state.last_distributed == now)) [
        | inl done ↦
            let kept = ap (λ x. x.0) (ok-injective (rw done at e)) in
            let at = (==_iff state.last_distributed now).0 done in
            let nothing : state.reward_index - state.reward_index ≡ 0 = omega arith in
            rw (← kept, at, nothing) (refl, omega arith, omega arith)
        | inr due ↦
            let f = rw due at e in
            let last = state.last_distributed in
            let (paid, e1, f1) = >>=-eq-ok (distribute now total last schedules 0 claims) _ f in
            let (index, e2, f2) = >>=-eq-ok (next_index total paid.0 state.reward_index) _ f1 in
            let new = ap (λ x. x.0) (ok-injective f2) in
            let spent =
              distribute-le now total last schedules 0 claims proper le paid.0 paid.1 e1 in
            let (share, grown, low) = next_index_eq total paid.0 state.reward_index index e2 in
            let growth : index - state.reward_index ≡ share = omega arith in
            rw (← new, growth) (refl, omega arith, omega arith)
      ]

  -- `compute_reward` at each of the given times in turn, where `total` tokens are bonded: the sum of
  -- what the growth of the index is worth to all that is bonded, in units of the index.
  unfoldable pub credit_over :
      List (ℕ × RewardSchedule) → AssetRewardState → List (ℕ × ℕ) → Claims → Result ContractError ℕ
  credit_over schedules state [] claims = ok 0
  credit_over schedules state ((now, total) ∷ updates) claims = do
    (state', claims') ← compute_reward now total state schedules claims
    rest ← credit_over schedules state' updates claims'
    ok ((state'.reward_index - state.reward_index) * total + rest)

  credit_over-le_left :
      (schedules : List (ℕ × RewardSchedule)) (state : AssetRewardState) (updates : List (ℕ × ℕ))
      (claims : Claims)
      → All IsProper schedules
      → IsForward state.last_distributed updates
      → (credit : ℕ) → credit_over schedules state updates claims ≡ ok credit
      → credit ≤ all_left state.last_distributed schedules * scale
  unfolding credit_over
  credit_over-le_left schedules state [] claims proper forward credit e = ground arith
  credit_over-le_left schedules state ((now, total) ∷ updates) claims proper (le, forward) credit
        e =
      let (next, e1, f1) = >>=-eq-ok (compute_reward now total state schedules claims) _ e in
      let (rest, e2, f2) = >>=-eq-ok (credit_over schedules next.0 updates next.1) _ f1 in
      let (reset, up, first) =
        compute_reward-le now total state next.0 schedules claims next.1 proper le e1 in
      let later =
        credit_over-le_left schedules next.0 updates next.1 proper (rw (reset) forward) rest e2 in
      let later' : rest ≤ all_left now schedules * scale = rw (← reset) later in
      let sum = ok-injective f2 in omega arith

  -- However often `compute_reward` runs on the state that it left, at times that do not run backwards
  -- and with whatever bonded in between, what the growth of the index is worth to all that is bonded
  -- stays, in sum, within the amounts of the schedules, each of which ends after it starts.
  pub credit_over-le :
      (schedules : List (ℕ × RewardSchedule)) (state : AssetRewardState) (updates : List (ℕ × ℕ))
      (claims : Claims)
      → All IsProper schedules
      → IsForward state.last_distributed updates
      → (credit : ℕ) → credit_over schedules state updates claims ≡ ok credit
      → credit ≤ all_amounts schedules * scale
  credit_over-le schedules state updates claims proper forward credit e = omega (
    arith,
    credit_over-le_left schedules state updates claims proper forward credit e,
    all_left-le state.last_distributed schedules,
  )
