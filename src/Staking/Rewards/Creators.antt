-- ===== src/Staking/Rewards/Creators.antt =====
-- What the creators of the schedules may claim, when nothing is bonded (`compute_reward` and
-- `claim_unallocated_reward` of contracts/multi_staking/src/contract.rs).
use native.Mathlib.Nat.{mul-le-mul_left, mul-le-mul_right}
use dexter_core.Prelude.{
  ◌-◌, ◌*◌, min, max, Bool-cases, inl, inr, if◌then◌else◌, ap, sym, refl, ok-injective, or_panic,
  or_panic-eq-ok, ℕ, ◌+◌, ◌^◌, ◌≤◌, ◌<◌, ◌≡◌, ◌≢◌, ◌==◌, ltb, true, false, not, some, [], ◌∷◌,
  arith, ok, nat_eq, guard, >>=-eq-ok, or_err, or_err-eq-ok,
}
use dexter_core.Prelude.Dict.{lookup, insert, lookup-insert}
use dexter_core.Chain.{Response, Env, MessageInfo, not_found}
use dexter_core.Chain.Words.{add_u128, add_u128_eq, checked_sub, checked_sub_eq}
use dexter_core.Chain.Decimal.{Decimal, scale, from_ratio_eq, mul_floor_eq}
use dexter_core.Staking.State.{
  RewardSchedule, CreatorClaimableRewardState, Storage, std, unauthorized,
  reward_schedule_is_active, unallocated_reward_already_claimed,
}
use dexter_core.Staking.Rewards.{Claims, credit_creator, is_idle, schedule_part, distribute}
use dexter_core.Staking.Schedules.{
  claim_unallocated_reward, claimable_of, compute_creator_claimable_reward,
}

-- The claim after `amount` more is credited to it.
abbrev pub credited : ℕ → CreatorClaimableRewardState → ℕ → CreatorClaimableRewardState
credited now c amount = record { claimed = false; amount = c.amount + amount; last_update = now }

credit_creator_eq :
    (now last id amount : ℕ) (claims : Claims) (c : CreatorClaimableRewardState)
    → last < now
    → lookup id claims ≡ some c
    → c.claimed ≡ false
    → c.amount + amount < 2 ^ 128
    → credit_creator now 0 last id amount claims ≡ ok (insert id (credited now c amount) claims)
unfolding credit_creator add_u128
credit_creator_eq now last id amount claims c later stored unclaimed fits = ground arith

share_bounds :
    (amount time rate passed part : ℕ)
    → 0 < time
    → rate * time ≤ amount * scale
    → amount * scale < rate * time + time
    → part * scale ≤ passed * rate
    → passed * rate < part * scale + scale
    → (part * time ≤ amount * passed)
      × (amount * passed * scale < (part + 1) * time * scale + time * passed)
share_bounds amount time rate passed part positive slope steep low high =
    let a : part * scale * time ≤ passed * rate * time = mul-le-mul_right time low in
    let b : passed * (rate * time) ≤ passed * (amount * scale) = mul-le-mul_left passed slope in
    let c : passed * (amount * scale) ≤ passed * (rate * time + time) =
      mul-le-mul_left passed (omega arith) in
    let e : (passed * rate + 1) * time ≤ (part * scale + scale) * time =
      mul-le-mul_right time (omega arith) in
    (omega arith, omega arith)

module _ ⦃d : Decimal⦄ (now last : ℕ) (claims : Claims) where
  -- The seconds of the schedule between the last distribution and now.
  abbrev pub overlap : RewardSchedule → ℕ
  overlap s = min s.end_block_time now - max s.start_block_time last

  abbrev pub duration : RewardSchedule → ℕ
  duration s = s.end_block_time - s.start_block_time

  -- `paid` is the schedule's amount for these seconds, rounded down twice.
  abbrev pub IsShare : RewardSchedule → ℕ → Type 0
  IsShare s paid =
      (paid * duration s ≤ s.amount * overlap s)
      × (s.amount * overlap s * scale < (paid + 1) * duration s * scale + duration s * overlap s)

  idle-IsShare :
      (s : RewardSchedule)
      → s.start_block_time < s.end_block_time
      → is_idle now last s ≡ true
      → IsShare s 0
  idle-IsShare s proper idle =
      let nothing : overlap s ≡ 0 = ground arith in rw nothing (omega arith, omega arith)

  credit_creator-cases :
      (id paid : ℕ) (c : CreatorClaimableRewardState) (claims' : Claims)
      → last < now
      → lookup id claims ≡ some c
      → credit_creator now 0 last id paid claims ≡ ok claims'
      → ((c' : CreatorClaimableRewardState) × (lookup id claims' ≡ some c')
          × (c'.claimed ≡ c.claimed)
          × (c'.amount ≡ c.amount + (if c.claimed then 0 else paid)))
        × ((j : ℕ) → (id == j) ≡ false → lookup j claims' ≡ lookup j claims)
  unfolding credit_creator add_u128
  credit_creator-cases id paid c claims' later stored e = elim (Bool-cases c.claimed) [
    | inl made ↦
        let same : claims ≡ claims' = ground arith in
        rw (← same) ((c, stored, refl, ground arith), λ j h. refl)
    | inr open_claim ↦
        let new = credited now c paid in
        let same : insert id new claims ≡ claims' = ground arith in
        rw (← same) (
          (new, ground (arith, lookup-insert id id new claims), sym open_claim, ground arith),
          λ j h. ground (arith, lookup-insert id j new claims),
        )
  ]

  schedule_part-IsShare :
      (s : RewardSchedule) (part : ℕ)
      → s.start_block_time < s.end_block_time
      → schedule_part now last s ≡ ok part
      → IsShare s part
  unfolding schedule_part
  schedule_part-IsShare s part proper e =
      let begin = max s.start_block_time last in
      let (passed, e1, f1) =
        >>=-eq-ok (or_panic (checked_sub (min s.end_block_time now) begin)) _ e in
      let (time, e2, f2) =
        >>=-eq-ok (or_panic (checked_sub s.end_block_time s.start_block_time)) _ f1 in
      let (rate, e3, f3) = >>=-eq-ok (or_panic (d.from_ratio s.amount time)) _ f2 in
      let p1 = checked_sub_eq (min s.end_block_time now) begin passed (or_panic-eq-ok _ e1) in
      let p2 = checked_sub_eq s.end_block_time s.start_block_time time (or_panic-eq-ok _ e2) in
      let (positive, slope, steep) = from_ratio_eq d s.amount time rate (or_panic-eq-ok _ e3) in
      let (low, high) = mul_floor_eq d passed rate part (or_panic-eq-ok _ f3) in
      let seconds : time ≡ duration s = omega arith in
      let window : passed ≡ overlap s = omega arith in
      rw (← seconds, ← window)
        (share_bounds s.amount time rate passed part positive slope steep low high)

  pub distribute-unbonded :
      (id : ℕ) (s : RewardSchedule) (c : CreatorClaimableRewardState) (paid : ℕ) (claims' : Claims)
      → last < now
      → s.start_block_time < s.end_block_time
      → lookup id claims ≡ some c
      → distribute now 0 last ((id, s) ∷ []) 0 claims ≡ ok (paid, claims')
      → IsShare s paid
        × ((c' : CreatorClaimableRewardState) × (lookup id claims' ≡ some c')
            × (c'.claimed ≡ c.claimed)
            × (c'.amount ≡ c.amount + (if c.claimed then 0 else paid)))
        × ((j : ℕ) → (id == j) ≡ false → lookup j claims' ≡ lookup j claims)
  unfolding distribute
  distribute-unbonded id s c paid claims' later proper stored e =
      elim (Bool-cases (is_idle now last s)) [
        | inl idle ↦
            let kept = ok-injective (rw idle at e) in
            let none_paid : 0 ≡ paid = ap (λ r. r.0) kept in
            let same : claims ≡ claims' = ap (λ r. r.1) kept in
            rw (← none_paid, ← same)
              (idle-IsShare s proper idle, (c, stored, refl, ground arith), λ j h. refl)
        | inr active ↦
            let f = rw active at e in
            let (part, e1, f1) = >>=-eq-ok (schedule_part now last s) _ f in
            let (total, e2, f2) = >>=-eq-ok (or_panic (add_u128 0 part)) _ f1 in
            let (credited', e3, f3) = >>=-eq-ok (credit_creator now 0 last id total claims) _ f2 in
            let (sum, _) = add_u128_eq 0 part total (or_panic-eq-ok _ e2) in
            let done = ok-injective f3 in
            let all_paid : total ≡ paid = ap (λ r. r.0) done in
            let same : credited' ≡ claims' = ap (λ r. r.1) done in
            let whole : part ≡ paid = omega arith in
            let (own, others) = credit_creator-cases id total c credited' later stored e3 in
            rw (← same)
              (rw (← whole) (schedule_part-IsShare s part proper e1), rw (← all_paid) own, others)
      ]

  pub distribute-overcredits :
      (i j p q : ℕ) (s t : RewardSchedule) (b c : CreatorClaimableRewardState)
      → last < now
      → (i == j) ≡ false
      → is_idle now last s ≡ false
      → is_idle now last t ≡ false
      → schedule_part now last s ≡ ok p
      → schedule_part now last t ≡ ok q
      → lookup i claims ≡ some b
      → lookup j claims ≡ some c
      → b.claimed ≡ false
      → c.claimed ≡ false
      → b.amount + p < 2 ^ 128
      → c.amount + (p + q) < 2 ^ 128
      → distribute now 0 last ((i, s) ∷ (j, t) ∷ []) 0 claims
        ≡ ok (p + q, insert j (credited now c (p + q)) (insert i (credited now b p) claims))
  unfolding distribute add_u128
  distribute-overcredits i j p q s t b c later apart active active' pays pays' stored stored'
        unclaimed unclaimed' fits fits' =
      let next = insert i (credited now b p) claims in
      ground (
        arith,
        credit_creator_eq now last i p claims b,
        credit_creator_eq now last j (p + q) next c,
        lookup-insert i j (credited now b p) claims,
      )

module _ ⦃d : Decimal⦄ (s : Storage) (env : Env) (info : MessageInfo) (id : ℕ) (t : Storage)
    (r : Response) where
  pub claimed-rejected :
      (claimable_of s id).claimed ≡ true → claim_unallocated_reward s env info id ≢ ok (t, r)
  unfolding claim_unallocated_reward
  claimed-rejected claimed e = ground arith

  -- The claim is stored, and marked as claimed.
  pub claim_unallocated_reward-saves :
      claim_unallocated_reward s env info id ≡ ok (t, r)
      → (c : CreatorClaimableRewardState) × (t.creator_claimable_reward
          ≡ insert id (record c { claimed = true }) s.creator_claimable_reward)
  unfolding claim_unallocated_reward
  claim_unallocated_reward-saves e =
      let (schedule, _, e1) =
        >>=-eq-ok (or_err (lookup id s.reward_schedules) (std not_found)) _ e in
      let (_, _, e2) = >>=-eq-ok (guard (info.sender == schedule.creator) unauthorized) _ e1 in
      let (_, _, e3) =
        >>=-eq-ok
          (guard (not (ltb env.block_time schedule.end_block_time)) reward_schedule_is_active) _
          e2 in
      let (_, _, e4) =
        >>=-eq-ok (guard (not (claimable_of s id).claimed) unallocated_reward_already_claimed) _
          e3 in
      let (c, _, e5) =
        >>=-eq-ok (compute_creator_claimable_reward s env schedule (claimable_of s id)) _ e4 in
      (c, ground (arith, e5))

  pub claim_unallocated_reward-marks :
      claim_unallocated_reward s env info id ≡ ok (t, r) → (claimable_of t id).claimed ≡ true
  claim_unallocated_reward-marks e =
      let (c, saved) = claim_unallocated_reward-saves e in
      ground
        (arith, saved, lookup-insert id id (record c { claimed = true }) s.creator_claimable_reward)

  pub claim_unallocated_reward-creator :
      claim_unallocated_reward s env info id ≡ ok (t, r)
      → (schedule : RewardSchedule) × (lookup id s.reward_schedules ≡ some schedule)
        × (info.sender ≡ schedule.creator)
        × (schedule.end_block_time ≤ env.block_time)
  unfolding claim_unallocated_reward
  claim_unallocated_reward-creator e =
      let (schedule, e1, f1) =
        >>=-eq-ok (or_err (lookup id s.reward_schedules) (std not_found)) _ e in
      (schedule, or_err-eq-ok _ _ e1, ground arith, ground arith)
