-- ===== src/Staking/Rewards/Stakers.antt =====
-- How the stakers share what is distributed.
use native.Mathlib.Nat.{mul-le-mul_right}
use dexter_core.Prelude.{
  ℕ, ◌+◌, ◌*◌, ◌≤◌, ◌<◌, ◌≡◌, ◌==◌, Bool-cases, inl, inr, List, [], ◌∷◌, arith, ok, Result, All,
  ◌>>=◌, or_panic, or_err, >>=-eq-ok, or_panic-eq-ok, or_err-eq-ok,
}
use dexter_core.Chain.{overflow}
use dexter_core.Chain.Words.{add_u128, add_u128_eq}
use dexter_core.Chain.Decimal.{Decimal, scale, from_ratio_eq, mul_floor_eq, add_eq, sub_eq}
use dexter_core.Staking.State.{AssetRewardState, AssetStakerInfo, ContractError, std}
use dexter_core.Staking.Rewards.{compute_staker_reward, next_index}

-- Stakers of one LP token, each with the tokens that it has bonded.
abbrev pub Stakers : Type 0
Stakers = List (ℕ × AssetStakerInfo)

abbrev pub bonds : Stakers → ℕ
bonds [] = 0
bonds ((bonded, info) ∷ stakers) = bonded + bonds stakers

abbrev pub pendings : Stakers → ℕ
pendings [] = 0
pendings ((bonded, info) ∷ stakers) = info.pending_reward + pendings stakers

-- Every staker was last brought up to the index.
abbrev pub IsSettledAt : ℕ → Stakers → Type 0
IsSettledAt index = All (λ x. x.1.reward_index ≡ index)

module _ ⦃d : Decimal⦄ where
  -- `compute_staker_reward` for every staker.
  unfoldable pub settle : AssetRewardState → Stakers → Result ContractError Stakers
  settle state [] = ok []
  settle state ((bonded, info) ∷ stakers) = do
    info' ← compute_staker_reward bonded state info
    rest ← settle state stakers
    ok ((bonded, info') ∷ rest)

  -- A staker gets its bond times the growth of the index, rounded down, and is then up to date.
  pub compute_staker_reward_eq :
      (bonded : ℕ) (state : AssetRewardState) (info info' : AssetStakerInfo)
      → compute_staker_reward bonded state info ≡ ok info'
      → (growth : ℕ) × (gain : ℕ) × (state.reward_index ≡ info.reward_index + growth)
        × (gain * scale ≤ bonded * growth)
        × (bonded * growth < gain * scale + scale)
        × (info'.pending_reward ≡ info.pending_reward + gain)
        × (info'.reward_index ≡ state.reward_index)
        × (info'.asset ≡ info.asset)
  unfolding compute_staker_reward
  compute_staker_reward_eq bonded state info info' e =
      let (growth, e1, f1) =
        >>=-eq-ok (or_err (d.sub state.reward_index info.reward_index) (std overflow)) _ e in
      let (gain, e2, f2) = >>=-eq-ok (or_panic (d.mul_floor bonded growth)) _ f1 in
      let (total, e3, f3) =
        >>=-eq-ok (or_err (add_u128 info.pending_reward gain) (std overflow)) _ f2 in
      let more = sub_eq d state.reward_index info.reward_index growth (or_err-eq-ok _ _ e1) in
      let (low, high) = mul_floor_eq d bonded growth gain (or_panic-eq-ok _ e2) in
      let (sum, _) = add_u128_eq info.pending_reward gain total (or_err-eq-ok _ _ e3) in
      (
        growth,
        gain,
        omega arith,
        low,
        high,
        ground (arith, f3, sum),
        ground (arith, f3),
        ground (arith, f3),
      )

  settle-le :
      (index share : ℕ) (state : AssetRewardState) (stakers settled : Stakers)
      → state.reward_index ≡ index + share
      → IsSettledAt index stakers
      → settle state stakers ≡ ok settled
      → (pendings settled * scale ≤ pendings stakers * scale + bonds stakers * share)
        × IsSettledAt state.reward_index settled
  unfolding settle
  settle-le index share state [] settled grown at e = ground arith
  settle-le index share state ((bonded, info) ∷ stakers) settled grown (here, at) e =
      let (info', e1, f1) = >>=-eq-ok (compute_staker_reward bonded state info) _ e in
      let (rest, e2, f2) = >>=-eq-ok (settle state stakers) _ f1 in
      let (growth, gain, grow_eq, gain_le, _, sum, up_to_date, _) =
        compute_staker_reward_eq bonded state info info' e1 in
      let same : growth ≡ share = omega arith in
      let low : gain * scale ≤ bonded * share = rw same at gain_le in
      let (ih, settled_rest) = settle-le index share state stakers rest grown at e2 in
      ground (arith, f2, ih, settled_rest, low, sum, up_to_date)

  pub next_index_eq :
      (total distributed index index' : ℕ)
      → next_index total distributed index ≡ ok index'
      → (share : ℕ) × (index' ≡ index + share) × (share * total ≤ distributed * scale)
  unfolding next_index
  next_index_eq total distributed index index' e = elim (Bool-cases (total == 0)) [
    | inl nothing ↦ (0, ground (arith, e, nothing), omega arith)
    | inr something ↦
        let (share, e1, f1) =
          >>=-eq-ok (or_panic (d.from_ratio distributed total)) _ (rw something at e) in
        let (_, low, _) = from_ratio_eq d distributed total share (or_panic-eq-ok _ e1) in
        (share, add_eq d index share index' (or_panic-eq-ok _ f1), low)
  ]

  -- When the index grows for an amount distributed among `total` bonded tokens, and the stakers,
  -- who were all up to date and have bonded at most that total, are settled, then their pending
  -- rewards together grow by at most the amount, and all are up to date.
  pub settle-next_index :
      (total distributed : ℕ) (state state' : AssetRewardState) (stakers settled : Stakers)
      → bonds stakers ≤ total
      → IsSettledAt state.reward_index stakers
      → next_index total distributed state.reward_index ≡ ok state'.reward_index
      → settle state' stakers ≡ ok settled
      → (pendings settled ≤ pendings stakers + distributed)
        × IsSettledAt state'.reward_index settled
  settle-next_index total distributed state state' stakers settled le at e f =
      let (share, grown, low) =
        next_index_eq total distributed state.reward_index state'.reward_index e in
      let (sum, up_to_date) =
        settle-le state.reward_index share state' stakers settled grown at f in
      let within : bonds stakers * share ≤ total * share = mul-le-mul_right share le in
      (omega arith, up_to_date)
