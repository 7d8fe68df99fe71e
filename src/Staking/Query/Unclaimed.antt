-- ===== src/Staking/Query/Unclaimed.antt =====
-- The query of the unclaimed rewards, against the withdrawal.
use dexter_core.Prelude.{
  ℕ, ◌≡◌, refl, ◌∙◌, ◌==◌, ltb, false, none, some, List, [], ◌∷◌, ◌++◌, arith, ok, if◌then◌else◌,
  All, >>=-eq-ok, nat_eq, pair_eq,
}
use dexter_core.Prelude.Dict.{lookup, lookup-insert}
use dexter_core.Chain.{Addr, Response, Env, MessageInfo, CosmosMsg, bank_send, cw20_transfer}
use dexter_core.Chain.Decimal.{Decimal}
use dexter_core.Asset.{AssetInfo, token, native_token, to_string}
use dexter_core.Staking.State.{
  Storage, AssetRewardState, AssetStakerInfo, UnclaimedReward, LpGlobalState,
}
use dexter_core.Staking.Rewards.{
  Claims, compute_staker_reward, staker_of, accrue, update_staking_rewards, update_all,
  withdraw_pending_reward,
}
use dexter_core.Staking.Rewards.Agreement.{Agrees, accrue-same}
use dexter_core.Staking.Bond.{withdraw, bonded_of}
use dexter_core.Staking.Query.{unclaimed_of, query_unclaimed_rewards}

abbrev transfer : AssetInfo → Addr → ℕ → CosmosMsg
transfer (native_token denom) user amount = bank_send user denom amount
transfer (token contract_addr) user amount = cw20_transfer contract_addr user amount

abbrev reward_of : AssetInfo → ℕ → UnclaimedReward
reward_of asset amount = record { asset = asset; amount = amount }

-- The messages that pay the rewards.
abbrev pub payouts : Addr → List UnclaimedReward → Response
payouts user [] = []
payouts user (reward ∷ rewards) = transfer reward.asset user reward.amount ∷ payouts user rewards

payouts-append :
    (user : Addr) (a : List UnclaimedReward) (reward : UnclaimedReward)
    → payouts user (a ++ reward ∷ [])
      ≡ payouts user a ++ transfer reward.asset user reward.amount ∷ []
payouts-append user [] reward = refl
payouts-append user (x ∷ a) reward = rw (payouts-append user a reward) refl

-- No two assets have the same name.
abbrev pub IsDistinct : List AssetInfo → Type 0
IsDistinct [] = Unit
IsDistinct (asset ∷ assets) =
    All (λ other. (to_string asset == to_string other) ≡ false) assets × IsDistinct assets

-- The stored information of the staker is that of the asset by whose name it is stored.
abbrev pub IsOwn : Storage → (lp_token user : Addr) → AssetInfo → Type 0
IsOwn s lp_token user asset = (staker_of s lp_token user asset).asset ≡ asset

module _ ⦃d : Decimal⦄ where
  module _ (lp_token user : Addr) (total bonded now : ℕ) (s : Storage) where
    accrue-asset :
        (asset : AssetInfo) (x : AssetRewardState) (i : AssetStakerInfo) (a : Claims)
        → IsOwn s lp_token user asset
        → accrue s asset lp_token user total bonded now ≡ ok (x, i, a)
        → i.asset ≡ asset
    unfolding accrue compute_staker_reward
    accrue-asset asset x i a own e = ground (arith, own)

    update-pays :
        (asset : AssetInfo) (u t : Storage) (r r' : Response)
        → update_staking_rewards asset lp_token user total bonded now
            (some withdraw_pending_reward)
            (u, r)
          ≡ ok (t, r')
        → (x : AssetRewardState) × (i : AssetStakerInfo) × (a : Claims) × (accrue u asset lp_token
              user total bonded now
            ≡ ok (x, i, a))
          × (r' ≡ (
              if ltb 0 i.pending_reward
              then r ++ transfer i.asset user i.pending_reward ∷ []
              else r))
          × (t.lp_token_asset_reward_schedule ≡ u.lp_token_asset_reward_schedule)
          × (t.reward_schedules ≡ u.reward_schedules)
    unfolding update_staking_rewards withdraw_pending_reward
    update-pays asset u t r r' e =
        let ((x, i, a), e1, e2) = >>=-eq-ok (accrue u asset lp_token user total bonded now) _ e in
        (x, i, a, e1, ground arith, ground arith, ground arith)

    update-Agrees :
        (asset other : AssetInfo) (u t : Storage) (r r' : Response)
        → (to_string asset == to_string other) ≡ false
        → update_staking_rewards asset lp_token user total bonded now
            (some withdraw_pending_reward)
            (u, r)
          ≡ ok (t, r')
        → Agrees lp_token user total bonded now s u other
        → Agrees lp_token user total bonded now s t other
    unfolding update_staking_rewards
    update-Agrees asset other u t r r' apart e agree =
        let ((x, i, a), e1, e2) = >>=-eq-ok (accrue u asset lp_token user total bonded now) _ e in
        let ((i', r''), e3, e4) = >>=-eq-ok (withdraw_pending_reward user lp_token i r) _ e2 in
        record {
          staker = ground (
            arith,
            e4,
            agree.staker,
            lookup-insert (lp_token, (user, to_string asset)) (lp_token, (user, to_string other)) i'
                u.asset_staker_info,
          );
          state = ground (
            arith,
            e4,
            agree.state,
            lookup-insert (to_string asset, lp_token) (to_string other, lp_token) x
                u.asset_lp_reward_state,
          );
        }

    update-AllAgree :
        (asset : AssetInfo) (others : List AssetInfo) (u t : Storage) (r r' : Response)
        → All (λ other. (to_string asset == to_string other) ≡ false) others
        → update_staking_rewards asset lp_token user total bonded now
            (some withdraw_pending_reward)
            (u, r)
          ≡ ok (t, r')
        → All (Agrees lp_token user total bonded now s u) others
        → All (Agrees lp_token user total bonded now s t) others
    update-AllAgree asset [] u t r r' apart e agree = tt
    update-AllAgree asset (other ∷ others) u t r r' (apart, aparts) e (agree, agrees) = (
      update-Agrees asset other u t r r' apart e agree,
      update-AllAgree asset others u t r r' aparts e agrees,
    )

    update_all-pays :
        (assets : List AssetInfo) (u t : Storage) (r r' : Response)
        (found rewards : List UnclaimedReward)
        → u.lp_token_asset_reward_schedule ≡ s.lp_token_asset_reward_schedule
        → u.reward_schedules ≡ s.reward_schedules
        → All (Agrees lp_token user total bonded now s u) assets
        → All (IsOwn s lp_token user) assets
        → IsDistinct assets
        → r ≡ payouts user found
        → unclaimed_of s assets lp_token user total bonded now found ≡ ok rewards
        → update_all assets lp_token user total bonded now (some withdraw_pending_reward) (u, r)
          ≡ ok (t, r')
        → r' ≡ payouts user rewards
    unfolding unclaimed_of update_all
    update_all-pays [] u t r r' found rewards lists stored agree own apart paid e f =
        ground (arith, e, f, paid)
    update_all-pays (asset ∷ assets) u t r r' found rewards lists stored (agree, agrees) (own, owns)
          (apart, aparts) paid e f =
        let ((x, i, a), e1, e2) = >>=-eq-ok (accrue s asset lp_token user total bonded now) _ e in
        let ((u', q), f1, f2) =
          >>=-eq-ok
            (update_staking_rewards asset lp_token user total bonded now
              (some withdraw_pending_reward) (u, r))
            _ f in
        let (y, j, b, f3, sent, lists', stored') = update-pays asset u u' r q f1 in
        let same =
          accrue-same lp_token user total bonded now s u asset x y i j a b lists stored agree e1
            f3 in
        let named = accrue-asset asset x i a own e1 in
        let found' =
          if ltb 0 i.pending_reward
          then found ++ reward_of asset i.pending_reward ∷ []
          else found in
        update_all-pays assets u' t q r' found' rewards (lists' ∙ lists) (stored' ∙ stored)
          (update-AllAgree asset assets u u' r q apart f1 agrees) owns aparts
          (ground (
            arith,
            sent,
            same,
            named,
            paid,
            payouts-append user found (reward_of asset i.pending_reward),
          ))
          e2 f2

  self-Agrees :
      (lp_token user : Addr) (total bonded now : ℕ) (s : Storage) (assets : List AssetInfo)
      → All (Agrees lp_token user total bonded now s s) assets
  self-Agrees lp_token user total bonded now s [] = tt
  self-Agrees lp_token user total bonded now s (asset ∷ assets) =
      (record { staker = refl; state = refl }, self-Agrees lp_token user total bonded now s assets)

  -- When both the query of a user's unclaimed rewards at the time of the block and the user's
  -- withdrawal succeed, the withdrawal sends exactly the rewards that the query answers. This is for an
  -- LP token whose reward assets have different names, under which the user's information is stored
  -- for that very asset.
  pub withdraw-query_unclaimed_rewards :
      (s : Storage) (env : Env) (info : MessageInfo) (lp_token : Addr) (t : Storage) (r : Response)
      (global : LpGlobalState) (rewards : List UnclaimedReward)
      → lookup lp_token s.lp_global_state ≡ some global
      → IsDistinct global.active_reward_assets
      → All (IsOwn s lp_token info.sender) global.active_reward_assets
      → query_unclaimed_rewards s env lp_token info.sender none ≡ ok rewards
      → withdraw s env info lp_token ≡ ok (t, r)
      → r ≡ payouts info.sender rewards
  unfolding withdraw query_unclaimed_rewards
  withdraw-query_unclaimed_rewards s env info lp_token t r global rewards stored distinct own e f =
      let assets = global.active_reward_assets in
      let total = global.total_bond_amount in
      let bonded = bonded_of s lp_token info.sender in
      let now = env.block_time in
      let answered : unclaimed_of s assets lp_token info.sender total bonded now [] ≡ ok rewards =
        ground (arith, e, stored) in
      let run : update_all assets lp_token info.sender total bonded now
            (some withdraw_pending_reward) (s, [])
          ≡ ok (t, r) =
        rw stored at f in
      update_all-pays lp_token info.sender total bonded now s assets s t [] r [] rewards refl refl
        (self-Agrees lp_token info.sender total bonded now s assets) own distinct refl answered run
