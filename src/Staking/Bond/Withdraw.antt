-- ===== src/Staking/Bond/Withdraw.antt =====
-- What a withdrawal of the rewards leaves.
use dexter_core.Prelude.{ℕ, ◌≡◌, some, List, [], ◌∷◌, arith, ok, All, >>=-eq-ok, nat_eq, pair_eq}
use dexter_core.Prelude.Dict.{lookup, lookup-insert}
use dexter_core.Chain.{Addr, Response, Env, MessageInfo}
use dexter_core.Chain.Decimal.{Decimal}
use dexter_core.Asset.{AssetInfo, native_token, to_string}
use dexter_core.Staking.State.{Storage, LpGlobalState}
use dexter_core.Staking.Rewards.{
  update_all, update_staking_rewards, withdraw_pending_reward, accrue, staker_of,
}
use dexter_core.Staking.Bond.{withdraw, bonded_of}

-- Nothing of the asset is left to withdraw.
abbrev pub IsCleared : Storage → (lp_token user : Addr) → AssetInfo → Type 0
IsCleared s lp_token user asset = (staker_of s lp_token user asset).pending_reward ≡ 0

module _ ⦃d : Decimal⦄ (lp_token user : Addr) (total bonded now : ℕ) where
  -- An update that withdraws clears its asset, and leaves the other assets as they are.
  update-IsCleared :
      (asset other : AssetInfo) (s t : Storage) (r r' : Response)
      → update_staking_rewards asset lp_token user total bonded now
          (some withdraw_pending_reward)
          (s, r)
        ≡ ok (t, r')
      → IsCleared t lp_token user asset
        × (IsCleared s lp_token user other → IsCleared t lp_token user other)
  unfolding update_staking_rewards withdraw_pending_reward
  update-IsCleared asset other s t r r' e =
      let (x, e1, f1) = >>=-eq-ok (accrue s asset lp_token user total bonded now) _ e in
      let ((info, r''), e2, f2) = >>=-eq-ok (withdraw_pending_reward user lp_token x.1 r) _ f1 in
      let empty : info.pending_reward ≡ 0 = ground (arith, e2) in
      let stored = λ (name : ℕ).
        lookup-insert (lp_token, (user, to_string asset)) (lp_token, (user, name)) info
          s.asset_staker_info in
      (
        ground (arith, f2, empty, stored (to_string asset)),
        λ clear. ground (arith, f2, empty, clear, stored (to_string other)),
      )

  update_all-IsCleared :
      (assets : List AssetInfo) (other : AssetInfo) (s t : Storage) (r r' : Response)
      → update_all assets lp_token user total bonded now (some withdraw_pending_reward) (s, r)
        ≡ ok (t, r')
      → All (IsCleared t lp_token user) assets
        × (IsCleared s lp_token user other → IsCleared t lp_token user other)
  unfolding update_all
  update_all-IsCleared [] other s t r r' e = (tt, λ clear. ground (arith, e, clear))
  update_all-IsCleared (asset ∷ assets) other s t r r' e =
      let ((s', r''), e1, f1) =
        >>=-eq-ok
          (update_staking_rewards asset lp_token user total bonded now
            (some withdraw_pending_reward) (s, r))
          _ e in
      let step = update-IsCleared asset other s s' r r'' e1 in
      let (rest, still) = update_all-IsCleared assets other s' t r'' r' f1 in
      let (_, still_asset) = update_all-IsCleared assets asset s' t r'' r' f1 in
      ((still_asset step.0, rest), λ clear. still (step.1 clear))

-- A withdrawal that succeeds leaves the sender no pending reward in any of the reward assets of the
-- LP token.
pub withdraw-IsCleared :
    ⦃d : Decimal⦄ (s : Storage) (env : Env) (info : MessageInfo) (lp_token : Addr) (t : Storage)
    (r : Response) (global : LpGlobalState)
    → lookup lp_token s.lp_global_state ≡ some global
    → withdraw s env info lp_token ≡ ok (t, r)
    → All (IsCleared t lp_token info.sender) global.active_reward_assets
unfolding withdraw
withdraw-IsCleared s env info lp_token t r global stored e =
    let run : update_all global.active_reward_assets lp_token info.sender global.total_bond_amount
          (bonded_of s lp_token info.sender) env.block_time (some withdraw_pending_reward) (s, [])
        ≡ ok (t, r) =
      rw stored at e in
    (update_all-IsCleared lp_token info.sender global.total_bond_amount
      (bonded_of s lp_token info.sender) env.block_time global.active_reward_assets (native_token 0)
      s t [] r run).0
