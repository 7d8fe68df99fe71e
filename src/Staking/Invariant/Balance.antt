-- ===== src/Staking/Invariant/Balance.antt =====
-- The total that is stored for an LP token is the sum of what its users have bonded.
use dexter_core.Prelude.{
  ℕ, ◌≡◌, ◌==◌, nat_eq, some, [], arith, ok, >>=-eq-ok, guard, contains, String,
}
use dexter_core.Prelude.Dict.{lookup, lookup-insert, sum}
use dexter_core.Chain.{Addr, Response, Env, MessageInfo}
use dexter_core.Chain.Decimal.{Decimal}
use dexter_core.Asset.{Asset}
use dexter_core.Ownership.{addr_validate}
use dexter_core.Staking.State.{
  Storage, UnbondConfig, lift_std, unauthorized, cw20_token_not_allowed, next_reward_schedule_id,
}
use dexter_core.Staking.Rewards.{withdraw_pending_reward}
use dexter_core.Staking.Rewards.Frame.{update_all-Kept}
use dexter_core.Staking.Bond.{bond, withdraw, bonded_of, global_of}
use dexter_core.Staking.Unlock.{unlock, instant_unlock}
use dexter_core.Staking.Schedules.{create_reward_schedule, claim_unallocated_reward, activate}
use dexter_core.Staking.Admin
use dexter_core.Staking.Admin.{only_owner, instantiate}
use dexter_core.Staking.Execute.{
  ExecuteMsg, Cw20HookMsg, Cw20ReceiveMsg, hook_bond, hook_create_reward_schedule, malformed,
  receive, create_schedule, bond_tokens, unbond_tokens, instant_unbond_tokens, withdraw_rewards,
  execute, receive_cw20, receive_hook, sent_coin, address_or,
}
use dexter_core.Staking.Custody.{bonded_total}
use dexter_core.Staking.Custody.Bonds.{bond-total, unbond-total, instant_unbond-total}
use dexter_core.Staking.Invariant.{IsReachable, created, next}

abbrev pub IsBalanced : Addr → Storage → Type 0
IsBalanced l s = (global_of s l).total_bond_amount ≡ bonded_total l s

module _ ⦃d : Decimal⦄ (l : Addr) (s : Storage) (env : Env) (info : MessageInfo) (t : Storage)
    (r : Response) (h : IsBalanced l s) where
  create_reward_schedule-IsBalanced :
      (lp_token : Addr) (title : String) (start end : ℕ) (creator : Addr) (asset : Asset)
      → create_reward_schedule s env lp_token title start end creator asset ≡ ok (t, r)
      → IsBalanced l t
  unfolding create_reward_schedule bonded_total next_reward_schedule_id
  create_reward_schedule-IsBalanced lp_token title start end creator asset e = ground (
    arith,
    lookup-insert lp_token l (activate asset.info (global_of s lp_token)) s.lp_global_state,
  )

  hook-IsBalanced :
      (m : Cw20ReceiveMsg) (hook : Cw20HookMsg)
      → receive_hook s env info m hook ≡ ok (t, r)
      → IsBalanced l t
  unfolding receive_hook
  hook-IsBalanced m (hook_bond beneficiary_user) e =
      let (sender, _, e1) = >>=-eq-ok (lift_std (addr_validate env m.sender)) _ e in
      let (user, _, e2) = >>=-eq-ok (address_or env beneficiary_user sender) _ e1 in
      bond-total l s env user info.sender m.amount t r e2 h
  hook-IsBalanced m (hook_create_reward_schedule lp_token title creator start end) e =
      let (sender, _, e1) = >>=-eq-ok (lift_std (addr_validate env m.sender)) _ e in
      let (_, _, e2) = >>=-eq-ok (guard (sender == s.config.owner) unauthorized) _ e1 in
      let (_, _, e3) =
        >>=-eq-ok
          (guard (contains s.config.allowed_reward_cw20_tokens info.sender) cw20_token_not_allowed)
          _ e2 in
      let (who, _, e4) = >>=-eq-ok (address_or env creator sender) _ e3 in
      create_reward_schedule-IsBalanced lp_token title start end who _ e4
  hook-IsBalanced m malformed e = cc

  pub execute-IsBalanced : (msg : ExecuteMsg) → execute s env info msg ≡ ok (t, r) → IsBalanced l t
  unfolding execute receive_cw20 withdraw claim_unallocated_reward unlock instant_unlock
      Admin.update_config Admin.set_custom_unbond_config Admin.unset_custom_unbond_config
      Admin.allow_lp_token Admin.remove_lp_token Admin.allow_reward_cw20_token
      Admin.remove_reward_cw20_token Admin.propose_owner Admin.drop_proposal Admin.claim_owner
      bonded_total
  execute-IsBalanced (bond_tokens lp_token amount) e =
      let (p, bonded, e1) = >>=-eq-ok (bond s env info.sender lp_token amount) _ e in
      ground (arith, e1, bond-total l s env info.sender lp_token amount p.0 p.1 bonded h)
  execute-IsBalanced (receive m) e = hook-IsBalanced m m.msg e
  execute-IsBalanced (unbond_tokens lp_token amount) e =
      unbond-total l s env info lp_token t r amount e h
  execute-IsBalanced (instant_unbond_tokens lp_token amount) e =
      instant_unbond-total l s env info lp_token t r amount e h
  execute-IsBalanced (withdraw_rewards lp_token) e = ground (
    arith,
    update_all-Kept lp_token info.sender (global_of s lp_token).total_bond_amount
        (bonded_of s lp_token info.sender) env.block_time (some withdraw_pending_reward)
        (global_of s lp_token).active_reward_assets (s, []),
  )
  execute-IsBalanced (create_schedule lp_token title creator start end) e =
      let (_, _, e1) = >>=-eq-ok (only_owner s info) _ e in
      let (coin, _, e2) = >>=-eq-ok (sent_coin info.funds) _ e1 in
      let (who, _, e3) = >>=-eq-ok (address_or env creator info.sender) _ e2 in
      create_reward_schedule-IsBalanced lp_token title start end who _ e3
  execute-IsBalanced _ e = ground arith

instantiate-IsBalanced :
    (l : Addr) (env : Env) (owner keeper_addr : Addr) (c : UnbondConfig) (s : Storage)
    → instantiate env owner keeper_addr c ≡ ok s
    → IsBalanced l s
unfolding instantiate bonded_total sum lookup
instantiate-IsBalanced l env owner keeper_addr c s e = ground arith

-- In every state that the contract reaches, the total that is stored for an LP token is the sum of
-- what all users have bonded of it.
pub IsReachable-IsBalanced : ⦃d : Decimal⦄ (l : Addr) {s : Storage} → IsReachable s → IsBalanced l s
IsReachable-IsBalanced l (created env owner keeper_addr c {s = s} e) =
    instantiate-IsBalanced l env owner keeper_addr c s e
IsReachable-IsBalanced l (next {s = s} {t = t} env info msg r h e) =
    execute-IsBalanced l s env info t r (IsReachable-IsBalanced l h) msg e
