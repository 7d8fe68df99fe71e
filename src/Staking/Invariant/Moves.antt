-- ===== src/Staking/Invariant/Moves.antt =====
-- The messages on tokens and rewards change none of the settings.
use dexter_core.Prelude.{
  ℕ, ◌≡◌, ◌==◌, nat_eq, Bool, true, false, arith, ok, >>=-eq-ok, guard, contains, String,
}
use dexter_core.Chain.{Addr, Response, Env, MessageInfo}
use dexter_core.Chain.Decimal.{Decimal}
use dexter_core.Asset.{Asset}
use dexter_core.Ownership.{addr_validate}
use dexter_core.Staking.State.{
  Storage, lift_std, unauthorized, cw20_token_not_allowed, next_reward_schedule_id,
}
use dexter_core.Staking.Bond.{bond}
use dexter_core.Staking.Schedules.{create_reward_schedule}
use dexter_core.Staking.Admin.{only_owner}
use dexter_core.Staking.Execute.{
  ExecuteMsg, Cw20HookMsg, Cw20ReceiveMsg, hook_bond, hook_create_reward_schedule, malformed,
  receive, create_schedule, bond_tokens, unbond_tokens, instant_unbond_tokens, unlock_tokens,
  instant_unlock_tokens, withdraw_rewards, claim_unallocated, execute, receive_cw20, receive_hook,
  sent_coin, address_or,
}
use dexter_core.Staking.Invariant.Untouched.{
  SameSettings, bond-IsUntouched, unbond-IsUntouched, instant_unbond-IsUntouched,
  withdraw-IsUntouched, unlock-IsUntouched, instant_unlock-IsUntouched,
  claim_unallocated_reward-IsUntouched,
}

-- Is the message one on the settings?
abbrev pub is_setting : ExecuteMsg → Bool
is_setting (receive m) = false
is_setting (create_schedule lp_token title creator start end) = false
is_setting (bond_tokens lp_token amount) = false
is_setting (unbond_tokens lp_token amount) = false
is_setting (instant_unbond_tokens lp_token amount) = false
is_setting (unlock_tokens lp_token) = false
is_setting (instant_unlock_tokens lp_token locks) = false
is_setting (withdraw_rewards lp_token) = false
is_setting (claim_unallocated id) = false
is_setting other = true

module _ ⦃d : Decimal⦄ (s : Storage) (env : Env) (info : MessageInfo) (t : Storage)
    (r : Response) where
  create_reward_schedule-SameSettings :
      (lp_token : Addr) (title : String) (start end : ℕ) (creator : Addr) (asset : Asset)
      → create_reward_schedule s env lp_token title start end creator asset ≡ ok (t, r)
      → SameSettings s t
  unfolding create_reward_schedule next_reward_schedule_id
  create_reward_schedule-SameSettings lp_token title start end creator asset e = ground arith

  hook-SameSettings :
      (m : Cw20ReceiveMsg) (hook : Cw20HookMsg)
      → receive_hook s env info m hook ≡ ok (t, r)
      → SameSettings s t
  unfolding receive_hook
  hook-SameSettings m (hook_bond beneficiary_user) e =
      let (sender, _, e1) = >>=-eq-ok (lift_std (addr_validate env m.sender)) _ e in
      let (user, _, e2) = >>=-eq-ok (address_or env beneficiary_user sender) _ e1 in
      (bond-IsUntouched s env info t r user info.sender m.amount e2).0
  hook-SameSettings m (hook_create_reward_schedule lp_token title creator start end) e =
      let (sender, _, e1) = >>=-eq-ok (lift_std (addr_validate env m.sender)) _ e in
      let (_, _, e2) = >>=-eq-ok (guard (sender == s.config.owner) unauthorized) _ e1 in
      let (_, _, e3) =
        >>=-eq-ok
          (guard (contains s.config.allowed_reward_cw20_tokens info.sender) cw20_token_not_allowed)
          _ e2 in
      let (who, _, e4) = >>=-eq-ok (address_or env creator sender) _ e3 in
      create_reward_schedule-SameSettings lp_token title start end who _ e4
  hook-SameSettings m malformed e = cc

  pub execute-SameSettings :
      (msg : ExecuteMsg)
      → is_setting msg ≡ false
      → execute s env info msg ≡ ok (t, r)
      → SameSettings s t
  unfolding execute receive_cw20
  execute-SameSettings (receive m) no_setting e = hook-SameSettings m m.msg e
  execute-SameSettings (create_schedule lp_token title creator start end) no_setting e =
      let (_, _, e1) = >>=-eq-ok (only_owner s info) _ e in
      let (coin, _, e2) = >>=-eq-ok (sent_coin info.funds) _ e1 in
      let (who, _, e3) = >>=-eq-ok (address_or env creator info.sender) _ e2 in
      create_reward_schedule-SameSettings lp_token title start end who _ e3
  execute-SameSettings (bond_tokens lp_token amount) no_setting e =
      let (p, bonded, e1) = >>=-eq-ok (bond s env info.sender lp_token amount) _ e in
      ground (arith, e1, bond-IsUntouched s env info p.0 p.1 info.sender lp_token amount bonded)
  execute-SameSettings (unbond_tokens lp_token amount) no_setting e =
      (unbond-IsUntouched s env info t r lp_token amount e).0
  execute-SameSettings (instant_unbond_tokens lp_token amount) no_setting e =
      (instant_unbond-IsUntouched s env info t r lp_token amount e).0
  execute-SameSettings (unlock_tokens lp_token) no_setting e =
      (unlock-IsUntouched s env info t r lp_token e).0
  execute-SameSettings (instant_unlock_tokens lp_token locks) no_setting e =
      (instant_unlock-IsUntouched s env info t r lp_token locks e).0
  execute-SameSettings (withdraw_rewards lp_token) no_setting e =
      (withdraw-IsUntouched s env info t r lp_token e).0
  execute-SameSettings (claim_unallocated id) no_setting e =
      (claim_unallocated_reward-IsUntouched s env info t r id e).0
  execute-SameSettings _ setting e = cc
