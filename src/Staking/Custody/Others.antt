-- ===== src/Staking/Custody/Others.antt =====
-- No message takes from another user.
use dexter_core.Prelude.{
  ℕ, ◌+◌, ◌-◌, ◌≤◌, ◌≡◌, ◌≢◌, ◌==◌, nat_eq, pair_eq, Option, none, some, List, [], ◌∷◌, ◌++◌, arith,
  ok, >>=-eq-ok, guard, contains, String, unwrap_or, Ensures,
}
use dexter_core.Prelude.Dict.{lookup-insert}
use dexter_core.Chain.{Addr, Response, Env, MessageInfo}
use dexter_core.Chain.Words.{add_u64, add_u128, checked_sub}
use dexter_core.Chain.Decimal.{Decimal}
use dexter_core.Asset.{Asset}
use dexter_core.Ownership.{addr_validate}
use dexter_core.Staking.State.{
  Storage, TokenLock, lift_std, unauthorized, cw20_token_not_allowed, next_reward_schedule_id,
}
use dexter_core.Staking.Locks.{find_lock_difference}
use dexter_core.Staking.Rewards.{withdraw_pending_reward, PostUpdate, update_all}
use dexter_core.Staking.Rewards.Frame.{Kept, update_all-Kept}
use dexter_core.Staking.Bond.{bond, withdraw, bonded_of, global_of}
use dexter_core.Staking.Unbond.{unbond, instant_unbond, locks_of, unbond_config_of}
use dexter_core.Staking.Unlock.{unlock, instant_unlock, pending}
use dexter_core.Staking.Schedules.{create_reward_schedule, claim_unallocated_reward}
use dexter_core.Staking.Admin
use dexter_core.Staking.Admin.{only_owner}
use dexter_core.Staking.Execute.{
  ExecuteMsg, Cw20HookMsg, Cw20ReceiveMsg, hook_bond, hook_create_reward_schedule, malformed,
  receive, create_schedule, bond_tokens, unbond_tokens, instant_unbond_tokens, unlock_tokens,
  instant_unlock_tokens, withdraw_rewards, claim_unallocated, execute, receive_cw20, receive_hook,
  sent_coin, address_or,
}

-- The user `who` has at least as much bonded of `l` as before, and the same locks.
abbrev pub Keeps : (l who : Addr) → Storage → Storage → Type 0
Keeps l who s t = (bonded_of s l who ≤ bonded_of t l who) × (locks_of t l who ≡ locks_of s l who)

module _ ⦃d : Decimal⦄ (l who : Addr) (s : Storage) (env : Env) (info : MessageInfo) (t : Storage)
    (r : Response) where
  abbrev Updated : Addr → Addr → Option PostUpdate → Type 0
  Updated lp_token user operation =
      let global = global_of s lp_token in
      Ensures
        (Kept lp_token user global.total_bond_amount (bonded_of s lp_token user) env.block_time
          operation (s, []))
        (update_all global.active_reward_assets lp_token user global.total_bond_amount
          (bonded_of s lp_token user) env.block_time operation (s, []))

  updated : (lp_token user : Addr) (operation : Option PostUpdate) → Updated lp_token user operation
  updated lp_token user operation =
      let global = global_of s lp_token in
      update_all-Kept lp_token user global.total_bond_amount (bonded_of s lp_token user)
        env.block_time operation global.active_reward_assets (s, [])

  bond-Keeps :
      (user lp_token : Addr) (amount : ℕ) (t' : Storage) (r' : Response)
      → bond s env user lp_token amount ≡ ok (t', r')
      → Keeps l who s t'
  unfolding bond add_u128
  bond-Keeps user lp_token amount t' r' e = ground (
    arith,
    updated lp_token user none,
    lookup-insert (lp_token, user) (l, who) (bonded_of s lp_token user + amount)
        s.user_bonded_lp_tokens,
  )

  create_reward_schedule-Keeps :
      (lp_token : Addr) (title : String) (start end : ℕ) (creator : Addr) (asset : Asset)
      → create_reward_schedule s env lp_token title start end creator asset ≡ ok (t, r)
      → Keeps l who s t
  unfolding create_reward_schedule next_reward_schedule_id
  create_reward_schedule-Keeps lp_token title start end creator asset e = ground arith

  hook-Keeps :
      (m : Cw20ReceiveMsg) (hook : Cw20HookMsg)
      → receive_hook s env info m hook ≡ ok (t, r)
      → Keeps l who s t
  unfolding receive_hook
  hook-Keeps m (hook_bond beneficiary_user) e =
      let (sender, _, e1) = >>=-eq-ok (lift_std (addr_validate env m.sender)) _ e in
      let (user, _, e2) = >>=-eq-ok (address_or env beneficiary_user sender) _ e1 in
      bond-Keeps user info.sender m.amount t r e2
  hook-Keeps m (hook_create_reward_schedule lp_token title creator start end) e =
      let (sender, _, e1) = >>=-eq-ok (lift_std (addr_validate env m.sender)) _ e in
      let (_, _, e2) = >>=-eq-ok (guard (sender == s.config.owner) unauthorized) _ e1 in
      let (_, _, e3) =
        >>=-eq-ok
          (guard (contains s.config.allowed_reward_cw20_tokens info.sender) cw20_token_not_allowed)
          _ e2 in
      let (creator', _, e4) = >>=-eq-ok (address_or env creator sender) _ e3 in
      create_reward_schedule-Keeps lp_token title start end creator' _ e4
  hook-Keeps m malformed e = cc

  unbond-Keeps :
      (lp_token : Addr) (amount : Option ℕ)
      → who ≢ info.sender
      → unbond s env info lp_token amount ≡ ok (t, r)
      → Keeps l who s t
  unfolding unbond add_u64 checked_sub
  unbond-Keeps lp_token amount other e =
      let x = unwrap_or amount (bonded_of s lp_token info.sender) in
      let lock : TokenLock = record {
        unlock_time = env.block_time + (unbond_config_of s lp_token).unlock_period;
        amount = x;
      } in
      ground (
        arith,
        updated lp_token info.sender none,
        lookup-insert (lp_token, info.sender) (l, who) (bonded_of s lp_token info.sender - x)
            s.user_bonded_lp_tokens,
        lookup-insert (lp_token, info.sender) (l, who)
            (locks_of s lp_token info.sender ++ lock ∷ []) s.user_lp_token_locks,
      )

  instant_unbond-Keeps :
      (lp_token : Addr) (amount : ℕ)
      → who ≢ info.sender
      → instant_unbond s env info lp_token amount ≡ ok (t, r)
      → Keeps l who s t
  unfolding instant_unbond checked_sub
  instant_unbond-Keeps lp_token amount other e = ground (
    arith,
    updated lp_token info.sender none,
    lookup-insert (lp_token, info.sender) (l, who) (bonded_of s lp_token info.sender - amount)
        s.user_bonded_lp_tokens,
  )

  unlock-Keeps :
      (lp_token : Addr)
      → who ≢ info.sender
      → unlock s env info lp_token ≡ ok (t, r)
      → Keeps l who s t
  unfolding unlock
  unlock-Keeps lp_token other e = ground (
    arith,
    lookup-insert (lp_token, info.sender) (l, who)
        (pending env.block_time (locks_of s lp_token info.sender)) s.user_lp_token_locks,
  )

  instant_unlock-Keeps :
      (lp_token : Addr) (locks : List TokenLock)
      → who ≢ info.sender
      → instant_unlock s env info lp_token locks ≡ ok (t, r)
      → Keeps l who s t
  unfolding instant_unlock
  instant_unlock-Keeps lp_token locks other e = ground (
    arith,
    lookup-insert (lp_token, info.sender) (l, who)
        (find_lock_difference (locks_of s lp_token info.sender) locks).0 s.user_lp_token_locks,
  )

  -- A message that succeeds takes no bonded token and no lock from a user who is not its sender: what
  -- the user has bonded of an LP token does not fall, and the user's locks stay the same.
  pub execute-Keeps :
      (msg : ExecuteMsg) → who ≢ info.sender → execute s env info msg ≡ ok (t, r) → Keeps l who s t
  unfolding execute receive_cw20 withdraw claim_unallocated_reward Admin.update_config
      Admin.set_custom_unbond_config Admin.unset_custom_unbond_config Admin.allow_lp_token
      Admin.remove_lp_token Admin.allow_reward_cw20_token Admin.remove_reward_cw20_token
      Admin.propose_owner Admin.drop_proposal Admin.claim_owner
  execute-Keeps (bond_tokens lp_token amount) other e =
      let (p, bonded, e1) = >>=-eq-ok (bond s env info.sender lp_token amount) _ e in
      ground (arith, e1, bond-Keeps info.sender lp_token amount p.0 p.1 bonded)
  execute-Keeps (receive m) other e = hook-Keeps m m.msg e
  execute-Keeps (unbond_tokens lp_token amount) other e = unbond-Keeps lp_token amount other e
  execute-Keeps (instant_unbond_tokens lp_token amount) other e =
      instant_unbond-Keeps lp_token amount other e
  execute-Keeps (unlock_tokens lp_token) other e = unlock-Keeps lp_token other e
  execute-Keeps (instant_unlock_tokens lp_token locks) other e =
      instant_unlock-Keeps lp_token locks other e
  execute-Keeps (withdraw_rewards lp_token) other e =
      ground (arith, updated lp_token info.sender (some withdraw_pending_reward))
  execute-Keeps (create_schedule lp_token title creator start end) other e =
      let (_, _, e1) = >>=-eq-ok (only_owner s info) _ e in
      let (coin, _, e2) = >>=-eq-ok (sent_coin info.funds) _ e1 in
      let (creator', _, e3) = >>=-eq-ok (address_or env creator info.sender) _ e2 in
      create_reward_schedule-Keeps lp_token title start end creator' _ e3
  execute-Keeps (claim_unallocated id) other e = ground arith
  execute-Keeps _ other e = ground arith
