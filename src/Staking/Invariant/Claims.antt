-- ===== src/Staking/Invariant/Claims.antt =====
-- A schedule's unallocated reward is claimed at most once, however the contract is used later.
use dexter_core.Prelude.{
  ℕ, ◌≤◌, ◌≡◌, ◌≢◌, ◌==◌, true, Option, none, some, [], arith, ok, >>=-eq-ok, guard, contains,
  String, nat_eq, Ensures, Ensures-of_eq,
}
use dexter_core.Prelude.Dict.{lookup}
use dexter_core.Chain.{Addr, Response, Env, MessageInfo}
use dexter_core.Chain.Decimal.{Decimal}
use dexter_core.Asset.{Asset}
use dexter_core.Ownership.{addr_validate}
use dexter_core.Staking.State.{
  Storage, RewardSchedule, lift_std, unauthorized, cw20_token_not_allowed, next_reward_schedule_id,
}
use dexter_core.Staking.Rewards.{update_all, withdraw_pending_reward, PostUpdate}
use dexter_core.Staking.Rewards.Claimed.{IsMarked, IsMarked-insert, update_all-IsMarked}
use dexter_core.Staking.Rewards.Creators.{
  claimed-rejected, claim_unallocated_reward-marks, claim_unallocated_reward-saves,
  claim_unallocated_reward-creator,
}
use dexter_core.Staking.Bond.{bond, withdraw, bonded_of, global_of}
use dexter_core.Staking.Unbond.{unbond, instant_unbond}
use dexter_core.Staking.Unlock.{unlock, instant_unlock}
use dexter_core.Staking.Schedules.{create_reward_schedule, claim_unallocated_reward}
use dexter_core.Staking.Admin
use dexter_core.Staking.Admin.{only_owner}
use dexter_core.Staking.Execute.{
  ExecuteMsg, Cw20HookMsg, Cw20ReceiveMsg, hook_bond, hook_create_reward_schedule, malformed,
  receive, create_schedule, bond_tokens, unbond_tokens, instant_unbond_tokens, withdraw_rewards,
  claim_unallocated, execute, receive_cw20, receive_hook, sent_coin, address_or,
}
use dexter_core.Staking.Invariant.{IsRun, stay, step}

module _ ⦃d : Decimal⦄ (id : ℕ) (s : Storage) (env : Env) (info : MessageInfo)
    (marked : IsMarked id s.creator_claimable_reward) where
  -- After the update of the rewards that each of these messages makes for a user.
  abbrev Updated : Addr → Addr → Option PostUpdate → Type 0
  Updated lp_token user operation =
      let global = global_of s lp_token in
      Ensures (λ p. IsMarked id p.0.creator_claimable_reward)
        (update_all global.active_reward_assets lp_token user global.total_bond_amount
          (bonded_of s lp_token user) env.block_time operation (s, []))

  updated : (lp_token user : Addr) (operation : Option PostUpdate) → Updated lp_token user operation
  updated lp_token user operation =
      let global = global_of s lp_token in
      let bonded = bonded_of s lp_token user in
      Ensures-of_eq _
        (update_all global.active_reward_assets lp_token user global.total_bond_amount bonded
          env.block_time operation (s, []))
        λ p e.
          update_all-IsMarked id global.active_reward_assets lp_token user global.total_bond_amount
            bonded env.block_time operation s p.0 [] p.1 marked e

  bond-IsMarked :
      (user lp_token : Addr) (amount : ℕ) (t : Storage) (r : Response)
      → bond s env user lp_token amount ≡ ok (t, r)
      → IsMarked id t.creator_claimable_reward
  unfolding bond
  bond-IsMarked user lp_token amount t r e = ground (arith, updated lp_token user none)

  module _ (t : Storage) (r : Response) where
    unbond-IsMarked :
        (lp_token : Addr) (amount : Option ℕ)
        → unbond s env info lp_token amount ≡ ok (t, r)
        → IsMarked id t.creator_claimable_reward
    unfolding unbond
    unbond-IsMarked lp_token amount e = ground (arith, updated lp_token info.sender none)

    instant_unbond-IsMarked :
        (lp_token : Addr) (amount : ℕ)
        → instant_unbond s env info lp_token amount ≡ ok (t, r)
        → IsMarked id t.creator_claimable_reward
    unfolding instant_unbond
    instant_unbond-IsMarked lp_token amount e = ground (arith, updated lp_token info.sender none)

    withdraw-IsMarked :
        (lp_token : Addr)
        → withdraw s env info lp_token ≡ ok (t, r)
        → IsMarked id t.creator_claimable_reward
    unfolding withdraw
    withdraw-IsMarked lp_token e =
        ground (arith, updated lp_token info.sender (some withdraw_pending_reward))

    claim-IsMarked :
        (j : ℕ)
        → claim_unallocated_reward s env info j ≡ ok (t, r)
        → IsMarked id t.creator_claimable_reward
    unfolding claim_unallocated_reward
    claim-IsMarked j e =
        let (c, e1) = claim_unallocated_reward-saves s env info j t r e in
        rw e1 (
          IsMarked-insert id j (record c { claimed = true }) s.creator_claimable_reward
            (ground arith) marked)

    create_reward_schedule-IsMarked :
        (lp_token : Addr) (title : String) (start end : ℕ) (creator : Addr) (asset : Asset)
        → create_reward_schedule s env lp_token title start end creator asset ≡ ok (t, r)
        → IsMarked id t.creator_claimable_reward
    unfolding create_reward_schedule next_reward_schedule_id
    create_reward_schedule-IsMarked lp_token title start end creator asset e =
        ground (arith, marked)

    hook-IsMarked :
        (m : Cw20ReceiveMsg) (hook : Cw20HookMsg)
        → receive_hook s env info m hook ≡ ok (t, r)
        → IsMarked id t.creator_claimable_reward
    unfolding receive_hook
    hook-IsMarked m (hook_bond beneficiary_user) e =
        let (sender, _, e1) = >>=-eq-ok (lift_std (addr_validate env m.sender)) _ e in
        let (user, _, e2) = >>=-eq-ok (address_or env beneficiary_user sender) _ e1 in
        bond-IsMarked user info.sender m.amount t r e2
    hook-IsMarked m (hook_create_reward_schedule lp_token title creator start end) e =
        let (sender, _, e1) = >>=-eq-ok (lift_std (addr_validate env m.sender)) _ e in
        let (_, _, e2) = >>=-eq-ok (guard (sender == s.config.owner) unauthorized) _ e1 in
        let (_, _, e3) =
          >>=-eq-ok
            (guard (contains s.config.allowed_reward_cw20_tokens info.sender)
              cw20_token_not_allowed)
            _ e2 in
        let (creator', _, e4) = >>=-eq-ok (address_or env creator sender) _ e3 in
        create_reward_schedule-IsMarked lp_token title start end creator' _ e4
    hook-IsMarked m malformed e = cc

    execute-IsMarked :
        (msg : ExecuteMsg)
        → execute s env info msg ≡ ok (t, r)
        → IsMarked id t.creator_claimable_reward
    unfolding execute receive_cw20 unlock instant_unlock Admin.update_config
        Admin.set_custom_unbond_config Admin.unset_custom_unbond_config Admin.allow_lp_token
        Admin.remove_lp_token Admin.allow_reward_cw20_token Admin.remove_reward_cw20_token
        Admin.propose_owner Admin.drop_proposal Admin.claim_owner
    execute-IsMarked (bond_tokens lp_token amount) e =
        let (p, bonded, e1) = >>=-eq-ok (bond s env info.sender lp_token amount) _ e in
        ground (arith, e1, bond-IsMarked info.sender lp_token amount p.0 p.1 bonded)
    execute-IsMarked (receive m) e = hook-IsMarked m m.msg e
    execute-IsMarked (unbond_tokens lp_token amount) e = unbond-IsMarked lp_token amount e
    execute-IsMarked (instant_unbond_tokens lp_token amount) e =
        instant_unbond-IsMarked lp_token amount e
    execute-IsMarked (withdraw_rewards lp_token) e = withdraw-IsMarked lp_token e
    execute-IsMarked (claim_unallocated j) e = claim-IsMarked j e
    execute-IsMarked (create_schedule lp_token title creator start end) e =
        let (_, _, e1) = >>=-eq-ok (only_owner s info) _ e in
        let (coin, _, e2) = >>=-eq-ok (sent_coin info.funds) _ e1 in
        let (creator', _, e3) = >>=-eq-ok (address_or env creator info.sender) _ e2 in
        create_reward_schedule-IsMarked lp_token title start end creator' _ e3
    execute-IsMarked _ e = ground (arith, marked)

run-IsMarked :
    ⦃d : Decimal⦄ (id : ℕ) {s t : Storage}
    → IsRun s t
    → IsMarked id s.creator_claimable_reward
    → IsMarked id t.creator_claimable_reward
run-IsMarked id stay marked = marked
run-IsMarked id (step {s = s} {t = t} env info msg r e run) marked =
    run-IsMarked id run (execute-IsMarked id s env info marked t r msg e)

-- A claim of an unallocated reward that succeeds is made by the creator of the schedule, when the
-- schedule has ended; and after it, whatever messages follow, no second claim of the schedule succeeds.
pub claim_unallocated_reward-once :
    ⦃d : Decimal⦄ (s : Storage) (env : Env) (info : MessageInfo) (id : ℕ) (t : Storage)
    (r : Response) (u : Storage) (later : Env) (sender : MessageInfo) (u' : Storage) (r' : Response)
    → claim_unallocated_reward s env info id ≡ ok (t, r)
    → IsRun t u
    → ((schedule : RewardSchedule) × (lookup id s.reward_schedules ≡ some schedule)
        × (info.sender ≡ schedule.creator)
        × (schedule.end_block_time ≤ env.block_time))
      × (claim_unallocated_reward u later sender id ≢ ok (u', r'))
claim_unallocated_reward-once s env info id t r u later sender u' r' e run = (
  claim_unallocated_reward-creator s env info id t r e,
  claimed-rejected u later sender id u' r'
      (run-IsMarked id run (claim_unallocated_reward-marks s env info id t r e)),
)
