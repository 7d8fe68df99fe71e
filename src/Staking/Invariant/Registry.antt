-- ===== src/Staking/Invariant/Registry.antt =====
-- The register of reward schedules: every schedule that is listed for an asset is stored.
use dexter_core.Prelude.{
  ℕ, ◌<◌, ◌≡◌, refl, ◌==◌, ltb, Bool, true, false, Option, none, some, List, [], ◌∷◌, ◌++◌, arith,
  ok, >>=-eq-ok, guard, contains, String, nat_eq, pair_eq, unwrap_or, All, All-append, Bool-cases,
  Option-cases, inl, inr,
}
use dexter_core.Prelude.Dict.{lookup, insert, lookup-insert}
use dexter_core.Chain.{Addr, Response, Env, MessageInfo}
use dexter_core.Chain.Decimal.{Decimal}
use dexter_core.Asset.{Asset, AssetInfo, to_string}
use dexter_core.Ownership.{addr_validate}
use dexter_core.Staking.State.{
  Storage, RewardSchedule, UnbondConfig, lift_std, unauthorized, cw20_token_not_allowed,
  next_reward_schedule_id, invalid_block_times, invalid_start_block_time,
}
use dexter_core.Staking.Rewards.{load_schedules, schedule_ids}
use dexter_core.Staking.Rewards.Payout.{IsProper}
use dexter_core.Staking.Bond.{bond, global_of, check_if_lp_token_allowed}
use dexter_core.Staking.Schedules.{create_reward_schedule, activate}
use dexter_core.Staking.Admin
use dexter_core.Staking.Admin.{only_owner, instantiate}
use dexter_core.Staking.Execute.{
  ExecuteMsg, Cw20HookMsg, Cw20ReceiveMsg, hook_bond, hook_create_reward_schedule, malformed,
  receive, create_schedule, bond_tokens, unbond_tokens, instant_unbond_tokens, unlock_tokens,
  instant_unlock_tokens, withdraw_rewards, claim_unallocated, execute, receive_cw20, receive_hook,
  sent_coin, address_or,
}
use dexter_core.Staking.Invariant.{IsReachable, created, next}
use dexter_core.Staking.Invariant.Moves.{is_setting}
use dexter_core.Staking.Invariant.Untouched.{
  SameRegister, bond-IsUntouched, unbond-IsUntouched, instant_unbond-IsUntouched,
  withdraw-IsUntouched, unlock-IsUntouched, instant_unlock-IsUntouched,
  claim_unallocated_reward-IsUntouched,
}

-- Is a schedule stored that ends after it starts?
abbrev proper_at : Option RewardSchedule → Bool
proper_at none = false
proper_at (some s) = ltb s.start_block_time s.end_block_time

abbrev AllStored : Storage → List ℕ → Type 0
AllStored s = All (λ id. proper_at (lookup id s.reward_schedules) ≡ true)

abbrev IsRegistered : Storage → Type 0
IsRegistered s =
    (key : Addr × ℕ) → AllStored s (unwrap_or (lookup key s.lp_token_asset_reward_schedule) [])

same-IsRegistered : (s t : Storage) → SameRegister s t → IsRegistered s → IsRegistered t
same-IsRegistered s t same h =
    λ key. rw (same.reward_schedules, same.lp_token_asset_reward_schedule) (h key)

AllStored-insert :
    (s t : Storage) (id : ℕ) (schedule : RewardSchedule) (ids : List ℕ)
    → schedule.start_block_time < schedule.end_block_time
    → t.reward_schedules ≡ insert id schedule s.reward_schedules
    → AllStored s ids
    → AllStored t ids
AllStored-insert s t id schedule [] proper e h = tt
AllStored-insert s t id schedule (j ∷ ids) proper e (here, rest) = (
  ground (arith, e, lookup-insert id j schedule s.reward_schedules),
  AllStored-insert s t id schedule ids proper e rest,
)

module _ (s : Storage) (env : Env) (t : Storage) (r : Response) (h : IsRegistered s) where
  create_reward_schedule_eq :
      (lp_token : Addr) (title : String) (start end : ℕ) (creator : Addr) (asset : Asset)
      → create_reward_schedule s env lp_token title start end creator asset ≡ ok (t, r)
      → (id : ℕ) × (schedule : RewardSchedule) × (schedule.start_block_time
          < schedule.end_block_time)
        × (t.reward_schedules ≡ insert id schedule s.reward_schedules)
        × (t.lp_token_asset_reward_schedule
            ≡ insert
                (lp_token, to_string asset.info)
                (schedule_ids s lp_token asset.info ++ id ∷ [])
                s.lp_token_asset_reward_schedule)
  unfolding create_reward_schedule next_reward_schedule_id
  create_reward_schedule_eq lp_token title start end creator asset e =
      let (_, _, e1) = >>=-eq-ok (check_if_lp_token_allowed s.config lp_token) _ e in
      let (_, _, e2) = >>=-eq-ok (guard (ltb start end) (invalid_block_times start end)) _ e1 in
      let (_, _, e3) =
        >>=-eq-ok (guard (ltb env.block_time start) (invalid_start_block_time start env.block_time))
          _ e2 in
      let global = activate asset.info (global_of s lp_token) in
      let ((id, s'), e4, e5) =
        >>=-eq-ok
          (next_reward_schedule_id
            (record s { lp_global_state = insert lp_token global s.lp_global_state }))
          _ e3 in
      let schedule : RewardSchedule = record {
        title = title;
        creator = creator;
        asset = asset.info;
        amount = asset.amount;
        staking_lp_token = lp_token;
        start_block_time = start;
        end_block_time = end;
      } in
      (id, schedule, ground arith, ground (arith, e4, e5), ground (arith, e4, e5))

  create_reward_schedule-IsRegistered :
      (lp_token : Addr) (title : String) (start end : ℕ) (creator : Addr) (asset : Asset)
      → create_reward_schedule s env lp_token title start end creator asset ≡ ok (t, r)
      → IsRegistered t
  create_reward_schedule-IsRegistered lp_token title start end creator asset e =
      let (id, schedule, proper, stored, listed) =
        create_reward_schedule_eq lp_token title start end creator asset e in
      let name : Addr × ℕ = (lp_token, to_string asset.info) in
      let ids = schedule_ids s lp_token asset.info ++ id ∷ [] in
      λ key.
        let found = lookup-insert name key ids s.lp_token_asset_reward_schedule in
        let keep = AllStored-insert s t id schedule in
        let new : proper_at (lookup id t.reward_schedules) ≡ true =
          ground (arith, stored, lookup-insert id id schedule s.reward_schedules) in
        elim (Bool-cases (pair_eq.beq name key)) [
          | inl same ↦
              rw (listed, found, same)
                (All-append (λ i. proper_at (lookup i t.reward_schedules) ≡ true)
                  (schedule_ids s lp_token asset.info) (id ∷ []) (keep _ proper stored (h name))
                  (new, tt))
          | inr other ↦ rw (listed, found, other) (keep _ proper stored (h key))
        ]

module _ ⦃d : Decimal⦄ (s : Storage) (env : Env) (info : MessageInfo) (t : Storage) (r : Response)
    (h : IsRegistered s) where
  hook-IsRegistered :
      (m : Cw20ReceiveMsg) (hook : Cw20HookMsg)
      → receive_hook s env info m hook ≡ ok (t, r)
      → IsRegistered t
  unfolding receive_hook
  hook-IsRegistered m (hook_bond beneficiary_user) e =
      let (sender, _, e1) = >>=-eq-ok (lift_std (addr_validate env m.sender)) _ e in
      let (user, _, e2) = >>=-eq-ok (address_or env beneficiary_user sender) _ e1 in
      same-IsRegistered s t (bond-IsUntouched s env info t r user info.sender m.amount e2).1 h
  hook-IsRegistered m (hook_create_reward_schedule lp_token title creator start end) e =
      let (sender, _, e1) = >>=-eq-ok (lift_std (addr_validate env m.sender)) _ e in
      let (_, _, e2) = >>=-eq-ok (guard (sender == s.config.owner) unauthorized) _ e1 in
      let (_, _, e3) =
        >>=-eq-ok
          (guard (contains s.config.allowed_reward_cw20_tokens info.sender) cw20_token_not_allowed)
          _ e2 in
      let (who, _, e4) = >>=-eq-ok (address_or env creator sender) _ e3 in
      create_reward_schedule-IsRegistered s env t r h lp_token title start end who _ e4
  hook-IsRegistered m malformed e = cc

  -- The messages on the settings.
  setting-SameRegister :
      (msg : ExecuteMsg)
      → is_setting msg ≡ true
      → execute s env info msg ≡ ok (t, r)
      → SameRegister s t
  unfolding execute Admin.update_config Admin.set_custom_unbond_config
      Admin.unset_custom_unbond_config Admin.allow_lp_token Admin.remove_lp_token
      Admin.allow_reward_cw20_token Admin.remove_reward_cw20_token Admin.propose_owner
      Admin.drop_proposal Admin.claim_owner
  setting-SameRegister _ setting e = ground arith

  execute-IsRegistered : (msg : ExecuteMsg) → execute s env info msg ≡ ok (t, r) → IsRegistered t
  unfolding execute receive_cw20
  execute-IsRegistered (receive m) e = hook-IsRegistered m m.msg e
  execute-IsRegistered (create_schedule lp_token title creator start end) e =
      let (_, _, e1) = >>=-eq-ok (only_owner s info) _ e in
      let (coin, _, e2) = >>=-eq-ok (sent_coin info.funds) _ e1 in
      let (who, _, e3) = >>=-eq-ok (address_or env creator info.sender) _ e2 in
      create_reward_schedule-IsRegistered s env t r h lp_token title start end who _ e3
  execute-IsRegistered (bond_tokens lp_token amount) e =
      let (p, bonded, e1) = >>=-eq-ok (bond s env info.sender lp_token amount) _ e in
      let same = (bond-IsUntouched s env info p.0 p.1 info.sender lp_token amount bonded).1 in
      let moved : p.0 ≡ t = ground (arith, e1) in same-IsRegistered s t (rw moved at same) h
  execute-IsRegistered (unbond_tokens lp_token amount) e =
      same-IsRegistered s t (unbond-IsUntouched s env info t r lp_token amount e).1 h
  execute-IsRegistered (instant_unbond_tokens lp_token amount) e =
      same-IsRegistered s t (instant_unbond-IsUntouched s env info t r lp_token amount e).1 h
  execute-IsRegistered (unlock_tokens lp_token) e =
      same-IsRegistered s t (unlock-IsUntouched s env info t r lp_token e).1 h
  execute-IsRegistered (instant_unlock_tokens lp_token locks) e =
      same-IsRegistered s t (instant_unlock-IsUntouched s env info t r lp_token locks e).1 h
  execute-IsRegistered (withdraw_rewards lp_token) e =
      same-IsRegistered s t (withdraw-IsUntouched s env info t r lp_token e).1 h
  execute-IsRegistered (claim_unallocated id) e =
      same-IsRegistered s t (claim_unallocated_reward-IsUntouched s env info t r id e).1 h
  execute-IsRegistered msg e = same-IsRegistered s t (setting-SameRegister msg refl e) h

instantiate-IsRegistered :
    (env : Env) (owner keeper_addr : Addr) (c : UnbondConfig) (s : Storage)
    → instantiate env owner keeper_addr c ≡ ok s
    → IsRegistered s
unfolding instantiate lookup
instantiate-IsRegistered env owner keeper_addr c s e =
    λ key. let empty : s.lp_token_asset_reward_schedule ≡ [] = ground arith in rw empty tt

registered : ⦃d : Decimal⦄ {s : Storage} → IsReachable s → IsRegistered s
registered (created env owner keeper_addr c {s = s} e) =
    instantiate-IsRegistered env owner keeper_addr c s e
registered (next {s = s} {t = t} env info msg r h e) =
    execute-IsRegistered s env info t r (registered h) msg e

load_schedules_total :
    (s : Storage) (ids : List ℕ)
    → AllStored s ids
    → (schedules : List (ℕ × RewardSchedule)) × (load_schedules s ids ≡ ok schedules)
      × All IsProper schedules
unfolding load_schedules
load_schedules_total s [] h = ([], refl, tt)
load_schedules_total s (id ∷ ids) (here, rest) =
    let (schedules, loaded, proper) = load_schedules_total s ids rest in
    elim (Option-cases (lookup id s.reward_schedules)) [
      | inl missing ↦ ground (arith, here)
      | inr (schedule, found) ↦
          ((id, schedule) ∷ schedules, rw (found, loaded) refl, (ground (arith, here), proper))
    ]

-- In every state that the contract reaches, the schedules that are listed for an LP token and an
-- asset can all be loaded, and each of them ends after it starts.
pub IsReachable-load_schedules :
    ⦃d : Decimal⦄ {s : Storage} (lp_token : Addr) (asset : AssetInfo)
    → IsReachable s
    → (schedules : List (ℕ × RewardSchedule)) × (load_schedules s (schedule_ids s lp_token asset)
        ≡ ok schedules)
      × All IsProper schedules
IsReachable-load_schedules {s = s} lp_token asset h =
    load_schedules_total s (schedule_ids s lp_token asset)
      (registered h (lp_token, to_string asset))
