-- ===== src/Staking/Invariant/Untouched.antt =====
-- The messages on tokens and rewards change neither the settings nor the register of schedules.
use dexter_core.Prelude.{ℕ, ◌≡◌, Option, none, some, List, [], arith, ok, Ensures}
use dexter_core.Chain.{Addr, Response, Env, MessageInfo}
use dexter_core.Chain.Decimal.{Decimal}
use dexter_core.Staking.State.{Storage, TokenLock}
use dexter_core.Staking.Rewards.{withdraw_pending_reward, PostUpdate, update_all}
use dexter_core.Staking.Rewards.Frame.{Kept, update_all-Kept}
use dexter_core.Staking.Bond.{bond, withdraw, bonded_of, global_of}
use dexter_core.Staking.Unbond.{unbond, instant_unbond}
use dexter_core.Staking.Unlock.{unlock, instant_unlock}
use dexter_core.Staking.Schedules.{claim_unallocated_reward}

pub record SameSettings (s t : Storage) : Type 0 where
  pub config : t.config ≡ s.config
  pub lp_override_config : t.lp_override_config ≡ s.lp_override_config
  pub ownership_proposal : t.ownership_proposal ≡ s.ownership_proposal

pub record SameRegister (s t : Storage) : Type 0 where
  pub reward_schedule_id_count : t.reward_schedule_id_count ≡ s.reward_schedule_id_count
  pub lp_token_asset_reward_schedule :
      t.lp_token_asset_reward_schedule ≡ s.lp_token_asset_reward_schedule
  pub reward_schedules : t.reward_schedules ≡ s.reward_schedules

abbrev pub IsUntouched : Storage → Storage → Type 0
IsUntouched s t = SameSettings s t × SameRegister s t

module _ ⦃d : Decimal⦄ (s : Storage) (env : Env) (info : MessageInfo) (t : Storage)
    (r : Response) where
  -- The update of the rewards that each of these messages makes for a user.
  abbrev Updated : Addr → Addr → Option PostUpdate → Type 0
  Updated lp_token user operation =
      let global = global_of s lp_token in
      Ensures
        (Kept lp_token user global.total_bond_amount (bonded_of s lp_token user) env.block_time
          operation (s, []))
        (update_all global.active_reward_assets lp_token user global.total_bond_amount
          (bonded_of s lp_token user) env.block_time operation (s, []))

  updated : (lp_token user : Addr) (operation : Option PostUpdate) → Updated lp_token user operation
  updated lp_token user operation =
      let global = global_of s lp_token in
      update_all-Kept lp_token user global.total_bond_amount (bonded_of s lp_token user)
        env.block_time operation global.active_reward_assets (s, [])

  pub bond-IsUntouched :
      (user lp_token : Addr) (amount : ℕ)
      → bond s env user lp_token amount ≡ ok (t, r)
      → IsUntouched s t
  unfolding bond
  bond-IsUntouched user lp_token amount e = ground (arith, updated lp_token user none)

  pub unbond-IsUntouched :
      (lp_token : Addr) (amount : Option ℕ)
      → unbond s env info lp_token amount ≡ ok (t, r)
      → IsUntouched s t
  unfolding unbond
  unbond-IsUntouched lp_token amount e = ground (arith, updated lp_token info.sender none)

  pub instant_unbond-IsUntouched :
      (lp_token : Addr) (amount : ℕ)
      → instant_unbond s env info lp_token amount ≡ ok (t, r)
      → IsUntouched s t
  unfolding instant_unbond
  instant_unbond-IsUntouched lp_token amount e = ground (arith, updated lp_token info.sender none)

  pub withdraw-IsUntouched :
      (lp_token : Addr) → withdraw s env info lp_token ≡ ok (t, r) → IsUntouched s t
  unfolding withdraw
  withdraw-IsUntouched lp_token e =
      ground (arith, updated lp_token info.sender (some withdraw_pending_reward))

  pub unlock-IsUntouched :
      (lp_token : Addr) → unlock s env info lp_token ≡ ok (t, r) → IsUntouched s t
  unfolding unlock
  unlock-IsUntouched lp_token e = ground arith

  pub instant_unlock-IsUntouched :
      (lp_token : Addr) (token_locks : List TokenLock)
      → instant_unlock s env info lp_token token_locks ≡ ok (t, r)
      → IsUntouched s t
  unfolding instant_unlock
  instant_unlock-IsUntouched lp_token token_locks e = ground arith

  pub claim_unallocated_reward-IsUntouched :
      (id : ℕ) → claim_unallocated_reward s env info id ≡ ok (t, r) → IsUntouched s t
  unfolding claim_unallocated_reward
  claim_unallocated_reward-IsUntouched id e = ground arith
