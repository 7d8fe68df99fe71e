-- ===== src/Staking/Invariant/Settings.antt =====
-- The settings stay valid: unbonding configurations, and the list of allowed LP tokens.
use dexter_core.Prelude.{
  ◌≤◌, ◌≡◌, refl, ◌==◌, nat_eq, not, false, Option, some, List, [], ◌∷◌, ◌++◌, arith, ok, contains,
  count, count-append, length, length-append, length-filter, filter, Option-cases, inl, inr,
}
use dexter_core.Prelude.Dict.{lookup, lookup-insert, lookup-erase}
use dexter_core.Chain.{Addr, Response, Env, MessageInfo}
use dexter_core.Chain.Decimal.{Decimal}
use dexter_core.Staking.State.{Storage, UnbondConfig}
use dexter_core.Staking.Fees.{validate}
use dexter_core.Staking.Unbond.{unbond_config_of}
use dexter_core.Staking.Admin
use dexter_core.Staking.Admin.{only_owner, instantiate}
use dexter_core.Staking.Execute
use dexter_core.Staking.Execute.{
  ExecuteMsg, Cw20HookMsg, Cw20ReceiveMsg, hook_bond, hook_create_reward_schedule, malformed,
  receive, create_schedule, bond_tokens, unbond_tokens, instant_unbond_tokens, unlock_tokens,
  instant_unlock_tokens, withdraw_rewards, claim_unallocated, execute, receive_cw20, receive_hook,
  sent_coin, address_or,
}
use dexter_core.Staking.Invariant.{IsReachable, created, next}
use dexter_core.Staking.Invariant.Moves.{execute-SameSettings}
use dexter_core.Staking.Invariant.Untouched.{SameSettings}

pub record IsConfigured (s : Storage) : Type 0 where
  pub default_valid : validate s.config.unbond_config ≡ ok tt
  pub overrides_valid :
      (lp_token : Addr) (c : UnbondConfig)
      → lookup lp_token s.lp_override_config ≡ some c
      → validate c ≡ ok tt
  pub tokens_few : length s.config.allowed_lp_tokens ≤ 100_000
  pub tokens_once : (a : Addr) → count a s.config.allowed_lp_tokens ≤ 1

contains-count : (a : Addr) (xs : List Addr) → contains xs a ≡ false → count a xs ≡ 0
contains-count a [] h = refl
contains-count a (x ∷ xs) h = ground (arith, contains-count a xs)

count-filter : (a b : Addr) (xs : List Addr) → count a (filter (λ x. not (x == b)) xs) ≤ count a xs
count-filter a b [] = omega arith
count-filter a b (x ∷ xs) = ground (arith, count-filter a b xs)

same-IsConfigured : (s t : Storage) → SameSettings s t → IsConfigured s → IsConfigured t
same-IsConfigured s t same h = record {
  default_valid = rw same.config h.default_valid;
  overrides_valid = λ k c e. h.overrides_valid k c (rw same.lp_override_config at e);
  tokens_few = rw same.config h.tokens_few;
  tokens_once = λ a. rw same.config (h.tokens_once a);
}

module _ ⦃d : Decimal⦄ (s : Storage) (env : Env) (info : MessageInfo) (t : Storage)
    (r : Response) where
  allowed-IsConfigured :
      (allowed : List Addr)
      → IsConfigured s
      → length allowed ≤ 100_000
      → ((a : Addr) → count a allowed ≤ 1)
      → t ≡ Admin.with_config s (record (s.config) { allowed_lp_tokens = allowed })
      → IsConfigured t
  allowed-IsConfigured allowed h few once e = rw e (record {
    default_valid = h.default_valid;
    overrides_valid = h.overrides_valid;
    tokens_few = few;
    tokens_once = once;
  })

  update_config-IsConfigured :
      (keeper : Option Addr) (c : Option UnbondConfig)
      → IsConfigured s
      → Admin.update_config s env info keeper c ≡ ok (t, r)
      → IsConfigured t
  unfolding Admin.update_config
  update_config-IsConfigured keeper c h e = record {
    default_valid = ground (arith, h.default_valid);
    overrides_valid = λ k c' e'. ground (arith, h.overrides_valid k c');
    tokens_few = ground (arith, h.tokens_few);
    tokens_once = λ a. ground (arith, h.tokens_once a);
  }

  set_custom_unbond_config-IsConfigured :
      (lp_token : Addr) (c : UnbondConfig)
      → IsConfigured s
      → Admin.set_custom_unbond_config s info lp_token c ≡ ok (t, r)
      → IsConfigured t
  unfolding Admin.set_custom_unbond_config
  set_custom_unbond_config-IsConfigured lp_token c h e = record {
    default_valid = ground (arith, h.default_valid);
    overrides_valid = λ k c' e'.
        ground (arith, h.overrides_valid k c', lookup-insert lp_token k c s.lp_override_config);
    tokens_few = ground (arith, h.tokens_few);
    tokens_once = λ a. ground (arith, h.tokens_once a);
  }

  unset_custom_unbond_config-IsConfigured :
      (lp_token : Addr)
      → IsConfigured s
      → Admin.unset_custom_unbond_config s info lp_token ≡ ok (t, r)
      → IsConfigured t
  unfolding Admin.unset_custom_unbond_config
  unset_custom_unbond_config-IsConfigured lp_token h e = record {
    default_valid = ground (arith, h.default_valid);
    overrides_valid = λ k c' e'.
        ground (arith, h.overrides_valid k c', lookup-erase lp_token k s.lp_override_config);
    tokens_few = ground (arith, h.tokens_few);
    tokens_once = λ a. ground (arith, h.tokens_once a);
  }

  allow_lp_token-IsConfigured :
      (lp_token : Addr)
      → IsConfigured s
      → Admin.allow_lp_token s env info lp_token ≡ ok (t, r)
      → IsConfigured t
  unfolding Admin.allow_lp_token
  allow_lp_token-IsConfigured lp_token h e =
      let old = s.config.allowed_lp_tokens in
      allowed-IsConfigured (old ++ lp_token ∷ []) h
        (ground (arith, h.tokens_few, length-append old (lp_token ∷ [])))
        (λ a.
          ground (
            arith,
            h.tokens_once a,
            count-append a old (lp_token ∷ []),
            contains-count lp_token old,
          ))
        (ground arith)

  remove_lp_token-IsConfigured :
      (lp_token : Addr)
      → IsConfigured s
      → Admin.remove_lp_token s info lp_token ≡ ok (t, r)
      → IsConfigured t
  unfolding Admin.remove_lp_token
  remove_lp_token-IsConfigured lp_token h e =
      let old = s.config.allowed_lp_tokens in
      allowed-IsConfigured (filter (λ x. not (x == lp_token)) old) h
        (omega (arith, h.tokens_few, length-filter (λ x. not (x == lp_token)) old))
        (λ a. omega (arith, h.tokens_once a, count-filter a lp_token old)) (ground arith)

  -- The messages that change no unbonding configuration and no allowed LP token.
  other-IsConfigured :
      t.config.unbond_config ≡ s.config.unbond_config
      → t.config.allowed_lp_tokens ≡ s.config.allowed_lp_tokens
      → t.lp_override_config ≡ s.lp_override_config
      → IsConfigured s
      → IsConfigured t
  other-IsConfigured same_default same_tokens same_overrides h = record {
    default_valid = rw same_default h.default_valid;
    overrides_valid = λ k c e. h.overrides_valid k c (rw same_overrides at e);
    tokens_few = rw same_tokens h.tokens_few;
    tokens_once = λ a. rw same_tokens (h.tokens_once a);
  }

  -- Every message that succeeds keeps the settings valid.
  pub execute-IsConfigured :
      (msg : ExecuteMsg) → IsConfigured s → execute s env info msg ≡ ok (t, r) → IsConfigured t
  unfolding execute Admin.allow_reward_cw20_token Admin.remove_reward_cw20_token Admin.propose_owner
      Admin.drop_proposal Admin.claim_owner
  execute-IsConfigured (Execute.update_config keeper c) h e =
      update_config-IsConfigured keeper c h e
  execute-IsConfigured (Execute.set_custom_unbond_config lp_token c) h e =
      set_custom_unbond_config-IsConfigured lp_token c h e
  execute-IsConfigured (Execute.unset_custom_unbond_config lp_token) h e =
      unset_custom_unbond_config-IsConfigured lp_token h e
  execute-IsConfigured (Execute.allow_lp_token lp_token) h e =
      allow_lp_token-IsConfigured lp_token h e
  execute-IsConfigured (Execute.remove_lp_token lp_token) h e =
      remove_lp_token-IsConfigured lp_token h e
  execute-IsConfigured (Execute.allow_reward_cw20_token a) h e =
      other-IsConfigured (ground arith) (ground arith) (ground arith) h
  execute-IsConfigured (Execute.remove_reward_cw20_token a) h e =
      other-IsConfigured (ground arith) (ground arith) (ground arith) h
  execute-IsConfigured (Execute.propose_new_owner owner expires_in) h e =
      other-IsConfigured (ground arith) (ground arith) (ground arith) h
  execute-IsConfigured Execute.drop_ownership_proposal h e =
      other-IsConfigured (ground arith) (ground arith) (ground arith) h
  execute-IsConfigured Execute.claim_ownership h e =
      other-IsConfigured (ground arith) (ground arith) (ground arith) h
  execute-IsConfigured msg h e =
      same-IsConfigured s t (execute-SameSettings s env info t r msg refl e) h

instantiate-IsConfigured :
    (env : Env) (owner keeper_addr : Addr) (c : UnbondConfig) (s : Storage)
    → instantiate env owner keeper_addr c ≡ ok s
    → IsConfigured s
unfolding instantiate lookup
instantiate-IsConfigured env owner keeper_addr c s e = record {
  default_valid = ground arith;
  overrides_valid = λ k c' e'. ground arith;
  tokens_few = ground arith;
  tokens_once = λ a. ground arith;
}

configured : ⦃d : Decimal⦄ {s : Storage} → IsReachable s → IsConfigured s
configured (created env owner keeper_addr c {s = s} e) =
    instantiate-IsConfigured env owner keeper_addr c s e
configured (next {s = s} {t = t} env info msg r h e) =
    execute-IsConfigured s env info t r msg (configured h) e

-- In every state that the contract reaches, the unbonding configuration of every LP token passes
-- `validate`, at most 100 000 LP tokens are allowed, and none is allowed twice.
pub IsReachable-IsConfigured :
    ⦃d : Decimal⦄ {s : Storage} (lp_token : Addr)
    → IsReachable s
    → (validate (unbond_config_of s lp_token) ≡ ok tt)
      × (length s.config.allowed_lp_tokens ≤ 100_000)
      × (count lp_token s.config.allowed_lp_tokens ≤ 1)
IsReachable-IsConfigured {s = s} lp_token h =
    let c = configured h in
    (
      elim (Option-cases (lookup lp_token s.lp_override_config)) [
        | inl missing ↦ rw missing c.default_valid
        | inr (own, found) ↦ rw found (c.overrides_valid lp_token own found)
      ],
      c.tokens_few,
      c.tokens_once lp_token,
    )
