-- ===== src/Staking/Invariant/Authority.antt =====
-- Who may change the settings.
use dexter_core.Prelude.{◌≤◌, ◌≡◌, refl, ◌⊎◌, inl, inr, some, none, Option-cases, arith, ok}
use dexter_core.Chain.{Response, Env, MessageInfo}
use dexter_core.Chain.Decimal.{Decimal}
use dexter_core.Ownership.{OwnershipProposal, claim_ownership}
use dexter_core.Staking.State.{Storage}
use dexter_core.Staking.Admin
use dexter_core.Staking.Execute
use dexter_core.Staking.Execute.{ExecuteMsg, execute}
use dexter_core.Staking.Invariant.Untouched.{SameSettings}
use dexter_core.Staking.Invariant.Moves.{execute-SameSettings}

-- The sender takes over the ownership that was proposed to it, in time, and nothing else changes.
pub record IsHandover (s : Storage) (env : Env) (info : MessageInfo) (t : Storage) : Type 0 where
  pub proposal : OwnershipProposal
  pub proposed : s.ownership_proposal ≡ some proposal
  pub proposed_to_sender : info.sender ≡ proposal.owner
  pub in_time : env.block_time ≤ proposal.ttl
  pub handed_over :
      t ≡ record s { ownership_proposal = none; config = record (s.config) { owner = info.sender } }

module _ ⦃d : Decimal⦄ (s : Storage) (env : Env) (info : MessageInfo) (t : Storage)
    (r : Response) where
  claim_owner-IsHandover : Admin.claim_owner s env info ≡ ok (t, r) → IsHandover s env info t
  unfolding Admin.claim_owner claim_ownership
  claim_owner-IsHandover e = elim (Option-cases s.ownership_proposal) [
    | inl missing ↦ ground arith
    | inr (p, stored) ↦ record {
      proposal = p;
      proposed = stored;
      proposed_to_sender = ground arith;
      in_time = ground arith;
      handed_over = ground arith;
    }
  ]

  -- A message that succeeds leaves the settings (the configuration, the custom unbonding
  -- configurations and the ownership proposal) as they are, or comes from the owner, or is the
  -- handover of the ownership to its sender, to whom it was proposed and not yet expired.
  pub execute-authority :
      (msg : ExecuteMsg)
      → execute s env info msg ≡ ok (t, r)
      → SameSettings s t ⊎ ((info.sender ≡ s.config.owner) ⊎ IsHandover s env info t)
  unfolding execute Admin.update_config Admin.set_custom_unbond_config
      Admin.unset_custom_unbond_config Admin.allow_lp_token Admin.remove_lp_token
      Admin.allow_reward_cw20_token Admin.remove_reward_cw20_token Admin.propose_owner
      Admin.drop_proposal
  execute-authority (Execute.update_config keeper c) e = inr (inl (ground arith))
  execute-authority (Execute.set_custom_unbond_config lp_token c) e = inr (inl (ground arith))
  execute-authority (Execute.unset_custom_unbond_config lp_token) e = inr (inl (ground arith))
  execute-authority (Execute.allow_lp_token lp_token) e = inr (inl (ground arith))
  execute-authority (Execute.remove_lp_token lp_token) e = inr (inl (ground arith))
  execute-authority (Execute.allow_reward_cw20_token a) e = inr (inl (ground arith))
  execute-authority (Execute.remove_reward_cw20_token a) e = inr (inl (ground arith))
  execute-authority (Execute.propose_new_owner owner expires_in) e = inr (inl (ground arith))
  execute-authority Execute.drop_ownership_proposal e = inr (inl (ground arith))
  execute-authority Execute.claim_ownership e = inr (inr (claim_owner-IsHandover e))
  execute-authority msg e = inl (execute-SameSettings s env info t r msg refl e)
