-- ===== src/Ownership.antt =====
-- packages/dexter/src/helper.rs, lines 55 to 152: the handover of a contract's ownership in two
-- steps. The stored item is an `Option`; `save` is `some`, `remove` is `none`.
use dexter_core.Prelude.{
  ℕ, Option, none, Result, ok, ◌>>=◌, ◌>>◌, guard, or_err, or_panic, ltb, ◌==◌, not,
}
use dexter_core.Chain.{
  Addr, Name, Env, MessageInfo, StdError, invalid_addr, unauthorized, same_owner,
  proposal_not_found, proposal_expired,
}
use dexter_core.Chain.Words.{add_u64}

pub record OwnershipProposal : Type 0 where
  pub owner : Addr
  pub ttl : ℕ

-- `deps.api.addr_validate`: the address itself, if the string is one.
unfoldable pub addr_validate : Env → Name → Result StdError Addr
addr_validate env x = do guard (env.is_valid_addr x) invalid_addr; ok x

-- The proposal that is stored.
unfoldable pub propose_new_owner :
    Env → MessageInfo → Name → ℕ → Addr → Result StdError OwnershipProposal
unfolding addr_validate
propose_new_owner env info new_owner expires_in owner = do
  guard (info.sender == owner) unauthorized
  new_owner' ← addr_validate env new_owner
  guard (not (new_owner' == owner)) same_owner
  ttl ← or_panic (add_u64 env.block_time expires_in)
  ok (record { owner = new_owner'; ttl = ttl })

-- The item after the call.
unfoldable pub drop_ownership_proposal :
    MessageInfo → Addr → Result StdError (Option OwnershipProposal)
drop_ownership_proposal info owner = do guard (info.sender == owner) unauthorized; ok none

-- The item after the call, and the owner that the callback stores.
unfoldable pub claim_ownership :
    Env → MessageInfo → Option OwnershipProposal → Result StdError (Option OwnershipProposal × Addr)
claim_ownership env info ownership_proposal = do
  proposal ← or_err ownership_proposal proposal_not_found
  guard (info.sender == proposal.owner) unauthorized
  guard (not (ltb proposal.ttl env.block_time)) proposal_expired
  ok (none, proposal.owner)
