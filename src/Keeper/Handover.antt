-- ===== src/Keeper/Handover.antt =====
-- The handover of the keeper from its owner to the next one.
use dexter_core.Prelude.{
  ℕ, ◌+◌, ◌<◌, ◌≤◌, ◌^◌, ◌≡◌, true, false, none, some, [], arith, ok, ◌==◌, nat_eq,
}
use dexter_core.Chain.{Addr, Env, MessageInfo}
use dexter_core.Chain.Words.{add_u64}
use dexter_core.Ownership.{
  propose_new_owner, drop_ownership_proposal, claim_ownership, addr_validate,
}
use dexter_core.Keeper.{
  Storage, Querier, propose_new_owner_msg, drop_ownership_proposal_msg, claim_ownership_msg,
  execute,
}

-- If the owner proposes another valid address for a period that fits 64 bits with the time, the proposal
-- succeeds and sends nothing; after it, at any time up to its end, a claim from that address succeeds and
-- changes the owner and nothing else but the proposal, which is gone, and a withdrawal of the proposal
-- by the owner succeeds and leaves the owner and no proposal.
pub propose-claim :
    ⦃q : Querier⦄
    → (s : Storage) (env later : Env) (height height' : ℕ) (info claimer : MessageInfo)
      (new_owner : Addr) (expires_in : ℕ)
    → (info.sender == s.config.owner) ≡ true
    → (claimer.sender == new_owner) ≡ true
    → env.is_valid_addr new_owner ≡ true
    → (new_owner == s.config.owner) ≡ false
    → env.block_time + expires_in < 2 ^ 64
    → later.block_time ≤ env.block_time + expires_in
    → (u : Storage) × (execute s env height info (propose_new_owner_msg new_owner expires_in)
        ≡ ok (u, []))
      × (execute u later height' claimer claim_ownership_msg
          ≡ ok (
            record s {
              config = record (s.config) { owner = new_owner };
              ownership_proposal = none;
            },
            [],
          ))
      × (execute u later height' info drop_ownership_proposal_msg
          ≡ ok (record s { ownership_proposal = none }, []))
unfolding execute propose_new_owner drop_ownership_proposal claim_ownership add_u64 addr_validate
propose-claim s env later height height' info claimer new_owner expires_in owner claims valid differ
      fits in_time =
    (
      record s {
        ownership_proposal = some (record { owner = new_owner; ttl = env.block_time + expires_in });
      },
      ground arith,
      ground arith,
      ground arith,
    )
