-- ===== src/Vault/Fees/Runs.antt =====
-- Runs of contracts/vault, and the limits of the fees over them.
use dexter_core.Prelude.{
  ℕ, ◌≡◌, ap, sym, not, Option, none, some, List, [], ◌∷◌, String, ◌==◌, ok, nat_eq, unwrap_or,
  or_err, contains, >>=-eq-ok, ok-injective, guard_step,
}
use dexter_core.Prelude.Dict.{lookup}
use dexter_core.Chain.{Name, Env, MessageInfo, not_found}
use dexter_core.Chain.Decimal.{Decimal}
use dexter_core.Chain.Text.{Text}
use dexter_core.Ownership.{
  addr_validate, OwnershipProposal, propose_new_owner, drop_ownership_proposal, claim_ownership,
}
use dexter_core.Vault.State.{
  pool_type_eq, PoolTypeConfig, Config, Storage, Pools, Msg, std, lift, address_already_whitelisted,
  address_not_whitelisted, cannot_add_owner_to_whitelist, update_params, Outcome,
}
use dexter_core.Vault.Admin.{
  InstantiateMsg, instantiate, only_owner, execute_update_pool_params,
  execute_add_address_to_whitelist, execute_remove_address_from_whitelist,
}
use dexter_core.Vault.Create.{reply}
use dexter_core.Vault.Execute.{
  exit_pool, ExecuteMsg, receive, update_config, add_address_to_whitelist,
  remove_address_from_whitelist, update_pause_info, update_pool_type_config, add_to_registry,
  create_pool_instance, update_pool_config, update_pool_params, join_pool, swap,
  propose_new_owner_msg, drop_ownership_proposal_msg, claim_ownership_msg, receive_cw20, execute,
  migrate,
}
use dexter_core.Vault.Shape.{join-IsRebalanced, exit-IsRebalanced, swap-IsRebalanced}
use dexter_core.Vault.Fees.{
  HasValidFees, keep-fees, rebalanced-fees, pause-fees, type_config-fees, pool_config-fees,
  instantiate-HasValidFees,
}
use dexter_core.Vault.Fees.Steps.{add-fees, config-fees, create-fees, reply-fees, migrate-fees}

-- The states that the vault reaches. The answers of the pools may differ from step to step.
pub data IsReachable ⦃t : Text⦄ ⦃d : Decimal⦄ : Storage → Type 0 where
  created :
      (env : Env) (msg : InstantiateMsg) {s : Storage} → instantiate env msg ≡ ok s → IsReachable s
  executed :
      (p : Pools) {s u : Storage} (env : Env) (info : MessageInfo) (msg : ExecuteMsg)
      (msgs : List Msg)
      → IsReachable s
      → execute ⦃p = p⦄ s env info msg ≡ ok (u, msgs)
      → IsReachable u
  replied :
      {s u : Storage} (env : Env) (id : ℕ) (contract_address : Name) (msgs : List Msg)
      → IsReachable s
      → reply s env id contract_address ≡ ok (u, msgs)
      → IsReachable u
  migrated :
      {s u : Storage} (contract version : String) (configs : List PoolTypeConfig)
      → IsReachable s
      → migrate s contract version configs ≡ ok u
      → IsReachable u

module _ (s u : Storage) (valid : HasValidFees s) where
  module _ ⦃t : Text⦄ ⦃d : Decimal⦄ ⦃p : Pools⦄ where
    same-fees :
        (msgs : List Msg) (config : Config) (proposal : Option OwnershipProposal) (sent : List Msg)
        → ◌≡◌ {A = Outcome}
            (ok (record s { config = config; ownership_proposal = proposal }, sent))
            (ok (u, msgs))
        → HasValidFees u
    same-fees msgs config proposal sent e =
        let done = ok-injective e in
        keep-fees s u valid (sym (ap (λ r. r.0.registry) done))
          (sym (ap (λ r. r.0.active_pools) done)) (sym (ap (λ r. r.0.tmp_pool_info) done))

    execute-HasValidFees :
        (env : Env) (info : MessageInfo) (msg : ExecuteMsg) (msgs : List Msg)
        → execute s env info msg ≡ ok (u, msgs)
        → HasValidFees u
    unfolding execute receive_cw20 execute_add_address_to_whitelist
        execute_remove_address_from_whitelist execute_update_pool_params
    execute-HasValidFees env info (receive sender amount none) msgs e = cc
    execute-HasValidFees env info (receive sender amount (some (exit_pool id recipient exit_type)))
          msgs e =
        rebalanced-fees s u valid (
          exit-IsRebalanced s u env info id (unwrap_or recipient sender) exit_type sender amount
            msgs e)
    execute-HasValidFees env info (update_config code_id collector creation_fee auto_stake paused)
          msgs e =
        config-fees s u valid env info code_id collector creation_fee auto_stake paused msgs e
    execute-HasValidFees env info (add_address_to_whitelist address) msgs e =
        let (u1, e1, r1) = >>=-eq-ok (only_owner s info) _ e in
        let (to, e2, r2) = >>=-eq-ok (lift (addr_validate env address)) _ r1 in
        let (t3, r3) = guard_step (not (to == s.config.owner)) cannot_add_owner_to_whitelist _ r2 in
        let (t4, r4) =
          guard_step (not (contains s.config.whitelisted_addresses to)) address_already_whitelisted
            _ r3 in
        same-fees msgs _ s.ownership_proposal [] r4
    execute-HasValidFees env info (remove_address_from_whitelist address) msgs e =
        let (u1, e1, r1) = >>=-eq-ok (only_owner s info) _ e in
        let (to, e2, r2) = >>=-eq-ok (lift (addr_validate env address)) _ r1 in
        let (t3, r3) =
          guard_step (contains s.config.whitelisted_addresses to) address_not_whitelisted _ r2 in
        same-fees msgs _ s.ownership_proposal [] r3
    execute-HasValidFees env info (update_pause_info update_type pause_info) msgs e =
        pause-fees s u valid info update_type pause_info msgs e
    execute-HasValidFees env info (update_pool_type_config kind allow fee paused) msgs e =
        type_config-fees s u valid info kind allow fee paused msgs e
    execute-HasValidFees env info (add_to_registry config) msgs e =
        add-fees s u valid info config msgs e
    execute-HasValidFees env info (create_pool_instance kind infos precisions fee_info init_params)
          msgs e =
        create-fees s u valid env info kind infos precisions fee_info init_params msgs e
    execute-HasValidFees env info (update_pool_config id fee paused) msgs e =
        pool_config-fees s u valid info id fee paused msgs e
    execute-HasValidFees env info (update_pool_params id params) msgs e =
        let (u1, e1, r1) = >>=-eq-ok (only_owner s info) _ e in
        let (pool, e2, r2) = >>=-eq-ok (or_err (lookup id s.active_pools) (std not_found)) _ r1 in
        same-fees msgs s.config s.ownership_proposal (update_params pool.pool_addr params ∷ []) r2
    execute-HasValidFees env info (join_pool id recipient assets min_lp auto_stake) msgs e =
        rebalanced-fees s u valid
          (join-IsRebalanced s u env info id recipient assets min_lp auto_stake msgs e)
    execute-HasValidFees env info (swap request recipient min_receive max_spend) msgs e =
        rebalanced-fees s u valid
          (swap-IsRebalanced s u env info request recipient min_receive max_spend msgs e)
    execute-HasValidFees env info (propose_new_owner_msg new_owner expires_in) msgs e =
        let (proposal, e1, r1) =
          >>=-eq-ok (lift (propose_new_owner env info new_owner expires_in s.config.owner)) _ e in
        same-fees msgs s.config (some proposal) [] r1
    execute-HasValidFees env info drop_ownership_proposal_msg msgs e =
        let (proposal, e1, r1) =
          >>=-eq-ok (lift (drop_ownership_proposal info s.config.owner)) _ e in
        same-fees msgs s.config proposal [] r1
    execute-HasValidFees env info claim_ownership_msg msgs e =
        let (both, e1, r1) = >>=-eq-ok (lift (claim_ownership env info s.ownership_proposal)) _ e in
        same-fees msgs (record (s.config) { owner = both.1 }) both.0 [] r1

module _ ⦃t : Text⦄ ⦃d : Decimal⦄ where
  -- In every state that the vault reaches by its messages, replies and migrations, the fees of all pool
  -- types, of all pools and of a pool in the making are within the limits.
  pub reachable-HasValidFees : (s : Storage) → IsReachable s → HasValidFees s
  reachable-HasValidFees s (created env msg e) = instantiate-HasValidFees env msg s e
  reachable-HasValidFees u (executed p {s} env info msg msgs before e) =
      execute-HasValidFees s u (reachable-HasValidFees s before) ⦃p = p⦄ env info msg msgs e
  reachable-HasValidFees u (replied {s} env id contract_address msgs before e) =
      reply-fees s u (reachable-HasValidFees s before) env id contract_address msgs e
  reachable-HasValidFees u (migrated {s} contract version configs before e) =
      migrate-fees s u (reachable-HasValidFees s before) contract version configs e
