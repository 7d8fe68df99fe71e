-- ===== src/Vault/Authority.antt =====
-- Who may change the settings of contracts/vault.
use dexter_core.Prelude.{
  Bool-cases, ◌⊎◌, inl, inr, ==_iff, ℕ, ◌≡◌, refl, ap, sym, ◌∙◌, true, false, Option, none, some,
  List, arith, ◌==◌, if◌then◌else◌, ok, nat_eq, unwrap_or, or_err, >>=-eq-ok, ok-injective,
  guard_step, not, ltb, or_err-eq-ok, ◌≤◌,
}
use dexter_core.Prelude.Dict.{lookup, lookup-insert}
use dexter_core.Prelude.Sort.{sort}
use dexter_core.Chain.{Addr, Name, Env, MessageInfo, proposal_not_found}
use dexter_core.Chain.Decimal.{Decimal}
use dexter_core.Chain.Text.{Text}
use dexter_core.Ownership.{
  OwnershipProposal, propose_new_owner, drop_ownership_proposal, claim_ownership,
}
use dexter_core.Asset.{AssetInfo}
use dexter_core.Vault.State.{
  PoolType, pool_type_eq, FeeInfo, PauseInfo, PoolInfo, Storage, Pools, Msg, lift, lift-eq-ok,
  unauthorized, pool_type_config_not_found, NativeAssetPrecisionInfo, lp_token_code_id_not_set,
}
use dexter_core.Vault.Admin.{
  only_owner, is_trusted, PauseInfoUpdateType, by_pool_id, by_pool_type, execute_update_config,
  execute_update_pause_info, execute_update_pool_type_config, execute_update_pool_config,
  execute_update_pool_params, execute_add_address_to_whitelist,
  execute_remove_address_from_whitelist, execute_add_to_registry,
}
use dexter_core.Vault.Create.{
  check_instantiation, check_precisions, charge_creation_fee, asset_at_most, check_assets,
  tmp_pool_info_of, execute_create_pool_instance,
}
use dexter_core.Vault.Execute.{
  exit_pool, ExecuteMsg, receive, update_config, add_address_to_whitelist,
  remove_address_from_whitelist, update_pause_info, update_pool_type_config, add_to_registry,
  create_pool_instance, update_pool_config, update_pool_params, join_pool, swap,
  propose_new_owner_msg, drop_ownership_proposal_msg, claim_ownership_msg, receive_cw20, execute,
}
use dexter_core.Vault.Shape.{IsRebalanced, join-IsRebalanced, exit-IsRebalanced, swap-IsRebalanced}

-- The terms of a pool: all of it but its balances.
abbrev pub HasSameTerms : (pool q : PoolInfo) → Type 0
HasSameTerms pool q =
    (q.pool_addr ≡ pool.pool_addr)
    × (q.lp_token_addr ≡ pool.lp_token_addr)
    × (q.fee_info ≡ pool.fee_info)
    × (q.pool_type ≡ pool.pool_type)
    × (q.paused ≡ pool.paused)

-- The sender takes the ownership that was proposed to it, in time, and the proposal is gone.
pub record IsHandover (env : Env) (info : MessageInfo) (s u : Storage) : Type 0 where
  pub proposal : OwnershipProposal
  pub proposed : s.ownership_proposal ≡ some proposal
  pub owner : proposal.owner ≡ info.sender
  pub in_time : env.block_time ≤ proposal.ttl
  pub cleared : u.ownership_proposal ≡ none
  pub config : u.config ≡ record (s.config) { owner = info.sender }

-- The configuration and the proposal of an owner are as they were, but for a handover; the registry is,
-- and every pool keeps its terms.
pub record KeepsSettings (env : Env) (info : MessageInfo) (s u : Storage) : Type 0 where
  pub config :
      ((u.config ≡ s.config) × (u.ownership_proposal ≡ s.ownership_proposal))
      ⊎ IsHandover env info s u
  pub registry : u.registry ≡ s.registry
  pub pools :
      (id : ℕ) (pool : PoolInfo)
      → lookup id s.active_pools ≡ some pool
      → (q : PoolInfo) × (lookup id u.active_pools ≡ some q) × HasSameTerms pool q

some-injective : {A : Type 0} {x y : A} → ◌≡◌ {A = Option A} (some x) (some y) → x ≡ y
some-injective h = cc

module _ (s u : Storage) (env : Env) (info : MessageInfo) where
  owner_only :
      (x : Unit)
      → is_trusted s info.sender ≡ false
      → only_owner s info ≡ ok x
      → KeepsSettings env info s u
  owner_only x stranger e =
      let f : (info.sender == s.config.owner) ≡ false = ground (arith, stranger) in
      let bad = rw f at e in cc

  keeps-of :
      ((u.config ≡ s.config) × (u.ownership_proposal ≡ s.ownership_proposal))
        ⊎ IsHandover env info s u
      → u.registry ≡ s.registry
      → u.active_pools ≡ s.active_pools
      → KeepsSettings env info s u
  keeps-of k1 k2 k3 = record {
    config = k1;
    registry = k2;
    pools = λ id pool h. (pool, ap (lookup id) k3 ∙ h, (refl, refl, refl, refl, refl));
  }

  rebalanced-pool :
      (r : IsRebalanced s u) (id : ℕ) (pool : PoolInfo)
      → lookup id s.active_pools ≡ some pool
      → (q : PoolInfo) × (lookup id u.active_pools ≡ some q) × HasSameTerms pool q
  rebalanced-pool r id pool h =
      let new : PoolInfo = record (r.pool) { assets = r.balances } in
      let after =
        ap (λ x. lookup id x.active_pools) r.saved ∙ lookup-insert r.id id new s.active_pools in
      elim (Bool-cases (r.id == id)) [
        | inl same ↦
            let here : some r.pool ≡ some pool =
              sym r.found ∙ (ap (λ j. lookup j s.active_pools) ((==_iff r.id id).0 same) ∙ h) in
            let was : r.pool ≡ pool = some-injective here in
            (
              new,
              after ∙ ap (λ b. if b then some new else lookup id s.active_pools) same,
              (
                ap (λ q. q.pool_addr) was,
                ap (λ q. q.lp_token_addr) was,
                ap (λ q. q.fee_info) was,
                ap (λ q. q.pool_type) was,
                ap (λ q. q.paused) was,
              ),
            )
        | inr other ↦ (
          pool,
          after ∙ ap (λ b. if b then some new else lookup id s.active_pools) other ∙ h,
          (refl, refl, refl, refl, refl),
        )
      ]

  rebalanced-KeepsSettings : IsRebalanced s u → KeepsSettings env info s u
  rebalanced-KeepsSettings r = record {
    config = inl (ap (λ x. x.config) r.saved, ap (λ x. x.ownership_proposal) r.saved);
    registry = ap (λ x. x.registry) r.saved;
    pools = rebalanced-pool r;
  }

  pause_by_stranger :
      (update_type : PauseInfoUpdateType) (pause_info : PauseInfo) (msgs : List Msg)
      → is_trusted s info.sender ≡ false
      → execute_update_pause_info s info update_type pause_info ≡ ok (u, msgs)
      → KeepsSettings env info s u
  unfolding execute_update_pause_info
  pause_by_stranger (by_pool_id id) pause_info msgs stranger e =
      let (bad, r) = guard_step (is_trusted s info.sender) unauthorized _ e in
      let no : true ≡ false = sym bad ∙ stranger in cc
  pause_by_stranger (by_pool_type kind) pause_info msgs stranger e =
      let (bad, r) = guard_step (is_trusted s info.sender) unauthorized _ e in
      let no : true ≡ false = sym bad ∙ stranger in cc

  create_by_stranger :
      ⦃t : Text⦄
      → (kind : PoolType) (infos : List AssetInfo) (precisions : List NativeAssetPrecisionInfo)
        (fee_info : Option FeeInfo) (init_params : Option Name) (msgs : List Msg)
      → execute_create_pool_instance s env info kind infos precisions fee_info init_params
        ≡ ok (u, msgs)
      → KeepsSettings env info s u
  unfolding execute_create_pool_instance
  create_by_stranger ⦃t⦄ kind infos precisions fee_info init_params msgs e =
      let (type_config, e1, r1) =
        >>=-eq-ok (or_err (lookup kind s.registry) pool_type_config_not_found) _ e in
      let (u2, e2, r2) =
        >>=-eq-ok (check_instantiation s info type_config.allow_instantiation) _ r1 in
      let (u3, e3, r3) = >>=-eq-ok (check_precisions infos precisions) _ r2 in
      let (moves, e4, r4) = >>=-eq-ok (charge_creation_fee env info s.config) _ r3 in
      let (assets, e5, r5) = >>=-eq-ok (check_assets env t.empty (sort asset_at_most infos)) _ r4 in
      let fee = unwrap_or fee_info type_config.default_fee_info in
      let (tmp, e6, r6) =
        >>=-eq-ok (tmp_pool_info_of s.config type_config fee assets precisions init_params) _ r5 in
      let (code_id, e7, r7) =
        >>=-eq-ok (or_err s.config.lp_token_code_id lp_token_code_id_not_set) _ r6 in
      let done = ok-injective r7 in
      keeps-of (inl (sym (ap (λ r. r.0.config) done), sym (ap (λ r. r.0.ownership_proposal) done)))
        (sym (ap (λ r. r.0.registry) done)) (sym (ap (λ r. r.0.active_pools) done))

  claim_ownership-eq :
      (both : Option OwnershipProposal × Addr)
      → claim_ownership env info s.ownership_proposal ≡ ok both
      → (proposal : OwnershipProposal) × (s.ownership_proposal ≡ some proposal)
        × (proposal.owner ≡ info.sender)
        × (env.block_time ≤ proposal.ttl)
        × (both.0 ≡ none)
        × (both.1 ≡ info.sender)
  unfolding claim_ownership
  claim_ownership-eq both e =
      let (proposal, e1, r1) = >>=-eq-ok (or_err s.ownership_proposal proposal_not_found) _ e in
      let (mine, r2) = guard_step (info.sender == proposal.owner) _ _ r1 in
      let (early, r3) = guard_step (not (ltb proposal.ttl env.block_time)) _ _ r2 in
      let sender = sym ((==_iff info.sender proposal.owner).0 mine) in
      (
        proposal,
        or_err-eq-ok _ _ e1,
        sender,
        ground arith,
        sym (ap (λ r. r.0) (ok-injective r3)),
        sym (ap (λ r. r.1) (ok-injective r3)) ∙ sender,
      )

  not_owner :
      (info.sender == s.config.owner) ≡ true
      → is_trusted s info.sender ≡ false
      → KeepsSettings env info s u
  not_owner mine stranger = owner_only tt stranger (rw (mine, only_owner) refl)

  module _ ⦃t : Text⦄ ⦃d : Decimal⦄ ⦃p : Pools⦄ where
    -- A message that succeeds from a sender who is neither the owner nor whitelisted leaves the registry, the
    -- configuration and the proposal of a new owner alone, but for the timely handover of the ownership to the
    -- sender to whom it was proposed, which clears the proposal; and every pool keeps its address, LP token,
    -- fees, type and pauses.
    pub execute_by_stranger :
        (msg : ExecuteMsg) (msgs : List Msg)
        → is_trusted s info.sender ≡ false
        → execute s env info msg ≡ ok (u, msgs)
        → KeepsSettings env info s u
    unfolding execute receive_cw20 execute_add_address_to_whitelist
        execute_remove_address_from_whitelist execute_update_pool_params execute_update_config
        execute_update_pool_type_config execute_update_pool_config execute_add_to_registry
        propose_new_owner drop_ownership_proposal
    execute_by_stranger (receive sender amount none) msgs stranger e = cc
    execute_by_stranger (receive sender amount (some (exit_pool id recipient exit_type))) msgs
          stranger e =
        rebalanced-KeepsSettings (
          exit-IsRebalanced s u env info id (unwrap_or recipient sender) exit_type sender amount
            msgs e)
    execute_by_stranger (update_config code_id collector creation_fee auto_stake paused) msgs
          stranger e =
        let (x, e1, r1) = >>=-eq-ok (only_owner s info) _ e in owner_only x stranger e1
    execute_by_stranger (add_address_to_whitelist address) msgs stranger e =
        let (x, e1, r1) = >>=-eq-ok (only_owner s info) _ e in owner_only x stranger e1
    execute_by_stranger (remove_address_from_whitelist address) msgs stranger e =
        let (x, e1, r1) = >>=-eq-ok (only_owner s info) _ e in owner_only x stranger e1
    execute_by_stranger (update_pool_type_config kind allow fee paused) msgs stranger e =
        let (x, e1, r1) = >>=-eq-ok (only_owner s info) _ e in owner_only x stranger e1
    execute_by_stranger (add_to_registry config) msgs stranger e =
        let (x, e1, r1) = >>=-eq-ok (only_owner s info) _ e in owner_only x stranger e1
    execute_by_stranger (update_pool_config id fee paused) msgs stranger e =
        let (x, e1, r1) = >>=-eq-ok (only_owner s info) _ e in owner_only x stranger e1
    execute_by_stranger (update_pool_params id params) msgs stranger e =
        let (x, e1, r1) = >>=-eq-ok (only_owner s info) _ e in owner_only x stranger e1
    execute_by_stranger (update_pause_info update_type pause_info) msgs stranger e =
        pause_by_stranger update_type pause_info msgs stranger e
    execute_by_stranger (create_pool_instance kind infos precisions fee_info init_params) msgs
          stranger e =
        create_by_stranger kind infos precisions fee_info init_params msgs e
    execute_by_stranger (join_pool id recipient assets min_lp auto_stake) msgs stranger e =
        rebalanced-KeepsSettings
          (join-IsRebalanced s u env info id recipient assets min_lp auto_stake msgs e)
    execute_by_stranger (swap request recipient min_receive max_spend) msgs stranger e =
        rebalanced-KeepsSettings
          (swap-IsRebalanced s u env info request recipient min_receive max_spend msgs e)
    execute_by_stranger (propose_new_owner_msg new_owner expires_in) msgs stranger e =
        let (proposal, e1, r1) =
          >>=-eq-ok (lift (propose_new_owner env info new_owner expires_in s.config.owner)) _ e in
        let proposes =
          lift-eq-ok (propose_new_owner env info new_owner expires_in s.config.owner) e1 in
        let (mine, r2) = guard_step (info.sender == s.config.owner) _ _ proposes in
        not_owner mine stranger
    execute_by_stranger drop_ownership_proposal_msg msgs stranger e =
        let (proposal, e1, r1) =
          >>=-eq-ok (lift (drop_ownership_proposal info s.config.owner)) _ e in
        let drops = lift-eq-ok (drop_ownership_proposal info s.config.owner) e1 in
        let (mine, r2) = guard_step (info.sender == s.config.owner) _ _ drops in
        not_owner mine stranger
    execute_by_stranger claim_ownership_msg msgs stranger e =
        let (both, e1, r1) = >>=-eq-ok (lift (claim_ownership env info s.ownership_proposal)) _ e in
        let (proposal, proposed, owner, in_time, gone, mine) =
          claim_ownership-eq both (lift-eq-ok (claim_ownership env info s.ownership_proposal) e1) in
        let done = ok-injective r1 in
        keeps-of
          (inr (record {
            proposal = proposal;
            proposed = proposed;
            owner = owner;
            in_time = in_time;
            cleared = sym (ap (λ r. r.0.ownership_proposal) done) ∙ gone;
            config =
                sym (ap (λ r. r.0.config) done) ∙ ap (λ o. record (s.config) { owner = o }) mine;
          }))
          (sym (ap (λ r. r.0.registry) done)) (sym (ap (λ r. r.0.active_pools) done))
