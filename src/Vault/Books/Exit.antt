-- ===== src/Vault/Books/Exit.antt =====
-- The books over an exit: contracts/vault/src/contract.rs, `execute_exit_pool`.
use dexter_core.Prelude.{
  ℕ, ◌+◌, ◌≤◌, ◌≡◌, refl, some, List, [], ◌∷◌, ◌++◌, arith, ==_iff, if◌then◌else◌, ok, ap, sym,
  nat_eq, unwrap_or, >>=-eq-ok, ok-injective, or_err, or_err-eq-ok, or_panic, guard,
}
use dexter_core.Prelude.Dict.{Dict, lookup}
use dexter_core.Chain.{Addr, Env, MessageInfo, not_found, overflow}
use dexter_core.Ownership.{addr_validate}
use dexter_core.Chain.Decimal.{Decimal}
use dexter_core.Chain.Words.{add_u128, checked_sub}
use dexter_core.Chain.Text.{Text}
use dexter_core.Asset.{AssetInfo, token, asset_beq, asset_eq, Asset}
use dexter_core.Vault.State.{
  pool_type_eq, FeeInfo, Config, PoolInfo, Storage, AfterExitResponse, Pools, Msg, burn,
  update_liquidity, std, lift, invalid_pool_id, insufficient_lp_tokens_to_exit,
  invalid_sequence_of_assets,
}
use dexter_core.Vault.Join.{transfer_fee, collect_fees}
use dexter_core.Vault.Exit.{
  ExitType, transfer_out, exit_fee, exit_move, exit_settle, exit_asset, exit_assets,
  query_exit_type, check_exit, check_lp_token, check_exit_answer, return_lp, save_exit,
  execute_exit_pool,
}
use dexter_core.Vault.Books.{
  balance, taken, pooled, pooled-save, outflow, inflow, outflow-append, inflow-append,
  taken-transfer, IsCanonical, books-cons, stands_in-apart, transfer_fee-outflow,
}

module _ (a : AssetInfo) where
  transfer_out-flow :
      (b : AssetInfo) (recipient : Addr) (amount : ℕ)
      → outflow a (transfer_out b recipient amount) ≡ (if asset_beq b a then amount else 0)
  unfolding outflow
  transfer_out-flow b recipient amount = ground (arith, taken-transfer a b recipient amount)

  module _ ⦃d : Decimal⦄ (config : Config) (fee_info : FeeInfo) (recipient : Addr) where
    exit_move-flow :
        (stored asset : Asset) (amount fee : ℕ) (msgs : List Msg)
        → exit_move config recipient stored amount fee ≡ ok (asset, msgs)
        → (asset.info ≡ stored.info)
          × ((if asset_beq stored.info a then asset.amount else 0) + outflow a msgs
              ≡ (if asset_beq stored.info a then stored.amount else 0))
    unfolding exit_move add_u128 checked_sub
    exit_move-flow stored asset amount fee msgs e =
        let (x, e1, r1) = >>=-eq-ok (or_panic (add_u128 amount fee)) _ e in
        let (y, e2, r2) = >>=-eq-ok (or_err (checked_sub stored.amount x) (std overflow)) _ r1 in
        let (fees, e3, r3) = >>=-eq-ok (transfer_fee stored.info config.fee_collector fee) _ r2 in
        let out = transfer_out-flow stored.info recipient amount in
        let paid = transfer_fee-outflow a stored.info config.fee_collector fee fees e3 in
        let both = outflow-append a (transfer_out stored.info recipient amount) fees in
        ground (arith, e1, e2, r3, out, paid, both)

    exit_settle-flow :
        (stored asset : Asset) (amount total_fee fee : ℕ) (msgs : List Msg)
        → exit_settle config recipient stored amount total_fee fee ≡ ok (asset, msgs)
        → (asset.info ≡ stored.info)
          × ((if asset_beq stored.info a then asset.amount else 0) + outflow a msgs
              ≡ (if asset_beq stored.info a then stored.amount else 0))
    unfolding exit_settle outflow
    exit_settle-flow stored asset amount total_fee fee msgs e =
        ground (arith, exit_move-flow stored asset amount fee msgs)

    exit_asset-flow :
        (fees : Dict AssetInfo ℕ) (stored out asset : Asset) (msgs : List Msg)
        → exit_asset config fee_info recipient fees stored out ≡ ok (asset, msgs)
        → (asset.info ≡ stored.info)
          × ((if asset_beq stored.info a then asset.amount else 0) + outflow a msgs
              ≡ (if asset_beq stored.info a then stored.amount else 0))
    unfolding exit_asset
    exit_asset-flow fees stored out asset msgs e =
        let total_fee = unwrap_or (lookup stored.info fees) 0 in
        let (u, e1, r1) =
          >>=-eq-ok (guard (asset_beq stored.info out.info) invalid_sequence_of_assets) _ e in
        let (fee, e2, r2) = >>=-eq-ok (exit_fee config fee_info total_fee) _ r1 in
        exit_settle-flow stored asset out.amount total_fee fee msgs r2

    exit_assets-flow :
        ⦃t : Text⦄
        → (vault : Addr) (fees : Dict AssetInfo ℕ) (stored outs balances : List Asset)
          (msgs : List Msg)
        → IsCanonical stored
        → exit_assets config fee_info recipient fees stored outs ≡ ok (balances, msgs)
        → balance a balances + outflow a msgs ≤ balance a stored + inflow vault a msgs
    unfolding exit_assets balance outflow inflow
    exit_assets-flow vault fees [] outs balances msgs canonical e = ground arith
    exit_assets-flow vault fees (b ∷ stored) [] balances msgs canonical e = ground arith
    exit_assets-flow vault fees (b ∷ stored) (c ∷ outs) balances msgs (low, apart, canonical) e =
        let ((asset, moves), e1, r1) =
          >>=-eq-ok (exit_asset config fee_info recipient fees b c) _ e in
        let ((rest, more), e2, r2) =
          >>=-eq-ok (exit_assets config fee_info recipient fees stored outs) _ r1 in
        let (same, flow) = exit_asset-flow fees b c asset moves e1 in
        let flows = exit_assets-flow vault fees stored outs rest more canonical e2 in
        let alone = stands_in-apart b.info stored apart in
        let done = ok-injective r2 in
        let both =
          books-cons vault a 0 0 0 b asset stored rest balances moves more msgs same alone
            (ground (arith, flow)) (ground (arith, flows)) (sym (ap (λ r. r.0) done))
            (sym (ap (λ r. r.1) done)) in
        ground (arith, both)

  lp-sender :
      (info : MessageInfo) (pool : PoolInfo) (u : Unit)
      → check_lp_token info pool ≡ ok u
      → pool.lp_token_addr ≡ info.sender
  lp-sender info pool u e = ground (arith, ==_iff info.sender pool.lp_token_addr)

  -- The messages after the transfers: the LP tokens that came are burnt or go back.
  exit-flow :
      (vault lp_token sender : Addr) (stored balances : List Asset) (last : Msg)
      (lp_received burnt left : ℕ) (moves msgs : List Msg)
      → taken a last ≡ 0
      → checked_sub lp_received burnt ≡ some left
      → balance a balances + outflow a moves ≤ balance a stored + inflow vault a moves
      → msgs ≡ moves ++ burn lp_token burnt ∷ return_lp lp_token sender left ++ last ∷ []
      → balance a balances + outflow a msgs
        ≤ balance a stored
          + (inflow vault a msgs + (if asset_beq (token lp_token) a then lp_received else 0))
  unfolding outflow inflow checked_sub
  exit-flow vault lp_token sender stored balances last lp_received burnt left moves msgs silent sub
        flow k =
      let back = return_lp lp_token sender left in
      ground (
        arith,
        silent,
        sub,
        flow,
        ap (outflow a) k,
        ap (inflow vault a) k,
        outflow-append a (moves ++ burn lp_token burnt ∷ back) (last ∷ []),
        inflow-append vault a (moves ++ burn lp_token burnt ∷ back) (last ∷ []),
        outflow-append a moves (burn lp_token burnt ∷ back),
        inflow-append vault a moves (burn lp_token burnt ∷ back),
      )

  module _ ⦃t : Text⦄ ⦃d : Decimal⦄ ⦃p : Pools⦄ (vault : Addr) where
    save_exit-flow :
        (s u : Storage) (env : Env) (pool_id : ℕ) (recipient sender : Addr) (lp_received : ℕ)
        (pool : PoolInfo) (exit : AfterExitResponse) (msgs : List Msg)
        → lookup pool_id s.active_pools ≡ some pool
        → IsCanonical pool.assets
        → save_exit s env pool_id recipient sender lp_received pool exit ≡ ok (u, msgs)
        → pooled a u + outflow a msgs
          ≤ pooled a s
            + (inflow vault a msgs
                + (if asset_beq (token pool.lp_token_addr) a then lp_received else 0))
    unfolding save_exit
    save_exit-flow s u env pool_id recipient sender lp_received pool exit msgs found canonical e =
        let lp = pool.lp_token_addr in
        let fees = collect_fees [] (unwrap_or exit.fee []) in
        let (left, e1, r1) =
          >>=-eq-ok
            (or_err (checked_sub lp_received exit.burn_shares) insufficient_lp_tokens_to_exit) _
            e in
        let (to, e2, r2) = >>=-eq-ok (lift (addr_validate env recipient)) _ r1 in
        let ((balances, moves), e3, r3) =
          >>=-eq-ok (exit_assets s.config pool.fee_info to fees pool.assets exit.assets_out) _ r2 in
        let sub =
          or_err-eq-ok (checked_sub lp_received exit.burn_shares) insufficient_lp_tokens_to_exit
            e1 in
        let flow =
          exit_assets-flow s.config pool.fee_info to vault fees pool.assets exit.assets_out balances
            moves canonical e3 in
        let done = ok-injective r3 in
        pooled-save a s u pool_id pool balances (outflow a msgs)
          (inflow vault a msgs + (if asset_beq (token lp) a then lp_received else 0)) found
          (sym (ap (λ r. r.0.active_pools) done))
          (exit-flow vault lp sender pool.assets balances (update_liquidity pool.pool_addr balances)
            lp_received exit.burn_shares left moves msgs refl sub flow (sym (ap (λ r. r.1) done)))

    pub execute_exit_pool-flow :
        (s u : Storage) (env : Env) (info : MessageInfo) (pool_id : ℕ) (recipient : Addr)
        (exit_type : ExitType) (sender : Addr) (lp_received : ℕ) (msgs : List Msg)
        → ((id : ℕ) (pool : PoolInfo)
            → lookup id s.active_pools ≡ some pool
            → IsCanonical pool.assets)
        → execute_exit_pool s env info pool_id recipient exit_type sender lp_received ≡ ok (u, msgs)
        → pooled a u + outflow a msgs
          ≤ pooled a s
            + (inflow vault a msgs + (if asset_beq (token info.sender) a then lp_received else 0))
    unfolding execute_exit_pool
    execute_exit_pool-flow s u env info pool_id recipient exit_type sender lp_received msgs
          canonical e =
        let (pool, e1, r1) =
          >>=-eq-ok (or_err (lookup pool_id s.active_pools) invalid_pool_id) _ e in
        let (pool_config, e2, r2) =
          >>=-eq-ok (or_err (lookup pool.pool_type s.registry) (std not_found)) _ r1 in
        let (u3, e3, r3) = >>=-eq-ok (check_lp_token info pool) _ r2 in
        let (query, e4, r4) =
          >>=-eq-ok (query_exit_type s.config pool_config pool exit_type lp_received) _ r3 in
        let (exit, e5, r5) = >>=-eq-ok (lift (p.on_exit_pool pool.pool_addr query)) _ r4 in
        let (u6, e6, r6) = >>=-eq-ok (check_exit_answer pool exit) _ r5 in
        let (u7, e7, r7) = >>=-eq-ok (check_exit exit_type exit) _ r6 in
        let found = or_err-eq-ok (lookup pool_id s.active_pools) invalid_pool_id e1 in
        let flow =
          save_exit-flow s u env pool_id recipient sender lp_received pool exit msgs found
            (canonical pool_id pool found) r7 in
        omega (
          arith,
          flow,
          ap (λ lp. if asset_beq (token lp) a then lp_received else 0) (lp-sender info pool u3 e3),
        )
