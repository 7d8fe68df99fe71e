-- ===== src/Vault/Books/Join.antt =====
-- The books over a join: contracts/vault/src/contract.rs, `execute_join_pool`.
use dexter_core.Prelude.{
  ℕ, ◌+◌, ◌≤◌, ◌≡◌, refl, Bool, true, false, ◌&&◌, Option, some, List, [], ◌∷◌, ◌++◌, arith, ◌==◌,
  if◌then◌else◌, ok, ap, sym, Bool-cases, inl, inr, nat_eq, unwrap_or, >>=-eq-ok, ok-injective,
  or_err, or_err-eq-ok, guard,
}
use dexter_core.Prelude.Dict.{Dict, lookup}
use dexter_core.Chain.{Addr, Env, MessageInfo, not_found, overflow}
use dexter_core.Ownership.{addr_validate}
use dexter_core.Chain.Decimal.{Decimal}
use dexter_core.Chain.Words.{add_u128, checked_sub}
use dexter_core.Chain.Text.{Text}
use dexter_core.Asset.{AssetInfo, token, native_token, asset_beq, asset_beq_iff, asset_eq, Asset}
use dexter_core.Vault.State.{
  pool_type_eq, FeeInfo, Config, AutoStakeImpl, no_auto_stake, multistaking, Storage, PoolInfo,
  AfterJoinResponse, Pools, Msg, update_liquidity, std, lift, invalid_sequence_of_assets,
  invalid_pool_id,
}
use dexter_core.Vault.Join.{
  take_in, transfer_fee, join_fee, join_move, join_settle, join_asset, join_assets,
  build_mint_lp_token_msg, collect_fees, check_join_open, check_join, save_join, execute_join_pool,
}
use dexter_core.Vault.Books.{
  balance, taken, pooled, pooled-save, outflow, inflow, outflow-append, inflow-append, attached,
  stands_in, is_lower, IsCanonical, books-cons, stands_in-apart, transfer_fee-outflow,
}

module _ ⦃t : Text⦄ (vault : Addr) (a : AssetInfo) where
  take_in-flow :
      (env : Env) (info : MessageInfo) (b : AssetInfo) (amount : ℕ) (msgs : List Msg)
      → env.contract_address ≡ vault
      → is_lower b ≡ true
      → take_in env info b amount ≡ ok msgs
      → (if asset_beq b a then amount else 0) + outflow a msgs
        ≤ inflow vault a msgs + (if asset_beq b a then attached a info else 0)
  unfolding take_in outflow inflow checked_sub
  take_in-flow env info (native_token denom) amount msgs here low e =
      ground (arith, asset_beq_iff (native_token denom) a)
  take_in-flow env info (token contract_addr) amount msgs here low e =
      ground (arith, asset_beq_iff (token contract_addr) a)

  mint-flow :
      (env : Env) (lp_token recipient : Addr) (amount : ℕ) (auto_stake : Bool)
      (impl : AutoStakeImpl) (msgs : List Msg)
      → env.contract_address ≡ vault
      → build_mint_lp_token_msg env lp_token recipient amount auto_stake impl ≡ ok msgs
      → outflow a msgs ≤ inflow vault a msgs
  unfolding build_mint_lp_token_msg outflow inflow
  mint-flow env lp_token recipient amount false impl msgs here e = ground arith
  mint-flow env lp_token recipient amount true no_auto_stake msgs here e = ground arith
  mint-flow env lp_token recipient amount true (multistaking contract) msgs here e = ground arith

  module _ ⦃d : Decimal⦄ (config : Config) (fee_info : FeeInfo) (env : Env)
      (info : MessageInfo) where
    join_fee-none :
        (total_fee fee : ℕ)
        → join_fee config fee_info total_fee ≡ ok fee
        → (total_fee == 0) ≡ true
        → fee ≡ 0
    unfolding join_fee
    join_fee-none total_fee fee e h = ground arith

    join_move-flow :
        (stored asset : Asset) (transfer_in fee : ℕ) (msgs : List Msg)
        → env.contract_address ≡ vault
        → is_lower stored.info ≡ true
        → join_move env info stored transfer_in fee ≡ ok (asset, msgs)
        → (asset.info ≡ stored.info)
          × ((if asset_beq stored.info a then asset.amount + fee else 0) + outflow a msgs
              ≤ (if asset_beq stored.info a then stored.amount + attached a info else 0)
                + inflow vault a msgs)
    unfolding join_move add_u128 checked_sub
    join_move-flow stored asset transfer_in fee msgs here low e =
        let (x, e1, r1) =
          >>=-eq-ok (or_err (add_u128 stored.amount transfer_in) (std overflow)) _ e in
        let (amount, e2, r2) = >>=-eq-ok (or_err (checked_sub x fee) (std overflow)) _ r1 in
        let (moves, e3, r3) = >>=-eq-ok (take_in env info stored.info transfer_in) _ r2 in
        let flow = take_in-flow env info stored.info transfer_in moves here low e3 in
        ground (arith, e1, e2, r3, flow)

    join_settle-flow :
        (stored asset : Asset) (transfer_in total_fee fee : ℕ) (fee_msgs msgs : List Msg)
        → env.contract_address ≡ vault
        → is_lower stored.info ≡ true
        → outflow a fee_msgs ≡ (if asset_beq stored.info a then fee else 0)
        → ((total_fee == 0) ≡ true → fee ≡ 0)
        → join_settle env info stored transfer_in total_fee fee fee_msgs ≡ ok (asset, msgs)
        → (asset.info ≡ stored.info)
          × ((if asset_beq stored.info a then asset.amount else 0) + outflow a msgs
              ≤ (if asset_beq stored.info a then stored.amount + attached a info else 0)
                + inflow vault a msgs)
    unfolding join_settle
    join_settle-flow stored asset transfer_in total_fee fee fee_msgs msgs here low paid free e =
        elim (Bool-cases (transfer_in == 0 && total_fee == 0)) [
          | inl skip ↦ ground (arith, paid, free)
          | inr move ↦
              let ((moved, moves), e1, r1) =
                >>=-eq-ok {B = Asset × List Msg} (join_move env info stored transfer_in fee)
                  (λ r. ok (r.0, r.1 ++ fee_msgs)) {out = (asset, msgs)} (ground arith) in
              let (same, flow) = join_move-flow stored moved transfer_in fee moves here low e1 in
              ground (
                arith,
                r1,
                same,
                flow,
                paid,
                outflow-append a moves fee_msgs,
                inflow-append vault a moves fee_msgs,
              )
        ]

    join_asset-flow :
        (fees : Dict AssetInfo ℕ) (stored provided asset : Asset) (msgs : List Msg)
        → env.contract_address ≡ vault
        → is_lower stored.info ≡ true
        → join_asset config fee_info env info fees stored provided ≡ ok (asset, msgs)
        → (asset.info ≡ stored.info)
          × ((if asset_beq stored.info a then asset.amount else 0) + outflow a msgs
              ≤ (if asset_beq stored.info a then stored.amount + attached a info else 0)
                + inflow vault a msgs)
    unfolding join_asset
    join_asset-flow fees stored provided asset msgs here low e =
        let total_fee = unwrap_or (lookup stored.info fees) 0 in
        let (u, e1, r1) =
          >>=-eq-ok (guard (asset_beq stored.info provided.info) invalid_sequence_of_assets) _ e in
        let (fee, e2, r2) = >>=-eq-ok (join_fee config fee_info total_fee) _ r1 in
        let (fee_msgs, e3, r3) =
          >>=-eq-ok (transfer_fee stored.info config.fee_collector fee) _ r2 in
        let paid = transfer_fee-outflow a stored.info config.fee_collector fee fee_msgs e3 in
        join_settle-flow stored asset provided.amount total_fee fee fee_msgs msgs here low paid
          (join_fee-none total_fee fee e2) r3

    join_assets-flow :
        (fees : Dict AssetInfo ℕ) (stored provided balances : List Asset) (msgs : List Msg)
        → env.contract_address ≡ vault
        → IsCanonical stored
        → join_assets config fee_info env info fees stored provided ≡ ok (balances, msgs)
        → balance a balances + outflow a msgs
          ≤ balance a stored
            + inflow vault a msgs
            + (if stands_in a stored then attached a info else 0)
    unfolding join_assets balance outflow inflow
    join_assets-flow fees [] provided balances msgs here canonical e = ground arith
    join_assets-flow fees (b ∷ stored) [] balances msgs here canonical e = ground arith
    join_assets-flow fees (b ∷ stored) (c ∷ provided) balances msgs here (low, apart, canonical) e =
        let ((asset, moves), e1, r1) =
          >>=-eq-ok (join_asset config fee_info env info fees b c) _ e in
        let ((rest, more), e2, r2) =
          >>=-eq-ok (join_assets config fee_info env info fees stored provided) _ r1 in
        let (same, flow) = join_asset-flow fees b c asset moves here low e1 in
        let flows = join_assets-flow fees stored provided rest more here canonical e2 in
        let alone = stands_in-apart b.info stored apart in
        let done = ok-injective r2 in
        let both =
          books-cons vault a (attached a info) 0 0 b asset stored rest balances moves more msgs same
            alone (ground (arith, flow)) (ground (arith, flows)) (sym (ap (λ r. r.0) done))
            (sym (ap (λ r. r.1) done)) in
        ground (arith, both)

  -- The messages after the transfers: the pool's new balances, and the LP tokens.
  join-flow :
      ⦃d : Decimal⦄
      → (info : MessageInfo) (stored balances : List Asset) (last : Msg)
        (moves mints msgs : List Msg)
      → taken a last ≡ 0
      → balance a balances + outflow a moves
        ≤ balance a stored
          + inflow vault a moves
          + (if stands_in a stored then attached a info else 0)
      → outflow a mints ≤ inflow vault a mints
      → msgs ≡ moves ++ last ∷ mints
      → balance a balances + outflow a msgs
        ≤ balance a stored + (inflow vault a msgs + attached a info)
  unfolding outflow inflow
  join-flow info stored balances last moves mints msgs silent flow mint k = ground (
    arith,
    silent,
    flow,
    mint,
    ap (outflow a) k,
    ap (inflow vault a) k,
    outflow-append a moves (last ∷ mints),
    inflow-append vault a moves (last ∷ mints),
  )

  save_join-flow :
      ⦃d : Decimal⦄
      → (s t : Storage) (env : Env) (info : MessageInfo) (pool_id : ℕ) (recipient : Option Addr)
        (auto_stake : Bool) (pool : PoolInfo) (join : AfterJoinResponse) (msgs : List Msg)
      → env.contract_address ≡ vault
      → lookup pool_id s.active_pools ≡ some pool
      → IsCanonical pool.assets
      → save_join s env info pool_id recipient auto_stake pool join ≡ ok (t, msgs)
      → pooled a t + outflow a msgs ≤ pooled a s + (inflow vault a msgs + attached a info)
  unfolding save_join
  save_join-flow s t env info pool_id recipient auto_stake pool join msgs here found canonical e =
      let fees = collect_fees [] (unwrap_or join.fee []) in
      let ((balances, moves), e1, r1) =
        >>=-eq-ok
          (join_assets s.config pool.fee_info env info fees pool.assets join.provided_assets) _ e in
      let (to, e2, r2) =
        >>=-eq-ok (lift (addr_validate env (unwrap_or recipient info.sender))) _ r1 in
      let (mints, e3, r3) =
        >>=-eq-ok
          (build_mint_lp_token_msg env pool.lp_token_addr to join.new_shares auto_stake
            s.config.auto_stake_impl)
          _ r2 in
      let flow =
        join_assets-flow s.config pool.fee_info env info fees pool.assets join.provided_assets
          balances moves here canonical e1 in
      let mint =
        mint-flow env pool.lp_token_addr to join.new_shares auto_stake s.config.auto_stake_impl
          mints here e3 in
      let done = ok-injective r3 in
      pooled-save a s t pool_id pool balances (outflow a msgs)
        (inflow vault a msgs + attached a info) found (sym (ap (λ r. r.0.active_pools) done))
        (join-flow info pool.assets balances (update_liquidity pool.pool_addr balances) moves mints
          msgs refl flow mint (sym (ap (λ r. r.1) done)))

  pub execute_join_pool-flow :
      ⦃d : Decimal⦄
      → ⦃p : Pools⦄
      → (s t : Storage) (env : Env) (info : MessageInfo) (pool_id : ℕ) (recipient : Option Addr)
        (assets : Option (List Asset)) (min_lp : Option ℕ) (auto_stake : Option Bool)
        (msgs : List Msg)
      → env.contract_address ≡ vault
      → ((id : ℕ) (pool : PoolInfo)
          → lookup id s.active_pools ≡ some pool
          → IsCanonical pool.assets)
      → execute_join_pool s env info pool_id recipient assets min_lp auto_stake ≡ ok (t, msgs)
      → pooled a t + outflow a msgs ≤ pooled a s + (inflow vault a msgs + attached a info)
  unfolding execute_join_pool
  execute_join_pool-flow ⦃d⦄ ⦃p⦄ s t env info pool_id recipient assets min_lp auto_stake msgs here
        canonical e =
      let staked = unwrap_or auto_stake false in
      let (pool, e1, r1) = >>=-eq-ok (or_err (lookup pool_id s.active_pools) invalid_pool_id) _ e in
      let (pool_config, e2, r2) =
        >>=-eq-ok (or_err (lookup pool.pool_type s.registry) (std not_found)) _ r1 in
      let (u3, e3, r3) = >>=-eq-ok (check_join_open s.config pool_config pool staked) _ r2 in
      let (join, e4, r4) = >>=-eq-ok (lift (p.on_join_pool pool.pool_addr assets)) _ r3 in
      let (u5, e5, r5) = >>=-eq-ok (check_join pool min_lp join) _ r4 in
      let found = or_err-eq-ok (lookup pool_id s.active_pools) invalid_pool_id e1 in
      save_join-flow s t env info pool_id recipient staked pool join msgs here found
        (canonical pool_id pool found) r5
