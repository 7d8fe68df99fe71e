-- ===== src/Vault/Books/Swap.antt =====
-- The books over a swap: contracts/vault/src/contract.rs, `execute_swap`.
pub mod One
pub mod Loop
use dexter_core.Prelude.{
  ℕ, ◌+◌, ◌≤◌, ◌≡◌, refl, Bool, true, false, ◌&&◌, ◌||◌, not, Option, none, some, List, [], ◌∷◌,
  ◌++◌, All, arith, if◌then◌else◌, ok, ap, sym, ◌∙◌, Result, ◌⊎◌, inl, inr, nat_eq, >>=-eq-ok,
  ok-injective, or_err, or_err-eq-ok,
}
use dexter_core.Prelude.Dict.{lookup}
use dexter_core.Chain.{Addr, Env, MessageInfo, not_found, overflow}
use dexter_core.Chain.Decimal.{Decimal}
use dexter_core.Chain.Words.{add_u128, checked_sub}
use dexter_core.Chain.Text.{Text}
use dexter_core.Asset.{AssetInfo, asset_beq, asset_beq_iff, Asset}
use dexter_core.Vault.State.{
  pool_type_eq, SwapType, SwapResponse, PoolInfo, Storage, Pools, Msg, update_liquidity,
  ContractError, std, lift, lift-eq-ok, invalid_pool_id,
}
use dexter_core.Vault.Swap.{
  SingleSwapRequest, Pass, less_fee, take_offer, swap_in, swap_out, offer_step, ask_step,
  swap_asset, stop_or_go, swap_assets, matches_offer, check_swap_request, check_swap_open,
  check_swap, check_updated, check_max_spend, check_min_receive, swap_fee, transfer_swap_fee,
  swap_recipient, save_swap, execute_swap,
}
use dexter_core.Vault.Books.{
  balance, taken, pooled, pooled-save, outflow, inflow, outflow-append, inflow-append, stands_in,
  attached, taken-transfer, is_lower, IsCanonical, books-cons, stands_in-apart, canonical-text,
  transfer_fee-outflow,
}
use dexter_core.Vault.Books.Swap.Loop.{stop_or_go-cases, charged, swap_assets-flow}

module _ (a : AssetInfo) (vault : Addr) (fee : Asset) (protocol_fee : ℕ) where
  fee-charged :
      ⦃t : Text⦄
      → (env : Env) (info : MessageInfo) (offer ask : Asset)
      → (asset_beq fee.info offer.info || asset_beq fee.info ask.info) ≡ true
      → (if asset_beq fee.info a then protocol_fee else 0)
        ≤ charged a vault fee protocol_fee env info offer ask false false true true
  fee-charged env info offer ask traded =
      let at_offer : (asset_beq fee.info offer.info ≡ true
          → asset_beq fee.info a ≡ asset_beq offer.info a) =
        λ h. ap (λ i. asset_beq i a) ((asset_beq_iff fee.info offer.info).0 h) in
      let at_ask : (asset_beq fee.info ask.info ≡ true
          → asset_beq fee.info a ≡ asset_beq ask.info a) =
        λ h. ap (λ i. asset_beq i a) ((asset_beq_iff fee.info ask.info).0 h) in
      ground (arith, traded, at_offer, at_ask)

  paid-charged :
      ⦃t : Text⦄
      → (env : Env) (info : MessageInfo) (offer ask : Asset) (pass : Pass) (fees : List Msg)
        (u : Unit)
      → check_updated pass ≡ ok u
      → (asset_beq fee.info offer.info || asset_beq fee.info ask.info) ≡ true
      → outflow a fees ≡ (if asset_beq fee.info a then protocol_fee else 0)
      → outflow a fees
        ≤ charged a vault fee protocol_fee env info offer ask false false pass.offer_asset_updated
            pass.ask_asset_updated
  paid-charged env info offer ask pass fees u e traded out =
      ground (arith, out, fee-charged env info offer ask traded)

  -- The messages of a swap: the pass over the assets, the pool's new balances, the fee.
  swap-flow :
      (stored balances : List Asset) (b : Bool) (n due : ℕ) (last : Msg)
      (moves fees msgs : List Msg)
      → taken a last ≡ 0
      → balance a balances + due + outflow a moves
        ≤ balance a stored + inflow vault a moves + (if b then n else 0)
      → outflow a fees ≤ due
      → msgs ≡ moves ++ last ∷ fees
      → balance a balances + outflow a msgs ≤ balance a stored + (inflow vault a msgs + n)
  unfolding outflow inflow
  swap-flow stored balances b n due last moves fees msgs silent flow paid k = ground (
    arith,
    silent,
    flow,
    paid,
    ap (outflow a) k,
    ap (inflow vault a) k,
    outflow-append a moves (last ∷ fees),
    inflow-append vault a moves (last ∷ fees),
  )

  save_swap-fee :
      ⦃t : Text⦄
      → ⦃d : Decimal⦄
      → (s u : Storage) (env : Env) (info : MessageInfo) (recipient : Addr) (pool_id : ℕ)
        (pool : PoolInfo) (offer ask : Asset) (msgs : List Msg)
      → env.contract_address ≡ vault
      → lookup pool_id s.active_pools ≡ some pool
      → IsCanonical pool.assets
      → stands_in offer.info pool.assets ≡ true
      → (asset_beq fee.info offer.info || asset_beq fee.info ask.info) ≡ true
      → save_swap s env info recipient pool_id protocol_fee pool (some fee) offer ask ≡ ok (u, msgs)
      → pooled a u + outflow a msgs ≤ pooled a s + (inflow vault a msgs + attached a info)
  unfolding save_swap
  save_swap-fee s u env info recipient pool_id pool offer ask msgs here found canonical listed
        traded e =
      let (pass, e1, r1) =
        >>=-eq-ok
          (swap_assets env info recipient (some fee) protocol_fee offer ask false false pool.assets)
          _ e in
      let (u2, e2, r2) = >>=-eq-ok (check_updated pass) _ r1 in
      let (fees, e3, r3) =
        >>=-eq-ok (transfer_swap_fee (some fee) s.config.fee_collector protocol_fee) _ r2 in
      let flow =
        swap_assets-flow a vault fee protocol_fee env info recipient offer ask false false
          pool.assets pass here canonical (canonical-text offer.info pool.assets canonical listed)
          e1 in
      let out = transfer_fee-outflow a fee.info s.config.fee_collector protocol_fee fees e3 in
      let due' =
        charged a vault fee protocol_fee env info offer ask false false pass.offer_asset_updated
          pass.ask_asset_updated in
      let done = ok-injective r3 in
      let paid : outflow a fees ≤ due' =
        paid-charged env info offer ask pass fees u2 e2 traded out in
      let moved =
        swap-flow pool.assets pass.assets (stands_in a pool.assets) (attached a info) due'
          (update_liquidity pool.pool_addr pass.assets) pass.msgs fees msgs refl flow paid
          (sym (ap (λ r. r.1) done)) in
      pooled-save a s u pool_id pool pass.assets (outflow a msgs)
        (inflow vault a msgs + attached a info) found (sym (ap (λ r. r.0.active_pools) done)) moved

module _ ⦃t : Text⦄ where
  swap_asset-none :
      (env : Env) (info : MessageInfo) (recipient : Addr) (fee : ℕ) (offer ask b asset : Asset)
      (msgs : List Msg)
      → swap_asset env info recipient none fee offer ask b ≡ ok (asset, msgs)
      → matches_offer offer b ≡ false
  unfolding swap_asset offer_step swap_in
  swap_asset-none env info recipient fee offer ask b asset msgs e = ground arith

  -- Without a fee in the answer the loop cannot meet the offer.
  swap_assets-none :
      (env : Env) (info : MessageInfo) (recipient : Addr) (fee : ℕ) (offer ask : Asset) (o k : Bool)
      (stored : List Asset) (pass : Pass)
      → o ≡ false
      → swap_assets env info recipient none fee offer ask o k stored ≡ ok pass
      → pass.offer_asset_updated ≡ false
  unfolding swap_assets
  swap_assets-none env info recipient fee offer ask o k [] pass unset e = ground (arith, unset)
  swap_assets-none env info recipient fee offer ask o k (b ∷ stored) pass unset e =
      let o' = o || matches_offer offer b in
      let k' = k || asset_beq b.info ask.info in
      let ((asset, moves), e1, r1) =
        >>=-eq-ok (swap_asset env info recipient none fee offer ask b) _ e in
      let (more, shape, how) = stop_or_go-cases (o' && k') asset moves stored _ pass r1 in
      let unset' : o' ≡ false =
        ground (arith, unset, swap_asset-none env info recipient fee offer ask b asset moves e1) in
      elim how [
        | inl e2 ↦
            ap (λ p. p.offer_asset_updated) shape
            ∙ swap_assets-none env info recipient fee offer ask o' k' stored more unset' e2
        | inr (both, rest) ↦ ground (arith, both, unset')
      ]

  pub save_swap-flow :
      ⦃d : Decimal⦄
      → (a : AssetInfo) (vault : Addr) (s u : Storage) (env : Env) (info : MessageInfo)
        (recipient : Addr) (pool_id protocol_fee : ℕ) (pool : PoolInfo) (fee : Option Asset)
        (offer ask : Asset) (msgs : List Msg)
      → env.contract_address ≡ vault
      → lookup pool_id s.active_pools ≡ some pool
      → IsCanonical pool.assets
      → stands_in offer.info pool.assets ≡ true
      → ((f : Asset)
          → fee ≡ some f
          → (asset_beq f.info offer.info || asset_beq f.info ask.info) ≡ true)
      → save_swap s env info recipient pool_id protocol_fee pool fee offer ask ≡ ok (u, msgs)
      → pooled a u + outflow a msgs ≤ pooled a s + (inflow vault a msgs + attached a info)
  unfolding save_swap
  save_swap-flow a vault s u env info recipient pool_id fee pool none offer ask msgs here found
        canonical listed traded e =
      let (pass, e1, r1) =
        >>=-eq-ok (swap_assets env info recipient none fee offer ask false false pool.assets) _ e in
      let (u2, e2, r2) = >>=-eq-ok (check_updated pass) _ r1 in
      let never =
        swap_assets-none env info recipient fee offer ask false false pool.assets pass refl e1 in
      ground (arith, e2, never)
  save_swap-flow a vault s u env info recipient pool_id fee pool (some f) offer ask msgs here found
        canonical listed traded e =
      save_swap-fee a vault f fee s u env info recipient pool_id pool offer ask msgs here found
        canonical listed (traded f refl) e

-- What the vault relies on in a pool that answers a swap with success: it trades the offered asset, and
-- charges the fee in one of the two.
abbrev pub HasSoundSwaps : ⦃p : Pools⦄ → Storage → Type 0
HasSoundSwaps ⦃p⦄ s =
    (id : ℕ) (pool : PoolInfo) (swap_type : SwapType) (x y : AssetInfo) (n : ℕ)
    (swap : SwapResponse)
    → lookup id s.active_pools ≡ some pool
    → p.on_swap pool.pool_addr swap_type x y n ≡ ok swap
    → (stands_in x pool.assets ≡ true)
      × ((f : Asset) → swap.fee ≡ some f → (asset_beq f.info x || asset_beq f.info y) ≡ true)

module _ ⦃t : Text⦄ ⦃d : Decimal⦄ ⦃p : Pools⦄ where
  pub execute_swap-flow :
      (a : AssetInfo) (vault : Addr) (s u : Storage) (env : Env) (info : MessageInfo)
      (request : SingleSwapRequest) (recipient : Option Addr) (min_receive max_spend : Option ℕ)
      (msgs : List Msg)
      → env.contract_address ≡ vault
      → ((id : ℕ) (pool : PoolInfo)
          → lookup id s.active_pools ≡ some pool
          → IsCanonical pool.assets)
      → HasSoundSwaps s
      → execute_swap s env info request recipient min_receive max_spend ≡ ok (u, msgs)
      → pooled a u + outflow a msgs ≤ pooled a s + (inflow vault a msgs + attached a info)
  unfolding execute_swap
  execute_swap-flow a vault s u env info request recipient min_receive max_spend msgs here canonical
        sound e =
      let id = request.pool_id in
      let x = request.asset_in in
      let y = request.asset_out in
      let (to, e1, r1) = >>=-eq-ok (swap_recipient env info recipient) _ e in
      let (u2, e2, r2) = >>=-eq-ok (check_swap_request request) _ r1 in
      let (pool, e3, r3) = >>=-eq-ok (or_err (lookup id s.active_pools) invalid_pool_id) _ r2 in
      let (pool_config, e4, r4) =
        >>=-eq-ok (or_err (lookup pool.pool_type s.registry) (std not_found)) _ r3 in
      let (u5, e5, r5) = >>=-eq-ok (check_swap_open s.config pool_config pool) _ r4 in
      let (swap, e6, r6) =
        >>=-eq-ok (lift (p.on_swap pool.pool_addr request.swap_type x y request.amount)) _ r5 in
      let (u7, e7, r7) = >>=-eq-ok (check_swap swap) _ r6 in
      let offer : Asset = record { info = x; amount = swap.amount_in } in
      let ask : Asset = record { info = y; amount = swap.amount_out } in
      let (fee, e8, r8) = >>=-eq-ok (swap_fee s.config pool.fee_info swap.fee) _ r7 in
      let (u9, e9, r9) = >>=-eq-ok (check_max_spend max_spend offer.amount) _ r8 in
      let (u10, e10, r10) = >>=-eq-ok (check_min_receive min_receive ask.amount) _ r9 in
      let found = or_err-eq-ok (lookup id s.active_pools) invalid_pool_id e3 in
      let answer = lift-eq-ok (p.on_swap pool.pool_addr request.swap_type x y request.amount) e6 in
      let (listed, traded) = sound id pool request.swap_type x y request.amount swap found answer in
      save_swap-flow a vault s u env info to id fee pool swap.fee offer ask msgs here found
        (canonical id pool found) listed traded r10
