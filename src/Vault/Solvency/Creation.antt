-- ===== src/Vault/Solvency/Creation.antt =====
-- The books over the creation of a pool and its fee, in contracts/vault.
use dexter_core.Prelude.{
  ℕ, ◌+◌, ◌≤◌, ◌≡◌, refl, Option, List, [], ◌∷◌, ◌++◌, arith, ==_iff, if◌then◌else◌, unwrap_or, ok,
  ap, sym, nat_eq, >>=-eq-ok, ok-injective, or_err, ◌>>=◌,
}
use dexter_core.Prelude.Dict.{lookup}
use dexter_core.Chain.{Addr, Name, Env, MessageInfo}
use dexter_core.Chain.Words.{checked_sub}
use dexter_core.Chain.Text.{Text}
use dexter_core.Asset.{
  AssetInfo, token, native_token, asset_beq, asset_beq_iff, create_transfer_msg,
}
use dexter_core.Vault.State.{
  pool_type_eq, PoolType, FeeInfo, NativeAssetPrecisionInfo, Config, Storage, Msg, pay,
  PoolCreationFee, disabled, enabled, fee_collector_not_set, lp_token_code_id_not_set,
  pool_type_config_not_found,
}
use dexter_core.Prelude.Sort.{sort}
use dexter_core.Vault.Create.{
  collect_creation_fee, charge_creation_fee, check_instantiation, check_precisions, asset_at_most,
  check_assets, tmp_pool_info_of, execute_create_pool_instance,
}
use dexter_core.Vault.Books.{
  pooled, outflow, inflow, outflow-append, inflow-append, attached, taken-transfer,
  brought-transfer,
}
use dexter_core.Vault.Solvency.Settings.{pooled-config}

module _ (a : AssetInfo) where
  collect_creation_fee-flow :
      (env : Env) (info : MessageInfo) (b : AssetInfo) (amount : ℕ) (msgs : List Msg)
      → collect_creation_fee env info b amount ≡ ok msgs
      → (if asset_beq b a then amount else 0) + outflow a msgs
        ≤ inflow env.contract_address a msgs + (if asset_beq b a then attached a info else 0)
  unfolding collect_creation_fee outflow inflow checked_sub
  collect_creation_fee-flow env info (native_token denom) amount msgs e =
      ground (arith, asset_beq_iff (native_token denom) a)
  collect_creation_fee-flow env info (token contract_addr) amount msgs e = ground (
    arith,
    asset_beq_iff (token contract_addr) a,
    ==_iff env.contract_address env.contract_address,
  )

  charge-sum :
      (vault : Addr) (b : AssetInfo) (n m : ℕ) (collector : Addr) (moves msgs : List Msg)
      → (if asset_beq b a then n else 0) + outflow a moves
        ≤ inflow vault a moves + (if asset_beq b a then m else 0)
      → msgs ≡ moves ++ pay (create_transfer_msg b collector n) ∷ []
      → outflow a msgs ≤ inflow vault a msgs + m
  unfolding outflow inflow
  charge-sum vault b n m collector moves msgs flow k =
      let last = pay (create_transfer_msg b collector n) ∷ [] in
      ground (
        arith,
        flow,
        taken-transfer a b collector n,
        brought-transfer vault a b collector n,
        ap (outflow a) k,
        ap (inflow vault a) k,
        outflow-append a moves last,
        inflow-append vault a moves last,
      )

  charge-flow :
      (env : Env) (info : MessageInfo) (fee : PoolCreationFee) (config : Config) (msgs : List Msg)
      → config.pool_creation_fee ≡ fee
      → charge_creation_fee env info config ≡ ok msgs
      → outflow a msgs ≤ inflow env.contract_address a msgs + attached a info
  unfolding charge_creation_fee outflow inflow
  charge-flow env info disabled config msgs k e = ground (arith, k)
  charge-flow env info (enabled fee) config msgs k e =
      let (moves, e1, r1) =
        >>=-eq-ok (collect_creation_fee env info fee.info fee.amount)
          (λ moves. or_err config.fee_collector fee_collector_not_set >>= λ collector.
            ok (moves ++ pay (create_transfer_msg fee.info collector fee.amount) ∷ []))
          (rw k at e) in
      let (collector, e2, r2) =
        >>=-eq-ok (or_err config.fee_collector fee_collector_not_set) _ r1 in
      charge-sum env.contract_address fee.info fee.amount (attached a info) collector moves msgs
        (collect_creation_fee-flow env info fee.info fee.amount moves e1) (sym (ok-injective r2))

  module _ ⦃t : Text⦄ where
    pub create-flow :
        (s u : Storage) (env : Env) (info : MessageInfo) (pool_type : PoolType)
        (infos : List AssetInfo) (precisions : List NativeAssetPrecisionInfo)
        (fee_info : Option FeeInfo) (init_params : Option Name) (msgs : List Msg)
        → execute_create_pool_instance s env info pool_type infos precisions fee_info init_params
          ≡ ok (u, msgs)
        → pooled a u + outflow a msgs
          ≤ pooled a s + (inflow env.contract_address a msgs + attached a info)
    unfolding execute_create_pool_instance outflow inflow
    create-flow s u env info pool_type infos precisions fee_info init_params msgs e =
        let (type_config, e1, r1) =
          >>=-eq-ok (or_err (lookup pool_type s.registry) pool_type_config_not_found) _ e in
        let (u2, e2, r2) =
          >>=-eq-ok (check_instantiation s info type_config.allow_instantiation) _ r1 in
        let (u3, e3, r3) = >>=-eq-ok (check_precisions infos precisions) _ r2 in
        let (moves, e4, r4) = >>=-eq-ok (charge_creation_fee env info s.config) _ r3 in
        let (assets, e5, r5) =
          >>=-eq-ok (check_assets env t.empty (sort asset_at_most infos)) _ r4 in
        let (tmp, e6, r6) =
          >>=-eq-ok
            (tmp_pool_info_of s.config type_config (unwrap_or fee_info type_config.default_fee_info)
              assets precisions init_params)
            _ r5 in
        let (code_id, e7, r7) =
          >>=-eq-ok (or_err s.config.lp_token_code_id lp_token_code_id_not_set) _ r6 in
        let done = ok-injective r7 in
        let flow = charge-flow env info s.config.pool_creation_fee s.config moves refl e4 in
        let kept = pooled-config a s u (sym (ap (λ r. r.0.active_pools) done)) in
        omega (
          arith,
          flow,
          kept,
          ap (λ r. outflow a r.1) done,
          ap (λ r. inflow env.contract_address a r.1) done,
        )
