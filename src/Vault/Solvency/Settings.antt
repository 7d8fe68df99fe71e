-- ===== src/Vault/Solvency/Settings.antt =====
-- The books over the messages that change settings of contracts/vault.
use dexter_core.Prelude.{
  ℕ, ◌+◌, ◌-◌, ◌≤◌, ◌≡◌, refl, Bool, true, false, ◌&&◌, not, Option, none, some, List, [], ◌∷◌,
  ◌++◌, arith, ◌==◌, ==_iff, if◌then◌else◌, unwrap_or, ok, ◌∙◌, ap, sym, nat_eq, >>=-eq-ok,
  ok-injective, or_err, or_err-eq-ok, guard, ltb, contains, ◌>>=◌,
}
use dexter_core.Prelude.Dict.{lookup, insert}
use dexter_core.Chain.{Addr, Env, MessageInfo, not_found}
use dexter_core.Asset.{AssetInfo}
use dexter_core.Vault.State.{
  pool_type_eq, PoolType, FeeInfo, PauseInfo, AutoStakeImpl, AllowPoolInstantiation, PoolInfo,
  Storage, Msg, PoolCreationFee, pool_type_config_not_found, std, unauthorized, invalid_pool_id,
}
use dexter_core.Vault.Admin.{
  only_owner, is_trusted, set_code_id, set_fee_collector, set_creation_fee, set_auto_stake,
  set_default_fee, set_instantiation, set_pool_fee, set_pool_paused, PauseInfoUpdateType,
  by_pool_id, by_pool_type, execute_update_config, execute_update_pause_info,
  execute_update_pool_type_config, execute_update_pool_config,
}
use dexter_core.Vault.Books.{balance, pooled, pooled-insert, outflow, inflow, attached}

module _ (a : AssetInfo) where
  -- A pool is saved with the same balances.
  pub pooled-same :
      (s t : Storage) (id : ℕ) (old new : PoolInfo)
      → lookup id s.active_pools ≡ some old
      → t.active_pools ≡ insert id new s.active_pools
      → new.assets ≡ old.assets
      → pooled a t ≡ pooled a s
  pooled-same s t id old new h k same =
      omega (arith, pooled-insert a s t id old new h k, ap (balance a) same)

  pub pooled-config : (s t : Storage) → t.active_pools ≡ s.active_pools → pooled a t ≡ pooled a s
  unfolding pooled
  pooled-config s t k =
      ground (arith, ap (dexter_core.Prelude.Dict.sum (λ id pool. balance a pool.assets)) k)

  pub pause-flow :
      (s u : Storage) (info : MessageInfo) (update_type : PauseInfoUpdateType)
      (pause_info : PauseInfo) (msgs : List Msg)
      → execute_update_pause_info s info update_type pause_info ≡ ok (u, msgs)
      → (pooled a u ≡ pooled a s) × (outflow a msgs ≡ 0)
  unfolding execute_update_pause_info outflow
  pause-flow s u info (by_pool_id id) pause_info msgs e =
      let (u1, e1, r1) = >>=-eq-ok (guard (is_trusted s info.sender) unauthorized) _ e in
      let (pool, e2, r2) = >>=-eq-ok (or_err (lookup id s.active_pools) invalid_pool_id) _ r1 in
      let done = ok-injective r2 in
      (
        pooled-same s u id pool (record pool { paused = pause_info })
            (or_err-eq-ok (lookup id s.active_pools) invalid_pool_id e2)
            (sym (ap (λ r. r.0.active_pools) done)) refl,
        sym (ap (λ r. outflow a r.1) done),
      )
  pause-flow s u info (by_pool_type pool_type) pause_info msgs e =
      let (u1, e1, r1) = >>=-eq-ok (guard (is_trusted s info.sender) unauthorized) _ e in
      let (config, e2, r2) =
        >>=-eq-ok (or_err (lookup pool_type s.registry) pool_type_config_not_found) _ r1 in
      let done = ok-injective r2 in
      (
        pooled-config s u (sym (ap (λ r. r.0.active_pools) done)),
        sym (ap (λ r. outflow a r.1) done),
      )

  set_pool_fee-flow :
      (fee : Option FeeInfo) (pool new : PoolInfo) (msgs : List Msg)
      → set_pool_fee fee pool ≡ ok (new, msgs)
      → (new.assets ≡ pool.assets) × (outflow a msgs ≡ 0)
  unfolding outflow
  set_pool_fee-flow fee pool new msgs e = ground arith

  set_pool_paused-assets :
      (paused : Option PauseInfo) (pool : PoolInfo)
      → (set_pool_paused paused pool).assets ≡ pool.assets
  set_pool_paused-assets none pool = refl
  set_pool_paused-assets (some paused) pool = refl

  pub pool_config-flow :
      (s u : Storage) (info : MessageInfo) (id : ℕ) (fee : Option FeeInfo)
      (paused : Option PauseInfo) (msgs : List Msg)
      → execute_update_pool_config s info id fee paused ≡ ok (u, msgs)
      → (pooled a u ≡ pooled a s) × (outflow a msgs ≡ 0)
  unfolding execute_update_pool_config
  pool_config-flow s u info id fee paused msgs e =
      let (u1, e1, r1) = >>=-eq-ok (only_owner s info) _ e in
      let (pool, e2, r2) = >>=-eq-ok (or_err (lookup id s.active_pools) (std not_found)) _ r1 in
      let ((new, out), e3, r3) = >>=-eq-ok (set_pool_fee fee pool) _ r2 in
      let (same, silent) = set_pool_fee-flow fee pool new out e3 in
      let done = ok-injective r3 in
      (
        pooled-same s u id pool (set_pool_paused paused new)
            (or_err-eq-ok (lookup id s.active_pools) (std not_found) e2)
            (sym (ap (λ r. r.0.active_pools) done)) (set_pool_paused-assets paused new ∙ same),
        ap (λ r. outflow a r.1) (sym done) ∙ silent,
      )

  pub settings-flow :
      (s u : Storage) (env : Env) (info : MessageInfo) (msgs : List Msg)
      → ((u.active_pools ≡ s.active_pools) × (msgs ≡ []))
      → pooled a u + outflow a msgs
        ≤ pooled a s + (inflow env.contract_address a msgs + attached a info)
  unfolding outflow inflow
  settings-flow s u env info msgs (kept, silent) = omega (
    arith,
    pooled-config s u kept,
    ap (outflow a) silent,
    ap (inflow env.contract_address a) silent,
  )

-- The settings that are not in the pools.
pub config-kept :
    (s u : Storage) (env : Env) (info : MessageInfo) (code_id : Option ℕ) (collector : Option Addr)
    (creation_fee : Option PoolCreationFee) (auto_stake : Option AutoStakeImpl)
    (paused : Option PauseInfo) (msgs : List Msg)
    → execute_update_config s env info code_id collector creation_fee auto_stake paused
      ≡ ok (u, msgs)
    → (u.active_pools ≡ s.active_pools) × (msgs ≡ [])
unfolding execute_update_config
config-kept s u env info code_id collector creation_fee auto_stake paused msgs e =
    let (u1, e1, r1) = >>=-eq-ok (only_owner s info) _ e in
    let (c1, e2, r2) = >>=-eq-ok (set_code_id code_id s.config) _ r1 in
    let (c2, e3, r3) = >>=-eq-ok (set_fee_collector env collector c1) _ r2 in
    let (c3, e4, r4) = >>=-eq-ok (set_creation_fee creation_fee c2) _ r3 in
    let (c4, e5, r5) = >>=-eq-ok (set_auto_stake env auto_stake c3) _ r4 in
    let done = ok-injective r5 in (sym (ap (λ r. r.0.active_pools) done), sym (ap (λ r. r.1) done))

pub type_config-kept :
    (s u : Storage) (info : MessageInfo) (pool_type : PoolType)
    (allow : Option AllowPoolInstantiation) (fee : Option FeeInfo) (paused : Option PauseInfo)
    (msgs : List Msg)
    → execute_update_pool_type_config s info pool_type allow fee paused ≡ ok (u, msgs)
    → (u.active_pools ≡ s.active_pools) × (msgs ≡ [])
unfolding execute_update_pool_type_config
type_config-kept s u info pool_type allow fee paused msgs e =
    let (u1, e1, r1) = >>=-eq-ok (only_owner s info) _ e in
    let (c1, e2, r2) =
      >>=-eq-ok (or_err (lookup pool_type s.registry) pool_type_config_not_found) _ r1 in
    let (c2, e3, r3) = >>=-eq-ok (set_default_fee fee (set_instantiation allow c1)) _ r2 in
    let done = ok-injective r3 in (sym (ap (λ r. r.0.active_pools) done), sym (ap (λ r. r.1) done))
