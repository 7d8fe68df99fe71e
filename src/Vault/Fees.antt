-- ===== src/Vault/Fees.antt =====
-- The limits of the fees in contracts/vault: each operation that stores a fee keeps them.
pub mod Steps
pub mod Runs
use dexter_core.Prelude.{
  ℕ, ◌≡◌, refl, ap, sym, ◌∙◌, Bool, true, false, ◌||◌, not, Option, none, some, List, [], ◌∷◌,
  String, arith, ◌==◌, if◌then◌else◌, Result, ok, err, nat_eq, unwrap_or, or_err, or_err-eq-ok,
  guard, contains, >>=-eq-ok, ok-injective, guard_step, ◌>>=◌, ◌>>◌,
}
use dexter_core.Prelude.Dict.{Dict, lookup, insert, lookup-insert}
use dexter_core.Prelude.Sort.{sort}
use dexter_core.Chain.{Addr, Name, Env, MessageInfo, not_found}
use dexter_core.Chain.Decimal.{Decimal}
use dexter_core.Chain.Text.{Text}
use dexter_core.Ownership.{addr_validate}
use dexter_core.Asset.{AssetInfo, Asset, addr_opt_validate}
use dexter_core.Vault.State.{
  PoolType, pool_type_eq, FeeInfo, valid_fee_info, PauseInfo, PoolTypeConfig, PoolInfo, TmpPoolInfo,
  Config, Storage, Pools, Msg, std, lift, unauthorized, invalid_code_id, invalid_fee_info,
  invalid_pool_id, pool_type_config_not_found, pool_type_config_duplicate, AllowPoolInstantiation,
  NativeAssetPrecisionInfo, lp_token_code_id_not_set, AutoStakeImpl, PoolCreationFee, ContractError,
}
use dexter_core.Vault.Admin.{
  InstantiateMsg, instantiate, save_configs, check_code_id, check_creation_fee, check_auto_stake,
  is_duplicate_free, only_owner, is_trusted, set_code_id, set_fee_collector, set_creation_fee,
  set_auto_stake, set_default_fee, set_instantiation, set_type_paused, set_pool_fee,
  set_pool_paused, PauseInfoUpdateType, by_pool_id, by_pool_type, execute_update_config,
  execute_update_pause_info, execute_update_pool_type_config, execute_update_pool_config,
  execute_update_pool_params, execute_add_address_to_whitelist,
  execute_remove_address_from_whitelist, execute_add_to_registry, must_be_new,
}
use dexter_core.Vault.Create.{
  check_instantiation, check_precisions, charge_creation_fee, asset_at_most, check_assets,
  tmp_pool_info_of, execute_create_pool_instance, reply_lp_token, reply_pool, reply,
}
use dexter_core.Vault.Execute.{
  Cw20HookMsg, exit_pool, ExecuteMsg, receive, update_config, add_address_to_whitelist,
  remove_address_from_whitelist, update_pause_info, update_pool_type_config, add_to_registry,
  create_pool_instance, update_pool_config, update_pool_params, join_pool, swap,
  propose_new_owner_msg, drop_ownership_proposal_msg, claim_ownership_msg, receive_cw20, execute,
  migrate,
}
use dexter_core.Vault.Shape.{IsRebalanced, join-IsRebalanced, exit-IsRebalanced, swap-IsRebalanced}

-- Every fee of a pool type is within the limits.
abbrev pub HasValidTypes : Dict PoolType PoolTypeConfig → Type 0
HasValidTypes registry =
    (pool_type : PoolType) (config : PoolTypeConfig)
    → lookup pool_type registry ≡ some config
    → valid_fee_info config.default_fee_info ≡ true

insert-HasValidTypes :
    (registry : Dict PoolType PoolTypeConfig) (pool_type : PoolType) (config : PoolTypeConfig)
    → HasValidTypes registry
    → valid_fee_info config.default_fee_info ≡ true
    → HasValidTypes (insert pool_type config registry)
insert-HasValidTypes registry pool_type config valid fee other found h =
    ground (arith, lookup-insert pool_type other config registry, valid other found, fee, h)

pub save_configs-HasValidTypes :
    (registry out : Dict PoolType PoolTypeConfig) (configs : List PoolTypeConfig)
    → HasValidTypes registry
    → save_configs registry configs ≡ ok out
    → HasValidTypes out
unfolding save_configs
save_configs-HasValidTypes registry out [] valid e =
    λ other found h. ground (arith, valid other found, ap (lookup other) (ok-injective e), h)
save_configs-HasValidTypes registry out (config ∷ configs) valid e =
    let (coded, r1) = guard_step (not (config.code_id == 0)) invalid_code_id _ e in
    let (fee, r2) = guard_step (valid_fee_info config.default_fee_info) invalid_fee_info _ r1 in
    save_configs-HasValidTypes (insert config.pool_type config registry) out configs
      (insert-HasValidTypes registry config.pool_type config valid fee) r2

abbrev pub HasValidPools : Dict ℕ PoolInfo → Type 0
HasValidPools pools =
    (id : ℕ) (pool : PoolInfo) → lookup id pools ≡ some pool → valid_fee_info pool.fee_info ≡ true

insert-HasValidPools :
    (pools : Dict ℕ PoolInfo) (id : ℕ) (pool : PoolInfo)
    → HasValidPools pools
    → valid_fee_info pool.fee_info ≡ true
    → HasValidPools (insert id pool pools)
insert-HasValidPools pools id pool valid fee other found h =
    ground (arith, lookup-insert id other pool pools, valid other found, fee, h)

-- The fee of the pool that is being made.
abbrev pub HasValidTmp : Option TmpPoolInfo → Type 0
HasValidTmp info = (tmp : TmpPoolInfo) → info ≡ some tmp → valid_fee_info tmp.fee_info ≡ true

pub record HasValidFees (s : Storage) : Type 0 where
  pub types : HasValidTypes s.registry
  pub pools : HasValidPools s.active_pools
  pub tmp : HasValidTmp s.tmp_pool_info

none-HasValidTypes : HasValidTypes []
unfolding lookup
none-HasValidTypes pool_type config h = ground (arith, h)

module _ (s u : Storage) (valid : HasValidFees s) where
  pub keep-fees :
      u.registry ≡ s.registry
      → u.active_pools ≡ s.active_pools
      → u.tmp_pool_info ≡ s.tmp_pool_info
      → HasValidFees u
  keep-fees k1 k2 k3 = record {
    types = λ kind config h. valid.types kind config (ap (lookup kind) (sym k1) ∙ h);
    pools = λ id pool h. valid.pools id pool (ap (lookup id) (sym k2) ∙ h);
    tmp = λ tmp h. valid.tmp tmp (sym k3 ∙ h);
  }

  pub save_pool-fees :
      (id : ℕ) (pool : PoolInfo)
      → valid_fee_info pool.fee_info ≡ true
      → u.registry ≡ s.registry
      → u.active_pools ≡ insert id pool s.active_pools
      → u.tmp_pool_info ≡ s.tmp_pool_info
      → HasValidFees u
  save_pool-fees id pool fee k1 k2 k3 = record {
    types = λ kind config h. valid.types kind config (ap (lookup kind) (sym k1) ∙ h);
    pools = λ other found h.
        insert-HasValidPools s.active_pools id pool valid.pools fee other found
          (ap (lookup other) (sym k2) ∙ h);
    tmp = λ tmp h. valid.tmp tmp (sym k3 ∙ h);
  }

  pub save_type-fees :
      (kind : PoolType) (config : PoolTypeConfig)
      → valid_fee_info config.default_fee_info ≡ true
      → u.registry ≡ insert kind config s.registry
      → u.active_pools ≡ s.active_pools
      → u.tmp_pool_info ≡ s.tmp_pool_info
      → HasValidFees u
  save_type-fees kind config fee k1 k2 k3 = record {
    types = λ other found h.
        insert-HasValidTypes s.registry kind config valid.types fee other found
          (ap (lookup other) (sym k1) ∙ h);
    pools = λ id pool h. valid.pools id pool (ap (lookup id) (sym k2) ∙ h);
    tmp = λ tmp h. valid.tmp tmp (sym k3 ∙ h);
  }

  pub save_tmp-fees :
      (tmp : TmpPoolInfo)
      → valid_fee_info tmp.fee_info ≡ true
      → u.registry ≡ s.registry
      → u.active_pools ≡ s.active_pools
      → u.tmp_pool_info ≡ some tmp
      → HasValidFees u
  save_tmp-fees tmp fee k1 k2 k3 = record {
    types = λ kind config h. valid.types kind config (ap (lookup kind) (sym k1) ∙ h);
    pools = λ id pool h. valid.pools id pool (ap (lookup id) (sym k2) ∙ h);
    tmp = λ other h. ground (arith, fee, k3, h);
  }

  pub rebalanced-fees : IsRebalanced s u → HasValidFees u
  rebalanced-fees r =
      save_pool-fees r.id (record (r.pool) { assets = r.balances })
        (valid.pools r.id r.pool r.found) (ap (λ x. x.registry) r.saved)
        (ap (λ x. x.active_pools) r.saved) (ap (λ x. x.tmp_pool_info) r.saved)

  pub pause-fees :
      (info : MessageInfo) (update_type : PauseInfoUpdateType) (pause_info : PauseInfo)
      (msgs : List Msg)
      → execute_update_pause_info s info update_type pause_info ≡ ok (u, msgs)
      → HasValidFees u
  unfolding execute_update_pause_info
  pause-fees info (by_pool_id id) pause_info msgs e =
      let (t1, r1) = guard_step (is_trusted s info.sender) unauthorized _ e in
      let (pool, e2, r2) = >>=-eq-ok (or_err (lookup id s.active_pools) invalid_pool_id) _ r1 in
      let done = ok-injective r2 in
      save_pool-fees id (record pool { paused = pause_info })
        (valid.pools id pool (or_err-eq-ok (lookup id s.active_pools) invalid_pool_id e2))
        (sym (ap (λ r. r.0.registry) done)) (sym (ap (λ r. r.0.active_pools) done))
        (sym (ap (λ r. r.0.tmp_pool_info) done))
  pause-fees info (by_pool_type kind) pause_info msgs e =
      let (t1, r1) = guard_step (is_trusted s info.sender) unauthorized _ e in
      let (config, e2, r2) =
        >>=-eq-ok (or_err (lookup kind s.registry) pool_type_config_not_found) _ r1 in
      let done = ok-injective r2 in
      save_type-fees kind (record config { paused = pause_info })
        (valid.types kind config
          (or_err-eq-ok (lookup kind s.registry) pool_type_config_not_found e2))
        (sym (ap (λ r. r.0.registry) done)) (sym (ap (λ r. r.0.active_pools) done))
        (sym (ap (λ r. r.0.tmp_pool_info) done))

  set_default_fee-valid :
      (fee : Option FeeInfo) (allow : Option AllowPoolInstantiation) (paused : Option PauseInfo)
      (old new : PoolTypeConfig)
      → valid_fee_info old.default_fee_info ≡ true
      → set_default_fee fee (set_instantiation allow old) ≡ ok new
      → valid_fee_info (set_type_paused paused new).default_fee_info ≡ true
  set_default_fee-valid fee allow paused old new h e = ground (arith, h)

  pub type_config-fees :
      (info : MessageInfo) (kind : PoolType) (allow : Option AllowPoolInstantiation)
      (fee : Option FeeInfo) (paused : Option PauseInfo) (msgs : List Msg)
      → execute_update_pool_type_config s info kind allow fee paused ≡ ok (u, msgs)
      → HasValidFees u
  unfolding execute_update_pool_type_config
  type_config-fees info kind allow fee paused msgs e =
      let (u1, e1, r1) = >>=-eq-ok (only_owner s info) _ e in
      let (old, e2, r2) =
        >>=-eq-ok (or_err (lookup kind s.registry) pool_type_config_not_found) _ r1 in
      let (new, e3, r3) = >>=-eq-ok (set_default_fee fee (set_instantiation allow old)) _ r2 in
      let done = ok-injective r3 in
      let saved = set_type_paused paused new in
      save_type-fees saved.pool_type saved
        (set_default_fee-valid fee allow paused old new
          (valid.types kind old
            (or_err-eq-ok (lookup kind s.registry) pool_type_config_not_found e2))
          e3)
        (sym (ap (λ r. r.0.registry) done)) (sym (ap (λ r. r.0.active_pools) done))
        (sym (ap (λ r. r.0.tmp_pool_info) done))

  set_pool_fee-valid :
      (fee : Option FeeInfo) (paused : Option PauseInfo) (old new : PoolInfo) (msgs : List Msg)
      → valid_fee_info old.fee_info ≡ true
      → set_pool_fee fee old ≡ ok (new, msgs)
      → valid_fee_info (set_pool_paused paused new).fee_info ≡ true
  set_pool_fee-valid fee paused old new msgs h e = ground (arith, h)

  pub pool_config-fees :
      (info : MessageInfo) (id : ℕ) (fee : Option FeeInfo) (paused : Option PauseInfo)
      (msgs : List Msg)
      → execute_update_pool_config s info id fee paused ≡ ok (u, msgs)
      → HasValidFees u
  unfolding execute_update_pool_config
  pool_config-fees info id fee paused msgs e =
      let (u1, e1, r1) = >>=-eq-ok (only_owner s info) _ e in
      let (old, e2, r2) = >>=-eq-ok (or_err (lookup id s.active_pools) (std not_found)) _ r1 in
      let ((new, out), e3, r3) = >>=-eq-ok (set_pool_fee fee old) _ r2 in
      let done = ok-injective r3 in
      save_pool-fees id (set_pool_paused paused new)
        (set_pool_fee-valid fee paused old new out
          (valid.pools id old (or_err-eq-ok (lookup id s.active_pools) (std not_found) e2)) e3)
        (sym (ap (λ r. r.0.registry) done)) (sym (ap (λ r. r.0.active_pools) done))
        (sym (ap (λ r. r.0.tmp_pool_info) done))

fees-of :
    (s : Storage) (registry : Dict PoolType PoolTypeConfig)
    → HasValidTypes registry
    → s.registry ≡ registry
    → s.active_pools ≡ []
    → s.tmp_pool_info ≡ none
    → HasValidFees s
unfolding lookup
fees-of s registry valid k1 k2 k3 = record {
  types = λ pool_type config h. valid pool_type config (ap (lookup pool_type) (sym k1) ∙ h);
  pools = λ id pool h. ground (arith, ap (lookup id) k2, h);
  tmp = λ tmp h. ground (arith, k3, h);
}

pub instantiate-HasValidFees :
    (env : Env) (msg : InstantiateMsg) (s : Storage) → instantiate env msg ≡ ok s → HasValidFees s
unfolding instantiate
instantiate-HasValidFees env msg s e =
    let (u1, r1) =
      guard_step (is_duplicate_free [] msg.pool_configs) pool_type_config_duplicate _ e in
    let (u2, e2, r2) = >>=-eq-ok (check_code_id msg.lp_token_code_id) _ r1 in
    let (u3, e3, r3) = >>=-eq-ok (check_creation_fee msg.pool_creation_fee) _ r2 in
    let (u4, e4, r4) = >>=-eq-ok (check_auto_stake env msg.auto_stake_impl) _ r3 in
    let (owner, e5, r5) = >>=-eq-ok (lift (addr_validate env msg.owner)) _ r4 in
    let (collector, e6, r6) = >>=-eq-ok (lift (addr_opt_validate env msg.fee_collector)) _ r5 in
    let (registry, e7, r7) = >>=-eq-ok (save_configs [] msg.pool_configs) _ r6 in
    let done = ok-injective r7 in
    fees-of s registry
      (save_configs-HasValidTypes [] registry msg.pool_configs none-HasValidTypes e7)
      (sym (ap (λ r. r.registry) done)) (sym (ap (λ r. r.active_pools) done))
      (sym (ap (λ r. r.tmp_pool_info) done))
