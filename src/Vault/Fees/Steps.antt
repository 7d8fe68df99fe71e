-- ===== src/Vault/Fees/Steps.antt =====
-- The limits of the fees over the creation of a pool, the replies and the migration.
use text.Mathlib.Text.{◌==◌ as str_eq}
use dexter_core.Prelude.{
  Bool-cases, inl, inr, ℕ, ◌≡◌, ap, sym, ◌∙◌, true, not, Option, some, List, String, ◌==◌,
  if◌then◌else◌, ok, err, nat_eq, unwrap_or, or_err, or_err-eq-ok, or_panic, >>=-eq-ok,
  ok-injective, guard_step,
}
use dexter_core.Prelude.Dict.{lookup}
use dexter_core.Prelude.Sort.{sort}
use dexter_core.Chain.{Addr, Name, Env, MessageInfo, not_found, overflow}
use dexter_core.Chain.Text.{Text}
use dexter_core.Chain.Words.{add_u128}
use dexter_core.Ownership.{addr_validate}
use dexter_core.Asset.{AssetInfo, Asset}
use dexter_core.Vault.State.{
  PoolType, pool_type_eq, FeeInfo, valid_fee_info, PauseInfo, not_paused, PoolTypeConfig,
  TmpPoolInfo, Storage, Msg, std, lift, invalid_code_id, invalid_fee_info, invalid_sub_msg_id,
  invalid_contract_name_for_migration, invalid_contract_version_for_upgrade,
  pool_type_config_not_found, NativeAssetPrecisionInfo, lp_token_code_id_not_set, AutoStakeImpl,
  PoolCreationFee,
}
use dexter_core.Vault.Admin.{
  save_configs, only_owner, set_code_id, set_fee_collector, set_creation_fee, set_auto_stake,
  execute_update_config, execute_add_to_registry, must_be_new,
}
use dexter_core.Vault.Create.{
  check_instantiation, check_precisions, charge_creation_fee, asset_at_most, check_assets,
  tmp_pool_info_of, execute_create_pool_instance, reply_lp_token, reply_pool, reply,
}
use dexter_core.Vault.Execute.{migrate}
use dexter_core.Vault.Fees.{
  HasValidFees, keep-fees, save_pool-fees, save_type-fees, save_tmp-fees,
  save_configs-HasValidTypes,
}

module _ (s u : Storage) (valid : HasValidFees s) where
  pub add-fees :
      (info : MessageInfo) (config : PoolTypeConfig) (msgs : List Msg)
      → execute_add_to_registry s info config ≡ ok (u, msgs)
      → HasValidFees u
  unfolding execute_add_to_registry
  add-fees info config msgs e =
      let (u1, e1, r1) = >>=-eq-ok (only_owner s info) _ e in
      let (t2, r2) = guard_step (not (config.code_id == 0)) invalid_code_id _ r1 in
      let (u3, e3, r3) = >>=-eq-ok (must_be_new (lookup config.pool_type s.registry)) _ r2 in
      let (fee, r4) = guard_step (valid_fee_info config.default_fee_info) invalid_fee_info _ r3 in
      let done = ok-injective r4 in
      save_type-fees s u valid config.pool_type config fee (sym (ap (λ r. r.0.registry) done))
        (sym (ap (λ r. r.0.active_pools) done)) (sym (ap (λ r. r.0.tmp_pool_info) done))

  pub config-fees :
      (env : Env) (info : MessageInfo) (code_id : Option ℕ) (collector : Option Addr)
      (creation_fee : Option PoolCreationFee) (auto_stake : Option AutoStakeImpl)
      (paused : Option PauseInfo) (msgs : List Msg)
      → execute_update_config s env info code_id collector creation_fee auto_stake paused
        ≡ ok (u, msgs)
      → HasValidFees u
  unfolding execute_update_config
  config-fees env info code_id collector creation_fee auto_stake paused msgs e =
      let (u1, e1, r1) = >>=-eq-ok (only_owner s info) _ e in
      let (c1, e2, r2) = >>=-eq-ok (set_code_id code_id s.config) _ r1 in
      let (c2, e3, r3) = >>=-eq-ok (set_fee_collector env collector c1) _ r2 in
      let (c3, e4, r4) = >>=-eq-ok (set_creation_fee creation_fee c2) _ r3 in
      let (c4, e5, r5) = >>=-eq-ok (set_auto_stake env auto_stake c3) _ r4 in
      let done = ok-injective r5 in
      keep-fees s u valid (sym (ap (λ r. r.0.registry) done))
        (sym (ap (λ r. r.0.active_pools) done)) (sym (ap (λ r. r.0.tmp_pool_info) done))

  tmp_pool_info_of-valid :
      (type_config : PoolTypeConfig) (fee : FeeInfo) (assets : List Asset)
      (precisions : List NativeAssetPrecisionInfo) (init_params : Option Name) (tmp : TmpPoolInfo)
      → tmp_pool_info_of s.config type_config fee assets precisions init_params ≡ ok tmp
      → valid_fee_info tmp.fee_info ≡ true
  unfolding tmp_pool_info_of
  tmp_pool_info_of-valid type_config fee assets precisions init_params tmp e =
      let (h, r) = guard_step (valid_fee_info fee) invalid_fee_info _ e in
      ap (λ x. valid_fee_info x.fee_info) (sym (ok-injective r)) ∙ h

  pub create-fees :
      ⦃t : Text⦄
      → (env : Env) (info : MessageInfo) (pool_type : PoolType) (infos : List AssetInfo)
        (precisions : List NativeAssetPrecisionInfo) (fee_info : Option FeeInfo)
        (init_params : Option Name) (msgs : List Msg)
      → execute_create_pool_instance s env info pool_type infos precisions fee_info init_params
        ≡ ok (u, msgs)
      → HasValidFees u
  unfolding execute_create_pool_instance
  create-fees ⦃t⦄ env info pool_type infos precisions fee_info init_params msgs e =
      let (type_config, e1, r1) =
        >>=-eq-ok (or_err (lookup pool_type s.registry) pool_type_config_not_found) _ e in
      let (u2, e2, r2) =
        >>=-eq-ok (check_instantiation s info type_config.allow_instantiation) _ r1 in
      let (u3, e3, r3) = >>=-eq-ok (check_precisions infos precisions) _ r2 in
      let (moves, e4, r4) = >>=-eq-ok (charge_creation_fee env info s.config) _ r3 in
      let (assets, e5, r5) = >>=-eq-ok (check_assets env t.empty (sort asset_at_most infos)) _ r4 in
      let fee = unwrap_or fee_info type_config.default_fee_info in
      let (tmp, e6, r6) =
        >>=-eq-ok (tmp_pool_info_of s.config type_config fee assets precisions init_params) _ r5 in
      let (code_id, e7, r7) =
        >>=-eq-ok (or_err s.config.lp_token_code_id lp_token_code_id_not_set) _ r6 in
      let done = ok-injective r7 in
      save_tmp-fees s u valid tmp
        (tmp_pool_info_of-valid type_config fee assets precisions init_params tmp e6)
        (sym (ap (λ r. r.0.registry) done)) (sym (ap (λ r. r.0.active_pools) done))
        (sym (ap (λ r. r.0.tmp_pool_info) done))

  pub reply_lp-fees :
      (env : Env) (tmp : TmpPoolInfo) (contract_address : Name) (msgs : List Msg)
      → s.tmp_pool_info ≡ some tmp
      → reply_lp_token s env tmp contract_address ≡ ok (u, msgs)
      → HasValidFees u
  unfolding reply_lp_token
  reply_lp-fees env tmp contract_address msgs h e =
      let (lp, e1, r1) = >>=-eq-ok (lift (addr_validate env contract_address)) _ e in
      let done = ok-injective r1 in
      save_tmp-fees s u valid (record tmp { lp_token_addr = some lp }) (valid.tmp tmp h)
        (sym (ap (λ r. r.0.registry) done)) (sym (ap (λ r. r.0.active_pools) done))
        (sym (ap (λ r. r.0.tmp_pool_info) done))

  pub reply_pool-fees :
      (env : Env) (tmp : TmpPoolInfo) (contract_address : Name) (msgs : List Msg)
      → s.tmp_pool_info ≡ some tmp
      → reply_pool s env tmp contract_address ≡ ok (u, msgs)
      → HasValidFees u
  unfolding reply_pool
  reply_pool-fees env tmp contract_address msgs h e =
      let (pool_addr, e1, r1) = >>=-eq-ok (lift (addr_validate env contract_address)) _ e in
      let (lp, e2, r2) = >>=-eq-ok (or_panic tmp.lp_token_addr) _ r1 in
      let (next_id, e3, r3) =
        >>=-eq-ok (or_err (add_u128 s.config.next_pool_id 1) (std overflow)) _ r2 in
      let done = ok-injective r3 in
      save_pool-fees s u valid tmp.pool_id
        (record {
          pool_id = tmp.pool_id;
          pool_addr = pool_addr;
          lp_token_addr = lp;
          fee_info = tmp.fee_info;
          assets = tmp.assets;
          pool_type = tmp.pool_type;
          paused = not_paused;
        })
        (valid.tmp tmp h) (sym (ap (λ r. r.0.registry) done))
        (sym (ap (λ r. r.0.active_pools) done)) (sym (ap (λ r. r.0.tmp_pool_info) done))

  reply-step :
      (env : Env) (id : ℕ) (tmp : TmpPoolInfo) (contract_address : Name) (msgs : List Msg)
      → s.tmp_pool_info ≡ some tmp
      → (if id == 1
          then reply_lp_token s env tmp contract_address
          else if id == 2
          then reply_pool s env tmp contract_address
          else err invalid_sub_msg_id)
        ≡ ok (u, msgs)
      → HasValidFees u
  reply-step env id tmp contract_address msgs h e = elim (Bool-cases (id == 1)) [
    | inl one ↦ reply_lp-fees env tmp contract_address msgs h (rw one at e)
    | inr other ↦ elim (Bool-cases (id == 2)) [
      | inl two ↦ reply_pool-fees env tmp contract_address msgs h (rw (other, two) at e)
      | inr neither ↦ (let bad = rw (other, neither) at e in cc)
    ]
  ]

  pub reply-fees :
      (env : Env) (id : ℕ) (contract_address : Name) (msgs : List Msg)
      → reply s env id contract_address ≡ ok (u, msgs)
      → HasValidFees u
  unfolding reply
  reply-fees env id contract_address msgs e =
      let (tmp, e1, r1) = >>=-eq-ok (or_err s.tmp_pool_info (std not_found)) _ e in
      let h = or_err-eq-ok s.tmp_pool_info (std not_found) e1 in
      reply-step env id tmp contract_address msgs h r1

  pub migrate-fees :
      (contract version : String) (configs : List PoolTypeConfig)
      → migrate s contract version configs ≡ ok u
      → HasValidFees u
  unfolding migrate
  migrate-fees contract version configs e =
      let (t1, r1) =
        guard_step (str_eq contract "dexter-vault") invalid_contract_name_for_migration _ e in
      let (t2, r2) =
        guard_step (str_eq version "1.0.0") invalid_contract_version_for_upgrade _ r1 in
      let (registry, e3, r3) = >>=-eq-ok (save_configs s.registry configs) _ r2 in
      let done = ok-injective r3 in
      let types = save_configs-HasValidTypes s.registry registry configs valid.types e3 in
      record {
        types = λ kind config h. types kind config (ap (λ r. lookup kind r.registry) done ∙ h);
        pools = λ id pool h. valid.pools id pool (ap (λ r. lookup id r.active_pools) done ∙ h);
        tmp = λ tmp h. valid.tmp tmp (ap (λ r. r.tmp_pool_info) done ∙ h);
      }
