-- ===== src/Vault/Tests.antt =====
-- contracts/vault at concrete inputs: a pool of denom 7 and token 60, in which user 1 swaps.
use dexter_core.Prelude.{
  ℕ, ◌+◌, ◌≤◌, ◌≡◌, refl, ap, true, false, ◌&&◌, none, some, List, [], ◌∷◌, ok, err, arith, nat_eq,
}
use dexter_core.Prelude.Dict.{lookup, insert}
use dexter_core.Chain.{Addr, Env, MessageInfo, Coin, cw20_transfer, generic_err}
use dexter_core.Chain.Words.{add_u128, checked_sub}
use dexter_core.Chain.Decimal.{exact}
use dexter_core.Chain.Text.{letters}
use dexter_core.Ownership.{addr_validate}
use dexter_core.Asset.{
  token, native_token, create_transfer_msg, asset_beq, asset_beq_iff, Asset, first_coin,
  addr_opt_validate,
}
use dexter_core.Vault.State.{
  stable_swap, weighted, pool_type_eq, give_in, FeeInfo, calculate_total_fee_breakup, PauseInfo,
  not_paused, everyone, no_auto_stake, disabled, PoolTypeConfig, PoolInfo, Storage, SwapResponse,
  Pools, Msg, pay, update_liquidity,
}
use dexter_core.Vault.Admin.{
  InstantiateMsg, instantiate, save_configs, check_auto_stake, is_duplicate_free,
  execute_add_to_registry,
}
use dexter_core.Vault.Swap.{
  SingleSwapRequest, take_offer, swap_in, swap_out, offer_step, ask_step, swap_asset, stop_or_go,
  swap_recipient, swap_assets, swap_fee, check_swap_request, check_swap, save_swap, execute_swap,
}
use dexter_core.Vault.Execute.{ExecuteMsg, swap, add_to_registry, execute}
use dexter_core.Vault.Books.{IsCanonical, pooled, outflow, inflow, stands_in}
use dexter_core.Vault.Books.Swap.{HasSoundSwaps}
use dexter_core.Vault.Solvency.{received, execute_covers_pools}
use dexter_core.Vault.Fees.{HasValidFees}
use dexter_core.Vault.Fees.Runs.{created, executed, reachable-HasValidFees}
use dexter_core.Vault.Authority.{KeepsSettings, execute_by_stranger}
use dexter_core.Vault.Limits.{Includes, swap_pays_min_receive}
use dexter_core.Vault.Paused.{IsAllowed, execute-IsAllowed}

abbrev env : Env
env = record { block_time = 100; contract_address = 90; is_valid_addr = λ a. true }

abbrev native : ℕ → ℕ → Asset
native denom amount = record { info = native_token denom; amount = amount }

abbrev cw20 : ℕ → ℕ → Asset
cw20 contract amount = record { info = token contract; amount = amount }

abbrev fees : FeeInfo
fees = record { total_fee_bps = 30; protocol_fee_percent = 50 }

abbrev kind : PoolTypeConfig
kind = record {
  code_id = 5;
  pool_type = stable_swap;
  default_fee_info = fees;
  allow_instantiation = everyone;
  paused = not_paused;
}

abbrev pool : PauseInfo → ℕ → ℕ → PoolInfo
pool paused a b = record {
  pool_id = 1;
  pool_addr = 70;
  lp_token_addr = 71;
  fee_info = fees;
  assets = native 7 a ∷ cw20 60 b ∷ [];
  pool_type = stable_swap;
  paused = paused;
}

abbrev vault : PauseInfo → ℕ → ℕ → Storage
vault paused a b = record {
  config = record {
    owner = 92;
    whitelisted_addresses = 93 ∷ [];
    lp_token_code_id = some 4;
    fee_collector = some 95;
    auto_stake_impl = no_auto_stake;
    pool_creation_fee = disabled;
    next_pool_id = 2;
    paused = not_paused;
  };
  registry = (stable_swap, kind) ∷ [];
  active_pools = (1, pool paused a b) ∷ [];
  lp_token_to_pool_id = (71, 1) ∷ [];
  ownership_proposal = none;
  tmp_pool_info = none;
}

abbrev answer : SwapResponse
answer = record { amount_in = 100; amount_out = 90; is_success = true; fee = some (cw20 60 10) }

abbrev pools : Pools
pools = record {
  on_join_pool = λ addr assets. err generic_err;
  on_exit_pool = λ addr exit_type. err generic_err;
  on_swap = λ addr swap_type x y n. elim (asset_beq (native_token 7) x && asset_beq (token 60) y) [
    | true ↦ ok answer
    | false ↦ err generic_err
  ];
  pool_id = λ addr. ok 1;
}

abbrev user : MessageInfo
user = record { sender = 1; funds = record { denom = 7; amount = 120 } ∷ [] }

abbrev request : SingleSwapRequest
request = record {
  pool_id = 1;
  asset_in = native_token 7;
  asset_out = token 60;
  swap_type = give_in;
  amount = 100;
}

abbrev msgs : List Msg
msgs =
    pay (dexter_core.Chain.bank_send 1 7 20)
    ∷ pay (cw20_transfer 60 1 90)
    ∷ update_liquidity 70 (native 7 1100 ∷ cw20 60 905 ∷ [])
    ∷ pay (cw20_transfer 60 95 5)
    ∷ []

abbrev swap_msg : ExecuteMsg
swap_msg = swap request none (some 80) none

swap_run :
    execute ⦃t = letters⦄ ⦃d = exact⦄ ⦃p = pools⦄ (vault not_paused 1000 1000) env user swap_msg
    ≡ ok (vault not_paused 1100 905, msgs)
unfolding execute execute_swap check_swap_request check_swap swap_fee calculate_total_fee_breakup
    save_swap swap_assets swap_asset offer_step ask_step stop_or_go swap_in swap_out take_offer
    first_coin lookup insert add_u128 checked_sub
swap_run = refl

one-pool :
    (id : ℕ) (found : PoolInfo)
    → lookup id (vault not_paused 1000 1000).active_pools ≡ some found
    → found ≡ pool not_paused 1000 1000
unfolding lookup
one-pool id found h = ground (arith, h)

canonical :
    (id : ℕ) (found : PoolInfo)
    → lookup id (vault not_paused 1000 1000).active_pools ≡ some found
    → IsCanonical ⦃t = letters⦄ found.assets
canonical id found h = rw (one-pool id found h) (refl, (refl, tt), (refl, tt, tt))

sound : HasSoundSwaps ⦃p = pools⦄ (vault not_paused 1000 1000)
sound id found swap_type x y n swap' h e =
    let is_pool = ap (λ q. stands_in x q.assets) (one-pool id found h) in
    (
      ground (arith, is_pool, e, asset_beq_iff (native_token 7) x),
      λ f k. ground (arith, e, k, asset_beq_iff (token 60) y),
    )

execute_covers_pools_example :
    pooled (token 60) (vault not_paused 1100 905) + outflow (token 60) msgs
    ≤ pooled (token 60) (vault not_paused 1000 1000)
      + (inflow 90 (token 60) msgs + received (token 60) user swap_msg)
execute_covers_pools_example =
    execute_covers_pools ⦃t = letters⦄ ⦃d = exact⦄ ⦃p = pools⦄ (token 60)
      (vault not_paused 1000 1000) (vault not_paused 1100 905) env user swap_msg msgs canonical
      sound swap_run

swap_pays_min_receive_example :
    (to : Addr) × (amount : ℕ) × (swap_recipient env user none ≡ ok to)
    × (80 ≤ amount)
    × Includes (pay (create_transfer_msg (token 60) to amount)) msgs
swap_pays_min_receive_example =
    swap_pays_min_receive ⦃t = letters⦄ ⦃d = exact⦄ ⦃p = pools⦄ (vault not_paused 1000 1000) env
      user request none 80 none (vault not_paused 1100 905) msgs swap_run

execute_by_stranger_example :
    KeepsSettings env user (vault not_paused 1000 1000) (vault not_paused 1100 905)
execute_by_stranger_example =
    execute_by_stranger (vault not_paused 1000 1000) (vault not_paused 1100 905) env user
      ⦃t = letters⦄ ⦃d = exact⦄ ⦃p = pools⦄ swap_msg msgs refl swap_run

abbrev first_msg : InstantiateMsg
first_msg = record {
  owner = 92;
  pool_configs = kind ∷ [];
  lp_token_code_id = some 4;
  fee_collector = some 95;
  pool_creation_fee = disabled;
  auto_stake_impl = no_auto_stake;
}

abbrev fresh : Storage
fresh = record {
  config = record {
    owner = 92;
    whitelisted_addresses = [];
    lp_token_code_id = some 4;
    fee_collector = some 95;
    auto_stake_impl = no_auto_stake;
    pool_creation_fee = disabled;
    next_pool_id = 1;
    paused = not_paused;
  };
  registry = (stable_swap, kind) ∷ [];
  active_pools = [];
  lp_token_to_pool_id = [];
  ownership_proposal = none;
  tmp_pool_info = none;
}

fresh_run : instantiate env first_msg ≡ ok fresh
unfolding instantiate save_configs check_auto_stake is_duplicate_free addr_validate
    addr_opt_validate insert
fresh_run = refl

abbrev weighted_kind : PoolTypeConfig
weighted_kind = record kind {
  pool_type = weighted;
  default_fee_info = record { total_fee_bps = 1000; protocol_fee_percent = 100 };
}

abbrev owner : MessageInfo
owner = record { sender = 92; funds = [] }

abbrev second : Storage
second = record fresh { registry = (stable_swap, kind) ∷ (weighted, weighted_kind) ∷ [] }

second_run :
    execute ⦃t = letters⦄ ⦃d = exact⦄ ⦃p = pools⦄ fresh env owner (add_to_registry weighted_kind)
    ≡ ok (second, [])
unfolding execute execute_add_to_registry lookup insert
second_run = refl

reachable-HasValidFees_example : HasValidFees second
reachable-HasValidFees_example = reachable-HasValidFees ⦃t = letters⦄ ⦃d = exact⦄ second (
    executed pools env owner (add_to_registry weighted_kind) [] (created env first_msg fresh_run)
      second_run)

execute-IsAllowed_example : IsAllowed (vault not_paused 1000 1000) swap_msg
execute-IsAllowed_example =
    execute-IsAllowed ⦃t = letters⦄ ⦃d = exact⦄ ⦃p = pools⦄ (vault not_paused 1000 1000)
      (vault not_paused 1100 905) env user msgs swap_msg swap_run
