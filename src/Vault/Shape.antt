-- ===== src/Vault/Shape.antt =====
-- What joins, exits and swaps leave as it was: everything but the balances of one pool.
use dexter_core.Prelude.{
  ℕ, ◌≡◌, sym, ap, Bool, false, Option, some, List, [], ok, nat_eq, unwrap_or, or_err, or_err-eq-ok,
  >>=-eq-ok, ok-injective,
}
use dexter_core.Prelude.Dict.{lookup, insert}
use dexter_core.Chain.{Addr, Env, MessageInfo, not_found}
use dexter_core.Chain.Decimal.{Decimal}
use dexter_core.Chain.Words.{checked_sub}
use dexter_core.Chain.Text.{Text}
use dexter_core.Ownership.{addr_validate}
use dexter_core.Asset.{asset_eq, Asset}
use dexter_core.Vault.State.{
  pool_type_eq, PoolInfo, Storage, Pools, Msg, std, lift, invalid_pool_id,
  insufficient_lp_tokens_to_exit,
}
use dexter_core.Vault.Join.{
  collect_fees, join_assets, build_mint_lp_token_msg, check_join_open, check_join, save_join,
  execute_join_pool,
}
use dexter_core.Vault.Exit.{
  ExitType, exit_assets, check_lp_token, query_exit_type, check_exit_answer, check_exit, save_exit,
  execute_exit_pool,
}
use dexter_core.Vault.Swap.{
  SingleSwapRequest, swap_assets, check_updated, transfer_swap_fee, swap_recipient,
  check_swap_request, check_swap_open, check_swap, swap_fee, check_max_spend, check_min_receive,
  save_swap, execute_swap,
}

-- A pool has other balances, and all else is as it was.
pub record IsRebalanced (s u : Storage) : Type 0 where
  pub id : ℕ
  pub pool : PoolInfo
  pub balances : List Asset
  pub found : lookup id s.active_pools ≡ some pool
  pub saved :
      u ≡ record s { active_pools = insert id (record pool { assets = balances }) s.active_pools }

module _ ⦃t : Text⦄ ⦃d : Decimal⦄ ⦃p : Pools⦄ (s u : Storage) (env : Env) (info : MessageInfo) where
  pub join-IsRebalanced :
      (id : ℕ) (recipient : Option Addr) (assets : Option (List Asset)) (min_lp : Option ℕ)
      (auto_stake : Option Bool) (msgs : List Msg)
      → execute_join_pool s env info id recipient assets min_lp auto_stake ≡ ok (u, msgs)
      → IsRebalanced s u
  unfolding execute_join_pool save_join
  join-IsRebalanced id recipient assets min_lp auto_stake msgs e =
      let staked = unwrap_or auto_stake false in
      let (pool, e1, r1) = >>=-eq-ok (or_err (lookup id s.active_pools) invalid_pool_id) _ e in
      let (kind, e2, r2) =
        >>=-eq-ok (or_err (lookup pool.pool_type s.registry) (std not_found)) _ r1 in
      let (u3, e3, r3) = >>=-eq-ok (check_join_open s.config kind pool staked) _ r2 in
      let (join, e4, r4) = >>=-eq-ok (lift (p.on_join_pool pool.pool_addr assets)) _ r3 in
      let (u5, e5, r5) = >>=-eq-ok (check_join pool min_lp join) _ r4 in
      let fees = collect_fees [] (unwrap_or join.fee []) in
      let (moved, e6, r6) =
        >>=-eq-ok
          (join_assets s.config pool.fee_info env info fees pool.assets join.provided_assets) _
          r5 in
      let (to, e7, r7) =
        >>=-eq-ok (lift (addr_validate env (unwrap_or recipient info.sender))) _ r6 in
      let (mints, e8, r8) =
        >>=-eq-ok
          (build_mint_lp_token_msg env pool.lp_token_addr to join.new_shares staked
            s.config.auto_stake_impl)
          _ r7 in
      record {
        id = id;
        pool = pool;
        balances = moved.0;
        found = or_err-eq-ok (lookup id s.active_pools) invalid_pool_id e1;
        saved = sym (ap (λ r. r.0) (ok-injective r8));
      }

  pub exit-IsRebalanced :
      (id : ℕ) (recipient : Addr) (exit_type : ExitType) (sender : Addr) (lp_received : ℕ)
      (msgs : List Msg)
      → execute_exit_pool s env info id recipient exit_type sender lp_received ≡ ok (u, msgs)
      → IsRebalanced s u
  unfolding execute_exit_pool save_exit
  exit-IsRebalanced id recipient exit_type sender lp_received msgs e =
      let (pool, e1, r1) = >>=-eq-ok (or_err (lookup id s.active_pools) invalid_pool_id) _ e in
      let (kind, e2, r2) =
        >>=-eq-ok (or_err (lookup pool.pool_type s.registry) (std not_found)) _ r1 in
      let (u3, e3, r3) = >>=-eq-ok (check_lp_token info pool) _ r2 in
      let (query, e4, r4) =
        >>=-eq-ok (query_exit_type s.config kind pool exit_type lp_received) _ r3 in
      let (exit, e5, r5) = >>=-eq-ok (lift (p.on_exit_pool pool.pool_addr query)) _ r4 in
      let (u6, e6, r6) = >>=-eq-ok (check_exit_answer pool exit) _ r5 in
      let (u7, e7, r7) = >>=-eq-ok (check_exit exit_type exit) _ r6 in
      let fees = collect_fees [] (unwrap_or exit.fee []) in
      let (left, e8, r8) =
        >>=-eq-ok (or_err (checked_sub lp_received exit.burn_shares) insufficient_lp_tokens_to_exit)
          _ r7 in
      let (to, e9, r9) = >>=-eq-ok (lift (addr_validate env recipient)) _ r8 in
      let (moved, e10, r10) =
        >>=-eq-ok (exit_assets s.config pool.fee_info to fees pool.assets exit.assets_out) _ r9 in
      record {
        id = id;
        pool = pool;
        balances = moved.0;
        found = or_err-eq-ok (lookup id s.active_pools) invalid_pool_id e1;
        saved = sym (ap (λ r. r.0) (ok-injective r10));
      }

  save_swap-IsRebalanced :
      (to : Addr) (id fee_amount : ℕ) (pool : PoolInfo) (fee : Option Asset) (offer ask : Asset)
      (msgs : List Msg)
      → lookup id s.active_pools ≡ some pool
      → save_swap s env info to id fee_amount pool fee offer ask ≡ ok (u, msgs)
      → IsRebalanced s u
  unfolding save_swap
  save_swap-IsRebalanced to id fee_amount pool fee offer ask msgs found e =
      let (pass, e1, r1) =
        >>=-eq-ok (swap_assets env info to fee fee_amount offer ask false false pool.assets) _ e in
      let (u2, e2, r2) = >>=-eq-ok (check_updated pass) _ r1 in
      let (fees, e3, r3) =
        >>=-eq-ok (transfer_swap_fee fee s.config.fee_collector fee_amount) _ r2 in
      record {
        id = id;
        pool = pool;
        balances = pass.assets;
        found = found;
        saved = sym (ap (λ r. r.0) (ok-injective r3));
      }

  pub swap-IsRebalanced :
      (request : SingleSwapRequest) (recipient : Option Addr) (min_receive max_spend : Option ℕ)
      (msgs : List Msg)
      → execute_swap s env info request recipient min_receive max_spend ≡ ok (u, msgs)
      → IsRebalanced s u
  unfolding execute_swap
  swap-IsRebalanced request recipient min_receive max_spend msgs e =
      let id = request.pool_id in
      let x = request.asset_in in
      let y = request.asset_out in
      let (to, e1, r1) = >>=-eq-ok (swap_recipient env info recipient) _ e in
      let (u2, e2, r2) = >>=-eq-ok (check_swap_request request) _ r1 in
      let (pool, e3, r3) = >>=-eq-ok (or_err (lookup id s.active_pools) invalid_pool_id) _ r2 in
      let (kind, e4, r4) =
        >>=-eq-ok (or_err (lookup pool.pool_type s.registry) (std not_found)) _ r3 in
      let (u5, e5, r5) = >>=-eq-ok (check_swap_open s.config kind pool) _ r4 in
      let (swap, e6, r6) =
        >>=-eq-ok (lift (p.on_swap pool.pool_addr request.swap_type x y request.amount)) _ r5 in
      let (u7, e7, r7) = >>=-eq-ok (check_swap swap) _ r6 in
      let offer : Asset = record { info = x; amount = swap.amount_in } in
      let ask : Asset = record { info = y; amount = swap.amount_out } in
      let (fee, e8, r8) = >>=-eq-ok (swap_fee s.config pool.fee_info swap.fee) _ r7 in
      let (u9, e9, r9) = >>=-eq-ok (check_max_spend max_spend offer.amount) _ r8 in
      let (u10, e10, r10) = >>=-eq-ok (check_min_receive min_receive ask.amount) _ r9 in
      save_swap-IsRebalanced to id fee pool swap.fee offer ask msgs
        (or_err-eq-ok (lookup id s.active_pools) invalid_pool_id e3) r10
