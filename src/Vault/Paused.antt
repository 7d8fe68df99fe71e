-- ===== src/Vault/Paused.antt =====
-- What a pause blocks, whoever sets it: the vault, the pool's type, or the pool.
use dexter_core.Prelude.{
  ℕ, ◌≡◌, Bool, true, false, ◌||◌, not, Option, some, List, arith, ok, or_err, or_err-eq-ok,
  unwrap_or, guard_step, >>=-eq-ok, nat_eq,
}
use dexter_core.Prelude.Dict.{lookup}
use dexter_core.Chain.{Addr, Env, MessageInfo, not_found}
use dexter_core.Chain.Decimal.{Decimal}
use dexter_core.Chain.Text.{Text}
use dexter_core.Asset.{Asset}
use dexter_core.Vault.State.{
  pool_type_eq, PauseInfo, PoolInfo, PoolTypeConfig, Storage, Pools, Msg, invalid_pool_id, std,
}
use dexter_core.Vault.Join.{check_join_open, execute_join_pool}
use dexter_core.Vault.Exit.{
  exact_lp_burn, exact_assets_out, check_lp_token, query_exit_type, execute_exit_pool,
}
use dexter_core.Vault.Swap.{SingleSwapRequest, swap_recipient, check_swap_request, execute_swap}
use dexter_core.Vault.Execute.{
  ExecuteMsg, exit_pool, receive, join_pool, swap, receive_cw20, execute,
}

-- The pool is there and so is its type, and neither these two nor the vault pause what `f` reads.
pub record IsOpen (f : PauseInfo → Bool) (s : Storage) (id : ℕ) : Type 0 where
  pub pool : PoolInfo
  pub kind : PoolTypeConfig
  pub found : lookup id s.active_pools ≡ some pool
  pub registered : lookup pool.pool_type s.registry ≡ some kind
  pub vault_open : f s.config.paused ≡ false
  pub kind_open : f kind.paused ≡ false
  pub pool_open : f pool.paused ≡ false

-- What must not be paused for a message.
abbrev pub IsAllowed : Storage → ExecuteMsg → Type 0
IsAllowed s (join_pool id recipient assets min_lp auto_stake) = IsOpen (λ p. p.deposit) s id
IsAllowed s (swap request recipient min_receive max_spend) = IsOpen (λ p. p.swap) s request.pool_id
IsAllowed s (receive sender amount (some (exit_pool id recipient (exact_assets_out out max_lp)))) =
    IsOpen (λ p. p.imbalanced_withdraw) s id
IsAllowed s msg = Unit

none_set : (a b c : Bool) → not (a || b || c) ≡ true → (a ≡ false) × (b ≡ false) × (c ≡ false)
none_set a b c h = ground arith

module _ (s : Storage) (id : ℕ) (pool : PoolInfo) (kind : PoolTypeConfig)
    (f : PauseInfo → Bool) where
  is_open :
      or_err (lookup id s.active_pools) invalid_pool_id ≡ ok pool
      → or_err (lookup pool.pool_type s.registry) (std not_found) ≡ ok kind
      → not (f s.config.paused || f kind.paused || f pool.paused) ≡ true
      → IsOpen f s id
  is_open e k off =
      let (a, b, c) = none_set (f s.config.paused) (f kind.paused) (f pool.paused) off in
      record {
        pool = pool;
        kind = kind;
        found = or_err-eq-ok _ _ e;
        registered = or_err-eq-ok _ _ k;
        vault_open = a;
        kind_open = b;
        pool_open = c;
      }

module _ ⦃t : Text⦄ ⦃d : Decimal⦄ ⦃p : Pools⦄ (s u : Storage) (env : Env) (info : MessageInfo)
    (msgs : List Msg) where
  join-IsOpen :
      (id : ℕ) (recipient : Option Addr) (assets : Option (List Asset)) (min_lp : Option ℕ)
      (auto_stake : Option Bool)
      → execute_join_pool s env info id recipient assets min_lp auto_stake ≡ ok (u, msgs)
      → IsOpen (λ x. x.deposit) s id
  unfolding execute_join_pool check_join_open
  join-IsOpen id recipient assets min_lp auto_stake e =
      let (pool, e1, r1) = >>=-eq-ok (or_err (lookup id s.active_pools) invalid_pool_id) _ e in
      let (kind, e2, r2) =
        >>=-eq-ok (or_err (lookup pool.pool_type s.registry) (std not_found)) _ r1 in
      let (x, e3, r3) =
        >>=-eq-ok (check_join_open s.config kind pool (unwrap_or auto_stake false)) _ r2 in
      let (off, r4) =
        guard_step (not (s.config.paused.deposit || kind.paused.deposit || pool.paused.deposit)) _ _
          e3 in
      is_open s id pool kind (λ x. x.deposit) e1 e2 off

  exit-IsOpen :
      (id : ℕ) (recipient : Addr) (out : List Asset) (max_lp : Option ℕ) (sender : Addr)
      (lp_received : ℕ)
      → execute_exit_pool s env info id recipient (exact_assets_out out max_lp) sender lp_received
        ≡ ok (u, msgs)
      → IsOpen (λ x. x.imbalanced_withdraw) s id
  unfolding execute_exit_pool query_exit_type
  exit-IsOpen id recipient out max_lp sender lp_received e =
      let (pool, e1, r1) = >>=-eq-ok (or_err (lookup id s.active_pools) invalid_pool_id) _ e in
      let (kind, e2, r2) =
        >>=-eq-ok (or_err (lookup pool.pool_type s.registry) (std not_found)) _ r1 in
      let (x, e3, r3) = >>=-eq-ok (check_lp_token info pool) _ r2 in
      let (query, e4, r4) =
        >>=-eq-ok (query_exit_type s.config kind pool (exact_assets_out out max_lp) lp_received) _
          r3 in
      let (off, r5) =
        guard_step
          (not (
            s.config.paused.imbalanced_withdraw || kind.paused.imbalanced_withdraw
            || pool.paused.imbalanced_withdraw))
          _ _ e4 in
      is_open s id pool kind (λ x. x.imbalanced_withdraw) e1 e2 off

  swap-IsOpen :
      (request : SingleSwapRequest) (recipient : Option Addr) (min_receive max_spend : Option ℕ)
      → execute_swap s env info request recipient min_receive max_spend ≡ ok (u, msgs)
      → IsOpen (λ x. x.swap) s request.pool_id
  unfolding execute_swap
  swap-IsOpen request recipient min_receive max_spend e =
      let id = request.pool_id in
      let (to, e1, r1) = >>=-eq-ok (swap_recipient env info recipient) _ e in
      let (x, e2, r2) = >>=-eq-ok (check_swap_request request) _ r1 in
      let (pool, e3, r3) = >>=-eq-ok (or_err (lookup id s.active_pools) invalid_pool_id) _ r2 in
      let (kind, e4, r4) =
        >>=-eq-ok (or_err (lookup pool.pool_type s.registry) (std not_found)) _ r3 in
      let (off, r5) =
        guard_step (not (s.config.paused.swap || kind.paused.swap || pool.paused.swap)) _ _ r4 in
      is_open s id pool kind (λ x. x.swap) e3 e4 off

  -- Whoever sends it, no join succeeds while deposits are paused, no exit for exact amounts while imbalanced
  -- withdrawals are, and no swap while swaps are, be it for the vault, for the pool's type or for the pool.
  pub execute-IsAllowed :
      (msg : ExecuteMsg) → execute s env info msg ≡ ok (u, msgs) → IsAllowed s msg
  unfolding execute receive_cw20
  execute-IsAllowed (join_pool id recipient assets min_lp auto_stake) e =
      join-IsOpen id recipient assets min_lp auto_stake e
  execute-IsAllowed (swap request recipient min_receive max_spend) e =
      swap-IsOpen request recipient min_receive max_spend e
  execute-IsAllowed
        (receive sender amount (some (exit_pool id recipient (exact_assets_out out max_lp)))) e =
      exit-IsOpen id (unwrap_or recipient sender) out max_lp sender amount e
  execute-IsAllowed (receive sender amount (some (exit_pool id recipient (exact_lp_burn n out))))
        e =
      tt
  execute-IsAllowed msg e = tt
