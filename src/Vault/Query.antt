-- ===== src/Vault/Query.antt =====
-- The queries of contracts/vault/src/contract.rs.
use dexter_core.Prelude.{
  ℕ, zero, suc, ◌+◌, ◌-◌, min, ltb, if◌then◌else◌, Option, List, [], ◌∷◌, unwrap_or, Result, ok,
  or_err, or_panic, ◌>>=◌, nat_eq,
}
use dexter_core.Prelude.Dict.{Dict, lookup}
use dexter_core.Chain.{Addr, StdError, not_found, generic_err}
use dexter_core.Chain.Words.{add_u128}
use dexter_core.Vault.State.{PoolType, pool_type_eq, PoolTypeConfig, PoolInfo, Storage, Pools}

abbrev pub default_limit : ℕ
default_limit = 10

abbrev pub max_limit : ℕ
max_limit = 30

unfoldable pub query_registry : Storage → PoolType → Result StdError PoolTypeConfig
query_registry s pool_type = or_err (lookup pool_type s.registry) generic_err

-- `for pool_id in start..end`, with `left` pools to go
unfoldable pub load_pools : Dict ℕ PoolInfo → (pool_id left : ℕ) → Result StdError (List PoolInfo)
load_pools active_pools pool_id zero = ok []
load_pools active_pools pool_id (suc left) = do
  pool ← or_err (lookup pool_id active_pools) not_found
  rest ← load_pools active_pools (pool_id + 1) left
  ok (pool ∷ rest)

unfoldable pub query_pools :
    Storage → (start_after limit : Option ℕ) → Result StdError (List PoolInfo)
query_pools s start_after limit = do
  start ← or_panic (add_u128 (unwrap_or start_after 0) 1)
  end ← or_panic (add_u128 start (min (unwrap_or limit default_limit) max_limit))
  let end' = if ltb s.config.next_pool_id end then s.config.next_pool_id else end
  load_pools s.active_pools start (end' - start)

unfoldable pub query_pool_by_id : Storage → ℕ → Result StdError PoolInfo
query_pool_by_id s pool_id = or_err (lookup pool_id s.active_pools) not_found

-- The id that the pool contract itself answers.
unfoldable pub query_pool_by_addr :
    ⦃p : Pools⦄ → Storage → (pool_addr : Addr) → Result StdError PoolInfo
query_pool_by_addr ⦃p⦄ s pool_addr = do
  pool_id ← p.pool_id pool_addr
  or_err (lookup pool_id s.active_pools) not_found

unfoldable pub query_pool_by_lp_token_addr :
    Storage → (lp_token_addr : Addr) → Result StdError PoolInfo
query_pool_by_lp_token_addr s lp_token_addr = do
  pool_id ← or_err (lookup lp_token_addr s.lp_token_to_pool_id) not_found
  or_err (lookup pool_id s.active_pools) not_found
