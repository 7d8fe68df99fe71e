-- ===== src/Superfluid/Tests.antt =====
-- superfluid_lp at concrete inputs: user 1 has locked 40 of denom 7, sends 30 of it, and joins with 50.
use dexter_core.Prelude.{
  ℕ, ◌+◌, ◌≤◌, ◌≡◌, refl, true, none, List, [], ◌∷◌, ok, err, arith, nat_eq, pair_eq,
}
use dexter_core.Prelude.Dict.{lookup, insert, erase}
use dexter_core.Chain.{Env, MessageInfo, Coin, cw20_transfer_from, bank_send}
use dexter_core.Chain.Words.{add_u128, checked_sub}
use dexter_core.Chain.Payment.{exact_payment, sent}
use dexter_core.Asset.{token, native_token, Asset}
use dexter_core.Superfluid.{
  Storage, Msg, pay, increase_allowance, join_pool, ExecuteMsg, join_pool_and_bond_using_locked_lst,
  collect, unlock, spend_native, spend, spend_all, refunds, join_pool_and_bond, execute,
  insufficient_balance, Spent,
}
use dexter_core.Superfluid.Spending.{held}
use dexter_core.Superfluid.Solvency.{outflow, execute_covers_locks}
use dexter_core.Superfluid.Locks.{spend_native_result, execute_keeps_others}

abbrev env : Env
env = record { block_time = 100; contract_address = 90; is_valid_addr = λ a. true }

abbrev coin : ℕ → ℕ → Coin
coin denom amount = record { denom = denom; amount = amount }

abbrev native : ℕ → ℕ → Asset
native denom amount = record { info = native_token denom; amount = amount }

abbrev locked : ℕ → Storage
locked amount = record {
  config = record { vault_addr = 91; owner = 92; allowed_lockable_tokens = native_token 7 ∷ [] };
  lock_amount = ((1, 7), amount) ∷ ((2, 7), 5) ∷ [];
  ownership_proposal = none;
}

abbrev sender : MessageInfo
sender = record { sender = 1; funds = coin 7 30 ∷ coin 8 4 ∷ [] }

abbrev assets : List Asset
assets = native 7 50 ∷ record { info = token 60; amount = 9 } ∷ []

abbrev join : ExecuteMsg
join = join_pool_and_bond_using_locked_lst 3 assets none

abbrev msgs : List Msg
msgs =
    pay (cw20_transfer_from 60 1 90 9)
    ∷ increase_allowance 60 91 9
    ∷ pay (bank_send 1 8 4)
    ∷ join_pool 91 3 1 assets none (coin 7 50 ∷ [])
    ∷ []

join_run : execute ⦃p = exact_payment⦄ (locked 40) env sender join ≡ ok (locked 20, msgs)
unfolding execute join_pool_and_bond spend_all spend spend_native unlock collect refunds lookup
    insert erase add_u128 checked_sub
join_run = refl

execute_covers_locks_example :
    held 7 (locked 20).lock_amount + outflow 7 msgs
    ≤ held 7 (locked 40).lock_amount + sent 7 sender.funds
execute_covers_locks_example =
    execute_covers_locks ⦃p = exact_payment⦄ 7 (locked 40) (locked 20) env sender join msgs
      ((refl, tt), (tt, tt)) ((refl, tt), (tt, tt)) join_run

execute_keeps_others_example :
    lookup (2, 7) (locked 20).lock_amount ≡ lookup (2, 7) (locked 40).lock_amount
execute_keeps_others_example =
    execute_keeps_others 2 7 ⦃p = exact_payment⦄ (locked 40) (locked 20) env sender join msgs refl
      join_run

abbrev start : Spent
start = record { locks = (locked 40).lock_amount; unspent = (7, 30) ∷ []; coins = []; msgs = [] }

few : spend_native 1 ((7, 30) ∷ []) 7 71 start ≡ err (insufficient_balance 7 70 71)
unfolding spend_native unlock lookup add_u128 checked_sub
few = refl

spend_native_result_example :
    spend_native 1 ((7, 30) ∷ []) 7 50 start
    ≡ ok (record {
      locks = (locked 20).lock_amount;
      unspent = [];
      coins = coin 7 50 ∷ [];
      msgs = [];
    })
unfolding lookup insert erase
spend_native_result_example = spend_native_result 1 ((7, 30) ∷ []) 7 50 start (omega arith)

-- A denom that stands twice among the assets is paid twice from what was sent once: 60 leave for 30.
spent_twice :
    execute ⦃p = exact_payment⦄
      (locked 40)
      env
      (record { sender = 3; funds = coin 7 30 ∷ [] })
      (join_pool_and_bond_using_locked_lst 3 (native 7 30 ∷ native 7 30 ∷ []) none)
    ≡ ok (
      locked 40,
      join_pool 91 3 3 (native 7 30 ∷ native 7 30 ∷ []) none (coin 7 30 ∷ coin 7 30 ∷ []) ∷ [],
    )
unfolding execute join_pool_and_bond spend_all spend spend_native unlock collect refunds lookup
    insert erase add_u128 checked_sub
spent_twice = refl
