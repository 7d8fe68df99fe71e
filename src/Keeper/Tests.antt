-- ===== src/Keeper/Tests.antt =====
-- contracts/keeper at concrete inputs: the keeper (90) of owner 1 has 100 of every denom and 50 of every
-- token, and the vault is 91.
use dexter_core.Prelude.{
  ℕ, ◌≤◌, ◌≡◌, ◌⊎◌, refl, true, none, some, List, [], ◌∷◌, ok, err, arith, nat_eq,
}
use dexter_core.Chain.{Addr, Env, MessageInfo, bank_send}
use dexter_core.Chain.Words.{add_u64}
use dexter_core.Asset.{token, native_token, Asset}
use dexter_core.Ownership.{addr_validate}
use dexter_core.Keeper.{
  Storage, Querier, Msg, pay, increase_allowance, swap, withdraw_msg, swap_asset_msg,
  propose_new_owner_msg, drop_ownership_proposal_msg, claim_ownership_msg, withdraw, swap_asset,
  execute, insufficient_balance, query_get_balances, migrate,
}
use dexter_core.Keeper.Custody.{outflow, execute_within_balance}
use dexter_core.Keeper.Handover.{propose-claim}

abbrev querier : Querier
querier = record {
  bank_balance = λ account denom. ok 100;
  cw20_balance = λ contract account. some 50;
  pool_by_lp_token = λ vault lp_token. ok 3;
  vault_config = λ vault. ok tt;
}

abbrev at : ℕ → Env
at block_time = record { block_time = block_time; contract_address = 90; is_valid_addr = λ a. true }

abbrev from : Addr → MessageInfo
from sender = record { sender = sender; funds = [] }

abbrev stored : Storage
stored = record { config = record { owner = 1; vault_address = 91 }; ownership_proposal = none }

withdraw_run :
    execute ⦃q = querier⦄ stored (at 10) 5 (from 1) (withdraw_msg (native_token 7) 60 none)
    ≡ ok (stored, pay (bank_send 1 7 60) ∷ [])
unfolding execute withdraw addr_validate
withdraw_run = refl

withdraw_too_much :
    execute ⦃q = querier⦄ stored (at 10) 5 (from 1) (withdraw_msg (native_token 7) 101 none)
    ≡ err insufficient_balance
unfolding execute withdraw
withdraw_too_much = refl

abbrev offer : Asset
offer = record { info = token 8; amount = 50 }

abbrev swap_msgs : List Msg
swap_msgs = increase_allowance 8 91 50 6 ∷ swap 91 3 (token 8) (native_token 7) 50 90 none [] ∷ []

swap_run :
    execute ⦃q = querier⦄ stored (at 10) 5 (from 1) (swap_asset_msg offer (native_token 7) none 3)
    ≡ ok (stored, swap_msgs)
unfolding execute swap_asset add_u64
swap_run = refl

balances_run :
    query_get_balances ⦃q = querier⦄ (at 10) (token 8 ∷ native_token 7 ∷ [])
    ≡ ok (offer ∷ record { info = native_token 7; amount = 100 } ∷ [])
unfolding query_get_balances
balances_run = refl

migrate_run :
    migrate ⦃q = querier⦄ (at 10) "1.0.0" 1 91 ≡ ok (record { owner = 1; vault_address = 91 })
unfolding migrate addr_validate
migrate_run = refl

execute_within_balance_example :
    (outflow (token 8) swap_msgs ≤ 50)
    × (((from 1).sender ≡ stored.config.owner) ⊎ (swap_msgs ≡ []))
execute_within_balance_example =
    execute_within_balance ⦃q = querier⦄ (token 8) stored (at 10) (from 1) 50 refl 5
      (swap_asset_msg offer (native_token 7) none 3) stored swap_msgs swap_run

propose-claim_example :
    (u : Storage) × (execute ⦃q = querier⦄ stored (at 10) 5 (from 1) (propose_new_owner_msg 2 100)
      ≡ ok (u, []))
    × (execute ⦃q = querier⦄ u (at 110) 6 (from 2) claim_ownership_msg
        ≡ ok (
          record { config = record { owner = 2; vault_address = 91 }; ownership_proposal = none },
          [],
        ))
    × (execute ⦃q = querier⦄ u (at 110) 6 (from 1) drop_ownership_proposal_msg ≡ ok (stored, []))
propose-claim_example =
    propose-claim ⦃q = querier⦄ stored (at 10) (at 110) 5 6 (from 1) (from 2) 2 100 refl refl refl
      refl (omega arith) (omega arith)
