-- ===== src/Staking/Tests/Tokens.antt =====
-- The theorems on the users' tokens, at the run of `Runs`.
use dexter_core.Prelude.{
  ℕ, ◌*◌, length, ◌+◌, ◌≡◌, ◌≤◌, ◌<◌, refl, none, some, [], ◌∷◌, ◌++◌, ok, arith, count, min,
}
use dexter_core.Prelude.Dict.{lookup}
use dexter_core.Chain.Words.{add_u128}
use dexter_core.Chain.Decimal.{exact}
use dexter_core.Staking.State.{lock_eq}
use dexter_core.Staking.Bond.{bonded_of, global_of}
use dexter_core.Staking.Unbond.{locks_of, unbond_config_of}
use dexter_core.Staking.Locks.{amounts, find_lock_difference}
use dexter_core.Staking.Locks.Split.{
  IsCoherent, find_lock_difference-counts, find_lock_difference_complete,
  find_lock_difference_misses,
}
use dexter_core.Chain.{cw20_transfer}
use dexter_core.Staking.Fees.{validate}
use dexter_core.Staking.Fees.Charge.{fee_config}
use dexter_core.Staking.Unlock.{matured, instant_unlock, save_locks}
use dexter_core.Staking.Unlock.Instant.{instant_unlock-pays}
use dexter_core.Staking.Unlock.Effects.{unlock-pays, unbond-locks, lock_at}
use dexter_core.Staking.Query.{query_token_locks, split_locks}
use dexter_core.Staking.Query.Locks.{query_token_locks-unlocked, due}
use dexter_core.Staking.Custody.{owed, outflow, bonded_total}
use dexter_core.Staking.Custody.Messages.{execute-owed, inflow}
use dexter_core.Staking.Custody.Others.{execute-Keeps, Keeps}
use dexter_core.Staking.Invariant.{IsReachable, created, next}
use dexter_core.Staking.Invariant.Balance.{IsReachable-IsBalanced}
use dexter_core.Staking.Execute
use dexter_core.Staking.Execute.{bond_tokens, unbond_tokens}
use dexter_core.Staking.Tests.Runs.{
  at, from, owner, keeper, alice, bob, lp, lock, unbond_config, with_lp, with_bond, with_lock,
  unlocked, pull, pay, created_run, allow_run, bond_run, unbond_run, unlock_run,
}

execute-owed_example :
    owed lp with_bond + outflow lp pull
    ≡ owed lp with_lp + inflow lp (at 1000) (from alice) (bond_tokens lp 100) pull
execute-owed_example =
    execute-owed ⦃d = exact⦄ lp with_lp (at 1000) (from alice) with_bond pull (bond_tokens lp 100)
      bond_run

execute-Keeps_example : Keeps lp bob with_lp with_bond
execute-Keeps_example =
    execute-Keeps ⦃d = exact⦄ lp bob with_lp (at 1000) (from alice) with_bond pull
      (bond_tokens lp 100) (omega arith) bond_run

reached : IsReachable ⦃d = exact⦄ with_bond
reached =
    next (at 1000) (from alice) (bond_tokens lp 100) pull
      (next (at 1000) (from owner) (Execute.allow_lp_token lp) []
        (created (at 1000) owner keeper unbond_config created_run) allow_run)
      bond_run

IsReachable-IsBalanced_example :
    (global_of with_bond lp).total_bond_amount ≡ bonded_total lp with_bond
IsReachable-IsBalanced_example = IsReachable-IsBalanced ⦃d = exact⦄ lp {s = with_bond} reached

unlock-pays_example :
    (pay ≡ cw20_transfer lp alice 40 ∷ [])
    × (count (lock 1200 40) (locks_of unlocked lp alice) ≡ 0)
    × (locks_of unlocked lp bob ≡ locks_of with_lock lp bob)
unfolding lookup
unlock-pays_example =
    unlock-pays with_lock (at 1200) (from alice) lp unlocked pay (lock 1200 40) lp bob refl
      unlock_run

unbond-locks_example :
    (0 < 40)
    × (bonded_of with_lock lp alice + 40 ≡ bonded_of with_bond lp alice)
    × (locks_of with_lock lp alice ≡ locks_of with_bond lp alice ++ lock_at 1200 40 ∷ [])
unfolding lookup
unbond-locks_example =
    unbond-locks ⦃d = exact⦄ with_bond (at 1100) (from alice) lp with_lock [] (some 40) unbond_run

query_run :
    query_token_locks with_lock (at 1200) lp alice none
    ≡ ok (record { locks = lock 1200 40 ∷ []; unlocked_amount = 0 })
unfolding query_token_locks split_locks lookup add_u128
query_run = refl

query_token_locks-unlocked_example :
    0 + amounts (due 1200 (locks_of with_lock lp alice))
    ≡ amounts (matured 1200 (locks_of with_lock lp alice))
query_token_locks-unlocked_example =
    query_token_locks-unlocked with_lock (at 1200) lp alice none
      (record { locks = lock 1200 40 ∷ []; unlocked_amount = 0 }) query_run

find_lock_difference-counts_example :
    (count (lock 5 1) (find_lock_difference (lock 9 2 ∷ lock 5 1 ∷ []) (lock 5 1 ∷ [])).0
        + count (lock 5 1) (find_lock_difference (lock 9 2 ∷ lock 5 1 ∷ []) (lock 5 1 ∷ [])).1
      ≡ 1)
    × (count (lock 5 1) (find_lock_difference (lock 9 2 ∷ lock 5 1 ∷ []) (lock 5 1 ∷ [])).1 ≤ 1)
find_lock_difference-counts_example =
    find_lock_difference-counts (lock 5 1) (lock 9 2 ∷ lock 5 1 ∷ []) (lock 5 1 ∷ [])

two_locks-IsCoherent : IsCoherent (lock 9 2 ∷ lock 5 1 ∷ [])
two_locks-IsCoherent x y hx hy same = ground arith

find_lock_difference_complete_example :
    count (lock 5 1) (find_lock_difference (lock 9 2 ∷ lock 5 1 ∷ []) (lock 5 1 ∷ [])).1 ≡ min 1 1
find_lock_difference_complete_example =
    find_lock_difference_complete (lock 5 1) (lock 9 2 ∷ lock 5 1 ∷ []) (lock 5 1 ∷ [])
      two_locks-IsCoherent

find_lock_difference_misses_example :
    find_lock_difference (lock 5 1 ∷ lock 5 2 ∷ []) (lock 5 2 ∷ []) ≡ (lock 5 1 ∷ lock 5 2 ∷ [], [])
find_lock_difference_misses_example = find_lock_difference_misses 5 1 2 (omega arith)

split_run :
    find_lock_difference (locks_of with_lock lp alice) (lock 1200 40 ∷ []) ≡ ([], lock 1200 40 ∷ [])
unfolding find_lock_difference lookup
split_run = refl

config_run : unbond_config_of with_lock lp ≡ fee_config ⦃d = exact⦄ 100 200 500 10
unfolding lookup
config_run = refl

valid : validate unbond_config ≡ ok tt
unfolding validate
valid = refl

instant_unlock-pays_example :
    let split = find_lock_difference (locks_of with_lock lp alice) (lock 1200 40 ∷ []) in
    (unlocked : ℕ) × (fees : ℕ) × (instant_unlock ⦃d = exact⦄ with_lock
        (at 1150)
        (from alice)
        lp
        (lock 1200 40 ∷ [])
      ≡ ok (
        save_locks with_lock lp alice split.0,
        cw20_transfer lp alice unlocked ∷ cw20_transfer lp keeper fees ∷ [],
      ))
    × (unlocked + fees ≡ amounts split.1)
    × (fees * 10_000 ≤ amounts split.1 * 500 + length split.1 * 10_000)
instant_unlock-pays_example =
    instant_unlock-pays ⦃d = exact⦄ 100 200 500 10 valid (omega arith) (omega arith) with_lock
      (at 1150) (from alice) lp (lock 1200 40 ∷ []) config_run (ground (arith, split_run))
      (ground (arith, split_run))
