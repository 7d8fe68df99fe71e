-- ===== src/Staking/Custody/Bonds.antt =====
-- Bonding and unbonding, against the books of `Custody`.
use dexter_core.Prelude.{
  ℕ, ◌+◌, ◌≡◌, ◌==◌, Option, none, List, [], ◌∷◌, ◌++◌, ◌-◌, ◌≤◌, arith, ok, if◌then◌else◌,
  unwrap_or, Ensures, nat_eq, pair_eq,
}
use dexter_core.Prelude.Dict.{insert, sum, sum-insert, lookup-insert}
use dexter_core.Chain.{Addr, Response, Env, MessageInfo}
use dexter_core.Chain.Words.{add_u128, add_u64, checked_sub}
use dexter_core.Chain.Decimal.{Decimal}
use dexter_core.Staking.State.{Storage, TokenLock, LpGlobalState}
use dexter_core.Staking.Rewards.{update_all}
use dexter_core.Staking.Rewards.Frame.{Kept, update_all-Kept}
use dexter_core.Staking.Bond.{bond, bonded_of, global_of}
use dexter_core.Staking.Unbond.{unbond, instant_unbond, locks_of, unbond_config_of}
use dexter_core.Staking.Custody.{
  bonded_total, locked_total, owed, outflow, bond_weight, lock_weight,
}
use dexter_core.Staking.Locks.{amounts}

-- Saving a user's bond changes the total by the difference.
bonded_total-insert :
    (l lp_token user : Addr) (amount : ℕ) (s : Storage)
    → sum (bond_weight l) (insert (lp_token, user) amount s.user_bonded_lp_tokens)
        + (if lp_token == l then bonded_of s lp_token user else 0)
      ≡ bonded_total l s + (if lp_token == l then amount else 0)
unfolding bonded_total
bonded_total-insert l lp_token user amount s =
    ground (arith, sum-insert (bond_weight l) (lp_token, user) amount s.user_bonded_lp_tokens)

-- A lock added to those of a user counts with its amount.
pub locked_total-insert :
    (l lp_token user : Addr) (locks : List TokenLock) (s : Storage)
    → sum (lock_weight l) (insert (lp_token, user) locks s.user_lp_token_locks)
        + (if lp_token == l then amounts (locks_of s lp_token user) else 0)
      ≡ locked_total l s + (if lp_token == l then amounts locks else 0)
unfolding locked_total
locked_total-insert l lp_token user locks s =
    ground (arith, sum-insert (lock_weight l) (lp_token, user) locks s.user_lp_token_locks)

amounts-append : (xs ys : List TokenLock) → amounts (xs ++ ys) ≡ amounts xs + amounts ys
amounts-append [] ys = omega arith
amounts-append (x ∷ xs) ys = omega (arith, amounts-append xs ys)

-- What a user has bonded is part of what all users have bonded.
bonded_of-le :
    (s : Storage) (lp_token user : Addr) → bonded_of s lp_token user ≤ bonded_total lp_token s
bonded_of-le s lp_token user = ground (arith, bonded_total-insert lp_token lp_token user 0 s)

module _ ⦃d : Decimal⦄ (l : Addr) (s : Storage) (env : Env) where
  module _ (user lp_token : Addr) (amount : ℕ) (t : Storage) (r : Response) where
    pub bond-owed :
        bond s env user lp_token amount ≡ ok (t, r)
        → (owed l t ≡ owed l s + (if lp_token == l then amount else 0)) × (outflow l r ≡ 0)
    unfolding bond bonded_total locked_total add_u128
    bond-owed e = ground (
      arith,
      update_all-Kept lp_token user (global_of s lp_token).total_bond_amount
          (bonded_of s lp_token user) env.block_time none
          (global_of s lp_token).active_reward_assets (s, []),
      bonded_total-insert l lp_token user (bonded_of s lp_token user + amount) s,
    )

    -- The stored total moves with the sum of the bonds.
    pub bond-total :
        bond s env user lp_token amount ≡ ok (t, r)
        → (global_of s l).total_bond_amount ≡ bonded_total l s
        → (global_of t l).total_bond_amount ≡ bonded_total l t
    unfolding bond bonded_total add_u128
    bond-total e h = ground (
      arith,
      update_all-Kept lp_token user (global_of s lp_token).total_bond_amount
          (bonded_of s lp_token user) env.block_time none
          (global_of s lp_token).active_reward_assets (s, []),
      bonded_total-insert l lp_token user (bonded_of s lp_token user + amount) s,
      lookup-insert lp_token l
          (record (global_of s lp_token) {
            total_bond_amount = (global_of s lp_token).total_bond_amount + amount;
          })
          s.lp_global_state,
    )

  module _ (info : MessageInfo) (lp_token : Addr) (t : Storage) (r : Response) where
    abbrev bonded : ℕ
    bonded = bonded_of s lp_token info.sender

    abbrev global : LpGlobalState
    global = global_of s lp_token

    abbrev Updated : Type 0
    Updated =
        Ensures
          (Kept lp_token info.sender global.total_bond_amount bonded env.block_time none (s, []))
          (update_all global.active_reward_assets lp_token info.sender global.total_bond_amount
            bonded env.block_time none (s, []))

    updated : Updated
    updated =
        update_all-Kept lp_token info.sender global.total_bond_amount bonded env.block_time none
          global.active_reward_assets (s, [])

    abbrev lowered : ℕ → LpGlobalState
    lowered amount = record (global_of s lp_token) {
      total_bond_amount = global.total_bond_amount - amount;
    }

    -- The lock that `unbond` adds.
    abbrev new_lock : ℕ → TokenLock
    new_lock amount = record {
      unlock_time = env.block_time + (unbond_config_of s lp_token).unlock_period;
      amount = amount;
    }

    pub unbond-owed :
        (amount : Option ℕ)
        → unbond s env info lp_token amount ≡ ok (t, r)
        → (owed l t ≡ owed l s) × (outflow l r ≡ 0)
    unfolding unbond bonded_total locked_total checked_sub add_u64
    unbond-owed amount e =
        let x = unwrap_or amount bonded in
        let old = locks_of s lp_token info.sender in
        ground (
          arith,
          updated,
          bonded_total-insert l lp_token info.sender (bonded - x) s,
          locked_total-insert l lp_token info.sender (old ++ new_lock x ∷ []) s,
          amounts-append old (new_lock x ∷ []),
        )

    pub unbond-total :
        (amount : Option ℕ)
        → unbond s env info lp_token amount ≡ ok (t, r)
        → (global_of s l).total_bond_amount ≡ bonded_total l s
        → (global_of t l).total_bond_amount ≡ bonded_total l t
    unfolding unbond bonded_total checked_sub
    unbond-total amount e h =
        let x = unwrap_or amount bonded in
        ground (
          arith,
          updated,
          bonded_total-insert l lp_token info.sender (bonded - x) s,
          lookup-insert lp_token l (lowered x) s.lp_global_state,
        )

    pub instant_unbond-owed :
        (amount : ℕ)
        → instant_unbond s env info lp_token amount ≡ ok (t, r)
        → owed l t + outflow l r ≡ owed l s
    unfolding instant_unbond bonded_total locked_total checked_sub
    instant_unbond-owed amount e =
        ground (arith, updated, bonded_total-insert l lp_token info.sender (bonded - amount) s)

    pub instant_unbond-total :
        (amount : ℕ)
        → instant_unbond s env info lp_token amount ≡ ok (t, r)
        → (global_of s l).total_bond_amount ≡ bonded_total l s
        → (global_of t l).total_bond_amount ≡ bonded_total l t
    unfolding instant_unbond bonded_total checked_sub
    instant_unbond-total amount e h = ground (
      arith,
      updated,
      bonded_total-insert l lp_token info.sender (bonded - amount) s,
      lookup-insert lp_token l (lowered amount) s.lp_global_state,
    )
