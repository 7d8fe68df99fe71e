-- ===== src/Superfluid/Locks.antt =====
-- What happens to the locks of single users: a join takes from its sender's locks what was not sent,
-- and refuses if that is not there.
use dexter_core.Prelude.{
  ℕ, ◌+◌, ◌-◌, ◌<◌, ◌^◌, ◌≡◌, ap, sym, ok-injective, ◌∙◌, ◌==◌, ltb, false, Option, List, [], ◌∷◌,
  ◌++◌, arith, ok, err, if◌then◌else◌, unwrap_or, nat_eq, pair_eq, >>=-eq-ok,
}
use dexter_core.Prelude.Dict.{Dict, lookup, insert, erase, lookup-insert}
use dexter_core.Chain.{Addr, Name, Env, MessageInfo}
use dexter_core.Chain.Words.{add_u128, checked_sub}
use dexter_core.Chain.Payment.{Payment}
use dexter_core.Asset.{AssetInfo, token, native_token, Asset}
use dexter_core.Superfluid.{
  Storage, Spent, Msg, collect, unlock, spend, spend_all, spend_native, locked_of, refunds,
  insufficient_balance, lock_lst_asset_msg, join_pool_and_bond, ExecuteMsg, execute, lock_lst_asset,
  join_pool_and_bond_using_locked_lst, update_config, add_allowed_lockable_token,
  remove_allowed_lockable_token, propose_owner, claim_owner, drop_proposal,
}

-- If what was sent of a denom and what the user has locked of it together fit 128 bits, a native asset of
-- a join is refused with the two sums exactly if they do not cover it; else it is sent on in full, what is
-- missing comes off the lock, and what was sent too much stays to be returned.
pub spend_native_result :
    (user : Addr) (funds : Dict Name ℕ) (denom : Name) (total : ℕ) (x : Spent)
    → unwrap_or (lookup denom funds) 0 + locked_of x.locks user denom < 2 ^ 128
    → spend_native user funds denom total x ≡ (
        let was_sent = unwrap_or (lookup denom funds) 0 in
        let locked = locked_of x.locks user denom in
        if ltb (was_sent + locked) total
        then err (insufficient_balance denom (was_sent + locked) total)
        else ok (record {
          locks =
              if ltb was_sent total
              then insert (user, denom) (was_sent + locked - total) x.locks
              else x.locks;
          unspent =
              if ltb total was_sent
              then insert denom (was_sent - total) x.unspent
              else erase denom x.unspent;
          coins = x.coins ++ record { denom = denom; amount = total } ∷ [];
          msgs = x.msgs;
        }))
unfolding spend_native unlock add_u128 checked_sub
spend_native_result user funds denom total x fits = ground arith

module _ (user : Addr) (name : Name) where
  spend-others :
      (env : Env) (info : MessageInfo) (vault : Addr) (funds : Dict Name ℕ) (a : AssetInfo)
      (amount : ℕ) (y z : Spent)
      → (info.sender == user) ≡ false
      → spend env info vault funds a amount y ≡ ok z
      → lookup (user, name) z.locks ≡ lookup (user, name) y.locks
  unfolding spend spend_native unlock add_u128 checked_sub
  spend-others env info vault funds (native_token denom) amount y z other e =
      let was_sent = unwrap_or (lookup denom funds) 0 in
      ground (
        arith,
        lookup-insert (info.sender, denom) (user, name)
            (locked_of y.locks info.sender denom - (amount - was_sent)) y.locks,
      )
  spend-others env info vault funds (token contract_addr) amount y z other e = ground arith

  spend_all-others :
      (env : Env) (info : MessageInfo) (vault : Addr) (funds : Dict Name ℕ) (assets : List Asset)
      (y z : Spent)
      → (info.sender == user) ≡ false
      → spend_all env info vault funds assets y ≡ ok z
      → lookup (user, name) z.locks ≡ lookup (user, name) y.locks
  unfolding spend_all
  spend_all-others env info vault funds [] y z other e = ground arith
  spend_all-others env info vault funds (a ∷ assets) y z other e =
      let (y', e1, e2) = >>=-eq-ok (spend env info vault funds a.info a.amount y) _ e in
      spend_all-others env info vault funds assets y' z other e2
      ∙ spend-others env info vault funds a.info a.amount y y' other e1

  join-others :
      (s t : Storage) (env : Env) (info : MessageInfo) (pool_id : ℕ) (assets : List Asset)
      (min_lp : Option ℕ) (msgs : List Msg)
      → (info.sender == user) ≡ false
      → join_pool_and_bond s env info pool_id assets min_lp ≡ ok (t, msgs)
      → lookup (user, name) t.lock_amount ≡ lookup (user, name) s.lock_amount
  unfolding join_pool_and_bond
  join-others s t env info pool_id assets min_lp msgs other e =
      let vault = s.config.vault_addr in
      let funds = collect [] info.funds in
      let start : Spent = record {
        locks = s.lock_amount;
        unspent = funds;
        coins = [];
        msgs = [];
      } in
      let (z, e1, rest) = >>=-eq-ok (spend_all env info vault funds assets start) _ e in
      let (back, e2, done) = >>=-eq-ok (refunds info.sender z.unspent) _ rest in
      ap (λ r. lookup (user, name) r.0.lock_amount) (sym (ok-injective done))
      ∙ spend_all-others env info vault funds assets start z other e1

  -- A message that succeeds changes no lock of a user other than its sender.
  pub execute_keeps_others :
      ⦃p : Payment⦄
      → (s t : Storage) (env : Env) (info : MessageInfo) (msg : ExecuteMsg) (msgs : List Msg)
      → (info.sender == user) ≡ false
      → execute s env info msg ≡ ok (t, msgs)
      → lookup (user, name) t.lock_amount ≡ lookup (user, name) s.lock_amount
  unfolding execute lock_lst_asset_msg add_u128
  execute_keeps_others s t env info (lock_lst_asset asset) msgs other e =
      let denom = dexter_core.Asset.to_string asset.info in
      ground (
        arith,
        lookup-insert (info.sender, denom) (user, name)
            (locked_of s.lock_amount info.sender denom + asset.amount) s.lock_amount,
      )
  execute_keeps_others s t env info (join_pool_and_bond_using_locked_lst pool_id assets min_lp) msgs
        other e =
      join-others s t env info pool_id assets min_lp msgs other e
  execute_keeps_others s t env info (update_config vault_addr) msgs other e = ground arith
  execute_keeps_others s t env info (add_allowed_lockable_token asset_info) msgs other e =
      ground arith
  execute_keeps_others s t env info (remove_allowed_lockable_token asset_info) msgs other e =
      ground arith
  execute_keeps_others s t env info (propose_owner owner expires_in) msgs other e = ground arith
  execute_keeps_others s t env info claim_owner msgs other e = ground arith
  execute_keeps_others s t env info drop_proposal msgs other e = ground arith
