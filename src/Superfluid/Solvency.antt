-- ===== src/Superfluid/Solvency.antt =====
-- What the contract holds of a denom against what its users have locked, over `execute`.
use dexter_core.Prelude.{
  ℕ, ◌+◌, ◌≤◌, ◌≡◌, refl, ap, ◌∙◌, ◌⊎◌, inr, ◌==◌, true, false, Option, List, [], ◌∷◌, ◌++◌, arith,
  ok, if◌then◌else◌, unwrap_or, nat_eq, ==_iff, pair_eq, All, contains, >>=-eq-ok, or_err-eq-ok,
  ok-injective, sym, guard,
}
use dexter_core.Prelude.Dict.{Dict, lookup, insert, sum, lookup-insert}
use dexter_core.Chain.{
  Addr, Name, Coin, Env, MessageInfo, bank_send, cw20_transfer, cw20_transfer_from,
}
use dexter_core.Chain.Words.{add_u128}
use dexter_core.Chain.Payment.{Payment, sent}
use dexter_core.Asset.{AssetInfo, token, native_token, asset_eq, Asset, to_string}
use dexter_core.Superfluid.{
  Storage, Spent, Msg, pay, increase_allowance, join_pool, collect, spend, spend_all, spend_native,
  refunds, payment_error, asset_not_allowed_to_be_locked, lock_lst_asset_msg, paid_amount,
  locked_of, join_pool_and_bond, ExecuteMsg, execute, only_owner, lift, set_vault, native_only,
  lock_lst_asset, join_pool_and_bond_using_locked_lst, update_config, add_allowed_lockable_token,
  remove_allowed_lockable_token, propose_owner, claim_owner, drop_proposal,
}
use dexter_core.Superfluid.Spending.{
  held, held-insert, spare, spare-insert, IsDistinct, spend_all-total,
}

-- The amount of a denom that a message takes from the contract.
unfoldable pub taken : Name → Msg → ℕ
taken x (pay (bank_send to_address denom amount)) = if denom == x then amount else 0
taken x (pay (cw20_transfer contract recipient amount)) = 0
taken x (pay (cw20_transfer_from contract owner recipient amount)) = 0
taken x (increase_allowance contract spender amount) = 0
taken x (join_pool vault pool_id recipient assets min_lp_to_receive funds) = sent x funds

unfoldable pub outflow : Name → List Msg → ℕ
outflow x [] = 0
outflow x (msg ∷ msgs) = taken x msg + outflow x msgs

outflow-append : (x : Name) (a b : List Msg) → outflow x (a ++ b) ≡ outflow x a + outflow x b
unfolding outflow
outflow-append x [] b = omega arith
outflow-append x (msg ∷ a) b = omega (arith, outflow-append x a b)

-- The chain passes no denom twice.
abbrev pub HasDistinctDenoms : List Coin → Type 0
HasDistinctDenoms [] = Unit
HasDistinctDenoms (coin ∷ coins) =
    All (λ other. (coin.denom == other.denom) ≡ false) coins × HasDistinctDenoms coins

absent-sent :
    (x : Name) (coin : Coin) (coins : List Coin)
    → All (λ other. (coin.denom == other.denom) ≡ false) coins
    → (coin.denom == x) ≡ true
    → sent x coins ≡ 0
absent-sent x coin [] h same = refl
absent-sent x coin (other ∷ coins) (h, rest) same = ground (
  arith,
  ==_iff coin.denom x,
  ==_iff other.denom x,
  ==_iff coin.denom other.denom,
  absent-sent x coin coins rest same,
)

spare-collect :
    (x : Name) (coins : List Coin) (m : Dict Name ℕ)
    → spare x m ≡ unwrap_or (lookup x m) 0
    → spare x (collect m coins) ≡ unwrap_or (lookup x (collect m coins)) 0
unfolding collect
spare-collect x [] m h = h
spare-collect x (coin ∷ coins) m h = spare-collect x coins (insert coin.denom coin.amount m) (
    ground (
      arith,
      spare-insert x coin.denom coin.amount m,
      lookup-insert coin.denom x coin.amount m,
      ==_iff coin.denom x,
    ))

collect-sent :
    (x : Name) (coins : List Coin) (m : Dict Name ℕ)
    → HasDistinctDenoms coins
    → (sent x coins ≡ 0) ⊎ (unwrap_or (lookup x m) 0 ≡ 0)
    → unwrap_or (lookup x (collect m coins)) 0 ≤ unwrap_or (lookup x m) 0 + sent x coins
unfolding collect
collect-sent x [] m set h = ground arith
collect-sent x (coin ∷ coins) m (apart, set) h = ground (
  arith,
  h,
  absent-sent x coin coins apart,
  lookup-insert coin.denom x coin.amount m,
  collect-sent x coins (insert coin.denom coin.amount m) set,
)

refunds-outflow :
    (x : Name) (user : Addr) (unspent : Dict Name ℕ) (msgs : List Msg)
    → refunds user unspent ≡ ok msgs
    → outflow x msgs ≡ spare x unspent
unfolding refunds outflow taken spare sum
refunds-outflow x user [] msgs e = ground arith
refunds-outflow x user ((denom, amount) ∷ unspent) msgs e =
    let (rest, e1, e2) = >>=-eq-ok (refunds user unspent) _ e in
    ground (arith, e2, refunds-outflow x user unspent rest e1)

module _ (env : Env) (info : MessageInfo) (vault : Addr) (funds : Dict Name ℕ) (x : Name) where
  spend_native-msgs :
      (denom : Name) (amount : ℕ) (y z : Spent)
      → spend_native info.sender funds denom amount y ≡ ok z
      → z.msgs ≡ y.msgs
  unfolding spend_native dexter_core.Superfluid.unlock
  spend_native-msgs denom amount y z e = ground arith

  spend-outflow :
      (a : AssetInfo) (amount : ℕ) (y z : Spent)
      → spend env info vault funds a amount y ≡ ok z
      → outflow x z.msgs ≡ outflow x y.msgs
  unfolding spend outflow taken
  spend-outflow (native_token denom) amount y z e =
      ap (outflow x) (spend_native-msgs denom amount y z e)
  spend-outflow (token contract_addr) amount y z e = ground (
    arith,
    outflow-append x y.msgs (
        pay (cw20_transfer_from contract_addr info.sender env.contract_address amount)
        ∷ increase_allowance contract_addr vault amount
        ∷ []),
  )

  spend_all-outflow :
      (assets : List Asset) (y z : Spent)
      → spend_all env info vault funds assets y ≡ ok z
      → outflow x z.msgs ≡ outflow x y.msgs
  unfolding spend_all
  spend_all-outflow [] y z e = ground arith
  spend_all-outflow (a ∷ assets) y z e =
      let (y', e1, e2) = >>=-eq-ok (spend env info vault funds a.info a.amount y) _ e in
      spend_all-outflow assets y' z e2 ∙ spend-outflow a.info a.amount y y' e1

paid-sent :
    ⦃p : Payment⦄
    → (x : Name) (info : MessageInfo) (a : AssetInfo) (amount : ℕ) → paid_amount info a ≡ ok amount
    → (if to_string a == x then amount else 0) ≤ sent x info.funds
paid-sent ⦃p⦄ x info (native_token denom) amount e =
    let whole =
      p.must_pay_lem info denom amount (or_err-eq-ok (p.must_pay info denom) payment_error e) in
    ground (arith, whole, ==_iff denom x)
paid-sent ⦃p⦄ x info (token contract_addr) amount e = ground arith

lock-total :
    ⦃p : Payment⦄
    → (x : Name) (s t : Storage) (info : MessageInfo) (asset : Asset) (msgs : List Msg)
    → lock_lst_asset_msg s info asset ≡ ok (t, msgs)
    → held x t.lock_amount + outflow x msgs ≤ held x s.lock_amount + sent x info.funds
unfolding lock_lst_asset_msg add_u128 outflow
lock-total ⦃p⦄ x s t info asset msgs e =
    let name = to_string asset.info in
    let (u, e1, rest) =
      >>=-eq-ok
        (guard (contains s.config.allowed_lockable_tokens asset.info)
          asset_not_allowed_to_be_locked)
        _ e in
    let (amount, e2, done) = >>=-eq-ok (paid_amount info asset.info) _ rest in
    ground (
      arith,
      done,
      paid-sent x info asset.info amount e2,
      held-insert x info.sender name (locked_of s.lock_amount info.sender name + asset.amount)
          s.lock_amount,
    )

-- The messages of a join, counted.
sum-join :
    (x : Name) (start z : Spent) (back : List Msg) (last : Msg) (locks : Dict (Addr × Name) ℕ)
    (msgs : List Msg) (funds : ℕ)
    → taken x last ≡ sent x z.coins
    → held x z.locks + spare x z.unspent + sent x z.coins
      ≡ held x start.locks + spare x start.unspent
    → outflow x z.msgs ≡ 0
    → outflow x back ≡ spare x z.unspent
    → spare x start.unspent ≤ funds
    → locks ≡ z.locks
    → msgs ≡ z.msgs ++ back ++ last ∷ []
    → held x locks + outflow x msgs ≤ held x start.locks + funds
unfolding outflow
sum-join x start z back last locks msgs funds h1 h2 h3 h4 h5 h6 h7 = ground (
  arith,
  ap (held x) h6,
  ap (outflow x) h7,
  outflow-append x (z.msgs ++ back) (last ∷ []),
  outflow-append x z.msgs back,
)

join-total :
    (x : Name) (s t : Storage) (env : Env) (info : MessageInfo) (pool_id : ℕ) (assets : List Asset)
    (min_lp : Option ℕ) (msgs : List Msg)
    → HasDistinctDenoms info.funds
    → IsDistinct assets
    → join_pool_and_bond s env info pool_id assets min_lp ≡ ok (t, msgs)
    → held x t.lock_amount + outflow x msgs ≤ held x s.lock_amount + sent x info.funds
unfolding join_pool_and_bond lookup spare sum outflow taken
join-total x s t env info pool_id assets min_lp msgs set distinct e =
    let vault = s.config.vault_addr in
    let funds = collect [] info.funds in
    let start : Spent = record { locks = s.lock_amount; unspent = funds; coins = []; msgs = [] } in
    let (z, e1, rest) = >>=-eq-ok (spend_all env info vault funds assets start) _ e in
    let (back, e2, done) = >>=-eq-ok (refunds info.sender z.unspent) _ rest in
    let whole = spare-collect x info.funds [] refl in
    let all =
      spend_all-total env info vault funds x assets start z distinct (inr (whole, refl)) e1 in
    let quiet = spend_all-outflow env info vault funds x assets start z e1 in
    let backs = refunds-outflow x info.sender z.unspent back e2 in
    let few = collect-sent x info.funds [] set (inr refl) in
    let paid : spare x funds ≤ sent x info.funds = ground (arith, whole, few) in
    let last = join_pool vault pool_id info.sender assets min_lp z.coins in
    let both = ok-injective done in
    sum-join x start z back last t.lock_amount msgs (sent x info.funds) refl (ground (arith, all))
      quiet backs paid (ap (λ r. r.0.lock_amount) (sym both)) (ap (λ r. r.1) (sym both))

-- The assets of a join are named once each.
abbrev pub NamesOnce : ExecuteMsg → Type 0
NamesOnce (lock_lst_asset asset) = Unit
NamesOnce (join_pool_and_bond_using_locked_lst pool_id total_assets min_lp_to_receive) =
    IsDistinct total_assets
NamesOnce (update_config vault_addr) = Unit
NamesOnce (add_allowed_lockable_token asset_info) = Unit
NamesOnce (remove_allowed_lockable_token asset_info) = Unit
NamesOnce (propose_owner owner expires_in) = Unit
NamesOnce claim_owner = Unit
NamesOnce drop_proposal = Unit

-- If no denom stands twice among the coins sent and no asset twice among those of a join, what a message
-- that succeeds pays out of a denom, with what its users have locked after it, is at most what they had
-- locked before and what was sent.
pub execute_covers_locks :
    ⦃p : Payment⦄
    → (x : Name) (s t : Storage) (env : Env) (info : MessageInfo) (msg : ExecuteMsg)
      (msgs : List Msg)
    → HasDistinctDenoms info.funds
    → NamesOnce msg
    → execute s env info msg ≡ ok (t, msgs)
    → held x t.lock_amount + outflow x msgs ≤ held x s.lock_amount + sent x info.funds
unfolding execute outflow
execute_covers_locks x s t env info (lock_lst_asset asset) msgs set once e =
    lock-total x s t info asset msgs e
execute_covers_locks x s t env info (join_pool_and_bond_using_locked_lst pool_id assets min_lp) msgs
      set once e =
    join-total x s t env info pool_id assets min_lp msgs set once e
execute_covers_locks x s t env info (update_config vault_addr) msgs set once e = ground arith
execute_covers_locks x s t env info (add_allowed_lockable_token asset_info) msgs set once e =
    ground arith
execute_covers_locks x s t env info (remove_allowed_lockable_token asset_info) msgs set once e =
    ground arith
execute_covers_locks x s t env info (propose_owner owner expires_in) msgs set once e = ground arith
execute_covers_locks x s t env info claim_owner msgs set once e = ground arith
execute_covers_locks x s t env info drop_proposal msgs set once e = ground arith
