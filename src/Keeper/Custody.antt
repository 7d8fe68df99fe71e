-- ===== src/Keeper/Custody.antt =====
-- What leaves the keeper, and on whose word.
use dexter_core.Prelude.{
  ℕ, ◌+◌, ◌≤◌, ◌≡◌, ◌⊎◌, inl, inr, refl, ap, sym, ◌∙◌, true, false, Option, List, [], ◌∷◌, ◌++◌,
  arith, ok, err, panic, ◌==◌, ==_iff, if◌then◌else◌, unwrap_or, or_panic, ltb, not, ok-injective,
  nat_eq, >>=-eq-ok, guard_step, Result, Bool-cases,
}
use dexter_core.Chain.{
  Addr, Name, Coin, Env, MessageInfo, CosmosMsg, bank_send, cw20_transfer, cw20_transfer_from,
  StdError,
}
use dexter_core.Chain.Words.{add_u64}
use dexter_core.Asset.{
  AssetInfo, token, native_token, Asset, asset_beq, asset_beq_iff, create_transfer_msg,
}
use dexter_core.Ownership.{
  propose_new_owner, drop_ownership_proposal, claim_ownership, addr_validate,
}
use dexter_core.Keeper.{
  Storage, Querier, Msg, pay, increase_allowance, send_exit, swap, ExecuteMsg, withdraw_msg,
  exit_lp_tokens_msg, swap_asset_msg, propose_new_owner_msg, drop_ownership_proposal_msg,
  claim_ownership_msg, query_for_balance, withdraw, exit_lp_tokens, swap_asset, execute,
  create_dexter_exit_pool_msg, lift, pay_vault, ContractError,
}

abbrev amount_if : AssetInfo → AssetInfo → ℕ → ℕ
amount_if a b amount = if asset_beq a b then amount else 0

abbrev transferred : AssetInfo → CosmosMsg → ℕ
transferred a (bank_send to_address denom amount) = amount_if a (native_token denom) amount
transferred a (cw20_transfer contract recipient amount) = amount_if a (token contract) amount
transferred a (cw20_transfer_from contract owner recipient amount) = 0

abbrev coins_of : AssetInfo → List Coin → ℕ
coins_of a [] = 0
coins_of a (coin ∷ coins) = amount_if a (native_token coin.denom) coin.amount + coins_of a coins

-- What a message sends of an asset, or allows another to take.
abbrev given : AssetInfo → Msg → ℕ
given a (pay msg) = transferred a msg
given a (increase_allowance contract spender amount expires) = amount_if a (token contract) amount
given a (send_exit lp_token vault amount pool_id recipient min_assets_out) =
    amount_if a (token lp_token) amount
given a (swap vault pool_id asset_in asset_out amount recipient min_receive funds) =
    coins_of a funds

abbrev pub outflow : AssetInfo → List Msg → ℕ
outflow a [] = 0
outflow a (msg ∷ msgs) = given a msg + outflow a msgs

amount_if-≤ :
    ⦃q : Querier⦄
    → (a b : AssetInfo) (account : Addr) (amount balance has : ℕ)
    → query_for_balance a account ≡ ok has
    → query_for_balance b account ≡ ok balance
    → (ltb balance amount) ≡ false
    → amount_if a b amount ≤ has
amount_if-≤ a b account amount balance has asked found enough = elim (Bool-cases (asset_beq a b)) [
  | inl same ↦
      let at : query_for_balance a account ≡ query_for_balance b account =
        ap (λ x. query_for_balance x account) ((asset_beq_iff a b).0 same) in
      let agree : has ≡ balance = ok-injective (sym asked ∙ at ∙ found) in ground arith
  | inr differ ↦ ground arith
]

lift-eq-ok : {A : Type 0} (m : Result StdError A) {value : A} → lift m ≡ ok value → m ≡ ok value
lift-eq-ok (ok b) h = cc
lift-eq-ok (err e) h = cc
lift-eq-ok panic h = cc

transfer-outflow :
    (a b : AssetInfo) (to : Addr) (amount : ℕ)
    → outflow a (pay (create_transfer_msg b to amount) ∷ []) ≡ amount_if a b amount
transfer-outflow a (token contract) to amount = ground arith
transfer-outflow a (native_token denom) to amount = ground arith

swap-outflow :
    (a b : AssetInfo) (height : ℕ) (vault to : Addr) (amount pool_id : ℕ) (ask : AssetInfo)
    (min_receive : Option ℕ) (msgs : List Msg) (funds : List Coin)
    → pay_vault height vault b amount ≡ ok (msgs, funds)
    → outflow a (msgs ++ swap vault pool_id b ask amount to min_receive funds ∷ [])
      ≡ amount_if a b amount
unfolding add_u64
swap-outflow a (native_token denom) height vault to amount pool_id ask min_receive msgs funds e =
    let e' = ok-injective e in rw (sym (ap (λ r. r.0) e'), sym (ap (λ r. r.1) e')) ground arith
swap-outflow a (token contract) height vault to amount pool_id ask min_receive msgs funds e =
    let (expires, at, e) = >>=-eq-ok (or_panic (add_u64 height 1)) _ e in
    let e' = ok-injective e in rw (sym (ap (λ r. r.0) e'), sym (ap (λ r. r.1) e')) ground arith

module _ ⦃q : Querier⦄ (a : AssetInfo) (s : Storage) (env : Env) (info : MessageInfo) (has : ℕ)
    (asked : query_for_balance a env.contract_address ≡ ok has) where
  abbrev IsCovered : List Msg → Type 0
  IsCovered msgs = (info.sender ≡ s.config.owner) × (outflow a msgs ≤ has)

  is_covered :
      (b : AssetInfo) (amount balance : ℕ) (msgs : List Msg)
      → (info.sender == s.config.owner) ≡ true
      → lift (query_for_balance b env.contract_address) ≡ ok balance
      → not (ltb balance amount) ≡ true
      → outflow a msgs ≡ amount_if a b amount
      → IsCovered msgs
  is_covered b amount balance msgs passed found enough sum =
      let within : amount_if a b amount ≤ has =
        amount_if-≤ a b env.contract_address amount balance has asked (lift-eq-ok _ found)
          (ground arith) in
      ((==_iff info.sender s.config.owner).0 passed, ground arith)

  withdraw-IsCovered :
      (asset : AssetInfo) (amount : ℕ) (recipient : Option Addr) (msgs : List Msg)
      → withdraw s env info asset amount recipient ≡ ok msgs
      → IsCovered msgs
  unfolding withdraw
  withdraw-IsCovered asset amount recipient msgs run =
      let (passed, run) = guard_step (info.sender == s.config.owner) _ _ run in
      let (balance, found, run) =
        >>=-eq-ok (lift (query_for_balance asset env.contract_address)) _ run in
      let (enough, run) = guard_step (not (ltb balance amount)) _ _ run in
      let (to, valid, run) =
        >>=-eq-ok (lift (addr_validate env (unwrap_or recipient s.config.owner))) _ run in
      is_covered asset amount balance msgs passed found enough
        (ap (outflow a) (sym (ok-injective run)) ∙ transfer-outflow a asset to amount)

  exit-IsCovered :
      (lp : Name) (amount : ℕ) (min_assets : Option (List Asset)) (msgs : List Msg)
      → exit_lp_tokens s env info lp amount min_assets ≡ ok msgs
      → IsCovered msgs
  unfolding exit_lp_tokens create_dexter_exit_pool_msg
  exit-IsCovered lp amount min_assets msgs run =
      let (passed, run) = guard_step (info.sender == s.config.owner) _ _ run in
      let (lp_token, valid, run) = >>=-eq-ok (lift (addr_validate env lp)) _ run in
      let balance = unwrap_or (q.cw20_balance lp_token env.contract_address) 0 in
      let (enough, run) = guard_step (not (ltb balance amount)) _ _ run in
      let (msg, found, run) =
        >>=-eq-ok
          (create_dexter_exit_pool_msg env s.config.vault_address lp_token amount min_assets) _
          run in
      let (id, answer, made) =
        >>=-eq-ok (lift (q.pool_by_lp_token s.config.vault_address lp_token)) _ found in
      is_covered (token lp_token) amount balance msgs passed refl enough (
        ap (outflow a) (sym (ok-injective run))
        ∙ ap (λ m. outflow a (m ∷ [])) (sym (ok-injective made))
        ∙ ground arith)

  swap-IsCovered :
      (height pool_id : ℕ) (offer : Asset) (ask : AssetInfo) (min_receive : Option ℕ)
      (msgs : List Msg)
      → swap_asset s env height info pool_id offer ask min_receive ≡ ok msgs
      → IsCovered msgs
  unfolding swap_asset
  swap-IsCovered height pool_id offer ask min_receive msgs run =
      let (passed, run) = guard_step (info.sender == s.config.owner) _ _ run in
      let (balance, found, run) =
        >>=-eq-ok (lift (query_for_balance offer.info env.contract_address)) _ run in
      let (enough, run) = guard_step (not (ltb balance offer.amount)) _ _ run in
      let (paid, at, run) =
        >>=-eq-ok (pay_vault height s.config.vault_address offer.info offer.amount) _ run in
      is_covered offer.info offer.amount balance msgs passed found enough (
        ap (outflow a) (sym (ok-injective run))
        ∙ swap-outflow a offer.info height s.config.vault_address env.contract_address offer.amount
            pool_id ask min_receive paid.0 paid.1 at)

  of_IsCovered :
      (u : Storage) (sent msgs : List Msg)
      → IsCovered sent
      → ◌≡◌ {A = Result ContractError (Storage × List Msg)} (ok (s, sent)) (ok (u, msgs))
      → (outflow a msgs ≤ has) × ((info.sender ≡ s.config.owner) ⊎ (msgs ≡ []))
  of_IsCovered u sent msgs (owner, within) run =
      let same : sent ≡ msgs = ap (λ r. r.1) (ok-injective run) in (rw (sym same) within, inl owner)

  silent :
      (u v : Storage) (msgs : List Msg)
      → ◌≡◌ {A = Result ContractError (Storage × List Msg)} (ok (v, [])) (ok (u, msgs))
      → (outflow a msgs ≤ has) × ((info.sender ≡ s.config.owner) ⊎ (msgs ≡ []))
  silent u v msgs run =
      let same : [] ≡ msgs = ap (λ r. r.1) (ok-injective run) in
      (rw (sym same) ground arith, inr (sym same))

  -- If the keeper's balance of an asset can be asked, a message that succeeds sends no more of the asset, and
  -- allows the vault to take no more of it, than the balance; and if it sends any message at all, its
  -- sender is the owner.
  pub execute_within_balance :
      (height : ℕ) (msg : ExecuteMsg) (u : Storage) (msgs : List Msg)
      → execute s env height info msg ≡ ok (u, msgs)
      → (outflow a msgs ≤ has) × ((info.sender ≡ s.config.owner) ⊎ (msgs ≡ []))
  unfolding execute
  execute_within_balance height (withdraw_msg asset amount recipient) u msgs run =
      let (sent, done, run) = >>=-eq-ok (withdraw s env info asset amount recipient) _ run in
      of_IsCovered u sent msgs (withdraw-IsCovered asset amount recipient sent done) run
  execute_within_balance height (exit_lp_tokens_msg lp amount min_assets) u msgs run =
      let (sent, done, run) = >>=-eq-ok (exit_lp_tokens s env info lp amount min_assets) _ run in
      of_IsCovered u sent msgs (exit-IsCovered lp amount min_assets sent done) run
  execute_within_balance height (swap_asset_msg offer ask min_receive pool_id) u msgs run =
      let (sent, done, run) =
        >>=-eq-ok (swap_asset s env height info pool_id offer ask min_receive) _ run in
      of_IsCovered u sent msgs (swap-IsCovered height pool_id offer ask min_receive sent done) run
  execute_within_balance height (propose_new_owner_msg owner expires_in) u msgs run =
      let (proposal, done, run) =
        >>=-eq-ok (lift (propose_new_owner env info owner expires_in s.config.owner)) _ run in
      silent u _ msgs run
  execute_within_balance height drop_ownership_proposal_msg u msgs run =
      let (proposal, done, run) =
        >>=-eq-ok (lift (drop_ownership_proposal info s.config.owner)) _ run in
      silent u _ msgs run
  execute_within_balance height claim_ownership_msg u msgs run =
      let (proposal, done, run) =
        >>=-eq-ok (lift (claim_ownership env info s.ownership_proposal)) _ run in
      silent u _ msgs run
