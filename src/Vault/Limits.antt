-- ===== src/Vault/Limits.antt =====
-- What a swap of contracts/vault pays the user who set a least amount.
use dexter_core.Prelude.{
  ℕ, ◌≤◌, ◌≡◌, ◌⊎◌, inl, inr, refl, sym, ap, ◌∙◌, Bool, true, false, ◌&&◌, ◌||◌, Option, some, List,
  [], ◌∷◌, ◌++◌, arith, ok, or_err, nat_eq, >>=-eq-ok, guard_step, ok-injective, Bool-cases,
}
use dexter_core.Prelude.Dict.{lookup}
use dexter_core.Chain.{Addr, Env, MessageInfo}
use dexter_core.Chain.Decimal.{Decimal}
use dexter_core.Chain.Text.{Text}
use dexter_core.Asset.{asset_beq, Asset, create_transfer_msg}
use dexter_core.Vault.State.{
  pool_type_eq, Storage, PoolInfo, Pools, Msg, pay, lift, invalid_pool_id, std,
}
use dexter_core.Chain.Words.{add_u128, checked_sub}
use dexter_core.Chain.{not_found, overflow}
use dexter_core.Vault.Swap.{
  SingleSwapRequest, Pass, swap_asset, swap_in, swap_out, ask_step, offer_step, swap_assets,
  matches_offer, swap_recipient, transfer_swap_fee, check_swap_request, check_swap_open, check_swap,
  swap_fee, check_max_spend, check_min_receive, save_swap, execute_swap, less_fee, take_offer,
}
use dexter_core.Vault.Execute.{swap, execute}
use dexter_core.Vault.Books.Swap.Loop.{stop_or_go-cases}

accepted : (b a : ℕ) (value : Unit) → check_min_receive (some b) a ≡ ok value → b ≤ a
accepted b a value h = ground arith

snd-&& : (a b : Bool) → (a && b) ≡ true → b ≡ true
snd-&& true b h = h
snd-&& false b h = cc

-- The message is one of them.
abbrev pub Includes : Msg → List Msg → Type 0
Includes msg [] = false ≡ true
Includes msg (x ∷ xs) = (x ≡ msg) ⊎ Includes msg xs

Includes-left : (msg : Msg) (xs ys : List Msg) → Includes msg xs → Includes msg (xs ++ ys)
Includes-left msg [] ys h = cc
Includes-left msg (x ∷ xs) ys (inl h) = inl h
Includes-left msg (x ∷ xs) ys (inr h) = inr (Includes-left msg xs ys h)

Includes-right : (msg : Msg) (xs ys : List Msg) → Includes msg ys → Includes msg (xs ++ ys)
Includes-right msg [] ys h = h
Includes-right msg (x ∷ xs) ys h = inr (Includes-right msg xs ys h)

module _ ⦃t : Text⦄ (env : Env) (info : MessageInfo) (to : Addr) (fee : Option Asset)
    (protocol_fee : ℕ) (offer ask : Asset) where
  abbrev payment : Msg
  payment = pay (create_transfer_msg ask.info to ask.amount)

  offer_step-info :
      (stored : Asset) (out : Asset × List Msg)
      → offer_step env info fee protocol_fee offer stored ≡ ok out
      → out.0.info ≡ stored.info
  unfolding offer_step swap_in
  offer_step-info stored out e = elim (Bool-cases (matches_offer offer stored)) [
    | inl here ↦
        let (with_offer, e1, r1) =
          >>=-eq-ok (or_err (add_u128 stored.amount offer.amount) (std overflow)) _
            (rw (offer_step, here) at e) in
        let (amount, e2, r2) = >>=-eq-ok (less_fee fee offer.info protocol_fee with_offer) _ r1 in
        let (msgs, e3, r3) = >>=-eq-ok (take_offer env info offer stored.info) _ r2 in
        ap (λ r. r.0.info) (sym (ok-injective r3))
    | inr other ↦ ap (λ r. r.0.info) (sym (ok-injective (rw (offer_step, other) at e)))
  ]

  ask_step-pays :
      (stored : Asset) (out : Asset × List Msg)
      → asset_beq stored.info ask.info ≡ true
      → ask_step to fee protocol_fee ask stored ≡ ok out
      → Includes payment out.1
  unfolding ask_step swap_out
  ask_step-pays stored out same e =
      let (left, e1, r1) =
        >>=-eq-ok (or_err (checked_sub stored.amount ask.amount) (std overflow)) _
          (rw (ask_step, same) at e) in
      let (amount, e2, r2) = >>=-eq-ok (less_fee fee ask.info protocol_fee left) _ r1 in
      rw (sym (ap (λ r. r.1) (ok-injective r2))) (inl refl)

  swap_assets-pays :
      (o k : Bool) (stored : List Asset) (pass : Pass)
      → k ≡ false
      → swap_assets env info to fee protocol_fee offer ask o k stored ≡ ok pass
      → pass.ask_asset_updated ≡ true
      → Includes payment pass.msgs
  unfolding swap_assets swap_asset
  swap_assets-pays o k [] pass unpaid e updated = cc
  swap_assets-pays o k (b ∷ stored) pass unpaid e updated =
      let k' = k || asset_beq b.info ask.info in
      let o' = o || matches_offer offer b in
      let ((asset, moves), e1, r1) =
        >>=-eq-ok (swap_asset env info to fee protocol_fee offer ask b) _ e in
      let ((with_offer, ins), e2, r2) =
        >>=-eq-ok (offer_step env info fee protocol_fee offer b) _ e1 in
      let ((asset', outs), e3, r3) = >>=-eq-ok (ask_step to fee protocol_fee ask with_offer) _ r2 in
      let (more, shape, how) = stop_or_go-cases (o' && k') asset moves stored _ pass r1 in
      let found : Includes payment moves ⊎ Includes payment more.msgs =
        elim (Bool-cases (asset_beq b.info ask.info)) [
          | inl same ↦
              let kept = ap (λ i. asset_beq i ask.info) (offer_step-info b (with_offer, ins) e2) in
              let here = ask_step-pays with_offer (asset', outs) (kept ∙ same) e3 in
              (let whole : Includes payment moves =
                  rw (sym (ap (λ r. r.1) (ok-injective r3)))
                    (Includes-right payment ins outs here) in
                inl whole)
          | inr differ ↦ elim how [
            | inl e4 ↦ inr (
                swap_assets-pays o' k' stored more (ground (arith, unpaid, differ)) e4
                  (ap (λ p. p.ask_asset_updated) (sym shape) ∙ updated))
            | inr (both, rest) ↦ ground (arith, unpaid, differ, both)
          ]
        ] in
      rw (shape) (elim found [
        | inl h ↦ Includes-left payment moves more.msgs h
        | inr h ↦ Includes-right payment moves more.msgs h
      ])

module _ ⦃t : Text⦄ ⦃d : Decimal⦄ where
  save_swap-pays :
      (s u : Storage) (env : Env) (info : MessageInfo) (to : Addr) (id protocol_fee : ℕ)
      (pool : PoolInfo) (fee : Option Asset) (offer ask : Asset) (msgs : List Msg)
      → save_swap s env info to id protocol_fee pool fee offer ask ≡ ok (u, msgs)
      → Includes (pay (create_transfer_msg ask.info to ask.amount)) msgs
  unfolding save_swap
  save_swap-pays s u env info to id protocol_fee pool fee offer ask msgs e =
      let (pass, e1, r1) =
        >>=-eq-ok (swap_assets env info to fee protocol_fee offer ask false false pool.assets) _
          e in
      let (both, r2) = guard_step (pass.offer_asset_updated && pass.ask_asset_updated) _ _ r1 in
      let (fees, e3, r3) =
        >>=-eq-ok (transfer_swap_fee fee s.config.fee_collector protocol_fee) _ r2 in
      let paid =
        swap_assets-pays env info to fee protocol_fee offer ask false false pool.assets pass refl e1
          (snd-&& pass.offer_asset_updated pass.ask_asset_updated both) in
      rw (sym (ap (λ r. r.1) (ok-injective r3))) (Includes-left _ pass.msgs _ paid)

module _ ⦃t : Text⦄ ⦃d : Decimal⦄ ⦃p : Pools⦄ where
  -- A swap that succeeds with a least amount set by the user has among its messages a payment of at
  -- least that amount of the asset asked for, to the user's recipient.
  pub swap_pays_min_receive :
      (s : Storage) (env : Env) (info : MessageInfo) (request : SingleSwapRequest)
      (recipient : Option Addr) (min_receive : ℕ) (max_spend : Option ℕ) (u : Storage)
      (msgs : List Msg)
      → execute s env info (swap request recipient (some min_receive) max_spend) ≡ ok (u, msgs)
      → (to : Addr) × (amount : ℕ) × (swap_recipient env info recipient ≡ ok to)
        × (min_receive ≤ amount)
        × Includes (pay (create_transfer_msg request.asset_out to amount)) msgs
  unfolding execute execute_swap
  swap_pays_min_receive s env info request recipient min_receive max_spend u msgs e =
      let id = request.pool_id in
      let x = request.asset_in in
      let y = request.asset_out in
      let (to, e1, r1) = >>=-eq-ok (swap_recipient env info recipient) _ e in
      let (u2, e2, r2) = >>=-eq-ok (check_swap_request request) _ r1 in
      let (pool, e3, r3) = >>=-eq-ok (or_err (lookup id s.active_pools) invalid_pool_id) _ r2 in
      let (kind, e4, r4) =
        >>=-eq-ok (or_err (lookup pool.pool_type s.registry) (std not_found)) _ r3 in
      let (u5, e5, r5) = >>=-eq-ok (check_swap_open s.config kind pool) _ r4 in
      let (answer, e6, r6) =
        >>=-eq-ok (lift (p.on_swap pool.pool_addr request.swap_type x y request.amount)) _ r5 in
      let (u7, e7, r7) = >>=-eq-ok (check_swap answer) _ r6 in
      let offer : Asset = record { info = x; amount = answer.amount_in } in
      let ask : Asset = record { info = y; amount = answer.amount_out } in
      let (fee, e8, r8) = >>=-eq-ok (swap_fee s.config pool.fee_info answer.fee) _ r7 in
      let (u9, e9, r9) = >>=-eq-ok (check_max_spend max_spend offer.amount) _ r8 in
      let (u10, e10, r10) = >>=-eq-ok (check_min_receive (some min_receive) ask.amount) _ r9 in
      (
        to,
        answer.amount_out,
        e1,
        accepted min_receive ask.amount u10 e10,
        save_swap-pays s u env info to id fee pool answer.fee offer ask msgs r10,
      )
