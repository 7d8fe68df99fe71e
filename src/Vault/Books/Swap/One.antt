-- ===== src/Vault/Books/Swap/One.antt =====
-- The books over one asset of the loop of `execute_swap`, contracts/vault/src/contract.rs.
use dexter_core.Prelude.{
  ℕ, ◌+◌, ◌≤◌, ◌≡◌, true, some, List, arith, if◌then◌else◌, ok, ap, sym, ◌∙◌, nat_eq, >>=-eq-ok,
  or_err,
}
use dexter_core.Chain.{Addr, Env, MessageInfo, overflow}
use dexter_core.Chain.Words.{add_u128, checked_sub}
use dexter_core.Chain.Text.{Text}
use dexter_core.Asset.{AssetInfo, asset_beq, asset_beq_iff, Asset}
use dexter_core.Vault.State.{pool_type_eq, Msg, std}
use dexter_core.Vault.Swap.{
  less_fee, take_offer, swap_in, swap_out, offer_step, ask_step, swap_asset, matches_offer,
}
use dexter_core.Vault.Books.{
  outflow, inflow, outflow-append, inflow-append, attached, taken-transfer, is_lower,
}

module _ (a : AssetInfo) (vault : Addr) (fee : Asset) (protocol_fee : ℕ) where
  -- The protocol fee, if it is charged in the asset.
  abbrev pub due : AssetInfo → ℕ
  due b = if asset_beq fee.info b then protocol_fee else 0

  less_fee-sum :
      (b : AssetInfo) (amount rest : ℕ)
      → less_fee (some fee) b protocol_fee amount ≡ ok rest
      → rest + due b ≡ amount
  unfolding checked_sub
  less_fee-sum b amount rest e = ground arith

  swap_out-flow :
      (recipient : Addr) (ask stored asset : Asset) (msgs : List Msg)
      → stored.info ≡ ask.info
      → swap_out recipient (some fee) protocol_fee ask stored ≡ ok (asset, msgs)
      → (asset.info ≡ stored.info)
        × ((if asset_beq stored.info a then asset.amount + due ask.info else 0) + outflow a msgs
            ≡ (if asset_beq stored.info a then stored.amount else 0))
  unfolding swap_out outflow checked_sub
  swap_out-flow recipient ask stored asset msgs same e =
      let (x, e1, r1) =
        >>=-eq-ok (or_err (checked_sub stored.amount ask.amount) (std overflow)) _ e in
      let (y, e2, r2) = >>=-eq-ok (less_fee (some fee) ask.info protocol_fee x) _ r1 in
      let sum = less_fee-sum ask.info x y e2 in
      ground (
        arith,
        e1,
        sum,
        r2,
        taken-transfer a ask.info recipient ask.amount,
        ap (λ i. asset_beq i a) same,
      )

  ask_step-flow :
      (recipient : Addr) (ask stored asset : Asset) (msgs : List Msg)
      → ask_step recipient (some fee) protocol_fee ask stored ≡ ok (asset, msgs)
      → (asset.info ≡ stored.info)
        × ((if asset_beq stored.info a
                then asset.amount + (if asset_beq stored.info ask.info then due ask.info else 0)
                else 0)
              + outflow a msgs
            ≡ (if asset_beq stored.info a then stored.amount else 0))
  unfolding ask_step outflow
  ask_step-flow recipient ask stored asset msgs e =
      ground
        (arith, asset_beq_iff stored.info ask.info, swap_out-flow recipient ask stored asset msgs)

  module _ ⦃t : Text⦄ (env : Env) (info : MessageInfo) where
    take_offer-flow :
        (offer : Asset) (msgs : List Msg)
        → env.contract_address ≡ vault
        → is_lower offer.info ≡ true
        → take_offer env info offer offer.info ≡ ok msgs
        → (if asset_beq offer.info a then offer.amount else 0) + outflow a msgs
          ≤ inflow vault a msgs + (if asset_beq offer.info a then attached a info else 0)
    unfolding take_offer outflow inflow checked_sub
    take_offer-flow offer msgs here low e = ground (arith, asset_beq_iff offer.info a)

    swap_in-flow :
        (offer stored asset : Asset) (msgs : List Msg)
        → env.contract_address ≡ vault
        → is_lower stored.info ≡ true
        → stored.info ≡ offer.info
        → swap_in env info (some fee) protocol_fee offer stored ≡ ok (asset, msgs)
        → (asset.info ≡ stored.info)
          × ((if asset_beq stored.info a then asset.amount + due offer.info else 0) + outflow a msgs
              ≤ (if asset_beq stored.info a then stored.amount + attached a info else 0)
                + inflow vault a msgs)
    unfolding swap_in add_u128
    swap_in-flow offer stored asset msgs here low same e =
        let (x, e1, r1) =
          >>=-eq-ok (or_err (add_u128 stored.amount offer.amount) (std overflow)) _ e in
        let (y, e2, r2) = >>=-eq-ok (less_fee (some fee) offer.info protocol_fee x) _ r1 in
        let (moves, e3, r3) = >>=-eq-ok (take_offer env info offer stored.info) _ r2 in
        let sum = less_fee-sum offer.info x y e2 in
        let flow =
          take_offer-flow offer moves here (ap is_lower (sym same) ∙ low)
            (ap (take_offer env info offer) (sym same) ∙ e3) in
        ground (arith, e1, sum, r3, flow, ap (λ i. asset_beq i a) same)

    offer_step-flow :
        (offer stored asset : Asset) (msgs : List Msg)
        → env.contract_address ≡ vault
        → is_lower stored.info ≡ true
        → (matches_offer offer stored ≡ true → stored.info ≡ offer.info)
        → offer_step env info (some fee) protocol_fee offer stored ≡ ok (asset, msgs)
        → (asset.info ≡ stored.info)
          × ((if asset_beq stored.info a
                  then asset.amount + (if matches_offer offer stored then due offer.info else 0)
                  else 0)
                + outflow a msgs
              ≤ (if asset_beq stored.info a then stored.amount + attached a info else 0)
                + inflow vault a msgs)
    unfolding offer_step outflow inflow
    offer_step-flow offer stored asset msgs here low alias e =
        ground (arith, alias, swap_in-flow offer stored asset msgs here low)

    -- What is charged on one asset of the pool.
    abbrev pub charge : (offer ask stored : Asset) → ℕ
    charge offer ask stored =
        (if asset_beq stored.info a
          then (if matches_offer offer stored then due offer.info else 0)
            + (if asset_beq stored.info ask.info then due ask.info else 0)
          else 0)

    pub swap_asset-flow :
        (recipient : Addr) (offer ask stored asset : Asset) (msgs : List Msg)
        → env.contract_address ≡ vault
        → is_lower stored.info ≡ true
        → (matches_offer offer stored ≡ true → stored.info ≡ offer.info)
        → swap_asset env info recipient (some fee) protocol_fee offer ask stored ≡ ok (asset, msgs)
        → (asset.info ≡ stored.info)
          × ((if asset_beq stored.info a then asset.amount else 0)
                + charge offer ask stored
                + outflow a msgs
              ≤ (if asset_beq stored.info a then stored.amount + attached a info else 0)
                + inflow vault a msgs)
    unfolding swap_asset
    swap_asset-flow recipient offer ask stored asset msgs here low alias e =
        let ((middle, moves), e1, r1) =
          >>=-eq-ok (offer_step env info (some fee) protocol_fee offer stored) _ e in
        let ((last, outs), e2, r2) =
          >>=-eq-ok (ask_step recipient (some fee) protocol_fee ask middle) _ r1 in
        let (same, flow) = offer_step-flow offer stored middle moves here low alias e1 in
        let (same', flow') = ask_step-flow recipient ask middle last outs e2 in
        ground (
          arith,
          r2,
          flow,
          flow',
          same,
          same',
          ap (λ i. asset_beq i a) same,
          ap (λ i. asset_beq i ask.info) same,
          outflow-append a moves outs,
          inflow-append vault a moves outs,
        )
