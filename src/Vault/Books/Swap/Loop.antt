-- ===== src/Vault/Books/Swap/Loop.antt =====
-- The books over the loop of `execute_swap`, contracts/vault/src/contract.rs.
use dexter_core.Prelude.{
  ℕ, ◌+◌, ◌≤◌, ◌≡◌, refl, Bool, true, false, ◌&&◌, ◌||◌, not, some, List, [], ◌∷◌, ◌++◌, All, arith,
  if◌then◌else◌, ok, ap, sym, ◌∙◌, Result, ◌⊎◌, inl, inr, nat_eq, >>=-eq-ok, ok-injective,
}
use dexter_core.Chain.{Addr, Env, MessageInfo}
use dexter_core.Chain.Text.{Text}
use dexter_core.Asset.{AssetInfo, asset_beq, asset_beq_iff, Asset}
use dexter_core.Vault.State.{pool_type_eq, Msg, ContractError}
use dexter_core.Vault.Swap.{Pass, swap_asset, stop_or_go, swap_assets, matches_offer}
use dexter_core.Vault.Books.{
  balance, outflow, inflow, stands_in, attached, IsCanonical, books-cons, stands_in-apart,
}
use dexter_core.Vault.Books.Swap.One.{due, charge, swap_asset-flow}

append-nil : (msgs : List Msg) → msgs ≡ msgs ++ []
append-nil [] = refl
append-nil (msg ∷ msgs) = ap (λ rest. msg ∷ rest) (append-nil msgs)

-- How the loop goes on: with the pass over the other assets, or with those as they are.
pub stop_or_go-cases :
    (both : Bool) (asset : Asset) (msgs : List Msg) (rest : List Asset)
    (next : Result ContractError Pass) (pass : Pass)
    → stop_or_go both asset msgs rest next ≡ ok pass
    → (more : Pass) × (pass
        ≡ record more { assets = asset ∷ more.assets; msgs = msgs ++ more.msgs })
      × ((next ≡ ok more)
          ⊎ ((both ≡ true)
              × (more ≡ record {
                assets = rest;
                msgs = [];
                offer_asset_updated = true;
                ask_asset_updated = true;
              })))
unfolding stop_or_go
stop_or_go-cases true asset msgs rest next pass e = (
  record { assets = rest; msgs = []; offer_asset_updated = true; ask_asset_updated = true },
  sym (ok-injective e)
      ∙ ap
          (λ ms. record {
            assets = asset ∷ rest;
            msgs = ms;
            offer_asset_updated = true;
            ask_asset_updated = true;
          })
          (append-nil msgs),
  inr (refl, refl),
)
stop_or_go-cases false asset msgs rest next pass e =
    let (more, e1, r1) = >>=-eq-ok next _ e in (more, sym (ok-injective r1), inl e1)

module _ (a : AssetInfo) (vault : Addr) (fee : Asset) (protocol_fee : ℕ) where
  module _ ⦃t : Text⦄ (env : Env) (info : MessageInfo) where
    -- What the loop has charged when the flags change from `o` and `k` to those given.
    abbrev pub charged : (offer ask : Asset) (o k o' k' : Bool) → ℕ
    charged offer ask o k o' k' =
        (if asset_beq offer.info a && (not o && o')
          then due a vault fee protocol_fee offer.info
          else 0)
        + (if asset_beq ask.info a && (not k && k')
            then due a vault fee protocol_fee ask.info
            else 0)

    charged-step :
        (offer ask stored : Asset) (o k o' k' : Bool)
        → (matches_offer offer stored ≡ true → stored.info ≡ offer.info)
        → charged offer ask o k o' k'
          ≤ charge a vault fee protocol_fee env info offer ask stored
            + charged offer ask
                (o || matches_offer offer stored)
                (k || asset_beq stored.info ask.info)
                o'
                k'
    charged-step offer ask stored o k o' k' alias =
        let in' : (matches_offer offer stored ≡ true
            → asset_beq stored.info a ≡ asset_beq offer.info a) =
          λ h. ap (λ i. asset_beq i a) (alias h) in
        let out' : (asset_beq stored.info ask.info ≡ true
            → asset_beq stored.info a ≡ asset_beq ask.info a) =
          λ h. ap (λ i. asset_beq i a) ((asset_beq_iff stored.info ask.info).0 h) in
        ground (arith, in', out')

    stopped-flow :
        (offer ask : Asset) (o k : Bool) (stored : List Asset) (more : Pass)
        → (o && k) ≡ true
        → more ≡ record {
          assets = stored;
          msgs = [];
          offer_asset_updated = true;
          ask_asset_updated = true;
        }
        → balance a more.assets
            + charged offer ask o k more.offer_asset_updated more.ask_asset_updated
            + outflow a more.msgs
          ≤ balance a stored
            + inflow vault a more.msgs
            + (if stands_in a stored then attached a info else 0)
    unfolding outflow
    stopped-flow offer ask o k stored more both rest = ground (
      arith,
      both,
      ap (λ p. balance a p.assets) rest,
      ap (λ p. outflow a p.msgs) rest,
      ap (λ p. p.offer_asset_updated) rest,
      ap (λ p. p.ask_asset_updated) rest,
    )

    pub swap_assets-flow :
        (recipient : Addr) (offer ask : Asset) (o k : Bool) (stored : List Asset) (pass : Pass)
        → env.contract_address ≡ vault
        → IsCanonical stored
        → All (λ b. matches_offer offer b ≡ true → b.info ≡ offer.info) stored
        → swap_assets env info recipient (some fee) protocol_fee offer ask o k stored ≡ ok pass
        → balance a pass.assets
            + charged offer ask o k pass.offer_asset_updated pass.ask_asset_updated
            + outflow a pass.msgs
          ≤ balance a stored
            + inflow vault a pass.msgs
            + (if stands_in a stored then attached a info else 0)
    unfolding swap_assets balance outflow inflow
    swap_assets-flow recipient offer ask o k [] pass here canonical alias e = ground arith
    swap_assets-flow recipient offer ask o k (b ∷ stored) pass here (low, apart, canonical)
          (alias, others) e =
        let o' = o || matches_offer offer b in
        let k' = k || asset_beq b.info ask.info in
        let ((asset, moves), e1, r1) =
          >>=-eq-ok (swap_asset env info recipient (some fee) protocol_fee offer ask b) _ e in
        let (same, flow) =
          swap_asset-flow a vault fee protocol_fee env info recipient offer ask b asset moves here
            low alias e1 in
        let alone = stands_in-apart b.info stored apart in
        let (more, shape, how) = stop_or_go-cases (o' && k') asset moves stored _ pass r1 in
        let flows : balance a more.assets
              + charged offer ask o' k' more.offer_asset_updated more.ask_asset_updated
              + outflow a more.msgs
            ≤ balance a stored
              + inflow vault a more.msgs
              + (if stands_in a stored then attached a info else 0) =
          elim how [
            | inl e2 ↦
                swap_assets-flow recipient offer ask o' k' stored more here canonical others e2
            | inr (both, rest) ↦ stopped-flow offer ask o' k' stored more both rest
          ] in
        let whole =
          books-cons vault a (attached a info)
            (charge a vault fee protocol_fee env info offer ask b)
            (charged offer ask o' k' more.offer_asset_updated more.ask_asset_updated) b asset stored
            more.assets pass.assets moves more.msgs pass.msgs same alone flow flows
            (ap (λ p. p.assets) shape) (ap (λ p. p.msgs) shape) in
        let step =
          charged-step offer ask b o k more.offer_asset_updated more.ask_asset_updated alias in
        let flags =
          ap (λ p. charged offer ask o k p.offer_asset_updated p.ask_asset_updated) shape in
        omega (arith, whole, step, flags)
