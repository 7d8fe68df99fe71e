-- ===== src/Vault/Books.antt =====
-- The vault's books: what the pools hold of an asset, and what the messages take out and bring in.
pub mod Join
pub mod Exit
pub mod Swap
use dexter_core.Prelude.{
  ℕ, ◌+◌, ◌≤◌, ◌≡◌, refl, Bool, true, false, ◌&&◌, ◌||◌, not, Option, none, some, List, [], ◌∷◌,
  ◌++◌, All, arith, ◌==◌, ==_iff, if◌then◌else◌, ok, ap, sym, ◌∙◌, Bool-cases, inl, inr, nat_eq,
}
use dexter_core.Prelude.Dict.{Dict, lookup, insert, sum, sum-insert}
use dexter_core.Chain.{
  Addr, Name, Coin, Env, MessageInfo, CosmosMsg, bank_send, cw20_transfer, cw20_transfer_from,
}
use dexter_core.Chain.Text.{Text}
use dexter_core.Chain.Payment.{sent}
use dexter_core.Asset.{
  AssetInfo, token, native_token, asset_beq, asset_beq_iff, Asset, as_string, first_coin,
  create_transfer_msg,
}
use dexter_core.Vault.State.{
  PoolInfo, Storage, Msg, pay, mint, burn, send_to_bond, update_liquidity, update_fee,
  update_params, instantiate_lp_token, instantiate_pool, ContractError,
}
use dexter_core.Vault.Join.{transfer_fee}

-- What a list of balances says of an asset.
unfoldable pub balance : AssetInfo → List Asset → ℕ
balance a [] = 0
balance a (asset ∷ assets) = (if asset_beq asset.info a then asset.amount else 0) + balance a assets

-- What all pools together hold.
unfoldable pub pooled : AssetInfo → Storage → ℕ
pooled a s = sum (λ id pool. balance a pool.assets) s.active_pools

-- What a message takes out of the vault.
abbrev pub taken : AssetInfo → Msg → ℕ
taken a (pay (bank_send to_address denom amount)) =
    if asset_beq (native_token denom) a then amount else 0
taken a (pay (cw20_transfer contract recipient amount)) =
    if asset_beq (token contract) a then amount else 0
taken a (pay (cw20_transfer_from contract owner recipient amount)) = 0
taken a (mint lp_token recipient amount) = 0
taken a (burn lp_token amount) = if asset_beq (token lp_token) a then amount else 0
taken a (send_to_bond lp_token contract amount beneficiary_user) =
    if asset_beq (token lp_token) a then amount else 0
taken a (update_liquidity pool_addr assets) = 0
taken a (update_fee pool_addr total_fee_bps) = 0
taken a (update_params pool_addr params) = 0
taken a (instantiate_lp_token code_id pool_id minter) = 0
taken a (instantiate_pool admin code_id msg) = 0

-- What a message brings to the vault.
abbrev pub brought : (vault : Addr) → AssetInfo → Msg → ℕ
brought vault a (pay (bank_send to_address denom amount)) = 0
brought vault a (pay (cw20_transfer contract recipient amount)) = 0
brought vault a (pay (cw20_transfer_from contract owner recipient amount)) =
    if asset_beq (token contract) a && recipient == vault then amount else 0
brought vault a (mint lp_token recipient amount) =
    if asset_beq (token lp_token) a && recipient == vault then amount else 0
brought vault a (burn lp_token amount) = 0
brought vault a (send_to_bond lp_token contract amount beneficiary_user) = 0
brought vault a (update_liquidity pool_addr assets) = 0
brought vault a (update_fee pool_addr total_fee_bps) = 0
brought vault a (update_params pool_addr params) = 0
brought vault a (instantiate_lp_token code_id pool_id minter) = 0
brought vault a (instantiate_pool admin code_id msg) = 0

unfoldable pub outflow : AssetInfo → List Msg → ℕ
outflow a [] = 0
outflow a (msg ∷ msgs) = taken a msg + outflow a msgs

unfoldable pub inflow : (vault : Addr) → AssetInfo → List Msg → ℕ
inflow vault a [] = 0
inflow vault a (msg ∷ msgs) = brought vault a msg + inflow vault a msgs

pub outflow-append :
    (a : AssetInfo) (xs ys : List Msg) → outflow a (xs ++ ys) ≡ outflow a xs + outflow a ys
unfolding outflow
outflow-append a [] ys = omega arith
outflow-append a (x ∷ xs) ys = omega (arith, outflow-append a xs ys)

pub inflow-append :
    (vault : Addr) (a : AssetInfo) (xs ys : List Msg)
    → inflow vault a (xs ++ ys) ≡ inflow vault a xs + inflow vault a ys
unfolding inflow
inflow-append vault a [] ys = omega arith
inflow-append vault a (x ∷ xs) ys = omega (arith, inflow-append vault a xs ys)

-- The native tokens that came with the message, by the coin that the contract looks up.
abbrev pub attached : AssetInfo → MessageInfo → ℕ
attached (native_token denom) info = first_coin denom info.funds
attached (token contract_addr) info = 0

-- The asset stands in the list.
abbrev pub stands_in : AssetInfo → List Asset → Bool
stands_in a [] = false
stands_in a (asset ∷ assets) = asset_beq asset.info a || stands_in a assets

-- Nothing of an asset that does not stand in the list.
pub balance-absent :
    (a : AssetInfo) (assets : List Asset) → stands_in a assets ≡ false → balance a assets ≡ 0
unfolding balance
balance-absent a [] h = refl
balance-absent a (asset ∷ assets) h = ground (arith, balance-absent a assets)

pub pooled-insert :
    (a : AssetInfo) (s t : Storage) (id : ℕ) (old new : PoolInfo)
    → lookup id s.active_pools ≡ some old
    → t.active_pools ≡ insert id new s.active_pools
    → pooled a t + balance a old.assets ≡ pooled a s + balance a new.assets
unfolding pooled
pooled-insert a s t id old new h k =
    let whole = sum-insert (λ id pool. balance a pool.assets) id new s.active_pools in
    ground (arith, whole, ap (sum (λ id pool. balance a pool.assets)) k)

-- A pool is saved with other balances.
pub pooled-save :
    (a : AssetInfo) (s t : Storage) (id : ℕ) (pool : PoolInfo) (balances : List Asset)
    (out gain : ℕ)
    → lookup id s.active_pools ≡ some pool
    → t.active_pools ≡ insert id (record pool { assets = balances }) s.active_pools
    → balance a balances + out ≤ balance a pool.assets + gain
    → pooled a t + out ≤ pooled a s + gain
pooled-save a s t id pool balances out gain h k flow =
    omega (arith, pooled-insert a s t id pool (record pool { assets = balances }) h k)

pub taken-transfer :
    (a b : AssetInfo) (recipient : Addr) (amount : ℕ)
    → taken a (pay (create_transfer_msg b recipient amount)) ≡ (if asset_beq b a then amount else 0)
taken-transfer a (native_token denom) recipient amount = refl
taken-transfer a (token contract_addr) recipient amount = refl

pub brought-transfer :
    (vault : Addr) (a b : AssetInfo) (recipient : Addr) (amount : ℕ)
    → brought vault a (pay (create_transfer_msg b recipient amount)) ≡ 0
brought-transfer vault a (native_token denom) recipient amount = refl
brought-transfer vault a (token contract_addr) recipient amount = refl

-- The protocol fee leaves in its asset.
pub transfer_fee-outflow :
    (a b : AssetInfo) (collector : Option Addr) (fee : ℕ) (msgs : List Msg)
    → transfer_fee b collector fee ≡ ok msgs
    → outflow a msgs ≡ (if asset_beq b a then fee else 0)
unfolding outflow
transfer_fee-outflow a b none fee msgs e = ground arith
transfer_fee-outflow a b (some collector) fee msgs e =
    ground (arith, taken-transfer a b collector fee)

-- The books of a list of assets, from those of its first asset and of the others. `here` and `there` are
-- what is charged and leaves later.
pub books-cons :
    (vault : Addr) (a : AssetInfo) (n here there : ℕ) (b asset : Asset)
    (stored rest balances : List Asset) (moves more msgs : List Msg)
    → asset.info ≡ b.info
    → stands_in b.info stored ≡ false
    → (if asset_beq b.info a then asset.amount else 0) + here + outflow a moves
      ≤ (if asset_beq b.info a then b.amount + n else 0) + inflow vault a moves
    → balance a rest + there + outflow a more
      ≤ balance a stored + inflow vault a more + (if stands_in a stored then n else 0)
    → balances ≡ asset ∷ rest
    → msgs ≡ moves ++ more
    → balance a balances + (here + there) + outflow a msgs
      ≤ balance a (b ∷ stored) + inflow vault a msgs + (if stands_in a (b ∷ stored) then n else 0)
unfolding balance
books-cons vault a n here there b asset stored rest balances moves more msgs same alone one others
      k1 k2 =
    let once : (asset_beq b.info a ≡ true → stands_in a stored ≡ false) =
      λ h. ap (λ i. stands_in i stored) (sym ((asset_beq_iff b.info a).0 h)) ∙ alone in
    let kind : asset_beq asset.info a ≡ asset_beq b.info a = ap (λ i. asset_beq i a) same in
    ground (
      arith,
      one,
      others,
      once,
      kind,
      ap (balance a) k1,
      ap (outflow a) k2,
      ap (inflow vault a) k2,
      outflow-append a moves more,
      inflow-append vault a moves more,
    )

module _ ⦃t : Text⦄ where
  -- Cw20 addresses are in lower case.
  abbrev pub is_lower : AssetInfo → Bool
  is_lower (native_token denom) = true
  is_lower (token contract_addr) = t.lower contract_addr == contract_addr

  -- Token addresses in lower case, and no text twice.
  abbrev pub IsCanonical : List Asset → Type 0
  IsCanonical [] = Unit
  IsCanonical (asset ∷ assets) =
      (is_lower asset.info ≡ true)
      × All (λ other. (as_string asset.info == as_string other.info) ≡ false) assets
      × IsCanonical assets

  pub stands_in-apart :
      (a : AssetInfo) (assets : List Asset)
      → All (λ other. (as_string a == as_string other.info) ≡ false) assets
      → stands_in a assets ≡ false
  stands_in-apart a [] h = refl
  stands_in-apart a (b ∷ assets) (h, rest) =
      let same = asset_beq_iff b.info a in
      ground
        (arith, h, stands_in-apart a assets rest, same, ==_iff (as_string a) (as_string b.info))

  apart-text :
      (x y : AssetInfo) (assets : List Asset)
      → All (λ other. (as_string x == as_string other.info) ≡ false) assets
      → stands_in y assets ≡ true
      → (as_string x == as_string y) ≡ false
  apart-text x y [] h k = cc
  apart-text x y (b ∷ assets) (h, rest) k =
      let same : (asset_beq b.info y ≡ true → as_string b.info ≡ as_string y) =
        λ q. ap as_string ((asset_beq_iff b.info y).0 q) in
      ground (arith, h, k, same, apart-text x y assets rest)

  alone-text :
      (x y : AssetInfo) (assets : List Asset)
      → as_string x ≡ as_string y
      → All (λ other. (as_string x == as_string other.info) ≡ false) assets
      → All (λ b. (as_string b.info == as_string y) ≡ true → b.info ≡ y) assets
  alone-text x y [] same h = tt
  alone-text x y (b ∷ assets) same (h, rest) =
      (λ k. ground (arith, h, k, same), alone-text x y assets same rest)

  distinct-text :
      (x y : AssetInfo) (assets : List Asset)
      → All (λ other. (as_string x == as_string other.info) ≡ false) assets
      → stands_in y assets ≡ true
      → (as_string x == as_string y) ≡ true
      → x ≡ y
  distinct-text x y assets apart k h = ground (arith, apart-text x y assets apart k)

  -- An asset of the list is the only one with its text.
  pub canonical-text :
      (x : AssetInfo) (assets : List Asset)
      → IsCanonical assets
      → stands_in x assets ≡ true
      → All (λ b. (as_string b.info == as_string x) ≡ true → b.info ≡ x) assets
  canonical-text x [] canonical k = tt
  canonical-text x (b ∷ assets) (low, apart, canonical) k = elim (Bool-cases (asset_beq b.info x)) [
    | inl same ↦ (
      λ h. (asset_beq_iff b.info x).0 same,
      alone-text b.info x assets (ap as_string ((asset_beq_iff b.info x).0 same)) apart,
    )
    | inr other ↦ (
      λ h. distinct-text b.info x assets apart (ground arith) h,
      canonical-text x assets canonical (ground arith),
    )
  ]
