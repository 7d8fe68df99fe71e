-- ===== src/Superfluid/Spending.antt =====
-- What the assets of a join are paid from: the coins sent, and the sender's locks.
use dexter_core.Prelude.{
  ℕ, ◌+◌, ◌-◌, ◌≤◌, ◌≡◌, refl, ◌⊎◌, inl, inr, ◌==◌, ltb, Bool, true, false, ◌||◌, List, [], ◌∷◌,
  ◌++◌, arith, ok, if◌then◌else◌, unwrap_or, nat_eq, ==_iff, pair_eq, All, Bool-cases, >>=-eq-ok,
}
use dexter_core.Prelude.Dict.{
  Dict, lookup, insert, erase, sum, sum-insert, lookup-insert, lookup-erase,
}
use dexter_core.Chain.{Addr, Name, Coin, Env, MessageInfo}
use dexter_core.Chain.Words.{add_u128, checked_sub}
use dexter_core.Chain.Payment.{sent}
use dexter_core.Asset.{AssetInfo, token, native_token, asset_beq, asset_beq_iff, Asset}
use dexter_core.Superfluid.{Spent, unlock, spend_native, spend, spend_all, with_coin, locked_of}

abbrev pub lock_weight : Name → Addr × Name → ℕ → ℕ
lock_weight x (user, name) amount = if name == x then amount else 0

abbrev pub coin_weight : Name → Name → ℕ → ℕ
coin_weight x denom amount = if denom == x then amount else 0

-- What all users have locked of a denom.
unfoldable pub held : Name → Dict (Addr × Name) ℕ → ℕ
held x locks = sum (lock_weight x) locks

unfoldable pub spare : Name → Dict Name ℕ → ℕ
spare x unspent = sum (coin_weight x) unspent

pub held-insert :
    (x : Name) (user : Addr) (name : Name) (amount : ℕ) (locks : Dict (Addr × Name) ℕ)
    → held x (insert (user, name) amount locks)
        + (if name == x then locked_of locks user name else 0)
      ≡ held x locks + (if name == x then amount else 0)
unfolding held
held-insert x user name amount locks =
    ground (arith, sum-insert (lock_weight x) (user, name) amount locks)

spare-erase :
    (x k : Name) (d : Dict Name ℕ) → spare x (erase k d) ≡ (if k == x then 0 else spare x d)
unfolding spare sum erase
spare-erase x k [] = ground arith
spare-erase x k ((j, v) ∷ d) = ground (arith, spare-erase x k d)

pub spare-insert :
    (x k : Name) (v : ℕ) (d : Dict Name ℕ)
    → spare x (insert k v d) + (if k == x then unwrap_or (lookup k d) 0 else 0)
      ≡ spare x d + (if k == x then v else 0)
unfolding spare
spare-insert x k v d = ground (arith, sum-insert (coin_weight x) k v d)

pub sent-append : (x : Name) (a b : List Coin) → sent x (a ++ b) ≡ sent x a + sent x b
sent-append x [] b = omega arith
sent-append x (coin ∷ a) b = omega (arith, sent-append x a b)

-- The denom stands among the assets.
abbrev pub mentions : Name → List Asset → Bool
mentions x [] = false
mentions x (asset ∷ assets) = asset_beq asset.info (native_token x) || mentions x assets

abbrev pub IsDistinct : List Asset → Type 0
IsDistinct [] = Unit
IsDistinct (asset ∷ assets) =
    All (λ other. asset_beq asset.info other.info ≡ false) assets × IsDistinct assets

-- Locks, unspent coins and coins to be sent.
abbrev total : Name → Spent → ℕ
total x y = held x y.locks + spare x y.unspent + sent x y.coins

-- Nothing of the denom has been spent so far: it stands as it was sent.
abbrev IsWhole : Name → Dict Name ℕ → Dict Name ℕ → Type 0
IsWhole x funds unspent =
    (spare x unspent ≡ unwrap_or (lookup x funds) 0)
    × (unwrap_or (lookup x unspent) 0 ≡ unwrap_or (lookup x funds) 0)

module _ (env : Env) (info : MessageInfo) (vault : Addr) (funds : Dict Name ℕ) (x : Name) where
  unlock-total :
      (denom : Name) (was_sent amount : ℕ) (y z : Spent)
      → (denom == x) ≡ false ⊎ (spare x y.unspent ≡ was_sent)
      → was_sent ≤ amount
      → unlock info.sender denom was_sent amount y ≡ ok z
      → (total x z + (if denom == x then amount else 0) ≡ total x y) × (z.coins ≡ y.coins)
  unfolding unlock add_u128 checked_sub
  unlock-total denom was_sent amount y z fresh le e = ground (
    arith,
    fresh,
    spare-erase x denom y.unspent,
    held-insert x info.sender denom (locked_of y.locks info.sender denom - (amount - was_sent))
        y.locks,
  )

  spend_native-total :
      (denom : Name) (amount : ℕ) (y z : Spent)
      → (denom == x) ≡ false ⊎ IsWhole x funds y.unspent
      → spend_native info.sender funds denom amount y ≡ ok z
      → total x z ≡ total x y
  unfolding spend_native checked_sub
  spend_native-total denom amount y z fresh e =
      let was_sent = unwrap_or (lookup denom funds) 0 in
      let coin = sent-append x y.coins (record { denom = denom; amount = amount } ∷ []) in
      let fresh' : (denom == x) ≡ false ⊎ (spare x y.unspent ≡ was_sent) =
        ground (arith, fresh, ==_iff denom x) in
      elim (Bool-cases (was_sent == amount)) [
        | inl same ↦ ground (arith, fresh', coin, spare-erase x denom y.unspent)
        | inr other ↦ elim (Bool-cases (ltb amount was_sent)) [
          | inl more ↦ ground (
            arith,
            fresh,
            coin,
            ==_iff denom x,
            spare-insert x denom (was_sent - amount) y.unspent,
          )
          | inr less ↦
              let (y', e1, e2) =
                >>=-eq-ok (unlock info.sender denom was_sent amount y)
                  (λ y'. ok (with_coin denom amount y')) (rw (other, less) at e) in
              let (sum, kept) = unlock-total denom was_sent amount y y' fresh' (ground arith) e1 in
              ground (arith, e2, sum, kept, coin)
        ]
      ]

  -- What was sent of the other denoms stays as it is.
  spend_native-IsWhole :
      (denom : Name) (amount : ℕ) (y z : Spent)
      → (denom == x) ≡ false
      → IsWhole x funds y.unspent
      → spend_native info.sender funds denom amount y ≡ ok z
      → IsWhole x funds z.unspent
  unfolding spend_native unlock add_u128 checked_sub
  spend_native-IsWhole denom amount y z other whole e =
      let was_sent = unwrap_or (lookup denom funds) 0 in
      ground (
        arith,
        whole,
        spare-erase x denom y.unspent,
        spare-insert x denom (was_sent - amount) y.unspent,
        lookup-erase denom x y.unspent,
        lookup-insert denom x (was_sent - amount) y.unspent,
      )

  spend-total :
      (a : AssetInfo) (amount : ℕ) (y z : Spent)
      → asset_beq a (native_token x) ≡ false ⊎ IsWhole x funds y.unspent
      → spend env info vault funds a amount y ≡ ok z
      → total x z ≡ total x y
  unfolding spend
  spend-total (native_token denom) amount y z fresh e = spend_native-total denom amount y z fresh e
  spend-total (token contract_addr) amount y z fresh e = ground arith

  spend-IsWhole :
      (a : AssetInfo) (amount : ℕ) (y z : Spent)
      → asset_beq a (native_token x) ≡ false
      → IsWhole x funds y.unspent
      → spend env info vault funds a amount y ≡ ok z
      → IsWhole x funds z.unspent
  unfolding spend
  spend-IsWhole (native_token denom) amount y z other whole e =
      spend_native-IsWhole denom amount y z other whole e
  spend-IsWhole (token contract_addr) amount y z other whole e = ground (arith, whole)

  not-mentions :
      (a : AssetInfo) (assets : List Asset)
      → asset_beq a (native_token x) ≡ true
      → All (λ other. asset_beq a other.info ≡ false) assets
      → mentions x assets ≡ false
  not-mentions a [] same h = refl
  not-mentions a (b ∷ assets) same (h, rest) = ground (
    arith,
    asset_beq_iff a (native_token x),
    asset_beq_iff b.info (native_token x),
    asset_beq_iff a b.info,
    not-mentions a assets same rest,
  )

  -- Each asset is paid from what was sent of it and from the sender's lock of it, and from nothing else.
  pub spend_all-total :
      (assets : List Asset) (y z : Spent)
      → IsDistinct assets
      → mentions x assets ≡ false ⊎ IsWhole x funds y.unspent
      → spend_all env info vault funds assets y ≡ ok z
      → total x z ≡ total x y
  unfolding spend_all
  spend_all-total [] y z distinct fresh e = ground arith
  spend_all-total (a ∷ assets) y z (apart, distinct) fresh e =
      let (y', e1, e2) = >>=-eq-ok (spend env info vault funds a.info a.amount y) _ e in
      elim (Bool-cases (asset_beq a.info (native_token x))) [
        | inl same ↦
            let whole : IsWhole x funds y.unspent = ground (arith, fresh) in
            let gone = not-mentions a.info assets same apart in
            let once = spend-total a.info a.amount y y' (inr whole) e1 in
            let rest = spend_all-total assets y' z distinct (inl gone) e2 in omega arith
        | inr other ↦
            let fresh' : mentions x assets ≡ false ⊎ IsWhole x funds y'.unspent =
              ground (arith, fresh, spend-IsWhole a.info a.amount y y' other, e1) in
            let once = spend-total a.info a.amount y y' (inl other) e1 in
            let rest = spend_all-total assets y' z distinct fresh' e2 in omega arith
      ]
