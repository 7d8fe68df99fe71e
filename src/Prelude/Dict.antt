-- ===== src/Prelude/Dict.antt =====
-- The stored maps (`cw_storage_plus::Map`) as association lists: load, save, remove, and the sum of
-- a weight over all entries.
use Prim.Native.Nat.{ℕ, ◌+◌}
use mathlib.Core.Path.{◌≡◌, refl}
use mathlib.Core.Logic.{inl, inr}
use mathlib.Core.Option.{Option, none, some}
use mathlib.Core.List.{List, [], ◌∷◌}
use native.Mathlib.Omega.{arith}
use dexter_core.Prelude.Tests.{if◌then◌else◌, Eq, Bool-cases}

abbrev pub Dict {ℓ κ} : Type ℓ → Type κ → Type (ℓ ⊔ κ)
Dict K V = List (K × V)

module _ {ℓ κ} {K : Type ℓ} {V : Type κ} (weight : K → V → ℕ) where
  unfoldable pub sum : Dict K V → ℕ
  sum [] = 0
  sum ((j, w) ∷ d) = weight j w + sum d

  -- The weight that the entry of `k` adds to the sum.
  abbrev pub weight_at : K → Option V → ℕ
  weight_at k none = 0
  weight_at k (some v) = weight k v

module _ {ℓ κ} {K : Type ℓ} {V : Type κ} ⦃e : Eq K⦄ where
  -- `may_load`
  unfoldable pub lookup : K → Dict K V → Option V
  lookup k [] = none
  lookup k ((j, v) ∷ d) = if e.beq j k then some v else lookup k d

  -- `save`
  unfoldable pub insert : K → V → Dict K V → Dict K V
  insert k v [] = (k, v) ∷ []
  insert k v ((j, w) ∷ d) = if e.beq j k then (j, v) ∷ d else (j, w) ∷ insert k v d

  -- `remove`
  unfoldable pub erase : K → Dict K V → Dict K V
  erase k [] = []
  erase k ((j, w) ∷ d) = if e.beq j k then erase k d else (j, w) ∷ erase k d

  pub lookup-insert :
      (k j : K) (v : V) (d : Dict K V)
      → lookup j (insert k v d) ≡ (if e.beq k j then some v else lookup j d)
  unfolding lookup insert
  lookup-insert k j v [] = refl
  lookup-insert k j v ((i, w) ∷ d) =
      ground (arith, e.beq_iff k j, e.beq_iff i k, e.beq_iff i j, lookup-insert k j v d)

  pub lookup-erase :
      (k j : K) (d : Dict K V) → lookup j (erase k d) ≡ (if e.beq k j then none else lookup j d)
  unfolding lookup erase
  lookup-erase k j [] = ground arith
  lookup-erase k j ((i, w) ∷ d) =
      ground (arith, e.beq_iff k j, e.beq_iff i k, e.beq_iff i j, lookup-erase k j d)

  module _ (weight : K → V → ℕ) where
    pub sum-insert :
        (k : K) (v : V) (d : Dict K V)
        → sum weight (insert k v d) + weight_at weight k (lookup k d) ≡ sum weight d + weight k v
    unfolding sum insert lookup
    sum-insert k v [] = omega arith
    sum-insert k v ((j, w) ∷ d) = elim (Bool-cases (e.beq j k)) [
      | inl same ↦ rw (same, (e.beq_iff j k).0 same) (ground arith)
      | inr other ↦ rw other (omega (arith, sum-insert k v d))
    ]
