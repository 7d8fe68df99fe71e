-- ===== src/Prelude/Sort.antt =====
-- Rust's stable `sort` (and `sorted` of itertools) as an insertion sort, and equality of lists.
use mathlib.Core.Bool.{Bool, true, false, ◌&&◌}
use mathlib.Core.List.{List, [], ◌∷◌}
use dexter_core.Prelude.Tests.{if◌then◌else◌, Eq}

module _ {ℓ} {A : Type ℓ} (at_most : A → A → Bool) where
  abbrev pub insert_sorted : A → List A → List A
  insert_sorted a [] = a ∷ []
  insert_sorted a (b ∷ bs) = if at_most a b then a ∷ b ∷ bs else b ∷ insert_sorted a bs

  unfoldable pub sort : List A → List A
  sort [] = []
  sort (a ∷ rest) = insert_sorted a (sort rest)

module _ {ℓ} {A : Type ℓ} ⦃e : Eq A⦄ where
  -- `==` of vectors
  abbrev pub list_beq : List A → List A → Bool
  list_beq [] [] = true
  list_beq [] (y ∷ ys) = false
  list_beq (x ∷ xs) [] = false
  list_beq (x ∷ xs) (y ∷ ys) = e.beq x y && list_beq xs ys
