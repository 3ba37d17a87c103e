-- ===== src/Prelude/Members.antt =====
-- Membership of a list, as a sum that can be taken apart.
use Prim.Native.Nat.{ℕ, zero, suc, ◌<◌}
use mathlib.Core.Path.{◌≡◌, refl, sym}
use native.Mathlib.Omega.{arith}
use ddzproject.Prelude.Lists.{length, get_or}
use mathlib.Core.Logic.{◌⊎◌, inl, inr}
use mathlib.Core.List.{List, [], ◌∷◌, ◌++◌}

module _ {A : Type 0} where
  abbrev pub Has : A → List A → Type 0
  Has a [] = ⊥
  Has a (x ∷ xs) = (a ≡ x) ⊎ Has a xs

  pub Has-left : (xs ys : List A) (a : A) → Has a xs → Has a (xs ++ ys)
  Has-left [] ys a h = absurd h
  Has-left (x ∷ xs) ys a (inl e) = inl e
  Has-left (x ∷ xs) ys a (inr h) = inr (Has-left xs ys a h)

  pub Has-right : (xs ys : List A) (a : A) → Has a ys → Has a (xs ++ ys)
  Has-right [] ys a h = h
  Has-right (x ∷ xs) ys a h = inr (Has-right xs ys a h)

  pub Has-append : (xs ys : List A) (a : A) → Has a (xs ++ ys) → Has a xs ⊎ Has a ys
  Has-append [] ys a h = inr h
  Has-append (x ∷ xs) ys a (inl e) = inl (inl e)
  Has-append (x ∷ xs) ys a (inr h) = elim (Has-append xs ys a h) [
    | inl l ↦ inl (inr l)
    | inr r ↦ inr r
  ]

  pub Has-get_or : (xs : List A) (i : ℕ) (d : A) → i < length xs → Has (get_or xs i d) xs
  Has-get_or [] i d h = absurd (omega arith)
  Has-get_or (x ∷ xs) zero d h = inl refl
  Has-get_or (x ∷ xs) (suc i) d h = inr (Has-get_or xs i d (omega arith))

  -- A member stands at some index.
  pub index_of :
      (xs : List A) (a d : A) → Has a xs → (i : ℕ) × ((i < length xs) × (get_or xs i d ≡ a))
  index_of [] a d h = absurd h
  index_of (x ∷ xs) a d (inl e) = (0, (omega arith, sym e))
  index_of (x ∷ xs) a d (inr h) = let (i, (lt, e)) = index_of xs a d h in (suc i, (omega arith, e))
