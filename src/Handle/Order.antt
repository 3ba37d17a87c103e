-- ===== src/Handle/Order.antt =====
-- The order that `strcmp` puts on the names.
use ddzproject.Prelude.{
  ℕ, ◌<◌, ◌≡◌, ◌≢◌, ◌⊎◌, refl, sym, ap, ap₂, ◌∙◌, inl, inr, List, [], ◌∷◌, arith, lt→ltb, le→ltb,
}
use Prim.Native.Nat.{Ordering}
use ddzproject.Handle.{strcmp}

module _ (x y : ℕ) (xs ys : List ℕ) where
  strcmp-lt : x < y → strcmp (x ∷ xs) (y ∷ ys) ≡ Ordering.lt
  unfolding strcmp
  strcmp-lt h = rw (lt→ltb x y h) refl

  strcmp-gt : y < x → strcmp (x ∷ xs) (y ∷ ys) ≡ Ordering.gt
  unfolding strcmp
  strcmp-gt h = rw (le→ltb x y (omega arith), lt→ltb y x h) refl

  strcmp-step : x ≡ y → strcmp (x ∷ xs) (y ∷ ys) ≡ strcmp xs ys
  unfolding strcmp
  strcmp-step h = rw (le→ltb x y (omega arith), le→ltb y x (omega arith)) refl

-- How the first bytes of two names compare.
abbrev Trichotomy : ℕ → ℕ → Type 0
Trichotomy x y = (x < y) ⊎ ((x ≡ y) ⊎ (y < x))

trichotomy : (x y : ℕ) → Trichotomy x y
trichotomy x y = ground arith

lt-gt : ¬ (Ordering.lt ≡ Ordering.gt)
lt-gt e = cc

lt-eq : ¬ (Ordering.lt ≡ Ordering.eq)
lt-eq e = cc

gt-eq : ¬ (Ordering.gt ≡ Ordering.eq)
gt-eq e = cc

pub strcmp_self : (xs : List ℕ) → strcmp xs xs ≡ Ordering.eq
unfolding strcmp
strcmp_self [] = refl
strcmp_self (x ∷ xs) = strcmp-step x x xs xs refl ∙ strcmp_self xs

pub strcmp-eq : (xs ys : List ℕ) → strcmp xs ys ≡ Ordering.eq → xs ≡ ys
unfolding strcmp
strcmp-eq [] [] e = refl
strcmp-eq [] (y ∷ ys) e = absurd (lt-eq e)
strcmp-eq (x ∷ xs) [] e = absurd (gt-eq e)
strcmp-eq (x ∷ xs) (y ∷ ys) e = elim (trichotomy x y) [
  | inl h ↦ absurd (lt-eq (sym (strcmp-lt x y xs ys h) ∙ e))
  | inr (inl h) ↦ ap₂ (λ z zs. z ∷ zs) h (strcmp-eq xs ys (sym (strcmp-step x y xs ys h) ∙ e))
  | inr (inr h) ↦ absurd (gt-eq (sym (strcmp-gt x y xs ys h) ∙ e))
]

pub strcmp-swap : (xs ys : List ℕ) → strcmp xs ys ≡ Ordering.gt → strcmp ys xs ≡ Ordering.lt
unfolding strcmp
strcmp-swap [] [] e = absurd (gt-eq (sym e))
strcmp-swap [] (y ∷ ys) e = absurd (lt-gt e)
strcmp-swap (x ∷ xs) [] e = refl
strcmp-swap (x ∷ xs) (y ∷ ys) e = elim (trichotomy x y) [
  | inl h ↦ absurd (lt-gt (sym (strcmp-lt x y xs ys h) ∙ e))
  | inr (inl h) ↦
      strcmp-step y x ys xs (sym h) ∙ strcmp-swap xs ys (sym (strcmp-step x y xs ys h) ∙ e)
  | inr (inr h) ↦ strcmp-lt y x ys xs h
]

pub strcmp_trans :
    (xs ys zs : List ℕ)
    → strcmp xs ys ≡ Ordering.lt
    → strcmp ys zs ≡ Ordering.lt
    → strcmp xs zs ≡ Ordering.lt
unfolding strcmp
strcmp_trans xs [] [] e f = absurd (lt-eq (sym f))
strcmp_trans [] [] (z ∷ zs) e f = refl
strcmp_trans (x ∷ xs) [] (z ∷ zs) e f = absurd (lt-gt (sym e))
strcmp_trans [] (y ∷ ys) [] e f = absurd (lt-gt (sym f))
strcmp_trans (x ∷ xs) (y ∷ ys) [] e f = absurd (lt-gt (sym f))
strcmp_trans [] (y ∷ ys) (z ∷ zs) e f = refl
strcmp_trans (x ∷ xs) (y ∷ ys) (z ∷ zs) e f = elim (trichotomy x y) [
  | inr (inr h) ↦ absurd (lt-gt (sym e ∙ strcmp-gt x y xs ys h))
  | inl h ↦ elim (trichotomy y z) [
    | inr (inr g) ↦ absurd (lt-gt (sym f ∙ strcmp-gt y z ys zs g))
    | inl g ↦ strcmp-lt x z xs zs (omega arith)
    | inr (inl g) ↦ strcmp-lt x z xs zs (omega arith)
  ]
  | inr (inl h) ↦ elim (trichotomy y z) [
    | inr (inr g) ↦ absurd (lt-gt (sym f ∙ strcmp-gt y z ys zs g))
    | inl g ↦ strcmp-lt x z xs zs (omega arith)
    | inr (inl g) ↦
        strcmp-step x z xs zs (h ∙ g)
        ∙ strcmp_trans xs ys zs (sym (strcmp-step x y xs ys h) ∙ e)
            (sym (strcmp-step y z ys zs g) ∙ f)
  ]
]

-- A name that comes before another one is not that one, and does not come after it.
pub strcmp-irreflexive : (xs ys : List ℕ) → strcmp xs ys ≡ Ordering.lt → xs ≢ ys
strcmp-irreflexive xs ys e f = lt-eq (sym e ∙ ap (λ zs. strcmp zs ys) f ∙ strcmp_self ys)
