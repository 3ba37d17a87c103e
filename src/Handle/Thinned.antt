-- ===== src/Handle/Thinned.antt =====
-- The order of the names that are left when `skynet_handle_retire` removes those of a handle.
use ddzproject.Prelude.{
  ℕ, zero, suc, ◌<◌, ◌≡◌, refl, sym, ap₂, subst, ◌∙◌, List, [], ◌∷◌, arith, length,
}
use native.Mathlib.Decide.{ℕ_discrete}
use ddzproject.Handle.{HandleName, strcmp, remove_names}
use ddzproject.Handle.Retire.{remove_names-drops, remove_names-skips}
use ddzproject.Handle.Names.{name_at, IsSorted}

-- The entries of `out` stand in `ns`, in the same order.
record Thinned (ns out : List HandleName) : Type 0 where
  at : ℕ → ℕ
  inside : (j : ℕ) → j < length out → at j < length ns
  rising : (i j : ℕ) → i < j → j < length out → at i < at j
  same : (j : ℕ) → j < length out → name_at ns (at j) ≡ name_at out j

Thinned-skip : (m : HandleName) (ns out : List HandleName) → Thinned ns out → Thinned (m ∷ ns) out
Thinned-skip m ns out r = record {
  at = λ j. suc (r.at j);
  inside = λ j lt. omega (arith, r.inside j lt);
  rising = λ i j lt end. omega (arith, r.rising i j lt end);
  same = r.same;
}

module _ (m : HandleName) (ns out : List HandleName) (r : Thinned ns out) where
  unfoldable shifted : ℕ → ℕ
  shifted zero = 0
  shifted (suc j) = suc (r.at j)

  shifted-inside : (j : ℕ) → j < length (m ∷ out) → shifted j < length (m ∷ ns)
  unfolding shifted
  shifted-inside zero lt = omega arith
  shifted-inside (suc j) lt = omega (arith, r.inside j (omega arith))

  shifted-rising : (i j : ℕ) → i < j → j < length (m ∷ out) → shifted i < shifted j
  unfolding shifted
  shifted-rising i zero lt end = absurd (omega arith)
  shifted-rising zero (suc j) lt end = omega arith
  shifted-rising (suc i) (suc j) lt end = omega (arith, r.rising i j (omega arith) (omega arith))

  shifted-same : (j : ℕ) → j < length (m ∷ out) → name_at (m ∷ ns) (shifted j) ≡ name_at (m ∷ out) j
  unfolding shifted
  shifted-same zero lt = refl
  shifted-same (suc j) lt = r.same j (omega arith)

  Thinned-keep : Thinned (m ∷ ns) (m ∷ out)
  Thinned-keep = record {
    at = shifted;
    inside = shifted-inside;
    rising = shifted-rising;
    same = shifted-same;
  }

remove_names-Thinned : (h : ℕ) (ns : List HandleName) → Thinned ns (remove_names h ns)
unfolding remove_names
remove_names-Thinned h [] = record {
  at = λ j. j;
  inside = λ j lt. lt;
  rising = λ i j lt end. lt;
  same = λ j lt. refl;
}
remove_names-Thinned h (m ∷ ns) =
    let r = remove_names-Thinned h ns in
    elim (ℕ_discrete m.handle h) [
      | yes e ↦
          subst (λ xs. Thinned (m ∷ ns) xs) (sym (remove_names-drops h m ns e))
            (Thinned-skip m ns (remove_names h ns) r)
      | no ne ↦
          subst (λ xs. Thinned (m ∷ ns) xs) (sym (remove_names-skips h m ns ne))
            (Thinned-keep m ns (remove_names h ns) r)
    ]

Thinned-IsSorted : (ns out : List HandleName) → Thinned ns out → IsSorted ns → IsSorted out
Thinned-IsSorted ns out r sorted = record {
  ordered = λ i j lt end.
      ap₂ strcmp (sym (r.same i (omega arith))) (sym (r.same j end))
      ∙ sorted.ordered (r.at i) (r.at j) (r.rising i j lt end) (r.inside j end);
}

pub remove_names-IsSorted :
    (h : ℕ) (ns : List HandleName) → IsSorted ns → IsSorted (remove_names h ns)
remove_names-IsSorted h ns sorted =
    Thinned-IsSorted ns (remove_names h ns) (remove_names-Thinned h ns) sorted
