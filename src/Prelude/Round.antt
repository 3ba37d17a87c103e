-- ===== src/Prelude/Round.antt =====
-- Reading a ring of slots from an index on, going round at its capacity.
use Prim.Native.Nat.{ℕ, zero, suc, ◌+◌, ◌-◌, ◌%◌, ◌≤◌, ◌<◌}
use mathlib.Core.Path.{◌≡◌, refl, sym, ap, ap₂, ◌∙◌}
use mathlib.Core.Logic.{◌≢◌}
use mathlib.Core.List.{List, [], ◌∷◌, ◌++◌}
use mathlib.Core.Option.{Option, none}
use native.Mathlib.Omega.{arith}
use native.Mathlib.Nat.{mod-add-mod, mod-eq_of_lt, mod-eq-sub-mod}
use native.Mathlib.Decide.{dec_lt}
use ddzproject.Prelude.Lists.{
  length, get_or, set, take, drop, replicate, length-append, get_or-set_self, get_or-set_ne,
  take-append_self,
}

-- Fewer than `cap` steps round the ring do not come back to the start.
add-mod-ne : (cap h k : ℕ) → h < cap → 0 < k → k < cap → (h + k) % cap ≢ h
add-mod-ne cap h k hh pos hk = elim (dec_lt (h + k) cap) [
  | yes p ↦ omega (arith, mod-eq_of_lt p)
  | no p ↦ omega (
    arith,
    mod-eq-sub-mod {n = h + k} {m = cap} (omega arith),
    mod-eq_of_lt {n = h + k - cap} {m = cap} (omega arith),
  )
]

add-mod-injective : (cap h k n : ℕ) → h < cap → k < n → n < cap → (h + n) % cap ≢ (h + k) % cap
add-mod-injective cap h k n hh lt hn e =
    add-mod-ne cap ((h + k) % cap) (n - k) (omega arith) (omega arith) (omega arith)
      (rw mod-add-mod (ap (λ j. j % cap) {x = h + k + (n - k)} {y = h + n} (omega arith)) ∙ e)

module _ {ℓ} {A : Type ℓ} where
  -- The slots copied from index `h` on, going round at `cap`, `n` of them.
  unfoldable pub copy_round : List (Option A) → ℕ → ℕ → ℕ → List (Option A)
  copy_round buf cap h zero = []
  copy_round buf cap h (suc n) = get_or buf (h % cap) none ∷ copy_round buf cap (h + 1) n

  pub length-copy_round :
      (buf : List (Option A)) (cap h n : ℕ) → length (copy_round buf cap h n) ≡ n
  unfolding copy_round
  length-copy_round buf cap h zero = refl
  length-copy_round buf cap h (suc n) = ap suc (length-copy_round buf cap (h + 1) n)

  pub copy_round-mod :
      (buf : List (Option A)) (cap h g n : ℕ)
      → h % cap ≡ g % cap
      → copy_round buf cap h n ≡ copy_round buf cap g n
  unfolding copy_round
  copy_round-mod buf cap h g zero e = refl
  copy_round-mod buf cap h g (suc n) e =
      ap₂ ◌∷◌ (ap (λ i. get_or buf i none) e) (
        copy_round-mod buf cap (h + 1) (g + 1) n
          (step h ∙ (ap (λ i. (i + 1) % cap) e ∙ sym_step g)))
    where
      step : (i : ℕ) → (i + 1) % cap ≡ (i % cap + 1) % cap
      step i = rw mod-add-mod refl

      sym_step : (i : ℕ) → (i % cap + 1) % cap ≡ (i + 1) % cap
      sym_step i = rw mod-add-mod refl

  get_or-drop :
      (buf : List (Option A)) (i n : ℕ)
      → i < length buf
      → get_or buf i none ∷ take n (drop (suc i) buf) ≡ take (suc n) (drop i buf)
  get_or-drop [] i n h = absurd (omega arith)
  get_or-drop (x ∷ buf) zero n h = refl
  get_or-drop (x ∷ buf) (suc i) n h = get_or-drop buf i n (omega arith)

  -- Reading that does not go round is a slice.
  copy_round-slice :
      (buf : List (Option A)) (cap i n : ℕ)
      → i + n ≤ cap
      → i + n ≤ length buf
      → copy_round buf cap i n ≡ take n (drop i buf)
  unfolding copy_round
  copy_round-slice buf cap i zero h k = refl
  copy_round-slice buf cap i (suc n) h k = rw (mod-eq_of_lt {n = i} {m = cap} (omega arith)) (
      ap (λ t. get_or buf i none ∷ t)
        (copy_round-slice buf cap (i + 1) n (omega arith) (omega arith)
          ∙ ap (λ j. take n (drop j buf)) {x = i + 1} {y = suc i} (omega arith))
      ∙ get_or-drop buf i n (omega arith))

  -- A write past the end of what is read does not show.
  copy_round-set_outside :
      (buf : List (Option A)) (cap h n i : ℕ) (v : Option A)
      → ((k : ℕ) → k < n → i ≢ (h + k) % cap)
      → copy_round (set buf i v) cap h n ≡ copy_round buf cap h n
  unfolding copy_round
  copy_round-set_outside buf cap h zero i v out = refl
  copy_round-set_outside buf cap h (suc n) i v out =
      ap₂ ◌∷◌
        (get_or-set_ne buf i (h % cap) v none
          (λ e. out 0 (omega arith) (e ∙ ap (λ j. j % cap) {x = h} {y = h + 0} (omega arith))))
        (copy_round-set_outside buf cap (h + 1) n i v (λ k lt e.
          out (suc k) (omega arith)
            (e ∙ ap (λ j. j % cap) {x = h + 1 + k} {y = h + suc k} (omega arith))))

  copy_round-snoc :
      (buf : List (Option A)) (cap h n : ℕ)
      → copy_round buf cap h (suc n)
        ≡ copy_round buf cap h n ++ get_or buf ((h + n) % cap) none ∷ []
  unfolding copy_round
  copy_round-snoc buf cap h zero =
      ap (λ j. get_or buf (j % cap) none ∷ []) {x = h} {y = h + 0} (omega arith)
  copy_round-snoc buf cap h (suc n) =
      ap (λ t. get_or buf (h % cap) none ∷ t)
        (copy_round-snoc buf cap (h + 1) n
          ∙ ap (λ j. copy_round buf cap (h + 1) n ++ get_or buf (j % cap) none ∷ []) {x = h + 1 + n}
              {y = h + suc n} (omega arith))

  -- Writing just past the messages extends them by the one written.
  pub copy_round-set :
      (buf : List (Option A)) (cap h n i : ℕ) (v : Option A)
      → cap ≡ length buf
      → h < cap
      → n < cap
      → i ≡ (h + n) % cap
      → copy_round (set buf i v) cap h (suc n) ≡ copy_round buf cap h n ++ v ∷ []
  copy_round-set buf cap h n i v hs hh hn e =
      copy_round-snoc (set buf i v) cap h n
      ∙ ap₂ (λ xs y. xs ++ y ∷ [])
          (copy_round-set_outside buf cap h n i v
            (λ k lt p. add-mod-injective cap h k n hh lt hn (sym e ∙ p)))
          (ap (λ j. get_or (set buf i v) j none) (sym e)
            ∙ get_or-set_self buf i v none (omega arith))

  -- Expanding copies the whole ring, from the head on, to the front of the new storage.
  pub copy_round-expand :
      (buf : List (Option A)) (cap h extra : ℕ)
      → copy_round (copy_round buf cap h cap ++ replicate extra none) (cap + extra) 0 cap
        ≡ copy_round buf cap h cap
  copy_round-expand buf cap h extra =
      copy_round-slice (copy_round buf cap h cap ++ replicate extra none) (cap + extra) 0 cap
        (omega arith)
        (omega (
          arith,
          length-append (copy_round buf cap h cap) (replicate extra none),
          length-copy_round buf cap h cap,
        ))
      ∙ take-append_self (copy_round buf cap h cap) (replicate extra none) cap
          (sym (length-copy_round buf cap h cap))
