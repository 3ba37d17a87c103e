-- ===== src/Lock/Total.antt =====
-- How many threads are at a kind of place.
use ddzproject.Prelude.{
  ℕ, zero, suc, ◌+◌, ◌≤◌, ◌<◌, ◌≡◌, ◌≢◌, refl, ap, List, [], ◌∷◌, get_or, set, length, replicate,
  arith, get_or-set_ne, length-set,
}
use native.Mathlib.Decide.{dec_le}
use ddzproject.Lock.{Place, idle}

module _ (f : Place → ℕ) where
  abbrev pub total : List Place → ℕ
  total [] = 0
  total (p ∷ ps) = f p + total ps

  pub total-set :
      (ps : List Place) (i : ℕ) (q : Place)
      → i < length ps
      → total (set ps i q) + f (get_or ps i idle) ≡ total ps + f q
  total-set [] i q lt = absurd (omega arith)
  total-set (p ∷ ps) zero q lt = omega arith
  total-set (p ∷ ps) (suc i) q lt = omega (arith, total-set ps i q (omega arith))

  pub total-one : (ps : List Place) (i : ℕ) → i < length ps → f (get_or ps i idle) ≤ total ps
  total-one [] i lt = absurd (omega arith)
  total-one (p ∷ ps) zero lt = omega arith
  total-one (p ∷ ps) (suc i) lt = omega (arith, total-one ps i (omega arith))

  -- Two threads count twice.
  pub total-two :
      (ps : List Place) (i j : ℕ)
      → i < length ps
      → j < length ps
      → i ≢ j
      → f idle ≡ 0
      → f (get_or ps i idle) + f (get_or ps j idle) ≤ total ps
  total-two ps i j in_i in_j ne none_idle = omega (
    arith,
    total-set ps i idle in_i,
    total-one (set ps i idle) j (omega (arith, length-set ps i idle)),
    ap f (get_or-set_ne ps i j idle idle ne),
  )

  pub total-exists :
      (ps : List Place) → 1 ≤ total ps → (i : ℕ) × ((i < length ps) × (1 ≤ f (get_or ps i idle)))
  total-exists [] h = absurd (omega arith)
  total-exists (p ∷ ps) h = elim (dec_le 1 (f p)) [
    | yes le ↦ (0, (omega arith, le))
    | no ne ↦ let (i, (lt, le)) = total-exists ps (omega arith) in (suc i, (omega arith, le))
  ]

  pub total-idle : (n : ℕ) → f idle ≡ 0 → total (replicate n idle) ≡ 0
  total-idle zero e = refl
  total-idle (suc n) e = omega (arith, total-idle n e)
