-- ===== src/Handle/Grow.antt =====
-- The growth of a full array of slots in `skynet_handle_register`.
use ddzproject.Prelude.{
  ℕ, zero, suc, ◌*◌, ◌%◌, ◌^◌, ◌≤◌, ◌<◌, ◌≡◌, ◌≢◌, refl, sym, ap, ◌∙◌, inl, inr, Option, none, some,
  List, get_or, length, replicate, length-replicate, arith, Option-cases,
}
use ddzproject.Prelude.Powers.{mod-mod_pow}
use native.Mathlib.Nat.{mod_self, pow-suc, one-le-pow, mod-eq_of_lt}
use ddzproject.Handle.{Context}
use ddzproject.Handle.Slots.{IsSlots, Rehashed, rehash-Rehashed, none-some, some_eq}

pub empty_at : (n t : ℕ) → get_or {A = Option Context} (replicate n none) t none ≡ none
empty_at zero t = refl
empty_at (suc n) zero = refl
empty_at (suc n) (suc t) = empty_at n t

abbrev pub empty_slots : ℕ → List (Option Context)
empty_slots n = replicate n none

-- The slots of twice the size.
pub rehash-full :
    (slots : List (Option Context)) (k : ℕ)
    → IsSlots slots k
    → ((t : ℕ) → t < length slots → get_or slots t none ≢ none)
    → (out : List (Option Context)) × Rehashed slots (empty_slots (length slots * 2)) out k 0
rehash-full slots k ok full =
    rehash-Rehashed slots (empty_slots (length slots * 2)) k 0
      (length-replicate (length slots * 2) none ∙ omega (arith, ok.size, pow-suc 2 k))
      (λ j c e. ok.placed j c e ∙ omega arith) full
      (λ t c e. absurd (none-some c (sym (empty_at (length slots * 2) t) ∙ e)))

module _ (slots out : List (Option Context)) (k : ℕ) (ok : IsSlots slots k)
    (r : Rehashed slots (empty_slots (length slots * 2)) out k 0) where
  pub Rehashed-IsSlots : suc k ≤ 24 → IsSlots out (suc k)
  Rehashed-IsSlots le = record {
    size = r.size ∙ length-replicate (length slots * 2) none ∙ omega (arith, ok.size, pow-suc 2 k);
    low = le;
    placed = λ t c e. (r.placed t c e).0;
  }

  -- A context of the larger array was in the smaller one.
  pub Rehashed-old :
      (t : ℕ) (c : Context)
      → get_or out t none ≡ some c
      → get_or slots (c.handle % 2 ^ k) none ≡ some c
  Rehashed-old t c e = elim (r.from t c e) [
    | inl q ↦ absurd (none-some c (sym (empty_at (length slots * 2) t) ∙ q))
    | inr (j, q) ↦ ap (λ x. get_or slots x none) (ok.placed j c q) ∙ q
  ]

  -- One of two slots that the same slot was split into is free.
  pub Rehashed-free : (t : ℕ) × ((t < length out) × (get_or out t none ≡ none))
  Rehashed-free = elim (Option-cases (get_or out 0 none)) [
    | inl e ↦ (0, (omega (arith, wide), e))
    | inr (c, e) ↦ elim (Option-cases (get_or out (2 ^ k) none)) [
      | inl f ↦ (2 ^ k, (omega (arith, wide), f))
      | inr (d, f) ↦ absurd (apart c d e f)
    ]
  ]
    where
      wide : (length out ≡ 2 ^ k * 2) × (1 ≤ 2 ^ k)
      wide = (
        r.size ∙ length-replicate (length slots * 2) none ∙ omega (arith, ok.size),
        one-le-pow k 2 (omega arith),
      )

      in_first :
          (c : Context) (t : ℕ)
          → get_or out t none ≡ some c
          → t % 2 ^ k ≡ 0
          → get_or slots 0 none ≡ some c
      in_first c t e low =
          ap (λ x. get_or slots x none)
            (sym low
              ∙ ap (λ x. x % 2 ^ k) (sym (r.placed t c e).0)
              ∙ mod-mod_pow c.handle k (suc k) (omega arith))
          ∙ Rehashed-old t c e

      apart : (c d : Context) → get_or out 0 none ≡ some c → get_or out (2 ^ k) none ≡ some d → ⊥
      apart c d e f =
          let same = some_eq c d (
            sym (in_first c 0 e (mod-eq_of_lt (omega (arith, wide))))
            ∙ in_first d (2 ^ k) f (mod_self (2 ^ k))) in
          omega (
            arith,
            wide,
            (r.placed 0 c e).0,
            (r.placed (2 ^ k) d f).0,
            ap (λ (x : Context). x.handle % 2 ^ suc k) same,
          )
