-- ===== src/Handle/Free.antt =====
-- The search for a free handle in `skynet_handle_register`.
use ddzproject.Prelude.{
  ℕ, zero, suc, ◌+◌, ◌-◌, ◌%◌, ◌^◌, ◌≤◌, ◌<◌, ◌≡◌, ◌≢◌, refl, sym, ap, ◌∙◌, subst, inl, inr, Option,
  none, some, List, get_or, length, arith, bit_and, Option-cases,
}
use ddzproject.Prelude.Bits.{bit_and_mask}
use ddzproject.Prelude.Powers.{mod-mod_pow, round_to}
use native.Mathlib.Nat.{mod-lt, one-le-pow}
use ddzproject.Handle.{Context, hash_of, find_free, handle_mask}
use ddzproject.Handle.Slots.{hash_of_lem, none-some}

-- The handle that the search tries at `i`.
abbrev pub tried : ℕ → ℕ → ℕ
tried index i = bit_and ((i + index) % 2 ^ 32) handle_mask

find_free-taken :
    (slots : List (Option Context)) (index left i : ℕ) (c : Context)
    → get_or slots (hash_of slots (tried index i)) none ≡ some c
    → find_free slots index (suc left) i ≡ find_free slots index left (i + 1)
unfolding find_free
find_free-taken slots index left i c e = rw (find_free, e) refl

find_free-free :
    (slots : List (Option Context)) (index left i : ℕ)
    → get_or slots (hash_of slots (tried index i)) none ≡ none
    → find_free slots index (suc left) i ≡ some (tried index i)
unfolding find_free
find_free-free slots index left i e = rw (find_free, e) refl

some_eq_num : (a b : ℕ) → ◌≡◌ {A = Option ℕ} (some a) (some b) → a ≡ b
some_eq_num a b e = cc

pub some-none : (a : ℕ) → ¬ (◌≡◌ {A = Option ℕ} (some a) none)
some-none a e = cc

-- What the search gives is below `2 ^ 24`, and its slot is empty.
pub find_free-some :
    (slots : List (Option Context)) (index left i h : ℕ)
    → find_free slots index left i ≡ some h
    → (h < 2 ^ 24) × (get_or slots (hash_of slots h) none ≡ none)
find_free-some slots index zero i h e = absurd (some-none h (sym e ∙ (unfold find_free in refl)))
find_free-some slots index (suc left) i h e =
    elim (Option-cases (get_or slots (hash_of slots (tried index i)) none)) [
      | inr (c, q) ↦
          find_free-some slots index left (i + 1) h
            (sym (find_free-taken slots index left i c q) ∙ e)
      | inl q ↦
          let same =
            some_eq_num (tried index i) h (sym (find_free-free slots index left i q) ∙ e) in
          (
            omega (
              arith,
              sym same,
              bit_and_mask 24 ((i + index) % 2 ^ 32),
              mod-lt ((i + index) % 2 ^ 32) {m = 2 ^ 24} (omega arith),
            ),
            subst (λ x. get_or slots (hash_of slots x) none ≡ none) same q,
          )
    ]

-- A search that ends without a handle met a context at every step.
full_at :
    (slots : List (Option Context)) (index left i j : ℕ)
    → find_free slots index left i ≡ none
    → j < left
    → get_or slots (hash_of slots (tried index (i + j))) none ≢ none
full_at slots index zero i j e lt = absurd (omega arith)
full_at slots index (suc left) i zero e lt =
    elim (Option-cases (get_or slots (hash_of slots (tried index i)) none)) [
      | inl q ↦ absurd (some-none (tried index i) (sym (find_free-free slots index left i q) ∙ e))
      | inr (c, q) ↦ λ f. none-some c (
          sym f
          ∙ ap (λ x. get_or slots (hash_of slots (tried index x)) none) {x = i + 0} {y = i}
              (omega arith)
          ∙ q)
    ]
full_at slots index (suc left) i (suc j) e lt =
    elim (Option-cases (get_or slots (hash_of slots (tried index i)) none)) [
      | inl q ↦ absurd (some-none (tried index i) (sym (find_free-free slots index left i q) ∙ e))
      | inr (c, q) ↦ λ f.
          full_at slots index left (i + 1) j (sym (find_free-taken slots index left i c q) ∙ e)
            (omega arith)
            (ap (λ x. get_or slots (hash_of slots (tried index x)) none) {x = i + 1 + j}
                {y = i + suc j} (omega arith)
              ∙ f)
    ]

-- A search of all the slots that ends without a handle shows that they are full.
pub find_free-none :
    (slots : List (Option Context)) (index k : ℕ)
    → length slots ≡ 2 ^ k
    → k ≤ 24
    → find_free slots index (length slots) 0 ≡ none
    → (t : ℕ) → t < length slots
    → get_or slots t none ≢ none
find_free-none slots index k size le e t lt f =
    full_at slots index (length slots) 0 j e
      (omega (
        arith,
        size,
        mod-lt (t + 2 ^ k - index % 2 ^ k) {m = 2 ^ k} (one-le-pow k 2 (omega arith)),
      ))
      (ap (λ x. get_or slots x none) here ∙ f)
  where
    j : ℕ
    j = (t + 2 ^ k - index % 2 ^ k) % 2 ^ k

    here : hash_of slots (tried index (0 + j)) ≡ t
    here =
        hash_of_lem slots k (tried index (0 + j)) size
        ∙ ap (λ x. x % 2 ^ k) (bit_and_mask 24 ((0 + j + index) % 2 ^ 32))
        ∙ mod-mod_pow ((0 + j + index) % 2 ^ 32) k 24 le
        ∙ mod-mod_pow (0 + j + index) k 32 (omega (arith, le))
        ∙ ap (λ x. x % 2 ^ k) {x = 0 + j + index} {y = j + index} (omega arith)
        ∙ round_to (2 ^ k) index t (omega (arith, size))
