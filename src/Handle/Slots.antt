-- ===== src/Handle/Slots.antt =====
-- The slots of the contexts, and the filling of the larger array that replaces a full one.
use ddzproject.Prelude.{
  ℕ, zero, suc, ◌+◌, ◌-◌, ◌%◌, ◌^◌, ◌≤◌, ◌<◌, ◌≡◌, ◌≢◌, ◌⊎◌, refl, sym, ap, ◌∙◌, subst, inl, inr,
  Option, none, some, List, [], ◌∷◌, get_or, set, length, arith, bit_and, length-set,
  get_or-set_self, get_or-set_ne, Option-cases,
}
use ddzproject.Prelude.Bits.{bit_and_mask}
use ddzproject.Prelude.Powers.{mod-mod_pow}
use native.Mathlib.Nat.{mod-lt, one-le-pow}
use native.Mathlib.Decide.{ℕ_discrete}
use ddzproject.Handle.{Context, hash_of, rehash}

pub record IsSlots (slots : List (Option Context)) (k : ℕ) : Type 0 where
  pub size : length slots ≡ 2 ^ k
  pub low : k ≤ 24
  pub placed : (i : ℕ) (c : Context) → get_or slots i none ≡ some c → c.handle % 2 ^ k ≡ i

pub hash_of_lem :
    (slots : List (Option Context)) (k h : ℕ) → length slots ≡ 2 ^ k → hash_of slots h ≡ h % 2 ^ k
unfolding hash_of
hash_of_lem slots k h e = ap (λ n. bit_and h (n - 1)) e ∙ bit_and_mask k h

pub get_or-lt :
    (slots : List (Option Context)) (i : ℕ) (c : Context)
    → get_or slots i none ≡ some c
    → i < length slots
get_or-lt [] i c e = cc
get_or-lt (x ∷ slots) zero c e = omega arith
get_or-lt (x ∷ slots) (suc i) c e = omega (arith, get_or-lt slots i c e)

pub some_eq : (c d : Context) → ◌≡◌ {A = Option Context} (some c) (some d) → c ≡ d
some_eq c d e = cc

pub none-some : (c : Context) → ¬ (◌≡◌ {A = Option Context} none (some c))
none-some c e = cc

-- What the array `out` that `rehash` fills holds: what `new` did, and the contexts of `old`.
pub record Rehashed (old new out : List (Option Context)) (k i : ℕ) : Type 0 where
  pub result : rehash old new ≡ some out
  pub size : length out ≡ length new
  pub placed :
      (t : ℕ) (c : Context)
      → get_or out t none ≡ some c
      → (c.handle % 2 ^ suc k ≡ t) × (c.handle % 2 ^ k < i + length old)
  pub kept : (t : ℕ) (c : Context) → get_or new t none ≡ some c → get_or out t none ≡ some c
  pub moved :
      (j : ℕ) (c : Context)
      → get_or old j none ≡ some c
      → get_or out (c.handle % 2 ^ suc k) none ≡ some c
  pub from :
      (t : ℕ) (c : Context)
      → get_or out t none ≡ some c
      → (get_or new t none ≡ some c) ⊎ ((j : ℕ) × (get_or old j none ≡ some c))

rehash-cons :
    (slots new : List (Option Context)) (c : Context)
    → get_or new (hash_of new c.handle) none ≡ none
    → rehash (some c ∷ slots) new ≡ rehash slots (set new (hash_of new c.handle) (some c))
unfolding rehash
rehash-cons slots new c e = rw (rehash, e) refl

pub rehash-Rehashed :
    (old new : List (Option Context)) (k i : ℕ)
    → length new ≡ 2 ^ suc k
    → ((j : ℕ) (c : Context) → get_or old j none ≡ some c → c.handle % 2 ^ k ≡ i + j)
    → ((j : ℕ) → j < length old → get_or old j none ≢ none)
    → ((t : ℕ) (c : Context)
        → get_or new t none ≡ some c
        → (c.handle % 2 ^ suc k ≡ t) × (c.handle % 2 ^ k < i))
    → (out : List (Option Context)) × Rehashed old new out k i
rehash-Rehashed [] new k i size placed full below = (
  new,
  record {
    result = unfold rehash in refl;
    size = refl;
    placed = λ t c e. ((below t c e).0, omega (arith, (below t c e).1));
    kept = λ t c e. e;
    moved = λ j c e. absurd (none-some c e);
    from = λ t c e. inl e;
  },
)
rehash-Rehashed (none ∷ old) new k i size placed full below = absurd (full 0 (omega arith) refl)
rehash-Rehashed (some c ∷ old) new k i size placed full below =
    let (out, r) =
      rehash-Rehashed old (set new p (some c)) k (i + 1) (length-set new p (some c) ∙ size)
        (λ j d e. omega (arith, placed (suc j) d e)) (λ j lt e. full (suc j) (omega arith) e)
        below' in
    (
      out,
      record {
        result =
            rehash-cons old new c
              (ap (λ x. get_or new x none) (hash_of_lem new (suc k) c.handle size) ∙ free)
            ∙ ap (λ x. rehash old (set new x (some c))) (hash_of_lem new (suc k) c.handle size)
            ∙ r.result;
        size = r.size ∙ length-set new p (some c);
        placed = λ t d e. ((r.placed t d e).0, omega (arith, (r.placed t d e).1));
        kept = kept' out r;
        moved = moved' out r;
        from = from' out r;
      },
    )
  where
    p : ℕ
    p = c.handle % 2 ^ suc k

    here : c.handle % 2 ^ k ≡ i
    here = omega (arith, placed 0 c refl)

    p-lt : p < length new
    p-lt = omega (arith, size, mod-lt c.handle {m = 2 ^ suc k} (one-le-pow (suc k) 2 (omega arith)))

    free : get_or new p none ≡ none
    free = elim (Option-cases (get_or new p none)) [
      | inl e ↦ e
      | inr (d, e) ↦ absurd (
          omega (
            arith,
            (below p d e).1,
            mod-mod_pow d.handle k (suc k) (omega arith),
            mod-mod_pow c.handle k (suc k) (omega arith),
            ap (λ x. x % 2 ^ k) ((below p d e).0),
            here,
          ))
    ]

    below' :
        (t : ℕ) (d : Context)
        → get_or (set new p (some c)) t none ≡ some d
        → (d.handle % 2 ^ suc k ≡ t) × (d.handle % 2 ^ k < i + 1)
    below' t d e = elim (ℕ_discrete p t) [
      | yes q ↦
          let same = some_eq c d (
            sym (get_or-set_self new p (some c) none p-lt)
            ∙ ap (λ x. get_or (set new p (some c)) x none) q
            ∙ e) in
          (
            ap (λ (x : Context). x.handle % 2 ^ suc k) (sym same) ∙ q,
            omega (arith, here, ap (λ (x : Context). x.handle % 2 ^ k) same),
          )
      | no ne ↦
          let b = below t d (sym (get_or-set_ne new p t (some c) none ne) ∙ e) in
          (b.0, omega (arith, b.1))
    ]

    Rest : List (Option Context) → Type 0
    Rest out = Rehashed old (set new p (some c)) out k (i + 1)

    kept' :
        (out : List (Option Context))
        → Rest out
        → (t : ℕ) (d : Context) → get_or new t none ≡ some d
        → get_or out t none ≡ some d
    kept' out r t d e = r.kept t d (
        get_or-set_ne new p t (some c) none
          (λ q. none-some d (sym free ∙ ap (λ x. get_or new x none) q ∙ e))
        ∙ e)

    moved' :
        (out : List (Option Context))
        → Rest out
        → (j : ℕ) (d : Context) → get_or (some c ∷ old) j none ≡ some d
        → get_or out (d.handle % 2 ^ suc k) none ≡ some d
    moved' out r zero d e =
        subst (λ x. get_or out (x.handle % 2 ^ suc k) none ≡ some x) (some_eq c d e)
          (r.kept p c (get_or-set_self new p (some c) none p-lt))
    moved' out r (suc j) d e = r.moved j d e

    from' :
        (out : List (Option Context))
        → Rest out
        → (t : ℕ) (d : Context) → get_or out t none ≡ some d
        → (get_or new t none ≡ some d) ⊎ ((j : ℕ) × (get_or (some c ∷ old) j none ≡ some d))
    from' out r t d e = elim (r.from t d e) [
      | inl q ↦ elim (ℕ_discrete p t) [
        | yes same ↦ inr (
          0,
          sym (get_or-set_self new p (some c) none p-lt)
              ∙ ap (λ x. get_or (set new p (some c)) x none) same
              ∙ q,
        )
        | no ne ↦ inl (sym (get_or-set_ne new p t (some c) none ne) ∙ q)
      ]
      | inr (j, q) ↦ inr (suc j, q)
    ]
