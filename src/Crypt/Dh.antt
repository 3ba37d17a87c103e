-- ===== src/Crypt/Dh.antt =====
-- `mul_mod_p`, `pow_mod_p`, `powmodp`: arithmetic modulo the largest 64-bit prime on `uint64_t`,
-- with the wrap written out; `ldhexchange` and `ldhsecret`.
use ddzproject.Prelude.{
  ℕ, zero, suc, ◌+◌, ◌-◌, ◌*◌, ◌/◌, ◌%◌, ◌^◌, ◌<◌, ◌≡◌, ◌≢◌, refl, sym, ap, ◌∙◌, Option, none, some,
  ltb, leb, ◌==◌, if◌then◌else◌, arith, inl, inr, ◌⊎◌, ==_ne, List, ◌||◌,
}
use ddzproject.Crypt.Key.{push64, read_key}
use native.Mathlib.Decide.{ℕ_discrete}
use native.Mathlib.Nat.{mod-eq_of_lt, pow-suc}
use ddzproject.Prelude.Powers.{mod_of_multiple}

abbrev pub prime : ℕ
prime = 0xffff_ffff_ffff_ffc5

-- The generator of the exchange.
abbrev pub generator : ℕ
generator = 5

abbrev pub add64 : ℕ → ℕ → ℕ
add64 a b = (a + b) % 2 ^ 64

abbrev pub sub64 : ℕ → ℕ → ℕ
sub64 a b = (a + 2 ^ 64 - b) % 2 ^ 64

-- The body of the loop: what is added to `m` for an odd digit, and `a` doubled.
pub add_mod_p : ℕ → ℕ → ℕ
add_mod_p m a = let t = sub64 prime a in if leb t m then sub64 m t else add64 m a

pub double_mod_p : ℕ → ℕ
double_mod_p a = if leb (sub64 prime a) a then sub64 (a * 2 % 2 ^ 64) prime else a * 2 % 2 ^ 64

-- `while (b)`, with fuel; `b` is halved, so 64 rounds are enough.
pub mul_loop : ℕ → ℕ → ℕ → ℕ → ℕ
unfolding add_mod_p double_mod_p
mul_loop zero m a b = m
mul_loop (suc fuel) m a b =
    let m' = if b % 2 == 1 then add_mod_p m a else m in
    let rest = mul_loop fuel m' (double_mod_p a) (b / 2) in if b == 0 then m else rest

pub mul_mod_p : ℕ → ℕ → ℕ
unfolding mul_loop
mul_mod_p a b = mul_loop 64 0 a b

-- The recursion halves `b` down to 1; it would not end at 0, which the callers refuse. Here that,
-- and too little fuel, is `none`.
unfoldable pub pow_mod_p : ℕ → ℕ → ℕ → Option ℕ
pow_mod_p zero a b = none
pow_mod_p (suc fuel) a b =
    let rest = pow_mod_p fuel a (b / 2) in
    if b == 1 then some a else elim rest [
      | none ↦ none
      | some t ↦ let s = mul_mod_p t t in some (if b % 2 == 0 then s else mul_mod_p s a)
    ]

unfoldable pub powmodp : ℕ → ℕ → Option ℕ
powmodp a b = pow_mod_p 64 (if ltb prime a then a % prime else a) b

-- What `ldhexchange` and `ldhsecret` push, and their errors: "Invalid dh uint64 key" and "Invalid
-- uint64", and "Can't be 0".
pub data Exchange : Type 0 where
  key : List ℕ → Exchange
  invalid_key : Exchange
  cannot_be_zero : Exchange
  diverges : Exchange

abbrev pub pushed : Option ℕ → Exchange
pushed none = diverges
pushed (some r) = key (push64 r)

unfoldable pub dhexchange : List ℕ → Exchange
dhexchange x = elim (read_key x) [
  | none ↦ invalid_key
  | some x64 ↦ if x64 == 0 then cannot_be_zero else pushed (powmodp generator x64)
]

unfoldable pub dhsecret : List ℕ → List ℕ → Exchange
dhsecret x y = elim (read_key x) [
  | none ↦ invalid_key
  | some xx ↦ elim (read_key y) [
    | none ↦ invalid_key
    | some yy ↦ if xx == 0 || yy == 0 then cannot_be_zero else pushed (powmodp xx yy)
  ]
]

-- Each step adds a multiple of the prime at most.
add_mod_p_lem :
    (m a : ℕ)
    → m < prime
    → a < prime
    → (add_mod_p m a < prime) × ((add_mod_p m a ≡ m + a) ⊎ (add_mod_p m a + prime ≡ m + a))
unfolding add_mod_p
add_mod_p_lem m a hm ha = ground arith

double_mod_p_lem :
    (a : ℕ)
    → a < prime
    → (double_mod_p a < prime) × ((double_mod_p a ≡ 2 * a) ⊎ (double_mod_p a + prime ≡ 2 * a))
unfolding double_mod_p
double_mod_p_lem a ha = ground arith

module _ (p : ℕ) where
  split_digit : (a b : ℕ) → a * b ≡ 2 * (a * (b / 2)) + a * (b % 2)
  split_digit a b =
      omega (arith, ap (λ (t : ℕ). a * t) {x = b} {y = 2 * (b / 2) + b % 2} (omega arith))

  mul_step :
      (m a b m' a' : ℕ)
      → (m' ≡ m + a * (b % 2)) ⊎ (m' + p ≡ m + a * (b % 2))
      → (a' ≡ 2 * a) ⊎ (a' + p ≡ 2 * a)
      → (m' + a' * (b / 2)) % p ≡ (m + a * b) % p
  mul_step m a b m' a' (inl u) (inl v) =
      ap (λ z. z % p) (omega (arith, split_digit a b, ap (λ (t : ℕ). t * (b / 2)) v))
  mul_step m a b m' a' (inl u) (inr v) =
      mod_of_multiple p (m' + a' * (b / 2)) (m + a * b) (b / 2)
        (omega (arith, split_digit a b, ap (λ (t : ℕ). t * (b / 2)) v))
  mul_step m a b m' a' (inr u) (inl v) =
      mod_of_multiple p (m' + a' * (b / 2)) (m + a * b) 1
        (omega (arith, split_digit a b, ap (λ (t : ℕ). t * (b / 2)) v))
  mul_step m a b m' a' (inr u) (inr v) =
      mod_of_multiple p (m' + a' * (b / 2)) (m + a * b) (1 + b / 2)
        (omega (arith, split_digit a b, ap (λ (t : ℕ). t * (b / 2)) v))

-- The accumulator after the digit `b % 2`.
taken : ℕ → ℕ → ℕ → ℕ
taken m a b = if b % 2 == 1 then add_mod_p m a else m

taken_lem :
    (m a b : ℕ)
    → m < prime
    → a < prime
    → (taken m a b < prime)
      × ((taken m a b ≡ m + a * (b % 2)) ⊎ (taken m a b + prime ≡ m + a * (b % 2)))
unfolding taken
taken_lem m a b hm ha = elim (digit (b % 2) (omega arith)) [
  | inl z ↦ rw z (hm, inl (omega arith))
  | inr o ↦
      rw o (law.0, elim law.1 [ inl u ↦ inl (omega (arith, u)) | inr u ↦ inr (omega (arith, u)) ])
]
  where
    digit : (d : ℕ) → d < 2 → (d ≡ 0) ⊎ (d ≡ 1)
    digit d h = omega arith

    law : (add_mod_p m a < prime) × ((add_mod_p m a ≡ m + a) ⊎ (add_mod_p m a + prime ≡ m + a))
    law = add_mod_p_lem m a hm ha

mul_loop-suc :
    (fuel m a b : ℕ)
    → b ≢ 0
    → mul_loop (suc fuel) m a b ≡ mul_loop fuel (taken m a b) (double_mod_p a) (b / 2)
unfolding mul_loop taken
mul_loop-suc fuel m a b ne = rw (==_ne b 0 ne) refl

mul_loop-zero : (fuel m a : ℕ) → mul_loop fuel m a 0 ≡ m
unfolding mul_loop
mul_loop-zero zero m a = refl
mul_loop-zero (suc fuel) m a = refl

pub mul_loop_lem :
    (fuel m a b : ℕ)
    → b < 2 ^ fuel
    → m < prime
    → a < prime
    → mul_loop fuel m a b ≡ (m + a * b) % prime
mul_loop_lem zero m a b h hm ha =
    let z : b ≡ 0 = omega arith in
    rw z
      (mul_loop-zero 0 m a ∙ sym (mod-eq_of_lt (omega arith)) ∙ ap (λ t. t % prime) (omega arith))
mul_loop_lem (suc fuel) m a b h hm ha = elim (ℕ_discrete b 0) [
  | yes z ↦ rw z (
      mul_loop-zero (suc fuel) m a
      ∙ sym (mod-eq_of_lt {n = m} {m = prime} hm)
      ∙ ap (λ t. t % prime) (omega arith))
  | no ne ↦
      mul_loop-suc fuel m a b ne
      ∙ mul_loop_lem fuel (taken m a b) (double_mod_p a) (b / 2) (omega (arith, pow-suc 2 fuel))
          (taken_lem m a b hm ha).0 (double_mod_p_lem a ha).0
      ∙ mul_step prime m a b (taken m a b) (double_mod_p a) (taken_lem m a b hm ha).1
          (double_mod_p_lem a ha).1
]

-- `mul_mod_p` is multiplication modulo the prime: no step wraps beyond what it undoes, and 64
-- rounds are enough.
pub mul_mod_p_lem : (a b : ℕ) → a < prime → b < 2 ^ 64 → mul_mod_p a b ≡ (a * b) % prime
unfolding mul_mod_p
mul_mod_p_lem a b ha hb =
    mul_loop_lem 64 0 a b hb (omega arith) ha ∙ ap (λ t. t % prime) (omega arith)
