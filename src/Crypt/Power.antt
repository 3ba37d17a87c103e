-- ===== src/Crypt/Power.antt =====
-- `powmodp` against exponentiation.
use ddzproject.Prelude.{
  ℕ, zero, suc, ◌+◌, ◌*◌, ◌/◌, ◌%◌, ◌^◌, ◌<◌, ◌≡◌, ◌≢◌, sym, ap, ◌∙◌, some, ◌==◌, if◌then◌else◌,
  arith, inl, inr, ◌⊎◌, ==_ne, le→ltb, lt→ltb,
}
use native.Mathlib.Decide.{ℕ_discrete, dec_lt}
use native.Mathlib.Nat.{mod-eq_of_lt, pow-suc, mod-add-div, mod-lt, pow-zero}
use ddzproject.Prelude.Powers.{pow-add, mod_of_multiple}
use ddzproject.Crypt.Dh.{prime, mul_mod_p, mul_mod_p_lem, pow_mod_p, powmodp}

pub mul-mod_left : (p x y : ℕ) → (x % p * y) % p ≡ (x * y) % p
mul-mod_left p x y =
    mod_of_multiple p (x % p * y) (x * y) (x / p * y)
      (omega (arith, ap (λ (t : ℕ). t * y) (mod-add-div x p)))

mul-mod_both : (p x y : ℕ) → (x % p * (y % p)) % p ≡ (x * y) % p
mul-mod_both p x y =
    mul-mod_left p x (y % p)
    ∙ (ap (λ t. t % p) {x = x * (y % p)} {y = y % p * x} (omega arith)
        ∙ (mul-mod_left p y x ∙ ap (λ t. t % p) (omega arith)))

pow-one : (a : ℕ) → a ^ 1 ≡ a
pow-one a = omega (arith, pow-suc a 0, ap (λ (t : ℕ). t * a) (pow-zero a))

pub pow-mul : (a m n : ℕ) → (a ^ m) ^ n ≡ a ^ (m * n)
pow-mul a m zero =
    pow-zero (a ^ m) ∙ (sym (pow-zero a) ∙ ap (λ k. a ^ k) {x = 0} {y = m * 0} (omega arith))
pow-mul a m (suc n) =
    pow-suc (a ^ m) n
    ∙ (ap (λ t. t * a ^ m) (pow-mul a m n)
        ∙ (sym (pow-add a (m * n) m)
            ∙ ap (λ k. a ^ k) {x = m * n + m} {y = m * suc n} (omega arith)))

pub pow-mod : (p a n : ℕ) → ((a % p) ^ n) % p ≡ (a ^ n) % p
pow-mod p a zero = ap (λ t. t % p) (pow-zero (a % p) ∙ sym (pow-zero a))
pow-mod p a (suc n) =
    ap (λ t. t % p) (pow-suc (a % p) n)
    ∙ (sym (mul-mod_left p ((a % p) ^ n) (a % p))
        ∙ (ap (λ t. (t * (a % p)) % p) (pow-mod p a n)
            ∙ (mul-mod_both p (a ^ n) a ∙ ap (λ t. t % p) (sym (pow-suc a n)))))

-- One step of the recursion, on exponents.
square_step :
    (a b : ℕ)
    → a < prime
    → let t = (a ^ (b / 2)) % prime in
      (if b % 2 == 0 then mul_mod_p t t else mul_mod_p (mul_mod_p t t) a) ≡ (a ^ b) % prime
square_step a b ha = elim (digit (b % 2) (omega arith)) [
  | inl z ↦ rw z (squared ∙ ap (λ k. a ^ k % prime) (omega (arith, z)))
  | inr o ↦ rw o (
      mul_mod_p_lem (mul_mod_p t t) a
        (rw squared (mod-lt (a ^ (b / 2 + b / 2)) {m = prime} (omega arith))) (omega arith)
      ∙ (ap (λ s. (s * a) % prime) squared
          ∙ (mul-mod_left prime (a ^ (b / 2 + b / 2)) a
              ∙ (ap (λ s. s % prime) (sym (pow-suc a (b / 2 + b / 2)))
                  ∙ ap (λ k. a ^ k % prime) (omega (arith, o))))))
]
  where
    t : ℕ
    t = (a ^ (b / 2)) % prime

    digit : (d : ℕ) → d < 2 → (d ≡ 0) ⊎ (d ≡ 1)
    digit d h = omega arith

    small : t < prime
    small = mod-lt (a ^ (b / 2)) {m = prime} (omega arith)

    squared : mul_mod_p t t ≡ (a ^ (b / 2 + b / 2)) % prime
    squared =
        mul_mod_p_lem t t small (omega (arith, small))
        ∙ (mul-mod_both prime (a ^ (b / 2)) (a ^ (b / 2))
            ∙ ap (λ s. s % prime) (sym (pow-add a (b / 2) (b / 2))))

pub pow_mod_p_lem :
    (fuel a b : ℕ) → 0 < b → b < 2 ^ fuel → a < prime → pow_mod_p fuel a b ≡ some ((a ^ b) % prime)
unfolding pow_mod_p
pow_mod_p_lem zero a b pos h ha = absurd (omega arith)
pow_mod_p_lem (suc fuel) a b pos h ha = elim (ℕ_discrete b 1) [
  | yes e ↦
      rw e (
        ap some (sym (mod-eq_of_lt {n = a} {m = prime} ha) ∙ ap (λ t. t % prime) (sym (pow-one a))))
  | no ne ↦
      rw
        (
          ==_ne b 1 ne,
          pow_mod_p_lem fuel a (b / 2) (omega arith) (omega (arith, pow-suc 2 fuel)) ha,
        )
        (ap some (square_step a b ha))
]

-- `powmodp a b` is the remainder of the power by the prime, for every base below or above the prime
-- and every exponent of 64 bits but 0; at the prime itself it is not reduced.
pub powmodp_lem : (a b : ℕ) → a ≢ prime → 0 < b → b < 2 ^ 64 → powmodp a b ≡ some ((a ^ b) % prime)
unfolding powmodp
powmodp_lem a b ne pos h = elim (dec_lt prime a) [
  | yes big ↦ rw (lt→ltb prime a big) (
      pow_mod_p_lem 64 (a % prime) b pos h (mod-lt a {m = prime} (omega arith))
      ∙ ap some (pow-mod prime a b))
  | no small ↦ rw (le→ltb prime a (omega arith)) (pow_mod_p_lem 64 a b pos h (omega arith))
]
