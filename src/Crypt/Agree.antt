-- ===== src/Crypt/Agree.antt =====
-- The two sides of the key exchange of `ldhexchange` and `ldhsecret`.
use ddzproject.Prelude.{
  ℕ, zero, suc, ◌*◌, ◌%◌, ◌^◌, ◌<◌, ◌≡◌, ◌≢◌, sym, ap, ◌∙◌, List, some, All, arith, ==_ne, refl,
}
use native.Mathlib.Nat.{mod-lt, pow-suc, pow-zero}
use ddzproject.Crypt.Key.{push64, read_key, read_key-push64, read_key-lt}
use ddzproject.Crypt.Dh.{prime, generator, dhexchange, dhsecret, key}
use ddzproject.Crypt.Power.{powmodp_lem, pow-mul, pow-mod, mul-mod_left}

-- The inverse of the generator modulo the prime.
abbrev inverse : ℕ
inverse = 7378697629483820623

mul-pow : (a b n : ℕ) → (a * b) ^ n ≡ a ^ n * b ^ n
mul-pow a b zero =
    pow-zero (a * b) ∙ omega (arith, pow-zero a, ap (λ (t : ℕ). a ^ 0 * t) (pow-zero b))
mul-pow a b (suc n) = omega (
  arith,
  pow-suc (a * b) n,
  pow-suc a n,
  pow-suc b n,
  ap (λ (t : ℕ). t * (a * b)) (mul-pow a b n),
  ap (λ (t : ℕ). t * b ^ suc n) (pow-suc a n),
  ap (λ (t : ℕ). a ^ n * a * t) (pow-suc b n),
)

one-pow : (n : ℕ) → 1 ^ n ≡ 1
one-pow zero = pow-zero 1
one-pow (suc n) = omega (arith, pow-suc 1 n, one-pow n)

inverse_pow : (n : ℕ) → (generator ^ n * inverse ^ n) % prime ≡ 1
inverse_pow n =
    ap (λ t. t % prime) (sym (mul-pow generator inverse n))
    ∙ (sym (pow-mod prime (generator * inverse) n)
        ∙ ap (λ t. t % prime) {x = ((generator * inverse) % prime) ^ n} {y = 1} (one-pow n))

-- No public key is 0.
generator_ne : (n : ℕ) → (generator ^ n) % prime ≢ 0
generator_ne n e = omega (
  arith,
  inverse_pow n,
  sym (mul-mod_left prime (generator ^ n) (inverse ^ n)),
  ap (λ (t : ℕ). (t * inverse ^ n) % prime) e,
)

pub public_key :
    (x : List ℕ) (a : ℕ)
    → a < 2 ^ 64
    → read_key x ≡ some a
    → a ≢ 0
    → dhexchange x ≡ key (push64 ((generator ^ a) % prime))
unfolding dhexchange
public_key x a h e ne =
    rw (dhexchange, e, ==_ne a 0 ne, powmodp_lem generator a (omega arith) (omega arith) h) refl

secret_of :
    (y : List ℕ) (a b : ℕ)
    → b < 2 ^ 64
    → read_key y ≡ some b
    → b ≢ 0
    → dhsecret (push64 ((generator ^ a) % prime)) y ≡ key (push64 ((generator ^ (a * b)) % prime))
unfolding dhsecret
secret_of y a b h e ne =
    rw
      (
        dhsecret,
        read_key-push64 ((generator ^ a) % prime) (omega (arith, below)),
        e,
        ==_ne ((generator ^ a) % prime) 0 (generator_ne a),
        ==_ne b 0 ne,
        powmodp_lem ((generator ^ a) % prime) b (omega (arith, below)) (omega arith) h,
        pow-mod prime (generator ^ a) b,
        pow-mul generator a b,
      )
      refl
  where
    below : (generator ^ a) % prime < prime
    below = mod-lt (generator ^ a) {m = prime} (omega arith)

-- Key agreement: for any two private keys of eight bytes that spell numbers `a` and `b` other than
-- 0, `ldhexchange` pushes a public key for each, and `ldhsecret` of the one's public key and the
-- other's private key pushes the same eight bytes on both sides, those of the generator to the
-- power `a * b` modulo the prime.
pub dhsecret_agree :
    (x y : List ℕ) (a b : ℕ)
    → All (λ c. c < 256) x
    → All (λ c. c < 256) y
    → read_key x ≡ some a
    → read_key y ≡ some b
    → a ≢ 0
    → b ≢ 0
    → (gx : List ℕ) × (gy : List ℕ) × (dhexchange x ≡ key gx)
      × (dhexchange y ≡ key gy)
      × (dhsecret gx y ≡ key (push64 ((generator ^ (a * b)) % prime)))
      × (dhsecret gy x ≡ dhsecret gx y)
dhsecret_agree x y a b hx hy ex ey na nb =
    let one = secret_of y a b (read_key-lt y b hy ey) ey nb in
    (
      push64 ((generator ^ a) % prime),
      push64 ((generator ^ b) % prime),
      public_key x a (read_key-lt x a hx ex) ex na,
      public_key y b (read_key-lt y b hy ey) ey nb,
      one,
      secret_of x b a (read_key-lt x a hx ex) ex na
          ∙ (ap (λ k. key (push64 ((generator ^ k) % prime))) {x = b * a} {y = a * b} (omega arith)
              ∙ sym one),
    )
