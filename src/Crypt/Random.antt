-- ===== src/Crypt/Random.antt =====
-- `lrandomkey`: eight bytes from `random()`. The numbers that it draws are an argument.
use ddzproject.Prelude.{
  ℕ, ◌+◌, ◌*◌, ◌^◌, ◌<◌, ◌≡◌, ◌≢◌, refl, sym, ap, ap₂, ◌∙◌, List, [], ◌∷◌, arith, map, bit_and,
  bit_or, bit_xor, some, ◌==◌, if◌then◌else◌, true, false, Bool-cases, inl, inr,
}
use ddzproject.Prelude.Bits.{bit_and_mask, bit_or_mask, bit_or_low}
use ddzproject.Crypt.Key.{read_key, word_lem}
use ddzproject.Crypt.Dh.{dhexchange, key}
use ddzproject.Crypt.Agree.{public_key}

-- `x`, which all bytes are xored into.
pub xor_all : ℕ → List ℕ → ℕ
xor_all x [] = x
xor_all x (b ∷ tmp) = xor_all (bit_xor x b) tmp

pub avoid_zero : List ℕ → List ℕ
avoid_zero [] = []
avoid_zero (b ∷ tmp) = bit_or b 1 ∷ tmp

abbrev pub low_bytes : List ℕ → List ℕ
low_bytes draws = map (λ d. bit_and d 0xff) draws

pub random_key : List ℕ → List ℕ
random_key draws = let tmp = low_bytes draws in if xor_all 0 tmp == 0 then avoid_zero tmp else tmp

-- Eight bytes, one of which is not 0, are a key that is not 0.
read_key-bytes :
    (x0 x1 x2 x3 x4 x5 x6 x7 : ℕ)
    → (x0 < 256) × (x1 < 256) × (x2 < 256) × (x3 < 256)
    → (x4 < 256) × (x5 < 256) × (x6 < 256) × (x7 < 256)
    → read_key (x0 ∷ x1 ∷ x2 ∷ x3 ∷ x4 ∷ x5 ∷ x6 ∷ x7 ∷ [])
      ≡ some (
          x0
          + x1 * 2 ^ 8
          + x2 * 2 ^ 16
          + x3 * 2 ^ 24
          + (x4 + x5 * 2 ^ 8 + x6 * 2 ^ 16 + x7 * 2 ^ 24) * 2 ^ 32)
unfolding read_key
read_key-bytes x0 x1 x2 x3 x4 x5 x6 x7 (h0, h1, h2, h3) (h4, h5, h6, h7) = ap some (
    ap₂ (λ a b. bit_or a (b * 2 ^ 32)) (word_lem x0 x1 x2 x3 h0 h1 h2 h3)
      (word_lem x4 x5 x6 x7 h4 h5 h6 h7)
    ∙ bit_or_low 32 (x4 + x5 * 2 ^ 8 + x6 * 2 ^ 16 + x7 * 2 ^ 24)
        (x0 + x1 * 2 ^ 8 + x2 * 2 ^ 16 + x3 * 2 ^ 24) (omega arith))

byte_lt : (d : ℕ) → bit_and d 0xff < 256
byte_lt d = omega (arith, bit_and_mask 8 d)

odd_byte : (d : ℕ) → (bit_or (bit_and d 0xff) 1 < 256) × (0 < bit_or (bit_and d 0xff) 1)
odd_byte d = (
  omega (arith, byte_lt d, bit_or_mask 1 (bit_and d 0xff)),
  omega (arith, bit_or_mask 1 (bit_and d 0xff)),
)

random_key-zero :
    (draws : List ℕ)
    → (xor_all 0 (low_bytes draws) == 0) ≡ true
    → random_key draws ≡ avoid_zero (low_bytes draws)
unfolding random_key
random_key-zero draws e = rw e refl

random_key-other :
    (draws : List ℕ)
    → (xor_all 0 (low_bytes draws) == 0) ≡ false
    → random_key draws ≡ low_bytes draws
unfolding random_key
random_key-other draws e = rw e refl

-- Bytes that are all 0 leave nothing in `x`.
no_bits :
    (x0 x1 x2 x3 x4 x5 x6 x7 : ℕ)
    → x0 + x1 + x2 + x3 + x4 + x5 + x6 + x7 ≡ 0
    → (xor_all 0 (x0 ∷ x1 ∷ x2 ∷ x3 ∷ x4 ∷ x5 ∷ x6 ∷ x7 ∷ []) == 0) ≡ true
unfolding xor_all
no_bits x0 x1 x2 x3 x4 x5 x6 x7 e =
    rw
      (
        zero_of x0 (omega arith),
        zero_of x1 (omega arith),
        zero_of x2 (omega arith),
        zero_of x3 (omega arith),
        zero_of x4 (omega arith),
        zero_of x5 (omega arith),
        zero_of x6 (omega arith),
        zero_of x7 (omega arith),
      )
      refl
  where
    zero_of : (x : ℕ) → x ≡ 0 → x ≡ 0
    zero_of x q = q

true-false : ¬ (true ≡ false)
true-false e = cc

random_key-positive :
    (d0 d1 d2 d3 d4 d5 d6 d7 : ℕ)
    → (n : ℕ) × ((read_key (random_key (d0 ∷ d1 ∷ d2 ∷ d3 ∷ d4 ∷ d5 ∷ d6 ∷ d7 ∷ [])) ≡ some n)
        × ((n ≢ 0) × (n < 2 ^ 64)))
unfolding avoid_zero
random_key-positive d0 d1 d2 d3 d4 d5 d6 d7 =
    elim (Bool-cases (xor_all 0 (low_bytes (d0 ∷ d1 ∷ d2 ∷ d3 ∷ d4 ∷ d5 ∷ d6 ∷ d7 ∷ [])) == 0)) [
      | inl e ↦ (
        _,
        (
          ap read_key (random_key-zero (d0 ∷ d1 ∷ d2 ∷ d3 ∷ d4 ∷ d5 ∷ d6 ∷ d7 ∷ []) e)
              ∙ read_key-bytes (bit_or (bit_and d0 0xff) 1) (bit_and d1 0xff) (bit_and d2 0xff)
                  (bit_and d3 0xff) (bit_and d4 0xff) (bit_and d5 0xff) (bit_and d6 0xff)
                  (bit_and d7 0xff) ((odd_byte d0).0, byte_lt d1, byte_lt d2, byte_lt d3)
                  (byte_lt d4, byte_lt d5, byte_lt d6, byte_lt d7),
          (
            λ z. omega (arith, odd_byte d0),
            omega (
              arith,
              odd_byte d0,
              byte_lt d1,
              byte_lt d2,
              byte_lt d3,
              byte_lt d4,
              byte_lt d5,
              byte_lt d6,
              byte_lt d7,
            ),
          ),
        ),
      )
      | inr e ↦ (
        _,
        (
          ap read_key (random_key-other (d0 ∷ d1 ∷ d2 ∷ d3 ∷ d4 ∷ d5 ∷ d6 ∷ d7 ∷ []) e)
              ∙ read_key-bytes (bit_and d0 0xff) (bit_and d1 0xff) (bit_and d2 0xff)
                  (bit_and d3 0xff) (bit_and d4 0xff) (bit_and d5 0xff) (bit_and d6 0xff)
                  (bit_and d7 0xff) (byte_lt d0, byte_lt d1, byte_lt d2, byte_lt d3)
                  (byte_lt d4, byte_lt d5, byte_lt d6, byte_lt d7),
          (
            λ z. true-false (
                sym (
                  no_bits (bit_and d0 0xff) (bit_and d1 0xff) (bit_and d2 0xff) (bit_and d3 0xff)
                    (bit_and d4 0xff) (bit_and d5 0xff) (bit_and d6 0xff) (bit_and d7 0xff)
                    (omega arith))
                ∙ e),
            omega (
              arith,
              byte_lt d0,
              byte_lt d1,
              byte_lt d2,
              byte_lt d3,
              byte_lt d4,
              byte_lt d5,
              byte_lt d6,
              byte_lt d7,
            ),
          ),
        ),
      )
    ]

-- Whatever eight numbers `random()` gives, `ldhexchange` takes the key that `lrandomkey` makes of them:
-- it is not refused as 0, and a public key is pushed.
pub dhexchange-random_key :
    (d0 d1 d2 d3 d4 d5 d6 d7 : ℕ)
    → (public : List ℕ) × (dhexchange (random_key (d0 ∷ d1 ∷ d2 ∷ d3 ∷ d4 ∷ d5 ∷ d6 ∷ d7 ∷ []))
        ≡ key public)
dhexchange-random_key d0 d1 d2 d3 d4 d5 d6 d7 =
    let (n, (e, (ne, lt))) = random_key-positive d0 d1 d2 d3 d4 d5 d6 d7 in
    (_, public_key (random_key (d0 ∷ d1 ∷ d2 ∷ d3 ∷ d4 ∷ d5 ∷ d6 ∷ d7 ∷ [])) n lt e ne)
