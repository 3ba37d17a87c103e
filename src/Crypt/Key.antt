-- ===== src/Crypt/Key.antt =====
-- `push64` and the reading of the keys in `read64`, `ldhexchange` and `ldhsecret`: a number of 64 bits
-- as eight bytes, the lowest first.
use ddzproject.Prelude.{
  ℕ, ◌+◌, ◌*◌, ◌/◌, ◌%◌, ◌^◌, ◌<◌, ◌≡◌, refl, ap, ◌∙◌, List, [], ◌∷◌, arith, All, bit_and, bit_or,
  Option, none, some,
}
use ddzproject.Prelude.Bits.{bit_and_mask, bit_or_low}

pub push64 : ℕ → List ℕ
push64 r =
    bit_and r 0xff
    ∷ bit_and (r / 2 ^ 8) 0xff
    ∷ bit_and (r / 2 ^ 16) 0xff
    ∷ bit_and (r / 2 ^ 24) 0xff
    ∷ bit_and (r / 2 ^ 32) 0xff
    ∷ bit_and (r / 2 ^ 40) 0xff
    ∷ bit_and (r / 2 ^ 48) 0xff
    ∷ bit_and (r / 2 ^ 56) 0xff
    ∷ []

-- A word of 32 bits.
unfoldable pub word : ℕ → ℕ → ℕ → ℕ → ℕ
word x0 x1 x2 x3 = bit_or (bit_or (bit_or x0 (x1 * 2 ^ 8)) (x2 * 2 ^ 16)) (x3 * 2 ^ 24)

-- `none` is the error of a string that is not of eight bytes.
unfoldable pub read_key : List ℕ → Option ℕ
read_key (x0 ∷ x1 ∷ x2 ∷ x3 ∷ x4 ∷ x5 ∷ x6 ∷ x7 ∷ []) =
    some (bit_or (word x0 x1 x2 x3) (word x4 x5 x6 x7 * 2 ^ 32))
read_key _ = none

pub word_lem :
    (x0 x1 x2 x3 : ℕ)
    → x0 < 256
    → x1 < 256
    → x2 < 256
    → x3 < 256
    → word x0 x1 x2 x3 ≡ x0 + x1 * 2 ^ 8 + x2 * 2 ^ 16 + x3 * 2 ^ 24
unfolding word
word_lem x0 x1 x2 x3 h0 h1 h2 h3 =
    rw
      (
        bit_or_low 8 x1 x0 h0,
        bit_or_low 16 x2 (x0 + x1 * 2 ^ 8) (omega arith),
        bit_or_low 24 x3 (x0 + x1 * 2 ^ 8 + x2 * 2 ^ 16) (omega arith),
      )
      refl

byte_lt : (r : ℕ) → bit_and r 0xff < 256
byte_lt r = omega (arith, bit_and_mask 8 r)

-- The bytes of a number, of either half, make up the number.
pub word_of :
    (r a b c : ℕ)
    → word (bit_and r 0xff) (bit_and a 0xff) (bit_and b 0xff) (bit_and c 0xff)
      ≡ r % 256 + a % 256 * 2 ^ 8 + b % 256 * 2 ^ 16 + c % 256 * 2 ^ 24
word_of r a b c =
    word_lem _ _ _ _ (byte_lt r) (byte_lt a) (byte_lt b) (byte_lt c)
    ∙ rw (bit_and_mask 8 r, bit_and_mask 8 a, bit_and_mask 8 b, bit_and_mask 8 c) refl

join_words : (lo hi n : ℕ) → lo < 2 ^ 32 → lo + hi * 2 ^ 32 ≡ n → bit_or lo (hi * 2 ^ 32) ≡ n
join_words lo hi n h e = bit_or_low 32 hi lo h ∙ e

-- A key that was pushed is read back.
pub read_key-push64 : (r : ℕ) → r < 2 ^ 64 → read_key (push64 r) ≡ some r
unfolding read_key push64
read_key-push64 r h = ap some (
    join_words _ _ r (omega (arith, word_of r (r / 2 ^ 8) (r / 2 ^ 16) (r / 2 ^ 24))) (
      omega (
        arith,
        word_of r (r / 2 ^ 8) (r / 2 ^ 16) (r / 2 ^ 24),
        word_of (r / 2 ^ 32) (r / 2 ^ 40) (r / 2 ^ 48) (r / 2 ^ 56),
      )))

pub read_key-lt : (x : List ℕ) (n : ℕ) → All (λ b. b < 256) x → read_key x ≡ some n → n < 2 ^ 64
unfolding read_key
read_key-lt (x0 ∷ x1 ∷ x2 ∷ x3 ∷ x4 ∷ x5 ∷ x6 ∷ x7 ∷ []) n h e = ground (
  arith,
  low,
  word_lem x4 x5 x6 x7 h.1.1.1.1.0 h.1.1.1.1.1.0 h.1.1.1.1.1.1.0 h.1.1.1.1.1.1.1.0,
  bit_or_low 32 (word x4 x5 x6 x7) (word x0 x1 x2 x3) (omega (arith, low)),
)
  where
    low : word x0 x1 x2 x3 ≡ x0 + x1 * 2 ^ 8 + x2 * 2 ^ 16 + x3 * 2 ^ 24
    low = word_lem x0 x1 x2 x3 h.0 h.1.0 h.1.1.0 h.1.1.1.0
read_key-lt _ n h e = cc
