-- ===== src/Crypt/Hex.antt =====
-- `ltohex` and `lfromhex`.
use ddzproject.Prelude.{
  ℕ, ◌+◌, ◌-◌, ◌*◌, ◌/◌, ◌%◌, ◌^◌, ◌≤◌, ◌<◌, ◌≡◌, ◌⊎◌, refl, ap, ◌∙◌, true, ◌&&◌, ◌||◌, List, [],
  ◌∷◌, ltb, leb, ◌==◌, if◌then◌else◌, arith, Bool-cases, inl, inr, All, length, get_or, bit_and,
  bit_or, ==_iff, le→ltb,
}
use ddzproject.Prelude.Bits.{bit_and_mask, bit_or_fields}
use ddzproject.Prelude.Range.{check_below, checked}

-- The bytes decoded, or a call of `luaL_error`.
pub data Decoded : Type 0 where
  decoded : List ℕ → Decoded
  invalid : Decoded

abbrev pub then_byte : ℕ → Decoded → Decoded
then_byte b (decoded bs) = decoded (b ∷ bs)
then_byte b invalid = invalid

abbrev pub hex_digits : List ℕ
hex_digits =
    b'0' ∷ b'1' ∷ b'2' ∷ b'3' ∷ b'4' ∷ b'5' ∷ b'6' ∷ b'7' ∷ b'8' ∷ b'9' ∷ b'a' ∷ b'b' ∷ b'c' ∷ b'd'
    ∷ b'e' ∷ b'f' ∷ []

unfoldable pub to_hex : List ℕ → List ℕ
to_hex [] = []
to_hex (b ∷ bs) = get_or hex_digits (b / 2 ^ 4) 0 ∷ get_or hex_digits (bit_and b 0xf) 0 ∷ to_hex bs

-- The macro `HEX`: what is not a decimal digit is taken for a letter, modulo 256.
unfoldable pub hex_value : ℕ → ℕ
hex_value c = if leb b'0' c && leb c b'9' then c - b'0' else (c + 256 - b'a' + 10) % 256

-- The loop, over the pairs that are left.
unfoldable pub from_pairs : List ℕ → Decoded
from_pairs [] = decoded []
from_pairs (c ∷ []) = invalid
from_pairs (c ∷ d ∷ text) =
    let rest = from_pairs text in
    if ltb 16 (hex_value c) || ltb 16 (hex_value d)
    then invalid
    else then_byte (bit_or (hex_value c * 2 ^ 4) (hex_value d) % 256) rest

unfoldable pub from_hex : List ℕ → Decoded
from_hex text = if length text % 2 == 1 then invalid else from_pairs text

nibble_table : check_below (λ n. hex_value (get_or hex_digits n 0) == n) 16 ≡ true
unfolding check_below hex_value
nibble_table = refl

nibble : (n : ℕ) → n < 16 → hex_value (get_or hex_digits n 0) ≡ n
nibble n h = (==_iff _ n).0 (checked _ 16 n nibble_table h)

from_pairs_step :
    (c d : ℕ) (text : List ℕ)
    → hex_value c < 16
    → hex_value d < 16
    → from_pairs (c ∷ d ∷ text) ≡ then_byte (hex_value c * 16 + hex_value d) (from_pairs text)
unfolding from_pairs
from_pairs_step c d text hc hd =
    rw
      (
        le→ltb 16 (hex_value c) (omega arith),
        le→ltb 16 (hex_value d) (omega arith),
        bit_or_fields 4 (hex_value c) (hex_value d) hd,
      )
      (ap (λ b. then_byte b (from_pairs text)) (omega arith))

length-to_hex : (bs : List ℕ) → length (to_hex bs) ≡ 2 * length bs
unfolding to_hex
length-to_hex [] = refl
length-to_hex (b ∷ bs) = omega (arith, length-to_hex bs)

from_pairs-to_hex : (bs : List ℕ) → All (λ b. b < 256) bs → from_pairs (to_hex bs) ≡ decoded bs
unfolding to_hex
from_pairs-to_hex [] h = unfold from_pairs in refl
from_pairs-to_hex (b ∷ bs) h =
    from_pairs_step (get_or hex_digits (b / 2 ^ 4) 0) (get_or hex_digits (bit_and b 0xf) 0)
      (to_hex bs) (omega (arith, hi)) (omega (arith, lo))
    ∙ (ap (then_byte _) (from_pairs-to_hex bs h.1)
        ∙ ap (λ x. decoded (x ∷ bs)) (omega (arith, hi, lo)))
  where
    hi : hex_value (get_or hex_digits (b / 2 ^ 4) 0) ≡ b / 16
    hi = nibble (b / 2 ^ 4) (omega (arith, h.0))

    lo : hex_value (get_or hex_digits (bit_and b 0xf) 0) ≡ b % 16
    lo = rw (bit_and_mask 4 b) (nibble (b % 16) (omega arith))

-- Decoding what was encoded gives the bytes back.
from_hex-to_hex : (bs : List ℕ) → All (λ b. b < 256) bs → from_hex (to_hex bs) ≡ decoded bs
unfolding from_hex
from_hex-to_hex bs h = elim (Bool-cases (length (to_hex bs) % 2 == 1)) [
  | inl odd ↦ absurd (omega (arith, length-to_hex bs, (==_iff (length (to_hex bs) % 2) 1).0 odd))
  | inr even ↦ rw even (from_pairs-to_hex bs h)
]

-- The digits that `lfromhex` takes: 0 to 9, and every byte from W to g.
abbrev pub IsTaken : ℕ → Type 0
IsTaken c = ((b'0' ≤ c) × (c ≤ b'9')) ⊎ ((b'W' ≤ c) × (c ≤ b'g'))
