-- ===== src/Crypt/Base64/Decode.antt =====
-- What `lb64decode` makes of what `lb64encode` gives, and that its fuel is enough.
use ddzproject.Prelude.{
  ℕ, zero, suc, ◌+◌, ◌*◌, ◌/◌, ◌%◌, ◌^◌, ◌≤◌, ◌<◌, ◌≡◌, refl, ap, ap₂, ◌∙◌, Bool, true, false, List,
  [], ◌∷◌, ◌==◌, length, bit_and, bit_or, some, arith, All, ==_iff, lt→leb,
}
use ddzproject.Prelude.Bits.{bit_and_mask, bit_or_fields}
use ddzproject.Prelude.Range.{check_below, checked}
use ddzproject.Crypt.Hex.{decoded}
use ddzproject.Crypt.Base64.{
  b64encode, encode_text, b64index, Index, skipped, padding, digit, letter, read_indices,
  cons_index, quad_bytes, append_bytes, decode_quad, decode_loop, b64decode, equals_sign,
}

abbrev is_digit : Index → ℕ → Bool
is_digit (digit n) m = n == m
is_digit skipped m = false
is_digit padding m = false

is_digit-eq : (i : Index) (m : ℕ) → is_digit i m ≡ true → i ≡ digit m
is_digit-eq (digit n) m h = ap digit ((==_iff n m).0 h)
is_digit-eq skipped m h = cc
is_digit-eq padding m h = cc

letters : check_below (λ n. is_digit (b64index (letter n)) n) 64 ≡ true
unfolding check_below b64index
letters = refl

b64index-letter : (n : ℕ) → n < 64 → b64index (letter n) ≡ digit n
b64index-letter n h = is_digit-eq (b64index (letter n)) n (checked _ 64 n letters h)

b64index_padding : b64index equals_sign ≡ padding
unfolding b64index
b64index_padding = refl

read_digit :
    (k c n : ℕ) (text : List ℕ)
    → b64index c ≡ digit n
    → read_indices (suc k) (c ∷ text) ≡ cons_index (digit n) (read_indices k text)
unfolding read_indices
read_digit k c n text e = rw (e, read_indices) refl

read_padding :
    (k c : ℕ) (text : List ℕ)
    → b64index c ≡ padding
    → read_indices (suc k) (c ∷ text) ≡ cons_index padding (read_indices k text)
unfolding read_indices
read_padding k c text e = rw (e, read_indices) refl

read_none : (text : List ℕ) → read_indices 0 text ≡ some ([], text)
unfolding read_indices
read_none text = refl

module _ (n m : ℕ) (hn : n < 64) (hm : m < 64) where
  read_two :
      (text : List ℕ)
      → read_indices 4 (letter n ∷ letter m ∷ equals_sign ∷ equals_sign ∷ text)
        ≡ some (digit n ∷ digit m ∷ padding ∷ padding ∷ [], text)
  read_two text =
      rw
        (
          read_digit 3 (letter n) n (letter m ∷ equals_sign ∷ equals_sign ∷ text)
              (b64index-letter n hn),
          read_digit 2 (letter m) m (equals_sign ∷ equals_sign ∷ text) (b64index-letter m hm),
          read_padding 1 equals_sign (equals_sign ∷ text) b64index_padding,
          read_padding 0 equals_sign text b64index_padding,
          read_none text,
        )
        refl

  module _ (k : ℕ) (hk : k < 64) where
    read_three :
        (text : List ℕ)
        → read_indices 4 (letter n ∷ letter m ∷ letter k ∷ equals_sign ∷ text)
          ≡ some (digit n ∷ digit m ∷ digit k ∷ padding ∷ [], text)
    read_three text =
        rw
          (
            read_digit 3 (letter n) n (letter m ∷ letter k ∷ equals_sign ∷ text)
                (b64index-letter n hn),
            read_digit 2 (letter m) m (letter k ∷ equals_sign ∷ text) (b64index-letter m hm),
            read_digit 1 (letter k) k (equals_sign ∷ text) (b64index-letter k hk),
            read_padding 0 equals_sign text b64index_padding,
            read_none text,
          )
          refl

    read_four :
        (j : ℕ) (text : List ℕ)
        → j < 64
        → read_indices 4 (letter n ∷ letter m ∷ letter k ∷ letter j ∷ text)
          ≡ some (digit n ∷ digit m ∷ digit k ∷ digit j ∷ [], text)
    read_four j text hj =
        rw
          (
            read_digit 3 (letter n) n (letter m ∷ letter k ∷ letter j ∷ text)
                (b64index-letter n hn),
            read_digit 2 (letter m) m (letter k ∷ letter j ∷ text) (b64index-letter m hm),
            read_digit 1 (letter k) k (letter j ∷ text) (b64index-letter k hk),
            read_digit 0 (letter j) j text (b64index-letter j hj),
            read_none text,
          )
          refl

decode_step :
    (fuel c : ℕ) (text rest : List ℕ) (is : List Index)
    → read_indices 4 (c ∷ text) ≡ some (is, rest)
    → decode_loop (suc fuel) (c ∷ text) ≡ decode_quad is (decode_loop fuel rest)
unfolding decode_loop
decode_step fuel c text rest is e = rw (e, decode_loop) refl

-- What the four letters of a 24-bit value spell is the value.
spelled :
    (v : ℕ)
    → v < 2 ^ 24
    → bit_or
        (bit_or (bit_or (v / 2 ^ 18 * 2 ^ 18) (v / 2 ^ 12 % 64 * 2 ^ 12)) (v / 2 ^ 6 % 64 * 2 ^ 6))
        (v % 64)
      ≡ v
spelled v h =
    rw
      (
        bit_or_fields 18 (v / 2 ^ 18) (v / 2 ^ 12 % 64 * 2 ^ 12) (omega arith),
        upper,
        bit_or_fields 12 (v / 2 ^ 12) (v / 2 ^ 6 % 64 * 2 ^ 6) (omega arith),
        middle,
        bit_or_fields 6 (v / 2 ^ 6) (v % 64) (omega arith),
      )
      (omega arith)
  where
    upper : v / 2 ^ 18 * 2 ^ 18 + v / 2 ^ 12 % 64 * 2 ^ 12 ≡ v / 2 ^ 12 * 2 ^ 12
    upper = omega arith

    middle : v / 2 ^ 12 * 2 ^ 12 + v / 2 ^ 6 % 64 * 2 ^ 6 ≡ v / 2 ^ 6 * 2 ^ 6
    middle = omega arith

value_three :
    (a b c : ℕ)
    → b < 256
    → c < 256
    → bit_or (bit_or (a * 2 ^ 16) (b * 2 ^ 8)) c ≡ a * 2 ^ 16 + b * 2 ^ 8 + c
value_three a b c hb hc =
    rw (bit_or_fields 16 a (b * 2 ^ 8) (omega arith), regroup, bit_or_fields 8 (a * 2 ^ 8 + b) c hc)
      (omega arith)
  where
    regroup : a * 2 ^ 16 + b * 2 ^ 8 ≡ (a * 2 ^ 8 + b) * 2 ^ 8
    regroup = omega arith

quad_four :
    (v : ℕ)
    → v < 2 ^ 24
    → quad_bytes
        (digit (v / 2 ^ 18))
        (digit (v / 2 ^ 12 % 64))
        (digit (v / 2 ^ 6 % 64))
        (digit (v % 64))
      ≡ some (v / 2 ^ 16 ∷ v / 2 ^ 8 % 256 ∷ v % 256 ∷ [])
unfolding quad_bytes
quad_four v h =
    rw (spelled v h, bit_and_mask 8 (v / 2 ^ 8), bit_and_mask 8 v)
      (ap (λ x. some (x ∷ v / 2 ^ 8 % 256 ∷ v % 256 ∷ [])) (omega arith))

quad_one_padding :
    (v : ℕ)
    → v < 2 ^ 16
    → quad_bytes (digit (v / 2 ^ 10)) (digit (v / 2 ^ 4 % 64)) (digit (v % 16 * 2 ^ 2)) padding
      ≡ some (v / 2 ^ 8 ∷ v % 256 ∷ [])
unfolding quad_bytes
quad_one_padding v h = ground (
  arith,
  bit_and_mask 2 (v % 16 * 2 ^ 2),
  bit_or_fields 10 (v / 2 ^ 10) (v / 2 ^ 4 % 64 * 2 ^ 4),
  bit_or_fields 4 (v / 2 ^ 4) (v % 16),
  bit_and_mask 8 v,
)

quad_two_paddings :
    (a : ℕ)
    → a < 256
    → quad_bytes (digit (a / 2 ^ 2)) (digit (a % 4 * 2 ^ 4)) padding padding ≡ some (a ∷ [])
unfolding quad_bytes
quad_two_paddings a h =
    ground (arith, bit_and_mask 4 (a % 4 * 2 ^ 4), bit_or_fields 2 (a / 2 ^ 2) (a % 4))

decode_nil : (fuel : ℕ) → decode_loop (suc fuel) [] ≡ some (decoded [])
unfolding decode_loop
decode_nil fuel = refl

four_letters :
    (fuel v : ℕ) (text : List ℕ)
    → v < 2 ^ 24
    → decode_loop (suc fuel) (
        letter (v / 2 ^ 18)
        ∷ letter (bit_and (v / 2 ^ 12) 0x3f)
        ∷ letter (bit_and (v / 2 ^ 6) 0x3f)
        ∷ letter (bit_and v 0x3f)
        ∷ text)
      ≡ append_bytes (some (v / 2 ^ 16 ∷ v / 2 ^ 8 % 256 ∷ v % 256 ∷ [])) (decode_loop fuel text)
four_letters fuel v text h =
    rw (bit_and_mask 6 (v / 2 ^ 12), bit_and_mask 6 (v / 2 ^ 6), bit_and_mask 6 v)
      (decode_step fuel _ _ text _ (
          read_four (v / 2 ^ 18) (v / 2 ^ 12 % 64) (omega arith) (omega arith) (v / 2 ^ 6 % 64)
            (omega arith) (v % 64) text (omega arith))
        ∙ ap (λ q. append_bytes q (decode_loop fuel text)) (quad_four v h))

three_letters :
    (fuel v : ℕ)
    → v < 2 ^ 16
    → decode_loop (suc (suc fuel)) (
        letter (v / 2 ^ 10)
        ∷ letter (bit_and (v / 2 ^ 4) 0x3f)
        ∷ letter (bit_and v 0xf * 2 ^ 2)
        ∷ equals_sign
        ∷ [])
      ≡ some (decoded (v / 2 ^ 8 ∷ v % 256 ∷ []))
three_letters fuel v h =
    rw (bit_and_mask 6 (v / 2 ^ 4), bit_and_mask 4 v)
      (decode_step (suc fuel) _ _ [] _ (
          read_three (v / 2 ^ 10) (v / 2 ^ 4 % 64) (omega arith) (omega arith) (v % 16 * 2 ^ 2)
            (omega arith) [])
        ∙ ap₂ append_bytes (quad_one_padding v h) (decode_nil fuel))

two_letters :
    (fuel a : ℕ)
    → a < 256
    → decode_loop
        (suc (suc fuel))
        (letter (a / 2 ^ 2) ∷ letter (bit_and a 3 * 2 ^ 4) ∷ equals_sign ∷ equals_sign ∷ [])
      ≡ some (decoded (a ∷ []))
two_letters fuel a h = rw (bit_and_mask 2 a) (
    decode_step (suc fuel) _ _ [] _
      (read_two (a / 2 ^ 2) (a % 4 * 2 ^ 4) (omega arith) (omega arith) [])
    ∙ ap₂ append_bytes (quad_two_paddings a h) (decode_nil fuel))

decode-encode :
    (bs : List ℕ) (fuel : ℕ)
    → All (λ b. b < 256) bs
    → length bs < fuel
    → decode_loop fuel (encode_text bs) ≡ some (decoded bs)
unfolding encode_text
decode-encode bs zero h lt = absurd (omega arith)
decode-encode [] (suc fuel) h lt = decode_nil fuel
decode-encode (a ∷ []) (suc zero) h lt = absurd (omega arith)
decode-encode (a ∷ []) (suc (suc fuel)) h lt = two_letters fuel a h.0
decode-encode (a ∷ b ∷ []) (suc zero) h lt = absurd (omega arith)
decode-encode (a ∷ b ∷ []) (suc (suc fuel)) h lt =
    let v : bit_or (a * 2 ^ 8) b ≡ a * 2 ^ 8 + b = bit_or_fields 8 a b h.1.0 in
    rw v (
      three_letters fuel (a * 2 ^ 8 + b) (omega (arith, h.0, h.1.0))
      ∙ ap₂ (λ x y. some (decoded (x ∷ y ∷ []))) (omega (arith, h.1.0)) (omega (arith, h.1.0)))
decode-encode (a ∷ b ∷ c ∷ text) (suc fuel) h lt = rw (value_three a b c h.1.0 h.1.1.0) (
    four_letters fuel (a * 2 ^ 16 + b * 2 ^ 8 + c) (encode_text text)
      (omega (arith, h.0, h.1.0, h.1.1.0))
    ∙ ap₂ append_bytes
        (bytes (omega (arith, h.1.0, h.1.1.0)) (omega (arith, h.1.0, h.1.1.0))
          (omega (arith, h.1.1.0)))
        (decode-encode text fuel h.1.1.1 (omega (arith, lt))))
  where
    bytes : {x y z : ℕ} → x ≡ a → y ≡ b → z ≡ c → some (x ∷ y ∷ z ∷ []) ≡ some (a ∷ b ∷ c ∷ [])
    bytes e f g = cc

length-encode_text : (bs : List ℕ) → length bs ≤ length (encode_text bs)
unfolding encode_text
length-encode_text [] = omega arith
length-encode_text (a ∷ []) = omega arith
length-encode_text (a ∷ b ∷ []) = omega arith
length-encode_text (a ∷ b ∷ c ∷ text) = omega (arith, length-encode_text text)

-- A text of bytes whose code is below 2^31 characters is encoded, and decoding that gives the text back,
-- for every length and padding.
pub b64decode-b64encode :
    (bs : List ℕ)
    → All (λ b. b < 256) bs
    → (length bs + 2) / 3 * 4 < 2 ^ 31
    → (text : List ℕ) × ((b64encode bs ≡ some text) × (b64decode text ≡ some (decoded bs)))
unfolding b64encode b64decode
b64decode-b64encode bs h small = (
  encode_text bs,
  (
    rw (lt→leb (2 ^ 31) ((length bs + 2) / 3 * 4) small) refl,
    decode-encode bs (suc (length (encode_text bs))) h (omega (arith, length-encode_text bs)),
  ),
)
