-- ===== src/Crypt/Des/Text.antt =====
-- `ldesencode` and `ldesdecode`: texts padded with 0x80 and zeros to whole blocks.
use ddzproject.Prelude.{
  ℕ, zero, suc, ◌%◌, ◌^◌, leb, List, [], ◌∷◌, ◌++◌, ◌==◌, if◌then◌else◌, length, take, replicate,
}
use mathlib.Core.List.{reverse}
use ddzproject.Crypt.Des.Schedule.{des_main_ks}
use ddzproject.Crypt.Des.Block.{des_crypt}

-- What `ldesencode` and `ldesdecode` push, their errors, a read of the byte before the buffer, and a
-- text of 2^31 bytes or more, whose size the `int` index of the loops does not hold.
pub data DesResult : Type 0 where
  pushed : List ℕ → DesResult
  invalid_key_size : DesResult
  invalid_length : DesResult
  invalid_text : DesResult
  reads_before_buffer : DesResult
  beyond_int : DesResult

-- The blocks of a text, the last one with its padding.
unfoldable pub encode_blocks : List (ℕ × ℕ) → List ℕ → List ℕ
encode_blocks sk (b0 ∷ b1 ∷ b2 ∷ b3 ∷ b4 ∷ b5 ∷ b6 ∷ b7 ∷ text) =
    des_crypt sk (b0 ∷ b1 ∷ b2 ∷ b3 ∷ b4 ∷ b5 ∷ b6 ∷ b7 ∷ []) ++ encode_blocks sk text
encode_blocks sk text = des_crypt sk (take 8 (text ++ 0x80 ∷ replicate 8 0))

unfoldable pub decode_blocks : List (ℕ × ℕ) → List ℕ → List ℕ
decode_blocks sk (b0 ∷ b1 ∷ b2 ∷ b3 ∷ b4 ∷ b5 ∷ b6 ∷ b7 ∷ text) =
    des_crypt sk (b0 ∷ b1 ∷ b2 ∷ b3 ∷ b4 ∷ b5 ∷ b6 ∷ b7 ∷ []) ++ decode_blocks sk text
decode_blocks sk text = []

-- The loop over the padding, from the last byte of the buffer down; the buffer is in reverse, and
-- `left` bytes are to be looked at. It compares a signed index with `textsz - 8`, which is 0 for a
-- text of one block, and then no index ends it.
unfoldable pub strip_padding : ℕ → List ℕ → DesResult
strip_padding left [] = reads_before_buffer
strip_padding zero (b ∷ rest) = invalid_text
strip_padding (suc left) (b ∷ rest) =
    let more = strip_padding left rest in
    if b == 0 then more else if b == 0x80 then pushed (reverse rest) else invalid_text

unfoldable pub desencode : List ℕ → List ℕ → DesResult
desencode key text =
    if length key == 8
    then (if leb (2 ^ 31) (length text)
        then beyond_int
        else pushed (encode_blocks (des_main_ks key) text))
    else invalid_key_size

-- The pairs of subkeys are taken in reverse.
unfoldable pub desdecode : List ℕ → List ℕ → DesResult
desdecode key text =
    if length key == 8
    then (if length text % 8 == 0
        then (if length text == 0
            then invalid_length
            else if leb (2 ^ 31) (length text)
            then beyond_int
            else strip_padding 8 (reverse (decode_blocks (reverse (des_main_ks key)) text)))
        else invalid_length)
    else invalid_key_size
