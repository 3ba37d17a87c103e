-- ===== src/Crypt/Base64.antt =====
-- `lb64encode`, `b64index` and `lb64decode`.
pub mod Decode
pub mod Fuel
use ddzproject.Prelude.{
  ℕ, zero, suc, ◌+◌, ◌-◌, ◌*◌, ◌/◌, ◌%◌, ◌^◌, ◌≤◌, ◌<◌, ◌≡◌, ◌≢◌, refl, Bool, true, false, ◌&&◌,
  ◌||◌, List, [], ◌∷◌, ◌++◌, ltb, leb, ◌==◌, if◌then◌else◌, length, get_or, bit_and, bit_or, Option,
  none, some,
}
use Prim.Native.Char.{Char, code}
use Prim.Native.String.{String}
use ddzproject.Crypt.Hex.{Decoded, decoded, invalid}

-- The code points of a text.
abbrev pub codes : String → List ℕ
codes String.[] = []
codes (String.◌∷◌ c s) = code c ∷ codes s

abbrev pub encoding : List ℕ
encoding = codes "ABCDEFGHIJKLMNOPQRSTUVWXYZabcdefghijklmnopqrstuvwxyz0123456789+/"

abbrev pub letter : ℕ → ℕ
letter n = get_or encoding n 0

abbrev pub equals_sign : ℕ
equals_sign = b'='

-- The loop over three bytes at a time, and the switch on how many are left.
unfoldable pub encode_text : List ℕ → List ℕ
encode_text [] = []
encode_text (a ∷ []) =
    letter (a / 2 ^ 2) ∷ letter (bit_and a 3 * 2 ^ 4) ∷ equals_sign ∷ equals_sign ∷ []
encode_text (a ∷ b ∷ []) =
    let v = bit_or (a * 2 ^ 8) b in
    letter (v / 2 ^ 10)
    ∷ letter (bit_and (v / 2 ^ 4) 0x3f)
    ∷ letter (bit_and v 0xf * 2 ^ 2)
    ∷ equals_sign
    ∷ []
encode_text (a ∷ b ∷ c ∷ text) =
    let v = bit_or (bit_or (a * 2 ^ 16) (b * 2 ^ 8)) c in
    letter (v / 2 ^ 18)
    ∷ letter (bit_and (v / 2 ^ 12) 0x3f)
    ∷ letter (bit_and (v / 2 ^ 6) 0x3f)
    ∷ letter (bit_and v 0x3f)
    ∷ encode_text text

-- `lb64encode`. `none` is a text whose `encode_sz` does not fit the `int`: what is written of it leaves the
-- buffer.
unfoldable pub b64encode : List ℕ → Option (List ℕ)
b64encode text = if leb (2 ^ 31) ((length text + 2) / 3 * 4) then none else some (encode_text text)

-- A value of `b64index`: -1, -2, or a digit.
pub data Index : Type 0 where
  skipped : Index
  padding : Index
  digit : ℕ → Index

-- The table from '+' on.
abbrev pub decoding : List Index
decoding =
    digit 62
    ∷ skipped
    ∷ skipped
    ∷ skipped
    ∷ digit 63
    ∷ digit 52
    ∷ digit 53
    ∷ digit 54
    ∷ digit 55
    ∷ digit 56
    ∷ digit 57
    ∷ digit 58
    ∷ digit 59
    ∷ digit 60
    ∷ digit 61
    ∷ skipped
    ∷ skipped
    ∷ skipped
    ∷ padding
    ∷ skipped
    ∷ skipped
    ∷ skipped
    ∷ digit 0
    ∷ digit 1
    ∷ digit 2
    ∷ digit 3
    ∷ digit 4
    ∷ digit 5
    ∷ digit 6
    ∷ digit 7
    ∷ digit 8
    ∷ digit 9
    ∷ digit 10
    ∷ digit 11
    ∷ digit 12
    ∷ digit 13
    ∷ digit 14
    ∷ digit 15
    ∷ digit 16
    ∷ digit 17
    ∷ digit 18
    ∷ digit 19
    ∷ digit 20
    ∷ digit 21
    ∷ digit 22
    ∷ digit 23
    ∷ digit 24
    ∷ digit 25
    ∷ skipped
    ∷ skipped
    ∷ skipped
    ∷ skipped
    ∷ skipped
    ∷ skipped
    ∷ digit 26
    ∷ digit 27
    ∷ digit 28
    ∷ digit 29
    ∷ digit 30
    ∷ digit 31
    ∷ digit 32
    ∷ digit 33
    ∷ digit 34
    ∷ digit 35
    ∷ digit 36
    ∷ digit 37
    ∷ digit 38
    ∷ digit 39
    ∷ digit 40
    ∷ digit 41
    ∷ digit 42
    ∷ digit 43
    ∷ digit 44
    ∷ digit 45
    ∷ digit 46
    ∷ digit 47
    ∷ digit 48
    ∷ digit 49
    ∷ digit 50
    ∷ digit 51
    ∷ []

pub b64index : ℕ → Index
b64index c =
    if ltb c 43
    then skipped
    else if leb (length decoding) (c - 43)
    then skipped
    else get_or decoding (c - 43) skipped

abbrev pub cons_index : Index → Option (List Index × List ℕ) → Option (List Index × List ℕ)
cons_index i none = none
cons_index i (some (is, text)) = some (i ∷ is, text)

-- The inner loop: `n` indices that are not -1, and the text behind them; `none` at the text's end.
pub read_indices : ℕ → List ℕ → Option (List Index × List ℕ)
read_indices zero text = some ([], text)
read_indices (suc n) [] = none
read_indices (suc n) (c ∷ text) = elim (b64index c) [
  | skipped ↦ read_indices (suc n) text
  | padding ↦ cons_index padding (read_indices n text)
  | digit v ↦ cons_index (digit v) (read_indices n text)
]

-- The bytes of four indices, by the number of paddings among them.
pub quad_bytes : Index → Index → Index → Index → Option (List ℕ)
quad_bytes (digit a) (digit b) (digit c) (digit d) =
    let v = bit_or (bit_or (bit_or (a * 2 ^ 18) (b * 2 ^ 12)) (c * 2 ^ 6)) d in
    some (v / 2 ^ 16 % 256 ∷ bit_and (v / 2 ^ 8) 0xff ∷ bit_and v 0xff ∷ [])
quad_bytes (digit a) (digit b) (digit c) padding =
    let v = bit_or (bit_or (a * 2 ^ 10) (b * 2 ^ 4)) (c / 2 ^ 2) in
    if bit_and c 3 == 0 then some (v / 2 ^ 8 % 256 ∷ bit_and v 0xff ∷ []) else none
quad_bytes (digit a) (digit b) padding padding =
    let v = bit_or (a * 2 ^ 2) (b / 2 ^ 4) in
    if bit_and b 0xf == 0 then some (v % 256 ∷ []) else none
quad_bytes _ _ _ _ = none

abbrev pub append_bytes : Option (List ℕ) → Option Decoded → Option Decoded
append_bytes none r = some invalid
append_bytes (some bs) none = none
append_bytes (some bs) (some invalid) = some invalid
append_bytes (some bs) (some (decoded rest)) = some (decoded (bs ++ rest))

abbrev pub decode_quad : List Index → Option Decoded → Option Decoded
decode_quad (a ∷ b ∷ c ∷ d ∷ []) rest = append_bytes (quad_bytes a b c d) rest
decode_quad _ rest = some invalid

-- The outer loop, with fuel; `none` is the lack of it. The index is an `int`, so texts are below 2^31
-- characters.
pub decode_loop : ℕ → List ℕ → Option Decoded
decode_loop zero text = none
decode_loop (suc fuel) [] = some (decoded [])
decode_loop (suc fuel) (c ∷ text) = elim (read_indices 4 (c ∷ text)) [
  | none ↦ some invalid
  | some (is, rest) ↦ decode_quad is (decode_loop fuel rest)
]

pub b64decode : List ℕ → Option Decoded
b64decode text = decode_loop (suc (length text)) text
