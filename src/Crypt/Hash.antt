-- ===== src/Crypt/Hash.antt =====
-- `Hash`, `hmac` and `lxor_str`, with the functions of Lua that call them. A word of `uint32_t` has its wrap
-- written out; `~b` is `0xffff_ffff - b`.
use ddzproject.Prelude.{
  ℕ, zero, suc, ◌+◌, ◌-◌, ◌*◌, ◌/◌, ◌%◌, ◌^◌, List, [], ◌∷◌, Option, none, some, get_or, length,
  bit_and, bit_or, bit_xor, ltb, ◌==◌, if◌then◌else◌,
}
use ddzproject.Crypt.Key.{word}

infixl 5 ◌>>=◌
abbrev pub ◌>>=◌ : {A B : Type 0} → Option A → (A → Option B) → Option B
none >>= f = none
some a >>= f = f a

-- One byte, in the two sums of `Hash`.
abbrev pub hash_step : ℕ × ℕ → ℕ → ℕ × ℕ
hash_step (djb, js) c =
    ((djb + (djb * 2 ^ 5 + c)) % 2 ^ 32, bit_xor js ((js * 2 ^ 5 + c + js / 2 ^ 2) % 2 ^ 32))

unfoldable pub hash_loop : List ℕ → ℕ × ℕ → ℕ × ℕ
hash_loop [] sums = sums
hash_loop (c ∷ text) sums = hash_loop text (hash_step sums c)

-- The two words of `Hash`, of a text below 2^31 bytes, since its size is an `int`.
unfoldable pub hash_words : List ℕ → ℕ × ℕ
hash_words text = hash_loop text (5381, 1315423911)

-- `pushqword`, and the end of `Hash`: two words as eight bytes, the lowest first.
unfoldable pub qword_bytes : ℕ × ℕ → List ℕ
qword_bytes (r0, r1) =
    bit_and r0 0xff
    ∷ bit_and (r0 / 2 ^ 8) 0xff
    ∷ bit_and (r0 / 2 ^ 16) 0xff
    ∷ bit_and (r0 / 2 ^ 24) 0xff
    ∷ bit_and r1 0xff
    ∷ bit_and (r1 / 2 ^ 8) 0xff
    ∷ bit_and (r1 / 2 ^ 16) 0xff
    ∷ bit_and (r1 / 2 ^ 24) 0xff
    ∷ []

-- `lhashkey`.
unfoldable pub hash_key : List ℕ → List ℕ
hash_key text = qword_bytes (hash_words text)

-- `none` is the error of a string that is not of eight bytes.
unfoldable pub read_words : List ℕ → Option (ℕ × ℕ)
read_words (x0 ∷ x1 ∷ x2 ∷ x3 ∷ x4 ∷ x5 ∷ x6 ∷ x7 ∷ []) = some (word x0 x1 x2 x3, word x4 x5 x6 x7)
read_words _ = none

-- The constants `k` and the shifts `r`.
abbrev pub sines : List ℕ
sines =
    0xd76a_a478 ∷ 0xe8c7_b756 ∷ 0x2420_70db ∷ 0xc1bd_ceee ∷ 0xf57c_0faf ∷ 0x4787_c62a ∷ 0xa830_4613
    ∷ 0xfd46_9501 ∷ 0x6980_98d8 ∷ 0x8b44_f7af ∷ 0xffff_5bb1 ∷ 0x895c_d7be ∷ 0x6b90_1122
    ∷ 0xfd98_7193 ∷ 0xa679_438e ∷ 0x49b4_0821 ∷ 0xf61e_2562 ∷ 0xc040_b340 ∷ 0x265e_5a51
    ∷ 0xe9b6_c7aa ∷ 0xd62f_105d ∷ 0x0244_1453 ∷ 0xd8a1_e681 ∷ 0xe7d3_fbc8 ∷ 0x21e1_cde6
    ∷ 0xc337_07d6 ∷ 0xf4d5_0d87 ∷ 0x455a_14ed ∷ 0xa9e3_e905 ∷ 0xfcef_a3f8 ∷ 0x676f_02d9
    ∷ 0x8d2a_4c8a ∷ 0xfffa_3942 ∷ 0x8771_f681 ∷ 0x6d9d_6122 ∷ 0xfde5_380c ∷ 0xa4be_ea44
    ∷ 0x4bde_cfa9 ∷ 0xf6bb_4b60 ∷ 0xbebf_bc70 ∷ 0x289b_7ec6 ∷ 0xeaa1_27fa ∷ 0xd4ef_3085
    ∷ 0x0488_1d05 ∷ 0xd9d4_d039 ∷ 0xe6db_99e5 ∷ 0x1fa2_7cf8 ∷ 0xc4ac_5665 ∷ 0xf429_2244
    ∷ 0x432a_ff97 ∷ 0xab94_23a7 ∷ 0xfc93_a039 ∷ 0x655b_59c3 ∷ 0x8f0c_cc92 ∷ 0xffef_f47d
    ∷ 0x8584_5dd1 ∷ 0x6fa8_7e4f ∷ 0xfe2c_e6e0 ∷ 0xa301_4314 ∷ 0x4e08_11a1 ∷ 0xf753_7e82
    ∷ 0xbd3a_f235 ∷ 0x2ad7_d2bb ∷ 0xeb86_d391 ∷ []

abbrev pub shifts : List ℕ
shifts =
    7 ∷ 12 ∷ 17 ∷ 22 ∷ 7 ∷ 12 ∷ 17 ∷ 22 ∷ 7 ∷ 12 ∷ 17 ∷ 22 ∷ 7 ∷ 12 ∷ 17 ∷ 22 ∷ 5 ∷ 9 ∷ 14 ∷ 20 ∷ 5
    ∷ 9 ∷ 14 ∷ 20 ∷ 5 ∷ 9 ∷ 14 ∷ 20 ∷ 5 ∷ 9 ∷ 14 ∷ 20 ∷ 4 ∷ 11 ∷ 16 ∷ 23 ∷ 4 ∷ 11 ∷ 16 ∷ 23 ∷ 4 ∷ 11
    ∷ 16 ∷ 23 ∷ 4 ∷ 11 ∷ 16 ∷ 23 ∷ 6 ∷ 10 ∷ 15 ∷ 21 ∷ 6 ∷ 10 ∷ 15 ∷ 21 ∷ 6 ∷ 10 ∷ 15 ∷ 21 ∷ 6 ∷ 10
    ∷ 15 ∷ 21 ∷ []

abbrev pub rotated : ℕ → ℕ → ℕ
rotated x c = bit_or (x * 2 ^ c % 2 ^ 32) (x / 2 ^ (32 - c))

pub record Digest : Type 0 where
  pub a : ℕ
  pub b : ℕ
  pub c : ℕ
  pub d : ℕ

-- The mix `f` of round `i`, and the index `g` of its input word.
abbrev pub mix : ℕ → Digest → ℕ × ℕ
mix i s =
    if ltb i 16
    then (bit_or (bit_and s.b s.c) (bit_and (0xffff_ffff - s.b) s.d), i)
    else if ltb i 32
    then (bit_or (bit_and s.d s.b) (bit_and (0xffff_ffff - s.d) s.c), (5 * i + 1) % 16)
    else if ltb i 48
    then (bit_xor (bit_xor s.b s.c) s.d, (3 * i + 5) % 16)
    else (bit_xor s.c (bit_or s.b (0xffff_ffff - s.d)), 7 * i % 16)

unfoldable pub hmac_round : List ℕ → ℕ → Digest → Digest
hmac_round w i s =
    let (f, g) = mix i s in
    record {
      a = s.d;
      b =
          (s.b + rotated ((s.a + f + get_or sines i 0 + get_or w g 0) % 2 ^ 32) (get_or shifts i 0))
          % 2 ^ 32;
      c = s.b;
      d = s.c;
    }

-- The rounds from `i` on, with `left` to go.
unfoldable pub hmac_rounds : List ℕ → ℕ → ℕ → Digest → Digest
hmac_rounds w zero i s = s
hmac_rounds w (suc left) i s = hmac_rounds w left (i + 1) (hmac_round w i s)

abbrev pub first_digest : Digest
first_digest = record { a = 0x6745_2301; b = 0xefcd_ab89; c = 0x98ba_dcfe; d = 0x1032_5476 }

-- The input words `w`.
abbrev pub input_words : ℕ × ℕ → ℕ × ℕ → List ℕ
input_words (x0, x1) (y0, y1) =
    x1 ∷ x0 ∷ y1 ∷ y0 ∷ x1 ∷ x0 ∷ y1 ∷ y0 ∷ x1 ∷ x0 ∷ y1 ∷ y0 ∷ x1 ∷ x0 ∷ y1 ∷ y0 ∷ []

unfoldable pub hmac : ℕ × ℕ → ℕ × ℕ → ℕ × ℕ
hmac x y =
    let s = hmac_rounds (input_words x y) 64 0 first_digest in (bit_xor s.c s.d, bit_xor s.a s.b)

-- `lhmac64`, with `read64`.
unfoldable pub hmac64 : List ℕ → List ℕ → Option (List ℕ)
hmac64 x y = do xx ← read_words x; yy ← read_words y; some (qword_bytes (hmac xx yy))

-- `lhmac_hash`; the bytes that `Hash` wrote are read as `htext`.
unfoldable pub hmac_hash : List ℕ → List ℕ → Option (List ℕ)
hmac_hash x text = do
  key ← read_words x
  htext ← read_words (hash_key text)
  some (qword_bytes (hmac htext key))

-- The bytes from index `i` on.
unfoldable pub xor_bytes : List ℕ → List ℕ → ℕ → List ℕ
xor_bytes [] key i = []
xor_bytes (b ∷ text) key i = bit_xor b (get_or key (i % length key) 0) ∷ xor_bytes text key (i + 1)

-- `lxor_str`, of texts below 2^31 bytes, since its index is an `int`; `none` is the error of an empty second string.
unfoldable pub xor_str : List ℕ → List ℕ → Option (List ℕ)
xor_str s1 s2 = if length s2 == 0 then none else some (xor_bytes s1 s2 0)
