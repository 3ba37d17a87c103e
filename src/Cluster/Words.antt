-- ===== src/Cluster/Words.antt =====
-- The words and the sizes in the packets of lua-cluster.c.
use ddzproject.Prelude.{
  ℕ, ◌+◌, ◌*◌, ◌/◌, ◌^◌, ◌<◌, ◌≡◌, refl, ◌∙◌, List, [], ◌∷◌, ◌++◌, drop, length, get_or, lt→ltb,
  bit_and, arith,
}
use ddzproject.Prelude.Bits.{bit_and_mask}
use ddzproject.Crypt.Key.{word, word_of}
use ddzproject.Cluster.{returned, fill_uint32, unpack_uint32, fill_header}

pub unpack_uint32-fill_uint32 :
    (n : ℕ) (rest : List ℕ) → n < 2 ^ 32 → unpack_uint32 (fill_uint32 n ++ rest) ≡ n
unfolding unpack_uint32 fill_uint32 word
unpack_uint32-fill_uint32 n rest lt = word_of n (n / 2 ^ 8) (n / 2 ^ 16) (n / 2 ^ 24) ∙ omega arith

unfoldable pub header_bytes : ℕ → List ℕ
header_bytes sz = bit_and (sz / 2 ^ 8) 0xff ∷ bit_and sz 0xff ∷ []

pub fill_header_lem : (sz : ℕ) → sz < 2 ^ 16 → fill_header sz ≡ returned (header_bytes sz)
unfolding fill_header header_bytes
fill_header_lem sz lt = rw (fill_header, lt→ltb sz 0x1_0000 lt) refl

-- The first two bytes are the number of the bytes that follow them.
abbrev pub IsFramed : List ℕ → Type 0
IsFramed p = get_or p 0 0 * 2 ^ 8 + get_or p 1 0 ≡ length (drop 2 p)

pub header_bytes-IsFramed :
    (sz : ℕ) (l : List ℕ) → sz < 2 ^ 16 → sz ≡ length l → IsFramed (header_bytes sz ++ l)
unfolding header_bytes
header_bytes-IsFramed sz l lt e = omega (arith, bit_and_mask 8 (sz / 2 ^ 8), bit_and_mask 8 sz, e)

pub length-fill_uint32 : (n : ℕ) (l : List ℕ) → length (fill_uint32 n ++ l) ≡ 4 + length l
unfolding fill_uint32
length-fill_uint32 n l = omega arith
