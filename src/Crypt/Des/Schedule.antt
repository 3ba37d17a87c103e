-- ===== src/Crypt/Des/Schedule.antt =====
-- `des_main_ks`: the subkeys of DES, on `uint32_t` words. The 32 words of `SK` are 16 pairs, one
-- for a round.
use ddzproject.Prelude.{
  ℕ, zero, suc, ◌+◌, ◌-◌, ◌*◌, ◌/◌, ◌%◌, ◌^◌, ◌||◌, List, [], ◌∷◌, ◌==◌, ltb, if◌then◌else◌, get_or,
  bit_and, bit_or, bit_xor,
}
use ddzproject.Crypt.Des.Tables.{lhs, rhs}

abbrev pub shl : ℕ → ℕ → ℕ
shl x k = x * 2 ^ k % 2 ^ 32

abbrev pub shr : ℕ → ℕ → ℕ
shr x k = x / 2 ^ k

-- `a | b | …`, from the left.
abbrev pub or_all : ℕ → List ℕ → ℕ
or_all acc [] = acc
or_all acc (x ∷ xs) = or_all (bit_or acc x) xs

abbrev pub any_of : List ℕ → ℕ
any_of [] = 0
any_of (x ∷ xs) = or_all x xs

-- The macro `GET_UINT32`.
unfoldable pub get_uint32 : ℕ → ℕ → ℕ → ℕ → ℕ
get_uint32 b0 b1 b2 b3 = any_of (b0 * 2 ^ 24 ∷ b1 * 2 ^ 16 ∷ b2 * 2 ^ 8 ∷ b3 ∷ [])

-- A step `T = ((X >> k) ^ Y) & m; X ^= T << k; Y ^= T`.
unfoldable pub exchange : ℕ → ℕ → ℕ × ℕ → ℕ × ℕ
exchange k m (x, y) = let t = bit_and (bit_xor (shr x k) y) m in (bit_xor x (shl t k), bit_xor y t)

-- Permuted choice 1.
unfoldable pub choose_left : ℕ → ℕ
choose_left x =
    bit_and
      (any_of (
        shl (get_or lhs (bit_and x 0xf) 0) 3
        ∷ shl (get_or lhs (bit_and (shr x 8) 0xf) 0) 2
        ∷ shl (get_or lhs (bit_and (shr x 16) 0xf) 0) 1
        ∷ shl (get_or lhs (bit_and (shr x 24) 0xf) 0) 0
        ∷ shl (get_or lhs (bit_and (shr x 5) 0xf) 0) 7
        ∷ shl (get_or lhs (bit_and (shr x 13) 0xf) 0) 6
        ∷ shl (get_or lhs (bit_and (shr x 21) 0xf) 0) 5
        ∷ shl (get_or lhs (bit_and (shr x 29) 0xf) 0) 4
        ∷ []))
      0x0fff_ffff

unfoldable pub choose_right : ℕ → ℕ
choose_right y =
    bit_and
      (any_of (
        shl (get_or rhs (bit_and (shr y 1) 0xf) 0) 3
        ∷ shl (get_or rhs (bit_and (shr y 9) 0xf) 0) 2
        ∷ shl (get_or rhs (bit_and (shr y 17) 0xf) 0) 1
        ∷ shl (get_or rhs (bit_and (shr y 25) 0xf) 0) 0
        ∷ shl (get_or rhs (bit_and (shr y 4) 0xf) 0) 7
        ∷ shl (get_or rhs (bit_and (shr y 12) 0xf) 0) 6
        ∷ shl (get_or rhs (bit_and (shr y 20) 0xf) 0) 5
        ∷ shl (get_or rhs (bit_and (shr y 28) 0xf) 0) 4
        ∷ []))
      0x0fff_ffff

-- The two words that round `i` gets.
unfoldable pub left_subkey : ℕ → ℕ → ℕ
left_subkey x y = any_of (
    bit_and (shl x 4) 0x2400_0000
    ∷ bit_and (shl x 28) 0x1000_0000
    ∷ bit_and (shl x 14) 0x0800_0000
    ∷ bit_and (shl x 18) 0x0208_0000
    ∷ bit_and (shl x 6) 0x0100_0000
    ∷ bit_and (shl x 9) 0x0020_0000
    ∷ bit_and (shr x 1) 0x0010_0000
    ∷ bit_and (shl x 10) 0x0004_0000
    ∷ bit_and (shl x 2) 0x0002_0000
    ∷ bit_and (shr x 10) 0x0001_0000
    ∷ bit_and (shr y 13) 0x0000_2000
    ∷ bit_and (shr y 4) 0x0000_1000
    ∷ bit_and (shl y 6) 0x0000_0800
    ∷ bit_and (shr y 1) 0x0000_0400
    ∷ bit_and (shr y 14) 0x0000_0200
    ∷ bit_and y 0x0000_0100
    ∷ bit_and (shr y 5) 0x0000_0020
    ∷ bit_and (shr y 10) 0x0000_0010
    ∷ bit_and (shr y 3) 0x0000_0008
    ∷ bit_and (shr y 18) 0x0000_0004
    ∷ bit_and (shr y 26) 0x0000_0002
    ∷ bit_and (shr y 24) 0x0000_0001
    ∷ [])

unfoldable pub right_subkey : ℕ → ℕ → ℕ
right_subkey x y = any_of (
    bit_and (shl x 15) 0x2000_0000
    ∷ bit_and (shl x 17) 0x1000_0000
    ∷ bit_and (shl x 10) 0x0800_0000
    ∷ bit_and (shl x 22) 0x0400_0000
    ∷ bit_and (shr x 2) 0x0200_0000
    ∷ bit_and (shl x 1) 0x0100_0000
    ∷ bit_and (shl x 16) 0x0020_0000
    ∷ bit_and (shl x 11) 0x0010_0000
    ∷ bit_and (shl x 3) 0x0008_0000
    ∷ bit_and (shr x 6) 0x0004_0000
    ∷ bit_and (shl x 15) 0x0002_0000
    ∷ bit_and (shr x 4) 0x0001_0000
    ∷ bit_and (shr y 2) 0x0000_2000
    ∷ bit_and (shl y 8) 0x0000_1000
    ∷ bit_and (shr y 14) 0x0000_0808
    ∷ bit_and (shr y 9) 0x0000_0400
    ∷ bit_and y 0x0000_0200
    ∷ bit_and (shl y 7) 0x0000_0100
    ∷ bit_and (shr y 7) 0x0000_0020
    ∷ bit_and (shr y 3) 0x0000_0011
    ∷ bit_and (shl y 2) 0x0000_0004
    ∷ bit_and (shr y 21) 0x0000_0002
    ∷ [])

abbrev pub rotate28 : ℕ → ℕ → ℕ
rotate28 x k = bit_and (bit_or (shl x k) (shr x (28 - k))) 0x0fff_ffff

abbrev pub shift_of : ℕ → ℕ
shift_of i = if ltb i 2 || i == 8 || i == 15 then 1 else 2

-- The loop from round `i` on, with `left` rounds to go.
unfoldable pub subkeys : ℕ → ℕ → ℕ → ℕ → List (ℕ × ℕ)
subkeys zero i x y = []
subkeys (suc left) i x y =
    let x' = rotate28 x (shift_of i) in
    let y' = rotate28 y (shift_of i) in
    (left_subkey x' y', right_subkey x' y') ∷ subkeys left (i + 1) x' y'

-- The exchanges are of `Y >> k` with `X`, so the pair is turned round.
unfoldable pub des_main_ks : List ℕ → List (ℕ × ℕ)
des_main_ks (b0 ∷ b1 ∷ b2 ∷ b3 ∷ b4 ∷ b5 ∷ b6 ∷ b7 ∷ []) =
    let (y, x) =
      exchange 0 0x1010_1010
        (exchange 4 0x0f0f_0f0f (get_uint32 b4 b5 b6 b7, get_uint32 b0 b1 b2 b3)) in
    subkeys 16 0 (choose_left x) (choose_right y)
des_main_ks _ = []
