-- ===== src/Crypt/Des/Block.antt =====
-- `des_crypt`: the permutations and rounds of DES on one block of eight bytes.
use ddzproject.Prelude.{ℕ, ◌/◌, ◌%◌, ◌^◌, List, [], ◌∷◌, ◌++◌, get_or, bit_and, bit_or, bit_xor}
use ddzproject.Crypt.Des.Tables.{sb1, sb2, sb3, sb4, sb5, sb6, sb7, sb8}
use ddzproject.Crypt.Des.Schedule.{shl, shr, get_uint32, exchange}

abbrev pub turn : ℕ × ℕ → ℕ × ℕ
turn (x, y) = (y, x)

-- The macro `PUT_UINT32`.
unfoldable pub put_uint32 : ℕ → List ℕ
put_uint32 n = n / 2 ^ 24 % 256 ∷ n / 2 ^ 16 % 256 ∷ n / 2 ^ 8 % 256 ∷ n % 256 ∷ []

unfoldable pub rotate_left : ℕ → ℕ
rotate_left y = bit_and (bit_or (shl y 1) (shr y 31)) 0xffff_ffff

unfoldable pub rotate_right : ℕ → ℕ
rotate_right x = bit_and (bit_or (shl x 31) (shr x 1)) 0xffff_ffff

abbrev pub left_second : ℕ × ℕ → ℕ × ℕ
left_second (x, y) = (x, rotate_left y)

abbrev pub left_first : ℕ × ℕ → ℕ × ℕ
left_first (x, y) = (rotate_left x, y)

abbrev pub right_second : ℕ × ℕ → ℕ × ℕ
right_second (x, y) = (x, rotate_right y)

abbrev pub right_first : ℕ × ℕ → ℕ × ℕ
right_first (x, y) = (rotate_right x, y)

-- The macro `DES_IP(X, Y)`, on the pair of its words; the exchange of `X ^ Y` shifts by 0.
unfoldable pub des_ip : ℕ × ℕ → ℕ × ℕ
des_ip p =
    let a = exchange 16 0xffff (exchange 4 0x0f0f_0f0f p) in
    let b = turn (exchange 8 0x00ff_00ff (exchange 2 0x3333_3333 (turn a))) in
    left_first (exchange 0 0xaaaa_aaaa (left_second b))

-- The macro `DES_FP(X, Y)`.
unfoldable pub des_fp : ℕ × ℕ → ℕ × ℕ
des_fp p =
    let a = right_second (exchange 0 0xaaaa_aaaa (right_first p)) in
    let b = turn (exchange 2 0x3333_3333 (exchange 8 0x00ff_00ff (turn a))) in
    exchange 4 0x0f0f_0f0f (exchange 16 0xffff b)

abbrev pub even_boxes : ℕ → ℕ
even_boxes t =
    bit_xor
      (bit_xor (bit_xor (get_or sb8 (bit_and t 0x3f) 0) (get_or sb6 (bit_and (shr t 8) 0x3f) 0))
        (get_or sb4 (bit_and (shr t 16) 0x3f) 0))
      (get_or sb2 (bit_and (shr t 24) 0x3f) 0)

abbrev pub odd_boxes : ℕ → ℕ
odd_boxes t =
    bit_xor
      (bit_xor (bit_xor (get_or sb7 (bit_and t 0x3f) 0) (get_or sb5 (bit_and (shr t 8) 0x3f) 0))
        (get_or sb3 (bit_and (shr t 16) 0x3f) 0))
      (get_or sb1 (bit_and (shr t 24) 0x3f) 0)

-- The macro `DES_ROUND(X, Y)`: the word that `Y` becomes.
unfoldable pub des_round : ℕ × ℕ → ℕ → ℕ → ℕ
des_round (sk0, sk1) x y =
    bit_xor (bit_xor y (even_boxes (bit_xor sk0 x)))
      (odd_boxes (bit_xor sk1 (bit_or (shl x 28) (shr x 4))))

-- The rounds, on `(X, Y)`: `DES_ROUND(Y, X)` and then, with the words turned round, the next.
unfoldable pub des_rounds : List (ℕ × ℕ) → ℕ × ℕ → ℕ × ℕ
des_rounds [] p = p
des_rounds (k ∷ ks) (x, y) = des_rounds ks (y, des_round k y x)

-- A block that is not of eight bytes is never given.
unfoldable pub des_crypt : List (ℕ × ℕ) → List ℕ → List ℕ
des_crypt ks (b0 ∷ b1 ∷ b2 ∷ b3 ∷ b4 ∷ b5 ∷ b6 ∷ b7 ∷ []) =
    let r =
      des_fp (turn (des_rounds ks (des_ip (get_uint32 b0 b1 b2 b3, get_uint32 b4 b5 b6 b7)))) in
    put_uint32 (r.0) ++ put_uint32 (r.1)
des_crypt ks _ = []
