-- ===== src/Crypt/Des/Inverse.antt =====
-- The steps of the permutations of DES, each with the step that undoes it.
use ddzproject.Prelude.{
  ℕ, ◌+◌, ◌*◌, ◌/◌, ◌%◌, ◌^◌, ◌<◌, ◌≤◌, ◌≡◌, refl, ap, ap₂, ◌∙◌, arith, bit_and, bit_or, bit_xor,
}
use ddzproject.Prelude.Bits.{bit_and_mask, bit_or_fields}
use ddzproject.Prelude.Xor.{bit_xor-both, bit_xor-undo, bit_xor-shift, bit_xor-lt, bit_and-lt}
use native.Mathlib.Nat.{mul-lt-mul_of_pos_right, mul-div_cancel, mod-eq_of_lt}
use ddzproject.Crypt.Des.Schedule.{shl, shr, exchange}
use ddzproject.Crypt.Des.Block.{
  turn, rotate_left, rotate_right, left_first, left_second, right_first, right_second,
}

abbrev pub IsWords : ℕ × ℕ → Type 0
IsWords p = (p.0 < 2 ^ 32) × (p.1 < 2 ^ 32)

module _ (k j m : ℕ) (pos : 0 < 2 ^ k) (whole : 2 ^ j * 2 ^ k ≡ 2 ^ 32) (mask : m < 2 ^ j) where
  kept : ℕ → ℕ → ℕ
  kept x y = bit_and (bit_xor (shr x k) y) m

  kept-lt : (x y : ℕ) → kept x y < 2 ^ j
  unfolding kept
  kept-lt x y = bit_and-lt j (bit_xor (shr x k) y) m mask

  -- The shift loses no digit.
  kept-shl : (x y : ℕ) → shl (kept x y) k ≡ kept x y * 2 ^ k
  kept-shl x y = mod-eq_of_lt {n = kept x y * 2 ^ k} {m = 2 ^ 32} (
      omega (
        arith,
        whole,
        mul-lt-mul_of_pos_right {m = kept x y} {n = 2 ^ j} {k = 2 ^ k} (kept-lt x y) pos,
      ))

  -- The exchange does not change what it exchanges.
  kept-again : (x y : ℕ) → kept (bit_xor x (shl (kept x y) k)) (bit_xor y (kept x y)) ≡ kept x y
  unfolding kept
  kept-again x y =
      let t = kept x y in
      ap (λ u. bit_and u m)
        (ap (λ v. bit_xor v (bit_xor y t))
            (bit_xor-shift k x (shl t k)
              ∙ ap (bit_xor (shr x k)) (ap (λ u. u / 2 ^ k) (kept-shl x y) ∙ mul-div_cancel t pos))
          ∙ bit_xor-both (shr x k) y t)

  exchange-eq :
      (x y : ℕ) → exchange k m (x, y) ≡ (bit_xor x (shl (kept x y) k), bit_xor y (kept x y))
  unfolding exchange kept
  exchange-eq x y = refl

  pub exchange-exchange : (p : ℕ × ℕ) → exchange k m (exchange k m p) ≡ p
  exchange-exchange (x, y) =
      let t = kept x y in
      ap (exchange k m) (exchange-eq x y)
      ∙ (exchange-eq (bit_xor x (shl t k)) (bit_xor y t)
          ∙ ap₂ (λ (a b : ℕ). (a, b))
              (ap (λ u. bit_xor (bit_xor x (shl t k)) (shl u k)) (kept-again x y)
                ∙ bit_xor-undo x (shl t k))
              (ap (λ u. bit_xor (bit_xor y t) u) (kept-again x y) ∙ bit_xor-undo y t))

  pub exchange-IsWords : (p : ℕ × ℕ) → IsWords p → 2 ^ j ≤ 2 ^ 32 → IsWords (exchange k m p)
  exchange-IsWords (x, y) h le = rw (exchange-eq x y) (
    bit_xor-lt 32 x _ (h.0) (omega arith),
    bit_xor-lt 32 y _ (h.1) (omega (arith, kept-lt x y, le)),
  )

rotate_left_lem : (y : ℕ) → y < 2 ^ 32 → rotate_left y ≡ y % 2 ^ 31 * 2 + y / 2 ^ 31
unfolding rotate_left
rotate_left_lem y h =
    bit_and_mask 32 (bit_or (shl y 1) (shr y 31))
    ∙ (ap (λ t. bit_or t (shr y 31) % 2 ^ 32) {x = shl y 1} {y = y % 2 ^ 31 * 2 ^ 1} (omega arith)
        ∙ omega (arith, bit_or_fields 1 (y % 2 ^ 31) (shr y 31) (omega arith)))

rotate_right_lem : (x : ℕ) → x < 2 ^ 32 → rotate_right x ≡ x % 2 * 2 ^ 31 + x / 2
unfolding rotate_right
rotate_right_lem x h =
    bit_and_mask 32 (bit_or (shl x 31) (shr x 1))
    ∙ (ap (λ t. bit_or t (shr x 1) % 2 ^ 32) {x = shl x 31} {y = x % 2 * 2 ^ 31} (omega arith)
        ∙ omega (arith, bit_or_fields 31 (x % 2) (shr x 1) (omega arith)))

rotate_left-right : (x : ℕ) → x < 2 ^ 32 → rotate_left (rotate_right x) ≡ x
rotate_left-right x h = omega (
  arith,
  rotate_right_lem x h,
  rotate_left_lem (rotate_right x) (omega (arith, rotate_right_lem x h)),
)

rotate_right-left : (x : ℕ) → x < 2 ^ 32 → rotate_right (rotate_left x) ≡ x
rotate_right-left x h = omega (
  arith,
  rotate_left_lem x h,
  rotate_right_lem (rotate_left x) (omega (arith, rotate_left_lem x h)),
)

pub rotate_left-lt : (y : ℕ) → y < 2 ^ 32 → rotate_left y < 2 ^ 32
rotate_left-lt y h = omega (arith, rotate_left_lem y h)

pub rotate_right-lt : (x : ℕ) → x < 2 ^ 32 → rotate_right x < 2 ^ 32
rotate_right-lt x h = omega (arith, rotate_right_lem x h)

-- The exchanges that the permutations make.
pub twice4 : (p : ℕ × ℕ) → exchange 4 0x0f0f_0f0f (exchange 4 0x0f0f_0f0f p) ≡ p
twice4 = exchange-exchange 4 28 0x0f0f_0f0f (omega arith) refl (omega arith)

pub twice16 : (p : ℕ × ℕ) → exchange 16 0xffff (exchange 16 0xffff p) ≡ p
twice16 = exchange-exchange 16 16 0xffff (omega arith) refl (omega arith)

pub twice2 : (p : ℕ × ℕ) → exchange 2 0x3333_3333 (exchange 2 0x3333_3333 p) ≡ p
twice2 = exchange-exchange 2 30 0x3333_3333 (omega arith) refl (omega arith)

pub twice8 : (p : ℕ × ℕ) → exchange 8 0x00ff_00ff (exchange 8 0x00ff_00ff p) ≡ p
twice8 = exchange-exchange 8 24 0x00ff_00ff (omega arith) refl (omega arith)

pub twice0 : (p : ℕ × ℕ) → exchange 0 0xaaaa_aaaa (exchange 0 0xaaaa_aaaa p) ≡ p
twice0 = exchange-exchange 0 32 0xaaaa_aaaa (omega arith) refl (omega arith)

pub words4 : (p : ℕ × ℕ) → IsWords p → IsWords (exchange 4 0x0f0f_0f0f p)
words4 p h = exchange-IsWords 4 28 0x0f0f_0f0f (omega arith) refl (omega arith) p h (omega arith)

pub words16 : (p : ℕ × ℕ) → IsWords p → IsWords (exchange 16 0xffff p)
words16 p h = exchange-IsWords 16 16 0xffff (omega arith) refl (omega arith) p h (omega arith)

pub words2 : (p : ℕ × ℕ) → IsWords p → IsWords (exchange 2 0x3333_3333 p)
words2 p h = exchange-IsWords 2 30 0x3333_3333 (omega arith) refl (omega arith) p h (omega arith)

pub words8 : (p : ℕ × ℕ) → IsWords p → IsWords (exchange 8 0x00ff_00ff p)
words8 p h = exchange-IsWords 8 24 0x00ff_00ff (omega arith) refl (omega arith) p h (omega arith)

pub words0 : (p : ℕ × ℕ) → IsWords p → IsWords (exchange 0 0xaaaa_aaaa p)
words0 p h = exchange-IsWords 0 32 0xaaaa_aaaa (omega arith) refl (omega arith) p h (omega arith)

turned : (p : ℕ × ℕ) → IsWords p → IsWords (turn p)
turned p h = (h.1, h.0)

pub left_first-right : (p : ℕ × ℕ) → IsWords p → left_first (right_first p) ≡ p
left_first-right (x, y) h = ap (λ (a : ℕ). (a, y)) (rotate_left-right x (h.0))

pub left_second-right : (p : ℕ × ℕ) → IsWords p → left_second (right_second p) ≡ p
left_second-right (x, y) h = ap (λ (a : ℕ). (x, a)) (rotate_left-right y (h.1))

pub right_first-left : (p : ℕ × ℕ) → IsWords p → right_first (left_first p) ≡ p
right_first-left (x, y) h = ap (λ (a : ℕ). (a, y)) (rotate_right-left x (h.0))

pub right_second-left : (p : ℕ × ℕ) → IsWords p → right_second (left_second p) ≡ p
right_second-left (x, y) h = ap (λ (a : ℕ). (x, a)) (rotate_right-left y (h.1))

-- The middle of the permutations.
unfoldable pub middle : ℕ × ℕ → ℕ × ℕ
middle a = turn (exchange 8 0x00ff_00ff (exchange 2 0x3333_3333 (turn a)))

unfoldable pub middle' : ℕ × ℕ → ℕ × ℕ
middle' a = turn (exchange 2 0x3333_3333 (exchange 8 0x00ff_00ff (turn a)))

pub middle-middle' : (a : ℕ × ℕ) → middle (middle' a) ≡ a
unfolding middle middle'
middle-middle' a =
    ap (λ p. turn (exchange 8 0x00ff_00ff p)) (twice2 (exchange 8 0x00ff_00ff (turn a)))
    ∙ ap turn (twice8 (turn a))

pub middle'-middle : (a : ℕ × ℕ) → middle' (middle a) ≡ a
unfolding middle middle'
middle'-middle a =
    ap (λ p. turn (exchange 2 0x3333_3333 p)) (twice8 (exchange 2 0x3333_3333 (turn a)))
    ∙ ap turn (twice2 (turn a))

pub middle-IsWords : (a : ℕ × ℕ) → IsWords a → IsWords (middle a)
unfolding middle
middle-IsWords a h = turned _ (words8 _ (words2 _ (turned a h)))
