-- ===== src/Prelude/Bits.antt =====
-- `&` and `|` on C words as arithmetic: any such operation splits at bit `k`, and a mask is a
-- remainder.
use Prim.Native.Nat.{
  ℕ, zero, suc, ◌+◌, ◌-◌, ◌*◌, ◌/◌, ◌%◌, ◌^◌, ◌≤◌, ◌<◌, min, max, bit_and, bit_or, digits, bitwise,
  bit_and-bitwise, bit_or-bitwise,
}
use mathlib.Core.Path.{◌≡◌, refl, sym, ap, ◌∙◌}
use native.Mathlib.Nat.{pow-suc, one-le-pow}
use native.Mathlib.Omega.{arith}

-- An operation on the lowest digits, carried to all of them; `rest` is its value when the left
-- number has no digit left.
module _ (rest : ℕ → ℕ) (op : ℕ → ℕ → ℕ) where
  one_more : (fuel x y : ℕ) → x ≤ fuel → digits rest op fuel x y ≡ digits rest op (suc fuel) x y
  one_more zero zero y h = refl
  one_more zero (suc x) y h = absurd (omega arith)
  one_more (suc fuel) zero y h = refl
  one_more (suc fuel) (suc x) y h =
      ap (λ d. d * 2 + op (suc x % 2) (y % 2)) (one_more fuel (suc x / 2) (y / 2) (omega arith))

  spare : (extra fuel x y : ℕ) → fuel ≡ extra + x → digits rest op fuel x y ≡ digits rest op x x y
  spare zero fuel x y e = ap (λ n. digits rest op n x y) (omega (arith, e))
  spare (suc extra) zero x y e = absurd (omega arith)
  spare (suc extra) (suc fuel) x y e =
      sym (one_more fuel x y (omega arith)) ∙ spare extra fuel x y (omega arith)

  pub lowest :
      (x y : ℕ)
      → bitwise rest op (suc x) y ≡ bitwise rest op (suc x / 2) (y / 2) * 2 + op (suc x % 2) (y % 2)
  lowest x y =
      ap (λ d. d * 2 + op (suc x % 2) (y % 2))
        (spare (x - suc x / 2) x (suc x / 2) (y / 2) (omega arith))

pub bit_or-halves : (x y : ℕ) → bit_or x y ≡ bit_or (x / 2) (y / 2) * 2 + max (x % 2) (y % 2)
bit_or-halves zero y = simp bit_or-bitwise (omega arith)
bit_or-halves (suc x) y = rw (bit_or-bitwise, bit_or-bitwise) (lowest (λ b. b) max x y)

pub bit_and-halves : (x y : ℕ) → bit_and x y ≡ bit_and (x / 2) (y / 2) * 2 + min (x % 2) (y % 2)
bit_and-halves zero y = simp bit_and-bitwise (omega arith)
bit_and-halves (suc x) y = rw (bit_and-bitwise, bit_and-bitwise) (lowest (λ b. 0) min x y)

-- An operation that is computed digit by digit may be computed on the parts above and below bit
-- `k`.
module _ (op low : ℕ → ℕ → ℕ)
    (halves : (x y : ℕ) → op x y ≡ op (x / 2) (y / 2) * 2 + low (x % 2) (y % 2)) where
  pub split_at :
      (k hi lo hi' lo' : ℕ)
      → lo < 2 ^ k
      → lo' < 2 ^ k
      → op 0 0 ≡ 0
      → op (hi * 2 ^ k + lo) (hi' * 2 ^ k + lo') ≡ op hi hi' * 2 ^ k + op lo lo'
  split_at zero hi zero hi' zero h h' z = ground (arith, z)
  split_at zero hi (suc lo) hi' lo' h h' z = absurd (omega arith)
  split_at zero hi zero hi' (suc lo') h h' z = absurd (omega arith)
  split_at (suc k) hi lo hi' lo' h h' z = ground (
    arith,
    halves (hi * 2 ^ suc k + lo) (hi' * 2 ^ suc k + lo'),
    halves lo lo',
    split_at k hi (lo / 2) hi' (lo' / 2) (omega (arith, pow-suc 2 k)) (omega (arith, pow-suc 2 k))
        z,
    doubled hi,
    doubled hi',
    doubled (op hi hi'),
  )
    where
      doubled : (n : ℕ) → n * 2 ^ suc k ≡ 2 * (n * 2 ^ k)
      doubled n = omega (arith, ap (λ (p : ℕ). n * p) (pow-suc 2 k))

and_absorbs : (k x : ℕ) → x < 2 ^ k → bit_and x (2 ^ k - 1) ≡ x
and_absorbs zero zero h = refl
and_absorbs zero (suc x) h = absurd (omega arith)
and_absorbs (suc k) x h = omega (
  arith,
  pow-suc 2 k,
  one-le-pow k 2,
  bit_and-halves x (2 ^ suc k - 1),
  ap (λ y. bit_and (x / 2) y) {x = (2 ^ suc k - 1) / 2} {y = 2 ^ k - 1}
      (omega (arith, pow-suc 2 k, one-le-pow k 2)),
  and_absorbs k (x / 2) (omega (arith, pow-suc 2 k)),
)

or_absorbs : (k x : ℕ) → x < 2 ^ k → bit_or x (2 ^ k - 1) ≡ 2 ^ k - 1
or_absorbs zero zero h = refl
or_absorbs zero (suc x) h = absurd (omega arith)
or_absorbs (suc k) x h = omega (
  arith,
  pow-suc 2 k,
  one-le-pow k 2,
  bit_or-halves x (2 ^ suc k - 1),
  ap (λ y. bit_or (x / 2) y) {x = (2 ^ suc k - 1) / 2} {y = 2 ^ k - 1}
      (omega (arith, pow-suc 2 k, one-le-pow k 2)),
  or_absorbs k (x / 2) (omega (arith, pow-suc 2 k)),
)

-- With zero on the right the halving stops at zero.
pub none_on_right : (n x : ℕ) → x ≤ n → (bit_and x 0 ≡ 0) × (bit_or x 0 ≡ x)
none_on_right n zero h = (refl, refl)
none_on_right zero (suc x) h = absurd (omega arith)
none_on_right (suc n) (suc x) h =
    let r = none_on_right n (suc x / 2) (omega arith) in
    (omega (arith, bit_and-halves (suc x) 0, r.0), omega (arith, bit_or-halves (suc x) 0, r.1))

-- `x & (2^k - 1)` keeps the low `k` bits.
pub bit_and_mask : (k x : ℕ) → bit_and x (2 ^ k - 1) ≡ x % 2 ^ k
bit_and_mask k x = ground (
  arith,
  one-le-pow k 2,
  split_at bit_and min bit_and-halves k (x / 2 ^ k) (x % 2 ^ k) 0 (2 ^ k - 1)
      (omega (arith, one-le-pow k 2)) (omega (arith, one-le-pow k 2)) refl,
  and_absorbs k (x % 2 ^ k) (omega (arith, one-le-pow k 2)),
  (none_on_right (x / 2 ^ k) (x / 2 ^ k) (omega arith)).0,
)

-- `x | (2^k - 1)` fills the low `k` bits.
pub bit_or_mask : (k x : ℕ) → bit_or x (2 ^ k - 1) ≡ x / 2 ^ k * 2 ^ k + (2 ^ k - 1)
bit_or_mask k x = ground (
  arith,
  one-le-pow k 2,
  split_at bit_or max bit_or-halves k (x / 2 ^ k) (x % 2 ^ k) 0 (2 ^ k - 1)
      (omega (arith, one-le-pow k 2)) (omega (arith, one-le-pow k 2)) refl,
  or_absorbs k (x % 2 ^ k) (omega (arith, one-le-pow k 2)),
  (none_on_right (x / 2 ^ k) (x / 2 ^ k) (omega arith)).1,
)

-- `(q << k) | r` is a sum when `r` fits `k` bits.
pub bit_or_fields : (k q r : ℕ) → r < 2 ^ k → bit_or (q * 2 ^ k) r ≡ q * 2 ^ k + r
bit_or_fields k q r h = ground (
  arith,
  split_at bit_or max bit_or-halves k q 0 0 r (omega arith) h refl,
  (none_on_right q q (omega arith)).1,
  bit_or-bitwise 0 r,
)

-- `r | (q << k)` is a sum when `r` fits `k` bits.
pub bit_or_low : (k q r : ℕ) → r < 2 ^ k → bit_or r (q * 2 ^ k) ≡ r + q * 2 ^ k
bit_or_low k q r h = ground (
  arith,
  split_at bit_or max bit_or-halves k 0 r q 0 h (omega arith) refl,
  (none_on_right r r (omega arith)).1,
  bit_or-bitwise 0 q,
)
