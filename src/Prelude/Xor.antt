-- ===== src/Prelude/Xor.antt =====
-- The laws of `^` on C words, from the digit recursion.
use Prim.Native.Nat.{
  ℕ, zero, suc, ◌+◌, ◌*◌, ◌/◌, ◌%◌, ◌^◌, ◌≤◌, ◌<◌, differ, bit_xor, bit_and, bit_xor-bitwise,
}
use mathlib.Core.Path.{◌≡◌, refl, sym, ap, ap₂, ◌∙◌}
use native.Mathlib.Nat.{pow-suc, div-one, div-div-eq-div-mul}
use native.Mathlib.Omega.{arith}
use ddzproject.Prelude.Bits.{none_on_right, lowest, bit_and-halves}

differ-digits : (a b : ℕ) → a < 2 → b < 2 → differ a b ≡ (a + b) % 2
differ-digits zero zero h k = refl
differ-digits zero (suc zero) h k = refl
differ-digits (suc zero) zero h k = refl
differ-digits (suc zero) (suc zero) h k = refl
differ-digits (suc (suc a)) b h k = absurd (omega arith)
differ-digits zero (suc (suc b)) h k = absurd (omega arith)
differ-digits (suc zero) (suc (suc b)) h k = absurd (omega arith)

bit_xor-halves : (x y : ℕ) → bit_xor x y ≡ bit_xor (x / 2) (y / 2) * 2 + differ (x % 2) (y % 2)
bit_xor-halves zero y =
    simp bit_xor-bitwise (omega (arith, differ-digits 0 (y % 2) (omega arith) (omega arith)))
bit_xor-halves (suc x) y = rw (bit_xor-bitwise, bit_xor-bitwise) (lowest (λ b. b) differ x y)

pub bit_xor-half : (x y : ℕ) → bit_xor x y / 2 ≡ bit_xor (x / 2) (y / 2)
bit_xor-half x y =
    omega (arith, bit_xor-halves x y, differ-digits (x % 2) (y % 2) (omega arith) (omega arith))

pub bit_xor-low : (x y : ℕ) → bit_xor x y % 2 ≡ (x + y) % 2
bit_xor-low x y =
    omega (arith, bit_xor-halves x y, differ-digits (x % 2) (y % 2) (omega arith) (omega arith))

-- Two numbers with one half and one lowest digit are equal.
from_half : (x y : ℕ) → x / 2 ≡ y / 2 → x % 2 ≡ y % 2 → x ≡ y
from_half x y h l = omega (arith, h, l)

comm_below : (n x y : ℕ) → x ≤ n → y ≤ n → bit_xor x y ≡ bit_xor y x
comm_below zero zero zero h k = refl
comm_below zero (suc x) y h k = absurd (omega arith)
comm_below zero zero (suc y) h k = absurd (omega arith)
comm_below (suc n) x y h k =
    from_half (bit_xor x y) (bit_xor y x)
      (bit_xor-half x y
        ∙ (comm_below n (x / 2) (y / 2) (omega arith) (omega arith) ∙ sym (bit_xor-half y x)))
      (omega (arith, bit_xor-low x y, bit_xor-low y x))

pub bit_xor_comm : (x y : ℕ) → bit_xor x y ≡ bit_xor y x
bit_xor_comm x y = comm_below (x + y) x y (omega arith) (omega arith)

assoc_below :
    (n x y z : ℕ) → x ≤ n → y ≤ n → z ≤ n → bit_xor (bit_xor x y) z ≡ bit_xor x (bit_xor y z)
assoc_below zero zero zero zero h k l = refl
assoc_below zero (suc x) y z h k l = absurd (omega arith)
assoc_below zero zero (suc y) z h k l = absurd (omega arith)
assoc_below zero zero zero (suc z) h k l = absurd (omega arith)
assoc_below (suc n) x y z h k l =
    from_half (bit_xor (bit_xor x y) z) (bit_xor x (bit_xor y z))
      (bit_xor-half (bit_xor x y) z
        ∙ (ap (λ t. bit_xor t (z / 2)) (bit_xor-half x y)
            ∙ (assoc_below n (x / 2) (y / 2) (z / 2) (omega arith) (omega arith) (omega arith)
                ∙ (ap (λ t. bit_xor (x / 2) t) (sym (bit_xor-half y z))
                    ∙ sym (bit_xor-half x (bit_xor y z))))))
      (omega (
        arith,
        bit_xor-low (bit_xor x y) z,
        bit_xor-low x y,
        bit_xor-low x (bit_xor y z),
        bit_xor-low y z,
      ))

pub bit_xor_assoc : (x y z : ℕ) → bit_xor (bit_xor x y) z ≡ bit_xor x (bit_xor y z)
bit_xor_assoc x y z = assoc_below (x + y + z) x y z (omega arith) (omega arith) (omega arith)

self_below : (n x : ℕ) → x ≤ n → bit_xor x x ≡ 0
self_below zero zero h = refl
self_below zero (suc x) h = absurd (omega arith)
self_below (suc n) x h =
    from_half (bit_xor x x) 0 (bit_xor-half x x ∙ self_below n (x / 2) (omega arith))
      (omega (arith, bit_xor-low x x))

pub bit_xor_self : (x : ℕ) → bit_xor x x ≡ 0
bit_xor_self x = self_below x x (omega arith)

pub bit_xor-zero : (x : ℕ) → bit_xor x 0 ≡ x
bit_xor-zero x = bit_xor_comm x 0 ∙ bit_xor-bitwise 0 x

-- A word that is put in twice is out again.
pub bit_xor-undo : (x y : ℕ) → bit_xor (bit_xor x y) y ≡ x
bit_xor-undo x y = bit_xor_assoc x y y ∙ (ap (bit_xor x) (bit_xor_self y) ∙ bit_xor-zero x)

-- The same word put into both sides of a difference does not show.
pub bit_xor-both : (x y t : ℕ) → bit_xor (bit_xor x t) (bit_xor y t) ≡ bit_xor x y
bit_xor-both x y t =
    bit_xor_assoc x t (bit_xor y t)
    ∙ ap (bit_xor x) (bit_xor_comm t (bit_xor y t) ∙ bit_xor-undo y t)

-- Two words that are put in one after the other come out in either order.
pub bit_xor-undo_both : (x a b : ℕ) → bit_xor (bit_xor (bit_xor (bit_xor x a) b) a) b ≡ x
bit_xor-undo_both x a b =
    ap (λ t. bit_xor (bit_xor t a) b)
      (bit_xor_assoc x a b ∙ (ap (bit_xor x) (bit_xor_comm a b) ∙ sym (bit_xor_assoc x b a)))
    ∙ (ap (λ t. bit_xor t b) (bit_xor-undo (bit_xor x b) a) ∙ bit_xor-undo x b)

pub bit_xor-lt : (k x y : ℕ) → x < 2 ^ k → y < 2 ^ k → bit_xor x y < 2 ^ k
bit_xor-lt zero zero zero h l = omega arith
bit_xor-lt zero (suc x) y h l = absurd (omega arith)
bit_xor-lt zero zero (suc y) h l = absurd (omega arith)
bit_xor-lt (suc k) x y h l = omega (
  arith,
  pow-suc 2 k,
  bit_xor-half x y,
  bit_xor-lt k (x / 2) (y / 2) (omega (arith, pow-suc 2 k)) (omega (arith, pow-suc 2 k)),
)

-- `>>` goes through `^`.
pub bit_xor-shift : (k x y : ℕ) → bit_xor x y / 2 ^ k ≡ bit_xor (x / 2 ^ k) (y / 2 ^ k)
bit_xor-shift zero x y = div-one (bit_xor x y) ∙ ap₂ bit_xor (sym (div-one x)) (sym (div-one y))
bit_xor-shift (suc k) x y =
    halved (bit_xor x y)
    ∙ (ap (λ t. t / 2 ^ k) (bit_xor-half x y)
        ∙ (bit_xor-shift k (x / 2) (y / 2) ∙ ap₂ bit_xor (sym (halved x)) (sym (halved y))))
  where
    halved : (n : ℕ) → n / 2 ^ suc k ≡ n / 2 / 2 ^ k
    halved n =
        ap (λ d. n / d) {x = 2 ^ suc k} {y = 2 * 2 ^ k} (omega (arith, pow-suc 2 k))
        ∙ sym (div-div-eq-div-mul n 2 (2 ^ k))

pub bit_and-lt : (k x m : ℕ) → m < 2 ^ k → bit_and x m < 2 ^ k
bit_and-lt zero x zero h = omega (arith, (none_on_right x x (omega arith)).0)
bit_and-lt zero x (suc m) h = absurd (omega arith)
bit_and-lt (suc k) x m h = omega (
  arith,
  pow-suc 2 k,
  bit_and-halves x m,
  bit_and-lt k (x / 2) (m / 2) (omega (arith, pow-suc 2 k)),
)
