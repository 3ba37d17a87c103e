-- ===== src/Prelude/Powers.antt =====
-- Powers, and remainders by them.
use Prim.Native.Nat.{ℕ, zero, suc, ◌+◌, ◌-◌, ◌*◌, ◌/◌, ◌%◌, ◌^◌, ◌≤◌, ◌<◌}
use mathlib.Core.Path.{◌≡◌, sym, ap, ◌∙◌}
use native.Mathlib.Omega.{arith}
use native.Mathlib.Nat.{
  add-mul-mod_self_left, pow-suc, pow-zero, mod-add-div, mod-lt, mod-eq_of_lt, mod-add-mod,
}

-- Numbers that differ by a multiple of the prime have one remainder.
pub mod_of_multiple : (p x y k : ℕ) → x + p * k ≡ y → x % p ≡ y % p
mod_of_multiple p x y k e = sym (add-mul-mod_self_left x p k) ∙ ap (λ z. z % p) e

pub pow-add : (a m n : ℕ) → a ^ (m + n) ≡ a ^ m * a ^ n
pow-add a m zero = omega (
  arith,
  ap (λ (t : ℕ). a ^ m * t) (pow-zero a),
  ap (λ k. a ^ k) {x = m + 0} {y = m} (omega arith),
)
pow-add a m (suc n) = omega (
  arith,
  ap (λ k. a ^ k) {x = m + suc n} {y = suc (m + n)} (omega arith),
  pow-suc a (m + n),
  ap (λ (t : ℕ). a ^ m * t) (pow-suc a n),
  ap (λ (t : ℕ). t * a) (pow-add a m n),
)

-- A remainder by a power is unchanged by a remainder by a higher one.
pub mod-mod_pow : (x k n : ℕ) → k ≤ n → x % 2 ^ n % 2 ^ k ≡ x % 2 ^ k
mod-mod_pow x k n le = mod_of_multiple (2 ^ k) (x % 2 ^ n) x (2 ^ (n - k) * (x / 2 ^ n)) (
    omega (
      arith,
      mod-add-div x (2 ^ n),
      ap (λ (t : ℕ). t * (x / 2 ^ n)) (pow-add 2 k (n - k)),
      ap (λ m. 2 ^ m * (x / 2 ^ n)) {x = n} {y = k + (n - k)} (omega arith),
    ))

-- Digits above the power do not show in the remainder.
pub mod-above : (x q k n : ℕ) → k ≤ n → (x + q * 2 ^ n) % 2 ^ k ≡ x % 2 ^ k
mod-above x q k n le = sym (
    mod_of_multiple (2 ^ k) x (x + q * 2 ^ n) (2 ^ (n - k) * q) (
      omega (
        arith,
        ap (λ (t : ℕ). t * q) (pow-add 2 k (n - k)),
        ap (λ m. 2 ^ m * q) {x = n} {y = k + (n - k)} (omega arith),
      )))

-- Every remainder is met within one round from any start.
pub round_to : (m idx t : ℕ) → t < m → ((t + m - idx % m) % m + idx) % m ≡ t
round_to m idx t h =
    mod-add-mod (t + m - idx % m) m idx
    ∙ (sym (
          mod_of_multiple m t (t + m - idx % m + idx) (1 + idx / m)
            (omega (arith, mod-add-div idx m, mod-lt idx {m = m} (omega arith))))
        ∙ mod-eq_of_lt h)
