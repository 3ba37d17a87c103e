-- ===== src/Prelude/Range.antt =====
-- A test that holds of every number below a bound, by evaluation.
use Prim.Native.Nat.{ℕ, zero, suc, ◌<◌}
use mathlib.Core.Path.{◌≡◌, subst}
use mathlib.Core.Bool.{Bool, true, false, ◌&&◌}
use native.Mathlib.Decide.{ℕ_discrete}
use native.Mathlib.Omega.{arith}

unfoldable pub check_below : (ℕ → Bool) → ℕ → Bool
check_below test zero = true
check_below test (suc n) = check_below test n && test n

both : (a b : Bool) → (a && b) ≡ true → (a ≡ true) × (b ≡ true)
both true b h = (cc, h)
both false b h = (h, cc)

pub checked : (test : ℕ → Bool) (n i : ℕ) → check_below test n ≡ true → i < n → test i ≡ true
unfolding check_below
checked test zero i h lt = absurd (omega arith)
checked test (suc n) i h lt = elim (ℕ_discrete n i) [
  | yes e ↦ subst (λ j. test j ≡ true) e (both (check_below test n) (test n) h).1
  | no ne ↦ checked test n i (both (check_below test n) (test n) h).0 (omega arith)
]
