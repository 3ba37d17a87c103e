-- ===== src/Timer/Place.antt =====
-- Which slot a node stands in, and that each tick moves what it must.
use ddzproject.Prelude.{
  ℕ, zero, suc, ◌+◌, ◌/◌, ◌%◌, ◌^◌, ◌≤◌, ◌<◌, ◌≡◌, ◌≢◌, ◌⊎◌, Option, none, some, ◌==◌,
  if◌then◌else◌, arith,
}
use ddzproject.Prelude.Bits.{bit_and_mask, bit_or_mask}
use ddzproject.Timer.{Slot, near_slot, level_slot, place, shift_slot}

-- A node that expires at `e` may stand in this slot when the time is `c`.
abbrev pub IsPlaced : ℕ → ℕ → Slot → Type 0
IsPlaced c e (near_slot k) = (k ≡ e % 256) × (e / 256 ≡ c / 256) × (c ≤ e)
IsPlaced c e (level_slot zero k) =
    (k ≡ e / 2 ^ 8 % 64) × (e / 2 ^ 14 ≡ c / 2 ^ 14) × (c / 2 ^ 8 < e / 2 ^ 8)
IsPlaced c e (level_slot (suc zero) k) =
    (k ≡ e / 2 ^ 14 % 64) × (e / 2 ^ 20 ≡ c / 2 ^ 20) × (c / 2 ^ 14 < e / 2 ^ 14)
IsPlaced c e (level_slot (suc (suc zero)) k) =
    (k ≡ e / 2 ^ 20 % 64) × (e / 2 ^ 26 ≡ c / 2 ^ 26) × (c / 2 ^ 20 < e / 2 ^ 20)
IsPlaced c e (level_slot (suc (suc (suc zero))) k) =
    (k ≡ e / 2 ^ 26 % 64) × (e / 2 ^ 26 ≢ c / 2 ^ 26)
IsPlaced c e (level_slot (suc (suc (suc (suc i)))) k) = ⊥

-- `e` lies ahead of `c`, or in another stretch of 2^26 ticks.
abbrev pub IsAhead : ℕ → ℕ → Type 0
IsAhead c e = (c ≤ e) ⊎ (e / 2 ^ 26 ≢ c / 2 ^ 26)

-- `place` without the bit operations.
place_arith : ℕ → ℕ → Slot
place_arith e c =
    if e / 256 == c / 256
    then near_slot (e % 256)
    else if e / 2 ^ 14 == c / 2 ^ 14
    then level_slot 0 (e / 2 ^ 8 % 64)
    else if e / 2 ^ 20 == c / 2 ^ 20
    then level_slot 1 (e / 2 ^ 14 % 64)
    else if e / 2 ^ 26 == c / 2 ^ 26
    then level_slot 2 (e / 2 ^ 20 % 64)
    else level_slot 3 (e / 2 ^ 26 % 64)

place_eq : (e c : ℕ) → place e c ≡ place_arith e c
unfolding place place_arith
place_eq e c = ground (
  arith,
  bit_or_mask 8 e,
  bit_or_mask 8 c,
  bit_or_mask 14 e,
  bit_or_mask 14 c,
  bit_or_mask 20 e,
  bit_or_mask 20 c,
  bit_or_mask 26 e,
  bit_or_mask 26 c,
  bit_and_mask 8 e,
  bit_and_mask 6 (e / 2 ^ 8),
  bit_and_mask 6 (e / 2 ^ 14),
  bit_and_mask 6 (e / 2 ^ 20),
  bit_and_mask 6 (e / 2 ^ 26),
)

pub place-IsPlaced : (c e : ℕ) → IsAhead c e → IsPlaced c e (place e c)
unfolding place_arith
place-IsPlaced c e h = rw (place_eq e c) (ground arith)

-- `shift_slot` without the bit operations.
shift_arith : ℕ → Option (ℕ × ℕ)
shift_arith c =
    if c == 0
    then some (3, 0)
    else if c % 256 == 0
    then (if c / 2 ^ 8 % 64 == 0
        then (if c / 2 ^ 14 % 64 == 0
            then (if c / 2 ^ 20 % 64 == 0 then some (3, c / 2 ^ 26) else some (2, c / 2 ^ 20 % 64))
            else some (1, c / 2 ^ 14 % 64))
        else some (0, c / 2 ^ 8 % 64))
    else none

shift_eq : (c : ℕ) → c < 2 ^ 32 → shift_slot c ≡ shift_arith c
unfolding shift_slot shift_arith
shift_eq c h = ground (
  arith,
  bit_and_mask 8 c,
  bit_and_mask 14 c,
  bit_and_mask 20 c,
  bit_and_mask 26 c,
  bit_and_mask 6 (c / 2 ^ 8),
  bit_and_mask 6 (c / 2 ^ 14),
  bit_and_mask 6 (c / 2 ^ 20),
  bit_and_mask 6 (c / 2 ^ 26),
)

abbrev pub tick : ℕ → ℕ
tick c = (c + 1) % 2 ^ 32

-- A node of `near` that does not expire now stays where it stands.
pub near-tick :
    (c e k : ℕ)
    → e < 2 ^ 32
    → e ≢ c
    → IsPlaced c e (near_slot k)
    → IsPlaced (tick c) e (near_slot k)
near-tick c e k h ne p = omega arith

-- A node of the list that is moved lies ahead of the new time.
pub moved-IsAhead :
    (c e i k : ℕ)
    → c < 2 ^ 32
    → e < 2 ^ 32
    → IsPlaced c e (level_slot i k)
    → shift_slot (tick c) ≡ some (i, k)
    → IsAhead (tick c) e
unfolding shift_arith
moved-IsAhead c e zero k hc he p m = ground (arith, shift_eq (tick c))
moved-IsAhead c e (suc zero) k hc he p m = ground (arith, shift_eq (tick c))
moved-IsAhead c e (suc (suc zero)) k hc he p m = ground (arith, shift_eq (tick c))
moved-IsAhead c e (suc (suc (suc zero))) k hc he p m = ground (arith, shift_eq (tick c))
moved-IsAhead c e (suc (suc (suc (suc i)))) k hc he p m = absurd p

-- A node of a list that is not moved stays where it stands.
pub kept-IsPlaced :
    (c e i k : ℕ)
    → c < 2 ^ 32
    → e < 2 ^ 32
    → IsPlaced c e (level_slot i k)
    → shift_slot (tick c) ≢ some (i, k)
    → IsPlaced (tick c) e (level_slot i k)
unfolding shift_arith
kept-IsPlaced c e zero k hc he p m = ground (arith, shift_eq (tick c))
kept-IsPlaced c e (suc zero) k hc he p m = ground (arith, shift_eq (tick c))
kept-IsPlaced c e (suc (suc zero)) k hc he p m = ground (arith, shift_eq (tick c))
kept-IsPlaced c e (suc (suc (suc zero))) k hc he p m = ground (arith, shift_eq (tick c))
kept-IsPlaced c e (suc (suc (suc (suc i)))) k hc he p m = absurd p
