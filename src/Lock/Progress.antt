-- ===== src/Lock/Progress.antt =====
-- Which threads get on from a state that the steps lead to, for rwlock.h.
use ddzproject.Prelude.{ℕ, ◌≤◌, ◌<◌, ◌≡◌, ◌≢◌, refl, sym, ◌∙◌, subst, length, arith}
use native.Mathlib.Decide.{ℕ_discrete}
use ddzproject.Lock.{
  Place, idle, waiting, entering, checking, leaving, reading, trying, draining, writing, RwLock,
  System, place_of, access, Reachable,
}
use ddzproject.Lock.Counts.{
  counts, holds, wait-free, check-free, check-taken, try-free, drain_readers-free,
}
use ddzproject.Lock.Total.{total-exists}
use ddzproject.Lock.Safety.{IsLocked, Reachable-IsLocked}

-- The next access brings the thread to another place.
abbrev pub Moves : Place → RwLock → Type 0
Moves p l = (access p l).0 ≢ p

apart_reading : ¬ (reading ≡ checking)
apart_reading e = cc

apart_leaving : ¬ (leaving ≡ checking)
apart_leaving e = cc

apart_draining : ¬ (writing ≡ draining)
apart_draining e = cc

apart_entering : ¬ (entering ≡ waiting)
apart_entering e = cc

apart_trying : ¬ (draining ≡ trying)
apart_trying e = cc

counts-Moves : (p : Place) (l : RwLock) → 1 ≤ counts p → Moves p l
counts-Moves idle l h = absurd (omega arith)
counts-Moves waiting l h = absurd (omega arith)
counts-Moves entering l h = absurd (omega arith)
counts-Moves checking l h = elim (ℕ_discrete l.write 0) [
  | yes free ↦ λ e. apart_reading (sym (check-free l free) ∙ e)
  | no taken ↦ λ e. apart_leaving (sym (check-taken l taken) ∙ e)
]
counts-Moves leaving l h = λ e. cc
counts-Moves reading l h = λ e. cc
counts-Moves trying l h = absurd (omega arith)
counts-Moves draining l h = absurd (omega arith)
counts-Moves writing l h = absurd (omega arith)

module _ (s : System) (ok : IsLocked s) where
  -- Some thread of the system moves.
  abbrev SomeMoves : Type 0
  SomeMoves = (j : ℕ) × ((j < length s.threads) × Moves (place_of s j) s.lock)

  reader-moves : s.lock.read ≢ 0 → SomeMoves
  reader-moves ne =
      let (j, (lt, le)) = total-exists counts s.threads (omega (arith, ok.read)) in
      (j, (lt, counts-Moves (place_of s j) s.lock le))

  holder-moves :
      (j : ℕ) (p : Place) → j < length s.threads → place_of s j ≡ p → 1 ≤ holds p → SomeMoves
  holder-moves j writing lt e h = (j, (lt, subst (λ x. Moves x s.lock) (sym e) (λ q. cc)))
  holder-moves j draining lt e h = elim (ℕ_discrete s.lock.read 0) [
    | yes free ↦ (
      j,
      (
        lt,
        subst (λ x. Moves x s.lock) (sym e)
            (λ q. apart_draining (sym (drain_readers-free s.lock free) ∙ q)),
      ),
    )
    | no taken ↦ reader-moves taken
  ]
  holder-moves j idle lt e h = absurd (omega arith)
  holder-moves j waiting lt e h = absurd (omega arith)
  holder-moves j entering lt e h = absurd (omega arith)
  holder-moves j checking lt e h = absurd (omega arith)
  holder-moves j leaving lt e h = absurd (omega arith)
  holder-moves j reading lt e h = absurd (omega arith)
  holder-moves j trying lt e h = absurd (omega arith)

  marked-moves : s.lock.write ≢ 0 → SomeMoves
  marked-moves ne =
      let (j, (lt, le)) = total-exists holds s.threads (omega (arith, ok.write)) in
      holder-moves j (place_of s j) lt refl le

  busy-moves : (i : ℕ) (p : Place) → i < length s.threads → place_of s i ≡ p → p ≢ idle → SomeMoves
  busy-moves i idle lt e ne = absurd (ne refl)
  busy-moves i waiting lt e ne = elim (ℕ_discrete s.lock.write 0) [
    | yes free ↦ (
      i,
      (
        lt,
        subst (λ x. Moves x s.lock) (sym e) (λ q. apart_entering (sym (wait-free s.lock free) ∙ q)),
      ),
    )
    | no taken ↦ marked-moves taken
  ]
  busy-moves i entering lt e ne = (i, (lt, subst (λ x. Moves x s.lock) (sym e) (λ q. cc)))
  busy-moves i checking lt e ne =
      (i, (lt, subst (λ x. Moves x s.lock) (sym e) (counts-Moves checking s.lock (omega arith))))
  busy-moves i leaving lt e ne = (i, (lt, subst (λ x. Moves x s.lock) (sym e) (λ q. cc)))
  busy-moves i reading lt e ne = (i, (lt, subst (λ x. Moves x s.lock) (sym e) (λ q. cc)))
  busy-moves i trying lt e ne = elim (ℕ_discrete s.lock.write 0) [
    | yes free ↦ (
      i,
      (
        lt,
        subst (λ x. Moves x s.lock) (sym e) (λ q. apart_trying (sym (try-free s.lock free) ∙ q)),
      ),
    )
    | no taken ↦ marked-moves taken
  ]
  busy-moves i draining lt e ne = holder-moves i draining lt e (omega arith)
  busy-moves i writing lt e ne = holder-moves i writing lt e (omega arith)

-- In every state that the threads can come to, if some thread is taking, has or gives back the lock,
-- then there is a thread whose next access brings it to another place: they never all spin.
pub no_deadlock :
    {s : System} (i : ℕ)
    → Reachable s
    → i < length s.threads
    → place_of s i ≢ idle
    → (j : ℕ) × ((j < length s.threads) × Moves (place_of s j) s.lock)
no_deadlock {s} i run lt ne = busy-moves s (Reachable-IsLocked run) i (place_of s i) lt refl ne
