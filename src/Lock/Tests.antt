-- ===== src/Lock/Tests.antt =====
-- Runs of the lock, and its theorems at them.
use ddzproject.Prelude.{ℕ, ◌<◌, ◌≢◌, refl, [], ◌∷◌, length, arith}
use ddzproject.Lock.{
  leaving, reading, writing, System, place_of, reads, writes, accesses, Reachable, starts, goes,
}
use ddzproject.Lock.Safety.{writer_alone}
use ddzproject.Lock.Progress.{Moves, no_deadlock}

-- Thread 0 has the lock for writing, and thread 1 came too late to see that and goes back.
abbrev contended : System
contended = record { lock = record { write = 1; read = 1 }; threads = writing ∷ leaving ∷ [] }

late : Reachable contended
late =
    goes
      (goes
        (goes
          (goes
            (goes (goes (goes (starts 2) (reads 1 (omega arith) refl)) (accesses 1 (omega arith)))
              (writes 0 (omega arith) refl))
            (accesses 0 (omega arith)))
          (accesses 0 (omega arith)))
        (accesses 1 (omega arith)))
      (accesses 1 (omega arith))

writer_alone_example : (place_of contended 1 ≢ writing) × (place_of contended 1 ≢ reading)
writer_alone_example = writer_alone 0 1 late (omega arith) (omega arith) (omega arith) refl

no_deadlock_example :
    (j : ℕ) × ((j < length contended.threads) × Moves (place_of contended j) contended.lock)
no_deadlock_example = no_deadlock 1 late (omega arith) (λ e. cc)
