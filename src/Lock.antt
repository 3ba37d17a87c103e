-- ===== src/Lock.antt =====
-- Server/skynet/skynet-src/rwlock.h, without USE_PTHREAD_LOCK: the lock of readers and writers, as the
-- steps that threads take on its two words. A step is one access to the lock; the accesses of all
-- threads happen in one order, which the full barriers of the `__sync` functions give.
pub mod Total
pub mod Counts
pub mod Safety
pub mod Progress
mod Tests
use ddzproject.Prelude.{
  ℕ, zero, suc, ◌+◌, ◌-◌, ◌<◌, ◌≡◌, List, [], ◌∷◌, ◌==◌, if◌then◌else◌, get_or, set, length,
  replicate, Bool,
}

-- Where a thread is. `waiting` and `trying` are the first loops of `rwlock_rlock` and `rwlock_wlock`;
-- `entering` is before the addition, `checking` after it, `leaving` before the subtraction that
-- follows a failed check; `draining` is the second loop of `rwlock_wlock`. In `reading` and
-- `writing` the thread has the lock, and its next access is that of `rwlock_runlock` or `rwlock_wunlock`.
pub data Place : Type 0 where
  idle : Place
  waiting : Place
  entering : Place
  checking : Place
  leaving : Place
  reading : Place
  trying : Place
  draining : Place
  writing : Place

pub record RwLock : Type 0 where
  pub write : ℕ
  pub read : ℕ

abbrev pub rwlock_init : RwLock
rwlock_init = record { write = 0; read = 0 }

-- `rwlock_rlock` and `rwlock_runlock`.
abbrev pub wait : RwLock → Place
wait l = if l.write == 0 then entering else waiting

abbrev pub check : RwLock → Place
check l = if l.write == 0 then reading else leaving

-- `rwlock_wlock` and `rwlock_wunlock`; the test-and-set stores 1 whatever it finds.
abbrev pub try : RwLock → Place
try l = if l.write == 0 then draining else trying

abbrev pub drain_readers : RwLock → Place
drain_readers l = if l.read == 0 then writing else draining

-- The next access of a thread, and where it is after it.
abbrev pub access : Place → RwLock → Place × RwLock
access idle l = (idle, l)
access waiting l = (wait l, l)
access entering l = (checking, record l { read = l.read + 1 })
access checking l = (check l, l)
access leaving l = (waiting, record l { read = l.read - 1 })
access reading l = (idle, record l { read = l.read - 1 })
access trying l = (try l, record l { write = 1 })
access draining l = (drain_readers l, l)
access writing l = (idle, record l { write = 0 })

pub record System : Type 0 where
  pub lock : RwLock
  pub threads : List Place

abbrev pub place_of : System → ℕ → Place
place_of s i = get_or s.threads i idle

abbrev pub advance : System → ℕ → System
advance s i = record {
  lock = (access (place_of s i) s.lock).1;
  threads = set s.threads i (access (place_of s i) s.lock).0;
}

-- A thread starts to take the lock, or makes its next access.
pub data Step (s : System) : System → Type 0 where
  reads :
      (i : ℕ)
      → i < length s.threads
      → place_of s i ≡ idle
      → Step s (record s { threads = set s.threads i waiting })
  writes :
      (i : ℕ)
      → i < length s.threads
      → place_of s i ≡ idle
      → Step s (record s { threads = set s.threads i trying })
  accesses : (i : ℕ) → i < length s.threads → Step s (advance s i)

pub data Reachable : System → Type 0 where
  starts : (n : ℕ) → Reachable (record { lock = rwlock_init; threads = replicate n idle })
  goes : {s t : System} → Reachable s → Step s t → Reachable t
