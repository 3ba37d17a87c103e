-- ===== src/Lock/Counts.antt =====
-- What a thread counts for, by its place, and what an access finds.
use ddzproject.Prelude.{ℕ, ◌≤◌, ◌≡◌, ◌≢◌, refl, List, [], ◌∷◌, arith, ==_iff, ==_ne}
use ddzproject.Lock.{
  Place, idle, waiting, entering, checking, leaving, reading, trying, draining, writing, RwLock,
  wait, check, try, drain_readers,
}
use ddzproject.Lock.Total.{total}

-- The thread has added 1 to `read`.
abbrev pub counts : Place → ℕ
counts idle = 0
counts waiting = 0
counts entering = 0
counts checking = 1
counts leaving = 1
counts reading = 1
counts trying = 0
counts draining = 0
counts writing = 0

-- The thread has changed `write` from 0 to 1.
abbrev pub holds : Place → ℕ
holds idle = 0
holds waiting = 0
holds entering = 0
holds checking = 0
holds leaving = 0
holds reading = 0
holds trying = 0
holds draining = 1
holds writing = 1

abbrev pub has_read : Place → ℕ
has_read idle = 0
has_read waiting = 0
has_read entering = 0
has_read checking = 0
has_read leaving = 0
has_read reading = 1
has_read trying = 0
has_read draining = 0
has_read writing = 0

abbrev pub has_write : Place → ℕ
has_write idle = 0
has_write waiting = 0
has_write entering = 0
has_write checking = 0
has_write leaving = 0
has_write reading = 0
has_write trying = 0
has_write draining = 0
has_write writing = 1

pub reads-le : (ps : List Place) → total has_read ps ≤ total counts ps
reads-le [] = omega arith
reads-le (p ∷ ps) = omega (arith, reads-le ps, one p)
  where
    one : (p : Place) → has_read p ≤ counts p
    one idle = omega arith
    one waiting = omega arith
    one entering = omega arith
    one checking = omega arith
    one leaving = omega arith
    one reading = omega arith
    one trying = omega arith
    one draining = omega arith
    one writing = omega arith

pub writes-le : (ps : List Place) → total has_write ps ≤ total holds ps
writes-le [] = omega arith
writes-le (p ∷ ps) = omega (arith, writes-le ps, one p)
  where
    one : (p : Place) → has_write p ≤ holds p
    one idle = omega arith
    one waiting = omega arith
    one entering = omega arith
    one checking = omega arith
    one leaving = omega arith
    one reading = omega arith
    one trying = omega arith
    one draining = omega arith
    one writing = omega arith

-- What an access finds, by the word that it reads.
pub wait-free : (l : RwLock) → l.write ≡ 0 → wait l ≡ entering
wait-free l e = rw ((==_iff l.write 0).1 e) refl

pub wait-taken : (l : RwLock) → l.write ≢ 0 → wait l ≡ waiting
wait-taken l ne = rw (==_ne l.write 0 ne) refl

pub check-free : (l : RwLock) → l.write ≡ 0 → check l ≡ reading
check-free l e = rw ((==_iff l.write 0).1 e) refl

pub check-taken : (l : RwLock) → l.write ≢ 0 → check l ≡ leaving
check-taken l ne = rw (==_ne l.write 0 ne) refl

pub try-free : (l : RwLock) → l.write ≡ 0 → try l ≡ draining
try-free l e = rw ((==_iff l.write 0).1 e) refl

pub try-taken : (l : RwLock) → l.write ≢ 0 → try l ≡ trying
try-taken l ne = rw (==_ne l.write 0 ne) refl

pub drain_readers-free : (l : RwLock) → l.read ≡ 0 → drain_readers l ≡ writing
drain_readers-free l e = rw ((==_iff l.read 0).1 e) refl

pub drain_readers-taken : (l : RwLock) → l.read ≢ 0 → drain_readers l ≡ draining
drain_readers-taken l ne = rw (==_ne l.read 0 ne) refl
