-- ===== src/Lock/Safety.antt =====
-- Readers and writers in the states that the steps lead to, for rwlock.h.
use ddzproject.Prelude.{
  ℕ, ◌+◌, ◌-◌, ◌≤◌, ◌<◌, ◌≡◌, ◌≢◌, ◌⊎◌, inl, inr, refl, sym, ap, subst, set, length, arith,
}
use native.Mathlib.Decide.{ℕ_discrete}
use ddzproject.Lock.{
  Place, idle, waiting, entering, checking, leaving, reading, trying, draining, writing, RwLock,
  System, place_of, access, reads, writes, accesses, Reachable, starts, goes,
}
use ddzproject.Lock.Counts.{
  counts, holds, has_read, has_write, reads-le, writes-le, wait-free, wait-taken, check-free,
  check-taken, try-free, try-taken, drain_readers-free, drain_readers-taken,
}
use ddzproject.Lock.Total.{total, total-set, total-two, total-idle}

-- The two words say how many threads are where, and readers and a writer are apart.
pub record IsLocked (s : System) : Type 0 where
  pub read : s.lock.read ≡ total counts s.threads
  pub write : s.lock.write ≡ total holds s.threads
  pub once : s.lock.write ≤ 1
  pub apart : (total has_write s.threads ≡ 0) ⊎ (total has_read s.threads ≡ 0)
  pub held : total has_write s.threads ≤ s.lock.write

-- One thread goes from `p` to `q`, and the lock becomes `l`.
abbrev moved : System → ℕ → Place → RwLock → System
moved s i q l = record { lock = l; threads = set s.threads i q }

module _ (s : System) (i : ℕ) (p : Place) (lt : i < length s.threads) (e : place_of s i ≡ p)
    (ok : IsLocked s) where
  module _ (q : Place) (l : RwLock) where
    sum : (f : Place → ℕ) → total f (set s.threads i q) + f p ≡ total f s.threads + f q
    sum f =
        subst (λ x. total f (set s.threads i q) + f x ≡ total f s.threads + f q) e
          (total-set f s.threads i q lt)

    -- What a move has to keep.
    IsLocked-moved :
        l.read + counts p ≡ s.lock.read + counts q
        → l.write + holds p ≡ s.lock.write + holds q
        → l.write ≤ 1
        → (total has_write (set s.threads i q) ≡ 0) ⊎ (total has_read (set s.threads i q) ≡ 0)
        → total has_write (set s.threads i q) ≤ l.write
        → IsLocked (moved s i q l)
    IsLocked-moved r w one apart held = record {
      read = omega (arith, r, ok.read, sum counts);
      write = omega (arith, w, ok.write, sum holds);
      once = one;
      apart = apart;
      held = held;
    }

  -- A move that keeps the readers and the writers that have the lock.
  IsLocked-same :
      (q : Place) (l : RwLock)
      → has_read q ≤ has_read p
      → has_write q ≤ has_write p
      → l.read + counts p ≡ s.lock.read + counts q
      → l.write + holds p ≡ s.lock.write + holds q
      → l.write ≤ 1
      → s.lock.write + has_write q ≤ l.write + has_write p
      → IsLocked (moved s i q l)
  IsLocked-same q l reads_le writes_le r w one held =
      IsLocked-moved q l r w one
        (elim ok.apart [
          | inl a ↦ inl (omega (arith, a, sum q l has_write))
          | inr a ↦ inr (omega (arith, a, sum q l has_read))
        ])
        (omega (arith, ok.held, sum q l has_write, held))

  -- A thread that counts among the holders holds the one mark.
  held_once : holds p ≡ 1 → has_write p ≡ 0 → (s.lock.write ≡ 1) × (total has_write s.threads ≡ 0)
  held_once h w = (
    omega (arith, ok.write, ok.once, sum idle s.lock holds, h),
    omega (
      arith,
      ok.write,
      ok.once,
      sum idle s.lock holds,
      sum idle s.lock has_write,
      h,
      w,
      writes-le (set s.threads i idle),
    ),
  )

  counted : counts p ≡ 1 → 1 ≤ s.lock.read
  counted h = omega (arith, ok.read, sum idle s.lock counts, h)

IsLocked-access :
    (s : System) (i : ℕ) (p : Place)
    → i < length s.threads
    → place_of s i ≡ p
    → IsLocked s
    → IsLocked (moved s i (access p s.lock).0 (access p s.lock).1)
IsLocked-access s i idle lt e ok =
    IsLocked-same s i idle lt e ok idle s.lock (omega arith) (omega arith) refl refl ok.once
      (omega arith)
IsLocked-access s i waiting lt e ok = elim (ℕ_discrete s.lock.write 0) [
  | yes free ↦
      subst (λ x. IsLocked (moved s i x s.lock)) (sym (wait-free s.lock free))
        (IsLocked-same s i waiting lt e ok entering s.lock (omega arith) (omega arith) refl refl
          ok.once (omega arith))
  | no taken ↦
      subst (λ x. IsLocked (moved s i x s.lock)) (sym (wait-taken s.lock taken))
        (IsLocked-same s i waiting lt e ok waiting s.lock (omega arith) (omega arith) refl refl
          ok.once (omega arith))
]
IsLocked-access s i entering lt e ok =
    IsLocked-same s i entering lt e ok checking (record s.lock { read = s.lock.read + 1 })
      (omega arith) (omega arith) (omega arith) refl ok.once (omega arith)
IsLocked-access s i checking lt e ok = elim (ℕ_discrete s.lock.write 0) [
  | yes free ↦
      subst (λ x. IsLocked (moved s i x s.lock)) (sym (check-free s.lock free))
        (IsLocked-moved s i checking lt e ok reading s.lock refl refl ok.once
          (inl (omega (arith, free, ok.held, sum s i checking lt e ok reading s.lock has_write)))
          (omega (arith, free, ok.held, sum s i checking lt e ok reading s.lock has_write)))
  | no taken ↦
      subst (λ x. IsLocked (moved s i x s.lock)) (sym (check-taken s.lock taken))
        (IsLocked-same s i checking lt e ok leaving s.lock (omega arith) (omega arith) refl refl
          ok.once (omega arith))
]
IsLocked-access s i leaving lt e ok =
    IsLocked-same s i leaving lt e ok waiting (record s.lock { read = s.lock.read - 1 })
      (omega arith) (omega arith) (omega (arith, counted s i leaving lt e ok refl)) refl ok.once
      (omega arith)
IsLocked-access s i reading lt e ok =
    IsLocked-same s i reading lt e ok idle (record s.lock { read = s.lock.read - 1 }) (omega arith)
      (omega arith) (omega (arith, counted s i reading lt e ok refl)) refl ok.once (omega arith)
IsLocked-access s i trying lt e ok = elim (ℕ_discrete s.lock.write 0) [
  | yes free ↦
      subst (λ x. IsLocked (moved s i x (record s.lock { write = 1 }))) (sym (try-free s.lock free))
        (IsLocked-same s i trying lt e ok draining (record s.lock { write = 1 }) (omega arith)
          (omega arith) refl (omega (arith, free)) (omega arith) (omega (arith, free)))
  | no taken ↦
      subst (λ x. IsLocked (moved s i x (record s.lock { write = 1 })))
        (sym (try-taken s.lock taken))
        (IsLocked-same s i trying lt e ok trying (record s.lock { write = 1 }) (omega arith)
          (omega arith) refl (omega (arith, ok.once)) (omega arith) (omega (arith, ok.once)))
]
IsLocked-access s i draining lt e ok = elim (ℕ_discrete s.lock.read 0) [
  | yes free ↦
      let (one, none_writes) = held_once s i draining lt e ok refl refl in
      subst (λ x. IsLocked (moved s i x s.lock)) (sym (drain_readers-free s.lock free))
        (IsLocked-moved s i draining lt e ok writing s.lock refl refl ok.once
          (inr (
            omega (
              arith,
              free,
              ok.read,
              reads-le s.threads,
              sum s i draining lt e ok writing s.lock has_read,
            )))
          (omega (arith, one, none_writes, sum s i draining lt e ok writing s.lock has_write)))
  | no taken ↦
      subst (λ x. IsLocked (moved s i x s.lock)) (sym (drain_readers-taken s.lock taken))
        (IsLocked-same s i draining lt e ok draining s.lock (omega arith) (omega arith) refl refl
          ok.once (omega arith))
]
IsLocked-access s i writing lt e ok =
    IsLocked-same s i writing lt e ok idle (record s.lock { write = 0 }) (omega arith) (omega arith)
      refl (omega (arith, ok.write, ok.once, sum s i writing lt e ok idle s.lock holds))
      (omega arith) (omega (arith, ok.once))

pub Reachable-IsLocked : {s : System} → Reachable s → IsLocked s
Reachable-IsLocked (starts n) = record {
  read = sym (total-idle counts n refl);
  write = sym (total-idle holds n refl);
  once = omega arith;
  apart = inl (total-idle has_write n refl);
  held = omega (arith, total-idle has_write n refl);
}
Reachable-IsLocked (goes {s} before (reads i lt e)) =
    let ok = Reachable-IsLocked before in
    IsLocked-same s i idle lt e ok waiting s.lock (omega arith) (omega arith) refl refl ok.once
      (omega arith)
Reachable-IsLocked (goes {s} before (writes i lt e)) =
    let ok = Reachable-IsLocked before in
    IsLocked-same s i idle lt e ok trying s.lock (omega arith) (omega arith) refl refl ok.once
      (omega arith)
Reachable-IsLocked (goes {s} before (accesses i lt)) =
    IsLocked-access s i (place_of s i) lt refl (Reachable-IsLocked before)

-- Whatever steps the threads take, while one has the lock for writing no other has it, for reading or
-- for writing.
pub writer_alone :
    {s : System} (i j : ℕ)
    → Reachable s
    → i < length s.threads
    → j < length s.threads
    → i ≢ j
    → place_of s i ≡ writing
    → (place_of s j ≢ writing) × (place_of s j ≢ reading)
writer_alone {s} i j run in_i in_j ne e =
    let ok = Reachable-IsLocked run in
    (
      λ f. omega (
        arith,
        ok.held,
        ok.once,
        total-two has_write s.threads i j in_i in_j ne refl,
        ap has_write e,
        ap has_write f,
      ),
      λ f. elim ok.apart [
        | inl a ↦
            omega (arith, a, total-two has_write s.threads i j in_i in_j ne refl, ap has_write e)
        | inr a ↦
            omega (arith, a, total-two has_read s.threads i j in_i in_j ne refl, ap has_read f)
      ],
    )
