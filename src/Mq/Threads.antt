-- ===== src/Mq/Threads.antt =====
-- `skynet_mq_create`, `skynet_mq_push`, `skynet_mq_pop` and `skynet_mq_overload` by threads that
-- run side by side, and the runs of such threads.
use ddzproject.Prelude.{
  ℕ, ◌+◌, ◌≤◌, ◌≡◌, refl, ◌∙◌, some, [], ◌∷◌, ◌++◌, ◌==◌, arith, Bool-cases, inl, inr, ◌⊎◌,
}
use ddzproject.Mq.{Message, MessageQueue, Memory, globalmq_push, mq_push, enqueue, wake}
use ddzproject.Mq.Ring.{IsValid}
use ddzproject.Mq.Fifo.{enqueue-IsValid}
use ddzproject.Mq.Chain.{count, count_self, count_other, count-append, update_self}
use ddzproject.Mq.Global.{globalmq_push_refines}
use ddzproject.Mq.Schedule.{
  Holders, Fits, IsScheduled, saved, Listed-saved, Fits-saved, Fits-at, Fits-LinksOnly,
}

enqueue_fields :
    (q : MessageQueue) (m : Message)
    → ((enqueue q m).next ≡ q.next) × ((enqueue q m).in_global ≡ q.in_global)
unfolding enqueue
enqueue_fields q m = ground arith

marked : MessageQueue → Message → MessageQueue
marked q m = record (enqueue q m) { in_global = 1 }

mq_push_eq :
    (s : Memory) (p : ℕ) (m : Message) (q : MessageQueue)
    → s.store p ≡ some q
    → mq_push p m s ≡ wake p (enqueue q m) s
unfolding mq_push
mq_push_eq s p m q e = ground arith

wake_marked :
    (s : Memory) (p : ℕ) (q : MessageQueue) → q.in_global ≡ 1 → wake p q s ≡ some (tt, saved s p q)
unfolding wake saved
wake_marked s p q g = rw g refl

wake_unmarked :
    (s : Memory) (p : ℕ) (q : MessageQueue)
    → q.in_global ≡ 0
    → wake p q s ≡ globalmq_push p (saved s p (record q { in_global = 1 }))
unfolding wake saved
wake_unmarked s p q g = elim (Bool-cases (q.in_global == 0)) [
  | inl t ↦ rw t refl
  | inr t ↦ absurd (ground arith)
]

-- Only the links change, so the fields that `Fits` reads stay.
Fits-marked :
    (q : MessageQueue) (n : ℕ) → IsValid q → n ≡ 1 → Fits (some (record q { in_global = 1 })) n
Fits-marked q n v e = (
  record { storage = v.storage; head_in = v.head_in; tail_in = v.tail_in },
  e,
  omega arith,
  λ z. absurd (omega arith),
)

-- A message is sent to a queue in memory, held or not: no assert fails, and the queue is put in
-- the list if it was neither there nor held.
pub send :
    (s : Memory) (held : Holders) (p : ℕ) (m : Message) (q : MessageQueue)
    → IsScheduled s held
    → s.store p ≡ some q
    → (s' : Memory) × (mq_push p m s ≡ some (tt, s')) × IsScheduled s' held
send s held p m q i e = elim (le-one-cases q.in_global (f.2)) [
  | inl g ↦ unmarked g
  | inr g ↦ (
    saved s p (enqueue q m),
    mq_push_eq s p m q e ∙ wake_marked s p (enqueue q m) (same.1 ∙ g),
    record {
      ps = i.ps;
      listed = Listed-saved s i.ps p q (enqueue q m) e (same.0) i.listed;
      fits =
          Fits-saved s p (enqueue q m) (λ j. count j i.ps + held j) (λ j. count j i.ps + held j)
            (
              enqueue-IsValid q m (f.0),
              omega (arith, f.1, same.1),
              omega (arith, f.2, same.1),
              λ z. absurd (omega (arith, z, g, same.1)),
            )
            (λ j ne. refl) i.fits;
    },
  )
]
  where
    f : Fits (some q) (count p i.ps + held p)
    f = Fits-at i p q e

    same : ((enqueue q m).next ≡ q.next) × ((enqueue q m).in_global ≡ q.in_global)
    same = enqueue_fields q m

    le-one-cases : (n : ℕ) → n ≤ 1 → (n ≡ 0) ⊎ (n ≡ 1)
    le-one-cases n h = omega arith

    new : MessageQueue
    new = record (enqueue q m) { in_global = 1 }

    unmarked :
        q.in_global ≡ 0 → (s' : Memory) × (mq_push p m s ≡ some (tt, s')) × IsScheduled s' held
    unmarked g =
        let l = Listed-saved s i.ps p q new e (same.0) i.listed in
        let (s', eq, l', links) =
          globalmq_push_refines (saved s p new) i.ps p new l
            (unfold saved in update_self s.store p (some new)) (omega (arith, f.1)) in
        (
          s',
          mq_push_eq s p m q e ∙ (wake_unmarked s p (enqueue q m) (same.1 ∙ g) ∙ eq),
          record {
            ps = i.ps ++ p ∷ [];
            listed = l';
            fits =
                Fits-LinksOnly (saved s p new) s' (λ j. count j (i.ps ++ p ∷ []) + held j)
                  (λ j. count j (i.ps ++ p ∷ []) + held j) links
                  (Fits-saved s p new (λ j. count j i.ps + held j)
                    (λ j. count j (i.ps ++ p ∷ []) + held j)
                    (Fits-marked (enqueue q m) (count p (i.ps ++ p ∷ []) + held p)
                      (enqueue-IsValid q m (f.0))
                      (omega (arith, f.1, g, count-append p i.ps (p ∷ []), count_self p [])))
                    (λ j ne. omega (arith, count-append j i.ps (p ∷ []), count_other p j [] ne))
                    i.fits)
                  (λ j. refl);
          },
        )
