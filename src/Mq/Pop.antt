-- ===== src/Mq/Pop.antt =====
-- `skynet_mq_pop`: what it returns, what it leaves, the overload record, and `_drop_queue`'s loop.
use ddzproject.Prelude.{
  ℕ, zero, suc, ◌+◌, ◌*◌, ◌≤◌, ◌<◌, ◌≡◌, ◌≢◌, refl, sym, ap, ap₂, ◌∙◌, Option, none, some, List, [],
  ◌∷◌, map, length, get_or, arith, inl, inr, ==_refl, ==_ne, lt→ltb, ◌⊎◌,
}
use ddzproject.Mq.{
  Message, MessageQueue, mq_length, pop, next_head, left_after, raise_threshold, drain,
  mq_overload_limit,
}
use native.Mathlib.Decide.{dec_le, ℕ_discrete}
use ddzproject.Mq.Ring.{IsValid, Holds, contents}
use ddzproject.Prelude.Round.{length-copy_round}
use ddzproject.Mq.Fifo.{popped, popped-length, contents_step, contents_nil, contents_cons}

-- The threshold ends at least at the length, and is left alone if it was so before; if it was
-- raised, the length is recorded as the overload.
pub raise_threshold_lem :
    (fuel n : ℕ) (s : ℕ × ℕ)
    → 0 < s.1
    → n ≤ s.1 + fuel
    → (n ≤ (raise_threshold fuel n s).1)
      × (n ≤ s.1 → raise_threshold fuel n s ≡ s)
      × (s.1 < n → (raise_threshold fuel n s).0 ≡ n)
unfolding raise_threshold
raise_threshold_lem zero n s pos enough = (omega arith, λ _. refl, λ h. absurd (omega arith))
raise_threshold_lem (suc fuel) n s pos enough = (
  ground (arith, raise_threshold_lem fuel n (n, s.1 * 2)),
  λ h. ground arith,
  λ h. recorded h (dec_le n (s.1 * 2)) (raise_threshold_lem fuel n (n, s.1 * 2)),
)
  where
    recorded :
        s.1 < n
        → Dec (n ≤ s.1 * 2)
        → (0 < s.1 * 2
            → n ≤ s.1 * 2 + fuel
            → (n ≤ (raise_threshold fuel n (n, s.1 * 2)).1)
              × (n ≤ s.1 * 2 → raise_threshold fuel n (n, s.1 * 2) ≡ (n, s.1 * 2))
              × (s.1 * 2 < n → (raise_threshold fuel n (n, s.1 * 2)).0 ≡ n))
        → (raise_threshold (suc fuel) n s).0 ≡ n
    recorded h (yes p) ih =
        rw (lt→ltb s.1 n h, raise_threshold)
          (ap (λ (r : ℕ × ℕ). r.0) ((ih (omega arith) (omega arith)).1 p))
    recorded h (no p) ih =
        rw (lt→ltb s.1 n h, raise_threshold) ((ih (omega arith) (omega arith)).2 (omega arith))

pop_empty_eq :
    (q : MessageQueue)
    → q.head ≡ q.tail
    → pop q ≡ (1, none, record q { overload_threshold = mq_overload_limit; in_global = 0 })
unfolding pop
pop_empty_eq q e = rw (e, ==_refl q.tail) refl

-- The record that the threshold loop leaves.
raised : MessageQueue → ℕ × ℕ
raised q = raise_threshold (left_after q) (left_after q) (q.overload, q.overload_threshold)

pop_message_eq :
    (q : MessageQueue)
    → q.head ≢ q.tail
    → pop q ≡ (
      0,
      get_or q.queue q.head none,
      record (popped q) { overload = (raised q).0; overload_threshold = (raised q).1 },
    )
unfolding pop popped raised
pop_message_eq q ne = rw (==_ne q.head q.tail ne) refl

-- What `skynet_mq_pop` owes a queue that holds `ms`.
abbrev pub Pops : MessageQueue → List Message → ℕ × Option Message × MessageQueue → Type 0
Pops q [] r = r ≡ (1, none, record q { overload_threshold = mq_overload_limit; in_global = 0 })
Pops q (m ∷ ms) r =
    (r.0 ≡ 0)
    × (r.1 ≡ some m)
    × IsValid (r.2)
    × Holds (r.2) ms
    × (r.2.in_global ≡ q.in_global)
    × (r.2.next ≡ q.next)
    × (r.2.release ≡ q.release)

-- `skynet_mq_pop` on a valid queue: with no message it returns 1, resets the threshold and takes
-- the queue's mark off; else it returns 0 and the oldest message, leaves the rest in order in a
-- valid queue, and changes neither the mark, the link nor the release flag.
pub pop_refines :
    (q : MessageQueue) (ms : List Message) → IsValid q → Holds q ms → Pops q ms (pop q)
pop_refines q [] v h = pop_empty_eq q (contents_nil q v h)
pop_refines q (m ∷ ms) v h = rw (pop_message_eq q ne) (
  refl,
  front,
  unfold popped next_head in ground arith,
  unfold contents mq_length in rest,
  unfold popped in refl,
  unfold popped in refl,
  unfold popped in refl,
)
  where
    ne : q.head ≢ q.tail
    ne = contents_cons q (some m) (map some ms) v h

    both : get_or q.queue q.head none ∷ contents (popped q) ≡ some m ∷ map some ms
    both = sym (contents_step q v ne) ∙ h

    front : get_or q.queue q.head none ≡ some m
    front = cc both

    rest : contents (popped q) ≡ map some ms
    rest = cc both

popped_length_eq :
    (q : MessageQueue) → IsValid q → q.head ≢ q.tail → mq_length (pop q).2 ≡ left_after q
unfolding mq_length popped
popped_length_eq q v ne = rw (pop_message_eq q ne) (sym ((popped-length q v ne).1))

-- After a message is popped, the number of messages left is at most the overload threshold; the
-- threshold and the overload record change only if it was above the old threshold, and then the
-- record is that number.
pop_overload :
    (q : MessageQueue) (m : Message) (ms : List Message)
    → IsValid q
    → Holds q (m ∷ ms)
    → 0 < q.overload_threshold
    → (mq_length (pop q).2 ≤ (pop q).2.overload_threshold)
      × (mq_length (pop q).2 ≤ q.overload_threshold
          → ((pop q).2.overload ≡ q.overload)
            × ((pop q).2.overload_threshold ≡ q.overload_threshold))
      × (q.overload_threshold < mq_length (pop q).2 → (pop q).2.overload ≡ mq_length (pop q).2)
pop_overload q m ms v h pos =
    rw (popped_length_eq q v ne, pop_message_eq q ne)
      (
        unfold raised in law.0,
        unfold raised in
            (λ small.
              (ap (λ (r : ℕ × ℕ). r.0) (law.1 small), ap (λ (r : ℕ × ℕ). r.1) (law.1 small))),
        unfold raised in law.2,
      )
  where
    ne : q.head ≢ q.tail
    ne = contents_cons q (some m) (map some ms) v h

    law :
        (left_after q ≤ (raised q).1)
        × (left_after q ≤ q.overload_threshold → raised q ≡ (q.overload, q.overload_threshold))
        × (q.overload_threshold < left_after q → (raised q).0 ≡ left_after q)
    law =
        unfold raised in
        raise_threshold_lem (left_after q) (left_after q) (q.overload, q.overload_threshold) pos
          (omega arith)

drain_nil :
    (fuel : ℕ) (q : MessageQueue)
    → IsValid q
    → Holds q []
    → ((drain (suc fuel) q).0 ≡ []) × ((drain (suc fuel) q).1.in_global ≡ 0)
unfolding drain
drain_nil fuel q v h = rw (pop_refines q [] v h) (refl, refl)

drain_cons :
    (fuel : ℕ) (q : MessageQueue) (m : Message) (ms : List Message)
    → Pops q (m ∷ ms) (pop q)
    → ((drain fuel (pop q).2).0 ≡ map some ms) × ((drain fuel (pop q).2).1.in_global ≡ 0)
    → ((drain (suc fuel) q).0 ≡ map some (m ∷ ms)) × ((drain (suc fuel) q).1.in_global ≡ 0)
unfolding drain
drain_cons fuel q m ms p rest = rw (p.0) (ap₂ ◌∷◌ (p.1) (rest.0), rest.1)

-- `_drop_queue`'s loop hands every message of the queue to `drop_func`, each once and in order,
-- and ends, with more rounds than messages, at an unmarked queue.
pub drain_lem :
    (fuel : ℕ) (q : MessageQueue) (ms : List Message)
    → IsValid q
    → Holds q ms
    → length ms < fuel
    → ((drain fuel q).0 ≡ map some ms) × ((drain fuel q).1.in_global ≡ 0)
drain_lem zero q ms v h lt = absurd (omega arith)
drain_lem (suc fuel) q [] v h lt = drain_nil fuel q v h
drain_lem (suc fuel) q (m ∷ ms) v h lt =
    let p = pop_refines q (m ∷ ms) v h in
    drain_cons fuel q m ms p (drain_lem fuel (pop q).2 ms (p.2) (p.3) (omega arith))

-- `skynet_mq_length` is the number of messages held.
pub mq_length-Holds : (q : MessageQueue) (ms : List Message) → Holds q ms → mq_length q ≡ length ms
unfolding contents
mq_length-Holds q ms h =
    omega (arith, length-copy_round q.queue q.cap q.head (mq_length q), ap length h, length-map ms)
  where
    length-map : (xs : List Message) → length (map {B = Option Message} some xs) ≡ length xs
    length-map [] = refl
    length-map (x ∷ xs) = ap suc (length-map xs)

-- On any valid queue: either a message is taken and the mark stays, or the queue is empty and the
-- mark is taken off; the queue stays valid and keeps its link.
pub pop-IsValid :
    (q : MessageQueue)
    → IsValid q
    → IsValid (pop q).2
      × ((pop q).2.next ≡ q.next)
      × (((pop q).0 ≡ 0) × ((pop q).2.in_global ≡ q.in_global)
          ⊎ ((pop q).0 ≡ 1) × ((pop q).2.in_global ≡ 0) × ((pop q).2.head ≡ (pop q).2.tail))
pop-IsValid q v = elim (ℕ_discrete q.head q.tail) [
  | yes e ↦ rw (pop_empty_eq q e) (
    record { storage = v.storage; head_in = v.head_in; tail_in = v.tail_in },
    refl,
    inr (refl, refl, e),
  )
  | no ne ↦ rw (pop_message_eq q ne) (
      unfold popped next_head in
      (
        record { storage = v.storage; head_in = ground arith; tail_in = v.tail_in },
        refl,
        inl (refl, refl),
      ))
]
