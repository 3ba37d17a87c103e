-- ===== src/Netpack/Ring.antt =====
-- The ring of packets of lua-netpack.c against the sequence of the packets that it holds.
use ddzproject.Prelude.{
  ℕ, suc, ◌+◌, ◌-◌, ◌%◌, ◌<◌, ◌≡◌, ◌≢◌, refl, sym, ap, ◌∙◌, Option, none, some, List, [], ◌∷◌, ◌++◌,
  ltb, if◌then◌else◌, length, replicate, length-set, length-append, length-replicate, ◌==◌, arith,
  inl, inr, Bool-cases,
}
use ddzproject.Prelude.Round.{copy_round, copy_round-set, copy_round-expand, length-copy_round}
use ddzproject.Netpack.{NetPack, Queue, queue_size, get_queue, expand_queue, store_data, push_data}
use native.Mathlib.Nat.{mod-eq_of_lt, mod-eq-sub-mod}
use native.Mathlib.Decide.{dec_lt}

pub record IsRing (q : Queue) : Type 0 where
  pub storage : length q.queue ≡ q.cap
  pub head_in : q.head < q.cap
  pub tail_in : q.tail < q.cap

unfoldable pub ring_length : Queue → ℕ
ring_length q = if ltb q.tail q.head then q.tail + q.cap - q.head else q.tail - q.head

unfoldable pub ring : Queue → List (Option NetPack)
ring q = copy_round q.queue q.cap q.head (ring_length q)

ring_length-lt : (q : Queue) → IsRing q → ring_length q < q.cap
unfolding ring_length
ring_length-lt q v = ground arith

tail-eq : (q : Queue) → IsRing q → q.tail ≡ (q.head + ring_length q) % q.cap
unfolding ring_length
tail-eq q v = elim (dec_lt q.tail q.head) [
  | yes p ↦ ground (
    arith,
    mod-eq_of_lt {n = q.tail} {m = q.cap} v.tail_in,
    mod-eq-sub-mod {n = q.tail + q.cap} {m = q.cap} (omega arith),
  )
  | no p ↦ ground (arith, mod-eq_of_lt {n = q.tail} {m = q.cap} v.tail_in)
]

stored-slots :
    (q : Queue) (np : NetPack)
    → IsRing q
    → copy_round (store_data q np).queue q.cap q.head (suc (ring_length q)) ≡ ring q ++ some np ∷ []
unfolding store_data ring
stored-slots q np v =
    copy_round-set q.queue q.cap q.head (ring_length q) q.tail (some np) (sym v.storage) v.head_in
      (ring_length-lt q v) (tail-eq q v)

stored-IsRing : (q : Queue) (np : NetPack) → IsRing q → IsRing (store_data q np)
unfolding store_data
stored-IsRing q np v = ground (arith, length-set q.queue q.tail (some np))

-- Room is left, or none.
stored-length :
    (q : Queue) (np : NetPack)
    → IsRing q
    → q.head ≢ (store_data q np).tail
    → ring_length (store_data q np) ≡ suc (ring_length q)
unfolding store_data ring_length
stored-length q np v ne = ground arith

stored-full :
    (q : Queue) (np : NetPack)
    → IsRing q
    → q.head ≡ (store_data q np).tail
    → suc (ring_length q) ≡ q.cap
unfolding store_data ring_length
stored-full q np v e = ground arith

expand-IsRing : (q : Queue) → IsRing q → IsRing (expand_queue q)
unfolding expand_queue
expand-IsRing q v = ground (
  arith,
  length-append (copy_round q.queue q.cap q.head q.cap)
      (replicate {A = Option NetPack} queue_size none),
  length-copy_round q.queue q.cap q.head q.cap,
  length-replicate {A = Option NetPack} queue_size none,
)

expand-ring : (q : Queue) → ring (expand_queue q) ≡ copy_round q.queue q.cap q.head q.cap
unfolding ring ring_length expand_queue
expand-ring q =
    ap
      (λ n.
        copy_round (copy_round q.queue q.cap q.head q.cap ++ replicate queue_size none)
          (q.cap + queue_size) 0 n)
      (ground arith)
    ∙ copy_round-expand q.queue q.cap q.head queue_size

-- What `push_data` leaves.
unfoldable pub after_push : Queue → NetPack → Queue
after_push q np =
    if q.head == (store_data q np).tail then expand_queue (store_data q np) else store_data q np

pub push_data-eq :
    (S : Option Queue) (fd : ℕ) (b : List ℕ) (n : ℕ)
    → push_data S fd b n
      ≡ some (after_push (get_queue S) (record { id = fd; size = n; buffer = b }))
unfolding push_data store_data after_push
push_data-eq S fd b n = refl

pub after_push-IsRing : (q : Queue) (np : NetPack) → IsRing q → IsRing (after_push q np)
unfolding after_push
after_push-IsRing q np v = elim (Bool-cases (q.head == (store_data q np).tail)) [
  | inl e ↦ rw e (expand-IsRing (store_data q np) (stored-IsRing q np v))
  | inr e ↦ rw e (stored-IsRing q np v)
]

pub after_push-ring :
    (q : Queue) (np : NetPack) → IsRing q → ring (after_push q np) ≡ ring q ++ some np ∷ []
unfolding after_push
after_push-ring q np v = elim (Bool-cases (q.head == (store_data q np).tail)) [
  | inl e ↦ rw e (expand-ring (store_data q np) ∙ full (ground arith))
  | inr e ↦ rw e (room (ground arith))
]
  where
    full :
        q.head ≡ (store_data q np).tail
        → copy_round
            (store_data q np).queue
            (store_data q np).cap
            (store_data q np).head
            (store_data q np).cap
          ≡ ring q ++ some np ∷ []
    full e =
        unfold store_data in
        (ap (λ n. copy_round (store_data q np).queue q.cap q.head n) (sym (stored-full q np v e))
          ∙ stored-slots q np v)

    room : q.head ≢ (store_data q np).tail → ring (store_data q np) ≡ ring q ++ some np ∷ []
    room ne =
        unfold store_data ring in
        (ap (λ n. copy_round (store_data q np).queue q.cap q.head n) (stored-length q np v ne)
          ∙ stored-slots q np v)

pub after_push-hash : (q : Queue) (np : NetPack) → (after_push q np).hash ≡ q.hash
unfolding after_push expand_queue store_data
after_push-hash q np = ground arith

pub fresh-IsRing : IsRing (get_queue none)
unfolding get_queue
fresh-IsRing = record {
  storage = length-replicate {A = Option NetPack} queue_size none;
  head_in = omega arith;
  tail_in = omega arith;
}

pub length-ring : (q : Queue) → IsRing q → length (ring q) < q.cap
unfolding ring
length-ring q v =
    omega (arith, length-copy_round q.queue q.cap q.head (ring_length q), ring_length-lt q v)
