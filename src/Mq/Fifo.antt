-- ===== src/Mq/Fifo.antt =====
-- `skynet_mq_push` and `skynet_mq_pop` against a queue without bound.
use ddzproject.Prelude.{
  ℕ, suc, ◌+◌, ◌*◌, ◌%◌, ◌≡◌, ◌≢◌, refl, sym, ap, ap₂, ◌∙◌, Option, none, some, List, [], ◌∷◌, ◌++◌,
  leb, if◌then◌else◌, length, get_or, set, replicate, length-set, length-append, length-replicate,
  ◌==◌, arith, inl, inr, Bool-cases,
}
use ddzproject.Mq.{Message, MessageQueue, mq_length, expand_queue, enqueue, next_head, left_after}
use ddzproject.Mq.Ring.{IsValid, Holds, contents, mq_length-lt, tail-eq}
use ddzproject.Prelude.Round.{
  copy_round, copy_round-set, copy_round-expand, copy_round-mod, length-copy_round,
}
use native.Mathlib.Nat.{mod-eq_of_lt, mod-eq-sub-mod}
use native.Mathlib.Decide.{dec_lt}
use mathlib.Core.List.{map-append}

next_tail : MessageQueue → ℕ
next_tail q = if leb q.cap (q.tail + 1) then 0 else q.tail + 1

stored : MessageQueue → Message → MessageQueue
unfolding next_tail
stored q m = record q { queue = set q.queue q.tail (some m); tail = next_tail q }

enqueue-cases :
    (q : MessageQueue) (m : Message)
    → enqueue q m ≡ (if q.head == next_tail q then expand_queue (stored q m) else stored q m)
unfolding enqueue stored
enqueue-cases q m = refl

-- Room is left: the message is one more, past the others.
stored-contents :
    (q : MessageQueue) (m : Message)
    → IsValid q
    → copy_round (stored q m).queue q.cap q.head (suc (mq_length q)) ≡ contents q ++ some m ∷ []
unfolding stored contents
stored-contents q m v =
    copy_round-set q.queue q.cap q.head (mq_length q) q.tail (some m) (sym v.storage) v.head_in
      (mq_length-lt q v) (tail-eq q v)

mq_length-stored :
    (q : MessageQueue) (m : Message)
    → IsValid q
    → q.head ≢ next_tail q
    → mq_length (stored q m) ≡ suc (mq_length q)
unfolding mq_length stored next_tail
mq_length-stored q m v ne = ground arith

mq_length_full : (q : MessageQueue) → IsValid q → q.head ≡ next_tail q → suc (mq_length q) ≡ q.cap
unfolding mq_length next_tail
mq_length_full q v e = ground arith

stored-IsValid : (q : MessageQueue) (m : Message) → IsValid q → IsValid (stored q m)
unfolding stored next_tail
stored-IsValid q m v = ground (arith, length-set q.queue q.tail (some m))

expand-IsValid : (q : MessageQueue) → IsValid q → IsValid (expand_queue q)
unfolding expand_queue
expand-IsValid q v = ground (
  arith,
  length-append (copy_round q.queue q.cap q.head q.cap) (replicate {A = Option Message} q.cap none),
  length-copy_round q.queue q.cap q.head q.cap,
  length-replicate {A = Option Message} q.cap none,
)

expand-contents :
    (q : MessageQueue) → contents (expand_queue q) ≡ copy_round q.queue q.cap q.head q.cap
unfolding contents mq_length expand_queue
expand-contents q =
    ap
      (λ n.
        copy_round (copy_round q.queue q.cap q.head q.cap ++ replicate q.cap none) (q.cap * 2) 0 n)
      (ground arith)
    ∙ ap (λ c. copy_round (copy_round q.queue q.cap q.head q.cap ++ replicate q.cap none) c 0 q.cap)
        {x = q.cap * 2} {y = q.cap + q.cap} (omega arith)
    ∙ copy_round-expand q.queue q.cap q.head q.cap

pub enqueue-IsValid : (q : MessageQueue) (m : Message) → IsValid q → IsValid (enqueue q m)
enqueue-IsValid q m v = elim (Bool-cases (q.head == next_tail q)) [
  | inl e ↦ rw (enqueue-cases q m, e) (expand-IsValid (stored q m) (stored-IsValid q m v))
  | inr e ↦ rw (enqueue-cases q m, e) (stored-IsValid q m v)
]

pub contents-enqueue :
    (q : MessageQueue) (m : Message)
    → IsValid q
    → contents (enqueue q m) ≡ contents q ++ some m ∷ []
contents-enqueue q m v = elim (Bool-cases (q.head == next_tail q)) [
  | inl e ↦ rw (enqueue-cases q m, e) (expand-contents (stored q m) ∙ full (ground arith))
  | inr e ↦ rw (enqueue-cases q m, e) (room (ground arith))
]
  where
    full :
        q.head ≡ next_tail q
        → copy_round (stored q m).queue (stored q m).cap (stored q m).head (stored q m).cap
          ≡ contents q ++ some m ∷ []
    full e =
        unfold stored in
        (ap (λ n. copy_round (stored q m).queue q.cap q.head n) (sym (mq_length_full q v e))
          ∙ stored-contents q m v)

    room : q.head ≢ next_tail q → contents (stored q m) ≡ contents q ++ some m ∷ []
    room ne =
        unfold stored contents in
        (ap (λ n. copy_round (stored q m).queue q.cap q.head n) (mq_length-stored q m v ne)
          ∙ stored-contents q m v)

-- `skynet_mq_push` on a valid queue, expanding it or not, leaves it valid and holding the message
-- after those that it held, in their order.
pub enqueue_refines :
    (q : MessageQueue) (m : Message) (ms : List Message)
    → IsValid q
    → Holds q ms
    → IsValid (enqueue q m) × Holds (enqueue q m) (ms ++ m ∷ [])
enqueue_refines q m ms v h = (
  enqueue-IsValid q m v,
  contents-enqueue q m v ∙ (ap (λ xs. xs ++ some m ∷ []) h ∙ sym (map-append some ms (m ∷ []))),
)

unfoldable pub popped : MessageQueue → MessageQueue
popped q = record q { head = next_head q }

pub popped-length :
    (q : MessageQueue)
    → IsValid q
    → q.head ≢ q.tail
    → (mq_length q ≡ suc (mq_length (popped q))) × (left_after q ≡ mq_length (popped q))
unfolding mq_length popped next_head left_after
popped-length q v ne = ground arith

next_head-mod : (q : MessageQueue) → IsValid q → (q.head + 1) % q.cap ≡ next_head q % q.cap
unfolding next_head
next_head-mod q v = elim (dec_lt (q.head + 1) q.cap) [
  | yes p ↦ ground arith
  | no p ↦
      let e : q.head + 1 ≡ q.cap = omega (arith, v.head_in) in
      ground (
        arith,
        mod-eq-sub-mod {n = q.cap} {m = q.cap} (omega arith),
        mod-eq_of_lt {n = 0} {m = q.cap} (omega (arith, v.head_in)),
      )
]

pub contents_step :
    (q : MessageQueue)
    → IsValid q
    → q.head ≢ q.tail
    → contents q ≡ get_or q.queue q.head none ∷ contents (popped q)
unfolding contents copy_round
contents_step q v ne =
    ap (λ n. copy_round q.queue q.cap q.head n) (popped-length q v ne).0
    ∙ ap₂ ◌∷◌ (ap (λ i. get_or q.queue i none) (mod-eq_of_lt {n = q.head} {m = q.cap} v.head_in)) (
        unfold popped in
        copy_round-mod q.queue q.cap (q.head + 1) (next_head q) (mq_length (popped q))
          (next_head-mod q v))

pub contents_nil : (q : MessageQueue) → IsValid q → contents q ≡ [] → q.head ≡ q.tail
unfolding contents mq_length
contents_nil q v e =
    ground (arith, length-copy_round q.queue q.cap q.head (mq_length q), ap length e)

pub contents_cons :
    (q : MessageQueue) (x : Option Message) (xs : List (Option Message))
    → IsValid q
    → contents q ≡ x ∷ xs
    → q.head ≢ q.tail
unfolding contents mq_length
contents_cons q x xs v e p =
    ground (arith, length-copy_round q.queue q.cap q.head (mq_length q), ap length e)
