-- ===== src/Mq/Ring.antt =====
-- The ring of a message queue against the sequence of the messages that it holds.
use ddzproject.Prelude.{◌+◌, ◌%◌, ◌<◌, ◌≡◌, Option, some, List, map, length, arith}
use ddzproject.Mq.{Message, MessageQueue, mq_length}
use ddzproject.Prelude.Round.{copy_round}
use native.Mathlib.Nat.{mod-eq_of_lt, mod-eq-sub-mod}
use native.Mathlib.Decide.{dec_lt}

-- Head and tail lie in the ring, whose storage has `cap` slots.
pub record IsValid (q : MessageQueue) : Type 0 where
  pub storage : length q.queue ≡ q.cap
  pub head_in : q.head < q.cap
  pub tail_in : q.tail < q.cap

-- The slots from the head to the tail, oldest first.
unfoldable pub contents : MessageQueue → List (Option Message)
contents q = copy_round q.queue q.cap q.head (mq_length q)

-- The queue holds just these messages: no slot between head and tail is uninitialised.
abbrev pub Holds : MessageQueue → List Message → Type 0
Holds q ms = contents q ≡ map some ms

pub mq_length-lt : (q : MessageQueue) → IsValid q → mq_length q < q.cap
unfolding mq_length
mq_length-lt q v = ground arith

-- The tail is `mq_length` slots past the head, going round at `cap`.
pub tail-eq : (q : MessageQueue) → IsValid q → q.tail ≡ (q.head + mq_length q) % q.cap
unfolding mq_length
tail-eq q v = elim (dec_lt q.tail q.head) [
  | yes p ↦ ground (
    arith,
    mod-eq_of_lt {n = q.tail} {m = q.cap} v.tail_in,
    mod-eq-sub-mod {n = q.tail + q.cap} {m = q.cap} (omega arith),
  )
  | no p ↦ ground (arith, mod-eq_of_lt {n = q.tail} {m = q.cap} v.tail_in)
]
