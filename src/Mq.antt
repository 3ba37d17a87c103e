-- ===== src/Mq.antt =====
-- Server/skynet/skynet-src/skynet_mq.c: the message queue of a service, a ring that grows, and the
-- global list of the queues that have work. A queue is a cell of `store`, a pointer is its number,
-- and `next` links the queues of the global list. Every operation runs under the queue's or the
-- list's spin lock, so each is one step. `none` is a failed assert or an access to freed memory.
pub mod Ring
pub mod Fifo
pub mod Pop
pub mod Chain
pub mod Global
pub mod Schedule
pub mod Threads
pub mod Run
pub mod Safety
mod Tests
use ddzproject.Prelude.Round.{copy_round}
use ddzproject.Prelude.{
  ℕ, zero, suc, ◌+◌, ◌-◌, ◌*◌, ◌%◌, Bool, true, false, Option, none, some, List, [], ◌∷◌, ◌++◌, ltb,
  leb, ◌==◌, if◌then◌else◌, get_or, set, replicate,
}

-- `struct skynet_message`; `data` is a pointer that the queue only moves.
pub record Message : Type 0 where
  pub source : ℕ
  pub session : ℕ
  pub payload : ℕ
  pub sz : ℕ

abbrev pub default_queue_size : ℕ
default_queue_size = 64

abbrev pub mq_overload_limit : ℕ
mq_overload_limit = 1024

-- A slot that nothing was written to is `none`.
pub record MessageQueue : Type 0 where
  pub handle : ℕ
  pub cap : ℕ
  pub head : ℕ
  pub tail : ℕ
  pub release : ℕ
  pub in_global : ℕ
  pub overload : ℕ
  pub overload_threshold : ℕ
  pub queue : List (Option Message)
  pub next : Option ℕ

pub create_queue : ℕ → MessageQueue
create_queue h = record {
  handle = h;
  cap = default_queue_size;
  head = 0;
  tail = 0;
  release = 0;
  in_global = 1;
  overload = 0;
  overload_threshold = mq_overload_limit;
  queue = replicate default_queue_size none;
  next = none;
}

pub mq_length : MessageQueue → ℕ
mq_length q = if leb q.head q.tail then q.tail - q.head else q.tail + q.cap - q.head

pub mq_overload : MessageQueue → ℕ × MessageQueue
mq_overload q = if q.overload == 0 then (0, q) else (q.overload, record q { overload = 0 })

-- `while (length > q->overload_threshold)`, over the pair of `overload` and `overload_threshold`.
-- The threshold is positive and doubles, so `length` rounds are enough.
pub raise_threshold : ℕ → ℕ → ℕ × ℕ → ℕ × ℕ
raise_threshold zero length s = s
raise_threshold (suc fuel) length s = elim (ltb s.1 length) [
  | true ↦ raise_threshold fuel length (length, s.1 * 2)
  | false ↦ s
]

-- The three parts of the branch of `skynet_mq_pop` that finds a message.
pub next_head : MessageQueue → ℕ
next_head q = if leb q.cap (q.head + 1) then 0 else q.head + 1

pub left_after : MessageQueue → ℕ
unfolding next_head
left_after q =
    if ltb q.tail (next_head q) then q.tail + q.cap - next_head q else q.tail - next_head q

-- The number returned is 0 if there was a message.
pub pop : MessageQueue → ℕ × Option Message × MessageQueue
unfolding next_head left_after
pop q =
    if q.head == q.tail
    then (1, none, record q { overload_threshold = mq_overload_limit; in_global = 0 })
    else let (o, t) =
        raise_threshold (left_after q) (left_after q) (q.overload, q.overload_threshold) in
      (
        0,
        get_or q.queue q.head none,
        record q { head = next_head q; overload = o; overload_threshold = t },
      )

pub expand_queue : MessageQueue → MessageQueue
expand_queue q = record q {
  head = 0;
  tail = q.cap;
  cap = q.cap * 2;
  queue = copy_round q.queue q.cap q.head q.cap ++ replicate q.cap none;
}

-- `skynet_mq_push` up to the test of `in_global`.
pub enqueue : MessageQueue → Message → MessageQueue
unfolding expand_queue
enqueue q m =
    let t = if leb q.cap (q.tail + 1) then 0 else q.tail + 1 in
    let q' : MessageQueue = record q { queue = set q.queue q.tail (some m); tail = t } in
    if q.head == t then expand_queue q' else q'

-- The queues in memory and the global list.
pub record Memory : Type 0 where
  pub store : ℕ → Option MessageQueue
  pub ghead : Option ℕ
  pub gtail : Option ℕ

-- `skynet_mq_init`, before any queue is created.
pub empty_memory : Memory
empty_memory = record { store = λ j. none; ghead = none; gtail = none }

abbrev pub M : Type 0 → Type 0
M A = Memory → Option (A × Memory)

abbrev pub pure : {A : Type 0} → A → M A
pure a s = some (a, s)

infixl 5 ◌>>=◌ ◌>>◌
abbrev pub ◌>>=◌ : {A B : Type 0} → M A → (A → M B) → M B
◌>>=◌ m f s = elim (m s) [ none ↦ none | some (a, s') ↦ f a s' ]

abbrev pub ◌>>◌ : {B : Type 0} → M (Unit {0}) → M B → M B
m >> k = m >>= λ _. k

abbrev pub is_none {ℓ} : {A : Type ℓ} → Option A → Bool
is_none none = true
is_none (some x) = false

abbrev pub assert : Bool → M (Unit {0})
assert true s = some (tt, s)
assert false s = none

abbrev pub update : (ℕ → Option MessageQueue) → ℕ → Option MessageQueue → ℕ → Option MessageQueue
update f p v j = if p == j then v else f j

pub load : ℕ → M MessageQueue
load p s = elim (s.store p) [ none ↦ none | some q ↦ some (q, s) ]

pub save : ℕ → MessageQueue → M (Unit {0})
save p q s = some (tt, record s { store = update s.store p (some q) })

pub set_tail : Option ℕ → M (Unit {0})
set_tail t s = some (tt, record s { gtail = t })

pub set_head : Option ℕ → M (Unit {0})
set_head h s = some (tt, record s { ghead = h })

-- The branch of `skynet_globalmq_push` on `q->tail`.
pub link_after : ℕ → Option ℕ → M (Unit {0})
unfolding load save set_tail set_head
link_after p none = do set_head (some p); set_tail (some p)
link_after p (some t) = do q ← load t; save t (record q { next = some p }); set_tail (some p)

pub globalmq_push : ℕ → M (Unit {0})
unfolding load link_after
globalmq_push p s = (do q ← load p; assert (is_none q.next); link_after p s.gtail) s

abbrev pub same_pointer : Option ℕ → ℕ → Bool
same_pointer none p = false
same_pointer (some t) p = t == p

-- The list's tail is reset when its last queue goes.
pub unlink_tail : ℕ → Option ℕ → M (Unit {0})
unfolding set_tail
unlink_tail p (some n) = pure tt
unlink_tail p none = λ s. (do assert (same_pointer s.gtail p); set_tail none) s

pub unlink_head : Option ℕ → M (Option ℕ)
unfolding load save set_head unlink_tail
unlink_head none = pure none
unlink_head (some p) = do
  q ← load p
  set_head q.next
  unlink_tail p q.next
  save p (record q { next = none })
  pure (some p)

pub globalmq_pop : M (Option ℕ)
unfolding unlink_head
globalmq_pop s = unlink_head s.ghead s

-- `skynet_mq_create` at a pointer that malloc returned.
pub mq_create : ℕ → ℕ → M (Unit {0})
unfolding create_queue save
mq_create p h = save p (create_queue h)

-- The end of `skynet_mq_push`: a queue that is not marked is marked and put in the global list.
pub wake : ℕ → MessageQueue → M (Unit {0})
unfolding save
wake p q =
    if q.in_global == 0 then (do save p (record q { in_global = 1 }); globalmq_push p) else save p q

pub mq_push : ℕ → Message → M (Unit {0})
unfolding load
mq_push p m = do q ← load p; wake p (enqueue q m)

pub mq_pop : ℕ → M (ℕ × Option Message)
unfolding load save
mq_pop p = do q ← load p; let r = pop q; save p (r.2); pure (r.0, r.1)

-- `skynet_mq_overload` on a queue in memory.
pub mq_check_overload : ℕ → M ℕ
unfolding load save
mq_check_overload p = do q ← load p; let r = mq_overload q; save p (r.1); pure (r.0)

pub mq_mark_release : ℕ → M (Unit {0})
unfolding load save globalmq_push
mq_mark_release p = do
  q ← load p
  assert (q.release == 0)
  save p (record q { release = 1 })
  if q.in_global == 1 then pure tt else globalmq_push p

-- `_release`: the queue is freed.
pub release : ℕ → M (Unit {0})
unfolding load
release p = do
  q ← load p
  assert (is_none q.next)
  λ s. some (tt, record s { store = update s.store p none })

-- `_drop_queue` up to `_release`: the messages handed to `drop_func`, in order.
pub drain : ℕ → MessageQueue → List (Option Message) × MessageQueue
unfolding pop
drain zero q = ([], q)
drain (suc fuel) q =
    let r = pop q in
    let rest = drain fuel r.2 in if r.0 == 0 then (r.1 ∷ rest.0, rest.1) else ([], r.2)

pub drop_queue : ℕ → ℕ → M (List (Option Message))
unfolding load save drain release
drop_queue fuel p = do q ← load p; let d = drain fuel q; save p (d.1); release p; pure (d.0)

-- `skynet_mq_release`.
pub mq_release : ℕ → ℕ → M (List (Option Message))
unfolding load globalmq_push drop_queue
mq_release fuel p = do
  q ← load p
  if q.release == 0 then (do globalmq_push p; pure []) else drop_queue fuel p
