-- ===== src/Mq/Safety.antt =====
-- What holds in every state that the threads reach.
use ddzproject.Prelude.{
  ℕ, ◌+◌, ◌<◌, ◌≡◌, ◌≢◌, refl, sym, ◌∙◌, Option, none, some, List, [], arith, inl, inr, ◌⊎◌, subst,
}
use ddzproject.Mq.{
  Message, MessageQueue, Memory, globalmq_push, globalmq_pop, mq_push, mq_pop, mq_create, pop,
  mq_overload, mq_check_overload, empty_memory,
}
use ddzproject.Mq.Chain.{count}
use ddzproject.Mq.Global.{Listed}
use ddzproject.Mq.Schedule.{
  Holders, take_up, put_down, Fits, IsScheduled, Fits-at, put_back, take_front,
}
use ddzproject.Mq.Threads.{send}
use ddzproject.Mq.Run.{
  create, receive, look, Threads, Step, Reach, after_pop, creates, sends, takes, receives, looks,
  puts, start, next,
}

-- The state of the threads is scheduled.
abbrev pub IsSafe : Threads → Type 0
IsSafe a = IsScheduled a.memory a.held

-- A held queue is in memory.
pub held_load :
    (a : Threads) (p : ℕ)
    → IsSafe a
    → 0 < a.held p
    → (q : MessageQueue) × (a.memory.store p ≡ some q)
held_load a p i h = go (a.memory.store p) refl
  where
    go :
        (o : Option MessageQueue)
        → a.memory.store p ≡ o
        → (q : MessageQueue) × (a.memory.store p ≡ some q)
    go none e =
        absurd (omega (arith, subst (λ o. Fits o (count p i.ps + a.held p)) e (i.fits p), h))
    go (some q) e = (q, e)

-- The result of an operation that is a function is the one that the operation is proved to have.
moved :
    {A : Type 0} (held : Holders) (m : Option (A × Memory)) (x y : A) (s t : Memory)
    → m ≡ some (x, s)
    → m ≡ some (y, t)
    → IsScheduled s held
    → IsScheduled t held
moved held m x y s t e f i = subst (λ u. IsScheduled u held) (cc (sym e ∙ f)) i

Step-IsSafe : {a b : Threads} → Step a b → IsSafe a → IsSafe b
Step-IsSafe {a} (creates p h s e f) i =
    let (t, g, j) = create a.memory a.held p h i e in
    moved (take_up p a.held) (mq_create p h a.memory) tt tt t s g f j
Step-IsSafe {a} (sends p m q s e f) i =
    let (t, g, j) = send a.memory a.held p m q i e in
    moved a.held (mq_push p m a.memory) tt tt t s g f j
Step-IsSafe {a} (takes p s f) i = elim (take_front a.memory a.held i) [
  | inl g ↦ absurd (impossible g)
  | inr (r, t, g, j) ↦
      subst (λ u. IsScheduled s (take_up u a.held)) (same r t g)
        (moved (take_up r a.held) (globalmq_pop a.memory) (some r) (some p) t s g f j)
]
  where
    impossible : globalmq_pop a.memory ≡ some (none, a.memory) → ⊥
    impossible g = cc (sym g ∙ f)

    same : (r : ℕ) (t : Memory) → globalmq_pop a.memory ≡ some (some r, t) → r ≡ p
    same r t g = cc (sym g ∙ f)
Step-IsSafe {a} (receives p n o s h f) i =
    let (q, e) = held_load a p i h in
    let (t, g, j) = receive a.memory a.held p q i e h in
    subst (λ u. IsScheduled s (after_pop u p a.held)) (same q t g)
      (moved (after_pop (pop q).0 p a.held) (mq_pop p a.memory) ((pop q).0, (pop q).1) (n, o) t s g
        f j)
  where
    same :
        (q : MessageQueue) (t : Memory)
        → mq_pop p a.memory ≡ some (((pop q).0, (pop q).1), t)
        → (pop q).0 ≡ n
    same q t g = cc (sym g ∙ f)
Step-IsSafe {a} (looks p n s f) i = go (a.memory.store p) refl
  where
    go : (o : Option MessageQueue) → a.memory.store p ≡ o → IsScheduled s a.held
    go none e = absurd (unfold mq_check_overload in ground arith)
    go (some q) e =
        let (t, g, j) = look a.memory a.held p q i e in
        moved a.held (mq_check_overload p a.memory) (mq_overload q).0 n t s g f j
Step-IsSafe {a} (puts p s h f) i =
    let (q, e) = held_load a p i h in
    let (t, g, j) = put_back a.memory a.held p q i e h in
    moved (put_down p a.held) (globalmq_push p a.memory) tt tt t s g f j

Reach-IsSafe : {a : Threads} → Reach a → IsSafe a
Reach-IsSafe start = record {
  ps = [];
  listed =
      unfold empty_memory in
      record { chain = refl; tail = refl; once = λ j. omega arith; unlinked = λ j q e z. cc };
  fits = λ j. unfold empty_memory in refl;
}
Reach-IsSafe (next r st) = Step-IsSafe st (Reach-IsSafe r)

-- In every state that the threads reach, a queue that has messages is in the global list or held
-- by a thread, and by one only: no message is left in a queue that nobody will look at, and no two
-- threads work on one queue.
pub no_message_stranded :
    (a : Threads) (p : ℕ) (q : MessageQueue)
    → Reach a
    → a.memory.store p ≡ some q
    → q.head ≢ q.tail
    → (ps : List ℕ) × Listed a.memory ps × (count p ps + a.held p ≡ 1)
no_message_stranded a p q r e ne =
    let i = Reach-IsSafe r in let f = Fits-at i p q e in (i.ps, i.listed, one f)
  where
    one : {n : ℕ} → Fits (some q) n → n ≡ 1
    one f = ground (arith, f.1, f.2, f.3)

-- In every state that the threads reach, a message can be sent to any queue in memory, a holder
-- can receive from its queue or put it back, and a thread can take a queue or see that there is
-- none: no assert fails and no freed or missing queue is read.
pub no_assert_fails :
    (a : Threads) (p : ℕ) (m : Message) (q : MessageQueue)
    → Reach a
    → a.memory.store p ≡ some q
    → ((s : Memory) × (mq_push p m a.memory ≡ some (tt, s)))
      × ((o : Option ℕ) × (s : Memory) × (globalmq_pop a.memory ≡ some (o, s)))
      × (0 < a.held p
          → ((s : Memory) × (mq_pop p a.memory ≡ some (((pop q).0, (pop q).1), s)))
            × ((s : Memory) × (globalmq_push p a.memory ≡ some (tt, s))))
no_assert_fails a p m q r e =
    let i = Reach-IsSafe r in
    let (s, f, k) = send a.memory a.held p m q i e in
    (
      (s, f),
      taken (take_front a.memory a.held i),
      λ h.
          let (t, g, j) = receive a.memory a.held p q i e h in
          let (u, w, l) = put_back a.memory a.held p q i e h in ((t, g), (u, w)),
    )
  where
    taken :
        (globalmq_pop a.memory ≡ some (none, a.memory))
          ⊎ ((p : ℕ) × (s' : Memory) × (globalmq_pop a.memory ≡ some (some p, s'))
              × IsScheduled s' (take_up p a.held))
        → (o : Option ℕ) × (s : Memory) × (globalmq_pop a.memory ≡ some (o, s))
    taken (inl g) = (none, a.memory, g)
    taken (inr (u, t, g, j)) = (some u, t, g)
