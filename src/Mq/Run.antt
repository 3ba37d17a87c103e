-- ===== src/Mq/Run.antt =====
-- Creating and receiving, and the runs of the threads: every reachable state is scheduled, so no
-- assert of skynet_mq.c fails and no message is left in a queue that nobody will look at.
use ddzproject.Prelude.{
  ℕ, ◌+◌, ◌<◌, ◌≡◌, ◌≢◌, refl, sym, ◌∙◌, Option, none, some, if◌then◌else◌, ◌==◌, arith, ==_refl,
  ==_ne, inl, inr, ◌⊎◌, subst,
}
use native.Mathlib.Decide.{ℕ_discrete}
use ddzproject.Mq.{
  Message, MessageQueue, Memory, update, globalmq_push, globalmq_pop, mq_push, mq_pop, mq_create,
  create_queue, pop, mq_overload, mq_check_overload, empty_memory,
}
use ddzproject.Mq.Ring.{IsValid}
use ddzproject.Mq.Pop.{pop-IsValid}
use ddzproject.Mq.Chain.{count, update_self, update_ne, Chain-update}
use ddzproject.Mq.Schedule.{
  Holders, take_up, put_down, Fits, IsScheduled, saved, Listed-saved, Fits-saved, Fits-at,
}

create_queue-IsValid : (h : ℕ) → IsValid (create_queue h)
unfolding create_queue
create_queue-IsValid h = omega arith

-- A new queue is held by its creator.
pub create :
    (s : Memory) (held : Holders) (p h : ℕ)
    → IsScheduled s held
    → s.store p ≡ none
    → (s' : Memory) × (mq_create p h s ≡ some (tt, s')) × IsScheduled s' (take_up p held)
create s held p h i e = (
  saved s p (create_queue h),
  unfold mq_create saved in refl,
  record {
    ps = i.ps;
    listed =
        unfold saved in
        record {
          chain =
              Chain-update s.store s.ghead i.ps p (some (create_queue h)) (omega (arith, free))
                i.listed.chain;
          tail = i.listed.tail;
          once = i.listed.once;
          unlinked = λ j u at z. elim (ℕ_discrete p j) [
            | yes same ↦ linked j u (unfold create_queue in refl) at same
            | no other ↦
                i.listed.unlinked j u
                  (sym (update_ne s.store p j (some (create_queue h)) other) ∙ at) z
          ];
        };
    fits =
        Fits-saved s p (create_queue h) (λ j. count j i.ps + held j)
          (λ j. count j i.ps + take_up p held j)
          (
            create_queue-IsValid h,
            unfold create_queue in rw (==_refl p) (omega (arith, free)),
            unfold create_queue in omega arith,
            λ z. unfold create_queue in refl,
          )
          (λ j ne. rw (==_ne p j ne) (omega arith)) i.fits;
  },
)
  where
    free : count p i.ps + held p ≡ 0
    free = subst (λ o. Fits o (count p i.ps + held p)) e (i.fits p)

    linked :
        (j : ℕ) (u : MessageQueue)
        → (create_queue h).next ≡ none
        → update s.store p (some (create_queue h)) j ≡ some u
        → p ≡ j
        → u.next ≡ none
    linked j u n at same = cc (sym (update_self s.store p (some (create_queue h))), at, same, n)

-- What a holder still holds after `skynet_mq_pop` returned `r`.
abbrev pub after_pop : ℕ → ℕ → Holders → Holders
after_pop r p held = if r == 0 then held else put_down p held

-- A holder takes a message; if there is none it lets go of the queue.
pub receive :
    (s : Memory) (held : Holders) (p : ℕ) (q : MessageQueue)
    → IsScheduled s held
    → s.store p ≡ some q
    → 0 < held p
    → (s' : Memory) × (mq_pop p s ≡ some (((pop q).0, (pop q).1), s'))
      × IsScheduled s' (after_pop (pop q).0 p held)
receive s held p q i e h = (
  saved s p (pop q).2,
  popped_eq,
  record {
    ps = i.ps;
    listed = Listed-saved s i.ps p q (pop q).2 e (law.1) i.listed;
    fits =
        Fits-saved s p (pop q).2 (λ j. count j i.ps + held j)
          (λ j. count j i.ps + after_pop (pop q).0 p held j) (here (law.2))
          (λ j ne. there j ne (law.2)) i.fits;
  },
)
  where
    f : Fits (some q) (count p i.ps + held p)
    f = Fits-at i p q e

    law :
        IsValid (pop q).2
        × ((pop q).2.next ≡ q.next)
        × (((pop q).0 ≡ 0) × ((pop q).2.in_global ≡ q.in_global)
            ⊎ ((pop q).0 ≡ 1) × ((pop q).2.in_global ≡ 0) × ((pop q).2.head ≡ (pop q).2.tail))
    law = pop-IsValid q (Fits-at i p q e).0

    popped_eq : mq_pop p s ≡ some (((pop q).0, (pop q).1), saved s p (pop q).2)
    popped_eq = unfold mq_pop saved in ground arith

    here :
        ((pop q).0 ≡ 0) × ((pop q).2.in_global ≡ q.in_global)
          ⊎ ((pop q).0 ≡ 1) × ((pop q).2.in_global ≡ 0) × ((pop q).2.head ≡ (pop q).2.tail)
        → Fits (some (pop q).2) (count p i.ps + after_pop (pop q).0 p held p)
    here (inl (a, b)) = (
      law.0,
      rw a (omega (arith, f.1, b)),
      omega (arith, f.2, b),
      λ z. absurd (omega (arith, z, b, f.1, h)),
    )
    here (inr (a, b, c)) =
        (law.0, rw a (rw (==_refl p) (omega (arith, f.1, f.2, b, h))), omega (arith, b), λ z. c)

    there :
        (j : ℕ)
        → p ≢ j
        → ((pop q).0 ≡ 0) × ((pop q).2.in_global ≡ q.in_global)
          ⊎ ((pop q).0 ≡ 1) × ((pop q).2.in_global ≡ 0) × ((pop q).2.head ≡ (pop q).2.tail)
        → count j i.ps + after_pop (pop q).0 p held j ≡ count j i.ps + held j
    there j ne (inl (a, b)) = rw a refl
    there j ne (inr (a, b, c)) = rw a (rw (==_ne p j ne) (omega arith))

-- A thread reads and clears the overload record of a queue.
pub look :
    (s : Memory) (held : Holders) (p : ℕ) (q : MessageQueue)
    → IsScheduled s held
    → s.store p ≡ some q
    → (s' : Memory) × (mq_check_overload p s ≡ some ((mq_overload q).0, s')) × IsScheduled s' held
look s held p q i e = (
  saved s p (mq_overload q).1,
  unfold mq_check_overload saved in ground arith,
  record {
    ps = i.ps;
    listed =
        Listed-saved s i.ps p q (mq_overload q).1 e (unfold mq_overload in ground arith) i.listed;
    fits =
        Fits-saved s p (mq_overload q).1 (λ j. count j i.ps + held j) (λ j. count j i.ps + held j)
          (cleared (Fits-at i p q e)) (λ j ne. refl) i.fits;
  },
)
  where
    cleared :
        Fits (some q) (count p i.ps + held p)
        → Fits (some (mq_overload q).1) (count p i.ps + held p)
    cleared f = unfold mq_overload in ground (arith, f.0, f.1, f.2)

-- The threads, and the queues that they hold.
pub record Threads : Type 0 where
  pub memory : Memory
  pub held : Holders

-- One operation of one thread. A thread receives from, or puts back, only a queue that it holds.
pub data Step (a : Threads) : Threads → Type 0 where
  creates :
      (p h : ℕ) (s : Memory)
      → a.memory.store p ≡ none
      → mq_create p h a.memory ≡ some (tt, s)
      → Step a (record { memory = s; held = take_up p a.held })
  sends :
      (p : ℕ) (m : Message) (q : MessageQueue) (s : Memory)
      → a.memory.store p ≡ some q
      → mq_push p m a.memory ≡ some (tt, s)
      → Step a (record { memory = s; held = a.held })
  takes :
      (p : ℕ) (s : Memory)
      → globalmq_pop a.memory ≡ some (some p, s)
      → Step a (record { memory = s; held = take_up p a.held })
  receives :
      (p n : ℕ) (o : Option Message) (s : Memory)
      → 0 < a.held p
      → mq_pop p a.memory ≡ some ((n, o), s)
      → Step a (record { memory = s; held = after_pop n p a.held })
  looks :
      (p n : ℕ) (s : Memory)
      → mq_check_overload p a.memory ≡ some (n, s)
      → Step a (record { memory = s; held = a.held })
  puts :
      (p : ℕ) (s : Memory)
      → 0 < a.held p
      → globalmq_push p a.memory ≡ some (tt, s)
      → Step a (record { memory = s; held = put_down p a.held })

pub data Reach : Threads → Type 0 where
  start : Reach (record { memory = empty_memory; held = λ j. 0 })
  next : {a b : Threads} → Reach a → Step a b → Reach b
