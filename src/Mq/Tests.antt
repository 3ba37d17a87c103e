-- ===== src/Mq/Tests.antt =====
-- Runs of skynet_mq.c, and its theorems at concrete queues.
use ddzproject.Prelude.{
  ℕ, ◌+◌, ◌<◌, ◌≡◌, ◌≢◌, refl, Option, none, some, List, [], ◌∷◌, ◌++◌, map, arith,
}
use ddzproject.Prelude.Round.{copy_round}
use ddzproject.Mq.{
  Message, MessageQueue, Memory, mq_length, enqueue, pop, drain, create_queue, update,
  globalmq_push, globalmq_pop, mq_push, mq_pop, mq_create, empty_memory, wake,
}
use ddzproject.Mq.Ring.{IsValid, Holds, contents}
use ddzproject.Mq.Fifo.{enqueue_refines}
use ddzproject.Mq.Pop.{Pops, pop_refines, drain_lem}
use ddzproject.Mq.Chain.{count}
use ddzproject.Mq.Global.{Listed, LinksOnly, globalmq_push_refines, globalmq_pop_refines}
use ddzproject.Mq.Schedule.{take_up}
use ddzproject.Mq.Run.{Threads, Reach, start, next, creates, sends}
use ddzproject.Mq.Safety.{no_message_stranded, no_assert_fails}

abbrev message : ℕ → Message
message n = record { source = 1; session = n; payload = 0; sz = 0 }

-- Two messages, round the end of a ring of three.
abbrev wrapped : MessageQueue
wrapped = record {
  handle = 7;
  cap = 3;
  head = 2;
  tail = 1;
  release = 0;
  in_global = 1;
  overload = 0;
  overload_threshold = 1;
  queue = some (message 11) ∷ none ∷ some (message 10) ∷ [];
  next = none;
}

wrapped-IsValid : IsValid wrapped
wrapped-IsValid = omega arith

wrapped-Holds : Holds wrapped (message 10 ∷ message 11 ∷ [])
unfolding contents mq_length copy_round
wrapped-Holds = refl

-- The third message fills the ring, which expands.
expands : (enqueue wrapped (message 12)).cap ≡ 6
unfolding enqueue
expands = refl

enqueue_refines_example :
    IsValid (enqueue wrapped (message 12))
    × Holds (enqueue wrapped (message 12)) ((message 10 ∷ message 11 ∷ []) ++ message 12 ∷ [])
enqueue_refines_example =
    enqueue_refines wrapped (message 12) (message 10 ∷ message 11 ∷ []) wrapped-IsValid
      wrapped-Holds

pop_refines_example : Pops wrapped (message 10 ∷ message 11 ∷ []) (pop wrapped)
pop_refines_example =
    pop_refines wrapped (message 10 ∷ message 11 ∷ []) wrapped-IsValid wrapped-Holds

drain_lem_example :
    ((drain 3 wrapped).0 ≡ map some (message 10 ∷ message 11 ∷ []))
    × ((drain 3 wrapped).1.in_global ≡ 0)
drain_lem_example =
    drain_lem 3 wrapped (message 10 ∷ message 11 ∷ []) wrapped-IsValid wrapped-Holds (omega arith)

abbrev fresh : MessageQueue
fresh = create_queue 7

-- Queue 1 is in memory and not in the list.
abbrev one_queue : Memory
one_queue = record { store = update empty_memory.store 1 (some fresh); ghead = none; gtail = none }

abbrev listed_queue : Memory
listed_queue = record {
  store = update empty_memory.store 1 (some fresh);
  ghead = some 1;
  gtail = some 1;
}

fresh_alone :
    (j : ℕ) (q : MessageQueue) → update empty_memory.store 1 (some fresh) j ≡ some q → q.next ≡ none
unfolding empty_memory create_queue
fresh_alone j q e = ground arith

one_queue-Listed : Listed one_queue []
one_queue-Listed = record {
  chain = refl;
  tail = refl;
  once = λ j. omega arith;
  unlinked = λ j q e z. fresh_alone j q e;
}

listed_queue-Listed : Listed listed_queue (1 ∷ [])
listed_queue-Listed = record {
  chain = (refl, (fresh, refl, unfold create_queue in refl));
  tail = refl;
  once = λ j. ground arith;
  unlinked = λ j q e z. fresh_alone j q e;
}

globalmq_push_refines_example :
    (s : Memory) × (globalmq_push 1 one_queue ≡ some (tt, s))
    × Listed s ([] ++ 1 ∷ [])
    × LinksOnly one_queue s
globalmq_push_refines_example =
    globalmq_push_refines one_queue [] 1 fresh one_queue-Listed refl refl

globalmq_pop_refines_example :
    (s : Memory) × (globalmq_pop listed_queue ≡ some (some 1, s))
    × Listed s []
    × LinksOnly listed_queue s
globalmq_pop_refines_example = globalmq_pop_refines listed_queue 1 [] listed_queue-Listed

abbrev sent : MessageQueue
sent = enqueue fresh (message 5)

abbrev sent_memory : Memory
sent_memory = record {
  store = update (update empty_memory.store 1 (some fresh)) 1 (some sent);
  ghead = none;
  gtail = none;
}

-- Queue 1 is created, and gets a message while its creator holds it.
abbrev busy : Threads
busy = record { memory = sent_memory; held = take_up 1 (λ j. 0) }

busy-Reach : Reach busy
busy-Reach =
    next (next start (creates 1 7 one_queue created_free created))
      (sends 1 (message 5) fresh sent_memory refl pushed)
  where
    created_free : empty_memory.store 1 ≡ none
    created_free = unfold empty_memory in refl

    created : mq_create 1 7 empty_memory ≡ some (tt, one_queue)
    created = unfold mq_create empty_memory in refl

    pushed : mq_push 1 (message 5) one_queue ≡ some (tt, sent_memory)
    pushed = unfold mq_push wake enqueue create_queue in refl

sent_ends : sent.head ≢ sent.tail
unfolding enqueue create_queue
sent_ends = omega arith

no_message_stranded_example :
    (ps : List ℕ) × Listed sent_memory ps × (count 1 ps + take_up 1 (λ j. 0) 1 ≡ 1)
no_message_stranded_example = no_message_stranded busy 1 sent busy-Reach refl sent_ends

no_assert_fails_example :
    ((s : Memory) × (mq_push 1 (message 6) sent_memory ≡ some (tt, s)))
    × ((o : Option ℕ) × (s : Memory) × (globalmq_pop sent_memory ≡ some (o, s)))
    × (0 < take_up 1 (λ j. 0) 1
        → ((s : Memory) × (mq_pop 1 sent_memory ≡ some (((pop sent).0, (pop sent).1), s)))
          × ((s : Memory) × (globalmq_push 1 sent_memory ≡ some (tt, s))))
no_assert_fails_example = no_assert_fails busy 1 (message 6) sent busy-Reach refl
