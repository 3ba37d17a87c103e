-- ===== src/Mq/Global.antt =====
-- `skynet_globalmq_push` and `skynet_globalmq_pop` against a sequence of queues, first in, first
-- out.
use ddzproject.Prelude.{
  ℕ, ◌≤◌, ◌<◌, ◌≡◌, refl, sym, ap, ◌∙◌, Option, none, some, List, [], ◌∷◌, ◌++◌, arith, ==_refl,
  ==_ne,
}
use native.Mathlib.Decide.{ℕ_discrete}
use ddzproject.Mq.{MessageQueue, Memory, update, globalmq_push, globalmq_pop, unlink_head}
use ddzproject.Mq.Chain.{
  Chain, last?, count, count_self, count_other, count-append, last?-snoc, last?-cases, update_self,
  update_ne, Chain-update, Chain-load, Chain-snoc,
}

-- The global list is just these queues, from head to tail, none twice; any other queue in memory
-- has no link.
pub record Listed (s : Memory) (ps : List ℕ) : Type 0 where
  pub chain : Chain s.store s.ghead ps
  pub tail : s.gtail ≡ last? ps
  pub once : (j : ℕ) → count j ps ≤ 1
  pub unlinked : (j : ℕ) (q : MessageQueue) → s.store j ≡ some q → count j ps ≡ 0 → q.next ≡ none

-- The same queue, but for its link.
abbrev pub SameButLink : Option MessageQueue → Option MessageQueue → Type 0
SameButLink none none = Unit
SameButLink none (some r) = ⊥
SameButLink (some q) none = ⊥
SameButLink (some q) (some r) = r ≡ record q { next = r.next }

abbrev pub LinksOnly : Memory → Memory → Type 0
LinksOnly s t = (j : ℕ) → SameButLink (s.store j) (t.store j)

SameButLink-refl : (o : Option MessageQueue) → SameButLink o o
SameButLink-refl none = tt
SameButLink-refl (some q) = refl

relink_LinksOnly :
    (s : Memory) (p : ℕ) (q : MessageQueue) (l h t : Option ℕ)
    → s.store p ≡ some q
    → LinksOnly s
        (record { store = update s.store p (some (record q { next = l })); ghead = h; gtail = t })
relink_LinksOnly s p q l h t e j = elim (ℕ_discrete p j) [
  | yes same ↦ rw (same, ==_refl j, ap s.store (sym same) ∙ e) refl
  | no other ↦ rw (==_ne p j other) (SameButLink-refl (s.store j))
]

linked_first : Memory → ℕ → Memory
linked_first s p = record s { ghead = some p; gtail = some p }

linked_after : Memory → ℕ → ℕ → MessageQueue → Memory
linked_after s p t qt = record s {
  store = update s.store t (some (record qt { next = some p }));
  gtail = some p;
}

push_first :
    (s : Memory) (p : ℕ) (q : MessageQueue)
    → s.store p ≡ some q
    → q.next ≡ none
    → s.gtail ≡ none
    → globalmq_push p s ≡ some (tt, linked_first s p)
unfolding globalmq_push linked_first
push_first s p q e n g = ground arith

push_after :
    (s : Memory) (p t : ℕ) (q qt : MessageQueue)
    → s.store p ≡ some q
    → q.next ≡ none
    → s.gtail ≡ some t
    → s.store t ≡ some qt
    → globalmq_push p s ≡ some (tt, linked_after s p t qt)
unfolding globalmq_push linked_after
push_after s p t q qt e n g et = ground arith

-- `skynet_globalmq_push` of a queue that is in memory and not in the list: no assert fails, the
-- queue goes to the end of the list, and no queue changes but for its link.
pub globalmq_push_refines :
    (s : Memory) (ps : List ℕ) (p : ℕ) (q : MessageQueue)
    → Listed s ps
    → s.store p ≡ some q
    → count p ps ≡ 0
    → (s' : Memory) × (globalmq_push p s ≡ some (tt, s'))
      × Listed s' (ps ++ p ∷ [])
      × LinksOnly s s'
globalmq_push_refines s [] p q l e c = (
  linked_first s p,
  push_first s p q e n l.tail,
  unfold linked_first in
      record {
        chain = (refl, (q, e, n));
        tail = refl;
        once = λ j. ground arith;
        unlinked = λ j r at z. l.unlinked j r at refl;
      },
  unfold linked_first in (λ j. SameButLink-refl (s.store j)),
)
  where
    n : q.next ≡ none
    n = l.unlinked p q e c
globalmq_push_refines s (r ∷ ps) p q l e c =
    let (t, lt, ct) = last?-cases r ps in
    let (qt, et) = Chain-load s.store s.ghead (r ∷ ps) t l.chain ct in
    let n = l.unlinked p q e c in
    (
      linked_after s p t qt,
      push_after s p t q qt e n (l.tail ∙ lt) et,
      listed t qt lt ct et,
      unfold linked_after in relink_LinksOnly s t qt (some p) s.ghead (some p) et,
    )
  where
    listed :
        (t : ℕ) (qt : MessageQueue)
        → last? (r ∷ ps) ≡ some t
        → 0 < count t (r ∷ ps)
        → s.store t ≡ some qt
        → Listed (linked_after s p t qt) ((r ∷ ps) ++ p ∷ [])
    listed t qt lt ct et =
        unfold linked_after in
        record {
          chain =
              Chain-snoc s.store s.ghead r ps p t q qt l.chain l.once lt et e (l.unlinked p q e c)
                (λ w. absurd (omega (arith, c, ct, ap (λ i. count i (r ∷ ps)) w)));
          tail = sym (last?-snoc (r ∷ ps) p);
          once = λ j. elim (ℕ_discrete p j) [
            | yes same ↦ omega (
              arith,
              count-append j (r ∷ ps) (p ∷ []),
              ap (λ i. count i (r ∷ ps)) same,
              l.once j,
              ap (λ i. count j (i ∷ [])) same,
              count_self j [],
              c,
            )
            | no other ↦
                omega (arith, count-append j (r ∷ ps) (p ∷ []), l.once j, count_other p j [] other)
          ];
          unlinked = λ j u at z.
              l.unlinked j u
                (sym (
                    update_ne s.store t j (some (record qt { next = some p })) (λ w. absurd (
                      omega (
                        arith,
                        count-append j (r ∷ ps) (p ∷ []),
                        ct,
                        ap (λ i. count i (r ∷ ps)) w,
                      ))))
                  ∙ at)
                (omega (arith, count-append j (r ∷ ps) (p ∷ [])));
        }

-- The list is taken from the front.
pub globalmq_pop_nil : (s : Memory) → Listed s [] → globalmq_pop s ≡ some (none, s)
unfolding globalmq_pop
globalmq_pop_nil s l = rw (l.chain, unlink_head) refl

unlinked_first : Memory → ℕ → MessageQueue → Memory
unlinked_first s p q = record {
  store = update s.store p (some (record q { next = none }));
  ghead = q.next;
  gtail = elim q.next [ none ↦ none | some n ↦ s.gtail ];
}

pop_first :
    (s : Memory) (p : ℕ) (q : MessageQueue)
    → s.store p ≡ some q
    → s.ghead ≡ some p
    → (q.next ≡ none → s.gtail ≡ some p)
    → globalmq_pop s ≡ some (some p, unlinked_first s p q)
unfolding globalmq_pop unlinked_first
pop_first s p q e h only = ground arith

-- `skynet_globalmq_pop` on a list that is not empty: no assert fails, the queue at the front is
-- returned with its link taken off, the others stay in order, and no queue changes but for its link.
pub globalmq_pop_refines :
    (s : Memory) (p : ℕ) (ps : List ℕ)
    → Listed s (p ∷ ps)
    → (s' : Memory) × (globalmq_pop s ≡ some (some p, s')) × Listed s' ps × LinksOnly s s'
globalmq_pop_refines s p ps l =
    let (h, (q, e, rest)) = l.chain in
    (
      unlinked_first s p q,
      pop_first s p q e h (only q ps l.tail rest),
      record {
        chain =
            unfold unlinked_first in
            Chain-update s.store q.next ps p (some (record q { next = none })) gone rest;
        tail = unfold unlinked_first in tail_eq q ps l.tail rest;
        once = λ j. omega (arith, l.once j);
        unlinked = unfold unlinked_first in (λ j u at z. unlinked q j u at z);
      },
      unfold unlinked_first in
          relink_LinksOnly s p q none q.next (elim q.next [ none ↦ none | some n ↦ s.gtail ]) e,
    )
  where
    gone : count p ps ≡ 0
    gone = omega (arith, l.once p, count_self p ps)

    only :
        (q : MessageQueue) (rs : List ℕ)
        → s.gtail ≡ last? (p ∷ rs)
        → Chain s.store q.next rs
        → q.next ≡ none
        → s.gtail ≡ some p
    only q [] t ch n = t
    only q (r ∷ rs) t ch n = cc (ch.0)

    tail_eq :
        (q : MessageQueue) (rs : List ℕ)
        → s.gtail ≡ last? (p ∷ rs)
        → Chain s.store q.next rs
        → (elim q.next [ none ↦ none | some n ↦ s.gtail ]) ≡ last? rs
    tail_eq q [] t ch = rw ch refl
    tail_eq q (r ∷ rs) t ch = rw (ch.0) t

    unlinked :
        (q : MessageQueue) (j : ℕ) (u : MessageQueue)
        → update s.store p (some (record q { next = none })) j ≡ some u
        → count j ps ≡ 0
        → u.next ≡ none
    unlinked q j u at z = elim (ℕ_discrete p j) [
      | yes same ↦ cc (sym (update_self s.store p (some (record q { next = none }))), at, same)
      | no other ↦
          l.unlinked j u (sym (update_ne s.store p j (some (record q { next = none })) other) ∙ at)
            (omega (arith, count_other p j ps other))
    ]
