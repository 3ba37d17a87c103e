-- ===== src/Mq/Schedule.antt =====
-- Worker threads over the message queues. A queue that a thread has taken from the global list, or
-- that its creator has not yet put there, is held; each operation runs under a lock, so a run of
-- the threads is a sequence of the operations. Services that exit (the releases) are left out.
use ddzproject.Prelude.{
  ℕ, ◌+◌, ◌-◌, ◌≤◌, ◌<◌, ◌≡◌, ◌≢◌, sym, ap, ◌∙◌, Option, none, some, List, [], ◌∷◌, ◌++◌,
  if◌then◌else◌, ◌==◌, arith, ==_refl, ==_ne, inl, inr, ◌⊎◌, subst,
}
use native.Mathlib.Decide.{ℕ_discrete}
use ddzproject.Mq.{MessageQueue, Memory, update, globalmq_push, globalmq_pop}
use ddzproject.Mq.Ring.{IsValid}
use ddzproject.Mq.Chain.{count, count-append, update_self, update_ne, Chain-update_same}
use ddzproject.Mq.Global.{
  Listed, SameButLink, LinksOnly, globalmq_push_refines, globalmq_pop_nil, globalmq_pop_refines,
}

-- How many threads hold each queue.
abbrev pub Holders : Type 0
Holders = ℕ → ℕ

abbrev pub take_up : ℕ → Holders → Holders
take_up p held j = (if p == j then 1 else 0) + held j

abbrev pub put_down : ℕ → Holders → Holders
put_down p held j = held j - (if p == j then 1 else 0)

-- A queue that is listed or held `n` times in all. It is marked if and only if it is, once; and
-- with no mark it is empty.
abbrev pub Fits : Option MessageQueue → ℕ → Type 0
Fits none n = n ≡ 0
Fits (some q) n =
    IsValid q × (n ≡ q.in_global) × (q.in_global ≤ 1) × (q.in_global ≡ 0 → q.head ≡ q.tail)

pub record IsScheduled (s : Memory) (held : Holders) : Type 0 where
  pub ps : List ℕ
  pub listed : Listed s ps
  pub fits : (j : ℕ) → Fits (s.store j) (count j ps + held j)

Fits-SameButLink : (a b : Option MessageQueue) (n : ℕ) → SameButLink a b → Fits a n → Fits b n
Fits-SameButLink none none n e f = f
Fits-SameButLink none (some r) n e f = absurd e
Fits-SameButLink (some q) none n e f = absurd e
Fits-SameButLink (some q) (some r) n e f =
    rw e (
      record { storage = f.0.storage; head_in = f.0.head_in; tail_in = f.0.tail_in },
      f.1,
      f.2,
      f.3,
    )

pub Fits-of_eq : (o : Option MessageQueue) (n m : ℕ) → n ≡ m → Fits o n → Fits o m
Fits-of_eq o n m e f = subst (λ k. Fits o k) e f

unfoldable pub saved : Memory → ℕ → MessageQueue → Memory
saved s p q = record s { store = update s.store p (some q) }

-- A write that keeps the link keeps the list.
pub Listed-saved :
    (s : Memory) (ps : List ℕ) (p : ℕ) (old new : MessageQueue)
    → s.store p ≡ some old
    → new.next ≡ old.next
    → Listed s ps
    → Listed (saved s p new) ps
Listed-saved s ps p old new e n l =
    unfold saved in
    record {
      chain = Chain-update_same s.store s.ghead ps p old new e n l.chain;
      tail = l.tail;
      once = l.once;
      unlinked = λ j u at z. elim (ℕ_discrete p j) [
        | yes same ↦
            (cc (
              sym (update_self s.store p (some new)),
              at,
              same,
              n,
              l.unlinked p old e (subst (λ i. count i ps ≡ 0) (sym same) z),
            ))
        | no other ↦ l.unlinked j u (sym (update_ne s.store p j (some new) other) ∙ at) z
      ];
    }

pub Fits-saved :
    (s : Memory) (p : ℕ) (new : MessageQueue) (f g : Holders)
    → Fits (some new) (g p)
    → ((j : ℕ) → p ≢ j → g j ≡ f j)
    → ((j : ℕ) → Fits (s.store j) (f j))
    → (j : ℕ) → Fits ((saved s p new).store j) (g j)
unfolding saved
Fits-saved s p new f g here there all j = elim (ℕ_discrete p j) [
  | yes same ↦
      subst (λ i. Fits (update s.store p (some new) i) (g i)) same
        (rw (update_self s.store p (some new)) (here.0, here.1, here.2, here.3))
  | no other ↦ rw (update_ne s.store p j (some new) other, there j other) (all j)
]

pub Fits-at :
    {s : Memory} {held : Holders} (i : IsScheduled s held) (p : ℕ) (q : MessageQueue)
    → s.store p ≡ some q
    → Fits (some q) (count p i.ps + held p)
Fits-at {s} {held} i p q e = subst (λ o. Fits o (count p i.ps + held p)) e (i.fits p)

pub Fits-LinksOnly :
    (s s' : Memory) (f g : Holders)
    → LinksOnly s s'
    → ((j : ℕ) → Fits (s.store j) (f j))
    → ((j : ℕ) → f j ≡ g j)
    → (j : ℕ) → Fits (s'.store j) (g j)
Fits-LinksOnly s s' f g links all e j =
    Fits-of_eq (s'.store j) (f j) (g j) (e j)
      (Fits-SameButLink (s.store j) (s'.store j) (f j) (links j) (all j))

-- A holder puts its queue back: no assert fails.
pub put_back :
    (s : Memory) (held : Holders) (p : ℕ) (q : MessageQueue)
    → IsScheduled s held
    → s.store p ≡ some q
    → 0 < held p
    → (s' : Memory) × (globalmq_push p s ≡ some (tt, s')) × IsScheduled s' (put_down p held)
put_back s held p q i e h =
    let f = Fits-at i p q e in
    let (s', eq, l, links) =
      globalmq_push_refines s i.ps p q i.listed e (omega (arith, f.1, f.2)) in
    (
      s',
      eq,
      record {
        ps = i.ps ++ p ∷ [];
        listed = l;
        fits =
            Fits-LinksOnly s s' (λ j. count j i.ps + held j) _ links i.fits
              (λ j. omega (arith, count-append j i.ps (p ∷ []), moved j));
      },
    )
  where
    moved : (j : ℕ) → held j ≡ count j (p ∷ []) + put_down p held j
    moved j = elim (ℕ_discrete p j) [
      | yes same ↦ rw (same, ==_refl j) (omega (arith, ap held same))
      | no other ↦ rw (==_ne p j other) (omega arith)
    ]

-- A thread takes the queue at the front of the list, if there is one, and holds it.
pub take_front :
    (s : Memory) (held : Holders)
    → IsScheduled s held
    → (globalmq_pop s ≡ some (none, s))
      ⊎ ((p : ℕ) × (s' : Memory) × (globalmq_pop s ≡ some (some p, s'))
          × IsScheduled s' (take_up p held))
take_front s held i = go i.ps i.listed i.fits
  where
    go :
        (ps : List ℕ)
        → Listed s ps
        → ((j : ℕ) → Fits (s.store j) (count j ps + held j))
        → (globalmq_pop s ≡ some (none, s))
          ⊎ ((p : ℕ) × (s' : Memory) × (globalmq_pop s ≡ some (some p, s'))
              × IsScheduled s' (take_up p held))
    go [] l fits = inl (globalmq_pop_nil s l)
    go (p ∷ ps) l fits =
        let (s', eq, l', links) = globalmq_pop_refines s p ps l in
        inr (
          p,
          s',
          eq,
          record {
            ps = ps;
            listed = l';
            fits =
                Fits-LinksOnly s s' (λ j. count j (p ∷ ps) + held j) _ links fits
                  (λ j. omega arith);
          },
        )
