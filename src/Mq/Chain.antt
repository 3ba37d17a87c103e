-- ===== src/Mq/Chain.antt =====
-- The linked list through the `next` fields, as the sequence of its queues.
use ddzproject.Prelude.{
  ℕ, suc, ◌+◌, ◌≤◌, ◌<◌, ◌≡◌, ◌≢◌, refl, sym, ap, ◌∙◌, Option, none, some, List, [], ◌∷◌, ◌++◌,
  if◌then◌else◌, ◌==◌, arith, ==_refl, ==_ne, ==_iff, subst,
}
use native.Mathlib.Decide.{ℕ_discrete}
use ddzproject.Mq.{MessageQueue, update}

abbrev pub Store : Type 0
Store = ℕ → Option MessageQueue

-- From `h` the links lead through these queues, and end.
abbrev pub Chain : Store → Option ℕ → List ℕ → Type 0
Chain st h [] = h ≡ none
Chain st h (p ∷ ps) = (h ≡ some p) × ((q : MessageQueue) × (st p ≡ some q) × Chain st q.next ps)

abbrev pub last? : List ℕ → Option ℕ
last? [] = none
last? (p ∷ []) = some p
last? (p ∷ r ∷ ps) = last? (r ∷ ps)

abbrev pub count : ℕ → List ℕ → ℕ
count j [] = 0
count j (p ∷ ps) = (if p == j then 1 else 0) + count j ps

pub count_self : (p : ℕ) (ps : List ℕ) → count p (p ∷ ps) ≡ suc (count p ps)
count_self p ps = rw (==_refl p) (omega arith)

pub count_other : (p j : ℕ) (ps : List ℕ) → p ≢ j → count j (p ∷ ps) ≡ count j ps
count_other p j ps h = rw (==_ne p j h) (omega arith)

pub count-append : (j : ℕ) (ps qs : List ℕ) → count j (ps ++ qs) ≡ count j ps + count j qs
count-append j [] qs = omega arith
count-append j (p ∷ ps) qs = omega (arith, count-append j ps qs)

pub last?-snoc : (ps : List ℕ) (p : ℕ) → last? (ps ++ p ∷ []) ≡ some p
last?-snoc [] p = refl
last?-snoc (r ∷ []) p = refl
last?-snoc (r ∷ t ∷ ps) p = last?-snoc (t ∷ ps) p

pub last?-cases :
    (p : ℕ) (ps : List ℕ) → (t : ℕ) × (last? (p ∷ ps) ≡ some t) × (0 < count t (p ∷ ps))
last?-cases p [] = (p, refl, ground arith)
last?-cases p (r ∷ ps) = let (t, e, c) = last?-cases r ps in (t, e, omega (arith, c))

pub update_self : (st : Store) (p : ℕ) (v : Option MessageQueue) → update st p v p ≡ v
update_self st p v = rw (==_refl p) refl

pub update_ne : (st : Store) (p j : ℕ) (v : Option MessageQueue) → p ≢ j → update st p v j ≡ st j
update_ne st p j v h = rw (==_ne p j h) refl

-- A write to a queue that is not linked leaves the chain.
pub Chain-update :
    (st : Store) (h : Option ℕ) (ps : List ℕ) (p : ℕ) (v : Option MessageQueue)
    → count p ps ≡ 0
    → Chain st h ps
    → Chain (update st p v) h ps
Chain-update st h [] p v c ch = ch
Chain-update st h (r ∷ ps) p v c (e, (q, at, rest)) = (
  e,
  (
    q,
    update_ne st p r v (λ same. absurd (ground arith)) ∙ at,
    Chain-update st q.next ps p v (omega arith) rest,
  ),
)

-- A write that keeps the link leaves the chain too.
pub Chain-update_same :
    (st : Store) (h : Option ℕ) (ps : List ℕ) (p : ℕ) (old new : MessageQueue)
    → st p ≡ some old
    → new.next ≡ old.next
    → Chain st h ps
    → Chain (update st p (some new)) h ps
Chain-update_same st h [] p old new o n ch = ch
Chain-update_same st h (r ∷ ps) p old new o n (e, (q, at, rest)) = elim (ℕ_discrete p r) [
  | yes same ↦ (
    e,
    (
      new,
      ap (update st p (some new)) (sym same) ∙ update_self st p (some new),
      subst (λ h. Chain (update st p (some new)) h ps) (link same)
          (Chain-update_same st q.next ps p old new o n rest),
    ),
  )
  | no other ↦ (
    e,
    (q, update_ne st p r (some new) other ∙ at, Chain-update_same st q.next ps p old new o n rest),
  )
]
  where
    link : p ≡ r → q.next ≡ new.next
    link same = cc (sym at ∙ (ap st (sym same) ∙ o))

-- Every queue of a chain is in memory.
pub Chain-load :
    (st : Store) (h : Option ℕ) (ps : List ℕ) (p : ℕ)
    → Chain st h ps
    → 0 < count p ps
    → (q : MessageQueue) × (st p ≡ some q)
Chain-load st h [] p ch c = absurd (omega arith)
Chain-load st h (r ∷ ps) p (e, (q, at, rest)) c = elim (ℕ_discrete r p) [
  | yes same ↦ (q, ap st (sym same) ∙ at)
  | no other ↦ Chain-load st q.next ps p rest (ground arith)
]

-- Linking `p` after the last queue extends the chain by `p`.
pub Chain-snoc :
    (st : Store) (h : Option ℕ) (r : ℕ) (ps : List ℕ) (p t : ℕ) (qp qt : MessageQueue)
    → Chain st h (r ∷ ps)
    → ((j : ℕ) → count j (r ∷ ps) ≤ 1)
    → last? (r ∷ ps) ≡ some t
    → st t ≡ some qt
    → st p ≡ some qp
    → qp.next ≡ none
    → p ≢ t
    → Chain (update st t (some (record qt { next = some p }))) h ((r ∷ ps) ++ p ∷ [])
Chain-snoc st h r [] p t qp qt (e, (q, at, rest)) once l att atp n ne =
    let same : r ≡ t = cc l in
    (
      e,
      (
        record qt { next = some p },
        ap (update st t (some (record qt { next = some p }))) same ∙ update_self st t _,
        (refl, (qp, update_ne st t p _ (λ w. ne (sym w)) ∙ atp, n)),
      ),
    )
Chain-snoc st h r (x ∷ ps) p t qp qt (e, (q, at, rest)) once l att atp n ne = (
  e,
  (
    q,
    update_ne st t r _ (distinct (last?-cases x ps)) ∙ at,
    Chain-snoc st q.next x ps p t qp qt rest (λ j. omega (arith, once j)) l att atp n ne,
  ),
)
  where
    distinct : (u : ℕ) × (last? (x ∷ ps) ≡ some u) × (0 < count u (x ∷ ps)) → t ≢ r
    distinct (u, lu, c) w =
        let tu : t ≡ u = cc (sym l ∙ lu) in
        let ru : r ≡ u = sym w ∙ tu in
        absurd (
          omega
            (arith, once u, ap (λ b. (if b then 1 else 0) + count u (x ∷ ps)) ((==_iff r u).1 ru)))
