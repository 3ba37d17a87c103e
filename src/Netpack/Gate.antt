-- ===== src/Netpack/Gate.antt =====
-- Server/skynet/lualib/snax/gateserver.lua: each socket message is filtered, and the queue is popped
-- until it is empty when `filter` returns "more". The table `connection` is a test on the sockets. The
-- handlers neither block nor close a connection, so it stays as it is.
use ddzproject.Prelude.{
  ℕ, zero, suc, Bool, true, false, Bool-cases, inl, inr, if◌then◌else◌, ◌≤◌, ◌≡◌, refl, sym, ap,
  ap₂, ◌∙◌, Option, none, some, List, [], ◌∷◌, ◌++◌, map, length, arith, append_assoc,
}
use ddzproject.Netpack.{
  NetPack, Queue, get_queue, lpop, write_size, Filtered, nothing, packet, more, filter_data,
}
use ddzproject.Netpack.Ring.{IsRing, ring}
use ddzproject.Netpack.Waiting.{waiting}
use ddzproject.Netpack.Advance.{joined, packs}
use ddzproject.Netpack.Pop.{lpop-Pops, lpop-empty}

abbrev pub cons_pack : NetPack → List NetPack × Option Queue → List NetPack × Option Queue
cons_pack np r = (np ∷ (r.0), r.1)

-- `dispatch_queue`; the ring holds less than `cap` packets, which is fuel enough.
unfoldable pub pop_all : ℕ → Option Queue → List NetPack × Option Queue
pop_all zero S = ([], S)
pop_all (suc fuel) S = elim (lpop S) [
  | none ↦ ([], S)
  | some (np, S') ↦ cons_pack np (pop_all fuel S')
]

-- `dispatch_msg` of packets, one after the other: those that the handler gets. The others are dropped.
unfoldable pub dispatch_msg : (ℕ → Bool) → List NetPack → List NetPack
dispatch_msg connection [] = []
dispatch_msg connection (np ∷ nps) =
    let rest = dispatch_msg connection nps in if connection np.id then np ∷ rest else rest

unfoldable pub dispatched : (ℕ → Bool) → Filtered × Option Queue → List NetPack × Option Queue
dispatched connection (nothing, S) = ([], S)
dispatched connection (packet np, S) = (dispatch_msg connection (np ∷ []), S)
dispatched connection (more, S) =
    let r = pop_all (get_queue S).cap S in (dispatch_msg connection (r.0), r.1)

-- The packets handed to the handler when the buffers come in for `fd`.
unfoldable pub received :
    (ℕ → Bool) → Option Queue → ℕ → List (List ℕ) → List NetPack × Option Queue
received connection S fd [] = ([], S)
received connection S fd (c ∷ cs) =
    let now = dispatched connection (filter_data S fd c) in
    let later = received connection (now.1) fd cs in (now.0 ++ later.0, later.1)

unfoldable pub packets : ℕ → List (List ℕ) → List NetPack
packets fd [] = []
packets fd (b ∷ bs) = record { id = fd; size = length b; buffer = b } ∷ packets fd bs

unfoldable pub concat : List (List ℕ) → List ℕ
concat [] = []
concat (c ∷ cs) = c ++ concat cs

-- What the handler gets of packets for `fd`: all of them, or none without a connection.
abbrev pub handed : (ℕ → Bool) → ℕ → List NetPack → List NetPack
handed connection fd nps = if connection fd then nps else []

pub dispatch_msg-packets :
    (connection : ℕ → Bool) (fd : ℕ) (fs : List (List ℕ))
    → dispatch_msg connection (packets fd fs) ≡ handed connection fd (packets fd fs)
unfolding dispatch_msg packets
dispatch_msg-packets connection fd fs = elim (Bool-cases (connection fd)) [
  | inl e ↦ rw (all fs e, e) refl
  | inr e ↦ rw (none_of fs e, e) refl
]
  where
    all :
        (fs : List (List ℕ))
        → connection fd ≡ true
        → dispatch_msg connection (packets fd fs) ≡ packets fd fs
    all [] e = refl
    all (b ∷ fs) e = rw (e, all fs e) refl

    none_of :
        (fs : List (List ℕ)) → connection fd ≡ false → dispatch_msg connection (packets fd fs) ≡ []
    none_of [] e = refl
    none_of (b ∷ fs) e = rw (e, none_of fs e) refl

pub handed-append :
    (connection : ℕ → Bool) (fd : ℕ) (xs ys : List NetPack)
    → handed connection fd xs ++ handed connection fd ys ≡ handed connection fd (xs ++ ys)
handed-append connection fd xs ys = elim (Bool-cases (connection fd)) [
  | inl e ↦ rw e refl
  | inr e ↦ rw e refl
]

pub packs-map : (fd : ℕ) (fs : List (List ℕ)) → packs fd fs ≡ map some (packets fd fs)
unfolding packs packets
packs-map fd [] = refl
packs-map fd (b ∷ fs) =
    ap (λ xs. some (record { id = fd; size = length b; buffer = b }) ∷ xs) (packs-map fd fs)

pub packets-append :
    (fd : ℕ) (fs gs : List (List ℕ)) → packets fd (fs ++ gs) ≡ packets fd fs ++ packets fd gs
unfolding packets
packets-append fd [] gs = refl
packets-append fd (b ∷ fs) gs =
    ap (λ xs. record { id = fd; size = length b; buffer = b } ∷ xs) (packets-append fd fs gs)

pub joined-append :
    (fs gs : List (List ℕ)) (t : List ℕ) → joined (fs ++ gs) ++ t ≡ joined fs ++ (joined gs ++ t)
unfolding joined
joined-append [] gs t = refl
joined-append (b ∷ fs) gs t =
    append_assoc _ (b ++ joined (fs ++ gs)) t
    ∙ (ap (λ xs. write_size (length b) ++ xs)
          (append_assoc b (joined (fs ++ gs)) t
            ∙ ap (λ xs. b ++ xs) (joined-append fs gs t)
            ∙ sym (append_assoc b (joined fs) _))
        ∙ sym (append_assoc _ (b ++ joined fs) _))

cons-some :
    (x y : NetPack) (xs ys : List (Option NetPack))
    → some x ∷ xs ≡ some y ∷ ys
    → (x ≡ y) × (xs ≡ ys)
cons-some x y xs ys e = (cc, cc)

pub map-some : (xs ys : List NetPack) → map some xs ≡ map some ys → xs ≡ ys
map-some [] [] e = refl
map-some [] (y ∷ ys) e = cc
map-some (x ∷ xs) [] e = cc
map-some (x ∷ xs) (y ∷ ys) e =
    let p = cons-some x y (map some xs) (map some ys) e in ap₂ ◌∷◌ (p.0) (map-some xs ys (p.1))

-- The queue was emptied, and nothing else changed.
pub record Empties (fuel : ℕ) (S : Option Queue) (nps : List NetPack) (S' : Option Queue)
    : Type 0 where
  pub result : pop_all fuel S ≡ (nps, S')
  pub left : ring (get_queue S') ≡ []
  pub in_ring : IsRing (get_queue S')
  pub same : (g : ℕ) → waiting (get_queue S') g ≡ waiting (get_queue S) g

pop_all-nil : (fuel : ℕ) (S : Option Queue) → lpop S ≡ none → pop_all fuel S ≡ ([], S)
unfolding pop_all
pop_all-nil zero S e = refl
pop_all-nil (suc fuel) S e = rw (pop_all, e) refl

pop_all-cons :
    (fuel : ℕ) (S S' : Option Queue) (np : NetPack)
    → lpop S ≡ some (np, S')
    → pop_all (suc fuel) S ≡ cons_pack np (pop_all fuel S')
unfolding pop_all
pop_all-cons fuel S S' np e = rw (pop_all, e) refl

pub pop_all-Empties :
    (nps : List NetPack) (fuel : ℕ) (S : Option Queue)
    → length nps ≤ fuel
    → IsRing (get_queue S)
    → ring (get_queue S) ≡ map some nps
    → (S' : Option Queue) × Empties fuel S nps S'
pop_all-Empties [] fuel S le v e = (
  S,
  record {
    result = pop_all-nil fuel S (lpop-empty S v e);
    left = e;
    in_ring = v;
    same = λ g. refl;
  },
)
pop_all-Empties (np ∷ nps) zero S le v e = absurd (omega arith)
pop_all-Empties (np ∷ nps) (suc fuel) S le v e =
    let (T, p) = lpop-Pops S np (map some nps) v e in
    let (S', r) = pop_all-Empties nps fuel T (omega arith) p.in_ring p.left in
    (
      S',
      record {
        result = pop_all-cons fuel S T np p.result ∙ ap (cons_pack np) r.result;
        left = r.left;
        in_ring = r.in_ring;
        same = λ g. r.same g ∙ p.same g;
      },
    )
