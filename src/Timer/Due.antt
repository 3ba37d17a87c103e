-- ===== src/Timer/Due.antt =====
-- `move_list`, `timer_shift`, `timer_execute` and `timer_update`: each node is dispatched at the tick
-- at which it expires.
use ddzproject.Prelude.{
  ℕ, zero, suc, ◌%◌, ◌^◌, ◌<◌, ◌≡◌, ◌≢◌, ◌⊎◌, inl, inr, refl, sym, ap, ◌∙◌, Option, none, some,
  arith, List, [], ◌∷◌, subst,
}
use ddzproject.Prelude.Bits.{bit_and_mask}
use ddzproject.Prelude.Members.{Has}
use ddzproject.Timer.{
  TimerNode, Timer, Slot, near_slot, level_slot, slot, set_slot, add_node, add_nodes, move_list,
  move_at, shift_slot, timer_shift, timer_execute,
}
use ddzproject.Timer.Place.{IsPlaced, IsAhead, tick, near-tick, moved-IsAhead, kept-IsPlaced}
use ddzproject.Timer.Wheel.{
  Slot-discrete, slot-set_self, slot-set_ne, time-set_slot, Pending, IsWheel, add_node-IsWheel,
  add_node-Pending, time-add_node,
}

-- The nodes of a list may be added.
abbrev AllAhead : ℕ → List TimerNode → Type 0
AllAhead c ns = (n : TimerNode) → Has n ns → (n.expire < 2 ^ 32) × IsAhead c n.expire

-- What adding a list of nodes to a wheel gives.
record Added (T : Timer) (ns : List TimerNode) (T' : Timer) : Type 0 where
  wheel : IsWheel T'
  time : T'.time ≡ T.time
  kept : (m : TimerNode) → Pending T m → Pending T' m
  added : (m : TimerNode) → Has m ns → Pending T' m
  only : (m : TimerNode) → Pending T' m → Pending T m ⊎ Has m ns

add_nodes-Added :
    (T : Timer) (ns : List TimerNode) → IsWheel T → AllAhead T.time ns → Added T ns (add_nodes T ns)
unfolding add_nodes
add_nodes-Added T [] w a = record {
  wheel = w;
  time = refl;
  kept = λ m p. p;
  added = λ m h. absurd h;
  only = λ m p. inl p;
}
add_nodes-Added T (n ∷ ns) w a = combine (
    add_nodes-Added (add_node T n) ns (add_node-IsWheel T n w (a n (inl refl)).0 (a n (inl refl)).1)
      (λ m h. rw (time-add_node T n) (a m (inr h))))
  where
    combine :
        Added (add_node T n) ns (add_nodes (add_node T n) ns)
        → Added T (n ∷ ns) (add_nodes (add_node T n) ns)
    combine r = record {
      wheel = r.wheel;
      time = r.time ∙ time-add_node T n;
      kept = λ m p. r.kept m ((add_node-Pending T n m).0 p);
      added = λ m h. elim h [
        | inl e ↦ r.kept m (subst (Pending (add_node T n)) (sym e) (add_node-Pending T n n).1)
        | inr g ↦ r.added m g
      ];
      only = λ m p. elim (r.only m p) [
        | inl q ↦ elim ((add_node-Pending T n m).2 q) [ inl u ↦ inl u | inr e ↦ inr (inl e) ]
        | inr g ↦ inr (inr g)
      ];
    }

-- The same wheel with another time, one slot cleared.
cleared-Has :
    (T : Timer) (s r : Slot) (m : TimerNode)
    → Has m (slot (set_slot T s []) r)
    → (s ≢ r) × Has m (slot T r)
cleared-Has T s r m h = elim (Slot-discrete s r) [
  | yes e ↦
      absurd (subst (Has m) (ap (λ u. slot (set_slot T s []) u) (sym e) ∙ slot-set_self T s []) h)
  | no ne ↦ (ne, subst (Has m) (slot-set_ne T s r [] ne) h)
]

Has-cleared :
    (T : Timer) (s r : Slot) (m : TimerNode)
    → s ≢ r
    → Has m (slot T r)
    → Has m (slot (set_slot T s []) r)
Has-cleared T s r m ne h = subst (Has m) (sym (slot-set_ne T s r [] ne)) h

-- Every node that is pending now expires later.
abbrev pub NoneDue : Timer → Type 0
NoneDue T = (m : TimerNode) → Pending T m → m.expire ≢ T.time

-- A pending node that expires now stands in the slot of `near` for this tick.
due_slot : (c k : ℕ) (s : Slot) → IsPlaced c c s → s ≡ near_slot (c % 256)
due_slot c k (near_slot j) p = ap near_slot (p.0)
due_slot c k (level_slot zero j) p = absurd (omega (arith, p.2))
due_slot c k (level_slot (suc zero) j) p = absurd (omega (arith, p.2))
due_slot c k (level_slot (suc (suc zero)) j) p = absurd (omega (arith, p.2))
due_slot c k (level_slot (suc (suc (suc zero))) j) p = absurd (p.1 refl)
due_slot c k (level_slot (suc (suc (suc (suc i)))) j) p = absurd p

-- What `timer_execute` gives.
pub record Executed (T : Timer) (r : List TimerNode × Timer) : Type 0 where
  pub wheel : IsWheel (r.1)
  pub time : r.1.time ≡ T.time
  pub due : (m : TimerNode) → Has m (r.0) → Pending T m × (m.expire ≡ T.time)
  pub all : (m : TimerNode) → Pending T m → m.expire ≡ T.time → Has m (r.0)
  pub none_left : NoneDue (r.1)
  pub kept : (m : TimerNode) → Pending T m → m.expire ≢ T.time → Pending (r.1) m
  pub only : (m : TimerNode) → Pending (r.1) m → Pending T m

execute_eq :
    (T : Timer)
    → timer_execute T
      ≡ (slot T (near_slot (T.time % 256)), set_slot T (near_slot (T.time % 256)) [])
unfolding timer_execute
execute_eq T = ap (λ k. (slot T (near_slot k), set_slot T (near_slot k) [])) (bit_and_mask 8 T.time)

pub execute-Executed : (T : Timer) → IsWheel T → Executed T (timer_execute T)
execute-Executed T w = rw (execute_eq T) (record {
  wheel = record {
    in_range = rw (time-set_slot T here []) w.in_range;
    fits = λ s m h. w.fits s m (cleared-Has T here s m h).1;
    placed = λ s m h. rw (time-set_slot T here []) (w.placed s m (cleared-Has T here s m h).1);
  };
  time = time-set_slot T here [];
  due = λ m h. ((here, h), omega (arith, w.placed here m h));
  all = λ m p e. subst (λ s. Has m (slot T s)) (stands m p e) (p.1);
  none_left = λ m p e.
      (cleared-Has T here (p.0) m (p.1)).0
        (sym (stands m (p.0, (cleared-Has T here (p.0) m (p.1)).1) (e ∙ time-set_slot T here [])));
  kept = λ m p ne. (
    p.0,
    Has-cleared T here (p.0) m (λ e. ne (now m (subst (λ s. Has m (slot T s)) (sym e) (p.1))))
        (p.1),
  );
  only = λ m p. (p.0, (cleared-Has T here (p.0) m (p.1)).1);
})
  where
    here : Slot
    here = near_slot (T.time % 256)

    now : (m : TimerNode) → Has m (slot T here) → m.expire ≡ T.time
    now m h = omega (arith, w.placed here m h)

    stands : (m : TimerNode) (p : Pending T m) → m.expire ≡ T.time → p.0 ≡ here
    stands m p e =
        due_slot T.time 0 (p.0) (subst (λ x. IsPlaced T.time x (p.0)) e (w.placed (p.0) m (p.1)))

-- What `timer_shift` gives.
pub record Shifted (T T' : Timer) : Type 0 where
  pub wheel : IsWheel T'
  pub time : T'.time ≡ tick T.time
  pub kept : (m : TimerNode) → Pending T m → Pending T' m
  pub only : (m : TimerNode) → Pending T' m → Pending T m

abbrev at_time : Timer → ℕ → Timer
at_time T c = record T { time = c }

slot-at_time : (T : Timer) (c : ℕ) (s : Slot) → slot (at_time T c) s ≡ slot T s
slot-at_time T c (near_slot k) = refl
slot-at_time T c (level_slot i k) = refl

-- A node that the tick does not move stands well at the new time.
stays :
    (T : Timer) (s : Slot) (m : TimerNode)
    → IsWheel T
    → NoneDue T
    → Has m (slot T s)
    → ((i k : ℕ) → s ≡ level_slot i k → shift_slot (tick T.time) ≢ some (i, k))
    → IsPlaced (tick T.time) m.expire s
stays T (near_slot k) m w none_due h ne =
    near-tick T.time m.expire k (w.fits (near_slot k) m h) (none_due m (near_slot k, h))
      (w.placed (near_slot k) m h)
stays T (level_slot i k) m w none_due h ne =
    kept-IsPlaced T.time m.expire i k w.in_range (w.fits (level_slot i k) m h)
      (w.placed (level_slot i k) m h) (ne i k refl)

shift-none :
    (T : Timer)
    → IsWheel T
    → NoneDue T
    → shift_slot (tick T.time) ≡ none
    → Shifted T (at_time T (tick T.time))
shift-none T w none_due e = record {
  wheel = record {
    in_range = omega arith;
    fits = λ s m h. w.fits s m (subst (Has m) (slot-at_time T (tick T.time) s) h);
    placed = λ s m h.
        unfold at_time in
        stays T s m w none_due (subst (Has m) (slot-at_time T (tick T.time) s) h)
          (λ i k f g. absurd (differ i k g));
  };
  time = refl;
  kept = λ m p. (p.0, subst (Has m) (sym (slot-at_time T (tick T.time) (p.0))) (p.1));
  only = λ m p. (p.0, subst (Has m) (slot-at_time T (tick T.time) (p.0)) (p.1));
}
  where
    differ : (i k : ℕ) → shift_slot (tick T.time) ≡ some (i, k) → ⊥
    differ i k g = cc (sym e ∙ g)

shift-some :
    (T : Timer) (i k : ℕ)
    → IsWheel T
    → NoneDue T
    → shift_slot (tick T.time) ≡ some (i, k)
    → Shifted T (move_list (at_time T (tick T.time)) i k)
unfolding move_list
shift-some T i k w none_due e = record {
  wheel = r.wheel;
  time = r.time ∙ time_eq;
  kept = λ m p. elim (Slot-discrete from (p.0)) [
    | yes f ↦ r.added m (
        subst (λ s. Has m (slot U s)) (sym f)
          (subst (Has m) (sym (slot-at_time T (tick T.time) (p.0))) (p.1)))
    | no ne ↦ r.kept m (
      p.0,
      Has-cleared U from (p.0) m ne
          (subst (Has m) (sym (slot-at_time T (tick T.time) (p.0))) (p.1)),
    )
  ];
  only = λ m p. elim (r.only m p) [
    | inl q ↦ (
      q.0,
      subst (Has m) (slot-at_time T (tick T.time) (q.0)) (cleared-Has U from (q.0) m (q.1)).1,
    )
    | inr g ↦ (from, subst (Has m) (slot-at_time T (tick T.time) from) g)
  ];
}
  where
    U : Timer
    U = at_time T (tick T.time)

    from : Slot
    from = level_slot i k

    time_eq : (set_slot U from []).time ≡ tick T.time
    time_eq = time-set_slot U from [] ∙ refl

    before : (s : Slot) (m : TimerNode) → Has m (slot (set_slot U from []) s) → Has m (slot T s)
    before s m h = subst (Has m) (slot-at_time T (tick T.time) s) (cleared-Has U from s m h).1

    other :
        (s : Slot)
        → from ≢ s
        → (a b : ℕ) → s ≡ level_slot a b
        → shift_slot (tick T.time) ≢ some (a, b)
    other s ne a b f g = ne (cc (sym e ∙ g, f))

    cleared : IsWheel (set_slot U from [])
    cleared = record {
      in_range = rw time_eq (omega arith);
      fits = λ s m h. w.fits s m (before s m h);
      placed = λ s m h.
          rw time_eq (stays T s m w none_due (before s m h) (other s (cleared-Has U from s m h).0));
    }

    ahead : AllAhead (set_slot U from []).time (slot U from)
    ahead m h =
        let g : Has m (slot T from) = subst (Has m) (slot-at_time T (tick T.time) from) h in
        (
          w.fits from m g,
          rw time_eq (
              moved-IsAhead T.time m.expire i k w.in_range (w.fits from m g) (w.placed from m g) e),
        )

    r : Added (set_slot U from []) (slot U from) (add_nodes (set_slot U from []) (slot U from))
    r = add_nodes-Added (set_slot U from []) (slot U from) cleared ahead

-- `timer_shift`, when nothing is due at the old time, advances the time by one tick and keeps every
-- node pending, in a slot that suits the new time.
pub shift-Shifted : (T : Timer) → IsWheel T → NoneDue T → Shifted T (timer_shift T)
unfolding timer_shift
shift-Shifted T w none_due = go (shift_slot (tick T.time)) refl
  where
    go :
        (o : Option (ℕ × ℕ))
        → shift_slot (tick T.time) ≡ o
        → Shifted T (move_at (at_time T (tick T.time)) (shift_slot (tick T.time)))
    go none e = rw e (shift-none T w none_due e)
    go (some (i, k)) e = rw e (shift-some T i k w none_due e)
