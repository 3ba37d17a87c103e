-- ===== src/Timer/Wheel.antt =====
-- The slots of the wheel: adding, clearing and moving nodes.
use ddzproject.Prelude.{
  ◌^◌, ◌<◌, ◌≡◌, ◌≢◌, ◌⊎◌, inl, inr, refl, sym, ap, ◌∙◌, arith, List, [], ◌∷◌, ◌++◌, subst, ==_refl,
}
use ddzproject.Prelude.Members.{Has, Has-left, Has-right, Has-append}
use native.Mathlib.Decide.{ℕ_discrete}
use ddzproject.Timer.{
  TimerNode, Timer, Slot, near_slot, level_slot, slot, set_slot, link, place, add_node,
}
use ddzproject.Timer.Place.{IsPlaced, IsAhead, place-IsPlaced}

pub Slot-discrete : Discrete Slot
Slot-discrete = hlevel ℕ_discrete

pub slot-set_self : (T : Timer) (s : Slot) (l : List TimerNode) → slot (set_slot T s l) s ≡ l
unfolding set_slot
slot-set_self T (near_slot k) l = rw (==_refl k) refl
slot-set_self T (level_slot i k) l = rw (==_refl i, ==_refl k) refl

pub slot-set_ne :
    (T : Timer) (s r : Slot) (l : List TimerNode) → s ≢ r → slot (set_slot T s l) r ≡ slot T r
unfolding set_slot
slot-set_ne T (near_slot k) (near_slot j) l ne = ground arith
slot-set_ne T (near_slot k) (level_slot a b) l ne = refl
slot-set_ne T (level_slot i k) (near_slot j) l ne = refl
slot-set_ne T (level_slot i k) (level_slot a b) l ne = ground arith

pub time-set_slot : (T : Timer) (s : Slot) (l : List TimerNode) → (set_slot T s l).time ≡ T.time
unfolding set_slot
time-set_slot T (near_slot k) l = refl
time-set_slot T (level_slot i k) l = refl

-- The node is somewhere in the wheel.
abbrev pub Pending : Timer → TimerNode → Type 0
Pending T n = (s : Slot) × Has n (slot T s)

-- Every node stands in a slot where the time lets it stand.
pub record IsWheel (T : Timer) : Type 0 where
  pub in_range : T.time < 2 ^ 32
  pub fits : (s : Slot) (n : TimerNode) → Has n (slot T s) → n.expire < 2 ^ 32
  pub placed : (s : Slot) (n : TimerNode) → Has n (slot T s) → IsPlaced T.time n.expire s

-- What stands in a slot after one node was added.
pub Has-link :
    (T : Timer) (s : Slot) (n m : TimerNode) (r : Slot)
    → Has m (slot (link T s n) r)
    → Has m (slot T r) ⊎ ((r ≡ s) × (m ≡ n))
unfolding link
Has-link T s n m r h = elim (Slot-discrete s r) [
  | no ne ↦ inl (subst (Has m) (slot-set_ne T s r (slot T s ++ n ∷ []) ne) h)
  | yes e ↦ last e (
      Has-append (slot T s) (n ∷ []) m (
        subst (Has m)
          (ap (λ u. slot (set_slot T s (slot T s ++ n ∷ [])) u) (sym e)
            ∙ slot-set_self T s (slot T s ++ n ∷ []))
          h))
]
  where
    last : s ≡ r → Has m (slot T s) ⊎ Has m (n ∷ []) → Has m (slot T r) ⊎ ((r ≡ s) × (m ≡ n))
    last e (inl a) = inl (subst (λ u. Has m (slot T u)) e a)
    last e (inr (inl b)) = inr (sym e, b)
    last e (inr (inr b)) = absurd b

pub link-Has :
    (T : Timer) (s : Slot) (n m : TimerNode) (r : Slot)
    → Has m (slot T r)
    → Has m (slot (link T s n) r)
unfolding link
link-Has T s n m r h = elim (Slot-discrete s r) [
  | no ne ↦ subst (Has m) (sym (slot-set_ne T s r (slot T s ++ n ∷ []) ne)) h
  | yes e ↦
      subst (λ u. Has m (slot (set_slot T s (slot T s ++ n ∷ [])) u)) e
        (subst (Has m) (sym (slot-set_self T s (slot T s ++ n ∷ [])))
          (Has-left (slot T s) (n ∷ []) m (subst (λ u. Has m (slot T u)) (sym e) h)))
]

pub link-Has_new : (T : Timer) (s : Slot) (n : TimerNode) → Has n (slot (link T s n) s)
unfolding link
link-Has_new T s n =
    subst (Has n) (sym (slot-set_self T s (slot T s ++ n ∷ [])))
      (Has-right (slot T s) (n ∷ []) n (inl refl))

pub time-add_node : (T : Timer) (n : TimerNode) → (add_node T n).time ≡ T.time
unfolding add_node link
time-add_node T n = time-set_slot T (place n.expire T.time) _

pub add_node-IsWheel :
    (T : Timer) (n : TimerNode)
    → IsWheel T
    → n.expire < 2 ^ 32
    → IsAhead T.time n.expire
    → IsWheel (add_node T n)
add_node-IsWheel T n w h a = record {
  in_range = rw (time-add_node T n) w.in_range;
  fits = λ s m g. fits s m (unfold add_node in Has-link T (place n.expire T.time) n m s g);
  placed = λ s m g.
      rw (time-add_node T n)
        (placed s m (unfold add_node in Has-link T (place n.expire T.time) n m s g));
}
  where
    fits :
        (s : Slot) (m : TimerNode)
        → Has m (slot T s) ⊎ ((s ≡ place n.expire T.time) × (m ≡ n))
        → m.expire < 2 ^ 32
    fits s m (inl g) = w.fits s m g
    fits s m (inr (e, f)) = rw f h

    placed :
        (s : Slot) (m : TimerNode)
        → Has m (slot T s) ⊎ ((s ≡ place n.expire T.time) × (m ≡ n))
        → IsPlaced T.time m.expire s
    placed s m (inl g) = w.placed s m g
    placed s m (inr (e, f)) = rw (e, f) (place-IsPlaced T.time n.expire a)

-- Adding a node keeps those that were pending, and makes the new one pending; no other is.
pub add_node-Pending :
    (T : Timer) (n m : TimerNode)
    → (Pending T m → Pending (add_node T n) m)
      × Pending (add_node T n) n
      × (Pending (add_node T n) m → Pending T m ⊎ (m ≡ n))
unfolding add_node
add_node-Pending T n m = (
  λ p. (p.0, link-Has T (place n.expire T.time) n m (p.0) (p.1)),
  (place n.expire T.time, link-Has_new T (place n.expire T.time) n),
  λ p. back (p.0) (Has-link T (place n.expire T.time) n m (p.0) (p.1)),
)
  where
    back :
        (s : Slot)
        → Has m (slot T s) ⊎ ((s ≡ place n.expire T.time) × (m ≡ n))
        → Pending T m ⊎ (m ≡ n)
    back s (inl g) = inl (s, g)
    back s (inr (e, f)) = inr f
