-- ===== src/Netpack/Pop.antt =====
-- `lpop` of lua-netpack.c, once and until the queue is empty.
use ddzproject.Prelude.{
  ℕ, suc, ◌+◌, ◌%◌, ◌≡◌, ◌≢◌, refl, sym, ap, ap₂, ◌∙◌, Option, none, some, List, [], ◌∷◌, leb,
  if◌then◌else◌, length, get_or, arith, ==_ne, ==_iff,
}
use ddzproject.Prelude.Round.{copy_round, copy_round-mod, length-copy_round}
use ddzproject.Netpack.{NetPack, Queue, get_queue, lpop}
use ddzproject.Netpack.Ring.{IsRing, ring, ring_length}
use ddzproject.Netpack.Waiting.{waiting}
use native.Mathlib.Nat.{mod-eq_of_lt, mod-eq-sub-mod}
use native.Mathlib.Decide.{dec_lt}

next_head : Queue → ℕ
next_head q = if leb q.cap (q.head + 1) then 0 else q.head + 1

popped : Queue → Queue
popped q = record q { head = next_head q }

popped-length :
    (q : Queue) → IsRing q → q.head ≢ q.tail → ring_length q ≡ suc (ring_length (popped q))
unfolding ring_length popped next_head
popped-length q v ne = ground arith

next_head-mod : (q : Queue) → IsRing q → (q.head + 1) % q.cap ≡ next_head q % q.cap
unfolding next_head
next_head-mod q v = elim (dec_lt (q.head + 1) q.cap) [
  | yes p ↦ ground arith
  | no p ↦
      let e : q.head + 1 ≡ q.cap = omega (arith, v.head_in) in
      ground (
        arith,
        mod-eq-sub-mod {n = q.cap} {m = q.cap} (omega arith),
        mod-eq_of_lt {n = 0} {m = q.cap} (omega (arith, v.head_in)),
      )
]

ring-popped :
    (q : Queue) → IsRing q → q.head ≢ q.tail → ring q ≡ get_or q.queue q.head none ∷ ring (popped q)
unfolding ring copy_round
ring-popped q v ne =
    ap (λ n. copy_round q.queue q.cap q.head n) (popped-length q v ne)
    ∙ ap₂ ◌∷◌ (ap (λ i. get_or q.queue i none) (mod-eq_of_lt {n = q.head} {m = q.cap} v.head_in)) (
        unfold popped in
        copy_round-mod q.queue q.cap (q.head + 1) (next_head q) (ring_length (popped q))
          (next_head-mod q v))

popped-IsRing : (q : Queue) → IsRing q → IsRing (popped q)
unfolding popped next_head
popped-IsRing q v = ground arith

empty-ends : (q : Queue) → ring q ≡ [] → IsRing q → q.head ≡ q.tail
unfolding ring ring_length
empty-ends q e v =
    ground (arith, length-copy_round q.queue q.cap q.head (ring_length q), ap length e)

full-ends :
    (q : Queue) (x : Option NetPack) (xs : List (Option NetPack))
    → ring q ≡ x ∷ xs
    → q.head ≢ q.tail
unfolding ring ring_length
full-ends q x xs e p =
    ground (arith, length-copy_round q.queue q.cap q.head (ring_length q), ap length e)

pub fresh-ring : ring (get_queue none) ≡ []
unfolding ring ring_length get_queue copy_round
fresh-ring = refl

cons_eq :
    (x y : Option NetPack) (xs ys : List (Option NetPack)) → x ∷ xs ≡ y ∷ ys → (x ≡ y) × (xs ≡ ys)
cons_eq x y xs ys e = (cc, cc)

-- What the queue holds is taken from its front, and nothing else changes.
pub record Pops (S : Option Queue) (np : NetPack) (rest : List (Option NetPack)) (S' : Option Queue)
    : Type 0 where
  pub result : lpop S ≡ some (np, S')
  pub left : ring (get_queue S') ≡ rest
  pub in_ring : IsRing (get_queue S')
  pub same : (g : ℕ) → waiting (get_queue S') g ≡ waiting (get_queue S) g

pub lpop-empty : (S : Option Queue) → IsRing (get_queue S) → ring (get_queue S) ≡ [] → lpop S ≡ none
unfolding lpop
lpop-empty none v e = refl
lpop-empty (some q) v e =
    unfold get_queue in rw (lpop, (==_iff q.head q.tail).1 (empty-ends q e v)) refl

-- `lpop` takes the first packet that the ring holds.
pub lpop-Pops :
    (S : Option Queue) (np : NetPack) (rest : List (Option NetPack))
    → IsRing (get_queue S)
    → ring (get_queue S) ≡ some np ∷ rest
    → (S' : Option Queue) × Pops S np rest S'
unfolding lpop get_queue
lpop-Pops none np rest v e = absurd (go (sym fresh-ring ∙ e))
  where
    go : ¬ ([] ≡ some np ∷ rest)
    go p = cc
lpop-Pops (some q) np rest v e = (
  some (popped q),
  record {
    result = rw (lpop, ==_ne q.head q.tail ne, front) (unfold popped next_head in refl);
    left = tail_eq;
    in_ring = popped-IsRing q v;
    same = λ g. unfold waiting popped in refl;
  },
)
  where
    ne : q.head ≢ q.tail
    ne = full-ends q (some np) rest e

    both : get_or q.queue q.head none ∷ ring (popped q) ≡ some np ∷ rest
    both = sym (ring-popped q v ne) ∙ e

    front : get_or q.queue q.head none ≡ some np
    front = (cons_eq _ _ _ _ both).0

    tail_eq : ring (popped q) ≡ rest
    tail_eq = (cons_eq _ _ _ _ both).1
