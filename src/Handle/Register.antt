-- ===== src/Handle/Register.antt =====
-- `skynet_handle_register` as a whole: the search for a handle, the growth, and the search after it.
use ddzproject.Prelude.{
  ℕ, suc, ◌-◌, ◌*◌, ◌^◌, ◌≤◌, ◌<◌, ◌≡◌, refl, sym, ap, ◌∙◌, inl, inr, Option, none, some, List,
  get_or, length, arith, Option-cases, leb, true,
}
use native.Mathlib.Nat.{pow-le-pow_right, pow-suc}
use native.Mathlib.Decide.{ℕ_discrete}
use ddzproject.Handle.{
  Context, Storage, grab, put_context, register, grow, find_free, rehash, handle_mask,
}
use ddzproject.Handle.Slots.{Rehashed}
use ddzproject.Handle.Free.{find_free-some, find_free-none}
use ddzproject.Handle.Grow.{empty_slots, rehash-full, Rehashed-IsSlots, Rehashed-free}
use ddzproject.Handle.Owner.{grab_same, Owns-moved, Owns-before}
use ddzproject.Handle.Put.{IsStorage, Registered}
use ddzproject.Handle.Fresh.{put-Registered}

le→leb : (a b : ℕ) → a ≤ b → leb a b ≡ true
le→leb a b h = ground arith

grow-eq :
    (s : Storage) (out : List (Option Context))
    → length s.slot * 2 - 1 ≤ handle_mask
    → rehash s.slot (empty_slots (length s.slot * 2)) ≡ some out
    → grow s ≡ some (record s { slot = out })
unfolding grow
grow-eq s out fits e = rw (le→leb (length s.slot * 2 - 1) handle_mask fits, e) refl

pub register-found :
    (s : Storage) (fuel address h : ℕ)
    → find_free s.slot s.handle_index (length s.slot) 0 ≡ some h
    → register (suc fuel) s address ≡ some (put_context s address h)
unfolding register
register-found s fuel address h e = rw (register, e) refl

pub register-grown :
    (s t : Storage) (fuel address : ℕ)
    → find_free s.slot s.handle_index (length s.slot) 0 ≡ none
    → grow s ≡ some t
    → register (suc fuel) s address ≡ register fuel t address
unfolding register
register-grown s t fuel address e f = rw (register, e, f) refl

-- A search of slots one of which is empty finds a handle.
find_free-exists :
    (s : Storage)
    → IsStorage s
    → (t : ℕ) × ((t < length s.slot) × (get_or s.slot t none ≡ none))
    → (h : ℕ) × (find_free s.slot s.handle_index (length s.slot) 0 ≡ some h)
find_free-exists s ok (t, (lt, e)) =
    elim (Option-cases (find_free s.slot s.handle_index (length s.slot) 0)) [
      | inr found ↦ found
      | inl full ↦
          absurd
            (find_free-none s.slot s.handle_index ok.power ok.slots.size ok.slots.low full t lt e)
    ]

-- The power of a size below `2 ^ 24` leaves room for a growth.
room : (k : ℕ) → k ≤ 24 → 2 ^ k < 2 ^ 24 → (suc k ≤ 24) × (2 ^ k * 2 - 1 ≤ handle_mask)
room k le lt = elim (ℕ_discrete k 24) [
  | yes e ↦ absurd (omega (arith, ap (λ n. 2 ^ n) e))
  | no ne ↦ (
    omega arith,
    omega (
      arith,
      pow-suc 2 k,
      pow-le-pow_right {n = 2} (omega arith) {i = suc k} {j = 24} (omega arith),
    ),
  )
]

pub register-found_Registered :
    (s : Storage) (fuel address : ℕ)
    → IsStorage s
    → (h : ℕ) × (find_free s.slot s.handle_index (length s.slot) 0 ≡ some h)
    → (h : ℕ) × ((t : Storage) × ((register (suc fuel) s address ≡ some (h, t))
          × Registered s address h t))
register-found_Registered s fuel address ok (h, e) =
    let (low, free) = find_free-some s.slot s.handle_index (length s.slot) 0 h e in
    (
      (put_context s address h).0,
      (
        (put_context s address h).1,
        (register-found s fuel address h e, put-Registered s address h ok low free),
      ),
    )

-- In a well formed storage of less than `2 ^ 24` slots, `register` ends within two rounds of its loop.
-- It gives a handle that no context had, which then is that of the new context; every other handle
-- has the context that it had, also where the slots had to grow; the names are as before, and the
-- storage is well formed.
pub register-Registered :
    (s : Storage) (address : ℕ)
    → IsStorage s
    → length s.slot < 2 ^ 24
    → (h : ℕ) × ((t : Storage) × ((register 2 s address ≡ some (h, t)) × Registered s address h t))
register-Registered s address ok lt =
    elim (Option-cases (find_free s.slot s.handle_index (length s.slot) 0)) [
      | inr found ↦ register-found_Registered s 1 address ok found
      | inl full ↦
          let (out, r) =
            rehash-full s.slot ok.power ok.slots
              (find_free-none s.slot s.handle_index ok.power ok.slots.size ok.slots.low full) in
          after full out r
    ]
  where
    wide : (suc ok.power ≤ 24) × (2 ^ ok.power * 2 - 1 ≤ handle_mask)
    wide = room ok.power ok.slots.low (omega (arith, ok.slots.size))

    after :
        find_free s.slot s.handle_index (length s.slot) 0 ≡ none
        → (out : List (Option Context))
        → Rehashed s.slot (empty_slots (length s.slot * 2)) out ok.power 0
        → (h : ℕ) × ((t : Storage) × ((register 2 s address ≡ some (h, t))
              × Registered s address h t))
    after full out r =
        let (h, (t, (e, done))) =
          register-found_Registered s' 0 address ok'
            (find_free-exists s' ok' (Rehashed-free s.slot out ok.power ok.slots r)) in
        (
          h,
          (
            t,
            (
              register-grown s s' 1 address full
                    (grow-eq s out (omega (arith, wide, ok.slots.size)) r.result)
                  ∙ e,
              record {
                stands = done.stands;
                fresh = sym (same h) ∙ done.fresh;
                given = done.given;
                others = λ g ne. done.others g ne ∙ same g;
                names = done.names;
              },
            ),
          ),
        )
      where
        s' : Storage
        s' = record s { slot = out }

        ok' : IsStorage s'
        ok' = record {
          power = suc ok.power;
          slots = Rehashed-IsSlots s.slot out ok.power ok.slots r (wide.0);
          number = ok.number;
          harbor = ok.harbor;
        }

        same : (g : ℕ) → grab s' g ≡ grab s g
        same g =
            grab_same s s' ok.power (suc ok.power) g ok.slots ok'.slots
              (Owns-moved s.slot out ok.power g ok.slots r)
              (Owns-before s.slot out ok.power g ok.slots r)
