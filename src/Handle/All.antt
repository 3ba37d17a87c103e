-- ===== src/Handle/All.antt =====
-- `skynet_handle_retireall`, when no other thread registers a context.
use ddzproject.Prelude.{
  ℕ, zero, suc, ◌+◌, ◌%◌, ◌^◌, ◌≤◌, ◌<◌, ◌≡◌, ◌≢◌, inl, inr, refl, sym, ap, ◌∙◌, subst, Option,
  none, some, List, [], ◌∷◌, get_or, set, length, arith, ==_iff, ==_ne, Option-cases,
  get_or-set_self, get_or-set_ne, length-set,
}
use native.Mathlib.Decide.{ℕ_discrete, dec_lt}
use ddzproject.Handle.{
  Context, Storage, slot_handle, retire, retire_slot, retire_slots, retireall, grab, remove_names,
}
use ddzproject.Handle.Owner.{grab-none}
use ddzproject.Handle.Put.{IsStorage}
use ddzproject.Handle.Retire.{retire-Retired, retire-Owns}

-- The handle that a slot has to give.
abbrev in_slot : Storage → ℕ → ℕ
in_slot s i = slot_handle (get_or s.slot i none)

-- What a round does: the slot has no handle after it, and the others are as they were.
record Cleared (s : Storage) (i n : ℕ) (t : Storage) : Type 0 where
  stands : IsStorage t
  size : length t.slot ≡ length s.slot
  clear : i < length s.slot → in_slot t i ≡ 0
  others : (j : ℕ) → j ≢ i → in_slot t j ≡ in_slot s j
  nothing : in_slot s i ≡ 0 → n ≡ 0

retire_slot-none : (s : Storage) (i : ℕ) → in_slot s i ≡ 0 → retire_slot s i ≡ (0, s)
unfolding retire_slot
retire_slot-none s i e = rw ((==_iff (in_slot s i) 0).1 e) refl

retire_slot-some :
    (s t : Storage) (i a : ℕ)
    → in_slot s i ≢ 0
    → retire s (in_slot s i) ≡ (some a, t)
    → retire_slot s i ≡ (1, t)
unfolding retire_slot
retire_slot-some s t i a ne e = rw (==_ne (in_slot s i) 0 ne, e) refl

held : (s : Storage) (i : ℕ) → in_slot s i ≢ 0 → (c : Context) × (get_or s.slot i none ≡ some c)
unfolding slot_handle
held s i ne = elim (Option-cases (get_or s.slot i none)) [
  | inl e ↦ absurd (ne (ap slot_handle e))
  | inr found ↦ found
]

retire_slot-Cleared :
    (s : Storage) (i : ℕ) → IsStorage s → Cleared s i (retire_slot s i).0 (retire_slot s i).1
unfolding slot_handle
retire_slot-Cleared s i ok = elim (ℕ_discrete (in_slot s i) 0) [
  | yes e ↦
      subst (λ (r : ℕ × Storage). Cleared s i r.0 r.1) (sym (retire_slot-none s i e))
        (record {
          stands = ok;
          size = refl;
          clear = λ lt. e;
          others = λ j ne. refl;
          nothing = λ z. refl;
        })
  | no ne ↦ emptied ne (held s i ne)
]
  where
    emptied :
        in_slot s i ≢ 0
        → (c : Context) × (get_or s.slot i none ≡ some c)
        → Cleared s i (retire_slot s i).0 (retire_slot s i).1
    emptied ne (c, e) =
        subst (λ (r : ℕ × Storage). Cleared s i r.0 r.1)
          (sym (retire_slot-some s t i c.address ne gone))
          (record {
            stands =
                subst (λ (r : Option ℕ × Storage). IsStorage r.1) gone
                  (retire-Retired s (in_slot s i) ok).stands;
            size = length-set s.slot (in_slot s i % 2 ^ ok.power) none;
            clear = λ lt. ap slot_handle (
                ap (λ x. get_or (set s.slot x none) i none) there
                ∙ get_or-set_self s.slot i none none lt);
            others = λ j away. ap slot_handle (
                ap (λ x. get_or (set s.slot x none) j none) there
                ∙ get_or-set_ne s.slot i j none none (λ q. away (sym q)));
            nothing = λ z. absurd (ne z);
          })
      where
        h_eq : in_slot s i ≡ c.handle
        h_eq = ap slot_handle e

        there : in_slot s i % 2 ^ ok.power ≡ i
        there = ap (λ h. h % 2 ^ ok.power) h_eq ∙ ok.slots.placed i c e

        t : Storage
        t = record s {
          slot = set s.slot (in_slot s i % 2 ^ ok.power) none;
          names = remove_names (in_slot s i) s.names;
        }

        gone : retire s (in_slot s i) ≡ (some c.address, t)
        gone =
            retire-Owns s (in_slot s i) ok c
              (record { stored = ap (λ x. get_or s.slot x none) there ∙ e; handle = sym h_eq })

-- A slot out of bounds has no handle.
beyond :
    (slots : List (Option Context)) (j : ℕ)
    → length slots ≤ j
    → slot_handle (get_or slots j none) ≡ 0
unfolding slot_handle
beyond [] j le = refl
beyond (x ∷ slots) zero le = absurd (omega arith)
beyond (x ∷ slots) (suc j) le = beyond slots j (omega arith)

-- What the rounds from `i` on do.
record Swept (s : Storage) (left i n : ℕ) (t : Storage) : Type 0 where
  stands : IsStorage t
  size : length t.slot ≡ length s.slot
  clear : (j : ℕ) → i ≤ j → j < i + left → j < length s.slot → in_slot t j ≡ 0
  before : (j : ℕ) → j < i → in_slot t j ≡ in_slot s j
  nothing : ((j : ℕ) → in_slot s j ≡ 0) → n ≡ 0

retire_slots-Swept :
    (left i : ℕ) (s : Storage)
    → IsStorage s
    → Swept s left i (retire_slots left i s).0 (retire_slots left i s).1
unfolding retire_slots
retire_slots-Swept zero i s ok = record {
  stands = ok;
  size = refl;
  clear = λ j ge lt in_range. absurd (omega arith);
  before = λ j lt. refl;
  nothing = λ none_there. refl;
}
retire_slots-Swept (suc left) i s ok =
    let one = retire_slot-Cleared s i ok in
    let more = retire_slots-Swept left (i + 1) (retire_slot s i).1 one.stands in
    record {
      stands = more.stands;
      size = more.size ∙ one.size;
      clear = λ j ge lt in_range. elim (ℕ_discrete j i) [
        | yes e ↦
            more.before j (omega arith)
            ∙ ap (λ x. in_slot (retire_slot s i).1 x) e
            ∙ one.clear (omega arith)
        | no ne ↦ more.clear j (omega arith) (omega arith) (omega (arith, one.size))
      ];
      before = λ j lt. more.before j (omega arith) ∙ one.others j (omega arith);
      nothing = λ none_there.
          omega (arith, one.nothing (none_there i), more.nothing (λ j. same one none_there j));
    }
  where
    same :
        Cleared s i (retire_slot s i).0 (retire_slot s i).1
        → ((j : ℕ) → in_slot s j ≡ 0)
        → (j : ℕ) → in_slot (retire_slot s i).1 j ≡ 0
    same one none_there j = elim (ℕ_discrete j i) [
      | no ne ↦ one.others j ne ∙ none_there j
      | yes e ↦ elim (dec_lt i (length s.slot)) [
        | yes lt ↦ ap (λ x. in_slot (retire_slot s i).1 x) e ∙ one.clear lt
        | no out ↦ beyond (retire_slot s i).1.slot j (omega (arith, one.size))
      ]
    ]

module _ (s : Storage) (ok : IsStorage s) where
  abbrev swept : Storage
  swept = (retire_slots (length s.slot) 0 s).1

  sweep : Swept s (length s.slot) 0 (retire_slots (length s.slot) 0 s).0 swept
  sweep = retire_slots-Swept (length s.slot) 0 s ok

  swept-clear : (j : ℕ) → in_slot swept j ≡ 0
  swept-clear j = elim (dec_lt j (length s.slot)) [
    | yes lt ↦ sweep.clear j (omega arith) (omega arith) lt
    | no out ↦ beyond swept.slot j (omega (arith, sweep.size))
  ]

  swept-gone : (g : ℕ) → g ≢ 0 → grab swept g ≡ none
  unfolding slot_handle
  swept-gone g ne = grab-none swept sweep.stands.power g sweep.stands.slots (λ c o.
      ne (sym o.handle ∙ ap slot_handle (sym o.stored) ∙ swept-clear (g % 2 ^ sweep.stands.power)))

  retireall-done :
      (fuel : ℕ) → (retire_slots (length s.slot) 0 s).0 ≡ 0 → retireall (suc fuel) s ≡ some swept
  unfolding retireall
  retireall-done fuel e = rw ((==_iff (retire_slots (length s.slot) 0 s).0 0).1 e) refl

  retireall-again :
      (fuel : ℕ)
      → (retire_slots (length s.slot) 0 s).0 ≢ 0
      → retireall (suc fuel) s ≡ retireall fuel swept
  unfolding retireall
  retireall-again fuel ne = rw (retireall, ==_ne (retire_slots (length s.slot) 0 s).0 0 ne) refl

-- In a well formed storage, and when no other thread is at it, `skynet_handle_retireall` ends within two
-- rounds of its loop; after it no handle but 0 has a context, and the storage is well formed.
pub retireall-ends :
    (s : Storage)
    → IsStorage s
    → (t : Storage) × ((retireall 2 s ≡ some t)
        × (IsStorage t × ((g : ℕ) → g ≢ 0 → grab t g ≡ none)))
retireall-ends s ok = elim (ℕ_discrete (retire_slots (length s.slot) 0 s).0 0) [
  | yes e ↦ (swept s ok, (retireall-done s ok 1 e, ((sweep s ok).stands, swept-gone s ok)))
  | no ne ↦
      let ok' = (sweep s ok).stands in
      let t = swept s ok in
      (
        swept t ok',
        (
          retireall-again s ok 1 ne
              ∙ retireall-done t ok' 0 ((sweep t ok').nothing (swept-clear s ok)),
          ((sweep t ok').stands, swept-gone t ok'),
        ),
      )
]
