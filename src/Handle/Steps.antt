-- ===== src/Handle/Steps.antt =====
-- The operations of Server/skynet/skynet-src/skynet_handle.c as steps on the storage, and the storages that
-- they lead to.
use ddzproject.Prelude.{
  ℕ, suc, ◌-◌, ◌*◌, ◌^◌, ◌≤◌, ◌≡◌, ◌⊎◌, refl, sym, ap, subst, ◌∙◌, inl, inr, List, arith, length,
  Option, none, some, Bool, bit_and, true, false, Option-cases,
}
use native.Mathlib.Decide.{dec_le}
use ddzproject.Handle.{
  Storage, name_handle, handle_init, register, retire, grow, find_free, handle_mask, max_slot_size,
}
use ddzproject.Handle.Slots.{IsSlots, none-some}
use ddzproject.Handle.Insert.{leb-false, name_handle-found, name_handle-no_room}
use ddzproject.Handle.Grow.{empty_at}
use ddzproject.Handle.Put.{IsStorage, Registered}
use ddzproject.Handle.Register.{register-Registered, register-found_Registered}
use ddzproject.Handle.Retire.{retire-Retired, retire-Owns, retire-none}
use ddzproject.Handle.Owner.{owner}
use ddzproject.Handle.Lookup.{entry, search-cases}
use ddzproject.Prelude.Members.{Has}
use ddzproject.Handle.Thinned.{remove_names-IsSorted}
use ddzproject.Handle.Names.{IsSorted}
use ddzproject.Handle.Insert.{Named, name_handle-Named}

-- A storage that is well formed in both of its tables.
pub record IsWell (s : Storage) : Type 0 where
  pub storage : IsStorage s
  pub sorted : IsSorted s.names

-- One operation on the storage that came to an end. A `register` is a step together with the assignment of
-- the handle that its caller makes after the lock, so these are runs in which no other operation comes
-- between the two; `raced` of the tests is one in which a growth does.
pub data Step : Storage → Storage → Type 0 where
  registers : {s t : Storage} (address h : ℕ) → register 2 s address ≡ some (h, t) → Step s t
  retires : {s : Storage} (h : ℕ) → Step s (retire s h).1
  names :
      {s t : Storage} (h : ℕ) (name : List ℕ) (fresh : Bool)
      → name_handle s h name ≡ some (fresh, t)
      → Step s t

pub data Reachable : Storage → Type 0 where
  starts : (harbor : ℕ) → Reachable (handle_init harbor)
  goes : {s t : Storage} → Reachable s → Step s t → Reachable t

handle_init-IsWell : (harbor : ℕ) → IsWell (handle_init harbor)
unfolding handle_init
handle_init-IsWell harbor = record {
  storage = record {
    power = 2;
    slots = record {
      size = refl;
      low = omega arith;
      placed = λ i c e. absurd (none-some c (sym (empty_at 4 i) ∙ e));
    };
    number = bit_and harbor 0xff;
    harbor = refl;
  };
  sorted = record { ordered = λ i j lt end. absurd (omega arith) };
}

retire-IsWell : (s : Storage) (h : ℕ) → IsWell s → IsWell (retire s h).1
retire-IsWell s h ok = record {
  storage = (retire-Retired s h ok.storage).stands;
  sorted = elim (owner s.slot ok.storage.power h) [
    | inl (c, o) ↦
        subst (λ (r : Option ℕ × Storage). IsSorted r.1.names)
          (sym (retire-Owns s h ok.storage c o)) (remove_names-IsSorted h s.names ok.sorted)
    | inr no_one ↦
        subst (λ (r : Option ℕ × Storage). IsSorted r.1.names)
          (sym (retire-none s h ok.storage no_one)) ok.sorted
  ];
}

-- Equal results are results of equal parts.
result_eq : {A : Type 0} (a b : A) → ◌≡◌ {A = Option A} (some a) (some b) → a ≡ b
result_eq a b e = cc

no_result : {A : Type 0} (a : A) → ¬ (◌≡◌ {A = Option A} none (some a))
no_result a e = cc

-- A full array of `2 ^ 24` slots does not grow.
grow-full : (s : Storage) → 2 ^ 24 ≤ length s.slot → grow s ≡ none
unfolding grow
grow-full s full = rw (leb-false (length s.slot * 2 - 1) handle_mask (omega arith)) refl

register-full :
    (s : Storage) (address : ℕ)
    → find_free s.slot s.handle_index (length s.slot) 0 ≡ none
    → grow s ≡ none
    → register 2 s address ≡ none
unfolding register
register-full s address e f = rw (register, e, f) refl

register-stands :
    (s t : Storage) (address h : ℕ)
    → IsStorage s
    → register 2 s address ≡ some (h, t)
    → (g : ℕ) × Registered s address g t
register-stands s t address h ok e = elim (dec_le (2 ^ 24) (length s.slot)) [
  | no small ↦ known (register-Registered s address ok (omega arith))
  | yes full ↦ elim (Option-cases (find_free s.slot s.handle_index (length s.slot) 0)) [
    | inr free ↦ known (register-found_Registered s 1 address ok free)
    | inl none_free ↦
        absurd (no_result (h, t) (sym (register-full s address none_free (grow-full s full)) ∙ e))
  ]
]
  where
    known :
        (g : ℕ) × ((u : Storage) × ((register 2 s address ≡ some (g, u))
              × Registered s address g u))
        → (g : ℕ) × Registered s address g t
    known (g, (u, (f, r))) = (
      g,
      subst (λ x. Registered s address g x)
          (ap (λ (x : ℕ × Storage). x.1) (result_eq (g, u) (h, t) (sym f ∙ e))) r,
    )

register-IsWell :
    (s t : Storage) (address h : ℕ) → IsWell s → register 2 s address ≡ some (h, t) → IsWell t
register-IsWell s t address h ok e =
    let (g, r) = register-stands s t address h ok.storage e in
    record { storage = r.stands; sorted = subst (λ ns. IsSorted ns) (sym r.names) ok.sorted }

name_handle-IsWell :
    (s t : Storage) (h : ℕ) (name : List ℕ) (fresh : Bool)
    → IsWell s
    → name_handle s h name ≡ some (fresh, t)
    → IsWell t
name_handle-IsWell s t h name fresh ok e = elim (dec_le (suc (length s.names)) s.name_cap) [
  | yes below ↦ known (name_handle-Named s h name ok.sorted (inl below))
  | no full ↦ elim (dec_le (s.name_cap * 2) max_slot_size) [
    | yes half ↦ known (name_handle-Named s h name ok.sorted (inr half))
    | no above ↦ elim (search-cases s.names name ok.sorted) [
      | inl (i, (f, a)) ↦ same (name_handle-found s h name i f)
      | inr (i, (f, a)) ↦ absurd (
          no_result (fresh, t)
            (sym (name_handle-no_room s h i name f (omega arith) (omega arith)) ∙ e))
    ]
  ]
]
  where
    is : (b : Bool) (u : Storage) → name_handle s h name ≡ some (b, u) → u ≡ t
    is b u f = ap (λ (x : Bool × Storage). x.1) (result_eq (b, u) (fresh, t) (sym f ∙ e))

    same : name_handle s h name ≡ some (false, s) → IsWell t
    same f = subst (λ x. IsWell x) (is false s f) ok

    known :
        ((u : Storage) × Named s h name u)
          ⊎ ((name_handle s h name ≡ some (false, s)) × ((g : ℕ) × Has (entry name g) s.names))
        → IsWell t
    known (inr (f, has)) = same f
    known (inl (u, n)) =
        subst (λ x. IsWell x) (is true u n.result)
          (record {
            storage = record {
              power = ok.storage.power;
              slots = subst (λ xs. IsSlots xs ok.storage.power) (sym n.slots) ok.storage.slots;
              number = ok.storage.number;
              harbor = n.harbor ∙ ok.storage.harbor;
            };
            sorted = n.ordered;
          })

Step-IsWell : {s t : Storage} → Step s t → IsWell s → IsWell t
Step-IsWell (registers {s} {t} address h e) ok = register-IsWell s t address h ok e
Step-IsWell (retires {s} h) ok = retire-IsWell s h ok
Step-IsWell (names {s} {t} h name fresh e) ok = name_handle-IsWell s t h name fresh ok e

-- After any sequence of calls of `register`, `retire` and `name_handle` that end, from the storage that
-- `skynet_handle_init` makes, when each new context is assigned its handle before the next operation on the
-- storage starts, every context stands in the slot that its handle picks, the slots are a
-- power of two up to `2 ^ 24`, and the names are in strict order.
pub Reachable-IsWell : {s : Storage} → Reachable s → IsWell s
Reachable-IsWell (starts harbor) = handle_init-IsWell harbor
Reachable-IsWell (goes before step) = Step-IsWell step (Reachable-IsWell before)
