-- ===== src/Handle/Fresh.antt =====
-- The context that `skynet_handle_register` puts into a free slot.
use ddzproject.Prelude.{
  ℕ, ◌%◌, ◌^◌, ◌<◌, ◌≡◌, ◌≢◌, refl, sym, ap, ap₂, subst, ◌∙◌, Option, none, some, List, get_or, set,
  length-set, set-set, get_or-set_self, bit_or, arith,
}
use ddzproject.Prelude.Bits.{bit_or_low}
use ddzproject.Prelude.Powers.{mod-above}
use native.Mathlib.Nat.{mod-lt, one-le-pow}
use native.Mathlib.Decide.{ℕ_discrete}
use ddzproject.Handle.{Context, Storage, hash_of, put_context, store_context, assign_handle}
use ddzproject.Handle.Slots.{IsSlots, hash_of_lem, none-some, some_eq}
use ddzproject.Handle.Owner.{Owns, grab-Owns, grab-none, grab_same}
use ddzproject.Handle.Put.{IsStorage, Registered, set-IsSlots, Owns-set, Owns-unset, Owns-at}

module _ (s : Storage) (address h : ℕ) (ok : IsStorage s) (low : h < 2 ^ 24)
    (free : get_or s.slot (hash_of s.slot h) none ≡ none) where
  abbrev k : ℕ
  k = ok.power

  abbrev full_handle : ℕ
  full_handle = bit_or h s.harbor

  abbrev fresh_context : Context
  fresh_context = record { address = address; handle = full_handle }

  same_slot : full_handle % 2 ^ k ≡ h % 2 ^ k
  same_slot =
      ap (λ x. x % 2 ^ ok.power) (ap (λ x. bit_or h x) ok.harbor ∙ bit_or_low 24 ok.number h low)
      ∙ mod-above h ok.number ok.power 24 ok.slots.low

  slot-lt : h % 2 ^ k < 2 ^ k
  slot-lt = mod-lt h {m = 2 ^ k} (one-le-pow k 2 (omega arith))

  empty : get_or s.slot (h % 2 ^ k) none ≡ none
  empty = ap (λ x. get_or s.slot x none) (sym (hash_of_lem s.slot ok.power h ok.slots.size)) ∙ free

  abbrev cells : List (Option Context)
  cells = set s.slot (h % 2 ^ k) (some fresh_context)

  abbrev unassigned : Option Context
  unassigned = some (record { address = address; handle = 0 })

  cells-eq : ((put_context s address h).1).slot ≡ cells
  unfolding put_context store_context assign_handle
  cells-eq =
      ap (λ i. let xs = set s.slot i unassigned in set xs (hash_of xs h) (some fresh_context))
        (hash_of_lem s.slot ok.power h ok.slots.size)
      ∙ (ap (λ i. set (set s.slot (h % 2 ^ k) unassigned) i (some fresh_context))
            (hash_of_lem (set s.slot (h % 2 ^ k) unassigned) ok.power h
              (length-set s.slot (h % 2 ^ k) unassigned ∙ ok.slots.size))
          ∙ set-set s.slot (h % 2 ^ k) unassigned (some fresh_context))

  cells-IsSlots : IsSlots cells k
  cells-IsSlots =
      set-IsSlots s.slot ok.power (h % 2 ^ ok.power) ok.slots slot-lt (some fresh_context) (λ c e.
        ap (λ (x : Context). x.handle % 2 ^ ok.power) (sym (some_eq fresh_context c e)) ∙ same_slot)

  unowned : (g : ℕ) (c : Context) → g % 2 ^ k ≡ h % 2 ^ k → ¬ Owns s.slot k g c
  unowned g c e o = none-some c (sym empty ∙ ap (λ x. get_or s.slot x none) (sym e) ∙ o.stored)

  pub put-Registered : Registered s address (put_context s address h).0 (put_context s address h).1
  unfolding put_context store_context assign_handle
  put-Registered = record {
    stands = record { power = k; slots = stored; number = ok.number; harbor = ok.harbor };
    fresh = grab-none s k full_handle ok.slots (λ c. unowned full_handle c same_slot);
    given = grab-Owns t k full_handle stored fresh_context (record {
      stored =
          ap₂ (λ (xs : List (Option Context)) i. get_or xs i none) cells-eq same_slot
          ∙ get_or-set_self s.slot (h % 2 ^ k) (some fresh_context) none
              (omega (arith, ok.slots.size, slot-lt));
      handle = refl;
    });
    others = λ g ne. grab_same s t k k g ok.slots stored (there g) (back g ne);
    names = refl;
  }
    where
      t : Storage
      t = (put_context s address h).1

      stored : IsSlots t.slot k
      stored = subst (λ xs. IsSlots xs k) (sym cells-eq) cells-IsSlots

      there : (g : ℕ) (c : Context) → Owns s.slot k g c → Owns t.slot k g c
      there g c o =
          subst (λ xs. Owns xs k g c) (sym cells-eq)
            (Owns-set s.slot k (h % 2 ^ k) ok.slots slot-lt (some fresh_context) g c
              (λ e. unowned g c e o) o)

      back : (g : ℕ) → g ≢ full_handle → (c : Context) → Owns t.slot k g c → Owns s.slot k g c
      back g ne c o = elim (ℕ_discrete (g % 2 ^ k) (h % 2 ^ k)) [
        | yes e ↦ absurd (
            ne (
              sym w.handle
              ∙ ap (λ (x : Context). x.handle)
                  (sym (
                    some_eq fresh_context c (
                      Owns-at s.slot k (h % 2 ^ k) ok.slots slot-lt (some fresh_context) g c e
                        w)))))
        | no away ↦ Owns-unset s.slot k (h % 2 ^ k) ok.slots slot-lt (some fresh_context) g c away w
      ]
        where
          w : Owns cells k g c
          w = subst (λ xs. Owns xs k g c) cells-eq o
