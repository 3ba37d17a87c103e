-- ===== src/Handle/Put.antt =====
-- The storage that is well formed, and the step that puts a context into the slot of a free handle.
use ddzproject.Prelude.{
  ℕ, ◌*◌, ◌%◌, ◌^◌, ◌<◌, ◌≡◌, ◌≢◌, sym, ap, ◌∙◌, Option, none, some, List, get_or, set, length-set,
  get_or-set_self, get_or-set_ne, arith,
}
use native.Mathlib.Decide.{ℕ_discrete}
use ddzproject.Handle.{Context, Storage, grab}
use ddzproject.Handle.Slots.{IsSlots}
use ddzproject.Handle.Owner.{Owns}

-- The slots are a power of two, each context stands in the slot that its handle picks, and the
-- number of the harbor stands above the handles.
pub record IsStorage (s : Storage) : Type 0 where
  pub power : ℕ
  pub slots : IsSlots s.slot power
  pub number : ℕ
  pub harbor : s.harbor ≡ number * 2 ^ 24

-- What a caller of `register` can tell: `h` was no handle, it is the handle of the new context, every
-- other handle belongs to the context that it belonged to, and the storage is well formed still.
pub record Registered (s : Storage) (address h : ℕ) (t : Storage) : Type 0 where
  pub stands : IsStorage t
  pub fresh : grab s h ≡ none
  pub given : grab t h ≡ some address
  pub others : (g : ℕ) → g ≢ h → grab t g ≡ grab s g
  pub names : t.names ≡ s.names

module _ (slots : List (Option Context)) (k p : ℕ) (ok : IsSlots slots k) (p-lt : p < 2 ^ k) where
  -- A write of a context, or of nothing, to one slot.
  pub set-IsSlots :
      (o : Option Context)
      → ((c : Context) → o ≡ some c → c.handle % 2 ^ k ≡ p)
      → IsSlots (set slots p o) k
  set-IsSlots o fits = record {
    size = length-set slots p o ∙ ok.size;
    low = ok.low;
    placed = λ i c e. elim (ℕ_discrete p i) [
      | yes q ↦ fits c (written i q o ∙ e) ∙ q
      | no ne ↦ ok.placed i c (sym (get_or-set_ne slots p i o none ne) ∙ e)
    ];
  }
    where
      written : (i : ℕ) → p ≡ i → (o : Option Context) → o ≡ get_or (set slots p o) i none
      written i q o =
          sym (get_or-set_self slots p o none (omega (arith, ok.size, p-lt)))
          ∙ ap (λ x. get_or (set slots p o) x none) q

  pub Owns-set :
      (o : Option Context) (g : ℕ) (c : Context)
      → g % 2 ^ k ≢ p
      → Owns slots k g c
      → Owns (set slots p o) k g c
  Owns-set o g c ne w = record {
    stored = get_or-set_ne slots p (g % 2 ^ k) o none (λ e. ne (sym e)) ∙ w.stored;
    handle = w.handle;
  }

  pub Owns-unset :
      (o : Option Context) (g : ℕ) (c : Context)
      → g % 2 ^ k ≢ p
      → Owns (set slots p o) k g c
      → Owns slots k g c
  Owns-unset o g c ne w = record {
    stored = sym (get_or-set_ne slots p (g % 2 ^ k) o none (λ e. ne (sym e))) ∙ w.stored;
    handle = w.handle;
  }

  pub Owns-at :
      (o : Option Context) (g : ℕ) (c : Context)
      → g % 2 ^ k ≡ p
      → Owns (set slots p o) k g c
      → (o ≡ some c)
  Owns-at o g c e w =
      sym (get_or-set_self slots p o none (omega (arith, ok.size, p-lt)))
      ∙ ap (λ x. get_or (set slots p o) x none) (sym e)
      ∙ w.stored
