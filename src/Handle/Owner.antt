-- ===== src/Handle/Owner.antt =====
-- Which context a handle belongs to, by the slot that the handle picks.
use ddzproject.Prelude.{
  ℕ, suc, ◌*◌, ◌%◌, ◌^◌, ◌≡◌, ◌≢◌, ◌⊎◌, refl, sym, ap, ◌∙◌, inl, inr, Option, none, some, List,
  get_or, length, Option-cases, ==_refl, ==_ne,
}
use native.Mathlib.Decide.{ℕ_discrete}
use ddzproject.Handle.{Context, Storage, grab, address_for}
use ddzproject.Handle.Slots.{IsSlots, Rehashed, hash_of_lem, none-some, some_eq}
use ddzproject.Handle.Grow.{empty_slots, Rehashed-old}

-- The slots hold the context `c` of the handle `h`.
pub record Owns (slots : List (Option Context)) (k h : ℕ) (c : Context) : Type 0 where
  pub stored : get_or slots (h % 2 ^ k) none ≡ some c
  pub handle : c.handle ≡ h

pub owner :
    (slots : List (Option Context)) (k h : ℕ)
    → ((c : Context) × Owns slots k h c) ⊎ ((c : Context) → ¬ Owns slots k h c)
owner slots k h = elim (Option-cases (get_or slots (h % 2 ^ k) none)) [
  | inl e ↦ inr (λ c o. none-some c (sym e ∙ o.stored))
  | inr (c, e) ↦ elim (ℕ_discrete c.handle h) [
    | yes q ↦ inl (c, record { stored = e; handle = q })
    | no ne ↦
        inr (λ d o. ne (ap (λ (x : Context). x.handle) (some_eq c d (sym e ∙ o.stored)) ∙ o.handle))
  ]
]

module _ (s : Storage) (k h : ℕ) (ok : IsSlots s.slot k) where
  at : (o : Option Context) → get_or s.slot (h % 2 ^ k) none ≡ o → grab s h ≡ address_for o h
  unfolding grab
  at o e =
      ap (λ x. address_for (get_or s.slot x none) h) (hash_of_lem s.slot k h ok.size)
      ∙ ap (λ x. address_for x h) e

  pub grab-Owns : (c : Context) → Owns s.slot k h c → grab s h ≡ some c.address
  unfolding address_for
  grab-Owns c o = at (some c) o.stored ∙ rw (o.handle, ==_refl h) refl

  pub grab-none : ((c : Context) → ¬ Owns s.slot k h c) → grab s h ≡ none
  unfolding address_for
  grab-none no_one = elim (Option-cases (get_or s.slot (h % 2 ^ k) none)) [
    | inl e ↦ at none e
    | inr (c, e) ↦ at (some c) e ∙ other c (λ q. no_one c (record { stored = e; handle = q }))
  ]
    where
      other : (c : Context) → c.handle ≢ h → address_for (some c) h ≡ none
      other c ne = rw (==_ne c.handle h ne) refl

-- Two storages whose slots have the same owners give the same contexts.
pub grab_same :
    (s t : Storage) (k n h : ℕ)
    → IsSlots s.slot k
    → IsSlots t.slot n
    → ((c : Context) → Owns s.slot k h c → Owns t.slot n h c)
    → ((c : Context) → Owns t.slot n h c → Owns s.slot k h c)
    → grab t h ≡ grab s h
grab_same s t k n h ok_s ok_t there back = elim (owner s.slot k h) [
  | inl (c, o) ↦ grab-Owns t n h ok_t c (there c o) ∙ sym (grab-Owns s k h ok_s c o)
  | inr no_one ↦
      grab-none t n h ok_t (λ c o. no_one c (back c o)) ∙ sym (grab-none s k h ok_s no_one)
]

module _ (slots out : List (Option Context)) (k h : ℕ) (ok : IsSlots slots k)
    (r : Rehashed slots (empty_slots (length slots * 2)) out k 0) (c : Context) where
  pub Owns-moved : Owns slots k h c → Owns out (suc k) h c
  Owns-moved o = record {
    stored =
        ap (λ x. get_or out (x % 2 ^ suc k) none) (sym o.handle) ∙ r.moved (h % 2 ^ k) c o.stored;
    handle = o.handle;
  }

  pub Owns-before : Owns out (suc k) h c → Owns slots k h c
  Owns-before o = record {
    stored =
        ap (λ x. get_or slots (x % 2 ^ k) none) (sym o.handle)
        ∙ Rehashed-old slots out k ok r (h % 2 ^ suc k) c o.stored;
    handle = o.handle;
  }
