-- ===== src/Handle/Lookup.antt =====
-- `skynet_handle_findname` on the table of names.
use ddzproject.Prelude.{
  ℕ, ◌<◌, ◌≡◌, ◌⊎◌, refl, sym, ap, subst, ◌∙◌, inl, inr, List, arith, get_or, length,
}
use ddzproject.Prelude.Members.{Has, Has-get_or, index_of}
use native.Mathlib.Decide.{dec_le, ℕ_discrete}
use ddzproject.Handle.{HandleName, Storage, Search, found, missing, find_name, no_name}
use ddzproject.Handle.Order.{strcmp-irreflexive}
use ddzproject.Handle.Names.{name_at, IsSorted, Answers, search_all, search_all-Answers}

-- The name stands in the table with this handle.
abbrev pub entry : List ℕ → ℕ → HandleName
entry name h = record { name = name; handle = h }

-- What the search came to.
pub search-cases :
    (ns : List HandleName) (name : List ℕ)
    → IsSorted ns
    → ((i : ℕ) × ((search_all ns name ≡ found i) × Answers ns name (found i)))
      ⊎ ((i : ℕ) × ((search_all ns name ≡ missing i) × Answers ns name (missing i)))
search-cases ns name sorted = go (search_all ns name) refl (search_all-Answers ns name sorted)
  where
    go :
        (r : Search)
        → search_all ns name ≡ r
        → Answers ns name (search_all ns name)
        → ((i : ℕ) × ((search_all ns name ≡ found i) × Answers ns name (found i)))
          ⊎ ((i : ℕ) × ((search_all ns name ≡ missing i) × Answers ns name (missing i)))
    go (found i) e a = inl (i, (e, subst (λ r. Answers ns name r) e a))
    go (missing i) e a = inr (i, (e, subst (λ r. Answers ns name r) e a))

-- A name stands at one index only.
name_at-once :
    (ns : List HandleName)
    → IsSorted ns
    → (i j : ℕ) → i < length ns
    → j < length ns
    → name_at ns i ≡ name_at ns j
    → i ≡ j
name_at-once ns sorted i j in_i in_j e = elim (dec_le i j) [
  | no above ↦ absurd (
      strcmp-irreflexive (name_at ns j) (name_at ns i) (sorted.ordered j i (omega arith) in_i)
        (sym e))
  | yes le ↦ elim (ℕ_discrete i j) [
    | yes same ↦ same
    | no ne ↦
        absurd (
          strcmp-irreflexive (name_at ns i) (name_at ns j) (sorted.ordered i j (omega arith) in_j)
            e)
  ]
]

-- A name that the search did not find is not in the table.
pub missing-absent :
    (ns : List HandleName) (name : List ℕ) (i h : ℕ)
    → Answers ns name (missing i)
    → ¬ Has (entry name h) ns
missing-absent ns name i h (le, p) has =
    let (j, (lt, e)) = index_of ns (entry name h) no_name has in
    elim (dec_le i j) [
      | yes after ↦
          strcmp-irreflexive name (name_at ns j) (p.after j after lt)
            (ap (λ (n : HandleName). n.name) (sym e))
      | no before ↦
          strcmp-irreflexive (name_at ns j) name (p.before j (omega arith))
            (ap (λ (n : HandleName). n.name) e)
    ]

pub found-Has :
    (ns : List HandleName) (name : List ℕ) (i : ℕ)
    → Answers ns name (found i)
    → Has (entry name (get_or ns i no_name).handle) ns
found-Has ns name i (lt, e) =
    subst (λ x. Has (entry x (get_or ns i no_name).handle) ns) e (Has-get_or ns i no_name lt)

module _ (s : Storage) (name : List ℕ) where
  find_name-found :
      (i : ℕ)
      → search_all s.names name ≡ found i
      → find_name s name ≡ (get_or s.names i no_name).handle
  unfolding find_name
  find_name-found i e = rw (find_name, e) refl

  find_name-missing : (i : ℕ) → search_all s.names name ≡ missing i → find_name s name ≡ 0
  unfolding find_name
  find_name-missing i e = rw (find_name, e) refl

-- What `find_name` tells of a name, whether the table has it or not.
pub record Finds (s : Storage) (name : List ℕ) : Type 0 where
  pub present : (h : ℕ) → Has (entry name h) s.names → find_name s name ≡ h
  pub absent : ((h : ℕ) → ¬ Has (entry name h) s.names) → find_name s name ≡ 0

-- When the names are in order, `find_name` gives for a name of the table the handle that stands with
-- it, and 0 for a name that is not in the table.
pub find_name-Finds : (s : Storage) (name : List ℕ) → IsSorted s.names → Finds s name
find_name-Finds s name sorted = elim (search-cases s.names name sorted) [
  | inl (i, (e, a)) ↦ record {
    present = λ h has.
        let (j, (lt, q)) = index_of s.names (entry name h) no_name has in
        find_name-found s name i e
        ∙ ap (λ x. (get_or s.names x no_name).handle)
            (name_at-once s.names sorted i j (a.0) lt
              (a.1 ∙ ap (λ (n : HandleName). n.name) (sym q)))
        ∙ ap (λ (n : HandleName). n.handle) q;
    absent =
        λ nowhere. absurd (nowhere (get_or s.names i no_name).handle (found-Has s.names name i a));
  }
  | inr (i, (e, a)) ↦ record {
    present = λ h has. absurd (missing-absent s.names name i h a has);
    absent = λ nowhere. find_name-missing s name i e;
  }
]

-- Two tables that hold a name with the same handles give the same answer for it.
pub find_name_same :
    (s t : Storage) (name : List ℕ)
    → IsSorted s.names
    → IsSorted t.names
    → ((h : ℕ) → Has (entry name h) s.names → Has (entry name h) t.names)
    → ((h : ℕ) → Has (entry name h) t.names → Has (entry name h) s.names)
    → find_name t name ≡ find_name s name
find_name_same s t name sorted_s sorted_t there back = elim (search-cases s.names name sorted_s) [
  | inl (i, (e, a)) ↦
      let h = (get_or s.names i no_name).handle in
      let has = found-Has s.names name i a in
      (find_name-Finds t name sorted_t).present h (there h has)
      ∙ sym ((find_name-Finds s name sorted_s).present h has)
  | inr (i, (e, a)) ↦
      (find_name-Finds t name sorted_t).absent
        (λ h has. missing-absent s.names name i h a (back h has))
      ∙ sym (find_name-missing s name i e)
]
