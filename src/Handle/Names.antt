-- ===== src/Handle/Names.antt =====
-- The binary search of `skynet_handle_findname` and `_insert_name`.
use ddzproject.Prelude.{
  ℕ, zero, suc, ◌+◌, ◌-◌, ◌/◌, ◌≤◌, ◌<◌, ◌≡◌, ◌⊎◌, refl, sym, ap, subst, ◌∙◌, inl, inr, List, arith,
  lt→ltb, le→ltb, get_or, length,
}
use Prim.Native.Nat.{Ordering}
use native.Mathlib.Decide.{dec_le}
use ddzproject.Handle.{HandleName, Search, found, missing, strcmp, search_name, no_name}
use ddzproject.Handle.Order.{strcmp-eq, strcmp-swap, strcmp_trans}

-- The name at an index.
abbrev pub name_at : List HandleName → ℕ → List ℕ
name_at ns i = (get_or ns i no_name).name

-- Each name comes before those that stand after it.
pub record IsSorted (ns : List HandleName) : Type 0 where
  pub ordered :
      (i j : ℕ) → i < j → j < length ns → strcmp (name_at ns i) (name_at ns j) ≡ Ordering.lt

-- The names before the index come before `name`, those from it on come after `name`.
pub record Parts (ns : List HandleName) (name : List ℕ) (low high : ℕ) : Type 0 where
  pub before : (i : ℕ) → i < low → strcmp (name_at ns i) name ≡ Ordering.lt
  pub after : (i : ℕ) → high ≤ i → i < length ns → strcmp name (name_at ns i) ≡ Ordering.lt

-- What a search is to give.
abbrev pub Answers : List HandleName → List ℕ → Search → Type 0
Answers ns name (found i) = (i < length ns) × (name_at ns i ≡ name)
Answers ns name (missing i) = (i ≤ length ns) × Parts ns name i i

order-cases : (o : Ordering) → (o ≡ Ordering.lt) ⊎ ((o ≡ Ordering.eq) ⊎ (o ≡ Ordering.gt))
order-cases Ordering.lt = inl refl
order-cases Ordering.eq = inr (inl refl)
order-cases Ordering.gt = inr (inr refl)

module _ (ns : List HandleName) (name : List ℕ) (fuel begin end : ℕ) where
  abbrev mid : ℕ
  mid = (begin + (end - 1)) / 2

  search-stop : end ≤ begin → search_name (suc fuel) ns name begin end ≡ missing begin
  unfolding search_name
  search-stop h = rw (le→ltb begin end h) refl

  search-found :
      begin < end
      → strcmp (name_at ns mid) name ≡ Ordering.eq
      → search_name (suc fuel) ns name begin end ≡ found mid
  unfolding search_name
  search-found h e = rw (lt→ltb begin end h, e) refl

  search-above :
      begin < end
      → strcmp (name_at ns mid) name ≡ Ordering.lt
      → search_name (suc fuel) ns name begin end ≡ search_name fuel ns name (mid + 1) end
  unfolding search_name
  search-above h e = rw (search_name, lt→ltb begin end h, e) refl

  search-below :
      begin < end
      → strcmp (name_at ns mid) name ≡ Ordering.gt
      → search_name (suc fuel) ns name begin end ≡ search_name fuel ns name begin mid
  unfolding search_name
  search-below h e = rw (search_name, lt→ltb begin end h, e) refl

module _ (ns : List HandleName) (name : List ℕ) (sorted : IsSorted ns) (begin end : ℕ)
    (in_range : end ≤ length ns) (nonempty : begin < end) (p : Parts ns name begin end) where
  abbrev middle : ℕ
  middle = (begin + (end - 1)) / 2

  Parts-above : strcmp (name_at ns middle) name ≡ Ordering.lt → Parts ns name (middle + 1) end
  Parts-above e = record {
    before = λ i lt. elim (dec_le middle i) [
      | yes le ↦ ap (λ j. strcmp (name_at ns j) name) {x = i} {y = middle} (omega arith) ∙ e
      | no lower ↦
          strcmp_trans (name_at ns i) (name_at ns middle) name
            (sorted.ordered i middle (omega arith) (omega arith)) e
    ];
    after = p.after;
  }

  Parts-below : strcmp (name_at ns middle) name ≡ Ordering.gt → Parts ns name begin middle
  Parts-below e = record {
    before = p.before;
    after = λ i le lt. elim (dec_le i middle) [
      | yes ge ↦
          ap (λ j. strcmp name (name_at ns j)) {x = i} {y = middle} (omega arith)
          ∙ strcmp-swap (name_at ns middle) name e
      | no higher ↦
          strcmp_trans name (name_at ns middle) (name_at ns i)
            (strcmp-swap (name_at ns middle) name e) (sorted.ordered middle i (omega arith) lt)
    ];
  }

-- With more fuel than there are names to look at, the loop ends, and its answer is right.
search_name-Answers :
    (fuel : ℕ) (ns : List HandleName) (name : List ℕ)
    → IsSorted ns
    → (begin end : ℕ) → begin ≤ end
    → end ≤ length ns
    → end < begin + fuel
    → Parts ns name begin end
    → Answers ns name (search_name fuel ns name begin end)
search_name-Answers zero ns name sorted begin end le top more p = absurd (omega arith)
search_name-Answers (suc fuel) ns name sorted begin end le top more p = elim (dec_le end begin) [
  | yes stop ↦
      subst (λ r. Answers ns name r) (sym (search-stop ns name fuel begin end stop))
        (omega arith, subst (λ x. Parts ns name begin x) {x = end} {y = begin} (omega arith) p)
  | no go ↦ elim (order-cases (strcmp (name_at ns ((begin + (end - 1)) / 2)) name)) [
    | inl e ↦
        subst (λ r. Answers ns name r) (sym (search-above ns name fuel begin end (omega arith) e))
          (search_name-Answers fuel ns name sorted ((begin + (end - 1)) / 2 + 1) end (omega arith)
            top (omega arith) (Parts-above ns name sorted begin end top (omega arith) p e))
    | inr (inl e) ↦
        subst (λ r. Answers ns name r) (sym (search-found ns name fuel begin end (omega arith) e))
          (omega arith, strcmp-eq (name_at ns ((begin + (end - 1)) / 2)) name e)
    | inr (inr e) ↦
        subst (λ r. Answers ns name r) (sym (search-below ns name fuel begin end (omega arith) e))
          (search_name-Answers fuel ns name sorted begin ((begin + (end - 1)) / 2) (omega arith)
            (omega arith) (omega arith)
            (Parts-below ns name sorted begin end top (omega arith) p e))
  ]
]

-- The search of all the names, which `find_name` and `name_handle` do.
abbrev pub search_all : List HandleName → List ℕ → Search
search_all ns name = search_name (suc (length ns)) ns name 0 (length ns)

pub search_all-Answers :
    (ns : List HandleName) (name : List ℕ) → IsSorted ns → Answers ns name (search_all ns name)
search_all-Answers ns name sorted =
    search_name-Answers (suc (length ns)) ns name sorted 0 (length ns) (omega arith) (omega arith)
      (omega arith)
      (record { before = λ i lt. absurd (omega arith); after = λ i le lt. absurd (omega arith) })
