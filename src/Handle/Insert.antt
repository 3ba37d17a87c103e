-- ===== src/Handle/Insert.antt =====
-- `skynet_handle_namehandle` and `_insert_name_before`, on the order of the names.
use ddzproject.Prelude.{
  ℕ, zero, suc, ◌-◌, ◌*◌, ◌≤◌, ◌<◌, ◌≡◌, ◌≢◌, ◌⊎◌, refl, sym, ap, ap₂, subst, ◌∙◌, inl, inr, List,
  [], ◌∷◌, ◌++◌, arith, get_or, length, take, drop, true, false, ltb, leb, none, some,
  take-append-drop, ◌&&◌, if◌then◌else◌, Bool-cases, le→ltb, lt→ltb,
}
use ddzproject.Prelude.Members.{Has, Has-append, Has-left, Has-right}
use Prim.Native.Nat.{Ordering}
use native.Mathlib.Decide.{dec_le, ℕ_discrete}
use ddzproject.Handle.{
  HandleName, Storage, found, missing, strcmp, find_name, no_name, insert_name_before, name_handle,
  max_slot_size,
}
use ddzproject.Handle.Names.{name_at, IsSorted, Parts, search_all}
use ddzproject.Handle.Lookup.{entry, search-cases, found-Has, find_name-Finds, find_name_same}

module _ {A : Type 0} (n d : A) where
  length-insert : (b : ℕ) (xs : List A) → length (take b xs ++ n ∷ drop b xs) ≡ suc (length xs)
  length-insert zero xs = refl
  length-insert (suc b) [] = refl
  length-insert (suc b) (x ∷ xs) = ap suc (length-insert b xs)

  insert-before :
      (b i : ℕ) (xs : List A)
      → i < b
      → b ≤ length xs
      → get_or (take b xs ++ n ∷ drop b xs) i d ≡ get_or xs i d
  insert-before zero i xs lt le = absurd (omega arith)
  insert-before (suc b) i [] lt le = absurd (omega arith)
  insert-before (suc b) zero (x ∷ xs) lt le = refl
  insert-before (suc b) (suc i) (x ∷ xs) lt le = insert-before b i xs (omega arith) (omega arith)

  insert-here : (b : ℕ) (xs : List A) → b ≤ length xs → get_or (take b xs ++ n ∷ drop b xs) b d ≡ n
  insert-here zero xs le = refl
  insert-here (suc b) [] le = absurd (omega arith)
  insert-here (suc b) (x ∷ xs) le = insert-here b xs (omega arith)

  insert-after :
      (b i : ℕ) (xs : List A)
      → b ≤ i
      → b ≤ length xs
      → get_or (take b xs ++ n ∷ drop b xs) (suc i) d ≡ get_or xs i d
  insert-after zero i xs le in_range = refl
  insert-after (suc b) i [] le in_range = absurd (omega arith)
  insert-after (suc b) zero (x ∷ xs) le in_range = absurd (omega arith)
  insert-after (suc b) (suc i) (x ∷ xs) le in_range =
      insert-after b i xs (omega arith) (omega arith)

module _ (ns : List HandleName) (name : List ℕ) (h b : ℕ) (sorted : IsSorted ns)
    (in_range : b ≤ length ns) (p : Parts ns name b b) where
  abbrev longer : List HandleName
  longer = take b ns ++ entry name h ∷ drop b ns

  -- An index of the longer table is one before the new name, that of the new name, or one after it.
  data Place (i : ℕ) : Type 0 where
    left : i < b → name_at longer i ≡ name_at ns i → Place i
    here : i ≡ b → name_at longer i ≡ name → Place i
    right : (j : ℕ) → i ≡ suc j → b ≤ j → name_at longer i ≡ name_at ns j → Place i

  place : (i : ℕ) → Place i
  place i = elim (dec_le b i) [
    | no lt ↦ left (omega arith) (
        ap (λ (n : HandleName). n.name)
          (insert-before (entry name h) no_name b i ns (omega arith) in_range))
    | yes le ↦ elim (ℕ_discrete i b) [
      | yes e ↦ here e (
          ap (λ x. name_at longer x) e
          ∙ ap (λ (n : HandleName). n.name) (insert-here (entry name h) no_name b ns in_range))
      | no ne ↦ right (i - 1) (omega arith) (omega arith) (
          ap (λ x. name_at longer x) {x = i} {y = suc (i - 1)} (omega arith)
          ∙ ap (λ (n : HandleName). n.name)
              (insert-after (entry name h) no_name b (i - 1) ns (omega arith) in_range))
    ]
  ]

  insert-ordered :
      (i j : ℕ)
      → i < j
      → j < length longer
      → Place i
      → Place j
      → strcmp (name_at longer i) (name_at longer j) ≡ Ordering.lt
  insert-ordered i j lt end (left i_lt e) (left j_lt f) =
      ap₂ strcmp e f ∙ sorted.ordered i j lt (omega arith)
  insert-ordered i j lt end (left i_lt e) (here j_eq f) = ap₂ strcmp e f ∙ p.before i i_lt
  insert-ordered i j lt end (left i_lt e) (right y y_eq le f) =
      ap₂ strcmp e f
      ∙ sorted.ordered i y (omega arith) (omega (arith, length-insert (entry name h) no_name b ns))
  insert-ordered i j lt end (here i_eq e) (left j_lt f) = absurd (omega arith)
  insert-ordered i j lt end (here i_eq e) (here j_eq f) = absurd (omega arith)
  insert-ordered i j lt end (here i_eq e) (right y y_eq le f) =
      ap₂ strcmp e f ∙ p.after y le (omega (arith, length-insert (entry name h) no_name b ns))
  insert-ordered i j lt end (right x x_eq le e) (left j_lt f) = absurd (omega arith)
  insert-ordered i j lt end (right x x_eq le e) (here j_eq f) = absurd (omega arith)
  insert-ordered i j lt end (right x x_eq le e) (right y y_eq ge f) =
      ap₂ strcmp e f
      ∙ sorted.ordered x y (omega arith) (omega (arith, length-insert (entry name h) no_name b ns))

  pub insert-IsSorted : IsSorted longer
  insert-IsSorted = record { ordered = λ i j lt end. insert-ordered i j lt end (place i) (place j) }

  pub insert-Has : (n : HandleName) → Has n ns → Has n longer
  insert-Has n has =
      elim (Has-append (take b ns) (drop b ns) n
        (subst (λ xs. Has n xs) (sym (take-append-drop b ns)) has)) [
          | inl l ↦ Has-left (take b ns) (entry name h ∷ drop b ns) n l
          | inr r ↦ Has-right (take b ns) (entry name h ∷ drop b ns) n (inr r)
        ]

  pub insert-Has_new : Has (entry name h) longer
  insert-Has_new = Has-right (take b ns) (entry name h ∷ drop b ns) (entry name h) (inl refl)

  pub insert-Has_old : (n : HandleName) → n.name ≢ name → Has n longer → Has n ns
  insert-Has_old n ne has = elim (Has-append (take b ns) (entry name h ∷ drop b ns) n has) [
    | inl l ↦ subst (λ xs. Has n xs) (take-append-drop b ns) (Has-left (take b ns) (drop b ns) n l)
    | inr (inl e) ↦ absurd (ne (ap (λ (x : HandleName). x.name) e))
    | inr (inr r) ↦
        subst (λ xs. Has n xs) (take-append-drop b ns) (Has-right (take b ns) (drop b ns) n r)
  ]

-- The array of names has room, or may be doubled.
abbrev pub HasRoom : Storage → Type 0
HasRoom s = (length s.names < s.name_cap) ⊎ (s.name_cap * 2 ≤ max_slot_size)

leb-true : (a b : ℕ) → a ≤ b → leb a b ≡ true
leb-true a b h = ground arith

pub leb-false : (a b : ℕ) → b < a → leb a b ≡ false
leb-false a b h = ground arith

fits-cases :
    (s : Storage)
    → HasRoom s
    → (leb s.name_cap (length s.names)
        && ltb max_slot_size
            (if leb s.name_cap (length s.names) then s.name_cap * 2 else s.name_cap))
      ≡ false
fits-cases s (inl h) = rw (leb-false s.name_cap (length s.names) h) refl
fits-cases s (inr h) = elim (Bool-cases (leb s.name_cap (length s.names))) [
  | inl e ↦ rw (e, le→ltb max_slot_size (s.name_cap * 2) h) refl
  | inr e ↦ rw e refl
]

insert-HasRoom :
    (s : Storage) (n : HandleName) (b : ℕ)
    → HasRoom s
    → (cap : ℕ) × (insert_name_before s n b
        ≡ some (record s { name_cap = cap; names = take b s.names ++ n ∷ drop b s.names }))
unfolding insert_name_before
insert-HasRoom s n b room = (
  if leb s.name_cap (length s.names) then s.name_cap * 2 else s.name_cap,
  rw (fits-cases s room) refl,
)

module _ (s : Storage) (h : ℕ) (name : List ℕ) where
  pub name_handle-found :
      (i : ℕ) → search_all s.names name ≡ found i → name_handle s h name ≡ some (false, s)
  unfolding name_handle
  name_handle-found i e = rw (name_handle, e) refl

  name_handle-missing :
      (i : ℕ) (t : Storage)
      → search_all s.names name ≡ missing i
      → insert_name_before s (entry name h) i ≡ some t
      → name_handle s h name ≡ some (true, t)
  unfolding name_handle
  name_handle-missing i t e f = rw (name_handle, e, f) refl

-- What a caller of `name_handle` can tell when the name is new.
pub record Named (s : Storage) (h : ℕ) (name : List ℕ) (t : Storage) : Type 0 where
  pub result : name_handle s h name ≡ some (true, t)
  pub ordered : IsSorted t.names
  pub given : find_name t name ≡ h
  pub others : (other : List ℕ) → other ≢ name → find_name t other ≡ find_name s other
  pub slots : t.slot ≡ s.slot
  pub harbor : t.harbor ≡ s.harbor

-- When the names are in order, and there is room for one more or the array may be doubled,
-- `name_handle` either puts the name in, keeps the order, and from then on `find_name` gives the
-- handle for the new name and for every other name what it gave before; or it changes nothing, and
-- the table has the name already.
pub name_handle-Named :
    (s : Storage) (h : ℕ) (name : List ℕ)
    → IsSorted s.names
    → HasRoom s
    → ((t : Storage) × Named s h name t)
      ⊎ ((name_handle s h name ≡ some (false, s)) × ((g : ℕ) × Has (entry name g) s.names))
name_handle-Named s h name sorted room = elim (search-cases s.names name sorted) [
  | inl (i, (e, a)) ↦ inr (
    name_handle-found s h name i e,
    ((get_or s.names i no_name).handle, found-Has s.names name i a),
  )
  | inr (i, (e, (le, p))) ↦
      let (cap, f) = insert-HasRoom s (entry name h) i room in
      inl (
        record s { name_cap = cap; names = take i s.names ++ entry name h ∷ drop i s.names },
        named i e le p cap f,
      )
]
  where
    named :
        (i : ℕ)
        → search_all s.names name ≡ missing i
        → (le : i ≤ length s.names) → (p : Parts s.names name i i) → (cap : ℕ)
        → insert_name_before s (entry name h) i
          ≡ some
              (record s { name_cap = cap; names = take i s.names ++ entry name h ∷ drop i s.names })
        → Named s h name
            (record s { name_cap = cap; names = take i s.names ++ entry name h ∷ drop i s.names })
    named i e le p cap f = record {
      result = name_handle-missing s h name i t e f;
      ordered = insert-IsSorted s.names name h i sorted le p;
      given =
          (find_name-Finds t name (insert-IsSorted s.names name h i sorted le p)).present h
            (insert-Has_new s.names name h i sorted le p);
      others = λ other ne.
          find_name_same s t other sorted (insert-IsSorted s.names name h i sorted le p)
            (λ g has. insert-Has s.names name h i sorted le p (entry other g) has)
            (λ g has. insert-Has_old s.names name h i sorted le p (entry other g) ne has);
      slots = refl;
      harbor = refl;
    }
      where
        t : Storage
        t = record s { name_cap = cap; names = take i s.names ++ entry name h ∷ drop i s.names }

-- Without room, a new name is not put in.
insert-no_room :
    (s : Storage) (n : HandleName) (b : ℕ)
    → s.name_cap ≤ length s.names
    → max_slot_size < s.name_cap * 2
    → insert_name_before s n b ≡ none
unfolding insert_name_before
insert-no_room s n b full above =
    rw (leb-true s.name_cap (length s.names) full, lt→ltb max_slot_size (s.name_cap * 2) above) refl

pub name_handle-no_room :
    (s : Storage) (h i : ℕ) (name : List ℕ)
    → search_all s.names name ≡ missing i
    → s.name_cap ≤ length s.names
    → max_slot_size < s.name_cap * 2
    → name_handle s h name ≡ none
unfolding name_handle
name_handle-no_room s h i name e full above =
    rw (name_handle, e, insert-no_room s (entry name h) i full above) refl
