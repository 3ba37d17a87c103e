-- ===== src/Seri/Table.antt =====
-- The rounds of the loops of `unpack_table` of lua-seri.c, and the bytes of a table.
use ddzproject.Prelude.{
  ℕ, zero, suc, ◌+◌, ◌-◌, ◌≤◌, ◌≡◌, ◌≢◌, refl, sym, ap, ◌∙◌, subst, List, [], ◌∷◌, ◌++◌, length,
  arith, ==_ne, append_assoc, length-append,
}
use ddzproject.Seri.{
  Value, nil, boolean, integer, real, light_userdata, text, table, paired, other, Items, no_items,
  item, Pairs, no_pairs, pair, combine_type, integer_pieces, string_pieces, array_pieces, size_of,
}
use ddzproject.Seri.Unpack.{
  unpacked, invalid, Reader, ◌>>=◌, pure, get_array_size, unpack_one, unpack_items, unpack_pairs,
  unpack_entry,
}
use ddzproject.Seri.Spec.{flat, encode, encode_items, encode_pairs, received, Fits}
use ddzproject.Seri.Integer.{Reads, Reads-bind, Reads-map}
use ddzproject.Seri.Reads.{first_byte, nil-Reads, integer-Reads, text-Reads}
use ddzproject.Seri.Head.{HeadForm, array_pieces-HeadForm}

pub no_value : (x : Value × List ℕ) → unpacked x ≡ invalid → ⊥
no_value x e = cc

-- Nothing is read of no bytes.
pub some_bytes :
    (fuel : ℕ) (bytes : List ℕ) (a : Value)
    → Reads (unpack_one (suc fuel)) bytes a
    → 1 ≤ length bytes
unfolding unpack_one
some_bytes fuel [] a r = absurd (no_value (a, []) (sym (r [])))
some_bytes fuel (b ∷ bytes) a r = omega arith

pub two_calls :
    (fuel : ℕ) (bytes : List ℕ) (a : Value)
    → 2 ≤ fuel
    → Reads (unpack_one (suc (suc (fuel - 2)))) bytes a
    → Reads (unpack_one fuel) bytes a
two_calls fuel bytes a le r =
    subst (λ f. Reads (unpack_one f) bytes a) {x = suc (suc (fuel - 2))} {y = fuel} (omega arith) r

pub no_items-Reads : (fuel : ℕ) → 1 ≤ fuel → Reads (unpack_items fuel 0) [] no_items
unfolding unpack_one
no_items-Reads zero le = absurd (omega arith)
no_items-Reads (suc fuel) le = λ rest. refl

item_round :
    (fuel n : ℕ) (l : List ℕ)
    → unpack_items (suc fuel) (suc n) l
      ≡ (unpack_one fuel >>= λ v. unpack_items fuel n >>= λ vs. pure (item v vs)) l
unfolding unpack_one
item_round fuel n l = rw (==_ne (suc n) 0 (omega arith)) (
    ap (λ m. (unpack_one fuel >>= λ v. unpack_items fuel m >>= λ vs. pure (item v vs)) l)
      {x = suc n - 1} {y = n} (omega arith))

pub item-Reads :
    (fuel n : ℕ) (xs ys : List ℕ) (v : Value) (vs : Items)
    → Reads (unpack_one fuel) xs v
    → Reads (unpack_items fuel n) ys vs
    → Reads (unpack_items (suc fuel) (suc n)) (xs ++ ys) (item v vs)
item-Reads fuel n xs ys v vs r rs rest =
    item_round fuel n ((xs ++ ys) ++ rest)
    ∙ Reads-bind (unpack_one fuel) (λ w. unpack_items fuel n >>= λ ws. pure (item w ws)) xs ys v
        (item v vs) r (Reads-map (unpack_items fuel n) (item v) ys vs rs) rest

pub no_pairs-Reads : (fuel : ℕ) → Reads (unpack_pairs (suc (suc (suc fuel)))) (0 ∷ []) no_pairs
unfolding unpack_one
no_pairs-Reads fuel =
    Reads-bind (unpack_one (suc (suc fuel))) (unpack_entry (suc (suc fuel))) (0 ∷ []) [] nil
      no_pairs (nil-Reads fuel) (λ rest. refl)

unpack_entry-key :
    (fuel : ℕ) (k : Value) (l : List ℕ)
    → k ≢ nil
    → unpack_entry (suc fuel) k l
      ≡ (unpack_one fuel >>= λ v. unpack_pairs fuel >>= λ ps. pure (pair k v ps)) l
unfolding unpack_one
unpack_entry-key fuel nil l ne = absurd (ne refl)
unpack_entry-key fuel (boolean x) l ne = refl
unpack_entry-key fuel (integer x) l ne = refl
unpack_entry-key fuel (real x) l ne = refl
unpack_entry-key fuel (light_userdata x) l ne = refl
unpack_entry-key fuel (text x) l ne = refl
unpack_entry-key fuel (table x y) l ne = refl
unpack_entry-key fuel (paired x) l ne = refl
unpack_entry-key fuel other l ne = refl

pair-Reads :
    (fuel : ℕ) (xs ys zs : List ℕ) (k v : Value) (ps : Pairs)
    → k ≢ nil
    → Reads (unpack_one (suc fuel)) xs k
    → Reads (unpack_one fuel) ys v
    → Reads (unpack_pairs fuel) zs ps
    → Reads (unpack_pairs (suc (suc fuel))) (xs ++ (ys ++ zs)) (pair k v ps)
unfolding unpack_one
pair-Reads fuel xs ys zs k v ps ne rk rv rs =
    Reads-bind (unpack_one (suc fuel)) (unpack_entry (suc fuel)) xs (ys ++ zs) k (pair k v ps) rk
      (λ rest.
        unpack_entry-key fuel k ((ys ++ zs) ++ rest) ne
        ∙ Reads-bind (unpack_one fuel) (λ w. unpack_pairs fuel >>= λ qs. pure (pair k w qs)) ys zs v
            (pair k v ps) rv (Reads-map (unpack_pairs fuel) (pair k v) zs ps rs) rest)

pub table-Reads :
    (fuel n c : ℕ) (head xs ys : List ℕ) (items : Items) (pairs : Pairs)
    → Reads (get_array_size c) head n
    → Reads (unpack_items fuel n) xs items
    → Reads (unpack_pairs fuel) ys pairs
    → Reads
        (unpack_one (suc (suc fuel)))
        ((combine_type 6 c ∷ head) ++ (xs ++ ys))
        (table items pairs)
unfolding unpack_one
table-Reads fuel n c head xs ys items pairs r rx ry =
    first_byte (suc fuel) 6 c (head ++ (xs ++ ys)) (table items pairs) (omega arith) (
      Reads-bind (get_array_size c)
        (λ m. unpack_items fuel m >>= λ is. unpack_pairs fuel >>= λ ps. pure (table is ps)) head
        (xs ++ ys) n (table items pairs) r
        (Reads-bind (unpack_items fuel n) (λ is. unpack_pairs fuel >>= λ ps. pure (table is ps)) xs
          ys items (table items pairs) rx
          (Reads-map (unpack_pairs fuel) (table items) ys pairs ry)))

pub received-key : (k : Value) → k ≢ nil → received k ≢ nil
unfolding received
received-key nil ne e = ne refl
received-key (boolean x) ne e = ne e
received-key (integer x) ne e = ne e
received-key (real x) ne e = ne e
received-key (light_userdata x) ne e = ne e
received-key (text x) ne e = ne e
received-key (table x y) ne e = cc
received-key (paired x) ne e = cc
received-key other ne e = ne e

pub table_size :
    {n : ℕ} (form : HeadForm n) (xs ys : List ℕ)
    → 2 + length xs + length ys ≤ length (flat (array_pieces n) ++ (xs ++ (ys ++ 0 ∷ [])))
table_size {n} form xs ys = omega (
  arith,
  length-append (flat (array_pieces n)) (xs ++ (ys ++ 0 ∷ [])),
  length-append xs (ys ++ 0 ∷ []),
  length-append ys (0 ∷ []),
  ap length form.split,
)

pub value_size : (v : Value) (d : ℕ) → Fits d v → 1 ≤ length (encode v)
unfolding encode Fits
value_size nil d fits = omega arith
value_size (boolean x) d fits = omega arith
value_size (integer x) d fits =
    some_bytes 1 (flat (integer_pieces x)) (integer x) (integer-Reads 0 x fits.1)
value_size (real x) d fits = omega arith
value_size (light_userdata x) d fits = omega arith
value_size (text x) d fits = some_bytes 1 (flat (string_pieces x)) (text x) (text-Reads 0 x fits.1)
value_size (table items pairs) d (deep, (small, rest)) = omega (
  arith,
  table_size (array_pieces-HeadForm (size_of items) small) (encode_items items)
      (encode_pairs (size_of items) pairs),
)
value_size (paired pairs) d fits = omega arith
value_size other d fits = absurd fits

pub Reads-at :
    {A : Type 0} (m : Reader A) (xs ys : List ℕ) (a b : A)
    → xs ≡ ys
    → a ≡ b
    → Reads m ys b
    → Reads m xs a
Reads-at m xs ys a b e f r rest =
    ap (λ l. m (l ++ rest)) e ∙ r rest ∙ ap (λ x. unpacked (x, rest)) (sym f)

pub kept_bytes : (xs ys zs : List ℕ) → (xs ++ (ys ++ zs)) ++ 0 ∷ [] ≡ xs ++ (ys ++ (zs ++ 0 ∷ []))
kept_bytes xs ys zs =
    append_assoc xs (ys ++ zs) (0 ∷ []) ∙ ap (λ l. xs ++ l) (append_assoc ys zs (0 ∷ []))

pub kept_size : (xs ys zs : List ℕ) → length (xs ++ (ys ++ zs)) ≡ length xs + length ys + length zs
kept_size xs ys zs = omega (arith, length-append xs (ys ++ zs), length-append ys zs)

pub two_rounds :
    (fuel : ℕ) (xs ys zs : List ℕ) (k v : Value) (ps : Pairs)
    → 4 ≤ fuel
    → k ≢ nil
    → Reads (unpack_one (suc (suc (fuel - 3)))) xs k
    → Reads (unpack_one (suc (suc (fuel - 4)))) ys v
    → Reads (unpack_pairs (fuel - 2)) zs ps
    → Reads (unpack_pairs fuel) (xs ++ (ys ++ zs)) (pair k v ps)
two_rounds fuel xs ys zs k v ps le ne rk rv rs =
    subst (λ f. Reads (unpack_pairs f) (xs ++ (ys ++ zs)) (pair k v ps)) {x = suc (suc (fuel - 2))}
      {y = fuel} (omega arith)
      (pair-Reads (fuel - 2) xs ys zs k v ps ne
        (subst (λ f. Reads (unpack_one f) xs k) {x = suc (suc (fuel - 3))} {y = suc (fuel - 2)}
          (omega arith) rk)
        (subst (λ f. Reads (unpack_one f) ys v) {x = suc (suc (fuel - 4))} {y = fuel - 2}
          (omega arith) rv)
        rs)
