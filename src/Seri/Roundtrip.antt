-- ===== src/Seri/Roundtrip.antt =====
-- `luaseri_unpack` on the bytes that `luaseri_pack` makes: the values, with the keys of an array in it alone.
use ddzproject.Prelude.{
  ℕ, zero, suc, ◌+◌, ◌-◌, ◌*◌, ◌≤◌, ◌≡◌, inl, inr, refl, sym, ap, ◌∙◌, subst, Bool-cases, List, [],
  ◌∷◌, ◌++◌, length, map, All, some, arith, length-append,
}
use ddzproject.Seri.{
  Value, nil, boolean, integer, real, light_userdata, text, table, paired, other, Items, no_items,
  item, Pairs, no_pairs, pair, size_of, in_array, packed, luaseri_pack,
}
use ddzproject.Seri.Unpack.{
  unpacked, unpack_one, unpack_items, unpack_pairs, unpack_all, luaseri_unpack,
}
use ddzproject.Seri.Spec.{
  encode, encode_items, encode_pairs, encode_pairs-skip, encode_pairs-keep, received,
  received_items, received_pairs, received_pairs-skip, received_pairs-keep, Fits, FitsItems,
  FitsPairs, FitsPairs-skip, FitsPairs-keep,
}
use ddzproject.Seri.Integer.{Reads}
use ddzproject.Seri.Reads.{
  nil-Reads, boolean-Reads, integer-Reads, real-Reads, light_userdata-Reads, text-Reads,
}
use ddzproject.Seri.Head.{array_pieces-HeadForm, short_size}
use ddzproject.Seri.Pack.{encode_all, luaseri_pack_lem}
use ddzproject.Seri.Table.{
  no_value, two_calls, no_items-Reads, item-Reads, no_pairs-Reads, table-Reads, received-key,
  table_size, value_size, Reads-at, kept_bytes, kept_size, two_rounds,
}

-- The fuel that the bytes of a value need: two calls for each, and the calls for the ends.
mutual
  unfolding encode received Fits size_of

  one-Reads :
      (v : Value) (d fuel : ℕ)
      → Fits d v
      → 2 * length (encode v) ≤ fuel + 1
      → Reads (unpack_one (suc (suc fuel))) (encode v) (received v)
  one-Reads nil d fuel fits le = nil-Reads fuel
  one-Reads (boolean x) d fuel fits le = boolean-Reads fuel x
  one-Reads (integer x) d fuel fits le = integer-Reads fuel x fits.1
  one-Reads (real x) d fuel fits le = real-Reads fuel x fits.1
  one-Reads (light_userdata x) d fuel fits le = light_userdata-Reads fuel x fits.1
  one-Reads (text x) d fuel fits le = text-Reads fuel x fits.1
  one-Reads (table items pairs) d fuel (deep, (small, (fit_items, fit_pairs))) le =
      let form = array_pieces-HeadForm (size_of items) small in
      let size = table_size form (encode_items items) (encode_pairs (size_of items) pairs) in
      subst
        (λ h.
          Reads (unpack_one (suc (suc fuel)))
            (h ++ (encode_items items ++ (encode_pairs (size_of items) pairs ++ 0 ∷ [])))
            (received (table items pairs)))
        (sym form.split)
        (table-Reads fuel (size_of items) form.cookie form.body (encode_items items)
          (encode_pairs (size_of items) pairs ++ 0 ∷ []) (received_items items)
          (received_pairs (size_of items) pairs) form.reads
          (items-Reads items (d + 1) fuel fit_items (omega (arith, size)))
          (pairs-Reads (size_of items) pairs (d + 1) fuel fit_pairs (omega (arith, size))))
  one-Reads (paired pairs) d fuel (deep, fit_pairs) le =
      let size = length-append (encode_pairs 0 pairs) (0 ∷ []) in
      table-Reads fuel 0 0 [] [] (encode_pairs 0 pairs ++ 0 ∷ []) no_items (received_pairs 0 pairs)
        (short_size 0 (omega arith)) (no_items-Reads fuel (omega (arith, size)))
        (pairs-Reads 0 pairs (d + 1) fuel fit_pairs (omega (arith, size)))
  one-Reads other d fuel fits le = absurd fits

  items-Reads :
      (vs : Items) (d fuel : ℕ)
      → FitsItems d vs
      → 2 * length (encode_items vs) + 2 ≤ fuel
      → Reads (unpack_items fuel (size_of vs)) (encode_items vs) (received_items vs)
  items-Reads vs d zero fits le = absurd (omega arith)
  items-Reads no_items d (suc fuel) fits le = no_items-Reads (suc fuel) (omega arith)
  items-Reads (item v vs) d (suc fuel) (fit, fits) le =
      let size = length-append (encode v) (encode_items vs) in
      let at_least = value_size v d fit in
      item-Reads fuel (size_of vs) (encode v) (encode_items vs) (received v) (received_items vs)
        (two_calls fuel (encode v) (received v) (omega (arith, size, at_least))
          (one-Reads v d (fuel - 2) fit (omega (arith, size, at_least))))
        (items-Reads vs d fuel fits (omega (arith, size, at_least)))

  pairs-Reads :
      (n : ℕ) (ps : Pairs) (d fuel : ℕ)
      → FitsPairs d n ps
      → 2 * length (encode_pairs n ps) + 3 ≤ fuel
      → Reads (unpack_pairs fuel) (encode_pairs n ps ++ 0 ∷ []) (received_pairs n ps)
  pairs-Reads n no_pairs d fuel fits le =
      subst (λ f. Reads (unpack_pairs f) (0 ∷ []) no_pairs) {x = suc (suc (suc (fuel - 3)))}
        {y = fuel} (omega arith) (no_pairs-Reads (fuel - 3))
  pairs-Reads n (pair k v ps) d fuel fits le = elim (Bool-cases (in_array n k)) [
    | inl e ↦
        Reads-at (unpack_pairs fuel) (encode_pairs n (pair k v ps) ++ 0 ∷ [])
          (encode_pairs n ps ++ 0 ∷ []) (received_pairs n (pair k v ps)) (received_pairs n ps)
          (ap (λ l. l ++ 0 ∷ []) (encode_pairs-skip n k v ps e)) (received_pairs-skip n k v ps e)
          (pairs-Reads n ps d fuel (FitsPairs-skip n k v ps d e fits)
            (omega (arith, le, ap length (encode_pairs-skip n k v ps e))))
    | inr e ↦
        let (fit_k, (key, (fit_v, fit_ps))) = FitsPairs-keep n k v ps d e fits in
        let size = kept_size (encode k) (encode v) (encode_pairs n ps) in
        let whole = ap length (encode_pairs-keep n k v ps e) in
        let some_key = value_size k d fit_k in
        let some_value = value_size v d fit_v in
        Reads-at (unpack_pairs fuel) (encode_pairs n (pair k v ps) ++ 0 ∷ [])
          (encode k ++ (encode v ++ (encode_pairs n ps ++ 0 ∷ []))) (received_pairs n (pair k v ps))
          (pair (received k) (received v) (received_pairs n ps))
          (ap (λ l. l ++ 0 ∷ []) (encode_pairs-keep n k v ps e)
            ∙ kept_bytes (encode k) (encode v) (encode_pairs n ps))
          (received_pairs-keep n k v ps e)
          (two_rounds fuel (encode k) (encode v) (encode_pairs n ps ++ 0 ∷ []) (received k)
            (received v) (received_pairs n ps) (omega (arith, le, size, whole, some_key))
            (received-key k key)
            (one-Reads k d (fuel - 3) fit_k (omega (arith, le, size, whole, some_key, some_value)))
            (one-Reads v d (fuel - 4) fit_v (omega (arith, le, size, whole, some_key, some_value)))
            (pairs-Reads n ps d (fuel - 2) fit_ps
              (omega (arith, le, size, whole, some_key, some_value))))
  ]

-- Each value of a message is read by one round of the loop.
all_round :
    (fuel : ℕ) (l rest : List ℕ) (v : Value) (vs : List Value)
    → unpack_one (suc fuel) l ≡ unpacked (v, rest)
    → unpack_all fuel rest ≡ unpacked vs
    → unpack_all (suc fuel) l ≡ unpacked (v ∷ vs)
unfolding unpack_one unpack_all
all_round fuel [] rest v vs e f = absurd (no_value (v, rest) (sym e))
all_round fuel (t ∷ l) rest v vs e f = rw (unpack_all, e, f) refl

unpack_all-Reads :
    (vs : List Value) (fuel : ℕ)
    → All (λ v. Fits 0 v) vs
    → 2 * length (encode_all vs) + 2 ≤ fuel
    → unpack_all fuel (encode_all vs) ≡ unpacked (map received vs)
unfolding unpack_all
unpack_all-Reads vs zero fits le = absurd (omega arith)
unpack_all-Reads [] (suc fuel) fits le = refl
unpack_all-Reads (v ∷ vs) (suc fuel) (fit, fits) le =
    let size = length-append (encode v) (encode_all vs) in
    all_round fuel (encode v ++ encode_all vs) (encode_all vs) (received v) (map received vs)
      (two_calls (suc fuel) (encode v) (received v) (omega (arith, size, value_size v 0 fit))
        (one-Reads v 0 (suc fuel - 2) fit (omega (arith, size))) (encode_all vs))
      (unpack_all-Reads vs fuel fits (omega (arith, size, value_size v 0 fit)))

-- Values that fit are packed, and unpacking the message gives them back: each table with its array,
-- and with the other entries in their order.
pub luaseri_unpack-luaseri_pack :
    (vs : List Value)
    → All (λ v. Fits 0 v) vs
    → (bytes : List ℕ) × ((luaseri_pack vs ≡ packed (some bytes))
        × (luaseri_unpack bytes ≡ unpacked (map received vs)))
unfolding luaseri_unpack
luaseri_unpack-luaseri_pack vs fits = (
  encode_all vs,
  (
    luaseri_pack_lem vs fits,
    unpack_all-Reads vs (4 * length (encode_all vs) + 4) fits (omega arith),
  ),
)
