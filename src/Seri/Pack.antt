-- ===== src/Seri/Pack.antt =====
-- `luaseri_pack`, with its blocks, against the bytes that stand for its values.
use ddzproject.Prelude.{
  ℕ, ◌+◌, ◌≤◌, ◌≡◌, refl, sym, ap, ◌∙◌, subst, true, false, Bool-cases, inl, inr, if◌then◌else◌,
  le→ltb, List, [], ◌∷◌, ◌++◌, append_assoc, append-nil, some, All, arith,
}
use ddzproject.Seri.{
  Value, nil, boolean, integer, real, light_userdata, text, table, paired, other, Items, no_items,
  item, Pairs, no_pairs, pair, WriteBlock, combine_type, push_all, integer_pieces, string_pieces,
  array_pieces, size_of, in_array, le_bytes, max_depth, Packed, packed, check_depth, ◌>>=◌,
  pack_one, pack_items, pack_pairs, pack_from, wb_init, luaseri_pack, seri,
}
use ddzproject.Seri.Spec.{
  flat, encode, encode_items, encode_pairs, encode_pairs-skip, encode_pairs-keep, Fits, FitsItems,
  FitsPairs, FitsPairs-skip, FitsPairs-keep,
}
use ddzproject.Seri.Blocks.{Holds, push_all-Holds, seri-Holds}

-- The packer ends with blocks that hold these bytes.
abbrev pub Packs : Packed WriteBlock → List ℕ → Type 0
Packs r bytes = (b : WriteBlock) × ((r ≡ packed b) × Holds b bytes)

Packs-check :
    (d : ℕ) (r : Packed WriteBlock) (bytes : List ℕ)
    → d ≤ max_depth
    → Packs r bytes
    → Packs (check_depth d r) bytes
Packs-check d r bytes le p = subst (λ x. Packs x bytes) (sym deep) p
  where
    deep : check_depth d r ≡ r
    deep = rw (le→ltb max_depth d le) refl

Packs-bind :
    (r : Packed WriteBlock) (f : WriteBlock → Packed WriteBlock) (bytes more : List ℕ)
    → Packs r bytes
    → ((b : WriteBlock) → Holds b bytes → Packs (f b) more)
    → Packs (r >>= f) more
Packs-bind r f bytes more (b, (e, h)) k =
    subst (λ x. Packs x more) (ap (λ x. x >>= f) (sym e)) (k b h)

Packs-pushes :
    (d : ℕ) (b : WriteBlock) (ps : List (List ℕ)) (bytes : List ℕ)
    → d ≤ max_depth
    → Holds b bytes
    → Packs (check_depth d (packed (push_all b ps))) (bytes ++ flat ps)
Packs-pushes d b ps bytes le h =
    Packs-check d (packed (push_all b ps)) (bytes ++ flat ps) le
      (push_all b ps, (refl, push_all-Holds ps b bytes h))

Packs-at : (r : Packed WriteBlock) (xs ys : List ℕ) → xs ≡ ys → Packs r xs → Packs r ys
Packs-at r xs ys e p = subst (λ l. Packs r l) e p

pack_pairs-skip :
    (n : ℕ) (k v : Value) (ps : Pairs) (d : ℕ) (b : WriteBlock)
    → in_array n k ≡ true
    → pack_pairs n (pair k v ps) d b ≡ pack_pairs n ps d b
unfolding pack_one
pack_pairs-skip n k v ps d b e =
    ap
      (λ x. elim x [
        | true ↦ pack_pairs n ps d b
        | false ↦ pack_one k d b >>= λ b₁. pack_one v d b₁ >>= λ b₂. pack_pairs n ps d b₂
      ])
      e

pack_pairs-keep :
    (n : ℕ) (k v : Value) (ps : Pairs) (d : ℕ) (b : WriteBlock)
    → in_array n k ≡ false
    → pack_pairs n (pair k v ps) d b
      ≡ (pack_one k d b >>= λ b₁. pack_one v d b₁ >>= λ b₂. pack_pairs n ps d b₂)
unfolding pack_one
pack_pairs-keep n k v ps d b e =
    ap
      (λ x. elim x [
        | true ↦ pack_pairs n ps d b
        | false ↦ pack_one k d b >>= λ b₁. pack_one v d b₁ >>= λ b₂. pack_pairs n ps d b₂
      ])
      e

mutual
  unfolding pack_one encode Fits

  pack_one-Packs :
      (v : Value) (d : ℕ) (b : WriteBlock) (bytes : List ℕ)
      → Fits d v
      → Holds b bytes
      → Packs (pack_one v d b) (bytes ++ encode v)
  pack_one-Packs nil d b bytes fits h = Packs-pushes d b ((0 ∷ []) ∷ []) bytes fits h
  pack_one-Packs (boolean x) d b bytes fits h =
      Packs-pushes d b ((combine_type 1 (if x then 1 else 0) ∷ []) ∷ []) bytes fits h
  pack_one-Packs (integer v) d b bytes fits h = Packs-pushes d b (integer_pieces v) bytes (fits.0) h
  pack_one-Packs (real v) d b bytes fits h =
      Packs-pushes d b ((combine_type 2 8 ∷ []) ∷ le_bytes 8 v ∷ []) bytes (fits.0) h
  pack_one-Packs (light_userdata v) d b bytes fits h =
      Packs-pushes d b ((3 ∷ []) ∷ le_bytes 8 v ∷ []) bytes (fits.0) h
  pack_one-Packs (text str) d b bytes fits h = Packs-pushes d b (string_pieces str) bytes (fits.0) h
  pack_one-Packs (table items pairs) d b bytes (le, (small, (fit_items, fit_pairs))) h =
      Packs-check d _ (bytes ++ encode (table items pairs)) le (
        Packs-bind (pack_items items (d + 1) (push_all b (array_pieces (size_of items)))) _
          ((bytes ++ flat (array_pieces (size_of items))) ++ encode_items items)
          (bytes ++ encode (table items pairs))
          (pack_items-Packs items (d + 1) (push_all b (array_pieces (size_of items)))
            (bytes ++ flat (array_pieces (size_of items))) fit_items
            (push_all-Holds (array_pieces (size_of items)) b bytes h))
          (λ b₁ h₁.
            Packs-bind (pack_pairs (size_of items) pairs (d + 1) b₁) _
              (((bytes ++ flat (array_pieces (size_of items))) ++ encode_items items)
                ++ encode_pairs (size_of items) pairs)
              (bytes ++ encode (table items pairs))
              (pack_pairs-Packs (size_of items) pairs (d + 1) b₁
                ((bytes ++ flat (array_pieces (size_of items))) ++ encode_items items) fit_pairs h₁)
              (λ b₂ h₂.
                Packs-at (packed (push_all b₂ ((0 ∷ []) ∷ []))) _
                  (bytes ++ encode (table items pairs)) (simp append_assoc)
                  (push_all b₂ ((0 ∷ []) ∷ []), (refl, push_all-Holds ((0 ∷ []) ∷ []) b₂ _ h₂)))))
  pack_one-Packs (paired pairs) d b bytes (le, fit_pairs) h =
      Packs-check d _ (bytes ++ encode (paired pairs)) le (
        Packs-bind (pack_pairs 0 pairs (d + 1) (push_all b ((combine_type 6 0 ∷ []) ∷ []))) _
          ((bytes ++ combine_type 6 0 ∷ []) ++ encode_pairs 0 pairs)
          (bytes ++ encode (paired pairs))
          (pack_pairs-Packs 0 pairs (d + 1) (push_all b ((combine_type 6 0 ∷ []) ∷ []))
            (bytes ++ combine_type 6 0 ∷ []) fit_pairs
            (push_all-Holds ((combine_type 6 0 ∷ []) ∷ []) b bytes h))
          (λ b₁ h₁.
            Packs-at (packed (push_all b₁ ((0 ∷ []) ∷ []))) _ (bytes ++ encode (paired pairs))
              (simp append_assoc)
              (push_all b₁ ((0 ∷ []) ∷ []), (refl, push_all-Holds ((0 ∷ []) ∷ []) b₁ _ h₁))))
  pack_one-Packs other d b bytes fits h = absurd fits

  pack_items-Packs :
      (vs : Items) (d : ℕ) (b : WriteBlock) (bytes : List ℕ)
      → FitsItems d vs
      → Holds b bytes
      → Packs (pack_items vs d b) (bytes ++ encode_items vs)
  pack_items-Packs no_items d b bytes fits h =
      (b, (refl, subst (λ l. Holds b l) (sym (append-nil bytes)) h))
  pack_items-Packs (item v vs) d b bytes (fit, fits) h =
      Packs-bind (pack_one v d b) _ (bytes ++ encode v) (bytes ++ (encode v ++ encode_items vs))
        (pack_one-Packs v d b bytes fit h)
        (λ b₁ h₁.
          Packs-at (pack_items vs d b₁) ((bytes ++ encode v) ++ encode_items vs)
            (bytes ++ (encode v ++ encode_items vs))
            (append_assoc bytes (encode v) (encode_items vs))
            (pack_items-Packs vs d b₁ (bytes ++ encode v) fits h₁))

  pack_pairs-Packs :
      (n : ℕ) (ps : Pairs) (d : ℕ) (b : WriteBlock) (bytes : List ℕ)
      → FitsPairs d n ps
      → Holds b bytes
      → Packs (pack_pairs n ps d b) (bytes ++ encode_pairs n ps)
  pack_pairs-Packs n no_pairs d b bytes fits h =
      (b, (refl, subst (λ l. Holds b l) (sym (append-nil bytes)) h))
  pack_pairs-Packs n (pair k v ps) d b bytes fits h = elim (Bool-cases (in_array n k)) [
    | inl e ↦
        Packs-at (pack_pairs n (pair k v ps) d b) (bytes ++ encode_pairs n ps)
          (bytes ++ encode_pairs n (pair k v ps))
          (ap (λ l. bytes ++ l) (sym (encode_pairs-skip n k v ps e)))
          (subst (λ r. Packs r (bytes ++ encode_pairs n ps)) (sym (pack_pairs-skip n k v ps d b e))
            (pack_pairs-Packs n ps d b bytes (FitsPairs-skip n k v ps d e fits) h))
    | inr e ↦
        let (fit_k, (key, (fit_v, fit_ps))) = FitsPairs-keep n k v ps d e fits in
        Packs-at (pack_pairs n (pair k v ps) d b)
          (((bytes ++ encode k) ++ encode v) ++ encode_pairs n ps)
          (bytes ++ encode_pairs n (pair k v ps))
          (append_assoc (bytes ++ encode k) (encode v) (encode_pairs n ps)
            ∙ append_assoc bytes (encode k) (encode v ++ encode_pairs n ps)
            ∙ ap (λ l. bytes ++ l) (sym (encode_pairs-keep n k v ps e)))
          (subst (λ r. Packs r (((bytes ++ encode k) ++ encode v) ++ encode_pairs n ps))
            (sym (pack_pairs-keep n k v ps d b e))
            (Packs-bind (pack_one k d b) _ (bytes ++ encode k) _
              (pack_one-Packs k d b bytes fit_k h)
              (λ b₁ h₁.
                Packs-bind (pack_one v d b₁) _ ((bytes ++ encode k) ++ encode v) _
                  (pack_one-Packs v d b₁ (bytes ++ encode k) fit_v h₁)
                  (λ b₂ h₂.
                    pack_pairs-Packs n ps d b₂ ((bytes ++ encode k) ++ encode v) fit_ps h₂))))
  ]

-- The bytes of a list of values.
abbrev pub encode_all : List Value → List ℕ
encode_all [] = []
encode_all (v ∷ vs) = encode v ++ encode_all vs

pack_from-Packs :
    (vs : List Value) (b : WriteBlock) (bytes : List ℕ)
    → All (λ v. Fits 0 v) vs
    → Holds b bytes
    → Packs (pack_from vs b) (bytes ++ encode_all vs)
unfolding pack_from
pack_from-Packs [] b bytes fits h = (b, (refl, subst (λ l. Holds b l) (sym (append-nil bytes)) h))
pack_from-Packs (v ∷ vs) b bytes (fit, fits) h =
    Packs-bind (pack_one v 0 b) _ (bytes ++ encode v) (bytes ++ (encode v ++ encode_all vs))
      (pack_one-Packs v 0 b bytes fit h)
      (λ b₁ h₁.
        Packs-at (pack_from vs b₁) ((bytes ++ encode v) ++ encode_all vs)
          (bytes ++ (encode v ++ encode_all vs)) (append_assoc bytes (encode v) (encode_all vs))
          (pack_from-Packs vs b₁ (bytes ++ encode v) fits h₁))

-- For values that fit, the bytes that are copied from the blocks are those that stand for the values,
-- in their order.
pub luaseri_pack_lem :
    (vs : List Value) → All (λ v. Fits 0 v) vs → luaseri_pack vs ≡ packed (some (encode_all vs))
unfolding luaseri_pack
luaseri_pack_lem vs fits =
    let (b, (e, h)) =
      pack_from-Packs vs wb_init [] fits
        (record { full = tt; within = omega arith; content = refl; len = refl }) in
    ap (λ r. r >>= λ b. packed (seri (b.before ++ b.current ∷ []) b.len)) e
    ∙ ap packed (seri-Holds b (encode_all vs) h)
