-- ===== src/Seri/Spec.antt =====
-- What lua-seri.c is to do: the bytes that stand for a value, and the value that the reader gets of it.
use ddzproject.Prelude.{
  ℕ, ◌+◌, ◌^◌, ◌≤◌, ◌<◌, ◌≡◌, ◌≢◌, ap, subst, true, false, List, [], ◌∷◌, ◌++◌, length,
  if◌then◌else◌,
}
use ddzproject.Seri.{
  Value, nil, boolean, integer, real, light_userdata, text, table, paired, other, Items, no_items,
  item, Pairs, no_pairs, pair, combine_type, integer_pieces, string_pieces, array_pieces, size_of,
  in_array, le_bytes, max_depth,
}

abbrev pub flat : List (List ℕ) → List ℕ
flat [] = []
flat (p ∷ ps) = p ++ flat ps

unfoldable mutual
  pub encode : Value → List ℕ
  encode nil = 0 ∷ []
  encode (boolean x) = combine_type 1 (if x then 1 else 0) ∷ []
  encode (integer v) = flat (integer_pieces v)
  encode (real v) = combine_type 2 8 ∷ le_bytes 8 v
  encode (light_userdata v) = 3 ∷ le_bytes 8 v
  encode (text str) = flat (string_pieces str)
  encode (table items pairs) =
      flat (array_pieces (size_of items))
      ++ (encode_items items ++ (encode_pairs (size_of items) pairs ++ 0 ∷ []))
  encode (paired pairs) = combine_type 6 0 ∷ (encode_pairs 0 pairs ++ 0 ∷ [])
  encode other = []

  pub encode_items : Items → List ℕ
  encode_items no_items = []
  encode_items (item v vs) = encode v ++ encode_items vs

  pub encode_pairs : ℕ → Pairs → List ℕ
  encode_pairs n no_pairs = []
  encode_pairs n (pair k v ps) = elim (in_array n k) [
    | true ↦ encode_pairs n ps
    | false ↦ encode k ++ (encode v ++ encode_pairs n ps)
  ]

-- The entries of the array stand in it alone, and a `__pairs` metamethod does not travel.
unfoldable mutual
  pub received : Value → Value
  received (table items pairs) = table (received_items items) (received_pairs (size_of items) pairs)
  received (paired pairs) = table no_items (received_pairs 0 pairs)
  received v = v

  pub received_items : Items → Items
  received_items no_items = no_items
  received_items (item v vs) = item (received v) (received_items vs)

  pub received_pairs : ℕ → Pairs → Pairs
  received_pairs n no_pairs = no_pairs
  received_pairs n (pair k v ps) = elim (in_array n k) [
    | true ↦ received_pairs n ps
    | false ↦ pair (received k) (received v) (received_pairs n ps)
  ]

-- A value that can be packed at a depth: words are words, lengths are an `int`, tables are not nested
-- too deep, no key is nil, and no value is of a type that is not packed.
unfoldable mutual
  pub Fits : ℕ → Value → Type 0
  Fits d nil = d ≤ max_depth
  Fits d (boolean x) = d ≤ max_depth
  Fits d (integer v) = (d ≤ max_depth) × (v < 2 ^ 64)
  Fits d (real v) = (d ≤ max_depth) × (v < 2 ^ 64)
  Fits d (light_userdata v) = (d ≤ max_depth) × (v < 2 ^ 64)
  Fits d (text str) = (d ≤ max_depth) × (length str < 2 ^ 31)
  Fits d (table items pairs) =
      (d ≤ max_depth)
      × ((size_of items < 2 ^ 31)
          × (FitsItems (d + 1) items × FitsPairs (d + 1) (size_of items) pairs))
  Fits d (paired pairs) = (d ≤ max_depth) × FitsPairs (d + 1) 0 pairs
  Fits d other = ⊥

  pub FitsItems : ℕ → Items → Type 0
  FitsItems d no_items = Unit
  FitsItems d (item v vs) = Fits d v × FitsItems d vs

  pub FitsPairs : ℕ → ℕ → Pairs → Type 0
  FitsPairs d n no_pairs = Unit
  FitsPairs d n (pair k v ps) = elim (in_array n k) [
    | true ↦ FitsPairs d n ps
    | false ↦ Fits d k × ((k ≢ nil) × (Fits d v × FitsPairs d n ps))
  ]

module _ (n : ℕ) (k v : Value) (ps : Pairs) where
  pub encode_pairs-skip : in_array n k ≡ true → encode_pairs n (pair k v ps) ≡ encode_pairs n ps
  unfolding encode
  encode_pairs-skip e =
      ap
        (λ b. elim b [
          | true ↦ encode_pairs n ps
          | false ↦ encode k ++ (encode v ++ encode_pairs n ps)
        ])
        e

  pub encode_pairs-keep :
      in_array n k ≡ false
      → encode_pairs n (pair k v ps) ≡ encode k ++ (encode v ++ encode_pairs n ps)
  unfolding encode
  encode_pairs-keep e =
      ap
        (λ b. elim b [
          | true ↦ encode_pairs n ps
          | false ↦ encode k ++ (encode v ++ encode_pairs n ps)
        ])
        e

  pub received_pairs-skip :
      in_array n k ≡ true → received_pairs n (pair k v ps) ≡ received_pairs n ps
  unfolding received
  received_pairs-skip e =
      ap
        (λ b. elim b [
          | true ↦ received_pairs n ps
          | false ↦ pair (received k) (received v) (received_pairs n ps)
        ])
        e

  pub received_pairs-keep :
      in_array n k ≡ false
      → received_pairs n (pair k v ps) ≡ pair (received k) (received v) (received_pairs n ps)
  unfolding received
  received_pairs-keep e =
      ap
        (λ b. elim b [
          | true ↦ received_pairs n ps
          | false ↦ pair (received k) (received v) (received_pairs n ps)
        ])
        e

  pub FitsPairs-skip :
      (d : ℕ) → in_array n k ≡ true → FitsPairs d n (pair k v ps) → FitsPairs d n ps
  unfolding Fits
  FitsPairs-skip d e h =
      subst
        (λ b. elim b [
          | true ↦ FitsPairs d n ps
          | false ↦ Fits d k × ((k ≢ nil) × (Fits d v × FitsPairs d n ps))
        ])
        e h

  pub FitsPairs-keep :
      (d : ℕ)
      → in_array n k ≡ false
      → FitsPairs d n (pair k v ps)
      → Fits d k × ((k ≢ nil) × (Fits d v × FitsPairs d n ps))
  unfolding Fits
  FitsPairs-keep d e h =
      subst
        (λ b. elim b [
          | true ↦ FitsPairs d n ps
          | false ↦ Fits d k × ((k ≢ nil) × (Fits d v × FitsPairs d n ps))
        ])
        e h
