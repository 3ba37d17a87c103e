-- ===== src/Crypt/Base64/Fuel.antt =====
-- The fuel of `lb64decode` is enough: the loop ends by itself.
use ddzproject.Prelude.{
  ℕ, zero, suc, ◌+◌, ◌^◌, ◌≤◌, ◌<◌, ◌≡◌, refl, ap, List, [], ◌∷◌, ◌++◌, length, Option, none, some,
  arith,
}
use ddzproject.Crypt.Hex.{Decoded, decoded, invalid}
use ddzproject.Crypt.Base64.{
  quad_bytes, append_bytes, Index, skipped, padding, digit, b64index, read_indices, cons_index,
  decode_quad, decode_loop, b64decode,
}

no_result : (r : Decoded) → ¬ (◌≡◌ {A = Option Decoded} none (some r))
no_result r e = cc

cons_index-some :
    (i : Index) (o : Option (List Index × List ℕ)) (is : List Index) (rest : List ℕ)
    → cons_index i o ≡ some (is, rest)
    → (js : List Index) × (o ≡ some (js, rest))
cons_index-some i none is rest e = cc
cons_index-some i (some (js, r)) is rest e = (js, cc)

-- Each index that is read takes one character at least.
read_indices-length :
    (n : ℕ) (text rest : List ℕ) (is : List Index)
    → read_indices n text ≡ some (is, rest)
    → length rest + n ≤ length text
unfolding read_indices
read_indices-length zero text rest is e =
    let same : text ≡ rest = cc in omega (arith, ap length same)
read_indices-length (suc n) [] rest is e = cc
read_indices-length (suc n) (c ∷ text) rest is e =
    go (b64index c) refl (read_indices-length (suc n) text rest is)
      (λ js. read_indices-length n text rest js)
  where
    go :
        (i : Index)
        → b64index c ≡ i
        → (read_indices (suc n) text ≡ some (is, rest) → length rest + suc n ≤ length text)
        → ((js : List Index)
            → read_indices n text ≡ some (js, rest)
            → length rest + n ≤ length text)
        → length rest + suc n ≤ suc (length text)
    go skipped f skip take = omega (arith, skip (ground arith))
    go padding f skip take =
        let (js, g) = cons_index-some padding (read_indices n text) is rest (ground arith) in
        omega (arith, take js g)
    go (digit v) f skip take =
        let (js, g) = cons_index-some (digit v) (read_indices n text) is rest (ground arith) in
        omega (arith, take js g)

-- A quad ends with a result when the rest of the text does.
decode_quad-some :
    (is : List Index) (rest : Option Decoded)
    → ((r : Decoded) × (rest ≡ some r))
    → (r : Decoded) × (decode_quad is rest ≡ some r)
decode_quad-some [] rest ends = (invalid, refl)
decode_quad-some (a ∷ []) rest ends = (invalid, refl)
decode_quad-some (a ∷ b ∷ []) rest ends = (invalid, refl)
decode_quad-some (a ∷ b ∷ c ∷ []) rest ends = (invalid, refl)
decode_quad-some (a ∷ b ∷ c ∷ d ∷ []) rest (r, e) = appended (quad_bytes a b c d) rest r e
  where
    appended :
        (bytes : Option (List ℕ)) (o : Option Decoded) (r : Decoded)
        → o ≡ some r
        → (r : Decoded) × (append_bytes bytes o ≡ some r)
    appended none o r e = (invalid, refl)
    appended (some bs) none r e = absurd (no_result r e)
    appended (some bs) (some invalid) r e = (invalid, refl)
    appended (some bs) (some (decoded t)) r e = (decoded (bs ++ t), refl)
decode_quad-some (a ∷ b ∷ c ∷ d ∷ e ∷ is) rest ends = (invalid, refl)

decode_loop-some :
    (fuel : ℕ) (text : List ℕ)
    → length text < fuel
    → (r : Decoded) × (decode_loop fuel text ≡ some r)
decode_loop-some zero text h = absurd (omega arith)
decode_loop-some (suc fuel) [] h = (decoded [], unfold decode_loop in refl)
decode_loop-some (suc fuel) (c ∷ text) h =
    go (read_indices 4 (c ∷ text)) refl (λ rest lt. decode_loop-some fuel rest (omega (arith, lt)))
  where
    go :
        (o : Option (List Index × List ℕ))
        → read_indices 4 (c ∷ text) ≡ o
        → ((rest : List ℕ)
            → length rest < suc (length text)
            → (r : Decoded) × (decode_loop fuel rest ≡ some r))
        → (r : Decoded) × (decode_loop (suc fuel) (c ∷ text) ≡ some r)
    go none e ih = (invalid, unfold decode_loop in rw (e, decode_loop) refl)
    go (some (is, rest)) e ih =
        let (r, f) =
          decode_quad-some is (decode_loop fuel rest)
            (ih rest (omega (arith, read_indices-length 4 (c ∷ text) rest is e))) in
        (r, unfold decode_loop in rw (e, decode_loop) f)

-- On every text below 2^31 characters the loop of `lb64decode` ends, with bytes or with its error: it
-- never lacks the fuel.
pub b64decode-ends :
    (text : List ℕ) → length text < 2 ^ 31 → (r : Decoded) × (b64decode text ≡ some r)
unfolding b64decode
b64decode-ends text h = decode_loop-some (suc (length text)) text (omega arith)
