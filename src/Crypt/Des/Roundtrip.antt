-- ===== src/Crypt/Des/Roundtrip.antt =====
-- `ldesdecode` after `ldesencode`, and on a block of zeros.
use ddzproject.Prelude.{
  ℕ, zero, suc, ◌*◌, ◌%◌, ◌<◌, ◌≡◌, refl, sym, ap, ap₂, ◌∙◌, List, [], ◌∷◌, ◌++◌, length, replicate,
  length-append, append_assoc, append-nil, arith, All, ==_ne, ==_iff, lt→leb, ◌+◌, ◌≤◌, ◌^◌,
}
use mathlib.Core.List.{reverse, reverse-append, reverse-reverse, reverse-cons}
use ddzproject.Crypt.Des.Schedule.{des_main_ks}
use ddzproject.Crypt.Des.Block.{des_crypt}
use ddzproject.Crypt.Des.Text.{
  pushed, reads_before_buffer, encode_blocks, decode_blocks, strip_padding, desencode, desdecode,
}
use ddzproject.Crypt.Des.Undo.{des_crypt-reverse, length-des_crypt, decode_blocks-crypt}

abbrev zeros : ℕ → List ℕ
zeros m = replicate m 0

strip_padding-zeros :
    (m left : ℕ) (rest : List ℕ)
    → m < left
    → strip_padding left (zeros m ++ 0x80 ∷ rest) ≡ pushed (reverse rest)
unfolding strip_padding
strip_padding-zeros zero zero rest h = absurd (omega arith)
strip_padding-zeros (suc m) zero rest h = absurd (omega arith)
strip_padding-zeros zero (suc left) rest h = refl
strip_padding-zeros (suc m) (suc left) rest h = strip_padding-zeros m left rest (omega arith)

replicate-snoc : (m : ℕ) → zeros m ++ 0 ∷ [] ≡ zeros (suc m)
replicate-snoc zero = refl
replicate-snoc (suc m) = ap (λ l. 0 ∷ l) (replicate-snoc m)

reverse-replicate : (m : ℕ) → reverse (zeros m) ≡ zeros m
reverse-replicate zero = refl
reverse-replicate (suc m) =
    reverse-cons 0 (zeros m) ∙ (ap (λ l. l ++ 0 ∷ []) (reverse-replicate m) ∙ replicate-snoc m)

padded-reverse :
    (text : List ℕ) (m : ℕ) → reverse (text ++ 0x80 ∷ zeros m) ≡ zeros m ++ 0x80 ∷ reverse text
padded-reverse text m =
    reverse-append text (0x80 ∷ zeros m)
    ∙ (ap (λ l. l ++ reverse text)
          (reverse-cons 0x80 (zeros m) ∙ ap (λ l. l ++ 0x80 ∷ []) (reverse-replicate m))
        ∙ append_assoc (zeros m) (0x80 ∷ []) (reverse text))

last_block :
    (ks : List (ℕ × ℕ)) (b0 b1 b2 b3 b4 b5 b6 b7 : ℕ)
    → All (λ b. b < 256) (b0 ∷ b1 ∷ b2 ∷ b3 ∷ b4 ∷ b5 ∷ b6 ∷ b7 ∷ [])
    → decode_blocks (reverse ks) (des_crypt ks (b0 ∷ b1 ∷ b2 ∷ b3 ∷ b4 ∷ b5 ∷ b6 ∷ b7 ∷ []))
      ≡ b0 ∷ b1 ∷ b2 ∷ b3 ∷ b4 ∷ b5 ∷ b6 ∷ b7 ∷ []
last_block ks b0 b1 b2 b3 b4 b5 b6 b7 h =
    ap (decode_blocks (reverse ks)) (sym (append-nil _))
    ∙ (decode_blocks-crypt ks (reverse ks) b0 b1 b2 b3 b4 b5 b6 b7 []
        ∙ (unfold decode_blocks in append-nil _ ∙ des_crypt-reverse ks b0 b1 b2 b3 b4 b5 b6 b7 h))

decode-encode_block :
    (ks : List (ℕ × ℕ)) (b0 b1 b2 b3 b4 b5 b6 b7 : ℕ) (text : List ℕ) (m : ℕ)
    → All (λ b. b < 256) (b0 ∷ b1 ∷ b2 ∷ b3 ∷ b4 ∷ b5 ∷ b6 ∷ b7 ∷ [])
    → decode_blocks (reverse ks) (encode_blocks ks text) ≡ text ++ 0x80 ∷ zeros m
    → decode_blocks (reverse ks) (encode_blocks ks (b0 ∷ b1 ∷ b2 ∷ b3 ∷ b4 ∷ b5 ∷ b6 ∷ b7 ∷ text))
      ≡ b0 ∷ b1 ∷ b2 ∷ b3 ∷ b4 ∷ b5 ∷ b6 ∷ b7 ∷ text ++ 0x80 ∷ zeros m
unfolding encode_blocks
decode-encode_block ks b0 b1 b2 b3 b4 b5 b6 b7 text m h e =
    decode_blocks-crypt ks (reverse ks) b0 b1 b2 b3 b4 b5 b6 b7 (encode_blocks ks text)
    ∙ ap₂ (λ (xs ys : List ℕ). xs ++ ys) (des_crypt-reverse ks b0 b1 b2 b3 b4 b5 b6 b7 h) e

-- The blocks decrypt to the text with its padding.
decode-encode :
    (ks : List (ℕ × ℕ)) (text : List ℕ)
    → All (λ b. b < 256) text
    → (m : ℕ) × (m < 8)
      × (decode_blocks (reverse ks) (encode_blocks ks text) ≡ text ++ 0x80 ∷ zeros m)
decode-encode ks [] h =
    (7, omega arith, unfold encode_blocks in last_block ks 0x80 0 0 0 0 0 0 0 (omega arith))
decode-encode ks (b0 ∷ []) h =
    (6, omega arith, unfold encode_blocks in last_block ks b0 0x80 0 0 0 0 0 0 (omega arith))
decode-encode ks (b0 ∷ b1 ∷ []) h =
    (5, omega arith, unfold encode_blocks in last_block ks b0 b1 0x80 0 0 0 0 0 (omega arith))
decode-encode ks (b0 ∷ b1 ∷ b2 ∷ []) h =
    (4, omega arith, unfold encode_blocks in last_block ks b0 b1 b2 0x80 0 0 0 0 (omega arith))
decode-encode ks (b0 ∷ b1 ∷ b2 ∷ b3 ∷ []) h =
    (3, omega arith, unfold encode_blocks in last_block ks b0 b1 b2 b3 0x80 0 0 0 (omega arith))
decode-encode ks (b0 ∷ b1 ∷ b2 ∷ b3 ∷ b4 ∷ []) h =
    (2, omega arith, unfold encode_blocks in last_block ks b0 b1 b2 b3 b4 0x80 0 0 (omega arith))
decode-encode ks (b0 ∷ b1 ∷ b2 ∷ b3 ∷ b4 ∷ b5 ∷ []) h =
    (1, omega arith, unfold encode_blocks in last_block ks b0 b1 b2 b3 b4 b5 0x80 0 (omega arith))
decode-encode ks (b0 ∷ b1 ∷ b2 ∷ b3 ∷ b4 ∷ b5 ∷ b6 ∷ []) h =
    (0, omega arith, unfold encode_blocks in last_block ks b0 b1 b2 b3 b4 b5 b6 0x80 (omega arith))
decode-encode ks (b0 ∷ b1 ∷ b2 ∷ b3 ∷ b4 ∷ b5 ∷ b6 ∷ b7 ∷ text)
      (h0, (h1, (h2, (h3, (h4, (h5, (h6, (h7, h)))))))) =
    let (m, lt, e) = decode-encode ks text h in
    (
      m,
      lt,
      decode-encode_block ks b0 b1 b2 b3 b4 b5 b6 b7 text m
          (h0, (h1, (h2, (h3, (h4, (h5, (h6, (h7, tt)))))))) e,
    )

length-encode_block :
    (ks : List (ℕ × ℕ)) (b0 b1 b2 b3 b4 b5 b6 b7 : ℕ) (text : List ℕ) (n : ℕ)
    → length (encode_blocks ks text) ≡ 8 * suc n
    → length (encode_blocks ks (b0 ∷ b1 ∷ b2 ∷ b3 ∷ b4 ∷ b5 ∷ b6 ∷ b7 ∷ text)) ≡ 8 * suc (suc n)
unfolding encode_blocks
length-encode_block ks b0 b1 b2 b3 b4 b5 b6 b7 text n e = omega (
  arith,
  length-append (des_crypt ks (b0 ∷ b1 ∷ b2 ∷ b3 ∷ b4 ∷ b5 ∷ b6 ∷ b7 ∷ [])) (encode_blocks ks text),
  length-des_crypt ks b0 b1 b2 b3 b4 b5 b6 b7,
  e,
)

length-encode :
    (ks : List (ℕ × ℕ)) (text : List ℕ)
    → (n : ℕ) × ((8 * n ≤ length text) × (length (encode_blocks ks text) ≡ 8 * suc n))
length-encode ks [] =
    (0, (omega arith, unfold encode_blocks in length-des_crypt ks 0x80 0 0 0 0 0 0 0))
length-encode ks (b0 ∷ []) =
    (0, (omega arith, unfold encode_blocks in length-des_crypt ks b0 0x80 0 0 0 0 0 0))
length-encode ks (b0 ∷ b1 ∷ []) =
    (0, (omega arith, unfold encode_blocks in length-des_crypt ks b0 b1 0x80 0 0 0 0 0))
length-encode ks (b0 ∷ b1 ∷ b2 ∷ []) =
    (0, (omega arith, unfold encode_blocks in length-des_crypt ks b0 b1 b2 0x80 0 0 0 0))
length-encode ks (b0 ∷ b1 ∷ b2 ∷ b3 ∷ []) =
    (0, (omega arith, unfold encode_blocks in length-des_crypt ks b0 b1 b2 b3 0x80 0 0 0))
length-encode ks (b0 ∷ b1 ∷ b2 ∷ b3 ∷ b4 ∷ []) =
    (0, (omega arith, unfold encode_blocks in length-des_crypt ks b0 b1 b2 b3 b4 0x80 0 0))
length-encode ks (b0 ∷ b1 ∷ b2 ∷ b3 ∷ b4 ∷ b5 ∷ []) =
    (0, (omega arith, unfold encode_blocks in length-des_crypt ks b0 b1 b2 b3 b4 b5 0x80 0))
length-encode ks (b0 ∷ b1 ∷ b2 ∷ b3 ∷ b4 ∷ b5 ∷ b6 ∷ []) =
    (0, (omega arith, unfold encode_blocks in length-des_crypt ks b0 b1 b2 b3 b4 b5 b6 0x80))
length-encode ks (b0 ∷ b1 ∷ b2 ∷ b3 ∷ b4 ∷ b5 ∷ b6 ∷ b7 ∷ text) =
    let (n, (le, e)) = length-encode ks text in
    (suc n, (omega (arith, le), length-encode_block ks b0 b1 b2 b3 b4 b5 b6 b7 text n e))

desencode-pushed :
    (key text : List ℕ)
    → length key ≡ 8
    → length text < 2 ^ 31
    → desencode key text ≡ pushed (encode_blocks (des_main_ks key) text)
unfolding desencode
desencode-pushed key text sized small =
    rw ((==_iff (length key) 8).1 sized, lt→leb (2 ^ 31) (length text) small) refl

desdecode-encode :
    (key text : List ℕ)
    → All (λ b. b < 256) text
    → length key ≡ 8
    → length text + 8 < 2 ^ 31
    → desdecode key (encode_blocks (des_main_ks key) text) ≡ pushed text
unfolding desdecode
desdecode-encode key text h sized small =
    let ks = des_main_ks key in
    let cipher = encode_blocks ks text in
    let (n, (le, len)) = length-encode ks text in
    let (m, lt, e) = decode-encode ks text h in
    rw
      (
        (==_iff (length key) 8).1 sized,
        (==_iff (length cipher % 8) 0).1 (omega (arith, len)),
        ==_ne (length cipher) 0 (omega (arith, len)),
        lt→leb (2 ^ 31) (length cipher) (omega (arith, len, le)),
      )
      (ap (λ l. strip_padding 8 (reverse l)) e
        ∙ (ap (strip_padding 8) (padded-reverse text m)
            ∙ (strip_padding-zeros m 8 (reverse text) lt ∙ ap pushed (reverse-reverse text))))

-- For every key of eight bytes and every text of bytes whose code is below 2^31 bytes, `ldesencode` pushes
-- a code, and `ldesdecode` of it pushes the text again.
pub desdecode-desencode :
    (key text : List ℕ)
    → All (λ b. b < 256) text
    → length key ≡ 8
    → length text + 8 < 2 ^ 31
    → (cipher : List ℕ) × ((desencode key text ≡ pushed cipher)
        × (desdecode key cipher ≡ pushed text))
desdecode-desencode key text h sized small = (
  encode_blocks (des_main_ks key) text,
  (desencode-pushed key text sized (omega arith), desdecode-encode key text h sized small),
)

-- For every key of eight bytes there is a text of one block, the encryption of eight zeros, on which
-- `ldesdecode` looks for the padding in the byte before its buffer.
pub desdecode-zero_block :
    (key : List ℕ)
    → length key ≡ 8
    → desdecode key (des_crypt (des_main_ks key) (zeros 8)) ≡ reads_before_buffer
unfolding desdecode strip_padding
desdecode-zero_block key sized =
    let ks = des_main_ks key in
    let cipher = des_crypt ks (zeros 8) in
    let len = length-des_crypt ks 0 0 0 0 0 0 0 0 in
    rw
      (
        (==_iff (length key) 8).1 sized,
        (==_iff (length cipher % 8) 0).1 (omega (arith, len)),
        ==_ne (length cipher) 0 (omega (arith, len)),
        lt→leb (2 ^ 31) (length cipher) (omega (arith, len)),
      )
      (ap (λ l. strip_padding 8 (reverse l)) (last_block ks 0 0 0 0 0 0 0 0 (omega arith)))
