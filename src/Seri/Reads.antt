-- ===== src/Seri/Reads.antt =====
-- What is not a table, and the head of one, read back by `push_value` and `unpack_table` of lua-seri.c.
use ddzproject.Prelude.{
  ℕ, suc, ◌/◌, ◌^◌, ◌≤◌, ◌<◌, ◌≡◌, refl, sym, ap, ◌∙◌, subst, Bool, true, false, List, [], ◌∷◌,
  ◌++◌, length, if◌then◌else◌, arith, append-nil, le→ltb, lt→ltb, lt→leb, ==_ne,
}
use native.Mathlib.Decide.{dec_lt}
use ddzproject.Seri.{
  Value, nil, boolean, integer, real, light_userdata, text, combine_type, le_bytes, integer_pieces,
  string_pieces, max_cookie,
}
use ddzproject.Seri.Unpack.{
  ◌>>=◌, pure, rb_read, le_word, get_integer, get_buffer, get_scalar, unpack_one, push_value,
}
use ddzproject.Seri.Spec.{flat}
use ddzproject.Seri.Integer.{
  Reads, Reads-bind, Reads-map, rb_read-Reads, word-Reads, word_2, word_4, word_8, type_of,
  cookie_of, IntegerForm, integer_pieces-IntegerForm,
}

-- `unpack_one` is `push_value` on the type and the cookie of the first byte.
pub first_byte :
    (fuel t v : ℕ) (body : List ℕ) (a : Value)
    → t < 2 ^ 3
    → Reads (push_value fuel t v) body a
    → Reads (unpack_one (suc fuel)) (combine_type t v ∷ body) a
unfolding unpack_one
first_byte fuel t v body a low r rest =
    ap (λ y. push_value fuel y (combine_type t v / 2 ^ 3) (body ++ rest)) (type_of t v low)
    ∙ ap (λ c. push_value fuel t c (body ++ rest)) (cookie_of t v low)
    ∙ r rest

push_value-scalar :
    (fuel t v : ℕ) (l : List ℕ) → t < 6 → push_value (suc fuel) t v l ≡ get_scalar t v l
unfolding unpack_one
push_value-scalar fuel t v l low = rw (==_ne t 6 (omega arith)) refl

scalar :
    (fuel t v : ℕ) (body : List ℕ) (a : Value)
    → t < 6
    → Reads (get_scalar t v) body a
    → Reads (unpack_one (suc (suc fuel))) (combine_type t v ∷ body) a
scalar fuel t v body a low r = first_byte (suc fuel) t v body a (omega arith) known
  where
    known : Reads (push_value (suc fuel) t v) body a
    known rest = push_value-scalar fuel t v (body ++ rest) low ∙ r rest

module _ (fuel : ℕ) where
  pub nil-Reads : Reads (unpack_one (suc (suc fuel))) (0 ∷ []) nil
  nil-Reads = scalar fuel 0 0 [] nil (omega arith) (unfold get_scalar in λ rest. refl)

  pub boolean-Reads :
      (x : Bool)
      → Reads (unpack_one (suc (suc fuel))) (combine_type 1 (if x then 1 else 0) ∷ []) (boolean x)
  unfolding get_scalar
  boolean-Reads true = scalar fuel 1 1 [] (boolean true) (omega arith) (λ rest. refl)
  boolean-Reads false = scalar fuel 1 0 [] (boolean false) (omega arith) (λ rest. refl)

  pub real-Reads :
      (v : ℕ)
      → v < 2 ^ 64
      → Reads (unpack_one (suc (suc fuel))) (combine_type 2 8 ∷ le_bytes 8 v) (real v)
  unfolding get_scalar
  real-Reads v lt =
      scalar fuel 2 8 (le_bytes 8 v) (real v) (omega arith)
        (word-Reads 8 v real (real v) (ap real (omega (arith, word_8 v))))

  pub light_userdata-Reads :
      (v : ℕ)
      → v < 2 ^ 64
      → Reads (unpack_one (suc (suc fuel))) (3 ∷ le_bytes 8 v) (light_userdata v)
  unfolding get_scalar
  light_userdata-Reads v lt = scalar fuel 3 0 (le_bytes 8 v) (light_userdata v) (omega arith) (
      word-Reads 8 v light_userdata (light_userdata v)
        (ap light_userdata (omega (arith, word_8 v))))

  pub integer-Reads :
      (v : ℕ)
      → v < 2 ^ 64
      → Reads (unpack_one (suc (suc fuel))) (flat (integer_pieces v)) (integer v)
  unfolding get_scalar
  integer-Reads v lt =
      subst (λ l. Reads (unpack_one (suc (suc fuel))) l (integer v)) (sym form.split)
        (scalar fuel 2 form.cookie form.body (integer v) (omega arith) number)
    where
      form : IntegerForm v (flat (integer_pieces v))
      form = integer_pieces-IntegerForm v lt

      number : Reads (get_scalar 2 form.cookie) form.body (integer v)
      number rest =
          rw (form.no_real)
            (Reads-map (get_integer form.cookie) integer form.body v form.reads rest)

short_text :
    (str : List ℕ)
    → 0 < length str
    → length str < max_cookie
    → string_pieces str ≡ (combine_type 4 (length str) ∷ []) ∷ str ∷ []
unfolding string_pieces
short_text str pos lt =
    rw (string_pieces, lt→ltb (length str) max_cookie lt, lt→ltb 0 (length str) pos) refl

medium_text :
    (str : List ℕ)
    → max_cookie ≤ length str
    → length str < 2 ^ 16
    → string_pieces str ≡ (combine_type 5 2 ∷ []) ∷ le_bytes 2 (length str) ∷ str ∷ []
unfolding string_pieces
medium_text str le lt =
    rw (string_pieces, le→ltb (length str) max_cookie le, lt→ltb (length str) 0x1_0000 lt) refl

long_text :
    (str : List ℕ)
    → 2 ^ 16 ≤ length str
    → string_pieces str ≡ (combine_type 5 4 ∷ []) ∷ le_bytes 4 (length str) ∷ str ∷ []
unfolding string_pieces
long_text str le =
    rw
      (string_pieces, le→ltb (length str) max_cookie (omega arith), le→ltb (length str) 0x1_0000 le)
      refl

text_of :
    (str : List ℕ) (n : ℕ)
    → n ≡ length str
    → Reads (rb_read n >>= λ s. pure (text s)) str (text str)
text_of str n e = Reads-map (rb_read n) text str str (rb_read-Reads str n e)

medium_read :
    (str : List ℕ)
    → length str < 2 ^ 16
    → Reads (get_scalar 5 2) (le_bytes 2 (length str) ++ (str ++ [])) (text str)
unfolding get_scalar
medium_read str lt =
    Reads-bind (rb_read 2) (λ n. rb_read (le_word n) >>= λ s. pure (text s))
      (le_bytes 2 (length str)) (str ++ []) (le_bytes 2 (length str)) (text str)
      (rb_read-Reads (le_bytes 2 (length str)) 2 refl)
      (subst
        (λ l.
          Reads (rb_read (le_word (le_bytes 2 (length str))) >>= λ s. pure (text s)) l (text str))
        (sym (append-nil str))
        (text_of str (le_word (le_bytes 2 (length str))) (omega (arith, word_2 (length str)))))

get_buffer-small : (n : ℕ) → n < 2 ^ 31 → get_buffer n ≡ rb_read n
unfolding get_buffer
get_buffer-small n lt = rw (get_buffer, lt→leb (2 ^ 31) n lt) refl

long_read :
    (str : List ℕ)
    → length str < 2 ^ 31
    → Reads (get_scalar 5 4) (le_bytes 4 (length str) ++ (str ++ [])) (text str)
unfolding get_scalar get_buffer
long_read str lt =
    Reads-bind (rb_read 4) (λ n. get_buffer (le_word n) >>= λ s. pure (text s))
      (le_bytes 4 (length str)) (str ++ []) (le_bytes 4 (length str)) (text str)
      (rb_read-Reads (le_bytes 4 (length str)) 4 refl)
      (subst
        (λ l.
          Reads (get_buffer (le_word (le_bytes 4 (length str))) >>= λ s. pure (text s)) l
            (text str))
        (sym (append-nil str))
        (subst (λ m. Reads (m >>= λ s. pure (text s)) str (text str)) (sym whole)
          (text_of str (le_word (le_bytes 4 (length str))) word)))
  where
    word : le_word (le_bytes 4 (length str)) ≡ length str
    word = omega (arith, word_4 (length str))

    whole :
        get_buffer (le_word (le_bytes 4 (length str))) ≡ rb_read (le_word (le_bytes 4 (length str)))
    whole = get_buffer-small (le_word (le_bytes 4 (length str))) (omega (arith, word))

text_at :
    (fuel : ℕ) (str : List ℕ) (ps : List (List ℕ))
    → string_pieces str ≡ ps
    → Reads (unpack_one (suc (suc fuel))) (flat ps) (text str)
    → Reads (unpack_one (suc (suc fuel))) (flat (string_pieces str)) (text str)
text_at fuel str ps e r =
    subst (λ l. Reads (unpack_one (suc (suc fuel))) (flat l) (text str)) (sym e) r

pub text-Reads :
    (fuel : ℕ) (str : List ℕ)
    → length str < 2 ^ 31
    → Reads (unpack_one (suc (suc fuel))) (flat (string_pieces str)) (text str)
unfolding string_pieces get_scalar
text-Reads fuel [] lt = scalar fuel 4 0 [] (text []) (omega arith) (text_of [] 0 refl)
text-Reads fuel (c ∷ str) lt = elim (dec_lt (length (c ∷ str)) max_cookie) [
  | yes small ↦ text_at fuel (c ∷ str) _ (short_text (c ∷ str) (omega arith) small) (
      scalar fuel 4 (length (c ∷ str)) ((c ∷ str) ++ []) (text (c ∷ str)) (omega arith) (
        subst (λ l. Reads (get_scalar 4 (length (c ∷ str))) l (text (c ∷ str)))
          (sym (append-nil (c ∷ str))) (text_of (c ∷ str) (length (c ∷ str)) refl)))
  | no big ↦ elim (dec_lt (length (c ∷ str)) (2 ^ 16)) [
    | yes half ↦ text_at fuel (c ∷ str) _ (medium_text (c ∷ str) (omega arith) half) (
        scalar fuel 5 2 (le_bytes 2 (length (c ∷ str)) ++ ((c ∷ str) ++ [])) (text (c ∷ str))
          (omega arith) (medium_read (c ∷ str) half))
    | no more ↦ text_at fuel (c ∷ str) _ (long_text (c ∷ str) (omega arith)) (
        scalar fuel 5 4 (le_bytes 4 (length (c ∷ str)) ++ ((c ∷ str) ++ [])) (text (c ∷ str))
          (omega arith) (long_read (c ∷ str) lt))
  ]
]
