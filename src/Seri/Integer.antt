-- ===== src/Seri/Integer.antt =====
-- The words of lua-seri.c, their bytes and the first byte of a value.
use ddzproject.Prelude.{
  ℕ, zero, suc, ◌+◌, ◌-◌, ◌*◌, ◌/◌, ◌%◌, ◌^◌, ◌≤◌, ◌<◌, ◌≡◌, refl, sym, ap, ◌∙◌, subst, false, List,
  [], ◌∷◌, ◌++◌, length, ◌==◌, bit_and, arith, append_assoc, length-append, append-nil, ==_ne,
  take-append_self, drop-append_self, le→ltb, lt→ltb, le→leb, lt→leb,
}
use ddzproject.Prelude.Bits.{bit_and_mask, bit_or_low}
use native.Mathlib.Decide.{dec_lt}
use ddzproject.Seri.{combine_type, le_bytes, integer_pieces}
use ddzproject.Seri.Unpack.{
  unpacked, invalid, outside, out_of_fuel, Reader, ◌>>=◌, pure, rb_read, le_word, sign_extend,
  get_integer,
}
use ddzproject.Seri.Spec.{flat}

-- The reader takes these bytes, whatever comes after them, and gives the value.
abbrev pub Reads : {A : Type 0} → Reader A → List ℕ → A → Type 0
Reads m bytes a = (rest : List ℕ) → m (bytes ++ rest) ≡ unpacked (a, rest)

pub Reads-bind :
    {A B : Type 0} (m : Reader A) (f : A → Reader B) (xs ys : List ℕ) (a : A) (b : B)
    → Reads m xs a
    → Reads (f a) ys b
    → Reads (m >>= f) (xs ++ ys) b
Reads-bind m f xs ys a b h k rest =
    ap (λ l. (m >>= f) l) (append_assoc xs ys rest)
    ∙ ap
        (λ r. elim r [
          | unpacked (a, rest) ↦ f a rest
          | invalid ↦ invalid
          | outside ↦ outside
          | out_of_fuel ↦ out_of_fuel
        ])
        (h (ys ++ rest))
    ∙ k rest

pub Reads-map :
    {A B : Type 0} (m : Reader A) (g : A → B) (xs : List ℕ) (a : A)
    → Reads m xs a
    → Reads (m >>= λ x. pure (g x)) xs (g a)
Reads-map m g xs a h rest =
    ap
      (λ r. elim r [
        | unpacked (a, rest) ↦ unpacked (g a, rest)
        | invalid ↦ invalid
        | outside ↦ outside
        | out_of_fuel ↦ out_of_fuel
      ])
      (h rest)

pub rb_read-Reads : (xs : List ℕ) (n : ℕ) → n ≡ length xs → Reads (rb_read n) xs xs
unfolding rb_read
rb_read-Reads xs n e rest =
    rw
      (
        rb_read,
        le→ltb (length (xs ++ rest)) n (omega (arith, length-append xs rest, e)),
        take-append_self xs rest n e,
        drop-append_self xs rest n e,
      )
      refl

length-le_bytes : (n x : ℕ) → length (le_bytes n x) ≡ n
length-le_bytes zero x = refl
length-le_bytes (suc n) x = ap suc (length-le_bytes n (x / 256))

word_1 : (x : ℕ) → le_word (le_bytes 1 x) ≡ x % 2 ^ 8
word_1 x = omega arith

pub word_2 : (x : ℕ) → le_word (le_bytes 2 x) ≡ x % 2 ^ 16
word_2 x = omega arith

pub word_4 : (x : ℕ) → le_word (le_bytes 4 x) ≡ x % 2 ^ 32
word_4 x = omega arith

pub word_8 : (x : ℕ) → le_word (le_bytes 8 x) ≡ x % 2 ^ 64
word_8 x = omega arith

pub word-Reads :
    {A : Type 0} (n x : ℕ) (g : ℕ → A) (a : A)
    → g (le_word (le_bytes n x)) ≡ a
    → Reads (rb_read n >>= λ w. pure (g (le_word w))) (le_bytes n x) a
word-Reads n x g a e =
    subst (λ z. Reads (rb_read n >>= λ w. pure (g (le_word w))) (le_bytes n x) z) e
      (Reads-map (rb_read n) (λ w. g (le_word w)) (le_bytes n x) (le_bytes n x)
        (rb_read-Reads (le_bytes n x) n (sym (length-le_bytes n x))))

-- The first byte of a value gives the type and the cookie back.
module _ (t v : ℕ) (low : t < 2 ^ 3) where
  combined : combine_type t v ≡ t + v * 2 ^ 3
  combined = bit_or_low 3 v t low

  pub type_of : bit_and (combine_type t v) 7 ≡ t
  type_of = bit_and_mask 3 (combine_type t v) ∙ omega (arith, combined)

  pub cookie_of : combine_type t v / 2 ^ 3 ≡ v
  cookie_of = omega (arith, combined)

-- `wb_integer` writes a type byte, and as many bytes as `get_integer` reads for its cookie.
pub record IntegerForm (v : ℕ) (bytes : List ℕ) : Type 0 where
  pub cookie : ℕ
  pub body : List ℕ
  pub split : bytes ≡ combine_type 2 cookie ∷ body
  pub no_real : (cookie == 8) ≡ false
  pub reads : Reads (get_integer cookie) body v

form_of :
    (v c n : ℕ) (low : (c == 8) ≡ false)
    → Reads (get_integer c) (le_bytes n v) v
    → IntegerForm v (flat ((combine_type 2 c ∷ []) ∷ le_bytes n v ∷ []))
form_of v c n low r = record {
  cookie = c;
  body = le_bytes n v;
  split = ap (λ l. combine_type 2 c ∷ l) (append-nil (le_bytes n v));
  no_real = low;
  reads = r;
}

sign_extend_small : (v w : ℕ) → w ≡ v → v < 2 ^ 31 → sign_extend w ≡ v
sign_extend_small v w e lt = ap sign_extend e ∙ rw (lt→leb (2 ^ 31) v lt) refl

sign_extend_negative :
    (v w : ℕ) → w ≡ v % 2 ^ 32 → v < 2 ^ 64 → 2 ^ 64 - 2 ^ 31 ≤ v → sign_extend w ≡ v
sign_extend_negative v w e lt le =
    ap sign_extend e ∙ rw (le→leb (2 ^ 31) (v % 2 ^ 32) (omega arith)) (omega arith)

four_bytes :
    (v : ℕ) → sign_extend (le_word (le_bytes 4 v)) ≡ v → Reads (get_integer 4) (le_bytes 4 v) v
unfolding get_integer
four_bytes v e = word-Reads 4 v sign_extend v e

module _ (v : ℕ) (positive : 0 < v) where
  wide :
      2 ^ 31 ≤ v
      → v < 2 ^ 64 - 2 ^ 31
      → integer_pieces v ≡ (combine_type 2 6 ∷ []) ∷ le_bytes 8 v ∷ []
  unfolding integer_pieces
  wide le lt =
      rw
        (
          integer_pieces,
          ==_ne v 0 (omega arith),
          le→leb (2 ^ 31) v le,
          lt→ltb v (2 ^ 64 - 2 ^ 31) lt,
        )
        refl

  negative : 2 ^ 64 - 2 ^ 31 ≤ v → integer_pieces v ≡ (combine_type 2 4 ∷ []) ∷ le_bytes 4 v ∷ []
  unfolding integer_pieces
  negative le =
      rw
        (
          integer_pieces,
          ==_ne v 0 (omega arith),
          le→leb (2 ^ 31) v (omega arith),
          le→ltb v (2 ^ 64 - 2 ^ 31) le,
          le→leb (2 ^ 63) v (omega arith),
        )
        refl

  byte : v < 2 ^ 8 → integer_pieces v ≡ (combine_type 2 1 ∷ []) ∷ le_bytes 1 v ∷ []
  unfolding integer_pieces
  byte lt =
      rw
        (
          integer_pieces,
          ==_ne v 0 (omega arith),
          lt→leb (2 ^ 31) v (omega arith),
          lt→leb (2 ^ 63) v (omega arith),
          lt→ltb v 0x100 lt,
        )
        refl

  half : 2 ^ 8 ≤ v → v < 2 ^ 16 → integer_pieces v ≡ (combine_type 2 2 ∷ []) ∷ le_bytes 2 v ∷ []
  unfolding integer_pieces
  half le lt =
      rw
        (
          integer_pieces,
          ==_ne v 0 (omega arith),
          lt→leb (2 ^ 31) v (omega arith),
          lt→leb (2 ^ 63) v (omega arith),
          le→ltb v 0x100 le,
          lt→ltb v 0x1_0000 lt,
        )
        refl

  full : 2 ^ 16 ≤ v → v < 2 ^ 31 → integer_pieces v ≡ (combine_type 2 4 ∷ []) ∷ le_bytes 4 v ∷ []
  unfolding integer_pieces
  full le lt =
      rw
        (
          integer_pieces,
          ==_ne v 0 (omega arith),
          lt→leb (2 ^ 31) v lt,
          lt→leb (2 ^ 63) v (omega arith),
          le→ltb v 0x100 (omega arith),
          le→ltb v 0x1_0000 le,
        )
        refl

form_at :
    (v : ℕ) (ps qs : List (List ℕ)) → ps ≡ qs → IntegerForm v (flat qs) → IntegerForm v (flat ps)
form_at v ps qs e f = subst (λ l. IntegerForm v (flat l)) (sym e) f

small_form : (v : ℕ) → 0 < v → v < 2 ^ 31 → IntegerForm v (flat (integer_pieces v))
unfolding get_integer
small_form v positive small = elim (dec_lt v (2 ^ 8)) [
  | yes b ↦
      form_at v _ _ (byte v positive b)
        (form_of v 1 1 refl (word-Reads 1 v (λ w. w) v (omega (arith, word_1 v))))
  | no b ↦ elim (dec_lt v (2 ^ 16)) [
    | yes h ↦
        form_at v _ _ (half v positive (omega arith) h)
          (form_of v 2 2 refl (word-Reads 2 v (λ w. w) v (omega (arith, word_2 v))))
    | no h ↦ form_at v _ _ (full v positive (omega arith) small) (
        form_of v 4 4 refl (
          four_bytes v
            (sign_extend_small v (le_word (le_bytes 4 v)) (omega (arith, word_4 v)) small)))
  ]
]

pub integer_pieces-IntegerForm : (v : ℕ) → v < 2 ^ 64 → IntegerForm v (flat (integer_pieces v))
unfolding integer_pieces get_integer
integer_pieces-IntegerForm zero lt = record {
  cookie = 0;
  body = [];
  split = refl;
  no_real = refl;
  reads = λ rest. refl;
}
integer_pieces-IntegerForm (suc n) lt = elim (dec_lt (suc n) (2 ^ 31)) [
  | yes small ↦ small_form (suc n) (omega arith) small
  | no big ↦ elim (dec_lt (suc n) (2 ^ 64 - 2 ^ 31)) [
    | yes low ↦ form_at (suc n) _ _ (wide (suc n) (omega arith) (omega arith) low) (
        form_of (suc n) 6 8 refl
          (word-Reads 8 (suc n) (λ w. w) (suc n) (omega (arith, word_8 (suc n)))))
    | no high ↦ form_at (suc n) _ _ (negative (suc n) (omega arith) (omega arith)) (
        form_of (suc n) 4 4 refl
          (four_bytes (suc n) (sign_extend_negative (suc n) _ (word_4 (suc n)) lt (omega arith))))
  ]
]
