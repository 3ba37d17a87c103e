-- ===== src/Seri/Head.antt =====
-- The head of a table: `wb_table_array` of lua-seri.c against the head of `unpack_table`.
use ddzproject.Prelude.{
  ℕ, ◌-◌, ◌/◌, ◌%◌, ◌^◌, ◌≤◌, ◌<◌, ◌≡◌, refl, ap, ◌∙◌, subst, false, List, [], ◌∷◌, ◌==◌,
  if◌then◌else◌, bit_and, arith, le→leb, lt→leb, ==_ne,
}
use native.Mathlib.Decide.{dec_lt}
use ddzproject.Seri.{combine_type, integer_pieces, array_pieces, max_cookie}
use ddzproject.Seri.Unpack.{
  unpacked, invalid, Reader, ◌>>=◌, pure, rb_read, le_word, get_integer, rounds, get_array_size,
}
use ddzproject.Seri.Spec.{flat}
use ddzproject.Seri.Integer.{
  Reads, Reads-bind, Reads-map, rb_read-Reads, type_of, cookie_of, integer_pieces-IntegerForm,
}

pub record HeadForm (n : ℕ) : Type 0 where
  pub cookie : ℕ
  pub body : List ℕ
  pub split : flat (array_pieces n) ≡ combine_type 6 cookie ∷ body
  pub reads : Reads (get_array_size cookie) body n

long_array :
    (n : ℕ)
    → max_cookie - 1 ≤ n
    → array_pieces n ≡ (combine_type 6 (max_cookie - 1) ∷ []) ∷ integer_pieces n
unfolding array_pieces
long_array n le = rw (array_pieces, le→leb (max_cookie - 1) n le) refl

short_array : (n : ℕ) → n < max_cookie - 1 → array_pieces n ≡ (combine_type 6 n ∷ []) ∷ []
unfolding array_pieces
short_array n lt = rw (array_pieces, lt→leb (max_cookie - 1) n lt) refl

rounds-small : (n : ℕ) → n < 2 ^ 31 → rounds n ≡ n
rounds-small n lt = rw (lt→leb (2 ^ 31) (n % 2 ^ 32) (omega arith)) (omega arith)

-- The reader of an array size after its type byte.
size_after : ℕ → Reader ℕ
size_after t =
    if bit_and t 7 == 2
    then if t / 2 ^ 3 == 8
      then (λ rb. invalid)
      else (do n ← get_integer (t / 2 ^ 3); pure (rounds n))
    else (λ rb. invalid)

size_after-Reads :
    (n c : ℕ) (body : List ℕ)
    → n < 2 ^ 31
    → (c == 8) ≡ false
    → Reads (get_integer c) body n
    → Reads (size_after (combine_type 2 c)) body n
unfolding size_after
size_after-Reads n c body lt ne r rest =
    rw (size_after, type_of 2 c (omega arith), cookie_of 2 c (omega arith), ne)
      (Reads-map (get_integer c) rounds body n r rest
        ∙ ap (λ (k : ℕ). unpacked (k, rest)) (rounds-small n lt))

long_size :
    (n c : ℕ) (body : List ℕ)
    → n < 2 ^ 31
    → (c == 8) ≡ false
    → Reads (get_integer c) body n
    → Reads (get_array_size (max_cookie - 1)) (combine_type 2 c ∷ body) n
unfolding get_array_size size_after
long_size n c body lt ne r =
    Reads-bind (rb_read 1) (λ b. size_after (le_word b)) (combine_type 2 c ∷ []) body
      (combine_type 2 c ∷ []) n (rb_read-Reads (combine_type 2 c ∷ []) 1 refl)
      (subst (λ (t : ℕ). Reads (size_after t) body n) {x = combine_type 2 c}
        {y = le_word (combine_type 2 c ∷ [])} (omega arith) (size_after-Reads n c body lt ne r))

pub short_size : (n : ℕ) → n < max_cookie - 1 → Reads (get_array_size n) [] n
unfolding get_array_size
short_size n lt rest = rw (get_array_size, ==_ne n (max_cookie - 1) (omega arith)) refl

pub array_pieces-HeadForm : (n : ℕ) → n < 2 ^ 31 → HeadForm n
array_pieces-HeadForm n lt = elim (dec_lt n (max_cookie - 1)) [
  | yes small ↦ record {
    cookie = n;
    body = [];
    split = ap flat (short_array n small);
    reads = short_size n small;
  }
  | no big ↦
      let form = integer_pieces-IntegerForm n (omega arith) in
      record {
        cookie = max_cookie - 1;
        body = combine_type 2 form.cookie ∷ form.body;
        split =
            ap flat (long_array n (omega arith))
            ∙ ap (λ l. combine_type 6 (max_cookie - 1) ∷ l) form.split;
        reads = long_size n form.cookie form.body lt form.no_real form.reads;
      }
]
