-- ===== src/Seri/Ends.antt =====
-- The readers of lua-seri.c that call no reader of values end, and give no bytes back.
use ddzproject.Prelude.{
  ℕ, ◌+◌, ◌≤◌, Bool, true, false, List, length, take, drop, ltb, if◌then◌else◌, arith, length-drop,
}
use ddzproject.Seri.Unpack.{
  Unpacked, unpacked, invalid, outside, out_of_fuel, Reader, ◌>>=◌, pure, rb_read, get_integer,
  get_buffer, get_scalar, get_array_size,
}

-- The reader ends, and of `n` bytes it takes `k` or more if it gives a value.
abbrev pub Settles : {A : Type 0} → ℕ → ℕ → Unpacked (A × List ℕ) → Type 0
Settles k n (unpacked (a, rest)) = k + length rest ≤ n
Settles k n invalid = Unit
Settles k n outside = Unit
Settles k n out_of_fuel = ⊥

abbrev pub Ends : {A : Type 0} → Reader A → Type 0
Ends m = (l : List ℕ) (n : ℕ) → length l ≤ n → Settles 0 n (m l)

pub Settles-bind :
    {A B : Type 0} (m : Reader A) (f : A → Reader B) (l : List ℕ) (j k n : ℕ)
    → Settles j n (m l)
    → ((a : A) (rest : List ℕ) → j + length rest ≤ n → Settles k n (f a rest))
    → Settles k n ((m >>= f) l)
Settles-bind m f l j k n h g =
    elim (m l)
        as (λ r.
          Settles j n r
          → Settles k n (elim r [
            | unpacked (a, rest) ↦ f a rest
            | invalid ↦ invalid
            | outside ↦ outside
            | out_of_fuel ↦ out_of_fuel
          ])) [
            | unpacked (a, rest) ↦ (λ le. g a rest le)
            | invalid ↦ (λ u. u)
            | outside ↦ (λ u. u)
            | out_of_fuel ↦ (λ u. u)
          ]
      h

pub Settles-weaken :
    {A : Type 0} (j k m n : ℕ) (r : Unpacked (A × List ℕ))
    → k + m ≤ j + n
    → Settles j m r
    → Settles k n r
Settles-weaken j k m n (unpacked (a, rest)) le h = omega arith
Settles-weaken j k m n invalid le h = tt
Settles-weaken j k m n outside le h = tt
Settles-weaken j k m n out_of_fuel le h = h

pub Settles-if :
    {A : Type 0} (b : Bool) (k n : ℕ) (x y : Unpacked (A × List ℕ))
    → Settles k n x
    → Settles k n y
    → Settles k n (if b then x else y)
Settles-if true k n x y h h' = h
Settles-if false k n x y h h' = h'

Ends-if : {A : Type 0} (b : Bool) (m m' : Reader A) → Ends m → Ends m' → Ends (if b then m else m')
Ends-if true m m' h h' = h
Ends-if false m m' h h' = h'

Ends-pure : {A : Type 0} (a : A) → Ends (pure a)
Ends-pure a l n le = omega arith

Ends-bind :
    {A B : Type 0} (m : Reader A) (f : A → Reader B)
    → Ends m
    → ((a : A) → Ends (f a))
    → Ends (m >>= f)
Ends-bind m f h g l n le =
    Settles-bind m f l 0 0 n (h l n le) (λ a rest le'. g a rest n (omega arith))

Ends-rb_read : (n : ℕ) → Ends (rb_read n)
unfolding rb_read
Ends-rb_read n l k le =
    Settles-if (ltb (length l) n) 0 k invalid (unpacked (take n l, drop n l)) tt
      (omega (arith, length-drop n l))

Ends-invalid : (A : Type 0) → Ends {A = A} (λ rb. invalid)
Ends-invalid A l n le = tt

Ends-outside : (A : Type 0) → Ends {A = A} (λ rb. outside)
Ends-outside A l n le = tt

ruleset readers = (Ends-if, Ends-bind, Ends-pure, Ends-rb_read, Ends-invalid, Ends-outside)

get_integer-Ends : (c : ℕ) → Ends (get_integer c)
unfolding get_integer
get_integer-Ends c = search readers depth 12

get_buffer-Ends : (n : ℕ) → Ends (get_buffer n)
unfolding get_buffer
get_buffer-Ends n = search readers depth 12

pub get_scalar-Ends : (t c : ℕ) → Ends (get_scalar t c)
unfolding get_scalar
get_scalar-Ends t c = search (readers, get_integer-Ends, get_buffer-Ends) depth 20 fits 20000

pub get_array_size-Ends : (c : ℕ) → Ends (get_array_size c)
unfolding get_array_size
get_array_size-Ends c = search (readers, get_integer-Ends) depth 14
