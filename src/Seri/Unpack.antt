-- ===== src/Seri/Unpack.antt =====
-- The reading half of lua-seri.c. `struct read_block` is the list of the bytes from `ptr` on. A table is
-- unpacked to the values that `lua_rawseti` and `lua_rawset` are called with; Lua's own limits of its
-- stack and memory are not modelled.
use ddzproject.Prelude.{
  ℕ, zero, suc, ◌+◌, ◌-◌, ◌*◌, ◌/◌, ◌%◌, ◌^◌, List, [], ◌∷◌, take, drop, length, ltb, leb, ◌==◌,
  if◌then◌else◌, bit_and, not,
}
use ddzproject.Seri.{
  Value, nil, boolean, integer, real, light_userdata, text, table, Items, no_items, item, Pairs,
  no_pairs, pair, max_cookie,
}

-- `invalid` is the error of `invalid_stream`; `outside` is a read with a negative length, which leaves the
-- buffer.
pub data Unpacked {ℓ} (A : Type ℓ) : Type ℓ where
  unpacked : A → Unpacked A
  invalid : Unpacked A
  outside : Unpacked A
  out_of_fuel : Unpacked A

abbrev pub Reader : Type 0 → Type 0
Reader A = List ℕ → Unpacked (A × List ℕ)

infixl 5 ◌>>=◌
abbrev pub ◌>>=◌ : {A B : Type 0} → Reader A → (A → Reader B) → Reader B
◌>>=◌ m f rb = elim (m rb) [
  | unpacked (a, rest) ↦ f a rest
  | invalid ↦ invalid
  | outside ↦ outside
  | out_of_fuel ↦ out_of_fuel
]

abbrev pub pure : {A : Type 0} → A → Reader A
pure a rb = unpacked (a, rb)

-- `rb_read`, whose NULL every caller takes for an invalid stream.
unfoldable pub rb_read : ℕ → Reader (List ℕ)
rb_read sz rb = if ltb (length rb) sz then invalid else unpacked (take sz rb, drop sz rb)

-- A word from its bytes, the lowest first.
abbrev pub le_word : List ℕ → ℕ
le_word [] = 0
le_word (b ∷ bs) = b + le_word bs * 256

-- An `int32_t` as a `lua_Integer`.
abbrev pub sign_extend : ℕ → ℕ
sign_extend n = if leb (2 ^ 31) n then n + (2 ^ 64 - 2 ^ 32) else n

unfoldable pub get_integer : ℕ → Reader ℕ
get_integer cookie =
    if cookie == 0
    then pure 0
    else if cookie == 1
    then (do n ← rb_read 1; pure (le_word n))
    else if cookie == 2
    then (do n ← rb_read 2; pure (le_word n))
    else if cookie == 4
    then (do n ← rb_read 4; pure (sign_extend (le_word n)))
    else if cookie == 6
    then (do n ← rb_read 8; pure (le_word n))
    else (λ rb. invalid)

-- The read of `get_buffer`, whose length is an `int`.
unfoldable pub get_buffer : ℕ → Reader (List ℕ)
get_buffer len = if leb (2 ^ 31) len then (λ rb. outside) else rb_read len

-- The tests of `push_value` on what is no table.
unfoldable pub get_scalar : ℕ → ℕ → Reader Value
get_scalar type cookie =
    if type == 0
    then pure nil
    else if type == 1
    then pure (boolean (not (cookie == 0)))
    else if type == 2
    then if cookie == 8
      then (do n ← rb_read 8; pure (real (le_word n)))
      else (do n ← get_integer cookie; pure (integer n))
    else if type == 3
    then (do n ← rb_read 8; pure (light_userdata (le_word n)))
    else if type == 4
    then (do str ← rb_read cookie; pure (text str))
    else if type == 5
    then if cookie == 2
      then (do n ← rb_read 2; str ← rb_read (le_word n); pure (text str))
      else if cookie == 4
      then (do n ← rb_read 4; str ← get_buffer (le_word n); pure (text str))
      else (λ rb. invalid)
    else (λ rb. invalid)

-- The `int` that an array size is cut to, and the rounds of a loop up to it.
abbrev pub rounds : ℕ → ℕ
rounds v = if leb (2 ^ 31) (v % 2 ^ 32) then 0 else v % 2 ^ 32

-- The head of `unpack_table`.
unfoldable pub get_array_size : ℕ → Reader ℕ
get_array_size cookie =
    if cookie == max_cookie - 1
    then (do
      type ← rb_read 1
      let t = le_word type
      if bit_and t 7 == 2
          then if t / 2 ^ 3 == 8
            then (λ rb. invalid)
            else (do n ← get_integer (t / 2 ^ 3); pure (rounds n))
          else (λ rb. invalid))
    else pure cookie

-- `unpack_one`, `push_value` and `unpack_table`; each call costs a unit of fuel.
unfoldable mutual
  pub unpack_one : ℕ → Reader Value
  unpack_one zero rb = out_of_fuel
  unpack_one (suc fuel) [] = invalid
  unpack_one (suc fuel) (t ∷ rb) = push_value fuel (bit_and t 7) (t / 2 ^ 3) rb

  pub push_value : ℕ → ℕ → ℕ → Reader Value
  push_value zero type cookie rb = out_of_fuel
  push_value (suc fuel) type cookie rb =
      let whole =
        (do
          n ← get_array_size cookie
          items ← unpack_items fuel n
          pairs ← unpack_pairs fuel
          pure (table items pairs))
          rb in
      if type == 6 then whole else get_scalar type cookie rb

  pub unpack_items : ℕ → ℕ → Reader Items
  unpack_items zero n rb = out_of_fuel
  unpack_items (suc fuel) n rb =
      let more = (do v ← unpack_one fuel; vs ← unpack_items fuel (n - 1); pure (item v vs)) rb in
      if n == 0 then unpacked (no_items, rb) else more

  pub unpack_pairs : ℕ → Reader Pairs
  unpack_pairs zero rb = out_of_fuel
  unpack_pairs (suc fuel) rb = (do k ← unpack_one fuel; unpack_entry fuel k) rb

  -- The rest of a round of the second loop, and the loop after it.
  pub unpack_entry : ℕ → Value → Reader Pairs
  unpack_entry zero k rb = out_of_fuel
  unpack_entry (suc fuel) nil rb = unpacked (no_pairs, rb)
  unpack_entry (suc fuel) k rb =
      (do v ← unpack_one fuel; ps ← unpack_pairs fuel; pure (pair k v ps)) rb

-- The loop of `luaseri_unpack`, with fuel for each value.
unfoldable pub unpack_all : ℕ → List ℕ → Unpacked (List Value)
unpack_all zero rb = out_of_fuel
unpack_all (suc fuel) [] = unpacked []
unpack_all (suc fuel) (t ∷ rb) = elim (push_value fuel (bit_and t 7) (t / 2 ^ 3) rb) [
  | unpacked (v, rest) ↦ elim (unpack_all fuel rest) [
    | unpacked vs ↦ unpacked (v ∷ vs)
    | invalid ↦ invalid
    | outside ↦ outside
    | out_of_fuel ↦ out_of_fuel
  ]
  | invalid ↦ invalid
  | outside ↦ outside
  | out_of_fuel ↦ out_of_fuel
]

-- `luaseri_unpack`, of a string or of a buffer that is not NULL.
unfoldable pub luaseri_unpack : List ℕ → Unpacked (List Value)
luaseri_unpack bytes = unpack_all (4 * length bytes + 4) bytes
