-- ===== src/Seri/Tests.antt =====
-- Runs of lua-seri.c, and its theorems at concrete values.
use ddzproject.Prelude.{
  ℕ, ◌≡◌, ◌≢◌, ◌^◌, ◌-◌, refl, true, false, some, List, [], ◌∷◌, map, All, arith,
}
use ddzproject.Seri.{
  Value, nil, boolean, integer, text, table, paired, other, no_items, item, no_pairs, pair, packed,
  unsupported, luaseri_pack, pack_one, pack_from, seri, in_array, size_of, integer_pieces,
  string_pieces, array_pieces, push_all, wb_push, fill_blocks, next_block, copy_in,
}
use ddzproject.Seri.Unpack.{
  unpacked, invalid, outside, out_of_fuel, luaseri_unpack, unpack_all, unpack_one, get_scalar,
  get_integer, get_buffer, get_array_size, rb_read,
}
use ddzproject.Seri.Spec.{Fits, received}
use ddzproject.Seri.Pack.{encode_all, luaseri_pack_lem}
use ddzproject.Seri.Roundtrip.{luaseri_unpack-luaseri_pack}
use ddzproject.Seri.Fuel.{luaseri_unpack-Returns}

-- `{ 7, "hi", name = -1, sub = {} }`, whose entries 1 and 2 stand in the array.
abbrev hand : Value
hand = table (item (integer 7) (item (text (104 ∷ 105 ∷ [])) no_items)) (
    pair (integer 1) (integer 7) (
      pair (integer 2) (text (104 ∷ 105 ∷ [])) (
        pair (text (110 ∷ [])) (integer (2 ^ 64 - 1))
          (pair (text (115 ∷ [])) (table no_items no_pairs) no_pairs))))

abbrev message : List Value
message = nil ∷ boolean true ∷ integer 300 ∷ hand ∷ paired (pair (boolean false) nil no_pairs) ∷ []

hand-Fits : Fits 0 hand
unfolding Fits in_array size_of
hand-Fits = (
  omega arith,
  (
    omega arith,
    (
      ((omega arith, omega arith), ((omega arith, omega arith), tt)),
      (
        (omega arith, omega arith),
        (
          (λ e. cc),
          (
            (omega arith, omega arith),
            ((omega arith, omega arith), ((λ e. cc), ((omega arith, (omega arith, (tt, tt))), tt))),
          ),
        ),
      ),
    ),
  ),
)

message-Fits : All (λ v. Fits 0 v) message
unfolding Fits in_array size_of
message-Fits = (
  omega arith,
  (
    omega arith,
    (
      (omega arith, omega arith),
      (hand-Fits, ((omega arith, (omega arith, ((λ e. cc), (omega arith, tt)))), tt)),
    ),
  ),
)

luaseri_pack_lem_example : luaseri_pack message ≡ packed (some (encode_all message))
luaseri_pack_lem_example = luaseri_pack_lem message message-Fits

luaseri_unpack-luaseri_pack_example :
    (bytes : List ℕ) × ((luaseri_pack message ≡ packed (some bytes))
      × (luaseri_unpack bytes ≡ unpacked (map received message)))
luaseri_unpack-luaseri_pack_example = luaseri_unpack-luaseri_pack message message-Fits

-- A table that breaks off, with a long array size.
abbrev cut_short : List ℕ
cut_short = 254 ∷ 10 ∷ 100 ∷ 0 ∷ 36 ∷ 65 ∷ []

luaseri_unpack-Returns_example : luaseri_unpack cut_short ≢ out_of_fuel
luaseri_unpack-Returns_example = luaseri_unpack-Returns cut_short (omega arith)

cut_message : luaseri_unpack cut_short ≡ invalid
unfolding luaseri_unpack unpack_all unpack_one get_scalar get_integer get_buffer get_array_size
    rb_read
cut_message = refl

bytes_of_hand :
    luaseri_pack (hand ∷ [])
    ≡ packed (
        some (
          22 ∷ 10 ∷ 7 ∷ 20 ∷ 104 ∷ 105 ∷ 12 ∷ 110 ∷ 34 ∷ 255 ∷ 255 ∷ 255 ∷ 255 ∷ 12 ∷ 115 ∷ 6 ∷ 0
          ∷ 0 ∷ []))
unfolding luaseri_pack pack_from pack_one seri in_array size_of integer_pieces string_pieces
    array_pieces push_all wb_push fill_blocks next_block copy_in
bytes_of_hand = refl

no_function : luaseri_pack (table (item other no_items) no_pairs ∷ []) ≡ unsupported
unfolding luaseri_pack pack_from pack_one size_of array_pieces push_all wb_push fill_blocks
    next_block copy_in
no_function = refl

-- A length that is a negative `int` passes the test of `rb_read`.
long_length : luaseri_unpack (37 ∷ 0 ∷ 0 ∷ 0 ∷ 128 ∷ []) ≡ outside
unfolding luaseri_unpack unpack_all unpack_one get_scalar get_integer get_buffer get_array_size
    rb_read
long_length = refl
