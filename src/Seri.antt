-- ===== src/Seri.antt =====
-- Server/skynet/lualib-src/lua-seri.c: the serialisation of the values that services send to each other.
-- A Lua value is a data type; what Lua's own functions give of a table (`lua_rawlen`, `lua_rawgeti`,
-- `lua_next`, the calls of a `__pairs` metamethod) is the content of the value.
pub mod Unpack
pub mod Spec
pub mod Blocks
pub mod Pack
pub mod Integer
pub mod Reads
pub mod Head
pub mod Table
pub mod Roundtrip
pub mod Ends
pub mod Fuel
mod Tests
use ddzproject.Prelude.{
  ℕ, zero, suc, ◌+◌, ◌-◌, ◌*◌, ◌/◌, ◌%◌, ◌^◌, Bool, true, false, ◌&&◌, Option, none, some, List, [],
  ◌∷◌, ◌++◌, take, drop, length, ltb, leb, ◌==◌, if◌then◌else◌, bit_or,
}

-- An integer, a double and a pointer are their words of 64 bits; a string is the list of its bytes.
-- Lengths are taken for what an `int` holds, below 2^31.
-- `table` has the values at 1 to its length and the entries in the order of `lua_next`, those of the
-- array among them; `paired` is a table with `__pairs`, by what the calls give; `other` is a value of
-- any other type.
mutual
  pub data Value : Type 0 where
    nil : Value
    boolean : Bool → Value
    integer : ℕ → Value
    real : ℕ → Value
    light_userdata : ℕ → Value
    text : List ℕ → Value
    table : Items → Pairs → Value
    paired : Pairs → Value
    other : Value

  pub data Items : Type 0 where
    no_items : Items
    item : Value → Items → Items

  pub data Pairs : Type 0 where
    no_pairs : Pairs
    pair : Value → Value → Pairs → Pairs

abbrev pub max_cookie : ℕ
max_cookie = 32

abbrev pub block_size : ℕ
block_size = 128

abbrev pub max_depth : ℕ
max_depth = 32

-- `COMBINE_TYPE`.
abbrev pub combine_type : ℕ → ℕ → ℕ
combine_type t v = bit_or t (v * 2 ^ 3)

-- `struct write_block`: the blocks before the current one, and the bytes of that up to `ptr`. The C `len`
-- is an `int`; messages of 2 GB and more, which overflow it, are not modelled.
pub record WriteBlock : Type 0 where
  pub before : List (List ℕ)
  pub current : List ℕ
  pub len : ℕ

pub next_block : WriteBlock → WriteBlock
next_block b = record b { before = b.before ++ b.current ∷ []; current = [] }

pub copy_in : WriteBlock → List ℕ → WriteBlock
copy_in b bytes = record b { current = b.current ++ bytes; len = b.len + length bytes }

-- The loop of `wb_push` from the comparison on, with fuel.
pub fill_blocks : ℕ → WriteBlock → List ℕ → WriteBlock
fill_blocks zero b bytes = b
fill_blocks (suc fuel) b bytes =
    let copy = block_size - length b.current in
    let rest = fill_blocks fuel (next_block (copy_in b (take copy bytes))) (drop copy bytes) in
    if leb (length b.current + length bytes) block_size then copy_in b bytes else rest

pub wb_push : WriteBlock → List ℕ → WriteBlock
wb_push b bytes =
    fill_blocks (suc (length bytes)) (if length b.current == block_size then next_block b else b)
      bytes

-- The pushes of one value, in order.
pub push_all : WriteBlock → List (List ℕ) → WriteBlock
push_all b [] = b
push_all b (bytes ∷ more) = push_all (wb_push b bytes) more

-- The lowest `n` bytes of a word, the lowest first.
abbrev pub le_bytes : ℕ → ℕ → List ℕ
le_bytes zero x = []
le_bytes (suc n) x = x % 256 ∷ le_bytes n (x / 256)

-- `wb_integer`: the first test is whether the value is an `int32_t`.
pub integer_pieces : ℕ → List (List ℕ)
integer_pieces v =
    if v == 0
    then (combine_type 2 0 ∷ []) ∷ []
    else if leb (2 ^ 31) v && ltb v (2 ^ 64 - 2 ^ 31)
    then (combine_type 2 6 ∷ []) ∷ le_bytes 8 v ∷ []
    else if leb (2 ^ 63) v
    then (combine_type 2 4 ∷ []) ∷ le_bytes 4 v ∷ []
    else if ltb v 0x100
    then (combine_type 2 1 ∷ []) ∷ le_bytes 1 v ∷ []
    else if ltb v 0x1_0000
    then (combine_type 2 2 ∷ []) ∷ le_bytes 2 v ∷ []
    else (combine_type 2 4 ∷ []) ∷ le_bytes 4 v ∷ []

-- `wb_string`.
pub string_pieces : List ℕ → List (List ℕ)
string_pieces str =
    let len = length str in
    if ltb len max_cookie
    then if ltb 0 len then (combine_type 4 len ∷ []) ∷ str ∷ [] else (combine_type 4 len ∷ []) ∷ []
    else if ltb len 0x1_0000
    then (combine_type 5 2 ∷ []) ∷ le_bytes 2 len ∷ str ∷ []
    else (combine_type 5 4 ∷ []) ∷ le_bytes 4 len ∷ str ∷ []

-- The head of `wb_table_array`.
pub array_pieces : ℕ → List (List ℕ)
array_pieces array_size =
    if leb (max_cookie - 1) array_size
    then (combine_type 6 (max_cookie - 1) ∷ []) ∷ integer_pieces array_size
    else (combine_type 6 array_size ∷ []) ∷ []

pub size_of : Items → ℕ
size_of no_items = 0
size_of (item v vs) = suc (size_of vs)

-- An entry that the array has.
pub in_array : ℕ → Value → Bool
in_array array_size (integer x) = ltb x (2 ^ 63) && ltb 0 x && leb x array_size
in_array array_size _ = false

pub data Packed {ℓ} (A : Type ℓ) : Type ℓ where
  packed : A → Packed A
  too_deep : Packed A
  unsupported : Packed A

infixl 5 ◌>>=◌
abbrev pub ◌>>=◌ : {A B : Type 0} → Packed A → (A → Packed B) → Packed B
packed a >>= f = f a
too_deep >>= f = too_deep
unsupported >>= f = unsupported

abbrev pub check_depth : ℕ → Packed WriteBlock → Packed WriteBlock
check_depth depth r = if ltb max_depth depth then too_deep else r

-- `pack_one`, with `wb_table` and what it calls. No integer is in an array of size 0, so the entries of
-- `wb_table_metapairs` are packed like those of `wb_table_hash`.
mutual
  pub pack_one : Value → ℕ → WriteBlock → Packed WriteBlock
  pack_one nil depth b = check_depth depth (packed (push_all b ((0 ∷ []) ∷ [])))
  pack_one (boolean x) depth b =
      check_depth depth (packed (push_all b ((combine_type 1 (if x then 1 else 0) ∷ []) ∷ [])))
  pack_one (integer v) depth b = check_depth depth (packed (push_all b (integer_pieces v)))
  pack_one (real v) depth b =
      check_depth depth (packed (push_all b ((combine_type 2 8 ∷ []) ∷ le_bytes 8 v ∷ [])))
  pack_one (light_userdata v) depth b =
      check_depth depth (packed (push_all b ((3 ∷ []) ∷ le_bytes 8 v ∷ [])))
  pack_one (text str) depth b = check_depth depth (packed (push_all b (string_pieces str)))
  pack_one (table items pairs) depth b = check_depth depth (do
    b₁ ← pack_items items (depth + 1) (push_all b (array_pieces (size_of items)))
    b₂ ← pack_pairs (size_of items) pairs (depth + 1) b₁
    packed (push_all b₂ ((0 ∷ []) ∷ [])))
  pack_one (paired pairs) depth b = check_depth depth (do
    b₁ ← pack_pairs 0 pairs (depth + 1) (push_all b ((combine_type 6 0 ∷ []) ∷ []))
    packed (push_all b₁ ((0 ∷ []) ∷ [])))
  pack_one other depth b = check_depth depth unsupported

  pub pack_items : Items → ℕ → WriteBlock → Packed WriteBlock
  pack_items no_items depth b = packed b
  pack_items (item v vs) depth b = do b₁ ← pack_one v depth b; pack_items vs depth b₁

  pub pack_pairs : ℕ → Pairs → ℕ → WriteBlock → Packed WriteBlock
  pack_pairs array_size no_pairs depth b = packed b
  pack_pairs array_size (pair k v ps) depth b = elim (in_array array_size k) [
    | true ↦ pack_pairs array_size ps depth b
    | false ↦ do
      b₁ ← pack_one k depth b
      b₂ ← pack_one v depth b₁
      pack_pairs array_size ps depth b₂
  ]

-- `pack_from`.
pub pack_from : List Value → WriteBlock → Packed WriteBlock
pack_from [] b = packed b
pack_from (v ∷ vs) b = do b₁ ← pack_one v 0 b; pack_from vs b₁

-- The loop of `seri` over the blocks; `none` is the read of a block that is not there.
pub seri : List (List ℕ) → ℕ → Option (List ℕ)
seri [] len = if len == 0 then some [] else none
seri (b ∷ bs) len =
    let rest = seri bs (len - block_size) in
    if len == 0
    then some []
    else if leb block_size len
    then elim rest [ none ↦ none | some bytes ↦ some (take block_size b ++ bytes) ]
    else some (take len b)

abbrev pub wb_init : WriteBlock
wb_init = record { before = []; current = []; len = 0 }

-- `luaseri_pack`.
pub luaseri_pack : List Value → Packed (Option (List ℕ))
luaseri_pack vs = do b ← pack_from vs wb_init; packed (seri (b.before ++ b.current ∷ []) b.len)
