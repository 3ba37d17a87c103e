-- ===== src/Buffer.antt =====
-- Server/skynet/service-src/databuffer.h: the buffer of a connection of the gate, a chain of messages
-- that is read as one sequence of bytes. The cells of the chain come from a pool that is the
-- allocator's business, so a message is the list of its bytes. `none` is a failed assert, or the use of
-- a message that is not there. A header is an `int`, kept as its word of 32 bits.
pub mod Read
pub mod Header
mod Tests
use ddzproject.Prelude.{
  ℕ, zero, suc, ◌+◌, ◌-◌, ◌*◌, ◌^◌, Option, none, some, List, [], ◌∷◌, ◌++◌, take, drop, length,
  ltb, leb, ◌==◌, if◌then◌else◌, get_or, bit_or,
}

pub record DataBuffer : Type 0 where
  pub header : ℕ
  pub offset : ℕ
  pub size : ℕ
  pub messages : List (List ℕ)

-- The loop of `databuffer_read` on the offset and the chain, with `sz` bytes to go: the bytes, the new
-- offset and the chain that is left.
unfoldable pub read_messages : ℕ → ℕ → List (List ℕ) → Option (List ℕ × ℕ × List (List ℕ))
read_messages sz offset [] = none
read_messages sz offset (m ∷ ms) =
    let bsz = length m - offset in
    let rest = read_messages (sz - bsz) 0 ms in
    if ltb sz bsz
    then some (take sz (drop offset m), offset + sz, m ∷ ms)
    else if bsz == sz
    then some (take sz (drop offset m), 0, ms)
    else elim rest [
      | none ↦ none
      | some (bytes, o, left) ↦ some (take bsz (drop offset m) ++ bytes, o, left)
    ]

-- `databuffer_read`.
unfoldable pub databuffer_read : DataBuffer → ℕ → Option (List ℕ × DataBuffer)
databuffer_read db sz =
    if ltb db.size sz then none else elim (read_messages sz db.offset db.messages) [
      | none ↦ none
      | some (bytes, o, left) ↦
          some (bytes, record db { size = db.size - sz; offset = o; messages = left })
    ]

-- `databuffer_push`.
unfoldable pub databuffer_push : DataBuffer → List ℕ → DataBuffer
databuffer_push db data_ = record db {
  size = db.size + length data_;
  messages = db.messages ++ data_ ∷ [];
}

-- The header of two or four bytes, the highest first.
unfoldable pub header_of : ℕ → List ℕ → ℕ
header_of header_size plen =
    if header_size == 2
    then bit_or (get_or plen 0 0 * 2 ^ 8) (get_or plen 1 0)
    else bit_or
        (bit_or (bit_or (get_or plen 0 0 * 2 ^ 24) (get_or plen 1 0 * 2 ^ 16))
          (get_or plen 2 0 * 2 ^ 8))
        (get_or plen 3 0)

-- What `databuffer_readheader` returns: the size of a packet that is whole, -1, or the header as a
-- negative `int`, here as its word of 32 bits.
pub data Ready : Type 0 where
  whole : ℕ → Ready
  not_yet : Ready
  negative : ℕ → Ready

unfoldable pub ready : DataBuffer → Ready × DataBuffer
ready db =
    if leb (2 ^ 31) db.header
    then (negative db.header, db)
    else if ltb db.size db.header
    then (not_yet, db)
    else (whole db.header, db)

-- `databuffer_readheader`.
unfoldable pub databuffer_readheader : DataBuffer → ℕ → Option (Ready × DataBuffer)
databuffer_readheader db header_size =
    if db.header == 0
    then if ltb db.size header_size
      then some (not_yet, db)
      else elim (databuffer_read db header_size) [
        | none ↦ none
        | some (plen, t) ↦ some (ready (record t { header = header_of header_size plen }))
      ]
    else some (ready db)

unfoldable pub databuffer_reset : DataBuffer → DataBuffer
databuffer_reset db = record db { header = 0 }

pub databuffer_clear : DataBuffer → DataBuffer
databuffer_clear db = record { header = 0; offset = 0; size = 0; messages = [] }
