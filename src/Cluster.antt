-- ===== src/Cluster.antt =====
-- Server/skynet/lualib-src/lua-cluster.c: the requests that go from one node to another. A message is the
-- list of its bytes, whose number is a `uint32_t`, and is there; an `int` session is its word of 32 bits. An `int`
-- that overflows when the session is counted up gives the lowest one, as the test for it expects.
pub mod Words
pub mod Parts
pub mod First
pub mod Request
mod Tests
use ddzproject.Prelude.{
  ℕ, zero, suc, ◌+◌, ◌-◌, ◌*◌, ◌/◌, ◌%◌, ◌^◌, Bool, true, false, ◌||◌, Option, none, some, List, [],
  ◌∷◌, ◌++◌, take, drop, length, get_or, ltb, leb, ◌==◌, if◌then◌else◌, bit_and, bit_or,
}

abbrev pub multi_part : ℕ
multi_part = 0x8000

pub data Address : Type 0 where
  number : ℕ → Address
  name : List ℕ → Address

-- `raised` is an error of Lua, `aborted` a failed assert.
pub data Outcome {ℓ} (A : Type ℓ) : Type ℓ where
  returned : A → Outcome A
  raised : Outcome A
  aborted : Outcome A

infixl 5 ◌>>=◌
abbrev pub ◌>>=◌ : {A B : Type 0} → Outcome A → (A → Outcome B) → Outcome B
returned a >>= f = f a
raised >>= f = raised
aborted >>= f = aborted

pub fill_uint32 : ℕ → List ℕ
fill_uint32 n =
    bit_and n 0xff
    ∷ bit_and (n / 2 ^ 8) 0xff
    ∷ bit_and (n / 2 ^ 16) 0xff
    ∷ bit_and (n / 2 ^ 24) 0xff
    ∷ []

pub fill_header : ℕ → Outcome (List ℕ)
fill_header sz =
    if ltb sz 0x1_0000 then returned (bit_and (sz / 2 ^ 8) 0xff ∷ bit_and sz 0xff ∷ []) else aborted

abbrev pub parts_of : ℕ → ℕ
parts_of sz = (sz - 1) / multi_part + 1

-- A packet, and the number of the parts that follow it.
pub packreq_number : ℕ → ℕ → List ℕ → Outcome (List ℕ × ℕ)
packreq_number addr session msg =
    let sz = length msg in
    if ltb sz multi_part
    then (do
      h ← fill_header (sz + 9)
      returned (h ++ 0 ∷ (fill_uint32 addr ++ (fill_uint32 session ++ msg)), 0))
    else (do
      h ← fill_header 13
      returned
          (h ++ 1 ∷ (fill_uint32 addr ++ (fill_uint32 session ++ fill_uint32 sz)), parts_of sz))

pub packreq_string : List ℕ → ℕ → List ℕ → Outcome (List ℕ × ℕ)
packreq_string str session msg =
    let sz = length msg in
    if ltb (length str) 1 || ltb 255 (length str)
    then raised
    else if ltb sz multi_part
    then (do
      h ← fill_header (sz + 6 + length str)
      returned (h ++ 0x80 ∷ length str ∷ (str ++ (fill_uint32 session ++ msg)), 0))
    else (do
      h ← fill_header (10 + length str)
      returned
          (h ++ 0x81 ∷ length str ∷ (str ++ (fill_uint32 session ++ fill_uint32 sz)), parts_of sz))

-- The loop of `packreq_multi`.
pub packreq_multi : ℕ → ℕ → List ℕ → Outcome (List (List ℕ))
packreq_multi zero session msg = returned []
packreq_multi (suc part) session msg =
    let s = if ltb multi_part (length msg) then multi_part else length msg in
    let kind = if ltb multi_part (length msg) then 2 else 3 in
    do
      h ← fill_header (s + 5)
      rest ← packreq_multi part session (drop s msg)
      returned ((h ++ kind ∷ (fill_uint32 session ++ take s msg)) ∷ rest)

-- What `lpackrequest` returns: the packet, the next session, and the parts, if there are.
pub record Packets : Type 0 where
  pub first : List ℕ
  pub next_session : ℕ
  pub parts : Option (List (List ℕ))

abbrev pub packreq : Address → ℕ → List ℕ → Outcome (List ℕ × ℕ)
packreq (number addr) session msg = packreq_number addr session msg
packreq (name str) session msg = packreq_string str session msg

abbrev pub after_session : ℕ → ℕ
after_session session = if session + 1 == 2 ^ 31 then 1 else session + 1

-- `lpackrequest`.
pub lpackrequest : Address → ℕ → List ℕ → Outcome Packets
lpackrequest addr session msg = if session == 0 || leb (2 ^ 31) session then raised else do
  p ← packreq addr session msg
  if p.1 == 0
      then returned (record { first = p.0; next_session = after_session session; parts = none })
      else do
        ps ← packreq_multi (p.1) session msg
        returned (record { first = p.0; next_session = after_session session; parts = some ps })

pub unpack_uint32 : List ℕ → ℕ
unpack_uint32 buf =
    bit_or (bit_or (bit_or (get_or buf 0 0) (get_or buf 1 0 * 2 ^ 8)) (get_or buf 2 0 * 2 ^ 16))
      (get_or buf 3 0 * 2 ^ 24)

-- What `lunpackrequest` returns: a request, the announcement of a message of so many bytes, or a part, with
-- whether more follow.
pub data Unpacked : Type 0 where
  request : Address → ℕ → List ℕ → Unpacked
  multi_request : Address → ℕ → ℕ → Unpacked
  request_part : ℕ → List ℕ → Bool → Unpacked
  invalid : Unpacked

pub unpackreq_number : List ℕ → Unpacked
unpackreq_number buf =
    if ltb (length buf) 9
    then invalid
    else request (number (unpack_uint32 (drop 1 buf))) (unpack_uint32 (drop 5 buf)) (drop 9 buf)

pub unpackmreq_number : List ℕ → Unpacked
unpackmreq_number buf =
    if length buf == 13
    then multi_request (number (unpack_uint32 (drop 1 buf))) (unpack_uint32 (drop 5 buf))
        (unpack_uint32 (drop 9 buf))
    else invalid

pub unpackmreq_part : List ℕ → Unpacked
unpackmreq_part buf =
    if ltb (length buf) 5
    then invalid
    else request_part (unpack_uint32 (drop 1 buf)) (drop 5 buf) (get_or buf 0 0 == 2)

pub unpackreq_string : List ℕ → Unpacked
unpackreq_string buf =
    let namesz = get_or buf 1 0 in
    if ltb (length buf) 2
    then invalid
    else if ltb (length buf) (namesz + 6)
    then invalid
    else request (name (take namesz (drop 2 buf))) (unpack_uint32 (drop (namesz + 2) buf))
        (drop (2 + namesz + 4) buf)

pub unpackmreq_string : List ℕ → Unpacked
unpackmreq_string buf =
    let namesz = get_or buf 1 0 in
    if ltb (length buf) 2
    then invalid
    else if ltb (length buf) (namesz + 10)
    then invalid
    else multi_request (name (take namesz (drop 2 buf))) (unpack_uint32 (drop (namesz + 2) buf))
        (unpack_uint32 (drop (namesz + 6) buf))

-- `lunpackrequest`; behind a string there is a byte 0.
pub lunpackrequest : List ℕ → Unpacked
lunpackrequest msg =
    let type = get_or msg 0 0 in
    if type == 0
    then unpackreq_number msg
    else if type == 1
    then unpackmreq_number msg
    else if type == 2 || type == 3
    then unpackmreq_part msg
    else if type == 0x80
    then unpackreq_string msg
    else if type == 0x81
    then unpackmreq_string msg
    else invalid

-- The loop of `lconcat`, from the offset on.
pub concat_from : ℕ → ℕ → List (List ℕ) → Option (List ℕ)
concat_from sz offset [] = if offset == sz then some [] else none
concat_from sz offset (str ∷ strs) =
    let rest = concat_from sz (offset + length str) strs in
    if ltb sz (length str + offset)
    then none
    else elim rest [ none ↦ none | some bytes ↦ some (str ++ bytes) ]

-- `lconcat` of a size and strings, the size cut to an `int`. `none` is its return of nothing, and a negative
-- size, for which there is no memory.
pub lconcat : ℕ → List (List ℕ) → Option (List ℕ)
lconcat size strs =
    let sz = size % 2 ^ 32 in if leb (2 ^ 31) sz then none else concat_from sz 0 strs
