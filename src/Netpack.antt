-- ===== src/Netpack.antt =====
-- Server/skynet/lualib-src/lua-netpack.c: a stream of bytes is cut into packets, each led by its size
-- in two bytes, the high one first. A buffer is the list of its bytes; the queue of a Lua state,
-- which may not be allocated yet, is `Option Queue`, its chains of pointers are lists.
pub mod Ring
pub mod Waiting
pub mod Advance
pub mod More
pub mod Fill
pub mod Stream
pub mod Pop
pub mod Gate
pub mod Received
pub mod Unique
mod Tests
use ddzproject.Prelude.{
  ℕ, zero, suc, ◌+◌, ◌-◌, ◌*◌, ◌/◌, ◌%◌, ◌^◌, Bool, Option, none, some, List, [], ◌∷◌, ◌++◌, ltb,
  leb, ◌==◌, if◌then◌else◌, get_or, set, replicate, take, drop, length, bit_or, bit_and,
}
use ddzproject.Prelude.Round.{copy_round}

-- `struct netpack`.
pub record NetPack : Type 0 where
  pub id : ℕ
  pub size : ℕ
  pub buffer : List ℕ

-- What was read of a packet: the first byte of its size (`read` is -1 and `header` the byte), or
-- its size and the bytes of `buffer` that are filled, `read` of them.
pub data Reading : Type 0 where
  header : ℕ → Reading
  body : ℕ → List ℕ → Reading

-- `struct uncomplete`, the link left out.
pub record Uncomplete : Type 0 where
  pub id : ℕ
  pub reading : Reading

abbrev pub queue_size : ℕ
queue_size = 1024

abbrev pub hash_size : ℕ
hash_size = 4096

pub record Queue : Type 0 where
  pub cap : ℕ
  pub head : ℕ
  pub tail : ℕ
  pub hash : ℕ → List Uncomplete
  pub queue : List (Option NetPack)

pub hash_fd : ℕ → ℕ
hash_fd fd = (fd / 2 ^ 24 + fd / 2 ^ 12 + fd) % 2 ^ 32 % hash_size

abbrev pub set_chain : Queue → ℕ → List Uncomplete → Queue
set_chain q h l = record q { hash = λ k. if k == h then l else q.hash k }

abbrev pub keep_first :
    Uncomplete → Option (Uncomplete × List Uncomplete) → Option (Uncomplete × List Uncomplete)
keep_first uc none = none
keep_first uc (some (found, l)) = some (found, uc ∷ l)

-- The first of a chain with the id `fd`, and the chain without it.
pub find_in : ℕ → List Uncomplete → Option (Uncomplete × List Uncomplete)
find_in fd [] = none
find_in fd (uc ∷ l) =
    let rest = find_in fd l in if uc.id == fd then some (uc, l) else keep_first uc rest

pub find_uncomplete : Option Queue → ℕ → Option Uncomplete × Option Queue
find_uncomplete none fd = (none, none)
find_uncomplete (some q) fd = elim (find_in fd (q.hash (hash_fd fd))) [
  | none ↦ (none, some q)
  | some (uc, l) ↦ (some uc, some (set_chain q (hash_fd fd) l))
]

pub get_queue : Option Queue → Queue
get_queue none = record {
  cap = queue_size;
  head = 0;
  tail = 0;
  hash = λ k. [];
  queue = replicate queue_size none;
}
get_queue (some q) = q

-- The new queue; the old one is left to the collector, empty.
pub expand_queue : Queue → Queue
expand_queue q = record {
  cap = q.cap + queue_size;
  head = 0;
  tail = q.cap;
  hash = q.hash;
  queue = copy_round q.queue q.cap q.head q.cap ++ replicate queue_size none;
}

-- `push_data` up to the test for a full ring.
pub store_data : Queue → NetPack → Queue
store_data q np = record q {
  queue = set q.queue q.tail (some np);
  tail = if leb q.cap (q.tail + 1) then q.tail + 1 - q.cap else q.tail + 1;
}

pub push_data : Option Queue → ℕ → List ℕ → ℕ → Option Queue
push_data S fd buffer size =
    let q = store_data (get_queue S) (record { id = fd; size = size; buffer = buffer }) in
    some (if q.head == q.tail then expand_queue q else q)

-- What the caller writes into the new cell is its `reading`.
pub save_uncomplete : Option Queue → ℕ → Reading → Option Queue
save_uncomplete S fd r =
    let q = get_queue S in
    some (set_chain q (hash_fd fd) (record { id = fd; reading = r } ∷ q.hash (hash_fd fd)))

pub read_size : ℕ → ℕ → ℕ
read_size b0 b1 = bit_or (b0 * 2 ^ 8) b1

-- Every call takes two bytes at least, so the size of the buffer is enough fuel. The callers give
-- at least one byte.
pub push_more : ℕ → Option Queue → ℕ → List ℕ → Option Queue
push_more zero S fd buffer = S
push_more (suc fuel) S fd [] = S
push_more (suc fuel) S fd (b0 ∷ []) = save_uncomplete S fd (header b0)
push_more (suc fuel) S fd (b0 ∷ b1 ∷ buffer) =
    let pack_size = read_size b0 b1 in
    let pushed = push_data S fd (take pack_size buffer) pack_size in
    let rest = push_more fuel pushed fd (drop pack_size buffer) in
    if ltb (length buffer) pack_size
    then save_uncomplete S fd (body pack_size buffer)
    else if ltb 0 (length buffer - pack_size)
    then rest
    else pushed

-- What `filter` returns behind the queue.
pub data Filtered : Type 0 where
  nothing : Filtered
  packet : NetPack → Filtered
  more : Filtered

-- The rest of `filter_data_` when a packet of `pack_size` bytes has `got` and `buffer` comes in.
pub fill : Option Queue → ℕ → ℕ → List ℕ → List ℕ → Filtered × Option Queue
fill S fd pack_size got buffer =
    let need = pack_size - length got in
    let filled = got ++ take need buffer in
    if ltb (length buffer) need
    then (nothing, save_uncomplete S fd (body pack_size (got ++ buffer)))
    else if length buffer - need == 0
    then (packet (record { id = fd; size = pack_size; buffer = filled }), S)
    else (more, push_more (length buffer) (push_data S fd filled pack_size) fd (drop need buffer))

-- `filter_data_` when nothing waits for `fd`.
pub begin : Option Queue → ℕ → List ℕ → Filtered × Option Queue
begin S fd [] = (nothing, S)
begin S fd (b0 ∷ []) = (nothing, save_uncomplete S fd (header b0))
begin S fd (b0 ∷ b1 ∷ buffer) =
    let pack_size = read_size b0 b1 in
    if ltb (length buffer) pack_size
    then (nothing, save_uncomplete S fd (body pack_size buffer))
    else if length buffer == pack_size
    then (packet (record { id = fd; size = pack_size; buffer = buffer }), S)
    else (
      more,
      push_more (length buffer) (push_data S fd (take pack_size buffer) pack_size) fd
          (drop pack_size buffer),
    )

-- `filter_data_` when the packet of `r` waits for `fd` and was taken off its chain.
pub continue_with : Option Queue → ℕ → Reading → List ℕ → Filtered × Option Queue
continue_with S fd (header h) [] = (nothing, S)
continue_with S fd (header h) (b ∷ buffer) = fill S fd (bit_or (h * 2 ^ 8) b) [] buffer
continue_with S fd (body pack_size got) buffer = fill S fd pack_size got buffer

-- A socket message has one byte at least; without one the source reads past its end, here nothing
-- happens.
pub filter_data : Option Queue → ℕ → List ℕ → Filtered × Option Queue
filter_data S fd buffer =
    let (found, S') = find_uncomplete S fd in
    elim found [ none ↦ begin S' fd buffer | some uc ↦ continue_with S' fd uc.reading buffer ]

pub close_uncomplete : Option Queue → ℕ → Option Queue
close_uncomplete S fd = (find_uncomplete S fd).1

pub lpop : Option Queue → Option (NetPack × Option Queue)
lpop none = none
lpop (some q) = if q.head == q.tail then none else elim (get_or q.queue q.head none) [
  | none ↦ none
  | some np ↦ some (np, some (record q { head = if leb q.cap (q.head + 1) then 0 else q.head + 1 }))
]

pub lclear : Option Queue → Option Queue
lclear none = none
lclear (some q) = some (record q { head = 0; tail = 0; hash = λ k. [] })

pub write_size : ℕ → List ℕ
write_size len = bit_and (len / 2 ^ 8) 0xff ∷ bit_and len 0xff ∷ []

-- `none` is the error of a string that is too long.
pub lpack : List ℕ → Option (List ℕ)
lpack text = if leb 0x10000 (length text) then none else some (write_size (length text) ++ text)
