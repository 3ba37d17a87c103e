-- ===== src/Handle.antt =====
-- Server/skynet/skynet-src/skynet_handle.c: the contexts of the services by their handles, and the names
-- of handles. An array is the list of its cells, so `slot_size` and `name_count` are lengths. Every
-- operation runs under the writer or the reader lock, so it is one step; `register` is that of a new service
-- with the assignment of its handle, which comes after the lock. `none` is a failed assert.
pub mod Slots
pub mod Free
pub mod Grow
pub mod Owner
pub mod Put
pub mod Fresh
pub mod Register
pub mod Retire
pub mod Order
pub mod Names
pub mod Lookup
pub mod Insert
pub mod Thinned
pub mod Steps
pub mod All
mod Tests
use ddzproject.Prelude.{
  ℕ, zero, suc, ◌+◌, ◌-◌, ◌*◌, ◌/◌, ◌%◌, ◌^◌, Bool, true, false, Option, none, some, List, [], ◌∷◌,
  ◌++◌, ltb, leb, ◌==◌, if◌then◌else◌, ◌&&◌, get_or, set, replicate, take, drop, length, bit_and,
  bit_or,
}
use Prim.Native.Nat.{Ordering}

-- A context and the handle that its owner stores in it: `skynet_context_new` assigns the result of
-- `skynet_handle_register` to it.
pub record Context : Type 0 where
  pub address : ℕ
  pub handle : ℕ

abbrev pub handle_mask : ℕ
handle_mask = 0xff_ffff

abbrev pub handle_remote_shift : ℕ
handle_remote_shift = 24

abbrev pub default_slot_size : ℕ
default_slot_size = 4

abbrev pub max_slot_size : ℕ
max_slot_size = 0x4000_0000

-- A name is the list of its bytes, without the zero at its end.
pub record HandleName : Type 0 where
  pub name : List ℕ
  pub handle : ℕ

pub record Storage : Type 0 where
  pub harbor : ℕ
  pub handle_index : ℕ
  pub slot : List (Option Context)
  pub name_cap : ℕ
  pub names : List HandleName

pub hash_of : List (Option Context) → ℕ → ℕ
hash_of slots handle = bit_and handle (length slots - 1)

-- The inner loop from `i` on, with `left` rounds to go: the first handle whose slot is empty.
pub find_free : List (Option Context) → ℕ → ℕ → ℕ → Option ℕ
find_free slots index zero i = none
find_free slots index (suc left) i =
    let handle = bit_and ((i + index) % 2 ^ 32) handle_mask in
    let rest = find_free slots index left (i + 1) in
    elim (get_or slots (hash_of slots handle) none) [ none ↦ some handle | some c ↦ rest ]

-- The contexts are moved into the slots of twice the size; a slot that is taken fails an assert, and
-- an empty one has no handle to read.
pub rehash : List (Option Context) → List (Option Context) → Option (List (Option Context))
rehash [] new = some new
rehash (none ∷ slots) new = none
rehash (some c ∷ slots) new =
    let rest = rehash slots (set new (hash_of new c.handle) (some c)) in
    elim (get_or new (hash_of new c.handle) none) [ none ↦ rest | some d ↦ none ]

pub grow : Storage → Option Storage
grow s =
    if leb (length s.slot * 2 - 1) handle_mask
    then elim (rehash s.slot (replicate (length s.slot * 2) none)) [
      | none ↦ none
      | some slots ↦ some (record s { slot = slots })
    ]
    else none

-- The locked part of `skynet_handle_register` once the free handle `h` is found: its slot gets the context,
-- whose handle is still 0.
pub store_context : Storage → ℕ → ℕ → Storage
store_context s address h = record s {
  slot = set s.slot (hash_of s.slot h) (some (record { address = address; handle = 0 }));
  handle_index = h + 1;
}

-- What `skynet_context_new` does with the result after the lock is given back: it assigns the handle to its
-- context, which is in the slot of `h`.
pub assign_handle : Storage → ℕ → ℕ → ℕ → Storage
assign_handle s address h handle = record s {
  slot = set s.slot (hash_of s.slot h) (some (record { address = address; handle = handle }));
}

-- Both, when no other operation comes between: the handle, and the storage after the assignment.
pub put_context : Storage → ℕ → ℕ → ℕ × Storage
put_context s address h =
    (bit_or h s.harbor, assign_handle (store_context s address h) address h (bit_or h s.harbor))

-- `skynet_handle_register`, whose loop has fuel, with the assignment of its result to the context.
pub register : ℕ → Storage → ℕ → Option (ℕ × Storage)
register zero s address = none
register (suc fuel) s address = elim (find_free s.slot s.handle_index (length s.slot) 0) [
  | some h ↦ some (put_context s address h)
  | none ↦ elim (grow s) [ none ↦ none | some t ↦ register fuel t address ]
]

-- The address of the context of a slot, when its handle is `h`.
pub address_for : Option Context → ℕ → Option ℕ
address_for none h = none
address_for (some c) h = if c.handle == h then some c.address else none

-- `skynet_handle_grab`; the reference that it takes is the context's.
pub grab : Storage → ℕ → Option ℕ
grab s h = address_for (get_or s.slot (hash_of s.slot h) none) h

pub remove_names : ℕ → List HandleName → List HandleName
remove_names h [] = []
remove_names h (n ∷ ns) = let rest = remove_names h ns in if n.handle == h then rest else n ∷ rest

-- What a slot that holds this is for `skynet_handle_retire`.
pub release_at : Storage → ℕ → ℕ → Option Context → Option ℕ × Storage
release_at s h hash none = (none, s)
release_at s h hash (some c) =
    if c.handle == h
    then (some c.address, record s { slot = set s.slot hash none; names = remove_names h s.names })
    else (none, s)

-- `skynet_handle_retire`: the address of the context that is released, if there was one.
pub retire : Storage → ℕ → Option ℕ × Storage
retire s h = let hash = hash_of s.slot h in release_at s h hash (get_or s.slot hash none)

pub slot_handle : Option Context → ℕ
slot_handle none = 0
slot_handle (some c) = c.handle

-- One round of the inner loop of `skynet_handle_retireall`, and what it adds to `n`.
pub retire_slot : Storage → ℕ → ℕ × Storage
retire_slot s i =
    let h = slot_handle (get_or s.slot i none) in
    let r = retire s h in if h == 0 then (0, s) else (elim (r.0) [ none ↦ 0 | some a ↦ 1 ], r.1)

-- The inner loop from `i` on, with `left` rounds to go.
pub retire_slots : ℕ → ℕ → Storage → ℕ × Storage
retire_slots zero i s = (0, s)
retire_slots (suc left) i s =
    let (n, t) = retire_slot s i in let (m, u) = retire_slots left (i + 1) t in (n + m, u)

-- `skynet_handle_retireall`, whose loop has fuel.
pub retireall : ℕ → Storage → Option Storage
retireall zero s = none
retireall (suc fuel) s =
    let (n, t) = retire_slots (length s.slot) 0 s in
    let rest = retireall fuel t in if n == 0 then some t else rest

-- `strcmp`, on bytes.
pub strcmp : List ℕ → List ℕ → Ordering
strcmp [] [] = Ordering.eq
strcmp [] (y ∷ ys) = Ordering.lt
strcmp (x ∷ xs) [] = Ordering.gt
strcmp (x ∷ xs) (y ∷ ys) =
    let rest = strcmp xs ys in
    if ltb x y then Ordering.lt else if ltb y x then Ordering.gt else rest

-- How a search ends: at the index of the name, or at the index before which it belongs.
pub data Search : Type 0 where
  found : ℕ → Search
  missing : ℕ → Search

abbrev no_name : HandleName
no_name = record { name = []; handle = 0 }

-- The loop of the binary search, with fuel; `end` is one more than in the source, where it may be
-- -1.
pub search_name : ℕ → List HandleName → List ℕ → ℕ → ℕ → Search
search_name zero ns name begin end = missing begin
search_name (suc fuel) ns name begin end =
    let mid = (begin + (end - 1)) / 2 in
    let above = search_name fuel ns name (mid + 1) end in
    let below = search_name fuel ns name begin mid in
    if ltb begin end
    then elim (strcmp (get_or ns mid no_name).name name) [
      | Ordering.eq ↦ found mid
      | Ordering.lt ↦ above
      | Ordering.gt ↦ below
    ]
    else missing begin

pub find_name : Storage → List ℕ → ℕ
find_name s name = elim (search_name (suc (length s.names)) s.names name 0 (length s.names)) [
  | found i ↦ (get_or s.names i no_name).handle
  | missing i ↦ 0
]

-- `_insert_name_before`; the array is doubled when it is full.
pub insert_name_before : Storage → HandleName → ℕ → Option Storage
insert_name_before s n before =
    let cap = if leb s.name_cap (length s.names) then s.name_cap * 2 else s.name_cap in
    if leb s.name_cap (length s.names) && ltb max_slot_size cap
    then none
    else some (record s { name_cap = cap; names = take before s.names ++ n ∷ drop before s.names })

-- `skynet_handle_namehandle`: whether the name was put in, and the storage.
pub name_handle : Storage → ℕ → List ℕ → Option (Bool × Storage)
name_handle s h name = elim (search_name (suc (length s.names)) s.names name 0 (length s.names)) [
  | found i ↦ some (false, s)
  | missing i ↦ elim (insert_name_before s (record { name = name; handle = h }) i) [
    | none ↦ none
    | some t ↦ some (true, t)
  ]
]

-- `skynet_handle_init`.
pub handle_init : ℕ → Storage
handle_init harbor = record {
  harbor = bit_and harbor 0xff * 2 ^ handle_remote_shift;
  handle_index = 1;
  slot = replicate default_slot_size none;
  name_cap = 2;
  names = [];
}
