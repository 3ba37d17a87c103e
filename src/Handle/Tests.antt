-- ===== src/Handle/Tests.antt =====
-- Runs of the handle storage, and the theorems at them.
use ddzproject.Prelude.{
  ◌≢◌, ℕ, ◌+◌, ◌≡◌, ◌⊎◌, refl, inr, Option, none, some, List, [], ◌∷◌, ◌^◌, arith, true, false,
}
use ddzproject.Prelude.Members.{Has}
use ddzproject.Handle.{
  retireall, Context, HandleName, Storage, handle_init, register, put_context, store_context,
  assign_handle, find_free, rehash, grow, retire, release_at, remove_names, grab, address_for,
  hash_of, name_handle, insert_name_before, search_name, strcmp, find_name,
}
use ddzproject.Handle.All.{retireall-ends}
use ddzproject.Handle.Put.{IsStorage, Registered}
use ddzproject.Handle.Register.{register-Registered}
use ddzproject.Handle.Retire.{Retired, retire-Retired}
use ddzproject.Handle.Lookup.{Finds, find_name-Finds, entry}
use ddzproject.Handle.Insert.{Named, name_handle-Named}
use ddzproject.Handle.Steps.{registers, names, Reachable, starts, goes, IsWell, Reachable-IsWell}

-- The context of the n-th handle of harbor 1.
abbrev service : ℕ → Option Context
service n = some (record { address = 1000 + n; handle = 2 ^ 24 + n })

abbrev harbor_one : List (Option Context) → ℕ → List HandleName → Storage
harbor_one slots index table = record {
  harbor = 2 ^ 24;
  handle_index = index;
  slot = slots;
  name_cap = 2;
  names = table;
}

abbrev three : Storage
three = harbor_one (none ∷ service 1 ∷ service 2 ∷ service 3 ∷ []) 4 []

abbrev four : Storage
four = harbor_one (service 4 ∷ service 1 ∷ service 2 ∷ service 3 ∷ []) 5 []

abbrev gate_name : List ℕ
gate_name = 103 ∷ 97 ∷ []

abbrev log_name : List ℕ
log_name = 108 ∷ []

abbrev master_name : List ℕ
master_name = 109 ∷ []

-- The fourth service is retired after it was named.
abbrev named : Storage
named =
    harbor_one (service 4 ∷ service 1 ∷ service 2 ∷ service 3 ∷ []) 5
      (entry gate_name (2 ^ 24 + 4) ∷ entry master_name (2 ^ 24 + 1) ∷ [])

four_registered :
    (register 2 (handle_init 1) 1001
      ≡ some (2 ^ 24 + 1, harbor_one (none ∷ service 1 ∷ none ∷ none ∷ []) 2 []))
    × (register 2 three 1004 ≡ some (2 ^ 24 + 4, four))
unfolding register find_free put_context store_context assign_handle hash_of handle_init
four_registered = (refl, refl)

-- The fifth service makes the slots grow.
grown :
    register 2 four 1005
    ≡ some (
      2 ^ 24 + 5,
      harbor_one
          (none ∷ service 1 ∷ service 2 ∷ service 3 ∷ service 4 ∷ service 5 ∷ none ∷ none ∷ [])
          6
          [],
    )
unfolding register find_free put_context store_context assign_handle hash_of grow rehash
grown = refl

-- The slots grow between the store of the fourth context and the assignment of its handle: the context is
-- moved by the handle 0, and once the handle is assigned it is not found by it.
raced :
    (register 2 (store_context three 1004 4) 1005
      ≡ some (
        2 ^ 24 + 5,
        harbor_one
            (some (record { address = 1004; handle = 0 })
              ∷ service 1
              ∷ service 2
              ∷ service 3
              ∷ none
              ∷ service 5
              ∷ none
              ∷ none
              ∷ [])
            6
            [],
      ))
    × (grab
          (harbor_one
            (service 4 ∷ service 1 ∷ service 2 ∷ service 3 ∷ none ∷ service 5 ∷ none ∷ none ∷ [])
            6
            [])
          (2 ^ 24 + 4)
        ≡ none)
unfolding register find_free put_context store_context assign_handle hash_of grow rehash grab
    address_for
raced = (refl, refl)

-- When the index has gone past the mask, the search starts again at handle 0.
wrapped :
    register 2 (record three { harbor = 0; handle_index = 2 ^ 24 }) 1004
    ≡ some (
      0,
      record (harbor_one
          ((some (record { address = 1004; handle = 0 })) ∷ service 1 ∷ service 2 ∷ service 3 ∷ [])
          1
          []) { harbor = 0 },
    )
unfolding register find_free put_context store_context assign_handle hash_of
wrapped = refl

steps : Reachable named
unfolding register find_free put_context store_context assign_handle hash_of handle_init name_handle
    insert_name_before search_name strcmp
steps =
    goes
      (goes
        (goes
          (goes
            (goes
              (goes (starts 1) (
                registers {t = harbor_one (none ∷ service 1 ∷ none ∷ none ∷ []) 2 []} 1001
                  (2 ^ 24 + 1) refl))
              (registers {t = harbor_one (none ∷ service 1 ∷ service 2 ∷ none ∷ []) 3 []} 1002
                (2 ^ 24 + 2) refl))
            (registers {t = three} 1003 (2 ^ 24 + 3) refl))
          (registers {t = four} 1004 (2 ^ 24 + 4) refl))
        (names {t = record four { names = entry master_name (2 ^ 24 + 1) ∷ [] }} (2 ^ 24 + 1)
          master_name true refl))
      (names {t = named} (2 ^ 24 + 4) gate_name true refl)

Reachable-IsWell_example : IsWell named
Reachable-IsWell_example = Reachable-IsWell steps

four_IsStorage : IsStorage named
four_IsStorage = (Reachable-IsWell steps).storage

register-Registered_example :
    (h : ℕ) × ((t : Storage) × ((register 2 named 1005 ≡ some (h, t)) × Registered named 1005 h t))
register-Registered_example = register-Registered named 1005 four_IsStorage (omega arith)

retire-Retired_example :
    Retired named (2 ^ 24 + 4) (retire named (2 ^ 24 + 4)).0 (retire named (2 ^ 24 + 4)).1
retire-Retired_example = retire-Retired named (2 ^ 24 + 4) four_IsStorage

find_name-Finds_example : Finds named master_name
find_name-Finds_example = find_name-Finds named master_name (Reachable-IsWell steps).sorted

name_handle-Named_example :
    ((t : Storage) × Named named (2 ^ 24 + 2) log_name t)
    ⊎ ((name_handle named (2 ^ 24 + 2) log_name ≡ some (false, named))
        × ((g : ℕ) × Has (entry log_name g) named.names))
name_handle-Named_example =
    name_handle-Named named (2 ^ 24 + 2) log_name (Reachable-IsWell steps).sorted
      (inr (omega arith))

-- The retired service is gone, with its name; the other name has its handle still.
retired :
    (grab (retire named (2 ^ 24 + 4)).1 (2 ^ 24 + 4) ≡ none)
    × ((find_name (retire named (2 ^ 24 + 4)).1 gate_name ≡ 0)
        × (find_name (retire named (2 ^ 24 + 4)).1 master_name ≡ 2 ^ 24 + 1))
unfolding grab address_for retire release_at remove_names find_name search_name strcmp hash_of
retired = (refl, (refl, refl))

retireall-ends_example :
    (t : Storage) × ((retireall 2 named ≡ some t)
      × (IsStorage t × ((g : ℕ) → g ≢ 0 → grab t g ≡ none)))
retireall-ends_example = retireall-ends named four_IsStorage
