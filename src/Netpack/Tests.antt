-- ===== src/Netpack/Tests.antt =====
-- Runs of lua-netpack.c, and its theorems at concrete streams.
use ddzproject.Prelude.{
  Bool, ◌==◌, ◌≡◌, ℕ, refl, ap, ◌∙◌, arith, Option, some, none, List, [], ◌∷◌, ◌++◌,
}
use ddzproject.Netpack.{NetPack, Queue, get_queue, push_data, filter_data}
use ddzproject.Netpack.Ring.{fresh-IsRing}
use ddzproject.Netpack.Waiting.{waiting, fresh-waiting}
use ddzproject.Netpack.Advance.{pending, IsOpen-subst, ring-push, packs}
use ddzproject.Netpack.Fill.{Filters}
use ddzproject.Netpack.Stream.{filter_data-Filters}
use ddzproject.Netpack.Pop.{Pops, lpop-Pops, fresh-ring}
use ddzproject.Netpack.Gate.{received, concat}
use ddzproject.Netpack.{lpack, write_size}
use ddzproject.Netpack.Gate.{packets}
use ddzproject.Netpack.Unique.{packed, received_lem}
use ddzproject.Netpack.Received.{Rests, Receives, received-Receives}

-- Two packets and a half.
abbrev stream : List ℕ
stream = 0 ∷ 2 ∷ 7 ∷ 8 ∷ 0 ∷ 1 ∷ 9 ∷ 0 ∷ 3 ∷ 1 ∷ []

filter_data-Filters_example :
    Filters none 5 (pending (waiting (get_queue none) 5) ++ stream) (filter_data none 5 stream)
filter_data-Filters_example =
    filter_data-Filters none 5 stream fresh-IsRing (IsOpen-subst _ [] (fresh-waiting 5) tt)
      (omega arith) (ground arith)

abbrev seven : NetPack
seven = record { id = 5; size = 1; buffer = 7 ∷ [] }

-- The first byte of a size, the rest of it with half of a packet, and the end with the next.
abbrev cut_stream : List (List ℕ)
cut_stream = (0 ∷ []) ∷ (2 ∷ 7 ∷ []) ∷ (8 ∷ 0 ∷ 1 ∷ 9 ∷ 0 ∷ []) ∷ []

abbrev whole_stream : List (List ℕ)
whole_stream = (0 ∷ []) ∷ (2 ∷ 7 ∷ []) ∷ (8 ∷ 0 ∷ 1 ∷ 9 ∷ []) ∷ []

-- The socket 5 alone has a connection.
abbrev is_open : ℕ → Bool
is_open fd = fd == 5

fresh-Rests : Rests none 5
fresh-Rests = record {
  in_ring = fresh-IsRing;
  empty = fresh-ring;
  open_here = IsOpen-subst _ [] (fresh-waiting 5) tt;
}

received-Receives_example :
    (fs : List (List ℕ)) × Receives is_open none 5
      (received is_open none 5 cut_stream)
      fs
      (pending (waiting (get_queue none) 5) ++ concat cut_stream)
received-Receives_example = received-Receives is_open none 5 cut_stream fresh-Rests (ground arith)

lpop-Pops_example : (S' : Option Queue) × Pops (push_data none 5 (7 ∷ []) 1) seven [] S'
lpop-Pops_example =
    lpop-Pops (push_data none 5 (7 ∷ []) 1) seven []
      (ring-push none 5 (7 ∷ []) 1 refl fresh-IsRing).0
      ((ring-push none 5 (7 ∷ []) 1 refl fresh-IsRing).1
        ∙ unfold packs in ap (λ xs. xs ++ some seven ∷ []) fresh-ring)

packed_cut : packed ((7 ∷ 8 ∷ []) ∷ (9 ∷ []) ∷ []) ≡ some (concat whole_stream)
unfolding packed lpack write_size concat
packed_cut = refl

received_lem_example :
    (received is_open none 5 whole_stream).0 ≡ packets 5 ((7 ∷ 8 ∷ []) ∷ (9 ∷ []) ∷ [])
received_lem_example =
    received_lem is_open none 5 whole_stream ((7 ∷ 8 ∷ []) ∷ (9 ∷ []) ∷ []) refl fresh-Rests
      (fresh-waiting 5) (ground arith) packed_cut
