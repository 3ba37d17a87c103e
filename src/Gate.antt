-- ===== src/Gate.antt =====
-- Server/skynet/service-src/service_gate.c: what the gate does with the bytes of a connection. The buffer of
-- a connection is that of databuffer.h; the calls of skynet_send, skynet_socket_close and skynet_error are
-- the effects, in their order.
pub mod Frames
pub mod Rounds
pub mod Step
pub mod Forward
pub mod Stream
pub mod Fuel
pub mod Dropped
mod Tests
use ddzproject.Prelude.{
  ℕ, zero, suc, ◌+◌, ◌*◌, ◌^◌, Option, none, some, List, [], ◌∷◌, ◌++◌, length, leb, ◌==◌,
  if◌then◌else◌, bit_or,
}
use ddzproject.Buffer.{
  DataBuffer, databuffer_push, databuffer_read, databuffer_readheader, databuffer_reset,
  databuffer_clear, Ready, whole, not_yet, negative,
}

-- `struct connection`.
pub record Connection : Type 0 where
  pub id : ℕ
  pub agent : ℕ
  pub client : ℕ
  pub remote_name : List ℕ
  pub buffer : DataBuffer

-- `struct gate`, its addresses and options.
pub record Gate : Type 0 where
  pub watchdog : ℕ
  pub broker : ℕ
  pub client_tag : ℕ
  pub header_size : ℕ

-- `sent` has the source (0 for the service itself), the destination, the type and the bytes.
pub data Effect : Type 0 where
  sent : ℕ → ℕ → ℕ → List ℕ → Effect
  socket_close : ℕ → Effect
  error_logged : Effect

-- `PTYPE_TAG_DONTCOPY`, and the size from which on a packet is refused.
abbrev pub dont_copy : ℕ
dont_copy = 0x1_0000

abbrev pub too_long : ℕ
too_long = 0x100_0000

-- A round of the loop of `dispatch_message` returns, or goes on.
pub data Round : Type 0 where
  returned : Connection → List Effect → Round
  goes_on : Connection → List Effect → Round

-- The first argument is how `snprintf` writes a number.
module _ (decimal : ℕ → List ℕ) where
  -- What `_forward` sends of the bytes.
  pub message_of : Gate → Connection → List ℕ → List Effect
  message_of g c bytes =
      if g.broker == 0
      then if c.agent == 0
        then if g.watchdog == 0
          then []
          else sent 0 g.watchdog (bit_or 0 dont_copy)
              (decimal c.id ++ 32 ∷ 100 ∷ 97 ∷ 116 ∷ 97 ∷ 32 ∷ bytes)
            ∷ []
        else sent c.client c.agent (bit_or g.client_tag dont_copy) bytes ∷ []
      else sent 0 g.broker (bit_or g.client_tag dont_copy) bytes ∷ []

  pub read_and_send : Gate → Connection → ℕ → Option (Connection × List Effect)
  read_and_send g c size = elim (databuffer_read c.buffer size) [
    | none ↦ none
    | some (bytes, db) ↦ some (record c { buffer = db }, message_of g c bytes)
  ]

  -- `_forward`, which reads no bytes when there is no receiver.
  pub forward : Gate → Connection → ℕ → Option (Connection × List Effect)
  forward g c size =
      let read = read_and_send g c size in
      if g.broker == 0
      then if c.agent == 0 then if g.watchdog == 0 then some (c, []) else read else read
      else read

  -- The body of the loop of `dispatch_message` after the header.
  pub dispatch_ready : Gate → Connection → ℕ → Ready → Option Round
  dispatch_ready g c id not_yet = some (returned c [])
  dispatch_ready g c id (negative n) = some (returned c [])
  dispatch_ready g c id (whole size) =
      if size == 0
      then some (goes_on c [])
      else if leb too_long size
      then some (
          returned (record c { buffer = databuffer_clear c.buffer })
            (socket_close id ∷ error_logged ∷ []))
      else elim (forward g c size) [
        | none ↦ none
        | some (c₁, effects) ↦
            some (goes_on (record c₁ { buffer = databuffer_reset c₁.buffer }) effects)
      ]

  pub dispatch_round : Gate → Connection → ℕ → Option Round
  dispatch_round g c id = elim (databuffer_readheader c.buffer g.header_size) [
    | none ↦ none
    | some (r, db) ↦ dispatch_ready g (record c { buffer = db }) id r
  ]

  -- The loop, with fuel.
  pub dispatch_loop : ℕ → Gate → Connection → ℕ → Option (Connection × List Effect)
  dispatch_loop zero g c id = none
  dispatch_loop (suc fuel) g c id = elim (dispatch_round g c id) [
    | none ↦ none
    | some (returned c₁ effects) ↦ some (c₁, effects)
    | some (goes_on c₁ effects) ↦ elim (dispatch_loop fuel g c₁ id) [
      | none ↦ none
      | some (c₂, more) ↦ some (c₂, effects ++ more)
    ]
  ]

  -- `dispatch_message`. A round but the last takes a header.
  pub dispatch_message : Gate → Connection → ℕ → List ℕ → Option (Connection × List Effect)
  dispatch_message g c id data_ =
      let c₁ = record c { buffer = databuffer_push c.buffer data_ } in
      dispatch_loop (c₁.buffer.size + g.header_size + 1) g c₁ id
