-- ===== src/Gate/Dropped.antt =====
-- A packet for a connection of service_gate.c that no one receives from.
use ddzproject.Prelude.{
  ℕ, ◌≤◌, ◌<◌, ◌≡◌, refl, sym, ap, ◌∙◌, some, List, [], ◌++◌, length, arith, length-append,
}
use ddzproject.Buffer.{DataBuffer, databuffer_reset, header_of, whole}
use ddzproject.Buffer.Read.{contents, IsBuffer, Taken, databuffer_read-Taken}
use ddzproject.Buffer.Header.{append_split, ready-whole, readheader-some}
use ddzproject.Gate.{Connection, Gate, goes_on, dispatch_ready, dispatch_round}
use ddzproject.Gate.Frames.{Frame, IsFrame}
use ddzproject.Gate.Rounds.{round_at}
use ddzproject.Gate.Fuel.{HasNoReceiver, drop_round}

module _ (decimal : ℕ → List ℕ) (g : Gate) (id : ℕ) where
  -- A packet is whole at the front of the bytes, no header is pending, and the gate has no broker, no watchdog
  -- and no agent for the connection. Then the round sends nothing and goes on with a buffer that has lost the
  -- header but not the bytes of the packet, so that these are read as the next header.
  pub dispatch_round-dropped :
      (c : Connection) (f : Frame) (rest : List ℕ)
      → 0 < g.header_size
      → HasNoReceiver g c
      → IsBuffer c.buffer
      → c.buffer.header ≡ 0
      → IsFrame g.header_size f
      → contents c.buffer ≡ f.0 ++ (f.1 ++ rest)
      → (db : DataBuffer) × ((dispatch_round decimal g c id
            ≡ some (goes_on (record c { buffer = db }) []))
          × ((contents db ≡ f.1 ++ rest) × (db.header ≡ 0)))
  unfolding databuffer_reset
  dispatch_round-dropped c f rest pos nobody ok none_pending ff front = (
    databuffer_reset headed,
    (
      drop_round decimal g id c (contents c.buffer) nobody headed headed_ok
          (omega (arith, says, ff.small)) at,
      (parts.1, refl),
    ),
  )
    where
      fits : g.header_size ≤ c.buffer.size
      fits = omega (arith, ok.size, ap length front, length-append (f.0) (f.1 ++ rest), ff.head)

      t : Taken c.buffer g.header_size
      t = databuffer_read-Taken c.buffer g.header_size ok pos fits

      parts : (t.bytes ≡ f.0) × (contents t.after ≡ f.1 ++ rest)
      parts =
          append_split t.bytes (f.0) (contents t.after) (f.1 ++ rest) (sym t.front ∙ front)
            (t.count ∙ sym ff.head)

      headed : DataBuffer
      headed = record t.after { header = header_of g.header_size t.bytes }

      headed_ok : IsBuffer headed
      headed_ok = record { size = t.stands.size; offset = t.stands.offset }

      says : headed.header ≡ length (f.1)
      says = ap (header_of g.header_size) (parts.0) ∙ ff.says

      there : headed.header ≤ headed.size
      there = omega (arith, says, headed_ok.size, ap length (parts.1), length-append (f.1) rest)

      at :
          dispatch_round decimal g c id
          ≡ dispatch_ready decimal g (record c { buffer = headed }) id (whole headed.header)
      at = round_at decimal g c id (whole headed.header) headed (
          readheader-some c.buffer t.after g.header_size t.bytes none_pending fits t.result
          ∙ ap some (ready-whole headed (omega (arith, says, ff.small)) there))
