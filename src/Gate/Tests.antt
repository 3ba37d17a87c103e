-- ===== src/Gate/Tests.antt =====
-- Runs of service_gate.c, and its theorems at concrete streams.
use ddzproject.Prelude.{ℕ, ◌+◌, ◌≡◌, inl, inr, refl, some, List, [], ◌∷◌, ◌++◌, All, arith}
use ddzproject.Buffer.{
  DataBuffer, header_of, databuffer_readheader, databuffer_read, read_messages, databuffer_push,
  databuffer_reset, ready,
}
use ddzproject.Buffer.Read.{contents}
use ddzproject.Gate.{
  Connection, Gate, Effect, sent, goes_on, message_of, read_and_send, forward, dispatch_ready,
  dispatch_round, dispatch_loop, dispatch_message,
}
use ddzproject.Gate.Frames.{Frame, IsFrame}
use ddzproject.Gate.Rounds.{Stands}
use ddzproject.Gate.Stream.{dispatch_messages, Forwards, dispatch_messages-Forwards}
use ddzproject.Gate.Fuel.{dispatch_message-Returns}
use ddzproject.Gate.Dropped.{dispatch_round-dropped}

-- A number below ten.
abbrev one_digit : ℕ → List ℕ
one_digit n = (48 + n) ∷ []

abbrev fresh : DataBuffer
fresh = record { header = 0; offset = 0; size = 0; messages = [] }

abbrev player : Connection
player = record { id = 7; agent = 21; client = 9; remote_name = []; buffer = fresh }

abbrev with_agents : Gate
with_agents = record { watchdog = 4; broker = 0; client_tag = 3; header_size = 2 }

abbrev alone : Gate
alone = record { watchdog = 0; broker = 0; client_tag = 3; header_size = 2 }

fresh-Stands : Stands 2 fresh []
fresh-Stands = record { ok = record { size = refl; offset = refl }; unread = inl (refl, refl) }

-- Packets of two bytes, of none and of one, cut in three.
abbrev packets : List Frame
packets = (0 ∷ 2 ∷ [], 71 ∷ 72 ∷ []) ∷ (0 ∷ 0 ∷ [], []) ∷ (0 ∷ 1 ∷ [], 73 ∷ []) ∷ []

abbrev pieces : List (List ℕ)
pieces = (0 ∷ []) ∷ (2 ∷ 71 ∷ []) ∷ (72 ∷ 0 ∷ 0 ∷ 0 ∷ 1 ∷ 73 ∷ []) ∷ []

packets-IsFrame : All (IsFrame 2) packets
unfolding header_of
packets-IsFrame = (
  record { head = refl; says = refl; small = omega arith },
  (
    record { head = refl; says = refl; small = omega arith },
    (record { head = refl; says = refl; small = omega arith }, tt),
  ),
)

dispatch_messages-Forwards_example :
    Forwards one_digit with_agents player 7 packets
      (dispatch_messages one_digit with_agents player 7 pieces)
dispatch_messages-Forwards_example =
    dispatch_messages-Forwards one_digit with_agents 7 (omega arith) pieces player packets
      (inr (inl (λ e. omega (arith, e)))) fresh-Stands packets-IsFrame refl

abbrev nobody : Connection
nobody = record player { agent = 0 }

dispatch_message-Returns_example :
    (c₁ : Connection) × ((effects : List Effect) × (dispatch_message one_digit alone nobody 7
          (0 ∷ 1 ∷ 0 ∷ 0 ∷ [])
        ≡ some (c₁, effects)))
dispatch_message-Returns_example =
    dispatch_message-Returns one_digit alone 7 nobody [] (0 ∷ 1 ∷ 0 ∷ 0 ∷ []) (omega arith)
      fresh-Stands

abbrev with_packet : Connection
with_packet = record nobody {
  buffer = record {
    header = 0;
    offset = 0;
    size = 4;
    messages = (0 ∷ 1 ∷ []) ∷ (73 ∷ 0 ∷ []) ∷ [];
  };
}

dispatch_round-dropped_example :
    (db : DataBuffer) × ((dispatch_round one_digit alone with_packet 7
        ≡ some (goes_on (record with_packet { buffer = db }) []))
      × ((contents db ≡ (73 ∷ []) ++ (0 ∷ [])) × (db.header ≡ 0)))
unfolding header_of
dispatch_round-dropped_example =
    dispatch_round-dropped one_digit alone 7 with_packet (0 ∷ 1 ∷ [], 73 ∷ []) (0 ∷ [])
      (omega arith) (refl, (refl, refl)) (record { size = refl; offset = omega arith }) refl
      (record { head = refl; says = refl; small = omega arith }) refl

to_watchdog :
    (db : DataBuffer) × (dispatch_message one_digit with_agents nobody 7 (0 ∷ 1 ∷ 73 ∷ [])
      ≡ some (
        record nobody { buffer = db },
        sent 0 4 0x1_0000 (55 ∷ 32 ∷ 100 ∷ 97 ∷ 116 ∷ 97 ∷ 32 ∷ 73 ∷ []) ∷ [],
      ))
unfolding dispatch_message dispatch_loop dispatch_round dispatch_ready forward read_and_send
    message_of databuffer_readheader databuffer_read read_messages databuffer_push databuffer_reset
    header_of ready
to_watchdog = (fresh, refl)
