-- ===== src/Gate/Rounds.antt =====
-- One round of the loop of `dispatch_message` of service_gate.c, by what is at the front of the bytes.
use ddzproject.Prelude.{
  ℕ, ◌≤◌, ◌<◌, ◌≡◌, ◌≢◌, ◌⊎◌, inl, inr, refl, some, List, [], ◌∷◌, ◌++◌, length, arith, ◌==◌,
  if◌then◌else◌, ==_ne, ==_iff, le→leb, lt→leb,
}
use native.Mathlib.Decide.{ℕ_discrete}
use ddzproject.Buffer.{
  DataBuffer, databuffer_read, databuffer_readheader, databuffer_reset, databuffer_clear, header_of,
  Ready, whole, not_yet, negative,
}
use ddzproject.Buffer.Read.{contents, IsBuffer}
use ddzproject.Gate.{
  Connection, Gate, Effect, socket_close, error_logged, returned, goes_on, too_long, message_of,
  forward, read_and_send, dispatch_ready, dispatch_round,
}
use ddzproject.Gate.Frames.{Frame, IsFrame, IsWaiting, IsTooLong}

-- The bytes that the connection has not used yet: those of the buffer, behind a header that is pending.
abbrev pub Unread : ℕ → DataBuffer → List ℕ → Type 0
Unread n db u =
    ((db.header ≡ 0) × (u ≡ contents db))
    ⊎ ((head : List ℕ) × ((length head ≡ n)
          × ((header_of n head ≡ db.header) × ((db.header ≢ 0) × (u ≡ head ++ contents db)))))

pub record Stands (n : ℕ) (db : DataBuffer) (u : List ℕ) : Type 0 where
  pub ok : IsBuffer db
  pub unread : Unread n db u

abbrev pub HasReceiver : Gate → Connection → Type 0
HasReceiver g c = (g.broker ≢ 0) ⊎ ((c.agent ≢ 0) ⊎ (g.watchdog ≢ 0))

module _ (decimal : ℕ → List ℕ) where
  -- What is sent of a packet: nothing of an empty one.
  abbrev pub forwarded : Gate → Connection → List ℕ → List Effect
  forwarded g c body = if length body == 0 then [] else message_of decimal g c body

  pub data RoundResult (g : Gate) (c : Connection) (id : ℕ) (u : List ℕ) : Type 0 where
    waits :
        (db : DataBuffer)
        → dispatch_round decimal g c id ≡ some (returned (record c { buffer = db }) [])
        → Stands g.header_size db u
        → IsWaiting g.header_size u
        → RoundResult g c id u
    closes :
        (db : DataBuffer)
        → dispatch_round decimal g c id
          ≡ some (
              returned
                (record c { buffer = databuffer_clear db })
                (socket_close id ∷ error_logged ∷ []))
        → IsTooLong g.header_size u
        → RoundResult g c id u
    takes :
        (f : Frame) (left : List ℕ) (db : DataBuffer)
        → IsFrame g.header_size f
        → u ≡ f.0 ++ (f.1 ++ left)
        → dispatch_round decimal g c id
          ≡ some (goes_on (record c { buffer = db }) (forwarded g c (f.1)))
        → Stands g.header_size db left
        → RoundResult g c id u

  pub forward-read :
      (g : Gate) (c : Connection) (size : ℕ)
      → HasReceiver g c
      → forward decimal g c size ≡ read_and_send decimal g c size
  unfolding forward
  forward-read g c size (inl ne) = rw (forward, ==_ne g.broker 0 ne) refl
  forward-read g c size (inr (inl ne)) = elim (ℕ_discrete g.broker 0) [
    | yes e ↦ rw (forward, (==_iff g.broker 0).1 e, ==_ne c.agent 0 ne) refl
    | no ne' ↦ rw (forward, ==_ne g.broker 0 ne') refl
  ]
  forward-read g c size (inr (inr ne)) = elim (ℕ_discrete g.broker 0) [
    | yes e ↦ elim (ℕ_discrete c.agent 0) [
      | yes e' ↦
          rw (forward, (==_iff g.broker 0).1 e, (==_iff c.agent 0).1 e', ==_ne g.watchdog 0 ne) refl
      | no ne' ↦ rw (forward, (==_iff g.broker 0).1 e, ==_ne c.agent 0 ne') refl
    ]
    | no ne' ↦ rw (forward, ==_ne g.broker 0 ne') refl
  ]

  pub read_and_send-some :
      (g : Gate) (c : Connection) (size : ℕ) (bytes : List ℕ) (db : DataBuffer)
      → databuffer_read c.buffer size ≡ some (bytes, db)
      → read_and_send decimal g c size
        ≡ some (record c { buffer = db }, message_of decimal g c bytes)
  unfolding read_and_send
  read_and_send-some g c size bytes db e = rw (read_and_send, e) refl

  pub ready_empty :
      (g : Gate) (c : Connection) (id : ℕ)
      → dispatch_ready decimal g c id (whole 0) ≡ some (goes_on c [])
  unfolding dispatch_ready
  ready_empty g c id = refl

  pub ready_closed :
      (g : Gate) (c : Connection) (id size : ℕ)
      → too_long ≤ size
      → dispatch_ready decimal g c id (whole size)
        ≡ some (
            returned
              (record c { buffer = databuffer_clear c.buffer })
              (socket_close id ∷ error_logged ∷ []))
  unfolding dispatch_ready
  ready_closed g c id size le =
      rw (dispatch_ready, ==_ne size 0 (omega arith), le→leb too_long size le) refl

  pub ready_forward :
      (g : Gate) (c c₁ : Connection) (effects : List Effect) (id size : ℕ)
      → 0 < size
      → size < too_long
      → forward decimal g c size ≡ some (c₁, effects)
      → dispatch_ready decimal g c id (whole size)
        ≡ some (goes_on (record c₁ { buffer = databuffer_reset c₁.buffer }) effects)
  unfolding dispatch_ready
  ready_forward g c c₁ effects id size pos lt e =
      rw (dispatch_ready, ==_ne size 0 (omega arith), lt→leb too_long size lt, e) refl

  pub round_at :
      (g : Gate) (c : Connection) (id : ℕ) (r : Ready) (db : DataBuffer)
      → databuffer_readheader c.buffer g.header_size ≡ some (r, db)
      → dispatch_round decimal g c id ≡ dispatch_ready decimal g (record c { buffer = db }) id r
  unfolding dispatch_round
  round_at g c id r db e = rw (dispatch_round, e) refl

  pub round_waits :
      (g : Gate) (c : Connection) (id : ℕ) (db : DataBuffer)
      → databuffer_readheader c.buffer g.header_size ≡ some (not_yet, db)
      → dispatch_round decimal g c id ≡ some (returned (record c { buffer = db }) [])
  unfolding dispatch_ready
  round_waits g c id db e = round_at g c id not_yet db e

  pub round_negative :
      (g : Gate) (c : Connection) (id n : ℕ) (db : DataBuffer)
      → databuffer_readheader c.buffer g.header_size ≡ some (negative n, db)
      → dispatch_round decimal g c id ≡ some (returned (record c { buffer = db }) [])
  unfolding dispatch_ready
  round_negative g c id n db e = round_at g c id (negative n) db e
