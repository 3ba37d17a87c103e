-- ===== src/Gate/Fuel.antt =====
-- `dispatch_message` of service_gate.c ends, also for a connection that no one receives from.
use ddzproject.Prelude.{
  ℕ, zero, suc, ◌^◌, ◌<◌, ◌≡◌, ◌⊎◌, inl, inr, refl, ap, ◌∙◌, some, List, [], ◌∷◌, ◌++◌, length,
  arith, length-append, ==_iff,
}
use native.Mathlib.Decide.{dec_le, dec_lt, ℕ_discrete}
use ddzproject.Buffer.{
  DataBuffer, databuffer_push, databuffer_readheader, databuffer_reset, databuffer_clear, header_of,
  ready, whole,
}
use ddzproject.Buffer.Read.{contents, IsBuffer, databuffer_read-Taken}
use ddzproject.Buffer.Header.{
  ready-whole, ready-short, ready-negative, readheader-some, readheader-short, readheader-pending,
}
use ddzproject.Gate.{
  Connection, Gate, Effect, socket_close, error_logged, returned, goes_on, too_long, forward,
  dispatch_ready, dispatch_round, dispatch_loop, dispatch_message,
}
use ddzproject.Gate.Rounds.{
  Stands, HasReceiver, ready_empty, ready_closed, ready_forward, round_at, round_waits,
  round_negative,
}
use ddzproject.Gate.Forward.{
  push-Stands, unread_size, loop_returned, loop_goes_on, dispatch_message-Dispatched,
}

abbrev pub HasNoReceiver : Gate → Connection → Type 0
HasNoReceiver g c = (g.broker ≡ 0) × ((c.agent ≡ 0) × (g.watchdog ≡ 0))

receiver_or_none : (g : Gate) (c : Connection) → HasReceiver g c ⊎ HasNoReceiver g c
receiver_or_none g c = elim (ℕ_discrete g.broker 0) [
  | no ne ↦ inl (inl ne)
  | yes b ↦ elim (ℕ_discrete c.agent 0) [
    | no ne ↦ inl (inr (inl ne))
    | yes a ↦ elim (ℕ_discrete g.watchdog 0) [
      | no ne ↦ inl (inr (inr ne))
      | yes w ↦ inr (b, (a, w))
    ]
  ]
]

module _ (decimal : ℕ → List ℕ) (g : Gate) (id : ℕ) where
  forward-none :
      (c : Connection) (size : ℕ) → HasNoReceiver g c → forward decimal g c size ≡ some (c, [])
  unfolding forward
  forward-none c size (b, (a, w)) =
      rw (forward, (==_iff g.broker 0).1 b, (==_iff c.agent 0).1 a, (==_iff g.watchdog 0).1 w) refl

  -- A round with no receiver ends the loop, or it takes a header and nothing else.
  data Alone (c : Connection) (u : List ℕ) : Type 0 where
    ends :
        (c₁ : Connection) (effects : List Effect)
        → dispatch_round decimal g c id ≡ some (returned c₁ effects)
        → Alone c u
    drops :
        (head left : List ℕ) (db : DataBuffer)
        → length head ≡ g.header_size
        → u ≡ head ++ left
        → dispatch_round decimal g c id ≡ some (goes_on (record c { buffer = db }) [])
        → Stands g.header_size db left
        → Alone c u

  module _ (c : Connection) (u : List ℕ) (nobody : HasNoReceiver g c) where
    pub drop_round :
        (db : DataBuffer)
        → IsBuffer db
        → db.header < too_long
        → dispatch_round decimal g c id
          ≡ dispatch_ready decimal g (record c { buffer = db }) id (whole db.header)
        → dispatch_round decimal g c id
          ≡ some (goes_on (record c { buffer = databuffer_reset db }) [])
    unfolding databuffer_reset
    drop_round db ok small e = elim (ℕ_discrete db.header 0) [
      | yes empty ↦
          e
          ∙ ap (λ k. dispatch_ready decimal g (record c { buffer = db }) id (whole k)) empty
          ∙ ready_empty decimal g (record c { buffer = db }) id
          ∙ ap (λ k. some (goes_on (record c { buffer = record db { header = k } }) [])) empty
      | no some_bytes ↦
          e
          ∙ ready_forward decimal g (record c { buffer = db }) (record c { buffer = db }) [] id
              db.header (omega arith) small
              (forward-none (record c { buffer = db }) db.header nobody)
    ]

    headed_alone :
        (db : DataBuffer) (head : List ℕ)
        → IsBuffer db
        → length head ≡ g.header_size
        → u ≡ head ++ contents db
        → databuffer_readheader c.buffer g.header_size ≡ some (ready db)
        → Alone c u
    unfolding databuffer_reset
    headed_alone db head ok count front e = elim (dec_lt db.header (2 ^ 31)) [
      | no big ↦
          ends (record c { buffer = db }) []
            (round_negative decimal g c id db.header db
              (e ∙ ap some (ready-negative db (omega arith))))
      | yes int ↦ elim (dec_le db.header db.size) [
        | no short ↦
            ends (record c { buffer = db }) []
              (round_waits decimal g c id db (e ∙ ap some (ready-short db int (omega arith))))
        | yes there ↦
            let at =
              round_at decimal g c id (whole db.header) db
                (e ∙ ap some (ready-whole db int there)) in
            elim (dec_lt db.header too_long) [
              | no big ↦
                  ends (record c { buffer = databuffer_clear db })
                    (socket_close id ∷ error_logged ∷ [])
                    (at
                      ∙ ready_closed decimal g (record c { buffer = db }) id db.header
                          (omega arith))
              | yes small ↦
                  drops head (contents db) (databuffer_reset db) count front
                    (drop_round db ok small at)
                    (record {
                      ok = record { size = ok.size; offset = ok.offset };
                      unread = inl (refl, refl);
                    })
            ]
      ]
    ]

    alone : 0 < g.header_size → Stands g.header_size c.buffer u → Alone c u
    alone pos s = elim s.unread [
      | inr (head, (count, (says, (pending, front)))) ↦
          headed_alone c.buffer head s.ok count front
            (readheader-pending c.buffer g.header_size pending)
      | inl (none_pending, all) ↦ elim (dec_le g.header_size c.buffer.size) [
        | no short ↦ ends c [] (
            round_waits decimal g c id c.buffer
              (readheader-short c.buffer g.header_size none_pending (omega arith)))
        | yes there ↦
            let t = databuffer_read-Taken c.buffer g.header_size s.ok pos there in
            headed_alone (record t.after { header = header_of g.header_size t.bytes }) t.bytes
              (record { size = t.stands.size; offset = t.stands.offset }) t.count (all ∙ t.front)
              (readheader-some c.buffer t.after g.header_size t.bytes none_pending there t.result)
      ]
    ]

  loop_alone :
      (fuel : ℕ) (c : Connection) (u : List ℕ)
      → HasNoReceiver g c
      → 0 < g.header_size
      → Stands g.header_size c.buffer u
      → length u < fuel
      → (c₁ : Connection) × ((effects : List Effect) × (dispatch_loop decimal fuel g c id
            ≡ some (c₁, effects)))
  loop_alone zero c u nobody pos s enough = absurd (omega arith)
  loop_alone (suc fuel) c u nobody pos s enough = elim (alone c u nobody pos s) [
    | ends c₁ effects e ↦ (c₁, (effects, loop_returned decimal fuel g c c₁ id effects e))
    | drops head left db count front e stands ↦
        let (c₂, (more, f)) =
          loop_alone fuel (record c { buffer = db }) left nobody pos stands
            (omega (arith, ap length front, length-append head left, count)) in
        (c₂, (more, loop_goes_on decimal fuel g c (record c { buffer = db }) c₂ id [] more e f))
  ]

  -- On every message of a socket, with a receiver or without, the loop ends and no assert fails.
  pub dispatch_message-Returns :
      (c : Connection) (u data_ : List ℕ)
      → 0 < g.header_size
      → Stands g.header_size c.buffer u
      → (c₁ : Connection) × ((effects : List Effect) × (dispatch_message decimal g c id data_
            ≡ some (c₁, effects)))
  unfolding dispatch_message
  dispatch_message-Returns c u data_ pos s = elim (receiver_or_none g c) [
    | inl receiver ↦
        let d = dispatch_message-Dispatched decimal g id pos c u data_ receiver s in
        elim d.ending [ inl (r, rest) ↦ (_, (_, r)) | inr (r, long) ↦ (_, (_, r)) ]
    | inr nobody ↦
        let there = push-Stands decimal g id pos c.buffer u data_ s in
        loop_alone _ (record c { buffer = databuffer_push c.buffer data_ }) (u ++ data_) nobody pos
          there
          (omega (
            arith,
            unread_size decimal g id pos (databuffer_push c.buffer data_) (u ++ data_) there,
          ))
  ]
