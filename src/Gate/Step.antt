-- ===== src/Gate/Step.antt =====
-- Each round of the loop of `dispatch_message` of service_gate.c waits, closes the connection, or takes the
-- packet that is at the front.
use ddzproject.Prelude.{
  subst, ap₂, ◌⊎◌, ℕ, ◌^◌, ◌≤◌, ◌<◌, ◌≡◌, inl, inr, refl, sym, ap, ◌∙◌, some, List, [], ◌++◌,
  length, arith, length-append, ==_ne,
}
use native.Mathlib.Decide.{dec_le, dec_lt, ℕ_discrete}
use ddzproject.Buffer.{DataBuffer, databuffer_readheader, databuffer_reset, header_of, ready, whole}
use ddzproject.Buffer.Read.{contents, IsBuffer, Taken, databuffer_read-Taken}
use ddzproject.Buffer.Header.{
  append_split, ready-whole, ready-short, ready-negative, readheader-some, readheader-short,
  readheader-pending,
}
use ddzproject.Gate.{Connection, Gate, goes_on, too_long, message_of, dispatch_ready}
use ddzproject.Gate.Frames.{IsWaiting}
use ddzproject.Gate.Rounds.{
  Stands, HasReceiver, forwarded, RoundResult, waits, closes, takes, forward-read,
  read_and_send-some, ready_empty, ready_closed, ready_forward, round_at, round_waits,
  round_negative,
}

-- The bytes wait when the header that is at their front says so.
header-IsWaiting :
    (n : ℕ) (head u left : List ℕ)
    → length head ≡ n
    → u ≡ head ++ left
    → (length left < header_of n head) ⊎ (2 ^ 31 ≤ header_of n head)
    → IsWaiting n u
header-IsWaiting n head u left count e why head' left' count' e' =
    let parts = append_split head head' left left' (sym e ∙ e') (count ∙ sym count') in
    subst (λ (p : List ℕ × List ℕ). (length p.1 < header_of n p.0) ⊎ (2 ^ 31 ≤ header_of n p.0))
      (ap₂ (λ (x y : List ℕ). (x, y)) (parts.0) (parts.1)) why

short-IsWaiting : (n : ℕ) (u : List ℕ) → length u < n → IsWaiting n u
short-IsWaiting n u short head rest count e =
    absurd (omega (arith, ap length e, length-append head rest, count))

module _ (decimal : ℕ → List ℕ) (g : Gate) (c : Connection) (id : ℕ) (u : List ℕ)
    (receiver : HasReceiver g c) where
  -- The round on a packet that is whole.
  take_round :
      (db : DataBuffer) (head : List ℕ)
      → IsBuffer db
      → length head ≡ g.header_size
      → header_of g.header_size head ≡ db.header
      → u ≡ head ++ contents db
      → 0 < db.header
      → db.header < too_long
      → db.header ≤ db.size
      → databuffer_readheader c.buffer g.header_size ≡ some (whole db.header, db)
      → RoundResult decimal g c id u
  unfolding message_of
  take_round db head ok count says front pos small there e =
      takes (head, t.bytes) (contents t.after) (databuffer_reset t.after)
        (record { head = count; says = says ∙ sym t.count; small = omega (arith, t.count) })
        (front ∙ ap (λ l. head ++ l) t.front)
        (round_at decimal g c id (whole db.header) db e
          ∙ ready_forward decimal g (record c { buffer = db }) (record c { buffer = t.after })
              (message_of decimal g c t.bytes) id db.header pos small
              (forward-read decimal g (record c { buffer = db }) db.header receiver
                ∙ read_and_send-some decimal g (record c { buffer = db }) db.header t.bytes t.after
                    t.result)
          ∙ ap (λ effects. some (goes_on (record c { buffer = databuffer_reset t.after }) effects))
              (sym some_bytes))
        (unfold databuffer_reset in
          record {
            ok = record { size = t.stands.size; offset = t.stands.offset };
            unread = inl (refl, refl);
          })
    where
      t : Taken db db.header
      t = databuffer_read-Taken db db.header ok pos there

      some_bytes : forwarded decimal g c t.bytes ≡ message_of decimal g c t.bytes
      some_bytes = rw (==_ne (length t.bytes) 0 (omega (arith, t.count))) refl

  -- The round once the header has been read.
  headed_round :
      (db : DataBuffer) (head : List ℕ)
      → IsBuffer db
      → length head ≡ g.header_size
      → header_of g.header_size head ≡ db.header
      → u ≡ head ++ contents db
      → databuffer_readheader c.buffer g.header_size ≡ some (ready db)
      → RoundResult decimal g c id u
  headed_round db head ok count says front e = elim (dec_lt db.header (2 ^ 31)) [
    | no big ↦
        waits db
          (round_negative decimal g c id db.header db
            (e ∙ ap some (ready-negative db (omega arith))))
          (record { ok = ok; unread = inr (head, (count, (says, (omega arith, front)))) })
          (header-IsWaiting g.header_size head u (contents db) count front
            (inr (omega (arith, says))))
    | yes int ↦ elim (dec_le db.header db.size) [
      | no short ↦
          waits db (round_waits decimal g c id db (e ∙ ap some (ready-short db int (omega arith))))
            (record { ok = ok; unread = inr (head, (count, (says, (omega arith, front)))) })
            (header-IsWaiting g.header_size head u (contents db) count front
              (inl (omega (arith, says, ok.size))))
      | yes there ↦ elim (dec_lt db.header too_long) [
        | no big ↦
            closes db
              (round_at decimal g c id (whole db.header) db (e ∙ ap some (ready-whole db int there))
                ∙ ready_closed decimal g (record c { buffer = db }) id db.header (omega arith))
              (record {
                head = head;
                rest = contents db;
                whole = front;
                count = count;
                says = omega (arith, says);
                int = omega (arith, says);
                there = omega (arith, says, ok.size);
              })
        | yes small ↦ elim (ℕ_discrete db.header 0) [
          | no some_bytes ↦
              take_round db head ok count says front (omega arith) small there
                (e ∙ ap some (ready-whole db int there))
          | yes empty ↦
              takes (head, []) (contents db) db
                (record { head = count; says = says ∙ empty; small = omega arith }) front
                (round_at decimal g c id (whole db.header) db
                    (e ∙ ap some (ready-whole db int there))
                  ∙ ap (λ k. dispatch_ready decimal g (record c { buffer = db }) id (whole k)) empty
                  ∙ ready_empty decimal g (record c { buffer = db }) id)
                (record { ok = ok; unread = inl (empty, refl) })
        ]
      ]
    ]
  ]

  pub dispatch_round-RoundResult :
      0 < g.header_size → Stands g.header_size c.buffer u → RoundResult decimal g c id u
  dispatch_round-RoundResult pos s = elim s.unread [
    | inr (head, (count, (says, (pending, front)))) ↦
        headed_round c.buffer head s.ok count says front
          (readheader-pending c.buffer g.header_size pending)
    | inl (none_pending, all) ↦ elim (dec_le g.header_size c.buffer.size) [
      | no short ↦
          waits c.buffer
            (round_waits decimal g c id c.buffer
              (readheader-short c.buffer g.header_size none_pending (omega arith)))
            s (short-IsWaiting g.header_size u (omega (arith, ap length all, s.ok.size)))
      | yes there ↦
          let t = databuffer_read-Taken c.buffer g.header_size s.ok pos there in
          headed_round (record t.after { header = header_of g.header_size t.bytes }) t.bytes
            (record { size = t.stands.size; offset = t.stands.offset }) t.count refl (all ∙ t.front)
            (readheader-some c.buffer t.after g.header_size t.bytes none_pending there t.result)
    ]
  ]
