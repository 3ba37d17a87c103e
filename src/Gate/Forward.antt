-- ===== src/Gate/Forward.antt =====
-- `dispatch_message` of service_gate.c, and a sequence of messages from one socket.
use ddzproject.Prelude.{
  ℕ, zero, suc, ◌+◌, ◌≤◌, ◌<◌, ◌≡◌, ◌⊎◌, inl, inr, refl, sym, ap, ◌∙◌, Option, some, List, [], ◌∷◌,
  ◌++◌, length, All, arith, append_assoc, length-append,
}
use ddzproject.Buffer.{DataBuffer, databuffer_push, databuffer_clear}
use ddzproject.Buffer.Read.{contents, databuffer_push-IsBuffer}
use ddzproject.Gate.{
  Connection, Gate, Effect, socket_close, error_logged, returned, goes_on, message_of,
  dispatch_round, dispatch_loop, dispatch_message,
}
use ddzproject.Gate.Frames.{Frame, stream, IsFrame, IsWaiting, IsTooLong}
use ddzproject.Gate.Rounds.{Stands, HasReceiver, forwarded, waits, closes, takes}
use ddzproject.Gate.Step.{dispatch_round-RoundResult}

All-append :
    (n : ℕ) (fs gs : List Frame)
    → All (IsFrame n) fs
    → All (IsFrame n) gs
    → All (IsFrame n) (fs ++ gs)
All-append n [] gs h h' = h'
All-append n (f ∷ fs) gs (h, hs) h' = (h, All-append n fs gs hs h')

module _ (decimal : ℕ → List ℕ) where
  -- What is sent of packets, in their order.
  abbrev pub sends : Gate → Connection → List Frame → List Effect
  sends g c [] = []
  sends g c ((head, body) ∷ fs) = forwarded decimal g c body ++ sends g c fs

  pub sends-append :
      (g : Gate) (c : Connection) (fs gs : List Frame)
      → sends g c (fs ++ gs) ≡ sends g c fs ++ sends g c gs
  sends-append g c [] gs = refl
  sends-append g c ((h, b) ∷ fs) gs =
      ap (λ l. forwarded decimal g c b ++ l) (sends-append g c fs gs)
      ∙ sym (append_assoc (forwarded decimal g c b) (sends g c fs) (sends g c gs))

  -- The packets at the front of the bytes are forwarded; what follows them is kept for later, or it is the
  -- header of a packet that is too long, and the connection is closed.
  pub record Dispatched (g : Gate) (c : Connection) (id : ℕ) (u : List ℕ)
      (r : Option (Connection × List Effect)) : Type 0 where
    pub taken : List Frame
    pub left : List ℕ
    pub after : DataBuffer
    pub ok : All (IsFrame g.header_size) taken
    pub split : u ≡ stream taken ++ left
    pub ending :
        ((r ≡ some (record c { buffer = after }, sends g c taken))
          × (Stands g.header_size after left × IsWaiting g.header_size left))
        ⊎ ((r
              ≡ some (
                record c { buffer = databuffer_clear after },
                sends g c taken ++ socket_close id ∷ error_logged ∷ [],
              ))
            × IsTooLong g.header_size left)

  pub loop_returned :
      (fuel : ℕ) (g : Gate) (c c₁ : Connection) (id : ℕ) (effects : List Effect)
      → dispatch_round decimal g c id ≡ some (returned c₁ effects)
      → dispatch_loop decimal (suc fuel) g c id ≡ some (c₁, effects)
  unfolding dispatch_loop
  loop_returned fuel g c c₁ id effects e = rw (dispatch_loop, e) refl

  pub loop_goes_on :
      (fuel : ℕ) (g : Gate) (c c₁ c₂ : Connection) (id : ℕ) (effects more : List Effect)
      → dispatch_round decimal g c id ≡ some (goes_on c₁ effects)
      → dispatch_loop decimal fuel g c₁ id ≡ some (c₂, more)
      → dispatch_loop decimal (suc fuel) g c id ≡ some (c₂, effects ++ more)
  unfolding dispatch_loop
  loop_goes_on fuel g c c₁ c₂ id effects more e f = rw (dispatch_loop, e, f) refl

  module _ (g : Gate) (id : ℕ) (positive : 0 < g.header_size) where
    one_more :
        (fuel : ℕ) (c : Connection) (u left : List ℕ) (f : Frame) (db : DataBuffer)
        → IsFrame g.header_size f
        → u ≡ f.0 ++ (f.1 ++ left)
        → dispatch_round decimal g c id
          ≡ some (goes_on (record c { buffer = db }) (forwarded decimal g c (f.1)))
        → Dispatched g
            (record c { buffer = db })
            id
            left
            (dispatch_loop decimal fuel g (record c { buffer = db }) id)
        → Dispatched g c id u (dispatch_loop decimal (suc fuel) g c id)
    unfolding message_of
    one_more fuel c u left f db ff front e d = record {
      taken = f ∷ d.taken;
      left = d.left;
      after = d.after;
      ok = (ff, d.ok);
      split =
          front
          ∙ ap (λ l. f.0 ++ (f.1 ++ l)) d.split
          ∙ sym (
              append_assoc (f.0) (f.1 ++ stream d.taken) d.left
              ∙ ap (λ l. f.0 ++ l) (append_assoc (f.1) (stream d.taken) d.left));
      ending = elim d.ending [
        | inl (r, rest) ↦ inl (
          loop_goes_on fuel g c (record c { buffer = db }) (record c { buffer = d.after }) id
              (forwarded decimal g c (f.1)) (sends g c d.taken) e r,
          rest,
        )
        | inr (r, long) ↦ inr (
          loop_goes_on fuel g c (record c { buffer = db })
                (record c { buffer = databuffer_clear d.after }) id (forwarded decimal g c (f.1))
                (sends g c d.taken ++ socket_close id ∷ error_logged ∷ []) e r
              ∙ ap (λ l. some (record c { buffer = databuffer_clear d.after }, l))
                  (sym (
                    append_assoc (forwarded decimal g c (f.1)) (sends g c d.taken)
                      (socket_close id ∷ error_logged ∷ []))),
          long,
        )
      ];
    }

    dispatch_loop-Dispatched :
        (fuel : ℕ) (c : Connection) (u : List ℕ)
        → HasReceiver g c
        → Stands g.header_size c.buffer u
        → length u < fuel
        → Dispatched g c id u (dispatch_loop decimal fuel g c id)
    dispatch_loop-Dispatched zero c u receiver s enough = absurd (omega arith)
    dispatch_loop-Dispatched (suc fuel) c u receiver s enough =
        elim (dispatch_round-RoundResult decimal g c id u receiver positive s) [
          | waits db e stands incomplete ↦ record {
            taken = [];
            left = u;
            after = db;
            ok = tt;
            split = refl;
            ending = inl (loop_returned fuel g c _ id [] e, (stands, incomplete));
          }
          | closes db e long ↦ record {
            taken = [];
            left = u;
            after = db;
            ok = tt;
            split = refl;
            ending =
                inr (loop_returned fuel g c _ id (socket_close id ∷ error_logged ∷ []) e, long);
          }
          | takes f left db ff front e stands ↦ one_more fuel c u left f db ff front e (
              dispatch_loop-Dispatched fuel (record c { buffer = db }) left receiver stands
                (omega (
                  arith,
                  ap length front,
                  length-append (f.0) (f.1 ++ left),
                  length-append (f.1) left,
                  ff.head,
                )))
        ]

    pub push-Stands :
        (db : DataBuffer) (u data_ : List ℕ)
        → Stands g.header_size db u
        → Stands g.header_size (databuffer_push db data_) (u ++ data_)
    unfolding databuffer_push
    push-Stands db u data_ s =
        let pushed = databuffer_push-IsBuffer db data_ s.ok in
        record {
          ok = pushed.1;
          unread = elim s.unread [
            | inl (none_pending, all) ↦
                inl (none_pending, ap (λ l. l ++ data_) all ∙ sym (pushed.0))
            | inr (head, (count, (says, (pending, front)))) ↦ inr (
              head,
              (
                count,
                (
                  says,
                  (
                    pending,
                    ap (λ l. l ++ data_) front
                        ∙ append_assoc head (contents db) data_
                        ∙ ap (λ l. head ++ l) (sym (pushed.0)),
                  ),
                ),
              ),
            )
          ];
        }

    pub unread_size :
        (db : DataBuffer) (u : List ℕ)
        → Stands g.header_size db u
        → length u ≤ db.size + g.header_size
    unread_size db u s = elim s.unread [
      | inl (none_pending, all) ↦ omega (arith, ap length all, s.ok.size)
      | inr (head, (count, (says, (pending, front)))) ↦
          omega (arith, ap length front, length-append head (contents db), count, s.ok.size)
    ]

    pub dispatch_message-Dispatched :
        (c : Connection) (u data_ : List ℕ)
        → HasReceiver g c
        → Stands g.header_size c.buffer u
        → Dispatched g c id (u ++ data_) (dispatch_message decimal g c id data_)
    unfolding dispatch_message message_of
    dispatch_message-Dispatched c u data_ receiver s =
        let there = push-Stands c.buffer u data_ s in
        let pushed = record c { buffer = databuffer_push c.buffer data_ } in
        let d =
          dispatch_loop-Dispatched (pushed.buffer.size + g.header_size + 1) pushed (u ++ data_)
            receiver there (omega (arith, unread_size pushed.buffer (u ++ data_) there)) in
        record {
          taken = d.taken;
          left = d.left;
          after = d.after;
          ok = d.ok;
          split = d.split;
          ending = d.ending;
        }
