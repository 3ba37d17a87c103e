-- ===== src/Gate/Stream.antt =====
-- A stream of packets that comes to service_gate.c from one socket, in messages that are cut anywhere.
use ddzproject.Prelude.{
  ℕ, ◌<◌, ◌≡◌, inl, inr, refl, sym, ap, ◌∙◌, subst, Option, some, none, List, [], ◌∷◌, ◌++◌, All,
  append_assoc, append-nil,
}
use ddzproject.Buffer.{DataBuffer}
use ddzproject.Buffer.Read.{joined}
use ddzproject.Gate.{Connection, Gate, Effect, message_of, dispatch_message}
use ddzproject.Gate.Frames.{
  Frame, stream, IsFrame, Incomplete, cancel, stream-short, stream-Incomplete, IsWaiting-Incomplete,
  no_frame,
}
use ddzproject.Gate.Rounds.{Stands, HasReceiver}
use ddzproject.Gate.Forward.{sends, sends-append, dispatch_message-Dispatched}

module _ (decimal : ℕ → List ℕ) where
  -- The messages of a socket, each with all that is sent before the next.
  pub dispatch_messages : Gate → Connection → ℕ → List (List ℕ) → Option (Connection × List Effect)
  dispatch_messages g c id [] = some (c, [])
  dispatch_messages g c id (m ∷ ms) = elim (dispatch_message decimal g c id m) [
    | none ↦ none
    | some (c₁, effects) ↦ elim (dispatch_messages g c₁ id ms) [
      | none ↦ none
      | some (c₂, more) ↦ some (c₂, effects ++ more)
    ]
  ]

  next_message :
      (g : Gate) (c c₁ c₂ : Connection) (id : ℕ) (m : List ℕ) (ms : List (List ℕ))
      (effects more : List Effect)
      → dispatch_message decimal g c id m ≡ some (c₁, effects)
      → dispatch_messages g c₁ id ms ≡ some (c₂, more)
      → dispatch_messages g c id (m ∷ ms) ≡ some (c₂, effects ++ more)
  unfolding dispatch_messages
  next_message g c c₁ c₂ id m ms effects more e f = rw (dispatch_messages, e, f) refl

  -- All packets are forwarded, and no byte is left over.
  pub record Forwards (g : Gate) (c : Connection) (id : ℕ) (fs : List Frame)
      (r : Option (Connection × List Effect)) : Type 0 where
    pub after : DataBuffer
    pub result : r ≡ some (record c { buffer = after }, sends decimal g c fs)
    pub stands : Stands g.header_size after []

  module _ (g : Gate) (id : ℕ) (positive : 0 < g.header_size) where
    forward_rest :
        (ms : List (List ℕ)) (c : Connection) (u : List ℕ) (fs : List Frame)
        → HasReceiver g c
        → Stands g.header_size c.buffer u
        → Incomplete g.header_size u
        → All (IsFrame g.header_size) fs
        → u ++ joined ms ≡ stream fs
        → Forwards g c id fs (dispatch_messages g c id ms)
    unfolding dispatch_messages message_of
    forward_rest [] c u fs receiver s none_whole ok e =
        let all = sym (append-nil u) ∙ e in
        let no_more =
          stream-Incomplete g.header_size positive fs ok
            (subst (λ l. Incomplete g.header_size l) all none_whole) in
        record {
          after = c.buffer;
          result = ap (λ l. some (c, sends decimal g c l)) (sym no_more);
          stands = subst (λ l. Stands g.header_size c.buffer l) (all ∙ ap stream no_more) s;
        }
    forward_rest (m ∷ ms) c u fs receiver s none_whole ok e =
        let d = dispatch_message-Dispatched decimal g id positive c u m receiver s in
        let (rest, (parts, (left, ok'))) =
          cancel g.header_size positive d.taken fs (d.left ++ joined ms) d.ok ok (
            sym (append_assoc (stream d.taken) d.left (joined ms))
            ∙ ap (λ l. l ++ joined ms) (sym d.split)
            ∙ append_assoc u m (joined ms)
            ∙ e) in
        elim d.ending [
          | inr (r, long) ↦
              absurd (stream-short g.header_size positive rest d.left (joined ms) ok' left long)
          | inl (r, (stands, incomplete)) ↦
              let f =
                forward_rest ms (record c { buffer = d.after }) d.left rest receiver stands
                  (IsWaiting-Incomplete g.header_size d.left incomplete) ok' left in
              record {
                after = f.after;
                result =
                    next_message g c (record c { buffer = d.after }) (record c { buffer = f.after })
                      id m ms (sends decimal g c d.taken) (sends decimal g c rest) r f.result
                    ∙ ap (λ l. some (record c { buffer = f.after }, l))
                        (sym (sends-append decimal g c d.taken rest)
                          ∙ ap (sends decimal g c) (sym parts));
                stands = f.stands;
              }
        ]

    -- When a stream of packets, each with a header of its size, below 16M, comes in messages that are cut
    -- anywhere, and there is a receiver, each packet that is not empty is forwarded once, in their order, and
    -- no byte is left in the buffer.
    pub dispatch_messages-Forwards :
        (ms : List (List ℕ)) (c : Connection) (fs : List Frame)
        → HasReceiver g c
        → Stands g.header_size c.buffer []
        → All (IsFrame g.header_size) fs
        → joined ms ≡ stream fs
        → Forwards g c id fs (dispatch_messages g c id ms)
    dispatch_messages-Forwards ms c fs receiver s ok e =
        forward_rest ms c [] fs receiver s (λ f rest ff. no_frame g.header_size positive f rest ff)
          ok e
