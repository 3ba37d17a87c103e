-- ===== src/Netpack/Received.antt =====
-- What the handler of gateserver.lua gets of a stream that comes in over lua-netpack.c.
use ddzproject.Prelude.{
  Bool, Bool-cases, inl, inr, ℕ, suc, ◌<◌, ◌≤◌, ◌≡◌, ◌≢◌, refl, sym, ap, ap₂, ◌∙◌, Option, some,
  List, [], ◌∷◌, ◌++◌, map, length, ◌^◌, arith, All, append_assoc, append-nil, subst,
}
use ddzproject.Netpack.{NetPack, Queue, get_queue, Filtered, nothing, packet, more, filter_data}
use ddzproject.Netpack.Ring.{IsRing, ring, length-ring}
use ddzproject.Netpack.Waiting.{waiting}
use ddzproject.Netpack.Advance.{pending, IsOpen, joined, packs, Advances}
use ddzproject.Netpack.Fill.{sent}
use ddzproject.Netpack.Stream.{filter_data-Filters}
use ddzproject.Netpack.Gate.{
  dispatched, received, packets, concat, packs-map, packets-append, joined-append, map-some,
  pop_all-Empties, dispatch_msg, dispatch_msg-packets, handed, handed-append,
}

-- The state between two socket messages: the queue is empty, and less than a packet waits.
pub record Rests (S : Option Queue) (fd : ℕ) : Type 0 where
  pub in_ring : IsRing (get_queue S)
  pub empty : ring (get_queue S) ≡ []
  pub open_here : IsOpen (waiting (get_queue S) fd)

-- From `S` the packets `fs` were dispatched, to the handler if there is a connection, and `text` is what
-- they and what waits spell.
pub record Receives (connection : ℕ → Bool) (S : Option Queue) (fd : ℕ)
    (r : List NetPack × Option Queue) (fs : List (List ℕ)) (text : List ℕ) : Type 0 where
  pub got : r.0 ≡ handed connection fd (packets fd fs)
  pub rests : Rests (r.1) fd
  pub short : All (λ b. length b < 2 ^ 16) fs
  pub bytes : joined fs ++ pending (waiting (get_queue (r.1)) fd) ≡ text

length-map : (xs : List NetPack) → length (map some xs) ≡ length xs
length-map [] = refl
length-map (x ∷ xs) = ap suc (length-map xs)

dispatched-Receives :
    (connection : ℕ → Bool) (S : Option Queue) (fd : ℕ) (text : List ℕ) (f : Filtered)
    (T : Option Queue) (fs : List (List ℕ))
    → ring (get_queue S) ≡ []
    → Advances S T fd fs (sent f) text
    → (f ≢ more → ring (get_queue T) ≡ ring (get_queue S))
    → Receives connection S fd (dispatched connection (f, T)) fs text
unfolding dispatched
dispatched-Receives connection S fd text nothing T fs e a quiet = record {
  got =
      unfold dispatch_msg in
      ap (dispatch_msg connection) same ∙ dispatch_msg-packets connection fd fs;
  rests = record { in_ring = a.in_ring; empty = empty; open_here = a.open_here };
  short = a.short;
  bytes = a.bytes;
}
  where
    empty : ring (get_queue T) ≡ []
    empty = quiet (λ p. cc p) ∙ e

    out : [] ≡ packs fd fs
    out =
        unfold sent in
        (sym (ap (λ xs. xs ++ []) empty) ∙ (a.queued ∙ ap (λ xs. xs ++ packs fd fs) e))

    same : [] ≡ packets fd fs
    same = map-some [] (packets fd fs) (out ∙ packs-map fd fs)
dispatched-Receives connection S fd text (packet np) T fs e a quiet = record {
  got = ap (dispatch_msg connection) same ∙ dispatch_msg-packets connection fd fs;
  rests = record { in_ring = a.in_ring; empty = empty; open_here = a.open_here };
  short = a.short;
  bytes = a.bytes;
}
  where
    empty : ring (get_queue T) ≡ []
    empty = quiet (λ p. cc p) ∙ e

    out : some np ∷ [] ≡ packs fd fs
    out =
        unfold sent in
        (sym (ap (λ xs. xs ++ some np ∷ []) empty) ∙ (a.queued ∙ ap (λ xs. xs ++ packs fd fs) e))

    same : np ∷ [] ≡ packets fd fs
    same = map-some (np ∷ []) (packets fd fs) (out ∙ packs-map fd fs)
dispatched-Receives connection S fd text more T fs e a quiet =
    let (S', p) = pop_all-Empties (packets fd fs) (get_queue T).cap T enough a.in_ring held in
    rw p.result record {
      got = dispatch_msg-packets connection fd fs;
      rests = record {
        in_ring = p.in_ring;
        empty = p.left;
        open_here = subst IsOpen (sym (p.same fd)) a.open_here;
      };
      short = a.short;
      bytes = ap (λ w. joined fs ++ pending w) (p.same fd) ∙ a.bytes;
    }
  where
    held : ring (get_queue T) ≡ map some (packets fd fs)
    held =
        sym (append-nil _)
        ∙ (unfold sent in a.queued ∙ (ap (λ xs. xs ++ packs fd fs) e ∙ packs-map fd fs))

    enough : length (packets fd fs) ≤ (get_queue T).cap
    enough =
        omega
          (arith, length-ring (get_queue T) a.in_ring, ap length held, length-map (packets fd fs))

All-append :
    (fs gs : List (List ℕ))
    → All (λ b. length b < 2 ^ 16) fs
    → All (λ b. length b < 2 ^ 16) gs
    → All (λ b. length b < 2 ^ 16) (fs ++ gs)
All-append [] gs h k = k
All-append (b ∷ fs) gs h k = (h.0, All-append fs gs (h.1) k)

joins :
    (connection : ℕ → Bool) (S : Option Queue) (fd : ℕ) (c : List ℕ) (cs fs gs : List (List ℕ))
    → let T = (dispatched connection (filter_data S fd c)).1 in
      Receives connection S fd
        (dispatched connection (filter_data S fd c))
        fs
        (pending (waiting (get_queue S) fd) ++ c)
      → Receives connection T fd
          (received connection T fd cs)
          gs
          (pending (waiting (get_queue T) fd) ++ concat cs)
      → Receives connection S fd
          (received connection S fd (c ∷ cs))
          (fs ++ gs)
          (pending (waiting (get_queue S) fd) ++ concat (c ∷ cs))
unfolding received concat
joins connection S fd c cs fs gs now later = record {
  got =
      ap₂ (λ xs ys. xs ++ ys) now.got later.got
      ∙ handed-append connection fd (packets fd fs) (packets fd gs)
      ∙ ap (handed connection fd) (sym (packets-append fd fs gs));
  rests = later.rests;
  short = All-append fs gs now.short later.short;
  bytes =
      joined-append fs gs _
      ∙ (ap (λ xs. joined fs ++ xs) later.bytes
          ∙ (sym (append_assoc (joined fs) _ (concat cs))
              ∙ (ap (λ xs. xs ++ concat cs) now.bytes ∙ append_assoc _ c (concat cs))));
}

handed-nil : (connection : ℕ → Bool) (fd : ℕ) → [] ≡ handed connection fd []
handed-nil connection fd = elim (Bool-cases (connection fd)) [
  | inl e ↦ rw e refl
  | inr e ↦ rw e refl
]

-- When the ring is valid and empty and less than a packet waits for `fd`: however the bytes that come in for
-- `fd` are cut into buffers that are not empty, packets are dispatched that `lpack` makes into just the bytes
-- that waited for `fd` and those that came in, but for less than a packet that waits at the end; the queue is
-- empty again. While `fd` has a connection the handler gets all of them, and while it
-- has none they are dropped.
pub received-Receives :
    (connection : ℕ → Bool) (S : Option Queue) (fd : ℕ) (chunks : List (List ℕ))
    → Rests S fd
    → All (λ c. (0 < length c) × All (λ b. b < 256) c) chunks
    → (fs : List (List ℕ)) × Receives connection S fd
        (received connection S fd chunks)
        fs
        (pending (waiting (get_queue S) fd) ++ concat chunks)
received-Receives connection S fd [] r h =
    unfold received concat in
    (
      [],
      record {
        got = unfold packets in handed-nil connection fd;
        rests = r;
        short = tt;
        bytes = unfold joined in sym (append-nil _);
      },
    )
received-Receives connection S fd (c ∷ cs) r h =
    let (fs, a, quiet) = filter_data-Filters S fd c r.in_ring r.open_here (h.0.0) (h.0.1) in
    let now =
      dispatched-Receives connection S fd _ (filter_data S fd c).0 (filter_data S fd c).1 fs r.empty
        a quiet in
    let (gs, later) =
      received-Receives connection (dispatched connection (filter_data S fd c)).1 fd cs now.rests
        (h.1) in
    (fs ++ gs, joins connection S fd c cs fs gs now later)
