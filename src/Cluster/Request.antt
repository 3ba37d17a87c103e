-- ===== src/Cluster/Request.antt =====
-- `lpackrequest` of lua-cluster.c against `lunpackrequest` and `lconcat`.
use ddzproject.Prelude.{
  ◌%◌, ℕ, zero, suc, ◌+◌, ◌-◌, ◌/◌, ◌^◌, ◌≤◌, ◌<◌, ◌≡◌, ◌⊎◌, inl, inr, refl, sym, ap, ap₂, ◌∙◌,
  none, some, List, [], ◌∷◌, ◌++◌, drop, length, map, All, ◌==◌, if◌then◌else◌, le→ltb, lt→leb,
  ==_ne, arith, append-nil, length-append, take-append_self,
}
use native.Mathlib.Decide.{dec_lt}
use ddzproject.Buffer.Read.{joined}
use ddzproject.Cluster.{
  Address, number, name, Outcome, returned, ◌>>=◌, multi_part, fill_uint32, unpack_uint32, parts_of,
  packreq, packreq_multi, Packets, after_session, lpackrequest, request, multi_request,
  unpackreq_number, unpackmreq_number, unpackreq_string, unpackmreq_string, lunpackrequest, lconcat,
}
use ddzproject.Cluster.Words.{unpack_uint32-fill_uint32, header_bytes, IsFramed, length-fill_uint32}
use ddzproject.Cluster.Parts.{unpack, read_parts, packreq_multi-Parted, concat_from_lem}
use ddzproject.Cluster.First.{
  IsAddress, addressed, first_packet, first-IsFramed, one_packet, announced,
}

unpack-one_number :
    (addr session : ℕ) (msg : List ℕ)
    → addr < 2 ^ 32
    → session < 2 ^ 32
    → unpack (first_packet (number addr) 0 session msg) ≡ request (number addr) session msg
unfolding first_packet addressed lunpackrequest unpackreq_number fill_uint32 header_bytes
unpack-one_number addr session msg ok lt =
    rw (le→ltb (length (0 ∷ (fill_uint32 addr ++ (fill_uint32 session ++ msg)))) 9 (omega arith)) (
      ap₂ (λ (a s : ℕ). request (number a) s msg)
        (unpack_uint32-fill_uint32 addr (fill_uint32 session ++ msg) ok)
        (unpack_uint32-fill_uint32 session msg lt))

unpack-announced_number :
    (addr session size : ℕ)
    → addr < 2 ^ 32
    → session < 2 ^ 32
    → size < 2 ^ 32
    → unpack (first_packet (number addr) 1 session (fill_uint32 size))
      ≡ multi_request (number addr) session size
unfolding first_packet addressed lunpackrequest unpackmreq_number fill_uint32 header_bytes
unpack-announced_number addr session size ok lt small =
    ap₂ (λ (a s : ℕ). multi_request (number a) s (unpack_uint32 (fill_uint32 size)))
      (unpack_uint32-fill_uint32 addr (fill_uint32 session ++ fill_uint32 size) ok)
      (unpack_uint32-fill_uint32 session (fill_uint32 size) lt)
    ∙ ap (multi_request (number addr) session) (
        ap unpack_uint32 (sym (append-nil (fill_uint32 size)))
        ∙ unpack_uint32-fill_uint32 size [] small)

drop-past : (xs ys : List ℕ) (k n : ℕ) → n ≡ length xs + k → drop n (xs ++ ys) ≡ drop k ys
drop-past [] ys k n e = ap (λ m. drop m ys) (omega (arith, e))
drop-past (x ∷ xs) ys k zero e = absurd (omega arith)
drop-past (x ∷ xs) ys k (suc n) e = drop-past xs ys k n (omega arith)

unpack-one_name :
    (str : List ℕ) (session : ℕ) (msg : List ℕ)
    → session < 2 ^ 32
    → unpack (first_packet (name str) 0 session msg) ≡ request (name str) session msg
unfolding first_packet addressed lunpackrequest unpackreq_string fill_uint32 header_bytes
unpack-one_name str session msg lt =
    let rest = fill_uint32 session ++ msg in
    let buf = 0x80 ∷ length str ∷ (str ++ rest) in
    let size = length-append str rest in
    rw
      (
        le→ltb (length buf) 2 (omega arith),
        le→ltb (length buf) (length str + 6) (omega (arith, size)),
        take-append_self str rest (length str) refl,
        drop-past (0x80 ∷ length str ∷ str) rest 0 (length str + 2) (omega arith),
        drop-past (0x80 ∷ length str ∷ str) rest 4 (2 + length str + 4) (omega arith),
      )
      (ap (λ (s : ℕ). request (name str) s msg) (unpack_uint32-fill_uint32 session msg lt))

unpack-announced_name :
    (str : List ℕ) (session size : ℕ)
    → session < 2 ^ 32
    → size < 2 ^ 32
    → unpack (first_packet (name str) 1 session (fill_uint32 size))
      ≡ multi_request (name str) session size
unfolding first_packet addressed lunpackrequest unpackmreq_string fill_uint32 header_bytes
unpack-announced_name str session n lt small =
    let rest = fill_uint32 session ++ fill_uint32 n in
    let buf = 0x81 ∷ length str ∷ (str ++ rest) in
    let size = length-append str rest in
    rw
      (
        le→ltb (length buf) 2 (omega arith),
        le→ltb (length buf) (length str + 10) (omega (arith, size)),
        take-append_self str rest (length str) refl,
        drop-past (0x81 ∷ length str ∷ str) rest 0 (length str + 2) (omega arith),
        drop-past (0x81 ∷ length str ∷ str) rest 4 (length str + 6) (omega arith),
      )
      (ap₂ (λ (s k : ℕ). multi_request (name str) s k)
        (unpack_uint32-fill_uint32 session (fill_uint32 n) lt)
        (ap unpack_uint32 (sym (append-nil (fill_uint32 n)))
          ∙ unpack_uint32-fill_uint32 n [] small))

unpack-one :
    (addr : Address) (session : ℕ) (msg : List ℕ)
    → IsAddress addr
    → session < 2 ^ 32
    → unpack (first_packet addr 0 session msg) ≡ request addr session msg
unpack-one (number addr) session msg ok lt = unpack-one_number addr session msg ok lt
unpack-one (name str) session msg ok lt = unpack-one_name str session msg lt

unpack-announced :
    (addr : Address) (session size : ℕ)
    → IsAddress addr
    → session < 2 ^ 32
    → size < 2 ^ 32
    → unpack (first_packet addr 1 session (fill_uint32 size)) ≡ multi_request addr session size
unpack-announced (number addr) session size ok lt small =
    unpack-announced_number addr session size ok lt small
unpack-announced (name str) session size ok lt small =
    unpack-announced_name str session size lt small

-- What the node at the other end gets: the request, or its size, and parts that make up the message.
pub record Arrives (addr : Address) (session : ℕ) (msg : List ℕ) (r : Outcome Packets)
    : Type 0 where
  pub packets : Packets
  pub result : r ≡ returned packets
  pub framed : IsFramed packets.first
  pub arrived :
      ((packets.parts ≡ none) × (unpack packets.first ≡ request addr session msg))
      ⊎ ((bodies : List (List ℕ)) × ((ps : List (List ℕ)) × ((packets.parts ≡ some ps)
              × (All IsFramed ps
                  × ((unpack packets.first ≡ multi_request addr session (length msg))
                      × ((map unpack ps ≡ read_parts session bodies)
                          × (lconcat (length msg) bodies ≡ some msg)))))))

session_ok :
    (addr : Address) (session : ℕ) (msg : List ℕ) (bytes : List ℕ) (part : ℕ)
    → 0 < session
    → session < 2 ^ 31
    → packreq addr session msg ≡ returned (bytes, part)
    → lpackrequest addr session msg ≡ (
        if part == 0
        then returned (record { first = bytes; next_session = after_session session; parts = none })
        else do
          ps ← packreq_multi part session msg
          returned
              (record { first = bytes; next_session = after_session session; parts = some ps }))
unfolding lpackrequest
session_ok addr session msg bytes part pos lt e =
    rw (lpackrequest, ==_ne session 0 (omega arith), lt→leb (2 ^ 31) session lt, e) refl

lpackrequest-one :
    (addr : Address) (session : ℕ) (msg : List ℕ)
    → IsAddress addr
    → 0 < session
    → session < 2 ^ 31
    → length msg < multi_part
    → Arrives addr session msg (lpackrequest addr session msg)
lpackrequest-one addr session msg ok pos lt small = record {
  packets = record {
    first = first_packet addr 0 session msg;
    next_session = after_session session;
    parts = none;
  };
  result =
      session_ok addr session msg (first_packet addr 0 session msg) 0 pos lt
        (one_packet addr session msg ok small);
  framed = first-IsFramed addr 0 session msg ok small;
  arrived = inl (refl, unpack-one addr session msg ok (omega arith));
}

lconcat-whole :
    (strs : List (List ℕ)) (msg : List ℕ)
    → length msg < 2 ^ 31
    → joined strs ≡ msg
    → lconcat (length msg) strs ≡ some msg
unfolding lconcat
lconcat-whole strs msg small whole =
    let sz : length msg % 2 ^ 32 ≡ length msg = omega arith in
    rw (sz, lt→leb (2 ^ 31) (length msg) small)
      (concat_from_lem strs (length msg) 0 (omega (arith, ap length whole)) ∙ ap some whole)

lpackrequest-many :
    (addr : Address) (session : ℕ) (msg : List ℕ)
    → IsAddress addr
    → 0 < session
    → session < 2 ^ 31
    → multi_part ≤ length msg
    → length msg < 2 ^ 31
    → Arrives addr session msg (lpackrequest addr session msg)
unfolding fill_uint32
lpackrequest-many addr session msg ok pos lt big small =
    let first = first_packet addr 1 session (fill_uint32 (length msg)) in
    let part = (length msg - 1) / multi_part in
    let p = packreq_multi-Parted part session msg (omega arith) (omega arith) (omega arith) in
    let count : suc part ≡ parts_of (length msg) = omega arith in
    record {
      packets = record {
        first = first;
        next_session = after_session session;
        parts = some p.parts;
      };
      result =
          session_ok addr session msg first (parts_of (length msg)) pos lt
            (announced addr session msg ok big)
          ∙ rw
              (
                ==_ne (parts_of (length msg)) 0 (omega arith),
                sym (ap (λ k. packreq_multi k session msg) count) ∙ p.result,
              )
              refl;
      framed =
          first-IsFramed addr 1 session (fill_uint32 (length msg)) ok
            (omega (arith, length-fill_uint32 (length msg) []));
      arrived = inr (
        p.bodies,
        (
          p.parts,
          (
            refl,
            (
              p.framed,
              (
                unpack-announced addr session (length msg) ok (omega arith) (omega arith),
                (p.read, lconcat-whole p.bodies msg small p.whole),
              ),
            ),
          ),
        ),
      );
    }

-- For a session of an `int` above 0, an address of 32 bits or a name of 1 to 255 bytes, and a message of
-- less than 2^31 bytes, `lpackrequest` makes packets that begin with their size. A short message comes back
-- whole from `lunpackrequest` with its address and session. A long one is announced with its size, comes
-- back in parts, with the session and with whether more follow, and `lconcat` of them is the message.
pub lunpackrequest-lpackrequest :
    (addr : Address) (session : ℕ) (msg : List ℕ)
    → IsAddress addr
    → 0 < session
    → session < 2 ^ 31
    → length msg < 2 ^ 31
    → Arrives addr session msg (lpackrequest addr session msg)
lunpackrequest-lpackrequest addr session msg ok pos lt small =
    elim (dec_lt (length msg) multi_part) [
      | yes short ↦ lpackrequest-one addr session msg ok pos lt short
      | no long ↦ lpackrequest-many addr session msg ok pos lt (omega arith) small
    ]
