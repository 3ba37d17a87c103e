-- ===== src/Cluster/Parts.antt =====
-- A message of lua-cluster.c that is too long for one packet: its parts, and `lconcat` of them.
use ddzproject.Prelude.{
  ℕ, zero, suc, ◌+◌, ◌*◌, ◌^◌, ◌≤◌, ◌<◌, ◌≡◌, refl, sym, ap, ap₂, ◌∙◌, true, false, some, List, [],
  ◌∷◌, ◌++◌, take, drop, length, map, All, le→ltb, lt→ltb, ==_iff, arith, append-nil, length-append,
  length-take, length-drop, take-append-drop, take-all,
}
use ddzproject.Buffer.Read.{joined}
use ddzproject.Cluster.{
  returned, multi_part, fill_uint32, packreq_multi, Unpacked, request_part, unpackmreq_part,
  lunpackrequest, concat_from,
}
use ddzproject.Cluster.Words.{
  unpack_uint32-fill_uint32, header_bytes, fill_header_lem, IsFramed, header_bytes-IsFramed,
  length-fill_uint32,
}

-- The parts as they are read: of all but the last one it is said that more follow.
abbrev pub read_parts : ℕ → List (List ℕ) → List Unpacked
read_parts session [] = []
read_parts session (b ∷ []) = request_part session b false ∷ []
read_parts session (b ∷ (b' ∷ bs)) = request_part session b true ∷ read_parts session (b' ∷ bs)

abbrev pub unpack : List ℕ → Unpacked
unpack p = lunpackrequest (drop 2 p)

-- The loop makes parts that are read back, and whose bytes are those of the message.
pub record Parted (part session : ℕ) (msg : List ℕ) : Type 0 where
  pub bodies : List (List ℕ)
  pub parts : List (List ℕ)
  pub result : packreq_multi part session msg ≡ returned parts
  pub framed : All IsFramed parts
  pub read : map unpack parts ≡ read_parts session bodies
  pub whole : joined bodies ≡ msg
  pub count : length bodies ≡ part

packet : ℕ → ℕ → List ℕ → List ℕ
packet kind session body = header_bytes (length body + 5) ++ kind ∷ (fill_uint32 session ++ body)

packet-IsFramed :
    (kind session : ℕ) (body : List ℕ)
    → length body ≤ multi_part
    → IsFramed (packet kind session body)
unfolding packet
packet-IsFramed kind session body le =
    header_bytes-IsFramed (length body + 5) (kind ∷ (fill_uint32 session ++ body)) (omega arith)
      (omega (arith, length-fill_uint32 session body))

unpack-part :
    (session : ℕ) (body : List ℕ)
    → session < 2 ^ 32
    → (unpack (packet 2 session body) ≡ request_part session body true)
      × (unpack (packet 3 session body) ≡ request_part session body false)
unfolding packet lunpackrequest unpackmreq_part fill_uint32 header_bytes
unpack-part session body lt = (
  rw (le→ltb (length (2 ∷ (fill_uint32 session ++ body))) 5 (omega arith))
      (ap (λ s. request_part s body true) (unpack_uint32-fill_uint32 session body lt)),
  rw (le→ltb (length (3 ∷ (fill_uint32 session ++ body))) 5 (omega arith))
      (ap (λ s. request_part s body false) (unpack_uint32-fill_uint32 session body lt)),
)

next_part :
    (part session : ℕ) (msg : List ℕ) (ps : List (List ℕ))
    → multi_part < length msg
    → packreq_multi part session (drop multi_part msg) ≡ returned ps
    → packreq_multi (suc part) session msg ≡ returned (packet 2 session (take multi_part msg) ∷ ps)
unfolding packreq_multi packet
next_part part session msg ps lt e =
    rw
      (
        packreq_multi,
        lt→ltb multi_part (length msg) lt,
        fill_header_lem (multi_part + 5) (omega arith),
        e,
      )
      (ap
        (λ (k : ℕ).
          returned
            ((header_bytes (k + 5) ++ 2 ∷ (fill_uint32 session ++ take multi_part msg)) ∷ ps))
        {x = multi_part} {y = length (take multi_part msg)}
        (omega (arith, length-take multi_part msg)))

last_part :
    (session : ℕ) (msg : List ℕ)
    → length msg ≤ multi_part
    → packreq_multi 1 session msg ≡ returned (packet 3 session msg ∷ [])
unfolding packreq_multi packet
last_part session msg le =
    rw
      (
        packreq_multi,
        le→ltb multi_part (length msg) le,
        fill_header_lem (length msg + 5) (omega arith),
      )
      (ap (λ l. returned ((header_bytes (length msg + 5) ++ 3 ∷ (fill_uint32 session ++ l)) ∷ []))
        (take-all (length msg) msg (omega arith)))

read_more :
    (session : ℕ) (b : List ℕ) (bs : List (List ℕ))
    → 0 < length bs
    → read_parts session (b ∷ bs) ≡ request_part session b true ∷ read_parts session bs
read_more session b [] pos = absurd (omega arith)
read_more session b (b' ∷ bs) pos = refl

pub packreq_multi-Parted :
    (part session : ℕ) (msg : List ℕ)
    → session < 2 ^ 32
    → part * multi_part < length msg
    → length msg ≤ (part + 1) * multi_part
    → Parted (suc part) session msg
packreq_multi-Parted zero session msg lt more le = record {
  bodies = msg ∷ [];
  parts = packet 3 session msg ∷ [];
  result = last_part session msg (omega arith);
  framed = (packet-IsFramed 3 session msg (omega arith), tt);
  read = ap (λ u. u ∷ []) ((unpack-part session msg lt).1);
  whole = append-nil msg;
  count = refl;
}
packreq_multi-Parted (suc part) session msg lt more le =
    let head = take multi_part msg in
    let p =
      packreq_multi-Parted part session (drop multi_part msg) lt
        (omega (arith, length-drop multi_part msg)) (omega (arith, length-drop multi_part msg)) in
    record {
      bodies = head ∷ p.bodies;
      parts = packet 2 session head ∷ p.parts;
      result = next_part (suc part) session msg p.parts (omega arith) p.result;
      framed =
          (packet-IsFramed 2 session head (omega (arith, length-take multi_part msg)), p.framed);
      read =
          ap₂ (λ (u : Unpacked) (us : List Unpacked). u ∷ us) ((unpack-part session head lt).0)
            p.read
          ∙ sym (read_more session head p.bodies (omega (arith, p.count)));
      whole = ap (λ l. head ++ l) p.whole ∙ take-append-drop multi_part msg;
      count = ap suc p.count;
    }

pub concat_from_lem :
    (strs : List (List ℕ)) (sz offset : ℕ)
    → offset + length (joined strs) ≡ sz
    → concat_from sz offset strs ≡ some (joined strs)
unfolding concat_from
concat_from_lem [] sz offset e = rw (concat_from, (==_iff offset sz).1 (omega (arith, e))) refl
concat_from_lem (str ∷ strs) sz offset e =
    let size = length-append str (joined strs) in
    rw
      (
        concat_from,
        le→ltb sz (length str + offset) (omega (arith, size, e)),
        concat_from_lem strs sz (offset + length str) (omega (arith, size, e)),
      )
      refl
