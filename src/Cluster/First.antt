-- ===== src/Cluster/First.antt =====
-- The first packet of a request of lua-cluster.c.
use ddzproject.Prelude.{
  ℕ, ◌+◌, ◌^◌, ◌≤◌, ◌<◌, ◌≡◌, refl, sym, ap, List, ◌∷◌, ◌++◌, length, le→ltb, lt→ltb, arith,
  length-append,
}
use ddzproject.Cluster.{
  Address, number, name, returned, multi_part, fill_uint32, parts_of, packreq_number,
  packreq_string, packreq,
}
use ddzproject.Cluster.Words.{
  header_bytes, fill_header_lem, IsFramed, header_bytes-IsFramed, length-fill_uint32,
}

abbrev pub IsAddress : Address → Type 0
IsAddress (number addr) = addr < 2 ^ 32
IsAddress (name str) = (0 < length str) × (length str < 256)

-- The bytes of a packet behind its type and the address, as `packreq_number` and `packreq_string` make them.
unfoldable pub addressed : Address → ℕ → ℕ → List ℕ → List ℕ
addressed (number addr) kind session body =
    kind ∷ (fill_uint32 addr ++ (fill_uint32 session ++ body))
addressed (name str) kind session body =
    (0x80 + kind) ∷ length str ∷ (str ++ (fill_uint32 session ++ body))

unfoldable pub first_packet : Address → ℕ → ℕ → List ℕ → List ℕ
first_packet addr kind session body =
    header_bytes (length (addressed addr kind session body)) ++ addressed addr kind session body

length-addressed_number :
    (addr kind session : ℕ) (body : List ℕ)
    → length (addressed (number addr) kind session body) ≡ length body + 9
unfolding addressed
length-addressed_number addr kind session body =
    omega (
      arith,
      length-fill_uint32 addr (fill_uint32 session ++ body),
      length-fill_uint32 session body,
    )

length-addressed_name :
    (str : List ℕ) (kind session : ℕ) (body : List ℕ)
    → length (addressed (name str) kind session body) ≡ length body + 6 + length str
unfolding addressed
length-addressed_name str kind session body =
    omega (arith, length-append str (fill_uint32 session ++ body), length-fill_uint32 session body)

pub first-IsFramed :
    (addr : Address) (kind session : ℕ) (body : List ℕ)
    → IsAddress addr
    → length body < multi_part
    → IsFramed (first_packet addr kind session body)
unfolding first_packet
first-IsFramed (number addr) kind session body ok lt =
    header_bytes-IsFramed _ (addressed (number addr) kind session body)
      (omega (arith, length-addressed_number addr kind session body)) refl
first-IsFramed (name str) kind session body ok lt =
    header_bytes-IsFramed _ (addressed (name str) kind session body)
      (omega (arith, ok.1, length-addressed_name str kind session body)) refl

pub one_packet :
    (addr : Address) (session : ℕ) (msg : List ℕ)
    → IsAddress addr
    → length msg < multi_part
    → packreq addr session msg ≡ returned (first_packet addr 0 session msg, 0)
unfolding packreq_number packreq_string first_packet addressed
one_packet (number addr) session msg ok lt =
    rw
      (
        packreq_number,
        lt→ltb (length msg) multi_part lt,
        fill_header_lem (length msg + 9) (omega arith),
      )
      (ap
        (λ k.
          returned (header_bytes k ++ 0 ∷ (fill_uint32 addr ++ (fill_uint32 session ++ msg)), 0))
        (sym (length-addressed_number addr 0 session msg)))
one_packet (name str) session msg ok lt =
    rw
      (
        packreq_string,
        le→ltb (length str) 1 (omega (arith, ok.0)),
        le→ltb 255 (length str) (omega (arith, ok.1)),
        lt→ltb (length msg) multi_part lt,
        fill_header_lem (length msg + 6 + length str) (omega (arith, ok.1)),
      )
      (ap
        (λ k.
          returned (header_bytes k ++ 0x80 ∷ length str ∷ (str ++ (fill_uint32 session ++ msg)), 0))
        (sym (length-addressed_name str 0 session msg)))

pub announced :
    (addr : Address) (session : ℕ) (msg : List ℕ)
    → IsAddress addr
    → multi_part ≤ length msg
    → packreq addr session msg
      ≡ returned (first_packet addr 1 session (fill_uint32 (length msg)), parts_of (length msg))
unfolding packreq_number packreq_string first_packet addressed fill_uint32
announced (number addr) session msg ok le =
    rw (packreq_number, le→ltb (length msg) multi_part le, fill_header_lem 13 (omega arith)) refl
announced (name str) session msg ok le =
    rw
      (
        packreq_string,
        le→ltb (length str) 1 (omega (arith, ok.0)),
        le→ltb 255 (length str) (omega (arith, ok.1)),
        le→ltb (length msg) multi_part le,
        fill_header_lem (10 + length str) (omega (arith, ok.1)),
      )
      (ap
        (λ k. returned (
          header_bytes k
              ++ 0x81 ∷ length str ∷ (str ++ (fill_uint32 session ++ fill_uint32 (length msg))),
          parts_of (length msg),
        ))
        {x = 10 + length str}
        {y = length (addressed (name str) 1 session (fill_uint32 (length msg)))}
        (omega (arith, length-addressed_name str 1 session (fill_uint32 (length msg)))))
