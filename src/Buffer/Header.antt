-- ===== src/Buffer/Header.antt =====
-- Packets behind their headers: `databuffer_readheader` and the read that follows it.
use ddzproject.Prelude.{
  ℕ, ◌^◌, ◌≤◌, ◌<◌, ◌≡◌, refl, sym, ap, ◌∙◌, some, List, ◌++◌, take, drop, length, lt→ltb, lt→leb,
  le→leb, ==_ne, ◌≢◌, le→ltb, ==_iff, arith, length-append, take-append_self, drop-append_self,
}
use ddzproject.Buffer.{
  DataBuffer, databuffer_read, databuffer_readheader, databuffer_reset, header_of, whole, not_yet,
  negative, ready,
}
use ddzproject.Buffer.Read.{contents, IsBuffer, Taken, databuffer_read-Taken}

pub append_split :
    (xs xs' ys ys' : List ℕ)
    → xs ++ ys ≡ xs' ++ ys'
    → length xs ≡ length xs'
    → (xs ≡ xs') × (ys ≡ ys')
append_split xs xs' ys ys' e n = (
  sym (take-append_self xs ys (length xs) refl)
      ∙ ap (λ l. take (length xs) l) e
      ∙ take-append_self xs' ys' (length xs) n,
  sym (drop-append_self xs ys (length xs) refl)
      ∙ ap (λ l. drop (length xs) l) e
      ∙ drop-append_self xs' ys' (length xs) n,
)

pub ready-whole :
    (db : DataBuffer) → db.header < 2 ^ 31 → db.header ≤ db.size → ready db ≡ (whole db.header, db)
unfolding ready
ready-whole db h le = rw (lt→leb (2 ^ 31) db.header h, le→ltb db.size db.header le) refl

pub ready-short :
    (db : DataBuffer) → db.header < 2 ^ 31 → db.size < db.header → ready db ≡ (not_yet, db)
unfolding ready
ready-short db h lt = rw (lt→leb (2 ^ 31) db.header h, lt→ltb db.size db.header lt) refl

pub ready-negative : (db : DataBuffer) → 2 ^ 31 ≤ db.header → ready db ≡ (negative db.header, db)
unfolding ready
ready-negative db le = rw (le→leb (2 ^ 31) db.header le) refl

pub readheader-pending :
    (db : DataBuffer) (n : ℕ) → db.header ≢ 0 → databuffer_readheader db n ≡ some (ready db)
unfolding databuffer_readheader
readheader-pending db n ne = rw (==_ne db.header 0 ne) refl

pub readheader-some :
    (db t : DataBuffer) (n : ℕ) (plen : List ℕ)
    → db.header ≡ 0
    → n ≤ db.size
    → databuffer_read db n ≡ some (plen, t)
    → databuffer_readheader db n ≡ some (ready (record t { header = header_of n plen }))
unfolding databuffer_readheader
readheader-some db t n plen zero_header le e =
    rw ((==_iff db.header 0).1 zero_header, le→ltb db.size n le, e) refl

pub readheader-short :
    (db : DataBuffer) (n : ℕ)
    → db.header ≡ 0
    → db.size < n
    → databuffer_readheader db n ≡ some (not_yet, db)
unfolding databuffer_readheader
readheader-short db n zero_header lt =
    rw ((==_iff db.header 0).1 zero_header, lt→ltb db.size n lt) refl

-- What a caller gets of a packet: its size, its bytes, and a buffer of the bytes behind it.
record Delivered (db : DataBuffer) (header_size : ℕ) (packet rest : List ℕ) : Type 0 where
  pub headed : DataBuffer
  pub after : DataBuffer
  pub announced : databuffer_readheader db header_size ≡ some (whole (length packet), headed)
  pub read : databuffer_read headed (length packet) ≡ some (packet, after)
  pub left : contents after ≡ rest
  pub stands : IsBuffer (databuffer_reset after)

-- When the bytes that are not read yet are a header, the packet that it announces and some more, and no
-- header is pending, `databuffer_readheader` returns the size of the packet, a read of that size gives
-- the packet, and the bytes behind it are left, however the bytes are cut into messages. The packet is
-- of one byte or more, and its size is an `int`.
databuffer_readheader-Delivered :
    (db : DataBuffer) (plen packet rest : List ℕ)
    → IsBuffer db
    → db.header ≡ 0
    → contents db ≡ plen ++ (packet ++ rest)
    → 0 < length plen
    → header_of (length plen) plen ≡ length packet
    → 0 < length packet
    → length packet < 2 ^ 31
    → Delivered db (length plen) packet rest
databuffer_readheader-Delivered db plen packet rest ok no_header whole_is pos head_is some_bytes
      small =
    record {
      headed = headed;
      after = second.after;
      announced =
          readheader-some db first.after (length plen) plen no_header fits
            (first.result ∙ ap (λ l. some (l, first.after)) (split.0))
          ∙ ap some (
              ready-whole headed (omega (arith, head_is)) (omega (arith, head_is, there))
              ∙ ap (λ n. (whole n, headed)) head_is);
      read = second.result ∙ ap (λ l. some (l, second.after)) (parts.0);
      left = parts.1;
      stands =
          unfold databuffer_reset in
          record { size = second.stands.size; offset = second.stands.offset };
    }
  where
    fits : length plen ≤ db.size
    fits = omega (arith, ok.size, ap length whole_is, length-append plen (packet ++ rest))

    first : Taken db (length plen)
    first = databuffer_read-Taken db (length plen) ok pos fits

    split : (first.bytes ≡ plen) × (contents first.after ≡ packet ++ rest)
    split =
        append_split first.bytes plen (contents first.after) (packet ++ rest)
          (sym first.front ∙ whole_is) first.count

    headed : DataBuffer
    headed = record first.after { header = header_of (length plen) plen }

    headed_ok : IsBuffer headed
    headed_ok = record { size = first.stands.size; offset = first.stands.offset }

    there : length packet ≤ headed.size
    there = omega (arith, headed_ok.size, ap length (split.1), length-append packet rest)

    second : Taken headed (length packet)
    second = databuffer_read-Taken headed (length packet) headed_ok some_bytes there

    parts : (second.bytes ≡ packet) × (contents second.after ≡ rest)
    parts =
        append_split second.bytes packet (contents second.after) rest (sym second.front ∙ split.1)
          second.count
