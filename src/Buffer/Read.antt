-- ===== src/Buffer/Read.antt =====
-- The buffer as the sequence of the bytes that are not read yet.
use ddzproject.Prelude.{
  ℕ, zero, suc, ◌+◌, ◌-◌, ◌≤◌, ◌<◌, ◌≡◌, refl, sym, ap, ap₂, ◌∙◌, some, List, [], ◌∷◌, ◌++◌, take,
  drop, length, lt→ltb, le→ltb, ==_iff, ==_ne, arith, length-append, length-drop, length-take,
  take-append-drop, append_assoc, append-nil,
}
use native.Mathlib.Decide.{dec_lt, ℕ_discrete}
use ddzproject.Buffer.{DataBuffer, read_messages, databuffer_read, databuffer_push}

abbrev pub joined : List (List ℕ) → List ℕ
joined [] = []
joined (m ∷ ms) = m ++ joined ms

abbrev pub unread : ℕ → List (List ℕ) → List ℕ
unread o [] = []
unread o (m ∷ ms) = drop o m ++ joined ms

abbrev pub contents : DataBuffer → List ℕ
contents db = unread db.offset db.messages

-- The offset is within the first message.
abbrev pub IsOffset : ℕ → List (List ℕ) → Type 0
IsOffset o [] = o ≡ 0
IsOffset o (m ∷ ms) = o ≤ length m

pub record IsBuffer (db : DataBuffer) : Type 0 where
  pub size : db.size ≡ length (contents db)
  pub offset : IsOffset db.offset db.messages

unread-zero : (ms : List (List ℕ)) → unread 0 ms ≡ joined ms
unread-zero [] = refl
unread-zero (m ∷ ms) = refl

IsOffset-zero : (ms : List (List ℕ)) → IsOffset 0 ms
IsOffset-zero [] = refl
IsOffset-zero (m ∷ ms) = omega arith

drop-nil : (n : ℕ) → drop {A = ℕ} n [] ≡ []
drop-nil zero = refl
drop-nil (suc n) = refl

drop-drop : (n o : ℕ) (m : List ℕ) → drop n (drop o m) ≡ drop (o + n) m
drop-drop n zero m = ap (λ k. drop k m) {x = n} {y = 0 + n} (omega arith)
drop-drop n (suc o) [] = drop-nil n ∙ sym (drop-nil (suc o + n))
drop-drop n (suc o) (x ∷ m) =
    drop-drop n o m ∙ ap (λ k. drop k (x ∷ m)) {x = suc (o + n)} {y = suc o + n} (omega arith)

take-all : (n : ℕ) (xs : List ℕ) → length xs ≤ n → take n xs ≡ xs
take-all zero [] h = refl
take-all zero (x ∷ xs) h = absurd (omega arith)
take-all (suc n) [] h = refl
take-all (suc n) (x ∷ xs) h = ap (λ l. x ∷ l) (take-all n xs (omega arith))

module _ (sz o : ℕ) (m : List ℕ) (ms : List (List ℕ)) where
  read-inside :
      sz < length m - o → read_messages sz o (m ∷ ms) ≡ some (take sz (drop o m), o + sz, m ∷ ms)
  unfolding read_messages
  read-inside h = rw (lt→ltb sz (length m - o) h) refl

  read-exact : length m - o ≡ sz → read_messages sz o (m ∷ ms) ≡ some (take sz (drop o m), 0, ms)
  unfolding read_messages
  read-exact h = rw (le→ltb sz (length m - o) (omega arith), (==_iff (length m - o) sz).1 h) refl

  read-beyond :
      (bytes : List ℕ) (o' : ℕ) (left : List (List ℕ))
      → length m - o < sz
      → read_messages (sz - (length m - o)) 0 ms ≡ some (bytes, o', left)
      → read_messages sz o (m ∷ ms) ≡ some (take (length m - o) (drop o m) ++ bytes, o', left)
  unfolding read_messages
  read-beyond bytes o' left h e =
      rw
        (
          read_messages,
          le→ltb sz (length m - o) (omega arith),
          ==_ne (length m - o) sz (omega arith),
          e,
        )
        refl

-- What a read of `sz` bytes gives.
record Reads (sz o : ℕ) (ms : List (List ℕ)) : Type 0 where
  bytes : List ℕ
  offset : ℕ
  left : List (List ℕ)
  result : read_messages sz o ms ≡ some (bytes, offset, left)
  whole : bytes ++ unread offset left ≡ unread o ms
  count : length bytes ≡ sz
  inside : IsOffset offset left

read_messages-Reads :
    (ms : List (List ℕ)) (sz o : ℕ)
    → 0 < sz
    → sz ≤ length (unread o ms)
    → IsOffset o ms
    → Reads sz o ms
read_messages-Reads [] sz o pos le ok = absurd (omega arith)
read_messages-Reads (m ∷ ms) sz o pos le ok = elim (dec_lt sz (length m - o)) [
  | yes h ↦ record {
    bytes = take sz (drop o m);
    offset = o + sz;
    left = m ∷ ms;
    result = read-inside sz o m ms h;
    whole =
        sym (append_assoc (take sz (drop o m)) (drop (o + sz) m) (joined ms))
        ∙ ap (λ l. l ++ joined ms)
            (ap (λ l. take sz (drop o m) ++ l) (sym (drop-drop sz o m))
              ∙ take-append-drop sz (drop o m));
    count = omega (arith, length-take sz (drop o m), length-drop o m);
    inside = omega arith;
  }
  | no far ↦ elim (ℕ_discrete (length m - o) sz) [
    | yes e ↦ record {
      bytes = take sz (drop o m);
      offset = 0;
      left = ms;
      result = read-exact sz o m ms e;
      whole =
          ap₂ (λ (x y : List ℕ). x ++ y) (take-all sz (drop o m) (omega (arith, length-drop o m)))
            (unread-zero ms);
      count = omega (arith, length-take sz (drop o m), length-drop o m);
      inside = IsOffset-zero ms;
    }
    | no ne ↦ beyond (omega arith) (
        read_messages-Reads ms (sz - (length m - o)) 0 (omega arith)
          (omega (
            arith,
            ap length (unread-zero ms),
            length-append (drop o m) (joined ms),
            length-drop o m,
          ))
          (IsOffset-zero ms))
  ]
]
  where
    beyond : length m - o < sz → Reads (sz - (length m - o)) 0 ms → Reads sz o (m ∷ ms)
    beyond far r = record {
      bytes = take (length m - o) (drop o m) ++ r.bytes;
      offset = r.offset;
      left = r.left;
      result = read-beyond sz o m ms r.bytes r.offset r.left far r.result;
      whole =
          append_assoc (take (length m - o) (drop o m)) r.bytes (unread r.offset r.left)
          ∙ ap₂ (λ (x y : List ℕ). x ++ y)
              (take-all (length m - o) (drop o m) (omega (arith, length-drop o m)))
              (r.whole ∙ unread-zero ms);
      count = omega (
        arith,
        length-append (take (length m - o) (drop o m)) r.bytes,
        length-take (length m - o) (drop o m),
        length-drop o m,
        r.count,
      );
      inside = r.inside;
    }

joined-append : (ms : List (List ℕ)) (d : List ℕ) → joined (ms ++ d ∷ []) ≡ joined ms ++ d
joined-append [] d = append-nil d
joined-append (m ∷ ms) d =
    ap (λ l. m ++ l) (joined-append ms d) ∙ sym (append_assoc m (joined ms) d)

unread-append :
    (o : ℕ) (ms : List (List ℕ)) (d : List ℕ)
    → IsOffset o ms
    → unread o (ms ++ d ∷ []) ≡ unread o ms ++ d
unread-append o [] d ok = append-nil (drop o d) ∙ ap (λ k. drop k d) {x = o} {y = 0} ok
unread-append o (m ∷ ms) d ok =
    ap (λ l. drop o m ++ l) (joined-append ms d) ∙ sym (append_assoc (drop o m) (joined ms) d)

IsOffset-append :
    (o : ℕ) (ms : List (List ℕ)) (d : List ℕ) → IsOffset o ms → IsOffset o (ms ++ d ∷ [])
IsOffset-append o [] d ok = omega arith
IsOffset-append o (m ∷ ms) d ok = ok

databuffer_read-some :
    (db : DataBuffer) (sz o : ℕ) (bytes : List ℕ) (left : List (List ℕ))
    → sz ≤ db.size
    → read_messages sz db.offset db.messages ≡ some (bytes, o, left)
    → databuffer_read db sz
      ≡ some (bytes, record db { size = db.size - sz; offset = o; messages = left })
unfolding databuffer_read
databuffer_read-some db sz o bytes left le e = rw (le→ltb db.size sz le, e) refl

-- What a caller can tell of a read: it takes bytes off the front of what is unread.
pub record Taken (db : DataBuffer) (sz : ℕ) : Type 0 where
  pub bytes : List ℕ
  pub after : DataBuffer
  pub result : databuffer_read db sz ≡ some (bytes, after)
  pub front : contents db ≡ bytes ++ contents after
  pub count : length bytes ≡ sz
  pub header : after.header ≡ db.header
  pub stands : IsBuffer after

-- A read of one byte or more, but not of more than are there, gives the first bytes of what is not read
-- yet, as many as it asks for and however the messages are cut, and leaves the rest; no assert fails
-- and no missing message is used.
pub databuffer_read-Taken :
    (db : DataBuffer) (sz : ℕ) → IsBuffer db → 0 < sz → sz ≤ db.size → Taken db sz
databuffer_read-Taken db sz ok pos le =
    let r = read_messages-Reads db.messages sz db.offset pos (omega (arith, ok.size)) ok.offset in
    record {
      bytes = r.bytes;
      after = record db { size = db.size - sz; offset = r.offset; messages = r.left };
      result = databuffer_read-some db sz r.offset r.bytes r.left le r.result;
      front = sym r.whole;
      count = r.count;
      header = refl;
      stands = record {
        size = omega (
          arith,
          ok.size,
          ap length r.whole,
          length-append r.bytes (unread r.offset r.left),
          r.count,
        );
        offset = r.inside;
      };
    }

-- A push puts the bytes behind those that are not read yet.
pub databuffer_push-IsBuffer :
    (db : DataBuffer) (d : List ℕ)
    → IsBuffer db
    → (contents (databuffer_push db d) ≡ contents db ++ d) × IsBuffer (databuffer_push db d)
unfolding databuffer_push
databuffer_push-IsBuffer db d ok = (
  unread-append db.offset db.messages d ok.offset,
  record {
    size = omega (
      arith,
      ok.size,
      ap length (unread-append db.offset db.messages d ok.offset),
      length-append (contents db) d,
    );
    offset = IsOffset-append db.offset db.messages d ok.offset;
  },
)
