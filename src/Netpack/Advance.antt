-- ===== src/Netpack/Advance.antt =====
-- A step of lua-netpack.c on one stream, in terms of the packets cut off and what waits.
use ddzproject.Prelude.{
  All, ℕ, ◌+◌, ◌*◌, ◌/◌, ◌^◌, ◌<◌, ◌≡◌, ◌≢◌, refl, sym, ap, ap₂, ◌∙◌, Option, some, List, [], ◌∷◌,
  ◌++◌, length, arith, append_assoc,
}
use ddzproject.Prelude.Bits.{bit_and_mask, bit_or_fields}
use ddzproject.Netpack.{
  NetPack, Reading, header, body, Queue, get_queue, push_data, save_uncomplete, read_size,
  write_size,
}
use ddzproject.Netpack.Ring.{IsRing, ring, push_data-eq, after_push-IsRing, after_push-ring}
use ddzproject.Netpack.Waiting.{
  waiting, waiting-save, waiting-save_other, ring-save, save-IsRing, waiting-push,
}

-- The bytes that were read of a packet, its size included.
unfoldable pub bytes_of : Reading → List ℕ
bytes_of (header h) = h ∷ []
bytes_of (body n got) = write_size n ++ got

unfoldable pub pending : List Reading → List ℕ
pending [] = []
pending (r ∷ rs) = bytes_of r

-- A reading that is not a whole packet yet.
abbrev pub IsPartial : Reading → Type 0
IsPartial (header h) = h < 256
IsPartial (body n got) = (length got < n) × (n < 2 ^ 16)

-- One packet at most waits.
abbrev pub IsOpen : List Reading → Type 0
IsOpen [] = Unit
IsOpen (r ∷ []) = IsPartial r
IsOpen (r ∷ s ∷ rs) = ⊥

-- The stream that `lpack` makes of packets.
unfoldable pub joined : List (List ℕ) → List ℕ
joined [] = []
joined (b ∷ bs) = write_size (length b) ++ (b ++ joined bs)

unfoldable pub packs : ℕ → List (List ℕ) → List (Option NetPack)
packs fd [] = []
packs fd (b ∷ bs) = some (record { id = fd; size = length b; buffer = b }) ∷ packs fd bs

-- From `S` to `S'` the bytes `text` of `fd` were cut into the packets `fs`, which were queued or
-- `sent`, and what waits; the other ids are as they were.
pub record Advances (S S' : Option Queue) (fd : ℕ) (fs : List (List ℕ))
    (sent : List (Option NetPack)) (text : List ℕ) : Type 0 where
  pub in_ring : IsRing (get_queue S')
  pub open_here : IsOpen (waiting (get_queue S') fd)
  pub short : All (λ b. length b < 2 ^ 16) fs
  pub queued : ring (get_queue S') ++ sent ≡ ring (get_queue S) ++ packs fd fs
  pub bytes : joined fs ++ pending (waiting (get_queue S') fd) ≡ text
  pub others : (g : ℕ) → g ≢ fd → waiting (get_queue S') g ≡ waiting (get_queue S) g

pub write_size-read_size :
    (b0 b1 : ℕ) → b0 < 256 → b1 < 256 → write_size (read_size b0 b1) ≡ b0 ∷ b1 ∷ []
unfolding write_size read_size
write_size-read_size b0 b1 h0 h1 =
    rw
      (
        bit_or_fields 8 b0 b1 h1,
        bit_and_mask 8 ((b0 * 2 ^ 8 + b1) / 2 ^ 8),
        bit_and_mask 8 (b0 * 2 ^ 8 + b1),
      )
      (ap₂ (λ (x y : ℕ). x ∷ y ∷ []) (omega arith) (omega arith))

pub read_size-lt : (b0 b1 : ℕ) → b0 < 256 → b1 < 256 → read_size b0 b1 < 2 ^ 16
unfolding read_size
read_size-lt b0 b1 h0 h1 = rw (bit_or_fields 8 b0 b1 h1) (omega arith)

pub IsOpen-subst : (xs ys : List Reading) → xs ≡ ys → IsOpen ys → IsOpen xs
IsOpen-subst xs ys e o = rw e o

pub stays-Advances :
    (S : Option Queue) (fd : ℕ)
    → IsRing (get_queue S)
    → waiting (get_queue S) fd ≡ []
    → Advances S S fd [] [] []
unfolding packs pending
stays-Advances S fd v w = record {
  in_ring = v;
  open_here = IsOpen-subst _ [] w tt;
  short = tt;
  queued = refl;
  bytes = unfold joined in ap pending w;
  others = λ g ne. refl;
}

pub saved-Advances :
    (S : Option Queue) (fd : ℕ) (r : Reading)
    → IsRing (get_queue S)
    → waiting (get_queue S) fd ≡ []
    → IsPartial r
    → Advances S (save_uncomplete S fd r) fd [] [] (bytes_of r)
unfolding packs bytes_of pending
saved-Advances S fd r v w p = record {
  in_ring = save-IsRing S fd r v;
  open_here = IsOpen-subst _ (r ∷ []) alone p;
  short = tt;
  queued = ap (λ xs. xs ++ []) (ring-save S fd r);
  bytes = unfold joined in ap pending alone;
  others = waiting-save_other S fd r;
}
  where
    alone : waiting (get_queue (save_uncomplete S fd r)) fd ≡ r ∷ []
    alone = waiting-save S fd r ∙ ap (λ rs. r ∷ rs) w

pub ring-push :
    (S : Option Queue) (fd : ℕ) (b : List ℕ) (n : ℕ)
    → n ≡ length b
    → IsRing (get_queue S)
    → IsRing (get_queue (push_data S fd b n))
      × (ring (get_queue (push_data S fd b n)) ≡ ring (get_queue S) ++ packs fd (b ∷ []))
ring-push S fd b n e v = rw (push_data-eq S fd b n) (
    unfold get_queue packs in
    (
      after_push-IsRing (get_queue S) _ v,
      after_push-ring (get_queue S) _ v
          ∙ ap (λ k. ring (get_queue S) ++ some (record { id = fd; size = k; buffer = b }) ∷ []) e,
    ))

pub pushed-Advances :
    (S S' : Option Queue) (fd : ℕ) (b : List ℕ) (n : ℕ) (fs : List (List ℕ)) (text : List ℕ)
    → n ≡ length b
    → n < 2 ^ 16
    → IsRing (get_queue S)
    → Advances (push_data S fd b n) S' fd fs [] text
    → Advances S S' fd (b ∷ fs) [] (write_size n ++ (b ++ text))
pushed-Advances S S' fd b n fs text e small v a = record {
  in_ring = a.in_ring;
  open_here = a.open_here;
  short = (omega arith, a.short);
  queued =
      a.queued
      ∙ (ap (λ xs. xs ++ packs fd fs) (ring-push S fd b n e v).1
          ∙ unfold packs in append_assoc (ring (get_queue S)) _ (packs fd fs));
  bytes =
      unfold joined in
      (append_assoc (write_size (length b)) (b ++ joined fs) _
        ∙ (ap (λ xs. write_size (length b) ++ xs)
              (append_assoc b (joined fs) _ ∙ ap (λ xs. b ++ xs) a.bytes)
            ∙ ap (λ k. write_size k ++ (b ++ text)) (sym e)));
  others = λ g ne. a.others g ne ∙ waiting-push S fd b n g;
}

-- One packet is pushed, and nothing is left.
pub last-Advances :
    (S : Option Queue) (fd : ℕ) (b : List ℕ) (n : ℕ)
    → n ≡ length b
    → n < 2 ^ 16
    → IsRing (get_queue S)
    → waiting (get_queue S) fd ≡ []
    → Advances S (push_data S fd b n) fd (b ∷ []) [] (write_size n ++ (b ++ []))
last-Advances S fd b n e small v w = pushed-Advances S (push_data S fd b n) fd b n [] [] e small v (
    stays-Advances (push_data S fd b n) fd (ring-push S fd b n e v).0
      (waiting-push S fd b n fd ∙ w))

-- The text may be written otherwise.
pub spelled :
    (S S' : Option Queue) (fd : ℕ) (fs : List (List ℕ)) (sent : List (Option NetPack))
    (x y : List ℕ)
    → x ≡ y
    → Advances S S' fd fs sent x
    → Advances S S' fd fs sent y
spelled S S' fd fs sent x y e a = record {
  in_ring = a.in_ring;
  open_here = a.open_here;
  short = a.short;
  queued = a.queued;
  bytes = a.bytes ∙ e;
  others = a.others;
}
