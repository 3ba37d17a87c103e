-- ===== src/Netpack/Unique.antt =====
-- A stream of packets can be cut in one way only, so what the handler gets is what was packed.
use ddzproject.Prelude.{
  Bool, true, if◌then◌else◌, ℕ, ◌/◌, ◌%◌, ◌^◌, ◌<◌, ◌≡◌, refl, sym, ap, ap₂, ◌∙◌, Option, none,
  some, List, [], ◌∷◌, ◌++◌, length, arith, All, append_assoc, length-append,
}
use ddzproject.Prelude.Bits.{bit_and_mask}
use ddzproject.Netpack.{Reading, header, body, Queue, get_queue, write_size, lpack}
use ddzproject.Netpack.Waiting.{waiting}
use ddzproject.Netpack.Advance.{pending, bytes_of, IsOpen, joined}
use ddzproject.Netpack.Gate.{received, packets, concat}
use ddzproject.Netpack.Received.{Rests, received-Receives}

write_size-eq : (n : ℕ) → write_size n ≡ n / 256 % 256 ∷ n % 256 ∷ []
unfolding write_size
write_size-eq n = ap₂ (λ (x y : ℕ). x ∷ y ∷ []) (bit_and_mask 8 (n / 2 ^ 8)) (bit_and_mask 8 n)

two_heads : (a b c d : ℕ) (xs ys : List ℕ) → a ∷ b ∷ xs ≡ c ∷ d ∷ ys → (a ≡ c) × (b ≡ d) × (xs ≡ ys)
two_heads a b c d xs ys e = (cc, cc, cc)

-- The sizes agree, and so do the rests.
sizes_agree :
    (n m : ℕ) (xs ys : List ℕ)
    → n < 2 ^ 16
    → m < 2 ^ 16
    → write_size n ++ xs ≡ write_size m ++ ys
    → (n ≡ m) × (xs ≡ ys)
sizes_agree n m xs ys hn hm e =
    let (hi, lo, rest) =
      two_heads _ _ _ _ xs ys
        (sym (ap (λ s. s ++ xs) (write_size-eq n)) ∙ (e ∙ ap (λ s. s ++ ys) (write_size-eq m))) in
    (omega (arith, hi, lo), rest)

length-write_size : (n : ℕ) → length (write_size n) ≡ 2
length-write_size n = ap length (write_size-eq n)

cons_parts : (x y : ℕ) (xs ys : List ℕ) → x ∷ xs ≡ y ∷ ys → (x ≡ y) × (xs ≡ ys)
cons_parts x y xs ys e = (cc, cc)

same_front : (f m xs ys : List ℕ) → length f ≡ length m → f ++ xs ≡ m ++ ys → (f ≡ m) × (xs ≡ ys)
same_front [] [] xs ys l e = (refl, e)
same_front [] (y ∷ m) xs ys l e = absurd (omega (arith, l))
same_front (x ∷ f) [] xs ys l e = absurd (omega (arith, l))
same_front (x ∷ f) (y ∷ m) xs ys l e =
    let (h, t) = cons_parts x y (f ++ xs) (m ++ ys) e in
    let (p, q) = same_front f m xs ys (omega (arith, l)) t in (ap₂ ◌∷◌ h p, q)

-- What waits is less than a packet.
pending-short :
    (w : List Reading) (m rest : List ℕ)
    → IsOpen w
    → length m < 2 ^ 16
    → ¬ (pending w ≡ write_size (length m) ++ (m ++ rest))
unfolding pending bytes_of
pending-short [] m rest o s e = omega (
  arith,
  ap length e,
  length-append (write_size (length m)) (m ++ rest),
  length-write_size (length m),
)
pending-short (header h ∷ []) m rest o s e = omega (
  arith,
  ap length e,
  length-append (write_size (length m)) (m ++ rest),
  length-write_size (length m),
)
pending-short (body n got ∷ []) m rest o s e =
    let (size, bytes) = sizes_agree n (length m) got (m ++ rest) (o.1) s e in
    omega (arith, size, ap length bytes, length-append m rest, o.0)
pending-short (r ∷ t ∷ w) m rest o s e = o

joined_unique :
    (fs ms : List (List ℕ)) (w : List Reading)
    → All (λ b. length b < 2 ^ 16) fs
    → All (λ b. length b < 2 ^ 16) ms
    → IsOpen w
    → joined fs ++ pending w ≡ joined ms
    → fs ≡ ms
unfolding joined
joined_unique [] [] w hf hm o e = refl
joined_unique [] (m ∷ ms) w hf hm o e = absurd (pending-short w m (joined ms) o (hm.0) e)
joined_unique (f ∷ fs) [] w hf hm o e = absurd (
    omega (
      arith,
      ap length e,
      length-append (write_size (length f) ++ (f ++ joined fs)) (pending w),
      length-append (write_size (length f)) (f ++ joined fs),
      length-write_size (length f),
    ))
joined_unique (f ∷ fs) (m ∷ ms) w hf hm o e =
    let (size, rest) =
      sizes_agree (length f) (length m) ((f ++ joined fs) ++ pending w) (m ++ joined ms) (hf.0)
        (hm.0) (sym (append_assoc (write_size (length f)) (f ++ joined fs) (pending w)) ∙ e) in
    let (front, back) =
      same_front f m (joined fs ++ pending w) (joined ms) size
        (sym (append_assoc f (joined fs) (pending w)) ∙ rest) in
    ap₂ ◌∷◌ front (joined_unique fs ms w (hf.1) (hm.1) o back)

abbrev pub append_packed : Option (List ℕ) → Option (List ℕ) → Option (List ℕ)
append_packed none r = none
append_packed (some p) none = none
append_packed (some p) (some t) = some (p ++ t)

-- The stream of packets that `lpack` makes, one after the other.
unfoldable pub packed : List (List ℕ) → Option (List ℕ)
packed [] = some []
packed (m ∷ ms) = append_packed (lpack m) (packed ms)

append_packed-some :
    (a b : Option (List ℕ)) (t : List ℕ)
    → append_packed a b ≡ some t
    → (p : List ℕ) × (r : List ℕ) × (a ≡ some p) × (b ≡ some r) × (p ++ r ≡ t)
append_packed-some none b t e = cc
append_packed-some (some p) none t e = cc
append_packed-some (some p) (some r) t e = (p, r, refl, refl, cc)

lpack-some :
    (m p : List ℕ) → lpack m ≡ some p → (length m < 2 ^ 16) × (p ≡ write_size (length m) ++ m)
unfolding lpack
lpack-some m p e = ground arith

packed-joined :
    (ms : List (List ℕ)) (t : List ℕ)
    → packed ms ≡ some t
    → All (λ b. length b < 2 ^ 16) ms × (t ≡ joined ms)
unfolding packed joined
packed-joined [] t e = (tt, cc)
packed-joined (m ∷ ms) t e =
    let (p, r, here, there, whole) = append_packed-some (lpack m) (packed ms) t e in
    let (short, spelled) = lpack-some m p here in
    let (shorts, rest) = packed-joined ms r there in
    (
      (short, shorts),
      sym whole
          ∙ (ap₂ (λ xs ys. xs ++ ys) spelled rest
              ∙ append_assoc (write_size (length m)) m (joined ms)),
    )

-- If the ring is valid and empty, `fd` has a connection, nothing waits for it, and the bytes that come in for
-- it, however they are cut into buffers that are not empty, are those that `lpack` makes of the packets `ms` one after the other, without an error,
-- then the handler gets just the packets `ms`, in their order.
pub received_lem :
    (connection : ℕ → Bool) (S : Option Queue) (fd : ℕ) (chunks ms : List (List ℕ))
    → connection fd ≡ true
    → Rests S fd
    → waiting (get_queue S) fd ≡ []
    → All (λ c. (0 < length c) × All (λ b. b < 256) c) chunks
    → packed ms ≡ some (concat chunks)
    → (received connection S fd chunks).0 ≡ packets fd ms
received_lem connection S fd chunks ms connected r w h e =
    let (fs, d) = received-Receives connection S fd chunks r h in
    let (short, text) = packed-joined ms (concat chunks) e in
    d.got
    ∙ ap (λ b. if b then packets fd fs else []) connected
    ∙ ap (packets fd) (
        joined_unique fs ms _ d.short short d.rests.open_here
          (d.bytes ∙ (ap (λ v. pending v ++ concat chunks) w ∙ (unfold pending in text))))
