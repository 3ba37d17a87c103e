-- ===== src/Netpack/Stream.antt =====
-- The packets that `filter_data_` cuts a stream into, against the stream that packs them.
use ddzproject.Prelude.{
  ℕ, ◌<◌, ◌≡◌, ◌≢◌, refl, sym, ap, ◌∙◌, Option, none, some, List, [], ◌∷◌, ◌++◌, length, arith, All,
  append_assoc, subst,
}
use ddzproject.Netpack.{
  NetPack, Reading, header, body, Queue, Uncomplete, get_queue, find_uncomplete, read_size,
  write_size, begin, continue_with, filter_data,
}
use ddzproject.Netpack.Ring.{IsRing, ring}
use ddzproject.Netpack.Waiting.{ring-save, waiting, Takes, find_uncomplete-Takes}
use ddzproject.Netpack.Advance.{
  bytes_of, pending, IsPartial, IsOpen, packs, Advances, read_size-lt, saved-Advances, spelled,
}
use ddzproject.Netpack.More.{sized}
use ddzproject.Netpack.Fill.{sent, Filters, fill-Filters, begin-fill}

begin-Filters :
    (S : Option Queue) (fd : ℕ) (buffer : List ℕ)
    → 0 < length buffer
    → All (λ b. b < 256) buffer
    → IsRing (get_queue S)
    → waiting (get_queue S) fd ≡ []
    → Filters S fd buffer (begin S fd buffer)
begin-Filters S fd [] pos h v w = absurd (omega arith)
begin-Filters S fd (b0 ∷ []) pos h v w =
    unfold begin in
    (
      [],
      unfold bytes_of sent in saved-Advances S fd (header b0) v w (h.0),
      λ _. ring-save S fd (header b0),
    )
begin-Filters S fd (b0 ∷ b1 ∷ buffer) pos h v w =
    let (fs, a, quiet) =
      fill-Filters S fd (read_size b0 b1) [] buffer (omega arith) (read_size-lt b0 b1 (h.0) (h.1.0))
        (h.1.1) v w in
    rw (begin-fill S fd b0 b1 buffer)
      (fs, spelled S _ fd fs _ _ _ (sized b0 b1 buffer buffer (h.0) (h.1.0) refl) a, quiet)

continue-Filters :
    (S : Option Queue) (fd : ℕ) (r : Reading) (buffer : List ℕ)
    → 0 < length buffer
    → All (λ b. b < 256) buffer
    → IsPartial r
    → IsRing (get_queue S)
    → waiting (get_queue S) fd ≡ []
    → Filters S fd (bytes_of r ++ buffer) (continue_with S fd r buffer)
continue-Filters S fd (header b0) [] pos h p v w = absurd (omega arith)
continue-Filters S fd (header b0) (b1 ∷ buffer) pos h p v w =
    let (fs, a, quiet) =
      fill-Filters S fd (read_size b0 b1) [] buffer (omega arith) (read_size-lt b0 b1 p (h.0)) (h.1)
        v w in
    unfold continue_with bytes_of in
    (
      fs,
      spelled S _ fd fs _ _ _ (sized b0 b1 buffer buffer p (h.0) refl) (unfold read_size in a),
      unfold read_size in quiet,
    )
continue-Filters S fd (body n got) buffer pos h p v w =
    let (fs, a, quiet) = fill-Filters S fd n got buffer (omega (arith, p.0)) (p.1) h v w in
    unfold continue_with bytes_of in
    (fs, spelled S _ fd fs _ _ _ (sym (append_assoc (write_size n) got buffer)) a, quiet)

filter_data-none :
    (S T : Option Queue) (fd : ℕ) (buffer : List ℕ)
    → find_uncomplete S fd ≡ (none, T)
    → filter_data S fd buffer ≡ begin T fd buffer
unfolding filter_data
filter_data-none S T fd buffer e = rw (filter_data, e) (ap (λ p. begin (p.1) fd buffer) e)

filter_data-some :
    (S T : Option Queue) (fd : ℕ) (uc : Uncomplete) (buffer : List ℕ)
    → find_uncomplete S fd ≡ (some uc, T)
    → filter_data S fd buffer ≡ continue_with T fd uc.reading buffer
unfolding filter_data
filter_data-some S T fd uc buffer e =
    rw (filter_data, e) (ap (λ p. continue_with (p.1) fd uc.reading buffer) e)

Takes-none :
    (S T : Option Queue) (fd : ℕ) → Takes S fd none T → (T ≡ S) × (waiting (get_queue S) fd ≡ [])
unfolding Takes
Takes-none S T fd t = t

Takes-some :
    (S T : Option Queue) (fd : ℕ) (uc : Uncomplete)
    → Takes S fd (some uc) T
    → (waiting (get_queue S) fd ≡ uc.reading ∷ waiting (get_queue T) fd)
      × ((g : ℕ) → g ≢ fd → waiting (get_queue T) g ≡ waiting (get_queue S) g)
      × (ring (get_queue T) ≡ ring (get_queue S))
      × (IsRing (get_queue S) → IsRing (get_queue T))
unfolding Takes
Takes-some S T fd uc t = t

only : (r : Reading) (rs : List Reading) → IsOpen (r ∷ rs) → IsPartial r × (rs ≡ [])
only r [] o = (o, refl)
only r (s ∷ rs) o = absurd o

-- Taking what waits off its chain is part of the step.
from_taken :
    (S T S' : Option Queue) (fd : ℕ) (fs : List (List ℕ)) (out : List (Option NetPack))
    (text : List ℕ)
    → ring (get_queue T) ≡ ring (get_queue S)
    → ((g : ℕ) → g ≢ fd → waiting (get_queue T) g ≡ waiting (get_queue S) g)
    → Advances T S' fd fs out text
    → Advances S S' fd fs out text
from_taken S T S' fd fs out text r w a = record {
  in_ring = a.in_ring;
  open_here = a.open_here;
  short = a.short;
  queued = a.queued ∙ ap (λ xs. xs ++ packs fd fs) r;
  bytes = a.bytes;
  others = λ g ne. a.others g ne ∙ w g ne;
}

-- A buffer of bytes that comes in for `fd` is cut as the stream that `lpack` makes: behind what
-- waited for `fd`, it is the packets that go out, at once or over the queue in their order, and what
-- waits now, less than a packet. What waits for other ids stays, and the ring stays valid.
pub filter_data-Filters :
    (S : Option Queue) (fd : ℕ) (buffer : List ℕ)
    → IsRing (get_queue S)
    → IsOpen (waiting (get_queue S) fd)
    → 0 < length buffer
    → All (λ b. b < 256) buffer
    → Filters S fd (pending (waiting (get_queue S) fd) ++ buffer) (filter_data S fd buffer)
filter_data-Filters S fd buffer v o pos h =
    go (find_uncomplete S fd).0 (find_uncomplete S fd).1 refl (find_uncomplete-Takes S fd)
  where
    go :
        (found : Option Uncomplete) (T : Option Queue)
        → find_uncomplete S fd ≡ (found, T)
        → Takes S fd found T
        → Filters S fd (pending (waiting (get_queue S) fd) ++ buffer) (filter_data S fd buffer)
    go none T e t =
        let (same, w) = Takes-none S T fd t in
        rw (filter_data-none S T fd buffer e, same, w)
          (unfold pending in begin-Filters S fd buffer pos h v w)
    go (some uc) T e t =
        let (here, others, kept, ring_kept) = Takes-some S T fd uc t in
        let (p, w) = only uc.reading _ (subst IsOpen here o) in
        let (fs, a, quiet) = continue-Filters T fd uc.reading buffer pos h p (ring_kept v) w in
        rw (filter_data-some S T fd uc buffer e, here)
          (unfold pending in (fs, from_taken S T _ fd fs _ _ kept others a, λ ne. quiet ne ∙ kept))
