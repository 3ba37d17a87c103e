-- ===== src/Gate/Frames.antt =====
-- A stream of packets behind their headers, as service_gate.c reads it, and what of a stream is not a whole
-- packet yet.
use ddzproject.Prelude.{
  ℕ, ◌^◌, ◌⊎◌, inl, inr, ◌≤◌, ◌<◌, ◌≡◌, ◌≢◌, refl, sym, ap, ap₂, ◌∙◌, List, [], ◌∷◌, ◌++◌, length,
  All, arith, append_assoc, length-append,
}
use ddzproject.Buffer.{header_of}
use ddzproject.Buffer.Header.{append_split}
use ddzproject.Gate.{too_long}

abbrev pub Frame : Type 0
Frame = List ℕ × List ℕ

abbrev pub stream : List Frame → List ℕ
stream [] = []
stream ((head, body) ∷ fs) = head ++ (body ++ stream fs)

-- A header of `n` bytes and as many bytes as it says, which are not too many.
pub record IsFrame (n : ℕ) (f : Frame) : Type 0 where
  pub head : length (f.0) ≡ n
  pub says : header_of n (f.0) ≡ length (f.1)
  pub small : length (f.1) < too_long

-- No whole packet is at the front.
abbrev pub Incomplete : ℕ → List ℕ → Type 0
Incomplete n u = (f : Frame) (rest : List ℕ) → IsFrame n f → u ≢ f.0 ++ (f.1 ++ rest)

-- No packet is there to dispatch: a header at the front says more bytes than there are behind it, or it is
-- a negative `int`.
abbrev pub IsWaiting : ℕ → List ℕ → Type 0
IsWaiting n u =
    (head rest : List ℕ)
    → length head ≡ n
    → u ≡ head ++ rest
    → (length rest < header_of n head) ⊎ (2 ^ 31 ≤ header_of n head)

-- The header at the front says that the packet is too long, and that many bytes are behind it.
pub record IsTooLong (n : ℕ) (u : List ℕ) : Type 0 where
  pub head : List ℕ
  pub rest : List ℕ
  pub whole : u ≡ head ++ rest
  pub count : length head ≡ n
  pub says : too_long ≤ header_of n head
  pub int : header_of n head < 2 ^ 31
  pub there : header_of n head ≤ length rest

pub IsWaiting-Incomplete : (n : ℕ) (u : List ℕ) → IsWaiting n u → Incomplete n u
IsWaiting-Incomplete n u w f rest ff e = elim (w (f.0) (f.1 ++ rest) ff.head e) [
  | inl short ↦ omega (arith, short, ff.says, length-append (f.1) rest)
  | inr negative ↦ omega (arith, negative, ff.says, ff.small)
]

module _ (n : ℕ) (positive : 0 < n) where
  -- The packet at the front of a stream is known by the bytes.
  frame_unique :
      (f g : Frame) (x y : List ℕ)
      → IsFrame n f
      → IsFrame n g
      → f.0 ++ (f.1 ++ x) ≡ g.0 ++ (g.1 ++ y)
      → (f ≡ g) × (x ≡ y)
  frame_unique f g x y ff gg e =
      let heads = append_split (f.0) (g.0) (f.1 ++ x) (g.1 ++ y) e (ff.head ∙ sym gg.head) in
      let bodies =
        append_split (f.1) (g.1) x y (heads.1)
          (sym ff.says ∙ ap (header_of n) (heads.0) ∙ gg.says) in
      (ap₂ (λ (a b : List ℕ). (a, b)) (heads.0) (bodies.0), bodies.1)

  pub no_frame : (f : Frame) (rest : List ℕ) → IsFrame n f → [] ≢ f.0 ++ (f.1 ++ rest)
  no_frame f rest ff e = omega (arith, ap length e, length-append (f.0) (f.1 ++ rest), ff.head)

  -- What is left over of the packets `ps` when the packets `qs` are taken from the front.
  pub cancel :
      (qs ps : List Frame) (w : List ℕ)
      → All (IsFrame n) qs
      → All (IsFrame n) ps
      → stream qs ++ w ≡ stream ps
      → (rs : List Frame) × ((ps ≡ qs ++ rs) × ((w ≡ stream rs) × All (IsFrame n) rs))
  cancel [] ps w qq pp e = (ps, (refl, (e, pp)))
  cancel (q ∷ qs) [] w (q1, qq) pp e = absurd (
      no_frame q (stream qs ++ w) q1 (
        sym e
        ∙ append_assoc (q.0) (q.1 ++ stream qs) w
        ∙ ap (λ l. q.0 ++ l) (append_assoc (q.1) (stream qs) w)))
  cancel (q ∷ qs) (p ∷ ps) w (q1, qq) (p1, pp) e =
      let same = frame_unique q p (stream qs ++ w) (stream ps) q1 p1 (
        sym (
          append_assoc (q.0) (q.1 ++ stream qs) w
          ∙ ap (λ l. q.0 ++ l) (append_assoc (q.1) (stream qs) w))
        ∙ e) in
      let (rs, (whole, (left, ok))) = cancel qs ps w qq pp (same.1) in
      (rs, (ap₂ (λ (x : Frame) (xs : List Frame). x ∷ xs) (sym (same.0)) whole, (left, ok)))

  -- A stream of packets that are not too long has no header at its front that says so.
  pub stream-short :
      (ps : List Frame) (u more : List ℕ)
      → All (IsFrame n) ps
      → u ++ more ≡ stream ps
      → IsTooLong n u
      → ⊥
  stream-short [] u more pp e t = omega (
    arith,
    ap length e,
    length-append u more,
    ap length t.whole,
    length-append t.head t.rest,
    t.count,
  )
  stream-short (p ∷ ps) u more (p1, pp) e t =
      let heads =
        append_split t.head (p.0) (t.rest ++ more) (p.1 ++ stream ps)
          (sym (append_assoc t.head t.rest more) ∙ ap (λ l. l ++ more) (sym t.whole) ∙ e)
          (t.count ∙ sym p1.head) in
      omega (arith, t.says, ap (header_of n) (heads.0), p1.says, p1.small)

  pub stream-Incomplete :
      (ps : List Frame) → All (IsFrame n) ps → Incomplete n (stream ps) → ps ≡ []
  stream-Incomplete [] pp none_whole = refl
  stream-Incomplete (p ∷ ps) (p1, pp) none_whole = absurd (none_whole p (stream ps) p1 refl)
