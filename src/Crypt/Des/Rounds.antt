-- ===== src/Crypt/Des/Rounds.antt =====
-- The permutations and the rounds of DES, with those in the other direction.
use ddzproject.Prelude.{
  ℕ, ◌^◌, ◌<◌, ◌≡◌, refl, ap, ◌∙◌, List, [], ◌∷◌, ◌++◌, true, arith, get_or, bit_and, bit_or,
  bit_xor, ltb, ltb→lt,
}
use ddzproject.Prelude.Xor.{bit_xor-undo_both, bit_xor-lt, bit_and-lt}
use ddzproject.Prelude.Range.{check_below, checked}
use mathlib.Core.List.{reverse, reverse-cons}
use ddzproject.Crypt.Des.Tables.{sb1, sb2, sb3, sb4, sb5, sb6, sb7, sb8}
use ddzproject.Crypt.Des.Schedule.{shl, shr, exchange}
use ddzproject.Crypt.Des.Block.{
  turn, left_first, left_second, right_first, right_second, des_ip, des_fp, even_boxes, odd_boxes,
  des_round, des_rounds,
}
use ddzproject.Crypt.Des.Inverse.{
  IsWords, rotate_right-lt, rotate_left-lt, twice4, twice16, twice0, words4, words16, words2,
  words8, words0, left_first-right, left_second-right, right_first-left, right_second-left, middle,
  middle', middle-middle', middle'-middle, middle-IsWords,
}

outer : ℕ × ℕ → ℕ × ℕ
outer q = left_first (exchange 0 0xaaaa_aaaa (left_second q))

outer' : ℕ × ℕ → ℕ × ℕ
outer' p = right_second (exchange 0 0xaaaa_aaaa (right_first p))

outer-outer' : (p : ℕ × ℕ) → IsWords p → outer (outer' p) ≡ p
unfolding outer outer'
outer-outer' p h =
    ap (λ q. left_first (exchange 0 0xaaaa_aaaa q))
      (left_second-right (exchange 0 0xaaaa_aaaa (right_first p))
        (words0 _ (rotate_right-lt (p.0) (h.0), h.1)))
    ∙ (ap left_first (twice0 (right_first p)) ∙ left_first-right p h)

outer'-outer : (p : ℕ × ℕ) → IsWords p → outer' (outer p) ≡ p
unfolding outer outer'
outer'-outer p h =
    ap (λ q. right_second (exchange 0 0xaaaa_aaaa q))
      (right_first-left (exchange 0 0xaaaa_aaaa (left_second p))
        (words0 _ (h.0, rotate_left-lt (p.1) (h.1))))
    ∙ (ap right_second (twice0 (left_second p)) ∙ right_second-left p h)

des_ip-eq : (p : ℕ × ℕ) → des_ip p ≡ outer (middle (exchange 16 0xffff (exchange 4 0x0f0f_0f0f p)))
unfolding des_ip outer middle
des_ip-eq p = refl

des_fp-eq :
    (p : ℕ × ℕ) → des_fp p ≡ exchange 4 0x0f0f_0f0f (exchange 16 0xffff (middle' (outer' p)))
unfolding des_fp outer' middle'
des_fp-eq p = refl

pub des_ip-fp : (p : ℕ × ℕ) → IsWords p → des_ip (des_fp p) ≡ p
des_ip-fp p h =
    let b = middle' (outer' p) in
    ap des_ip (des_fp-eq p)
    ∙ (des_ip-eq _
        ∙ (ap (λ q. outer (middle (exchange 16 0xffff q))) (twice4 (exchange 16 0xffff b))
            ∙ (ap (λ q. outer (middle q)) (twice16 b)
                ∙ (ap outer (middle-middle' (outer' p)) ∙ outer-outer' p h))))

pub des_fp-ip : (p : ℕ × ℕ) → IsWords p → des_fp (des_ip p) ≡ p
des_fp-ip p h =
    let a = exchange 16 0xffff (exchange 4 0x0f0f_0f0f p) in
    ap des_fp (des_ip-eq p)
    ∙ (des_fp-eq _
        ∙ (ap (λ q. exchange 4 0x0f0f_0f0f (exchange 16 0xffff (middle' q)))
              (outer'-outer (middle a) (middle-IsWords a (words16 _ (words4 p h))))
            ∙ (ap (λ q. exchange 4 0x0f0f_0f0f (exchange 16 0xffff q)) (middle'-middle a)
                ∙ (ap (exchange 4 0x0f0f_0f0f) (twice16 (exchange 4 0x0f0f_0f0f p)) ∙ twice4 p))))

outer-IsWords : (q : ℕ × ℕ) → IsWords q → IsWords (outer q)
unfolding outer
outer-IsWords q k =
    let w = words0 (left_second q) (k.0, rotate_left-lt (q.1) (k.1)) in
    (rotate_left-lt _ (w.0), w.1)

pub des_ip-IsWords : (p : ℕ × ℕ) → IsWords p → IsWords (des_ip p)
des_ip-IsWords p h = rw (des_ip-eq p) (outer-IsWords _ (middle-IsWords _ (words16 _ (words4 p h))))

outer'-IsWords : (p : ℕ × ℕ) → IsWords p → IsWords (outer' p)
unfolding outer'
outer'-IsWords p h =
    let w = words0 (right_first p) (rotate_right-lt (p.0) (h.0), h.1) in
    (w.0, rotate_right-lt _ (w.1))

middle'-IsWords : (p : ℕ × ℕ) → IsWords p → IsWords (middle' p)
unfolding middle'
middle'-IsWords p h = let w = words2 _ (words8 (turn p) (h.1, h.0)) in (w.1, w.0)

pub des_fp-IsWords : (p : ℕ × ℕ) → IsWords p → IsWords (des_fp p)
des_fp-IsWords p h =
    rw (des_fp-eq p) (words4 _ (words16 _ (middle'-IsWords _ (outer'-IsWords p h))))

-- One round, with the words turned round.
des_step : ℕ × ℕ → ℕ × ℕ → ℕ × ℕ
des_step k p = (p.1, des_round k (p.1) (p.0))

des_rounds-cons :
    (k : ℕ × ℕ) (ks : List (ℕ × ℕ)) (p : ℕ × ℕ)
    → des_rounds (k ∷ ks) p ≡ des_rounds ks (des_step k p)
unfolding des_rounds des_step
des_rounds-cons k ks p = refl

des_rounds-snoc :
    (ks : List (ℕ × ℕ)) (k p : ℕ × ℕ) → des_rounds (ks ++ k ∷ []) p ≡ des_step k (des_rounds ks p)
unfolding des_rounds des_step
des_rounds-snoc [] k p = refl
des_rounds-snoc (l ∷ ks) k p = des_rounds-snoc ks k (p.1, des_round l (p.1) (p.0))

-- A round on the words turned round undoes it.
des_step-back : (k p : ℕ × ℕ) → des_step k (turn (des_step k p)) ≡ turn p
unfolding des_step des_round
des_step-back k (x, y) = ap (λ (a : ℕ). (y, a)) (bit_xor-undo_both x _ _)

pub des_rounds-reverse :
    (ks : List (ℕ × ℕ)) (p : ℕ × ℕ) → des_rounds (reverse ks) (turn (des_rounds ks p)) ≡ turn p
des_rounds-reverse [] p = unfold des_rounds in refl
des_rounds-reverse (k ∷ ks) p =
    ap (λ l. des_rounds l (turn (des_rounds (k ∷ ks) p))) (reverse-cons k ks)
    ∙ (des_rounds-snoc (reverse ks) k _
        ∙ (ap (λ q. des_step k (des_rounds (reverse ks) (turn q))) (des_rounds-cons k ks p)
            ∙ (ap (des_step k) (des_rounds-reverse ks (des_step k p)) ∙ des_step-back k p)))

-- The entries of the boxes are words.
boxed :
    (t : List ℕ)
    → check_below (λ i. ltb (get_or t i 0) (2 ^ 32)) 64 ≡ true
    → (x : ℕ) → get_or t (bit_and x 0x3f) 0 < 2 ^ 32
boxed t h x = ltb→lt _ _ (
    checked (λ i. ltb (get_or t i 0) (2 ^ 32)) 64 (bit_and x 0x3f) h
      (bit_and-lt 6 x 0x3f (omega arith)))

even_boxes-lt : (t : ℕ) → even_boxes t < 2 ^ 32
unfolding check_below
even_boxes-lt t =
    bit_xor-lt 32 _ _
      (bit_xor-lt 32 _ _ (bit_xor-lt 32 _ _ (boxed sb8 refl t) (boxed sb6 refl (shr t 8)))
        (boxed sb4 refl (shr t 16)))
      (boxed sb2 refl (shr t 24))

odd_boxes-lt : (t : ℕ) → odd_boxes t < 2 ^ 32
unfolding check_below
odd_boxes-lt t =
    bit_xor-lt 32 _ _
      (bit_xor-lt 32 _ _ (bit_xor-lt 32 _ _ (boxed sb7 refl t) (boxed sb5 refl (shr t 8)))
        (boxed sb3 refl (shr t 16)))
      (boxed sb1 refl (shr t 24))

pub des_rounds-IsWords : (ks : List (ℕ × ℕ)) (p : ℕ × ℕ) → IsWords p → IsWords (des_rounds ks p)
unfolding des_rounds des_round
des_rounds-IsWords [] p h = h
des_rounds-IsWords (k ∷ ks) (x, y) h = des_rounds-IsWords ks _ (
  h.1,
  bit_xor-lt 32 _ _ (bit_xor-lt 32 x _ (h.0) (even_boxes-lt (bit_xor (k.0) y)))
      (odd_boxes-lt (bit_xor (k.1) (bit_or (shl y 28) (shr y 4)))),
)
