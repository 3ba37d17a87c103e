-- ===== src/Netpack/More.antt =====
-- `push_more` of lua-netpack.c, on the bytes that come behind a whole packet.
use ddzproject.Prelude.{
  ℕ, zero, suc, ◌-◌, ◌≤◌, ◌<◌, ◌≡◌, refl, ap, ap₂, ◌∙◌, Option, List, [], ◌∷◌, ◌++◌, length, take,
  drop, arith, All, lt→ltb, le→ltb, length-take, length-drop, take-append-drop,
}
use native.Mathlib.Decide.{dec_lt}
use ddzproject.Netpack.{header, body, Queue, get_queue, push_data, read_size, write_size, push_more}
use ddzproject.Netpack.Ring.{IsRing}
use ddzproject.Netpack.Waiting.{waiting, waiting-push}
use ddzproject.Netpack.Advance.{
  bytes_of, Advances, write_size-read_size, read_size-lt, saved-Advances, ring-push,
  pushed-Advances, last-Advances, spelled,
}

pub sized :
    (b0 b1 : ℕ) (xs ys : List ℕ)
    → b0 < 256
    → b1 < 256
    → xs ≡ ys
    → write_size (read_size b0 b1) ++ xs ≡ b0 ∷ b1 ∷ ys
sized b0 b1 xs ys h0 h1 e = ap₂ (λ u v. u ++ v) (write_size-read_size b0 b1 h0 h1) e

pub All-drop : (n : ℕ) (xs : List ℕ) → All (λ b. b < 256) xs → All (λ b. b < 256) (drop n xs)
All-drop zero xs h = h
All-drop (suc n) [] h = tt
All-drop (suc n) (x ∷ xs) h = All-drop n xs (h.1)

pub none-left : (xs : List ℕ) → length xs ≡ 0 → [] ≡ xs
none-left [] e = refl
none-left (x ∷ xs) e = absurd (omega (arith, e))

push_more-left :
    (fuel : ℕ) (S : Option Queue) (fd b0 b1 : ℕ) (buffer : List ℕ)
    → read_size b0 b1 ≤ length buffer
    → 0 < length buffer - read_size b0 b1
    → push_more (suc fuel) S fd (b0 ∷ b1 ∷ buffer)
      ≡ push_more fuel
          (push_data S fd (take (read_size b0 b1) buffer) (read_size b0 b1))
          fd
          (drop (read_size b0 b1) buffer)
unfolding push_more
push_more-left fuel S fd b0 b1 buffer long left =
    rw
      (
        le→ltb (length buffer) (read_size b0 b1) long,
        lt→ltb 0 (length buffer - read_size b0 b1) left,
      )
      refl

pub push_more-Advances :
    (fuel : ℕ) (S : Option Queue) (fd : ℕ) (buffer : List ℕ)
    → 0 < length buffer
    → length buffer ≤ fuel
    → All (λ b. b < 256) buffer
    → IsRing (get_queue S)
    → waiting (get_queue S) fd ≡ []
    → (fs : List (List ℕ)) × Advances S (push_more fuel S fd buffer) fd fs [] buffer
push_more-Advances zero S fd buffer pos le h v w = absurd (omega arith)
push_more-Advances (suc fuel) S fd [] pos le h v w = absurd (omega arith)
push_more-Advances (suc fuel) S fd (b0 ∷ []) pos le h v w =
    unfold push_more in ([], unfold bytes_of in saved-Advances S fd (header b0) v w (h.0))
push_more-Advances (suc fuel) S fd (b0 ∷ b1 ∷ buffer) pos le h v w =
    elim (dec_lt (length buffer) n) [
      | yes short ↦
          unfold push_more in
          rw (lt→ltb (length buffer) n short) (
            [],
            spelled S _ fd [] [] _ _ (sized b0 b1 buffer buffer (h.0) (h.1.0) refl) (
                unfold bytes_of in
                saved-Advances S fd (body n buffer) v w (short, read_size-lt b0 b1 (h.0) (h.1.0))),
          )
      | no long ↦ elim (dec_lt 0 (length buffer - n)) [
        | yes left ↦
            let (fs, a) =
              push_more-Advances fuel (push_data S fd (take n buffer) n) fd (drop n buffer)
                (omega (arith, length-drop n buffer)) (omega (arith, length-drop n buffer))
                (All-drop n buffer (h.1.1)) (ring-push S fd (take n buffer) n (full long) v).0
                (waiting-push S fd (take n buffer) n fd ∙ w) in
            rw (push_more-left fuel S fd b0 b1 buffer (omega (arith, long)) left) (
              take n buffer ∷ fs,
              spelled S _ fd _ [] _ _
                  (sized b0 b1 _ buffer (h.0) (h.1.0) (take-append-drop n buffer))
                  (pushed-Advances S _ fd (take n buffer) n fs (drop n buffer) (full long)
                    (read_size-lt b0 b1 (h.0) (h.1.0)) v a),
            )
        | no nothing_left ↦
            unfold push_more in
            rw (le→ltb (length buffer) n (omega arith), le→ltb 0 (length buffer - n) (omega arith))
              (
                take n buffer ∷ [],
                spelled S _ fd _ [] _ _
                    (sized b0 b1 _ buffer (h.0) (h.1.0) (
                      ap (λ xs. take n buffer ++ xs)
                        (none-left (drop n buffer) (omega (arith, length-drop n buffer)))
                      ∙ take-append-drop n buffer))
                    (last-Advances S fd (take n buffer) n (full long)
                      (read_size-lt b0 b1 (h.0) (h.1.0)) v w),
              )
      ]
    ]
  where
    n : ℕ
    n = read_size b0 b1

    full : ¬ (length buffer < n) → n ≡ length (take n buffer)
    full long = omega (arith, length-take n buffer)
