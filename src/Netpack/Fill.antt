-- ===== src/Netpack/Fill.antt =====
-- `filter_data_` of lua-netpack.c when the size of the packet is known.
use ddzproject.Prelude.{
  ℕ, ◌-◌, ◌^◌, ◌≤◌, ◌<◌, ◌≡◌, ◌≢◌, refl, sym, ap, ap₂, ◌∙◌, Option, some, List, [], ◌∷◌, ◌++◌,
  length, take, drop, arith, All, append-nil, append_assoc, lt→ltb, le→ltb, length-take,
  length-drop, length-append, take-append-drop, ==_iff, ==_ne,
}
use native.Mathlib.Decide.{dec_lt, ℕ_discrete}
use ddzproject.Netpack.{
  NetPack, body, Queue, get_queue, push_data, read_size, write_size, Filtered, nothing, packet,
  more, fill, begin,
}
use ddzproject.Netpack.Ring.{IsRing, ring}
use ddzproject.Netpack.Waiting.{ring-save, waiting, waiting-push}
use ddzproject.Netpack.Advance.{
  bytes_of, pending, joined, packs, Advances, IsOpen-subst, saved-Advances, ring-push,
  pushed-Advances, spelled,
}
use ddzproject.Netpack.More.{All-drop, none-left, push_more-Advances}

-- What `filter` returns, as packets.
unfoldable pub sent : Filtered → List (Option NetPack)
sent nothing = []
sent (packet np) = some np ∷ []
sent more = []

abbrev pub Filters : Option Queue → ℕ → List ℕ → Filtered × Option Queue → Type 0
Filters S fd text r =
    (fs : List (List ℕ)) × Advances S (r.1) fd fs (sent (r.0)) text
    × (r.0 ≢ more → ring (get_queue (r.1)) ≡ ring (get_queue S))

-- A packet that goes out at once, and nothing is left.
sent-Advances :
    (S : Option Queue) (fd : ℕ) (b : List ℕ) (n : ℕ)
    → n ≡ length b
    → n < 2 ^ 16
    → IsRing (get_queue S)
    → waiting (get_queue S) fd ≡ []
    → Advances S S fd
        (b ∷ [])
        (some (record { id = fd; size = n; buffer = b }) ∷ [])
        (write_size n ++ b)
unfolding packs joined pending
sent-Advances S fd b n e small v w = record {
  in_ring = v;
  open_here = IsOpen-subst _ [] w tt;
  short = (omega arith, tt);
  queued = ap (λ k. ring (get_queue S) ++ some (record { id = fd; size = k; buffer = b }) ∷ []) e;
  bytes =
      ap (λ rs. (write_size (length b) ++ (b ++ [])) ++ pending rs) w
      ∙ (append-nil _ ∙ ap₂ (λ k xs. write_size k ++ xs) (sym e) (append-nil b));
  others = λ g ne. refl;
}

take-whole : (n : ℕ) (xs : List ℕ) → length xs ≤ n → take n xs ≡ xs
take-whole n xs short =
    sym (append-nil _)
    ∙ (ap (λ ys. take n xs ++ ys) (none-left (drop n xs) (omega (arith, length-drop n xs)))
        ∙ take-append-drop n xs)

pub fill-Filters :
    (S : Option Queue) (fd n : ℕ) (got buffer : List ℕ)
    → length got ≤ n
    → n < 2 ^ 16
    → All (λ b. b < 256) buffer
    → IsRing (get_queue S)
    → waiting (get_queue S) fd ≡ []
    → Filters S fd (write_size n ++ (got ++ buffer)) (fill S fd n got buffer)
fill-Filters S fd n got buffer le small h v w = elim (dec_lt (length buffer) need) [
  | yes short ↦
      unfold fill in
      rw (lt→ltb (length buffer) need short) (
        [],
        unfold bytes_of sent in
            saved-Advances S fd (body n (got ++ buffer)) v w
              (omega (arith, length-append got buffer), small),
        λ _. ring-save S fd (body n (got ++ buffer)),
      )
  | no long ↦ elim (ℕ_discrete (length buffer - need) 0) [
    | yes e ↦
        unfold fill in
        rw (le→ltb (length buffer) need (omega arith), (==_iff (length buffer - need) 0).1 e)
          (
            filled ∷ [],
            unfold sent in
                spelled S S fd _ _ _ _
                  (ap (λ xs. write_size n ++ (got ++ xs))
                    (take-whole need buffer (omega (arith, e))))
                  (sent-Advances S fd filled n (full long) small v w),
            λ _. refl,
          )
    | no ne ↦
        let (fs, a) =
          push_more-Advances (length buffer) (push_data S fd filled n) fd (drop need buffer)
            (omega (arith, length-drop need buffer)) (omega (arith, length-drop need buffer))
            (All-drop need buffer h) (ring-push S fd filled n (full long) v).0
            (waiting-push S fd filled n fd ∙ w) in
        unfold fill in
        rw (le→ltb (length buffer) need (omega arith), ==_ne (length buffer - need) 0 ne)
          (
            filled ∷ fs,
            unfold sent in
                spelled S _ fd _ _ _ _
                  (ap (λ xs. write_size n ++ xs)
                    (append_assoc got (take need buffer) (drop need buffer)
                      ∙ ap (λ xs. got ++ xs) (take-append-drop need buffer)))
                  (pushed-Advances S _ fd filled n fs (drop need buffer) (full long) small v a),
            λ f. absurd (f refl),
          )
  ]
]
  where
    need : ℕ
    need = n - length got

    filled : List ℕ
    filled = got ++ take need buffer

    full : ¬ (length buffer < need) → n ≡ length filled
    full long = omega (arith, length-append got (take need buffer), length-take need buffer)

-- A packet that begins is one of which nothing is there yet.
pub begin-fill :
    (S : Option Queue) (fd b0 b1 : ℕ) (buffer : List ℕ)
    → begin S fd (b0 ∷ b1 ∷ buffer) ≡ fill S fd (read_size b0 b1) [] buffer
unfolding begin fill
begin-fill S fd b0 b1 buffer = elim (dec_lt (length buffer) n) [
  | yes short ↦ rw (fill, all_needed, lt→ltb (length buffer) n short) refl
  | no long ↦ elim (ℕ_discrete (length buffer) n) [
    | yes e ↦
        rw
          (
            fill,
            all_needed,
            le→ltb (length buffer) n (omega arith),
            (==_iff (length buffer) n).1 e,
            (==_iff (length buffer - n) 0).1 (omega arith),
          )
          (ap (λ b. (packet (record { id = fd; size = n; buffer = b }), S))
            (sym (take-whole n buffer (omega arith))))
    | no ne ↦
        rw
          (
            fill,
            all_needed,
            le→ltb (length buffer) n (omega arith),
            ==_ne (length buffer) n ne,
            ==_ne (length buffer - n) 0 (omega arith),
          )
          refl
  ]
]
  where
    n : ℕ
    n = read_size b0 b1

    all_needed : n - 0 ≡ n
    all_needed = omega arith
