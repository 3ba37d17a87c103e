-- ===== src/Seri/Blocks.antt =====
-- The chain of blocks of `struct write_block` as the sequence of the bytes that were pushed.
use ddzproject.Prelude.{
  take-all, ℕ, zero, suc, ◌+◌, ◌-◌, ◌≤◌, ◌<◌, ◌≡◌, ◌≢◌, refl, sym, ap, ◌∙◌, subst, some, List, [],
  ◌∷◌, ◌++◌, take, drop, length, All, ==_iff, ==_ne, le→leb, lt→leb, arith, length-append,
  length-take, length-drop, take-append-drop, append_assoc, append-nil,
}
use native.Mathlib.Decide.{dec_le, ℕ_discrete}
use ddzproject.Seri.{
  WriteBlock, block_size, next_block, copy_in, fill_blocks, wb_push, push_all, seri,
}
use ddzproject.Seri.Spec.{flat}

abbrev pub AreFull : List (List ℕ) → Type 0
AreFull bs = All (λ b. length b ≡ block_size) bs

-- The blocks hold these bytes, and all of them but the current one are full.
pub record Holds (b : WriteBlock) (bytes : List ℕ) : Type 0 where
  pub full : AreFull b.before
  pub within : length b.current ≤ block_size
  pub content : flat b.before ++ b.current ≡ bytes
  pub len : b.len ≡ length bytes

flat-snoc : (bs : List (List ℕ)) (b : List ℕ) → flat (bs ++ b ∷ []) ≡ flat bs ++ b
flat-snoc [] b = append-nil b
flat-snoc (x ∷ bs) b = ap (λ l. x ++ l) (flat-snoc bs b) ∙ sym (append_assoc x (flat bs) b)

AreFull-snoc :
    (bs : List (List ℕ)) (b : List ℕ) → AreFull bs → length b ≡ block_size → AreFull (bs ++ b ∷ [])
AreFull-snoc [] b h e = (e, tt)
AreFull-snoc (x ∷ bs) b (h, hs) e = (h, AreFull-snoc bs b hs e)

next_block-Holds :
    (b : WriteBlock) (bytes : List ℕ)
    → length b.current ≡ block_size
    → Holds b bytes
    → Holds (next_block b) bytes
unfolding next_block
next_block-Holds b bytes e h = record {
  full = AreFull-snoc b.before b.current h.full e;
  within = omega arith;
  content =
      append-nil (flat (b.before ++ b.current ∷ [])) ∙ flat-snoc b.before b.current ∙ h.content;
  len = h.len;
}

copy_in-Holds :
    (b : WriteBlock) (bytes more : List ℕ)
    → length b.current + length more ≤ block_size
    → Holds b bytes
    → Holds (copy_in b more) (bytes ++ more)
unfolding copy_in
copy_in-Holds b bytes more le h = record {
  full = h.full;
  within = omega (arith, length-append b.current more);
  content = sym (append_assoc (flat b.before) b.current more) ∙ ap (λ l. l ++ more) h.content;
  len = omega (arith, h.len, length-append bytes more);
}

fill_blocks-fits :
    (fuel : ℕ) (b : WriteBlock) (more : List ℕ)
    → length b.current + length more ≤ block_size
    → fill_blocks (suc fuel) b more ≡ copy_in b more
unfolding fill_blocks
fill_blocks-fits fuel b more le = rw (le→leb (length b.current + length more) block_size le) refl

fill_blocks-again :
    (fuel : ℕ) (b : WriteBlock) (more : List ℕ)
    → block_size < length b.current + length more
    → fill_blocks (suc fuel) b more
      ≡ fill_blocks fuel
          (next_block (copy_in b (take (block_size - length b.current) more)))
          (drop (block_size - length b.current) more)
unfolding fill_blocks
fill_blocks-again fuel b more lt =
    rw (fill_blocks, lt→leb (length b.current + length more) block_size lt) refl

-- The loop has enough fuel when that is more than there are bytes, for each round takes one or more.
fill_blocks-Holds :
    (fuel : ℕ) (b : WriteBlock) (bytes more : List ℕ)
    → length more < fuel
    → length b.current < block_size
    → Holds b bytes
    → Holds (fill_blocks fuel b more) (bytes ++ more)
fill_blocks-Holds zero b bytes more lt room h = absurd (omega arith)
fill_blocks-Holds (suc fuel) b bytes more lt room h =
    elim (dec_le (length b.current + length more) block_size) [
      | yes le ↦
          subst (λ x. Holds x (bytes ++ more)) (sym (fill_blocks-fits fuel b more le))
            (copy_in-Holds b bytes more le h)
      | no gt ↦
          let head = take (block_size - length b.current) more in
          let tail = drop (block_size - length b.current) more in
          let head_size = length-take (block_size - length b.current) more in
          let tail_size = length-drop (block_size - length b.current) more in
          subst (λ x. Holds x (bytes ++ more)) (sym (fill_blocks-again fuel b more (omega arith)))
            (subst (λ l. Holds (fill_blocks fuel (next_block (copy_in b head)) tail) l)
              (append_assoc bytes head tail
                ∙ ap (λ l. bytes ++ l) (take-append-drop (block_size - length b.current) more))
              (fill_blocks-Holds fuel (next_block (copy_in b head)) (bytes ++ head) tail
                (omega (arith, head_size, tail_size)) (unfold next_block in omega arith)
                (next_block-Holds (copy_in b head) (bytes ++ head)
                  (unfold copy_in in
                    omega (arith, length-append b.current head, head_size, tail_size))
                  (copy_in-Holds b bytes head (omega (arith, head_size, tail_size)) h))))
    ]

wb_push-full :
    (b : WriteBlock) (more : List ℕ)
    → length b.current ≡ block_size
    → wb_push b more ≡ fill_blocks (suc (length more)) (next_block b) more
unfolding wb_push
wb_push-full b more e = rw ((==_iff (length b.current) block_size).1 e) refl

wb_push-open :
    (b : WriteBlock) (more : List ℕ)
    → length b.current ≢ block_size
    → wb_push b more ≡ fill_blocks (suc (length more)) b more
unfolding wb_push
wb_push-open b more ne = rw (==_ne (length b.current) block_size ne) refl

wb_push-Holds :
    (b : WriteBlock) (bytes more : List ℕ) → Holds b bytes → Holds (wb_push b more) (bytes ++ more)
wb_push-Holds b bytes more h = elim (ℕ_discrete (length b.current) block_size) [
  | yes e ↦
      subst (λ x. Holds x (bytes ++ more)) (sym (wb_push-full b more e))
        (fill_blocks-Holds (suc (length more)) (next_block b) bytes more (omega arith)
          (unfold next_block in omega arith) (next_block-Holds b bytes e h))
  | no ne ↦
      subst (λ x. Holds x (bytes ++ more)) (sym (wb_push-open b more ne))
        (fill_blocks-Holds (suc (length more)) b bytes more (omega arith) (omega (arith, h.within))
          h)
]

pub push_all-Holds :
    (ps : List (List ℕ)) (b : WriteBlock) (bytes : List ℕ)
    → Holds b bytes
    → Holds (push_all b ps) (bytes ++ flat ps)
unfolding push_all
push_all-Holds [] b bytes h = subst (λ l. Holds b l) (sym (append-nil bytes)) h
push_all-Holds (p ∷ ps) b bytes h =
    subst (λ l. Holds (push_all (wb_push b p) ps) l) (append_assoc bytes p (flat ps))
      (push_all-Holds ps (wb_push b p) (bytes ++ p) (wb_push-Holds b bytes p h))

seri-block :
    (b rest : List ℕ) (bs : List (List ℕ)) (len : ℕ)
    → length b ≡ block_size
    → block_size ≤ len
    → seri bs (len - block_size) ≡ some rest
    → seri (b ∷ bs) len ≡ some (b ++ rest)
unfolding seri
seri-block b rest bs len e le f =
    rw (seri, ==_ne len 0 (omega arith), le→leb block_size len le, f)
      (ap (λ l. some (l ++ rest)) (take-all block_size b (omega arith)))

seri-last :
    (b : List ℕ) (bs : List (List ℕ)) → length b < block_size → seri (b ∷ bs) (length b) ≡ some b
unfolding seri
seri-last [] bs lt = refl
seri-last (x ∷ b) bs lt =
    rw (==_ne (length (x ∷ b)) 0 (omega arith), lt→leb block_size (length (x ∷ b)) lt)
      (ap some (take-all (length (x ∷ b)) (x ∷ b) (omega arith)))

seri-chain :
    (bs : List (List ℕ)) (last : List ℕ)
    → AreFull bs
    → length last ≤ block_size
    → seri (bs ++ last ∷ []) (length (flat bs ++ last)) ≡ some (flat bs ++ last)
seri-chain [] last full le = elim (ℕ_discrete (length last) block_size) [
  | no ne ↦ seri-last last [] (omega arith)
  | yes e ↦
      seri-block last [] [] (length last) e (omega arith) (
        ap (λ n. seri [] n) {x = length last - block_size} {y = 0} (omega arith)
        ∙ (unfold seri in refl))
      ∙ ap some (append-nil last)
]
seri-chain (b ∷ bs) last (e, full) le =
    seri-block b (flat bs ++ last) (bs ++ last ∷ []) (length ((b ++ flat bs) ++ last)) e
      (omega (arith, sizes))
      (ap (λ n. seri (bs ++ last ∷ []) n) {x = length ((b ++ flat bs) ++ last) - block_size}
          {y = length (flat bs ++ last)} (omega (arith, sizes))
        ∙ seri-chain bs last full le)
    ∙ ap some (sym (append_assoc b (flat bs) last))
  where
    sizes : length ((b ++ flat bs) ++ last) ≡ block_size + length (flat bs ++ last)
    sizes =
        omega
          (arith, ap length (append_assoc b (flat bs) last), length-append b (flat bs ++ last), e)

-- What the blocks hold is copied whole, and no block that is missing is read.
pub seri-Holds :
    (b : WriteBlock) (bytes : List ℕ)
    → Holds b bytes
    → seri (b.before ++ b.current ∷ []) b.len ≡ some bytes
seri-Holds b bytes h =
    ap (λ n. seri (b.before ++ b.current ∷ []) n) (h.len ∙ ap length (sym h.content))
    ∙ seri-chain b.before b.current h.full h.within
    ∙ ap some h.content
