-- ===== src/Crypt/Des/Undo.antt =====
-- `des_crypt` with the subkeys in reverse, after `des_crypt`.
use ddzproject.Prelude.{
  ℕ, ◌+◌, ◌*◌, ◌/◌, ◌%◌, ◌^◌, ◌<◌, ◌≡◌, refl, ap, ap₂, ◌∙◌, List, [], ◌∷◌, ◌++◌, length, arith, All,
  bit_or,
}
use ddzproject.Prelude.Bits.{bit_or_fields}
use mathlib.Core.List.{reverse}
use ddzproject.Crypt.Des.Schedule.{get_uint32}
use ddzproject.Crypt.Des.Block.{turn, put_uint32, des_ip, des_fp, des_rounds, des_crypt}
use ddzproject.Crypt.Des.Inverse.{IsWords}
use ddzproject.Crypt.Des.Rounds.{
  des_ip-fp, des_fp-ip, des_ip-IsWords, des_fp-IsWords, des_rounds-reverse, des_rounds-IsWords,
}
use ddzproject.Crypt.Des.Text.{decode_blocks}

get_uint32_lem :
    (b0 b1 b2 b3 : ℕ)
    → b1 < 256
    → b2 < 256
    → b3 < 256
    → get_uint32 b0 b1 b2 b3 ≡ b0 * 2 ^ 24 + b1 * 2 ^ 16 + b2 * 2 ^ 8 + b3
unfolding get_uint32
get_uint32_lem b0 b1 b2 b3 h1 h2 h3 =
    ap (λ t. bit_or (bit_or t (b2 * 2 ^ 8)) b3) (bit_or_fields 24 b0 (b1 * 2 ^ 16) (omega arith))
    ∙ (ap (λ t. bit_or (bit_or t (b2 * 2 ^ 8)) b3) {x = b0 * 2 ^ 24 + b1 * 2 ^ 16}
          {y = (b0 * 2 ^ 8 + b1) * 2 ^ 16} (omega arith)
        ∙ (ap (λ t. bit_or t b3) (bit_or_fields 16 (b0 * 2 ^ 8 + b1) (b2 * 2 ^ 8) (omega arith))
            ∙ (ap (λ t. bit_or t b3) {x = (b0 * 2 ^ 8 + b1) * 2 ^ 16 + b2 * 2 ^ 8}
                  {y = (b0 * 2 ^ 16 + b1 * 2 ^ 8 + b2) * 2 ^ 8} (omega arith)
                ∙ omega (arith, bit_or_fields 8 (b0 * 2 ^ 16 + b1 * 2 ^ 8 + b2) b3 h3))))

-- The word that was put is got.
get_uint32-put :
    (n : ℕ)
    → n < 2 ^ 32
    → get_uint32 (n / 2 ^ 24 % 256) (n / 2 ^ 16 % 256) (n / 2 ^ 8 % 256) (n % 256) ≡ n
get_uint32-put n h =
    get_uint32_lem (n / 2 ^ 24 % 256) (n / 2 ^ 16 % 256) (n / 2 ^ 8 % 256) (n % 256) (omega arith)
      (omega arith) (omega arith)
    ∙ omega arith

put_uint32-get :
    (b0 b1 b2 b3 : ℕ)
    → b0 < 256
    → b1 < 256
    → b2 < 256
    → b3 < 256
    → put_uint32 (get_uint32 b0 b1 b2 b3) ≡ b0 ∷ b1 ∷ b2 ∷ b3 ∷ []
unfolding put_uint32
put_uint32-get b0 b1 b2 b3 h0 h1 h2 h3 =
    rw (get_uint32_lem b0 b1 b2 b3 h1 h2 h3)
      (four _ _ _ _ b0 b1 b2 b3 (omega arith) (omega arith) (omega arith) (omega arith))
  where
    four :
        (a b c d a' b' c' d' : ℕ)
        → a ≡ a'
        → b ≡ b'
        → c ≡ c'
        → d ≡ d'
        → a ∷ b ∷ c ∷ d ∷ [] ≡ a' ∷ b' ∷ c' ∷ d' ∷ []
    four a b c d a' b' c' d' p q r s = cc

get_uint32-lt :
    (b0 b1 b2 b3 : ℕ) → b0 < 256 → b1 < 256 → b2 < 256 → b3 < 256 → get_uint32 b0 b1 b2 b3 < 2 ^ 32
get_uint32-lt b0 b1 b2 b3 h0 h1 h2 h3 = omega (arith, get_uint32_lem b0 b1 b2 b3 h1 h2 h3)

-- The pair of words that a block is, and back.
from_words : ℕ × ℕ → List ℕ
from_words p = put_uint32 (p.0) ++ put_uint32 (p.1)

crypt_words : List (ℕ × ℕ) → ℕ × ℕ → ℕ × ℕ
crypt_words ks p = des_fp (turn (des_rounds ks (des_ip p)))

crypt_words-reverse :
    (ks : List (ℕ × ℕ)) (p : ℕ × ℕ) → IsWords p → crypt_words (reverse ks) (crypt_words ks p) ≡ p
unfolding crypt_words
crypt_words-reverse ks p h =
    let q = des_rounds ks (des_ip p) in
    let w = des_rounds-IsWords ks (des_ip p) (des_ip-IsWords p h) in
    ap (λ r. des_fp (turn (des_rounds (reverse ks) r))) (des_ip-fp (turn q) (w.1, w.0))
    ∙ (ap (λ r. des_fp (turn r)) (des_rounds-reverse ks (des_ip p)) ∙ des_fp-ip p h)

crypt_words-IsWords : (ks : List (ℕ × ℕ)) (p : ℕ × ℕ) → IsWords p → IsWords (crypt_words ks p)
unfolding crypt_words
crypt_words-IsWords ks p h =
    let w = des_rounds-IsWords ks (des_ip p) (des_ip-IsWords p h) in des_fp-IsWords _ (w.1, w.0)

des_crypt-words :
    (ks : List (ℕ × ℕ)) (b0 b1 b2 b3 b4 b5 b6 b7 : ℕ)
    → des_crypt ks (b0 ∷ b1 ∷ b2 ∷ b3 ∷ b4 ∷ b5 ∷ b6 ∷ b7 ∷ [])
      ≡ from_words (crypt_words ks (get_uint32 b0 b1 b2 b3, get_uint32 b4 b5 b6 b7))
unfolding des_crypt from_words crypt_words
des_crypt-words ks b0 b1 b2 b3 b4 b5 b6 b7 = refl

des_crypt-from_words :
    (ks : List (ℕ × ℕ)) (p : ℕ × ℕ)
    → IsWords p
    → des_crypt ks (from_words p) ≡ from_words (crypt_words ks p)
unfolding from_words put_uint32
des_crypt-from_words ks p h =
    des_crypt-words ks _ _ _ _ _ _ _ _
    ∙ ap (λ q. from_words (crypt_words ks q))
        (ap₂ (λ (a b : ℕ). (a, b)) (get_uint32-put (p.0) (h.0)) (get_uint32-put (p.1) (h.1)))

-- A block that was encrypted is decrypted with the subkeys in reverse.
pub des_crypt-reverse :
    (ks : List (ℕ × ℕ)) (b0 b1 b2 b3 b4 b5 b6 b7 : ℕ)
    → All (λ b. b < 256) (b0 ∷ b1 ∷ b2 ∷ b3 ∷ b4 ∷ b5 ∷ b6 ∷ b7 ∷ [])
    → des_crypt (reverse ks) (des_crypt ks (b0 ∷ b1 ∷ b2 ∷ b3 ∷ b4 ∷ b5 ∷ b6 ∷ b7 ∷ []))
      ≡ b0 ∷ b1 ∷ b2 ∷ b3 ∷ b4 ∷ b5 ∷ b6 ∷ b7 ∷ []
unfolding from_words
des_crypt-reverse ks b0 b1 b2 b3 b4 b5 b6 b7 (h0, (h1, (h2, (h3, (h4, (h5, (h6, (h7, _)))))))) =
    let w : ℕ × ℕ = (get_uint32 b0 b1 b2 b3, get_uint32 b4 b5 b6 b7) in
    let words : IsWords w =
      (get_uint32-lt b0 b1 b2 b3 h0 h1 h2 h3, get_uint32-lt b4 b5 b6 b7 h4 h5 h6 h7) in
    ap (des_crypt (reverse ks)) (des_crypt-words ks b0 b1 b2 b3 b4 b5 b6 b7)
    ∙ (des_crypt-from_words (reverse ks) (crypt_words ks w) (crypt_words-IsWords ks w words)
        ∙ (ap from_words (crypt_words-reverse ks w words)
            ∙ ap₂ (λ (xs ys : List ℕ). xs ++ ys) (put_uint32-get b0 b1 b2 b3 h0 h1 h2 h3)
                (put_uint32-get b4 b5 b6 b7 h4 h5 h6 h7)))

pub length-des_crypt :
    (ks : List (ℕ × ℕ)) (b0 b1 b2 b3 b4 b5 b6 b7 : ℕ)
    → length (des_crypt ks (b0 ∷ b1 ∷ b2 ∷ b3 ∷ b4 ∷ b5 ∷ b6 ∷ b7 ∷ [])) ≡ 8
unfolding put_uint32 from_words
length-des_crypt ks b0 b1 b2 b3 b4 b5 b6 b7 = rw (des_crypt-words ks b0 b1 b2 b3 b4 b5 b6 b7) refl

decode_blocks-from_words :
    (ks : List (ℕ × ℕ)) (p : ℕ × ℕ) (rest : List ℕ)
    → decode_blocks ks (from_words p ++ rest) ≡ des_crypt ks (from_words p) ++ decode_blocks ks rest
unfolding decode_blocks from_words put_uint32
decode_blocks-from_words ks p rest = refl

pub decode_blocks-crypt :
    (ks js : List (ℕ × ℕ)) (b0 b1 b2 b3 b4 b5 b6 b7 : ℕ) (rest : List ℕ)
    → let block = des_crypt ks (b0 ∷ b1 ∷ b2 ∷ b3 ∷ b4 ∷ b5 ∷ b6 ∷ b7 ∷ []) in
      decode_blocks js (block ++ rest) ≡ des_crypt js block ++ decode_blocks js rest
decode_blocks-crypt ks js b0 b1 b2 b3 b4 b5 b6 b7 rest =
    rw (des_crypt-words ks b0 b1 b2 b3 b4 b5 b6 b7) (decode_blocks-from_words js _ rest)
