-- ===== src/Crypt/Digest.antt =====
-- The words of `Hash`, the string that is made of them and what `hmac` reads of it, and `lxor_str` twice.
use ddzproject.Prelude.{
  ℕ, ◌+◌, ◌*◌, ◌/◌, ◌%◌, ◌^◌, ◌<◌, ◌≡◌, refl, ap₂, List, [], ◌∷◌, arith, bit_and, some,
}
use ddzproject.Prelude.Xor.{bit_xor-lt}
use native.Mathlib.Nat.{mod-lt}
use ddzproject.Crypt.Key.{word, word_of}
use ddzproject.Crypt.Hash.{
  hash_step, hash_loop, hash_words, qword_bytes, hash_key, read_words, hmac64, hmac_hash,
}

-- Both numbers are words.
abbrev pub AreWords : ℕ × ℕ → Type 0
AreWords (x, y) = (x < 2 ^ 32) × (y < 2 ^ 32)

word_whole :
    (r : ℕ)
    → r < 2 ^ 32
    → word
        (bit_and r 0xff)
        (bit_and (r / 2 ^ 8) 0xff)
        (bit_and (r / 2 ^ 16) 0xff)
        (bit_and (r / 2 ^ 24) 0xff)
      ≡ r
word_whole r h = omega (arith, word_of r (r / 2 ^ 8) (r / 2 ^ 16) (r / 2 ^ 24))

pub read_words-qword_bytes : (r : ℕ × ℕ) → AreWords r → read_words (qword_bytes r) ≡ some r
unfolding read_words qword_bytes
read_words-qword_bytes (r0, r1) (h0, h1) =
    ap₂ (λ (x y : ℕ). some (x, y)) (word_whole r0 h0) (word_whole r1 h1)

hash_loop-AreWords : (text : List ℕ) (sums : ℕ × ℕ) → AreWords sums → AreWords (hash_loop text sums)
unfolding hash_loop
hash_loop-AreWords [] sums h = h
hash_loop-AreWords (c ∷ text) (djb, js) (h0, h1) = hash_loop-AreWords text (hash_step (djb, js) c) (
  mod-lt (djb + (djb * 2 ^ 5 + c)) {m = 2 ^ 32} (omega arith),
  bit_xor-lt 32 js ((js * 2 ^ 5 + c + js / 2 ^ 2) % 2 ^ 32) h1
      (mod-lt (js * 2 ^ 5 + c + js / 2 ^ 2) {m = 2 ^ 32} (omega arith)),
)

hash_words-AreWords : (text : List ℕ) → AreWords (hash_words text)
unfolding hash_words
hash_words-AreWords text = hash_loop-AreWords text (5381, 1315423911) (omega arith, omega arith)

-- The string that `lhashkey` pushes for a text is read back as the two words of the hash.
read_words-hash_key : (text : List ℕ) → read_words (hash_key text) ≡ some (hash_words text)
unfolding hash_key
read_words-hash_key text = read_words-qword_bytes (hash_words text) (hash_words-AreWords text)

-- The digest of a text under a key is `lhmac64` of the hash of the text and the key, for keys of every
-- length, those that are refused included.
hmac_hash_lem : (key text : List ℕ) → hmac_hash key text ≡ hmac64 (hash_key text) key
unfolding hmac_hash hmac64
hmac_hash_lem key text = rw (read_words-hash_key text) refl
