-- ===== src/Crypt/Tests.antt =====
-- Runs of lua-crypt.c, and its theorems at concrete strings.
use ddzproject.Prelude.{ℕ, ◌+◌, ◌-◌, ◌*◌, ◌%◌, ◌^◌, ◌<◌, ◌≡◌, refl, arith, List, [], ◌∷◌, some, All}
use ddzproject.Crypt.Hash.{
  hash_key, hash_words, hash_loop, qword_bytes, read_words, hmac, hmac_rounds, hmac_round, hmac64,
}
use ddzproject.Crypt.Random.{random_key, dhexchange-random_key}
use ddzproject.Crypt.Key.{push64, word, read_key}
use ddzproject.Crypt.Dh.{
  prime, generator, mul_mod_p, mul_mod_p_lem, powmodp, dhexchange, dhsecret, key,
}
use ddzproject.Crypt.Power.{powmodp_lem}
use ddzproject.Crypt.Agree.{dhsecret_agree}
use ddzproject.Crypt.Hex.{Decoded, decoded, to_hex, hex_value, from_pairs, from_hex}
use ddzproject.Crypt.Base64.{codes, b64encode, encode_text, b64decode}
use ddzproject.Crypt.Base64.Decode.{b64decode-b64encode}
use ddzproject.Crypt.Base64.Fuel.{b64decode-ends}
use ddzproject.Crypt.Des.Schedule.{
  get_uint32, exchange, choose_left, choose_right, left_subkey, right_subkey, subkeys, des_main_ks,
}
use ddzproject.Crypt.Des.Block.{
  put_uint32, rotate_left, rotate_right, des_ip, des_fp, des_round, des_rounds, des_crypt,
}
use ddzproject.Crypt.Des.Text.{pushed, reads_before_buffer, desencode, desdecode}
use ddzproject.Crypt.Des.Roundtrip.{desdecode-desencode, desdecode-zero_block}

abbrev three : List ℕ
three = 3 ∷ 0 ∷ 0 ∷ 0 ∷ 0 ∷ 0 ∷ 0 ∷ 0 ∷ []

abbrev high : List ℕ
high = 4 ∷ 0 ∷ 0 ∷ 0 ∷ 0 ∷ 0 ∷ 0 ∷ 1 ∷ []

three_read : read_key three ≡ some 3
unfolding read_key word
three_read = refl

high_read : read_key high ≡ some (4 + 2 ^ 56)
unfolding read_key word
high_read = refl

dhsecret_agree_example :
    (gx : List ℕ) × (gy : List ℕ) × (dhexchange three ≡ key gx)
    × (dhexchange high ≡ key gy)
    × (dhsecret gx high ≡ key (push64 ((generator ^ (3 * (4 + 2 ^ 56))) % prime)))
    × (dhsecret gy three ≡ dhsecret gx high)
dhsecret_agree_example =
    dhsecret_agree three high 3 (4 + 2 ^ 56) (ground arith) (ground arith) three_read high_read
      (omega arith) (omega arith)

powmodp_lem_example : powmodp (prime + 2) 6 ≡ some (((prime + 2) ^ 6) % prime)
powmodp_lem_example = powmodp_lem (prime + 2) 6 (omega arith) (omega arith) (omega arith)

mul_mod_p_lem_example : mul_mod_p (prime - 1) (prime - 2) ≡ ((prime - 1) * (prime - 2)) % prime
mul_mod_p_lem_example = mul_mod_p_lem (prime - 1) (prime - 2) (omega arith) (omega arith)

abbrev some_bytes : List ℕ
some_bytes = 0 ∷ 255 ∷ 16 ∷ 77 ∷ []

some_bytes-All : All (λ b. b < 256) some_bytes
some_bytes-All = ground arith

hex_of_bytes : to_hex (10 ∷ 255 ∷ []) ≡ codes "0aff"
unfolding to_hex
hex_of_bytes = refl

-- "gg" is taken, as 0x10 << 4 | 0x10 in a byte.
letter_g : from_hex (codes "gg") ≡ decoded (16 ∷ [])
unfolding from_hex from_pairs hex_value
letter_g = refl

abbrev g_nought : List ℕ
g_nought = codes "g0"

base64_of_text : b64encode (codes "Man!") ≡ some (codes "TWFuIQ==")
unfolding b64encode encode_text
base64_of_text = refl

b64decode-b64encode_example :
    (text : List ℕ) × ((b64encode some_bytes ≡ some text)
      × (b64decode text ≡ some (decoded some_bytes)))
b64decode-b64encode_example = b64decode-b64encode some_bytes some_bytes-All (omega arith)

b64decode-ends_example : (r : Decoded) × (b64decode (codes "TWFu IQ==") ≡ some r)
b64decode-ends_example = b64decode-ends (codes "TWFu IQ==") (omega arith)

abbrev des_key : List ℕ
des_key = 0x13 ∷ 0x34 ∷ 0x57 ∷ 0x79 ∷ 0x9b ∷ 0xbc ∷ 0xdf ∷ 0xf1 ∷ []

-- The worked example of the DES standard's tutorials.
des_vector :
    des_crypt (des_main_ks des_key) (0x01 ∷ 0x23 ∷ 0x45 ∷ 0x67 ∷ 0x89 ∷ 0xab ∷ 0xcd ∷ 0xef ∷ [])
    ≡ 0x85 ∷ 0xe8 ∷ 0x13 ∷ 0x54 ∷ 0x0f ∷ 0x0a ∷ 0xb4 ∷ 0x05 ∷ []
unfolding des_crypt des_main_ks subkeys left_subkey right_subkey choose_left choose_right exchange
    get_uint32 put_uint32 des_ip des_fp des_rounds des_round rotate_left rotate_right
des_vector = refl

desdecode-desencode_example :
    (cipher : List ℕ) × ((desencode des_key some_bytes ≡ pushed cipher)
      × (desdecode des_key cipher ≡ pushed some_bytes))
desdecode-desencode_example =
    desdecode-desencode des_key some_bytes some_bytes-All refl (omega arith)

desdecode-zero_block_example :
    desdecode des_key (des_crypt (des_main_ks des_key) (0 ∷ 0 ∷ 0 ∷ 0 ∷ 0 ∷ 0 ∷ 0 ∷ 0 ∷ []))
    ≡ reads_before_buffer
desdecode-zero_block_example = desdecode-zero_block des_key (omega arith)

abbrev key_bytes : List ℕ
key_bytes = 1 ∷ 2 ∷ 3 ∷ 4 ∷ 5 ∷ 6 ∷ 7 ∷ 8 ∷ []

abbrev hashed : List ℕ
hashed = 67 ∷ 190 ∷ 244 ∷ 27 ∷ 172 ∷ 72 ∷ 206 ∷ 127 ∷ []

abbrev digest : List ℕ
digest = 54 ∷ 205 ∷ 198 ∷ 52 ∷ 64 ∷ 178 ∷ 140 ∷ 112 ∷ []

hashed_skynet : hash_key (codes "skynet") ≡ hashed
unfolding hash_key hash_words hash_loop qword_bytes
hashed_skynet = refl

digest_skynet : hmac64 hashed key_bytes ≡ some digest
unfolding hmac64 read_words word hmac hmac_rounds hmac_round qword_bytes
digest_skynet = refl

dhexchange-random_key_example :
    (public : List ℕ) × (dhexchange (random_key (256 ∷ 7 ∷ 512 ∷ 7 ∷ 0 ∷ 0 ∷ 0 ∷ 1024 ∷ []))
      ≡ key public)
dhexchange-random_key_example = dhexchange-random_key 256 7 512 7 0 0 0 1024
