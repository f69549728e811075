-- ===== src/Config/Padded.antt =====
-- Decode gives back what Encode was given (pkg/config/crypto.go).
use Prim.Native.Nat.{◌%◌, ◌*◌}
use cordial.Common.{
  ℕ, zero, suc, ◌+◌, ◌-◌, ◌<◌, ◌≤◌, ◌≡◌, refl, ap, ◌∙◌, true, false, Bytes, codes, [], ◌∷◌, ◌++◌,
  ◌==◌, ltb, arith, length, length-append, All-append, take, take-append,
}
use cordial.Text.{trim_prefix, cut_prefix-append}
use cordial.Config.Hex.{encode_hex, decode_hex, IsBytes, decode_hex-encode}
use cordial.Config.Secret.{
  KeyValues, Cipher, plain, repeat, pad_bytes, last_byte, encrypt_padded, encode_secret,
  remove_padding, decode_secret,
}

-- AES in CBC mode, on whole blocks: the two modes undo each other under one key and one initial
-- vector, and the encrypted text is made of bytes and as long as the plain one.
pub record CipherLaws (aes : Cipher) : Type 0 where
  pub decrypt_encrypt :
      (key iv text : Bytes)
      → IsBytes text
      → length text % 16 ≡ 0
      → aes.decrypt key iv (aes.encrypt key iv text) ≡ text
  pub length_encrypt :
      (key iv text : Bytes)
      → IsBytes text
      → length text % 16 ≡ 0
      → length (aes.encrypt key iv text) ≡ length text
  pub bytes_encrypt : (key iv text : Bytes) → IsBytes text → IsBytes (aes.encrypt key iv text)

repeat-IsBytes : (b n : ℕ) → b < 256 → IsBytes (repeat b n)
unfolding repeat
repeat-IsBytes b zero h = tt
repeat-IsBytes b (suc n) h = (h, repeat-IsBytes b n h)

length-repeat : (b n : ℕ) → length (repeat b n) ≡ n
unfolding repeat
length-repeat b zero = refl
length-repeat b (suc n) = omega (arith, length-repeat b n)

pad_bytes_bounds : (secret : Bytes) → (0 < pad_bytes secret) × (pad_bytes secret ≤ 16)
unfolding pad_bytes
pad_bytes_bounds secret = (omega arith, omega arith)

padded_blocks :
    (secret : Bytes) → length (secret ++ repeat (pad_bytes secret) (pad_bytes secret)) % 16 ≡ 0
unfolding pad_bytes
padded_blocks secret = omega (
  arith,
  length-append secret (repeat (pad_bytes secret) (pad_bytes secret)),
  length-repeat (pad_bytes secret) (pad_bytes secret),
)

pub padded-IsBytes :
    (secret : Bytes)
    → IsBytes secret
    → IsBytes (secret ++ repeat (pad_bytes secret) (pad_bytes secret))
padded-IsBytes secret h =
    let (low, high) = pad_bytes_bounds secret in
    All-append (λ b. b < 256) secret (repeat (pad_bytes secret) (pad_bytes secret)) h
      (repeat-IsBytes (pad_bytes secret) (pad_bytes secret) (omega arith))

last_byte-repeat : (c b n : ℕ) → last_byte c (repeat b (suc n)) ≡ b
unfolding last_byte repeat
last_byte-repeat c b zero = refl
last_byte-repeat c b (suc n) = last_byte-repeat b b n

last_byte-append : (c : ℕ) (s : Bytes) (b n : ℕ) → last_byte c (s ++ repeat b (suc n)) ≡ b
unfolding last_byte
last_byte-append c [] b n = last_byte-repeat c b n
last_byte-append c (d ∷ s) b n = last_byte-append d s b n

last_byte-same : (b n : ℕ) → last_byte b (repeat b n) ≡ b
unfolding last_byte repeat
last_byte-same b zero = refl
last_byte-same b (suc n) = last_byte-same b n

take-before : (s t : Bytes) (n : ℕ) → length t ≡ n → take (length (s ++ t) - n) (s ++ t) ≡ s
take-before s t n h = ap (λ k. take k (s ++ t)) (omega (arith, length-append s t)) ∙ take-append s t

trim_prefix-append : (p s : Bytes) → trim_prefix p (p ++ s) ≡ s
unfolding trim_prefix
trim_prefix-append p s = rw (cut_prefix-append p s, trim_prefix) refl

length-encode_hex : (s : Bytes) → length (encode_hex s) ≡ 2 * length s
unfolding encode_hex
length-encode_hex [] = refl
length-encode_hex (b ∷ s) = omega (arith, length-encode_hex s)

module _ (aes : Cipher) (kv : KeyValues) where
  remove_padding-cons :
      (c n : ℕ) (s text : Bytes)
      → last_byte c s ≡ suc n
      → suc n ≤ 16
      → take (length (c ∷ s) - suc n) (c ∷ s) ≡ text
      → aes.valid_utf8 text ≡ true
      → remove_padding aes kv (c ∷ s) ≡ plain text
  unfolding remove_padding
  remove_padding-cons c n s text l h t u =
      let fits : ltb 16 (suc n) ≡ false = ground arith in
      let some_bytes : (suc n == 0) ≡ false = ground arith in rw (l, fits, some_bytes, t, u) refl

  remove_padding-append :
      (secret : Bytes) (n : ℕ)
      → suc n ≤ 16
      → aes.valid_utf8 secret ≡ true
      → remove_padding aes kv (secret ++ repeat (suc n) (suc n)) ≡ plain secret
  unfolding repeat
  remove_padding-append [] n h u =
      remove_padding-cons (suc n) n (repeat (suc n) n) [] (last_byte-same (suc n) n) h
        (take-before [] (repeat (suc n) (suc n)) (suc n) (length-repeat (suc n) (suc n))) u
  remove_padding-append (c ∷ s) n h u =
      remove_padding-cons c n (s ++ repeat (suc n) (suc n)) (c ∷ s) (last_byte-append c s (suc n) n)
        h (take-before (c ∷ s) (repeat (suc n) (suc n)) (suc n) (length-repeat (suc n) (suc n))) u

  remove_padding-padded :
      (secret : Bytes) (n : ℕ)
      → 0 < n
      → n ≤ 16
      → aes.valid_utf8 secret ≡ true
      → remove_padding aes kv (secret ++ repeat n n) ≡ plain secret
  remove_padding-padded secret zero h k u = absurd (omega arith)
  remove_padding-padded secret (suc n) h k u = remove_padding-append secret n k u

  decode_text :
      (input text : Bytes)
      → decode_hex (trim_prefix (codes "+encs+") input) ≡ text
      → length text % 16 ≡ 0
      → decode_secret aes kv input ≡ remove_padding aes kv (aes.decrypt kv.key kv.iv text)
  unfolding decode_secret
  decode_text input text e k = rw (e, k) refl

  decode_blocks :
      (text : Bytes)
      → IsBytes text
      → length text % 16 ≡ 0
      → decode_secret aes kv (codes "+encs+" ++ encode_hex text)
        ≡ remove_padding aes kv (aes.decrypt kv.key kv.iv text)
  decode_blocks text h k =
      decode_text (codes "+encs+" ++ encode_hex text) text
        (ap decode_hex (trim_prefix-append (codes "+encs+") (encode_hex text))
          ∙ decode_hex-encode text h)
        k

-- Decoding what was encoded, with the prefix that marks it, gives the secret back under the same key
-- file, for every secret of bytes that is valid UTF-8.
pub decode_secret-encode :
    (aes : Cipher) (laws : CipherLaws aes) (kv : KeyValues) (secret : Bytes)
    → IsBytes secret
    → aes.valid_utf8 secret ≡ true
    → decode_secret aes kv (codes "+encs+" ++ encode_secret aes kv secret) ≡ plain secret
unfolding encode_secret encrypt_padded
decode_secret-encode aes laws kv secret b u =
    let bytes = padded-IsBytes secret b in
    let text = secret ++ repeat (pad_bytes secret) (pad_bytes secret) in
    let (low, high) = pad_bytes_bounds secret in
    let blocks = padded_blocks secret in
    decode_blocks aes kv (aes.encrypt kv.key kv.iv text)
      (laws.bytes_encrypt kv.key kv.iv text bytes)
      (ap (λ n. n % 16) (laws.length_encrypt kv.key kv.iv text bytes blocks) ∙ blocks)
    ∙ (ap (remove_padding aes kv) (laws.decrypt_encrypt kv.key kv.iv text bytes blocks)
        ∙ remove_padding-padded aes kv secret (pad_bytes secret) low high u)

-- An encoded secret has two digits for each byte of a whole number of blocks, at least one more byte
-- than the secret and at most sixteen more.
length-encode_secret :
    (aes : Cipher) (laws : CipherLaws aes) (kv : KeyValues) (secret : Bytes)
    → IsBytes secret
    → (length (encode_secret aes kv secret) % 32 ≡ 0)
      × (2 * length secret < length (encode_secret aes kv secret))
      × (length (encode_secret aes kv secret) ≤ 2 * length secret + 32)
unfolding encode_secret encrypt_padded
length-encode_secret aes laws kv secret b =
    let pad = repeat (pad_bytes secret) (pad_bytes secret) in
    let blocks = padded_blocks secret in
    let digits = length-encode_hex (aes.encrypt kv.key kv.iv (secret ++ pad)) in
    let same = laws.length_encrypt kv.key kv.iv (secret ++ pad) (padded-IsBytes secret b) blocks in
    let added = length-append secret pad in
    let width = length-repeat (pad_bytes secret) (pad_bytes secret) in
    let (low, high) = pad_bytes_bounds secret in (omega arith, omega arith, omega arith)
