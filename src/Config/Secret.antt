-- ===== src/Config/Secret.antt =====
-- KeyValues: the padding, encoding and decoding of a secret (pkg/config/crypto.go). AES in CBC mode
-- and the test of UTF-8 are parameters; a key of 32 bytes, as KeyValues has, is never refused.
use Prim.Native.Nat.{◌%◌}
use cordial.Common.{
  ℕ, zero, suc, ◌-◌, Bool, not, ◌||◌, Bytes, codes, [], ◌∷◌, ◌++◌, ◌==◌, ltb, if◌then◌else◌, length,
  take,
}
use cordial.Text.{trim_prefix}
use cordial.Config.Hex.{encode_hex, decode_hex}

pub record KeyValues : Type 0 where
  pub key : Bytes
  pub iv : Bytes

-- CryptBlocks of the two modes for a key and an initial vector, and utf8.Valid.
pub record Cipher : Type 0 where
  pub encrypt : Bytes → Bytes → Bytes → Bytes
  pub decrypt : Bytes → Bytes → Bytes → Bytes
  pub valid_utf8 : Bytes → Bool

pub data DecodeError : Type 0 where
  not_blocks decode_failed invalid_padding not_utf8 : DecodeError

pub data Decoded : Type 0 where
  plain : Bytes → Decoded
  refused : DecodeError → Decoded

-- bytes.Repeat of one byte.
unfoldable pub repeat : ℕ → ℕ → Bytes
repeat b zero = []
repeat b (suc n) = b ∷ repeat b n

-- aes.BlockSize - len(secret)%aes.BlockSize, which is never zero.
unfoldable pub pad_bytes : Bytes → ℕ
pad_bytes secret = 16 - length secret % 16

-- text[len(text)-1] of a text that is not empty.
unfoldable pub last_byte : ℕ → Bytes → ℕ
last_byte c [] = c
last_byte c (d ∷ s) = last_byte d s

module _ (aes : Cipher) (kv : KeyValues) where
  -- encode
  unfoldable pub encrypt_padded : Bytes → Bytes
  encrypt_padded secret =
      aes.encrypt kv.key kv.iv (secret ++ repeat (pad_bytes secret) (pad_bytes secret))

  -- Encode, and EncodeString
  unfoldable pub encode_secret : Bytes → Bytes
  unfolding encrypt_padded
  encode_secret secret = encode_hex (encrypt_padded secret)

  -- The end of Decode, on the text that is decrypted.
  unfoldable pub remove_padding : Bytes → Decoded
  remove_padding [] = refused decode_failed
  remove_padding (c ∷ s) =
      let padding_length = last_byte c s in
      if padding_length == 0 || ltb 16 padding_length
      then refused invalid_padding
      else (let text = take (length (c ∷ s) - padding_length) (c ∷ s) in
          if not (aes.valid_utf8 text) then refused not_utf8 else plain text)

  -- Decode, and DecodeString
  unfoldable pub decode_secret : Bytes → Decoded
  unfolding remove_padding
  decode_secret input =
      let text = decode_hex (trim_prefix (codes "+encs+") input) in
      if not (length text % 16 == 0)
      then refused not_blocks
      else remove_padding (aes.decrypt kv.key kv.iv text)
