-- ===== src/Config/Hex.antt =====
-- The hexadecimal text of Encode and Decode (pkg/config/crypto.go): encoding/hex with bytes.ToUpper,
-- and hex.Decode into a buffer of zeros, whose error the code does not read.
use Prim.Native.Nat.{◌*◌, ◌/◌, ◌%◌}
use cordial.Common.{
  ℕ, ◌+◌, ◌-◌, ◌<◌, ◌≡◌, refl, ap, ◌&&◌, Option, none, some, Bytes, [], ◌∷◌, leb, ltb,
  if◌then◌else◌, All, arith,
}

-- One digit in upper case.
abbrev pub hex_digit : ℕ → ℕ
hex_digit d = if ltb d 10 then d + b'0' else d - 10 + b'A'

-- hex.Encode and bytes.ToUpper
unfoldable pub encode_hex : Bytes → Bytes
encode_hex [] = []
encode_hex (b ∷ s) = hex_digit (b / 16) ∷ hex_digit (b % 16) ∷ encode_hex s

-- The value of a digit in either case.
abbrev pub hex_value : ℕ → Option ℕ
hex_value c =
    if leb b'0' c && leb c b'9'
    then some (c - b'0')
    else if leb b'A' c && leb c b'F'
    then some (c - b'A' + 10)
    else if leb b'a' c && leb c b'f'
    then some (c - b'a' + 10)
    else none

abbrev pub byte_of : Option ℕ → Option ℕ → Option ℕ
byte_of (some a) (some b) = some (a * 16 + b)
byte_of _ _ = none

-- The buffer behind a digit that is not one, and behind the last pair.
unfoldable pub zeros : Bytes → Bytes
zeros [] = []
zeros (c ∷ []) = []
zeros (c ∷ d ∷ s) = 0 ∷ zeros s

-- hex.Decode(text, in) for a new buffer.
unfoldable pub decode_hex : Bytes → Bytes
unfolding zeros
decode_hex [] = []
decode_hex (c ∷ []) = []
decode_hex (c ∷ d ∷ s) =
    let rest = decode_hex s in
    elim (byte_of (hex_value c) (hex_value d)) as (λ _. Bytes) [
      | some b ↦ b ∷ rest
      | none ↦ 0 ∷ zeros s
    ]

hex_value-digit : (d : ℕ) → d < 16 → hex_value (hex_digit d) ≡ some d
hex_value-digit d h = ground arith

abbrev pub IsBytes : Bytes → Type 0
IsBytes s = All (λ b. b < 256) s

pub byte_of-digits :
    (b : ℕ)
    → b < 256
    → byte_of (hex_value (hex_digit (b / 16))) (hex_value (hex_digit (b % 16))) ≡ some b
byte_of-digits b h =
    rw (hex_value-digit (b / 16) (omega arith), hex_value-digit (b % 16) (omega arith))
      (ap some (omega arith))

pub decode_hex-encode : (s : Bytes) → IsBytes s → decode_hex (encode_hex s) ≡ s
unfolding decode_hex encode_hex
decode_hex-encode [] h = refl
decode_hex-encode (b ∷ s) (hb, hs) =
    rw (byte_of-digits b hb, decode_hex) (ap (λ r. b ∷ r) (decode_hex-encode s hs))
