-- ===== src/Text/Number.antt =====
-- strconv.ParseInt, which pkg/ims and tools/geneos/internal/instance call.
use Prim.Native.Nat.{◌*◌, ◌^◌}
use cordial.Common.{
  ℕ, ◌+◌, ◌-◌, ◌&&◌, Option, none, some, Bytes, [], ◌∷◌, if◌then◌else◌, ltb, leb, ◌==◌,
}

-- The digits of a decimal number.
unfoldable pub decimal : Bytes → ℕ → Option ℕ
decimal [] n = some n
decimal (c ∷ s) n = if leb b'0' c && leb c b'9' then decimal s (n * 10 + (c - b'0')) else none

unfoldable pub magnitude : Bytes → Option ℕ
unfolding decimal
magnitude [] = none
magnitude (c ∷ s) = decimal (c ∷ s) 0

-- An int of 64 bits: not negative, or the negative of a number.
pub data Int64 : Type 0 where
  plus minus : ℕ → Int64

abbrev below : ℕ → (ℕ → Int64) → Option ℕ → Option Int64
below bound sign none = none
below bound sign (some n) = if ltb n bound then some (sign n) else none

-- strconv.ParseInt(s, 10, 0) and strconv.Atoi, where an int has 64 bits.
unfoldable pub parse_int : Bytes → Option Int64
unfolding magnitude
parse_int [] = none
parse_int (c ∷ s) =
    if c == b'+'
    then below (2 ^ 63) plus (magnitude s)
    else if c == b'-'
    then below (2 ^ 63 + 1) minus (magnitude s)
    else below (2 ^ 63) plus (magnitude (c ∷ s))
