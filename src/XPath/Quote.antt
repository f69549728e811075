-- ===== src/XPath/Quote.antt =====
-- fmt's %q, as XPath.String uses it (pkg/geneos/xpath/xpath.go), on ASCII text. Bytes above 126 but
-- DEL belong to printable characters of UTF-8 and are copied.
use Prim.Native.Nat.{◌/◌, ◌%◌}
use cordial.Common.{ℕ, ◌+◌, Bytes, [], ◌∷◌, ◌++◌, ◌==◌, ltb, ◌||◌, if◌then◌else◌}

abbrev pub quote_mark : ℕ
quote_mark = b'"'

abbrev pub backslash : ℕ
backslash = b'\\'

hex_digit : ℕ → ℕ
hex_digit n = if ltb n 10 then b'0' + n else 87 + n

-- One byte of a quoted text.
unfoldable pub quote_byte : ℕ → Bytes
unfolding hex_digit
quote_byte c =
    if c == quote_mark
    then backslash ∷ c ∷ []
    else if c == backslash
    then backslash ∷ c ∷ []
    else if c == 7
    then backslash ∷ b'a' ∷ []
    else if c == 8
    then backslash ∷ b'b' ∷ []
    else if c == 9
    then backslash ∷ b't' ∷ []
    else if c == 10
    then backslash ∷ b'n' ∷ []
    else if c == 11
    then backslash ∷ b'v' ∷ []
    else if c == 12
    then backslash ∷ b'f' ∷ []
    else if c == 13
    then backslash ∷ b'r' ∷ []
    else if ltb c 32 || c == 127
    then backslash ∷ b'x' ∷ hex_digit (c / 16) ∷ hex_digit (c % 16) ∷ []
    else c ∷ []

unfoldable pub quote_body : Bytes → Bytes
unfolding quote_byte
quote_body [] = []
quote_body (c ∷ s) = quote_byte c ++ quote_body s

-- fmt.Sprintf("%q", s)
unfoldable pub quote : Bytes → Bytes
unfolding quote_body
quote s = quote_mark ∷ (quote_body s ++ quote_mark ∷ [])
