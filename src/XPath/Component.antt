-- ===== src/XPath/Component.antt =====
-- The parts of a printed path: what stands between its slashes once splitWithEscaping has removed
-- the escapes of %q, and what getAttr and getAttributes read in them (pkg/geneos/xpath/xpath.go).
use cordial.Common.{
  ℕ, ◌≤◌, ◌≡◌, ◌≢◌, refl, List, Bytes, [], ◌∷◌, ◌++◌, ◌==◌, if◌then◌else◌, arith, All, append_assoc,
  append-nil,
}
use cordial.XPath.Quote.{quote_byte, quote_body}
use cordial.XPath.Scan.{split_with_escaping}

-- A printable character other than a quotation mark, a slash and an opening bracket.
abbrev pub Plain : ℕ → Type 0
Plain c = (32 ≤ c) × (c ≤ 126) × (c ≢ b'"') × (c ≢ b'/') × (c ≢ b'[')

abbrev pub NoSlash : ℕ → Type 0
NoSlash c = c ≢ b'/'

abbrev pub NotOpen : ℕ → Type 0
NotOpen c = c ≢ b'['

-- %q of plain text doubles each backslash.
escape : ℕ → Bytes
escape c = if c == b'\\' then b'\\' ∷ c ∷ [] else c ∷ []

unfoldable pub escape_text : Bytes → Bytes
unfolding escape
escape_text [] = []
escape_text (c ∷ s) = escape c ++ escape_text s

pub escape_text-append : (s t : Bytes) → escape_text (s ++ t) ≡ escape_text s ++ escape_text t
unfolding escape_text
escape_text-append [] t = refl
escape_text-append (c ∷ s) t = ground (arith, escape_text-append s t)

quote_byte-escape : (c : ℕ) → Plain c → quote_byte c ≡ escape c
unfolding quote_byte escape
quote_byte-escape c h = ground arith

pub quote_body-escape : (n : Bytes) → All Plain n → quote_body n ≡ escape_text n
unfolding quote_body escape_text
quote_body-escape [] h = refl
quote_body-escape (c ∷ n) (hc, hn) = cc (quote_byte-escape c hc, quote_body-escape n hn)

split_plain :
    (c : ℕ) (s token : Bytes)
    → c ≢ b'/'
    → c ≢ b'\\'
    → split_with_escaping b'/' b'\\' (c ∷ s) token
      ≡ split_with_escaping b'/' b'\\' s (token ++ c ∷ [])
unfolding split_with_escaping
split_plain c [] token h k = ground arith
split_plain c (d ∷ s) token h k = ground arith

split_escaped :
    (d : ℕ) (s token : Bytes)
    → split_with_escaping b'/' b'\\' (b'\\' ∷ d ∷ s) token
      ≡ split_with_escaping b'/' b'\\' s (token ++ d ∷ [])
unfolding split_with_escaping
split_escaped d s token = refl

pub split_slash :
    (s token : Bytes)
    → split_with_escaping b'/' b'\\' (b'/' ∷ s) token ≡ token ∷ split_with_escaping b'/' b'\\' s []
unfolding split_with_escaping
split_slash [] token = refl
split_slash (d ∷ s) token = refl

split-escape_text :
    (raw rest token : Bytes)
    → All NoSlash raw
    → split_with_escaping b'/' b'\\' (escape_text raw ++ rest) token
      ≡ split_with_escaping b'/' b'\\' rest (token ++ raw)
unfolding escape_text
split-escape_text [] rest token h = ground (arith, append-nil token)
split-escape_text (c ∷ raw) rest token h = ground (
  arith,
  split-escape_text raw rest (token ++ c ∷ []),
  split_plain c (escape_text raw ++ rest) token,
  split_escaped c (escape_text raw ++ rest) token,
  append_assoc token (c ∷ []) raw,
)

-- The parts joined, each behind a slash.
unfoldable pub joined : List Bytes → Bytes
joined [] = []
joined (p ∷ ps) = b'/' ∷ (escape_text p ++ joined ps)

-- splitWithEscaping gives back the parts of a printed path, behind an empty one.
pub split-joined :
    (ps : List Bytes) (token : Bytes)
    → All (All NoSlash) ps
    → split_with_escaping b'/' b'\\' (joined ps) token ≡ token ∷ ps
unfolding joined
split-joined [] token h = unfold split_with_escaping in refl
split-joined (p ∷ ps) token (hp, hps) =
    rw (split_slash, split-escape_text p (joined ps) [] hp, split-joined ps p hps)
