-- ===== src/Config/Contents.antt =====
-- getContents (pkg/config/internal.go): the name between `${` and its closing brace.
use cordial.Common.{
  ℕ, zero, suc, ◌+◌, ◌≡◌, ◌≢◌, refl, Bool, true, false, not, ◌&&◌, Bytes, [], ◌∷◌, ◌++◌, ◌==◌,
  if◌then◌else◌, arith, length, append_assoc, append-nil,
}

-- At the closing brace: `${}` is bad syntax.
abbrev pub finish : Bytes → Bytes × ℕ
finish [] = ([], 2)
finish (c ∷ name) = (c ∷ name, length (c ∷ name) + 2)

-- The loop from the byte behind the opening brace: `name` holds s[1:i].
unfoldable pub scan : Bytes → ℕ → Bytes → Bytes × ℕ
scan [] depth name = ([], 1)
scan (c ∷ []) depth name =
    if c == b'}'
    then (elim depth as (λ _. Bytes × ℕ) [ suc d ↦ ([], 1) | zero ↦ finish name ])
    else ([], 1)
scan (c ∷ d ∷ s) depth name =
    let escaped = scan s depth (name ++ c ∷ d ∷ []) in
    let opened = scan (d ∷ s) (suc depth) (name ++ c ∷ []) in
    let closed = elim depth as (λ _. Bytes × ℕ) [
      | suc k ↦ scan (d ∷ s) k (name ++ c ∷ [])
      | zero ↦ finish name
    ] in
    let plain = scan (d ∷ s) depth (name ++ c ∷ []) in
    if c == b'\\'
    then escaped
    else if c == b'{'
    then opened
    else if c == b'}'
    then closed
    else plain

-- getContents of a text that is not empty, with its first byte apart.
unfoldable pub get_contents : ℕ → Bytes → Bytes × ℕ
get_contents c s = if c == b'{' then scan s zero [] else ([], 0)

-- Read from a depth of open braces, the text ends at depth zero, and never closes a brace that it
-- did not open. A backslash hides the byte behind it, and is not the last byte.
abbrev pub closes : Bytes → ℕ → Bool
closes [] depth = depth == 0
closes (c ∷ []) depth =
    not (c == b'\\') && not (c == b'{') && (if c == b'}' then depth == 1 else depth == 0)
closes (c ∷ d ∷ s) depth =
    let escaped = closes s depth in
    let opened = closes (d ∷ s) (suc depth) in
    let closed = elim depth as (λ _. Bool) [ zero ↦ false | suc k ↦ closes (d ∷ s) k ] in
    let plain = closes (d ∷ s) depth in
    if c == b'\\'
    then escaped
    else if c == b'{'
    then opened
    else if c == b'}'
    then closed
    else plain

scan_at_brace : (rest name : Bytes) → scan (b'}' ∷ rest) 0 name ≡ finish name
unfolding scan
scan_at_brace [] name = refl
scan_at_brace (c ∷ rest) name = refl

scan_plain :
    (c : ℕ) (s : Bytes) (depth : ℕ) (name : Bytes)
    → s ≢ []
    → c ≢ b'\\'
    → c ≢ b'{'
    → c ≢ b'}'
    → scan (c ∷ s) depth name ≡ scan s depth (name ++ c ∷ [])
unfolding scan
scan_plain c [] depth name n h k l = absurd (n refl)
scan_plain c (d ∷ s) depth name n h k l = ground arith

scan_inner_brace :
    (d : ℕ) (s : Bytes) (k : ℕ) (name : Bytes)
    → scan (b'}' ∷ d ∷ s) (suc k) name ≡ scan (d ∷ s) k (name ++ b'}' ∷ [])
unfolding scan
scan_inner_brace d s k name = refl

scan-closes :
    (inner rest : Bytes) (depth : ℕ) (name : Bytes)
    → closes inner depth ≡ true
    → scan (inner ++ (b'}' ∷ rest)) depth name ≡ finish (name ++ inner)
unfolding scan
scan-closes [] rest zero name h = rw append-nil (scan_at_brace rest name)
scan-closes [] rest (suc d) name h = absurd (ground arith)
scan-closes (c ∷ []) rest zero name h =
    ground (arith, scan_plain c (b'}' ∷ rest) 0 name, scan_at_brace rest (name ++ c ∷ []))
scan-closes (c ∷ []) rest (suc d) name h =
    ground (arith, scan_inner_brace b'}' rest d name, scan_at_brace rest (name ++ c ∷ []))
scan-closes (c ∷ d ∷ s) rest zero name h = ground (
  arith,
  scan-closes s rest zero (name ++ c ∷ d ∷ []),
  scan-closes (d ∷ s) rest 1 (name ++ c ∷ []),
  scan-closes (d ∷ s) rest zero (name ++ c ∷ []),
  append_assoc name (c ∷ []) (d ∷ s),
  append_assoc name (c ∷ d ∷ []) s,
)
scan-closes (c ∷ d ∷ s) rest (suc k) name h = ground (
  arith,
  scan-closes s rest (suc k) (name ++ c ∷ d ∷ []),
  scan-closes (d ∷ s) rest (suc (suc k)) (name ++ c ∷ []),
  scan-closes (d ∷ s) rest k (name ++ c ∷ []),
  scan-closes (d ∷ s) rest (suc k) (name ++ c ∷ []),
  append_assoc name (c ∷ []) (d ∷ s),
  append_assoc name (c ∷ d ∷ []) s,
)

-- A name that is not empty and closes what it opens is returned whole, whatever follows its brace,
-- with the number of bytes from the opening brace to the closing one.
pub get_contents_complete :
    (name rest : Bytes)
    → name ≢ []
    → closes name 0 ≡ true
    → get_contents b'{' (name ++ (b'}' ∷ rest)) ≡ (name, length name + 2)
unfolding get_contents
get_contents_complete [] rest n h = absurd (n refl)
get_contents_complete (c ∷ name) rest n h = scan-closes (c ∷ name) rest 0 [] h
