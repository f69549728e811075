-- ===== src/Config/Substitute.antt =====
-- _expand (pkg/config/internal.go): every `${name}` of a text is replaced by the mapping's value.
use mathlib.Core.Path.{ap₂}
use cordial.Common.{
  ℕ, zero, suc, ◌+◌, ◌≡◌, ◌≢◌, refl, ap, ◌∙◌, sym, true, List, Bytes, codes, [], ◌∷◌, ◌++◌, ◌==◌,
  if◌then◌else◌, arith, All, length, length-append, append_assoc,
}
use cordial.Config.Contents.{get_contents, get_contents_complete, closes}

-- What one `$` and the byte behind it append to the buffer, and how many more bytes are consumed.
unfoldable pub replacement : (Bytes → Bytes) → ℕ → ℕ → Bytes × ℕ → Bytes × ℕ
replacement mapping c d ([], w) =
    if w == 1 then (c ∷ d ∷ [], 1) else if w == 0 then (c ∷ [], 0) else ([], w)
replacement mapping c d (n ∷ name, w) = (mapping (n ∷ name), w)

unfoldable pub step : (Bytes → Bytes) → ℕ → ℕ → Bytes → Bytes × ℕ
step mapping c d s = if c == b'$' then replacement mapping c d (get_contents d s) else (c ∷ [], 0)

-- The loop: `skip` bytes belong to what was replaced already.
unfoldable pub substitute_from : (Bytes → Bytes) → Bytes → ℕ → Bytes
substitute_from mapping [] skip = []
substitute_from mapping (c ∷ s) (suc skip) = substitute_from mapping s skip
substitute_from mapping (c ∷ []) zero = c ∷ []
substitute_from mapping (c ∷ d ∷ s) zero =
    let (out, skip) = step mapping c d s in out ++ substitute_from mapping (d ∷ s) skip

-- _expand
unfoldable pub substitute : (Bytes → Bytes) → Bytes → Bytes
unfolding substitute_from step replacement get_contents
substitute mapping s = substitute_from mapping s 0

-- A piece of a text to expand.
pub data Segment : Type 0 where
  literal : Bytes → Segment
  variable : Bytes → Segment

-- The text of the pieces, and what it should become.
abbrev pub render : List Segment → Bytes
render [] = []
render (literal t ∷ segments) = t ++ render segments
render (variable n ∷ segments) = codes "${" ++ (n ++ (b'}' ∷ render segments))

abbrev pub expansion : (Bytes → Bytes) → List Segment → Bytes
expansion mapping [] = []
expansion mapping (literal t ∷ segments) = t ++ expansion mapping segments
expansion mapping (variable n ∷ segments) = mapping n ++ expansion mapping segments

-- Literal text has no dollar sign; a name is not empty and closes the braces that it opens.
abbrev pub IsTemplate : List Segment → Type 0
IsTemplate [] = Unit
IsTemplate (literal t ∷ segments) = All (λ c. c ≢ b'$') t × IsTemplate segments
IsTemplate (variable n ∷ segments) = (n ≢ []) × (closes n 0 ≡ true) × IsTemplate segments

module _ (mapping : Bytes → Bytes) where
  substitute-skip :
      (s rest : Bytes)
      → substitute_from mapping (s ++ rest) (length s) ≡ substitute_from mapping rest 0
  unfolding substitute_from
  substitute-skip [] rest = refl
  substitute-skip (c ∷ s) rest = substitute-skip s rest

  substitute-literal :
      (t rest : Bytes)
      → All (λ c. c ≢ b'$') t
      → substitute_from mapping (t ++ rest) 0 ≡ t ++ substitute_from mapping rest 0
  unfolding substitute_from step
  substitute-literal [] rest h = refl
  substitute-literal (c ∷ []) [] h = refl
  substitute-literal (c ∷ []) (d ∷ rest) (hc, _) = ground arith
  substitute-literal (c ∷ d ∷ t) rest (hc, ht) = ground (arith, substitute-literal (d ∷ t) rest ht)

  replacement-name :
      (n : Bytes) → n ≢ [] → (w : ℕ) → replacement mapping b'$' b'{' (n, w) ≡ (mapping n, w)
  unfolding replacement
  replacement-name [] h w = absurd (h refl)
  replacement-name (c ∷ n) h w = refl

  step-variable :
      (n rest : Bytes)
      → n ≢ []
      → closes n 0 ≡ true
      → step mapping b'$' b'{' (n ++ (b'}' ∷ rest)) ≡ (mapping n, length n + 2)
  unfolding step
  step-variable n rest h k =
      ap (replacement mapping b'$' b'{') (get_contents_complete n rest h k)
      ∙ replacement-name n h (length n + 2)

  past :
      (n rest : Bytes)
      → substitute_from mapping (b'{' ∷ (n ++ (b'}' ∷ rest))) (length n + 2)
        ≡ substitute_from mapping rest 0
  past n rest =
      let braced : Bytes = b'{' ∷ (n ++ b'}' ∷ []) in
      let len : length n + 2 ≡ length braced = omega (arith, length-append n (b'}' ∷ [])) in
      ap₂ (substitute_from mapping) (ap (λ s. b'{' ∷ s) (sym (append_assoc n (b'}' ∷ []) rest))) len
      ∙ substitute-skip braced rest

  substitute-variable :
      (n rest : Bytes)
      → n ≢ []
      → closes n 0 ≡ true
      → substitute_from mapping (codes "${" ++ (n ++ (b'}' ∷ rest))) 0
        ≡ mapping n ++ substitute_from mapping rest 0
  unfolding substitute_from
  substitute-variable n rest h k =
      ap (λ (r : Bytes × ℕ). r.0 ++ substitute_from mapping (b'{' ∷ (n ++ (b'}' ∷ rest))) r.1)
        (step-variable n rest h k)
      ∙ ap (λ s. mapping n ++ s) (past n rest)

-- Expanding a text of literal pieces and variables keeps the literals and puts the mapping's value
-- in the place of each variable, in order, if the literals have no dollar sign and each variable's
-- name is not empty and closes the braces that it opens.
pub substitute-render :
    (mapping : Bytes → Bytes) (segments : List Segment)
    → IsTemplate segments
    → substitute mapping (render segments) ≡ expansion mapping segments
unfolding substitute
substitute-render mapping [] h = unfold substitute_from in refl
substitute-render mapping (literal t ∷ segments) (ht, hs) =
    substitute-literal mapping t (render segments) ht
    ∙ ap (λ s. t ++ s) (substitute-render mapping segments hs)
substitute-render mapping (variable n ∷ segments) (hn, hc, hs) =
    substitute-variable mapping n (render segments) hn hc
    ∙ ap (λ s. mapping n ++ s) (substitute-render mapping segments hs)
