-- ===== src/Text.antt =====
-- Go's `strings` functions that the program calls, over byte strings.
pub mod Trim
pub mod Cut
pub mod Number
use cordial.Common.{
  zero, suc, ◌-◌, length, ℕ, ◌≡◌, refl, Bool, true, false, ◌||◌, ◌&&◌, Option, none, some, List, [],
  ◌∷◌, ◌++◌, arith, Bytes, ◌==◌, leb, if◌then◌else◌, is_some, eqb,
}

-- strings.CutPrefix: what follows the prefix.
unfoldable pub cut_prefix : Bytes → Bytes → Option Bytes
cut_prefix [] s = some s
cut_prefix (p ∷ ps) [] = none
cut_prefix (p ∷ ps) (c ∷ s) = if p == c then cut_prefix ps s else none

-- strings.HasPrefix(s, p)
unfoldable pub has_prefix : Bytes → Bytes → Bool
unfolding cut_prefix
has_prefix p s = is_some (cut_prefix p s)

-- strings.HasSuffix(s, p)
unfoldable pub has_suffix : Bytes → Bytes → Bool
unfolding eqb
has_suffix p [] = eqb p []
has_suffix p (c ∷ s) = eqb p (c ∷ s) || has_suffix p s

-- strings.TrimPrefix(s, p)
unfoldable pub trim_prefix : Bytes → Bytes → Bytes
unfolding cut_prefix
trim_prefix p s = elim (cut_prefix p s) [ some r ↦ r | none ↦ s ]

-- strings.Cut(s, p): the text before the first `p`, and the text after it.
unfoldable pub cut : Bytes → Bytes → Option (Bytes × Bytes)
unfolding cut_prefix
cut p [] = elim (cut_prefix p []) [ some r ↦ some ([], r) | none ↦ none ]
cut p (c ∷ s) = elim (cut_prefix p (c ∷ s)) [
  | some r ↦ some ([], r)
  | none ↦ elim (cut p s) [ some (a, r) ↦ some (c ∷ a, r) | none ↦ none ]
]

-- strings.Contains(s, p)
unfoldable pub contains : Bytes → Bytes → Bool
unfolding cut
contains p s = is_some (cut p s)

-- unicode.IsLetter, on ASCII.
unfoldable pub is_letter : ℕ → Bool
is_letter c = (leb b'A' c && leb c b'Z') || (leb b'a' c && leb c b'z')

pub cut_prefix-append : (p s : Bytes) → cut_prefix p (p ++ s) ≡ some s
unfolding cut_prefix
cut_prefix-append [] s = refl
cut_prefix-append (c ∷ p) s = ground (arith, cut_prefix-append p s)

-- A prefix that is found is there.
pub cut_prefix_sound : (p s r : Bytes) → cut_prefix p s ≡ some r → s ≡ p ++ r
unfolding cut_prefix
cut_prefix_sound [] s r h = ground arith
cut_prefix_sound (c ∷ p) [] r h = cc
cut_prefix_sound (c ∷ p) (d ∷ s) r h = ground (arith, cut_prefix_sound p s r)

-- The first run of bytes that pass the test; `strings.FieldsFunc` returns it as the first field.
unfoldable pub leading : (ℕ → Bool) → Bytes → Bytes
leading t [] = []
leading t (c ∷ s) = if t c then c ∷ leading t s else []

unfoldable pub first_field : (ℕ → Bool) → Bytes → Bytes
unfolding leading
first_field t [] = []
first_field t (c ∷ s) = let later = first_field t s in if t c then leading t (c ∷ s) else later

-- strings.Split(s, sep) for a separator of one byte: never empty.
unfoldable pub split_from : ℕ → Bytes → Bytes → List Bytes
split_from sep [] cur = cur ∷ []
split_from sep (c ∷ s) cur = elim (c == sep) [
  | true ↦ cur ∷ split_from sep s []
  | false ↦ split_from sep s (cur ++ c ∷ [])
]

unfoldable pub split : ℕ → Bytes → List Bytes
unfolding split_from
split sep s = split_from sep s []

-- unicode.IsSpace, on ASCII.
unfoldable pub is_space : ℕ → Bool
is_space c = (leb 9 c && leb c 13) || c == 32

unfoldable pub trim_start : Bytes → Bytes
unfolding is_space
trim_start [] = []
trim_start (c ∷ s) = let later = trim_start s in if is_space c then later else c ∷ s

abbrev cons_unless_space : ℕ → Bytes → Bytes
cons_unless_space c [] = if is_space c then [] else c ∷ []
cons_unless_space c (d ∷ r) = c ∷ d ∷ r

unfoldable pub trim_end : Bytes → Bytes
unfolding is_space
trim_end [] = []
trim_end (c ∷ s) = cons_unless_space c (trim_end s)

-- strings.TrimSpace
unfoldable pub trim_space : Bytes → Bytes
unfolding trim_start trim_end
trim_space s = trim_end (trim_start s)

-- strings.Join
unfoldable pub join : Bytes → List Bytes → Bytes
join sep [] = []
join sep (p ∷ []) = p
join sep (p ∷ q ∷ ps) = p ++ (sep ++ join sep (q ∷ ps))

-- strings.LastIndex with the two slices around it, for a separator of one byte.
unfoldable pub cut_last : ℕ → Bytes → Option (Bytes × Bytes)
cut_last sep [] = none
cut_last sep (c ∷ s) = elim (cut_last sep s) as (λ _. Option (Bytes × Bytes)) [
  | some (a, b) ↦ some (c ∷ a, b)
  | none ↦ if c == sep then some ([], s) else none
]

-- strings.Index
unfoldable pub index : Bytes → Bytes → Option ℕ
index p [] = if has_prefix p [] then some 0 else none
index p (c ∷ s) =
    let later = index p s in
    if has_prefix p (c ∷ s)
    then some 0
    else elim later as (λ _. Option ℕ) [ some n ↦ some (suc n) | none ↦ none ]

-- strings.ReplaceAll for a text that is not empty; `skip` bytes belong to the last match.
unfoldable pub replace_from : Bytes → Bytes → Bytes → ℕ → Bytes
replace_from old new [] skip = []
replace_from old new (c ∷ s) (suc skip) = replace_from old new s skip
replace_from old new (c ∷ s) zero =
    let hit = has_prefix old (c ∷ s) in
    (if hit then new else c ∷ []) ++ replace_from old new s (if hit then length old - 1 else 0)

-- The empty text is found in front of every character and at the end.
unfoldable pub insert_between : Bytes → Bytes → Bytes
insert_between new [] = new
insert_between new (c ∷ s) = new ++ (c ∷ insert_between new s)

-- strings.ReplaceAll
unfoldable pub replace_all : Bytes → Bytes → Bytes → Bytes
unfolding replace_from insert_between has_prefix
replace_all [] new s = insert_between new s
replace_all (o ∷ old) new s = replace_from (o ∷ old) new s zero
