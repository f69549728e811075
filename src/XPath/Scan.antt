-- ===== src/XPath/Scan.antt =====
-- The helpers of Parse (pkg/geneos/xpath/xpath.go): splitWithEscaping, getAttr, getAttributes. The two regular expressions hold `\\{0}?`, which
-- matches no backslash at all, so a value ends at the first `")]`. Letters are those of ASCII.
use cordial.Common.{
  ℕ, zero, suc, ◌-◌, true, false, Option, none, some, List, Bytes, codes, [], ◌∷◌, ◌++◌, ◌==◌,
  if◌then◌else◌, length,
}
use cordial.Text.{cut_prefix}
use cordial.Dict.{Dict, put}

-- splitWithEscaping; the last argument is `token`.
unfoldable pub split_with_escaping : ℕ → ℕ → Bytes → Bytes → List Bytes
split_with_escaping separator escape [] token = token ∷ []
split_with_escaping separator escape (c ∷ []) token =
    if c == separator then token ∷ [] ∷ [] else (token ++ c ∷ []) ∷ []
split_with_escaping separator escape (c ∷ d ∷ s) token = elim (c == separator) [
  | true ↦ token ∷ split_with_escaping separator escape (d ∷ s) []
  | false ↦ elim (c == escape) [
    | true ↦ split_with_escaping separator escape s (token ++ d ∷ [])
    | false ↦ split_with_escaping separator escape (d ∷ s) (token ++ c ∷ [])
  ]
]

-- `(.*?)` up to the first `stop`: what it matches, and what follows `stop`. A dot is no newline.
unfoldable pub take_until : Bytes → Bytes → Option (Bytes × Bytes)
unfolding cut_prefix
take_until stop [] = elim (cut_prefix stop []) [ some r ↦ some ([], r) | none ↦ none ]
take_until stop (c ∷ s) =
    let onward = elim (take_until stop s) as (λ _. Option (Bytes × Bytes)) [
      | some (v, r) ↦ some (c ∷ v, r)
      | none ↦ none
    ] in
    elim (cut_prefix stop (c ∷ s)) [
      | some r ↦ some ([], r)
      | none ↦ if c == 10 then none else onward
    ]

-- `OPEN(.*?)STOP` at the start of the text.
unfoldable pub enclosed : Bytes → Bytes → Bytes → Option (Bytes × Bytes)
unfolding cut_prefix take_until
enclosed start stop s = elim (cut_prefix start s) [ some r ↦ take_until stop r | none ↦ none ]

-- The leftmost match of `OPEN(.*?)STOP`, as getAttr takes it.
unfoldable pub find_enclosed : Bytes → Bytes → Bytes → Option Bytes
find_enclosed start stop [] = none
find_enclosed start stop (c ∷ s) =
    let later = find_enclosed start stop s in
    elim (enclosed start stop (c ∷ s)) [ some (v, _) ↦ some v | none ↦ later ]

-- getAttr
unfoldable pub get_attr : Bytes → Bytes → Option Bytes
get_attr s attr = find_enclosed (codes "[(@" ++ (attr ++ codes "=\"")) (codes "\")]") s

-- The value that a failed call returns beside `false` is the empty string.
abbrev pub or_empty : Option Bytes → Bytes
or_empty (some v) = v
or_empty none = []

-- v, _ := getAttr(s, attr)
unfoldable pub attr_or_empty : Bytes → Bytes → Bytes
attr_or_empty s attr = or_empty (get_attr s attr)

abbrev pub with_value : Bytes → Option (Bytes × Bytes) → Option (Bytes × Bytes × Bytes)
with_value k none = none
with_value k (some (v, t)) = some (k, v, t)

unfoldable pub after_key : Option (Bytes × Bytes) → Option (Bytes × Bytes × Bytes)
after_key none = none
after_key (some (k, r)) = with_value k (take_until (codes "\")]") r)

-- One match of attributeRE at the start of the text: the key, the value and what follows.
unfoldable pub attribute : Bytes → Option (Bytes × Bytes × Bytes)
attribute s = after_key (enclosed (codes "[(attr(\"") (codes "\")=\"") s)

-- FindAllStringSubmatch and the loop of getAttributes: `skip` bytes belong to the last match.
unfoldable pub attributes_from : Bytes → ℕ → Dict Bytes → Dict Bytes
attributes_from [] skip attrs = attrs
attributes_from (c ∷ s) (suc skip) attrs = attributes_from s skip attrs
attributes_from (c ∷ s) zero attrs = elim (attribute (c ∷ s)) [
  | none ↦ attributes_from s zero attrs
  | some (k, v, t) ↦ attributes_from s (length s - length t) (put k v attrs)
]

-- getAttributes
unfoldable pub get_attributes : Bytes → Dict Bytes
get_attributes s = attributes_from s zero []
