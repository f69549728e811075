-- ===== src/Values/Normal.antt =====
-- NormaliseVars (tools/geneos/internal/values/variables.go): the formats in which a configuration can
-- hold variables. A failed type assertion is a panic.
use cordial.Common.{
  ◌≡◌, ◌≢◌, refl, ap, Option, none, some, List, Bytes, codes, eqb, [], ◌∷◌, ◌++◌, map,
  if◌then◌else◌, arith, All, eqb_iff,
}
use cordial.Text.{cut, cut_prefix}
use cordial.Dict.{Dict, get}
use cordial.Values.Variables.{Variable}

-- A map[string]any: what is no string is `none`.
abbrev pub Fields : Type 0
Fields = Dict (Option Bytes)

-- The type of the value, as `reflect` sees it: []any, []Variable, map[string]string, map[string]any,
-- and every other type. What should be a map of fields and is not is `none`.
pub data Held : Type 0 where
  anys : List (Option Fields) → Held
  variables : List Variable → Held
  texts : Dict Bytes → Held
  tables : Dict (Option Fields) → Held
  others : Held

-- item[key].(string); `none` is the panic.
unfoldable pub field : Bytes → Fields → Option Bytes
field key item = elim (get key item) [ none ↦ none | some v ↦ v ]

-- Variable{Type: ..., Name: ..., Value: ...}
unfoldable pub variable_of : Option Fields → Option Variable
unfolding field
variable_of none = none
variable_of (some item) = elim (field (codes "type") item) as (λ _. Option Variable) [
  | none ↦ none
  | some t ↦ elim (field (codes "name") item) as (λ _. Option Variable) [
    | none ↦ none
    | some n ↦ elim (field (codes "value") item) as (λ _. Option Variable) [
      | none ↦ none
      | some v ↦ some (record { type = t; name = n; value = v })
    ]
  ]
]

abbrev pub with_first {ℓ} : {A : Type ℓ} → A → Option (List A) → Option (List A)
with_first a none = none
with_first a (some l) = some (a ∷ l)

-- A variable without a name is left out, and one without a type is a string.
abbrev pub kept_variable : Variable → Option (List Variable) → Option (List Variable)
kept_variable v rest =
    if eqb v.name []
    then rest
    else with_first (if eqb v.type [] then record v { type = codes "string" } else v) rest

unfoldable pub normalise_items : List (Option Fields) → Option (List Variable)
unfolding variable_of
normalise_items [] = some []
normalise_items (item ∷ list) =
    let rest = normalise_items list in
    elim (variable_of item) as (λ _. Option (List Variable)) [
      | none ↦ none
      | some v ↦ kept_variable v rest
    ]

-- The value `TYPE:VALUE` under a name.
unfoldable pub typed_variable : Bytes → Bytes → Variable
typed_variable name value = elim (cut (codes ":") value) [
  | none ↦ record { type = codes "string"; name = name; value = value }
  | some (t, v) ↦ record { type = t; name = name; value = v }
]

unfoldable pub normalise_texts : Dict Bytes → List Variable
unfolding typed_variable
normalise_texts [] = []
normalise_texts ((name, value) ∷ m) = typed_variable name value ∷ normalise_texts m

unfoldable pub normalise_tables : Dict (Option Fields) → Option (List Variable)
unfolding variable_of
normalise_tables [] = some []
normalise_tables ((_, item) ∷ m) =
    let rest = normalise_tables m in
    elim (variable_of item) as (λ _. Option (List Variable)) [
      | none ↦ none
      | some v ↦ with_first v rest
    ]

-- NormaliseVars
unfoldable pub normalise_vars : Held → Option (List Variable)
unfolding normalise_items normalise_texts normalise_tables
normalise_vars (anys list) = normalise_items list
normalise_vars (variables _) = none
normalise_vars (texts m) = some (normalise_texts m)
normalise_vars (tables m) = normalise_tables m
normalise_vars others = some []

-- The fields of a variable as the formats hold them.
abbrev pub fields_of : Variable → Option Fields
fields_of v =
    some (
      (codes "type", some v.type)
      ∷ (codes "name", some v.name)
      ∷ (codes "value", some v.value)
      ∷ [])

abbrev pub entry_of : Variable → Bytes × Option Fields
entry_of v = (v.name, fields_of v)

abbrev pub text_of : Variable → Bytes × Bytes
text_of v = (v.name, v.type ++ (b':' ∷ v.value))

variable_of-fields : (v : Variable) → variable_of (fields_of v) ≡ some v
unfolding variable_of field get eqb
variable_of-fields v = refl

-- A variable that a configuration holds: it has a name and a type, and the type has no colon.
abbrev pub IsTyped : Variable → Type 0
IsTyped v = (v.name ≢ []) × (v.type ≢ []) × All (λ c. c ≢ b':') v.type

pub cut_colon :
    (t v : Bytes) → All (λ c. c ≢ b':') t → cut (codes ":") (t ++ (b':' ∷ v)) ≡ some (t, v)
unfolding cut cut_prefix
cut_colon [] v h = refl
cut_colon (c ∷ t) v (hc, hs) = ground (arith, cut_colon t v hs)

normalise_items-fields :
    (vars : List Variable) → All IsTyped vars → normalise_items (map fields_of vars) ≡ some vars
unfolding normalise_items
normalise_items-fields [] h = refl
normalise_items-fields (v ∷ vars) ((n, t, _), hs) = ground (
  arith,
  variable_of-fields v,
  normalise_items-fields vars hs,
  eqb_iff v.name [],
  eqb_iff v.type [],
)

normalise_texts-texts :
    (vars : List Variable) → All IsTyped vars → normalise_texts (map text_of vars) ≡ vars
unfolding normalise_texts typed_variable
normalise_texts-texts [] h = refl
normalise_texts-texts (v ∷ vars) ((n, t, c), hs) =
    ground (arith, cut_colon v.type v.value c, normalise_texts-texts vars hs)

normalise_tables-entries : (vars : List Variable) → normalise_tables (map entry_of vars) ≡ some vars
unfolding normalise_tables
normalise_tables-entries [] = refl
normalise_tables-entries (v ∷ vars) =
    ground (arith, variable_of-fields v, normalise_tables-entries vars)

-- The three formats agree: variables that have names and types, with no colon in a type, are read back
-- as they are from the list of their fields, from the map of names to `TYPE:VALUE`, and from the map
-- of names to fields.
pub normalise_vars-formats :
    (vars : List Variable)
    → All IsTyped vars
    → (normalise_vars (anys (map fields_of vars)) ≡ some vars)
      × (normalise_vars (texts (map text_of vars)) ≡ some vars)
      × (normalise_vars (tables (map entry_of vars)) ≡ some vars)
unfolding normalise_vars
normalise_vars-formats vars h = (
  normalise_items-fields vars h,
  ap some (normalise_texts-texts vars h),
  normalise_tables-entries vars,
)
