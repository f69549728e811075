-- ===== src/Values/Variables.antt =====
-- Variable, Variables.Set, getVarValue, updateVars and unsetVariables, between the read and the write
-- of the configuration (tools/geneos/internal/values/variables.go, set.go and unset.go).
use cordial.Common.{
  ◌≡◌, refl, Option, none, some, List, Bytes, codes, eqb, eqb_iff, [], ◌∷◌, if◌then◌else◌, any,
  arith,
}
use cordial.Text.{cut, has_prefix}

pub record Variable : Type 0 where
  pub type : Bytes
  pub name : Bytes
  pub value : Bytes

abbrev pub no_variable : Variable
no_variable = record { type = []; name = []; value = [] }

abbrev pub valid_types : List Bytes
valid_types =
    codes "string"
    ∷ codes "integer"
    ∷ codes "double"
    ∷ codes "boolean"
    ∷ codes "activeTime"
    ∷ codes "externalConfigFile"
    ∷ codes "secret"
    ∷ []

-- name, value, _ := strings.Cut(s, "=")
unfoldable pub name_value : Bytes → Bytes × Bytes
name_value s = elim (cut (codes "=") s) [ some p ↦ p | none ↦ (s, []) ]

-- The end of getVarValue: a type that is not valid gives the zero Variable.
unfoldable pub checked : Bytes → Bytes × Bytes → Variable
checked t nv =
    if any (eqb t) valid_types then record { type = t; name = nv.0; value = nv.1 } else no_variable

-- getVarValue
unfoldable pub get_var_value : Bytes → Variable
unfolding checked name_value
get_var_value in_ = elim (cut (codes ":") in_) [
  | none ↦ checked (codes "string") (name_value in_)
  | some (t, r) ↦ checked t (name_value r)
]

-- slices.IndexFunc, and the assignment to the variable that is found or the append.
unfoldable pub assign : Variable → List Variable → List Variable
assign v [] = v ∷ []
assign v (w ∷ vars) = let rest = assign v vars in if eqb w.name v.name then v ∷ vars else w ∷ rest

-- Variables.Set
unfoldable pub add_variable : Bytes → List Variable → List Variable
unfolding assign get_var_value
add_variable value vars = assign (get_var_value value) vars

-- The variable of a name: the first.
unfoldable pub variable : Bytes → List Variable → Option Variable
variable n [] = none
variable n (w ∷ vars) = if eqb w.name n then some w else variable n vars

-- What one item of updateVars is stored as: `skipped` without a key file, `failed` if it cannot be encoded.
pub data Encoded : Type 0 where
  stored : Variable → Encoded
  skipped failed : Encoded

-- EncodeString of the key file on the host of the instance; `none` where the key file is empty.
abbrev pub KeyFile : Type 0
KeyFile = Option (Bytes → Option Bytes)

abbrev pub as_string : Variable → Option Bytes → Encoded
as_string v none = failed
as_string v (some e) = stored (record { type = codes "string"; name = v.name; value = e })

unfoldable pub encode_variable : KeyFile → Variable → Encoded
encode_variable keyfile v =
    if eqb v.type (codes "secret")
    then elim keyfile as (λ _. Encoded) [
      | none ↦ skipped
      | some encode ↦
          as_string v (if has_prefix (codes "${enc:") v.value then some v.value else encode v.value)
    ]
    else stored v

-- The loop of updateVars over the items; `none` is the return of a failed encoding.
unfoldable pub update_vars : KeyFile → List Variable → List Variable → Option (List Variable)
update_vars keyfile [] vars = some vars
update_vars keyfile (v ∷ items) vars =
    elim (encode_variable keyfile v) as (λ _. Option (List Variable)) [
      | stored w ↦ update_vars keyfile items (assign w vars)
      | skipped ↦ update_vars keyfile items vars
      | failed ↦ none
    ]

-- slices.DeleteFunc on the name.
unfoldable pub delete_named : Bytes → List Variable → List Variable
delete_named n [] = []
delete_named n (w ∷ vars) =
    let rest = delete_named n vars in if eqb w.name n then rest else w ∷ rest

-- The loop of unsetVariables.
unfoldable pub unset_vars : List Bytes → List Variable → List Variable
unset_vars [] vars = vars
unset_vars (n ∷ names) vars = unset_vars names (delete_named n vars)

pub variable-assign :
    (v : Variable) (n : Bytes) (vars : List Variable)
    → variable n (assign v vars) ≡ (if eqb v.name n then some v else variable n vars)
unfolding variable assign
variable-assign v n [] = refl
variable-assign v n (w ∷ vars) =
    ground
      (arith, eqb_iff w.name v.name, eqb_iff w.name n, eqb_iff v.name n, variable-assign v n vars)

pub variable-delete_named :
    (m n : Bytes) (vars : List Variable)
    → variable n (delete_named m vars) ≡ (if eqb m n then none else variable n vars)
unfolding variable delete_named
variable-delete_named m n [] = ground arith
variable-delete_named m n (w ∷ vars) =
    ground (arith, eqb_iff w.name m, eqb_iff w.name n, eqb_iff m n, variable-delete_named m n vars)
