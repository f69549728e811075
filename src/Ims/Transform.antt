-- ===== src/Ims/Transform.antt =====
-- Transformation.Transform (pkg/ims/transform.go). A `range` loop over a map follows the order of its
-- list. The loop that renames while it runs visits the keys that the map had when it started.
use cordial.Common.{
  Bool, true, false, not, Option, none, some, List, Bytes, codes, [], ◌∷◌, ◌++◌, if◌then◌else◌, any,
}
use cordial.Text.{cut_prefix, has_prefix}
use cordial.Dict.{Dict, get, put, delete, delete_if}

pub record Transformation : Type 0 where
  pub defaults : Dict Bytes
  pub remove : List Bytes
  pub rename : Dict Bytes
  pub must_include : List Bytes
  pub include : List Bytes
  pub exclude : List Bytes

abbrev pub Fields : Type 0
Fields = Dict Bytes

abbrev pub is_empty {ℓ} : {A : Type ℓ} → List A → Bool
is_empty [] = true
is_empty (_ ∷ _) = false

-- !ok || i == ""
abbrev pub unset_or_empty : Option Bytes → Bool
unset_or_empty none = true
unset_or_empty (some v) = is_empty v

-- 1. Defaults; `expand` is config.Expand[string](cf, _).
unfoldable pub apply_defaults : (Bytes → Bytes) → Dict Bytes → Fields → Fields
apply_defaults expand [] output = output
apply_defaults expand ((k, v) ∷ defaults) output =
    apply_defaults expand defaults
      (if unset_or_empty (get k output) then put k (expand v) output else output)

-- 2. Remove
unfoldable pub remove_all : List Bytes → Fields → Fields
remove_all [] output = output
remove_all (e ∷ remove) output = remove_all remove (delete e output)

-- output[to] = value; delete(output, from)
unfoldable pub rename_field : Bytes → Bytes → Fields → Fields
rename_field from to output = elim (get from output) [
  | none ↦ output
  | some value ↦ delete from (put to value output)
]

abbrev keys : Fields → List Bytes
keys [] = []
keys ((k, _) ∷ m) = k ∷ keys m

-- 3a. Rename fields with the prefix of the system, over the keys that were there at the start.
unfoldable pub rename_prefixed : Bytes → List Bytes → Fields → Fields
unfolding rename_field
rename_prefixed idp_prefix [] output = output
rename_prefixed idp_prefix (k ∷ ks) output =
    rename_prefixed idp_prefix ks
      (elim (cut_prefix idp_prefix k) [ none ↦ output | some field ↦ rename_field k field output ])

-- 3b. Rename
unfoldable pub rename_all : Dict Bytes → Fields → Fields
unfolding rename_field
rename_all [] output = output
rename_all ((from, to) ∷ rename) output = rename_all rename (rename_field from to output)

-- The first required field that is missing.
unfoldable pub first_missing : List Bytes → Fields → Option Bytes
first_missing [] output = none
first_missing (i ∷ must_include) output =
    let later = first_missing must_include output in
    elim (get i output) as (λ _. Option Bytes) [ none ↦ some i | some _ ↦ later ]

abbrev pub internal_prefix : Bytes
internal_prefix = codes "__"

-- The fields before stage 4; `matches f key` is regexp.MatchString(f, key) with an error as false.
unfoldable pub renamed : (Bytes → Bytes) → Bytes → Transformation → Fields → Fields
unfolding apply_defaults remove_all rename_prefixed rename_all
renamed expand idp t input =
    let output = remove_all t.remove (apply_defaults expand t.defaults input) in
    rename_all t.rename (rename_prefixed (codes "__" ++ (idp ++ codes "_")) (keys output) output)

-- 4. Exclude and 5. Include
unfoldable pub filtered : (Bytes → Bytes → Bool) → Transformation → Fields → Fields
filtered matches t output =
    let kept =
      if is_empty t.exclude
      then output
      else delete_if (λ key. not (any (λ f. matches f key) t.exclude)) output in
    if is_empty t.include then kept else delete_if (λ key. any (λ f. matches f key) t.include) kept

-- 6. MustInclude and 7. the fields of the gateway's own; an error names the missing field.
unfoldable pub required : Transformation → Fields → Fields × Option Bytes
required t output = elim (first_missing t.must_include output) [
  | some i ↦ ([], some i)
  | none ↦ (delete_if (has_prefix internal_prefix) output, none)
]

-- Transform
unfoldable pub transform :
    (Bytes → Bytes)
    → (Bytes → Bytes → Bool)
    → Bytes
    → Transformation
    → Fields
    → Fields × Option Bytes
transform expand matches idp t input = required t (filtered matches t (renamed expand idp t input))
