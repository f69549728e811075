-- ===== src/Release/Order.antt =====
-- CompareVersion (tools/geneos/internal/geneos/versions.go).
use cordial.Common.{Option, none, some, Bytes, codes, eqb, [], ◌∷◌, if◌then◌else◌, ltb}
use cordial.Text.{first_field, is_letter, trim_prefix}

-- A negative number, zero and a positive number.
pub data Order : Type 0 where
  less same greater : Order

-- strings.Compare
unfoldable pub compare_bytes : Bytes → Bytes → Order
compare_bytes [] [] = same
compare_bytes [] (_ ∷ _) = less
compare_bytes (_ ∷ _) [] = greater
compare_bytes (c ∷ a) (d ∷ b) =
    let rest = compare_bytes a b in if ltb c d then less else if ltb d c then greater else rest

-- The letters of a version, with the version that is left: `GA` where it has none.
unfoldable pub label : Bytes → Bytes × Bytes
unfolding first_field is_letter eqb trim_prefix
label version =
    let letters = first_field is_letter version in
    if eqb letters [] then (codes "GA", version) else (letters, trim_prefix letters version)

abbrev pub or_else_compare : Order → Order → Order
or_else_compare less _ = less
or_else_compare greater _ = greater
or_else_compare same o = o

-- NewVersion and Version.Compare of the version package.
pub record Versions : Type 1 where
  pub Version : Type 0
  pub new_version : Bytes → Option Version
  pub compare : Version → Version → Order

module _ (p : Versions) where
  -- Two versions that are not empty, by their labels.
  unfoldable pub compare_labelled : Bytes × Bytes → Bytes × Bytes → Order
  unfolding compare_bytes
  compare_labelled (label1, version1) (label2, version2) =
      elim (p.new_version version1) as (λ _. Order) [
        | none ↦ greater
        | some v1 ↦ elim (p.new_version version2) as (λ _. Order) [
          | none ↦ less
          | some v2 ↦ or_else_compare (p.compare v1 v2) (compare_bytes label1 label2)
        ]
      ]

  -- CompareVersion
  unfoldable pub compare_version : Bytes → Bytes → Order
  unfolding compare_labelled
  compare_version [] [] = same
  compare_version [] (_ ∷ _) = less
  compare_version (_ ∷ _) [] = greater
  compare_version (c ∷ version1) (d ∷ version2) =
      compare_labelled (label (c ∷ version1)) (label (d ∷ version2))
