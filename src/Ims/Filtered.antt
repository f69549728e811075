-- ===== src/Ims/Filtered.antt =====
-- What Transform leaves in the fields (pkg/ims/transform.go).
use cordial.Common.{
  ◌≡◌, ◌≢◌, refl, Bool, true, false, not, ◌||◌, ◌&&◌, Option, none, some, List, Bytes, eqb, eqb_iff,
  [], ◌∷◌, if◌then◌else◌, any, arith,
}
use cordial.Text.{has_prefix}
use cordial.Dict.{Dict, get, put, delete_if, get-put, get-delete_if, get-Apart, Distinct}
use cordial.Ims.Transform.{
  Transformation, Fields, is_empty, unset_or_empty, apply_defaults, first_missing, internal_prefix,
  renamed, filtered, required, transform,
}

-- The test by which a key is dropped after the renaming.
abbrev pub dropped : (Bytes → Bytes → Bool) → Transformation → Bytes → Bool
dropped matches t key =
    has_prefix internal_prefix key
    || (not (is_empty t.exclude) && not (any (λ f. matches f key) t.exclude))
    || (not (is_empty t.include) && any (λ f. matches f key) t.include)

get-filtered :
    (matches : Bytes → Bytes → Bool) (t : Transformation) (k : Bytes) (m : Fields)
    → get k (filtered matches t m) ≡ (
        if (not (is_empty t.exclude) && not (any (λ f. matches f k) t.exclude))
          || (not (is_empty t.include) && any (λ f. matches f k) t.include)
        then none
        else get k m)
unfolding filtered
get-filtered matches t k m =
    let excluded = λ (key : Bytes). not (any (λ f. matches f key) t.exclude) in
    let included = λ (key : Bytes). any (λ f. matches f key) t.include in
    ground (
      arith,
      get-delete_if excluded k m,
      get-delete_if included k m,
      get-delete_if included k (delete_if excluded m),
    )

-- A transformation that succeeds keeps the value of exactly those renamed fields that are not
-- internal, that match a pattern of Exclude if there is one, and that match no pattern of Include.
pub get-transform :
    (expand : Bytes → Bytes) (matches : Bytes → Bytes → Bool) (idp : Bytes) (t : Transformation)
    (input : Fields) (k : Bytes)
    → (transform expand matches idp t input).1 ≡ none
    → get k (transform expand matches idp t input).0
      ≡ (if dropped matches t k then none else get k (renamed expand idp t input))
unfolding transform required
get-transform expand matches idp t input k h =
    let output = filtered matches t (renamed expand idp t input) in
    ground (
      arith,
      get-filtered matches t k (renamed expand idp t input),
      get-delete_if (has_prefix internal_prefix) k output,
    )

first_missing_sound :
    (l : List Bytes) (m : Fields) (i : Bytes)
    → first_missing l m ≡ some i
    → (any (eqb i) l ≡ true) × (get i m ≡ none)
unfolding first_missing any
first_missing_sound [] m i h = cc
first_missing_sound (j ∷ l) m i h = ground (arith, eqb_iff i j, first_missing_sound l m i)

-- A transformation that fails returns no fields, and the field that it names is required and missing.
transform_fails :
    (expand : Bytes → Bytes) (matches : Bytes → Bytes → Bool) (idp : Bytes) (t : Transformation)
    (input : Fields) {i : Bytes}
    → (transform expand matches idp t input).1 ≡ some i
    → ((transform expand matches idp t input).0 ≡ [])
      × (any (eqb i) t.must_include ≡ true)
      × (get i (filtered matches t (renamed expand idp t input)) ≡ none)
unfolding transform required
transform_fails expand matches idp t input {i} h =
    ground (
      arith,
      first_missing_sound t.must_include (filtered matches t (renamed expand idp t input)) i,
    )

-- The value that stage 1 gives a field.
abbrev pub defaulted : (Bytes → Bytes) → Option Bytes → Option Bytes → Option Bytes
defaulted expand none value = value
defaulted expand (some d) value = if unset_or_empty value then some (expand d) else value

get-cons :
    (j d : Bytes) (m : Dict Bytes) (k : Bytes)
    → get k ((j, d) ∷ m) ≡ (if eqb j k then some d else get k m)
unfolding get
get-cons j d m k = refl

-- Whatever the order of the defaults, whose keys are distinct, a field that is unset or empty gets
-- its default, expanded, and every other field is left alone.
get-apply_defaults :
    (expand : Bytes → Bytes) (defaults : Dict Bytes) (m : Fields) (k : Bytes)
    → Distinct defaults
    → get k (apply_defaults expand defaults m) ≡ defaulted expand (get k defaults) (get k m)
unfolding apply_defaults
get-apply_defaults expand [] m k h = unfold get in refl
get-apply_defaults expand ((j, d) ∷ defaults) m k (ha, hd) =
    let m' = if unset_or_empty (get j m) then put j (expand d) m else m in
    ground (
      arith,
      get-apply_defaults expand defaults m' k hd,
      get-put j k (expand d) m,
      get-Apart j defaults ha,
      eqb_iff j k,
      get-cons j d defaults k,
    )

missing_complete :
    (l : List Bytes) (m : Fields) (i : Bytes)
    → first_missing l m ≡ none
    → any (eqb i) l ≡ true
    → get i m ≢ none
unfolding first_missing any
missing_complete [] m i h e = cc
missing_complete (j ∷ l) m i h e = ground (arith, eqb_iff i j, missing_complete l m i)

-- A transformation that succeeds returns every required field that is not internal.
required_field_returned :
    (expand : Bytes → Bytes) (matches : Bytes → Bytes → Bool) (idp : Bytes) (t : Transformation)
    (input : Fields) (i : Bytes)
    → (transform expand matches idp t input).1 ≡ none
    → any (eqb i) t.must_include ≡ true
    → has_prefix internal_prefix i ≡ false
    → get i (transform expand matches idp t input).0 ≢ none
unfolding transform required
required_field_returned expand matches idp t input i h e p =
    let output = filtered matches t (renamed expand idp t input) in
    ground (
      arith,
      get-delete_if (has_prefix internal_prefix) i output,
      missing_complete t.must_include output i,
    )
