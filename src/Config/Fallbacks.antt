-- ===== src/Config/Fallbacks.antt =====
-- What an expansion returns where a value is missing (pkg/config/internal.go).
use cordial.Common.{
  ℕ, ◌≡◌, ◌≢◌, ◌⊎◌, refl, ap, ◌∙◌, true, false, not, ◌&&◌, Option, none, some, Bytes, codes, [],
  ◌∷◌, ◌++◌, arith, eqb, eqb_iff, append-nil, if◌then◌else◌,
}
use cordial.Text.{contains, has_prefix, trim_space}
use cordial.Text.Trim.{trim_space_twice}
use cordial.Config.Value.{is_zero}
use cordial.Config.Options.{ExpandOptions}
use cordial.Config.Contents.{closes}
use cordial.Config.Substitute.{variable, substitute, substitute-render}
use cordial.Config.Expand.{
  World, expand, unexpanded, sprint, mapping, expand_raw_string, first_match, map_env, trimmed_if,
  raw_path, raw_word,
}

-- With a default value that is not zero and does not print as nothing, no expansion is empty, if an
-- initial value that is not zero does not print as nothing either.
expand-ne-nil :
    (w : World) (e : ExpandOptions) (input : Bytes)
    → is_zero w.zero_other e.default_value ≡ false
    → sprint w e.default_value ≢ []
    → (is_zero w.zero_other e.initial_value ≡ false → sprint w e.initial_value ≢ [])
    → expand w e input ≢ []
unfolding expand unexpanded
expand-ne-nil w e input h n i = ground (
  arith,
  eqb_iff input [],
  eqb_iff (trimmed_if e.trim_space (substitute (mapping w e) input)) [],
  eqb_iff (trimmed_if e.trim_space (substitute (mapping w e) (sprint w e.initial_value))) [],
)

-- An expansion with trimming has no space at its ends, or it is the default value.
pub expand-trimmed :
    (w : World) (e : ExpandOptions) (input : Bytes)
    → e.no_expand ≡ false
    → e.trim_space ≡ true
    → (trim_space (expand w e input) ≡ expand w e input)
      ⊎ (expand w e input ≡ sprint w e.default_value)
unfolding expand
expand-trimmed w e input h t = ground (
  arith,
  trim_space_twice (substitute (mapping w e) input),
  trim_space_twice (substitute (mapping w e) (sprint w e.initial_value)),
)

-- A reference, and the end of an expansion: what is found is trimmed, and the default stands in for
-- nothing.
abbrev pub braced : Bytes → Bytes
braced n = codes "${" ++ (n ++ b'}' ∷ [])

abbrev pub ended : World → ExpandOptions → Bytes → Bytes
ended w e found =
    let value = trimmed_if e.trim_space found in
    if eqb value [] && not (is_zero w.zero_other e.default_value)
    then sprint w e.default_value
    else value

-- The name of a reference that is decoded by no key file.
abbrev pub IsReference : Bytes → Type 0
IsReference n = (n ≢ []) × (closes n 0 ≡ true) × (has_prefix (codes "enc:") n ≡ false)

substitute-braced :
    (mapping : Bytes → Bytes) (n : Bytes)
    → n ≢ []
    → closes n 0 ≡ true
    → substitute mapping (braced n) ≡ mapping n
substitute-braced mapping n h k =
    substitute-render mapping (variable n ∷ []) (h, k, tt) ∙ append-nil (mapping n)

mapping-raw :
    (w : World) (e : ExpandOptions) (n : Bytes)
    → has_prefix (codes "enc:") n ≡ false
    → mapping w e n ≡ (expand_raw_string w e n).0
unfolding mapping
mapping-raw w e n h = rw (h, mapping) refl

pub expand-cons :
    (w : World) (e : ExpandOptions) (c : ℕ) (s : Bytes)
    → e.no_expand ≡ false
    → expand w e (c ∷ s) ≡ ended w e (substitute (mapping w e) (c ∷ s))
unfolding expand eqb
expand-cons w e c s h = simp h

expand-braced :
    (w : World) (e : ExpandOptions) (n : Bytes)
    → e.no_expand ≡ false
    → IsReference n
    → expand w e (braced n) ≡ ended w e (expand_raw_string w e n).0
expand-braced w e n h (k, c, p) =
    expand-cons w e b'$' (b'{' ∷ (n ++ b'}' ∷ [])) h
    ∙ (ap (ended w e) (substitute-braced (mapping w e) n k c ∙ mapping-raw w e n p))

abbrev pub or_environment : Bytes → Option Bytes → Bytes
or_environment value (some t) = t
or_environment value none = value

raw_plain_word :
    (w : World) (e : ExpandOptions) (n : Bytes)
    → contains (codes "/") n ≡ false
    → contains (codes ":") n ≡ false
    → has_prefix (codes "config:") n ≡ false
    → contains w.delimiter n ≡ false
    → (expand_raw_string w e n).0
      ≡ trimmed_if e.trim_space (or_environment (map_env w n) (first_match n e.lookup_tables))
unfolding expand_raw_string raw_word
raw_plain_word w e n a b c d = ground arith

raw_missing_path :
    (w : World) (e : ExpandOptions) (n : Bytes)
    → contains (codes "/") n ≡ true
    → contains (codes ":") n ≡ false
    → w.stat n ≡ false
    → (expand_raw_string w e n).0 ≡ []
unfolding expand_raw_string raw_path
raw_missing_path w e n a b c = ground arith

-- With expansion on, a reference to a plain word, which starts with neither `enc:` nor `config:`
-- and has no slash, colon or delimiter, expands to the value in the first
-- lookup table that has the word, and to the environment's value if no table has it, also where
-- there are tables. The value is trimmed by the options, and the default stands in for nothing.
expand-word :
    (w : World) (e : ExpandOptions) (n : Bytes)
    → e.no_expand ≡ false
    → IsReference n
    → contains (codes "/") n ≡ false
    → contains (codes ":") n ≡ false
    → has_prefix (codes "config:") n ≡ false
    → contains w.delimiter n ≡ false
    → expand w e (braced n)
      ≡ ended w e
          (trimmed_if e.trim_space (or_environment (map_env w n) (first_match n e.lookup_tables)))
expand-word w e n h r a b c d =
    expand-braced w e n h r ∙ ap (ended w e) (raw_plain_word w e n a b c d)

-- With expansion on, a reference to a path with no colon that is not found as it is written expands
-- to the default, or to nothing,
-- whatever the files in the home directory are: a leading `~/` is not replaced before the path is
-- looked for.
expand-missing_path :
    (w : World) (e : ExpandOptions) (n : Bytes)
    → e.no_expand ≡ false
    → IsReference n
    → contains (codes "/") n ≡ true
    → contains (codes ":") n ≡ false
    → w.stat n ≡ false
    → expand w e (braced n) ≡ ended w e []
expand-missing_path w e n h r a b c =
    expand-braced w e n h r ∙ ap (ended w e) (raw_missing_path w e n a b c)
