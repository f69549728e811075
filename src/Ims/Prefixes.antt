-- ===== src/Ims/Prefixes.antt =====
-- The expansion prefixes of an action group: match, nomatch, replace, select and field
-- (pkg/ims/action.go). The environment is a function, and a compiled pattern is what `compile` gives.
use cordial.Common.{
  ℕ, Bool, true, false, not, ◌||◌, Option, none, some, List, Bytes, codes, eqb, [], ◌∷◌, ◌++◌,
  if◌then◌else◌, ◌==◌, any,
}
use cordial.Text.{cut, trim_prefix, trim_space, split}
use cordial.Dict.{Dict, get}

-- A compiled pattern: MatchString and ReplaceAllString.
pub record Regexp : Type 0 where
  pub match_string : Bytes → Bool
  pub replace_all_string : Bytes → Bytes → Bytes

abbrev pub Env : Type 0
Env = Bytes → Option Bytes

-- A string and whether an error came with it.
abbrev pub Result : Type 0
Result = Bytes × Bool

abbrev bool_text : Bool → Bytes
bool_text true = codes "true"
bool_text false = codes "false"

module _ (compile : Bytes → Option Regexp) (env : Env) where
  -- The part that matchPrefix and noMatchPrefix share: `answer` is the test or its negation.
  unfoldable pub match_with : (Bool → Bool) → Bytes → Result
  match_with answer s = elim (cut (codes ":") s) as (λ _. Result) [
    | none ↦ (codes "false", true)
    | some (name, pattern) ↦
        if eqb name [] || eqb pattern []
        then (codes "false", true)
        else elim (env name) as (λ _. Result) [
          | none ↦ (codes "false", false)
          | some val ↦ elim (compile pattern) as (λ _. Result) [
            | none ↦ (codes "false", true)
            | some re ↦ (bool_text (answer (re.match_string val)), false)
          ]
        ]
  ]

  unfoldable pub match_prefix : Bytes → Result
  unfolding match_with trim_prefix
  match_prefix s = match_with (λ b. b) (trim_prefix (codes "match:") s)

  unfoldable pub no_match_prefix : Bytes → Result
  unfolding match_with trim_prefix
  no_match_prefix s = match_with not (trim_prefix (codes "nomatch:") s)

  -- strings.SplitN(expr[1:], sep, 3) into a pattern, a text and an empty rest.
  unfoldable pub pattern_and_text : Bytes → Option (Bytes × Bytes)
  unfolding cut eqb
  pattern_and_text [] = none
  pattern_and_text (sep ∷ expr) = elim (cut (sep ∷ []) expr) as (λ _. Option (Bytes × Bytes)) [
    | none ↦ none
    | some (pattern, more) ↦ elim (cut (sep ∷ []) more) as (λ _. Option (Bytes × Bytes)) [
      | none ↦ none
      | some (text, rest) ↦ if eqb rest [] then some (pattern, text) else none
    ]
  ]

  abbrev or_nothing : Option Bytes → Bytes
  or_nothing none = []
  or_nothing (some s) = s

  -- replacePrefix. A pattern that does not compile leaves the value, with an error.
  unfoldable pub replace_prefix : Bytes → Bool → Result
  unfolding cut eqb pattern_and_text trim_prefix trim_space
  replace_prefix s trim =
      elim (cut (codes ":") (trim_prefix (codes "replace:") s)) as (λ _. Result) [
        | none ↦ ([], true)
        | some (name, expr) ↦
            if eqb name [] || eqb expr []
            then ([], true)
            else (let value = or_nothing (env name) in
                if eqb value []
                then ([], false)
                else elim (pattern_and_text expr) as (λ _. Result) [
                  | none ↦ (value, true)
                  | some (pattern, text) ↦ elim (compile pattern) as (λ _. Result) [
                    | none ↦ (value, true)
                    | some re ↦
                        let out = re.replace_all_string value text in
                        (if trim then trim_space out else out, false)
                  ]
                ])
      ]

-- The fields before the last, and the last, which is the default.
unfoldable pub fields_and_default : List Bytes → List Bytes × Bytes
fields_and_default [] = ([], [])
fields_and_default (d ∷ []) = ([], d)
fields_and_default (f ∷ g ∷ fs) = let (fields, d) = fields_and_default (g ∷ fs) in (f ∷ fields, d)

abbrev pub trimmed_if : Bool → Bytes → Bytes
trimmed_if t s = if t then trim_space s else s

unfoldable pub first_field_set : Dict Bytes → Bool → List Bytes → Bytes → Bytes
first_field_set incident trim [] d = d
first_field_set incident trim (f ∷ fields) d =
    let later = first_field_set incident trim fields d in
    elim (get f incident) as (λ _. Bytes) [ some r ↦ trimmed_if trim r | none ↦ later ]

-- fieldPrefix; `none` stands for settings with no table of incident fields.
unfoldable pub field_prefix : Option (Dict Bytes) → Bytes → Bool → Bytes
unfolding split trim_prefix fields_and_default first_field_set
field_prefix incident s trim =
    let (fields, d) = fields_and_default (split b':' (trim_prefix (codes "field:") s)) in
    elim incident as (λ _. Bytes) [ none ↦ d | some m ↦ first_field_set m trim fields d ]

-- strings.TrimLeft(s, cutset): every leading byte that the set has is dropped.
unfoldable pub trim_left : Bytes → Bytes → Bytes
unfolding any
trim_left cutset [] = []
trim_left cutset (c ∷ s) =
    let later = trim_left cutset s in if any (λ d. d == c) cutset then later else c ∷ s

abbrev is_separator : ℕ → Bool
is_separator c = c == b'+' || c == b' ' || c == b'-' || c == b'/'

-- The value of a collected name: what is written, and whether a variable was set.
unfoldable pub write_env : Env → Bytes → Bytes → Bool → Bytes × Bool
write_env env [] out was_set = (out, was_set)
write_env env (c ∷ name) out was_set = elim (env (c ∷ name)) as (λ _. Bytes × Bool) [
  | none ↦ (out, was_set)
  | some [] ↦ (out, was_set)
  | some (v ∷ vs) ↦ (out ++ (v ∷ vs), true)
]

-- The loop over one item of select: `name` is collected so far, `out` is written so far.
unfoldable pub select_loop : Env → Bytes → Bytes → Bytes → Bool → Bytes × Bool
unfolding write_env
select_loop env [] name out was_set = write_env env name out was_set
select_loop env (c ∷ []) name out was_set =
    if is_separator c
    then (let (out', set') = write_env env name out was_set in
        if c == b'+' then (out', set') else (out' ++ c ∷ [], set'))
    else write_env env (name ++ c ∷ []) out was_set
select_loop env (c ∷ d ∷ s) name out was_set =
    let (out', set') = write_env env name out was_set in
    let doubled = select_loop env s [] (out' ++ b'+' ∷ []) set' in
    let joined = select_loop env (d ∷ s) [] out' set' in
    let separated = select_loop env (d ∷ s) [] (out' ++ c ∷ []) set' in
    let collected = select_loop env (d ∷ s) (name ++ c ∷ []) out was_set in
    if is_separator c
    then (if c == b'+' then (if d == b'+' then doubled else joined) else separated)
    else collected

-- The loop over the items.
unfoldable pub select_first : Env → Bool → List Bytes → Bytes → Bytes
unfolding select_loop
select_first env trim [] d = d
select_first env trim (item ∷ items) d =
    let (out, was_set) = select_loop env item [] [] false in
    let later = select_first env trim items d in if was_set then trimmed_if trim out else later

-- selectPrefix: the prefix is taken off by TrimLeft.
unfoldable pub select_prefix : Env → Bytes → Bool → Bytes
unfolding split fields_and_default select_first
select_prefix env s trim =
    let (items, d) = fields_and_default (split b':' (trim_left (codes "select:") s)) in
    select_first env trim items d
