-- ===== src/Config/Expand.antt =====
-- expand, expandRawString, expandEncoded and their helpers (pkg/config/internal.go), and ResolveHome
-- (pkg/config/files.go). What they read from outside pkg/config is a `World`.
use cordial.Common.{
  ℕ, Bool, true, false, not, ◌&&◌, ◌||◌, Option, none, some, List, Bytes, codes, eqb, [], ◌∷◌, ◌++◌,
  drop, if◌then◌else◌, is_some,
}
use cordial.Text.{has_prefix, trim_prefix, contains, cut, cut_last, split, join, trim_space}
use cordial.Dict.{Dict, get}
use cordial.Config.Value.{Value, nil, deleted, str, items, other, is_zero}
use cordial.Config.Options.{ExpandOptions}
use cordial.Config.Substitute.{substitute}

-- The operating system, the viper configuration behind a Config, the decoding of a key file and the
-- formatting of values that are no strings.
pub record World : Type 0 where
  pub lookup_env : Bytes → Option Bytes
  pub user_home_dir : Option Bytes
  pub stat : Bytes → Bool
  pub read_file : Bytes → Option Bytes
  pub join_path : Bytes → Bytes → Bytes
  pub decode_string : Bytes → Bytes → Option Bytes
  pub marshal : Value → Option Bytes
  pub sprint_other : ℕ → Bytes
  pub zero_other : ℕ → Bool
  pub config_get : Bytes → Value
  pub config_get_string : Bytes → Bytes
  pub all_settings : Dict Value
  pub delimiter : Bytes

-- A string, and whether an error came with it.
abbrev pub Fetched : Type 0
Fetched = Bytes × Bool

-- splitEncFields
unfoldable pub split_enc_fields : Bytes → Bytes × Bytes
unfolding cut_last
split_enc_fields enc = elim (cut_last b':' enc) [ none ↦ ([], []) | some (k, c) ↦ (k, c) ]

abbrev pub trimmed_if : Bool → Bytes → Bytes
trimmed_if t s = if t then trim_space s else s

abbrev pub strings_of : List (Option Bytes) → List Bytes
strings_of [] = []
strings_of (some s ∷ vs) = s ∷ strings_of vs
strings_of (none ∷ vs) = strings_of vs

abbrev pub or_nothing : Option Bytes → Bytes
or_nothing (some s) = s
or_nothing none = []

-- The first table that has the name.
unfoldable pub first_match : Bytes → List (Dict Bytes) → Option Bytes
first_match s [] = none
first_match s (t ∷ tables) =
    let later = first_match s tables in elim (get s t) [ some n ↦ some n | none ↦ later ]

module _ (w : World) where
  -- fmt.Sprint of a value that isZero did not reject.
  unfoldable pub sprint : Value → Bytes
  sprint (str s) = s
  sprint (other n) = w.sprint_other n
  sprint v = or_nothing (w.marshal v)

  unfoldable pub resolve_home : Bytes → Bytes
  resolve_home p = if not (has_prefix (codes "~/") p) then p else elim w.user_home_dir [
    | none ↦ trim_prefix (codes "~/") p
    | some home ↦ w.join_path home (trim_prefix (codes "~/") p)
  ]

  -- mapEnv
  unfoldable pub map_env : Bytes → Bytes
  map_env e =
      let s = or_nothing (w.lookup_env e) in
      if not (eqb s []) then s else if eqb e (codes "HOME") then or_nothing w.user_home_dir else s

  -- fetchFile
  unfoldable pub fetch_file : Bytes → Bool → Fetched
  unfolding resolve_home
  fetch_file p trim = elim (w.read_file (resolve_home (trim_prefix (codes "file:") p))) [
    | none ↦ ([], true)
    | some b ↦ (trimmed_if trim b, false)
  ]

  -- json.Marshal, with an error as the second part.
  unfoldable pub marshalled : Value → Fetched
  marshalled v = elim (w.marshal v) [ some u ↦ (u, false) | none ↦ ([], true) ]

  -- The type switch on the configuration value of a reference.
  unfoldable pub non_string : ExpandOptions → Value → Fetched
  unfolding marshalled
  non_string e deleted = ([], false)
  non_string e (str s) = (trimmed_if e.trim_space s, false)
  non_string e (items vs) =
      if e.expand_non_string_csv
      then (join (codes ",") (strings_of vs), false)
      else marshalled (items vs)
  non_string e nil = if e.expand_non_string_csv then ([], false) else marshalled nil
  non_string e (other n) = if e.expand_non_string_csv then ([], false) else marshalled (other n)

  -- expandRawString, by its cases.
  unfoldable pub raw_path : ExpandOptions → Bytes → Fetched
  raw_path e s =
      if is_some (get (codes "file") e.func_maps)
      then (if w.stat s then fetch_file s e.trim_space else ([], true))
      else ([], false)

  unfoldable pub raw_config : ExpandOptions → Bytes → Fetched
  raw_config e key =
      if not e.expand_non_string
      then (trimmed_if e.trim_space (w.config_get_string key), false)
      else non_string e (w.config_get key)

  unfoldable pub raw_word : ExpandOptions → Bytes → Fetched
  raw_word e s = elim (first_match s e.lookup_tables) [
    | some n ↦ (trimmed_if e.trim_space n, false)
    | none ↦ (trimmed_if e.trim_space (map_env s), false)
  ]

  unfoldable pub raw_function : ExpandOptions → Bytes → Fetched
  raw_function e s = elim (cut (codes ":") s) [
    | none ↦ ([], false)
    | some (name, arg) ↦ elim (get name e.func_maps) [
      | none ↦ ([], false)
      | some fn ↦ fn w.all_settings (if e.trim_prefix then arg else s) e.trim_space
    ]
  ]

  unfoldable pub expand_raw_string : ExpandOptions → Bytes → Fetched
  expand_raw_string e s =
      if contains (codes "/") s && not (contains (codes ":") s)
      then raw_path e s
      else if has_prefix (codes "config:") s || not (contains (codes ":") s)
      then (if has_prefix (codes "config:") s || contains w.delimiter s
          then raw_config e (trim_prefix (codes "config:") s)
          else raw_word e s)
      else if has_prefix (codes "env:") s
      then (trimmed_if e.trim_space (map_env (trim_prefix (codes "env:") s)), false)
      else raw_function e s

  -- The loop over the key files: the first that decodes.
  unfoldable pub decode_first : List Bytes → Bytes → Bytes
  decode_first [] value = []
  decode_first (k ∷ keys) value =
      let later = decode_first keys value in
      elim (w.decode_string (resolve_home k) value) [ some p ↦ p | none ↦ later ]

  -- expandEncoded, behind `enc:`.
  unfoldable pub expand_encoded : ExpandOptions → Bytes → Bytes
  expand_encoded e s =
      let (embedded, text) = split_enc_fields s in
      let keyfiles = if eqb e.use_key_file [] then embedded else e.use_key_file in
      let value = if has_prefix (codes "+encs+") text then text else (expand_raw_string e text).0 in
      if eqb value [] then [] else decode_first (split b'|' keyfiles) value

  -- The function that expand gives to _expand.
  unfoldable pub mapping : ExpandOptions → Bytes → Bytes
  mapping e s =
      if has_prefix (codes "enc:") s
      then (if e.no_decode then codes "${" ++ (s ++ codes "}") else expand_encoded e (drop 4 s))
      else (expand_raw_string e s).0

  abbrev not_zero : Value → Bool
  not_zero v = not (is_zero w.zero_other v)

  unfoldable pub unexpanded : ExpandOptions → Bytes → Bytes
  unexpanded e input =
      if not (eqb input [])
      then input
      else if not_zero e.initial_value
      then sprint e.initial_value
      else if not_zero e.default_value
      then sprint e.default_value
      else []

  -- expand, for options that are evaluated. The calls of evalExpandOptions in the functions above give
  -- the same options again.
  unfoldable pub expand : ExpandOptions → Bytes → Bytes
  unfolding unexpanded
  expand e input =
      if e.no_expand
      then unexpanded e input
      else (let start =
            if eqb input [] && not_zero e.initial_value then sprint e.initial_value else input in
          let value = trimmed_if e.trim_space (substitute (mapping e) start) in
          if eqb value [] && not_zero e.default_value then sprint e.default_value else value)

  -- expandStringSlice
  unfoldable pub expand_string_slice : ExpandOptions → List Bytes → List Bytes
  expand_string_slice e [] = []
  expand_string_slice e (v ∷ input) = expand e v ∷ expand_string_slice e input
