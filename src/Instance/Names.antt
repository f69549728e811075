-- ===== src/Instance/Names.antt =====
-- ParseName, IDString, ShortName, ReservedName, ValidName and Match
-- (tools/geneos/internal/instance/instance.go). Hosts are a parameter: GetHost, the name of a host, and
-- whether it is ALL; so are the registered components, the names of the instances on a host and
-- path.Match. Word characters are those of ASCII.
use cordial.Common.{
  ℕ, Bool, true, false, not, ◌&&◌, ◌||◌, Option, none, some, List, Bytes, codes, eqb, [], ◌∷◌, ◌++◌,
  if◌then◌else◌, leb, ◌==◌, any, is_some, ◌⊎◌, inl, inr,
}
use cordial.Text.{cut, has_prefix, is_letter, split, trim_space}
use cordial.Dict.{Dict, get, put}
use cordial.Components.{Component, equal_fold, parse_component}

pub record Hosts : Type 1 where
  pub Host : Type 0
  pub get_host : Bytes → Host
  pub host_name : Host → Bytes
  pub is_all : Host → Bool
  pub is_localhost : Host → Bool

-- \w
unfoldable pub is_word : ℕ → Bool
unfolding is_letter
is_word c = is_letter c || (leb b'0' c && leb c b'9') || c == b'_'

unfoldable pub every : (ℕ → Bool) → Bytes → Bool
every t [] = true
every t (c ∷ s) = t c && every t s

-- The classes of validNameRE for the name and the host.
unfoldable pub is_name_byte : ℕ → Bool
unfolding is_word
is_name_byte c = is_word c || any (λ d. d == c) (codes ".- _*?[]^")

unfoldable pub is_host_byte : ℕ → Bool
unfolding is_word
is_host_byte c = is_word c || any (λ d. d == c) (codes "-_.")

-- ([...]+)?(@[...]*)?
unfoldable pub valid_rest : Bytes → Bool
unfolding is_name_byte is_host_byte every
valid_rest s = elim (cut (codes "@") s) [
  | none ↦ every is_name_byte s
  | some (name, host) ↦ every is_name_byte name && every is_host_byte host
]

-- ValidName
unfoldable pub valid_name : Bytes → Bool
unfolding valid_rest is_word every
valid_name s = elim (cut (codes ":") s) [
  | none ↦ valid_rest s
  | some (t, r) ↦ not (eqb t []) && every is_word t && valid_rest r
]

-- ReservedName, for the configured list.
unfoldable pub in_list : Bytes → List Bytes → Bool
unfolding equal_fold trim_space
in_list name [] = false
in_list name (n ∷ list) = equal_fold name (trim_space n) || in_list name list

unfoldable pub reserved_name : List Component → Bytes → Bytes → Bool
unfolding parse_component in_list split
reserved_name registered reserved name =
    is_some (parse_component registered name)
    || (not (eqb reserved []) && in_list name (split b',' reserved))

module _ (hosts : Hosts) (registered : List Component) where
  pub record Parsed : Type 0 where
    pub host : hosts.Host
    pub ct : Option Component
    pub instance_name : Bytes

  abbrev pub with_host : hosts.Host → Option Component → Bytes → Parsed
  with_host default ct name = elim (cut (codes "@") name) as (λ _. Parsed) [
    | none ↦ record { host = default; ct = ct; instance_name = name }
    | some (i, h) ↦ record { host = hosts.get_host h; ct = ct; instance_name = i }
  ]

  -- ParseName, with the default host.
  unfoldable pub parse_name : hosts.Host → Bytes → Parsed
  unfolding parse_component
  parse_name default name = elim (cut (codes ":") name) as (λ _. Parsed) [
    | none ↦ with_host default none name
    | some (t, r) ↦ with_host default (parse_component registered t) r
  ]

  -- ShortName
  unfoldable pub short_name : hosts.Host → Bytes → Bytes
  short_name host name = name ++ (codes "@" ++ hosts.host_name host)

  -- IDString
  unfoldable pub id_string : Component → hosts.Host → Bytes → Bytes
  id_string ct host name =
      if hosts.is_localhost host
      then ct.name ++ (codes ":" ++ name)
      else ct.name ++ (codes ":" ++ (name ++ (codes "@" ++ hosts.host_name host)))

  -- The pattern that is looked for.
  unfoldable pub widened : Bool → Bytes → Bytes
  widened keep_hosts pattern =
      let p = if eqb pattern (codes "all") then codes "*" else pattern in
      if not keep_hosts && has_prefix (codes "@") p then codes "*" ++ p else p

  module _ (all_instance_names : hosts.Host → List Bytes) (glob : Bytes → Bytes → Bool) where
    -- The loop over the instances on the host of the pattern.
    unfoldable pub matches : hosts.Host → Bytes → List Bytes → List Bytes
    unfolding parse_name
    matches h p [] = []
    matches h p (name ∷ list) =
        let rest = matches h p list in
        let n = (parse_name h name).instance_name in
        if glob p n
        then (if hosts.is_all h then n else n ++ (codes "@" ++ hosts.host_name h)) ∷ rest
        else rest

    -- What one pattern adds; `none` is the error of a pattern that must match.
    unfoldable pub expand_pattern :
        (keep_hosts : Bool) → (must_match : Bool) → hosts.Host → Bytes → Option (List Bytes)
    unfolding matches widened parse_name valid_name
    expand_pattern keep_hosts must_match h pattern =
        let p = widened keep_hosts pattern in
        let parsed = parse_name h p in
        elim (matches parsed.host parsed.instance_name (all_instance_names parsed.host))
          as (λ _. Option (List Bytes)) [
            | n ∷ names ↦ some (n ∷ names)
            | [] ↦ if must_match then none else if valid_name p then some (p ∷ []) else some []
          ]

    -- The names, or those up to a pattern that must match and does not.
    unfoldable pub expand_patterns :
        Bool → Bool → hosts.Host → List Bytes → List Bytes → List Bytes ⊎ List Bytes
    unfolding expand_pattern
    expand_patterns keep_hosts must_match h names [] = inr names
    expand_patterns keep_hosts must_match h names (p ∷ patterns) =
        elim (expand_pattern keep_hosts must_match h p) as (λ _. List Bytes ⊎ List Bytes) [
          | none ↦ inl names
          | some more ↦ expand_patterns keep_hosts must_match h (names ++ more) patterns
        ]

-- The loop that removes duplicates.
unfoldable pub unseen : Dict Bool → List Bytes → List Bytes
unseen seen [] = []
unseen seen (n ∷ names) =
    let passed_over = unseen seen names in
    let kept = n ∷ unseen (put n true seen) names in
    if is_some (get n seen) then passed_over else kept

abbrev pub or_patterns : List Bytes → List Bytes → List Bytes
or_patterns patterns [] = patterns
or_patterns patterns (n ∷ names) = n ∷ names

module _ (hosts : Hosts) (registered : List Component)
    (all_instance_names : hosts.Host → List Bytes) (glob : Bytes → Bytes → Bool) where
  -- Match
  unfoldable pub match_names : Bool → Bool → hosts.Host → List Bytes → List Bytes ⊎ List Bytes
  unfolding expand_patterns unseen
  match_names keep_hosts must_match h patterns =
      elim (expand_patterns hosts registered all_instance_names glob keep_hosts must_match h []
          patterns)
        as (λ _. List Bytes ⊎ List Bytes) [
          | inl names ↦ inl names
          | inr names ↦ inr (or_patterns patterns (unseen [] names))
        ]
