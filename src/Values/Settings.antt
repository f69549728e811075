-- ===== src/Values/Settings.antt =====
-- Values, Set, Unset and updateEncoded (tools/geneos/internal/values/values.go, set.go and unset.go),
-- between the copy of the configuration and its return. Logging is left out.
use cordial.Common.{
  Bool, true, false, not, ◌&&◌, ◌⊎◌, inl, inr, Option, none, some, List, Bytes, codes, eqb, [], ◌∷◌,
  ◌++◌, if◌then◌else◌,
}
use cordial.Dict.{Dict}
use cordial.Components.{Component, is_a}
use cordial.Values.Variables.{Variable, KeyFile, update_vars, unset_vars}
use cordial.Values.Normal.{Held, normalise_vars}
use cordial.Values.Conf.{Conf}
use cordial.Values.Slices.{get_name_value_key, names_value, update_slice, unset_slice}
use cordial.Values.Tables.{update_map, unset_map}

-- SecureValue
pub record SecureValue : Type 0 where
  pub name : Bytes
  pub secret : Bytes

-- Values, without the headers, which are not settings.
pub record Values : Type 0 where
  pub params : List Bytes
  pub secure_params : List SecureValue
  pub envs : List Bytes
  pub secure_envs : List SecureValue
  pub includes : Dict Bytes
  pub gateways : Dict Bytes
  pub attributes : List Bytes
  pub variables : List Variable
  pub types : List Bytes

-- UnsetConfigValues
pub record UnsetConfigValues : Type 0 where
  pub attributes : List Bytes
  pub envs : List Bytes
  pub gateways : List Bytes
  pub includes : List Bytes
  pub types : List Bytes
  pub variables : List Bytes

-- What the host holds of the key file: ReadCRC succeeds, and Encode. `none` is the empty key file.
pub record KeyStore : Type 0 where
  pub readable : Bool
  pub key_file : KeyFile

abbrev pub pair_of : SecureValue → Bytes → Bytes
pair_of s encoded = s.name ++ (codes "=" ++ encoded)

abbrev then_pair : SecureValue → Option Bytes → Option (List Bytes) → Option (List Bytes)
then_pair s none rest = none
then_pair s (some encoded) none = none
then_pair s (some encoded) (some params) = some (pair_of s encoded ∷ params)

-- The loop of updateEncoded.
unfoldable pub encode_all : (Bytes → Option Bytes) → List SecureValue → Option (List Bytes)
encode_all encode [] = some []
encode_all encode (s ∷ values) =
    let rest = encode_all encode values in
    if eqb s.secret [] then rest else then_pair s (encode s.secret) rest

pub data SetError : Type 0 where
  not_a_setting no_key_file not_encoded : SetError

-- updateEncoded, behind the test that there is a key file, for values that are not none.
unfoldable pub update_encoded : KeyStore → SecureValue → List SecureValue → SetError ⊎ List Bytes
unfolding encode_all
update_encoded k s values = elim k.key_file as (λ _. SetError ⊎ List Bytes) [
  | none ↦ inl no_key_file
  | some encode ↦
      if not k.readable
      then inl not_encoded
      else elim (encode_all encode (s ∷ values)) as (λ _. SetError ⊎ List Bytes) [
        | none ↦ inl not_encoded
        | some params ↦ inr params
      ]
]

module _ (c : Conf) where
  -- The new configuration, with the error if there is one.
  pub data Result : Type 0 where
    done : c.State → Result
    stopped : SetError → c.State → Result

  abbrev pub and_then : Result → (c.State → Result) → Result
  and_then (done s) f = f s
  and_then (stopped e s) f = stopped e s

  unfoldable pub set_pairs : List Bytes → c.State → Result
  set_pairs params s =
      let r = c.set_key_value_pairs params s in if r.1 then done r.0 else stopped not_a_setting r.0

  -- The values that are encoded, or nothing where there are none.
  abbrev pub with_secrets :
      KeyStore → List SecureValue → (List Bytes → c.State → Result) → c.State → Result
  with_secrets k [] f s = done s
  with_secrets k (v ∷ values) f s = elim (update_encoded k v values) [
    | inl e ↦ stopped e s
    | inr secrets ↦ f secrets s
  ]

  -- The parameters, plain and encoded.
  unfoldable pub set_params : KeyStore → Values → c.State → Result
  unfolding set_pairs update_encoded
  set_params k values s =
      and_then (set_pairs values.params s) (with_secrets k values.secure_params set_pairs)

  abbrev pub env_secrets : List Bytes → c.State → Result
  env_secrets secrets s = done (update_slice c get_name_value_key (codes "env") secrets s).0

  unfoldable pub set_envs : KeyStore → Values → c.State → Result
  unfolding update_encoded
  set_envs k values s =
      with_secrets k values.secure_envs env_secrets
        (update_slice c get_name_value_key (codes "env") values.envs s).0

  abbrev pub old_variables : Option Held → Option (List Variable)
  old_variables none = some []
  old_variables (some h) = normalise_vars h

  abbrev pub variables_or_delete : Bytes → List Variable → c.State → c.State
  variables_or_delete key [] s = c.delete key s
  variables_or_delete key (v ∷ vars) s = c.set_variables key (v ∷ vars) s

  -- updateVars; a format that is no known one is a panic, which is `none`.
  unfoldable pub update_variables : KeyFile → Bytes → List Variable → c.State → Option c.State
  unfolding normalise_vars update_vars
  update_variables k key items s =
      elim (old_variables (c.lookup_any key s)) as (λ _. Option c.State) [
        | none ↦ none
        | some vars ↦ elim (update_vars k items vars) as (λ _. Option c.State) [
          | none ↦ some s
          | some vars' ↦ some (variables_or_delete key vars' s)
        ]
      ]

  unfoldable pub set_includes : Component → Values → c.State → c.State
  unfolding update_map is_a
  set_includes ct values s =
      if is_a ct (codes "gateway" ∷ [])
      then update_map c (codes "includes") values.includes s
      else s

  unfoldable pub set_gateways : Component → Values → c.State → c.State
  unfolding update_map is_a
  set_gateways ct values s =
      if is_a ct (codes "san" ∷ codes "floating" ∷ [])
      then update_map c (codes "gateways") values.gateways s
      else s

  unfoldable pub set_san : Component → Values → c.State → c.State
  unfolding update_slice is_a
  set_san ct values s =
      if is_a ct (codes "san" ∷ [])
      then (update_slice c get_name_value_key (codes "attributes") values.attributes
          (update_slice c (λ a. a) (codes "types") values.types s).0).0
      else s

  unfoldable pub set_variables : KeyStore → Component → Values → c.State → Option c.State
  unfolding update_variables is_a
  set_variables k ct values s =
      if is_a ct (codes "gateway" ∷ codes "san" ∷ [])
      then update_variables k.key_file (codes "variables") values.variables s
      else some s

  abbrev pub finished : KeyStore → Component → Values → Result → Option Result
  finished k ct values (stopped e s) = some (stopped e s)
  finished k ct values (done s) =
      elim (set_variables k ct values
          (set_san ct values (set_gateways ct values (set_includes ct values s))))
        as (λ _. Option Result) [ none ↦ none | some s' ↦ some (done s') ]

  -- Set; `none` is a panic.
  unfoldable pub set : KeyStore → Component → Values → c.State → Option Result
  unfolding set_params set_envs set_includes set_gateways set_san set_variables
  set k ct values s = finished k ct values (and_then (set_params k values s) (set_envs k values))

  -- unsetVariables
  unfoldable pub unset_variables : Bytes → List Bytes → c.State → Option c.State
  unfolding normalise_vars unset_vars
  unset_variables key items s = elim (c.lookup_any key s) as (λ _. Option c.State) [
    | none ↦ some s
    | some h ↦ elim (normalise_vars h) as (λ _. Option c.State) [
      | none ↦ none
      | some vars ↦ some (variables_or_delete key (unset_vars items vars) s)
    ]
  ]

  unfoldable pub unset_slices : UnsetConfigValues → c.State → c.State
  unfolding unset_slice names_value
  unset_slices unset s = unset_slice c eqb (codes "types") unset.types (
      unset_slice c names_value (codes "env") unset.envs
        (unset_slice c names_value (codes "attributes") unset.attributes s))

  unfoldable pub unset_maps : Component → UnsetConfigValues → c.State → c.State
  unfolding unset_map
  unset_maps ct unset s =
      unset_map c ct (codes "includes") unset.includes
        (unset_map c ct (codes "gateways") unset.gateways s)

  abbrev is_empty : List Bytes → Bool
  is_empty [] = true
  is_empty (_ ∷ _) = false

  abbrev pub nothing_unset : UnsetConfigValues → Bool
  nothing_unset u =
      is_empty u.gateways
      && is_empty u.includes
      && is_empty u.variables
      && is_empty u.attributes
      && is_empty u.envs
      && is_empty u.types

  -- Unset: the configuration, and whether anything was to be unset; `none` is a panic.
  unfoldable pub unset_values : Component → UnsetConfigValues → c.State → Option (c.State × Bool)
  unfolding unset_maps unset_variables unset_slices
  unset_values ct unset s =
      elim (unset_variables (codes "variables") unset.variables (unset_maps ct unset s))
        as (λ _. Option (c.State × Bool)) [
          | none ↦ none
          | some s' ↦ some (unset_slices unset s', not (nothing_unset unset))
        ]
