-- ===== src/Values/Samples.antt =====
-- Runs of the updates of an instance's settings, and the theorems about them at concrete inputs.
use cordial.Common.{
  ◌≡◌, inl, refl, true, false, some, List, codes, eqb, [], ◌∷◌, ◌++◌, map, arith, any, All,
  if◌then◌else◌,
}
use cordial.Text.{trim_space, trim_start, trim_end, is_space, cut, cut_prefix, has_prefix}
use cordial.Dict.{Dict, get, put}
use cordial.Components.{Component, is_a, equal_fold, fold_byte}
use cordial.Values.Variables.{
  Variable, no_variable, KeyFile, update_vars, variable, encode_variable, assign, get_var_value,
}
use cordial.Values.Named.{variable-update_vars, or_else, latest, HasNamesOnce}
use cordial.Values.Kept.{
  update_vars-HasNamesOnce, update_vars-IsHidden, IsHidden, IsSecret, Encodes,
}
use cordial.Values.Normal.{
  normalise_vars, normalise_vars-formats, anys, texts, tables, fields_of, text_of, entry_of,
  IsTyped,
}
use cordial.Values.Slices.{
  get_name_value_key, names_value, update_slice, unset_slice, keyed, old_values, merged,
  has_changed,
}
use cordial.Values.Merged.{
  update_slice-with_key, unset_slice-update_slice, with_key, has_key, keys_of, IsPair,
}
use cordial.Values.Settings.{
  Values, KeyStore, done, set, set_params, set_pairs, set_envs, set_includes, set_gateways, set_san,
  set_variables, update_encoded, encode_all,
}
use cordial.Values.Applied.{set-named_envs, set-untouched, named, has_name, Secrets}
use cordial.Values.Framed.{IsUntouched}
use cordial.Values.Flags.{get_var_value_with_colon}
use cordial.Values.Conf.{IsPlain}
use cordial.Config.Value.{is_zero}
use cordial.Config.Substitute.{substitute, substitute_from, step}
use cordial.Config.Expand.{expand, expand_string_slice}
use cordial.Values.Expanding.{bare_machine, expanding, expanding-SliceLaws}
use cordial.Values.InMap.{Entry, slice}

abbrev password : Variable
password = record { type = codes "secret"; name = codes "PW"; value = codes "abc" }

abbrev port : Variable
port = record { type = codes "integer"; name = codes "PORT"; value = codes "1" }

abbrev other_port : Variable
other_port = record { type = codes "integer"; name = codes "PORT"; value = codes "2" }

abbrev encoded : Variable
encoded = record { type = codes "string"; name = codes "PW"; value = codes "${enc:abc" }

abbrev some_key : KeyFile
some_key = some (λ s. some (codes "${enc:" ++ s))

abbrev some_items : List Variable
some_items = password ∷ other_port ∷ []

run_update : update_vars some_key some_items (port ∷ []) ≡ some (other_port ∷ encoded ∷ [])
unfolding update_vars encode_variable assign eqb has_prefix cut_prefix
run_update = refl

variable-update_vars_example :
    variable (codes "PORT") (other_port ∷ encoded ∷ [])
    ≡ or_else (latest some_key (codes "PORT") some_items) (variable (codes "PORT") (port ∷ []))
variable-update_vars_example =
    variable-update_vars some_key (codes "PORT") some_items (port ∷ []) (other_port ∷ encoded ∷ [])
      run_update

update_vars-HasNamesOnce_example : HasNamesOnce (other_port ∷ encoded ∷ [])
update_vars-HasNamesOnce_example =
    update_vars-HasNamesOnce some_key some_items (port ∷ []) (other_port ∷ encoded ∷ []) (tt, tt)
      run_update

Encodes-some_key : Encodes some_key
unfolding has_prefix cut_prefix
Encodes-some_key s e h = ground (arith, h)

IsSecret-items : All (IsSecret (codes "PW")) some_items
unfolding eqb
IsSecret-items = (λ _. refl, (λ e. ground (arith, e), tt))

IsHidden-before : All (IsHidden (codes "PW")) (port ∷ [])
unfolding eqb
IsHidden-before = (λ e. ground (arith, e), tt)

update_vars-IsHidden_example : All (IsHidden (codes "PW")) (other_port ∷ encoded ∷ [])
update_vars-IsHidden_example =
    update_vars-IsHidden some_key (codes "PW") some_items (port ∷ []) (other_port ∷ encoded ∷ [])
      Encodes-some_key IsSecret-items IsHidden-before run_update

normalise_vars-formats_example :
    (normalise_vars (anys (map fields_of (port ∷ []))) ≡ some (port ∷ []))
    × (normalise_vars (texts (map text_of (port ∷ []))) ≡ some (port ∷ []))
    × (normalise_vars (tables (map entry_of (port ∷ []))) ≡ some (port ∷ []))
normalise_vars-formats_example = normalise_vars-formats (port ∷ []) port_typed
  where
    port_typed : All IsTyped (port ∷ [])
    port_typed = ground arith

get_var_value_with_colon_example : get_var_value (codes "URL=http://x") ≡ no_variable
get_var_value_with_colon_example =
    get_var_value_with_colon (codes "URL") (codes "http") (codes "//x") (ground arith)
      (ground arith)

abbrev old_state : Dict Entry
old_state = (codes "env", slice (codes "A=1" ∷ codes "B=2" ∷ [])) ∷ []

update_slice-with_key_example :
    with_key get_name_value_key (codes "A") (
      (expanding bare_machine).stored_slice
        (codes "env")
        (update_slice
          (expanding bare_machine)
          get_name_value_key
          (codes "env")
          (codes "A=3" ∷ [])
          old_state).0)
    ≡ (if has_key get_name_value_key (codes "A") (codes "A=3" ∷ [])
        then with_key get_name_value_key (codes "A") (codes "A=3" ∷ [])
        else with_key get_name_value_key
            (codes "A")
            ((expanding bare_machine).get_slice (codes "env") old_state))
update_slice-with_key_example =
    update_slice-with_key (expanding bare_machine) (expanding-SliceLaws bare_machine)
      get_name_value_key (codes "A") (codes "env") (codes "A=3") [] old_state (ground arith)

pairs_new : All IsPair (codes "A=3" ∷ [])
unfolding cut cut_prefix
pairs_new = (refl, tt)

pairs_old : All IsPair ((expanding bare_machine).stored_slice (codes "env") old_state)
unfolding cut cut_prefix get eqb
pairs_old = (refl, (refl, tt))

IsPlain-new : All IsPlain (codes "A=3" ∷ [])
unfolding trim_space trim_start trim_end is_space
IsPlain-new = ground arith

IsPlain-old : All IsPlain ((expanding bare_machine).stored_slice (codes "env") old_state)
unfolding trim_space trim_start trim_end is_space get eqb
IsPlain-old = ground arith

unset_slice-update_slice_example :
    (expanding bare_machine).stored_slice (codes "env") (
      unset_slice
        (expanding bare_machine)
        names_value
        (codes "env")
        (keys_of (codes "A=3" ∷ []))
        (update_slice
          (expanding bare_machine)
          get_name_value_key
          (codes "env")
          (codes "A=3" ∷ [])
          old_state).0)
    ≡ (expanding bare_machine).stored_slice (codes "env") (
        unset_slice
          (expanding bare_machine)
          names_value
          (codes "env")
          (keys_of (codes "A=3" ∷ []))
          old_state)
unset_slice-update_slice_example =
    unset_slice-update_slice (expanding bare_machine) (expanding-SliceLaws bare_machine)
      (codes "env") (codes "A=3" ∷ []) old_state (ground arith) pairs_new IsPlain-new pairs_old
      IsPlain-old

abbrev probe : Component
probe = record {
  name = codes "netprobe";
  aliases = codes "probe" ∷ [];
  legacy_parameters = (codes "ProbeHome", codes "home") ∷ [];
  download_infix = [];
  is_root = false;
  uses_keyfiles = true;
}

abbrev some_values : Values
some_values = record {
  params = [];
  secure_params = [];
  envs = codes "A=3" ∷ [];
  secure_envs = record { name = codes "B"; secret = codes "x" } ∷ [];
  includes = [];
  gateways = (codes "host", codes "7039") ∷ [];
  attributes = codes "C=4" ∷ [];
  variables = port ∷ [];
  types = codes "T" ∷ [];
}

abbrev some_store : KeyStore
some_store = record { readable = true; key_file = some_key }

abbrev new_state : Dict Entry
new_state = (codes "env", slice (codes "B=${enc:x" ∷ codes "A=3" ∷ [])) ∷ []

run_params : set_params (expanding bare_machine) some_store some_values old_state ≡ done old_state
unfolding set_params set_pairs
run_params = refl

run_set :
    set (expanding bare_machine) some_store probe some_values old_state ≡ some (done new_state)
unfolding set set_params set_pairs set_envs set_includes set_gateways set_san set_variables is_a
    equal_fold fold_byte update_slice merged keyed old_values has_changed get put eqb any
    update_encoded encode_all get_name_value_key cut cut_prefix expand_string_slice expand
    substitute substitute_from step is_zero trim_space trim_start trim_end is_space
run_set = refl

secret_B : Secrets some_store some_values.secure_envs (codes "B=${enc:x" ∷ [])
unfolding update_encoded encode_all eqb
secret_B = refl

set-named_envs_example :
    named (codes "B") ((expanding bare_machine).stored_slice (codes "env") new_state) ≡ (
      if has_name (codes "B") (codes "B=${enc:x" ∷ [])
      then named (codes "B") (codes "B=${enc:x" ∷ [])
      else if has_name (codes "B") some_values.envs
      then named (codes "B") some_values.envs
      else named (codes "B") ((expanding bare_machine).stored_slice (codes "env") old_state))
set-named_envs_example =
    set-named_envs (expanding bare_machine) (expanding-SliceLaws bare_machine) some_store probe
      some_values (codes "B") (codes "B=${enc:x" ∷ []) old_state old_state new_state IsPlain-new
      IsPlain-old secret_B run_params run_set

IsUntouched-types : IsUntouched probe (codes "types")
unfolding eqb is_a equal_fold fold_byte any
IsUntouched-types = (refl, refl, refl, inl refl)

set-untouched_example :
    (expanding bare_machine).stored_slice (codes "types") new_state
    ≡ (expanding bare_machine).stored_slice (codes "types") old_state
unfolding eqb
set-untouched_example =
    set-untouched (expanding bare_machine) (expanding-SliceLaws bare_machine) some_store probe
      some_values (codes "types") old_state old_state new_state (ground arith) IsUntouched-types
      refl run_params run_set
