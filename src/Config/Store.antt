-- ===== src/Config/Store.antt =====
-- set, get, lookup, deleteKey and isSet (pkg/config/internal.go), for values that are strings and maps
-- of strings. The settings are kept by viper, which is a parameter. Options are evaluated already; a
-- nested call that has no options of its own has those of the configuration, `own`, which name no
-- keys to promote from.
use cordial.Common.{
  Bool, true, false, not, ◌&&◌, Option, none, some, List, Bytes, eqb, [], ◌∷◌, ◌++◌, map,
  if◌then◌else◌,
}
use cordial.Dict.{Dict}
use cordial.Config.Value.{Value, deleted, str, is_zero}
use cordial.Config.Options.{ExpandOptions}
use cordial.Config.Expand.{World, expand}
use cordial.Config.Replace.{Outcome, done, panic, out_of_fuel, replace_string_param}

-- viper.Viper: its settings are a state.
pub record Viper : Type 1 where
  pub State : Type 0
  pub is_set : Bytes → State → Bool
  pub get : Bytes → State → Value
  pub get_string : Bytes → State → Bytes
  pub all_settings : State → Dict Value
  pub set : Bytes → Value → State → State

abbrev is_deleted : Value → Bool
is_deleted deleted = true
is_deleted _ = false

-- v, ok := value.(string)
abbrev pub text_of : Value → Bytes
text_of (str s) = s
text_of _ = []

module _ (v : Viper) (base : World) (own : ExpandOptions) where
  -- The settings after a call, or the panic of a slice.
  pub data Stored : Type 0 where
    stored : v.State → Stored
    panicked unfinished : Stored

  abbrev pub and_then : Stored → (v.State → Stored) → Stored
  and_then (stored s) f = f s
  and_then panicked f = panicked
  and_then unfinished f = unfinished

  -- What an expansion reads, with the settings as they are.
  abbrev pub world : v.State → World
  world s = record base {
    config_get = λ k. v.get k s;
    config_get_string = λ k. v.get_string k s;
    all_settings = v.all_settings s;
  }

  -- isSet
  unfoldable pub is_set : Bytes → v.State → Bool
  is_set key s = v.is_set key s && not (is_deleted (v.get key s))

  -- deleteKey
  unfoldable pub delete_key : Bytes → v.State → v.State
  delete_key key s = v.set key deleted s

  -- get[string] of a key that is set.
  unfoldable pub get_expanded : ExpandOptions → Bytes → v.State → Bytes
  get_expanded opts key s = expand (world s) opts (v.get_string key s)

  -- get[string] of a key that is not set, without a legacy key.
  unfoldable pub fallback : ExpandOptions → Bytes
  fallback opts =
      if not (is_zero base.zero_other opts.initial_value)
      then text_of opts.initial_value
      else if not (is_zero base.zero_other opts.default_value)
      then text_of opts.default_value
      else []

  -- get[string](c, r), with the options of the configuration.
  unfoldable pub get_own : Bytes → v.State → Bytes
  get_own r s = if is_set r s then get_expanded own r s else fallback own

  abbrev pub stored_as : Bytes → v.State → Outcome → Stored
  stored_as key s (done t) = stored (v.set key (str t) s)
  stored_as key s panic = panicked
  stored_as key s out_of_fuel = unfinished

  -- set[string]
  unfoldable pub set_string : ExpandOptions → Bytes → Bytes → v.State → Stored
  unfolding get_own
  set_string opts key value s =
      if opts.no_expand
      then stored (v.set key (str value) s)
      else stored_as key s
          (replace_string_param (map (λ r. (r, get_own r s)) opts.replacements) value)

  -- set[map[string]string] where there is expansion.
  unfoldable pub set_string_map : ExpandOptions → Bytes → Dict Bytes → v.State → Stored
  unfolding set_string
  set_string_map opts key [] s = stored s
  set_string_map opts key ((k, value) ∷ m) s =
      and_then (set_string opts (key ++ (base.delimiter ++ k)) value s) (set_string_map opts key m)

  abbrev pub moved : Bytes → Bytes → Stored → Option (Bytes × Stored)
  moved legacy value (stored s) = some (value, stored (delete_key legacy s))
  moved legacy value s = some (value, s)

  -- The loop over opts.promoteFrom.
  unfoldable pub promote : ExpandOptions → Bytes → List Bytes → v.State → Option (Bytes × Stored)
  unfolding set_string delete_key
  promote opts key [] s = none
  promote opts key (legacy ∷ names) s =
      let later = promote opts key names s in
      if eqb key legacy
      then later
      else if is_set legacy s
      then (let value = get_expanded opts legacy s in
          moved legacy value (set_string opts key value s))
      else later

  -- get[string]
  unfoldable pub get_string : ExpandOptions → Bytes → v.State → Bytes × Stored
  unfolding fallback
  get_string opts key s =
      if is_set key s
      then (get_expanded opts key s, stored s)
      else elim (promote opts key opts.promote_from s) as (λ _. Bytes × Stored) [
        | some r ↦ r
        | none ↦ (fallback opts, stored s)
      ]

  -- lookup[string]: the value and whether the key is set.
  unfoldable pub lookup_string : ExpandOptions → Bytes → v.State → Bytes × Bool
  lookup_string opts key s = if is_set key s then ((get_string opts key s).0, true) else ([], false)
