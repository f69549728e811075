-- ===== src/Config/StoreSamples.antt =====
-- Runs of the settings functions of pkg/config on a map, and the theorems about them at concrete inputs.
use cordial.Common.{
  ◌≡◌, refl, ap, true, false, Option, none, some, Bytes, codes, eqb, eqb_refl, [], ◌∷◌, ◌++◌,
  is_some, if◌then◌else◌,
}
use cordial.Text.{has_prefix, leading, is_letter}
use cordial.Dict.{Dict, get, put, get-put}
use cordial.Config.Value.{Value, nil, str}
use cordial.Config.Options.{ExpandOptions, initial_options}
use cordial.Config.Expand.{World}
use cordial.Config.Replace.{replace_string_param}
use cordial.Config.Store.{
  Viper, stored, text_of, is_set, delete_key, get_expanded, set_string, get_string,
}
use cordial.Config.Pairs.{
  parse_item, is_key_byte, after_name, line, applied, set_key_value_pairs, apply_item,
}
use cordial.Config.Promoted.{ViperLaws, get_string-promoted}
use cordial.Config.Appended.{set_key_value_pairs-append}

abbrev or_nil : Option Value → Value
or_nil none = nil
or_nil (some x) = x

-- Settings without parents and children.
abbrev flat : Viper
flat = record {
  State = Dict Value;
  is_set = λ k s. is_some (get k s);
  get = λ k s. or_nil (get k s);
  get_string = λ k s. text_of (or_nil (get k s));
  all_settings = λ s. s;
  set = put;
}

get_same : (k : Bytes) (x : Value) (s : Dict Value) → get k (put k x s) ≡ some x
get_same k x s = rw (get-put k k x s, eqb_refl k) refl

get_other :
    (j k : Bytes) (x : Value) (s : Dict Value) → eqb k j ≡ false → get j (put k x s) ≡ get j s
get_other j k x s h = rw (get-put k j x s, h) refl

abbrev flat_laws : ViperLaws flat
flat_laws = record {
  Separate = λ j k. eqb k j ≡ false;
  get_set = λ k x s. ap or_nil (get_same k x s);
  is_set_set = λ k x s h. ap is_some (get_same k x s);
  get_string_set = λ k t s. ap (λ o. text_of (or_nil o)) (get_same k (str t) s);
  get_separate = λ j k x s h. ap or_nil (get_other j k x s h);
  is_set_separate = λ j k x s h. ap is_some (get_other j k x s h);
  get_string_separate = λ j k x s h. ap (λ o. text_of (or_nil o)) (get_other j k x s h);
}

abbrev empty_world : World
empty_world = record {
  lookup_env = λ k. none;
  user_home_dir = none;
  stat = λ p. false;
  read_file = λ p. none;
  join_path = λ p q. p ++ (codes "/" ++ q);
  decode_string = λ k value. none;
  marshal = λ v. none;
  sprint_other = λ n. codes "1";
  zero_other = λ n. false;
  config_get = λ k. nil;
  config_get_string = λ k. [];
  all_settings = [];
  delimiter = codes ".";
}

abbrev legacy_options : ExpandOptions
legacy_options = record initial_options { promote_from = codes "none" ∷ codes "old" ∷ [] }

abbrev raw_options : ExpandOptions
raw_options = record initial_options { no_expand = true }

abbrev legacy_settings : Dict Value
legacy_settings = (codes "old", str (codes "v")) ∷ []

get_string-promoted_example :
    let value =
      get_expanded flat empty_world initial_options legacy_options (codes "old") legacy_settings in
    let s' =
      delete_key flat empty_world initial_options
        (codes "old")
        (put (codes "new") (str value) legacy_settings) in
    (get_string flat empty_world initial_options legacy_options (codes "new") legacy_settings
      ≡ (value, stored s'))
    × (is_set flat empty_world initial_options (codes "new") s' ≡ true)
    × (text_of (or_nil (get (codes "new") s')) ≡ value)
    × (is_set flat empty_world initial_options (codes "old") s' ≡ false)
get_string-promoted_example =
    get_string-promoted flat flat_laws empty_world initial_options legacy_options (codes "new")
      (codes "old") (codes "none" ∷ []) [] legacy_settings (unfold is_set get eqb in refl) refl
      (unfold is_set get eqb in (refl, tt)) (unfold eqb in refl) (unfold is_set get eqb in refl)
      (unfold eqb in refl) refl

set_key_value_pairs-append_example :
    set_key_value_pairs flat empty_world initial_options
      ((codes "old" ++ (codes "+=" ++ codes "-x")) ∷ [])
      legacy_settings
    ≡ set_key_value_pairs flat empty_world initial_options [] (
        put
          (codes "old")
          (str (
            text_of (or_nil (get (codes "old") legacy_settings))
            ++ (if has_prefix (codes "-") (codes "-x")
                then codes " " ++ codes "-x"
                else codes "-x")))
          legacy_settings)
set_key_value_pairs-append_example =
    set_key_value_pairs-append flat flat_laws empty_world initial_options (codes "old") (codes "-x")
      [] legacy_settings (λ e. cc) (unfold is_key_byte is_letter in (refl, (refl, (refl, tt))))
      (refl, (refl, tt)) (unfold is_set get eqb in refl) (unfold get eqb in (λ e. cc)) refl

one_item :
    set_key_value_pairs flat empty_world initial_options (codes "a=1" ∷ []) []
    ≡ applied ((codes "a", str (codes "1")) ∷ [])
unfolding set_key_value_pairs apply_item parse_item after_name line is_key_byte is_letter leading
    set_string replace_string_param put
one_item = refl
