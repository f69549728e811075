-- ===== src/Values/Expanding.antt =====
-- A configuration that is a map from its keys and that reads a slice as pkg/config does: each value that
-- is stored is expanded (expandStringSlice, pkg/config/internal.go).
use mathlib.Core.Path.{subst, ap₂}
use cordial.Common.{
  ◌≡◌, ◌≢◌, ◌∙◌, refl, ap, true, false, none, List, Bytes, codes, eqb, [], ◌∷◌, ◌++◌, append-nil,
  All,
}
use cordial.Text.{trim_space, trim_start, trim_end}
use cordial.Config.Value.{nil, is_zero}
use cordial.Config.Options.{initial_options}
use cordial.Config.Substitute.{literal, substitute, substitute-render}
use cordial.Config.Expand.{World, expand, expand_string_slice, mapping}
use cordial.Config.Fallbacks.{ended, expand-cons}
use cordial.Values.Conf.{Conf, SliceLaws, IsPlain}
use cordial.Values.InMap.{in_map, in_map-SliceLaws}

-- A machine without files and environment variables.
abbrev pub bare_machine : World
bare_machine = record {
  lookup_env = λ e. none;
  user_home_dir = none;
  stat = λ p. false;
  read_file = λ p. none;
  join_path = λ a b. a ++ (codes "/" ++ b);
  decode_string = λ path input. none;
  marshal = λ v. none;
  sprint_other = λ n. [];
  zero_other = λ n. true;
  config_get = λ k. nil;
  config_get_string = λ k. [];
  all_settings = [];
  delimiter = codes ".";
}

abbrev pub expanding : World → Conf
expanding w = record in_map {
  get_slice = λ key s. expand_string_slice w initial_options (in_map.stored_slice key s);
}

substitute-plain : (m : Bytes → Bytes) (v : Bytes) → All (λ c. c ≢ b'$') v → substitute m v ≡ v
substitute-plain m v h =
    subst (λ t. substitute m t ≡ t) (append-nil v) (substitute-render m (literal v ∷ []) (h, tt))

expand-plain : (w : World) (v : Bytes) → IsPlain v → expand w initial_options v ≡ v
unfolding expand eqb is_zero substitute trim_space trim_start trim_end
expand-plain w [] h = refl
expand-plain w (c ∷ v) (d, t) =
    expand-cons w initial_options c v refl
    ∙ (ap (ended w initial_options) (substitute-plain (mapping w initial_options) (c ∷ v) d) ∙ kept)
  where
    kept : ended w initial_options (c ∷ v) ≡ c ∷ v
    kept = rw t refl

expand_string_slice-plain :
    (w : World) (l : List Bytes) → All IsPlain l → expand_string_slice w initial_options l ≡ l
unfolding expand_string_slice
expand_string_slice-plain w [] h = refl
expand_string_slice-plain w (v ∷ l) (hv, hl) =
    ap₂ (λ a b. a ∷ b) (expand-plain w v hv) (expand_string_slice-plain w l hl)

pub expanding-SliceLaws : (w : World) → SliceLaws (expanding w)
expanding-SliceLaws w = record {
  get_plain = λ key s low h. expand_string_slice-plain w (in_map.stored_slice key s) h;
  stored_set = in_map-SliceLaws.stored_set;
  stored_delete = in_map-SliceLaws.stored_delete;
  stored_set_other = in_map-SliceLaws.stored_set_other;
  stored_delete_other = in_map-SliceLaws.stored_delete_other;
  stored_set_map = in_map-SliceLaws.stored_set_map;
  stored_set_variables = in_map-SliceLaws.stored_set_variables;
}
