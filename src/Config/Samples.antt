-- ===== src/Config/Samples.antt =====
-- Runs of pkg/config on concrete texts and options, and the theorems about it at concrete inputs.
use cordial.Common.{
  ◌≡◌, ◌≢◌, refl, false, none, some, List, Bytes, codes, eqb, [], ◌∷◌, ◌++◌, arith, if◌then◌else◌,
}
use cordial.Config.Value.{nil, str}
use cordial.Config.Options.{PrefixFunc, ExpandOption, ExpandOptions, initial_options, prefix}
use cordial.Config.Contents.{scan, get_contents, get_contents_complete}
use cordial.Config.Substitute.{literal, variable, substitute, render, expansion, substitute-render}
use cordial.Config.Expand.{World}
use cordial.Config.Replace.{out_of_fuel, replace_string_param, replace_string_param-ends}

-- One variable, one key file that decodes, and no files.
abbrev world : World
world = record {
  lookup_env = λ k. if eqb k (codes "USER") then some (codes "me") else none;
  user_home_dir = some (codes "/home/me");
  stat = λ p. false;
  read_file = λ p. none;
  join_path = λ p q. p ++ (codes "/" ++ q);
  decode_string = λ k value. if eqb k (codes "new") then some (codes "secret") else none;
  marshal = λ v. none;
  sprint_other = λ n. codes "1";
  zero_other = λ n. false;
  config_get = λ k. nil;
  config_get_string = λ k. [];
  all_settings = [];
  delimiter = codes ".";
}

abbrev braces : Bytes → Bytes
braces n = codes "<" ++ (n ++ codes ">")

abbrev echo : PrefixFunc
echo = λ settings s trim. (s, false)

abbrev echo_option : List ExpandOption
echo_option = prefix (codes "echo") echo ∷ []

abbrev with_default : ExpandOptions
with_default = record initial_options { default_value = str (codes "none") }

nested_name : substitute braces (codes "a${b{c}}$d") ≡ codes "a<b{c}>$d"
unfolding substitute scan
nested_name = refl

open_name : substitute braces (codes "a${b") ≡ codes "a${b"
unfolding substitute scan
open_name = refl

substitute-render_example :
    substitute braces (render (literal (codes "a ") ∷ variable (codes "b{c}") ∷ []))
    ≡ expansion braces (literal (codes "a ") ∷ variable (codes "b{c}") ∷ [])
substitute-render_example =
    substitute-render braces (literal (codes "a ") ∷ variable (codes "b{c}") ∷ [])
      ((ground arith, (ground arith, tt)), ((λ e. cc), refl, tt))

get_contents_complete_example : get_contents b'{' (codes "b{c}}d") ≡ (codes "b{c}", 6)
get_contents_complete_example = get_contents_complete (codes "b{c}") (codes "d") (λ e. cc) refl

replace_string_param-ends_example :
    replace_string_param ((codes "home", codes "/opt") ∷ []) (codes "/opt/${a}/opt") ≢ out_of_fuel
replace_string_param-ends_example =
    replace_string_param-ends ((codes "home", codes "/opt") ∷ []) (codes "/opt/${a}/opt")
