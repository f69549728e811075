-- ===== src/Config/Options.antt =====
-- pkg/config/expandoptions.go: the options of an expansion and their evaluation. The package variable
-- defaultFuncMaps is a state that evalExpandOptions takes and returns.
use cordial.Common.{Bool, true, false, List, Bytes, codes, [], ◌∷◌, ◌++◌, if◌then◌else◌}
use cordial.Dict.{Dict, put, put_all}
use cordial.Config.Value.{Value, nil, str}

-- func(configItems map[string]any, name string, trim bool) (string, error): the
-- string, and whether there was an error.
abbrev pub PrefixFunc : Type 0
PrefixFunc = Dict Value → Bytes → Bool → Bytes × Bool

abbrev pub FuncMaps : Type 0
FuncMaps = Dict PrefixFunc

-- expandOptions; the field `cf`, which only the decoders use, is left out.
pub record ExpandOptions : Type 0 where
  pub default_value : Value
  pub expand_non_string : Bool
  pub expand_non_string_csv : Bool
  pub expressions : Bool
  pub external_func_maps : Bool
  pub func_maps : FuncMaps
  pub initial_value : Value
  pub lookup_tables : List (Dict Bytes)
  pub no_decode : Bool
  pub no_expand : Bool
  pub promote_from : List Bytes
  pub replacements : List Bytes
  pub trim_prefix : Bool
  pub trim_space : Bool
  pub use_key_file : Bytes

abbrev pub ExpandOption : Type 0
ExpandOption = ExpandOptions → ExpandOptions

-- The options before any is applied.
abbrev pub initial_options : ExpandOptions
initial_options = record {
  default_value = nil;
  expand_non_string = false;
  expand_non_string_csv = false;
  expressions = false;
  external_func_maps = true;
  func_maps = [];
  initial_value = nil;
  lookup_tables = [];
  no_decode = false;
  no_expand = false;
  promote_from = [];
  replacements = [];
  trim_prefix = false;
  trim_space = true;
  use_key_file = [];
}

-- for _, opt := range options { opt(e) }
unfoldable pub apply_options : List ExpandOption → ExpandOptions → ExpandOptions
apply_options [] e = e
apply_options (opt ∷ options) e = apply_options options (opt e)

-- e.funcMaps and defaultFuncMaps are one map once external lookups are on, so `expr` goes into both.
unfoldable pub eval_funcs : PrefixFunc → ExpandOptions → FuncMaps → FuncMaps × FuncMaps
unfolding put_all put
eval_funcs expr e globals =
    if e.external_func_maps
    then (let shared = put_all globals e.func_maps in
        if e.expressions
        then (put (codes "expr") expr shared, put (codes "expr") expr shared)
        else (shared, shared))
    else if e.expressions
    then (put (codes "expr") expr e.func_maps, globals)
    else (e.func_maps, globals)

unfoldable pub or_empty_string : Value → Value
or_empty_string nil = str []
or_empty_string v = v

-- evalExpandOptions: the options, and defaultFuncMaps as the call leaves it.
unfoldable pub eval_expand_options :
    PrefixFunc → FuncMaps → List ExpandOption → List ExpandOption → ExpandOptions × FuncMaps
unfolding apply_options eval_funcs or_empty_string
eval_expand_options expr globals defaults options =
    let e = apply_options options (apply_options defaults initial_options) in
    let (funcs, globals') = eval_funcs expr e globals in
    (record e { func_maps = funcs; default_value = or_empty_string e.default_value }, globals')

unfoldable pub no_expand : ExpandOption
no_expand e = record e { no_expand = true }

unfoldable pub no_decode : Bool → ExpandOption
no_decode n e = record e { no_decode = n }

unfoldable pub lookup_table : List (Dict Bytes) → ExpandOption
lookup_table values e = record e { lookup_tables = e.lookup_tables ++ values }

unfoldable pub set_lookup_tables : List (Dict Bytes) → ExpandOption
set_lookup_tables values e = record e { lookup_tables = values }

unfoldable pub prefix : Bytes → PrefixFunc → ExpandOption
unfolding put
prefix name fn e = record e { func_maps = put name fn e.func_maps }

unfoldable pub external_lookups : Bool → ExpandOption
external_lookups on e = record e { external_func_maps = on }

unfoldable pub expressions : Bool → ExpandOption
expressions on e = record e { expressions = on }

unfoldable pub trim_prefix : ExpandOption
trim_prefix e = record e { trim_prefix = true }

unfoldable pub trim_space : Bool → ExpandOption
trim_space trim e = record e { trim_space = trim }

unfoldable pub default_value : Value → ExpandOption
default_value v e = record e { default_value = v }

unfoldable pub initial_value : Value → ExpandOption
initial_value v e = record e { initial_value = v }

unfoldable pub replace : Bytes → ExpandOption
replace name e = record e { replacements = e.replacements ++ name ∷ [] }

unfoldable pub use_keyfile : Bytes → ExpandOption
use_keyfile file e = record e { use_key_file = file }

unfoldable pub expand_non_string_to_csv : ExpandOption
expand_non_string_to_csv e = record e { expand_non_string = true; expand_non_string_csv = true }

unfoldable pub expand_non_string_to_json : ExpandOption
expand_non_string_to_json e = record e { expand_non_string = true }

unfoldable pub promote_from : List Bytes → ExpandOption
promote_from names e = record e { promote_from = names }
