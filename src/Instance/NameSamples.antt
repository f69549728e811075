-- ===== src/Instance/NameSamples.antt =====
-- Names of instances, and the theorems about them at concrete inputs.
use cordial.Common.{
  Bool, ◌≡◌, ◌||◌, refl, false, some, List, Bytes, codes, eqb, [], ◌∷◌, arith, any, inr,
}
use cordial.Text.{cut, cut_prefix, has_prefix, is_letter}
use cordial.Components.{
  Component, parse_component, first_answer, answers, names_of, equal_fold, fold_byte,
}
use cordial.Dict.{put, get}
use cordial.Instance.Names.{
  Hosts, parse_name, id_string, match_names, or_patterns, expand_pattern, expand_patterns, matches,
  unseen, widened, valid_name, valid_rest, is_name_byte, is_host_byte, is_word, every,
}
use cordial.Instance.Named.{parse_name-id_string, parsed_as}
use cordial.Instance.Matched.{match_names-given, given, lists, HasNoDuplicates}

-- A host is its name.
abbrev by_name : Hosts
by_name = record {
  Host = Bytes;
  get_host = λ h. h;
  host_name = λ h. h;
  is_all = λ h. eqb h (codes "all");
  is_localhost = λ h. eqb h (codes "localhost");
}

abbrev netprobe : Component
netprobe = record {
  name = codes "netprobe";
  aliases = codes "probe" ∷ [];
  legacy_parameters = [];
  download_infix = [];
  is_root = false;
  uses_keyfiles = false;
}

abbrev two_components : List Component
two_components = netprobe ∷ []

netprobe-parsed : parse_component two_components (codes "netprobe") ≡ some netprobe
unfolding parse_component first_answer answers names_of equal_fold fold_byte eqb any
netprobe-parsed = refl

run_id_string :
    id_string by_name two_components netprobe (codes "db1") (codes "ny") ≡ codes "netprobe:ny@db1"
unfolding id_string eqb
run_id_string = refl

parse_name-id_string_example :
    parse_name by_name two_components
      (codes "web")
      (id_string by_name two_components netprobe (codes "db1") (codes "ny"))
    ≡ parsed_as by_name two_components (codes "db1") (some netprobe) (codes "ny")
unfolding eqb
parse_name-id_string_example =
    parse_name-id_string by_name two_components (codes "web") (codes "db1") netprobe (codes "ny")
      (ground arith) netprobe-parsed (ground arith) refl

-- The instances of the samples: their order is that of the directory.
abbrev some_names : Bytes → List Bytes
some_names h = codes "ny@db1" ∷ codes "ldn@db1" ∷ []

abbrev star_or_same : Bytes → Bytes → Bool
star_or_same p n = eqb p (codes "*") || eqb p n

-- The names are not sorted, and a pattern without special characters gets its host.
run_match_names :
    match_names by_name two_components some_names star_or_same false false
      (codes "db1")
      (codes "ldn" ∷ codes "all" ∷ codes "1.5" ∷ codes "a/b" ∷ [])
    ≡ inr (codes "ldn@db1" ∷ codes "ny@db1" ∷ codes "1.5" ∷ [])
unfolding match_names expand_patterns expand_pattern matches unseen widened valid_name valid_rest
    is_name_byte is_host_byte is_word every parse_name parse_component cut cut_prefix has_prefix
    is_letter put get eqb any
run_match_names = refl

match_names-given_example :
    (names : List Bytes) × (match_names by_name two_components some_names star_or_same false false
        (codes "db1")
        (codes "ldn" ∷ codes "all" ∷ [])
      ≡ inr (or_patterns (codes "ldn" ∷ codes "all" ∷ []) names))
    × HasNoDuplicates names
    × ((k : Bytes)
        → lists k names
          ≡ any
              (λ p.
                lists k
                  (given by_name two_components some_names star_or_same false (codes "db1") p))
              (codes "ldn" ∷ codes "all" ∷ []))
match_names-given_example =
    match_names-given by_name two_components some_names star_or_same false (codes "db1")
      (codes "ldn" ∷ codes "all" ∷ [])
