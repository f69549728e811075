-- ===== src/XPath/Parse.antt =====
-- Parse (pkg/geneos/xpath/xpath.go). The path is taken apart at its slashes and walked from its last
-- part to its first. Letters are those of ASCII.
use cordial.Common.{
  ℕ, true, not, ◌||◌, Option, none, some, List, Bytes, codes, [], ◌∷◌, ◌==◌, if◌then◌else◌, eqb,
  length, drop,
}
use mathlib.Core.List.{reverse}
use cordial.Text.{has_prefix, is_letter, first_field}
use cordial.Dict.{put}
use cordial.XPath.{XPath, empty}
use cordial.XPath.Scan.{
  split_with_escaping, enclosed, find_enclosed, get_attr, attr_or_empty, after_key, attribute,
  attributes_from, get_attributes,
}

pub data ParseError : Type 0 where
  relative_path invalid_path : ParseError

-- The path that Parse returns beside its error holds what was read before the error.
abbrev pub Parsed : Type 0
Parsed = XPath × Option ParseError

abbrev invalid : XPath → Parsed
invalid x = (x, some invalid_path)

-- The cases of the walk, from the first part up: the parts stand in reverse, parts[p-1] in front.
unfoldable pub case_1 : List Bytes → XPath → Parsed
case_1 [] x = invalid x
case_1 (s ∷ rest) x = if eqb s [] then (x, none) else invalid x

unfoldable pub case_2 : List Bytes → XPath → Parsed
unfolding case_1
case_2 [] x = invalid x
case_2 (s ∷ rest) x = if eqb s (codes "geneos") then case_1 rest x else invalid x

unfoldable pub case_3 : List Bytes → XPath → Parsed
unfolding case_2
case_3 [] x = invalid x
case_3 (s ∷ rest) x =
    if has_prefix (codes "gateway") s
    then case_2 rest
        (record x { gateway = some (record { name = attr_or_empty s (codes "name") }) })
    else invalid x

unfoldable pub case_4 : List Bytes → XPath → Parsed
unfolding case_3
case_4 [] x = invalid x
case_4 (s ∷ rest) x = if eqb s (codes "directory") then case_3 rest x else invalid x

unfoldable pub case_5 : List Bytes → XPath → Parsed
unfolding case_4
case_5 [] x = invalid x
case_5 (s ∷ rest) x =
    if has_prefix (codes "probe") s
    then case_4 rest (record x { probe = some (record { name = attr_or_empty s (codes "name") }) })
    else invalid x

unfoldable pub case_6 : List Bytes → XPath → Parsed
unfolding case_5
case_6 [] x = invalid x
case_6 (s ∷ rest) x =
    if has_prefix (codes "managedEntity") s
    then case_5 rest (record x {
      entity =
          some (record {
            name = attr_or_empty s (codes "name");
            attributes = some (get_attributes s);
          });
    })
    else invalid x

unfoldable pub case_7 : List Bytes → XPath → Parsed
unfolding case_6
case_7 [] x = invalid x
case_7 (s ∷ rest) x =
    if has_prefix (codes "sampler") s
    then case_6 rest (record x {
      sampler =
          some (record { name = attr_or_empty s (codes "name"); kind = get_attr s (codes "type") });
    })
    else invalid x

unfoldable pub case_8 : List Bytes → XPath → Parsed
unfolding case_7
case_8 [] x = invalid x
case_8 (s ∷ rest) x =
    if has_prefix (codes "dataview") s
    then case_7 rest
        (record x { dataview = some (record { name = attr_or_empty s (codes "name") }) })
    else invalid x

unfoldable pub case_9 : List Bytes → XPath → Parsed
unfolding case_8
case_9 [] x = invalid x
case_9 (s ∷ rest) x =
    if has_prefix (codes "rows") s
    then case_8 rest x
    else if has_prefix (codes "headlines") s
    then case_8 rest x
    else invalid x

unfoldable pub case_10 : List Bytes → XPath → Parsed
unfolding case_9
case_10 [] x = invalid x
case_10 (s ∷ rest) x =
    if has_prefix (codes "row") s
    then case_9 rest
        (record x { rows = true; row = some (record { name = attr_or_empty s (codes "name") }) })
    else if has_prefix (codes "cell") s
    then case_9 rest
        (record x { headline = some (record { name = attr_or_empty s (codes "name") }) })
    else invalid x

unfoldable pub case_11 : List Bytes → XPath → Parsed
unfolding case_10
case_11 [] x = invalid x
case_11 (s ∷ rest) x =
    if has_prefix (codes "cell") s
    then case_10 rest
        (record x { column = some (record { name = attr_or_empty s (codes "column") }) })
    else invalid x

-- switch p := len(parts), on the reversed parts.
abbrev pub walk_from : ℕ → List Bytes → Parsed
walk_from n parts =
    if n == 11
    then case_11 parts empty
    else if n == 10
    then case_10 parts empty
    else if n == 9
    then case_9 parts empty
    else if n == 8
    then case_8 parts empty
    else if n == 7
    then case_7 parts empty
    else if n == 6
    then case_6 parts empty
    else if n == 5
    then case_5 parts empty
    else if n == 4
    then case_4 parts empty
    else if n == 3
    then case_3 parts empty
    else if n == 2
    then case_2 parts empty
    else if n == 1
    then case_1 parts empty
    else invalid empty

unfoldable pub walk : List Bytes → Parsed
unfolding case_11 has_prefix eqb
walk parts = walk_from (length parts) (reverse parts)

abbrev to_probe : List Bytes → List Bytes
to_probe parts = [] ∷ codes "geneos" ∷ codes "gateway" ∷ codes "directory" ∷ parts

abbrev to_entity : List Bytes → List Bytes
to_entity parts = to_probe (codes "probe" ∷ parts)

abbrev to_sampler : List Bytes → List Bytes
to_sampler parts = to_entity (codes "managedEntity" ∷ parts)

abbrev to_dataview : List Bytes → List Bytes
to_dataview parts = to_sampler (codes "sampler" ∷ parts)

-- The levels above the first field of a path that starts with two slashes.
unfoldable pub fill_in : Bytes → List Bytes → List Bytes
unfolding eqb
fill_in field parts =
    if eqb field (codes "gateway")
    then [] ∷ codes "geneos" ∷ codes "gateway" ∷ []
    else if eqb field (codes "rows") || eqb field (codes "headlines")
    then to_dataview (codes "dataview" ∷ parts)
    else if eqb field (codes "dataview")
    then to_dataview parts
    else if eqb field (codes "sampler")
    then to_sampler parts
    else if eqb field (codes "managedEntity")
    then to_entity parts
    else if eqb field (codes "probe")
    then to_probe parts
    else parts

-- Parse
unfoldable pub parse : Bytes → Parsed
unfolding split_with_escaping has_prefix first_field is_letter fill_in walk eqb attr_or_empty
    get_attr get_attributes find_enclosed enclosed attributes_from attribute after_key put
parse s =
    let parts = split_with_escaping b'/' b'\\' s [] in
    let field = first_field is_letter s in
    if not (has_prefix (codes "/") s)
    then (empty, some relative_path)
    else if has_prefix (codes "//") s
    then (if eqb field [] then invalid empty else walk (fill_in field (drop 2 parts)))
    else walk parts
