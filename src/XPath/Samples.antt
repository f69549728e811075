-- ===== src/XPath/Samples.antt =====
-- Runs of pkg/geneos/xpath on concrete paths, and the theorems about it at concrete inputs.
use cordial.Common.{◌≡◌, refl, none, some, codes, [], ◌∷◌, arith, eqb}
use cordial.XPath.{XPath, empty, of_row, new_dataview_path, new_table_cell_path, resolve}
use cordial.XPath.Resolve.{flags, flag_of, HasNoGaps, flags-resolve}
use cordial.XPath.Print.{print}
use cordial.XPath.Parse.{parse, relative_path}
use cordial.XPath.Location.{Location, at_entity, at_cell, to_xpath}
use cordial.XPath.RoundTrip.{parse-print}
use cordial.XPath.Levels.{HasLevels, parse-HasLevels}

print_table_cell :
    print (new_table_cell_path (codes "r") (codes "c"))
    ≡ codes
        "/geneos/gateway/directory/probe/managedEntity/sampler/dataview/rows/row[(@name=\"r\")]/cell[(@column=\"c\")]"
unfolding print new_table_cell_path
print_table_cell = refl

-- A quotation mark inside a name is escaped by String and read back by Parse.
parse-print_quoted :
    parse (print (new_table_cell_path (codes "r") (codes "a\"b")))
    ≡ (new_table_cell_path (codes "r") (codes "a\"b"), none)
unfolding print new_table_cell_path parse
parse-print_quoted = refl

parse_wild : parse (codes "//dataview[(@name=\"d\")]") ≡ (new_dataview_path (codes "d"), none)
unfolding parse new_dataview_path
parse_wild = refl

parse_relative : parse (codes "geneos/gateway") ≡ (empty, some relative_path)
unfolding parse
parse_relative = refl

-- String does not escape a slash, so a name with one is not read back.
slash_in_name :
    (parse (print (to_xpath (at_cell [] [] [] [] [] none [] (codes "/") [])))).1 ≡ none → ⊥
unfolding print parse
slash_in_name h = cc

flags-resolve_example :
    (flags (resolve empty (of_row (record { name = [] })))
      ≡ flag_of (of_row (record { name = [] })))
    × HasNoGaps (resolve empty (of_row (record { name = [] })))
flags-resolve_example = flags-resolve empty (of_row (record { name = [] }))

abbrev some_cell : XPath
some_cell =
    to_xpath (at_cell (codes "gw") [] (codes "e") [] (codes "s") none [] (codes "r") (codes "c"))

-- A name with a backslash, and two attributes.
abbrev some_entity : Location
some_entity =
    at_entity (codes "gw") (codes "p 1") (codes "a\\b")
      ((codes "ENV", codes "x") ∷ (codes "OS", codes "y") ∷ [])

parse-print_example : parse (print (to_xpath some_entity)) ≡ (to_xpath some_entity, none)
parse-print_example =
    parse-print some_entity
      (omega arith, omega arith, omega arith, omega arith, (unfold eqb in ((refl, tt), (tt, tt))))

parse-HasLevels_example : HasLevels (to_xpath some_entity)
parse-HasLevels_example =
    parse-HasLevels (print (to_xpath some_entity)) (to_xpath some_entity) parse-print_example
