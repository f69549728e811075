-- ===== src/XPath/Print.antt =====
-- XPath.String (pkg/geneos/xpath/xpath.go): each early return of the method is the empty rest of
-- the text at that level.
use cordial.Common.{Option, none, some, Bytes, codes, [], ◌∷◌, ◌++◌, if◌then◌else◌}
use cordial.Dict.{Dict}
use cordial.XPath.{XPath}
use cordial.XPath.Quote.{quote}

-- A predicate that is left out for the empty name.
unfoldable pub name_predicate : Bytes → Bytes
name_predicate [] = []
name_predicate (c ∷ n) = codes "[(@name=" ++ (quote (c ∷ n) ++ codes ")]")

unfoldable pub column_predicate : Bytes → Bytes
column_predicate [] = []
column_predicate (c ∷ n) = codes "[(@column=" ++ (quote (c ∷ n) ++ codes ")]")

unfoldable pub type_predicate : Option Bytes → Bytes
type_predicate none = []
type_predicate (some t) = codes "[(@type=" ++ (quote t ++ codes ")]")

-- for k, v := range x.Entity.Attributes
unfoldable pub attribute_predicates : Dict Bytes → Bytes
attribute_predicates [] = []
attribute_predicates ((k, v) ∷ m) =
    codes "[(attr("
    ++ (quote k ++ (codes ")=" ++ (quote v ++ (codes ")]" ++ attribute_predicates m))))

abbrev pub entries : Option (Dict Bytes) → Dict Bytes
entries none = []
entries (some m) = m

unfoldable pub print_column : XPath → Bytes
unfolding column_predicate
print_column x = elim x.column [ none ↦ [] | some c ↦ codes "/cell" ++ column_predicate c.name ]

unfoldable pub print_row : XPath → Bytes
unfolding print_column name_predicate
print_row x = elim x.row [
  | none ↦ []
  | some r ↦ codes "/row" ++ (name_predicate r.name ++ print_column x)
]

abbrev headline_cell : Bytes → Bytes
headline_cell [] = []
headline_cell (c ∷ n) = codes "/cell" ++ name_predicate (c ∷ n)

unfoldable pub print_headline : XPath → Bytes
unfolding name_predicate
print_headline x = elim x.headline [
  | none ↦ []
  | some h ↦ codes "/headlines" ++ headline_cell h.name
]

unfoldable pub print_cells : XPath → Bytes
unfolding print_row print_headline
print_cells x = if x.rows then codes "/rows" ++ print_row x else print_headline x

unfoldable pub print_dataview : XPath → Bytes
unfolding print_cells name_predicate
print_dataview x = elim x.dataview [
  | none ↦ []
  | some d ↦ codes "/dataview" ++ (name_predicate d.name ++ print_cells x)
]

unfoldable pub print_sampler : XPath → Bytes
unfolding print_dataview name_predicate type_predicate
print_sampler x = elim x.sampler [
  | none ↦ []
  | some s ↦
      codes "/sampler" ++ (name_predicate s.name ++ (type_predicate s.kind ++ print_dataview x))
]

unfoldable pub print_entity : XPath → Bytes
unfolding print_sampler name_predicate attribute_predicates
print_entity x = elim x.entity [
  | none ↦ []
  | some e ↦
      codes "/managedEntity"
      ++ (name_predicate e.name ++ (attribute_predicates (entries e.attributes) ++ print_sampler x))
]

unfoldable pub print_probe : XPath → Bytes
unfolding print_entity name_predicate
print_probe x = elim x.probe [
  | none ↦ []
  | some p ↦ codes "/probe" ++ (name_predicate p.name ++ print_entity x)
]

-- XPath.String
unfoldable pub print : XPath → Bytes
unfolding print_probe name_predicate quote
print x = elim x.gateway [
  | none ↦ []
  | some g ↦
      codes "/geneos/gateway" ++ (name_predicate g.name ++ (codes "/directory" ++ print_probe x))
]
