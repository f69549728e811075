-- ===== src/XPath/Lookup.antt =====
-- LookupValues (pkg/geneos/xpath/xpath.go): each early return leaves the table as it is.
use mathlib.Core.Option
use cordial.Common.{◌≡◌, Option, none, some, Bytes, codes, eqb, [], arith, if◌then◌else◌}
use cordial.Dict.{Dict, get, put}
use cordial.XPath.{Sampler, XPath}
use cordial.XPath.Resolve.{HasNoGaps}

abbrev pub Table : Type 0
Table = Dict Bytes

unfoldable pub lookup_row : XPath → Table → Table
unfolding put eqb
lookup_row x table = elim x.row [
  | none ↦ table
  | some r ↦
      let table1 = put (codes "row") r.name table in
      elim x.column [ none ↦ table1 | some c ↦ put (codes "column") c.name table1 ]
]

unfoldable pub lookup_headline : XPath → Table → Table
unfolding put eqb
lookup_headline x table = elim x.headline [
  | none ↦ table
  | some h ↦ put (codes "headline") h.name table
]

unfoldable pub lookup_dataview : XPath → Table → Table
unfolding put eqb lookup_row lookup_headline
lookup_dataview x table = elim x.dataview [
  | none ↦ table
  | some d ↦
      let table1 = put (codes "dataview") d.name table in
      if x.rows then lookup_row x table1 else lookup_headline x table1
]

unfoldable pub put_type : Option Bytes → Table → Table
unfolding put eqb
put_type none table = table
put_type (some t) table = put (codes "type") t table

unfoldable pub lookup_sampler : XPath → Table → Table
unfolding put eqb lookup_dataview put_type
lookup_sampler x table = elim x.sampler [
  | none ↦ table
  | some s ↦ lookup_dataview x (put_type s.kind (put (codes "sampler") s.name table))
]

unfoldable pub lookup_entity : XPath → Table → Table
unfolding put eqb lookup_sampler
lookup_entity x table = elim x.entity [
  | none ↦ table
  | some e ↦ lookup_sampler x (put (codes "entity") e.name table)
]

unfoldable pub lookup_probe : XPath → Table → Table
unfolding put eqb lookup_entity
lookup_probe x table = elim x.probe [
  | none ↦ table
  | some p ↦ lookup_entity x (put (codes "probe") p.name table)
]

-- LookupValues of a path that is not nil.
unfoldable pub lookup_gateway : XPath → Table
unfolding put eqb lookup_probe
lookup_gateway x = elim x.gateway [
  | none ↦ []
  | some g ↦ lookup_probe x (put (codes "gateway") g.name [])
]

-- LookupValues; `none` is the nil pointer.
unfoldable pub lookup_values : Option XPath → Table
unfolding lookup_gateway
lookup_values none = []
lookup_values (some x) = lookup_gateway x

abbrev sampler_type : Option Sampler → Option Bytes
sampler_type none = none
sampler_type (some s) = s.kind

-- What the table holds under each key.
pub record Holds (x : XPath) (table : Table) : Type 0 where
  pub gateway_value : get (codes "gateway") table ≡ Option.map (λ g. g.name) x.gateway
  pub probe_value : get (codes "probe") table ≡ Option.map (λ p. p.name) x.probe
  pub entity_value : get (codes "entity") table ≡ Option.map (λ e. e.name) x.entity
  pub sampler_value : get (codes "sampler") table ≡ Option.map (λ s. s.name) x.sampler
  pub type_value : get (codes "type") table ≡ sampler_type x.sampler
  pub dataview_value : get (codes "dataview") table ≡ Option.map (λ d. d.name) x.dataview
  pub row_value : get (codes "row") table ≡ Option.map (λ r. r.name) x.row
  pub column_value : get (codes "column") table ≡ Option.map (λ c. c.name) x.column
  pub headline_value : get (codes "headline") table ≡ Option.map (λ h. h.name) x.headline

-- For a path without gaps the table holds exactly the levels that the path has, under their keys.
lookup_values-Holds : (x : XPath) → HasNoGaps x → Holds x (lookup_values (some x))
unfolding lookup_values get eqb
lookup_values-Holds x h = ground arith
