-- ===== src/XPath.antt =====
-- pkg/geneos/xpath/xpath.go: the XPath structure, its constructors, ResolveTo and the tests of the
-- level that a path stands at. A pointer field is an `Option`; a map that may be nil is one too.
pub mod Resolve
pub mod Print
pub mod Scan
pub mod Parse
pub mod Lookup
pub mod Quote
pub mod Component
pub mod Attribute
pub mod Reading
pub mod Attributes
pub mod Location
pub mod Printed
mod NoSlash
mod Fills
pub mod Levels
pub mod RoundTrip
pub mod Wildcard
mod Samples
use cordial.Common.{Bool, true, false, not, ◌&&◌, Option, none, some, [], Bytes, is_some}
use cordial.Dict.{Dict}

pub record Gateway : Type 0 where
  pub name : Bytes

pub record Probe : Type 0 where
  pub name : Bytes

pub record Entity : Type 0 where
  pub name : Bytes
  pub attributes : Option (Dict Bytes)

pub record Sampler : Type 0 where
  pub name : Bytes
  pub kind : Option Bytes

pub record Dataview : Type 0 where
  pub name : Bytes

pub record Headline : Type 0 where
  pub name : Bytes

pub record Row : Type 0 where
  pub name : Bytes

pub record Column : Type 0 where
  pub name : Bytes

pub record XPath : Type 0 where
  pub gateway : Option Gateway
  pub probe : Option Probe
  pub entity : Option Entity
  pub sampler : Option Sampler
  pub dataview : Option Dataview
  pub rows : Bool
  pub headline : Option Headline
  pub row : Option Row
  pub column : Option Column

-- &XPath{}
abbrev pub empty : XPath
empty = record {
  gateway = none;
  probe = none;
  entity = none;
  sampler = none;
  dataview = none;
  rows = false;
  headline = none;
  row = none;
  column = none;
}

-- The argument of ResolveTo, behind its pointers: one of the structures, or any other value.
pub data Element : Type 0 where
  of_gateway : Gateway → Element
  of_probe : Probe → Element
  of_entity : Entity → Element
  of_sampler : Sampler → Element
  of_dataview : Dataview → Element
  of_headline : Headline → Element
  of_row : Row → Element
  of_column : Column → Element
  unknown : Element

-- if v == nil { v = e }
abbrev pub or_else {ℓ} : {A : Type ℓ} → Option A → A → Option A
or_else (some a) _ = some a
or_else none e = some e

abbrev no_attributes : Entity
no_attributes = record { name = []; attributes = some [] }

-- A nil attribute map of the element becomes an empty map.
unfoldable pub with_attributes : Entity → Entity
with_attributes e = record e { attributes = or_else e.attributes [] }

unfoldable pub resolve_gateway : XPath → Gateway → XPath
resolve_gateway x e = record empty { gateway = or_else x.gateway e }

unfoldable pub resolve_probe : XPath → Probe → XPath
resolve_probe x e = record empty {
  gateway = or_else x.gateway (record { name = [] });
  probe = or_else x.probe e;
}

unfoldable pub resolve_entity : XPath → Entity → XPath
unfolding with_attributes
resolve_entity x e = record empty {
  gateway = or_else x.gateway (record { name = [] });
  probe = or_else x.probe (record { name = [] });
  entity = or_else x.entity (with_attributes e);
}

unfoldable pub resolve_sampler : XPath → Sampler → XPath
resolve_sampler x e = record empty {
  gateway = or_else x.gateway (record { name = [] });
  probe = or_else x.probe (record { name = [] });
  entity = or_else x.entity no_attributes;
  sampler = or_else x.sampler e;
}

unfoldable pub resolve_dataview : XPath → Dataview → XPath
resolve_dataview x e = record empty {
  gateway = or_else x.gateway (record { name = [] });
  probe = or_else x.probe (record { name = [] });
  entity = or_else x.entity no_attributes;
  sampler = or_else x.sampler (record { name = []; kind = none });
  dataview = or_else x.dataview e;
}

unfoldable pub resolve_headline : XPath → Headline → XPath
resolve_headline x e = record empty {
  gateway = or_else x.gateway (record { name = [] });
  probe = or_else x.probe (record { name = [] });
  entity = or_else x.entity no_attributes;
  sampler = or_else x.sampler (record { name = []; kind = none });
  dataview = or_else x.dataview (record { name = [] });
  rows = false;
  headline = or_else x.headline e;
}

unfoldable pub resolve_row : XPath → Row → XPath
resolve_row x e = record empty {
  gateway = or_else x.gateway (record { name = [] });
  probe = or_else x.probe (record { name = [] });
  entity = or_else x.entity no_attributes;
  sampler = or_else x.sampler (record { name = []; kind = none });
  dataview = or_else x.dataview (record { name = [] });
  rows = true;
  row = or_else x.row e;
}

unfoldable pub resolve_column : XPath → Column → XPath
resolve_column x e = record empty {
  gateway = or_else x.gateway (record { name = [] });
  probe = or_else x.probe (record { name = [] });
  entity = or_else x.entity no_attributes;
  sampler = or_else x.sampler (record { name = []; kind = none });
  dataview = or_else x.dataview (record { name = [] });
  rows = true;
  row = or_else x.row (record { name = [] });
  column = or_else x.column e;
}

-- The type switch of ResolveTo, for an element that is not nil.
unfoldable pub resolve : XPath → Element → XPath
unfolding resolve_gateway resolve_probe resolve_entity resolve_sampler resolve_dataview
    resolve_headline resolve_row resolve_column
resolve x (of_gateway e) = resolve_gateway x e
resolve x (of_probe e) = resolve_probe x e
resolve x (of_entity e) = resolve_entity x e
resolve x (of_sampler e) = resolve_sampler x e
resolve x (of_dataview e) = resolve_dataview x e
resolve x (of_headline e) = resolve_headline x e
resolve x (of_row e) = resolve_row x e
resolve x (of_column e) = resolve_column x e
resolve x unknown = empty

-- ResolveTo: nil for nil.
unfoldable pub resolve_to : XPath → Option Element → Option XPath
unfolding resolve
resolve_to x none = none
resolve_to x (some e) = some (resolve x e)

-- New
unfoldable pub new : Option Element → XPath
unfolding resolve_to
new e = elim (resolve_to empty e) [ some r ↦ r | none ↦ empty ]

-- NewDataviewPath
unfoldable pub new_dataview_path : Bytes → XPath
unfolding new
new_dataview_path n = new (some (of_dataview (record { name = n })))

-- NewTableCellPath
unfoldable pub new_table_cell_path : Bytes → Bytes → XPath
unfolding new
new_table_cell_path r c =
    let x = new (some (of_column (record { name = c }))) in
    record x { rows = true; row = some (record { name = r }) }

-- NewHeadlinePath
unfoldable pub new_headline_path : Bytes → XPath
unfolding new
new_headline_path n = new (some (of_headline (record { name = n })))

-- SetGatewayName
unfoldable pub set_gateway_name : XPath → Bytes → XPath
set_gateway_name x n = record x { gateway = some (record { name = n }) }

unfoldable pub is_empty : XPath → Bool
is_empty x = not (is_some x.gateway)

unfoldable pub is_table_cell : XPath → Bool
is_table_cell x = x.rows && is_some x.row && is_some x.column

unfoldable pub is_headline : XPath → Bool
is_headline x = is_some x.headline && not (is_some x.row)

unfoldable pub is_dataview : XPath → Bool
is_dataview x = is_some x.dataview && not (is_some x.headline) && not (is_some x.row)

unfoldable pub is_sampler : XPath → Bool
is_sampler x = is_some x.sampler && not (is_some x.dataview)

unfoldable pub is_entity : XPath → Bool
is_entity x = is_some x.entity && not (is_some x.sampler)

unfoldable pub is_probe : XPath → Bool
is_probe x = is_some x.probe && not (is_some x.entity)

unfoldable pub is_gateway : XPath → Bool
is_gateway x = is_some x.gateway && not (is_some x.probe)
