-- ===== src/XPath/Location.antt =====
-- The places in a Geneos system that a path without gaps names, as an abstract view of the XPath
-- structure of pkg/geneos/xpath/xpath.go, and the raw parts of the text of each.
use cordial.Common.{◌≢◌, true, Option, some, List, Bytes, codes, [], ◌∷◌, ◌++◌, All}
use cordial.Dict.{Dict, Distinct}
use cordial.XPath.{XPath, empty}
use cordial.XPath.Component.{Plain}
use cordial.XPath.Attribute.{
  raw_name, raw_column, raw_type, raw_attributes, PlainKind, PlainEntries,
}

-- The names of the levels; an entity has attributes and a sampler may have a type.
pub data Location : Type 0 where
  at_gateway : (g : Bytes) → Location
  at_probe : (g p : Bytes) → Location
  at_entity : (g p e : Bytes) (m : Dict Bytes) → Location
  at_sampler : (g p e : Bytes) (m : Dict Bytes) (s : Bytes) (t : Option Bytes) → Location
  at_dataview :
      (g p e : Bytes) (m : Dict Bytes) (s : Bytes) (t : Option Bytes) (d : Bytes) → Location
  at_headline :
      (g p e : Bytes) (m : Dict Bytes) (s : Bytes) (t : Option Bytes) (d h : Bytes) → Location
  at_row : (g p e : Bytes) (m : Dict Bytes) (s : Bytes) (t : Option Bytes) (d r : Bytes) → Location
  at_cell :
      (g p e : Bytes) (m : Dict Bytes) (s : Bytes) (t : Option Bytes) (d r c : Bytes) → Location

-- The path that names the place.
abbrev pub to_xpath : Location → XPath
to_xpath (at_gateway g) = record empty { gateway = some (record { name = g }) }
to_xpath (at_probe g p) = record empty {
  gateway = some (record { name = g });
  probe = some (record { name = p });
}
to_xpath (at_entity g p e m) = record empty {
  gateway = some (record { name = g });
  probe = some (record { name = p });
  entity = some (record { name = e; attributes = some m });
}
to_xpath (at_sampler g p e m s t) = record empty {
  gateway = some (record { name = g });
  probe = some (record { name = p });
  entity = some (record { name = e; attributes = some m });
  sampler = some (record { name = s; kind = t });
}
to_xpath (at_dataview g p e m s t d) = record empty {
  gateway = some (record { name = g });
  probe = some (record { name = p });
  entity = some (record { name = e; attributes = some m });
  sampler = some (record { name = s; kind = t });
  dataview = some (record { name = d });
}
to_xpath (at_headline g p e m s t d h) = record empty {
  gateway = some (record { name = g });
  probe = some (record { name = p });
  entity = some (record { name = e; attributes = some m });
  sampler = some (record { name = s; kind = t });
  dataview = some (record { name = d });
  headline = some (record { name = h });
}
to_xpath (at_row g p e m s t d r) = record empty {
  gateway = some (record { name = g });
  probe = some (record { name = p });
  entity = some (record { name = e; attributes = some m });
  sampler = some (record { name = s; kind = t });
  dataview = some (record { name = d });
  rows = true;
  row = some (record { name = r });
}
to_xpath (at_cell g p e m s t d r c) = record empty {
  gateway = some (record { name = g });
  probe = some (record { name = p });
  entity = some (record { name = e; attributes = some m });
  sampler = some (record { name = s; kind = t });
  dataview = some (record { name = d });
  rows = true;
  row = some (record { name = r });
  column = some (record { name = c });
}

-- The parts of its text, behind the first slash, without the escapes.
abbrev pub parts : Location → List Bytes
parts (at_gateway g) = codes "geneos" ∷ (codes "gateway" ++ raw_name g) ∷ codes "directory" ∷ []
parts (at_probe g p) =
    codes "geneos"
    ∷ (codes "gateway" ++ raw_name g)
    ∷ codes "directory"
    ∷ (codes "probe" ++ raw_name p)
    ∷ []
parts (at_entity g p e m) =
    codes "geneos"
    ∷ (codes "gateway" ++ raw_name g)
    ∷ codes "directory"
    ∷ (codes "probe" ++ raw_name p)
    ∷ (codes "managedEntity" ++ (raw_name e ++ raw_attributes m))
    ∷ []
parts (at_sampler g p e m s t) =
    codes "geneos"
    ∷ (codes "gateway" ++ raw_name g)
    ∷ codes "directory"
    ∷ (codes "probe" ++ raw_name p)
    ∷ (codes "managedEntity" ++ (raw_name e ++ raw_attributes m))
    ∷ (codes "sampler" ++ (raw_name s ++ raw_type t))
    ∷ []
parts (at_dataview g p e m s t d) =
    codes "geneos"
    ∷ (codes "gateway" ++ raw_name g)
    ∷ codes "directory"
    ∷ (codes "probe" ++ raw_name p)
    ∷ (codes "managedEntity" ++ (raw_name e ++ raw_attributes m))
    ∷ (codes "sampler" ++ (raw_name s ++ raw_type t))
    ∷ (codes "dataview" ++ raw_name d)
    ∷ []
parts (at_headline g p e m s t d h) =
    codes "geneos"
    ∷ (codes "gateway" ++ raw_name g)
    ∷ codes "directory"
    ∷ (codes "probe" ++ raw_name p)
    ∷ (codes "managedEntity" ++ (raw_name e ++ raw_attributes m))
    ∷ (codes "sampler" ++ (raw_name s ++ raw_type t))
    ∷ (codes "dataview" ++ raw_name d)
    ∷ codes "headlines"
    ∷ (codes "cell" ++ raw_name h)
    ∷ []
parts (at_row g p e m s t d r) =
    codes "geneos"
    ∷ (codes "gateway" ++ raw_name g)
    ∷ codes "directory"
    ∷ (codes "probe" ++ raw_name p)
    ∷ (codes "managedEntity" ++ (raw_name e ++ raw_attributes m))
    ∷ (codes "sampler" ++ (raw_name s ++ raw_type t))
    ∷ (codes "dataview" ++ raw_name d)
    ∷ codes "rows"
    ∷ (codes "row" ++ raw_name r)
    ∷ []
parts (at_cell g p e m s t d r c) =
    codes "geneos"
    ∷ (codes "gateway" ++ raw_name g)
    ∷ codes "directory"
    ∷ (codes "probe" ++ raw_name p)
    ∷ (codes "managedEntity" ++ (raw_name e ++ raw_attributes m))
    ∷ (codes "sampler" ++ (raw_name s ++ raw_type t))
    ∷ (codes "dataview" ++ raw_name d)
    ∷ codes "rows"
    ∷ (codes "row" ++ raw_name r)
    ∷ (codes "cell" ++ raw_column c)
    ∷ []

-- The names hold plain characters only, the attributes are a map, and a headline has a name.
abbrev pub IsPlain : Location → Type 0
IsPlain (at_gateway g) = All Plain g
IsPlain (at_probe g p) = All Plain g × All Plain p
IsPlain (at_entity g p e m) = All Plain g × All Plain p × All Plain e × PlainEntries m × Distinct m
IsPlain (at_sampler g p e m s t) =
    All Plain g
    × All Plain p
    × All Plain e
    × PlainEntries m
    × Distinct m
    × All Plain s
    × PlainKind t
IsPlain (at_dataview g p e m s t d) =
    All Plain g
    × All Plain p
    × All Plain e
    × PlainEntries m
    × Distinct m
    × All Plain s
    × PlainKind t
    × All Plain d
IsPlain (at_headline g p e m s t d h) =
    All Plain g
    × All Plain p
    × All Plain e
    × PlainEntries m
    × Distinct m
    × All Plain s
    × PlainKind t
    × All Plain d
    × All Plain h
    × (h ≢ [])
IsPlain (at_row g p e m s t d r) =
    All Plain g
    × All Plain p
    × All Plain e
    × PlainEntries m
    × Distinct m
    × All Plain s
    × PlainKind t
    × All Plain d
    × All Plain r
IsPlain (at_cell g p e m s t d r c) =
    All Plain g
    × All Plain p
    × All Plain e
    × PlainEntries m
    × Distinct m
    × All Plain s
    × PlainKind t
    × All Plain d
    × All Plain r
    × All Plain c
