-- ===== src/XPath/Resolve.antt =====
-- What ResolveTo returns, for every path and element (pkg/geneos/xpath/xpath.go).
use cordial.Common.{◌≡◌, Bool, true, false, not, ◌||◌, arith, is_some}
use cordial.XPath.{
  XPath, Element, of_gateway, of_probe, of_entity, of_sampler, of_dataview, of_headline, of_row,
  of_column, unknown, resolve, is_table_cell, is_headline, is_dataview, is_sampler, is_entity,
  is_probe, is_gateway,
}

-- The seven tests, from IsGateway down to IsTableCell.
pub record Flags : Type 0 where
  pub at_gateway : Bool
  pub at_probe : Bool
  pub at_entity : Bool
  pub at_sampler : Bool
  pub at_dataview : Bool
  pub at_headline : Bool
  pub at_table_cell : Bool

abbrev no_flag : Flags
no_flag = record {
  at_gateway = false;
  at_probe = false;
  at_entity = false;
  at_sampler = false;
  at_dataview = false;
  at_headline = false;
  at_table_cell = false;
}

abbrev pub flags : XPath → Flags
flags x = record {
  at_gateway = is_gateway x;
  at_probe = is_probe x;
  at_entity = is_entity x;
  at_sampler = is_sampler x;
  at_dataview = is_dataview x;
  at_headline = is_headline x;
  at_table_cell = is_table_cell x;
}

-- The one test that an element of each type answers; a row and a value of another type have none.
abbrev pub flag_of : Element → Flags
flag_of (of_gateway _) = record no_flag { at_gateway = true }
flag_of (of_probe _) = record no_flag { at_probe = true }
flag_of (of_entity _) = record no_flag { at_entity = true }
flag_of (of_sampler _) = record no_flag { at_sampler = true }
flag_of (of_dataview _) = record no_flag { at_dataview = true }
flag_of (of_headline _) = record no_flag { at_headline = true }
flag_of (of_row _) = no_flag
flag_of (of_column _) = record no_flag { at_table_cell = true }
flag_of unknown = no_flag

abbrev implies : Bool → Bool → Bool
implies a b = not a || b

-- Every level that is there has the levels above it, and a path has rows or a headline, not both.
pub record HasNoGaps (x : XPath) : Type 0 where
  pub probe_needs : implies (is_some x.probe) (is_some x.gateway) ≡ true
  pub entity_needs : implies (is_some x.entity) (is_some x.probe) ≡ true
  pub sampler_needs : implies (is_some x.sampler) (is_some x.entity) ≡ true
  pub dataview_needs : implies (is_some x.dataview) (is_some x.sampler) ≡ true
  pub headline_needs : implies (is_some x.headline) (is_some x.dataview) ≡ true
  pub row_needs : implies (is_some x.row) (is_some x.dataview) ≡ true
  pub column_needs : implies (is_some x.column) (is_some x.row) ≡ true
  pub rows_for_row : implies (is_some x.row) x.rows ≡ true
  pub one_branch : implies (is_some x.headline) (not x.rows) ≡ true

-- The resolved path has no gap between its levels, also where the given path had some.
resolve-HasNoGaps : (x : XPath) (e : Element) → HasNoGaps (resolve x e)
unfolding resolve
resolve-HasNoGaps x (of_gateway e) = ground arith
resolve-HasNoGaps x _ = ground arith

-- Whatever the path was, resolving it to an element gives a path that answers exactly the test of the
-- element's type, so that the levels below are gone; and every level that is there has the levels above
-- it, also where the given path had not.
pub flags-resolve :
    (x : XPath) (e : Element) → (flags (resolve x e) ≡ flag_of e) × HasNoGaps (resolve x e)
unfolding resolve is_table_cell is_headline is_dataview is_sampler is_entity is_probe is_gateway
flags-resolve x e = (answers e, resolve-HasNoGaps x e)
  where
    answers : (f : Element) → flags (resolve x f) ≡ flag_of f
    answers (of_gateway f) = ground arith
    answers _ = ground arith

-- Two elements of the same type.
abbrev pub SameType : Element → Element → Type 0
SameType (of_gateway _) (of_gateway _) = Unit
SameType (of_probe _) (of_probe _) = Unit
SameType (of_entity _) (of_entity _) = Unit
SameType (of_sampler _) (of_sampler _) = Unit
SameType (of_dataview _) (of_dataview _) = Unit
SameType (of_headline _) (of_headline _) = Unit
SameType (of_row _) (of_row _) = Unit
SameType (of_column _) (of_column _) = Unit
SameType unknown unknown = Unit
SameType _ _ = ⊥

-- Resolving again to an element of the same type changes nothing: the element that is there stays.
pub resolve_twice :
    (x : XPath) (e f : Element) → SameType e f → resolve (resolve x e) f ≡ resolve x e
unfolding resolve
resolve_twice x (of_gateway e) (of_gateway f) h = ground arith
resolve_twice x (of_probe e) (of_probe f) h = ground arith
resolve_twice x (of_entity e) (of_entity f) h = ground arith
resolve_twice x (of_sampler e) (of_sampler f) h = ground arith
resolve_twice x (of_dataview e) (of_dataview f) h = ground arith
resolve_twice x (of_headline e) (of_headline f) h = ground arith
resolve_twice x (of_row e) (of_row f) h = ground arith
resolve_twice x (of_column e) (of_column f) h = ground arith
resolve_twice x unknown unknown h = ground arith
resolve_twice x _ _ h = elim h [ ]
