-- ===== src/XPath/Fills.antt =====
-- The levels that each case of the walk of Parse fills in (pkg/geneos/xpath/xpath.go).
use cordial.Common.{
  true, ◌≡◌, Bool, none, some, List, Bytes, codes, [], ◌∷◌, arith, is_some, if◌then◌else◌,
}
use cordial.XPath.{Entity, Sampler, Dataview, XPath}
use cordial.XPath.Parse.{
  case_1, case_2, case_3, case_4, case_5, case_6, case_7, case_8, case_9, invalid_path,
}
use cordial.XPath.Scan.{attr_or_empty}

pub case_1-fills : (ps : List Bytes) (x : XPath) → (case_1 ps x).1 ≡ none → (case_1 ps x).0 ≡ x
unfolding case_1
case_1-fills [] x h = cc
case_1-fills (p ∷ ps) x h = ground arith

pub case_2-fills : (ps : List Bytes) (x : XPath) → (case_2 ps x).1 ≡ none → (case_2 ps x).0 ≡ x
unfolding case_2
case_2-fills [] x h = cc
case_2-fills (p ∷ ps) x h = ground (arith, case_1-fills ps x)

pub case_3-fills :
    (ps : List Bytes) (x : XPath)
    → (case_3 ps x).1 ≡ none
    → ((case_3 ps x).0 ≡ record x { gateway = (case_3 ps x).0.gateway })
      × (is_some (case_3 ps x).0.gateway ≡ true)
unfolding case_3
case_3-fills [] x h = cc
case_3-fills (p ∷ ps) x h = ground (
  arith,
  case_2-fills ps (record x { gateway = some (record { name = attr_or_empty p (codes "name") }) }),
)

pub case_4-fills :
    (ps : List Bytes) (x : XPath)
    → (case_4 ps x).1 ≡ none
    → ((case_4 ps x).0 ≡ record x { gateway = (case_4 ps x).0.gateway })
      × (is_some (case_4 ps x).0.gateway ≡ true)
unfolding case_4
case_4-fills [] x h = cc
case_4-fills (p ∷ ps) x h = ground (arith, case_3-fills ps x)

pub case_5-fills :
    (ps : List Bytes) (x : XPath)
    → (case_5 ps x).1 ≡ none
    → ((case_5 ps x).0
        ≡ record x { gateway = (case_5 ps x).0.gateway; probe = (case_5 ps x).0.probe })
      × (is_some (case_5 ps x).0.gateway ≡ true)
      × (is_some (case_5 ps x).0.probe ≡ true)
unfolding case_5
case_5-fills [] x h = cc
case_5-fills (p ∷ ps) x h = ground (
  arith,
  case_4-fills ps (record x { probe = some (record { name = attr_or_empty p (codes "name") }) }),
)

case_6-step :
    (b : Bool) (v : Entity) (ps : List Bytes) (x : XPath)
    → let r = if b then case_5 ps (record x { entity = some v }) else (x, some invalid_path) in
      r.1 ≡ none
      → (r.0 ≡ record x { gateway = r.0.gateway; probe = r.0.probe; entity = r.0.entity })
        × (is_some r.0.gateway ≡ true)
        × (is_some r.0.probe ≡ true)
        × (is_some r.0.entity ≡ true)
case_6-step b v ps x h = ground (arith, case_5-fills ps (record x { entity = some v }))

pub case_6-fills :
    (ps : List Bytes) (x : XPath)
    → (case_6 ps x).1 ≡ none
    → ((case_6 ps x).0 ≡ record x {
      gateway = (case_6 ps x).0.gateway;
      probe = (case_6 ps x).0.probe;
      entity = (case_6 ps x).0.entity;
    })
      × (is_some (case_6 ps x).0.gateway ≡ true)
      × (is_some (case_6 ps x).0.probe ≡ true)
      × (is_some (case_6 ps x).0.entity ≡ true)
unfolding case_6
case_6-fills [] x h = cc
case_6-fills (p ∷ ps) x h = case_6-step _ _ ps x h

case_7-step :
    (b : Bool) (v : Sampler) (ps : List Bytes) (x : XPath)
    → let r = if b then case_6 ps (record x { sampler = some v }) else (x, some invalid_path) in
      r.1 ≡ none
      → (r.0 ≡ record x {
        gateway = r.0.gateway;
        probe = r.0.probe;
        entity = r.0.entity;
        sampler = r.0.sampler;
      })
        × (is_some r.0.gateway ≡ true)
        × (is_some r.0.probe ≡ true)
        × (is_some r.0.entity ≡ true)
        × (is_some r.0.sampler ≡ true)
case_7-step b v ps x h = ground (arith, case_6-fills ps (record x { sampler = some v }))

pub case_7-fills :
    (ps : List Bytes) (x : XPath)
    → (case_7 ps x).1 ≡ none
    → ((case_7 ps x).0 ≡ record x {
      gateway = (case_7 ps x).0.gateway;
      probe = (case_7 ps x).0.probe;
      entity = (case_7 ps x).0.entity;
      sampler = (case_7 ps x).0.sampler;
    })
      × (is_some (case_7 ps x).0.gateway ≡ true)
      × (is_some (case_7 ps x).0.probe ≡ true)
      × (is_some (case_7 ps x).0.entity ≡ true)
      × (is_some (case_7 ps x).0.sampler ≡ true)
unfolding case_7
case_7-fills [] x h = cc
case_7-fills (p ∷ ps) x h = case_7-step _ _ ps x h

case_8-step :
    (b : Bool) (v : Dataview) (ps : List Bytes) (x : XPath)
    → let r = if b then case_7 ps (record x { dataview = some v }) else (x, some invalid_path) in
      r.1 ≡ none
      → (r.0 ≡ record x {
        gateway = r.0.gateway;
        probe = r.0.probe;
        entity = r.0.entity;
        sampler = r.0.sampler;
        dataview = r.0.dataview;
      })
        × (is_some r.0.gateway ≡ true)
        × (is_some r.0.probe ≡ true)
        × (is_some r.0.entity ≡ true)
        × (is_some r.0.sampler ≡ true)
        × (is_some r.0.dataview ≡ true)
case_8-step b v ps x h = ground (arith, case_7-fills ps (record x { dataview = some v }))

pub case_8-fills :
    (ps : List Bytes) (x : XPath)
    → (case_8 ps x).1 ≡ none
    → ((case_8 ps x).0 ≡ record x {
      gateway = (case_8 ps x).0.gateway;
      probe = (case_8 ps x).0.probe;
      entity = (case_8 ps x).0.entity;
      sampler = (case_8 ps x).0.sampler;
      dataview = (case_8 ps x).0.dataview;
    })
      × (is_some (case_8 ps x).0.gateway ≡ true)
      × (is_some (case_8 ps x).0.probe ≡ true)
      × (is_some (case_8 ps x).0.entity ≡ true)
      × (is_some (case_8 ps x).0.sampler ≡ true)
      × (is_some (case_8 ps x).0.dataview ≡ true)
unfolding case_8
case_8-fills [] x h = cc
case_8-fills (p ∷ ps) x h = case_8-step _ _ ps x h

pub case_9-fills :
    (ps : List Bytes) (x : XPath)
    → (case_9 ps x).1 ≡ none
    → ((case_9 ps x).0 ≡ record x {
      gateway = (case_9 ps x).0.gateway;
      probe = (case_9 ps x).0.probe;
      entity = (case_9 ps x).0.entity;
      sampler = (case_9 ps x).0.sampler;
      dataview = (case_9 ps x).0.dataview;
    })
      × (is_some (case_9 ps x).0.gateway ≡ true)
      × (is_some (case_9 ps x).0.probe ≡ true)
      × (is_some (case_9 ps x).0.entity ≡ true)
      × (is_some (case_9 ps x).0.sampler ≡ true)
      × (is_some (case_9 ps x).0.dataview ≡ true)
unfolding case_9
case_9-fills [] x h = cc
case_9-fills (p ∷ ps) x h = ground (arith, case_8-fills ps x)
