-- ===== src/XPath/Levels.antt =====
-- What a successful Parse guarantees of the path that it returns (pkg/geneos/xpath/xpath.go).
use mathlib.Core.Path.{subst}
use mathlib.Core.List.{reverse}
use cordial.Text.{has_prefix, first_field, is_letter}
use cordial.Common.{
  ℕ, ap, drop, true, false, eqb, ◌≡◌, refl, Bool, ◌||◌, not, none, some, List, Bytes, codes, [],
  ◌∷◌, arith, is_some, length, ◌==◌, if◌then◌else◌,
}
use cordial.XPath.{XPath, empty}
use cordial.XPath.Parse.{
  case_3, case_4, case_5, case_6, case_7, case_8, case_9, case_10, case_11, walk, walk_from, parse,
  fill_in, Parsed,
}
use cordial.XPath.Scan.{attr_or_empty, split_with_escaping}
use cordial.XPath.Fills.{
  case_1-fills, case_2-fills, case_3-fills, case_4-fills, case_5-fills, case_6-fills, case_7-fills,
  case_8-fills, case_9-fills,
}

abbrev implies : Bool → Bool → Bool
implies a b = not a || b

-- Every level down to the dataview has the levels above it; a headline or a row has a dataview, and
-- a column stands in a row or a headline. A path with a row has the rows flag.
pub record HasLevels (x : XPath) : Type 0 where
  pub probe_needs : implies (is_some x.probe) (is_some x.gateway) ≡ true
  pub entity_needs : implies (is_some x.entity) (is_some x.probe) ≡ true
  pub sampler_needs : implies (is_some x.sampler) (is_some x.entity) ≡ true
  pub dataview_needs : implies (is_some x.dataview) (is_some x.sampler) ≡ true
  pub row_needs : implies (is_some x.row || is_some x.headline) (is_some x.dataview) ≡ true
  pub column_needs : implies (is_some x.column) (is_some x.row || is_some x.headline) ≡ true
  pub rows_for_row : implies (is_some x.row) x.rows ≡ true

case_9-HasLevels :
    (ps : List Bytes) (x : XPath)
    → (is_some x.row || is_some x.headline || not (is_some x.column)) ≡ true
    → implies (is_some x.row) x.rows ≡ true
    → (case_9 ps x).1 ≡ none
    → HasLevels (case_9 ps x).0
case_9-HasLevels ps x c r h = ground (arith, case_9-fills ps x h)

case_10-HasLevels :
    (ps : List Bytes) (x : XPath)
    → x.row ≡ none
    → (case_10 ps x).1 ≡ none
    → HasLevels (case_10 ps x).0
unfolding case_10
case_10-HasLevels [] x r h = cc
case_10-HasLevels (p ∷ ps) x r h = ground (
  arith,
  case_9-HasLevels ps
      (record x { rows = true; row = some (record { name = attr_or_empty p (codes "name") }) }),
  case_9-HasLevels ps
      (record x { headline = some (record { name = attr_or_empty p (codes "name") }) }),
)

case_11-HasLevels : (ps : List Bytes) → (case_11 ps empty).1 ≡ none → HasLevels (case_11 ps empty).0
unfolding case_11
case_11-HasLevels [] h = cc
case_11-HasLevels (p ∷ ps) h = ground (
  arith,
  case_10-HasLevels ps
      (record empty { column = some (record { name = attr_or_empty p (codes "column") }) }),
)

short-HasLevels : (x : XPath) → x ≡ empty → HasLevels x
short-HasLevels x e = ground arith

case_8-HasLevels : (ps : List Bytes) → (case_8 ps empty).1 ≡ none → HasLevels (case_8 ps empty).0
case_8-HasLevels ps h = ground (arith, case_8-fills ps empty h)

case_7-HasLevels : (ps : List Bytes) → (case_7 ps empty).1 ≡ none → HasLevels (case_7 ps empty).0
case_7-HasLevels ps h = ground (arith, case_7-fills ps empty h)

case_6-HasLevels : (ps : List Bytes) → (case_6 ps empty).1 ≡ none → HasLevels (case_6 ps empty).0
case_6-HasLevels ps h = ground (arith, case_6-fills ps empty h)

case_5-HasLevels : (ps : List Bytes) → (case_5 ps empty).1 ≡ none → HasLevels (case_5 ps empty).0
case_5-HasLevels ps h = ground (arith, case_5-fills ps empty h)

case_4-HasLevels : (ps : List Bytes) → (case_4 ps empty).1 ≡ none → HasLevels (case_4 ps empty).0
case_4-HasLevels ps h = ground (arith, case_4-fills ps empty h)

case_3-HasLevels : (ps : List Bytes) → (case_3 ps empty).1 ≡ none → HasLevels (case_3 ps empty).0
case_3-HasLevels ps h = ground (arith, case_3-fills ps empty h)

-- Reading a result through a test, whichever branch is taken.
pub record Succeeds (r : Parsed) : Type 0 where
  pub levels : r.1 ≡ none → HasLevels r.0

Succeeds-if : (b : Bool) {r t : Parsed} → Succeeds r → Succeeds t → Succeeds (if b then r else t)
Succeeds-if true hr ht = hr
Succeeds-if false hr ht = ht

walk_from-Succeeds : (n : ℕ) (ps : List Bytes) → Succeeds (walk_from n ps)
walk_from-Succeeds n ps =
    Succeeds-if (n == 11) (record { levels = case_11-HasLevels ps })
      (Succeeds-if (n == 10) (record { levels = case_10-HasLevels ps empty refl })
        (Succeeds-if (n == 9) (record { levels = case_9-HasLevels ps empty refl refl })
          (Succeeds-if (n == 8) (record { levels = case_8-HasLevels ps })
            (Succeeds-if (n == 7) (record { levels = case_7-HasLevels ps })
              (Succeeds-if (n == 6) (record { levels = case_6-HasLevels ps })
                (Succeeds-if (n == 5) (record { levels = case_5-HasLevels ps })
                  (Succeeds-if (n == 4) (record { levels = case_4-HasLevels ps })
                    (Succeeds-if (n == 3) (record { levels = case_3-HasLevels ps })
                      (Succeeds-if (n == 2)
                        (record { levels = λ h. short-HasLevels _ (case_2-fills ps empty h) })
                        (Succeeds-if (n == 1)
                          (record { levels = λ h. short-HasLevels _ (case_1-fills ps empty h) })
                          (record { levels = λ h. absurd (cc) })))))))))))

walk-Succeeds : (ps : List Bytes) → Succeeds (walk ps)
unfolding walk
walk-Succeeds ps = walk_from-Succeeds (length ps) (reverse ps)

parse-Succeeds : (s : Bytes) → Succeeds (parse s)
unfolding parse
parse-Succeeds s =
    Succeeds-if (not (has_prefix (codes "/") s)) (record { levels = λ h. absurd (cc) })
      (Succeeds-if (has_prefix (codes "//") s)
        (Succeeds-if (eqb (first_field is_letter s) []) (record { levels = λ h. absurd (cc) })
          (walk-Succeeds
            (fill_in (first_field is_letter s) (drop 2 (split_with_escaping b'/' b'\\' s [])))))
        (walk-Succeeds (split_with_escaping b'/' b'\\' s [])))

-- A path that Parse returns with no error, whatever the text, has every level above the lowest
-- one that it names.
pub parse-HasLevels : (s : Bytes) (x : XPath) → parse s ≡ (x, none) → HasLevels x
parse-HasLevels s x h =
    subst HasLevels (ap (λ r. r.0) h) ((parse-Succeeds s).levels (ap (λ r. r.1) h))
