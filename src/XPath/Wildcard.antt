-- ===== src/XPath/Wildcard.antt =====
-- Parse of a path with a leading double slash (pkg/geneos/xpath/xpath.go).
use mathlib.Core.Path.{ap₂}
use cordial.Common.{
  ◌≡◌, refl, ap, ◌∙◌, Option, none, some, List, Bytes, codes, [], ◌∷◌, ◌++◌, All, append_assoc,
  append-nil, drop,
}
use cordial.Text.{first_field, is_letter}
use cordial.Dict.{Dict}
use cordial.XPath.Print.{name_predicate, column_predicate, type_predicate, attribute_predicates}
use cordial.XPath.Scan.{split_with_escaping}
use cordial.XPath.Parse.{parse, walk, fill_in}
use cordial.XPath.Component.{
  NoSlash, escape_text, escape_text-append, joined, split-joined, split_slash,
}
use cordial.XPath.Attribute.{
  raw_name, raw_column, raw_type, raw_attributes, name_predicate-escape, column_predicate-escape,
  type_predicate-escape, attribute_predicates-escape,
}
use cordial.XPath.Location.{
  Location, at_probe, at_entity, at_sampler, at_dataview, at_headline, at_cell, to_xpath, parts,
  IsPlain,
}
use cordial.XPath.NoSlash.{parts-NoSlash}
use cordial.XPath.RoundTrip.{walk-parts}

-- The paths that start at a level below the gateway.
pub data Wildcard : Type 0 where
  any_probe : (p : Bytes) → Wildcard
  any_entity : (e : Bytes) (m : Dict Bytes) → Wildcard
  any_sampler : (s : Bytes) (t : Option Bytes) → Wildcard
  any_dataview : (d : Bytes) → Wildcard
  any_headline : (h : Bytes) → Wildcard
  any_cell : (r c : Bytes) → Wildcard

-- The text of such a path.
abbrev pub text : Wildcard → Bytes
text (any_probe p) = codes "//probe" ++ name_predicate p
text (any_entity e m) = codes "//managedEntity" ++ (name_predicate e ++ attribute_predicates m)
text (any_sampler s t) = codes "//sampler" ++ (name_predicate s ++ type_predicate t)
text (any_dataview d) = codes "//dataview" ++ name_predicate d
text (any_headline h) = codes "//headlines/cell" ++ name_predicate h
text (any_cell r c) =
    codes "//rows/row" ++ (name_predicate r ++ (codes "/cell" ++ column_predicate c))

-- The place that it stands for: the levels above have no names.
abbrev pub location : Wildcard → Location
location (any_probe p) = at_probe [] p
location (any_entity e m) = at_entity [] [] e m
location (any_sampler s t) = at_sampler [] [] [] [] s t
location (any_dataview d) = at_dataview [] [] [] [] [] none d
location (any_headline h) = at_headline [] [] [] [] [] none [] h
location (any_cell r c) = at_cell [] [] [] [] [] none [] r c

-- The parts behind the double slash.
abbrev tail_parts : Wildcard → List Bytes
tail_parts (any_probe p) = (codes "probe" ++ raw_name p) ∷ []
tail_parts (any_entity e m) = (codes "managedEntity" ++ (raw_name e ++ raw_attributes m)) ∷ []
tail_parts (any_sampler s t) = (codes "sampler" ++ (raw_name s ++ raw_type t)) ∷ []
tail_parts (any_dataview d) = (codes "dataview" ++ raw_name d) ∷ []
tail_parts (any_headline h) = codes "headlines" ∷ (codes "cell" ++ raw_name h) ∷ []
tail_parts (any_cell r c) =
    codes "rows" ∷ (codes "row" ++ raw_name r) ∷ (codes "cell" ++ raw_column c) ∷ []

-- The first run of letters, by which Parse chooses the level.
abbrev level_name : Wildcard → Bytes
level_name (any_probe p) = codes "probe"
level_name (any_entity e m) = codes "managedEntity"
level_name (any_sampler s t) = codes "sampler"
level_name (any_dataview d) = codes "dataview"
level_name (any_headline h) = codes "headlines"
level_name (any_cell r c) = codes "rows"

first_field-text : (w : Wildcard) → first_field is_letter (text w) ≡ level_name w
unfolding first_field is_letter name_predicate attribute_predicates type_predicate
first_field-text (any_probe []) = refl
first_field-text (any_probe (_ ∷ _)) = refl
first_field-text (any_entity [] []) = refl
first_field-text (any_entity [] (_ ∷ _)) = refl
first_field-text (any_entity (_ ∷ _) _) = refl
first_field-text (any_sampler [] none) = refl
first_field-text (any_sampler [] (some _)) = refl
first_field-text (any_sampler (_ ∷ _) _) = refl
first_field-text (any_dataview []) = refl
first_field-text (any_dataview (_ ∷ _)) = refl
first_field-text (any_headline _) = refl
first_field-text (any_cell _ _) = refl

text-joined : (w : Wildcard) → IsPlain (location w) → text w ≡ b'/' ∷ joined (tail_parts w)
unfolding joined
text-joined (any_probe p) (_, hp) =
    simp (escape_text-append, append-nil, ← name_predicate-escape p hp) (unfold escape_text in refl)
text-joined (any_entity e m) (_, _, he, hm, _) =
    simp
      (
        escape_text-append,
        append_assoc,
        append-nil,
        ← name_predicate-escape e he,
        ← attribute_predicates-escape m hm,
      )
      (unfold escape_text in refl)
text-joined (any_sampler s t) (_, _, _, _, _, hs, ht) =
    simp
      (
        escape_text-append,
        append_assoc,
        append-nil,
        ← name_predicate-escape s hs,
        ← type_predicate-escape t ht,
      )
      (unfold escape_text in refl)
text-joined (any_dataview d) (_, _, _, _, _, _, _, hd) =
    simp (escape_text-append, append-nil, ← name_predicate-escape d hd) (unfold escape_text in refl)
text-joined (any_headline h) (_, _, _, _, _, _, _, _, hh, _) =
    simp (escape_text-append, append-nil, ← name_predicate-escape h hh) (unfold escape_text in refl)
text-joined (any_cell r c) (_, _, _, _, _, _, _, _, hr, hc) =
    simp
      (
        escape_text-append,
        append_assoc,
        append-nil,
        ← name_predicate-escape r hr,
        ← column_predicate-escape c hc,
      )
      (unfold escape_text in refl)

-- With the levels above put in front, the parts are those of the place.
fill_in-tail_parts :
    (w : Wildcard) → fill_in (level_name w) (tail_parts w) ≡ [] ∷ parts (location w)
unfolding fill_in raw_name raw_attributes raw_type
fill_in-tail_parts (any_probe p) = refl
fill_in-tail_parts _ = refl

tail_parts-NoSlash : (w : Wildcard) → IsPlain (location w) → All (All NoSlash) (tail_parts w)
tail_parts-NoSlash (any_probe p) h = (parts-NoSlash (location (any_probe p)) h).1.1.1
tail_parts-NoSlash (any_entity e m) h = (parts-NoSlash (location (any_entity e m)) h).1.1.1.1
tail_parts-NoSlash (any_sampler s t) h = (parts-NoSlash (location (any_sampler s t)) h).1.1.1.1.1
tail_parts-NoSlash (any_dataview d) h = (parts-NoSlash (location (any_dataview d)) h).1.1.1.1.1.1
tail_parts-NoSlash (any_headline n) h = (parts-NoSlash (location (any_headline n)) h).1.1.1.1.1.1.1
tail_parts-NoSlash (any_cell r c) h = (parts-NoSlash (location (any_cell r c)) h).1.1.1.1.1.1.1

-- Splitting at the slashes leaves two empty parts in front.
split-text :
    (w : Wildcard)
    → IsPlain (location w)
    → drop 2 (split_with_escaping b'/' b'\\' (text w) []) ≡ tail_parts w
split-text w h =
    ap (λ s. drop 2 (split_with_escaping b'/' b'\\' s [])) (text-joined w h)
    ∙ (ap (drop 2) (split_slash (joined (tail_parts w)) [])
        ∙ ap (drop 1) (split-joined (tail_parts w) [] (tail_parts-NoSlash w h)))

parse-text-walk :
    (w : Wildcard)
    → parse (text w)
      ≡ walk (
          fill_in
            (first_field is_letter (text w))
            (drop 2 (split_with_escaping b'/' b'\\' (text w) [])))
unfolding parse name_predicate attribute_predicates type_predicate
parse-text-walk (any_probe []) = refl
parse-text-walk (any_probe (_ ∷ _)) = refl
parse-text-walk (any_entity [] []) = refl
parse-text-walk (any_entity [] (_ ∷ _)) = refl
parse-text-walk (any_entity (_ ∷ _) _) = refl
parse-text-walk (any_sampler [] none) = refl
parse-text-walk (any_sampler [] (some _)) = refl
parse-text-walk (any_sampler (_ ∷ _) _) = refl
parse-text-walk (any_dataview []) = refl
parse-text-walk (any_dataview (_ ∷ _)) = refl
parse-text-walk (any_headline _) = refl
parse-text-walk (any_cell _ _) = refl

-- A path that starts with a double slash at a probe, an entity, a sampler, a dataview, or at the
-- cells below a dataview is parsed to the path in which the levels above have no names, under the
-- conditions on its names that the printed path of a place needs.
parse-wildcard :
    (w : Wildcard) → IsPlain (location w) → parse (text w) ≡ (to_xpath (location w), none)
parse-wildcard w h =
    parse-text-walk w
    ∙ (ap walk (ap₂ fill_in (first_field-text w) (split-text w h) ∙ fill_in-tail_parts w)
        ∙ walk-parts (location w) h)
