-- ===== src/XPath/Reading.antt =====
-- getAttr and getAttributes read a printed part back (pkg/geneos/xpath/xpath.go).
use cordial.Common.{
  ◌≡◌, refl, sym, ap, ◌∙◌, Option, none, some, Bytes, codes, [], ◌∷◌, ◌++◌, arith, All, All-append,
  append_assoc, append-nil,
}
use cordial.Text.{cut_prefix}
use cordial.Dict.{Dict}
use cordial.XPath.Component.{Plain, NotOpen}
use cordial.XPath.Attribute.{
  stop, quoted, raw_name, raw_column, raw_type, raw_attributes, PlainKind, PlainEntries, find-skip,
  find-here, find-past, find-other, quoted-NotOpen, find-nil,
}
use cordial.XPath.Scan.{find_enclosed, get_attr, attr_or_empty, or_empty}

-- What getAttr finds of a name: nothing, where the name is empty and was not printed.
abbrev found : Bytes → Option Bytes
found [] = none
found (c ∷ n) = some (c ∷ n)

or_empty-found : (n : Bytes) → or_empty (found n) ≡ n
or_empty-found [] = refl
or_empty-found (c ∷ n) = refl

abbrev name_start : Bytes
name_start = codes "(@name=\""

abbrev type_start : Bytes
type_start = codes "(@type=\""

find_name-raw_name :
    (n rest : Bytes)
    → All Plain n
    → find_enclosed (b'[' ∷ name_start) stop rest ≡ none
    → find_enclosed (b'[' ∷ name_start) stop (raw_name n ++ rest) ≡ found n
unfolding raw_name
find_name-raw_name [] rest h e = e
find_name-raw_name (c ∷ n) rest h e =
    simp append_assoc (find-here name_start (codes ")]") (c ∷ n) rest h)

find_name-raw_type :
    (t : Option Bytes) → PlainKind t → find_enclosed (b'[' ∷ name_start) stop (raw_type t) ≡ none
unfolding raw_type cut_prefix
find_name-raw_type none h = find-nil _ _
find_name-raw_type (some t) h =
    ap (λ s. find_enclosed (b'[' ∷ name_start) stop (b'[' ∷ (codes "(@type=" ++ s)))
      (sym (append-nil (quoted t ++ codes ")]")))
    ∙ (find-past name_start (codes "(@type=") t [] h refl (omega arith) ∙ find-nil _ _)

find_type-raw_name :
    (n rest : Bytes)
    → All Plain n
    → find_enclosed (b'[' ∷ type_start) stop (raw_name n ++ rest)
      ≡ find_enclosed (b'[' ∷ type_start) stop rest
unfolding raw_name cut_prefix
find_type-raw_name [] rest h = refl
find_type-raw_name (c ∷ n) rest h =
    find-past type_start (codes "(@name=") (c ∷ n) rest h refl (omega arith)

find_type-raw_type :
    (t : Option Bytes) → PlainKind t → find_enclosed (b'[' ∷ type_start) stop (raw_type t) ≡ t
unfolding raw_type
find_type-raw_type none h = find-nil _ _
find_type-raw_type (some t) h = simp append_assoc (find-here type_start (codes ")]") t [] h)

abbrev column_start : Bytes
column_start = codes "(@column=\""

find-tag : (start tag : Bytes) → All NotOpen tag → find_enclosed (b'[' ∷ start) stop tag ≡ none
find-tag start tag h =
    ap (find_enclosed (b'[' ∷ start) stop) (sym (append-nil tag))
    ∙ (find-skip start stop tag [] h ∙ find-nil _ _)

-- An attribute predicate behind its bracket.
abbrev pub attribute_body : Bytes → Bytes → Bytes
attribute_body k v = codes "(attr(" ++ (quoted k ++ (codes ")=" ++ (quoted v ++ codes ")]")))

pub regroup_attribute :
    (k v rest : Bytes)
    → codes "(attr(" ++ (quoted k ++ (codes ")=" ++ (quoted v ++ (codes ")]" ++ rest))))
      ≡ attribute_body k v ++ rest
regroup_attribute k v rest = simp append_assoc

pub attribute_body-NotOpen :
    (k v : Bytes) → All Plain k → All Plain v → All NotOpen (attribute_body k v)
attribute_body-NotOpen k v hk hv =
    let valued = All-append NotOpen (quoted v) (codes ")]") (quoted-NotOpen v hv) (omega arith) in
    let keyed =
      All-append NotOpen (quoted k) (codes ")=" ++ (quoted v ++ codes ")]")) (quoted-NotOpen k hk)
        (omega arith, (omega arith, valued)) in
    All-append NotOpen (codes "(attr(") (quoted k ++ (codes ")=" ++ (quoted v ++ codes ")]")))
      (omega arith) keyed

find_name-raw_attributes :
    (m : Dict Bytes)
    → PlainEntries m
    → find_enclosed (b'[' ∷ name_start) stop (raw_attributes m) ≡ none
unfolding raw_attributes cut_prefix
find_name-raw_attributes [] h = find-nil _ _
find_name-raw_attributes ((k, v) ∷ m) ((hk, hv), hm) =
    find-other name_start stop _ refl
    ∙ (ap (find_enclosed (b'[' ∷ name_start) stop) (regroup_attribute k v (raw_attributes m))
        ∙ (find-skip name_start stop (attribute_body k v) (raw_attributes m)
              (attribute_body-NotOpen k v hk hv)
            ∙ find_name-raw_attributes m hm))

-- getAttr(s, "name") on the part of each level.
module _ (tag n : Bytes) (ht : All NotOpen tag) (h : All Plain n) where
  attr_of_found :
      (rest : Bytes)
      → find_enclosed (b'[' ∷ name_start) stop rest ≡ none
      → attr_or_empty (tag ++ (raw_name n ++ rest)) (codes "name") ≡ n
  unfolding attr_or_empty get_attr
  attr_of_found rest e =
      ap or_empty
        (find-skip name_start stop tag (raw_name n ++ rest) ht ∙ find_name-raw_name n rest h e)
      ∙ or_empty-found n

  pub name_of_plain_part : attr_or_empty (tag ++ raw_name n) (codes "name") ≡ n
  name_of_plain_part =
      ap (λ s. attr_or_empty (tag ++ s) (codes "name")) (sym (append-nil (raw_name n)))
      ∙ attr_of_found [] (find-nil _ _)

  pub name_of_sampler :
      (t : Option Bytes)
      → PlainKind t
      → attr_or_empty (tag ++ (raw_name n ++ raw_type t)) (codes "name") ≡ n
  name_of_sampler t k = attr_of_found (raw_type t) (find_name-raw_type t k)

  pub name_of_entity :
      (m : Dict Bytes)
      → PlainEntries m
      → attr_or_empty (tag ++ (raw_name n ++ raw_attributes m)) (codes "name") ≡ n
  name_of_entity m k = attr_of_found (raw_attributes m) (find_name-raw_attributes m k)

  -- getAttr(s, "type")
  pub type_of_sampler :
      (t : Option Bytes)
      → PlainKind t
      → get_attr (tag ++ (raw_name n ++ raw_type t)) (codes "type") ≡ t
  unfolding get_attr
  type_of_sampler t k =
      find-skip type_start stop tag (raw_name n ++ raw_type t) ht
      ∙ (find_type-raw_name n (raw_type t) h ∙ find_type-raw_type t k)

-- getAttr(s, "column")
pub column_of_cell :
    (tag n : Bytes)
    → All NotOpen tag
    → All Plain n
    → attr_or_empty (tag ++ raw_column n) (codes "column") ≡ n
unfolding attr_or_empty get_attr raw_column
column_of_cell tag [] ht h =
    ap or_empty (
      ap (find_enclosed (b'[' ∷ column_start) stop) (append-nil tag) ∙ find-tag column_start tag ht)
column_of_cell tag (c ∷ n) ht h = ap or_empty {y = some (c ∷ n)} (
    find-skip column_start stop tag (codes "[(@column=" ++ (quoted (c ∷ n) ++ codes ")]")) ht
    ∙ simp append_assoc (find-here column_start (codes ")]") (c ∷ n) [] h))
