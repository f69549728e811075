-- ===== src/XPath/NoSlash.antt =====
-- No part of a printed place holds a slash (pkg/geneos/xpath/xpath.go).
use cordial.Common.{Option, none, some, Bytes, codes, [], ◌∷◌, ◌++◌, arith, All, All-append}
use cordial.Dict.{Dict}
use cordial.XPath.Component.{Plain, NoSlash}
use cordial.XPath.Attribute.{
  quoted, raw_name, raw_column, raw_type, raw_attributes, PlainKind, PlainEntries,
}
use cordial.XPath.Location.{
  Location, at_gateway, at_probe, at_entity, at_sampler, at_dataview, at_headline, at_row, at_cell,
  parts, IsPlain,
}

Plain-NoSlash : (n : Bytes) → All Plain n → All NoSlash n
Plain-NoSlash [] h = tt
Plain-NoSlash (c ∷ n) (hc, hn) = (hc.3, Plain-NoSlash n hn)

predicate-NoSlash :
    (head n tail : Bytes)
    → All NoSlash head
    → All NoSlash tail
    → All Plain n
    → All NoSlash (head ++ (quoted n ++ tail))
predicate-NoSlash head n tail hh ht h = All-append NoSlash head (quoted n ++ tail) hh (
    All-append NoSlash (quoted n) tail
      (omega arith, All-append NoSlash n (b'"' ∷ []) (Plain-NoSlash n h) (omega arith)) ht)

raw_name-NoSlash : (n : Bytes) → All Plain n → All NoSlash (raw_name n)
unfolding raw_name
raw_name-NoSlash [] h = tt
raw_name-NoSlash (c ∷ n) h =
    predicate-NoSlash (codes "[(@name=") (c ∷ n) (codes ")]") (omega arith) (omega arith) h

raw_column-NoSlash : (n : Bytes) → All Plain n → All NoSlash (raw_column n)
unfolding raw_column
raw_column-NoSlash [] h = tt
raw_column-NoSlash (c ∷ n) h =
    predicate-NoSlash (codes "[(@column=") (c ∷ n) (codes ")]") (omega arith) (omega arith) h

raw_type-NoSlash : (t : Option Bytes) → PlainKind t → All NoSlash (raw_type t)
unfolding raw_type
raw_type-NoSlash none h = tt
raw_type-NoSlash (some t) h =
    predicate-NoSlash (codes "[(@type=") t (codes ")]") (omega arith) (omega arith) h

raw_attributes-NoSlash : (m : Dict Bytes) → PlainEntries m → All NoSlash (raw_attributes m)
unfolding raw_attributes
raw_attributes-NoSlash [] h = tt
raw_attributes-NoSlash ((k, v) ∷ m) ((hk, hv), hm) =
    predicate-NoSlash (codes "[(attr(") k
      (codes ")=" ++ (quoted v ++ (codes ")]" ++ raw_attributes m))) (omega arith)
      (predicate-NoSlash (codes ")=") v (codes ")]" ++ raw_attributes m) (omega arith)
        (All-append NoSlash (codes ")]") (raw_attributes m) (omega arith)
          (raw_attributes-NoSlash m hm))
        hv)
      hk

-- A part: the name of its level and its predicates.
tagged : (tag s : Bytes) → All NoSlash tag → All NoSlash s → All NoSlash (tag ++ s)
tagged tag s ht hs = All-append NoSlash tag s ht hs

pub parts-NoSlash : (l : Location) → IsPlain l → All (All NoSlash) (parts l)
parts-NoSlash (at_gateway g) hg = (
  omega arith,
  (tagged (codes "gateway") (raw_name g) (omega arith) (raw_name-NoSlash g hg), (omega arith, tt)),
)
parts-NoSlash (at_probe g p) (hg, hp) = (
  omega arith,
  (
    tagged (codes "gateway") (raw_name g) (omega arith) (raw_name-NoSlash g hg),
    (omega arith, (tagged (codes "probe") (raw_name p) (omega arith) (raw_name-NoSlash p hp), tt)),
  ),
)
parts-NoSlash (at_entity g p e m) (hg, hp, he, hm, hd) = (
  omega arith,
  (
    tagged (codes "gateway") (raw_name g) (omega arith) (raw_name-NoSlash g hg),
    (
      omega arith,
      (
        tagged (codes "probe") (raw_name p) (omega arith) (raw_name-NoSlash p hp),
        (
          tagged (codes "managedEntity") (raw_name e ++ raw_attributes m) (omega arith) (
              All-append NoSlash (raw_name e) (raw_attributes m) (raw_name-NoSlash e he)
                (raw_attributes-NoSlash m hm)),
          tt,
        ),
      ),
    ),
  ),
)
parts-NoSlash (at_sampler g p e m s t) (hg, hp, he, hm, hd, hs, ht) = (
  omega arith,
  (
    tagged (codes "gateway") (raw_name g) (omega arith) (raw_name-NoSlash g hg),
    (
      omega arith,
      (
        tagged (codes "probe") (raw_name p) (omega arith) (raw_name-NoSlash p hp),
        (
          tagged (codes "managedEntity") (raw_name e ++ raw_attributes m) (omega arith) (
              All-append NoSlash (raw_name e) (raw_attributes m) (raw_name-NoSlash e he)
                (raw_attributes-NoSlash m hm)),
          (
            tagged (codes "sampler") (raw_name s ++ raw_type t) (omega arith) (
                All-append NoSlash (raw_name s) (raw_type t) (raw_name-NoSlash s hs)
                  (raw_type-NoSlash t ht)),
            tt,
          ),
        ),
      ),
    ),
  ),
)
parts-NoSlash (at_dataview g p e m s t d) (hg, hp, he, hm, hd, hs, ht, hv) = (
  omega arith,
  (
    tagged (codes "gateway") (raw_name g) (omega arith) (raw_name-NoSlash g hg),
    (
      omega arith,
      (
        tagged (codes "probe") (raw_name p) (omega arith) (raw_name-NoSlash p hp),
        (
          tagged (codes "managedEntity") (raw_name e ++ raw_attributes m) (omega arith) (
              All-append NoSlash (raw_name e) (raw_attributes m) (raw_name-NoSlash e he)
                (raw_attributes-NoSlash m hm)),
          (
            tagged (codes "sampler") (raw_name s ++ raw_type t) (omega arith) (
                All-append NoSlash (raw_name s) (raw_type t) (raw_name-NoSlash s hs)
                  (raw_type-NoSlash t ht)),
            (tagged (codes "dataview") (raw_name d) (omega arith) (raw_name-NoSlash d hv), tt),
          ),
        ),
      ),
    ),
  ),
)
parts-NoSlash (at_headline g p e m s t d h) (hg, hp, he, hm, hd, hs, ht, hv, hh, ne) = (
  omega arith,
  (
    tagged (codes "gateway") (raw_name g) (omega arith) (raw_name-NoSlash g hg),
    (
      omega arith,
      (
        tagged (codes "probe") (raw_name p) (omega arith) (raw_name-NoSlash p hp),
        (
          tagged (codes "managedEntity") (raw_name e ++ raw_attributes m) (omega arith) (
              All-append NoSlash (raw_name e) (raw_attributes m) (raw_name-NoSlash e he)
                (raw_attributes-NoSlash m hm)),
          (
            tagged (codes "sampler") (raw_name s ++ raw_type t) (omega arith) (
                All-append NoSlash (raw_name s) (raw_type t) (raw_name-NoSlash s hs)
                  (raw_type-NoSlash t ht)),
            (
              tagged (codes "dataview") (raw_name d) (omega arith) (raw_name-NoSlash d hv),
              (
                omega arith,
                (tagged (codes "cell") (raw_name h) (omega arith) (raw_name-NoSlash h hh), tt),
              ),
            ),
          ),
        ),
      ),
    ),
  ),
)
parts-NoSlash (at_row g p e m s t d r) (hg, hp, he, hm, hd, hs, ht, hv, hr) = (
  omega arith,
  (
    tagged (codes "gateway") (raw_name g) (omega arith) (raw_name-NoSlash g hg),
    (
      omega arith,
      (
        tagged (codes "probe") (raw_name p) (omega arith) (raw_name-NoSlash p hp),
        (
          tagged (codes "managedEntity") (raw_name e ++ raw_attributes m) (omega arith) (
              All-append NoSlash (raw_name e) (raw_attributes m) (raw_name-NoSlash e he)
                (raw_attributes-NoSlash m hm)),
          (
            tagged (codes "sampler") (raw_name s ++ raw_type t) (omega arith) (
                All-append NoSlash (raw_name s) (raw_type t) (raw_name-NoSlash s hs)
                  (raw_type-NoSlash t ht)),
            (
              tagged (codes "dataview") (raw_name d) (omega arith) (raw_name-NoSlash d hv),
              (
                omega arith,
                (tagged (codes "row") (raw_name r) (omega arith) (raw_name-NoSlash r hr), tt),
              ),
            ),
          ),
        ),
      ),
    ),
  ),
)
parts-NoSlash (at_cell g p e m s t d r c) (hg, hp, he, hm, hd, hs, ht, hv, hr, hc) = (
  omega arith,
  (
    tagged (codes "gateway") (raw_name g) (omega arith) (raw_name-NoSlash g hg),
    (
      omega arith,
      (
        tagged (codes "probe") (raw_name p) (omega arith) (raw_name-NoSlash p hp),
        (
          tagged (codes "managedEntity") (raw_name e ++ raw_attributes m) (omega arith) (
              All-append NoSlash (raw_name e) (raw_attributes m) (raw_name-NoSlash e he)
                (raw_attributes-NoSlash m hm)),
          (
            tagged (codes "sampler") (raw_name s ++ raw_type t) (omega arith) (
                All-append NoSlash (raw_name s) (raw_type t) (raw_name-NoSlash s hs)
                  (raw_type-NoSlash t ht)),
            (
              tagged (codes "dataview") (raw_name d) (omega arith) (raw_name-NoSlash d hv),
              (
                omega arith,
                (
                  tagged (codes "row") (raw_name r) (omega arith) (raw_name-NoSlash r hr),
                  (
                    tagged (codes "cell") (raw_column c) (omega arith) (raw_column-NoSlash c hc),
                    tt,
                  ),
                ),
              ),
            ),
          ),
        ),
      ),
    ),
  ),
)
