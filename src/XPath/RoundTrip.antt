-- ===== src/XPath/RoundTrip.antt =====
-- Parse reads back what String prints (pkg/geneos/xpath/xpath.go).
use cordial.Common.{◌≡◌, refl, ap, ◌∙◌, none, codes, [], ◌∷◌, arith}
use cordial.XPath.Print.{print}
use cordial.XPath.Parse.{parse, walk}
use cordial.XPath.Scan.{split_with_escaping}
use cordial.XPath.Component.{split-joined}
use cordial.XPath.Reading.{
  name_of_plain_part, name_of_sampler, name_of_entity, type_of_sampler, column_of_cell,
}
use cordial.XPath.Attributes.{attributes_of_entity}
use cordial.XPath.Location.{
  Location, at_gateway, at_probe, at_entity, at_sampler, at_dataview, at_headline, at_row, at_cell,
  to_xpath, parts, IsPlain,
}
use cordial.XPath.Printed.{print-joined}
use cordial.XPath.NoSlash.{parts-NoSlash}

-- The walk over the parts of a place, from the last to the first, finds every level.
pub walk-parts : (l : Location) → IsPlain l → walk ([] ∷ parts l) ≡ (to_xpath l, none)
unfolding walk
walk-parts (at_gateway g) hg = rw (name_of_plain_part (codes "gateway") g (omega arith) hg)
walk-parts (at_probe g p) (hg, hp) = rw (
  name_of_plain_part (codes "gateway") g (omega arith) hg,
  name_of_plain_part (codes "probe") p (omega arith) hp,
)
walk-parts (at_entity g p e m) (hg, hp, he, hm, hd) = rw (
  name_of_plain_part (codes "gateway") g (omega arith) hg,
  name_of_plain_part (codes "probe") p (omega arith) hp,
  name_of_entity (codes "managedEntity") e (omega arith) he m hm,
  attributes_of_entity (codes "managedEntity") e m (omega arith) he hm hd,
)
walk-parts (at_sampler g p e m s t) (hg, hp, he, hm, hd, hs, ht) = rw (
  name_of_plain_part (codes "gateway") g (omega arith) hg,
  name_of_plain_part (codes "probe") p (omega arith) hp,
  name_of_entity (codes "managedEntity") e (omega arith) he m hm,
  attributes_of_entity (codes "managedEntity") e m (omega arith) he hm hd,
  name_of_sampler (codes "sampler") s (omega arith) hs t ht,
  type_of_sampler (codes "sampler") s (omega arith) hs t ht,
)
walk-parts (at_dataview g p e m s t d) (hg, hp, he, hm, hd, hs, ht, hv) = rw (
  name_of_plain_part (codes "gateway") g (omega arith) hg,
  name_of_plain_part (codes "probe") p (omega arith) hp,
  name_of_entity (codes "managedEntity") e (omega arith) he m hm,
  attributes_of_entity (codes "managedEntity") e m (omega arith) he hm hd,
  name_of_sampler (codes "sampler") s (omega arith) hs t ht,
  type_of_sampler (codes "sampler") s (omega arith) hs t ht,
  name_of_plain_part (codes "dataview") d (omega arith) hv,
)
walk-parts (at_headline g p e m s t d h) (hg, hp, he, hm, hd, hs, ht, hv, hh, ne) = rw (
  name_of_plain_part (codes "gateway") g (omega arith) hg,
  name_of_plain_part (codes "probe") p (omega arith) hp,
  name_of_entity (codes "managedEntity") e (omega arith) he m hm,
  attributes_of_entity (codes "managedEntity") e m (omega arith) he hm hd,
  name_of_sampler (codes "sampler") s (omega arith) hs t ht,
  type_of_sampler (codes "sampler") s (omega arith) hs t ht,
  name_of_plain_part (codes "dataview") d (omega arith) hv,
  name_of_plain_part (codes "cell") h (omega arith) hh,
)
walk-parts (at_row g p e m s t d r) (hg, hp, he, hm, hd, hs, ht, hv, hr) = rw (
  name_of_plain_part (codes "gateway") g (omega arith) hg,
  name_of_plain_part (codes "probe") p (omega arith) hp,
  name_of_entity (codes "managedEntity") e (omega arith) he m hm,
  attributes_of_entity (codes "managedEntity") e m (omega arith) he hm hd,
  name_of_sampler (codes "sampler") s (omega arith) hs t ht,
  type_of_sampler (codes "sampler") s (omega arith) hs t ht,
  name_of_plain_part (codes "dataview") d (omega arith) hv,
  name_of_plain_part (codes "row") r (omega arith) hr,
)
walk-parts (at_cell g p e m s t d r c) (hg, hp, he, hm, hd, hs, ht, hv, hr, hc) = rw (
  name_of_plain_part (codes "gateway") g (omega arith) hg,
  name_of_plain_part (codes "probe") p (omega arith) hp,
  name_of_entity (codes "managedEntity") e (omega arith) he m hm,
  attributes_of_entity (codes "managedEntity") e m (omega arith) he hm hd,
  name_of_sampler (codes "sampler") s (omega arith) hs t ht,
  type_of_sampler (codes "sampler") s (omega arith) hs t ht,
  name_of_plain_part (codes "dataview") d (omega arith) hv,
  name_of_plain_part (codes "row") r (omega arith) hr,
  column_of_cell (codes "cell") c (omega arith) hc,
)

parse-print-walk :
    (l : Location)
    → parse (print (to_xpath l)) ≡ walk (split_with_escaping b'/' b'\\' (print (to_xpath l)) [])
unfolding parse print
parse-print-walk (at_gateway _) = refl
parse-print-walk _ = refl

-- Parsing the printed path of a place gives the path back with no error, if the names, types and
-- attributes hold printable ASCII characters other than `"`, `/` and `[`, no two attributes have
-- the same key, and a headline has a name that is not empty.
pub parse-print : (l : Location) → IsPlain l → parse (print (to_xpath l)) ≡ (to_xpath l, none)
parse-print l h =
    parse-print-walk l
    ∙ (ap walk (
          ap (λ s. split_with_escaping b'/' b'\\' s []) (print-joined l h)
          ∙ split-joined (parts l) [] (parts-NoSlash l h))
        ∙ walk-parts l h)
