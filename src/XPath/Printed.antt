-- ===== src/XPath/Printed.antt =====
-- What XPath.String prints for each place (pkg/geneos/xpath/xpath.go).
use cordial.Common.{◌≡◌, refl, [], ◌∷◌, append_assoc, append-nil}
use cordial.XPath.Print.{print}
use cordial.XPath.Component.{escape_text, escape_text-append, joined}
use cordial.XPath.Attribute.{
  name_predicate-escape, column_predicate-escape, type_predicate-escape,
  attribute_predicates-escape,
}
use cordial.XPath.Location.{
  Location, at_gateway, at_probe, at_entity, at_sampler, at_dataview, at_headline, at_row, at_cell,
  to_xpath, parts, IsPlain,
}

-- The text of a place is its parts, joined.
pub print-joined : (l : Location) → IsPlain l → print (to_xpath l) ≡ joined (parts l)
unfolding print joined
print-joined (at_gateway g) hg =
    simp (escape_text-append, append_assoc, append-nil, ← name_predicate-escape g hg)
      (unfold escape_text in refl)
print-joined (at_probe g p) (hg, hp) =
    simp
      (
        escape_text-append,
        append_assoc,
        append-nil,
        ← name_predicate-escape g hg,
        ← name_predicate-escape p hp,
      )
      (unfold escape_text in refl)
print-joined (at_entity g p e m) (hg, hp, he, hm, hd) =
    simp
      (
        escape_text-append,
        append_assoc,
        append-nil,
        ← name_predicate-escape g hg,
        ← name_predicate-escape p hp,
        ← name_predicate-escape e he,
        ← attribute_predicates-escape m hm,
      )
      (unfold escape_text in refl)
print-joined (at_sampler g p e m s t) (hg, hp, he, hm, hd, hs, ht) =
    simp
      (
        escape_text-append,
        append_assoc,
        append-nil,
        ← name_predicate-escape g hg,
        ← name_predicate-escape p hp,
        ← name_predicate-escape e he,
        ← attribute_predicates-escape m hm,
        ← name_predicate-escape s hs,
        ← type_predicate-escape t ht,
      )
      (unfold escape_text in refl)
print-joined (at_dataview g p e m s t d) (hg, hp, he, hm, hd, hs, ht, hv) =
    simp
      (
        escape_text-append,
        append_assoc,
        append-nil,
        ← name_predicate-escape g hg,
        ← name_predicate-escape p hp,
        ← name_predicate-escape e he,
        ← attribute_predicates-escape m hm,
        ← name_predicate-escape s hs,
        ← type_predicate-escape t ht,
        ← name_predicate-escape d hv,
      )
      (unfold escape_text in refl)
print-joined (at_headline g p e m s t d []) (hg, hp, he, hm, hd, hs, ht, hv, hh, ne) =
    absurd (ne refl)
print-joined (at_headline g p e m s t d (x ∷ h)) (hg, hp, he, hm, hd, hs, ht, hv, hh, ne) =
    simp
      (
        escape_text-append,
        append_assoc,
        append-nil,
        ← name_predicate-escape g hg,
        ← name_predicate-escape p hp,
        ← name_predicate-escape e he,
        ← attribute_predicates-escape m hm,
        ← name_predicate-escape s hs,
        ← type_predicate-escape t ht,
        ← name_predicate-escape d hv,
        ← name_predicate-escape (x ∷ h) hh,
      )
      (unfold escape_text in refl)
print-joined (at_row g p e m s t d r) (hg, hp, he, hm, hd, hs, ht, hv, hr) =
    simp
      (
        escape_text-append,
        append_assoc,
        append-nil,
        ← name_predicate-escape g hg,
        ← name_predicate-escape p hp,
        ← name_predicate-escape e he,
        ← attribute_predicates-escape m hm,
        ← name_predicate-escape s hs,
        ← type_predicate-escape t ht,
        ← name_predicate-escape d hv,
        ← name_predicate-escape r hr,
      )
      (unfold escape_text in refl)
print-joined (at_cell g p e m s t d r c) (hg, hp, he, hm, hd, hs, ht, hv, hr, hc) =
    simp
      (
        escape_text-append,
        append_assoc,
        append-nil,
        ← name_predicate-escape g hg,
        ← name_predicate-escape p hp,
        ← name_predicate-escape e he,
        ← attribute_predicates-escape m hm,
        ← name_predicate-escape s hs,
        ← type_predicate-escape t ht,
        ← name_predicate-escape d hv,
        ← name_predicate-escape r hr,
        ← column_predicate-escape c hc,
      )
      (unfold escape_text in refl)
