-- ===== src/XPath/Attributes.antt =====
-- getAttributes reads back the attribute predicates of a printed entity
-- (pkg/geneos/xpath/xpath.go).
use cordial.Common.{
  ◌-◌, ◌≡◌, refl, sym, ap, ◌∙◌, some, Bytes, codes, [], ◌∷◌, ◌++◌, arith, All, append_assoc, length,
  length-append,
}
use cordial.Text.{cut_prefix, cut_prefix-append}
use cordial.Dict.{Dict, put, put_all, put_all-nil, Distinct}
use cordial.XPath.Component.{Plain, NotOpen}
use cordial.XPath.Attribute.{
  quoted, raw_name, raw_attributes, PlainEntries, predicate-NotOpen, take_until-Plain,
}
use cordial.XPath.Reading.{attribute_body, regroup_attribute}
use cordial.XPath.Scan.{enclosed, attribute, after_key, with_value, attributes_from, get_attributes}

-- Bytes that belong to the last match are passed over.
attributes-passed :
    (s rest : Bytes) (acc : Dict Bytes)
    → attributes_from (s ++ rest) (length s) acc ≡ attributes_from rest 0 acc
unfolding attributes_from
attributes-passed [] rest acc = refl
attributes-passed (c ∷ s) rest acc = attributes-passed s rest acc

attributes-skip :
    (s rest : Bytes) (acc : Dict Bytes)
    → All NotOpen s
    → attributes_from (s ++ rest) 0 acc ≡ attributes_from rest 0 acc
unfolding attributes_from attribute after_key enclosed cut_prefix
attributes-skip [] rest acc h = refl
attributes-skip (c ∷ s) rest acc (hc, hs) = ground (arith, attributes-skip s rest acc hs)

attributes-raw_name :
    (n rest : Bytes) (acc : Dict Bytes)
    → All Plain n
    → attributes_from (raw_name n ++ rest) 0 acc ≡ attributes_from rest 0 acc
unfolding raw_name
attributes-raw_name [] rest acc h = refl
attributes-raw_name (c ∷ n) rest acc h =
    unfold attributes_from attribute after_key enclosed cut_prefix in
    ap (λ s. attributes_from s 0 acc)
      (sym (append_assoc (codes "(@name=") (quoted (c ∷ n) ++ codes ")]") rest))
    ∙ attributes-skip (codes "(@name=" ++ (quoted (c ∷ n) ++ codes ")]")) rest acc
        (predicate-NotOpen (codes "(@name=") (c ∷ n) (omega arith) h)

enclosed-here :
    (start close n rest : Bytes)
    → All Plain n
    → enclosed start (b'"' ∷ close) (start ++ (n ++ (b'"' ∷ (close ++ rest)))) ≡ some (n, rest)
unfolding enclosed
enclosed-here start close n rest h = rw (
  cut_prefix-append start (n ++ (b'"' ∷ (close ++ rest))),
  take_until-Plain close n rest h,
  enclosed,
)

attribute-here :
    (k v rest : Bytes)
    → All Plain k
    → All Plain v
    → attribute (b'[' ∷ (attribute_body k v ++ rest)) ≡ some (k, v, rest)
unfolding attribute after_key
attribute-here k v rest hk hv =
    let after : Bytes = v ++ (b'"' ∷ (codes ")]" ++ rest)) in
    let start : Bytes = codes "[(attr(\"" in
    let whole : Bytes = start ++ (k ++ (b'"' ∷ (codes ")=\"" ++ after))) in
    let same : b'[' ∷ (attribute_body k v ++ rest) ≡ whole = simp append_assoc in
    ap attribute same
    ∙ (ap after_key (enclosed-here start (codes ")=\"") k after hk)
        ∙ ap (with_value k) (take_until-Plain (codes ")]") v rest hv))

attributes-here :
    (k v rest : Bytes) (acc : Dict Bytes)
    → All Plain k
    → All Plain v
    → attributes_from (b'[' ∷ (attribute_body k v ++ rest)) 0 acc
      ≡ attributes_from rest 0 (put k v acc)
attributes-here k v rest acc hk hv =
    step
    ∙ (ap (λ n. attributes_from (attribute_body k v ++ rest) n (put k v acc))
          (omega (arith, length-append (attribute_body k v) rest))
        ∙ attributes-passed (attribute_body k v) rest (put k v acc))
  where
    step :
        attributes_from (b'[' ∷ (attribute_body k v ++ rest)) 0 acc
        ≡ attributes_from
            (attribute_body k v ++ rest)
            (length (attribute_body k v ++ rest) - length rest)
            (put k v acc)
    step = unfold attributes_from in rw (attribute-here k v rest hk hv, attributes_from)

attributes-raw_attributes :
    (m acc : Dict Bytes) → PlainEntries m → attributes_from (raw_attributes m) 0 acc ≡ put_all acc m
unfolding raw_attributes put_all
attributes-raw_attributes [] acc h = unfold attributes_from in refl
attributes-raw_attributes ((k, v) ∷ m) acc ((hk, hv), hm) =
    ap (λ s. attributes_from (b'[' ∷ s) 0 acc) (regroup_attribute k v (raw_attributes m))
    ∙ (attributes-here k v (raw_attributes m) acc hk hv
        ∙ attributes-raw_attributes m (put k v acc) hm)

-- The attributes of a printed entity, if no two have the same key.
pub attributes_of_entity :
    (tag n : Bytes) (m : Dict Bytes)
    → All NotOpen tag
    → All Plain n
    → PlainEntries m
    → Distinct m
    → get_attributes (tag ++ (raw_name n ++ raw_attributes m)) ≡ m
unfolding get_attributes
attributes_of_entity tag n m ht hn hm hd =
    attributes-skip tag (raw_name n ++ raw_attributes m) [] ht
    ∙ (attributes-raw_name n (raw_attributes m) [] hn
        ∙ (attributes-raw_attributes m [] hm ∙ put_all-nil m hd))
