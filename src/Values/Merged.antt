-- ===== src/Values/Merged.antt =====
-- What updateSlice leaves under each key, and unsetSlice after it
-- (tools/geneos/internal/values/set.go and unset.go).
use mathlib.Core.Path.{subst}
use cordial.Common.{
  ◌≡◌, refl, sym, ap, ◌∙◌, Bool, true, false, ◌||◌, List, Bytes, codes, eqb, eqb_iff, [], ◌∷◌, ◌++◌,
  if◌then◌else◌, any, arith, is_some, All, All-append, Bool-cases, inl, inr, append-nil,
  append_assoc,
}
use cordial.Text.{cut, has_prefix, cut_prefix}
use cordial.Dict.{Dict, get, put, get-put}
use cordial.Values.Conf.{Conf, IsPlain, IsLower, SliceLaws}
use cordial.Values.Slices.{
  get_name_value_key, keyed, old_values, merged, without, names_value, slice_or_delete, update_old,
  update_slice, unset_slice,
}

-- The values that have the key.
abbrev pub with_key : (Bytes → Bytes) → Bytes → List Bytes → List Bytes
with_key g k [] = []
with_key g k (v ∷ vals) = let rest = with_key g k vals in if eqb (g v) k then v ∷ rest else rest

abbrev pub has_key : (Bytes → Bytes) → Bytes → List Bytes → Bool
has_key g k items = any (λ v. eqb (g v) k) items

get-keyed :
    (g : Bytes → Bytes) (k : Bytes) (items : List Bytes) (m : Dict Bytes)
    → is_some (get k (keyed g items m)) ≡ has_key g k items || is_some (get k m)
unfolding keyed any
get-keyed g k [] m = refl
get-keyed g k (v ∷ items) m =
    get-keyed g k items (put (g v) v m) ∙ ground (arith, get-put (g v) k v m)

keyed_lem :
    (g : Bytes → Bytes) (k : Bytes) (items : List Bytes)
    → is_some (get k (keyed g items [])) ≡ has_key g k items
unfolding get
keyed_lem g k items = ground (arith, get-keyed g k items [])

with_key-append :
    (g : Bytes → Bytes) (k : Bytes) (xs ys : List Bytes)
    → with_key g k (xs ++ ys) ≡ with_key g k xs ++ with_key g k ys
with_key-append g k [] ys = refl
with_key-append g k (x ∷ xs) ys = ground (arith, with_key-append g k xs ys)

with_key-old :
    (g : Bytes → Bytes) (k : Bytes) (items vals : List Bytes)
    → with_key g k (old_values g (keyed g items []) vals)
      ≡ (if has_key g k items then [] else with_key g k vals)
unfolding old_values
with_key-old g k items [] = ground arith
with_key-old g k items (v ∷ vals) =
    ground (arith, keyed_lem g (g v) items, eqb_iff (g v) k, with_key-old g k items vals)

with_key-none :
    (g : Bytes → Bytes) (k : Bytes) (items : List Bytes)
    → has_key g k items ≡ false
    → with_key g k items ≡ []
unfolding any
with_key-none g k [] h = refl
with_key-none g k (v ∷ items) h = ground (arith, with_key-none g k items)

with_key-merged :
    (g : Bytes → Bytes) (k : Bytes) (items vals : List Bytes)
    → with_key g k (merged g items vals)
      ≡ (if has_key g k items then with_key g k items else with_key g k vals)
unfolding merged
with_key-merged g k items vals =
    with_key-append g k items (old_values g (keyed g items []) vals)
    ∙ ground (
      arith,
      with_key-old g k items vals,
      with_key-none g k items,
      append-nil (with_key g k items),
    )

merged-nil : (g : Bytes → Bytes) (items : List Bytes) → merged g items [] ≡ items
unfolding merged old_values
merged-nil g items = append-nil items

module _ (c : Conf) (laws : SliceLaws c) where
  stored-slice_or_delete :
      (key : Bytes) (l : List Bytes) (s : c.State)
      → IsLower key
      → c.stored_slice key (slice_or_delete c key l s) ≡ l
  stored-slice_or_delete key [] s low = laws.stored_delete key s low
  stored-slice_or_delete key (v ∷ l) s low = laws.stored_set key (v ∷ l) s low

  -- What an update with items stores: they, and the old values as they are read.
  stored-update_slice :
      (g : Bytes → Bytes) (key v : Bytes) (items : List Bytes) (s : c.State)
      → IsLower key
      → c.stored_slice key (update_slice c g key (v ∷ items) s).0
        ≡ merged g (v ∷ items) (c.get_slice key s)
  unfolding update_slice
  stored-update_slice g key v items s low =
      elim (c.get_slice key s)
        as (λ vals.
          c.stored_slice key (update_old c g key (v ∷ items) vals s).0
          ≡ merged g (v ∷ items) vals) [
            | [] ↦ laws.stored_set key (v ∷ items) s low ∙ sym (merged-nil g (v ∷ items))
            | o ∷ vals ↦ stored-slice_or_delete key (merged g (v ∷ items) (o ∷ vals)) s low
          ]

  -- An update with items replaces the values by key: under a key that items have, these items are stored,
  -- in their order, and under every other key the values that were there as Get reads them, which is
  -- expanded. The setting's key is of lower-case letters.
  pub update_slice-with_key :
      (g : Bytes → Bytes) (k key v : Bytes) (items : List Bytes) (s : c.State)
      → IsLower key
      → with_key g k (c.stored_slice key (update_slice c g key (v ∷ items) s).0) ≡ (
          if has_key g k (v ∷ items)
          then with_key g k (v ∷ items)
          else with_key g k (c.get_slice key s))
  update_slice-with_key g k key v items s low =
      ap (with_key g k) (stored-update_slice g key v items s low)
      ∙ with_key-merged g k (v ∷ items) (c.get_slice key s)

  -- The same of values that are stored plain, where there may be no item.
  pub update_slice-plain :
      (g : Bytes → Bytes) (k key : Bytes) (items : List Bytes) (s : c.State)
      → IsLower key
      → All IsPlain (c.stored_slice key s)
      → with_key g k (c.stored_slice key (update_slice c g key items s).0)
        ≡ (if has_key g k items then with_key g k items else with_key g k (c.stored_slice key s))
  unfolding update_slice any
  update_slice-plain g k key [] s low h = refl
  update_slice-plain g k key (v ∷ items) s low h =
      update_slice-with_key g k key v items s low
      ∙ ap (λ l. if has_key g k (v ∷ items) then with_key g k (v ∷ items) else with_key g k l)
          (laws.get_plain key s low h)

  All-old :
      (P : Bytes → Type 0) (g : Bytes → Bytes) (keys : Dict Bytes) (vals : List Bytes)
      → All P vals
      → All P (old_values g keys vals)
  unfolding old_values
  All-old P g keys [] h = tt
  All-old P g keys (v ∷ vals) (hv, hs) = elim (Bool-cases (is_some (get (g v) keys))) [
    | inl e ↦ rw e (All-old P g keys vals hs)
    | inr e ↦ rw e (hv, All-old P g keys vals hs)
  ]

  -- Plain values stay plain.
  pub stored-IsPlain :
      (g : Bytes → Bytes) (key : Bytes) (items : List Bytes) (s : c.State)
      → IsLower key
      → All IsPlain items
      → All IsPlain (c.stored_slice key s)
      → All IsPlain (c.stored_slice key (update_slice c g key items s).0)
  unfolding update_slice merged
  stored-IsPlain g key [] s low hi h = h
  stored-IsPlain g key (v ∷ items) s low hi h =
      subst (All IsPlain)
        (sym (
          stored-update_slice g key v items s low
          ∙ ap (merged g (v ∷ items)) (laws.get_plain key s low h)))
        (All-append IsPlain (v ∷ items)
          (old_values g (keyed g (v ∷ items) []) (c.stored_slice key s)) hi
          (All-old IsPlain g (keyed g (v ∷ items) []) (c.stored_slice key s) h))

-- The value has an equals sign.
abbrev pub IsPair : Bytes → Type 0
IsPair v = is_some (cut (codes "=") v) ≡ true

abbrev pub keys_of : List Bytes → List Bytes
keys_of [] = []
keys_of (v ∷ items) = get_name_value_key v ∷ keys_of items

names_own_key : (v : Bytes) → IsPair v → names_value v (get_name_value_key v) ≡ true
unfolding names_value get_name_value_key has_prefix cut cut_prefix
names_own_key [] h = ground arith
names_own_key (x ∷ v) h = ground (arith, names_own_key v)

without-append :
    (cmp : Bytes → Bytes → Bool) (names xs ys : List Bytes)
    → without cmp names (xs ++ ys) ≡ without cmp names xs ++ without cmp names ys
unfolding without
without-append cmp names [] ys = refl
without-append cmp names (x ∷ xs) ys = ground (arith, without-append cmp names xs ys)

any-keys :
    (v : Bytes) (items : List Bytes)
    → IsPair v
    → has_key get_name_value_key (get_name_value_key v) items ≡ true
    → any (names_value v) (keys_of items) ≡ true
unfolding any
any-keys v [] p h = ground arith
any-keys v (w ∷ items) p h = ground (
  arith,
  names_own_key v p,
  any-keys v items p,
  eqb_iff (get_name_value_key w) (get_name_value_key v),
)

without-keys :
    (items all : List Bytes)
    → All IsPair items
    → All (λ v. has_key get_name_value_key (get_name_value_key v) all ≡ true) items
    → without names_value (keys_of all) items ≡ []
unfolding without
without-keys [] all h g = refl
without-keys (v ∷ items) all (hv, hs) (gv, gs) =
    rw (any-keys v all hv gv) (without-keys items all hs gs)

without-old :
    (items vals : List Bytes)
    → All IsPair vals
    → without names_value
        (keys_of items)
        (old_values get_name_value_key (keyed get_name_value_key items []) vals)
      ≡ without names_value (keys_of items) vals
unfolding without old_values
without-old items [] h = refl
without-old items (v ∷ vals) (hv, hs) = ground (
  arith,
  keyed_lem get_name_value_key (get_name_value_key v) items,
  any-keys v items hv,
  without-old items vals hs,
)

has_own_key :
    (items before : List Bytes)
    → All (λ v. has_key get_name_value_key (get_name_value_key v) (before ++ items) ≡ true) items
unfolding any
has_own_key [] before = tt
has_own_key (v ∷ items) before = (
  has_middle before,
  subst (λ l. All (λ w. has_key get_name_value_key (get_name_value_key w) l ≡ true) items)
      (append_assoc before (v ∷ []) items) (has_own_key items (before ++ v ∷ [])),
)
  where
    has_middle :
        (b : List Bytes)
        → has_key get_name_value_key (get_name_value_key v) (b ++ (v ∷ items)) ≡ true
    has_middle [] = ground (arith, eqb_iff (get_name_value_key v) (get_name_value_key v))
    has_middle (w ∷ b) = ground (arith, has_middle b)

without-merged :
    (items vals : List Bytes)
    → All IsPair items
    → All IsPair vals
    → without names_value (keys_of items) (merged get_name_value_key items vals)
      ≡ without names_value (keys_of items) vals
unfolding merged
without-merged items vals hi hv =
    without-append names_value (keys_of items) items
      (old_values get_name_value_key (keyed get_name_value_key items []) vals)
    ∙ (ap
          (λ l.
            l
            ++ without names_value (keys_of items)
                (old_values get_name_value_key (keyed get_name_value_key items []) vals))
          (without-keys items items hi (has_own_key items []))
        ∙ without-old items vals hv)

without-names :
    (items : List Bytes) → All IsPair items → without names_value (keys_of items) items ≡ []
without-names items h = without-keys items items h (has_own_key items [])

module _ (c : Conf) (laws : SliceLaws c) where
  still :
      (key : Bytes) (items : List Bytes) (s : c.State)
      → IsLower key
      → All IsPair items
      → All IsPair (c.stored_slice key s)
      → All IsPlain (c.stored_slice key s)
      → without names_value
          (keys_of items)
          (c.stored_slice key (update_slice c get_name_value_key key items s).0)
        ≡ without names_value (keys_of items) (c.stored_slice key s)
  unfolding update_slice
  still key [] s low hi hv hp = refl
  still key (v ∷ items) s low hi hv hp =
      ap (without names_value (keys_of (v ∷ items))) (
        stored-update_slice c laws get_name_value_key key v items s low
        ∙ ap (merged get_name_value_key (v ∷ items)) (laws.get_plain key s low hp))
      ∙ without-merged (v ∷ items) (c.stored_slice key s) hi hv

  -- What unsetting stores of plain values.
  stored-unset_slice :
      (cmp : Bytes → Bytes → Bool) (key : Bytes) (names : List Bytes) (s : c.State)
      → IsLower key
      → All IsPlain (c.stored_slice key s)
      → c.stored_slice key (unset_slice c cmp key names s)
        ≡ without cmp names (c.stored_slice key s)
  unfolding unset_slice
  stored-unset_slice cmp key names s low hp =
      stored-slice_or_delete c laws key (without cmp names (c.get_slice key s)) s low
      ∙ ap (without cmp names) (laws.get_plain key s low hp)

  -- Unsetting takes back what setting gave: where all values are pairs and expand to themselves, setting
  -- items and then unsetting their names stores what unsetting the names alone stores. The setting's key is
  -- of lower-case letters.
  pub unset_slice-update_slice :
      (key : Bytes) (items : List Bytes) (s : c.State)
      → IsLower key
      → All IsPair items
      → All IsPlain items
      → All IsPair (c.stored_slice key s)
      → All IsPlain (c.stored_slice key s)
      → c.stored_slice key (
          unset_slice c names_value key
            (keys_of items)
            (update_slice c get_name_value_key key items s).0)
        ≡ c.stored_slice key (unset_slice c names_value key (keys_of items) s)
  unset_slice-update_slice key items s low hi pi hv hp =
      stored-unset_slice names_value key (keys_of items)
        (update_slice c get_name_value_key key items s).0 low
        (stored-IsPlain c laws get_name_value_key key items s low pi hp)
      ∙ (still key items s low hi hv hp
          ∙ sym (stored-unset_slice names_value key (keys_of items) s low hp))
