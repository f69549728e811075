-- ===== src/Values/Slices.antt =====
-- updateSlice, unsetSlice and their keys (tools/geneos/internal/values/set.go and unset.go).
use cordial.Common.{
  Bool, true, false, not, ◌||◌, none, some, List, Bytes, codes, eqb, [], ◌∷◌, ◌++◌, if◌then◌else◌,
  any, is_some,
}
use cordial.Text.{cut, has_prefix}
use cordial.Dict.{Dict, get, put}
use cordial.Values.Conf.{Conf}

-- getNameValueKey
unfoldable pub get_name_value_key : Bytes → Bytes
get_name_value_key s = elim (cut (codes "=") s) [ some (key, _) ↦ key | none ↦ s ]

-- The map of keys to items: the last item of a key stays.
unfoldable pub keyed : (Bytes → Bytes) → List Bytes → Dict Bytes → Dict Bytes
keyed get_key [] keys = keys
keyed get_key (v ∷ items) keys = keyed get_key items (put (get_key v) v keys)

-- The values that have the key of no item, in their order.
unfoldable pub old_values : (Bytes → Bytes) → Dict Bytes → List Bytes → List Bytes
old_values get_key keys [] = []
old_values get_key keys (v ∷ vals) =
    let rest = old_values get_key keys vals in
    if is_some (get (get_key v) keys) then rest else v ∷ rest

-- Whether a value is replaced by another one.
unfoldable pub has_changed : (Bytes → Bytes) → Dict Bytes → List Bytes → Bool
has_changed get_key keys [] = false
has_changed get_key keys (v ∷ vals) =
    let rest = has_changed get_key keys vals in
    elim (get (get_key v) keys) as (λ _. Bool) [ some w ↦ not (eqb v w) || rest | none ↦ rest ]

-- The values after the loops.
unfoldable pub merged : (Bytes → Bytes) → List Bytes → List Bytes → List Bytes
unfolding keyed old_values
merged get_key items vals = items ++ old_values get_key (keyed get_key items []) vals

-- The loops of unsetSlice.
unfoldable pub without : (Bytes → Bytes → Bool) → List Bytes → List Bytes → List Bytes
without cmp items [] = []
without cmp items (t ∷ vals) =
    let rest = without cmp items vals in if any (cmp t) items then rest else t ∷ rest

-- The tests that Unset passes: for environment variables and attributes, and for types.
unfoldable pub names_value : Bytes → Bytes → Bool
names_value a b = has_prefix (b ++ codes "=") a

module _ (c : Conf) where
  abbrev pub slice_or_delete : Bytes → List Bytes → c.State → c.State
  slice_or_delete key [] s = c.delete key s
  slice_or_delete key (v ∷ vals) s = c.set_slice key (v ∷ vals) s

  abbrev pub update_old :
      (Bytes → Bytes) → Bytes → List Bytes → List Bytes → c.State → c.State × Bool
  update_old get_key key items [] s = (c.set_slice key items s, true)
  update_old get_key key items (v ∷ vals) s = (
    slice_or_delete key (merged get_key items (v ∷ vals)) s,
    has_changed get_key (keyed get_key items []) (v ∷ vals),
  )

  -- updateSlice
  unfoldable pub update_slice : (Bytes → Bytes) → Bytes → List Bytes → c.State → c.State × Bool
  unfolding merged keyed has_changed
  update_slice get_key key [] s = (s, false)
  update_slice get_key key (v ∷ items) s = update_old get_key key (v ∷ items) (c.get_slice key s) s

  -- unsetSlice
  unfoldable pub unset_slice : (Bytes → Bytes → Bool) → Bytes → List Bytes → c.State → c.State
  unfolding without
  unset_slice cmp key items s = slice_or_delete key (without cmp items (c.get_slice key s)) s
