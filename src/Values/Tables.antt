-- ===== src/Values/Tables.antt =====
-- updateMap, DeleteSettingFromMap and unsetMap (tools/geneos/internal/values/set.go and unset.go).
use cordial.Common.{
  ◌≡◌, refl, Bool, false, none, some, List, Bytes, eqb, [], ◌∷◌, if◌then◌else◌, arith, ◌||◌,
  Option-cases, inl, inr,
}
use cordial.Dict.{Dict, get, put, delete, get-delete}
use cordial.Components.{Component}
use cordial.Values.Conf.{Conf}

-- DeleteSettingFromMap
unfoldable pub delete_setting_from_map {ℓ} : {V : Type ℓ} → Component → Dict V → Bytes → Dict V
delete_setting_from_map ct from key =
    delete key (elim (get key ct.legacy_parameters) [ some a ↦ delete a from | none ↦ from ])

unfoldable pub delete_settings {ℓ} : {V : Type ℓ} → Component → List Bytes → Dict V → Dict V
unfolding delete_setting_from_map
delete_settings ct [] m = m
delete_settings ct (k ∷ items) m = delete_settings ct items (delete_setting_from_map ct m k)

module _ (c : Conf) where
  abbrev pub map_or_delete : Bytes → Dict c.Any → c.State → c.State
  map_or_delete key [] s = c.delete key s
  map_or_delete key (e ∷ m) s = c.set_map key (e ∷ m) s

  -- The loop over the items.
  unfoldable pub add_items : Dict Bytes → Dict c.Any → Dict c.Any
  add_items [] m = m
  add_items ((k, v) ∷ items) m = add_items items (put k (c.text v) m)

  -- updateMap
  unfoldable pub update_map : Bytes → Dict Bytes → c.State → c.State
  unfolding add_items
  update_map key items s = map_or_delete key (add_items items (c.get_map key s)) s

  -- unsetMap
  unfoldable pub unset_map : Component → Bytes → List Bytes → c.State → c.State
  unfolding delete_settings
  unset_map ct key items s = map_or_delete key (delete_settings ct items (c.get_map key s)) s

-- The key is unset: it is an item, or an item is a legacy name of it.
abbrev pub is_unset : Component → Bytes → List Bytes → Bool
is_unset ct k [] = false
is_unset ct k (i ∷ items) =
    eqb i k
    || (elim (get i ct.legacy_parameters) [ some a ↦ eqb a k | none ↦ false ])
    || is_unset ct k items

get-delete_setting {ℓ} :
    {V : Type ℓ} (ct : Component) (k i : Bytes) (m : Dict V)
    → get k (delete_setting_from_map ct m i) ≡ (
        if eqb i k || (elim (get i ct.legacy_parameters) [ some a ↦ eqb a k | none ↦ false ])
        then none
        else get k m)
unfolding delete_setting_from_map
get-delete_setting ct k i m = elim (Option-cases (get i ct.legacy_parameters)) [
  | inl e ↦ rw e (ground (arith, get-delete i k m))
  | inr (a, e) ↦ rw e (ground (arith, get-delete i k (delete a m), get-delete a k m))
]

-- Unsetting items removes from a map each item and the setting that it is a legacy name of, and keeps
-- every other entry.
get-delete_settings {ℓ} :
    {V : Type ℓ} (ct : Component) (k : Bytes) (items : List Bytes) (m : Dict V)
    → get k (delete_settings ct items m) ≡ (if is_unset ct k items then none else get k m)
unfolding delete_settings
get-delete_settings ct k [] m = refl
get-delete_settings ct k (i ∷ items) m = ground (
  arith,
  get-delete_settings ct k items (delete_setting_from_map ct m i),
  get-delete_setting ct k i m,
)
