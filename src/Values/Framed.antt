-- ===== src/Values/Framed.antt =====
-- Which settings Set changes for a component (tools/geneos/internal/values/set.go).
use cordial.Common.{
  ◌≡◌, refl, ap, ◌∙◌, ◌⊎◌, inl, inr, Bool, true, false, some, List, Bytes, codes, eqb, [], ◌∷◌,
  if◌then◌else◌, arith, Bool-cases, Option-cases,
}
use cordial.Dict.{Dict}
use cordial.Components.{Component, is_a}
use cordial.Values.Variables.{Variable, KeyFile, update_vars}
use cordial.Values.Conf.{Conf, IsLower, SliceLaws}
use cordial.Values.Slices.{get_name_value_key, slice_or_delete, merged, update_old, update_slice}
use cordial.Values.Tables.{update_map, map_or_delete, add_items}
use cordial.Values.Settings.{
  Values, KeyStore, done, variables_or_delete, old_variables, update_variables, set_includes,
  set_gateways, set_san, set_variables, finished,
}

-- The key of no map and of no variables, and of no slice that is set by the type of the component.
abbrev pub IsUntouched : Component → Bytes → Type 0
IsUntouched ct key =
    (eqb key (codes "includes") ≡ false)
    × (eqb key (codes "gateways") ≡ false)
    × (eqb key (codes "variables") ≡ false)
    × ((is_a ct (codes "san" ∷ []) ≡ false)
        ⊎ ((eqb key (codes "types") ≡ false) × (eqb key (codes "attributes") ≡ false)))

module _ (c : Conf) (laws : SliceLaws c) where
  pub slice_frame :
      (g : Bytes → Bytes) (key key' : Bytes) (items : List Bytes) (s : c.State)
      → IsLower key
      → IsLower key'
      → eqb key key' ≡ false
      → c.stored_slice key (update_slice c g key' items s).0 ≡ c.stored_slice key s
  unfolding update_slice
  slice_frame g key key' [] s low low' h = refl
  slice_frame g key key' (v ∷ items) s low low' h =
      elim (c.get_slice key' s)
        as (λ vals.
          c.stored_slice key (update_old c g key' (v ∷ items) vals s).0 ≡ c.stored_slice key s) [
            | [] ↦ laws.stored_set_other key key' (v ∷ items) s low low' h
            | o ∷ vals ↦ written (merged g (v ∷ items) (o ∷ vals))
          ]
    where
      written :
          (l : List Bytes) → c.stored_slice key (slice_or_delete c key' l s) ≡ c.stored_slice key s
      written [] = laws.stored_delete_other key key' s low low' h
      written (w ∷ l) = laws.stored_set_other key key' (w ∷ l) s low low' h

  map_frame :
      (key key' : Bytes) (items : Dict Bytes) (s : c.State)
      → IsLower key
      → IsLower key'
      → eqb key key' ≡ false
      → c.stored_slice key (update_map c key' items s) ≡ c.stored_slice key s
  unfolding update_map
  map_frame key key' items s low low' h = written (add_items c items (c.get_map key' s))
    where
      written :
          (m : Dict c.Any) → c.stored_slice key (map_or_delete c key' m s) ≡ c.stored_slice key s
      written [] = laws.stored_delete_other key key' s low low' h
      written (e ∷ m) = laws.stored_set_map key key' (e ∷ m) s low low' h

  variables_frame :
      (k : KeyFile) (key key' : Bytes) (items : List Variable) (s s' : c.State)
      → IsLower key
      → IsLower key'
      → eqb key key' ≡ false
      → update_variables c k key' items s ≡ some s'
      → c.stored_slice key s' ≡ c.stored_slice key s
  unfolding update_variables
  variables_frame k key key' items s s' low low' h e =
      elim (Option-cases (old_variables c (c.lookup_any key' s))) [
        | inl g ↦ ground (arith, g, e)
        | inr (vars, g) ↦ elim (Option-cases (update_vars k items vars)) [
          | inl f ↦ ground (arith, g, f, e)
          | inr (vars', f) ↦ ground (arith, g, f, e, written vars')
        ]
      ]
    where
      written :
          (l : List Variable)
          → c.stored_slice key (variables_or_delete c key' l s) ≡ c.stored_slice key s
      written [] = laws.stored_delete_other key key' s low low' h
      written (v ∷ l) = laws.stored_set_variables key key' (v ∷ l) s low low' h

  either :
      (key : Bytes) (b : Bool) (f : c.State → c.State) (s : c.State)
      → c.stored_slice key (f s) ≡ c.stored_slice key s
      → c.stored_slice key (if b then f s else s) ≡ c.stored_slice key s
  either key true f s h = h
  either key false f s h = refl

  includes_frame :
      (key : Bytes) (ct : Component) (values : Values) (s : c.State)
      → IsLower key
      → eqb key (codes "includes") ≡ false
      → c.stored_slice key (set_includes c ct values s) ≡ c.stored_slice key s
  unfolding set_includes
  includes_frame key ct values s low h =
      either key (is_a ct (codes "gateway" ∷ [])) (update_map c (codes "includes") values.includes)
        s (map_frame key (codes "includes") values.includes s low (ground arith) h)

  gateways_frame :
      (key : Bytes) (ct : Component) (values : Values) (s : c.State)
      → IsLower key
      → eqb key (codes "gateways") ≡ false
      → c.stored_slice key (set_gateways c ct values s) ≡ c.stored_slice key s
  unfolding set_gateways
  gateways_frame key ct values s low h =
      either key (is_a ct (codes "san" ∷ codes "floating" ∷ []))
        (update_map c (codes "gateways") values.gateways) s
        (map_frame key (codes "gateways") values.gateways s low (ground arith) h)

  san_frame :
      (key : Bytes) (ct : Component) (values : Values) (s : c.State)
      → IsLower key
      → (is_a ct (codes "san" ∷ []) ≡ false)
        ⊎ ((eqb key (codes "types") ≡ false) × (eqb key (codes "attributes") ≡ false))
      → c.stored_slice key (set_san c ct values s) ≡ c.stored_slice key s
  unfolding set_san
  san_frame key ct values s low (inl h) = rw h refl
  san_frame key ct values s low (inr (ht, ha)) =
      either key (is_a ct (codes "san" ∷ []))
        (λ t.
          (update_slice c get_name_value_key (codes "attributes") values.attributes
            (update_slice c (λ a. a) (codes "types") values.types t).0).0)
        s
        (slice_frame get_name_value_key key (codes "attributes") values.attributes
            (update_slice c (λ a. a) (codes "types") values.types s).0 low (ground arith) ha
          ∙ slice_frame (λ a. a) key (codes "types") values.types s low (ground arith) ht)

  vars_frame :
      (k : KeyStore) (key : Bytes) (ct : Component) (values : Values) (s s' : c.State)
      → IsLower key
      → eqb key (codes "variables") ≡ false
      → set_variables c k ct values s ≡ some s'
      → c.stored_slice key s' ≡ c.stored_slice key s
  unfolding set_variables
  vars_frame k key ct values s s' low h e =
      elim (Bool-cases (is_a ct (codes "gateway" ∷ codes "san" ∷ []))) [
        | inl b ↦
            variables_frame k.key_file key (codes "variables") values.variables s s' low
              (ground arith) h (ground (arith, b, e))
        | inr b ↦ ground (arith, b, e)
      ]

  pub finished_frame :
      (k : KeyStore) (key : Bytes) (ct : Component) (values : Values) (s s' : c.State)
      → IsLower key
      → IsUntouched ct key
      → finished c k ct values (done s) ≡ some (done s')
      → c.stored_slice key s' ≡ c.stored_slice key s
  finished_frame k key ct values s s' low (hi, hg, hv, hs) e =
      elim (Option-cases (
        set_variables c k ct values
          (set_san c ct values (set_gateways c ct values (set_includes c ct values s))))) [
            | inl g ↦ ground (arith, g, e)
            | inr (t, g) ↦
                same t (ground (arith, g, e))
                ∙ (vars_frame k key ct values
                      (set_san c ct values (set_gateways c ct values (set_includes c ct values s)))
                      t low hv g
                    ∙ (san_frame key ct values
                          (set_gateways c ct values (set_includes c ct values s)) low hs
                        ∙ (gateways_frame key ct values (set_includes c ct values s) low hg
                            ∙ includes_frame key ct values s low hi)))
          ]
    where
      same : (t : c.State) → s' ≡ t → c.stored_slice key s' ≡ c.stored_slice key t
      same t p = ap (c.stored_slice key) p
