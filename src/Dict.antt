-- ===== src/Dict.antt =====
-- Go's `map[string]V`: an association list over byte strings. The order of the list is the order
-- in which a `range` loop visits the map, so a theorem about every list is one about every order.
use cordial.Common.{
  false, append_assoc, append-nil, ◌∙◌, ◌++◌, ◌≡◌, refl, Bool, Option, none, some, List, [], ◌∷◌,
  arith, Bytes, eqb, eqb_iff, if◌then◌else◌,
}

abbrev pub Dict {ℓ} : Type ℓ → Type ℓ
Dict V = List (Bytes × V)

module _ {ℓ} {V : Type ℓ} where
  -- v, ok := m[k]
  unfoldable pub get : Bytes → Dict V → Option V
  get k [] = none
  get k ((j, v) ∷ m) = if eqb j k then some v else get k m

  -- m[k] = v
  unfoldable pub put : Bytes → V → Dict V → Dict V
  put k v [] = (k, v) ∷ []
  put k v ((j, w) ∷ m) = if eqb j k then (j, v) ∷ m else (j, w) ∷ put k v m

  -- delete(m, k)
  unfoldable pub delete : Bytes → Dict V → Dict V
  delete k [] = []
  delete k ((j, w) ∷ m) = let rest = delete k m in if eqb j k then rest else (j, w) ∷ rest

  -- maps.DeleteFunc, for a test on the key.
  unfoldable pub delete_if : (Bytes → Bool) → Dict V → Dict V
  delete_if t [] = []
  delete_if t ((j, w) ∷ m) = let rest = delete_if t m in if t j then rest else (j, w) ∷ rest

  pub get-put :
      (k j : Bytes) (v : V) (m : Dict V) → get j (put k v m) ≡ (if eqb k j then some v else get j m)
  unfolding get put
  get-put k j v [] = refl
  get-put k j v ((i, w) ∷ m) =
      ground (arith, eqb_iff i k, eqb_iff i j, eqb_iff k j, get-put k j v m)

  pub get-delete :
      (k j : Bytes) (m : Dict V) → get j (delete k m) ≡ (if eqb k j then none else get j m)
  unfolding get delete
  get-delete k j [] = ground arith
  get-delete k j ((i, w) ∷ m) =
      ground (arith, eqb_iff i k, eqb_iff i j, eqb_iff k j, get-delete k j m)

  pub get-delete_if :
      (t : Bytes → Bool) (j : Bytes) (m : Dict V)
      → get j (delete_if t m) ≡ (if t j then none else get j m)
  unfolding get delete_if
  get-delete_if t j [] = ground arith
  get-delete_if t j ((i, w) ∷ m) = ground (arith, eqb_iff i j, get-delete_if t j m)

-- No two entries have the same key.
module _ {ℓ} {V : Type ℓ} where
  abbrev pub Apart : Bytes → Dict V → Type 0
  Apart k [] = Unit
  Apart k ((j, _) ∷ m) = (eqb k j ≡ false) × Apart k m

  abbrev pub Distinct : Dict V → Type 0
  Distinct [] = Unit
  Distinct ((k, _) ∷ m) = Apart k m × Distinct m

  pub get-Apart : (k : Bytes) (m : Dict V) → Apart k m → get k m ≡ none
  unfolding get
  get-Apart k [] h = refl
  get-Apart k ((j, w) ∷ m) (hj, hm) = ground (arith, eqb_iff k j, eqb_iff j k, get-Apart k m hm)

  -- Every key of the second map is missing from the first.
  abbrev pub Missing : Dict V → Dict V → Type ℓ
  Missing acc [] = Unit
  Missing acc ((k, _) ∷ m) = (get k acc ≡ none) × Missing acc m

  -- The loop `for k, v := range m { acc[k] = v }`.
  unfoldable pub put_all : Dict V → Dict V → Dict V
  put_all acc [] = acc
  put_all acc ((k, v) ∷ m) = put_all (put k v acc) m

  put-missing : (k : Bytes) (v : V) (m : Dict V) → get k m ≡ none → put k v m ≡ m ++ (k, v) ∷ []
  unfolding get put
  put-missing k v [] h = refl
  put-missing k v ((j, w) ∷ m) h = ground (arith, put-missing k v m)

  Missing-put :
      (k : Bytes) (v : V) (acc m : Dict V) → Apart k m → Missing acc m → Missing (put k v acc) m
  Missing-put k v acc [] h g = tt
  Missing-put k v acc ((j, w) ∷ m) (hj, hm) (gj, gm) =
      (ground (arith, get-put k j v acc), Missing-put k v acc m hm gm)

  pub put_all-append : (acc m : Dict V) → Distinct m → Missing acc m → put_all acc m ≡ acc ++ m
  unfolding put_all
  put_all-append acc [] h g = rw append-nil
  put_all-append acc ((k, v) ∷ m) (hk, hm) (gk, gm) =
      put_all-append (put k v acc) m hm (Missing-put k v acc m hk gm)
      ∙ rw (put-missing k v acc gk, append_assoc acc ((k, v) ∷ []) m)

  Missing-nil : (m : Dict V) → Missing [] m
  unfolding get
  Missing-nil [] = tt
  Missing-nil ((k, v) ∷ m) = (refl, Missing-nil m)

  pub put_all-nil : (m : Dict V) → Distinct m → put_all [] m ≡ m
  put_all-nil m h = put_all-append [] m h (Missing-nil m)

pub ruleset dict_laws = (get-put, get-delete, get-delete_if)
