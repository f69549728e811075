-- ===== src/Unroll/Latest.antt =====
-- The item that a walk of groups leaves under a name (pkg/geneos/utils.go).
use cordial.Common.{
  ◌≡◌, refl, sym, ap, ◌∙◌, Bool, true, false, Option, none, some, List, Bytes, eqb, eqb_iff, [],
  ◌∷◌, ◌++◌, if◌then◌else◌, arith, Bool-cases, inl, inr,
}
use cordial.Dict.{Dict, get, put, get-put, Apart, get-Apart}
use cordial.Unroll.Groups.{
  Group, Groups, group, no_group, one_more, Tree, values, add_enabled, add_all, unroll_group,
  add_groups, unroll, unroll_samplers,
}

abbrev pub or_else {ℓ} : {A : Type ℓ} → Option A → Option A → Option A
or_else (some a) o = some a
or_else none o = o

pub or_else_assoc {ℓ} :
    {A : Type ℓ} (a b c : Option A) → or_else (or_else a b) c ≡ or_else a (or_else b c)
or_else_assoc (some a) b c = refl
or_else_assoc none b c = refl

pub or_else-none {ℓ} : {A : Type ℓ} (a : Option A) → or_else a none ≡ a
or_else-none (some a) = refl
or_else-none none = refl

module _ {ℓ} {A : Type ℓ} where
  -- All items of a group, its own first and then those of its groups, in order.
  mutual
    pub items_of : Group A → List A
    items_of (group n d items groups) = items ++ items_of_all groups

    pub items_of_all : Groups A → List A
    items_of_all no_group = []
    items_of_all (one_more g groups) = items_of g ++ items_of_all groups

  -- All items of a tree, in order.
  pub tree_items : Tree A → List A
  unfolding items_of
  tree_items t = t.items ++ items_of_all t.groups

module _ {A : Type 0} (name : A → Bytes) (is_disabled : A → Bool) where
  -- The last item of the name that is not disabled.
  abbrev pub enabled_as : Bytes → A → Option A
  enabled_as k a = if is_disabled a then none else if eqb (name a) k then some a else none

  abbrev pub latest : Bytes → List A → Option A
  latest k [] = none
  latest k (a ∷ items) = or_else (latest k items) (enabled_as k a)

  pub latest-append :
      (k : Bytes) (xs ys : List A) → latest k (xs ++ ys) ≡ or_else (latest k ys) (latest k xs)
  latest-append k [] ys = sym (or_else-none (latest k ys))
  latest-append k (x ∷ xs) ys =
      ap (λ o. or_else o (enabled_as k x)) (latest-append k xs ys)
      ∙ or_else_assoc (latest k ys) (latest k xs) (enabled_as k x)

  get-add_one :
      (k : Bytes) (a : A) (m : Dict A)
      → get k (if is_disabled a then m else put (name a) a m) ≡ or_else (enabled_as k a) (get k m)
  get-add_one k a m = ground (arith, get-put (name a) k a m)

  pub get-add_enabled :
      (k : Bytes) (items : List A) (m : Dict A)
      → get k (add_enabled name is_disabled items m) ≡ or_else (latest k items) (get k m)
  unfolding add_enabled
  get-add_enabled k [] m = refl
  get-add_enabled k (a ∷ items) m =
      get-add_enabled k items (if is_disabled a then m else put (name a) a m)
      ∙ (ap (or_else (latest k items)) (get-add_one k a m)
          ∙ sym (or_else_assoc (latest k items) (enabled_as k a) (get k m)))

  -- Each entry is an item that is not disabled, under its name, and no name is there twice.
  abbrev pub IsByName : Dict A → Type 0
  IsByName [] = Unit
  IsByName ((k, a) ∷ m) = (eqb (name a) k ≡ true) × (is_disabled a ≡ false) × Apart k m × IsByName m

  Apart-put : (j k : Bytes) (a : A) (m : Dict A) → eqb j k ≡ false → Apart j m → Apart j (put k a m)
  unfolding put
  Apart-put j k a [] e h = (e, tt)
  Apart-put j k a ((i, b) ∷ m) e (hi, hm) = ground (arith, Apart-put j k a m e hm)

  put-IsByName :
      (a : A) (m : Dict A) → is_disabled a ≡ false → IsByName m → IsByName (put (name a) a m)
  unfolding put
  put-IsByName a [] d h = (ground (arith, eqb_iff (name a) (name a)), d, tt, tt)
  put-IsByName a ((i, b) ∷ m) d (hn, hd, ha, hm) = elim (Bool-cases (eqb i (name a))) [
    | inl e ↦ rw e (ground (arith, eqb_iff i (name a), eqb_iff (name a) i), d, ha, hm)
    | inr e ↦ rw e (hn, hd, Apart-put i (name a) a m e ha, put-IsByName a m d hm)
  ]

  pub add_enabled-IsByName :
      (items : List A) (m : Dict A) → IsByName m → IsByName (add_enabled name is_disabled items m)
  unfolding add_enabled
  add_enabled-IsByName [] m h = h
  add_enabled-IsByName (a ∷ items) m h = elim (Bool-cases (is_disabled a)) [
    | inl e ↦ rw e (add_enabled-IsByName items m h)
    | inr e ↦ rw e (add_enabled-IsByName items (put (name a) a m) (put-IsByName a m e h))
  ]

  pub latest-values : (k : Bytes) (m : Dict A) → IsByName m → latest k (values m) ≡ get k m
  unfolding values get
  latest-values k [] h = refl
  latest-values k ((i, b) ∷ m) (hn, hd, ha, hm) = ground (
    arith,
    latest-values k m hm,
    get-Apart i m ha,
    eqb_iff (name b) i,
    eqb_iff i k,
    eqb_iff (name b) k,
  )

  mutual
    unfolding unroll_group

    unroll_group-IsByName : (g : Group A) → IsByName (unroll_group name is_disabled g)
    unroll_group-IsByName (group n d items groups) =
        add_groups-IsByName groups (add_enabled name is_disabled items [])
          (add_enabled-IsByName items [] tt)

    add_groups-IsByName :
        (gs : Groups A) (m : Dict A) → IsByName m → IsByName (add_groups name is_disabled gs m)
    add_groups-IsByName no_group m h = h
    add_groups-IsByName (one_more g gs) m h =
        add_groups-IsByName gs
          (add_enabled name is_disabled (values (unroll_group name is_disabled g)) m)
          (add_enabled-IsByName (values (unroll_group name is_disabled g)) m h)

  mutual
    unfolding unroll_group items_of get

    get-unroll_group :
        (k : Bytes) (g : Group A) → get k (unroll_group name is_disabled g) ≡ latest k (items_of g)
    get-unroll_group k (group n d items groups) =
        get-add_groups k groups (add_enabled name is_disabled items [])
        ∙ (ap (or_else (latest k (items_of_all groups)))
              (get-add_enabled k items [] ∙ or_else-none (latest k items))
            ∙ sym (latest-append k items (items_of_all groups)))

    get-add_groups :
        (k : Bytes) (gs : Groups A) (m : Dict A)
        → get k (add_groups name is_disabled gs m) ≡ or_else (latest k (items_of_all gs)) (get k m)
    get-add_groups k no_group m = refl
    get-add_groups k (one_more g gs) m =
        get-add_groups k gs
          (add_enabled name is_disabled (values (unroll_group name is_disabled g)) m)
        ∙ (ap (or_else (latest k (items_of_all gs))) (
              get-add_enabled k (values (unroll_group name is_disabled g)) m
              ∙ ap (λ o. or_else o (get k m))
                  (latest-values k (unroll_group name is_disabled g) (unroll_group-IsByName g)
                    ∙ get-unroll_group k g))
            ∙ (sym (or_else_assoc (latest k (items_of_all gs)) (latest k (items_of g)) (get k m))
                ∙ ap (λ o. or_else o (get k m))
                    (sym (latest-append k (items_of g) (items_of_all gs)))))

  -- A tree is unrolled to what one loop over all its items, in order, leaves: under each name the last
  -- item that is not disabled, those of the groups after those beside the groups. A disabled group does
  -- not hide what is in it.
  pub get-unroll :
      (k : Bytes) (t : Tree A) → get k (unroll name is_disabled (some t)) ≡ latest k (tree_items t)
  unfolding unroll tree_items get
  get-unroll k t =
      get-add_groups k t.groups (add_enabled name is_disabled t.items [])
      ∙ (ap (or_else (latest k (items_of_all t.groups)))
            (get-add_enabled k t.items [] ∙ or_else-none (latest k t.items))
          ∙ sym (latest-append k t.items (items_of_all t.groups)))

  -- The last item of the name, disabled or not.
  abbrev pub last_named : Bytes → List A → Option A
  last_named k [] = none
  last_named k (a ∷ items) = or_else (last_named k items) (if eqb (name a) k then some a else none)

  get-add_all :
      (k : Bytes) (items : List A) (m : Dict A)
      → get k (add_all name is_disabled items m) ≡ or_else (last_named k items) (get k m)
  unfolding add_all
  get-add_all k [] m = refl
  get-add_all k (a ∷ items) m =
      get-add_all k items (put (name a) a m)
      ∙ (ap (or_else (last_named k items)) (ground (arith, get-put (name a) k a m))
          ∙ sym (
              or_else_assoc (last_named k items) (if eqb (name a) k then some a else none)
                (get k m)))

  hidden : (k : Bytes) (items : List A) → last_named k items ≡ none → latest k items ≡ none
  hidden k [] h = refl
  hidden k (a ∷ items) h = ground (arith, hidden k items)

  -- The samplers beside the groups are there whether they are disabled or not: under each name is the last
  -- sampler in a group that is not disabled, and if there is none the last one beside the groups.
  get-unroll_samplers :
      (k : Bytes) (t : Tree A)
      → get k (unroll_samplers name is_disabled (some t))
        ≡ or_else (latest k (items_of_all t.groups)) (last_named k t.items)
  unfolding unroll_samplers get
  get-unroll_samplers k t =
      get-add_groups k t.groups
        (add_all name is_disabled t.items (add_enabled name is_disabled t.items []))
      ∙ ap (or_else (latest k (items_of_all t.groups))) (
          get-add_all k t.items (add_enabled name is_disabled t.items [])
          ∙ (ap (or_else (last_named k t.items)) (get-add_enabled k t.items [])
              ∙ ground (arith, hidden k t.items, get-nil k)))
    where
      get-nil : (j : Bytes) → or_else (latest j t.items) none ≡ latest j t.items
      get-nil j = or_else-none (latest j t.items)
