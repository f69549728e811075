-- ===== src/Unroll/Groups.antt =====
-- UnrollTypes, UnrollSamplers and UnrollProcessDescriptors with the walks of their groups
-- (pkg/geneos/utils.go). The three walks are the same code for three types, whose items have a name
-- and can be disabled; a group's own flag is not read.
use cordial.Common.{Bool, Option, none, some, List, Bytes, [], ◌∷◌, if◌then◌else◌}
use cordial.Dict.{Dict, put}

mutual
  pub data Group {ℓ} (A : Type ℓ) : Type ℓ where
    group : (name : Bytes) (is_disabled : Bool) (items : List A) (groups : Groups A) → Group A

  pub data Groups {ℓ} (A : Type ℓ) : Type ℓ where
    no_group : Groups A
    one_more : Group A → Groups A → Groups A

-- The top level: TypeGroups, SamplerGroups and ProcessDescriptorGroups beside the items.
pub record Tree {ℓ} (A : Type ℓ) : Type ℓ where
  pub items : List A
  pub groups : Groups A

-- The values that a `range` loop visits.
unfoldable pub values {ℓ} : {A : Type ℓ} → Dict A → List A
values [] = []
values ((_, v) ∷ m) = v ∷ values m

module _ {ℓ} {A : Type ℓ} (name : A → Bytes) (is_disabled : A → Bool) where
  -- The loop over items, in which a disabled one is passed over.
  unfoldable pub add_enabled : List A → Dict A → Dict A
  add_enabled [] m = m
  add_enabled (a ∷ items) m = add_enabled items (if is_disabled a then m else put (name a) a m)

  -- The loop of UnrollSamplers that does not pass over the disabled ones.
  unfoldable pub add_all : List A → Dict A → Dict A
  add_all [] m = m
  add_all (a ∷ items) m = add_all items (put (name a) a m)

  unfoldable mutual
    unfolding add_enabled values

    -- unrollTypeGroup, unrollSamplerGroup, unrollProcessDescriptorGroups
    pub unroll_group : Group A → Dict A
    unroll_group (group n d items groups) = add_groups groups (add_enabled items [])

    pub add_groups : Groups A → Dict A → Dict A
    add_groups no_group m = m
    add_groups (one_more g groups) m = add_groups groups (add_enabled (values (unroll_group g)) m)

  -- UnrollTypes, UnrollProcessDescriptors; `none` is nil.
  unfoldable pub unroll : Option (Tree A) → Dict A
  unfolding add_groups add_enabled
  unroll none = []
  unroll (some t) = add_groups t.groups (add_enabled t.items [])

  -- UnrollSamplers
  unfoldable pub unroll_samplers : Option (Tree A) → Dict A
  unfolding add_groups add_enabled add_all
  unroll_samplers none = []
  unroll_samplers (some t) = add_groups t.groups (add_all t.items (add_enabled t.items []))

  -- The functions of the three types, which are the same code.
  abbrev pub unroll_types : Option (Tree A) → Dict A
  unroll_types t = unroll t

  abbrev pub unroll_process_descriptors : Option (Tree A) → Dict A
  unroll_process_descriptors t = unroll t

  abbrev pub unroll_type_group : Group A → Dict A
  unroll_type_group g = unroll_group g

  abbrev pub unroll_sampler_group : Group A → Dict A
  unroll_sampler_group g = unroll_group g

  abbrev pub unroll_process_descriptor_groups : Group A → Dict A
  unroll_process_descriptor_groups g = unroll_group g
