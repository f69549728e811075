-- ===== src/Unroll/Entities.antt =====
-- UnrollEntities, unrollEntityGroup, resolveGroup, resolveSamplersFromGroup, resolveEntitySamplers,
-- RemoveDuplicates, and setDefaults for ManagedEntityInfo (pkg/geneos/utils.go). A nil list of removals
-- or additions is the empty one. The fields of an entity that are only copied are left out.
use cordial.Common.{
  Bool, true, Option, none, some, List, Bytes, codes, [], ◌∷◌, ◌++◌, if◌then◌else◌, is_some,
}
use cordial.Dict.{Dict, get, put, delete}
use cordial.Unroll.Groups.{values, add_enabled}

-- Attribute and Vars: the name is the key, and the value is only copied.
pub record Named : Type 0 where
  pub name : Bytes
  pub value : Bytes

pub record SamplerRef : Type 0 where
  pub name : Bytes
  pub is_disabled : Bool

-- The types that are unrolled, by their samplers.
abbrev pub Types : Type 0
Types = Dict (List SamplerRef)

pub record ManagedEntityInfo : Type 0 where
  pub attributes : List Named
  pub remove_types : List Bytes
  pub remove_samplers : List (Bytes × Bytes)
  pub add_types : List Bytes
  pub vars : List Named
  pub resolved_samplers : Option (Dict Bool)

pub record ManagedEntity : Type 0 where
  pub name : Bytes
  pub is_disabled : Bool
  pub info : ManagedEntityInfo
  pub samplers : List SamplerRef

mutual
  pub data ManagedEntityGroup : Type 0 where
    entity_group :
        (name : Bytes) (is_disabled : Bool) (info : ManagedEntityInfo)
        (entities : List ManagedEntity) (groups : ManagedEntityGroups)
        → ManagedEntityGroup

  pub data ManagedEntityGroups : Type 0 where
    no_group : ManagedEntityGroups
    one_more : ManagedEntityGroup → ManagedEntityGroups → ManagedEntityGroups

-- RemoveDuplicates, with the keys that were seen.
unfoldable pub remove_seen : Dict Bool → List Named → List Named
remove_seen seen [] = []
remove_seen seen (v ∷ kvs) =
    let passed_over = remove_seen seen kvs in
    let kept = v ∷ remove_seen (put v.name true seen) kvs in
    if is_some (get v.name seen) then passed_over else kept

unfoldable pub remove_duplicates : List Named → List Named
unfolding remove_seen
remove_duplicates kvs = remove_seen [] kvs

-- setDefaults: the slices of the source are appended, and the other fields are not inherited.
unfoldable pub set_defaults_entity : ManagedEntityInfo → ManagedEntityInfo → ManagedEntityInfo
set_defaults_entity source dest = record dest {
  attributes = dest.attributes ++ source.attributes;
  vars = dest.vars ++ source.vars;
}

unfoldable pub without_duplicates : ManagedEntityInfo → ManagedEntityInfo
unfolding remove_duplicates
without_duplicates i = record i {
  attributes = remove_duplicates i.attributes;
  vars = remove_duplicates i.vars;
}

abbrev pub key_of : Bytes → Bytes → Bytes
key_of type sampler = type ++ (codes ":" ++ sampler)

-- types[at].Samplers, which is empty for a type that is not there.
abbrev pub samplers_of : Types → Bytes → List SamplerRef
samplers_of types t = elim (get t types) [ some l ↦ l | none ↦ [] ]

-- The loops that set a key for each sampler that is not disabled.
unfoldable pub add_samplers : Bytes → List SamplerRef → Dict Bool → Dict Bool
add_samplers type [] m = m
add_samplers type (s ∷ samplers) m =
    add_samplers type samplers (if s.is_disabled then m else put (key_of type s.name) true m)

unfoldable pub add_types : Types → List Bytes → Dict Bool → Dict Bool
unfolding add_samplers
add_types types [] m = m
add_types types (t ∷ list) m = add_types types list (add_samplers t (samplers_of types t) m)

-- The loops over RemoveTypes and RemoveSamplers.
unfoldable pub delete_samplers : Bytes → List SamplerRef → Dict Bool → Dict Bool
delete_samplers type [] m = m
delete_samplers type (s ∷ samplers) m =
    delete_samplers type samplers (delete (key_of type s.name) m)

unfoldable pub remove_types : Types → List Bytes → Dict Bool → Dict Bool
unfolding delete_samplers
remove_types types [] m = m
remove_types types (t ∷ list) m =
    remove_types types list (delete_samplers t (samplers_of types t) m)

unfoldable pub remove_samplers : List (Bytes × Bytes) → Dict Bool → Dict Bool
remove_samplers [] m = m
remove_samplers ((t, s) ∷ list) m = remove_samplers list (delete (key_of t s) m)

abbrev pub or_empty : Option (Dict Bool) → Dict Bool
or_empty none = []
or_empty (some m) = m

-- The map of `to`, which is that of `from` where it is nil.
abbrev pub inherited : Option (Dict Bool) → Option (Dict Bool) → Dict Bool
inherited from (some m) = m
inherited from none = or_empty from

-- resolveGroup
unfoldable pub resolve_group : Types → ManagedEntityInfo → ManagedEntityInfo
unfolding add_types
resolve_group types group = record group {
  resolved_samplers = some (add_types types group.add_types (or_empty group.resolved_samplers));
}

-- resolveSamplersFromGroup
unfoldable pub resolve_samplers_from_group :
    Types → (from : ManagedEntityInfo) → (to : ManagedEntityInfo) → ManagedEntityInfo
unfolding add_types remove_types remove_samplers
resolve_samplers_from_group types from to = record to {
  resolved_samplers = some (
      add_types types to.add_types (
        remove_samplers from.remove_samplers (
          remove_types types from.remove_types
            (inherited from.resolved_samplers to.resolved_samplers))));
}

-- What resolveEntitySamplers starts from: the group is `none` for an entity in no group.
unfoldable pub from_group : Types → Option ManagedEntityInfo → Option (Dict Bool) → Dict Bool
unfolding remove_types remove_samplers
from_group types none own = or_empty own
from_group types (some g) own =
    remove_samplers g.remove_samplers
      (remove_types types g.remove_types (inherited g.resolved_samplers own))

-- resolveEntitySamplers
unfoldable pub resolve_entity_samplers :
    Types → Option ManagedEntityInfo → ManagedEntity → Dict Bool
unfolding add_types add_samplers from_group
resolve_entity_samplers types group entity =
    add_types types entity.info.add_types
      (add_samplers [] entity.samplers (from_group types group entity.info.resolved_samplers))

abbrev pub resolved : Types → Option ManagedEntityInfo → ManagedEntity → ManagedEntity
resolved types group entity = record entity {
  info = record entity.info {
    resolved_samplers = some (resolve_entity_samplers types group entity);
  };
}

-- The loop of unrollEntityGroup over the entities.
unfoldable pub add_entities :
    Types → ManagedEntityInfo → List ManagedEntity → Dict ManagedEntity → Dict ManagedEntity
unfolding resolve_entity_samplers without_duplicates set_defaults_entity
add_entities types info [] m = m
add_entities types info (e ∷ entities) m = add_entities types info entities (
    if e.is_disabled
    then m
    else put e.name
        (resolved types (some info)
          (record e { info = without_duplicates (set_defaults_entity info e.info) }))
        m)

abbrev pub own_info : ManagedEntityGroup → ManagedEntityInfo
own_info (entity_group n d info entities gs) = info

unfoldable mutual
  unfolding add_entities without_duplicates set_defaults_entity resolve_samplers_from_group
      add_enabled values

  -- unrollEntityGroup of a group, with its info as it is after the groups around it.
  pub unroll_entity_group : Types → ManagedEntityInfo → ManagedEntityGroup → Dict ManagedEntity
  unroll_entity_group types info (entity_group n d own entities gs) =
      let found =
        unroll_entity_groups types (without_duplicates info) gs
          (add_entities types info entities []) in
      if d then [] else found

  pub unroll_entity_groups :
      Types → ManagedEntityInfo → ManagedEntityGroups → Dict ManagedEntity → Dict ManagedEntity
  unroll_entity_groups types info no_group m = m
  unroll_entity_groups types info (one_more g gs) m = unroll_entity_groups types info gs (
      add_enabled (λ (e : ManagedEntity). e.name) (λ e. e.is_disabled)
        (values (
          unroll_entity_group types
            (resolve_samplers_from_group types info (set_defaults_entity info (own_info g))) g))
        m)

-- The loop of UnrollEntities over the entities in no group.
unfoldable pub add_own_entities :
    Types → List ManagedEntity → Dict ManagedEntity → Dict ManagedEntity
unfolding resolve_entity_samplers
add_own_entities types [] m = m
add_own_entities types (e ∷ entities) m =
    add_own_entities types entities
      (if e.is_disabled then m else put e.name (resolved types none e) m)

unfoldable pub add_entity_groups :
    Types → ManagedEntityGroups → Dict ManagedEntity → Dict ManagedEntity
unfolding unroll_entity_group resolve_group add_enabled values
add_entity_groups types no_group m = m
add_entity_groups types (one_more g gs) m = add_entity_groups types gs (
    add_enabled (λ (e : ManagedEntity). e.name) (λ e. e.is_disabled)
      (values (unroll_entity_group types (resolve_group types (own_info g)) g)) m)

pub record ManagedEntities : Type 0 where
  pub entities : List ManagedEntity
  pub groups : ManagedEntityGroups

-- UnrollEntities; `none` is nil.
unfoldable pub unroll_entities : Types → Option ManagedEntities → Dict ManagedEntity
unfolding add_own_entities add_entity_groups
unroll_entities types none = []
unroll_entities types (some t) =
    add_entity_groups types t.groups (add_own_entities types t.entities [])
