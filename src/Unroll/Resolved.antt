-- ===== src/Unroll/Resolved.antt =====
-- The samplers that an entity ends with, and the duplicates that are removed (pkg/geneos/utils.go).
use cordial.Common.{
  ◌≡◌, refl, ap, ◌∙◌, inl, inr, Bool, true, false, not, ◌&&◌, ◌||◌, Option, none, some, List, Bytes,
  eqb, eqb_iff, [], ◌∷◌, if◌then◌else◌, is_some, any, arith, Bool-cases,
}
use cordial.Dict.{Dict, get, put, delete, get-put, get-delete}
use cordial.Unroll.Entities.{
  Named, SamplerRef, Types, ManagedEntityInfo, ManagedEntity, remove_seen, remove_duplicates,
  key_of, samplers_of, add_samplers, add_types, delete_samplers, remove_types, remove_samplers,
  or_empty, inherited, resolve_samplers_from_group, from_group, resolve_entity_samplers,
}

abbrev pub has : Bytes → Dict Bool → Bool
has k m = is_some (get k m)

-- The key is that of a sampler in the list that is not disabled, or of any sampler in it.
abbrev pub enables : Bytes → Bytes → List SamplerRef → Bool
enables k type samplers =
    any (λ (s : SamplerRef). not s.is_disabled && eqb (key_of type s.name) k) samplers

abbrev pub lists : Bytes → Bytes → List SamplerRef → Bool
lists k type samplers = any (λ (s : SamplerRef). eqb (key_of type s.name) k) samplers

abbrev pub types_enable : Types → Bytes → List Bytes → Bool
types_enable types k added = any (λ t. enables k t (samplers_of types t)) added

-- The removals of a group name the key.
abbrev pub removes : Types → Bytes → ManagedEntityInfo → Bool
removes types k group =
    any (λ t. lists k t (samplers_of types t)) group.remove_types
    || any (λ (r : Bytes × Bytes). eqb (key_of r.0 r.1) k) group.remove_samplers

or_assoc : (a b c : Bool) → (a || (b || c)) ≡ ((b || a) || c)
or_assoc true true c = refl
or_assoc true false c = refl
or_assoc false true c = refl
or_assoc false false c = refl

not_or : (a b c : Bool) → (not a && (not b && c)) ≡ (not (b || a) && c)
not_or true true c = refl
not_or true false c = refl
not_or false true c = refl
not_or false false c = refl

has-put : (j k : Bytes) (m : Dict Bool) → has k (put j true m) ≡ eqb j k || has k m
has-put j k m = ground (arith, get-put j k true m)

has-delete : (j k : Bytes) (m : Dict Bool) → has k (delete j m) ≡ not (eqb j k) && has k m
has-delete j k m = ground (arith, get-delete j k m)

has-add_one :
    (k type : Bytes) (s : SamplerRef) (m : Dict Bool)
    → has k (if s.is_disabled then m else put (key_of type s.name) true m)
      ≡ (not s.is_disabled && eqb (key_of type s.name) k) || has k m
has-add_one k type s m = ground (arith, has-put (key_of type s.name) k m)

has-add_samplers :
    (k type : Bytes) (samplers : List SamplerRef) (m : Dict Bool)
    → has k (add_samplers type samplers m) ≡ enables k type samplers || has k m
unfolding add_samplers any
has-add_samplers k type [] m = refl
has-add_samplers k type (s ∷ samplers) m =
    has-add_samplers k type samplers (if s.is_disabled then m else put (key_of type s.name) true m)
    ∙ (ap (λ b. enables k type samplers || b) (has-add_one k type s m)
        ∙ or_assoc (enables k type samplers) (not s.is_disabled && eqb (key_of type s.name) k)
            (has k m))

has-add_types :
    (types : Types) (k : Bytes) (added : List Bytes) (m : Dict Bool)
    → has k (add_types types added m) ≡ types_enable types k added || has k m
unfolding add_types any
has-add_types types k [] m = refl
has-add_types types k (t ∷ added) m =
    has-add_types types k added (add_samplers t (samplers_of types t) m)
    ∙ (ap (λ b. types_enable types k added || b) (has-add_samplers k t (samplers_of types t) m)
        ∙ or_assoc (types_enable types k added) (enables k t (samplers_of types t)) (has k m))

has-delete_samplers :
    (k type : Bytes) (samplers : List SamplerRef) (m : Dict Bool)
    → has k (delete_samplers type samplers m) ≡ not (lists k type samplers) && has k m
unfolding delete_samplers any
has-delete_samplers k type [] m = refl
has-delete_samplers k type (s ∷ samplers) m =
    has-delete_samplers k type samplers (delete (key_of type s.name) m)
    ∙ (ap (λ b. not (lists k type samplers) && b) (has-delete (key_of type s.name) k m)
        ∙ not_or (lists k type samplers) (eqb (key_of type s.name) k) (has k m))

has-remove_types :
    (types : Types) (k : Bytes) (removed : List Bytes) (m : Dict Bool)
    → has k (remove_types types removed m)
      ≡ not (any (λ t. lists k t (samplers_of types t)) removed) && has k m
unfolding remove_types any
has-remove_types types k [] m = refl
has-remove_types types k (t ∷ removed) m =
    has-remove_types types k removed (delete_samplers t (samplers_of types t) m)
    ∙ (ap (λ b. not (any (λ u. lists k u (samplers_of types u)) removed) && b)
          (has-delete_samplers k t (samplers_of types t) m)
        ∙ not_or (any (λ u. lists k u (samplers_of types u)) removed)
            (lists k t (samplers_of types t)) (has k m))

has-remove_samplers :
    (k : Bytes) (removed : List (Bytes × Bytes)) (m : Dict Bool)
    → has k (remove_samplers removed m)
      ≡ not (any (λ (r : Bytes × Bytes). eqb (key_of r.0 r.1) k) removed) && has k m
unfolding remove_samplers any
has-remove_samplers k [] m = refl
has-remove_samplers k ((t, s) ∷ removed) m =
    has-remove_samplers k removed (delete (key_of t s) m)
    ∙ (ap (λ b. not (any (λ (r : Bytes × Bytes). eqb (key_of r.0 r.1) k) removed) && b)
          (has-delete (key_of t s) k m)
        ∙ not_or (any (λ (r : Bytes × Bytes). eqb (key_of r.0 r.1) k) removed) (eqb (key_of t s) k)
            (has k m))

has-removed :
    (types : Types) (k : Bytes) (group : ManagedEntityInfo) (m : Dict Bool)
    → has k (remove_samplers group.remove_samplers (remove_types types group.remove_types m))
      ≡ not (removes types k group) && has k m
has-removed types k group m =
    has-remove_samplers k group.remove_samplers (remove_types types group.remove_types m)
    ∙ (ap
          (λ b.
            not (any (λ (r : Bytes × Bytes). eqb (key_of r.0 r.1) k) group.remove_samplers) && b)
          (has-remove_types types k group.remove_types m)
        ∙ not_or (any (λ (r : Bytes × Bytes). eqb (key_of r.0 r.1) k) group.remove_samplers)
            (any (λ t. lists k t (samplers_of types t)) group.remove_types) (has k m))

-- A child group ends with the samplers of the types that it adds, and with those of the group around it
-- that this group does not remove; its own removals are left to what is in it.
pub has-resolve_samplers_from_group :
    (types : Types) (k : Bytes) (from to : ManagedEntityInfo)
    → has k (or_empty (resolve_samplers_from_group types from to).resolved_samplers)
      ≡ types_enable types k to.add_types
        || (not (removes types k from)
            && has k (inherited from.resolved_samplers to.resolved_samplers))
unfolding resolve_samplers_from_group
has-resolve_samplers_from_group types k from to =
    has-add_types types k to.add_types _
    ∙ ap (λ b. types_enable types k to.add_types || b)
        (has-removed types k from (inherited from.resolved_samplers to.resolved_samplers))

-- An entity in a group ends with the samplers of the types that it adds, with its own samplers that are
-- not disabled, and with those of the group that the group does not remove. Its own removals are not
-- read.
pub has-resolve_entity_samplers :
    (types : Types) (k : Bytes) (group : ManagedEntityInfo) (entity : ManagedEntity)
    → has k (resolve_entity_samplers types (some group) entity)
      ≡ types_enable types k entity.info.add_types
        || (enables k [] entity.samplers
            || (not (removes types k group)
                && has k (inherited group.resolved_samplers entity.info.resolved_samplers)))
unfolding resolve_entity_samplers from_group
has-resolve_entity_samplers types k group entity =
    has-add_types types k entity.info.add_types _
    ∙ ap (λ b. types_enable types k entity.info.add_types || b)
        (has-add_samplers k [] entity.samplers _
          ∙ ap (λ b. enables k [] entity.samplers || b)
              (has-removed types k group
                (inherited group.resolved_samplers entity.info.resolved_samplers)))

-- The first of the name.
abbrev pub first : Bytes → List Named → Option Named
first k [] = none
first k (v ∷ kvs) = let later = first k kvs in if eqb v.name k then some v else later

abbrev pub names : Bytes → List Named → Bool
names k kvs = any (λ (v : Named). eqb v.name k) kvs

abbrev pub HasNoDuplicates : List Named → Type 0
HasNoDuplicates [] = Unit
HasNoDuplicates (v ∷ kvs) = (names v.name kvs ≡ false) × HasNoDuplicates kvs

seen_gone :
    (k : Bytes) (kvs : List Named) (seen : Dict Bool)
    → has k seen ≡ true
    → names k (remove_seen seen kvs) ≡ false
unfolding remove_seen any
seen_gone k [] seen h = refl
seen_gone k (v ∷ kvs) seen h = elim (Bool-cases (has v.name seen)) [
  | inl e ↦ rw e (seen_gone k kvs seen h)
  | inr e ↦ rw e (
      ground (
        arith,
        eqb_iff v.name k,
        seen_gone k kvs (put v.name true seen) (ground (arith, has-put v.name k seen)),
        h,
        e,
      ))
]

remove_seen-HasNoDuplicates :
    (kvs : List Named) (seen : Dict Bool) → HasNoDuplicates (remove_seen seen kvs)
unfolding remove_seen
remove_seen-HasNoDuplicates [] seen = tt
remove_seen-HasNoDuplicates (v ∷ kvs) seen = elim (Bool-cases (has v.name seen)) [
  | inl e ↦ rw e (remove_seen-HasNoDuplicates kvs seen)
  | inr e ↦ rw e (
    seen_gone v.name kvs (put v.name true seen)
        (ground (arith, has-put v.name v.name seen, eqb_iff v.name v.name)),
    remove_seen-HasNoDuplicates kvs (put v.name true seen),
  )
]

first-remove_seen :
    (k : Bytes) (kvs : List Named) (seen : Dict Bool)
    → has k seen ≡ false
    → first k (remove_seen seen kvs) ≡ first k kvs
unfolding remove_seen
first-remove_seen k [] seen h = refl
first-remove_seen k (v ∷ kvs) seen h = elim (Bool-cases (has v.name seen)) [
  | inl e ↦ rw e (ground (arith, eqb_iff v.name k, first-remove_seen k kvs seen h, h, e))
  | inr e ↦ rw e (
      ground (
        arith,
        eqb_iff v.name k,
        λ (n : eqb v.name k ≡ false).
            first-remove_seen k kvs (put v.name true seen)
              (ground (arith, has-put v.name k seen, h, n)),
      ))
]

-- Removing duplicates leaves each name once, with what stood first under it.
remove_duplicates_lem :
    (k : Bytes) (kvs : List Named)
    → HasNoDuplicates (remove_duplicates kvs) × (first k (remove_duplicates kvs) ≡ first k kvs)
unfolding remove_duplicates get
remove_duplicates_lem k kvs = (remove_seen-HasNoDuplicates kvs [], first-remove_seen k kvs [] refl)
