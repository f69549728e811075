-- ===== src/Instance/Matched.antt =====
-- The names that Match returns for patterns that need not match
-- (tools/geneos/internal/instance/instance.go).
use cordial.Common.{
  ◌≡◌, ◌∙◌, refl, sym, ap, true, false, Bool, not, ◌&&◌, ◌||◌, none, some, List, Bytes, eqb,
  eqb_iff, [], ◌∷◌, ◌++◌, arith, any, Bool-cases, inl, inr, is_some, append_assoc, append-nil,
}
use cordial.Dict.{Dict, get, put, get-put}
use cordial.Components.{Component}
use cordial.Instance.Names.{
  Hosts, expand_pattern, expand_patterns, unseen, or_patterns, match_names,
}

abbrev pub lists : Bytes → List Bytes → Bool
lists k names = any (λ n. eqb n k) names

abbrev pub HasNoDuplicates : List Bytes → Type 0
HasNoDuplicates [] = Unit
HasNoDuplicates (n ∷ names) = (lists n names ≡ false) × HasNoDuplicates names

abbrev has : Bytes → Dict Bool → Bool
has k m = is_some (get k m)

has-put : (j k : Bytes) (m : Dict Bool) → has k (put j true m) ≡ eqb j k || has k m
has-put j k m = ground (arith, get-put j k true m)

lists-unseen :
    (k : Bytes) (names : List Bytes) (seen : Dict Bool)
    → lists k (unseen seen names) ≡ not (has k seen) && lists k names
unfolding unseen any
lists-unseen k [] seen = ground arith
lists-unseen k (n ∷ names) seen = elim (Bool-cases (has n seen)) [
  | inl e ↦ rw e (ground (arith, eqb_iff n k, lists-unseen k names seen, e))
  | inr e ↦
      rw e
        (ground (arith, eqb_iff n k, lists-unseen k names (put n true seen), has-put n k seen, e))
]

unseen-HasNoDuplicates :
    (names : List Bytes) (seen : Dict Bool) → HasNoDuplicates (unseen seen names)
unfolding unseen
unseen-HasNoDuplicates [] seen = tt
unseen-HasNoDuplicates (n ∷ names) seen = elim (Bool-cases (has n seen)) [
  | inl e ↦ rw e (unseen-HasNoDuplicates names seen)
  | inr e ↦ rw e (
    ground (arith, lists-unseen n names (put n true seen), has-put n n seen, eqb_iff n n),
    unseen-HasNoDuplicates names (put n true seen),
  )
]

lists-append : (k : Bytes) (a b : List Bytes) → lists k (a ++ b) ≡ lists k a || lists k b
unfolding any
lists-append k [] b = refl
lists-append k (n ∷ a) b = ground (arith, lists-append k a b)

module _ (hosts : Hosts) (registered : List Component)
    (all_instance_names : hosts.Host → List Bytes) (glob : Bytes → Bytes → Bool) where
  -- What a pattern gives that need not match.
  abbrev pub given : Bool → hosts.Host → Bytes → List Bytes
  given keep_hosts h p =
      elim (expand_pattern hosts registered all_instance_names glob keep_hosts false h p)
        as (λ _. List Bytes) [ none ↦ [] | some names ↦ names ]

  abbrev gathered : Bool → hosts.Host → List Bytes → List Bytes
  gathered keep_hosts h [] = []
  gathered keep_hosts h (p ∷ patterns) = given keep_hosts h p ++ gathered keep_hosts h patterns

  expand_pattern-given :
      (keep_hosts : Bool) (h : hosts.Host) (p : Bytes)
      → expand_pattern hosts registered all_instance_names glob keep_hosts false h p
        ≡ some (given keep_hosts h p)
  unfolding expand_pattern
  expand_pattern-given keep_hosts h p = ground arith

  expand_patterns-gathered :
      (keep_hosts : Bool) (h : hosts.Host) (names patterns : List Bytes)
      → expand_patterns hosts registered all_instance_names glob keep_hosts false h names patterns
        ≡ inr (names ++ gathered keep_hosts h patterns)
  unfolding expand_patterns
  expand_patterns-gathered keep_hosts h names [] = ap inr (sym (append-nil names))
  expand_patterns-gathered keep_hosts h names (p ∷ patterns) =
      rw (expand_pattern-given keep_hosts h p, expand_patterns)
        (expand_patterns-gathered keep_hosts h (names ++ given keep_hosts h p) patterns
          ∙ ap inr (append_assoc names (given keep_hosts h p) (gathered keep_hosts h patterns)))

  lists-gathered :
      (keep_hosts : Bool) (h : hosts.Host) (k : Bytes) (patterns : List Bytes)
      → lists k (gathered keep_hosts h patterns)
        ≡ any (λ p. lists k (given keep_hosts h p)) patterns
  unfolding any
  lists-gathered keep_hosts h k [] = refl
  lists-gathered keep_hosts h k (p ∷ patterns) =
      lists-append k (given keep_hosts h p) (gathered keep_hosts h patterns)
      ∙ ap (λ b. lists k (given keep_hosts h p) || b) (lists-gathered keep_hosts h k patterns)

  -- Where patterns need not match, there is no error. The result is a list of names without
  -- duplicates, which holds a name exactly if one of the patterns gives it, or the patterns
  -- themselves where that list is empty.
  pub match_names-given :
      (keep_hosts : Bool) (h : hosts.Host) (patterns : List Bytes)
      → (names : List Bytes) × (match_names hosts registered all_instance_names glob keep_hosts
            false h patterns
          ≡ inr (or_patterns patterns names))
        × HasNoDuplicates names
        × ((k : Bytes) → lists k names ≡ any (λ p. lists k (given keep_hosts h p)) patterns)
  unfolding match_names get
  match_names-given keep_hosts h patterns = (
    unseen [] (gathered keep_hosts h patterns),
    rw (expand_patterns-gathered keep_hosts h [] patterns, match_names) refl,
    unseen-HasNoDuplicates (gathered keep_hosts h patterns) [],
    λ k.
        lists-unseen k (gathered keep_hosts h patterns) [] ∙ lists-gathered keep_hosts h k patterns,
  )
