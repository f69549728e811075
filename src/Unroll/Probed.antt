-- ===== src/Unroll/Probed.antt =====
-- What UnrollProbes leaves under each name (pkg/geneos/utils.go).
use mathlib.Core.Path.{ap₂}
use cordial.Common.{
  ◌≡◌, refl, sym, ap, ◌∙◌, Bool, true, false, Option, some, List, Bytes, [], ◌∷◌, ◌++◌, map,
  if◌then◌else◌, arith,
}
use cordial.Dict.{Dict, get}
use cordial.Unroll.Groups.{add_enabled}
use cordial.Unroll.Latest.{
  or_else, or_else_assoc, or_else-none, latest, get-add_enabled, latest-append,
}
use cordial.Unroll.Probes.{
  ProbeInfo, Probe, FloatingProbe, VirtualProbe, ProbeGroup, ProbeGroups, probe_group, no_group,
  one_more, Probes, Unrolled, nothing, also, enabled_virtual, enabled_only, enabled_only_floating,
  without_disabled, own_info, unroll_probe_group, unroll_probe_groups, of_floating, of_virtual,
  all_of, add_probes, add_probe_groups, unroll_probes,
}
use cordial.Unroll.Inherited.{
  defaulted, defaulted_lem, probes_in, floating_in, virtual_in, probes_below, probes_below_all,
  enabled_probes_lem, enabled_floating_lem, enabled_virtual_lem,
}

only_append : (a b : List Probe) → enabled_only (a ++ b) ≡ enabled_only a ++ enabled_only b
unfolding enabled_only
only_append [] b = refl
only_append (p ∷ a) b = ground (arith, only_append a b)

only_floating_append :
    (a b : List FloatingProbe)
    → enabled_only_floating (a ++ b) ≡ enabled_only_floating a ++ enabled_only_floating b
unfolding enabled_only_floating
only_floating_append [] b = refl
only_floating_append (p ∷ a) b = ground (arith, only_floating_append a b)

virtual_append :
    (a b : List VirtualProbe) → enabled_virtual (a ++ b) ≡ enabled_virtual a ++ enabled_virtual b
unfolding enabled_virtual
virtual_append [] b = refl
virtual_append (p ∷ a) b = ground (arith, virtual_append a b)

only_in :
    (groups : List ProbeInfo) (l : List Probe)
    → enabled_only (probes_in groups l) ≡ probes_in groups l
unfolding enabled_only
only_in groups [] = refl
only_in groups (p ∷ l) = ground (arith, only_in groups l)

only_floating_in :
    (groups : List ProbeInfo) (l : List FloatingProbe)
    → enabled_only_floating (floating_in groups l) ≡ floating_in groups l
unfolding enabled_only_floating
only_floating_in groups [] = refl
only_floating_in groups (p ∷ l) = ground (arith, only_floating_in groups l)

only_virtual_in : (l : List VirtualProbe) → enabled_virtual (virtual_in l) ≡ virtual_in l
unfolding enabled_virtual
only_virtual_in [] = refl
only_virtual_in (p ∷ l) = ground (arith, only_virtual_in l)

without_disabled-also :
    (a b : Unrolled)
    → without_disabled a ≡ a
    → without_disabled b ≡ b
    → without_disabled (also a b) ≡ also a b
unfolding without_disabled
without_disabled-also a b ha hb = ground (
  arith,
  only_append a.probes b.probes,
  only_floating_append a.floating_probes b.floating_probes,
  virtual_append a.virtual_probes b.virtual_probes,
  ha,
  hb,
)

nothing_disabled : without_disabled nothing ≡ nothing
unfolding without_disabled enabled_only enabled_only_floating enabled_virtual
nothing_disabled = refl

either :
    (d : Bool) (u : Unrolled)
    → without_disabled u ≡ u
    → without_disabled (if d then nothing else u) ≡ (if d then nothing else u)
either true u h = nothing_disabled
either false u h = h

own_enabled :
    (groups : List ProbeInfo) (p : List Probe) (f : List FloatingProbe) (v : List VirtualProbe)
    → without_disabled (record {
      probes = probes_in groups p;
      floating_probes = floating_in groups f;
      virtual_probes = virtual_in v;
    })
      ≡ record {
        probes = probes_in groups p;
        floating_probes = floating_in groups f;
        virtual_probes = virtual_in v;
      }
unfolding without_disabled
own_enabled groups p f v =
    ground (arith, only_in groups p, only_floating_in groups f, only_virtual_in v)

mutual
  unfolding probes_below

  below_enabled :
      (g : ProbeGroup) (groups : List ProbeInfo)
      → without_disabled (probes_below groups g) ≡ probes_below groups g
  below_enabled (probe_group n d own p f v gs) groups =
      either d
        (also
          (record {
            probes = probes_in (own ∷ groups) p;
            floating_probes = floating_in (own ∷ groups) f;
            virtual_probes = virtual_in v;
          })
          (probes_below_all (own ∷ groups) gs))
        (without_disabled-also
          (record {
            probes = probes_in (own ∷ groups) p;
            floating_probes = floating_in (own ∷ groups) f;
            virtual_probes = virtual_in v;
          })
          (probes_below_all (own ∷ groups) gs) (own_enabled (own ∷ groups) p f v)
          (all_below_enabled gs (own ∷ groups)))

  all_below_enabled :
      (gs : ProbeGroups) (groups : List ProbeInfo)
      → without_disabled (probes_below_all groups gs) ≡ probes_below_all groups gs
  all_below_enabled no_group groups = nothing_disabled
  all_below_enabled (one_more g gs) groups =
      without_disabled-also (probes_below groups g) (probes_below_all groups gs)
        (below_enabled g groups) (all_below_enabled gs groups)

mutual
  unfolding unroll_probe_group probes_below

  unroll_below :
      (g : ProbeGroup) (groups : List ProbeInfo)
      → unroll_probe_group (defaulted groups (own_info g)) g ≡ probes_below groups g
  unroll_below (probe_group n d own p f v gs) groups =
      ap₂ (λ a b. if d then nothing else also a b)
        (ground (
          arith,
          enabled_probes_lem groups own p,
          enabled_floating_lem groups own f,
          enabled_virtual_lem v,
        ))
        (unroll_all_below gs groups own)

  unroll_all_below :
      (gs : ProbeGroups) (groups : List ProbeInfo) (own : ProbeInfo)
      → unroll_probe_groups (defaulted groups own) gs ≡ probes_below_all (own ∷ groups) gs
  unroll_all_below no_group groups own = refl
  unroll_all_below (one_more g gs) groups own =
      ap₂ also
        (ap without_disabled (
            ap (λ i. unroll_probe_group i g) (defaulted_lem groups own (own_info g))
            ∙ unroll_below g (own ∷ groups))
          ∙ below_enabled g (own ∷ groups))
        (unroll_all_below gs groups own)

-- The probes of all top-level groups, in the order of the loops.
abbrev pub grouped : ProbeGroups → List Probe
grouped no_group = []
grouped (one_more g gs) = all_of (probes_below [] g) ++ grouped gs

abbrev pub own_probes : Probes → Unrolled
own_probes t = record {
  probes = t.probes;
  floating_probes = t.floating_probes;
  virtual_probes = t.virtual_probes;
}

abbrev pub last_probe : Bytes → List Probe → Option Probe
last_probe k l = latest (λ (p : Probe). p.name) (λ p. p.is_disabled) k l

last_probe-append :
    (k : Bytes) (xs ys : List Probe)
    → last_probe k (xs ++ ys) ≡ or_else (last_probe k ys) (last_probe k xs)
last_probe-append = latest-append (λ (p : Probe). p.name) (λ p. p.is_disabled)

get-add_probes :
    (k : Bytes) (u : Unrolled) (m : Dict Probe)
    → get k (add_probes u m) ≡ or_else (last_probe k (all_of u)) (get k m)
unfolding add_probes
get-add_probes k u m =
    added (map of_virtual u.virtual_probes) _
    ∙ (ap (or_else v)
          (added (map of_floating u.floating_probes) _ ∙ ap (or_else f) (added u.probes m))
        ∙ (ap (or_else v) (sym (or_else_assoc f p (get k m)))
            ∙ (sym (or_else_assoc v (or_else f p) (get k m))
                ∙ ap (λ o. or_else o (get k m)) (sym joined))))
  where
    v : Option Probe
    v = last_probe k (map of_virtual u.virtual_probes)

    f : Option Probe
    f = last_probe k (map of_floating u.floating_probes)

    p : Option Probe
    p = last_probe k u.probes

    added :
        (l : List Probe) (d : Dict Probe)
        → get k (add_enabled (λ (q : Probe). q.name) (λ q. q.is_disabled) l d)
          ≡ or_else (last_probe k l) (get k d)
    added = get-add_enabled (λ (q : Probe). q.name) (λ q. q.is_disabled) k

    joined : last_probe k (all_of u) ≡ or_else v (or_else f p)
    joined =
        last_probe-append k u.probes
          (map of_floating u.floating_probes ++ map of_virtual u.virtual_probes)
        ∙ (ap (λ o. or_else o p)
              (last_probe-append k (map of_floating u.floating_probes)
                (map of_virtual u.virtual_probes))
            ∙ or_else_assoc v f p)

get-add_probe_groups :
    (k : Bytes) (gs : ProbeGroups) (m : Dict Probe)
    → get k (add_probe_groups gs m) ≡ or_else (last_probe k (grouped gs)) (get k m)
unfolding add_probe_groups get
get-add_probe_groups k no_group m = refl
get-add_probe_groups k (one_more g gs) m =
    get-add_probe_groups k gs (add_probes (unroll_probe_group (own_info g) g) m)
    ∙ (ap (or_else (last_probe k (grouped gs))) (
          get-add_probes k (unroll_probe_group (own_info g) g) m
          ∙ ap (λ u. or_else (last_probe k (all_of u)) (get k m)) (unroll_below g []))
        ∙ (sym (
              or_else_assoc (last_probe k (grouped gs)) (last_probe k (all_of (probes_below [] g)))
                (get k m))
            ∙ ap (λ o. or_else o (get k m))
                (sym (last_probe-append k (all_of (probes_below [] g)) (grouped gs)))))

-- Under each name is the last enabled probe of that name, those in groups after those beside them, none
-- of them in a disabled group; each of its settings is its own, or if that is not set the one of the
-- nearest group around it that sets it.
pub get-unroll_probes :
    (k : Bytes) (t : Probes)
    → get k (unroll_probes (some t)) ≡ last_probe k (all_of (own_probes t) ++ grouped t.groups)
unfolding unroll_probes get
get-unroll_probes k t =
    get-add_probe_groups k t.groups (add_probes (own_probes t) [])
    ∙ (ap (or_else (last_probe k (grouped t.groups)))
          (get-add_probes k (own_probes t) [] ∙ or_else-none (last_probe k (all_of (own_probes t))))
        ∙ sym (last_probe-append k (all_of (own_probes t)) (grouped t.groups)))
