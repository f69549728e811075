-- ===== src/Unroll/Inherited.antt =====
-- The settings that a probe takes from the groups around it (pkg/geneos/utils.go).
use cordial.Common.{
  ℕ, zero, suc, ◌≡◌, refl, sym, ap, ◌∙◌, Bool, Option, none, some, List, [], ◌∷◌, if◌then◌else◌,
  ◌==◌, arith,
}
use cordial.Unroll.Probes.{
  ProbeInfo, ProbeInfoWithoutPort, Probe, FloatingProbe, VirtualProbe, ProbeGroup, ProbeGroups,
  probe_group, no_group, one_more, set_defaults, set_defaults_without_port, default_int,
  default_bool, Unrolled, nothing, also, enabled_probes, enabled_floating, enabled_virtual,
}

set_defaults_without_port_assoc :
    (a b c : ProbeInfoWithoutPort)
    → set_defaults_without_port (set_defaults_without_port a b) c
      ≡ set_defaults_without_port a (set_defaults_without_port b c)
unfolding set_defaults_without_port
set_defaults_without_port_assoc a b c = ground arith

set_defaults_assoc :
    (a b c : ProbeInfo) → set_defaults (set_defaults a b) c ≡ set_defaults a (set_defaults b c)
unfolding set_defaults
set_defaults_assoc a b c =
    ground (arith, set_defaults_without_port_assoc a.without_port b.without_port c.without_port)

-- The defaults of the groups around a setting, the nearest first.
abbrev pub defaulted : List ProbeInfo → ProbeInfo → ProbeInfo
defaulted [] i = i
defaulted (g ∷ groups) i = defaulted groups (set_defaults g i)

abbrev pub defaulted_without_port : List ProbeInfo → ProbeInfoWithoutPort → ProbeInfoWithoutPort
defaulted_without_port [] i = i
defaulted_without_port (g ∷ groups) i =
    defaulted_without_port groups (set_defaults_without_port g.without_port i)

pub defaulted_lem :
    (groups : List ProbeInfo) (own i : ProbeInfo)
    → set_defaults (defaulted groups own) i ≡ defaulted groups (set_defaults own i)
defaulted_lem [] own i = refl
defaulted_lem (g ∷ groups) own i =
    defaulted_lem groups (set_defaults g own) i ∙ ap (defaulted groups) (set_defaults_assoc g own i)

without_port_lem :
    (groups : List ProbeInfo) (own : ProbeInfo) (i : ProbeInfoWithoutPort)
    → set_defaults_without_port (defaulted groups own).without_port i
      ≡ defaulted_without_port groups (set_defaults_without_port own.without_port i)
unfolding set_defaults
without_port_lem [] own i = refl
without_port_lem (g ∷ groups) own i =
    without_port_lem groups (set_defaults g own) i
    ∙ ap (defaulted_without_port groups)
        (set_defaults_without_port_assoc g.without_port own.without_port i)

-- A setting and those of the groups around it, the nearest first: the first that is set. An int is set where
-- it is not 0.
abbrev pub nearest_int : (ProbeInfo → ℕ) → ℕ → List ProbeInfo → ℕ
nearest_int f own [] = own
nearest_int f own (g ∷ groups) =
    let outer = nearest_int f (f g) groups in if own == 0 then outer else own

abbrev pub nearest_bool : (ProbeInfo → Option Bool) → Option Bool → List ProbeInfo → Option Bool
nearest_bool f (some b) groups = some b
nearest_bool f none [] = none
nearest_bool f none (g ∷ groups) = nearest_bool f (f g) groups

abbrev pub effective_without_port : List ProbeInfo → ProbeInfoWithoutPort → ProbeInfoWithoutPort
effective_without_port groups i = record {
  command_time_out = nearest_int (λ g. g.without_port.command_time_out) i.command_time_out groups;
  max_database_connections =
      nearest_int (λ g. g.without_port.max_database_connections) i.max_database_connections groups;
  max_toolkit_processes =
      nearest_int (λ g. g.without_port.max_toolkit_processes) i.max_toolkit_processes groups;
}

abbrev pub effective : List ProbeInfo → ProbeInfo → ProbeInfo
effective groups i = record {
  port = nearest_int (λ g. g.port) i.port groups;
  secure = nearest_bool (λ g. g.secure) i.secure groups;
  without_port = effective_without_port groups i.without_port;
}

default_int-unset : (m : ℕ) → default_int m 0 ≡ m
default_int-unset m = ground arith

default_int-set : (m n : ℕ) → default_int m (suc n) ≡ suc n
default_int-set m n = ground arith

nearest_int-set :
    (f : ProbeInfo → ℕ) (n : ℕ) (groups : List ProbeInfo) → nearest_int f (suc n) groups ≡ suc n
nearest_int-set f n [] = refl
nearest_int-set f n (g ∷ groups) = ground arith

nearest_int-default :
    (f : ProbeInfo → ℕ) (own : ℕ) (g : ProbeInfo) (groups : List ProbeInfo)
    → nearest_int f (default_int (f g) own) groups ≡ nearest_int f own (g ∷ groups)
nearest_int-default f zero g groups = ap (λ n. nearest_int f n groups) (default_int-unset (f g))
nearest_int-default f (suc n) g groups =
    ap (λ m. nearest_int f m groups) (default_int-set (f g) n)
    ∙ (nearest_int-set f n groups ∙ sym (nearest_int-set f n (g ∷ groups)))

nearest_bool-default :
    (f : ProbeInfo → Option Bool) (own : Option Bool) (g : ProbeInfo) (groups : List ProbeInfo)
    → nearest_bool f (default_bool (f g) own) groups ≡ nearest_bool f own (g ∷ groups)
nearest_bool-default f (some b) g groups = refl
nearest_bool-default f none g groups = refl

defaulted_without_port-effective :
    (groups : List ProbeInfo) (i : ProbeInfoWithoutPort)
    → defaulted_without_port groups i ≡ effective_without_port groups i
unfolding set_defaults_without_port
defaulted_without_port-effective [] i = refl
defaulted_without_port-effective (g ∷ groups) i =
    defaulted_without_port-effective groups (set_defaults_without_port g.without_port i)
    ∙ ground (
      arith,
      nearest_int-default (λ h. h.without_port.command_time_out) i.command_time_out g groups,
      nearest_int-default (λ h. h.without_port.max_database_connections) i.max_database_connections
          g groups,
      nearest_int-default (λ h. h.without_port.max_toolkit_processes) i.max_toolkit_processes g
          groups,
    )

defaulted-effective :
    (groups : List ProbeInfo) (i : ProbeInfo) → defaulted groups i ≡ effective groups i
unfolding set_defaults set_defaults_without_port
defaulted-effective [] i = ground arith
defaulted-effective (g ∷ groups) i =
    defaulted-effective groups (set_defaults g i)
    ∙ ground (
      arith,
      nearest_int-default (λ h. h.port) i.port g groups,
      nearest_bool-default (λ h. h.secure) i.secure g groups,
      nearest_int-default (λ h. h.without_port.command_time_out) i.without_port.command_time_out g
          groups,
      nearest_int-default (λ h. h.without_port.max_database_connections)
          i.without_port.max_database_connections g groups,
      nearest_int-default (λ h. h.without_port.max_toolkit_processes)
          i.without_port.max_toolkit_processes g groups,
    )

-- The enabled probes of a list with the settings of the groups around it.
abbrev pub probes_in : List ProbeInfo → List Probe → List Probe
probes_in groups [] = []
probes_in groups (p ∷ probes) =
    let rest = probes_in groups probes in
    if p.is_disabled then rest else record p { info = effective groups p.info } ∷ rest

abbrev pub floating_in : List ProbeInfo → List FloatingProbe → List FloatingProbe
floating_in groups [] = []
floating_in groups (f ∷ probes) =
    let rest = floating_in groups probes in
    if f.is_disabled then rest else record f { info = effective_without_port groups f.info } ∷ rest

abbrev pub virtual_in : List VirtualProbe → List VirtualProbe
virtual_in [] = []
virtual_in (v ∷ probes) = let rest = virtual_in probes in if v.is_disabled then rest else v ∷ rest

-- The enabled probes in groups that are not disabled, nor in one that is.
unfoldable mutual
  pub probes_below : List ProbeInfo → ProbeGroup → Unrolled
  probes_below groups (probe_group n d own p f v gs) =
      let found =
        also
          (record {
            probes = probes_in (own ∷ groups) p;
            floating_probes = floating_in (own ∷ groups) f;
            virtual_probes = virtual_in v;
          })
          (probes_below_all (own ∷ groups) gs) in
      if d then nothing else found

  pub probes_below_all : List ProbeInfo → ProbeGroups → Unrolled
  probes_below_all groups no_group = nothing
  probes_below_all groups (one_more g gs) =
      also (probes_below groups g) (probes_below_all groups gs)

pub enabled_probes_lem :
    (groups : List ProbeInfo) (own : ProbeInfo) (l : List Probe)
    → enabled_probes (defaulted groups own) l ≡ probes_in (own ∷ groups) l
unfolding enabled_probes
enabled_probes_lem groups own [] = refl
enabled_probes_lem groups own (p ∷ l) = ground (
  arith,
  defaulted_lem groups own p.info,
  defaulted-effective (own ∷ groups) p.info,
  enabled_probes_lem groups own l,
)

pub enabled_floating_lem :
    (groups : List ProbeInfo) (own : ProbeInfo) (l : List FloatingProbe)
    → enabled_floating (defaulted groups own) l ≡ floating_in (own ∷ groups) l
unfolding enabled_floating
enabled_floating_lem groups own [] = refl
enabled_floating_lem groups own (f ∷ l) = ground (
  arith,
  without_port_lem groups own f.info,
  defaulted_without_port-effective (own ∷ groups) f.info,
  enabled_floating_lem groups own l,
)

pub enabled_virtual_lem : (l : List VirtualProbe) → enabled_virtual l ≡ virtual_in l
unfolding enabled_virtual
enabled_virtual_lem [] = refl
enabled_virtual_lem (v ∷ l) = ground (arith, enabled_virtual_lem l)
