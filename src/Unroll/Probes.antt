-- ===== src/Unroll/Probes.antt =====
-- UnrollProbes, unrollProbeGroup and setDefaults for ProbeInfo (pkg/geneos/utils.go and probes.go). An
-- `int` of these structures is only copied and compared with 0, and is a natural number here.
use cordial.Common.{
  ℕ, Bool, not, ◌&&◌, Option, none, some, List, Bytes, [], ◌∷◌, ◌++◌, map, if◌then◌else◌, ◌==◌,
}
use cordial.Dict.{Dict}
use cordial.Unroll.Groups.{add_enabled}

pub record ProbeInfoWithoutPort : Type 0 where
  pub command_time_out : ℕ
  pub max_database_connections : ℕ
  pub max_toolkit_processes : ℕ

pub record ProbeInfo : Type 0 where
  pub port : ℕ
  pub secure : Option Bool
  pub without_port : ProbeInfoWithoutPort

pub data ProbeType : Type 0 where
  probe_type_probe probe_type_floating probe_type_virtual : ProbeType

pub record Probe : Type 0 where
  pub type : ProbeType
  pub name : Bytes
  pub is_disabled : Bool
  pub hostname : Bytes
  pub info : ProbeInfo

pub record FloatingProbe : Type 0 where
  pub name : Bytes
  pub is_disabled : Bool
  pub info : ProbeInfoWithoutPort

pub record VirtualProbe : Type 0 where
  pub name : Bytes
  pub is_disabled : Bool

mutual
  pub data ProbeGroup : Type 0 where
    probe_group :
        (name : Bytes) (is_disabled : Bool) (info : ProbeInfo) (probes : List Probe)
        (floating_probes : List FloatingProbe) (virtual_probes : List VirtualProbe)
        (groups : ProbeGroups)
        → ProbeGroup

  pub data ProbeGroups : Type 0 where
    no_group : ProbeGroups
    one_more : ProbeGroup → ProbeGroups → ProbeGroups

pub record Probes : Type 0 where
  pub probes : List Probe
  pub floating_probes : List FloatingProbe
  pub virtual_probes : List VirtualProbe
  pub groups : ProbeGroups

-- The cases of setDefaults, for an int and for a *bool.
abbrev pub default_int : ℕ → ℕ → ℕ
default_int source dest = if dest == 0 && not (source == 0) then source else dest

abbrev pub default_bool : Option Bool → Option Bool → Option Bool
default_bool source (some b) = some b
default_bool source none = source

unfoldable pub set_defaults_without_port :
    ProbeInfoWithoutPort → ProbeInfoWithoutPort → ProbeInfoWithoutPort
set_defaults_without_port source dest = record {
  command_time_out = default_int source.command_time_out dest.command_time_out;
  max_database_connections =
      default_int source.max_database_connections dest.max_database_connections;
  max_toolkit_processes = default_int source.max_toolkit_processes dest.max_toolkit_processes;
}

-- setDefaults
unfoldable pub set_defaults : ProbeInfo → ProbeInfo → ProbeInfo
unfolding set_defaults_without_port
set_defaults source dest = record {
  port = default_int source.port dest.port;
  secure = default_bool source.secure dest.secure;
  without_port = set_defaults_without_port source.without_port dest.without_port;
}

-- The three slices of unrollProbeGroup.
pub record Unrolled : Type 0 where
  pub probes : List Probe
  pub floating_probes : List FloatingProbe
  pub virtual_probes : List VirtualProbe

abbrev pub nothing : Unrolled
nothing = record { probes = []; floating_probes = []; virtual_probes = [] }

abbrev pub also : Unrolled → Unrolled → Unrolled
also a b = record {
  probes = a.probes ++ b.probes;
  floating_probes = a.floating_probes ++ b.floating_probes;
  virtual_probes = a.virtual_probes ++ b.virtual_probes;
}

unfoldable pub enabled_probes : ProbeInfo → List Probe → List Probe
unfolding set_defaults
enabled_probes info [] = []
enabled_probes info (p ∷ probes) =
    let rest = enabled_probes info probes in
    if p.is_disabled then rest else record p { info = set_defaults info p.info } ∷ rest

unfoldable pub enabled_floating : ProbeInfo → List FloatingProbe → List FloatingProbe
unfolding set_defaults_without_port
enabled_floating info [] = []
enabled_floating info (f ∷ probes) =
    let rest = enabled_floating info probes in
    if f.is_disabled
    then rest
    else record f { info = set_defaults_without_port info.without_port f.info } ∷ rest

unfoldable pub enabled_virtual : List VirtualProbe → List VirtualProbe
enabled_virtual [] = []
enabled_virtual (v ∷ probes) =
    let rest = enabled_virtual probes in if v.is_disabled then rest else v ∷ rest

unfoldable pub enabled_only : List Probe → List Probe
enabled_only [] = []
enabled_only (p ∷ probes) =
    let rest = enabled_only probes in if p.is_disabled then rest else p ∷ rest

unfoldable pub enabled_only_floating : List FloatingProbe → List FloatingProbe
enabled_only_floating [] = []
enabled_only_floating (f ∷ probes) =
    let rest = enabled_only_floating probes in if f.is_disabled then rest else f ∷ rest

-- What unrollProbeGroup appends of a subgroup: no disabled probe.
unfoldable pub without_disabled : Unrolled → Unrolled
unfolding enabled_only enabled_only_floating enabled_virtual
without_disabled u = record {
  probes = enabled_only u.probes;
  floating_probes = enabled_only_floating u.floating_probes;
  virtual_probes = enabled_virtual u.virtual_probes;
}

abbrev pub own_info : ProbeGroup → ProbeInfo
own_info (probe_group n d info p f v gs) = info

unfoldable mutual
  unfolding enabled_probes enabled_floating enabled_virtual set_defaults without_disabled

  -- unrollProbeGroup of a group, with its info after the defaults of the groups around it.
  pub unroll_probe_group : ProbeInfo → ProbeGroup → Unrolled
  unroll_probe_group info (probe_group n d own probes floating virtual gs) =
      let found =
        also
          (record {
            probes = enabled_probes info probes;
            floating_probes = enabled_floating info floating;
            virtual_probes = enabled_virtual virtual;
          })
          (unroll_probe_groups info gs) in
      if d then nothing else found

  pub unroll_probe_groups : ProbeInfo → ProbeGroups → Unrolled
  unroll_probe_groups info no_group = nothing
  unroll_probe_groups info (one_more g gs) =
      also (without_disabled (unroll_probe_group (set_defaults info (own_info g)) g))
        (unroll_probe_groups info gs)

abbrev zero_without_port : ProbeInfoWithoutPort
zero_without_port = record {
  command_time_out = 0;
  max_database_connections = 0;
  max_toolkit_processes = 0;
}

abbrev pub of_floating : FloatingProbe → Probe
of_floating f = record {
  type = probe_type_floating;
  name = f.name;
  is_disabled = f.is_disabled;
  hostname = [];
  info = record { port = 0; secure = none; without_port = f.info };
}

abbrev pub of_virtual : VirtualProbe → Probe
of_virtual v = record {
  type = probe_type_virtual;
  name = v.name;
  is_disabled = v.is_disabled;
  hostname = [];
  info = record { port = 0; secure = none; without_port = zero_without_port };
}

abbrev pub all_of : Unrolled → List Probe
all_of u = u.probes ++ (map of_floating u.floating_probes ++ map of_virtual u.virtual_probes)

-- The three loops over what is unrolled.
unfoldable pub add_probes : Unrolled → Dict Probe → Dict Probe
unfolding add_enabled
add_probes u m =
    add_enabled (λ (p : Probe). p.name) (λ p. p.is_disabled) (map of_virtual u.virtual_probes)
      (add_enabled (λ (p : Probe). p.name) (λ p. p.is_disabled) (map of_floating u.floating_probes)
        (add_enabled (λ (p : Probe). p.name) (λ p. p.is_disabled) u.probes m))

unfoldable pub add_probe_groups : ProbeGroups → Dict Probe → Dict Probe
unfolding add_probes unroll_probe_group
add_probe_groups no_group m = m
add_probe_groups (one_more g gs) m =
    add_probe_groups gs (add_probes (unroll_probe_group (own_info g) g) m)

-- UnrollProbes; `none` is nil.
unfoldable pub unroll_probes : Option Probes → Dict Probe
unfolding add_probes add_probe_groups
unroll_probes none = []
unroll_probes (some t) = add_probe_groups t.groups (
    add_probes
      (record {
        probes = t.probes;
        floating_probes = t.floating_probes;
        virtual_probes = t.virtual_probes;
      })
      [])
