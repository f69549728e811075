-- ===== src/Unroll/Samples.antt =====
-- The walks of groups on small configurations, and the theorems about them at concrete inputs.
use cordial.Common.{
  ◌≡◌, refl, Bool, true, false, not, ◌&&◌, ◌||◌, none, some, List, Bytes, codes, eqb, [], ◌∷◌, ◌++◌,
}
use cordial.Dict.{get, put, delete}
use cordial.Unroll.Groups.{
  group, no_group, one_more, Tree, values, add_enabled, add_all, unroll_group, unroll,
  unroll_samplers,
}
use cordial.Unroll.Flat.{in_groups, get-unroll_rules}
use cordial.Unroll.Latest.{or_else, latest, tree_items, get-unroll}
use cordial.Unroll.Rules.{unroll_rules, unroll_rule_group, top_groups, add_at, group_path}
use cordial.Unroll.Probes.{
  ProbeInfo, ProbeInfoWithoutPort, Probe, probe_type_probe, Probes, probe_group, unroll_probes,
  all_of,
}
use cordial.Unroll.Probes
use cordial.Unroll.Probed.{get-unroll_probes, last_probe, own_probes, grouped}
use cordial.Unroll.Entities.{
  Named, Types, ManagedEntityInfo, ManagedEntity, inherited, resolve_entity_samplers,
}
use cordial.Unroll.Resolved.{has, types_enable, enables, removes, has-resolve_entity_samplers}

-- A name, and whether it is disabled.
abbrev Item : Type 0
Item = Bytes × Bool

abbrev item_name : Item → Bytes
item_name i = i.0

abbrev item_disabled : Item → Bool
item_disabled i = i.1

-- A rule in a group in a group.
abbrev nested : Tree Item
nested = record {
  items = (codes "a", true) ∷ [];
  groups =
      one_more
        (group (codes "G") true ((codes "b", false) ∷ [])
          (one_more (group (codes "H") false ((codes "a", false) ∷ []) no_group) no_group))
        no_group;
}

run_nested :
    unroll item_name item_disabled (some nested)
    ≡ (codes "b", (codes "b", false)) ∷ (codes "a", (codes "a", false)) ∷ []
unfolding unroll unroll_group add_enabled values put eqb
run_nested = refl

get-unroll_example :
    get (codes "a") (unroll item_name item_disabled (some nested))
    ≡ latest item_name item_disabled (codes "a") (tree_items nested)
get-unroll_example = get-unroll item_name item_disabled (codes "a") nested

-- The disabled sampler beside the groups is there.
run_disabled_sampler :
    unroll_samplers item_name item_disabled (some (record nested { groups = no_group }))
    ≡ (codes "a", (codes "a", true)) ∷ []
unfolding unroll_samplers unroll_group add_enabled add_all put eqb
run_disabled_sampler = refl

-- The inner group is not in the key.
run_nested_rules :
    unroll_rules item_name item_disabled (some nested)
    ≡ (codes "G > b", (codes "b", false)) ∷ (codes "G > a", (codes "a", false)) ∷ []
unfolding unroll_rules unroll_rule_group top_groups add_at group_path add_enabled values put eqb
run_nested_rules = refl

abbrev flat : Tree Item
flat = record {
  items = (codes "a", false) ∷ [];
  groups =
      one_more (group (codes "G") true ((codes "b", false) ∷ (codes "b", true) ∷ []) no_group)
        no_group;
}

get-unroll_rules_example :
    get (codes "G > b") (unroll_rules item_name item_disabled (some flat))
    ≡ or_else
        (in_groups item_name item_disabled (codes "G > b") flat.groups)
        (latest item_name item_disabled (codes "G > b") flat.items)
get-unroll_rules_example = get-unroll_rules item_name item_disabled (codes "G > b") flat tt

abbrev no_limits : ProbeInfoWithoutPort
no_limits = record { command_time_out = 0; max_database_connections = 0; max_toolkit_processes = 0 }

abbrev some_probe : Probe
some_probe = record {
  type = probe_type_probe;
  name = codes "p";
  is_disabled = false;
  hostname = codes "h";
  info = record { port = 0; secure = none; without_port = no_limits };
}

abbrev some_probes : Probes
some_probes = record {
  probes = [];
  floating_probes = [];
  virtual_probes = [];
  groups =
      Probes.one_more
        (probe_group (codes "g") false
          (record { port = 7036; secure = some true; without_port = no_limits }) (some_probe ∷ [])
          [] [] Probes.no_group)
        Probes.no_group;
}

get-unroll_probes_example :
    get (codes "p") (unroll_probes (some some_probes))
    ≡ last_probe (codes "p") (all_of (own_probes some_probes) ++ grouped some_probes.groups)
get-unroll_probes_example = get-unroll_probes (codes "p") some_probes

abbrev some_types : Types
some_types =
    (
      codes "T",
      record { name = codes "cpu"; is_disabled = false }
          ∷ record { name = codes "disk"; is_disabled = true }
          ∷ [],
    )
    ∷ []

abbrev some_info : ManagedEntityInfo
some_info = record {
  attributes = [];
  remove_types = codes "T" ∷ [];
  remove_samplers = [];
  add_types = [];
  vars = [];
  resolved_samplers = some ((codes "T:cpu", true) ∷ (codes "U:net", true) ∷ []);
}

abbrev some_entity : ManagedEntity
some_entity = record {
  name = codes "e";
  is_disabled = false;
  info = record some_info { remove_types = []; add_types = []; resolved_samplers = none };
  samplers = record { name = codes "own"; is_disabled = false } ∷ [];
}

run_entity :
    resolve_entity_samplers some_types (some some_info) some_entity
    ≡ (codes "U:net", true) ∷ (codes ":own", true) ∷ []
unfolding resolve_entity_samplers put delete get eqb
run_entity = refl

has-resolve_entity_samplers_example :
    has (codes "T:cpu") (resolve_entity_samplers some_types (some some_info) some_entity)
    ≡ types_enable some_types (codes "T:cpu") some_entity.info.add_types
      || (enables (codes "T:cpu") [] some_entity.samplers
          || (not (removes some_types (codes "T:cpu") some_info)
              && has
                  (codes "T:cpu")
                  (inherited some_info.resolved_samplers some_entity.info.resolved_samplers)))
has-resolve_entity_samplers_example =
    has-resolve_entity_samplers some_types (codes "T:cpu") some_info some_entity

abbrev some_attributes : List Named
some_attributes =
    record { name = codes "A"; value = codes "1" }
    ∷ record { name = codes "A"; value = codes "2" }
    ∷ []
