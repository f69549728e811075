-- ===== src/Unroll/Rules.antt =====
-- UnrollRules and unrollRuleGroups (pkg/geneos/utils.go).
use cordial.Common.{Bool, Option, none, some, List, Bytes, codes, eqb, [], ◌∷◌, ◌++◌, if◌then◌else◌}
use cordial.Dict.{Dict, put}
use cordial.Unroll.Groups.{Group, Groups, group, no_group, one_more, Tree, values, add_enabled}

abbrev pub under : Bytes → Bytes → Bytes
under path name = path ++ (codes " > " ++ name)

-- The path of a group in the group of another path, which is empty at the top.
unfoldable pub group_path : Bytes → Bytes → Bytes
group_path parent name = if eqb parent [] then name else under parent name

module _ {A : Type 0} (name : A → Bytes) (is_disabled : A → Bool) where
  unfoldable pub add_at : Bytes → List A → Dict A → Dict A
  add_at path [] m = m
  add_at path (a ∷ rules) m =
      add_at path rules (if is_disabled a then m else put (under path (name a)) a m)

  unfoldable mutual
    unfolding add_at values group_path

    -- unrollRuleGroups: the rules and the path of the group.
    pub unroll_rule_group : Group A → Bytes → Dict A × Bytes
    unroll_rule_group (group n d rules groups) parent =
        let path = group_path parent n in (rule_groups groups path (add_at path rules []), path)

    pub rule_groups : Groups A → Bytes → Dict A → Dict A
    rule_groups no_group path m = m
    rule_groups (one_more g groups) path m =
        let (rules, lower) = unroll_rule_group g path in
        rule_groups groups path (add_at lower (values rules) m)

  unfoldable pub top_groups : Groups A → Dict A → Dict A
  unfolding unroll_rule_group add_at values
  top_groups no_group m = m
  top_groups (one_more g groups) m =
      let (rules, path) = unroll_rule_group g [] in top_groups groups (add_at path (values rules) m)

  -- UnrollRules
  unfoldable pub unroll_rules : Option (Tree A) → Dict A
  unfolding top_groups add_enabled
  unroll_rules none = []
  unroll_rules (some t) = top_groups t.groups (add_enabled name is_disabled t.items [])
