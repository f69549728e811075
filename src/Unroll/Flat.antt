-- ===== src/Unroll/Flat.antt =====
-- The rule that UnrollRules leaves under a key (pkg/geneos/utils.go), where no rule group has groups.
use cordial.Common.{
  ◌≡◌, refl, sym, ap, ◌∙◌, Bool, Option, none, some, List, Bytes, codes, eqb, [], ◌∷◌, ◌++◌,
  if◌then◌else◌,
}
use cordial.Dict.{Dict, get, put}
use cordial.Unroll.Groups.{Groups, group, no_group, one_more, Tree, values, add_enabled}
use cordial.Unroll.Latest.{
  or_else, or_else-none, or_else_assoc, latest, get-add_enabled, latest-values,
  add_enabled-IsByName,
}
use cordial.Unroll.Rules.{under, group_path, add_at, unroll_rule_group, top_groups, unroll_rules}

module _ {A : Type 0} (name : A → Bytes) (is_disabled : A → Bool) where
  abbrev pub IsFlat : Groups A → Type 0
  IsFlat no_group = Unit
  IsFlat (one_more (group n d rules no_group) gs) = IsFlat gs
  IsFlat (one_more (group n d rules (one_more g groups)) gs) = ⊥

  -- The rule of the key in the last group that has one: the last that is not disabled, by the group's
  -- name, ` > ` and the rule's.
  abbrev pub in_groups : Bytes → Groups A → Option A
  in_groups k no_group = none
  in_groups k (one_more (group n d rules groups) gs) =
      or_else (in_groups k gs) (latest (λ a. n ++ (codes " > " ++ name a)) is_disabled k rules)

  add_at_lem :
      (path : Bytes) (rules : List A) (m : Dict A)
      → add_at name is_disabled path rules m
        ≡ add_enabled (λ a. under path (name a)) is_disabled rules m
  unfolding add_at add_enabled
  add_at_lem path [] m = refl
  add_at_lem path (a ∷ rules) m =
      add_at_lem path rules (if is_disabled a then m else put (under path (name a)) a m)

  get-add_group :
      (k n : Bytes) (rules : List A) (m : Dict A)
      → get k (add_at name is_disabled n (values (add_at name is_disabled n rules [])) m)
        ≡ or_else (latest (λ a. under n (name a)) is_disabled k rules) (get k m)
  unfolding get
  get-add_group k n rules m = rw (add_at_lem n rules []) (
      rw (add_at_lem n (values (add_enabled (λ a. under n (name a)) is_disabled rules [])) m) (
        get-add_enabled (λ a. under n (name a)) is_disabled k
          (values (add_enabled (λ a. under n (name a)) is_disabled rules [])) m
        ∙ ap (λ o. or_else o (get k m))
            (latest-values (λ a. under n (name a)) is_disabled k
                (add_enabled (λ a. under n (name a)) is_disabled rules [])
                (add_enabled-IsByName (λ a. under n (name a)) is_disabled rules [] tt)
              ∙ (get-add_enabled (λ a. under n (name a)) is_disabled k rules []
                  ∙ or_else-none (latest (λ a. under n (name a)) is_disabled k rules)))))

  get-top_groups :
      (k : Bytes) (gs : Groups A) (m : Dict A)
      → IsFlat gs
      → get k (top_groups name is_disabled gs m) ≡ or_else (in_groups k gs) (get k m)
  unfolding top_groups unroll_rule_group group_path eqb
  get-top_groups k no_group m h = refl
  get-top_groups k (one_more (group n d rules no_group) gs) m h =
      get-top_groups k gs
        (add_at name is_disabled n (values (add_at name is_disabled n rules [])) m) h
      ∙ (ap (or_else (in_groups k gs)) (get-add_group k n rules m)
          ∙ sym (
              or_else_assoc (in_groups k gs) (latest (λ a. under n (name a)) is_disabled k rules)
                (get k m)))
  get-top_groups k (one_more (group n d rules (one_more g groups)) gs) m h = absurd h

  -- Where no rule group has groups in it, the rule under a key is the last one of that key that is not
  -- disabled: in a group the key is the group's name, ` > ` and the rule's name, beside the groups it is
  -- the rule's name, and a rule in a group, whether that is disabled or not, comes before one beside them.
  pub get-unroll_rules :
      (k : Bytes) (t : Tree A)
      → IsFlat t.groups
      → get k (unroll_rules name is_disabled (some t))
        ≡ or_else (in_groups k t.groups) (latest name is_disabled k t.items)
  unfolding unroll_rules get
  get-unroll_rules k t h =
      get-top_groups k t.groups (add_enabled name is_disabled t.items []) h
      ∙ ap (or_else (in_groups k t.groups)) (
          get-add_enabled name is_disabled k t.items []
          ∙ or_else-none (latest name is_disabled k t.items))
