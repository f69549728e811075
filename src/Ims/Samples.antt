-- ===== src/Ims/Samples.antt =====
-- Runs of pkg/ims on concrete incidents, and the theorems about it at concrete inputs.
use cordial.Common.{
  Option, ap, ◌≡◌, refl, true, none, some, Bytes, codes, eqb, [], ◌∷◌, if◌then◌else◌,
}
use cordial.Text.{has_prefix, cut_prefix}
use cordial.Dict.{get, put, delete, delete_if}
use cordial.Ims.Transform.{
  Transformation, Fields, transform, required, first_missing, renamed, filtered,
}
use cordial.Ims.Filtered.{dropped, get-transform}
use cordial.Ims.Action.{
  ActionGroup, group, no_group, one_more, Values, returned, process, all_true, set_all, unset_all,
  finish,
}
use cordial.Ims.Frame.{touches, process-frame}
use cordial.Ims.Prefixes.{Regexp, Env}

abbrev some_rules : Transformation
some_rules = record {
  defaults = (codes "severity", codes "low") ∷ [];
  remove = codes "host" ∷ [];
  rename = (codes "id", codes "key") ∷ [];
  must_include = codes "key" ∷ [];
  include = [];
  exclude = [];
}

abbrev some_fields : Fields
some_fields =
    (codes "host", codes "h") ∷ (codes "__snow_id", codes "7") ∷ (codes "__x", codes "y") ∷ []

abbrev same : Bytes → Bytes
same = λ s. s

run_some_rules :
    transform same eqb (codes "snow") some_rules some_fields
    ≡ ((codes "severity", codes "low") ∷ (codes "key", codes "7") ∷ [], none)
unfolding transform required first_missing get filtered renamed delete eqb put cut_prefix delete_if
    has_prefix
run_some_rules = refl

get-transform_example :
    get (codes "key") (transform same eqb (codes "snow") some_rules some_fields).0 ≡ (
      if dropped eqb some_rules (codes "key")
      then none
      else get (codes "key") (renamed same (codes "snow") some_rules some_fields))
get-transform_example =
    get-transform same eqb (codes "snow") some_rules some_fields (codes "key")
      (ap (λ r. r.1) run_some_rules)

run_without_fields : (transform same eqb (codes "snow") some_rules []).1 ≡ some (codes "key")
unfolding transform required first_missing get filtered renamed delete eqb put cut_prefix delete_if
    has_prefix
run_without_fields = refl

-- A subgroup that sets a field and breaks, in a group that breaks as well.
abbrev some_group : ActionGroup
some_group =
    group (codes "true" ∷ []) ((codes "a", codes "1") ∷ []) (codes "b" ∷ [])
      (one_more (group [] ((codes "c", codes "2") ∷ []) [] no_group [] []) no_group)
      (codes "t" ∷ []) (codes "3" ∷ [])

abbrev some_incident : Values
some_incident = (codes "b", codes "x") ∷ (codes "d", codes "y") ∷ []

abbrev incident_after : Values
incident_after = (codes "d", codes "y") ∷ (codes "a", codes "1") ∷ (codes "c", codes "2") ∷ []

run_some_group : process (λ e. e) same some_group some_incident ≡ returned true incident_after
unfolding process all_true set_all unset_all finish put delete eqb
run_some_group = refl

process-frame_example : get (codes "d") incident_after ≡ get (codes "d") some_incident
process-frame_example =
    process-frame (λ e. e) same (codes "d") some_group some_incident true incident_after
      (unfold touches eqb in refl) run_some_group

abbrev some_env : Env
some_env = λ name. if eqb name (codes "etc") then some (codes "v") else none

abbrev equal_text : Bytes → Option Regexp
equal_text = λ p. some (record { match_string = eqb p; replace_all_string = λ s t. s })
