-- ===== src/Ims/Action.antt =====
-- ActionGroup and ProcessActionGroup (pkg/ims/action.go). An exit of the process ends every caller, so
-- it is a result of its own. Go's map order in `set` is the order of the list.
use cordial.Common.{
  Bool, true, false, Option, none, some, List, Bytes, codes, eqb, [], ◌∷◌, if◌then◌else◌, any,
}
use cordial.Dict.{Dict, put, delete}
use cordial.Text.Number.{Int64, plus, parse_int}

mutual
  pub data ActionGroup : Type 0 where
    group :
        (conditions : List Bytes) (sets : Dict Bytes) (unsets : List Bytes)
        (subgroups : ActionGroups) (breaks exits : List Bytes)
        → ActionGroup

  pub data ActionGroups : Type 0 where
    no_group : ActionGroups
    one_more : ActionGroup → ActionGroups → ActionGroups

-- Values: the fields of the incident.
abbrev pub Values : Type 0
Values = Dict Bytes

abbrev pub one_of : Bytes → List Bytes → Bool
one_of s l = any (eqb s) l

-- strconv.ParseBool; `none` is an error.
unfoldable pub parse_bool : Bytes → Option Bool
unfolding eqb any
parse_bool s =
    if one_of s
      (codes "1" ∷ codes "t" ∷ codes "T" ∷ codes "TRUE" ∷ codes "true" ∷ codes "True" ∷ [])
    then some true
    else if one_of s
        (codes "0" ∷ codes "f" ∷ codes "F" ∷ codes "FALSE" ∷ codes "false" ∷ codes "False" ∷ [])
    then some false
    else none

-- The result and the incident, or the exit of the process.
pub data Step : Type 0 where
  returned : Bool → Values → Step
  exited : Int64 → Step

-- for _, i := range ag.If: all are true.
unfoldable pub all_true : (Bytes → Bytes) → List Bytes → Bool
unfolding parse_bool
all_true expand [] = true
all_true expand (i ∷ conditions) =
    let rest = all_true expand conditions in
    elim (parse_bool (expand i)) as (λ _. Bool) [
      | some b ↦ if b then rest else false
      | none ↦ false
    ]

unfoldable pub set_all : (Bytes → Bytes) → Dict Bytes → Values → Values
set_all expand [] incident = incident
set_all expand ((field, value) ∷ sets) incident =
    set_all expand sets (put field (expand value) incident)

unfoldable pub unset_all : List Bytes → Values → Values
unset_all [] incident = incident
unset_all (field ∷ unsets) incident = unset_all unsets (delete field incident)

abbrev is_true : Option Bool → Bool
is_true (some b) = b
is_true none = false

-- for _, i := range ag.Break: one is true.
unfoldable pub some_true : (Bytes → Bytes) → List Bytes → Bool
unfolding parse_bool any
some_true expand breaks = any (λ i. is_true (parse_bool (expand i))) breaks

abbrev or_one : Option Int64 → Int64
or_one (some code) = code
or_one none = plus 1

-- The loops over Break and Exit; the first exit ends the process.
unfoldable pub finish : (Bytes → Bytes) → List Bytes → List Bytes → Values → Step
unfolding some_true parse_int
finish expand breaks [] incident = returned (some_true expand breaks) incident
finish expand breaks (i ∷ exits) incident =
    if some_true expand breaks
    then returned true incident
    else exited (or_one (parse_int (expand i)))

abbrev pub after_subgroups : (Values → Step) → Step → Step
after_subgroups rest (returned true incident) = returned false incident
after_subgroups rest (returned false incident) = rest incident
after_subgroups rest (exited code) = exited code

abbrev pub next_group : (Values → Step) → Step → Step
next_group rest (returned true incident) = returned true incident
next_group rest (returned false incident) = rest incident
next_group rest (exited code) = exited code

-- ProcessActionGroup. `expand` is config.Expand[string](cf, _) and `derive expand` that of the
-- configuration made from cf with the prefixes of the package.
unfoldable mutual
  pub process : ((Bytes → Bytes) → Bytes → Bytes) → (Bytes → Bytes) → ActionGroup → Values → Step
  process derive expand (group conditions sets unsets subgroups breaks exits) incident =
      let run = after_subgroups (finish expand breaks exits) (
        process_all derive (derive expand) subgroups
          (unset_all unsets (set_all (derive expand) sets incident))) in
      if all_true (derive expand) conditions then run else returned false incident

  -- The loop over the subgroups: `returned true` once one of them breaks.
  pub process_all :
      ((Bytes → Bytes) → Bytes → Bytes) → (Bytes → Bytes) → ActionGroups → Values → Step
  process_all derive expand no_group incident = returned false incident
  process_all derive expand (one_more g gs) incident =
      next_group (process_all derive expand gs) (process derive expand g incident)
