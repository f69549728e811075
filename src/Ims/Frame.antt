-- ===== src/Ims/Frame.antt =====
-- What an action group leaves alone, and how breaks and exits stop it (pkg/ims/action.go).
use mathlib.Core.Path.{subst}
use cordial.Common.{
  ◌≡◌, refl, ◌∙◌, Bool, true, false, ◌||◌, List, Bytes, eqb, [], ◌∷◌, if◌then◌else◌, arith,
  Bool-cases, inl, inr,
}
use cordial.Dict.{Dict, get, put, delete, get-put, get-delete}
use cordial.Ims.Action.{
  ActionGroup, ActionGroups, group, no_group, one_more, Values, Step, returned, exited, all_true,
  set_all, unset_all, finish, some_true, after_subgroups, next_group, process, process_all,
}

abbrev sets_field : Bytes → Dict Bytes → Bool
sets_field k [] = false
sets_field k ((j, _) ∷ m) = eqb j k || sets_field k m

abbrev lists_field : Bytes → List Bytes → Bool
lists_field k [] = false
lists_field k (j ∷ l) = eqb j k || lists_field k l

-- The group, or a group below it, sets or unsets the field.
unfoldable mutual
  pub touches : Bytes → ActionGroup → Bool
  touches k (group conditions sets unsets subgroups breaks exits) =
      sets_field k sets || lists_field k unsets || touches_any k subgroups

  pub touches_any : Bytes → ActionGroups → Bool
  touches_any k no_group = false
  touches_any k (one_more g gs) = touches k g || touches_any k gs

set_all-frame :
    (expand : Bytes → Bytes) (k : Bytes) (sets : Dict Bytes) (m : Values)
    → sets_field k sets ≡ false
    → get k (set_all expand sets m) ≡ get k m
unfolding set_all
set_all-frame expand k [] m h = refl
set_all-frame expand k ((j, v) ∷ sets) m h =
    ground (arith, set_all-frame expand k sets (put j (expand v) m), get-put j k (expand v) m)

unset_all-frame :
    (k : Bytes) (unsets : List Bytes) (m : Values)
    → lists_field k unsets ≡ false
    → get k (unset_all unsets m) ≡ get k m
unfolding unset_all
unset_all-frame k [] m h = refl
unset_all-frame k (j ∷ unsets) m h =
    ground (arith, unset_all-frame k unsets (delete j m), get-delete j k m)

-- A step that returns has the value of the field that the incident had.
abbrev Keeps : Bytes → Values → Step → Type 0
Keeps k m (returned b m') = get k m' ≡ get k m
Keeps k m (exited code) = Unit

Keeps-after_subgroups :
    (k : Bytes) (m : Values) (rest : Values → Step) (s : Step)
    → ((m' : Values) → get k m' ≡ get k m → Keeps k m (rest m'))
    → Keeps k m s
    → Keeps k m (after_subgroups rest s)
Keeps-after_subgroups k m rest (returned true m') f h = h
Keeps-after_subgroups k m rest (returned false m') f h = f m' h
Keeps-after_subgroups k m rest (exited code) f h = tt

Keeps-next_group :
    (k : Bytes) (m : Values) (rest : Values → Step) (s : Step)
    → ((m' : Values) → get k m' ≡ get k m → Keeps k m (rest m'))
    → Keeps k m s
    → Keeps k m (next_group rest s)
Keeps-next_group k m rest (returned true m') f h = h
Keeps-next_group k m rest (returned false m') f h = f m' h
Keeps-next_group k m rest (exited code) f h = tt

Keeps-finish :
    (expand : Bytes → Bytes) (k : Bytes) (breaks exits : List Bytes) (m m' : Values)
    → get k m' ≡ get k m
    → Keeps k m (finish expand breaks exits m')
unfolding finish
Keeps-finish expand k breaks [] m m' h = h
Keeps-finish expand k breaks (i ∷ exits) m m' h = elim (Bool-cases (some_true expand breaks)) [
  | inl e ↦ rw e h
  | inr e ↦ rw e tt
]

Keeps-from :
    (k : Bytes) (m m' : Values) (s : Step) → get k m' ≡ get k m → Keeps k m' s → Keeps k m s
Keeps-from k m m' (returned b n) e h = h ∙ e
Keeps-from k m m' (exited code) e h = tt

Keeps-if :
    (k : Bytes) (m : Values) (b : Bool) (s t : Step)
    → Keeps k m s
    → Keeps k m t
    → Keeps k m (if b then s else t)
Keeps-if k m true s t hs ht = hs
Keeps-if k m false s t hs ht = ht

mutual
  unfolding process touches

  process-Keeps :
      (derive : (Bytes → Bytes) → Bytes → Bytes) (expand : Bytes → Bytes) (k : Bytes)
      (g : ActionGroup) (m : Values)
      → touches k g ≡ false
      → Keeps k m (process derive expand g m)
  process-Keeps derive expand k (group conditions sets unsets subgroups breaks exits) m h =
      let hs : sets_field k sets ≡ false = ground arith in
      let hu : lists_field k unsets ≡ false = ground arith in
      let hg : touches_any k subgroups ≡ false = ground arith in
      let m1 = set_all (derive expand) sets m in
      let m2 = unset_all unsets m1 in
      let same : get k m2 ≡ get k m =
        unset_all-frame k unsets m1 hu ∙ set_all-frame (derive expand) k sets m hs in
      Keeps-if k m (all_true (derive expand) conditions) _ (returned false m)
        (Keeps-after_subgroups k m (finish expand breaks exits)
          (process_all derive (derive expand) subgroups m2)
          (λ m' e. Keeps-finish expand k breaks exits m m' e)
          (Keeps-from k m m2 _ same (process_all-Keeps derive (derive expand) k subgroups m2 hg)))
        refl

  process_all-Keeps :
      (derive : (Bytes → Bytes) → Bytes → Bytes) (expand : Bytes → Bytes) (k : Bytes)
      (gs : ActionGroups) (m : Values)
      → touches_any k gs ≡ false
      → Keeps k m (process_all derive expand gs m)
  process_all-Keeps derive expand k no_group m h = refl
  process_all-Keeps derive expand k (one_more g gs) m h =
      let hg : touches k g ≡ false = ground arith in
      let hs : touches_any k gs ≡ false = ground arith in
      Keeps-next_group k m (process_all derive expand gs) (process derive expand g m)
        (λ m' e. Keeps-from k m m' _ e (process_all-Keeps derive expand k gs m' hs))
        (process-Keeps derive expand k g m hg)

-- A field that neither the group nor a group below it sets or unsets has its old value when the
-- group returns, whatever the conditions, breaks and expansions are.
pub process-frame :
    (derive : (Bytes → Bytes) → Bytes → Bytes) (expand : Bytes → Bytes) (k : Bytes)
    (g : ActionGroup) (m : Values) (b : Bool) (m' : Values)
    → touches k g ≡ false
    → process derive expand g m ≡ returned b m'
    → get k m' ≡ get k m
process-frame derive expand k g m b m' h e =
    subst (Keeps k m) e (process-Keeps derive expand k g m h)

abbrev breaks_of : ActionGroup → List Bytes
breaks_of (group conditions sets unsets subgroups breaks exits) = breaks

abbrev StopsBy : Bool → Step → Type 0
StopsBy b (returned true m) = b ≡ true
StopsBy b _ = Unit

Bool-StopsBy : (b : Bool) (m : Values) → StopsBy b (returned b m)
Bool-StopsBy true m = refl
Bool-StopsBy false m = tt

finish-StopsBy :
    (expand : Bytes → Bytes) (breaks exits : List Bytes) (m : Values)
    → StopsBy (some_true expand breaks) (finish expand breaks exits m)
unfolding finish
finish-StopsBy expand breaks [] m = Bool-StopsBy (some_true expand breaks) m
finish-StopsBy expand breaks (i ∷ exits) m = elim (Bool-cases (some_true expand breaks)) [
  | inl e ↦ rw e refl
  | inr e ↦ rw e tt
]

after_subgroups-StopsBy :
    (b : Bool) (rest : Values → Step) (s : Step)
    → ((m : Values) → StopsBy b (rest m))
    → StopsBy b (after_subgroups rest s)
after_subgroups-StopsBy b rest (returned true m) f = tt
after_subgroups-StopsBy b rest (returned false m) f = f m
after_subgroups-StopsBy b rest (exited code) f = tt

StopsBy-if :
    (b c : Bool) (s : Step) (m : Values)
    → StopsBy b s
    → StopsBy b (if c then s else returned false m)
StopsBy-if b true s m h = h
StopsBy-if b false s m h = tt

process-StopsBy :
    (derive : (Bytes → Bytes) → Bytes → Bytes) (expand : Bytes → Bytes) (g : ActionGroup)
    (m : Values)
    → StopsBy (some_true expand (breaks_of g)) (process derive expand g m)
unfolding process
process-StopsBy derive expand (group conditions sets unsets subgroups breaks exits) m =
    StopsBy-if _ (all_true (derive expand) conditions) _ m (
      after_subgroups-StopsBy _ (finish expand breaks exits)
        (process_all derive (derive expand) subgroups
          (unset_all unsets (set_all (derive expand) sets m)))
        (finish-StopsBy expand breaks exits))

-- A group stops its parent only by a break of its own that is true: the break of a group below it
-- ends the group, and goes no further.
process_stops :
    (derive : (Bytes → Bytes) → Bytes → Bytes) (expand : Bytes → Bytes) (g : ActionGroup)
    (m m' : Values)
    → process derive expand g m ≡ returned true m'
    → some_true expand (breaks_of g) ≡ true
process_stops derive expand g m m' e =
    subst (StopsBy (some_true expand (breaks_of g))) e (process-StopsBy derive expand g m)
