-- ===== src/Values/Named.antt =====
-- The variables of an instance by their names: what updateVars and unsetVariables do to each
-- (tools/geneos/internal/values/set.go and unset.go).
use cordial.Common.{
  ◌≡◌, refl, sym, ◌∙◌, ap, inl, inr, false, Option, none, some, List, Bytes, eqb, eqb_iff, [], ◌∷◌,
  if◌then◌else◌, arith, Bool-cases,
}
use cordial.Values.Variables.{
  Variable, KeyFile, Encoded, stored, skipped, failed, encode_variable, assign, update_vars,
  variable, variable-assign,
}

-- The last of the items that has the name and is not skipped, as it is stored.
abbrev stored_named : Bytes → Encoded → Option Variable
stored_named n (stored w) = if eqb w.name n then some w else none
stored_named n skipped = none
stored_named n failed = none

abbrev pub or_else {ℓ} : {A : Type ℓ} → Option A → Option A → Option A
or_else (some a) o = some a
or_else none o = o

abbrev pub latest : KeyFile → Bytes → List Variable → Option Variable
latest keyfile n [] = none
latest keyfile n (v ∷ items) =
    or_else (latest keyfile n items) (stored_named n (encode_variable keyfile v))

or_else_assoc {ℓ} :
    {A : Type ℓ} (a b c : Option A) → or_else (or_else a b) c ≡ or_else a (or_else b c)
or_else_assoc (some a) b c = refl
or_else_assoc none b c = refl

stored-or_else :
    (w : Variable) (n : Bytes) (vars : List Variable)
    → variable n (assign w vars) ≡ or_else (stored_named n (stored w)) (variable n vars)
stored-or_else w n vars = ground (arith, variable-assign w n vars)

-- An update that is not cut short implements the assignment of each item to its name: a variable that
-- items name is afterwards what the last of them is stored as, and every other variable is what it was.
pub variable-update_vars :
    (keyfile : KeyFile) (n : Bytes) (items vars vars' : List Variable)
    → update_vars keyfile items vars ≡ some vars'
    → variable n vars' ≡ or_else (latest keyfile n items) (variable n vars)
unfolding update_vars
variable-update_vars keyfile n [] vars vars' h = ground arith
variable-update_vars keyfile n (v ∷ items) vars vars' h =
    elim (encode_variable keyfile v)
        as (λ e.
          (elim e as (λ _. Option (List Variable)) [
            | stored w ↦ update_vars keyfile items (assign w vars)
            | skipped ↦ update_vars keyfile items vars
            | failed ↦ none
          ])
            ≡ some vars'
          → variable n vars'
            ≡ or_else (or_else (latest keyfile n items) (stored_named n e)) (variable n vars)) [
              | stored w ↦ λ g.
                  variable-update_vars keyfile n items (assign w vars) vars' g
                  ∙ (ap (or_else (latest keyfile n items)) (stored-or_else w n vars)
                      ∙ sym (
                          or_else_assoc (latest keyfile n items) (stored_named n (stored w))
                            (variable n vars)))
              | skipped ↦ λ g.
                  variable-update_vars keyfile n items vars vars' g
                  ∙ sym (or_else_assoc (latest keyfile n items) none (variable n vars))
              | failed ↦ λ g. ground (arith, g)
            ]
      h

-- The variables have the names of the list, each once.
abbrev pub IsNew : Bytes → List Variable → Type 0
IsNew n [] = Unit
IsNew n (w ∷ vars) = (eqb w.name n ≡ false) × IsNew n vars

abbrev pub HasNamesOnce : List Variable → Type 0
HasNamesOnce [] = Unit
HasNamesOnce (w ∷ vars) = IsNew w.name vars × HasNamesOnce vars

IsNew-assign :
    (v : Variable) (n : Bytes) (vars : List Variable)
    → eqb v.name n ≡ false
    → IsNew n vars
    → IsNew n (assign v vars)
unfolding assign
IsNew-assign v n [] e h = (e, tt)
IsNew-assign v n (w ∷ vars) e (hw, hs) = ground (arith, IsNew-assign v n vars e hs)

pub assign-HasNamesOnce :
    (v : Variable) (vars : List Variable) → HasNamesOnce vars → HasNamesOnce (assign v vars)
unfolding assign
assign-HasNamesOnce v [] h = (tt, tt)
assign-HasNamesOnce v (w ∷ vars) (hw, hs) = elim (Bool-cases (eqb w.name v.name)) [
  | inl e ↦ rw e (same w.name v.name ((eqb_iff w.name v.name).0 e) hw, hs)
  | inr e ↦
      rw e (IsNew-assign v w.name vars (eqb_sym w.name v.name e) hw, assign-HasNamesOnce v vars hs)
]
  where
    same : (a b : Bytes) → a ≡ b → IsNew a vars → IsNew b vars
    same a b e h = rw (← e) h

    eqb_sym : (a b : Bytes) → eqb a b ≡ false → eqb b a ≡ false
    eqb_sym a b e = ground (arith, eqb_iff a b, eqb_iff b a)
