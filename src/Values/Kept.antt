-- ===== src/Values/Kept.antt =====
-- What updateVars keeps of the variables of an instance, and when it fails
-- (tools/geneos/internal/values/set.go).
use cordial.Common.{
  ◌≡◌, refl, inl, inr, true, Option, none, some, List, Bytes, codes, eqb, [], ◌∷◌, arith, All,
  Option-cases, Bool-cases,
}
use cordial.Text.{has_prefix}
use cordial.Values.Variables.{
  Variable, KeyFile, stored, skipped, failed, encode_variable, assign, update_vars,
}
use cordial.Values.Named.{HasNamesOnce, assign-HasNamesOnce}

abbrev Stores {κ} : KeyFile → (Variable → Type κ) → Variable → Type κ
Stores keyfile Q v = (w : Variable) → encode_variable keyfile v ≡ stored w → Q w

-- What every assignment keeps, the loop keeps.
pub update_vars-keeps {κ μ} :
    (P : List Variable → Type κ) (Q : Variable → Type μ)
    → ((w : Variable) (vars : List Variable) → Q w → P vars → P (assign w vars))
    → (keyfile : KeyFile) (items vars vars' : List Variable) → All (Stores keyfile Q) items
    → P vars
    → update_vars keyfile items vars ≡ some vars'
    → P vars'
unfolding update_vars
update_vars-keeps P Q step keyfile [] vars vars' q p h = rw (← some_inj h) p
  where
    some_inj : {a b : List Variable} → some a ≡ some b → a ≡ b
    some_inj e = ground arith
update_vars-keeps P Q step keyfile (v ∷ items) vars vars' (qv, qs) p h =
    elim (encode_variable keyfile v)
        as (λ e.
          ((w : Variable) → e ≡ stored w → Q w)
          → (elim e as (λ _. Option (List Variable)) [
            | stored w ↦ update_vars keyfile items (assign w vars)
            | skipped ↦ update_vars keyfile items vars
            | failed ↦ none
          ])
            ≡ some vars'
          → P vars') [
            | stored w ↦ λ q g.
                update_vars-keeps P Q step keyfile items (assign w vars) vars' qs
                  (step w vars (q w refl) p) g
            | skipped ↦ λ q g. update_vars-keeps P Q step keyfile items vars vars' qs p g
            | failed ↦ λ q g. absurd (none_some g)
          ]
      qv h
  where
    none_some : none ≡ some vars' → ⊥
    none_some e = ground arith

All-Stores :
    (keyfile : KeyFile) (items : List Variable) → All {0, 0} (Stores keyfile (λ _. Unit)) items
All-Stores keyfile [] = tt
All-Stores keyfile (v ∷ items) = ((λ w e. tt), All-Stores keyfile items)

-- If each name is there once, it is so after an update that is not cut short.
pub update_vars-HasNamesOnce :
    (keyfile : KeyFile) (items vars vars' : List Variable)
    → HasNamesOnce vars
    → update_vars keyfile items vars ≡ some vars'
    → HasNamesOnce vars'
update_vars-HasNamesOnce keyfile items vars vars' =
    update_vars-keeps HasNamesOnce (λ _. Unit) (λ w l _ p. assign-HasNamesOnce w l p) keyfile items
      vars vars' (All-Stores keyfile items)

-- The variable, if it has the name, has a value that is encoded.
abbrev pub IsHidden : Bytes → Variable → Type 0
IsHidden n w = eqb w.name n ≡ true → has_prefix (codes "${enc:") w.value ≡ true

All-assign {κ} :
    (Q : Variable → Type κ) (w : Variable) (vars : List Variable)
    → Q w
    → All Q vars
    → All Q (assign w vars)
unfolding assign
All-assign Q w [] q h = (q, tt)
All-assign Q w (v ∷ vars) q (hv, hs) = elim (Bool-cases (eqb v.name w.name)) [
  | inl e ↦ rw e (q, hs)
  | inr e ↦ rw e (hv, All-assign Q w vars q hs)
]

-- What the key file returns is a reference that is expanded.
abbrev pub Encodes : KeyFile → Type 0
Encodes none = Unit
Encodes (some encode) = (s e : Bytes) → encode s ≡ some e → has_prefix (codes "${enc:") e ≡ true

-- The item is a secret, if it has the name.
abbrev pub IsSecret : Bytes → Variable → Type 0
IsSecret n v = eqb v.name n ≡ true → eqb v.type (codes "secret") ≡ true

Stores-IsHidden :
    (keyfile : KeyFile) (n : Bytes) (v : Variable)
    → Encodes keyfile
    → IsSecret n v
    → Stores keyfile (IsHidden n) v
unfolding encode_variable
Stores-IsHidden none n v h s w e named = ground arith
Stores-IsHidden (some encode) n v h s w e named =
    elim (Bool-cases (has_prefix (codes "${enc:") v.value)) [
      | inl p ↦ ground (arith, p, e)
      | inr p ↦ elim (Option-cases (encode v.value)) [
        | inl g ↦ ground (arith, p, e, g)
        | inr (t, g) ↦ ground (arith, p, e, g, h v.value t g)
      ]
    ]

-- A variable that is unset or encoded, and that is only ever given as a secret, is never stored in
-- plain text: its value after an update that is not cut short is a reference to the encoded text.
pub update_vars-IsHidden :
    (keyfile : KeyFile) (n : Bytes) (items vars vars' : List Variable)
    → Encodes keyfile
    → All (IsSecret n) items
    → All (IsHidden n) vars
    → update_vars keyfile items vars ≡ some vars'
    → All (IsHidden n) vars'
update_vars-IsHidden keyfile n items vars vars' enc secrets hidden =
    update_vars-keeps (All (IsHidden n)) (IsHidden n) (All-assign (IsHidden n)) keyfile items vars
      vars' (all_hidden items secrets) hidden
  where
    all_hidden : (l : List Variable) → All (IsSecret n) l → All (Stores keyfile (IsHidden n)) l
    all_hidden [] h = tt
    all_hidden (v ∷ l) (h, hs) = (Stores-IsHidden keyfile n v enc h, all_hidden l hs)
