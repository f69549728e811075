-- ===== src/Values/Flags.antt =====
-- The Set methods of the flags (tools/geneos/internal/values: gateways.go, includes.go,
-- secureValues.go and unset.go), and the texts that getVarValue refuses (variables.go).
use cordial.Common.{
  ◌≡◌, ◌≢◌, refl, sym, ap, ◌∙◌, inl, inr, true, false, none, some, List, Bytes, codes, eqb, eqb_iff,
  [], ◌∷◌, ◌++◌, any, arith, All, All-append, append_assoc, Bool-cases,
}
use cordial.Text.{cut}
use cordial.Dict.{Dict, put}
use cordial.Values.Variables.{no_variable, valid_types, name_value, checked, get_var_value}
use cordial.Values.Normal.{cut_colon}
use cordial.Values.Settings.{SecureValue}

-- Gateways.Set
unfoldable pub add_gateway : Bytes → Dict Bytes → Dict Bytes
add_gateway value gateways = elim (cut (codes ":") value) [
  | none ↦ put value (codes "7039") gateways
  | some (host, port) ↦ put host port gateways
]

-- Includes.Set
unfoldable pub add_include : Bytes → Dict Bytes → Dict Bytes
add_include value includes = elim (cut (codes ":") value) [
  | none ↦ put (codes "100") value includes
  | some (priority, path) ↦ put priority path includes
]

-- SecureValues.Set
unfoldable pub add_secure : Bytes → List SecureValue → List SecureValue
add_secure v values =
    values
    ++ (elim (cut (codes "=") v) [
      | none ↦ record { name = v; secret = [] }
      | some (name, secret) ↦ record { name = name; secret = secret }
    ])
      ∷ []

-- UnsetValues.Set, and UnsetVars.Set
unfoldable pub add_unset : Bytes → List Bytes → List Bytes
add_unset value names =
    names ++ (elim (cut (codes "=") value) [ none ↦ value | some (name, _) ↦ name ]) ∷ []

no_equals : (a b t : Bytes) → eqb (a ++ (b'=' ∷ b)) t ≡ true → All (λ c. c ≢ b'=') t → ⊥
no_equals [] b [] e h = ground (arith, eqb_iff (b'=' ∷ b) [])
no_equals [] b (c ∷ t) e (hc, hs) = ground (arith, eqb_iff (b'=' ∷ b) (c ∷ t))
no_equals (x ∷ a) b [] e h = ground (arith, eqb_iff (x ∷ (a ++ (b'=' ∷ b))) [])
no_equals (x ∷ a) b (c ∷ t) e (hc, hs) = no_equals a b t (tail_eqb e) hs
  where
    tail_eqb : eqb (x ∷ (a ++ (b'=' ∷ b))) (c ∷ t) ≡ true → eqb (a ++ (b'=' ∷ b)) t ≡ true
    tail_eqb p =
        ground (arith, eqb_iff (x ∷ (a ++ (b'=' ∷ b))) (c ∷ t), eqb_iff (a ++ (b'=' ∷ b)) t)

not_valid :
    (a b : Bytes) (types : List Bytes)
    → All (λ t. All (λ c. c ≢ b'=') t) types
    → any (eqb (a ++ (b'=' ∷ b))) types ≡ false
unfolding any
not_valid a b [] h = refl
not_valid a b (t ∷ types) (ht, hs) = elim (Bool-cases (eqb (a ++ (b'=' ∷ b)) t)) [
  | inl e ↦ absurd (no_equals a b t e ht)
  | inr e ↦ rw e (not_valid a b types hs)
]

types_plain : All (λ t. All (λ c. c ≢ b'=') t) valid_types
types_plain = ground arith

typed_text :
    (s t r : Bytes) → cut (codes ":") s ≡ some (t, r) → get_var_value s ≡ checked t (name_value r)
unfolding get_var_value
typed_text s t r e = ground (arith, e)

not_checked :
    (t : Bytes) (nv : Bytes × Bytes) → any (eqb t) valid_types ≡ false → checked t nv ≡ no_variable
unfolding checked
not_checked t nv e = ground (arith, e)

-- A variable that is given without a type is refused when its value has a colon: the text up to the
-- colon, which has the equals sign, is taken as the type, and what is stored has no name and no value.
pub get_var_value_with_colon :
    (name value rest : Bytes)
    → All (λ c. c ≢ b':') name
    → All (λ c. c ≢ b':') value
    → get_var_value (name ++ (b'=' ∷ (value ++ (b':' ∷ rest)))) ≡ no_variable
get_var_value_with_colon name value rest hn hv =
    ap get_var_value (sym (append_assoc name (b'=' ∷ value) (b':' ∷ rest)))
    ∙ (typed_text ((name ++ (b'=' ∷ value)) ++ (b':' ∷ rest)) (name ++ (b'=' ∷ value)) rest (
          cut_colon (name ++ (b'=' ∷ value)) rest
            (All-append (λ c. c ≢ b':') name (b'=' ∷ value) hn (omega arith, hv)))
        ∙ not_checked (name ++ (b'=' ∷ value)) (name_value rest)
            (not_valid name value valid_types types_plain))
