-- ===== src/Certs/Bundles/Chains.antt =====
-- What ParseCertChain returns (pkg/certs/certs.go).
use cordial.Common.{
  ℕ, ◌≡◌, Bool, true, false, Option, none, some, List, [], ◌∷◌, ◌++◌, if◌then◌else◌, All, any,
}
use cordial.Certs.Certificates.{Certificate, X509, equals}
use cordial.Certs.Bundles.{
  Kind, a_leaf, a_root, a_signer, invalid, kind_of, is_other, Collected, collect, Chain, listed,
  parts, pool,
}

-- The certificate that is there equals the one that was there.
abbrev Keeps : Option Certificate → Option Certificate → Type 0
Keeps none o = Unit
Keeps (some l) o = (l' : Certificate) × (o ≡ some l') × (l'.raw ≡ l.raw)

-- A certificate of the kind has been taken in.
abbrev pub Takes : Collected → Kind → Certificate → Type 0
Takes s a_leaf c = (l : Certificate) × (s.leaf ≡ some l) × (l.raw ≡ c.raw)
Takes s a_root c = (l : Certificate) × (s.root ≡ some l) × (l.raw ≡ c.raw)
Takes s a_signer c = any (equals c) s.intermediates ≡ true
Takes s invalid c = ⊥

abbrev Extends : Collected → Collected → Type 0
Extends s r =
    Keeps s.leaf r.leaf
    × Keeps s.root r.root
    × ((c : Certificate)
        → any (equals c) s.intermediates ≡ true
        → any (equals c) r.intermediates ≡ true)

-- The rest of the loop after a certificate of the kind.
abbrev after : ℕ → Kind → Certificate → List Certificate → Collected → Option Collected
after now k c certs s = elim k as (λ _. Option Collected) [
  | a_leaf ↦
      (let more = collect now certs (record s { leaf = some c }) in
        if is_other s.leaf c then none else more)
  | a_root ↦
      (let more = collect now certs (record s { root = some c }) in
        if is_other s.root c then none else more)
  | a_signer ↦ collect now certs (record s { intermediates = s.intermediates ++ c ∷ [] })
  | invalid ↦ none
]

-- What is to be shown of the loop over the certificates.
abbrev TakesAll : ℕ → List Certificate → Collected → Collected → Type 0
TakesAll now certs s r = Extends s r × All (λ c. Takes r (kind_of now c) c) certs

abbrev leaf_test : Kind → Bool
leaf_test a_leaf = true
leaf_test a_root = false
leaf_test a_signer = false
leaf_test invalid = false

abbrev root_test : Kind → Bool
root_test a_leaf = false
root_test a_root = true
root_test a_signer = false
root_test invalid = false

abbrev signer_test : Kind → Bool
signer_test a_leaf = false
signer_test a_root = false
signer_test a_signer = true
signer_test invalid = false

abbrev or_earlier : Option Certificate → Option Certificate → Option Certificate
or_earlier (some c) o = some c
or_earlier none o = o

abbrev only_if : Bool → Certificate → Option Certificate
only_if b c = if b then some c else none

-- The last of the certificates that passes the test, and all that do, in order.
abbrev last_such : (Certificate → Bool) → List Certificate → Option Certificate
last_such t [] = none
last_such t (c ∷ certs) = or_earlier (last_such t certs) (only_if (t c) c)

abbrev all_such : (Certificate → Bool) → List Certificate → List Certificate
all_such t [] = []
all_such t (c ∷ certs) = let rest = all_such t certs in if t c then c ∷ rest else rest

abbrev leaf_of : ℕ → List Certificate → Option Certificate
leaf_of now certs = last_such (λ c. leaf_test (kind_of now c)) certs

abbrev root_of : ℕ → List Certificate → Option Certificate
root_of now certs = last_such (λ c. root_test (kind_of now c)) certs

abbrev signers_of : ℕ → List Certificate → List Certificate
signers_of now certs = all_such (λ c. signer_test (kind_of now c)) certs

-- What the loop adds to what was there: the last leaf and root, and all signers.
abbrev Gathers : ℕ → List Certificate → Collected → Collected → Type 0
Gathers now certs s r =
    (r.leaf ≡ or_earlier (leaf_of now certs) s.leaf)
    × (r.root ≡ or_earlier (root_of now certs) s.root)
    × (r.intermediates ≡ s.intermediates ++ signers_of now certs)

abbrev pub certificates_in : Chain → List Certificate
certificates_in r = r.leaf ∷ (r.intermediates ++ listed r.root)

module _ (x : X509) where
  -- The certificates are all valid, the leaves are all equal and so are the roots. The last leaf, with the
  -- last root and all signers in order, is verified, and the result has the parts of the first chain.
  abbrev pub IsParsedFrom : ℕ → List Certificate → Chain → Type 0
  IsParsedFrom now certs r =
      (s : Collected) × (All (λ c. Takes s (kind_of now c) c) certs)
      × (s.root ≡ root_of now certs)
      × (s.intermediates ≡ signers_of now certs)
      × ((leaf : Certificate) × (leaf_of now certs ≡ some leaf)
          × (s.leaf ≡ some leaf)
          × ((more : List (List Certificate)) × (x.verify (pool (listed s.root)) s.intermediates
                  leaf
                ≡ some (certificates_in r ∷ more))))

  abbrev verified_parts : Option (List (List Certificate)) → Option Chain
  verified_parts o = elim o as (λ _. Option Chain) [ none ↦ none | some chains ↦ parts chains ]

  abbrev with_leaf : Collected → Option Certificate → Option Chain
  with_leaf s o = elim o as (λ _. Option Chain) [
    | none ↦ none
    | some leaf ↦ verified_parts (x.verify (pool (listed s.root)) s.intermediates leaf)
  ]

  abbrev with_collected : Option Collected → Option Chain
  with_collected o = elim o as (λ _. Option Chain) [ none ↦ none | some s ↦ with_leaf s s.leaf ]
