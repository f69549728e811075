-- ===== src/Certs/Bundles/Decoded.antt =====
-- What DecodePEM and ParsePEM return (pkg/certs/certs.go).
use mathlib.Core.Path.{subst}
use cordial.Common.{
  ℕ, ◌≡◌, ◌∙◌, refl, sym, ap, Bool, true, false, Option, none, some, List, Bytes, [], ◌∷◌, ◌++◌,
  if◌then◌else◌, All, arith,
}
use cordial.Certs.Certificates.{Certificate, X509, check_key_match, first_match}
use cordial.Certs.Bundles.{
  Bundle, Decoding, but_last, last_of, bundle_of, designated, decode_pem, parse_pem,
}

-- The first certificate of a chain is the one that was verified.
abbrev pub IsChainOf : Certificate → List Certificate → Type 0
IsChainOf c chain = (rest : List Certificate) × (chain ≡ c ∷ rest)

-- What crypto/x509 documents of the chains.
pub record ChainLaws (x : X509) : Type 0 where
  pub chains_start :
      (roots : Option (List Certificate)) (intermediates : List Certificate) (c : Certificate)
      (chains : List (List Certificate))
      → x.verify roots intermediates c ≡ some chains
      → All (IsChainOf c) chains

pub but_last-last :
    (c : Certificate) (chain : List Certificate)
    → but_last c chain ++ last_of c chain ∷ [] ≡ c ∷ chain
unfolding but_last last_of
but_last-last c [] = refl
but_last-last c (d ∷ chain) = ap (λ l. c ∷ l) (but_last-last d chain)

module _ (x : X509) (laws : ChainLaws x) where
  key_inj : {a b : Bytes} → some a ≡ some b → a ≡ b
  key_inj e = ground arith

  match-check :
      (k key : Bytes) (c : Certificate) (later : Option Bytes) (b : Bool)
      → check_key_match x k c ≡ b
      → (if b then some k else later) ≡ some key
      → (later ≡ some key → check_key_match x key c ≡ true)
      → check_key_match x key c ≡ true
  match-check k key c later true m e rest = subst (λ l. check_key_match x l c ≡ true) (key_inj e) m
  match-check k key c later false m e rest = rest e

  first_match-check :
      (keys : List Bytes) (c : Certificate) (key : Bytes)
      → first_match x keys c ≡ some key
      → check_key_match x key c ≡ true
  unfolding first_match
  first_match-check [] c key e = absurd (ground (arith, e))
  first_match-check (k ∷ keys) c key e =
      match-check k key c (first_match x keys c) (check_key_match x k c) refl e
        (first_match-check keys c key)

  -- The bundle has a key that matches the leaf, and what Verify returned for the leaf and some intermediates
  -- is the chain from the leaf to the root.
  abbrev pub IsSound : Bundle → Type 0
  IsSound b =
      (key : Bytes) × (b.key ≡ some key)
      × (check_key_match x key b.leaf ≡ true)
      × ((root : Certificate) × (b.root ≡ some root)
          × ((tail : List Certificate) × (b.full_chain ++ root ∷ [] ≡ b.leaf ∷ tail)
              × ((roots : List Certificate) × (intermediates : List Certificate) × (chains : List
                    (List Certificate))
                  × (x.verify (some (x.system_roots ++ roots)) intermediates b.leaf
                      ≡ some ((b.full_chain ++ root ∷ []) ∷ chains)))))

  bundle_of-IsSound :
      (d : Decoding) (leaf : Certificate) (key : Option Bytes)
      (verified : Option (List (List Certificate)))
      → ((k : Bytes) → key ≡ some k → check_key_match x k leaf ≡ true)
      → x.verify (some (x.system_roots ++ d.roots)) d.intermediates leaf ≡ verified
      → (bundle_of x d leaf key verified).valid ≡ true
      → IsSound (bundle_of x d leaf key verified)
  unfolding bundle_of
  bundle_of-IsSound d leaf none chains k v e = absurd (ground (arith, e))
  bundle_of-IsSound d leaf (some key) none k v e = absurd (ground (arith, e))
  bundle_of-IsSound d leaf (some key) (some []) k v e = absurd (ground (arith, e))
  bundle_of-IsSound d leaf (some key) (some ([] ∷ chains)) k v e = absurd (ground (arith, e))
  bundle_of-IsSound d leaf (some key) (some ((c ∷ chain) ∷ chains)) k v e =
      let ((rest, starts), _) =
        laws.chains_start (some (x.system_roots ++ d.roots)) d.intermediates leaf
          ((c ∷ chain) ∷ chains) v in
      let same : c ≡ leaf = cc starts in
      (
        key,
        refl,
        subst (λ l. check_key_match x key l ≡ true) (sym same) (k key refl),
        (
          last_of c chain,
          refl,
          (
            chain,
            but_last-last c chain,
            (
              d.roots,
              d.intermediates,
              chains,
              subst
                  (λ l.
                    x.verify (some (x.system_roots ++ d.roots)) d.intermediates l
                    ≡ some ((but_last c chain ++ last_of c chain ∷ []) ∷ chains))
                  (sym same) (v ∙ ap (λ l. some (l ∷ chains)) (sym (but_last-last c chain))),
            ),
          ),
        ),
      )

  abbrev designated_bundle : Decoding → Option Certificate → Option Bundle
  designated_bundle d o = elim o as (λ _. Option Bundle) [
    | none ↦ none
    | some leaf ↦ some (
        bundle_of x d leaf (first_match x d.keys leaf)
          (x.verify (some (x.system_roots ++ d.roots)) d.intermediates leaf))
  ]

  bundle_inj : {a b : Bundle} → some a ≡ some b → a ≡ b
  bundle_inj e = cc e

  designated_bundle-IsSound :
      (d : Decoding) (o : Option Certificate) (b : Bundle)
      → designated_bundle d o ≡ some b
      → b.valid ≡ true
      → IsSound b
  designated_bundle-IsSound d none b e v = absurd (ground (arith, e))
  designated_bundle-IsSound d (some leaf) b e v = subst IsSound (bundle_inj e) (
      bundle_of-IsSound d leaf (first_match x d.keys leaf)
        (x.verify (some (x.system_roots ++ d.roots)) d.intermediates leaf)
        (first_match-check d.keys leaf) refl (ap (λ (u : Bundle). u.valid) (bundle_inj e) ∙ v))

  abbrev decoded_bundle : Option Decoding → Option Bundle
  decoded_bundle o = elim o as (λ _. Option Bundle) [
    | none ↦ none
    | some d ↦ designated_bundle d (designated x d)
  ]

  decoded_bundle-IsSound :
      (o : Option Decoding) (b : Bundle) → decoded_bundle o ≡ some b → b.valid ≡ true → IsSound b
  decoded_bundle-IsSound none b e v = absurd (ground (arith, e))
  decoded_bundle-IsSound (some d) b e v = designated_bundle-IsSound d (designated x d) b e v

  -- A bundle that ParsePEM marks as valid has a key that matches its leaf; the full chain and the root
  -- together are a chain that verification of the leaf returned, and it begins with the leaf.
  pub parse_pem-IsSound :
      (now : ℕ) (texts : List Bytes) (b : Bundle)
      → parse_pem x now texts ≡ some b
      → b.valid ≡ true
      → IsSound b
  unfolding parse_pem
  parse_pem-IsSound now [] b e v = absurd (ground (arith, e))
  parse_pem-IsSound now (t ∷ texts) b e v =
      decoded_bundle-IsSound (decode_pem x now (t ∷ texts)) b e v
