-- ===== src/Certs/Bundles.antt =====
-- Verify, ParseCertChain, DecodePEM and ParsePEM (pkg/certs/certs.go). `none` is an error.
pub mod Decoded
pub mod Chains
use cordial.Common.{
  ℕ, Bool, true, false, not, ◌&&◌, ◌||◌, Option, none, some, List, Bytes, codes, eqb, [], ◌∷◌, ◌++◌,
  any, if◌then◌else◌,
}
use cordial.Certs.Certificates.{
  Certificate, Block, X509, is_valid_root_ca, is_valid_signing_ca, is_valid_leaf_cert, equals,
  first_match, blocks,
}

-- The cases of the switch of Verify and ParseCertChain.
pub data Kind : Type 0 where
  a_leaf a_root a_signer invalid : Kind

unfoldable pub kind_of : ℕ → Certificate → Kind
unfolding is_valid_leaf_cert is_valid_root_ca is_valid_signing_ca
kind_of now c =
    if is_valid_leaf_cert now c
    then a_leaf
    else if is_valid_root_ca now c
    then a_root
    else if is_valid_signing_ca now c
    then a_signer
    else invalid

-- Whether what is there already is another certificate.
abbrev pub is_other : Option Certificate → Certificate → Bool
is_other none c = false
is_other (some d) c = not (equals d c)

pub record Sorted : Type 0 where
  pub leaf : Option Certificate
  pub intermediates : List Certificate
  pub roots : List Certificate

abbrev pub no_certificates : Sorted
no_certificates = record { leaf = none; intermediates = []; roots = [] }

-- The loop of Verify.
unfoldable pub sort_certs : ℕ → List Certificate → Sorted → Option Sorted
unfolding kind_of equals
sort_certs now [] s = some s
sort_certs now (c ∷ certs) s = elim (kind_of now c) as (λ _. Option Sorted) [
  | a_leaf ↦
      (let more = sort_certs now certs (record s { leaf = some c }) in
        if is_other s.leaf c then none else more)
  | a_root ↦ sort_certs now certs (record s { roots = s.roots ++ c ∷ [] })
  | a_signer ↦ sort_certs now certs (record s { intermediates = s.intermediates ++ c ∷ [] })
  | invalid ↦ none
]

-- A pool is made where there is a certificate for it.
abbrev pub pool : List Certificate → Option (List Certificate)
pool [] = none
pool (c ∷ certs) = some (c ∷ certs)

abbrev pub is_verified : Option (List (List Certificate)) → Bool
is_verified none = false
is_verified (some chains) = true

-- What ParseCertChain collects: at most one root.
pub record Collected : Type 0 where
  pub leaf : Option Certificate
  pub intermediates : List Certificate
  pub root : Option Certificate

abbrev pub nothing_collected : Collected
nothing_collected = record { leaf = none; intermediates = []; root = none }

-- The loop of ParseCertChain.
unfoldable pub collect : ℕ → List Certificate → Collected → Option Collected
unfolding kind_of equals
collect now [] s = some s
collect now (c ∷ certs) s = elim (kind_of now c) as (λ _. Option Collected) [
  | a_leaf ↦
      (let more = collect now certs (record s { leaf = some c }) in
        if is_other s.leaf c then none else more)
  | a_root ↦
      (let more = collect now certs (record s { root = some c }) in
        if is_other s.root c then none else more)
  | a_signer ↦ collect now certs (record s { intermediates = s.intermediates ++ c ∷ [] })
  | invalid ↦ none
]

pub record Chain : Type 0 where
  pub leaf : Certificate
  pub intermediates : List Certificate
  pub root : Option Certificate

abbrev pub listed : Option Certificate → List Certificate
listed none = []
listed (some c) = c ∷ []

-- All but the last of a chain that is not empty, and the last.
unfoldable pub but_last : Certificate → List Certificate → List Certificate
but_last c [] = []
but_last c (d ∷ chain) = c ∷ but_last d chain

unfoldable pub last_of : Certificate → List Certificate → Certificate
last_of c [] = c
last_of c (d ∷ chain) = last_of d chain

-- The parts of the first chain.
unfoldable pub parts : List (List Certificate) → Option Chain
unfolding but_last last_of
parts [] = none
parts ([] ∷ chains) = none
parts ((c ∷ []) ∷ chains) = some (record { leaf = c; intermediates = []; root = none })
parts ((c ∷ d ∷ chain) ∷ chains) =
    some (record { leaf = c; intermediates = but_last d chain; root = some (last_of d chain) })

-- What DecodePEM returns.
pub record Decoding : Type 0 where
  pub leaf : Option Certificate
  pub intermediates : List Certificate
  pub roots : List Certificate
  pub keys : List Bytes

abbrev pub nothing_decoded : Decoding
nothing_decoded = record { leaf = none; intermediates = []; roots = []; keys = [] }

abbrev pub or_first : Option Certificate → Certificate → Option Certificate
or_first none c = some c
or_first (some d) c = some d

unfoldable pub add_certificate : ℕ → Certificate → Decoding → Decoding
unfolding is_valid_root_ca is_valid_signing_ca is_valid_leaf_cert
add_certificate now c d =
    if is_valid_root_ca now c
    then record d { roots = d.roots ++ c ∷ [] }
    else if is_valid_signing_ca now c
    then record d { intermediates = d.intermediates ++ c ∷ [] }
    else if is_valid_leaf_cert now c
    then record d { leaf = or_first d.leaf c }
    else d

abbrev pub is_key : Block → Bool
is_key b =
    any (eqb b.type) (codes "RSA PRIVATE KEY" ∷ codes "EC PRIVATE KEY" ∷ codes "PRIVATE KEY" ∷ [])

abbrev pub is_certificate : Block → Bool
is_certificate b = eqb b.type (codes "CERTIFICATE")

pub record Bundle : Type 0 where
  pub leaf : Certificate
  pub full_chain : List Certificate
  pub root : Option Certificate
  pub key : Option Bytes
  pub valid : Bool
  pub root_is_system : Bool

abbrev pub first_of : List Certificate → Option Certificate
first_of [] = none
first_of (c ∷ certs) = some c

module _ (x : X509) where
  -- Verify. The case without a root is not reached: each certificate is of some kind.
  unfoldable pub verify_certs : ℕ → List Certificate → Bool
  unfolding sort_certs
  verify_certs now [] = false
  verify_certs now (c ∷ certs) = elim (sort_certs now (c ∷ certs) no_certificates) [
    | none ↦ false
    | some s ↦ elim s.leaf [
      | some leaf ↦ is_verified (x.verify (pool s.roots) s.intermediates leaf)
      | none ↦ elim s.intermediates [
        | leaf ∷ intermediates ↦ is_verified (x.verify (pool s.roots) intermediates leaf)
        | [] ↦ elim s.roots [ [] ↦ false | r ∷ rs ↦ true ]
      ]
    ]
  ]

  -- ParseCertChain
  unfoldable pub parse_cert_chain : ℕ → List Certificate → Option Chain
  unfolding collect parts
  parse_cert_chain now certs = elim (collect now certs nothing_collected) as (λ _. Option Chain) [
    | none ↦ none
    | some s ↦ elim s.leaf as (λ _. Option Chain) [
      | none ↦ none
      | some leaf ↦
          elim (x.verify (pool (listed s.root)) s.intermediates leaf) as (λ _. Option Chain) [
            | none ↦ none
            | some chains ↦ parts chains
          ]
    ]
  ]

  unfoldable pub decode_block : ℕ → Block → Decoding → Option Decoding
  unfolding add_certificate
  decode_block now b d =
      if is_certificate b
      then (elim (x.parse_certificate b.bytes) as (λ _. Option Decoding) [
        | none ↦ none
        | some c ↦ some (add_certificate now c d)
      ])
      else if is_key b
      then some (record d { keys = d.keys ++ b.bytes ∷ [] })
      else some d

  unfoldable pub decode_blocks : ℕ → List Block → Decoding → Option Decoding
  unfolding decode_block
  decode_blocks now [] d = some d
  decode_blocks now (b ∷ bs) d = elim (decode_block now b d) as (λ _. Option Decoding) [
    | none ↦ none
    | some d' ↦ decode_blocks now bs d'
  ]

  abbrev pub all_blocks : List Bytes → List Block
  all_blocks [] = []
  all_blocks (t ∷ texts) = blocks x t ++ all_blocks texts

  -- DecodePEM
  unfoldable pub decode_pem : ℕ → List Bytes → Option Decoding
  unfolding decode_blocks blocks
  decode_pem now texts = decode_blocks now (all_blocks texts) nothing_decoded

  -- The certificate that the rest is to be verified for.
  abbrev pub designated : Decoding → Option Certificate
  designated d = elim d.leaf [
    | some c ↦ some c
    | none ↦ elim d.intermediates [ c ∷ certs ↦ some c | [] ↦ first_of d.roots ]
  ]

  unfoldable pub is_system : Certificate → Bool
  unfolding equals
  is_system root = elim (x.verify (some x.system_roots) [] root) [
    | none ↦ false
    | some chains ↦
        any (λ (chain : List Certificate). elim chain [ [] ↦ false | c ∷ rest ↦ equals c root ])
          chains
  ]

  abbrev pub unverified : Decoding → Certificate → Option Bytes → Bundle
  unverified d leaf key = record {
    leaf = leaf;
    full_chain = d.intermediates;
    root = first_of d.roots;
    key = key;
    valid = false;
    root_is_system = false;
  }

  unfoldable pub bundle_of :
      Decoding → Certificate → Option Bytes → Option (List (List Certificate)) → Bundle
  unfolding but_last last_of is_system
  bundle_of d leaf (some key) (some ((c ∷ chain) ∷ chains)) = record {
    leaf = c;
    full_chain = but_last c chain;
    root = some (last_of c chain);
    key = some key;
    valid = true;
    root_is_system = is_system (last_of c chain);
  }
  bundle_of d leaf (some key) (some ([] ∷ chains)) = unverified d leaf (some key)
  bundle_of d leaf (some key) (some []) = unverified d leaf (some key)
  bundle_of d leaf (some key) none = unverified d leaf (some key)
  bundle_of d leaf none chains = unverified d leaf none

  -- ParsePEM
  unfoldable pub parse_pem : ℕ → List Bytes → Option Bundle
  unfolding decode_pem first_match bundle_of
  parse_pem now [] = none
  parse_pem now (t ∷ texts) = elim (decode_pem now (t ∷ texts)) as (λ _. Option Bundle) [
    | none ↦ none
    | some d ↦ elim (designated d) as (λ _. Option Bundle) [
      | none ↦ none
      | some leaf ↦ some (
          bundle_of d leaf (first_match x d.keys leaf)
            (x.verify (some (x.system_roots ++ d.roots)) d.intermediates leaf))
    ]
  ]
