-- ===== src/Certs/Certificates.antt =====
-- The validity of certificates (pkg/certs/certs.go), the search for a private key (pkg/certs/keys.go), and
-- the reading and writing of certificates (read.go and write.go). crypto/x509, encoding/pem and the formats
-- of the comments before a certificate are a parameter; certificates are not nil, and all tests of one run are
-- made at one time.
use Prim.Native.Nat.{◌%◌}
use cordial.Common.{
  ℕ, ◌==◌, Bool, true, false, not, ◌&&◌, ◌||◌, Option, none, some, List, Bytes, codes, eqb, [], ◌∷◌,
  ◌++◌, if◌then◌else◌, ltb, length, zero, suc,
}
use cordial.Text.{has_suffix}
use cordial.Text.Number.{Int64, plus, minus}

-- The fields of x509.Certificate that are read. Times are numbers.
pub record Certificate : Type 0 where
  pub raw : Bytes
  pub common_name : Bytes
  pub issuer_name : Bytes
  pub is_ca : Bool
  pub basic_constraints_valid : Bool
  pub authority_key_id : Option Bytes
  pub subject_key_id : Bytes
  pub max_path_len : Int64
  pub max_path_len_zero : Bool
  pub key_usage : ℕ
  pub has_ext_key_usage : Bool
  pub not_before : ℕ
  pub not_after : ℕ

pub record Block : Type 0 where
  pub type : Bytes
  pub bytes : Bytes

-- pem.Decode, pem.EncodeToMemory, x509.ParseCertificate, the three parsers of private keys, and Verify, whose
-- roots are those of the system where none are given.
pub record X509 : Type 1 where
  pub Key : Type 0
  pub PublicKey : Type 0
  pub decode : Bytes → Option (Block × Bytes)
  pub encode : Block → Bytes
  -- The strings of names, numbers and times, and the digests in hexadecimal digits.
  pub subject_string : Certificate → Bytes
  pub issuer_string : Certificate → Bytes
  pub expiry_string : Certificate → Bytes
  pub serial_string : Certificate → Bytes
  pub sha1_digits : Bytes → Bytes
  pub sha256_digits : Bytes → Bytes
  pub parse_certificate : Bytes → Option Certificate
  pub parse_pkcs8 : Bytes → Option Key
  pub parse_pkcs1 : Bytes → Option Key
  pub parse_ec : Bytes → Option Key
  pub public_of : Key → Option PublicKey
  pub equal : PublicKey → PublicKey → Bool
  pub certified : Certificate → PublicKey
  pub verify :
      (roots : Option (List Certificate))
      → (intermediates : List Certificate) → Certificate
      → Option (List (List Certificate))
  pub system_roots : List Certificate

unfoldable pub is_current : ℕ → Certificate → Bool
is_current now c = ltb c.not_before now && ltb now c.not_after

abbrev pub has_own_key : Certificate → Bool
has_own_key c = elim c.authority_key_id [ none ↦ true | some id ↦ eqb id c.subject_key_id ]

-- IsValidRootCA
unfoldable pub is_valid_root_ca : ℕ → Certificate → Bool
unfolding is_current
is_valid_root_ca now c =
    c.is_ca
    && (c.basic_constraints_valid
        && (eqb c.common_name c.issuer_name && (has_own_key c && is_current now c)))

abbrev pub is_zero : Int64 → Bool
is_zero (plus n) = n == 0
is_zero (minus n) = n == 0

-- IsValidSigningCA
unfoldable pub is_valid_signing_ca : ℕ → Certificate → Bool
unfolding is_current
is_valid_signing_ca now c =
    c.is_ca
    && (c.basic_constraints_valid
        && ((not (is_zero c.max_path_len) || (is_zero c.max_path_len && c.max_path_len_zero))
            && is_current now c))

-- IsValidLeafCert; x509.KeyUsageDigitalSignature is the lowest bit.
unfoldable pub is_valid_leaf_cert : ℕ → Certificate → Bool
unfolding is_current
is_valid_leaf_cert now c =
    not c.is_ca && (c.key_usage % 2 == 1 && (c.has_ext_key_usage && is_current now c))

unfoldable pub equals : Certificate → Certificate → Bool
equals c d = eqb c.raw d.raw

abbrev or_else {ℓ} : {A : Type ℓ} → Option A → Option A → Option A
or_else (some a) o = some a
or_else none o = o

abbrev pub newline : Bytes
newline = 10 ∷ []

module _ (x : X509) where
  -- ParsePrivateKey
  unfoldable pub parse_private_key : Bytes → Option x.Key
  parse_private_key key = or_else (x.parse_pkcs8 key) (or_else (x.parse_pkcs1 key) (x.parse_ec key))

  -- CheckKeyMatch, for the key that PublicKey returns.
  unfoldable pub check_key_match : Bytes → Certificate → Bool
  unfolding parse_private_key
  check_key_match key c = elim (parse_private_key key) [
    | none ↦ false
    | some k ↦ elim (x.public_of k) [ none ↦ false | some p ↦ x.equal p (x.certified c) ]
  ]

  -- IndexPrivateKey, by the key at the index.
  unfoldable pub first_match : List Bytes → Certificate → Option Bytes
  unfolding check_key_match
  first_match [] c = none
  first_match (key ∷ keys) c =
      let later = first_match keys c in if check_key_match key c then some key else later

  -- The loop over pem.Decode, on fuel: each round leaves less text.
  unfoldable pub pem_blocks : ℕ → Bytes → List Block
  pem_blocks zero text = []
  pem_blocks (suc fuel) text = elim (x.decode text) as (λ _. List Block) [
    | none ↦ []
    | some (b, rest) ↦ b ∷ pem_blocks fuel rest
  ]

  unfoldable pub blocks : Bytes → List Block
  unfolding pem_blocks
  blocks text = pem_blocks (length text) text

  unfoldable pub certificates_of : List Block → List Certificate
  certificates_of [] = []
  certificates_of (b ∷ bs) =
      let rest = certificates_of bs in
      if eqb b.type (codes "CERTIFICATE")
      then (elim (x.parse_certificate b.bytes) as (λ _. List Certificate) [
        | none ↦ rest
        | some c ↦ c ∷ rest
      ])
      else rest

  -- ReadCertificates, for the text of the file.
  unfoldable pub read_certificates : Bytes → List Certificate
  unfolding certificates_of blocks
  read_certificates text = certificates_of (blocks text)

  -- CertificateComments without titles, up to its last newline.
  unfoldable pub comment_text : Certificate → Bytes
  comment_text c =
      codes "# Certificate"
      ++ (newline
          ++ (codes "#"
              ++ (newline
                  ++ (codes "#   Subject: "
                      ++ (x.subject_string c
                          ++ (newline
                              ++ (codes "#    Issuer: "
                                  ++ (x.issuer_string c
                                      ++ (newline
                                          ++ (codes "#   Expires: "
                                              ++ (x.expiry_string c
                                                  ++ (newline
                                                      ++ (codes "#    Serial: "
                                                          ++ (x.serial_string c
                                                            ++ (newline
                                                            ++ (codes "#      SHA1: "
                                                            ++ (x.sha1_digits c.raw
                                                            ++ (newline
                                                            ++ (codes "#    SHA256: "
                                                            ++ (x.sha256_digits c.raw
                                                            ++ (newline
                                                            ++ codes "#")))))))))))))))))))))

  -- CertificateComments
  unfoldable pub certificate_comments : Certificate → Bytes
  unfolding comment_text
  certificate_comments c = comment_text c ++ newline

  unfoldable pub printed : Certificate → Bytes
  unfolding certificate_comments
  printed c =
      certificate_comments c ++ x.encode (record { type = codes "CERTIFICATE"; bytes = c.raw })

  -- WriteCertificatesTo, to a writer that does not fail.
  unfoldable pub write_certificates : ℕ → List Certificate → Bytes
  unfolding printed
  write_certificates now [] = []
  write_certificates now (c ∷ certs) =
      let rest = write_certificates now certs in
      if ltb c.not_after now then rest else printed c ++ rest

  -- ReadPrivateKeyFromPEM
  unfoldable pub first_key : List Block → Option Bytes
  unfolding has_suffix
  first_key [] = none
  first_key (b ∷ bs) =
      let later = first_key bs in
      if has_suffix (codes "PRIVATE KEY") b.type then some b.bytes else later

  unfoldable pub read_private_key : Bytes → Option Bytes
  unfolding first_key blocks
  read_private_key text = first_key (blocks text)
