-- ===== src/Certs/Roots.antt =====
-- WriteCertificates and UpdateCACertsFiles (pkg/certs/write.go). The file system and the writing of the Java
-- trust store are a parameter.
use cordial.Common.{
  ℕ, Bool, true, false, not, Option, none, some, List, Bytes, [], ◌∷◌, ◌++◌, any, if◌then◌else◌,
}
use cordial.Certs.Certificates.{
  Certificate, X509, is_valid_root_ca, equals, read_certificates, write_certificates,
}

pub data Reading : Type 0 where
  contents : Bytes → Reading
  no_file not_read : Reading

-- The file of the certificates in PEM format, its directory, and the trust store beside it. The Boolean is
-- whether there was no error.
pub record CaFiles : Type 1 where
  pub State : Type 0
  pub read_file : State → Reading
  pub mkdir_all : State → State × Bool
  pub write_file : Bytes → State → State × Bool
  pub write_trust_store : List Certificate → State → State × Bool

-- slices.DeleteFunc of those that are no valid root.
unfoldable pub valid_roots : ℕ → List Certificate → List Certificate
unfolding is_valid_root_ca
valid_roots now [] = []
valid_roots now (c ∷ certs) =
    let rest = valid_roots now certs in if is_valid_root_ca now c then c ∷ rest else rest

-- The loop that adds the certificates that are missing, and whether there were any.
unfoldable pub add_missing : List Certificate → List Certificate → Bool → List Certificate × Bool
unfolding equals
add_missing [] all added = (all, added)
add_missing (c ∷ roots) all added =
    let present = add_missing roots all added in
    let missing = add_missing roots (all ++ c ∷ []) true in
    if any (equals c) all then present else missing

module _ (x : X509) (h : CaFiles) where
  -- ReadCertificates with the error of a file that is missing passed over; `none` is another error.
  unfoldable pub existing : h.State → Option (List Certificate)
  unfolding read_certificates
  existing s = elim (h.read_file s) [
    | contents text ↦ some (read_certificates x text)
    | no_file ↦ some []
    | not_read ↦ none
  ]

  -- WriteCertificates
  unfoldable pub write_pem : ℕ → List Certificate → h.State → h.State × Bool
  unfolding write_certificates
  write_pem now certs s =
      let (s1, made) = h.mkdir_all s in
      let written = h.write_file (write_certificates x now certs) s1 in
      if made then written else (s1, false)

  abbrev pub result : Bool → Bool → Option Bool
  result updated ok = if ok then some updated else none

  -- A file without certificates is written with all of the given ones, then the trust store.
  unfoldable pub create_files : ℕ → List Certificate → h.State → h.State × Option Bool
  unfolding write_pem
  create_files now roots s =
      let (s1, written) = write_pem now roots s in
      let (s2, stored) = h.write_trust_store roots s1 in
      if written then (s2, result true stored) else (s1, none)

  -- The trust store is written always, the file only where a certificate was missing.
  unfoldable pub extend_files : ℕ → List Certificate → Bool → h.State → h.State × Option Bool
  unfolding write_pem
  extend_files now all added s =
      let (s1, stored) = h.write_trust_store all s in
      let (s2, written) = write_pem now all s1 in
      if not stored
      then (s1, none)
      else if not added
      then (s1, some false)
      else (s2, result true written)

  -- UpdateCACertsFiles: whether the file was updated, or `none` for an error.
  unfoldable pub update_ca_certs_files : ℕ → List Certificate → h.State → h.State × Option Bool
  unfolding existing create_files extend_files valid_roots add_missing
  update_ca_certs_files now certs s =
      let roots = valid_roots now certs in
      elim (existing s) as (λ _. h.State × Option Bool) [
        | none ↦ (s, none)
        | some [] ↦ create_files now roots s
        | some (c ∷ all) ↦
            (let (joined, added) = add_missing roots (valid_roots now (c ∷ all)) false in
              extend_files now joined added s)
      ]
