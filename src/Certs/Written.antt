-- ===== src/Certs/Written.antt =====
-- The certificates that are read back from what WriteCertificatesTo writes (pkg/certs/read.go and write.go).
use mathlib.Core.Path.{subst}
use cordial.Common.{
  false, append_assoc, ℕ, zero, suc, ◌≤◌, ◌<◌, ◌≡◌, ◌∙◌, refl, ap, Option, none, some, List, Bytes,
  codes, [], ◌∷◌, ◌++◌, if◌then◌else◌, ltb, length, All, arith, Bool-cases, inl, inr, eqb,
}
use cordial.Text.{contains}
use cordial.Certs.Certificates.{
  Certificate, Block, X509, pem_blocks, blocks, certificates_of, read_certificates, printed,
  write_certificates, comment_text, certificate_comments, newline,
}

abbrev pub block_of : Certificate → Block
block_of c = record { type = codes "CERTIFICATE"; bytes = c.raw }

-- The comments hold nothing that could be the first line of a block. Names are printed as they are, so a
-- subject with a newline and such a line in it is no such text.
abbrev pub IsQuiet : X509 → Certificate → Type 0
IsQuiet x c = contains (codes "-----BEGIN") (certificate_comments x c) ≡ false

-- What encoding/pem and crypto/x509 document: Decode finds the next block, behind lines in which none
-- begins, and returns it with the rest of the data behind it; and Raw is what was parsed.
pub record PemLaws (x : X509) : Type 0 where
  pub decode_next :
      (t d rest : Bytes)
      → contains (codes "-----BEGIN") (t ++ newline) ≡ false
      → x.decode
          ((t ++ newline) ++ (x.encode (record { type = codes "CERTIFICATE"; bytes = d }) ++ rest))
        ≡ some (record { type = codes "CERTIFICATE"; bytes = d }, rest)
  pub decode_empty : x.decode [] ≡ none
  pub decode_shorter :
      (t : Bytes) (b : Block) (rest : Bytes) → x.decode t ≡ some (b, rest) → length rest < length t
  pub raw_parsed : (t : Bytes) (c : Certificate) → x.parse_certificate t ≡ some c → c.raw ≡ t

abbrev pub IsParsed : X509 → Certificate → Type 0
IsParsed x c = x.parse_certificate c.raw ≡ some c

-- The certificates that have not expired.
abbrev pub unexpired : ℕ → List Certificate → List Certificate
unexpired now [] = []
unexpired now (c ∷ certs) =
    let rest = unexpired now certs in if ltb c.not_after now then rest else c ∷ rest

abbrev pub blocks_for : List Certificate → List Block
blocks_for [] = []
blocks_for (c ∷ certs) = block_of c ∷ blocks_for certs

-- A certificate that can be written: it was parsed, and its comments are quiet.
abbrev pub IsWritable : X509 → Certificate → Type 0
IsWritable x c = IsParsed x c × IsQuiet x c

module _ (x : X509) (laws : PemLaws x) where
  decode_printed :
      (c : Certificate) (rest : Bytes)
      → IsQuiet x c
      → x.decode (printed x c ++ rest) ≡ some (block_of c, rest)
  unfolding printed certificate_comments
  decode_printed c rest q =
      ap x.decode (append_assoc (certificate_comments x c) (x.encode (block_of c)) rest)
      ∙ laws.decode_next (comment_text x c) c.raw rest q

  pem_blocks-printed :
      (fuel : ℕ) (c : Certificate) (rest : Bytes) (bs : List Block)
      → IsQuiet x c
      → length (printed x c ++ rest) ≤ fuel
      → ((f : ℕ) → length rest ≤ f → pem_blocks x f rest ≡ bs)
      → pem_blocks x fuel (printed x c ++ rest) ≡ block_of c ∷ bs
  unfolding pem_blocks
  pem_blocks-printed zero c rest bs q l k = ground (
    arith,
    laws.decode_shorter (printed x c ++ rest) (block_of c) rest (decode_printed c rest q),
    l,
  )
  pem_blocks-printed (suc f) c rest bs q l k =
      rw (decode_printed c rest q, pem_blocks)
        (ap (λ t. block_of c ∷ t)
          (k f (
            omega (
              arith,
              laws.decode_shorter (printed x c ++ rest) (block_of c) rest (decode_printed c rest q),
              l,
            ))))

  pem_blocks-empty : (fuel : ℕ) → pem_blocks x fuel [] ≡ []
  unfolding pem_blocks
  pem_blocks-empty zero = refl
  pem_blocks-empty (suc f) = rw (laws.decode_empty, pem_blocks) refl

  pem_blocks-write :
      (now : ℕ) (certs : List Certificate) (fuel : ℕ)
      → All (IsQuiet x) certs
      → length (write_certificates x now certs) ≤ fuel
      → pem_blocks x fuel (write_certificates x now certs) ≡ blocks_for (unexpired now certs)
  unfolding write_certificates
  pem_blocks-write now [] fuel q l = pem_blocks-empty fuel
  pem_blocks-write now (c ∷ certs) fuel (qc, q) l = elim (Bool-cases (ltb c.not_after now)) [
    | inl e ↦ rw e (
        pem_blocks-write now certs fuel q (
          subst
            (λ b.
              length (
                if b
                then write_certificates x now certs
                else printed x c ++ write_certificates x now certs)
              ≤ fuel)
            e l))
    | inr e ↦ rw e (
        pem_blocks-printed fuel c (write_certificates x now certs)
          (blocks_for (unexpired now certs)) qc
          (subst
            (λ b.
              length (
                if b
                then write_certificates x now certs
                else printed x c ++ write_certificates x now certs)
              ≤ fuel)
            e l)
          (λ f. pem_blocks-write now certs f q))
  ]

  certificates_of-blocks :
      (certs : List Certificate)
      → All (IsParsed x) certs
      → certificates_of x (blocks_for certs) ≡ certs
  unfolding certificates_of eqb
  certificates_of-blocks [] p = refl
  certificates_of-blocks (c ∷ certs) (pc, p) =
      rw (pc, certificates_of) (ap (λ t. c ∷ t) (certificates_of-blocks certs p))

  unexpired-All :
      (now : ℕ) (certs : List Certificate)
      → All (IsParsed x) certs
      → All (IsParsed x) (unexpired now certs)
  unexpired-All now [] p = tt
  unexpired-All now (c ∷ certs) (pc, p) = elim (Bool-cases (ltb c.not_after now)) [
    | inl e ↦ rw e (unexpired-All now certs p)
    | inr e ↦ rw e (pc, unexpired-All now certs p)
  ]

  -- The two conditions of all certificates.
  pub All-split :
      (certs : List Certificate)
      → All (IsWritable x) certs
      → All (IsParsed x) certs × All (IsQuiet x) certs
  All-split [] w = (tt, tt)
  All-split (c ∷ certs) ((pc, qc), w) = let (p, q) = All-split certs w in ((pc, p), (qc, q))

  pub All-join :
      (certs : List Certificate)
      → All (IsParsed x) certs
      → All (IsQuiet x) certs
      → All (IsWritable x) certs
  All-join [] p q = tt
  All-join (c ∷ certs) (pc, p) (qc, q) = ((pc, qc), All-join certs p q)

  -- Certificates that were parsed, and whose names print no line that begins a block, are read back from
  -- what is written with its comments, in order, those that have expired aside.
  pub read-write_certificates :
      (now : ℕ) (certs : List Certificate)
      → All (IsWritable x) certs
      → read_certificates x (write_certificates x now certs) ≡ unexpired now certs
  unfolding read_certificates blocks
  read-write_certificates now certs w =
      let (p, q) = All-split certs w in
      ap (certificates_of x)
        (pem_blocks-write now certs (length (write_certificates x now certs)) q (omega arith))
      ∙ certificates_of-blocks (unexpired now certs) (unexpired-All now certs p)

  certificates_of_one-IsParsed :
      (t : Bytes) (o : Option Certificate) (certs : List Certificate)
      → x.parse_certificate t ≡ o
      → All (IsParsed x) certs
      → All (IsParsed x) (elim o as (λ _. List Certificate) [ none ↦ certs | some c ↦ c ∷ certs ])
  certificates_of_one-IsParsed t none certs e p = p
  certificates_of_one-IsParsed t (some c) certs e p =
      (ap x.parse_certificate (laws.raw_parsed t c e) ∙ e, p)

  certificates_of-IsParsed : (bs : List Block) → All (IsParsed x) (certificates_of x bs)
  unfolding certificates_of
  certificates_of-IsParsed [] = tt
  certificates_of-IsParsed (b ∷ bs) = elim (Bool-cases (eqb b.type (codes "CERTIFICATE"))) [
    | inl e ↦ rw e (
        certificates_of_one-IsParsed b.bytes (x.parse_certificate b.bytes) (certificates_of x bs)
          refl (certificates_of-IsParsed bs))
    | inr e ↦ rw e (certificates_of-IsParsed bs)
  ]

  -- What is read was parsed.
  pub read_certificates-IsParsed : (t : Bytes) → All (IsParsed x) (read_certificates x t)
  unfolding read_certificates
  read_certificates-IsParsed t = certificates_of-IsParsed (blocks x t)
