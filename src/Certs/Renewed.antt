-- ===== src/Certs/Renewed.antt =====
-- What UpdateCACertsFiles leaves in the file of root certificates (pkg/certs/write.go).
use mathlib.Core.Path.{subst}
use cordial.Common.{
  ℕ, ◌≡◌, ◌∙◌, refl, ap, Bool, true, false, not, Option, none, some, List, Bytes, [], ◌∷◌,
  if◌then◌else◌, All, arith,
}
use cordial.Certs.Certificates.{Certificate, X509, read_certificates, write_certificates}
use cordial.Certs.Roots.{
  CaFiles, Reading, contents, no_file, not_read, valid_roots, add_missing, existing, write_pem,
  create_files, extend_files, update_ca_certs_files, result,
}
use cordial.Certs.Written.{
  PemLaws, IsParsed, IsQuiet, IsWritable, All-join, read-write_certificates,
  read_certificates-IsParsed,
}
use cordial.Certs.Missing.{
  IsRoot, Holds, add_missing-Holds, add_missing-All, add_missing-same, valid_roots-IsRoot,
  valid_roots-All, valid_roots-Holds, Holds-same, Covers, Holds-Covers, add_missing-kept, or_none,
  unexpired-same,
}

-- What is written to the file is read back, and the trust store is another file.
pub record FileLaws (h : CaFiles) : Type 0 where
  pub write_read :
      (t : Bytes) (s : h.State)
      → (h.write_file t s).1 ≡ true
      → h.read_file (h.write_file t s).0 ≡ contents t
  pub store_read :
      (certs : List Certificate) (s : h.State)
      → h.read_file (h.write_trust_store certs s).0 ≡ h.read_file s

module _ (x : X509) (pem : PemLaws x) (h : CaFiles) (files : FileLaws h) where
  -- By outcome: after an update, the valid roots that are given and the old ones are in the file.
  abbrev Leaves : ℕ → List Certificate → List Certificate → h.State → h.State → Option Bool → Type 0
  Leaves now roots old s s' none = Unit
  Leaves now roots old s s' (some true) =
      (all : List Certificate) × (existing x h s' ≡ some all)
      × All (IsRoot now) all
      × Holds all roots
      × Holds all old
  Leaves now roots old s s' (some false) =
      (all : List Certificate) × (existing x h s ≡ some all)
      × (h.read_file s' ≡ h.read_file s)
      × Holds all roots

  existing-same :
      (s s' : h.State) → h.read_file s' ≡ h.read_file s → existing x h s' ≡ existing x h s
  unfolding existing
  existing-same s s' e = rw (e, existing) refl

  existing-read :
      (s : h.State) (t : Bytes)
      → h.read_file s ≡ contents t
      → existing x h s ≡ some (read_certificates x t)
  unfolding existing
  existing-read s t e = rw (e, existing) refl

  written_read :
      (made : Bool) (s1 : h.State) (w : h.State × Bool) (t : Bytes)
      → (w.1 ≡ true → h.read_file w.0 ≡ contents t)
      → (if made then w else (s1, false)).1 ≡ true
      → h.read_file (if made then w else (s1, false)).0 ≡ contents t
  written_read true s1 w t k e = k e
  written_read false s1 w t k e = absurd (ground (arith, e))

  write_pem-existing :
      (now : ℕ) (certs : List Certificate) (s : h.State)
      → All (IsWritable x) certs
      → All (IsRoot now) certs
      → (write_pem x h now certs s).1 ≡ true
      → existing x h (write_pem x h now certs s).0 ≡ some certs
  unfolding write_pem
  write_pem-existing now certs s p r w =
      let t = write_certificates x now certs in
      let s1 = (h.mkdir_all s).0 in
      existing-read (write_pem x h now certs s).0 t
        (written_read (h.mkdir_all s).1 s1 (h.write_file t s1) t (files.write_read t s1) w)
      ∙ ap some (read-write_certificates x pem now certs p ∙ unexpired-same now certs r)

  some_inj : {a b : List Certificate} → some a ≡ some b → a ≡ b
  some_inj e = ground arith

  reading-IsParsed :
      (r : Reading) (certs : List Certificate)
      → (elim r as (λ _. Option (List Certificate)) [
        | contents text ↦ some (read_certificates x text)
        | no_file ↦ some []
        | not_read ↦ none
      ])
        ≡ some certs
      → All (IsParsed x) certs
  reading-IsParsed (contents t) certs e =
      subst (All (IsParsed x)) (some_inj e) (read_certificates-IsParsed x pem t)
  reading-IsParsed no_file certs e = subst (All (IsParsed x)) (some_inj {a = []} e) tt
  reading-IsParsed not_read certs e = absurd (ground (arith, e))

  existing-IsParsed :
      (s : h.State) (certs : List Certificate)
      → existing x h s ≡ some certs
      → All (IsParsed x) certs
  unfolding existing
  existing-IsParsed s certs e = reading-IsParsed (h.read_file s) certs e

  abbrev created : h.State → Bool → h.State × Bool → h.State × Option Bool
  created s1 written stored = if written then (stored.0, result x h true stored.1) else (s1, none)

  created-Renewed :
      (now : ℕ) (roots : List Certificate) (s s1 : h.State) (written : Bool)
      (stored : h.State × Bool)
      → All (IsRoot now) roots
      → (written ≡ true → existing x h s1 ≡ some roots)
      → h.read_file stored.0 ≡ h.read_file s1
      → Leaves now roots [] s (created s1 written stored).0 (created s1 written stored).1
  created-Renewed now roots s s1 false stored r w e = tt
  created-Renewed now roots s s1 true (s2, false) r w e = tt
  created-Renewed now roots s s1 true (s2, true) r w e =
      (roots, existing-same s1 s2 e ∙ w refl, r, Holds-same roots, tt)

  create_files-Renewed :
      (now : ℕ) (roots : List Certificate) (s : h.State)
      → All (IsWritable x) roots
      → All (IsRoot now) roots
      → Leaves now roots [] s (create_files x h now roots s).0 (create_files x h now roots s).1
  unfolding create_files
  create_files-Renewed now roots s p r =
      let w = write_pem x h now roots s in
      created-Renewed now roots s w.0 w.1 (h.write_trust_store roots w.0) r
        (write_pem-existing now roots s p r) (files.store_read roots w.0)

  abbrev extended : h.State → Bool → Bool → h.State × Bool → h.State × Option Bool
  extended s1 stored added w =
      if not stored
      then (s1, none)
      else if not added
      then (s1, some false)
      else (w.0, result x h true w.1)

  extended-Renewed :
      (now : ℕ) (roots old all before : List Certificate) (stored added : Bool) (s s1 : h.State)
      (w : h.State × Bool)
      → All (IsRoot now) all
      → Holds all roots
      → Holds all old
      → existing x h s ≡ some before
      → (added ≡ false → Holds before roots)
      → h.read_file s1 ≡ h.read_file s
      → (w.1 ≡ true → existing x h w.0 ≡ some all)
      → Leaves now roots old s (extended s1 stored added w).0 (extended s1 stored added w).1
  extended-Renewed now roots old all before false added s s1 w r i g e o q k = tt
  extended-Renewed now roots old all before true false s s1 w r i g e o q k = (before, e, q, o refl)
  extended-Renewed now roots old all before true true s s1 (s2, false) r i g e o q k = tt
  extended-Renewed now roots old all before true true s s1 (s2, true) r i g e o q k =
      (all, k refl, r, i, g)

  extend_files-Renewed :
      (now : ℕ) (roots old all before : List Certificate) (added : Bool) (s : h.State)
      → All (IsWritable x) all
      → All (IsRoot now) all
      → Holds all roots
      → Holds all old
      → existing x h s ≡ some before
      → (added ≡ false → Holds before roots)
      → Leaves now roots old s
          (extend_files x h now all added s).0
          (extend_files x h now all added s).1
  unfolding extend_files
  extend_files-Renewed now roots old all before added s p r i g e o =
      let stored = h.write_trust_store all s in
      extended-Renewed now roots old all before stored.1 added s stored.0
        (write_pem x h now all stored.0) r i g e o (files.store_read all s)
        (write_pem-existing now all stored.0 p r)

  abbrev pub choose_files :
      ℕ → List Certificate → Option (List Certificate) → h.State → h.State × Option Bool
  choose_files now roots o s = elim o as (λ _. h.State × Option Bool) [
    | none ↦ (s, none)
    | some [] ↦ create_files x h now roots s
    | some (c ∷ all) ↦
        (let (joined, added) = add_missing roots (valid_roots now (c ∷ all)) false in
          extend_files x h now joined added s)
  ]

  choose_files-Renewed :
      (now : ℕ) (roots : List Certificate) (o : Option (List Certificate)) (s : h.State)
      → All (IsWritable x) roots
      → All (IsRoot now) roots
      → existing x h s ≡ o
      → All (IsQuiet x) (or_none o)
      → Leaves now roots
          (valid_roots now (or_none o))
          s
          (choose_files now roots o s).0
          (choose_files now roots o s).1
  unfolding valid_roots
  choose_files-Renewed now roots none s p r e q = tt
  choose_files-Renewed now roots (some []) s p r e q = create_files-Renewed now roots s p r
  choose_files-Renewed now roots (some (c ∷ all)) s p r e q =
      let current = valid_roots now (c ∷ all) in
      let joined = add_missing roots current false in
      let parsed = All-join x pem (c ∷ all) (existing-IsParsed s (c ∷ all) e) q in
      extend_files-Renewed now roots current joined.0 (c ∷ all) joined.1 s
        (add_missing-All (IsWritable x) roots current false p
          (valid_roots-All (IsWritable x) now (c ∷ all) parsed))
        (add_missing-All (IsRoot now) roots current false r (valid_roots-IsRoot now (c ∷ all)))
        (add_missing-Holds roots current false) (add_missing-kept roots current false) e
        (λ same. valid_roots-Holds now (c ∷ all) roots (
          subst (λ l. Holds l roots) (add_missing-same roots current same)
            (add_missing-Holds roots current false)))

  -- After an error nothing is stated. Where the file was updated, each certificate that is read from it is a
  -- valid root, and each of the given ones and of those that were in the file is in it unless it is no valid
  -- root; where it was not, the given ones that are valid roots were there before, and the file is the same.
  abbrev pub Renewed : ℕ → List Certificate → h.State → h.State → Option Bool → Type 0
  Renewed now given s s' none = Unit
  Renewed now given s s' (some true) =
      (all : List Certificate) × (existing x h s' ≡ some all)
      × All (IsRoot now) all
      × Covers now all given
      × Covers now all (or_none (existing x h s))
  Renewed now given s s' (some false) =
      (all : List Certificate) × (existing x h s ≡ some all)
      × (h.read_file s' ≡ h.read_file s)
      × Covers now all given

  Leaves-Renewed :
      (now : ℕ) (given : List Certificate) (s s' : h.State) (o : Option Bool)
      → Leaves now (valid_roots now given) (valid_roots now (or_none (existing x h s))) s s' o
      → Renewed now given s s' o
  Leaves-Renewed now given s s' none l = tt
  Leaves-Renewed now given s s' (some true) (all, e, r, i, g) =
      (all, e, r, Holds-Covers now all given i, Holds-Covers now all (or_none (existing x h s)) g)
  Leaves-Renewed now given s s' (some false) (all, e, q, i) =
      (all, e, q, Holds-Covers now all given i)

  -- Every given certificate that is a valid root is in the file after a run without an error. A run that
  -- updates the file leaves only valid roots in it, with all valid ones that were there; one that does not
  -- leaves the file as it was. The certificates that are given and those in the file print no line that begins a
  -- block in their comments, and the given ones were parsed.
  pub update_ca_certs_files-Renewed :
      (now : ℕ) (certs : List Certificate) (s : h.State)
      → All (IsWritable x) certs
      → All (IsQuiet x) (or_none (existing x h s))
      → Renewed now certs s
          (update_ca_certs_files x h now certs s).0
          (update_ca_certs_files x h now certs s).1
  unfolding update_ca_certs_files
  update_ca_certs_files-Renewed now certs s p q =
      Leaves-Renewed now certs s (update_ca_certs_files x h now certs s).0
        (update_ca_certs_files x h now certs s).1
        (choose_files-Renewed now (valid_roots now certs) (existing x h s) s
          (valid_roots-All (IsWritable x) now certs p) (valid_roots-IsRoot now certs) refl q)
