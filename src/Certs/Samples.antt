-- ===== src/Certs/Samples.antt =====
-- Certificates, and the theorems about them at concrete inputs.
use mathlib.Core.Path.{subst}
use cordial.Common.{◌≡◌, refl, true, false, some, List, Bytes, eqb, [], ◌∷◌, ◌++◌, All, any}
use cordial.Certs.SamplePem.{sample, samples, samples-PemLaws, begin, decode_sample}
use cordial.Text.{cut, cut_prefix, contains}
use cordial.Certs.Certificates.{
  certificate_comments, comment_text, Certificate, printed, read_certificates, write_certificates,
  blocks, pem_blocks, certificates_of, is_valid_root_ca, is_valid_signing_ca, is_valid_leaf_cert,
  is_current, equals, first_match, check_key_match, parse_private_key,
}
use cordial.Certs.Written.{IsWritable, IsQuiet, read-write_certificates, unexpired}
use cordial.Certs.Roots.{
  CaFiles, Reading, contents, update_ca_certs_files, valid_roots, add_missing, existing, write_pem,
  extend_files,
}
use cordial.Certs.Missing.{or_none}
use cordial.Certs.Renewed.{FileLaws, Renewed, update_ca_certs_files-Renewed}
use cordial.Certs.Bundles.{
  Bundle, parse_pem, decode_pem, decode_blocks, decode_block, add_certificate, bundle_of, but_last,
  last_of, is_system,
}
use cordial.Certs.Bundles.Decoded.{ChainLaws, IsChainOf, IsSound, parse_pem-IsSound}

chains_inj : {a b : List (List Certificate)} → some a ≡ some b → a ≡ b
chains_inj e = cc e

samples-ChainLaws : ChainLaws samples
samples-ChainLaws = record {
  chains_start = λ roots intermediates c chains e.
      subst (All (IsChainOf c)) (chains_inj e) ((sample (2 ∷ []) ∷ [], refl), tt);
}

abbrev three : List Certificate
three = sample (1 ∷ 7 ∷ []) ∷ sample (3 ∷ []) ∷ sample (2 ∷ []) ∷ []

run_three :
    read_certificates samples (write_certificates samples 10 three)
    ≡ sample (1 ∷ 7 ∷ []) ∷ sample (2 ∷ []) ∷ []
unfolding read_certificates write_certificates blocks pem_blocks certificates_of eqb printed
    certificate_comments comment_text decode_sample cut cut_prefix
run_three = refl

three-IsWritable : All (IsWritable samples) three
unfolding contains cut cut_prefix certificate_comments comment_text
three-IsWritable = ((refl, refl), ((refl, refl), ((refl, refl), tt)))

read-write_certificates_example :
    read_certificates samples (write_certificates samples 10 three) ≡ unexpired 10 three
read-write_certificates_example =
    read-write_certificates samples samples-PemLaws 10 three three-IsWritable

-- The file is its contents, and no call fails.
abbrev one_file : CaFiles
one_file = record {
  State = Reading;
  read_file = λ s. s;
  mkdir_all = λ s. (s, true);
  write_file = λ t s. (contents t, true);
  write_trust_store = λ certs s. (s, true);
}

one_file-FileLaws : FileLaws one_file
one_file-FileLaws = record { write_read = λ t s e. refl; store_read = λ certs s. refl }

-- A file with two roots, of which one has expired since, and two certificates that are given, of which one
-- is a leaf.
abbrev old_file : Reading
old_file = contents (begin ++ 0 ∷ 1 ∷ 2 ∷ (begin ++ 0 ∷ 1 ∷ 3 ∷ []))

abbrev given : List Certificate
given = sample (4 ∷ []) ∷ sample (1 ∷ []) ∷ []

run_update :
    update_ca_certs_files samples one_file 10 given old_file
    ≡ (contents (write_certificates samples 10 (sample (2 ∷ []) ∷ sample (4 ∷ []) ∷ [])), some true)
unfolding update_ca_certs_files valid_roots add_missing existing write_pem extend_files
    read_certificates write_certificates blocks pem_blocks certificates_of is_valid_root_ca
    is_current equals eqb any printed certificate_comments comment_text decode_sample cut cut_prefix
run_update = refl

-- The certificate that has expired stays in the file where nothing is added to it.
run_no_update :
    update_ca_certs_files samples one_file 10 (sample (2 ∷ []) ∷ []) old_file
    ≡ (old_file, some false)
unfolding update_ca_certs_files valid_roots add_missing existing write_pem extend_files
    read_certificates write_certificates blocks pem_blocks certificates_of is_valid_root_ca
    is_current equals eqb any decode_sample cut cut_prefix
run_no_update = refl

given-IsWritable : All (IsWritable samples) given
unfolding contains cut cut_prefix certificate_comments comment_text
given-IsWritable = ((refl, refl), ((refl, refl), tt))

old-IsQuiet : All (IsQuiet samples) (or_none (existing samples one_file old_file))
unfolding contains cut cut_prefix certificate_comments comment_text existing read_certificates
    blocks pem_blocks certificates_of decode_sample eqb
old-IsQuiet = (refl, (refl, tt))

update_ca_certs_files-Renewed_example :
    Renewed samples samples-PemLaws one_file one_file-FileLaws 10 given old_file
      (update_ca_certs_files samples one_file 10 given old_file).0
      (update_ca_certs_files samples one_file 10 given old_file).1
update_ca_certs_files-Renewed_example =
    update_ca_certs_files-Renewed samples samples-PemLaws one_file one_file-FileLaws 10 given
      old_file given-IsWritable old-IsQuiet

-- A leaf and its key.
abbrev leaf_and_key : List Bytes
leaf_and_key = (begin ++ 0 ∷ 2 ∷ 1 ∷ 7 ∷ (begin ++ 1 ∷ 2 ∷ 1 ∷ 7 ∷ [])) ∷ []

abbrev some_bundle : Bundle
some_bundle = record {
  leaf = sample (1 ∷ 7 ∷ []);
  full_chain = sample (1 ∷ 7 ∷ []) ∷ [];
  root = some (sample (2 ∷ []));
  key = some (1 ∷ 7 ∷ []);
  valid = true;
  root_is_system = true;
}

run_parse_pem : parse_pem samples 10 leaf_and_key ≡ some some_bundle
unfolding parse_pem decode_pem decode_blocks decode_block add_certificate bundle_of but_last last_of
    is_system blocks pem_blocks is_valid_root_ca is_valid_signing_ca is_valid_leaf_cert is_current
    equals first_match check_key_match parse_private_key eqb any decode_sample cut cut_prefix
run_parse_pem = refl

parse_pem-IsSound_example : IsSound samples samples-ChainLaws some_bundle
parse_pem-IsSound_example =
    parse_pem-IsSound samples samples-ChainLaws 10 leaf_and_key some_bundle run_parse_pem refl

abbrev some_chain_given : List Certificate
some_chain_given = sample (2 ∷ []) ∷ sample (1 ∷ 7 ∷ []) ∷ []
