-- ===== src/Certs/SamplePem.antt =====
-- A PEM format of the samples: its laws hold for every text and certificate.
use mathlib.Core.Path.{subst}
use cordial.Common.{
  ℕ, suc, ◌≤◌, ◌<◌, ◌==◌, ◌≡◌, ◌≢◌, ◌∙◌, refl, sym, ap, true, false, not, Option, none, some, Bytes,
  codes, eqb, [], ◌∷◌, ◌++◌, if◌then◌else◌, length, take, drop, take-append, drop-append,
  length-drop, All, arith, Option-cases, inl, inr, is_some,
}
use cordial.Text.{cut, contains, cut_prefix}
use cordial.Text.Cut.{shift, shift-is_some, cut-later, cut-now, cut-begin}
use cordial.Text.Number.{plus}
use cordial.Certs.Certificates.{Certificate, Block, X509, newline}
use cordial.Certs.Written.{PemLaws}

abbrev pub byte_of : Bytes → ℕ
byte_of [] = 0
byte_of (c ∷ t) = c

-- The first byte says what a certificate is: 1 for a leaf, 3 for one that has expired.
abbrev pub sample : Bytes → Certificate
sample t = record {
  raw = t;
  common_name = [];
  issuer_name = [];
  is_ca = not (byte_of t == 1);
  basic_constraints_valid = true;
  authority_key_id = none;
  subject_key_id = [];
  max_path_len = plus 1;
  max_path_len_zero = false;
  key_usage = 1;
  has_ext_key_usage = true;
  not_before = 0;
  not_after = if byte_of t == 3 then 5 else 100;
}

abbrev pub type_of : ℕ → Bytes
type_of f = if f == 0 then codes "CERTIFICATE" else codes "PRIVATE KEY"

abbrev pub flag_of : Bytes → ℕ
flag_of t = if eqb t (codes "CERTIFICATE") then 0 else 1

-- A block is a first line without its end, a flag, the number of its bytes, and these.
abbrev pub begin : Bytes
begin = codes "-----BEGIN"

abbrev payload : Bytes → Option (Block × Bytes)
payload [] = none
payload (f ∷ []) = none
payload (f ∷ n ∷ t) = some (record { type = type_of f; bytes = take n t }, drop n t)

abbrev after_begin : Option (Bytes × Bytes) → Option (Block × Bytes)
after_begin none = none
after_begin (some (t, r)) = payload r

unfoldable pub decode_sample : Bytes → Option (Block × Bytes)
unfolding cut
decode_sample s = after_begin (cut begin s)

abbrev pub samples : X509
samples = record {
  Key = Bytes;
  PublicKey = Bytes;
  decode = decode_sample;
  encode = λ b. begin ++ flag_of b.type ∷ length b.bytes ∷ b.bytes;
  subject_string = λ c. codes "CN=x";
  issuer_string = λ c. codes "CN=y";
  expiry_string = λ c. codes "2030-01-01T00:00:00Z";
  serial_string = λ c. codes "1";
  sha1_digits = λ t. codes "0A";
  sha256_digits = λ t. codes "0B";
  parse_certificate = λ t. some (sample t);
  parse_pkcs8 = λ k. some k;
  parse_pkcs1 = λ k. none;
  parse_ec = λ k. none;
  public_of = λ k. some k;
  equal = eqb;
  certified = λ c. c.raw;
  verify = λ roots intermediates c. some ((c ∷ sample (2 ∷ []) ∷ []) ∷ []);
  system_roots = [];
}

-- No newline.
abbrev HasNoNewline : Bytes → Type 0
HasNoNewline p = All (λ c. c ≢ 10) p

cut_prefix-line :
    (p u w : Bytes)
    → HasNoNewline p
    → cut_prefix p (u ++ newline) ≡ none
    → cut_prefix p ((u ++ newline) ++ w) ≡ none
unfolding cut_prefix
cut_prefix-line [] u w h e = absurd (ground (arith, e))
cut_prefix-line (a ∷ p) [] w (ha, h) e = ground (arith, ha)
cut_prefix-line (a ∷ p) (c ∷ u) w (ha, h) e = ground (arith, cut_prefix-line p u w h, e)

cut_prefix-newline :
    (a : ℕ) (p w : Bytes) → a ≢ 10 → cut_prefix (a ∷ p) (10 ∷ ((a ∷ p) ++ w)) ≡ none
unfolding cut_prefix
cut_prefix-newline a p w n = ground (arith, n)

cut-line :
    (a : ℕ) (p u w : Bytes)
    → HasNoNewline (a ∷ p)
    → contains (a ∷ p) (u ++ newline) ≡ false
    → cut (a ∷ p) ((u ++ newline) ++ ((a ∷ p) ++ w)) ≡ some (u ++ newline, w)
unfolding contains
cut-line a p [] w (ha, h) e =
    cut-later (a ∷ p) 10 ((a ∷ p) ++ w) (cut_prefix-newline a p w ha)
    ∙ ap (shift 10) (cut-begin (a ∷ p) w)
cut-line a p (c ∷ u) w h e = elim (Option-cases (cut_prefix (a ∷ p) (c ∷ (u ++ newline)))) [
  | inl n ↦
      cut-later (a ∷ p) c ((u ++ newline) ++ ((a ∷ p) ++ w))
        (cut_prefix-line (a ∷ p) (c ∷ u) ((a ∷ p) ++ w) h n)
      ∙ ap (shift c) (
          cut-line a p u w h (
            sym (shift-is_some c (cut (a ∷ p) (u ++ newline)))
            ∙ (sym (ap is_some (cut-later (a ∷ p) c (u ++ newline) n)) ∙ e)))
  | inr (r, n) ↦
      absurd (ground (arith, sym (ap is_some (cut-now (a ∷ p) c (u ++ newline) r n)) ∙ e))
]

cut_prefix-shorter : (p s r : Bytes) → cut_prefix p s ≡ some r → length r ≤ length s
unfolding cut_prefix
cut_prefix-shorter [] s r e = ground (arith, e)
cut_prefix-shorter (a ∷ p) [] r e = absurd (ground (arith, e))
cut_prefix-shorter (a ∷ p) (c ∷ s) r e = ground (arith, cut_prefix-shorter p s r, e)

abbrev rest_length : Option (Bytes × Bytes) → ℕ
rest_length none = 0
rest_length (some (a, r)) = length r

rest_length-shift : (c : ℕ) (o : Option (Bytes × Bytes)) → rest_length (shift c o) ≡ rest_length o
rest_length-shift c none = refl
rest_length-shift c (some (a, r)) = refl

nothing_cut : (a : ℕ) (p : Bytes) → rest_length (cut (a ∷ p) []) ≤ 0
unfolding cut cut_prefix
nothing_cut a p = omega arith

cut-shorter : (a : ℕ) (p s : Bytes) → rest_length (cut (a ∷ p) s) ≤ length s
cut-shorter a p [] = nothing_cut a p
cut-shorter a p (c ∷ s) = elim (Option-cases (cut_prefix (a ∷ p) (c ∷ s))) [
  | inl n ↦ omega (
    arith,
    cut-shorter a p s,
    ap rest_length (cut-later (a ∷ p) c s n),
    rest_length-shift c (cut (a ∷ p) s),
  )
  | inr (r, n) ↦
      omega
        (arith, cut_prefix-shorter (a ∷ p) (c ∷ s) r n, ap rest_length (cut-now (a ∷ p) c s r n))
]

samples-decode :
    (t d rest : Bytes)
    → contains begin (t ++ newline) ≡ false
    → decode_sample (
        (t ++ newline)
        ++ (samples.encode (record { type = codes "CERTIFICATE"; bytes = d }) ++ rest))
      ≡ some (record { type = codes "CERTIFICATE"; bytes = d }, rest)
unfolding decode_sample eqb
samples-decode t d rest e =
    ap after_begin
      (cut-line b'-' (codes "----BEGIN") t (0 ∷ length d ∷ (d ++ rest)) (ground arith) e)
    ∙ rw (take-append d rest, drop-append d rest) refl

abbrev rest_of : Option (Block × Bytes) → Bytes
rest_of none = []
rest_of (some (b, rest)) = rest

payload-shorter :
    (r : Bytes) (b : Block) (rest : Bytes) → payload r ≡ some (b, rest) → length rest < length r
payload-shorter [] b rest e = absurd (ground (arith, e))
payload-shorter (f ∷ []) b rest e = absurd (ground (arith, e))
payload-shorter (f ∷ n ∷ t) b rest e =
    subst (λ r. length r < suc (suc (length t))) (ap rest_of e) (omega (arith, length-drop n t))

samples-shorter :
    (t : Bytes) (b : Block) (rest : Bytes)
    → decode_sample t ≡ some (b, rest)
    → length rest < length t
unfolding decode_sample
samples-shorter t b rest e = from_cut (cut begin t) refl e
  where
    from_cut :
        (o : Option (Bytes × Bytes))
        → cut begin t ≡ o
        → after_begin o ≡ some (b, rest)
        → length rest < length t
    from_cut none c f = absurd (ground (arith, f))
    from_cut (some (u, r)) c f = omega (
      arith,
      payload-shorter r b rest f,
      cut-shorter b'-' (codes "----BEGIN") t,
      ap rest_length c,
    )

raw_inj : {a b : Certificate} → some a ≡ some b → a ≡ b
raw_inj e = cc e

pub samples-PemLaws : PemLaws samples
unfolding decode_sample
samples-PemLaws = record {
  decode_next = samples-decode;
  decode_empty = refl;
  decode_shorter = samples-shorter;
  raw_parsed = λ t c e. ap (λ (d : Certificate). d.raw) (sym (raw_inj e));
}
