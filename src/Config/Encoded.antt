-- ===== src/Config/Encoded.antt =====
-- Encoded values: the split of their fields and the choice of the key file (pkg/config/internal.go).
use cordial.Common.{
  ◌≡◌, ◌≢◌, refl, ap, ◌∙◌, ℕ, none, some, List, Bytes, codes, [], ◌∷◌, ◌++◌, arith, eqb, All,
  All-append,
}
use cordial.Text.{cut_last, split, has_prefix, cut_prefix}
use cordial.Config.Options.{ExpandOptions}
use cordial.Config.Expand.{World, split_enc_fields, decode_first, expand_encoded, resolve_home}

cut_last-none : (sep : ℕ) (s : Bytes) → All (λ c. c ≢ sep) s → cut_last sep s ≡ none
unfolding cut_last
cut_last-none sep [] h = refl
cut_last-none sep (c ∷ s) (hc, hs) = ground (arith, cut_last-none sep s hs)

cut_last-some :
    (sep : ℕ) (a b : Bytes) → All (λ c. c ≢ sep) b → cut_last sep (a ++ (sep ∷ b)) ≡ some (a, b)
unfolding cut_last
cut_last-some sep [] b h = ground (arith, cut_last-none sep b h)
cut_last-some sep (c ∷ a) b h = ground (arith, cut_last-some sep a b h)

-- The fields are split at the last colon: a colon in the path of a key file stays with the key files.
pub split_enc_fields-append :
    (keyfiles ciphertext : Bytes)
    → All (λ c. c ≢ b':') ciphertext
    → split_enc_fields (keyfiles ++ (b':' ∷ ciphertext)) ≡ (keyfiles, ciphertext)
unfolding split_enc_fields
split_enc_fields-append k c h = ground (arith, cut_last-some b':' k c h)

-- The key file decodes nothing.
abbrev pub Fails : World → Bytes → Bytes → Type 0
Fails w value k = w.decode_string (resolve_home w k) value ≡ none

decode_first-append :
    (w : World) (before after : List Bytes) (k value plain : Bytes)
    → All (Fails w value) before
    → w.decode_string (resolve_home w k) value ≡ some plain
    → decode_first w (before ++ (k ∷ after)) value ≡ plain
unfolding decode_first
decode_first-append w [] after k value plain h e = rw e
decode_first-append w (b ∷ before) after k value plain (hb, hs) e =
    rw hb (decode_first-append w before after k value plain hs e)

abbrev pub encs : Bytes
encs = codes "+encs+"

encoded_fields :
    (w : World) (e : ExpandOptions) (keyfiles ciphertext s : Bytes)
    → split_enc_fields s ≡ (keyfiles, encs ++ ciphertext)
    → e.use_key_file ≡ []
    → expand_encoded w e s ≡ decode_first w (split b'|' keyfiles) (encs ++ ciphertext)
unfolding expand_encoded has_prefix cut_prefix eqb
encoded_fields w e keyfiles ciphertext s h u = rw (h, u) refl

-- A text that is encoded, with the paths of its key files in front of it, expands to what the first
-- of these key files decodes it to that decodes it at all, if the options name no key file. A colon
-- may stand in the paths, not in the encoded text.
pub expand_encoded-first :
    (w : World) (e : ExpandOptions) (keyfiles ciphertext : Bytes) (before after : List Bytes)
    (k plain : Bytes)
    → e.use_key_file ≡ []
    → All (λ c. c ≢ b':') ciphertext
    → split b'|' keyfiles ≡ before ++ (k ∷ after)
    → All (Fails w (encs ++ ciphertext)) before
    → w.decode_string (resolve_home w k) (encs ++ ciphertext) ≡ some plain
    → expand_encoded w e (keyfiles ++ (b':' ∷ (encs ++ ciphertext))) ≡ plain
expand_encoded-first w e keyfiles ciphertext before after k plain u c p f d =
    encoded_fields w e keyfiles ciphertext (keyfiles ++ (b':' ∷ (encs ++ ciphertext)))
      (split_enc_fields-append keyfiles (encs ++ ciphertext) (
        All-append (λ c. c ≢ b':') encs ciphertext
          (
            omega arith,
            (omega arith, (omega arith, (omega arith, (omega arith, (omega arith, tt))))),
          )
          c))
      u
    ∙ (ap (λ l. decode_first w l (encs ++ ciphertext)) p
        ∙ decode_first-append w before after k (encs ++ ciphertext) plain f d)
