-- ===== src/Config/Readable.antt =====
-- A secret that a key file encodes is read back by an expansion (pkg/config/keyfiles.go and
-- internal.go).
use Prim.Native.Nat.{◌/◌, ◌%◌}
use cordial.Common.{
  eqb, false, ℕ, ◌<◌, ◌≡◌, ◌≢◌, refl, sym, ap, ◌∙◌, true, false, Option, some, Bytes, codes, [],
  ◌∷◌, ◌++◌, arith, All, All-append, append-nil, append_assoc,
}
use cordial.Text.Cut.{split_from-All, All-weaken}
use cordial.Text.{split, has_prefix, cut_prefix}
use cordial.Config.Options.{ExpandOptions}
use cordial.Config.Contents.{closes}
use cordial.Config.Substitute.{literal, variable, substitute-render}
use cordial.Config.Expand.{World, expand, mapping, expand_encoded, resolve_home, trimmed_if}
use cordial.Config.Fallbacks.{ended, braced, expand-cons}
use cordial.Config.Encoded.{expand_encoded-first}
use cordial.Config.Hex.{encode_hex, hex_digit, IsBytes}
use cordial.Config.Secret.{KeyValues, Cipher, encode_secret, encrypt_padded}
use cordial.Config.Padded.{CipherLaws, decode_secret-encode, padded-IsBytes}
use cordial.Config.KeyFiles.{abbreviate_home, formatted, encode_string, decode_string, decoded_text}

-- No byte that ends a reference or separates paths.
abbrev pub IsPathByte : ℕ → Type 0
IsPathByte c = (c ≢ b'\\') × (c ≢ b'{') × (c ≢ b'}') × (c ≢ b'|')

abbrev IsDigit : ℕ → Type 0
IsDigit c = (c ≢ b':') × (c ≢ b'\\') × (c ≢ b'{') × (c ≢ b'}')

abbrev IsNameByte : ℕ → Type 0
IsNameByte c = (c ≢ b'\\') × (c ≢ b'{') × (c ≢ b'}')

hex_digit-IsDigit : (d : ℕ) → d < 16 → IsDigit (hex_digit d)
hex_digit-IsDigit d h = ground arith

encode_hex-IsDigit : (s : Bytes) → IsBytes s → All IsDigit (encode_hex s)
unfolding encode_hex
encode_hex-IsDigit [] h = tt
encode_hex-IsDigit (b ∷ s) (hb, hs) = (
  hex_digit-IsDigit (b / 16) (omega arith),
  (hex_digit-IsDigit (b % 16) (omega arith), encode_hex-IsDigit s hs),
)

encode_secret-IsDigit :
    (aes : Cipher) (laws : CipherLaws aes) (kv : KeyValues) (secret : Bytes)
    → IsBytes secret
    → All IsDigit (encode_secret aes kv secret)
unfolding encode_secret encrypt_padded
encode_secret-IsDigit aes laws kv secret h =
    encode_hex-IsDigit (encrypt_padded aes kv secret)
      (laws.bytes_encrypt kv.key kv.iv _ (padded-IsBytes secret h))

closes-All : (c : ℕ) (s : Bytes) → All IsNameByte (c ∷ s) → closes (c ∷ s) 0 ≡ true
closes-All c [] h = ground arith
closes-All c (d ∷ s) (hc, hs) = ground (arith, closes-All d s hs)

split-All : (s : Bytes) → All (λ c. c ≢ b'|') s → split b'|' s ≡ s ∷ []
unfolding split
split-All s h = split_from-All b'|' s [] h

abbrev reference : Bytes → Bytes → Bytes
reference path e = codes "enc:" ++ (path ++ (b':' ∷ (codes "+encs+" ++ e)))

formatted-braced : (path e : Bytes) → formatted path e true ≡ braced (reference path e)
unfolding formatted
formatted-braced path e =
    ap (λ l. codes "${enc:" ++ l)
      (sym (append_assoc path (b':' ∷ (codes "+encs+" ++ e)) (codes "}")))

mapping_reference :
    (w : World) (o : ExpandOptions) (s : Bytes)
    → o.no_decode ≡ false
    → mapping w o (codes "enc:" ++ s) ≡ expand_encoded w o s
unfolding mapping has_prefix cut_prefix
mapping_reference w o s h = ground (arith, h)

reference-closes :
    (path e : Bytes) → All IsPathByte path → All IsDigit e → closes (reference path e) 0 ≡ true
reference-closes path e hp he =
    closes-All b'e' (codes "nc:" ++ (path ++ (b':' ∷ (codes "+encs+" ++ e)))) (
      All-append IsNameByte (codes "enc:") (path ++ (b':' ∷ (codes "+encs+" ++ e))) (ground arith) (
        All-append IsNameByte path (b':' ∷ (codes "+encs+" ++ e))
          (All-weaken IsPathByte IsNameByte (λ c h. ground arith) path hp)
          (All-append IsNameByte (codes ":+encs+") e (ground arith)
            (All-weaken IsDigit IsNameByte (λ c h. ground arith) e he))))

expand-named :
    (w : World) (o : ExpandOptions) (name n : Bytes)
    → o.no_expand ≡ false
    → All (λ c. c ≢ b'$') name
    → n ≢ []
    → closes n 0 ≡ true
    → expand w o (name ++ braced n) ≡ ended w o (name ++ mapping w o n)
expand-named w o [] n h d k c =
    expand-cons w o b'$' (b'{' ∷ (n ++ b'}' ∷ [])) h
    ∙ ap (ended w o)
        (substitute-render (mapping w o) (variable n ∷ []) (k, c, tt) ∙ append-nil (mapping w o n))
expand-named w o (x ∷ name) n h d k c =
    expand-cons w o x (name ++ braced n) h
    ∙ ap (ended w o) (
        substitute-render (mapping w o) (literal (x ∷ name) ∷ variable n ∷ []) (d, (k, c, tt))
        ∙ ap (λ l. (x ∷ name) ++ l) (append-nil (mapping w o n)))

unended :
    (w : World) (o : ExpandOptions) (t : Bytes)
    → trimmed_if o.trim_space t ≡ t
    → eqb t [] ≡ false
    → ended w o t ≡ t
unended w o t h e = rw h (rw e refl)

-- A secret that a key file encodes for expansion is expanded to its plain text, behind the name in front of
-- it. The name has no dollar sign, name and secret are not empty together, and have no space around them
-- where the options trim. The secret is bytes of valid UTF-8, and the abbreviated path of the key file has no
-- backslash, brace or bar. Expansion and decoding are on, with no other key file in the options, and the
-- expansion decodes with the same key file.
pub expand-encode_string :
    (aes : Cipher) (laws : CipherLaws aes) (home : Option Bytes) (clean : Bytes → Bytes)
    (kv : KeyValues) (w : World) (o : ExpandOptions) (path secret name out : Bytes)
    → o.no_expand ≡ false
    → o.no_decode ≡ false
    → o.use_key_file ≡ []
    → All IsPathByte (abbreviate_home home clean path)
    → All (λ c. c ≢ b'$') name
    → IsBytes secret
    → aes.valid_utf8 secret ≡ true
    → ((input : Bytes)
        → w.decode_string (resolve_home w (abbreviate_home home clean path)) input
          ≡ decode_string aes (some kv) input)
    → encode_string aes home clean (some kv) path secret true ≡ some out
    → trimmed_if o.trim_space (name ++ secret) ≡ name ++ secret
    → eqb (name ++ secret) [] ≡ false
    → expand w o (name ++ out) ≡ name ++ secret
unfolding encode_string decode_string
expand-encode_string aes laws home clean kv w o path secret name out x d u p n b v r e t m =
    ap (λ l. expand w o (name ++ l)) (some_out e ∙ formatted-braced short encoded)
    ∙ (expand-named w o name (reference short encoded) x n (λ q. ground (arith, q))
          (reference-closes short encoded p digits)
        ∙ (ap (λ l. ended w o (name ++ l))
            (mapping_reference w o (short ++ (b':' ∷ (codes "+encs+" ++ encoded))) d
              ∙ expand_encoded-first w o short encoded [] [] short secret u
                  (All-weaken IsDigit (λ c. c ≢ b':') (λ c h. h.0) encoded digits)
                  (split-All short
                    (All-weaken IsPathByte (λ c. c ≢ b'|') (λ c h. ground arith) short p))
                  tt
                  (r (codes "+encs+" ++ encoded)
                    ∙ ap decoded_text (decode_secret-encode aes laws kv secret b v))))
        ∙ unended w o (name ++ secret) t m)
  where
    short : Bytes
    short = abbreviate_home home clean path

    encoded : Bytes
    encoded = encode_secret aes kv secret

    digits : All IsDigit encoded
    digits = encode_secret-IsDigit aes laws kv secret b

    some_out : some (formatted short encoded true) ≡ some out → out ≡ formatted short encoded true
    some_out q = ground (arith, q)
