-- ===== src/Config/Written.antt =====
-- ReadKeyValues reads what KeyValues.String writes (pkg/config/crypto.go).
use mathlib.Core.Path.{ap₂}
use cordial.Common.{
  ℕ, zero, suc, ◌<◌, ◌≡◌, ◌≢◌, refl, sym, ap, ◌∙◌, true, false, ◌&&◌, ◌||◌, some, Bytes, codes, eqb,
  [], ◌∷◌, ◌++◌, All, arith, length, take, drop, append-nil,
}
use cordial.Text.Cut.{split_from-line}
use cordial.Text.{
  split, split_from, is_space, trim_start, trim_end, trim_space, has_prefix, cut, cut_prefix,
}
use cordial.Config.Hex.{encode_hex, hex_digit, byte_of-digits, IsBytes}
use cordial.Config.Secret.{KeyValues, repeat}
use cordial.Config.KeyFile.{
  print_key_values, without_last_empty, scan_lines, decode_hex_string, copy_into, got, Reading,
  next, read_entry, read_line, read_lines, nothing_read, read_key_values,
}

-- Text in one line without spaces.
abbrev Solid : Bytes → Type 0
Solid s = All (λ c. is_space c ≡ false) s

hex_digit-Solid : (d : ℕ) → d < 16 → is_space (hex_digit d) ≡ false
unfolding is_space
hex_digit-Solid d h = ground arith

encode_hex-Solid : (s : Bytes) → IsBytes s → Solid (encode_hex s)
unfolding encode_hex
encode_hex-Solid [] h = tt
encode_hex-Solid (b ∷ s) (hb, hs) =
    (hex_digit-Solid _ (omega arith), (hex_digit-Solid _ (omega arith), encode_hex-Solid s hs))

space_newline : (c : ℕ) → is_space c ≡ false → c ≢ 10
unfolding is_space
space_newline c h = ground arith

Solid-line : (s : Bytes) → Solid s → All (λ c. c ≢ 10) s
Solid-line [] h = tt
Solid-line (c ∷ s) (hc, hs) = (space_newline c hc, Solid-line s hs)

trim_end-Solid : (s : Bytes) → Solid s → trim_end s ≡ s
unfolding trim_end
trim_end-Solid [] h = refl
trim_end-Solid (c ∷ []) (hc, h) = rw hc refl
trim_end-Solid (c ∷ d ∷ s) (hc, hs) = rw (trim_end-Solid (d ∷ s) hs) refl

trim_end-cons : (c d : ℕ) (s : Bytes) → trim_end (d ∷ s) ≡ d ∷ s → trim_end (c ∷ d ∷ s) ≡ c ∷ d ∷ s
unfolding trim_end
trim_end-cons c d s h = rw h refl

trim_space-cons :
    (c : ℕ) (s : Bytes) → is_space c ≡ false → trim_end (c ∷ s) ≡ c ∷ s → trim_space (c ∷ s) ≡ c ∷ s
unfolding trim_space trim_start
trim_space-cons c s h k = rw h k

trim_space-Solid : (s : Bytes) → Solid s → trim_space s ≡ s
unfolding trim_space trim_start trim_end
trim_space-Solid [] h = refl
trim_space-Solid (c ∷ s) (hc, hs) = trim_space-cons c s hc (trim_end-Solid (c ∷ s) (hc, hs))

decode_hex_string-encode : (s : Bytes) → IsBytes s → decode_hex_string (encode_hex s) ≡ some s
unfolding decode_hex_string encode_hex
decode_hex_string-encode [] h = refl
decode_hex_string-encode (b ∷ s) (hb, hs) =
    rw (byte_of-digits b hb, decode_hex_string-encode s hs) refl

take_whole : (n : ℕ) (s : Bytes) → length s ≡ n → take n s ≡ s
take_whole zero [] h = refl
take_whole zero (c ∷ s) h = absurd (omega arith)
take_whole (suc n) [] h = absurd (omega arith)
take_whole (suc n) (c ∷ s) h = ap (λ t. c ∷ t) (take_whole n s (omega arith))

drop_whole : (n : ℕ) (s : Bytes) → length s ≡ n → drop n s ≡ []
drop_whole zero [] h = refl
drop_whole zero (c ∷ s) h = absurd (omega arith)
drop_whole (suc n) [] h = absurd (omega arith)
drop_whole (suc n) (c ∷ s) h = drop_whole n s (omega arith)

copy_into-whole : (dst src : Bytes) → length dst ≡ length src → copy_into dst src ≡ src
unfolding copy_into
copy_into-whole dst src h =
    rw (take_whole (length dst) src (sym h), drop_whole (length src) dst h) (append-nil src)

no_comment :
    (c : ℕ) (s : Bytes) → c ≢ b'#' → (eqb (c ∷ s) [] || has_prefix (codes "#") (c ∷ s)) ≡ false
unfolding has_prefix cut_prefix eqb
no_comment c s n = ground arith

read_named_line :
    (text key value : Bytes) (c : ℕ) (s : Bytes) (r : Reading)
    → trim_space text ≡ c ∷ s
    → c ≢ b'#'
    → cut (codes "=") (c ∷ s) ≡ some (key, value)
    → read_line text r ≡ read_entry (trim_space key) (trim_space value) r
unfolding read_line
read_named_line text key value c s r h n e = rw (h, no_comment c s n, e, read_line) refl

read_key_line :
    (k : Bytes) (r : Reading)
    → IsBytes k
    → read_line (codes "key=" ++ encode_hex k) r
      ≡ next
          (record r { values = record r.values { key = copy_into r.values.key k }; got_key = true })
unfolding read_entry eqb cut cut_prefix trim_space trim_start trim_end is_space
read_key_line k r h =
    let text = codes "key=" ++ encode_hex k in
    let solid : Solid text = (refl, (refl, (refl, (refl, encode_hex-Solid k h)))) in
    read_named_line text (codes "key") (encode_hex k) b'k' (codes "ey=" ++ encode_hex k) r
      (trim_space-Solid text solid) (omega arith) refl
    ∙ rw (trim_space-Solid (encode_hex k) (encode_hex-Solid k h), decode_hex_string-encode k h) refl

read_iv_line :
    (k : Bytes) (r : Reading)
    → IsBytes k
    → read_line (codes "iv =" ++ encode_hex k) r
      ≡ next (record r { values = record r.values { iv = copy_into r.values.iv k }; got_iv = true })
unfolding read_entry eqb cut cut_prefix trim_space trim_start trim_end is_space
read_iv_line k r h =
    let value = encode_hex k in
    let solid : Solid (b'=' ∷ value) = (refl, encode_hex-Solid k h) in
    let kept = trim_end-cons b'i' b'v' (codes " =" ++ value) (
      trim_end-cons b'v' b' ' (b'=' ∷ value)
        (trim_end-cons b' ' b'=' value (trim_end-Solid (b'=' ∷ value) solid))) in
    read_named_line (codes "iv =" ++ value) (codes "iv ") value b'i' (codes "v =" ++ value) r
      (trim_space-cons b'i' (codes "v =" ++ value) refl kept) (omega arith) refl
    ∙ rw (trim_space-Solid value (encode_hex-Solid k h), decode_hex_string-encode k h) refl

both_read : (r : Reading) → r.got_key && r.got_iv ≡ true → read_lines [] r ≡ got r.values
unfolding read_lines
both_read r h = ground arith

read_two_lines :
    (first second : Bytes) (r r' r'' : Reading)
    → read_line first r ≡ next r'
    → read_line second r' ≡ next r''
    → r''.got_key && r''.got_iv ≡ true
    → read_lines (first ∷ second ∷ []) r ≡ got r''.values
unfolding read_lines
read_two_lines first second r r' r'' e f h = rw (e, f, read_lines) (both_read r'' h)

printed_lines :
    (kv : KeyValues)
    → IsBytes kv.key
    → IsBytes kv.iv
    → scan_lines (print_key_values kv)
      ≡ (codes "key=" ++ encode_hex kv.key) ∷ (codes "iv =" ++ encode_hex kv.iv) ∷ []
unfolding scan_lines split print_key_values split_from
printed_lines kv hk hi =
    let second : Bytes = codes "iv =" ++ encode_hex kv.iv in
    ap without_last_empty (
      split_from-line 10 (codes "key=" ++ encode_hex kv.key) (second ++ 10 ∷ []) [] (
        omega arith,
        (
          omega arith,
          (omega arith, (omega arith, Solid-line (encode_hex kv.key) (encode_hex-Solid kv.key hk))),
        ),
      )
      ∙ ap (λ ls. (codes "key=" ++ encode_hex kv.key) ∷ ls)
          (split_from-line 10 second [] [] (
            omega arith,
            (
              omega arith,
              (
                omega arith,
                (omega arith, Solid-line (encode_hex kv.iv) (encode_hex-Solid kv.iv hi)),
              ),
            ),
          )))

-- The text of a key and an initial vector of any lengths is read without an error: what is too long
-- is cut off, and what is too short stands in front of zeros.
any_length_read :
    (kv : KeyValues)
    → IsBytes kv.key
    → IsBytes kv.iv
    → read_key_values (print_key_values kv)
      ≡ got (record { key = copy_into (repeat 0 32) kv.key; iv = copy_into (repeat 0 16) kv.iv })
unfolding read_key_values
any_length_read kv hk hi =
    let first = record nothing_read {
      values = record nothing_read.values { key = copy_into (repeat 0 32) kv.key };
      got_key = true;
    } in
    let second = record first {
      values = record first.values { iv = copy_into (repeat 0 16) kv.iv };
      got_iv = true;
    } in
    ap (λ ls. read_lines ls nothing_read) (printed_lines kv hk hi)
    ∙ read_two_lines (codes "key=" ++ encode_hex kv.key) (codes "iv =" ++ encode_hex kv.iv)
        nothing_read first second (read_key_line kv.key nothing_read hk)
        (read_iv_line kv.iv first hi) refl

-- Reading the text of a key and an initial vector gives them back, if the key has 32 bytes and the
-- initial vector 16.
pub read-print_key_values :
    (kv : KeyValues)
    → IsBytes kv.key
    → IsBytes kv.iv
    → length kv.key ≡ 32
    → length kv.iv ≡ 16
    → read_key_values (print_key_values kv) ≡ got kv
unfolding repeat
read-print_key_values kv hk hi lk li =
    any_length_read kv hk hi
    ∙ ap₂ (λ k i. got (record { key = k; iv = i })) (copy_into-whole (repeat 0 32) kv.key (sym lk))
        (copy_into-whole (repeat 0 16) kv.iv (sym li))
