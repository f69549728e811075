-- ===== src/Config/KeyFiles.antt =====
-- KeyFile: EncodeString, Encode, DecodeString and Decode (pkg/config/keyfiles.go), and AbbreviateHome
-- (pkg/config/files.go). What the host holds at the path, as Read returns it, is an argument, `none`
-- where it is an error; so are the home directory and path.Clean.
use cordial.Common.{Bool, Option, none, some, Bytes, codes, ◌++◌, if◌then◌else◌}
use cordial.Text.{cut_prefix}
use cordial.Config.Secret.{KeyValues, Cipher, Decoded, plain, refused, encode_secret, decode_secret}

-- AbbreviateHome
unfoldable pub abbreviate_home : Option Bytes → (Bytes → Bytes) → Bytes → Bytes
unfolding cut_prefix
abbreviate_home none clean p = clean p
abbreviate_home (some home) clean p = elim (cut_prefix home p) [
  | some after ↦ codes "~" ++ after
  | none ↦ clean p
]

-- The two formats of the result.
unfoldable pub formatted : Bytes → Bytes → Bool → Bytes
formatted path e expandable =
    if expandable
    then codes "${enc:" ++ (path ++ (codes ":+encs+" ++ (e ++ codes "}")))
    else codes "+encs+" ++ e

module _ (aes : Cipher) (home : Option Bytes) (clean : Bytes → Bytes) where
  -- EncodeString, and Encode
  unfoldable pub encode_string : Option KeyValues → (path : Bytes) → Bytes → Bool → Option Bytes
  unfolding formatted abbreviate_home encode_secret
  encode_string none path plaintext expandable = none
  encode_string (some kv) path plaintext expandable =
      some (formatted (abbreviate_home home clean path) (encode_secret aes kv plaintext) expandable)

-- The text that was decoded, without the kind of error.
abbrev pub decoded_text : Decoded → Option Bytes
decoded_text (plain s) = some s
decoded_text (refused e) = none

-- DecodeString, and Decode
unfoldable pub decode_string : Cipher → Option KeyValues → Bytes → Option Bytes
unfolding decode_secret
decode_string aes none input = none
decode_string aes (some kv) input = decoded_text (decode_secret aes kv input)
