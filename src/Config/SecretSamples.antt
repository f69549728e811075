-- ===== src/Config/SecretSamples.antt =====
-- The theorems about secrets at a concrete one, with a cipher that complements every byte.
use mathlib.Core.Path.{ap₂}
use cordial.Common.{
  ◌-◌, ◌≡◌, refl, true, false, Option, none, some, All, Bytes, codes, [], ◌∷◌, ◌++◌, length, arith,
  eqb,
}
use cordial.Text.{cut_prefix, contains, cut, trim_space}
use cordial.Dict.{Dict}
use cordial.Components.{fold_byte}
use cordial.Config.Credentials.{
  covers, find_creds, first_cover, insert_domain, keys, sort_domains, to_lower,
}
use cordial.Config.Longest.{IsLongest, find_creds-IsLongest}
use cordial.Config.Value.{nil}
use cordial.Config.Options.{initial_options}
use cordial.Config.Expand.{World, expand, trimmed_if}
use cordial.Config.KeyFiles.{encode_string, decode_string, formatted, abbreviate_home}
use cordial.Config.Readable.{expand-encode_string, IsPathByte}
use cordial.Config.Hex.{IsBytes}
use cordial.Config.Secret.{KeyValues, Cipher, plain, encode_secret, decode_secret}
use cordial.Config.KeyFile.{print_key_values, read_key_values, got}
use cordial.Config.Written.{read-print_key_values}
use cordial.Config.Padded.{CipherLaws, decode_secret-encode}

-- Every byte is exchanged with its complement.
abbrev flip_all : Bytes → Bytes
flip_all [] = []
flip_all (b ∷ s) = (255 - b) ∷ flip_all s

flip_all_twice : (s : Bytes) → IsBytes s → flip_all (flip_all s) ≡ s
flip_all_twice [] h = refl
flip_all_twice (b ∷ s) (hb, hs) = ap₂ (λ c t. c ∷ t) (omega arith) (flip_all_twice s hs)

length-flip_all : (s : Bytes) → length (flip_all s) ≡ length s
length-flip_all [] = refl
length-flip_all (b ∷ s) = omega (arith, length-flip_all s)

flip_all-IsBytes : (s : Bytes) → IsBytes s → IsBytes (flip_all s)
flip_all-IsBytes [] h = tt
flip_all-IsBytes (b ∷ s) (hb, hs) = (omega arith, flip_all-IsBytes s hs)

abbrev complement : Cipher
complement = record {
  encrypt = λ key iv text. flip_all text;
  decrypt = λ key iv text. flip_all text;
  valid_utf8 = λ s. true;
}

abbrev complement_laws : CipherLaws complement
complement_laws = record {
  decrypt_encrypt = λ key iv text h k. flip_all_twice text h;
  length_encrypt = λ key iv text h k. length-flip_all text;
  bytes_encrypt = λ key iv text h. flip_all-IsBytes text h;
}

abbrev some_key : KeyValues
some_key = record { key = []; iv = [] }

decode_secret-encode_example :
    decode_secret complement some_key
      (codes "+encs+" ++ encode_secret complement some_key (codes "pa"))
    ≡ plain (codes "pa")
decode_secret-encode_example =
    decode_secret-encode complement complement_laws some_key (codes "pa")
      (omega arith, (omega arith, tt)) refl

abbrev short_key : KeyValues
short_key = record { key = 171 ∷ []; iv = [] }

abbrev full_key : KeyValues
full_key = record { key = codes "0123456789abcdef0123456789abcdef"; iv = codes "0123456789abcdef" }

read-print_key_values_example : read_key_values (print_key_values full_key) ≡ got full_key
read-print_key_values_example =
    read-print_key_values full_key (ground arith) (ground arith) refl refl

-- The machine on which the key file is read back.
abbrev home_dir : Option Bytes
home_dir = some (codes "/home/u")

abbrev machine : World
machine = record {
  lookup_env = λ e. none;
  user_home_dir = home_dir;
  stat = λ p. false;
  read_file = λ p. none;
  join_path = λ a b. a ++ (codes "/" ++ b);
  decode_string = λ path input. decode_string complement (some some_key) input;
  marshal = λ v. none;
  sprint_other = λ n. [];
  zero_other = λ n. true;
  config_get = λ k. nil;
  config_get_string = λ k. [];
  all_settings = [];
  delimiter = codes ".";
}

abbrev key_path : Bytes
key_path = codes "/home/u/k.aes"

abbrev encoded_pa : Bytes
encoded_pa =
    codes "${enc:~/k.aes:+encs+" ++ (encode_secret complement some_key (codes "pa") ++ codes "}")

run_encode :
    encode_string complement home_dir (λ p. p) (some some_key) key_path (codes "pa") true
    ≡ some encoded_pa
unfolding encode_string formatted abbreviate_home cut_prefix
run_encode = refl

short_path : abbreviate_home home_dir (λ p. p) key_path ≡ codes "~/k.aes"
unfolding abbreviate_home cut_prefix
short_path = refl

short-IsPathByte : All IsPathByte (abbreviate_home home_dir (λ p. p) key_path)
short-IsPathByte = rw short_path (ground arith)

untrimmed :
    trimmed_if initial_options.trim_space (codes "PW=" ++ codes "pa") ≡ codes "PW=" ++ codes "pa"
unfolding trim_space
untrimmed = refl

expand-encode_string_example :
    expand machine initial_options (codes "PW=" ++ encoded_pa) ≡ codes "PW=" ++ codes "pa"
unfolding eqb
expand-encode_string_example =
    expand-encode_string complement complement_laws home_dir (λ p. p) some_key machine
      initial_options key_path (codes "pa") (codes "PW=") encoded_pa refl refl refl short-IsPathByte
      (ground arith) (omega arith, (omega arith, tt)) refl (λ input. refl) run_encode untrimmed refl

abbrev some_creds : Dict Bytes
some_creds = (codes "itrsgroup.com", codes "a") ∷ (codes "Resources.itrsgroup.com", codes "b") ∷ []

run_find_creds :
    find_creds some_creds (codes "https://resources.ITRSgroup.com/x")
    ≡ some (codes "Resources.itrsgroup.com")
unfolding find_creds sort_domains insert_domain first_cover covers to_lower contains cut cut_prefix
    fold_byte
run_find_creds = refl

find_creds-IsLongest_example :
    IsLongest
      (codes "https://resources.ITRSgroup.com/x")
      (keys some_creds)
      (find_creds some_creds (codes "https://resources.ITRSgroup.com/x"))
find_creds-IsLongest_example =
    find_creds-IsLongest some_creds (codes "https://resources.ITRSgroup.com/x")
