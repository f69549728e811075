-- ===== src/Config/KeyFile.antt =====
-- The text of a key file: KeyValues.String and ReadKeyValues (pkg/config/crypto.go). A carriage return
-- at the end of a line is left to TrimSpace. The reader does not fail, and no line is longer than
-- the buffer of bufio.Scanner.
use cordial.Common.{
  ℕ, Bool, true, false, not, ◌||◌, Option, none, some, List, Bytes, codes, eqb, [], ◌∷◌, ◌++◌,
  if◌then◌else◌, length, take, drop,
}
use cordial.Text.{split, trim_space, has_prefix, cut}
use cordial.Config.Hex.{encode_hex, hex_value, byte_of}
use cordial.Config.Secret.{KeyValues, repeat}

-- String
unfoldable pub print_key_values : KeyValues → Bytes
print_key_values kv =
    codes "key=" ++ (encode_hex kv.key ++ (10 ∷ (codes "iv =" ++ (encode_hex kv.iv ++ 10 ∷ []))))

abbrev pub without_last_empty : List Bytes → List Bytes
without_last_empty [] = []
without_last_empty ([] ∷ []) = []
without_last_empty ((c ∷ l) ∷ []) = (c ∷ l) ∷ []
without_last_empty (l ∷ m ∷ ls) = l ∷ without_last_empty (m ∷ ls)

-- The lines of bufio.Scanner.
unfoldable pub scan_lines : Bytes → List Bytes
unfolding split
scan_lines s = without_last_empty (split 10 s)

-- hex.DecodeString; `none` is an error.
abbrev pub cons_byte : Option ℕ → Option Bytes → Option Bytes
cons_byte (some b) (some s) = some (b ∷ s)
cons_byte _ _ = none

unfoldable pub decode_hex_string : Bytes → Option Bytes
decode_hex_string [] = some []
decode_hex_string (c ∷ []) = none
decode_hex_string (c ∷ d ∷ s) =
    cons_byte (byte_of (hex_value c) (hex_value d)) (decode_hex_string s)

-- copy(dst[:], src)
unfoldable pub copy_into : Bytes → Bytes → Bytes
copy_into dst src = take (length dst) src ++ drop (length src) dst

pub data ReadError : Type 0 where
  invalid_line invalid_hex unknown_entry incomplete : ReadError

pub data Read : Type 0 where
  got : KeyValues → Read
  not_read : ReadError → Read

pub record Reading : Type 0 where
  pub values : KeyValues
  pub got_key : Bool
  pub got_iv : Bool

-- What one line does: it is passed over, sets a part, or ends the reading.
pub data Line : Type 0 where
  next : Reading → Line
  stop : ReadError → Line

-- The switch on the name in a line. A wrong length is no error.
unfoldable pub read_entry : Bytes → Bytes → Reading → Line
unfolding eqb
read_entry key value r =
    if eqb key (codes "salt")
    then next r
    else if eqb key (codes "key")
    then elim (decode_hex_string value) as (λ _. Line) [
      | none ↦ stop invalid_hex
      | some k ↦
          next (record r {
            values = record r.values { key = copy_into r.values.key k };
            got_key = true;
          })
    ]
    else if eqb key (codes "iv")
    then elim (decode_hex_string value) as (λ _. Line) [
      | none ↦ stop invalid_hex
      | some k ↦
          next
            (record r { values = record r.values { iv = copy_into r.values.iv k }; got_iv = true })
    ]
    else stop unknown_entry

unfoldable pub read_line : Bytes → Reading → Line
read_line text r =
    let line = trim_space text in
    if eqb line [] || has_prefix (codes "#") line
    then next r
    else elim (cut (codes "=") line) as (λ _. Line) [
      | none ↦ stop invalid_line
      | some (key, value) ↦ read_entry (trim_space key) (trim_space value) r
    ]

-- The loop, and the test that both parts were there.
unfoldable pub read_lines : List Bytes → Reading → Read
read_lines [] r = if not r.got_key || not r.got_iv then not_read incomplete else got r.values
read_lines (line ∷ lines) r = elim (read_line line r) as (λ _. Read) [
  | next r' ↦ read_lines lines r'
  | stop e ↦ not_read e
]

-- &KeyValues{}
abbrev pub nothing_read : Reading
nothing_read = record {
  values = record { key = repeat 0 32; iv = repeat 0 16 };
  got_key = false;
  got_iv = false;
}

-- ReadKeyValues
unfoldable pub read_key_values : Bytes → Read
unfolding read_lines scan_lines
read_key_values s = read_lines (scan_lines s) nothing_read
