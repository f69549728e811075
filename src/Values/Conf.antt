-- ===== src/Values/Conf.antt =====
-- What tools/geneos/internal/values uses of a configuration (pkg/config): Get, Set, Lookup and Delete
-- for the types it stores, and SetKeyValuePairs.
use cordial.Common.{Bool, false, Option, List, [], Bytes, eqb, ◌≡◌, ◌≢◌, ◌≤◌, All}
use cordial.Text.{trim_space}
use cordial.Dict.{Dict}
use cordial.Values.Variables.{Variable}
use cordial.Values.Normal.{Held}

pub record Conf : Type 1 where
  pub State : Type 0
  -- The values of a map[string]any, and the strings among them.
  pub Any : Type 0
  pub text : Bytes → Any
  -- Get[[]string]: what is stored, each value of it expanded.
  pub get_slice : Bytes → State → List Bytes
  -- What is stored under a key, as it is written to the file.
  pub stored_slice : Bytes → State → List Bytes
  pub set_slice : Bytes → List Bytes → State → State
  pub get_map : Bytes → State → Dict Any
  pub set_map : Bytes → Dict Any → State → State
  pub lookup_any : Bytes → State → Option Held
  pub set_variables : Bytes → List Variable → State → State
  pub delete : Bytes → State → State
  -- The settings after the pairs, and whether there was no error.
  pub set_key_value_pairs : List Bytes → State → State × Bool

-- A value that expands to itself: it has no dollar sign and no spaces around it, which are trimmed.
abbrev pub IsPlain : Bytes → Type 0
IsPlain v = All (λ c. c ≢ b'$') v × (trim_space v ≡ v)

-- A key of lower-case letters, as all the keys of settings are here: it is no part of another key, and
-- viper takes no other text for it.
abbrev pub IsLower : Bytes → Type 0
IsLower key = All (λ c. (b'a' ≤ c) × (c ≤ b'z')) key

-- What pkg/config does with slices, in a configuration whose options replace nothing. What is written is
-- stored as it is, and read expanded; writing under a key changes nothing under another one.
pub record SliceLaws (c : Conf) : Type 0 where
  pub get_plain :
      (key : Bytes) (s : c.State)
      → IsLower key
      → All IsPlain (c.stored_slice key s)
      → c.get_slice key s ≡ c.stored_slice key s
  pub stored_set :
      (key : Bytes) (l : List Bytes) (s : c.State)
      → IsLower key
      → c.stored_slice key (c.set_slice key l s) ≡ l
  pub stored_delete :
      (key : Bytes) (s : c.State) → IsLower key → c.stored_slice key (c.delete key s) ≡ []
  pub stored_set_other :
      (key key' : Bytes) (l : List Bytes) (s : c.State)
      → IsLower key
      → IsLower key'
      → eqb key key' ≡ false
      → c.stored_slice key (c.set_slice key' l s) ≡ c.stored_slice key s
  pub stored_delete_other :
      (key key' : Bytes) (s : c.State)
      → IsLower key
      → IsLower key'
      → eqb key key' ≡ false
      → c.stored_slice key (c.delete key' s) ≡ c.stored_slice key s
  pub stored_set_map :
      (key key' : Bytes) (m : Dict c.Any) (s : c.State)
      → IsLower key
      → IsLower key'
      → eqb key key' ≡ false
      → c.stored_slice key (c.set_map key' m s) ≡ c.stored_slice key s
  pub stored_set_variables :
      (key key' : Bytes) (l : List Variable) (s : c.State)
      → IsLower key
      → IsLower key'
      → eqb key key' ≡ false
      → c.stored_slice key (c.set_variables key' l s) ≡ c.stored_slice key s
