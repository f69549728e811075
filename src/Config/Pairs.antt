-- ===== src/Config/Pairs.antt =====
-- setKeyValuePairs and its regular expression (pkg/config/internal.go). Word characters are those of
-- ASCII; `.` is no newline, and nothing is asked of what follows the value.
use cordial.Common.{
  ℕ, Bool, true, not, ◌&&◌, ◌||◌, Option, none, some, List, Bytes, codes, [], ◌∷◌, ◌++◌, ◌==◌, leb,
  if◌then◌else◌, length, drop,
}
use cordial.Text.{leading, has_prefix, is_letter}
use cordial.Config.Options.{ExpandOptions}
use cordial.Config.Expand.{World}
use cordial.Config.Store.{
  Viper, Stored, stored, panicked, unfinished, is_set, get_expanded, set_string,
}

-- The separator: `=`, `+` or `+=`, and `==`, which no case of the switch has.
pub data Separator : Type 0 where
  assign append ignored : Separator

pub record Item : Type 0 where
  pub key : Bytes
  pub separator : Separator
  pub value : Bytes

-- [\w\.\:-]
unfoldable pub is_key_byte : ℕ → Bool
unfolding is_letter
is_key_byte c =
    is_letter c || (leb b'0' c && leb c b'9') || c == b'_' || c == b'.' || c == b':' || c == b'-'

-- (.*)
unfoldable pub line : Bytes → Bytes
unfolding leading
line s = leading (λ c. not (c == 10)) s

-- ([+=]=?)(.*)
unfoldable pub after_name : Bytes → Bytes → Option Item
unfolding line
after_name name [] = none
after_name name (c ∷ []) =
    if c == b'='
    then some (record { key = name; separator = assign; value = [] })
    else if c == b'+'
    then some (record { key = name; separator = append; value = [] })
    else none
after_name name (c ∷ d ∷ s) =
    if c == b'='
    then (if d == b'='
        then some (record { key = name; separator = ignored; value = line s })
        else some (record { key = name; separator = assign; value = line (d ∷ s) }))
    else if c == b'+'
    then (if d == b'='
        then some (record { key = name; separator = append; value = line s })
        else some (record { key = name; separator = append; value = line (d ∷ s) }))
    else none

abbrev unless_nil : Bytes → Option Item → Option Item
unless_nil [] _ = none
unless_nil (_ ∷ _) o = o

-- itemRE.FindStringSubmatch
unfoldable pub parse_item : Bytes → Option Item
unfolding is_key_byte leading after_name
parse_item s =
    let name = leading is_key_byte s in unless_nil name (after_name name (drop (length name) s))

-- The value that is appended: an option of a command line stands behind a space.
abbrev pub appended : Bytes → Bytes → Bytes
appended old value =
    if has_prefix (codes "-") value then old ++ (codes " " ++ value) else old ++ value

module _ (v : Viper) (base : World) (own : ExpandOptions) where
  -- The settings after all items, or after those before the first that is no setting.
  pub data Applied : Type 0 where
    applied : v.State → Applied
    not_valid : Bytes → v.State → Applied
    failed : Stored v base own → Applied

  -- The body of the loop, for an item that matches.
  unfoldable pub apply_item : Item → v.State → Stored v base own
  apply_item item s = elim item.separator [
    | assign ↦ set_string v base own own item.key item.value s
    | append ↦
        if not (is_set v base own item.key s)
        then set_string v base own own item.key item.value s
        else set_string v base own own item.key
            (appended (get_expanded v base own (record own { no_expand = true }) item.key s)
              item.value)
            s
    | ignored ↦ stored s
  ]

  abbrev pub continue : (v.State → Applied) → Stored v base own → Applied
  continue rest (stored s) = rest s
  continue rest panicked = failed panicked
  continue rest unfinished = failed unfinished

  -- setKeyValuePairs
  unfoldable pub set_key_value_pairs : List Bytes → v.State → Applied
  unfolding apply_item
  set_key_value_pairs [] s = applied s
  set_key_value_pairs (item ∷ list) s = elim (parse_item item) as (λ _. Applied) [
    | none ↦ not_valid item s
    | some fields ↦ continue (set_key_value_pairs list) (apply_item fields s)
  ]
