-- ===== src/Config/Appended.antt =====
-- What setKeyValuePairs does with its items (pkg/config/internal.go).
use cordial.Common.{
  ℕ, ◌≡◌, ◌≢◌, refl, sym, ap, ◌∙◌, Bool, true, not, none, some, List, Bytes, codes, [], ◌∷◌, ◌++◌,
  ◌==◌, All, Option-cases, inl, inr, length, drop, drop-append, if◌then◌else◌, arith,
}
use cordial.Text.{is_letter, leading, has_prefix}
use cordial.Config.Value.{str}
use cordial.Config.Options.{ExpandOptions}
use cordial.Config.Expand.{World}
use cordial.Config.Store.{Viper, Stored, stored, panicked, unfinished, world, is_set, get_expanded}
use cordial.Config.Pairs.{
  append, Item, is_key_byte, line, after_name, parse_item, appended, Applied, applied, not_valid,
  failed, apply_item, continue, set_key_value_pairs,
}
use cordial.Config.Promoted.{ViperLaws, set_plain, expand_plain}

leading-append :
    (t : ℕ → Bool) (name rest : Bytes)
    → All (λ c. t c ≡ true) name
    → leading t rest ≡ []
    → leading t (name ++ rest) ≡ name
unfolding leading
leading-append t [] rest h e = e
leading-append t (c ∷ name) rest (hc, hs) e =
    rw (hc, leading) (ap (λ l. c ∷ l) (leading-append t name rest hs e))

leading-All : (t : ℕ → Bool) (s : Bytes) → All (λ c. t c ≡ true) s → leading t s ≡ s
unfolding leading
leading-All t [] h = refl
leading-All t (c ∷ s) (hc, hs) = rw (hc, leading) (ap (λ l. c ∷ l) (leading-All t s hs))

-- No byte of the value is a newline.
abbrev pub IsLine : Bytes → Type 0
IsLine s = All (λ c. not (c == 10) ≡ true) s

line_all : (s : Bytes) → IsLine s → line s ≡ s
unfolding line
line_all s h = leading-All (λ c. not (c == 10)) s h

after_append :
    (name value : Bytes)
    → IsLine value
    → after_name name (codes "+=" ++ value)
      ≡ some (record { key = name; separator = append; value = value })
unfolding after_name
after_append name value h = rw (line_all value h) refl

parse_named :
    (name s rest : Bytes)
    → name ≢ []
    → leading is_key_byte s ≡ name
    → drop (length name) s ≡ rest
    → parse_item s ≡ after_name name rest
unfolding parse_item
parse_named [] s rest n h k = absurd (n refl)
parse_named (c ∷ name) s rest n h k = rw (h, k) refl

plus_is_no_key_byte : (value : Bytes) → leading is_key_byte (codes "+=" ++ value) ≡ []
unfolding leading is_key_byte is_letter
plus_is_no_key_byte value = refl

parse_item-append :
    (name value : Bytes)
    → name ≢ []
    → All (λ c. is_key_byte c ≡ true) name
    → IsLine value
    → parse_item (name ++ (codes "+=" ++ value))
      ≡ some (record { key = name; separator = append; value = value })
parse_item-append name value n h k =
    parse_named name (name ++ (codes "+=" ++ value)) (codes "+=" ++ value) n
      (leading-append is_key_byte name (codes "+=" ++ value) h (plus_is_no_key_byte value))
      (drop-append name (codes "+=" ++ value))
    ∙ after_append name value k

apply_append :
    (v : Viper) (laws : ViperLaws v) (base : World) (own : ExpandOptions) (name value : Bytes)
    (s : v.State)
    → is_set v base own name s ≡ true
    → v.get_string name s ≢ []
    → own.replacements ≡ []
    → apply_item v base own (record { key = name; separator = append; value = value }) s
      ≡ stored (v.set name (str (appended (v.get_string name s) value)) s)
unfolding apply_item get_expanded
apply_append v laws base own name value s i g r =
    let raw =
      expand_plain (world v base own s) (record own { no_expand = true }) (v.get_string name s) refl
        g in
    rw (i, raw) (set_plain v laws base own own name (appended (v.get_string name s) value) s r)

module _ (v : Viper) (base : World) (own : ExpandOptions) where
  pairs_item :
      (item : Bytes) (fields : Item) (list : List Bytes) (s : v.State)
      → parse_item item ≡ some fields
      → set_key_value_pairs v base own (item ∷ list) s
        ≡ continue v base own (set_key_value_pairs v base own list) (apply_item v base own fields s)
  unfolding set_key_value_pairs
  pairs_item item fields list s e = rw (e, set_key_value_pairs) refl

  pairs_invalid :
      (item : Bytes) (list : List Bytes) (s : v.State)
      → parse_item item ≡ none
      → set_key_value_pairs v base own (item ∷ list) s ≡ not_valid item s
  unfolding set_key_value_pairs
  pairs_invalid item list s e = rw (e, set_key_value_pairs) refl

  abbrev state_of : v.State → Applied v base own → v.State
  state_of s (applied s') = s'
  state_of s (not_valid item s') = s
  state_of s (failed o) = s

  applied-injective :
      (s s' : v.State) → ◌≡◌ {A = Applied v base own} (applied s) (applied s') → s ≡ s'
  applied-injective s s' h = ap (state_of s) h

  invalid_applied :
      (item : Bytes) (s s' : v.State) → ◌≢◌ {A = Applied v base own} (not_valid item s) (applied s')
  invalid_applied item s s' = λ h. cc

appended_lem :
    (old value : Bytes)
    → appended old value
      ≡ old ++ (if has_prefix (codes "-") value then codes " " ++ value else value)
appended_lem old value = ground arith

-- An item `key+=value`, with a key of the bytes that a key may have and a value without a newline,
-- whose key is set to a text that is not empty, appends the value to that text, behind a space if
-- the value starts with a dash, and the loop goes on with the next item. The options of the
-- configuration replace nothing.
pub set_key_value_pairs-append :
    (v : Viper) (laws : ViperLaws v) (base : World) (own : ExpandOptions) (name value : Bytes)
    (list : List Bytes) (s : v.State)
    → name ≢ []
    → All (λ c. is_key_byte c ≡ true) name
    → IsLine value
    → is_set v base own name s ≡ true
    → v.get_string name s ≢ []
    → own.replacements ≡ []
    → set_key_value_pairs v base own ((name ++ (codes "+=" ++ value)) ∷ list) s
      ≡ set_key_value_pairs v base own list (
          v.set name
            (str (
              v.get_string name s
              ++ (if has_prefix (codes "-") value then codes " " ++ value else value)))
            s)
set_key_value_pairs-append v laws base own name value list s n h k i g r =
    pairs_item v base own (name ++ (codes "+=" ++ value)) _ list s
      (parse_item-append name value n h k)
    ∙ (ap (continue v base own (set_key_value_pairs v base own list))
          (apply_append v laws base own name value s i g r)
        ∙ ap (λ t. set_key_value_pairs v base own list (v.set name (str t) s))
            (appended_lem (v.get_string name s) value))

continue_stops :
    (v : Viper) (base : World) (own : ExpandOptions) (rest more : v.State → Applied v base own)
    (item : Bytes) (s' : v.State) (o : Stored v base own)
    → ((s : v.State) → rest s ≡ applied s' → more s ≡ not_valid item s')
    → continue v base own rest o ≡ applied s'
    → continue v base own more o ≡ not_valid item s'
continue_stops v base own rest more item s' (stored s) f h = f s h
continue_stops v base own rest more item s' panicked f h = cc
continue_stops v base own rest more item s' unfinished f h = cc

-- The items that are settings are applied in order up to the first one that is not; that one is the
-- error, and nothing behind it is applied.
set_key_value_pairs_stops :
    (v : Viper) (base : World) (own : ExpandOptions) (before after : List Bytes) (item : Bytes)
    (s s' : v.State)
    → set_key_value_pairs v base own before s ≡ applied s'
    → parse_item item ≡ none
    → set_key_value_pairs v base own (before ++ (item ∷ after)) s ≡ not_valid item s'
unfolding set_key_value_pairs
set_key_value_pairs_stops v base own [] after item s s' h e =
    pairs_invalid v base own item after s e
    ∙ ap (not_valid item) (applied-injective v base own s s' h)
set_key_value_pairs_stops v base own (first ∷ before) after item s s' h e =
    elim (Option-cases (parse_item first)) [
      | inl n ↦ absurd (
          invalid_applied v base own first s s'
            (sym (pairs_invalid v base own first before s n) ∙ h))
      | inr (fields, n) ↦
          pairs_item v base own first fields (before ++ (item ∷ after)) s n
          ∙ (continue_stops v base own (set_key_value_pairs v base own before)
              (set_key_value_pairs v base own (before ++ (item ∷ after))) item s'
              (apply_item v base own fields s)
              (λ s1 k. set_key_value_pairs_stops v base own before after item s1 s' k e)
              (sym (pairs_item v base own first fields before s n) ∙ h))
    ]
