-- ===== src/Ims/Chosen.antt =====
-- The value that the select and field prefixes choose (pkg/ims/action.go).
use cordial.Common.{
  arith, not, Option, ◌≡◌, refl, Bool, true, none, some, List, Bytes, codes, [], ◌∷◌, ◌++◌, any,
  ◌==◌, All, ℕ,
}
use cordial.Text.{split, trim_prefix, cut_prefix}
use cordial.Dict.{Dict, get}
use cordial.Ims.Prefixes.{
  Regexp, match_with, match_prefix, no_match_prefix, Env, trimmed_if, fields_and_default,
  first_field_set, field_prefix, trim_left, select_prefix,
}

-- A byte of the set `select:`.
abbrev pub InSelect : ℕ → Type 0
InSelect c = any (λ d. d == c) (codes "select:") ≡ true

trim_left-All : (s : Bytes) → All InSelect s → trim_left (codes "select:") s ≡ []
unfolding trim_left
trim_left-All [] h = refl
trim_left-All (c ∷ s) (hc, hs) = rw hc (trim_left-All s hs)

-- When every byte behind `select:` is one of that word's letters or a colon, the variables named
-- there are not looked up, and the result is empty: the prefix is removed as a set of bytes.
select_prefix_lost :
    (env : Env) (s : Bytes) (trim : Bool)
    → All InSelect s
    → select_prefix env (codes "select:" ++ s) trim ≡ []
unfolding select_prefix trim_left
select_prefix_lost env s trim h = rw (trim_left-All s h) refl

first_field :
    (incident : Dict Bytes) (trim : Bool) (before after : List Bytes) (f v d : Bytes)
    → All (λ g. get g incident ≡ none) before
    → get f incident ≡ some v
    → first_field_set incident trim (before ++ (f ∷ after)) d ≡ trimmed_if trim v
unfolding first_field_set
first_field incident trim [] after f v d h e = rw (e, first_field_set) refl
first_field incident trim (g ∷ before) after f v d (hg, hs) e =
    rw (hg, first_field_set) (first_field incident trim before after f v d hs e)

-- When the text behind `field:` names fields of which the incident has f and none before it, the
-- field prefix returns the value of f, trimmed if the action trims; the last part of the text, the
-- default, is not used.
pub field_prefix_first :
    (incident : Dict Bytes) (s : Bytes) (trim : Bool) (before after : List Bytes) (f v d : Bytes)
    → fields_and_default (split b':' (trim_prefix (codes "field:") s)) ≡ (before ++ (f ∷ after), d)
    → All (λ g. get g incident ≡ none) before
    → get f incident ≡ some v
    → field_prefix (some incident) s trim ≡ trimmed_if trim v
unfolding field_prefix
field_prefix_first incident s trim before after f v d e h k =
    rw e (first_field incident trim before after f v d h k)

opposite :
    (compile : Bytes → Option Regexp) (env : Env) (s : Bytes)
    → ((match_with compile env (λ b. b) s).1 ≡ (match_with compile env not s).1)
      × ((match_with compile env (λ b. b) s).0 ≡ codes "true"
          → (match_with compile env not s).0 ≡ codes "false")
unfolding match_with
opposite compile env s = ground (arith)

-- The match and nomatch prefixes of the same variable and pattern fail together, and when match
-- returns "true", nomatch returns "false".
match_prefix_opposite :
    (compile : Bytes → Option Regexp) (env : Env) (s : Bytes)
    → ((match_prefix compile env (codes "match:" ++ s)).1
        ≡ (no_match_prefix compile env (codes "nomatch:" ++ s)).1)
      × ((match_prefix compile env (codes "match:" ++ s)).0 ≡ codes "true"
          → (no_match_prefix compile env (codes "nomatch:" ++ s)).0 ≡ codes "false")
unfolding match_prefix no_match_prefix trim_prefix cut_prefix
match_prefix_opposite compile env s = opposite compile env s
