-- ===== src/Components.antt =====
-- Component and its names (tools/geneos/internal/geneos/component.go). strings.EqualFold is that of
-- ASCII. A pointer to a component is its place in a list, and nil is `none`; a registry is a map, so a
-- theorem about every list is one about every order in which it is visited.
use cordial.Common.{
  ℕ, ◌+◌, Bool, ◌&&◌, Option, none, some, List, Bytes, eqb, [], ◌∷◌, ◌++◌, map, if◌then◌else◌, any,
  leb,
}
use cordial.Dict.{Dict}

-- The fields that are read.
pub record Component : Type 0 where
  pub name : Bytes
  pub aliases : List Bytes
  pub legacy_parameters : Dict Bytes
  pub download_infix : Bytes
  pub is_root : Bool
  pub uses_keyfiles : Bool

unfoldable pub fold_byte : ℕ → ℕ
fold_byte c = if leb b'A' c && leb c b'Z' then c + 32 else c

-- strings.EqualFold
unfoldable pub equal_fold : Bytes → Bytes → Bool
unfolding fold_byte
equal_fold a b = eqb (map fold_byte a) (map fold_byte b)

-- String
unfoldable pub component_string : Option Component → Bytes
component_string none = []
component_string (some ct) = ct.name

-- IsA
unfoldable pub is_a : Component → List Bytes → Bool
unfolding equal_fold
is_a ct names = any (λ a. any (equal_fold a) names) (ct.name ∷ ct.aliases)

-- The names that ParseComponent compares, in its order.
unfoldable pub names_of : Component → List Bytes
names_of ct =
    (ct.name ∷ (if eqb ct.download_infix [] then [] else ct.download_infix ∷ [])) ++ ct.aliases

unfoldable pub answers : Bytes → Component → Bool
unfolding names_of equal_fold
answers s ct = any (λ m. equal_fold m s) (names_of ct)

-- The loop of ParseComponent over the registered components.
unfoldable pub first_answer : Bytes → List Component → Option Component
unfolding answers
first_answer s [] = none
first_answer s (ct ∷ registered) =
    let later = first_answer s registered in if answers s ct then some ct else later

-- ParseComponent
unfoldable pub parse_component : List Component → Bytes → Option Component
unfolding first_answer
parse_component registered s = if eqb s [] then none else first_answer s registered

abbrev real : List Component → List Component
real [] = []
real (ct ∷ cts) = let rest = real cts in if ct.is_root then rest else ct ∷ rest

-- OrList: what a loop over it is given that does not end early.
unfoldable pub or_list : List Component → Option Component → List Component → List Component
or_list registered (some ct) cts = ct ∷ []
or_list registered none [] = real registered
or_list registered none (ct ∷ cts) = real (ct ∷ cts)
