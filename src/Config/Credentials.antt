-- ===== src/Config/Credentials.antt =====
-- FindCreds (pkg/config/credentials.go) in a configuration that has credentials. Lower case is that of
-- ASCII. slices.SortedFunc is an insertion sort: the order of domains of one length, which Go leaves
-- open, is here that of the list.
use cordial.Common.{Bool, Option, none, some, List, Bytes, [], ◌∷◌, map, if◌then◌else◌, length, ltb}
use cordial.Text.{contains}
use cordial.Components.{fold_byte}
use cordial.Dict.{Dict}

unfoldable pub to_lower : Bytes → Bytes
unfolding fold_byte
to_lower s = map fold_byte s

-- strings.Contains of the two texts in lower case.
unfoldable pub covers : Bytes → Bytes → Bool
unfolding to_lower contains
covers p domain = contains (to_lower domain) (to_lower p)

abbrev pub keys {ℓ} : {V : Type ℓ} → Dict V → List Bytes
keys [] = []
keys ((k, _) ∷ m) = k ∷ keys m

-- In order of length, the longest first.
unfoldable pub insert_domain : Bytes → List Bytes → List Bytes
insert_domain a [] = a ∷ []
insert_domain a (b ∷ l) =
    let later = insert_domain a l in if ltb (length a) (length b) then b ∷ later else a ∷ b ∷ l

unfoldable pub sort_domains : List Bytes → List Bytes
unfolding insert_domain
sort_domains [] = []
sort_domains (a ∷ l) = insert_domain a (sort_domains l)

unfoldable pub first_cover : Bytes → List Bytes → Option Bytes
unfolding covers
first_cover p [] = none
first_cover p (d ∷ domains) =
    let later = first_cover p domains in if covers p d then some d else later

-- FindCreds: the domain whose credentials are returned.
unfoldable pub find_creds {ℓ} : {V : Type ℓ} → Dict V → Bytes → Option Bytes
unfolding sort_domains first_cover
find_creds cr p = first_cover p (sort_domains (keys cr))
