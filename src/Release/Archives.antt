-- ===== src/Release/Archives.antt =====
-- LocalArchives (tools/geneos/internal/geneos/versions.go): the archives of a component among the
-- regular files of a directory. slices.SortFunc is an insertion sort: the names in a directory are
-- distinct, and then the order has only one sorted list.
use cordial.Common.{
  Bool, true, false, not, ◌||◌, Option, none, some, List, Bytes, codes, eqb, [], ◌∷◌, ◌++◌, any,
  if◌then◌else◌,
}
use cordial.Text.{contains, split}
use cordial.Release.Order.{Order, less, greater, compare_bytes}

-- What LocalArchives reads of a component: ct.String(), ct.ParentType, whether ct.PackageTypes has
-- an entry, and ct.DownloadInfix.
pub record Component : Type 0 where
  pub name : Bytes
  pub parent_type : Option Bytes
  pub has_package_types : Bool
  pub download_infix : Bytes

abbrev pub platform_suffix_list : List Bytes
platform_suffix_list = codes "el8" ∷ codes "el9" ∷ codes "el10" ∷ []

-- The text that an archive of the component has in its name.
unfoldable pub archive_check : Component → Bytes
unfolding eqb
archive_check ct =
    if not (eqb ct.download_infix []) then ct.download_infix else elim ct.parent_type [
      | none ↦ ct.name
      | some parent ↦ if ct.has_package_types then parent else ct.name
    ]

-- The second part of `name:id`.
abbrev second : List Bytes → Bytes
second [] = []
second (_ ∷ []) = []
second (_ ∷ id ∷ _) = id

-- getPlatformId
unfoldable pub get_platform_id : Bytes → Bytes
unfolding split
get_platform_id value = second (split b':' value)

-- strings.Contains(n, "-"+p+"-")
unfoldable pub has_platform : Bytes → Bytes → Bool
unfolding contains
has_platform n p = contains (codes "-" ++ (p ++ codes "-")) n

unfoldable pub for_platform : Bytes → Bool
unfolding has_platform any
for_platform n = any (has_platform n) platform_suffix_list

-- The two platform filters, as the test of what they leave.
unfoldable pub keeps_platform : Bytes → Bytes → Bool
unfolding eqb has_platform get_platform_id for_platform
keeps_platform platform n =
    if eqb platform []
    then not (for_platform n)
    else has_platform n (get_platform_id platform) || not (for_platform n)

-- The order of the archives: those for any platform come first.
unfoldable pub compare_archives : Bytes → Bytes → Order
unfolding for_platform compare_bytes
compare_archives a b =
    if for_platform a
    then (if for_platform b then compare_bytes a b else greater)
    else if for_platform b
    then less
    else compare_bytes a b

abbrev pub is_greater : Order → Bool
is_greater greater = true
is_greater _ = false

unfoldable pub insert : Bytes → List Bytes → List Bytes
insert a [] = a ∷ []
insert a (b ∷ l) =
    let later = insert a l in if is_greater (compare_archives a b) then b ∷ later else a ∷ b ∷ l

unfoldable pub sort_archives : List Bytes → List Bytes
unfolding insert compare_archives
sort_archives [] = []
sort_archives (a ∷ l) = insert a (sort_archives l)

-- slices.DeleteFunc, by what it leaves.
unfoldable pub keep : (Bytes → Bool) → List Bytes → List Bytes
keep t [] = []
keep t (n ∷ l) = let rest = keep t l in if t n then n ∷ rest else rest

-- LocalArchives, for the names of the regular files of the directory.
unfoldable pub local_archives : Component → Bytes → List Bytes → List Bytes
unfolding keep sort_archives contains archive_check keeps_platform
local_archives ct platform files =
    sort_archives (keep (keeps_platform platform) (keep (contains (archive_check ct)) files))
