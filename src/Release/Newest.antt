-- ===== src/Release/Newest.antt =====
-- The release that update chooses (tools/geneos/internal/geneos/package.go).
use cordial.Common.{
  ◌≡◌, refl, ap, ◌∙◌, Bool, true, false, List, Bytes, codes, eqb, [], ◌∷◌, if◌then◌else◌, any,
  arith, Bool-cases, inl, inr,
}
use cordial.Text.{has_prefix}
use cordial.Release.Order.{Versions}
use cordial.Release.Archives.{keep}
use cordial.Release.Update.{
  Host, Listing, entries, no_directory, not_listed, sort_releases, last_release, installed_releases,
  choose_release,
}

-- The prefix that the option asks for: `latest` is any release.
abbrev pub prefix_of : Bytes → Bytes
prefix_of version = if eqb version (codes "latest") then [] else version

-- The last of the texts that has the prefix, or the empty text.
abbrev pub last_with : Bytes → List Bytes → Bytes
last_with prefix [] = []
last_with prefix (v ∷ versions) =
    let later = last_with prefix versions in
    if any (has_prefix prefix) versions then later else if has_prefix prefix v then v else []

abbrev pub directories : (h : Host) → h.State → List Bytes → List Bytes
directories h s [] = []
directories h s (n ∷ names) =
    let rest = directories h s names in if h.is_dir n s then n ∷ rest else rest

-- The last directory in the order of releases that has the prefix; none where nothing was listed.
abbrev pub last_listed : (p : Versions) (h : Host) → Bytes → h.State → Listing → Bytes
last_listed p h prefix s (entries names) =
    last_with prefix (sort_releases p (directories h s names))
last_listed p h prefix s no_directory = []
last_listed p h prefix s not_listed = []

keep-none : (t : Bytes → Bool) (l : List Bytes) → any t l ≡ false → keep t l ≡ []
unfolding keep any
keep-none t [] e = refl
keep-none t (v ∷ l) e = ground (arith, keep-none t l, e)

last-cons :
    (v : Bytes) (t : Bytes → Bool) (l : List Bytes)
    → any t l ≡ true
    → last_release (v ∷ keep t l) ≡ last_release (keep t l)
unfolding keep any last_release
last-cons v t [] e = ground (arith, e)
last-cons v t (w ∷ l) e = elim (Bool-cases (t w)) [
  | inl g ↦ rw g refl
  | inr g ↦ rw g (last-cons v t l (ground (arith, e, g)))
]

last_release-keep :
    (prefix : Bytes) (l : List Bytes)
    → last_release (keep (has_prefix prefix) l) ≡ last_with prefix l
unfolding keep last_release
last_release-keep prefix [] = refl
last_release-keep prefix (v ∷ l) = ground (
  arith,
  last_release-keep prefix l,
  last-cons v (has_prefix prefix) l,
  keep-none (has_prefix prefix) l,
)

keep-directories :
    (h : Host) (s : h.State) (names : List Bytes)
    → keep (λ n. h.is_dir n s) names ≡ directories h s names
unfolding keep
keep-directories h s [] = refl
keep-directories h s (n ∷ names) = ground (arith, keep-directories h s names)

pub choose_release-last :
    (p : Versions) (h : Host) (version : Bytes) (names : List Bytes) (s : h.State)
    → choose_release p h version names s ≡ last_listed p h (prefix_of version) s (entries names)
unfolding choose_release installed_releases
choose_release-last p h version names s =
    last_release-keep (prefix_of version) (sort_releases p (keep (λ n. h.is_dir n s) names))
    ∙ ap (λ l. last_with (prefix_of version) (sort_releases p l)) (keep-directories h s names)
