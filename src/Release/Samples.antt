-- ===== src/Release/Samples.antt =====
-- Runs of the release functions on concrete directories, and the theorems about them at concrete inputs.
use cordial.Common.{
  ℕ, zero, suc, ◌≡◌, refl, true, false, not, none, some, List, Bytes, codes, eqb, [], ◌∷◌, ◌++◌,
  any, length, ◌==◌, if◌then◌else◌,
}
use cordial.Release.Current.{Packages, too_many, unknown, current_version, follow, relative}
use cordial.Release.Links.{Found, current_version_iff, current_version-unknown}
use cordial.Release.Order.{Order, less, same, greater, Versions}
use cordial.Release.Compare.{flip}
use cordial.Release.Archives.{Component}

-- A link `active` to a release.
abbrev linked : Packages
linked = record {
  lstat = λ v. any (eqb v) (codes "active" ∷ codes "7.1" ∷ []);
  readlink = λ v. if eqb v (codes "active") then some (codes "7.1") else none;
  is_abs = λ v. false;
  rel = λ v. none;
}

-- Every name that is not empty is a link to itself and one more byte.
abbrev endless : Packages
endless = record {
  lstat = λ v. true;
  readlink = λ v. some (v ++ codes "x");
  is_abs = λ v. false;
  rel = λ v. none;
}

linked_release : current_version linked (codes "active") ≡ (codes "7.1", none)
unfolding current_version follow relative any eqb
linked_release = refl

current_version_iff_example :
    (current_version linked (codes "active") ≡ (codes "7.1", none)
      → Found linked (codes "active") 10 (codes "active") (codes "7.1"))
    × (Found linked (codes "active") 10 (codes "active") (codes "7.1")
        → current_version linked (codes "active") ≡ (codes "7.1", none))
current_version_iff_example = current_version_iff linked (codes "active") (codes "7.1")

endless_error : (current_version endless (codes "v")).1 ≡ some too_many
unfolding current_version follow relative eqb
endless_error = refl

current_version-unknown_example : (current_version endless (codes "v")).0 ≡ unknown
current_version-unknown_example = current_version-unknown endless (codes "v") endless_error

abbrev compare_lengths : ℕ → ℕ → Order
compare_lengths zero zero = same
compare_lengths zero (suc _) = less
compare_lengths (suc _) zero = greater
compare_lengths (suc m) (suc n) = compare_lengths m n

compare_lengths-flip : (m n : ℕ) → compare_lengths n m ≡ flip (compare_lengths m n)
compare_lengths-flip zero zero = refl
compare_lengths-flip zero (suc _) = refl
compare_lengths-flip (suc _) zero = refl
compare_lengths-flip (suc m) (suc n) = compare_lengths-flip m n

-- A version is one or more strokes.
abbrev strokes : Versions
strokes = record {
  Version = ℕ;
  new_version = λ s. if any (λ c. not (c == b'|')) s then none else some (length s);
  compare = compare_lengths;
}

abbrev gateway : Component
gateway = record {
  name = codes "gateway";
  parent_type = none;
  has_package_types = false;
  download_infix = [];
}

abbrev some_files : List Bytes
some_files =
    codes "geneos-gateway-7.1-el9-x.tgz"
    ∷ codes "geneos-netprobe-7.1.tgz"
    ∷ codes "geneos-gateway-7.1-linux.tgz"
    ∷ []
