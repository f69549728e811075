-- ===== src/Release/Compare.antt =====
-- The order that CompareVersion puts on versions (tools/geneos/internal/geneos/versions.go).
use mathlib.Core.Path.{ap₂}
use cordial.Common.{
  ℕ, ◌≡◌, ◌≢◌, refl, ◌∙◌, Bool, true, false, some, Bytes, codes, eqb, [], ◌∷◌, ◌++◌, arith, is_some,
  ◌||◌, Option-cases, inl, inr,
}
use cordial.Text.{first_field, is_letter, trim_prefix, leading, cut_prefix}
use cordial.Release.Order.{
  Order, less, same, greater, compare_bytes, label, or_else_compare, Versions, compare_labelled,
  compare_version,
}

-- The order of the two versions the other way around.
abbrev pub flip : Order → Order
flip less = greater
flip same = same
flip greater = less

compare_bytes-flip : (a b : Bytes) → compare_bytes b a ≡ flip (compare_bytes a b)
unfolding compare_bytes
compare_bytes-flip [] [] = refl
compare_bytes-flip [] (_ ∷ _) = refl
compare_bytes-flip (_ ∷ _) [] = refl
compare_bytes-flip (c ∷ a) (d ∷ b) = ground (arith, compare_bytes-flip a b)

-- The text behind the label is a version that the package reads.
abbrev pub readable : Versions → Bytes → Bool
readable p version = is_some (p.new_version (label version).1)

or_else_compare-flip :
    (o q : Order) → or_else_compare (flip o) (flip q) ≡ flip (or_else_compare o q)
or_else_compare-flip less q = refl
or_else_compare-flip same q = refl
or_else_compare-flip greater q = refl

compare_labelled-flip :
    (p : Versions) (x y : Bytes × Bytes)
    → ((v w : p.Version) → p.compare w v ≡ flip (p.compare v w))
    → (is_some (p.new_version x.1) || is_some (p.new_version y.1) ≡ true)
    → compare_labelled p y x ≡ flip (compare_labelled p x y)
unfolding compare_labelled
compare_labelled-flip p (l, s) (m, t) h r = elim (Option-cases (p.new_version s)) [
  | inl e ↦ elim (Option-cases (p.new_version t)) [
    | inl f ↦ absurd (ground arith)
    | inr (w, f) ↦ rw (e, f, compare_labelled, e) refl
  ]
  | inr (v, e) ↦ elim (Option-cases (p.new_version t)) [
    | inl f ↦ rw (e, f, compare_labelled) refl
    | inr (w, f) ↦
        rw (e, f, compare_labelled, e, h v w, compare_bytes-flip l m)
          (or_else_compare-flip (p.compare v w) (compare_bytes l m))
  ]
]

-- If the package's own comparison can be turned around, so can CompareVersion, unless neither of the
-- two versions can be read.
compare_version-flip :
    (p : Versions) (a b : Bytes)
    → ((v w : p.Version) → p.compare w v ≡ flip (p.compare v w))
    → readable p a || readable p b ≡ true
    → compare_version p b a ≡ flip (compare_version p a b)
unfolding compare_version
compare_version-flip p [] [] h r = refl
compare_version-flip p [] (_ ∷ _) h r = refl
compare_version-flip p (_ ∷ _) [] h r = refl
compare_version-flip p (c ∷ a) (d ∷ b) h r =
    compare_labelled-flip p (label (c ∷ a)) (label (d ∷ b)) h r

unreadable :
    (p : Versions) (x y : Bytes × Bytes)
    → is_some (p.new_version x.1) ≡ false
    → compare_labelled p x y ≡ greater
unfolding compare_labelled
unreadable p (l, s) (m, t) h = elim (Option-cases (p.new_version s)) [
  | inl e ↦ rw (e, compare_labelled) refl
  | inr (v, e) ↦ absurd (ground arith)
]

-- Of two versions that are not empty and cannot be read, each is the greater one.
unreadable_greater :
    (p : Versions) (a b : Bytes)
    → a ≢ []
    → b ≢ []
    → readable p a ≡ false
    → readable p b ≡ false
    → (compare_version p a b ≡ greater) × (compare_version p b a ≡ greater)
unfolding compare_version
unreadable_greater p [] b n m h k = absurd (n refl)
unreadable_greater p (c ∷ a) [] n m h k = absurd (m refl)
unreadable_greater p (c ∷ a) (d ∷ b) n m h k =
    (unreadable p (label (c ∷ a)) (label (d ∷ b)) h, unreadable p (label (d ∷ b)) (label (c ∷ a)) k)

label_ga :
    (c : ℕ) (s : Bytes) → is_letter c ≡ false → label (codes "GA" ++ (c ∷ s)) ≡ (codes "GA", c ∷ s)
unfolding label first_field leading eqb trim_prefix cut_prefix
label_ga c s l = rw l refl

label_ra :
    (c : ℕ) (s : Bytes) → is_letter c ≡ false → label (codes "RA" ++ (c ∷ s)) ≡ (codes "RA", c ∷ s)
unfolding label first_field leading eqb trim_prefix cut_prefix
label_ra c s l = rw l refl

labelled_ga_ra :
    (p : Versions) (s : Bytes) (v : p.Version)
    → p.new_version s ≡ some v
    → p.compare v v ≡ same
    → compare_labelled p (codes "GA", s) (codes "RA", s) ≡ less
unfolding compare_labelled compare_bytes
labelled_ga_ra p s v e k = rw (e, compare_labelled, e, k) refl

-- With the same number behind the label, which starts with no letter, can be read and equals
-- itself, a GA version is less than an RA version.
ga_before_ra :
    (p : Versions) (c : ℕ) (version : Bytes) (v : p.Version)
    → is_letter c ≡ false
    → p.new_version (c ∷ version) ≡ some v
    → p.compare v v ≡ same
    → compare_version p (codes "GA" ++ (c ∷ version)) (codes "RA" ++ (c ∷ version)) ≡ less
unfolding compare_version
ga_before_ra p c version v l e s =
    ap₂ (compare_labelled p) (label_ga c version l) (label_ra c version l)
    ∙ labelled_ga_ra p (c ∷ version) v e s
