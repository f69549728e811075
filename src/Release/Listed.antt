-- ===== src/Release/Listed.antt =====
-- Which archives LocalArchives lists, and in which order (tools/geneos/internal/geneos/versions.go).
use cordial.Common.{
  ◌≡◌, refl, ◌∙◌, Bool, true, false, ◌&&◌, ◌||◌, List, Bytes, eqb, eqb_iff, [], ◌∷◌, any, All,
  arith, Bool-cases, inl, inr,
}
use cordial.Text.{contains}
use cordial.Release.Order.{compare_bytes}
use cordial.Release.Archives.{
  Component, archive_check, for_platform, keeps_platform, compare_archives, is_greater, insert,
  sort_archives, keep, local_archives,
}

any-insert : (p : Bytes → Bool) (a : Bytes) (l : List Bytes) → any p (insert a l) ≡ (p a || any p l)
unfolding any insert
any-insert p a [] = refl
any-insert p a (b ∷ l) = ground (arith, any-insert p a l)

any-sort : (p : Bytes → Bool) (l : List Bytes) → any p (sort_archives l) ≡ any p l
unfolding any sort_archives
any-sort p [] = refl
any-sort p (a ∷ l) = ground (arith, any-insert p a (sort_archives l), any-sort p l)

any-keep :
    (t : Bytes → Bool) (n : Bytes) (l : List Bytes)
    → any (eqb n) (keep t l) ≡ (any (eqb n) l && t n)
unfolding any keep
any-keep t n [] = refl
any-keep t n (a ∷ l) = ground (arith, any-keep t n l, eqb_iff n a)

-- A name is listed exactly when it is a file of the directory, has the text of the component, and
-- passes the filter of the platform.
local_archives-any :
    (ct : Component) (platform : Bytes) (files : List Bytes) (n : Bytes)
    → any (eqb n) (local_archives ct platform files)
      ≡ (any (eqb n) files && contains (archive_check ct) n && keeps_platform platform n)
unfolding local_archives
local_archives-any ct platform files n =
    let named = keep (contains (archive_check ct)) files in
    any-sort (eqb n) (keep (keeps_platform platform) named)
    ∙ ground (
      arith,
      any-keep (keeps_platform platform) n named,
      any-keep (contains (archive_check ct)) n files,
    )

-- Every archive behind one for a platform is for a platform as well.
abbrev pub PlatformsLast : List Bytes → Type 0
PlatformsLast [] = Unit
PlatformsLast (a ∷ l) =
    (for_platform a ≡ true → All (λ b. for_platform b ≡ true) l) × PlatformsLast l

All-insert :
    (a : Bytes) (l : List Bytes)
    → for_platform a ≡ true
    → All (λ b. for_platform b ≡ true) l
    → All (λ b. for_platform b ≡ true) (insert a l)
unfolding insert
All-insert a [] e h = (e, tt)
All-insert a (b ∷ l) e (hb, hl) = elim (Bool-cases (is_greater (compare_archives a b))) [
  | inl g ↦ rw (g, insert) (hb, All-insert a l e hl)
  | inr g ↦ rw (g, insert) (e, (hb, hl))
]

greater_platform :
    (a b : Bytes)
    → is_greater (compare_archives a b) ≡ true
    → for_platform b ≡ true
    → for_platform a ≡ true
unfolding compare_archives
greater_platform a b g h = ground arith

not_greater_platform :
    (a b : Bytes)
    → is_greater (compare_archives a b) ≡ false
    → for_platform a ≡ true
    → for_platform b ≡ true
unfolding compare_archives
not_greater_platform a b g h = ground arith

insert-PlatformsLast : (a : Bytes) (l : List Bytes) → PlatformsLast l → PlatformsLast (insert a l)
unfolding insert
insert-PlatformsLast a [] h = ((λ e. tt), tt)
insert-PlatformsLast a (b ∷ l) (hb, hl) = elim (Bool-cases (is_greater (compare_archives a b))) [
  | inl g ↦
      rw (g, insert)
        ((λ e. All-insert a l (greater_platform a b g e) (hb e)), insert-PlatformsLast a l hl)
  | inr g ↦ rw (g, insert) ((λ e. let f = not_greater_platform a b g e in (f, hb f)), (hb, hl))
]

sort-PlatformsLast : (l : List Bytes) → PlatformsLast (sort_archives l)
unfolding sort_archives
sort-PlatformsLast [] = tt
sort-PlatformsLast (a ∷ l) = insert-PlatformsLast a (sort_archives l) (sort-PlatformsLast l)

-- No archive is greater than the one behind it.
abbrev pub Ascending : List Bytes → Type 0
Ascending [] = Unit
Ascending (_ ∷ []) = Unit
Ascending (a ∷ b ∷ l) = (is_greater (compare_archives a b) ≡ false) × Ascending (b ∷ l)

not_less_twice :
    (a b : Bytes) → is_greater (compare_bytes a b) ≡ true → is_greater (compare_bytes b a) ≡ false
unfolding compare_bytes
not_less_twice [] [] h = refl
not_less_twice [] (_ ∷ _) h = cc
not_less_twice (_ ∷ _) [] h = refl
not_less_twice (c ∷ a) (d ∷ b) h = ground (arith, not_less_twice a b)

not_greater_twice :
    (a b : Bytes)
    → is_greater (compare_archives a b) ≡ true
    → is_greater (compare_archives b a) ≡ false
unfolding compare_archives
not_greater_twice a b h = ground (arith, not_less_twice a b)

insert-behind :
    (b a : Bytes) (l : List Bytes)
    → is_greater (compare_archives b a) ≡ false
    → Ascending (b ∷ l)
    → Ascending (b ∷ insert a l)
unfolding insert
insert-behind b a [] h k = (h, tt)
insert-behind b a (c ∷ l) h (hc, hl) = elim (Bool-cases (is_greater (compare_archives a c))) [
  | inl g ↦ rw (g, insert) (hc, insert-behind c a l (not_greater_twice a c g) hl)
  | inr g ↦ rw (g, insert) (h, (g, hl))
]

insert-Ascending : (a : Bytes) (l : List Bytes) → Ascending l → Ascending (insert a l)
unfolding insert
insert-Ascending a [] h = tt
insert-Ascending a (b ∷ l) h = elim (Bool-cases (is_greater (compare_archives a b))) [
  | inl g ↦ rw (g, insert) (insert-behind b a l (not_greater_twice a b g) h)
  | inr g ↦ rw (g, insert) (g, h)
]

sort-Ascending : (l : List Bytes) → Ascending (sort_archives l)
unfolding sort_archives
sort-Ascending [] = tt
sort-Ascending (a ∷ l) = insert-Ascending a (sort_archives l) (sort-Ascending l)

-- The list of archives is in ascending order, and the archives that are for any platform stand before
-- those that are for one.
local_archives-Ascending :
    (ct : Component) (platform : Bytes) (files : List Bytes)
    → Ascending (local_archives ct platform files)
      × PlatformsLast (local_archives ct platform files)
unfolding local_archives
local_archives-Ascending ct platform files =
    let kept = keep (keeps_platform platform) (keep (contains (archive_check ct)) files) in
    (sort-Ascending kept, sort-PlatformsLast kept)
