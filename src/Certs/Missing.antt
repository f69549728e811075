-- ===== src/Certs/Missing.antt =====
-- The valid roots and those that are added where they are missing (pkg/certs/write.go).
use mathlib.Core.Path.{subst}
use cordial.Common.{
  not, Option, none, some, ℕ, ◌≡◌, ◌∙◌, refl, sym, ap, Bool, true, false, ◌||◌, List, [], ◌∷◌, ◌++◌,
  any, All, All-append, arith, Bool-cases, inl, inr, eqb_iff,
}
use cordial.Certs.Certificates.{Certificate, is_current, is_valid_root_ca, equals}
use cordial.Certs.Roots.{valid_roots, add_missing}
use cordial.Certs.Written.{unexpired}

abbrev pub or_none : Option (List Certificate) → List Certificate
or_none none = []
or_none (some certs) = certs

abbrev pub IsRoot : ℕ → Certificate → Type 0
IsRoot now c = is_valid_root_ca now c ≡ true

abbrev pub Holds : List Certificate → List Certificate → Type 0
Holds all roots = All (λ r. any (equals r) all ≡ true) roots

any-append :
    (r : Certificate) (all more : List Certificate)
    → any (equals r) (all ++ more) ≡ any (equals r) all || any (equals r) more
unfolding any
any-append r [] more = refl
any-append r (c ∷ all) more = ground (arith, any-append r all more)

equals_same : (c : Certificate) → equals c c ≡ true
unfolding equals
equals_same c = ground (arith, eqb_iff c.raw c.raw)

add_missing-present :
    (c : Certificate) (roots all : List Certificate) (added : Bool)
    → any (equals c) all ≡ true
    → add_missing (c ∷ roots) all added ≡ add_missing roots all added
unfolding add_missing
add_missing-present c roots all added e = rw e refl

add_missing-absent :
    (c : Certificate) (roots all : List Certificate) (added : Bool)
    → any (equals c) all ≡ false
    → add_missing (c ∷ roots) all added ≡ add_missing roots (all ++ c ∷ []) true
unfolding add_missing
add_missing-absent c roots all added e = rw e refl

-- By whether the certificate is present.
add_missing-by :
    (P : List Certificate × Bool → Type 0) (c : Certificate) (roots all : List Certificate)
    (added : Bool)
    → (any (equals c) all ≡ true → P (add_missing roots all added))
    → (any (equals c) all ≡ false → P (add_missing roots (all ++ c ∷ []) true))
    → P (add_missing (c ∷ roots) all added)
add_missing-by P c roots all added present absent =
    elim (Bool-cases (any (equals c) all)) as (λ _. P (add_missing (c ∷ roots) all added)) [
      | inl e ↦ subst P (sym (add_missing-present c roots all added e)) (present e)
      | inr e ↦ subst P (sym (add_missing-absent c roots all added e)) (absent e)
    ]

any-last : (c : Certificate) (all : List Certificate) → any (equals c) (all ++ c ∷ []) ≡ true
unfolding any
any-last c all = ground (arith, any-append c all (c ∷ []), equals_same c)

any-more :
    (r c : Certificate) (all : List Certificate)
    → any (equals r) all ≡ true
    → any (equals r) (all ++ c ∷ []) ≡ true
any-more r c all h = ground (arith, any-append r all (c ∷ []), h)

add_missing-any :
    (r : Certificate) (roots all : List Certificate) (added : Bool)
    → any (equals r) all ≡ true
    → any (equals r) (add_missing roots all added).0 ≡ true
unfolding add_missing
add_missing-any r [] all added h = h
add_missing-any r (c ∷ roots) all added h =
    add_missing-by (λ l. any (equals r) l.0 ≡ true) c roots all added
      (λ e. add_missing-any r roots all added h)
      (λ e. add_missing-any r roots (all ++ c ∷ []) true (any-more r c all h))

pub add_missing-Holds :
    (roots all : List Certificate) (added : Bool) → Holds (add_missing roots all added).0 roots
add_missing-Holds [] all added = tt
add_missing-Holds (c ∷ roots) all added =
    add_missing-by (λ l. Holds l.0 (c ∷ roots)) c roots all added
      (λ e. (add_missing-any c roots all added e, add_missing-Holds roots all added))
      (λ e. (
        add_missing-any c roots (all ++ c ∷ []) true (any-last c all),
        add_missing-Holds roots (all ++ c ∷ []) true,
      ))

pub add_missing-All :
    (P : Certificate → Type 0) (roots all : List Certificate) (added : Bool)
    → All P roots
    → All P all
    → All P (add_missing roots all added).0
unfolding add_missing
add_missing-All P [] all added p q = q
add_missing-All P (c ∷ roots) all added (pc, p) q =
    add_missing-by (λ l. All P l.0) c roots all added (λ e. add_missing-All P roots all added p q)
      (λ e. add_missing-All P roots (all ++ c ∷ []) true p (All-append P all (c ∷ []) q (pc, tt)))

add_missing-added : (roots all : List Certificate) → (add_missing roots all true).1 ≡ true
unfolding add_missing
add_missing-added [] all = refl
add_missing-added (c ∷ roots) all =
    add_missing-by (λ l. l.1 ≡ true) c roots all true (λ e. add_missing-added roots all)
      (λ e. add_missing-added roots (all ++ c ∷ []))

-- Where nothing is added, the list is the one that was there.
pub add_missing-same :
    (roots all : List Certificate)
    → (add_missing roots all false).1 ≡ false
    → (add_missing roots all false).0 ≡ all
unfolding add_missing
add_missing-same [] all h = refl
add_missing-same (c ∷ roots) all h = elim (Bool-cases (any (equals c) all)) [
  | inl e ↦
      (ap (λ l. l.0) (add_missing-present c roots all false e)
        ∙ add_missing-same roots all
            (sym (ap (λ l. l.1) (add_missing-present c roots all false e)) ∙ h))
  | inr e ↦ absurd (
      ground (
        arith,
        sym (add_missing-added roots (all ++ c ∷ []))
            ∙ (sym (ap (λ l. l.1) (add_missing-absent c roots all false e)) ∙ h),
      ))
]

pub valid_roots-IsRoot :
    (now : ℕ) (certs : List Certificate) → All (IsRoot now) (valid_roots now certs)
unfolding valid_roots
valid_roots-IsRoot now [] = tt
valid_roots-IsRoot now (c ∷ certs) = elim (Bool-cases (is_valid_root_ca now c)) [
  | inl e ↦ rw e (e, valid_roots-IsRoot now certs)
  | inr e ↦ rw e (valid_roots-IsRoot now certs)
]

pub valid_roots-All :
    (P : Certificate → Type 0) (now : ℕ) (certs : List Certificate)
    → All P certs
    → All P (valid_roots now certs)
unfolding valid_roots
valid_roots-All P now [] p = tt
valid_roots-All P now (c ∷ certs) (pc, p) = elim (Bool-cases (is_valid_root_ca now c)) [
  | inl e ↦ rw e (pc, valid_roots-All P now certs p)
  | inr e ↦ rw e (valid_roots-All P now certs p)
]

valid_roots-any :
    (now : ℕ) (r : Certificate) (certs : List Certificate)
    → any (equals r) (valid_roots now certs) ≡ true
    → any (equals r) certs ≡ true
unfolding valid_roots any
valid_roots-any now r [] h = h
valid_roots-any now r (c ∷ certs) h = ground (arith, valid_roots-any now r certs, h)

pub valid_roots-Holds :
    (now : ℕ) (certs roots : List Certificate)
    → Holds (valid_roots now certs) roots
    → Holds certs roots
valid_roots-Holds now certs [] h = tt
valid_roots-Holds now certs (r ∷ roots) (hr, h) =
    (valid_roots-any now r certs hr, valid_roots-Holds now certs roots h)

Holds-more :
    (c : Certificate) (all roots : List Certificate) → Holds all roots → Holds (c ∷ all) roots
unfolding any
Holds-more c all [] h = tt
Holds-more c all (r ∷ roots) (hr, h) = (ground (arith, hr), Holds-more c all roots h)

pub Holds-same : (roots : List Certificate) → Holds roots roots
unfolding any
Holds-same [] = tt
Holds-same (c ∷ roots) =
    (ground (arith, equals_same c), Holds-more c roots roots (Holds-same roots))

pub unexpired-same :
    (now : ℕ) (certs : List Certificate) → All (IsRoot now) certs → unexpired now certs ≡ certs
unfolding is_valid_root_ca is_current
unexpired-same now [] p = refl
unexpired-same now (c ∷ certs) (pc, p) = ground (arith, unexpired-same now certs p, pc)

-- Every certificate of a list is among all of them, unless it is no valid root.
abbrev pub Covers : ℕ → List Certificate → List Certificate → Type 0
Covers now all certs = All (λ c. not (is_valid_root_ca now c) || any (equals c) all ≡ true) certs

pub Holds-Covers :
    (now : ℕ) (all certs : List Certificate)
    → Holds all (valid_roots now certs)
    → Covers now all certs
unfolding valid_roots
Holds-Covers now all [] h = tt
Holds-Covers now all (c ∷ certs) h = elim (Bool-cases (is_valid_root_ca now c)) [
  | inl e ↦
      let (hc, hs) = subst (Holds all) (valid_roots-in now c certs e) h in
      (ground (arith, hc), Holds-Covers now all certs hs)
  | inr e ↦ (
    ground (arith, e),
    Holds-Covers now all certs (subst (Holds all) (valid_roots-out now c certs e) h),
  )
]
  where
    valid_roots-in :
        (n : ℕ) (d : Certificate) (l : List Certificate)
        → is_valid_root_ca n d ≡ true
        → valid_roots n (d ∷ l) ≡ d ∷ valid_roots n l
    valid_roots-in n d l e = rw e refl

    valid_roots-out :
        (n : ℕ) (d : Certificate) (l : List Certificate)
        → is_valid_root_ca n d ≡ false
        → valid_roots n (d ∷ l) ≡ valid_roots n l
    valid_roots-out n d l e = rw e refl

Holds-added :
    (roots all some_of : List Certificate) (added : Bool)
    → Holds all some_of
    → Holds (add_missing roots all added).0 some_of
Holds-added roots all [] added h = tt
Holds-added roots all (c ∷ some_of) added (hc, hs) =
    (add_missing-any c roots all added hc, Holds-added roots all some_of added hs)

-- What was there is kept.
pub add_missing-kept :
    (roots all : List Certificate) (added : Bool) → Holds (add_missing roots all added).0 all
add_missing-kept roots all added = Holds-added roots all all added (Holds-same all)
