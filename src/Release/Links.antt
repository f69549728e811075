-- ===== src/Release/Links.antt =====
-- Which links CurrentVersion follows, and what ends it (tools/geneos/internal/geneos/versions.go).
use cordial.Common.{
  ℕ, zero, suc, ◌<◌, ◌≡◌, refl, sym, ap, ◌∙◌, true, false, none, some, Bytes, eqb, Bool-cases,
  Option-cases, inl, inr, arith,
}
use cordial.Release.Current.{
  Packages, LinkError, too_many, unknown, relative, follow, current_version,
}

module _ (h : Packages) (base : Bytes) where
  -- The entry is a link, and it names the second version, which is not where the search began.
  abbrev pub LinksTo : Bytes → Bytes → Type 0
  LinksTo v next =
      (h.lstat v ≡ true)
      × (target : Bytes) × (h.readlink v ≡ some target)
      × (relative h target ≡ next)
      × (eqb next base ≡ false)

  -- A number of links lead from the first version to the second.
  abbrev pub Chain : ℕ → Bytes → Bytes → Type 0
  Chain zero v last = v ≡ last
  Chain (suc n) v last = (next : Bytes) × LinksTo v next × Chain n next last

  -- An entry that is there and is no link.
  abbrev pub IsRelease : Bytes → Type 0
  IsRelease v = (h.lstat v ≡ true) × (h.readlink v ≡ none)

  follow-release : (n : ℕ) (v : Bytes) → IsRelease v → follow h base (suc n) v ≡ (v, none)
  unfolding follow
  follow-release n v (e, f) = rw (e, f, follow)

  follow-link :
      (n : ℕ) (v next : Bytes) → LinksTo v next → follow h base (suc n) v ≡ follow h base n next
  unfolding follow
  follow-link n v next (e, target, f, g, k) = rw (e, f, g, k, follow)

  follow-Chain :
      (n rounds : ℕ) (v last : Bytes)
      → n < rounds
      → Chain n v last
      → IsRelease last
      → follow h base rounds v ≡ (last, none)
  follow-Chain n zero v last lt c r = absurd (omega arith)
  follow-Chain zero (suc rounds) v last lt c r = rw c (follow-release rounds last r)
  follow-Chain (suc n) (suc rounds) v last lt (next, l, c) r =
      follow-link rounds v next l ∙ follow-Chain n rounds next last (omega arith) c r

  follow-too_many :
      (rounds : ℕ) (v last : Bytes)
      → Chain rounds v last
      → follow h base rounds v ≡ (unknown, some too_many)
  unfolding follow
  follow-too_many zero v last c = refl
  follow-too_many (suc rounds) v last (next, l, c) =
      follow-link rounds v next l ∙ follow-too_many rounds next last c

  -- What a search without an error has found.
  abbrev pub Found : ℕ → Bytes → Bytes → Type 0
  Found rounds v last = (n : ℕ) × (n < rounds) × Chain n v last × IsRelease last

  follow_sound :
      (rounds : ℕ) (v last : Bytes) → follow h base rounds v ≡ (last, none) → Found rounds v last
  unfolding follow
  follow_sound zero v last e = absurd (ground arith)
  follow_sound (suc rounds) v last e = elim (Bool-cases (h.lstat v)) [
    | inr a ↦ absurd (ground arith)
    | inl a ↦ elim (Option-cases (h.readlink v)) [
      | inl b ↦
          let same : v ≡ last = ap (λ r. r.0) (rw (a, b) at e) in
          (0, omega arith, same, rw (sym same) (a, b))
      | inr (target, b) ↦ elim (Bool-cases (eqb (relative h target) base)) [
        | inl c ↦ absurd (ground arith)
        | inr c ↦
            let (n, lt, chain, r) =
              follow_sound rounds (relative h target) last (rw (a, b, c) at e) in
            (suc n, omega arith, (relative h target, (a, target, b, refl, c), chain), r)
      ]
    ]
  ]

  follow-unknown :
      (rounds : ℕ) (v : Bytes) (err : LinkError)
      → (follow h base rounds v).1 ≡ some err
      → (follow h base rounds v).0 ≡ unknown
  unfolding follow
  follow-unknown zero v err e = refl
  follow-unknown (suc rounds) v err e = elim (Bool-cases (h.lstat v)) [
    | inr a ↦ rw (a, follow) refl
    | inl a ↦ elim (Option-cases (h.readlink v)) [
      | inl b ↦ absurd (ground arith)
      | inr (target, b) ↦ elim (Bool-cases (eqb (relative h target) base)) [
        | inl c ↦ rw (a, b, c, follow) refl
        | inr c ↦
            rw (a, b, c, follow) (follow-unknown rounds (relative h target) err (rw (a, b, c) at e))
      ]
    ]
  ]

-- A release is found exactly when at most nine links lead to it from the given name, none of which
-- leads back to that name: then it is there, is no link, and is returned without an error.
pub current_version_iff :
    (h : Packages) (base last : Bytes)
    → (current_version h base ≡ (last, none) → Found h base 10 base last)
      × (Found h base 10 base last → current_version h base ≡ (last, none))
unfolding current_version
current_version_iff h base last = (
  follow_sound h base 10 base last,
  λ (n, lt, chain, r). follow-Chain h base n 10 base last lt chain r,
)

-- Ten links in a row, none of them back to the given name, are an error and give no release.
pub ten_links_fail :
    (h : Packages) (base last : Bytes)
    → Chain h base 10 base last
    → current_version h base ≡ (unknown, some too_many)
unfolding current_version
ten_links_fail h base last c = follow-too_many h base 10 base last c

-- Whatever the error is, the version that comes with it is "unknown".
pub current_version-unknown :
    (h : Packages) (base : Bytes) {err : LinkError}
    → (current_version h base).1 ≡ some err
    → (current_version h base).0 ≡ unknown
unfolding current_version
current_version-unknown h base {err} e = follow-unknown h base 10 base err e
