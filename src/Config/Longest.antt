-- ===== src/Config/Longest.antt =====
-- Which credentials FindCreds finds (pkg/config/credentials.go).
use mathlib.Core.Path.{subst}
use cordial.Common.{
  sym, ◌∙◌, ℕ, ◌≤◌, ◌≡◌, refl, inl, inr, Bool, true, false, Option, none, some, List, Bytes, [],
  ◌∷◌, length, ltb, arith, any, All, Bool-cases, eqb, eqb_iff, ◌||◌,
}
use cordial.Dict.{Dict}
use cordial.Config.Folded.{IsPart, covers-IsPart, IsPart-covers}
use cordial.Config.Credentials.{covers, keys, insert_domain, sort_domains, first_cover, find_creds}

abbrev pub has_domain : Bytes → List Bytes → Bool
has_domain d l = any (λ e. eqb e d) l

-- What a search among domains has found: a domain that covers the text, and no other one that covers it is
-- longer; or no domain covers it.
abbrev pub Longest : Bytes → List Bytes → Option Bytes → Type 0
Longest p domains none = All (λ d. covers p d ≡ false) domains
Longest p domains (some d) =
    (has_domain d domains ≡ true)
    × (covers p d ≡ true)
    × All (λ e. covers p e ≡ true → length e ≤ length d) domains

abbrev pub Descending : List Bytes → Type 0
Descending [] = Unit
Descending (d ∷ l) = All (λ e. length e ≤ length d) l × Descending l

All-insert :
    (P : Bytes → Type 0) (a : Bytes) (l : List Bytes) → P a → All P l → All P (insert_domain a l)
unfolding insert_domain
All-insert P a [] h hs = (h, tt)
All-insert P a (b ∷ l) h (hb, hs) = elim (Bool-cases (ltb (length a) (length b))) [
  | inl e ↦ rw e (hb, All-insert P a l h hs)
  | inr e ↦ rw e (h, (hb, hs))
]

insert_shorter :
    (a b : Bytes) (l : List Bytes)
    → ltb (length a) (length b) ≡ true
    → insert_domain a (b ∷ l) ≡ b ∷ insert_domain a l
unfolding insert_domain
insert_shorter a b l e = rw e refl

insert_longer :
    (a b : Bytes) (l : List Bytes)
    → ltb (length a) (length b) ≡ false
    → insert_domain a (b ∷ l) ≡ a ∷ b ∷ l
unfolding insert_domain
insert_longer a b l e = rw e refl

All-inserted :
    (P : Bytes → Type 0) (a : Bytes) (l : List Bytes) → All P (insert_domain a l) → P a × All P l
unfolding insert_domain
All-inserted P a [] (h, _) = (h, tt)
All-inserted P a (b ∷ l) h = elim (Bool-cases (ltb (length a) (length b))) [
  | inl e ↦
      let (hb, rest) = subst (All P) (insert_shorter a b l e) h in
      let (ha, hl) = All-inserted P a l rest in (ha, (hb, hl))
  | inr e ↦ subst (All P) (insert_longer a b l e) h
]

All-le : (m n : ℕ) (l : List Bytes) → m ≤ n → All (λ e. length e ≤ m) l → All (λ e. length e ≤ n) l
All-le m n [] h hs = tt
All-le m n (e ∷ l) h (he, hs) = (omega arith, All-le m n l h hs)

insert_domain-Descending :
    (a : Bytes) (l : List Bytes) → Descending l → Descending (insert_domain a l)
unfolding insert_domain
insert_domain-Descending a [] h = (tt, tt)
insert_domain-Descending a (b ∷ l) (hb, hs) = elim (Bool-cases (ltb (length a) (length b))) [
  | inl e ↦ rw e (
    All-insert (λ d. length d ≤ length b) a l (ground (arith, e)) hb,
    insert_domain-Descending a l hs,
  )
  | inr e ↦
      rw e ((ground (arith, e), All-le (length b) (length a) l (ground (arith, e)) hb), (hb, hs))
]

sort_domains-Descending : (l : List Bytes) → Descending (sort_domains l)
unfolding sort_domains
sort_domains-Descending [] = tt
sort_domains-Descending (a ∷ l) =
    insert_domain-Descending a (sort_domains l) (sort_domains-Descending l)

All-unsort : (P : Bytes → Type 0) (l : List Bytes) → All P (sort_domains l) → All P l
unfolding sort_domains
All-unsort P [] h = tt
All-unsort P (a ∷ l) h =
    let (ha, hl) = All-inserted P a (sort_domains l) h in (ha, All-unsort P l hl)

has-insert :
    (d a : Bytes) (l : List Bytes) → has_domain d (insert_domain a l) ≡ (eqb a d || has_domain d l)
unfolding insert_domain any
has-insert d a [] = refl
has-insert d a (b ∷ l) = ground (arith, has-insert d a l)

has-sort : (d : Bytes) (l : List Bytes) → has_domain d (sort_domains l) ≡ has_domain d l
unfolding sort_domains any
has-sort d [] = refl
has-sort d (a ∷ l) = ground (arith, has-insert d a (sort_domains l), has-sort d l)

shorter_only :
    (p : Bytes) (n : ℕ) (l : List Bytes)
    → All (λ e. length e ≤ n) l
    → All (λ e. covers p e ≡ true → length e ≤ n) l
shorter_only p n [] h = tt
shorter_only p n (e ∷ l) (he, hs) = ((λ _. he), shorter_only p n l hs)

first_cover-Longest : (p : Bytes) (l : List Bytes) → Descending l → Longest p l (first_cover p l)
unfolding first_cover any
first_cover-Longest p [] h = tt
first_cover-Longest p (d ∷ l) (hd, hs) = elim (Bool-cases (covers p d)) [
  | inl e ↦
      rw e (ground (arith, eqb_iff d d), e, ((λ _. omega arith), shorter_only p (length d) l hd))
  | inr e ↦ rw e (later e (first_cover p l) (first_cover-Longest p l hs))
]
  where
    later : covers p d ≡ false → (o : Option Bytes) → Longest p l o → Longest p (d ∷ l) o
    later e none h = (e, h)
    later e (some f) (h, c, g) = (ground (arith, h), c, ((λ t. ground (arith, e, t)), g))

unsorted :
    (p : Bytes) (l : List Bytes) (o : Option Bytes) → Longest p (sort_domains l) o → Longest p l o
unsorted p l none h = All-unsort (λ d. covers p d ≡ false) l h
unsorted p l (some d) (h, c, g) =
    (sym (has-sort d l) ∙ h, c, All-unsort (λ e. covers p e ≡ true → length e ≤ length d) l g)

-- By the parts of the text: the domain is one of the domains, equals a part of the text, the case of letters
-- aside, and no other domain that does is longer; or no domain equals a part.
abbrev pub IsLongest : Bytes → List Bytes → Option Bytes → Type 0
IsLongest p domains none = All (λ d. IsPart p d → ⊥) domains
IsLongest p domains (some d) =
    (has_domain d domains ≡ true) × IsPart p d × All (λ e. IsPart p e → length e ≤ length d) domains

no-IsPart :
    (p : Bytes) (domains : List Bytes)
    → All (λ d. covers p d ≡ false) domains
    → All (λ d. IsPart p d → ⊥) domains
no-IsPart p [] h = tt
no-IsPart p (d ∷ domains) (hd, hs) =
    ((λ i. ground (arith, IsPart-covers p d i, hd)), no-IsPart p domains hs)

shorter-IsPart :
    (p : Bytes) (n : ℕ) (domains : List Bytes)
    → All (λ e. covers p e ≡ true → length e ≤ n) domains
    → All (λ e. IsPart p e → length e ≤ n) domains
shorter-IsPart p n [] h = tt
shorter-IsPart p n (d ∷ domains) (hd, hs) =
    ((λ i. hd (IsPart-covers p d i)), shorter-IsPart p n domains hs)

by_parts :
    (p : Bytes) (domains : List Bytes) (o : Option Bytes)
    → Longest p domains o
    → IsLongest p domains o
by_parts p domains none h = no-IsPart p domains h
by_parts p domains (some d) (h, c, s) =
    (h, covers-IsPart p d c, shorter-IsPart p (length d) domains s)

-- The search finds the credentials of a domain that equals a part of the text, the case of letters aside,
-- and than which no domain that does is longer; it finds none only if no domain equals a part. A domain is
-- compared as it is, with no shell patterns.
pub find_creds-IsLongest {ℓ} :
    {V : Type ℓ} (cr : Dict V) (p : Bytes) → IsLongest p (keys cr) (find_creds cr p)
unfolding find_creds
find_creds-IsLongest cr p = by_parts p (keys cr) (find_creds cr p) (
    unsorted p (keys cr) (first_cover p (sort_domains (keys cr)))
      (first_cover-Longest p (sort_domains (keys cr)) (sort_domains-Descending (keys cr))))
