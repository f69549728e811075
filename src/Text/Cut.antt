-- ===== src/Text/Cut.antt =====
-- strings.Cut at the first byte and at a later one, and strings.Split of texts with and without the
-- separator.
use cordial.Common.{
  ℕ, ◌≡◌, ◌∙◌, refl, ap, true, Option, none, some, Bytes, [], ◌∷◌, ◌++◌, is_some, Option-cases, inl,
  inr, ◌≢◌, All, arith, append_assoc, append-nil,
}
use cordial.Text.{cut, cut_prefix, contains, cut_prefix-append, split_from}

abbrev pub shift : ℕ → Option (Bytes × Bytes) → Option (Bytes × Bytes)
shift c none = none
shift c (some (a, r)) = some (c ∷ a, r)

pub cut-later :
    (p : Bytes) (c : ℕ) (s : Bytes)
    → cut_prefix p (c ∷ s) ≡ none
    → cut p (c ∷ s) ≡ shift c (cut p s)
unfolding cut
cut-later p c s e = rw (e, cut) (same (cut p s))
  where
    same :
        (o : Option (Bytes × Bytes))
        → (elim o as (λ _. Option (Bytes × Bytes)) [ some (a, r) ↦ some (c ∷ a, r) | none ↦ none ])
          ≡ shift c o
    same none = refl
    same (some (a, r)) = refl

pub cut-now :
    (p : Bytes) (c : ℕ) (s r : Bytes) → cut_prefix p (c ∷ s) ≡ some r → cut p (c ∷ s) ≡ some ([], r)
unfolding cut
cut-now p c s r e = rw (e, cut) refl

pub shift-is_some : (c : ℕ) (o : Option (Bytes × Bytes)) → is_some (shift c o) ≡ is_some o
shift-is_some c none = refl
shift-is_some c (some (a, r)) = refl

pub cut-begin : (p s : Bytes) → cut p (p ++ s) ≡ some ([], s)
unfolding cut
cut-begin [] [] = refl
cut-begin [] (c ∷ s) = refl
cut-begin (a ∷ p) s = rw (cut_prefix-append (a ∷ p) s, cut) refl

-- A text contains each of its parts.
pub contains-part : (x p y : Bytes) → contains p (x ++ (p ++ y)) ≡ true
unfolding contains
contains-part [] p y = ap is_some (cut-begin p y)
contains-part (c ∷ x) p y = elim (Option-cases (cut_prefix p (c ∷ (x ++ (p ++ y))))) [
  | inl n ↦
      ap is_some (cut-later p c (x ++ (p ++ y)) n)
      ∙ (shift-is_some c (cut p (x ++ (p ++ y))) ∙ contains-part x p y)
  | inr (r, n) ↦ ap is_some (cut-now p c (x ++ (p ++ y)) r n)
]

pub split_from-All :
    (sep : ℕ) (s cur : Bytes) → All (λ c. c ≢ sep) s → split_from sep s cur ≡ (cur ++ s) ∷ []
unfolding split_from
split_from-All sep [] cur h = rw append-nil refl
split_from-All sep (c ∷ s) cur (hc, hs) =
    ground (arith, split_from-All sep s (cur ++ c ∷ []) hs, append_assoc cur (c ∷ []) s)

pub split_from-line :
    (sep : ℕ) (a b cur : Bytes)
    → All (λ c. c ≢ sep) a
    → split_from sep (a ++ (sep ∷ b)) cur ≡ (cur ++ a) ∷ split_from sep b []
unfolding split_from
split_from-line sep [] b cur h = ground (arith, append-nil cur)
split_from-line sep (c ∷ a) b cur (hc, ha) =
    ground (arith, split_from-line sep a b (cur ++ c ∷ []) ha, append_assoc cur (c ∷ []) a)

pub All-weaken {κ μ} :
    (P : ℕ → Type κ) (Q : ℕ → Type μ) → ((c : ℕ) → P c → Q c) → (s : Bytes) → All P s → All Q s
All-weaken P Q f [] h = tt
All-weaken P Q f (c ∷ s) (hc, hs) = (f c hc, All-weaken P Q f s hs)
