-- ===== src/Config/Folded.antt =====
-- A text that contains another one, the case of letters aside (pkg/config/credentials.go).
use mathlib.Core.Path.{ap₂}
use cordial.Common.{
  ◌≡◌, ◌∙◌, refl, sym, ap, true, some, Bytes, [], ◌∷◌, ◌++◌, map, arith, is_some, Option-cases, inl,
  inr, eqb_iff,
}
use cordial.Text.{cut, cut_prefix, contains}
use cordial.Text.Cut.{shift-is_some, cut-later, contains-part}
use cordial.Components.{fold_byte, equal_fold}
use cordial.Config.Credentials.{covers, to_lower}

-- Some part of the text equals the domain, the case of letters aside.
abbrev pub IsPart : Bytes → Bytes → Type 0
IsPart p d = (a : Bytes) × (m : Bytes) × (b : Bytes) × (p ≡ a ++ (m ++ b)) × (equal_fold m d ≡ true)

map-append : (a b : Bytes) → map fold_byte (a ++ b) ≡ map fold_byte a ++ map fold_byte b
map-append [] b = refl
map-append (c ∷ a) b = ap (λ l. fold_byte c ∷ l) (map-append a b)

-- The parts of a text whose lower-case form starts with, or contains, another one.
prefix_part :
    (d p r : Bytes)
    → cut_prefix d (map fold_byte p) ≡ some r
    → (m : Bytes) × (b : Bytes) × (p ≡ m ++ b) × (map fold_byte m ≡ d)
unfolding cut_prefix
prefix_part [] p r e = ([], p, refl, refl)
prefix_part (x ∷ d) [] r e = absurd (ground (arith, e))
prefix_part (x ∷ d) (c ∷ p) r e =
    let (same, rest) : (x ≡ fold_byte c) × (cut_prefix d (map fold_byte p) ≡ some r) =
      (ground (arith, e), ground (arith, e)) in
    let (m, b, q, f) = prefix_part d p r rest in
    (c ∷ m, b, ap (λ l. c ∷ l) q, ap₂ (λ h t. h ∷ t) (sym same) f)

part_of :
    (d p : Bytes)
    → contains d (map fold_byte p) ≡ true
    → (a : Bytes) × (m : Bytes) × (b : Bytes) × (p ≡ a ++ (m ++ b)) × (map fold_byte m ≡ d)
unfolding contains
part_of d [] e = ([], [], [], refl, empty_part d e)
  where
    empty_part : (d : Bytes) → is_some (cut d []) ≡ true → [] ≡ d
    empty_part [] e = refl
    empty_part (x ∷ d) e = absurd (ground (arith, e))
part_of d (c ∷ p) e = elim (Option-cases (cut_prefix d (map fold_byte (c ∷ p)))) [
  | inr (r, n) ↦ let (m, b, q, f) = prefix_part d (c ∷ p) r n in ([], m, b, q, f)
  | inl n ↦
      let (a, m, b, q, f) = part_of d p (
        sym (shift-is_some (fold_byte c) (cut d (map fold_byte p)))
        ∙ (sym (ap is_some (cut-later d (fold_byte c) (map fold_byte p) n)) ∙ e)) in
      (c ∷ a, m, b, ap (λ l. c ∷ l) q, f)
]

-- The test of the code finds exactly these parts.
pub covers-IsPart : (p d : Bytes) → covers p d ≡ true → IsPart p d
unfolding covers to_lower equal_fold
covers-IsPart p d e =
    let (a, m, b, q, f) = part_of (map fold_byte d) p e in
    (a, m, b, q, (eqb_iff (map fold_byte m) (map fold_byte d)).1 f)

pub IsPart-covers : (p d : Bytes) → IsPart p d → covers p d ≡ true
unfolding covers to_lower equal_fold
IsPart-covers p d (a, m, b, q, f) =
    ap (λ t. contains (map fold_byte d) (map fold_byte t)) q
    ∙ (ap (contains (map fold_byte d)) (
          map-append a (m ++ b)
          ∙ ap (λ t. map fold_byte a ++ t)
              (map-append m b
                ∙ ap (λ t. t ++ map fold_byte b)
                    ((eqb_iff (map fold_byte m) (map fold_byte d)).0 f)))
        ∙ contains-part (map fold_byte a) (map fold_byte d) (map fold_byte b))
