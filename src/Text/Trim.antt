-- ===== src/Text/Trim.antt =====
-- strings.TrimSpace leaves nothing more to trim.
use cordial.Common.{◌≡◌, refl, ap, ◌∙◌, Bytes, [], ◌∷◌, arith, length, ◌≤◌, Bool-cases, inl, inr}
use cordial.Text.{is_space, trim_start, trim_end, trim_space}

trim_start_twice : (s : Bytes) → trim_start (trim_start s) ≡ trim_start s
unfolding trim_start
trim_start_twice [] = refl
trim_start_twice (c ∷ s) = ground (arith, trim_start_twice s)

trim_end_twice : (s : Bytes) → trim_end (trim_end s) ≡ trim_end s
unfolding trim_end
trim_end_twice [] = refl
trim_end_twice (c ∷ s) = ground (arith, trim_end_twice s)

length-trim_start : (s : Bytes) → length (trim_start s) ≤ length s
unfolding trim_start
length-trim_start [] = omega arith
length-trim_start (c ∷ s) = ground (arith, length-trim_start s)

-- Dropping spaces at the end adds none at the start.
trim_start-trim_end : (s : Bytes) → trim_start s ≡ s → trim_start (trim_end s) ≡ trim_end s
unfolding trim_end trim_start
trim_start-trim_end [] h = refl
trim_start-trim_end (c ∷ s) h = elim (Bool-cases (is_space c)) [
  | inl e ↦ absurd (omega (arith, length-trim_start s, ap (λ t. length t) (rw e at h)))
  | inr e ↦ ground arith
]

pub trim_space_twice : (s : Bytes) → trim_space (trim_space s) ≡ trim_space s
unfolding trim_space
trim_space_twice s =
    ap trim_end (trim_start-trim_end (trim_start s) (trim_start_twice s))
    ∙ trim_end_twice (trim_start s)
