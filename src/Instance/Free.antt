-- ===== src/Instance/Free.antt =====
-- What NextFreePort returns (tools/geneos/internal/instance/network.go).
use cordial.Common.{
  ℕ, zero, suc, ◌+◌, ◌-◌, ◌<◌, ◌≡◌, refl, ap, ◌∙◌, Option, none, some, List, Bytes, [], ◌∷◌, ◌++◌,
  if◌then◌else◌, arith, All,
}
use cordial.Text.{split}
use cordial.Instance.Ports.{
  in_use, Part, passed_over, range, single, Search, free, exhausted, unending, scan, search_part,
  first_free, read_parts, next_free_port,
}

-- The ports i, i + 1 and so on, n of them.
abbrev pub ports_from : ℕ → ℕ → List ℕ
ports_from i zero = []
ports_from i (suc n) = i ∷ ports_from (i + 1) n

-- The ports of a part, in order, and those of all parts.
abbrev pub ports_of : Part → List ℕ
ports_of passed_over = []
ports_of (range min max) = ports_from min (max + 1 - min)
ports_of (single p) = p ∷ []

abbrev pub all_ports_of : List Part → List ℕ
all_ports_of [] = []
all_ports_of (p ∷ parts) = ports_of p ++ all_ports_of parts

-- The first that is not used, or 0.
abbrev pub first_unused : List ℕ → List ℕ → ℕ
first_unused used [] = 0
first_unused used (p ∷ ports) =
    let later = first_unused used ports in if in_use p used then later else p

abbrev pub found_or : Search → Option ℕ → Option ℕ
found_or (free p) o = some p
found_or exhausted o = o
found_or unending o = none

-- The part has no range up to the last port, where the loop does not end by its test.
abbrev pub IsBounded : Part → Type 0
IsBounded passed_over = Unit
IsBounded (range min max) = max < 65535
IsBounded (single p) = Unit

scan_lem :
    (used rest : List ℕ) (max i n fuel : ℕ)
    → max < 65535
    → n ≡ max + 1 - i
    → n < fuel
    → found_or (scan used max i fuel) (some (first_unused used rest))
      ≡ some (first_unused used (ports_from i n ++ rest))
unfolding scan
scan_lem used rest max i n zero b e f = absurd (omega arith)
scan_lem used rest max i zero (suc fuel) b e f = ground arith
scan_lem used rest max i (suc n) (suc fuel) b e f =
    ground (arith, scan_lem used rest max (i + 1) n fuel)

part_lem :
    (used rest : List ℕ) (p : Part)
    → IsBounded p
    → found_or (search_part used p) (some (first_unused used rest))
      ≡ some (first_unused used (ports_of p ++ rest))
unfolding search_part
part_lem used rest passed_over b = refl
part_lem used rest (range min max) b =
    scan_lem used rest max min (max + 1 - min) 65536 b refl (omega arith)
part_lem used rest (single p) b = ground arith

pub first_free_step :
    (used : List ℕ) (p : Part) (parts : List Part)
    → first_free used (p ∷ parts) ≡ found_or (search_part used p) (first_free used parts)
unfolding first_free
first_free_step used p parts =
    elim (search_part used p)
      as (λ s.
        (elim s as (λ _. Option ℕ) [
          | free port ↦ some port
          | exhausted ↦ first_free used parts
          | unending ↦ none
        ])
        ≡ found_or s (first_free used parts)) [
          | free port ↦ refl
          | exhausted ↦ refl
          | unending ↦ refl
        ]

first_free_lem :
    (used : List ℕ) (parts : List Part)
    → All IsBounded parts
    → first_free used parts ≡ some (first_unused used (all_ports_of parts))
unfolding first_free
first_free_lem used [] h = refl
first_free_lem used (p ∷ parts) (hp, hs) =
    first_free_step used p parts
    ∙ (ap (found_or (search_part used p)) (first_free_lem used parts hs)
        ∙ part_lem used (all_ports_of parts) p hp)

pub next_free_port-of_parts :
    (used : List ℕ) (from : Bytes)
    → All IsBounded (read_parts (split b',' from))
    → next_free_port used from
      ≡ some (first_unused used (all_ports_of (read_parts (split b',' from))))
unfolding next_free_port
next_free_port-of_parts used from h = first_free_lem used (read_parts (split b',' from)) h
