-- ===== src/Instance/Ends.antt =====
-- The end of NextFreePort, and what the wrap of its counter does
-- (tools/geneos/internal/instance/network.go).
use Prim.Native.Nat.{◌%◌}
use cordial.Common.{
  ℕ, zero, suc, ◌+◌, ◌-◌, ◌≤◌, ◌<◌, ◌≡◌, ◌≢◌, ◌⊎◌, refl, sym, ap, ◌∙◌, true, false, Option, none,
  some, List, Bytes, [], ◌∷◌, if◌then◌else◌, leb, arith, Bool-cases, inl, inr, codes, eqb,
}
use cordial.Text.{split}
use cordial.Text.Number.{Int64, plus, minus, parse_int}
use cordial.Instance.Ports.{
  in_use, Part, passed_over, range, single, free, exhausted, unending, scan, search_part,
  first_free, port_of, range_part, single_part, cut_range, read_part, read_parts, next_free_port,
}
use cordial.Instance.Free.{found_or, first_free_step}

-- The loop comes to port 0 at the latest, if it does not end before.
scan_ends :
    (used : List ℕ) (max i fuel : ℕ)
    → in_use 0 used ≡ false
    → i < 65536
    → (i ≡ 0) ⊎ (65536 - i < fuel)
    → 0 < fuel
    → scan used max i fuel ≢ unending
unfolding scan
scan_ends used max i zero h b e f = absurd (omega arith)
scan_ends used max zero (suc fuel) h b e f = ground arith
scan_ends used max (suc i) (suc fuel) h b e f =
    ground (arith, scan_ends used max ((suc i + 1) % 65536) fuel h)

abbrev IsPort : Part → Type 0
IsPort passed_over = Unit
IsPort (range min max) = min < 65536
IsPort (single p) = p < 65536

port_of-IsPort : (n : Int64) → port_of n < 65536
unfolding port_of
port_of-IsPort (plus n) = ground arith
port_of-IsPort (minus n) = ground arith

range_part-IsPort : (start end : Option Int64) → IsPort (range_part start end)
range_part-IsPort none end = tt
range_part-IsPort (some start) none = tt
range_part-IsPort (some start) (some (minus max)) = tt
range_part-IsPort (some start) (some (plus max)) = elim (Bool-cases (leb max (port_of start))) [
  | inl e ↦ rw e tt
  | inr e ↦ rw e (port_of-IsPort start)
]

read_part-IsPort : (p : Bytes) → IsPort (read_part p)
unfolding read_part
read_part-IsPort p =
    elim (cut_range p)
      as (λ o. IsPort (elim o as (λ _. Part) [
        | none ↦ single_part (parse_int p)
        | some (start, end) ↦
            range_part (parse_int start) (parse_int (if eqb end [] then codes "49151" else end))
      ])) [
        | none ↦ single_port (parse_int p)
        | some (start, end) ↦
            range_part-IsPort (parse_int start)
              (parse_int (if eqb end [] then codes "49151" else end))
      ]
  where
    single_port : (o : Option Int64) → IsPort (single_part o)
    single_port none = tt
    single_port (some n) = port_of-IsPort n

search_part-ends :
    (used : List ℕ) (p : Part) → in_use 0 used ≡ false → IsPort p → search_part used p ≢ unending
unfolding search_part
search_part-ends used passed_over h b = ground arith
search_part-ends used (range min max) h b =
    scan_ends used max min 65536 h b (omega arith) (omega arith)
search_part-ends used (single p) h b = ground arith

first_free-ends :
    (used : List ℕ) (texts : List Bytes)
    → in_use 0 used ≡ false
    → first_free used (read_parts texts) ≢ none
unfolding first_free read_parts
first_free-ends used [] h e = ground (arith, e)
first_free-ends used (p ∷ texts) h e =
    elim (search_part used (read_part p))
        as (λ s. s ≢ unending → found_or s (first_free used (read_parts texts)) ≢ none) [
          | free port ↦ λ _. λ g. ground (arith, g)
          | exhausted ↦ λ _. λ g. first_free-ends used texts h g
          | unending ↦ λ n. absurd (n refl)
        ]
      (search_part-ends used (read_part p) h (read_part-IsPort p))
      (sym (first_free_step used (read_part p) (read_parts texts)) ∙ e)

-- The search for a port ends, whatever the configured range is, if port 0 is not used.
pub next_free_port-ends :
    (used : List ℕ) (from : Bytes) → in_use 0 used ≡ false → next_free_port used from ≢ none
unfolding next_free_port
next_free_port-ends used from h = first_free-ends used (split b',' from) h

-- All the ports from the first to 65535 are used.
abbrev pub IsFull : List ℕ → ℕ → Type 0
IsFull used min = (p : ℕ) → min ≤ p → p < 65536 → in_use p used ≡ true

scan_wraps :
    (used : List ℕ) (max i n fuel : ℕ)
    → 65535 ≤ max
    → i + n ≡ 65535
    → n + 1 < fuel
    → in_use 0 used ≡ false
    → IsFull used i
    → scan used max i fuel ≡ free 0
unfolding scan
scan_wraps used max i n zero b e f z h = absurd (omega arith)
scan_wraps used max i zero (suc zero) b e f z h = absurd (omega arith)
scan_wraps used max i zero (suc (suc fuel)) b e f z h = ground (arith, h i, z)
scan_wraps used max i (suc n) (suc fuel) b e f z h = ground (
  arith,
  h i,
  scan_wraps used max (i + 1) n fuel b (omega arith) (omega arith) z (λ p l u. h p (omega arith) u),
)

-- A range that goes up to the last port and whose ports are all used ends the search: the counter wraps
-- around to port 0, which is not used and is returned as if there were no free port, whatever the parts
-- after it are.
pub first_free-wraps :
    (used : List ℕ) (min max : ℕ) (parts : List Part)
    → 65535 ≤ max
    → 0 < min
    → min < 65536
    → in_use 0 used ≡ false
    → IsFull used min
    → first_free used (range min max ∷ parts) ≡ some 0
unfolding search_part
first_free-wraps used min max parts b m l z h =
    first_free_step used (range min max) parts
    ∙ ap (λ s. found_or s (first_free used parts))
        (scan_wraps used max min (65535 - min) 65536 b (omega arith) (omega arith) z h)
