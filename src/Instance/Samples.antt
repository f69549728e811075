-- ===== src/Instance/Samples.antt =====
-- Searches for a free port, and the theorems about them at concrete inputs.
use cordial.Common.{
  ℕ, ◌≡◌, ◌≢◌, refl, false, some, none, List, Bytes, codes, eqb, [], ◌∷◌, arith, All, any,
}
use cordial.Text.{cut, cut_prefix, split, split_from}
use cordial.Text.Number.{parse_int, magnitude, decimal}
use cordial.Instance.Ports.{
  next_free_port, read_parts, read_part, first_free, search_part, scan, in_use, cut_range, port_of,
  range, single,
}
use cordial.Instance.Free.{first_unused}
use cordial.Instance.Documented.{
  Piece, one, span, onward, IsWritten, all_listed, next_free_port-first_unused,
}
use cordial.Instance.Ends.{next_free_port-ends, first_free-wraps, IsFull}

abbrev some_range : Bytes
some_range = codes "7036,7040-7042,x"

abbrev some_used : List ℕ
some_used = 7036 ∷ 7040 ∷ []

run_some_range : next_free_port some_used some_range ≡ some 7041
unfolding next_free_port read_parts read_part first_free search_part scan in_use cut_range port_of
    parse_int magnitude decimal cut cut_prefix split split_from eqb any
run_some_range = refl

abbrev first_piece : Piece
first_piece = one (codes "7036") 7036

abbrev more_pieces : List Piece
more_pieces = span (codes "7040") 7040 (codes "7042") 7042 ∷ onward (codes "7041") 7041 ∷ []

first_piece-IsWritten : IsWritten first_piece
unfolding parse_int magnitude decimal
first_piece-IsWritten = (ground arith, ground arith, refl, omega arith)

more_pieces-IsWritten : All IsWritten more_pieces
unfolding parse_int magnitude decimal
more_pieces-IsWritten = (
  (
    (ground arith, ground arith, refl, omega arith),
    (ground arith, ground arith, refl, omega arith),
  ),
  ((ground arith, ground arith, refl, omega arith), tt),
)

next_free_port-first_unused_example :
    next_free_port some_used (codes "7036,7040-7042,7041-")
    ≡ some (first_unused some_used (all_listed first_piece more_pieces))
next_free_port-first_unused_example =
    next_free_port-first_unused some_used first_piece more_pieces first_piece-IsWritten
      more_pieces-IsWritten

zero_free : in_use 0 some_used ≡ false
unfolding in_use any
zero_free = refl

next_free_port-ends_example : next_free_port some_used (codes "7040-70000") ≢ none
next_free_port-ends_example = next_free_port-ends some_used (codes "7040-70000") zero_free

abbrev last_used : List ℕ
last_used = 65534 ∷ 65535 ∷ []

last_zero_free : in_use 0 last_used ≡ false
unfolding in_use any
last_zero_free = refl

last-IsFull : IsFull last_used 65534
unfolding in_use any
last-IsFull p l u = ground arith

first_free-wraps_example : first_free last_used (range 65534 65535 ∷ single 7036 ∷ []) ≡ some 0
first_free-wraps_example =
    first_free-wraps last_used 65534 65535 (single 7036 ∷ []) (omega arith) (omega arith)
      (omega arith) last_zero_free last-IsFull
