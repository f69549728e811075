-- ===== src/Instance/Documented.antt =====
-- The texts of ranges that the comment on NextFreePort describes
-- (tools/geneos/internal/instance/network.go), and what is read of them.
use mathlib.Core.Path.{ap₂}
use cordial.Common.{
  ℕ, ◌+◌, ◌-◌, ◌<◌, ◌≡◌, ◌≢◌, refl, ap, ◌∙◌, false, none, some, List, Bytes, codes, eqb, eqb_iff,
  [], ◌∷◌, ◌++◌, if◌then◌else◌, ltb, arith, All, All-append,
}
use cordial.Text.{cut, cut_prefix, split}
use cordial.Text.Cut.{All-weaken, split_from-All, split_from-line}
use cordial.Text.Number.{plus, parse_int, magnitude, decimal}
use cordial.Instance.Ports.{
  Part, single, next_free_port, read_parts, read_part, cut_range, port_of, bounded,
}
use cordial.Instance.Free.{
  ports_from, ports_of, all_ports_of, first_unused, IsBounded, next_free_port-of_parts,
}

-- A single port, a range from a port to a port, and an open range, each with the digits that are
-- written for the port.
pub data Piece : Type 0 where
  one : (t : Bytes) (n : ℕ) → Piece
  span : (t : Bytes) (n : ℕ) (u : Bytes) (m : ℕ) → Piece
  onward : (t : Bytes) (n : ℕ) → Piece

abbrev pub text_of : Piece → Bytes
text_of (one t n) = t
text_of (span t n u m) = t ++ (b'-' ∷ u)
text_of (onward t n) = t ++ (b'-' ∷ [])

-- The pieces with commas between them.
abbrev pub range_text : Piece → List Piece → Bytes
range_text p [] = text_of p
range_text p (q ∷ pieces) = text_of p ++ (b',' ∷ range_text q pieces)

-- The ports that a piece stands for. A range whose first port is not below its last has none.
abbrev pub between : ℕ → ℕ → List ℕ
between n m = if ltb n m then ports_from n (m + 1 - n) else []

abbrev pub listed : Piece → List ℕ
listed (one t n) = n ∷ []
listed (span t n u m) = between n m
listed (onward t n) = between n 49151

abbrev pub all_listed : Piece → List Piece → List ℕ
all_listed p [] = listed p ++ []
all_listed p (q ∷ pieces) = listed p ++ all_listed q pieces

-- The bytes are those of a number: no comma, no dash, no dot.
abbrev pub IsFigure : ℕ → Type 0
IsFigure c = (c ≢ b',') × (c ≢ b'-') × (c ≢ b'.')

-- The text is read as the port, which is below 65535.
abbrev pub Writes : Bytes → ℕ → Type 0
Writes t n = All IsFigure t × (t ≢ []) × (parse_int t ≡ some (plus n)) × (n < 65535)

abbrev pub IsWritten : Piece → Type 0
IsWritten (one t n) = Writes t n
IsWritten (span t n u m) = Writes t n × Writes u m
IsWritten (onward t n) = Writes t n

text_of-NoComma : (p : Piece) → IsWritten p → All (λ c. c ≢ b',') (text_of p)
text_of-NoComma (one t n) h = All-weaken IsFigure (λ c. c ≢ b',') (λ c k. k.0) t h.0
text_of-NoComma (span t n u m) (h, k) =
    All-append (λ c. c ≢ b',') t (b'-' ∷ u) (All-weaken IsFigure (λ c. c ≢ b',') (λ c k. k.0) t h.0)
      (omega arith, All-weaken IsFigure (λ c. c ≢ b',') (λ c k. k.0) u k.0)
text_of-NoComma (onward t n) h =
    All-append (λ c. c ≢ b',') t (b'-' ∷ [])
      (All-weaken IsFigure (λ c. c ≢ b',') (λ c k. k.0) t h.0) (omega arith, tt)

abbrev pub texts_of : Piece → List Piece → List Bytes
texts_of p [] = text_of p ∷ []
texts_of p (q ∷ pieces) = text_of p ∷ texts_of q pieces

split-range_text :
    (p : Piece) (pieces : List Piece)
    → IsWritten p
    → All IsWritten pieces
    → split b',' (range_text p pieces) ≡ texts_of p pieces
unfolding split
split-range_text p [] h hs = split_from-All b',' (text_of p) [] (text_of-NoComma p h)
split-range_text p (q ∷ pieces) h (hq, hs) =
    split_from-line b',' (text_of p) (range_text q pieces) [] (text_of-NoComma p h)
    ∙ ap (λ l. text_of p ∷ l) (split-range_text q pieces hq hs)

cut_dash : (t u : Bytes) → All IsFigure t → cut (codes "-") (t ++ (b'-' ∷ u)) ≡ some (t, u)
unfolding cut cut_prefix
cut_dash [] u h = refl
cut_dash (c ∷ t) u (hc, hs) = ground (arith, cut_dash t u hs)

no_dash : (t : Bytes) → All IsFigure t → cut (codes "-") t ≡ none
unfolding cut cut_prefix
no_dash [] h = refl
no_dash (c ∷ t) (hc, hs) = ground (arith, no_dash t hs)

no_dots : (t : Bytes) → All IsFigure t → cut (codes "..") t ≡ none
unfolding cut cut_prefix
no_dots [] h = refl
no_dots (c ∷ t) (hc, hs) = ground (arith, no_dots t hs)

not_empty : (u : Bytes) → u ≢ [] → eqb u [] ≡ false
not_empty u h = ground (arith, eqb_iff u [])

port_of-below : (n : ℕ) → n < 65535 → port_of (plus n) ≡ n
unfolding port_of
port_of-below n h = ground arith

read_one : (t : Bytes) (n : ℕ) → Writes t n → read_part t ≡ single n
unfolding read_part cut_range
read_one t n (f, _, r, b) =
    rw (read_part, cut_range, no_dash t f, no_dots t f, r, port_of-below n b) refl

read_span :
    (t : Bytes) (n : ℕ) (u : Bytes) (m : ℕ)
    → Writes t n
    → Writes u m
    → read_part (t ++ (b'-' ∷ u)) ≡ bounded n (plus m)
unfolding read_part cut_range
read_span t n u m (f, _, r, b) (_, k, s, _) =
    rw (read_part, cut_range, cut_dash t u f, not_empty u k, r, s, port_of-below n b) refl

default_end : parse_int (if eqb [] [] then codes "49151" else []) ≡ some (plus 49151)
unfolding parse_int magnitude decimal eqb
default_end = refl

read_onward :
    (t : Bytes) (n : ℕ) → Writes t n → read_part (t ++ (b'-' ∷ [])) ≡ bounded n (plus 49151)
unfolding read_part cut_range
read_onward t n (f, _, r, b) =
    rw (read_part, cut_range, cut_dash t [] f, r, default_end, port_of-below n b) refl

-- A part is read as what has these ports and no range up to the last port.
abbrev HasPorts : List ℕ → Part → Type 0
HasPorts ports p = (ports_of p ≡ ports) × IsBounded p

bounded-HasPorts : (n m : ℕ) → m < 65535 → HasPorts (between n m) (bounded n (plus m))
bounded-HasPorts n m h = ground arith

read_part-HasPorts : (p : Piece) → IsWritten p → HasPorts (listed p) (read_part (text_of p))
read_part-HasPorts (one t n) h = rw (read_one t n h) (refl, tt)
read_part-HasPorts (span t n u m) (h, k) = rw (read_span t n u m h k) (bounded-HasPorts n m k.3)
read_part-HasPorts (onward t n) h = rw (read_onward t n h) (bounded-HasPorts n 49151 (omega arith))

read_parts_lem :
    (p : Piece) (pieces : List Piece)
    → IsWritten p
    → All IsWritten pieces
    → (all_ports_of (read_parts (texts_of p pieces)) ≡ all_listed p pieces)
      × All IsBounded (read_parts (texts_of p pieces))
unfolding read_parts
read_parts_lem p [] h hs = let (e, b) = read_part-HasPorts p h in (ap (λ l. l ++ []) e, (b, tt))
read_parts_lem p (q ∷ pieces) h (hq, hs) =
    let (e, b) = read_part-HasPorts p h in
    let (es, bs) = read_parts_lem q pieces hq hs in (ap₂ (λ k l. k ++ l) e es, (b, bs))

-- For a range that is written as the comment on NextFreePort says, the search returns the first port
-- that is not used, in the order of the parts, and 0 if there is none. The parts are single ports,
-- ranges from a first to a last port, both included, and open ranges, up to 49151, with `-` in them and
-- commas between them. A range or open range whose first port is not below its last has no port here,
-- so a range from a port to itself is passed over. Each port is written in digits that are read as it,
-- and is below 65535.
pub next_free_port-first_unused :
    (used : List ℕ) (p : Piece) (pieces : List Piece)
    → IsWritten p
    → All IsWritten pieces
    → next_free_port used (range_text p pieces) ≡ some (first_unused used (all_listed p pieces))
next_free_port-first_unused used p pieces h hs =
    let texts = split-range_text p pieces h hs in
    let (e, b) = read_parts_lem p pieces h hs in
    next_free_port-of_parts used (range_text p pieces) (rw texts b)
    ∙ ap (λ l. some (first_unused used l)) (ap (λ l. all_ports_of (read_parts l)) texts ∙ e)
