-- ===== src/Instance/Ports.antt =====
-- GetAllPorts, PortInUse, ByPort and NextFreePort (tools/geneos/internal/instance/network.go) on a host
-- that is not ALL. The instances of the host and its listening ports are arguments; a map of ports is
-- the list of its keys.
use Prim.Native.Nat.{◌%◌}
use cordial.Common.{
  ℕ, zero, suc, ◌+◌, ◌-◌, Bool, not, ◌&&◌, Option, none, some, List, Bytes, codes, eqb, [], ◌∷◌,
  ◌++◌, if◌then◌else◌, ltb, leb, ◌==◌, any,
}
use cordial.Text.{cut, split}
use cordial.Text.Number.{Int64, plus, minus, parse_int}

-- What is read of an instance: whether its configuration is loaded, and the port in it as an `int` and
-- as a `uint16`.
pub record Instance : Type 0 where
  pub name : Bytes
  pub is_loaded : Bool
  pub port : Int64
  pub port_uint16 : ℕ

-- uint16(v)
unfoldable pub uint16 : Int64 → ℕ
uint16 (plus n) = n % 65536
uint16 (minus n) = (65536 - n % 65536) % 65536

abbrev is_zero_int : Int64 → Bool
is_zero_int (plus n) = n == 0
is_zero_int (minus n) = n == 0

-- GetAllPorts: the ports of the instances that are loaded.
unfoldable pub configured_ports : List Instance → List ℕ
unfolding uint16
configured_ports [] = []
configured_ports (c ∷ instances) =
    let rest = configured_ports instances in
    if c.is_loaded && not (is_zero_int c.port) then uint16 c.port ∷ rest else rest

unfoldable pub listening_ports : List ℕ → List ℕ
listening_ports [] = []
listening_ports (v ∷ listening) = v % 65536 ∷ listening_ports listening

-- GetAllPorts; `none` is an error in the reading of the listening ports.
unfoldable pub all_ports : List Instance → Option (List ℕ) → List ℕ
unfolding configured_ports listening_ports
all_ports instances none = configured_ports instances
all_ports instances (some listening) = configured_ports instances ++ listening_ports listening

-- PortInUse
unfoldable pub in_use : ℕ → List ℕ → Bool
in_use port ports = any (λ p. p == port) ports

-- ByPort
unfoldable pub by_port : List Instance → ℕ → Option Instance
by_port [] port = none
by_port (c ∷ instances) port =
    let later = by_port instances port in
    if c.is_loaded && (not (c.port_uint16 == 0) && c.port_uint16 == port) then some c else later

-- One part of the configured range: a part that is passed over, a range, and a single port.
pub data Part : Type 0 where
  passed_over : Part
  range : (min : ℕ) (max : ℕ) → Part
  single : ℕ → Part

-- The lower bound and the single port: what is no port is 65535.
unfoldable pub port_of : Int64 → ℕ
port_of (plus n) = if ltb 65534 n then 65535 else n
port_of (minus n) = if n == 0 then 0 else 65535

abbrev pub bounded : ℕ → Int64 → Part
bounded min (plus max) = if leb max min then passed_over else range min max
bounded min (minus max) = passed_over

abbrev pub range_part : Option Int64 → Option Int64 → Part
range_part none _ = passed_over
range_part (some start) none = passed_over
range_part (some start) (some end) = bounded (port_of start) end

-- strings.Cut at `-`, or else at `..`.
unfoldable pub cut_range : Bytes → Option (Bytes × Bytes)
unfolding cut
cut_range p = elim (cut (codes "-") p) [ some parts ↦ some parts | none ↦ cut (codes "..") p ]

abbrev pub single_part : Option Int64 → Part
single_part none = passed_over
single_part (some start) = single (port_of start)

-- The body of the loop, without the search.
unfoldable pub read_part : Bytes → Part
unfolding cut_range port_of
read_part p = elim (cut_range p) [
  | none ↦ single_part (parse_int p)
  | some (start, end) ↦
      range_part (parse_int start) (parse_int (if eqb end [] then codes "49151" else end))
]

pub data Search : Type 0 where
  free : ℕ → Search
  exhausted unending : Search

-- The loop over a range, where the uint16 wraps around. A round of all 65536 ports that ends neither
-- way is repeated for ever.
unfoldable pub scan : List ℕ → (max : ℕ) → (i : ℕ) → (fuel : ℕ) → Search
unfolding in_use
scan used max i zero = unending
scan used max i (suc fuel) =
    let rest = scan used max ((i + 1) % 65536) fuel in
    if leb i max then (if in_use i used then rest else free i) else exhausted

unfoldable pub search_part : List ℕ → Part → Search
unfolding scan in_use
search_part used passed_over = exhausted
search_part used (range min max) = scan used max min 65536
search_part used (single p) = if in_use p used then exhausted else free p

-- The loop over the parts; `none` is a search that does not end.
unfoldable pub first_free : List ℕ → List Part → Option ℕ
unfolding search_part
first_free used [] = some 0
first_free used (p ∷ parts) = elim (search_part used p) [
  | free port ↦ some port
  | exhausted ↦ first_free used parts
  | unending ↦ none
]

unfoldable pub read_parts : List Bytes → List Part
unfolding read_part
read_parts [] = []
read_parts (p ∷ texts) = read_part p ∷ read_parts texts

-- NextFreePort, for the configured range.
unfoldable pub next_free_port : List ℕ → Bytes → Option ℕ
unfolding first_free read_parts split
next_free_port used from = first_free used (read_parts (split b',' from))
