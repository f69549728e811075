-- ===== src/XPath/Attribute.antt =====
-- The predicates of a printed part, and what getAttr and getAttributes read in them
-- (pkg/geneos/xpath/xpath.go).
use cordial.Common.{
  ◌≡◌, refl, sym, ap, ◌∙◌, Option, none, some, Bytes, codes, [], ◌∷◌, ◌++◌, arith, All, All-append,
  append_assoc,
}
use cordial.Text.{cut_prefix, cut_prefix-append}
use cordial.Dict.{Dict}
use cordial.XPath.Quote.{quote}
use cordial.XPath.Print.{name_predicate, column_predicate, type_predicate, attribute_predicates}
use cordial.XPath.Component.{Plain, NotOpen, escape_text, escape_text-append, quote_body-escape}
use cordial.XPath.Scan.{take_until, enclosed, find_enclosed}

abbrev pub stop : Bytes
stop = codes "\")]"

abbrev pub start_of : Bytes → Bytes
start_of attr = codes "[(@" ++ (attr ++ codes "=\"")

-- What %q of plain text stands for once the escapes are removed.
abbrev pub quoted : Bytes → Bytes
quoted n = b'"' ∷ (n ++ b'"' ∷ [])

-- A predicate without its escapes.
unfoldable pub raw_name : Bytes → Bytes
raw_name [] = []
raw_name (c ∷ n) = codes "[(@name=" ++ (quoted (c ∷ n) ++ codes ")]")

unfoldable pub raw_column : Bytes → Bytes
raw_column [] = []
raw_column (c ∷ n) = codes "[(@column=" ++ (quoted (c ∷ n) ++ codes ")]")

unfoldable pub raw_type : Option Bytes → Bytes
raw_type none = []
raw_type (some t) = codes "[(@type=" ++ (quoted t ++ codes ")]")

unfoldable pub raw_attributes : Dict Bytes → Bytes
raw_attributes [] = []
raw_attributes ((k, v) ∷ m) =
    codes "[(attr(" ++ (quoted k ++ (codes ")=" ++ (quoted v ++ (codes ")]" ++ raw_attributes m))))

abbrev pub PlainKind : Option Bytes → Type 0
PlainKind none = Unit
PlainKind (some t) = All Plain t

abbrev PlainEntry : Bytes × Bytes → Type 0
PlainEntry (k, v) = All Plain k × All Plain v

abbrev pub PlainEntries : Dict Bytes → Type 0
PlainEntries = All PlainEntry

quote-escape : (n : Bytes) → All Plain n → quote n ≡ escape_text (quoted n)
unfolding quote escape_text
quote-escape n h = cc (quote_body-escape n h, escape_text-append n (b'"' ∷ []))

-- `open` and `close` stand for text without a backslash.
escape_predicate :
    (head tail n : Bytes)
    → All Plain n
    → escape_text head ≡ head
    → escape_text tail ≡ tail
    → head ++ (quote n ++ tail) ≡ escape_text (head ++ (quoted n ++ tail))
escape_predicate head tail n h e f = rw (
  escape_text-append head (quoted n ++ tail),
  escape_text-append (quoted n) tail,
  e,
  f,
  quote-escape n h,
)

pub name_predicate-escape : (n : Bytes) → All Plain n → name_predicate n ≡ escape_text (raw_name n)
unfolding name_predicate raw_name
name_predicate-escape [] h = unfold escape_text in refl
name_predicate-escape (c ∷ n) h =
    escape_predicate (codes "[(@name=") (codes ")]") (c ∷ n) h (unfold escape_text in refl)
      (unfold escape_text in refl)

pub column_predicate-escape :
    (n : Bytes) → All Plain n → column_predicate n ≡ escape_text (raw_column n)
unfolding column_predicate raw_column
column_predicate-escape [] h = unfold escape_text in refl
column_predicate-escape (c ∷ n) h =
    escape_predicate (codes "[(@column=") (codes ")]") (c ∷ n) h (unfold escape_text in refl)
      (unfold escape_text in refl)

pub type_predicate-escape :
    (t : Option Bytes) → PlainKind t → type_predicate t ≡ escape_text (raw_type t)
unfolding type_predicate raw_type
type_predicate-escape none h = unfold escape_text in refl
type_predicate-escape (some t) h =
    escape_predicate (codes "[(@type=") (codes ")]") t h (unfold escape_text in refl)
      (unfold escape_text in refl)

pub attribute_predicates-escape :
    (m : Dict Bytes) → PlainEntries m → attribute_predicates m ≡ escape_text (raw_attributes m)
unfolding attribute_predicates raw_attributes
attribute_predicates-escape [] h = unfold escape_text in refl
attribute_predicates-escape ((k, v) ∷ m) ((hk, hv), hm) =
    simp
      (
        escape_text-append,
        ← quote-escape k hk,
        ← quote-escape v hv,
        ← attribute_predicates-escape m hm,
      )
      (unfold escape_text in refl)

-- The lazy match stops at the first quotation mark.
pub take_until-Plain :
    (close n rest : Bytes)
    → All Plain n
    → take_until (b'"' ∷ close) (n ++ (b'"' ∷ (close ++ rest))) ≡ some (n, rest)
unfolding take_until
take_until-Plain close [] rest h = rw cut_prefix-append
take_until-Plain close (c ∷ n) rest (hc, hn) = ground (arith, take_until-Plain close n rest hn)

module _ (start end : Bytes) where
  -- Text with no opening bracket holds no match.
  pub find-skip :
      (skip rest : Bytes)
      → All NotOpen skip
      → find_enclosed (b'[' ∷ start) end (skip ++ rest) ≡ find_enclosed (b'[' ∷ start) end rest
  unfolding find_enclosed enclosed
  find-skip [] rest h = refl
  find-skip (c ∷ skip) rest (hc, hs) = ground (arith, find-skip skip rest hs)

  -- A bracket that does not begin a match.
  pub find-other :
      (s : Bytes)
      → cut_prefix start s ≡ none
      → find_enclosed (b'[' ∷ start) end (b'[' ∷ s) ≡ find_enclosed (b'[' ∷ start) end s
  unfolding find_enclosed enclosed cut_prefix
  find-other s h = rw h

pub Plain-NotOpen : (n : Bytes) → All Plain n → All NotOpen n
Plain-NotOpen [] h = tt
Plain-NotOpen (c ∷ n) (hc, hn) = (hc.4, Plain-NotOpen n hn)

pub quoted-NotOpen : (n : Bytes) → All Plain n → All NotOpen (quoted n)
quoted-NotOpen n h =
    (omega arith, All-append NotOpen n (b'"' ∷ []) (Plain-NotOpen n h) (omega arith))

pub find-here :
    (start close n rest : Bytes)
    → All Plain n
    → find_enclosed
        (b'[' ∷ start)
        (b'"' ∷ close)
        (b'[' ∷ (start ++ (n ++ (b'"' ∷ (close ++ rest)))))
      ≡ some n
unfolding find_enclosed enclosed cut_prefix
find-here start close n rest h =
    rw (cut_prefix-append start (n ++ (b'"' ∷ (close ++ rest))), take_until-Plain close n rest h)

pub predicate-NotOpen :
    (head n : Bytes)
    → All NotOpen head
    → All Plain n
    → All NotOpen (head ++ (quoted n ++ codes ")]"))
predicate-NotOpen head n hh h =
    All-append NotOpen head (quoted n ++ codes ")]") hh
      (All-append NotOpen (quoted n) (codes ")]") (quoted-NotOpen n h) (omega arith))

pub find-nil : (start end : Bytes) → find_enclosed start end [] ≡ none
unfolding find_enclosed
find-nil start end = refl

-- A quoted name in a predicate of another name, and what stands before the rest of the part.
module _ (start head n rest : Bytes) (h : All Plain n)
    (ne : cut_prefix start (head ++ ((quoted n ++ codes ")]") ++ rest)) ≡ none)
    (hh : All NotOpen head) where
  pub find-past :
      find_enclosed (b'[' ∷ start) stop (b'[' ∷ (head ++ ((quoted n ++ codes ")]") ++ rest)))
      ≡ find_enclosed (b'[' ∷ start) stop rest
  find-past =
      find-other start stop _ ne
      ∙ (ap (find_enclosed (b'[' ∷ start) stop)
            (sym (append_assoc head (quoted n ++ codes ")]") rest))
          ∙ find-skip start stop (head ++ (quoted n ++ codes ")]")) rest
              (predicate-NotOpen head n hh h))
