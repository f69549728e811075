-- ===== src/Config/Pieces.antt =====
-- What replaceStringParam does to a text of literals and variables (pkg/config/internal.go).
use mathlib.Core.Path.{ap₂}
use cordial.Common.{
  ℕ, zero, suc, ◌+◌, ◌-◌, ◌<◌, ◌≤◌, ◌≡◌, ◌≢◌, refl, ap, ◌∙◌, sym, true, false, none, some, List,
  Bytes, codes, [], ◌∷◌, ◌++◌, ltb, arith, All, All-append, length, length-append, take, drop,
  take-append, drop-append, append_assoc,
}
use cordial.Text.{cut_prefix, cut, has_prefix, contains, index, replace_all}
use cordial.Config.Replace.{done, panic, reference, replace_loop, replace_one}

-- Text with no dollar sign and no closing brace.
abbrev pub Simple : ℕ → Type 0
Simple c = (c ≢ b'$') × (c ≢ b'}')

index-open :
    (t rest : Bytes)
    → All (λ c. c ≢ b'$') t
    → index (codes "${") (t ++ (codes "${" ++ rest)) ≡ some (length t)
unfolding index has_prefix cut_prefix
index-open [] rest h = refl
index-open (c ∷ t) rest (hc, ht) = ground (arith, index-open t rest ht)

index-close :
    (t rest : Bytes)
    → All (λ c. c ≢ b'}') t
    → index (codes "}") (t ++ (b'}' ∷ rest)) ≡ some (length t)
unfolding index has_prefix cut_prefix
index-close [] rest h = refl
index-close (c ∷ t) rest (hc, ht) = ground (arith, index-close t rest ht)

index-open-none : (t : Bytes) → All (λ c. c ≢ b'$') t → index (codes "${") t ≡ none
unfolding index has_prefix cut_prefix
index-open-none [] h = refl
index-open-none (c ∷ t) (hc, ht) = ground (arith, index-open-none t ht)

contains-open : (t rest : Bytes) → contains (codes "${") (t ++ (codes "${" ++ rest)) ≡ true
unfolding contains cut cut_prefix
contains-open [] rest = refl
contains-open (c ∷ t) rest = ground (arith, contains-open t rest)

Simple-NoDollar : (t : Bytes) → All Simple t → All (λ c. c ≢ b'$') t
Simple-NoDollar [] h = tt
Simple-NoDollar (c ∷ t) (hc, ht) = (hc.0, Simple-NoDollar t ht)

Simple-NoBrace : (t : Bytes) → All Simple t → All (λ c. c ≢ b'}') t
Simple-NoBrace [] h = tt
Simple-NoBrace (c ∷ t) (hc, ht) = (hc.1, Simple-NoBrace t ht)

loop_panics :
    (fuel : ℕ) (sub ref new_value remaining : Bytes) (start end : ℕ)
    → index (codes "${") remaining ≡ some start
    → index (codes "}") remaining ≡ some end
    → end + 1 < start
    → replace_loop (suc fuel) sub ref new_value remaining ≡ panic
unfolding replace_loop
loop_panics fuel sub ref new_value remaining start end e f h =
    let g : ltb (end + 1) start ≡ true = ground arith in rw (e, f, g, replace_loop)

loop_round :
    (fuel : ℕ) (sub ref new_value remaining : Bytes) (start end : ℕ)
    → index (codes "${") remaining ≡ some start
    → index (codes "}") remaining ≡ some end
    → ltb (end + 1) start ≡ false
    → replace_loop (suc fuel) sub ref new_value remaining
      ≡ replace_loop fuel sub ref
          (new_value
            ++ (replace_all sub ref (take start remaining)
                ++ take (end + 1 - start) (drop start remaining)))
          (drop (end + 1) remaining)
unfolding replace_loop
loop_round fuel sub ref new_value remaining start end e f g = rw (e, f, g, replace_loop)

positive : (s : Bytes) → s ≢ [] → 0 < length s
positive [] h = absurd (h refl)
positive (c ∷ s) h = omega arith

-- A closing brace that stands before the first `${`, with text between the two, ends in a panic,
-- whatever the item and whatever follows. The text before the brace has no dollar sign and no
-- closing brace, and that between the two has no dollar sign.
stray_brace_panics :
    (r sub before between rest : Bytes)
    → All Simple before
    → All (λ c. c ≢ b'$') between
    → between ≢ []
    → replace_one r sub (before ++ (b'}' ∷ (between ++ (codes "${" ++ rest)))) ≡ panic
unfolding replace_one
stray_brace_panics r sub before between rest hb hm n =
    let head : Bytes = before ++ (b'}' ∷ between) in
    let tail : Bytes = codes "${" ++ rest in
    let whole : Bytes = before ++ (b'}' ∷ (between ++ tail)) in
    let split : head ++ tail ≡ whole = append_assoc before (b'}' ∷ between) tail in
    let no_dollar : All (λ c. c ≢ b'$') head =
      All-append (λ c. c ≢ b'$') before (b'}' ∷ between) (Simple-NoDollar before hb)
        (omega arith, hm) in
    let inside : contains (codes "${") whole ≡ true =
      ap (contains (codes "${")) (sym split) ∙ contains-open head rest in
    rw inside (
      loop_panics (length whole) sub (reference r) [] whole (length head) (length before)
        (ap (index (codes "${")) (sym split) ∙ index-open head rest no_dollar)
        (index-close before (between ++ tail) (Simple-NoBrace before hb))
        (omega (arith, length-append before (b'}' ∷ between), positive between n)))

-- A text of literals, each followed by a variable, and a tail with no dollar sign.
abbrev pub pieces : List (Bytes × Bytes) → Bytes → Bytes
pieces [] tail = tail
pieces ((t, n) ∷ ps) tail = t ++ (codes "${" ++ (n ++ (b'}' ∷ pieces ps tail)))

abbrev pub replaced : Bytes → Bytes → List (Bytes × Bytes) → Bytes → Bytes
replaced sub ref [] tail = tail
replaced sub ref ((t, n) ∷ ps) tail =
    replace_all sub ref t ++ (codes "${" ++ (n ++ (b'}' ∷ replaced sub ref ps tail)))

abbrev pub ArePieces : List (Bytes × Bytes) → Type 0
ArePieces [] = Unit
ArePieces ((t, n) ∷ ps) = All Simple t × All (λ c. c ≢ b'}') n × ArePieces ps

length-pieces : (ps : List (Bytes × Bytes)) (tail : Bytes) → length ps ≤ length (pieces ps tail)
length-pieces [] tail = omega arith
length-pieces ((t, n) ∷ ps) tail = omega (
  arith,
  length-append t (codes "${" ++ (n ++ (b'}' ∷ pieces ps tail))),
  length-append n (b'}' ∷ pieces ps tail),
  length-pieces ps tail,
)

-- One round of the loop.
replace_loop-step :
    (fuel : ℕ) (sub ref new_value t n rest : Bytes)
    → All Simple t
    → All (λ c. c ≢ b'}') n
    → replace_loop (suc fuel) sub ref new_value (t ++ (codes "${" ++ (n ++ (b'}' ∷ rest))))
      ≡ replace_loop fuel sub ref
          (new_value ++ (replace_all sub ref t ++ (codes "${" ++ (n ++ b'}' ∷ []))))
          rest
replace_loop-step fuel sub ref new_value t n rest ht hn =
    let var : Bytes = codes "${" ++ (n ++ b'}' ∷ []) in
    let body : Bytes = t ++ (codes "${" ++ n) in
    let whole : Bytes = t ++ (codes "${" ++ (n ++ (b'}' ∷ rest))) in
    let by_body : body ++ (b'}' ∷ rest) ≡ whole = append_assoc t (codes "${" ++ n) (b'}' ∷ rest) in
    let closed : All (λ c. c ≢ b'}') body =
      All-append (λ c. c ≢ b'}') t (codes "${" ++ n) (Simple-NoBrace t ht)
        (omega arith, (omega arith, hn)) in
    let e = index-open t (n ++ (b'}' ∷ rest)) (Simple-NoDollar t ht) in
    let f : index (codes "}") whole ≡ some (length body) =
      ap (index (codes "}")) (sym by_body) ∙ index-close body rest closed in
    let g : ltb (length body + 1) (length t) ≡ false =
      ground (arith, length-append t (codes "${" ++ n)) in
    let width : length body + 1 - length t ≡ length var =
      omega (arith, length-append t (codes "${" ++ n), length-append n (b'}' ∷ [])) in
    let consumed : length body + 1 ≡ length (body ++ b'}' ∷ []) =
      omega (arith, length-append body (b'}' ∷ [])) in
    let taken : take (length body + 1 - length t) (drop (length t) whole) ≡ var =
      ap₂ take width (
        drop-append t (codes "${" ++ (n ++ (b'}' ∷ rest)))
        ∙ ap (λ s. codes "${" ++ s) (sym (append_assoc n (b'}' ∷ []) rest)))
      ∙ take-append var rest in
    let left : drop (length body + 1) whole ≡ rest =
      ap₂ drop consumed (sym by_body ∙ sym (append_assoc body (b'}' ∷ []) rest))
      ∙ drop-append (body ++ b'}' ∷ []) rest in
    loop_round fuel sub ref new_value whole (length t) (length body) e f g
    ∙ ap₂ (λ u r. replace_loop fuel sub ref (new_value ++ u) r)
        (ap₂ (λ a b. replace_all sub ref a ++ b) (take-append t _) taken) left

replace_loop-pieces :
    (fuel : ℕ) (sub ref new_value : Bytes) (ps : List (Bytes × Bytes)) (tail : Bytes)
    → length ps < fuel
    → ArePieces ps
    → All (λ c. c ≢ b'$') tail
    → replace_loop fuel sub ref new_value (pieces ps tail)
      ≡ done (new_value ++ replaced sub ref ps tail)
unfolding replace_loop
replace_loop-pieces zero sub ref new_value ps tail h hp ht = absurd (omega arith)
replace_loop-pieces (suc fuel) sub ref new_value [] tail h hp ht =
    rw (index-open-none tail ht, replace_loop)
replace_loop-pieces (suc fuel) sub ref new_value ((t, n) ∷ ps) tail h (hs, hn, hp) ht =
    replace_loop-step fuel sub ref new_value t n (pieces ps tail) hs hn
    ∙ (replace_loop-pieces fuel sub ref _ ps tail (omega arith) hp ht ∙ ap done (simp append_assoc))

-- In a text of one or more literals, each followed by a variable, and a tail with no dollar sign,
-- the value of the item is replaced in every literal. The variables are kept, and so is the tail:
-- there nothing is replaced. The literals have no dollar sign and no closing brace, and the names
-- of the variables no closing brace.
replace_one-pieces :
    (r sub : Bytes) (p : Bytes × Bytes) (ps : List (Bytes × Bytes)) (tail : Bytes)
    → ArePieces (p ∷ ps)
    → All (λ c. c ≢ b'$') tail
    → replace_one r sub (pieces (p ∷ ps) tail) ≡ done (replaced sub (reference r) (p ∷ ps) tail)
unfolding replace_one
replace_one-pieces r sub (t, n) ps tail h ht = rw (contains-open t (n ++ (b'}' ∷ pieces ps tail))) (
    replace_loop-pieces (suc (length (pieces ((t, n) ∷ ps) tail))) sub (reference r) []
      ((t, n) ∷ ps) tail (omega (arith, length-pieces ((t, n) ∷ ps) tail)) h ht)
