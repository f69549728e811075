-- ===== src/Config/Names.antt =====
-- The names that getContents finds (pkg/config/internal.go).
use cordial.Common.{
  Bool-cases, inl, inr, sym, ◌∙◌, ==_iff, ℕ, zero, suc, ◌+◌, ◌≡◌, ◌≢◌, refl, true, false, Bytes, [],
  ◌∷◌, ◌++◌, ◌==◌, arith, length, append_assoc, append-nil,
}
use cordial.Config.Contents.{finish, scan, get_contents, closes}

-- The text has a name in front, found from the given depth behind what was read already.
abbrev Found : Bytes → ℕ → Bytes → Bytes → ℕ → Type 0
Found s depth name found w =
    (inner : Bytes) × (rest : Bytes) × (s ≡ inner ++ (b'}' ∷ rest))
    × (found ≡ name ++ inner)
    × (w ≡ length found + 2)
    × (closes inner depth ≡ true)

extend :
    (pre s : Bytes) (depth depth' : ℕ) (name found : Bytes) (w : ℕ)
    → ((inner : Bytes) → closes inner depth' ≡ true → closes (pre ++ inner) depth ≡ true)
    → Found s depth' (name ++ pre) found w
    → Found (pre ++ s) depth name found w
extend pre s depth depth' name found w f (inner, rest, e, g, l, k) = (
  pre ++ inner,
  rest,
  rw e (sym (append_assoc pre inner (b'}' ∷ rest))),
  g ∙ append_assoc name pre inner,
  l,
  f inner k,
)

closes_plain :
    (c depth : ℕ) (inner : Bytes)
    → (c == b'\\') ≡ false
    → (c == b'{') ≡ false
    → (c == b'}') ≡ false
    → closes inner depth ≡ true
    → closes (c ∷ inner) depth ≡ true
closes_plain c depth [] h k l m = ground arith
closes_plain c depth (d ∷ s) h k l m = rw (h, k, l) m

closes_open :
    (c depth : ℕ) (inner : Bytes)
    → (c == b'{') ≡ true
    → closes inner (suc depth) ≡ true
    → closes (c ∷ inner) depth ≡ true
closes_open c depth [] k m = ground arith
closes_open c depth (d ∷ s) k m = rw ((==_iff c b'{').0 k) m

closes_close :
    (c depth : ℕ) (inner : Bytes)
    → (c == b'}') ≡ true
    → closes inner depth ≡ true
    → closes (c ∷ inner) (suc depth) ≡ true
closes_close c depth [] k m = ground arith
closes_close c depth (d ∷ s) k m = rw ((==_iff c b'}').0 k) m

finish_sound :
    (name found : Bytes) (w : ℕ)
    → finish name ≡ (found, w)
    → found ≢ []
    → (found ≡ name) × (w ≡ length found + 2)
finish_sound [] found w h n = absurd (n (cc))
finish_sound (c ∷ name) found w h n = ground arith

Found-at_brace :
    (c : ℕ) (rest name found : Bytes) (w : ℕ)
    → (c == b'}') ≡ true
    → finish name ≡ (found, w)
    → found ≢ []
    → Found (c ∷ rest) zero name found w
Found-at_brace c rest name found w e h n =
    let (g, l) = finish_sound name found w h n in
    ([], rest, rw ((==_iff c b'}').0 e), g ∙ sym (append-nil name), l, refl)

-- What the loop returns when it finds the brace.
scan_sound :
    (s : Bytes) (depth : ℕ) (name found : Bytes) (w : ℕ)
    → scan s depth name ≡ (found, w)
    → found ≢ []
    → Found s depth name found w
unfolding scan
scan_sound [] depth name found w h n = absurd (n (cc))
scan_sound (c ∷ []) zero name found w h n = elim (Bool-cases (c == b'}')) [
  | inl e ↦ Found-at_brace c [] name found w e (rw e at h) n
  | inr e ↦ absurd (n (ground arith))
]
scan_sound (c ∷ []) (suc d) name found w h n = absurd (n (ground arith))
scan_sound (c ∷ d ∷ s) zero name found w h n = elim (Bool-cases (c == b'\\')) [
  | inl e ↦
      extend (c ∷ d ∷ []) s zero zero name found w (λ inner k. rw ((==_iff c b'\\').0 e) k)
        (scan_sound s zero (name ++ c ∷ d ∷ []) found w (rw e at h) n)
  | inr e ↦ elim (Bool-cases (c == b'{')) [
    | inl f ↦
        extend (c ∷ []) (d ∷ s) zero 1 name found w (λ inner. closes_open c zero inner f)
          (scan_sound (d ∷ s) 1 (name ++ c ∷ []) found w (rw (e, f) at h) n)
    | inr f ↦ elim (Bool-cases (c == b'}')) [
      | inl g ↦ Found-at_brace c (d ∷ s) name found w g (rw (e, f, g) at h) n
      | inr g ↦
          extend (c ∷ []) (d ∷ s) zero zero name found w (λ inner. closes_plain c zero inner e f g)
            (scan_sound (d ∷ s) zero (name ++ c ∷ []) found w (rw (e, f, g) at h) n)
    ]
  ]
]
scan_sound (c ∷ d ∷ s) (suc k) name found w h n = elim (Bool-cases (c == b'\\')) [
  | inl e ↦
      extend (c ∷ d ∷ []) s (suc k) (suc k) name found w (λ inner m. rw ((==_iff c b'\\').0 e) m)
        (scan_sound s (suc k) (name ++ c ∷ d ∷ []) found w (rw e at h) n)
  | inr e ↦ elim (Bool-cases (c == b'{')) [
    | inl f ↦
        extend (c ∷ []) (d ∷ s) (suc k) (suc (suc k)) name found w
          (λ inner. closes_open c (suc k) inner f)
          (scan_sound (d ∷ s) (suc (suc k)) (name ++ c ∷ []) found w (rw (e, f) at h) n)
    | inr f ↦ elim (Bool-cases (c == b'}')) [
      | inl g ↦
          extend (c ∷ []) (d ∷ s) (suc k) k name found w (λ inner. closes_close c k inner g)
            (scan_sound (d ∷ s) k (name ++ c ∷ []) found w (rw (e, f, g) at h) n)
      | inr g ↦
          extend (c ∷ []) (d ∷ s) (suc k) (suc k) name found w
            (λ inner. closes_plain c (suc k) inner e f g)
            (scan_sound (d ∷ s) (suc k) (name ++ c ∷ []) found w (rw (e, f, g) at h) n)
    ]
  ]
]

-- A name that getContents returns is followed by a closing brace in the text, closes what it opens,
-- and comes with the number of bytes from the opening brace to the closing one.
get_contents_sound :
    (c : ℕ) (s name : Bytes) (w : ℕ)
    → get_contents c s ≡ (name, w)
    → name ≢ []
    → (c ≡ b'{')
      × ((rest : Bytes) × (s ≡ name ++ (b'}' ∷ rest)))
      × (w ≡ length name + 2)
      × (closes name 0 ≡ true)
unfolding get_contents
get_contents_sound c s name w h n = elim (Bool-cases (c == b'{')) [
  | inl e ↦
      let (inner, rest, a, b, l, k) = scan_sound s 0 [] name w (rw e at h) n in
      ((==_iff c b'{').0 e, (rest, rw b a), l, rw b k)
  | inr e ↦ absurd (n (ground arith))
]
