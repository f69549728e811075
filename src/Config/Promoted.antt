-- ===== src/Config/Promoted.antt =====
-- What stays in the settings after set, get with a legacy key, and deleteKey (pkg/config/internal.go).
use cordial.Common.{
  ◌≡◌, ◌≢◌, refl, ap, ◌∙◌, true, false, not, ◌||◌, none, some, List, Bytes, eqb, eqb_iff, [], ◌∷◌,
  ◌++◌, map, All, arith, Bool-cases, inl, inr,
}
use cordial.Config.Value.{Value, nil, deleted, str}
use cordial.Config.Options.{ExpandOptions}
use cordial.Config.Expand.{World, expand, unexpanded}
use cordial.Config.Replace.{
  Outcome, done, panic, out_of_fuel, replace_string_param, replace_string_param-ends,
}
use cordial.Config.Store.{
  Viper, Stored, stored, unfinished, world, is_set, delete_key, get_expanded, fallback, get_own,
  stored_as, set_string, moved, promote, get_string, lookup_string,
}

-- What viper documents: a key has the value that was set last, and the keys that stand apart from
-- it, being neither its parents nor its children, keep theirs.
pub record ViperLaws (v : Viper) : Type 1 where
  pub Separate : Bytes → Bytes → Type 0
  pub get_set : (k : Bytes) (x : Value) (s : v.State) → v.get k (v.set k x s) ≡ x
  pub is_set_set : (k : Bytes) (x : Value) (s : v.State) → x ≢ nil → v.is_set k (v.set k x s) ≡ true
  pub get_string_set : (k t : Bytes) (s : v.State) → v.get_string k (v.set k (str t) s) ≡ t
  pub get_separate :
      (j k : Bytes) (x : Value) (s : v.State) → Separate j k → v.get j (v.set k x s) ≡ v.get j s
  pub is_set_separate :
      (j k : Bytes) (x : Value) (s : v.State)
      → Separate j k
      → v.is_set j (v.set k x s) ≡ v.is_set j s
  pub get_string_separate :
      (j k : Bytes) (x : Value) (s : v.State)
      → Separate j k
      → v.get_string j (v.set k x s) ≡ v.get_string j s

module _ (v : Viper) (laws : ViperLaws v) (base : World) (own : ExpandOptions) where
  is_set-set : (k t : Bytes) (s : v.State) → is_set v base own k (v.set k (str t) s) ≡ true
  unfolding is_set
  is_set-set k t s = rw (laws.is_set_set k (str t) s (λ e. cc), laws.get_set k (str t) s) refl

  is_set-delete :
      (k : Bytes) (s : v.State) → is_set v base own k (delete_key v base own k s) ≡ false
  unfolding is_set delete_key
  is_set-delete k s = rw (laws.is_set_set k deleted s (λ e. cc), laws.get_set k deleted s) refl

  is_set-separate :
      (j k : Bytes) (x : Value) (s : v.State)
      → laws.Separate j k
      → is_set v base own j (v.set k x s) ≡ is_set v base own j s
  unfolding is_set
  is_set-separate j k x s h = rw (laws.is_set_separate j k x s h, laws.get_separate j k x s h) refl

  pub set_plain :
      (opts : ExpandOptions) (key value : Bytes) (s : v.State)
      → opts.replacements ≡ []
      → set_string v base own opts key value s ≡ stored (v.set key (str value) s)
  unfolding set_string replace_string_param
  set_plain opts key value s h = ground arith

  -- Nothing is found in the names that are passed over.
  abbrev pub PassedOver : Bytes → v.State → Bytes → Type 0
  PassedOver key s legacy = (eqb key legacy || not (is_set v base own legacy s)) ≡ true

  promote-first :
      (opts : ExpandOptions) (key legacy : Bytes) (before after : List Bytes) (s : v.State)
      → All (PassedOver key s) before
      → eqb key legacy ≡ false
      → is_set v base own legacy s ≡ true
      → promote v base own opts key (before ++ (legacy ∷ after)) s
        ≡ moved v base own legacy
            (get_expanded v base own opts legacy s)
            (set_string v base own opts key (get_expanded v base own opts legacy s) s)
  unfolding promote
  promote-first opts key legacy [] after s h e i = rw (e, i, promote) refl
  promote-first opts key legacy (n ∷ before) after s (hn, hs) e i = elim (Bool-cases (eqb key n)) [
    | inl k ↦ rw (k, promote) (promote-first opts key legacy before after s hs e i)
    | inr k ↦
        let g : is_set v base own n s ≡ false = ground arith in
        rw (k, g, promote) (promote-first opts key legacy before after s hs e i)
  ]

  get_string-unset :
      (opts : ExpandOptions) (key : Bytes) (s : v.State) (r : Bytes × Stored v base own)
      → is_set v base own key s ≡ false
      → promote v base own opts key opts.promote_from s ≡ some r
      → get_string v base own opts key s ≡ r
  unfolding get_string
  get_string-unset opts key s r h e = rw (h, e, get_string) refl

  fallback-unset :
      (opts : ExpandOptions) (key : Bytes) (s : v.State)
      → is_set v base own key s ≡ false
      → promote v base own opts key opts.promote_from s ≡ none
      → (get_string v base own opts key s).0 ≡ fallback v base own opts
  unfolding get_string
  fallback-unset opts key s h e = rw (h, e, get_string) refl

  lookup-unset :
      (opts : ExpandOptions) (key : Bytes) (s : v.State)
      → is_set v base own key s ≡ false
      → lookup_string v base own opts key s ≡ ([], false)
  unfolding lookup_string
  lookup-unset opts key s h = rw (h, lookup_string) refl

  lookup-set :
      (opts : ExpandOptions) (key : Bytes) (s : v.State)
      → is_set v base own key s ≡ true
      → lookup_string v base own opts key s ≡ (get_expanded v base own opts key s, true)
  unfolding lookup_string get_string
  lookup-set opts key s h = rw (h, lookup_string, get_string) refl

pub expand_plain :
    (w : World) (e : ExpandOptions) (input : Bytes)
    → e.no_expand ≡ true
    → input ≢ []
    → expand w e input ≡ input
unfolding expand unexpanded
expand_plain w e input h n = ground (arith, eqb_iff input [])

-- Reading a key that is not set takes the value of the first legacy key that is set, expanded, and
-- moves it: afterwards the key is set to that value and the legacy key is not set. The two keys
-- stand apart, and the options replace nothing.
pub get_string-promoted :
    (v : Viper) (laws : ViperLaws v) (base : World) (own opts : ExpandOptions) (key legacy : Bytes)
    (before after : List Bytes) (s : v.State)
    → is_set v base own key s ≡ false
    → opts.promote_from ≡ before ++ (legacy ∷ after)
    → All (PassedOver v laws base own key s) before
    → eqb key legacy ≡ false
    → is_set v base own legacy s ≡ true
    → laws.Separate key legacy
    → opts.replacements ≡ []
    → let value = get_expanded v base own opts legacy s in
      let s' = delete_key v base own legacy (v.set key (str value) s) in
      (get_string v base own opts key s ≡ (value, stored s'))
      × (is_set v base own key s' ≡ true)
      × (v.get_string key s' ≡ value)
      × (is_set v base own legacy s' ≡ false)
unfolding delete_key
get_string-promoted v laws base own opts key legacy before after s n p h e i d r =
    let value = get_expanded v base own opts legacy s in
    let s1 = v.set key (str value) s in
    let found : promote v base own opts key opts.promote_from s
        ≡ some (value, stored (delete_key v base own legacy s1)) =
      ap (λ names. promote v base own opts key names s) p
      ∙ (promote-first v laws base own opts key legacy before after s h e i
          ∙ ap (moved v base own legacy value) (set_plain v laws base own opts key value s r)) in
    (
      get_string-unset v laws base own opts key s (value, stored (delete_key v base own legacy s1))
          n found,
      is_set-separate v laws base own key legacy deleted s1 d
          ∙ is_set-set v laws base own key value s,
      laws.get_string_separate key legacy deleted s1 d ∙ laws.get_string_set key value s,
      is_set-delete v laws base own legacy s1,
    )

-- A key that was deleted is not found, whatever the options, and reading it gives the initial value
-- or the default value of the options, if it has no legacy keys.
delete_key-lookup :
    (v : Viper) (laws : ViperLaws v) (base : World) (own opts : ExpandOptions) (key : Bytes)
    (s : v.State)
    → (lookup_string v base own opts key (delete_key v base own key s) ≡ ([], false))
      × (opts.promote_from ≡ []
          → (get_string v base own opts key (delete_key v base own key s)).0
            ≡ fallback v base own opts)
unfolding promote
delete_key-lookup v laws base own opts key s =
    let s' = delete_key v base own key s in
    let gone = is_set-delete v laws base own key s in
    (
      lookup-unset v laws base own opts key s' gone,
      λ e.
          fallback-unset v laws base own opts key s' gone
            (ap (λ names. promote v base own opts key names s') e),
    )

-- A text that is not empty, set without expansion, is found again as it is.
set_string-lookup :
    (v : Viper) (laws : ViperLaws v) (base : World) (own opts : ExpandOptions) (key value : Bytes)
    (s : v.State)
    → opts.no_expand ≡ true
    → value ≢ []
    → (set_string v base own opts key value s ≡ stored (v.set key (str value) s))
      × (lookup_string v base own opts key (v.set key (str value) s) ≡ (value, true))
unfolding set_string get_expanded
set_string-lookup v laws base own opts key value s h n =
    let s' = v.set key (str value) s in
    let raw = laws.get_string_set key value s in
    (
      rw (h, set_string) refl,
      lookup-set v laws base own opts key s' (is_set-set v laws base own key value s)
          ∙ ap (λ t. (t, true))
              (ap (expand (world v base own s') opts) raw
                ∙ expand_plain (world v base own s') opts value h n),
    )

module _ (v : Viper) (base : World) (own : ExpandOptions) where
  stored_as-ends :
      (key : Bytes) (s : v.State) (o : Outcome)
      → o ≢ out_of_fuel
      → stored_as v base own key s o ≢ unfinished
  stored_as-ends key s (done t) h = λ e. cc
  stored_as-ends key s panic h = λ e. cc
  stored_as-ends key s out_of_fuel h = absurd (h refl)

-- Setting a text ends, with the settings or with the panic of a slice.
pub set_string-ends :
    (v : Viper) (base : World) (own opts : ExpandOptions) (key value : Bytes) (s : v.State)
    → set_string v base own opts key value s ≢ unfinished
unfolding set_string
set_string-ends v base own opts key value s = elim (Bool-cases opts.no_expand) [
  | inl h ↦ rw (h, set_string) (λ e. cc)
  | inr h ↦
      rw (h, set_string)
        (stored_as-ends v base own key s _ (
          replace_string_param-ends (map (λ r. (r, get_own v base own r s)) opts.replacements)
            value))
]
