-- ===== src/Config/Replace.antt =====
-- replaceStringParam (pkg/config/internal.go): the value of a configuration item is replaced by a
-- reference to the item, outside the expandable parts of the text.
use cordial.Common.{
  ℕ, zero, suc, ◌+◌, ◌-◌, ◌<◌, ◌≢◌, true, false, not, none, some, List, Bytes, codes, [], ◌∷◌, ◌++◌,
  ltb, if◌then◌else◌, arith, length, length-drop, take, drop, Bool-cases, Option-cases, inl, inr,
}
use cordial.Text.{has_prefix, contains, index, replace_all}

-- `panic` is a slice whose end stands before its start; `out_of_fuel` is the model's alone.
pub data Outcome : Type 0 where
  done : Bytes → Outcome
  panic out_of_fuel : Outcome

-- "${config:" + r + "}"
unfoldable pub reference : Bytes → Bytes
reference r = codes "${config:" ++ (r ++ codes "}")

-- The loop over `remainingValue`, for one item of the value `sub`.
unfoldable pub replace_loop : ℕ → Bytes → Bytes → Bytes → Bytes → Outcome
replace_loop zero sub ref new_value remaining = out_of_fuel
replace_loop (suc fuel) sub ref new_value remaining =
    elim (index (codes "${") remaining) as (λ _. Outcome) [
      | none ↦ done (new_value ++ remaining)
      | some start ↦ elim (index (codes "}") remaining) as (λ _. Outcome) [
        | none ↦ done (new_value ++ remaining)
        | some end ↦ elim (ltb (end + 1) start) as (λ _. Outcome) [
          | true ↦ panic
          | false ↦
              replace_loop fuel sub ref
                (new_value
                  ++ (replace_all sub ref (take start remaining)
                      ++ take (end + 1 - start) (drop start remaining)))
                (drop (end + 1) remaining)
        ]
      ]
    ]

-- The body of the loop over the replacements.
unfoldable pub replace_one : Bytes → Bytes → Bytes → Outcome
replace_one r sub value =
    if not (contains (codes "${") value)
    then done (replace_all sub (reference r) value)
    else replace_loop (suc (length value)) sub (reference r) [] value

infixl 5 ◌>>=◌
abbrev pub ◌>>=◌ : Outcome → (Bytes → Outcome) → Outcome
done v >>= f = f v
panic >>= f = panic
out_of_fuel >>= f = out_of_fuel

-- replaceStringParam, for the names and values of the items in opts.replacements.
unfoldable pub replace_string_param : List (Bytes × Bytes) → Bytes → Outcome
replace_string_param [] value = done value
replace_string_param ((r, sub) ∷ items) value =
    replace_one r sub value >>= replace_string_param items

-- Each round takes at least the closing brace off the text, so the fuel is enough.
replace_loop-ends :
    (fuel : ℕ) (sub ref new_value remaining : Bytes)
    → length remaining < fuel
    → replace_loop fuel sub ref new_value remaining ≢ out_of_fuel
unfolding replace_loop
replace_loop-ends zero sub ref new_value remaining h = absurd (omega arith)
replace_loop-ends (suc fuel) sub ref new_value [] h = unfold index has_prefix in cc
replace_loop-ends (suc fuel) sub ref new_value (c ∷ s) h =
    elim (Option-cases (index (codes "${") (c ∷ s))) [
      | inl e ↦ rw (e, replace_loop) (cc)
      | inr (start, e) ↦ elim (Option-cases (index (codes "}") (c ∷ s))) [
        | inl f ↦ rw (e, f, replace_loop) (cc)
        | inr (end, f) ↦ elim (Bool-cases (ltb (end + 1) start)) [
          | inl g ↦ rw (e, f, g, replace_loop) (cc)
          | inr g ↦
              rw (e, f, g, replace_loop)
                (replace_loop-ends fuel sub ref _ (drop (end + 1) (c ∷ s))
                  (omega (arith, length-drop (end + 1) (c ∷ s))))
        ]
      ]
    ]

replace_one-ends : (r sub value : Bytes) → replace_one r sub value ≢ out_of_fuel
unfolding replace_one
replace_one-ends r sub value =
    ground (arith, replace_loop-ends (suc (length value)) sub (reference r) [] value)

bind-ends :
    (o : Outcome) (f : Bytes → Outcome)
    → o ≢ out_of_fuel
    → ((v : Bytes) → f v ≢ out_of_fuel)
    → (o >>= f) ≢ out_of_fuel
bind-ends (done v) f h k = k v
bind-ends panic f h k = h
bind-ends out_of_fuel f h k = h

-- The loop ends, with a text or with the panic of a slice, for every value and every list of items.
pub replace_string_param-ends :
    (items : List (Bytes × Bytes)) (value : Bytes) → replace_string_param items value ≢ out_of_fuel
unfolding replace_string_param
replace_string_param-ends [] value = cc
replace_string_param-ends ((r, sub) ∷ items) value =
    bind-ends (replace_one r sub value) (replace_string_param items) (replace_one-ends r sub value)
      (replace_string_param-ends items)
