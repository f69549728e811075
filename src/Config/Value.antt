-- ===== src/Config/Value.antt =====
-- The `any` values of pkg/config: a nil interface, the deletedKey marker, strings, slices of `any`
-- (an item that is no string is `none`) and values of other types, named by a number.
use cordial.Common.{ℕ, Bool, true, false, Option, List, Bytes, [], ◌∷◌}

pub data Value : Type 0 where
  nil deleted : Value
  str : Bytes → Value
  items : List (Option Bytes) → Value
  other : ℕ → Value

-- isZero, given the answer for the values of other types.
unfoldable pub is_zero : (ℕ → Bool) → Value → Bool
is_zero zero_other nil = true
is_zero zero_other deleted = true
is_zero zero_other (str []) = true
is_zero zero_other (str (_ ∷ _)) = false
is_zero zero_other (items _) = false
is_zero zero_other (other n) = zero_other n
