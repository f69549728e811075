-- ===== src/Common.antt =====
-- Names that every other module uses: those of the libraries, passed on, and the shared tests on
-- numbers, byte strings and lists.
mod Tests
mod Lists
mod ByteString
pub use Tests.*
pub use Lists.{
  length, drop, take, length-append, take-append, drop-append, length-drop, All, All-append,
}
pub use ByteString.{Bytes, codes, eqb→eq, eqb_refl, eqb_iff}
unfoldable pub use Lists.{any}
unfoldable pub use ByteString.{eqb}
pub use Prim.Native.Nat.{ℕ, zero, suc, ◌+◌, ◌-◌, ◌≤◌, ◌<◌}
pub use Prim.Native.String.{String}
pub use mathlib.Core.Path.{◌≡◌, refl, sym, ap, ◌∙◌}
pub use mathlib.Core.Logic.{◌≢◌, ◌↔◌, ◌⊎◌, inl, inr}
pub use mathlib.Core.Bool.{Bool, true, false, not, ◌&&◌, ◌||◌}
pub use mathlib.Core.Option.{Option, none, some}
pub use mathlib.Core.List.{List, [], ◌∷◌, ◌++◌, map, append_assoc, append-nil}
pub use native.Mathlib.Omega.{arith}
