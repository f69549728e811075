-- ===== src/Release/Current.antt =====
-- CurrentVersion (tools/geneos/internal/geneos/versions.go): the release that a link points to.
use cordial.Common.{
  ℕ, zero, suc, Bool, not, Option, none, some, Bytes, codes, eqb, [], if◌then◌else◌,
}

-- The packages directory of a component on a host: whether Lstat finds the entry of a name, what
-- Readlink gives for it, and the path functions for this directory.
pub record Packages : Type 0 where
  pub lstat : Bytes → Bool
  pub readlink : Bytes → Option Bytes
  pub is_abs : Bytes → Bool
  pub rel : Bytes → Option Bytes

pub data LinkError : Type 0 where
  not_found loop too_many : LinkError

abbrev pub Current : Type 0
Current = Bytes × Option LinkError

abbrev pub unknown : Bytes
unknown = codes "unknown"

abbrev or_nothing : Option Bytes → Bytes
or_nothing (some v) = v
or_nothing none = []

module _ (h : Packages) where
  -- The version that a link names, relative to the directory. Rel returns the empty string beside its error.
  unfoldable pub relative : Bytes → Bytes
  relative version = if h.is_abs version then or_nothing (h.rel version) else version

  -- The loop, for what is left of its ten rounds.
  unfoldable pub follow : Bytes → ℕ → Bytes → Current
  unfolding relative
  follow base zero version = (unknown, some too_many)
  follow base (suc rounds) version =
      if not (h.lstat version)
      then (unknown, some not_found)
      else elim (h.readlink version) as (λ _. Current) [
        | none ↦ (version, none)
        | some lversion ↦
            let rest = follow base rounds (relative lversion) in
            if eqb (relative lversion) base then (unknown, some loop) else rest
      ]

  -- CurrentVersion
  unfoldable pub current_version : Bytes → Current
  unfolding follow
  current_version base = follow base 10 base
