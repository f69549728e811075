-- ===== src/Release/Updated.antt =====
-- Which instances run after update (tools/geneos/internal/geneos/package.go).
use cordial.Common.{◌≡◌, Bool, true, false, ◌||◌, Bytes, if◌then◌else◌}
use cordial.Release.Order.{Versions}
use cordial.Release.Update.{Instance, Host, cannot_link, Outcome, failed, updated}

-- What Stop and Start do to the instances that run. Where Stop has no error the instance ran, and the
-- other ones are as they were; with an error all are. Start starts the instance and no other. The changes of
-- links stop and start nothing.
pub record RunLaws (h : Host) : Type 0 where
  pub runs : Instance → h.State → Bool
  pub same : Instance → Instance → Bool
  pub stop_ran :
      (c d : Instance) (s : h.State) → (h.stop c s).1 ≡ true → same c d ≡ true → runs d s ≡ true
  pub stop_others :
      (c d : Instance) (s : h.State)
      → (h.stop c s).1 ≡ true
      → same c d ≡ false
      → runs d (h.stop c s).0 ≡ runs d s
  pub stop_fails :
      (c d : Instance) (s : h.State) → (h.stop c s).1 ≡ false → runs d (h.stop c s).0 ≡ runs d s
  pub start_starts : (c d : Instance) (s : h.State) → runs d (h.start c s) ≡ same c d || runs d s
  pub runs_remove :
      (d : Instance) (name : Bytes) (s : h.State) → runs d (h.remove name s).0 ≡ runs d s
  pub runs_symlink :
      (d : Instance) (target name : Bytes) (s : h.State)
      → runs d (h.symlink target name s).0 ≡ runs d s

module _ (p : Versions) (h : Host) (laws : RunLaws h) where
  abbrev link_of : Bytes → h.State × Bool → h.State × Outcome
  link_of version (s2, linked) = if linked then (s2, updated version) else (s2, failed cannot_link)
