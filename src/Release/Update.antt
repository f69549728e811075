-- ===== src/Release/Update.antt =====
-- InstalledReleases (tools/geneos/internal/geneos/versions.go) and update (package.go) for a component
-- that has no package types, on a host that is not ALL. What they use of the host is a record; printing
-- and logging are left out.
use cordial.Common.{
  Bool, true, false, not, ◌&&◌, ◌||◌, Option, none, some, List, Bytes, codes, eqb, [], ◌∷◌,
  if◌then◌else◌,
}
use cordial.Text.{has_prefix}
use cordial.Release.Order.{Order, greater, less, same, Versions, compare_version}
use cordial.Release.Archives.{keep}

-- What is read of an instance: its name, whether it is on the host and of the component's type, and its
-- parameter pkgtype.
pub record Instance : Type 0 where
  pub name : Bytes
  pub is_on_host : Bool
  pub has_type : Bool
  pub pkgtype : Bytes

-- ReadDir: the names, or an error, which can be that the directory is missing.
pub data Listing : Type 0 where
  entries : List Bytes → Listing
  no_directory not_listed : Listing

pub data Removal : Type 0 where
  removed no_entry not_removed : Removal

-- The packages directory of the component on the host: names in it stand for their paths. Stop returns
-- whether there was no error.
pub record Host : Type 1 where
  pub State : Type 0
  pub read_dir : State → Listing
  pub is_dir : Bytes → State → Bool
  pub readlink : Bytes → State → Option Bytes
  pub stat : Bytes → State → Bool
  pub remove : Bytes → State → State × Removal
  pub symlink : Bytes → Bytes → State → State × Bool
  pub stop : Instance → State → State × Bool
  pub start : Instance → State → State

-- The options that are read, with the instances of `restart`; `restarts` is whether both functions are set.
pub record UpdateOptions : Type 0 where
  pub version : Bytes
  pub basename : Bytes
  pub restarts : Bool
  pub restart : List Instance

pub data UpdateError : Type 0 where
  cannot_list no_release not_there cannot_remove cannot_link : UpdateError

pub data Outcome : Type 0 where
  nothing_installed : Outcome
  already updated : Bytes → Outcome
  failed : UpdateError → Outcome

abbrev is_greater : Order → Bool
is_greater greater = true
is_greater less = false
is_greater same = false

module _ (p : Versions) where
  unfoldable pub insert_release : Bytes → List Bytes → List Bytes
  unfolding compare_version
  insert_release a [] = a ∷ []
  insert_release a (b ∷ l) =
      let later = insert_release a l in
      if is_greater (compare_version p a b) then b ∷ later else a ∷ b ∷ l

  -- slices.SortFunc
  unfoldable pub sort_releases : List Bytes → List Bytes
  unfolding insert_release
  sort_releases [] = []
  sort_releases (a ∷ l) = insert_release a (sort_releases l)

-- versions[len(versions)-1], or the empty string.
unfoldable pub last_release : List Bytes → Bytes
last_release [] = []
last_release (v ∷ []) = v
last_release (v ∷ w ∷ versions) = last_release (w ∷ versions)

abbrev pub or_nothing : Option Bytes → Bytes
or_nothing (some v) = v
or_nothing none = []

module _ (p : Versions) (h : Host) where
  -- InstalledReleases, for the entries of the directory.
  unfoldable pub installed_releases : List Bytes → h.State → List Bytes
  unfolding keep sort_releases
  installed_releases names s = sort_releases p (keep (λ n. h.is_dir n s) names)

  -- The last release whose version has the prefix; `latest` is the empty prefix.
  unfoldable pub choose_release : Bytes → List Bytes → h.State → Bytes
  unfolding installed_releases last_release keep has_prefix
  choose_release version names s =
      let prefix = if eqb version (codes "latest") then [] else version in
      last_release (keep (has_prefix prefix) (installed_releases names s))

  -- The state and the outcome.
  pub record Done : Type 0 where
    pub state : h.State
    pub outcome : Outcome

  abbrev pub unchanged : Outcome → h.State → Done
  unchanged o s = record { state = s; outcome = o }

  unfoldable pub is_restarted : Bytes → Instance → Bool
  is_restarted ct c = c.is_on_host && (c.has_type || eqb c.pkgtype ct)

  -- The removal of the link and the new link.
  unfoldable pub replace_link : Bytes → Bytes → h.State → h.State × Outcome
  replace_link base version s =
      let (s1, r) = h.remove base s in
      let (s2, linked) = h.symlink version base s1 in
      let link = if linked then (s2, updated version) else (s2, failed cannot_link) in
      elim r as (λ _. h.State × Outcome) [
        | removed ↦ link
        | no_entry ↦ link
        | not_removed ↦ (s1, failed cannot_remove)
      ]

  -- The loop over the instances, each of which that stops is started by a deferred call at the end: what
  -- is stopped first is started last.
  unfoldable pub restarting : Bytes → List Instance → (h.State → h.State × Outcome) → h.State → Done
  unfolding is_restarted
  restarting ct [] f s = let (s', o) = f s in record { state = s'; outcome = o }
  restarting ct (c ∷ instances) f s =
      let passed_over = restarting ct instances f s in
      let (s1, ok) = h.stop c s in
      let not_stopped = restarting ct instances f s1 in
      let wrapped : Done = record {
        state = h.start c not_stopped.state;
        outcome = not_stopped.outcome;
      } in
      if not (is_restarted ct c) then passed_over else if ok then wrapped else not_stopped

  unfoldable pub update_to : Bytes → UpdateOptions → Bytes → h.State → Done
  unfolding restarting replace_link
  update_to ct opts version s =
      if eqb version []
      then unchanged (failed no_release) s
      else if not (h.stat version s)
      then unchanged (failed not_there) s
      else if eqb (or_nothing (h.readlink opts.basename s)) version
      then unchanged (already version) s
      else restarting ct (if opts.restarts then opts.restart else [])
          (replace_link opts.basename version) s

  -- update
  unfoldable pub update : Bytes → UpdateOptions → h.State → Done
  unfolding update_to choose_release
  update ct opts s = elim (h.read_dir s) as (λ _. Done) [
    | no_directory ↦ unchanged nothing_installed s
    | not_listed ↦ unchanged (failed cannot_list) s
    | entries names ↦ update_to ct opts (choose_release opts.version names s) s
  ]
