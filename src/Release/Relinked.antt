-- ===== src/Release/Relinked.antt =====
-- The links after update (tools/geneos/internal/geneos/package.go), and the release that
-- CurrentVersion then finds (versions.go).
use mathlib.Core.Path.{subst}
use cordial.Common.{
  ◌≡◌, refl, sym, ap, ◌∙◌, inl, inr, Bool, true, false, Option, none, some, List, Bytes, eqb,
  eqb_iff, [], ◌∷◌, if◌then◌else◌, arith, Bool-cases,
}
use cordial.Release.Order.{Versions}
use cordial.Release.Current.{Packages, relative, current_version}
use cordial.Release.Links.{current_version_iff}
use cordial.Release.Newest.{prefix_of, last_listed, choose_release-last}
use cordial.Release.Update.{
  Listing, Instance, entries, no_directory, not_listed, removed, no_entry, not_removed, Host,
  UpdateOptions, cannot_list, no_release, not_there, cannot_remove, cannot_link, Outcome,
  nothing_installed, already, updated, failed, or_nothing, choose_release, Done, unchanged,
  is_restarted, replace_link, restarting, update_to, update,
}

-- What the calls on the host do to the links: a new link names its target, a removal that fails changes
-- nothing, no call changes another link, and stopping and starting change none.
pub record LinkLaws (h : Host) : Type 0 where
  pub link_symlink :
      (target name : Bytes) (s : h.State)
      → (h.symlink target name s).1 ≡ true
      → h.readlink name (h.symlink target name s).0 ≡ some target
  pub other_symlink :
      (target name k : Bytes) (s : h.State)
      → eqb name k ≡ false
      → h.readlink k (h.symlink target name s).0 ≡ h.readlink k s
  pub other_remove :
      (name k : Bytes) (s : h.State)
      → eqb name k ≡ false
      → h.readlink k (h.remove name s).0 ≡ h.readlink k s
  pub kept_remove :
      (name k : Bytes) (s : h.State)
      → (h.remove name s).1 ≡ not_removed
      → h.readlink k (h.remove name s).0 ≡ h.readlink k s
  pub links_stop :
      (c : Instance) (k : Bytes) (s : h.State) → h.readlink k (h.stop c s).0 ≡ h.readlink k s
  pub links_start :
      (c : Instance) (k : Bytes) (s : h.State) → h.readlink k (h.start c s) ≡ h.readlink k s

module _ (h : Host) (base version : Bytes) where
  -- The base link after an outcome.
  abbrev pub BaseLink : h.State → h.State → Outcome → Type 0
  BaseLink s s' (updated v) = (v ≡ version) × (h.readlink base s' ≡ some version)
  BaseLink s s' (failed cannot_link) = Unit
  BaseLink s s' (failed cannot_list) = h.readlink base s' ≡ h.readlink base s
  BaseLink s s' (failed no_release) = h.readlink base s' ≡ h.readlink base s
  BaseLink s s' (failed not_there) = h.readlink base s' ≡ h.readlink base s
  BaseLink s s' (failed cannot_remove) = h.readlink base s' ≡ h.readlink base s
  BaseLink s s' nothing_installed = h.readlink base s' ≡ h.readlink base s
  BaseLink s s' (already v) =
      (v ≡ version)
      × (h.readlink base s' ≡ h.readlink base s)
      × (or_nothing (h.readlink base s) ≡ version)

  abbrev pub OtherLinks : h.State → h.State → Type 0
  OtherLinks s s' = (k : Bytes) → eqb base k ≡ false → h.readlink k s' ≡ h.readlink k s

  abbrev pub Relinks : h.State → h.State → Outcome → Type 0
  Relinks s s' o = OtherLinks s s' × BaseLink s s' o

  abbrev SameLinks : h.State → h.State → Type 0
  SameLinks s s' = (k : Bytes) → h.readlink k s' ≡ h.readlink k s

  BaseLink-before :
      (s1 s s' : h.State) (o : Outcome)
      → h.readlink base s1 ≡ h.readlink base s
      → BaseLink s1 s' o
      → BaseLink s s' o
  BaseLink-before s1 s s' (updated v) e b = b
  BaseLink-before s1 s s' (failed cannot_link) e b = tt
  BaseLink-before s1 s s' (failed cannot_list) e b = b ∙ e
  BaseLink-before s1 s s' (failed no_release) e b = b ∙ e
  BaseLink-before s1 s s' (failed not_there) e b = b ∙ e
  BaseLink-before s1 s s' (failed cannot_remove) e b = b ∙ e
  BaseLink-before s1 s s' nothing_installed e b = b ∙ e
  BaseLink-before s1 s s' (already v) e (bv, b, bs) = (bv, b ∙ e, ap or_nothing (sym e) ∙ bs)

  BaseLink-after :
      (s s' s2 : h.State) (o : Outcome)
      → h.readlink base s2 ≡ h.readlink base s'
      → BaseLink s s' o
      → BaseLink s s2 o
  BaseLink-after s s' s2 (updated v) e (bv, b) = (bv, e ∙ b)
  BaseLink-after s s' s2 (failed cannot_link) e b = tt
  BaseLink-after s s' s2 (failed cannot_list) e b = e ∙ b
  BaseLink-after s s' s2 (failed no_release) e b = e ∙ b
  BaseLink-after s s' s2 (failed not_there) e b = e ∙ b
  BaseLink-after s s' s2 (failed cannot_remove) e b = e ∙ b
  BaseLink-after s s' s2 nothing_installed e b = e ∙ b
  BaseLink-after s s' s2 (already v) e (bv, b, bs) = (bv, e ∙ b, bs)

  Relinks-before :
      (s1 s s' : h.State) (o : Outcome) → SameLinks s s1 → Relinks s1 s' o → Relinks s s' o
  Relinks-before s1 s s' o e (others, b) =
      ((λ k n. others k n ∙ e k), BaseLink-before s1 s s' o (e base) b)

  Relinks-after :
      (s s' s2 : h.State) (o : Outcome) → SameLinks s' s2 → Relinks s s' o → Relinks s s2 o
  Relinks-after s s' s2 o e (others, b) =
      ((λ k n. e k ∙ others k n), BaseLink-after s s' s2 o (e base) b)

-- The directory as CurrentVersion reads it.
abbrev pub directory :
    (h : Host) (lstat is_abs : Bytes → Bool) (rel : Bytes → Option Bytes) → h.State → Packages
directory h lstat is_abs rel s = record {
  lstat = lstat;
  readlink = λ v. h.readlink v s;
  is_abs = is_abs;
  rel = rel;
}

module _ (p : Versions) (h : Host) (laws : LinkLaws h) where
  abbrev link_result : (version : Bytes) → h.State × Bool → h.State × Outcome
  link_result version (s2, linked) =
      if linked then (s2, updated version) else (s2, failed cannot_link)

  link_result-Relinks :
      (base version : Bytes) (s s1 : h.State)
      → OtherLinks h base version s s1
      → Relinks h base version s
          (link_result version (h.symlink version base s1)).0
          (link_result version (h.symlink version base s1)).1
  link_result-Relinks base version s s1 others = elim (Bool-cases (h.symlink version base s1).1) [
    | inl e ↦ rw e (kept, (refl, laws.link_symlink version base s1 e))
    | inr e ↦ rw e (kept, tt)
  ]
    where
      kept : OtherLinks h base version s (h.symlink version base s1).0
      kept k n = laws.other_symlink version base k s1 n ∙ others k n

  replace_link-Relinks :
      (base version : Bytes) (s : h.State)
      → Relinks h base version s
          (replace_link p h base version s).0
          (replace_link p h base version s).1
  unfolding replace_link
  replace_link-Relinks base version s =
      elim (h.remove base s).1
          as (λ r.
            (h.remove base s).1 ≡ r
            → Relinks h base version s
                (elim r as (λ _. h.State × Outcome) [
                  | removed ↦ link_result version (h.symlink version base (h.remove base s).0)
                  | no_entry ↦ link_result version (h.symlink version base (h.remove base s).0)
                  | not_removed ↦ ((h.remove base s).0, failed cannot_remove)
                ]).0
                (elim r as (λ _. h.State × Outcome) [
                  | removed ↦ link_result version (h.symlink version base (h.remove base s).0)
                  | no_entry ↦ link_result version (h.symlink version base (h.remove base s).0)
                  | not_removed ↦ ((h.remove base s).0, failed cannot_remove)
                ]).1) [
                  | removed ↦ λ _. link_result-Relinks base version s (h.remove base s).0 others
                  | no_entry ↦ λ _. link_result-Relinks base version s (h.remove base s).0 others
                  | not_removed ↦ λ e. (others, laws.kept_remove base base s e)
                ]
        refl
    where
      others : OtherLinks h base version s (h.remove base s).0
      others k n = laws.other_remove base k s n

  stopped-Relinks :
      (base version : Bytes) (c : Instance) (s s' : h.State) (o : Outcome)
      → Relinks h base version (h.stop c s).0 s' o
      → Relinks h base version s s' o
  stopped-Relinks base version c s s' o =
      Relinks-before h base version (h.stop c s).0 s s' o (λ k. laws.links_stop c k s)

  started-Relinks :
      (base version : Bytes) (c : Instance) (s s' : h.State) (o : Outcome)
      → Relinks h base version s s' o
      → Relinks h base version s (h.start c s') o
  started-Relinks base version c s s' o =
      Relinks-after h base version s s' (h.start c s') o (λ k. laws.links_start c k s')

  restarting-Relinks :
      (base version ct : Bytes) (instances : List Instance) (f : h.State → h.State × Outcome)
      (s : h.State)
      → ((t : h.State) → Relinks h base version t (f t).0 (f t).1)
      → Relinks h base version s
          (restarting p h ct instances f s).state
          (restarting p h ct instances f s).outcome
  unfolding restarting
  restarting-Relinks base version ct [] f s r = r s
  restarting-Relinks base version ct (c ∷ instances) f s r =
      let after_stop =
        stopped-Relinks base version c s (restarting p h ct instances f (h.stop c s).0).state
          (restarting p h ct instances f (h.stop c s).0).outcome
          (restarting-Relinks base version ct instances f (h.stop c s).0 r) in
      elim (Bool-cases (is_restarted p h ct c)) [
        | inr e ↦ rw e (restarting-Relinks base version ct instances f s r)
        | inl e ↦ elim (Bool-cases (h.stop c s).1) [
          | inl g ↦
              rw (e, g)
                (started-Relinks base version c s
                  (restarting p h ct instances f (h.stop c s).0).state
                  (restarting p h ct instances f (h.stop c s).0).outcome after_stop)
          | inr g ↦ rw (e, g) after_stop
        ]
      ]

  update_to-Relinks :
      (ct : Bytes) (opts : UpdateOptions) (version : Bytes) (s : h.State)
      → Relinks h opts.basename version s
          (update_to p h ct opts version s).state
          (update_to p h ct opts version s).outcome
  unfolding update_to
  update_to-Relinks ct opts version s = elim (Bool-cases (eqb version [])) [
    | inl e ↦ rw e ((λ k n. refl), refl)
    | inr e ↦ elim (Bool-cases (h.stat version s)) [
      | inr g ↦ rw (e, g) ((λ k n. refl), refl)
      | inl g ↦ elim (Bool-cases (eqb (or_nothing (h.readlink opts.basename s)) version)) [
        | inl k ↦
            rw (e, g, k)
              (
                (λ j n. refl),
                (refl, refl, (eqb_iff (or_nothing (h.readlink opts.basename s)) version).0 k),
              )
        | inr k ↦
            rw (e, g, k)
              (restarting-Relinks opts.basename version ct
                (if opts.restarts then opts.restart else [])
                (replace_link p h opts.basename version) s
                (replace_link-Relinks opts.basename version))
      ]
    ]
  ]

  listed-Relinks :
      (ct : Bytes) (opts : UpdateOptions) (names : List Bytes) (s : h.State)
      → h.read_dir s ≡ entries names
      → Relinks h opts.basename
          (choose_release p h opts.version names s)
          s
          (update p h ct opts s).state
          (update p h ct opts s).outcome
  unfolding update
  listed-Relinks ct opts names s e =
      subst
        (λ (d : Done p h).
          Relinks h opts.basename (choose_release p h opts.version names s) s d.state d.outcome)
        (sym (listed e)) (update_to-Relinks ct opts (choose_release p h opts.version names s) s)
    where
      listed :
          h.read_dir s ≡ entries names
          → update p h ct opts s ≡ update_to p h ct opts (choose_release p h opts.version names s) s
      listed g =
          ap
            (λ l. elim l as (λ _. Done p h) [
              | no_directory ↦ unchanged p h nothing_installed s
              | not_listed ↦ unchanged p h (failed cannot_list) s
              | entries l' ↦ update_to p h ct opts (choose_release p h opts.version l' s) s
            ])
            g

  -- An update that succeeds, or finds the link as it should be, has the base link on the last directory in
  -- the order of releases whose name has the prefix of the options, and no update changes another link.
  -- One that fails or has nothing to do keeps the base link, unless it was removed and the new link could
  -- not be made.
  pub update-Relinks :
      (ct : Bytes) (opts : UpdateOptions) (s : h.State)
      → Relinks h opts.basename
          (last_listed p h (prefix_of opts.version) s (h.read_dir s))
          s
          (update p h ct opts s).state
          (update p h ct opts s).outcome
  unfolding update
  update-Relinks ct opts s =
      elim (h.read_dir s)
        as (λ l.
          Relinks h opts.basename (last_listed p h (prefix_of opts.version) s l) s
            (updated_from l).state (updated_from l).outcome) [
              | no_directory ↦ ((λ k n. refl), refl)
              | not_listed ↦ ((λ k n. refl), refl)
              | entries names ↦
                  subst
                    (λ v.
                      Relinks h opts.basename v s
                        (update_to p h ct opts (choose_release p h opts.version names s) s).state
                        (update_to p h ct opts (choose_release p h opts.version names s) s).outcome)
                    (choose_release-last p h opts.version names s)
                    (update_to-Relinks ct opts (choose_release p h opts.version names s) s)
            ]
    where
      updated_from : Listing → Done p h
      updated_from l = elim l as (λ _. Done p h) [
        | no_directory ↦ unchanged p h nothing_installed s
        | not_listed ↦ unchanged p h (failed cannot_list) s
        | entries names ↦ update_to p h ct opts (choose_release p h opts.version names s) s
      ]

  -- After an update to a release, which is an entry other than the base link and no link itself, the
  -- release that CurrentVersion finds for the base name is this one.
  pub update-current_version :
      (ct : Bytes) (opts : UpdateOptions) (names : List Bytes) (s : h.State) (v : Bytes)
      (lstat is_abs : Bytes → Bool) (rel : Bytes → Option Bytes)
      → h.read_dir s ≡ entries names
      → (update p h ct opts s).outcome ≡ updated v
      → eqb opts.basename v ≡ false
      → h.readlink v s ≡ none
      → lstat opts.basename ≡ true
      → lstat v ≡ true
      → is_abs v ≡ false
      → current_version (directory h lstat is_abs rel (update p h ct opts s).state) opts.basename
        ≡ (v, none)
  unfolding relative
  update-current_version ct opts names s v lstat is_abs rel e o n r lb lv a =
      let (others, link) = listed-Relinks ct opts names s e in
      let (same, there) : (v ≡ choose_release p h opts.version names s)
          × (h.readlink opts.basename (update p h ct opts s).state
              ≡ some (choose_release p h opts.version names s)) =
        subst
          (BaseLink h opts.basename (choose_release p h opts.version names s) s
            (update p h ct opts s).state)
          o link in
      (current_version_iff (directory h lstat is_abs rel (update p h ct opts s).state) opts.basename
          v).1
        (
          1,
          omega arith,
          (
            v,
            (
              lb,
              v,
              there ∙ ap some (sym same),
              ground (arith, a),
              ground (arith, n, eqb_iff opts.basename v, eqb_iff v opts.basename),
            ),
            refl,
          ),
          (lv, others v n ∙ r),
        )
