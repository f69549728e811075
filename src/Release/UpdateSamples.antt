-- ===== src/Release/UpdateSamples.antt =====
-- An update of a directory with two releases and a base link, and the theorems about it.
use cordial.Common.{
  Bool, sym, ◌≡◌, refl, ap, true, false, not, none, some, List, Bytes, codes, eqb, eqb_refl, [],
  ◌∷◌, arith, is_some, if◌then◌else◌,
}
use cordial.Text.{has_prefix, cut_prefix, trim_prefix, first_field, leading, is_letter}
use cordial.Dict.{Dict, get, put, delete, get-put, get-delete}
use cordial.Release.Current.{current_version}
use cordial.Release.Order.{Versions, compare_version, compare_labelled, label, compare_bytes}
use cordial.Release.Archives.{keep}
use cordial.Release.Update.{
  Instance, entries, removed, no_entry, Host, UpdateOptions, updated, choose_release, update,
  update_to, restarting, replace_link, is_restarted, installed_releases, insert_release,
  sort_releases, last_release,
}
use cordial.Release.Newest.{last_listed, prefix_of}
use cordial.Release.Updated.{RunLaws}
use cordial.Release.Relinked.{LinkLaws, Relinks, update-Relinks, update-current_version, directory}

-- Versions are compared by their bytes.
abbrev by_bytes : Versions
by_bytes = record { Version = Bytes; new_version = λ s. some s; compare = compare_bytes }

-- Two releases; the state is the links.
abbrev two_releases : Host
two_releases = record {
  State = Dict Bytes;
  read_dir = λ s. entries (codes "active_prod" ∷ codes "7.2" ∷ codes "7.1" ∷ []);
  is_dir = λ n s. not (eqb n (codes "active_prod"));
  readlink = λ n s. get n s;
  stat = λ n s. true;
  remove = λ n s. (delete n s, if is_some (get n s) then removed else no_entry);
  symlink = λ target name s. (put name target s, true);
  stop = λ c s. (s, true);
  start = λ c s. s;
}

two_releases-LinkLaws : LinkLaws two_releases
two_releases-LinkLaws = record {
  link_symlink = λ target name s e. ground (arith, get-put name name target s, eqb_refl name);
  other_symlink = λ target name k s e. ground (arith, get-put name k target s);
  other_remove = λ name k s e. ground (arith, get-delete name k s);
  kept_remove = λ name k s e. ground (arith, e);
  links_stop = λ c k s. refl;
  links_start = λ c k s. refl;
}

abbrev some_instance : Instance
some_instance = record { name = codes "i"; is_on_host = true; has_type = true; pkgtype = [] }

abbrev other_instance : Instance
other_instance = record {
  name = codes "j";
  is_on_host = true;
  has_type = false;
  pkgtype = codes "gateway";
}

abbrev to_latest : UpdateOptions
to_latest = record {
  version = codes "latest";
  basename = codes "active_prod";
  restarts = true;
  restart = some_instance ∷ other_instance ∷ [];
}

abbrev old_links : Dict Bytes
old_links = (codes "active_prod", codes "7.1") ∷ []

run_update :
    update by_bytes two_releases (codes "gateway") to_latest old_links
    ≡ record { state = (codes "active_prod", codes "7.2") ∷ []; outcome = updated (codes "7.2") }
unfolding update update_to choose_release installed_releases insert_release sort_releases
    last_release keep restarting replace_link is_restarted has_prefix cut_prefix eqb get put delete
    compare_version compare_labelled label first_field leading is_letter trim_prefix compare_bytes
run_update = refl

-- The state is whether the one instance runs; links are forgotten.
abbrev one_instance : Host
one_instance = record {
  State = Bool;
  read_dir = λ s. entries (codes "7.2" ∷ codes "7.1" ∷ []);
  is_dir = λ n s. true;
  readlink = λ n s. none;
  stat = λ n s. true;
  remove = λ n s. (s, removed);
  symlink = λ target name s. (s, true);
  stop = λ c s. (false, s);
  start = λ c s. true;
}

no_other : (s t : Bool) → true ≡ false → s ≡ t
no_other s t e = absurd (ground (arith, e))

abbrev one_instance-RunLaws : RunLaws one_instance
one_instance-RunLaws = record {
  runs = λ d s. s;
  same = λ c d. true;
  stop_ran = λ c d s e k. e;
  stop_others = λ c d s e o. no_other false s o;
  stop_fails = λ c d s e. sym e;
  start_starts = λ c d s. refl;
  runs_remove = λ d n s. refl;
  runs_symlink = λ d t n s. refl;
}

abbrev listed : List Bytes
listed = codes "active_prod" ∷ codes "7.2" ∷ codes "7.1" ∷ []

update-Relinks_example :
    Relinks two_releases
      (codes "active_prod")
      (last_listed by_bytes two_releases (prefix_of (codes "latest")) old_links (entries listed))
      old_links
      (update by_bytes two_releases (codes "gateway") to_latest old_links).state
      (update by_bytes two_releases (codes "gateway") to_latest old_links).outcome
update-Relinks_example =
    update-Relinks by_bytes two_releases two_releases-LinkLaws (codes "gateway") to_latest old_links

no_link : get (codes "7.2") old_links ≡ none
unfolding get eqb
no_link = refl

updated_outcome :
    (update by_bytes two_releases (codes "gateway") to_latest old_links).outcome
    ≡ updated (codes "7.2")
updated_outcome = ap (λ d. d.outcome) run_update

other_name : eqb (codes "active_prod") (codes "7.2") ≡ false
unfolding eqb
other_name = refl

update-current_version_example :
    current_version
      (directory two_releases
        (λ n. true)
        (λ n. false)
        (λ n. none)
        (update by_bytes two_releases (codes "gateway") to_latest old_links).state)
      (codes "active_prod")
    ≡ (codes "7.2", none)
update-current_version_example =
    update-current_version by_bytes two_releases two_releases-LinkLaws (codes "gateway") to_latest
      listed old_links (codes "7.2") (λ n. true) (λ n. false) (λ n. none) refl updated_outcome
      other_name no_link refl refl refl
