-- ===== src/Values/Applied.antt =====
-- The environment variables of an instance after Set, and the settings that Set leaves alone
-- (tools/geneos/internal/values/set.go).
use cordial.Common.{
  ◌≡◌, refl, sym, ap, ◌∙◌, inl, inr, Bool, false, some, List, Bytes, codes, eqb, [], ◌∷◌,
  if◌then◌else◌, arith, any, All,
}
use cordial.Components.{Component}
use cordial.Values.Conf.{Conf, IsPlain, IsLower, SliceLaws}
use cordial.Values.Slices.{get_name_value_key, update_slice}
use cordial.Values.Merged.{with_key, has_key, update_slice-plain, stored-IsPlain}
use cordial.Values.Settings.{
  Values, KeyStore, SecureValue, update_encoded, Result, done, stopped, and_then, with_secrets,
  set_params, env_secrets, set_envs, finished, set,
}
use cordial.Values.Framed.{slice_frame, IsUntouched, finished_frame}

-- The pairs that the secure values are stored as: none where there are none.
abbrev pub Secrets : KeyStore → List SecureValue → List Bytes → Type 0
Secrets k [] secrets = secrets ≡ []
Secrets k (v ∷ values) secrets = update_encoded k v values ≡ inr secrets

abbrev pub named : Bytes → List Bytes → List Bytes
named n l = with_key get_name_value_key n l

abbrev pub has_name : Bytes → List Bytes → Bool
has_name n l = has_key get_name_value_key n l

module _ (c : Conf) (laws : SliceLaws c) (k : KeyStore) where
  Secrets-added :
      (n : Bytes) (values : List SecureValue) (secrets : List Bytes) (s t : c.State)
      → All IsPlain (c.stored_slice (codes "env") s)
      → Secrets k values secrets
      → with_secrets c k values (env_secrets c) s ≡ done t
      → named n (c.stored_slice (codes "env") t)
        ≡ (if has_name n secrets then named n secrets else named n (c.stored_slice (codes "env") s))
  unfolding any
  Secrets-added n [] secrets s t i h e =
      rw h (ap (λ r. named n (c.stored_slice (codes "env") r)) (ground (arith, e)))
  Secrets-added n (v ∷ values) secrets s t i h e = after (ground (arith, h, e))
    where
      after :
          t ≡ (update_slice c get_name_value_key (codes "env") secrets s).0
          → named n (c.stored_slice (codes "env") t) ≡ (
              if has_name n secrets
              then named n secrets
              else named n (c.stored_slice (codes "env") s))
      after p =
          rw p (
            update_slice-plain c laws get_name_value_key n (codes "env") secrets s (ground arith) i)

  -- The result of the whole, from the parameters on.
  from_params :
      (ct : Component) (values : Values) (s s1 s' : c.State)
      → set_params c k values s ≡ done s1
      → set c k ct values s ≡ some (done s')
      → finished c k ct values (set_envs c k values s1) ≡ some (done s')
  unfolding set
  from_params ct values s s1 s' hp h =
      ap (λ r. finished c k ct values (and_then c r (set_envs c k values))) (sym hp) ∙ h

  -- The configuration after the environment variables, if there is one at the end.
  reached :
      (ct : Component) (values : Values) (r : Result c) (s' : c.State)
      → finished c k ct values r ≡ some (done s')
      → ((t : c.State) × (r ≡ done t))
  reached ct values (done t) s' h = (t, refl)
  reached ct values (stopped e t) s' h = ground (arith, h)

  envs_untouched :
      (key : Bytes) (values : Values) (s t : c.State)
      → IsLower key
      → eqb key (codes "env") ≡ false
      → set_envs c k values s ≡ done t
      → c.stored_slice key t ≡ c.stored_slice key s
  unfolding set_envs
  envs_untouched key values s t low h e =
      secrets_frame values.secure_envs
        (update_slice c get_name_value_key (codes "env") values.envs s).0 e
      ∙ slice_frame c laws get_name_value_key key (codes "env") values.envs s low (ground arith) h
    where
      secrets_frame :
          (l : List SecureValue) (u : c.State)
          → with_secrets c k l (env_secrets c) u ≡ done t
          → c.stored_slice key t ≡ c.stored_slice key u
      secrets_frame [] u p = ap (c.stored_slice key) (ground (arith, p))
      secrets_frame (v ∷ l) u p =
          elim (update_encoded k v l)
              as (λ o.
                (elim o as (λ _. Result c) [
                  | inl x ↦ stopped x u
                  | inr secrets ↦ env_secrets c secrets u
                ])
                  ≡ done t
                → c.stored_slice key t ≡ c.stored_slice key u) [
                  | inl x ↦ λ q. ground (arith, q)
                  | inr secrets ↦ λ q.
                      ap (c.stored_slice key) (ground (arith, q))
                      ∙ slice_frame c laws get_name_value_key key (codes "env") secrets u low
                          (ground arith) h
                ]
            p

  -- Where Set ends without an error, and the environment variables that are given and that were there when
  -- the parameters were set expand to themselves, what is stored under a name is the secure values that are
  -- given for it, encoded; without these the plain ones that are given, and without these those that were
  -- there.
  pub set-named_envs :
      (ct : Component) (values : Values) (n : Bytes) (secrets : List Bytes) (s s1 s' : c.State)
      → All IsPlain values.envs
      → All IsPlain (c.stored_slice (codes "env") s1)
      → Secrets k values.secure_envs secrets
      → set_params c k values s ≡ done s1
      → set c k ct values s ≡ some (done s')
      → named n (c.stored_slice (codes "env") s') ≡ (
          if has_name n secrets
          then named n secrets
          else if has_name n values.envs
          then named n values.envs
          else named n (c.stored_slice (codes "env") s1))
  unfolding set_envs eqb
  set-named_envs ct values n secrets s s1 s' pe po hs hp h =
      let ends = from_params ct values s s1 s' hp h in
      let (t, e) = reached ct values (set_envs c k values s1) s' ends in
      ap (named n) (
        finished_frame c laws k (codes "env") ct values t s' (ground arith)
          (refl, refl, refl, inr (refl, refl)) (ap (finished c k ct values) (sym e) ∙ ends))
      ∙ (Secrets-added n values.secure_envs secrets
            (update_slice c get_name_value_key (codes "env") values.envs s1).0 t
            (stored-IsPlain c laws get_name_value_key (codes "env") values.envs s1 (ground arith) pe
              po)
            hs e
          ∙ ap (λ l. if has_name n secrets then named n secrets else l)
              (update_slice-plain c laws get_name_value_key n (codes "env") values.envs s1
                (ground arith) po))

  -- A slice that is not the environment variables and that the type of the component does not allow, as
  -- the types and attributes of a component that is no san, is stored after Set as the parameters made it.
  -- Its key is of lower-case letters.
  pub set-untouched :
      (ct : Component) (values : Values) (key : Bytes) (s s1 s' : c.State)
      → IsLower key
      → IsUntouched ct key
      → eqb key (codes "env") ≡ false
      → set_params c k values s ≡ done s1
      → set c k ct values s ≡ some (done s')
      → c.stored_slice key s' ≡ c.stored_slice key s1
  set-untouched ct values key s s1 s' low u he hp h =
      let ends = from_params ct values s s1 s' hp h in
      let (t, e) = reached ct values (set_envs c k values s1) s' ends in
      finished_frame c laws k key ct values t s' low u (ap (finished c k ct values) (sym e) ∙ ends)
      ∙ envs_untouched key values s1 t low he e
