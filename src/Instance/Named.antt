-- ===== src/Instance/Named.antt =====
-- What ParseName reads of the identifiers that IDString and ShortName write
-- (tools/geneos/internal/instance/instance.go).
use cordial.Common.{
  ◌≡◌, ◌≢◌, ◌∙◌, refl, ap, Option, none, some, List, Bytes, codes, [], ◌∷◌, ◌++◌, if◌then◌else◌,
  arith, All, Bool-cases, inl, inr,
}
use cordial.Text.{cut, cut_prefix}
use cordial.Components.{Component, parse_component}
use cordial.Values.Normal.{cut_colon}
use cordial.Instance.Names.{Hosts, Parsed, parse_name, id_string, short_name, with_host}

-- A name that holds neither a colon nor an at sign.
abbrev pub IsSimple : Bytes → Type 0
IsSimple name = All (λ c. (c ≢ b':') × (c ≢ b'@')) name

cut_at : (i h : Bytes) → IsSimple i → cut (codes "@") (i ++ (b'@' ∷ h)) ≡ some (i, h)
unfolding cut cut_prefix
cut_at [] h p = refl
cut_at (c ∷ i) h ((_, n), p) = ground (arith, cut_at i h p)

cut-none : (i : Bytes) → IsSimple i → cut (codes "@") i ≡ none
unfolding cut cut_prefix
cut-none [] p = refl
cut-none (c ∷ i) ((_, n), p) = ground (arith, cut-none i p)

cut_colon-simple : (i : Bytes) → IsSimple i → cut (codes ":") i ≡ none
unfolding cut cut_prefix
cut_colon-simple [] p = refl
cut_colon-simple (c ∷ i) ((n, _), p) = ground (arith, cut_colon-simple i p)

cut_colon-host :
    (i h : Bytes) → IsSimple i → All (λ c. c ≢ b':') h → cut (codes ":") (i ++ (b'@' ∷ h)) ≡ none
unfolding cut cut_prefix
cut_colon-host [] [] p q = refl
cut_colon-host [] (c ∷ h) p (n, q) = ground (arith, cut_colon-host [] h p q)
cut_colon-host (c ∷ i) h ((n, _), p) q = ground (arith, cut_colon-host i h p q)

module _ (hosts : Hosts) (registered : List Component) where
  -- What is parsed of an identifier.
  abbrev pub parsed_as : hosts.Host → Option Component → Bytes → Parsed hosts registered
  parsed_as host ct name = record { host = host; ct = ct; instance_name = name }

  parse_name-typed :
      (default : hosts.Host) (s t r : Bytes)
      → cut (codes ":") s ≡ some (t, r)
      → parse_name hosts registered default s
        ≡ with_host hosts registered default (parse_component registered t) r
  unfolding parse_name
  parse_name-typed default s t r e = rw (e, parse_name) refl

  parse_name-untyped :
      (default : hosts.Host) (s : Bytes)
      → cut (codes ":") s ≡ none
      → parse_name hosts registered default s ≡ with_host hosts registered default none s
  unfolding parse_name
  parse_name-untyped default s e = rw (e, parse_name) refl

  with_host-at :
      (default host : hosts.Host) (ct : Option Component) (name : Bytes)
      → IsSimple name
      → hosts.get_host (hosts.host_name host) ≡ host
      → with_host hosts registered default ct (name ++ (b'@' ∷ hosts.host_name host))
        ≡ parsed_as host ct name
  with_host-at default host ct name p g =
      rw (cut_at name (hosts.host_name host) p, with_host) (ap (λ h. parsed_as h ct name) g)

  with_host-none :
      (default : hosts.Host) (ct : Option Component) (name : Bytes)
      → IsSimple name
      → with_host hosts registered default ct name ≡ parsed_as default ct name
  with_host-none default ct name p = rw (cut-none name p, with_host) refl

  -- The identifier of an instance whose type's name is registered and has no colon, whose own name has
  -- neither a colon nor an at sign, and whose host is found by its name, is parsed into these three: on
  -- the local host with that host as the default, elsewhere with any default.
  pub parse_name-id_string :
      (default host : hosts.Host) (ct : Component) (name : Bytes)
      → All (λ c. c ≢ b':') ct.name
      → parse_component registered ct.name ≡ some ct
      → IsSimple name
      → hosts.get_host (hosts.host_name host) ≡ host
      → parse_name hosts registered
          (if hosts.is_localhost host then host else default)
          (id_string hosts registered ct host name)
        ≡ parsed_as host (some ct) name
  unfolding id_string
  parse_name-id_string default host ct name c r p g = elim (Bool-cases (hosts.is_localhost host)) [
    | inl e ↦ rw e (
        parse_name-typed host _ ct.name name (cut_colon ct.name name c)
        ∙ (ap (λ t. with_host hosts registered host t name) r
            ∙ with_host-none host (some ct) name p))
    | inr e ↦ rw e (
        parse_name-typed default _ ct.name _
          (cut_colon ct.name (name ++ (b'@' ∷ hosts.host_name host)) c)
        ∙ (ap (λ t. with_host hosts registered default t (name ++ (b'@' ∷ hosts.host_name host))) r
            ∙ with_host-at default host (some ct) name p g))
  ]

  -- A short name is parsed into the host and the name, with no type, whatever the default host is.
  parse_name-short_name :
      (default host : hosts.Host) (name : Bytes)
      → IsSimple name
      → All (λ c. c ≢ b':') (hosts.host_name host)
      → hosts.get_host (hosts.host_name host) ≡ host
      → parse_name hosts registered default (short_name hosts registered host name)
        ≡ parsed_as host none name
  unfolding short_name
  parse_name-short_name default host name p q g =
      parse_name-untyped default _ (cut_colon-host name (hosts.host_name host) p q)
      ∙ with_host-at default host none name p g
