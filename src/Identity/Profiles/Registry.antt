-- ===== src/Identity/Profiles/Registry.antt =====
-- What the loaded registry of identity/profiles.py keeps: distinct names, and sources over HTTPS.
use agent_traffic_intelligen.Prelude.{
  String, Option, none, some, List, [], ◌∷◌, ◌++◌, true, false, ◌==◌, ◌≡◌, refl, subst, sym, Bool,
  All-both, any, All, All-append, All-map, arith, if◌then◌else◌, eq_iff,
}
use agent_traffic_intelligen.Prelude.Options.{bind_some, some_subst}
use agent_traffic_intelligen.Json.{Json, Items, Fields, null, obj, nil, cons, get, find}
use agent_traffic_intelligen.Runtime.{Runtime}
use agent_traffic_intelligen.Sources.Exchange.{SplitUri}
use agent_traffic_intelligen.Sources.Records.{scope_of}
use agent_traffic_intelligen.Network.Official.{RangeSourceProfile}
use agent_traffic_intelligen.Identity.Profiles.{
  ProviderProfile, CryptoProfile, CryptoSourceProfile, required_string, list_or_empty, equals_one,
  is_https, required_https_uri, semantics_of, interoperability_of, discovery_type_of,
  binding_policy_of, required_iso_date, parse_range_source, parse_range_sources, parse_agent,
  parse_agents, parse_crypto, crypto_of, parse_fcrdns, parse_provider, add_providers, providers_of,
  load_provider_profiles, lookup, provider_profile,
}

lookup-append :
    (key : String) (ps qs : List ProviderProfile) (p : ProviderProfile)
    → lookup key ps ≡ some p
    → lookup key (ps ++ qs) ≡ some p
unfolding lookup
lookup-append key [] qs p h = cc
lookup-append key (x ∷ ps) qs p h = ground (arith, lookup-append key ps qs p)

lookup-last :
    (ps : List ProviderProfile) (p : ProviderProfile)
    → any (λ q. q.provider == p.provider) ps ≡ false
    → lookup p.provider (ps ++ (p ∷ [])) ≡ some p
unfolding lookup any
lookup-last [] p h = ground (arith, eq_iff p.provider p.provider)
lookup-last (x ∷ ps) p h = ground (arith, lookup-last ps p)

-- Every profile is found under its name.
abbrev pub IsKeyed : List ProviderProfile → Type 0
IsKeyed ps = All (λ p. lookup p.provider ps ≡ some p) ps

IsKeyed-append :
    (ps : List ProviderProfile) (p : ProviderProfile)
    → any (λ q. q.provider == p.provider) ps ≡ false
    → IsKeyed ps
    → IsKeyed (ps ++ (p ∷ []))
IsKeyed-append ps p fresh keyed =
    All-append (λ q. lookup q.provider (ps ++ (p ∷ [])) ≡ some q) ps (p ∷ [])
      (All-map (λ q h. lookup-append q.provider ps (p ∷ []) q h) ps keyed)
      (lookup-last ps p fresh, tt)

module _ (py : Runtime) (urlsplit : String → Option SplitUri) where
  -- An address that is HTTPS, with a host and without credentials or a fragment.
  abbrev pub IsHttps : String → Type 0
  IsHttps uri = (parsed : SplitUri) × (urlsplit uri ≡ some parsed) × (is_https py parsed ≡ true)

  abbrev pub IsSecureAgent : CryptoSourceProfile → Type 0
  IsSecureAgent a = IsHttps a.signature_agent_uri × IsHttps a.directory_uri

  abbrev pub IsSecureCrypto : Option CryptoProfile → Type 0
  IsSecureCrypto none = Unit
  IsSecureCrypto (some c) = All IsSecureAgent c.signature_agents

  -- A profile whose every address is HTTPS.
  abbrev pub IsSecure : ProviderProfile → Type 0
  IsSecure p = All (λ s. IsHttps s.uri) p.range_sources × IsSecureCrypto p.crypto

  https_if :
      (parsed : SplitUri) (uri t : String)
      → (if is_https py parsed then some uri else none) ≡ some t
      → (is_https py parsed ≡ true) × (uri ≡ t)
  https_if parsed uri t h = ground arith

  required_https_uri-IsHttps :
      (v : Json) (t : String) → required_https_uri py urlsplit v ≡ some t → IsHttps t
  unfolding required_https_uri
  required_https_uri-IsHttps v t h =
      let (uri, e, h1) = bind_some (required_string v) _ t h in
      let (parsed, f, h2) = bind_some (urlsplit uri) _ t h1 in
      let (k, same) = https_if parsed uri t h2 in (parsed, cc (f, same), k)

  range_source-IsHttps :
      (raw : Fields) (s : RangeSourceProfile)
      → parse_range_source py urlsplit raw ≡ some s
      → IsHttps s.uri
  unfolding parse_range_source
  range_source-IsHttps raw s h =
      let (uri, e, h1) = bind_some (required_https_uri py urlsplit (get "uri" raw)) _ s h in
      let (_, _, h2) = bind_some (required_string (get "format_profile" raw)) _ s h1 in
      let (scope_text, _, h3) = bind_some (required_string (get "binding_scope" raw)) _ s h2 in
      let (_, _, h4) = bind_some (scope_of scope_text) _ s h3 in
      let (semantics_text, _, h5) =
        bind_some (required_string (get "negative_semantics" raw)) _ s h4 in
      let (_, _, h6) = bind_some (semantics_of semantics_text) _ s h5 in
      let (_, _, h7) = bind_some (required_iso_date py (get "reviewed_on" raw)) _ s h6 in
      some_subst (λ k. IsHttps k.uri) h7 (required_https_uri-IsHttps (get "uri" raw) uri e)

  range_sources-IsHttps :
      (items : Items) (ss : List RangeSourceProfile)
      → parse_range_sources py urlsplit items ≡ some ss
      → All (λ s. IsHttps s.uri) ss
  unfolding parse_range_sources
  range_sources-IsHttps nil ss h = some_subst (All (λ s. IsHttps s.uri)) h tt
  range_sources-IsHttps (cons (obj item) rest) ss h =
      let (s, e, h1) = bind_some (parse_range_source py urlsplit item) _ ss h in
      let (more, f, h2) = bind_some (parse_range_sources py urlsplit rest) _ ss h1 in
      some_subst (All (λ s. IsHttps s.uri)) h2
        (range_source-IsHttps item s e, range_sources-IsHttps rest more f)
  range_sources-IsHttps (cons _ rest) ss h = cc

  agent-IsSecure :
      (raw : Fields) (a : CryptoSourceProfile)
      → parse_agent py urlsplit raw ≡ some a
      → IsSecureAgent a
  unfolding parse_agent
  agent-IsSecure raw a h =
      let (uri, e, h1) =
        bind_some (required_https_uri py urlsplit (get "signature_agent_uri" raw)) _ a h in
      let (directory, f, h2) =
        bind_some (required_https_uri py urlsplit (get "directory_uri" raw)) _ a h1 in
      let (interoperability, _, h3) =
        bind_some (required_string (get "interoperability_profile" raw)) _ a h2 in
      let (_, _, h4) = bind_some (interoperability_of interoperability) _ a h3 in
      let (discovery, _, h5) = bind_some (required_string (get "discovery_type" raw)) _ a h4 in
      let (_, _, h6) = bind_some (discovery_type_of discovery) _ a h5 in
      let (policy, _, h7) =
        bind_some (required_string (get "response_binding_policy" raw)) _ a h6 in
      let (_, _, h8) = bind_some (binding_policy_of policy) _ a h7 in
      let (scope, _, h9) = bind_some (required_string (get "binding_scope" raw)) _ a h8 in
      let (_, _, h10) = bind_some (scope_of scope) _ a h9 in
      let (_, _, h11) = bind_some (required_iso_date py (get "reviewed_on" raw)) _ a h10 in
      (
        some_subst (λ k. IsHttps k.signature_agent_uri) h11
            (required_https_uri-IsHttps (get "signature_agent_uri" raw) uri e),
        some_subst (λ k. IsHttps k.directory_uri) h11
            (required_https_uri-IsHttps (get "directory_uri" raw) directory f),
      )

  agents-IsSecure :
      (items : Items) (ss : List CryptoSourceProfile)
      → parse_agents py urlsplit items ≡ some ss
      → All IsSecureAgent ss
  unfolding parse_agents
  agents-IsSecure nil ss h = some_subst (All IsSecureAgent) h tt
  agents-IsSecure (cons (obj item) rest) ss h =
      let (s, e, h1) = bind_some (parse_agent py urlsplit item) _ ss h in
      let (more, f, h2) = bind_some (parse_agents py urlsplit rest) _ ss h1 in
      some_subst (All IsSecureAgent) h2 (agent-IsSecure item s e, agents-IsSecure rest more f)
  agents-IsSecure (cons _ rest) ss h = cc

  crypto-IsSecure :
      (v : Json) (o : Option CryptoProfile) → parse_crypto py urlsplit v ≡ some o → IsSecureCrypto o
  unfolding parse_crypto crypto_of
  crypto-IsSecure null o h = some_subst IsSecureCrypto h tt
  crypto-IsSecure (obj raw) o h =
      let (c, e, h1) = bind_some (crypto_of py urlsplit raw) _ o h in
      let (items, _, h2) = bind_some (list_or_empty (find "signature_agents" raw)) _ c e in
      let (agents, f, h3) = bind_some (parse_agents py urlsplit items) _ c h2 in
      let (reviewed, _, h4) = bind_some (required_iso_date py (get "reviewed_on" raw)) _ c h3 in
      some_subst IsSecureCrypto h1
        (some_subst (λ k. All IsSecureAgent k.signature_agents) h4 (agents-IsSecure items agents f))
  crypto-IsSecure _ o h = cc

  provider-IsSecure :
      (name : String) (raw : Fields) (p : ProviderProfile)
      → parse_provider py urlsplit name raw ≡ some p
      → (p.provider ≡ name) × IsSecure p
  unfolding parse_provider
  provider-IsSecure name raw p h =
      let (items, _, h1) = bind_some (list_or_empty (find "range_sources" raw)) _ p h in
      let (sources, e, h2) = bind_some (parse_range_sources py urlsplit items) _ p h1 in
      let (dns, _, h3) = bind_some (parse_fcrdns py (get "fcrdns" raw)) _ p h2 in
      let (crypto, f, h4) = bind_some (parse_crypto py urlsplit (get "crypto" raw)) _ p h3 in
      some_subst (λ k. (k.provider ≡ name) × IsSecure k) h4
        (refl, (range_sources-IsHttps items sources e, crypto-IsSecure (get "crypto" raw) crypto f))

  -- What holds of the registry as it grows.
  IsWellFormed : List ProviderProfile → Type 0
  IsWellFormed ps = IsKeyed ps × All IsSecure ps

  fresh_provider :
      (name : String) (result : List ProviderProfile) (o : Option ProviderProfile)
      (p : ProviderProfile)
      → (if any (λ q. q.provider == name) result then none else o) ≡ some p
      → (any (λ q. q.provider == name) result ≡ false) × (o ≡ some p)
  fresh_provider name result o p h = ground arith

  add_providers-IsWellFormed :
      (result : List ProviderProfile) (items : Items) (ps : List ProviderProfile)
      → IsWellFormed result
      → add_providers py urlsplit result items ≡ some ps
      → IsWellFormed ps
  unfolding add_providers IsWellFormed
  add_providers-IsWellFormed result nil ps w h = some_subst IsWellFormed h w
  add_providers-IsWellFormed result (cons (obj raw) rest) ps (keyed, secure) h =
      let (name, _, h1) = bind_some (required_string (get "provider" raw)) _ ps h in
      let (p, e, h2) =
        bind_some
          (if any (λ q. q.provider == py.casefold name) result
            then none
            else parse_provider py urlsplit (py.casefold name) raw)
          _ ps h1 in
      let (fresh, made) =
        fresh_provider (py.casefold name) result (parse_provider py urlsplit (py.casefold name) raw)
          p e in
      let (same, safe) = provider-IsSecure (py.casefold name) raw p made in
      add_providers-IsWellFormed (result ++ (p ∷ [])) rest ps
        (
          IsKeyed-append result p
              (subst (λ n. any (λ q. q.provider == n) result ≡ false) (sym same) fresh) keyed,
          All-append IsSecure result (p ∷ []) secure (safe, tt),
        )
        h2
  add_providers-IsWellFormed result (cons _ rest) ps w h = cc

  if_one :
      (b : Bool) (o : Option (List ProviderProfile)) (ps : List ProviderProfile)
      → (if b then o else none) ≡ some ps
      → o ≡ some ps
  if_one b o ps h = ground arith

  -- In a registry that loads, every profile is the one that its name finds, in whatever case the name
  -- is spelled, and every source address of a profile is HTTPS with a host and without credentials or a fragment.
  pub load-IsSecure :
      (payload : Json) (ps : List ProviderProfile)
      → load_provider_profiles py urlsplit payload ≡ some ps
      → All
          (λ p.
            ((name : String) → py.casefold name ≡ p.provider → provider_profile py ps name ≡ some p)
            × IsSecure p)
          ps
  unfolding load_provider_profiles provider_profile IsWellFormed
  load-IsSecure (obj payload) ps h =
      let h1 = if_one (equals_one py (get "schema_version" payload)) _ ps h in
      let (items, _, h2) = bind_some (providers_of (get "providers" payload)) _ ps h1 in
      let (keyed, secure) = add_providers-IsWellFormed [] items ps (tt, tt) h2 in
      All-both
        (λ p.
          (name : String) → py.casefold name ≡ p.provider → lookup (py.casefold name) ps ≡ some p)
        IsSecure ps
        (All-map (λ p found name spelled. subst (λ k. lookup k ps ≡ some p) (sym spelled) found) ps
          keyed)
        secure
  load-IsSecure _ ps h = cc
