-- ===== src/Crypto/Discovery/Planning.antt =====
-- The planned addresses of identity/crypto/discovery.py and the canonical ones of
-- identity/sources/trust.py.
use agent_traffic_intelligen.Prelude.{
  ℕ, String, ap, Option, none, some, Bool, true, false, ◌≡◌, refl, ◌∙◌, Option-cases, inl, inr, not,
  ◌==◌, ◌&&◌, opt_eq, if◌then◌else◌,
}
use agent_traffic_intelligen.Prelude.Options.{◌>>=◌}
use agent_traffic_intelligen.Runtime.{Runtime}
use agent_traffic_intelligen.Sources.Trust.{
  Urls, SplitSource, canonicalize_source_uri, host_of, netloc_of,
}
use agent_traffic_intelligen.Sources.Trust.Percent.{normalize_percent_encoding}
use agent_traffic_intelligen.Crypto.Discovery.Addresses.{
  CanonicalParts, canonical_https, checked_hostname, location_of,
}
use agent_traffic_intelligen.Crypto.Discovery.Agreement.{
  encoding_same, path_same, location_same, host_same,
}
use agent_traffic_intelligen.Crypto.SignatureAgent.{
  SignatureAgentDiscoveryType, SignatureAgentReference, jwks_uri, cimd, directory,
}
use agent_traffic_intelligen.Crypto.Discovery.{
  SignatureAgentResolutionTarget, plan_signature_agent_resolution, target_of, member_target,
}

abbrev pub fetch_uri_of : Option SignatureAgentResolutionTarget → Option String
fetch_uri_of none = none
fetch_uri_of (some t) = some t.fetch_uri

abbrev pub is_directory : SignatureAgentDiscoveryType → Bool
is_directory directory = true
is_directory _ = false

module _ (py : Runtime) (urls : Urls) where
  -- The address of the parts.
  joined : Option CanonicalParts → Option String
  joined none = none
  joined (some parts) = some (urls.urlunsplit parts.netloc parts.path parts.query)

  -- The host that trust.py checks.
  checked_host : SplitSource → Option String
  checked_host parsed =
      if not (py.casefold parsed.scheme == "https")
      then none
      else if not (opt_eq parsed.username none && opt_eq parsed.password none)
      then none
      else host_of py urls parsed.hostname

  checked_same : (parsed : SplitSource) → checked_hostname py urls parsed ≡ checked_host parsed
  unfolding checked_hostname checked_host
  checked_same parsed =
      ap
        (λ o.
          if not (py.casefold parsed.scheme == "https")
          then none
          else if not (opt_eq parsed.username none && opt_eq parsed.password none)
          then none
          else o)
        (host_same py urls parsed.hostname)

  -- The address of equal parts.
  address_same :
      (hostname : String) (port : Option ℕ) (path query : String)
      → urls.urlunsplit
          (location_of py urls hostname port)
          (agent_traffic_intelligen.Crypto.Discovery.Addresses.remove_dot_segments path)
          query
        ≡ urls.urlunsplit
            (netloc_of py urls hostname port)
            (agent_traffic_intelligen.Sources.Trust.Segments.remove_dot_segments path)
            query
  address_same hostname port path query =
      rw (location_same py urls hostname port, path_same path) refl

  canonical_parts :
      (uri : String) → joined (canonical_https py urls uri) ≡ canonicalize_source_uri py urls uri
  unfolding joined canonical_https canonicalize_source_uri checked_host
  canonical_parts uri = elim (Option-cases (urls.urlsplit uri)) [
    | inl e ↦ rw (canonical_https, canonicalize_source_uri, e) refl
    | inr (parsed, e) ↦ elim (Option-cases (checked_host parsed)) [
      | inl f ↦
          let f' = checked_same parsed ∙ f in
          rw (canonical_https, canonicalize_source_uri, e, f, f') refl
      | inr (hostname, f) ↦
          let f' = checked_same parsed ∙ f in
          let raw_path = (if parsed.path == "" then "/" else parsed.path) in
          elim (Option-cases (normalize_percent_encoding raw_path)) [
            | inl g ↦
                let g' = encoding_same raw_path ∙ g in
                rw (canonical_https, canonicalize_source_uri, e, f, f', g, g') refl
            | inr (path, g) ↦
                let g' = encoding_same raw_path ∙ g in
                elim (Option-cases (normalize_percent_encoding parsed.query)) [
                  | inl h ↦
                      let h' = encoding_same parsed.query ∙ h in
                      rw (canonical_https, canonicalize_source_uri, e, f, f', g, g', h, h') refl
                  | inr (query, h) ↦
                      let h' = encoding_same parsed.query ∙ h in
                      rw (canonical_https, canonicalize_source_uri, e, f, f', g, g', h, h')
                        (ap some (address_same hostname parsed.port path query))
                ]
          ]
    ]
  ]

  member_fetch :
      (t : SignatureAgentDiscoveryType) (o : Option CanonicalParts)
      → is_directory t ≡ false
      → fetch_uri_of (o >>= target_of py urls t) ≡ joined o
  unfolding joined target_of member_target
  member_fetch directory o h = cc
  member_fetch jwks_uri none h = refl
  member_fetch jwks_uri (some parts) h = refl
  member_fetch cimd none h = refl
  member_fetch cimd (some parts) h = refl

  -- A key set or a card is planned, by the normalisation of discovery.py, to be fetched at the address
  -- that is the canonical form of its member's address by the separate normalisation of trust.py, and
  -- planning fails just where the address has no canonical form.
  pub fetch_uri-plan :
      (reference : SignatureAgentReference)
      → is_directory reference.discovery_type ≡ false
      → fetch_uri_of (plan_signature_agent_resolution py urls reference)
        ≡ canonicalize_source_uri py urls reference.uri
  unfolding plan_signature_agent_resolution
  fetch_uri-plan reference h =
      member_fetch reference.discovery_type (canonical_https py urls reference.uri) h
      ∙ canonical_parts reference.uri
