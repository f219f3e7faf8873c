-- ===== src/Crypto/Discovery/Cached/Provenance.antt =====
-- Where the keys of identity/crypto/cached_discovery.py come from.
use agent_traffic_intelligen.Prelude.{
  String, Option, none, some, List, true, ◌≡◌, ◌⊎◌, refl, inl, inr, Bool-cases, [], ◌∷◌,
}
use agent_traffic_intelligen.Json.{Fields}
use agent_traffic_intelligen.Runtime.{Moment, Runtime}
use agent_traffic_intelligen.Sources.Documents.{SourceType, SourceDocument}
use agent_traffic_intelligen.Sources.Exchange.{SplitUri}
use agent_traffic_intelligen.Sources.Trust.{Urls, canonicalize_source_uri, allows}
use agent_traffic_intelligen.Sources.Cache.{Store, get_document}
use agent_traffic_intelligen.Crypto.Keys.{JwkSetKey}
use agent_traffic_intelligen.Crypto.Keys.Documents.{parse_key_directory, parse_jwk_set}
use agent_traffic_intelligen.Crypto.SignatureAgent.{
  SignatureAgentDiscoveryType, SignatureAgentReference, directory, jwks_uri, cimd,
}
use agent_traffic_intelligen.Crypto.AgentCard.{AgentCard, Parsed, parse_agent_card}
use agent_traffic_intelligen.Crypto.Discovery.{
  SignatureAgentResolutionTarget, plan_signature_agent_resolution,
}
use agent_traffic_intelligen.Crypto.Discovery.Cached.{
  found, found_or, ResolvedSignatureAgentMaterial, same_type, is_stale, card_or, violation,
  checked_document, require_cached_document, planned, resolve_directory, resolve_jwks_uri,
  referenced_keys, card_keys, resolve_cimd, resolve_by_type, resolve_cached_signature_agent,
}
use agent_traffic_intelligen.Crypto.Discovery.Cached.Results.{
  bind_found, found_subst, if_not_fail, found-some, card_done, same_type_lem, IsFreshAt,
  is_stale_lem,
}

module _ (py : Runtime) (urls : Urls) (urlsplit : String → Option SplitUri)
    (member_digest : Fields → String) (store : Store) (allowed_uris : List String)
    (now : Moment) where
  -- The document that the cache holds under the address, which is allowed, of the type and not expired.
  abbrev pub IsUsable : String → SourceType → SourceDocument → Type 0
  IsUsable uri expected_type d =
      (allows py urls allowed_uris uri ≡ true)
      × (get_document py urls store uri ≡ some (some d))
      × (d.metadata.source_type ≡ expected_type)
      × IsFreshAt now d.metadata.expires_at

  checked_document_lem :
      (t : SourceType) (o : Option (Option SourceDocument)) (d : SourceDocument)
      → checked_document py urls urlsplit member_digest store allowed_uris now t o ≡ found d
      → (o ≡ some (some d)) × (d.metadata.source_type ≡ t) × IsFreshAt now d.metadata.expires_at
  unfolding checked_document
  checked_document_lem t none d h = cc
  checked_document_lem t (some none) d h = cc
  checked_document_lem t (some (some c)) d h =
      elim (Bool-cases (same_type c.metadata.source_type t)) [
        | inr e ↦ cc (rw e at h)
        | inl e ↦ elim (Bool-cases (is_stale c.metadata.expires_at now)) [
          | inl f ↦ cc (rw (e, f) at h)
          | inr f ↦
              found_subst
                (λ x.
                  (some (some c) ≡ some (some x))
                  × (x.metadata.source_type ≡ t)
                  × IsFreshAt now x.metadata.expires_at)
                (rw (e, f) at h)
                (
                  refl,
                  same_type_lem c.metadata.source_type t e,
                  is_stale_lem now c.metadata.expires_at f,
                )
        ]
      ]

  required_document-IsUsable :
      (uri : String) (t : SourceType) (d : SourceDocument)
      → require_cached_document py urls urlsplit member_digest store allowed_uris now uri t
        ≡ found d
      → IsUsable uri t d
  unfolding require_cached_document
  required_document-IsUsable uri t d h =
      let (aware, h1) = if_not_fail now.is_aware _ _ d h in
      let (allowed, h2) = if_not_fail (allows py urls allowed_uris uri) _ _ d h1 in
      let (held, same, fresh) = checked_document_lem t (get_document py urls store uri) d h2 in
      (allowed, held, same, fresh)

  -- The target that is planned for the reference.
  abbrev pub IsPlanned : SignatureAgentReference → SignatureAgentResolutionTarget → Type 0
  IsPlanned r target = plan_signature_agent_resolution py urls r ≡ some target

  planned_lem :
      (r : SignatureAgentReference) (target : SignatureAgentResolutionTarget)
      → planned py urls urlsplit member_digest store allowed_uris now r ≡ found target
      → IsPlanned r target
  unfolding planned
  planned_lem r target h = found-some _ (plan_signature_agent_resolution py urls r) target h

  -- Keys of one document, of the type, at the planned address.
  abbrev pub IsFromSet :
      SourceType → SignatureAgentReference → ResolvedSignatureAgentMaterial → Type 0
  IsFromSet t r m =
      (target : SignatureAgentResolutionTarget) × (d : SourceDocument) × IsPlanned r target
      × IsUsable target.fetch_uri t d
      × (m.identifier_uri ≡ target.identifier_uri)
      × (m.documents ≡ d ∷ [])
      × (parse_jwk_set member_digest py d.content ≡ some m.jwk_set)

  -- Keys that a card holds, or those of the set at the canonical form of the address that it gives.
  abbrev pub IsFromCard :
      SourceDocument
      → Option (List JwkSetKey)
      → Option String
      → ResolvedSignatureAgentMaterial
      → Type 0
  IsFromCard d inline reference m =
      ((inline ≡ some m.jwk_set) × (m.documents ≡ d ∷ []))
      ⊎ ((jwks : String) × (uri : String) × (k : SourceDocument) × (inline ≡ none)
          × (reference ≡ some jwks)
          × (canonicalize_source_uri py urls jwks ≡ some uri)
          × IsUsable uri SourceType.jwk_set k
          × (m.documents ≡ d ∷ k ∷ [])
          × (parse_jwk_set member_digest py k.content ≡ some m.jwk_set))

  -- Keys by way of the card at the planned address.
  abbrev pub IsByCard : SignatureAgentReference → ResolvedSignatureAgentMaterial → Type 0
  IsByCard r m =
      (target : SignatureAgentResolutionTarget) × (d : SourceDocument) × (card : AgentCard)
      × IsPlanned r target
      × IsUsable target.fetch_uri SourceType.agent_card d
      × (parse_agent_card py urlsplit member_digest d.content (some target.fetch_uri)
          ≡ Parsed.done card)
      × (m.identifier_uri ≡ target.identifier_uri)
      × IsFromCard d card.inline_jwks card.jwks_uri m

  -- Where the keys of a reference of each type come from.
  abbrev pub IsTraceable :
      SignatureAgentDiscoveryType
      → SignatureAgentReference
      → ResolvedSignatureAgentMaterial
      → Type 0
  IsTraceable directory r m = IsFromSet SourceType.key_directory r m
  IsTraceable jwks_uri r m = IsFromSet SourceType.jwk_set r m
  IsTraceable cimd r m = IsByCard r m

  resolve_directory-IsFromSet :
      (r : SignatureAgentReference) (m : ResolvedSignatureAgentMaterial)
      → resolve_directory py urls urlsplit member_digest store allowed_uris now r ≡ found m
      → IsFromSet SourceType.key_directory r m
  unfolding resolve_directory
  resolve_directory-IsFromSet r m h =
      let (target, plan, h1) =
        bind_found (planned py urls urlsplit member_digest store allowed_uris now r) _ m h in
      let (d, usable, h2) =
        bind_found
          (require_cached_document py urls urlsplit member_digest store allowed_uris now
            target.fetch_uri SourceType.key_directory)
          _ m h1 in
      let (_, _, h3) =
        bind_found
          (found_or (violation "cached Signature-Agent directory is malformed")
            (parse_key_directory member_digest py d.content))
          _ m h2 in
      let (keys, e, h4) =
        bind_found
          (found_or (violation "cached Signature-Agent directory is malformed")
            (parse_jwk_set member_digest py d.content))
          _ m h3 in
      found_subst (IsFromSet SourceType.key_directory r) h4 (
        target,
        d,
        planned_lem r target plan,
        required_document-IsUsable target.fetch_uri SourceType.key_directory d usable,
        refl,
        refl,
        found-some _ (parse_jwk_set member_digest py d.content) keys e,
      )

  resolve_jwks_uri-IsFromSet :
      (r : SignatureAgentReference) (m : ResolvedSignatureAgentMaterial)
      → resolve_jwks_uri py urls urlsplit member_digest store allowed_uris now r ≡ found m
      → IsFromSet SourceType.jwk_set r m
  unfolding resolve_jwks_uri
  resolve_jwks_uri-IsFromSet r m h =
      let (target, plan, h1) =
        bind_found (planned py urls urlsplit member_digest store allowed_uris now r) _ m h in
      let (d, usable, h2) =
        bind_found
          (require_cached_document py urls urlsplit member_digest store allowed_uris now
            target.fetch_uri SourceType.jwk_set)
          _ m h1 in
      let (keys, e, h3) =
        bind_found
          (found_or (violation "cached Signature-Agent JWK Set is malformed")
            (parse_jwk_set member_digest py d.content))
          _ m h2 in
      found_subst (IsFromSet SourceType.jwk_set r) h3 (
        target,
        d,
        planned_lem r target plan,
        required_document-IsUsable target.fetch_uri SourceType.jwk_set d usable,
        refl,
        refl,
        found-some _ (parse_jwk_set member_digest py d.content) keys e,
      )

  card_keys-IsFromCard :
      (d : SourceDocument) (inline : Option (List JwkSetKey)) (reference : Option String)
      (identifier : String) (m : ResolvedSignatureAgentMaterial)
      → card_keys py urls urlsplit member_digest store allowed_uris now identifier d inline
          reference
        ≡ found m
      → (m.identifier_uri ≡ identifier) × IsFromCard d inline reference m
  unfolding card_keys referenced_keys
  card_keys-IsFromCard d (some keys) reference identifier m h =
      found_subst (λ x. (x.identifier_uri ≡ identifier) × IsFromCard d (some keys) reference x) h
        (refl, inl (refl, refl))
  card_keys-IsFromCard d none none identifier m h = cc
  card_keys-IsFromCard d none (some jwks) identifier m h =
      let (address, canonical, h1) =
        bind_found
          (found_or (violation "cached CIMD jwks_uri is not acceptable HTTPS")
            (canonicalize_source_uri py urls jwks))
          _ m h in
      let (k, usable, h2) =
        bind_found
          (require_cached_document py urls urlsplit member_digest store allowed_uris now address
            SourceType.jwk_set)
          _ m h1 in
      let (keys, f, h3) =
        bind_found
          (found_or (violation "cached CIMD JWK Set is malformed")
            (parse_jwk_set member_digest py k.content))
          _ m h2 in
      found_subst (λ x. (x.identifier_uri ≡ identifier) × IsFromCard d none (some jwks) x) h3
        (
          refl,
          inr (
            jwks,
            address,
            k,
            refl,
            refl,
            found-some _ (canonicalize_source_uri py urls jwks) address canonical,
            required_document-IsUsable address SourceType.jwk_set k usable,
            refl,
            found-some _ (parse_jwk_set member_digest py k.content) keys f,
          ),
        )

  resolve_cimd-IsByCard :
      (r : SignatureAgentReference) (m : ResolvedSignatureAgentMaterial)
      → resolve_cimd py urls urlsplit member_digest store allowed_uris now r ≡ found m
      → IsByCard r m
  unfolding resolve_cimd
  resolve_cimd-IsByCard r m h =
      let (target, plan, h1) =
        bind_found (planned py urls urlsplit member_digest store allowed_uris now r) _ m h in
      let (d, usable, h2) =
        bind_found
          (require_cached_document py urls urlsplit member_digest store allowed_uris now
            target.fetch_uri SourceType.agent_card)
          _ m h1 in
      let (card, e, h3) =
        bind_found
          (card_or (parse_agent_card py urlsplit member_digest d.content (some target.fetch_uri))) _
          m h2 in
      let (identifier, keys) =
        card_keys-IsFromCard d card.inline_jwks card.jwks_uri target.identifier_uri m h3 in
      (
        target,
        d,
        card,
        planned_lem r target plan,
        required_document-IsUsable target.fetch_uri SourceType.agent_card d usable,
        card_done _ card e,
        identifier,
        keys,
      )

  by_type-IsTraceable :
      (t : SignatureAgentDiscoveryType) (r : SignatureAgentReference)
      (m : ResolvedSignatureAgentMaterial)
      → resolve_by_type py urls urlsplit member_digest store allowed_uris now t r ≡ found m
      → IsTraceable t r m
  unfolding resolve_by_type
  by_type-IsTraceable directory r m h = resolve_directory-IsFromSet r m h
  by_type-IsTraceable jwks_uri r m h = resolve_jwks_uri-IsFromSet r m h
  by_type-IsTraceable cimd r m h = resolve_cimd-IsByCard r m h

  -- Keys that are resolved come from the planned target of the reference. For a directory or a key set they are
  -- those of the document that the cache holds at the target's address, of that type; for a card they are
  -- those that the card at that address holds itself, or, where it holds none, those of the key set at the
  -- canonical form of the address that it gives. Each of these addresses is allowed, and each document is of
  -- the type asked for there and not expired at the given time; these are the documents reported.
  pub resolved-IsTraceable :
      (r : SignatureAgentReference) (m : ResolvedSignatureAgentMaterial)
      → resolve_cached_signature_agent py urls urlsplit member_digest store allowed_uris now r
        ≡ found m
      → IsTraceable r.discovery_type r m
  unfolding resolve_cached_signature_agent
  resolved-IsTraceable r m h = by_type-IsTraceable r.discovery_type r m h
