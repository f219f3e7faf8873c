-- ===== src/Crypto/Discovery/Cached.antt =====
-- identity/crypto/cached_discovery.py: keys of a Signature-Agent member from the local cache alone.
pub mod Results
pub mod Provenance
use agent_traffic_intelligen.Prelude.{
  ℕ, String, Option, none, some, List, [], ◌∷◌, Bool, true, false, not, ltb, if◌then◌else◌,
}
use agent_traffic_intelligen.Json.{Fields}
use agent_traffic_intelligen.Runtime.{Moment, Runtime}
use agent_traffic_intelligen.Sources.Documents.{SourceType, type_value, SourceDocument}
use agent_traffic_intelligen.Sources.Exchange.{SplitUri}
use agent_traffic_intelligen.Sources.Trust.{Urls, canonicalize_source_uri, allows}
use agent_traffic_intelligen.Sources.Cache.{Store, get_document}
use agent_traffic_intelligen.Crypto.Keys.{JwkSetKey, DirectoryKey}
use agent_traffic_intelligen.Crypto.Keys.Documents.{parse_key_directory, parse_jwk_set}
use agent_traffic_intelligen.Crypto.SignatureAgent.{
  SignatureAgentDiscoveryType, SignatureAgentReference, directory, jwks_uri, cimd,
}
use agent_traffic_intelligen.Crypto.AgentCard.{AgentCard, Parsed, parse_agent_card}
use agent_traffic_intelligen.Crypto.Discovery.{
  SignatureAgentResolutionTarget, plan_signature_agent_resolution,
}

-- What a resolution raises: `CachedDiscoveryUnavailable`, `CachedDiscoveryStale`, `CachedDiscoveryError`,
-- `SignatureAgentResolutionError`, or another exception.
pub data DiscoveryFailure : Type 0 where
  unavailable : String → DiscoveryFailure
  stale : DiscoveryFailure
  violation : String → DiscoveryFailure
  unresolvable : DiscoveryFailure
  other_error : DiscoveryFailure

pub data Discovery {ℓ} (A : Type ℓ) : Type ℓ where
  found : A → Discovery A
  fail : DiscoveryFailure → Discovery A

infixl 5 ◌>>=◌
abbrev pub ◌>>=◌ {ℓ κ} : {A : Type ℓ} {B : Type κ} → Discovery A → (A → Discovery B) → Discovery B
found a >>= f = f a
fail e >>= f = fail e

abbrev pub found_or {ℓ} : {A : Type ℓ} → DiscoveryFailure → Option A → Discovery A
found_or e none = fail e
found_or e (some a) = found a

-- `ResolvedSignatureAgentMaterial`
pub record ResolvedSignatureAgentMaterial : Type 0 where
  pub identifier_uri : String
  pub discovery_type : SignatureAgentDiscoveryType
  pub jwk_set : List JwkSetKey
  pub documents : List SourceDocument

-- `source_type is expected_type`
unfoldable pub same_type : SourceType → SourceType → Bool
same_type SourceType.ip_ranges SourceType.ip_ranges = true
same_type SourceType.key_directory SourceType.key_directory = true
same_type SourceType.jwk_set SourceType.jwk_set = true
same_type SourceType.agent_card SourceType.agent_card = true
same_type SourceType.standard_profile SourceType.standard_profile = true
same_type _ _ = false

-- `expires_at is not None and expires_at < now`
unfoldable pub is_stale : Option Moment → Moment → Bool
is_stale none now = false
is_stale (some t) now = ltb t.instant now.instant

-- What the card parser raises, as `_resolve_cimd` passes it on.
unfoldable pub card_or : Parsed AgentCard → Discovery AgentCard
card_or (Parsed.done card) = found card
card_or Parsed.format_error = fail (violation "cached Signature-Agent CIMD card is malformed")
card_or Parsed.value_error = fail other_error

module _ (py : Runtime) (urls : Urls) (urlsplit : String → Option SplitUri)
    (member_digest : Fields → String) (store : Store) (allowed_uris : List String)
    (now : Moment) where
  -- The checks on a cached document.
  unfoldable pub checked_document :
      SourceType → Option (Option SourceDocument) → Discovery SourceDocument
  checked_document expected_type none = fail other_error
  checked_document expected_type (some none) =
      fail (unavailable "Signature-Agent source is not present in cache")
  checked_document expected_type (some (some document)) =
      if not (same_type document.metadata.source_type expected_type)
      then fail (violation (type_value expected_type))
      else if is_stale document.metadata.expires_at now
      then fail stale
      else found document

  -- `_require_cached_document`
  unfoldable pub require_cached_document : String → SourceType → Discovery SourceDocument
  require_cached_document uri expected_type =
      if not now.is_aware
      then fail other_error
      else if not (allows py urls allowed_uris uri)
      then fail (unavailable "Signature-Agent source is not allowlisted")
      else checked_document expected_type (get_document py urls store uri)

  -- `plan_signature_agent_resolution`, as its callers take it
  unfoldable pub planned : SignatureAgentReference → Discovery SignatureAgentResolutionTarget
  planned reference = found_or unresolvable (plan_signature_agent_resolution py urls reference)

  -- `_resolve_directory`
  unfoldable pub resolve_directory :
      SignatureAgentReference → Discovery ResolvedSignatureAgentMaterial
  resolve_directory reference = do
    target ← planned reference
    document ← require_cached_document target.fetch_uri SourceType.key_directory
    keys ←
        found_or (violation "cached Signature-Agent directory is malformed")
          (parse_key_directory member_digest py document.content)
    jwk_set ←
        found_or (violation "cached Signature-Agent directory is malformed")
          (parse_jwk_set member_digest py document.content)
    found (record {
      identifier_uri = target.identifier_uri;
      discovery_type = directory;
      jwk_set = jwk_set;
      documents = document ∷ [];
    })

  -- `_resolve_jwks_uri`
  unfoldable pub resolve_jwks_uri :
      SignatureAgentReference → Discovery ResolvedSignatureAgentMaterial
  resolve_jwks_uri reference = do
    target ← planned reference
    document ← require_cached_document target.fetch_uri SourceType.jwk_set
    jwk_set ←
        found_or (violation "cached Signature-Agent JWK Set is malformed")
          (parse_jwk_set member_digest py document.content)
    found (record {
      identifier_uri = target.identifier_uri;
      discovery_type = jwks_uri;
      jwk_set = jwk_set;
      documents = document ∷ [];
    })

  -- The key set that a card refers to.
  unfoldable pub referenced_keys :
      String → SourceDocument → String → Discovery ResolvedSignatureAgentMaterial
  referenced_keys identifier_uri card_document card_jwks_uri = do
    uri ←
        found_or (violation "cached CIMD jwks_uri is not acceptable HTTPS")
          (canonicalize_source_uri py urls card_jwks_uri)
    jwks_document ← require_cached_document uri SourceType.jwk_set
    jwk_set ←
        found_or (violation "cached CIMD JWK Set is malformed")
          (parse_jwk_set member_digest py jwks_document.content)
    found (record {
      identifier_uri = identifier_uri;
      discovery_type = cimd;
      jwk_set = jwk_set;
      documents = card_document ∷ jwks_document ∷ [];
    })

  -- The keys of a card: its own, or those it refers to.
  unfoldable pub card_keys :
      String
      → SourceDocument
      → Option (List JwkSetKey)
      → Option String
      → Discovery ResolvedSignatureAgentMaterial
  card_keys identifier_uri card_document (some inline_jwks) _ = found (record {
    identifier_uri = identifier_uri;
    discovery_type = cimd;
    jwk_set = inline_jwks;
    documents = card_document ∷ [];
  })
  card_keys identifier_uri card_document none none =
      fail (unavailable "cached CIMD card does not provide key material")
  card_keys identifier_uri card_document none (some uri) =
      referenced_keys identifier_uri card_document uri

  -- `_resolve_cimd`
  unfoldable pub resolve_cimd : SignatureAgentReference → Discovery ResolvedSignatureAgentMaterial
  resolve_cimd reference = do
    target ← planned reference
    card_document ← require_cached_document target.fetch_uri SourceType.agent_card
    card ←
        card_or
          (parse_agent_card py urlsplit member_digest card_document.content (some target.fetch_uri))
    card_keys target.identifier_uri card_document card.inline_jwks card.jwks_uri

  -- `resolve_cached_signature_agent`
  unfoldable pub resolve_by_type :
      SignatureAgentDiscoveryType
      → SignatureAgentReference
      → Discovery ResolvedSignatureAgentMaterial
  resolve_by_type directory reference = resolve_directory reference
  resolve_by_type jwks_uri reference = resolve_jwks_uri reference
  resolve_by_type cimd reference = resolve_cimd reference

  unfoldable pub resolve_cached_signature_agent :
      SignatureAgentReference → Discovery ResolvedSignatureAgentMaterial
  resolve_cached_signature_agent reference = resolve_by_type reference.discovery_type reference
