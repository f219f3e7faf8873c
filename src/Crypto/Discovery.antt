-- ===== src/Crypto/Discovery.antt =====
-- identity/crypto/discovery.py: from a member of Signature-Agent to the address to fetch and the
-- identifier it stands for.
pub mod Addresses
pub mod Agreement
pub mod Cached
pub mod Planning
use agent_traffic_intelligen.Prelude.{
  ℕ, String, Option, none, some, Bool, not, ◌&&◌, ◌||◌, ◌==◌, opt_eq, if◌then◌else◌,
}
use agent_traffic_intelligen.Prelude.Options.{◌>>=◌}
use agent_traffic_intelligen.Runtime.{Runtime}
use agent_traffic_intelligen.Sources.Trust.{Urls, host_of, netloc_of}
use agent_traffic_intelligen.Sources.Trust.Percent.{normalize_percent_encoding}
use agent_traffic_intelligen.Sources.Trust.Segments.{remove_dot_segments}
use agent_traffic_intelligen.Crypto.Discovery.Addresses.{CanonicalParts, canonical_https}
use agent_traffic_intelligen.Crypto.SignatureAgent.{
  SignatureAgentDiscoveryType, SignatureAgentReference, directory, jwks_uri, cimd,
}

-- `SignatureAgentResolutionTarget`
pub record SignatureAgentResolutionTarget : Type 0 where
  pub fetch_uri : String
  pub identifier_uri : String
  pub discovery_type : SignatureAgentDiscoveryType

-- `_WELL_KNOWN_DIRECTORY`
abbrev pub well_known_directory : String
well_known_directory = "/.well-known/http-message-signatures-directory"

module _ (py : Runtime) (urls : Urls) where
  -- The target of a directory member, which must be an origin.
  unfoldable pub directory_target : CanonicalParts → Option SignatureAgentResolutionTarget
  directory_target parts =
      if not (parts.path == "/") || (not (parts.query == "") || not (parts.fragment == ""))
      then none
      else some (record {
        fetch_uri = urls.urlunsplit parts.netloc well_known_directory "";
        identifier_uri = urls.urlunsplit parts.netloc well_known_directory "";
        discovery_type = directory;
      })

  -- The target of a key set or a card.
  unfoldable pub member_target :
      SignatureAgentDiscoveryType → CanonicalParts → Option SignatureAgentResolutionTarget
  member_target discovery_type parts = some (record {
    fetch_uri = urls.urlunsplit parts.netloc parts.path parts.query;
    identifier_uri = urls.urlunsplit parts.netloc parts.path "";
    discovery_type = discovery_type;
  })

  unfoldable pub target_of :
      SignatureAgentDiscoveryType → CanonicalParts → Option SignatureAgentResolutionTarget
  unfolding directory_target member_target
  target_of directory parts = directory_target parts
  target_of jwks_uri parts = member_target jwks_uri parts
  target_of cimd parts = member_target cimd parts

  -- `plan_signature_agent_resolution`: `none` for each `SignatureAgentResolutionError`.
  unfoldable pub plan_signature_agent_resolution :
      SignatureAgentReference → Option SignatureAgentResolutionTarget
  plan_signature_agent_resolution reference =
      canonical_https py urls reference.uri >>= target_of reference.discovery_type
