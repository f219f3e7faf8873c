-- ===== src/Sources/Documents.antt =====
-- identity/sources/models.py: an external source document with its provenance.
pub mod Digests
use agent_traffic_intelligen.Prelude.{
  ℕ, String, Option, none, some, List, Bool, true, false, ◌&&◌, ◌||◌, not, ◌==◌, nat_eq, leb, codes,
  all, any, length, if◌then◌else◌,
}
use agent_traffic_intelligen.Runtime.{Moment, Runtime}
use agent_traffic_intelligen.Identity.Evidence.{BindingScope}

-- `SourceType`
pub data SourceType : Type 0 where
  ip_ranges key_directory jwk_set agent_card standard_profile : SourceType

-- `SourceType.value`
abbrev pub type_value : SourceType → String
type_value ip_ranges = "ip_ranges"
type_value key_directory = "key_directory"
type_value jwk_set = "jwk_set"
type_value agent_card = "agent_card"
type_value standard_profile = "standard_profile"

-- `ValidationStatus`
pub data ValidationStatus : Type 0 where
  unvalidated valid invalid stale : ValidationStatus

-- `ValidationStatus.value`
abbrev pub status_value : ValidationStatus → String
status_value unvalidated = "unvalidated"
status_value valid = "valid"
status_value invalid = "invalid"
status_value stale = "stale"

-- `SourceAcquisition`
pub data SourceAcquisition : Type 0 where
  unknown direct_https : SourceAcquisition

-- `SourceAcquisition.value`
abbrev pub acquisition_value : SourceAcquisition → String
acquisition_value unknown = "unknown"
acquisition_value direct_https = "direct_https"

-- `KeyAuthorityBinding`
pub record KeyAuthorityBinding : Type 0 where
  pub key_thumbprint : String
  pub authority : String
  pub body_sha256 : String
  pub verified_at : Moment
  pub expires_at : Option Moment
  pub profile : String

-- `SourceMetadata`
pub record SourceMetadata : Type 0 where
  pub uri : String
  pub source_type : SourceType
  pub provider : Option String
  pub binding_scope : BindingScope
  pub retrieved_at : Moment
  pub sha256 : String
  pub content_type : Option String
  pub parser_profile : String
  pub source_created_at : Option Moment
  pub expires_at : Option Moment
  pub etag : Option String
  pub last_modified : Option String
  pub validation_status : ValidationStatus
  pub key_authority_bindings : List KeyAuthorityBinding
  pub acquisition : SourceAcquisition

-- `SourceDocument`
pub record SourceDocument : Type 0 where
  pub metadata : SourceMetadata
  pub content : List ℕ

-- `_aware`: whether it raises nothing.
abbrev pub aware : Option Moment → Bool
aware none = true
aware (some m) = m.is_aware

-- A character of "0123456789abcdef".
abbrev pub is_hex : ℕ → Bool
is_hex c = leb b'0' c && leb c b'9' || leb b'a' c && leb c b'f'

-- The test of `_sha256` on a folded digest.
unfoldable pub is_digest : String → Bool
is_digest digest = nat_eq (length (codes digest)) 64 && all is_hex (codes digest)

-- `expires_at is not None and expires_at <= verified_at`
abbrev pub ends_before : Option Moment → Moment → Bool
ends_before none verified_at = false
ends_before (some e) verified_at = leb e.instant verified_at.instant

module _ (py : Runtime) where
  -- `KeyAuthorityBinding.__post_init__`: `none` for each `ValueError`.
  unfoldable pub make_binding : KeyAuthorityBinding → Option KeyAuthorityBinding
  make_binding b =
      if not (b.verified_at.is_aware && aware b.expires_at)
      then none
      else if not (is_digest (py.casefold b.body_sha256))
      then none
      else if b.key_thumbprint == "" || (b.authority == "" || b.profile == "")
      then none
      else if ends_before b.expires_at b.verified_at
      then none
      else some (record b { body_sha256 = py.casefold b.body_sha256 })

  -- `SourceMetadata.__post_init__`
  unfoldable pub make_metadata : SourceMetadata → Option SourceMetadata
  make_metadata m =
      if not (m.retrieved_at.is_aware && (aware m.source_created_at && aware m.expires_at))
      then none
      else if not (is_digest (py.casefold m.sha256))
      then none
      else if m.uri == "" || m.parser_profile == ""
      then none
      else some (record m { sha256 = py.casefold m.sha256 })

  -- `SourceDocument.__post_init__`
  unfoldable pub make_document : SourceMetadata → List ℕ → Option SourceDocument
  make_document metadata content =
      let digest = py.sha256 content in
      if not (digest == metadata.sha256)
      then none
      else if any (λ b. not (b.body_sha256 == digest)) metadata.key_authority_bindings
      then none
      else some (record { metadata = metadata; content = content })

  -- `SourceDocument.from_bytes`: the digest of the given metadata is that of the content.
  unfoldable pub from_bytes : SourceMetadata → List ℕ → Option SourceDocument
  from_bytes fields content = elim (make_metadata (record fields { sha256 = py.sha256 content })) [
    | none ↦ none
    | some metadata ↦ make_document metadata content
  ]
