-- ===== src/Sources/Service.antt =====
-- identity/source_service.py: refresh, status and validation of the configured sources. The clock and the
-- fetcher are parameters: `now n` is the time at the n-th source, and the fetcher's answer may depend on n.
pub mod Refresh
pub mod Refreshed
use agent_traffic_intelligen.Prelude.{
  ℕ, suc, String, Option, none, some, List, [], ◌∷◌, ◌++◌, Bool, true, false, ◌&&◌, ◌||◌, not, ◌+◌,
  ◌*◌, ◌==◌, opt_eq, or_else, any, map, nat_eq, ltb, if◌then◌else◌, split_at, partition_at,
}
use agent_traffic_intelligen.Prelude.Int.{ℤ, pos, negsuc}
use agent_traffic_intelligen.Prelude.Options.{◌>>=◌}
use agent_traffic_intelligen.Runtime.{Moment, Runtime}
use agent_traffic_intelligen.Identity.Evidence.{BindingScope}
use agent_traffic_intelligen.Identity.Profiles.{ProviderProfile, CryptoProfile}
use agent_traffic_intelligen.Network.Ranges.{Result, ok, err, PublishedRangeSet}
use agent_traffic_intelligen.Network.Formats.{parse_jafar, parse_prefixes_v1}
use agent_traffic_intelligen.Crypto.Components.{before_semicolon}
use agent_traffic_intelligen.Crypto.Keys.Documents.{parse_key_directory}
use agent_traffic_intelligen.Crypto.DirectoryResponse.{
  DirectoryResponse, ResponseChecks, verify_directory_response,
}
use agent_traffic_intelligen.Sources.Documents.{
  SourceType, ip_ranges, key_directory, jwk_set, agent_card, standard_profile, ValidationStatus,
  SourceAcquisition, KeyAuthorityBinding, SourceMetadata, SourceDocument, from_bytes,
}
use agent_traffic_intelligen.Sources.Exchange.{FetchResult}

-- `SourceSpec`
pub record SourceSpec : Type 0 where
  pub provider : String
  pub uri : String
  pub source_type : SourceType
  pub parser_profile : String
  pub binding_scope : BindingScope

-- `configured_sources`, of one provider's crypto profile
unfoldable pub directory_specs : String → Option CryptoProfile → List SourceSpec
directory_specs provider none = []
directory_specs provider (some crypto) =
    map
      (λ source. record {
        provider = provider;
        uri = source.directory_uri;
        source_type = key_directory;
        parser_profile = "draft-ietf-webbotauth-httpsig-protocol-00";
        binding_scope = source.binding_scope;
      })
      crypto.signature_agents

-- `configured_sources`
unfoldable pub configured_sources : List ProviderProfile → List SourceSpec
unfolding directory_specs
configured_sources [] = []
configured_sources (p ∷ ps) =
    map
      (λ source. record {
        provider = p.provider;
        uri = source.uri;
        source_type = ip_ranges;
        parser_profile = source.format_profile;
        binding_scope = source.binding_scope;
      })
      p.range_sources
    ++ (directory_specs p.provider p.crypto ++ configured_sources ps)

-- `spec.source_type is SourceType.KEY_DIRECTORY`
abbrev pub is_directory_type : SourceType → Bool
is_directory_type key_directory = true
is_directory_type _ = false

-- The parameters of the service.
pub record Service : Type 0 where
  -- `str.strip()`
  pub strip : String → String
  -- `value.strip('"')`
  pub strip_quotes : String → String
  -- `int(text)`: `none` for a `ValueError`
  pub int_of : String → Option ℤ
  -- `datetime.now(UTC)` at the n-th source
  pub now : ℕ → Moment
  -- `client.fetch` at the n-th source, with `etag`, `last_modified` and `follow_redirects`: `none` for an exception
  pub fetch : ℕ → String → Option String → Option String → Bool → Option FetchResult
  pub checks : ResponseChecks

-- `RANGE_SNAPSHOT_VALIDITY`, in microseconds
abbrev pub range_snapshot_validity : ℕ
range_snapshot_validity = 7 * 86400 * 1000000

-- `result.redirects or result.status not in (200, 304)`, negated
unfoldable pub is_discovery_status : FetchResult → Bool
is_discovery_status result =
    nat_eq result.redirects 0 && (nat_eq result.status 200 || nat_eq result.status 304)

-- `retrieved_at + timedelta(...)`, which keeps the time zone. Instants have no last one here: the
-- `OverflowError` of a sum that lies beyond the year 9999 is left out.
unfoldable pub later : Moment → ℕ → Moment
later t microseconds = record { instant = t.instant + microseconds; is_aware = t.is_aware }

-- A whole number of seconds that is not negative.
unfoldable pub seconds_of : Option ℤ → Option ℕ
seconds_of (some (pos n)) = some n
seconds_of _ = none

unfoldable pub creation_of : Result PublishedRangeSet → Option (Option Moment)
creation_of (ok set) = some (some set.creation_time)
creation_of (err _) = none

module _ (py : Runtime) (service : Service) where
  -- A directive, split at its sign, before the others.
  unfoldable pub max_age_or : String × Option String → Option ℕ → Option ℕ
  max_age_or (name, none) others = others
  max_age_or (name, some raw_value) others =
      if py.casefold name == "max-age"
      then seconds_of (service.int_of (service.strip_quotes (service.strip raw_value)))
      else others

  -- The loop over the directives of `Cache-Control`: the first `max-age` with a value decides.
  unfoldable pub max_age_in : List String → Option ℕ
  max_age_in [] = none
  max_age_in (directive ∷ rest) =
      let others = max_age_in rest in
      max_age_or (partition_at b'=' (service.strip directive)) others

  -- `_max_age_seconds`
  unfoldable pub max_age_seconds : Option String → Option ℕ
  max_age_seconds none = none
  max_age_seconds (some cache_control) = max_age_in (split_at b',' cache_control)

  unfoldable pub expiry_of : Moment → Option ℕ → Option Moment
  expiry_of retrieved_at none = none
  expiry_of retrieved_at (some seconds) = some (later retrieved_at (seconds * 1000000))

  -- `_expires_at`
  unfoldable pub expires_at_of : SourceType → Moment → Option String → Option Moment
  expires_at_of ip_ranges retrieved_at cache_control =
      some (later retrieved_at range_snapshot_validity)
  expires_at_of _ retrieved_at cache_control =
      expiry_of retrieved_at (max_age_seconds cache_control)

  -- `_source_created_at`: `none` for its `ValueError`.
  unfoldable pub source_created_at : SourceSpec → SourceType → List ℕ → Option (Option Moment)
  source_created_at spec ip_ranges content =
      if spec.parser_profile == "jafar-00"
      then creation_of (parse_jafar py content)
      else if spec.parser_profile == "prefixes-v1"
      then creation_of (parse_prefixes_v1 py content)
      else none
  source_created_at spec key_directory content =
      parse_key_directory service.checks.member_digest py content >>= λ keys. some none
  source_created_at spec _ content = none

  -- `_validate_media_type`: whether it raises nothing.
  unfoldable pub is_media_type : SourceType → Option String → Bool
  is_media_type key_directory none = false
  is_media_type key_directory (some content_type) =
      py.casefold (service.strip (before_semicolon content_type))
      == "application/http-message-signatures-directory+json"
  is_media_type _ content_type = true

  -- `_key_authority_bindings`
  unfoldable pub key_authority_bindings_of :
      SourceSpec → SourceType → FetchResult → List ℕ → Moment → Option (List KeyAuthorityBinding)
  key_authority_bindings_of spec key_directory result body retrieved_at = do
    keys ← parse_key_directory service.checks.member_digest py body
    verify_directory_response py service.checks keys
        (record {
          body = body;
          request_uri = spec.uri;
          response_uri = result.uri;
          status_code = result.status;
          signature = result.signature;
          signature_input = result.signature_input;
          content_digest = result.content_digest;
        })
        retrieved_at
  key_authority_bindings_of spec _ result body retrieved_at = some []

  -- `_document_from_result`: `none` for an exception.
  unfoldable pub document_from_result : SourceSpec → FetchResult → Moment → Option SourceDocument
  document_from_result spec result retrieved_at = do
    body ← result.body
    created ←
        (if is_media_type spec.source_type result.content_type
          then source_created_at spec spec.source_type body
          else none)
    bindings ← key_authority_bindings_of spec spec.source_type result body retrieved_at
    from_bytes py
        (record {
          uri = spec.uri;
          source_type = spec.source_type;
          provider = some spec.provider;
          binding_scope = spec.binding_scope;
          retrieved_at = retrieved_at;
          sha256 = "";
          content_type = result.content_type;
          parser_profile = spec.parser_profile;
          source_created_at = created;
          expires_at = expires_at_of spec.source_type retrieved_at result.cache_control;
          etag = result.etag;
          last_modified = result.last_modified;
          validation_status = ValidationStatus.valid;
          key_authority_bindings = bindings;
          acquisition = SourceAcquisition.direct_https;
        })
        body

  -- `new or old` for optional texts
  unfoldable pub text_or_old : Option String → Option String → Option String
  text_or_old new old = if or_else new "" == "" then old else new

  -- `new if new is not None else old`
  unfoldable pub time_or_old : Option Moment → Option Moment → Option Moment
  time_or_old none old = old
  time_or_old (some t) old = some t

  -- `_revalidated_document`
  unfoldable pub revalidated_document :
      SourceSpec → SourceDocument → FetchResult → Moment → Option SourceDocument
  revalidated_document spec previous result retrieved_at =
      from_bytes py
        (record {
          uri = spec.uri;
          source_type = spec.source_type;
          provider = some spec.provider;
          binding_scope = spec.binding_scope;
          retrieved_at = retrieved_at;
          sha256 = "";
          content_type = previous.metadata.content_type;
          parser_profile = spec.parser_profile;
          source_created_at = previous.metadata.source_created_at;
          expires_at =
              time_or_old (expires_at_of spec.source_type retrieved_at result.cache_control)
                previous.metadata.expires_at;
          etag = text_or_old result.etag previous.metadata.etag;
          last_modified = text_or_old result.last_modified previous.metadata.last_modified;
          validation_status = ValidationStatus.valid;
          key_authority_bindings = previous.metadata.key_authority_bindings;
          acquisition = previous.metadata.acquisition;
        })
        previous.content

  -- The document for an answer, given the cached one.
  unfoldable pub document_for :
      SourceSpec → Option SourceDocument → FetchResult → Moment → Bool → Option SourceDocument
  document_for spec none result retrieved_at true = none
  document_for spec (some previous) result retrieved_at true =
      revalidated_document spec previous result retrieved_at
  document_for spec previous result retrieved_at false =
      document_from_result spec result retrieved_at

  abbrev pub etag_of : Option SourceDocument → Option String
  etag_of none = none
  etag_of (some d) = d.metadata.etag

  abbrev pub last_modified_of : Option SourceDocument → Option String
  last_modified_of none = none
  last_modified_of (some d) = d.metadata.last_modified

  -- One turn of the loop up to `cache.put`: the document to put, and whether it is an old one.
  unfoldable pub refreshed_document :
      ℕ → SourceSpec → Option SourceDocument → Option (SourceDocument × Bool)
  refreshed_document n spec previous = do
    result ←
        service.fetch n spec.uri (etag_of previous) (last_modified_of previous)
          (not (is_directory_type spec.source_type))
    checked ←
        (if is_directory_type spec.source_type && not (is_discovery_status result)
          then none
          else some result)
    document ← document_for spec previous result (service.now n) result.not_modified
    some (document, result.not_modified)
