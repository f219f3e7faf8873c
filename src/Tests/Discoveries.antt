-- ===== src/Tests/Discoveries.antt =====
-- Keys that are discovered in the cache, bound by a directory's response, and refreshed.
use agent_traffic_intelligen.Prelude.{
  or_else, any, all, String, none, some, [], ◌∷◌, true, false, ◌≡◌, refl, All,
}
use agent_traffic_intelligen.Prelude.Int.{pos}
use agent_traffic_intelligen.Json.{Json, Fields, int, str, arr, obj, nil, cons, end, field}
use agent_traffic_intelligen.Runtime.{Runtime}
use agent_traffic_intelligen.Identity.Evidence.{BindingScope, VerificationOutcome}
use agent_traffic_intelligen.Crypto.Keys.{DirectoryKey, JwkSetKey, by_id}
use agent_traffic_intelligen.Crypto.Keys.Documents.{
  thumbprints_of, is_empty_interval, has_duplicates, thumbprint_members, parse_directory_keys,
  parse_directory_key, optional_string, optional_kid, optional_int, nonempty_text, members_of,
  member_names, make_directory_key, key_directory_of, jwk_thumbprint, has_field, directory_of,
  parse_key_directory,
}
use agent_traffic_intelligen.Crypto.Keys.Documents.Soundness.{
  IsPublic, parse_key_directory-IsPublic,
}
use agent_traffic_intelligen.Crypto.Checks.{parameter, Rfc9421Result}
use agent_traffic_intelligen.Crypto.SignatureAgent.{
  SignatureAgentDiscoveryType, SignatureAgentReference,
}
use agent_traffic_intelligen.Crypto.Discovery.{plan_signature_agent_resolution}
use agent_traffic_intelligen.Crypto.Discovery.Planning.{fetch_uri_of, fetch_uri-plan}
use agent_traffic_intelligen.Crypto.Discovery.Cached.{
  ResolvedSignatureAgentMaterial, resolve_cached_signature_agent,
}
use agent_traffic_intelligen.Crypto.Discovery.Cached.Provenance.{IsTraceable, resolved-IsTraceable}
use agent_traffic_intelligen.Crypto.DirectoryResponse.{
  signature_expiry, integer_of, without_spaces, response_algorithms, names_request_authority,
  is_unsigned, has_req, covers_request_authority, binding_report, binding_of, bind_keys, bind_key,
  DirectoryResponse, ResponseChecks, verify_directory_response,
}
use agent_traffic_intelligen.Crypto.DirectoryResponse.Bindings.{IsBindingOf, bindings-IsBindingOf}
use agent_traffic_intelligen.Sources.Documents.{
  make_binding, make_metadata, make_document, is_digest, from_bytes, KeyAuthorityBinding,
  SourceType, SourceDocument,
}
use agent_traffic_intelligen.Sources.Exchange.{FetchResult}
use agent_traffic_intelligen.Sources.Records.{to_dict}
use agent_traffic_intelligen.Sources.Trust.{Urls, canonicalize_source_uri}
use agent_traffic_intelligen.Sources.Cache.{Store}
use agent_traffic_intelligen.Sources.Service.{
  time_or_old, text_or_old, revalidated_document, max_age_seconds, expiry_of, expires_at_of,
  document_for, SourceSpec, Service, refreshed_document, is_discovery_status,
}
use agent_traffic_intelligen.Sources.Service.Refreshed.{
  IsDocumentOf, IsFrom, refreshed-IsDocumentOf,
}
use agent_traffic_intelligen.Identity.Profiles.{equals_one}
use agent_traffic_intelligen.Tests.Sources.{
  py, urls, parts, document, metadata, digest, split_uri, moment,
}
use agent_traffic_intelligen.Crypto.Components.{strip_prefix}
use agent_traffic_intelligen.Crypto.Discovery.{directory_target, target_of}
use agent_traffic_intelligen.Crypto.Discovery.Addresses.{
  canonical_https, appended_escape, decoded_pair, segment_turn, segments_after, rebuilt_path,
  location_of, folded_host, checked_hostname,
}
use agent_traffic_intelligen.Crypto.Discovery.Cached.{
  same_type, is_stale, checked_document, require_cached_document, planned, resolve_directory,
  resolve_by_type,
}
use agent_traffic_intelligen.Crypto.Keys.Documents.{
  make_set_key, parse_set_key, parse_set_keys, set_of, jwk_set_of, parse_jwk_set,
}
use agent_traffic_intelligen.Sources.Trust.{
  has_colon, format_host, member_of, netloc_of, host_of, allows,
}
use agent_traffic_intelligen.Sources.Trust.Percent.{
  char_in, hex_value, upper, prepend, write_escape, escape, normalize_percent_encoding,
}
use agent_traffic_intelligen.Sources.Trust.Segments.{
  split, join, without_last, step, walk, path_of, remove_dot_segments,
}
use agent_traffic_intelligen.Sources.Cache.{
  read_bytes, entries_of, with_entries, checked_manifest, load_manifest, document_of, get_document,
}
use agent_traffic_intelligen.Sources.Records.{
  source_type_of, status_of, acquisition_of, scope_of, text, required_text, optional_text, text_or,
  time_json, text_json, parsed, parse_dt, parse_expiry, parse_verified, binding_fields,
  binding_from_dict, binding_items, bindings_of_items, bindings_of, from_dict,
}
use agent_traffic_intelligen.Json.{find, get, set}
use agent_traffic_intelligen.Prelude.{strip_dots, ends_with}

abbrev jwk : Fields
jwk = field "kty" (str "OKP") (field "crv" (str "Ed25519") (field "x" (str "abc") end))

abbrev key_py : Runtime
key_py = record py { load_json = λ _. some (obj (field "keys" (arr (cons (obj jwk) nil)) end)) }

abbrev print : Fields → String
print members = "kid"

abbrev directory_key : DirectoryKey
directory_key = record {
  key_id = "kid";
  kty = "OKP";
  alg = none;
  key_use = none;
  not_before = none;
  expires = none;
  jwk = jwk;
}

abbrev set_key : JwkSetKey
set_key = record {
  kid = none;
  thumbprint = "kid";
  kty = "OKP";
  alg = none;
  key_use = none;
  not_before = none;
  expires = none;
  jwk = jwk;
}

parse_key_directory-IsPublic_example :
    All
      (λ k. (by_id (directory_key ∷ []) k.key_id ≡ some k) × IsPublic k.jwk k.not_before k.expires)
      (directory_key ∷ [])
unfolding parse_key_directory key_directory_of directory_of agent_traffic_intelligen.Json.get
    parse_directory_keys parse_directory_key has_field jwk_thumbprint thumbprint_members
    member_names members_of nonempty_text optional_kid optional_string optional_int
    make_directory_key is_empty_interval has_duplicates any thumbprints_of or_else
parse_key_directory-IsPublic_example =
    parse_key_directory-IsPublic print key_py (123 ∷ 125 ∷ []) (directory_key ∷ []) refl

abbrev root_urls : Urls
root_urls = record urls { urlsplit = λ uri. some (record parts { path = "/" }) }

abbrev member : SignatureAgentDiscoveryType → SignatureAgentReference
member t = record {
  label = some "agent";
  uri = "https://acme.example/keys";
  discovery_type = t;
  legacy = false;
}

abbrev store : Store
store = record {
  blobs = (digest, 123 ∷ 125 ∷ []) ∷ [];
  manifest = some (
      obj (
        field "schema_version" (int (pos 1)) (
          field "entries" (obj (field "https://acme.example/keys" (obj (to_dict py metadata)) end))
            end)));
}

abbrev material : ResolvedSignatureAgentMaterial
material = record {
  identifier_uri = "https://acme.example/keys";
  discovery_type = SignatureAgentDiscoveryType.directory;
  jwk_set = set_key ∷ [];
  documents = document ∷ [];
}

fetch_uri-plan_example :
    fetch_uri_of
      (plan_signature_agent_resolution key_py urls (member SignatureAgentDiscoveryType.cimd))
    ≡ canonicalize_source_uri key_py urls "https://acme.example/keys"
fetch_uri-plan_example = fetch_uri-plan key_py urls (member SignatureAgentDiscoveryType.cimd) refl

resolved-IsTraceable_example :
    IsTraceable key_py root_urls split_uri print store
      ("https://acme.example/keys" ∷ [])
      (moment 4 true)
      SignatureAgentDiscoveryType.directory
      (member SignatureAgentDiscoveryType.directory)
      material
unfolding canonical_https
    agent_traffic_intelligen.Crypto.Discovery.Addresses.normalize_percent_encoding
    agent_traffic_intelligen.Crypto.Discovery.Addresses.remove_dot_segments
    agent_traffic_intelligen.Crypto.Discovery.Addresses.format_host appended_escape decoded_pair
    segment_turn segments_after rebuilt_path location_of folded_host checked_hostname
    directory_target target_of plan_signature_agent_resolution same_type is_stale checked_document
    require_cached_document planned resolve_directory resolve_by_type resolve_cached_signature_agent
    member_names nonempty_text members_of thumbprint_members optional_int optional_string
    optional_kid has_field is_empty_interval make_directory_key make_set_key has_duplicates
    jwk_thumbprint parse_directory_key parse_directory_keys thumbprints_of directory_of
    parse_set_key parse_set_keys set_of jwk_set_of key_directory_of parse_jwk_set
    parse_key_directory has_colon format_host member_of netloc_of host_of canonicalize_source_uri
    allows char_in hex_value upper prepend write_escape escape normalize_percent_encoding split join
    without_last step walk path_of remove_dot_segments read_bytes entries_of with_entries
    checked_manifest load_manifest document_of get_document source_type_of status_of acquisition_of
    scope_of text required_text optional_text text_or time_json text_json parsed parse_dt
    parse_expiry parse_verified binding_fields binding_from_dict binding_items bindings_of_items
    bindings_of to_dict from_dict is_digest make_binding make_metadata make_document find get set
    any all or_else strip_dots ends_with equals_one
resolved-IsTraceable_example =
    resolved-IsTraceable key_py root_urls split_uri print store ("https://acme.example/keys" ∷ [])
      (moment 4 true) (member SignatureAgentDiscoveryType.directory) material refl

abbrev response : DirectoryResponse
response = record {
  body = 123 ∷ 125 ∷ [];
  request_uri = "https://acme.example/keys";
  response_uri = "https://acme.example/keys";
  status_code = 200;
  signature = some "sig";
  signature_input = some "input";
  content_digest = some "digest";
}

abbrev signature_report : Rfc9421Result
signature_report = record {
  outcome = VerificationOutcome.pass;
  explanation = "verified";
  label = some "sig1";
  algorithm_id = some "ed25519";
  covered_components = "\"@authority\";req" ∷ [];
  covered_component_names = "@authority" ∷ [];
  parameters = [];
  nonce = none;
}

abbrev checks : ResponseChecks
checks = record {
  is_content_digest = λ header body. true;
  netloc = λ uri. "acme.example";
  verify_response = λ response algorithm key_id. signature_report;
  fromtimestamp = λ seconds. none;
  member_digest = print;
}

abbrev new_binding : KeyAuthorityBinding
new_binding = record {
  key_thumbprint = "kid";
  authority = "acme.example";
  body_sha256 = digest;
  verified_at = moment 4 true;
  expires_at = none;
  profile = "draft-ietf-webbotauth-httpsig-protocol-00";
}

bindings-IsBindingOf_example :
    All (IsBindingOf key_py checks response (directory_key ∷ [])) (new_binding ∷ [])
unfolding verify_directory_response is_unsigned or_else bind_keys bind_key binding_report
    response_algorithms agent_traffic_intelligen.Json.get covers_request_authority any
    names_request_authority strip_prefix without_spaces has_req binding_of jwk_thumbprint
    thumbprint_members member_names members_of nonempty_text signature_expiry integer_of parameter
    make_binding is_digest all
bindings-IsBindingOf_example =
    bindings-IsBindingOf key_py checks (directory_key ∷ []) response (moment 4 true)
      (new_binding ∷ []) refl

abbrev not_modified : FetchResult
not_modified = record {
  uri = "https://acme.example/keys";
  status = 304;
  body = none;
  content_type = none;
  etag = none;
  last_modified = none;
  cache_control = none;
  redirects = 0;
  not_modified = true;
  signature = none;
  signature_input = none;
  content_digest = none;
}

abbrev service : Service
service = record {
  strip = λ s. s;
  strip_quotes = λ s. s;
  int_of = λ s. none;
  now = λ n. moment 4 true;
  fetch = λ n uri etag last_modified follow_redirects. some not_modified;
  checks = checks;
}

abbrev spec : SourceSpec
spec = record {
  provider = "acme";
  uri = "https://acme.example/keys";
  source_type = SourceType.key_directory;
  parser_profile = "directory";
  binding_scope = BindingScope.agent;
}

abbrev revalidated : SourceDocument
revalidated = record {
  metadata = record metadata { retrieved_at = moment 4 true };
  content = 123 ∷ 125 ∷ [];
}

refreshed-IsDocumentOf_example :
    IsDocumentOf key_py service spec (moment 4 true) revalidated
    × ((result : FetchResult) × (some not_modified ≡ some result)
        × (true ≡ true → is_discovery_status result ≡ true)
        × (result.not_modified ≡ true)
        × IsFrom key_py service true (some document) result revalidated)
unfolding refreshed_document is_discovery_status document_for revalidated_document from_bytes
    make_metadata time_or_old expires_at_of expiry_of max_age_seconds is_digest all make_document
    any text_or_old or_else
refreshed-IsDocumentOf_example =
    refreshed-IsDocumentOf key_py service 0 spec (some document) revalidated true refl
