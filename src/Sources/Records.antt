-- ===== src/Sources/Records.antt =====
-- identity/sources/models.py: how key bindings and source metadata are written as JSON objects and
-- read back. `none` is any exception of `from_dict`.
pub mod RoundTrip
use agent_traffic_intelligen.Prelude.{
  String, Option, none, some, List, [], ◌∷◌, ◌==◌, if◌then◌else◌,
}
use agent_traffic_intelligen.Prelude.Options.{◌>>=◌}
use agent_traffic_intelligen.Json.{
  Json, Items, Fields, null, str, arr, obj, nil, cons, end, field, find, get,
}
use agent_traffic_intelligen.Runtime.{Moment, Runtime}
use agent_traffic_intelligen.Identity.Evidence.{BindingScope, scope_value}
use agent_traffic_intelligen.Sources.Documents.{
  SourceType, ValidationStatus, SourceAcquisition, type_value, status_value, acquisition_value,
  KeyAuthorityBinding, SourceMetadata, make_binding, make_metadata,
}

-- `SourceType(text)`
unfoldable pub source_type_of : String → Option SourceType
source_type_of s =
    if s == "ip_ranges"
    then some SourceType.ip_ranges
    else if s == "key_directory"
    then some SourceType.key_directory
    else if s == "jwk_set"
    then some SourceType.jwk_set
    else if s == "agent_card"
    then some SourceType.agent_card
    else if s == "standard_profile"
    then some SourceType.standard_profile
    else none

-- `ValidationStatus(text)`
unfoldable pub status_of : String → Option ValidationStatus
status_of s =
    if s == "unvalidated"
    then some ValidationStatus.unvalidated
    else if s == "valid"
    then some ValidationStatus.valid
    else if s == "invalid"
    then some ValidationStatus.invalid
    else if s == "stale"
    then some ValidationStatus.stale
    else none

-- `SourceAcquisition(text)`
unfoldable pub acquisition_of : String → Option SourceAcquisition
acquisition_of s =
    if s == "unknown"
    then some SourceAcquisition.unknown
    else if s == "direct_https"
    then some SourceAcquisition.direct_https
    else none

-- `BindingScope(text)`
unfoldable pub scope_of : String → Option BindingScope
scope_of s =
    if s == "key"
    then some BindingScope.key
    else if s == "provider"
    then some BindingScope.provider
    else if s == "agent"
    then some BindingScope.agent
    else none

module _ (py : Runtime) where
  -- `str(value)`
  unfoldable pub text : Json → String
  text (str s) = s
  text v = py.text_of v

  -- `str(payload[name])` on what the name has
  unfoldable pub required_text : Option Json → Option String
  unfolding text
  required_text none = none
  required_text (some v) = some (text v)

  -- `str(value) if value is not None else None`
  unfoldable pub optional_text : Json → Option String
  unfolding text
  optional_text null = none
  optional_text v = some (text v)

  -- `str(payload.get(name, default))` on what the name has
  unfoldable pub text_or : String → Option Json → String
  unfolding text
  text_or d none = d
  text_or d (some v) = text v

  -- A time, or `None`, as it is written.
  unfoldable pub time_json : Option Moment → Json
  time_json none = null
  time_json (some t) = str (py.isoformat t)

  -- A text, or `None`, as it is written.
  unfoldable pub text_json : Option String → Json
  text_json none = null
  text_json (some s) = str s

  -- A time that was read, as one that may be missing.
  unfoldable pub parsed : String → Option (Option Moment)
  parsed s = py.fromisoformat s >>= λ t. some (some t)

  -- `parse_dt` of `SourceMetadata.from_dict`, on the value it finds
  unfoldable pub parse_dt : Json → Option (Option Moment)
  unfolding parsed
  parse_dt null = some none
  parse_dt (str s) = parsed s
  parse_dt _ = none

  -- `expires_raw`: an empty text counts as no time.
  unfoldable pub parse_expiry : Json → Option (Option Moment)
  unfolding parsed
  parse_expiry null = some none
  parse_expiry (str s) = if s == "" then some none else parsed s
  parse_expiry _ = none

  -- `verified_raw`, which must be a text
  unfoldable pub parse_verified : Json → Option Moment
  parse_verified (str s) = py.fromisoformat s
  parse_verified _ = none

  -- `KeyAuthorityBinding.to_dict`
  unfoldable pub binding_fields : KeyAuthorityBinding → Fields
  binding_fields b = field "key_thumbprint" (str b.key_thumbprint) (
      field "authority" (str b.authority) (
        field "body_sha256" (str b.body_sha256) (
          field "verified_at" (str (py.isoformat b.verified_at))
            (field "expires_at" (time_json b.expires_at) (field "profile" (str b.profile) end)))))

  -- `KeyAuthorityBinding.from_dict`
  unfoldable pub binding_from_dict : Fields → Option KeyAuthorityBinding
  binding_from_dict payload = do
    verified_at ← parse_verified (get "verified_at" payload)
    expires_at ← parse_expiry (get "expires_at" payload)
    key_thumbprint ← required_text (find "key_thumbprint" payload)
    authority ← required_text (find "authority" payload)
    body_sha256 ← required_text (find "body_sha256" payload)
    profile ← required_text (find "profile" payload)
    make_binding py (record {
      key_thumbprint = key_thumbprint;
      authority = authority;
      body_sha256 = body_sha256;
      verified_at = verified_at;
      expires_at = expires_at;
      profile = profile;
    })

  -- `[binding.to_dict() for binding in self.key_authority_bindings]`
  unfoldable pub binding_items : List KeyAuthorityBinding → Items
  binding_items [] = nil
  binding_items (b ∷ bs) = cons (obj (binding_fields b)) (binding_items bs)

  -- The bindings of the list, each of which must be an object.
  unfoldable pub bindings_of_items : Items → Option (List KeyAuthorityBinding)
  bindings_of_items nil = some []
  bindings_of_items (cons (obj fields) rest) = do
    b ← binding_from_dict fields
    bs ← bindings_of_items rest
    some (b ∷ bs)
  bindings_of_items (cons _ rest) = none

  -- `bindings_raw`: a missing name is an empty list.
  unfoldable pub bindings_of : Option Json → Option (List KeyAuthorityBinding)
  bindings_of none = some []
  bindings_of (some (arr items)) = bindings_of_items items
  bindings_of (some _) = none

  -- `SourceMetadata.to_dict`
  unfoldable pub to_dict : SourceMetadata → Fields
  to_dict m = field "uri" (str m.uri) (
      field "source_type" (str (type_value m.source_type)) (
        field "provider" (text_json m.provider) (
          field "binding_scope" (str (scope_value m.binding_scope)) (
            field "retrieved_at" (str (py.isoformat m.retrieved_at)) (
              field "sha256" (str m.sha256) (
                field "content_type" (text_json m.content_type) (
                  field "parser_profile" (str m.parser_profile) (
                    field "source_created_at" (time_json m.source_created_at) (
                      field "expires_at" (time_json m.expires_at) (
                        field "etag" (text_json m.etag) (
                          field "last_modified" (text_json m.last_modified) (
                            field "validation_status" (str (status_value m.validation_status)) (
                              field "key_authority_bindings"
                                (arr (binding_items m.key_authority_bindings))
                                (field "acquisition" (str (acquisition_value m.acquisition))
                                  end))))))))))))))

  -- `SourceMetadata.from_dict`
  unfoldable pub from_dict : Fields → Option SourceMetadata
  from_dict payload = do
    retrieved ← parse_dt (get "retrieved_at" payload)
    retrieved_at ← retrieved
    bindings ← bindings_of (find "key_authority_bindings" payload)
    uri ← required_text (find "uri" payload)
    type_text ← required_text (find "source_type" payload)
    source_type ← source_type_of type_text
    scope_text ← required_text (find "binding_scope" payload)
    binding_scope ← scope_of scope_text
    sha256 ← required_text (find "sha256" payload)
    parser_profile ← required_text (find "parser_profile" payload)
    source_created_at ← parse_dt (get "source_created_at" payload)
    expires_at ← parse_dt (get "expires_at" payload)
    validation_status ← status_of (text_or "unvalidated" (find "validation_status" payload))
    acquisition ← acquisition_of (text_or "unknown" (find "acquisition" payload))
    make_metadata py (record {
      uri = uri;
      source_type = source_type;
      provider = optional_text (get "provider" payload);
      binding_scope = binding_scope;
      retrieved_at = retrieved_at;
      sha256 = sha256;
      content_type = optional_text (get "content_type" payload);
      parser_profile = parser_profile;
      source_created_at = source_created_at;
      expires_at = expires_at;
      etag = optional_text (get "etag" payload);
      last_modified = optional_text (get "last_modified" payload);
      validation_status = validation_status;
      key_authority_bindings = bindings;
      acquisition = acquisition;
    })
