-- ===== src/Identity/Profiles.antt =====
-- identity/profiles.py: the packaged registry of provider profiles. `none` is any exception of the
-- loader; `urlsplit` is a parameter.
pub mod Registry
use agent_traffic_intelligen.Prelude.{
  String, Option, none, some, List, [], ◌∷◌, ◌++◌, Bool, nat_eq, false, ◌&&◌, not, ◌==◌, opt_eq,
  any, strip_dots, if◌then◌else◌,
}
use agent_traffic_intelligen.Prelude.Int.{pos}
use agent_traffic_intelligen.Prelude.Options.{◌>>=◌}
use agent_traffic_intelligen.Json.{
  Json, Items, Fields, null, bool, int, float, str, arr, obj, nil, cons, find, get,
}
use agent_traffic_intelligen.Runtime.{Runtime}
use agent_traffic_intelligen.Identity.Evidence.{BindingScope}
use agent_traffic_intelligen.Network.Official.{RangeSourceProfile, NegativeSemantics}
use agent_traffic_intelligen.Network.Fcrdns.{FcrdnsProfile}
use agent_traffic_intelligen.Sources.Exchange.{SplitUri}
use agent_traffic_intelligen.Sources.Records.{scope_of}

-- `CryptoInteroperabilityProfile`
pub data CryptoInteroperabilityProfile : Type 0 where
  ietf_httpsig_protocol_01 cloudflare_legacy : CryptoInteroperabilityProfile

-- `CryptoDiscoveryType`
pub data CryptoDiscoveryType : Type 0 where
  directory jwks_uri cimd : CryptoDiscoveryType

-- `CryptoResponseBindingPolicy`
pub data CryptoResponseBindingPolicy : Type 0 where
  strict_current deployed_compatible : CryptoResponseBindingPolicy

-- `CryptoSourceProfile`
pub record CryptoSourceProfile : Type 0 where
  pub signature_agent_uri : String
  pub directory_uri : String
  pub interoperability_profile : CryptoInteroperabilityProfile
  pub discovery_type : CryptoDiscoveryType
  pub response_binding_policy : CryptoResponseBindingPolicy
  pub binding_scope : BindingScope
  pub reviewed_on : String
  pub subject : Option String

-- `CryptoProfile`
pub record CryptoProfile : Type 0 where
  pub signature_agents : List CryptoSourceProfile
  pub reviewed_on : String

-- `ProviderProfile`
pub record ProviderProfile : Type 0 where
  pub provider : String
  pub range_sources : List RangeSourceProfile
  pub fcrdns : Option FcrdnsProfile
  pub crypto : Option CryptoProfile

-- `NegativeSemantics(text)`
unfoldable pub semantics_of : String → Option NegativeSemantics
semantics_of s =
    if s == "authoritative_negative"
    then some NegativeSemantics.authoritative_negative
    else if s == "positive_only"
    then some NegativeSemantics.positive_only
    else if s == "unknown"
    then some NegativeSemantics.unknown
    else none

-- `CryptoInteroperabilityProfile(text)`
unfoldable pub interoperability_of : String → Option CryptoInteroperabilityProfile
interoperability_of s =
    if s == "ietf-httpsig-protocol-01"
    then some CryptoInteroperabilityProfile.ietf_httpsig_protocol_01
    else if s == "cloudflare-legacy"
    then some CryptoInteroperabilityProfile.cloudflare_legacy
    else none

-- `CryptoDiscoveryType(text)`
unfoldable pub discovery_type_of : String → Option CryptoDiscoveryType
discovery_type_of s =
    if s == "directory"
    then some CryptoDiscoveryType.directory
    else if s == "jwks_uri"
    then some CryptoDiscoveryType.jwks_uri
    else if s == "cimd"
    then some CryptoDiscoveryType.cimd
    else none

-- `CryptoResponseBindingPolicy(text)`
unfoldable pub binding_policy_of : String → Option CryptoResponseBindingPolicy
binding_policy_of s =
    if s == "strict_current"
    then some CryptoResponseBindingPolicy.strict_current
    else if s == "deployed_compatible"
    then some CryptoResponseBindingPolicy.deployed_compatible
    else none

-- `_required_string`
unfoldable pub required_string : Json → Option String
required_string (str s) = if s == "" then none else some s
required_string _ = none

-- `value if isinstance(value, str) else None`
unfoldable pub string_or_none : Json → Option String
string_or_none (str s) = some s
string_or_none _ = none

-- `raw.get(name, [])`, which must be a list
unfoldable pub list_or_empty : Option Json → Option Items
list_or_empty none = some nil
list_or_empty (some (arr items)) = some items
list_or_empty (some _) = none

-- `providers_raw`, of a payload of the supported schema
unfoldable pub providers_of : Json → Option Items
providers_of (arr items) = some items
providers_of _ = none

-- `value == 1`
unfoldable pub equals_one : Runtime → Json → Bool
equals_one py (int (pos n)) = nat_eq n 1
equals_one py (bool b) = b
equals_one py (float s) = py.is_one s
equals_one py _ = false

module _ (py : Runtime) where
  -- The test of `_required_https_uri`, negated.
  unfoldable pub is_https : SplitUri → Bool
  is_https parsed =
      py.casefold parsed.scheme == "https"
      && (not (opt_eq parsed.hostname none)
          && (opt_eq parsed.username none
              && (opt_eq parsed.password none && parsed.fragment == "")))

  -- `_required_iso_date`
  unfoldable pub required_iso_date : Json → Option String
  required_iso_date value = do
    raw ← required_string value
    if py.is_iso_date raw then some raw else none

  -- `for item in suffixes_raw`
  unfoldable pub suffixes_of : Items → Option (List String)
  suffixes_of nil = some []
  suffixes_of (cons item rest) = do
    s ← required_string item
    ss ← suffixes_of rest
    some (strip_dots (py.casefold s) ∷ ss)

  -- The suffixes must be a list with a member.
  unfoldable pub allowed_suffixes_of : Json → Option (List String)
  allowed_suffixes_of (arr nil) = none
  allowed_suffixes_of (arr items) = suffixes_of items
  allowed_suffixes_of _ = none

  -- `_parse_fcrdns` of an object
  unfoldable pub fcrdns_of : Fields → Option FcrdnsProfile
  fcrdns_of raw = do
    suffixes ← allowed_suffixes_of (get "allowed_suffixes" raw)
    scope_text ← required_string (get "binding_scope" raw)
    binding_scope ← scope_of scope_text
    reviewed_on ← required_iso_date (get "reviewed_on" raw)
    some (record {
      allowed_suffixes = suffixes;
      binding_scope = binding_scope;
      reviewed_on = reviewed_on;
    })

  -- `_parse_fcrdns`
  unfoldable pub parse_fcrdns : Json → Option (Option FcrdnsProfile)
  parse_fcrdns null = some none
  parse_fcrdns (obj raw) = fcrdns_of raw >>= λ p. some (some p)
  parse_fcrdns _ = none

module _ (py : Runtime) (urlsplit : String → Option SplitUri) where
  -- `_required_https_uri`
  unfoldable pub required_https_uri : Json → Option String
  required_https_uri value = do
    uri ← required_string value
    parsed ← urlsplit uri
    if is_https py parsed then some uri else none

  -- `_parse_range_source`
  unfoldable pub parse_range_source : Fields → Option RangeSourceProfile
  parse_range_source raw = do
    uri ← required_https_uri (get "uri" raw)
    format_profile ← required_string (get "format_profile" raw)
    scope_text ← required_string (get "binding_scope" raw)
    binding_scope ← scope_of scope_text
    semantics_text ← required_string (get "negative_semantics" raw)
    negative_semantics ← semantics_of semantics_text
    reviewed_on ← required_iso_date py (get "reviewed_on" raw)
    some (record {
      uri = uri;
      format_profile = format_profile;
      binding_scope = binding_scope;
      negative_semantics = negative_semantics;
      reviewed_on = reviewed_on;
      subject = string_or_none (get "subject" raw);
      category = string_or_none (get "category" raw);
    })

  -- A member of `agents_raw`
  unfoldable pub parse_agent : Fields → Option CryptoSourceProfile
  parse_agent item = do
    signature_agent_uri ← required_https_uri (get "signature_agent_uri" item)
    directory_uri ← required_https_uri (get "directory_uri" item)
    interoperability_text ← required_string (get "interoperability_profile" item)
    interoperability_profile ← interoperability_of interoperability_text
    discovery_text ← required_string (get "discovery_type" item)
    discovery_type ← discovery_type_of discovery_text
    policy_text ← required_string (get "response_binding_policy" item)
    response_binding_policy ← binding_policy_of policy_text
    scope_text ← required_string (get "binding_scope" item)
    binding_scope ← scope_of scope_text
    reviewed_on ← required_iso_date py (get "reviewed_on" item)
    some (record {
      signature_agent_uri = signature_agent_uri;
      directory_uri = directory_uri;
      interoperability_profile = interoperability_profile;
      discovery_type = discovery_type;
      response_binding_policy = response_binding_policy;
      binding_scope = binding_scope;
      reviewed_on = reviewed_on;
      subject = string_or_none (get "subject" item);
    })

  -- The loop over `agents_raw`
  unfoldable pub parse_agents : Items → Option (List CryptoSourceProfile)
  parse_agents nil = some []
  parse_agents (cons (obj item) rest) = do
    agent ← parse_agent item
    agents ← parse_agents rest
    some (agent ∷ agents)
  parse_agents (cons _ rest) = none

  -- `_parse_crypto` of an object
  unfoldable pub crypto_of : Fields → Option CryptoProfile
  crypto_of raw = do
    agents_raw ← list_or_empty (find "signature_agents" raw)
    agents ← parse_agents agents_raw
    reviewed_on ← required_iso_date py (get "reviewed_on" raw)
    some (record { signature_agents = agents; reviewed_on = reviewed_on })

  -- `_parse_crypto`
  unfoldable pub parse_crypto : Json → Option (Option CryptoProfile)
  parse_crypto null = some none
  parse_crypto (obj raw) = crypto_of raw >>= λ p. some (some p)
  parse_crypto _ = none

  -- The loop over `range_sources_raw`
  unfoldable pub parse_range_sources : Items → Option (List RangeSourceProfile)
  parse_range_sources nil = some []
  parse_range_sources (cons (obj item) rest) = do
    source ← parse_range_source item
    sources ← parse_range_sources rest
    some (source ∷ sources)
  parse_range_sources (cons _ rest) = none

  -- The profile of one provider, under its folded name.
  unfoldable pub parse_provider : String → Fields → Option ProviderProfile
  parse_provider provider raw = do
    range_sources_raw ← list_or_empty (find "range_sources" raw)
    range_sources ← parse_range_sources range_sources_raw
    fcrdns ← parse_fcrdns py (get "fcrdns" raw)
    crypto ← parse_crypto (get "crypto" raw)
    some (record {
      provider = provider;
      range_sources = range_sources;
      fcrdns = fcrdns;
      crypto = crypto;
    })

  -- The loop over `providers_raw`; `result` holds what was added, in order.
  unfoldable pub add_providers : List ProviderProfile → Items → Option (List ProviderProfile)
  add_providers result nil = some result
  add_providers result (cons (obj raw) rest) = do
    name ← required_string (get "provider" raw)
    profile ←
        (if any (λ p. p.provider == py.casefold name) result
          then none
          else parse_provider (py.casefold name) raw)
    add_providers (result ++ (profile ∷ [])) rest
  add_providers result (cons _ rest) = none

  -- `load_provider_profiles`, of the packaged file's content
  unfoldable pub load_provider_profiles : Json → Option (List ProviderProfile)
  load_provider_profiles (obj payload) =
      if equals_one py (get "schema_version" payload)
      then (providers_of (get "providers" payload) >>= add_providers [])
      else none
  load_provider_profiles _ = none

-- `profiles[key]`: `none` is a `KeyError`.
unfoldable pub lookup : String → List ProviderProfile → Option ProviderProfile
lookup key [] = none
lookup key (p ∷ ps) = let rest = lookup key ps in if p.provider == key then some p else rest

-- `provider_profile`
unfoldable pub provider_profile : Runtime → List ProviderProfile → String → Option ProviderProfile
unfolding lookup
provider_profile py profiles provider = lookup (py.casefold provider) profiles
