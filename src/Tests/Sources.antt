-- ===== src/Tests/Sources.antt =====
-- Source documents that are written, cached and trusted.
use agent_traffic_intelligen.Prelude.{
  strip_dots, or_else, any, all, ℕ, zero, suc, String, Option, none, some, List, [], ◌∷◌, true,
  false, Bool, ◌≡◌, ◌↔◌, refl, ap, Exists, All, if◌then◌else◌,
}
use agent_traffic_intelligen.Prelude.Int.{pos}
use agent_traffic_intelligen.Json.{
  find, Json, Fields, Items, int, str, arr, obj, null, nil, cons, end, field,
}
use agent_traffic_intelligen.Runtime.{Moment, Runtime}
use agent_traffic_intelligen.Identity.Evidence.{BindingScope}
use agent_traffic_intelligen.Network.Official.{NegativeSemantics}
use agent_traffic_intelligen.Identity.Profiles.{
  string_or_none, parse_fcrdns, parse_crypto, semantics_of, required_string, required_iso_date,
  required_https_uri, providers_of, parse_range_sources, parse_range_source, parse_provider,
  list_or_empty, is_https, equals_one, add_providers, ProviderProfile, load_provider_profiles,
  provider_profile,
}
use agent_traffic_intelligen.Identity.Profiles.Registry.{IsSecure, load-IsSecure}
use agent_traffic_intelligen.Sources.Documents.{
  make_metadata, make_document, make_binding, is_digest, SourceType, ValidationStatus,
  SourceAcquisition, KeyAuthorityBinding, SourceMetadata, SourceDocument,
}
use agent_traffic_intelligen.Sources.Exchange.{SplitUri}
use agent_traffic_intelligen.Sources.Records.{scope_of, to_dict, from_dict}
use agent_traffic_intelligen.Sources.Records.RoundTrip.{from_dict-to_dict}
use agent_traffic_intelligen.Sources.Trust.{
  host_of, directory_uris, default_policy, canonicalize_source_uri, canonical_uris, SplitSource,
  Urls, allows, configured_uris,
}
use agent_traffic_intelligen.Sources.Trust.Percent.{normalize_percent_encoding}
use agent_traffic_intelligen.Sources.Trust.Normal.{normalize_idempotent}
use agent_traffic_intelligen.Sources.Trust.Policy.{IsSameSource, allows_iff}
use agent_traffic_intelligen.Sources.Cache.{
  load_manifest, get_document, document_of, read_bytes, put_document,
}
use agent_traffic_intelligen.Sources.Cache.Refinement.{Represents, update, put_refines}
use agent_traffic_intelligen.Tests.Samples.{runtime}

-- Times as texts: a mark for awareness, and one character for each microsecond.
abbrev count_text : ℕ → String
count_text zero = ""
count_text (suc n) = String.◌∷◌ (Prim.Native.Char.Char.char b'0' tt) (count_text n)

abbrev text_count : String → ℕ
text_count String.[] = 0
text_count (String.◌∷◌ c s) = suc (text_count s)

abbrev moment_text : Moment → String
moment_text m =
    String.◌∷◌
      (if m.is_aware
        then Prim.Native.Char.Char.char b'+' tt
        else Prim.Native.Char.Char.char b'-' tt)
      (count_text m.instant)

abbrev text_moment : String → Option Moment
text_moment String.[] = none
text_moment (String.◌∷◌ c s) = some (record {
  instant = text_count s;
  is_aware = elim (Prim.Native.Nat.compare (Prim.Native.Char.code c) b'+') [
    | Prim.Native.Nat.Ordering.eq ↦ true
    | _ ↦ false
  ];
})

count_read : (n : ℕ) → text_count (count_text n) ≡ n
count_read zero = refl
count_read (suc n) = ap suc (count_read n)

abbrev pub moment : ℕ → Bool → Moment
moment n c = record { instant = n; is_aware = c }

parts_read : (n : ℕ) (c : Bool) → text_moment (moment_text (moment n c)) ≡ some (moment n c)
parts_read n true = ap (λ k. some (moment k true)) (count_read n)
parts_read n false = ap (λ k. some (moment k false)) (count_read n)

moment_read : (m : Moment) → text_moment (moment_text m) ≡ some m
moment_read m = parts_read m.instant m.is_aware

abbrev pub digest : String
digest = "0123456789abcdef0123456789abcdef0123456789abcdef0123456789abcdef"

abbrev pub py : Runtime
py = record runtime { isoformat = moment_text; fromisoformat = text_moment; sha256 = λ _. digest }

abbrev binding : KeyAuthorityBinding
binding = record {
  key_thumbprint = "kid";
  authority = "acme.example";
  body_sha256 = digest;
  verified_at = record { instant = 3; is_aware = true };
  expires_at = some (record { instant = 5; is_aware = true });
  profile = "directory";
}

abbrev pub metadata : SourceMetadata
metadata = record {
  uri = "https://acme.example/keys";
  source_type = SourceType.key_directory;
  provider = some "acme";
  binding_scope = BindingScope.agent;
  retrieved_at = record { instant = 3; is_aware = true };
  sha256 = digest;
  content_type = none;
  parser_profile = "directory";
  source_created_at = none;
  expires_at = some (record { instant = 5; is_aware = true });
  etag = some "1";
  last_modified = none;
  validation_status = ValidationStatus.valid;
  key_authority_bindings = binding ∷ [];
  acquisition = SourceAcquisition.direct_https;
}

abbrev pub document : SourceDocument
document = record { metadata = metadata; content = 123 ∷ 125 ∷ [] }

abbrev pub parts : SplitSource
parts = record {
  scheme = "https";
  username = none;
  password = none;
  hostname = some "acme.example";
  port = none;
  path = "/keys";
  query = "";
  fragment = "";
}

abbrev pub urls : Urls
urls = record {
  urlsplit = λ uri. some parts;
  urlunsplit = λ netloc path query. "https://acme.example/keys";
  port_text = λ n. "443";
}

abbrev no_documents : String → Option SourceDocument
no_documents uri = none

from_dict-to_dict_example : from_dict py (to_dict py metadata) ≡ some metadata
unfolding make_metadata is_digest all make_binding
from_dict-to_dict_example =
    from_dict-to_dict py moment_read refl (λ d h. refl) metadata metadata refl ((binding, refl), tt)

no_blob : (c : List ℕ) → read_bytes digest [] ≡ some c → c ≡ 123 ∷ 125 ∷ []
unfolding read_bytes
no_blob c h = cc

put_refines_example :
    ((put_document py urls (record { blobs = []; manifest = none }) document).1 ≡ true)
    × Represents py urls
        (put_document py urls (record { blobs = []; manifest = none }) document).0
        (update py urls no_documents "https://acme.example/keys" document)
unfolding make_metadata is_digest all make_binding make_document any canonicalize_source_uri host_of
    or_else strip_dots normalize_percent_encoding get_document load_manifest document_of find
put_refines_example =
    put_refines py urls moment_read refl (λ d h. refl) (record { blobs = []; manifest = none })
      no_documents document metadata "https://acme.example/keys" refl ((binding, refl), tt) refl
      refl no_blob (λ uri k e. refl)

normalize_idempotent_example : normalize_percent_encoding "/a~%C3" ≡ some "/a~%C3"
unfolding normalize_percent_encoding
normalize_idempotent_example = normalize_idempotent "/a%7e%c3" "/a~%C3" refl

abbrev pub split_uri : String → Option SplitUri
split_uri uri = some (record {
  scheme = "https";
  netloc = "acme.example";
  username = none;
  password = none;
  hostname = some "acme.example";
  fragment = "";
})

abbrev range_item : Fields
range_item = field "uri" (str "https://acme.example/ranges") (
    field "format_profile" (str "prefixes-v1") (
      field "binding_scope" (str "provider") (
        field "negative_semantics" (str "positive_only")
          (field "reviewed_on" (str "2026-01-01") end))))

abbrev registry : Json
registry = obj (
    field "schema_version" (int (pos 1)) (
      field "providers"
        (arr (
          cons
            (obj (
              field "provider" (str "acme")
                (field "range_sources" (arr (cons (obj range_item) nil)) end)))
            nil))
        end))

abbrev profile : ProviderProfile
profile = record {
  provider = "acme";
  range_sources =
      record {
        uri = "https://acme.example/ranges";
        format_profile = "prefixes-v1";
        binding_scope = BindingScope.provider;
        negative_semantics = NegativeSemantics.positive_only;
        reviewed_on = "2026-01-01";
        subject = none;
        category = none;
      }
      ∷ [];
  fcrdns = none;
  crypto = none;
}

load-IsSecure_example :
    All
      (λ p.
        ((name : String)
          → py.casefold name ≡ p.provider
          → provider_profile py (profile ∷ []) name ≡ some p)
        × IsSecure py split_uri p)
      (profile ∷ [])
unfolding load_provider_profiles equals_one agent_traffic_intelligen.Json.get providers_of
    add_providers required_string any parse_provider list_or_empty parse_range_sources
    parse_range_source required_https_uri is_https scope_of semantics_of required_iso_date
    parse_fcrdns parse_crypto string_or_none
load-IsSecure_example = load-IsSecure py split_uri registry (profile ∷ []) refl

allows_iff_example :
    (allows py urls ("https://acme.example/keys" ∷ []) "https://ACME.example/keys" ≡ true)
    ↔ Exists (IsSameSource py urls "https://ACME.example/keys") (configured_uris (profile ∷ []))
unfolding default_policy canonical_uris configured_uris canonicalize_source_uri host_of or_else
    strip_dots normalize_percent_encoding directory_uris
allows_iff_example =
    allows_iff py urls (profile ∷ []) ("https://acme.example/keys" ∷ []) "https://ACME.example/keys"
      refl
