-- ===== src/Tests/Networks.antt =====
-- The range formats, the matching and the two network verifiers on concrete inputs.
use agent_traffic_intelligen.Prelude.{
  all, ◌==◌, keep, strip_dots, or_else, ends_with, String, none, some, List, [], ◌∷◌, true, false,
  ◌≡◌, ◌⊎◌, refl, Exists, All, any,
}
use agent_traffic_intelligen.Json.{Items, Fields, arr, get}
use agent_traffic_intelligen.Runtime.{Runtime}
use agent_traffic_intelligen.Identity.Evidence.{BindingScope}
use agent_traffic_intelligen.Sources.Documents.{
  make_metadata, make_document, is_digest, from_bytes, SourceDocument, SourceType, ValidationStatus,
  SourceAcquisition,
}
use agent_traffic_intelligen.Network.Ranges.{
  best_match, strip_z, parse_network, parse_creation_time, make_range_set, holds, creation_moment,
  ok, PublishedRange, RangeMatch, PublishedRangeSet, match, is_candidate, unmapped, no_match,
  coerce_mapping,
}
use agent_traffic_intelligen.Network.Ranges.Matching.{IsMostSpecific, match-IsMostSpecific}
use agent_traffic_intelligen.Network.Formats.{
  sync_token_of, prefixes_v1_ranges, prefixes_v1_range, prefixes_of, prefix_of, jafar_ranges,
  jafar_range, parse_jafar, parse_prefixes_v1,
}
use agent_traffic_intelligen.Network.Formats.Strictness.{
  AreJafarRangesOf, ArePrefixRangesOf, parse_jafar_ranges, parse_prefixes_v1_ranges,
}
use agent_traffic_intelligen.Network.Official.{
  report, NegativeSemantics, authoritative_negative, RangeSourceProfile, parse_ranges, look_up,
}
use agent_traffic_intelligen.Network.Official.Laws.{Applies, pass_iff, mismatch_iff}
use agent_traffic_intelligen.Network.Fcrdns.{
  normalize_hostname, normalize_all, normalize_address, matching_suffix, forward_addresses,
  confirm_names, confirm, FcrdnsProfile, Dns, candidates,
}
use agent_traffic_intelligen.Network.Fcrdns.Laws.{
  IsUnder, folded, Confirms, Refutes, Reached, dns_pass_iff, dns_mismatch_iff,
}
use agent_traffic_intelligen.Sources.Documents.Digests.{AreAware, from_bytes_lem}
use agent_traffic_intelligen.Tests.Samples.{
  acme, crawler_address, crawler_network, new_year, runtime, request,
}

abbrev published_range : PublishedRange
published_range = record { network = crawler_network; services = [] }

abbrev jafar_set : PublishedRangeSet
jafar_set = record {
  creation_time = new_year;
  ranges = published_range ∷ [];
  source_profile = "jafar-00";
  sync_token = none;
}

abbrev prefixes_v1_set : PublishedRangeSet
prefixes_v1_set = record {
  creation_time = new_year;
  ranges = published_range ∷ [];
  source_profile = "prefixes-v1";
  sync_token = none;
}

match-IsMostSpecific_example :
    ((match runtime jafar_set "192.0.2.7" ≡ ok no_match)
      × (any (is_candidate (unmapped crawler_address)) (published_range ∷ []) ≡ false))
    ⊎ ((w : PublishedRange) × (match runtime jafar_set "192.0.2.7"
          ≡ ok (record {
            matched = true;
            prefix_length = some w.network.prefixlen;
            services = w.services;
          }))
        × IsMostSpecific (unmapped crawler_address) (published_range ∷ []) w)
match-IsMostSpecific_example =
    match-IsMostSpecific runtime jafar_set "192.0.2.7" crawler_address refl

parse_jafar_ranges_example :
    (document : Fields) × (prefixes : Items) × (coerce_mapping runtime [] ≡ ok document)
    × (get "prefixes" document ≡ arr prefixes)
    × AreJafarRangesOf runtime prefixes jafar_set.ranges
unfolding parse_jafar coerce_mapping parse_creation_time get strip_z creation_moment prefixes_of
    sync_token_of jafar_ranges jafar_range prefix_of parse_network make_range_set
parse_jafar_ranges_example = parse_jafar_ranges runtime [] jafar_set refl

parse_prefixes_v1_ranges_example :
    (document : Fields) × (prefixes : Items) × (coerce_mapping runtime [] ≡ ok document)
    × (get "prefixes" document ≡ arr prefixes)
    × ArePrefixRangesOf runtime prefixes prefixes_v1_set.ranges
unfolding parse_prefixes_v1 coerce_mapping parse_creation_time get strip_z creation_moment
    prefixes_of prefixes_v1_ranges prefixes_v1_range prefix_of parse_network make_range_set
parse_prefixes_v1_ranges_example = parse_prefixes_v1_ranges runtime [] prefixes_v1_set refl

-- The registered source of the crawler's ranges.
abbrev ranges_profile : RangeSourceProfile
ranges_profile = record {
  uri = "https://acme.example/ranges.json";
  format_profile = "prefixes-v1";
  binding_scope = BindingScope.agent;
  negative_semantics = authoritative_negative;
  reviewed_on = "2026-01-01";
  subject = some "AcmeBot";
  category = none;
}

-- The digest of no bytes, under a runtime that answers with a hexadecimal text.
abbrev digest : String
digest = "e3b0c44298fc1c149afbf4c8996fb92427ae41e4649b934ca495991b7852b855"

abbrev ranges_document : SourceDocument
ranges_document = record {
  metadata = record {
    uri = "https://acme.example/ranges.json";
    source_type = SourceType.ip_ranges;
    provider = some "acme";
    binding_scope = BindingScope.agent;
    retrieved_at = new_year;
    sha256 = digest;
    content_type = none;
    parser_profile = "prefixes-v1";
    source_created_at = none;
    expires_at = none;
    etag = none;
    last_modified = none;
    validation_status = ValidationStatus.valid;
    key_authority_bindings = [];
    acquisition = SourceAcquisition.direct_https;
  };
  content = [];
}

-- A runtime in which the request has an address outside the ranges.
abbrev outside : Runtime
outside = record runtime { ip_address = λ _. some (record { version = 4; value = 3221226240 }) }

pass_iff_example :
    (address : String) × Applies runtime request acme ranges_profile ranges_document address
    × ((m : RangeMatch) × (look_up runtime ranges_profile ranges_document address ≡ ok m)
        × (m.matched ≡ true))
unfolding agent_traffic_intelligen.Network.Official.verify or_else report look_up parse_ranges
    parse_prefixes_v1 coerce_mapping parse_creation_time get strip_z creation_moment prefixes_of
    prefixes_v1_ranges prefixes_v1_range prefix_of parse_network make_range_set match best_match
    keep is_candidate unmapped holds agent_traffic_intelligen.Network.Official.evidence
pass_iff_example = (pass_iff runtime request acme ranges_profile ranges_document).0 refl

mismatch_iff_example :
    (ranges_profile.negative_semantics ≡ authoritative_negative)
    × ((address : String) × Applies outside request acme ranges_profile ranges_document address
        × ((m : RangeMatch) × (look_up outside ranges_profile ranges_document address ≡ ok m)
            × (m.matched ≡ false)))
unfolding agent_traffic_intelligen.Network.Official.verify or_else report look_up parse_ranges
    parse_prefixes_v1 coerce_mapping parse_creation_time get strip_z creation_moment prefixes_of
    prefixes_v1_ranges prefixes_v1_range prefix_of parse_network make_range_set match best_match
    keep is_candidate unmapped holds agent_traffic_intelligen.Network.Official.evidence
mismatch_iff_example = (mismatch_iff outside request acme ranges_profile ranges_document).0 refl

abbrev dns_profile : FcrdnsProfile
dns_profile = record {
  allowed_suffixes = "acme.com" ∷ [];
  binding_scope = BindingScope.provider;
  reviewed_on = "2026-01-01";
}

abbrev dns : Dns
dns = record {
  reverse = λ _. some ("crawl.acme.com." ∷ []);
  forward = λ _. some ("192.0.2.7" ∷ []);
}

-- The host name leads to no address.
abbrev silent_dns : Dns
silent_dns = record dns { forward = λ _. some [] }

dns_pass_iff_example :
    (raw address : String) × (names : List String) × Reached runtime dns request raw address names
    × Exists
        (λ n.
          IsUnder runtime dns ("acme.com" ∷ []) (folded runtime dns n)
          × Confirms runtime dns address (folded runtime dns n))
        names
unfolding agent_traffic_intelligen.Network.Fcrdns.verify normalize_address confirm_names candidates
    matching_suffix normalize_hostname strip_dots ends_with confirm forward_addresses normalize_all
    any agent_traffic_intelligen.Network.Fcrdns.evidence
dns_pass_iff_example = (dns_pass_iff runtime dns request acme dns_profile).0 refl

dns_mismatch_iff_example :
    (raw address : String) × (names : List String) × Reached runtime silent_dns request raw address
      names
    × All
        (λ n.
          (¬ IsUnder runtime silent_dns ("acme.com" ∷ []) (folded runtime silent_dns n))
          ⊎ Refutes runtime silent_dns address (folded runtime silent_dns n))
        names
unfolding agent_traffic_intelligen.Network.Fcrdns.verify normalize_address confirm_names candidates
    matching_suffix normalize_hostname strip_dots ends_with confirm forward_addresses normalize_all
    any agent_traffic_intelligen.Network.Fcrdns.evidence
dns_mismatch_iff_example = (dns_mismatch_iff runtime silent_dns request acme dns_profile).0 refl

abbrev hashing : Runtime
hashing = record runtime { sha256 = λ content. digest }

abbrev digested : SourceDocument
digested = record ranges_document {
  metadata = record ranges_document.metadata { expires_at = some new_year };
}

from_bytes_lem_example :
    (digested.content ≡ [])
    × (digested.metadata.sha256 ≡ digest)
    × All (λ b. b.body_sha256 ≡ digest) digested.metadata.key_authority_bindings
    × (digested.metadata.uri ≡ ranges_document.metadata.uri)
    × ((ranges_document.metadata.uri == "") ≡ false)
    × (new_year.is_aware ≡ true)
    × AreAware none
    × AreAware (some new_year)
unfolding from_bytes make_metadata is_digest all make_document any
from_bytes_lem_example =
    from_bytes_lem hashing (record ranges_document.metadata { expires_at = some new_year }) []
      digested refl
