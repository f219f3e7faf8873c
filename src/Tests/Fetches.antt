-- ===== src/Tests/Fetches.antt =====
-- A fetch that follows one redirect.
use agent_traffic_intelligen.Prelude.{
  ◌≤◌, none, some, [], ◌∷◌, true, false, ◌≡◌, refl, length, All, nat_eq, if◌then◌else◌,
}
use agent_traffic_intelligen.Sources.Exchange.{TransportResponse, FetchResult, SplitUri, Web}
use agent_traffic_intelligen.Sources.Fetcher.{
  result_of, validate_uri, turn, send, resolve_public_addresses, redirected, public_addresses,
  normalize, media_type, is_public, headers_for, header, finalize, fetch_from, destination, origin,
  fetch,
}
use agent_traffic_intelligen.Sources.Fetcher.Runs.{IsFueled}
use agent_traffic_intelligen.Sources.Fetcher.Turns.{IsAcceptable}
use agent_traffic_intelligen.Sources.Fetcher.Destinations.{IsSafe}
use agent_traffic_intelligen.Sources.Fetcher.Requests.{
  IsAtOrigin, fetch_bounded, fetch-IsSafe, fetch-IsAtOrigin, fetch-IsAcceptable,
}
use agent_traffic_intelligen.Tests.Samples.{runtime}
use agent_traffic_intelligen.Crypto.Components.{before_semicolon}

abbrev moved : TransportResponse
moved = record {
  status = 301;
  headers = ("location", "https://acme.example/keys.json") ∷ [];
  body = [];
}

abbrev found : TransportResponse
found = record {
  status = 200;
  headers = ("content-type", "application/json") ∷ [];
  body = 123 ∷ 125 ∷ [];
}

abbrev acme_uri : SplitUri
acme_uri = record {
  scheme = "https";
  netloc = "acme.example";
  username = none;
  password = none;
  hostname = some "acme.example";
  fragment = "";
}

abbrev web : Web
web = record {
  urlsplit = λ uri. some acme_uri;
  urljoin = λ base location. some location;
  strip = λ s. s;
  resolve = λ n hostname. some ("192.0.2.7" ∷ []);
  request = λ n request. some (if nat_eq n 0 then moved else found);
  is_global = λ a. true;
  is_multicast = λ a. false;
  is_unspecified = λ a. false;
  is_loopback = λ a. false;
  is_link_local = λ a. false;
  is_private = λ a. false;
  is_reserved = λ a. false;
}

abbrev result : FetchResult
result = record {
  uri = "https://acme.example/keys.json";
  status = 200;
  body = some (123 ∷ 125 ∷ []);
  content_type = some "application/json";
  etag = none;
  last_modified = none;
  cache_control = none;
  redirects = 1;
  not_modified = false;
  signature = none;
  signature_input = none;
  content_digest = none;
}

fetch_bounded_example :
    IsFueled (fetch runtime web 1000 3 true "https://acme.example/old.json" (some "1") none).1
    × (length (fetch runtime web 1000 3 true "https://acme.example/old.json" (some "1") none).0 ≤ 4)
fetch_bounded_example =
    fetch_bounded runtime web 1000 3 true "https://acme.example/old.json" (some "1") none

fetch-IsSafe_example :
    All
      (IsSafe runtime web)
      (fetch runtime web 1000 3 true "https://acme.example/old.json" (some "1") none).0
fetch-IsSafe_example =
    fetch-IsSafe runtime web 1000 3 true "https://acme.example/old.json" (some "1") none

fetch-IsAtOrigin_example :
    All
      (IsAtOrigin runtime web 1000 3 true (some ("https", "acme.example")))
      (fetch runtime web 1000 3 true "https://acme.example/old.json" (some "1") none).0
unfolding origin
fetch-IsAtOrigin_example =
    fetch-IsAtOrigin runtime web 1000 3 true "https://acme.example/old.json" (some "1") none

fetch-IsAcceptable_example :
    IsAcceptable runtime web 1000 3 result
    × (2 ≡ length (fetch runtime web 1000 3 true "https://acme.example/old.json" (some "1") none).0)
unfolding fetch fetch_from destination validate_uri resolve_public_addresses public_addresses
    normalize is_public send turn header redirected headers_for origin finalize media_type
    before_semicolon result_of
fetch-IsAcceptable_example =
    fetch-IsAcceptable runtime web 1000 3 true "https://acme.example/old.json" (some "1") none
      result refl
