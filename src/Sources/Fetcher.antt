-- ===== src/Sources/Fetcher.antt =====
-- identity/sources/fetcher.py: the fetcher of identity sources, as the list of requests that it sends
-- and what it returns or raises. The URL functions, DNS, the TLS transport and the classes of
-- `ipaddress` are parameters; the n-th lookup and the n-th request may answer in any way.
pub mod Runs
pub mod Turns
pub mod Destinations
pub mod Requests
use agent_traffic_intelligen.Prelude.{
  ℕ, zero, suc, ◌+◌, String, Option, none, some, List, [], ◌∷◌, ◌++◌, Bool, true, false, ◌&&◌, ◌||◌,
  not, ◌≡◌, refl, ◌==◌, nat_eq, leb, ltb, length, any, opt_eq, strip_dots, ends_with, if◌then◌else◌,
}
use agent_traffic_intelligen.Prelude.Sort.{text_order, sorted}
use agent_traffic_intelligen.Sources.Exchange.{
  TransportResponse, FetchResult, Request, SplitUri, Failure, Attempt, Web, security, protocol,
  value_error, out_of_fuel, done, fail,
}
use agent_traffic_intelligen.Runtime.{Address, Runtime}
use agent_traffic_intelligen.Network.Ranges.{unmapped}
use agent_traffic_intelligen.Crypto.Components.{before_semicolon}

-- `response.status in _REDIRECT_STATUSES`
abbrev pub is_redirect : ℕ → Bool
is_redirect status =
    nat_eq status 301
    || (nat_eq status 302 || (nat_eq status 303 || (nat_eq status 307 || nat_eq status 308)))

-- Adding a text to a set of texts.
unfoldable pub add_text : String → List String → List String
add_text t ts = if any (λ u. u == t) ts then ts else t ∷ ts

-- How a response goes on: with the result, or with the next address and its headers.
pub data Turn : Type 0 where
  finish : FetchResult → Turn
  follow : String → List (String × String) → Turn

-- The headers of a conditional request.
unfoldable pub conditional_headers : Option String → Option String → List (String × String)
conditional_headers none none = []
conditional_headers none (some m) = ("If-Modified-Since", m) ∷ []
conditional_headers (some e) none = ("If-None-Match", e) ∷ []
conditional_headers (some e) (some m) = ("If-None-Match", e) ∷ ("If-Modified-Since", m) ∷ []

module _ (py : Runtime) (web : Web) where
  -- `_header`
  unfoldable pub header : List (String × String) → String → Option String
  header [] name = none
  header ((key, value) ∷ rest) name =
      if py.casefold key == py.casefold name then some value else header rest name

  -- `_validate_uri`
  unfoldable pub validate_uri : String → Attempt String
  validate_uri uri = elim (web.urlsplit uri) [
    | none ↦ fail value_error
    | some parsed ↦
        if not (py.casefold parsed.scheme == "https")
        then fail (security "source URI must use https")
        else if not (opt_eq parsed.username none && opt_eq parsed.password none)
        then fail (security "source URI must not contain credentials")
        else elim parsed.hostname [
          | none ↦ fail (security "source URI must contain a hostname")
          | some hostname ↦
              if not (parsed.fragment == "")
              then fail (security "source URI must not contain a fragment")
              else done (strip_dots (py.casefold hostname))
        ]
  ]

  -- The test on one resolved address, negated.
  unfoldable pub is_public : Address → Bool
  is_public address = not (
      not (web.is_global address)
      || (web.is_multicast address
          || (web.is_unspecified address
              || (web.is_loopback address
                  || (web.is_link_local address
                      || (web.is_private address || web.is_reserved address))))))

  -- The loop over the resolved addresses, into the set `normalized`.
  unfoldable pub normalize : List String → List String → Attempt (List String)
  normalize normalized [] = done normalized
  normalize normalized (raw ∷ rest) = elim (py.ip_address raw) [
    | none ↦ fail (protocol "resolver returned an invalid IP address")
    | some address ↦
        if is_public (unmapped address)
        then normalize (add_text (py.address_text (unmapped address)) normalized) rest
        else fail (security "all resolved destination addresses must be public")
  ]

  -- The addresses of a lookup that answered.
  unfoldable pub public_addresses : List String → Attempt (List String)
  public_addresses [] = fail (protocol "destination DNS resolution returned no addresses")
  public_addresses (raw ∷ rest) = elim (normalize [] (raw ∷ rest)) [
    | done normalized ↦ done (sorted text_order (λ t. t) normalized)
    | fail e ↦ fail e
  ]

  -- `_resolve_public_addresses`
  unfoldable pub resolve_public_addresses : ℕ → String → Attempt (List String)
  resolve_public_addresses n hostname = elim (web.resolve n hostname) [
    | none ↦ fail (protocol "destination DNS resolution failed")
    | some raw_addresses ↦ public_addresses raw_addresses
  ]

  -- Both checks before a request.
  unfoldable pub destination : ℕ → String → Attempt (List String)
  destination n uri = elim (validate_uri uri) [
    | done hostname ↦ resolve_public_addresses n hostname
    | fail e ↦ fail e
  ]

  -- `(urlsplit(uri).scheme.casefold(), urlsplit(uri).netloc.casefold())`
  unfoldable pub origin : String → Option (String × String)
  origin uri = elim (web.urlsplit uri) [
    | none ↦ none
    | some parsed ↦ some (py.casefold parsed.scheme, py.casefold parsed.netloc)
  ]

  abbrev pub same_origin : String × String → String × String → Bool
  same_origin (a, b) (c, d) = a == c && b == d

  -- The media type of a response, without its parameters.
  unfoldable pub media_type : String → String
  media_type raw = py.casefold (web.strip (before_semicolon raw))

  module _ (max_bytes max_redirects : ℕ) (follow_redirects : Bool) where
    -- The parts of a `FetchResult` that are the same for a body and for 304.
    unfoldable pub result_of :
        String → TransportResponse → ℕ → Option (List ℕ) → Option String → Bool → FetchResult
    result_of uri response redirects body content_type not_modified = record {
      uri = uri;
      status = response.status;
      body = body;
      content_type = content_type;
      etag = header response.headers "etag";
      last_modified = header response.headers "last-modified";
      cache_control = header response.headers "cache-control";
      redirects = redirects;
      not_modified = not_modified;
      signature = header response.headers "signature";
      signature_input = header response.headers "signature-input";
      content_digest = header response.headers "content-digest";
    }

    -- `_finalize`
    unfoldable pub finalize : String → TransportResponse → ℕ → Attempt FetchResult
    finalize uri response redirects =
        if nat_eq response.status 304
        then done (result_of uri response redirects none none true)
        else if not (leb 200 response.status && leb response.status 299)
        then fail (protocol "unexpected HTTP status")
        else if ltb max_bytes (length response.body)
        then fail (protocol "identity source exceeded the 2 MiB response limit")
        else elim (header response.headers "content-type") [
          | none ↦ fail (protocol "identity source is missing a media type")
          | some raw ↦
              if media_type raw == "application/json" || ends_with (media_type raw) "+json"
              then done (
                  result_of uri response redirects (some response.body) (some (media_type raw))
                    false)
              else fail (protocol "identity source media type must be JSON")
        ]

    -- The headers for the next address: none for another origin.
    unfoldable pub headers_for :
        Option (String × String)
        → Option (String × String)
        → List (String × String)
        → Attempt (List (String × String))
    headers_for (some here) (some there) headers =
        done (if same_origin here there then headers else [])
    headers_for _ _ headers = fail value_error

    -- A redirect to the given value of `Location`.
    unfoldable pub redirected : String → List (String × String) → String → Attempt Turn
    redirected current headers location = elim (web.urljoin current location) [
      | none ↦ fail value_error
      | some next_uri ↦ elim (headers_for (origin current) (origin next_uri) headers) [
        | done next_headers ↦ done (follow next_uri next_headers)
        | fail e ↦ fail e
      ]
    ]

    -- The rest of the loop's body, on a response.
    unfoldable pub turn : ℕ → String → List (String × String) → TransportResponse → Attempt Turn
    turn redirects current headers response =
        if is_redirect response.status
        then (if not follow_redirects
            then fail (protocol "redirects are not followed for this source")
            else if leb max_redirects redirects
            then fail (protocol "redirect limit exceeded")
            else elim (header response.headers "location") [
              | none ↦ fail (protocol "redirect response is missing Location")
              | some location ↦
                  if web.strip location == ""
                  then fail (protocol "redirect response is missing Location")
                  else redirected current headers location
            ])
        else elim (finalize current response redirects) [
          | done result ↦ done (finish result)
          | fail e ↦ fail e
        ]

    -- One request and what follows from its response.
    unfoldable pub send : ℕ → String → List (String × String) → List String → Attempt Turn
    send redirects current headers addresses =
        elim (web.request redirects
          (record { uri = current; headers = headers; allowed_addresses = addresses })) [
            | none ↦ fail (protocol "all validated HTTPS destination addresses failed")
            | some response ↦ turn redirects current headers response
          ]

    -- The loop of `fetch`: the requests that it sends, and its outcome.
    unfoldable pub fetch_from :
        ℕ → ℕ → String → List (String × String) → List Request × Attempt FetchResult
    fetch_from zero redirects current headers = ([], fail out_of_fuel)
    fetch_from (suc fuel) redirects current headers = elim (destination redirects current) [
      | fail e ↦ ([], fail e)
      | done addresses ↦
          let request : Request = record {
            uri = current;
            headers = headers;
            allowed_addresses = addresses;
          } in
          elim (send redirects current headers addresses) [
            | fail e ↦ (request ∷ [], fail e)
            | done (finish result) ↦ (request ∷ [], done result)
            | done (follow next_uri next_headers) ↦
                let (requests, outcome) = fetch_from fuel (suc redirects) next_uri next_headers in
                (request ∷ requests, outcome)
          ]
    ]

    -- `SafeFetcher.fetch`, with fuel for one request more than the redirects that it follows.
    unfoldable pub fetch :
        String → Option String → Option String → List Request × Attempt FetchResult
    fetch uri etag last_modified =
        fetch_from (suc max_redirects) 0 uri (conditional_headers etag last_modified)
