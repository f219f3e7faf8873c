-- ===== src/Sources/Exchange.antt =====
-- identity/sources/fetcher.py: what goes between the fetcher and its collaborators, and what it returns
-- or raises.
use agent_traffic_intelligen.Prelude.{ℕ, String, Option, List, Bool}
use agent_traffic_intelligen.Runtime.{Address}

-- `TransportResponse`
pub record TransportResponse : Type 0 where
  pub status : ℕ
  pub headers : List (String × String)
  pub body : List ℕ

-- `FetchResult`
pub record FetchResult : Type 0 where
  pub uri : String
  pub status : ℕ
  pub body : Option (List ℕ)
  pub content_type : Option String
  pub etag : Option String
  pub last_modified : Option String
  pub cache_control : Option String
  pub redirects : ℕ
  pub not_modified : Bool
  pub signature : Option String
  pub signature_input : Option String
  pub content_digest : Option String

-- The arguments of one `FetchTransport.request`.
pub record Request : Type 0 where
  pub uri : String
  pub headers : List (String × String)
  pub allowed_addresses : List String

-- What the code reads of `urlsplit`.
pub record SplitUri : Type 0 where
  pub scheme : String
  pub netloc : String
  pub username : Option String
  pub password : Option String
  pub hostname : Option String
  pub fragment : String

-- What a call raises: `FetchSecurityError`, `FetchProtocolError`, a `ValueError` of the URL functions,
-- or, in the model alone, that its fuel was not enough.
pub data Failure : Type 0 where
  security : String → Failure
  protocol : String → Failure
  value_error : Failure
  out_of_fuel : Failure

pub data Attempt {ℓ} (A : Type ℓ) : Type ℓ where
  done : A → Attempt A
  fail : Failure → Attempt A

-- The collaborators of the fetcher, and the attributes of an address.
pub record Web : Type 0 where
  pub urlsplit : String → Option SplitUri
  pub urljoin : String → String → Option String
  pub strip : String → String
  pub resolve : ℕ → String → Option (List String)
  pub request : ℕ → Request → Option TransportResponse
  pub is_global : Address → Bool
  pub is_multicast : Address → Bool
  pub is_unspecified : Address → Bool
  pub is_loopback : Address → Bool
  pub is_link_local : Address → Bool
  pub is_private : Address → Bool
  pub is_reserved : Address → Bool
