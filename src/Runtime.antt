-- ===== src/Runtime.antt =====
-- The functions of Python's runtime that the program calls and that rest on tables or parsers of
-- their own (Unicode case folding, SHA-256, `ipaddress`, `json`, `datetime.fromisoformat`). They are
-- parameters of the model, so a theorem holds whatever they answer.
use agent_traffic_intelligen.Prelude.{ℕ, String, Option, List, Bool}
use agent_traffic_intelligen.Json.{Json}

-- An `IPv4Address` or `IPv6Address`: the version and the number.
pub record Address : Type 0 where
  pub version : ℕ
  pub value : ℕ

-- An `IPv4Network` or `IPv6Network`, its base address with the host bits cleared.
pub record Network : Type 0 where
  pub version : ℕ
  pub base : ℕ
  pub prefixlen : ℕ

-- A `datetime`: the microseconds of its instant (a naive one is read as UTC), and whether it is
-- timezone-aware.
pub record Moment : Type 0 where
  pub instant : ℕ
  pub is_aware : Bool

pub record Runtime : Type 0 where
  -- `str.casefold`
  pub casefold : String → String
  -- `json.loads` of UTF-8 bytes: `none` if either decoding fails
  pub load_json : List ℕ → Option Json
  -- `datetime.fromisoformat`: `none` for a `ValueError`
  pub fromisoformat : String → Option Moment
  -- `datetime.isoformat`
  pub isoformat : Moment → String
  -- `str` of a value of `json` that is not a text
  pub text_of : Json → String
  -- whether a number that is written with a fraction or an exponent equals 1
  pub is_one : String → Bool
  -- `date.fromisoformat`: whether it raises nothing
  pub is_iso_date : String → Bool
  -- `ip_address`: `none` for a `ValueError`
  pub ip_address : String → Option Address
  -- `str` of an address
  pub address_text : Address → String
  -- `ip_network(value, strict=False)`: `none` for a `ValueError`
  pub ip_network : String → Option Network
  -- `hashlib.sha256(content).hexdigest()`
  pub sha256 : List ℕ → String
