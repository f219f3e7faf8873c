-- ===== src/Sources/Trust.antt =====
-- identity/sources/trust.py: which source addresses the program may use.
pub mod Percent
pub mod Normal
pub mod Segments
pub mod Policy
use Prim.Native.Char.{code}
use agent_traffic_intelligen.Prelude.{
  ℕ, String, Option, none, some, List, [], ◌∷◌, ◌++◌, Bool, true, false, not, ◌&&◌, ◌||◌, ◌==◌, ◌⁀◌,
  opt_eq, or_else, any, map, nat_eq, strip_dots, if◌then◌else◌,
}
use agent_traffic_intelligen.Prelude.Options.{◌>>=◌}
use agent_traffic_intelligen.Runtime.{Runtime}
use agent_traffic_intelligen.Identity.Profiles.{ProviderProfile, CryptoProfile}
use agent_traffic_intelligen.Sources.Trust.Percent.{normalize_percent_encoding}
use agent_traffic_intelligen.Sources.Trust.Segments.{remove_dot_segments}

-- What the code reads of `urlsplit`.
pub record SplitSource : Type 0 where
  pub scheme : String
  pub username : Option String
  pub password : Option String
  pub hostname : Option String
  pub port : Option ℕ
  pub path : String
  pub query : String
  pub fragment : String

-- The functions on addresses that the code calls.
pub record Urls : Type 0 where
  -- `urlsplit` and its `port`: `none` for a `ValueError` of either
  pub urlsplit : String → Option SplitSource
  -- `urlunsplit(("https", netloc, path, query, ""))`
  pub urlunsplit : String → String → String → String
  -- `str` of a port
  pub port_text : ℕ → String

-- `":" in hostname`
unfoldable pub has_colon : String → Bool
has_colon String.[] = false
has_colon (String.◌∷◌ c s) = nat_eq (code c) b':' || has_colon s

-- `_format_host`
unfoldable pub format_host : String → String
unfolding has_colon
format_host hostname = if has_colon hostname then "[" ⁀ (hostname ⁀ "]") else hostname

-- The addresses of a profile's key directories.
unfoldable pub directory_uris : Option CryptoProfile → List String
directory_uris none = []
directory_uris (some crypto) = map (λ s. s.directory_uri) crypto.signature_agents

-- The addresses that `SourceTrustPolicy.default` goes through, in order.
unfoldable pub configured_uris : List ProviderProfile → List String
configured_uris [] = []
configured_uris (p ∷ ps) =
    map (λ s. s.uri) p.range_sources ++ (directory_uris p.crypto ++ configured_uris ps)

-- `canonical in self.allowed_uris`, where the address has a canonical form
unfoldable pub member_of : List String → Option String → Bool
member_of allowed_uris none = false
member_of allowed_uris (some canonical) = any (λ u. canonical == u) allowed_uris

module _ (py : Runtime) (urls : Urls) where
  -- The network location, with a port that is not the usual one.
  unfoldable pub netloc_of : String → Option ℕ → String
  netloc_of hostname none = format_host hostname
  netloc_of hostname (some port) =
      if nat_eq port 443
      then format_host hostname
      else format_host hostname ⁀ (":" ⁀ urls.port_text port)

  -- The folded host: `none` where there is none.
  unfoldable pub host_of : Option String → Option String
  host_of raw =
      if or_else raw "" == ""
      then none
      else if strip_dots (py.casefold (or_else raw "")) == ""
      then none
      else some (strip_dots (py.casefold (or_else raw "")))

  -- `canonicalize_source_uri`: `none` for each `ValueError`.
  unfoldable pub canonicalize_source_uri : String → Option String
  canonicalize_source_uri uri = do
    parsed ← urls.urlsplit uri
    hostname ←
        (if not (py.casefold parsed.scheme == "https")
          then none
          else if not (opt_eq parsed.username none && opt_eq parsed.password none)
          then none
          else host_of parsed.hostname)
    path ← normalize_percent_encoding (if parsed.path == "" then "/" else parsed.path)
    query ← normalize_percent_encoding parsed.query
    some (urls.urlunsplit (netloc_of hostname parsed.port) (remove_dot_segments path) query)

  -- `canonicalize_source_uri` of each, where none raises.
  unfoldable pub canonical_uris : List String → Option (List String)
  canonical_uris [] = some []
  canonical_uris (uri ∷ rest) = do
    canonical ← canonicalize_source_uri uri
    others ← canonical_uris rest
    some (canonical ∷ others)

  -- `SourceTrustPolicy.default().allowed_uris`
  unfoldable pub default_policy : List ProviderProfile → Option (List String)
  default_policy profiles = canonical_uris (configured_uris profiles)

  -- `SourceTrustPolicy.allows`
  unfoldable pub allows : List String → String → Bool
  allows allowed_uris uri = member_of allowed_uris (canonicalize_source_uri uri)
