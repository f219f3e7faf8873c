-- ===== src/Crypto/Discovery/Addresses.antt =====
-- identity/crypto/discovery.py: its own normalisation of an address (`_normalize_percent_encoding`,
-- `_remove_dot_segments`, `_format_host`, `_canonical_https`). What it calls of Python's texts and lists is
-- that of Sources.Trust.Percent and Sources.Trust.Segments.
use Prim.Native.Char.{Char, code}
use agent_traffic_intelligen.Prelude.{
  ℕ, String, ◌+◌, ◌*◌, Option, none, some, List, [], ◌∷◌, ◌++◌, Bool, true, false, ◌&&◌, ◌||◌, not,
  ◌==◌, ◌⁀◌, opt_eq, or_else, nat_eq, strip_dots, ends_with, if◌then◌else◌,
}
use agent_traffic_intelligen.Prelude.Options.{◌>>=◌}
use agent_traffic_intelligen.Runtime.{Runtime}
use agent_traffic_intelligen.Sources.Trust.{Urls, SplitSource, has_colon}
use agent_traffic_intelligen.Sources.Trust.Percent.{char_in, hex_value, upper, prepend, percent}
use agent_traffic_intelligen.Sources.Trust.Segments.{split, join, is_absolute, without_last}

-- The parts that `_canonical_https` returns.
pub record CanonicalParts : Type 0 where
  pub netloc : String
  pub path : String
  pub query : String
  pub fragment : String

-- `_UNRESERVED`
abbrev pub unreserved_characters : String
unreserved_characters = "abcdefghijklmnopqrstuvwxyzABCDEFGHIJKLMNOPQRSTUVWXYZ0123456789-._~"

-- What is appended for two digits: the character that they stand for, if it is unreserved, or the escape.
unfoldable pub appended_escape : Char → Char → Option Char → Option String → Option String
appended_escape a b (some decoded) rest = prepend decoded rest
appended_escape a b none rest = prepend percent (prepend (upper a) (prepend (upper b) rest))

-- The two characters after `%`: `none` where one of them is not in `_HEX`.
unfoldable pub decoded_pair : Char → Char → Option ℕ → Option ℕ → Option String → Option String
decoded_pair a b (some m) (some n) rest =
    appended_escape a b (char_in unreserved_characters (m * 16 + n)) rest
decoded_pair a b _ _ rest = none

-- `_normalize_percent_encoding`: `none` for its `SignatureAgentResolutionError`s.
unfoldable pub normalize_percent_encoding : String → Option String
normalize_percent_encoding String.[] = some ""
normalize_percent_encoding (String.◌∷◌ c String.[]) =
    if nat_eq (code c) b'%' then none else some (String.◌∷◌ c String.[])
normalize_percent_encoding (String.◌∷◌ c (String.◌∷◌ a String.[])) =
    if nat_eq (code c) b'%'
    then none
    else prepend c (normalize_percent_encoding (String.◌∷◌ a String.[]))
normalize_percent_encoding (String.◌∷◌ c (String.◌∷◌ a (String.◌∷◌ b s))) =
    elim (nat_eq (code c) b'%') [
      | true ↦ decoded_pair a b (hex_value a) (hex_value b) (normalize_percent_encoding s)
      | false ↦ prepend c (normalize_percent_encoding (String.◌∷◌ a (String.◌∷◌ b s)))
    ]

-- One turn of the loop over the segments of a path.
unfoldable pub segment_turn : List String → String → List String
segment_turn segments segment =
    if segment == "" || segment == "."
    then segments
    else if segment == ".."
    then without_last segments
    else segments ++ (segment ∷ [])

unfoldable pub segments_after : List String → List String → List String
segments_after segments [] = segments
segments_after segments (x ∷ xs) = segments_after (segment_turn segments x) xs

-- The path of the segments that are left.
unfoldable pub rebuilt_path : Bool → Bool → String → String
rebuilt_path absolute trailing joined =
    let result = (if absolute then "/" ⁀ joined else joined) in
    if result == ""
    then (if absolute then "/" else "")
    else if trailing && not (result == "/")
    then result ⁀ "/"
    else result

-- `_remove_dot_segments`
unfoldable pub remove_dot_segments : String → String
remove_dot_segments path =
    rebuilt_path (is_absolute path) (ends_with path "/") (join (segments_after [] (split path)))

-- `_format_host`
unfoldable pub format_host : String → String
format_host hostname = if has_colon hostname then "[" ⁀ (hostname ⁀ "]") else hostname

module _ (py : Runtime) (urls : Urls) where
  -- The network location of a host and a port.
  unfoldable pub location_of : String → Option ℕ → String
  location_of hostname none = format_host hostname
  location_of hostname (some port) =
      if nat_eq port 443
      then format_host hostname
      else format_host hostname ⁀ (":" ⁀ urls.port_text port)

  -- The checks on a hostname, and its folded form.
  unfoldable pub folded_host : Option String → Option String
  folded_host raw =
      if or_else raw "" == ""
      then none
      else if strip_dots (py.casefold (or_else raw "")) == ""
      then none
      else some (strip_dots (py.casefold (or_else raw "")))

  -- The checks on the scheme, the credentials and the host.
  unfoldable pub checked_hostname : SplitSource → Option String
  checked_hostname parsed =
      if not (py.casefold parsed.scheme == "https")
      then none
      else if not (opt_eq parsed.username none && opt_eq parsed.password none)
      then none
      else folded_host parsed.hostname

  -- `_canonical_https`: `none` for each `SignatureAgentResolutionError`.
  unfoldable pub canonical_https : String → Option CanonicalParts
  canonical_https uri = do
    parsed ← urls.urlsplit uri
    hostname ← checked_hostname parsed
    path ← normalize_percent_encoding (if parsed.path == "" then "/" else parsed.path)
    query ← normalize_percent_encoding parsed.query
    some (record {
      netloc = location_of hostname parsed.port;
      path = remove_dot_segments path;
      query = query;
      fragment = parsed.fragment;
    })
