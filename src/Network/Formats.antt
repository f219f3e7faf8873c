-- ===== src/Network/Formats.antt =====
-- identity/network/formats/: the two published shapes of a range document.
pub mod Entries
pub mod Strictness
use agent_traffic_intelligen.Prelude.{
  ℕ, String, Option, none, some, List, [], ◌∷◌, Bool, true, false, if◌then◌else◌,
}
use agent_traffic_intelligen.Json.{Json, Items, Fields, null, str, arr, obj, nil, cons, find, get}
use agent_traffic_intelligen.Runtime.{Moment, Network, Runtime}
use agent_traffic_intelligen.Network.Ranges.{
  Result, ok, err, ◌>>=◌, PublishedRange, PublishedRangeSet, make_range_set, coerce_mapping,
  parse_creation_time, parse_network,
}

-- The prefix fields of an entry: none or both, or the one that is there with its version.
pub data Prefix : Type 0 where
  ambiguous : Prefix
  only : Json → ℕ → Prefix

-- `has_v4 == has_v6`, and the field that is there otherwise.
unfoldable pub prefix_of : Fields → Prefix
prefix_of item = elim (find "ipv4Prefix" item) [
  | none ↦ elim (find "ipv6Prefix" item) [ none ↦ ambiguous | some v6 ↦ only v6 6 ]
  | some v4 ↦ elim (find "ipv6Prefix" item) [ none ↦ only v4 4 | some v6 ↦ ambiguous ]
]

-- The strings of a `services` array.
unfoldable pub strings : Items → Result (List String)
strings nil = ok []
strings (cons (str s) items) = do rest ← strings items; ok (s ∷ rest)
strings (cons _ items) = err "services must be an array of strings"

-- `_services`
unfoldable pub services_of : Json → Result (List String)
services_of null = ok []
services_of (arr items) = strings items
services_of _ = err "services must be an array of strings"

-- `document.get("synctoken")`
unfoldable pub sync_token_of : Json → Result (Option String)
sync_token_of null = ok none
sync_token_of (str s) = ok (some s)
sync_token_of _ = err "synctoken must be a string when present"

-- `document.get("prefixes")`
unfoldable pub prefixes_of : Json → Result Items
prefixes_of (arr items) = ok items
prefixes_of _ = err "prefixes must be an array"

module _ (py : Runtime) where
  -- One entry of `parse_jafar`: `none` where the loop continues.
  unfoldable pub jafar_range : Json → Result (Option PublishedRange)
  unfolding services_of
  jafar_range (obj item) = elim (prefix_of item) [
    | ambiguous ↦ ok none
    | only value version ↦ (do
      services ← services_of (get "services" item)
      network ← parse_network py value version
      ok (some (record { network = network; services = services })))
  ]
  jafar_range _ = ok none

  unfoldable pub jafar_ranges : Items → Result (List PublishedRange)
  jafar_ranges nil = ok []
  jafar_ranges (cons item items) = do
    found ← jafar_range item
    rest ← jafar_ranges items
    ok (elim found [ none ↦ rest | some r ↦ r ∷ rest ])

  -- `parse_jafar`
  unfoldable pub parse_jafar : List ℕ → Result PublishedRangeSet
  parse_jafar payload = do
    document ← coerce_mapping py payload
    creation_time ← parse_creation_time py (get "creationTime" document) true
    prefixes ← prefixes_of (get "prefixes" document)
    sync_token ← sync_token_of (get "synctoken" document)
    ranges ← jafar_ranges prefixes
    make_range_set (record {
      creation_time = creation_time;
      ranges = ranges;
      source_profile = "jafar-00";
      sync_token = sync_token;
    })

  -- One entry of `parse_prefixes_v1`.
  unfoldable pub prefixes_v1_range : Json → Result PublishedRange
  prefixes_v1_range (obj item) = elim (prefix_of item) [
    | ambiguous ↦ err "prefix object must contain exactly one IP prefix field"
    | only value version ↦ (do
      network ← parse_network py value version
      ok (record { network = network; services = [] }))
  ]
  prefixes_v1_range _ = err "each prefix entry must be an object"

  unfoldable pub prefixes_v1_ranges : Items → Result (List PublishedRange)
  prefixes_v1_ranges nil = ok []
  prefixes_v1_ranges (cons item items) = do
    first ← prefixes_v1_range item
    rest ← prefixes_v1_ranges items
    ok (first ∷ rest)

  -- `parse_prefixes_v1`
  unfoldable pub parse_prefixes_v1 : List ℕ → Result PublishedRangeSet
  parse_prefixes_v1 payload = do
    document ← coerce_mapping py payload
    creation_time ← parse_creation_time py (get "creationTime" document) false
    prefixes ← prefixes_of (get "prefixes" document)
    ranges ← prefixes_v1_ranges prefixes
    make_range_set (record {
      creation_time = creation_time;
      ranges = ranges;
      source_profile = "prefixes-v1";
      sync_token = none;
    })
