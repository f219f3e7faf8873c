-- ===== src/Network/Ranges.antt =====
-- identity/network/ranges.py: published address ranges, and the most specific one that holds an
-- address.
pub mod Matching
use Prim.Native.Char.{code}
use Prim.Native.Nat.{◌^◌}
use Prim.Native.String
use agent_traffic_intelligen.Prelude.{
  ℕ, ◌-◌, ◌/◌, ◌%◌, String, Option, none, some, List, [], ◌∷◌, Bool, true, false, ◌&&◌, not, ◌≡◌,
  refl, ltb, nat_eq, keep, ◌==◌, ◌⁀◌, or_else, if◌then◌else◌,
}
use agent_traffic_intelligen.Json.{Json, Fields, str, obj}
use agent_traffic_intelligen.Runtime.{Address, Network, Moment, Runtime}

-- A value, or the message of a `RangeFormatError`.
pub data Result {ℓ} (A : Type ℓ) : Type ℓ where
  ok : A → Result A
  err : String → Result A

infixl 5 ◌>>=◌
abbrev pub ◌>>=◌ {ℓ κ} : {A : Type ℓ} {B : Type κ} → Result A → (A → Result B) → Result B
ok a >>= f = f a
err e >>= f = err e

-- The parts of a chain that succeeded.
pub bind_ok {ℓ κ} :
    {A : Type ℓ} {B : Type κ} (m : Result A) (f : A → Result B) (b : B)
    → (m >>= f) ≡ ok b
    → (a : A) × (m ≡ ok a) × (f a ≡ ok b)
bind_ok (ok a) f b h = (a, refl, h)
bind_ok (err e) f b h = cc

-- `PublishedRange`
pub record PublishedRange : Type 0 where
  pub network : Network
  pub services : List String

-- `RangeMatch`
pub record RangeMatch : Type 0 where
  pub matched : Bool
  pub prefix_length : Option ℕ
  pub services : List String

-- `PublishedRangeSet`
pub record PublishedRangeSet : Type 0 where
  pub creation_time : Moment
  pub ranges : List PublishedRange
  pub source_profile : String
  pub sync_token : Option String

-- `PublishedRangeSet.__post_init__`
unfoldable pub make_range_set : PublishedRangeSet → Result PublishedRangeSet
make_range_set s =
    if not s.creation_time.is_aware
    then err "creationTime must be timezone-aware"
    else if s.source_profile == ""
    then err "source_profile must not be empty"
    else ok s

-- The bits of an address.
abbrev pub width : ℕ → ℕ
width version = if nat_eq version 4 then 32 else 128

-- `address in network`, for an address of the network's version.
unfoldable pub holds : Network → Address → Bool
holds network address =
    let host = 2 ^ (width network.version - network.prefixlen) in
    nat_eq (address.value / host) (network.base / host)

-- An IPv4-mapped IPv6 address (::ffff:0:0/96) as the IPv4 address that it maps.
unfoldable pub unmapped : Address → Address
unmapped address =
    if nat_eq address.version 6 && nat_eq (address.value / 4294967296) 65535
    then record { version = 4; value = address.value % 4294967296 }
    else address

-- The test of `candidates`.
unfoldable pub is_candidate : Address → PublishedRange → Bool
is_candidate address item =
    nat_eq item.network.version address.version && holds item.network address

-- `max(candidates, key=prefixlen)`: the first of the longest, from a best one so far.
unfoldable pub longest : PublishedRange → List PublishedRange → PublishedRange
longest best [] = best
longest best (item ∷ items) =
    longest (if ltb best.network.prefixlen item.network.prefixlen then item else best) items

abbrev pub no_match : RangeMatch
no_match = record { matched = false; prefix_length = none; services = [] }

unfoldable pub best_match : List PublishedRange → RangeMatch
best_match [] = no_match
best_match (item ∷ items) =
    let winner = longest item items in
    record {
      matched = true;
      prefix_length = some winner.network.prefixlen;
      services = winner.services;
    }

-- A text without its last `Z`, if it ends in one.
unfoldable pub strip_z : String → Option String
strip_z String.[] = none
strip_z (String.◌∷◌ c String.[]) = if nat_eq (code c) b'Z' then some "" else none
strip_z (String.◌∷◌ c (String.◌∷◌ d s)) = elim (strip_z (String.◌∷◌ d s)) [
  | none ↦ none
  | some t ↦ some (String.◌∷◌ c t)
]

module _ (py : Runtime) where
  -- `PublishedRangeSet.match`
  unfoldable pub match : PublishedRangeSet → String → Result RangeMatch
  match published raw_address = elim (py.ip_address raw_address) [
    | none ↦ err "query address must be a valid IPv4 or IPv6 address"
    | some raw ↦ ok (best_match (keep (is_candidate (unmapped raw)) published.ranges))
  ]

  -- `coerce_mapping` on bytes
  unfoldable pub coerce_mapping : List ℕ → Result Fields
  coerce_mapping payload = elim (py.load_json payload) [
    | none ↦ err "range document must be valid UTF-8 JSON"
    | some (obj fields) ↦ ok fields
    | some _ ↦ err "range document must be a JSON object"
  ]

  -- The datetime of a `creationTime` text that has passed the first two tests.
  unfoldable pub creation_moment : Bool → String → Result Moment
  creation_moment require_z normalized = elim (py.fromisoformat normalized) [
    | none ↦ err "creationTime must be valid ISO-8601"
    | some parsed ↦
        if parsed.is_aware
        then ok parsed
        else if require_z
        then err "creationTime must be timezone-aware"
        else ok (record parsed { is_aware = true })
  ]

  -- `parse_creation_time`
  unfoldable pub parse_creation_time : Json → Bool → Result Moment
  parse_creation_time (str value) require_z =
      if value == ""
      then err "creationTime must be a non-empty ISO-8601 string"
      else elim (strip_z value) [
        | some stripped ↦ creation_moment require_z (stripped ⁀ "+00:00")
        | none ↦
            if require_z
            then err "creationTime must use the Z timezone (UTC)"
            else creation_moment require_z value
      ]
  parse_creation_time _ require_z = err "creationTime must be a non-empty ISO-8601 string"

  abbrev version_text : ℕ → String
  version_text version = if nat_eq version 4 then "4" else "6"

  -- `parse_network`, for version 4 or 6
  unfoldable pub parse_network : Json → ℕ → Result Network
  parse_network (str value) version =
      if value == ""
      then err "prefix must be a non-empty CIDR string"
      else elim (py.ip_network value) [
        | none ↦ err ("invalid CIDR prefix: " ⁀ value)
        | some network ↦
            if nat_eq network.version version
            then ok network
            else err ("prefix does not match declared IPv" ⁀ (version_text version ⁀ " field"))
      ]
  parse_network _ version = err "prefix must be a non-empty CIDR string"
