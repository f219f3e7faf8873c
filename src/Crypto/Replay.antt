-- ===== src/Crypto/Replay.antt =====
-- identity/crypto/replay.py: the nonces of signed requests, in a bounded process-local cache.
pub mod Laws
pub mod Detection
pub mod Sequences
use agent_traffic_intelligen.Prelude.{
  ℕ, String, Option, none, some, List, [], ◌∷◌, ◌++◌, Bool, true, false, ◌&&◌, not, ◌==◌, length,
  ltb, keep, if◌then◌else◌,
}
use agent_traffic_intelligen.Prelude.Int.{ℤ, leb_ℤ, ltb_ℤ}

-- The key of an entry: the pair of key id and nonce.
abbrev pub Token : Type 0
Token = String × String

abbrev pub token_eq : Token → Token → Bool
token_eq (a, b) (c, d) = a == c && b == d

-- `OrderedDict[tuple[str, str], int]`, the oldest entry first.
abbrev pub Entries : Type 0
Entries = List (Token × ℤ)

-- `ReplayCache`
pub record ReplayCache : Type 0 where
  pub max_entries : ℕ
  pub entries : Entries

-- `ReplayCache.__post_init__` on a non-negative bound: `none` is its `ValueError`.
unfoldable pub make_cache : ℕ → Option ReplayCache
make_cache max_entries =
    if ltb max_entries 1 then none else some (record { max_entries = max_entries; entries = [] })

-- `entries.get(token)`
unfoldable pub get : Token → Entries → Option ℤ
get token [] = none
get token ((t, expires) ∷ entries) = if token_eq t token then some expires else get token entries

-- `entries[token] = expires`: an old entry is overwritten in its place.
unfoldable pub put : Token → ℤ → Entries → Entries
put token expires [] = (token, expires) ∷ []
put token expires ((t, e) ∷ entries) =
    if token_eq t token then (t, expires) ∷ entries else (t, e) ∷ put token expires entries

-- The entries without that of a token.
unfoldable pub without : Token → Entries → Entries
without token [] = []
without token ((t, e) ∷ entries) =
    if token_eq t token then entries else (t, e) ∷ without token entries

-- `entries.move_to_end(token)`, for a token that is there.
unfoldable pub move_to_end : Token → Entries → Entries
move_to_end token entries = elim (get token entries) [
  | none ↦ entries
  | some expires ↦ without token entries ++ (token, expires) ∷ []
]

-- `_purge`: the tokens of a dict are distinct, so removing each expired token is a filter.
unfoldable pub purge : ℤ → Entries → Entries
purge now = keep (λ entry. not (leb_ℤ entry.1 now))

-- `while len(entries) > max_entries: entries.popitem(last=False)`
unfoldable pub trim : ℕ → Entries → Entries
trim max_entries [] = []
trim max_entries (entry ∷ entries) =
    let rest = trim max_entries entries in
    if ltb max_entries (length (entry ∷ entries)) then rest else entry ∷ entries

-- The rest of `seen_or_add`, after the purge.
unfoldable pub seen_or_add_entries : ℕ → Token → ℤ → ℤ → Entries → Bool × Entries
seen_or_add_entries max_entries token expires now entries =
    let added = trim max_entries (move_to_end token (put token expires entries)) in
    elim (get token entries) [
      | none ↦ (false, added)
      | some previous_expiry ↦
          if ltb_ℤ now previous_expiry then (true, move_to_end token entries) else (false, added)
    ]

-- `ReplayCache.seen_or_add(key_id, nonce, expires=expires, now=now)`
unfoldable pub seen_or_add : ReplayCache → Token → ℤ → ℤ → Bool × ReplayCache
unfolding seen_or_add_entries
seen_or_add cache token expires now =
    let (seen, entries) =
      seen_or_add_entries cache.max_entries token expires now (purge now cache.entries) in
    (seen, record cache { entries = entries })
