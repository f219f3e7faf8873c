-- ===== src/Crypto/Keys/Documents.antt =====
-- The documents that carry keys: identity/crypto/directory.py and jwk_set.py, read from bytes or from a
-- JSON value. `none` is a `DirectoryFormatError` or a `JwkSetFormatError`.
pub mod Soundness
use agent_traffic_intelligen.Prelude.{
  ℕ, String, Option, none, some, List, [], ◌∷◌, Bool, true, false, ◌||◌, not, ◌==◌, opt_eq, or_else,
  any, map, if◌then◌else◌,
}
use agent_traffic_intelligen.Prelude.Int.{ℤ, leb_ℤ}
use agent_traffic_intelligen.Prelude.Options.{◌>>=◌}
use agent_traffic_intelligen.Json.{
  Json, Items, Fields, null, int, str, arr, obj, nil, cons, end, field, find, get,
}
use agent_traffic_intelligen.Runtime.{Runtime}
use agent_traffic_intelligen.Crypto.Keys.{DirectoryKey, JwkSetKey, is_text}

-- The members of a thumbprint for the key type: `none` where it is not supported.
unfoldable pub member_names : Json → Option (List String)
member_names kty =
    if is_text kty "OKP"
    then some ("crv" ∷ "kty" ∷ "x" ∷ [])
    else if is_text kty "EC"
    then some ("crv" ∷ "kty" ∷ "x" ∷ "y" ∷ [])
    else if is_text kty "RSA"
    then some ("e" ∷ "kty" ∷ "n" ∷ [])
    else none

-- A text that is not empty.
unfoldable pub nonempty_text : Json → Option String
nonempty_text (str s) = if s == "" then none else some s
nonempty_text _ = none

-- The loop over `names`
unfoldable pub members_of : List String → Fields → Option Fields
members_of [] jwk = some end
members_of (name ∷ names) jwk = do
  value ← nonempty_text (get name jwk)
  rest ← members_of names jwk
  some (field name (str value) rest)

-- `_thumbprint_members`
unfoldable pub thumbprint_members : Fields → Option Fields
thumbprint_members jwk = member_names (get "kty" jwk) >>= λ names. members_of names jwk

-- `_optional_int`
unfoldable pub optional_int : Json → Option (Option ℤ)
optional_int null = some none
optional_int (int n) = some (some n)
optional_int _ = none

-- `_optional_string`, and the checks of `alg` and `use` of a directory key
unfoldable pub optional_string : Json → Option (Option String)
optional_string null = some none
optional_string (str s) = some (some s)
optional_string _ = none

-- The check of `kid` of a directory key, which may not be empty.
unfoldable pub optional_kid : Json → Option (Option String)
optional_kid null = some none
optional_kid (str s) = if s == "" then none else some (some s)
optional_kid _ = none

-- `name in mapping`
unfoldable pub has_field : Option Json → Bool
has_field none = false
has_field (some _) = true

-- `expires is not None and not_before is not None and expires <= not_before`
unfoldable pub is_empty_interval : Option ℤ → Option ℤ → Bool
is_empty_interval (some not_before) (some expires) = leb_ℤ expires not_before
is_empty_interval _ _ = false

-- `DirectoryKey.__post_init__`
unfoldable pub make_directory_key : DirectoryKey → Option DirectoryKey
make_directory_key key =
    if not (opt_eq key.key_use none || opt_eq key.key_use (some "sig"))
    then none
    else if is_empty_interval key.not_before key.expires
    then none
    else some key

-- `JwkSetKey.__post_init__`
unfoldable pub make_set_key : JwkSetKey → Option JwkSetKey
make_set_key key = if is_empty_interval key.not_before key.expires then none else some key

-- `len(values) != len(set(values))`
unfoldable pub has_duplicates : List String → Bool
has_duplicates [] = false
has_duplicates (x ∷ xs) = any (λ y. y == x) xs || has_duplicates xs

-- `_b64url_sha256` of the members as canonical JSON
module _ (member_digest : Fields → String) where
  -- `jwk_thumbprint`
  unfoldable pub jwk_thumbprint : Fields → Option String
  jwk_thumbprint jwk = thumbprint_members jwk >>= λ members. some (member_digest members)

  -- `_parse_key` of directory.py
  unfoldable pub parse_directory_key : Fields → Option DirectoryKey
  parse_directory_key raw = do
    thumbprint ← (if has_field (find "d" raw) then none else jwk_thumbprint raw)
    kid ← optional_kid (get "kid" raw)
    alg ← optional_string (get "alg" raw)
    key_use ← optional_string (get "use" raw)
    kty ← nonempty_text (get "kty" raw)
    not_before ← optional_int (get "nbf" raw)
    expires ← optional_int (get "exp" raw)
    make_directory_key (record {
      key_id = or_else kid thumbprint;
      kty = kty;
      alg = alg;
      key_use = key_use;
      not_before = not_before;
      expires = expires;
      jwk = raw;
    })

  -- `tuple(_parse_key(item) for item in raw_keys)` of directory.py
  unfoldable pub parse_directory_keys : Items → Option (List DirectoryKey)
  parse_directory_keys nil = some []
  parse_directory_keys (cons (obj raw) rest) = do
    key ← parse_directory_key raw
    keys ← parse_directory_keys rest
    some (key ∷ keys)
  parse_directory_keys (cons _ rest) = none

  -- `[key.thumbprint for key in keys]` of directory.py
  unfoldable pub thumbprints_of : List DirectoryKey → Option (List String)
  thumbprints_of [] = some []
  thumbprints_of (key ∷ keys) = do
    thumbprint ← jwk_thumbprint key.jwk
    rest ← thumbprints_of keys
    some (thumbprint ∷ rest)

  -- The keys of a directory, without duplicates.
  unfoldable pub directory_of : Json → Option (List DirectoryKey)
  directory_of (arr raw_keys) = do
    keys ← parse_directory_keys raw_keys
    distinct ← (if has_duplicates (map (λ k. k.key_id) keys) then none else some keys)
    thumbprints ← thumbprints_of keys
    if has_duplicates thumbprints then none else some keys
  directory_of _ = none

  -- `_parse_key` of jwk_set.py
  unfoldable pub parse_set_key : Fields → Option JwkSetKey
  parse_set_key raw = do
    thumbprint ← (if has_field (find "d" raw) then none else jwk_thumbprint raw)
    kty ← nonempty_text (get "kty" raw)
    kid ← optional_string (get "kid" raw)
    alg ← optional_string (get "alg" raw)
    key_use ← optional_string (get "use" raw)
    not_before ← optional_int (get "nbf" raw)
    expires ← optional_int (get "exp" raw)
    make_set_key (record {
      kid = kid;
      thumbprint = thumbprint;
      kty = kty;
      alg = alg;
      key_use = key_use;
      not_before = not_before;
      expires = expires;
      jwk = raw;
    })

  -- `tuple(_parse_key(item) for item in raw_keys)` of jwk_set.py
  unfoldable pub parse_set_keys : Items → Option (List JwkSetKey)
  parse_set_keys nil = some []
  parse_set_keys (cons (obj raw) rest) = do
    key ← parse_set_key raw
    keys ← parse_set_keys rest
    some (key ∷ keys)
  parse_set_keys (cons _ rest) = none

  -- The keys of a set, without duplicates.
  unfoldable pub set_of : Json → Option (List JwkSetKey)
  set_of (arr raw_keys) = do
    keys ← parse_set_keys raw_keys
    if has_duplicates (map (λ k. k.thumbprint) keys) then none else some keys
  set_of _ = none

  -- `parse_jwk_set` of a decoded value
  unfoldable pub jwk_set_of : Json → Option (List JwkSetKey)
  jwk_set_of (obj decoded) = set_of (get "keys" decoded)
  jwk_set_of _ = none

  -- `parse_key_directory` of a decoded value
  unfoldable pub key_directory_of : Json → Option (List DirectoryKey)
  key_directory_of (obj decoded) = directory_of (get "keys" decoded)
  key_directory_of _ = none

  -- `parse_jwk_set` of bytes
  unfoldable pub parse_jwk_set : Runtime → List ℕ → Option (List JwkSetKey)
  parse_jwk_set py content = py.load_json content >>= jwk_set_of

  -- `parse_key_directory` of bytes
  unfoldable pub parse_key_directory : Runtime → List ℕ → Option (List DirectoryKey)
  parse_key_directory py content = py.load_json content >>= key_directory_of
