-- ===== src/Crypto/Keys.antt =====
-- The public keys of identity/crypto/directory.py and jwk_set.py, and how a key id selects one.
pub mod Selection
pub mod Documents
use agent_traffic_intelligen.Prelude.{
  ℕ, String, Option, none, some, List, [], ◌∷◌, ◌++◌, Bool, true, false, ◌&&◌, ◌||◌, not, ◌==◌,
  opt_eq, keep, any, map, if◌then◌else◌,
}
use agent_traffic_intelligen.Prelude.Int.{ℤ, ltb_ℤ}
use agent_traffic_intelligen.Json.{Json, Fields, str, get}

-- `DirectoryKey`
pub record DirectoryKey : Type 0 where
  pub key_id : String
  pub kty : String
  pub alg : Option String
  -- `use`
  pub key_use : Option String
  pub not_before : Option ℤ
  pub expires : Option ℤ
  pub jwk : Fields

-- `JwkSetKey`
pub record JwkSetKey : Type 0 where
  pub kid : Option String
  pub thumbprint : String
  pub kty : String
  pub alg : Option String
  -- `use`
  pub key_use : Option String
  pub not_before : Option ℤ
  pub expires : Option ℤ
  pub jwk : Fields

-- `VerificationKey = DirectoryKey | JwkSetKey`
pub data VerificationKey : Type 0 where
  of_directory : DirectoryKey → VerificationKey
  of_set : JwkSetKey → VerificationKey

abbrev pub kty_of : VerificationKey → String
kty_of (of_directory k) = k.kty
kty_of (of_set k) = k.kty

abbrev pub alg_of : VerificationKey → Option String
alg_of (of_directory k) = k.alg
alg_of (of_set k) = k.alg

abbrev pub jwk_of : VerificationKey → Fields
jwk_of (of_directory k) = k.jwk
jwk_of (of_set k) = k.jwk

abbrev pub not_before_of : VerificationKey → Option ℤ
not_before_of (of_directory k) = k.not_before
not_before_of (of_set k) = k.not_before

abbrev pub expires_of : VerificationKey → Option ℤ
expires_of (of_directory k) = k.expires
expires_of (of_set k) = k.expires

-- `WebBotAuthVerifier._key_thumbprint`
unfoldable pub key_thumbprint : VerificationKey → String
key_thumbprint (of_directory k) = k.key_id
key_thumbprint (of_set k) = k.thumbprint

-- `not_before is not None and timestamp < not_before`
abbrev pub not_yet : Option ℤ → ℤ → Bool
not_yet none timestamp = false
not_yet (some t) timestamp = ltb_ℤ timestamp t

-- `expires is None or timestamp < expires`
abbrev pub not_expired : Option ℤ → ℤ → Bool
not_expired none timestamp = true
not_expired (some t) timestamp = ltb_ℤ timestamp t

-- `DirectoryKey.active_at` and `WebBotAuthVerifier._key_active_at`, at a time in whole seconds.
unfoldable pub key_active_at : VerificationKey → ℤ → Bool
key_active_at key timestamp =
    if not_yet (not_before_of key) timestamp then false else not_expired (expires_of key) timestamp

-- The one member of a list that has just one: `none` is an error.
unfoldable pub only_one {ℓ} : {A : Type ℓ} → List A → Option A
only_one (x ∷ []) = some x
only_one _ = none

-- `KeyDirectory.by_id`: `none` is its `KeyError`.
unfoldable pub by_id : List DirectoryKey → String → Option DirectoryKey
by_id keys key_id = only_one (keep (λ k. k.key_id == key_id) keys)

-- `select_jwk_set_key`: `none` is its `JwkSetKeySelectionError`.
unfoldable pub select_jwk_set_key : List JwkSetKey → String → Option JwkSetKey
select_jwk_set_key keys key_id =
    if key_id == ""
    then none
    else elim (keep (λ (k : JwkSetKey). opt_eq k.kid (some key_id)) keys) [
      | [] ↦ only_one (keep (λ (k : JwkSetKey). k.thumbprint == key_id) keys)
      | k ∷ ks ↦ only_one (k ∷ ks)
    ]

-- Where the keys of a verifier come from.
pub data KeyMaterial : Type 0 where
  directory : List DirectoryKey → KeyMaterial
  jwk_set : List JwkSetKey → KeyMaterial

abbrev pub keys_of : KeyMaterial → List VerificationKey
keys_of (directory ks) = map of_directory ks
keys_of (jwk_set ks) = map of_set ks

-- `WebBotAuthVerifier._select_key`
unfoldable pub select_key : KeyMaterial → String → Option VerificationKey
select_key (directory ks) key_id = elim (by_id ks key_id) [
  | none ↦ none
  | some k ↦ some (of_directory k)
]
select_key (jwk_set ks) key_id = elim (select_jwk_set_key ks key_id) [
  | none ↦ none
  | some k ↦ some (of_set k)
]

-- `value == text` for a JSON value and a text.
abbrev pub is_text : Json → String → Bool
is_text (str s) t = s == t
is_text _ t = false

-- `WebBotAuthVerifier._algorithm_matches_key`
unfoldable pub algorithm_matches_key : Option String → Option String → String → Json → Bool
algorithm_matches_key none key_alg kty crv = false
algorithm_matches_key (some algorithm) key_alg kty crv =
    if algorithm == "ed25519"
    then kty == "OKP"
      && is_text crv "Ed25519"
      && (opt_eq key_alg none || opt_eq key_alg (some "EdDSA") || opt_eq key_alg (some "ed25519"))
    else if algorithm == "ecdsa-p256-sha256"
    then kty == "EC"
      && is_text crv "P-256"
      && (opt_eq key_alg none
          || opt_eq key_alg (some "ES256")
          || opt_eq key_alg (some "ecdsa-p256-sha256"))
    else if algorithm == "rsa-pss-sha512"
    then kty == "RSA"
      && (opt_eq key_alg none
          || opt_eq key_alg (some "PS512")
          || opt_eq key_alg (some "rsa-pss-sha512"))
    else if algorithm == "rsa-v1_5-sha256"
    then kty == "RSA"
      && (opt_eq key_alg none
          || opt_eq key_alg (some "RS256")
          || opt_eq key_alg (some "rsa-v1_5-sha256"))
    else false

-- The algorithms that one key may have signed with.
unfoldable pub algorithms_of_key : VerificationKey → List String
algorithms_of_key key =
    let crv = get "crv" (jwk_of key) in
    if kty_of key == "OKP" && is_text crv "Ed25519"
    then "ed25519" ∷ []
    else if kty_of key == "EC" && is_text crv "P-256"
    then "ecdsa-p256-sha256" ∷ []
    else if kty_of key == "RSA"
    then "rsa-pss-sha512" ∷ "rsa-v1_5-sha256" ∷ []
    else []

-- The loop that appends each algorithm that is not listed yet.
unfoldable pub add_new : List String → List String → List String
add_new algorithms [] = algorithms
add_new algorithms (a ∷ rest) =
    add_new (if any (λ b. b == a) algorithms then algorithms else algorithms ++ a ∷ []) rest

unfoldable pub candidates_from : List String → List VerificationKey → List String
candidates_from algorithms [] = algorithms
candidates_from algorithms (key ∷ keys) =
    candidates_from (add_new algorithms (algorithms_of_key key)) keys

-- `WebBotAuthVerifier._candidate_algorithms`
unfoldable pub candidate_algorithms : KeyMaterial → List String
candidate_algorithms material = candidates_from [] (keys_of material)
