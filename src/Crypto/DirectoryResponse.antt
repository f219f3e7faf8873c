-- ===== src/Crypto/DirectoryResponse.antt =====
-- identity/crypto/directory_response.py: which keys of a directory its response binds to the authority
-- that was asked. The check of the digest header and of one signature are parameters.
pub mod Bindings
use Prim.Native.Char.{code}
use agent_traffic_intelligen.Prelude.{
  ℕ, String, Option, none, some, List, [], ◌∷◌, Bool, true, false, ◌&&◌, ◌||◌, not, ◌==◌, opt_eq,
  or_else, any, nat_eq, if◌then◌else◌,
}
use agent_traffic_intelligen.Prelude.Int.{ℤ}
use agent_traffic_intelligen.Prelude.Options.{◌>>=◌}
use agent_traffic_intelligen.Json.{Fields, get}
use agent_traffic_intelligen.Runtime.{Moment, Runtime}
use agent_traffic_intelligen.Sources.Documents.{KeyAuthorityBinding, make_binding}
use agent_traffic_intelligen.Crypto.Keys.{DirectoryKey, is_text}
use agent_traffic_intelligen.Crypto.Keys.Documents.{jwk_thumbprint}
use agent_traffic_intelligen.Crypto.Components.{strip_prefix}
use agent_traffic_intelligen.Crypto.Checks.{Scalar, integer, Rfc9421Result, parameter}
use agent_traffic_intelligen.Identity.Evidence.{is_pass}

-- The arguments of `verify` but for the directory and the time.
pub record DirectoryResponse : Type 0 where
  pub body : List ℕ
  pub request_uri : String
  pub response_uri : String
  pub status_code : ℕ
  pub signature : Option String
  pub signature_input : Option String
  pub content_digest : Option String

-- The functions that `verify` calls.
pub record ResponseChecks : Type 0 where
  -- `validate_content_digest`: whether it raises nothing
  pub is_content_digest : String → List ℕ → Bool
  -- `urlsplit(uri).netloc`
  pub netloc : String → String
  -- `Rfc9421ResponseVerifier.verify` of the response, for an algorithm and a key id
  pub verify_response : DirectoryResponse → String → String → Rfc9421Result
  -- `datetime.fromtimestamp(seconds, tz=UTC)`: `none` for an exception
  pub fromtimestamp : ℤ → Option Moment
  -- `_b64url_sha256` of thumbprint members
  pub member_digest : Fields → String

-- `text.replace(" ", "")`
unfoldable pub without_spaces : String → String
without_spaces String.[] = ""
without_spaces (String.◌∷◌ c s) =
    let rest = without_spaces s in if nat_eq (code c) 32 then rest else String.◌∷◌ c rest

abbrev pub starts : Option String → Bool
starts none = false
starts (some _) = true

-- `";req" in text`
unfoldable pub has_req : String → Bool
unfolding strip_prefix
has_req String.[] = false
has_req (String.◌∷◌ c s) = starts (strip_prefix ";req" (String.◌∷◌ c s)) || has_req s

-- `_candidate_algorithms`
unfoldable pub response_algorithms : DirectoryKey → List String
response_algorithms key =
    if key.kty == "OKP" && is_text (get "crv" key.jwk) "Ed25519"
    then "ed25519" ∷ []
    else if key.kty == "EC" && is_text (get "crv" key.jwk) "P-256"
    then "ecdsa-p256-sha256" ∷ []
    else if key.kty == "RSA"
    then (if opt_eq key.alg (some "PS512") || opt_eq key.alg (some "rsa-pss-sha512")
        then "rsa-pss-sha512" ∷ []
        else if opt_eq key.alg (some "RS256") || opt_eq key.alg (some "rsa-v1_5-sha256")
        then "rsa-v1_5-sha256" ∷ []
        else "rsa-pss-sha512" ∷ "rsa-v1_5-sha256" ∷ [])
    else []

-- `integer` of `_expires_at`
unfoldable pub integer_of : Option Scalar → Option ℤ
integer_of (some (integer n)) = some n
integer_of _ = none

-- `not signature or not signature_input or not content_digest`
unfoldable pub is_unsigned : DirectoryResponse → Bool
is_unsigned response =
    or_else response.signature "" == ""
    || (or_else response.signature_input "" == "" || or_else response.content_digest "" == "")

module _ (py : Runtime) (checks : ResponseChecks) where
  -- A component that `_covers_request_authority` looks for.
  unfoldable pub names_request_authority : String → Bool
  names_request_authority component =
      let normalized = without_spaces (py.casefold component) in
      starts (strip_prefix "\"@authority\";" normalized) && has_req normalized

  -- `_covers_request_authority`
  unfoldable pub covers_request_authority : Rfc9421Result → Bool
  covers_request_authority result = any names_request_authority result.covered_components

  -- `_expires_at`: `some none` where there is no whole number.
  unfoldable pub signature_expiry : Option ℤ → Option (Option Moment)
  signature_expiry none = some none
  signature_expiry (some seconds) = checks.fromtimestamp seconds >>= λ t. some (some t)

  -- The report that binds the key: the first algorithm's that passes and covers the authority.
  unfoldable pub binding_report :
      DirectoryResponse → DirectoryKey → List String → Option Rfc9421Result
  binding_report response key [] = none
  binding_report response key (algorithm ∷ rest) =
      let result = checks.verify_response response algorithm key.key_id in
      let others = binding_report response key rest in
      if is_pass result.outcome && covers_request_authority result then some result else others

  -- The binding that a report makes.
  unfoldable pub binding_of :
      DirectoryResponse
      → String
      → Moment
      → DirectoryKey
      → Rfc9421Result
      → Option KeyAuthorityBinding
  binding_of response authority now key result = do
    key_thumbprint ← jwk_thumbprint checks.member_digest key.jwk
    expires_at ← signature_expiry (integer_of (parameter "expires" result.parameters))
    make_binding py (record {
      key_thumbprint = key_thumbprint;
      authority = authority;
      body_sha256 = py.sha256 response.body;
      verified_at = now;
      expires_at = expires_at;
      profile = "draft-ietf-webbotauth-httpsig-protocol-00";
    })

  -- What one key adds to the bindings.
  unfoldable pub bind_key :
      DirectoryResponse
      → String
      → Moment
      → DirectoryKey
      → Option Rfc9421Result
      → List KeyAuthorityBinding
      → Option (List KeyAuthorityBinding)
  bind_key response authority now key none rest = some rest
  bind_key response authority now key (some result) rest =
      binding_of response authority now key result >>= λ b. some (b ∷ rest)

  -- The loop over the keys of the directory.
  unfoldable pub bind_keys :
      DirectoryResponse → String → Moment → List DirectoryKey → Option (List KeyAuthorityBinding)
  bind_keys response authority now [] = some []
  bind_keys response authority now (key ∷ keys) = do
    rest ← bind_keys response authority now keys
    bind_key response authority now key (binding_report response key (response_algorithms key)) rest

  -- `DirectoryResponseVerifier.verify`: `none` for an exception.
  unfoldable pub verify_directory_response :
      List DirectoryKey → DirectoryResponse → Moment → Option (List KeyAuthorityBinding)
  verify_directory_response keys response now =
      if not now.is_aware
      then none
      else if is_unsigned response
      then some []
      else if not (checks.is_content_digest (or_else response.content_digest "") response.body)
      then some []
      else if py.casefold (checks.netloc response.request_uri) == ""
      then none
      else bind_keys response (py.casefold (checks.netloc response.request_uri)) now keys
