-- ===== src/Crypto/Checks.antt =====
-- The data of identity/crypto/web_bot_auth.py, its early returns, and how it reads the parameters of a
-- signature.
use agent_traffic_intelligen.Prelude.{
  String, Option, none, some, List, [], ◌∷◌, Bool, true, false, ◌==◌, ◌⁀◌, ◌≡◌, refl, if◌then◌else◌,
}
use agent_traffic_intelligen.Prelude.Int.{ℤ}
use agent_traffic_intelligen.Identity.Evidence.{
  VerificationOutcome, mismatch, BindingScope, Detail, flag,
}
use agent_traffic_intelligen.Identity.Context.{VerificationContext}
use agent_traffic_intelligen.Crypto.Keys.{KeyMaterial}
use agent_traffic_intelligen.Crypto.SignatureAgent.{ParsedAgents}

-- A signature parameter (`Scalar`): an integer, a text, or a value of another type.
pub data Scalar : Type 0 where
  integer : ℤ → Scalar
  string : String → Scalar
  other : Scalar

-- `Rfc9421Result`, with the keys of its map of covered components.
pub record Rfc9421Result : Type 0 where
  pub outcome : VerificationOutcome
  pub explanation : String
  pub label : Option String
  pub algorithm_id : Option String
  pub covered_components : List String
  pub covered_component_names : List String
  pub parameters : List (String × Scalar)
  pub nonce : Option String

-- The time of verification: whether it is timezone-aware, and `int(now.timestamp())`.
pub record Now : Type 0 where
  pub is_aware : Bool
  pub timestamp : ℤ

-- The members of `WebBotAuthVerifier` that its constructor sets, but for its collaborators.
pub record Policy : Type 0 where
  pub material : KeyMaterial
  pub key_source_uri : String
  pub signature_agent_uri : String
  pub binding_scope : BindingScope
  pub subject : Option String
  pub max_validity_seconds : ℤ
  pub clock_skew_seconds : ℤ

-- The collaborators: `RfcVerifier.verify` at an algorithm, `SignatureAgentParser.parse`,
-- `SourceTrustPolicy.allows`, `canonicalize_source_uri` (`none` is its `ValueError`) and
-- `str.casefold`.
pub record Collaborators : Type 0 where
  pub rfc_verify : VerificationContext → Now → String → Rfc9421Result
  pub parse_agents : String → ParsedAgents
  pub allows : String → Bool
  pub canonicalize : String → Option String
  pub casefold : String → String

-- What the checks go on with, or the outcome, explanation and details of an early return.
pub data Check {ℓ} (A : Type ℓ) : Type ℓ where
  go : A → Check A
  stop : VerificationOutcome → String → List (String × Detail) → Check A

infixl 5 ◌>>=◌
abbrev pub ◌>>=◌ {ℓ κ} : {A : Type ℓ} {B : Type κ} → Check A → (A → Check B) → Check B
go a >>= f = f a
stop outcome explanation details >>= f = stop outcome explanation details

-- The parts of a chain of checks that went through.
pub bind_go {ℓ κ} :
    {A : Type ℓ} {B : Type κ} (m : Check A) (f : A → Check B) (b : B)
    → (m >>= f) ≡ go b
    → (a : A) × (m ≡ go a) × (f a ≡ go b)
bind_go (go a) f b h = (a, refl, h)
bind_go (stop outcome explanation details) f b h = cc

-- The details of every report after the key source was trusted.
abbrev pub trusted_details : List (String × Detail)
trusted_details = ("directory_trusted", flag true) ∷ ("key_source_trusted", flag true) ∷ []

abbrev pub stop_mismatch {ℓ} : {A : Type ℓ} → String → Check A
stop_mismatch explanation = stop mismatch explanation trusted_details

-- An early return unless the test holds.
unfoldable pub require : Bool → String → Check {0} Unit
require true explanation = go tt
require false explanation = stop_mismatch explanation

-- `params.get(name)`
unfoldable pub parameter : String → List (String × Scalar) → Option Scalar
parameter name [] = none
parameter name ((n, value) ∷ rest) = if n == name then some value else parameter name rest

-- `_integer_parameter`
unfoldable pub integer_parameter : Option Scalar → String → Check (Option ℤ)
integer_parameter none name = go none
integer_parameter (some (integer i)) name = go (some i)
integer_parameter (some _) name =
    stop_mismatch ("verified signature parameter " ⁀ (name ⁀ " must be an integer"))

-- The key id, if it is a text that is not empty.
unfoldable pub usable_keyid : Option Scalar → Check String
usable_keyid (some (string s)) =
    if s == "" then stop_mismatch "verified signature is missing a usable keyid" else go s
usable_keyid _ = stop_mismatch "verified signature is missing a usable keyid"

-- `params.get("tag") == "web-bot-auth"`
abbrev pub has_tag : Option Scalar → Bool
has_tag (some (string s)) = s == "web-bot-auth"
has_tag _ = false

-- The two times of a signature, if both are there.
unfoldable pub both_times : Option ℤ → Option ℤ → Check (ℤ × ℤ)
both_times (some created) (some expires) = go (created, expires)
both_times _ _ = stop_mismatch "Web Bot Auth requires created and expires"
