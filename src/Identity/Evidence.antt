-- ===== src/Identity/Evidence.antt =====
-- identity/models.py: what one verification mechanism reports, and the resolution of a claim.
use agent_traffic_intelligen.Prelude.{
  ℕ, String, Option, none, some, List, Bool, true, false, ◌&&◌, not, if◌then◌else◌,
}
use agent_traffic_intelligen.Runtime.{Moment}
use agent_traffic_intelligen.Domain.{VerificationState}

-- `VerificationMethod`
pub data VerificationMethod : Type 0 where
  official_range fcrdns rfc9421 web_bot_auth : VerificationMethod

-- `VerificationMethod.value`
abbrev pub method_value : VerificationMethod → String
method_value official_range = "official_range"
method_value fcrdns = "fcrdns"
method_value rfc9421 = "rfc9421"
method_value web_bot_auth = "web_bot_auth"

-- `VerificationOutcome`
pub data VerificationOutcome : Type 0 where
  pass mismatch unavailable indeterminate stale error : VerificationOutcome

-- `VerificationOutcome.value`
abbrev pub outcome_value : VerificationOutcome → String
outcome_value pass = "pass"
outcome_value mismatch = "mismatch"
outcome_value unavailable = "unavailable"
outcome_value indeterminate = "indeterminate"
outcome_value stale = "stale"
outcome_value error = "error"

-- `outcome is VerificationOutcome.PASS`
abbrev pub is_pass : VerificationOutcome → Bool
is_pass pass = true
is_pass _ = false

-- `outcome is VerificationOutcome.MISMATCH`
abbrev pub is_mismatch : VerificationOutcome → Bool
is_mismatch mismatch = true
is_mismatch _ = false

-- `BindingScope`
pub data BindingScope : Type 0 where
  key provider agent : BindingScope

-- `BindingScope.value`
abbrev pub scope_value : BindingScope → String
scope_value key = "key"
scope_value provider = "provider"
scope_value agent = "agent"

-- `scope in {BindingScope.PROVIDER, BindingScope.AGENT}`
abbrev pub is_strong : BindingScope → Bool
is_strong key = false
is_strong _ = true

-- `scope is BindingScope.AGENT`
abbrev pub is_agent : BindingScope → Bool
is_agent agent = true
is_agent _ = false

-- `scope is BindingScope.PROVIDER`
abbrev pub is_provider : BindingScope → Bool
is_provider provider = true
is_provider _ = false

-- A value of `VerificationEvidence.details`; no verifier reports a floating-point number.
pub data Detail : Type 0 where
  flag : Bool → Detail
  number : ℕ → Detail
  text : String → Detail
  null : Detail

-- `VerificationEvidence`. The checks of its constructor (an explanation, timezone-aware times, a hexadecimal
-- digest) are not part of it.
pub record VerificationEvidence : Type 0 where
  pub method : VerificationMethod
  pub outcome : VerificationOutcome
  pub binding_scope : BindingScope
  pub authority : Option String
  pub subject : Option String
  pub explanation : String
  pub source_uri : Option String
  pub source_profile : Option String
  pub retrieved_at : Option Moment
  pub expires_at : Option Moment
  pub source_sha256 : Option String
  pub details : List (String × Detail)

-- `VerificationResolution`, without its constant schema version.
pub record VerificationResolution : Type 0 where
  pub state : VerificationState
  pub provider_verified : Bool
  pub agent_verified : Bool
  pub provider : Option String
  pub agent : Option String
  pub methods : List VerificationEvidence
  pub conflicts : List String

-- `VerificationResolution.__post_init__`: `none` is its `ValueError`.
unfoldable pub make_resolution : VerificationResolution → Option VerificationResolution
make_resolution r = if r.agent_verified && not r.provider_verified then none else some r
