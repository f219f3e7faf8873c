-- ===== src/Crypto/SignatureAgent.antt =====
-- identity/crypto/signature_agent.py and the identity a signature is attributed to
-- (`_bound_signature_agent` of identity/crypto/web_bot_auth.py).
pub mod Binding
use agent_traffic_intelligen.Prelude.{
  String, Option, none, some, List, [], ◌∷◌, Bool, ◌==◌, opt_eq, keep, any, map, if◌then◌else◌,
}
use agent_traffic_intelligen.Crypto.Components.{bare_name, key_param}

-- `SignatureAgentDiscoveryType`
pub data SignatureAgentDiscoveryType : Type 0 where
  directory jwks_uri cimd : SignatureAgentDiscoveryType

-- `SignatureAgentReference`
pub record SignatureAgentReference : Type 0 where
  pub label : Option String
  pub uri : String
  pub discovery_type : SignatureAgentDiscoveryType
  pub legacy : Bool

-- What `SignatureAgentParser.parse` answers: the members, or one of its two errors.
pub data ParsedAgents : Type 0 where
  parsed : List SignatureAgentReference → ParsedAgents
  unsupported : ParsedAgents
  malformed : String → ParsedAgents

-- Membership in a set of optional key parameters.
abbrev pub has_key : Option String → List (Option String) → Bool
has_key label = any (λ k. opt_eq k label)

-- `covered[0] if len(covered) == 1 else None`
unfoldable pub sole_member : List SignatureAgentReference → Option SignatureAgentReference
sole_member (r ∷ []) = some r
sole_member _ = none

-- The member whose key is covered, of an own or a legacy member.
abbrev pub if_covered : Bool → SignatureAgentReference → Option SignatureAgentReference
if_covered covered r = if covered then some r else none

-- The choice of `_bound_signature_agent`, from the covered keys and the label of the signature.
unfoldable pub choose_member :
    List (Option String)
    → Option String
    → List SignatureAgentReference
    → Option SignatureAgentReference
choose_member signed_keys label references =
    elim (keep (λ (r : SignatureAgentReference). r.legacy) references) [
      | r ∷ _ ↦ if_covered (has_key none signed_keys) r
      | [] ↦ elim (keep (λ (r : SignatureAgentReference). opt_eq r.label label) references) [
        | r ∷ _ ↦ if_covered (has_key label signed_keys) r
        | [] ↦
            sole_member
              (keep (λ (r : SignatureAgentReference). has_key r.label signed_keys) references)
      ]
    ]

module _ (casefold : String → String) where
  -- The key parameters of the covered components that name the header Signature-Agent.
  unfoldable pub signed_keys_of : List String → List (Option String)
  signed_keys_of components =
      map key_param (keep (λ c. casefold (bare_name c) == "signature-agent") components)

  -- `WebBotAuthVerifier._bound_signature_agent`
  unfoldable pub bound_signature_agent :
      List String → Option String → List SignatureAgentReference → Option SignatureAgentReference
  bound_signature_agent components label references =
      choose_member (signed_keys_of components) label references
