-- ===== src/Tests/Keys.antt =====
-- The keys of a verifier and the members of a Signature-Agent header on concrete inputs.
use agent_traffic_intelligen.Prelude.{
  keep, String, some, List, [], ◌∷◌, true, false, ◌≡◌, refl, any, Exists, inl, ◌==◌,
}
use agent_traffic_intelligen.Crypto.Keys.{
  algorithm_matches_key, of_set, jwk_set, candidate_algorithms,
}
use agent_traffic_intelligen.Crypto.Keys.Selection.{candidate_algorithms_complete}
use agent_traffic_intelligen.Crypto.SignatureAgent.{
  bound_signature_agent, sole_member, choose_member, SignatureAgentReference,
  SignatureAgentDiscoveryType, signed_keys_of,
}
use agent_traffic_intelligen.Crypto.SignatureAgent.Binding.{
  IsChosen, bound_signature_agent-IsChosen,
}
use agent_traffic_intelligen.Tests.Samples.{unfolded}
use agent_traffic_intelligen.Tests.Nonces.{signing_key}
use agent_traffic_intelligen.Crypto.Components.{
  until_quote, strip_right_quotes, strip_prefix, strip_left_quotes, key_param_here, key_param,
  before_semicolon, bare_name,
}

candidate_algorithms_complete_example :
    any (λ a. a == "ed25519") (candidate_algorithms (jwk_set (signing_key ∷ []))) ≡ true
unfolding algorithm_matches_key agent_traffic_intelligen.Json.get
candidate_algorithms_complete_example =
    candidate_algorithms_complete (jwk_set (signing_key ∷ [])) (of_set signing_key) "ed25519"
      (inl refl) refl

-- Two members of a Signature-Agent header, of which the signature covers the second.
abbrev first_member : SignatureAgentReference
first_member = record {
  label = some "agent1";
  uri = "https://other.example";
  discovery_type = SignatureAgentDiscoveryType.directory;
  legacy = false;
}

abbrev second_member : SignatureAgentReference
second_member = record first_member { label = some "agent2"; uri = "https://acme.example" }

abbrev covered_components : List String
covered_components = "@authority" ∷ "\"signature-agent\";key=\"agent2\"" ∷ []

bound_signature_agent-IsChosen_example :
    Exists (λ x. x ≡ second_member) (first_member ∷ second_member ∷ [])
    × IsChosen
        (signed_keys_of unfolded covered_components)
        (some "sig2")
        (first_member ∷ second_member ∷ [])
        second_member
unfolding bound_signature_agent choose_member keep sole_member any signed_keys_of bare_name
    strip_right_quotes strip_left_quotes before_semicolon key_param key_param_here strip_prefix
    until_quote
bound_signature_agent-IsChosen_example =
    bound_signature_agent-IsChosen unfolded covered_components (some "sig2")
      (first_member ∷ second_member ∷ []) second_member refl
