-- ===== src/Identity/Resolver.antt =====
-- identity/resolver.py: independent evidence about one claim, resolved into a verdict. `casefold`
-- is Python's `str.casefold`.
pub mod Laws
pub mod Verdict
pub mod Order
use agent_traffic_intelligen.Prelude.{
  String, Option, none, some, List, [], ◌∷◌, ◌++◌, map, Bool, true, false, ◌&&◌, ◌||◌, not, ◌==◌,
  ◌⁀◌, opt_eq, or_else, any, keep, nonempty, if◌then◌else◌,
}
use agent_traffic_intelligen.Prelude.Sort.{text_order, lex_order, sorted}
use agent_traffic_intelligen.Domain.{
  VerificationState, verified, claimed, failed, conflicted, IdentityClaim,
}
use agent_traffic_intelligen.Identity.Evidence.{
  VerificationEvidence, VerificationResolution, method_value, outcome_value, scope_value, is_pass,
  is_mismatch, is_strong, is_agent, is_provider, make_resolution,
}

-- `_evidence_key`: the tuple by which the evidence is ordered.
unfoldable pub evidence_key : VerificationEvidence → List String
evidence_key item =
    method_value item.method
    ∷ scope_value item.binding_scope
    ∷ or_else item.authority ""
    ∷ or_else item.subject ""
    ∷ outcome_value item.outcome
    ∷ or_else item.source_uri ""
    ∷ []

-- `tuple(sorted(evidence, key=_evidence_key))`
unfoldable pub ordered_evidence : List VerificationEvidence → List VerificationEvidence
ordered_evidence = sorted (lex_order text_order) evidence_key

-- The conflict that one foreign strong pass is reported as.
unfoldable pub foreign_conflict : VerificationEvidence → String
foreign_conflict item =
    "strong "
    ⁀ (scope_value item.binding_scope
        ⁀ (" evidence binds request to " ⁀ or_else item.subject (or_else item.authority "unknown")))

abbrev pub disagreement : String
disagreement = "authoritative positive and negative identity evidence disagree"

module _ (casefold : String → String) where
  -- `_provider_matches`
  unfoldable pub provider_matches : IdentityClaim → VerificationEvidence → Bool
  provider_matches claim item = elim item.authority [
    | none ↦ false
    | some authority ↦ casefold authority == casefold claim.provider
  ]

  -- `_agent_matches`
  unfoldable pub agent_matches : IdentityClaim → VerificationEvidence → Bool
  agent_matches claim item = provider_matches claim item && opt_eq item.subject (some claim.agent)

  -- The test of `matching_agent_pass`.
  unfoldable pub is_matching_agent_pass : IdentityClaim → VerificationEvidence → Bool
  is_matching_agent_pass claim item =
      is_pass item.outcome && is_agent item.binding_scope && agent_matches claim item

  -- The test of `matching_provider_pass`.
  unfoldable pub is_matching_provider_pass : IdentityClaim → VerificationEvidence → Bool
  is_matching_provider_pass claim item =
      is_pass item.outcome && is_strong item.binding_scope && provider_matches claim item

  -- The test of `foreign_strong_passes`.
  unfoldable pub is_foreign_strong_pass : IdentityClaim → VerificationEvidence → Bool
  is_foreign_strong_pass claim item =
      is_pass item.outcome
      && is_strong item.binding_scope
      && (not (provider_matches claim item)
          || is_agent item.binding_scope && not (agent_matches claim item))

  -- The test of `applicable_mismatches`.
  unfoldable pub is_applicable_mismatch : IdentityClaim → VerificationEvidence → Bool
  is_applicable_mismatch claim item =
      is_mismatch item.outcome
      && is_strong item.binding_scope
      && provider_matches claim item
      && (is_provider item.binding_scope
          || opt_eq item.subject none
          || opt_eq item.subject (some claim.agent))

  -- The list `conflicts`, from the evidence in its order.
  unfoldable pub conflicts_of : IdentityClaim → List VerificationEvidence → List String
  conflicts_of claim ordered =
      map foreign_conflict (keep (is_foreign_strong_pass claim) ordered)
      ++ (if nonempty (keep (is_applicable_mismatch claim) ordered)
            && (any (is_matching_agent_pass claim) ordered
                || any (is_matching_provider_pass claim) ordered)
          then disagreement ∷ []
          else [])

  -- The verdict on the ordered evidence: state, provider_verified, agent_verified.
  unfoldable pub verdict_of :
      IdentityClaim → List VerificationEvidence → VerificationState × Bool × Bool
  verdict_of claim ordered =
      if nonempty (conflicts_of claim ordered)
      then (conflicted, false, false)
      else if any (is_matching_agent_pass claim) ordered
      then (verified, true, true)
      else if nonempty (keep (is_applicable_mismatch claim) ordered)
      then (failed, false, false)
      else (claimed, any (is_matching_provider_pass claim) ordered, false)

  -- `IdentityResolver.resolve`, up to the constructor's own check.
  unfoldable pub resolution_of : IdentityClaim → List VerificationEvidence → VerificationResolution
  resolution_of claim evidence =
      let ordered = ordered_evidence evidence in
      let (state, provider_verified, agent_verified) = verdict_of claim ordered in
      record {
        state = state;
        provider_verified = provider_verified;
        agent_verified = agent_verified;
        provider = some claim.provider;
        agent = some claim.agent;
        methods = ordered;
        conflicts = conflicts_of claim ordered;
      }

  -- `IdentityResolver.resolve`
  unfoldable pub resolve : IdentityClaim → List VerificationEvidence → Option VerificationResolution
  unfolding make_resolution
  resolve claim evidence = make_resolution (resolution_of claim evidence)
