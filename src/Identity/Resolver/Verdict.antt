-- ===== src/Identity/Resolver/Verdict.antt =====
-- The states that identity/resolver.py gives a claim, each against what the evidence says of it.
use agent_traffic_intelligen.Prelude.{
  String, List, [], ◌∷◌, true, ◌≡◌, ◌↔◌, ◌⊎◌, some, any, any_iff, Exists, arith, ◌∙◌,
}
use agent_traffic_intelligen.Domain.{verified, failed, conflicted, IdentityClaim}
use agent_traffic_intelligen.Identity.Evidence.{VerificationEvidence}
use agent_traffic_intelligen.Identity.Resolver.{
  ordered_evidence, is_matching_agent_pass, is_matching_provider_pass, is_foreign_strong_pass,
  is_applicable_mismatch, verdict_of, resolution_of, resolve, agent_matches,
}
use agent_traffic_intelligen.Identity.Resolver.Laws.{decide, verdict_of_lem, verdict_of-ordered}
use agent_traffic_intelligen.Identity.Resolver.Laws.Spec.{
  BindsAgent, BindsProvider, BindsOther, Denies, agent_pass_iff, provider_pass_iff,
  foreign_pass_iff, denies_iff,
}

module _ (casefold : String → String) (claim : IdentityClaim)
    (evidence : List VerificationEvidence) where
  verdict_lem :
      verdict_of casefold claim (ordered_evidence evidence)
      ≡ decide
          (any (is_foreign_strong_pass casefold claim) evidence)
          (any (is_applicable_mismatch casefold claim) evidence)
          (any (is_matching_agent_pass casefold claim) evidence)
          (any (is_matching_provider_pass casefold claim) evidence)
  verdict_lem = verdict_of-ordered casefold claim evidence ∙ verdict_of_lem casefold claim evidence

  foreign :
      (any (is_foreign_strong_pass casefold claim) evidence ≡ true)
      ↔ Exists (BindsOther casefold claim) evidence
  foreign = any_iff _ _ (foreign_pass_iff casefold claim) evidence

  denied :
      (any (is_applicable_mismatch casefold claim) evidence ≡ true)
      ↔ Exists (Denies casefold claim) evidence
  denied = any_iff _ _ (denies_iff casefold claim) evidence

  by_agent :
      (any (is_matching_agent_pass casefold claim) evidence ≡ true)
      ↔ Exists (BindsAgent casefold claim) evidence
  by_agent = any_iff _ _ (agent_pass_iff casefold claim) evidence

  by_provider :
      (any (is_matching_provider_pass casefold claim) evidence ≡ true)
      ↔ Exists (BindsProvider casefold claim) evidence
  by_provider = any_iff _ _ (provider_pass_iff casefold claim) evidence

-- An agent pass is a provider pass too.
agent_pass→provider_pass :
    (casefold : String → String) (claim : IdentityClaim) (evidence : List VerificationEvidence)
    → any (is_matching_agent_pass casefold claim) evidence ≡ true
    → any (is_matching_provider_pass casefold claim) evidence ≡ true
unfolding any is_matching_agent_pass is_matching_provider_pass agent_matches
agent_pass→provider_pass casefold claim [] h = cc
agent_pass→provider_pass casefold claim (x ∷ xs) h =
    ground (arith, agent_pass→provider_pass casefold claim xs)

module _ (casefold : String → String) (claim : IdentityClaim)
    (evidence : List VerificationEvidence) where
  -- The claim is verified exactly when some evidence confirms the claimed agent, none binds the
  -- request to another identity, and the claimed authority does not deny it.
  pub verified_iff : ((resolution_of casefold claim evidence).state ≡ verified) ↔ (
      Exists (BindsAgent casefold claim) evidence
      × (¬ Exists (BindsOther casefold claim) evidence)
      × (¬ Exists (Denies casefold claim) evidence))
  unfolding resolution_of
  verified_iff = ground (
    arith,
    verdict_lem casefold claim evidence,
    foreign casefold claim evidence,
    denied casefold claim evidence,
    by_agent casefold claim evidence,
    by_provider casefold claim evidence,
  )

  -- The provider counts as verified exactly when some evidence confirms the claimed provider, none
  -- binds the request to another identity, and the claimed authority does not deny the claim.
  pub provider_verified_iff : ((resolution_of casefold claim evidence).provider_verified ≡ true) ↔ (
      Exists (BindsProvider casefold claim) evidence
      × (¬ Exists (BindsOther casefold claim) evidence)
      × (¬ Exists (Denies casefold claim) evidence))
  unfolding resolution_of
  provider_verified_iff = ground (
    arith,
    verdict_lem casefold claim evidence,
    foreign casefold claim evidence,
    denied casefold claim evidence,
    by_provider casefold claim evidence,
    agent_pass→provider_pass casefold claim evidence,
  )

  -- The claim has failed exactly when the claimed authority denies it and no strong evidence
  -- confirms the claimed provider or binds the request to another identity.
  pub failed_iff : ((resolution_of casefold claim evidence).state ≡ failed) ↔ (
      Exists (Denies casefold claim) evidence
      × (¬ Exists (BindsProvider casefold claim) evidence)
      × (¬ Exists (BindsOther casefold claim) evidence))
  unfolding resolution_of
  failed_iff = ground (
    arith,
    verdict_lem casefold claim evidence,
    foreign casefold claim evidence,
    denied casefold claim evidence,
    by_provider casefold claim evidence,
    agent_pass→provider_pass casefold claim evidence,
  )

  -- The claim is in conflict exactly when some evidence binds the request to another identity, or
  -- evidence for the claimed provider stands against a denial by its authority.
  pub conflicted_iff : ((resolution_of casefold claim evidence).state ≡ conflicted) ↔ (
      Exists (BindsOther casefold claim) evidence
      ⊎ (Exists (Denies casefold claim) evidence × Exists (BindsProvider casefold claim) evidence))
  unfolding resolution_of
  conflicted_iff = ground (
    arith,
    verdict_lem casefold claim evidence,
    foreign casefold claim evidence,
    denied casefold claim evidence,
    by_provider casefold claim evidence,
    agent_pass→provider_pass casefold claim evidence,
  )

  -- Every resolution passes the constructor's check: an exact agent is never verified without its
  -- provider, so resolving raises nothing.
  pub resolve_total : resolve casefold claim evidence ≡ some (resolution_of casefold claim evidence)
  unfolding resolve resolution_of
  resolve_total = ground (arith, verdict_lem casefold claim evidence)
