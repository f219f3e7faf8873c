-- ===== src/Identity/Resolver/Laws.antt =====
-- How the verdict of identity/resolver.py reads the evidence: only by tests for some member.
pub mod Spec
use mathlib.Core.List.{Perm}
use agent_traffic_intelligen.Prelude.{
  String, List, [], ◌∷◌, ◌++◌, map, Bool, true, false, ◌&&◌, ◌||◌, not, ◌≡◌, refl, any, keep,
  if◌then◌else◌, arith, nonempty, nonempty-keep, nonempty-map-append,
}
use agent_traffic_intelligen.Prelude.Sort.{text_order, lex_order, sorted}
use agent_traffic_intelligen.Prelude.Sort.Laws.{any-sorted, keep-sorted}
use agent_traffic_intelligen.Domain.{
  VerificationState, verified, claimed, failed, conflicted, IdentityClaim,
}
use agent_traffic_intelligen.Identity.Evidence.{
  VerificationEvidence, VerificationOutcome, is_pass, is_mismatch,
}
use agent_traffic_intelligen.Identity.Resolver.{
  evidence_key, ordered_evidence, is_matching_agent_pass, is_matching_provider_pass,
  is_foreign_strong_pass, is_applicable_mismatch, conflicts_of, verdict_of, disagreement,
}

-- The verdict from the four tests: foreign pass, mismatch, agent pass, provider pass.
abbrev pub decide : Bool → Bool → Bool → Bool → VerificationState × Bool × Bool
decide foreign denied agent provider =
    if foreign || denied && (agent || provider)
    then (conflicted, false, false)
    else if agent
    then (verified, true, true)
    else if denied
    then (failed, false, false)
    else (claimed, provider, false)

module _ (casefold : String → String) (claim : IdentityClaim) where
  pub nonempty-conflicts_of :
      (xs : List VerificationEvidence)
      → nonempty (conflicts_of casefold claim xs) ≡ (
          any (is_foreign_strong_pass casefold claim) xs
          || any (is_applicable_mismatch casefold claim) xs
            && (any (is_matching_agent_pass casefold claim) xs
                || any (is_matching_provider_pass casefold claim) xs))
  unfolding conflicts_of
  nonempty-conflicts_of xs = rw nonempty-map-append (
      rw (nonempty-keep (is_foreign_strong_pass casefold claim) xs)
        (rw (nonempty-keep (is_applicable_mismatch casefold claim) xs) (ground arith)))

  pub verdict_of_lem :
      (xs : List VerificationEvidence)
      → verdict_of casefold claim xs
        ≡ decide
            (any (is_foreign_strong_pass casefold claim) xs)
            (any (is_applicable_mismatch casefold claim) xs)
            (any (is_matching_agent_pass casefold claim) xs)
            (any (is_matching_provider_pass casefold claim) xs)
  unfolding verdict_of
  verdict_of_lem xs =
      rw (nonempty-conflicts_of xs)
        (rw (nonempty-keep (is_applicable_mismatch casefold claim) xs) refl)

  -- The verdict does not see the order of the evidence.
  pub verdict_of-ordered :
      (xs : List VerificationEvidence)
      → verdict_of casefold claim (ordered_evidence xs) ≡ verdict_of casefold claim xs
  unfolding ordered_evidence
  verdict_of-ordered xs = simp (verdict_of_lem, any-sorted)

abbrev pub is_decisive : VerificationEvidence → Bool
is_decisive item = is_pass item.outcome || is_mismatch item.outcome
