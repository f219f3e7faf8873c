-- ===== src/Tests/Identities.antt =====
-- The resolver and the manager on concrete evidence.
use mathlib.Core.List.Perm
use agent_traffic_intelligen.Prelude.{any, some, List, [], ◌∷◌, ◌≡◌, ◌⊎◌, refl, Exists, keep}
use agent_traffic_intelligen.Identity.Evidence.{
  VerificationResolution, VerificationMethod, BindingScope,
}
use agent_traffic_intelligen.Identity.Resolver.{
  verdict_of, provider_matches, ordered_evidence, is_matching_provider_pass, is_matching_agent_pass,
  is_foreign_strong_pass, is_applicable_mismatch, evidence_key, conflicts_of, agent_matches,
  resolution_of,
}
use agent_traffic_intelligen.Identity.Resolver.Laws.Spec.{
  BindsAgent, BindsProvider, BindsOther, Denies,
}
use agent_traffic_intelligen.Identity.Resolver.Verdict.{
  verified_iff, provider_verified_iff, failed_iff, conflicted_iff,
}
use agent_traffic_intelligen.Identity.Resolver.Order.{SameVerdict, resolution_of_perm}
use agent_traffic_intelligen.Identity.Manager.{Verifier, returned, raised, Waited, verify}
use agent_traffic_intelligen.Identity.Manager.Laws.{failures_never_count, schedule_never_counts}
use agent_traffic_intelligen.Tests.Samples.{
  unfolded, acme, confirmed, provider_only, denied, foreign, stale_report,
}
use agent_traffic_intelligen.Prelude.Sort.{sorted, lex_le}

verified_iff_example :
    Exists (BindsAgent unfolded acme) (confirmed ∷ stale_report ∷ [])
    × (¬ Exists (BindsOther unfolded acme) (confirmed ∷ stale_report ∷ []))
    × (¬ Exists (Denies unfolded acme) (confirmed ∷ stale_report ∷ []))
unfolding resolution_of verdict_of conflicts_of keep ordered_evidence sorted lex_le evidence_key
    is_foreign_strong_pass provider_matches agent_matches is_applicable_mismatch any
    is_matching_agent_pass
verified_iff_example = (verified_iff unfolded acme (confirmed ∷ stale_report ∷ [])).0 refl

provider_verified_iff_example :
    Exists (BindsProvider unfolded acme) (provider_only ∷ [])
    × (¬ Exists (BindsOther unfolded acme) (provider_only ∷ []))
    × (¬ Exists (Denies unfolded acme) (provider_only ∷ []))
unfolding resolution_of verdict_of conflicts_of keep ordered_evidence sorted is_foreign_strong_pass
    provider_matches is_applicable_mismatch any is_matching_agent_pass is_matching_provider_pass
provider_verified_iff_example = (provider_verified_iff unfolded acme (provider_only ∷ [])).0 refl

failed_iff_example :
    Exists (Denies unfolded acme) (denied ∷ [])
    × (¬ Exists (BindsProvider unfolded acme) (denied ∷ []))
    × (¬ Exists (BindsOther unfolded acme) (denied ∷ []))
unfolding resolution_of verdict_of conflicts_of keep ordered_evidence sorted is_foreign_strong_pass
    is_applicable_mismatch provider_matches any is_matching_agent_pass is_matching_provider_pass
failed_iff_example = (failed_iff unfolded acme (denied ∷ [])).0 refl

conflicted_iff_example :
    Exists (BindsOther unfolded acme) (confirmed ∷ foreign ∷ [])
    ⊎ (Exists (Denies unfolded acme) (confirmed ∷ foreign ∷ [])
        × Exists (BindsProvider unfolded acme) (confirmed ∷ foreign ∷ []))
unfolding resolution_of verdict_of conflicts_of keep ordered_evidence sorted lex_le evidence_key
    is_foreign_strong_pass provider_matches agent_matches
conflicted_iff_example = (conflicted_iff unfolded acme (confirmed ∷ foreign ∷ [])).0 refl

resolution_of_perm_example :
    SameVerdict
      (resolution_of unfolded acme (confirmed ∷ denied ∷ []))
      (resolution_of unfolded acme (denied ∷ confirmed ∷ []))
resolution_of_perm_example =
    resolution_of_perm unfolded acme (confirmed ∷ denied ∷ []) (denied ∷ confirmed ∷ [])
      (Perm.swap _ _ _)

abbrev ranges_verifier : Verifier
ranges_verifier = record {
  name = "ranges";
  method = VerificationMethod.official_range;
  binding_scope = BindingScope.agent;
}

abbrev dns_verifier : Verifier
dns_verifier = record {
  name = "dns";
  method = VerificationMethod.fcrdns;
  binding_scope = BindingScope.provider;
}

-- The first verifier answers and the second raises an exception.
abbrev one_raises : List Verifier → Waited
one_raises _ = record {
  done = (ranges_verifier, returned confirmed) ∷ (dns_verifier, raised "OSError") ∷ [];
  not_done = [];
}

abbrev one_raises_first : List Verifier → Waited
one_raises_first _ = record {
  done = (dns_verifier, raised "OSError") ∷ (ranges_verifier, returned confirmed) ∷ [];
  not_done = [];
}

failures_never_count_example :
    (r : VerificationResolution) × (verify unfolded acme
        (ranges_verifier ∷ dns_verifier ∷ [])
        one_raises
      ≡ some r)
    × SameVerdict (resolution_of unfolded acme (confirmed ∷ [])) r
failures_never_count_example =
    failures_never_count unfolded acme ranges_verifier (dns_verifier ∷ []) one_raises

schedule_never_counts_example :
    (r s : VerificationResolution) × (verify unfolded acme
        (ranges_verifier ∷ dns_verifier ∷ [])
        one_raises
      ≡ some r)
    × (verify unfolded acme (ranges_verifier ∷ dns_verifier ∷ []) one_raises_first ≡ some s)
    × SameVerdict r s
schedule_never_counts_example =
    schedule_never_counts unfolded acme ranges_verifier (dns_verifier ∷ []) one_raises
      one_raises_first (Perm.swap _ _ _) Perm.nil
