-- ===== src/Identity/Manager/Laws.antt =====
-- The evidence that identity/manager.py collects, and the verdict on it, under timeouts, exceptions and
-- other schedules.
use mathlib.Core.List.{Perm}
use mathlib.Core.List.Perm
use agent_traffic_intelligen.Prelude.{
  String, some, List, [], ◌∷◌, ◌++◌, map, keep, ◌≡◌, refl, sym, ◌∙◌,
}
use agent_traffic_intelligen.Domain.{IdentityClaim}
use agent_traffic_intelligen.Identity.Evidence.{VerificationEvidence, VerificationResolution}
use agent_traffic_intelligen.Identity.Resolver.{resolution_of}
use agent_traffic_intelligen.Identity.Resolver.Laws.{is_decisive}
use agent_traffic_intelligen.Identity.Resolver.Verdict.{resolve_total}
use agent_traffic_intelligen.Identity.Resolver.Order.{
  SameVerdict, neutral_ignored, resolution_of_perm,
}
use agent_traffic_intelligen.Identity.Manager.{
  Verifier, Completion, returned, raised, Waited, completed_evidence, timeout_evidence,
  execution_error, collected, verify,
}

-- The evidence of the verifiers that returned some.
abbrev pub answers : List (Verifier × Completion) → List VerificationEvidence
answers [] = []
answers ((v, returned item) ∷ rest) = item ∷ answers rest
answers ((v, raised name) ∷ rest) = answers rest

SameVerdict-sym_trans :
    {a b c : VerificationResolution} → SameVerdict a b → SameVerdict a c → SameVerdict b c
SameVerdict-sym_trans p q = record {
  state = sym p.state ∙ q.state;
  provider_verified = sym p.provider_verified ∙ q.provider_verified;
  agent_verified = sym p.agent_verified ∙ q.agent_verified;
  conflicts = sym p.conflicts ∙ q.conflicts;
}

module _ (claim : IdentityClaim) where
  keep-timeouts : (vs : List Verifier) → keep is_decisive (map (timeout_evidence claim) vs) ≡ []
  unfolding keep timeout_evidence
  keep-timeouts [] = refl
  keep-timeouts (v ∷ vs) = keep-timeouts vs

  keep-collected :
      (done : List (Verifier × Completion)) (not_done : List Verifier)
      → keep is_decisive
          (map (completed_evidence claim) done ++ map (timeout_evidence claim) not_done)
        ≡ keep is_decisive (answers done)
  unfolding keep completed_evidence execution_error
  keep-collected [] not_done = keep-timeouts not_done
  keep-collected ((v, returned item) ∷ done) not_done = cc (keep-collected done not_done)
  keep-collected ((v, raised name) ∷ done) not_done = keep-collected done not_done

module _ (casefold : String → String) (claim : IdentityClaim) where
  failures_ignored :
      (waited : Waited)
      → SameVerdict
          (resolution_of casefold claim (answers waited.done))
          (resolution_of casefold claim (collected claim waited))
  unfolding collected
  failures_ignored waited =
      SameVerdict-sym_trans (neutral_ignored casefold claim (answers waited.done))
        (rw (← keep-collected claim waited.done waited.not_done) (neutral_ignored casefold claim _))

  verdict_of_schedule :
      (first second : Waited)
      → Perm first.done second.done
      → Perm first.not_done second.not_done
      → SameVerdict
          (resolution_of casefold claim (collected claim first))
          (resolution_of casefold claim (collected claim second))
  unfolding collected
  verdict_of_schedule first second d n =
      resolution_of_perm casefold claim _ _ (Perm.append (Perm.map _ d) (Perm.map _ n))

  -- Verification always returns a resolution, and timeouts and exceptions never change its verdict:
  -- it is the one that the evidence of the verifiers that answered has by itself.
  pub failures_never_count :
      (v : Verifier) (verifiers : List Verifier) (wait : List Verifier → Waited)
      → (r : VerificationResolution) × (verify casefold claim (v ∷ verifiers) wait ≡ some r)
        × SameVerdict (resolution_of casefold claim (answers (wait (v ∷ verifiers)).done)) r
  unfolding verify
  failures_never_count v verifiers wait =
      (_, resolve_total casefold claim _, failures_ignored (wait (v ∷ verifiers)))

  -- Two runs in which the same futures end in the same way, in whatever order they finish, return
  -- resolutions with one verdict.
  pub schedule_never_counts :
      (v : Verifier) (verifiers : List Verifier) (first second : List Verifier → Waited)
      → Perm (first (v ∷ verifiers)).done (second (v ∷ verifiers)).done
      → Perm (first (v ∷ verifiers)).not_done (second (v ∷ verifiers)).not_done
      → (r s : VerificationResolution) × (verify casefold claim (v ∷ verifiers) first ≡ some r)
        × (verify casefold claim (v ∷ verifiers) second ≡ some s)
        × SameVerdict r s
  unfolding verify
  schedule_never_counts v verifiers first second d n = (
    _,
    _,
    resolve_total casefold claim _,
    resolve_total casefold claim _,
    verdict_of_schedule (first (v ∷ verifiers)) (second (v ∷ verifiers)) d n,
  )
