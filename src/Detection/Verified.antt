-- ===== src/Detection/Verified.antt =====
-- What a verified identity in a detection rests on (detection/pipeline.py).
use agent_traffic_intelligen.Prelude.{
  String, Option, none, some, List, [], ◌∷◌, Bool, true, false, ◌≡◌, refl, sym, ◌∙◌, ap, subst,
  Exists, if◌then◌else◌,
}
use agent_traffic_intelligen.Prelude.Options.{some_subst}
use agent_traffic_intelligen.Domain.{
  RequestEvent, IdentityClaim, VerificationState, claimed, verified,
}
use agent_traffic_intelligen.Identity.Evidence.{VerificationEvidence, VerificationResolution}
use agent_traffic_intelligen.Identity.Context.{VerificationContext}
use agent_traffic_intelligen.Identity.Resolver.Laws.Spec.{BindsAgent, BindsOther, Denies}
use agent_traffic_intelligen.Identity.Resolver.Verdict.{verified_iff, resolve_total}
use agent_traffic_intelligen.Identity.Manager.{Verifier, Waited, verify}
use agent_traffic_intelligen.Identity.Manager.Laws.{answers, failures_never_count}
use agent_traffic_intelligen.Features.Session.{SessionFeatureState}
use agent_traffic_intelligen.Detection.Floats.{Floats, Snapshot, snapshot}
use agent_traffic_intelligen.Detection.Registry.{RegistryEntry, match_entry, claim_of}
use agent_traffic_intelligen.Detection.Pipeline.{
  Manager, Detection, Setting, returned, verify_claim, identity_after, session_history,
  make_detection, detection_of, detected, detect, with_state,
}

module _ (casefold : String → String) where
  -- Evidence that confirms the claimed agent, without evidence of another identity or a denial.
  abbrev pub IsConfirmed : IdentityClaim → List VerificationEvidence → Type 0
  IsConfirmed claim evidence =
      Exists (BindsAgent casefold claim) evidence
      × (¬ Exists (BindsOther casefold claim) evidence)
      × (¬ Exists (Denies casefold claim) evidence)

  verified-IsConfirmed :
      (claim : IdentityClaim) (verifiers : List Verifier) (wait : List Verifier → Waited)
      (r : VerificationResolution)
      → verify casefold claim verifiers wait ≡ some r
      → r.state ≡ verified
      → IsConfirmed claim (answers (wait verifiers).done)
  unfolding verify
  verified-IsConfirmed claim [] wait r h v =
      let same = some_subst (λ x. x.state ≡ verified) (sym h ∙ resolve_total casefold claim []) v in
      absurd ((verified_iff casefold claim []).0 same).0
  verified-IsConfirmed claim (w ∷ ws) wait r h v =
      let (s, e, same) = failures_never_count casefold claim w ws wait in
      let state = some_subst (λ x. x.state ≡ verified) (sym h ∙ e) v in
      (verified_iff casefold claim (answers (wait (w ∷ ws)).done)).0 (same.state ∙ state)

returned-some :
    (o : Option VerificationResolution) (r : VerificationResolution)
    → returned o ≡ some (some r)
    → o ≡ some r
returned-some none r h = cc
returned-some (some s) r h = some_subst (λ x. some s ≡ x) h refl

module _ (setting : Setting) where
  claim_stays :
      (entry : Option RegistryEntry) (claim : IdentityClaim)
      → claim_of entry ≡ some claim
      → claim.verification_state ≡ claimed
  unfolding claim_of
  claim_stays none claim h = cc
  claim_stays (some entry) claim h = some_subst (λ c. c.verification_state ≡ claimed) h refl

  not_both : (s : VerificationState) → s ≡ claimed → s ≡ verified → ⊥
  not_both s h k = cc

  identity_verified :
      (entry : Option RegistryEntry) (o : Option IdentityClaim) (v : Option VerificationResolution)
      (claim : IdentityClaim)
      → claim_of entry ≡ o
      → identity_after setting o v ≡ some claim
      → claim.verification_state ≡ verified
      → (c : IdentityClaim) × (r : VerificationResolution) × (o ≡ some c)
        × (v ≡ some r)
        × (r.state ≡ verified)
  unfolding identity_after with_state
  identity_verified entry none v claim e h s = cc
  identity_verified entry (some c) none claim e h s =
      absurd (not_both claim.verification_state (claim_stays entry claim (e ∙ h)) s)
  identity_verified entry (some c) (some r) claim e h s =
      (c, r, refl, refl, some_subst (λ x. x.verification_state ≡ verified) (sym h) s)

  called :
      (m : Option Manager) (event : RequestEvent) (context : Option VerificationContext)
      (claim : IdentityClaim) (r : VerificationResolution)
      → verify_claim setting m event context (some claim) ≡ some (some r)
      → (manager : Manager) × (c : VerificationContext) × (m ≡ some manager)
        × (context ≡ some c)
        × (verify setting.casefold claim manager.verifiers (manager.wait event c claim) ≡ some r)
  unfolding verify_claim
  called none event context claim r h = cc
  called (some manager) event none claim r h = cc
  called (some manager) event (some c) claim r h = (
    manager,
    c,
    refl,
    refl,
    returned-some (verify setting.casefold claim manager.verifiers (manager.wait event c claim)) r
        h,
  )

  kept : (A : Type 0) (b : Bool) (x y : A) → (if b then some x else none) ≡ some y → x ≡ y
  kept A true x y h = some_subst (λ z. x ≡ z) h refl
  kept A false x y h = cc

  detected_parts :
      (fl : Floats) (event : RequestEvent) (entry : Option RegistryEntry)
      (session : Option (Snapshot fl.F)) (o : Option (Option VerificationResolution))
      (d : Detection fl.F)
      → detected setting fl event entry session o ≡ some d
      → (v : Option VerificationResolution) × (o ≡ some v)
        × (d.identity ≡ identity_after setting (claim_of entry) v)
  unfolding detected detection_of make_detection
  detected_parts fl event entry session none d h = cc
  detected_parts fl event entry session (some v) d h =
      (v, refl, sym (ap (λ x. x.identity) (kept (Detection fl.F) _ _ d h)))

  -- A detection reports a verified identity only after a run of the manager, of which the answers of the
  -- verifiers confirm the agent that the User-Agent claims, bind the request to no other identity, and
  -- hold no denial by the claimed authority.
  pub detect-IsConfirmed :
      (fl : Floats) (state : SessionFeatureState) (event : RequestEvent)
      (context : Option VerificationContext) (d : Detection fl.F) (identity : IdentityClaim)
      → (detect setting fl state event context).1 ≡ some d
      → d.identity ≡ some identity
      → identity.verification_state ≡ verified
      → (claim : IdentityClaim) × (manager : Manager) × (c : VerificationContext) × (claim_of
            (match_entry setting.casefold setting.registry event.user_agent)
          ≡ some claim)
        × (setting.manager ≡ some manager)
        × (context ≡ some c)
        × IsConfirmed setting.casefold claim
            (answers (manager.wait event c claim manager.verifiers).done)
  unfolding detect
  detect-IsConfirmed fl state event context d identity h named v =
      let entry = match_entry setting.casefold setting.registry event.user_agent in
      let answer = verify_claim setting setting.manager event context (claim_of entry) in
      let (o, answered, same) =
        detected_parts fl event entry (snapshot fl (session_history setting state event)) answer d
          h in
      let (claim, r, made, given, good) =
        identity_verified entry (claim_of entry) o identity refl (sym same ∙ named) v in
      let asked : verify_claim setting setting.manager event context (some claim) ≡ some (some r) =
        subst (λ x. verify_claim setting setting.manager event context x ≡ some (some r)) made
          (answered ∙ ap some given) in
      let (manager, c, has, there, ran) = called setting.manager event context claim r asked in
      (
        claim,
        manager,
        c,
        made,
        has,
        there,
        verified-IsConfirmed setting.casefold claim manager.verifiers (manager.wait event c claim) r
            ran good,
      )
