-- ===== src/Detection/Pipeline.antt =====
-- detection/pipeline.py: the detector. Its session state is taken and given back; the verification
-- manager's collaborators are its verifiers and what waiting for them gives.
use agent_traffic_intelligen.Prelude.{
  String, Option, none, some, List, [], ◌∷◌, ◌++◌, Bool, ◌&&◌, all, if◌then◌else◌,
}
use agent_traffic_intelligen.Domain.{
  RequestEvent, IdentityClaim, VerificationState, verified, failed, conflicted,
}
use agent_traffic_intelligen.Identity.Evidence.{VerificationResolution}
use agent_traffic_intelligen.Identity.Context.{VerificationContext}
use agent_traffic_intelligen.Identity.Manager.{Verifier, Waited, verify}
use agent_traffic_intelligen.Features.Session.{
  SessionFeatureState, Observation, update, extended, history_of, or_empty,
}
use agent_traffic_intelligen.Detection.Floats.{Floats, Evidence, Snapshot, snapshot, score_evidence}
use agent_traffic_intelligen.Detection.Registry.{RegistryEntry, match_entry, claim_of}
use agent_traffic_intelligen.Detection.Rules.{
  RequestFeatures, request_features, rule, identity_evidence, session_evidence,
}

-- A `VerificationManager`
pub record Manager : Type 0 where
  pub verifiers : List Verifier
  pub wait : RequestEvent → VerificationContext → IdentityClaim → List Verifier → Waited

-- `Detection`
pub record Detection (F : Type 0) : Type 0 where
  pub request_id : String
  -- the four scores, by their dimension
  pub scores : List (String × F)
  pub identity : Option IdentityClaim
  pub evidence : List (Evidence F)
  pub features : RequestFeatures × Option (Snapshot F)
  pub ruleset_version : String
  pub verification : Option VerificationResolution

-- The functions and the registry of a `Detector`.
pub record Setting : Type 0 where
  pub casefold : String → String
  pub is_asset_path : String → Bool
  -- `_GENERIC_BOT_RE.search`
  pub generic_bot : String → Bool
  pub registry : List RegistryEntry
  pub manager : Option Manager

-- `replace(identity, verification_state=verification.state)`
unfoldable pub with_state : IdentityClaim → VerificationState → IdentityClaim
with_state claim state = record claim { verification_state = state }

-- The value of a call that raises nothing.
abbrev pub returned : Option VerificationResolution → Option (Option VerificationResolution)
returned none = none
returned (some r) = some (some r)

module _ (setting : Setting) where
  -- The call of the manager: `some none` where there is nothing to verify.
  unfoldable pub verify_claim :
      Option Manager
      → RequestEvent
      → Option VerificationContext
      → Option IdentityClaim
      → Option (Option VerificationResolution)
  verify_claim (some manager) event (some context) (some claim) =
      returned (verify setting.casefold claim manager.verifiers (manager.wait event context claim))
  verify_claim _ event context claim = some none

  -- The identity after verification.
  unfoldable pub identity_after :
      Option IdentityClaim → Option VerificationResolution → Option IdentityClaim
  identity_after none verification = none
  identity_after (some claim) none = some claim
  identity_after (some claim) (some r) = some (with_state claim r.state)

  -- The features of the session after the event.
  unfoldable pub session_history : SessionFeatureState → RequestEvent → List Observation
  session_history state event =
      extended state.max_events state.window (or_empty (history_of event.client_id state.histories))
        (record { event = event; is_asset = setting.is_asset_path event.path })

  module _ (fl : Floats) where
    abbrev pub verification_rule : String → String → String → Evidence fl.F
    verification_rule code description delta =
        rule fl code "identity-verification" description (("identity", fl.lit delta) ∷ [])

    -- `_resolution_score_evidence`
    unfoldable pub resolution_score_evidence : VerificationResolution → List (Evidence fl.F)
    resolution_score_evidence r = elim r.state [
      | verified ↦
          verification_rule "verified-agent-identity"
            "Authority-bound verification confirms the exact claimed agent identity." "5.5"
          ∷ []
      | failed ↦
          if r.provider_verified
          then verification_rule "verified-provider-identity"
              "Verification confirms the claimed provider but not the exact agent." "2.0"
            ∷ []
          else verification_rule "failed-identity-verification"
              "Applicable authoritative identity evidence contradicts the claim." "-2.0"
            ∷ []
      | conflicted ↦
          if r.provider_verified
          then verification_rule "verified-provider-identity"
              "Verification confirms the claimed provider but not the exact agent." "2.0"
            ∷ []
          else verification_rule "conflicted-identity-verification"
              "Strong identity evidence conflicts and cannot be safely reconciled." "-1.0"
            ∷ []
      | _ ↦
          if r.provider_verified
          then verification_rule "verified-provider-identity"
              "Verification confirms the claimed provider but not the exact agent." "2.0"
            ∷ []
          else []
    ]

    unfoldable pub resolution_evidence : Option VerificationResolution → List (Evidence fl.F)
    resolution_evidence none = []
    resolution_evidence (some r) = resolution_score_evidence r

    -- `Detection.__post_init__`: whether each score lies between 0 and 1.
    unfoldable pub is_score : String × fl.F → Bool
    is_score (name, value) = fl.le (fl.lit "0.0") value && fl.le value (fl.lit "1.0")

    unfoldable pub make_detection : Detection fl.F → Option (Detection fl.F)
    make_detection d = if all is_score d.scores then some d else none

    abbrev pub version_of : Option VerificationResolution → String
    version_of none = "2026-08-14-v0"
    version_of (some r) = "2026-08-14-v1"

    -- The detection, once the manager has answered.
    unfoldable pub detection_of :
        RequestEvent
        → Option RegistryEntry
        → Option (Snapshot fl.F)
        → Option VerificationResolution
        → Option (Detection fl.F)
    detection_of event entry session verification =
        let evidence =
          identity_evidence fl setting.generic_bot event.user_agent entry
          ++ (session_evidence fl (request_features setting.is_asset_path event) session
              ++ resolution_evidence verification) in
        make_detection (record {
          request_id = event.request_id;
          scores = score_evidence fl evidence;
          identity = identity_after (claim_of entry) verification;
          evidence = evidence;
          features = (request_features setting.is_asset_path event, session);
          ruleset_version = version_of verification;
          verification = verification;
        })

    unfoldable pub detected :
        RequestEvent
        → Option RegistryEntry
        → Option (Snapshot fl.F)
        → Option (Option VerificationResolution)
        → Option (Detection fl.F)
    detected event entry session none = none
    detected event entry session (some verification) = detection_of event entry session verification

    -- `Detector.detect`: the session state after it, and the detection if nothing is raised.
    unfoldable pub detect :
        SessionFeatureState
        → RequestEvent
        → Option VerificationContext
        → SessionFeatureState × Option (Detection fl.F)
    detect state event context =
        let entry = match_entry setting.casefold setting.registry event.user_agent in
        (
          update setting.is_asset_path state event,
          detected event entry (snapshot fl (session_history state event))
              (verify_claim setting.manager event context (claim_of entry)),
        )
