-- ===== src/Crypto/WebBotAuth.antt =====
-- identity/crypto/web_bot_auth.py: the policy on a signed request and its binding to an agent.
pub mod Conditions
pub mod Acceptance
pub mod Refusals
pub mod Replays
use agent_traffic_intelligen.Prelude.{
  ℕ, String, Option, none, some, List, [], ◌∷◌, Bool, true, false, not, ◌&&◌, ◌||◌, ◌==◌, ◌⁀◌,
  opt_eq, any, all, map, or_else, if◌then◌else◌,
}
use agent_traffic_intelligen.Prelude.Int.{ℤ, pos, leb_ℤ, ltb_ℤ, ◌+ℤ◌, ◌-ℤ◌}
use agent_traffic_intelligen.Json.{Json, get}
use agent_traffic_intelligen.Domain.{IdentityClaim}
use agent_traffic_intelligen.Identity.Evidence.{
  VerificationEvidence, VerificationOutcome, pass, mismatch, unavailable, indeterminate, stale,
  error, is_pass, BindingScope, key, provider, agent, web_bot_auth, Detail, flag, text, null,
}
use agent_traffic_intelligen.Identity.Context.{VerificationContext}
use agent_traffic_intelligen.Crypto.Replay.{ReplayCache, seen_or_add}
use agent_traffic_intelligen.Crypto.Keys.{
  KeyMaterial, directory, jwk_set, VerificationKey, candidate_algorithms, select_key, key_active_at,
  algorithm_matches_key, alg_of, kty_of, jwk_of, key_thumbprint,
}
use agent_traffic_intelligen.Crypto.SignatureAgent.{
  SignatureAgentReference, ParsedAgents, parsed, unsupported, malformed, bound_signature_agent,
}
use agent_traffic_intelligen.Crypto.Reports.{
  is_unavailable, is_error, first_with, unverified, summary, first_verified,
}
use agent_traffic_intelligen.Crypto.Checks.{
  Scalar, integer, string, other, Rfc9421Result, Now, Policy, Collaborators, Check, go, stop, ◌>>=◌,
  trusted_details, stop_mismatch, require, parameter, integer_parameter, usable_keyid, has_tag,
  both_times,
}

-- What the checks of a signature leave for the last steps.
pub record Accepted : Type 0 where
  pub report : Rfc9421Result
  pub key_id : String
  pub expires : ℤ
  pub selected_key : VerificationKey
  pub bound : Option SignatureAgentReference

-- The subject of a report, by the scope of the binding.
unfoldable pub subject_of : BindingScope → Option String → IdentityClaim → Option String
subject_of agent subject claim = some (or_else subject claim.agent)
subject_of provider subject claim = some (or_else subject claim.provider)
subject_of key subject claim = subject

-- The source profile that the constructor sets.
abbrev pub source_profile_of : KeyMaterial → String
source_profile_of (directory _) = "draft-ietf-webbotauth-httpsig-protocol-00"
source_profile_of (jwk_set _) = "draft-ietf-webbotauth-httpsig-protocol-00+RFC7517"

abbrev pub is_some {ℓ} : {A : Type ℓ} → Option A → Bool
is_some none = false
is_some (some _) = true

abbrev pub is_legacy : Option SignatureAgentReference → Bool
is_legacy none = false
is_legacy (some r) = r.legacy

abbrev pub detail_of : Option String → Detail
detail_of none = null
detail_of (some t) = text t

-- The members of a header that was parsed, or the early return for its error.
unfoldable pub agents_of : ParsedAgents → Check (List SignatureAgentReference)
agents_of (parsed references) = go references
agents_of unsupported = stop unavailable "Structured Fields support is unavailable" trusted_details
agents_of (malformed e) = stop_mismatch ("Signature-Agent parse failed: " ⁀ e)

module _ (by : Collaborators) (policy : Policy) where
  -- `_verify_rfc`: the reports after the first that passes are never asked for.
  unfoldable pub verify_rfc : VerificationContext → Now → Rfc9421Result
  verify_rfc context now =
      first_verified (map (by.rfc_verify context now) (candidate_algorithms policy.material))

  -- The members of the Signature-Agent header.
  unfoldable pub references_of : Option String → Check (List SignatureAgentReference)
  references_of none = go []
  references_of (some raw) = agents_of (by.parse_agents raw)

  unfoldable pub key_source_trusted : Check {0} Unit
  key_source_trusted =
      if by.allows policy.key_source_uri
      then go tt
      else stop unavailable "key source is not trusted"
          (("directory_trusted", flag false) ∷ ("key_source_trusted", flag false) ∷ [])

  unfoldable pub passed : Rfc9421Result → Check {0} Unit
  passed report =
      if is_pass report.outcome
      then go tt
      else stop report.outcome report.explanation trusted_details

  -- The checks on the parameters of a verified signature: its key id and its `expires`.
  unfoldable pub window_of : Rfc9421Result → Now → Check (String × ℤ)
  window_of report now = do
    created? ← integer_parameter (parameter "created" report.parameters) "created"
    expires? ← integer_parameter (parameter "expires" report.parameters) "expires"
    key_id ← usable_keyid (parameter "keyid" report.parameters)
    _ ←
        require (has_tag (parameter "tag" report.parameters))
          "verified signature has the wrong Web Bot Auth tag"
    (created, expires) ← both_times created? expires?
    _ ←
        require (ltb_ℤ created expires && leb_ℤ (expires -ℤ created) policy.max_validity_seconds)
          "signature validity window violates ATI policy"
    _ ←
        require
          (leb_ℤ created (now.timestamp +ℤ policy.clock_skew_seconds)
            && leb_ℤ (now.timestamp -ℤ policy.clock_skew_seconds) expires)
          "signature validity window does not include verification time"
    _ ←
        require (any (λ c. c == "@authority" || c == "@target-uri") report.covered_component_names)
          "Web Bot Auth must sign @authority or @target-uri"
    go (key_id, expires)

  -- The key that the key id selects, with its checks.
  unfoldable pub key_of : Rfc9421Result → String → Now → Check VerificationKey
  key_of report key_id now = do
    selected ← elim (select_key policy.material key_id) [
      | none ↦ stop unavailable "keyid cannot be resolved from trusted key material" trusted_details
      | some k ↦ go k
    ]
    _ ← require (key_active_at selected now.timestamp) "key is not active at verification time"
    _ ←
        require
          (algorithm_matches_key report.algorithm_id (alg_of selected) (kty_of selected)
            (get "crv" (jwk_of selected)))
          "signature algorithm is incompatible with key material"
    go selected

  -- The Signature-Agent member that the signature is bound to, if the header is there.
  unfoldable pub binding_of :
      Rfc9421Result → List SignatureAgentReference → Check (Option SignatureAgentReference)
  binding_of report [] = go none
  binding_of report (r ∷ rs) =
      elim (bound_signature_agent by.casefold report.covered_components report.label (r ∷ rs)) [
        | none ↦
            stop_mismatch
              "the verified signature does not cover exactly one Signature-Agent member identifying it (its own label's member when present)"
        | some selected ↦ elim (by.canonicalize selected.uri) [
          | none ↦ stop_mismatch "signed Signature-Agent URI is not acceptable HTTPS"
          | some uri ↦
              if uri == policy.signature_agent_uri
              then go (some selected)
              else stop_mismatch
                  "signed Signature-Agent URI does not match registered agent identity"
        ]
      ]

  -- `verify` up to the replay cache.
  unfoldable pub accept : VerificationContext → Now → Check Accepted
  accept context now = do
    _ ← key_source_trusted
    references ← references_of context.signature_agent
    let report = verify_rfc context now
    _ ← passed report
    (key_id, expires) ← window_of report now
    selected ← key_of report key_id now
    bound ← binding_of report references
    go record {
      report = report;
      key_id = key_id;
      expires = expires;
      selected_key = selected;
      bound = bound;
    }

  -- `_evidence`
  unfoldable pub evidence :
      IdentityClaim → VerificationOutcome → String → List (String × Detail) → VerificationEvidence
  evidence claim outcome explanation details = record {
    method = web_bot_auth;
    outcome = outcome;
    binding_scope = policy.binding_scope;
    authority = some claim.provider;
    subject = subject_of policy.binding_scope policy.subject claim;
    explanation = explanation;
    source_uri = some policy.key_source_uri;
    source_profile = some (source_profile_of policy.material);
    retrieved_at = none;
    expires_at = none;
    source_sha256 = none;
    details = details;
  }

  -- The report on a signature that every check accepted.
  unfoldable pub pass_evidence : IdentityClaim → Accepted → Bool → VerificationEvidence
  pass_evidence claim a replay_protected =
      evidence claim pass "Web Bot Auth signature and trusted key binding verified" (
        ("algorithm", detail_of a.report.algorithm_id)
        ∷ ("directory_trusted", flag true)
        ∷ ("key_source_trusted", flag true)
        ∷ ("key_active", flag true)
        ∷ ("key_thumbprint", text (key_thumbprint a.selected_key))
        ∷ ("signed_authority_or_target", flag true)
        ∷ ("signature_agent_present", flag (is_some a.bound))
        ∷ ("signature_agent_bound", flag (is_some a.bound))
        ∷ ("legacy_signature_agent", flag (is_legacy a.bound))
        ∷ ("nonce_present", flag (is_some a.report.nonce))
        ∷ ("replay_protected", flag replay_protected)
        ∷ [])

  -- The report on a nonce, from the answer of the cache.
  unfoldable pub nonce_report :
      IdentityClaim → Accepted → Bool × ReplayCache → VerificationEvidence × Option ReplayCache
  nonce_report claim a (true, cache) =
      (evidence claim mismatch "signature nonce was already observed" trusted_details, some cache)
  nonce_report claim a (false, cache) = (pass_evidence claim a true, some cache)

  -- The last step: the cache, if there is one and the signature has a nonce.
  unfoldable pub check_nonce :
      IdentityClaim
      → Now
      → Accepted
      → Option String
      → Option ReplayCache
      → VerificationEvidence × Option ReplayCache
  check_nonce claim now a none cache = (pass_evidence claim a false, cache)
  check_nonce claim now a (some nonce) none = (pass_evidence claim a false, none)
  check_nonce claim now a (some nonce) (some cache) =
      nonce_report claim a (seen_or_add cache (a.key_id, nonce) a.expires now.timestamp)

  -- The report on the outcome of the checks, and the cache after it.
  unfoldable pub finish :
      IdentityClaim
      → Now
      → Check Accepted
      → Option ReplayCache
      → VerificationEvidence × Option ReplayCache
  finish claim now (stop outcome explanation details) cache =
      (evidence claim outcome explanation details, cache)
  finish claim now (go a) cache = check_nonce claim now a a.report.nonce cache

  -- `WebBotAuthVerifier.verify`: `none` is its `ValueError` for a naive time.
  unfoldable pub verify :
      VerificationContext
      → IdentityClaim
      → Now
      → Option ReplayCache
      → Option (VerificationEvidence × Option ReplayCache)
  verify context claim now cache =
      if now.is_aware then some (finish claim now (accept context now) cache) else none
