-- ===== src/Crypto/WebBotAuth/Acceptance.antt =====
-- What holds of a signed request that `WebBotAuthVerifier.verify` accepts.
use agent_traffic_intelligen.Prelude.{List, true, ◌≡◌, refl, inl, inr, Bool-cases}
use agent_traffic_intelligen.Identity.Evidence.{is_pass}
use agent_traffic_intelligen.Identity.Context.{VerificationContext}
use agent_traffic_intelligen.Crypto.SignatureAgent.{SignatureAgentReference}
use agent_traffic_intelligen.Crypto.Checks.{Rfc9421Result, Now, Policy, Collaborators, go, bind_go}
use agent_traffic_intelligen.Crypto.WebBotAuth.{
  Accepted, verify_rfc, references_of, key_source_trusted, passed, window_of, key_of, binding_of,
  accept,
}
use agent_traffic_intelligen.Crypto.WebBotAuth.Conditions.{
  HasWindow, HasKey, IsBound, window_go, key_go, binding_go,
}

-- Every condition of `WebBotAuthVerifier.verify` but that on the nonce, with what it accepted.
pub record IsSound (by : Collaborators) (policy : Policy) (context : VerificationContext)
    (now : Now) (a : Accepted) : Type 0 where
  pub key_source : by.allows policy.key_source_uri ≡ true
  pub is_report : a.report ≡ verify_rfc by policy context now
  pub report_passed : is_pass a.report.outcome ≡ true
  pub window : HasWindow policy now a.report a.key_id a.expires
  pub key : HasKey policy now a.report a.key_id a.selected_key
  pub references : List SignatureAgentReference
  pub parsed_from : references_of by policy context.signature_agent ≡ go references
  pub member : IsBound by policy a.report references a.bound

passed_go :
    (by : Collaborators) (policy : Policy) (report : Rfc9421Result) (u : Unit {0})
    → passed by policy report ≡ go u
    → is_pass report.outcome ≡ true
unfolding passed
passed_go by policy report u h = elim (Bool-cases (is_pass report.outcome)) [
  | inl e ↦ e
  | inr e ↦ absurd cc
]

key_source_go :
    (by : Collaborators) (policy : Policy) (u : Unit {0})
    → key_source_trusted by policy ≡ go u
    → by.allows policy.key_source_uri ≡ true
unfolding key_source_trusted
key_source_go by policy u h = elim (Bool-cases (by.allows policy.key_source_uri)) [
  | inl e ↦ e
  | inr e ↦ absurd cc
]

-- The checks accept a request only if every condition holds.
pub accept-IsSound :
    (by : Collaborators) (policy : Policy) (context : VerificationContext) (now : Now)
    (a : Accepted)
    → accept by policy context now ≡ go a
    → IsSound by policy context now a
unfolding accept
accept-IsSound by policy context now a h =
    let (u, trusted, h1) = bind_go (key_source_trusted by policy) _ _ h in
    let (references, refs, h2) = bind_go (references_of by policy context.signature_agent) _ _ h1 in
    let (v, ok, h3) = bind_go (passed by policy (verify_rfc by policy context now)) _ _ h2 in
    let ((key_id, expires), window, h4) =
      bind_go (window_of by policy (verify_rfc by policy context now) now) _ _ h3 in
    let (selected, key, h5) =
      bind_go (key_of by policy (verify_rfc by policy context now) key_id now) _ _ h4 in
    let (member, binding, h6) =
      bind_go (binding_of by policy (verify_rfc by policy context now) references) _ _ h5 in
    let report = verify_rfc by policy context now in
    let b : Accepted = record {
      report = report;
      key_id = key_id;
      expires = expires;
      selected_key = selected;
      bound = member;
    } in
    let same : b ≡ a = cc in
    let found : IsSound by policy context now b = record {
      key_source = key_source_go by policy u trusted;
      is_report = refl;
      report_passed = passed_go by policy report v ok;
      window = window_go by policy report now key_id expires window;
      key = key_go by policy report key_id now selected key;
      references = references;
      parsed_from = refs;
      member = binding_go by policy report references member binding;
    } in
    rw same at found
