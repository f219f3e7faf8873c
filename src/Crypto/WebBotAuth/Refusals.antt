-- ===== src/Crypto/WebBotAuth/Refusals.antt =====
-- The outcomes of the early returns of `WebBotAuthVerifier.verify` (identity/crypto/web_bot_auth.py).
use agent_traffic_intelligen.Prelude.{
  String, Option, none, some, List, [], ◌∷◌, Bool, true, false, ◌==◌, ◌≡◌, refl, inl, inr,
  Bool-cases, Option-cases,
}
use agent_traffic_intelligen.Prelude.Int.{ℤ}
use agent_traffic_intelligen.Identity.Evidence.{is_pass}
use agent_traffic_intelligen.Identity.Context.{VerificationContext}
use agent_traffic_intelligen.Crypto.Keys.{select_key}
use agent_traffic_intelligen.Crypto.SignatureAgent.{
  SignatureAgentReference, ParsedAgents, parsed, unsupported, malformed, bound_signature_agent,
}
use agent_traffic_intelligen.Crypto.Checks.{
  Scalar, integer, string, other, Rfc9421Result, Now, Policy, Collaborators, Check, go, stop, ◌>>=◌,
  require, integer_parameter, usable_keyid, both_times,
}
use agent_traffic_intelligen.Crypto.WebBotAuth.{
  agents_of, references_of, key_source_trusted, passed, window_of, key_of, binding_of, accept,
}

-- An early return of the checks does not report `PASS`.
abbrev pub Refuses {ℓ} : {A : Type ℓ} → Check A → Type 0
Refuses (go a) = Unit
Refuses (stop outcome explanation details) = is_pass outcome ≡ false

bind-Refuses {ℓ κ} :
    {A : Type ℓ} {B : Type κ} (m : Check A) (f : A → Check B)
    → Refuses m
    → ((a : A) → Refuses (f a))
    → Refuses (m >>= f)
bind-Refuses (go a) f h k = k a
bind-Refuses (stop outcome explanation details) f h k = h

require-Refuses : (test : Bool) (explanation : String) → Refuses (require test explanation)
unfolding require
require-Refuses true explanation = tt
require-Refuses false explanation = refl

integer_parameter-Refuses : (p : Option Scalar) (name : String) → Refuses (integer_parameter p name)
unfolding integer_parameter
integer_parameter-Refuses none name = tt
integer_parameter-Refuses (some (integer i)) name = tt
integer_parameter-Refuses (some (string s)) name = refl
integer_parameter-Refuses (some other) name = refl

usable_keyid-Refuses : (p : Option Scalar) → Refuses (usable_keyid p)
unfolding usable_keyid
usable_keyid-Refuses none = refl
usable_keyid-Refuses (some (integer i)) = refl
usable_keyid-Refuses (some other) = refl
usable_keyid-Refuses (some (string s)) = elim (Bool-cases (s == "")) [
  | inl e ↦ rw e refl
  | inr e ↦ rw e tt
]

both_times-Refuses : (a b : Option ℤ) → Refuses (both_times a b)
unfolding both_times
both_times-Refuses none b = refl
both_times-Refuses (some a) none = refl
both_times-Refuses (some a) (some b) = tt

agents_of-Refuses : (p : ParsedAgents) → Refuses (agents_of p)
unfolding agents_of
agents_of-Refuses (parsed references) = tt
agents_of-Refuses unsupported = refl
agents_of-Refuses (malformed e) = refl

module _ (by : Collaborators) (policy : Policy) where
  key_source-Refuses : Refuses (key_source_trusted by policy)
  unfolding key_source_trusted
  key_source-Refuses = elim (Bool-cases (by.allows policy.key_source_uri)) [
    | inl e ↦ rw e tt
    | inr e ↦ rw e refl
  ]

  references_of-Refuses : (raw : Option String) → Refuses (references_of by policy raw)
  unfolding references_of
  references_of-Refuses none = tt
  references_of-Refuses (some raw) = agents_of-Refuses (by.parse_agents raw)

  passed-Refuses : (report : Rfc9421Result) → Refuses (passed by policy report)
  unfolding passed
  passed-Refuses report = elim (Bool-cases (is_pass report.outcome)) [
    | inl e ↦ rw e tt
    | inr e ↦ rw e e
  ]

  window_of-Refuses :
      (report : Rfc9421Result) (now : Now) → Refuses (window_of by policy report now)
  unfolding window_of
  window_of-Refuses report now = bind-Refuses _ _ (integer_parameter-Refuses _ _) (λ created?.
      bind-Refuses _ _ (integer_parameter-Refuses _ _) (λ expires?.
        bind-Refuses _ _ (usable_keyid-Refuses _) (λ key_id.
          bind-Refuses _ _ (require-Refuses _ _) (λ _.
            bind-Refuses _ _ (both_times-Refuses _ _) (λ times.
              bind-Refuses _ _ (require-Refuses _ _) (λ _.
                bind-Refuses _ _ (require-Refuses _ _)
                  (λ _. bind-Refuses _ _ (require-Refuses _ _) (λ _. tt))))))))

  key_of-Refuses :
      (report : Rfc9421Result) (key_id : String) (now : Now)
      → Refuses (key_of by policy report key_id now)
  unfolding key_of
  key_of-Refuses report key_id now = elim (Option-cases (select_key policy.material key_id)) [
    | inl e ↦ rw e refl
    | inr (k, e) ↦ rw e (
        bind-Refuses _ _ (require-Refuses _ _)
          (λ _. bind-Refuses _ _ (require-Refuses _ _) (λ _. tt)))
  ]

  binding_of-Refuses :
      (report : Rfc9421Result) (references : List SignatureAgentReference)
      → Refuses (binding_of by policy report references)
  unfolding binding_of
  binding_of-Refuses report [] = tt
  binding_of-Refuses report (r ∷ rs) =
      elim (Option-cases
        (bound_signature_agent by.casefold report.covered_components report.label (r ∷ rs))) [
          | inl e ↦ rw (binding_of, e) refl
          | inr (m, e) ↦ elim (Option-cases (by.canonicalize m.uri)) [
            | inl f ↦ rw (binding_of, e, f) refl
            | inr (uri, f) ↦ elim (Bool-cases (uri == policy.signature_agent_uri)) [
              | inl d ↦ rw (binding_of, e, f, d) tt
              | inr d ↦ rw (binding_of, e, f, d) refl
            ]
          ]
        ]

  pub accept-Refuses :
      (context : VerificationContext) (now : Now) → Refuses (accept by policy context now)
  unfolding accept
  accept-Refuses context now = bind-Refuses _ _ key_source-Refuses (λ _.
      bind-Refuses _ _ (references_of-Refuses _) (λ references.
        bind-Refuses _ _ (passed-Refuses _) (λ _.
          bind-Refuses _ _ (window_of-Refuses _ now) (λ window.
            bind-Refuses _ _ (key_of-Refuses _ _ now)
              (λ selected. bind-Refuses _ _ (binding_of-Refuses _ references) (λ _. tt))))))
