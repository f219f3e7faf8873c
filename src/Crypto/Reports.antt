-- ===== src/Crypto/Reports.antt =====
-- identity/crypto/web_bot_auth.py: one report made of those of the candidate algorithms.
use agent_traffic_intelligen.Prelude.{
  Option, none, some, List, [], ◌∷◌, Bool, true, false, all, if◌then◌else◌,
}
use agent_traffic_intelligen.Identity.Evidence.{
  VerificationOutcome, mismatch, unavailable, error, is_pass,
}
use agent_traffic_intelligen.Crypto.Checks.{Rfc9421Result}

abbrev pub is_unavailable : VerificationOutcome → Bool
is_unavailable unavailable = true
is_unavailable _ = false

abbrev pub is_error : VerificationOutcome → Bool
is_error error = true
is_error _ = false

-- The first report with a given kind of outcome.
unfoldable pub first_with : (VerificationOutcome → Bool) → List Rfc9421Result → Option Rfc9421Result
first_with test [] = none
first_with test (r ∷ results) = if test r.outcome then some r else first_with test results

-- The `Rfc9421Result` of a request that no algorithm verified.
abbrev pub unverified : Rfc9421Result
unverified = record {
  outcome = mismatch;
  explanation = "no allowed asymmetric algorithm verified the Web Bot Auth signature";
  label = none;
  algorithm_id = none;
  covered_components = [];
  covered_component_names = [];
  parameters = [];
  nonce = none;
}

-- The summary of the reports of which none passed.
unfoldable pub summary : List Rfc9421Result → Rfc9421Result
summary results = elim (first_with is_error results) [
  | some r ↦ r
  | none ↦ elim results [
    | [] ↦ unverified
    | r ∷ rest ↦
        if all (λ (x : Rfc9421Result). is_unavailable x.outcome) (r ∷ rest) then r else unverified
  ]
]

-- The loop over the candidate algorithms: the first report that passes, or the summary.
unfoldable pub first_verified : List Rfc9421Result → Rfc9421Result
first_verified results = elim (first_with is_pass results) [ some r ↦ r | none ↦ summary results ]
