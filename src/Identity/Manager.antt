-- ===== src/Identity/Manager.antt =====
-- identity/manager.py: independent verifiers run concurrently, and their evidence resolved. What
-- `concurrent.futures.wait` gives back is an argument: for each finished future its verifier with
-- what it returned or raised, and the verifiers that the timeout left unfinished, both in any order.
pub mod Laws
use agent_traffic_intelligen.Prelude.{
  String, Option, none, some, List, [], ◌∷◌, ◌++◌, Bool, true, map, ◌⁀◌,
}
use agent_traffic_intelligen.Domain.{IdentityClaim}
use agent_traffic_intelligen.Identity.Evidence.{
  VerificationEvidence, VerificationMethod, VerificationResolution, BindingScope, unavailable,
  error, Detail, flag, text,
}
use agent_traffic_intelligen.Identity.Resolver.{resolve}

-- What the manager reads of an `IdentityVerifier`.
pub record Verifier : Type 0 where
  pub name : String
  pub method : VerificationMethod
  pub binding_scope : BindingScope

-- How a finished future ended: its evidence, or the type name of the exception.
pub data Completion : Type 0 where
  returned : VerificationEvidence → Completion
  raised : String → Completion

-- The two sets that `wait` returns.
pub record Waited : Type 0 where
  pub done : List (Verifier × Completion)
  pub not_done : List Verifier

-- `VerificationManager._subject`
unfoldable pub subject_of : Verifier → IdentityClaim → Option String
subject_of verifier claim = elim verifier.binding_scope [
  | BindingScope.agent ↦ some claim.agent
  | BindingScope.provider ↦ some claim.provider
  | BindingScope.key ↦ none
]

-- `VerificationManager._timeout`
unfoldable pub timeout_evidence : IdentityClaim → Verifier → VerificationEvidence
timeout_evidence claim verifier = record {
  method = verifier.method;
  outcome = unavailable;
  binding_scope = verifier.binding_scope;
  authority = some claim.provider;
  subject = subject_of verifier claim;
  explanation = "verifier " ⁀ (verifier.name ⁀ " exceeded the configured timeout");
  source_uri = none;
  source_profile = some "manager-timeout";
  retrieved_at = none;
  expires_at = none;
  source_sha256 = none;
  details = ("timeout", flag true) ∷ [];
}

-- `VerificationManager._execution_error`
unfoldable pub execution_error : IdentityClaim → Verifier → String → VerificationEvidence
execution_error claim verifier exception_type = record {
  method = verifier.method;
  outcome = error;
  binding_scope = verifier.binding_scope;
  authority = some claim.provider;
  subject = subject_of verifier claim;
  explanation = "verifier " ⁀ (verifier.name ⁀ (" raised an unexpected " ⁀ exception_type));
  source_uri = none;
  source_profile = some "manager-execution";
  retrieved_at = none;
  expires_at = none;
  source_sha256 = none;
  details = ("exception_type", text exception_type) ∷ [];
}

-- The body of the loop over `done`.
unfoldable pub completed_evidence : IdentityClaim → Verifier × Completion → VerificationEvidence
completed_evidence claim (verifier, returned item) = item
completed_evidence claim (verifier, raised exception_type) =
    execution_error claim verifier exception_type

-- The list `evidence`, as the two loops build it.
unfoldable pub collected : IdentityClaim → Waited → List VerificationEvidence
collected claim waited =
    map (completed_evidence claim) waited.done ++ map (timeout_evidence claim) waited.not_done

-- `VerificationManager.verify`: with no verifiers nothing is awaited.
unfoldable pub verify :
    (String → String)
    → IdentityClaim
    → List Verifier
    → (List Verifier → Waited)
    → Option VerificationResolution
verify casefold claim [] wait = resolve casefold claim []
verify casefold claim (v ∷ verifiers) wait =
    resolve casefold claim (collected claim (wait (v ∷ verifiers)))
