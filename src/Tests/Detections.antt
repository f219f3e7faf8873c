-- ===== src/Tests/Detections.antt =====
-- A request of a known agent that one verifier confirms.
use agent_traffic_intelligen.Prelude.{ℕ, String, none, some, List, [], ◌∷◌, true, false, ◌≡◌, refl}
use agent_traffic_intelligen.Domain.{RequestEvent, IdentityClaim, VerificationState, ActorType}
use agent_traffic_intelligen.Identity.Evidence.{VerificationMethod, BindingScope}
use agent_traffic_intelligen.Identity.Context.{VerificationContext}
use agent_traffic_intelligen.Identity.Manager.{Verifier, Waited, returned}
use agent_traffic_intelligen.Identity.Manager.Laws.{answers}
use agent_traffic_intelligen.Features.Session.{SessionFeatureState}
use agent_traffic_intelligen.Detection.Floats.{Floats}
use agent_traffic_intelligen.Detection.Registry.{RegistryEntry, match_entry, claim_of}
use agent_traffic_intelligen.Detection.Pipeline.{Manager, Detection, Setting, detect}
use agent_traffic_intelligen.Detection.Verified.{IsConfirmed, detect-IsConfirmed}
use agent_traffic_intelligen.Crypto.Components.{strip_prefix}
use agent_traffic_intelligen.Tests.Samples.{unfolded, acme, confirmed, request}
use agent_traffic_intelligen.Tests.Sessions.{first_event, no_asset}
use agent_traffic_intelligen.Detection.Floats.{
  count_path, path_counts, sigmoid, default_intercepts, add_to, add_deltas, add_evidence,
  score_evidence, intervals_from, last_time, entropy_sum, mean_of, snapshot_from, snapshot,
}
use agent_traffic_intelligen.Detection.Registry.{
  is_token_character, is_end, ends_token, occurs, longest_entry, best_entry,
}
use agent_traffic_intelligen.Detection.Rules.{
  path_depth, request_features, rule, known_agent, identity_evidence, browser_context_signals,
  behavior_evidence, session_evidence,
}
use agent_traffic_intelligen.Detection.Pipeline.{
  with_state, verify_claim, identity_after, session_history, resolution_score_evidence,
  resolution_evidence, is_score, make_detection, detection_of, detected,
}
use agent_traffic_intelligen.Features.Session.{
  history_of, without_client, last_members, last_timestamp, is_within, windowed, extended,
  make_room, update,
}
use agent_traffic_intelligen.Identity.Manager.{
  timeout_evidence, execution_error, completed_evidence, collected, verify,
}
use agent_traffic_intelligen.Identity.Resolver.{
  evidence_key, ordered_evidence, foreign_conflict, provider_matches, agent_matches,
  is_matching_agent_pass, is_matching_provider_pass, is_foreign_strong_pass, is_applicable_mismatch,
  conflicts_of, verdict_of, resolution_of, resolve,
}
use agent_traffic_intelligen.Prelude.{any, all, keep, count_if}
use agent_traffic_intelligen.Prelude.{or_else, onto_first, split_at, partition_at}
use agent_traffic_intelligen.Prelude.Sort.{lex_le, sorted}
use agent_traffic_intelligen.Identity.Evidence.{make_resolution}

-- Numbers that are all alike.
abbrev floats : Floats
floats = record {
  F = ℕ;
  lit = λ s. 0;
  of_nat = λ n. 0;
  seconds = λ n. 0;
  add = λ a b. 0;
  mul = λ a b. 0;
  div = λ a b. 0;
  neg = λ a. 0;
  le = λ a b. true;
  lt = λ a b. false;
  exp = λ a. 0;
  log2 = λ a. 0;
  fmean = λ xs. 0;
  pstdev = λ xs. 0;
}

abbrev acme_entry : RegistryEntry
acme_entry = record {
  token = "AcmeBot";
  provider = "acme";
  agent = "AcmeBot";
  actor_type = ActorType.search_crawler;
  intent = "search";
  ai_related = false;
  official_source = "https://acme.example";
  last_verified = "2026-01-01";
  deprecated = false;
  supported_until = none;
}

abbrev range_verifier : Verifier
range_verifier = record {
  name = "ranges";
  method = VerificationMethod.official_range;
  binding_scope = BindingScope.agent;
}

abbrev answer : List Verifier → Waited
answer verifiers = record { done = (range_verifier, returned confirmed) ∷ []; not_done = [] }

abbrev manager : Manager
manager = record { verifiers = range_verifier ∷ []; wait = λ event context claim. answer }

abbrev setting : Setting
setting = record {
  casefold = unfolded;
  is_asset_path = no_asset;
  generic_bot = λ s. false;
  registry = acme_entry ∷ [];
  manager = some manager;
}

abbrev event : RequestEvent
event = record first_event { user_agent = some "AcmeBot/1.0" }

abbrev empty_state : SessionFeatureState
empty_state = record {
  max_events = 2;
  max_clients = 1;
  window = 300000000;
  histories = [];
  evicted_clients = 0;
}

abbrev zeros : List (String × ℕ)
zeros = ("automation", 0) ∷ ("ai", 0) ∷ ("identity", 0) ∷ ("risk", 0) ∷ []

abbrev identity : IdentityClaim
identity = record acme { verification_state = VerificationState.verified }

abbrev detection : Detection ℕ
detection = record {
  request_id = "r1";
  scores = zeros;
  identity = some identity;
  evidence =
      record {
        code = "known-agent-ua-claim";
        source = "registry";
        description =
            "User-Agent claims the curated acme/AcmeBot identity; User-Agent alone is spoofable and is not verification.";
        strength = 0;
        score_deltas = zeros;
      }
      ∷ record {
        code = "verified-agent-identity";
        source = "identity-verification";
        description = "Authority-bound verification confirms the exact claimed agent identity.";
        strength = 0;
        score_deltas = ("identity", 0) ∷ [];
      }
      ∷ [];
  features = (
    record {
      path_depth = 0;
      is_asset = false;
      is_error = false;
      has_cookie = false;
      has_referer = false;
      has_accept_language = false;
    },
    some (record {
      session_request_count = 1;
      session_duration_seconds = 0;
      mean_interarrival_seconds = 0;
      interarrival_cv = 0;
      requests_per_minute = 0;
      asset_ratio = 0;
      error_ratio = 0;
      unique_path_ratio = 0;
      path_entropy_bits = 0;
    }),
  );
  ruleset_version = "2026-08-14-v1";
  verification = some (record {
    state = VerificationState.verified;
    provider_verified = true;
    agent_verified = true;
    provider = some "acme";
    agent = some "AcmeBot";
    methods = confirmed ∷ [];
    conflicts = [];
  });
}

detect-IsConfirmed_example :
    (claim : IdentityClaim) × (m : Manager) × (c : VerificationContext) × (claim_of
        (match_entry unfolded (acme_entry ∷ []) (some "AcmeBot/1.0"))
      ≡ some claim)
    × (some manager ≡ some m)
    × (some request ≡ some c)
    × IsConfirmed unfolded claim (answers (m.wait event c claim m.verifiers).done)
unfolding count_path path_counts sigmoid default_intercepts add_to add_deltas add_evidence
    score_evidence intervals_from last_time entropy_sum mean_of snapshot_from snapshot
    is_token_character is_end ends_token occurs longest_entry best_entry match_entry claim_of
    path_depth request_features rule known_agent identity_evidence browser_context_signals
    behavior_evidence session_evidence with_state verify_claim identity_after session_history
    resolution_score_evidence resolution_evidence is_score make_detection detection_of detected
    detect history_of without_client last_members last_timestamp is_within windowed extended
    make_room update timeout_evidence execution_error completed_evidence collected verify
    evidence_key ordered_evidence foreign_conflict provider_matches agent_matches
    is_matching_agent_pass is_matching_provider_pass is_foreign_strong_pass is_applicable_mismatch
    conflicts_of verdict_of resolution_of resolve any all keep count_if or_else onto_first split_at
    partition_at lex_le sorted make_resolution strip_prefix
detect-IsConfirmed_example =
    detect-IsConfirmed setting floats empty_state event (some request) detection identity refl refl
      refl
