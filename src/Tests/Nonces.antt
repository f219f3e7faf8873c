-- ===== src/Tests/Nonces.antt =====
-- The replay cache and signed requests on concrete inputs.
use agent_traffic_intelligen.Prelude.{
  keep, any, ℕ, none, some, [], ◌∷◌, true, false, ◌≡◌, ◌↔◌, refl, arith,
}
use agent_traffic_intelligen.Prelude.Int.{◌-ℤ◌, ◌+ℤ◌, ℤ, pos, ◌<ℤ◌}
use agent_traffic_intelligen.Json.{Json, Fields, str, end, field}
use agent_traffic_intelligen.Identity.Evidence.{BindingScope, pass, mismatch}
use agent_traffic_intelligen.Crypto.Replay.{purge, Token, ReplayCache, get, seen_or_add}
use agent_traffic_intelligen.Crypto.Replay.Laws.{IsValid, seen_or_add-IsValid}
use agent_traffic_intelligen.Crypto.Replay.Detection.{seen_iff}
use agent_traffic_intelligen.Crypto.Replay.Sequences.{Call, run, replay_refused}
use agent_traffic_intelligen.Crypto.Keys.{
  select_key, select_jwk_set_key, only_one, key_active_at, algorithm_matches_key, candidates_from,
  candidate_algorithms, algorithms_of_key, add_new, JwkSetKey, of_set, jwk_set,
}
use agent_traffic_intelligen.Crypto.SignatureAgent.{parsed}
use agent_traffic_intelligen.Crypto.Checks.{
  usable_keyid, require, both_times, parameter, integer_parameter, integer, string, Rfc9421Result,
  Now, Policy, Collaborators, trusted_details, go,
}
use agent_traffic_intelligen.Crypto.Reports.{first_with, first_verified}
use agent_traffic_intelligen.Crypto.WebBotAuth.{
  key_of, check_nonce, binding_of, window_of, verify_rfc, references_of, passed, key_source_trusted,
  finish, Accepted, accept, evidence, pass_evidence, verify,
}
use agent_traffic_intelligen.Crypto.WebBotAuth.Acceptance.{IsSound}
use agent_traffic_intelligen.Crypto.WebBotAuth.Replays.{
  IsFresh, pass-IsSound, replayed_signature_refused, late_signature_passes_twice,
}
use agent_traffic_intelligen.Tests.Samples.{unfolded, acme, request}

abbrev empty_cache : ReplayCache
empty_cache = record { max_entries = 2; entries = [] }

empty_IsValid : IsValid empty_cache
empty_IsValid = record { bounded = omega arith; distinct = tt }

abbrev first_token : Token
first_token = ("key-1", "nonce-1")

abbrev second_token : Token
second_token = ("key-1", "nonce-2")

abbrev full_cache : ReplayCache
full_cache = record {
  max_entries = 2;
  entries = (first_token, pos 100) ∷ (second_token, pos 200) ∷ [];
}

full_IsValid : IsValid full_cache
full_IsValid = record { bounded = omega arith; distinct = ((refl, tt), (tt, tt)) }

seen_or_add-IsValid_example :
    IsValid (seen_or_add full_cache ("key-2", "nonce-1") (pos 150) (pos 50)).1
seen_or_add-IsValid_example =
    seen_or_add-IsValid full_cache ("key-2", "nonce-1") (pos 150) (pos 50) full_IsValid

seen_iff_example :
    ((seen_or_add full_cache second_token (pos 250) (pos 150)).0 ≡ true)
    ↔ ((e : ℤ) × (get second_token full_cache.entries ≡ some e) × (pos 150 <ℤ e))
seen_iff_example = seen_iff full_cache second_token (pos 250) (pos 150) full_IsValid

abbrev other_call : Call
other_call = record { token = second_token; expires = pos 200; now = pos 20 }

replay_refused_example :
    (seen_or_add
      (run (seen_or_add empty_cache first_token (pos 100) (pos 10)).1 (other_call ∷ []))
      first_token
      (pos 100)
      (pos 30)).0
    ≡ true
unfolding seen_or_add get purge keep
replay_refused_example =
    replay_refused empty_cache first_token (pos 100) (pos 10) (other_call ∷ []) (pos 100) (pos 30)
      empty_IsValid refl (omega arith) (omega arith, tt) (omega arith)

abbrev pub signing_key : JwkSetKey
signing_key = record {
  kid = some "key-1";
  thumbprint = "print";
  kty = "OKP";
  alg = none;
  key_use = none;
  not_before = none;
  expires = none;
  jwk = field "crv" (str "Ed25519") end;
}

abbrev report : Rfc9421Result
report = record {
  outcome = pass;
  explanation = "verified";
  label = some "sig1";
  algorithm_id = some "ed25519";
  covered_components = [];
  covered_component_names = "@authority" ∷ [];
  parameters =
      ("created", integer (pos 10))
      ∷ ("expires", integer (pos 100))
      ∷ ("keyid", string "key-1")
      ∷ ("tag", string "web-bot-auth")
      ∷ [];
  nonce = some "nonce-1";
}

abbrev collaborators : Collaborators
collaborators = record {
  rfc_verify = λ context now algorithm. report;
  parse_agents = λ raw. parsed [];
  allows = λ uri. true;
  canonicalize = λ uri. some uri;
  casefold = unfolded;
}

abbrev policy : Policy
policy = record {
  material = jwk_set (signing_key ∷ []);
  key_source_uri = "https://acme.example/keys.json";
  signature_agent_uri = "https://acme.example/keys.json";
  binding_scope = BindingScope.agent;
  subject = none;
  max_validity_seconds = pos 86400;
  clock_skew_seconds = pos 5;
}

abbrev at : ℕ → Now
at seconds = record { is_aware = true; timestamp = pos seconds }

abbrev accepted : Accepted
accepted = record {
  report = report;
  key_id = "key-1";
  expires = pos 100;
  selected_key = of_set signing_key;
  bound = none;
}

accepted-at_50 : accept collaborators policy request (at 50) ≡ go accepted
unfolding accept key_source_trusted references_of passed verify_rfc first_verified first_with
    candidate_algorithms candidates_from add_new algorithms_of_key agent_traffic_intelligen.Json.get
    any window_of integer_parameter parameter usable_keyid require both_times ◌-ℤ◌ ◌+ℤ◌ key_of
    select_key select_jwk_set_key keep only_one key_active_at algorithm_matches_key binding_of
accepted-at_50 = refl

accepted-at_102 : accept collaborators policy request (at 102) ≡ go accepted
unfolding accept key_source_trusted references_of passed verify_rfc first_verified first_with
    candidate_algorithms candidates_from add_new algorithms_of_key agent_traffic_intelligen.Json.get
    any window_of integer_parameter parameter usable_keyid require both_times ◌-ℤ◌ ◌+ℤ◌ key_of
    select_key select_jwk_set_key keep only_one key_active_at algorithm_matches_key binding_of
accepted-at_102 = refl

accepted-at_103 : accept collaborators policy request (at 103) ≡ go accepted
unfolding accept key_source_trusted references_of passed verify_rfc first_verified first_with
    candidate_algorithms candidates_from add_new algorithms_of_key agent_traffic_intelligen.Json.get
    any window_of integer_parameter parameter usable_keyid require both_times ◌-ℤ◌ ◌+ℤ◌ key_of
    select_key select_jwk_set_key keep only_one key_active_at algorithm_matches_key binding_of
accepted-at_103 = refl

pass-IsSound_example :
    (a : Accepted) × IsSound collaborators policy request (at 50) a × IsFresh (at 50) a none none
unfolding verify finish accept key_source_trusted references_of passed verify_rfc first_verified
    first_with candidate_algorithms candidates_from add_new algorithms_of_key
    agent_traffic_intelligen.Json.get any window_of integer_parameter parameter usable_keyid require
    both_times ◌-ℤ◌ ◌+ℤ◌ key_of select_key select_jwk_set_key keep only_one key_active_at
    algorithm_matches_key binding_of check_nonce pass_evidence evidence
pass-IsSound_example =
    pass-IsSound collaborators policy request acme (at 50) none
      (pass_evidence collaborators policy acme accepted false, none) refl refl

replayed_signature_refused_example :
    (after : ReplayCache) × (verify collaborators policy request acme
        (at 50)
        (some (run (seen_or_add empty_cache first_token (pos 100) (pos 10)).1 (other_call ∷ [])))
      ≡ some (
        evidence collaborators policy acme mismatch "signature nonce was already observed"
            trusted_details,
        some after,
      ))
unfolding seen_or_add get purge keep
replayed_signature_refused_example =
    replayed_signature_refused collaborators policy empty_cache "key-1" "nonce-1" (pos 100) (pos 10)
      (other_call ∷ []) request acme (at 50) accepted empty_IsValid refl (omega arith)
      (omega arith, tt) refl (omega arith) accepted-at_50 refl refl

late_signature_passes_twice_example :
    (next after : ReplayCache) × (verify collaborators policy request acme
        (at 102)
        (some empty_cache)
      ≡ some (pass_evidence collaborators policy acme accepted true, some next))
    × (verify collaborators policy request acme (at 103) (some next)
        ≡ some (pass_evidence collaborators policy acme accepted true, some after))
unfolding get
late_signature_passes_twice_example =
    late_signature_passes_twice collaborators policy empty_cache request acme (at 102) (at 103)
      accepted accepted "nonce-1" empty_IsValid (omega arith) refl refl refl accepted-at_102
      accepted-at_103 refl refl refl refl (omega arith) (omega arith)
