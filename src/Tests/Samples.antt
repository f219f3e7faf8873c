-- ===== src/Tests/Samples.antt =====
-- The inputs of the runs: a provider, its crawler, the evidence on it, and a small runtime.
use agent_traffic_intelligen.Prelude.{String, none, some, [], true, false, ◌==◌, if◌then◌else◌}
use agent_traffic_intelligen.Json.{Items, Fields, str, arr, obj, nil, cons, end, field}
use agent_traffic_intelligen.Runtime.{Address, Network, Moment, Runtime}
use agent_traffic_intelligen.Domain.{ActorType, VerificationState, IdentityClaim}
use agent_traffic_intelligen.Identity.Evidence.{
  VerificationEvidence, VerificationOutcome, BindingScope, VerificationMethod,
}
use agent_traffic_intelligen.Identity.Context.{VerificationContext, SourceAddressProvenance}

abbrev pub unfolded : String → String
unfolded s = s

abbrev pub acme : IdentityClaim
acme = record {
  provider = "acme";
  agent = "AcmeBot";
  actor_type = ActorType.search_crawler;
  intent = "search";
  verification_state = VerificationState.claimed;
}

-- Evidence of an authority on a subject.
abbrev pub says : VerificationOutcome → BindingScope → String → String → VerificationEvidence
says outcome binding_scope authority subject = record {
  method = VerificationMethod.official_range;
  outcome = outcome;
  binding_scope = binding_scope;
  authority = some authority;
  subject = some subject;
  explanation = "observed";
  source_uri = none;
  source_profile = none;
  retrieved_at = none;
  expires_at = none;
  source_sha256 = none;
  details = [];
}

abbrev pub confirmed : VerificationEvidence
confirmed = says VerificationOutcome.pass BindingScope.agent "acme" "AcmeBot"

abbrev pub provider_only : VerificationEvidence
provider_only = says VerificationOutcome.pass BindingScope.provider "acme" "acme"

abbrev pub denied : VerificationEvidence
denied = says VerificationOutcome.mismatch BindingScope.provider "acme" "acme"

abbrev pub foreign : VerificationEvidence
foreign = says VerificationOutcome.pass BindingScope.provider "other" "other"

abbrev pub stale_report : VerificationEvidence
stale_report = says VerificationOutcome.stale BindingScope.provider "other" "other"

-- 192.0.2.7 and 192.0.2.0/24
abbrev pub crawler_address : Address
crawler_address = record { version = 4; value = 3221225991 }

abbrev pub crawler_network : Network
crawler_network = record { version = 4; base = 3221225984; prefixlen = 24 }

abbrev pub published_prefixes : Items
published_prefixes = cons (obj (field "ipv4Prefix" (str "192.0.2.0/24") end)) nil

abbrev pub published_document : Fields
published_document =
    field "creationTime" (str "2026-01-01T00:00:00Z")
      (field "prefixes" (arr published_prefixes) end)

abbrev pub new_year : Moment
new_year = record { instant = 1767225600000000; is_aware = true }

abbrev pub runtime : Runtime
runtime = record {
  casefold = unfolded;
  load_json = λ _. some (obj published_document);
  fromisoformat = λ _. some new_year;
  isoformat = λ _. "2026-01-01T00:00:00+00:00";
  text_of = λ _. "None";
  is_one = λ _. false;
  is_iso_date = λ _. true;
  ip_address = λ s. if s == "192.0.2.7" then some crawler_address else none;
  address_text = λ _. "192.0.2.7";
  ip_network = λ _. some crawler_network;
  sha256 = λ _. "";
}

-- A request from 192.0.2.7.
abbrev pub request : VerificationContext
request = record {
  source_ip = some "192.0.2.7";
  source_address_provenance = SourceAddressProvenance.direct_peer;
  authority = some "example.com";
  method = "GET";
  target_uri = none;
  signature = none;
  signature_input = none;
  signature_agent = none;
  covered_headers = [];
}
