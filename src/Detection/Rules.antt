-- ===== src/Detection/Rules.antt =====
-- rules/baseline.py and the request-local features that it reads. The search for a generic bot name is a
-- regular expression and a parameter.
use agent_traffic_intelligen.Prelude.{
  ℕ, ◌+◌, String, Option, none, some, List, [], ◌∷◌, ◌++◌, Bool, true, false, ◌&&◌, ◌==◌, ◌⁀◌,
  or_else, leb, ltb, nat_eq, not, count_if, split_at, if◌then◌else◌,
}
use agent_traffic_intelligen.Domain.{RequestEvent}
use agent_traffic_intelligen.Detection.Floats.{Floats, Evidence, Snapshot}
use agent_traffic_intelligen.Detection.Registry.{RegistryEntry}

-- The features of a request
pub record RequestFeatures : Type 0 where
  pub path_depth : ℕ
  pub is_asset : Bool
  pub is_error : Bool
  pub has_cookie : Bool
  pub has_referer : Bool
  pub has_accept_language : Bool

-- `path_depth`
unfoldable pub path_depth : String → ℕ
path_depth path = count_if (λ s. not (s == "")) (split_at b'/' path)

-- `request_features`
unfoldable pub request_features : (String → Bool) → RequestEvent → RequestFeatures
unfolding path_depth
request_features is_asset_path event = record {
  path_depth = path_depth event.path;
  is_asset = is_asset_path event.path;
  is_error = leb 400 event.status;
  has_cookie = event.has_cookie;
  has_referer = event.has_referer;
  has_accept_language = event.has_accept_language;
}

module _ (fl : Floats) where
  abbrev pub deltas : String → String → String → String → List (String × fl.F)
  deltas automation ai identity risk =
      ("automation", fl.lit automation)
      ∷ ("ai", fl.lit ai)
      ∷ ("identity", fl.lit identity)
      ∷ ("risk", fl.lit risk)
      ∷ []

  unfoldable pub rule : String → String → String → List (String × fl.F) → Evidence fl.F
  rule code source description score_deltas = record {
    code = code;
    source = source;
    description = description;
    strength = fl.lit "1.0";
    score_deltas = score_deltas;
  }

  -- The first evidence of `identity_evidence`
  unfoldable pub known_agent : RegistryEntry → Evidence fl.F
  known_agent entry =
      rule "known-agent-ua-claim" "registry"
        ("User-Agent claims the curated "
          ⁀ (entry.provider
              ⁀ ("/"
                  ⁀ (entry.agent
                      ⁀ " identity; User-Agent alone is spoofable and is not verification."))))
        (deltas "4.0" (if entry.ai_related then "4.6" else "-0.5") "0.8" "0.0")

  -- `identity_evidence`
  unfoldable pub identity_evidence :
      (String → Bool) → Option String → Option RegistryEntry → List (Evidence fl.F)
  identity_evidence generic_bot user_agent (some entry) = known_agent entry ∷ []
  identity_evidence generic_bot user_agent none =
      if or_else user_agent "" == ""
      then []
      else if generic_bot (or_else user_agent "")
      then rule "generic-automation-ua" "user-agent"
          "User-Agent contains a common automation token but has no verified identity."
          (deltas "1.3" "0.0" "0.0" "0.1")
        ∷ []
      else []

  -- `evidence.append(...)` under a condition
  abbrev pub when : Bool → Evidence fl.F → List (Evidence fl.F)
  when true e = e ∷ []
  when false e = []

  abbrev pub signal : Bool → ℕ
  signal true = 1
  signal false = 0

  -- `sum(bool(features.get(name)) for name in ...)`
  unfoldable pub browser_context_signals : RequestFeatures → ℕ
  browser_context_signals f =
      signal f.has_cookie + signal f.has_referer + signal f.has_accept_language

  -- `behavior_evidence`, on the features of a request and its session
  unfoldable pub behavior_evidence : RequestFeatures → Snapshot fl.F → List (Evidence fl.F)
  behavior_evidence event s =
      if ltb s.session_request_count 5
      then []
      else when (fl.le s.asset_ratio (fl.lit "0.10")) (
          rule "html-heavy-session" "behavior"
            "Session requested almost no static/browser assets across multiple requests."
            (deltas "1.25" "0.0" "0.0" "0.15"))
        ++ (when
              (fl.lt (fl.lit "0") s.mean_interarrival_seconds
                && fl.le s.interarrival_cv (fl.lit "0.10"))
              (rule "regular-request-cadence" "behavior"
                "Inter-request timing is unusually regular for the observed session window."
                (deltas "0.8" "0.0" "0.0" "0.1"))
            ++ (when (leb 6 s.session_request_count && fl.le (fl.lit "0.50") s.error_ratio) (
                  rule "high-error-ratio" "behavior"
                    "A high fraction of session requests returned client/server errors."
                    (deltas "0.5" "0.0" "0.0" "3.0"))
                ++ (when
                      (leb 10 s.session_request_count && fl.le (fl.lit "120") s.requests_per_minute)
                      (rule "high-request-rate" "behavior"
                        "Session request rate exceeds the conservative V0 high-rate threshold."
                        (deltas "0.7" "0.0" "0.0" "1.5"))
                    ++ when
                        (nat_eq (browser_context_signals event) 3
                          && fl.le (fl.lit "0.20") s.asset_ratio)
                        (rule "browser-context-present" "behavior"
                          "Session exhibits multiple normal browser context and asset-loading signals."
                          (deltas "-0.5" "0.0" "0.0" "-0.2")))))

  -- `behavior_evidence` where the session has no features
  unfoldable pub session_evidence : RequestFeatures → Option (Snapshot fl.F) → List (Evidence fl.F)
  session_evidence event none = []
  session_evidence event (some s) = behavior_evidence event s
