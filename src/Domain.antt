-- ===== src/Domain.antt =====
-- models.py: requests, the actor taxonomy, the state of a claimed identity, and the claim itself.
use agent_traffic_intelligen.Prelude.{ℕ, String, Option, Bool}

-- `ActorType`
pub data ActorType : Type 0 where
  human search_crawler service_crawler ai_crawler ai_user_agent browser_automation : ActorType
  scraper scanner unknown_automation unknown : ActorType

-- `VerificationState`
pub data VerificationState : Type 0 where
  unclaimed claimed verified failed conflicted : VerificationState

-- `IdentityClaim`
pub record IdentityClaim : Type 0 where
  pub provider : String
  pub agent : String
  pub actor_type : ActorType
  pub intent : String
  pub verification_state : VerificationState

-- `RequestEvent`, its timestamp as an instant in microseconds.
pub record RequestEvent : Type 0 where
  pub timestamp : ℕ
  pub request_id : String
  pub client_id : String
  pub method : String
  pub path : String
  pub status : ℕ
  pub bytes_sent : ℕ
  pub http_version : String
  pub user_agent : Option String
  pub has_referer : Bool
  pub has_cookie : Bool
  pub has_accept_language : Bool
  pub ja4 : Option String
  pub source : String
