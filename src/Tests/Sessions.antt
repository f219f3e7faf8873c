-- ===== src/Tests/Sessions.antt =====
-- A session state that holds as many clients as it may.
use agent_traffic_intelligen.Prelude.{String, none, [], ◌∷◌, Bool, false, arith}
use agent_traffic_intelligen.Domain.{RequestEvent}
use agent_traffic_intelligen.Features.Session.{SessionFeatureState, update}
use agent_traffic_intelligen.Features.Session.Bounds.{IsBounded, update-IsBounded}

abbrev pub first_event : RequestEvent
first_event = record {
  timestamp = 1000000;
  request_id = "r1";
  client_id = "a";
  method = "GET";
  path = "/";
  status = 200;
  bytes_sent = 0;
  http_version = "HTTP/1.1";
  user_agent = none;
  has_referer = false;
  has_cookie = false;
  has_accept_language = false;
  ja4 = none;
  source = "unknown";
}

abbrev second_event : RequestEvent
second_event = record first_event { request_id = "r2"; client_id = "b"; timestamp = 2000000 }

abbrev pub no_asset : String → Bool
no_asset path = false

-- One client of at most one.
abbrev full_state : SessionFeatureState
full_state = record {
  max_events = 2;
  max_clients = 1;
  window = 300000000;
  histories = ("a", record { event = first_event; is_asset = false } ∷ []) ∷ [];
  evicted_clients = 0;
}

full_IsBounded : IsBounded full_state
full_IsBounded = record {
  has_room = omega arith;
  bounded = omega arith;
  histories =
      (record { bounded = omega arith; ordered = (tt, tt); within = ((omega arith, tt), tt) }, tt);
}

update-IsBounded_example : IsBounded (update no_asset full_state second_event)
update-IsBounded_example = update-IsBounded no_asset full_state second_event full_IsBounded
