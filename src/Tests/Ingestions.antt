-- ===== src/Tests/Ingestions.antt =====
-- A run over the lines of an access log.
use agent_traffic_intelligen.Prelude.{
  String, Option, none, some, List, [], ◌∷◌, false, ◌==◌, if◌then◌else◌,
}
use agent_traffic_intelligen.Prelude.Int.{ℤ, pos}
use agent_traffic_intelligen.Json.{Json, Fields, get, int, str, obj, end, field}
use agent_traffic_intelligen.Domain.{RequestEvent}
use agent_traffic_intelligen.Ingestion.{Library}
use agent_traffic_intelligen.Ingestion.Lines.{exhausted}
use agent_traffic_intelligen.Ingestion.Complete.{
  AreFrom, IsRequestOf, IsComplete, iter_jsonl-IsComplete,
}
use agent_traffic_intelligen.Tests.Sources.{py}
use agent_traffic_intelligen.Ingestion.Records.{
  is_absent, required, integer_errors, with_offset, is_rooted, rooted, get_or, full_text,
  aware_time, make_event, truthy, or_value, parse_timestamp, safe_path, pseudonymize_client,
  pseudonym_of, client_of, text_or_none, presence_flag, request_parts, request_id_of, numbers_of,
  flags_of, event_of, normalize_record,
}
use agent_traffic_intelligen.Ingestion.Lines.{
  read_payload, read_line, after_line, iter_from, iter_lines, iter_jsonl,
}
use agent_traffic_intelligen.Sources.Records.{text}

abbrev entry : Fields
entry = field "time" (str "+000") (
    field "request_method" (str "get") (
      field "uri" (str "/a?x=1")
        (field "status" (int (pos 200)) (field "remote_addr" (str "192.0.2.7") end))))

abbrev int_of : Json → Option ℤ
int_of (int n) = some n
int_of _ = none

abbrev lib : Library
lib = record {
  py = py;
  strip = λ s. s;
  upper = λ s. if s == "get" then "GET" else s;
  int_value = int_of;
  is_nonzero = λ _. false;
  split_path = λ _. some "/a";
  parse_json = λ _. some (obj entry);
  utf8 = λ _. some (49 ∷ []);
  keyed_digest = λ key encoded. some "c0ffee";
  request_digest = λ _. some "ff";
}

abbrev lines : List String
lines = "{}" ∷ "" ∷ []

abbrev event : RequestEvent
event = record {
  timestamp = 3;
  request_id = "req:ff";
  client_id = "blake2b:c0ffee";
  method = "GET";
  path = "/a";
  status = 200;
  bytes_sent = 0;
  http_version = "unknown";
  user_agent = none;
  has_referer = false;
  has_cookie = false;
  has_accept_language = false;
  ja4 = none;
  source = "jsonl";
}

iter_jsonl-IsComplete_example :
    AreFrom lib (IsRequestOf lib (some (7 ∷ []))) lines (event ∷ [])
    × IsComplete lib exhausted 1 lines 1
unfolding is_absent required integer_errors with_offset is_rooted rooted get_or full_text aware_time
    make_event truthy or_value parse_timestamp safe_path pseudonymize_client pseudonym_of client_of
    text_or_none presence_flag request_parts request_id_of numbers_of flags_of event_of
    normalize_record read_payload read_line after_line iter_from iter_lines iter_jsonl text get
iter_jsonl-IsComplete_example = iter_jsonl-IsComplete lib (some (7 ∷ [])) "jsonl" 100 lines
