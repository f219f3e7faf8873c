-- ===== src/Ingestion/Records.antt =====
-- ingestion/jsonl.py: one record.
use Prim.Native.Char.{code}
use agent_traffic_intelligen.Prelude.{
  ℕ, String, Option, none, some, List, [], ◌∷◌, Bool, true, false, ◌&&◌, ◌||◌, not, ◌==◌, ◌⁀◌,
  nat_eq, nonempty, leb, if◌then◌else◌,
}
use agent_traffic_intelligen.Prelude.Int.{ℤ, pos, leb_ℤ, ltb_ℤ, pos_part}
use agent_traffic_intelligen.Json.{
  Json, Fields, null, bool, int, float, str, arr, obj, nil, cons, end, field, find, get,
}
use agent_traffic_intelligen.Runtime.{Moment}
use agent_traffic_intelligen.Domain.{RequestEvent}
use agent_traffic_intelligen.Sources.Records.{text}
use agent_traffic_intelligen.Ingestion.{
  Outcome, done, parse_error, ◌>>=◌, or_parse_error, or_other, Library,
}

-- `value is None or value == ""`
unfoldable pub is_absent : Json → Bool
is_absent null = true
is_absent (str s) = s == ""
is_absent _ = false

-- `_required`
unfoldable pub required : List String → Fields → Outcome Json
required [] record_fields = parse_error "missing required field"
required (name ∷ names) record_fields =
    let others = required names record_fields in
    if is_absent (get name record_fields) then others else done (get name record_fields)

-- The `except` clause around the numbers: a missing field is reported as one that is no integer.
unfoldable pub integer_errors : Outcome Json → Outcome Json
integer_errors (parse_error e) = parse_error "status and bytes fields must be integers"
integer_errors o = o

-- `value[:-1] + "+00:00" if value.endswith("Z") else value`
unfoldable pub with_offset : String → String
with_offset String.[] = ""
with_offset (String.◌∷◌ c String.[]) =
    if nat_eq (code c) b'Z' then "+00:00" else String.◌∷◌ c String.[]
with_offset (String.◌∷◌ c (String.◌∷◌ d s)) = String.◌∷◌ c (with_offset (String.◌∷◌ d s))

-- `path.startswith("/")`
unfoldable pub is_rooted : String → Bool
is_rooted String.[] = false
is_rooted (String.◌∷◌ c s) = nat_eq (code c) b'/'

-- `split.path or "/"`, with a slash in front
unfoldable pub rooted : String → String
unfolding is_rooted
rooted path =
    let chosen = (if path == "" then "/" else path) in
    if is_rooted chosen then chosen else "/" ⁀ chosen

-- `record.get(name, other)`
unfoldable pub get_or : Option Json → Json → Json
get_or none other = other
get_or (some v) other = v

-- A text that is not empty.
unfoldable pub full_text : Json → Option String
full_text (str s) = if s == "" then none else some s
full_text _ = none

-- `_parse_timestamp`
unfoldable pub aware_time : Option Moment → Outcome Moment
aware_time none = parse_error "timestamp must be valid ISO-8601"
aware_time (some t) = if t.is_aware then done t else parse_error "timestamp must be timezone-aware"

-- The texts of a flag
unfoldable pub flag_of_text : String → Outcome Bool
flag_of_text t =
    if t == "true" || (t == "1" || (t == "yes" || t == "on"))
    then done true
    else if t == "false" || (t == "0" || (t == "no" || (t == "off" || t == "")))
    then done false
    else parse_error "flag must be a boolean or a recognized boolean string"

-- `RequestEvent.__post_init__`, of an aware timestamp: `none` for its `ValueError`s.
unfoldable pub make_event : RequestEvent → Option RequestEvent
make_event e =
    if e.request_id == "" || (e.client_id == "" || e.method == "")
    then none
    else if not (is_rooted e.path)
    then none
    else if not (leb 100 e.status && leb e.status 599)
    then none
    else some e

module _ (lib : Library) where
  -- `bool(value)`
  unfoldable pub truthy : Json → Bool
  truthy null = false
  truthy (bool b) = b
  truthy (int n) = not (leb_ℤ n (pos 0) && leb_ℤ (pos 0) n)
  truthy (float s) = lib.is_nonzero s
  truthy (str s) = not (s == "")
  truthy (arr nil) = false
  truthy (arr (cons x xs)) = true
  truthy (obj end) = false
  truthy (obj (field n v rest)) = true

  -- `value or default`
  unfoldable pub or_value : Json → Json → Json
  or_value v default = if truthy v then v else default

  unfoldable pub parse_timestamp : Json → Outcome Moment
  parse_timestamp (str s) = aware_time (lib.py.fromisoformat (with_offset s))
  parse_timestamp _ = parse_error "timestamp must be an ISO-8601 string"

  -- `_safe_path`
  unfoldable pub safe_path : Json → Outcome String
  safe_path value = do
    text ← or_parse_error "request path must be a non-empty string" (full_text value)
    path ← or_other (lib.split_path text)
    done (rooted path)

  -- `pseudonymize_client`
  unfoldable pub pseudonymize_client : String → List ℕ → Outcome String
  pseudonymize_client raw_address hash_key = do
    key ←
        (if nonempty hash_key
          then done hash_key
          else parse_error "a non-empty hash key is required for raw client addresses")
    encoded_address ← or_parse_error "client address must be valid UTF-8" (lib.utf8 raw_address)
    digest ← or_other (lib.keyed_digest key encoded_address)
    done ("blake2b:" ⁀ digest)

  unfoldable pub pseudonym_of : String → Option (List ℕ) → Outcome String
  pseudonym_of raw_address none =
      parse_error "a hash key is required when a raw client address is present"
  pseudonym_of raw_address (some hash_key) = pseudonymize_client raw_address hash_key

  -- `client_id`, of the supplied value and the raw address
  unfoldable pub client_of : Option String → Json → Option (List ℕ) → Outcome String
  client_of (some supplied) raw hash_key = done supplied
  client_of none raw hash_key = do
    raw_address ← or_parse_error "record needs client_id or a raw client address" (full_text raw)
    pseudonym_of raw_address hash_key

  -- `str(value) if value not in (None, "") else None`
  unfoldable pub text_or_none : Json → Option String
  text_or_none v = if is_absent v then none else some (text lib.py v)

  unfoldable pub flag_of : Json → Outcome Bool
  flag_of (bool b) = done b
  flag_of (int n) =
      if leb_ℤ n (pos 0) && leb_ℤ (pos 0) n
      then done false
      else if leb_ℤ n (pos 1) && leb_ℤ (pos 1) n
      then done true
      else parse_error "flag must be a boolean or a recognized boolean string"
  flag_of (str s) = flag_of_text (lib.py.casefold (lib.strip s))
  flag_of _ = parse_error "flag must be a boolean or a recognized boolean string"

  -- `_presence_flag`, of what the flag's name has and of the header's value
  unfoldable pub presence_flag : Option Json → Json → Outcome Bool
  presence_flag none header = done (truthy header)
  presence_flag (some value) header = flag_of value

  -- The parts of `_request_id`
  unfoldable pub request_parts : Moment → String → String → String → ℤ → Option ℕ → List String
  request_parts timestamp client_id method path status none =
      lib.py.isoformat timestamp
      ∷ client_id
      ∷ lib.upper method
      ∷ path
      ∷ lib.py.text_of (int status)
      ∷ []
  request_parts timestamp client_id method path status (some line_number) =
      lib.py.isoformat timestamp
      ∷ client_id
      ∷ lib.upper method
      ∷ path
      ∷ lib.py.text_of (int status)
      ∷ lib.py.text_of (int (pos line_number))
      ∷ []

  unfoldable pub request_id_of : Option String → List String → Outcome String
  request_id_of (some given) parts = done given
  request_id_of none parts =
      or_other (lib.request_digest parts) >>= λ digest. done ("req:" ⁀ digest)

  -- The status and the length of `normalize_record`
  unfoldable pub numbers_of : Fields → Outcome (ℤ × ℤ)
  numbers_of fields = do
    raw_status ← integer_errors (required ("status" ∷ []) fields)
    status ← or_parse_error "status and bytes fields must be integers" (lib.int_value raw_status)
    bytes_sent ← or_parse_error "status and bytes fields must be integers" (
        lib.int_value (
          or_value
            (get_or (find "bytes_sent" fields)
              (get_or (find "body_bytes_sent" fields) (int (pos 0))))
            (int (pos 0))))
    status_checked ←
        (if leb_ℤ (pos 100) status && leb_ℤ status (pos 599)
          then done status
          else parse_error "status must be a valid HTTP status")
    (if ltb_ℤ bytes_sent (pos 0)
        then parse_error "bytes_sent must be non-negative"
        else done (status_checked, bytes_sent))

  -- The three flags of `normalize_record`
  unfoldable pub flags_of : Fields → Outcome (Bool × Bool × Bool)
  flags_of fields = do
    has_referer ← presence_flag (find "has_referer" fields) (get "http_referer" fields)
    has_cookie ← presence_flag (find "has_cookie" fields) (get "http_cookie" fields)
    has_accept_language ←
        presence_flag (find "has_accept_language" fields) (get "http_accept_language" fields)
    done (has_referer, has_cookie, has_accept_language)

  -- The constructor's call of `normalize_record`
  unfoldable pub event_of :
      Fields
      → String
      → Moment
      → String
      → String
      → ℤ × ℤ
      → String
      → String
      → Bool × Bool × Bool
      → RequestEvent
  event_of fields source timestamp method path (status, bytes_sent) client_id request_id
        (has_referer, has_cookie, has_accept_language) =
      record {
        timestamp = timestamp.instant;
        request_id = request_id;
        client_id = client_id;
        method = method;
        path = path;
        status = pos_part status;
        bytes_sent = pos_part bytes_sent;
        http_version = text lib.py (
            or_value
              (get_or (find "http_version" fields)
                (get_or (find "server_protocol" fields) (str "unknown")))
              (str "unknown"));
        user_agent =
            text_or_none (get_or (find "user_agent" fields) (get "http_user_agent" fields));
        has_referer = has_referer;
        has_cookie = has_cookie;
        has_accept_language = has_accept_language;
        ja4 = text_or_none (get "ja4" fields);
        source = source;
      }

  -- `normalize_record`
  unfoldable pub normalize_record :
      Fields → Option (List ℕ) → String → Option ℕ → Outcome RequestEvent
  normalize_record fields hash_key source line_number = do
    raw_time ← required ("timestamp" ∷ "time_iso8601" ∷ "time" ∷ []) fields
    timestamp ← parse_timestamp raw_time
    raw_method ← required ("method" ∷ "request_method" ∷ []) fields
    raw_path ← required ("path" ∷ "request_uri" ∷ "uri" ∷ []) fields
    path ← safe_path raw_path
    numbers ← numbers_of fields
    client_id ←
        client_of (full_text (get "client_id" fields))
          (get_or (find "remote_addr" fields) (get "client_ip" fields)) hash_key
    request_id ← request_id_of (text_or_none (get "request_id" fields)) (
        request_parts timestamp client_id (lib.upper (text lib.py raw_method)) path numbers.1
          line_number)
    flags ← flags_of fields
    or_other (
        make_event (
          event_of fields source timestamp (lib.upper (text lib.py raw_method)) path numbers
            client_id request_id flags))
