-- ===== src/Ingestion/Lines.antt =====
-- ingestion/jsonl.py: the verification context of a record, and the loop over the lines. A generator is the
-- list of what it yields with the error that ends it, if one does.
use agent_traffic_intelligen.Prelude.{
  ℕ, suc, String, Option, none, some, List, [], ◌∷◌, Bool, true, false, ◌==◌, ◌⁀◌, length, codes,
  ltb, or_else, if◌then◌else◌,
}
use agent_traffic_intelligen.Json.{Json, Fields, obj, get}
use agent_traffic_intelligen.Domain.{RequestEvent}
use agent_traffic_intelligen.Identity.Context.{VerificationContext, SourceAddressProvenance}
use agent_traffic_intelligen.Crypto.Components.{strip_prefix}
use agent_traffic_intelligen.Sources.Records.{text}
use agent_traffic_intelligen.Ingestion.{Outcome, done, parse_error, other_error, ◌>>=◌, Library}
use agent_traffic_intelligen.Ingestion.Records.{is_absent, is_rooted, normalize_record}

-- How a run over lines ends: at its end, with a `ParseError` of a line, with another exception, or, before the
-- first line, with a `ValueError`.
pub data Ending : Type 0 where
  exhausted : Ending
  bad_line : ℕ → String → Ending
  failed : Ending

-- `_SAFE_CONTEXT_HEADERS`
abbrev pub safe_context_headers : List (String × List String)
safe_context_headers =
    ("content-digest", "content_digest" ∷ "http_content_digest" ∷ [])
    ∷ ("digest", "digest" ∷ "http_digest" ∷ [])
    ∷ ("content-type", "content_type" ∷ "http_content_type" ∷ [])
    ∷ ("date", "date" ∷ "http_date" ∷ [])
    ∷ ("accept", "accept" ∷ "http_accept" ∷ [])
    ∷ ("accept-language", "accept_language" ∷ "http_accept_language" ∷ [])
    ∷ ("user-agent", "user_agent" ∷ "http_user_agent" ∷ [])
    ∷ []

-- `text.startswith(prefix)`
abbrev pub is_some {ℓ} : {A : Type ℓ} → Option A → Bool
is_some none = false
is_some (some _) = true

-- The target, made absolute.
unfoldable pub absolute_target : Option String → String → String → String
absolute_target scheme authority raw_target =
    if is_some (strip_prefix "http://" raw_target)
    then raw_target
    else if is_some (strip_prefix "https://" raw_target)
    then raw_target
    else or_else scheme "https"
      ⁀ ("://" ⁀ (authority ⁀ (if is_rooted raw_target then raw_target else "/" ⁀ raw_target)))

-- `_ephemeral_target_uri`, of the texts that it reads
unfoldable pub target_uri_of :
    Option String → Option String → Option String → Option String → Option String
target_uri_of (some explicit) authority target scheme = some explicit
target_uri_of none (some authority) (some target) scheme =
    some (absolute_target scheme authority target)
target_uri_of none _ _ scheme = none

-- `_ephemeral_source_address`, of the address
unfoldable pub provenance_of : Option String → SourceAddressProvenance
provenance_of none = SourceAddressProvenance.unknown
provenance_of (some _) = SourceAddressProvenance.direct_peer

unfoldable pub with_header :
    String → Option String → List (String × String) → List (String × String)
with_header name none rest = rest
with_header name (some value) rest = (name, value) ∷ rest

module _ (lib : Library) where
  -- `_optional_string`
  unfoldable pub optional_string_of : List String → Fields → Option String
  optional_string_of [] fields = none
  optional_string_of (name ∷ names) fields =
      let others = optional_string_of names fields in
      if is_absent (get name fields) then others else some (text lib.py (get name fields))

  -- `_safe_ephemeral_headers`
  unfoldable pub headers_of : List (String × List String) → Fields → List (String × String)
  headers_of [] fields = []
  headers_of ((name, aliases) ∷ rest) fields =
      with_header name (optional_string_of aliases fields) (headers_of rest fields)

  abbrev pub authority_of : Fields → Option String
  authority_of = optional_string_of ("authority" ∷ "host" ∷ "http_host" ∷ "server_name" ∷ [])

  -- The context of `normalize_record_with_context`
  unfoldable pub context_of : Fields → RequestEvent → VerificationContext
  context_of fields event = record {
    source_ip = optional_string_of ("remote_addr" ∷ "client_ip" ∷ []) fields;
    source_address_provenance =
        provenance_of (optional_string_of ("remote_addr" ∷ "client_ip" ∷ []) fields);
    authority = authority_of fields;
    method = event.method;
    target_uri =
        target_uri_of (optional_string_of ("target_uri" ∷ []) fields) (authority_of fields)
          (optional_string_of ("request_uri" ∷ "uri" ∷ "path" ∷ []) fields)
          (optional_string_of ("scheme" ∷ []) fields);
    signature = optional_string_of ("signature" ∷ "http_signature" ∷ []) fields;
    signature_input = optional_string_of ("signature_input" ∷ "http_signature_input" ∷ []) fields;
    signature_agent = optional_string_of ("signature_agent" ∷ "http_signature_agent" ∷ []) fields;
    covered_headers = headers_of safe_context_headers fields;
  }

  -- `normalize_record_with_context`
  unfoldable pub normalize_record_with_context :
      Fields → Option (List ℕ) → String → Option ℕ → Outcome (RequestEvent × VerificationContext)
  normalize_record_with_context fields hash_key source line_number =
      normalize_record lib fields hash_key source line_number >>= λ event.
      done (event, context_of fields event)

  module _ {A : Type 0} (normalize : Fields → ℕ → Outcome A) where
    -- A line that has content, as the loop takes it.
    unfoldable pub read_payload : ℕ → Option Json → Outcome A
    read_payload n none = parse_error "invalid JSON"
    read_payload n (some (obj fields)) = normalize fields n
    read_payload n (some _) = parse_error "expected a JSON object"

    -- What a line gives: nothing, or a value.
    unfoldable pub read_line : ℕ → ℕ → String → Outcome (Option A)
    read_line max_characters n line =
        if ltb max_characters (length (codes line))
        then parse_error "exceeds configured character limit"
        else if lib.strip line == ""
        then done none
        else read_payload n (lib.parse_json line) >>= λ a. done (some a)

    unfoldable pub after_line : ℕ → Outcome (Option A) → List A × Ending → List A × Ending
    after_line n (done none) rest = rest
    after_line n (done (some a)) (yielded, ending) = (a ∷ yielded, ending)
    after_line n (parse_error e) rest = ([], bad_line n e)
    after_line n other_error rest = ([], failed)

    -- The loop from line n.
    unfoldable pub iter_from : ℕ → ℕ → List String → List A × Ending
    iter_from max_characters n [] = ([], exhausted)
    iter_from max_characters n (line ∷ lines) =
        after_line n (read_line max_characters n line) (iter_from max_characters (suc n) lines)

    unfoldable pub iter_lines : ℕ → List String → List A × Ending
    iter_lines max_characters lines =
        if ltb max_characters 1 then ([], failed) else iter_from max_characters 1 lines

  -- `iter_jsonl`
  unfoldable pub iter_jsonl :
      Option (List ℕ) → String → ℕ → List String → List RequestEvent × Ending
  iter_jsonl hash_key source =
      iter_lines (λ fields n. normalize_record lib fields hash_key source (some n))

  -- `iter_jsonl_with_context`
  unfoldable pub iter_jsonl_with_context :
      Option (List ℕ)
      → String
      → ℕ
      → List String
      → List (RequestEvent × VerificationContext) × Ending
  iter_jsonl_with_context hash_key source =
      iter_lines (λ fields n. normalize_record_with_context fields hash_key source (some n))
