-- ===== src/Crypto/AgentCard.antt =====
-- identity/crypto/agent_card.py: the Signature Agent Card. `urlsplit` is a parameter.
use agent_traffic_intelligen.Prelude.{
  ℕ, String, Option, none, some, List, [], ◌∷◌, Bool, true, false, ◌&&◌, ◌||◌, not, ◌==◌, opt_eq,
  or_else, if◌then◌else◌,
}
use agent_traffic_intelligen.Json.{
  Json, Items, Fields, null, str, arr, obj, nil, cons, end, field, find, get,
}
use agent_traffic_intelligen.Runtime.{Runtime}
use agent_traffic_intelligen.Sources.Exchange.{SplitUri}
use agent_traffic_intelligen.Crypto.Keys.{JwkSetKey}
use agent_traffic_intelligen.Crypto.Keys.Documents.{has_field, jwk_set_of}

-- What a parser answers: a value, its own format error (or that of the key set), or the `ValueError` of
-- `urlsplit`, which it does not catch.
pub data Parsed {ℓ} (A : Type ℓ) : Type ℓ where
  done : A → Parsed A
  format_error : Parsed A
  value_error : Parsed A

infixl 5 ◌>>=◌
abbrev pub ◌>>=◌ {ℓ κ} : {A : Type ℓ} {B : Type κ} → Parsed A → (A → Parsed B) → Parsed B
done a >>= f = f a
format_error >>= f = format_error
value_error >>= f = value_error

-- A check that raises a format error.
abbrev pub require : Bool → Parsed {0} Unit
require true = done tt
require false = format_error

-- A failure that is a format error.
abbrev pub or_format_error {ℓ} : {A : Type ℓ} → Option A → Parsed A
or_format_error none = format_error
or_format_error (some a) = done a

-- `AgentCard`
pub record AgentCard : Type 0 where
  pub client_id : Option String
  pub client_name : Option String
  pub client_uri : Option String
  pub logo_uri : Option String
  pub contacts : List String
  pub jwks_uri : Option String
  pub inline_jwks : Option (List JwkSetKey)
  pub expected_user_agent : Option String
  pub robots_product_token : Option String
  pub robots_compliance : List String
  pub trigger : Option String
  pub purpose : Option String
  pub targeted_content : Option String
  pub rate_control : Option String
  pub rate_expectation : Option String
  pub known_urls : List String
  pub ips_uri : Option String

-- `_string`
unfoldable pub string : Json → Option String
string (str s) = if s == "" then none else some s
string _ = none

-- The members of a list of texts.
unfoldable pub texts : Items → Option (List String)
texts nil = some []
texts (cons (str s) rest) = elim (texts rest) [ none ↦ none | some ss ↦ some (s ∷ ss) ]
texts (cons _ rest) = none

-- `_string_tuple`
unfoldable pub string_tuple : Json → Parsed (List String)
string_tuple null = done []
string_tuple (arr items) = or_format_error (texts items)
string_tuple _ = format_error

-- Whether the object has one of the names.
unfoldable pub intersects : List String → Fields → Bool
intersects [] fields = false
intersects (name ∷ names) fields = has_field (find name fields) || intersects names fields

-- `recognized_top_level`
abbrev pub recognized_top_level : List String
recognized_top_level =
    "client_id" ∷ "client_name" ∷ "client_uri" ∷ "logo_uri" ∷ "contacts" ∷ "jwks_uri" ∷ "jwks" ∷ []

-- `recognized_web_bot_auth`
abbrev pub recognized_web_bot_auth : List String
recognized_web_bot_auth =
    "expected-user-agent" ∷ "rfc9309-product-token" ∷ "rfc9309-compliance" ∷ "trigger" ∷ "purpose"
    ∷ "targeted-content" ∷ "rate-control" ∷ "rate-expectation" ∷ "known-urls" ∷ "ips_uri" ∷ []

-- `value is None`
abbrev pub is_null : Json → Bool
is_null null = true
is_null _ = false

-- `extension`: a missing or null value is an empty object.
unfoldable pub extension_of : Json → Parsed Fields
extension_of null = done end
extension_of (obj extension) = done extension
extension_of _ = format_error

-- The check of `client_id` against the address that the card was retrieved from.
unfoldable pub is_retrieved_from : Option String → Option String → Bool
is_retrieved_from none client_id = true
is_retrieved_from (some uri) client_id = opt_eq client_id (some uri)

-- The check of `trigger`
unfoldable pub is_trigger : Option String → Bool
is_trigger none = true
is_trigger (some t) = t == "fetcher" || t == "crawler"

module _ (py : Runtime) (urlsplit : String → Option SplitUri)
    (member_digest : Fields → String) where
  unfoldable pub checked_uri : String → Option SplitUri → Parsed (Option String)
  checked_uri uri none = value_error
  checked_uri uri (some parsed) =
      if not (py.casefold parsed.scheme == "https") || or_else parsed.hostname "" == ""
      then format_error
      else if not (opt_eq parsed.username none && opt_eq parsed.password none)
      then format_error
      else done (some uri)

  unfoldable pub https_text : Option String → Parsed (Option String)
  https_text none = done none
  https_text (some uri) = checked_uri uri (urlsplit uri)

  -- `_https_uri`
  unfoldable pub https_uri : Json → Parsed (Option String)
  https_uri value = https_text (string value)

  -- `inline`: the key set of the card, where it has one.
  unfoldable pub inline_of : Json → Parsed (Option (List JwkSetKey))
  inline_of null = done none
  inline_of raw = or_format_error (jwk_set_of member_digest raw) >>= λ keys. done (some keys)

  -- The card of an object that is not empty.
  unfoldable pub card_of : Option String → Fields → Parsed AgentCard
  card_of retrieved_from decoded = do
    client_id ← https_uri (get "client_id" decoded)
    same ← require (is_retrieved_from retrieved_from client_id)
    jwks_uri ← https_uri (get "jwks_uri" decoded)
    single ← require (not (not (opt_eq jwks_uri none) && not (is_null (get "jwks" decoded))))
    inline ← inline_of (get "jwks" decoded)
    extension ← extension_of (get "web_bot_auth" decoded)
    known_trigger ← require (is_trigger (string (get "trigger" extension)))
    recognized ←
        require
          (intersects recognized_top_level decoded || intersects recognized_web_bot_auth extension)
    contacts ← string_tuple (get "contacts" decoded)
    robots_compliance ← string_tuple (get "rfc9309-compliance" extension)
    known_urls ← string_tuple (get "known-urls" extension)
    ips_uri ← https_uri (get "ips_uri" extension)
    done (record {
      client_id = client_id;
      client_name = string (get "client_name" decoded);
      client_uri = string (get "client_uri" decoded);
      logo_uri = string (get "logo_uri" decoded);
      contacts = contacts;
      jwks_uri = jwks_uri;
      inline_jwks = inline;
      expected_user_agent = string (get "expected-user-agent" extension);
      robots_product_token = string (get "rfc9309-product-token" extension);
      robots_compliance = robots_compliance;
      trigger = string (get "trigger" extension);
      purpose = string (get "purpose" extension);
      targeted_content = string (get "targeted-content" extension);
      rate_control = string (get "rate-control" extension);
      rate_expectation = string (get "rate-expectation" extension);
      known_urls = known_urls;
      ips_uri = ips_uri;
    })

  -- `parse_agent_card` of a decoded value
  unfoldable pub agent_card_of : Option String → Json → Parsed AgentCard
  agent_card_of retrieved_from (obj (field name v rest)) =
      card_of retrieved_from (field name v rest)
  agent_card_of retrieved_from _ = format_error

  -- `parse_agent_card` of bytes
  unfoldable pub parse_agent_card : List ℕ → Option String → Parsed AgentCard
  parse_agent_card content retrieved_from =
      or_format_error (py.load_json content) >>= agent_card_of retrieved_from
