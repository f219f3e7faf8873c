-- ===== src/Ingestion.antt =====
-- ingestion/jsonl.py: access-log records to normalized requests. Errors are `ParseError` with its message
-- (without the names and the line number that it is given), or another exception.
pub mod Records
pub mod Lines
pub mod Normalized
pub mod Complete
use agent_traffic_intelligen.Prelude.{
  ℕ, String, Option, none, some, List, Bool, ◌==◌, if◌then◌else◌,
}
use agent_traffic_intelligen.Prelude.Int.{ℤ}
use agent_traffic_intelligen.Json.{Json}
use agent_traffic_intelligen.Runtime.{Runtime}

pub data Outcome {ℓ} (A : Type ℓ) : Type ℓ where
  done : A → Outcome A
  parse_error : String → Outcome A
  other_error : Outcome A

infixl 5 ◌>>=◌
abbrev pub ◌>>=◌ {ℓ κ} : {A : Type ℓ} {B : Type κ} → Outcome A → (A → Outcome B) → Outcome B
done a >>= f = f a
parse_error e >>= f = parse_error e
other_error >>= f = other_error

abbrev pub or_parse_error {ℓ} : {A : Type ℓ} → String → Option A → Outcome A
or_parse_error e none = parse_error e
or_parse_error e (some a) = done a

abbrev pub or_other {ℓ} : {A : Type ℓ} → Option A → Outcome A
or_other none = other_error
or_other (some a) = done a

-- The functions of Python that the parser calls.
pub record Library : Type 0 where
  pub py : Runtime
  -- `str.strip()` and `str.upper()`
  pub strip : String → String
  pub upper : String → String
  -- `int(value)`: `none` for a `TypeError`, `ValueError` or `OverflowError`
  pub int_value : Json → Option ℤ
  -- whether a number that is written with a fraction or an exponent is not 0
  pub is_nonzero : String → Bool
  -- `urlsplit(value).path`: `none` for a `ValueError`
  pub split_path : String → Option String
  -- `json.loads` of a line: `none` for a `JSONDecodeError`
  pub parse_json : String → Option Json
  -- `str.encode("utf-8")`: `none` for a `UnicodeEncodeError`
  pub utf8 : String → Option (List ℕ)
  -- the `blake2b` of bytes, with a key: `none` for the `ValueError` of a key that is too long
  pub keyed_digest : List ℕ → List ℕ → Option String
  -- the `blake2b` of a request's parts, joined and in UTF-8: `none` where they have no UTF-8 form
  pub request_digest : List String → Option String
