-- ===== src/Crypto/ContentDigest.antt =====
-- identity/crypto/content_digest.py: a Content-Digest header against the body that it is about. The Structured
-- Fields parser and the hash functions are parameters.
use agent_traffic_intelligen.Prelude.{
  ℕ, String, Option, none, some, List, [], ◌∷◌, Bool, true, false, ◌==◌, ◌⁀◌, nat_eq, ◌&&◌,
  if◌then◌else◌,
}

-- A member of a Structured Fields dictionary, as its attribute `value` has it.
pub data Member : Type 0 where
  byte_sequence : List ℕ → Member
  other_value : Member

-- What parsing a dictionary gives.
pub data Dictionary : Type 0 where
  unavailable : Dictionary
  malformed : Dictionary
  members : (String → Option Member) → Dictionary

-- The algorithm that validated, or the message of a `ContentDigestError`.
pub data Validation : Type 0 where
  validated : String → Validation
  digest_error : String → Validation

-- `hmac.compare_digest`
unfoldable pub compare_digest : List ℕ → List ℕ → Bool
compare_digest [] [] = true
compare_digest (a ∷ xs) [] = false
compare_digest [] (b ∷ ys) = false
compare_digest (a ∷ xs) (b ∷ ys) = nat_eq a b && compare_digest xs ys

-- One turn of the loop, of the member and of what the later turns give without and with it.
unfoldable pub digest_turn : String → Option Member → List ℕ → Validation → Validation → Validation
digest_turn algorithm none expected absent present = absent
digest_turn algorithm (some other_value) expected absent present =
    digest_error ("Content-Digest " ⁀ (algorithm ⁀ " value must be a Byte Sequence"))
digest_turn algorithm (some (byte_sequence value)) expected absent present =
    if compare_digest value expected then validated algorithm else present

-- The loop over the supported algorithms, whether one was present so far.
unfoldable pub digest_loop :
    List (String × (List ℕ → List ℕ)) → (String → Option Member) → List ℕ → Bool → Validation
digest_loop [] dictionary body false = digest_error "Content-Digest must include sha-256 or sha-512"
digest_loop [] dictionary body true = digest_error "Content-Digest does not match response body"
digest_loop ((algorithm, digest) ∷ supported) dictionary body supported_present =
    digest_turn algorithm (dictionary algorithm) (digest body)
      (digest_loop supported dictionary body supported_present)
      (digest_loop supported dictionary body true)

module _ (sha512 sha256 : List ℕ → List ℕ) where
  abbrev pub supported_digests : List (String × (List ℕ → List ℕ))
  supported_digests = ("sha-512", sha512) ∷ ("sha-256", sha256) ∷ []

  unfoldable pub validate_dictionary : Dictionary → List ℕ → Validation
  validate_dictionary unavailable body = digest_error "Structured Fields support is unavailable"
  validate_dictionary malformed body =
      digest_error "Content-Digest must be a valid RFC 9530 dictionary"
  validate_dictionary (members dictionary) body =
      digest_loop supported_digests dictionary body false

  module _ (strip : String → String) (parse : String → Dictionary) where
    -- `validate_content_digest`
    unfoldable pub validate_content_digest : String → List ℕ → Validation
    validate_content_digest raw body =
        if strip raw == ""
        then digest_error "Content-Digest must be a valid RFC 9530 dictionary"
        else validate_dictionary (parse raw) body
