-- ===== src/Crypto/DigestMatch.antt =====
-- What a Content-Digest header that validates says of the body (identity/crypto/content_digest.py).
use agent_traffic_intelligen.Prelude.{
  ℕ, String, Option, none, some, List, [], ◌∷◌, Bool, true, false, ◌≡◌, refl, ap, Exists, inl, inr,
  ◌⊎◌, Bool-cases, arith, ◌==◌,
}
use agent_traffic_intelligen.Crypto.ContentDigest.{
  Member, byte_sequence, other_value, Dictionary, unavailable, malformed, members, Validation,
  validated, digest_error, compare_digest, digest_turn, digest_loop, supported_digests,
  validate_dictionary, validate_content_digest,
}

abbrev algorithm_of : Validation → String
algorithm_of (validated name) = name
algorithm_of (digest_error e) = e

compare_lem : (value expected : List ℕ) → compare_digest value expected ≡ true → value ≡ expected
unfolding compare_digest
compare_lem [] [] h = refl
compare_lem (a ∷ value) [] h = cc
compare_lem [] (b ∷ expected) h = cc
compare_lem (a ∷ value) (b ∷ expected) h =
    let first : (a ≡ b) = ground arith in
    let rest : (value ≡ expected) = compare_lem value expected (ground arith) in cc

name_lem : (name algorithm : String) → validated name ≡ validated algorithm → name ≡ algorithm
name_lem name algorithm h = ap algorithm_of h

turn_lem :
    (name algorithm : String) (o : Option Member) (expected : List ℕ) (absent present : Validation)
    → digest_turn name o expected absent present ≡ validated algorithm
    → ((name ≡ algorithm) × (o ≡ some (byte_sequence expected)))
      ⊎ ((absent ≡ validated algorithm) ⊎ (present ≡ validated algorithm))
unfolding digest_turn
turn_lem name algorithm none expected absent present h = inr (inl h)
turn_lem name algorithm (some other_value) expected absent present h = cc
turn_lem name algorithm (some (byte_sequence value)) expected absent present h =
    elim (Bool-cases (compare_digest value expected)) [
      | inl e ↦ inl (
        name_lem name algorithm (rw e at h),
        ap (λ v. some (byte_sequence v)) (compare_lem value expected e),
      )
      | inr e ↦ inr (inr (rw e at h))
    ]

-- A supported algorithm under whose name the dictionary has the digest of the body.
abbrev pub IsDigestOf :
    (String → Option Member) → List ℕ → String → (String × (List ℕ → List ℕ)) → Type 0
IsDigestOf dictionary body algorithm (name, digest) =
    (name ≡ algorithm) × (dictionary name ≡ some (byte_sequence (digest body)))

loop-IsDigestOf :
    (supported : List (String × (List ℕ → List ℕ))) (dictionary : String → Option Member)
    (body : List ℕ) (supported_present : Bool) (algorithm : String)
    → digest_loop supported dictionary body supported_present ≡ validated algorithm
    → Exists (IsDigestOf dictionary body algorithm) supported
unfolding digest_loop
loop-IsDigestOf [] dictionary body false algorithm h = cc
loop-IsDigestOf [] dictionary body true algorithm h = cc
loop-IsDigestOf ((name, digest) ∷ supported) dictionary body supported_present algorithm h =
    elim (turn_lem name algorithm (dictionary name) (digest body) _ _ h) [
      | inl here ↦ inl here
      | inr (inl absent) ↦
          inr (loop-IsDigestOf supported dictionary body supported_present algorithm absent)
      | inr (inr present) ↦ inr (loop-IsDigestOf supported dictionary body true algorithm present)
    ]

module _ (sha512 sha256 : List ℕ → List ℕ) where
  dictionary-IsDigestOf :
      (d : Dictionary) (body : List ℕ) (algorithm : String)
      → validate_dictionary sha512 sha256 d body ≡ validated algorithm
      → (dictionary : String → Option Member) × (d ≡ members dictionary)
        × Exists (IsDigestOf dictionary body algorithm) (supported_digests sha512 sha256)
  unfolding validate_dictionary
  dictionary-IsDigestOf unavailable body algorithm h = cc
  dictionary-IsDigestOf malformed body algorithm h = cc
  dictionary-IsDigestOf (members dictionary) body algorithm h =
      (dictionary, refl, loop-IsDigestOf _ dictionary body false algorithm h)

  -- A header that validates is a dictionary that has, under the name of the algorithm that is reported, a byte
  -- sequence that is the digest of the body by that algorithm.
  pub validated-IsDigestOf :
      (strip : String → String) (parse : String → Dictionary) (raw : String) (body : List ℕ)
      (algorithm : String)
      → validate_content_digest sha512 sha256 strip parse raw body ≡ validated algorithm
      → (dictionary : String → Option Member) × (parse raw ≡ members dictionary)
        × Exists (IsDigestOf dictionary body algorithm) (supported_digests sha512 sha256)
  unfolding validate_content_digest
  validated-IsDigestOf strip parse raw body algorithm h = elim (Bool-cases (strip raw == "")) [
    | inl e ↦ cc (rw e at h)
    | inr e ↦ dictionary-IsDigestOf (parse raw) body algorithm (rw e at h)
  ]
