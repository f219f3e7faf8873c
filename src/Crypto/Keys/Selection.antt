-- ===== src/Crypto/Keys/Selection.antt =====
-- The algorithms that `_candidate_algorithms` tries (identity/crypto/web_bot_auth.py) and those that
-- `_algorithm_matches_key` allows.
use agent_traffic_intelligen.Prelude.{
  String, Option, some, List, [], ◌∷◌, ◌++◌, Bool, true, ◌&&◌, ◌||◌, ◌==◌, ◌≡◌, refl, any, ap,
  arith, eq_iff, Exists, inl, inr, Bool-cases, if◌then◌else◌,
}
use agent_traffic_intelligen.Json.{Json, get}
use agent_traffic_intelligen.Crypto.Keys.{
  VerificationKey, KeyMaterial, keys_of, kty_of, alg_of, jwk_of, is_text, algorithm_matches_key,
  algorithms_of_key, add_new, candidates_from, candidate_algorithms,
}

-- The text is listed.
abbrev pub lists : String → List String → Bool
lists t = any (λ u. u == t)

lists_snoc : (t a : String) (xs : List String) → lists t (xs ++ a ∷ []) ≡ (lists t xs || a == t)
unfolding any
lists_snoc t a [] = ground arith
lists_snoc t a (x ∷ xs) = ground (arith, lists_snoc t a xs)

add_new-lists :
    (t : String) (xs new : List String) → lists t (add_new xs new) ≡ (lists t xs || lists t new)
unfolding add_new any
add_new-lists t xs [] = ground arith
add_new-lists t xs (a ∷ new) = elim (Bool-cases (lists a xs)) [
  | inl e ↦ elim (Bool-cases (a == t)) [
    | inl f ↦
        let there : lists t xs ≡ true = rw ((eq_iff a t).0 f) at e in
        rw e (ground (arith, add_new-lists t xs new))
    | inr f ↦ rw e (ground (arith, add_new-lists t xs new))
  ]
  | inr e ↦ rw e (ground (arith, add_new-lists t (xs ++ a ∷ []) new, lists_snoc t a xs))
]

matching :
    (algorithm kty : String) (crv : Json) (key_alg : Option String)
    → algorithm_matches_key (some algorithm) key_alg kty crv ≡ true
    → lists algorithm (
        if kty == "OKP" && is_text crv "Ed25519"
        then "ed25519" ∷ []
        else if kty == "EC" && is_text crv "P-256"
        then "ecdsa-p256-sha256" ∷ []
        else if kty == "RSA"
        then "rsa-pss-sha512" ∷ "rsa-v1_5-sha256" ∷ []
        else [])
      ≡ true
unfolding algorithm_matches_key any
matching algorithm kty crv key_alg h = elim (Bool-cases (algorithm == "ed25519")) [
  | inl e ↦
      let a : algorithm ≡ "ed25519" = (eq_iff algorithm "ed25519").0 e in
      let k : (kty == "OKP" && is_text crv "Ed25519") ≡ true = ground arith in rw (a, k) refl
  | inr e ↦ elim (Bool-cases (algorithm == "ecdsa-p256-sha256")) [
    | inl f ↦
        let a : algorithm ≡ "ecdsa-p256-sha256" = (eq_iff algorithm "ecdsa-p256-sha256").0 f in
        let k : kty ≡ "EC" = (eq_iff kty "EC").0 (ground arith) in
        let c : is_text crv "P-256" ≡ true = ground arith in rw (a, k, c) refl
    | inr f ↦
        let k : kty ≡ "RSA" = (eq_iff kty "RSA").0 (ground arith) in
        rw k (
          ground (
            arith,
            eq_iff algorithm "rsa-pss-sha512",
            eq_iff algorithm "rsa-v1_5-sha256",
            eq_iff "rsa-pss-sha512" algorithm,
            eq_iff "rsa-v1_5-sha256" algorithm,
          ))
  ]
]

matching_algorithm :
    (algorithm : String) (key : VerificationKey)
    → algorithm_matches_key (some algorithm) (alg_of key) (kty_of key) (get "crv" (jwk_of key))
      ≡ true
    → lists algorithm (algorithms_of_key key) ≡ true
unfolding algorithms_of_key
matching_algorithm algorithm key =
    matching algorithm (kty_of key) (get "crv" (jwk_of key)) (alg_of key)

candidates_kept :
    (t : String) (found : List String) (keys : List VerificationKey)
    → lists t found ≡ true
    → lists t (candidates_from found keys) ≡ true
unfolding candidates_from
candidates_kept t found [] h = h
candidates_kept t found (key ∷ keys) h =
    candidates_kept t (add_new found (algorithms_of_key key)) keys
      (ground (arith, add_new-lists t found (algorithms_of_key key)))

candidates_of_member :
    (t : String) (found : List String) (keys : List VerificationKey) (key : VerificationKey)
    → Exists (λ k. k ≡ key) keys
    → lists t (algorithms_of_key key) ≡ true
    → lists t (candidates_from found keys) ≡ true
unfolding candidates_from
candidates_of_member t found [] key m h = elim m [ ]
candidates_of_member t found (k ∷ keys) key (inl same) h =
    candidates_kept t (add_new found (algorithms_of_key k)) keys
      (ground (arith, add_new-lists t found (algorithms_of_key key), ap algorithms_of_key same))
candidates_of_member t found (k ∷ keys) key (inr later) h =
    candidates_of_member t (add_new found (algorithms_of_key k)) keys key later h

-- Every algorithm that the policy allows for some key of the verifier is among the candidates that
-- are tried, so no signature is turned away for want of trying.
pub candidate_algorithms_complete :
    (material : KeyMaterial) (key : VerificationKey) (algorithm : String)
    → Exists (λ k. k ≡ key) (keys_of material)
    → algorithm_matches_key (some algorithm) (alg_of key) (kty_of key) (get "crv" (jwk_of key))
      ≡ true
    → any (λ a. a == algorithm) (candidate_algorithms material) ≡ true
unfolding candidate_algorithms
candidate_algorithms_complete material key algorithm member h =
    candidates_of_member algorithm [] (keys_of material) key member
      (matching_algorithm algorithm key h)
