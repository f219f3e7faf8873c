-- ===== src/Crypto/WebBotAuth/Conditions.antt =====
-- The conditions that a signed request has to meet, and that each stage of the checks in
-- identity/crypto/web_bot_auth.py goes on only if its own hold.
use agent_traffic_intelligen.Prelude.{
  String, Option, none, some, List, [], ◌∷◌, Bool, true, false, ◌&&◌, ◌||◌, ◌==◌, ◌≡◌, refl, inl,
  inr, any, Bool-cases, Option-cases, arith, eq_iff,
}
use agent_traffic_intelligen.Prelude.Int.{ℤ, leb_ℤ, ltb_ℤ, ◌+ℤ◌, ◌-ℤ◌}
use agent_traffic_intelligen.Json.{get}
use agent_traffic_intelligen.Crypto.Keys.{
  VerificationKey, select_key, key_active_at, algorithm_matches_key, alg_of, kty_of, jwk_of,
}
use agent_traffic_intelligen.Crypto.SignatureAgent.{SignatureAgentReference, bound_signature_agent}
use agent_traffic_intelligen.Crypto.Checks.{
  Scalar, integer, string, other, Rfc9421Result, Now, Policy, Collaborators, Check, go, ◌>>=◌,
  bind_go, require, parameter, integer_parameter, usable_keyid, has_tag, both_times,
}
use agent_traffic_intelligen.Crypto.WebBotAuth.{window_of, key_of, binding_of}

-- The conditions on the times of a signature.
pub record IsTimely (policy : Policy) (now : Now) (created expires : ℤ) : Type 0 where
  pub in_order : ltb_ℤ created expires ≡ true
  pub is_short : leb_ℤ (expires -ℤ created) policy.max_validity_seconds ≡ true
  pub has_begun : leb_ℤ created (now.timestamp +ℤ policy.clock_skew_seconds) ≡ true
  pub not_over : leb_ℤ (now.timestamp -ℤ policy.clock_skew_seconds) expires ≡ true

-- The conditions on the parameters of a signature.
pub record HasWindow (policy : Policy) (now : Now) (report : Rfc9421Result) (key_id : String)
    (expires : ℤ) : Type 0 where
  pub created : ℤ
  pub created_at : parameter "created" report.parameters ≡ some (integer created)
  pub expires_at : parameter "expires" report.parameters ≡ some (integer expires)
  pub timely : IsTimely policy now created expires
  pub named_key : parameter "keyid" report.parameters ≡ some (string key_id)
  pub not_empty : (key_id == "") ≡ false
  pub tagged : has_tag (parameter "tag" report.parameters) ≡ true
  pub covers_target :
      any (λ c. c == "@authority" || c == "@target-uri") report.covered_component_names ≡ true

-- The conditions on the key of a signature.
pub record HasKey (policy : Policy) (now : Now) (report : Rfc9421Result) (key_id : String)
    (key : VerificationKey) : Type 0 where
  pub selected : select_key policy.material key_id ≡ some key
  pub active : key_active_at key now.timestamp ≡ true
  pub compatible :
      algorithm_matches_key report.algorithm_id (alg_of key) (kty_of key) (get "crv" (jwk_of key))
      ≡ true

-- The conditions on the members of the Signature-Agent header: there is none, or one of them is
-- bound to the signature and names the registered agent.
pub data IsBound (by : Collaborators) (policy : Policy) (report : Rfc9421Result)
    : List SignatureAgentReference → Option SignatureAgentReference → Type 0 where
  unbound : IsBound by policy report [] none
  bound :
      {r : SignatureAgentReference} {rs : List SignatureAgentReference}
      (member : SignatureAgentReference)
      → bound_signature_agent by.casefold report.covered_components report.label (r ∷ rs)
        ≡ some member
      → by.canonicalize member.uri ≡ some policy.signature_agent_uri
      → IsBound by policy report (r ∷ rs) (some member)

-- A chain that begins with a required test went on because the test holds.
require_go {κ} :
    {B : Type κ} (test : Bool) (explanation : String) (f : Unit {0} → Check B) (b : B)
    → (require test explanation >>= f) ≡ go b
    → (test ≡ true) × (f tt ≡ go b)
unfolding require
require_go true explanation f b h = (refl, h)
require_go false explanation f b h = cc

go_pair :
    (a b : String) (x y : ℤ)
    → ◌≡◌ {A = Check (String × ℤ)} (go (a, x)) (go (b, y))
    → (a ≡ b) × (x ≡ y)
go_pair a b x y h = (cc, cc)

both_true : (a b : Bool) → (a && b) ≡ true → (a ≡ true) × (b ≡ true)
both_true a b h = ground arith

integer_parameter_go :
    (p : Option Scalar) (name : String) (i : ℤ)
    → integer_parameter p name ≡ go (some i)
    → p ≡ some (integer i)
unfolding integer_parameter
integer_parameter_go none name i h = cc
integer_parameter_go (some (integer j)) name i h = cc
integer_parameter_go (some (string s)) name i h = cc
integer_parameter_go (some other) name i h = cc

usable_keyid_go :
    (p : Option Scalar) (key_id : String)
    → usable_keyid p ≡ go key_id
    → (p ≡ some (string key_id)) × ((key_id == "") ≡ false)
unfolding usable_keyid
usable_keyid_go none key_id h = cc
usable_keyid_go (some (integer j)) key_id h = cc
usable_keyid_go (some other) key_id h = cc
usable_keyid_go (some (string s)) key_id h = ground arith

both_times_go :
    (a b : Option ℤ) (created expires : ℤ)
    → both_times a b ≡ go (created, expires)
    → (a ≡ some created) × (b ≡ some expires)
unfolding both_times
both_times_go (some a) (some b) created expires h = (cc, cc)
both_times_go none b created expires h = cc
both_times_go (some a) none created expires h = cc

-- The conditions from the values that the steps of `window_of` went on with.
window_of_steps :
    (policy : Policy) (now : Now) (report : Rfc9421Result) (created? expires? : Option ℤ)
    (k : String) (created ends : ℤ)
    → integer_parameter (parameter "created" report.parameters) "created" ≡ go created?
    → integer_parameter (parameter "expires" report.parameters) "expires" ≡ go expires?
    → usable_keyid (parameter "keyid" report.parameters) ≡ go k
    → has_tag (parameter "tag" report.parameters) ≡ true
    → both_times created? expires? ≡ go (created, ends)
    → (ltb_ℤ created ends && leb_ℤ (ends -ℤ created) policy.max_validity_seconds) ≡ true
    → (leb_ℤ created (now.timestamp +ℤ policy.clock_skew_seconds)
        && leb_ℤ (now.timestamp -ℤ policy.clock_skew_seconds) ends)
      ≡ true
    → any (λ c. c == "@authority" || c == "@target-uri") report.covered_component_names ≡ true
    → HasWindow policy now report k ends
window_of_steps policy now report created? expires? k created ends c e id tag both in_order timely
      covers =
    let (is_created, is_expires) = both_times_go created? expires? created ends both in
    let (named, not_empty) = usable_keyid_go (parameter "keyid" report.parameters) k id in
    let (p, q) = both_true _ _ in_order in
    let (r, s) = both_true _ _ timely in
    record {
      created = created;
      created_at =
          integer_parameter_go (parameter "created" report.parameters) "created" created cc;
      expires_at = integer_parameter_go (parameter "expires" report.parameters) "expires" ends cc;
      timely = record { in_order = p; is_short = q; has_begun = r; not_over = s };
      named_key = named;
      not_empty = not_empty;
      tagged = tag;
      covers_target = covers;
    }

pub window_go :
    (by : Collaborators) (policy : Policy) (report : Rfc9421Result) (now : Now) (key_id : String)
    (expires : ℤ)
    → window_of by policy report now ≡ go (key_id, expires)
    → HasWindow policy now report key_id expires
unfolding window_of
window_go by policy report now key_id expires h =
    let ps = report.parameters in
    let (created?, c, h1) = bind_go (integer_parameter (parameter "created" ps) "created") _ _ h in
    let (expires?, e, h2) = bind_go (integer_parameter (parameter "expires" ps) "expires") _ _ h1 in
    let (k, keyid, h3) = bind_go (usable_keyid (parameter "keyid" ps)) _ _ h2 in
    let (tag, h4) = require_go (has_tag (parameter "tag" ps)) _ _ _ h3 in
    let ((created, ends), both, h5) = bind_go (both_times created? expires?) _ _ h4 in
    let (in_order, h6) =
      require_go (ltb_ℤ created ends && leb_ℤ (ends -ℤ created) policy.max_validity_seconds) _ _ _
        h5 in
    let (timely, h7) =
      require_go
        (leb_ℤ created (now.timestamp +ℤ policy.clock_skew_seconds)
          && leb_ℤ (now.timestamp -ℤ policy.clock_skew_seconds) ends)
        _ _ _ h6 in
    let (covers, h8) =
      require_go (any (λ c. c == "@authority" || c == "@target-uri") report.covered_component_names)
        _ _ _ h7 in
    let (same_key, same_end) = go_pair k key_id ends expires h8 in
    let window : HasWindow policy now report k ends =
      window_of_steps policy now report created? expires? k created ends c e keyid tag both in_order
        timely covers in
    rw (same_key, same_end) at window

pub key_go :
    (by : Collaborators) (policy : Policy) (report : Rfc9421Result) (key_id : String) (now : Now)
    (key : VerificationKey)
    → key_of by policy report key_id now ≡ go key
    → HasKey policy now report key_id key
unfolding key_of
key_go by policy report key_id now key h = elim (Option-cases (select_key policy.material key_id)) [
  | inl e ↦ absurd (cc)
  | inr (k, e) ↦
      let (active, h1) = require_go (key_active_at k now.timestamp) _ _ _ (rw e at h) in
      let (compatible, h2) =
        require_go
          (algorithm_matches_key report.algorithm_id (alg_of k) (kty_of k) (get "crv" (jwk_of k))) _
          _ _ h1 in
      let same : k ≡ key = cc in
      let found : HasKey policy now report key_id k = record {
        selected = e;
        active = active;
        compatible = compatible;
      } in
      rw same at found
]

pub binding_go :
    (by : Collaborators) (policy : Policy) (report : Rfc9421Result)
    (references : List SignatureAgentReference) (member : Option SignatureAgentReference)
    → binding_of by policy report references ≡ go member
    → IsBound by policy report references member
unfolding binding_of
binding_go by policy report [] member h =
    let none_is : none ≡ member = cc in
    let found : IsBound by policy report [] none = unbound in rw none_is at found
binding_go by policy report (r ∷ rs) member h =
    elim (Option-cases
      (bound_signature_agent by.casefold report.covered_components report.label (r ∷ rs))) [
        | inl e ↦ absurd (cc)
        | inr (m, e) ↦ elim (Option-cases (by.canonicalize m.uri)) [
          | inl f ↦ absurd (cc)
          | inr (uri, f) ↦ elim (Bool-cases (uri == policy.signature_agent_uri)) [
            | inr d ↦ absurd (cc)
            | inl d ↦
                let same : some m ≡ member = cc in
                let found : IsBound by policy report (r ∷ rs) (some m) =
                  bound m e (ground (arith, eq_iff uri policy.signature_agent_uri)) in
                rw same at found
          ]
        ]
      ]
