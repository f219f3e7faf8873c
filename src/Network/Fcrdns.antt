-- ===== src/Network/Fcrdns.antt =====
-- identity/network/fcrdns.py: forward-confirmed reverse DNS. The resolver is a parameter: `none` is
-- a lookup that raised one of `_LOOKUP_ERRORS`.
pub mod Laws
use agent_traffic_intelligen.Prelude.{
  ℕ, String, Option, none, some, List, [], ◌∷◌, Bool, true, false, ◌&&◌, ◌||◌, ◌==◌, ◌⁀◌, any,
  strip_dots, ends_with, if◌then◌else◌,
}
use agent_traffic_intelligen.Runtime.{Runtime}
use agent_traffic_intelligen.Domain.{IdentityClaim}
use agent_traffic_intelligen.Identity.Evidence.{
  VerificationEvidence, VerificationOutcome, pass, mismatch, unavailable, BindingScope, fcrdns,
  Detail, flag, text,
}
use agent_traffic_intelligen.Identity.Context.{VerificationContext, is_trusted}
use agent_traffic_intelligen.Network.Ranges.{unmapped}

-- `FcrdnsProfile`
pub record FcrdnsProfile : Type 0 where
  pub allowed_suffixes : List String
  pub binding_scope : BindingScope
  pub reviewed_on : String

-- `DnsResolver`
pub record Dns : Type 0 where
  pub reverse : String → Option (List String)
  pub forward : String → Option (List String)

abbrev pub Details : Type 0
Details = List (String × Detail)

abbrev unconfirmed : Details
unconfirmed = ("confirmed", flag false) ∷ []

-- `FcrdnsVerifier._evidence`
unfoldable pub evidence :
    IdentityClaim
    → Option FcrdnsProfile
    → VerificationOutcome
    → String
    → Details
    → VerificationEvidence
evidence claim profile outcome explanation details = record {
  method = fcrdns;
  outcome = outcome;
  binding_scope = elim profile [ none ↦ BindingScope.provider | some p ↦ p.binding_scope ];
  authority = some claim.provider;
  subject = some claim.provider;
  explanation = explanation;
  source_uri = none;
  source_profile = some (
      "provider-fcrdns-policy:" ⁀ (elim profile [ none ↦ "unavailable" | some p ↦ p.reviewed_on ]));
  retrieved_at = none;
  expires_at = none;
  source_sha256 = none;
  details = details;
}

module _ (py : Runtime) (dns : Dns) where
  -- `_normalize_hostname`
  unfoldable pub normalize_hostname : String → String
  normalize_hostname value = strip_dots (py.casefold value)

  -- `_matching_suffix`
  unfoldable pub matching_suffix : String → List String → Option String
  matching_suffix hostname [] = none
  matching_suffix hostname (suffix ∷ suffixes) =
      let normalized = strip_dots (py.casefold suffix) in
      if hostname == normalized || ends_with hostname ("." ⁀ normalized)
      then some normalized
      else matching_suffix hostname suffixes

  -- `_normalize_address`: `none` is the `ValueError` of `ip_address`.
  unfoldable pub normalize_address : String → Option String
  normalize_address value = elim (py.ip_address value) [
    | none ↦ none
    | some address ↦ some (py.address_text (unmapped address))
  ]

  -- `{self._normalize_address(item) for item in addresses}`
  unfoldable pub normalize_all : List String → Option (List String)
  normalize_all [] = some []
  normalize_all (a ∷ rest) = elim (normalize_address a) [
    | none ↦ none
    | some n ↦ elim (normalize_all rest) [ none ↦ none | some ns ↦ some (n ∷ ns) ]
  ]

  -- The list `candidates`: each host name with the suffix that it matched.
  unfoldable pub candidates : List String → List String → List (String × String)
  candidates suffixes [] = []
  candidates suffixes (raw_name ∷ names) =
      let hostname = normalize_hostname raw_name in
      elim (matching_suffix hostname suffixes) [
        | none ↦ candidates suffixes names
        | some suffix ↦ (hostname, suffix) ∷ candidates suffixes names
      ]

  -- The forward lookup of one host name: `none` is a lookup error.
  unfoldable pub forward_addresses : String → Option (List String)
  forward_addresses hostname = elim (dns.forward hostname) [
    | none ↦ none
    | some addresses ↦ normalize_all addresses
  ]

  -- The loop over the candidates; `lookup_error` is its flag.
  unfoldable pub confirm :
      IdentityClaim → FcrdnsProfile → String → Bool → List (String × String) → VerificationEvidence
  confirm claim profile source_address lookup_error [] =
      if lookup_error
      then evidence claim (some profile) unavailable "forward DNS confirmation was unavailable"
          unconfirmed
      else evidence claim (some profile) mismatch
          "forward DNS results did not contain the original source address" unconfirmed
  confirm claim profile source_address lookup_error ((hostname, suffix) ∷ rest) =
      elim (forward_addresses hostname) [
        | none ↦ confirm claim profile source_address true rest
        | some normalized ↦
            if any (λ a. a == source_address) normalized
            then evidence claim (some profile) pass
                "reverse DNS identity was confirmed by a forward lookup"
                (("confirmed", flag true) ∷ ("matched_suffix", text suffix) ∷ [])
            else confirm claim profile source_address lookup_error rest
      ]

  -- `verify`, once the reverse lookup has answered.
  unfoldable pub confirm_names :
      IdentityClaim → FcrdnsProfile → String → List String → VerificationEvidence
  confirm_names claim profile source_address names =
      elim (candidates profile.allowed_suffixes names) [
        | [] ↦
            evidence claim (some profile) mismatch
              "reverse DNS names did not match a documented provider suffix" unconfirmed
        | c ∷ cs ↦ confirm claim profile source_address false (c ∷ cs)
      ]

  -- `FcrdnsVerifier.verify`
  unfoldable pub verify :
      VerificationContext → IdentityClaim → Option FcrdnsProfile → VerificationEvidence
  verify context claim none =
      evidence claim none unavailable "provider has no documented FCrDNS verification policy"
        unconfirmed
  verify context claim (some profile) =
      let no_address =
        evidence claim (some profile) unavailable
          "a trusted ephemeral source address is unavailable for FCrDNS" unconfirmed in
      let no_reverse =
        evidence claim (some profile) unavailable "reverse DNS lookup was unavailable"
          unconfirmed in
      elim context.source_ip [
        | none ↦ no_address
        | some address ↦
            if is_trusted context.source_address_provenance
            then elim (normalize_address address) [
              | none ↦ no_reverse
              | some source_address ↦ elim (dns.reverse address) [
                | none ↦ no_reverse
                | some names ↦ confirm_names claim profile source_address names
              ]
            ]
            else no_address
      ]
