-- ===== src/Network/Official/Laws.antt =====
-- When identity/network/verifier.py confirms or denies a claim.
use agent_traffic_intelligen.Prelude.{
  String, Option, none, some, true, false, ◌≡◌, ◌≢◌, ◌↔◌, ◌⊎◌, refl, ◌==◌, or_else, arith, eq_iff,
  Option-cases, inl, inr, any, if◌then◌else◌, sym, ◌∙◌, Bool-cases,
}
use agent_traffic_intelligen.Runtime.{Runtime, Address}
use agent_traffic_intelligen.Domain.{IdentityClaim}
use agent_traffic_intelligen.Identity.Evidence.{
  VerificationOutcome, pass, mismatch, indeterminate, error,
}
use agent_traffic_intelligen.Identity.Context.{VerificationContext, is_trusted}
use agent_traffic_intelligen.Sources.Documents.{SourceDocument}
use agent_traffic_intelligen.Network.Ranges.{
  Result, ok, err, bind_ok, RangeMatch, PublishedRangeSet, is_candidate, unmapped,
}
use agent_traffic_intelligen.Network.Ranges.Matching.{match_sound}
use agent_traffic_intelligen.Network.Official.{
  NegativeSemantics, authoritative_negative, RangeSourceProfile, evidence, is_authoritative,
  is_other_agent, parse_ranges, look_up, report, verify,
}

-- The document is the claimed provider's, at the profile's address, and for the claimed agent if
-- for one at all; and the source address of the request comes from a trusted place.
pub record Applies (py : Runtime) (context : VerificationContext) (claim : IdentityClaim)
    (source_profile : RangeSourceProfile) (document : SourceDocument) (address : String)
    : Type 0 where
  pub provider : py.casefold claim.provider ≡ py.casefold (or_else document.metadata.provider "")
  pub uri : document.metadata.uri ≡ source_profile.uri
  pub subject : (source_profile.subject ≡ none) ⊎ (source_profile.subject ≡ some claim.agent)
  pub from_source : context.source_ip ≡ some address
  pub trusted : is_trusted context.source_address_provenance ≡ true

-- The outcome of a report on a look-up.
abbrev reported : NegativeSemantics → Result RangeMatch → VerificationOutcome
reported semantics (err e) = error
reported semantics (ok m) =
    if m.matched then pass else if is_authoritative semantics then mismatch else indeterminate

matched_of_pass :
    (semantics : NegativeSemantics) (r : Result RangeMatch)
    → reported semantics r ≡ pass
    → (m : RangeMatch) × (r ≡ ok m) × (m.matched ≡ true)
matched_of_pass semantics (err e) h = cc
matched_of_pass semantics (ok m) h = (m, refl, ground arith)

unmatched_of_mismatch :
    (semantics : NegativeSemantics) (r : Result RangeMatch)
    → reported semantics r ≡ mismatch
    → (semantics ≡ authoritative_negative) × ((m : RangeMatch) × (r ≡ ok m) × (m.matched ≡ false))
unmatched_of_mismatch semantics (err e) h = cc
unmatched_of_mismatch semantics (ok m) h = (ground arith, (m, refl, ground arith))

module _ (py : Runtime) (context : VerificationContext) (claim : IdentityClaim)
    (source_profile : RangeSourceProfile) (document : SourceDocument) where
  outcome-report :
      (r : Result RangeMatch)
      → (report py claim source_profile document r).outcome
        ≡ reported source_profile.negative_semantics r
  unfolding report evidence
  outcome-report (err e) = refl
  outcome-report (ok m) = ground arith

  is_other_agent_iff :
      (subject : Option String)
      → (is_other_agent subject claim.agent ≡ false)
        ↔ ((subject ≡ none) ⊎ (subject ≡ some claim.agent))
  is_other_agent_iff none = ground arith
  is_other_agent_iff (some s) = ground (arith, eq_iff s claim.agent)

  -- Where the verifier applies, its outcome is that of the look-up.
  outcome_of_Applies :
      (address : String)
      → Applies py context claim source_profile document address
      → (verify py context claim source_profile document).outcome
        ≡ reported source_profile.negative_semantics (look_up py source_profile document address)
  unfolding verify evidence
  outcome_of_Applies address a = ground (
    arith,
    eq_iff (py.casefold claim.provider) (py.casefold (or_else document.metadata.provider "")),
    eq_iff document.metadata.uri source_profile.uri,
    is_other_agent_iff source_profile.subject,
    outcome-report (look_up py source_profile document address),
    a.from_source,
    a.provider,
    a.uri,
    a.subject,
    a.trusted,
  )

  -- Anywhere else the outcome is neutral.
  outcome_cases :
      ((address : String) × Applies py context claim source_profile document address)
      ⊎ (((verify py context claim source_profile document).outcome ≢ pass)
          × ((verify py context claim source_profile document).outcome ≢ mismatch))
  unfolding verify evidence
  outcome_cases =
      elim (Bool-cases
        (py.casefold claim.provider == py.casefold (or_else document.metadata.provider ""))) [
          | inr other ↦ inr (ground arith, ground arith)
          | inl same ↦ elim (Bool-cases (document.metadata.uri == source_profile.uri)) [
            | inr moved ↦ inr (ground arith, ground arith)
            | inl there ↦ elim (Bool-cases (is_other_agent source_profile.subject claim.agent)) [
              | inl other_agent ↦ inr (ground arith, ground arith)
              | inr applicable ↦ elim (Option-cases context.source_ip) [
                | inl missing ↦ inr (ground arith, ground arith)
                | inr (address, found) ↦
                    elim (Bool-cases (is_trusted context.source_address_provenance)) [
                      | inr untrusted ↦ inr (ground arith, ground arith)
                      | inl trusted ↦ inl (
                        address,
                        record {
                          provider = (eq_iff _ _).0 same;
                          uri = (eq_iff _ _).0 there;
                          subject = (is_other_agent_iff source_profile.subject).0 applicable;
                          from_source = found;
                          trusted = trusted;
                        },
                      )
                    ]
              ]
            ]
          ]
        ]

  -- The verifier passes a claim exactly when it applies and the source address is matched.
  pub pass_iff : ((verify py context claim source_profile document).outcome ≡ pass) ↔ (
      (address : String) × Applies py context claim source_profile document address
      × ((m : RangeMatch) × (look_up py source_profile document address ≡ ok m)
          × (m.matched ≡ true)))
  pass_iff = (
    λ h. elim outcome_cases [
      | inl (address, a) ↦ (
        address,
        a,
        matched_of_pass source_profile.negative_semantics
            (look_up py source_profile document address) (sym (outcome_of_Applies address a) ∙ h),
      )
      | inr (n, _) ↦ absurd (n h)
    ],
    λ (address, a, (m, e, t)). ground (arith, outcome_of_Applies address a),
  )

  -- The verifier denies a claim exactly when it applies, the look-up finds no range that holds the
  -- source address, and the publication is authoritative in what it leaves out.
  pub mismatch_iff : ((verify py context claim source_profile document).outcome ≡ mismatch) ↔ (
      (source_profile.negative_semantics ≡ authoritative_negative)
      × ((address : String) × Applies py context claim source_profile document address
          × ((m : RangeMatch) × (look_up py source_profile document address ≡ ok m)
              × (m.matched ≡ false))))
  mismatch_iff = (
    λ h. elim outcome_cases [
      | inl (address, a) ↦
          let (s, m) =
            unmatched_of_mismatch source_profile.negative_semantics
              (look_up py source_profile document address)
              (sym (outcome_of_Applies address a) ∙ h) in
          (s, (address, a, m))
      | inr (_, n) ↦ absurd (n h)
    ],
    λ (s, (address, a, (m, e, t))). ground (arith, outcome_of_Applies address a),
  )

-- A request that passes came from an address that a listed range of the parsed document holds.
pub pass-in_published_range :
    (py : Runtime) (context : VerificationContext) (claim : IdentityClaim)
    (source_profile : RangeSourceProfile) (document : SourceDocument)
    → (verify py context claim source_profile document).outcome ≡ pass
    → (address : String) × (a : Address) × (published : PublishedRangeSet) × (context.source_ip
        ≡ some address)
      × (is_trusted context.source_address_provenance ≡ true)
      × (py.ip_address address ≡ some a)
      × (parse_ranges py document.content source_profile.format_profile ≡ ok published)
      × (any (is_candidate (unmapped a)) published.ranges ≡ true)
unfolding look_up
pass-in_published_range py context claim source_profile document h =
    let (address, applies, (m, found, matched)) =
      (pass_iff py context claim source_profile document).0 h in
    let (published, parsed, answered) =
      bind_ok (parse_ranges py document.content source_profile.format_profile) _ m found in
    let (a, valid, held) = match_sound py published address m answered matched in
    (address, a, published, applies.from_source, applies.trusted, valid, parsed, held)
