-- ===== src/Network/Official.antt =====
-- identity/network/verifier.py: a claim against one provider-owned publication of address ranges.
pub mod Laws
use agent_traffic_intelligen.Prelude.{
  ℕ, String, Option, none, some, List, [], ◌∷◌, ◌++◌, Bool, true, false, not, ◌&&◌, ◌==◌, ◌⁀◌,
  or_else, if◌then◌else◌,
}
use agent_traffic_intelligen.Runtime.{Runtime}
use agent_traffic_intelligen.Domain.{IdentityClaim}
use agent_traffic_intelligen.Identity.Evidence.{
  VerificationEvidence, VerificationOutcome, pass, mismatch, unavailable, indeterminate, error,
  BindingScope, official_range, Detail, flag, number, text, null,
}
use agent_traffic_intelligen.Identity.Context.{VerificationContext, is_trusted}
use agent_traffic_intelligen.Sources.Documents.{SourceDocument}
use agent_traffic_intelligen.Network.Ranges.{
  Result, ok, err, ◌>>=◌, RangeMatch, PublishedRangeSet, match,
}
use agent_traffic_intelligen.Network.Formats.{parse_jafar, parse_prefixes_v1}

-- `NegativeSemantics`
pub data NegativeSemantics : Type 0 where
  authoritative_negative positive_only unknown : NegativeSemantics

-- `RangeSourceProfile`
pub record RangeSourceProfile : Type 0 where
  pub uri : String
  pub format_profile : String
  pub binding_scope : BindingScope
  pub negative_semantics : NegativeSemantics
  pub reviewed_on : String
  pub subject : Option String
  pub category : Option String

abbrev pub Details : Type 0
Details = List (String × Detail)

-- `OfficialRangeVerifier._evidence`
unfoldable pub evidence :
    IdentityClaim
    → RangeSourceProfile
    → SourceDocument
    → VerificationOutcome
    → String
    → Details
    → VerificationEvidence
evidence claim source_profile document outcome explanation details = record {
  method = official_range;
  outcome = outcome;
  binding_scope = source_profile.binding_scope;
  authority = some claim.provider;
  subject = some (or_else source_profile.subject claim.provider);
  explanation = explanation;
  source_uri = some document.metadata.uri;
  source_profile = some source_profile.format_profile;
  retrieved_at = some document.metadata.retrieved_at;
  expires_at = document.metadata.expires_at;
  source_sha256 = some document.metadata.sha256;
  details = details;
}

-- `",".join(services)`
unfoldable pub join_commas : List String → String
join_commas [] = ""
join_commas (s ∷ []) = s
join_commas (s ∷ t ∷ rest) = s ⁀ ("," ⁀ join_commas (t ∷ rest))

-- The `details` of a finished match.
unfoldable pub match_details : RangeSourceProfile → RangeMatch → Details
match_details source_profile m =
    ("applicable", flag true)
    ∷ ("matched", flag m.matched)
    ∷ ("prefix_length", elim m.prefix_length [ none ↦ null | some n ↦ number n ])
    ∷ (elim source_profile.category [ none ↦ [] | some c ↦ ("category", text c) ∷ [] ]
        ++ elim m.services [
          | [] ↦ []
          | s ∷ rest ↦ ("services", text (join_commas m.services)) ∷ []
        ])

-- `source_profile.negative_semantics is AUTHORITATIVE_NEGATIVE`
abbrev pub is_authoritative : NegativeSemantics → Bool
is_authoritative authoritative_negative = true
is_authoritative _ = false

-- `source_profile.subject is not None and source_profile.subject != claim.agent`
abbrev pub is_other_agent : Option String → String → Bool
is_other_agent none agent = false
is_other_agent (some subject) agent = not (subject == agent)

module _ (py : Runtime) where
  -- `OfficialRangeVerifier._parse`
  unfoldable pub parse_ranges : List ℕ → String → Result PublishedRangeSet
  parse_ranges content format_profile =
      if format_profile == "prefixes-v1"
      then parse_prefixes_v1 py content
      else if format_profile == "jafar-00"
      then parse_jafar py content
      else err ("unsupported range format profile: " ⁀ format_profile)

  -- The parsing and matching in the `try` block.
  unfoldable pub look_up : RangeSourceProfile → SourceDocument → String → Result RangeMatch
  look_up source_profile document address = do
    published ← parse_ranges document.content source_profile.format_profile
    match py published address

  -- The report on a finished or failed look-up.
  unfoldable pub report :
      IdentityClaim → RangeSourceProfile → SourceDocument → Result RangeMatch → VerificationEvidence
  report claim source_profile document (err e) =
      evidence claim source_profile document error
        ("published range source could not be validated: " ⁀ e) (("applicable", flag true) ∷ [])
  report claim source_profile document (ok m) =
      let details = match_details source_profile m in
      if m.matched
      then evidence claim source_profile document pass
          "source address matched an official published range" details
      else if is_authoritative source_profile.negative_semantics
      then evidence claim source_profile document mismatch
          "source address was outside an authoritative published range set" details
      else evidence claim source_profile document indeterminate
          "source address did not match a positive-only published range set" details

  -- `OfficialRangeVerifier.verify`
  unfoldable pub verify :
      VerificationContext
      → IdentityClaim
      → RangeSourceProfile
      → SourceDocument
      → VerificationEvidence
  verify context claim source_profile document =
      let not_applicable : Details = ("applicable", flag false) ∷ [] in
      let no_address =
        evidence claim source_profile document unavailable
          "a trusted ephemeral source address is unavailable" (("applicable", flag true) ∷ []) in
      if not (py.casefold claim.provider == py.casefold (or_else document.metadata.provider ""))
      then evidence claim source_profile document indeterminate
          "range document provider does not match the identity claim" not_applicable
      else if not (document.metadata.uri == source_profile.uri)
      then evidence claim source_profile document error
          "cached range document URI does not match the provider profile" not_applicable
      else if is_other_agent source_profile.subject claim.agent
      then evidence claim source_profile document indeterminate
          "agent-specific range source does not apply to the claimed agent" not_applicable
      else elim context.source_ip [
        | none ↦ no_address
        | some address ↦
            if is_trusted context.source_address_provenance
            then report claim source_profile document (look_up source_profile document address)
            else no_address
      ]
