-- ===== src/Identity/Resolver/Laws/Spec.antt =====
-- What one piece of evidence says of a claim, stated without the tests of identity/resolver.py.
use agent_traffic_intelligen.Prelude.{
  String, none, some, true, ◌≡◌, ◌≢◌, ◌↔◌, ◌⊎◌, opt_eq_iff, eq_iff, arith, Option-cases, inl, inr,
}
use agent_traffic_intelligen.Domain.{IdentityClaim}
use agent_traffic_intelligen.Identity.Evidence.{VerificationEvidence, BindingScope, pass, mismatch}
use agent_traffic_intelligen.Identity.Resolver.{
  provider_matches, agent_matches, is_matching_agent_pass, is_matching_provider_pass,
  is_foreign_strong_pass, is_applicable_mismatch,
}

module _ (casefold : String → String) (claim : IdentityClaim) where
  -- The evidence comes from the claimed provider's authority.
  abbrev pub NamesProvider : VerificationEvidence → Type 0
  NamesProvider item =
      (a : String) × (item.authority ≡ some a) × (casefold a ≡ casefold claim.provider)

  -- It confirms the claimed agent.
  abbrev pub BindsAgent : VerificationEvidence → Type 0
  BindsAgent item =
      (item.outcome ≡ pass)
      × (item.binding_scope ≡ BindingScope.agent)
      × NamesProvider item
      × (item.subject ≡ some claim.agent)

  -- It confirms the claimed provider.
  abbrev pub BindsProvider : VerificationEvidence → Type 0
  BindsProvider item =
      (item.outcome ≡ pass) × (item.binding_scope ≢ BindingScope.key) × NamesProvider item

  -- It binds the request to another provider, or to another agent.
  abbrev pub BindsOther : VerificationEvidence → Type 0
  BindsOther item =
      (item.outcome ≡ pass)
      × (item.binding_scope ≢ BindingScope.key)
      × ((¬ NamesProvider item)
          ⊎ ((item.binding_scope ≡ BindingScope.agent) × (item.subject ≢ some claim.agent)))

  -- The claimed provider's authority denies the claim.
  abbrev pub Denies : VerificationEvidence → Type 0
  Denies item =
      (item.outcome ≡ mismatch)
      × NamesProvider item
      × ((item.binding_scope ≡ BindingScope.provider)
          ⊎ ((item.binding_scope ≡ BindingScope.agent)
              × ((item.subject ≡ none) ⊎ (item.subject ≡ some claim.agent))))

  pub provider_matches_iff :
      (item : VerificationEvidence)
      → (provider_matches casefold claim item ≡ true) ↔ NamesProvider item
  unfolding provider_matches
  provider_matches_iff item = elim (Option-cases item.authority) [
    | inl e ↦ (λ h. ground arith, λ (a, p, q). ground arith)
    | inr (a, e) ↦ (
      λ h. (a, e, (eq_iff _ _).0 (ground arith)),
      λ (b, p, q). ground (arith, eq_iff (casefold a) (casefold claim.provider)),
    )
  ]

  pub agent_pass_iff :
      (item : VerificationEvidence)
      → (is_matching_agent_pass casefold claim item ≡ true) ↔ BindsAgent item
  unfolding is_matching_agent_pass agent_matches
  agent_pass_iff item =
      ground (arith, provider_matches_iff item, opt_eq_iff item.subject (some claim.agent))

  pub provider_pass_iff :
      (item : VerificationEvidence)
      → (is_matching_provider_pass casefold claim item ≡ true) ↔ BindsProvider item
  unfolding is_matching_provider_pass
  provider_pass_iff item = ground (arith, provider_matches_iff item)

  pub foreign_pass_iff :
      (item : VerificationEvidence)
      → (is_foreign_strong_pass casefold claim item ≡ true) ↔ BindsOther item
  unfolding is_foreign_strong_pass agent_matches
  foreign_pass_iff item =
      ground (arith, provider_matches_iff item, opt_eq_iff item.subject (some claim.agent))

  pub denies_iff :
      (item : VerificationEvidence)
      → (is_applicable_mismatch casefold claim item ≡ true) ↔ Denies item
  unfolding is_applicable_mismatch
  denies_iff item = ground (
    arith,
    provider_matches_iff item,
    opt_eq_iff item.subject none,
    opt_eq_iff item.subject (some claim.agent),
  )
