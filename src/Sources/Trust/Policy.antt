-- ===== src/Sources/Trust/Policy.antt =====
-- The registry-only trust of source addresses (identity/sources/trust.py).
use agent_traffic_intelligen.Prelude.{
  String, Option, none, some, List, [], ◌∷◌, true, ◌==◌, ◌≡◌, ◌↔◌, refl, any_iff, Exists, inl, inr,
  eq_iff, ◌⊎◌,
}
use agent_traffic_intelligen.Prelude.Options.{bind_some, some_subst}
use agent_traffic_intelligen.Runtime.{Runtime}
use agent_traffic_intelligen.Identity.Profiles.{ProviderProfile}
use agent_traffic_intelligen.Sources.Trust.{
  Urls, canonicalize_source_uri, configured_uris, canonical_uris, default_policy, member_of, allows,
}

module _ (py : Runtime) (urls : Urls) where
  -- Two addresses with the same canonical form.
  abbrev pub IsSameSource : String → String → Type 0
  IsSameSource uri other =
      (c : String) × (canonicalize_source_uri py urls uri ≡ some c)
      × (canonicalize_source_uri py urls other ≡ some c)

  member_to :
      (uri c x d : String) (A B : Type 0)
      → canonicalize_source_uri py urls uri ≡ some c
      → canonicalize_source_uri py urls x ≡ some d
      → (A → B)
      → (c ≡ d) ⊎ A
      → IsSameSource uri x ⊎ B
  member_to uri c x d A B e f g (inl p) = inl (c, e, cc (f, p))
  member_to uri c x d A B e f g (inr a) = inr (g a)

  member_from :
      (uri c x d : String) (A B : Type 0)
      → canonicalize_source_uri py urls uri ≡ some c
      → canonicalize_source_uri py urls x ≡ some d
      → (B → A)
      → IsSameSource uri x ⊎ B
      → (c ≡ d) ⊎ A
  member_from uri c x d A B e f g (inl (k, e2, f2)) = inl (cc (e, f, e2, f2))
  member_from uri c x d A B e f g (inr b) = inr (g b)

  canonical_members :
      (uri c : String) (uris allowed : List String)
      → canonicalize_source_uri py urls uri ≡ some c
      → canonical_uris py urls uris ≡ some allowed
      → Exists (λ u. c ≡ u) allowed ↔ Exists (IsSameSource uri) uris
  unfolding canonical_uris
  canonical_members uri c [] allowed e h =
      some_subst (λ a. Exists (λ u. c ≡ u) a ↔ ⊥) h (λ x. x, λ x. x)
  canonical_members uri c (x ∷ xs) allowed e h =
      let (d, f, h1) = bind_some (canonicalize_source_uri py urls x) _ allowed h in
      let (rest, g, h2) = bind_some (canonical_uris py urls xs) _ allowed h1 in
      let others = canonical_members uri c xs rest e g in
      some_subst (λ a. Exists (λ u. c ≡ u) a ↔ Exists (IsSameSource uri) (x ∷ xs)) h2
        (
          member_to uri c x d (Exists (λ u. c ≡ u) rest) (Exists (IsSameSource uri) xs) e f
              others.0,
          member_from uri c x d (Exists (λ u. c ≡ u) rest) (Exists (IsSameSource uri) xs) e f
              others.1,
        )

  no_source :
      (uri : String) (uris : List String)
      → canonicalize_source_uri py urls uri ≡ none
      → ¬ Exists (IsSameSource uri) uris
  no_source uri [] e x = x
  no_source uri (y ∷ ys) e (inl (c, e2, f)) = cc (e, e2)
  no_source uri (y ∷ ys) e (inr x) = no_source uri ys e x

  member_iff :
      (uri : String) (uris allowed : List String) (o : Option String)
      → canonicalize_source_uri py urls uri ≡ o
      → canonical_uris py urls uris ≡ some allowed
      → (member_of allowed o ≡ true) ↔ Exists (IsSameSource uri) uris
  unfolding member_of
  member_iff uri uris allowed none e h = (λ p. cc p, λ x. absurd (no_source uri uris e x))
  member_iff uri uris allowed (some c) e h =
      let found = any_iff (λ u. c == u) (λ u. c ≡ u) (λ u. eq_iff c u) allowed in
      let same = canonical_members uri c uris allowed e h in
      (λ p. same.0 (found.0 p), λ x. found.1 (same.1 x))

  -- Under the default policy an address is allowed exactly when it and a source address of a loaded profile
  -- have the same canonical form; an address without a canonical form is not allowed.
  pub allows_iff :
      (profiles : List ProviderProfile) (allowed : List String) (uri : String)
      → default_policy py urls profiles ≡ some allowed
      → (allows py urls allowed uri ≡ true) ↔ Exists (IsSameSource uri) (configured_uris profiles)
  unfolding default_policy allows
  allows_iff profiles allowed uri h =
      member_iff uri (configured_uris profiles) allowed (canonicalize_source_uri py urls uri) refl h
