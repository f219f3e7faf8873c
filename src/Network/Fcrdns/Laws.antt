-- ===== src/Network/Fcrdns/Laws.antt =====
-- When identity/network/fcrdns.py confirms or denies a claim.
use agent_traffic_intelligen.Prelude.{
  String, none, some, List, [], ◌∷◌, Bool, true, false, ◌≡◌, eq_iff, ◌↔◌, ◌⊎◌, refl, ◌==◌, ◌⁀◌,
  arith, ap, sym, ◌∙◌, Option-cases, Bool-cases, inl, inr, any, All, Exists, strip_dots, ends_with,
}
use agent_traffic_intelligen.Runtime.{Runtime}
use agent_traffic_intelligen.Domain.{IdentityClaim}
use agent_traffic_intelligen.Identity.Evidence.{VerificationEvidence, pass, mismatch, unavailable}
use agent_traffic_intelligen.Identity.Context.{VerificationContext, is_trusted}
use agent_traffic_intelligen.Network.Fcrdns.{
  FcrdnsProfile, Dns, evidence, matching_suffix, normalize_hostname, normalize_address, candidates,
  forward_addresses, confirm, confirm_names, verify,
}

module _ (py : Runtime) (dns : Dns) where
  -- A forward lookup of the host name gives the address.
  abbrev pub Confirms : String → String → Type 0
  Confirms address hostname =
      (found : List String) × (forward_addresses py dns hostname ≡ some found)
      × (any (λ a. a == address) found ≡ true)

  -- A forward lookup of the host name answers, without the address.
  abbrev pub Refutes : String → String → Type 0
  Refutes address hostname =
      (found : List String) × (forward_addresses py dns hostname ≡ some found)
      × (any (λ a. a == address) found ≡ false)

  -- A name as it is compared: folded, without the dots at its ends.
  abbrev pub folded : String → String
  folded name = strip_dots (py.casefold name)

  -- The host name is one of the suffixes, or lies under one.
  abbrev pub IsUnder : List String → String → Type 0
  IsUnder suffixes hostname =
      Exists (λ s. (hostname ≡ folded s) ⊎ (ends_with hostname ("." ⁀ folded s) ≡ true)) suffixes

  matching_suffix-IsUnder :
      (hostname suffix : String) (suffixes : List String)
      → matching_suffix py dns hostname suffixes ≡ some suffix
      → IsUnder suffixes hostname
  unfolding matching_suffix
  matching_suffix-IsUnder hostname suffix [] h = cc
  matching_suffix-IsUnder hostname suffix (s ∷ suffixes) h =
      ground (arith, eq_iff hostname (folded s), matching_suffix-IsUnder hostname suffix suffixes)

  no_suffix-IsUnder :
      (hostname : String) (suffixes : List String)
      → matching_suffix py dns hostname suffixes ≡ none
      → ¬ IsUnder suffixes hostname
  unfolding matching_suffix
  no_suffix-IsUnder hostname [] h u = u
  no_suffix-IsUnder hostname (s ∷ suffixes) h u =
      ground (arith, eq_iff hostname (folded s), no_suffix-IsUnder hostname suffixes)

  -- The candidates among the names, as what holds of one of them or of all.
  candidates_some :
      (P : String → Type 0) (suffixes names : List String)
      → Exists (λ c. P c.0) (candidates py dns suffixes names)
        ↔ Exists (λ n. IsUnder suffixes (folded n) × P (folded n)) names
  unfolding candidates normalize_hostname
  candidates_some P suffixes [] = (λ e. e, λ e. e)
  candidates_some P suffixes (name ∷ names) =
      let (to, from) = candidates_some P suffixes names in
      elim (Option-cases (matching_suffix py dns (folded name) suffixes)) [
        | inl e ↦
            rw (e, candidates)
              (
                λ x. inr (to x),
                λ x. elim x [
                  | inl (u, _) ↦ absurd (no_suffix-IsUnder (folded name) suffixes e u)
                  | inr later ↦ from later
                ],
              )
        | inr (suffix, e) ↦
            rw (e, candidates)
              (
                λ x. elim x [
                  | inl p ↦ inl (matching_suffix-IsUnder (folded name) suffix suffixes e, p)
                  | inr later ↦ inr (to later)
                ],
                λ x. elim x [ inl (_, p) ↦ inl p | inr later ↦ inr (from later) ],
              )
      ]

  candidates_all :
      (P : String → Type 0) (suffixes names : List String)
      → All (λ c. P c.0) (candidates py dns suffixes names)
        ↔ All (λ n. (¬ IsUnder suffixes (folded n)) ⊎ P (folded n)) names
  unfolding candidates normalize_hostname
  candidates_all P suffixes [] = (λ e. tt, λ e. tt)
  candidates_all P suffixes (name ∷ names) =
      let (to, from) = candidates_all P suffixes names in
      elim (Option-cases (matching_suffix py dns (folded name) suffixes)) [
        | inl e ↦
            rw (e, candidates)
              (λ x. (inl (no_suffix-IsUnder (folded name) suffixes e), to x), λ (_, x). from x)
        | inr (suffix, e) ↦
            rw (e, candidates)
              (
                λ (p, x). (inr p, to x),
                λ (d, x). elim d [
                  | inl u ↦ absurd (u (matching_suffix-IsUnder (folded name) suffix suffixes e))
                  | inr p ↦ (p, from x)
                ],
              )
      ]

  module _ (claim : IdentityClaim) (profile : FcrdnsProfile) (address : String) where
    confirm-dns_pass_iff :
        (lookup_error : Bool) (cs : List (String × String))
        → ((confirm py dns claim profile address lookup_error cs).outcome ≡ pass)
          ↔ Exists (λ c. Confirms address c.0) cs
    unfolding confirm evidence
    confirm-dns_pass_iff lookup_error [] = ground arith
    confirm-dns_pass_iff lookup_error ((hostname, suffix) ∷ cs) =
        elim (Option-cases (forward_addresses py dns hostname)) [
          | inl e ↦
              let (to, from) = confirm-dns_pass_iff true cs in
              (
                λ h. inr (to (ground arith)),
                λ d. elim d [
                  | inl (found, e', t) ↦ absurd (ground arith)
                  | inr later ↦ ground (arith, from later)
                ],
              )
          | inr (found, e) ↦
              let (to, from) = confirm-dns_pass_iff lookup_error cs in
              elim (Bool-cases (any (λ a. a == address) found)) [
                | inl t ↦ (λ h. inl (found, e, t), λ d. ground arith)
                | inr f ↦ (
                  λ h. inr (to (ground arith)),
                  λ d. elim d [
                    | inl (found', e', t) ↦ absurd (ground arith)
                    | inr later ↦ ground (arith, from later)
                  ],
                )
              ]
        ]

    confirm-dns_mismatch_iff :
        (lookup_error : Bool) (cs : List (String × String))
        → ((confirm py dns claim profile address lookup_error cs).outcome ≡ mismatch)
          ↔ ((lookup_error ≡ false) × All (λ c. Refutes address c.0) cs)
    unfolding confirm evidence
    confirm-dns_mismatch_iff lookup_error [] = ground arith
    confirm-dns_mismatch_iff lookup_error ((hostname, suffix) ∷ cs) =
        elim (Option-cases (forward_addresses py dns hostname)) [
          | inl e ↦
              let (to, from) = confirm-dns_mismatch_iff true cs in
              (
                λ h. let (impossible, _) = to (ground arith) in cc,
                λ (_, ((found, e', t), _)). absurd (ground arith),
              )
          | inr (found, e) ↦
              let (to, from) = confirm-dns_mismatch_iff lookup_error cs in
              elim (Bool-cases (any (λ a. a == address) found)) [
                | inl t ↦
                    (λ h. absurd (ground arith), λ (_, ((found', e', f), _)). absurd (ground arith))
                | inr f ↦ (
                  λ h.
                      let (no_error, later) = to (ground arith) in
                      (no_error, ((found, e, f), later)),
                  λ (no_error, (_, later)). ground (arith, from (no_error, later)),
                )
              ]
        ]

    confirm_names_lem :
        (names : List String)
        → (confirm_names py dns claim profile address names
            ≡ confirm py dns claim profile address false
                (candidates py dns profile.allowed_suffixes names))
          ⊎ (((confirm_names py dns claim profile address names).outcome ≡ mismatch)
              × (candidates py dns profile.allowed_suffixes names ≡ []))
    unfolding confirm_names confirm evidence
    confirm_names_lem names = ground arith

    confirm_names_outcome :
        (names : List String)
        → (confirm_names py dns claim profile address names).outcome
          ≡ (confirm py dns claim profile address false
              (candidates py dns profile.allowed_suffixes names)).outcome
    unfolding confirm
    confirm_names_outcome names = elim (confirm_names_lem names) [
      | inl same ↦ ap (λ (v : VerificationEvidence). v.outcome) same
      | inr (m, none_left) ↦ rw (m, none_left) (unfold evidence in refl)
    ]

  -- The request has a trusted source address, and its reverse lookup answers with host names.
  pub record Reached (context : VerificationContext) (raw address : String) (names : List String)
      : Type 0 where
    pub from_source : context.source_ip ≡ some raw
    pub trusted : is_trusted context.source_address_provenance ≡ true
    pub valid : normalize_address py dns raw ≡ some address
    pub reversed : dns.reverse raw ≡ some names

  module _ (context : VerificationContext) (claim : IdentityClaim) (profile : FcrdnsProfile) where
    outcome_of_Reached :
        (raw address : String) (names : List String)
        → Reached context raw address names
        → (verify py dns context claim (some profile)).outcome
          ≡ (confirm py dns claim profile address false
              (candidates py dns profile.allowed_suffixes names)).outcome
    unfolding verify
    outcome_of_Reached raw address names r = ground (
      arith,
      confirm_names_outcome claim profile address names,
      r.from_source,
      r.trusted,
      r.valid,
      r.reversed,
    )

    outcome_cases :
        ((raw : String) × (address : String) × (names : List String) × Reached context raw address
            names)
        ⊎ ((verify py dns context claim (some profile)).outcome ≡ unavailable)
    unfolding verify evidence
    outcome_cases = elim (Option-cases context.source_ip) [
      | inl missing ↦ inr (ground arith)
      | inr (raw, found) ↦ elim (Bool-cases (is_trusted context.source_address_provenance)) [
        | inr untrusted ↦ inr (ground arith)
        | inl trusted ↦ elim (Option-cases (normalize_address py dns raw)) [
          | inl invalid ↦ inr (ground arith)
          | inr (address, valid) ↦ elim (Option-cases (dns.reverse raw)) [
            | inl failed ↦ inr (ground arith)
            | inr (names, reversed) ↦ inl (
              raw,
              address,
              names,
              record { from_source = found; trusted = trusted; valid = valid; reversed = reversed },
            )
          ]
        ]
      ]
    ]

    -- A claim passes exactly when the trusted source address has, among the host names that its reverse
    -- lookup gives, one that is or lies under a documented suffix and of which a forward lookup gives the
    -- address.
    pub dns_pass_iff : ((verify py dns context claim (some profile)).outcome ≡ pass) ↔ (
        (raw : String) × (address : String) × (names : List String) × Reached context raw address
          names
        × Exists
            (λ n. IsUnder profile.allowed_suffixes (folded n) × Confirms address (folded n))
            names)
    dns_pass_iff = (
      λ h. elim outcome_cases [
        | inl (raw, address, names, r) ↦ (
          raw,
          address,
          names,
          r,
          (candidates_some (Confirms address) profile.allowed_suffixes names).0 (
              (confirm-dns_pass_iff claim profile address false _).0
                (sym (outcome_of_Reached raw address names r) ∙ h)),
        )
        | inr u ↦ absurd (ground arith)
      ],
      λ (raw, address, names, r, e).
          outcome_of_Reached raw address names r
          ∙ (confirm-dns_pass_iff claim profile address false _).1
              ((candidates_some (Confirms address) profile.allowed_suffixes names).1 e),
    )

    -- A claim is denied exactly when the trusted source address has a reverse lookup that answers, and of each
    -- host name that it gives either the name neither is nor lies under a documented suffix, or a forward
    -- lookup answers without the address: a lookup that fails never counts against a claim.
    pub dns_mismatch_iff : ((verify py dns context claim (some profile)).outcome ≡ mismatch) ↔ (
        (raw : String) × (address : String) × (names : List String) × Reached context raw address
          names
        × All
            (λ n. (¬ IsUnder profile.allowed_suffixes (folded n)) ⊎ Refutes address (folded n))
            names)
    dns_mismatch_iff = (
      λ h. elim outcome_cases [
        | inl (raw, address, names, r) ↦ (
          raw,
          address,
          names,
          r,
          (candidates_all (Refutes address) profile.allowed_suffixes names).0
              ((confirm-dns_mismatch_iff claim profile address false _).0
                (sym (outcome_of_Reached raw address names r) ∙ h)).1,
        )
        | inr u ↦ absurd (ground arith)
      ],
      λ (raw, address, names, r, a).
          outcome_of_Reached raw address names r
          ∙ (confirm-dns_mismatch_iff claim profile address false _).1
              (refl, (candidates_all (Refutes address) profile.allowed_suffixes names).1 a),
    )
