-- ===== src/Crypto/SignatureAgent/Binding.antt =====
-- The Signature-Agent member that a signature is attributed to (`_bound_signature_agent` of
-- identity/crypto/web_bot_auth.py).
use agent_traffic_intelligen.Prelude.{
  String, Option, none, some, List, [], ◌∷◌, Bool, true, false, ◌≡◌, ◌⊎◌, refl, sym, ◌∙◌, opt_eq,
  opt_eq_iff, keep, Exists, inl, inr, arith, Bool-cases,
}
use agent_traffic_intelligen.Crypto.SignatureAgent.{
  SignatureAgentReference, has_key, sole_member, choose_member, signed_keys_of,
  bound_signature_agent,
}

cons_not_nil : {x : SignatureAgentReference} {xs : List SignatureAgentReference} → ¬ (x ∷ xs ≡ [])
cons_not_nil h = cc

-- A filter of members: none passes, or the first that does is a member that passes.
keep_cases :
    (p : SignatureAgentReference → Bool) (xs : List SignatureAgentReference)
    → (keep p xs ≡ [])
      ⊎ ((x : SignatureAgentReference) × (rest : List SignatureAgentReference) × (keep p xs
            ≡ x ∷ rest)
          × (p x ≡ true)
          × Exists (λ y. y ≡ x) xs)
unfolding keep
keep_cases p [] = inl refl
keep_cases p (x ∷ xs) = elim (Bool-cases (p x)) [
  | inl e ↦ inr (x, keep p xs, rw e refl, e, inl refl)
  | inr e ↦ elim (keep_cases p xs) [
    | inl none_left ↦ inl (rw e none_left)
    | inr (y, rest, k, py, member) ↦ inr (y, rest, rw e k, py, inr member)
  ]
]

kept_out :
    (p : SignatureAgentReference → Bool) (xs : List SignatureAgentReference)
    (x : SignatureAgentReference)
    → keep p xs ≡ []
    → Exists (λ y. y ≡ x) xs
    → p x ≡ false
unfolding keep
kept_out p [] x k m = elim m [ ]
kept_out p (y ∷ xs) x k m = elim (Bool-cases (p y)) [
  | inl e ↦ absurd (cons_not_nil (rw e at k))
  | inr e ↦ elim m [ inl same ↦ rw (sym same) e | inr later ↦ kept_out p xs x (rw e at k) later ]
]

sole_member_lem :
    (xs : List SignatureAgentReference) (r : SignatureAgentReference)
    → sole_member xs ≡ some r
    → xs ≡ r ∷ []
unfolding sole_member
sole_member_lem [] r h = cc
sole_member_lem (x ∷ []) r h = cc
sole_member_lem (x ∷ y ∷ xs) r h = cc

-- Why a member was chosen: it is a legacy member, or, where there is none, it has the label of the
-- signature, or, where there is none of that label either, it is the only member that is covered.
pub data IsChosen (signed_keys : List (Option String)) (label : Option String)
    (references : List SignatureAgentReference) (r : SignatureAgentReference) : Type 0 where
  legacy :
      r.legacy ≡ true → has_key none signed_keys ≡ true → IsChosen signed_keys label references r
  own :
      keep (λ (x : SignatureAgentReference). x.legacy) references ≡ []
      → r.label ≡ label
      → has_key label signed_keys ≡ true
      → IsChosen signed_keys label references r
  sole :
      keep (λ (x : SignatureAgentReference). x.legacy) references ≡ []
      → keep (λ (x : SignatureAgentReference). opt_eq x.label label) references ≡ []
      → keep (λ (x : SignatureAgentReference). has_key x.label signed_keys) references ≡ r ∷ []
      → IsChosen signed_keys label references r

-- The member that a signature is attributed to is one of the header's, and the signature covers it:
-- a legacy member, else the one with the signature's own label, else the only covered one.
pub bound_signature_agent-IsChosen :
    (casefold : String → String) (components : List String) (label : Option String)
    (references : List SignatureAgentReference) (r : SignatureAgentReference)
    → bound_signature_agent casefold components label references ≡ some r
    → Exists (λ x. x ≡ r) references
      × IsChosen (signed_keys_of casefold components) label references r
unfolding bound_signature_agent choose_member
bound_signature_agent-IsChosen casefold components label references r h =
    let keys = signed_keys_of casefold components in
    elim (keep_cases (λ x. x.legacy) references) [
      | inr (x, rest, e, is_legacy, member) ↦ elim (Bool-cases (has_key none keys)) [
        | inr f ↦ absurd (ground arith)
        | inl f ↦
            let same : x ≡ r = ground arith in (rw same at member, legacy (rw same at is_legacy) f)
      ]
      | inl e ↦ elim (keep_cases (λ x. opt_eq x.label label) references) [
        | inr (x, rest, f, is_own, member) ↦ elim (Bool-cases (has_key label keys)) [
          | inr g ↦ absurd (ground arith)
          | inl g ↦
              let same : x ≡ r = ground arith in
              let named : x.label ≡ label = (opt_eq_iff x.label label).0 is_own in
              (rw same at member, own e (rw same at named) g)
        ]
        | inl f ↦
            let only =
              sole_member_lem
                (keep (λ (x : SignatureAgentReference). has_key x.label keys) references) r
                (ground arith) in
            elim (keep_cases (λ x. has_key x.label keys) references) [
              | inl g ↦ absurd (cons_not_nil (sym only ∙ g))
              | inr (x, rest, g, covered, member) ↦
                  let same : x ≡ r = ground arith in (rw same at member, sole e f only)
            ]
      ]
    ]
