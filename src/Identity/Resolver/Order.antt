-- ===== src/Identity/Resolver/Order.antt =====
-- The verdict of identity/resolver.py on evidence in another order, and on evidence that neither
-- confirms nor denies.
use mathlib.Core.List.{Perm}
use agent_traffic_intelligen.Prelude.{
  String, List, [], ◌∷◌, map, true, ◌≡◌, refl, ap, sym, ◌∙◌, keep, keep-keep, any-keep,
  nonempty-keep, ◌==◌, or_else_lem, if◌then◌else◌, arith, ◌⁀◌, or_else, keys-set,
}
use agent_traffic_intelligen.Prelude.Sort.{text_order, lex_order, sorted, keys_of_perm}
use agent_traffic_intelligen.Prelude.Sort.Laws.{any-sorted, keep-sorted}
use agent_traffic_intelligen.Prelude.Sort.Perms.{any_of_perm, keep-perm}
use agent_traffic_intelligen.Domain.{IdentityClaim}
use agent_traffic_intelligen.Identity.Evidence.{VerificationEvidence, VerificationResolution}
use agent_traffic_intelligen.Identity.Resolver.{
  evidence_key, ordered_evidence, is_matching_agent_pass, is_matching_provider_pass,
  is_foreign_strong_pass, is_applicable_mismatch, conflicts_of, verdict_of, resolution_of,
  foreign_conflict,
}
use agent_traffic_intelligen.Identity.Resolver.Laws.{
  is_decisive, verdict_of_lem, verdict_of-ordered,
}

-- Two resolutions that agree in all but the list of evidence.
pub record SameVerdict (r s : VerificationResolution) : Type 0 where
  pub state : r.state ≡ s.state
  pub provider_verified : r.provider_verified ≡ s.provider_verified
  pub agent_verified : r.agent_verified ≡ s.agent_verified
  pub conflicts : r.conflicts ≡ s.conflicts

-- The report of a conflict, read off the sort key alone.
abbrev conflict_of_key : List String → String
conflict_of_key (_ ∷ scope ∷ authority ∷ subject ∷ _) =
    "strong "
    ⁀ (scope
        ⁀ (" evidence binds request to "
            ⁀ (if subject == ""
                then (if authority == "" then "unknown" else authority)
                else subject)))
conflict_of_key _ = ""

foreign_conflict_lem :
    (item : VerificationEvidence) → foreign_conflict item ≡ conflict_of_key (evidence_key item)
unfolding foreign_conflict evidence_key
foreign_conflict_lem item = cc (
  or_else_lem item.subject (or_else item.authority "unknown"),
  or_else_lem item.authority "unknown",
)

map-foreign_conflict :
    (xs : List VerificationEvidence)
    → map foreign_conflict xs ≡ map conflict_of_key (map evidence_key xs)
map-foreign_conflict [] = refl
map-foreign_conflict (x ∷ xs) = cc (foreign_conflict_lem x, map-foreign_conflict xs)

module _ (casefold : String → String) (claim : IdentityClaim) where
  agent_pass_decisive :
      (x : VerificationEvidence)
      → is_matching_agent_pass casefold claim x ≡ true
      → is_decisive x ≡ true
  unfolding is_matching_agent_pass
  agent_pass_decisive x h = ground arith

  provider_pass_decisive :
      (x : VerificationEvidence)
      → is_matching_provider_pass casefold claim x ≡ true
      → is_decisive x ≡ true
  unfolding is_matching_provider_pass
  provider_pass_decisive x h = ground arith

  foreign_decisive :
      (x : VerificationEvidence)
      → is_foreign_strong_pass casefold claim x ≡ true
      → is_decisive x ≡ true
  unfolding is_foreign_strong_pass
  foreign_decisive x h = ground arith

  mismatch_decisive :
      (x : VerificationEvidence)
      → is_applicable_mismatch casefold claim x ≡ true
      → is_decisive x ≡ true
  unfolding is_applicable_mismatch
  mismatch_decisive x h = ground arith

  conflicts_of-decisive :
      (xs : List VerificationEvidence)
      → conflicts_of casefold claim (ordered_evidence (keep is_decisive xs))
        ≡ conflicts_of casefold claim (ordered_evidence xs)
  unfolding conflicts_of ordered_evidence
  conflicts_of-decisive xs = rw (← keep-sorted (lex_order text_order) evidence_key is_decisive xs) (
      cc (
        keep-keep _ _ foreign_decisive (sorted (lex_order text_order) evidence_key xs),
        keep-keep _ _ mismatch_decisive (sorted (lex_order text_order) evidence_key xs),
        any-keep _ _ agent_pass_decisive (sorted (lex_order text_order) evidence_key xs),
        any-keep _ _ provider_pass_decisive (sorted (lex_order text_order) evidence_key xs),
      ))

  verdict_of_same :
      (xs ys : List VerificationEvidence)
      → conflicts_of casefold claim (ordered_evidence xs)
        ≡ conflicts_of casefold claim (ordered_evidence ys)
      → verdict_of casefold claim xs ≡ verdict_of casefold claim ys
      → SameVerdict (resolution_of casefold claim xs) (resolution_of casefold claim ys)
  unfolding resolution_of
  verdict_of_same xs ys same h =
      let e =
        verdict_of-ordered casefold claim xs ∙ h ∙ sym (verdict_of-ordered casefold claim ys) in
      record {
        state = ap (λ v. v.0) e;
        provider_verified = ap (λ v. v.1) e;
        agent_verified = ap (λ v. v.2) e;
        conflicts = same;
      }

  verdict_of-decisive :
      (xs : List VerificationEvidence)
      → verdict_of casefold claim (keep is_decisive xs) ≡ verdict_of casefold claim xs
  verdict_of-decisive xs = simp verdict_of_lem (
      cc (
        any-keep _ _ foreign_decisive xs,
        any-keep _ _ mismatch_decisive xs,
        any-keep _ _ agent_pass_decisive xs,
        any-keep _ _ provider_pass_decisive xs,
      ))

  -- Evidence that is unavailable, indeterminate, stale or an error changes nothing in the verdict:
  -- state, verified flags and conflicts are those of the passes and mismatches alone.
  pub neutral_ignored :
      (evidence : List VerificationEvidence)
      → SameVerdict
          (resolution_of casefold claim (keep is_decisive evidence))
          (resolution_of casefold claim evidence)
  neutral_ignored evidence =
      verdict_of_same _ _ (conflicts_of-decisive evidence) (verdict_of-decisive evidence)

  conflicts_of_perm :
      (xs ys : List VerificationEvidence)
      → Perm xs ys
      → conflicts_of casefold claim (ordered_evidence xs)
        ≡ conflicts_of casefold claim (ordered_evidence ys)
  unfolding conflicts_of ordered_evidence
  conflicts_of_perm xs ys h =
      simp (map-foreign_conflict, nonempty-keep, any-sorted)
        (simp keep-sorted (
          cc (
            keys_of_perm (lex_order text_order) evidence_key keys-set
                (keep-perm (is_foreign_strong_pass casefold claim) h),
            any_of_perm (is_applicable_mismatch casefold claim) h,
            any_of_perm (is_matching_agent_pass casefold claim) h,
            any_of_perm (is_matching_provider_pass casefold claim) h,
          )))

  verdict_of_perm :
      (xs ys : List VerificationEvidence)
      → Perm xs ys
      → verdict_of casefold claim xs ≡ verdict_of casefold claim ys
  verdict_of_perm xs ys h = simp verdict_of_lem (
      cc (
        any_of_perm (is_foreign_strong_pass casefold claim) h,
        any_of_perm (is_applicable_mismatch casefold claim) h,
        any_of_perm (is_matching_agent_pass casefold claim) h,
        any_of_perm (is_matching_provider_pass casefold claim) h,
      ))

  -- Whatever the order in which the evidence arrives, state, verified flags and reported conflicts
  -- are the same.
  pub resolution_of_perm :
      (xs ys : List VerificationEvidence)
      → Perm xs ys
      → SameVerdict (resolution_of casefold claim xs) (resolution_of casefold claim ys)
  resolution_of_perm xs ys h =
      verdict_of_same xs ys (conflicts_of_perm xs ys h) (verdict_of_perm xs ys h)
