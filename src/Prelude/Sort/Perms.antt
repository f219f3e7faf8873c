-- ===== src/Prelude/Sort/Perms.antt =====
-- Filters, tests and counts over a rearranged sequence.
use mathlib.Core.Path.{◌≡◌, refl, sym, ap, ◌∙◌}
use mathlib.Core.Bool.{Bool}
use mathlib.Core.List.{List, Perm, Permᴰ}
use mathlib.Core.List.Permᴰ
use mathlib.Core.Logic.{inl, inr, ∥∥₁_elim, ∥∥₁_map}
use native.Mathlib.Omega.{arith}
use agent_traffic_intelligen.Prelude.Tests.{Bool-cases}
use agent_traffic_intelligen.Prelude.Lists.{any, keep}

module _ {ℓ} {A : Type ℓ} (p : A → Bool) where
  keep-permᴰ : {xs ys : List A} → Permᴰ xs ys → Permᴰ (keep p xs) (keep p ys)
  unfolding keep
  keep-permᴰ Permᴰ.nil = Permᴰ.nil
  keep-permᴰ (Permᴰ.cons {a = a} {b = b} {l₁ = l} {l₂ = m} e d) = elim (Bool-cases (p a)) [
    | inl t ↦ rw (t, sym (ap p e) ∙ t) (Permᴰ.cons e (keep-permᴰ d))
    | inr f ↦ rw (f, sym (ap p e) ∙ f) (keep-permᴰ d)
  ]
  keep-permᴰ (Permᴰ.swap {a = a} {b = b} {a' = a'} {b' = b'} {l = l} e f) =
      elim (Bool-cases (p a)) [
        | inl t ↦ elim (Bool-cases (p b)) [
          | inl u ↦ rw (t, u, sym (ap p f) ∙ u, sym (ap p e) ∙ t) (Permᴰ.swap e f)
          | inr u ↦ rw (t, u, sym (ap p f) ∙ u, sym (ap p e) ∙ t) (Permᴰ.cons e (Permᴰ.refl _))
        ]
        | inr t ↦ elim (Bool-cases (p b)) [
          | inl u ↦ rw (t, u, sym (ap p f) ∙ u, sym (ap p e) ∙ t) (Permᴰ.cons f (Permᴰ.refl _))
          | inr u ↦ rw (t, u, sym (ap p f) ∙ u, sym (ap p e) ∙ t) (Permᴰ.refl _)
        ]
      ]
  keep-permᴰ (Permᴰ.trans d e) = Permᴰ.trans (keep-permᴰ d) (keep-permᴰ e)

  pub keep-perm : {xs ys : List A} → Perm xs ys → Perm (keep p xs) (keep p ys)
  keep-perm h = ∥∥₁_map h keep-permᴰ

  any_of_permᴰ : {xs ys : List A} → Permᴰ xs ys → any p xs ≡ any p ys
  unfolding any
  any_of_permᴰ Permᴰ.nil = refl
  any_of_permᴰ (Permᴰ.cons e d) = ground (arith, any_of_permᴰ d, ap p e)
  any_of_permᴰ (Permᴰ.swap e f) = ground (arith, ap p e, ap p f)
  any_of_permᴰ (Permᴰ.trans d e) = any_of_permᴰ d ∙ any_of_permᴰ e

  -- A test for some member gives one answer for all orders.
  pub any_of_perm : {xs ys : List A} → Perm xs ys → any p xs ≡ any p ys
  any_of_perm h = ∥∥₁_elim h (Bool-set _ _) any_of_permᴰ
    where
      Bool-set : IsSet Bool
      Bool-set = hlevel
