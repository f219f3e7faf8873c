-- ===== src/Prelude/Sort/Laws.antt =====
-- What sorting keeps: the order of the result, tests over it, and filters of it.
use mathlib.Core.Path.{◌≡◌, refl}
use mathlib.Core.Bool.{Bool, true, ◌||◌}
use mathlib.Core.List.{List, [], ◌∷◌}
use mathlib.Core.Logic.{inl, inr}
use native.Mathlib.Omega.{arith}
use agent_traffic_intelligen.Prelude.Tests.{if◌then◌else◌, Bool-cases}
use agent_traffic_intelligen.Prelude.Lists.{All, any, keep}
use agent_traffic_intelligen.Prelude.Sort.{TotalOrder, insert_by, sorted, All-insert_by}

module _ {ℓ κ} {A : Type ℓ} {K : Type κ} (o : TotalOrder K) (key : A → K) where
  -- Each member is at most every later one.
  abbrev pub IsSorted : List A → Type 0
  IsSorted [] = Unit
  IsSorted (x ∷ xs) = All (λ y. o.le (key x) (key y) ≡ true) xs × IsSorted xs

  All-le_trans :
      (x y : A) (ys : List A)
      → o.le (key x) (key y) ≡ true
      → All (λ z. o.le (key y) (key z) ≡ true) ys
      → All (λ z. o.le (key x) (key z) ≡ true) ys
  All-le_trans x y [] h a = tt
  All-le_trans x y (z ∷ zs) h (p, a) =
      (o.trans (key x) (key y) (key z) h p, All-le_trans x y zs h a)

  insert_by-IsSorted : (x : A) (ys : List A) → IsSorted ys → IsSorted (insert_by o key x ys)
  unfolding insert_by
  insert_by-IsSorted x [] s = (tt, tt)
  insert_by-IsSorted x (y ∷ ys) (a, s) = elim (Bool-cases (o.le (key x) (key y))) [
    | inl e ↦ rw e ((e, All-le_trans x y ys e a), (a, s))
    | inr e ↦ rw e (
      All-insert_by o key (λ z. o.le (key y) (key z) ≡ true) x ys (o.total (key x) (key y) e) a,
      insert_by-IsSorted x ys s,
    )
  ]

  pub sorted-IsSorted : (xs : List A) → IsSorted (sorted o key xs)
  unfolding sorted
  sorted-IsSorted [] = tt
  sorted-IsSorted (x ∷ xs) = insert_by-IsSorted x (sorted o key xs) (sorted-IsSorted xs)

  any-insert_by :
      (p : A → Bool) (x : A) (ys : List A) → any p (insert_by o key x ys) ≡ (p x || any p ys)
  unfolding insert_by any
  any-insert_by p x [] = refl
  any-insert_by p x (y ∷ ys) = ground (arith, any-insert_by p x ys)

  -- A test for some member does not see the order.
  pub any-sorted : (p : A → Bool) (xs : List A) → any p (sorted o key xs) ≡ any p xs
  unfolding sorted any
  any-sorted p [] = refl
  any-sorted p (x ∷ xs) = rw (any-insert_by p x (sorted o key xs)) (ground (arith, any-sorted p xs))

  insert_by_below :
      (x : A) (ys : List A)
      → All (λ z. o.le (key x) (key z) ≡ true) ys
      → insert_by o key x ys ≡ x ∷ ys
  unfolding insert_by
  insert_by_below x [] a = refl
  insert_by_below x (y ∷ ys) (e, a) = rw e

  keep_All_le :
      (p : A → Bool) (x : A) (ys : List A)
      → All (λ z. o.le (key x) (key z) ≡ true) ys
      → All (λ z. o.le (key x) (key z) ≡ true) (keep p ys)
  unfolding keep
  keep_All_le p x [] a = tt
  keep_All_le p x (y ∷ ys) (e, a) = elim (Bool-cases (p y)) [
    | inl t ↦ rw t (e, keep_All_le p x ys a)
    | inr f ↦ rw f (keep_All_le p x ys a)
  ]

  keep-insert_by :
      (p : A → Bool) (x : A) (ys : List A)
      → IsSorted ys
      → keep p (insert_by o key x ys) ≡ (if p x then insert_by o key x (keep p ys) else keep p ys)
  unfolding insert_by keep
  keep-insert_by p x [] s = refl
  keep-insert_by p x (y ∷ ys) (a, s) = ground (
    arith,
    keep-insert_by p x ys s,
    insert_by_below x (keep p ys),
    keep_All_le p x ys,
    All-le_trans x y ys,
  )

  -- Filtering and sorting commute.
  pub keep-sorted :
      (p : A → Bool) (xs : List A) → keep p (sorted o key xs) ≡ sorted o key (keep p xs)
  unfolding sorted keep
  keep-sorted p [] = refl
  keep-sorted p (x ∷ xs) =
      rw (keep-insert_by p x (sorted o key xs) (sorted-IsSorted xs))
        (ground (arith, keep-sorted p xs))
