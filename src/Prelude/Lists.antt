-- ===== src/Prelude/Lists.antt =====
-- Lists measured by native numbers, and the loops over sequences that the program writes as
-- comprehensions and generator expressions.
use Prim.Native.Nat.{ℕ, suc, ◌+◌, ◌≤◌}
use mathlib.Core.Path.{◌≡◌, refl}
use mathlib.Core.Logic.{◌⊎◌, ◌↔◌, inl, inr}
use mathlib.Core.Bool.{Bool, true, false, ◌&&◌, ◌||◌}
use mathlib.Core.List.{List, [], ◌∷◌, ◌++◌, map}
use native.Mathlib.Omega.{arith}
use agent_traffic_intelligen.Prelude.Tests.{if◌then◌else◌}

module _ {ℓ} {A : Type ℓ} where
  abbrev pub length : List A → ℕ
  length [] = 0
  length (x ∷ xs) = suc (length xs)

  -- `any(p(x) for x in xs)`
  unfoldable pub any : (A → Bool) → List A → Bool
  any p [] = false
  any p (x ∷ xs) = p x || any p xs

  -- `all(p(x) for x in xs)`
  unfoldable pub all : (A → Bool) → List A → Bool
  all p [] = true
  all p (x ∷ xs) = p x && all p xs

  -- `[x for x in xs if p(x)]`
  unfoldable pub keep : (A → Bool) → List A → List A
  keep p [] = []
  keep p (x ∷ xs) = if p x then x ∷ keep p xs else keep p xs

  -- `sum(p(x) for x in xs)` over Booleans
  unfoldable pub count_if : (A → Bool) → List A → ℕ
  count_if p [] = 0
  count_if p (x ∷ xs) = (if p x then 1 else 0) + count_if p xs

  pub length-append : (xs ys : List A) → length (xs ++ ys) ≡ length xs + length ys
  length-append [] ys = omega arith
  length-append (x ∷ xs) ys = omega (arith, length-append xs ys)

  pub length-keep : (p : A → Bool) (xs : List A) → length (keep p xs) ≤ length xs
  unfolding keep
  length-keep p [] = omega arith
  length-keep p (x ∷ xs) = ground (arith, length-keep p xs)

  pub count_if-le-length : (p : A → Bool) (xs : List A) → count_if p xs ≤ length xs
  unfolding count_if
  count_if-le-length p [] = omega arith
  count_if-le-length p (x ∷ xs) = ground (arith, count_if-le-length p xs)

module _ {ℓ κ} {A : Type ℓ} (P : A → Type κ) where
  -- `P` at every member, as nested pairs.
  abbrev pub All : List A → Type κ
  All [] = Unit
  All (x ∷ xs) = P x × All xs

  pub All-append : (xs ys : List A) → All xs → All ys → All (xs ++ ys)
  All-append [] ys hx hy = hy
  All-append (x ∷ xs) ys hx hy = (hx.0, All-append xs ys hx.1 hy)

  pub All-keep : (p : A → Bool) (xs : List A) → All xs → All (keep p xs)
  unfolding keep
  All-keep p [] h = tt
  All-keep p (x ∷ xs) h = ground (arith, All-keep p xs h.1)

pub All-map {ℓ κ} :
    {A : Type ℓ} {P Q : A → Type κ} → ((x : A) → P x → Q x) → (xs : List A) → All P xs → All Q xs
All-map f [] h = tt
All-map f (x ∷ xs) h = (f x h.0, All-map f xs h.1)

pub All-both {ℓ κ} :
    {A : Type ℓ} (P Q : A → Type κ) (xs : List A) → All P xs → All Q xs → All (λ x. P x × Q x) xs
All-both P Q [] h k = tt
All-both P Q (x ∷ xs) (h, hs) (k, ks) = ((h, k), All-both P Q xs hs ks)

module _ {ℓ} {A : Type ℓ} (P : A → Type 0) where
  -- `P` at some member.
  abbrev pub Exists : List A → Type 0
  Exists [] = ⊥
  Exists (x ∷ xs) = P x ⊎ Exists xs

-- `bool(xs)`
abbrev pub nonempty {ℓ} : {A : Type ℓ} → List A → Bool
nonempty [] = false
nonempty (x ∷ xs) = true

pub nonempty-keep {ℓ} : {A : Type ℓ} (p : A → Bool) (xs : List A) → nonempty (keep p xs) ≡ any p xs
unfolding keep any
nonempty-keep p [] = refl
nonempty-keep p (x ∷ xs) = ground (arith, nonempty-keep p xs)

pub nonempty-map-append {ℓ κ} :
    {A : Type ℓ} {B : Type κ} (f : A → B) (xs : List A) (ys : List B)
    → nonempty (map f xs ++ ys) ≡ (nonempty xs || nonempty ys)
nonempty-map-append f [] ys = refl
nonempty-map-append f (x ∷ xs) ys = refl

-- A Boolean test that decides `P` finds a member just where `Exists P` has one.
pub any_iff {ℓ} :
    {A : Type ℓ} (p : A → Bool) (P : A → Type 0)
    → ((x : A) → (p x ≡ true) ↔ P x)
    → (xs : List A) → (any p xs ≡ true) ↔ Exists P xs
unfolding any
any_iff p P h [] = ground arith
any_iff p P h (x ∷ xs) = ground (arith, h x, any_iff p P h xs)

pub all→All {ℓ} :
    {A : Type ℓ} (p : A → Bool) (xs : List A) → all p xs ≡ true → All (λ x. p x ≡ true) xs
unfolding all
all→All p [] h = tt
all→All p (x ∷ xs) h = ground (arith, all→All p xs)

-- A filter that a later filter implies may be left out.
pub keep-keep {ℓ} :
    {A : Type ℓ} (p q : A → Bool)
    → ((x : A) → p x ≡ true → q x ≡ true)
    → (xs : List A) → keep p (keep q xs) ≡ keep p xs
unfolding keep
keep-keep p q h [] = refl
keep-keep p q h (x ∷ xs) = ground (arith, h x, keep-keep p q h xs)

pub any-keep {ℓ} :
    {A : Type ℓ} (p q : A → Bool)
    → ((x : A) → p x ≡ true → q x ≡ true)
    → (xs : List A) → any p (keep q xs) ≡ any p xs
unfolding keep any
any-keep p q h [] = refl
any-keep p q h (x ∷ xs) = ground (arith, h x, any-keep p q h xs)

pub Exists-All {ℓ} :
    {A : Type ℓ} (P Q : A → Type 0) (xs : List A)
    → Exists P xs
    → All Q xs
    → Exists (λ x. P x × Q x) xs
Exists-All P Q [] e a = absurd e
Exists-All P Q (x ∷ xs) (inl p) (q, a) = inl (p, q)
Exists-All P Q (x ∷ xs) (inr e) (q, a) = inr (Exists-All P Q xs e a)
