-- ===== src/Prelude/Sort.antt =====
-- Python's `sorted`: total orders, the lexicographic order of sequences and texts, and a stable
-- sort by a key.
pub mod Laws
pub mod Perms
use mathlib.Core.List.{Perm, Permᴰ}
use mathlib.Core.List.Perm
use mathlib.Core.Logic.{∥∥₁_elim}
use Prim.Native.Char.{code}
use Prim.Native.String
use text.Mathlib.TextEquality.{Char-path}
use agent_traffic_intelligen.Prelude.Tests.{leb, if◌then◌else◌, Bool-cases}
use agent_traffic_intelligen.Prelude.Lists.{All}
use agent_traffic_intelligen.Prelude.Text.{codes}
use Prim.Native.Nat.{ℕ}
use Prim.Native.String.{String}
use mathlib.Core.Path.{◌≡◌, refl, sym, ap, ◌∙◌}
use mathlib.Core.Bool.{Bool, true, false}
use mathlib.Core.List.{List, [], ◌∷◌, map}
use mathlib.Core.Logic.{inl, inr}
use native.Mathlib.Omega.{arith}

pub record TotalOrder {ℓ} (A : Type ℓ) : Type ℓ where
  pub le : A → A → Bool
  pub total : (a b : A) → le a b ≡ false → le b a ≡ true
  pub trans : (a b c : A) → le a b ≡ true → le b c ≡ true → le a c ≡ true
  pub antisym : (a b : A) → le a b ≡ true → le b a ≡ true → a ≡ b

pub leb_total : (a b : ℕ) → leb a b ≡ false → leb b a ≡ true
leb_total a b h = ground arith

pub leb_trans : (a b c : ℕ) → leb a b ≡ true → leb b c ≡ true → leb a c ≡ true
leb_trans a b c h k = ground arith

pub leb_antisym : (a b : ℕ) → leb a b ≡ true → leb b a ≡ true → a ≡ b
leb_antisym a b h k = ground arith

abbrev pub nat_order : TotalOrder ℕ
nat_order = record { le = leb; total = leb_total; trans = leb_trans; antisym = leb_antisym }

module _ {ℓ} {A : Type ℓ} (o : TotalOrder A) where
  -- The order of tuples and texts: the first difference decides, and a prefix comes first.
  unfoldable pub lex_le : List A → List A → Bool
  lex_le [] ys = true
  lex_le (x ∷ xs) [] = false
  lex_le (x ∷ xs) (y ∷ ys) = if o.le x y then (if o.le y x then lex_le xs ys else true) else false

  pub lex_total : (a b : List A) → lex_le a b ≡ false → lex_le b a ≡ true
  unfolding lex_le
  lex_total [] b h = cc
  lex_total (x ∷ xs) [] h = refl
  lex_total (x ∷ xs) (y ∷ ys) h = ground (arith, lex_total xs ys, o.total x y, o.total y x)

  pub lex_trans : (a b c : List A) → lex_le a b ≡ true → lex_le b c ≡ true → lex_le a c ≡ true
  unfolding lex_le
  lex_trans [] b c h k = refl
  lex_trans (x ∷ xs) [] c h k = cc
  lex_trans (x ∷ xs) (y ∷ ys) [] h k = cc
  lex_trans (x ∷ xs) (y ∷ ys) (z ∷ zs) h k =
      ground (arith, lex_trans xs ys zs, o.trans x y z, o.trans z x y, o.trans y z x, o.trans z y x)

  pub lex_antisym : (a b : List A) → lex_le a b ≡ true → lex_le b a ≡ true → a ≡ b
  unfolding lex_le
  lex_antisym [] [] h k = refl
  lex_antisym [] (y ∷ ys) h k = cc
  lex_antisym (x ∷ xs) [] h k = cc
  lex_antisym (x ∷ xs) (y ∷ ys) h k = ground (arith, lex_antisym xs ys, o.antisym x y)

  abbrev pub lex_order : TotalOrder (List A)
  lex_order = record { le = lex_le; total = lex_total; trans = lex_trans; antisym = lex_antisym }

pub codes_injective : (s t : String) → codes s ≡ codes t → s ≡ t
codes_injective String.[] String.[] h = refl
codes_injective String.[] (String.◌∷◌ d t) h = cc
codes_injective (String.◌∷◌ c s) String.[] h = cc
codes_injective (String.◌∷◌ c s) (String.◌∷◌ d t) h =
    cc (Char-path c d (cc), codes_injective s t (cc))

-- Texts compare by their code points.
abbrev pub text_order : TotalOrder String
text_order = record {
  le = λ s t. lex_le nat_order (codes s) (codes t);
  total = λ s t h. lex_total nat_order (codes s) (codes t) h;
  trans = λ s t u h k. lex_trans nat_order (codes s) (codes t) (codes u) h k;
  antisym = λ s t h k. codes_injective s t (lex_antisym nat_order (codes s) (codes t) h k);
}

module _ {κ} {K : Type κ} (o : TotalOrder K) where
  insert_key : K → List K → List K
  insert_key k [] = k ∷ []
  insert_key k (j ∷ js) = if o.le k j then k ∷ j ∷ js else j ∷ insert_key k js

  -- Keys that are inserted one after the other may be inserted in either order.
  insert_key_comm :
      (a b : K) (js : List K) → insert_key a (insert_key b js) ≡ insert_key b (insert_key a js)
  unfolding insert_key
  insert_key_comm a b [] = ground (arith, o.total a b, o.antisym a b)
  insert_key_comm a b (j ∷ js) =
      ground
        (arith, insert_key_comm a b js, o.total a b, o.antisym a b, o.trans a b j, o.trans b a j)

module _ {ℓ κ} {A : Type ℓ} {K : Type κ} (o : TotalOrder K) (key : A → K) where
  pub insert_by : A → List A → List A
  insert_by x [] = x ∷ []
  insert_by x (y ∷ ys) = if o.le (key x) (key y) then x ∷ y ∷ ys else y ∷ insert_by x ys

  -- `sorted(xs, key=key)`: among equal keys the order of the input is kept.
  unfoldable pub sorted : List A → List A
  unfolding insert_by
  sorted [] = []
  sorted (x ∷ xs) = insert_by x (sorted xs)

  insert_by-perm : (x : A) (ys : List A) → Perm (insert_by x ys) (x ∷ ys)
  unfolding insert_by
  insert_by-perm x [] = Perm.refl _
  insert_by-perm x (y ∷ ys) = elim (Bool-cases (o.le (key x) (key y))) [
    | inl e ↦ rw e (Perm.refl _)
    | inr e ↦ rw e (Perm.trans (Perm.cons y (insert_by-perm x ys)) (Perm.swap _ _ ys))
  ]

  All-insert_by : (P : A → Type 0) (x : A) (ys : List A) → P x → All P ys → All P (insert_by x ys)
  unfolding insert_by
  All-insert_by P x [] h hs = (h, tt)
  All-insert_by P x (y ∷ ys) h (k, hs) = elim (Bool-cases (o.le (key x) (key y))) [
    | inl e ↦ rw e (h, (k, hs))
    | inr e ↦ rw e (k, All-insert_by P x ys h hs)
  ]

  -- What holds of every member of a sequence holds of every member of the sorted one.
  pub All-sorted : (P : A → Type 0) (xs : List A) → All P xs → All P (sorted xs)
  unfolding sorted
  All-sorted P [] h = tt
  All-sorted P (x ∷ xs) (h, hs) = All-insert_by P x (sorted xs) h (All-sorted P xs hs)

  -- A sorted sequence has the members of its input, as often.
  pub sorted-perm : (xs : List A) → Perm (sorted xs) xs
  unfolding sorted
  sorted-perm [] = Perm.refl []
  sorted-perm (x ∷ xs) = Perm.trans (insert_by-perm x (sorted xs)) (Perm.cons x (sorted-perm xs))

  map-insert_by :
      (x : A) (ys : List A) → map key (insert_by x ys) ≡ insert_key o (key x) (map key ys)
  unfolding insert_by insert_key
  map-insert_by x [] = refl
  map-insert_by x (y ∷ ys) = ground (arith, map-insert_by x ys)

  keys_of_permᴰ : {xs ys : List A} → Permᴰ xs ys → map key (sorted xs) ≡ map key (sorted ys)
  unfolding sorted
  keys_of_permᴰ Permᴰ.nil = refl
  keys_of_permᴰ (Permᴰ.cons {a = a} {b = b} {l₁ = l} {l₂ = m} e d) =
      simp map-insert_by (cc (e, keys_of_permᴰ d))
  keys_of_permᴰ (Permᴰ.swap {a = a} {b = b} {a' = a'} {b' = b'} {l = l} e f) =
      simp map-insert_by (cc (e, f, insert_key_comm o (key a) (key b) (map key (sorted l))))
  keys_of_permᴰ (Permᴰ.trans d e) = keys_of_permᴰ d ∙ keys_of_permᴰ e

  -- The keys of a sorted sequence do not depend on the order of the input.
  pub keys_of_perm :
      {xs ys : List A} → IsSet (List K) → Perm xs ys → map key (sorted xs) ≡ map key (sorted ys)
  keys_of_perm set p = ∥∥₁_elim p (set _ _) keys_of_permᴰ
