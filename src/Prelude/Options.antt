-- ===== src/Prelude/Options.antt =====
-- Calls that may fail without a message of their own: the result of a chain of them.
use mathlib.Core.Path.{◌≡◌, refl, subst}
use native.Mathlib.Omega.{arith}
use mathlib.Core.Option.{Option, none, some}

infixl 5 ◌>>=◌
abbrev pub ◌>>=◌ {ℓ κ} : {A : Type ℓ} {B : Type κ} → Option A → (A → Option B) → Option B
some a >>= f = f a
none >>= f = none

-- A chain that succeeds has a first result.
pub bind_some {ℓ κ} :
    {A : Type ℓ} {B : Type κ} (m : Option A) (f : A → Option B) (b : B)
    → (m >>= f) ≡ some b
    → (a : A) × (m ≡ some a) × (f a ≡ some b)
bind_some (some a) f b h = (a, refl, h)
bind_some none f b h = cc

-- What holds of a returned value holds of the one it is known as.
pub some_subst {ℓ κ} : {A : Type ℓ} (P : A → Type κ) {a b : A} → some a ≡ some b → P a → P b
some_subst P {a = a} {b = b} h p = subst P {x = a} {y = b} (ground arith) p
