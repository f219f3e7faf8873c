-- ===== src/Prelude/Text.antt =====
-- Text as the program compares it: equality, optional text, truthiness, and the code points.
use Prim.Native.Nat.{ℕ}
use Prim.Native.Char.{Char, code}
use Prim.Native.String
use Prim.Native.String.{String}
use mathlib.Core.Path.{◌≡◌, refl}
use mathlib.Core.Logic.{◌↔◌, inl, inr}
use mathlib.Core.HLevel.{hedberg}
use mathlib.Core.Bool.{Bool, true, false, ◌||◌}
use mathlib.Core.Option.{Option, none, some}
use mathlib.Core.List.{List, [], ◌∷◌}
use native.Mathlib.Omega.{arith}
use text.Mathlib.Text.{◌==◌ as text_eq}
use text.Mathlib.TextEquality.{eq_iff}
use agent_traffic_intelligen.Prelude.Tests.{if◌then◌else◌, Bool-cases, nat_eq}

infix 50 ◌==◌
abbrev pub ◌==◌ : String → String → Bool
◌==◌ = text_eq

infixr 65 ◌⁀◌
-- Concatenation of texts, and of the parts of an f-string.
abbrev pub ◌⁀◌ : String → String → String
s ⁀ t = String.◌++◌ s t

-- `==` between optional texts.
abbrev pub opt_eq : Option String → Option String → Bool
opt_eq none none = true
opt_eq (some s) (some t) = s == t
opt_eq _ _ = false

pub opt_eq_iff : (a b : Option String) → (opt_eq a b ≡ true) ↔ (a ≡ b)
opt_eq_iff none none = ground arith
opt_eq_iff (some s) (some t) = ground (arith, eq_iff s t)
opt_eq_iff none (some t) = ground arith
opt_eq_iff (some s) none = ground arith

-- `value or default`: `None` and the empty text are both false.
unfoldable pub or_else : Option String → String → String
or_else none d = d
or_else (some s) d = if s == "" then d else s

-- The code points of a text.
abbrev pub codes : String → List ℕ
codes String.[] = []
codes (String.◌∷◌ c s) = code c ∷ codes s

pub text_discrete : Discrete String
text_discrete s t = elim (Bool-cases (s == t)) [
  | inl e ↦ yes ((eq_iff s t).0 e)
  | inr e ↦ no (λ p. ground (arith, eq_iff s t))
]

pub text-set : IsSet String
text-set = hedberg text_discrete

pub keys-set : IsSet (List (List String))
keys-set = hedberg (hlevel text_discrete)

-- A default is taken exactly when the value counts as empty.
pub or_else_lem :
    (o : Option String) (d : String)
    → or_else o d ≡ (if or_else o "" == "" then d else or_else o "")
unfolding or_else
or_else_lem none d = refl
or_else_lem (some s) d = elim (Bool-cases (s == "")) [ inl e ↦ rw e | inr e ↦ rw (e, e) ]

-- `s.rstrip(".")`
unfoldable pub strip_dots : String → String
strip_dots String.[] = ""
strip_dots (String.◌∷◌ c s) =
    let rest = strip_dots s in
    if rest == ""
    then (if nat_eq (code c) b'.' then "" else String.◌∷◌ c rest)
    else String.◌∷◌ c rest

-- `s.endswith(t)`
unfoldable pub ends_with : String → String → Bool
ends_with String.[] t = t == ""
ends_with (String.◌∷◌ c s) t = String.◌∷◌ c s == t || ends_with s t

-- A character in front of the first part.
unfoldable pub onto_first : Char → List String → List String
onto_first c [] = (String.◌∷◌ c "") ∷ []
onto_first c (x ∷ xs) = (String.◌∷◌ c x) ∷ xs

-- `s.split(separator)`, of a separator of one character
unfoldable pub split_at : ℕ → String → List String
unfolding onto_first
split_at n String.[] = "" ∷ []
split_at n (String.◌∷◌ c s) =
    let rest = split_at n s in if nat_eq (code c) n then "" ∷ rest else onto_first c rest

-- `s.partition("=")`: the text before the first sign, and the text after it if there is one.
unfoldable pub partition_at : ℕ → String → String × Option String
partition_at n String.[] = ("", none)
partition_at n (String.◌∷◌ c s) =
    let (before, after) = partition_at n s in
    if nat_eq (code c) n then ("", some s) else (String.◌∷◌ c before, after)
