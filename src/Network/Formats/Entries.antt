-- ===== src/Network/Formats/Entries.antt =====
-- The entries of a range document (identity/network/formats/): the prefix field that one has, and its services.
use agent_traffic_intelligen.Prelude.{
  ℕ, String, Option, none, some, List, [], ◌∷◌, Bool, true, false, not, ◌≡◌, ◌⊎◌, refl, ap, subst,
  if◌then◌else◌, arith, Option-cases, inl, inr,
}
use agent_traffic_intelligen.Json.{Json, Items, Fields, obj, nil, cons, null, str, arr, find}
use agent_traffic_intelligen.Network.Ranges.{ok, bind_ok}
use agent_traffic_intelligen.Network.Formats.{ambiguous, only, prefix_of, strings, services_of}

abbrev is_some {ℓ} : {A : Type ℓ} → Option A → Bool
is_some none = false
is_some (some a) = true

-- An object with exactly one of the two prefix fields.
abbrev pub names_one_prefix : Json → Bool
names_one_prefix (obj item) =
    if is_some (find "ipv4Prefix" item)
    then not (is_some (find "ipv6Prefix" item))
    else is_some (find "ipv6Prefix" item)
names_one_prefix _ = false

-- The items of a list of texts.
abbrev items_of : List String → Items
items_of [] = nil
items_of (s ∷ rest) = cons (str s) (items_of rest)

-- The services of an entry: none where it has null or no such field, or else an array of those texts.
abbrev pub IsServices : Json → List String → Type 0
IsServices value services = ((value ≡ null) × (services ≡ [])) ⊎ (value ≡ arr (items_of services))

-- The value of the one prefix field that an object has, with its version.
abbrev pub HasPrefix : Fields → Json → ℕ → Type 0
HasPrefix item v version =
    ((find "ipv4Prefix" item ≡ some v) × (find "ipv6Prefix" item ≡ none) × (version ≡ 4))
    ⊎ ((find "ipv4Prefix" item ≡ none) × (find "ipv6Prefix" item ≡ some v) × (version ≡ 6))

pub prefix_cases :
    (item : Fields)
    → ((prefix_of item ≡ ambiguous) × (names_one_prefix (obj item) ≡ false))
      ⊎ ((v : Json) × (version : ℕ) × (prefix_of item ≡ only v version) × HasPrefix item v version)
unfolding prefix_of
prefix_cases item = elim (Option-cases (find "ipv4Prefix" item)) [
  | inl no4 ↦ elim (Option-cases (find "ipv6Prefix" item)) [
    | inl no6 ↦ inl (ground arith, ground arith)
    | inr (v6, e) ↦ inr (v6, 6, ground arith, inr (no4, e, refl))
  ]
  | inr (v4, f) ↦ elim (Option-cases (find "ipv6Prefix" item)) [
    | inl no6 ↦ inr (v4, 4, ground arith, inl (f, no6, refl))
    | inr (v6, e) ↦ inl (ground arith, ground arith)
  ]
]

pub ok_subst {ℓ κ} : {A : Type ℓ} (P : A → Type κ) {a b : A} → ok a ≡ ok b → P a → P b
ok_subst P {a = a} {b = b} h p = subst P {x = a} {y = b} (ground arith) p

strings_lem :
    (items : Items) (services : List String)
    → strings items ≡ ok services
    → items ≡ items_of services
unfolding strings
strings_lem nil services h = ok_subst (λ l. nil ≡ items_of l) h refl
strings_lem (cons (str s) items) services h =
    let (rest, e, h') = bind_ok (strings items) _ services h in
    ok_subst (λ l. cons (str s) items ≡ items_of l) h'
      (ap (cons (str s)) (strings_lem items rest e))
strings_lem (cons _ items) services h = absurd (ground arith)

pub services_lem :
    (value : Json) (services : List String)
    → services_of value ≡ ok services
    → IsServices value services
unfolding services_of
services_lem null services h = inl (refl, ok_subst (λ l. l ≡ []) h refl)
services_lem (arr items) services h = inr (ap arr (strings_lem items services h))
services_lem _ services h = absurd (ground arith)
