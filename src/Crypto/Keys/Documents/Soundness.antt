-- ===== src/Crypto/Keys/Documents/Soundness.antt =====
-- What holds of the keys of a parsed document (identity/crypto/directory.py, jwk_set.py).
use agent_traffic_intelligen.Prelude.{
  ℕ, String, Option, none, some, List, [], ◌∷◌, Bool, true, false, ◌||◌, not, ◌==◌, ◌≡◌, refl,
  subst, ap, opt_eq, any, map, keep, All, All-map, All-both, arith, eq_iff, eq_refl, Bool-cases,
  inl, inr, if◌then◌else◌,
}
use agent_traffic_intelligen.Prelude.Int.{ℤ}
use agent_traffic_intelligen.Prelude.Options.{bind_some, some_subst}
use agent_traffic_intelligen.Json.{Json, Items, Fields, arr, obj, nil, cons, find, get}
use agent_traffic_intelligen.Runtime.{Runtime}
use agent_traffic_intelligen.Crypto.Keys.{DirectoryKey, by_id, only_one}
use agent_traffic_intelligen.Crypto.Keys.Documents.{
  has_duplicates, is_empty_interval, make_directory_key, parse_directory_key, parse_directory_keys,
  directory_of, key_directory_of, parse_key_directory, has_field, jwk_thumbprint, nonempty_text,
  optional_int, optional_string, optional_kid, thumbprints_of,
}

keep_none :
    {A : Type 0} (key : A → String) (k : String) (xs : List A)
    → any (λ y. y == k) (map key xs) ≡ false
    → keep (λ x. key x == k) xs ≡ []
unfolding keep any
keep_none key k [] h = refl
keep_none key k (x ∷ xs) h = ground (arith, keep_none key k xs)

-- Where the names are distinct, a name selects the member that has it.
abbrev pub IsSelected : {A : Type 0} → (A → String) → List A → A → Type 0
IsSelected key xs x = keep (λ y. key y == key x) xs ≡ x ∷ []

IsSelected-rest :
    {A : Type 0} (key : A → String) (x : A) (xs : List A) (y : A)
    → (key x == key y) ≡ false
    → IsSelected key xs y
    → IsSelected key (x ∷ xs) y
unfolding keep
IsSelected-rest key x xs y h e = rw h e

none_has :
    {A : Type 0} (key : A → String) (k : String) (xs : List A)
    → any (λ y. y == k) (map key xs) ≡ false
    → All (λ y. (k == key y) ≡ false) xs
unfolding any
none_has key k [] h = tt
none_has key k (x ∷ xs) h =
    (ground (arith, eq_iff (key x) k, eq_iff k (key x)), none_has key k xs (ground arith))

IsSelected-all :
    {A : Type 0} (key : A → String) (xs : List A)
    → has_duplicates (map key xs) ≡ false
    → All (IsSelected key xs) xs
unfolding has_duplicates keep
IsSelected-all key [] h = tt
IsSelected-all key (x ∷ xs) h =
    let fresh : any (λ y. y == key x) (map key xs) ≡ false = ground arith in
    let head : IsSelected key (x ∷ xs) x =
      rw (eq_refl (key x), keep_none key (key x) xs fresh) refl in
    (
      head,
      All-map (λ y p. IsSelected-rest key x xs y p.0 p.1) xs
          (All-both (λ y. (key x == key y) ≡ false) (IsSelected key xs) xs
            (none_has key (key x) xs fresh) (IsSelected-all key xs (ground arith))),
    )

-- A key that shows no private member, and whose validity, where it has both ends, is not empty.
abbrev pub IsPublic : Fields → Option ℤ → Option ℤ → Type 0
IsPublic jwk not_before expires =
    (has_field (find "d" jwk) ≡ false) × (is_empty_interval not_before expires ≡ false)

made_directory_key :
    (key made : DirectoryKey)
    → make_directory_key key ≡ some made
    → (is_empty_interval key.not_before key.expires ≡ false) × (key ≡ made)
unfolding make_directory_key
made_directory_key key made h =
    elim (Bool-cases (not (opt_eq key.key_use none || opt_eq key.key_use (some "sig")))) [
      | inl e ↦ cc (rw e at h)
      | inr e ↦ elim (Bool-cases (is_empty_interval key.not_before key.expires)) [
        | inl f ↦ cc (rw (e, f) at h)
        | inr f ↦ (f, some_subst (λ k. key ≡ k) (rw (e, f) at h) refl)
      ]
    ]

no_private :
    (b : Bool) (o : Option String) (t : String) → (if b then none else o) ≡ some t → b ≡ false
no_private true o t h = cc
no_private false o t h = refl

module _ (member_digest : Fields → String) where
  directory_key-IsPublic :
      (raw : Fields) (key : DirectoryKey)
      → parse_directory_key member_digest raw ≡ some key
      → IsPublic key.jwk key.not_before key.expires
  unfolding parse_directory_key
  directory_key-IsPublic raw key h =
      let (thumbprint, e, h1) =
        bind_some (if has_field (find "d" raw) then none else jwk_thumbprint member_digest raw) _
          key h in
      let (kid, _, h2) = bind_some (optional_kid (get "kid" raw)) _ key h1 in
      let (alg, _, h3) = bind_some (optional_string (get "alg" raw)) _ key h2 in
      let (key_use, _, h4) = bind_some (optional_string (get "use" raw)) _ key h3 in
      let (kty, _, h5) = bind_some (nonempty_text (get "kty" raw)) _ key h4 in
      let (not_before, _, h6) = bind_some (optional_int (get "nbf" raw)) _ key h5 in
      let (expires, _, h7) = bind_some (optional_int (get "exp" raw)) _ key h6 in
      let (interval, same) = made_directory_key _ key h7 in
      subst (λ k. IsPublic k.jwk k.not_before k.expires) same
        (
          no_private (has_field (find "d" raw)) (jwk_thumbprint member_digest raw) thumbprint e,
          interval,
        )

  directory_keys-IsPublic :
      (items : Items) (keys : List DirectoryKey)
      → parse_directory_keys member_digest items ≡ some keys
      → All (λ k. IsPublic k.jwk k.not_before k.expires) keys
  unfolding parse_directory_keys
  directory_keys-IsPublic nil keys h =
      some_subst (All (λ k. IsPublic k.jwk k.not_before k.expires)) h tt
  directory_keys-IsPublic (cons (obj raw) rest) keys h =
      let (key, e, h1) = bind_some (parse_directory_key member_digest raw) _ keys h in
      let (more, f, h2) = bind_some (parse_directory_keys member_digest rest) _ keys h1 in
      some_subst (All (λ k. IsPublic k.jwk k.not_before k.expires)) h2
        (directory_key-IsPublic raw key e, directory_keys-IsPublic rest more f)
  directory_keys-IsPublic (cons _ rest) keys h = cc

  if_distinct :
      {A : Type 0} (b : Bool) (x y : A)
      → (if b then none else some x) ≡ some y
      → (b ≡ false) × (x ≡ y)
  if_distinct true x y h = cc
  if_distinct false x y h = (refl, some_subst (λ z. x ≡ z) h refl)

  found_by_id :
      (keys : List DirectoryKey) (k : DirectoryKey)
      → IsSelected (λ k. k.key_id) keys k
      → by_id keys k.key_id ≡ some k
  unfolding by_id only_one
  found_by_id keys k e = ap only_one e

  directory_keys_lem :
      (v : Json) (keys : List DirectoryKey)
      → directory_of member_digest v ≡ some keys
      → All (λ k. (by_id keys k.key_id ≡ some k) × IsPublic k.jwk k.not_before k.expires) keys
  unfolding directory_of
  directory_keys_lem (arr items) keys h =
      let (parsed, e, h1) = bind_some (parse_directory_keys member_digest items) _ keys h in
      let (distinct, f, h2) =
        bind_some (if has_duplicates (map (λ k. k.key_id) parsed) then none else some parsed) _ keys
          h1 in
      let (thumbprints, _, h3) = bind_some (thumbprints_of member_digest parsed) _ keys h2 in
      let (fresh, _) =
        if_distinct (has_duplicates (map (λ k. k.key_id) parsed)) parsed distinct f in
      let (_, same) = if_distinct (has_duplicates thumbprints) parsed keys h3 in
      subst
        (λ ks. All (λ k. (by_id ks k.key_id ≡ some k) × IsPublic k.jwk k.not_before k.expires) ks)
        same
        (All-both (λ k. by_id parsed k.key_id ≡ some k) (λ k. IsPublic k.jwk k.not_before k.expires)
          parsed (All-map (found_by_id parsed) parsed (IsSelected-all (λ k. k.key_id) parsed fresh))
          (directory_keys-IsPublic items parsed e))
  directory_keys_lem _ keys h = cc

  key_directory_lem :
      (v : Json) (keys : List DirectoryKey)
      → key_directory_of member_digest v ≡ some keys
      → All (λ k. (by_id keys k.key_id ≡ some k) × IsPublic k.jwk k.not_before k.expires) keys
  unfolding key_directory_of
  key_directory_lem (obj decoded) keys h = directory_keys_lem (get "keys" decoded) keys h
  key_directory_lem _ keys h = cc

  -- Every key of a parsed directory is the one that its identifier selects; it has no private member,
  -- and a validity that, where it has both ends, is not empty.
  pub parse_key_directory-IsPublic :
      (py : Runtime) (content : List ℕ) (keys : List DirectoryKey)
      → parse_key_directory member_digest py content ≡ some keys
      → All (λ k. (by_id keys k.key_id ≡ some k) × IsPublic k.jwk k.not_before k.expires) keys
  unfolding parse_key_directory key_directory_of
  parse_key_directory-IsPublic py content keys h =
      let (v, _, h1) = bind_some (py.load_json content) _ keys h in key_directory_lem v keys h1
