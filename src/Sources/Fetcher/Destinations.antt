-- ===== src/Sources/Fetcher/Destinations.antt =====
-- Where `SafeFetcher.fetch` (identity/sources/fetcher.py) may send a request.
use agent_traffic_intelligen.Prelude.{
  ℕ, String, none, some, List, [], ◌∷◌, true, ◌&&◌, ◌≡◌, inl, inr, refl, ◌==◌, any, arith,
  Bool-cases, Option-cases, subst, eq_iff, opt_eq, opt_eq_iff, All,
}
use agent_traffic_intelligen.Prelude.Sort.{text_order, sorted, All-sorted}
use agent_traffic_intelligen.Runtime.{Address, Runtime}
use agent_traffic_intelligen.Network.Ranges.{unmapped}
use agent_traffic_intelligen.Sources.Exchange.{Request, SplitUri, done, Web}
use agent_traffic_intelligen.Sources.Fetcher.{
  add_text, destination, validate_uri, resolve_public_addresses, public_addresses, normalize,
  is_public,
}
use agent_traffic_intelligen.Sources.Fetcher.Runs.{IsFueled, Attempt-cases}

pub done_injective {ℓ} : {A : Type ℓ} {a b : A} → done a ≡ done b → a ≡ b
done_injective h = cc

module _ (py : Runtime) (web : Web) where
  -- The text of a public address.
  abbrev pub IsPublicText : String → Type 0
  IsPublicText t =
      (address : Address) × (t ≡ py.address_text address) × (is_public py web address ≡ true)

  -- A request that may leave the machine: over https, without credentials or a fragment, and to
  -- public addresses only.
  pub record IsSafe (request : Request) : Type 0 where
    pub parsed : SplitUri
    pub split : web.urlsplit request.uri ≡ some parsed
    pub https : py.casefold parsed.scheme ≡ "https"
    pub no_username : parsed.username ≡ none
    pub no_password : parsed.password ≡ none
    pub no_fragment : parsed.fragment ≡ ""
    pub public : All IsPublicText request.allowed_addresses

  All-add_text :
      (t : String) (ts : List String)
      → IsPublicText t
      → All IsPublicText ts
      → All IsPublicText (add_text t ts)
  unfolding add_text
  All-add_text t ts h hs = elim (Bool-cases (any (λ u. u == t) ts)) [
    | inl e ↦ rw (add_text, e) hs
    | inr e ↦ rw (add_text, e) (h, hs)
  ]

  All-normalize :
      (raws normalized out : List String)
      → All IsPublicText normalized
      → normalize py web normalized raws ≡ done out
      → All IsPublicText out
  unfolding normalize
  All-normalize [] normalized out hs h = let same : normalized ≡ out = cc in rw same at hs
  All-normalize (raw ∷ raws) normalized out hs h = elim (Option-cases (py.ip_address raw)) [
    | inl e ↦ absurd cc
    | inr (address, e) ↦ elim (Bool-cases (is_public py web (unmapped address))) [
      | inr f ↦ absurd cc
      | inl f ↦
          All-normalize raws (add_text (py.address_text (unmapped address)) normalized) out
            (All-add_text (py.address_text (unmapped address)) normalized
              (unmapped address, refl, f) hs)
            (rw (normalize, e, f) at h)
    ]
  ]

  All-public_addresses :
      (raws addresses : List String)
      → public_addresses py web raws ≡ done addresses
      → All IsPublicText addresses
  unfolding public_addresses
  All-public_addresses [] addresses h = absurd cc
  All-public_addresses (raw ∷ raws) addresses h =
      elim (Attempt-cases (normalize py web [] (raw ∷ raws))) [
        | inr (e, f) ↦ absurd cc
        | inl (normalized, f) ↦
            let same : sorted text_order (λ t. t) normalized ≡ addresses =
              done_injective (rw (public_addresses, f) at h) in
            let public : All IsPublicText (sorted text_order (λ t. t) normalized) =
              All-sorted text_order (λ t. t) IsPublicText normalized
                (All-normalize (raw ∷ raws) [] normalized tt f) in
            rw same at public
      ]

  All-resolved :
      (n : ℕ) (hostname : String) (addresses : List String)
      → resolve_public_addresses py web n hostname ≡ done addresses
      → All IsPublicText addresses
  unfolding resolve_public_addresses
  All-resolved n hostname addresses h = elim (Option-cases (web.resolve n hostname)) [
    | inl e ↦ absurd cc
    | inr (raws, e) ↦ All-public_addresses raws addresses (rw (resolve_public_addresses, e) at h)
  ]

  validated :
      (uri hostname : String)
      → validate_uri py web uri ≡ done hostname
      → (parsed : SplitUri) × (web.urlsplit uri ≡ some parsed)
        × (py.casefold parsed.scheme ≡ "https")
        × (parsed.username ≡ none)
        × (parsed.password ≡ none)
        × (parsed.fragment ≡ "")
  unfolding validate_uri
  validated uri hostname h = elim (Option-cases (web.urlsplit uri)) [
    | inl e ↦ absurd cc
    | inr (parsed, e) ↦ (
      parsed,
      e,
      ground (arith, eq_iff (py.casefold parsed.scheme) "https"),
      ground (arith, opt_eq_iff parsed.username none),
      ground (arith, opt_eq_iff parsed.password none),
      ground (arith, eq_iff parsed.fragment ""),
    )
  ]

  pub destination-IsSafe :
      (n : ℕ) (uri : String) (headers : List (String × String)) (addresses : List String)
      → destination py web n uri ≡ done addresses
      → IsSafe (record { uri = uri; headers = headers; allowed_addresses = addresses })
  unfolding destination
  destination-IsSafe n uri headers addresses h = elim (Attempt-cases (validate_uri py web uri)) [
    | inr (e, v) ↦ absurd cc
    | inl (hostname, v) ↦
        let (parsed, split, https, no_username, no_password, no_fragment) =
          validated uri hostname v in
        record {
          parsed = parsed;
          split = split;
          https = https;
          no_username = no_username;
          no_password = no_password;
          no_fragment = no_fragment;
          public = All-resolved n hostname addresses (rw (destination, v) at h);
        }
  ]

module _ (py : Runtime) (web : Web) where
  validate_uri-IsFueled : (uri : String) → IsFueled (validate_uri py web uri)
  unfolding validate_uri
  validate_uri-IsFueled uri = elim (Option-cases (web.urlsplit uri)) [
    | inl e ↦ rw (validate_uri, e) tt
    | inr (parsed, e) ↦ elim (Bool-cases (py.casefold parsed.scheme == "https")) [
      | inr f ↦ rw (validate_uri, e, f) tt
      | inl f ↦ elim (Bool-cases (opt_eq parsed.username none && opt_eq parsed.password none)) [
        | inr g ↦ rw (validate_uri, e, f, g) tt
        | inl g ↦ elim (Option-cases parsed.hostname) [
          | inl h ↦ rw (validate_uri, e, f, g, h) tt
          | inr (hostname, h) ↦ elim (Bool-cases (parsed.fragment == "")) [
            | inl k ↦ rw (validate_uri, e, f, g, h, k) tt
            | inr k ↦ rw (validate_uri, e, f, g, h, k) tt
          ]
        ]
      ]
    ]
  ]

  normalize-IsFueled : (raws normalized : List String) → IsFueled (normalize py web normalized raws)
  unfolding normalize
  normalize-IsFueled [] normalized = tt
  normalize-IsFueled (raw ∷ raws) normalized = elim (Option-cases (py.ip_address raw)) [
    | inl e ↦ rw (normalize, e) tt
    | inr (address, e) ↦ elim (Bool-cases (is_public py web (unmapped address))) [
      | inr f ↦ rw (normalize, e, f) tt
      | inl f ↦
          rw (normalize, e, f)
            (normalize-IsFueled raws (add_text (py.address_text (unmapped address)) normalized))
    ]
  ]

  public_addresses-IsFueled : (raws : List String) → IsFueled (public_addresses py web raws)
  unfolding public_addresses
  public_addresses-IsFueled [] = tt
  public_addresses-IsFueled (raw ∷ raws) = elim (Attempt-cases (normalize py web [] (raw ∷ raws))) [
    | inl (a, e) ↦ rw (public_addresses, e) tt
    | inr (x, e) ↦
        rw (public_addresses, e) (subst (λ a. IsFueled a) e (normalize-IsFueled (raw ∷ raws) []))
  ]

  pub destination-IsFueled : (n : ℕ) (uri : String) → IsFueled (destination py web n uri)
  unfolding destination resolve_public_addresses
  destination-IsFueled n uri = elim (Attempt-cases (validate_uri py web uri)) [
    | inr (x, e) ↦ rw (destination, e) (subst (λ a. IsFueled a) e (validate_uri-IsFueled uri))
    | inl (hostname, e) ↦ elim (Option-cases (web.resolve n hostname)) [
      | inl f ↦ rw (destination, e, resolve_public_addresses, f) tt
      | inr (raws, f) ↦
          rw (destination, e, resolve_public_addresses, f) (public_addresses-IsFueled raws)
    ]
  ]
