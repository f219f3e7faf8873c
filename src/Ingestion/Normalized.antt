-- ===== src/Ingestion/Normalized.antt =====
-- What holds of the requests that ingestion/jsonl.py yields.
use agent_traffic_intelligen.Prelude.{
  ℕ, nonempty, String, Option, none, some, List, Bool, true, false, ◌&&◌, ◌||◌, ◌==◌, ◌⁀◌, ◌≡◌, ◌⊎◌,
  ◌≤◌, refl, sym, ◌∙◌, ap, subst, leb, arith, inl, inr, [], ◌∷◌, Exists, Bool-cases, if◌then◌else◌,
}
use agent_traffic_intelligen.Json.{Json, Fields, str, find, get}
use agent_traffic_intelligen.Prelude.Options.{some_subst}
use agent_traffic_intelligen.Domain.{RequestEvent}
use agent_traffic_intelligen.Sources.Records.{text}
use agent_traffic_intelligen.Ingestion.{
  Outcome, done, parse_error, other_error, ◌>>=◌, or_parse_error, or_other, Library,
}
use agent_traffic_intelligen.Ingestion.Records.{
  is_absent, get_or, required, parse_timestamp, safe_path, full_text, is_rooted, rooted, client_of,
  pseudonym_of, pseudonymize_client, request_id_of, text_or_none, make_event, normalize_record,
  event_of, numbers_of, flags_of,
}

bind_done {ℓ κ} :
    {A : Type ℓ} {B : Type κ} (m : Outcome A) (f : A → Outcome B) (b : B)
    → (m >>= f) ≡ done b
    → (a : A) × (m ≡ done a) × (f a ≡ done b)
bind_done (done a) f b h = (a, refl, h)
bind_done (parse_error e) f b h = cc
bind_done other_error f b h = cc

done_subst {ℓ κ} : {A : Type ℓ} (P : A → Type κ) {a b : A} → done a ≡ done b → P a → P b
done_subst P {a = a} {b = b} h p = subst P {x = a} {y = b} (ground arith) p

made_event :
    (e made : RequestEvent)
    → or_other (make_event e) ≡ done made
    → (made ≡ e)
      × ((e.client_id == "") ≡ false)
      × ((e.request_id == "") ≡ false)
      × (is_rooted e.path ≡ true)
      × (100 ≤ e.status)
      × (e.status ≤ 599)
unfolding make_event
made_event e made h =
    elim (Bool-cases (e.request_id == "" || (e.client_id == "" || e.method == ""))) [
      | inl a ↦ cc (rw a at h)
      | inr a ↦ elim (Bool-cases (is_rooted e.path)) [
        | inr b ↦ cc (rw (a, b) at h)
        | inl b ↦ elim (Bool-cases (leb 100 e.status && leb e.status 599)) [
          | inr c ↦ cc (rw (a, b, c) at h)
          | inl c ↦ (
            done_subst (λ x. x ≡ e) (rw (a, b, c) at h) refl,
            ground arith,
            ground arith,
            b,
            ground arith,
            ground arith,
          )
        ]
      ]
    ]

if_done {ℓ} :
    {A : Type ℓ} (b : Bool) (x y : A) (e : String)
    → (if b then done x else parse_error e) ≡ done y
    → (b ≡ true) × (x ≡ y)
if_done true x y e h = (refl, done_subst (λ z. x ≡ z) h refl)
if_done false x y e h = cc

parse_error-some {ℓ} :
    {A : Type ℓ} (e : String) (o : Option A) (a : A) → or_parse_error e o ≡ done a → o ≡ some a
parse_error-some e none a h = cc
parse_error-some e (some b) a h = done_subst (λ x. some b ≡ some x) h refl

other-some {ℓ} : {A : Type ℓ} (o : Option A) (a : A) → or_other o ≡ done a → o ≡ some a
other-some none a h = cc
other-some (some b) a h = done_subst (λ x. some b ≡ some x) h refl

full_text_lem : (v : Json) (s : String) → full_text v ≡ some s → v ≡ str s
unfolding full_text
full_text_lem (str t) s h = elim (Bool-cases (t == "")) [
  | inl e ↦ cc (rw e at h)
  | inr e ↦ some_subst (λ x. str t ≡ str x) (rw e at h) refl
]
full_text_lem _ s h = cc

module _ (lib : Library) (hash_key : Option (List ℕ)) where
  -- A pseudonym of the address: the digest of it under the key.
  abbrev pub IsPseudonymOf : String → String → Type 0
  IsPseudonymOf raw client_id =
      (key : List ℕ) × (encoded : List ℕ) × (digest : String) × (hash_key ≡ some key)
      × (lib.utf8 raw ≡ some encoded)
      × (lib.keyed_digest key encoded ≡ some digest)
      × (client_id ≡ "blake2b:" ⁀ digest)

  -- The identifier of a record: the full text that it supplies, or else the pseudonym of its address.
  abbrev pub IsPseudonym : Json → Json → String → Type 0
  IsPseudonym supplied address client_id =
      (supplied ≡ str client_id)
      ⊎ ((raw : String) × (full_text supplied ≡ none)
          × (address ≡ str raw)
          × IsPseudonymOf raw client_id)

  -- The address of a record, of either name.
  abbrev pub address_of : Fields → Json
  address_of fields = get_or (find "remote_addr" fields) (get "client_ip" fields)

  pseudonym_lem :
      (raw : String) (key : List ℕ) (client_id : String)
      → hash_key ≡ some key
      → pseudonymize_client lib raw key ≡ done client_id
      → IsPseudonymOf raw client_id
  unfolding pseudonymize_client
  pseudonym_lem raw key client_id keyed h =
      let (used, k, h1) = bind_done (if nonempty key then done key else _) _ client_id h in
      let (encoded, u, h2) = bind_done (or_parse_error _ (lib.utf8 raw)) _ client_id h1 in
      let (digest, d, h3) = bind_done (or_other (lib.keyed_digest used encoded)) _ client_id h2 in
      let (_, same) = if_done (nonempty key) key used _ k in
      (
        used,
        encoded,
        digest,
        keyed ∙ ap some same,
        parse_error-some _ _ encoded u,
        other-some _ digest d,
        done_subst (λ c. c ≡ "blake2b:" ⁀ digest) h3 refl,
      )

  pseudonym_of-IsPseudonymOf :
      (raw client_id : String) (key : Option (List ℕ))
      → hash_key ≡ key
      → pseudonym_of lib raw key ≡ done client_id
      → IsPseudonymOf raw client_id
  unfolding pseudonym_of
  pseudonym_of-IsPseudonymOf raw client_id none keyed h = cc
  pseudonym_of-IsPseudonymOf raw client_id (some key) keyed h =
      pseudonym_lem raw key client_id keyed h

  client_lem :
      (supplied address : Json) (client_id : String) (o : Option String)
      → full_text supplied ≡ o
      → client_of lib o address hash_key ≡ done client_id
      → IsPseudonym supplied address client_id
  unfolding client_of
  client_lem supplied address client_id (some s) e h =
      inl (full_text_lem supplied s e ∙ ap str (done_subst (λ c. s ≡ c) h refl))
  client_lem supplied address client_id none e h =
      let (raw, f, h1) = bind_done (or_parse_error _ (full_text address)) _ client_id h in
      inr (
        raw,
        e,
        full_text_lem address raw (parse_error-some _ (full_text address) raw f),
        pseudonym_of-IsPseudonymOf raw client_id hash_key refl h1,
      )

  -- The path that `urlsplit` found in a target, rooted and without its query.
  abbrev pub IsPathOf : Json → String → Type 0
  IsPathOf value path =
      (target : String) × (split : String) × (value ≡ str target)
      × (lib.split_path target ≡ some split)
      × (path ≡ rooted split)

  safe_path-IsPathOf :
      (value : Json) (path : String) → safe_path lib value ≡ done path → IsPathOf value path
  unfolding safe_path
  safe_path-IsPathOf value path h =
      let (target, t, h1) = bind_done (or_parse_error _ (full_text value)) _ path h in
      let (split, s, h2) = bind_done (or_other (lib.split_path target)) _ path h1 in
      (
        target,
        split,
        full_text_lem value target (parse_error-some _ (full_text value) target t),
        other-some _ split s,
        done_subst (λ x. x ≡ rooted split) h2 refl,
      )

  path_lem :
      (names : List String) (fields : Fields) (value : Json) (path : String)
      → required names fields ≡ done value
      → safe_path lib value ≡ done path
      → Exists (λ name. IsPathOf (get name fields) path) names
  unfolding required
  path_lem [] fields value path h safe = cc
  path_lem (name ∷ names) fields value path h safe =
      elim (Bool-cases (is_absent (get name fields))) [
        | inl e ↦ inr (path_lem names fields value path (rw e at h) safe)
        | inr e ↦ inl (
            safe_path-IsPathOf (get name fields) path
              (done_subst (λ v. safe_path lib v ≡ done path) (sym (rw e at h)) safe))
      ]

  abbrev pub path_names : List String
  path_names = "path" ∷ "request_uri" ∷ "uri" ∷ []

  -- What is kept of a record.
  abbrev pub IsPrivate : Fields → RequestEvent → Type 0
  IsPrivate fields e =
      IsPseudonym (get "client_id" fields) (address_of fields) e.client_id
      × Exists (λ name. IsPathOf (get name fields) e.path) path_names
      × (is_rooted e.path ≡ true)
      × ((e.client_id == "") ≡ false)
      × ((e.request_id == "") ≡ false)
      × (100 ≤ e.status)
      × (e.status ≤ 599)

  made-IsPrivate :
      (fields : Fields) (e made : RequestEvent)
      → IsPseudonym (get "client_id" fields) (address_of fields) e.client_id
      → Exists (λ name. IsPathOf (get name fields) e.path) path_names
      → or_other (make_event e) ≡ done made
      → IsPrivate fields made
  made-IsPrivate fields e made client path h =
      let (same, named, identified, slash, low, high) = made_event e made h in
      subst (IsPrivate fields) (sym same) (client, path, slash, named, identified, low, high)

  -- A request that is normalized from a record has the client identifier that the record supplies, or, where it
  -- supplies none, the pseudonym of the record's address, which is its digest under the configured key; its
  -- path is the path alone that `urlsplit` found in one of the record's three fields for it, rooted, without
  -- the query; its status is a valid one and its identifiers are not empty.
  pub normalize_record-IsPrivate :
      (fields : Fields) (source : String) (line_number : Option ℕ) (e : RequestEvent)
      → normalize_record lib fields hash_key source line_number ≡ done e
      → IsPrivate fields e
  unfolding normalize_record event_of
  normalize_record-IsPrivate fields source line_number e h =
      let (_, _, h1) = bind_done (required _ fields) _ e h in
      let (time, _, h2) = bind_done (parse_timestamp lib _) _ e h1 in
      let (method, _, h3) = bind_done (required _ fields) _ e h2 in
      let (raw_path, required_path, h4) = bind_done (required _ fields) _ e h3 in
      let (path, is_path, h5) = bind_done (safe_path lib raw_path) _ e h4 in
      let (numbers, _, h6) = bind_done (numbers_of lib fields) _ e h5 in
      let (client_id, is_client, h7) =
        bind_done (client_of lib (full_text (get "client_id" fields)) _ hash_key) _ e h6 in
      let (request_id, _, h8) =
        bind_done (request_id_of lib (text_or_none lib (get "request_id" fields)) _) _ e h7 in
      let (flags, _, h9) = bind_done (flags_of lib fields) _ e h8 in
      made-IsPrivate fields
        (event_of lib fields source time (lib.upper (text lib.py method)) path numbers client_id
          request_id flags)
        e (client_lem (get "client_id" fields) (address_of fields) client_id _ refl is_client)
        (path_lem path_names fields raw_path path required_path is_path) h9
