-- ===== src/Sources/Fetcher/Turns.antt =====
-- What one turn of the loop of `SafeFetcher.fetch` (identity/sources/fetcher.py) may do.
use agent_traffic_intelligen.Prelude.{
  ℕ, ◌≤◌, ◌<◌, String, none, some, List, [], Bool, true, false, ◌&&◌, ◌||◌, ◌≡◌, ◌⊎◌, inl, inr,
  refl, ◌==◌, nat_eq, leb, ltb, length, arith, Bool-cases, Option-cases, ap, sym, ◌∙◌, eq_iff,
  ends_with,
}
use agent_traffic_intelligen.Runtime.{Runtime}
use agent_traffic_intelligen.Sources.Exchange.{
  TransportResponse, FetchResult, Attempt, done, fail, Web,
}
use agent_traffic_intelligen.Sources.Fetcher.{
  Turn, finish, follow, header, origin, is_redirect, same_origin, media_type, result_of, finalize,
  headers_for, redirected, turn, send,
}
use agent_traffic_intelligen.Sources.Fetcher.Runs.{IsReal}

module _ (py : Runtime) (web : Web) (max_bytes max_redirects : ℕ) where
  -- A result that the fetcher may return: JSON within the limit with a status of success, or 304.
  pub data IsAcceptable : FetchResult → Type 0 where
    unchanged :
        {r : FetchResult} → r.not_modified ≡ true → r.status ≡ 304 → r.body ≡ none → IsAcceptable r
    fresh :
        {r : FetchResult} (body : List ℕ) (content_type : String)
        → r.not_modified ≡ false
        → 200 ≤ r.status
        → r.status ≤ 299
        → r.body ≡ some body
        → length body ≤ max_bytes
        → r.content_type ≡ some content_type
        → (content_type ≡ "application/json") ⊎ (ends_with content_type "+json" ≡ true)
        → IsAcceptable r

  -- What the last step of a run may return.
  abbrev pub IsGood : ℕ → String → Attempt FetchResult → Type 0
  IsGood n uri (fail e) = IsReal e
  IsGood n uri (done r) = (r.redirects ≡ n) × (r.uri ≡ uri) × IsAcceptable r

  -- What a turn may do at its place in the run.
  abbrev pub IsLawful : ℕ → String → List (String × String) → Attempt Turn → Type 0
  IsLawful n uri headers (fail e) = IsReal e
  IsLawful n uri headers (done (finish r)) = IsGood n uri (done r)
  IsLawful n uri headers (done (follow next next_headers)) =
      (n < max_redirects)
      × ((next_headers ≡ [])
          ⊎ ((next_headers ≡ headers) × (origin py web next ≡ origin py web uri)))

module _ (py : Runtime) (web : Web) (max_bytes max_redirects : ℕ) (follow_redirects : Bool) where
  finalize-IsGood :
      (uri : String) (response : TransportResponse) (n : ℕ)
      → IsGood py web max_bytes max_redirects n uri
          (finalize py web max_bytes max_redirects follow_redirects uri response n)
  unfolding finalize result_of
  finalize-IsGood uri response n = elim (Bool-cases (nat_eq response.status 304)) [
    | inl e ↦ rw (finalize, e) (refl, refl, unchanged refl (ground arith) refl)
    | inr e ↦ elim (Bool-cases (leb 200 response.status && leb response.status 299)) [
      | inr f ↦ rw (finalize, e, f) tt
      | inl f ↦ elim (Bool-cases (ltb max_bytes (length response.body))) [
        | inl g ↦ rw (finalize, e, f, g) tt
        | inr g ↦ elim (Option-cases (header py web response.headers "content-type")) [
          | inl h ↦ rw (finalize, e, f, g, h) tt
          | inr (raw, h) ↦
              elim (Bool-cases (
                media_type py web raw == "application/json"
                || ends_with (media_type py web raw) "+json")) [
                  | inr k ↦ rw (finalize, e, f, g, h, k) tt
                  | inl k ↦
                      rw (finalize, e, f, g, h, k)
                        (
                          refl,
                          refl,
                          fresh response.body (media_type py web raw) refl (ground arith)
                              (ground arith) refl (ground arith) refl
                              (ground (arith, eq_iff (media_type py web raw) "application/json")),
                        )
                ]
        ]
      ]
    ]
  ]

  finish-IsLawful :
      (n : ℕ) (uri : String) (headers : List (String × String)) (m : Attempt FetchResult)
      → IsGood py web max_bytes max_redirects n uri m
      → IsLawful py web max_bytes max_redirects n uri headers
          (elim m [ done result ↦ done (finish result) | fail e ↦ fail e ])
  finish-IsLawful n uri headers (done r) h = h
  finish-IsLawful n uri headers (fail e) h = h

  same_origin_iff : (a b : String × String) → same_origin py web a b ≡ true → a ≡ b
  same_origin_iff (a, b) (c, d) h = ground (arith, eq_iff a c, eq_iff b d)

  redirected-IsLawful :
      (n : ℕ) (uri : String) (headers : List (String × String)) (location : String)
      → n < max_redirects
      → IsLawful py web max_bytes max_redirects n uri headers
          (redirected py web max_bytes max_redirects follow_redirects uri headers location)
  unfolding redirected headers_for
  redirected-IsLawful n uri headers location l = elim (Option-cases (web.urljoin uri location)) [
    | inl e ↦ rw (redirected, e) tt
    | inr (next, e) ↦ elim (Option-cases (origin py web uri)) [
      | inl f ↦ rw (redirected, e, f) tt
      | inr (here, f) ↦ elim (Option-cases (origin py web next)) [
        | inl g ↦ rw (redirected, e, f, g) tt
        | inr (there, g) ↦ elim (Bool-cases (same_origin py web here there)) [
          | inl k ↦
              rw (redirected, e, f, g, k)
                (l, inr (refl, g ∙ ap some (sym (same_origin_iff here there k)) ∙ sym f))
          | inr k ↦ rw (redirected, e, f, g, k) (l, inl refl)
        ]
      ]
    ]
  ]

  turn-IsLawful :
      (n : ℕ) (uri : String) (headers : List (String × String)) (response : TransportResponse)
      → IsLawful py web max_bytes max_redirects n uri headers
          (turn py web max_bytes max_redirects follow_redirects n uri headers response)
  unfolding turn
  turn-IsLawful n uri headers response = elim (Bool-cases (is_redirect response.status)) [
    | inr e ↦ rw (turn, e) (finish-IsLawful n uri headers _ (finalize-IsGood uri response n))
    | inl e ↦ elim (Bool-cases follow_redirects) [
      | inr f ↦ rw (turn, e, f) tt
      | inl f ↦ elim (Bool-cases (leb max_redirects n)) [
        | inl g ↦ rw (turn, e, f, g) tt
        | inr g ↦ elim (Option-cases (header py web response.headers "location")) [
          | inl h ↦ rw (turn, e, f, g, h) tt
          | inr (location, h) ↦ elim (Bool-cases (web.strip location == "")) [
            | inl k ↦ rw (turn, e, f, g, h, k) tt
            | inr k ↦
                rw (turn, e, f, g, h, k) (redirected-IsLawful n uri headers location (ground arith))
          ]
        ]
      ]
    ]
  ]

  -- A turn goes on to another address only within the redirect limit, and takes its headers along only
  -- to the same origin; the result that it may end with is one that the fetcher may return.
  pub send-IsLawful :
      (n : ℕ) (uri : String) (headers : List (String × String)) (addresses : List String)
      → IsLawful py web max_bytes max_redirects n uri headers
          (send py web max_bytes max_redirects follow_redirects n uri headers addresses)
  unfolding send
  send-IsLawful n uri headers addresses =
      elim (Option-cases
        (web.request n (record { uri = uri; headers = headers; allowed_addresses = addresses }))) [
          | inl e ↦ rw (send, e) tt
          | inr (response, e) ↦ rw (send, e) (turn-IsLawful n uri headers response)
        ]
