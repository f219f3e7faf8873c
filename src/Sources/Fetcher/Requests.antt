-- ===== src/Sources/Fetcher/Requests.antt =====
-- The requests that `SafeFetcher.fetch` (identity/sources/fetcher.py) may send, and what it returns.
use agent_traffic_intelligen.Prelude.{
  ℕ, suc, ◌+◌, ◌≤◌, String, Option, List, [], Bool, ◌≡◌, ◌⊎◌, inl, inr, refl, length, arith, subst,
  ◌∙◌, All,
}
use agent_traffic_intelligen.Runtime.{Runtime}
use agent_traffic_intelligen.Sources.Exchange.{FetchResult, Request, Attempt, done, fail, Web}
use agent_traffic_intelligen.Sources.Fetcher.{
  Turn, finish, follow, conditional_headers, origin, send, fetch,
}
use agent_traffic_intelligen.Sources.Fetcher.Runs.{
  IsFueled, Runs, starved, refused, failed, finished, followed, fetch_from-Runs,
}
use agent_traffic_intelligen.Sources.Fetcher.Turns.{IsLawful, IsAcceptable, send-IsLawful}
use agent_traffic_intelligen.Sources.Fetcher.Destinations.{
  IsSafe, done_injective, destination-IsSafe, destination-IsFueled,
}

module _ (py : Runtime) (web : Web) (max_bytes max_redirects : ℕ) (follow_redirects : Bool) where
  -- What the turn at the end of a run did, and may do.
  lawful :
      (n : ℕ) (uri : String) (headers : List (String × String)) (addresses : List String)
      (m : Attempt Turn)
      → send py web max_bytes max_redirects follow_redirects n uri headers addresses ≡ m
      → IsLawful py web max_bytes max_redirects n uri headers m
  lawful n uri headers addresses m s =
      subst (IsLawful py web max_bytes max_redirects n uri headers) s
        (send-IsLawful py web max_bytes max_redirects follow_redirects n uri headers addresses)

  bounded_run :
      {fuel n : ℕ} {uri : String} {headers : List (String × String)} {requests : List Request}
      {outcome : Attempt FetchResult}
      → Runs py web max_bytes max_redirects follow_redirects fuel n uri headers requests outcome
      → fuel + n ≡ suc max_redirects
      → n ≤ max_redirects
      → IsFueled outcome × (length requests ≤ fuel)
  bounded_run starved l m = absurd (omega arith)
  bounded_run {n = n} {uri = uri} (refused e d) l m =
      (subst (λ a. IsFueled a) d (destination-IsFueled py web n uri), omega arith)
  bounded_run {n = n} {uri = uri} {headers = headers} (failed addresses e d s) l m =
      (lawful n uri headers addresses (fail e) s, omega arith)
  bounded_run (finished addresses r d s) l m = (tt, omega arith)
  bounded_run {n = n} {uri = uri} {headers = headers}
        (followed addresses next next_headers requests outcome d s run) l m =
      let (below, same) = lawful n uri headers addresses (done (follow next next_headers)) s in
      let (fueled, short) = bounded_run run (omega arith) (omega arith) in (fueled, omega arith)

  IsSafe-run :
      {fuel n : ℕ} {uri : String} {headers : List (String × String)} {requests : List Request}
      {outcome : Attempt FetchResult}
      → Runs py web max_bytes max_redirects follow_redirects fuel n uri headers requests outcome
      → All (IsSafe py web) requests
  IsSafe-run starved = tt
  IsSafe-run (refused e d) = tt
  IsSafe-run (failed addresses e d s) = (destination-IsSafe py web _ _ _ addresses d, tt)
  IsSafe-run (finished addresses r d s) = (destination-IsSafe py web _ _ _ addresses d, tt)
  IsSafe-run (followed addresses next next_headers requests outcome d s run) =
      (destination-IsSafe py web _ _ _ addresses d, IsSafe-run run)

  -- A request that carries headers goes to the given origin.
  abbrev pub IsAtOrigin : Option (String × String) → Request → Type 0
  IsAtOrigin o request = (request.headers ≡ []) ⊎ (origin py web request.uri ≡ o)

  origin_run :
      {fuel n : ℕ} {uri : String} {headers : List (String × String)} {requests : List Request}
      {outcome : Attempt FetchResult} (o : Option (String × String))
      → Runs py web max_bytes max_redirects follow_redirects fuel n uri headers requests outcome
      → (headers ≡ []) ⊎ (origin py web uri ≡ o)
      → All (IsAtOrigin o) requests
  origin_run o starved h = tt
  origin_run o (refused e d) h = tt
  origin_run o (failed addresses e d s) h = (h, tt)
  origin_run o (finished addresses r d s) h = (h, tt)
  origin_run {n = n} {uri = uri} {headers = headers} o
        (followed addresses next next_headers requests outcome d s run) h =
      let (below, same) = lawful n uri headers addresses (done (follow next next_headers)) s in
      (
        h,
        origin_run o run (elim same [
          | inl dropped ↦ inl dropped
          | inr (kept, here) ↦ elim h [
            | inl bare ↦ inl (kept ∙ bare)
            | inr there ↦ inr (here ∙ there)
          ]
        ]),
      )

  result_run :
      {fuel n : ℕ} {uri : String} {headers : List (String × String)} {requests : List Request}
      {outcome : Attempt FetchResult} (r : FetchResult)
      → Runs py web max_bytes max_redirects follow_redirects fuel n uri headers requests outcome
      → outcome ≡ done r
      → IsAcceptable py web max_bytes max_redirects r × (suc r.redirects ≡ n + length requests)
  result_run r starved h = absurd cc
  result_run r (refused e d) h = absurd cc
  result_run r (failed addresses e d s) h = absurd cc
  result_run {n = n} {uri = uri} {headers = headers} r (finished addresses found d s) h =
      let (count, at, good) = lawful n uri headers addresses (done (finish found)) s in
      let same : found ≡ r = done_injective h in
      let counted : suc found.redirects ≡ n + 1 = omega arith in
      (rw same at good, rw same at counted)
  result_run r (followed addresses next next_headers requests outcome d s run) h =
      let (good, count) = result_run r run h in (good, omega arith)

  -- Fetching ends: the redirect limit bounds the requests, so the fuel of the model always suffices.
  pub fetch_bounded :
      (uri : String) (etag last_modified : Option String)
      → IsFueled (fetch py web max_bytes max_redirects follow_redirects uri etag last_modified).1
        × (length (fetch py web max_bytes max_redirects follow_redirects uri etag last_modified).0
            ≤ suc max_redirects)
  unfolding fetch
  fetch_bounded uri etag last_modified =
      bounded_run
        (fetch_from-Runs py web max_bytes max_redirects follow_redirects (suc max_redirects) 0 uri
          (conditional_headers etag last_modified))
        (omega arith) (omega arith)

  -- Every request of a fetch, after any redirects, goes over https, without credentials or a
  -- fragment in its address, and may be sent to public addresses only.
  pub fetch-IsSafe :
      (uri : String) (etag last_modified : Option String)
      → All
          (IsSafe py web)
          (fetch py web max_bytes max_redirects follow_redirects uri etag last_modified).0
  unfolding fetch
  fetch-IsSafe uri etag last_modified = IsSafe-run (
      fetch_from-Runs py web max_bytes max_redirects follow_redirects (suc max_redirects) 0 uri
        (conditional_headers etag last_modified))

  -- Every request of a fetch that carries a conditional header goes to the origin of the address that
  -- was asked for: a redirect to another origin drops the headers for good.
  pub fetch-IsAtOrigin :
      (uri : String) (etag last_modified : Option String)
      → All
          (IsAtOrigin (origin py web uri))
          (fetch py web max_bytes max_redirects follow_redirects uri etag last_modified).0
  unfolding fetch
  fetch-IsAtOrigin uri etag last_modified =
      origin_run (origin py web uri)
        (fetch_from-Runs py web max_bytes max_redirects follow_redirects (suc max_redirects) 0 uri
          (conditional_headers etag last_modified))
        (inr refl)

  -- A result is either 304 without a body, or a success whose body is within the limit and of a JSON
  -- media type, and its number of redirects is one less than the requests that were sent.
  pub fetch-IsAcceptable :
      (uri : String) (etag last_modified : Option String) (r : FetchResult)
      → (fetch py web max_bytes max_redirects follow_redirects uri etag last_modified).1 ≡ done r
      → IsAcceptable py web max_bytes max_redirects r
        × (suc r.redirects
            ≡ length
                (fetch py web max_bytes max_redirects follow_redirects uri etag last_modified).0)
  unfolding fetch
  fetch-IsAcceptable uri etag last_modified r h =
      let (good, count) =
        result_run r
          (fetch_from-Runs py web max_bytes max_redirects follow_redirects (suc max_redirects) 0 uri
            (conditional_headers etag last_modified))
          h in
      (good, omega arith)
