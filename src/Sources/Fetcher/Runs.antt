-- ===== src/Sources/Fetcher/Runs.antt =====
-- The runs of `SafeFetcher.fetch` (identity/sources/fetcher.py) as a relation.

use agent_traffic_intelligen.Prelude.{
  ℕ, zero, suc, String, List, [], ◌∷◌, Bool, ◌≡◌, ◌⊎◌, inl, inr, refl,
}
use agent_traffic_intelligen.Runtime.{Runtime}
use agent_traffic_intelligen.Sources.Exchange.{
  FetchResult, Request, Failure, out_of_fuel, Attempt, done, fail, Web,
}
use agent_traffic_intelligen.Sources.Fetcher.{Turn, finish, follow, destination, send, fetch_from}

-- An attempt, by its outcome.
pub Attempt-cases {ℓ} :
    {A : Type ℓ} (m : Attempt A) → ((a : A) × (m ≡ done a)) ⊎ ((e : Failure) × (m ≡ fail e))
Attempt-cases (done a) = inl (a, refl)
Attempt-cases (fail e) = inr (e, refl)

Turn-cases :
    (m : Attempt Turn)
    → ((r : FetchResult) × (m ≡ done (finish r)))
      ⊎ ((u : String) × (h : List (String × String)) × (m ≡ done (follow u h)))
      ⊎ ((e : Failure) × (m ≡ fail e))
Turn-cases (done (finish r)) = inl (r, refl)
Turn-cases (done (follow u h)) = inr (inl (u, h, refl))
Turn-cases (fail e) = inr (inr (e, refl))

-- A failure of the program, not of the model.
abbrev pub IsReal : Failure → Type 0
IsReal out_of_fuel = ⊥
IsReal _ = Unit

-- An attempt does not run out of fuel.
abbrev pub IsFueled {ℓ} : {A : Type ℓ} → Attempt A → Type 0
IsFueled (done a) = Unit
IsFueled (fail e) = IsReal e

module _ (py : Runtime) (web : Web) (max_bytes max_redirects : ℕ) (follow_redirects : Bool) where
  -- The runs of the loop, by what each turn does.
  pub data Runs
      : ℕ → ℕ → String → List (String × String) → List Request → Attempt FetchResult → Type 0 where
    starved :
        {n : ℕ} {uri : String} {headers : List (String × String)}
        → Runs 0 n uri headers [] (fail out_of_fuel)
    refused :
        {fuel n : ℕ} {uri : String} {headers : List (String × String)} (e : Failure)
        → destination py web n uri ≡ fail e
        → Runs (suc fuel) n uri headers [] (fail e)
    failed :
        {fuel n : ℕ} {uri : String} {headers : List (String × String)} (addresses : List String)
        (e : Failure)
        → destination py web n uri ≡ done addresses
        → send py web max_bytes max_redirects follow_redirects n uri headers addresses ≡ fail e
        → Runs
            (suc fuel)
            n
            uri
            headers
            (record { uri = uri; headers = headers; allowed_addresses = addresses } ∷ [])
            (fail e)
    finished :
        {fuel n : ℕ} {uri : String} {headers : List (String × String)} (addresses : List String)
        (r : FetchResult)
        → destination py web n uri ≡ done addresses
        → send py web max_bytes max_redirects follow_redirects n uri headers addresses
          ≡ done (finish r)
        → Runs
            (suc fuel)
            n
            uri
            headers
            (record { uri = uri; headers = headers; allowed_addresses = addresses } ∷ [])
            (done r)
    followed :
        {fuel n : ℕ} {uri : String} {headers : List (String × String)} (addresses : List String)
        (next : String) (next_headers : List (String × String)) (requests : List Request)
        (outcome : Attempt FetchResult)
        → destination py web n uri ≡ done addresses
        → send py web max_bytes max_redirects follow_redirects n uri headers addresses
          ≡ done (follow next next_headers)
        → Runs fuel (suc n) next next_headers requests outcome
        → Runs
            (suc fuel)
            n
            uri
            headers
            (record { uri = uri; headers = headers; allowed_addresses = addresses } ∷ requests)
            outcome

  -- The loop runs in one of these ways.
  pub fetch_from-Runs :
      (fuel n : ℕ) (uri : String) (headers : List (String × String))
      → Runs fuel n uri headers
          (fetch_from py web max_bytes max_redirects follow_redirects fuel n uri headers).0
          (fetch_from py web max_bytes max_redirects follow_redirects fuel n uri headers).1
  unfolding fetch_from
  fetch_from-Runs zero n uri headers = starved
  fetch_from-Runs (suc fuel) n uri headers = elim (Attempt-cases (destination py web n uri)) [
    | inr (e, d) ↦ rw (fetch_from, d) (refused e d)
    | inl (addresses, d) ↦
        elim (Turn-cases
          (send py web max_bytes max_redirects follow_redirects n uri headers addresses)) [
            | inl (r, s) ↦ rw (fetch_from, d, s) (finished addresses r d s)
            | inr (inl (u, h, s)) ↦
                rw (fetch_from, d, s)
                  (followed addresses u h _ _ d s (fetch_from-Runs fuel (suc n) u h))
            | inr (inr (e, s)) ↦ rw (fetch_from, d, s) (failed addresses e d s)
          ]
  ]
