-- ===== src/Detection/Floats.antt =====
-- Floating-point arithmetic, a parameter of the scores and the session statistics, and what they are made
-- of: scoring.py and `SessionFeatureState._snapshot` of features/session.py.
use agent_traffic_intelligen.Prelude.{
  ℕ, suc, ◌-◌, String, Option, none, some, List, [], ◌∷◌, Bool, ◌&&◌, ◌==◌, leb, length, map,
  count_if, if◌then◌else◌,
}
use agent_traffic_intelligen.Features.Session.{Observation}

-- The operations on `float`, and the functions of `math` and `statistics`.
pub record Floats : Type 1 where
  pub F : Type 0
  -- the value of a literal
  pub lit : String → F
  pub of_nat : ℕ → F
  -- `total_seconds()` of microseconds
  pub seconds : ℕ → F
  pub add : F → F → F
  pub mul : F → F → F
  pub div : F → F → F
  pub neg : F → F
  pub le : F → F → Bool
  pub lt : F → F → Bool
  pub exp : F → F
  pub log2 : F → F
  pub fmean : List F → F
  pub pstdev : List F → F

-- `Evidence`
pub record Evidence (F : Type 0) : Type 0 where
  pub code : String
  pub source : String
  pub description : String
  pub strength : F
  pub score_deltas : List (String × F)

-- The values of a snapshot.
pub record Snapshot (F : Type 0) : Type 0 where
  pub session_request_count : ℕ
  pub session_duration_seconds : F
  pub mean_interarrival_seconds : F
  pub interarrival_cv : F
  pub requests_per_minute : F
  pub asset_ratio : F
  pub error_ratio : F
  pub unique_path_ratio : F
  pub path_entropy_bits : F

-- `Counter(paths)`: each path with its count, in the order of first occurrence.
unfoldable pub count_path : String → List (String × ℕ) → List (String × ℕ)
count_path path [] = (path, 1) ∷ []
count_path path ((p, n) ∷ rest) =
    let others = count_path path rest in if p == path then (p, suc n) ∷ rest else (p, n) ∷ others

unfoldable pub path_counts : List (String × ℕ) → List Observation → List (String × ℕ)
unfolding count_path
path_counts counts [] = counts
path_counts counts (o ∷ rest) = path_counts (count_path o.event.path counts) rest

module _ (fl : Floats) where
  -- `sigmoid`
  unfoldable pub sigmoid : fl.F → fl.F
  sigmoid value =
      if fl.le (fl.lit "0") value
      then fl.div (fl.lit "1.0") (fl.add (fl.lit "1.0") (fl.exp (fl.neg value)))
      else fl.div (fl.exp value) (fl.add (fl.lit "1.0") (fl.exp value))

  -- `DEFAULT_INTERCEPTS`
  unfoldable pub default_intercepts : List (String × fl.F)
  default_intercepts =
      ("automation", fl.lit "-2.2")
      ∷ ("ai", fl.lit "-3.0")
      ∷ ("identity", fl.lit "-3.5")
      ∷ ("risk", fl.lit "-2.4")
      ∷ []

  -- `logits[dimension] += delta`, where the dimension is known.
  unfoldable pub add_to : String → fl.F → List (String × fl.F) → List (String × fl.F)
  add_to dimension delta [] = []
  add_to dimension delta ((d, v) ∷ rest) =
      let others = add_to dimension delta rest in
      if d == dimension then (d, fl.add v delta) ∷ rest else (d, v) ∷ others

  unfoldable pub add_deltas :
      fl.F → List (String × fl.F) → List (String × fl.F) → List (String × fl.F)
  add_deltas strength [] logits = logits
  add_deltas strength ((d, delta) ∷ rest) logits =
      add_deltas strength rest (add_to d (fl.mul delta strength) logits)

  unfoldable pub add_evidence : List (Evidence fl.F) → List (String × fl.F) → List (String × fl.F)
  add_evidence [] logits = logits
  add_evidence (e ∷ rest) logits = add_evidence rest (add_deltas e.strength e.score_deltas logits)

  -- `score_evidence`
  unfoldable pub score_evidence : List (Evidence fl.F) → List (String × fl.F)
  score_evidence evidence =
      map (λ entry. (entry.0, sigmoid entry.1)) (add_evidence evidence default_intercepts)

  -- `(current.timestamp - previous.timestamp).total_seconds()` of neighbours, never below 0.
  unfoldable pub intervals_from : ℕ → List Observation → List fl.F
  intervals_from previous [] = []
  intervals_from previous (o ∷ rest) =
      fl.seconds (o.event.timestamp - previous) ∷ intervals_from o.event.timestamp rest

  unfoldable pub last_time : ℕ → List Observation → ℕ
  last_time t [] = t
  last_time t (o ∷ rest) = last_time o.event.timestamp rest

  -- `sum(...)` over the counts, which begins with 0.
  unfoldable pub entropy_sum : ℕ → fl.F → List (String × ℕ) → fl.F
  entropy_sum count total [] = total
  entropy_sum count total ((p, n) ∷ rest) =
      let frequency = fl.div (fl.of_nat n) (fl.of_nat count) in
      entropy_sum count (fl.add total (fl.mul frequency (fl.log2 frequency))) rest

  unfoldable pub mean_of : List fl.F → fl.F
  mean_of [] = fl.lit "0.0"
  mean_of (x ∷ xs) = fl.fmean (x ∷ xs)

  -- `_snapshot` of a history that is not empty
  unfoldable pub snapshot_from : Observation → List Observation → Snapshot fl.F
  snapshot_from first rest =
      let history = first ∷ rest in
      let count = length history in
      let duration = fl.seconds (last_time first.event.timestamp rest - first.event.timestamp) in
      let intervals = intervals_from first.event.timestamp rest in
      let mean_interval = mean_of intervals in
      let counts = path_counts [] history in
      record {
        session_request_count = count;
        session_duration_seconds = duration;
        mean_interarrival_seconds = mean_interval;
        interarrival_cv =
            if leb 2 (length intervals) && fl.lt (fl.lit "0") mean_interval
            then fl.div (fl.pstdev intervals) mean_interval
            else fl.lit "0.0";
        requests_per_minute =
            if fl.lt (fl.lit "0") duration
            then fl.mul (fl.div (fl.of_nat count) duration) (fl.lit "60.0")
            else fl.lit "0.0";
        asset_ratio =
            fl.div (fl.of_nat (count_if (λ (o : Observation). o.is_asset) history))
              (fl.of_nat count);
        error_ratio =
            fl.div (fl.of_nat (count_if (λ (o : Observation). leb 400 o.event.status) history))
              (fl.of_nat count);
        unique_path_ratio = fl.div (fl.of_nat (length counts)) (fl.of_nat count);
        path_entropy_bits = fl.neg (entropy_sum count (fl.of_nat 0) counts);
      }

  -- `SessionFeatureState._snapshot`: `none` is the empty result.
  unfoldable pub snapshot : List Observation → Option (Snapshot fl.F)
  snapshot [] = none
  snapshot (first ∷ rest) = some (snapshot_from first rest)
