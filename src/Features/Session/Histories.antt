-- ===== src/Features/Session/Histories.antt =====
-- The history of one client in features/session.py: its length, its order and its window.
use agent_traffic_intelligen.Prelude.{
  ℕ, ◌+◌, ◌≤◌, All-map, List, [], ◌∷◌, ◌++◌, Bool, true, ◌≡◌, leb, ltb, length, keep, All, arith,
  Bool-cases, inl, inr,
}
use agent_traffic_intelligen.Prelude.Sort.{nat_order}
use agent_traffic_intelligen.Prelude.Sort.Laws.{IsSorted, sorted-IsSorted}
use agent_traffic_intelligen.Features.Session.{
  Observation, last_members, last_timestamp, is_within, windowed, extended,
}

abbrev pub instant : Observation → ℕ
instant o = o.event.timestamp

length-last_members : (n : ℕ) (xs : List Observation) → length (last_members n xs) ≤ n
unfolding last_members
length-last_members n [] = omega arith
length-last_members n (x ∷ xs) = ground (arith, length-last_members n xs)

All-last_members :
    (P : Observation → Type 0) (n : ℕ) (xs : List Observation)
    → All P xs
    → All P (last_members n xs)
unfolding last_members
All-last_members P n [] h = tt
All-last_members P n (x ∷ xs) (h, hs) = elim (Bool-cases (ltb n (length (x ∷ xs)))) [
  | inl e ↦ rw e (All-last_members P n xs hs)
  | inr e ↦ rw e (h, hs)
]

last_members-IsSorted :
    (n : ℕ) (xs : List Observation)
    → IsSorted nat_order instant xs
    → IsSorted nat_order instant (last_members n xs)
unfolding last_members
last_members-IsSorted n [] h = tt
last_members-IsSorted n (x ∷ xs) (h, hs) = elim (Bool-cases (ltb n (length (x ∷ xs)))) [
  | inl e ↦ rw e (last_members-IsSorted n xs hs)
  | inr e ↦ rw e (h, hs)
]

All-kept :
    (P : Observation → Type 0) (p : Observation → Bool) (xs : List Observation)
    → All P xs
    → All P (keep p xs)
unfolding keep
All-kept P p [] h = tt
All-kept P p (x ∷ xs) (h, hs) = elim (Bool-cases (p x)) [
  | inl e ↦ rw e (h, All-kept P p xs hs)
  | inr e ↦ rw e (All-kept P p xs hs)
]

All-keep_test : (p : Observation → Bool) (xs : List Observation) → All (λ x. p x ≡ true) (keep p xs)
unfolding keep
All-keep_test p [] = tt
All-keep_test p (x ∷ xs) = elim (Bool-cases (p x)) [
  | inl e ↦ rw (keep, e) (e, All-keep_test p xs)
  | inr e ↦ rw (keep, e) (All-keep_test p xs)
]

keep-IsSorted :
    (p : Observation → Bool) (xs : List Observation)
    → IsSorted nat_order instant xs
    → IsSorted nat_order instant (keep p xs)
unfolding keep
keep-IsSorted p [] h = tt
keep-IsSorted p (x ∷ xs) (h, hs) = elim (Bool-cases (p x)) [
  | inl e ↦ rw e (All-kept (λ y. leb (instant x) (instant y) ≡ true) p xs h, keep-IsSorted p xs hs)
  | inr e ↦ rw e (keep-IsSorted p xs hs)
]

-- A history that is in order, of bounded length, and of which no two instants are further apart than the
-- window.
pub record IsHistory (max_events window : ℕ) (history : List Observation) : Type 0 where
  pub bounded : length history ≤ max_events
  pub ordered : IsSorted nat_order instant history
  pub within : All (λ o. All (λ p. instant p ≤ instant o + window) history) history

-- In an ordered history no instant is after the last one.
last_timestamp_bounds :
    (x : Observation) (xs : List Observation)
    → IsSorted nat_order instant (x ∷ xs)
    → All (λ o. instant o ≤ last_timestamp x xs) (x ∷ xs)
unfolding last_timestamp
last_timestamp_bounds x [] h = (omega arith, tt)
last_timestamp_bounds x (y ∷ ys) ((first, _), rest) =
    let (bound, bounds) = last_timestamp_bounds y ys rest in (ground arith, (bound, bounds))

-- Members that are within the window before a bound on their instants.
All-pairs :
    (window latest : ℕ) (xs : List Observation)
    → All (λ o. is_within window latest o ≡ true) xs
    → All (λ o. instant o ≤ latest) xs
    → All (λ o. All (λ p. instant p ≤ instant o + window) xs) xs
unfolding is_within
All-pairs window latest xs within bounded =
    All-map (λ o w. All-map (λ p b. ground arith) xs bounded) xs within

windowed-IsHistory :
    (max_events window : ℕ) (xs : List Observation)
    → IsSorted nat_order instant xs
    → IsHistory max_events window (windowed max_events window xs)
unfolding windowed
windowed-IsHistory n w [] h = record { bounded = omega arith; ordered = tt; within = tt }
windowed-IsHistory n w (x ∷ xs) h =
    let p = is_within w (last_timestamp x xs) in
    record {
      bounded = length-last_members n (keep p (x ∷ xs));
      ordered = last_members-IsSorted n (keep p (x ∷ xs)) (keep-IsSorted p (x ∷ xs) h);
      within =
          All-pairs w (last_timestamp x xs) (last_members n (keep p (x ∷ xs)))
            (All-last_members (λ o. p o ≡ true) n (keep p (x ∷ xs)) (All-keep_test p (x ∷ xs)))
            (All-last_members (λ o. instant o ≤ last_timestamp x xs) n (keep p (x ∷ xs))
              (All-kept (λ o. instant o ≤ last_timestamp x xs) p (x ∷ xs)
                (last_timestamp_bounds x xs h)));
    }

pub extended-IsHistory :
    (max_events window : ℕ) (history : List Observation) (observation : Observation)
    → IsHistory max_events window (extended max_events window history observation)
unfolding extended
extended-IsHistory n w history observation =
    windowed-IsHistory n w _ (sorted-IsSorted nat_order instant (history ++ observation ∷ []))
