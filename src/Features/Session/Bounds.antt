-- ===== src/Features/Session/Bounds.antt =====
-- The invariant of `SessionFeatureState` (features/session.py), and its count of evictions.
use agent_traffic_intelligen.Prelude.{
  ℕ, suc, ◌+◌, ◌≤◌, String, Option, none, some, List, [], ◌∷◌, Bool, true, false, ◌≡◌, refl, ◌==◌,
  leb, length, length-append, All, All-append, arith, Bool-cases, Option-cases, inl, inr,
  if◌then◌else◌,
}
use agent_traffic_intelligen.Domain.{RequestEvent}
use agent_traffic_intelligen.Features.Session.{
  Observation, Histories, SessionFeatureState, history_of, without_client, without_first, make_room,
  or_empty, update,
}
use agent_traffic_intelligen.Features.Session.Histories.{IsHistory, extended-IsHistory}

-- The state is within its limits, and every history in it is one.
pub record IsBounded (state : SessionFeatureState) : Type 0 where
  pub has_room : 1 ≤ state.max_clients
  pub bounded : length state.histories ≤ state.max_clients
  pub histories : All (λ h. IsHistory state.max_events state.window h.1) state.histories

without_none : (c : String) (hs : Histories) → history_of c hs ≡ none → without_client c hs ≡ hs
unfolding history_of without_client
without_none c [] e = refl
without_none c ((d, h) ∷ hs) e = ground (arith, without_none c hs)

without_some :
    (c : String) (hs : Histories) (h : List Observation)
    → history_of c hs ≡ some h
    → suc (length (without_client c hs)) ≡ length hs
unfolding history_of without_client
without_some c [] h e = cc
without_some c ((d, k) ∷ hs) h e = ground (arith, without_some c hs h)

All-without_client :
    (P : String × List Observation → Type 0) (c : String) (hs : Histories)
    → All P hs
    → All P (without_client c hs)
unfolding without_client
All-without_client P c [] a = tt
All-without_client P c ((d, h) ∷ hs) (p, ps) = elim (Bool-cases (d == c)) [
  | inl e ↦ rw e ps
  | inr e ↦ rw e (p, All-without_client P c hs ps)
]

length-without_first :
    (hs : Histories) → 1 ≤ length hs → suc (length (without_first hs)) ≡ length hs
length-without_first [] h = absurd (omega arith)
length-without_first (h ∷ hs) l = refl

All-without_first :
    (P : String × List Observation → Type 0) (hs : Histories) → All P hs → All P (without_first hs)
All-without_first P [] a = tt
All-without_first P (h ∷ hs) (p, ps) = ps

-- A client that is not known yet counts as new.
abbrev pub is_new : Option (List Observation) → Bool
is_new none = true
is_new (some h) = false

-- The room for a client: its history fits, and each history that goes is counted.
room_bounded :
    (found : Option (List Observation)) (max_clients evicted : ℕ) (others : Histories)
    → 1 ≤ max_clients
    → length others + (if is_new found then 0 else 1) ≤ max_clients
    → (suc (length (make_room found max_clients others evicted).0) ≤ max_clients)
      × ((make_room found max_clients others evicted).1
            + length (make_room found max_clients others evicted).0
          ≡ evicted + length others)
unfolding make_room
room_bounded (some h) m evicted others l b = (omega arith, refl)
room_bounded none m evicted others l b = elim (Bool-cases (leb m (length others))) [
  | inr e ↦ rw e (ground arith, refl)
  | inl e ↦
      let one_less = length-without_first others (ground arith) in rw e (omega arith, omega arith)
]

All-make_room :
    (P : String × List Observation → Type 0) (found : Option (List Observation))
    (max_clients evicted : ℕ) (others : Histories)
    → All P others
    → All P (make_room found max_clients others evicted).0
unfolding make_room
All-make_room P (some h) m evicted others a = a
All-make_room P none m evicted others a = elim (Bool-cases (leb m (length others))) [
  | inl e ↦ rw e (All-without_first P others a)
  | inr e ↦ rw e a
]

-- The clients other than the updated one.
length-others :
    (c : String) (hs : Histories)
    → length (without_client c hs) + (if is_new (history_of c hs) then 0 else 1) ≡ length hs
length-others c hs = elim (Option-cases (history_of c hs)) [
  | inl e ↦ rw e (ground (arith, without_none c hs e))
  | inr (h, e) ↦ rw e (omega (arith, without_some c hs h e))
]

module _ (is_asset_path : String → Bool) where
  -- Every update keeps the state within its limits, at most `max_clients` clients with at most
  -- `max_events` requests each, and every history in order, with no two of its instants further apart
  -- than the window.
  pub update-IsBounded :
      (state : SessionFeatureState) (event : RequestEvent)
      → IsBounded state
      → IsBounded (update is_asset_path state event)
  unfolding update
  update-IsBounded state event b =
      let c = event.client_id in
      let hs = state.histories in
      let (fits, count) =
        room_bounded (history_of c hs) state.max_clients state.evicted_clients (without_client c hs)
          b.has_room (omega (arith, length-others c hs, b.bounded)) in
      let rest =
        All-make_room (λ h. IsHistory state.max_events state.window h.1) (history_of c hs)
          state.max_clients state.evicted_clients (without_client c hs)
          (All-without_client (λ h. IsHistory state.max_events state.window h.1) c hs
            b.histories) in
      record {
        has_room = b.has_room;
        bounded = rw (length-append _ _) (omega (arith, fits));
        histories =
            All-append _ _ _ rest
              (extended-IsHistory state.max_events state.window (or_empty (history_of c hs)) _, tt);
      }

  -- No client is lost without being counted: an update adds one to the clients that are held and
  -- evicted together if its client is new, and nothing otherwise.
  pub evictions_counted :
      (state : SessionFeatureState) (event : RequestEvent)
      → IsBounded state
      → (update is_asset_path state event).evicted_clients
          + length (update is_asset_path state event).histories
        ≡ state.evicted_clients
          + length state.histories
          + (if is_new (history_of event.client_id state.histories) then 1 else 0)
  unfolding update
  evictions_counted state event b =
      let c = event.client_id in
      let hs = state.histories in
      let (fits, count) =
        room_bounded (history_of c hs) state.max_clients state.evicted_clients (without_client c hs)
          b.has_room (omega (arith, length-others c hs, b.bounded)) in
      rw (length-append _ _) (ground (arith, count, length-others c hs))
