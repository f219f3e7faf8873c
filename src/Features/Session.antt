-- ===== src/Features/Session.antt =====
-- features/session.py: the bounded history of each client. Timestamps are instants in microseconds;
-- the statistics of a snapshot, which are floating-point numbers, are in Detection.Floats.
pub mod Bounds
pub mod Histories
use agent_traffic_intelligen.Prelude.{
  ℕ, zero, suc, ◌+◌, ◌*◌, String, Option, none, some, List, [], ◌∷◌, ◌++◌, Bool, true, false, ◌||◌,
  ◌==◌, leb, ltb, length, keep, nat_eq, if◌then◌else◌,
}
use agent_traffic_intelligen.Domain.{RequestEvent}
use agent_traffic_intelligen.Prelude.Sort.{nat_order, sorted}

-- `_Observation`
pub record Observation : Type 0 where
  pub event : RequestEvent
  pub is_asset : Bool

-- `OrderedDict[str, deque[_Observation]]`, the client that was updated longest ago first.
abbrev pub Histories : Type 0
Histories = List (String × List Observation)

-- `SessionFeatureState`
pub record SessionFeatureState : Type 0 where
  pub max_events : ℕ
  pub max_clients : ℕ
  pub window : ℕ
  pub histories : Histories
  pub evicted_clients : ℕ

-- `SessionFeatureState.__init__`, on a window in seconds: `none` for each `ValueError`.
unfoldable pub make_state : ℕ → ℕ → ℕ → Option SessionFeatureState
make_state max_events_per_client max_clients window_seconds =
    if ltb max_events_per_client 2 || (ltb max_clients 1 || nat_eq window_seconds 0)
    then none
    else some (record {
      max_events = max_events_per_client;
      max_clients = max_clients;
      window = window_seconds * 1000000;
      histories = [];
      evicted_clients = 0;
    })

-- `histories.get(client_id)`
unfoldable pub history_of : String → Histories → Option (List Observation)
history_of client_id [] = none
history_of client_id ((c, history) ∷ rest) =
    if c == client_id then some history else history_of client_id rest

-- `histories` after `histories.pop(client_id, None)`.
unfoldable pub without_client : String → Histories → Histories
without_client client_id [] = []
without_client client_id ((c, history) ∷ rest) =
    if c == client_id then rest else (c, history) ∷ without_client client_id rest

-- `histories.popitem(last=False)`, on a dict that may be empty.
abbrev pub without_first : Histories → Histories
without_first [] = []
without_first (h ∷ rest) = rest

-- `deque(items, maxlen=max_events)`: the last members.
unfoldable pub last_members : ℕ → List Observation → List Observation
last_members max_events [] = []
last_members max_events (o ∷ rest) =
    let kept = last_members max_events rest in
    if ltb max_events (length (o ∷ rest)) then kept else o ∷ rest

-- The timestamp of the last member, of a sequence that begins with the first argument.
unfoldable pub last_timestamp : Observation → List Observation → ℕ
last_timestamp o [] = o.event.timestamp
last_timestamp o (next ∷ rest) = last_timestamp next rest

-- `item.event.timestamp >= ordered[-1].event.timestamp - window`
unfoldable pub is_within : ℕ → ℕ → Observation → Bool
is_within window latest o = leb latest (o.event.timestamp + window)

-- The part of an ordered history that is kept.
unfoldable pub windowed : ℕ → ℕ → List Observation → List Observation
windowed max_events window [] = []
windowed max_events window (o ∷ rest) =
    last_members max_events (keep (is_within window (last_timestamp o rest)) (o ∷ rest))

-- The history of a client with one more observation.
unfoldable pub extended : ℕ → ℕ → List Observation → Observation → List Observation
extended max_events window history observation =
    windowed max_events window
      (sorted nat_order (λ (o : Observation). o.event.timestamp) (history ++ observation ∷ []))

-- The other clients and the counter, once the client's own history is taken out.
unfoldable pub make_room : Option (List Observation) → ℕ → Histories → ℕ → Histories × ℕ
make_room (some history) max_clients histories evicted = (histories, evicted)
make_room none max_clients histories evicted =
    if leb max_clients (length histories)
    then (without_first histories, suc evicted)
    else (histories, evicted)

abbrev pub or_empty : Option (List Observation) → List Observation
or_empty none = []
or_empty (some history) = history

module _ (is_asset_path : String → Bool) where
  -- The state after `SessionFeatureState.update(event)`.
  unfoldable pub update : SessionFeatureState → RequestEvent → SessionFeatureState
  update state event =
      let found = history_of event.client_id state.histories in
      let others = without_client event.client_id state.histories in
      let (room, evicted) = make_room found state.max_clients others state.evicted_clients in
      let observation : Observation = record {
        event = event;
        is_asset = is_asset_path event.path;
      } in
      let history = extended state.max_events state.window (or_empty found) observation in
      record state {
        histories = room ++ (event.client_id, history) ∷ [];
        evicted_clients = evicted;
      }
