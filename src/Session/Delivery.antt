-- ===== src/Session/Delivery.antt =====
-- classes/read_session.py: the observation subscriptions. A subscriber's queue is bounded by its
-- capacity; a full queue loses its oldest item to a new one. `async_next` is two steps, before and
-- behind its wait. A subscription is known by its identifier.
pub mod Bounded
pub mod Offered
use luxpower_ha_integration.Base.{
  ℕ, ◌+◌, Bool, true, false, not, ◌&&◌, Option, none, some, List, [], ◌∷◌, ◌++◌, ltb, leb, ◌==◌,
  if◌then◌else◌, length, Outcome, Exception, ok, raised, value_error, runtime_error, timeout_error,
  session_closed, cancelled_error,
}
use luxpower_ha_integration.Base.Dict.{Dict, nat_eq, lookup, put}
use luxpower_ha_integration.Session.{
  LuxReadObservation, Item, observation, subscription_closed, SubscriptionState, SubscriptionCell,
  Subscriptions,
}

-- _ObservationSubscriptionState(queue=asyncio.Queue(maxsize=capacity), capacity=capacity)
abbrev pub new_state : (capacity : ℕ) → SubscriptionState
new_state capacity = record {
  queue = [];
  capacity = capacity;
  observations_received = 0;
  observations_dropped = 0;
  last_sequence_received = none;
  active = true;
  consumer_waiting = false;
}

-- state.queue.full()
abbrev pub is_full : SubscriptionState → Bool
is_full state = ltb 0 state.capacity && leb state.capacity (length state.queue)

-- state.queue.get_nowait() of a full queue, and what it adds to the two drop counters.
abbrev pub drop_from : List Item → SubscriptionState → SubscriptionState × ℕ
drop_from [] state = (state, 0)
drop_from (item ∷ queue) state =
    (record state { queue = queue; observations_dropped = state.observations_dropped + 1 }, 1)

abbrev pub drop_oldest : SubscriptionState → SubscriptionState × ℕ
drop_oldest state = if is_full state then drop_from state.queue state else (state, 0)

-- put_nowait and the statements behind it. The queue has room then (`Bounded`).
abbrev pub enqueue : LuxReadObservation → SubscriptionState → SubscriptionState
enqueue o state = record state {
  queue = state.queue ++ observation o ∷ [];
  observations_received = state.observations_received + 1;
  last_sequence_received = some o.sequence;
}

-- The body of the loop of _publish_observation, with the number of observations dropped.
unfoldable pub offer : LuxReadObservation → SubscriptionState → SubscriptionState × ℕ
offer o state =
    if not state.active
    then (state, 0)
    else let (room, drops) = drop_oldest state in (enqueue o room, drops)

abbrev pub offer_cell : LuxReadObservation → SubscriptionCell → SubscriptionCell × ℕ
offer_cell o cell =
    let (state, drops) = offer o cell.state in
    if cell.registered then (record cell { state = state }, drops) else (cell, 0)

unfoldable pub offer_all :
    LuxReadObservation → Dict ℕ SubscriptionCell → Dict ℕ SubscriptionCell × ℕ
offer_all o [] = ([], 0)
offer_all o ((id, cell) ∷ cells) =
    let (cell', drops) = offer_cell o cell in
    let (cells', more) = offer_all o cells in ((id, cell') ∷ cells', drops + more)

-- _publish_observation
unfoldable pub publish_observation : LuxReadObservation → Subscriptions → Subscriptions
publish_observation o self =
    let (cells, drops) = offer_all o self.cells in
    record self { cells = cells; observation_queue_drops = self.observation_queue_drops + drops }

-- subscribe_observations, for a size that is an `int` and not negative
unfoldable pub subscribe_observations :
    (max_queue_size : ℕ) → Subscriptions → Outcome (Subscriptions × ℕ)
subscribe_observations max_queue_size self =
    if not (ltb 0 max_queue_size)
    then raised value_error
    else let id = self.next_observation_subscription_id in
      ok (
        record self {
          cells =
              put id (record { registered = true; state = new_state max_queue_size }) self.cells;
          next_observation_subscription_id = id + 1;
        },
        id,
      )

-- drain: the items up to the end of the queue, or to the marker, which is taken too.
unfoldable pub drain_queue : List Item → List Item × List LuxReadObservation
drain_queue [] = ([], [])
drain_queue (subscription_closed ∷ queue) = (queue, [])
drain_queue (observation o ∷ queue) =
    let (left, observations) = drain_queue queue in (left, o ∷ observations)

unfoldable pub drain : SubscriptionState → SubscriptionState × List LuxReadObservation
drain state =
    let (left, observations) = drain_queue state.queue in
    (record state { queue = left }, observations)

-- async_next up to its wait; a timeout is a number that is not negative
unfoldable pub async_next_begin :
    (timeout : Option ℕ) → SubscriptionState → Outcome SubscriptionState
async_next_begin timeout state =
    if elim timeout [ none ↦ false | some t ↦ t == 0 ]
    then raised value_error
    else if not state.active
    then raised session_closed
    else if state.consumer_waiting
    then raised runtime_error
    else ok (record state { consumer_waiting = true })

-- What ends the wait for `queue.get()`.
pub data Wake : Type 0 where
  wakes times_out is_cancelled : Wake

abbrev pub received_item : Item → Outcome LuxReadObservation
received_item subscription_closed = raised session_closed
received_item (observation o) = ok o

abbrev pub take_item :
    List Item → SubscriptionState → SubscriptionState × Option (Outcome LuxReadObservation)
take_item [] state = (state, none)
take_item (item ∷ queue) state =
    (record state { queue = queue; consumer_waiting = false }, some (received_item item))

-- async_next from its wait on; a consumer of an empty queue waits on (`none`)
unfoldable pub async_next_end :
    Wake → SubscriptionState → SubscriptionState × Option (Outcome LuxReadObservation)
async_next_end wakes state = take_item state.queue state
async_next_end times_out state =
    (record state { consumer_waiting = false }, some (raised timeout_error))
async_next_end is_cancelled state =
    (record state { consumer_waiting = false }, some (raised cancelled_error))

-- _remove_observation_subscription, on the state
unfoldable pub close_state : SubscriptionState → SubscriptionState
close_state state = if not state.active then state else record state {
  active = false;
  queue = if state.consumer_waiting then subscription_closed ∷ [] else [];
}

abbrev pub close_cell : SubscriptionCell → SubscriptionCell
close_cell cell =
    if not cell.state.active
    then cell
    else record { registered = false; state = close_state cell.state }

abbrev pub close_found : Option SubscriptionCell → ℕ → Subscriptions → Subscriptions
close_found none id self = self
close_found (some cell) id self = record self { cells = put id (close_cell cell) self.cells }

-- close
unfoldable pub close_subscription : ℕ → Subscriptions → Subscriptions
close_subscription id self = close_found (lookup id self.cells) id self

abbrev pub is_active_cell : Option SubscriptionCell → Bool
is_active_cell none = false
is_active_cell (some cell) = cell.state.active

abbrev pub is_active : Option ℕ → Subscriptions → Bool
is_active none self = false
is_active (some id) self = is_active_cell (lookup id self.cells)

-- `1024` of subscribe_observations
abbrev pub default_queue_size : ℕ
default_queue_size = 1024

abbrev pub new_legacy : Subscriptions → Outcome (Subscriptions × ℕ)
new_legacy self = elim (subscribe_observations default_queue_size self) [
  | raised e ↦ raised e
  | ok made ↦ ok (record made.0 { legacy_observation_subscription = some made.1 }, made.1)
]

-- _legacy_subscription: the session and the identifier
unfoldable pub legacy_subscription : Subscriptions → Outcome (Subscriptions × ℕ)
legacy_subscription self = elim self.legacy_observation_subscription [
  | none ↦ new_legacy self
  | some id ↦ if is_active (some id) self then ok (self, id) else new_legacy self
]

-- snapshot
pub record SubscriptionSnapshot : Type 0 where
  pub active : Bool
  pub queued : ℕ
  pub capacity : ℕ
  pub observations_received : ℕ
  pub observations_dropped : ℕ
  pub last_sequence_received : Option ℕ

unfoldable pub snapshot : SubscriptionState → SubscriptionSnapshot
snapshot state = record {
  active = state.active;
  queued = length state.queue;
  capacity = state.capacity;
  observations_received = state.observations_received;
  observations_dropped = state.observations_dropped;
  last_sequence_received = state.last_sequence_received;
}

-- A consumer's call, on the cell of its subscription.
abbrev pub with_state :
    Option SubscriptionCell → ℕ → SubscriptionState → Subscriptions → Subscriptions
with_state none id state self = self
with_state (some cell) id state self = record self {
  cells = put id (record cell { state = state }) self.cells;
}

abbrev pub drain_cell :
    Option SubscriptionCell → ℕ → Subscriptions → Subscriptions × List LuxReadObservation
drain_cell none id self = (self, [])
drain_cell (some cell) id self =
    let (state, observations) = drain cell.state in
    (with_state (some cell) id state self, observations)

-- drain_observations, of the session
unfoldable pub drain_observations :
    Subscriptions → Outcome (Subscriptions × List LuxReadObservation)
drain_observations self = elim (legacy_subscription self) [
  | raised e ↦ raised e
  | ok (made, id) ↦ ok (drain_cell (lookup id made.cells) id made)
]
