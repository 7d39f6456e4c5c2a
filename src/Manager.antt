-- ===== src/Manager.antt =====
-- internal/events/manager.go and recording_sink.go: the event manager. A method that holds the lock
-- is one function of the manager's state; time.Now() is an argument, and so is what lies outside:
-- whether a URL makes a client, and whether a replayed event reaches its subscriber.
pub mod Query
pub mod Log
pub mod Page
pub mod CatchUp
mod Tests
use modelsrv.Prelude.{
  ℕ, ◌+◌, ◌%◌, ◌^◌, ◌<◌, ltb, String, Bool, true, false, not, ◌&&◌, ◌||◌, Option, none, some, List,
  [], ◌∷◌, ◌++◌, map, ◌==◌, string_eq, if◌then◌else◌, ℤ, pos, is_nonpositive, leb,
}
use modelsrv.Event.{Event, StoredEvent, Uuid, new_stored_event}
use modelsrv.Event.Kind.{ResourceType}
use modelsrv.Event.Wire.{Operation}
use modelsrv.History
use modelsrv.History.{HistoryRing, default_history_limit, new_history_ring}
use modelsrv.Latest
use modelsrv.Latest.{LatestStateStore, new_latest_state_store, get_events}
use modelsrv.Notifier.{Notifier, new_notifier, enqueue}

-- `eventManager`. The sink factory and the shared sink hold no state of their own.
pub record EventManager (O : Type 0) : Type 0 where
  pub sequence_number : ℕ
  pub notifiers : List (Notifier O)
  pub latest_state : LatestStateStore O
  pub history_tail : HistoryRing O
  pub history_limit : ℤ

-- uint64 addition.
abbrev pub add_u64 : ℕ → ℕ → ℕ
add_u64 a b = (a + b) % 2 ^ 64

-- `WithHistoryLimit` applied to the default limit: n is taken if it is positive.
unfoldable pub with_history_limit : ℤ → ℤ → ℤ
with_history_limit n limit = if is_nonpositive n then limit else n

-- The limits that the options ask for, in order.
limit_of : List ℤ → ℤ → ℤ
unfolding with_history_limit
limit_of [] limit = limit
limit_of (n ∷ opts) limit = limit_of opts (with_history_limit n limit)

module _ {O : Type 0} where
  -- `NewEventManager`
  unfoldable pub new_event_manager : List ℤ → EventManager O
  unfolding limit_of
  new_event_manager opts =
      let limit = limit_of opts (pos default_history_limit) in
      record {
        sequence_number = 0;
        notifiers = [];
        latest_state = new_latest_state_store;
        history_tail = new_history_ring limit;
        history_limit = limit;
      }

  -- `GetCurrentSequenceId`
  unfoldable pub get_current_sequence_id : EventManager O → ℕ
  get_current_sequence_id e = e.sequence_number

  -- `IncrementSequenceId`
  unfoldable pub increment_sequence_id : EventManager O → EventManager O
  increment_sequence_id e = record e { sequence_number = add_u64 e.sequence_number 1 }

  -- The part of `recordingSink.Receive` under the lock.
  unfoldable pub record_event :
      EventManager O → ℕ → ResourceType → Operation → Uuid → List O → EventManager O
  record_event e now res_type op resource_id objects =
      let seq = add_u64 e.sequence_number 1 in
      record e {
        latest_state = Latest.receive e.latest_state res_type op resource_id objects;
        sequence_number = seq;
        history_tail =
            History.add e.history_tail (new_stored_event seq now res_type op resource_id objects);
      }

  notify_all : List (Notifier O) → Event O → List (Notifier O)
  notify_all [] ev = []
  notify_all (n ∷ ns) ev = enqueue n ev ∷ notify_all ns ev

  -- `recordingSink.Receive`, when no other goroutine runs between its two parts.
  unfoldable pub receive :
      EventManager O → ℕ → ResourceType → Operation → Uuid → List O → EventManager O
  unfolding record_event notify_all
  receive e now res_type op resource_id objects =
      let ev : Event O = record {
        resource_type = res_type;
        operation = op;
        resource_id = resource_id;
        objects = objects;
      } in
      let e' = record_event e now res_type op resource_id objects in
      record e' { notifiers = notify_all e'.notifiers ev }

  -- `GetSubscribers`, by their URLs.
  unfoldable pub get_subscribers : EventManager O → List String
  get_subscribers e = map (λ n. n.url) e.notifiers

  subscribed : String → List (Notifier O) → Bool
  subscribed url [] = false
  subscribed url (n ∷ ns) = n.url == url || subscribed url ns

  -- The replay of the past to a new subscriber stops at the first event that does not reach it, and
  -- asks for a resync.
  replay_past : (Event O → Bool) → List (Event O) → Notifier O → Notifier O
  replay_past reaches [] n = n
  replay_past reaches (ev ∷ evs) n =
      let rest = replay_past reaches evs n in
      if reaches ev then rest else record n { resync = true }

  -- `AddSubscriber`: `makes_client` is whether the URL makes a client, `reaches` whether a replayed
  -- event reaches it. `none` is the client's error.
  unfoldable pub add_subscriber :
      (String → Bool) → (Event O → Bool) → EventManager O → String → Option (EventManager O)
  unfolding subscribed replay_past
  add_subscriber makes_client reaches e url =
      if subscribed url e.notifiers
      then some e
      else if makes_client url
      then some (record e {
        notifiers =
            e.notifiers
            ++ (replay_past reaches (get_events e.latest_state) (new_notifier url) ∷ []);
      })
      else none

  -- The first subscriber with the URL goes.
  remove_first : String → List (Notifier O) → Option (List (Notifier O))
  remove_first url [] = none
  remove_first url (n ∷ ns) = elim (n.url == url) [
    | true ↦ some ns
    | false ↦ elim (remove_first url ns) [ none ↦ none | some ms ↦ some (n ∷ ms) ]
  ]

  -- `RemoveSubscriber`: `none` is the error for an unknown URL.
  unfoldable pub remove_subscriber : EventManager O → String → Option (EventManager O)
  unfolding remove_first
  remove_subscriber e url = elim (remove_first url e.notifiers) [
    | none ↦ none
    | some ns ↦ some (record e { notifiers = ns })
  ]

  -- `stateSnapshot`
  unfoldable pub state_snapshot : EventManager O → List (Event O)
  state_snapshot e = get_events e.latest_state
