-- ===== src/Latest/Tests.antt =====
-- Runs of the store of latest events.
use modelsrv.Prelude.{ℕ, ◌≡◌, refl, Option, some, List, [], ◌∷◌}
use modelsrv.Prelude.Dict.{lookup, insert, delete}
use modelsrv.Event.{Event}
use modelsrv.Event.Kind.{ResourceType, node_resource, system_resource, resource_type_beq, code}
use modelsrv.Event.Wire.{Operation, create_operation, update_operation, delete_operation}
use modelsrv.View.{ResourceKey, resource_key_eq, replay, put}
use modelsrv.Latest.{
  LatestStateStore, new_latest_state_store, receive, get_events, remove_from_order,
}
use modelsrv.Latest.Valid.{IsValid, new_latest_state_store-IsValid, receive-IsValid}
use modelsrv.Latest.Replay.{
  live, or_kept, receive_all, updates, no_resources, replay-get_events,
  replay-get_events-receive_all, receive_all-IsValid,
}

abbrev event : ResourceType → Operation → ℕ → List ℕ → Event ℕ
event rt op id objects = record {
  resource_type = rt;
  operation = op;
  resource_id = id;
  objects = objects;
}

abbrev events : List (Event ℕ)
events =
    event node_resource create_operation 1 (10 ∷ [])
    ∷ event node_resource create_operation 2 (20 ∷ [])
    ∷ event system_resource create_operation 1 (30 ∷ [])
    ∷ event node_resource update_operation 1 (11 ∷ [])
    ∷ event node_resource delete_operation 2 []
    ∷ []

abbrev store : LatestStateStore ℕ
store = receive_all new_latest_state_store events

-- The snapshot: one Create for each live resource, in the order of their creation.
store_events :
    get_events store
    ≡ event node_resource create_operation 1 (11 ∷ [])
      ∷ event system_resource create_operation 1 (30 ∷ [])
      ∷ []
unfolding receive_all receive new_latest_state_store get_events lookup insert delete
    remove_from_order resource_type_beq code
store_events = refl

store-IsValid : IsValid store
store-IsValid = receive_all-IsValid new_latest_state_store events new_latest_state_store-IsValid

-- A subscriber that still holds the node that was deleted.
abbrev stale : ResourceKey → Option (List ℕ)
stale = put (node_resource, 2) (some (20 ∷ [])) no_resources

replay-get_events_example :
    replay (updates (get_events store)) stale (node_resource, 2)
    ≡ or_kept (live store (node_resource, 2)) (stale (node_resource, 2))
replay-get_events_example = replay-get_events store stale (node_resource, 2) store-IsValid

replay-get_events-receive_all_example :
    replay (updates (get_events store)) no_resources (node_resource, 1)
    ≡ replay (updates events) no_resources (node_resource, 1)
replay-get_events-receive_all_example = replay-get_events-receive_all events (node_resource, 1)

receive-IsValid_example : IsValid (receive store node_resource create_operation 2 (21 ∷ []))
receive-IsValid_example =
    receive-IsValid store node_resource create_operation 2 (21 ∷ []) store-IsValid
