-- ===== src/Manager/Tests.antt =====
-- A manager with a ring of two entries, and four events.
use modelsrv.Prelude.{
  ℕ, ◌+◌, ◌≤◌, ◌<◌, ◌≡◌, refl, inl, List, [], ◌∷◌, ◌++◌, pos, arith, length, take,
}
use modelsrv.Prelude.Dict.{lookup, insert, delete}
use modelsrv.Event.{Event, new_stored_event}
use modelsrv.Event.Kind.{ResourceType, node_resource, system_resource, resource_type_beq, code}
use modelsrv.Event.Wire.{
  Operation, create_operation, update_operation, wire_kind, wire_operation, resource_type_string,
}
use modelsrv.View.{replay, resource_key_eq}
use modelsrv.History.{new_history_ring, add, snapshot, compaction_boundary}
use modelsrv.Latest
use modelsrv.Latest.{new_latest_state_store, remove_from_order, get_events}
use modelsrv.Latest.Replay.{live}
use modelsrv.Manager.{
  EventManager, new_event_manager, receive, record_event, increment_sequence_id, with_history_limit,
}
use modelsrv.Manager.Query.{
  query_events, matching, synthetic_of, limit_of_query, tail_resource_key_eq, page_from, matches,
  synthesize, in_tail,
}
use modelsrv.Manager.Page.{room, query_events_lem}
use modelsrv.Manager.Log.{
  Act, records, increments, HasSeen, Entry, run, act, logged, run-new_event_manager,
}
use modelsrv.Manager.CatchUp.{everything, nothing, wire_key, stored_updates, replay-query_events}

abbrev event : ResourceType → Operation → ℕ → List ℕ → Event ℕ
event rt op id objects = record {
  resource_type = rt;
  operation = op;
  resource_id = id;
  objects = objects;
}

abbrev acts : List (Act ℕ)
acts =
    records 100 (event node_resource create_operation 1 (10 ∷ []))
    ∷ records 101 (event node_resource create_operation 2 (20 ∷ []))
    ∷ increments
    ∷ records 102 (event system_resource create_operation 3 (30 ∷ []))
    ∷ records 103 (event node_resource update_operation 2 (21 ∷ []))
    ∷ []

abbrev manager : EventManager ℕ
manager = run (new_event_manager (pos 2 ∷ [])) acts

abbrev log : List (Entry ℕ)
log = logged (new_event_manager (pos 2 ∷ [])) acts

manager-HasSeen : HasSeen manager log
manager-HasSeen = run-new_event_manager (pos 2 ∷ []) acts (omega arith)

run-new_event_manager_example : HasSeen manager log
run-new_event_manager_example = run-new_event_manager (pos 2 ∷ []) acts (omega arith)

-- The ring has let two entries go, so the first node comes back as a Create with the boundary's number.
all_events :
    query_events manager (everything 0 (pos 10))
    ≡ new_stored_event 2 101 node_resource create_operation 1 (10 ∷ [])
      ∷ new_stored_event 4 102 system_resource create_operation 3 (30 ∷ [])
      ∷ new_stored_event 5 103 node_resource update_operation 2 (21 ∷ [])
      ∷ []
unfolding run act new_event_manager receive record_event increment_sequence_id with_history_limit
    query_events matching synthetic_of page_from matches synthesize in_tail new_history_ring add
    snapshot compaction_boundary Latest.receive new_latest_state_store get_events remove_from_order
    lookup insert delete new_stored_event wire_kind wire_operation resource_type_string
    resource_type_beq code
all_events = refl

query_events_lem_example :
    let q = everything 0 (pos 10) in
    let prefix = matching q (synthetic_of manager q) in
    query_events manager q
    ≡ prefix
      ++ take (room (limit_of_query q) (length prefix)) (matching q (snapshot manager.history_tail))
query_events_lem_example = query_events_lem manager (everything 0 (pos 10))

below_boundary : 0 < (compaction_boundary manager.history_tail).0
unfolding run act new_event_manager receive record_event increment_sequence_id with_history_limit
    new_history_ring add compaction_boundary new_stored_event
below_boundary = omega arith

within_limit :
    length (synthetic_of manager (everything 0 (pos 10))) + length (snapshot manager.history_tail)
    ≤ 10
unfolding run act new_event_manager receive record_event increment_sequence_id with_history_limit
    synthetic_of synthesize in_tail new_history_ring add snapshot compaction_boundary Latest.receive
    new_latest_state_store get_events remove_from_order lookup insert delete new_stored_event
    wire_kind wire_operation resource_type_string resource_type_beq code
within_limit = omega arith

replay-query_events_example :
    replay
      (stored_updates (query_events manager (everything 0 (pos 10))))
      nothing
      (wire_key (node_resource, 1))
    ≡ live manager.latest_state (node_resource, 1)
replay-query_events_example =
    replay-query_events manager log manager-HasSeen 0 (pos 10) (node_resource, 1)
      (inl below_boundary) within_limit
