-- ===== src/Latest.antt =====
-- internal/events/latest_state.go: the store of the most recent event of each live resource.
pub mod Valid
pub mod Replay
mod Tests
use modelsrv.Prelude.{List, [], ◌∷◌, ◌++◌, map, Option, none, some, ◌==◌, if◌then◌else◌}
use modelsrv.Prelude.Dict.{Dict, lookup, insert, delete}
use modelsrv.Event.{Event, Uuid, nil}
use modelsrv.Event.Kind.{ResourceType, unknown_resource_type}
use modelsrv.Event.Wire.{
  Operation, unknown_operation, create_operation, delete_operation, operation_eq,
}
use modelsrv.View.{ResourceKey, resource_key_eq}

-- `latestStateStore`
pub record LatestStateStore (O : Type 0) : Type 0 where
  pub order : List ResourceKey
  pub state : Dict ResourceKey (Event O)

-- `removeFromOrder`: the first occurrence goes.
unfoldable pub remove_from_order : ResourceKey → List ResourceKey → List ResourceKey
remove_from_order key [] = []
remove_from_order key (k ∷ order) = if k == key then order else k ∷ remove_from_order key order

module _ {O : Type 0} where
  unfoldable pub new_latest_state_store : LatestStateStore O
  new_latest_state_store = record { order = []; state = [] }

  -- The zero value of `Event`.
  abbrev pub zero_event : Event O
  zero_event = record {
    resource_type = unknown_resource_type;
    operation = unknown_operation;
    resource_id = nil;
    objects = [];
  }

  -- The branch of `Receive` for a Delete.
  receive_delete : LatestStateStore O → ResourceKey → LatestStateStore O
  receive_delete s key = elim (lookup key s.state) [
    | none ↦ s
    | some _ ↦ record { state = delete key s.state; order = remove_from_order key s.order }
  ]

  -- The branch for every other operation.
  receive_upsert : LatestStateStore O → ResourceKey → Event O → LatestStateStore O
  receive_upsert s key ev =
      let order : List ResourceKey = elim (lookup key s.state) [
        | none ↦ s.order ++ (key ∷ [])
        | some _ ↦ s.order
      ] in
      record { order = order; state = insert key ev s.state }

  -- `Receive`
  unfoldable pub receive :
      LatestStateStore O → ResourceType → Operation → Uuid → List O → LatestStateStore O
  unfolding receive_delete receive_upsert
  receive s res_type op resource_id objects =
      let key : ResourceKey = (res_type, resource_id) in
      let ev : Event O = record {
        resource_type = res_type;
        operation = op;
        resource_id = resource_id;
        objects = objects;
      } in
      if op == delete_operation then receive_delete s key else receive_upsert s key ev

  -- `s.state[key]`
  abbrev pub state_at : LatestStateStore O → ResourceKey → Event O
  state_at s key = elim (lookup key s.state) [ none ↦ zero_event | some ev ↦ ev ]

  -- `GetEvents`
  get_events_from : LatestStateStore O → List ResourceKey → List (Event O)
  get_events_from s [] = []
  get_events_from s (key ∷ keys) =
      record (state_at s key) { operation = create_operation } ∷ get_events_from s keys

  unfoldable pub get_events : LatestStateStore O → List (Event O)
  unfolding get_events_from
  get_events s = get_events_from s s.order
