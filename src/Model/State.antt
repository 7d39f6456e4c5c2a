-- ===== src/Model/State.antt =====
-- pkg/model/structure.go: the state of `modelData` and its generic helpers. An object is a value
-- here: what its setters do once it is stored, and that `Register` hands it the sink, is not
-- modelled. The sink is the list of the events that it received; its errors are only printed.
use modelsrv.Prelude.{
  String, Bool, Option, none, some, List, [], ◌∷◌, ◌++◌, ◌==◌, nat_eq, if◌then◌else◌,
}
use modelsrv.Prelude.Dict.{Dict, lookup, insert, delete}
use modelsrv.Event.{Event, Uuid, nil}
use modelsrv.Event.Kind.{ResourceType}
use modelsrv.Event.Wire.{Operation, create_operation, update_operation, delete_operation}
use modelsrv.Model.Stores.{Store, store_eq}

-- What the model asks of the objects that a client hands it. The getter of an identifier depends on
-- the map: `GetNodeId`, `GetContextId` and so on.
pub record Objects (O : Type 0) : Type 0 where
  pub get_id : Store → O → Uuid
  -- Whether the object has the Go type that the map holds.
  pub is_a : Store → O → Bool
  pub get_display_name : O → String
  -- The identifiers of `Finding.GetResources`; `none` is a nil reference.
  pub get_resources : O → List (Option Uuid)
  pub get_context_id : O → Uuid
  pub get_capacity_resource_type_id : O → Uuid
  pub get_category : O → String
  pub get_amount : O → String
  -- Whether `ParseAmount`, a parser of Go's rationals, accepts the text.
  pub parses_amount : String → Bool

-- A set of identifiers, `map[uuid.UUID]struct{}`.
abbrev pub IdSet : Type 0
IdSet = Dict {0, 0} Uuid Unit

-- `capacityTupleKey`
pub record CapacityTupleKey : Type 0 where
  pub context_id : Uuid
  pub capacity_resource_type_id : Uuid
  pub category : String

-- `modelData`: the maps that hold resources are one family, by the names of their fields.
pub record ModelData (O : Type 0) : Type 0 where
  pub sink : List (Event O)
  pub stores : Store → Dict Uuid O
  pub findings_by_resource_id : Dict Uuid IdSet
  pub capacities_by_tuple : Dict CapacityTupleKey Uuid

-- `not_found s` is the error of the map, such as ErrNodeNotFound.
pub data ModelError : Type 0 where
  uuid_not_set capacity_tuple_conflict invalid_category invalid_amount : ModelError
  resource_type_ref_required context_ref_required : ModelError
  not_found : Store → ModelError

pub data Result (A : Type 0) : Type 0 where
  ok : A → Result A
  err : ModelError → Result A

-- The values of a map.
abbrev pub values : {K : Type 0} {V : Type 0} → Dict K V → List V
values [] = []
values ((k, v) ∷ d) = v ∷ values d

-- A call that returns an error leaves what it was called on as it was.
abbrev pub after : {A : Type 0} → A → Result A → A
after m (ok u) = u
after m (err e) = m

module _ {O : Type 0} where
  -- `NewModel`
  unfoldable pub new_model : ModelData O
  new_model = record {
    sink = [];
    stores = λ s. [];
    findings_by_resource_id = [];
    capacities_by_tuple = [];
  }

  -- One map replaced.
  abbrev pub put_store : ModelData O → Store → Dict Uuid O → ModelData O
  put_store m s d = record m { stores = λ t. if s == t then d else m.stores t }

  -- `m.sink.Receive`
  abbrev pub receive : ModelData O → ResourceType → Operation → Uuid → List O → ModelData O
  receive m rt op id objects = record m {
    sink =
        m.sink
        ++ (record { resource_type = rt; operation = op; resource_id = id; objects = objects }
            ∷ []);
  }

  abbrev pub add_operation : Option O → Operation
  add_operation none = create_operation
  add_operation (some old) = update_operation

  -- `addEventEnabled`
  unfoldable pub add_event_enabled :
      Objects O → ModelData O → O → Store → ResourceType → Result (ModelData O)
  add_event_enabled ob m obj s rt =
      let id : Uuid = ob.get_id s obj in
      let op : Operation = add_operation (lookup id (m.stores s)) in
      if id == nil
      then err uuid_not_set
      else ok (receive (put_store m s (insert id obj (m.stores s))) rt op id (obj ∷ []))

  -- `deleteEventEnabled`
  unfoldable pub delete_event_enabled :
      ModelData O → Uuid → Store → ResourceType → ModelError → Result (ModelData O)
  delete_event_enabled m id s rt missing = elim (lookup id (m.stores s)) [
    | none ↦ err missing
    | some old ↦ ok (receive (put_store m s (delete id (m.stores s))) rt delete_operation id [])
  ]

  -- `getEventEnabled`: `none` is nil.
  unfoldable pub get_event_enabled : ModelData O → Uuid → Store → Option O
  get_event_enabled m id s = lookup id (m.stores s)

  -- `getAllEventEnabled`
  unfoldable pub get_all_event_enabled : ModelData O → Store → List O
  get_all_event_enabled m s = values (m.stores s)
