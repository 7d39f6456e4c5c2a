-- ===== src/Model/Tests.antt =====
-- A small landscape.
use modelsrv.Prelude.{
  String, ◌≡◌, refl, ◌≢◌, ◌⊎◌, true, ◌==◌, nat_eq, Option, none, some, List, [], ◌∷◌,
}
use modelsrv.Prelude.Dict.{insert, lookup}
use mathlib.Core.List.{Memᴰ}
use modelsrv.Event.{Uuid, nil}
use modelsrv.Event.Kind.{resource_type_beq, code}
use modelsrv.Latest.{new_latest_state_store}
use modelsrv.Latest.Replay.{live, receive_all}
use modelsrv.Model.Stores.{
  Store, store_beq, store_eq, kind_of, nodes_by_uuid, contexts_by_uuid, findings_by_uuid,
  capacities_by_uuid, capacity_resource_types_by_uuid,
}
use modelsrv.Model.State
use modelsrv.Model.State.{
  ModelData, ModelError, Objects, Result, new_model, add_event_enabled, delete_event_enabled,
  get_event_enabled, not_found, capacity_tuple_conflict,
}
use modelsrv.Model.Findings.{get_findings_referencing_resource}
use modelsrv.Model.Findings.Cited.{names}
use modelsrv.Model.Findings.Referencing.{get_findings_referencing_resource_lem}
use modelsrv.Model.Capacities.{add_capacity, validate_capacity}
use modelsrv.Model.Capacities.Adding.{IsFree, IsStored, add_capacity_lem}
use modelsrv.Model.Landscape.{add_context, get_context_by_id}
use modelsrv.Model.Catalog.{add_capacity_resource_type, get_capacity_resource_type_by_id}
use modelsrv.Model.Calls.{Call, adds, deletes, perform, perform_all, get_by_id}
use modelsrv.Model.Mirror.{single}
use modelsrv.Model.Run.{IsValid, perform_all-new_model, live-perform_all}
use modelsrv.Model.Apply.Handler.{ok}
use modelsrv.Model.Apply.Replica.{apply_all, apply_all-perform_all}

record Thing : Type 0 where
  id : Uuid
  map : Store
  cited : List (Option Uuid)
  context_id : Uuid
  type_id : Uuid
  category : String

abbrev things : Objects Thing
things = record {
  get_id = λ s x. x.id;
  is_a = λ s x. x.map == s;
  get_display_name = λ x. "";
  get_resources = λ x. x.cited;
  get_context_id = λ x. x.context_id;
  get_capacity_resource_type_id = λ x. x.type_id;
  get_category = λ x. x.category;
  get_amount = λ x. "1";
  parses_amount = λ text. true;
}

abbrev plain : Store → Uuid → Thing
plain s id = record { id = id; map = s; cited = []; context_id = nil; type_id = nil; category = "" }

abbrev report : Thing
report = record (plain findings_by_uuid 7) { cited = some 1 ∷ none ∷ some 2 ∷ some 1 ∷ [] }

abbrev supply : Uuid → Thing
supply id = record (plain capacities_by_uuid id) {
  context_id = 3;
  type_id = 4;
  category = "provided";
}

abbrev calls : List (Call Thing)
calls =
    adds nodes_by_uuid (plain nodes_by_uuid 1)
    ∷ adds contexts_by_uuid (plain contexts_by_uuid 3)
    ∷ adds capacity_resource_types_by_uuid (plain capacity_resource_types_by_uuid 4)
    ∷ adds findings_by_uuid report
    ∷ adds capacities_by_uuid (supply 5)
    ∷ adds capacities_by_uuid (supply 6)
    ∷ adds nodes_by_uuid (plain nodes_by_uuid 2)
    ∷ deletes nodes_by_uuid 1
    ∷ []

abbrev landscape : ModelData Thing
landscape = perform_all things new_model calls

landscape-IsValid : IsValid things landscape
landscape-IsValid = perform_all-new_model things calls

perform_all-new_model_example : IsValid things landscape
perform_all-new_model_example = perform_all-new_model things calls

live-perform_all_example :
    live (receive_all new_latest_state_store landscape.sink) (kind_of findings_by_uuid, 7)
    ≡ single (get_by_id landscape findings_by_uuid 7)
live-perform_all_example = live-perform_all things calls findings_by_uuid 7

apply_all-perform_all_example : apply_all things new_model landscape.sink ≡ ok landscape
unfolding store_beq kind_of resource_type_beq code
apply_all-perform_all_example =
    apply_all-perform_all things calls
      (refl, (refl, (refl, (refl, (refl, (refl, (refl, (tt, tt))))))))

get_findings_referencing_resource_lem_example :
    let found = Memᴰ report (get_findings_referencing_resource landscape 2) in
    let stored =
      (id : Uuid) × (lookup id (landscape.stores findings_by_uuid) ≡ some report)
      × (names 2 report.cited ≡ true) in
    (found → (2 ≢ nil) × stored) × (2 ≢ nil → stored → found)
get_findings_referencing_resource_lem_example =
    get_findings_referencing_resource_lem things landscape 2 report landscape-IsValid.has_index

abbrev furnished : ModelData Thing
furnished = perform_all things new_model (
    adds contexts_by_uuid (plain contexts_by_uuid 3)
    ∷ adds capacity_resource_types_by_uuid (plain capacity_resource_types_by_uuid 4)
    ∷ [])

supply_is_valid : validate_capacity things (supply 6) furnished ≡ none
unfolding validate_capacity perform_all perform add_context add_capacity_resource_type
    add_event_enabled store_beq kind_of resource_type_beq code new_model insert lookup
    get_capacity_resource_type_by_id get_context_by_id get_event_enabled
supply_is_valid = refl

add_capacity_lem_example :
    (IsFree things furnished (supply 6)
      × ((u : ModelData Thing) × (add_capacity things furnished (supply 6) ≡ State.ok u)
          × IsStored things furnished (supply 6) u))
    ⊎ ((¬ IsFree things furnished (supply 6))
        × (add_capacity things furnished (supply 6) ≡ State.err capacity_tuple_conflict))
add_capacity_lem_example =
    add_capacity_lem things furnished (supply 6) (perform_all-new_model things _).has_tuples
      supply_is_valid

nodes_not_findings : nodes_by_uuid ≢ findings_by_uuid
nodes_not_findings e = cc

nodes_not_capacities : nodes_by_uuid ≢ capacities_by_uuid
nodes_not_capacities e = cc
