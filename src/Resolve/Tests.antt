-- ===== src/Resolve/Tests.antt =====
-- A finding that cites an API which is added later.
use modelsrv.Prelude.{
  nat_eq, string_eq, String, ◌≡◌, ◌↔◌, ◌⊎◌, refl, true, Option, none, some, List, [], ◌∷◌, ◌==◌,
  if◌then◌else◌,
}
use modelsrv.Prelude.Dict.{lookup}
use modelsrv.Event.{Event, Uuid, nil}
use modelsrv.Event.Kind.{system_resource, api_resource}
use modelsrv.Event.Wire.{create_operation}
use modelsrv.Model.Stores.{Store, store_eq, apis_by_uuid, findings_by_uuid}
use modelsrv.Model.State.{ModelData, Objects, new_model}
use modelsrv.Model.Calls.{Call, adds, perform_all}
use modelsrv.Model.Run.{IsValid, perform_all-new_model}
use modelsrv.Resolve.{ResourceRef, FindingObjects, filter_func}
use modelsrv.Resolve.Obsolete.{IsSameBesides}
use modelsrv.Resolve.Deletes.{ids, HasIds}
use modelsrv.Resolve.Concerns.{Concerns}
use modelsrv.Resolve.Deleted.{IsObsolete, filter_func-IsObsolete}

record Report : Type 0 where
  id : Uuid
  map : Store
  refs : List (Option ResourceRef)

abbrev reports : Objects Report
reports = record {
  get_id = λ s x. x.id;
  is_a = λ s x. x.map == s;
  get_display_name = λ x. "";
  get_resources = λ x. ids x.refs;
  get_context_id = λ x. nil;
  get_capacity_resource_type_id = λ x. nil;
  get_category = λ x. "";
  get_amount = λ x. "";
  parses_amount = λ text. true;
}

abbrev type_id : String → Uuid
type_id kind = if kind == "MissingResourceReference" then 91 else 90

abbrev getters : FindingObjects Report
getters = record {
  get_finding_type_id = λ x. 50;
  get_resources = λ x. x.refs;
  get_api_ref = λ x. none;
  get_component_ref = λ x. none;
  get_system_ref = λ x. none;
  type_id_for_kind = type_id;
}

abbrev dangling : Report
dangling = record {
  id = 7;
  map = findings_by_uuid;
  refs =
      some (record { resource_id = 1; resource_type = system_resource })
      ∷ some (record { resource_id = 2; resource_type = api_resource })
      ∷ [];
}

abbrev api : Report
api = record { id = 2; map = apis_by_uuid; refs = [] }

abbrev calls : List (Call Report)
calls = adds findings_by_uuid dangling ∷ adds apis_by_uuid api ∷ []

abbrev landscape : ModelData Report
landscape = perform_all reports new_model calls

abbrev added : Event Report
added = record {
  resource_type = api_resource;
  operation = create_operation;
  resource_id = 2;
  objects = api ∷ [];
}

landscape-IsValid : IsValid reports landscape
landscape-IsValid = perform_all-new_model reports calls

reports-HasIds : HasIds reports getters
reports-HasIds f = refl

filter_func-IsObsolete_example :
    let u = (filter_func reports getters landscape added).0 in
    ((id : Uuid) (f : Report)
      → lookup id (landscape.stores findings_by_uuid) ≡ some f
      → (lookup id (u.stores findings_by_uuid) ≡ none)
        ↔ (Concerns added × IsObsolete reports getters landscape added f))
    × ((id : Uuid)
        → (lookup id (u.stores findings_by_uuid) ≡ none)
          ⊎ (lookup id (u.stores findings_by_uuid) ≡ lookup id (landscape.stores findings_by_uuid)))
    × IsSameBesides landscape u
filter_func-IsObsolete_example =
    filter_func-IsObsolete reports getters landscape added reports-HasIds
      landscape-IsValid.has_index
