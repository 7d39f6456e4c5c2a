-- ===== src/Model/References.antt =====
-- pkg/model/structure.go: the lookups beside those by identifier.
use modelsrv.Prelude.{String, Option, none, some, List, [], ◌∷◌, ◌==◌, string_eq, if◌then◌else◌}
use modelsrv.Event.{Uuid}
use modelsrv.Model.Stores.{apis_by_uuid, system_instances_by_uuid, finding_types_by_uuid}
use modelsrv.Model.State.{ModelData, Objects, values}
use modelsrv.Model.Landscape.{get_api_by_id, get_system_instance_by_id}

module _ {O : Type 0} (ob : Objects O) where
  -- The first object with the name.
  unfoldable pub named : String → List O → Option O
  named name [] = none
  named name (x ∷ xs) =
      let rest = named name xs in if ob.get_display_name x == name then some x else rest

  -- `GetFindingTypeByName`. Of several types with the name Go gives any, and the model the first.
  unfoldable pub get_finding_type_by_name : ModelData O → String → Option O
  get_finding_type_by_name m name =
      if name == "" then none else named name (values (m.stores finding_types_by_uuid))

  -- An object with the identifier that it says it has: an `ApiRef` or a `SystemInstanceRef`.
  abbrev pub Ref : Type 0
  Ref = O × Uuid

  -- `ApiRefByID`
  unfoldable pub api_ref_by_id : ModelData O → Uuid → Option Ref
  api_ref_by_id m id = elim (get_api_by_id m id) [
    | none ↦ none
    | some a ↦ some (a, ob.get_id apis_by_uuid a)
  ]

  -- `SystemInstanceRefByID`
  unfoldable pub system_instance_ref_by_id : ModelData O → Uuid → Option Ref
  system_instance_ref_by_id m id = elim (get_system_instance_by_id m id) [
    | none ↦ none
    | some inst ↦ some (inst, ob.get_id system_instances_by_uuid inst)
  ]
