-- ===== src/Model/Apply.antt =====
-- pkg/model/event_apply.go and handler_registry.go: the model of a replica, which applies the events of
-- another.
pub mod Handler
pub mod Handlers
pub mod MoreHandlers
pub mod Replica
use modelsrv.Prelude.{Bool, true, false, Option, none, some, List, [], ◌∷◌, if◌then◌else◌}
use modelsrv.Event.{Event, Uuid}
use modelsrv.Event.Kind.{
  ResourceType, unknown_resource_type, annotations_resource, node_type_resource, node_resource,
  context_resource, context_type_resource, system_resource, api_resource, component_resource,
  system_instance_resource, api_instance_resource, component_instance_resource, finding_resource,
  finding_type_resource, artifact_resource, artifact_instance_resource, org_unit_resource,
  group_resource, identity_resource, permission_spec_resource, role_spec_resource,
  permission_resource, role_resource, binding_resource, product_resource, filter_rule_resource,
  merge_rule_resource, capability_resource, parameter_resource, capacity_resource_type_resource,
  capacity_resource,
}
use modelsrv.Event.Wire.{
  Operation, unknown_operation, create_operation, update_operation, delete_operation,
}
use modelsrv.Model.State.{ModelData, Objects}
use Handler.{
  ResourceHandler, ApplyError, Applied, ok, err, missing_object, unsupported_resource_type,
  unsupported_operation, unless_not_found,
}
use Handlers.{
  node_type_handler, node_handler, context_handler, context_type_handler, system_handler,
  api_handler, component_handler, system_instance_handler, api_instance_handler,
  component_instance_handler, org_unit_handler, group_handler, identity_handler,
  permission_spec_handler, role_spec_handler, permission_handler, role_handler, binding_handler,
}
use MoreHandlers.{
  finding_handler, finding_type_handler, artifact_handler, artifact_instance_handler,
  product_handler, filter_rule_handler, merge_rule_handler, capability_handler, parameter_handler,
  capacity_resource_type_handler, capacity_handler,
}

module _ {O : Type 0} (ob : Objects O) where
  -- `handlerRegistry`, as the generated files fill it: one handler for each kind.
  unfoldable pub handler_registry : ResourceType → Option (ResourceHandler O)
  handler_registry unknown_resource_type = none
  handler_registry annotations_resource = none
  handler_registry node_type_resource = some (node_type_handler ob)
  handler_registry node_resource = some (node_handler ob)
  handler_registry context_resource = some (context_handler ob)
  handler_registry context_type_resource = some (context_type_handler ob)
  handler_registry system_resource = some (system_handler ob)
  handler_registry api_resource = some (api_handler ob)
  handler_registry component_resource = some (component_handler ob)
  handler_registry system_instance_resource = some (system_instance_handler ob)
  handler_registry api_instance_resource = some (api_instance_handler ob)
  handler_registry component_instance_resource = some (component_instance_handler ob)
  handler_registry finding_resource = some (finding_handler ob)
  handler_registry finding_type_resource = some (finding_type_handler ob)
  handler_registry artifact_resource = some (artifact_handler ob)
  handler_registry artifact_instance_resource = some (artifact_instance_handler ob)
  handler_registry org_unit_resource = some (org_unit_handler ob)
  handler_registry group_resource = some (group_handler ob)
  handler_registry identity_resource = some (identity_handler ob)
  handler_registry permission_spec_resource = some (permission_spec_handler ob)
  handler_registry role_spec_resource = some (role_spec_handler ob)
  handler_registry permission_resource = some (permission_handler ob)
  handler_registry role_resource = some (role_handler ob)
  handler_registry binding_resource = some (binding_handler ob)
  handler_registry product_resource = some (product_handler ob)
  handler_registry filter_rule_resource = some (filter_rule_handler ob)
  handler_registry merge_rule_resource = some (merge_rule_handler ob)
  handler_registry capability_resource = some (capability_handler ob)
  handler_registry parameter_resource = some (parameter_handler ob)
  handler_registry capacity_resource_type_resource = some (capacity_resource_type_handler ob)
  handler_registry capacity_resource = some (capacity_handler ob)

  -- `applyReplicationDelete`
  unfoldable pub apply_replication_delete :
      ModelData O → ResourceType → Uuid → Applied (ModelData O)
  apply_replication_delete m rt id = elim (handler_registry rt) [
    | none ↦ err unsupported_resource_type
    | some h ↦ unless_not_found h m (h.delete m id)
  ]

  -- `applyReplicationUpsert`
  unfoldable pub apply_replication_upsert : ModelData O → ResourceType → O → Applied (ModelData O)
  apply_replication_upsert m rt obj = elim (handler_registry rt) [
    | none ↦ err unsupported_resource_type
    | some h ↦ h.upsert m obj
  ]

  -- The branch of `Apply` for a Create and an Update: the first object counts.
  apply_first : ModelData O → ResourceType → List O → Applied (ModelData O)
  apply_first m rt [] = err missing_object
  apply_first m rt (obj ∷ objects) = apply_replication_upsert m rt obj

  apply_operation : ModelData O → Event O → Operation → Applied (ModelData O)
  apply_operation m ev delete_operation = apply_replication_delete m ev.resource_type ev.resource_id
  apply_operation m ev create_operation = apply_first m ev.resource_type ev.objects
  apply_operation m ev update_operation = apply_first m ev.resource_type ev.objects
  apply_operation m ev unknown_operation = err unsupported_operation

  -- `Apply`
  unfoldable pub apply : ModelData O → Event O → Applied (ModelData O)
  unfolding apply_first apply_operation
  apply m ev = apply_operation m ev ev.operation
