-- ===== src/Model/Apply/Handlers.antt =====
-- pkg/model/handlers_*_gen.go: the handlers for the kinds of the landscape and of access.
use modelsrv.Model.Stores.{
  node_types_by_uuid, nodes_by_uuid, contexts_by_uuid, context_types_by_uuid, systems_by_uuid,
  apis_by_uuid, components_by_uuid, system_instances_by_uuid, api_instances_by_uuid,
  component_instances_by_uuid, org_units_by_uuid, groups_by_uuid, identities_by_uuid,
  permission_specs_by_uuid, role_specs_by_uuid, permissions_by_uuid, roles_by_uuid,
  bindings_by_uuid,
}
use modelsrv.Model.State.{Objects}
use modelsrv.Model.Apply.Handler.{ResourceHandler, handler}
use modelsrv.Model.Landscape.{
  add_node, delete_node_by_id, get_node_by_id, add_node_type, delete_node_type_by_id,
  get_node_type_by_id, add_context, delete_context_by_id, get_context_by_id, add_context_type,
  delete_context_type_by_id, get_context_type_by_id, add_system, delete_system_by_id,
  get_system_by_id, add_system_instance, delete_system_instance_by_id, get_system_instance_by_id,
  add_api, delete_api_by_id, get_api_by_id, add_api_instance, delete_api_instance_by_id,
  get_api_instance_by_id, add_component, delete_component_by_id, get_component_by_id,
  add_component_instance, delete_component_instance_by_id, get_component_instance_by_id,
}
use modelsrv.Model.Access.{
  add_org_unit, delete_org_unit, get_org_unit_by_id, add_group, delete_group, get_group_by_id,
  add_identity, delete_identity, get_identity_by_id, add_permission_spec, delete_permission_spec,
  get_permission_spec_by_id, add_role_spec, delete_role_spec, get_role_spec_by_id, add_permission,
  delete_permission, get_permission_by_id, add_role, delete_role, get_role_by_id, add_binding,
  delete_binding, get_binding_by_id,
}

module _ {O : Type 0} (ob : Objects O) where
  unfoldable pub node_type_handler : ResourceHandler O
  node_type_handler =
      handler ob node_types_by_uuid (add_node_type ob) delete_node_type_by_id get_node_type_by_id

  unfoldable pub node_handler : ResourceHandler O
  node_handler = handler ob nodes_by_uuid (add_node ob) delete_node_by_id get_node_by_id

  unfoldable pub context_handler : ResourceHandler O
  context_handler =
      handler ob contexts_by_uuid (add_context ob) delete_context_by_id get_context_by_id

  unfoldable pub context_type_handler : ResourceHandler O
  context_type_handler =
      handler ob context_types_by_uuid (add_context_type ob) delete_context_type_by_id
        get_context_type_by_id

  unfoldable pub system_handler : ResourceHandler O
  system_handler = handler ob systems_by_uuid (add_system ob) delete_system_by_id get_system_by_id

  unfoldable pub api_handler : ResourceHandler O
  api_handler = handler ob apis_by_uuid (add_api ob) delete_api_by_id get_api_by_id

  unfoldable pub component_handler : ResourceHandler O
  component_handler =
      handler ob components_by_uuid (add_component ob) delete_component_by_id get_component_by_id

  unfoldable pub system_instance_handler : ResourceHandler O
  system_instance_handler =
      handler ob system_instances_by_uuid (add_system_instance ob) delete_system_instance_by_id
        get_system_instance_by_id

  unfoldable pub api_instance_handler : ResourceHandler O
  api_instance_handler =
      handler ob api_instances_by_uuid (add_api_instance ob) delete_api_instance_by_id
        get_api_instance_by_id

  unfoldable pub component_instance_handler : ResourceHandler O
  component_instance_handler =
      handler ob component_instances_by_uuid (add_component_instance ob)
        delete_component_instance_by_id get_component_instance_by_id

  unfoldable pub org_unit_handler : ResourceHandler O
  org_unit_handler =
      handler ob org_units_by_uuid (add_org_unit ob) delete_org_unit get_org_unit_by_id

  unfoldable pub group_handler : ResourceHandler O
  group_handler = handler ob groups_by_uuid (add_group ob) delete_group get_group_by_id

  unfoldable pub identity_handler : ResourceHandler O
  identity_handler =
      handler ob identities_by_uuid (add_identity ob) delete_identity get_identity_by_id

  unfoldable pub permission_spec_handler : ResourceHandler O
  permission_spec_handler =
      handler ob permission_specs_by_uuid (add_permission_spec ob) delete_permission_spec
        get_permission_spec_by_id

  unfoldable pub role_spec_handler : ResourceHandler O
  role_spec_handler =
      handler ob role_specs_by_uuid (add_role_spec ob) delete_role_spec get_role_spec_by_id

  unfoldable pub permission_handler : ResourceHandler O
  permission_handler =
      handler ob permissions_by_uuid (add_permission ob) delete_permission get_permission_by_id

  unfoldable pub role_handler : ResourceHandler O
  role_handler = handler ob roles_by_uuid (add_role ob) delete_role get_role_by_id

  unfoldable pub binding_handler : ResourceHandler O
  binding_handler = handler ob bindings_by_uuid (add_binding ob) delete_binding get_binding_by_id
