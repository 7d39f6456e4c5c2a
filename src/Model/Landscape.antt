-- ===== src/Model/Landscape.antt =====
-- pkg/model/structure.go and structure_capacity.go: the methods for the nodes, contexts,
-- systems, APIs and components. Where the source writes a generic helper's body out again, the
-- method calls the helper here.
use modelsrv.Prelude.{Option, List}
use modelsrv.Event.{Uuid}
use modelsrv.Event.Kind.{
  node_resource, node_type_resource, context_resource, context_type_resource, system_resource,
  system_instance_resource, api_resource, api_instance_resource, component_resource,
  component_instance_resource,
}
use modelsrv.Model.Stores.{
  nodes_by_uuid, node_types_by_uuid, contexts_by_uuid, context_types_by_uuid, systems_by_uuid,
  system_instances_by_uuid, apis_by_uuid, api_instances_by_uuid, components_by_uuid,
  component_instances_by_uuid,
}
use modelsrv.Model.State.{
  ModelData, Objects, Result, not_found, add_event_enabled, delete_event_enabled, get_event_enabled,
  get_all_event_enabled,
}

module _ {O : Type 0} where
  -- `AddNode`
  unfoldable pub add_node : Objects O → ModelData O → O → Result (ModelData O)
  add_node ob m obj = add_event_enabled ob m obj nodes_by_uuid node_resource

  -- `DeleteNodeById`
  unfoldable pub delete_node_by_id : ModelData O → Uuid → Result (ModelData O)
  delete_node_by_id m id =
      delete_event_enabled m id nodes_by_uuid node_resource (not_found nodes_by_uuid)

  -- `GetNodeById`
  unfoldable pub get_node_by_id : ModelData O → Uuid → Option O
  get_node_by_id m id = get_event_enabled m id nodes_by_uuid

  -- `GetNodes`
  unfoldable pub get_nodes : ModelData O → List O
  get_nodes m = get_all_event_enabled m nodes_by_uuid

  -- `AddNodeType`
  unfoldable pub add_node_type : Objects O → ModelData O → O → Result (ModelData O)
  add_node_type ob m obj = add_event_enabled ob m obj node_types_by_uuid node_type_resource

  -- `DeleteNodeTypeById`
  unfoldable pub delete_node_type_by_id : ModelData O → Uuid → Result (ModelData O)
  delete_node_type_by_id m id =
      delete_event_enabled m id node_types_by_uuid node_type_resource (not_found node_types_by_uuid)

  -- `GetNodeTypeById`
  unfoldable pub get_node_type_by_id : ModelData O → Uuid → Option O
  get_node_type_by_id m id = get_event_enabled m id node_types_by_uuid

  -- `GetNodeTypes`
  unfoldable pub get_node_types : ModelData O → List O
  get_node_types m = get_all_event_enabled m node_types_by_uuid

  -- `AddContext`
  unfoldable pub add_context : Objects O → ModelData O → O → Result (ModelData O)
  add_context ob m obj = add_event_enabled ob m obj contexts_by_uuid context_resource

  -- `DeleteContextById`
  unfoldable pub delete_context_by_id : ModelData O → Uuid → Result (ModelData O)
  delete_context_by_id m id =
      delete_event_enabled m id contexts_by_uuid context_resource (not_found contexts_by_uuid)

  -- `GetContextById`
  unfoldable pub get_context_by_id : ModelData O → Uuid → Option O
  get_context_by_id m id = get_event_enabled m id contexts_by_uuid

  -- `GetContexts`
  unfoldable pub get_contexts : ModelData O → List O
  get_contexts m = get_all_event_enabled m contexts_by_uuid

  -- `AddContextType`
  unfoldable pub add_context_type : Objects O → ModelData O → O → Result (ModelData O)
  add_context_type ob m obj = add_event_enabled ob m obj context_types_by_uuid context_type_resource

  -- `DeleteContextTypeById`
  unfoldable pub delete_context_type_by_id : ModelData O → Uuid → Result (ModelData O)
  delete_context_type_by_id m id =
      delete_event_enabled m id context_types_by_uuid context_type_resource
        (not_found context_types_by_uuid)

  -- `GetContextTypeById`
  unfoldable pub get_context_type_by_id : ModelData O → Uuid → Option O
  get_context_type_by_id m id = get_event_enabled m id context_types_by_uuid

  -- `GetContextTypes`
  unfoldable pub get_context_types : ModelData O → List O
  get_context_types m = get_all_event_enabled m context_types_by_uuid

  -- `AddSystem`
  unfoldable pub add_system : Objects O → ModelData O → O → Result (ModelData O)
  add_system ob m obj = add_event_enabled ob m obj systems_by_uuid system_resource

  -- `DeleteSystemById`
  unfoldable pub delete_system_by_id : ModelData O → Uuid → Result (ModelData O)
  delete_system_by_id m id =
      delete_event_enabled m id systems_by_uuid system_resource (not_found systems_by_uuid)

  -- `GetSystems`
  unfoldable pub get_systems : ModelData O → List O
  get_systems m = get_all_event_enabled m systems_by_uuid

  -- `GetSystemById`
  unfoldable pub get_system_by_id : ModelData O → Uuid → Option O
  get_system_by_id m id = get_event_enabled m id systems_by_uuid

  -- `AddSystemInstance`
  unfoldable pub add_system_instance : Objects O → ModelData O → O → Result (ModelData O)
  add_system_instance ob m obj =
      add_event_enabled ob m obj system_instances_by_uuid system_instance_resource

  -- `DeleteSystemInstanceById`
  unfoldable pub delete_system_instance_by_id : ModelData O → Uuid → Result (ModelData O)
  delete_system_instance_by_id m id =
      delete_event_enabled m id system_instances_by_uuid system_instance_resource
        (not_found system_instances_by_uuid)

  -- `GetSystemInstanceById`
  unfoldable pub get_system_instance_by_id : ModelData O → Uuid → Option O
  get_system_instance_by_id m id = get_event_enabled m id system_instances_by_uuid

  -- `GetSystemInstances`
  unfoldable pub get_system_instances : ModelData O → List O
  get_system_instances m = get_all_event_enabled m system_instances_by_uuid

  -- `AddApi`
  unfoldable pub add_api : Objects O → ModelData O → O → Result (ModelData O)
  add_api ob m obj = add_event_enabled ob m obj apis_by_uuid api_resource

  -- `DeleteApiById`
  unfoldable pub delete_api_by_id : ModelData O → Uuid → Result (ModelData O)
  delete_api_by_id m id =
      delete_event_enabled m id apis_by_uuid api_resource (not_found apis_by_uuid)

  -- `GetApiById`
  unfoldable pub get_api_by_id : ModelData O → Uuid → Option O
  get_api_by_id m id = get_event_enabled m id apis_by_uuid

  -- `GetApis`
  unfoldable pub get_apis : ModelData O → List O
  get_apis m = get_all_event_enabled m apis_by_uuid

  -- `AddApiInstance`
  unfoldable pub add_api_instance : Objects O → ModelData O → O → Result (ModelData O)
  add_api_instance ob m obj = add_event_enabled ob m obj api_instances_by_uuid api_instance_resource

  -- `DeleteApiInstanceById`
  unfoldable pub delete_api_instance_by_id : ModelData O → Uuid → Result (ModelData O)
  delete_api_instance_by_id m id =
      delete_event_enabled m id api_instances_by_uuid api_instance_resource
        (not_found api_instances_by_uuid)

  -- `GetApiInstanceById`
  unfoldable pub get_api_instance_by_id : ModelData O → Uuid → Option O
  get_api_instance_by_id m id = get_event_enabled m id api_instances_by_uuid

  -- `GetApiInstances`
  unfoldable pub get_api_instances : ModelData O → List O
  get_api_instances m = get_all_event_enabled m api_instances_by_uuid

  -- `AddComponent`
  unfoldable pub add_component : Objects O → ModelData O → O → Result (ModelData O)
  add_component ob m obj = add_event_enabled ob m obj components_by_uuid component_resource

  -- `DeleteComponentById`
  unfoldable pub delete_component_by_id : ModelData O → Uuid → Result (ModelData O)
  delete_component_by_id m id =
      delete_event_enabled m id components_by_uuid component_resource (not_found components_by_uuid)

  -- `GetComponentById`
  unfoldable pub get_component_by_id : ModelData O → Uuid → Option O
  get_component_by_id m id = get_event_enabled m id components_by_uuid

  -- `GetComponents`
  unfoldable pub get_components : ModelData O → List O
  get_components m = get_all_event_enabled m components_by_uuid

  -- `AddComponentInstance`
  unfoldable pub add_component_instance : Objects O → ModelData O → O → Result (ModelData O)
  add_component_instance ob m obj =
      add_event_enabled ob m obj component_instances_by_uuid component_instance_resource

  -- `DeleteComponentInstanceById`
  unfoldable pub delete_component_instance_by_id : ModelData O → Uuid → Result (ModelData O)
  delete_component_instance_by_id m id =
      delete_event_enabled m id component_instances_by_uuid component_instance_resource
        (not_found component_instances_by_uuid)

  -- `GetComponentInstanceById`
  unfoldable pub get_component_instance_by_id : ModelData O → Uuid → Option O
  get_component_instance_by_id m id = get_event_enabled m id component_instances_by_uuid

  -- `GetComponentInstances`
  unfoldable pub get_component_instances : ModelData O → List O
  get_component_instances m = get_all_event_enabled m component_instances_by_uuid
