-- ===== src/Model/Calls.antt =====
-- pkg/model/structure.go: a client's calls, of whatever method, as data.
use modelsrv.Prelude.{Option, List, [], ◌∷◌}
use modelsrv.Event.{Uuid}
use modelsrv.Model.Stores.{
  Store, node_types_by_uuid, nodes_by_uuid, contexts_by_uuid, context_types_by_uuid,
  systems_by_uuid, apis_by_uuid, components_by_uuid, system_instances_by_uuid,
  api_instances_by_uuid, component_instances_by_uuid, findings_by_uuid, finding_types_by_uuid,
  artifacts_by_uuid, artifact_instances_by_uuid, org_units_by_uuid, groups_by_uuid,
  identities_by_uuid, permission_specs_by_uuid, role_specs_by_uuid, permissions_by_uuid,
  roles_by_uuid, bindings_by_uuid, products_by_uuid, filter_rules_by_uuid, merge_rules_by_uuid,
  capabilities_by_uuid, parameters_by_uuid, capacity_resource_types_by_uuid, capacities_by_uuid,
}
use modelsrv.Model.State.{ModelData, Objects, Result, after}
use modelsrv.Model.Landscape.{
  add_node, delete_node_by_id, get_node_by_id, get_nodes, add_node_type, delete_node_type_by_id,
  get_node_type_by_id, get_node_types, add_context, delete_context_by_id, get_context_by_id,
  get_contexts, add_context_type, delete_context_type_by_id, get_context_type_by_id,
  get_context_types, add_system, delete_system_by_id, get_systems, get_system_by_id,
  add_system_instance, delete_system_instance_by_id, get_system_instance_by_id,
  get_system_instances, add_api, delete_api_by_id, get_api_by_id, get_apis, add_api_instance,
  delete_api_instance_by_id, get_api_instance_by_id, get_api_instances, add_component,
  delete_component_by_id, get_component_by_id, get_components, add_component_instance,
  delete_component_instance_by_id, get_component_instance_by_id, get_component_instances,
}
use modelsrv.Model.Access.{
  add_org_unit, delete_org_unit, get_org_unit_by_id, get_org_units, add_group, delete_group,
  get_group_by_id, get_groups, add_identity, delete_identity, get_identities, get_identity_by_id,
  add_permission_spec, delete_permission_spec, get_permission_specs, get_permission_spec_by_id,
  add_role_spec, delete_role_spec, get_role_specs, get_role_spec_by_id, add_permission,
  delete_permission, get_permissions, get_permission_by_id, add_role, delete_role, get_roles,
  get_role_by_id, add_binding, delete_binding, get_bindings, get_binding_by_id,
}
use modelsrv.Model.Catalog.{
  add_finding_type, delete_finding_type_by_id, get_finding_type_by_id, get_finding_types,
  add_artifact, delete_artifact_by_id, get_artifacts, get_artifact_by_id, add_artifact_instance,
  delete_artifact_instance_by_id, get_artifact_instances, get_artifact_instance_by_id, add_product,
  delete_product_by_id, get_product_by_id, get_products, add_filter_rule, delete_filter_rule_by_id,
  get_filter_rule_by_id, get_filter_rules, add_merge_rule, delete_merge_rule_by_id,
  get_merge_rule_by_id, get_merge_rules, add_capability, delete_capability_by_id,
  get_capability_by_id, get_capabilities, add_parameter, delete_parameter_by_id,
  get_parameter_by_id, get_parameters, add_capacity_resource_type,
  delete_capacity_resource_type_by_id, get_capacity_resource_type_by_id,
  get_capacity_resource_types, get_findings, get_finding_by_id, get_capacity_by_id, get_capacities,
}
use modelsrv.Model.Findings.{add_finding, delete_finding_by_id}
use modelsrv.Model.Capacities.{add_capacity, delete_capacity_by_id}

-- An object for one of the maps, and the identifier of one to delete.
pub data Call (O : Type 0) : Type 0 where
  adds : Store → O → Call O
  deletes : Store → Uuid → Call O

module _ {O : Type 0} where
  -- The method for the map.
  unfoldable pub perform : Objects O → ModelData O → Call O → Result (ModelData O)
  perform ob m (adds node_types_by_uuid obj) = add_node_type ob m obj
  perform ob m (adds nodes_by_uuid obj) = add_node ob m obj
  perform ob m (adds contexts_by_uuid obj) = add_context ob m obj
  perform ob m (adds context_types_by_uuid obj) = add_context_type ob m obj
  perform ob m (adds systems_by_uuid obj) = add_system ob m obj
  perform ob m (adds apis_by_uuid obj) = add_api ob m obj
  perform ob m (adds components_by_uuid obj) = add_component ob m obj
  perform ob m (adds system_instances_by_uuid obj) = add_system_instance ob m obj
  perform ob m (adds api_instances_by_uuid obj) = add_api_instance ob m obj
  perform ob m (adds component_instances_by_uuid obj) = add_component_instance ob m obj
  perform ob m (adds findings_by_uuid obj) = add_finding ob m obj
  perform ob m (adds finding_types_by_uuid obj) = add_finding_type ob m obj
  perform ob m (adds artifacts_by_uuid obj) = add_artifact ob m obj
  perform ob m (adds artifact_instances_by_uuid obj) = add_artifact_instance ob m obj
  perform ob m (adds org_units_by_uuid obj) = add_org_unit ob m obj
  perform ob m (adds groups_by_uuid obj) = add_group ob m obj
  perform ob m (adds identities_by_uuid obj) = add_identity ob m obj
  perform ob m (adds permission_specs_by_uuid obj) = add_permission_spec ob m obj
  perform ob m (adds role_specs_by_uuid obj) = add_role_spec ob m obj
  perform ob m (adds permissions_by_uuid obj) = add_permission ob m obj
  perform ob m (adds roles_by_uuid obj) = add_role ob m obj
  perform ob m (adds bindings_by_uuid obj) = add_binding ob m obj
  perform ob m (adds products_by_uuid obj) = add_product ob m obj
  perform ob m (adds filter_rules_by_uuid obj) = add_filter_rule ob m obj
  perform ob m (adds merge_rules_by_uuid obj) = add_merge_rule ob m obj
  perform ob m (adds capabilities_by_uuid obj) = add_capability ob m obj
  perform ob m (adds parameters_by_uuid obj) = add_parameter ob m obj
  perform ob m (adds capacity_resource_types_by_uuid obj) = add_capacity_resource_type ob m obj
  perform ob m (adds capacities_by_uuid obj) = add_capacity ob m obj
  perform ob m (deletes node_types_by_uuid id) = delete_node_type_by_id m id
  perform ob m (deletes nodes_by_uuid id) = delete_node_by_id m id
  perform ob m (deletes contexts_by_uuid id) = delete_context_by_id m id
  perform ob m (deletes context_types_by_uuid id) = delete_context_type_by_id m id
  perform ob m (deletes systems_by_uuid id) = delete_system_by_id m id
  perform ob m (deletes apis_by_uuid id) = delete_api_by_id m id
  perform ob m (deletes components_by_uuid id) = delete_component_by_id m id
  perform ob m (deletes system_instances_by_uuid id) = delete_system_instance_by_id m id
  perform ob m (deletes api_instances_by_uuid id) = delete_api_instance_by_id m id
  perform ob m (deletes component_instances_by_uuid id) = delete_component_instance_by_id m id
  perform ob m (deletes findings_by_uuid id) = delete_finding_by_id ob m id
  perform ob m (deletes finding_types_by_uuid id) = delete_finding_type_by_id m id
  perform ob m (deletes artifacts_by_uuid id) = delete_artifact_by_id m id
  perform ob m (deletes artifact_instances_by_uuid id) = delete_artifact_instance_by_id m id
  perform ob m (deletes org_units_by_uuid id) = delete_org_unit m id
  perform ob m (deletes groups_by_uuid id) = delete_group m id
  perform ob m (deletes identities_by_uuid id) = delete_identity m id
  perform ob m (deletes permission_specs_by_uuid id) = delete_permission_spec m id
  perform ob m (deletes role_specs_by_uuid id) = delete_role_spec m id
  perform ob m (deletes permissions_by_uuid id) = delete_permission m id
  perform ob m (deletes roles_by_uuid id) = delete_role m id
  perform ob m (deletes bindings_by_uuid id) = delete_binding m id
  perform ob m (deletes products_by_uuid id) = delete_product_by_id m id
  perform ob m (deletes filter_rules_by_uuid id) = delete_filter_rule_by_id m id
  perform ob m (deletes merge_rules_by_uuid id) = delete_merge_rule_by_id m id
  perform ob m (deletes capabilities_by_uuid id) = delete_capability_by_id m id
  perform ob m (deletes parameters_by_uuid id) = delete_parameter_by_id m id
  perform ob m (deletes capacity_resource_types_by_uuid id) =
      delete_capacity_resource_type_by_id m id
  perform ob m (deletes capacities_by_uuid id) = delete_capacity_by_id ob m id

  unfoldable pub get_by_id : ModelData O → Store → Uuid → Option O
  get_by_id m node_types_by_uuid id = get_node_type_by_id m id
  get_by_id m nodes_by_uuid id = get_node_by_id m id
  get_by_id m contexts_by_uuid id = get_context_by_id m id
  get_by_id m context_types_by_uuid id = get_context_type_by_id m id
  get_by_id m systems_by_uuid id = get_system_by_id m id
  get_by_id m apis_by_uuid id = get_api_by_id m id
  get_by_id m components_by_uuid id = get_component_by_id m id
  get_by_id m system_instances_by_uuid id = get_system_instance_by_id m id
  get_by_id m api_instances_by_uuid id = get_api_instance_by_id m id
  get_by_id m component_instances_by_uuid id = get_component_instance_by_id m id
  get_by_id m findings_by_uuid id = get_finding_by_id m id
  get_by_id m finding_types_by_uuid id = get_finding_type_by_id m id
  get_by_id m artifacts_by_uuid id = get_artifact_by_id m id
  get_by_id m artifact_instances_by_uuid id = get_artifact_instance_by_id m id
  get_by_id m org_units_by_uuid id = get_org_unit_by_id m id
  get_by_id m groups_by_uuid id = get_group_by_id m id
  get_by_id m identities_by_uuid id = get_identity_by_id m id
  get_by_id m permission_specs_by_uuid id = get_permission_spec_by_id m id
  get_by_id m role_specs_by_uuid id = get_role_spec_by_id m id
  get_by_id m permissions_by_uuid id = get_permission_by_id m id
  get_by_id m roles_by_uuid id = get_role_by_id m id
  get_by_id m bindings_by_uuid id = get_binding_by_id m id
  get_by_id m products_by_uuid id = get_product_by_id m id
  get_by_id m filter_rules_by_uuid id = get_filter_rule_by_id m id
  get_by_id m merge_rules_by_uuid id = get_merge_rule_by_id m id
  get_by_id m capabilities_by_uuid id = get_capability_by_id m id
  get_by_id m parameters_by_uuid id = get_parameter_by_id m id
  get_by_id m capacity_resource_types_by_uuid id = get_capacity_resource_type_by_id m id
  get_by_id m capacities_by_uuid id = get_capacity_by_id m id

  unfoldable pub get_all : ModelData O → Store → List O
  get_all m node_types_by_uuid = get_node_types m
  get_all m nodes_by_uuid = get_nodes m
  get_all m contexts_by_uuid = get_contexts m
  get_all m context_types_by_uuid = get_context_types m
  get_all m systems_by_uuid = get_systems m
  get_all m apis_by_uuid = get_apis m
  get_all m components_by_uuid = get_components m
  get_all m system_instances_by_uuid = get_system_instances m
  get_all m api_instances_by_uuid = get_api_instances m
  get_all m component_instances_by_uuid = get_component_instances m
  get_all m findings_by_uuid = get_findings m
  get_all m finding_types_by_uuid = get_finding_types m
  get_all m artifacts_by_uuid = get_artifacts m
  get_all m artifact_instances_by_uuid = get_artifact_instances m
  get_all m org_units_by_uuid = get_org_units m
  get_all m groups_by_uuid = get_groups m
  get_all m identities_by_uuid = get_identities m
  get_all m permission_specs_by_uuid = get_permission_specs m
  get_all m role_specs_by_uuid = get_role_specs m
  get_all m permissions_by_uuid = get_permissions m
  get_all m roles_by_uuid = get_roles m
  get_all m bindings_by_uuid = get_bindings m
  get_all m products_by_uuid = get_products m
  get_all m filter_rules_by_uuid = get_filter_rules m
  get_all m merge_rules_by_uuid = get_merge_rules m
  get_all m capabilities_by_uuid = get_capabilities m
  get_all m parameters_by_uuid = get_parameters m
  get_all m capacity_resource_types_by_uuid = get_capacity_resource_types m
  get_all m capacities_by_uuid = get_capacities m

  unfoldable pub perform_all : Objects O → ModelData O → List (Call O) → ModelData O
  perform_all ob m [] = m
  perform_all ob m (c ∷ cs) = perform_all ob (after m (perform ob m c)) cs
