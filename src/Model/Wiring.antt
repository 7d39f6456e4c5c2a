-- ===== src/Model/Wiring.antt =====
-- pkg/model/structure.go: every method works on the map of its own kind and sends events of that kind.
use modelsrv.Prelude.{◌≡◌, refl, ◌≢◌, nat_eq}
use modelsrv.Prelude.Dict.{lookup}
use modelsrv.Event.{Uuid}
use modelsrv.Model.Stores.{Store, kind_of, node_types_by_uuid, findings_by_uuid, capacities_by_uuid}
use modelsrv.Model.State.{
  ModelData, Objects, not_found, values, add_event_enabled, delete_event_enabled, get_event_enabled,
  get_all_event_enabled,
}
use modelsrv.Model.Landscape.{
  add_node, delete_node_by_id, get_node_by_id, get_nodes, add_node_type, delete_node_type_by_id,
  get_node_type_by_id, get_node_types, add_context, delete_context_by_id, get_context_by_id,
  get_contexts, add_context_type, delete_context_type_by_id, get_context_type_by_id,
  get_context_types, add_system, delete_system_by_id, get_systems, get_system_by_id,
  add_system_instance, delete_system_instance_by_id, get_system_instance_by_id,
  get_system_instances, add_api, delete_api_by_id, get_api_by_id, get_apis, add_api_instance,
  delete_api_instance_by_id, get_api_instance_by_id, get_api_instances, add_component,
  delete_component_by_id, get_component_by_id, get_components, add_component_instance,
  delete_component_instance_by_id, get_component_instance_by_id, get_component_instances,
}
use modelsrv.Model.Access.{
  add_org_unit, delete_org_unit, get_org_unit_by_id, get_org_units, add_group, delete_group,
  get_group_by_id, get_groups, add_identity, delete_identity, get_identities, get_identity_by_id,
  add_permission_spec, delete_permission_spec, get_permission_specs, get_permission_spec_by_id,
  add_role_spec, delete_role_spec, get_role_specs, get_role_spec_by_id, add_permission,
  delete_permission, get_permissions, get_permission_by_id, add_role, delete_role, get_roles,
  get_role_by_id, add_binding, delete_binding, get_bindings, get_binding_by_id,
}
use modelsrv.Model.Catalog.{
  add_finding_type, delete_finding_type_by_id, get_finding_type_by_id, get_finding_types,
  add_artifact, delete_artifact_by_id, get_artifacts, get_artifact_by_id, add_artifact_instance,
  delete_artifact_instance_by_id, get_artifact_instances, get_artifact_instance_by_id, add_product,
  delete_product_by_id, get_product_by_id, get_products, add_filter_rule, delete_filter_rule_by_id,
  get_filter_rule_by_id, get_filter_rules, add_merge_rule, delete_merge_rule_by_id,
  get_merge_rule_by_id, get_merge_rules, add_capability, delete_capability_by_id,
  get_capability_by_id, get_capabilities, add_parameter, delete_parameter_by_id,
  get_parameter_by_id, get_parameters, add_capacity_resource_type,
  delete_capacity_resource_type_by_id, get_capacity_resource_type_by_id,
  get_capacity_resource_types, get_findings, get_finding_by_id, get_capacity_by_id, get_capacities,
}
use modelsrv.Model.Calls.{adds, deletes, perform, get_by_id, get_all}

module _ {O : Type 0} where
  -- For every kind but findings and capacities, the Add method stores in the map of that kind and
  -- sends an event of that kind.
  pub perform-adds :
      (ob : Objects O) (m : ModelData O) (s : Store) (obj : O)
      → s ≢ findings_by_uuid
      → s ≢ capacities_by_uuid
      → perform ob m (adds s obj) ≡ add_event_enabled ob m obj s (kind_of s)
  unfolding perform kind_of add_context add_context_type add_node add_node_type add_system add_api
      add_api_instance add_component add_component_instance add_system_instance add_finding_type
      add_artifact add_artifact_instance add_group add_identity add_org_unit add_permission_spec
      add_role_spec add_permission add_role add_binding add_product add_filter_rule add_merge_rule
      add_capability add_parameter add_capacity_resource_type
  perform-adds ob m findings_by_uuid obj f c = absurd (f refl)
  perform-adds ob m capacities_by_uuid obj f c = absurd (c refl)
  perform-adds ob m _ obj f c = refl

  -- For every kind but findings and capacities, the Delete method deletes from the map of that
  -- kind and sends an event of that kind, and its error for a missing resource is that of the
  -- kind.
  pub perform-deletes :
      (ob : Objects O) (m : ModelData O) (s : Store) (id : Uuid)
      → s ≢ findings_by_uuid
      → s ≢ capacities_by_uuid
      → perform ob m (deletes s id) ≡ delete_event_enabled m id s (kind_of s) (not_found s)
  unfolding perform kind_of delete_context_by_id delete_context_type_by_id delete_node_by_id
      delete_node_type_by_id delete_system_by_id delete_api_by_id delete_api_instance_by_id
      delete_component_by_id delete_component_instance_by_id delete_system_instance_by_id
      delete_finding_type_by_id delete_artifact_by_id delete_artifact_instance_by_id delete_group
      delete_identity delete_org_unit delete_permission_spec delete_role_spec delete_permission
      delete_role delete_binding delete_product_by_id delete_filter_rule_by_id
      delete_merge_rule_by_id delete_capability_by_id delete_parameter_by_id
      delete_capacity_resource_type_by_id
  perform-deletes ob m findings_by_uuid id f c = absurd (f refl)
  perform-deletes ob m capacities_by_uuid id f c = absurd (c refl)
  perform-deletes ob m _ id f c = refl

  -- Every getter, findings and capacities included, reads the map of its kind.
  pub get_by_id_lem :
      (m : ModelData O) (s : Store) (id : Uuid) → get_by_id m s id ≡ lookup id (m.stores s)
  unfolding get_by_id get_event_enabled get_context_by_id get_context_type_by_id get_node_by_id
      get_node_type_by_id get_system_by_id get_api_by_id get_api_instance_by_id get_component_by_id
      get_component_instance_by_id get_system_instance_by_id get_finding_by_id
      get_finding_type_by_id get_artifact_by_id get_artifact_instance_by_id get_group_by_id
      get_identity_by_id get_org_unit_by_id get_permission_spec_by_id get_role_spec_by_id
      get_permission_by_id get_role_by_id get_binding_by_id get_product_by_id get_filter_rule_by_id
      get_merge_rule_by_id get_capability_by_id get_parameter_by_id get_capacity_by_id
      get_capacity_resource_type_by_id
  get_by_id_lem m node_types_by_uuid id = refl
  get_by_id_lem m _ id = refl

  -- So does every list.
  pub get_all_lem : (m : ModelData O) (s : Store) → get_all m s ≡ values (m.stores s)
  unfolding get_all get_all_event_enabled get_contexts get_context_types get_nodes get_node_types
      get_systems get_apis get_api_instances get_components get_component_instances
      get_system_instances get_findings get_finding_types get_artifacts get_artifact_instances
      get_groups get_identities get_org_units get_permission_specs get_role_specs get_permissions
      get_roles get_bindings get_products get_filter_rules get_merge_rules get_capabilities
      get_parameters get_capacities get_capacity_resource_types
  get_all_lem m node_types_by_uuid = refl
  get_all_lem m _ = refl
