-- ===== src/Model/Catalog.antt =====
-- pkg/model/structure.go and structure_capacity.go: the methods for the finding types,
-- artifacts, products, rules, capabilities, parameters and capacity resource types, and the
-- getters of findings and capacities. Where the source writes a generic helper's body out
-- again, the method calls the helper here.
use modelsrv.Prelude.{Option, List}
use modelsrv.Event.{Uuid}
use modelsrv.Event.Kind.{
  finding_type_resource, artifact_resource, artifact_instance_resource, product_resource,
  filter_rule_resource, merge_rule_resource, capability_resource, parameter_resource,
  capacity_resource_type_resource,
}
use modelsrv.Model.Stores.{
  finding_types_by_uuid, artifacts_by_uuid, artifact_instances_by_uuid, products_by_uuid,
  filter_rules_by_uuid, merge_rules_by_uuid, capabilities_by_uuid, parameters_by_uuid,
  capacity_resource_types_by_uuid, findings_by_uuid, capacities_by_uuid,
}
use modelsrv.Model.State.{
  ModelData, Objects, Result, not_found, add_event_enabled, delete_event_enabled, get_event_enabled,
  get_all_event_enabled,
}

module _ {O : Type 0} where
  -- `AddFindingType`
  unfoldable pub add_finding_type : Objects O → ModelData O → O → Result (ModelData O)
  add_finding_type ob m obj = add_event_enabled ob m obj finding_types_by_uuid finding_type_resource

  -- `DeleteFindingTypeById`
  unfoldable pub delete_finding_type_by_id : ModelData O → Uuid → Result (ModelData O)
  delete_finding_type_by_id m id =
      delete_event_enabled m id finding_types_by_uuid finding_type_resource
        (not_found finding_types_by_uuid)

  -- `GetFindingTypeById`
  unfoldable pub get_finding_type_by_id : ModelData O → Uuid → Option O
  get_finding_type_by_id m id = get_event_enabled m id finding_types_by_uuid

  -- `GetFindingTypes`
  unfoldable pub get_finding_types : ModelData O → List O
  get_finding_types m = get_all_event_enabled m finding_types_by_uuid

  -- `AddArtifact`
  unfoldable pub add_artifact : Objects O → ModelData O → O → Result (ModelData O)
  add_artifact ob m obj = add_event_enabled ob m obj artifacts_by_uuid artifact_resource

  -- `DeleteArtifactById`
  unfoldable pub delete_artifact_by_id : ModelData O → Uuid → Result (ModelData O)
  delete_artifact_by_id m id =
      delete_event_enabled m id artifacts_by_uuid artifact_resource (not_found artifacts_by_uuid)

  -- `GetArtifacts`
  unfoldable pub get_artifacts : ModelData O → List O
  get_artifacts m = get_all_event_enabled m artifacts_by_uuid

  -- `GetArtifactById`
  unfoldable pub get_artifact_by_id : ModelData O → Uuid → Option O
  get_artifact_by_id m id = get_event_enabled m id artifacts_by_uuid

  -- `AddArtifactInstance`
  unfoldable pub add_artifact_instance : Objects O → ModelData O → O → Result (ModelData O)
  add_artifact_instance ob m obj =
      add_event_enabled ob m obj artifact_instances_by_uuid artifact_instance_resource

  -- `DeleteArtifactInstanceById`
  unfoldable pub delete_artifact_instance_by_id : ModelData O → Uuid → Result (ModelData O)
  delete_artifact_instance_by_id m id =
      delete_event_enabled m id artifact_instances_by_uuid artifact_instance_resource
        (not_found artifact_instances_by_uuid)

  -- `GetArtifactInstances`
  unfoldable pub get_artifact_instances : ModelData O → List O
  get_artifact_instances m = get_all_event_enabled m artifact_instances_by_uuid

  -- `GetArtifactInstanceById`
  unfoldable pub get_artifact_instance_by_id : ModelData O → Uuid → Option O
  get_artifact_instance_by_id m id = get_event_enabled m id artifact_instances_by_uuid

  -- `AddProduct`
  unfoldable pub add_product : Objects O → ModelData O → O → Result (ModelData O)
  add_product ob m obj = add_event_enabled ob m obj products_by_uuid product_resource

  -- `DeleteProductById`
  unfoldable pub delete_product_by_id : ModelData O → Uuid → Result (ModelData O)
  delete_product_by_id m id =
      delete_event_enabled m id products_by_uuid product_resource (not_found products_by_uuid)

  -- `GetProductById`
  unfoldable pub get_product_by_id : ModelData O → Uuid → Option O
  get_product_by_id m id = get_event_enabled m id products_by_uuid

  -- `GetProducts`
  unfoldable pub get_products : ModelData O → List O
  get_products m = get_all_event_enabled m products_by_uuid

  -- `AddFilterRule`
  unfoldable pub add_filter_rule : Objects O → ModelData O → O → Result (ModelData O)
  add_filter_rule ob m obj = add_event_enabled ob m obj filter_rules_by_uuid filter_rule_resource

  -- `DeleteFilterRuleById`
  unfoldable pub delete_filter_rule_by_id : ModelData O → Uuid → Result (ModelData O)
  delete_filter_rule_by_id m id =
      delete_event_enabled m id filter_rules_by_uuid filter_rule_resource
        (not_found filter_rules_by_uuid)

  -- `GetFilterRuleById`
  unfoldable pub get_filter_rule_by_id : ModelData O → Uuid → Option O
  get_filter_rule_by_id m id = get_event_enabled m id filter_rules_by_uuid

  -- `GetFilterRules`
  unfoldable pub get_filter_rules : ModelData O → List O
  get_filter_rules m = get_all_event_enabled m filter_rules_by_uuid

  -- `AddMergeRule`
  unfoldable pub add_merge_rule : Objects O → ModelData O → O → Result (ModelData O)
  add_merge_rule ob m obj = add_event_enabled ob m obj merge_rules_by_uuid merge_rule_resource

  -- `DeleteMergeRuleById`
  unfoldable pub delete_merge_rule_by_id : ModelData O → Uuid → Result (ModelData O)
  delete_merge_rule_by_id m id =
      delete_event_enabled m id merge_rules_by_uuid merge_rule_resource
        (not_found merge_rules_by_uuid)

  -- `GetMergeRuleById`
  unfoldable pub get_merge_rule_by_id : ModelData O → Uuid → Option O
  get_merge_rule_by_id m id = get_event_enabled m id merge_rules_by_uuid

  -- `GetMergeRules`
  unfoldable pub get_merge_rules : ModelData O → List O
  get_merge_rules m = get_all_event_enabled m merge_rules_by_uuid

  -- `AddCapability`
  unfoldable pub add_capability : Objects O → ModelData O → O → Result (ModelData O)
  add_capability ob m obj = add_event_enabled ob m obj capabilities_by_uuid capability_resource

  -- `DeleteCapabilityById`
  unfoldable pub delete_capability_by_id : ModelData O → Uuid → Result (ModelData O)
  delete_capability_by_id m id =
      delete_event_enabled m id capabilities_by_uuid capability_resource
        (not_found capabilities_by_uuid)

  -- `GetCapabilityById`
  unfoldable pub get_capability_by_id : ModelData O → Uuid → Option O
  get_capability_by_id m id = get_event_enabled m id capabilities_by_uuid

  -- `GetCapabilities`
  unfoldable pub get_capabilities : ModelData O → List O
  get_capabilities m = get_all_event_enabled m capabilities_by_uuid

  -- `AddParameter`
  unfoldable pub add_parameter : Objects O → ModelData O → O → Result (ModelData O)
  add_parameter ob m obj = add_event_enabled ob m obj parameters_by_uuid parameter_resource

  -- `DeleteParameterById`
  unfoldable pub delete_parameter_by_id : ModelData O → Uuid → Result (ModelData O)
  delete_parameter_by_id m id =
      delete_event_enabled m id parameters_by_uuid parameter_resource (not_found parameters_by_uuid)

  -- `GetParameterById`
  unfoldable pub get_parameter_by_id : ModelData O → Uuid → Option O
  get_parameter_by_id m id = get_event_enabled m id parameters_by_uuid

  -- `GetParameters`
  unfoldable pub get_parameters : ModelData O → List O
  get_parameters m = get_all_event_enabled m parameters_by_uuid

  -- `AddCapacityResourceType`
  unfoldable pub add_capacity_resource_type : Objects O → ModelData O → O → Result (ModelData O)
  add_capacity_resource_type ob m obj =
      add_event_enabled ob m obj capacity_resource_types_by_uuid capacity_resource_type_resource

  -- `DeleteCapacityResourceTypeById`
  unfoldable pub delete_capacity_resource_type_by_id : ModelData O → Uuid → Result (ModelData O)
  delete_capacity_resource_type_by_id m id =
      delete_event_enabled m id capacity_resource_types_by_uuid capacity_resource_type_resource
        (not_found capacity_resource_types_by_uuid)

  -- `GetCapacityResourceTypeById`
  unfoldable pub get_capacity_resource_type_by_id : ModelData O → Uuid → Option O
  get_capacity_resource_type_by_id m id = get_event_enabled m id capacity_resource_types_by_uuid

  -- `GetCapacityResourceTypes`
  unfoldable pub get_capacity_resource_types : ModelData O → List O
  get_capacity_resource_types m = get_all_event_enabled m capacity_resource_types_by_uuid

  -- `GetFindings`
  unfoldable pub get_findings : ModelData O → List O
  get_findings m = get_all_event_enabled m findings_by_uuid

  -- `GetFindingById`
  unfoldable pub get_finding_by_id : ModelData O → Uuid → Option O
  get_finding_by_id m id = get_event_enabled m id findings_by_uuid

  -- `GetCapacityById`
  unfoldable pub get_capacity_by_id : ModelData O → Uuid → Option O
  get_capacity_by_id m id = get_event_enabled m id capacities_by_uuid

  -- `GetCapacities`
  unfoldable pub get_capacities : ModelData O → List O
  get_capacities m = get_all_event_enabled m capacities_by_uuid
