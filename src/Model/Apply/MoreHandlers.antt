-- ===== src/Model/Apply/MoreHandlers.antt =====
-- pkg/model/handlers_*_gen.go: the handlers for the kinds of the catalog, of findings and of capacities.
use modelsrv.Model.Stores.{
  findings_by_uuid, finding_types_by_uuid, artifacts_by_uuid, artifact_instances_by_uuid,
  products_by_uuid, filter_rules_by_uuid, merge_rules_by_uuid, capabilities_by_uuid,
  parameters_by_uuid, capacity_resource_types_by_uuid, capacities_by_uuid,
}
use modelsrv.Model.State.{Objects}
use modelsrv.Model.Apply.Handler.{ResourceHandler, handler}
use modelsrv.Model.Catalog.{
  add_finding_type, delete_finding_type_by_id, get_finding_type_by_id, add_artifact,
  delete_artifact_by_id, get_artifact_by_id, add_artifact_instance, delete_artifact_instance_by_id,
  get_artifact_instance_by_id, add_product, delete_product_by_id, get_product_by_id,
  add_filter_rule, delete_filter_rule_by_id, get_filter_rule_by_id, add_merge_rule,
  delete_merge_rule_by_id, get_merge_rule_by_id, add_capability, delete_capability_by_id,
  get_capability_by_id, add_parameter, delete_parameter_by_id, get_parameter_by_id,
  add_capacity_resource_type, delete_capacity_resource_type_by_id, get_capacity_resource_type_by_id,
  get_finding_by_id, get_capacity_by_id,
}
use modelsrv.Model.Findings.{add_finding, delete_finding_by_id}
use modelsrv.Model.Capacities.{add_capacity, delete_capacity_by_id}

module _ {O : Type 0} (ob : Objects O) where
  unfoldable pub finding_handler : ResourceHandler O
  finding_handler =
      handler ob findings_by_uuid (add_finding ob) (delete_finding_by_id ob) get_finding_by_id

  unfoldable pub finding_type_handler : ResourceHandler O
  finding_type_handler =
      handler ob finding_types_by_uuid (add_finding_type ob) delete_finding_type_by_id
        get_finding_type_by_id

  unfoldable pub artifact_handler : ResourceHandler O
  artifact_handler =
      handler ob artifacts_by_uuid (add_artifact ob) delete_artifact_by_id get_artifact_by_id

  unfoldable pub artifact_instance_handler : ResourceHandler O
  artifact_instance_handler =
      handler ob artifact_instances_by_uuid (add_artifact_instance ob)
        delete_artifact_instance_by_id get_artifact_instance_by_id

  unfoldable pub product_handler : ResourceHandler O
  product_handler =
      handler ob products_by_uuid (add_product ob) delete_product_by_id get_product_by_id

  unfoldable pub filter_rule_handler : ResourceHandler O
  filter_rule_handler =
      handler ob filter_rules_by_uuid (add_filter_rule ob) delete_filter_rule_by_id
        get_filter_rule_by_id

  unfoldable pub merge_rule_handler : ResourceHandler O
  merge_rule_handler =
      handler ob merge_rules_by_uuid (add_merge_rule ob) delete_merge_rule_by_id
        get_merge_rule_by_id

  unfoldable pub capability_handler : ResourceHandler O
  capability_handler =
      handler ob capabilities_by_uuid (add_capability ob) delete_capability_by_id
        get_capability_by_id

  unfoldable pub parameter_handler : ResourceHandler O
  parameter_handler =
      handler ob parameters_by_uuid (add_parameter ob) delete_parameter_by_id get_parameter_by_id

  unfoldable pub capacity_resource_type_handler : ResourceHandler O
  capacity_resource_type_handler =
      handler ob capacity_resource_types_by_uuid (add_capacity_resource_type ob)
        delete_capacity_resource_type_by_id get_capacity_resource_type_by_id

  unfoldable pub capacity_handler : ResourceHandler O
  capacity_handler =
      handler ob capacities_by_uuid (add_capacity ob) (delete_capacity_by_id ob) get_capacity_by_id
