-- ===== src/Ingress/PrimaryId.antt =====
-- pkg/ingress/csv.go: the field of a kind that is its identifier.
use modelsrv.Prelude.{String, Option, none, some}
use modelsrv.Event.Kind
use modelsrv.Event.Kind.{ResourceType}

-- `primaryIDField`; two kinds have none.
unfoldable pub primary_id_field : ResourceType → Option String
primary_id_field Kind.unknown_resource_type = none
primary_id_field Kind.annotations_resource = none
primary_id_field Kind.node_resource = some "nodeId"
primary_id_field Kind.node_type_resource = some "nodeTypeId"
primary_id_field Kind.context_resource = some "contextId"
primary_id_field Kind.context_type_resource = some "contextTypeId"
primary_id_field Kind.system_resource = some "systemId"
primary_id_field Kind.system_instance_resource = some "instanceId"
primary_id_field Kind.api_resource = some "apiId"
primary_id_field Kind.api_instance_resource = some "instanceId"
primary_id_field Kind.component_resource = some "componentId"
primary_id_field Kind.component_instance_resource = some "instanceId"
primary_id_field Kind.org_unit_resource = some "orgUnitId"
primary_id_field Kind.group_resource = some "groupId"
primary_id_field Kind.identity_resource = some "identityId"
primary_id_field Kind.permission_spec_resource = some "permissionSpecId"
primary_id_field Kind.role_spec_resource = some "roleSpecId"
primary_id_field Kind.permission_resource = some "permissionId"
primary_id_field Kind.role_resource = some "roleId"
primary_id_field Kind.binding_resource = some "bindingId"
primary_id_field Kind.product_resource = some "productId"
primary_id_field Kind.finding_resource = some "findingId"
primary_id_field Kind.finding_type_resource = some "findingTypeId"
primary_id_field Kind.artifact_resource = some "artifactId"
primary_id_field Kind.artifact_instance_resource = some "artifactInstanceId"
primary_id_field Kind.filter_rule_resource = some "ruleId"
primary_id_field Kind.merge_rule_resource = some "ruleId"
primary_id_field Kind.capability_resource = some "capabilityId"
primary_id_field Kind.parameter_resource = some "parameterId"
primary_id_field Kind.capacity_resource_type_resource = some "capacityResourceTypeId"
primary_id_field Kind.capacity_resource = some "capacityId"
