-- ===== src/Model/Stores.antt =====
-- pkg/model/structure.go: the maps of `modelData`, by the names of their fields, and the kind of
-- resource that each one holds.
use modelsrv.Prelude.{
  ◌≡◌, refl, ap, sym, ◌∙◌, ◌↔◌, Bool, true, false, Option, none, some, Comparable, ◌==◌, ◌≢◌, arith,
}
use modelsrv.Event.Kind.{
  ResourceType, resource_type_beq, resource_type_beq_iff, resource_type_eq, unknown_resource_type,
  annotations_resource, node_type_resource, node_resource, context_resource, context_type_resource,
  system_resource, api_resource, component_resource, system_instance_resource,
  api_instance_resource, component_instance_resource, finding_resource, finding_type_resource,
  artifact_resource, artifact_instance_resource, org_unit_resource, group_resource,
  identity_resource, permission_spec_resource, role_spec_resource, permission_resource,
  role_resource, binding_resource, product_resource, filter_rule_resource, merge_rule_resource,
  capability_resource, parameter_resource, capacity_resource_type_resource, capacity_resource,
}

pub data Store : Type 0 where
  node_types_by_uuid nodes_by_uuid contexts_by_uuid : Store
  context_types_by_uuid systems_by_uuid apis_by_uuid : Store
  components_by_uuid system_instances_by_uuid api_instances_by_uuid : Store
  component_instances_by_uuid findings_by_uuid finding_types_by_uuid : Store
  artifacts_by_uuid artifact_instances_by_uuid org_units_by_uuid : Store
  groups_by_uuid identities_by_uuid permission_specs_by_uuid : Store
  role_specs_by_uuid permissions_by_uuid roles_by_uuid : Store
  bindings_by_uuid products_by_uuid filter_rules_by_uuid : Store
  merge_rules_by_uuid capabilities_by_uuid parameters_by_uuid : Store
  capacity_resource_types_by_uuid capacities_by_uuid : Store

-- The kind of the resources in a map.
unfoldable pub kind_of : Store → ResourceType
kind_of node_types_by_uuid = node_type_resource
kind_of nodes_by_uuid = node_resource
kind_of contexts_by_uuid = context_resource
kind_of context_types_by_uuid = context_type_resource
kind_of systems_by_uuid = system_resource
kind_of apis_by_uuid = api_resource
kind_of components_by_uuid = component_resource
kind_of system_instances_by_uuid = system_instance_resource
kind_of api_instances_by_uuid = api_instance_resource
kind_of component_instances_by_uuid = component_instance_resource
kind_of findings_by_uuid = finding_resource
kind_of finding_types_by_uuid = finding_type_resource
kind_of artifacts_by_uuid = artifact_resource
kind_of artifact_instances_by_uuid = artifact_instance_resource
kind_of org_units_by_uuid = org_unit_resource
kind_of groups_by_uuid = group_resource
kind_of identities_by_uuid = identity_resource
kind_of permission_specs_by_uuid = permission_spec_resource
kind_of role_specs_by_uuid = role_spec_resource
kind_of permissions_by_uuid = permission_resource
kind_of roles_by_uuid = role_resource
kind_of bindings_by_uuid = binding_resource
kind_of products_by_uuid = product_resource
kind_of filter_rules_by_uuid = filter_rule_resource
kind_of merge_rules_by_uuid = merge_rule_resource
kind_of capabilities_by_uuid = capability_resource
kind_of parameters_by_uuid = parameter_resource
kind_of capacity_resource_types_by_uuid = capacity_resource_type_resource
kind_of capacities_by_uuid = capacity_resource

-- The map of the kind; two kinds have none.
unfoldable pub store_of : ResourceType → Option Store
store_of unknown_resource_type = none
store_of annotations_resource = none
store_of node_type_resource = some node_types_by_uuid
store_of node_resource = some nodes_by_uuid
store_of context_resource = some contexts_by_uuid
store_of context_type_resource = some context_types_by_uuid
store_of system_resource = some systems_by_uuid
store_of api_resource = some apis_by_uuid
store_of component_resource = some components_by_uuid
store_of system_instance_resource = some system_instances_by_uuid
store_of api_instance_resource = some api_instances_by_uuid
store_of component_instance_resource = some component_instances_by_uuid
store_of finding_resource = some findings_by_uuid
store_of finding_type_resource = some finding_types_by_uuid
store_of artifact_resource = some artifacts_by_uuid
store_of artifact_instance_resource = some artifact_instances_by_uuid
store_of org_unit_resource = some org_units_by_uuid
store_of group_resource = some groups_by_uuid
store_of identity_resource = some identities_by_uuid
store_of permission_spec_resource = some permission_specs_by_uuid
store_of role_spec_resource = some role_specs_by_uuid
store_of permission_resource = some permissions_by_uuid
store_of role_resource = some roles_by_uuid
store_of binding_resource = some bindings_by_uuid
store_of product_resource = some products_by_uuid
store_of filter_rule_resource = some filter_rules_by_uuid
store_of merge_rule_resource = some merge_rules_by_uuid
store_of capability_resource = some capabilities_by_uuid
store_of parameter_resource = some parameters_by_uuid
store_of capacity_resource_type_resource = some capacity_resource_types_by_uuid
store_of capacity_resource = some capacities_by_uuid

pub store_of-findings :
    (rt : ResourceType) → store_of rt ≡ some findings_by_uuid → rt ≡ finding_resource
unfolding store_of
store_of-findings finding_resource e = refl
store_of-findings _ e = absurd cc

abbrev kind_or : Option Store → ResourceType
kind_or none = unknown_resource_type
kind_or (some s) = kind_of s

-- The map of a kind holds the resources of that kind.
pub kind_of-store_of : (rt : ResourceType) (s : Store) → store_of rt ≡ some s → kind_of s ≡ rt
unfolding kind_of store_of
kind_of-store_of annotations_resource s e = absurd cc
kind_of-store_of unknown_resource_type s e = absurd cc
kind_of-store_of _ s e = ap kind_or (sym e)

store_of-kind_of : (s : Store) → store_of (kind_of s) ≡ some s
unfolding kind_of store_of
store_of-kind_of node_types_by_uuid = refl
store_of-kind_of _ = refl

-- No two maps hold the same kind.
pub kind_of-injective : (s t : Store) → kind_of s ≡ kind_of t → s ≡ t
kind_of-injective s t e =
    let p : some s ≡ some t = sym (store_of-kind_of s) ∙ (ap store_of e ∙ store_of-kind_of t) in cc

unfoldable pub store_beq : Store → Store → Bool
store_beq s t = resource_type_beq (kind_of s) (kind_of t)

pub store_beq_iff : (s t : Store) → (store_beq s t ≡ true) ↔ (s ≡ t)
unfolding store_beq
store_beq_iff s t = (
  λ h. kind_of-injective s t ((resource_type_beq_iff (kind_of s) (kind_of t)).0 h),
  λ e. (resource_type_beq_iff (kind_of s) (kind_of t)).1 (ap kind_of e),
)

instance abbrev pub store_eq : Comparable Store
store_eq = record { equals = store_beq; equals_iff = store_beq_iff }

pub not_equal : {s t : Store} → (s == t) ≡ false → s ≢ t
not_equal {s} {t} e p = ground (arith, e, store_eq.equals_iff s t, p)
