-- ===== src/Event/Wire.antt =====
-- pkg/events/events.go: the names of kinds and operations, and the parsers of those names. Go ranges
-- over a map in no fixed order; `parse_wire_kind-wire_kind` and `parse_resource_type-string` show
-- that no two kinds share a name, so that the order does not matter.
use modelsrv.Prelude.{
  ℕ, String, ◌≡◌, ◌↔◌, true, arith, ◌||◌, Option, none, some, [], ◌∷◌, Comparable, nat_beq,
  string_eq, ◌==◌, if◌then◌else◌,
}
use modelsrv.Prelude.Dict.{Dict, lookup}
use modelsrv.Event.Kind.{
  unknown_resource_type, node_resource, node_type_resource, context_resource, context_type_resource,
  system_resource, system_instance_resource, api_resource, api_instance_resource,
  component_resource, component_instance_resource, org_unit_resource, group_resource,
  identity_resource, permission_spec_resource, role_spec_resource, permission_resource,
  role_resource, binding_resource, product_resource, finding_resource, finding_type_resource,
  artifact_resource, artifact_instance_resource, filter_rule_resource, merge_rule_resource,
  capability_resource, parameter_resource, capacity_resource_type_resource, capacity_resource,
  annotations_resource, ResourceType, resource_type_eq,
}

abbrev pub resource_type_values : Dict ResourceType String
resource_type_values =
    (unknown_resource_type, "UnknownResourceType")
    ∷ (node_resource, "Node")
    ∷ (node_type_resource, "NodeType")
    ∷ (context_resource, "Context")
    ∷ (context_type_resource, "ContextType")
    ∷ (system_resource, "System")
    ∷ (system_instance_resource, "SystemInstance")
    ∷ (api_resource, "API")
    ∷ (api_instance_resource, "APIInstance")
    ∷ (component_resource, "Component")
    ∷ (component_instance_resource, "ComponentInstance")
    ∷ (org_unit_resource, "OrgUnit")
    ∷ (group_resource, "Group")
    ∷ (identity_resource, "Identity")
    ∷ (permission_spec_resource, "PermissionSpec")
    ∷ (role_spec_resource, "RoleSpec")
    ∷ (permission_resource, "Permission")
    ∷ (role_resource, "Role")
    ∷ (binding_resource, "Binding")
    ∷ (product_resource, "Product")
    ∷ (finding_resource, "Finding")
    ∷ (finding_type_resource, "FindingType")
    ∷ (artifact_resource, "Artifact")
    ∷ (artifact_instance_resource, "ArtifactInstance")
    ∷ (filter_rule_resource, "FilterRule")
    ∷ (merge_rule_resource, "MergeRule")
    ∷ (capability_resource, "Capability")
    ∷ (parameter_resource, "Parameter")
    ∷ (capacity_resource_type_resource, "CapacityResourceType")
    ∷ (capacity_resource, "Capacity")
    ∷ (annotations_resource, "Annotations")
    ∷ []

-- A map's value, or the default where there is no entry.
abbrev pub value_or {ℓ} : {A : Type ℓ} → Option A → A → A
value_or (some v) d = v
value_or none d = d

-- `ParseResourceType`
find_name : String → Dict ResourceType String → ResourceType
find_name s [] = unknown_resource_type
find_name s ((t, name) ∷ rest) = if name == s then t else find_name s rest

unfoldable pub parse_resource_type : String → ResourceType
unfolding find_name
parse_resource_type s = find_name s resource_type_values

-- `ResourceType.String`
unfoldable pub resource_type_string : ResourceType → String
unfolding lookup
resource_type_string t = value_or (lookup t resource_type_values) "UnknownResourceType"

-- `ResourceType.WireKind`
unfoldable pub wire_kind : ResourceType → String
unfolding resource_type_string
wire_kind t = if t == api_instance_resource then "ApiInstance" else resource_type_string t

-- `ParseWireKind`
find_kind : String → Dict ResourceType String → ResourceType
unfolding wire_kind
find_kind s [] = unknown_resource_type
find_kind s ((t, name) ∷ rest) =
    let later = find_kind s rest in
    if t == unknown_resource_type || t == annotations_resource
    then later
    else if s == name || s == wire_kind t
    then t
    else later

unfoldable pub parse_wire_kind : String → ResourceType
unfolding find_kind
parse_wire_kind s = find_kind s resource_type_values

pub data Operation : Type 0 where
  unknown_operation create_operation update_operation delete_operation : Operation

-- The Go value, `iota`.
abbrev pub operation_code : Operation → ℕ
operation_code unknown_operation = 0
operation_code create_operation = 1
operation_code update_operation = 2
operation_code delete_operation = 3

pub operation_code_iff :
    (a b : Operation) → (nat_beq (operation_code a) (operation_code b) ≡ true) ↔ (a ≡ b)
operation_code_iff a b = ground arith

instance abbrev pub operation_eq : Comparable Operation
operation_eq = record {
  equals = λ a b. nat_beq (operation_code a) (operation_code b);
  equals_iff = operation_code_iff;
}

abbrev pub operation_values : Dict Operation String
operation_values =
    (unknown_operation, "UnknownOperation")
    ∷ (create_operation, "CreateOperation")
    ∷ (update_operation, "UpdateOperation")
    ∷ (delete_operation, "DeleteOperation")
    ∷ []

-- `Operation.String`
unfoldable pub operation_string : Operation → String
unfolding lookup
operation_string op = value_or (lookup op operation_values) "UnknownOperation"

-- `ParseOperation`
find_operation : String → Dict Operation String → Operation
find_operation s [] = unknown_operation
find_operation s ((op, name) ∷ rest) = if name == s then op else find_operation s rest

unfoldable pub parse_operation : String → Operation
unfolding find_operation
parse_operation s = find_operation s operation_values

-- `Operation.WireOperation`
unfoldable pub wire_operation : Operation → String
wire_operation create_operation = "Create"
wire_operation update_operation = "Update"
wire_operation delete_operation = "Delete"
wire_operation unknown_operation = "Unknown"

-- `ParseWireOperation`
unfoldable pub parse_wire_operation : String → Operation
parse_wire_operation s =
    if s == "Create"
    then create_operation
    else if s == "Update"
    then update_operation
    else if s == "Delete"
    then delete_operation
    else unknown_operation
