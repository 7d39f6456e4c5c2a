-- ===== src/Event/Tests.antt =====
-- Names of kinds and operations that are read back.
use modelsrv.Prelude.{◌≡◌, ◌==◌, if◌then◌else◌}
use modelsrv.Event.Kind.{
  resource_type_eq, api_instance_resource, annotations_resource, unknown_resource_type,
}
use modelsrv.Event.Wire.{parse_resource_type, resource_type_string, parse_wire_kind, wire_kind}
use modelsrv.Event.RoundTrip.{parse_resource_type-string, parse_wire_kind-wire_kind}

parse_resource_type-string_example :
    parse_resource_type (resource_type_string api_instance_resource) ≡ api_instance_resource
parse_resource_type-string_example = parse_resource_type-string api_instance_resource

parse_wire_kind-wire_kind_example : parse_wire_kind (wire_kind annotations_resource) ≡ (
    if annotations_resource == annotations_resource
    then unknown_resource_type
    else annotations_resource)
parse_wire_kind-wire_kind_example = parse_wire_kind-wire_kind annotations_resource
