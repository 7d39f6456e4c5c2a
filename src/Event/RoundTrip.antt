-- ===== src/Event/RoundTrip.antt =====
-- The names of kinds and operations are read back as what they name.
use modelsrv.Prelude.{String, ◌≡◌, refl, sym, ap, ◌∙◌, ◌==◌, string_eq, if◌then◌else◌}
use modelsrv.Event.Kind.{
  ResourceType, unknown_resource_type, annotations_resource, api_instance_resource, code,
  resource_type_beq, resource_type_eq,
}
use modelsrv.Event.Wire.{
  Operation, unknown_operation, parse_resource_type, resource_type_string, wire_kind,
  parse_wire_kind, parse_operation, operation_string, wire_operation, parse_wire_operation,
}

-- `ParseResourceType` undoes `String`, for every kind.
pub parse_resource_type-string :
    (t : ResourceType) → parse_resource_type (resource_type_string t) ≡ t
unfolding parse_resource_type resource_type_string resource_type_beq code
parse_resource_type-string unknown_resource_type = refl
parse_resource_type-string _ = refl

-- `ParseWireKind` undoes `WireKind`, for every kind but annotations, which it skips: their wire name
-- is read as the unknown kind.
pub parse_wire_kind-wire_kind :
    (t : ResourceType)
    → parse_wire_kind (wire_kind t)
      ≡ (if t == annotations_resource then unknown_resource_type else t)
unfolding parse_wire_kind wire_kind resource_type_beq code
parse_wire_kind-wire_kind unknown_resource_type = refl
parse_wire_kind-wire_kind _ = refl

-- `ParseOperation` undoes `String`, and `ParseWireOperation` undoes `WireOperation`.
pub parse_operation_round_trip :
    (op : Operation)
    → (parse_operation (operation_string op) ≡ op) × (parse_wire_operation (wire_operation op) ≡ op)
unfolding parse_operation operation_string parse_wire_operation wire_operation
parse_operation_round_trip unknown_operation = (refl, refl)
parse_operation_round_trip _ = (refl, refl)

-- The reader of wire names that knows annotations too.
unwire : String → ResourceType
unfolding parse_resource_type
unwire s = if s == "ApiInstance" then api_instance_resource else parse_resource_type s

unwire-wire_kind : (t : ResourceType) → unwire (wire_kind t) ≡ t
unfolding unwire wire_kind resource_type_beq code
unwire-wire_kind unknown_resource_type = refl
unwire-wire_kind _ = refl

-- Kinds with the same wire name are the same.
pub wire_kind-injective : (t u : ResourceType) → wire_kind t ≡ wire_kind u → t ≡ u
wire_kind-injective t u e = sym (unwire-wire_kind t) ∙ (ap unwire e ∙ unwire-wire_kind u)

pub wire_operation-injective : (a b : Operation) → wire_operation a ≡ wire_operation b → a ≡ b
wire_operation-injective a b e =
    sym (parse_operation_round_trip a).1
    ∙ (ap parse_wire_operation e ∙ (parse_operation_round_trip b).1)
