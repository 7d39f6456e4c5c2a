-- ===== src/Ingress/Capacity.antt =====
-- pkg/ingress/apply_capacity.go and pkg/model/capacity/amount.go: capacities.
use modelsrv.Prelude.{String, Option, none, some, ◌==◌, string_eq, if◌then◌else◌}
use modelsrv.Event.{Uuid}
use modelsrv.Model.State.{ModelData, Objects}
use modelsrv.Model.Capacities.{parse_category, add_capacity}
use modelsrv.Model.Catalog.{add_capacity_resource_type}
use modelsrv.Ingress.Values.{
  Value, object, Fields, Outcome, done, failed, ◌>>=◌, missing, not_map, bad_category, bad_amount,
  Parsers, trim_space, get_field, present, string_field, parse_uuid_field,
}
use modelsrv.Ingress.Lists.{or_empty}
use modelsrv.Ingress.Resources.{Resource, capacity_resource_type, capacity}
use modelsrv.Ingress.Making.{added, described}

module _ (p : Parsers) where
  abbrev identifier_in : String → String → Option Value → Outcome Uuid
  identifier_in key id_field none = failed (missing key)
  identifier_in key id_field (some (object subm)) = parse_uuid_field p subm id_field
  identifier_in key id_field (some v) = failed (not_map key)

  -- `uuidRefFromMap`
  unfoldable pub uuid_ref_from_map : Fields → String → String → Outcome Uuid
  uuid_ref_from_map spec key id_field = identifier_in key id_field (present key spec)

  abbrev category_in : Option String → Outcome String
  category_in none = failed (missing "category")
  category_in (some s) = checked (parse_category s)
    where
      checked : Option String → Outcome String
      checked none = failed (bad_category s)
      checked (some c) = done c

  -- The amount as a text; an amount that is null is shown.
  abbrev amount_raw : Option String → Option Value → String
  amount_raw (some s) v = s
  amount_raw none (some v) = p.sprint v
  amount_raw none none = ""

  -- `ParseAmount`
  unfoldable pub parse_amount : String → Option String
  parse_amount s =
      if trim_space s == ""
      then none
      else if p.is_amount (trim_space s)
      then some (trim_space s)
      else none

  abbrev amount_in : String → Outcome String
  amount_in raw = if raw == "" then failed (missing "amount") else checked (parse_amount raw)
    where
      checked : Option String → Outcome String
      checked none = failed (bad_amount raw)
      checked (some a) = done a

module _ (p : Parsers) (ob : Objects Resource) where
  -- `applyCapacityResourceType`
  unfoldable pub apply_capacity_resource_type :
      ModelData Resource → Fields → Outcome (ModelData Resource)
  apply_capacity_resource_type m spec = do
    x ←
        described p (parse_uuid_field p spec "capacityResourceTypeId") spec
          (done (capacity_resource_type (or_empty (string_field p spec "unit"))))
    added (add_capacity_resource_type ob m x)

  -- `applyCapacity`
  unfoldable pub apply_capacity : ModelData Resource → Fields → Outcome (ModelData Resource)
  apply_capacity m spec = do
    x ← described p (parse_uuid_field p spec "capacityId") spec (do
      type ← uuid_ref_from_map p spec "resourceTypeRef" "capacityResourceTypeId"
      ctx ← uuid_ref_from_map p spec "contextRef" "contextId"
      category ← category_in p (string_field p spec "category")
      amount ← amount_in p (amount_raw p (string_field p spec "amount") (get_field "amount" spec))
      done (capacity type ctx category amount))
    added (add_capacity ob m x)
