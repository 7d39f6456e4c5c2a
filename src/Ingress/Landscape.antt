-- ===== src/Ingress/Landscape.antt =====
-- pkg/ingress/apply.go and apply_resources.go: contexts, nodes, systems, APIs and components.
use modelsrv.Prelude.{String, Bool, false, Option, none, some, [], ◌∷◌, nat_eq}
use modelsrv.Event.{Uuid}
use modelsrv.Model.State.{ModelData, Objects}
use modelsrv.Model.Landscape.{
  add_context, add_context_type, add_node, add_node_type, add_system, add_system_instance, add_api,
  add_api_instance, add_component, add_component_instance,
}
use modelsrv.Ingress.Values.{
  Value, flag, Fields, Outcome, done, failed, ◌>>=◌, missing, not_flag, Parsers, get_field,
  string_field, not_blank, some_uuid, parse_uuid_field, first_uuid_field, optional_uuid_ref,
  optional_first_uuid_ref,
}
use modelsrv.Ingress.Lists.{parse_version_spec, parse_api_type, parse_api_ref_slice}
use modelsrv.Ingress.Resources.{
  Resource, context, context_type, node, node_type, system, system_instance, api, api_instance,
  component, component_instance,
}
use modelsrv.Ingress.Making.{added, described, bare}

module _ (p : Parsers) (ob : Objects Resource) where
  -- `applyContext`
  unfoldable pub apply_context : ModelData Resource → Fields → Outcome (ModelData Resource)
  apply_context m spec = do
    x ← described p (parse_uuid_field p spec "contextId") spec (do
      parent ← optional_uuid_ref p spec "parent"
      type ← optional_uuid_ref p spec "type"
      done (context parent type))
    added (add_context ob m x)

  -- `applyContextType`
  unfoldable pub apply_context_type : ModelData Resource → Fields → Outcome (ModelData Resource)
  apply_context_type m spec = do
    x ← described p (parse_uuid_field p spec "contextTypeId") spec (done context_type)
    added (add_context_type ob m x)

  -- `applyNodeType`
  unfoldable pub apply_node_type : ModelData Resource → Fields → Outcome (ModelData Resource)
  apply_node_type m spec = do
    x ← described p (parse_uuid_field p spec "nodeTypeId") spec (done node_type)
    added (add_node_type ob m x)

  -- `applyNode`
  unfoldable pub apply_node : ModelData Resource → Fields → Outcome (ModelData Resource)
  apply_node m spec = do
    x ← described p (parse_uuid_field p spec "nodeId") spec (do
      type ← optional_first_uuid_ref p spec ("nodeTypeId" ∷ "nodeType" ∷ [])
      done (node type))
    added (add_node ob m x)

  -- An abstract flag that is null is refused, unlike one that is missing.
  abbrev abstract_in : Option Value → Outcome Bool
  abstract_in none = done false
  abstract_in (some (flag b)) = done b
  abstract_in (some v) = failed (not_flag "abstract")

  -- `applySystem`
  unfoldable pub apply_system : ModelData Resource → Fields → Outcome (ModelData Resource)
  apply_system m spec = do
    x ← described p (parse_uuid_field p spec "systemId") spec (do
      abstract ← abstract_in (get_field "abstract" spec)
      version ← parse_version_spec p (get_field "version" spec)
      parent ← optional_uuid_ref p spec "parent"
      done (system abstract version parent))
    added (add_system ob m x)

  -- `applySystemInstance`
  unfoldable pub apply_system_instance : ModelData Resource → Fields → Outcome (ModelData Resource)
  apply_system_instance m spec = do
    x ← bare p (first_uuid_field p spec ("instanceId" ∷ "systemInstanceId" ∷ [])) spec (do
      sys ← first_uuid_field p spec ("system" ∷ "systemId" ∷ [])
      ctx ← optional_first_uuid_ref p spec ("context" ∷ "contextId" ∷ [])
      done (system_instance sys ctx))
    added (add_system_instance ob m x)

  abbrev system_of_api : Option String → Option String → Outcome Uuid
  system_of_api (some s) other = some_uuid p "system" (p.parse_uuid s)
  system_of_api none (some s) = some_uuid p "systemId" (p.parse_uuid s)
  system_of_api none none = failed (missing "system")

  abbrev type_or_default : Option String → String
  type_or_default none = "OpenAPI"
  type_or_default (some s) = s

  -- `applyAPI`
  unfoldable pub apply_api : ModelData Resource → Fields → Outcome (ModelData Resource)
  apply_api m spec = do
    x ← described p (parse_uuid_field p spec "apiId") spec (do
      sys ←
          system_of_api (not_blank p (string_field p spec "system"))
            (not_blank p (string_field p spec "systemId"))
      type ← parse_api_type (type_or_default (not_blank p (string_field p spec "type")))
      version ← parse_version_spec p (get_field "version" spec)
      done (api type version sys))
    added (add_api ob m x)

  -- `applyAPIInstance`
  unfoldable pub apply_api_instance : ModelData Resource → Fields → Outcome (ModelData Resource)
  apply_api_instance m spec = do
    x ← bare p (first_uuid_field p spec ("instanceId" ∷ "apiInstanceId" ∷ [])) spec (do
      a ← first_uuid_field p spec ("api" ∷ "apiId" ∷ [])
      within ← optional_first_uuid_ref p spec ("systemInstance" ∷ "systemInstanceId" ∷ [])
      done (api_instance a within))
    added (add_api_instance ob m x)

  -- `applyComponent`
  unfoldable pub apply_component : ModelData Resource → Fields → Outcome (ModelData Resource)
  apply_component m spec = do
    x ← described p (parse_uuid_field p spec "componentId") spec (do
      sys ← first_uuid_field p spec ("system" ∷ "systemId" ∷ [])
      version ← parse_version_spec p (get_field "version" spec)
      consumes ← parse_api_ref_slice p spec "consumes"
      provides ← parse_api_ref_slice p spec "provides"
      done (component version sys consumes provides))
    added (add_component ob m x)

  -- `applyComponentInstance`
  unfoldable pub apply_component_instance :
      ModelData Resource → Fields → Outcome (ModelData Resource)
  apply_component_instance m spec = do
    x ← bare p (first_uuid_field p spec ("instanceId" ∷ "componentInstanceId" ∷ [])) spec (do
      c ← first_uuid_field p spec ("component" ∷ "componentId" ∷ [])
      within ← optional_first_uuid_ref p spec ("systemInstance" ∷ "systemInstanceId" ∷ [])
      done (component_instance c within))
    added (add_component_instance ob m x)
