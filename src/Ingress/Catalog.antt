-- ===== src/Ingress/Catalog.antt =====
-- pkg/ingress/apply.go and apply_resources.go: products, findings, artifacts, rules, capabilities and
-- parameters.
use modelsrv.Prelude.{ℕ, String, Bool, true, false, Option, none, some, List, [], ◌∷◌}
use modelsrv.Event.{Uuid}
use modelsrv.Model.State.{ModelData, Objects}
use modelsrv.Model.Findings.{add_finding}
use modelsrv.Model.Catalog.{
  add_product, add_finding_type, add_artifact, get_artifact_by_id, add_artifact_instance,
  add_filter_rule, add_merge_rule, add_capability, add_parameter,
}
use modelsrv.Ingress.Values.{
  Value, text, array, object, Items, end, item, Fields, Outcome, done, failed, ◌>>=◌, inside,
  within, not_map, Parsers, get_field, present, string_field, finding_title, parse_uuid_field,
  optional_uuid_ref, apply_annotations,
}
use modelsrv.Ingress.Lists.{
  Version, ProductionVersion, or_empty, list_in, parse_version_spec, parse_production_version_map,
  parse_resource_refs,
}
use modelsrv.Ingress.Resources.{
  Resource, Ref, product, finding, finding_type, artifact, artifact_instance, filter_rule,
  merge_rule, capability, parameter,
}
use modelsrv.Ingress.Making.{added, made, description, described, bare, rule}

module _ (p : Parsers) where
  abbrev version_item : ℕ → Value → Outcome ProductionVersion
  version_item i (object vm) = within "versions" i (parse_production_version_map p vm)
  version_item i v = failed (inside "versions" i (not_map "versions"))

  -- The loop of `applyCapability`: an item that is not an object is left out.
  unfoldable pub capability_versions : Items → Outcome (List (Uuid × Version))
  capability_versions end = done []
  capability_versions (item v rest) = from v (capability_versions rest)
    where
      from : Value → Outcome (List (Uuid × Version)) → Outcome (List (Uuid × Version))
      from (object vm) others = do
        vid ← parse_uuid_field p vm "capabilityVersionId"
        ver ← parse_version_spec p (get_field "version" vm)
        versions ← others
        done ((vid, ver) ∷ versions)
      from w others = others

  abbrev versions_in : Option Value → Outcome (List (Uuid × Version))
  versions_in (some (array items)) = capability_versions items
  versions_in v = done []

  -- The loop of `applyParameter`: an item that is not a text is left out.
  unfoldable pub parameter_values : Items → List String
  parameter_values end = []
  parameter_values (item v rest) = with_text v (parameter_values rest)
    where
      with_text : Value → List String → List String
      with_text (text s) others = s ∷ others
      with_text w others = others

  abbrev values_in : Option Value → List String
  values_in (some (array items)) = parameter_values items
  values_in v = []

  -- A reference that is in error is one that is missing.
  abbrev artifact_of : ModelData Resource → Outcome (Option Uuid) → Option Ref
  artifact_of m (failed e) = none
  artifact_of m (done none) = none
  artifact_of m (done (some id)) =
      some (record { id = id; embedded = found (get_artifact_by_id m id) })
    where
      found : Option Resource → Bool
      found none = false
      found (some r) = true

module _ (p : Parsers) (ob : Objects Resource) where
  -- `applyProduct`
  unfoldable pub apply_product : ModelData Resource → Fields → Outcome (ModelData Resource)
  apply_product m spec = do
    x ← described p (parse_uuid_field p spec "productId") spec (do
      vendor ← optional_uuid_ref p spec "vendor"
      versions ← list_in p "versions" (version_item p) (present "versions" spec)
      done (product vendor versions))
    added (add_product ob m x)

  -- `applyFinding`
  unfoldable pub apply_finding : ModelData Resource → Fields → Outcome (ModelData Resource)
  apply_finding m spec = do
    x ←
        made (parse_uuid_field p spec "findingId") (finding_title p spec) (description p spec)
          (do refs ← parse_resource_refs p spec; done (finding refs)) (apply_annotations p spec)
    added (add_finding ob m x)

  -- `applyFindingType`
  unfoldable pub apply_finding_type : ModelData Resource → Fields → Outcome (ModelData Resource)
  apply_finding_type m spec = do
    x ← described p (parse_uuid_field p spec "findingTypeId") spec (done finding_type)
    added (add_finding_type ob m x)

  -- `applyArtifact`
  unfoldable pub apply_artifact : ModelData Resource → Fields → Outcome (ModelData Resource)
  apply_artifact m spec = do
    x ←
        described p (parse_uuid_field p spec "artifactId") spec
          (done (artifact (or_empty (string_field p spec "hash"))))
    added (add_artifact ob m x)

  -- `applyArtifactInstance`
  unfoldable pub apply_artifact_instance :
      ModelData Resource → Fields → Outcome (ModelData Resource)
  apply_artifact_instance m spec = do
    x ←
        described p (parse_uuid_field p spec "artifactInstanceId") spec
          (done (artifact_instance (artifact_of p m (optional_uuid_ref p spec "artifact"))))
    added (add_artifact_instance ob m x)

  -- `applyFilterRule`
  unfoldable pub apply_filter_rule : ModelData Resource → Fields → Outcome (ModelData Resource)
  apply_filter_rule m spec = do
    x ← rule p (parse_uuid_field p spec "ruleId") spec (done filter_rule)
    added (add_filter_rule ob m x)

  -- `applyMergeRule`
  unfoldable pub apply_merge_rule : ModelData Resource → Fields → Outcome (ModelData Resource)
  apply_merge_rule m spec = do
    x ← rule p (parse_uuid_field p spec "ruleId") spec (done merge_rule)
    added (add_merge_rule ob m x)

  -- `applyCapability`
  unfoldable pub apply_capability : ModelData Resource → Fields → Outcome (ModelData Resource)
  apply_capability m spec = do
    x ←
        bare p (parse_uuid_field p spec "capabilityId") spec
          (do versions ← versions_in p (get_field "versions" spec); done (capability versions))
    added (add_capability ob m x)

  -- `applyParameter`
  unfoldable pub apply_parameter : ModelData Resource → Fields → Outcome (ModelData Resource)
  apply_parameter m spec = do
    x ←
        bare p (parse_uuid_field p spec "parameterId") spec
          (done (parameter (values_in p (get_field "values" spec))))
    added (add_parameter ob m x)
