-- ===== src/Ingress/Adds.antt =====
-- pkg/ingress/apply.go: a document that is applied is one call of an Add method of the model.
use modelsrv.Prelude.{
  ◌≡◌, refl, ap, ◌∙◌, String, Option, none, some, [], ◌∷◌, ◌⊎◌, inl, inr, Option-cases, Bool-cases,
}
use modelsrv.Prelude.Dict.{Dict}
use modelsrv.Event.{Uuid}
use modelsrv.Event.Kind
use modelsrv.Event.Kind.{ResourceType}
use modelsrv.Model.Stores
use modelsrv.Model.Stores.{Store, kind_of, store_of, kind_of-store_of}
use modelsrv.Model.State
use modelsrv.Model.State.{ModelData, Objects, Result}
use modelsrv.Model.Calls.{adds, perform}
use modelsrv.Ingress.Values.{
  Fields, IngressError, Outcome, done, failed, ◌>>=◌, Parsers, parse_uuid_field, first_uuid_field,
  display_name, finding_title, apply_annotations,
}
use modelsrv.Ingress.Resources.{Resource, Common, Details}
use modelsrv.Ingress.Making.{added, made, description}
use modelsrv.Ingress.Landscape.{
  apply_context, apply_context_type, apply_node, apply_node_type, apply_system,
  apply_system_instance, apply_api, apply_api_instance, apply_component, apply_component_instance,
}
use modelsrv.Ingress.Access.{
  apply_permission_spec, apply_role_spec, apply_permission, apply_role, apply_binding,
}
use modelsrv.Ingress.Catalog.{
  apply_product, apply_finding, apply_finding_type, apply_artifact, apply_artifact_instance,
  apply_filter_rule, apply_merge_rule, apply_capability, apply_parameter,
}
use modelsrv.Ingress.Capacity.{apply_capacity_resource_type, apply_capacity}
use modelsrv.Ingress.Documents.{Document, apply_spec, with_spec, apply_document, valid_version}
use modelsrv.Ingress.PrimaryId.{primary_id_field}
use modelsrv.Ingress.Lists.{or_empty}

pub Outcome-cases :
    {A : Type 0} (x : Outcome A) → ((e : IngressError) × (x ≡ failed e)) ⊎ ((a : A) × (x ≡ done a))
Outcome-cases (failed e) = inl (e, refl)
Outcome-cases (done a) = inr (a, refl)

module _ (p : Parsers) where
  -- The identifier of a document. An instance may call it by the name of its kind.
  abbrev pub identifier : Store → Fields → Outcome Uuid
  identifier Stores.system_instances_by_uuid spec =
      first_uuid_field p spec ("instanceId" ∷ "systemInstanceId" ∷ [])
  identifier Stores.api_instances_by_uuid spec =
      first_uuid_field p spec ("instanceId" ∷ "apiInstanceId" ∷ [])
  identifier Stores.component_instances_by_uuid spec =
      first_uuid_field p spec ("instanceId" ∷ "componentInstanceId" ∷ [])
  identifier s spec = parse_uuid_field p spec (or_empty (primary_id_field (kind_of s)))

  -- Its name: a finding may have a summary instead.
  abbrev title : Store → Fields → Outcome String
  title Stores.findings_by_uuid spec = finding_title p spec
  title s spec = display_name p spec

  -- Instances, capabilities and parameters are given no description.
  abbrev described_as : Store → Fields → String
  described_as Stores.system_instances_by_uuid spec = ""
  described_as Stores.api_instances_by_uuid spec = ""
  described_as Stores.component_instances_by_uuid spec = ""
  described_as Stores.capabilities_by_uuid spec = ""
  described_as Stores.parameters_by_uuid spec = ""
  described_as s spec = description p spec

  -- Rules are given no annotations.
  abbrev annotated : Store → Fields → Outcome (Dict String String)
  annotated Stores.filter_rules_by_uuid spec = done []
  annotated Stores.merge_rules_by_uuid spec = done []
  annotated s spec = apply_annotations p spec

unfoldable pub common_from :
    Outcome Uuid → Outcome String → String → Outcome (Dict String String) → Outcome Common
common_from identifier name text annotations = do
  id ← identifier
  title ← name
  records ← annotations
  done (record { id = id; display_name = title; description = text; annotations = records })

-- What a document of any kind says of its resource.
abbrev pub common : Parsers → Store → Fields → Outcome Common
common p s spec =
    common_from (identifier p s spec) (title p s spec) (described_as p s spec) (annotated p s spec)

module _ (ob : Objects Resource) where
  -- An error, or the model after a resource that is as said was added to the map.
  abbrev pub OneAdd :
      ModelData Resource → Store → Outcome Common → Outcome (ModelData Resource) → Type 0
  OneAdd m s said (failed e) = Unit
  OneAdd m s said (done u) =
      (r : Resource) × (said ≡ done r.common) × (perform ob m (adds s r) ≡ State.ok u)

  added-OneAdd :
      (m : ModelData Resource) (s : Store) (r : Resource)
      → OneAdd m s (done r.common) (added (perform ob m (adds s r)))
  added-OneAdd m s r = result (perform ob m (adds s r)) refl
    where
      result :
          (x : Result (ModelData Resource))
          → perform ob m (adds s r) ≡ x
          → OneAdd m s (done r.common) (added x)
      result (State.ok u) h = (r, refl, h)
      result (State.err x) h = tt

  made-OneAdd :
      (m : ModelData Resource) (s : Store) (identifier : Outcome Uuid)
      → (name : Outcome String) (description : String) (details : Outcome Details)
        (annotations : Outcome (Dict String String))
      → OneAdd m s (common_from identifier name description annotations) (
          made identifier name description details annotations >>= λ r.
          added (perform ob m (adds s r)))
  unfolding made common_from
  made-OneAdd m s (failed e) name text details annotations = tt
  made-OneAdd m s (done i) (failed e) text details annotations = tt
  made-OneAdd m s (done i) (done n) text (failed e) annotations = tt
  made-OneAdd m s (done i) (done n) text (done d) (failed e) = tt
  made-OneAdd m s (done i) (done n) text (done d) (done a) = added-OneAdd m s _

module _ (p : Parsers) (ob : Objects Resource) where
  pub apply_spec-OneAdd :
      (m : ModelData Resource) (s : Store) (spec : Fields)
      → OneAdd ob m s (common p s spec) (apply_spec p ob (kind_of s) m spec)
  unfolding apply_spec kind_of primary_id_field perform apply_context apply_context_type apply_node
      apply_node_type apply_system apply_system_instance apply_api apply_api_instance
      apply_component apply_component_instance apply_permission_spec apply_role_spec
      apply_permission apply_role apply_binding apply_product apply_finding apply_finding_type
      apply_artifact apply_artifact_instance apply_filter_rule apply_merge_rule apply_capability
      apply_parameter apply_capacity_resource_type apply_capacity
  apply_spec-OneAdd m Stores.org_units_by_uuid spec = tt
  apply_spec-OneAdd m Stores.groups_by_uuid spec = tt
  apply_spec-OneAdd m Stores.identities_by_uuid spec = tt
  apply_spec-OneAdd m s spec = made-OneAdd ob m s _ _ _ _ _

  apply_spec-no_map :
      (rt : ResourceType) (m : ModelData Resource) (spec : Fields)
      → store_of rt ≡ none
      → (e : IngressError) × (apply_spec p ob rt m spec ≡ failed e)
  unfolding store_of apply_spec
  apply_spec-no_map Kind.unknown_resource_type m spec h = (_, refl)
  apply_spec-no_map Kind.annotations_resource m spec h = (_, refl)
  apply_spec-no_map _ m spec h = absurd cc

  OneAdd-done :
      (m : ModelData Resource) (s : Store) (i : Outcome Common) (x : Outcome (ModelData Resource))
      → OneAdd ob m s i x
      → {u : ModelData Resource} → x ≡ done u
      → (r : Resource) × (i ≡ done r.common) × (perform ob m (adds s r) ≡ State.ok u)
  OneAdd-done m s i (failed e) o h = absurd cc
  OneAdd-done m s i (done v) (r, e, q) h = (r, e, cc)

  apply_spec-adds :
      (rt : ResourceType) (m : ModelData Resource) (spec : Fields) {u : ModelData Resource}
      → apply_spec p ob rt m spec ≡ done u
      → (s : Store) × (r : Resource) × (kind_of s ≡ rt)
        × (common p s spec ≡ done r.common)
        × (perform ob m (adds s r) ≡ State.ok u)
  apply_spec-adds rt m spec h = elim (Option-cases (store_of rt)) [
    | inl e ↦ absurd (let (x, f) = apply_spec-no_map rt m spec e in cc)
    | inr (s, e) ↦
        let same : kind_of s ≡ rt = kind_of-store_of rt s e in
        let (r, i, q) =
          OneAdd-done m s (common p s spec) _ (apply_spec-OneAdd m s spec)
            (ap (λ k. apply_spec p ob k m spec) same ∙ h) in
        (s, r, same, i, q)
  ]

  with_spec-adds :
      (rt : ResourceType) (m : ModelData Resource) (given : Option Fields) {u : ModelData Resource}
      → with_spec p ob rt m given ≡ done u
      → (s : Store) × (spec : Fields) × (r : Resource) × (kind_of s ≡ rt)
        × (given ≡ some spec)
        × (common p s spec ≡ done r.common)
        × (perform ob m (adds s r) ≡ State.ok u)
  with_spec-adds rt m none h = absurd cc
  with_spec-adds rt m (some spec) h =
      let (s, r, same, i, q) = apply_spec-adds rt m spec h in (s, spec, r, same, refl, i, q)

  refused : {e : IngressError} {u : ModelData Resource} → failed e ≡ done u → ⊥
  refused h = cc

  -- A document that is applied has a kind with a map, has a spec, and is one call of Add.
  pub apply_document-adds :
      (m : ModelData Resource) (doc : Document) {u : ModelData Resource}
      → apply_document p ob m doc ≡ done u
      → (s : Store) × (spec : Fields) × (r : Resource) × (kind_of s ≡ doc.kind)
        × (doc.spec ≡ some spec)
        × (common p s spec ≡ done r.common)
        × (perform ob m (adds s r) ≡ State.ok u)
  unfolding apply_document
  apply_document-adds m doc h = elim (Bool-cases (valid_version doc.version)) [
    | inl v ↦ with_spec-adds doc.kind m doc.spec (rw v at h)
    | inr v ↦ absurd (refused (rw v at h))
  ]
