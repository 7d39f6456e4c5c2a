-- ===== src/Ingress/Documents.antt =====
-- pkg/ingress/document.go, apply.go and apply_all.go: documents, and how they are applied.
use Prim.Native.Char.{code}
use modelsrv.Prelude.{
  ℕ, ◌+◌, String, Bool, true, false, ◌&&◌, Option, none, some, List, [], ◌∷◌, ◌==◌, string_eq,
  nat_beq, if◌then◌else◌,
}
use modelsrv.Event.Kind
use modelsrv.Event.Kind.{ResourceType, resource_type_eq, unknown_resource_type}
use modelsrv.Event.Wire.{parse_resource_type}
use modelsrv.Model.State.{ModelData, Objects}
use modelsrv.Ingress.Values.{
  Fields, IngressError, unsupported_version, no_spec, no_kind, unsupported_kind, Outcome, done,
  failed, Parsers, trim_space,
}
use modelsrv.Ingress.Resources.{Resource}
use modelsrv.Ingress.Landscape.{
  apply_context, apply_context_type, apply_node, apply_node_type, apply_system,
  apply_system_instance, apply_api, apply_api_instance, apply_component, apply_component_instance,
}
use modelsrv.Ingress.Access.{
  apply_permission_spec, apply_role_spec, apply_permission, apply_role, apply_binding,
}
use modelsrv.Ingress.Catalog.{
  apply_product, apply_finding, apply_finding_type, apply_artifact, apply_artifact_instance,
  apply_filter_rule, apply_merge_rule, apply_capability, apply_parameter,
}
use modelsrv.Ingress.Capacity.{apply_capacity_resource_type, apply_capacity}

-- `Document`: a spec that is not given is nil.
pub record Document : Type 0 where
  pub version : String
  pub kind : ResourceType
  pub spec : Option Fields

-- The keys of `documentKinds`: of all kinds, one has no document.
unfoldable pub is_document_kind : ResourceType → Bool
is_document_kind unknown_resource_type = false
is_document_kind Kind.annotations_resource = false
is_document_kind rt = true

-- `parseDocumentKind`
unfoldable pub parse_document_kind : String → Outcome ResourceType
unfolding is_document_kind
parse_document_kind s =
    if trim_space s == ""
    then done unknown_resource_type
    else if is_document_kind (parse_resource_type (trim_space s))
    then done (parse_resource_type (trim_space s))
    else failed unsupported_kind

-- `strings.HasPrefix`
unfoldable pub has_prefix : String → String → Bool
has_prefix s String.[] = true
has_prefix String.[] (String.◌∷◌ d t) = false
has_prefix (String.◌∷◌ c s) (String.◌∷◌ d t) = nat_beq (code c) (code d) && has_prefix s t

-- `ValidVersion`
unfoldable pub valid_version : String → Bool
unfolding has_prefix
valid_version v = has_prefix (trim_space v) "emeland.io/"

-- `DocumentError`
pub record DocumentError : Type 0 where
  pub index : ℕ
  pub error : IngressError

-- `ProcessResult`
pub record ProcessResult : Type 0 where
  pub applied : ℕ
  pub failed_documents : List DocumentError

-- A document that is not applied leaves the model as it was.
abbrev pub model_after : ModelData Resource → Outcome (ModelData Resource) → ModelData Resource
model_after m (done u) = u
model_after m (failed e) = m

abbrev pub counted : ℕ → Outcome (ModelData Resource) → ProcessResult → ProcessResult
counted i (done u) out = record out { applied = out.applied + 1 }
counted i (failed e) out = record out {
  failed_documents = record { index = i; error = e } ∷ out.failed_documents;
}

module _ (p : Parsers) (ob : Objects Resource) where
  -- The switch of `ApplyDocument`.
  unfoldable pub apply_spec :
      ResourceType → ModelData Resource → Fields → Outcome (ModelData Resource)
  apply_spec Kind.context_resource m spec = apply_context p ob m spec
  apply_spec Kind.context_type_resource m spec = apply_context_type p ob m spec
  apply_spec Kind.node_resource m spec = apply_node p ob m spec
  apply_spec Kind.node_type_resource m spec = apply_node_type p ob m spec
  apply_spec Kind.system_resource m spec = apply_system p ob m spec
  apply_spec Kind.system_instance_resource m spec = apply_system_instance p ob m spec
  apply_spec Kind.api_resource m spec = apply_api p ob m spec
  apply_spec Kind.api_instance_resource m spec = apply_api_instance p ob m spec
  apply_spec Kind.component_resource m spec = apply_component p ob m spec
  apply_spec Kind.component_instance_resource m spec = apply_component_instance p ob m spec
  apply_spec Kind.finding_resource m spec = apply_finding p ob m spec
  apply_spec Kind.finding_type_resource m spec = apply_finding_type p ob m spec
  apply_spec Kind.artifact_resource m spec = apply_artifact p ob m spec
  apply_spec Kind.artifact_instance_resource m spec = apply_artifact_instance p ob m spec
  apply_spec Kind.product_resource m spec = apply_product p ob m spec
  apply_spec Kind.permission_spec_resource m spec = apply_permission_spec p ob m spec
  apply_spec Kind.role_spec_resource m spec = apply_role_spec p ob m spec
  apply_spec Kind.permission_resource m spec = apply_permission p ob m spec
  apply_spec Kind.role_resource m spec = apply_role p ob m spec
  apply_spec Kind.binding_resource m spec = apply_binding p ob m spec
  apply_spec Kind.filter_rule_resource m spec = apply_filter_rule p ob m spec
  apply_spec Kind.merge_rule_resource m spec = apply_merge_rule p ob m spec
  apply_spec Kind.capability_resource m spec = apply_capability p ob m spec
  apply_spec Kind.parameter_resource m spec = apply_parameter p ob m spec
  apply_spec Kind.capacity_resource_type_resource m spec = apply_capacity_resource_type p ob m spec
  apply_spec Kind.capacity_resource m spec = apply_capacity p ob m spec
  apply_spec Kind.unknown_resource_type m spec = failed no_kind
  apply_spec rt m spec = failed unsupported_kind

  abbrev pub with_spec :
      ResourceType → ModelData Resource → Option Fields → Outcome (ModelData Resource)
  with_spec rt m none = failed no_spec
  with_spec rt m (some spec) = apply_spec rt m spec

  -- `ApplyDocument`
  unfoldable pub apply_document : ModelData Resource → Document → Outcome (ModelData Resource)
  apply_document m doc =
      if valid_version doc.version
      then with_spec doc.kind m doc.spec
      else failed unsupported_version

  -- The loop of `ApplyAll`: the index of a document, and the model after it.
  unfoldable pub apply_from :
      ℕ → ModelData Resource → List Document → ModelData Resource × ProcessResult
  apply_from i m [] = (m, record { applied = 0; failed_documents = [] })
  apply_from i m (doc ∷ docs) =
      let result = apply_document m doc in
      let (u, out) = apply_from (i + 1) (model_after m result) docs in (u, counted i result out)

  -- `ApplyAll`
  unfoldable pub apply_all : ModelData Resource → List Document → ModelData Resource × ProcessResult
  apply_all m docs = apply_from 0 m docs
