-- ===== src/FindingKinds.antt =====
-- pkg/model/finding/finding_kind.go: the kinds of findings that the server raises by itself, and the
-- registration of their types, which phase0.go, resolvefindings.go and finding_publisher.go repeat.
pub mod Registered
use modelsrv.Prelude.{
  String, Bool, true, false, not, ◌||◌, Option, none, some, List, [], ◌∷◌, ◌==◌, string_eq,
  if◌then◌else◌,
}
use modelsrv.Event.{Uuid}
use modelsrv.Model.Stores.{finding_types_by_uuid}
use modelsrv.Model.State.{ModelData, Objects, after}
use modelsrv.Model.Catalog.{add_finding_type, get_finding_type_by_id}
use modelsrv.Model.References.{get_finding_type_by_name}

-- `FindingKind`
abbrev pub FindingKind : Type 0
FindingKind = String

abbrev pub context_type_missing : FindingKind
context_type_missing = "ContextTypeMissing"

abbrev pub context_parent_not_found : FindingKind
context_parent_not_found = "ContextParentNotFound"

abbrev pub node_type_missing : FindingKind
node_type_missing = "NodeTypeMissing"

abbrev pub certificate_expiring_soon : FindingKind
certificate_expiring_soon = "CertificateExpiringSoon"

abbrev pub certificate_expired : FindingKind
certificate_expired = "CertificateExpired"

abbrev pub certificate_probe_failed : FindingKind
certificate_probe_failed = "CertificateProbeFailed"

abbrev pub referenced_resource_not_found : FindingKind
referenced_resource_not_found = "ReferencedResourceNotFound"

abbrev pub missing_resource_reference : FindingKind
missing_resource_reference = "MissingResourceReference"

-- `DescriptionForKind`
unfoldable pub description_for_kind : FindingKind → String
description_for_kind kind =
    if kind == context_type_missing
    then "A Context resource references a ContextType by UUID that is not registered in the model, or has no ContextType assigned at all."
    else if kind == context_parent_not_found
    then "A Context resource references a parent Context by UUID that is not registered in the model."
    else if kind == node_type_missing
    then "A Node resource has no NodeType assigned."
    else if kind == certificate_expiring_soon
    then "An ApiInstance TLS certificate will expire within the configured warning threshold."
    else if kind == certificate_expired
    then "An ApiInstance TLS certificate has already expired."
    else if kind == certificate_probe_failed
    then "A certificate probe against an ApiInstance endpoint failed."
    else if kind == referenced_resource_not_found
    then "A resource references another resource by UUID that is not registered in the local model."
    else if kind == missing_resource_reference
    then "A resource lacks a required EmELand reference to another resource."
    else ""

-- Finding types as the registration sees them: the getters, `NewFindingType` with a name and a
-- description set, and `uuid.NewSHA1` in the namespace of finding types.
pub record FindingTypes (O : Type 0) : Type 0 where
  pub objects : Objects O
  pub get_description : O → String
  pub new_finding_type : Uuid → String → String → O
  pub type_id_for_kind : FindingKind → Uuid

module _ {O : Type 0} (ft : FindingTypes O) where
  -- `backfillFindingTypeDescription`
  unfoldable pub backfill_finding_type_description : ModelData O → O → FindingKind → ModelData O
  backfill_finding_type_description m type kind =
      let desc : String = description_for_kind kind in
      let updated =
        ft.new_finding_type (ft.objects.get_id finding_types_by_uuid type)
          (ft.objects.get_display_name type) desc in
      if desc == "" || not (ft.get_description type == "")
      then m
      else after m (add_finding_type ft.objects m updated)

  -- `ensureFindingType`: the model, and the identifier of the type.
  unfoldable pub ensure_finding_type : ModelData O → FindingKind → ModelData O × Uuid
  ensure_finding_type m kind = elim (get_finding_type_by_name ft.objects m kind) [
    | some type ↦ (
      backfill_finding_type_description m type kind,
      ft.objects.get_id finding_types_by_uuid type,
    )
    | none ↦ elim (get_finding_type_by_id m (ft.type_id_for_kind kind)) [
      | some type ↦ (backfill_finding_type_description m type kind, ft.type_id_for_kind kind)
      | none ↦ (
        after m (
            add_finding_type ft.objects m
              (ft.new_finding_type (ft.type_id_for_kind kind) kind (description_for_kind kind))),
        ft.type_id_for_kind kind,
      )
    ]
  ]

  -- `EnsureWellKnownFindingTypes`, given the kinds.
  unfoldable pub ensure_well_known_finding_types : ModelData O → List FindingKind → ModelData O
  ensure_well_known_finding_types m [] = m
  ensure_well_known_finding_types m (kind ∷ kinds) =
      ensure_well_known_finding_types (ensure_finding_type m kind).0 kinds
