-- ===== src/Resolve.antt =====
-- pkg/eventfilter/resolvefindings/resolvefindings.go: the filter that deletes findings which a created
-- or updated resource makes obsolete. What it reads of a finding and of an instance is a record of
-- getters beside the model's; `uuid.NewSHA1` on the name of a kind is one of them. Log lines are left
-- out.
pub mod Obsolete
pub mod Deletes
pub mod Concerns
pub mod Meaning
pub mod Deleted
mod Tests
use modelsrv.Prelude.{
  String, Bool, true, false, not, ◌&&◌, ◌||◌, Option, none, some, List, [], ◌∷◌, ◌==◌, nat_eq,
  string_eq, if◌then◌else◌,
}
use modelsrv.Event.{Event, Uuid, nil}
use modelsrv.Event.Kind.{
  ResourceType, resource_type_eq, unknown_resource_type, finding_resource, finding_type_resource,
  api_instance_resource, component_instance_resource, system_instance_resource,
}
use modelsrv.Event.Wire.{Operation, create_operation, update_operation, operation_eq}
use modelsrv.Model.Stores.{Store, store_of, findings_by_uuid}
use modelsrv.Model.State.{ModelData, Objects, after}
use modelsrv.Model.Catalog.{get_finding_type_by_id, get_finding_by_id}
use modelsrv.Model.Landscape.{
  get_api_instance_by_id, get_component_instance_by_id, get_system_instance_by_id,
}
use modelsrv.Model.Calls.{get_by_id}
use modelsrv.FindingKinds.{
  FindingKind, context_type_missing, context_parent_not_found, node_type_missing,
  missing_resource_reference,
}
use modelsrv.Model.Findings.{get_findings_referencing_resource, delete_finding_by_id}

-- `ResourceRef`
pub record ResourceRef : Type 0 where
  pub resource_id : Uuid
  pub resource_type : ResourceType

-- The getters of findings and instances. A reference of an instance is the identifier in it, and
-- `none` is a nil one.
pub record FindingObjects (O : Type 0) : Type 0 where
  pub get_finding_type_id : O → Uuid
  pub get_resources : O → List (Option ResourceRef)
  pub get_api_ref : O → Option Uuid
  pub get_component_ref : O → Option Uuid
  pub get_system_ref : O → Option Uuid
  pub type_id_for_kind : FindingKind → Uuid

abbrev pub is_there : {A : Type 0} → Option A → Bool
is_there none = false
is_there (some a) = true

-- `phase0Kinds`
abbrev pub phase0_kinds : List FindingKind
phase0_kinds = context_type_missing ∷ context_parent_not_found ∷ node_type_missing ∷ []

-- `refMatchesEvent`
abbrev pub ref_matches_event : {O : Type 0} → Option ResourceRef → Event O → Bool
ref_matches_event none ev = false
ref_matches_event (some ref) ev =
    ref.resource_id == ev.resource_id
    && (ref.resource_type == unknown_resource_type || ref.resource_type == ev.resource_type)

-- The kind that is looked up for a reference: that of the event, if the reference has none.
abbrev pub checked_type : {O : Type 0} → ResourceRef → Event O → ResourceType
checked_type ref ev =
    if ref.resource_type == unknown_resource_type then ev.resource_type else ref.resource_type

-- Whether a reference of an instance names something.
abbrev pub refers : Option Uuid → Bool
refers none = false
refers (some id) = not (id == nil)

module _ {O : Type 0} where
  -- The `exists` of the handlers: the getter of the kind gives something.
  abbrev pub exists : ModelData O → Uuid → Option Store → Bool
  exists m id none = false
  exists m id (some s) = is_there (get_by_id m s id)

  -- `ResourceExists`
  unfoldable pub resource_exists : ModelData O → Uuid → ResourceType → Bool
  resource_exists m id rt = if id == nil then false else exists m id (store_of rt)

  -- The loop of `tryResolveDanglingRef`.
  unfoldable pub dangling_in : ModelData O → Event O → List (Option ResourceRef) → Bool
  dangling_in m ev [] = false
  dangling_in m ev (none ∷ refs) = dangling_in m ev refs
  dangling_in m ev (some ref ∷ refs) =
      ref_matches_event (some ref) ev && resource_exists m ref.resource_id (checked_type ref ev)
      || dangling_in m ev refs

  -- Whether the filter looks at the event.
  abbrev pub is_relevant : Event O → Bool
  is_relevant ev =
      (ev.operation == create_operation || ev.operation == update_operation)
      && not (ev.resource_type == finding_resource)
      && not (ev.resource_type == finding_type_resource)
      && not (ev.resource_id == nil)

module _ {O : Type 0} (ob : Objects O) where
  -- `deleteFinding`
  unfoldable pub delete_finding : ModelData O → Uuid → ModelData O
  delete_finding m id = elim (get_finding_by_id m id) [
    | none ↦ m
    | some f ↦ after m (delete_finding_by_id ob m id)
  ]

module _ {O : Type 0} (ob : Objects O) (fo : FindingObjects O) where
  -- Whether the identifier or the name of a finding's type is that of a kind of the list.
  unfoldable pub has_type_id : Uuid → List String → Bool
  has_type_id id [] = false
  has_type_id id (kind ∷ kinds) = id == fo.type_id_for_kind kind || has_type_id id kinds

  unfoldable pub has_type_name : Option O → List String → Bool
  has_type_name none kinds = false
  has_type_name (some ft) [] = false
  has_type_name (some ft) (kind ∷ kinds) =
      ob.get_display_name ft == kind || has_type_name (some ft) kinds

  -- `isPhase0Finding`
  unfoldable pub is_phase0_finding : ModelData O → O → Bool
  is_phase0_finding m f =
      let id : Uuid = fo.get_finding_type_id f in
      has_type_id id phase0_kinds || has_type_name (get_finding_type_by_id m id) phase0_kinds

  -- `isMissingResourceReference`
  unfoldable pub is_missing_resource_reference : ModelData O → O → Bool
  is_missing_resource_reference m f =
      let id : Uuid = fo.get_finding_type_id f in
      has_type_id id (missing_resource_reference ∷ [])
      || has_type_name (get_finding_type_by_id m id) (missing_resource_reference ∷ [])

  -- `subjectHasRequiredRef`
  unfoldable pub subject_has_required_ref : ModelData O → ResourceRef → Bool
  subject_has_required_ref m subject =
      let id : Uuid = subject.resource_id in
      if subject.resource_type == api_instance_resource
      then api (get_api_instance_by_id m id)
      else if subject.resource_type == component_instance_resource
      then component (get_component_instance_by_id m id)
      else if subject.resource_type == system_instance_resource
      then system (get_system_instance_by_id m id)
      else false
    where
      api : Option O → Bool
      api none = false
      api (some ai) = refers (fo.get_api_ref ai)

      component : Option O → Bool
      component none = false
      component (some ci) = refers (fo.get_component_ref ci)

      system : Option O → Bool
      system none = false
      system (some si) = refers (fo.get_system_ref si)

  -- `tryResolveDanglingRef`: the first reference is passed over, and a lone one leaves none.
  unfoldable pub try_resolve_dangling_ref :
      ModelData O → O → List (Option ResourceRef) → Event O → ModelData O × Bool
  try_resolve_dangling_ref m f [] ev = (m, false)
  try_resolve_dangling_ref m f (subject ∷ refs) ev =
      if dangling_in m ev refs
      then (delete_finding ob m (ob.get_id findings_by_uuid f), true)
      else (m, false)

  -- `tryResolveMissingResourceReference`
  unfoldable pub try_resolve_missing_resource_reference :
      ModelData O → O → List (Option ResourceRef) → Event O → ModelData O
  try_resolve_missing_resource_reference m f [] ev = m
  try_resolve_missing_resource_reference m f (none ∷ refs) ev = m
  try_resolve_missing_resource_reference m f (some subject ∷ refs) ev =
      if is_missing_resource_reference m f
      then if ref_matches_event (some subject) ev
        then if subject_has_required_ref m subject
          then delete_finding ob m (ob.get_id findings_by_uuid f)
          else m
        else m
      else m

  -- The loop of `resolveAgainstEvent`.
  unfoldable pub resolve_candidate : ModelData O → Event O → O → ModelData O
  resolve_candidate m ev f =
      let refs = fo.get_resources f in
      if is_phase0_finding m f
      then m
      else let (u, resolved) = try_resolve_dangling_ref m f refs ev in
        if resolved then u else try_resolve_missing_resource_reference u f refs ev

  unfoldable pub resolve_candidates : ModelData O → Event O → List O → ModelData O
  resolve_candidates m ev [] = m
  resolve_candidates m ev (f ∷ fs) = resolve_candidates (resolve_candidate m ev f) ev fs

  -- `resolveAgainstEvent`
  unfoldable pub resolve_against_event : ModelData O → Event O → ModelData O
  resolve_against_event m ev =
      resolve_candidates m ev (get_findings_referencing_resource m ev.resource_id)

  -- `filterFunc`
  unfoldable pub filter_func : ModelData O → Event O → ModelData O × List (Event O)
  filter_func m ev = (if is_relevant ev then resolve_against_event m ev else m, ev ∷ [])
