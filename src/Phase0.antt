-- ===== src/Phase0.antt =====
-- pkg/eventfilter/phase0/phase0.go: the filter that checks that contexts and nodes have the types and
-- parents that they name, and keeps a finding for each one that has not. The filter is taken to be
-- registered for the model, and alone: adding a finding sends an event through it, with which it
-- looks at the finding again. Log lines are left out.
pub mod Settles
pub mod Checked
pub mod Nested
pub mod Loops
pub mod Agrees
pub mod Affected
pub mod Covers
pub mod Filtered
mod Tests
use modelsrv.Prelude.{
  Bool, true, false, Option, none, some, List, [], ◌∷◌, ◌==◌, nat_eq, string_eq, if◌then◌else◌,
}
use modelsrv.Event.{Event, Uuid, nil}
use modelsrv.Event.Kind.{
  ResourceType, resource_type_eq, context_resource, context_type_resource, node_resource,
  node_type_resource, finding_resource,
}
use modelsrv.Event.Wire.{operation_eq, create_operation, update_operation, delete_operation}
use modelsrv.Model.Stores.{
  Store, contexts_by_uuid, context_types_by_uuid, nodes_by_uuid, node_types_by_uuid,
  findings_by_uuid,
}
use modelsrv.Model.State
use modelsrv.Model.State.{ModelData, Objects, Result, after}
use modelsrv.Model.Landscape.{
  get_contexts, get_context_by_id, get_context_type_by_id, get_nodes, get_node_by_id,
  get_node_type_by_id,
}
use modelsrv.Model.Catalog.{get_finding_by_id, get_finding_type_by_id}
use modelsrv.Model.Findings.{add_finding, delete_finding_by_id}
use modelsrv.Resolve.{ResourceRef}
use modelsrv.FindingKinds.{
  FindingKind, FindingTypes, context_type_missing, context_parent_not_found, node_type_missing,
  ensure_finding_type, ensure_well_known_finding_types,
}

abbrev pub is_there : {A : Type 0} → Option A → Bool
is_there none = false
is_there (some a) = true

-- What a description says, from which `Sprintf` makes the text: the kind, the subject, and what it
-- references in vain, if anything.
pub record Description : Type 0 where
  pub kind : FindingKind
  pub subject : Uuid
  pub reference : Option Uuid

-- Contexts, nodes and findings as the filter sees them: the getters, `NewFinding` with the setters
-- called on it, and `findingID`, which is `uuid.NewSHA1` of a subject and a kind. An embedded node
-- type is its identifier.
pub record Checks (O : Type 0) : Type 0 where
  pub types : FindingTypes O
  pub get_context_type_id : O → Uuid
  pub get_parent_id : O → Uuid
  pub get_node_type_id : O → Uuid
  pub get_node_type : O → Option Uuid
  pub get_finding_type_id : O → Uuid
  pub get_resources : O → List (Option ResourceRef)
  pub new_finding : Uuid → Uuid → Description → List ResourceRef → O
  pub finding_id : Uuid → FindingKind → Uuid

-- Whether there is an embedded node type, and whether it has the identifier.
abbrev pub is_embedded : Option Uuid → Uuid → Bool
is_embedded none id = false
is_embedded (some embedded) id = embedded == id

abbrev pub ref_to : Uuid → ResourceType → ResourceRef
ref_to id rt = record { resource_id = id; resource_type = rt }

module _ {O : Type 0} where
  -- A resource of a listing is checked as it is when its turn comes, if it is still there.
  abbrev pub check_current : (ModelData O → O → ModelData O) → ModelData O → Option O → ModelData O
  check_current check m none = m
  check_current check m (some cur) = check m cur

  -- What is done with an identifier, if there is one.
  abbrev pub with_id : (ModelData O → Uuid → ModelData O) → ModelData O → Option Uuid → ModelData O
  with_id act m none = m
  with_id act m (some id) = act m id

module _ {O : Type 0} (k : Checks O) where
  abbrev pub objects : Objects O
  objects = k.types.objects

  -- `deleteFinding`
  unfoldable pub delete_finding : ModelData O → Uuid → FindingKind → ModelData O
  delete_finding m subject_id kind =
      let id : Uuid = k.finding_id subject_id kind in
      elim (get_finding_by_id m id) [
        | none ↦ m
        | some f ↦ after m (delete_finding_by_id objects m id)
      ]

  -- `contextTypeCheckPasses`
  unfoldable pub context_type_check_passes : ModelData O → O → Bool
  context_type_check_passes m c =
      let type_id : Uuid = k.get_context_type_id c in
      if type_id == nil then false else is_there (get_context_type_by_id m type_id)

  -- `contextParentCheckPasses`
  unfoldable pub context_parent_check_passes : ModelData O → O → Bool
  context_parent_check_passes m c =
      let parent_id : Uuid = k.get_parent_id c in
      if parent_id == nil then true else is_there (get_context_by_id m parent_id)

  -- `nodeTypeCheckPasses`
  unfoldable pub node_type_check_passes : ModelData O → O → Bool
  node_type_check_passes m n =
      let type_id : Uuid = k.get_node_type_id n in
      if type_id == nil
      then is_there (k.get_node_type n)
      else if is_there (get_node_type_by_id m type_id)
      then true
      else is_embedded (k.get_node_type n) type_id

  -- The first kind of the list whose type has the identifier.
  unfoldable pub kind_with_type_id : Uuid → List FindingKind → Option FindingKind
  kind_with_type_id type_id [] = none
  kind_with_type_id type_id (kind ∷ kinds) =
      let rest = kind_with_type_id type_id kinds in
      if type_id == k.types.type_id_for_kind kind then some kind else rest

  abbrev pub kinds : List FindingKind
  kinds = context_type_missing ∷ context_parent_not_found ∷ node_type_missing ∷ []

  -- `findingKindForTypeID`
  unfoldable pub finding_kind_for_type_id : ModelData O → Uuid → Option FindingKind
  finding_kind_for_type_id m type_id =
      if type_id == nil then none else elim (kind_with_type_id type_id kinds) [
        | some kind ↦ some kind
        | none ↦ elim (get_finding_type_by_id m type_id) [
          | some type ↦ some (objects.get_display_name type)
          | none ↦ none
        ]
      ]

  -- The finding goes if the subject is in the model and passes.
  abbrev pub delete_if : ModelData O → (O → Bool) → Option O → Uuid → FindingKind → ModelData O
  delete_if m passes none subject_id kind = m
  delete_if m passes (some cur) subject_id kind =
      if passes cur then delete_finding m subject_id kind else m

  -- The last part of `reconcileFindingSubject`.
  unfoldable pub reconcile_kind : ModelData O → Uuid → FindingKind → ModelData O
  reconcile_kind m id kind =
      if kind == context_type_missing
      then delete_if m (context_type_check_passes m) (get_context_by_id m id) id
          context_type_missing
      else if kind == context_parent_not_found
      then delete_if m (context_parent_check_passes m) (get_context_by_id m id) id
          context_parent_not_found
      else if kind == node_type_missing
      then delete_if m (node_type_check_passes m) (get_node_by_id m id) id node_type_missing
      else m

  abbrev pub reconcile_subject :
      ModelData O → List (Option ResourceRef) → Option FindingKind → ModelData O
  reconcile_subject m [] kind = m
  reconcile_subject m (none ∷ refs) kind = m
  reconcile_subject m (some subject ∷ refs) none = m
  reconcile_subject m (some subject ∷ refs) (some kind) = reconcile_kind m subject.resource_id kind

  -- `reconcileFindingSubject`
  unfoldable pub reconcile_finding_subject : ModelData O → O → ModelData O
  reconcile_finding_subject m f =
      reconcile_subject m (k.get_resources f) (finding_kind_for_type_id m (k.get_finding_type_id f))

  -- What is done with the first object, if it has the Go type of the map.
  abbrev pub with_first :
      Store → (ModelData O → O → ModelData O) → ModelData O → List O → ModelData O
  with_first s act m [] = m
  with_first s act m (x ∷ xs) = if objects.is_a s x then act m x else m

  -- The rest of `AddFinding`: its event passes through the filter, which does what is below for
  -- findings; a failed call sends none, and is only logged.
  abbrev pub filtered_add : ModelData O → O → Result (ModelData O) → ModelData O
  filtered_add m f (State.err e) = m
  filtered_add m f (State.ok u) = with_first findings_by_uuid reconcile_finding_subject u (f ∷ [])

  -- `upsertFinding`: the first resource is the subject.
  unfoldable pub upsert_finding :
      ModelData O → Description → ResourceRef → List ResourceRef → ModelData O
  upsert_finding m desc subject refs =
      let id : Uuid = k.finding_id subject.resource_id desc.kind in
      let (u, type_id) = ensure_finding_type k.types m desc.kind in
      let f = k.new_finding id type_id desc (subject ∷ refs) in
      filtered_add u f (add_finding objects u f)

  -- `checkContextType`
  unfoldable pub check_context_type : ModelData O → O → ModelData O
  check_context_type m c =
      let id : Uuid = objects.get_id contexts_by_uuid c in
      let type_id : Uuid = k.get_context_type_id c in
      let unassigned : Description = record {
        kind = context_type_missing;
        subject = id;
        reference = none;
      } in
      let dangling : Description = record {
        kind = context_type_missing;
        subject = id;
        reference = some type_id;
      } in
      if type_id == nil
      then upsert_finding m unassigned (ref_to id context_resource) []
      else elim (get_context_type_by_id m type_id) [
        | none ↦
            upsert_finding m dangling (ref_to id context_resource)
              (ref_to type_id context_type_resource ∷ [])
        | some type ↦ delete_finding m id context_type_missing
      ]

  -- `checkContextParent`
  unfoldable pub check_context_parent : ModelData O → O → ModelData O
  check_context_parent m c =
      let id : Uuid = objects.get_id contexts_by_uuid c in
      let parent_id : Uuid = k.get_parent_id c in
      let dangling : Description = record {
        kind = context_parent_not_found;
        subject = id;
        reference = some parent_id;
      } in
      if parent_id == nil
      then delete_finding m id context_parent_not_found
      else elim (get_context_by_id m parent_id) [
        | none ↦
            upsert_finding m dangling (ref_to id context_resource)
              (ref_to parent_id context_resource ∷ [])
        | some parent ↦ delete_finding m id context_parent_not_found
      ]

  -- `checkContext`
  unfoldable pub check_context : ModelData O → O → ModelData O
  check_context m c = check_context_parent (check_context_type m c) c

  -- `checkNode`
  unfoldable pub check_node : ModelData O → O → ModelData O
  check_node m n =
      let id : Uuid = objects.get_id nodes_by_uuid n in
      let type_id : Uuid = k.get_node_type_id n in
      let unassigned : Description = record {
        kind = node_type_missing;
        subject = id;
        reference = none;
      } in
      let dangling : Description = record {
        kind = node_type_missing;
        subject = id;
        reference = some type_id;
      } in
      let raised =
        upsert_finding m dangling (ref_to id node_resource)
          (ref_to type_id node_type_resource ∷ []) in
      if type_id == nil
      then elim (k.get_node_type n) [
        | none ↦ upsert_finding m unassigned (ref_to id node_resource) []
        | some embedded ↦ delete_finding m id node_type_missing
      ]
      else elim (get_node_type_by_id m type_id) [
        | some type ↦ delete_finding m id node_type_missing
        | none ↦
            if is_embedded (k.get_node_type n) type_id
            then delete_finding m id node_type_missing
            else raised
      ]

  -- A loop over the listed resources of a map, of which those that are chosen are checked.
  unfoldable pub check_listed :
      Store
      → (ModelData O → Uuid → Option O)
      → (ModelData O → O → ModelData O)
      → (O → Bool)
      → ModelData O
      → List O
      → ModelData O
  check_listed s get check chosen m [] = m
  check_listed s get check chosen m (x ∷ xs) =
      let checked = check_current check m (get m (objects.get_id s x)) in
      check_listed s get check chosen (if chosen x then checked else m) xs

  abbrev pub check_contexts :
      (ModelData O → O → ModelData O) → (O → Bool) → ModelData O → List O → ModelData O
  check_contexts check chosen m cs =
      check_listed contexts_by_uuid get_context_by_id check chosen m cs

  abbrev pub check_nodes : (O → Bool) → ModelData O → List O → ModelData O
  check_nodes chosen m ns = check_listed nodes_by_uuid get_node_by_id check_node chosen m ns

  -- `reconcileContextsReferencingContextType`
  unfoldable pub reconcile_contexts_referencing_context_type : ModelData O → Uuid → ModelData O
  reconcile_contexts_referencing_context_type m type_id =
      if type_id == nil
      then m
      else check_contexts check_context (λ c. k.get_context_type_id c == type_id) m (get_contexts m)

  -- `reconcileChildContextsForParent`, and `reconcileChildContextsAfterParentDeleted`, which is the
  -- same but for its log line.
  unfoldable pub reconcile_child_contexts_for_parent : ModelData O → Uuid → ModelData O
  reconcile_child_contexts_for_parent m parent_id =
      if parent_id == nil
      then m
      else check_contexts check_context_parent (λ c. k.get_parent_id c == parent_id) m
          (get_contexts m)

  -- `reconcileNodesReferencingNodeType`
  unfoldable pub reconcile_nodes_referencing_node_type : ModelData O → Uuid → ModelData O
  reconcile_nodes_referencing_node_type m type_id =
      if type_id == nil
      then m
      else check_nodes (λ n. k.get_node_type_id n == type_id) m (get_nodes m)

  -- `ReconcileAll`
  unfoldable pub reconcile_all : ModelData O → ModelData O
  reconcile_all m =
      let u = check_contexts check_context (λ c. true) m (get_contexts m) in
      check_nodes (λ n. true) u (get_nodes u)

  -- `contextTypeIDFromEvent` and `nodeTypeIDFromEvent`: the identifier of the first object, if it is
  -- a type of the map, or else the event's.
  unfoldable pub type_id_from_event : Store → List O → Uuid → Option Uuid
  type_id_from_event s [] id = if id == nil then none else some id
  type_id_from_event s (x ∷ xs) id =
      if objects.is_a s x then some (objects.get_id s x) else if id == nil then none else some id

  -- The cases of a Create or an Update.
  unfoldable pub on_upsert : ModelData O → Event O → ResourceType → ModelData O
  on_upsert m ev context_resource =
      with_first contexts_by_uuid
        (λ u c.
          reconcile_child_contexts_for_parent (check_context u c)
            (objects.get_id contexts_by_uuid c))
        m ev.objects
  on_upsert m ev node_resource = with_first nodes_by_uuid check_node m ev.objects
  on_upsert m ev context_type_resource =
      with_id reconcile_contexts_referencing_context_type m
        (type_id_from_event context_types_by_uuid ev.objects ev.resource_id)
  on_upsert m ev node_type_resource =
      with_id reconcile_nodes_referencing_node_type m
        (type_id_from_event node_types_by_uuid ev.objects ev.resource_id)
  on_upsert m ev finding_resource =
      with_first findings_by_uuid reconcile_finding_subject m ev.objects
  on_upsert m ev _ = m

  -- The cases of a Delete.
  unfoldable pub on_delete : ModelData O → Event O → ResourceType → ModelData O
  on_delete m ev context_resource = reconcile_child_contexts_for_parent m ev.resource_id
  on_delete m ev context_type_resource =
      reconcile_contexts_referencing_context_type m ev.resource_id
  on_delete m ev node_type_resource = reconcile_nodes_referencing_node_type m ev.resource_id
  on_delete m ev _ = m

  -- `filterFunc`
  unfoldable pub filter_func : ModelData O → Event O → ModelData O × List (Event O)
  filter_func m ev = (
    if ev.operation == create_operation
        then on_upsert m ev ev.resource_type
        else if ev.operation == update_operation
        then on_upsert m ev ev.resource_type
        else if ev.operation == delete_operation
        then on_delete m ev ev.resource_type
        else m,
    ev ∷ [],
  )
