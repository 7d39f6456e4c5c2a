-- ===== src/Resolve/Obsolete.antt =====
-- Which findings the filter deletes.
use modelsrv.Prelude.{
  ◌≡◌, ◌≢◌, refl, ap, sym, ◌∙◌, Bool, true, false, not, ◌&&◌, ◌||◌, Option, none, some, List, [],
  ◌∷◌, ◌==◌, nat_eq, string_eq, if◌then◌else◌, arith, Bool-cases, Option-cases, inl, inr,
}
use modelsrv.Prelude.Dict.{lookup, lookup-delete}
use modelsrv.Event.{Event, Uuid}
use modelsrv.Event.Kind.{ResourceType, resource_type_eq, resource_type_beq, code, finding_resource}
use modelsrv.Model.Stores.{
  Store, store_eq, store_beq, kind_of, store_of, store_of-findings, findings_by_uuid,
  finding_types_by_uuid, api_instances_by_uuid, component_instances_by_uuid,
  system_instances_by_uuid,
}
use modelsrv.Model.State.{ModelData, Objects, after, get_event_enabled}
use modelsrv.Model.Catalog.{get_finding_type_by_id, get_finding_by_id}
use modelsrv.Model.Landscape.{
  get_api_instance_by_id, get_component_instance_by_id, get_system_instance_by_id,
}
use modelsrv.Model.Wiring.{get_by_id_lem}
use modelsrv.Model.Findings.{delete_finding_by_id}
use modelsrv.Resolve.{
  ResourceRef, FindingObjects, ref_matches_event, checked_type, exists, resource_exists,
  dangling_in, is_phase0_finding, is_missing_resource_reference, subject_has_required_ref,
  delete_finding, try_resolve_dangling_ref, try_resolve_missing_resource_reference,
  resolve_candidate, resolve_candidates,
}

module _ {O : Type 0} where
  -- The models differ in their findings at most.
  abbrev pub IsSameBesides : ModelData O → ModelData O → Type 0
  IsSameBesides m u = (s : Store) → s ≢ findings_by_uuid → u.stores s ≡ m.stores s

  exists_same :
      (m u : ModelData O) (id : Uuid) (s : Option Store)
      → IsSameBesides m u
      → (s ≡ some findings_by_uuid → ⊥)
      → exists u id s ≡ exists m id s
  exists_same m u id none h n = refl
  exists_same m u id (some s) h n =
      rw (get_by_id_lem u s id, get_by_id_lem m s id, h s (λ e. n (ap some e))) refl

  resource_exists_same :
      (m u : ModelData O) (id : Uuid) (rt : ResourceType)
      → IsSameBesides m u
      → rt ≢ finding_resource
      → resource_exists u id rt ≡ resource_exists m id rt
  unfolding resource_exists
  resource_exists_same m u id rt h n =
      rw (exists_same m u id (store_of rt) h (λ e. n (store_of-findings rt e))) refl

  -- Whether a reference names the resource of the event.
  abbrev pub any_matches : List (Option ResourceRef) → Event O → Bool
  any_matches [] ev = false
  any_matches (ref ∷ refs) ev = ref_matches_event ref ev || any_matches refs ev

  pub dangling_in_lem :
      (m : ModelData O) (ev : Event O) (refs : List (Option ResourceRef))
      → dangling_in m ev refs
        ≡ (any_matches refs ev && resource_exists m ev.resource_id ev.resource_type)
  unfolding dangling_in
  dangling_in_lem m ev [] = refl
  dangling_in_lem m ev (none ∷ refs) = dangling_in_lem m ev refs
  dangling_in_lem m ev (some ref ∷ refs) = elim (Bool-cases (ref_matches_event (some ref) ev)) [
    | inl e ↦ rw (e, dangling_in_lem m ev refs, same e, type e) (ground arith)
    | inr e ↦ rw (e, dangling_in_lem m ev refs) (ground arith)
  ]
    where
      same : ref_matches_event (some ref) ev ≡ true → ref.resource_id ≡ ev.resource_id
      same e = ground (arith, e, nat_eq.equals_iff ref.resource_id ev.resource_id)

      type : ref_matches_event (some ref) ev ≡ true → checked_type ref ev ≡ ev.resource_type
      type e = ground (arith, e, resource_type_eq.equals_iff ref.resource_type ev.resource_type)

module _ {O : Type 0} (ob : Objects O) where
  delete_finding-IsSameBesides :
      (m : ModelData O) (id : Uuid) → IsSameBesides m (delete_finding ob m id)
  unfolding delete_finding get_finding_by_id get_event_enabled delete_finding_by_id
  delete_finding-IsSameBesides m id s n =
      elim (Option-cases (lookup id (m.stores findings_by_uuid))) [
        | inl e ↦ rw (delete_finding, get_finding_by_id, get_event_enabled, e) refl
        | inr (f, e) ↦
            rw (delete_finding, get_finding_by_id, get_event_enabled, delete_finding_by_id, e)
              (ground (arith, store_eq.equals_iff findings_by_uuid s, n))
      ]

  lookup-delete_finding :
      (m : ModelData O) (id other : Uuid)
      → lookup other ((delete_finding ob m id).stores findings_by_uuid)
        ≡ (if id == other then none else lookup other (m.stores findings_by_uuid))
  unfolding delete_finding get_finding_by_id get_event_enabled delete_finding_by_id store_beq
      kind_of resource_type_beq code
  lookup-delete_finding m id other = elim (Option-cases (lookup id (m.stores findings_by_uuid))) [
    | inl e ↦
        rw (delete_finding, get_finding_by_id, get_event_enabled, e)
          (ground (arith, e, nat_eq.equals_iff id other))
    | inr (f, e) ↦
        rw (delete_finding, get_finding_by_id, get_event_enabled, e, after, delete_finding_by_id, e)
          (lookup-delete id other (m.stores findings_by_uuid))
  ]

module _ {O : Type 0} (ob : Objects O) (fo : FindingObjects O) where
  -- What the filter asks of a finding with these references, once it is no finding of phase 0.
  abbrev pub resolved_by : ModelData O → Event O → O → List (Option ResourceRef) → Bool
  resolved_by m ev f [] = false
  resolved_by m ev f (none ∷ refs) = dangling_in m ev refs
  resolved_by m ev f (some subject ∷ refs) =
      dangling_in m ev refs
      || (is_missing_resource_reference ob fo m f
          && (ref_matches_event (some subject) ev && subject_has_required_ref ob fo m subject))

  -- A finding that is not of phase 0, and that cites the event's resource behind its subject, the
  -- resource being in the model; or that says its subject lacks a reference, the subject being
  -- the event's resource and having it now.
  abbrev pub is_obsolete : ModelData O → Event O → O → Bool
  is_obsolete m ev f = not (is_phase0_finding ob fo m f) && resolved_by m ev f (fo.get_resources f)

  pub resolve_candidate_lem :
      (m : ModelData O) (ev : Event O) (f : O)
      → resolve_candidate ob fo m ev f
        ≡ (if is_obsolete m ev f then delete_finding ob m (ob.get_id findings_by_uuid f) else m)
  unfolding resolve_candidate try_resolve_dangling_ref try_resolve_missing_resource_reference
  resolve_candidate_lem m ev f = rw (by_refs (fo.get_resources f)) (ground arith)
    where
      by_refs :
          (refs : List (Option ResourceRef))
          → (let (u, resolved) = try_resolve_dangling_ref ob fo m f refs ev in
              if resolved then u else try_resolve_missing_resource_reference ob fo u f refs ev)
            ≡ (if resolved_by m ev f refs
                then delete_finding ob m (ob.get_id findings_by_uuid f)
                else m)
      by_refs [] = refl
      by_refs (none ∷ refs) = elim (Bool-cases (dangling_in m ev refs)) [
        | inl e ↦ rw e refl
        | inr e ↦ rw e refl
      ]
      by_refs (some subject ∷ refs) = elim (Bool-cases (dangling_in m ev refs)) [
        | inl e ↦ rw e refl
        | inr e ↦ rw e (ground arith)
      ]

  -- What is asked of a finding is the same as long as only findings are deleted.
  is_obsolete_same :
      (m u : ModelData O) (ev : Event O) (f : O)
      → IsSameBesides m u
      → ev.resource_type ≢ finding_resource
      → is_obsolete u ev f ≡ is_obsolete m ev f
  unfolding is_phase0_finding is_missing_resource_reference subject_has_required_ref
      get_finding_type_by_id get_api_instance_by_id get_component_instance_by_id
      get_system_instance_by_id get_event_enabled
  is_obsolete_same m u ev f h n = by_refs (fo.get_resources f)
    where
      types : u.stores finding_types_by_uuid ≡ m.stores finding_types_by_uuid
      types = h finding_types_by_uuid (λ e. cc)

      apis : u.stores api_instances_by_uuid ≡ m.stores api_instances_by_uuid
      apis = h api_instances_by_uuid (λ e. cc)

      components : u.stores component_instances_by_uuid ≡ m.stores component_instances_by_uuid
      components = h component_instances_by_uuid (λ e. cc)

      systems : u.stores system_instances_by_uuid ≡ m.stores system_instances_by_uuid
      systems = h system_instances_by_uuid (λ e. cc)

      dangling : (refs : List (Option ResourceRef)) → dangling_in u ev refs ≡ dangling_in m ev refs
      dangling refs =
          dangling_in_lem u ev refs
          ∙ (ap (λ b. any_matches refs ev && b)
                (resource_exists_same m u ev.resource_id ev.resource_type h n)
              ∙ sym (dangling_in_lem m ev refs))

      by_refs :
          (refs : List (Option ResourceRef))
          → (not (is_phase0_finding ob fo u f) && resolved_by u ev f refs)
            ≡ (not (is_phase0_finding ob fo m f) && resolved_by m ev f refs)
      by_refs [] = rw (is_phase0_finding, types) refl
      by_refs (none ∷ refs) = rw (dangling refs, is_phase0_finding, types) refl
      by_refs (some subject ∷ refs) =
          rw
            (
              dangling refs,
              is_phase0_finding,
              is_missing_resource_reference,
              subject_has_required_ref,
              types,
              apis,
              components,
              systems,
            )
            refl

  -- Whether one of the candidates has the identifier and is obsolete.
  abbrev pub any_obsolete : ModelData O → Event O → Uuid → List O → Bool
  any_obsolete m ev id [] = false
  any_obsolete m ev id (f ∷ fs) =
      is_obsolete m ev f && ob.get_id findings_by_uuid f == id || any_obsolete m ev id fs

  any_obsolete_same :
      (m u : ModelData O) (ev : Event O) (id : Uuid) (fs : List O)
      → IsSameBesides m u
      → ev.resource_type ≢ finding_resource
      → any_obsolete u ev id fs ≡ any_obsolete m ev id fs
  any_obsolete_same m u ev id [] h n = refl
  any_obsolete_same m u ev id (f ∷ fs) h n =
      rw (is_obsolete_same m u ev f h n, any_obsolete_same m u ev id fs h n) refl

  resolve_candidate-IsSameBesides :
      (m : ModelData O) (ev : Event O) (f : O) → IsSameBesides m (resolve_candidate ob fo m ev f)
  resolve_candidate-IsSameBesides m ev f =
      let id : Uuid = ob.get_id findings_by_uuid f in
      elim (Bool-cases (is_obsolete m ev f)) [
        | inl e ↦ rw (resolve_candidate_lem m ev f, e) (delete_finding-IsSameBesides ob m id)
        | inr e ↦ rw (resolve_candidate_lem m ev f, e) (λ s n. refl)
      ]

  lookup-resolve_candidate :
      (m : ModelData O) (ev : Event O) (f : O) (id : Uuid)
      → lookup id ((resolve_candidate ob fo m ev f).stores findings_by_uuid) ≡ (
          if is_obsolete m ev f && ob.get_id findings_by_uuid f == id
          then none
          else lookup id (m.stores findings_by_uuid))
  lookup-resolve_candidate m ev f id = elim (Bool-cases (is_obsolete m ev f)) [
    | inl e ↦
        rw (resolve_candidate_lem m ev f, e)
          (lookup-delete_finding ob m (ob.get_id findings_by_uuid f) id)
    | inr e ↦ rw (resolve_candidate_lem m ev f, e) refl
  ]

  pub lookup-resolve_candidates :
      (m : ModelData O) (ev : Event O) (fs : List O) (id : Uuid)
      → ev.resource_type ≢ finding_resource
      → lookup id ((resolve_candidates ob fo m ev fs).stores findings_by_uuid)
        ≡ (if any_obsolete m ev id fs then none else lookup id (m.stores findings_by_uuid))
  unfolding resolve_candidates
  lookup-resolve_candidates m ev [] id n = refl
  lookup-resolve_candidates m ev (f ∷ fs) id n =
      let u = resolve_candidate ob fo m ev f in
      lookup-resolve_candidates u ev fs id n
      ∙ rw
          (
            any_obsolete_same m u ev id fs (resolve_candidate-IsSameBesides m ev f) n,
            lookup-resolve_candidate m ev f id,
          )
          (ground arith)

  pub resolve_candidates-IsSameBesides :
      (m : ModelData O) (ev : Event O) (fs : List O)
      → IsSameBesides m (resolve_candidates ob fo m ev fs)
  unfolding resolve_candidates
  resolve_candidates-IsSameBesides m ev [] s n = refl
  resolve_candidates-IsSameBesides m ev (f ∷ fs) s n =
      resolve_candidates-IsSameBesides (resolve_candidate ob fo m ev f) ev fs s n
      ∙ resolve_candidate-IsSameBesides m ev f s n
