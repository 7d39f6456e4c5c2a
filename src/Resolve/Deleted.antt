-- ===== src/Resolve/Deleted.antt =====
-- The filter deletes the findings that a created or updated resource makes obsolete, and no others.
use modelsrv.Prelude.{
  ◌≡◌, ◌≢◌, ◌↔◌, ◌⊎◌, refl, ◌∙◌, Bool, true, false, Option, none, some, List, [], ◌∷◌, ◌==◌, nat_eq,
  string_eq, if◌then◌else◌, arith, Bool-cases, Option-cases, inl, inr,
}
use modelsrv.Prelude.Dict.{lookup}
use modelsrv.Event.{Event, Uuid, nil}
use modelsrv.Event.Kind.{
  resource_type_eq, resource_type_beq, code, api_instance_resource, component_instance_resource,
  system_instance_resource,
}
use modelsrv.Event.Wire.{operation_eq}
use modelsrv.Model.Stores.{
  api_instances_by_uuid, component_instances_by_uuid, system_instances_by_uuid,
}
use modelsrv.Model.State.{ModelData, Objects, get_event_enabled}
use modelsrv.Model.Landscape.{
  get_api_instance_by_id, get_component_instance_by_id, get_system_instance_by_id,
}
use modelsrv.FindingKinds.{missing_resource_reference}
use modelsrv.Resolve.{
  ResourceRef, FindingObjects, is_relevant, is_phase0_finding, subject_has_required_ref,
}
use modelsrv.Resolve.Concerns.{
  Concerns, is_relevant-Concerns, Cites, ref_matches_event-Cites, AnyCites, any_matches_iff,
  IsPresent, resource_exists-IsPresent,
}
use modelsrv.Resolve.Meaning.{
  IsKind, IsPhase0, is_phase0_finding-IsPhase0, is_missing_resource_reference-IsKind, HasReference,
  refers_in, refers_in-Refers,
}
use modelsrv.Resolve.Obsolete.{IsSameBesides, dangling_in_lem, resolved_by, is_obsolete}
use modelsrv.Resolve.Deletes.{HasIds, filter_func_lem, filter_func-keeps_or_deletes}
use modelsrv.Model.Stores.{findings_by_uuid}
use modelsrv.Model.Findings.Index.{HasIndex}
use modelsrv.Resolve.{dangling_in, filter_func}

module _ {O : Type 0} (ob : Objects O) (fo : FindingObjects O) where
  -- Whether the subject refers to something, by its kind.
  abbrev required : ModelData O → ResourceRef → Bool
  required m subject =
      let id : Uuid = subject.resource_id in
      if subject.resource_type == api_instance_resource
      then refers_in ob fo (lookup id (m.stores api_instances_by_uuid)) fo.get_api_ref
      else if subject.resource_type == component_instance_resource
      then refers_in ob fo (lookup id (m.stores component_instances_by_uuid)) fo.get_component_ref
      else if subject.resource_type == system_instance_resource
      then refers_in ob fo (lookup id (m.stores system_instances_by_uuid)) fo.get_system_ref
      else false

  subject_has_required_ref-required :
      (m : ModelData O) (subject : ResourceRef)
      → subject_has_required_ref ob fo m subject ≡ required m subject
  unfolding subject_has_required_ref get_api_instance_by_id get_component_instance_by_id
      get_system_instance_by_id get_event_enabled
  subject_has_required_ref-required m subject =
      let id : Uuid = subject.resource_id in
      elim (Option-cases (lookup id (m.stores api_instances_by_uuid))) [
        | inl a ↦ elim (Option-cases (lookup id (m.stores component_instances_by_uuid))) [
          | inl c ↦ elim (Option-cases (lookup id (m.stores system_instances_by_uuid))) [
            | inl s ↦ rw (a, c, s) refl
            | inr (z, s) ↦ rw (a, c, s) refl
          ]
          | inr (y, c) ↦ elim (Option-cases (lookup id (m.stores system_instances_by_uuid))) [
            | inl s ↦ rw (a, c, s) refl
            | inr (z, s) ↦ rw (a, c, s) refl
          ]
        ]
        | inr (x, a) ↦ elim (Option-cases (lookup id (m.stores component_instances_by_uuid))) [
          | inl c ↦ elim (Option-cases (lookup id (m.stores system_instances_by_uuid))) [
            | inl s ↦ rw (a, c, s) refl
            | inr (z, s) ↦ rw (a, c, s) refl
          ]
          | inr (y, c) ↦ elim (Option-cases (lookup id (m.stores system_instances_by_uuid))) [
            | inl s ↦ rw (a, c, s) refl
            | inr (z, s) ↦ rw (a, c, s) refl
          ]
        ]
      ]

  required-HasReference :
      (m : ModelData O) (subject : ResourceRef)
      → (required m subject ≡ true) ↔ HasReference ob fo m subject
  unfolding resource_type_beq code
  required-HasReference m subject =
      let id : Uuid = subject.resource_id in
      let api = resource_type_eq.equals_iff subject.resource_type api_instance_resource in
      let component =
        resource_type_eq.equals_iff subject.resource_type component_instance_resource in
      let system = resource_type_eq.equals_iff subject.resource_type system_instance_resource in
      let apis = refers_in-Refers ob fo m api_instances_by_uuid fo.get_api_ref id in
      let components =
        refers_in-Refers ob fo m component_instances_by_uuid fo.get_component_ref id in
      let systems = refers_in-Refers ob fo m system_instances_by_uuid fo.get_system_ref id in
      (
        λ h. elim (Bool-cases (subject.resource_type == api_instance_resource)) [
          | inl a ↦ inl (api.0 a, apis.0 (ground (arith, h, a)))
          | inr a ↦ elim (Bool-cases (subject.resource_type == component_instance_resource)) [
            | inl c ↦ inr (inl (component.0 c, components.0 (ground (arith, h, a, c))))
            | inr c ↦
                inr (inr (system.0 (ground (arith, h, a, c)), systems.0 (ground (arith, h, a, c))))
          ]
        ],
        λ s. elim s [
          | inl (e, r) ↦ rw (e, apis.1 r) refl
          | inr q ↦ elim q [
            | inl (e, r) ↦ rw (e, components.1 r) refl
            | inr (e, r) ↦ rw (e, systems.1 r) refl
          ]
        ],
      )

  -- A reference behind the first names the event's resource, which is in the model.
  abbrev pub IsFound : ModelData O → Event O → List (Option ResourceRef) → Type 0
  IsFound m ev [] = ⊥
  IsFound m ev (subject ∷ refs) = AnyCites ev refs × IsPresent m ev

  -- The first reference names the event's resource, and that refers to something.
  abbrev pub IsSupplied : ModelData O → Event O → List (Option ResourceRef) → Type 0
  IsSupplied m ev [] = ⊥
  IsSupplied m ev (none ∷ refs) = ⊥
  IsSupplied m ev (some subject ∷ refs) = Cites ev subject × HasReference ob fo m subject

  -- The finding is not of phase 0, and what it does not find is found, or what it misses is supplied.
  abbrev pub IsObsolete : ModelData O → Event O → O → Type 0
  IsObsolete m ev f =
      (¬ IsPhase0 ob fo m f)
      × (IsFound m ev (fo.get_resources f)
          ⊎ (IsKind ob fo m f missing_resource_reference × IsSupplied m ev (fo.get_resources f)))

  dangling_in_iff :
      (m : ModelData O) (ev : Event O) (refs : List (Option ResourceRef))
      → ev.resource_id ≢ nil
      → (dangling_in m ev refs ≡ true) ↔ (AnyCites ev refs × IsPresent m ev)
  dangling_in_iff m ev refs n =
      let cited = any_matches_iff ev refs in
      let present = resource_exists-IsPresent m ev n in
      let both = dangling_in_lem m ev refs in
      (
        λ h. (cited.0 (ground (arith, h, both)), present.0 (ground (arith, h, both))),
        λ (c, p). ground (arith, both, cited.1 c, present.1 p),
      )

  resolved_by_iff :
      (m : ModelData O) (ev : Event O) (f : O) (refs : List (Option ResourceRef))
      → ev.resource_id ≢ nil
      → (resolved_by ob fo m ev f refs ≡ true)
        ↔ (IsFound m ev refs ⊎ (IsKind ob fo m f missing_resource_reference × IsSupplied m ev refs))
  resolved_by_iff m ev f [] n =
      (λ h. absurd cc, λ s. elim s [ inl b ↦ absurd b | inr (k, b) ↦ absurd b ])
  resolved_by_iff m ev f (none ∷ refs) n =
      let d = dangling_in_iff m ev refs n in
      (λ h. inl (d.0 h), λ s. elim s [ inl b ↦ d.1 b | inr (k, b) ↦ absurd b ])
  resolved_by_iff m ev f (some subject ∷ refs) n =
      let d = dangling_in_iff m ev refs n in
      let missing = is_missing_resource_reference-IsKind ob fo m f in
      let cites = ref_matches_event-Cites ev subject in
      let supplied = required-HasReference m subject in
      let read = subject_has_required_ref-required m subject in
      (
        λ h. elim (Bool-cases (dangling_in m ev refs)) [
          | inl t ↦ inl (d.0 t)
          | inr t ↦ inr (
            missing.0 (ground (arith, h, t)),
            (cites.0 (ground (arith, h, t)), supplied.0 (ground (arith, h, t, read))),
          )
        ],
        λ s. elim s [
          | inl b ↦ ground (arith, d.1 b)
          | inr (k, (c, r)) ↦ ground (arith, missing.1 k, cites.1 c, supplied.1 r, read)
        ],
      )

  is_obsolete-IsObsolete :
      (m : ModelData O) (ev : Event O) (f : O)
      → ev.resource_id ≢ nil
      → (is_obsolete ob fo m ev f ≡ true) ↔ IsObsolete m ev f
  is_obsolete-IsObsolete m ev f n =
      let phase0 = is_phase0_finding-IsPhase0 ob fo m f in
      let resolved = resolved_by_iff m ev f (fo.get_resources f) n in
      (
        λ h. (λ p. ground (arith, h, phase0.1 p), resolved.0 (ground (arith, h))),
        λ (p, r). elim (Bool-cases (is_phase0_finding ob fo m f)) [
          | inl t ↦ absurd (p (phase0.0 t))
          | inr t ↦ ground (arith, t, resolved.1 r)
        ],
      )

  pub filter_func-IsObsolete :
      (m : ModelData O) (ev : Event O)
      → HasIds ob fo
      → HasIndex ob m
      → let u = (filter_func ob fo m ev).0 in
        ((id : Uuid) (f : O)
          → lookup id (m.stores findings_by_uuid) ≡ some f
          → (lookup id (u.stores findings_by_uuid) ≡ none) ↔ (Concerns ev × IsObsolete m ev f))
        × ((id : Uuid)
            → (lookup id (u.stores findings_by_uuid) ≡ none)
              ⊎ (lookup id (u.stores findings_by_uuid) ≡ lookup id (m.stores findings_by_uuid)))
        × IsSameBesides m u
  filter_func-IsObsolete m ev same v =
      let (deletes, rest) = filter_func_lem ob fo m ev same v in
      let relevant = is_relevant-Concerns ev in
      (
        λ id f e. (
          λ h.
              let r : is_relevant ev ≡ true = ground (arith, deletes id f e, h) in
              let o : is_obsolete ob fo m ev f ≡ true = ground (arith, deletes id f e, h) in
              let c = relevant.0 r in (c, (is_obsolete-IsObsolete m ev f c.3).0 o),
          λ (c, o).
              deletes id f e ∙ rw (relevant.1 c, (is_obsolete-IsObsolete m ev f c.3).1 o) refl,
        ),
        filter_func-keeps_or_deletes ob fo m ev,
        rest,
      )
