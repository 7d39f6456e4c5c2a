-- ===== src/Resolve/Meaning.antt =====
-- What the kind of a finding is, and what an instance refers to.
use modelsrv.Prelude.{
  ◌≡◌, ◌≢◌, ◌↔◌, ◌⊎◌, refl, sym, ◌∙◌, Bool, true, false, ◌||◌, Option, none, some, ◌==◌, nat_eq,
  string_eq, arith, Bool-cases, Option-cases, inl, inr,
}
use modelsrv.Prelude.Dict.{lookup}
use modelsrv.Event.{Uuid, nil}
use modelsrv.Event.Kind.{
  resource_type_eq, api_instance_resource, component_instance_resource, system_instance_resource,
}
use modelsrv.Event.Wire.{operation_eq}
use modelsrv.Model.Stores.{
  Store, finding_types_by_uuid, api_instances_by_uuid, component_instances_by_uuid,
  system_instances_by_uuid,
}
use modelsrv.Model.State.{ModelData, Objects, get_event_enabled}
use modelsrv.Model.Catalog.{get_finding_type_by_id}
use modelsrv.FindingKinds.{
  FindingKind, context_type_missing, context_parent_not_found, node_type_missing,
  missing_resource_reference,
}
use modelsrv.Resolve.{
  ResourceRef, FindingObjects, refers, has_type_id, has_type_name, is_phase0_finding,
  is_missing_resource_reference,
}

module _ {O : Type 0} (ob : Objects O) (fo : FindingObjects O) where
  -- The finding's type has the identifier that stands for the kind, or has its name where it is stored.
  abbrev pub IsKind : ModelData O → O → FindingKind → Type 0
  IsKind m f kind =
      (fo.get_finding_type_id f ≡ fo.type_id_for_kind kind)
      ⊎ ((ft : O) × (lookup (fo.get_finding_type_id f) (m.stores finding_types_by_uuid) ≡ some ft)
          × (ob.get_display_name ft ≡ kind))

  abbrev named : Option O → FindingKind → Bool
  named none kind = false
  named (some ft) kind = ob.get_display_name ft == kind

  abbrev is_kind : ModelData O → O → FindingKind → Bool
  is_kind m f kind =
      fo.get_finding_type_id f == fo.type_id_for_kind kind
      || named (lookup (fo.get_finding_type_id f) (m.stores finding_types_by_uuid)) kind

  is_kind-IsKind :
      (m : ModelData O) (f : O) (kind : FindingKind) → (is_kind m f kind ≡ true) ↔ IsKind m f kind
  is_kind-IsKind m f kind =
      let id : Uuid = fo.get_finding_type_id f in
      let same = nat_eq.equals_iff id (fo.type_id_for_kind kind) in
      (
        λ h. elim (Bool-cases (id == fo.type_id_for_kind kind)) [
          | inl e ↦ inl (same.0 e)
          | inr n ↦ by_type (lookup id (m.stores finding_types_by_uuid)) refl (ground (arith, h, n))
        ],
        λ s. elim s [
          | inl e ↦ ground (arith, same.1 e)
          | inr (ft, e, d) ↦
              rw e (ground (arith, (string_eq.equals_iff (ob.get_display_name ft) kind).1 d))
        ],
      )
    where
      by_type :
          (found : Option O)
          → lookup (fo.get_finding_type_id f) (m.stores finding_types_by_uuid) ≡ found
          → named found kind ≡ true
          → IsKind m f kind
      by_type none e h = absurd cc
      by_type (some ft) e h = inr (ft, e, (string_eq.equals_iff (ob.get_display_name ft) kind).0 h)

  -- One of the three kinds of phase 0.
  abbrev pub IsPhase0 : ModelData O → O → Type 0
  IsPhase0 m f =
      IsKind m f context_type_missing
      ⊎ (IsKind m f context_parent_not_found ⊎ IsKind m f node_type_missing)

  is_phase0_finding-kinds :
      (m : ModelData O) (f : O)
      → is_phase0_finding ob fo m f ≡ (
          is_kind m f context_type_missing
          || (is_kind m f context_parent_not_found || is_kind m f node_type_missing))
  unfolding is_phase0_finding has_type_id has_type_name get_finding_type_by_id get_event_enabled
  is_phase0_finding-kinds m f =
      elim (Option-cases (lookup (fo.get_finding_type_id f) (m.stores finding_types_by_uuid))) [
        | inl e ↦
            rw (is_phase0_finding, get_finding_type_by_id, get_event_enabled, e) (ground arith)
        | inr (ft, e) ↦
            rw (is_phase0_finding, get_finding_type_by_id, get_event_enabled, e) (ground arith)
      ]

  pub is_phase0_finding-IsPhase0 :
      (m : ModelData O) (f : O) → (is_phase0_finding ob fo m f ≡ true) ↔ IsPhase0 m f
  is_phase0_finding-IsPhase0 m f =
      let kinds = is_phase0_finding-kinds m f in
      let type = is_kind-IsKind m f context_type_missing in
      let parent = is_kind-IsKind m f context_parent_not_found in
      let node = is_kind-IsKind m f node_type_missing in
      (
        λ h. elim (Bool-cases (is_kind m f context_type_missing)) [
          | inl t ↦ inl (type.0 t)
          | inr t ↦ elim (Bool-cases (is_kind m f context_parent_not_found)) [
            | inl p ↦ inr (inl (parent.0 p))
            | inr p ↦
                let n : is_kind m f node_type_missing ≡ true = (rw (t, p) at (sym kinds)) ∙ h in
                inr (inr (node.0 n))
          ]
        ],
        λ s. kinds ∙ (elim s [
          | inl t ↦ rw (type.1 t) refl
          | inr q ↦ elim q [ inl p ↦ ground (arith, parent.1 p) | inr n ↦ ground (arith, node.1 n) ]
        ]),
      )

  pub is_missing_resource_reference-IsKind :
      (m : ModelData O) (f : O)
      → (is_missing_resource_reference ob fo m f ≡ true) ↔ IsKind m f missing_resource_reference
  unfolding is_missing_resource_reference has_type_id has_type_name get_finding_type_by_id
      get_event_enabled
  is_missing_resource_reference-IsKind m f = rw kind (is_kind-IsKind m f missing_resource_reference)
    where
      kind : is_missing_resource_reference ob fo m f ≡ is_kind m f missing_resource_reference
      kind =
          elim (Option-cases (lookup (fo.get_finding_type_id f) (m.stores finding_types_by_uuid))) [
            | inl e ↦
                rw (is_missing_resource_reference, get_finding_type_by_id, get_event_enabled, e)
                  (ground arith)
            | inr (ft, e) ↦
                rw (is_missing_resource_reference, get_finding_type_by_id, get_event_enabled, e)
                  (ground arith)
          ]

  -- The map has an instance under the identifier, which refers to something.
  abbrev pub Refers : ModelData O → Store → (O → Option Uuid) → Uuid → Type 0
  Refers m s get id =
      (x : O) × (ref : Uuid) × (lookup id (m.stores s) ≡ some x) × (get x ≡ some ref) × (ref ≢ nil)

  -- The subject is an instance that refers to what it is an instance of.
  abbrev pub HasReference : ModelData O → ResourceRef → Type 0
  HasReference m subject =
      ((subject.resource_type ≡ api_instance_resource)
        × Refers m api_instances_by_uuid fo.get_api_ref subject.resource_id)
      ⊎ (((subject.resource_type ≡ component_instance_resource)
            × Refers m component_instances_by_uuid fo.get_component_ref subject.resource_id)
          ⊎ ((subject.resource_type ≡ system_instance_resource)
              × Refers m system_instances_by_uuid fo.get_system_ref subject.resource_id))

  abbrev pub refers_in : Option O → (O → Option Uuid) → Bool
  refers_in none get = false
  refers_in (some x) get = refers (get x)

  pub refers_in-Refers :
      (m : ModelData O) (s : Store) (get : O → Option Uuid) (id : Uuid)
      → (refers_in (lookup id (m.stores s)) get ≡ true) ↔ Refers m s get id
  refers_in-Refers m s get id = (
    by_found (lookup id (m.stores s)) refl,
    λ (x, ref, l, g, n). rw (l, g) (ground (arith, n, nat_eq.equals_iff ref nil)),
  )
    where
      by_reference :
          (x : O) (found : Option Uuid)
          → lookup id (m.stores s) ≡ some x
          → get x ≡ found
          → refers found ≡ true
          → Refers m s get id
      by_reference x none l g h = absurd cc
      by_reference x (some ref) l g h =
          (x, ref, l, g, λ e. ground (arith, h, nat_eq.equals_iff ref nil, e))

      by_found :
          (found : Option O)
          → lookup id (m.stores s) ≡ found
          → refers_in found get ≡ true
          → Refers m s get id
      by_found none l h = absurd cc
      by_found (some x) l h = by_reference x (get x) l refl h
