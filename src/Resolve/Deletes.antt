-- ===== src/Resolve/Deletes.antt =====
-- The filter deletes exactly the obsolete findings.
use mathlib.Core.List.{Memᴰ}
use mathlib.Core.List.Memᴰ
use modelsrv.Prelude.{
  ◌≡◌, ◌≢◌, refl, ap, sym, ◌∙◌, true, ◌&&◌, Option, none, some, List, [], ◌∷◌, ◌==◌, nat_eq,
  if◌then◌else◌, arith, Bool-cases, inl, inr, ◌⊎◌,
}
use modelsrv.Prelude.Dict.{lookup}
use modelsrv.Event.{Event, Uuid, nil}
use modelsrv.Event.Kind.{resource_type_eq, finding_resource}
use modelsrv.Event.Wire.{operation_eq}
use modelsrv.Model.Stores.{findings_by_uuid}
use modelsrv.Model.State.{ModelData, Objects}
use modelsrv.Model.Findings.{get_findings_referencing_resource}
use modelsrv.Model.Findings.Cited.{names}
use modelsrv.Model.Findings.Index.{HasIndex}
use modelsrv.Model.Findings.Referencing.{get_findings_referencing_resource_lem}
use modelsrv.Resolve.{ResourceRef, FindingObjects, resolve_against_event, is_relevant, filter_func}
use modelsrv.Resolve.Obsolete.{
  IsSameBesides, any_matches, dangling_in_lem, resolved_by, is_obsolete, any_obsolete,
  lookup-resolve_candidates, resolve_candidates-IsSameBesides,
}

-- The identifiers of references.
abbrev pub ids : List (Option ResourceRef) → List (Option Uuid)
ids [] = []
ids (none ∷ refs) = none ∷ ids refs
ids (some ref ∷ refs) = some ref.resource_id ∷ ids refs

-- The getter of the model reads the identifiers of the same references.
abbrev pub HasIds : {O : Type 0} → Objects O → FindingObjects O → Type 0
HasIds {O} ob fo = (f : O) → ob.get_resources f ≡ ids (fo.get_resources f)

not_finding :
    {O : Type 0} (ev : Event O) → is_relevant ev ≡ true → ev.resource_type ≢ finding_resource
not_finding ev r p =
    ground (arith, r, p, resource_type_eq.equals_iff ev.resource_type finding_resource)

module _ {O : Type 0} (ob : Objects O) (fo : FindingObjects O) where
  names-any_matches :
      (refs : List (Option ResourceRef)) (ev : Event O)
      → any_matches refs ev ≡ true
      → names ev.resource_id (ids refs) ≡ true
  names-any_matches [] ev h = h
  names-any_matches (none ∷ refs) ev h = names-any_matches refs ev h
  names-any_matches (some ref ∷ refs) ev h = ground (arith, h, names-any_matches refs ev)

  names-resolved_by :
      (m : ModelData O) (ev : Event O) (f : O) (refs : List (Option ResourceRef))
      → resolved_by ob fo m ev f refs ≡ true
      → names ev.resource_id (ids refs) ≡ true
  names-resolved_by m ev f [] h = absurd cc
  names-resolved_by m ev f (none ∷ refs) h =
      names-any_matches refs ev (ground (arith, h, dangling_in_lem m ev refs))
  names-resolved_by m ev f (some subject ∷ refs) h =
      ground (arith, h, dangling_in_lem m ev refs, names-any_matches refs ev)

  any_obsolete-Mem :
      (m : ModelData O) (ev : Event O) (id : Uuid) (fs : List O)
      → any_obsolete ob fo m ev id fs ≡ true
      → (g : O) × Memᴰ g fs
        × (is_obsolete ob fo m ev g ≡ true)
        × (ob.get_id findings_by_uuid g ≡ id)
  any_obsolete-Mem m ev id [] h = absurd cc
  any_obsolete-Mem m ev id (f ∷ fs) h =
      elim (Bool-cases (is_obsolete ob fo m ev f && ob.get_id findings_by_uuid f == id)) [
        | inl e ↦ (
          f,
          Memᴰ.head refl,
          ground (arith, e),
          ground (arith, e, nat_eq.equals_iff (ob.get_id findings_by_uuid f) id),
        )
        | inr e ↦
            let (g, n, o, k) = any_obsolete-Mem m ev id fs (ground (arith, e, h)) in
            (g, Memᴰ.tail n, o, k)
      ]

  Mem-any_obsolete :
      (m : ModelData O) (ev : Event O) (id : Uuid) (fs : List O) (g : O)
      → Memᴰ g fs
      → is_obsolete ob fo m ev g ≡ true
      → ob.get_id findings_by_uuid g ≡ id
      → any_obsolete ob fo m ev id fs ≡ true
  Mem-any_obsolete m ev id [] g n o k = absurd (Memᴰ.not-nil n)
  Mem-any_obsolete m ev id (f ∷ fs) g (Memᴰ.head q) o k =
      let p : f ≡ g = sym q in
      rw (p, o) (ground (arith, k, nat_eq.equals_iff (ob.get_id findings_by_uuid g) id))
  Mem-any_obsolete m ev id (f ∷ fs) g (Memᴰ.tail n) o k =
      ground (arith, Mem-any_obsolete m ev id fs g n o k)

  any_obsolete_candidates :
      (m : ModelData O) (ev : Event O) (id : Uuid) (f : O)
      → HasIds ob fo
      → HasIndex ob m
      → ev.resource_id ≢ nil
      → lookup id (m.stores findings_by_uuid) ≡ some f
      → any_obsolete ob fo m ev id (get_findings_referencing_resource m ev.resource_id)
        ≡ is_obsolete ob fo m ev f
  any_obsolete_candidates m ev id f same v n e =
      let fs = get_findings_referencing_resource m ev.resource_id in
      elim (Bool-cases (is_obsolete ob fo m ev f)) [
        | inl o ↦
            let cited : names ev.resource_id (ob.get_resources f) ≡ true =
              rw (same f) (names-resolved_by m ev f (fo.get_resources f) (ground (arith, o))) in
            Mem-any_obsolete m ev id fs f
              ((get_findings_referencing_resource_lem ob m ev.resource_id f v).1 n (id, e, cited)) o
              (v.keyed id f e)
            ∙ sym o
        | inr o ↦ elim (Bool-cases (any_obsolete ob fo m ev id fs)) [
          | inl a ↦
              let (g, found, og, k) = any_obsolete-Mem m ev id fs a in
              let (_, (i, l, _)) =
                (get_findings_referencing_resource_lem ob m ev.resource_id g v).0 found in
              let i_id : i ≡ id = sym (v.keyed i g l) ∙ k in
              let g_f : g ≡ f = ground (arith, l, e, i_id) in
              a ∙ (sym og ∙ ap (λ x. is_obsolete ob fo m ev x) g_f)
          | inr a ↦ a ∙ sym o
        ]
      ]

  -- Of the stored findings the filter deletes the obsolete ones, on an event that it looks at.
  pub filter_func_lem :
      (m : ModelData O) (ev : Event O)
      → HasIds ob fo
      → HasIndex ob m
      → ((id : Uuid) (f : O)
          → lookup id (m.stores findings_by_uuid) ≡ some f
          → lookup id ((filter_func ob fo m ev).0.stores findings_by_uuid)
            ≡ (if is_relevant ev && is_obsolete ob fo m ev f then none else some f))
        × IsSameBesides m (filter_func ob fo m ev).0
  unfolding filter_func resolve_against_event
  filter_func_lem m ev same v =
      let fs = get_findings_referencing_resource m ev.resource_id in
      elim (Bool-cases (is_relevant ev)) [
        | inl r ↦ rw r (
          λ id f e.
              lookup-resolve_candidates ob fo m ev fs id (not_finding ev r)
              ∙ rw (any_obsolete_candidates m ev id f same v (not_nil r) e, e) refl,
          resolve_candidates-IsSameBesides ob fo m ev fs,
        )
        | inr r ↦ rw r (λ id f e. e, λ s n. refl)
      ]
    where
      not_nil : is_relevant ev ≡ true → ev.resource_id ≢ nil
      not_nil r p = ground (arith, r, p, nat_eq.equals_iff ev.resource_id nil)

  -- It adds none and changes none.
  pub filter_func-keeps_or_deletes :
      (m : ModelData O) (ev : Event O) (id : Uuid)
      → (lookup id ((filter_func ob fo m ev).0.stores findings_by_uuid) ≡ none)
        ⊎ (lookup id ((filter_func ob fo m ev).0.stores findings_by_uuid)
            ≡ lookup id (m.stores findings_by_uuid))
  unfolding filter_func resolve_against_event
  filter_func-keeps_or_deletes m ev id =
      let fs = get_findings_referencing_resource m ev.resource_id in
      elim (Bool-cases (is_relevant ev)) [
        | inr r ↦ rw r (inr refl)
        | inl r ↦
            let found = lookup-resolve_candidates ob fo m ev fs id (not_finding ev r) in
            elim (Bool-cases (any_obsolete ob fo m ev id fs)) [
              | inl a ↦ rw r (inl (found ∙ rw a refl))
              | inr a ↦ rw r (inr (found ∙ rw a refl))
            ]
      ]
