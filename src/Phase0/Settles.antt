-- ===== src/Phase0/Settles.antt =====
-- What a check does to the model: one finding is settled, and all else but finding types stays.
use modelsrv.Prelude.{
  ◌≡◌, refl, ◌≢◌, ◌∙◌, Bool, true, false, List, ◌∷◌, ◌==◌, nat_eq, if◌then◌else◌, arith,
  Option-cases, inl, inr,
}
use modelsrv.Prelude.Dict.{lookup, lookup-insert, lookup-delete}
use modelsrv.Event.{Uuid, nil}
use modelsrv.Event.Kind.{resource_type_beq, code}
use modelsrv.Model.Stores.{
  Store, store_eq, store_beq, kind_of, findings_by_uuid, finding_types_by_uuid,
}
use modelsrv.Model.State.{ModelData, after, get_event_enabled}
use modelsrv.Model.Catalog.{get_finding_by_id}
use modelsrv.Model.Findings.{add_finding, delete_finding_by_id}
use modelsrv.FindingKinds.{
  FindingKind, context_type_missing, context_parent_not_found, node_type_missing,
  ensure_finding_type,
}
use modelsrv.FindingKinds.Registered.{ensure_finding_type-KeepsOthers}
use modelsrv.Resolve.{ResourceRef}
use modelsrv.Phase0.{Checks, Description, is_there, delete_finding}

module _ {O : Type 0} where
  -- Only findings and finding types differ.
  abbrev pub IsFrame : ModelData O → ModelData O → Type 0
  IsFrame m u =
      (s : Store) → s ≢ findings_by_uuid → s ≢ finding_types_by_uuid → u.stores s ≡ m.stores s

  abbrev pub has_finding : ModelData O → Uuid → Bool
  has_finding m id = is_there (lookup id (m.stores findings_by_uuid))

  -- The finding is there or not, as the truth value says, and all other findings are as before.
  abbrev pub Settles : ModelData O → ModelData O → Uuid → Bool → Type 0
  Settles m u id b =
      IsFrame m u
      × ((other : Uuid) → has_finding u other ≡ (if id == other then b else has_finding m other))

  pub IsFrame-trans : (m u w : ModelData O) → IsFrame m u → IsFrame u w → IsFrame m w
  IsFrame-trans m u w f g s n t = g s n t ∙ f s n t

-- The three checks.
pub data Check : Type 0 where
  type_check parent_check node_check : Check

abbrev pub kind_for : Check → FindingKind
kind_for type_check = context_type_missing
kind_for parent_check = context_parent_not_found
kind_for node_check = node_type_missing

-- What is asked of the identifiers of findings and of the constructor: `uuid.NewSHA1` gives the nil
-- identifier to no name, and different ones to different subjects and checks.
pub record IsNamespace {O : Type 0} (k : Checks O) : Type 0 where
  pub not_nil : (subject : Uuid) (kind : FindingKind) → k.finding_id subject kind ≢ nil
  pub distinct :
      (subject other : Uuid) (check that : Check)
      → k.finding_id subject (kind_for check) ≡ k.finding_id other (kind_for that)
      → (subject ≡ other) × (check ≡ that)
  pub makes :
      (id type_id : Uuid) (desc : Description) (refs : List ResourceRef)
      → k.types.objects.get_id findings_by_uuid (k.new_finding id type_id desc refs) ≡ id

module _ {O : Type 0} (k : Checks O) where
  add_finding-Settles :
      (m : ModelData O) (f : O)
      → k.types.objects.get_id findings_by_uuid f ≢ nil
      → Settles m
          (after m (add_finding k.types.objects m f))
          (k.types.objects.get_id findings_by_uuid f)
          true
  unfolding add_finding store_beq kind_of resource_type_beq code
  add_finding-Settles m f n =
      let id : Uuid = k.types.objects.get_id findings_by_uuid f in
      let e : (id == nil) ≡ false = ground (arith, n, nat_eq.equals_iff id nil) in
      rw e (
        λ s d t. ground (arith, d, store_eq.equals_iff findings_by_uuid s),
        λ other. rw (lookup-insert id other f (m.stores findings_by_uuid)) (ground arith),
      )

  -- The finding that `upsertFinding` makes.
  abbrev pub new_finding : ModelData O → Description → ResourceRef → List ResourceRef → O
  new_finding m desc subject refs =
      k.new_finding (k.finding_id subject.resource_id desc.kind)
        (ensure_finding_type k.types m desc.kind).1 desc (subject ∷ refs)

  -- The model when it is added, before its event passes through the filter.
  abbrev pub with_finding : ModelData O → Description → ResourceRef → List ResourceRef → ModelData O
  with_finding m desc subject refs =
      let u = (ensure_finding_type k.types m desc.kind).0 in
      after u (add_finding k.types.objects u (new_finding m desc subject refs))

  pub with_finding-Settles :
      (m : ModelData O) (desc : Description) (subject : ResourceRef) (refs : List ResourceRef)
      → IsNamespace k
      → Settles m
          (with_finding m desc subject refs)
          (k.finding_id subject.resource_id desc.kind)
          true
  with_finding-Settles m desc subject refs v =
      let id : Uuid = k.finding_id subject.resource_id desc.kind in
      let u = (ensure_finding_type k.types m desc.kind).0 in
      let f = new_finding m desc subject refs in
      let same : k.types.objects.get_id findings_by_uuid f ≡ id = v.makes id _ desc _ in
      let kept = ensure_finding_type-KeepsOthers k.types m desc.kind in
      let (frame, settled) =
        add_finding-Settles u f (λ p. v.not_nil subject.resource_id desc.kind (rw same at p)) in
      let settled' : (other : Uuid)
          → has_finding (with_finding m desc subject refs) other
            ≡ (if id == other then true else has_finding m other) =
        λ other. rw same at (settled other) ∙ rw (kept findings_by_uuid (λ p. cc)) refl in
      (λ s d t. frame s d t ∙ kept s t, settled')

  pub delete_finding-Settles :
      (m : ModelData O) (subject : Uuid) (kind : FindingKind)
      → Settles m (delete_finding k m subject kind) (k.finding_id subject kind) false
  unfolding delete_finding get_finding_by_id get_event_enabled delete_finding_by_id store_beq
      kind_of resource_type_beq code
  delete_finding-Settles m subject kind =
      let id : Uuid = k.finding_id subject kind in
      elim (Option-cases (lookup id (m.stores findings_by_uuid))) [
        | inl e ↦
            rw (delete_finding, get_finding_by_id, get_event_enabled, e)
              (λ s d t. refl, λ other. ground (arith, e, nat_eq.equals_iff id other))
        | inr (f, e) ↦
            rw
              (
                delete_finding, get_finding_by_id, get_event_enabled, e, after,
                delete_finding_by_id, e,
              )
              (
                λ s d t. ground (arith, d, store_eq.equals_iff findings_by_uuid s),
                λ other. rw (lookup-delete id other (m.stores findings_by_uuid)) (ground arith),
              )
      ]
