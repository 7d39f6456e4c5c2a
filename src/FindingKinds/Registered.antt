-- ===== src/FindingKinds/Registered.antt =====
-- What the registration of a finding type leaves alone.
use modelsrv.Prelude.{
  ◌≡◌, refl, ◌≢◌, not, ◌||◌, ◌==◌, nat_eq, string_eq, arith, Option-cases, Bool-cases, inl, inr,
}
use modelsrv.Event.{nil}
use modelsrv.Model.Stores.{Store, store_eq, finding_types_by_uuid}
use modelsrv.Model.State.{ModelData, Objects, after, add_event_enabled}
use modelsrv.Model.Catalog.{add_finding_type, get_finding_type_by_id}
use modelsrv.Model.References.{get_finding_type_by_name}
use modelsrv.FindingKinds.{
  FindingKind, FindingTypes, backfill_finding_type_description, ensure_finding_type,
  description_for_kind,
}

module _ {O : Type 0} where
  -- The maps but that of finding types are the same.
  abbrev pub KeepsOthers : ModelData O → ModelData O → Type 0
  KeepsOthers m u = (s : Store) → s ≢ finding_types_by_uuid → u.stores s ≡ m.stores s

  add_finding_type-KeepsOthers :
      (ob : Objects O) (m : ModelData O) (x : O) → KeepsOthers m (after m (add_finding_type ob m x))
  unfolding add_finding_type add_event_enabled
  add_finding_type-KeepsOthers ob m x s n =
      elim (Bool-cases (ob.get_id finding_types_by_uuid x == nil)) [
        | inl e ↦ rw e refl
        | inr e ↦ rw e (ground (arith, n, store_eq.equals_iff finding_types_by_uuid s))
      ]

module _ {O : Type 0} (ft : FindingTypes O) where
  backfill-KeepsOthers :
      (m : ModelData O) (type : O) (kind : FindingKind)
      → KeepsOthers m (backfill_finding_type_description ft m type kind)
  unfolding backfill_finding_type_description
  backfill-KeepsOthers m type kind s n =
      elim (Bool-cases (description_for_kind kind == "" || not (ft.get_description type == ""))) [
        | inl e ↦ rw e refl
        | inr e ↦ rw e (add_finding_type-KeepsOthers ft.objects m _ s n)
      ]

  pub ensure_finding_type-KeepsOthers :
      (m : ModelData O) (kind : FindingKind) → KeepsOthers m (ensure_finding_type ft m kind).0
  unfolding ensure_finding_type
  ensure_finding_type-KeepsOthers m kind s n =
      elim (Option-cases (get_finding_type_by_name ft.objects m kind)) [
        | inr (type, e) ↦ rw (ensure_finding_type, e) (backfill-KeepsOthers m type kind s n)
        | inl e ↦ elim (Option-cases (get_finding_type_by_id m (ft.type_id_for_kind kind))) [
          | inr (type, g) ↦ rw (ensure_finding_type, e, g) (backfill-KeepsOthers m type kind s n)
          | inl g ↦ rw (ensure_finding_type, e, g) (add_finding_type-KeepsOthers ft.objects m _ s n)
        ]
      ]
