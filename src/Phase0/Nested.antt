-- ===== src/Phase0/Nested.antt =====
-- What the filter does with the events of its own findings, and so what its checks come to.
use modelsrv.Prelude.{
  ◌≡◌, refl, ◌∙◌, Bool, true, false, not, Option, none, some, List, [], ◌∷◌, ◌==◌, nat_eq,
  string_eq, Option-cases, Bool-cases, inl, inr,
}
use modelsrv.Prelude.Dict.{lookup}
use modelsrv.Event.{Uuid, nil}
use modelsrv.Event.Kind.{
  ResourceType, context_resource, context_type_resource, node_resource, node_type_resource,
}
use modelsrv.Model.Stores.{contexts_by_uuid, nodes_by_uuid, findings_by_uuid}
use modelsrv.Model.State
use modelsrv.Model.State.{ModelData, Result, after, get_event_enabled}
use modelsrv.Model.Landscape.{
  get_context_by_id, get_context_type_by_id, get_node_by_id, get_node_type_by_id,
}
use modelsrv.Model.Findings.{add_finding}
use modelsrv.FindingKinds.{
  FindingKind, context_type_missing, context_parent_not_found, node_type_missing,
  ensure_finding_type,
}
use modelsrv.Resolve.{ResourceRef}
use modelsrv.Phase0.{
  Checks, Description, is_embedded, ref_to, context_type_check_passes, context_parent_check_passes,
  node_type_check_passes, check_context_type, check_context_parent, check_node, delete_finding,
  delete_if, reconcile_kind, reconcile_subject, reconcile_finding_subject, finding_kind_for_type_id,
  filtered_add, upsert_finding,
}
use modelsrv.Phase0.Settles.{
  Check, type_check, parent_check, node_check, kind_for, IsNamespace, new_finding, with_finding,
  with_finding-Settles, delete_finding-Settles,
}
use modelsrv.Phase0.Checked.{
  verdict, demanded, demanded_frame, Reconciles, Reconciles-refl, Reconciles-trans,
  Reconciles-keeps, Settles-Reconciles, Mends, Settles-Mends,
}

module _ {O : Type 0} (k : Checks O) (v : IsNamespace k) where
  delete_if-Reconciles :
      (m : ModelData O) (check : Check) (passes : O → Bool) (found : Option O) (id : Uuid)
      → demanded k m check id ≡ verdict k passes found
      → Reconciles k m (delete_if k m passes found id (kind_for check))
  delete_if-Reconciles m check passes none id d = Reconciles-refl k m
  delete_if-Reconciles m check passes (some x) id d = elim (Bool-cases (passes x)) [
    | inl t ↦ rw t (
        Settles-Reconciles k m (delete_finding k m id (kind_for check)) check id false v
          (d ∙ rw t refl) (delete_finding-Settles k m id (kind_for check)))
    | inr n ↦ rw n (Reconciles-refl k m)
  ]

  reconcile_kind-Reconciles :
      (m : ModelData O) (id : Uuid) (kind : FindingKind)
      → Reconciles k m (reconcile_kind k m id kind)
  unfolding reconcile_kind get_context_by_id get_node_by_id get_event_enabled
  reconcile_kind-Reconciles m id kind = elim (Bool-cases (kind == context_type_missing)) [
    | inl t ↦ rw t (
        delete_if-Reconciles m type_check (context_type_check_passes k m) (get_context_by_id m id)
          id refl)
    | inr t ↦ elim (Bool-cases (kind == context_parent_not_found)) [
      | inl p ↦
          rw (t, p)
            (delete_if-Reconciles m parent_check (context_parent_check_passes k m)
              (get_context_by_id m id) id refl)
      | inr p ↦ elim (Bool-cases (kind == node_type_missing)) [
        | inl n ↦
            rw (t, p, n)
              (delete_if-Reconciles m node_check (node_type_check_passes k m) (get_node_by_id m id)
                id refl)
        | inr n ↦ rw (t, p, n) (Reconciles-refl k m)
      ]
    ]
  ]

  -- A finding that is added, by whom ever, is left alone or taken back if its subject passes.
  pub reconcile_finding_subject-Reconciles :
      (m : ModelData O) (f : O) → Reconciles k m (reconcile_finding_subject k m f)
  unfolding reconcile_finding_subject
  reconcile_finding_subject-Reconciles m f =
      by_subject (k.get_resources f) (finding_kind_for_type_id k m (k.get_finding_type_id f))
    where
      by_subject :
          (refs : List (Option ResourceRef)) (kind : Option FindingKind)
          → Reconciles k m (reconcile_subject k m refs kind)
      by_subject [] kind = Reconciles-refl k m
      by_subject (none ∷ refs) kind = Reconciles-refl k m
      by_subject (some subject ∷ refs) none = Reconciles-refl k m
      by_subject (some subject ∷ refs) (some kind) =
          reconcile_kind-Reconciles m subject.resource_id kind

  filtered_add-Reconciles :
      (m : ModelData O) (f : O) (r : Result (ModelData O))
      → Reconciles k (after m r) (filtered_add k m f r)
  filtered_add-Reconciles m f (State.err e) = Reconciles-refl k m
  filtered_add-Reconciles m f (State.ok u) =
      elim (Bool-cases (k.types.objects.is_a findings_by_uuid f)) [
        | inl t ↦ rw t (reconcile_finding_subject-Reconciles u f)
        | inr n ↦ rw n (Reconciles-refl k u)
      ]

  -- A finding that is demanded is there after `upsertFinding`, the filter's call included.
  upsert_finding-Mends :
      (m : ModelData O) (check : Check) (id : Uuid) (reference : Option Uuid) (rt : ResourceType)
      (refs : List ResourceRef)
      → demanded k m check id ≡ some true
      → Mends k m
          (upsert_finding k m
            (record { kind = kind_for check; subject = id; reference = reference })
            (ref_to id rt)
            refs)
          check
          id
  unfolding upsert_finding
  upsert_finding-Mends m check id reference rt refs d =
      let desc : Description = record {
        kind = kind_for check;
        subject = id;
        reference = reference;
      } in
      let t = (ensure_finding_type k.types m desc.kind).0 in
      let f = new_finding k m desc (ref_to id rt) refs in
      let u = with_finding k m desc (ref_to id rt) refs in
      let w = upsert_finding k m desc (ref_to id rt) refs in
      let added = with_finding-Settles k m desc (ref_to id rt) refs v in
      let mended = Settles-Mends k m u check id true v d added in
      let nested = filtered_add-Reconciles t f (add_finding k.types.objects t f) in
      (
        Reconciles-trans k m u w mended.0 nested,
        λ b e.
            Reconciles-keeps k u w check id b nested (demanded_frame k m u check id added.0 ∙ e)
              (mended.1 b e),
      )

  -- So a check of a stored resource makes its finding right.
  pub check_context_type-Mends :
      (m : ModelData O) (c : O)
      → lookup (k.types.objects.get_id contexts_by_uuid c) (m.stores contexts_by_uuid) ≡ some c
      → Mends k m (check_context_type k m c) type_check (k.types.objects.get_id contexts_by_uuid c)
  unfolding check_context_type context_type_check_passes
  check_context_type-Mends m c h =
      let id : Uuid = k.types.objects.get_id contexts_by_uuid c in
      let type_id : Uuid = k.get_context_type_id c in
      let d : demanded k m type_check id ≡ some (not (context_type_check_passes k m c)) =
        rw h refl in
      elim (Bool-cases (type_id == nil)) [
        | inl e ↦
            rw e (upsert_finding-Mends m type_check id none context_resource [] (d ∙ rw e refl))
        | inr e ↦ elim (Option-cases (get_context_type_by_id m type_id)) [
          | inl g ↦
              rw (e, g)
                (upsert_finding-Mends m type_check id (some type_id) context_resource
                  (ref_to type_id context_type_resource ∷ []) (d ∙ rw (e, g) refl))
          | inr (type, g) ↦
              rw (e, g)
                (Settles-Mends k m (delete_finding k m id context_type_missing) type_check id false
                  v (d ∙ rw (e, g) refl) (delete_finding-Settles k m id context_type_missing))
        ]
      ]

  pub check_context_parent-Mends :
      (m : ModelData O) (c : O)
      → lookup (k.types.objects.get_id contexts_by_uuid c) (m.stores contexts_by_uuid) ≡ some c
      → Mends k m
          (check_context_parent k m c)
          parent_check
          (k.types.objects.get_id contexts_by_uuid c)
  unfolding check_context_parent context_parent_check_passes
  check_context_parent-Mends m c h =
      let id : Uuid = k.types.objects.get_id contexts_by_uuid c in
      let parent_id : Uuid = k.get_parent_id c in
      let d : demanded k m parent_check id ≡ some (not (context_parent_check_passes k m c)) =
        rw h refl in
      let deleted = delete_finding-Settles k m id context_parent_not_found in
      elim (Bool-cases (parent_id == nil)) [
        | inl e ↦ rw e (
            Settles-Mends k m (delete_finding k m id context_parent_not_found) parent_check id false
              v (d ∙ rw e refl) deleted)
        | inr e ↦ elim (Option-cases (get_context_by_id m parent_id)) [
          | inl g ↦
              rw (e, g)
                (upsert_finding-Mends m parent_check id (some parent_id) context_resource
                  (ref_to parent_id context_resource ∷ []) (d ∙ rw (e, g) refl))
          | inr (parent, g) ↦
              rw (e, g)
                (Settles-Mends k m (delete_finding k m id context_parent_not_found) parent_check id
                  false v (d ∙ rw (e, g) refl) deleted)
        ]
      ]

  pub check_node-Mends :
      (m : ModelData O) (n : O)
      → lookup (k.types.objects.get_id nodes_by_uuid n) (m.stores nodes_by_uuid) ≡ some n
      → Mends k m (check_node k m n) node_check (k.types.objects.get_id nodes_by_uuid n)
  unfolding check_node node_type_check_passes
  check_node-Mends m n p =
      let id : Uuid = k.types.objects.get_id nodes_by_uuid n in
      let type_id : Uuid = k.get_node_type_id n in
      let d : demanded k m node_check id ≡ some (not (node_type_check_passes k m n)) = rw p refl in
      let deleted = delete_finding-Settles k m id node_type_missing in
      let passed =
        Settles-Mends k m (delete_finding k m id node_type_missing) node_check id false v in
      elim (Bool-cases (type_id == nil)) [
        | inl e ↦ elim (Option-cases (k.get_node_type n)) [
          | inl g ↦
              rw (e, g)
                (upsert_finding-Mends m node_check id none node_resource [] (d ∙ rw (e, g) refl))
          | inr (embedded, g) ↦ rw (e, g) (passed (d ∙ rw (e, g) refl) deleted)
        ]
        | inr e ↦ elim (Option-cases (get_node_type_by_id m type_id)) [
          | inr (type, g) ↦ rw (e, g) (passed (d ∙ rw (e, g) refl) deleted)
          | inl g ↦ elim (Bool-cases (is_embedded (k.get_node_type n) type_id)) [
            | inl h ↦ rw (e, g, h) (passed (d ∙ rw (e, g, h) refl) deleted)
            | inr h ↦
                rw (e, g, h)
                  (upsert_finding-Mends m node_check id (some type_id) node_resource
                    (ref_to type_id node_type_resource ∷ []) (d ∙ rw (e, g, h) refl))
          ]
        ]
      ]
