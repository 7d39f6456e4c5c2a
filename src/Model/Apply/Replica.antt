-- ===== src/Model/Apply/Replica.antt =====
-- A replica that applies the events of a model, in the order in which the model sent them.
use modelsrv.Prelude.{◌≡◌, refl, ◌∙◌, ap, true, Option, none, some, List, [], ◌∷◌, ◌++◌, nat_eq}
use modelsrv.Prelude.Dict.{lookup}
use modelsrv.Event.{Event, Uuid}
use modelsrv.Model.Stores.{Store, store_eq, kind_of, node_types_by_uuid}
use modelsrv.Model.State
use modelsrv.Model.State.{
  ModelData, Objects, Result, new_model, after, add_operation, add_event_enabled,
  delete_event_enabled, not_found,
}
use modelsrv.Model.Calls.{Call, adds, deletes, perform, perform_all, get_by_id}
use modelsrv.Model.Apply.{
  handler_registry, apply, apply_first, apply_operation, apply_replication_upsert,
  apply_replication_delete,
}
use modelsrv.Model.Apply.Handler.{ResourceHandler, handler, Applied, ok, err, applied}
use modelsrv.Model.Apply.Handlers.{
  node_type_handler, node_handler, context_handler, context_type_handler, system_handler,
  api_handler, component_handler, system_instance_handler, api_instance_handler,
  component_instance_handler, org_unit_handler, group_handler, identity_handler,
  permission_spec_handler, role_spec_handler, permission_handler, role_handler, binding_handler,
}
use modelsrv.Model.Apply.MoreHandlers.{
  finding_handler, finding_type_handler, artifact_handler, artifact_instance_handler,
  product_handler, filter_rule_handler, merge_rule_handler, capability_handler, parameter_handler,
  capacity_resource_type_handler, capacity_handler,
}
use modelsrv.Model.Effects.{event_of, Sends, perform-Sends}

module _ {O : Type 0} (ob : Objects O) where
  -- The handler that the model's own methods make.
  abbrev pub handler_at : Store → ResourceHandler O
  handler_at s =
      handler ob s (λ m obj. perform ob m (adds s obj)) (λ m id. perform ob m (deletes s id))
        (λ m id. get_by_id m s id)

  -- Each kind has a handler, which calls the methods of that kind.
  pub handler_registry-kind_of : (s : Store) → handler_registry ob (kind_of s) ≡ some (handler_at s)
  unfolding handler_registry perform get_by_id kind_of node_type_handler node_handler
      context_handler context_type_handler system_handler api_handler component_handler
      system_instance_handler api_instance_handler component_instance_handler finding_handler
      finding_type_handler artifact_handler artifact_instance_handler org_unit_handler group_handler
      identity_handler permission_spec_handler role_spec_handler permission_handler role_handler
      binding_handler product_handler filter_rule_handler merge_rule_handler capability_handler
      parameter_handler capacity_resource_type_handler capacity_handler
  handler_registry-kind_of node_types_by_uuid = refl
  handler_registry-kind_of _ = refl

  -- Each object is of the type that its map holds.
  abbrev pub IsTyped : Call O → Type 0
  IsTyped (adds s obj) = ob.is_a s obj ≡ true
  IsTyped (deletes s id) = Unit

  abbrev pub AllTyped : List (Call O) → Type 0
  AllTyped [] = Unit
  AllTyped (c ∷ cs) = IsTyped c × AllTyped cs

  apply_replication_upsert_lem :
      (m : ModelData O) (s : Store) (obj : O)
      → ob.is_a s obj ≡ true
      → apply_replication_upsert ob m (kind_of s) obj ≡ applied (perform ob m (adds s obj))
  unfolding apply_replication_upsert
  apply_replication_upsert_lem m s obj t =
      rw (apply_replication_upsert, handler_registry-kind_of s) (rw t refl)

  apply_replication_delete_lem :
      (m u : ModelData O) (s : Store) (id : Uuid)
      → perform ob m (deletes s id) ≡ State.ok u
      → apply_replication_delete ob m (kind_of s) id ≡ ok u
  unfolding apply_replication_delete
  apply_replication_delete_lem m u s id e =
      rw (apply_replication_delete, handler_registry-kind_of s) (rw e refl)

  apply-upsert :
      (m : ModelData O) (s : Store) (obj : O) (old : Option O)
      → ob.is_a s obj ≡ true
      → apply ob m (record {
        resource_type = kind_of s;
        operation = add_operation old;
        resource_id = ob.get_id s obj;
        objects = obj ∷ [];
      })
        ≡ applied (perform ob m (adds s obj))
  unfolding apply apply_operation apply_first
  apply-upsert m s obj none t = apply_replication_upsert_lem m s obj t
  apply-upsert m s obj (some x) t = apply_replication_upsert_lem m s obj t

  -- The event of a call has the replica make the same call.
  apply-event_of :
      (m u : ModelData O) (c : Call O)
      → IsTyped c
      → perform ob m c ≡ State.ok u
      → apply ob m (event_of ob m c) ≡ ok u
  unfolding apply apply_operation
  apply-event_of m u (adds s obj) t e =
      apply-upsert m s obj (lookup (ob.get_id s obj) (m.stores s)) t ∙ rw e refl
  apply-event_of m u (deletes s id) t e = apply_replication_delete_lem m u s id e

  abbrev pub and_then :
      Applied (ModelData O) → (ModelData O → Applied (ModelData O)) → Applied (ModelData O)
  and_then (ok u) f = f u
  and_then (err e) f = err e

  -- A replica that stops at the first event that it cannot apply.
  unfoldable pub apply_all : ModelData O → List (Event O) → Applied (ModelData O)
  apply_all m [] = ok m
  apply_all m (ev ∷ evs) = and_then (apply ob m ev) (λ u. apply_all u evs)

  and_then-ok : (r : Applied (ModelData O)) → and_then r (λ u. ok u) ≡ r
  and_then-ok (ok u) = refl
  and_then-ok (err e) = refl

  and_then-and_then :
      (r : Applied (ModelData O)) (f g h : ModelData O → Applied (ModelData O))
      → ((u : ModelData O) → f u ≡ and_then (g u) h)
      → and_then r f ≡ and_then (and_then r g) h
  and_then-and_then (ok u) f g h e = e u
  and_then-and_then (err x) f g h e = refl

  apply_all-snoc :
      (m : ModelData O) (evs : List (Event O)) (ev : Event O)
      → apply_all m (evs ++ (ev ∷ [])) ≡ and_then (apply_all m evs) (λ u. apply ob u ev)
  unfolding apply_all
  apply_all-snoc m [] ev = and_then-ok (apply ob m ev)
  apply_all-snoc m (x ∷ evs) ev =
      and_then-and_then (apply ob m x) (λ u. apply_all u (evs ++ (ev ∷ []))) (λ u. apply_all u evs)
        (λ u. apply ob u ev) (λ u. apply_all-snoc u evs ev)

  -- One more call, on a model that the replica has caught up with.
  caught_up_after :
      (start m : ModelData O) (c : Call O) (r : Result (ModelData O))
      → IsTyped c
      → perform ob m c ≡ r
      → Sends ob m (event_of ob m c) r
      → apply_all start m.sink ≡ ok m
      → apply_all start (after m r).sink ≡ ok (after m r)
  caught_up_after start m c (State.err x) t e sent h = h
  caught_up_after start m c (State.ok u) t e sent h =
      ap (apply_all start) sent
      ∙ (apply_all-snoc start m.sink (event_of ob m c)
          ∙ (ap (λ a. and_then a (λ v. apply ob v (event_of ob m c))) h ∙ apply-event_of m u c t e))

  caught_up :
      (start m : ModelData O) (cs : List (Call O))
      → AllTyped cs
      → apply_all start m.sink ≡ ok m
      → apply_all start (perform_all ob m cs).sink ≡ ok (perform_all ob m cs)
  unfolding perform_all
  caught_up start m [] t h = h
  caught_up start m (c ∷ cs) t h =
      caught_up start (after m (perform ob m c)) cs t.1
        (caught_up_after start m c (perform ob m c) t.0 refl (perform-Sends ob m c) h)

  -- A new model that applies all events of another, in order, can apply each of them and becomes
  -- equal to the other, indexes included, if the objects that the other was given are of the types
  -- that its methods take.
  pub apply_all-perform_all :
      (cs : List (Call O))
      → AllTyped cs
      → apply_all new_model (perform_all ob new_model cs).sink ≡ ok (perform_all ob new_model cs)
  unfolding new_model apply_all
  apply_all-perform_all cs t = caught_up new_model new_model cs t refl
