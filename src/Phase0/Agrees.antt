-- ===== src/Phase0/Agrees.antt =====
-- `ReconcileAll` makes all findings of the filter right.
use modelsrv.Prelude.{◌≡◌, refl, ◌∙◌, sym, Bool, true, some, nat_eq}
use modelsrv.Prelude.Dict.{lookup}
use modelsrv.Event.{Uuid}
use modelsrv.Model.Stores.{contexts_by_uuid, nodes_by_uuid}
use modelsrv.Model.State.{ModelData, get_event_enabled, get_all_event_enabled}
use modelsrv.Model.Landscape.{get_contexts, get_nodes, get_context_by_id, get_node_by_id}
use modelsrv.Phase0.{
  Checks, check_contexts, check_nodes, check_context, check_node, reconcile_all,
  context_type_check_passes, context_parent_check_passes, node_type_check_passes,
}
use modelsrv.Phase0.Settles.{
  Check, type_check, parent_check, node_check, kind_for, has_finding, IsNamespace,
}
use modelsrv.Phase0.Checked.{
  verdict-subject, demanded, demanded_frame, Agrees, Reconciles, Reconciles-keeps,
}
use modelsrv.Phase0.Loops.{
  IsKeyed, IsRight, Repairs, picks-values, check_listed-Reconciles, check_listed-IsRight,
  check_context-Repairs_type, check_context-Repairs_parent, check_node-Repairs,
}

module _ {O : Type 0} where
  reads_contexts :
      (m : ModelData O) (id : Uuid) → get_context_by_id m id ≡ lookup id (m.stores contexts_by_uuid)
  unfolding get_context_by_id get_event_enabled
  reads_contexts m id = refl

  reads_nodes :
      (m : ModelData O) (id : Uuid) → get_node_by_id m id ≡ lookup id (m.stores nodes_by_uuid)
  unfolding get_node_by_id get_event_enabled
  reads_nodes m id = refl

module _ {O : Type 0} (k : Checks O) where
  -- A loop over all contexts of the model.
  pub listed_contexts :
      (step : ModelData O → O → ModelData O) (chosen : O → Bool) (check : Check) (m : ModelData O)
      → Repairs k contexts_by_uuid step check
      → IsKeyed k contexts_by_uuid m
      → let u = check_contexts k step chosen m (get_contexts m) in
        Reconciles k m u
        × ((id : Uuid) (c : O)
            → lookup id (m.stores contexts_by_uuid) ≡ some c
            → chosen c ≡ true
            → IsRight k m u check id)
  unfolding get_contexts get_all_event_enabled
  listed_contexts step chosen check m repairs keyed =
      let s = contexts_by_uuid in
      let get = get_context_by_id in
      (
        check_listed-Reconciles k s get step chosen (λ e. cc) (λ e. cc) reads_contexts check m
            (get_contexts m) repairs keyed,
        λ id c e h.
            check_listed-IsRight k s get step chosen (λ e. cc) (λ e. cc) reads_contexts check m
              (get_contexts m) id c repairs keyed e
              (picks-values k s chosen id c (m.stores s) e (keyed id c e) h),
      )

  -- A loop over all nodes of the model.
  pub listed_nodes :
      (chosen : O → Bool) (m : ModelData O)
      → IsNamespace k
      → IsKeyed k nodes_by_uuid m
      → let u = check_nodes k chosen m (get_nodes m) in
        Reconciles k m u
        × ((id : Uuid) (n : O)
            → lookup id (m.stores nodes_by_uuid) ≡ some n
            → chosen n ≡ true
            → IsRight k m u node_check id)
  unfolding get_nodes get_all_event_enabled
  listed_nodes chosen m v keyed =
      let s = nodes_by_uuid in
      let get = get_node_by_id in
      (
        check_listed-Reconciles k s get (check_node k) chosen (λ e. cc) (λ e. cc) reads_nodes
            node_check m (get_nodes m) (check_node-Repairs k v) keyed,
        λ id n e h.
            check_listed-IsRight k s get (check_node k) chosen (λ e. cc) (λ e. cc) reads_nodes
              node_check m (get_nodes m) id n (check_node-Repairs k v) keyed e
              (picks-values k s chosen id n (m.stores s) e (keyed id n e) h),
      )

module _ {O : Type 0} (k : Checks O) (v : IsNamespace k) where
  -- After `ReconcileAll` every context and node has the finding of a check exactly if it fails the
  -- check, whatever findings there were before, if contexts and nodes are stored under their own
  -- identifiers, and the identifiers of findings are the outcome of a hash without collisions.
  pub reconcile_all-Agrees :
      (m : ModelData O)
      → IsKeyed k contexts_by_uuid m
      → IsKeyed k nodes_by_uuid m
      → Agrees k (reconcile_all k m)
  unfolding reconcile_all
  reconcile_all-Agrees m ck nk check id b d =
      let u = check_contexts k (check_context k) (λ c. true) m (get_contexts m) in
      let w = check_nodes k (λ n. true) u (get_nodes u) in
      let types =
        listed_contexts k (check_context k) (λ c. true) type_check m
          (check_context-Repairs_type k v) ck in
      let parents =
        listed_contexts k (check_context k) (λ c. true) parent_check m
          (check_context-Repairs_parent k v) ck in
      let f = types.0.0 in
      let nk' : IsKeyed k nodes_by_uuid u = rw (f nodes_by_uuid (λ e. cc) (λ e. cc)) nk in
      let nodes = listed_nodes k (λ n. true) u v nk' in
      let du : demanded k u check id ≡ some b = sym (demanded_frame k u w check id nodes.0.0) ∙ d in
      let dm : demanded k m check id ≡ some b = sym (demanded_frame k m u check id f) ∙ du in
      right check u w types.1 parents.1 nodes du dm
    where
      right :
          (check : Check) (u w : ModelData O)
          → ((id : Uuid) (c : O)
              → lookup id (m.stores contexts_by_uuid) ≡ some c
              → true ≡ true
              → IsRight k m u type_check id)
          → ((id : Uuid) (c : O)
              → lookup id (m.stores contexts_by_uuid) ≡ some c
              → true ≡ true
              → IsRight k m u parent_check id)
          → (Reconciles k u w
              × ((id : Uuid) (n : O)
                  → lookup id (u.stores nodes_by_uuid) ≡ some n
                  → true ≡ true
                  → IsRight k u w node_check id))
          → demanded k u check id ≡ some b
          → demanded k m check id ≡ some b
          → has_finding w (k.finding_id id (kind_for check)) ≡ b
      right type_check u w t p n du dm =
          let (c, e) = verdict-subject k (context_type_check_passes k m) _ b dm in
          Reconciles-keeps k u w type_check id b n.0 du (t id c e refl b dm)
      right parent_check u w t p n du dm =
          let (c, e) = verdict-subject k (context_parent_check_passes k m) _ b dm in
          Reconciles-keeps k u w parent_check id b n.0 du (p id c e refl b dm)
      right node_check u w t p n du dm =
          let (x, e) = verdict-subject k (node_type_check_passes k u) _ b du in n.1 id x e refl b du
