-- ===== src/Phase0/Covers/Types.antt =====
-- What the filter does on an event of a type or of a node.
use modelsrv.Prelude.{◌≡◌, subst, true, none, some, ◌==◌, nat_eq, arith, Bool-cases, inl, inr}
use modelsrv.Prelude.Dict.{lookup}
use modelsrv.Event.{Uuid, nil}
use modelsrv.Event.Kind.{resource_type_beq, code}
use modelsrv.Model.Stores.{
  store_eq, store_beq, kind_of, contexts_by_uuid, context_types_by_uuid, nodes_by_uuid,
  node_types_by_uuid,
}
use modelsrv.Model.State.{ModelData}
use modelsrv.Model.Landscape.{get_contexts, get_nodes}
use modelsrv.Phase0.{
  Checks, check_contexts, check_nodes, check_context, check_node,
  reconcile_contexts_referencing_context_type, reconcile_nodes_referencing_node_type,
}
use modelsrv.Phase0.Settles.{Check, type_check, parent_check, node_check, IsNamespace}
use modelsrv.Phase0.Checked.{Reconciles-refl}
use modelsrv.Phase0.Loops.{IsKeyed, IsRight, check_context-Repairs_type, check_node-Repairs}
use modelsrv.Phase0.Agrees.{listed_contexts, listed_nodes}
use modelsrv.Phase0.Affected.{reads_entry, home}
use modelsrv.Phase0.Covers.{Covers}

module _ {O : Type 0} (k : Checks O) (v : IsNamespace k) where
  -- The contexts of a type, whatever was done to the type.
  pub context_type-Covers :
      (u : ModelData O) (key : Uuid)
      → IsKeyed k contexts_by_uuid u
      → Covers k context_types_by_uuid key u (reconcile_contexts_referencing_context_type k u key)
  unfolding reconcile_contexts_referencing_context_type store_beq kind_of resource_type_beq code
  context_type-Covers u key keyed = elim (Bool-cases (key == nil)) [
    | inl e ↦ rw e (Reconciles-refl k u, untouched e)
    | inr e ↦
        let l =
          listed_contexts k (check_context k) (λ c. k.get_context_type_id c == key) type_check u
            (check_context-Repairs_type k v) keyed in
        rw e (
          l.0,
          covered
              (check_contexts k (check_context k) (λ c. k.get_context_type_id c == key) u
                (get_contexts u))
              l.1,
        )
  ]
    where
      untouched :
          (key == nil) ≡ true
          → (check : Check) (id : Uuid) (x : O) → lookup id (u.stores (home k check)) ≡ some x
          → reads_entry k context_types_by_uuid key check id x ≡ true
          → IsRight k u u check id
      untouched n type_check id c e t = absurd (ground (arith, n, t))
      untouched n parent_check id c e t = absurd (ground (arith, t))
      untouched n node_check id c e t = absurd (ground (arith, t))

      covered :
          (w : ModelData O)
          → ((id : Uuid) (c : O)
              → lookup id (u.stores contexts_by_uuid) ≡ some c
              → (k.get_context_type_id c == key) ≡ true
              → IsRight k u w type_check id)
          → (check : Check) (id : Uuid) (x : O) → lookup id (u.stores (home k check)) ≡ some x
          → reads_entry k context_types_by_uuid key check id x ≡ true
          → IsRight k u w check id
      covered w l type_check id c e t = l id c e (
          ground (
            arith,
            t,
            nat_eq.equals_iff (k.get_context_type_id c) key,
            nat_eq.equals_iff key (k.get_context_type_id c),
          ))
      covered w l parent_check id c e t = absurd (ground (arith, t))
      covered w l node_check id c e t = absurd (ground (arith, t))

  -- The nodes of a type, likewise.
  pub node_type-Covers :
      (u : ModelData O) (key : Uuid)
      → IsKeyed k nodes_by_uuid u
      → Covers k node_types_by_uuid key u (reconcile_nodes_referencing_node_type k u key)
  unfolding reconcile_nodes_referencing_node_type store_beq kind_of resource_type_beq code
  node_type-Covers u key keyed = elim (Bool-cases (key == nil)) [
    | inl e ↦ rw e (Reconciles-refl k u, untouched e)
    | inr e ↦
        let l = listed_nodes k (λ n. k.get_node_type_id n == key) u v keyed in
        rw e (l.0, covered (check_nodes k (λ n. k.get_node_type_id n == key) u (get_nodes u)) l.1)
  ]
    where
      untouched :
          (key == nil) ≡ true
          → (check : Check) (id : Uuid) (x : O) → lookup id (u.stores (home k check)) ≡ some x
          → reads_entry k node_types_by_uuid key check id x ≡ true
          → IsRight k u u check id
      untouched n type_check id c e t = absurd (ground (arith, t))
      untouched n parent_check id c e t = absurd (ground (arith, t))
      untouched n node_check id c e t = absurd (ground (arith, n, t))

      covered :
          (w : ModelData O)
          → ((id : Uuid) (n : O)
              → lookup id (u.stores nodes_by_uuid) ≡ some n
              → (k.get_node_type_id n == key) ≡ true
              → IsRight k u w node_check id)
          → (check : Check) (id : Uuid) (x : O) → lookup id (u.stores (home k check)) ≡ some x
          → reads_entry k node_types_by_uuid key check id x ≡ true
          → IsRight k u w check id
      covered w l type_check id c e t = absurd (ground (arith, t))
      covered w l parent_check id c e t = absurd (ground (arith, t))
      covered w l node_check id n e t = l id n e (
          ground (
            arith,
            t,
            nat_eq.equals_iff (k.get_node_type_id n) key,
            nat_eq.equals_iff key (k.get_node_type_id n),
          ))

  pub added_node-Covers :
      (u : ModelData O) (key : Uuid) (obj : O)
      → IsKeyed k nodes_by_uuid u
      → lookup key (u.stores nodes_by_uuid) ≡ some obj
      → Covers k nodes_by_uuid key u (check_node k u obj)
  unfolding store_beq kind_of resource_type_beq code
  added_node-Covers u key obj keyed here =
      let own = check_node-Repairs k v u key obj keyed here in
      (own.0, covered (check_node k u obj) own.1)
    where
      covered :
          (w : ModelData O)
          → IsRight k u w node_check key
          → (check : Check) (id : Uuid) (x : O) → lookup id (u.stores (home k check)) ≡ some x
          → reads_entry k nodes_by_uuid key check id x ≡ true
          → IsRight k u w check id
      covered w own type_check id c e t = absurd (ground (arith, t))
      covered w own parent_check id c e t = absurd (ground (arith, t))
      covered w own node_check id n e t =
          subst (λ j. IsRight k u w node_check j) (ground (arith, t, nat_eq.equals_iff key id)) own

  -- A node that is gone has no check.
  pub deleted_node-Covers :
      (u : ModelData O) (key : Uuid)
      → lookup key (u.stores nodes_by_uuid) ≡ none
      → Covers k nodes_by_uuid key u u
  unfolding store_beq kind_of resource_type_beq code
  deleted_node-Covers u key gone = (Reconciles-refl k u, covered)
    where
      covered :
          (check : Check) (id : Uuid) (x : O)
          → lookup id (u.stores (home k check)) ≡ some x
          → reads_entry k nodes_by_uuid key check id x ≡ true
          → IsRight k u u check id
      covered type_check id c e t = absurd (ground (arith, t))
      covered parent_check id c e t = absurd (ground (arith, t))
      covered node_check id n e t = absurd (ground (arith, gone, e, t, nat_eq.equals_iff key id))
