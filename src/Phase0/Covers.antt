-- ===== src/Phase0/Covers.antt =====
-- What the filter does on an event makes right all that the changed entry may have made wrong.
pub mod Contexts
pub mod Types
use modelsrv.Prelude.{
  ◌≡◌, ◌≢◌, ◌∙◌, sym, subst, Bool, true, false, not, ◌&&◌, none, some, ◌==◌, nat_eq, arith,
  Bool-cases, inl, inr,
}
use modelsrv.Prelude.Dict.{lookup}
use modelsrv.Event.{Uuid, nil}
use modelsrv.Event.Kind.{resource_type_beq, code}
use modelsrv.Model.Stores.{
  Store, store_eq, store_beq, kind_of, contexts_by_uuid, context_types_by_uuid, nodes_by_uuid,
  node_types_by_uuid, findings_by_uuid,
}
use modelsrv.Model.State.{ModelData}
use modelsrv.Model.Landscape.{get_contexts, get_nodes}
use modelsrv.Phase0.{
  Checks, check_contexts, check_nodes, check_context, check_context_parent, check_node,
  reconcile_child_contexts_for_parent, reconcile_contexts_referencing_context_type,
  reconcile_nodes_referencing_node_type,
}
use modelsrv.Phase0.Settles.{Check, type_check, parent_check, node_check, IsNamespace}
use modelsrv.Phase0.Checked.{
  demanded_frame, Agrees, Reconciles, Reconciles-refl, Reconciles-trans, Reconciles-keeps,
}
use modelsrv.Phase0.Loops.{
  IsKeyed, IsRight, check_context-Repairs_type, check_context-Repairs_parent,
  check_context_parent-Repairs, check_node-Repairs,
}
use modelsrv.Phase0.Agrees.{listed_contexts, listed_nodes}
use modelsrv.Phase0.Affected.{IsElsewhere, reads_entry, home, subject, Agrees-elsewhere}

module _ {O : Type 0} (k : Checks O) where
  -- The model afterwards differs in findings only, and those of the checks that read the entry are
  -- right.
  abbrev pub Covers : Store → Uuid → ModelData O → ModelData O → Type 0
  Covers s key u w =
      Reconciles k u w
      × ((check : Check) (id : Uuid) (x : O)
          → lookup id (u.stores (home k check)) ≡ some x
          → reads_entry k s key check id x ≡ true
          → IsRight k u w check id)

  -- So all findings are right, if they were before the entry changed.
  pub Covers-Agrees :
      (m u w : ModelData O) (s : Store) (key : Uuid)
      → IsElsewhere m u s key
      → s ≢ findings_by_uuid
      → Covers s key u w
      → Agrees k m
      → Agrees k w
  Covers-Agrees m u w s key f n (r, c) a check id b d =
      let du = sym (demanded_frame k u w check id r.0) ∙ d in
      let (x, e) = subject k u check id b du in
      elim (Bool-cases (reads_entry k s key check id x)) [
        | inl t ↦ c check id x e t b du
        | inr t ↦
            Reconciles-keeps k u w check id b r du
              (Agrees-elsewhere k m u s key check id b x f n a e t du)
      ]
