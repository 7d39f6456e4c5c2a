-- ===== src/Phase0/Covers/Contexts.antt =====
-- What the filter does on an event of a context.
use modelsrv.Prelude.{
  ◌≡◌, ◌∙◌, subst, Bool, true, false, not, ◌&&◌, none, some, ◌==◌, nat_eq, arith, Bool-cases, inl,
  inr,
}
use modelsrv.Prelude.Dict.{lookup}
use modelsrv.Event.{Uuid, nil}
use modelsrv.Event.Kind.{resource_type_beq, code}
use modelsrv.Model.Stores.{store_eq, store_beq, kind_of, contexts_by_uuid}
use modelsrv.Model.State.{ModelData}
use modelsrv.Phase0.{
  Checks, check_context, check_context_parent, reconcile_child_contexts_for_parent,
}
use modelsrv.Phase0.Settles.{Check, type_check, parent_check, node_check, IsNamespace}
use modelsrv.Phase0.Checked.{
  demanded_frame, Reconciles, Reconciles-refl, Reconciles-trans, Reconciles-keeps,
}
use modelsrv.Phase0.Loops.{
  IsKeyed, IsRight, check_context-Repairs_type, check_context-Repairs_parent,
  check_context_parent-Repairs,
}
use modelsrv.Phase0.Agrees.{listed_contexts}
use modelsrv.Phase0.Affected.{reads_entry, home}
use modelsrv.Phase0.Covers.{Covers}

module _ {O : Type 0} (k : Checks O) (v : IsNamespace k) where
  -- The children of a parent.
  pub children :
      (u : ModelData O) (key : Uuid)
      → IsKeyed k contexts_by_uuid u
      → let w = reconcile_child_contexts_for_parent k u key in
        Reconciles k u w
        × ((id : Uuid) (c : O)
            → lookup id (u.stores contexts_by_uuid) ≡ some c
            → (key == k.get_parent_id c && not (key == nil)) ≡ true
            → IsRight k u w parent_check id)
  unfolding reconcile_child_contexts_for_parent
  children u key keyed = elim (Bool-cases (key == nil)) [
    | inl e ↦ rw e (Reconciles-refl k u, λ id c h t. absurd (contradicts _ t))
    | inr e ↦
        let l =
          listed_contexts k (check_context_parent k) (λ c. k.get_parent_id c == key) parent_check u
            (check_context_parent-Repairs k v) keyed in
        rw e (
          l.0,
          λ id c h t. l.1 id c h (
              ground (
                arith,
                t,
                nat_eq.equals_iff (k.get_parent_id c) key,
                nat_eq.equals_iff key (k.get_parent_id c),
              )),
        )
  ]
    where
      contradicts : (b : Bool) → (b && false) ≡ true → ⊥
      contradicts b h = ground (arith, h)

  pub deleted_context-Covers :
      (u : ModelData O) (key : Uuid)
      → IsKeyed k contexts_by_uuid u
      → lookup key (u.stores contexts_by_uuid) ≡ none
      → Covers k contexts_by_uuid key u (reconcile_child_contexts_for_parent k u key)
  unfolding store_beq kind_of resource_type_beq code
  deleted_context-Covers u key keyed gone = let (r, p) = children u key keyed in (r, covered p)
    where
      differs :
          (id : Uuid) (c : O) → lookup id (u.stores contexts_by_uuid) ≡ some c → (key == id) ≡ false
      differs id c e = ground (arith, gone, e, nat_eq.equals_iff key id)

      covered :
          ((id : Uuid) (c : O)
            → lookup id (u.stores contexts_by_uuid) ≡ some c
            → (key == k.get_parent_id c && not (key == nil)) ≡ true
            → IsRight k u (reconcile_child_contexts_for_parent k u key) parent_check id)
          → (check : Check) (id : Uuid) (x : O) → lookup id (u.stores (home k check)) ≡ some x
          → reads_entry k contexts_by_uuid key check id x ≡ true
          → IsRight k u (reconcile_child_contexts_for_parent k u key) check id
      covered p type_check id c e t = absurd (ground (arith, differs id c e, t))
      covered p parent_check id c e t = p id c e (ground (arith, differs id c e, t))
      covered p node_check id n e t = absurd (ground (arith, t))

  pub added_context-Covers :
      (u : ModelData O) (key : Uuid) (obj : O)
      → IsKeyed k contexts_by_uuid u
      → lookup key (u.stores contexts_by_uuid) ≡ some obj
      → Covers k contexts_by_uuid key u
          (reconcile_child_contexts_for_parent k (check_context k u obj) key)
  unfolding store_beq kind_of resource_type_beq code
  added_context-Covers u key obj keyed here =
      let w = check_context k u obj in
      let z = reconcile_child_contexts_for_parent k w key in
      let own = check_context-Repairs_type k v u key obj keyed here in
      let own_parent = check_context-Repairs_parent k v u key obj keyed here in
      let same : w.stores contexts_by_uuid ≡ u.stores contexts_by_uuid =
        own.0.0 contexts_by_uuid (λ e. cc) (λ e. cc) in
      let rest = children w key (rw same keyed) in
      (
        Reconciles-trans k u w z own.0 rest.0,
        covered w z same own.0 own.1 own_parent.1 rest.0 rest.1,
      )
    where
      kept :
          (w z : ModelData O) (check : Check) (id : Uuid)
          → Reconciles k u w
          → Reconciles k w z
          → (key == id) ≡ true
          → IsRight k u w check key
          → IsRight k u z check id
      kept w z check id r q t right b d =
          let same_id : key ≡ id = (nat_eq.equals_iff key id).0 t in
          Reconciles-keeps k w z check id b q (demanded_frame k u w check id r.0 ∙ d)
            (subst (λ j. IsRight k u w check j) same_id right b d)

      covered :
          (w z : ModelData O)
          → w.stores contexts_by_uuid ≡ u.stores contexts_by_uuid
          → Reconciles k u w
          → IsRight k u w type_check key
          → IsRight k u w parent_check key
          → Reconciles k w z
          → ((id : Uuid) (c : O)
              → lookup id (w.stores contexts_by_uuid) ≡ some c
              → (key == k.get_parent_id c && not (key == nil)) ≡ true
              → IsRight k w z parent_check id)
          → (check : Check) (id : Uuid) (x : O) → lookup id (u.stores (home k check)) ≡ some x
          → reads_entry k contexts_by_uuid key check id x ≡ true
          → IsRight k u z check id
      covered w z same r ty pa q p type_check id c e t =
          kept w z type_check id r q (ground (arith, t)) ty
      covered w z same r ty pa q p parent_check id c e t = elim (Bool-cases (key == id)) [
        | inl h ↦ kept w z parent_check id r q h pa
        | inr h ↦ λ b d.
            p id c (rw same e) (ground (arith, h, t)) b
              (demanded_frame k u w parent_check id r.0 ∙ d)
      ]
      covered w z same r ty pa q p node_check id n e t = absurd (ground (arith, t))
