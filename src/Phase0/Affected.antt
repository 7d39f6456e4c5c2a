-- ===== src/Phase0/Affected.antt =====
-- Which checks a call on the model affects.
use modelsrv.Prelude.{
  ◌≡◌, refl, ◌≢◌, ◌∙◌, sym, Bool, true, false, not, ◌&&◌, ◌||◌, some, ◌==◌, nat_eq, arith,
  Bool-cases, inl, inr, ap,
}
use modelsrv.Prelude.Dict.{lookup}
use modelsrv.Event.{Uuid, nil}
use modelsrv.Model.Stores.{
  Store, store_eq, contexts_by_uuid, context_types_by_uuid, nodes_by_uuid, node_types_by_uuid,
  findings_by_uuid,
}
use modelsrv.Model.State.{ModelData, get_event_enabled}
use modelsrv.Model.Landscape.{get_context_by_id, get_context_type_by_id, get_node_type_by_id}
use modelsrv.Phase0.{
  Checks, is_there, context_type_check_passes, context_parent_check_passes, node_type_check_passes,
}
use modelsrv.Phase0.Settles.{Check, type_check, parent_check, node_check, kind_for, has_finding}
use modelsrv.Phase0.Checked.{verdict-subject, demanded, Agrees}

module _ {O : Type 0} where
  -- One entry of one map differs at most.
  abbrev pub IsElsewhere : ModelData O → ModelData O → Store → Uuid → Type 0
  IsElsewhere m u s key =
      (t : Store) (other : Uuid)
      → (s == t && key == other) ≡ false
      → lookup other (u.stores t) ≡ lookup other (m.stores t)

module _ {O : Type 0} (k : Checks O) where
  -- Whether the check of the subject reads the entry.
  abbrev pub reads_entry : Store → Uuid → Check → Uuid → O → Bool
  reads_entry s key type_check id c =
      s == contexts_by_uuid && key == id
      || s == context_types_by_uuid && key == k.get_context_type_id c && not (key == nil)
  reads_entry s key parent_check id c =
      s == contexts_by_uuid && key == id
      || s == contexts_by_uuid && key == k.get_parent_id c && not (key == nil)
  reads_entry s key node_check id n =
      s == nodes_by_uuid && key == id
      || s == node_types_by_uuid && key == k.get_node_type_id n && not (key == nil)

  abbrev pub home : Check → Store
  home type_check = contexts_by_uuid
  home parent_check = contexts_by_uuid
  home node_check = nodes_by_uuid

  -- What is demanded is as before, if the check does not read the entry.
  pub demanded_elsewhere :
      (m u : ModelData O) (s : Store) (key : Uuid) (check : Check) (id : Uuid) (x : O)
      → IsElsewhere m u s key
      → lookup id (u.stores (home check)) ≡ some x
      → reads_entry s key check id x ≡ false
      → demanded k u check id ≡ demanded k m check id
  unfolding context_type_check_passes context_parent_check_passes node_type_check_passes
      get_context_by_id get_context_type_by_id get_node_type_by_id get_event_enabled
  demanded_elsewhere m u s key type_check id c f e r =
      let e' = sym (f contexts_by_uuid id (ground (arith, r))) ∙ e in
      elim (Bool-cases (k.get_context_type_id c == nil)) [
        | inl z ↦ rw (e, e', z) refl
        | inr z ↦
            let apart : (key == k.get_context_type_id c) ≡ true → (key == nil) ≡ false =
              λ p. ground (arith, z, p, nat_eq.equals_iff key (k.get_context_type_id c)) in
            let t = f context_types_by_uuid (k.get_context_type_id c) (ground (arith, r, apart)) in
            rw (e, e', t) refl
      ]
  demanded_elsewhere m u s key parent_check id c f e r =
      let e' = sym (f contexts_by_uuid id (ground (arith, r))) ∙ e in
      elim (Bool-cases (k.get_parent_id c == nil)) [
        | inl z ↦ rw (e, e', z) refl
        | inr z ↦
            let apart : (key == k.get_parent_id c) ≡ true → (key == nil) ≡ false =
              λ p. ground (arith, z, p, nat_eq.equals_iff key (k.get_parent_id c)) in
            let t = f contexts_by_uuid (k.get_parent_id c) (ground (arith, r, apart)) in
            rw (e, e', t) refl
      ]
  demanded_elsewhere m u s key node_check id n f e r =
      let e' = sym (f nodes_by_uuid id (ground (arith, r))) ∙ e in
      elim (Bool-cases (k.get_node_type_id n == nil)) [
        | inl z ↦ rw (e, e', z) refl
        | inr z ↦
            let apart : (key == k.get_node_type_id n) ≡ true → (key == nil) ≡ false =
              λ p. ground (arith, z, p, nat_eq.equals_iff key (k.get_node_type_id n)) in
            let t = f node_types_by_uuid (k.get_node_type_id n) (ground (arith, r, apart)) in
            rw (e, e', t) refl
      ]

  pub subject :
      (m : ModelData O) (check : Check) (id : Uuid) (b : Bool)
      → demanded k m check id ≡ some b
      → (x : O) × (lookup id (m.stores (home check)) ≡ some x)
  subject m type_check id b d = verdict-subject k (context_type_check_passes k m) _ b d
  subject m parent_check id b d = verdict-subject k (context_parent_check_passes k m) _ b d
  subject m node_check id b d = verdict-subject k (node_type_check_passes k m) _ b d

  -- A finding is right after the call, if it was before and its check does not read the entry.
  pub Agrees-elsewhere :
      (m u : ModelData O) (s : Store) (key : Uuid) (check : Check) (id : Uuid) (b : Bool) (x : O)
      → IsElsewhere m u s key
      → s ≢ findings_by_uuid
      → Agrees k m
      → lookup id (u.stores (home check)) ≡ some x
      → reads_entry s key check id x ≡ false
      → demanded k u check id ≡ some b
      → has_finding u (k.finding_id id (kind_for check)) ≡ b
  Agrees-elsewhere m u s key check id b x f n a e r d =
      let fid : Uuid = k.finding_id id (kind_for check) in
      let same =
        f findings_by_uuid fid (ground (arith, n, store_eq.equals_iff s findings_by_uuid)) in
      ap is_there same ∙ a check id b (sym (demanded_elsewhere m u s key check id x f e r) ∙ d)
