-- ===== src/Phase0/Filtered.antt =====
-- A model whose events pass through the filter.
use modelsrv.Prelude.{
  ◌≡◌, refl, ◌≢◌, ◌∙◌, sym, true, false, ◌&&◌, Option, none, some, List, [], ◌∷◌, ◌==◌, nat_eq,
  arith, Bool-cases, inl, inr, ap,
}
use modelsrv.Prelude.Dict.{lookup}
use modelsrv.Event.{Event, Uuid}
use modelsrv.Event.Wire.{operation_eq}
use modelsrv.Model.Stores.{
  Store, store_eq, kind_of, contexts_by_uuid, context_types_by_uuid, nodes_by_uuid,
  node_types_by_uuid, findings_by_uuid, finding_types_by_uuid,
}
use modelsrv.Model.State
use modelsrv.Model.State.{ModelData, Objects, Result, new_model, after, add_operation}
use modelsrv.Model.Catalog.{add_finding_type}
use modelsrv.Model.Findings.{add_finding, delete_finding_by_id}
use modelsrv.Model.Calls.{Call, adds, deletes, perform}
use modelsrv.Model.Effects.{
  event_of, store_of_call, key_of_call, entry_of_call, Changes, perform-Changes,
}
use modelsrv.Model.Apply.Replica.{IsTyped, AllTyped}
use modelsrv.Phase0.{Checks, type_id_from_event, filtered_add, on_upsert, on_delete, filter_func}
use modelsrv.Phase0.Settles.{Check, type_check, parent_check, node_check, IsNamespace}
use modelsrv.Phase0.Checked.{Agrees, Reconciles-refl}
use modelsrv.Phase0.Loops.{IsKeyed, IsRight}
use modelsrv.Phase0.Affected.{IsElsewhere, reads_entry, home}
use modelsrv.Phase0.Covers.{Covers, Covers-Agrees}
use modelsrv.Phase0.Covers.Contexts.{deleted_context-Covers, added_context-Covers}
use modelsrv.Phase0.Covers.Types.{
  context_type-Covers, node_type-Covers, added_node-Covers, deleted_node-Covers,
}

module _ {O : Type 0} (k : Checks O) where
  -- A call that fails sends no event; the event of another goes through the filter.
  abbrev pub passed : ModelData O → Call O → Result (ModelData O) → ModelData O
  passed m c (State.err e) = m
  passed m c (State.ok u) = (filter_func k u (event_of k.types.objects m c)).0

  abbrev pub filtered : ModelData O → Call O → ModelData O
  filtered m c = passed m c (perform k.types.objects m c)

  unfoldable pub filtered_all : ModelData O → List (Call O) → ModelData O
  filtered_all m [] = m
  filtered_all m (c ∷ cs) = filtered_all (filtered m c) cs

  -- Contexts and nodes are stored under their own identifiers, and each has the finding of a check
  -- exactly if it fails the check.
  pub record IsChecked (m : ModelData O) : Type 0 where
    pub keyed_contexts : IsKeyed k contexts_by_uuid m
    pub keyed_nodes : IsKeyed k nodes_by_uuid m
    pub agrees : Agrees k m

  -- The other maps.
  others-Covers :
      (u : ModelData O) (s : Store) (key : Uuid)
      → s ≢ contexts_by_uuid
      → s ≢ context_types_by_uuid
      → s ≢ nodes_by_uuid
      → s ≢ node_types_by_uuid
      → Covers k s key u u
  others-Covers u s key c ct n nt = (Reconciles-refl k u, covered)
    where
      differs : (t : Store) → s ≢ t → (s == t) ≡ false
      differs t d = ground (arith, d, store_eq.equals_iff s t)

      covered :
          (check : Check) (id : Uuid) (x : O)
          → lookup id (u.stores (home k check)) ≡ some x
          → reads_entry k s key check id x ≡ true
          → IsRight k u u check id
      covered type_check id x e t =
          absurd (ground (arith, t, differs contexts_by_uuid c, differs context_types_by_uuid ct))
      covered parent_check id x e t = absurd (ground (arith, t, differs contexts_by_uuid c))
      covered node_check id x e t =
          absurd (ground (arith, t, differs nodes_by_uuid n, differs node_types_by_uuid nt))

  filter_func_upsert :
      (u : ModelData O) (ev : Event O) (old : Option O)
      → ev.operation ≡ add_operation old
      → (filter_func k u ev).0 ≡ on_upsert k u ev ev.resource_type
  unfolding filter_func
  filter_func_upsert u ev none e = rw e refl
  filter_func_upsert u ev (some x) e = rw e refl

  -- The calls of the filter on the model send events themselves, which pass through it too. That of
  -- a finding which it adds is followed in `filtered_add`.
  filtered_add-filtered :
      (m : ModelData O) (f : O)
      → filtered_add k m f (add_finding k.types.objects m f) ≡ filtered m (adds findings_by_uuid f)
  unfolding perform on_upsert kind_of
  filtered_add-filtered m f = by_result (add_finding k.types.objects m f)
    where
      by_result :
          (r : Result (ModelData O)) → filtered_add k m f r ≡ passed m (adds findings_by_uuid f) r
      by_result (State.err e) = refl
      by_result (State.ok u) =
          let id : Uuid = k.types.objects.get_id findings_by_uuid f in
          sym (
            filter_func_upsert u (event_of k.types.objects m (adds findings_by_uuid f))
              (lookup id (m.stores findings_by_uuid)) refl)

  -- Those of finding types that it adds and of findings that it deletes have no case in it.
  added_type-filtered :
      (m : ModelData O) (t : O)
      → after m (add_finding_type k.types.objects m t) ≡ filtered m (adds finding_types_by_uuid t)
  unfolding perform on_upsert kind_of
  added_type-filtered m t = by_result (add_finding_type k.types.objects m t)
    where
      by_result : (r : Result (ModelData O)) → after m r ≡ passed m (adds finding_types_by_uuid t) r
      by_result (State.err e) = refl
      by_result (State.ok u) =
          let id : Uuid = k.types.objects.get_id finding_types_by_uuid t in
          sym (
            filter_func_upsert u (event_of k.types.objects m (adds finding_types_by_uuid t))
              (lookup id (m.stores finding_types_by_uuid)) refl)

  deleted_finding-filtered :
      (m : ModelData O) (id : Uuid)
      → after m (delete_finding_by_id k.types.objects m id)
        ≡ filtered m (deletes findings_by_uuid id)
  unfolding perform on_delete filter_func kind_of
  deleted_finding-filtered m id = by_result (delete_finding_by_id k.types.objects m id)
    where
      by_result : (r : Result (ModelData O)) → after m r ≡ passed m (deletes findings_by_uuid id) r
      by_result (State.err e) = refl
      by_result (State.ok u) = refl

  -- What the filter does on the event of an Add method.
  upsert-Covers :
      (m u : ModelData O) (s : Store) (obj : O)
      → IsNamespace k
      → k.types.objects.is_a s obj ≡ true
      → s ≢ findings_by_uuid
      → IsKeyed k contexts_by_uuid u
      → IsKeyed k nodes_by_uuid u
      → lookup (k.types.objects.get_id s obj) (u.stores s) ≡ some obj
      → Covers k s
          (k.types.objects.get_id s obj)
          u
          (on_upsert k u (event_of k.types.objects m (adds s obj)) (kind_of s))
  unfolding on_upsert type_id_from_event kind_of
  upsert-Covers m u contexts_by_uuid obj v t n ck nk e =
      rw t (added_context-Covers k v u (k.types.objects.get_id contexts_by_uuid obj) obj ck e)
  upsert-Covers m u context_types_by_uuid obj v t n ck nk e =
      rw t (context_type-Covers k v u (k.types.objects.get_id context_types_by_uuid obj) ck)
  upsert-Covers m u nodes_by_uuid obj v t n ck nk e =
      rw t (added_node-Covers k v u (k.types.objects.get_id nodes_by_uuid obj) obj nk e)
  upsert-Covers m u node_types_by_uuid obj v t n ck nk e =
      rw t (node_type-Covers k v u (k.types.objects.get_id node_types_by_uuid obj) nk)
  upsert-Covers m u findings_by_uuid obj v t n ck nk e = absurd (n refl)
  upsert-Covers m u s obj v t n ck nk e =
      others-Covers u s (k.types.objects.get_id s obj) (λ p. cc) (λ p. cc) (λ p. cc) (λ p. cc)

  -- What it does on the event of a Delete method.
  delete-Covers :
      (m u : ModelData O) (s : Store) (id : Uuid)
      → IsNamespace k
      → IsKeyed k contexts_by_uuid u
      → IsKeyed k nodes_by_uuid u
      → lookup id (u.stores s) ≡ none
      → Covers k s id u (on_delete k u (event_of k.types.objects m (deletes s id)) (kind_of s))
  unfolding on_delete kind_of
  delete-Covers m u contexts_by_uuid id v ck nk e = deleted_context-Covers k v u id ck e
  delete-Covers m u context_types_by_uuid id v ck nk e = context_type-Covers k v u id ck
  delete-Covers m u nodes_by_uuid id v ck nk e = deleted_node-Covers k v u id e
  delete-Covers m u node_types_by_uuid id v ck nk e = node_type-Covers k v u id nk
  delete-Covers m u s id v ck nk e = others-Covers u s id (λ p. cc) (λ p. cc) (λ p. cc) (λ p. cc)

  elsewhere :
      (m u : ModelData O) (c : Call O)
      → Changes k.types.objects m c (State.ok u)
      → IsElsewhere m u (store_of_call k.types.objects c) (key_of_call k.types.objects c)
  elsewhere m u c h t other n = h t other ∙ rw n refl

  entry :
      (m u : ModelData O) (c : Call O)
      → Changes k.types.objects m c (State.ok u)
      → lookup (key_of_call k.types.objects c) (u.stores (store_of_call k.types.objects c))
        ≡ entry_of_call k.types.objects c
  entry m u c h =
      let s = store_of_call k.types.objects c in
      let key : Uuid = key_of_call k.types.objects c in
      h s key ∙ ground (arith, store_eq.equals_iff s s, nat_eq.equals_iff key key)

  -- The maps stay keyed.
  IsKeyed-after :
      (m u : ModelData O) (c : Call O) (t : Store)
      → Changes k.types.objects m c (State.ok u)
      → IsKeyed k t m
      → IsKeyed k t u
  IsKeyed-after m u (adds s obj) t h v id x e =
      let key : Uuid = k.types.objects.get_id s obj in
      elim (Bool-cases (s == t && key == id)) [
        | inl y ↦
            let same : s ≡ t = ground (arith, y, store_eq.equals_iff s t) in
            let new : obj ≡ x = ground (arith, h t id, y, e) in
            ap (λ z. k.types.objects.get_id z x) (sym same)
            ∙ (ap (k.types.objects.get_id s) (sym new)
                ∙ ground (arith, y, nat_eq.equals_iff key id))
        | inr y ↦ v id x (sym (elsewhere m u (adds s obj) h t id y) ∙ e)
      ]
  IsKeyed-after m u (deletes s key) t h v id x e = elim (Bool-cases (s == t && key == id)) [
    | inl y ↦ absurd (ground (arith, h t id, y, e))
    | inr y ↦ v id x (sym (elsewhere m u (deletes s key) h t id y) ∙ e)
  ]

  covered-IsChecked :
      (m u w : ModelData O) (c : Call O)
      → Changes k.types.objects m c (State.ok u)
      → store_of_call k.types.objects c ≢ findings_by_uuid
      → Covers k (store_of_call k.types.objects c) (key_of_call k.types.objects c) u w
      → IsChecked m
      → IsChecked w
  covered-IsChecked m u w c h n covers v = record {
    keyed_contexts =
        rw (covers.0.0 contexts_by_uuid (λ e. cc) (λ e. cc))
          (IsKeyed-after m u c contexts_by_uuid h v.keyed_contexts);
    keyed_nodes =
        rw (covers.0.0 nodes_by_uuid (λ e. cc) (λ e. cc))
          (IsKeyed-after m u c nodes_by_uuid h v.keyed_nodes);
    agrees =
        Covers-Agrees k m u w (store_of_call k.types.objects c) (key_of_call k.types.objects c)
          (elsewhere m u c h) n covers v.agrees;
  }

  passed-IsChecked :
      (m : ModelData O) (c : Call O) (r : Result (ModelData O))
      → IsNamespace k
      → IsTyped k.types.objects c
      → store_of_call k.types.objects c ≢ findings_by_uuid
      → Changes k.types.objects m c r
      → IsChecked m
      → IsChecked (passed m c r)
  unfolding filter_func
  passed-IsChecked m c (State.err e) ns t n h v = v
  passed-IsChecked m (adds s obj) (State.ok u) ns t n h v =
      let ev = event_of k.types.objects m (adds s obj) in
      let covers =
        upsert-Covers m u s obj ns t n
          (IsKeyed-after m u (adds s obj) contexts_by_uuid h v.keyed_contexts)
          (IsKeyed-after m u (adds s obj) nodes_by_uuid h v.keyed_nodes)
          (entry m u (adds s obj) h) in
      rw (filter_func_upsert u ev (lookup (k.types.objects.get_id s obj) (m.stores s)) refl)
        (covered-IsChecked m u (on_upsert k u ev (kind_of s)) (adds s obj) h n covers v)
  passed-IsChecked m (deletes s id) (State.ok u) ns t n h v =
      let ev = event_of k.types.objects m (deletes s id) in
      covered-IsChecked m u (on_delete k u ev (kind_of s)) (deletes s id) h n
        (delete-Covers m u s id ns
          (IsKeyed-after m u (deletes s id) contexts_by_uuid h v.keyed_contexts)
          (IsKeyed-after m u (deletes s id) nodes_by_uuid h v.keyed_nodes)
          (entry m u (deletes s id) h))
        v

  -- The calls are typed, and none of them adds or deletes a finding.
  abbrev pub AllOthers : List (Call O) → Type 0
  AllOthers [] = Unit
  AllOthers (c ∷ cs) = (store_of_call k.types.objects c ≢ findings_by_uuid) × AllOthers cs

  filtered_all-IsChecked :
      (m : ModelData O) (cs : List (Call O))
      → IsNamespace k
      → AllTyped k.types.objects cs
      → AllOthers cs
      → IsChecked m
      → IsChecked (filtered_all m cs)
  unfolding filtered_all
  filtered_all-IsChecked m [] ns t n v = v
  filtered_all-IsChecked m (c ∷ cs) ns t n v = filtered_all-IsChecked (filtered m c) cs ns t.1 n.1 (
      passed-IsChecked m c (perform k.types.objects m c) ns t.0 n.0
        (perform-Changes k.types.objects m c) v)

  -- A model that starts empty and whose events pass through the filter, those of the findings that
  -- the filter adds included, has, after any calls that neither add nor delete findings, for each context and node the finding of each check exactly if
  -- it fails the check. The objects are of the types that the methods take, and the identifiers of
  -- findings are the outcome of a hash without collisions.
  pub filtered_all-new_model :
      (cs : List (Call O))
      → IsNamespace k
      → AllTyped k.types.objects cs
      → AllOthers cs
      → IsChecked (filtered_all new_model cs)
  unfolding new_model lookup
  filtered_all-new_model cs ns t n = filtered_all-IsChecked new_model cs ns t n (record {
    keyed_contexts = λ id x e. absurd (none_is_none x e);
    keyed_nodes = λ id x e. absurd (none_is_none x e);
    agrees = none_demanded;
  })
    where
      none_is_none : (x : O) → none ≡ some x → ⊥
      none_is_none x e = cc

      none_demanded : Agrees k new_model
      none_demanded type_check id b d = absurd (cc)
      none_demanded parent_check id b d = absurd (cc)
      none_demanded node_check id b d = absurd (cc)
