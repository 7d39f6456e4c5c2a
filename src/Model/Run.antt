-- ===== src/Model/Run.antt =====
-- pkg/model/structure.go: any sequence of calls on a new model.
use modelsrv.Prelude.{
  ◌≡◌, refl, ◌≢◌, beq_ne, ◌∙◌, sym, ap, List, [], ◌∷◌, ◌==◌, nat_eq, Option-cases, Bool-cases, inl,
  inr,
}
use modelsrv.Prelude.Dict.{lookup}
use modelsrv.Event.{Uuid, nil}
use modelsrv.Event.Kind.{resource_type_beq, code}
use modelsrv.View.{replay}
use modelsrv.Latest.{new_latest_state_store}
use modelsrv.Latest.Replay.{live, receive_all, live-receive_all}
use modelsrv.Model.Stores.{
  Store, store_eq, not_equal, store_beq, kind_of, findings_by_uuid, capacities_by_uuid,
}
use modelsrv.Model.State.{
  ModelData, ModelError, Objects, after, add_event_enabled, delete_event_enabled, new_model,
}
use modelsrv.Model.Findings.{add_finding, delete_finding_by_id}
use modelsrv.Model.Capacities.{add_capacity, delete_capacity_by_id}
use modelsrv.Model.Wiring.{perform-adds, perform-deletes, get_by_id_lem}
use modelsrv.Model.Calls.{Call, adds, deletes, perform, perform_all, get_by_id}
use modelsrv.Model.Findings.Index.{
  HasIndex, empty-IsIndexed, add_finding-HasIndex, delete_finding_by_id-HasIndex,
}
use modelsrv.Model.Capacities.Adding.{add_capacity-cases}
use modelsrv.Model.Capacities.Tuples
use modelsrv.Model.Capacities.Tuples.{
  HasTuples, add_capacity-HasTuples, delete_capacity_by_id-HasTuples,
}
use modelsrv.Model.Mirror.{
  IsMirrored, single, add_event_enabled-IsMirrored, delete_event_enabled-IsMirrored,
  add_finding-IsMirrored, delete_finding_by_id-IsMirrored, add_capacity-IsMirrored,
  delete_capacity_by_id-IsMirrored,
}

module _ {O : Type 0} (ob : Objects O) where
  -- The model at rest: its events tell what it holds, and both its indexes are exact.
  pub record IsValid (m : ModelData O) : Type 0 where
    pub mirrored : IsMirrored m
    pub has_index : HasIndex ob m
    pub has_tuples : HasTuples ob m

  add_event_enabled-IsValid :
      (m : ModelData O) (obj : O) (s : Store)
      → s ≢ findings_by_uuid
      → s ≢ capacities_by_uuid
      → IsValid m
      → IsValid (after m (add_event_enabled ob m obj s (kind_of s)))
  unfolding add_event_enabled
  add_event_enabled-IsValid m obj s f c v =
      let nf = beq_ne s findings_by_uuid f in
      let nc = beq_ne s capacities_by_uuid c in
      record {
        mirrored = add_event_enabled-IsMirrored ob m obj s v.mirrored;
        has_index = elim (Bool-cases (ob.get_id s obj == nil)) [
          | inl e ↦ rw e v.has_index
          | inr e ↦ rw (e, nf) v.has_index
        ];
        has_tuples = elim (Bool-cases (ob.get_id s obj == nil)) [
          | inl e ↦ rw e v.has_tuples
          | inr e ↦ rw (e, nc) v.has_tuples
        ];
      }

  delete_event_enabled-IsValid :
      (m : ModelData O) (id : Uuid) (s : Store) (missing : ModelError)
      → s ≢ findings_by_uuid
      → s ≢ capacities_by_uuid
      → IsValid m
      → IsValid (after m (delete_event_enabled m id s (kind_of s) missing))
  unfolding delete_event_enabled
  delete_event_enabled-IsValid m id s missing f c v =
      let nf = beq_ne s findings_by_uuid f in
      let nc = beq_ne s capacities_by_uuid c in
      record {
        mirrored = delete_event_enabled-IsMirrored m id s missing v.mirrored;
        has_index = elim (Option-cases (lookup id (m.stores s))) [
          | inl e ↦ rw (after, delete_event_enabled, e) v.has_index
          | inr (x, e) ↦ rw (after, delete_event_enabled, e, nf) v.has_index
        ];
        has_tuples = elim (Option-cases (lookup id (m.stores s))) [
          | inl e ↦ rw (after, delete_event_enabled, e) v.has_tuples
          | inr (x, e) ↦ rw (after, delete_event_enabled, e, nc) v.has_tuples
        ];
      }

  add_finding-IsValid :
      (m : ModelData O) (f : O) → IsValid m → IsValid (after m (add_finding ob m f))
  unfolding add_finding store_beq kind_of resource_type_beq code
  add_finding-IsValid m f v = record {
    mirrored = add_finding-IsMirrored ob m f v.mirrored;
    has_index = add_finding-HasIndex ob m f v.has_index;
    has_tuples = elim (Bool-cases (ob.get_id findings_by_uuid f == nil)) [
      | inl e ↦ rw e v.has_tuples
      | inr e ↦ rw e v.has_tuples
    ];
  }

  pub delete_finding_by_id-IsValid :
      (m : ModelData O) (id : Uuid) → IsValid m → IsValid (after m (delete_finding_by_id ob m id))
  unfolding delete_finding_by_id store_beq kind_of resource_type_beq code
  delete_finding_by_id-IsValid m id v = record {
    mirrored = delete_finding_by_id-IsMirrored ob m id v.mirrored;
    has_index = delete_finding_by_id-HasIndex ob m id v.has_index;
    has_tuples = elim (Option-cases (lookup id (m.stores findings_by_uuid))) [
      | inl e ↦ rw (after, delete_finding_by_id, e) v.has_tuples
      | inr (x, e) ↦ rw (after, delete_finding_by_id, e) v.has_tuples
    ];
  }

  add_capacity-IsValid :
      (m : ModelData O) (c : O) → IsValid m → IsValid (after m (add_capacity ob m c))
  unfolding store_beq kind_of resource_type_beq code
  add_capacity-IsValid m c v = record {
    mirrored = add_capacity-IsMirrored ob m c v.mirrored;
    has_index = elim (add_capacity-cases ob m c) [
      | inl (x, e) ↦ rw e v.has_index
      | inr (ts, e) ↦ rw e v.has_index
    ];
    has_tuples = add_capacity-HasTuples ob m c v.has_tuples;
  }

  delete_capacity_by_id-IsValid :
      (m : ModelData O) (id : Uuid) → IsValid m → IsValid (after m (delete_capacity_by_id ob m id))
  unfolding delete_capacity_by_id store_beq kind_of resource_type_beq code
  delete_capacity_by_id-IsValid m id v = record {
    mirrored = delete_capacity_by_id-IsMirrored ob m id v.mirrored;
    has_index = elim (Option-cases (lookup id (m.stores capacities_by_uuid))) [
      | inl e ↦ rw (after, delete_capacity_by_id, e) v.has_index
      | inr (x, e) ↦ rw (after, delete_capacity_by_id, e) v.has_index
    ];
    has_tuples = delete_capacity_by_id-HasTuples ob m id v.has_tuples;
  }

  -- Every method keeps the model valid, whatever it is given.
  pub perform-IsValid :
      (m : ModelData O) (c : Call O) → IsValid m → IsValid (after m (perform ob m c))
  unfolding perform
  perform-IsValid m (adds s obj) v = elim (Bool-cases (s == findings_by_uuid)) [
    | inl f ↦ rw ((store_eq.equals_iff s findings_by_uuid).0 f) (add_finding-IsValid m obj v)
    | inr f ↦ elim (Bool-cases (s == capacities_by_uuid)) [
      | inl c ↦ rw ((store_eq.equals_iff s capacities_by_uuid).0 c) (add_capacity-IsValid m obj v)
      | inr c ↦
          rw (perform-adds ob m s obj (not_equal f) (not_equal c))
            (add_event_enabled-IsValid m obj s (not_equal f) (not_equal c) v)
    ]
  ]
  perform-IsValid m (deletes s id) v = elim (Bool-cases (s == findings_by_uuid)) [
    | inl f ↦
        rw ((store_eq.equals_iff s findings_by_uuid).0 f) (delete_finding_by_id-IsValid m id v)
    | inr f ↦ elim (Bool-cases (s == capacities_by_uuid)) [
      | inl c ↦
          rw ((store_eq.equals_iff s capacities_by_uuid).0 c) (delete_capacity_by_id-IsValid m id v)
      | inr c ↦
          rw (perform-deletes ob m s id (not_equal f) (not_equal c))
            (delete_event_enabled-IsValid m id s _ (not_equal f) (not_equal c) v)
    ]
  ]

  perform_all-IsValid :
      (m : ModelData O) (cs : List (Call O)) → IsValid m → IsValid (perform_all ob m cs)
  unfolding perform_all
  perform_all-IsValid m [] v = v
  perform_all-IsValid m (c ∷ cs) v =
      perform_all-IsValid (after m (perform ob m c)) cs (perform-IsValid m c v)

  new_model-IsValid : IsValid new_model
  unfolding new_model replay lookup
  new_model-IsValid = record {
    mirrored = λ s id. refl;
    has_index = empty-IsIndexed ob;
    has_tuples = Tuples.empty-IsIndexed ob;
  }

  -- After any calls on a new model, its events tell what it holds, the index of findings is exact,
  -- and so is the index of capacities.
  pub perform_all-new_model : (cs : List (Call O)) → IsValid (perform_all ob new_model cs)
  perform_all-new_model cs = perform_all-IsValid new_model cs new_model-IsValid

  -- After any calls on a new model, the event manager's store, had it received the model's events
  -- in order, holds of every resource what the model's getter returns.
  pub live-perform_all :
      (cs : List (Call O)) (s : Store) (id : Uuid)
      → let m = perform_all ob new_model cs in
        live (receive_all new_latest_state_store m.sink) (kind_of s, id) ≡ single (get_by_id m s id)
  unfolding new_latest_state_store lookup
  live-perform_all cs s id =
      let m = perform_all ob new_model cs in
      live-receive_all new_latest_state_store m.sink (kind_of s, id)
      ∙ ((perform_all-new_model cs).mirrored s id ∙ ap single (sym (get_by_id_lem m s id)))
