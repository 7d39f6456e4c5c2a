-- ===== src/Model/Effects.antt =====
-- What a call that succeeds does: the event that it sends, and what it changes in the maps.
use modelsrv.Prelude.{
  ◌≡◌, refl, ap, Option, none, some, [], ◌∷◌, ◌++◌, ◌==◌, nat_eq, Option-cases, Bool-cases, inl,
  inr, if◌then◌else◌, ◌&&◌,
}
use modelsrv.Prelude.Dict.{insert, delete, lookup-insert, lookup-delete, lookup}
use modelsrv.Event.{Event, Uuid, nil}
use modelsrv.Event.Wire.{delete_operation}
use modelsrv.Model.Stores.{
  Store, store_eq, kind_of, findings_by_uuid, capacities_by_uuid, not_equal,
}
use modelsrv.Model.State
use modelsrv.Model.State.{
  ModelData, Objects, Result, put_store, after, add_operation, add_event_enabled,
  delete_event_enabled, not_found,
}
use modelsrv.Model.Findings.{add_finding, delete_finding_by_id}
use modelsrv.Model.Capacities.{add_capacity, delete_capacity_by_id}
use modelsrv.Model.Capacities.Adding.{add_capacity-cases}
use modelsrv.Model.Calls.{Call, adds, deletes, perform}
use modelsrv.Model.Wiring.{perform-adds, perform-deletes}

module _ {O : Type 0} (ob : Objects O) where
  -- The event of a call that succeeds.
  abbrev pub event_of : ModelData O → Call O → Event O
  event_of m (adds s obj) = record {
    resource_type = kind_of s;
    operation = add_operation (lookup (ob.get_id s obj) (m.stores s));
    resource_id = ob.get_id s obj;
    objects = obj ∷ [];
  }
  event_of m (deletes s id) = record {
    resource_type = kind_of s;
    operation = delete_operation;
    resource_id = id;
    objects = [];
  }

  -- A call fails, or it sends its event.
  abbrev pub Sends : ModelData O → Event O → Result (ModelData O) → Type 0
  Sends m ev (State.ok u) = u.sink ≡ m.sink ++ (ev ∷ [])
  Sends m ev (State.err e) = Unit

  add_event_enabled-Sends :
      (m : ModelData O) (s : Store) (obj : O)
      → Sends m (event_of m (adds s obj)) (add_event_enabled ob m obj s (kind_of s))
  unfolding add_event_enabled
  add_event_enabled-Sends m s obj = elim (Bool-cases (ob.get_id s obj == nil)) [
    | inl e ↦ rw e tt
    | inr e ↦ rw e refl
  ]

  delete_event_enabled-Sends :
      (m : ModelData O) (s : Store) (id : Uuid)
      → Sends m (event_of m (deletes s id)) (delete_event_enabled m id s (kind_of s) (not_found s))
  unfolding delete_event_enabled
  delete_event_enabled-Sends m s id = elim (Option-cases (lookup id (m.stores s))) [
    | inl e ↦ rw (Sends, delete_event_enabled, e) tt
    | inr (x, e) ↦ rw (Sends, delete_event_enabled, e) refl
  ]

  add_finding-Sends :
      (m : ModelData O) (f : O)
      → Sends m (event_of m (adds findings_by_uuid f)) (add_finding ob m f)
  unfolding add_finding kind_of
  add_finding-Sends m f = elim (Bool-cases (ob.get_id findings_by_uuid f == nil)) [
    | inl e ↦ rw e tt
    | inr e ↦ rw e refl
  ]

  delete_finding_by_id-Sends :
      (m : ModelData O) (id : Uuid)
      → Sends m (event_of m (deletes findings_by_uuid id)) (delete_finding_by_id ob m id)
  unfolding delete_finding_by_id kind_of
  delete_finding_by_id-Sends m id = elim (Option-cases (lookup id (m.stores findings_by_uuid))) [
    | inl e ↦ rw (Sends, delete_finding_by_id, e) tt
    | inr (x, e) ↦ rw (Sends, delete_finding_by_id, e) refl
  ]

  add_capacity-Sends :
      (m : ModelData O) (c : O)
      → Sends m (event_of m (adds capacities_by_uuid c)) (add_capacity ob m c)
  unfolding kind_of
  add_capacity-Sends m c = elim (add_capacity-cases ob m c) [
    | inl (x, e) ↦ rw e tt
    | inr (ts, e) ↦ rw e refl
  ]

  delete_capacity_by_id-Sends :
      (m : ModelData O) (id : Uuid)
      → Sends m (event_of m (deletes capacities_by_uuid id)) (delete_capacity_by_id ob m id)
  unfolding delete_capacity_by_id kind_of
  delete_capacity_by_id-Sends m id = elim (Option-cases (lookup id (m.stores capacities_by_uuid))) [
    | inl e ↦ rw (Sends, delete_capacity_by_id, e) tt
    | inr (x, e) ↦ rw (Sends, delete_capacity_by_id, e) refl
  ]

  pub perform-Sends : (m : ModelData O) (c : Call O) → Sends m (event_of m c) (perform ob m c)
  unfolding perform
  perform-Sends m (adds s obj) = elim (Bool-cases (s == findings_by_uuid)) [
    | inl f ↦ rw ((store_eq.equals_iff s findings_by_uuid).0 f) (add_finding-Sends m obj)
    | inr f ↦ elim (Bool-cases (s == capacities_by_uuid)) [
      | inl c ↦ rw ((store_eq.equals_iff s capacities_by_uuid).0 c) (add_capacity-Sends m obj)
      | inr c ↦
          rw (perform-adds ob m s obj (not_equal f) (not_equal c)) (add_event_enabled-Sends m s obj)
    ]
  ]
  perform-Sends m (deletes s id) = elim (Bool-cases (s == findings_by_uuid)) [
    | inl f ↦ rw ((store_eq.equals_iff s findings_by_uuid).0 f) (delete_finding_by_id-Sends m id)
    | inr f ↦ elim (Bool-cases (s == capacities_by_uuid)) [
      | inl c ↦
          rw ((store_eq.equals_iff s capacities_by_uuid).0 c) (delete_capacity_by_id-Sends m id)
      | inr c ↦
          rw (perform-deletes ob m s id (not_equal f) (not_equal c))
            (delete_event_enabled-Sends m s id)
    ]
  ]

  abbrev pub store_of_call : Call O → Store
  store_of_call (adds s obj) = s
  store_of_call (deletes s id) = s

  abbrev pub key_of_call : Call O → Uuid
  key_of_call (adds s obj) = ob.get_id s obj
  key_of_call (deletes s id) = id

  -- What the map has under the key afterwards.
  abbrev pub entry_of_call : Call O → Option O
  entry_of_call (adds s obj) = some obj
  entry_of_call (deletes s id) = none

  -- A call fails, or it changes one entry of its map.
  abbrev pub Changes : ModelData O → Call O → Result (ModelData O) → Type 0
  Changes m c (State.ok u) =
      (t : Store) (other : Uuid)
      → lookup other (u.stores t) ≡ (
          if store_of_call c == t && key_of_call c == other
          then entry_of_call c
          else lookup other (m.stores t))
  Changes m c (State.err e) = Unit

  lookup-inserts :
      (m : ModelData O) (s t : Store) (obj : O) (other : Uuid)
      → lookup other ((put_store m s (insert (ob.get_id s obj) obj (m.stores s))).stores t)
        ≡ (if s == t && ob.get_id s obj == other then some obj else lookup other (m.stores t))
  lookup-inserts m s t obj other = elim (Bool-cases (s == t)) [
    | inl e ↦
        let same : s ≡ t = (store_eq.equals_iff s t).0 e in
        rw (e, lookup-insert (ob.get_id s obj) other obj (m.stores s))
          (ap (λ d. if ob.get_id s obj == other then some obj else lookup other (m.stores d)) same)
    | inr e ↦ rw e refl
  ]

  lookup-deletes :
      (m : ModelData O) (s t : Store) (id other : Uuid)
      → lookup other ((put_store m s (delete id (m.stores s))).stores t)
        ≡ (if s == t && id == other then none else lookup other (m.stores t))
  lookup-deletes m s t id other = elim (Bool-cases (s == t)) [
    | inl e ↦
        let same : s ≡ t = (store_eq.equals_iff s t).0 e in
        rw (e, lookup-delete id other (m.stores s))
          (ap (λ d. if id == other then none else lookup other (m.stores d)) same)
    | inr e ↦ rw e refl
  ]

  add_event_enabled-Changes :
      (m : ModelData O) (s : Store) (obj : O)
      → Changes m (adds s obj) (add_event_enabled ob m obj s (kind_of s))
  unfolding add_event_enabled
  add_event_enabled-Changes m s obj = elim (Bool-cases (ob.get_id s obj == nil)) [
    | inl e ↦ rw e tt
    | inr e ↦ rw e (λ t other. lookup-inserts m s t obj other)
  ]

  delete_event_enabled-Changes :
      (m : ModelData O) (s : Store) (id : Uuid)
      → Changes m (deletes s id) (delete_event_enabled m id s (kind_of s) (not_found s))
  unfolding delete_event_enabled
  delete_event_enabled-Changes m s id = elim (Option-cases (lookup id (m.stores s))) [
    | inl e ↦ rw (Changes, delete_event_enabled, e) tt
    | inr (x, e) ↦ rw (Changes, delete_event_enabled, e) (λ t other. lookup-deletes m s t id other)
  ]

  add_finding-Changes :
      (m : ModelData O) (f : O) → Changes m (adds findings_by_uuid f) (add_finding ob m f)
  unfolding add_finding
  add_finding-Changes m f = elim (Bool-cases (ob.get_id findings_by_uuid f == nil)) [
    | inl e ↦ rw e tt
    | inr e ↦ rw e (λ t other. lookup-inserts m findings_by_uuid t f other)
  ]

  delete_finding_by_id-Changes :
      (m : ModelData O) (id : Uuid)
      → Changes m (deletes findings_by_uuid id) (delete_finding_by_id ob m id)
  unfolding delete_finding_by_id
  delete_finding_by_id-Changes m id = elim (Option-cases (lookup id (m.stores findings_by_uuid))) [
    | inl e ↦ rw (Changes, delete_finding_by_id, e) tt
    | inr (x, e) ↦
        rw (Changes, delete_finding_by_id, e)
          (λ t other. lookup-deletes m findings_by_uuid t id other)
  ]

  add_capacity-Changes :
      (m : ModelData O) (c : O) → Changes m (adds capacities_by_uuid c) (add_capacity ob m c)
  unfolding kind_of
  add_capacity-Changes m c = elim (add_capacity-cases ob m c) [
    | inl (x, e) ↦ rw e tt
    | inr (ts, e) ↦ rw e (λ t other. lookup-inserts m capacities_by_uuid t c other)
  ]

  delete_capacity_by_id-Changes :
      (m : ModelData O) (id : Uuid)
      → Changes m (deletes capacities_by_uuid id) (delete_capacity_by_id ob m id)
  unfolding delete_capacity_by_id kind_of
  delete_capacity_by_id-Changes m id =
      elim (Option-cases (lookup id (m.stores capacities_by_uuid))) [
        | inl e ↦ rw (Changes, delete_capacity_by_id, e) tt
        | inr (x, e) ↦
            rw (Changes, delete_capacity_by_id, e)
              (λ t other. lookup-deletes m capacities_by_uuid t id other)
      ]

  pub perform-Changes : (m : ModelData O) (c : Call O) → Changes m c (perform ob m c)
  unfolding perform
  perform-Changes m (adds s obj) = elim (Bool-cases (s == findings_by_uuid)) [
    | inl f ↦ rw ((store_eq.equals_iff s findings_by_uuid).0 f) (add_finding-Changes m obj)
    | inr f ↦ elim (Bool-cases (s == capacities_by_uuid)) [
      | inl c ↦ rw ((store_eq.equals_iff s capacities_by_uuid).0 c) (add_capacity-Changes m obj)
      | inr c ↦
          rw (perform-adds ob m s obj (not_equal f) (not_equal c))
            (add_event_enabled-Changes m s obj)
    ]
  ]
  perform-Changes m (deletes s id) = elim (Bool-cases (s == findings_by_uuid)) [
    | inl f ↦ rw ((store_eq.equals_iff s findings_by_uuid).0 f) (delete_finding_by_id-Changes m id)
    | inr f ↦ elim (Bool-cases (s == capacities_by_uuid)) [
      | inl c ↦
          rw ((store_eq.equals_iff s capacities_by_uuid).0 c) (delete_capacity_by_id-Changes m id)
      | inr c ↦
          rw (perform-deletes ob m s id (not_equal f) (not_equal c))
            (delete_event_enabled-Changes m s id)
    ]
  ]
